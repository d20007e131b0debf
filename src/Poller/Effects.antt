-- ===== src/Poller/Effects.antt =====
-- What a reader of a job sees after a call on it.
use netmantle.Prelude.{
  ℕ, ◌*◌, ◌≡◌, ◌≢◌, ◌⊎◌, ◌↔◌, refl, Bool, true, false, some, String, ℤ, inl, inr, arith, ap, ap₂,
  sym, ◌∙◌, ◌&&◌, ◌||◌, Option-cases, find_first, find_first_sound, find_first-assigned,
  count_where_found, if◌then◌else◌, id_eq_iff,
}
use netmantle.Db.{
  World, ok, update, format_time, parse_time, scan_time, second, coalesce-nullable_str,
}
use netmantle.Poller.Rows.{
  queued, claimed, running, done, failed, cancelled, status_eq, status_eq_iff, Job, JobRow, Store,
  scan_job,
}
use netmantle.Poller.Jobs.{
  get, has_key, cancel, cancel_row, update_cancel, complete_claimed_by, update_finish, finish_row,
  owned_by, in_progress,
}

get_row :
    (tenant i : ℤ) (w : World Store) (job : Job)
    → (get tenant i w).0 ≡ ok job
    → (r : JobRow) × (find_first (has_key tenant i) w.store.jobs.rows ≡ some r) × (job ≡ scan_job r)
unfolding get
get_row tenant i w job h = elim (Option-cases (find_first (has_key tenant i) w.store.jobs.rows)) [
  | inl e ↦ absurd (ground arith)
  | inr (r, e) ↦ (r, e, ground arith)
]

get_found :
    (tenant i : ℤ) (r : JobRow) (v : World Store)
    → find_first (has_key tenant i) v.store.jobs.rows ≡ some r
    → v.fault v.calls ≡ false
    → (get tenant i v).0 ≡ ok (scan_job r)
unfolding get
get_found tenant i r v found clear = ground arith

module _ (tenant i : ℤ) (w v : World Store) (r : JobRow)
    (found : find_first (has_key tenant i) w.store.jobs.rows ≡ some r)
    (clear : v.fault v.calls ≡ false) where
  -- What is read after an UPDATE that does not look at the keys.
  get_assigned :
      (hit : JobRow → Bool) (f : JobRow → JobRow)
      → ((x : JobRow) → has_key tenant i (f x) ≡ has_key tenant i x)
      → v.store ≡ record w.store { jobs = (update hit f w.store.jobs).1 }
      → (get tenant i v).0 ≡ ok (scan_job (if hit r then f r else r))
  unfolding update
  get_assigned hit f same left =
      get_found tenant i (if hit r then f r else r) v
        (ap (λ (s : Store). find_first (has_key tenant i) s.jobs.rows) left
          ∙ find_first-assigned (has_key tenant i) hit f w.store.jobs.rows r same found)
        clear

store-cancel :
    (tenant i : ℤ) (w : World Store)
    → w.fault w.calls ≡ false
    → (cancel tenant i w).1.store ≡ record w.store {
      jobs =
          (update
            (λ r. has_key tenant i r && (status_eq r.status queued || status_eq r.status claimed))
            (cancel_row (format_time (w.clock w.reads)))
            w.store.jobs).1;
    }
unfolding cancel update_cancel
store-cancel tenant i w up = rw up refl

-- Who reads a job before its cancellation and after it, while the driver takes the three statements and
-- nothing else is written, sees it cancelled at the second of the call if it was queued or claimed, and
-- unchanged otherwise.
pub get-cancel :
    (tenant i : ℤ) (u w v : World Store) (job : Job)
    → (get tenant i u).0 ≡ ok job
    → w.store ≡ u.store
    → w.fault w.calls ≡ false
    → v.store ≡ (cancel tenant i w).1.store
    → v.fault v.calls ≡ false
    → ((job.status ≡ queued) ⊎ (job.status ≡ claimed)
        → (get tenant i v).0
          ≡ ok (record job {
            status = cancelled;
            completed_at = some (format_time (w.clock w.reads) * second);
          }))
      × (job.status ≢ queued → job.status ≢ claimed → (get tenant i v).0 ≡ ok job)
unfolding cancel_row scan_job scan_time parse_time
get-cancel tenant i u w v job read before up between clear =
    let (r, at, is) = get_row tenant i u job read in
    let found : find_first (has_key tenant i) w.store.jobs.rows ≡ some r =
      ap (λ (s : Store). find_first (has_key tenant i) s.jobs.rows) before ∙ at in
    let own = find_first_sound (has_key tenant i) w.store.jobs.rows r found in
    let status : job.status ≡ r.status = ap (λ (j : Job). j.status) is in
    let open_ : JobRow → Bool =
      λ x. has_key tenant i x && (status_eq x.status queued || status_eq x.status claimed) in
    let at = format_time (w.clock w.reads) in
    let after =
      get_assigned tenant i w v r found clear open_ (cancel_row at) (λ x. refl)
        (between ∙ store-cancel tenant i w up) in
    (
      λ e.
          let on : open_ r ≡ true = ground (
            arith,
            own,
            status,
            e,
            status_eq_iff r.status queued,
            status_eq_iff r.status claimed,
          ) in
          after
          ∙ ap (λ (b : Bool). ok (scan_job (if b then cancel_row at r else r))) on
          ∙ ap
              (λ (j : Job). ok (record j { status = cancelled; completed_at = some (at * second) }))
              (sym is),
      λ a b.
          let off : open_ r ≡ false = ground (
            arith,
            own,
            status,
            a,
            b,
            status_eq_iff r.status queued,
            status_eq_iff r.status claimed,
          ) in
          after
          ∙ ap (λ (b : Bool). ok (scan_job (if b then cancel_row at r else r))) off
          ∙ ap (λ (j : Job). ok j) (sym is),
    )

owned_iff : (poller : ℤ) (r : JobRow) → (owned_by poller r ≡ true) ↔ (r.poller_id ≡ some poller)
owned_iff poller r = elim (Option-cases r.poller_id) [
  | inl e ↦ rw e (ground arith)
  | inr (p, e) ↦ rw e (ground (arith, id_eq_iff p poller))
]

store-complete_claimed_by :
    (tenant poller i : ℤ) (success : Bool) (result error : String) (w : World Store)
    → w.fault w.calls ≡ false
    → (complete_claimed_by tenant poller i success result error w).1.store ≡ record w.store {
      jobs =
          (update
            (λ r. has_key tenant i r && owned_by poller r && in_progress r.status)
            (finish_row success result error (format_time (w.clock w.reads)))
            w.store.jobs).1;
    }
unfolding complete_claimed_by update_finish
store-complete_claimed_by tenant poller i success result error w up = ground arith

report_accepted :
    (tenant poller i : ℤ) (success : Bool) (result error : String) (w : World Store) (r : JobRow)
    → w.fault w.calls ≡ false
    → find_first (has_key tenant i) w.store.jobs.rows ≡ some r
    → (has_key tenant i r && owned_by poller r && in_progress r.status) ≡ true
    → (complete_claimed_by tenant poller i success result error w).0 ≡ ok tt
unfolding complete_claimed_by update_finish update
report_accepted tenant poller i success result error w r up found on =
    let hit : JobRow → Bool =
      λ x. has_key tenant i x && owned_by poller x && in_progress x.status in
    let some_hit = count_where_found (has_key tenant i) hit w.store.jobs.rows r found on in
    ground arith

scan_job-finish_row :
    (success : Bool) (result error : String) (at : ℕ) (r : JobRow)
    → scan_job (finish_row success result error at r) ≡ record (scan_job r) {
      status = if success then done else failed;
      completed_at = some (at * second);
      result = result;
      error = error;
    }
unfolding scan_job finish_row scan_time parse_time
scan_job-finish_row true result error at r =
    ap₂
      (λ (a b : String). record (scan_job r) {
        status = done;
        completed_at = some (at * second);
        result = a;
        error = b;
      })
      (coalesce-nullable_str result) (coalesce-nullable_str error)
scan_job-finish_row false result error at r =
    ap₂
      (λ (a b : String). record (scan_job r) {
        status = failed;
        completed_at = some (at * second);
        result = a;
        error = b;
      })
      (coalesce-nullable_str result) (coalesce-nullable_str error)

-- Who reads a job before a poller's report on it and after it, while the driver takes the three
-- statements and nothing else is written, sees the status, the texts and the second of the report if
-- the poller had claimed the job and it was not over yet, and the report is accepted; otherwise the
-- job is unchanged.
pub get-complete_claimed_by :
    (tenant poller i : ℤ) (success : Bool) (result error : String) (u w v : World Store) (job : Job)
    → (get tenant i u).0 ≡ ok job
    → w.store ≡ u.store
    → w.fault w.calls ≡ false
    → v.store ≡ (complete_claimed_by tenant poller i success result error w).1.store
    → v.fault v.calls ≡ false
    → (job.poller_id ≡ some poller
        → (job.status ≡ claimed) ⊎ (job.status ≡ running)
        → ((complete_claimed_by tenant poller i success result error w).0 ≡ ok tt)
          × ((get tenant i v).0
              ≡ ok (record job {
                status = if success then done else failed;
                completed_at = some (format_time (w.clock w.reads) * second);
                result = result;
                error = error;
              })))
      × ((job.poller_id ≢ some poller) ⊎ ((job.status ≢ claimed) × (job.status ≢ running))
          → (get tenant i v).0 ≡ ok job)
unfolding finish_row scan_job scan_time parse_time
get-complete_claimed_by tenant poller i success result error u w v job read before up between
      clear =
    let (r, at, is) = get_row tenant i u job read in
    let found : find_first (has_key tenant i) w.store.jobs.rows ≡ some r =
      ap (λ (s : Store). find_first (has_key tenant i) s.jobs.rows) before ∙ at in
    let own = find_first_sound (has_key tenant i) w.store.jobs.rows r found in
    let status : job.status ≡ r.status = ap (λ (j : Job). j.status) is in
    let holder : job.poller_id ≡ r.poller_id = ap (λ (j : Job). j.poller_id) is in
    let open_ : JobRow → Bool =
      λ x. has_key tenant i x && owned_by poller x && in_progress x.status in
    let at = format_time (w.clock w.reads) in
    let finish = finish_row success result error at in
    let after =
      get_assigned tenant i w v r found clear open_ finish (λ x. refl)
        (between ∙ store-complete_claimed_by tenant poller i success result error w up) in
    (
      λ mine e.
          let on : open_ r ≡ true = ground (
            arith,
            own,
            owned_iff poller r,
            sym holder ∙ mine,
            status,
            e,
            status_eq_iff r.status claimed,
            status_eq_iff r.status running,
          ) in
          (
            report_accepted tenant poller i success result error w r up found on,
            after
                ∙ ap (λ (b : Bool). ok (scan_job (if b then finish r else r))) on
                ∙ ap (λ (j : Job). ok j) (scan_job-finish_row success result error at r)
                ∙ ap
                    (λ (j : Job). ok (record j {
                      status = if success then done else failed;
                      completed_at = some (at * second);
                      result = result;
                      error = error;
                    }))
                    (sym is),
          ),
      λ e.
          let off : open_ r ≡ false = ground (
            arith,
            own,
            owned_iff poller r,
            holder,
            status,
            e,
            status_eq_iff r.status claimed,
            status_eq_iff r.status running,
          ) in
          after
          ∙ ap (λ (b : Bool). ok (scan_job (if b then finish r else r))) off
          ∙ ap (λ (j : Job). ok j) (sym is),
    )
