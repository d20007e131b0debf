-- ===== src/Poller/Tests.antt =====
-- The job queue on concrete jobs.
use netmantle.Prelude.{
  String, str_eq, str_eq_iff, ◌≡◌, ◌≢◌, ◌⊎◌, ◌*◌, refl, true, none, some, List, [], ◌∷◌, pos, id_eq,
  arith, find_first, count_where, update_where, All,
}
use netmantle.Db.{World, ok, err, format_time, no_rows, second}
use netmantle.Bcrypt.{Bcrypt}
use netmantle.Poller.Registry.{Poller, register}
use netmantle.Db.Samples.{calm}
use netmantle.Db.Keys.{In, IsKeyed}
use netmantle.Poller.Rows.{
  backup, queued, claimed, running, done, cancelled, Job, status_eq, JobRow, PollerRow, Store,
  empty_store, scan_job,
}
use netmantle.Poller.Jobs.{
  insert_job, get, cancel, queued_row, claim, claim_read, claim_row, claim_expiry,
  compute_new_expires_at, known_poller, complete_claimed_by, update_finish, enqueue_keyed,
  update_claim,
}
use netmantle.Poller.History.{
  enqueues, claims, registers, Reach, here, next, IsOwned, Reach-IsOwned, LaterVersions,
  Reach-LaterJobs, Step-Jobs, Grows,
}
use netmantle.Poller.Pick.{IsWaiting, IsKnown, IsHanded, claim_iff}
use netmantle.Poller.Effects.{get-cancel, get-complete_claimed_by}
use netmantle.Poller.Reports.{enqueue_keyed_stale}

-- A backup of device 5 that is to be done within ten minutes.
abbrev waiting : JobRow
waiting = queued_row (pos 1) (pos 5) backup "{}" "nightly" 900 (some 1500) (pos 1)

abbrev branch : PollerRow
branch = record {
  id = pos 4;
  tenant_id = pos 1;
  zone = "eu";
  name = "branch";
  token_hash = "";
  last_seen = none;
  created_at = 800;
}

abbrev queue : List JobRow → Store
queue rows = record {
  jobs = record { rows = rows; next_id = 2 };
  pollers = record { rows = branch ∷ []; next_id = 5 };
}

abbrev one_waiting : Store
one_waiting = queue (waiting ∷ [])

abbrev taken : JobRow
taken = claim_row (pos 4) 1000 (some 1600) waiting

abbrev one_taken : Store
one_taken = queue (taken ∷ [])

one_waiting-IsKeyed : IsKeyed (λ (r : JobRow). r.id) one_waiting.jobs
unfolding queued_row
one_waiting-IsKeyed = record { unique = (tt, tt); below = (ground arith, tt) }

one_taken-IsKeyed : IsKeyed (λ (r : JobRow). r.id) one_taken.jobs
unfolding queued_row claim_row
one_taken-IsKeyed = record { unique = (tt, tt); below = (ground arith, tt) }

abbrev enqueued : Store → Store
enqueued s =
    (insert_job "nightly" (queued_row (pos 1) (pos 5) backup "{}" "nightly" 900 (some 1500)) s).1

abbrev claimed_once : Store → Store
claimed_once s = (update_claim (pos 1) (pos 4) (pos 1) 1000 (some 1600) s).1

abbrev registered : Store → Store
registered s = record s { pollers = one_waiting.pollers }

a_history : Reach empty_store (claimed_once (registered (enqueued empty_store)))
a_history =
    next
      (next (next here (enqueues (pos 1) (pos 5) backup "{}" "nightly" 900 (some 1500) empty_store))
        (registers one_waiting.pollers (enqueued empty_store)))
      (claims (pos 1) (pos 4) (pos 1) 1000 (some 1600) (registered (enqueued empty_store)))

Reach-IsOwned_example : All IsOwned (claimed_once (registered (enqueued empty_store))).jobs.rows
Reach-IsOwned_example = Reach-IsOwned (claimed_once (registered (enqueued empty_store))) a_history

Reach-LaterJobs_example : LaterVersions one_waiting.jobs.rows (claimed_once one_waiting).jobs.rows
Reach-LaterJobs_example =
    Reach-LaterJobs one_waiting (claimed_once one_waiting)
      (next here (claims (pos 1) (pos 4) (pos 1) 1000 (some 1600) one_waiting))

Step-Jobs_example : Grows one_waiting.jobs (claimed_once one_waiting).jobs
Step-Jobs_example = Step-Jobs (claims (pos 1) (pos 4) (pos 1) 1000 (some 1600) one_waiting)

taken_is : (claim_read (pos 1) (pos 4) waiting (calm one_waiting)).0 ≡ ok (scan_job taken)
unfolding claim_read update_claim count_where id_eq queued_row status_eq known_poller find_first
    update_where claim_row format_time claim_expiry compute_new_expires_at
taken_is = refl

abbrev claim_store : Store
claim_store = (claim_read (pos 1) (pos 4) waiting (calm one_waiting)).1.store

abbrev reported : Store
reported = (complete_claimed_by (pos 1) (pos 4) (pos 1) true "saved" "" (calm one_taken)).1.store

report_ok : (complete_claimed_by (pos 1) (pos 4) (pos 1) true "saved" "" (calm one_taken)).0 ≡ ok tt
unfolding complete_claimed_by update_finish count_where id_eq claim_row queued_row status_eq
report_ok = refl

-- The claim ran out at 950 seconds.
abbrev late : JobRow
late = claim_row (pos 4) 900 (some 950) waiting

-- The connection has given the key 17 last, to a row of some other table.
abbrev busy : World Store
busy = record (calm one_waiting) { last_rowid = pos 17 }

enqueue_keyed_stale_example :
    (enqueue_keyed (pos 1) (pos 5) backup "{}" "nightly" (pos 0) busy).0 ≡ err no_rows
unfolding find_first queued_row id_eq
enqueue_keyed_stale_example =
    enqueue_keyed_stale (pos 1) (pos 5) backup "{}" "nightly" (pos 0) busy waiting refl refl refl
      (ground arith)

plain_matches : (s h : String) → some s ≡ some h → str_eq h s ≡ true
plain_matches s h e = ground (arith, str_eq_iff h s)

-- A hash that is the text itself.
abbrev plain : Bcrypt
plain = record {
  hash = λ salt s. some s;
  matches = λ h s. str_eq h s;
  matches-hash = λ salt s h e. plain_matches s h e;
}

abbrev depot : Poller
depot = record {
  id = pos 5;
  tenant_id = pos 1;
  zone = "us";
  name = "depot";
  last_seen = none;
  created_at = 1000000000000;
}

registers_depot :
    (register plain (pos 1) "us" "depot" (some "t0ken") "" (calm one_waiting)).0
    ≡ ok (depot, "t0ken")
unfolding register find_first id_eq
registers_depot = refl

abbrev registered_store : Store
registered_store =
    (register plain (pos 1) "us" "depot" (some "t0ken") "" (calm one_waiting)).1.store

claim_iff_example :
    let w = calm one_waiting in
    ((job : Job)
      → (claim (pos 1) (pos 4) [] w).0 ≡ ok job
      → IsHanded (pos 1) (pos 4) [] (w.clock w.reads) one_waiting job)
    × ((r : JobRow)
        → In r one_waiting.jobs.rows
        → IsWaiting (pos 1) [] r
        → IsKnown (pos 1) (pos 4) one_waiting.pollers.rows
        → (job : Job) × ((claim (pos 1) (pos 4) [] w).0 ≡ ok job))
claim_iff_example = claim_iff (pos 1) (pos 4) [] (calm one_waiting) (λ n. refl) one_waiting-IsKeyed

waiting_read : (get (pos 1) (pos 1) (calm one_waiting)).0 ≡ ok (scan_job waiting)
unfolding get find_first id_eq queued_row
waiting_read = refl

get-cancel_example :
    let v = calm (cancel (pos 1) (pos 1) (calm one_waiting)).1.store in
    let job = scan_job waiting in
    ((job.status ≡ queued) ⊎ (job.status ≡ claimed)
      → (get (pos 1) (pos 1) v).0
        ≡ ok (record job { status = cancelled; completed_at = some (1000 * second) }))
    × (job.status ≢ queued → job.status ≢ claimed → (get (pos 1) (pos 1) v).0 ≡ ok job)
unfolding format_time
get-cancel_example =
    get-cancel (pos 1) (pos 1) (calm one_waiting) (calm one_waiting)
      (calm (cancel (pos 1) (pos 1) (calm one_waiting)).1.store) (scan_job waiting) waiting_read
      refl refl refl refl

taken_read : (get (pos 1) (pos 1) (calm one_taken)).0 ≡ ok (scan_job taken)
unfolding get find_first id_eq queued_row claim_row
taken_read = refl

get-complete_claimed_by_example :
    let v = calm reported in
    let job = scan_job taken in
    (job.poller_id ≡ some (pos 4)
      → (job.status ≡ claimed) ⊎ (job.status ≡ running)
      → ((complete_claimed_by (pos 1) (pos 4) (pos 1) true "saved" "" (calm one_taken)).0 ≡ ok tt)
        × ((get (pos 1) (pos 1) v).0
            ≡ ok (record job {
              status = done;
              completed_at = some (1000 * second);
              result = "saved";
              error = "";
            })))
    × ((job.poller_id ≢ some (pos 4)) ⊎ ((job.status ≢ claimed) × (job.status ≢ running))
        → (get (pos 1) (pos 1) v).0 ≡ ok job)
unfolding format_time
get-complete_claimed_by_example =
    get-complete_claimed_by (pos 1) (pos 4) (pos 1) true "saved" "" (calm one_taken)
      (calm one_taken) (calm reported) (scan_job taken) taken_read refl refl refl refl
