-- ===== src/Poller/Claims.antt =====
-- What a claim, a report, a reclaim and an enqueue mean for the callers.
use netmantle.Prelude.{
  ℕ, suc, ◌+◌, ◌-◌, ◌≤◌, ◌<◌, ◌≡◌, ◌≢◌, refl, Bool, true, false, Option, none, some, List, [], ◌∷◌,
  String, ℤ, inl, inr, arith, All-map, subst, All, ◌&&◌, ltb, and_true, Option-cases, Bool-cases,
  find_first, filter, id_eq_iff, id_eq_refl, if◌then◌else◌,
}
use netmantle.Db.{World, update, ok, err, no_rows, format_time, parse_time}
use netmantle.Db.Keys.{
  In, count_where-In, In-filter, In-update_where, IsKeyed, find_first-In, insert-IsKeyed,
  update-IsKeyed,
}
use netmantle.Db.Rules.{count_where_none}
use netmantle.Poller.Rows.{
  queued, JobType, status_eq, status_eq_iff, JobRow, Store, scan_job, empty_store,
}
use netmantle.Poller.Jobs.{
  get, has_idempotency_key, insert_job, claim, claimable, oldest, older, claim_read, update_claim,
  claim_row, claim_expiry, compute_new_expires_at, known_poller, update_finish, finish_row, has_key,
  update_reclaim, release_row, update_cancel, cancel_row, queued_row,
}
use netmantle.Poller.History.{
  Step, enqueues, claims, completes, completes_claimed, cancels, reclaims, registers, Reach, here,
  next,
}

-- The new expiry is the second of the claim and the seconds from the creation to the old expiry; an old
-- expiry that does not lie behind the creation gives none.
pub compute_new_expires_at_lem :
    (created expires at : ℕ)
    → compute_new_expires_at created expires at
      ≡ (if ltb created expires then some (format_time at + (expires - created)) else none)
unfolding compute_new_expires_at parse_time format_time
compute_new_expires_at_lem created expires at = ground arith

-- A new expiry lies behind the second of the claim.
pub compute_new_expires_at_later :
    (created expires at e : ℕ)
    → compute_new_expires_at created expires at ≡ some e
    → format_time at < e
compute_new_expires_at_later created expires at e h =
    ground (arith, compute_new_expires_at_lem created expires at)

abbrev IsOldest : JobRow → List JobRow → Type 0
IsOldest r rows = In r rows × All (λ x. r.created_at ≤ x.created_at) rows

older-IsOldest :
    (x m : JobRow) (xs : List JobRow) → IsOldest m xs → IsOldest (older x (some m)) (x ∷ xs)
unfolding older
older-IsOldest x m xs h = elim (Bool-cases (ltb x.created_at m.created_at)) [
  | inl e ↦
      subst (λ k. IsOldest k (x ∷ xs)) (rw e refl)
        (
          inl refl,
          (omega arith, All-map _ _ xs (λ y (k : m.created_at ≤ y.created_at). ground arith) h.1),
        )
  | inr e ↦ subst (λ k. IsOldest k (x ∷ xs)) (rw e refl) (inr h.0, (ground arith, h.1))
]

-- The candidate is one of the rows, and none of them was created before it.
pub oldest_sound : (rows : List JobRow) (r : JobRow) → oldest rows ≡ some r → IsOldest r rows
unfolding oldest
oldest_sound [] r h = ground arith
oldest_sound (x ∷ []) r h =
    let same : older x none ≡ r = cc in
    subst (λ m. IsOldest m (x ∷ [])) same (unfold older in (inl refl, (omega arith, tt)))
oldest_sound (x ∷ y ∷ ys) r h =
    let m = older y (oldest ys) in
    let same : older x (some m) ≡ r = cc in
    subst (λ m. IsOldest m (x ∷ y ∷ ys)) same
      (older-IsOldest x m (y ∷ ys) (oldest_sound (y ∷ ys) m refl))

insert_job-IsKeyed :
    (key : String) (row : ℤ → JobRow) (s : Store)
    → ((i : ℤ) → (row i).id ≡ i)
    → (o : Option JobRow) → find_first (has_idempotency_key key) s.jobs.rows ≡ o
    → IsKeyed (λ r. r.id) s.jobs
    → IsKeyed (λ r. r.id) (insert_job key row s).1.jobs
unfolding insert_job
insert_job-IsKeyed key row s own none e h =
    rw (e, insert_job) (insert-IsKeyed (λ (r : JobRow). r.id) row s.jobs own h)
insert_job-IsKeyed key row s own (some r) e h = rw (e, insert_job) h

-- Every statement keeps the keys of the jobs in order.
pub Step-IsKeyed :
    {s t : Store} → Step s t → IsKeyed (λ r. r.id) s.jobs → IsKeyed (λ r. r.id) t.jobs
unfolding update_claim update_finish update_cancel update_reclaim update
Step-IsKeyed (enqueues tenant device type payload key at expires s) h =
    insert_job-IsKeyed key (queued_row tenant device type payload key at expires) s
      (λ i. unfold queued_row in refl) (find_first (has_idempotency_key key) s.jobs.rows) refl h
Step-IsKeyed (claims tenant poller i at expires s) h =
    update-IsKeyed (λ (r : JobRow). r.id) _ (claim_row poller at expires)
      (λ r. unfold claim_row in refl) s.jobs h
Step-IsKeyed (completes tenant i success result error at s) h =
    update-IsKeyed (λ (r : JobRow). r.id) _ (finish_row success result error at)
      (λ r. unfold finish_row in refl) s.jobs h
Step-IsKeyed (completes_claimed tenant poller i success result error at s) h =
    update-IsKeyed (λ (r : JobRow). r.id) _ (finish_row success result error at)
      (λ r. unfold finish_row in refl) s.jobs h
Step-IsKeyed (cancels tenant i at s) h =
    update-IsKeyed (λ (r : JobRow). r.id) _ (cancel_row at) (λ r. unfold cancel_row in refl) s.jobs
      h
Step-IsKeyed (reclaims at s) h =
    update-IsKeyed (λ (r : JobRow). r.id) _ release_row (λ r. unfold release_row in refl) s.jobs h
Step-IsKeyed (registers p s) h = h

-- In every history from the empty tables, the keys of the jobs are all different, and none is one that
-- is still to be given.
pub Reach-IsKeyed : (t : Store) → Reach empty_store t → IsKeyed (λ r. r.id) t.jobs
Reach-IsKeyed t here = record { unique = tt; below = tt }
Reach-IsKeyed t (next {t = u} r st) = Step-IsKeyed st (Reach-IsKeyed u r)

-- The UPDATE of a claim on a row that is queued.
update_claim_hit :
    (tenant poller : ℤ) (r : JobRow) (at : ℕ) (expires : Option ℕ) (s : Store)
    → IsKeyed (λ r. r.id) s.jobs
    → In r s.jobs.rows
    → r.tenant_id ≡ tenant
    → r.status ≡ queued
    → known_poller tenant poller s.pollers.rows ≡ true
    → ((update_claim tenant poller r.id at expires s).0 ≢ 0)
      × (find_first (has_key tenant r.id) (update_claim tenant poller r.id at expires s).1.jobs.rows
          ≡ some (claim_row poller at expires r))
unfolding update_claim update claim_row
update_claim_hit tenant poller r at expires s keyed there own wait known =
    let hit : JobRow → Bool = λ x.
      has_key tenant r.id x
      && status_eq x.status queued
      && known_poller tenant poller s.pollers.rows in
    let on : hit r ≡ true =
      ground
        (arith, id_eq_iff r.tenant_id tenant, id_eq_refl r.id, status_eq_iff r.status queued) in
    let f = claim_row poller at expires in
    let key = λ (x : JobRow). x.id in
    (
      count_where-In hit r s.jobs.rows there on,
      find_first-In key (has_key tenant r.id) (f r) _
          (λ x q. (id_eq_iff x.id r.id).0 (and_true _ _ q).1)
          (ground (arith, id_eq_iff r.tenant_id tenant, id_eq_refl r.id))
          (update-IsKeyed key hit f (λ x. refl) s.jobs keyed).unique
          (In-update_where hit f r s.jobs.rows there on),
    )

update_claim_unknown :
    (tenant poller i : ℤ) (at : ℕ) (expires : Option ℕ) (s : Store)
    → known_poller tenant poller s.pollers.rows ≡ false
    → (update_claim tenant poller i at expires s).0 ≡ 0
unfolding update_claim update
update_claim_unknown tenant poller i at expires s unknown =
    count_where_none _ s.jobs.rows (λ r. ground arith)

claim_empty :
    (tenant poller : ℤ) (types : List JobType) (w : World Store)
    → w.fault w.calls ≡ false
    → oldest (filter (claimable tenant types) w.store.jobs.rows) ≡ none
    → (claim tenant poller types w).0 ≡ err no_rows
unfolding claim
claim_empty tenant poller types w up e = ground arith

pub candidate :
    (tenant : ℤ) (types : List JobType) (rows : List JobRow) (r : JobRow)
    → oldest (filter (claimable tenant types) rows) ≡ some r
    → In r rows × (r.tenant_id ≡ tenant) × (r.status ≡ queued)
candidate tenant types rows r e =
    let (there, on) = In-filter (claimable tenant types) r rows (oldest_sound _ r e).0 in
    (
      there,
      ground (arith, id_eq_iff r.tenant_id tenant),
      ground (arith, status_eq_iff r.status queued),
    )

claim_read_lem :
    (tenant poller : ℤ) (r : JobRow) (w : World Store)
    → w.fault w.calls ≡ false
    → w.fault (suc w.calls) ≡ false
    → IsKeyed (λ x. x.id) w.store.jobs
    → In r w.store.jobs.rows
    → r.tenant_id ≡ tenant
    → r.status ≡ queued
    → let t = w.clock w.reads in
      (claim_read tenant poller r w).0 ≡ (
        if known_poller tenant poller w.store.pollers.rows
        then ok (scan_job (claim_row poller (format_time t) (claim_expiry r t) r))
        else err no_rows)
unfolding claim_read get
claim_read_lem tenant poller r w one two keyed there own wait =
    let t = w.clock w.reads in
    elim (Bool-cases (known_poller tenant poller w.store.pollers.rows)) [
      | inl known ↦ ground (
        arith,
        update_claim_hit tenant poller r (format_time t) (claim_expiry r t) w.store keyed there own
            wait known,
      )
      | inr unknown ↦ ground (
        arith,
        update_claim_unknown tenant poller r.id (format_time t) (claim_expiry r t) w.store unknown,
      )
    ]

claim_hit :
    (tenant poller : ℤ) (types : List JobType) (w : World Store) (r : JobRow)
    → ((n : ℕ) → w.fault n ≡ false)
    → IsKeyed (λ x. x.id) w.store.jobs
    → oldest (filter (claimable tenant types) w.store.jobs.rows) ≡ some r
    → let t = w.clock w.reads in
      (claim tenant poller types w).0 ≡ (
        if known_poller tenant poller w.store.pollers.rows
        then ok (scan_job (claim_row poller (format_time t) (claim_expiry r t) r))
        else err no_rows)
unfolding claim
claim_hit tenant poller types w r up keyed e =
    let (there, own, wait) = candidate tenant types w.store.jobs.rows r e in
    let v : World Store = record w { calls = suc w.calls } in
    ground (
      arith,
      up w.calls,
      claim_read_lem tenant poller r v (up (suc w.calls)) (up (suc (suc w.calls))) keyed there own
          wait,
    )

-- Where the driver refuses nothing and the keys are in order, a claim hands out the candidate.
pub claim_answer :
    (tenant poller : ℤ) (types : List JobType) (w : World Store)
    → ((n : ℕ) → w.fault n ≡ false)
    → IsKeyed (λ r. r.id) w.store.jobs
    → let t = w.clock w.reads in
      (claim tenant poller types w).0
      ≡ elim (oldest (filter (claimable tenant types) w.store.jobs.rows)) [
        | none ↦ err no_rows
        | some r ↦
            if known_poller tenant poller w.store.pollers.rows
            then ok (scan_job (claim_row poller (format_time t) (claim_expiry r t) r))
            else err no_rows
      ]
claim_answer tenant poller types w up keyed =
    elim (Option-cases (oldest (filter (claimable tenant types) w.store.jobs.rows))) [
      | inl e ↦ rw e (claim_empty tenant poller types w (up _) e)
      | inr (r, e) ↦ rw e (claim_hit tenant poller types w r up keyed e)
    ]
