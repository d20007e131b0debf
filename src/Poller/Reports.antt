-- ===== src/Poller/Reports.antt =====
-- Races between claims, reports of results, the release of expired claims, and repeated enqueues.
use netmantle.Prelude.{
  ℕ, suc, ◌≡◌, ◌≢◌, refl, Bool, false, Option, none, some, List, String, ℤ, pos, arith, ap, ◌∙◌,
  ◌==◌, ◌&&◌, find_first, count_where, update_where, id_eq_iff, if◌then◌else◌,
}
use netmantle.Db.{World, ok, err, no_rows, format_time, update}
use netmantle.Db.Keys.{IsKeyed, Unique, count_where_gone}
use netmantle.Db.Rules.{count_where-update_where}
use netmantle.Poller.Rows.{JobType, status_eq, Job, JobRow, Store, scan_job}
use netmantle.Poller.Jobs.{
  get, get_by_key, has_idempotency_key, enqueue_keyed, insert_job, claim_read, update_claim,
  claim_row, claim_expiry, complete_claimed_by, update_finish, finish_row, has_key, owned_by,
  in_progress, update_reclaim, expired, release_row, reclaim_expired,
}

-- The UPDATE of a second claim of one job finds no queued row.
update_claim_again :
    (tenant poller poller' i : ℤ) (at at' : ℕ) (expires expires' : Option ℕ) (s t : Store)
    → IsKeyed (λ r. r.id) s.jobs
    → (update_claim tenant poller i at expires s).0 ≢ 0
    → t ≡ (update_claim tenant poller i at expires s).1
    → (update_claim tenant poller' i at' expires' t).0 ≡ 0
unfolding update_claim update claim_row status_eq
update_claim_again tenant poller poller' i at at' expires expires' s t keyed found e =
    rw (ap (λ (u : Store). u.jobs.rows) e) (
      count_where_gone (λ (r : JobRow). r.id) _ _ (claim_row poller at expires) i
        (λ x h. ground (arith, id_eq_iff x.id i)) (λ x h. ground (arith, id_eq_iff x.id i))
        (λ x. refl) (λ x h. ground arith) s.jobs.rows keyed.unique found)

claim_read_ok :
    (tenant poller : ℤ) (r : JobRow) (w : World Store) (x : Job)
    → (claim_read tenant poller r w).0 ≡ ok x
    → let u =
        update_claim tenant poller r.id
          (format_time (w.clock w.reads))
          (claim_expiry r (w.clock w.reads))
          w.store in
      (u.0 ≢ 0) × ((claim_read tenant poller r w).1.store ≡ u.1)
unfolding claim_read get
claim_read_ok tenant poller r w x h = ground arith

claim_read_lost :
    (tenant poller : ℤ) (r : JobRow) (w : World Store)
    → w.fault w.calls ≡ false
    → (update_claim tenant poller r.id
        (format_time (w.clock w.reads))
        (claim_expiry r (w.clock w.reads))
        w.store).0
      ≡ 0
    → (claim_read tenant poller r w).0 ≡ err no_rows
unfolding claim_read get
claim_read_lost tenant poller r w up miss = ground arith

-- Two pollers that have both read the same candidate, in tables whose keys are in order: once the claim
-- of one has returned the job, that of the other, run on the tables that the first left, answers
-- ErrNoRows, if the driver takes its UPDATE.
pub claim_once :
    (tenant a b : ℤ) (r : JobRow) (w v : World Store) (x : Job)
    → IsKeyed (λ y. y.id) w.store.jobs
    → (claim_read tenant a r w).0 ≡ ok x
    → v.store ≡ (claim_read tenant a r w).1.store
    → v.fault v.calls ≡ false
    → (claim_read tenant b r v).0 ≡ err no_rows
claim_once tenant a b r w v x keyed won between up =
    let (found, left) = claim_read_ok tenant a r w x won in
    claim_read_lost tenant b r v up
      (update_claim_again tenant a b r.id _ _ _ _ w.store v.store keyed found (between ∙ left))

-- The jobs that a report of `poller` may end.
abbrev pub reportable : ℤ → ℤ → ℤ → JobRow → Bool
reportable tenant poller i r = has_key tenant i r && owned_by poller r && in_progress r.status

-- Where the driver takes the UPDATE, a report is taken exactly if the tenant has the job under that key, in progress and owned by the
-- poller that reports; then that row is finished, and no other is written. Otherwise the answer is
-- ErrNoRows and nothing is written.
pub complete_claimed_by_lem :
    (tenant poller i : ℤ) (success : Bool) (result error : String) (w : World Store)
    → w.fault w.calls ≡ false
    → let s' = (complete_claimed_by tenant poller i success result error w).1.store in
      ((complete_claimed_by tenant poller i success result error w).0 ≡ (
        if count_where (reportable tenant poller i) w.store.jobs.rows == 0
        then err no_rows
        else ok tt))
      × (s'.jobs.rows
          ≡ update_where
              (reportable tenant poller i)
              (finish_row success result error (format_time (w.clock w.reads)))
              w.store.jobs.rows)
unfolding complete_claimed_by update_finish update
complete_claimed_by_lem tenant poller i success result error w up = (ground arith, ground arith)

complete_claimed_by_ok :
    (tenant poller i : ℤ) (success : Bool) (result error : String) (w : World Store)
    → (complete_claimed_by tenant poller i success result error w).0 ≡ ok tt
    → (count_where (reportable tenant poller i) w.store.jobs.rows ≢ 0)
      × ((complete_claimed_by tenant poller i success result error w).1.store.jobs.rows
          ≡ update_where
              (reportable tenant poller i)
              (finish_row success result error (format_time (w.clock w.reads)))
              w.store.jobs.rows)
unfolding complete_claimed_by update_finish update
complete_claimed_by_ok tenant poller i success result error w h = (ground arith, ground arith)

complete_claimed_by_lost :
    (tenant poller i : ℤ) (success : Bool) (result error : String) (w : World Store)
    → w.fault w.calls ≡ false
    → count_where (reportable tenant poller i) w.store.jobs.rows ≡ 0
    → (complete_claimed_by tenant poller i success result error w).0 ≡ err no_rows
unfolding complete_claimed_by update_finish update
complete_claimed_by_lost tenant poller i success result error w up miss = ground arith

reportable_again :
    (tenant poller poller' i : ℤ) (success : Bool) (result error : String) (at : ℕ)
    (rows : List JobRow)
    → Unique (λ r. r.id) rows
    → count_where (reportable tenant poller i) rows ≢ 0
    → count_where
        (reportable tenant poller' i)
        (update_where (reportable tenant poller i) (finish_row success result error at) rows)
      ≡ 0
unfolding finish_row status_eq
reportable_again tenant poller poller' i success result error at rows unique found =
    count_where_gone (λ (r : JobRow). r.id) (reportable tenant poller i)
      (reportable tenant poller' i) (finish_row success result error at) i
      (λ x h. ground (arith, id_eq_iff x.id i)) (λ x h. ground (arith, id_eq_iff x.id i))
      (λ x. refl) (λ x h. ground arith) rows unique found

-- A job is reported once: in tables whose keys are in order, after a report that was taken, a further
-- report of the same job, by any poller, answers ErrNoRows, if the driver takes its UPDATE and only
-- other tables were written in between.
pub complete_claimed_by_once :
    (tenant poller poller' i : ℤ) (success success' : Bool) (result result' error error' : String)
    (w v : World Store)
    → IsKeyed (λ y. y.id) w.store.jobs
    → (complete_claimed_by tenant poller i success result error w).0 ≡ ok tt
    → v.store ≡ (complete_claimed_by tenant poller i success result error w).1.store
    → v.fault v.calls ≡ false
    → (complete_claimed_by tenant poller' i success' result' error' v).0 ≡ err no_rows
complete_claimed_by_once tenant poller poller' i success success' result result' error error' w v
      keyed taken between up =
    let (found, left) = complete_claimed_by_ok tenant poller i success result error w taken in
    complete_claimed_by_lost tenant poller' i success' result' error' v up (
      rw (ap (λ (s : Store). s.jobs.rows) between ∙ left) (
        reportable_again tenant poller poller' i success result error _ w.store.jobs.rows
          keyed.unique found))

-- Where the driver takes the UPDATE, the jobs that `reclaim_expired` answers for are exactly those that were claimed and past their expiry
-- at its time; each of them is queued again with no owner, no other job is written, and no job is
-- left that is claimed and past that time.
pub reclaim_expired_lem :
    (w : World Store)
    → w.fault w.calls ≡ false
    → let at = format_time (w.clock w.reads) in
      let rows' = (reclaim_expired w).1.store.jobs.rows in
      ((reclaim_expired w).0 ≡ ok (count_where (expired at) w.store.jobs.rows))
      × (rows' ≡ update_where (expired at) release_row w.store.jobs.rows)
      × (count_where (expired at) rows' ≡ 0)
unfolding reclaim_expired update_reclaim update
reclaim_expired_lem w up =
    let at = format_time (w.clock w.reads) in
    let gone =
      count_where-update_where (expired at) release_row w.store.jobs.rows
        (λ x h. unfold release_row status_eq in refl) in
    (ground arith, ground arith, ground (arith, gone))

-- An enqueue under a key that some job has, where the driver refuses nothing, inserts nothing; and on
-- a connection that has given no key yet it returns the first job of that key, whatever its tenant.
pub enqueue_keyed_known :
    (tenant device : ℤ) (type : JobType) (payload key : String) (ttl : ℤ) (w : World Store)
    (r : JobRow)
    → w.fault w.calls ≡ false
    → w.fault (suc w.calls) ≡ false
    → find_first (has_idempotency_key key) w.store.jobs.rows ≡ some r
    → w.last_rowid ≡ pos 0
    → ((enqueue_keyed tenant device type payload key ttl w).1.store ≡ w.store)
      × ((enqueue_keyed tenant device type payload key ttl w).0 ≡ ok (scan_job r))
unfolding enqueue_keyed insert_job get get_by_key
enqueue_keyed_known tenant device type payload key ttl w r one two known quiet =
    (ground arith, ground (arith, id_eq_iff w.last_rowid (pos 0)))

-- The test for a conflict is the answer of LastInsertId. On a connection that has inserted before, in any
-- table, that answer is the last key it gave: where the driver refuses nothing, the enqueue of a known key then returns whatever job the
-- tenant has under that number, and ErrNoRows if it has none, and never looks for the key.
pub enqueue_keyed_stale :
    (tenant device : ℤ) (type : JobType) (payload key : String) (ttl : ℤ) (w : World Store)
    (r : JobRow)
    → w.fault w.calls ≡ false
    → w.fault (suc w.calls) ≡ false
    → find_first (has_idempotency_key key) w.store.jobs.rows ≡ some r
    → w.last_rowid ≢ pos 0
    → (enqueue_keyed tenant device type payload key ttl w).0
      ≡ elim (find_first (has_key tenant w.last_rowid) w.store.jobs.rows) [
        | none ↦ err no_rows
        | some j ↦ ok (scan_job j)
      ]
unfolding enqueue_keyed insert_job get get_by_key
enqueue_keyed_stale tenant device type payload key ttl w r one two known stale =
    ground (arith, id_eq_iff w.last_rowid (pos 0))
