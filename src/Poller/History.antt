-- ===== src/Poller/History.antt =====
-- Histories of the job queue, statement by statement, and what they do to every job.
use netmantle.Prelude.{
  ℕ, ◌≡◌, refl, Bool, true, false, Option, none, some, List, String, ℤ, arith, All, ◌&&◌, ◌||◌,
  and_true, find_first,
}
use netmantle.Db.{Table, insert}
use netmantle.Db.Evolve.{
  Evolves, Evolves-refl, Evolves-append, Evolves-update_where, Evolves-trans, Evolves-map,
  All-Evolves,
}
use netmantle.Poller.Rows.{
  JobStatus, queued, claimed, running, done, failed, cancelled, JobType, status_eq, JobRow,
  PollerRow, Store, empty_store,
}
use netmantle.Poller.Jobs.{
  queued_row, insert_job, has_idempotency_key, update_claim, claim_row, update_finish, finish_row,
  in_progress, update_cancel, cancel_row, update_reclaim, release_row, has_key, owned_by,
}

-- The statements that write jobs, each with the values that some caller computed earlier. `registers`
-- lets the registry write the table of pollers. The deletion of a poller, a device or a tenant, whose
-- foreign keys clear poller_id or take jobs along, is no step.
pub data Step : Store → Store → Type 0 where
  enqueues :
      (tenant device : ℤ) (type : JobType) (payload key : String) (at : ℕ) (expires : Option ℕ)
      (s : Store)
      → Step s (insert_job key (queued_row tenant device type payload key at expires) s).1
  claims :
      (tenant poller i : ℤ) (at : ℕ) (expires : Option ℕ) (s : Store)
      → Step s (update_claim tenant poller i at expires s).1
  completes :
      (tenant i : ℤ) (success : Bool) (result error : String) (at : ℕ) (s : Store)
      → Step s
          (update_finish
            (λ r. has_key tenant i r && in_progress r.status)
            success
            result
            error
            at
            s).1
  completes_claimed :
      (tenant poller i : ℤ) (success : Bool) (result error : String) (at : ℕ) (s : Store)
      → Step s
          (update_finish
            (λ r. has_key tenant i r && owned_by poller r && in_progress r.status)
            success
            result
            error
            at
            s).1
  cancels : (tenant i : ℤ) (at : ℕ) (s : Store) → Step s (update_cancel tenant i at s).1
  reclaims : (at : ℕ) (s : Store) → Step s (update_reclaim at s).1
  registers : (p : Table PollerRow) (s : Store) → Step s (record s { pollers = p })

pub data Reach (s : Store) : Store → Type 0 where
  here : Reach s s
  next : {t u : Store} → Reach s t → Step t u → Reach s u

-- One step of one job.
pub data JobStep : JobRow → JobRow → Type 0 where
  same : (r : JobRow) → JobStep r r
  claim_step :
      (poller : ℤ) (at : ℕ) (expires : Option ℕ) (r : JobRow)
      → status_eq r.status queued ≡ true
      → JobStep r (claim_row poller at expires r)
  finish_step :
      (success : Bool) (result error : String) (at : ℕ) (r : JobRow)
      → in_progress r.status ≡ true
      → JobStep r (finish_row success result error at r)
  cancel_step :
      (at : ℕ) (r : JobRow)
      → (status_eq r.status queued || status_eq r.status claimed) ≡ true
      → JobStep r (cancel_row at r)
  release_step : (r : JobRow) → status_eq r.status claimed ≡ true → JobStep r (release_row r)

pub data Fresh : JobRow → Type 0 where
  fresh :
      (tenant device : ℤ) (type : JobType) (payload key : String) (at : ℕ) (expires : Option ℕ)
      (i : ℤ)
      → Fresh (queued_row tenant device type payload key at expires i)

abbrev pub Grows : Table JobRow → Table JobRow → Type 0
Grows t u = Evolves JobStep Fresh t.rows u.rows

insert_job-Evolves :
    (tenant device : ℤ) (type : JobType) (payload key : String) (at : ℕ) (expires : Option ℕ)
    (s : Store) (o : Option JobRow)
    → find_first (has_idempotency_key key) s.jobs.rows ≡ o
    → Grows s.jobs (insert_job key (queued_row tenant device type payload key at expires) s).1.jobs
unfolding insert_job insert
insert_job-Evolves tenant device type payload key at expires s none e =
    rw (e, insert_job)
      (Evolves-append JobStep Fresh same s.jobs.rows _
        (fresh tenant device type payload key at expires _, tt))
insert_job-Evolves tenant device type payload key at expires s (some r) e =
    rw (e, insert_job) (Evolves-refl JobStep Fresh same s.jobs.rows)

-- Every statement moves each job along the machine, or leaves it, and adds queued jobs only.
pub Step-Jobs : {s t : Store} → Step s t → Grows s.jobs t.jobs
unfolding update_claim update_finish update_cancel update_reclaim
Step-Jobs (enqueues tenant device type payload key at expires s) =
    insert_job-Evolves tenant device type payload key at expires s
      (find_first (has_idempotency_key key) s.jobs.rows) refl
Step-Jobs (claims tenant poller i at expires s) =
    Evolves-update_where JobStep Fresh same _ _ s.jobs.rows
      (λ r hit. claim_step poller at expires r (ground arith))
Step-Jobs (completes tenant i success result error at s) =
    Evolves-update_where JobStep Fresh same _ _ s.jobs.rows
      (λ r hit. finish_step success result error at r (and_true _ _ hit).1)
Step-Jobs (completes_claimed tenant poller i success result error at s) =
    Evolves-update_where JobStep Fresh same _ _ s.jobs.rows
      (λ r hit. finish_step success result error at r (and_true _ _ hit).1)
Step-Jobs (cancels tenant i at s) =
    Evolves-update_where JobStep Fresh same _ _ s.jobs.rows
      (λ r hit. cancel_step at r (and_true _ _ hit).1)
Step-Jobs (reclaims at s) =
    Evolves-update_where JobStep Fresh same _ _ s.jobs.rows
      (λ r hit. release_step r (and_true _ _ hit).0)
Step-Jobs (registers p s) = Evolves-refl JobStep Fresh same s.jobs.rows

abbrev pub IsSome {ℓ} : {A : Type ℓ} → Option A → Type 0
IsSome none = ⊥
IsSome (some _) = Unit

-- Who has the job, since when, and whether it is over, by its status.
abbrev pub Owner : JobStatus → Option ℤ → Option ℕ → Option ℕ → Type 0
Owner queued p c d = (p ≡ none) × (c ≡ none) × (d ≡ none)
Owner claimed p c d = IsSome p × IsSome c × (d ≡ none)
Owner running p c d = ⊥
Owner done p c d = IsSome p × IsSome c × IsSome d
Owner failed p c d = IsSome p × IsSome c × IsSome d
Owner cancelled p c d = IsSome d

abbrev pub IsOwned : JobRow → Type 0
IsOwned r = Owner r.status r.poller_id r.claimed_at r.completed_at

Fresh-IsOwned : {r : JobRow} → Fresh r → IsOwned r
unfolding queued_row
Fresh-IsOwned (fresh tenant device type payload key at expires i) = (refl, refl, refl)

JobStep-IsOwned : {x y : JobRow} → JobStep x y → IsOwned x → IsOwned y
unfolding claim_row finish_row cancel_row release_row status_eq
JobStep-IsOwned (same r) h = h
JobStep-IsOwned (claim_step poller at expires r on) h = ground arith
JobStep-IsOwned (finish_step success result error at r on) h = ground arith
JobStep-IsOwned (cancel_step at r on) h = ground arith
JobStep-IsOwned (release_step r on) h = ground arith

-- In every history from the empty tables, whatever the pollers and the core do, in whatever order, while
-- no poller, device or tenant is deleted, a job has an owner exactly while and after a poller works on it: a queued job has none, a claimed one has an owner and the time of the claim,
-- a done or failed one has both and its end, a cancelled one has its end; and no job is ever in the
-- state `running`.
pub Reach-IsOwned : (t : Store) → Reach empty_store t → All IsOwned t.jobs.rows
Reach-IsOwned t here = tt
Reach-IsOwned t (next {t = u} r st) =
    All-Evolves JobStep Fresh IsOwned (λ _ d. Fresh-IsOwned d) (λ _ _ e h. JobStep-IsOwned e h)
      u.jobs.rows t.jobs.rows (Step-Jobs st) (Reach-IsOwned u r)

abbrev pub is_over : JobStatus → Bool
is_over done = true
is_over failed = true
is_over cancelled = true
is_over _ = false

-- What a later version of a job has kept.
pub record IsLaterVersion (x y : JobRow) : Type 0 where
  pub id : y.id ≡ x.id
  pub tenant_id : y.tenant_id ≡ x.tenant_id
  pub idempotency_key : y.idempotency_key ≡ x.idempotency_key
  pub device_id : y.device_id ≡ x.device_id
  pub job_type : y.job_type ≡ x.job_type
  pub payload : y.payload ≡ x.payload
  pub created_at : y.created_at ≡ x.created_at
  pub over : is_over x.status ≡ true → y ≡ x

IsLaterVersion-refl : (x : JobRow) → IsLaterVersion x x
IsLaterVersion-refl x = ground arith

JobStep-IsLaterVersion : {x y : JobRow} → JobStep x y → IsLaterVersion x y
unfolding claim_row finish_row cancel_row release_row status_eq
JobStep-IsLaterVersion (same r) = IsLaterVersion-refl r
JobStep-IsLaterVersion (claim_step poller at expires r on) = ground arith
JobStep-IsLaterVersion (finish_step success result error at r on) = ground arith
JobStep-IsLaterVersion (cancel_step at r on) = ground arith
JobStep-IsLaterVersion (release_step r on) = ground arith

IsLaterVersion-trans :
    (x y z : JobRow) → IsLaterVersion x y → IsLaterVersion y z → IsLaterVersion x z
IsLaterVersion-trans x y z h k = ground arith

abbrev pub LaterVersions : List JobRow → List JobRow → Type 0
LaterVersions = Evolves IsLaterVersion (λ _. Unit {0})

-- While no poller, device or tenant is deleted, no history removes a job or changes what it is to do, and a job that is done, failed or cancelled
-- is never written again.
pub Reach-LaterJobs : (s t : Store) → Reach s t → LaterVersions s.jobs.rows t.jobs.rows
Reach-LaterJobs s t here = Evolves-refl IsLaterVersion _ IsLaterVersion-refl s.jobs.rows
Reach-LaterJobs s t (next {t = u} r st) =
    Evolves-trans IsLaterVersion (λ _. Unit) IsLaterVersion-trans (λ _ _ _ _. tt) _ u.jobs.rows _
      (Reach-LaterJobs s u r)
      (Evolves-map JobStep IsLaterVersion Fresh _ (λ _ _ e. JobStep-IsLaterVersion e) (λ _ _. tt) _
        _ (Step-Jobs st))
