-- ===== src/Poller/Jobs.antt =====
-- The methods of `JobService`.
use netmantle.Prelude.{
  ℕ, zero, ◌+◌, ◌-◌, String, Bool, true, false, not, ◌&&◌, ◌||◌, Option, none, some, List, [], ◌∷◌,
  map, ℤ, pos, id_eq, positive, str_eq, if◌then◌else◌, ltb, ◌==◌, find_first, filter, take,
}
use netmantle.Db.{
  Db, insert, update, exec, exec_insert_new, query, now, pure, fail, some_or, ◌>>=◌, ◌>>◌,
  format_time, parse_time, nullable_str, invalid_input, no_rows, rand_failed,
}
use netmantle.Poller.Rows.{
  JobStatus, queued, claimed, running, done, failed, cancelled, JobType, backup, probe, custom,
  status_eq, type_eq, Job, JobRow, PollerRow, Store, scan_job,
}

-- WHERE tenant_id=? AND id=?
abbrev pub has_key : ℤ → ℤ → JobRow → Bool
has_key tenant i r = id_eq r.tenant_id tenant && id_eq r.id i

unfoldable pub get : ℤ → ℤ → Db Store Job
get tenant i = do
  found ← query (λ s. find_first (has_key tenant i) s.jobs.rows)
  r ← some_or no_rows found
  pure (scan_job r)

-- WHERE idempotency_key=?: the key alone, in whichever tenant.
abbrev pub has_idempotency_key : String → JobRow → Bool
has_idempotency_key key r = str_eq r.idempotency_key key

unfoldable pub get_by_key : String → Db Store Job
get_by_key key = do
  found ← query (λ s. find_first (has_idempotency_key key) s.jobs.rows)
  r ← some_or no_rows found
  pure (scan_job r)

-- The expiry of a new job; a duration that is not positive sets none.
unfoldable pub expiry : ℤ → ℕ → Option ℕ
unfolding format_time
expiry (pos zero) t = none
expiry (pos n) t = some (format_time (t + n))
expiry _ t = none

unfoldable pub queued_row : ℤ → ℤ → JobType → String → String → ℕ → Option ℕ → ℤ → JobRow
queued_row tenant device type payload key at expires i = record {
  id = i;
  tenant_id = tenant;
  poller_id = none;
  idempotency_key = key;
  device_id = device;
  job_type = type;
  payload = payload;
  status = queued;
  claimed_at = none;
  completed_at = none;
  result = none;
  error = none;
  created_at = at;
  expires_at = expires;
}

-- INSERT … ON CONFLICT(idempotency_key) DO NOTHING
unfoldable pub insert_job : String → (ℤ → JobRow) → Store → Option ℤ × Store
unfolding insert
insert_job key row s =
    let added = insert row s.jobs in
    elim (find_first (has_idempotency_key key) s.jobs.rows) [
      | some _ ↦ (none, s)
      | none ↦ (some added.0, record s { jobs = added.1 })
    ]

-- `random` is the key that crypto/rand and encoding/hex make, `none` if the read fails. An empty
-- job type is `none`.
unfoldable pub choose_key : String → Option String → Option String
choose_key key random = if str_eq key "" then random else some key

unfoldable pub choose_type : Option JobType → JobType
choose_type none = backup
choose_type (some t) = t

-- `Enqueue` from the INSERT on.
unfoldable pub enqueue_keyed : ℤ → ℤ → JobType → String → String → ℤ → Db Store Job
unfolding get get_by_key
enqueue_keyed tenant device type payload key ttl = do
  t ← now
  i ←
      exec_insert_new
        (insert_job key (queued_row tenant device type payload key (format_time t) (expiry ttl t)))
  if id_eq i (pos 0) then get_by_key key else get tenant i

unfoldable pub enqueue : ℤ → ℤ → Option JobType → String → String → ℤ → Option String → Db Store Job
unfolding choose_key choose_type
enqueue tenant device type payload key ttl random =
    if not (positive tenant) || not (positive device)
    then fail invalid_input
    else elim (choose_key key random) [
      | none ↦ fail rand_failed
      | some k ↦ enqueue_keyed tenant device (choose_type type) payload k ttl
    ]

-- The types that a claim names: all of them, if it names none.
unfoldable pub claim_types : List JobType → List JobType
claim_types [] = backup ∷ probe ∷ custom ∷ []
claim_types (t ∷ ts) = t ∷ ts

unfoldable pub in_types : List JobType → JobType → Bool
unfolding type_eq
in_types [] t = false
in_types (u ∷ us) t = type_eq t u || in_types us t

abbrev pub claimable : ℤ → List JobType → JobRow → Bool
claimable tenant types r =
    id_eq r.tenant_id tenant && status_eq r.status queued && in_types (claim_types types) r.job_type

-- ORDER BY created_at ASC LIMIT 1. SQLite reads idx_poller_jobs_tenant_status, which is descending in
-- created_at, from its end, so that of equal times the last row comes first.
unfoldable pub older : JobRow → Option JobRow → JobRow
older r none = r
older r (some s) = if ltb r.created_at s.created_at then r else s

unfoldable pub oldest : List JobRow → Option JobRow
oldest [] = none
oldest (r ∷ rs) = some (older r (oldest rs))

-- The new expiry in seconds, from the columns created_at and expires_at and the time of the claim.
unfoldable pub compute_new_expires_at : ℕ → ℕ → ℕ → Option ℕ
unfolding parse_time format_time
compute_new_expires_at created expires at =
    if ltb (parse_time created) (parse_time expires)
    then some (format_time (at + (parse_time expires - parse_time created)))
    else none

unfoldable pub claim_expiry : JobRow → ℕ → Option ℕ
claim_expiry r at = elim r.expires_at [
  | none ↦ none
  | some e ↦ compute_new_expires_at r.created_at e at
]

-- EXISTS (SELECT 1 FROM pollers WHERE id=? AND tenant_id=?)
unfoldable pub known_poller : ℤ → ℤ → List PollerRow → Bool
known_poller tenant poller [] = false
known_poller tenant poller (p ∷ ps) =
    (id_eq p.id poller && id_eq p.tenant_id tenant) || known_poller tenant poller ps

unfoldable pub claim_row : ℤ → ℕ → Option ℕ → JobRow → JobRow
claim_row poller at expires r = record r {
  status = claimed;
  poller_id = some poller;
  claimed_at = some at;
  expires_at = expires;
}

unfoldable pub update_claim : ℤ → ℤ → ℤ → ℕ → Option ℕ → Store → ℕ × Store
unfolding update
update_claim tenant poller i at expires s =
    let known = known_poller tenant poller s.pollers.rows in
    let hit : JobRow → Bool = λ r. has_key tenant i r && status_eq r.status queued && known in
    let (n, t) = update hit (claim_row poller at expires) s.jobs in (n, record s { jobs = t })

-- `Claim` once the candidate is read.
unfoldable pub claim_read : ℤ → ℤ → JobRow → Db Store Job
unfolding get
claim_read tenant poller r = do
  t ← now
  n ← exec (update_claim tenant poller r.id (format_time t) (claim_expiry r t))
  if n == 0 then fail no_rows else get tenant r.id

unfoldable pub claim : ℤ → ℤ → List JobType → Db Store Job
claim tenant poller types = do
  found ← query (λ s. oldest (filter (claimable tenant types) s.jobs.rows))
  r ← some_or no_rows found
  claim_read tenant poller r

-- The status that a report sets.
abbrev pub outcome : Bool → JobStatus
outcome true = done
outcome false = failed

unfoldable pub finish_row : Bool → String → String → ℕ → JobRow → JobRow
unfolding nullable_str
finish_row success result error at r = record r {
  status = outcome success;
  completed_at = some at;
  result = nullable_str result;
  error = nullable_str error;
}

-- status IN ('claimed','running')
abbrev pub in_progress : JobStatus → Bool
in_progress st = status_eq st claimed || status_eq st running

unfoldable pub update_finish : (JobRow → Bool) → Bool → String → String → ℕ → Store → ℕ × Store
unfolding update
update_finish hit success result error at s =
    let (n, t) = update hit (finish_row success result error at) s.jobs in
    (n, record s { jobs = t })

unfoldable pub complete : ℤ → ℤ → Bool → String → String → Db Store Unit
complete tenant i success result error = do
  t ← now
  exec (
      update_finish (λ r. has_key tenant i r && in_progress r.status) success result error
        (format_time t))
  pure tt

-- poller_id=?, which NULL never is
abbrev pub owned_by : ℤ → JobRow → Bool
owned_by poller r = elim r.poller_id [ none ↦ false | some p ↦ id_eq p poller ]

unfoldable pub complete_claimed_by : ℤ → ℤ → ℤ → Bool → String → String → Db Store Unit
complete_claimed_by tenant poller i success result error = do
  t ← now
  n ← exec (
      update_finish (λ r. has_key tenant i r && owned_by poller r && in_progress r.status) success
        result error (format_time t))
  if n == 0 then fail no_rows else pure tt

unfoldable pub cancel_row : ℕ → JobRow → JobRow
cancel_row at r = record r { status = cancelled; completed_at = some at }

unfoldable pub update_cancel : ℤ → ℤ → ℕ → Store → ℕ × Store
unfolding update
update_cancel tenant i at s =
    let hit : JobRow → Bool =
      λ r. has_key tenant i r && (status_eq r.status queued || status_eq r.status claimed) in
    let (n, t) = update hit (cancel_row at) s.jobs in (n, record s { jobs = t })

unfoldable pub cancel : ℤ → ℤ → Db Store Unit
cancel tenant i = do t ← now; exec (update_cancel tenant i (format_time t)); pure tt

-- status='claimed' AND expires_at IS NOT NULL AND expires_at < ?
abbrev pub expired : ℕ → JobRow → Bool
expired at r = status_eq r.status claimed && elim r.expires_at [ none ↦ false | some e ↦ ltb e at ]

unfoldable pub release_row : JobRow → JobRow
release_row r = record r { status = queued; poller_id = none; claimed_at = none }

unfoldable pub update_reclaim : ℕ → Store → ℕ × Store
unfolding update
update_reclaim at s =
    let (n, t) = update (expired at) release_row s.jobs in (n, record s { jobs = t })

unfoldable pub reclaim_expired : Db Store ℕ
reclaim_expired = do t ← now; exec (update_reclaim (format_time t))

-- ORDER BY created_at DESC
insert_newest : JobRow → List JobRow → List JobRow
insert_newest r [] = r ∷ []
insert_newest r (s ∷ ss) =
    let rest = insert_newest r ss in if ltb r.created_at s.created_at then s ∷ rest else r ∷ s ∷ ss

newest_first : List JobRow → List JobRow
unfolding insert_newest
newest_first [] = []
newest_first (r ∷ rs) = insert_newest r (newest_first rs)

clamp_limit : ℤ → ℕ
clamp_limit (pos zero) = 100
clamp_limit (pos n) = if ltb 500 n then 100 else n
clamp_limit _ = 100

unfoldable pub list_by_tenant : ℤ → ℤ → Db Store (List Job)
unfolding newest_first clamp_limit
list_by_tenant tenant limit = do
  rows ← query (λ s.
      take (clamp_limit limit) (newest_first (filter (λ r. id_eq r.tenant_id tenant) s.jobs.rows)))
  pure (map scan_job rows)
