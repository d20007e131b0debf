-- ===== src/Poller/Rows.antt =====
-- The tables pollers and poller_jobs, and how a row becomes a `Job`.
use netmantle.Prelude.{ℕ, String, Bool, true, false, Option, ℤ, ◌≡◌, ◌↔◌, arith}
use netmantle.Db.{Table, empty_table, parse_time, scan_time, coalesce}

pub data JobStatus : Type 0 where
  queued claimed running done failed cancelled : JobStatus

pub data JobType : Type 0 where
  backup probe custom : JobType

unfoldable pub status_eq : JobStatus → JobStatus → Bool
status_eq queued queued = true
status_eq claimed claimed = true
status_eq running running = true
status_eq done done = true
status_eq failed failed = true
status_eq cancelled cancelled = true
status_eq _ _ = false

pub status_eq_iff : (a b : JobStatus) → (status_eq a b ≡ true) ↔ (a ≡ b)
unfolding status_eq
status_eq_iff queued b = ground arith
status_eq_iff _ b = ground arith

unfoldable pub type_eq : JobType → JobType → Bool
type_eq backup backup = true
type_eq probe probe = true
type_eq custom custom = true
type_eq _ _ = false

-- Times are nanoseconds.
pub record Job : Type 0 where
  pub id : ℤ
  pub tenant_id : ℤ
  pub poller_id : Option ℤ
  pub idempotency_key : String
  pub device_id : ℤ
  pub job_type : JobType
  pub payload : String
  pub status : JobStatus
  pub claimed_at : Option ℕ
  pub completed_at : Option ℕ
  pub result : String
  pub error : String
  pub created_at : ℕ
  pub expires_at : Option ℕ

-- One row of poller_jobs: NULL is `none`, a timestamp column holds seconds.
pub record JobRow : Type 0 where
  pub id : ℤ
  pub tenant_id : ℤ
  pub poller_id : Option ℤ
  pub idempotency_key : String
  pub device_id : ℤ
  pub job_type : JobType
  pub payload : String
  pub status : JobStatus
  pub claimed_at : Option ℕ
  pub completed_at : Option ℕ
  pub result : Option String
  pub error : Option String
  pub created_at : ℕ
  pub expires_at : Option ℕ

-- One row of pollers.
pub record PollerRow : Type 0 where
  pub id : ℤ
  pub tenant_id : ℤ
  pub zone : String
  pub name : String
  pub token_hash : String
  pub last_seen : Option ℕ
  pub created_at : ℕ

pub record Store : Type 0 where
  pub jobs : Table JobRow
  pub pollers : Table PollerRow

abbrev pub empty_store : Store
empty_store = record { jobs = empty_table; pollers = empty_table }

-- Every timestamp was written by this package, so none of the parses of `scanJob` fails.
unfoldable pub scan_job : JobRow → Job
unfolding parse_time scan_time coalesce
scan_job r = record {
  id = r.id;
  tenant_id = r.tenant_id;
  poller_id = r.poller_id;
  idempotency_key = r.idempotency_key;
  device_id = r.device_id;
  job_type = r.job_type;
  payload = r.payload;
  status = r.status;
  claimed_at = scan_time r.claimed_at;
  completed_at = scan_time r.completed_at;
  result = coalesce r.result;
  error = coalesce r.error;
  created_at = parse_time r.created_at;
  expires_at = scan_time r.expires_at;
}
