-- ===== src/ChangeReq/Rows.antt =====
-- The tables change_requests and change_request_events, and how a row becomes a `ChangeRequest`.
use netmantle.Prelude.{ℕ, String, Option, none, some, List, [], ◌∷◌, ℤ}
use netmantle.Db.{Table, empty_table, parse_time, coalesce, scan_time}
use netmantle.ChangeReq.Machine.{Kind, Status}

abbrev pub Variables : Type 0
Variables = List (String × String)

-- Times are nanoseconds.
pub record ChangeRequest : Type 0 where
  pub id : ℤ
  pub tenant_id : ℤ
  pub kind : Kind
  pub title : String
  pub description : String
  pub requester_id : ℤ
  pub reviewer_id : Option ℤ
  pub status : Status
  pub decision_reason : String
  pub push_job_id : Option ℤ
  pub variables : Variables
  pub device_id : Option ℤ
  pub artifact : String
  pub target_sha : String
  pub payload : String
  pub result : String
  pub created_at : ℕ
  pub updated_at : ℕ
  pub submitted_at : Option ℕ
  pub decided_at : Option ℕ
  pub applied_at : Option ℕ

-- One row of change_requests: NULL is `none`, a timestamp column holds seconds.
pub record Row : Type 0 where
  pub id : ℤ
  pub tenant_id : ℤ
  pub kind : Kind
  pub title : String
  pub description : Option String
  pub requester_id : ℤ
  pub reviewer_id : Option ℤ
  pub status : Status
  pub decision_reason : Option String
  pub push_job_id : Option ℤ
  pub variables : Option Variables
  pub device_id : Option ℤ
  pub artifact : Option String
  pub target_sha : Option String
  pub payload : Option String
  pub result : Option String
  pub created_at : ℕ
  pub updated_at : ℕ
  pub submitted_at : Option ℕ
  pub decided_at : Option ℕ
  pub applied_at : Option ℕ

-- One row of change_request_events.
pub record EventRow : Type 0 where
  pub id : ℤ
  pub change_request_id : ℤ
  pub actor_user_id : Option ℤ
  pub from_status : Option Status
  pub to_status : Status
  pub note : Option String
  pub created_at : ℕ

-- What `Events` returns for a row: an empty `FromStatus` is `none`, the time is in nanoseconds.
pub record Event : Type 0 where
  pub id : ℤ
  pub change_request_id : ℤ
  pub actor_user_id : Option ℤ
  pub from_status : Option Status
  pub to_status : Status
  pub note : String
  pub created_at : ℕ

unfoldable pub scan_event : EventRow → Event
unfolding coalesce parse_time
scan_event e = record {
  id = e.id;
  change_request_id = e.change_request_id;
  actor_user_id = e.actor_user_id;
  from_status = e.from_status;
  to_status = e.to_status;
  note = coalesce e.note;
  created_at = parse_time e.created_at;
}

pub record Store : Type 0 where
  pub requests : Table Row
  pub events : Table EventRow

abbrev pub empty_store : Store
empty_store = record { requests = empty_table; events = empty_table }

unfoldable pub nullable_json : Variables → Option Variables
nullable_json [] = none
nullable_json (v ∷ vs) = some (v ∷ vs)

unfoldable pub scan_variables : Option Variables → Variables
scan_variables none = []
scan_variables (some m) = m

unfoldable pub scan_request : Row → ChangeRequest
unfolding coalesce scan_variables scan_time parse_time
scan_request r = record {
  id = r.id;
  tenant_id = r.tenant_id;
  kind = r.kind;
  title = r.title;
  description = coalesce r.description;
  requester_id = r.requester_id;
  reviewer_id = r.reviewer_id;
  status = r.status;
  decision_reason = coalesce r.decision_reason;
  push_job_id = r.push_job_id;
  variables = scan_variables r.variables;
  device_id = r.device_id;
  artifact = coalesce r.artifact;
  target_sha = coalesce r.target_sha;
  payload = coalesce r.payload;
  result = coalesce r.result;
  created_at = parse_time r.created_at;
  updated_at = parse_time r.updated_at;
  submitted_at = scan_time r.submitted_at;
  decided_at = scan_time r.decided_at;
  applied_at = scan_time r.applied_at;
}
