-- ===== src/ChangeReq/Service.antt =====
-- The methods of `Service`.
use mathlib.Core.List.{reverse}
use netmantle.Prelude.{
  ℕ, zero, ◌≡◌, refl, String, Bool, true, not, ◌&&◌, ◌||◌, Option, none, some, List, map, ℤ, pos,
  id_eq, positive, str_eq, if◌then◌else◌, ltb, ◌==◌, find_first, filter, take,
}
use netmantle.Prelude.Text.{trim_space}
use netmantle.Db.{
  Db, insert, update, exec, exec_insert, query, now, pure, fail, ignore, some_or, ◌>>=◌, ◌>>◌,
  format_time, nullable_str, not_found, invalid_input, invalid_transition, self_approval, terminal,
}
use netmantle.ChangeReq.Machine.{
  Kind, push, rollback, other, Status, draft, submitted, approved, rejected, applied, failed,
  cancelled, status_eq, is_terminal, can_transition,
}
use netmantle.ChangeReq.Rows.{
  ChangeRequest, Row, EventRow, Event, scan_event, Store, nullable_json, scan_request,
}

-- `p == nil || *p <= 0`
missing_id : Option ℤ → Bool
missing_id none = true
missing_id (some i) = not (positive i)

blank : String → Bool
unfolding trim_space
blank s = str_eq (trim_space s) ""

-- The second switch of `Create`: whether the fields that the kind requires are missing.
unfoldable pub missing_fields : ChangeRequest → Kind → Bool
unfolding missing_id blank
missing_fields cr push = missing_id cr.push_job_id
missing_fields cr rollback =
    missing_id cr.device_id || blank cr.artifact || blank cr.target_sha || blank cr.payload
missing_fields cr (other k) = true

-- The VALUES of the INSERT of `Create`; the columns that it does not name are NULL.
unfoldable pub draft_row : ChangeRequest → String → ℕ → ℤ → Row
unfolding nullable_str nullable_json
draft_row cr title at i = record {
  id = i;
  tenant_id = cr.tenant_id;
  kind = cr.kind;
  title = title;
  description = nullable_str cr.description;
  requester_id = cr.requester_id;
  reviewer_id = none;
  status = draft;
  decision_reason = none;
  push_job_id = cr.push_job_id;
  variables = nullable_json cr.variables;
  device_id = cr.device_id;
  artifact = nullable_str cr.artifact;
  target_sha = nullable_str cr.target_sha;
  payload = nullable_str cr.payload;
  result = none;
  created_at = at;
  updated_at = at;
  submitted_at = none;
  decided_at = none;
  applied_at = none;
}

unfoldable pub insert_request : ChangeRequest → String → ℕ → Store → ℤ × Store
unfolding insert
insert_request cr title at s =
    let (i, t) = insert (draft_row cr title at) s.requests in (i, record s { requests = t })

actor_of : ℤ → Option ℤ
actor_of i = if positive i then some i else none

unfoldable pub event_row : ℤ → ℤ → Option Status → Status → String → ℕ → ℤ → EventRow
unfolding nullable_str actor_of
event_row cr actor from to note at i = record {
  id = i;
  change_request_id = cr;
  actor_user_id = actor_of actor;
  from_status = from;
  to_status = to;
  note = nullable_str note;
  created_at = at;
}

unfoldable pub insert_event : ℤ → ℤ → Option Status → Status → String → ℕ → Store → ℤ × Store
unfolding insert
insert_event cr actor from to note at s =
    let (i, t) = insert (event_row cr actor from to note at) s.events in
    (i, record s { events = t })

-- An empty `from` is `none`.
unfoldable pub record_event : ℤ → ℤ → Option Status → Status → String → Db Store Unit
unfolding insert_event
record_event cr actor from to note = do
  t ← now
  exec_insert (insert_event cr actor from to note (format_time t))
  pure tt

-- What `Create` returns: the request that it was given, with the fields that it sets.
abbrev created : ChangeRequest → String → ℕ → ℤ → ChangeRequest
created cr title t i = record cr {
  id = i;
  title = title;
  status = draft;
  created_at = t;
  updated_at = t;
}

unfoldable pub create : ChangeRequest → Db Store ChangeRequest
unfolding record_event
create cr =
    let title = trim_space cr.title in
    if not (positive cr.tenant_id) || str_eq title "" || not (positive cr.requester_id)
    then fail invalid_input
    else if missing_fields cr cr.kind
    then fail invalid_input
    else do
      t ← now
      i ← exec_insert (insert_request cr title (format_time t))
      record_event i cr.requester_id none draft "created"
      pure (created cr title t i)

-- WHERE tenant_id=? AND id=?
abbrev pub has_key : ℤ → ℤ → Row → Bool
has_key tenant i r = id_eq r.tenant_id tenant && id_eq r.id i

unfoldable pub get : ℤ → ℤ → Db Store ChangeRequest
get tenant i = do
  found ← query (λ s. find_first (has_key tenant i) s.requests.rows)
  r ← some_or not_found found
  pure (scan_request r)

-- The status filter of `List`; the empty status is `none`.
status_matches : Option Status → Row → Bool
unfolding status_eq
status_matches none r = true
status_matches (some st) r = status_eq r.status st

clamp_limit : ℤ → ℕ
clamp_limit (pos zero) = 100
clamp_limit (pos n) = if ltb 500 n then 100 else n
clamp_limit _ = 100

-- Rows stand in the order of their keys, so ORDER BY id DESC reads them from the end.
unfoldable pub list : ℤ → Option Status → ℤ → Db Store (List ChangeRequest)
unfolding status_matches clamp_limit
list tenant status limit = do
  rows ← query (λ s.
      take (clamp_limit limit) (
        reverse
          (filter (λ r. id_eq r.tenant_id tenant && status_matches status r) s.requests.rows)))
  pure (map scan_request rows)

-- The SET clause of a transition: `switch to` of `transitionFrom`.
unfoldable pub assign : Status → ℕ → String → Option ℤ → Row → Row
assign submitted at note reviewer r = record r {
  status = submitted;
  updated_at = at;
  submitted_at = some at;
}
assign approved at note reviewer r = record r {
  status = approved;
  updated_at = at;
  decided_at = some at;
  decision_reason = if str_eq note "" then r.decision_reason else some note;
  reviewer_id = elim reviewer [ none ↦ r.reviewer_id | some v ↦ some v ];
}
assign rejected at note reviewer r = record r {
  status = rejected;
  updated_at = at;
  decided_at = some at;
  decision_reason = if str_eq note "" then r.decision_reason else some note;
  reviewer_id = elim reviewer [ none ↦ r.reviewer_id | some v ↦ some v ];
}
assign applied at note reviewer r = record r {
  status = applied;
  updated_at = at;
  applied_at = some at;
}
assign failed at note reviewer r = record r {
  status = failed;
  updated_at = at;
  applied_at = some at;
}
assign to at note reviewer r = record r { status = to; updated_at = at }

pub assign-status :
    (to : Status) (at : ℕ) (note : String) (reviewer : Option ℤ) (r : Row)
    → (assign to at note reviewer r).status ≡ to
unfolding assign
assign-status submitted at note reviewer r = refl
assign-status _ at note reviewer r = refl

pub assign-id :
    (to : Status) (at : ℕ) (note : String) (reviewer : Option ℤ) (r : Row)
    → (assign to at note reviewer r).id ≡ r.id
unfolding assign
assign-id submitted at note reviewer r = refl
assign-id _ at note reviewer r = refl

-- UPDATE … WHERE tenant_id=? AND id=? AND status=?, with the status that was read before.
unfoldable pub update_request : ChangeRequest → Status → ℕ → String → Option ℤ → Store → ℕ × Store
unfolding update
update_request cr to at note reviewer s =
    let hit : Row → Bool = λ r. has_key cr.tenant_id cr.id r && status_eq r.status cr.status in
    let (n, t) = update hit (assign to at note reviewer) s.requests in
    (n, record s { requests = t })

unfoldable pub transition_from :
    ChangeRequest → ℤ → Status → String → Option ℤ → Db Store ChangeRequest
unfolding record_event get
transition_from cr actor to note reviewer =
    if is_terminal cr.status
    then fail terminal
    else if not (can_transition cr.status to)
    then fail invalid_transition
    else do
      t ← now
      n ← exec (update_request cr to (format_time t) note reviewer)
      if n == 0
          then fail invalid_transition
          else do record_event cr.id actor (some cr.status) to note; get cr.tenant_id cr.id

unfoldable pub transition : ℤ → ℤ → ℤ → Status → String → Db Store ChangeRequest
transition tenant i actor to note = do cr ← get tenant i; transition_from cr actor to note none

unfoldable pub submit : ℤ → ℤ → ℤ → Db Store ChangeRequest
submit tenant i actor = transition tenant i actor submitted ""

-- `Approve` once the request is read.
unfoldable pub approve_read : ChangeRequest → ℤ → String → Bool → Db Store ChangeRequest
approve_read cr reviewer reason allow_self =
    if not allow_self && id_eq cr.requester_id reviewer
    then fail self_approval
    else transition_from cr reviewer approved reason (some reviewer)

unfoldable pub approve : ℤ → ℤ → ℤ → String → Bool → Db Store ChangeRequest
approve tenant i reviewer reason allow_self = do
  cr ← get tenant i
  approve_read cr reviewer reason allow_self

unfoldable pub reject : ℤ → ℤ → ℤ → String → Db Store ChangeRequest
reject tenant i reviewer reason = do
  cr ← get tenant i
  transition_from cr reviewer rejected reason (some reviewer)

unfoldable pub cancel : ℤ → ℤ → ℤ → String → Db Store ChangeRequest
cancel tenant i actor reason = transition tenant i actor cancelled reason

-- UPDATE change_requests SET result=? WHERE tenant_id=? AND id=?
unfoldable pub set_result : ℤ → ℤ → String → Store → ℕ × Store
unfolding update
set_result tenant i text s =
    let (n, t) = update (has_key tenant i) (λ r. record r { result = some text }) s.requests in
    (n, record s { requests = t })

-- The end of `MarkApplied` and of `MarkFailed`.
unfoldable pub keep_result : ℤ → ℤ → String → ChangeRequest → Db Store ChangeRequest
unfolding set_result
keep_result tenant i text cr =
    if str_eq text ""
    then pure cr
    else do ignore (exec (set_result tenant i text)); pure (record cr { result = text })

unfoldable pub mark_applied : ℤ → ℤ → String → Db Store ChangeRequest
mark_applied tenant i result = do
  cr ← transition tenant i (pos 0) applied "apply succeeded"
  keep_result tenant i result cr

unfoldable pub mark_failed : ℤ → ℤ → String → Db Store ChangeRequest
mark_failed tenant i reason = do
  cr ← transition tenant i (pos 0) failed "apply failed"
  keep_result tenant i reason cr

-- ORDER BY id ASC is the order of the rows.
unfoldable pub events : ℤ → Db Store (List Event)
events i = do
  rows ← query (λ s. filter (λ e. id_eq e.change_request_id i) s.events.rows)
  pure (map scan_event rows)

unfoldable pub can_apply : ChangeRequest → Bool
unfolding status_eq
can_apply cr = status_eq cr.status approved
