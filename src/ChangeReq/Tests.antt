-- ===== src/ChangeReq/Tests.antt =====
-- The workflow on concrete requests.
use netmantle.Prelude.{
  ◌≡◌, refl, false, none, some, List, [], ◌∷◌, pos, id_eq, find_first, count_where, update_where,
  positive, All,
}
use netmantle.Prelude.Text.{trim_space}
use netmantle.Db.{ok, err, format_time, insert, db_failed, invalid_transition}
use netmantle.Db.Samples.{calm, failing}
use netmantle.ChangeReq.Machine.{
  push, draft, submitted, cancelled, status_eq, is_terminal, can_transition,
}
use netmantle.ChangeReq.Rows.{ChangeRequest, Row, Store, empty_store, scan_request}
use netmantle.ChangeReq.Service.{
  create, transition_from, approve_read, insert_request, insert_event, event_row, draft_row,
  missing_fields, assign, update_request, has_key, get,
}
use netmantle.ChangeReq.Evolve.{creates, moves, approves, Reach, here, next, to_submitted}
use netmantle.ChangeReq.Lifecycle.{IsStamped, LaterVersions, Reach-IsStamped, Reach-LaterVersions}
use netmantle.ChangeReq.Races.{transition_from_once}
use netmantle.ChangeReq.Log.{Agrees, empty_store-Agrees}
use netmantle.ChangeReq.Calls.{
  Call, create_call, submit_call, approve_call, mark_applied_call, call, run_calls,
  run_calls-Agrees,
}
use netmantle.ChangeReq.Torn.{transition_from_torn}
use netmantle.ChangeReq.Isolation.{tenant_rows, call-tenant_rows}

-- A push that user 7 of tenant 1 asks for.
abbrev upgrade : ChangeRequest
upgrade = record {
  id = pos 0;
  tenant_id = pos 1;
  kind = push;
  title = " ntp servers ";
  description = "";
  requester_id = pos 7;
  reviewer_id = none;
  status = draft;
  decision_reason = "";
  push_job_id = some (pos 3);
  variables = [];
  device_id = none;
  artifact = "";
  target_sha = "";
  payload = "";
  result = "";
  created_at = 0;
  updated_at = 0;
  submitted_at = none;
  decided_at = none;
  applied_at = none;
}

-- Its row after `create`, and a table that holds it.
abbrev drafted_row : Row
drafted_row = draft_row upgrade "ntp servers" 1000 (pos 1)

abbrev drafted_store : Store
drafted_store = record {
  requests = record { rows = drafted_row ∷ []; next_id = 2 };
  events = record {
    rows = event_row (pos 1) (pos 7) none draft "created" 1001 (pos 1) ∷ [];
    next_id = 2;
  };
}

abbrev drafted : ChangeRequest
drafted = scan_request drafted_row

abbrev submitted_store : Store
submitted_store = (transition_from drafted (pos 7) submitted "" none (calm drafted_store)).1.store

abbrev submitted_request : ChangeRequest
submitted_request = scan_request (assign submitted 1000 "" none drafted_row)

create_test : (create upgrade (calm empty_store)).1.store ≡ drafted_store
unfolding create insert_request insert_event insert trim_space format_time missing_fields positive
create_test = refl

-- Created, submitted, approved by user 8, applied.
abbrev workflow : List Call
workflow =
    create_call upgrade
    ∷ submit_call (pos 1) (pos 1) (pos 7)
    ∷ approve_call (pos 1) (pos 1) (pos 8) "fine" false
    ∷ mark_applied_call (pos 1) (pos 1) "done"
    ∷ []

abbrev approved_store : Store → Store
approved_store s = (approve_read submitted_request (pos 8) "fine" false (calm s)).1.store

abbrev after_create : Store
after_create = (create upgrade (calm empty_store)).1.store

abbrev after_submit : Store → Store
after_submit s = (transition_from drafted (pos 7) submitted "" none (calm s)).1.store

-- A caller submits and another approves, from tables with the draft.
to_approved :
    (s : Store) → Reach empty_store s → Reach empty_store (approved_store (after_submit s))
to_approved s r =
    next (next r (moves drafted (pos 7) "" (calm s) to_submitted))
      (approves submitted_request (pos 8) "fine" false (calm (after_submit s)))

Reach-IsStamped_example : All IsStamped (approved_store (after_submit after_create)).requests.rows
Reach-IsStamped_example =
    Reach-IsStamped (approved_store (after_submit after_create))
      (to_approved after_create (next here (creates upgrade (calm empty_store))))

Reach-LaterVersions_example :
    LaterVersions drafted_store.requests.rows
      (approved_store (after_submit drafted_store)).requests.rows
Reach-LaterVersions_example =
    Reach-LaterVersions drafted_store (approved_store (after_submit drafted_store)) (
      next (next here (moves drafted (pos 7) "" (calm drafted_store) to_submitted))
        (approves submitted_request (pos 8) "fine" false (calm (after_submit drafted_store))))

run_calls-Agrees_example : Agrees (run_calls workflow (calm empty_store)).store
run_calls-Agrees_example =
    run_calls-Agrees workflow (calm empty_store) (λ n. refl) empty_store-Agrees

call-tenant_rows_example :
    tenant_rows (pos 2) (call (submit_call (pos 1) (pos 1) (pos 7)) (calm drafted_store)).1.store
    ≡ tenant_rows (pos 2) drafted_store
unfolding id_eq
call-tenant_rows_example =
    call-tenant_rows (submit_call (pos 1) (pos 1) (pos 7)) (pos 2) (calm drafted_store) refl

submits :
    (transition_from drafted (pos 7) submitted "" none (calm drafted_store)).0
    ≡ ok submitted_request
unfolding transition_from is_terminal scan_request draft_row can_transition update_request
    count_where id_eq status_eq find_first update_where assign format_time
submits = refl

transition_from_once_example :
    let again =
      transition_from drafted (pos 7) cancelled "" none (calm (after_submit drafted_store)) in
    (again.0 ≡ err invalid_transition)
    × (again.1.store.requests ≡ (after_submit drafted_store).requests)
    × (again.1.store.events ≡ (after_submit drafted_store).events)
transition_from_once_example =
    transition_from_once drafted (pos 7) (pos 7) submitted cancelled "" "" none none
      (calm drafted_store) (calm (after_submit drafted_store)) submitted_request submits refl refl

abbrev torn_store : Store
torn_store = (transition_from drafted (pos 7) submitted "" none (failing 1 drafted_store)).1.store

drafted_there : find_first (has_key (pos 1) (pos 1)) drafted_store.requests.rows ≡ some drafted_row
unfolding find_first id_eq draft_row
drafted_there = refl

transition_from_torn_example :
    let torn = transition_from drafted (pos 7) submitted "" none (failing 1 drafted_store) in
    (torn.0 ≡ err db_failed)
    × ((x : ChangeRequest) × ((get (pos 1) (pos 1) (calm torn_store)).0 ≡ ok x)
        × (x.status ≡ submitted))
    × (torn_store.events ≡ drafted_store.events)
unfolding is_terminal scan_request draft_row can_transition
transition_from_torn_example =
    transition_from_torn drafted (pos 7) submitted "" none (failing 1 drafted_store)
      (calm torn_store) drafted_row refl refl drafted_there refl refl refl refl refl

creates_upgrade :
    (create upgrade (calm empty_store)).0
    ≡ ok (record upgrade {
      id = pos 1;
      title = "ntp servers";
      created_at = 1000000000000;
      updated_at = 1000000000000;
    })
unfolding create positive trim_space missing_fields insert_request
creates_upgrade = refl
