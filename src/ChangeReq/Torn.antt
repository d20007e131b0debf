-- ===== src/ChangeReq/Torn.antt =====
-- A transition whose event is refused.
use netmantle.Prelude.{
  ℕ, suc, ◌≡◌, ◌≢◌, refl, Bool, true, false, Option, some, String, ℤ, arith, ap, ◌∙◌, ◌&&◌,
  find_first, find_first_sound, find_first-assigned, count_where_found,
}
use netmantle.Db.{World, Table, ok, format_time, update, err, db_failed}
use netmantle.ChangeReq.Machine.{
  Status, submitted, is_terminal, can_transition, status_eq, status_eq_iff,
}
use netmantle.ChangeReq.Rows.{ChangeRequest, Row, Store, scan_request}
use netmantle.ChangeReq.Service.{
  transition_from, get, update_request, has_key, assign, assign-status,
}
use netmantle.ChangeReq.Races.{update_request-events}

assign-has_key :
    (tenant i : ℤ) (to : Status) (at : ℕ) (note : String) (reviewer : Option ℤ) (r : Row)
    → has_key tenant i (assign to at note reviewer r) ≡ has_key tenant i r
unfolding assign
assign-has_key tenant i submitted at note reviewer r = refl
assign-has_key tenant i _ at note reviewer r = refl

-- The UPDATE on a row that still has the status of the snapshot.
update_request_found :
    (cr : ChangeRequest) (to : Status) (at : ℕ) (note : String) (reviewer : Option ℤ) (s : Store)
    (r : Row)
    → find_first (has_key cr.tenant_id cr.id) s.requests.rows ≡ some r
    → r.status ≡ cr.status
    → ((update_request cr to at note reviewer s).0 ≢ 0)
      × (find_first
            (has_key cr.tenant_id cr.id)
            (update_request cr to at note reviewer s).1.requests.rows
          ≡ some (assign to at note reviewer r))
unfolding update_request update
update_request_found cr to at note reviewer s r found still =
    let key = has_key cr.tenant_id cr.id in
    let hit : Row → Bool = λ x. key x && status_eq x.status cr.status in
    let keyed : key r ≡ true = find_first_sound key s.requests.rows r found in
    let on : hit r ≡ true = ground (arith, status_eq_iff r.status cr.status) in
    (
      count_where_found key hit s.requests.rows r found on,
      find_first-assigned key hit (assign to at note reviewer) s.requests.rows r
            (assign-has_key cr.tenant_id cr.id to at note reviewer) found
          ∙ rw on refl,
    )

get_found :
    (tenant i : ℤ) (r : Row) (v : World Store)
    → find_first (has_key tenant i) v.store.requests.rows ≡ some r
    → v.fault v.calls ≡ false
    → (get tenant i v).0 ≡ ok (scan_request r)
unfolding get
get_found tenant i r v found clear = ground arith

transition_from_stops :
    (cr : ChangeRequest) (actor : ℤ) (to : Status) (note : String) (reviewer : Option ℤ)
    (w : World Store)
    → is_terminal cr.status ≡ false
    → can_transition cr.status to ≡ true
    → w.fault w.calls ≡ false
    → w.fault (suc w.calls) ≡ true
    → let at = format_time (w.clock w.reads) in
      (update_request cr to at note reviewer w.store).0 ≢ 0
      → ((transition_from cr actor to note reviewer w).0 ≡ err db_failed)
        × ((transition_from cr actor to note reviewer w).1.store.requests
            ≡ (update_request cr to at note reviewer w.store).1.requests)
        × ((transition_from cr actor to note reviewer w).1.store.events ≡ w.store.events)
unfolding transition_from
transition_from_stops cr actor to note reviewer w live can up down found =
    ground
      (arith, update_request-events cr to (format_time (w.clock w.reads)) note reviewer w.store)

-- A transition is two statements and no transaction. Where the machine allows it, the row of the
-- request still has the status of the snapshot and the driver refuses the INSERT of the event, the
-- caller gets an error, but every later reader, if nothing is written in between and the driver takes the
-- query, gets the request in the new status, and the log has no event of it.
pub transition_from_torn :
    (cr : ChangeRequest) (actor : ℤ) (to : Status) (note : String) (reviewer : Option ℤ)
    (w v : World Store) (r : Row)
    → is_terminal cr.status ≡ false
    → can_transition cr.status to ≡ true
    → find_first (has_key cr.tenant_id cr.id) w.store.requests.rows ≡ some r
    → r.status ≡ cr.status
    → w.fault w.calls ≡ false
    → w.fault (suc w.calls) ≡ true
    → v.store ≡ (transition_from cr actor to note reviewer w).1.store
    → v.fault v.calls ≡ false
    → ((transition_from cr actor to note reviewer w).0 ≡ err db_failed)
      × ((x : ChangeRequest) × ((get cr.tenant_id cr.id v).0 ≡ ok x) × (x.status ≡ to))
      × (v.store.events ≡ w.store.events)
transition_from_torn cr actor to note reviewer w v r live can found still up down between clear =
    let at = format_time (w.clock w.reads) in
    let (hit, moved) = update_request_found cr to at note reviewer w.store r found still in
    let (failed_, rows, log) =
      transition_from_stops cr actor to note reviewer w live can up down hit in
    let row : find_first (has_key cr.tenant_id cr.id) v.store.requests.rows
        ≡ some (assign to at note reviewer r) =
      ap (λ (t : Table Row). find_first (has_key cr.tenant_id cr.id) t.rows)
        (ap (λ (s : Store). s.requests) between ∙ rows)
      ∙ moved in
    (
      failed_,
      (
        scan_request (assign to at note reviewer r),
        get_found cr.tenant_id cr.id (assign to at note reviewer r) v row clear,
        unfold scan_request in assign-status to at note reviewer r,
      ),
      ap (λ (s : Store). s.events) between ∙ log,
    )
