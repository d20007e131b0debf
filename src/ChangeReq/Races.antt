-- ===== src/ChangeReq/Races.antt =====
-- Two callers on one snapshot, refusals, and what a failed statement leaves.
use netmantle.Prelude.{
  ℕ, ◌≡◌, ◌≢◌, refl, Bool, true, false, Option, List, String, ℤ, arith, ap, ◌&&◌, ◌∙◌, id_eq_iff,
}
use netmantle.Db.{World, Table, ok, err, invalid_transition, self_approval, format_time}
use netmantle.Db.Rules.{count_where-update_where, update_where_none}
use netmantle.ChangeReq.Machine.{Status, draft, is_terminal, can_transition, status_eq}
use netmantle.ChangeReq.Rows.{ChangeRequest, Row, Store}
use netmantle.ChangeReq.Service.{
  assign, assign-status, update_request, transition_from, approve, approve_read, get, has_key,
}

can_transition-ne : (from to : Status) → can_transition from to ≡ true → status_eq to from ≡ false
unfolding can_transition status_eq
can_transition-ne draft to h = ground arith
can_transition-ne _ to h = ground arith

module _ (cr : ChangeRequest) (to : Status) (at : ℕ) (note : String) (reviewer : Option ℤ)
    (s : Store) where
  -- The status that the UPDATE looks for is gone from the rows that it has rewritten.
  update_request_again :
      (to' : Status) (at' : ℕ) (note' : String) (reviewer' : Option ℤ) (t : Store)
      → can_transition cr.status to ≡ true
      → t.requests ≡ (update_request cr to at note reviewer s).1.requests
      → (update_request cr to' at' note' reviewer' t).0 ≡ 0
  unfolding update_request
  update_request_again to' at' note' reviewer' t can e = rw (ap (λ (u : Table Row). u.rows) e) (
      count_where-update_where _ _ s.requests.rows
        (λ r _. gone (has_key cr.tenant_id cr.id (assign to at note reviewer r)) r))
    where
      gone :
          (b : Bool) (r : Row)
          → (b && status_eq (assign to at note reviewer r).status cr.status) ≡ false
      gone true r = rw assign-status (can_transition-ne cr.status to can)
      gone false r = refl

  pub update_request_none :
      (update_request cr to at note reviewer s).0 ≡ 0
      → (update_request cr to at note reviewer s).1.requests ≡ s.requests
  unfolding update_request
  update_request_none h =
      ap (λ (rows : List Row). record s.requests { rows = rows })
        (update_where_none _ _ s.requests.rows h)

  pub update_request-events : (update_request cr to at note reviewer s).1.events ≡ s.events
  unfolding update_request
  update_request-events = refl

module _ (cr : ChangeRequest) (actor : ℤ) (to : Status) (note : String) (reviewer : Option ℤ)
    (w : World Store) where
  -- A transition that returned a request was allowed, and made its UPDATE.
  pub transition_from_ok :
      (x : ChangeRequest)
      → (transition_from cr actor to note reviewer w).0 ≡ ok x
      → (is_terminal cr.status ≡ false)
        × (can_transition cr.status to ≡ true)
        × (w.fault w.calls ≡ false)
        × ((update_request cr to (format_time (w.clock w.reads)) note reviewer w.store).0 ≢ 0)
        × ((transition_from cr actor to note reviewer w).1.store.requests
            ≡ (update_request cr to
                (format_time (w.clock w.reads))
                note
                reviewer
                w.store).1.requests)
  unfolding transition_from
  transition_from_ok x h = ground arith

  -- A transition of a request that is not final, whose UPDATE the driver takes and finds no row in the
  -- status of the snapshot, ends in ErrInvalidTransition and writes to neither table.
  pub transition_from_lost :
      is_terminal cr.status ≡ false
      → w.fault w.calls ≡ false
      → (update_request cr to (format_time (w.clock w.reads)) note reviewer w.store).0 ≡ 0
      → ((transition_from cr actor to note reviewer w).0 ≡ err invalid_transition)
        × ((transition_from cr actor to note reviewer w).1.store.requests ≡ w.store.requests)
        × ((transition_from cr actor to note reviewer w).1.store.events ≡ w.store.events)
  unfolding transition_from
  transition_from_lost live up miss = ground (
    arith,
    update_request_none cr to (format_time (w.clock w.reads)) note reviewer w.store,
    update_request-events cr to (format_time (w.clock w.reads)) note reviewer w.store,
  )

-- Of two transitions on one snapshot at most one returns a request: after the first has, the second
-- gets ErrInvalidTransition and writes to neither table, if its UPDATE is not refused by the driver
-- and only other tables were written in between.
pub transition_from_once :
    (cr : ChangeRequest) (a b : ℤ) (to to' : Status) (note note' : String)
    (reviewer reviewer' : Option ℤ) (w v : World Store) (x : ChangeRequest)
    → (transition_from cr a to note reviewer w).0 ≡ ok x
    → v.store ≡ (transition_from cr a to note reviewer w).1.store
    → v.fault v.calls ≡ false
    → ((transition_from cr b to' note' reviewer' v).0 ≡ err invalid_transition)
      × ((transition_from cr b to' note' reviewer' v).1.store.requests ≡ v.store.requests)
      × ((transition_from cr b to' note' reviewer' v).1.store.events ≡ v.store.events)
transition_from_once cr a b to to' note note' reviewer reviewer' w v x won between up =
    let first = transition_from_ok cr a to note reviewer w x won in
    transition_from_lost cr b to' note' reviewer' v first.0 up (
      update_request_again cr to _ note reviewer w.store to' _ note' reviewer' v.store first.1
        (ap (λ (s : Store). s.requests) between ∙ first.4))

-- Without `allow_self`, nobody approves a request of their own: where `get` returns the request, in
-- whatever status, the answer is ErrSelfApproval and no table is written.
pub approve_self :
    (tenant i reviewer : ℤ) (reason : String) (w : World Store) (x : ChangeRequest)
    → (get tenant i w).0 ≡ ok x
    → x.requester_id ≡ reviewer
    → ((approve tenant i reviewer reason false w).0 ≡ err self_approval)
      × ((approve tenant i reviewer reason false w).1.store ≡ w.store)
unfolding approve approve_read get
approve_self tenant i reviewer reason w x found own =
    ground (arith, id_eq_iff x.requester_id reviewer)
