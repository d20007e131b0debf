-- ===== src/ChangeReq/RoundTrip.antt =====
-- What `create` returns against what `get` reads back.
use netmantle.Prelude.{
  ℕ, ◌≡◌, refl, false, none, some, List, [], ◌∷◌, String, ℤ, pos, arith, ap, ◌∙◌, sym, subst,
  id_eq_refl, id_eq_comm, find_first, find_first-append, All,
}
use netmantle.Prelude.Text.{trim_space}
use netmantle.Db.{coalesce-nullable_str, World, Table, ok, format_time, parse_time, insert}
use netmantle.ChangeReq.Machine.{draft}
use netmantle.ChangeReq.Rows.{
  ChangeRequest, Row, Store, Variables, nullable_json, scan_request, scan_variables,
}
use netmantle.ChangeReq.Service.{create, get, draft_row, insert_request, has_key}
use netmantle.ChangeReq.Log.{Agrees}
use netmantle.Db.Keys.{Below, Below-ne}

scan-nullable_json : (m : Variables) → scan_variables (nullable_json m) ≡ m
unfolding scan_variables nullable_json
scan-nullable_json [] = refl
scan-nullable_json (v ∷ vs) = refl

-- A request as a later `get` reads it: times lose what is below the second, and what `Create` does
-- not store is empty.
abbrev pub reread : ChangeRequest → ChangeRequest
reread x = record x {
  reviewer_id = none;
  decision_reason = "";
  result = "";
  created_at = parse_time (format_time x.created_at);
  updated_at = parse_time (format_time x.updated_at);
  submitted_at = none;
  decided_at = none;
  applied_at = none;
}

find_first_new :
    (tenant : ℤ) (n : ℕ) (rows : List Row)
    → All (λ r. Below r.id n) rows
    → find_first (has_key tenant (pos n)) rows ≡ none
unfolding find_first
find_first_new tenant n [] h = refl
find_first_new tenant n (r ∷ rows) h =
    ground (arith, id_eq_comm r.id (pos n), Below-ne r.id n h.0, find_first_new tenant n rows h.1)

insert_found :
    (cr : ChangeRequest) (title : String) (at : ℕ) (s : Store)
    → All (λ r. Below r.id s.requests.next_id) s.requests.rows
    → find_first
        (has_key cr.tenant_id (pos s.requests.next_id))
        (insert_request cr title at s).1.requests.rows
      ≡ some (draft_row cr title at (pos s.requests.next_id))
unfolding insert_request insert draft_row find_first
insert_found cr title at s below =
    let k = has_key cr.tenant_id (pos s.requests.next_id) in
    ground (
      arith,
      find_first-append k s.requests.rows (draft_row cr title at (pos s.requests.next_id) ∷ []),
      find_first_new cr.tenant_id s.requests.next_id s.requests.rows below,
      id_eq_refl cr.tenant_id,
      id_eq_refl (pos s.requests.next_id),
    )

get_found :
    (tenant i : ℤ) (v : World Store) (r : Row) (t : Table Row)
    → v.fault v.calls ≡ false
    → v.store.requests ≡ t
    → find_first (has_key tenant i) t.rows ≡ some r
    → (get tenant i v).0 ≡ ok (scan_request r)
unfolding get
get_found tenant i v r t up e found =
    let here : find_first (has_key tenant i) v.store.requests.rows ≡ some r =
      ap (λ (u : Table Row). find_first (has_key tenant i) u.rows) e ∙ found in
    ground arith

-- Of a successful `create`: the request that it returns, and the row that it leaves.
create_ok :
    (cr : ChangeRequest) (w : World Store) (x : ChangeRequest)
    → (create cr w).0 ≡ ok x
    → let t = w.clock w.reads in
      (x ≡ record cr {
        id = pos w.store.requests.next_id;
        title = trim_space cr.title;
        status = draft;
        created_at = t;
        updated_at = t;
      })
      × ((create cr w).1.store.requests
          ≡ (insert_request cr (trim_space cr.title) (format_time t) w.store).1.requests)
unfolding create insert_request insert
create_ok cr w x h = ground arith

scan-draft_row :
    (cr : ChangeRequest) (title : String) (t : ℕ) (i : ℤ)
    → scan_request (draft_row cr title (format_time t) i)
      ≡ reread (record cr { id = i; title = title; status = draft; created_at = t; updated_at = t })
unfolding scan_request draft_row
scan-draft_row cr title t i = simp (coalesce-nullable_str, scan-nullable_json)

-- What `create` has returned, in tables that agree, a later `get` finds under its key, if only other
-- tables were written in between and the driver takes the query: the same request, its times cut to
-- the second and the fields that a draft does not have empty.
pub get-create :
    (cr x : ChangeRequest) (w v : World Store)
    → Agrees w.store
    → (create cr w).0 ≡ ok x
    → v.store ≡ (create cr w).1.store
    → v.fault v.calls ≡ false
    → (get x.tenant_id x.id v).0 ≡ ok (reread x)
get-create cr x w v agrees made later up =
    let (shape, rows) = create_ok cr w x made in
    subst (λ y. (get y.tenant_id y.id v).0 ≡ ok (reread y)) (sym shape)
      (get_found cr.tenant_id (pos w.store.requests.next_id) v _ _ up
          (ap (λ (s : Store). s.requests) later ∙ rows)
          (insert_found cr (trim_space cr.title) _ w.store agrees.keyed.below)
        ∙ ap ok (scan-draft_row cr _ _ _))
