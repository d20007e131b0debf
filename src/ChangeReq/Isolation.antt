-- ===== src/ChangeReq/Isolation.antt =====
-- Tenants are apart: a call in one tenant neither shows nor changes a request of another.
use mathlib.Core.List.{append-nil}
use netmantle.Prelude.{
  ℕ, ◌≡◌, refl, Bool, true, false, Option, none, some, List, String, ℤ, inl, inr, arith, ap, ◌∙◌,
  id_eq, id_eq_iff, filter, filter-update_where, filter-append, find_first, find_first_sound,
  and_true, Option-cases, pos,
}
use netmantle.Db.{World, Table, Db, ok, ◌>>=◌}
use netmantle.Db.Keeps.{Keeps, Keeps-bind, Keeps-bind_ok, Keeps-if}
use netmantle.ChangeReq.Machine.{Status, submitted, approved, rejected, applied, failed, cancelled}
use netmantle.ChangeReq.Rows.{ChangeRequest, Row, Store, scan_request}
use netmantle.ChangeReq.Service.{
  create, submit, approve, approve_read, reject, cancel, mark_applied, mark_failed, transition,
  transition_from, get, keep_result, set_result, insert_request, update_request, has_key, assign,
  draft_row,
}
use netmantle.ChangeReq.Evolve.{transition_from-rows, create-rows}
use netmantle.ChangeReq.Calls.{
  Call, create_call, submit_call, approve_call, reject_call, cancel_call, mark_applied_call,
  mark_failed_call, call, store-get, keep_result-store,
}

-- The rows of one tenant.
abbrev pub tenant_rows : ℤ → Store → List Row
tenant_rows u s = filter (λ r. id_eq r.tenant_id u) s.requests.rows

assign-tenant :
    (to : Status) (at : ℕ) (note : String) (reviewer : Option ℤ) (r : Row)
    → (assign to at note reviewer r).tenant_id ≡ r.tenant_id
unfolding assign
assign-tenant submitted at note reviewer r = refl
assign-tenant _ at note reviewer r = refl

-- The tenant that a call names.
abbrev pub tenant_of : Call → ℤ
tenant_of (create_call cr) = cr.tenant_id
tenant_of (submit_call tenant i actor) = tenant
tenant_of (approve_call tenant i reviewer reason allow_self) = tenant
tenant_of (reject_call tenant i reviewer reason) = tenant
tenant_of (cancel_call tenant i actor reason) = tenant
tenant_of (mark_applied_call tenant i result) = tenant
tenant_of (mark_failed_call tenant i reason) = tenant

-- What `get` returns belongs to the tenant that asked, under the key that it asked for.
pub get_ok :
    (tenant i : ℤ) (w : World Store) (cr : ChangeRequest)
    → (get tenant i w).0 ≡ ok cr
    → (cr.tenant_id ≡ tenant) × (cr.id ≡ i)
unfolding get scan_request
get_ok tenant i w cr h = elim (Option-cases (find_first (has_key tenant i) w.store.requests.rows)) [
  | inl e ↦ ground arith
  | inr (r, e) ↦ ground (
    arith,
    find_first_sound (has_key tenant i) w.store.requests.rows r,
    id_eq_iff r.tenant_id tenant,
    id_eq_iff r.id i,
  )
]

has_key-other :
    (tenant i u : ℤ) (r : Row)
    → id_eq tenant u ≡ false
    → has_key tenant i r ≡ true
    → id_eq r.tenant_id u ≡ false
has_key-other tenant i u r other hit =
    ap (λ c. id_eq c u) ((id_eq_iff _ _).0 (and_true _ _ hit).0) ∙ other

module _ (u : ℤ) where
  update_request-others :
      (cr : ChangeRequest) (to : Status) (at : ℕ) (note : String) (reviewer : Option ℤ) (s : Store)
      → id_eq cr.tenant_id u ≡ false
      → tenant_rows u (update_request cr to at note reviewer s).1 ≡ tenant_rows u s
  unfolding update_request
  update_request-others cr to at note reviewer s other =
      filter-update_where _ _ _ s.requests.rows (λ r hit.
        let out = has_key-other cr.tenant_id cr.id u r other (and_true _ _ hit).0 in
        (out, ap (λ c. id_eq c u) (assign-tenant to at note reviewer r) ∙ out))

  set_result-others :
      (tenant i : ℤ) (text : String) (s : Store)
      → id_eq tenant u ≡ false
      → tenant_rows u (set_result tenant i text s).1 ≡ tenant_rows u s
  unfolding set_result
  set_result-others tenant i text s other =
      filter-update_where _ _ _ s.requests.rows
        (λ r hit. let out = has_key-other tenant i u r other hit in (out, out))

  insert_request-others :
      (cr : ChangeRequest) (title : String) (at : ℕ) (s : Store)
      → id_eq cr.tenant_id u ≡ false
      → tenant_rows u (insert_request cr title at s).1 ≡ tenant_rows u s
  unfolding insert_request draft_row
  insert_request-others cr title at s other =
      filter-append _ s.requests.rows _
      ∙ (rw other (append-nil (filter (λ r. id_eq r.tenant_id u) s.requests.rows)))

  module _ (rows : List Row) where
    -- Tenant `u` has these rows.
    abbrev Holds : World Store → Type 0
    Holds w = tenant_rows u w.store ≡ rows

    Holds-eq :
        (s t : Table Row)
        → t ≡ s
        → filter (λ r. id_eq r.tenant_id u) s.rows ≡ rows
        → filter (λ r. id_eq r.tenant_id u) t.rows ≡ rows
    Holds-eq s t e h = ap (λ (b : Table Row). filter (λ r. id_eq r.tenant_id u) b.rows) e ∙ h

    get-Holds : (tenant i : ℤ) → Keeps Holds (get tenant i)
    get-Holds tenant i w h = ap (tenant_rows u) (store-get tenant i w) ∙ h

    transition_from-Holds :
        (cr : ChangeRequest) (actor : ℤ) (to : Status) (note : String) (reviewer : Option ℤ)
        → id_eq cr.tenant_id u ≡ false
        → Keeps Holds (transition_from cr actor to note reviewer)
    transition_from-Holds cr actor to note reviewer other w h =
        elim (transition_from-rows cr actor to note reviewer w) [
          | inl kept ↦ Holds-eq _ _ kept h
          | inr moved ↦
              Holds-eq _ _ moved.1 (update_request-others cr to _ note reviewer w.store other ∙ h)
        ]

    create-Holds : (cr : ChangeRequest) → id_eq cr.tenant_id u ≡ false → Keeps Holds (create cr)
    create-Holds cr other w h = elim (create-rows cr w) [
      | inl kept ↦ Holds-eq _ _ kept h
      | inr new ↦ Holds-eq _ _ new (insert_request-others cr _ _ w.store other ∙ h)
    ]

    keep_result-Holds :
        (tenant i : ℤ) (text : String) (cr : ChangeRequest)
        → id_eq tenant u ≡ false
        → Keeps Holds (keep_result tenant i text cr)
    keep_result-Holds tenant i text cr other w h = elim (keep_result-store tenant i text cr w) [
      | inl kept ↦ ap (tenant_rows u) kept ∙ h
      | inr set ↦ ap (tenant_rows u) set ∙ set_result-others tenant i text w.store other ∙ h
    ]

    approve_read-Holds :
        (cr : ChangeRequest) (reviewer : ℤ) (reason : String) (allow_self : Bool)
        → id_eq cr.tenant_id u ≡ false
        → Keeps Holds (approve_read cr reviewer reason allow_self)
    unfolding approve_read
    approve_read-Holds cr reviewer reason allow_self other =
        Keeps-if Holds _ _ _ (λ w h. h)
          (transition_from-Holds cr reviewer approved reason (some reviewer) other)

    -- What follows a `get` in another tenant works on a request of that tenant.
    after_get :
        (tenant i : ℤ) (f : ChangeRequest → Db Store ChangeRequest)
        → id_eq tenant u ≡ false
        → ((cr : ChangeRequest) → id_eq cr.tenant_id u ≡ false → Keeps Holds (f cr))
        → Keeps Holds (get tenant i >>= f)
    after_get tenant i f other k =
        Keeps-bind_ok Holds (get tenant i) f (get-Holds tenant i)
          (λ cr w e. k cr (ap (λ c. id_eq c u) (get_ok tenant i w cr e).0 ∙ other))

    transition-Holds :
        (tenant i actor : ℤ) (to : Status) (note : String)
        → id_eq tenant u ≡ false
        → Keeps Holds (transition tenant i actor to note)
    unfolding transition
    transition-Holds tenant i actor to note other =
        after_get tenant i _ other (λ cr out. transition_from-Holds cr actor to note none out)

    call-Holds : (c : Call) → id_eq (tenant_of c) u ≡ false → Keeps Holds (call c)
    unfolding call submit approve reject cancel mark_applied mark_failed
    call-Holds (create_call cr) other = create-Holds cr other
    call-Holds (submit_call tenant i actor) other =
        transition-Holds tenant i actor submitted "" other
    call-Holds (approve_call tenant i reviewer reason allow_self) other =
        after_get tenant i _ other (λ cr out. approve_read-Holds cr reviewer reason allow_self out)
    call-Holds (reject_call tenant i reviewer reason) other =
        after_get tenant i _ other
          (λ cr out. transition_from-Holds cr reviewer rejected reason (some reviewer) out)
    call-Holds (cancel_call tenant i actor reason) other =
        transition-Holds tenant i actor cancelled reason other
    call-Holds (mark_applied_call tenant i result) other =
        Keeps-bind Holds (transition tenant i (pos 0) applied "apply succeeded") _
          (transition-Holds tenant i (pos 0) applied _ other)
          (λ cr. keep_result-Holds tenant i result cr other)
    call-Holds (mark_failed_call tenant i reason) other =
        Keeps-bind Holds (transition tenant i (pos 0) failed "apply failed") _
          (transition-Holds tenant i (pos 0) failed _ other)
          (λ cr. keep_result-Holds tenant i reason cr other)

-- A call in one tenant, whatever fails in it, leaves the requests of every other tenant as they are.
pub call-tenant_rows :
    (c : Call) (u : ℤ) (w : World Store)
    → id_eq (tenant_of c) u ≡ false
    → tenant_rows u (call c w).1.store ≡ tenant_rows u w.store
call-tenant_rows c u w other = call-Holds u (tenant_rows u w.store) c other w refl
