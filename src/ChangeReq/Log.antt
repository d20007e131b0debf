-- ===== src/ChangeReq/Log.antt =====
-- The event log against the table of requests.
use netmantle.Prelude.{
  ℕ, ◌≡◌, ◌≢◌, ◌≤◌, refl, Bool, true, false, Option, none, some, List, [], ◌∷◌, String, ℤ, pos,
  id_eq, inl, inr, arith, ap, subst, sym, ◌&&◌, count_where, update_where, Bool-cases, ◌++◌,
  id_eq_iff, All, All-append, if◌then◌else◌, ◌∙◌, id_eq_comm, and_true, All-map, All-both,
  id_eq_refl,
}
use native.Mathlib.Nat.{le_refl}
use netmantle.Db.{insert, update}
use netmantle.Db.Keys.{Below, Below-ne, Below-le, IsKeyed, Unique, insert-IsKeyed, update-IsKeyed}
use netmantle.ChangeReq.Machine.{Status, draft, status_eq, status_eq_iff}
use netmantle.ChangeReq.Rows.{ChangeRequest, Row, EventRow, Store, empty_store}
use netmantle.ChangeReq.Service.{
  assign, assign-id, assign-status, draft_row, event_row, insert_request, insert_event,
  update_request, has_key,
}

-- Whether an event starts where the request stands.
starts_at : Option Status → Option Status → Bool
starts_at none none = true
starts_at (some a) (some b) = status_eq a b
starts_at _ _ = false

follow : Option Status → EventRow → Option (Option Status)
unfolding starts_at
follow at e = if starts_at e.from_status at then some (some e.to_status) else none

-- The status in which the events of request `i` leave it, from `at`; `none` if one of them does not
-- start where the one before it ended.
unfoldable pub replay : ℤ → Option Status → List EventRow → Option (Option Status)
unfolding follow
replay i at [] = some at
replay i at (e ∷ es) =
    let rest = replay i at es in
    if id_eq e.change_request_id i
    then elim (follow at e) [ none ↦ none | some at' ↦ replay i at' es ]
    else rest

replay-append :
    (i : ℤ) (at : Option Status) (es : List EventRow) (e : EventRow)
    → replay i at (es ++ e ∷ [])
      ≡ elim (replay i at es) [ none ↦ none | some at' ↦ replay i at' (e ∷ []) ]
unfolding replay
replay-append i at [] e = ground arith
replay-append i at (d ∷ es) e =
    ground (arith, replay-append i at es e, replay-append i (some d.to_status) es e)

-- An event of another request is passed over.
replay_other :
    (i : ℤ) (es : List EventRow) (e : EventRow)
    → id_eq e.change_request_id i ≡ false
    → replay i none (es ++ e ∷ []) ≡ replay i none es
unfolding replay
replay_other i es e h = ground (arith, replay-append i none es e)

-- An event that starts where the request stands moves it.
replay_moves :
    (i : ℤ) (at : Option Status) (es : List EventRow) (e : EventRow)
    → replay i none es ≡ some at
    → id_eq e.change_request_id i ≡ true
    → starts_at e.from_status at ≡ true
    → replay i none (es ++ e ∷ []) ≡ some (some e.to_status)
unfolding replay
replay_moves i at es e h own start = ground (arith, replay-append i none es e)

-- The events of the request of a row, in order, lead from its creation to the row's status.
abbrev pub IsLogged : List EventRow → Row → Type 0
IsLogged es r = replay r.id none es ≡ some (some r.status)

-- The log agrees with the table; keys are all different, and none is of the future.
pub record Agrees (s : Store) : Type 0 where
  pub logged : All (IsLogged s.events.rows) s.requests.rows
  pub keyed : IsKeyed (λ r. r.id) s.requests
  pub quiet : (n : ℕ) → s.requests.next_id ≤ n → replay (pos n) none s.events.rows ≡ some none

pub empty_store-Agrees : Agrees empty_store
unfolding replay
empty_store-Agrees = record {
  logged = tt;
  keyed = record { unique = tt; below = tt };
  quiet = λ n h. refl;
}

-- The two statements of a transition, in one condition: the rows that it rewrites are those of one
-- key that stand in `from`.
module _ (tenant i : ℤ) (from to : Status) (f : Row → Row) (f-id : (r : Row) → (f r).id ≡ r.id)
    (f-status : (r : Row) → (f r).status ≡ to) (es : List EventRow) (e : EventRow)
    (e-id : e.change_request_id ≡ i) (e-from : e.from_status ≡ some from)
    (e-to : e.to_status ≡ to) where
  abbrev hit : Row → Bool
  hit r = has_key tenant i r && status_eq r.status from

  hit-id : (r : Row) → id_eq r.id i ≡ false → hit r ≡ false
  hit-id r h = ground arith

  other_row :
      (r : Row)
      → id_eq r.id i ≡ false
      → IsLogged es r
      → IsLogged (es ++ e ∷ []) (if hit r then f r else r)
  other_row r o h =
      rw (hit-id r o)
        (replay_other r.id es e (ap (λ c. id_eq c r.id) e-id ∙ id_eq_comm i r.id ∙ o) ∙ h)

  hit_row : (r : Row) → hit r ≡ true → IsLogged es r → IsLogged (es ++ e ∷ []) (f r)
  unfolding starts_at
  hit_row r on h =
      let (key, at) = and_true _ _ on in
      let own = and_true _ _ key in
      rw (f-id r) (
        rw (f-status r) (
          replay_moves r.id (some r.status) es e h
            (ap (λ c. id_eq c r.id) e-id ∙ id_eq_comm i r.id ∙ own.1)
            (ap (λ c. starts_at c (some r.status)) e-from
              ∙ (status_eq_iff _ _).1 (sym ((status_eq_iff _ _).0 at)))
          ∙ ap (λ c. some (some c)) e-to))

  others :
      (xs : List Row)
      → All (λ y. id_eq y.id i ≡ false) xs
      → All (IsLogged es) xs
      → All (IsLogged (es ++ e ∷ [])) (update_where hit f xs)
  unfolding update_where
  others [] o h = tt
  others (x ∷ xs) o h = (other_row x o.0 h.0, others xs o.1 h.1)

  -- Where the row of the key stands first, the others have another key.
  same_key :
      (x : Row) (xs : List Row)
      → hit x ≡ true
      → All (λ y. id_eq y.id x.id ≡ false) xs
      → All (λ y. id_eq y.id i ≡ false) xs
  same_key x xs on =
      let own = (id_eq_iff _ _).0 (and_true _ _ (and_true _ _ on).0).1 in
      All-map _ _ xs (λ y o. subst (λ c. id_eq y.id c ≡ false) own o)

  -- Where it stands behind, this one has another key.
  other_key :
      (x : Row) (xs : List Row)
      → count_where hit xs ≢ 0
      → All (λ y. id_eq y.id x.id ≡ false) xs
      → id_eq x.id i ≡ false
  unfolding count_where
  other_key x [] c u = absurd (c refl)
  other_key x (y ∷ ys) c u = elim (Bool-cases (hit y)) [
    | inl on ↦
        let own = (id_eq_iff _ _).0 (and_true _ _ (and_true _ _ on).0).1 in
        subst (λ c. id_eq x.id c ≡ false) own (id_eq_comm x.id y.id ∙ u.0)
    | inr off ↦ other_key x ys (λ z. c (rw off z)) u.1
  ]

  hit-Below :
      (n : ℕ) (xs : List Row) → count_where hit xs ≢ 0 → All (λ r. Below r.id n) xs → Below i n
  unfolding count_where
  hit-Below n [] c b = absurd (c refl)
  hit-Below n (x ∷ xs) c b = elim (Bool-cases (hit x)) [
    | inl on ↦ subst (λ k. Below k n) ((id_eq_iff _ _).0 (and_true _ _ (and_true _ _ on).0).1) b.0
    | inr off ↦ hit-Below n xs (λ z. c (rw off z)) b.1
  ]

  IsLogged-update :
      (xs : List Row)
      → count_where hit xs ≢ 0
      → Unique (λ (r : Row). r.id) xs
      → All (IsLogged es) xs
      → All (IsLogged (es ++ e ∷ [])) (update_where hit f xs)
  unfolding update_where count_where
  IsLogged-update [] c u h = tt
  IsLogged-update (x ∷ xs) c u h = elim (Bool-cases (hit x)) [
    | inl on ↦ (rw on (hit_row x on h.0), others xs (same_key x xs on u.0) h.1)
    | inr off ↦
        let more : count_where hit xs ≢ 0 = λ z. c (rw off z) in
        let o = other_key x xs more u.0 in (other_row x o h.0, IsLogged-update xs more u.1 h.1)
  ]

-- A transition whose UPDATE finds its row, with its event, keeps the agreement.
pub moved-Agrees :
    (cr : ChangeRequest) (actor : ℤ) (to : Status) (note : String) (reviewer : Option ℤ)
    (at at' : ℕ) (s : Store)
    → (update_request cr to at note reviewer s).0 ≢ 0
    → Agrees s
    → Agrees
        (insert_event cr.id actor
          (some cr.status)
          to
          note
          at'
          (update_request cr to at note reviewer s).1).1
unfolding update_request insert_event event_row insert update
moved-Agrees cr actor to note reviewer at at' s found h = record {
  logged =
      IsLogged-update cr.tenant_id cr.id cr.status to (assign to at note reviewer)
        (assign-id to at note reviewer) (assign-status to at note reviewer) s.events.rows _ refl
        refl refl s.requests.rows found h.keyed.unique h.logged;
  keyed =
      update-IsKeyed (λ (r : Row). r.id) _ (assign to at note reviewer)
        (assign-id to at note reviewer) s.requests h.keyed;
  quiet = λ n le.
      replay_other (pos n) s.events.rows _ (
        Below-le cr.id s.requests.next_id n
          (hit-Below cr.tenant_id cr.id cr.status to (assign to at note reviewer)
            (assign-id to at note reviewer) (assign-status to at note reviewer) s.events.rows
            (event_row cr.id actor (some cr.status) to note at' (pos s.events.next_id)) refl refl
            refl s.requests.next_id s.requests.rows found h.keyed.below)
          le)
      ∙ h.quiet n le;
}

-- A new draft, with its event, keeps the agreement.
pub created-Agrees :
    (cr : ChangeRequest) (actor : ℤ) (title note : String) (at at' : ℕ) (s : Store)
    → Agrees s
    → Agrees
        (insert_event
          (pos s.requests.next_id)
          actor
          none
          draft
          note
          at'
          (insert_request cr title at s).1).1
unfolding insert_request insert_event event_row insert draft_row starts_at
created-Agrees cr actor title note at at' s h = record {
  logged =
      All-append _ s.requests.rows _
        (All-map _ _ _ (λ r hr. replay_other r.id s.events.rows _ (Below-ne r.id _ hr.1) ∙ hr.0)
          (All-both _ _ s.requests.rows h.logged h.keyed.below))
        (
          replay_moves (pos s.requests.next_id) none s.events.rows _
              (h.quiet s.requests.next_id (le_refl _)) (id_eq_refl (pos s.requests.next_id)) refl,
          tt,
        );
  keyed = insert-IsKeyed (λ (r : Row). r.id) (draft_row cr title at) s.requests (λ i. refl) h.keyed;
  quiet = λ n le.
      replay_other (pos n) s.events.rows _ (Below-le (pos s.requests.next_id) _ n (omega arith) le)
      ∙ h.quiet n (omega arith);
}
