-- ===== src/Audit/Filters.antt =====
-- What a filter asks of a row, against the conditions that List puts into its WHERE.
use Prim.Native.String.{◌++◌ as join_text}
use netmantle.Prelude.{
  ℕ, ◌≤◌, ◌≡◌, ◌≢◌, ◌↔◌, refl, id_eq, Bool, true, false, Option, none, some, List, ◌++◌, ℤ,
  id_eq_iff, positive, String, str_eq, str_eq_iff, leb, arith,
}
use netmantle.Db.{format_time}
use netmantle.Audit.Service.{
  Row, ListFilter, holds, clause, filled, time_clause, all_hold, by_time, by_request, has_target,
  by_target, by_action, by_actor, conditions,
}

clause_iff :
    (b : Bool) (p : Row → Bool) (ps : List (Row → Bool)) (r : Row)
    → (all_hold (clause b p ++ ps) r ≡ true) ↔ ((b ≡ true → p r ≡ true) × (all_hold ps r ≡ true))
unfolding clause all_hold
clause_iff true p ps r = ground arith
clause_iff false p ps r = ground arith

holds_iff :
    {A : Type 0} (p : A → Bool) (o : Option A)
    → (holds p o ≡ true) ↔ ((a : A) × (o ≡ some a) × (p a ≡ true))
unfolding holds
holds_iff p none = (λ h. absurd (ground arith), λ (a, e, h). absurd (ground arith))
holds_iff p (some a) = (λ h. (a, refl, h), λ (b, e, h). ground arith)

pub holds_id : (i : ℤ) (o : Option ℤ) → (holds (λ j. id_eq j i) o ≡ true) ↔ (o ≡ some i)
unfolding holds
holds_id i none = ground arith
holds_id i (some j) = ground (arith, id_eq_iff j i)

holds_str : (s : String) (o : Option String) → (holds (λ t. str_eq t s) o ≡ true) ↔ (o ≡ some s)
unfolding holds
holds_str s none = ground arith
holds_str s (some t) = ground (arith, str_eq_iff t s)

filled_iff : (s : String) → (filled s ≡ true) ↔ (s ≢ "")
unfolding filled
filled_iff s = ground (arith, str_eq_iff s "")

time_clause_iff :
    (o : Option ℕ) (p : ℕ → ℕ → Bool) (ps : List (Row → Bool)) (r : Row)
    → (all_hold (time_clause o p ++ ps) r ≡ true)
      ↔ (((t : ℕ) → o ≡ some t → p (format_time t) r.created_at ≡ true) × (all_hold ps r ≡ true))
unfolding time_clause
time_clause_iff none p ps r = (λ h. (λ t e. absurd (ground arith), h), λ h. h.1)
time_clause_iff (some t) p ps r = (
  λ h.
      let both = (clause_iff true (λ r. p (format_time t) r.created_at) ps r).0 h in
      (λ u e. let same : t ≡ u = cc in ground (arith, both.0 refl), both.1),
  λ h. (clause_iff true (λ r. p (format_time t) r.created_at) ps r).1 (λ _. h.0 t refl, h.1),
)

until_iff :
    (o : Option ℕ) (r : Row)
    → (all_hold (time_clause o (λ bound at. leb at bound)) r ≡ true)
      ↔ ((t : ℕ) → o ≡ some t → leb r.created_at (format_time t) ≡ true)
unfolding time_clause clause all_hold
until_iff none r = (λ h t e. absurd (ground arith), λ h. refl)
until_iff (some t) r =
    (λ h u e. let same : t ≡ u = cc in ground arith, λ h. let one = h t refl in ground arith)

module _ (like : String → String → Bool) where
  -- What a filter asks of a row; a field that is not set asks nothing.
  pub record Matches (f : ListFilter) (r : Row) : Type 0 where
    pub tenant : positive f.tenant_id ≡ true → r.tenant_id ≡ some f.tenant_id
    pub actor : positive f.actor_user_id ≡ true → r.actor_user_id ≡ some f.actor_user_id
    pub action : f.action ≢ "" → r.action ≡ f.action
    pub target :
        f.target ≢ ""
        → (s : String) × (r.target ≡ some s)
          × (like s (join_text "%" (join_text f.target "%")) ≡ true)
    pub request : f.request_id ≢ "" → r.request_id ≡ some f.request_id
    pub since : (t : ℕ) → f.since ≡ some t → format_time t ≤ r.created_at
    pub until : (t : ℕ) → f.until ≡ some t → r.created_at ≤ format_time t

  tenant_iff :
      (f : ListFilter) (r : Row)
      → (all_hold (conditions like f) r ≡ true) ↔ (
          (positive f.tenant_id ≡ true → holds (λ i. id_eq i f.tenant_id) r.tenant_id ≡ true)
          × (all_hold (by_actor like f) r ≡ true))
  unfolding conditions
  tenant_iff f r =
      clause_iff (positive f.tenant_id) (λ r. holds (λ i. id_eq i f.tenant_id) r.tenant_id)
        (by_actor like f) r

  actor_iff :
      (f : ListFilter) (r : Row)
      → (all_hold (by_actor like f) r ≡ true) ↔ (
          (positive f.actor_user_id ≡ true
            → holds (λ i. id_eq i f.actor_user_id) r.actor_user_id ≡ true)
          × (all_hold (by_action like f) r ≡ true))
  unfolding by_actor
  actor_iff f r =
      clause_iff (positive f.actor_user_id)
        (λ r. holds (λ i. id_eq i f.actor_user_id) r.actor_user_id) (by_action like f) r

  action_iff :
      (f : ListFilter) (r : Row)
      → (all_hold (by_action like f) r ≡ true) ↔ (
          (filled f.action ≡ true → str_eq r.action f.action ≡ true)
          × (all_hold (by_target like f) r ≡ true))
  unfolding by_action
  action_iff f r = clause_iff (filled f.action) (λ r. str_eq r.action f.action) (by_target like f) r

  target_iff :
      (f : ListFilter) (r : Row)
      → (all_hold (by_target like f) r ≡ true) ↔ (
          (filled f.target ≡ true → has_target like f r ≡ true)
          × (all_hold (by_request like f) r ≡ true))
  unfolding by_target
  target_iff f r = clause_iff (filled f.target) (has_target like f) (by_request like f) r

  request_iff :
      (f : ListFilter) (r : Row)
      → (all_hold (by_request like f) r ≡ true) ↔ (
          (filled f.request_id ≡ true → holds (λ s. str_eq s f.request_id) r.request_id ≡ true)
          × (all_hold (by_time like f) r ≡ true))
  unfolding by_request
  request_iff f r =
      clause_iff (filled f.request_id) (λ r. holds (λ s. str_eq s f.request_id) r.request_id)
        (by_time like f) r

  time_iff :
      (f : ListFilter) (r : Row)
      → (all_hold (by_time like f) r ≡ true) ↔ (
          ((t : ℕ) → f.since ≡ some t → leb (format_time t) r.created_at ≡ true)
          × ((t : ℕ) → f.until ≡ some t → leb r.created_at (format_time t) ≡ true))
  unfolding by_time
  time_iff f r =
      let late : ℕ → ℕ → Bool = λ bound at. leb bound at in
      let early : ℕ → ℕ → Bool = λ bound at. leb at bound in
      let (there, back) = time_clause_iff f.since late (time_clause f.until early) r in
      (
        λ h. ((there h).0, ((until_iff f.until r).0 (there h).1)),
        λ h. back (h.0, (until_iff f.until r).1 h.1),
      )

  pub matched : (f : ListFilter) (r : Row) → all_hold (conditions like f) r ≡ true → Matches f r
  unfolding has_target
  matched f r h =
      let (tenant, h₁) = (tenant_iff f r).0 h in
      let (actor, h₂) = (actor_iff f r).0 h₁ in
      let (action, h₃) = (action_iff f r).0 h₂ in
      let (target, h₄) = (target_iff f r).0 h₃ in
      let (request, h₅) = (request_iff f r).0 h₄ in
      let (since, until) = (time_iff f r).0 h₅ in
      record {
        tenant = λ e. (holds_id f.tenant_id r.tenant_id).0 (tenant e);
        actor = λ e. (holds_id f.actor_user_id r.actor_user_id).0 (actor e);
        action = λ e. (str_eq_iff r.action f.action).0 (action ((filled_iff f.action).1 e));
        target = λ e. (holds_iff _ r.target).0 (target ((filled_iff f.target).1 e));
        request =
            λ e. (holds_str f.request_id r.request_id).0 (request ((filled_iff f.request_id).1 e));
        since = λ t e. let one = since t e in ground arith;
        until = λ t e. let one = until t e in ground arith;
      }

  pub matching : (f : ListFilter) (r : Row) → Matches f r → all_hold (conditions like f) r ≡ true
  unfolding has_target
  matching f r m = (tenant_iff f r).1 (
    λ e. (holds_id f.tenant_id r.tenant_id).1 (m.tenant e),
    (actor_iff f r).1 (
      λ e. (holds_id f.actor_user_id r.actor_user_id).1 (m.actor e),
      (action_iff f r).1 (
        λ e. (str_eq_iff r.action f.action).1 (m.action ((filled_iff f.action).0 e)),
        (target_iff f r).1 (
          λ e. (holds_iff _ r.target).1 (m.target ((filled_iff f.target).0 e)),
          (request_iff f r).1 (
            λ e.
                (holds_str f.request_id r.request_id).1 (m.request ((filled_iff f.request_id).0 e)),
            (time_iff f r).1 (
              λ t e. let one = m.since t e in ground arith,
              λ t e. let one = m.until t e in ground arith,
            ),
          ),
        ),
      ),
    ),
  )
