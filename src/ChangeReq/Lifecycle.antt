-- ===== src/ChangeReq/Lifecycle.antt =====
-- What every history of the workflow keeps of a change request.
use netmantle.Prelude.{ℕ, ◌≤◌, ◌≡◌, refl, Option, none, some, List, ℤ, arith, All}
use netmantle.Db.Evolve.{Evolves, Evolves-refl, Evolves-trans, Evolves-map, All-Evolves}
use netmantle.ChangeReq.Machine.{
  Status, submitted, approved, rejected, applied, failed, cancelled, draft, can_transition,
}
use netmantle.ChangeReq.Rows.{Row, Store, empty_store}
use netmantle.ChangeReq.Service.{assign, draft_row}
use netmantle.ChangeReq.Evolve.{
  Reach, here, next, RowStep, same, unreviewed, reviewed, keeps_result, Draft, drafted,
  Step-Evolves, to_submitted, to_cancelled, to_applied, to_failed,
}

abbrev pub IsSome {ℓ} : {A : Type ℓ} → Option A → Type 0
IsSome none = ⊥
IsSome (some _) = Unit

-- The time at which a request has reached its status, and the reviewer, are there; what it has not
-- reached is not.
abbrev pub Stamps : Status → Option ℕ → Option ℕ → Option ℕ → Option ℤ → Type 0
Stamps draft s d a v = (s ≡ none) × (d ≡ none) × (a ≡ none) × (v ≡ none)
Stamps submitted s d a v = IsSome s × (d ≡ none) × (a ≡ none) × (v ≡ none)
Stamps approved s d a v = IsSome s × IsSome d × (a ≡ none) × IsSome v
Stamps rejected s d a v = IsSome s × IsSome d × (a ≡ none) × IsSome v
Stamps applied s d a v = IsSome s × IsSome d × IsSome a × IsSome v
Stamps failed s d a v = IsSome s × IsSome d × IsSome a × IsSome v
Stamps cancelled s d a v = a ≡ none

abbrev pub IsStamped : Row → Type 0
IsStamped r = Stamps r.status r.submitted_at r.decided_at r.applied_at r.reviewer_id

Draft-IsStamped : {r : Row} → Draft r → IsStamped r
unfolding draft_row
Draft-IsStamped (drafted cr title at i) = (refl, refl, refl, refl)

RowStep-IsStamped : {x y : Row} → RowStep x y → IsStamped x → IsStamped y
unfolding assign can_transition
RowStep-IsStamped (same r) h = h
RowStep-IsStamped (unreviewed at note r to_submitted can) h = ground arith
RowStep-IsStamped (unreviewed at note r to_cancelled can) h = ground arith
RowStep-IsStamped (unreviewed at note r to_applied can) h = ground arith
RowStep-IsStamped (unreviewed at note r to_failed can) h = ground arith
RowStep-IsStamped (reviewed to at note reviewer r which can) h = ground arith
RowStep-IsStamped (keeps_result text r) h = h

-- In every history of the service's steps from the empty tables, however the steps of the callers interleave and whichever
-- statements fail, every row has the times and the reviewer that its status stands for: an approved, applied, failed or
-- rejected request was submitted and decided by a reviewer whom the row names, and only an applied
-- or failed one has an apply time.
pub Reach-IsStamped : (t : Store) → Reach empty_store t → All IsStamped t.requests.rows
Reach-IsStamped t here = tt
Reach-IsStamped t (next {t = u} r st) =
    All-Evolves RowStep Draft IsStamped (λ _ d. Draft-IsStamped d)
      (λ _ _ e h. RowStep-IsStamped e h) u.requests.rows t.requests.rows (Step-Evolves st)
      (Reach-IsStamped u r)

-- How far a request has come.
abbrev pub level : Status → ℕ
level draft = 0
level submitted = 1
level approved = 2
level _ = 3

-- What a later version of a row has kept: what is to be applied and who asked for it; the status
-- falls back to no earlier one, and a decision, once final, stands.
pub record IsLaterVersion (x y : Row) : Type 0 where
  pub id : y.id ≡ x.id
  pub tenant_id : y.tenant_id ≡ x.tenant_id
  pub kind : y.kind ≡ x.kind
  pub title : y.title ≡ x.title
  pub requester_id : y.requester_id ≡ x.requester_id
  pub push_job_id : y.push_job_id ≡ x.push_job_id
  pub variables : y.variables ≡ x.variables
  pub device_id : y.device_id ≡ x.device_id
  pub artifact : y.artifact ≡ x.artifact
  pub target_sha : y.target_sha ≡ x.target_sha
  pub payload : y.payload ≡ x.payload
  pub created_at : y.created_at ≡ x.created_at
  pub level_grows : level x.status ≤ level y.status
  pub same_level : level x.status ≡ level y.status → y.status ≡ x.status
  pub reviewer_final : y.status ≡ x.status → y.reviewer_id ≡ x.reviewer_id
  pub decision_final : y.status ≡ x.status → y.decided_at ≡ x.decided_at

IsLaterVersion-refl : (x : Row) → IsLaterVersion x x
IsLaterVersion-refl x = ground arith

RowStep-IsLaterVersion : {x y : Row} → RowStep x y → IsLaterVersion x y
unfolding assign can_transition
RowStep-IsLaterVersion (same r) = IsLaterVersion-refl r
RowStep-IsLaterVersion (unreviewed at note r to_submitted can) = ground arith
RowStep-IsLaterVersion (unreviewed at note r to_cancelled can) = ground arith
RowStep-IsLaterVersion (unreviewed at note r to_applied can) = ground arith
RowStep-IsLaterVersion (unreviewed at note r to_failed can) = ground arith
RowStep-IsLaterVersion (reviewed to at note reviewer r which can) = ground arith
RowStep-IsLaterVersion (keeps_result text r) = ground arith

IsLaterVersion-trans : (x y z : Row) → IsLaterVersion x y → IsLaterVersion y z → IsLaterVersion x z
IsLaterVersion-trans x y z h k = ground arith

-- Each row of the first table, at its place in the second, in a later version; new rows are free.
abbrev pub LaterVersions : List Row → List Row → Type 0
LaterVersions = Evolves IsLaterVersion (λ _. Unit {0})

-- No history of the service's steps, whatever fails or interleaves in it, removes a request, changes what it asks for,
-- moves its status back, reopens a final one, or changes its reviewer and decision time while the
-- status stays.
pub Reach-LaterVersions : (s t : Store) → Reach s t → LaterVersions s.requests.rows t.requests.rows
Reach-LaterVersions s t here = Evolves-refl IsLaterVersion _ IsLaterVersion-refl s.requests.rows
Reach-LaterVersions s t (next {t = u} r st) =
    Evolves-trans IsLaterVersion (λ _. Unit) IsLaterVersion-trans (λ _ _ _ _. tt) _ u.requests.rows
      _ (Reach-LaterVersions s u r)
      (Evolves-map RowStep IsLaterVersion Draft _ (λ _ _ e. RowStep-IsLaterVersion e) (λ _ _. tt) _
        _ (Step-Evolves st))
