-- ===== src/ChangeReq/Machine.antt =====
-- The states of a change request and the table of transitions.
use netmantle.Prelude.{Bool, true, false, ◌≡◌, ◌↔◌, arith, String}

pub data Kind : Type 0 where
  push rollback : Kind
  other : String → Kind

-- `Status` is a text in Go; the CHECK of the table admits these seven.
pub data Status : Type 0 where
  draft submitted approved rejected applied failed cancelled : Status

pub Status-discrete : Discrete Status
Status-discrete = hlevel

-- a == b on the texts
unfoldable pub status_eq : Status → Status → Bool
status_eq draft draft = true
status_eq submitted submitted = true
status_eq approved approved = true
status_eq rejected rejected = true
status_eq applied applied = true
status_eq failed failed = true
status_eq cancelled cancelled = true
status_eq _ _ = false

pub status_eq_iff : (a b : Status) → (status_eq a b ≡ true) ↔ (a ≡ b)
unfolding status_eq
status_eq_iff draft b = ground arith
status_eq_iff _ b = ground arith

unfoldable pub is_terminal : Status → Bool
is_terminal applied = true
is_terminal rejected = true
is_terminal failed = true
is_terminal cancelled = true
is_terminal _ = false

-- `allowedTransitions`: a pair that the map does not hold reads as false.
unfoldable pub allowed_transitions : Status → Status → Bool
allowed_transitions draft submitted = true
allowed_transitions draft cancelled = true
allowed_transitions submitted approved = true
allowed_transitions submitted rejected = true
allowed_transitions submitted cancelled = true
allowed_transitions approved applied = true
allowed_transitions approved failed = true
allowed_transitions approved cancelled = true
allowed_transitions _ _ = false

-- The empty target, which the code refuses first, is no value of `Status`.
unfoldable pub can_transition : Status → Status → Bool
unfolding allowed_transitions
can_transition from to = allowed_transitions from to
