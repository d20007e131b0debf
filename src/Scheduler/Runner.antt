-- ===== src/Scheduler/Runner.antt =====
-- `Runner`: what one tick does. The loop of `Start` takes ticks from a ticker until its context ends;
-- the jobs of a tick run in goroutines that the tick waits for, and what they do is not modelled.
use netmantle.Prelude.{
  ℕ, ◌+◌, ◌<◌, ◌≡◌, refl, String, Bool, true, false, Option, none, some, List, [], ◌∷◌, ◌⊎◌, inl,
  inr, arith, ap, ◌∙◌, str_eq, str_eq_iff, if◌then◌else◌, ltb, Bool-cases,
}
use netmantle.Db.Keys.{In}
use netmantle.Db.{World, ok}
use netmantle.Scheduler.Lease.{Lease, Store, acquire}

pub record Job : Type 0 where
  pub name : String
  pub interval : ℕ

-- The map `last`, from the names of jobs to the tick at which they ran.
abbrev pub Last : Type 0
Last = String → Option ℕ

unfoldable pub set_last : Last → String → ℕ → Last
set_last last name t key = if str_eq name key then some t else last key

-- `!last[j.Name].IsZero() && now.Sub(last[j.Name]) < j.Interval`
unfoldable pub waits : Last → ℕ → Job → Bool
waits last t j = elim (last j.name) [ none ↦ false | some before ↦ ltb t (before + j.interval) ]

-- The loop over the jobs: those that are started, in order, and the map after it.
unfoldable pub start_due : ℕ → List Job → Last → List Job × Last
start_due t [] last = ([], last)
start_due t (j ∷ js) last =
    let skipped = start_due t js last in
    let (started, last') = start_due t js (set_last last j.name t) in
    if waits last t j then skipped else (j ∷ started, last')

-- One tick at `t`: nothing is started unless the lease was granted.
unfoldable pub tick : Lease → List Job → ℕ → Last → World Store → (List Job × Last) × World Store
tick l jobs t last w =
    (elim (acquire l w).0 [ ok true ↦ start_due t jobs last | _ ↦ ([], last) ], (acquire l w).1)

-- The job ran so lately that it is not due at `t`.
abbrev pub RanLately : Last → ℕ → Job → Type 0
RanLately last t j = (b : ℕ) × (last j.name ≡ some b) × (t < b + j.interval)

RanLately-set_last :
    (last : Last) (t : ℕ) (j x : Job)
    → 0 < j.interval
    → RanLately last t j
    → RanLately (set_last last x.name t) t j
unfolding set_last
RanLately-set_last last t j x pos h = elim (Bool-cases (str_eq x.name j.name)) [
  | inl e ↦ (t, rw e refl, omega arith)
  | inr e ↦ (h.0, rw e h.1, h.2)
]

start_due_cons :
    (t : ℕ) (x : Job) (xs : List Job) (last : Last) (j : Job)
    → (waits last t x ≡ true) ⊎ (waits last t x ≡ false)
    → RanLately last t j
    → (In j (start_due t xs last).0 → ⊥)
    → (In j (start_due t xs (set_last last x.name t)).0 → ⊥)
    → In j (start_due t (x ∷ xs) last).0
    → ⊥
unfolding start_due
start_due_cons t x xs last j (inl e) h skip run m = skip (rw e at m)
start_due_cons t x xs last j (inr e) h skip run m = started (rw e at m)
  where
    started : In j (x ∷ (start_due t xs (set_last last x.name t)).0) → ⊥
    started (inl same) = unfold waits in ground (arith, h.1, ap (λ (y : Job). waits last t y) same)
    started (inr later) = run later

-- In one tick no job with an interval runs that ran less than the interval before, although other jobs
-- of its name may run in that tick.
pub start_due_spaced :
    (t : ℕ) (js : List Job) (last : Last) (j : Job)
    → 0 < j.interval
    → RanLately last t j
    → In j (start_due t js last).0
    → ⊥
unfolding start_due
start_due_spaced t [] last j pos h m = m
start_due_spaced t (x ∷ xs) last j pos h m =
    start_due_cons t x xs last j (Bool-cases (waits last t x)) h
      (start_due_spaced t xs last j pos h)
      (start_due_spaced t xs (set_last last x.name t) j pos (RanLately-set_last last t j x pos h)) m

set_last_own : (last : Last) (name : String) (t : ℕ) → set_last last name t name ≡ some t
unfolding set_last
set_last_own last name t = ground (arith, str_eq_iff name name)

-- What stands on record for this tick stays so.
start_due_keeps :
    (t : ℕ) (js : List Job) (last : Last) (name : String)
    → last name ≡ some t
    → (start_due t js last).1 name ≡ some t
unfolding start_due set_last
start_due_keeps t [] last name h = h
start_due_keeps t (x ∷ xs) last name h = elim (Bool-cases (waits last t x)) [
  | inl e ↦ rw e (start_due_keeps t xs last name h)
  | inr e ↦ rw e (start_due_keeps t xs (set_last last x.name t) name (ground (arith, h)))
]

start_due_last :
    (t : ℕ) (x j : Job) (xs : List Job) (last : Last)
    → (In j (start_due t xs (set_last last x.name t)).0
        → (start_due t xs (set_last last x.name t)).1 j.name ≡ some t)
    → In j (x ∷ (start_due t xs (set_last last x.name t)).0)
    → (start_due t xs (set_last last x.name t)).1 j.name ≡ some t
start_due_last t x j xs last later (inl same) =
    start_due_keeps t xs (set_last last x.name t) j.name
      (ap (λ (y : Job). set_last last x.name t y.name) same ∙ set_last_own last x.name t)
start_due_last t x j xs last later (inr m) = later m

-- A job that a tick has started is on record with the time of the tick.
pub start_due_recorded :
    (t : ℕ) (js : List Job) (last : Last) (j : Job)
    → In j (start_due t js last).0
    → (start_due t js last).1 j.name ≡ some t
unfolding start_due
start_due_recorded t [] last j m = absurd m
start_due_recorded t (x ∷ xs) last j m = elim (Bool-cases (waits last t x)) [
  | inl e ↦ rw e (start_due_recorded t xs last j (rw e at m))
  | inr e ↦ rw e (
      start_due_last t x j xs last (start_due_recorded t xs (set_last last x.name t) j) (rw e at m))
]
