-- ===== src/Scheduler/Lease.antt =====
-- `Lease`. The table scheduler_leases has the name for its primary key: it is a function from names.
use netmantle.Prelude.{
  ℕ, suc, ◌+◌, ◌*◌, ◌≤◌, ◌<◌, ◌≡◌, ◌≢◌, ◌⊎◌, ◌↔◌, Option-cases, refl, String, Bool, true, false,
  not, ◌||◌, Option, none, some, List, [], ◌∷◌, inl, inr, arith, ap, sym, subst, ◌∙◌, str_eq,
  str_eq_iff, if◌then◌else◌, ltb, leb, ◌==◌, ◌/◌, Bool-cases, All,
}
use netmantle.Db.{Db, World, ok, exec, now, pure, ◌>>=◌, format_time, second}

pub record LeaseRow : Type 0 where
  pub holder : String
  pub expires_at : ℕ

abbrev pub Store : Type 0
Store = String → Option LeaseRow

-- `ttl` is in nanoseconds.
pub record Lease : Type 0 where
  pub name : String
  pub ttl : ℕ
  pub holder : String

-- `random` is the identity that `randID` makes.
unfoldable pub new_lease : String → ℕ → String → Lease
new_lease name ttl random = record {
  name = name;
  ttl = if ltb ttl (5 * second) then 30 * second else ttl;
  holder = random;
}

unfoldable pub put : Store → String → LeaseRow → Store
put s name r key = if str_eq name key then some r else s key

-- INSERT INTO scheduler_leases, which the primary key refuses where the name is taken. Whether it failed
-- is all that the code looks at.
unfoldable pub try_insert : Lease → ℕ → Db Store Bool
try_insert l expires w =
    if w.fault w.calls
    then (ok false, record w { calls = suc w.calls })
    else elim (w.store l.name) [
      | some _ ↦ (ok false, record w { calls = suc w.calls })
      | none ↦ (
        ok true,
        record w {
          store = put w.store l.name (record { holder = l.holder; expires_at = expires });
          calls = suc w.calls;
        },
      )
    ]

-- holder=? OR expires_at < ?
unfoldable pub may_take : Lease → ℕ → LeaseRow → Bool
may_take l at r = str_eq r.holder l.holder || ltb r.expires_at at

-- UPDATE scheduler_leases SET holder=?, expires_at=? WHERE name=? AND (holder=? OR expires_at < ?)
unfoldable pub update_lease : Lease → ℕ → ℕ → Store → ℕ × Store
update_lease l expires at s = elim (s l.name) [
  | none ↦ (0, s)
  | some r ↦
      if may_take l at r
      then (1, put s l.name (record { holder = l.holder; expires_at = expires }))
      else (0, s)
]

unfoldable pub acquire : Lease → Db Store Bool
unfolding try_insert
acquire l = do
  t ← now
  inserted ← try_insert l (format_time (t + l.ttl))
  if inserted then pure true else do
    n ← exec (update_lease l (format_time (t + l.ttl)) (format_time t))
    pure (not (n == 0))

-- Nobody else has the lease of the name, as far as `at`, in seconds.
pub record IsFree (l : Lease) (at : ℕ) (s : Store) : Type 0 where
  pub own : (r : LeaseRow) → s l.name ≡ some r → (r.holder ≡ l.holder) ⊎ (r.expires_at < at)

may_take_iff :
    (l : Lease) (at : ℕ) (r : LeaseRow)
    → (may_take l at r ≡ true) ↔ ((r.holder ≡ l.holder) ⊎ (r.expires_at < at))
unfolding may_take
may_take_iff l at r = ground (arith, str_eq_iff r.holder l.holder)

module _ (l : Lease) (w : World Store) (up : (n : ℕ) → w.fault n ≡ false) where
  acquire_free :
      IsFree l (format_time (w.clock w.reads)) w.store
      → ((acquire l w).0 ≡ ok true)
        × ((acquire l w).1.store l.name
            ≡ some
                (record { holder = l.holder; expires_at = format_time (w.clock w.reads + l.ttl) }))
  unfolding acquire update_lease put
  acquire_free free = elim (Option-cases (w.store l.name)) [
    | inl e ↦ (
      ground (arith, up w.calls, up (suc w.calls)),
      ground (arith, up w.calls, up (suc w.calls), str_eq_iff l.name l.name),
    )
    | inr (r, e) ↦
        let may = (may_take_iff l (format_time (w.clock w.reads)) r).1 (free.own r e) in
        (
          ground (arith, up w.calls, up (suc w.calls)),
          ground (arith, up w.calls, up (suc w.calls), str_eq_iff l.name l.name),
        )
  ]

  acquire_granted : (acquire l w).0 ≡ ok true → IsFree l (format_time (w.clock w.reads)) w.store
  unfolding acquire update_lease
  acquire_granted h = record {
    own = λ r e.
        (may_take_iff l (format_time (w.clock w.reads)) r).0
          (ground (arith, up w.calls, up (suc w.calls)));
  }

  -- Where the driver refuses nothing, a replica gets the lease exactly if nobody has it, it has it itself
  -- or the second of its expiry is before the second of the clock, and then it stands in the table as
  -- the holder until its time to live is over.
  pub acquire_iff :
      (((acquire l w).0 ≡ ok true) ↔ IsFree l (format_time (w.clock w.reads)) w.store)
      × ((acquire l w).0 ≡ ok true
          → (acquire l w).1.store l.name
            ≡ some
                (record { holder = l.holder; expires_at = format_time (w.clock w.reads + l.ttl) }))
  acquire_iff =
      ((acquire_granted, λ free. (acquire_free free).0), λ h. (acquire_free (acquire_granted h)).1)

-- A replica that does not hold the lease cannot take it before its expiry is past, whatever the driver
-- refuses; the lease is left as it is.
pub acquire_held :
    (l : Lease) (r : LeaseRow) (w : World Store)
    → w.store l.name ≡ some r
    → r.holder ≢ l.holder
    → format_time (w.clock w.reads) ≤ r.expires_at
    → ((acquire l w).0 ≢ ok true) × ((acquire l w).1.store ≡ w.store)
unfolding acquire update_lease may_take
acquire_held l r w held other early =
    (ground (arith, str_eq_iff r.holder l.holder), ground (arith, str_eq_iff r.holder l.holder))

-- A lease that was taken at `t` passes to another holder only once its whole time is over, to the
-- nanosecond.
pub acquire_takeover :
    (l : Lease) (r : LeaseRow) (t ttl : ℕ) (w : World Store)
    → w.store l.name ≡ some r
    → r.holder ≢ l.holder
    → r.expires_at ≡ format_time (t + ttl)
    → (acquire l w).0 ≡ ok true
    → t + ttl < w.clock w.reads
unfolding format_time
acquire_takeover l r t ttl w held other expiry taken =
    elim (Bool-cases (leb (w.clock w.reads / second) ((t + ttl) / second))) [
      | inl early ↦
          absurd ((acquire_held l r w held other (unfold format_time in ground arith)).0 taken)
      | inr late ↦ ground arith
    ]

clock-acquire : (l : Lease) (w : World Store) → (acquire l w).1.clock ≡ w.clock
unfolding acquire
clock-acquire l w = ground arith

-- The attempts of several replicas, one after the other; how many of them were granted.
unfoldable pub attempts : List Lease → World Store → ℕ × World Store
attempts [] w = (0, w)
attempts (l ∷ ls) w =
    let (granted, w') = attempts ls (acquire l w).1 in
    (elim (acquire l w).0 [ ok true ↦ suc granted | _ ↦ granted ], w')

-- No split brain: while a replica's lease is not past its expiry, no attempt of any others is granted,
-- in any number and order and whatever the driver refuses, and the lease stays the holder's.
pub attempts_held :
    (ls : List Lease) (name : String) (r : LeaseRow) (w : World Store)
    → w.store name ≡ some r
    → All (λ l. (l.name ≡ name) × (r.holder ≢ l.holder)) ls
    → ((n : ℕ) → format_time (w.clock n) ≤ r.expires_at)
    → ((attempts ls w).0 ≡ 0) × ((attempts ls w).1.store name ≡ some r)
unfolding attempts
attempts_held [] name r w held others early = (refl, held)
attempts_held (l ∷ ls) name r w held others early =
    let mine = ap w.store others.0.0 ∙ held in
    let (refused, kept) = acquire_held l r w mine others.0.1 (early w.reads) in
    let rest =
      attempts_held ls name r (acquire l w).1 (ap (λ (s : Store). s name) kept ∙ held) others.1
        (λ n.
          subst (λ (c : ℕ → ℕ). format_time (c n) ≤ r.expires_at) (sym (clock-acquire l w))
            (early n)) in
    (ground (arith, refused, rest.0), rest.1)
