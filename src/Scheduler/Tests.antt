-- ===== src/Scheduler/Tests.antt =====
-- Two replicas and one lease, and the ticks of one of them.
use netmantle.Prelude.{
  ℕ, ◌*◌, ◌≡◌, ◌≢◌, ◌≤◌, [], ◌∷◌, refl, String, none, some, arith, str_eq, str_eq_iff,
  if◌then◌else◌,
}
use netmantle.Db.{World, format_time, second}
use netmantle.Db.Samples.{calm}
use netmantle.Scheduler.Lease.{Lease, Store, attempts, attempts_held}
use netmantle.Scheduler.Runner.{Job, Last}

abbrev replica : String → Lease
replica holder = record { name = "core"; ttl = 30 * second; holder = holder }

abbrev held_until : ℕ → Store
held_until e name =
    if str_eq "core" name then some (record { holder = "a"; expires_at = e }) else none

a≢b : ◌≢◌ {A = String} "a" "b"
a≢b h = ground (arith, str_eq_iff "a" "b")

-- The clock stands.
abbrev still : World Store
still = record (calm (held_until 1000)) { clock = λ n. 1000 * second }

not_yet : format_time (1000 * second) ≤ 1000
unfolding format_time
not_yet = omega arith

attempts_held_example :
    let tried = attempts (replica "b" ∷ replica "b" ∷ []) still in
    (tried.0 ≡ 0) × (tried.1.store "core" ≡ some (record { holder = "a"; expires_at = 1000 }))
attempts_held_example =
    attempts_held (replica "b" ∷ replica "b" ∷ []) "core"
      (record { holder = "a"; expires_at = 1000 }) still refl ((refl, a≢b), ((refl, a≢b), tt))
      (λ n. not_yet)

abbrev nightly : Job
nightly = record { name = "backup"; interval = 100 }

abbrev probe : Job
probe = record { name = "probe"; interval = 10 }

abbrev ran : Last
ran name = if str_eq "backup" name then some 950 else none
