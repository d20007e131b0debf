-- ===== src/Poller/Pick.antt =====
-- Which job a claim hands out, and to whom.
use netmantle.Prelude.{
  ℕ, ◌+◌, ◌-◌, ◌*◌, ◌≤◌, ◌≡◌, ◌⊎◌, ◌↔◌, refl, true, false, Option, none, some, List, [], ◌∷◌, ℤ,
  inl, inr, arith, subst, ◌∙◌, Option-cases, Bool-cases, filter, id_eq_iff, if◌then◌else◌, ltb,
}
use netmantle.Db.{World, ok, format_time, parse_time, scan_time, second}
use netmantle.Db.Keys.{In, All-In, In-filter, In-kept, IsKeyed}
use netmantle.Poller.Rows.{
  queued, claimed, JobType, backup, probe, custom, type_eq, status_eq_iff, Job, JobRow, PollerRow,
  Store, scan_job,
}
use netmantle.Poller.Jobs.{
  claim, claimable, claim_types, in_types, oldest, claim_row, claim_expiry, known_poller,
}
use netmantle.Poller.Claims.{compute_new_expires_at_lem, oldest_sound, claim_answer}

-- The jobs that a claim may hand out: those of the tenant that are queued and of a type asked for; who
-- names no type asks for all.
pub record IsWaiting (tenant : ℤ) (types : List JobType) (r : JobRow) : Type 0 where
  pub owned : r.tenant_id ≡ tenant
  pub waits : r.status ≡ queued
  pub asked : (types ≡ []) ⊎ In r.job_type types

-- The poller is registered with the tenant.
abbrev pub IsKnown : ℤ → ℤ → List PollerRow → Type 0
IsKnown tenant poller [] = ⊥
IsKnown tenant poller (p ∷ ps) =
    ((p.id ≡ poller) × (p.tenant_id ≡ tenant)) ⊎ IsKnown tenant poller ps

type_eq_iff : (a b : JobType) → (type_eq a b ≡ true) ↔ (a ≡ b)
unfolding type_eq
type_eq_iff backup b = ground arith
type_eq_iff _ b = ground arith

in_types_iff : (ts : List JobType) (t : JobType) → (in_types ts t ≡ true) ↔ In t ts
unfolding in_types
in_types_iff [] t = (λ h. absurd (ground arith), λ h. absurd h)
in_types_iff (u ∷ us) t = ground (arith, type_eq_iff t u, in_types_iff us t)

every_type : (t : JobType) → In t (backup ∷ probe ∷ custom ∷ [])
every_type backup = inl refl
every_type probe = inr (inl refl)
every_type custom = inr (inr (inl refl))

claim_types_iff :
    (ts : List JobType) (t : JobType) → (in_types (claim_types ts) t ≡ true) ↔ ((ts ≡ []) ⊎ In t ts)
unfolding claim_types
claim_types_iff [] t =
    (λ h. inl refl, λ h. (in_types_iff (backup ∷ probe ∷ custom ∷ []) t).1 (every_type t))
claim_types_iff (u ∷ us) t = (
  λ h. inr ((in_types_iff (u ∷ us) t).0 h),
  λ h. elim h [ inl e ↦ absurd (ground arith) | inr there ↦ (in_types_iff (u ∷ us) t).1 there ],
)

claimable_iff :
    (tenant : ℤ) (types : List JobType) (r : JobRow)
    → (claimable tenant types r ≡ true) ↔ IsWaiting tenant types r
claimable_iff tenant types r = (
  λ h. record {
    owned = ground (arith, id_eq_iff r.tenant_id tenant);
    waits = ground (arith, status_eq_iff r.status queued);
    asked = (claim_types_iff types r.job_type).0 (ground arith);
  },
  λ k.
      let typed = (claim_types_iff types r.job_type).1 k.asked in
      ground (arith, id_eq_iff r.tenant_id tenant, status_eq_iff r.status queued, k.owned, k.waits),
)

known_poller_iff :
    (tenant poller : ℤ) (ps : List PollerRow)
    → (known_poller tenant poller ps ≡ true) ↔ IsKnown tenant poller ps
unfolding known_poller
known_poller_iff tenant poller [] = (λ h. absurd (ground arith), λ k. absurd k)
known_poller_iff tenant poller (p ∷ ps) =
    ground (
      arith,
      known_poller_iff tenant poller ps,
      id_eq_iff p.id poller,
      id_eq_iff p.tenant_id tenant,
    )

oldest_exists : (r : JobRow) (xs : List JobRow) → In r xs → (m : JobRow) × (oldest xs ≡ some m)
unfolding oldest
oldest_exists r [] h = absurd h
oldest_exists r (x ∷ xs) h = (_, refl)

-- The expiry that a claimed job gets: as far from the second of the claim as the old one was from the
-- creation; none if there was none, or it did not lie behind the creation.
abbrev new_expiry : JobRow → ℕ → Option ℕ
new_expiry r t = elim r.expires_at [
  | none ↦ none
  | some e ↦
      if ltb r.created_at e then some ((format_time t + (e - r.created_at)) * second) else none
]

-- What a claim by a poller at `t` may hand out.
pub record IsHanded (tenant poller : ℤ) (types : List JobType) (t : ℕ) (s : Store) (job : Job)
    : Type 0 where
  pub row : JobRow
  pub there : In row s.jobs.rows
  pub waiting : IsWaiting tenant types row
  pub first :
      (x : JobRow) → In x s.jobs.rows → IsWaiting tenant types x → row.created_at ≤ x.created_at
  pub known : IsKnown tenant poller s.pollers.rows
  pub same :
      (job.id ≡ row.id)
      × (job.tenant_id ≡ tenant)
      × (job.device_id ≡ row.device_id)
      × (job.job_type ≡ row.job_type)
      × (job.payload ≡ row.payload)
  pub marked :
      (job.status ≡ claimed)
      × (job.poller_id ≡ some poller)
      × (job.claimed_at ≡ some (format_time t * second))
  pub expiry : job.expires_at ≡ new_expiry row t

claim_expiry_lem : (r : JobRow) (t : ℕ) → scan_time (claim_expiry r t) ≡ new_expiry r t
unfolding claim_expiry scan_time parse_time
claim_expiry_lem r t = elim (Option-cases r.expires_at) [
  | inl e ↦ rw e refl
  | inr (x, e) ↦ rw e (ground (arith, compute_new_expires_at_lem r.created_at x t))
]

module _ (tenant poller : ℤ) (types : List JobType) (w : World Store)
    (up : (n : ℕ) → w.fault n ≡ false) (keyed : IsKeyed (λ r. r.id) w.store.jobs) where
  abbrev t : ℕ
  t = w.clock w.reads

  abbrev answer : JobRow → Job
  answer r = scan_job (claim_row poller (format_time t) (claim_expiry r t) r)

  candidate-IsHanded :
      (r : JobRow)
      → oldest (filter (claimable tenant types) w.store.jobs.rows) ≡ some r
      → IsKnown tenant poller w.store.pollers.rows
      → IsHanded tenant poller types t w.store (answer r)
  unfolding scan_job claim_row scan_time parse_time
  candidate-IsHanded r e known =
      let (there, on) =
        In-filter (claimable tenant types) r w.store.jobs.rows (oldest_sound _ r e).0 in
      let waiting = (claimable_iff tenant types r).0 on in
      record {
        row = r;
        there = there;
        waiting = waiting;
        first = λ x stands waits.
            All-In (λ (y : JobRow). r.created_at ≤ y.created_at) x _ (oldest_sound _ r e).1
              (In-kept (claimable tenant types) x w.store.jobs.rows stands
                ((claimable_iff tenant types x).1 waits));
        known = known;
        same = (refl, waiting.owned, refl, refl, refl);
        marked = (refl, refl, refl);
        expiry = claim_expiry_lem r t;
      }

  -- Where the driver refuses nothing and the keys of the jobs are in order, a claim that answers a job
  -- hands out one that stands in the table, queued, of the tenant and of a type asked for, with none
  -- such that was created before it, to a poller of the tenant, and marks it with the poller, the
  -- second and the new expiry, as far from the claim as the old one was from the creation; and
  -- wherever such a job and the poller are there, the claim answers a job.
  pub claim_iff :
      ((job : Job)
        → (claim tenant poller types w).0 ≡ ok job
        → IsHanded tenant poller types (w.clock w.reads) w.store job)
      × ((r : JobRow)
          → In r w.store.jobs.rows
          → IsWaiting tenant types r
          → IsKnown tenant poller w.store.pollers.rows
          → (job : Job) × ((claim tenant poller types w).0 ≡ ok job))
  claim_iff = (handed, answered)
    where
      handed :
          (job : Job)
          → (claim tenant poller types w).0 ≡ ok job
          → IsHanded tenant poller types (w.clock w.reads) w.store job
      handed job h =
          let said = claim_answer tenant poller types w up keyed in
          elim (Option-cases (oldest (filter (claimable tenant types) w.store.jobs.rows))) [
            | inl e ↦ absurd (ground (arith, said, e, h))
            | inr (r, e) ↦ elim (Bool-cases (known_poller tenant poller w.store.pollers.rows)) [
              | inl k ↦
                  let same : answer r ≡ job = ground (arith, said, e, k, h) in
                  subst (IsHanded tenant poller types (w.clock w.reads) w.store) same (
                    candidate-IsHanded r e
                      ((known_poller_iff tenant poller w.store.pollers.rows).0 k))
              | inr k ↦ absurd (ground (arith, said, e, k, h))
            ]
          ]

      answered :
          (r : JobRow)
          → In r w.store.jobs.rows
          → IsWaiting tenant types r
          → IsKnown tenant poller w.store.pollers.rows
          → (job : Job) × ((claim tenant poller types w).0 ≡ ok job)
      answered r there waits known =
          let (m, e) = oldest_exists r _ (
            In-kept (claimable tenant types) r w.store.jobs.rows there
              ((claimable_iff tenant types r).1 waits)) in
          let k = (known_poller_iff tenant poller w.store.pollers.rows).1 known in
          (answer m, claim_answer tenant poller types w up keyed ∙ rw e (rw k refl))
