-- ===== src/Fleet/Outcomes.antt =====
-- How a backup ends, and what its statements leave of the table of runs.
use Prim.Native.String.{◌++◌ as join_text}
use netmantle.Prelude.{
  ℕ, suc, ◌≡◌, ◌≢◌, ◌↔◌, ◌⊎◌, refl, Bool, false, Option, none, some, List, [], ◌∷◌, ℤ, String, All,
  find_first, find_first_sound, find_first-update_where, arith, ap, ◌∙◌, inl, inr,
}
use netmantle.Db.{World, Db, Table, ok, pure, update, format_time, exec, exec_insert}
use netmantle.Db.Keeps.{Keeps, Keeps-bind}
use netmantle.Fleet.Tables.{Device, RunRow, success, failed, AuditRow, Store}
use netmantle.Fleet.Backup.{
  Outcome, run_at, settle, update_run, write_audit, failure, insert_version, insert_versions,
  run_hooks, keep_commit, store_commit, store_fetched,
}
use netmantle.Fleet.Routes.{
  Artifact, Committed, refused, committed, unchanged, Fetched, no_session, no_fetch, fetched, Plant,
  Run,
}

-- The schedule of the driver and the runs are as they were.
abbrev pub Untouched : (ℕ → Bool) → Table RunRow → World Store → Type 0
Untouched fault runs w = (w.fault ≡ fault) × (w.store.runs ≡ runs)

-- A final outcome: not running, and an error beside it exactly where it is a failure.
pub data IsFinal : Outcome → Type 0 where
  done :
      (sha : String) → IsFinal (record { status = success; error = ""; sha = sha; problem = none })
  broken : (e p : String) → IsFinal (failure e p)

module _ (fault : ℕ → Bool) (runs : Table RunRow) where
  insert_version-Keeps :
      (device : ℤ) (sha : String) (at : ℕ) (a : Artifact)
      → Keeps (Untouched fault runs) (exec_insert (insert_version device sha at a))
  unfolding insert_version
  insert_version-Keeps device sha at a w h = (ground (arith, h.0), ground (arith, h.1))

  insert_versions-Keeps :
      (device : ℤ) (sha : String) (at : ℕ) (arts : List Artifact)
      → Keeps (Untouched fault runs) (insert_versions device sha at arts)
  unfolding insert_versions
  insert_versions-Keeps device sha at [] w h = h
  insert_versions-Keeps device sha at (a ∷ more) w h =
      insert_versions-Keeps device sha at more (exec_insert (insert_version device sha at a) w).1
        (insert_version-Keeps device sha at a w h)

  run_hooks-Keeps :
      (hooks : List (ℤ → Device → String → List Artifact → Db Store (Unit {0}))) (tenant : ℤ)
      (dev : Device) (sha : String) (arts : List Artifact)
      → All (λ h. Keeps (Untouched fault runs) (h tenant dev sha arts)) hooks
      → Keeps (Untouched fault runs) (run_hooks hooks tenant dev sha arts)
  unfolding run_hooks
  run_hooks-Keeps [] tenant dev sha arts k w h = h
  run_hooks-Keeps (x ∷ xs) tenant dev sha arts k w h =
      run_hooks-Keeps xs tenant dev sha arts k.1 (x tenant dev sha arts w).1 (k.0 w h)

pub final_status : (o : Outcome) → IsFinal o → (o.status ≡ success) ⊎ (o.status ≡ failed)
unfolding failure
final_status o (done sha) = inl refl
final_status o (broken e p) = inr refl

pub final_iff : (o : Outcome) → IsFinal o → (o.status ≡ success) ↔ (o.problem ≡ none)
unfolding failure
final_iff o (done sha) = ((λ _. refl), (λ _. refl))
final_iff o (broken e p) = ((λ h. ground arith), (λ h. ground arith))

pub settle_status : (o : Outcome) (at : ℕ) (row : RunRow) → (settle o at row).status ≡ o.status
unfolding settle
settle_status o at row = refl

pub settle_finished : (o : Outcome) (at : ℕ) (row : RunRow) → (settle o at row).finished_at ≢ none
unfolding settle
settle_finished o at row h = ground arith

pub settled_row :
    (run : Run) (o : Outcome) (at : ℕ) (row : RunRow) (runs : Table RunRow)
    → find_first (run_at run.id) runs.rows ≡ some row
    → find_first (run_at run.id) (update (run_at run.id) (settle o at) runs).1.rows
      ≡ some (settle o at row)
unfolding update run_at settle
settled_row run o at row runs found =
    find_first-update_where (run_at run.id) (settle o at) runs.rows row found
      (find_first_sound (run_at run.id) runs.rows row found)

pub written :
    (run : Run) (o : Outcome) (at : ℕ) (w : World Store) (fault : ℕ → Bool)
    → ((n : ℕ) → fault n ≡ false)
    → w.fault ≡ fault
    → Untouched fault
        (update (run_at run.id) (settle o at) w.store.runs).1
        (exec (λ s. (tt, update_run run.id o at s)) w).1
unfolding update_run
written run o at w fault up same =
    let free : w.fault w.calls ≡ false = ap (λ (g : ℕ → Bool). g w.calls) same ∙ up w.calls in
    (ground (arith, same), ground arith)

module _ (plant : Plant) where
  -- The hooks and the audit service write other tables than that of the runs.
  pub record Leaves (fault : ℕ → Bool) (runs : Table RunRow) : Type 0 where
    pub hooks :
        (tenant : ℤ) (dev : Device) (sha : String) (arts : List Artifact)
        → All (λ h. Keeps (Untouched fault runs) (h tenant dev sha arts)) plant.hooks
    pub audit :
        (service : AuditRow → Db Store (Unit {0}))
        → plant.audit ≡ some service
        → (row : AuditRow) → Keeps (Untouched fault runs) (service row)

  module _ (fault : ℕ → Bool) (runs : Table RunRow) (leaves : Leaves fault runs) where
    keep_commit-Keeps :
        (tenant : ℤ) (dev : Device) (sha : String) (arts : List Artifact)
        → Keeps (Untouched fault runs) (keep_commit plant tenant dev sha arts)
    unfolding keep_commit
    keep_commit-Keeps tenant dev sha arts w h =
        Keeps-bind (Untouched fault runs)
          (insert_versions dev.id sha (format_time (w.clock w.reads)) arts)
          (λ _. run_hooks plant.hooks tenant dev sha arts)
          (insert_versions-Keeps fault runs dev.id sha (format_time (w.clock w.reads)) arts)
          (λ _.
            run_hooks-Keeps fault runs plant.hooks tenant dev sha arts
              (leaves.hooks tenant dev sha arts))
          (record w { reads = suc w.reads }) h

    store_commit-Keeps :
        (tenant : ℤ) (dev : Device) (arts : List Artifact) (c : Committed)
        → Keeps (Untouched fault runs) (store_commit plant tenant dev arts c)
    unfolding store_commit
    store_commit-Keeps tenant dev arts (refused e) w h = h
    store_commit-Keeps tenant dev arts unchanged w h = h
    store_commit-Keeps tenant dev arts (committed sha) w h =
        Keeps-bind (Untouched fault runs) (keep_commit plant tenant dev sha arts)
          (λ _. pure (record { status = success; error = ""; sha = sha; problem = none }))
          (keep_commit-Keeps tenant dev sha arts) (λ _ v k. k) w h

    pub store_fetched-Keeps :
        (tenant : ℤ) (dev : Device) (actor : String) (f : Fetched)
        → Keeps (Untouched fault runs) (store_fetched plant tenant dev actor f)
    unfolding store_fetched
    store_fetched-Keeps tenant dev actor (no_session e) w h = h
    store_fetched-Keeps tenant dev actor (no_fetch e) w h = h
    store_fetched-Keeps tenant dev actor (fetched []) w h = h
    store_fetched-Keeps tenant dev actor (fetched (a ∷ arts)) w h =
        store_commit-Keeps tenant dev (a ∷ arts)
          (plant.commit tenant dev.id dev.hostname actor (a ∷ arts)) w h

    pub write_audit-Keeps :
        (row : AuditRow) → Keeps (Untouched fault runs) (write_audit plant.audit row)
    unfolding write_audit
    write_audit-Keeps row w h = go plant.audit refl
      where
        go :
            (o : Option (AuditRow → Db Store (Unit {0})))
            → plant.audit ≡ o
            → Untouched fault runs (write_audit o row w).1
        go none e = (ground (arith, h.0), ground (arith, h.1))
        go (some service) e = leaves.audit service e row w h

  insert_versions_ok :
      (device : ℤ) (sha : String) (at : ℕ) (arts : List Artifact) (w : World Store)
      → (insert_versions device sha at arts w).0 ≡ ok tt
  unfolding insert_versions
  insert_versions_ok device sha at [] w = refl
  insert_versions_ok device sha at (a ∷ more) w =
      insert_versions_ok device sha at more (exec_insert (insert_version device sha at a) w).1

  run_hooks_ok :
      (hooks : List (ℤ → Device → String → List Artifact → Db Store (Unit {0}))) (tenant : ℤ)
      (dev : Device) (sha : String) (arts : List Artifact) (w : World Store)
      → (run_hooks hooks tenant dev sha arts w).0 ≡ ok tt
  unfolding run_hooks
  run_hooks_ok [] tenant dev sha arts w = refl
  run_hooks_ok (x ∷ xs) tenant dev sha arts w =
      run_hooks_ok xs tenant dev sha arts (x tenant dev sha arts w).1

  keep_commit_ok :
      (tenant : ℤ) (dev : Device) (sha : String) (arts : List Artifact) (w : World Store)
      → (keep_commit plant tenant dev sha arts w).0 ≡ ok tt
  unfolding keep_commit
  keep_commit_ok tenant dev sha arts w =
      let v : World Store = record w { reads = suc w.reads } in
      let m = insert_versions dev.id sha (format_time (w.clock w.reads)) arts v in
      ground (
        arith,
        insert_versions_ok dev.id sha (format_time (w.clock w.reads)) arts v,
        run_hooks_ok plant.hooks tenant dev sha arts m.1,
      )

  store_commit-IsFinal :
      (tenant : ℤ) (dev : Device) (arts : List Artifact) (c : Committed) (w : World Store)
      → (o : Outcome) × ((store_commit plant tenant dev arts c w).0 ≡ ok o) × IsFinal o
  unfolding store_commit
  store_commit-IsFinal tenant dev arts (refused e) w =
      (failure (join_text "commit: " e) (join_text "backup: commit: " e), refl, broken _ _)
  store_commit-IsFinal tenant dev arts unchanged w =
      (record { status = success; error = ""; sha = ""; problem = none }, refl, done "")
  store_commit-IsFinal tenant dev arts (committed sha) w = (
    record { status = success; error = ""; sha = sha; problem = none },
    ground (arith, keep_commit_ok tenant dev sha arts w),
    done sha,
  )

  pub store_fetched-IsFinal :
      (tenant : ℤ) (dev : Device) (actor : String) (f : Fetched) (w : World Store)
      → (o : Outcome) × ((store_fetched plant tenant dev actor f w).0 ≡ ok o) × IsFinal o
  unfolding store_fetched
  store_fetched-IsFinal tenant dev actor (no_session e) w =
      (failure (join_text "session: " e) (join_text "backup: session: " e), refl, broken _ _)
  store_fetched-IsFinal tenant dev actor (no_fetch e) w =
      (failure (join_text "fetch: " e) (join_text "backup: fetch: " e), refl, broken _ _)
  store_fetched-IsFinal tenant dev actor (fetched []) w =
      (failure "fetch returned no artefacts" "backup: no artefacts", refl, broken _ _)
  store_fetched-IsFinal tenant dev actor (fetched (a ∷ arts)) w =
      store_commit-IsFinal tenant dev (a ∷ arts)
        (plant.commit tenant dev.id dev.hostname actor (a ∷ arts)) w
