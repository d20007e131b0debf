-- ===== src/Fleet/Runs.antt =====
-- What a backup leaves of its run.
use netmantle.Prelude.{
  ℕ, suc, ◌≡◌, ◌≢◌, ◌↔◌, ◌⊎◌, refl, Bool, false, Option, none, some, ℤ, pos, id_eq_iff, String,
  find_first, arith, subst, ap, sym, ◌∙◌, Option-cases, Bool-cases, inl, inr,
}
use netmantle.Db.{World, Db, Table, ok, err, Error, pure, insert, update, format_time, exec}
use netmantle.Db.Keys.{IsKeyed, find_first-insert}
use netmantle.Db.Keeps.{Keeps, Keeps-bind}
use netmantle.Db.Rules.{Result-cases}
use netmantle.Fleet.Tables.{
  Device, RunRow, running, success, failed, AuditRow, Store, device_at, credential_at,
}
use netmantle.Fleet.Devices.{get_device}
use netmantle.Fleet.Sealer.{Cipher, open_envelope}
use netmantle.Fleet.Credentials.{reveal, reveal_row}
use netmantle.Fleet.Backup.{
  Outcome, run_at, new_run, insert_run, settle, update_run, write_audit, audit_row, finalize,
  store_fetched, start_run, run_backup, fetch_by, prepare, driven, login_of, backup_now,
}
use netmantle.Fleet.Routes.{Plant, Run, session_factory_for_driver}
use netmantle.Fleet.Outcomes.{
  IsFinal, final_status, final_iff, settle_status, settle_finished, settled_row, written, Untouched,
  Leaves, write_audit-Keeps, store_fetched-Keeps, store_fetched-IsFinal,
}

module _ (plant : Plant) where
  -- The run that is returned stands in the table as it is returned, and is finished.
  pub record Settled (run : Run) (problem : Option String) (w : World Store) : Type 0 where
    pub row : RunRow
    pub found : find_first (run_at run.id) w.store.runs.rows ≡ some row
    pub status : row.status ≡ run.status
    pub finished : row.finished_at ≢ none
    pub final : (run.status ≡ success) ⊎ (run.status ≡ failed)
    pub success_iff : (run.status ≡ success) ↔ (problem ≡ none)

  write_audit_ok :
      (audit : Option (AuditRow → Db Store (Unit {0}))) (row : AuditRow) (w : World Store)
      → (write_audit audit row w).0 ≡ ok tt
  unfolding write_audit
  write_audit_ok none row w = refl
  write_audit_ok (some service) row w = refl

  finalize_settles :
      (fault : ℕ → Bool) (tenant : ℤ) (actor : String) (run : Run) (o : Outcome) (row : RunRow)
      (w : World Store)
      → ((n : ℕ) → fault n ≡ false)
      → Leaves plant fault
          (update (run_at run.id) (settle o (format_time (w.clock w.reads))) w.store.runs).1
      → w.fault ≡ fault
      → find_first (run_at run.id) w.store.runs.rows ≡ some row
      → IsFinal o
      → (x : Run) × (p : Option String) × ((finalize plant.audit tenant actor run o w).0
          ≡ ok (x, p))
        × Settled x p (finalize plant.audit tenant actor run o w).1
  unfolding finalize
  finalize_settles fault tenant actor run o row w up leaves same found f =
      let t = w.clock w.reads in
      let at = format_time t in
      let v = (exec (λ s. (tt, update_run run.id o at s)) (record w { reads = suc w.reads })).1 in
      let kept : Untouched fault (update (run_at run.id) (settle o at) w.store.runs).1 v =
        written run o at (record w { reads = suc w.reads }) fault up same in
      let entry = audit_row tenant run.device_id actor o at in
      let after =
        write_audit-Keeps plant fault (update (run_at run.id) (settle o at) w.store.runs).1 leaves
          entry v kept in
      let there =
        ap (λ (t : Table RunRow). find_first (run_at run.id) t.rows) after.1
        ∙ settled_row run o at row w.store.runs found in
      (
        record run { finished_at = some t; status = o.status; error = o.error; commit_sha = o.sha },
        o.problem,
        ground (arith, write_audit_ok plant.audit entry v),
        record {
          row = settle o at row;
          found = ground (arith, write_audit_ok plant.audit entry v, there);
          status = settle_status o at row;
          finished = settle_finished o at row;
          final = final_status o f;
          success_iff = final_iff o f;
        },
      )

  start_run_ok :
      (dev : Device) (w : World Store)
      → w.fault w.calls ≡ false
      → IsKeyed (λ r. r.id) w.store.runs
      → (run : Run) × ((start_run dev w).0 ≡ ok run)
        × (find_first (run_at run.id) (start_run dev w).1.store.runs.rows
            ≡ some (new_run dev.id (format_time (w.clock w.reads)) run.id))
        × ((start_run dev w).1.fault ≡ w.fault)
  unfolding start_run insert_run new_run run_at
  start_run_ok dev w up keyed =
      let row = new_run dev.id (format_time (w.clock w.reads)) in
      let n = pos w.store.runs.next_id in
      let found : find_first (run_at n) (insert row w.store.runs).1.rows ≡ some (row n) =
        find_first-insert (λ (r : RunRow). r.id) (run_at n) row w.store.runs
          (λ x on. (id_eq_iff x.id n).0 on) ((id_eq_iff n n).1 refl) keyed in
      (
        record {
          id = n;
          device_id = dev.id;
          started_at = w.clock w.reads;
          finished_at = none;
          status = running;
          error = "";
          commit_sha = "";
        },
        ground arith,
        ground (arith, found),
        ground arith,
      )

  run_backup_settles :
      (tenant : ℤ) (dev : Device) (actor username secret : String) (w : World Store)
      → ((n : ℕ) → w.fault n ≡ false)
      → ((runs : Table RunRow) → Leaves plant w.fault runs)
      → IsKeyed (λ r. r.id) w.store.runs
      → (x : Run) × (p : Option String) × ((run_backup plant tenant dev actor username secret w).0
          ≡ ok (x, p))
        × Settled x p (run_backup plant tenant dev actor username secret w).1
  unfolding run_backup
  run_backup_settles tenant dev actor username secret w up leaves keyed =
      let (run, started, row, same) = start_run_ok dev w (up w.calls) keyed in
      let v = (start_run dev w).1 in
      let got =
        fetch_by plant (session_factory_for_driver plant.configured dev.driver) dev username
          secret in
      let (o, stored, final) = store_fetched-IsFinal plant tenant dev actor got v in
      let u = (store_fetched plant tenant dev actor got v).1 in
      let kept =
        store_fetched-Keeps plant w.fault v.store.runs (leaves v.store.runs) tenant dev actor got v
          (same, refl) in
      let there = ap (λ (t : Table RunRow). find_first (run_at run.id) t.rows) kept.1 ∙ row in
      let (x, p, made, settled) =
        finalize_settles w.fault tenant actor run o _ u up (leaves _) kept.0 there final in
      let last : (run_backup plant tenant dev actor username secret w).1
          ≡ (finalize plant.audit tenant actor run o u).1 =
        ground (arith, started, stored) in
      (x, p, ground (arith, started, stored, made), subst (λ z. Settled x p z) (sym last) settled)

  start_run_err :
      (dev : Device) (w : World Store) (e : Error)
      → (start_run dev w).0 ≡ err e
      → (start_run dev w).1.store ≡ w.store
  unfolding start_run
  start_run_err dev w e h = ground arith

  finalize_ok :
      (tenant : ℤ) (actor : String) (run : Run) (o : Outcome) (w : World Store)
      → (x : Run × Option String) × ((finalize plant.audit tenant actor run o w).0 ≡ ok x)
  unfolding finalize
  finalize_ok tenant actor run o w =
      let at = format_time (w.clock w.reads) in
      let v = (exec (λ s. (tt, update_run run.id o at s)) (record w { reads = suc w.reads })).1 in
      (
        (
          record run {
            finished_at = some (w.clock w.reads);
            status = o.status;
            error = o.error;
            commit_sha = o.sha;
          },
          o.problem,
        ),
        ground (arith, write_audit_ok plant.audit (audit_row tenant run.device_id actor o at) v),
      )

  run_backup_err :
      (tenant : ℤ) (dev : Device) (actor username secret : String) (w : World Store) (e : Error)
      → (run_backup plant tenant dev actor username secret w).0 ≡ err e
      → (run_backup plant tenant dev actor username secret w).1.store ≡ w.store
  unfolding run_backup
  run_backup_err tenant dev actor username secret w e h = elim (Result-cases (start_run dev w).0) [
    | inr (x, f) ↦ ground (arith, start_run_err dev w x f)
    | inl (run, f) ↦
        let v = (start_run dev w).1 in
        let got =
          fetch_by plant (session_factory_for_driver plant.configured dev.driver) dev username
            secret in
        let (o, stored, final) = store_fetched-IsFinal plant tenant dev actor got v in
        let (x, made) =
          finalize_ok tenant actor run o (store_fetched plant tenant dev actor got v).1 in
        ground (arith, f, stored, made)
  ]

  module _ (cipher : Cipher) (master : String) where
    get_device-Keeps :
        (fault : ℕ → Bool) (store : Store) (tenant i : ℤ)
        → Keeps (λ v. (v.fault ≡ fault) × (v.store ≡ store)) (get_device tenant i)
    unfolding get_device
    get_device-Keeps fault store tenant i w h =
        elim (Option-cases (find_first (device_at tenant i) w.store.devices.rows)) [
          | inl e ↦ (ground (arith, h.0), ground (arith, h.1))
          | inr (d, e) ↦ (ground (arith, h.0), ground (arith, h.1))
        ]

    reveal-Keeps :
        (fault : ℕ → Bool) (store : Store) (tenant i : ℤ)
        → Keeps (λ v. (v.fault ≡ fault) × (v.store ≡ store)) (reveal cipher master tenant i)
    unfolding reveal reveal_row
    reveal-Keeps fault store tenant i w h =
        elim (Option-cases (find_first (credential_at tenant i) w.store.credentials.rows)) [
          | inl e ↦ (ground (arith, h.0), ground (arith, h.1))
          | inr (d, e) ↦ elim (Result-cases (open_envelope cipher master d.secret_envelope)) [
            | inl (x, f) ↦ (ground (arith, h.0), ground (arith, h.1))
            | inr (x, f) ↦ (ground (arith, h.0), ground (arith, h.1))
          ]
        ]

    login_of-Keeps :
        (fault : ℕ → Bool) (store : Store) (tenant : ℤ) (c : Option ℤ)
        → Keeps (λ v. (v.fault ≡ fault) × (v.store ≡ store)) (login_of cipher master tenant c)
    unfolding login_of
    login_of-Keeps fault store tenant none w h = h
    login_of-Keeps fault store tenant (some c) w h = reveal-Keeps fault store tenant c w h

    driven-Keeps :
        (fault : ℕ → Bool) (store : Store) (tenant : ℤ) (dev : Device)
        → Keeps (λ v. (v.fault ≡ fault) × (v.store ≡ store)) (driven plant cipher master tenant dev)
    unfolding driven
    driven-Keeps fault store tenant dev w h = elim (Bool-cases (plant.known dev.driver)) [
      | inr e ↦ rw e h
      | inl e ↦ rw e (
          Keeps-bind (λ v. (v.fault ≡ fault) × (v.store ≡ store))
            (login_of cipher master tenant dev.credential_id) (λ login. pure (dev, login))
            (login_of-Keeps fault store tenant dev.credential_id) (λ _ v k. k) w h)
    ]

    prepare-Keeps :
        (fault : ℕ → Bool) (store : Store) (tenant i : ℤ)
        → Keeps (λ v. (v.fault ≡ fault) × (v.store ≡ store)) (prepare plant cipher master tenant i)
    unfolding prepare
    prepare-Keeps fault store tenant i =
        Keeps-bind _ (get_device tenant i) (driven plant cipher master tenant)
          (get_device-Keeps fault store tenant i) (driven-Keeps fault store tenant)

    -- A backup that returns an error and no run has written nothing.
    pub backup_now_err :
        (tenant i : ℤ) (actor : String) (w : World Store) (e : Error)
        → (backup_now plant cipher master tenant i actor w).0 ≡ err e
        → (backup_now plant cipher master tenant i actor w).1.store ≡ w.store
    unfolding backup_now
    backup_now_err tenant i actor w e h =
        elim (Result-cases (prepare plant cipher master tenant i w).0) [
          | inr (x, f) ↦ ground (arith, prepare-Keeps w.fault w.store tenant i w (refl, refl))
          | inl (ready, f) ↦
              let v = (prepare plant cipher master tenant i w).1 in
              ground (
                arith,
                prepare-Keeps w.fault w.store tenant i w (refl, refl),
                run_backup_err tenant ready.0 actor ready.1.0 ready.1.1 v e,
              )
        ]

    -- Where the driver refuses nothing and the keys of the runs are unique, a backup of a device that
    -- is there, with a known driver and a credential that opens, returns its run, and leaves it
    -- finished in the table: a success exactly where no error is returned beside it, and a failure
    -- otherwise. The hooks and the audit service are taken to leave the table of the runs alone.
    pub backup_now_settles :
        (tenant i : ℤ) (actor : String) (w : World Store) (ready : Device × (String × String))
        → (prepare plant cipher master tenant i w).0 ≡ ok ready
        → ((n : ℕ) → w.fault n ≡ false)
        → ((runs : Table RunRow) → Leaves plant w.fault runs)
        → IsKeyed (λ r. r.id) w.store.runs
        → (x : Run) × (p : Option String) × ((backup_now plant cipher master tenant i actor w).0
            ≡ ok (x, p))
          × Settled x p (backup_now plant cipher master tenant i actor w).1
    unfolding backup_now
    backup_now_settles tenant i actor w ready h up leaves keyed =
        let v = (prepare plant cipher master tenant i w).1 in
        let (fault, store) = prepare-Keeps w.fault w.store tenant i w (refl, refl) in
        let (x, p, made, settled) =
          run_backup_settles tenant ready.0 actor ready.1.0 ready.1.1 v
            (λ n. ap (λ (g : ℕ → Bool). g n) fault ∙ up n)
            (λ runs. subst (λ g. Leaves plant g runs) (sym fault) (leaves runs))
            (subst (λ (s : Store). IsKeyed (λ r. r.id) s.runs) (sym store) keyed) in
        let last : (backup_now plant cipher master tenant i actor w).1
            ≡ (run_backup plant tenant ready.0 actor ready.1.0 ready.1.1 v).1 =
          ground (arith, h) in
        (x, p, ground (arith, h, made), subst (λ z. Settled x p z) (sym last) settled)
