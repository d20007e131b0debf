-- ===== src/Fleet/Backup.antt =====
-- Backups, probes and pushes of configurations: internal/backup/service.go. The gate on concurrent
-- backups and the deadlines are not modelled.
use Prim.Native.String.{◌++◌ as join_text}
use netmantle.Prelude.{
  ℕ, Bool, Option, none, some, List, [], ◌∷◌, ◌++◌, ℤ, id_eq, String, if◌then◌else◌,
}
use netmantle.Db.{
  Db, insert, update, exec, exec_insert, query, now, pure, fail, ignore, ◌>>=◌, ◌>>◌, format_time,
  nullable_str, unknown_driver, not_configured, no_credential,
}
use netmantle.Fleet.Tables.{
  Device, RunRow, RunStatus, running, success, failed, VersionRow, AuditRow, Store,
}
use netmantle.Fleet.Devices.{get_device}
use netmantle.Fleet.Sealer.{Cipher}
use netmantle.Fleet.Credentials.{reveal, from_result}
use netmantle.Fleet.Routes.{
  Artifact, Route, Fetched, Committed, Plant, Run, session_factory_for_driver, factory_name,
  missing_session_factory, apply_command_for_driver, fetched, no_session, no_fetch, refused,
  committed, unchanged, by, missing,
}

unfoldable pub new_run : ℤ → ℕ → ℤ → RunRow
new_run device at i = record {
  id = i;
  device_id = device;
  started_at = at;
  finished_at = none;
  status = running;
  error = none;
  commit_sha = none;
}

unfoldable pub insert_run : ℤ → ℕ → Store → ℤ × Store
unfolding insert
insert_run device at s =
    let (i, t) = insert (new_run device at) s.runs in (i, record s { runs = t })

unfoldable pub run_at : ℤ → RunRow → Bool
run_at i r = id_eq r.id i

-- What finalize is told, and the error that BackupNow returns beside the run.
pub record Outcome : Type 0 where
  pub status : RunStatus
  pub error : String
  pub sha : String
  pub problem : Option String

unfoldable pub settle : Outcome → ℕ → RunRow → RunRow
unfolding nullable_str
settle o at r = record r {
  finished_at = some at;
  status = o.status;
  error = nullable_str o.error;
  commit_sha = nullable_str o.sha;
}

unfoldable pub update_run : ℤ → Outcome → ℕ → Store → Store
unfolding update run_at settle
update_run i o at s = record s { runs = (update (run_at i) (settle o at) s.runs).1 }

unfoldable pub audit_row : ℤ → ℤ → String → Outcome → ℕ → AuditRow
audit_row tenant device actor o at = record {
  tenant_id = tenant;
  action = "device.backup";
  target = device;
  status = o.status;
  actor = actor;
  sha = o.sha;
  error = o.error;
  created_at = at;
}

unfoldable pub write_audit :
    Option (AuditRow → Db Store (Unit {0})) → AuditRow → Db Store (Unit {0})
write_audit (some service) row = ignore (service row)
write_audit none row = ignore (exec (λ s. (tt, record s { audit_log = s.audit_log ++ row ∷ [] })))

unfoldable pub finalize :
    Option (AuditRow → Db Store (Unit {0}))
    → ℤ
    → String
    → Run
    → Outcome
    → Db Store (Run × Option String)
unfolding update_run write_audit audit_row
finalize audit tenant actor run o = do
  t ← now
  ignore (exec (λ s. (tt, update_run run.id o (format_time t) s)))
  write_audit audit (audit_row tenant run.device_id actor o (format_time t))
  pure (
    record run { finished_at = some t; status = o.status; error = o.error; commit_sha = o.sha },
    o.problem,
  )

unfoldable pub failure : String → String → Outcome
failure error problem = record { status = failed; error = error; sha = ""; problem = some problem }

unfoldable pub version_row : ℤ → String → ℕ → Artifact → ℤ → VersionRow
version_row device sha at a i = record {
  id = i;
  device_id = device;
  artifact = a.name;
  commit_sha = sha;
  size_bytes = a.size;
  created_at = at;
}

unfoldable pub insert_version : ℤ → String → ℕ → Artifact → Store → ℤ × Store
unfolding insert version_row
insert_version device sha at a s =
    let (i, t) = insert (version_row device sha at a) s.versions in (i, record s { versions = t })

unfoldable pub insert_versions : ℤ → String → ℕ → List Artifact → Db Store (Unit {0})
unfolding insert_version
insert_versions device sha at [] = pure tt
insert_versions device sha at (a ∷ more) = do
  ignore (exec_insert (insert_version device sha at a))
  insert_versions device sha at more

unfoldable pub run_hooks :
    List (ℤ → Device → String → List Artifact → Db Store (Unit {0}))
    → ℤ
    → Device
    → String
    → List Artifact
    → Db Store (Unit {0})
run_hooks [] tenant dev sha arts = pure tt
run_hooks (h ∷ hs) tenant dev sha arts = do
  ignore (h tenant dev sha arts)
  run_hooks hs tenant dev sha arts

unfoldable pub start_run : Device → Db Store Run
unfolding insert_run
start_run dev = do
  t ← now
  i ← exec_insert (insert_run dev.id (format_time t))
  pure (record {
    id = i;
    device_id = dev.id;
    started_at = t;
    finished_at = none;
    status = running;
    error = "";
    commit_sha = "";
  })

module _ (cipher : Cipher) (master : String) where
  unfoldable pub login_of : ℤ → Option ℤ → Db Store (String × String)
  login_of tenant none = fail no_credential
  login_of tenant (some c) = reveal cipher master tenant c

module _ (plant : Plant) where
  unfoldable pub keep_commit : ℤ → Device → String → List Artifact → Db Store (Unit {0})
  unfolding insert_versions run_hooks
  keep_commit tenant dev sha arts = do
    t ← now
    insert_versions dev.id sha (format_time t) arts
    run_hooks plant.hooks tenant dev sha arts

  unfoldable pub store_commit : ℤ → Device → List Artifact → Committed → Db Store Outcome
  unfolding keep_commit failure
  store_commit tenant dev arts (refused e) =
      pure (failure (join_text "commit: " e) (join_text "backup: commit: " e))
  store_commit tenant dev arts unchanged =
      pure (record { status = success; error = ""; sha = ""; problem = none })
  store_commit tenant dev arts (committed sha) = do
    keep_commit tenant dev sha arts
    pure (record { status = success; error = ""; sha = sha; problem = none })

  unfoldable pub store_fetched : ℤ → Device → String → Fetched → Db Store Outcome
  unfolding store_commit failure
  store_fetched tenant dev actor (no_session e) =
      pure (failure (join_text "session: " e) (join_text "backup: session: " e))
  store_fetched tenant dev actor (no_fetch e) =
      pure (failure (join_text "fetch: " e) (join_text "backup: fetch: " e))
  store_fetched tenant dev actor (fetched []) =
      pure (failure "fetch returned no artefacts" "backup: no artefacts")
  store_fetched tenant dev actor (fetched (a ∷ arts)) =
      store_commit tenant dev (a ∷ arts) (plant.commit tenant dev.id dev.hostname actor (a ∷ arts))

  unfoldable pub fetch_by : Route → Device → String → String → Fetched
  fetch_by (by f) dev username secret = plant.fetch f dev username secret
  fetch_by (missing f) dev username secret =
      no_session (missing_session_factory plant.quote (factory_name f) dev.driver)

  unfoldable pub run_backup : ℤ → Device → String → String → String → Db Store (Run × Option String)
  unfolding start_run fetch_by
  run_backup tenant dev actor username secret = do
    run ← start_run dev
    o ←
        store_fetched tenant dev actor
          (fetch_by (session_factory_for_driver plant.configured dev.driver) dev username secret)
    finalize plant.audit tenant actor run o

  module _ (cipher : Cipher) (master : String) where
    unfoldable pub driven : ℤ → Device → Db Store (Device × (String × String))
    unfolding login_of
    driven tenant dev =
        if plant.known dev.driver
        then (do login ← login_of cipher master tenant dev.credential_id; pure (dev, login))
        else fail unknown_driver

    unfoldable pub prepare : ℤ → ℤ → Db Store (Device × (String × String))
    unfolding driven
    prepare tenant i = do dev ← get_device tenant i; driven tenant dev

    -- The run and the error that BackupNow returns; where it returns no run, the error alone.
    unfoldable pub backup_now : ℤ → ℤ → String → Db Store (Run × Option String)
    unfolding prepare run_backup
    backup_now tenant i actor = do
      ready ← prepare tenant i
      run_backup tenant ready.0 actor ready.1.0 ready.1.1

    unfoldable pub backup_each : List Device → Db Store (Unit {0})
    backup_each [] = pure tt
    backup_each (d ∷ ds) = do ignore (backup_now d.tenant_id d.id "scheduler"); backup_each ds

    unfoldable pub backup_all : Db Store (Unit {0})
    unfolding backup_each
    backup_all = do ds ← query (λ s. s.devices.rows); backup_each ds

    -- The answer of a command on the device.
    unfoldable pub run_by : Route → Device → String → String → String → Db Store String
    run_by (by f) dev username secret command =
        from_result (plant.run f dev username secret command)
    run_by (missing f) dev username secret command = fail not_configured

    unfoldable pub run_probe : Device → String → Db Store String
    unfolding login_of run_by
    run_probe dev command = do
      login ← login_of cipher master dev.tenant_id dev.credential_id
      run_by (session_factory_for_driver plant.configured dev.driver) dev login.0 login.1 command

    unfoldable pub apply_rendered_config : Device → String → Db Store String
    unfolding login_of run_by
    apply_rendered_config dev rendered = do
      login ← login_of cipher master dev.tenant_id dev.credential_id
      run_by (session_factory_for_driver plant.configured dev.driver) dev login.0 login.1
          (apply_command_for_driver plant.encode dev.driver rendered)
