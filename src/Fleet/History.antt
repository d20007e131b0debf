-- ===== src/Fleet/History.antt =====
-- The runs and versions that are there to read: internal/backup/service.go.
use netmantle.Prelude.{
  ℕ, ◌==◌, ◌&&◌, ◌||◌, Bool, Option, none, some, List, [], ◌∷◌, map, ℤ, pos, negsuc, id_eq, String,
  str_eq, leb, ltb, if◌then◌else◌, filter, count_where, sort_by, take,
}
use netmantle.Db.{
  Db, query, pure, fail, some_or, ◌>>=◌, parse_time, scan_time, coalesce, no_versions,
  version_not_found, invalid_input,
}
use netmantle.Fleet.Tables.{RunRow, VersionRow, Store}
use netmantle.Fleet.Credentials.{from_result}
use netmantle.Fleet.Routes.{Plant, Run}

unfoldable pub version_of : ℤ → String → VersionRow → Bool
version_of device artifact v = id_eq v.device_id device && str_eq v.artifact artifact

unfoldable pub first_of : List VersionRow → Option VersionRow
first_of [] = none
first_of (v ∷ vs) = some v

-- ORDER BY created_at DESC LIMIT 1
unfoldable pub latest : ℤ → String → List VersionRow → Option VersionRow
unfolding version_of first_of
latest device artifact vs = first_of (
    sort_by (λ (a b : VersionRow). leb b.created_at a.created_at)
      (filter (version_of device artifact) vs))

unfoldable pub version_at : ℤ → String → String → VersionRow → Bool
unfolding version_of
version_at device artifact sha v = version_of device artifact v && str_eq v.commit_sha sha

module _ (plant : Plant) where
  unfoldable pub latest_version : ℤ → ℤ → String → Db Store (String × String)
  unfolding latest
  latest_version tenant device artifact = do
    found ← query (λ s.
        latest device (if str_eq artifact "" then "running-config" else artifact) s.versions.rows)
    v ← some_or no_versions found
    body ← from_result (
        plant.read tenant device (if str_eq artifact "" then "running-config" else artifact)
          v.commit_sha)
    pure (body, v.commit_sha)

  unfoldable pub read_version : ℤ → ℤ → String → String → Db Store String
  unfolding version_at
  read_version tenant device artifact sha =
      if str_eq artifact "" || str_eq sha "" then fail invalid_input else do
        n ← query (λ s. count_where (version_at device artifact sha) s.versions.rows)
        if n == 0
            then fail version_not_found
            else from_result (plant.read tenant device artifact sha)

unfoldable pub scan_run : RunRow → Run
unfolding parse_time scan_time coalesce
scan_run r = record {
  id = r.id;
  device_id = r.device_id;
  started_at = parse_time r.started_at;
  finished_at = scan_time r.finished_at;
  status = r.status;
  error = coalesce r.error;
  commit_sha = coalesce r.commit_sha;
}

-- limit <= 0 || limit > 200
unfoldable pub clamp_limit : ℤ → ℕ
clamp_limit (pos n) = if n == 0 || ltb 200 n then 50 else n
clamp_limit (negsuc _) = 50

-- ORDER BY started_at DESC
unfoldable pub list_runs : ℤ → ℤ → Db Store (List Run)
unfolding scan_run clamp_limit
list_runs device limit = do
  rows ← query (λ s. take (clamp_limit limit) (
      sort_by (λ (a b : RunRow). leb b.started_at a.started_at)
        (filter (λ (r : RunRow). id_eq r.device_id device) s.runs.rows)))
  pure (map scan_run rows)
