-- ===== src/Changes/Service.antt =====
-- The methods of Service in internal/changes/changes.go, and the rows of change_events.
use netmantle.Prelude.{
  ℕ, ◌==◌, ◌&&◌, ◌||◌, Bool, true, false, not, Option, none, some, List, map, ℤ, pos, negsuc, id_eq,
  positive, String, str_eq, leb, ltb, if◌then◌else◌, find_first, filter, sort_by, take,
}
use netmantle.Db.{
  Db, Table, Result, ok, err, insert, update, exec, exec_insert, query, now, pure, fail, some_or,
  ◌>>=◌, format_time, parse_time, coalesce, no_rows,
}
use netmantle.Diff.Engine.{IgnoreRule, diff}
use netmantle.Diff.Engine as Engine
use netmantle.Fleet.Tables.{Device, VersionRow}
use netmantle.Fleet.History.{version_of, first_of}

pub record EventRow : Type 0 where
  pub id : ℤ
  pub device_id : ℤ
  pub artifact : String
  pub old_sha : Option String
  pub new_sha : String
  pub added_lines : ℕ
  pub removed_lines : ℕ
  pub reviewed : Bool
  pub created_at : ℕ

pub record Event : Type 0 where
  pub id : ℤ
  pub device_id : ℤ
  pub artifact : String
  pub old_sha : String
  pub new_sha : String
  pub added : ℕ
  pub removed : ℕ
  pub reviewed : Bool
  pub created_at : ℕ

pub record Store : Type 0 where
  pub devices : List Device
  pub versions : List VersionRow
  pub events : Table EventRow

-- The version before the commit `sha`: ORDER BY created_at DESC LIMIT 1.
unfoldable pub previous : ℤ → String → String → List VersionRow → Option String
unfolding version_of first_of
previous device artifact sha vs =
    elim (first_of (
      sort_by (λ (a b : VersionRow). leb b.created_at a.created_at)
        (filter (λ (v : VersionRow). version_of device artifact v && not (str_eq v.commit_sha sha))
          vs))) [ none ↦ none | some v ↦ some v.commit_sha ]

-- What configstore.Read answers for a tenant, a device, an artifact and a commit is a parameter.
abbrev pub Reader : Type 0
Reader = ℤ → ℤ → String → String → Result String

-- A version that cannot be read counts as empty.
unfoldable pub body_or_empty : Result String → String
body_or_empty (ok body) = body
body_or_empty (err _) = ""

unfoldable pub old_body : Reader → ℤ → ℤ → String → Option String → String
unfolding body_or_empty
old_body read tenant device artifact none = ""
old_body read tenant device artifact (some sha) = body_or_empty (read tenant device artifact sha)

unfoldable pub event_row : ℤ → String → Option String → String → Engine.Result → ℕ → ℤ → EventRow
event_row device artifact old sha res at i = record {
  id = i;
  device_id = device;
  artifact = artifact;
  old_sha = old;
  new_sha = sha;
  added_lines = res.added_lines;
  removed_lines = res.removed_lines;
  reviewed = false;
  created_at = at;
}

unfoldable pub insert_event : (ℤ → EventRow) → Store → ℤ × Store
unfolding insert
insert_event row s = let (i, t) = insert row s.events in (i, record s { events = t })

unfoldable pub made : ℤ → String → Option String → String → Engine.Result → ℕ → ℤ → Event
unfolding coalesce
made device artifact old sha res t i = record {
  id = i;
  device_id = device;
  artifact = artifact;
  old_sha = coalesce old;
  new_sha = sha;
  added = res.added_lines;
  removed = res.removed_lines;
  reviewed = false;
  created_at = t;
}

unfoldable pub store_change :
    ℤ → String → Option String → String → Engine.Result → Db Store (Option Event)
unfolding event_row insert_event made
store_change device artifact old sha res = if res.identical then pure none else do
  t ← now
  i ← exec_insert (insert_event (event_row device artifact old sha res (format_time t)))
  pure (some (made device artifact old sha res t i))

unfoldable pub event_at : ℤ → EventRow → Bool
event_at i e = id_eq e.id i

unfoldable pub device_has : ℤ → Device → Bool
device_has i d = id_eq d.id i

-- oldSHA != ""
unfoldable pub sha_or_none : Option String → Option String
sha_or_none none = none
sha_or_none (some sha) = if str_eq sha "" then none else some sha

module _ (read : Reader) (rules : List IgnoreRule) where
  unfoldable pub compare_versions :
      ℤ → ℤ → String → String → Option String → Result String → Db Store (Option Event)
  unfolding store_change old_body
  compare_versions tenant device artifact sha old (err e) = fail e
  compare_versions tenant device artifact sha old (ok body) =
      store_change device artifact old sha
        (diff rules artifact (old_body read tenant device artifact old) body)

  unfoldable pub record_change : ℤ → ℤ → String → String → Db Store (Option Event)
  unfolding compare_versions previous
  record_change tenant device artifact sha = do
    old ← query (λ s. previous device artifact sha s.versions)
    compare_versions tenant device artifact sha old (read tenant device artifact sha)

  unfoldable pub unified_of : ℤ → EventRow → Result String → Db Store String
  unfolding old_body sha_or_none
  unified_of tenant e (err x) = fail x
  unified_of tenant e (ok body) =
      pure
        (diff rules e.artifact (old_body read tenant e.device_id e.artifact (sha_or_none e.old_sha))
          body).unified

  unfoldable pub gate : ℤ → EventRow → Device → Db Store String
  unfolding unified_of
  gate tenant e d =
      if id_eq d.tenant_id tenant
      then unified_of tenant e (read tenant e.device_id e.artifact e.new_sha)
      else fail no_rows

  unfoldable pub change_diff : ℤ → ℤ → Db Store String
  unfolding gate event_at device_has
  change_diff tenant i = do
    found ← query (λ s. find_first (event_at i) s.events.rows)
    e ← some_or no_rows found
    owner ← query (λ s. find_first (device_has e.device_id) s.devices)
    d ← some_or no_rows owner
    gate tenant e d

unfoldable pub owned : ℤ → List Device → EventRow → Bool
owned tenant ds e = elim (find_first (λ (d : Device). id_eq d.id e.device_id) ds) [
  | none ↦ false
  | some d ↦ id_eq d.tenant_id tenant
]

unfoldable pub review : EventRow → EventRow
review e = record e { reviewed = true }

unfoldable pub mark_reviewed : ℤ → ℤ → Db Store Unit
unfolding update owned review
mark_reviewed tenant i = exec (λ s. (
  tt,
  record s {
    events =
        (update (λ (e : EventRow). id_eq e.id i && owned tenant s.devices e) review s.events).1;
  },
))

unfoldable pub scan_event : EventRow → Event
unfolding coalesce parse_time
scan_event e = record {
  id = e.id;
  device_id = e.device_id;
  artifact = e.artifact;
  old_sha = coalesce e.old_sha;
  new_sha = e.new_sha;
  added = e.added_lines;
  removed = e.removed_lines;
  reviewed = e.reviewed;
  created_at = parse_time e.created_at;
}

-- limit <= 0 || limit > 500
unfoldable pub clamp_limit : ℤ → ℕ
clamp_limit (pos n) = if n == 0 || ltb 500 n then 100 else n
clamp_limit (negsuc _) = 100

unfoldable pub of_device : ℤ → EventRow → Bool
of_device device e = if positive device then id_eq e.device_id device else true

-- ORDER BY ce.created_at DESC
unfoldable pub list_by_device : ℤ → ℤ → ℤ → Db Store (List Event)
unfolding owned of_device scan_event clamp_limit
list_by_device tenant device limit = do
  rows ← query (λ s. take (clamp_limit limit) (
      sort_by (λ (a b : EventRow). leb b.created_at a.created_at)
        (filter (λ e. owned tenant s.devices e && of_device device e) s.events.rows)))
  pure (map scan_event rows)

unfoldable pub list : ℤ → ℤ → Db Store (List Event)
list tenant limit = list_by_device tenant (pos 0) limit
