-- ===== src/Fleet/Devices.antt =====
-- The inventory of devices and groups: internal/devices/repo.go.
use netmantle.Prelude.{
  ℕ, ◌==◌, ◌&&◌, ◌||◌, not, Bool, true, Option, none, some, List, map, ℤ, pos, negsuc, id_eq,
  positive, leb, String, str_eq, if◌then◌else◌, find_first, filter, sort_by,
}
use netmantle.Prelude.Text.{trim_space, text_leb}
use netmantle.Db.{
  Db, insert, update, exec, exec_insert_unique, exec_checked, query, now, pure, fail, some_or,
  ◌>>=◌, format_time, parse_time, invalid_input, not_found,
}
use netmantle.Fleet.Tables.{Device, Group, RunRow, VersionRow, Store, device_at}

-- d.Port <= 0 || d.Port > 65535
unfoldable pub bad_port : ℤ → Bool
bad_port (pos n) = n == 0 || not (leb n 65535)
bad_port (negsuc _) = true

-- Whether validateDevice returns an error.
unfoldable pub bad_device : Device → Bool
unfolding bad_port
bad_device d =
    not (positive d.tenant_id)
    || str_eq (trim_space d.hostname) ""
    || str_eq (trim_space d.address) ""
    || bad_port d.port
    || str_eq (trim_space d.driver) ""

unfoldable pub host_taken : ℤ → String → Device → Bool
host_taken tenant hostname x = id_eq x.tenant_id tenant && str_eq x.hostname hostname

unfoldable pub with_key : Device → ℕ → ℤ → Device
with_key d at i = record d { id = i; created_at = at }

-- UNIQUE(tenant_id, hostname)
unfoldable pub insert_device : Device → ℕ → Store → Option (ℤ × Store)
unfolding insert host_taken
insert_device d at s = elim (find_first (host_taken d.tenant_id d.hostname) s.devices.rows) [
  | some _ ↦ none
  | none ↦ let (i, t) = insert (with_key d at) s.devices in some (i, record s { devices = t })
]

unfoldable pub create_device : Device → Db Store Device
unfolding bad_device with_key
create_device d =
    if bad_device d
    then fail invalid_input
    else do t ← now; i ← exec_insert_unique (insert_device d (format_time t)); pure (with_key d t i)

unfoldable pub scan_device : Device → Device
unfolding parse_time
scan_device d = record d { created_at = parse_time d.created_at }

unfoldable pub get_device : ℤ → ℤ → Db Store Device
unfolding scan_device
get_device tenant i = do
  found ← query (λ s. find_first (device_at tenant i) s.devices.rows)
  d ← some_or not_found found
  pure (scan_device d)

-- ORDER BY hostname
unfoldable pub list_devices : ℤ → Db Store (List Device)
unfolding scan_device
list_devices tenant = do
  rows ← query (λ s.
      sort_by (λ (a b : Device). text_leb a.hostname b.hostname)
        (filter (λ (d : Device). id_eq d.tenant_id tenant) s.devices.rows))
  pure (map scan_device rows)

unfoldable pub rewrite_device : Device → Device → Device
rewrite_device d x = record x {
  hostname = d.hostname;
  address = d.address;
  port = d.port;
  driver = d.driver;
  group_id = d.group_id;
  credential_id = d.credential_id;
}

-- Another row has the name that the UPDATE would write.
unfoldable pub host_clash : Device → Device → Bool
host_clash d x =
    id_eq x.tenant_id d.tenant_id && str_eq x.hostname d.hostname && not (id_eq x.id d.id)

-- The UPDATE, where a constraint does not refuse it: of a row that is not there, the constraints say
-- nothing.
unfoldable pub update_device_rows : Device → Store → Option (ℕ × Store)
unfolding host_clash rewrite_device update
update_device_rows d s =
    let (n, t) = update (device_at d.tenant_id d.id) (rewrite_device d) s.devices in
    if n == 0 then some (0, s) else elim (find_first (host_clash d) s.devices.rows) [
      | some _ ↦ none
      | none ↦ some (n, record s { devices = t })
    ]

unfoldable pub update_device : Device → Db Store Device
unfolding bad_device
update_device d = if bad_device d then fail invalid_input else do
  n ← exec_checked (update_device_rows d)
  if n == 0 then fail not_found else get_device d.tenant_id d.id

-- ON DELETE CASCADE of the tables backup_runs and config_versions
unfoldable pub delete_device_rows : ℤ → ℤ → Store → ℕ × Store
delete_device_rows tenant i s = elim (find_first (device_at tenant i) s.devices.rows) [
  | none ↦ (0, s)
  | some _ ↦ (
    1,
    record s {
      devices = record s.devices { rows = filter (λ d. not (device_at tenant i d)) s.devices.rows };
      runs = record s.runs {
        rows = filter (λ (r : RunRow). not (id_eq r.device_id i)) s.runs.rows;
      };
      versions = record s.versions {
        rows = filter (λ (v : VersionRow). not (id_eq v.device_id i)) s.versions.rows;
      };
    },
  )
]

unfoldable pub delete_device : ℤ → ℤ → Db Store Unit
unfolding delete_device_rows
delete_device tenant i = do
  n ← exec (delete_device_rows tenant i)
  if n == 0 then fail not_found else pure tt

unfoldable pub group_taken : ℤ → String → Group → Bool
group_taken tenant name g = id_eq g.tenant_id tenant && str_eq g.name name

unfoldable pub group_row : ℤ → String → ℕ → ℤ → Group
group_row tenant name at i = record { id = i; tenant_id = tenant; name = name; created_at = at }

-- UNIQUE(tenant_id, name)
unfoldable pub insert_group : ℤ → String → ℕ → Store → Option (ℤ × Store)
unfolding insert group_taken
insert_group tenant name at s = elim (find_first (group_taken tenant name) s.groups.rows) [
  | some _ ↦ none
  | none ↦
      let (i, t) = insert (group_row tenant name at) s.groups in some (i, record s { groups = t })
]

unfoldable pub create_group : ℤ → String → Db Store Group
unfolding group_row
create_group tenant name = if str_eq (trim_space name) "" then fail invalid_input else do
  t ← now
  i ← exec_insert_unique (insert_group tenant name (format_time t))
  pure (group_row tenant name t i)

unfoldable pub scan_group : Group → Group
unfolding parse_time
scan_group g = record g { created_at = parse_time g.created_at }

-- ORDER BY name
unfoldable pub list_groups : ℤ → Db Store (List Group)
unfolding scan_group
list_groups tenant = do
  rows ← query (λ s.
      sort_by (λ (a b : Group). text_leb a.name b.name)
        (filter (λ (g : Group). id_eq g.tenant_id tenant) s.groups.rows))
  pure (map scan_group rows)
