-- ===== src/Tenants/Service.antt =====
-- The methods of `Service`.
use netmantle.Prelude.{
  ℕ, String, Bool, true, Option, none, some, List, map, ℤ, pos, negsuc, id_eq, str_eq,
  if◌then◌else◌, leb, find_first, count_where,
}
use netmantle.Db.{
  Db, Table, insert, exec, exec_insert_unique, transaction, query, now, pure, fail, ◌>>=◌, ◌>>◌,
  format_time, parse_time, invalid_input, quota_exceeded,
}

-- `created_at` is in nanoseconds, in a row in seconds.
pub record Tenant : Type 0 where
  pub id : ℤ
  pub name : String
  pub max_devices : ℤ
  pub created_at : ℕ

pub record TenantRow : Type 0 where
  pub id : ℤ
  pub name : String
  pub created_at : ℕ

-- Of the rows of devices, the column that the quota counts.
pub record DeviceRow : Type 0 where
  pub tenant_id : ℤ

-- The table tenant_quotas has the tenant for its primary key.
pub record Store : Type 0 where
  pub tenants : Table TenantRow
  pub quotas : ℤ → Option ℤ
  pub devices : List DeviceRow

unfoldable pub put_quota : (ℤ → Option ℤ) → ℤ → ℤ → ℤ → Option ℤ
put_quota quotas i max j = if id_eq i j then some max else quotas j

unfoldable pub tenant_row : String → ℕ → ℤ → TenantRow
tenant_row name at i = record { id = i; name = name; created_at = at }

-- name UNIQUE
unfoldable pub insert_tenant : String → ℕ → Store → Option (ℤ × Store)
unfolding insert
insert_tenant name at s = elim (find_first (λ (r : TenantRow). str_eq r.name name) s.tenants.rows) [
  | some _ ↦ none
  | none ↦ let (i, t) = insert (tenant_row name at) s.tenants in some (i, record s { tenants = t })
]

unfoldable pub insert_quota : ℤ → ℤ → Store → Option (ℤ × Store)
insert_quota i max s = elim (s.quotas i) [
  | some _ ↦ none
  | none ↦ some (i, record s { quotas = put_quota s.quotas i max })
]

-- The statements of `Create` between BeginTx and Commit.
unfoldable pub create_rows : String → ℤ → ℕ → Db Store Tenant
create_rows name max t = do
  i ← exec_insert_unique (insert_tenant name (format_time t))
  exec_insert_unique (insert_quota i max)
  pure (record { id = i; name = name; max_devices = max; created_at = t })

unfoldable pub create : String → ℤ → Db Store Tenant
create name max =
    if str_eq name "" then fail invalid_input else do t ← now; transaction (create_rows name max t)

-- IFNULL(max_devices, 0) over the LEFT JOIN
unfoldable pub quota_of : Option ℤ → ℤ
quota_of none = pos 0
quota_of (some max) = max

unfoldable pub scan_tenant : Store → TenantRow → Tenant
unfolding quota_of parse_time
scan_tenant s r = record {
  id = r.id;
  name = r.name;
  max_devices = quota_of (s.quotas r.id);
  created_at = parse_time r.created_at;
}

-- ORDER BY t.id is the order of the rows.
unfoldable pub list : Db Store (List Tenant)
list = query (λ s. map (scan_tenant s) s.tenants.rows)

-- INSERT … ON CONFLICT(tenant_id) DO UPDATE
unfoldable pub set_quota : ℤ → ℤ → Db Store Unit
set_quota tenant max = exec (λ s. (tt, record s { quotas = put_quota s.quotas tenant max }))

unfoldable pub count_devices : ℤ → List DeviceRow → ℕ
count_devices tenant rows = count_where (λ (r : DeviceRow). id_eq r.tenant_id tenant) rows

-- have >= max
unfoldable pub reaches : ℕ → ℤ → Bool
reaches have (pos max) = leb max have
reaches have (negsuc _) = true

unfoldable pub check_count : ℤ → ℤ → Db Store Unit
unfolding count_devices reaches
check_count tenant max = do
  have ← query (λ s. count_devices tenant s.devices)
  if reaches have max then fail quota_exceeded else pure tt

-- No quota row is no error, and leaves `max` at 0.
unfoldable pub check_device_quota : ℤ → Db Store Unit
check_device_quota tenant = do
  found ← query (λ s. s.quotas tenant)
  if id_eq (quota_of found) (pos 0) then pure tt else check_count tenant (quota_of found)
