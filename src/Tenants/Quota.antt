-- ===== src/Tenants/Quota.antt =====
-- Tenants are created whole or not at all, and a quota admits as many devices as it says.
use netmantle.Prelude.{
  ℕ, zero, suc, ◌≡◌, ◌≢◌, String, false, none, some, [], ◌∷◌, ◌++◌, ℤ, pos, negsuc, id_eq,
  id_eq_iff, id_eq_refl, if◌then◌else◌, leb, arith,
}
use netmantle.Db.{World, Error, ok, err, insert, format_time, quota_exceeded}
use netmantle.Tenants.Service.{
  Tenant, Store, put_quota, tenant_row, insert_tenant, insert_quota, create_rows, create, quota_of,
  count_devices, reaches, check_count, check_device_quota,
}

-- A `create` that fails, at whichever statement or at the commit, leaves the tables as they were.
pub create_err :
    (name : String) (max : ℤ) (w : World Store) (e : Error)
    → (create name max w).0 ≡ err e
    → (create name max w).1.store ≡ w.store
unfolding create create_rows
create_err name max w e h = ground arith

-- A `create` that returns has put in one row, under the key and the name that it returns, and its
-- quota, and has touched no quota of another tenant.
pub create_ok :
    (name : String) (max : ℤ) (w : World Store) (x : Tenant)
    → (create name max w).0 ≡ ok x
    → ((create name max w).1.store.tenants.rows
        ≡ w.store.tenants.rows ++ tenant_row name (format_time (w.clock w.reads)) x.id ∷ [])
      × ((create name max w).1.store.quotas x.id ≡ some max)
      × ((j : ℤ) → j ≢ x.id → (create name max w).1.store.quotas j ≡ w.store.quotas j)
unfolding create create_rows insert_tenant insert_quota insert put_quota
create_ok name max w x h =
    (ground arith, ground (arith, id_eq_refl x.id), λ j other. ground (arith, id_eq_iff x.id j))

-- Where the driver refuses nothing: one device more is refused exactly if the tenant has a quota that
-- is not 0 and has that many devices already.
pub check_device_quota_lem :
    (tenant : ℤ) (w : World Store)
    → ((n : ℕ) → w.fault n ≡ false)
    → (check_device_quota tenant w).0 ≡ elim (w.store.quotas tenant) [
      | none ↦ ok tt
      | some (pos zero) ↦ ok tt
      | some (pos (suc max)) ↦
          if leb (suc max) (count_devices tenant w.store.devices) then err quota_exceeded else ok tt
      | some (negsuc _) ↦ err quota_exceeded
    ]
unfolding check_device_quota check_count quota_of reaches id_eq
check_device_quota_lem tenant w up = ground (arith, up w.calls, up (suc w.calls))
