-- ===== src/Tenants/Tests.antt =====
-- A tenant with a quota of two devices.
use netmantle.Prelude.{◌≡◌, refl, none, some, [], ◌∷◌, pos, find_first}
use netmantle.Db.{empty_table, ok, err, db_failed}
use netmantle.Db.Samples.{calm, failing}
use netmantle.Tenants.Service.{Tenant, Store, insert_tenant, insert_quota, create_rows, create}
use netmantle.Tenants.Quota.{create_err}

abbrev no_tenants : Store
no_tenants = record { tenants = empty_table; quotas = λ i. none; devices = [] }

-- The commit is the fourth call.
commit_fails : (create "acme" (pos 2) (failing 3 no_tenants)).0 ≡ err db_failed
unfolding create create_rows insert_tenant find_first insert_quota
commit_fails = refl

create_err_example : (create "acme" (pos 2) (failing 3 no_tenants)).1.store ≡ no_tenants
create_err_example = create_err "acme" (pos 2) (failing 3 no_tenants) db_failed commit_fails

abbrev acme : Tenant
acme = record { id = pos 1; name = "acme"; max_devices = pos 2; created_at = 1000000000000 }

creates_acme : (create "acme" (pos 2) (calm no_tenants)).0 ≡ ok acme
unfolding create create_rows insert_tenant find_first insert_quota
creates_acme = refl

abbrev full : Store
full = record {
  tenants = empty_table;
  quotas = λ i. some (pos 2);
  devices = record { tenant_id = pos 1 } ∷ record { tenant_id = pos 1 } ∷ [];
}
