-- ===== src/Fleet/Tables.antt =====
-- The tables that the packages devices, credentials and backup share, with their constraints.
use netmantle.Prelude.{ℕ, ◌&&◌, Bool, Option, List, ℤ, id_eq, String}
use netmantle.Db.{Table}

pub record Device : Type 0 where
  pub id : ℤ
  pub tenant_id : ℤ
  pub hostname : String
  pub address : String
  pub port : ℤ
  pub driver : String
  pub group_id : Option ℤ
  pub credential_id : Option ℤ
  pub created_at : ℕ

pub record Group : Type 0 where
  pub id : ℤ
  pub tenant_id : ℤ
  pub name : String
  pub created_at : ℕ

-- A row of devices has the columns of a device, one of device_groups those of a group, with the time
-- in seconds.
pub record CredentialRow : Type 0 where
  pub id : ℤ
  pub tenant_id : ℤ
  pub name : String
  pub username : String
  pub secret_envelope : String
  pub created_at : ℕ
  pub last_used_at : Option ℕ

pub data RunStatus : Type 0 where
  running success failed : RunStatus

pub record RunRow : Type 0 where
  pub id : ℤ
  pub device_id : ℤ
  pub started_at : ℕ
  pub finished_at : Option ℕ
  pub status : RunStatus
  pub error : Option String
  pub commit_sha : Option String

pub record VersionRow : Type 0 where
  pub id : ℤ
  pub device_id : ℤ
  pub artifact : String
  pub commit_sha : String
  pub size_bytes : ℕ
  pub created_at : ℕ

-- A row that a backup writes; `status` to `error` are the parts of its column detail.
pub record AuditRow : Type 0 where
  pub tenant_id : ℤ
  pub action : String
  pub target : ℤ
  pub status : RunStatus
  pub actor : String
  pub sha : String
  pub error : String
  pub created_at : ℕ

pub record Store : Type 0 where
  pub groups : Table Group
  pub devices : Table Device
  pub credentials : Table CredentialRow
  pub runs : Table RunRow
  pub versions : Table VersionRow
  pub audit_log : List AuditRow

unfoldable pub device_at : ℤ → ℤ → Device → Bool
device_at tenant i d = id_eq d.tenant_id tenant && id_eq d.id i

unfoldable pub credential_at : ℤ → ℤ → CredentialRow → Bool
credential_at tenant i c = id_eq c.tenant_id tenant && id_eq c.id i
