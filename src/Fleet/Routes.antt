-- ===== src/Fleet/Routes.antt =====
-- The code around a backup, and which session a driver gets: internal/backup/service.go.
use Prim.Native.String.{◌++◌ as join_text}
use netmantle.Prelude.{ℕ, ◌||◌, Bool, Option, List, ℤ, String, str_eq, if◌then◌else◌}
use netmantle.Db.{Db, Result}
use netmantle.Compliance.Rules.{contains}
use netmantle.Fleet.Tables.{Device, RunStatus, AuditRow, Store}

pub record Artifact : Type 0 where
  pub name : String
  pub content : String
  pub size : ℕ

-- The session factories of the service.
pub data Factory : Type 0 where
  ssh mikrotik telnet netconf restconf gnmi : Factory

-- What sessionFactoryForDriver answers: a factory, or an error that names the missing one.
pub data Route : Type 0 where
  by missing : Factory → Route

-- What a driver fetches, or the text of the error of the session or of the driver.
pub data Fetched : Type 0 where
  no_session no_fetch : String → Fetched
  fetched : List Artifact → Fetched

-- What configstore.Commit answers: an error, ErrNoChange, or the hash of the commit.
pub data Committed : Type 0 where
  refused committed : String → Committed
  unchanged : Committed

-- The code around the service: which drivers are registered, which factories are set, what a session
-- by a factory fetches with a user name and a secret and what a command answers, the store of
-- configurations, base64, the verb %q of fmt, the audit service if it is set, and the hooks after a commit.
pub record Plant : Type 1 where
  pub known : String → Bool
  pub configured : Factory → Bool
  pub fetch : Factory → Device → String → String → Fetched
  pub run : Factory → Device → String → String → String → Result String
  pub commit : ℤ → ℤ → String → String → List Artifact → Committed
  pub read : ℤ → ℤ → String → String → Result String
  pub encode : String → String
  pub quote : String → String
  pub audit : Option (AuditRow → Db Store (Unit {0}))
  pub hooks : List (ℤ → Device → String → List Artifact → Db Store (Unit {0}))

pub record Run : Type 0 where
  pub id : ℤ
  pub device_id : ℤ
  pub started_at : ℕ
  pub finished_at : Option ℕ
  pub status : RunStatus
  pub error : String
  pub commit_sha : String

unfoldable pub or_missing : (Factory → Bool) → Factory → Route
or_missing configured f = if configured f then by f else missing f

unfoldable pub session_factory_for_driver : (Factory → Bool) → String → Route
unfolding or_missing
session_factory_for_driver configured name =
    if str_eq name "mikrotik_routeros"
    then or_missing configured mikrotik
    else if contains name "telnet"
    then or_missing configured telnet
    else if str_eq name "cisco_netconf" || str_eq name "junos_netconf"
    then or_missing configured netconf
    else if str_eq name "restconf"
    then or_missing configured restconf
    else if str_eq name "gnmi"
    then or_missing configured gnmi
    else by ssh

unfoldable pub factory_name : Factory → String
factory_name ssh = "ssh"
factory_name mikrotik = "mikrotik_exec"
factory_name telnet = "telnet"
factory_name netconf = "netconf"
factory_name restconf = "restconf"
factory_name gnmi = "gnmi"

-- The text of the error; `quote` is the verb %q of fmt.
unfoldable pub missing_session_factory : (String → String) → String → String → String
missing_session_factory quote transport driver = join_text "backup: " (
    join_text transport (join_text " session factory is not configured for driver " (quote driver)))

unfoldable pub apply_command_for_driver : (String → String) → String → String → String
apply_command_for_driver encode name rendered =
    if str_eq name "cisco_netconf" || str_eq name "junos_netconf"
    then join_text "edit-config:running:" (encode rendered)
    else if str_eq name "restconf"
    then join_text "edit-config:running:" (encode rendered)
    else if str_eq name "gnmi"
    then join_text "edit-config:running:" (encode rendered)
    else rendered
