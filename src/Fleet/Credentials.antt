-- ===== src/Fleet/Credentials.antt =====
-- The credentials of devices, sealed at rest: internal/credentials/repo.go.
use netmantle.Prelude.{
  ℕ, ◌==◌, ◌&&◌, ◌||◌, not, Bool, Option, none, some, List, map, ℤ, id_eq, positive, String, str_eq,
  if◌then◌else◌, find_first, filter, sort_by,
}
use netmantle.Prelude.Text.{trim_space, text_leb}
use netmantle.Db.{
  Db, Result, insert, update, exec, exec_insert_unique, query, now, pure, fail, ignore, some_or,
  ◌>>=◌, ◌>>◌, format_time, parse_time, scan_time, invalid_input, not_found,
}
use netmantle.Fleet.Tables.{Device, CredentialRow, Store, credential_at}
use netmantle.Fleet.Sealer.{Cipher, seal, open_envelope}

pub record Credential : Type 0 where
  pub id : ℤ
  pub tenant_id : ℤ
  pub name : String
  pub username : String
  pub created_at : ℕ
  pub last_used_at : Option ℕ

pub record Ref : Type 0 where
  pub id : ℤ
  pub name : String
  pub username : String
  pub last_used_at : Option ℕ

unfoldable pub as_ref : Credential → Ref
as_ref c = record { id = c.id; name = c.name; username = c.username; last_used_at = c.last_used_at }

unfoldable pub missing : Credential → String → Bool
missing c secret =
    not (positive c.tenant_id)
    || str_eq (trim_space c.name) ""
    || str_eq (trim_space c.username) ""
    || str_eq secret ""

unfoldable pub credential_row : Credential → String → ℕ → ℤ → CredentialRow
credential_row c sealed at i = record {
  id = i;
  tenant_id = c.tenant_id;
  name = c.name;
  username = c.username;
  secret_envelope = sealed;
  created_at = at;
  last_used_at = none;
}

unfoldable pub name_taken : ℤ → String → CredentialRow → Bool
name_taken tenant name c = id_eq c.tenant_id tenant && str_eq c.name name

-- UNIQUE(tenant_id, name)
unfoldable pub insert_credential : Credential → String → ℕ → Store → Option (ℤ × Store)
unfolding insert name_taken
insert_credential c sealed at s =
    elim (find_first (name_taken c.tenant_id c.name) s.credentials.rows) [
      | some _ ↦ none
      | none ↦
          let (i, t) = insert (credential_row c sealed at) s.credentials in
          some (i, record s { credentials = t })
    ]

-- A value that was computed beside the database.
abbrev pub from_result : {A : Type 0} → Result A → Db Store A
from_result r w = (r, w)

unfoldable pub scan_credential : CredentialRow → Credential
unfolding parse_time scan_time
scan_credential c = record {
  id = c.id;
  tenant_id = c.tenant_id;
  name = c.name;
  username = c.username;
  created_at = parse_time c.created_at;
  last_used_at = scan_time c.last_used_at;
}

unfoldable pub get_credential : ℤ → ℤ → Db Store Credential
unfolding scan_credential
get_credential tenant i = do
  found ← query (λ s. find_first (credential_at tenant i) s.credentials.rows)
  c ← some_or not_found found
  pure (scan_credential c)

-- ORDER BY name
unfoldable pub list_credentials : ℤ → Db Store (List Credential)
unfolding scan_credential
list_credentials tenant = do
  rows ← query (λ s.
      sort_by (λ (a b : CredentialRow). text_leb a.name b.name)
        (filter (λ (c : CredentialRow). id_eq c.tenant_id tenant) s.credentials.rows))
  pure (map scan_credential rows)

unfoldable pub touch : ℤ → ℤ → ℕ → Store → Store
unfolding update
touch tenant i at s = record s {
  credentials =
      (update (credential_at tenant i) (λ (c : CredentialRow). record c { last_used_at = some at })
        s.credentials).1;
}

-- ON DELETE SET NULL of devices.credential_id
unfoldable pub unlink : ℤ → Device → Device
unlink i d = elim d.credential_id [
  | none ↦ d
  | some j ↦ if id_eq j i then record d { credential_id = none } else d
]

unfoldable pub delete_credential_rows : ℤ → ℤ → Store → ℕ × Store
unfolding unlink
delete_credential_rows tenant i s = elim (find_first (credential_at tenant i) s.credentials.rows) [
  | none ↦ (0, s)
  | some _ ↦ (
    1,
    record s {
      credentials = record s.credentials {
        rows = filter (λ c. not (credential_at tenant i c)) s.credentials.rows;
      };
      devices = record s.devices { rows = map (unlink i) s.devices.rows };
    },
  )
]

unfoldable pub delete_credential : ℤ → ℤ → Db Store Unit
unfolding delete_credential_rows
delete_credential tenant i = do
  n ← exec (delete_credential_rows tenant i)
  if n == 0 then fail not_found else pure tt

module _ (cipher : Cipher) (master : String) where
  -- `salt` and `iv` are what crypto/rand fills in.
  unfoldable pub create_credential :
      Option (List ℕ) → Option (List ℕ) → Credential → String → Db Store Credential
  unfolding missing credential_row
  create_credential salt iv c secret = if missing c secret then fail invalid_input else do
    sealed ← from_result (seal cipher master salt iv secret)
    t ← now
    i ← exec_insert_unique (insert_credential c sealed (format_time t))
    pure (record c { id = i; created_at = t })

  unfoldable pub reveal_row : CredentialRow → Db Store (String × String)
  reveal_row c = do
    secret ← from_result (open_envelope cipher master c.secret_envelope)
    pure (c.username, secret)

  unfoldable pub reveal : ℤ → ℤ → Db Store (String × String)
  unfolding reveal_row
  reveal tenant i = do
    found ← query (λ s. find_first (credential_at tenant i) s.credentials.rows)
    c ← some_or not_found found
    reveal_row c

  -- The UPDATE comes before the call, whatever the call answers.
  unfoldable pub use_row :
      ℤ → ℤ → (String → String → Result (Unit {0})) → CredentialRow → Db Store Unit
  unfolding touch
  use_row tenant i fn c = do
    secret ← from_result (open_envelope cipher master c.secret_envelope)
    t ← now
    ignore (exec (λ s. (tt, touch tenant i (format_time t) s)))
    from_result (fn c.username secret)

  unfoldable pub use_credential : ℤ → ℤ → (String → String → Result (Unit {0})) → Db Store Unit
  unfolding use_row
  use_credential tenant i fn = do
    found ← query (λ s. find_first (credential_at tenant i) s.credentials.rows)
    c ← some_or not_found found
    use_row tenant i fn c
