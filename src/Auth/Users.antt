-- ===== src/Auth/Users.antt =====
-- The tables, the roles, the first account and the check of a password: internal/auth/auth.go.
use netmantle.Prelude.{
  ℕ, ◌==◌, ◌&&◌, ◌||◌, Bool, not, Option, none, some, List, ℤ, id_eq, String, str_eq, find_first,
  filter, length, if◌then◌else◌,
}
use netmantle.Db.{
  Db, Table, insert, exec_insert_unique, query, now, pure, fail, ◌>>=◌, ◌>>◌, format_time,
  invalid_credentials, hash_failed,
}
use netmantle.Bcrypt.{Bcrypt}

abbrev pub role_admin : String
role_admin = "admin"

abbrev pub role_operator : String
role_operator = "operator"

abbrev pub role_viewer : String
role_viewer = "viewer"

unfoldable pub is_valid : String → Bool
is_valid r = str_eq r role_admin || str_eq r role_operator || str_eq r role_viewer

unfoldable pub can_write : String → Bool
can_write r = str_eq r role_admin || str_eq r role_operator

unfoldable pub can_admin : String → Bool
can_admin r = str_eq r role_admin

pub record User : Type 0 where
  pub id : ℤ
  pub tenant_id : ℤ
  pub username : String
  pub role : String

pub record TenantRow : Type 0 where
  pub id : ℤ
  pub name : String
  pub created_at : ℕ

pub record UserRow : Type 0 where
  pub id : ℤ
  pub tenant_id : ℤ
  pub username : String
  pub password_hash : String
  pub role : String
  pub created_at : ℕ
  pub totp_secret : Option String

-- A row of sessions or of mfa_challenges, which have the same columns.
pub record Ticket : Type 0 where
  pub id : String
  pub user_id : ℤ
  pub created_at : ℕ
  pub expires_at : ℕ

pub record Store : Type 0 where
  pub tenants : Table TenantRow
  pub users : Table UserRow
  pub sessions : List Ticket
  pub challenges : List Ticket

unfoldable pub has_id : String → Ticket → Bool
has_id i t = str_eq t.id i

unfoldable pub has_user : ℤ → UserRow → Bool
has_user i u = id_eq u.id i

unfoldable pub has_name : String → UserRow → Bool
has_name name u = str_eq u.username name

-- DELETE … WHERE id = ?
unfoldable pub without : String → List Ticket → List Ticket
unfolding has_id
without i ts = filter (λ t. not (has_id i t)) ts

unfoldable pub scan_user : UserRow → User
scan_user u = record { id = u.id; tenant_id = u.tenant_id; username = u.username; role = u.role }

unfoldable pub tenant_row : String → ℕ → ℤ → TenantRow
tenant_row name at i = record { id = i; name = name; created_at = at }

unfoldable pub named : String → TenantRow → Bool
named name t = str_eq t.name name

-- name UNIQUE
unfoldable pub insert_tenant : String → ℕ → Store → Option (ℤ × Store)
unfolding insert tenant_row named
insert_tenant name at s = elim (find_first (named name) s.tenants.rows) [
  | some _ ↦ none
  | none ↦ let (i, t) = insert (tenant_row name at) s.tenants in some (i, record s { tenants = t })
]

unfoldable pub user_row : ℤ → String → String → String → ℕ → ℤ → UserRow
user_row tenant name hash role at i = record {
  id = i;
  tenant_id = tenant;
  username = name;
  password_hash = hash;
  role = role;
  created_at = at;
  totp_secret = none;
}

unfoldable pub taken : ℤ → String → UserRow → Bool
taken tenant name u = id_eq u.tenant_id tenant && str_eq u.username name

-- UNIQUE(tenant_id, username)
unfoldable pub insert_user : ℤ → String → String → String → ℕ → Store → Option (ℤ × Store)
unfolding insert user_row taken
insert_user tenant name hash role at s = elim (find_first (taken tenant name) s.users.rows) [
  | some _ ↦ none
  | none ↦
      let (i, t) = insert (user_row tenant name hash role at) s.users in
      some (i, record s { users = t })
]

module _ (bcrypt : Bcrypt) where
  unfoldable pub put_admin : ℤ → String → String → ℕ → Db Store (Option (String × String))
  put_admin tenant pw salt t = elim (bcrypt.hash salt pw) [
    | none ↦ fail hash_failed
    | some h ↦ do
      exec_insert_unique (insert_user tenant "admin" h role_admin (format_time t))
      pure (some ("admin", pw))
  ]

  -- `drawn` is what randomPassword draws, `salt` what bcrypt draws.
  unfoldable pub create_admin : String → String → String → Db Store (Option (String × String))
  create_admin preset drawn salt = do
    t ← now
    tenant ← exec_insert_unique (insert_tenant "default" (format_time t))
    put_admin tenant (if str_eq preset "" then drawn else preset) salt t

  unfoldable pub ensure_bootstrap_admin :
      String → String → String → Db Store (Option (String × String))
  ensure_bootstrap_admin preset drawn salt = do
    n ← query (λ s. length s.users.rows)
    if n == 0 then create_admin preset drawn salt else pure none

  unfoldable pub check_password : String → Option UserRow → Db Store User
  unfolding scan_user
  check_password pw none = fail invalid_credentials
  check_password pw (some u) =
      if bcrypt.matches u.password_hash pw then pure (scan_user u) else fail invalid_credentials

  unfoldable pub authenticate : String → String → Db Store User
  unfolding check_password has_name
  authenticate name pw = do
    found ← query (λ s. find_first (has_name name) s.users.rows)
    check_password pw found
