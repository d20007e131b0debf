-- ===== src/ApiTokens/Service.antt =====
-- The methods of `Service`. The prefix and the secret that `generate` draws are arguments, and so is
-- bcrypt.
use Prim.Native.Char.{code}
use Prim.Native.String.{String}
use netmantle.Prelude.{
  ℕ, ◌+◌, Bool, true, false, not, ◌&&◌, ◌||◌, Option, none, some, List, map, ℤ, id_eq, positive,
  str_eq, if◌then◌else◌, ltb, ◌==◌, find_first, filter,
}
use netmantle.Prelude.Text.{trim_space, join_commas}
use netmantle.Db.{
  Db, Table, insert, update, exec, exec_insert_unique, query, now, pure, fail, ignore, some_or,
  ◌>>=◌, ◌>>◌, format_time, parse_time, scan_time, invalid_input, invalid_token, not_found,
  rand_failed, hash_failed,
}
use mathlib.Core.List.{reverse}
use netmantle.Bcrypt.{Bcrypt}
use netmantle.ApiTokens.Format.{format_token, parse_token, normalise_scopes, parse_scopes}

-- Times are nanoseconds.
pub record Token : Type 0 where
  pub id : ℤ
  pub tenant_id : ℤ
  pub owner_user_id : ℤ
  pub name : String
  pub prefix : String
  pub scopes : List String
  pub created_at : ℕ
  pub expires_at : Option ℕ
  pub last_used_at : Option ℕ
  pub revoked_at : Option ℕ

-- One row of api_tokens: NULL is `none`, a timestamp column holds seconds.
pub record TokenRow : Type 0 where
  pub id : ℤ
  pub tenant_id : ℤ
  pub owner_user_id : ℤ
  pub name : String
  pub prefix : String
  pub secret_hash : String
  pub scopes : String
  pub created_at : ℕ
  pub expires_at : Option ℕ
  pub last_used_at : Option ℕ
  pub revoked_at : Option ℕ

abbrev pub Store : Type 0
Store = Table TokenRow

-- len(s): the bytes of the text in UTF-8
byte_length : String → ℕ
byte_length String.[] = 0
byte_length (String.◌∷◌ c s) =
    let rest = byte_length s in
    if ltb (code c) 0x80
    then rest + 1
    else if ltb (code c) 0x800
    then rest + 2
    else if ltb (code c) 0x10000
    then rest + 3
    else rest + 4

abbrev max_name_bytes : ℕ
max_name_bytes = 128

-- The switch of `Issue`, on the trimmed name.
unfoldable pub bad_input : ℤ → ℤ → String → Bool
unfolding byte_length
bad_input tenant owner name =
    not (positive tenant)
    || not (positive owner)
    || str_eq name ""
    || ltb max_name_bytes (byte_length name)

unfoldable pub format_expiry : Option ℕ → Option ℕ
format_expiry none = none
format_expiry (some t) = some (format_time t)

unfoldable pub issued_row :
    ℤ → ℤ → String → String → String → List String → ℕ → Option ℕ → ℤ → TokenRow
unfolding join_commas format_expiry
issued_row tenant owner name prefix hash scopes at expires i = record {
  id = i;
  tenant_id = tenant;
  owner_user_id = owner;
  name = name;
  prefix = prefix;
  secret_hash = hash;
  scopes = join_commas (normalise_scopes scopes);
  created_at = at;
  expires_at = format_expiry expires;
  last_used_at = none;
  revoked_at = none;
}

-- WHERE prefix=?
abbrev pub has_prefix : String → TokenRow → Bool
has_prefix prefix r = str_eq r.prefix prefix

-- UNIQUE(prefix), UNIQUE(tenant_id, name)
abbrev pub clashes : ℤ → String → String → TokenRow → Bool
clashes tenant name prefix r =
    has_prefix prefix r || (id_eq r.tenant_id tenant && str_eq r.name name)

unfoldable pub insert_token : ℤ → String → String → (ℤ → TokenRow) → Store → Option (ℤ × Store)
unfolding insert
insert_token tenant name prefix row s = elim (find_first (clashes tenant name prefix) s.rows) [
  | some _ ↦ none
  | none ↦ some (insert row s)
]

abbrev pub issued : ℤ → ℤ → String → String → List String → ℕ → Option ℕ → ℤ → Token
issued tenant owner name prefix scopes t expires i = record {
  id = i;
  tenant_id = tenant;
  owner_user_id = owner;
  name = name;
  prefix = prefix;
  scopes = normalise_scopes scopes;
  created_at = t;
  expires_at = expires;
  last_used_at = none;
  revoked_at = none;
}

unfoldable pub scan_token : TokenRow → Token
unfolding parse_scopes parse_time scan_time
scan_token r = record {
  id = r.id;
  tenant_id = r.tenant_id;
  owner_user_id = r.owner_user_id;
  name = r.name;
  prefix = r.prefix;
  scopes = parse_scopes r.scopes;
  created_at = parse_time r.created_at;
  expires_at = scan_time r.expires_at;
  last_used_at = scan_time r.last_used_at;
  revoked_at = scan_time r.revoked_at;
}

unfoldable pub touch : ℤ → ℕ → Store → ℕ × Store
unfolding update
touch i at s = update (λ r. id_eq r.id i) (λ r. record r { last_used_at = some at }) s

-- WHERE tenant_id=? AND id=? AND revoked_at IS NULL
abbrev pub revocable : ℤ → ℤ → TokenRow → Bool
revocable tenant i r =
    id_eq r.tenant_id tenant && id_eq r.id i && elim r.revoked_at [ none ↦ true | some _ ↦ false ]

abbrev pub revoke_row : ℕ → TokenRow → TokenRow
revoke_row at r = record r { revoked_at = some at }

unfoldable pub revoke : ℤ → ℤ → Db Store Unit
unfolding update
revoke tenant i = do
  t ← now
  n ← exec (λ s. update (revocable tenant i) (revoke_row (format_time t)) s)
  if n == 0 then fail not_found else pure tt

-- ORDER BY id DESC: rows stand in the order of their keys.
unfoldable pub list : ℤ → Db Store (List Token)
list tenant = do
  rows ← query (λ s. reverse (filter (λ r. id_eq r.tenant_id tenant) s.rows))
  pure (map scan_token rows)

module _ (bcrypt : Bcrypt) where
  -- `Issue` from the INSERT on.
  unfoldable pub store_token :
      ℤ → ℤ → String → String → String → List String → Option ℕ → String → Db Store (Token × String)
  store_token tenant owner name prefix secret scopes expires hash = do
    t ← now
    i ← exec_insert_unique (
        insert_token tenant name prefix
          (issued_row tenant owner name prefix hash scopes (format_time t) expires))
    pure (issued tenant owner name prefix scopes t expires i, format_token prefix secret)

  -- `keys` is what `generate` returns, `none` for its error.
  unfoldable pub issue :
      ℤ
      → ℤ
      → String
      → List String
      → Option ℕ
      → Option (String × String)
      → String
      → Db Store (Token × String)
  unfolding trim_space
  issue tenant owner name scopes expires keys salt =
      if bad_input tenant owner (trim_space name) then fail invalid_input else elim keys [
        | none ↦ fail rand_failed
        | some (prefix, secret) ↦ elim (bcrypt.hash salt secret) [
          | none ↦ fail hash_failed
          | some h ↦ store_token tenant owner (trim_space name) prefix secret scopes expires h
        ]
      ]

  -- The end of `Authenticate`: the secret is compared and the use is recorded.
  unfoldable pub verify : TokenRow → String → Db Store Token
  unfolding touch
  verify r secret =
      if not (bcrypt.matches r.secret_hash secret)
      then fail invalid_token
      else do t ← now; ignore (exec (touch r.id (format_time t))); pure (scan_token r)

  -- Of a row with an expiry the code reads the clock.
  unfoldable pub verify_before : ℕ → TokenRow → String → Db Store Token
  unfolding parse_time
  verify_before e r secret = do
    t ← now
    if ltb (parse_time e) t then fail invalid_token else verify r secret

  -- `Authenticate` once the row is read.
  unfoldable pub authenticate_row : TokenRow → String → Db Store Token
  authenticate_row r secret = elim r.revoked_at [
    | some _ ↦ fail invalid_token
    | none ↦ elim r.expires_at [ none ↦ verify r secret | some e ↦ verify_before e r secret ]
  ]

  unfoldable pub authenticate_parsed : String → String → Db Store Token
  authenticate_parsed prefix secret = do
    found ← query (λ s. find_first (has_prefix prefix) s.rows)
    r ← some_or invalid_token found
    authenticate_row r secret

  unfoldable pub authenticate : String → Db Store Token
  authenticate presented = elim (parse_token presented) [
    | none ↦ fail invalid_token
    | some (prefix, secret) ↦ authenticate_parsed prefix secret
  ]
