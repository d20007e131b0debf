-- ===== src/Auth/Sessions.antt =====
-- Sessions and their signed cookies: internal/auth/auth.go.
use netmantle.Prelude.{
  ℕ, ◌+◌, Option, none, some, List, [], ◌∷◌, ◌++◌, ℤ, String, str_eq, ltb, find_first,
  if◌then◌else◌,
}
use Prim.Native.String.{◌++◌ as join_text}
use netmantle.Prelude.Text.{split_n}
use netmantle.Db.{
  Db, exec, exec_unique, query, now, pure, fail, ignore, ◌>>=◌, ◌>>◌, format_time, parse_time,
  rand_failed, invalid_session,
}
use netmantle.Auth.Users.{User, UserRow, Ticket, Store, has_id, has_user, without, scan_user}

-- `sign` is the signature that signCookie and unsignCookie compute of an id: HMAC-SHA256 under the
-- key of the service, in base64.
module _ (sign : String → String) where
  unfoldable pub sign_cookie : String → String
  sign_cookie i = join_text i (join_text "." (sign i))

  unfoldable pub check_parts : List String → Option String
  check_parts (i ∷ signature ∷ []) = if str_eq (sign i) signature then some i else none
  check_parts [] = none
  check_parts (i ∷ []) = none
  check_parts (i ∷ j ∷ k ∷ more) = none

  unfoldable pub unsign_cookie : String → Option String
  unfolding check_parts
  unsign_cookie cookie = check_parts (split_n b'.' 2 cookie)

unfoldable pub ticket : String → ℤ → ℕ → ℕ → Ticket
ticket i user at expiry = record {
  id = i;
  user_id = user;
  created_at = format_time at;
  expires_at = format_time expiry;
}

-- id TEXT PRIMARY KEY
unfoldable pub insert_ticket : Ticket → List Ticket → Option (List Ticket)
unfolding has_id
insert_ticket t ts = elim (find_first (has_id t.id) ts) [
  | some _ ↦ none
  | none ↦ some (ts ++ t ∷ [])
]

unfoldable pub insert_session : Ticket → Store → Option Store
unfolding insert_ticket
insert_session t s = elim (insert_ticket t s.sessions) [
  | none ↦ none
  | some ts ↦ some (record s { sessions = ts })
]

unfoldable pub delete_session : String → Store → Store
unfolding without
delete_session i s = record s { sessions = without i s.sessions }

-- SELECT … FROM tickets JOIN users ON user_id = u.id WHERE id = ?
unfoldable pub join_user : String → List Ticket → List UserRow → Option (Ticket × UserRow)
unfolding has_id has_user
join_user i ts us = elim (find_first (has_id i) ts) [
  | none ↦ none
  | some t ↦ elim (find_first (has_user t.user_id) us) [ none ↦ none | some u ↦ some (t, u) ]
]

module _ (sign : String → String) (ttl : ℕ) where
  -- `drawn` is what randomID draws, `none` if it fails.
  unfoldable pub create_session : Option String → ℤ → Db Store (String × ℕ)
  unfolding sign_cookie insert_session ticket
  create_session none user = fail rand_failed
  create_session (some i) user = do
    t ← now
    exec_unique (insert_session (ticket i user t (t + ttl)))
    pure (sign_cookie sign i, t + ttl)

unfoldable pub open_until : String → Ticket × UserRow → ℕ → Db Store User
unfolding delete_session scan_user
open_until i (s, u) t =
    if ltb (parse_time s.expires_at) t
    then (do ignore (exec (λ st. (tt, delete_session i st))); fail invalid_session)
    else pure (scan_user u)

unfoldable pub open_found : String → Option (Ticket × UserRow) → Db Store User
unfolding open_until
open_found i none = fail invalid_session
open_found i (some found) = do t ← now; open_until i found t

unfoldable pub lookup_id : String → Db Store User
unfolding open_found join_user
lookup_id i = do found ← query (λ s. join_user i s.sessions s.users.rows); open_found i found

module _ (sign : String → String) where
  unfoldable pub lookup_session : String → Db Store User
  unfolding unsign_cookie lookup_id
  lookup_session cookie = elim (unsign_cookie sign cookie) [
    | none ↦ fail invalid_session
    | some i ↦ lookup_id i
  ]

  unfoldable pub destroy_session : String → Db Store Unit
  unfolding unsign_cookie delete_session
  destroy_session cookie = elim (unsign_cookie sign cookie) [
    | none ↦ pure tt
    | some i ↦ exec (λ s. (tt, delete_session i s))
  ]
