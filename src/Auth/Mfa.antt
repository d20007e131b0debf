-- ===== src/Auth/Mfa.antt =====
-- The second factor: its secrets and challenges, internal/auth/auth.go.
use netmantle.Prelude.{
  ℕ, ◌+◌, ◌*◌, Bool, false, not, Option, none, some, ℤ, String, str_eq, ltb, find_first,
  if◌then◌else◌,
}
use netmantle.Db.{
  Db, ok, err, update, exec, exec_unique, query, now, pure, fail, ignore, ◌>>=◌, ◌>>◌, parse_time,
  second, rand_failed, invalid_code, no_rows, no_enrollment,
}
use netmantle.Auth.Users.{User, UserRow, Ticket, Store, has_user, without, scan_user}
use netmantle.Auth.Sessions.{ticket, insert_ticket, join_user}
use netmantle.Auth.Totp.{Hotp, verify_totp}

unfoldable pub set_secret : Option String → UserRow → UserRow
set_secret secret u = record u { totp_secret = secret }

unfoldable pub update_secret : Option String → ℤ → Store → Store
unfolding update set_secret has_user
update_secret secret user s = record s {
  users = (update (has_user user) (set_secret secret) s.users).1;
}

-- `drawn` is what GenerateTOTPSecret answers, `none` if it fails. The answer is the secret; the URL
-- beside it is a form of the same.
unfoldable pub enroll_mfa : Option String → ℤ → Db Store String
unfolding update_secret
enroll_mfa none user = fail rand_failed
enroll_mfa (some secret) user = do exec (λ s. (tt, update_secret (some secret) user s)); pure secret

unfoldable pub disable_mfa : ℤ → Db Store Unit
unfolding update_secret
disable_mfa user = exec (λ s. (tt, update_secret none user s))

unfoldable pub has_secret : Option String → Bool
has_secret none = false
has_secret (some secret) = not (str_eq secret "")

unfoldable pub enabled_of : Option UserRow → Db Store Bool
unfolding has_secret
enabled_of none = fail no_rows
enabled_of (some u) = pure (has_secret u.totp_secret)

unfoldable pub mfa_enabled : ℤ → Db Store Bool
unfolding enabled_of has_user
mfa_enabled user = do found ← query (λ s. find_first (has_user user) s.users.rows); enabled_of found

unfoldable pub insert_challenge : Ticket → Store → Option Store
unfolding insert_ticket
insert_challenge t s = elim (insert_ticket t s.challenges) [
  | none ↦ none
  | some ts ↦ some (record s { challenges = ts })
]

unfoldable pub delete_challenge : String → Store → Store
unfolding without
delete_challenge i s = record s { challenges = without i s.challenges }

abbrev pub challenge_ttl : ℕ
challenge_ttl = 300 * second

-- `drawn` is what randomID draws, `none` if it fails.
unfoldable pub create_challenge : Option String → ℤ → Db Store String
unfolding insert_challenge ticket
create_challenge none user = fail rand_failed
create_challenge (some i) user = do
  t ← now
  exec_unique (insert_challenge (ticket i user t (t + challenge_ttl)))
  pure i

module _ (hotp : Hotp) where
  unfoldable pub check_code : String → String → Db Store Unit
  unfolding verify_totp
  check_code secret guess = do
    t ← now
    if verify_totp hotp secret guess t then pure tt else fail invalid_code

  unfoldable pub confirm_found : String → Option String → Db Store Unit
  unfolding check_code
  confirm_found guess none = fail no_enrollment
  confirm_found guess (some secret) =
      if str_eq secret "" then fail no_enrollment else check_code secret guess

  unfoldable pub confirm_user : String → Option UserRow → Db Store Unit
  unfolding confirm_found
  confirm_user guess none = fail no_rows
  confirm_user guess (some u) = confirm_found guess u.totp_secret

  unfoldable pub confirm_mfa : ℤ → String → Db Store Unit
  unfolding confirm_user has_user
  confirm_mfa user guess = do
    found ← query (λ s. find_first (has_user user) s.users.rows)
    confirm_user guess found

  unfoldable pub second_factor : String → Option String → Db Store Unit
  unfolding check_code
  second_factor guess none = fail invalid_code
  second_factor guess (some secret) =
      if str_eq secret "" then fail invalid_code else check_code secret guess

  unfoldable pub second_factor_of : String → Option UserRow → Db Store Unit
  unfolding second_factor
  second_factor_of guess none = fail invalid_code
  second_factor_of guess (some u) = second_factor guess u.totp_secret

  -- Whatever the query fails with, the answer is ErrInvalidMFACode.
  abbrev pub or_invalid : Db Store (Option UserRow) → Db Store (Option UserRow)
  or_invalid m w = elim (m w).0 [ ok r ↦ (ok r, (m w).1) | err _ ↦ (err invalid_code, (m w).1) ]

  unfoldable pub authenticate_mfa : ℤ → String → Db Store Unit
  unfolding second_factor_of has_user
  authenticate_mfa user guess = do
    found ← or_invalid (query (λ s. find_first (has_user user) s.users.rows))
    second_factor_of guess found

  unfoldable pub redeem_found : String → String → Ticket × UserRow → ℕ → Db Store User
  unfolding authenticate_mfa delete_challenge scan_user
  redeem_found i guess (c, u) t =
      if ltb (parse_time c.expires_at) t
      then (do ignore (exec (λ s. (tt, delete_challenge i s))); fail invalid_code)
      else do
        authenticate_mfa u.id guess
        ignore (exec (λ s. (tt, delete_challenge i s)))
        pure (scan_user u)

  unfoldable pub redeem_joined : String → String → Option (Ticket × UserRow) → Db Store User
  unfolding redeem_found
  redeem_joined i guess none = fail invalid_code
  redeem_joined i guess (some found) = do t ← now; redeem_found i guess found t

  unfoldable pub redeem_challenge : String → String → Db Store User
  unfolding redeem_joined join_user
  redeem_challenge i guess = do
    found ← query (λ s. join_user i s.challenges s.users.rows)
    redeem_joined i guess found
