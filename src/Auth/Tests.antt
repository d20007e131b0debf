-- ===== src/Auth/Tests.antt =====
-- An administrator with one session, one challenge and a second factor.
use netmantle.Prelude.{
  ℕ, ◌+◌, ◌*◌, ◌≡◌, ◌≢◌, refl, true, false, none, some, List, [], ◌∷◌, pos, String, str_eq,
  str_eq_iff, arith, id_eq, find_first, length, ap, if◌then◌else◌, ltb,
}
use netmantle.Prelude.Text.{split_n, cut}
use netmantle.Db.{
  empty_table, ok, err, db_failed, hash_failed, invalid_session, format_time, parse_time, second,
  insert,
}
use netmantle.Db.Samples.{calm, failing}
use netmantle.Bcrypt.{Bcrypt}
use netmantle.Auth.Users.{
  User, UserRow, Ticket, Store, has_id, has_user, has_name, scan_user, authenticate, check_password,
  ensure_bootstrap_admin, create_admin, put_admin, insert_tenant, insert_user, role_admin, named,
}
use netmantle.Auth.Sessions.{
  sign_cookie, check_parts, create_session, insert_session, insert_ticket, lookup_session,
  lookup_id, join_user, open_found, open_until, destroy_session,
}
use netmantle.Auth.Cookies.{Opens, lookup_session_ok, lookup-create_session, lookup-destroy_session}
use netmantle.Auth.Totp.{
  Hotp, key_of, totp, window, verify_totp, matches_near, six_digits, truncate,
}
use netmantle.Auth.Codes.{verify_totp-totp}
use netmantle.Auth.Mfa.{
  enroll_mfa, mfa_enabled, has_secret, redeem_challenge, redeem_joined, redeem_found,
  authenticate_mfa, second_factor_of, second_factor, check_code,
}
use netmantle.Auth.Challenges.{redeem_challenge_once}
use netmantle.Auth.Login.{entered, login, enter}
use netmantle.Auth.Entry.{login_guarded, login_open}
use netmantle.Auth.Bootstrap.{authenticate-bootstrap, bootstrap_torn}

-- A signature that every id has, and hashes that are the password.
abbrev seal : String → String
seal i = "mac"

plain_matches :
    (salt s h : String) → (if str_eq s "long" then none else some s) ≡ some h → str_eq h s ≡ true
plain_matches salt s h e = ground (arith, str_eq_iff h s)

abbrev plain : Bcrypt
plain = record {
  hash = λ salt secret. if str_eq secret "long" then none else some secret;
  matches = λ h secret. str_eq h secret;
  matches-hash = λ salt secret h e. plain_matches salt secret h e;
}

abbrev zeros : List ℕ
zeros = 0 ∷ 0 ∷ 0 ∷ 0 ∷ 0 ∷ 0 ∷ 0 ∷ 0 ∷ 0 ∷ 0 ∷ 0 ∷ 0 ∷ 0 ∷ 0 ∷ 0 ∷ 0 ∷ 0 ∷ 0 ∷ 0 ∷ 0 ∷ []

abbrev quiet : Hotp
quiet = record {
  to_upper = λ s. s;
  decode = λ s. some [];
  hmac = λ key message. zeros;
  hmac-length = λ key message. refl;
}

abbrev admin : UserRow
admin = record {
  id = pos 1;
  tenant_id = pos 1;
  username = "admin";
  password_hash = "pw";
  role = role_admin;
  created_at = 900;
  totp_secret = some "ABC";
}

abbrev kept : Ticket
kept = record { id = "s1"; user_id = pos 1; created_at = 900; expires_at = 2000 }

abbrev one : Store
one = record {
  tenants = empty_table;
  users = record { rows = admin ∷ []; next_id = 2 };
  sessions = kept ∷ [];
  challenges = record kept { id = "c1" } ∷ [];
}

opened : (lookup_session seal "s1.mac" (calm one)).0 ≡ ok (scan_user admin)
unfolding lookup_session check_parts split_n cut lookup_id open_found open_until has_id has_user
    id_eq find_first parse_time
opened = refl

lookup_session_ok_example : Opens seal "s1.mac" (calm one) (scan_user admin)
lookup_session_ok_example = lookup_session_ok seal "s1.mac" (calm one) (scan_user admin) opened

created :
    (create_session seal (60 * second) (some "s2") (pos 1) (calm one)).0
    ≡ ok ("s2.mac", 1060 * second)
unfolding create_session sign_cookie insert_session insert_ticket has_id find_first
created = refl

abbrev after : Store
after = (create_session seal (60 * second) (some "s2") (pos 1) (calm one)).1.store

admin_there : find_first (has_user (pos 1)) (one.users.rows) ≡ some admin
unfolding find_first has_user id_eq
admin_there = refl

lookup-create_session_example :
    (1060 * second ≡ 1000 * second + 60 * second)
    × ((lookup_session seal "s2.mac" (calm after)).0 ≡ (
        if ltb (parse_time (format_time (1060 * second))) (1000 * second)
        then err invalid_session
        else ok (scan_user admin)))
lookup-create_session_example =
    lookup-create_session seal (60 * second) "s2" admin (calm one) (calm after) "s2.mac"
      (1060 * second) (refl, (refl, tt)) created admin_there refl refl

destroyed : (destroy_session seal "s1.mac" (calm one)).0 ≡ ok tt
unfolding destroy_session check_parts split_n cut
destroyed = refl

lookup-destroy_session_example :
    (lookup_session seal "s1.mac" (calm (destroy_session seal "s1.mac" (calm one)).1.store)).0
    ≢ ok (scan_user admin)
lookup-destroy_session_example =
    lookup-destroy_session seal "s1.mac" (calm one)
      (calm (destroy_session seal "s1.mac" (calm one)).1.store) (scan_user admin) destroyed refl

decodes : key_of quiet "ABC" ≡ some []
unfolding key_of
decodes = refl

verify_totp-totp_example :
    verify_totp quiet "ABC" (totp quiet [] (pos (window (1000 * second)))) (1030 * second) ≡ true
verify_totp-totp_example =
    verify_totp-totp quiet "ABC" [] (1000 * second) (1030 * second) decodes (omega arith)
      (omega arith)

redeemed : (redeem_challenge quiet "c1" "000000" (calm one)).0 ≡ ok (scan_user admin)
unfolding redeem_challenge redeem_joined redeem_found authenticate_mfa second_factor_of
    second_factor check_code verify_totp matches_near totp six_digits truncate key_of join_user
    has_id has_user id_eq find_first parse_time
redeemed = refl

redeem_challenge_once_example :
    (redeem_challenge quiet "c1" "000000"
      (calm (redeem_challenge quiet "c1" "000000" (calm one)).1.store)).0
    ≢ ok (scan_user admin)
redeem_challenge_once_example =
    redeem_challenge_once quiet "c1" "000000" "000000" (calm one)
      (calm (redeem_challenge quiet "c1" "000000" (calm one)).1.store) (scan_user admin)
      (scan_user admin) redeemed refl refl

xyz_not_empty : ◌≢◌ {A = String} "XYZ" ""
xyz_not_empty e = let no : str_eq "XYZ" "" ≡ true = (str_eq_iff "XYZ" "").1 e in ground arith

enrolled : (enroll_mfa (some "XYZ") (pos 1) (calm one)).0 ≡ ok "XYZ"
unfolding enroll_mfa
enrolled = refl

abbrev without_mfa : Store
without_mfa = record one {
  users = record { rows = record admin { totp_secret = none } ∷ []; next_id = 2 };
}

logged_in :
    (login seal (60 * second) plain (some "s2") "admin" "pw" (calm without_mfa)).0
    ≡ ok (entered (scan_user admin) "s2.mac" (1060 * second))
unfolding login authenticate check_password mfa_enabled enter create_session sign_cookie
    insert_session insert_ticket has_id has_user has_name find_first id_eq has_secret scan_user
logged_in = refl

none_there :
    find_first (has_user (pos 1)) without_mfa.users.rows
    ≡ some (record admin { totp_secret = none })
unfolding find_first has_user id_eq
none_there = refl

s2_free : find_first (has_id "s2") one.sessions ≡ none
unfolding find_first has_id
s2_free = refl

login_guarded_example : has_secret none ≡ false
unfolding scan_user
login_guarded_example =
    login_guarded seal (60 * second) plain (some "s2") "admin" "pw" (calm without_mfa)
      (scan_user admin) (record admin { totp_secret = none }) "s2.mac" (1060 * second) logged_in
      refl none_there

right_password : (authenticate plain "admin" "pw" (failing 1 one)).0 ≡ ok (scan_user admin)
unfolding authenticate check_password has_name find_first
right_password = refl

login_open_example :
    (login seal (60 * second) plain (some "s2") "admin" "pw" (failing 1 one)).0
    ≡ ok (entered (scan_user admin) (sign_cookie seal "s2") (1000 * second + 60 * second))
login_open_example =
    login_open seal (60 * second) plain "s2" "admin" "pw" (failing 1 one) (scan_user admin)
      right_password refl refl s2_free

abbrev nothing : Store
nothing = record { tenants = empty_table; users = empty_table; sessions = []; challenges = [] }

started :
    (ensure_bootstrap_admin plain "" "drawn" "salt" (calm nothing)).0 ≡ ok (some ("admin", "drawn"))
unfolding ensure_bootstrap_admin create_admin put_admin insert_tenant insert_user named find_first
started = refl

authenticate-bootstrap_example :
    (◌≡◌ {A = String} "drawn" "drawn")
    × ((u : User) × ((authenticate plain "admin" "drawn"
            (calm (ensure_bootstrap_admin plain "" "drawn" "salt" (calm nothing)).1.store)).0
          ≡ ok u)
        × (u.username ≡ "admin")
        × (u.role ≡ role_admin))
authenticate-bootstrap_example =
    authenticate-bootstrap plain "" "drawn" "salt" (calm nothing)
      (calm (ensure_bootstrap_admin plain "" "drawn" "salt" (calm nothing)).1.store) "admin" "drawn"
      started refl refl

-- bcrypt refuses a password that is too long.
too_long : (ensure_bootstrap_admin plain "long" "drawn" "salt" (calm nothing)).0 ≡ err hash_failed
unfolding ensure_bootstrap_admin create_admin put_admin insert_tenant named find_first
too_long = refl

abbrev tenants_in : Store → ℕ
tenants_in s = length s.tenants.rows

tenant_left : (ensure_bootstrap_admin plain "long" "drawn" "salt" (calm nothing)).1.store ≢ nothing
unfolding ensure_bootstrap_admin create_admin put_admin insert_tenant named find_first insert
tenant_left e = let more : ◌≡◌ {A = ℕ} 1 0 = ap tenants_in e in ground arith

bootstrap_torn_example :
    (ensure_bootstrap_admin plain "short" "drawn" "salt"
      (calm (ensure_bootstrap_admin plain "long" "drawn" "salt" (calm nothing)).1.store)).0
    ≡ err db_failed
bootstrap_torn_example =
    bootstrap_torn plain "long" "drawn" "salt" "short" "drawn" "salt" (calm nothing)
      (calm (ensure_bootstrap_admin plain "long" "drawn" "salt" (calm nothing)).1.store) hash_failed
      refl too_long tenant_left refl
