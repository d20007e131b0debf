-- ===== src/Auth/Challenges.antt =====
-- What the second factor guards.
use netmantle.Prelude.{
  suc, ◌≤◌, ◌≡◌, ◌≢◌, refl, true, false, Option, none, some, List, ℤ, String, id_eq_iff, id_eq_refl,
  str_eq_iff, if◌then◌else◌, find_first, find_first_sound, find_first-update_where, arith, ap, sym,
  ◌∙◌, Option-cases, Bool-cases, inl, inr,
}
use netmantle.Db.{World, ok, parse_time, update}
use netmantle.Auth.Users.{User, UserRow, Ticket, Store, has_id, has_user, scan_user}
use netmantle.Auth.Sessions.{join_user}
use netmantle.Auth.Cookies.{without-find}
use netmantle.Auth.Totp.{Hotp, verify_totp}
use netmantle.Auth.Mfa.{
  set_secret, update_secret, enroll_mfa, has_secret, mfa_enabled, enabled_of, delete_challenge,
  check_code, second_factor, second_factor_of, authenticate_mfa, redeem_found, redeem_joined,
  redeem_challenge,
}

owner_id :
    (i : ℤ) (us : List UserRow) (r : UserRow) → find_first (has_user i) us ≡ some r → r.id ≡ i
unfolding has_user
owner_id i us r h = (id_eq_iff r.id i).0 (find_first_sound (has_user i) us r h)

same_secret :
    (i : ℤ) (us : List UserRow) (r x : UserRow) (s : String)
    → find_first (has_user i) us ≡ some r
    → find_first (has_user r.id) us ≡ some x
    → x.totp_secret ≡ some s
    → r.totp_secret ≡ some s
same_secret i us r x s h e k =
    let again = ap (λ j. find_first (has_user j) us) (owner_id i us r h) in
    let same : some x ≡ some r = sym e ∙ again ∙ h in ground (arith, k)

module _ (hotp : Hotp) where
  -- What a redeemed challenge needed and what it leaves.
  pub record Redeems (i guess : String) (w v : World Store) (u : User) : Type 0 where
    pub kept : Ticket
    pub row : UserRow
    pub secret : String
    pub found : find_first (has_id i) w.store.challenges ≡ some kept
    pub owner : find_first (has_user kept.user_id) w.store.users.rows ≡ some row
    pub user : u ≡ scan_user row
    pub timely : w.clock w.reads ≤ parse_time kept.expires_at
    pub holds : row.totp_secret ≡ some secret
    pub code : verify_totp hotp secret guess (w.clock (suc w.reads)) ≡ true
    pub left :
        v.store ≡ (if w.fault (suc (suc w.calls)) then w.store else delete_challenge i w.store)

  second_factor_ok :
      (guess : String) (u : Option UserRow) (w : World Store)
      → (second_factor_of hotp guess u w).0 ≡ ok tt
      → (r : UserRow) × (u ≡ some r)
        × ((s : String) × (r.totp_secret ≡ some s)
            × (verify_totp hotp s guess (w.clock w.reads) ≡ true)
            × ((second_factor_of hotp guess u w).1 ≡ record w { reads = suc w.reads }))
  unfolding second_factor_of second_factor check_code
  second_factor_ok guess none w h = ground arith
  second_factor_ok guess (some r) w h = elim (Option-cases r.totp_secret) [
    | inl e ↦ ground arith
    | inr (s, e) ↦ (r, refl, (s, e, ground arith, ground arith))
  ]

  authenticate_mfa_ok :
      (user : ℤ) (guess : String) (w : World Store)
      → (authenticate_mfa hotp user guess w).0 ≡ ok tt
      → (r : UserRow) × (find_first (has_user user) w.store.users.rows ≡ some r)
        × ((s : String) × (r.totp_secret ≡ some s)
            × (verify_totp hotp s guess (w.clock w.reads) ≡ true)
            × ((authenticate_mfa hotp user guess w).1
                ≡ record w { calls = suc w.calls; reads = suc w.reads }))
  unfolding authenticate_mfa
  authenticate_mfa_ok user guess w h = elim (Bool-cases (w.fault w.calls)) [
    | inl down ↦ ground arith
    | inr up ↦
        let (r, e, (s, k, c, left)) =
          second_factor_ok guess (find_first (has_user user) w.store.users.rows)
            (record w { calls = suc w.calls }) (ground arith) in
        (r, e, (s, k, c, ground (arith, left)))
  ]

  redeem_found_ok :
      (i guess : String) (c : Ticket) (r : UserRow) (w : World Store) (u : User)
      → find_first (has_id i) w.store.challenges ≡ some c
      → find_first (has_user c.user_id) w.store.users.rows ≡ some r
      → (redeem_challenge hotp i guess w).0 ≡ ok u
      → Redeems i guess w (redeem_challenge hotp i guess w).1 u
  unfolding redeem_found redeem_joined redeem_challenge join_user
  redeem_found_ok i guess c r w u found owner h = elim (Bool-cases (w.fault w.calls)) [
    | inl down ↦ ground arith
    | inr up ↦
        let m : World Store = record w { calls = suc w.calls; reads = suc w.reads } in
        let (x, e, (s, k, code, left)) = authenticate_mfa_ok r.id guess m (ground arith) in
        record {
          kept = c;
          row = r;
          secret = s;
          found = found;
          owner = owner;
          user = ground (arith, left);
          timely = ground (arith, left);
          holds = same_secret c.user_id w.store.users.rows r x s owner e k;
          code = code;
          left = ground (arith, left);
        }
  ]

  -- A challenge is redeemed only if its row is there and not expired, the code is right for the secret
  -- of the user it was made for at the second reading of the clock, and that user is the answer;
  -- what is left is all but the challenge, or everything if the driver refuses the DELETE.
  pub redeem_challenge_ok :
      (i guess : String) (w : World Store) (u : User)
      → (redeem_challenge hotp i guess w).0 ≡ ok u
      → Redeems i guess w (redeem_challenge hotp i guess w).1 u
  unfolding redeem_challenge redeem_joined join_user
  redeem_challenge_ok i guess w u h =
      elim (Option-cases (find_first (has_id i) w.store.challenges)) [
        | inl e ↦ ground arith
        | inr (c, e) ↦ elim (Option-cases (find_first (has_user c.user_id) w.store.users.rows)) [
          | inl f ↦ ground arith
          | inr (r, f) ↦ redeem_found_ok i guess c r w u e f h
        ]
      ]

  -- A redeemed challenge is not redeemed again, whatever the code, if the driver took the DELETE and
  -- only other tables were written in between.
  pub redeem_challenge_once :
      (i guess again : String) (w v : World Store) (u x : User)
      → (redeem_challenge hotp i guess w).0 ≡ ok u
      → w.fault (suc (suc w.calls)) ≡ false
      → v.store ≡ (redeem_challenge hotp i guess w).1.store
      → (redeem_challenge hotp i again v).0 ≢ ok x
  unfolding delete_challenge
  redeem_challenge_once i guess again w v u x first up between second =
      let a = redeem_challenge_ok i guess w u first in
      let b = redeem_challenge_ok i again v x second in
      let gone : find_first (has_id i) v.store.challenges ≡ none =
        ground (arith, a.left, without-find i w.store.challenges, between) in
      ground (arith, gone, b.found)

-- From the enrolment on the second factor is on, although no code was confirmed: for a secret that is
-- not empty, a user whose row is there, tables of which only others were written in between, and
-- a driver that takes the query.
pub mfa_enabled-enroll_mfa :
    (secret answer : String) (r : UserRow) (w v : World Store)
    → (enroll_mfa (some secret) r.id w).0 ≡ ok answer
    → secret ≢ ""
    → find_first (has_user r.id) w.store.users.rows ≡ some r
    → v.store ≡ (enroll_mfa (some secret) r.id w).1.store
    → v.fault v.calls ≡ false
    → (mfa_enabled r.id v).0 ≡ ok true
unfolding enroll_mfa mfa_enabled enabled_of has_secret has_user update_secret update set_secret
mfa_enabled-enroll_mfa secret answer r w v enrolled full there between up =
    let found =
      find_first-update_where (has_user r.id) (set_secret (some secret)) w.store.users.rows r there
        (id_eq_refl r.id) in
    ground (arith, found, between, str_eq_iff secret "")
