-- ===== src/Auth/Entry.antt =====
-- When a login with a password needs no second factor.
use netmantle.Prelude.{
  ℕ, suc, ◌+◌, ◌≡◌, refl, Bool, true, false, Option, none, some, String, find_first, arith, ap, ◌∙◌,
  ℤ, if◌then◌else◌, Option-cases, inl, inr,
}
use netmantle.Db.{World, ok, err}
use netmantle.Db.Rules.{Result-cases}
use netmantle.Bcrypt.{Bcrypt}
use netmantle.Auth.Users.{
  User, UserRow, Store, has_id, has_user, has_name, authenticate, check_password,
}
use netmantle.Auth.Sessions.{sign_cookie, insert_session, insert_ticket, create_session, ticket}
use netmantle.Auth.Mfa.{has_secret, mfa_enabled, enabled_of, create_challenge}
use netmantle.Auth.Login.{entered, enter, challenge, login}

authenticate_reads :
    (bcrypt : Bcrypt) (name pw : String) (w : World Store)
    → (authenticate bcrypt name pw w).1 ≡ record w { calls = suc w.calls }
unfolding authenticate check_password
authenticate_reads bcrypt name pw w =
    elim (Option-cases (find_first (has_name name) w.store.users.rows)) [
      | inl e ↦ ground arith
      | inr (r, e) ↦ ground arith
    ]

mfa_enabled_lem :
    (user : ℤ) (r : UserRow) (w : World Store)
    → w.fault w.calls ≡ false
    → find_first (has_user user) w.store.users.rows ≡ some r
    → (mfa_enabled user w).0 ≡ ok (has_secret r.totp_secret)
unfolding mfa_enabled enabled_of
mfa_enabled_lem user r w up row = ground arith

module _ (sign : String → String) (ttl : ℕ) where
  challenge_answer :
      (drawn : Option String) (u x : User) (cookie : String) (until : ℕ) (w : World Store)
      → (challenge drawn u w).0 ≡ ok (entered x cookie until)
      → ⊥
  unfolding challenge
  challenge_answer drawn u x cookie until w h =
      elim (Result-cases (create_challenge drawn u.id w).0) [
        | inl (i, e) ↦ ground arith
        | inr (f, e) ↦ ground arith
      ]

  enter_answer :
      (drawn : Option String) (u x : User) (cookie : String) (until : ℕ) (w : World Store)
      → (enter sign ttl drawn u w).0 ≡ ok (entered x cookie until)
      → u ≡ x
  unfolding enter
  enter_answer drawn u x cookie until w h =
      elim (Result-cases (create_session sign ttl drawn u.id w).0) [
        | inl (i, e) ↦ ground arith
        | inr (f, e) ↦ ground arith
      ]

  choose_answer :
      (on : Bool) (drawn : Option String) (u x : User) (cookie : String) (until : ℕ)
      (w : World Store)
      → ((if on then challenge drawn u else enter sign ttl drawn u) w).0
        ≡ ok (entered x cookie until)
      → (on ≡ false) × (u ≡ x)
  choose_answer true drawn u x cookie until w h =
      absurd (challenge_answer drawn u x cookie until w h)
  choose_answer false drawn u x cookie until w h = (refl, enter_answer drawn u x cookie until w h)

  -- A password alone enters only an account without a secret for the second factor, if the driver takes
  -- the query for that secret.
  pub login_guarded :
      (bcrypt : Bcrypt) (drawn : Option String) (name pw : String) (w : World Store) (u : User)
      (r : UserRow) (cookie : String) (until : ℕ)
      → (login sign ttl bcrypt drawn name pw w).0 ≡ ok (entered u cookie until)
      → w.fault (suc w.calls) ≡ false
      → find_first (has_user u.id) w.store.users.rows ≡ some r
      → has_secret r.totp_secret ≡ false
  unfolding login
  login_guarded bcrypt drawn name pw w u r cookie until h up row =
      elim (Result-cases (authenticate bcrypt name pw w).0) [
        | inr (f, e) ↦ ground arith
        | inl (x, e) ↦
            let v : World Store = record w { calls = suc w.calls } in
            let m = mfa_enabled x.id v in
            let on : Bool = elim m.0 [ ok b ↦ b | err _ ↦ false ] in
            let (off, same) =
              choose_answer on drawn x u cookie until m.1
                (ground (arith, authenticate_reads bcrypt name pw w)) in
            let known =
              mfa_enabled_lem x.id r v up
                (ap (λ (y : User). find_first (has_user y.id) w.store.users.rows) same ∙ row) in
            ground (arith, known)
      ]

  -- If the driver refuses that query, the password alone enters every account, whatever its second
  -- factor: for an id that no session has, and a driver that takes the INSERT.
  pub login_open :
      (bcrypt : Bcrypt) (i name pw : String) (w : World Store) (u : User)
      → (authenticate bcrypt name pw w).0 ≡ ok u
      → w.fault (suc w.calls) ≡ true
      → w.fault (suc (suc w.calls)) ≡ false
      → find_first (has_id i) w.store.sessions ≡ none
      → (login sign ttl bcrypt (some i) name pw w).0
        ≡ ok (entered u (sign_cookie sign i) (w.clock w.reads + ttl))
  unfolding login mfa_enabled enter create_session insert_session insert_ticket ticket
  login_open bcrypt i name pw w u known down up free =
      ground (arith, authenticate_reads bcrypt name pw w)
