-- ===== src/Auth/Login.antt =====
-- The handlers of internal/api/server.go that start and end a session. A request is what its body
-- decodes to; the answer is what stands in the body or the cookie of the response.
use netmantle.Prelude.{ℕ, Bool, false, Option, none, some, String, if◌then◌else◌}
use netmantle.Db.{Db, ok, err, pure, fail, ignore, ◌>>=◌, no_cookie}
use netmantle.Bcrypt.{Bcrypt}
use netmantle.Auth.Users.{User, Store, authenticate}
use netmantle.Auth.Sessions.{create_session, lookup_session, destroy_session}
use netmantle.Auth.Totp.{Hotp}
use netmantle.Auth.Mfa.{mfa_enabled, create_challenge, redeem_challenge}

pub data Answer : Type 0 where
  challenged : String → Answer
  entered : User → String → ℕ → Answer

-- `mfaOn, _ := …`: an error counts as false.
abbrev pub or_false : Db Store Bool → Db Store Bool
or_false m w = (ok (elim (m w).0 [ ok b ↦ b | err _ ↦ false ]), (m w).1)

unfoldable pub challenge : Option String → User → Db Store Answer
challenge drawn u = do i ← create_challenge drawn u.id; pure (challenged i)

module _ (sign : String → String) (ttl : ℕ) where
  unfoldable pub enter : Option String → User → Db Store Answer
  enter drawn u = do made ← create_session sign ttl drawn u.id; pure (entered u made.0 made.1)

  unfoldable pub login : Bcrypt → Option String → String → String → Db Store Answer
  login bcrypt drawn name pw = do
    u ← authenticate bcrypt name pw
    on ← or_false (mfa_enabled u.id)
    if on then challenge drawn u else enter drawn u

  unfoldable pub verify_mfa : Hotp → Option String → String → String → Db Store Answer
  verify_mfa hotp drawn i guess = do u ← redeem_challenge hotp i guess; enter drawn u

module _ (sign : String → String) where
  -- The cookie of the request, if it has one.
  unfoldable pub logout : Option String → Db Store Unit
  unfolding destroy_session
  logout none = pure tt
  logout (some cookie) = ignore (destroy_session sign cookie)

  -- Whom the middleware requireAuth lets through without an API token.
  unfoldable pub cookie_user : Option String → Db Store User
  unfolding lookup_session
  cookie_user none = fail no_cookie
  cookie_user (some cookie) = lookup_session sign cookie
