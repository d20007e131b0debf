-- ===== src/Auth/Cookies.antt =====
-- Which cookies open a session.
use netmantle.Prelude.{
  ℕ, suc, ◌+◌, ◌≤◌, ◌≡◌, ◌≢◌, refl, false, none, some, List, [], ◌∷◌, ℤ, String, str_eq_iff, ltb,
  if◌then◌else◌, find_first, find_first_sound, find_first_last, arith, ap, sym, ◌∙◌, Option-cases,
  inl, inr,
}
use netmantle.Prelude.Text.{Lacks, cut, cut-append, cut_inverse, dot_char, split_n}
use netmantle.Db.{World, Table, ok, err, parse_time, format_time, invalid_session}
use netmantle.Auth.Users.{User, UserRow, Ticket, Store, has_id, has_user, without, scan_user}
use netmantle.Auth.Sessions.{
  sign_cookie, unsign_cookie, ticket, insert_ticket, insert_session, join_user, create_session,
  open_until, open_found, lookup_id, lookup_session, destroy_session, delete_session,
}

record Found (i : String) (w : World Store) (u : User) : Type 0 where
  session : Ticket
  row : UserRow
  kept : find_first (has_id i) w.store.sessions ≡ some session
  owner : find_first (has_user session.user_id) w.store.users.rows ≡ some row
  timely : w.clock w.reads ≤ parse_time session.expires_at
  user : u ≡ scan_user row

lookup_id_ok : (i : String) (w : World Store) (u : User) → (lookup_id i w).0 ≡ ok u → Found i w u
unfolding lookup_id open_found open_until join_user
lookup_id_ok i w u h = elim (Option-cases (find_first (has_id i) w.store.sessions)) [
  | inl e ↦ ground arith
  | inr (s, e) ↦ elim (Option-cases (find_first (has_user s.user_id) w.store.users.rows)) [
    | inl f ↦ ground arith
    | inr (r, f) ↦ record {
      session = s;
      row = r;
      kept = e;
      owner = f;
      timely = ground arith;
      user = ground arith;
    }
  ]
]

found_id :
    (i : String) (ts : List Ticket) (t : Ticket) → find_first (has_id i) ts ≡ some t → t.id ≡ i
unfolding has_id
found_id i ts t h = (str_eq_iff t.id i).0 (find_first_sound (has_id i) ts t h)

pub without-find : (i : String) (ts : List Ticket) → find_first (has_id i) (without i ts) ≡ none
unfolding without find_first
without-find i [] = refl
without-find i (t ∷ ts) = ground (arith, without-find i ts)

module _ (sign : String → String) where
  unsign-sign : (i : String) → Lacks b'.' i → unsign_cookie sign (sign_cookie sign i) ≡ some i
  unfolding unsign_cookie sign_cookie split_n
  unsign-sign i h = ground (
    arith,
    dot_char (sign i),
    cut-append b'.' "." i (sign i) h refl,
    str_eq_iff (sign i) (sign i),
  )

  unsign_ok : (cookie i : String) → unsign_cookie sign cookie ≡ some i → cookie ≡ sign_cookie sign i
  unfolding unsign_cookie sign_cookie split_n
  unsign_ok cookie i h = elim (Option-cases (cut b'.' cookie)) [
    | inl e ↦ ground arith
    | inr ((a, b), e) ↦
        ground (arith, cut_inverse b'.' "." cookie a b refl e, dot_char b, str_eq_iff (sign a) b)
  ]

  -- What stands behind a cookie that opens a session.
  pub record Opens (cookie : String) (w : World Store) (u : User) : Type 0 where
    pub session : Ticket
    pub row : UserRow
    pub signed : cookie ≡ sign_cookie sign session.id
    pub kept : find_first (has_id session.id) w.store.sessions ≡ some session
    pub owner : find_first (has_user session.user_id) w.store.users.rows ≡ some row
    pub timely : w.clock w.reads ≤ parse_time session.expires_at
    pub user : u ≡ scan_user row

  -- A cookie opens a session only if it carries the signature of the key of a row of sessions, that row
  -- is not expired, and the user returned is the one it belongs to, whatever the driver refuses.
  pub lookup_session_ok :
      (cookie : String) (w : World Store) (u : User)
      → (lookup_session sign cookie w).0 ≡ ok u
      → Opens cookie w u
  unfolding lookup_session
  lookup_session_ok cookie w u h = elim (Option-cases (unsign_cookie sign cookie)) [
    | inl e ↦ ground arith
    | inr (i, e) ↦
        let f = lookup_id_ok i w u (ground arith) in
        record {
          session = f.session;
          row = f.row;
          signed =
              unsign_ok cookie i e
              ∙ ap (sign_cookie sign) (sym (found_id i w.store.sessions f.session f.kept));
          kept =
              ap (λ j. find_first (has_id j) w.store.sessions)
                (found_id i w.store.sessions f.session f.kept)
              ∙ f.kept;
          owner = f.owner;
          timely = f.timely;
          user = f.user;
        }
  ]

  create_session_ok :
      (ttl : ℕ) (i : String) (user : ℤ) (w : World Store) (cookie : String) (expiry : ℕ)
      → (create_session sign ttl (some i) user w).0 ≡ ok (cookie, expiry)
      → (cookie ≡ sign_cookie sign i)
        × (expiry ≡ w.clock w.reads + ttl)
        × ((create_session sign ttl (some i) user w).1.store.users ≡ w.store.users)
        × (find_first (has_id i) (create_session sign ttl (some i) user w).1.store.sessions
            ≡ some (ticket i user (w.clock w.reads) expiry))
  unfolding create_session insert_session insert_ticket ticket has_id
  create_session_ok ttl i user w cookie expiry h =
      elim (Option-cases (find_first (has_id i) w.store.sessions)) [
        | inl e ↦ (
          ground arith,
          ground arith,
          ground arith,
          ground (
            arith,
            find_first_last (has_id i) w.store.sessions
                (ticket i user (w.clock w.reads) (w.clock w.reads + ttl)) e,
            str_eq_iff i i,
          ),
        )
        | inr (s, e) ↦ ground arith
      ]

  open_until_lem :
      (i : String) (s : Ticket) (r : UserRow) (t : ℕ) (w : World Store)
      → (open_until i (s, r) t w).0
        ≡ (if ltb (parse_time s.expires_at) t then err invalid_session else ok (scan_user r))
  unfolding open_until
  open_until_lem i s r t w = ground arith

  lookup_id_lem :
      (i : String) (s : Ticket) (r : UserRow) (w : World Store)
      → w.fault w.calls ≡ false
      → find_first (has_id i) w.store.sessions ≡ some s
      → find_first (has_user s.user_id) w.store.users.rows ≡ some r
      → (lookup_id i w).0 ≡ (
          if ltb (parse_time s.expires_at) (w.clock w.reads)
          then err invalid_session
          else ok (scan_user r))
  unfolding lookup_id join_user open_found
  lookup_id_lem i s r w up kept owner = ground (
    arith,
    open_until_lem i s r (w.clock w.reads) (record w { calls = suc w.calls; reads = suc w.reads }),
  )

  -- The cookie of a new session opens it for its user until the second of its expiry, which is the
  -- lifetime after its creation, and for nobody afterwards; for an id without a full stop, if the
  -- user's row is there, only other tables were written in between, and the driver takes the query.
  pub lookup-create_session :
      (ttl : ℕ) (i : String) (r : UserRow) (w v : World Store) (cookie : String) (expiry : ℕ)
      → Lacks b'.' i
      → (create_session sign ttl (some i) r.id w).0 ≡ ok (cookie, expiry)
      → find_first (has_user r.id) w.store.users.rows ≡ some r
      → v.store ≡ (create_session sign ttl (some i) r.id w).1.store
      → v.fault v.calls ≡ false
      → (expiry ≡ w.clock w.reads + ttl)
        × ((lookup_session sign cookie v).0 ≡ (
            if ltb (parse_time (format_time expiry)) (v.clock v.reads)
            then err invalid_session
            else ok (scan_user r)))
  unfolding lookup_session ticket
  lookup-create_session ttl i r w v cookie expiry clean made owner between up =
      let (c, t, users, kept) = create_session_ok ttl i r.id w cookie expiry made in
      let kept' = ap (λ (s : Store). find_first (has_id i) s.sessions) between ∙ kept in
      let owner' =
        ap (λ (s : Store). find_first (has_user r.id) s.users.rows) between
        ∙ ap (λ (u : Table UserRow). find_first (has_user r.id) u.rows) users
        ∙ owner in
      (
        t,
        ground (
          arith,
          c,
          unsign-sign i clean,
          lookup_id_lem i (ticket i r.id (w.clock w.reads) expiry) r v up kept' owner',
        ),
      )

  -- Once `destroy_session` has returned without an error, its cookie opens nothing, whatever the driver
  -- refuses and whatever the cookie is, if only other tables were written in between.
  pub lookup-destroy_session :
      (cookie : String) (w v : World Store) (u : User)
      → (destroy_session sign cookie w).0 ≡ ok tt
      → v.store ≡ (destroy_session sign cookie w).1.store
      → (lookup_session sign cookie v).0 ≢ ok u
  unfolding destroy_session lookup_session delete_session
  lookup-destroy_session cookie w v u done between h =
      elim (Option-cases (unsign_cookie sign cookie)) [
        | inl e ↦ ground arith
        | inr (i, e) ↦
            let f = lookup_id_ok i v u (ground arith) in
            let gone : find_first (has_id i) v.store.sessions ≡ none =
              ground
                (arith, without-find i w.store.sessions, ap (λ (s : Store). s.sessions) between) in
            ground (arith, gone, f.kept)
      ]
