-- ===== src/ApiTokens/Access.antt =====
-- Who gets in with which token.
use netmantle.Prelude.{
  ℕ, suc, ◌≡◌, ◌≢◌, ◌≤◌, refl, Bool, true, false, ◌&&◌, Option, none, some, List, [], ◌∷◌, ◌++◌, ℤ,
  pos, id_eq, id_eq_iff, str_eq_iff, String, find_first, count_where, update_where, arith, ap, sym,
  ◌∙◌, Option-cases, Bool-cases, inl, inr,
}
use netmantle.Prelude.Text.{Lacks, trim_space}
use netmantle.Db.{World, insert, ok, format_time, parse_time}
use netmantle.Db.Keys.{IsKeyed, count_where_gone}
use netmantle.ApiTokens.Format.{parse_token, format_token, parse-format}
use netmantle.Bcrypt.{Bcrypt}
use netmantle.ApiTokens.Service.{
  Token, TokenRow, Store, has_prefix, clashes, scan_token, revocable, revoke_row, revoke, verify,
  verify_before, authenticate_row, authenticate_parsed, authenticate, insert_token, issued_row,
  store_token, issue, issued, format_expiry,
}

-- A row that is found and satisfies a condition is counted.
find_first-count :
    (p q : TokenRow → Bool) (xs : List TokenRow) (r : TokenRow)
    → find_first p xs ≡ some r
    → q r ≡ true
    → count_where q xs ≢ 0
unfolding find_first count_where
find_first-count p q [] r h on = ground arith
find_first-count p q (x ∷ xs) r h on = elim (Bool-cases (p x)) [
  | inl e ↦
      let same : some x ≡ some r = (rw e at h) in
      let here : q x ≡ true = ground arith in ground arith
  | inr e ↦ ground (arith, find_first-count p q xs r (rw e at h) on)
]

module _ (bcrypt : Bcrypt) where
  -- An expiry that is still to come, to the second in which it lies.
  abbrev pub NotExpired : Option ℕ → ℕ → Type 0
  NotExpired none t = Unit
  NotExpired (some e) t = t ≤ parse_time e

  -- What a row must be to let a secret in.
  pub record Admits (r : TokenRow) (secret : String) (t : ℕ) : Type 0 where
    pub live : r.revoked_at ≡ none
    pub timely : NotExpired r.expires_at t
    pub right : bcrypt.matches r.secret_hash secret ≡ true

  verify_ok :
      (r : TokenRow) (secret : String) (w : World Store) (x : Token)
      → (verify bcrypt r secret w).0 ≡ ok x
      → (bcrypt.matches r.secret_hash secret ≡ true) × (x ≡ scan_token r)
  unfolding verify
  verify_ok r secret w x h = ground arith

  authenticate_row_ok :
      (r : TokenRow) (secret : String) (w : World Store) (x : Token)
      → (authenticate_row bcrypt r secret w).0 ≡ ok x
      → Admits r secret (w.clock w.reads) × (x ≡ scan_token r)
  unfolding authenticate_row verify_before
  authenticate_row_ok r secret w x h = (
    record {
      live = ground arith;
      timely = ground arith;
      right =
          ground (
            arith,
            verify_ok r secret w x,
            verify_ok r secret (record w { reads = suc w.reads }) x,
          );
    },
    ground (arith, verify_ok r secret w x, verify_ok r secret (record w { reads = suc w.reads }) x),
  )

  authenticate_parsed_ok :
      (prefix secret : String) (w : World Store) (x : Token)
      → (authenticate_parsed bcrypt prefix secret w).0 ≡ ok x
      → (r : TokenRow) × (find_first (has_prefix prefix) w.store.rows ≡ some r)
        × Admits r secret (w.clock w.reads)
        × (x ≡ scan_token r)
  unfolding authenticate_parsed
  authenticate_parsed_ok prefix secret w x h =
      elim (Option-cases (find_first (has_prefix prefix) w.store.rows)) [
        | inl e ↦ ground arith
        | inr (r, e) ↦
            let v : World Store = record w { calls = suc w.calls } in
            let there : (authenticate_row bcrypt r secret v).0 ≡ ok x = ground arith in
            let (admits, token) = authenticate_row_ok r secret v x there in (r, e, admits, token)
      ]

  -- What stands behind a token that is let in.
  pub record Opens (presented : String) (w : World Store) (x : Token) : Type 0 where
    pub prefix : String
    pub secret : String
    pub row : TokenRow
    pub parsed : parse_token presented ≡ some (prefix, secret)
    pub found : find_first (has_prefix prefix) w.store.rows ≡ some row
    pub admits : Admits row secret (w.clock w.reads)
    pub token : x ≡ scan_token row

  -- Whatever the driver refuses: a text is let in only if it parses, its prefix is that of a row, and
  -- the row is not revoked, not expired, and has a hash that the secret matches; the token returned is
  -- that of the row.
  pub authenticate_ok :
      (presented : String) (w : World Store) (x : Token)
      → (authenticate bcrypt presented w).0 ≡ ok x
      → Opens presented w x
  unfolding authenticate
  authenticate_ok presented w x h = elim (Option-cases (parse_token presented)) [
    | inl e ↦ ground arith
    | inr ((prefix, secret), e) ↦
        let (r, found, admits, token) = authenticate_parsed_ok prefix secret w x (ground arith) in
        record {
          prefix = prefix;
          secret = secret;
          row = r;
          parsed = e;
          found = found;
          admits = admits;
          token = token;
        }
  ]

  revoke_ok :
      (tenant i : ℤ) (w : World Store)
      → (revoke tenant i w).0 ≡ ok tt
      → (count_where (revocable tenant i) w.store.rows ≢ 0)
        × ((revoke tenant i w).1.store.rows
            ≡ update_where
                (revocable tenant i)
                (revoke_row (format_time (w.clock w.reads)))
                w.store.rows)
  unfolding revoke
  revoke_ok tenant i w h = (ground arith, ground arith)

  abbrev live_id : ℤ → TokenRow → Bool
  live_id i r = id_eq r.id i && elim r.revoked_at [ none ↦ true | some _ ↦ false ]

  no_live :
      (tenant i : ℤ) (at : ℕ) (t : Store)
      → IsKeyed (λ r. r.id) t
      → count_where (revocable tenant i) t.rows ≢ 0
      → count_where (live_id i) (update_where (revocable tenant i) (revoke_row at) t.rows) ≡ 0
  no_live tenant i at t keyed found =
      count_where_gone (λ (r : TokenRow). r.id) (revocable tenant i) (live_id i) (revoke_row at) i
        (λ x h. (id_eq_iff x.id i).0 (ground arith)) (λ x h. (id_eq_iff x.id i).0 (ground arith))
        (λ x. refl) (λ x h. ground arith) t.rows keyed.unique found

  -- Once `revoke` has returned without an error, no text is let in for that key, whatever the driver
  -- refuses, if only other tables were written in between.
  pub authenticate-revoke :
      (tenant i : ℤ) (w v : World Store) (presented : String) (x : Token)
      → IsKeyed (λ r. r.id) w.store
      → (revoke tenant i w).0 ≡ ok tt
      → v.store ≡ (revoke tenant i w).1.store
      → (authenticate bcrypt presented v).0 ≡ ok x
      → x.id ≢ i
  unfolding scan_token
  authenticate-revoke tenant i w v presented x keyed revoked between entered same =
      let (found, left) = revoke_ok tenant i w revoked in
      let o = authenticate_ok presented v x entered in
      let key : o.row.id ≡ i = sym (ap (λ (y : Token). y.id) o.token) ∙ same in
      let rows = ap (λ (s : Store). s.rows) between ∙ left in
      let on : live_id i o.row ≡ true = ground (arith, id_eq_iff o.row.id i, o.admits.live) in
      find_first-count (has_prefix o.prefix) (live_id i) v.store.rows o.row o.found on
        (ap (count_where (live_id i)) rows ∙ no_live tenant i _ w.store keyed found)

  -- Where nothing is refused, a row that admits the secret lets it in.
  authenticate_row_accepts :
      (r : TokenRow) (secret : String) (w : World Store)
      → Admits r secret (w.clock w.reads)
      → (authenticate_row bcrypt r secret w).0 ≡ ok (scan_token r)
  unfolding authenticate_row verify_before verify
  authenticate_row_accepts r secret w a = ground (arith, a.live, a.timely, a.right)

  -- What `issue` has done when it returns a token.
  record Issues (tenant owner : ℤ) (name : String) (scopes : List String) (expires : Option ℕ)
      (prefix secret salt : String) (w v : World Store) (tok : Token) (text : String) : Type 0 where
    h : String
    hashed : bcrypt.hash salt secret ≡ some h
    free : find_first (clashes tenant (trim_space name) prefix) w.store.rows ≡ none
    written : text ≡ format_token prefix secret
    rows :
        v.store.rows
        ≡ w.store.rows
          ++ issued_row tenant owner
              (trim_space name)
              prefix
              h
              scopes
              (format_time (w.clock w.reads))
              expires
              (pos w.store.next_id)
            ∷ []
    made :
        tok
        ≡ issued tenant owner
            (trim_space name)
            prefix
            scopes
            (w.clock w.reads)
            expires
            (pos w.store.next_id)

  issue_ok :
      (tenant owner : ℤ) (name : String) (scopes : List String) (expires : Option ℕ)
      (prefix secret salt : String) (w : World Store) (tok : Token) (text : String)
      → (issue bcrypt tenant owner name scopes expires (some (prefix, secret)) salt w).0
        ≡ ok (tok, text)
      → Issues tenant owner name scopes expires prefix secret salt w
          (issue bcrypt tenant owner name scopes expires (some (prefix, secret)) salt w).1
          tok
          text
  unfolding issue store_token insert_token insert
  issue_ok tenant owner name scopes expires prefix secret salt w tok text got =
      elim (Option-cases (bcrypt.hash salt secret)) [
        | inl e ↦ ground arith
        | inr (h, e) ↦ record {
          h = h;
          hashed = e;
          free = ground arith;
          written = ground arith;
          rows = ground arith;
          made = ground arith;
        }
      ]

  issued_found :
      (tenant : ℤ) (name prefix : String) (xs : List TokenRow) (r : TokenRow)
      → find_first (clashes tenant name prefix) xs ≡ none
      → r.prefix ≡ prefix
      → find_first (has_prefix prefix) (xs ++ r ∷ []) ≡ some r
  unfolding find_first
  issued_found tenant name prefix [] r free own = ground (arith, str_eq_iff r.prefix prefix)
  issued_found tenant name prefix (x ∷ xs) r free own =
      ground (arith, issued_found tenant name prefix xs r)

  authenticate_accepts :
      (prefix secret : String) (r : TokenRow) (v : World Store)
      → parse_token (format_token prefix secret) ≡ some (prefix, secret)
      → v.fault v.calls ≡ false
      → find_first (has_prefix prefix) v.store.rows ≡ some r
      → Admits r secret (v.clock v.reads)
      → (authenticate bcrypt (format_token prefix secret) v).0 ≡ ok (scan_token r)
  unfolding authenticate authenticate_parsed
  authenticate_accepts prefix secret r v parsed up found a =
      ground (arith, authenticate_row_accepts r secret (record v { calls = suc v.calls }) a)

  -- What `issue` hands out `authenticate` lets in up to the start of the second of the expiry, or at any
  -- time if there is none, for a prefix and a secret that are not empty and a prefix without an
  -- underscore, where only other tables were written in between and the driver takes the query: the
  -- token returned has the key, the tenant and the owner of the one issued.
  pub authenticate-issue :
      (tenant owner : ℤ) (name : String) (scopes : List String) (expires : Option ℕ)
      (prefix secret salt : String) (w v : World Store) (tok : Token) (text : String)
      → Lacks b'_' prefix
      → prefix ≢ ""
      → secret ≢ ""
      → (issue bcrypt tenant owner name scopes expires (some (prefix, secret)) salt w).0
        ≡ ok (tok, text)
      → v.store
        ≡ (issue bcrypt tenant owner name scopes expires (some (prefix, secret)) salt w).1.store
      → v.fault v.calls ≡ false
      → NotExpired (format_expiry expires) (v.clock v.reads)
      → (x : Token) × ((authenticate bcrypt text v).0 ≡ ok x)
        × (x.id ≡ tok.id)
        × (x.tenant_id ≡ tok.tenant_id)
        × (x.owner_user_id ≡ tok.owner_user_id)
  unfolding scan_token issued_row
  authenticate-issue tenant owner name scopes expires prefix secret salt w v tok text clean p s got
        between up timely =
      let o = issue_ok tenant owner name scopes expires prefix secret salt w tok text got in
      let row =
        issued_row tenant owner (trim_space name) prefix o.h scopes (format_time (w.clock w.reads))
          expires (pos w.store.next_id) in
      let rows = ap (λ (t : Store). t.rows) between ∙ o.rows in
      let found =
        ap (find_first (has_prefix prefix)) rows
        ∙ issued_found tenant (trim_space name) prefix w.store.rows row o.free refl in
      let admits : Admits row secret (v.clock v.reads) = record {
        live = refl;
        timely = timely;
        right = bcrypt.matches-hash salt secret o.h o.hashed;
      } in
      (
        scan_token row,
        ap (λ u. (authenticate bcrypt u v).0) o.written
            ∙ authenticate_accepts prefix secret row v (parse-format prefix secret clean p s) up
                found admits,
        sym (ap (λ (y : Token). y.id) o.made),
        sym (ap (λ (y : Token). y.tenant_id) o.made),
        sym (ap (λ (y : Token). y.owner_user_id) o.made),
      )
