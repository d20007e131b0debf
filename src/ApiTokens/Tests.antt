-- ===== src/ApiTokens/Tests.antt =====
-- A token on its way: issued, presented, revoked.
use netmantle.Prelude.{
  ◌≡◌, ◌≢◌, refl, true, false, none, some, [], ◌∷◌, pos, id_eq, positive, str_eq, str_eq_iff,
  String, find_first, count_where, update_where, arith,
}
use netmantle.Prelude.Text.{Lacks, join_commas}
use netmantle.Db.{empty_table, ok, format_time, parse_time}
use netmantle.Db.Samples.{calm}
use netmantle.Db.Keys.{IsKeyed}
use netmantle.ApiTokens.Format.{format_token, parse_token, normalise_scopes, parse_scopes}
use netmantle.Bcrypt.{Bcrypt}
use netmantle.ApiTokens.Service.{
  format_expiry, authenticate_parsed, authenticate_row, bad_input, insert_token, store_token,
  verify, verify_before, Token, TokenRow, Store, issued, issued_row, issue, revoke, authenticate,
  scan_token,
}
use netmantle.ApiTokens.Access.{Opens, authenticate_ok, authenticate-revoke, authenticate-issue}

plain_matches : (s h : String) → some s ≡ some h → str_eq h s ≡ true
plain_matches s h e = ground (arith, str_eq_iff h s)

-- A hash that is the text itself.
abbrev plain : Bcrypt
plain = record {
  hash = λ salt s. some s;
  matches = λ h s. str_eq h s;
  matches-hash = λ salt s h e. plain_matches s h e;
}

-- A scope that holds a comma comes back split, here into the wildcard.
split_scope : parse_scopes (join_commas (normalise_scopes ("read,*" ∷ []))) ≡ "read" ∷ "*" ∷ []
unfolding parse_scopes normalise_scopes join_commas
split_scope = refl

abc-Lacks : Lacks b'_' "abc"
abc-Lacks = (refl, (refl, (refl, tt)))

not_empty : (s : String) → str_eq s "" ≡ false → s ≢ ""
not_empty s h e = ground (arith, str_eq_iff s "")

abbrev grafana : TokenRow
grafana =
    issued_row (pos 1) (pos 7) "grafana" "abc" "x_y" ("read" ∷ []) 900 (some 2000000000000) (pos 1)

abbrev issued_store : Store
issued_store = record { rows = grafana ∷ []; next_id = 2 }

issued_store-IsKeyed : IsKeyed (λ (r : TokenRow). r.id) issued_store
unfolding issued_row
issued_store-IsKeyed = record { unique = (tt, tt); below = (ground arith, tt) }

enters : (authenticate plain "nmt_abc_x_y" (calm issued_store)).0 ≡ ok (scan_token grafana)
unfolding authenticate parse_token authenticate_parsed find_first issued_row authenticate_row
    verify_before format_time verify
enters = refl

authenticate_ok_example : Opens plain "nmt_abc_x_y" (calm issued_store) (scan_token grafana)
authenticate_ok_example =
    authenticate_ok plain "nmt_abc_x_y" (calm issued_store) (scan_token grafana) enters

-- Another token of the tenant stays.
abbrev other : TokenRow
other = issued_row (pos 1) (pos 7) "other" "xyz" "s" [] 900 none (pos 2)

abbrev two : Store
two = record { rows = grafana ∷ other ∷ []; next_id = 3 }

two-IsKeyed : IsKeyed (λ (r : TokenRow). r.id) two
unfolding issued_row id_eq
two-IsKeyed = record { unique = ((refl, tt), (tt, tt)); below = (ground arith, (ground arith, tt)) }

abbrev revoked_store : Store
revoked_store = (revoke (pos 1) (pos 2) (calm two)).1.store

revokes : (revoke (pos 1) (pos 2) (calm two)).0 ≡ ok tt
unfolding revoke count_where id_eq issued_row
revokes = refl

still_enters : (authenticate plain "nmt_abc_x_y" (calm revoked_store)).0 ≡ ok (scan_token grafana)
unfolding authenticate revoke parse_token authenticate_parsed find_first count_where id_eq
    issued_row update_where authenticate_row verify_before format_time verify
still_enters = refl

authenticate-revoke_example : (scan_token grafana).id ≢ pos 2
authenticate-revoke_example =
    authenticate-revoke plain (pos 1) (pos 2) (calm two) (calm revoked_store) "nmt_abc_x_y"
      (scan_token grafana) two-IsKeyed revokes refl still_enters

abbrev no_tokens : Store
no_tokens = empty_table

abbrev grafana_token : Token
grafana_token =
    issued (pos 1) (pos 7) "grafana" "abc" ("read" ∷ []) 1000000000000 (some 2000000000000) (pos 1)

issues_token :
    (issue plain
      (pos 1)
      (pos 7)
      "grafana"
      ("read" ∷ [])
      (some 2000000000000)
      (some ("abc", "x_y"))
      ""
      (calm no_tokens)).0
    ≡ ok (grafana_token, "nmt_abc_x_y")
unfolding issue bad_input positive store_token insert_token find_first format_token
issues_token = refl

abbrev stored : Store
stored =
    (issue plain (pos 1) (pos 7) "grafana" ("read" ∷ []) (some 2000000000000) (some ("abc", "x_y"))
      "" (calm no_tokens)).1.store

authenticate-issue_example :
    (x : Token) × ((authenticate plain "nmt_abc_x_y" (calm stored)).0 ≡ ok x)
    × (x.id ≡ pos 1)
    × (x.tenant_id ≡ pos 1)
    × (x.owner_user_id ≡ pos 7)
unfolding format_time format_expiry parse_time
authenticate-issue_example =
    authenticate-issue plain (pos 1) (pos 7) "grafana" ("read" ∷ []) (some 2000000000000) "abc"
      "x_y" "" (calm no_tokens) (calm stored) grafana_token "nmt_abc_x_y" abc-Lacks
      (not_empty "abc" refl) (not_empty "x_y" refl) issues_token refl refl (ground arith)
