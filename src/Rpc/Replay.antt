-- ===== src/Rpc/Replay.antt =====
-- How long a request that was heard can be sent again.
use netmantle.Prelude.{
  ℕ, ◌+◌, ◌-◌, ◌*◌, ◌⊎◌, ◌↔◌, leb, ltb, ◌≤◌, ◌<◌, ◌≡◌, true, false, none, some, List, [], ◌∷◌, ℤ,
  String, str_eq, str_eq_iff, arith, ap, sym, subst, suc, pos, negsuc, ◌≢◌, ◌∙◌, Bool-cases, inl,
  inr, All,
}
use netmantle.Db.{second}
use netmantle.Rpc.Cache.{
  Server, nonce_ttl, live_nonces, gc_due, collect, put_nonce, is_used, use_collected, try_use_nonce,
}
use netmantle.Rpc.Service.{
  Request, max_duration, capped, time_sub, abs_skew, within_minute, is_fresh, admit, admit_token,
  admit_nonce, bearer_token,
}

collect_keeps :
    (k : String) (t expiry : ℕ) (s : Server)
    → s.nonces k ≡ some expiry
    → t < expiry
    → (collect t s).nonces k ≡ some expiry
unfolding collect live_nonces
collect_keeps k t expiry s kept soon = elim (Bool-cases (gc_due t s.nonce_gc)) [
  | inl e ↦ rw e (ground (arith, kept))
  | inr e ↦ rw e kept
]

use_collected_keeps :
    (key k : String) (t expiry : ℕ) (s : Server)
    → s.nonces k ≡ some expiry
    → t < expiry
    → (use_collected key t s).1.nonces k ≡ some expiry
unfolding use_collected put_nonce is_used
use_collected_keeps key k t expiry s kept soon = elim (Bool-cases (str_eq key k)) [
  | inl e ↦ let there = ap s.nonces ((str_eq_iff key k).0 e) ∙ kept in ground (arith, there)
  | inr e ↦ ground arith
]

try_use_nonce_keeps :
    (key k : String) (t expiry : ℕ) (s : Server)
    → s.nonces k ≡ some expiry
    → t < expiry
    → (try_use_nonce key t s).1.nonces k ≡ some expiry
unfolding try_use_nonce
try_use_nonce_keeps key k t expiry s kept soon =
    use_collected_keeps key k t expiry (collect t s) (collect_keeps k t expiry s kept soon) soon

try_use_nonce_puts :
    (key : String) (t : ℕ) (s : Server)
    → (try_use_nonce key t s).0 ≡ true
    → (try_use_nonce key t s).1.nonces key ≡ some (t + nonce_ttl)
unfolding try_use_nonce use_collected put_nonce
try_use_nonce_puts key t s h = ground (arith, str_eq_iff key key)

try_use_nonce_used :
    (key : String) (t expiry : ℕ) (s : Server)
    → s.nonces key ≡ some expiry
    → t < expiry
    → (try_use_nonce key t s).0 ≡ false
unfolding try_use_nonce use_collected is_used
try_use_nonce_used key t expiry s kept soon =
    let there = collect_keeps key t expiry s kept soon in ground (arith, there)

-- The server after other requests, each a nonce and the time at which it is tried.
unfoldable pub after_requests : List (String × ℕ) → Server → Server
after_requests [] s = s
after_requests ((key, t) ∷ more) s = after_requests more (try_use_nonce key t s).1

after_requests_keeps :
    (rs : List (String × ℕ)) (k : String) (expiry : ℕ) (s : Server)
    → s.nonces k ≡ some expiry
    → All (λ (r : String × ℕ). r.1 < expiry) rs
    → (after_requests rs s).nonces k ≡ some expiry
unfolding after_requests
after_requests_keeps [] k expiry s h soon = h
after_requests_keeps ((key, t) ∷ more) k expiry s h soon =
    after_requests_keeps more k expiry (try_use_nonce key t s).1
      (try_use_nonce_keeps key k t expiry s h soon.0) soon.1

-- A nonce that was taken is refused for the 60 seconds that follow, whatever other nonces are tried in
-- between, expired ones removed included.
pub try_use_nonce_once :
    (key : String) (t u : ℕ) (rs : List (String × ℕ)) (s : Server)
    → (try_use_nonce key t s).0 ≡ true
    → All (λ (r : String × ℕ). r.1 < t + nonce_ttl) rs
    → u < t + nonce_ttl
    → (try_use_nonce key u (after_requests rs (try_use_nonce key t s).1)).0 ≡ false
try_use_nonce_once key t u rs s first soon now =
    try_use_nonce_used key u (t + nonce_ttl) (after_requests rs (try_use_nonce key t s).1)
      (after_requests_keeps rs key (t + nonce_ttl) (try_use_nonce key t s).1
        (try_use_nonce_puts key t s first) soon)
      now

module _ (t client : ℕ) where
  within_minute_past :
      (within_minute (abs_skew (pos (capped (t - client)))) ≡ true) ↔ (t - client ≤ 60 * second)
  unfolding within_minute abs_skew capped
  within_minute_past = ground arith

  within_minute_future :
      (within_minute (abs_skew (negsuc (capped (client - t - 1)))) ≡ true)
      ↔ ((suc (client - t - 1) ≤ 60 * second) ⊎ (max_duration ≤ client - t - 1))
  unfolding within_minute abs_skew capped
  within_minute_future = elim (Bool-cases (ltb max_duration (client - t - 1))) [
    | inl far ↦ ground arith
    | inr near ↦ ground arith
  ]

  -- What the test of the clock lets through: a distance of at most 60 seconds, or a time that is so
  -- far ahead that its distance does not fit a duration.
  is_fresh_iff :
      (is_fresh t client ≡ true)
      ↔ (((t ≤ client + 60 * second) × (client ≤ t + 60 * second)) ⊎ (t + max_duration < client))
  unfolding is_fresh time_sub
  is_fresh_iff = elim (Bool-cases (leb client t)) [
    | inl e ↦ rw e (ground (arith, within_minute_past, e))
    | inr e ↦ rw e (ground (arith, within_minute_future, e))
  ]

-- Whether the nonce is free after the time of its entry.
abbrev IsOver : String → ℕ → Server → Type 0
IsOver k expiry s = (s.nonces k ≡ none) ⊎ (s.nonces k ≡ some expiry)

collect-IsOver :
    (k : String) (t expiry : ℕ) (s : Server) → IsOver k expiry s → IsOver k expiry (collect t s)
unfolding collect live_nonces
collect-IsOver k t expiry s (inl e) = inl (ground arith)
collect-IsOver k t expiry s (inr e) = elim (Bool-cases (gc_due t s.nonce_gc)) [
  | inl due ↦ elim (Bool-cases (ltb expiry t)) [
    | inl gone ↦ inl (ground arith)
    | inr kept ↦ inr (ground arith)
  ]
  | inr early ↦ inr (ground arith)
]

try_use_nonce_other :
    (key k : String) (t : ℕ) (s : Server)
    → key ≢ k
    → (try_use_nonce key t s).1.nonces k ≡ (collect t s).nonces k
unfolding try_use_nonce use_collected put_nonce
try_use_nonce_other key k t s other = ground (arith, str_eq_iff key k)

after_requests-IsOver :
    (rs : List (String × ℕ)) (k : String) (expiry : ℕ) (s : Server)
    → All (λ (r : String × ℕ). r.0 ≢ k) rs
    → IsOver k expiry s
    → IsOver k expiry (after_requests rs s)
unfolding after_requests
after_requests-IsOver [] k expiry s others h = h
after_requests-IsOver ((key, t) ∷ more) k expiry s others h =
    after_requests-IsOver more k expiry (try_use_nonce key t s).1 others.1 (
      subst (λ o. (o ≡ none) ⊎ (o ≡ some expiry)) (sym (try_use_nonce_other key k t s others.0))
        (collect-IsOver k t expiry s h))

try_use_nonce-IsOver :
    (k : String) (t expiry : ℕ) (s : Server)
    → IsOver k expiry s
    → expiry ≤ t
    → (try_use_nonce k t s).0 ≡ true
unfolding try_use_nonce use_collected is_used
try_use_nonce-IsOver k t expiry s h over = elim (collect-IsOver k t expiry s h) [
  | inl e ↦ ground arith
  | inr e ↦ ground arith
]

module _ (key : ℤ → String → String → String) where
  admit_ok :
      (r : Request) (client t : ℕ) (s : Server)
      → (admit key r client t s).0 ≡ none
      → (is_fresh t client ≡ true)
        × (str_eq (bearer_token r.authorization) "" ≡ false)
        × ((try_use_nonce (key r.tenant_id r.poller_name r.nonce) t s).0 ≡ true)
        × ((admit key r client t s).1
            ≡ (try_use_nonce (key r.tenant_id r.poller_name r.nonce) t s).1)
  unfolding admit admit_token admit_nonce
  admit_ok r client t s h = (ground arith, ground arith, ground arith, ground arith)

  admits :
      (r : Request) (client t : ℕ) (s : Server)
      → is_fresh t client ≡ true
      → str_eq (bearer_token r.authorization) "" ≡ false
      → (try_use_nonce (key r.tenant_id r.poller_name r.nonce) t s).0 ≡ true
      → (admit key r client t s).0 ≡ none
  unfolding admit admit_token admit_nonce
  admits r client t s fresh bearer free = ground arith

  -- A request that was admitted is admitted again, word for word, from 60 seconds later on, whatever
  -- other nonces are tried in between: until 60 seconds after the time that it carries where that time
  -- is within the range of a duration of the clock of the server, and, where it is further ahead, as
  -- long as it is out of that range.
  pub admit_again :
      (r : Request) (client t u : ℕ) (rs : List (String × ℕ)) (s : Server)
      → (admit key r client t s).0 ≡ none
      → All (λ (x : String × ℕ). x.0 ≢ key r.tenant_id r.poller_name r.nonce) rs
      → t + nonce_ttl ≤ u
      → ((client ≤ t + max_duration) × (u ≤ client + 60 * second)) ⊎ (u + max_duration < client)
      → (admit key r client u (after_requests rs (admit key r client t s).1)).0 ≡ none
  admit_again r client t u rs s first others later window =
      let k = key r.tenant_id r.poller_name r.nonce in
      let (fresh, bearer, taken, left) = admit_ok r client t s first in
      let put : (admit key r client t s).1.nonces k ≡ some (t + nonce_ttl) =
        ap (λ (x : Server). x.nonces k) left ∙ try_use_nonce_puts k t s taken in
      let over =
        after_requests-IsOver rs k (t + nonce_ttl) (admit key r client t s).1 others (inr put) in
      let seen = (is_fresh_iff t client).0 fresh in
      admits r client u (after_requests rs (admit key r client t s).1)
        ((is_fresh_iff u client).1 (ground (arith, seen, window, later))) bearer
        (try_use_nonce-IsOver k u (t + nonce_ttl) _ over later)
