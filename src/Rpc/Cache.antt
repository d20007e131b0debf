-- ===== src/Rpc/Cache.antt =====
-- The memory of the server: the nonces that were used, and the sessions of the pollers. A Go map is a
-- function from its keys; a time is in nanoseconds.
use netmantle.Prelude.{
  ℕ, ◌+◌, ◌*◌, Bool, true, false, Option, none, some, ℤ, id_eq, String, str_eq, ltb, if◌then◌else◌,
}
use netmantle.Db.{second}

pub record Session : Type 0 where
  pub tenant_id : ℤ
  pub poller_id : ℤ
  pub token : String
  pub expires : ℕ

pub record Server : Type 0 where
  pub sessions : ℤ → Option Session
  pub nonces : String → Option ℕ
  pub nonce_gc : Option ℕ

abbrev pub nonce_ttl : ℕ
nonce_ttl = 60 * second

abbrev pub gc_interval : ℕ
gc_interval = 30 * second

-- delete(m, k) of every entry that is over at `now`
unfoldable pub live_nonces : ℕ → (String → Option ℕ) → String → Option ℕ
live_nonces now nonces k = elim (nonces k) [
  | none ↦ none
  | some expiry ↦ if ltb expiry now then none else some expiry
]

-- s.nonceGC.IsZero() || now.After(s.nonceGC)
unfoldable pub gc_due : ℕ → Option ℕ → Bool
gc_due now none = true
gc_due now (some gc) = ltb gc now

unfoldable pub collect : ℕ → Server → Server
collect now s =
    if gc_due now s.nonce_gc
    then record s { nonces = live_nonces now s.nonces; nonce_gc = some (now + gc_interval) }
    else s

unfoldable pub put_nonce : String → ℕ → (String → Option ℕ) → String → Option ℕ
put_nonce key expiry nonces k = if str_eq key k then some expiry else nonces k

-- exp, ok := s.nonces[key]; ok && now.Before(exp)
unfoldable pub is_used : ℕ → Option ℕ → Bool
is_used now none = false
is_used now (some expiry) = ltb now expiry

unfoldable pub use_collected : String → ℕ → Server → Bool × Server
use_collected key now s =
    if is_used now (s.nonces key)
    then (false, s)
    else (true, record s { nonces = put_nonce key (now + nonce_ttl) s.nonces })

-- The answer is whether the nonce was free; `key` is what nonceCacheKey makes of the request.
unfoldable pub try_use_nonce : String → ℕ → Server → Bool × Server
try_use_nonce key now s = use_collected key now (collect now s)

unfoldable pub put_session : ℤ → Session → (ℤ → Option Session) → ℤ → Option Session
put_session i session sessions j = if id_eq i j then some session else sessions j

unfoldable pub record_session : ℤ → ℤ → String → ℕ → Server → Server
unfolding put_session
record_session tenant poller token expires s = record s {
  sessions =
      put_session poller
        (record { tenant_id = tenant; poller_id = poller; token = token; expires = expires })
        s.sessions;
}

-- No session has the zero time for its end.
unfoldable pub purge_expired_sessions : ℕ → Server → Server
purge_expired_sessions now s = record s {
  sessions = λ i. elim (s.sessions i) [
    | none ↦ none
    | some x ↦ if ltb x.expires now then none else some x
  ];
}
