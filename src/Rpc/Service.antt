-- ===== src/Rpc/Service.antt =====
-- The handlers Authenticate, ClaimJob, ReportResult and Health, and the adapter below them.
use netmantle.Prelude.{
  ℕ, suc, ◌+◌, ◌-◌, ◌*◌, ◌==◌, ◌||◌, not, Bool, true, Option, none, some, List, [], ◌∷◌, ℤ, pos,
  negsuc, id_eq, positive, String, str_eq, ltb, leb, if◌then◌else◌,
}
use netmantle.Prelude.Text.{trim_space, strip_prefix, byte_length}
use netmantle.Db.{Db, Error, no_rows, Result, ok, err, now, pure, ◌>>=◌, second}
use netmantle.Bcrypt.{Bcrypt}
use netmantle.Poller.Rows.{Job, JobType, backup, probe, custom, Store}
use netmantle.Poller.Jobs.{claim, complete_claimed_by}
use netmantle.Poller.Registry.{Poller, authenticate}
use netmantle.Rpc.Cache.{Session, Server, try_use_nonce, record_session, purge_expired_sessions}

pub data Code : Type 0 where
  invalid_argument unauthenticated not_found permission_denied internal : Code

pub data Reply (A : Type 0) : Type 0 where
  accepted : A → Reply A
  denied : Code → Reply A

-- A request of Authenticate, with the header that the metadata has.
pub record Request : Type 0 where
  pub tenant_id : ℤ
  pub poller_name : String
  pub client_time : Option ℕ
  pub nonce : String
  pub authorization : Option String

unfoldable pub bearer_token : Option String → String
bearer_token none = ""
bearer_token (some header) = elim (strip_prefix "Bearer " (trim_space header)) [
  | none ↦ ""
  | some token ↦ trim_space token
]

-- The largest time.Duration, 2 ^ 63 - 1 nanoseconds.
abbrev pub max_duration : ℕ
max_duration = 9223372036854775807

unfoldable pub capped : ℕ → ℕ
capped n = if ltb max_duration n then max_duration else n

-- t.Sub(u), which stops at the ends of int64: `negsuc max_duration` is the least duration.
unfoldable pub time_sub : ℕ → ℕ → ℤ
unfolding capped
time_sub t u = if leb u t then pos (capped (t - u)) else negsuc (capped (u - t - 1))

-- if skew < 0 { skew = -skew }, which leaves the least duration as it is
unfoldable pub abs_skew : ℤ → ℤ
abs_skew (pos n) = pos n
abs_skew (negsuc n) = if n == max_duration then negsuc n else pos (suc n)

-- !(skew > 60*time.Second)
unfoldable pub within_minute : ℤ → Bool
within_minute (pos n) = not (ltb (60 * second) n)
within_minute (negsuc _) = true

unfoldable pub is_fresh : ℕ → ℕ → Bool
unfolding time_sub abs_skew within_minute
is_fresh t client = within_minute (abs_skew (time_sub t client))

unfoldable pub bad_request : Request → Bool
bad_request r =
    not (positive r.tenant_id)
    || str_eq (trim_space r.poller_name) ""
    || ltb (byte_length (trim_space r.nonce)) 16

-- The checks of Authenticate before the poller is looked up, with the reply where one of them fails;
-- `key` is nonceCacheKey. A request that lacks the time is refused before its nonce is measured, with
-- the same code.
module _ (key : ℤ → String → String → String) where
  unfoldable pub admit_nonce : Request → ℕ → Server → Option Code × Server
  unfolding try_use_nonce
  admit_nonce r t s =
      let (free, s') = try_use_nonce (key r.tenant_id r.poller_name r.nonce) t s in
      if free then (none, s') else (some unauthenticated, s')

  unfoldable pub admit_token : Request → ℕ → Server → Option Code × Server
  unfolding admit_nonce bearer_token
  admit_token r t s =
      if str_eq (bearer_token r.authorization) ""
      then (some unauthenticated, s)
      else admit_nonce r t s

  unfoldable pub admit : Request → ℕ → ℕ → Server → Option Code × Server
  unfolding admit_token is_fresh
  admit r client t s = if is_fresh t client then admit_token r t s else (some unauthenticated, s)

-- What a part of the block fails with, as a value.
abbrev pub caught : {A : Type 0} → Db Store A → Db Store (Result A)
caught m w = (ok (m w).0, (m w).1)

module _ (bcrypt : Bcrypt) (lease_ttl : ℕ) where
  -- WireService.Authenticate; the lease is set.
  unfoldable pub wire_authenticate : ℤ → String → String → Db Store (Poller × ℕ)
  wire_authenticate tenant name token = do
    p ← authenticate bcrypt tenant name token
    t ← now
    pure (p, t + lease_ttl)

  unfoldable pub enrolled : String → Server → Result (Poller × ℕ) → Reply (Poller × ℕ) × Server
  unfolding record_session
  enrolled token s (err e) = (denied unauthenticated, s)
  enrolled token s (ok (p, refresh)) =
      (accepted (p, refresh), record_session p.tenant_id p.id token refresh s)

  unfoldable pub rpc_authenticated :
      Request → Option Code × Server → Db Store (Reply (Poller × ℕ) × Server)
  unfolding bearer_token
  rpc_authenticated r (some code, s) = pure (denied code, s)
  rpc_authenticated r (none, s) = do
    got ← caught (wire_authenticate r.tenant_id r.poller_name (bearer_token r.authorization))
    pure (enrolled (bearer_token r.authorization) s got)

  unfoldable pub rpc_authenticate :
      (ℤ → String → String → String) → Request → Server → Db Store (Reply (Poller × ℕ) × Server)
  unfolding bad_request
  rpc_authenticate key r s =
      if bad_request r then pure (denied invalid_argument, s) else elim r.client_time [
        | none ↦ pure (denied invalid_argument, s)
        | some client ↦ do t ← now; rpc_authenticated r (admit key r client t s)
      ]

-- The reply where the session of a poller does not let a request through.
unfoldable pub check_session : ℤ → String → Option Session → Option Code
check_session tenant token none = some unauthenticated
check_session tenant token (some x) =
    if not (id_eq x.tenant_id tenant)
    then some permission_denied
    else if not (str_eq x.token token)
    then some unauthenticated
    else none

unfoldable pub require_session : String → ℤ → ℤ → ℕ → Server → Option Code × Server
unfolding check_session purge_expired_sessions
require_session token tenant poller t s = (
  check_session tenant token ((purge_expired_sessions t s).sessions poller),
  purge_expired_sessions t s,
)

-- A word that is no type of job is left out.
unfoldable pub parse_job_types : List String → List JobType
parse_job_types [] = []
parse_job_types (w ∷ ws) =
    let rest = parse_job_types ws in
    if str_eq w "backup"
    then backup ∷ rest
    else if str_eq w "probe"
    then probe ∷ rest
    else if str_eq w "custom"
    then custom ∷ rest
    else rest

unfoldable pub job_code : Error → Code
job_code no_rows = not_found
job_code e = internal

unfoldable pub job_reply : Result Job → Reply Job
job_reply (ok job) = accepted job
job_reply (err e) = denied (job_code e)

unfoldable pub report_code : Error → Code
report_code no_rows = permission_denied
report_code e = internal

unfoldable pub report_reply : Result (Unit {0}) → Reply (Unit {0})
report_reply (ok _) = accepted tt
report_reply (err e) = denied (report_code e)

-- What a handler answers, whether the session lets it run its call or not.
unfoldable pub guarded :
    {A B : Type 0}
    → (Result A → Reply B)
    → Db Store A
    → Option Code × Server
    → Db Store (Reply B × Server)
guarded reply call (some code, s) = pure (denied code, s)
guarded reply call (none, s) = do got ← caught call; pure (reply got, s)

-- A call that requires a session.
unfoldable pub with_session :
    {A B : Type 0}
    → Option String
    → ℤ
    → ℤ
    → (Result A → Reply B)
    → Db Store A
    → Server
    → Db Store (Reply B × Server)
unfolding bearer_token require_session guarded
with_session authorization tenant poller reply call s =
    if str_eq (bearer_token authorization) "" then pure (denied unauthenticated, s) else do
      t ← now
      guarded reply call (require_session (bearer_token authorization) tenant poller t s)

unfoldable pub claim_job :
    Option String → ℤ → ℤ → List String → Server → Db Store (Reply Job × Server)
unfolding job_reply parse_job_types
claim_job authorization tenant poller types s =
    if not (positive tenant) || not (positive poller)
    then pure (denied invalid_argument, s)
    else with_session authorization tenant poller job_reply
        (claim tenant poller (parse_job_types types)) s

unfoldable pub report_result :
    Option String → ℤ → ℤ → ℤ → Bool → String → String → Server → Db Store (Reply Unit × Server)
unfolding report_reply
report_result authorization tenant poller job success result error s =
    if not (positive tenant) || not (positive poller) || not (positive job)
    then pure (denied invalid_argument, s)
    else with_session authorization tenant poller report_reply
        (complete_claimed_by tenant poller job success result error) s

unfoldable pub health : Option String → ℤ → ℤ → Server → Db Store (Reply Unit × Server)
health authorization tenant poller s =
    if not (positive tenant) || not (positive poller)
    then pure (denied invalid_argument, s)
    else with_session authorization tenant poller report_reply (pure tt) s
