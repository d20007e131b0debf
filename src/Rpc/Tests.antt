-- ===== src/Rpc/Tests.antt =====
-- A request of a poller whose clock is ahead, and a session.
use netmantle.Prelude.{
  positive, ◌*◌, ◌≡◌, ◌≢◌, str_eq, str_eq_iff, inl, refl, true, false, none, some, [], ◌∷◌, ℤ, pos,
  String, arith, if◌then◌else◌, id_eq, find_first, count_where, update_where,
}
use netmantle.Prelude.Text.{trim_space, strip_prefix}
use netmantle.Db.{ok, second}
use netmantle.Db.Samples.{calm}
use netmantle.Poller.Rows.{type_eq, status_eq, Store, Job, JobRow, PollerRow, backup, scan_job}
use netmantle.Poller.Jobs.{
  queued_row, claim_row, claim, claim_read, oldest, update_claim, claim_expiry,
  compute_new_expires_at, older, claim_types, in_types, known_poller,
}
use netmantle.Rpc.Sessions.{Live, claim_job_ok}
use netmantle.Rpc.Cache.{
  collect, gc_due, is_used, live_nonces, use_collected, Session, Server, try_use_nonce,
  purge_expired_sessions,
}
use netmantle.Rpc.Service.{
  Request, accepted, admit, bearer_token, claim_job, with_session, guarded, require_session,
  check_session, parse_job_types, job_reply,
}
use netmantle.Rpc.Replay.{after_requests, try_use_nonce_once, admit_again}

abbrev idle : Server
idle = record { sessions = λ i. none; nonces = λ k. none; nonce_gc = none }

abbrev name_key : ℤ → String → String → String
name_key tenant name nonce = nonce

abbrev hello : Request
hello = record {
  tenant_id = pos 1;
  poller_name = "p1";
  client_time = some (1060 * second);
  nonce = "0123456789abcdef";
  authorization = some "Bearer t";
}

admitted : (admit name_key hello (1060 * second) (1000 * second) idle).0 ≡ none
unfolding admit bearer_token trim_space strip_prefix try_use_nonce use_collected is_used collect
    gc_due live_nonces
admitted = refl

other_nonce : ◌≢◌ {A = String} "m" "0123456789abcdef"
other_nonce e = let no : str_eq "m" "0123456789abcdef" ≡ true = (str_eq_iff _ _).1 e in ground arith

admit_again_example :
    (admit name_key hello (1060 * second) (1100 * second) (
      after_requests
        (("m", 1050 * second) ∷ [])
        (admit name_key hello (1060 * second) (1000 * second) idle).1)).0
    ≡ none
admit_again_example =
    admit_again name_key hello (1060 * second) (1000 * second) (1100 * second)
      (("m", 1050 * second) ∷ []) idle admitted (other_nonce, tt) (omega arith)
      (inl (omega arith, omega arith))

first_use : (try_use_nonce "n" 1000 idle).0 ≡ true
unfolding try_use_nonce use_collected is_used collect gc_due live_nonces
first_use = refl

try_use_nonce_once_example :
    (try_use_nonce "n" 3000 (after_requests (("m", 2000) ∷ []) (try_use_nonce "n" 1000 idle).1)).0
    ≡ false
try_use_nonce_once_example =
    try_use_nonce_once "n" 1000 3000 (("m", 2000) ∷ []) idle first_use (omega arith, tt)
      (omega arith)

abbrev waiting : JobRow
waiting = queued_row (pos 1) (pos 5) backup "{}" "nightly" 900 (some 1500) (pos 1)

abbrev branch : PollerRow
branch = record {
  id = pos 4;
  tenant_id = pos 1;
  zone = "eu";
  name = "branch";
  token_hash = "";
  last_seen = none;
  created_at = 900;
}

abbrev line : Store
line = record {
  jobs = record { rows = waiting ∷ []; next_id = 2 };
  pollers = record { rows = branch ∷ []; next_id = 5 };
}

abbrev signed_in : Session
signed_in = record { tenant_id = pos 1; poller_id = pos 4; token = "t"; expires = 2000 * second }

abbrev up : Server
up = record idle { sessions = λ i. if id_eq i (pos 4) then some signed_in else none }

abbrev given : Job
given = scan_job (claim_row (pos 4) 1001 (some 1601) waiting)

handed :
    (claim_job (some "Bearer t") (pos 1) (pos 4) ("backup" ∷ []) up (calm line)).0
    ≡ ok (accepted given, purge_expired_sessions (1000 * second) up)
unfolding claim_job with_session guarded require_session bearer_token trim_space strip_prefix
    check_session id_eq parse_job_types job_reply claim claim_read oldest update_claim claim_expiry
    compute_new_expires_at older claim_types in_types type_eq status_eq known_poller find_first
    count_where update_where positive queued_row claim_row scan_job
handed = refl

claim_job_ok_example :
    Live (pos 1) (pos 4) (bearer_token (some "Bearer t")) (1000 * second) up
    × ((claim
          (pos 1)
          (pos 4)
          (parse_job_types ("backup" ∷ []))
          (record (calm line) { reads = 1 })).0
        ≡ ok given)
claim_job_ok_example =
    claim_job_ok (some "Bearer t") (pos 1) (pos 4) ("backup" ∷ []) up
      (purge_expired_sessions (1000 * second) up) (calm line) given handed
