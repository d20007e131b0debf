-- ===== src/Rpc/Sessions.antt =====
-- Which calls of a poller get through.
use netmantle.Prelude.{
  ℕ, suc, ◌≤◌, ◌≡◌, refl, Option, none, some, List, ℤ, id_eq_iff, String, str_eq_iff, arith,
  Option-cases, inl, inr,
}
use netmantle.Db.{World, Db, Result, ok, err}
use netmantle.Poller.Rows.{Job, Store}
use netmantle.Poller.Jobs.{claim}
use netmantle.Rpc.Cache.{Session, Server, purge_expired_sessions}
use netmantle.Rpc.Service.{
  Code, accepted, bearer_token, check_session, require_session, job_reply, parse_job_types, guarded,
  with_session, claim_job,
}

-- The session that lets a request through.
pub record Live (tenant poller : ℤ) (token : String) (t : ℕ) (s : Server) : Type 0 where
  pub session : Session
  pub kept : s.sessions poller ≡ some session
  pub same_tenant : session.tenant_id ≡ tenant
  pub same_token : session.token ≡ token
  pub timely : t ≤ session.expires

require_session_ok :
    (token : String) (tenant poller : ℤ) (t : ℕ) (s : Server)
    → (require_session token tenant poller t s).0 ≡ none
    → Live tenant poller token t s
unfolding require_session check_session purge_expired_sessions
require_session_ok token tenant poller t s h = elim (Option-cases (s.sessions poller)) [
  | inl e ↦ ground arith
  | inr (x, e) ↦ record {
    session = x;
    kept = e;
    same_tenant = ground (arith, id_eq_iff x.tenant_id tenant);
    same_token = ground (arith, str_eq_iff x.token token);
    timely = ground arith;
  }
]

job_reply_ok : (r : Result Job) (job : Job) → job_reply r ≡ accepted job → r ≡ ok job
unfolding job_reply
job_reply_ok (ok x) job h = ground arith
job_reply_ok (err e) job h = ground arith

guarded_ok :
    (call : Db Store Job) (o : Option Code) (s s' : Server) (w : World Store) (job : Job)
    → (guarded job_reply call (o, s) w).0 ≡ ok (accepted job, s')
    → (o ≡ none) × ((call w).0 ≡ ok job)
unfolding guarded
guarded_ok call (some c) s s' w job h = ground arith
guarded_ok call none s s' w job h = (refl, job_reply_ok (call w).0 job (ground arith))

-- A poller is handed a job only with a session that is not over, of the tenant it names and with the
-- token it presents, and the job is what the queue's `claim` answers for that tenant and poller.
pub claim_job_ok :
    (authorization : Option String) (tenant poller : ℤ) (types : List String) (s s' : Server)
    (w : World Store) (job : Job)
    → (claim_job authorization tenant poller types s w).0 ≡ ok (accepted job, s')
    → Live tenant poller (bearer_token authorization) (w.clock w.reads) s
      × ((claim tenant poller (parse_job_types types) (record w { reads = suc w.reads })).0
          ≡ ok job)
unfolding claim_job with_session
claim_job_ok authorization tenant poller types s s' w job h =
    let token = bearer_token authorization in
    let v : World Store = record w { reads = suc w.reads } in
    let call = claim tenant poller (parse_job_types types) in
    let checked = require_session token tenant poller (w.clock w.reads) s in
    let run : (guarded job_reply call (checked.0, checked.1) v).0 ≡ ok (accepted job, s') =
      ground arith in
    let (free, done) = guarded_ok call checked.0 checked.1 s' v job run in
    (require_session_ok token tenant poller (w.clock w.reads) s free, done)
