-- ===== src/Poller/Calls.antt =====
-- Every method of `JobService` is a history of its statements.
use netmantle.Prelude.{
  ◌≡◌, Bool, Option, none, some, List, String, ℤ, ◌⊎◌, inl, inr, arith, subst, sym, filter, ◌&&◌,
}
use netmantle.Db.{World, Error, format_time, fail, query, some_or, rand_failed, no_rows}
use netmantle.Db.Keeps.{Keeps, Keeps-bind, Keeps-if}
use netmantle.Poller.Rows.{JobType, Job, JobRow, Store}
use netmantle.Poller.Jobs.{
  get, enqueue, enqueue_keyed, choose_key, choose_type, insert_job, queued_row, expiry, claim,
  claimable, oldest, claim_read, update_claim, claim_expiry, complete, complete_claimed_by,
  update_finish, cancel, update_cancel, reclaim_expired, update_reclaim, has_key, owned_by,
  in_progress,
}
use netmantle.Poller.History.{
  Step, Reach, here, next, enqueues, claims, completes, completes_claimed, cancels, reclaims,
}

pub data Call : Type 0 where
  enqueue_call : ℤ → ℤ → Option JobType → String → String → ℤ → Option String → Call
  claim_call : ℤ → ℤ → List JobType → Call
  complete_call : ℤ → ℤ → Bool → String → String → Call
  complete_claimed_by_call : ℤ → ℤ → ℤ → Bool → String → String → Call
  cancel_call : ℤ → ℤ → Call
  reclaim_call : Call

-- The state of the world after a call, whatever it returns.
unfoldable pub after : Call → World Store → World Store
after (enqueue_call tenant device type payload key ttl random) w =
    (enqueue tenant device type payload key ttl random w).1
after (claim_call tenant poller types) w = (claim tenant poller types w).1
after (complete_call tenant i success result error) w = (complete tenant i success result error w).1
after (complete_claimed_by_call tenant poller i success result error) w =
    (complete_claimed_by tenant poller i success result error w).1
after (cancel_call tenant i) w = (cancel tenant i w).1
after reclaim_call w = (reclaim_expired w).1

module _ (w : World Store) where
  store-claim_read :
      (tenant poller : ℤ) (r : JobRow)
      → ((claim_read tenant poller r w).1.store ≡ w.store)
        ⊎ ((claim_read tenant poller r w).1.store
            ≡ (update_claim tenant poller r.id
                (format_time (w.clock w.reads))
                (claim_expiry r (w.clock w.reads))
                w.store).1)
  unfolding claim_read
  store-claim_read tenant poller r = ground arith

  store-complete :
      (tenant i : ℤ) (success : Bool) (result error : String)
      → ((complete tenant i success result error w).1.store ≡ w.store)
        ⊎ ((complete tenant i success result error w).1.store
            ≡ (update_finish
                (λ r. has_key tenant i r && in_progress r.status)
                success
                result
                error
                (format_time (w.clock w.reads))
                w.store).1)
  unfolding complete
  store-complete tenant i success result error = ground arith

  store-complete_claimed_by :
      (tenant poller i : ℤ) (success : Bool) (result error : String)
      → ((complete_claimed_by tenant poller i success result error w).1.store ≡ w.store)
        ⊎ ((complete_claimed_by tenant poller i success result error w).1.store
            ≡ (update_finish
                (λ r. has_key tenant i r && owned_by poller r && in_progress r.status)
                success
                result
                error
                (format_time (w.clock w.reads))
                w.store).1)
  unfolding complete_claimed_by
  store-complete_claimed_by tenant poller i success result error = ground arith

  store-cancel :
      (tenant i : ℤ)
      → ((cancel tenant i w).1.store ≡ w.store)
        ⊎ ((cancel tenant i w).1.store
            ≡ (update_cancel tenant i (format_time (w.clock w.reads)) w.store).1)
  unfolding cancel
  store-cancel tenant i = ground arith

  store-reclaim_expired :
      ((reclaim_expired w).1.store ≡ w.store)
      ⊎ ((reclaim_expired w).1.store ≡ (update_reclaim (format_time (w.clock w.reads)) w.store).1)
  unfolding reclaim_expired
  store-reclaim_expired = ground arith

  store-enqueue_keyed :
      (tenant device : ℤ) (type : JobType) (payload key : String) (ttl : ℤ)
      → let t = w.clock w.reads in
        let row = queued_row tenant device type payload key (format_time t) (expiry ttl t) in
        ((enqueue_keyed tenant device type payload key ttl w).1.store ≡ w.store)
        ⊎ ((enqueue_keyed tenant device type payload key ttl w).1.store
            ≡ (insert_job key row w.store).1)
  unfolding enqueue_keyed
  store-enqueue_keyed tenant device type payload key ttl = ground arith

  store-get : (tenant i : ℤ) → (get tenant i w).1.store ≡ w.store
  unfolding get
  store-get tenant i = ground arith

-- One statement, or none, behind a history.
extend : {s t u v : Store} → (v ≡ t) ⊎ (v ≡ u) → Reach s t → Step t u → Reach s v
extend {s} (inl e) r st = subst (Reach s) (sym e) r
extend {s} (inr e) r st = subst (Reach s) (sym e) (next r st)

module _ (s : Store) where
  abbrev Reached : World Store → Type 0
  Reached w = Reach s w.store

  claim_read-Reached : (tenant poller : ℤ) (r : JobRow) → Keeps Reached (claim_read tenant poller r)
  claim_read-Reached tenant poller r w h =
      extend (store-claim_read w tenant poller r) h (claims tenant poller r.id _ _ w.store)

  some_or-Reached : (e : Error) (o : Option JobRow) → Keeps Reached (some_or e o)
  some_or-Reached e none w h = h
  some_or-Reached e (some r) w h = h

  select-Reached : (q : Store → Option JobRow) → Keeps Reached (query q)
  select-Reached q w h = subst (Reach s) (ground arith) h

  claim-Reached :
      (tenant poller : ℤ) (types : List JobType) → Keeps Reached (claim tenant poller types)
  unfolding claim
  claim-Reached tenant poller types =
      Keeps-bind Reached (query (λ s. oldest (filter (claimable tenant types) s.jobs.rows))) _
        (select-Reached (λ s. oldest (filter (claimable tenant types) s.jobs.rows)))
        λ found.
          Keeps-bind Reached (some_or no_rows found) _ (some_or-Reached no_rows found)
            (claim_read-Reached tenant poller)

  enqueue_keyed-Reached :
      (tenant device : ℤ) (type : JobType) (payload : String) (ttl : ℤ) (k : Option String)
      → Keeps {A = Job} Reached (elim k [
        | none ↦ fail rand_failed
        | some key ↦ enqueue_keyed tenant device type payload key ttl
      ])
  enqueue_keyed-Reached tenant device type payload ttl none w h = h
  enqueue_keyed-Reached tenant device type payload ttl (some key) w h =
      extend (store-enqueue_keyed w tenant device type payload key ttl) h
        (enqueues tenant device type payload key _ _ w.store)

  enqueue-Reached :
      (tenant device : ℤ) (type : Option JobType) (payload key : String) (ttl : ℤ)
      (random : Option String)
      → Keeps Reached (enqueue tenant device type payload key ttl random)
  unfolding enqueue
  enqueue-Reached tenant device type payload key ttl random =
      Keeps-if Reached _ _ _ (λ w h. h)
        (enqueue_keyed-Reached tenant device (choose_type type) payload ttl (choose_key key random))

-- Every method, with any arguments, whatever the driver refuses and whatever the method returns,
-- leaves tables that the statements of the queue reach from those before.
pub after-Reach : (c : Call) (w : World Store) → Reach w.store (after c w).store
unfolding after
after-Reach (enqueue_call tenant device type payload key ttl random) w =
    enqueue-Reached w.store tenant device type payload key ttl random w here
after-Reach (claim_call tenant poller types) w = claim-Reached w.store tenant poller types w here
after-Reach (complete_call tenant i success result error) w =
    extend (store-complete w tenant i success result error) here
      (completes tenant i success result error _ w.store)
after-Reach (complete_claimed_by_call tenant poller i success result error) w =
    extend (store-complete_claimed_by w tenant poller i success result error) here
      (completes_claimed tenant poller i success result error _ w.store)
after-Reach (cancel_call tenant i) w =
    extend (store-cancel w tenant i) here (cancels tenant i _ w.store)
after-Reach reclaim_call w = extend (store-reclaim_expired w) here (reclaims _ w.store)
