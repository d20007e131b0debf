-- ===== src/ChangeReq/Calls.antt =====
-- Sequences of calls of the service, and the event log after them.
use netmantle.Prelude.{
  ℕ, suc, ◌≡◌, ◌≢◌, refl, Bool, false, Option, none, some, List, [], ◌∷◌, String, ℤ, pos, ◌⊎◌, inl,
  inr, All-update_where, arith, subst, sym,
}
use netmantle.Prelude.Text.{trim_space}
use netmantle.Db.{World, Db, format_time, update}
use netmantle.Db.Keeps.{Keeps, Keeps-bind, Keeps-if}
use netmantle.Db.Keys.{update-IsKeyed}
use netmantle.ChangeReq.Machine.{
  Status, draft, approved, rejected, submitted, cancelled, applied, failed,
}
use netmantle.ChangeReq.Rows.{ChangeRequest, Row, Store}
use netmantle.ChangeReq.Service.{
  create, submit, approve, approve_read, reject, cancel, mark_applied, mark_failed, transition,
  transition_from, get, keep_result, set_result, insert_request, insert_event, update_request,
}
use netmantle.ChangeReq.Log.{Agrees, IsLogged, created-Agrees, moved-Agrees}
use netmantle.ChangeReq.Races.{update_request_none, update_request-events}

-- What `create` leaves where the driver refuses neither statement.
create-store :
    (cr : ChangeRequest) (w : World Store)
    → w.fault w.calls ≡ false
    → w.fault (suc w.calls) ≡ false
    → ((create cr w).1.store ≡ w.store)
      ⊎ ((create cr w).1.store
          ≡ (insert_event
              (pos w.store.requests.next_id)
              cr.requester_id
              none
              draft
              "created"
              (format_time (w.clock (suc w.reads)))
              (insert_request cr
                (trim_space cr.title)
                (format_time (w.clock w.reads))
                w.store).1).1)
unfolding create insert_request
create-store cr w one two = ground arith

transition_from-store :
    (cr : ChangeRequest) (actor : ℤ) (to : Status) (note : String) (reviewer : Option ℤ)
    (w : World Store)
    → w.fault w.calls ≡ false
    → w.fault (suc w.calls) ≡ false
    → let at = format_time (w.clock w.reads) in
      ((transition_from cr actor to note reviewer w).1.store ≡ w.store)
      ⊎ (((update_request cr to at note reviewer w.store).0 ≢ 0)
          × ((transition_from cr actor to note reviewer w).1.store
              ≡ (insert_event cr.id actor
                  (some cr.status)
                  to
                  note
                  (format_time (w.clock (suc w.reads)))
                  (update_request cr to at note reviewer w.store).1).1))
unfolding transition_from
transition_from-store cr actor to note reviewer w one two = ground (
  arith,
  update_request_none cr to (format_time (w.clock w.reads)) note reviewer w.store,
  update_request-events cr to (format_time (w.clock w.reads)) note reviewer w.store,
)

-- No statement is refused, and the log agrees with the table.
abbrev Sound : World Store → Type 0
Sound w = ((n : ℕ) → w.fault n ≡ false) × Agrees w.store

pub store-get : (tenant i : ℤ) (w : World Store) → (get tenant i w).1.store ≡ w.store
unfolding get
store-get tenant i w = ground arith

get-Sound : (tenant i : ℤ) → Keeps Sound (get tenant i)
unfolding get
get-Sound tenant i w h = (λ n. ground (arith, h.0 n), subst Agrees (sym (store-get tenant i w)) h.1)

create-fault :
    (cr : ChangeRequest) (w : World Store)
    → ((n : ℕ) → w.fault n ≡ false)
    → (n : ℕ) → (create cr w).1.fault n ≡ false
unfolding create
create-fault cr w h n = ground (arith, h n)

transition_from-fault :
    (cr : ChangeRequest) (actor : ℤ) (to : Status) (note : String) (reviewer : Option ℤ)
    (w : World Store)
    → ((n : ℕ) → w.fault n ≡ false)
    → (n : ℕ) → (transition_from cr actor to note reviewer w).1.fault n ≡ false
unfolding transition_from
transition_from-fault cr actor to note reviewer w h n = ground (arith, h n)

create-Sound : (cr : ChangeRequest) → Keeps Sound (create cr)
create-Sound cr w h = (
  create-fault cr w h.0,
  elim (create-store cr w (h.0 _) (h.0 _)) [
    | inl kept ↦ subst Agrees (sym kept) h.1
    | inr new ↦ subst Agrees (sym new) (created-Agrees cr _ _ _ _ _ w.store h.1)
  ],
)

transition_from-Sound :
    (cr : ChangeRequest) (actor : ℤ) (to : Status) (note : String) (reviewer : Option ℤ)
    → Keeps Sound (transition_from cr actor to note reviewer)
transition_from-Sound cr actor to note reviewer w h = (
  transition_from-fault cr actor to note reviewer w h.0,
  elim (transition_from-store cr actor to note reviewer w (h.0 _) (h.0 _)) [
    | inl kept ↦ subst Agrees (sym kept) h.1
    | inr moved ↦
        subst Agrees (sym moved.1) (moved-Agrees cr actor to note reviewer _ _ w.store moved.0 h.1)
  ],
)

-- The log does not look at the results.
set_result-Agrees :
    (tenant i : ℤ) (text : String) (s : Store) → Agrees s → Agrees (set_result tenant i text s).1
unfolding set_result update
set_result-Agrees tenant i text s h = record {
  logged =
      All-update_where (IsLogged s.events.rows) _ (λ r. record r { result = some text })
        s.requests.rows (λ r _ k. k) h.logged;
  keyed =
      update-IsKeyed (λ (r : Row). r.id) _ (λ r. record r { result = some text }) (λ r. refl)
        s.requests h.keyed;
  quiet = h.quiet;
}

pub keep_result-store :
    (tenant i : ℤ) (text : String) (cr : ChangeRequest) (w : World Store)
    → ((keep_result tenant i text cr w).1.store ≡ w.store)
      ⊎ ((keep_result tenant i text cr w).1.store ≡ (set_result tenant i text w.store).1)
unfolding keep_result
keep_result-store tenant i text cr w = ground arith

keep_result-Sound :
    (tenant i : ℤ) (text : String) (cr : ChangeRequest) → Keeps Sound (keep_result tenant i text cr)
unfolding keep_result
keep_result-Sound tenant i text cr w h = (
  λ n. ground (arith, h.0 n),
  elim (keep_result-store tenant i text cr w) [
    | inl kept ↦ subst Agrees (sym kept) h.1
    | inr set ↦ subst Agrees (sym set) (set_result-Agrees tenant i text w.store h.1)
  ],
)

-- The calls of the service that change its tables.
pub data Call : Type 0 where
  create_call : ChangeRequest → Call
  submit_call : ℤ → ℤ → ℤ → Call
  approve_call : ℤ → ℤ → ℤ → String → Bool → Call
  reject_call cancel_call : ℤ → ℤ → ℤ → String → Call
  mark_applied_call mark_failed_call : ℤ → ℤ → String → Call

unfoldable pub call : Call → Db Store ChangeRequest
call (create_call cr) = create cr
call (submit_call tenant i actor) = submit tenant i actor
call (approve_call tenant i reviewer reason allow_self) =
    approve tenant i reviewer reason allow_self
call (reject_call tenant i reviewer reason) = reject tenant i reviewer reason
call (cancel_call tenant i actor reason) = cancel tenant i actor reason
call (mark_applied_call tenant i result) = mark_applied tenant i result
call (mark_failed_call tenant i reason) = mark_failed tenant i reason

unfoldable pub run_calls : List Call → World Store → World Store
run_calls [] w = w
run_calls (c ∷ cs) w = run_calls cs (call c w).1

approve_read-Sound :
    (cr : ChangeRequest) (reviewer : ℤ) (reason : String) (allow_self : Bool)
    → Keeps Sound (approve_read cr reviewer reason allow_self)
unfolding approve_read
approve_read-Sound cr reviewer reason allow_self =
    Keeps-if Sound _ _ _ (λ w h. h)
      (transition_from-Sound cr reviewer approved reason (some reviewer))

transition-Sound :
    (tenant i actor : ℤ) (to : Status) (note : String)
    → Keeps Sound (transition tenant i actor to note)
unfolding transition
transition-Sound tenant i actor to note =
    Keeps-bind Sound (get tenant i) _ (get-Sound tenant i)
      (λ cr. transition_from-Sound cr actor to note none)

call-Sound : (c : Call) → Keeps Sound (call c)
unfolding call submit approve reject cancel mark_applied mark_failed
call-Sound (create_call cr) = create-Sound cr
call-Sound (submit_call tenant i actor) = transition-Sound tenant i actor submitted ""
call-Sound (approve_call tenant i reviewer reason allow_self) =
    Keeps-bind Sound (get tenant i) _ (get-Sound tenant i)
      (λ cr. approve_read-Sound cr reviewer reason allow_self)
call-Sound (reject_call tenant i reviewer reason) =
    Keeps-bind Sound (get tenant i) _ (get-Sound tenant i)
      (λ cr. transition_from-Sound cr reviewer rejected reason (some reviewer))
call-Sound (cancel_call tenant i actor reason) = transition-Sound tenant i actor cancelled reason
call-Sound (mark_applied_call tenant i result) =
    Keeps-bind Sound (transition tenant i (pos 0) applied "apply succeeded") _
      (transition-Sound tenant i (pos 0) applied _) (keep_result-Sound tenant i result)
call-Sound (mark_failed_call tenant i reason) =
    Keeps-bind Sound (transition tenant i (pos 0) failed "apply failed") _
      (transition-Sound tenant i (pos 0) failed _) (keep_result-Sound tenant i reason)

run_calls-Sound : (calls : List Call) (w : World Store) → Sound w → Sound (run_calls calls w)
unfolding run_calls
run_calls-Sound [] w h = h
run_calls-Sound (c ∷ cs) w h = run_calls-Sound cs (call c w).1 (call-Sound c w h)

-- While the driver refuses no statement, the event log agrees with the table after any calls of one
-- caller, each run to its end before the next begins, from tables where it agrees, such as the empty
-- ones: the keys of the requests are all different, and the events of each request, in
-- order, each start in the status where the one before it ended, the first at the creation, and lead
-- to the status of the row.
pub run_calls-Agrees :
    (calls : List Call) (w : World Store)
    → ((n : ℕ) → w.fault n ≡ false)
    → Agrees w.store
    → Agrees (run_calls calls w).store
run_calls-Agrees calls w h a = (run_calls-Sound calls w (h, a)).1
