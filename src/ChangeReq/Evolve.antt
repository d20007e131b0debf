-- ===== src/ChangeReq/Evolve.antt =====
-- Histories of the workflow at the grain of its statements, and what they do to every row.
use netmantle.Prelude.{
  ℕ, ◌≡◌, refl, Bool, true, Option, none, some, String, ℤ, ◌⊎◌, inl, inr, arith, and_true, subst,
  sym,
}
use netmantle.Db.{World, Table, format_time}
use netmantle.Prelude.Text.{trim_space}
use netmantle.Db.Evolve.{Evolves, Evolves-update_where, Evolves-append, Evolves-eq}
use netmantle.ChangeReq.Machine.{
  Status, submitted, approved, rejected, applied, failed, cancelled, can_transition, status_eq_iff,
}
use netmantle.ChangeReq.Rows.{ChangeRequest, Row, Store}
use netmantle.ChangeReq.Service.{
  create, draft_row, insert_request, transition_from, approve_read, set_result, assign,
  update_request,
}

-- The transitions that are made without a reviewer.
pub data Unreviewed : Status → Type 0 where
  to_submitted : Unreviewed submitted
  to_cancelled : Unreviewed cancelled
  to_applied : Unreviewed applied
  to_failed : Unreviewed failed

-- One step of a caller of this service; a row that goes with a tenant, user or device deleted elsewhere
-- is no step. A transition works on a snapshot `cr` that was read earlier, so any value
-- stands for it, whatever other callers did since; every world has its own faults and clock.
pub data Step : Store → Store → Type 0 where
  creates : (cr : ChangeRequest) (w : World Store) → Step w.store (create cr w).1.store
  moves :
      (cr : ChangeRequest) (actor : ℤ) {to : Status} (note : String) (w : World Store)
      → Unreviewed to
      → Step w.store (transition_from cr actor to note none w).1.store
  approves :
      (cr : ChangeRequest) (reviewer : ℤ) (reason : String) (allow_self : Bool) (w : World Store)
      → Step w.store (approve_read cr reviewer reason allow_self w).1.store
  rejects :
      (cr : ChangeRequest) (reviewer : ℤ) (reason : String) (w : World Store)
      → Step w.store (transition_from cr reviewer rejected reason (some reviewer) w).1.store
  results : (tenant i : ℤ) (text : String) (s : Store) → Step s (set_result tenant i text s).1

pub data Reach (s : Store) : Store → Type 0 where
  here : Reach s s
  next : {t u : Store} → Reach s t → Step t u → Reach s u

-- What a transition does to the table of requests: nothing, or the update that the machine allows.
pub transition_from-rows :
    (cr : ChangeRequest) (actor : ℤ) (to : Status) (note : String) (reviewer : Option ℤ)
    (w : World Store)
    → ((transition_from cr actor to note reviewer w).1.store.requests ≡ w.store.requests)
      ⊎ ((can_transition cr.status to ≡ true)
          × ((transition_from cr actor to note reviewer w).1.store.requests
              ≡ (update_request cr to
                  (format_time (w.clock w.reads))
                  note
                  reviewer
                  w.store).1.requests))
unfolding transition_from
transition_from-rows cr actor to note reviewer w = ground arith

-- Of what `create` does to the table: nothing, or one draft behind the others.
pub create-rows :
    (cr : ChangeRequest) (w : World Store)
    → ((create cr w).1.store.requests ≡ w.store.requests)
      ⊎ ((create cr w).1.store.requests
          ≡ (insert_request cr
              (trim_space cr.title)
              (format_time (w.clock w.reads))
              w.store).1.requests)
unfolding create insert_request
create-rows cr w = ground arith

-- `Approve` adds a refusal.
pub approve_read-rows :
    (cr : ChangeRequest) (reviewer : ℤ) (reason : String) (allow_self : Bool) (w : World Store)
    → ((approve_read cr reviewer reason allow_self w).1.store.requests ≡ w.store.requests)
      ⊎ ((approve_read cr reviewer reason allow_self w).1.store.requests
          ≡ (transition_from cr reviewer approved reason (some reviewer) w).1.store.requests)
unfolding approve_read
approve_read-rows cr reviewer reason allow_self w = ground arith

-- One step of one row: what the statements may do to it.
pub data RowStep : Row → Row → Type 0 where
  same : (r : Row) → RowStep r r
  unreviewed :
      {to : Status} (at : ℕ) (note : String) (r : Row)
      → Unreviewed to
      → can_transition r.status to ≡ true
      → RowStep r (assign to at note none r)
  reviewed :
      (to : Status) (at : ℕ) (note : String) (reviewer : ℤ) (r : Row)
      → (to ≡ approved) ⊎ (to ≡ rejected)
      → can_transition r.status to ≡ true
      → RowStep r (assign to at note (some reviewer) r)
  keeps_result : (text : String) (r : Row) → RowStep r (record r { result = some text })

-- A row that `create` has put in.
pub data Draft : Row → Type 0 where
  drafted : (cr : ChangeRequest) (title : String) (at : ℕ) (i : ℤ) → Draft (draft_row cr title at i)

-- Row by row, with drafts behind.
abbrev pub Grows : Table Row → Table Row → Type 0
Grows t u = Evolves RowStep Draft t.rows u.rows

update_request-Evolves :
    (cr : ChangeRequest) (to : Status) (at : ℕ) (note : String) (reviewer : Option ℤ) (s : Store)
    → ((r : Row) → r.status ≡ cr.status → RowStep r (assign to at note reviewer r))
    → Grows s.requests (update_request cr to at note reviewer s).1.requests
unfolding update_request
update_request-Evolves cr to at note reviewer s k =
    Evolves-update_where RowStep Draft same _ _ s.requests.rows
      (λ r hit. k r ((status_eq_iff _ _).0 (and_true _ _ hit).1))

transition_from-Evolves :
    (cr : ChangeRequest) (actor : ℤ) (to : Status) (note : String) (reviewer : Option ℤ)
    (w : World Store)
    → ((at : ℕ) (r : Row)
        → can_transition r.status to ≡ true
        → RowStep r (assign to at note reviewer r))
    → Grows w.store.requests (transition_from cr actor to note reviewer w).1.store.requests
transition_from-Evolves cr actor to note reviewer w k =
    elim (transition_from-rows cr actor to note reviewer w) [
      | inl kept ↦ Evolves-eq RowStep Draft same _ _ kept
      | inr moved ↦ subst (Grows w.store.requests) (sym moved.1) (
          update_request-Evolves cr to _ note reviewer w.store
            (λ r e. k _ r (subst (λ st. can_transition st to ≡ true) (sym e) moved.0)))
    ]

insert_request-Evolves :
    (cr : ChangeRequest) (title : String) (at : ℕ) (s : Store)
    → Grows s.requests (insert_request cr title at s).1.requests
unfolding insert_request
insert_request-Evolves cr title at s =
    Evolves-append RowStep Draft same s.requests.rows _ (drafted cr title at _, tt)

set_result-Evolves :
    (tenant i : ℤ) (text : String) (s : Store)
    → Grows s.requests (set_result tenant i text s).1.requests
unfolding set_result
set_result-Evolves tenant i text s =
    Evolves-update_where RowStep Draft same _ _ s.requests.rows (λ r _. keeps_result text r)

-- Every step of every caller moves each row of the table along the machine, or leaves it, and adds
-- drafts only.
pub Step-Evolves : {s t : Store} → Step s t → Grows s.requests t.requests
Step-Evolves (creates cr w) = elim (create-rows cr w) [
  | inl kept ↦ Evolves-eq RowStep Draft same _ _ kept
  | inr grown ↦ subst (Grows w.store.requests) (sym grown) (insert_request-Evolves cr _ _ w.store)
]
Step-Evolves (moves cr actor note w u) =
    transition_from-Evolves cr actor _ note none w (λ at r can. unreviewed at note r u can)
Step-Evolves (approves cr reviewer reason allow_self w) =
    elim (approve_read-rows cr reviewer reason allow_self w) [
      | inl kept ↦ Evolves-eq RowStep Draft same _ _ kept
      | inr moved ↦ subst (Grows w.store.requests) (sym moved) (
          transition_from-Evolves cr reviewer approved reason (some reviewer) w
            (λ at r can. reviewed approved at reason reviewer r (inl refl) can))
    ]
Step-Evolves (rejects cr reviewer reason w) =
    transition_from-Evolves cr reviewer rejected reason (some reviewer) w
      (λ at r can. reviewed rejected at reason reviewer r (inr refl) can)
Step-Evolves (results tenant i text s) = set_result-Evolves tenant i text s
