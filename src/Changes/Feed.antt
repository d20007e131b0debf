-- ===== src/Changes/Feed.antt =====
-- What the feed records, and what its diffs show.
use netmantle.Prelude.{
  suc, ◌≡◌, ◌≢◌, refl, Bool, false, [], ◌∷◌, ◌++◌, Option, none, some, List, ℤ, pos, id_eq,
  id_eq_iff, String, str_eq, str_eq_iff, ◌&&◌, not, filter, filter-update_where, find_first, arith,
  ap, ◌∙◌, Bool-cases, inl, inr,
}
use netmantle.Db.{World, ok, update, format_time}
use netmantle.Db.Keys.{IsKeyed, find_first-insert}
use netmantle.Diff.Engine.{IgnoreRule, diff}
use netmantle.Fleet.Tables.{Device}
use netmantle.Changes.Previous.{IsPrevious}
use netmantle.Changes.Steps.{record_change-Steps, IsBody}
use netmantle.Changes.Service.{
  EventRow, Event, Store, Reader, previous, old_body, event_row, made, record_change, event_at,
  device_has, sha_or_none, unified_of, gate, change_diff, owned, review, mark_reviewed,
}

sha_or_none_full : (o : Option String) → o ≢ some "" → sha_or_none o ≡ o
unfolding sha_or_none
sha_or_none_full none h = refl
sha_or_none_full (some sha) h = elim (Bool-cases (str_eq sha "")) [
  | inl e ↦ absurd (h (ap some ((str_eq_iff sha "").0 e)))
  | inr e ↦ rw e refl
]

module _ (read : Reader) (rules : List IgnoreRule) where
  -- What stands behind a recorded change.
  pub record IsRecorded (tenant device : ℤ) (artifact sha : String) (w v : World Store) (e : Event)
      : Type 0 where
    pub old : Option String
    pub before : IsPrevious device artifact sha w.store.versions old
    pub base : String
    pub compared : IsBody read rules tenant device artifact old base
    pub body : String
    pub readable : read tenant device artifact sha ≡ ok body
    pub differ : (diff rules artifact base body).identical ≡ false
    pub commits :
        (e.new_sha ≡ sha)
        × (old ≡ none → e.old_sha ≡ "")
        × ((c : String) → old ≡ some c → e.old_sha ≡ c)
    pub counts :
        (e.added ≡ (diff rules artifact base body).added_lines)
        × (e.removed ≡ (diff rules artifact base body).removed_lines)
    pub fresh : (e.device_id ≡ device) × (e.artifact ≡ artifact) × (e.reviewed ≡ false)
    pub row : EventRow
    pub appended : v.store.events.rows ≡ w.store.events.rows ++ row ∷ []
    pub row_same :
        (row.id ≡ e.id)
        × (row.device_id ≡ device)
        × (row.artifact ≡ artifact)
        × (row.old_sha ≡ old)
        × (row.new_sha ≡ sha)
        × (row.added_lines ≡ e.added)
        × (row.removed_lines ≡ e.removed)
        × (row.reviewed ≡ false)
    pub versions_same : v.store.versions ≡ w.store.versions

  change_diff_at :
      (tenant i : ℤ) (row : EventRow) (d : Device) (body : String) (v : World Store)
      → v.fault v.calls ≡ false
      → v.fault (suc v.calls) ≡ false
      → find_first (event_at i) v.store.events.rows ≡ some row
      → find_first (device_has row.device_id) v.store.devices ≡ some d
      → d.tenant_id ≡ tenant
      → read tenant row.device_id row.artifact row.new_sha ≡ ok body
      → (change_diff read rules tenant i v).0
        ≡ ok
            (diff rules row.artifact
              (old_body read tenant row.device_id row.artifact (sha_or_none row.old_sha))
              body).unified
  unfolding change_diff gate unified_of
  change_diff_at tenant i row d body v one two found owner own readable =
      ground (arith, id_eq_iff d.tenant_id tenant)

  -- The diff that the feed shows for a recorded change is the unified diff of the two versions that the
  -- record compared: for unique keys, a device of the tenant, hashes that are not empty, versions that
  -- are still there to read, only other tables written in between, and a driver that takes the queries.
  pub change_diff-record_change :
      (tenant device : ℤ) (artifact sha : String) (w v : World Store) (e : Event) (d : Device)
      → IsKeyed (λ r. r.id) w.store.events
      → previous device artifact sha w.store.versions ≢ some ""
      → (record_change read rules tenant device artifact sha w).0 ≡ ok (some e)
      → v.store ≡ (record_change read rules tenant device artifact sha w).1.store
      → v.fault v.calls ≡ false
      → v.fault (suc v.calls) ≡ false
      → find_first (device_has device) w.store.devices ≡ some d
      → d.tenant_id ≡ tenant
      → (body : String) × (read tenant device artifact sha ≡ ok body)
        × ((change_diff read rules tenant e.id v).0
            ≡ ok
                (diff rules artifact
                  (old_body read tenant device artifact
                    (previous device artifact sha w.store.versions))
                  body).unified)
  unfolding event_row made event_at
  change_diff-record_change tenant device artifact sha w v e d keyed full h between one two owner
        own =
      let r = record_change-Steps read rules tenant device artifact sha w e h in
      let old = previous device artifact sha w.store.versions in
      let res = diff rules artifact (old_body read tenant device artifact old) r.body in
      let row = event_row device artifact old sha res (format_time (w.clock w.reads)) in
      let n = pos w.store.events.next_id in
      let left = between ∙ r.stored in
      let found : find_first (event_at n) v.store.events.rows ≡ some (row n) =
        ap (λ (s : Store). find_first (event_at n) s.events.rows) left
        ∙ find_first-insert (λ (x : EventRow). x.id) (event_at n) row w.store.events
            (λ x on. (id_eq_iff x.id n).0 on) ((id_eq_iff n n).1 refl) keyed in
      let there = ap (λ (s : Store). find_first (device_has device) s.devices) left ∙ owner in
      let shown = change_diff_at tenant n (row n) d r.body v one two found there own r.readable in
      (
        r.body,
        r.readable,
        ap (λ (x : Event). (change_diff read rules tenant x.id v).0) r.event
            ∙ shown
            ∙ ap
                (λ o.
                  ok (diff rules artifact (old_body read tenant device artifact o) r.body).unified)
                (sha_or_none_full old full),
      )

owned-review :
    (tenant : ℤ) (ds : List Device) (e : EventRow) → owned tenant ds (review e) ≡ owned tenant ds e
unfolding owned review
owned-review tenant ds e = refl

-- Whatever event is marked as reviewed and whatever the driver refuses, the events on devices of
-- other tenants are as they were.
pub mark_reviewed_others :
    (tenant i : ℤ) (w : World Store)
    → filter
        (λ e. not (owned tenant w.store.devices e))
        (mark_reviewed tenant i w).1.store.events.rows
      ≡ filter (λ e. not (owned tenant w.store.devices e)) w.store.events.rows
unfolding mark_reviewed update
mark_reviewed_others tenant i w =
    let marks : EventRow → Bool = λ e. id_eq e.id i && owned tenant w.store.devices e in
    let same =
      filter-update_where (λ e. not (owned tenant w.store.devices e)) marks review
        w.store.events.rows
        (λ x on. (ground arith, ground (arith, owned-review tenant w.store.devices x))) in
    elim (Bool-cases (w.fault w.calls)) [ inl down ↦ rw down refl | inr up ↦ rw up same ]
