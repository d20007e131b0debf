-- ===== src/Changes/Steps.antt =====
-- The steps of a recorded change, and the text that it is compared with.
use netmantle.Prelude.{
  suc, ◌≡◌, ◌≢◌, refl, false, ◌⊎◌, subst, Option, none, some, List, ℤ, pos, String, arith,
  Bool-cases, inl, inr,
}
use netmantle.Db.{World, ok, insert, format_time}
use netmantle.Db.Rules.{Result-cases}
use netmantle.Diff.Engine.{IgnoreRule, diff}
use netmantle.Diff.Engine as Engine
use netmantle.Changes.Service.{
  Event, Store, Reader, previous, old_body, body_or_empty, event_row, insert_event, made,
  store_change, compare_versions, record_change,
}

store_change_lem :
    (device : ℤ) (artifact sha : String) (old : Option String) (res : Engine.Result)
    (w : World Store) (e : Event)
    → (store_change device artifact old sha res w).0 ≡ ok (some e)
    → (res.identical ≡ false)
      × (e ≡ made device artifact old sha res (w.clock w.reads) (pos w.store.events.next_id))
      × ((store_change device artifact old sha res w).1.store ≡ record w.store {
        events =
            (insert
              (event_row device artifact old sha res (format_time (w.clock w.reads)))
              w.store.events).1;
      })
unfolding store_change insert_event
store_change_lem device artifact sha old res w e h = (ground arith, ground arith, ground arith)

module _ (read : Reader) (rules : List IgnoreRule) where
  -- A recorded change, by the steps of the code.
  pub record Steps (tenant device : ℤ) (artifact sha : String) (w v : World Store) (e : Event)
      : Type 0 where
    pub body : String
    pub readable : read tenant device artifact sha ≡ ok body
    pub differ :
        (diff rules artifact
          (old_body read tenant device artifact (previous device artifact sha w.store.versions))
          body).identical
        ≡ false
    pub event :
        e
        ≡ made device artifact
            (previous device artifact sha w.store.versions)
            sha
            (diff rules artifact
              (old_body read tenant device artifact (previous device artifact sha w.store.versions))
              body)
            (w.clock w.reads)
            (pos w.store.events.next_id)
    pub stored : v.store ≡ record w.store {
      events =
          (insert
            (event_row device artifact
              (previous device artifact sha w.store.versions)
              sha
              (diff rules artifact
                (old_body read tenant device artifact
                  (previous device artifact sha w.store.versions))
                body)
              (format_time (w.clock w.reads)))
            w.store.events).1;
    }

  pub record_change-Steps :
      (tenant device : ℤ) (artifact sha : String) (w : World Store) (e : Event)
      → (record_change read rules tenant device artifact sha w).0 ≡ ok (some e)
      → Steps tenant device artifact sha w
          (record_change read rules tenant device artifact sha w).1
          e
  unfolding record_change compare_versions
  record_change-Steps tenant device artifact sha w e h = elim (Bool-cases (w.fault w.calls)) [
    | inl down ↦ ground arith
    | inr up ↦ elim (Result-cases (read tenant device artifact sha)) [
      | inr (x, f) ↦ ground arith
      | inl (body, f) ↦
          let old = previous device artifact sha w.store.versions in
          let res = diff rules artifact (old_body read tenant device artifact old) body in
          let v : World Store = record w { calls = suc w.calls } in
          let (differ, event, stored) =
            store_change_lem device artifact sha old res v e (ground arith) in
          record {
            body = body;
            readable = f;
            differ = differ;
            event = event;
            stored = ground (arith, stored);
          }
    ]
  ]

  -- The text that a commit, or none, is read as: a version that cannot be read counts as empty.
  pub record IsBody (tenant device : ℤ) (artifact : String) (old : Option String) (text : String)
      : Type 0 where
    pub no_commit : old ≡ none → text ≡ ""
    pub commit :
        (c : String)
        → old ≡ some c
        → (read tenant device artifact c ≡ ok text)
          ⊎ ((text ≡ "") × ((x : String) → read tenant device artifact c ≢ ok x))

  pub old_body-IsBody :
      (tenant device : ℤ) (artifact : String) (old : Option String)
      → IsBody tenant device artifact old (old_body read tenant device artifact old)
  unfolding old_body body_or_empty
  old_body-IsBody tenant device artifact none = record {
    no_commit = λ e. refl;
    commit = λ c e. absurd (ground arith);
  }
  old_body-IsBody tenant device artifact (some c) = record {
    no_commit = λ e. absurd (ground arith);
    commit = λ d e.
        let same : c ≡ d = ground arith in
        subst
          (λ k.
            (read tenant device artifact k ≡ ok (body_or_empty (read tenant device artifact c)))
            ⊎ ((body_or_empty (read tenant device artifact c) ≡ "")
                × ((x : String) → read tenant device artifact k ≢ ok x)))
          same
          (elim (Result-cases (read tenant device artifact c)) [
            | inl (x, f) ↦ inl (rw f refl)
            | inr (x, f) ↦ inr (rw f refl, λ y g. ground (arith, f, g))
          ]);
  }
