-- ===== src/Compliance/Service.antt =====
-- The methods of `Service`.
use Prim.Native.String.{String}
use netmantle.Prelude.Text.{text_leb}
use netmantle.Prelude.{
  ℕ, Bool, true, false, not, ◌&&◌, ◌||◌, Option, none, some, List, [], ◌∷◌, ◌++◌, map, ℤ, id_eq,
  str_eq, if◌then◌else◌, find_first, filter,
}
use netmantle.Db.{
  Db, Table, insert, update, exec, exec_insert_unique, transaction, query, now, pure, fail, attempt,
  ok, some_or, ◌>>=◌, ◌>>◌, format_time, coalesce, invalid_input, not_found,
}
use netmantle.Compliance.Rules.{
  Parsers, Kind, Rule, Finding, Status, pass, fail as failing_status, evaluate_text, validate_rule,
  default_severity,
}

-- One row of compliance_rules.
pub record RuleRow : Type 0 where
  pub id : ℤ
  pub tenant_id : ℤ
  pub group_id : Option ℤ
  pub name : String
  pub kind : Kind
  pub pattern : String
  pub severity : String
  pub description : Option String
  pub created_at : ℕ

-- One row of compliance_findings, whose own key nothing reads.
pub record FindingRow : Type 0 where
  pub tenant_id : ℤ
  pub device_id : ℤ
  pub rule_id : ℤ
  pub status : Status
  pub detail : String
  pub created_at : ℕ

-- Of the rows of devices, the columns that the evaluation reads.
pub record DeviceRow : Type 0 where
  pub id : ℤ
  pub tenant_id : ℤ
  pub group_id : Option ℤ

-- One call of `OnTransition`.
pub record Transition : Type 0 where
  pub tenant_id : ℤ
  pub finding : Finding
  pub prev : Status

-- The tables, and the calls of `OnTransition` so far; the callback is set, as in the server.
pub record Store : Type 0 where
  pub rules : Table RuleRow
  pub findings : List FindingRow
  pub devices : List DeviceRow
  pub transitions : List Transition

unfoldable pub same_group : Option ℤ → Option ℤ → Bool
same_group none none = true
same_group (some a) (some b) = id_eq a b
same_group none (some b) = false
same_group (some a) none = false

-- WHERE tenant_id=? AND name=? AND group_id=?, or IS NULL
unfoldable pub in_scope : Rule → RuleRow → Bool
unfolding same_group
in_scope r x =
    id_eq x.tenant_id r.tenant_id && str_eq x.name r.name && same_group x.group_id r.group_id

unfoldable pub rule_row : Rule → String → ℕ → ℤ → RuleRow
rule_row r severity at i = record {
  id = i;
  tenant_id = r.tenant_id;
  group_id = r.group_id;
  name = r.name;
  kind = r.kind;
  pattern = r.pattern;
  severity = severity;
  description = some r.description;
  created_at = at;
}

-- The unique indexes on (tenant_id, name) without a group and (tenant_id, group_id, name) with one.
unfoldable pub insert_rule : Rule → String → ℕ → Store → Option (ℤ × Store)
unfolding insert in_scope rule_row
insert_rule r severity at s = elim (find_first (in_scope r) s.rules.rows) [
  | some _ ↦ none
  | none ↦ let (i, t) = insert (rule_row r severity at) s.rules in some (i, record s { rules = t })
]

unfoldable pub scan_rule : RuleRow → Rule
unfolding coalesce
scan_rule x = record {
  id = x.id;
  tenant_id = x.tenant_id;
  group_id = x.group_id;
  name = x.name;
  kind = x.kind;
  pattern = x.pattern;
  severity = x.severity;
  description = coalesce x.description;
}

-- UPDATE compliance_rules SET kind, pattern, severity, description WHERE id=?
unfoldable pub update_rule : Rule → String → ℤ → Store → ℕ × Store
unfolding update
update_rule r severity i s =
    let (n, t) =
      update (λ (x : RuleRow). id_eq x.id i)
        (λ x. record x {
          kind = r.kind;
          pattern = r.pattern;
          severity = severity;
          description = some r.description;
        })
        s.rules in
    (n, record s { rules = t })

-- The switch of `UpsertRule` on the answer of selectRuleIDForScope: the key of the rule.
unfoldable pub upsert_found : Rule → String → ℕ → Option RuleRow → Db Store ℤ
unfolding update_rule insert_rule
upsert_found r severity at (some x) = do exec (update_rule r severity x.id); pure x.id
upsert_found r severity at none = exec_insert_unique (insert_rule r severity at)

-- The statements between BeginTx and Commit.
unfoldable pub upsert_rows : Rule → String → ℕ → Db Store ℤ
unfolding upsert_found in_scope
upsert_rows r severity at = do
  found ← query (λ s. find_first (in_scope r) s.rules.rows)
  upsert_found r severity at found

-- IS NULL OR group_id=?, for a device with a group; IS NULL for one without
unfoldable pub applies : Option ℤ → Option ℤ → Bool
applies none none = true
applies none (some g) = false
applies (some h) none = true
applies (some h) (some g) = id_eq g h

unfoldable pub applies_to : ℤ → Option ℤ → RuleRow → Bool
unfolding applies
applies_to tenant group x = id_eq x.tenant_id tenant && applies group x.group_id

unfoldable pub of_device_rule : ℤ → ℤ → FindingRow → Bool
of_device_rule device rule f = id_eq f.device_id device && id_eq f.rule_id rule

-- INSERT … ON CONFLICT(device_id, rule_id) DO UPDATE SET status, detail, created_at
unfoldable pub upsert_finding : FindingRow → List FindingRow → List FindingRow
unfolding of_device_rule
upsert_finding f [] = f ∷ []
upsert_finding f (x ∷ xs) =
    let rest = upsert_finding f xs in
    if of_device_rule f.device_id f.rule_id x
    then record x { status = f.status; detail = f.detail; created_at = f.created_at } ∷ xs
    else x ∷ rest

unfoldable pub has_rule : ℤ → Option ℤ → ℤ → List RuleRow → Bool
unfolding applies_to
has_rule tenant group i [] = false
has_rule tenant group i (x ∷ xs) =
    (id_eq x.id i && applies_to tenant group x) || has_rule tenant group i xs

-- DELETE FROM compliance_findings WHERE tenant_id=? AND device_id=? AND rule_id NOT IN (…)
unfoldable pub delete_stale : ℤ → ℤ → Option ℤ → Store → Unit {0} × Store
unfolding has_rule
delete_stale tenant device group s = (
  tt,
  record s {
    findings =
        filter
          (λ (f : FindingRow). not (
            id_eq f.tenant_id tenant
            && id_eq f.device_id device
            && not (has_rule tenant group f.rule_id s.rules.rows)))
          s.findings;
  },
)

unfoldable pub status_eq : Status → Status → Bool
status_eq pass pass = true
status_eq failing_status failing_status = true
status_eq _ _ = false

insert_by_name : RuleRow → List RuleRow → List RuleRow
unfolding text_leb
insert_by_name x [] = x ∷ []
insert_by_name x (y ∷ ys) =
    let rest = insert_by_name x ys in if text_leb x.name y.name then x ∷ y ∷ ys else y ∷ rest

-- ORDER BY name
unfoldable pub by_name : List RuleRow → List RuleRow
unfolding insert_by_name
by_name [] = []
by_name (x ∷ xs) = insert_by_name x (by_name xs)

unfoldable pub list_rules : ℤ → Db Store (List Rule)
list_rules tenant = do
  rows ← query (λ s. by_name (filter (λ (x : RuleRow). id_eq x.tenant_id tenant) s.rules.rows))
  pure (map scan_rule rows)

-- The findings of a rule go with it: ON DELETE CASCADE.
unfoldable pub delete_rule : ℤ → ℤ → Db Store Unit
unfolding has_rule
delete_rule tenant i = exec (λ s.
    let gone : RuleRow → Bool = λ x. id_eq x.tenant_id tenant && id_eq x.id i in
    let kept : List RuleRow = filter (λ x. not (gone x)) s.rules.rows in
    let orphan : FindingRow → Bool = λ f.
      elim (find_first (λ (x : RuleRow). id_eq x.id f.rule_id) kept) [
        | none ↦ true
        | some _ ↦ false
      ] in
    (
      tt,
      record s {
        rules = record (s.rules) { rows = kept };
        findings = filter (λ f. not (orphan f)) s.findings;
      },
    ))

unfoldable pub rules_for_device : ℤ → Option ℤ → Store → List Rule
unfolding by_name applies_to scan_rule
rules_for_device tenant group s =
    map scan_rule (by_name (filter (applies_to tenant group) s.rules.rows))

unfoldable pub find_device : ℤ → ℤ → Store → Option DeviceRow
find_device tenant device s =
    find_first (λ (d : DeviceRow). id_eq d.tenant_id tenant && id_eq d.id device) s.devices

unfoldable pub previous : ℤ → ℤ → Store → Option Status
unfolding of_device_rule
previous device rule s = elim (find_first (of_device_rule device rule) s.findings) [
  | none ↦ none
  | some f ↦ some f.status
]

-- The test before the call of `OnTransition`; an empty `prev` is `none`.
unfoldable pub changed : Option Status → Status → Bool
unfolding status_eq
changed none status = false
changed (some prev) status = not (status_eq prev status)

unfoldable pub store_finding : ℤ → Finding → ℕ → Store → Unit {0} × Store
unfolding upsert_finding
store_finding tenant f at s = (
  tt,
  record s {
    findings =
        upsert_finding
          (record {
            tenant_id = tenant;
            device_id = f.device_id;
            rule_id = f.rule_id;
            status = f.status;
            detail = f.detail;
            created_at = at;
          })
          s.findings;
  },
)

-- The call of `OnTransition`, which takes no statement.
unfoldable pub announce : ℤ → Finding → Option Status → Db Store Unit
unfolding changed
announce tenant f prev w = elim prev [
  | none ↦ (ok tt, w)
  | some p ↦
      if changed (some p) f.status
      then (
        ok tt,
        record w {
          store = record (w.store) {
            transitions =
                w.store.transitions ++ record { tenant_id = tenant; finding = f; prev = p } ∷ [];
          };
        },
      )
      else (ok tt, w)
]

module _ (parsers : Parsers) where
  unfoldable pub create_rule : Rule → Db Store Rule
  unfolding insert_rule
  create_rule r = if not (validate_rule parsers r) then fail invalid_input else do
    t ← now
    i ← exec_insert_unique (insert_rule r (default_severity r.severity) (format_time t))
    pure (record r { id = i; severity = default_severity r.severity })

  unfoldable pub upsert_rule : Rule → Db Store Rule
  unfolding upsert_rows
  upsert_rule r = if not (validate_rule parsers r) then fail invalid_input else do
    t ← now
    i ← transaction (upsert_rows r (default_severity r.severity) (format_time t))
    pure (record r { id = i; severity = default_severity r.severity })

  -- The finding of a rule for a device.
  abbrev pub device_finding : ℤ → String → Rule → Finding
  device_finding device text r = record (evaluate_text parsers r text) { device_id = device }

  -- The body of the loop of `EvaluateDevice`.
  unfoldable pub evaluate_rule : ℤ → ℤ → String → Rule → Db Store Finding
  unfolding previous store_finding announce
  evaluate_rule tenant device text r =
      let f = device_finding device text r in
      do
        prev ← attempt (query (previous device r.id))
        t ← now
        exec (store_finding tenant f (format_time t))
        announce tenant f prev
        pure f

  unfoldable pub evaluate_rules : ℤ → ℤ → String → List Rule → Db Store (List Finding)
  unfolding evaluate_rule
  evaluate_rules tenant device text [] = pure []
  evaluate_rules tenant device text (r ∷ rs) = do
    f ← evaluate_rule tenant device text r
    fs ← evaluate_rules tenant device text rs
    pure (f ∷ fs)

  unfoldable pub evaluate_device : ℤ → ℤ → String → Db Store (List Finding)
  unfolding find_device rules_for_device delete_stale
  evaluate_device tenant device text = do
    found ← query (find_device tenant device)
    d ← some_or not_found found
    rules ← query (rules_for_device tenant d.group_id)
    fs ← evaluate_rules tenant device text rules
    exec (delete_stale tenant device d.group_id)
    pure fs
