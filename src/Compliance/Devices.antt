-- ===== src/Compliance/Devices.antt =====
-- What an evaluation of a device leaves and reports.
use netmantle.Prelude.{
  ℕ, suc, ◌≡◌, refl, String, false, ◌&&◌, Option, none, some, List, [], ◌∷◌, ◌++◌, map, ℤ, id_eq,
  id_eq_iff, if◌then◌else◌, arith, find_first,
}
use netmantle.Db.{World, ok}
use netmantle.Compliance.Rules.{Parsers, Rule, Finding, Status}
use netmantle.Compliance.Service.{
  FindingRow, DeviceRow, Store, of_device_rule, upsert_finding, previous, changed, store_finding,
  announce, device_finding, evaluate_rule, evaluate_rules, evaluate_device, find_device,
  rules_for_device,
}

-- The status on record for a device and a rule.
abbrev status_in : ℤ → ℤ → List FindingRow → Option Status
status_in device rule rows = elim (find_first (of_device_rule device rule) rows) [
  | none ↦ none
  | some f ↦ some f.status
]

status_in-upsert_finding :
    (f : FindingRow) (d r : ℤ) (rows : List FindingRow)
    → status_in d r (upsert_finding f rows)
      ≡ (if id_eq f.device_id d && id_eq f.rule_id r then some f.status else status_in d r rows)
unfolding upsert_finding find_first of_device_rule
status_in-upsert_finding f d r [] = ground arith
status_in-upsert_finding f d r (x ∷ xs) = ground (
  arith,
  status_in-upsert_finding f d r xs,
  id_eq_iff x.device_id f.device_id,
  id_eq_iff x.rule_id f.rule_id,
  id_eq_iff x.device_id d,
  id_eq_iff x.rule_id r,
  id_eq_iff f.device_id d,
  id_eq_iff f.rule_id r,
)

-- Storing a finding is an insert into a map from devices and rules: the status on record for its own
-- device and rule is its own, and that of every other pair is as before.
pub previous-store_finding :
    (tenant : ℤ) (f : Finding) (at : ℕ) (d r : ℤ) (s : Store)
    → previous d r (store_finding tenant f at s).1
      ≡ (if id_eq f.device_id d && id_eq f.rule_id r then some f.status else previous d r s)
unfolding previous store_finding
previous-store_finding tenant f at d r s = status_in-upsert_finding _ d r s.findings

module _ (parsers : Parsers) (tenant device : ℤ) (text : String) where
  evaluate_rule-fault :
      (r : Rule) (w : World Store)
      → ((n : ℕ) → w.fault n ≡ false)
      → (n : ℕ) → (evaluate_rule parsers tenant device text r w).1.fault n ≡ false
  unfolding evaluate_rule announce
  evaluate_rule-fault r w up n = ground (arith, up n)

  -- Where the driver refuses nothing, one pass of the loop returns the finding of the rule, and calls
  -- OnTransition once if the status on record was another, and not at all if there was none or it is
  -- the same.
  pub evaluate_rule_lem :
      (r : Rule) (w : World Store)
      → ((n : ℕ) → w.fault n ≡ false)
      → let f = device_finding parsers device text r in
        ((evaluate_rule parsers tenant device text r w).0 ≡ ok f)
        × ((evaluate_rule parsers tenant device text r w).1.store.transitions
            ≡ elim (previous device r.id w.store) [
              | none ↦ w.store.transitions
              | some p ↦
                  if changed (some p) f.status
                  then w.store.transitions
                    ++ record { tenant_id = tenant; finding = f; prev = p } ∷ []
                  else w.store.transitions
            ])
  unfolding evaluate_rule announce store_finding
  evaluate_rule_lem r w up =
      (ground (arith, up w.calls, up (suc w.calls)), ground (arith, up w.calls, up (suc w.calls)))

  evaluate_rules_lem :
      (rules : List Rule) (w : World Store)
      → ((n : ℕ) → w.fault n ≡ false)
      → ((evaluate_rules parsers tenant device text rules w).0
          ≡ ok (map (device_finding parsers device text) rules))
        × ((n : ℕ) → (evaluate_rules parsers tenant device text rules w).1.fault n ≡ false)
  unfolding evaluate_rules
  evaluate_rules_lem [] w up = (refl, up)
  evaluate_rules_lem (r ∷ rs) w up =
      let v = (evaluate_rule parsers tenant device text r w).1 in
      let one = (evaluate_rule_lem r w up).0 in
      let (rest, calm) = evaluate_rules_lem rs v (evaluate_rule-fault r w up) in
      (ground (arith, one, rest), λ n. ground (arith, one, rest, calm n))

  -- Where the driver refuses nothing, the evaluation of a device of the tenant returns one finding for
  -- each rule of the tenant that is global or of the group of the device, in the order of their names,
  -- and the finding is what the rule says of the text.
  pub evaluate_device_lem :
      (d : DeviceRow) (w : World Store)
      → ((n : ℕ) → w.fault n ≡ false)
      → find_device tenant device w.store ≡ some d
      → (evaluate_device parsers tenant device text w).0
        ≡ ok (map (device_finding parsers device text) (rules_for_device tenant d.group_id w.store))
  unfolding evaluate_device
  evaluate_device_lem d w up found =
      let rules = rules_for_device tenant d.group_id w.store in
      let v : World Store = record w { calls = suc (suc w.calls) } in
      let (all, calm) = evaluate_rules_lem rules v up in
      ground (
        arith,
        up w.calls,
        up (suc w.calls),
        all,
        calm (evaluate_rules parsers tenant device text rules v).1.calls,
      )
