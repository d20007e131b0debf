-- ===== src/Compliance/Tests.antt =====
-- Two rules over the configuration of a router.
use netmantle.Prelude.{◌≡◌, ◌↔◌, String, true, none, [], ◌∷◌, pos}
use netmantle.Prelude.Text.{split_on}
use netmantle.Compliance.Rules.{Parsers, must_exclude, pass, fail, Rule, Finding, ordered_contains}
use netmantle.Compliance.Service.{DeviceRow, Store}
use netmantle.Compliance.Evaluate.{Sublist, ordered_contains_iff}

-- No pattern can be read.
abbrev no_parsers : Parsers
no_parsers = record { compile = λ p. none; unmarshal = λ p. none }

abbrev no_telnet : Rule
no_telnet = record {
  id = pos 1;
  tenant_id = pos 1;
  group_id = none;
  name = "no telnet";
  kind = must_exclude;
  pattern = "telnet";
  severity = "high";
  description = "";
}

abbrev config : String
config = "hostname r1\ntransport input telnet\n"

abbrev router : DeviceRow
router = record { id = pos 5; tenant_id = pos 1; group_id = none }

-- The router has passed before.
abbrev passed : Store
passed = record {
  rules = record {
    rows =
        record {
          id = pos 1;
          tenant_id = pos 1;
          group_id = none;
          name = "no telnet";
          kind = must_exclude;
          pattern = "telnet";
          severity = "high";
          description = none;
          created_at = 900;
        }
        ∷ [];
    next_id = 2;
  };
  findings =
      record {
        tenant_id = pos 1;
        device_id = pos 5;
        rule_id = pos 1;
        status = pass;
        detail = "";
        created_at = 900;
      }
      ∷ [];
  devices = router ∷ [];
  transitions = [];
}

abbrev telnet_found : Finding
telnet_found = record {
  device_id = pos 5;
  rule_id = pos 1;
  status = fail;
  detail = "forbidden text present";
}

ordered_contains_iff_example :
    (ordered_contains "a\nb\nc" ("a" ∷ "c" ∷ []) ≡ true)
    ↔ Sublist ("a" ∷ "c" ∷ []) (split_on 10 "a\nb\nc")
ordered_contains_iff_example = ordered_contains_iff "a\nb\nc" ("a" ∷ "c" ∷ [])
