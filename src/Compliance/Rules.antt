-- ===== src/Compliance/Rules.antt =====
-- A rule against a text.
use Prim.Native.String.{String}
use netmantle.Prelude.{
  Bool, true, false, not, ◌||◌, Option, none, some, List, [], ◌∷◌, ℤ, positive, str_eq,
  if◌then◌else◌,
}
use netmantle.Prelude.Text.{split_on}
use text.Mathlib.Text.{starts_with}

-- regexp.Compile and json.Unmarshal into a []string, `none` for an error; a compiled expression is
-- its MatchString.
pub record Parsers : Type 0 where
  pub compile : String → Option (String → Bool)
  pub unmarshal : String → Option (List String)

-- `Kind` is a text in Go.
pub data Kind : Type 0 where
  regex must_include must_exclude ordered_block : Kind
  other : String → Kind

pub data Status : Type 0 where
  pass fail : Status

pub record Rule : Type 0 where
  pub id : ℤ
  pub tenant_id : ℤ
  pub group_id : Option ℤ
  pub name : String
  pub kind : Kind
  pub pattern : String
  pub severity : String
  pub description : String

pub record Finding : Type 0 where
  pub device_id : ℤ
  pub rule_id : ℤ
  pub status : Status
  pub detail : String

-- strings.Contains(s, sub)
unfoldable pub contains : String → String → Bool
contains String.[] sub = str_eq sub ""
contains (String.◌∷◌ c s) sub =
    let rest = contains s sub in if starts_with (String.◌∷◌ c s) sub then true else rest

-- The loop of `orderedContains`, with the lines that are still wanted.
unfoldable pub ordered_from : List String → List String → Bool
ordered_from lines [] = true
ordered_from [] (w ∷ ws) = false
ordered_from (line ∷ lines) (w ∷ ws) =
    let found = ordered_from lines ws in
    let skipped = ordered_from lines (w ∷ ws) in if str_eq line w then found else skipped

unfoldable pub ordered_contains : String → List String → Bool
unfolding split_on
ordered_contains text want = ordered_from (split_on 10 text) want

-- A finding of no device yet.
abbrev pub finding : Rule → Status → String → Finding
finding r status detail = record {
  device_id = ℤ.pos 0;
  rule_id = r.id;
  status = status;
  detail = detail;
}

-- A `pass`, or a `fail` with its detail.
abbrev pub passes_or : Rule → Bool → String → Finding
passes_or r true detail = finding r pass ""
passes_or r false detail = finding r fail detail

module _ (parsers : Parsers) where
  unfoldable pub evaluate_kind : Kind → Rule → String → Finding
  unfolding contains ordered_contains
  evaluate_kind regex r text = elim (parsers.compile r.pattern) [
    | none ↦ finding r fail "invalid regex"
    | some re ↦ passes_or r (re text) "pattern not found"
  ]
  evaluate_kind must_include r text = passes_or r (contains text r.pattern) "missing required text"
  evaluate_kind must_exclude r text =
      passes_or r (not (contains text r.pattern)) "forbidden text present"
  evaluate_kind ordered_block r text = elim (parsers.unmarshal r.pattern) [
    | none ↦ finding r fail "ordered_block pattern must be JSON array"
    | some want ↦ passes_or r (ordered_contains text want) "ordered block not found"
  ]
  evaluate_kind (other k) r text = finding r fail "unknown rule kind"

  unfoldable pub evaluate_text : Rule → String → Finding
  evaluate_text r text = evaluate_kind r.kind r text

  unfoldable pub valid_kind : Kind → String → Bool
  valid_kind regex pattern = elim (parsers.compile pattern) [ none ↦ false | some _ ↦ true ]
  valid_kind must_include pattern = true
  valid_kind must_exclude pattern = true
  valid_kind ordered_block pattern = elim (parsers.unmarshal pattern) [
    | none ↦ false
    | some _ ↦ true
  ]
  valid_kind (other k) pattern = false

  -- Whether `validateRule` returns nil.
  unfoldable pub validate_rule : Rule → Bool
  unfolding valid_kind
  validate_rule r =
      if not (positive r.tenant_id) || str_eq r.name "" || str_eq r.pattern ""
      then false
      else valid_kind r.kind r.pattern

unfoldable pub default_severity : String → String
default_severity s =
    if str_eq s "low" || str_eq s "medium" || str_eq s "high" || str_eq s "critical"
    then s
    else "medium"
