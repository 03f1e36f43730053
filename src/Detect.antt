-- ===== src/Detect.antt =====
-- internal/detect/sigma.go: the rules and the detections. The parser of rules, their evaluators,
-- new identifiers and the clock are parameters.
pub mod Rules
use siembox_endpoint.Prelude.{
  ℕ, ◌+◌, Bool, true, false, not, Option, none, some, List, [], ◌∷◌, ◌++◌, Bytes, if◌then◌else◌,
  codes, str_eq, to_lower, insert, lookup, ℤ,
}
use siembox_endpoint.Vuln.{Severity, critical, high, medium, low}
use siembox_endpoint.Telemetry.{Row, Record}

unfoldable pub severity_from_level : Bytes → Severity
severity_from_level level =
    let t = to_lower level in
    if str_eq t (codes "critical")
    then critical
    else if str_eq t (codes "high")
    then high
    else if str_eq t (codes "medium")
    then medium
    else low

-- What an evaluator says of an event: an error, or whether it matches.
pub data Matched : Type 0 where
  match_error : Matched
  matches : Bool → Matched

-- A compiled rule.
pub record Rule : Type 0 where
  pub id : Bytes
  pub title : Bytes
  pub level : Bytes
  pub eval : Row → Matched

-- `models.Event`, less the identifier and the constant type; the timestamp is `none` for the time
-- of the detection.
pub record Event : Type 0 where
  pub timestamp : Option ℤ
  pub severity : Severity
  pub title : Bytes
  pub rule_id : Bytes
  pub rule_name : Bytes
  pub source : Bytes
  pub fields : Row

-- The loop of `LoadRules`: the rules that parse, and the index of the first that does not.
unfoldable pub compile_rules : (Bytes → Option Rule) → List Bytes → ℕ → List Rule × Option ℕ
compile_rules parse [] i = ([], none)
compile_rules parse (raw ∷ raws) i =
    let rest = compile_rules parse raws (i + 1) in
    elim (parse raw) [ none ↦ (rest.0, some i) | some r ↦ (r ∷ rest.0, rest.1) ]

-- The rules after `LoadRules`, and the index of its error.
unfoldable pub load_rules : (Bytes → Option Rule) → List Bytes → List Bytes → List Rule × Option ℕ
load_rules parse base server = compile_rules parse (base ++ server) 0

unfoldable pub build_event : Record → Row
build_event rec = insert (codes "action") rec.action (insert (codes "query") rec.query rec.columns)

unfoldable pub to_event : Rule → Record → Event
to_event rule rec = record {
  timestamp = rec.timestamp;
  severity = severity_from_level rule.level;
  title = rule.title;
  rule_id = rule.id;
  rule_name = rule.title;
  source = codes "osquery:" ++ rec.query;
  fields = insert (codes "action") rec.action rec.columns;
}

-- the test of one rule
abbrev pub is_match : Matched → Bool
is_match match_error = false
is_match (matches b) = b

-- The loop of `matchRecord`.
unfoldable pub match_rules : List Rule → Record → List Event
match_rules [] rec = []
match_rules (r ∷ rs) rec =
    let rest = match_rules rs rec in
    if is_match (r.eval (build_event rec)) then to_event r rec ∷ rest else rest

unfoldable pub evaluate : List Rule → List Record → List Event
evaluate rules [] = []
evaluate rules (rec ∷ recs) = match_rules rules rec ++ evaluate rules recs
