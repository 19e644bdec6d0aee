-- ===== src/Grill/Rules.antt =====
-- internal/store/grill.go: the table of rules, the ids of their questions, and when a rule asks.
use Prim.Native.String.{◌++◌ as ◌<>◌}
use ananke.Prelude.{
  ℕ, String, Bool, true, false, ◌&&◌, ◌||◌, not, Option, none, some, List, [], ◌∷◌, ◌==◌,
  if◌then◌else◌, is_some,
}
use ananke.Grill.Declarations.{GrillInput}

pub record GrillRule : Type 0 where
  pub priority : ℕ
  pub class : String
  pub risk : String
  pub blocking : Bool
  pub waivable : Bool
  pub default : String
  pub remedial_step : String

abbrev rule : ℕ → String → String → Bool → String → String → GrillRule
rule priority class risk waivable default remedial_step = record {
  priority = priority;
  class = class;
  risk = risk;
  blocking = true;
  waivable = waivable;
  default = default;
  remedial_step = remedial_step;
}

abbrev pub grill_rules : List GrillRule
grill_rules =
    rule 10 "observable_outcome" "high" false "needs_rewrite" "declare_observable_outcome"
    ∷ rule 20 "scope_compatibility" "medium" true "needs_rewrite" "declare_scope_compatibility"
    ∷ rule 30 "acceptance_evidence" "high" false "needs_rewrite" "declare_acceptance_evidence"
    ∷ rule 40 "destructive_external_authorization" "critical" false "deny"
        "record_local_authorization"
    ∷ rule 50 "adapter_worktree_isolation" "high" false "needs_rewrite" "require_isolated_worktree"
    ∷ rule 60 "autonomy_budget" "high" false "needs_rewrite" "set_deadline_attempt_cap"
    ∷ []

abbrev pub grill_question_id : String → String
grill_question_id rule_class = "grill_question_" <> rule_class

-- Membership in a set of strings.
unfoldable pub member : String → List String → Bool
member s [] = false
member s (t ∷ ts) = s == t || member s ts

unfoldable pub rule_by_class : String → List GrillRule → Option GrillRule
rule_by_class rule_class [] = none
rule_by_class rule_class (r ∷ rs) =
    let rest = rule_by_class rule_class rs in if r.class == rule_class then some r else rest

unfoldable pub rule_class_in : String → List GrillRule → Option String
rule_class_in value [] = none
rule_class_in value (r ∷ rs) =
    let rest = rule_class_in value rs in
    if value == r.class || value == grill_question_id r.class then some r.class else rest

unfoldable pub grill_rule_by_class : String → Option GrillRule
grill_rule_by_class rule_class = rule_by_class rule_class grill_rules

unfoldable pub grill_rule_class : String → Option String
grill_rule_class value = rule_class_in value grill_rules

unfoldable pub grill_rule_triggered : GrillInput → String → Bool
grill_rule_triggered input rule_class =
    let d = input.declarations in
    if rule_class == "observable_outcome"
    then not (d.observable_outcome == "declared")
    else if rule_class == "scope_compatibility"
    then not (d.scope_compatibility == "declared")
    else if rule_class == "acceptance_evidence"
    then not (d.acceptance_evidence == "declared")
    else if rule_class == "destructive_external_authorization"
    then d.destructive_external == "declared" && not (d.local_authorization == "recorded")
    else if rule_class == "adapter_worktree_isolation"
    then not (d.adapter_mode == "none") && not (d.worktree_isolation == "isolated")
    else if rule_class == "autonomy_budget"
    then not (is_some d.autonomy.deadline) || not (is_some d.autonomy.attempt_cap)
    else false
