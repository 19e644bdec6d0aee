-- ===== src/Grill/Examples.antt =====
-- Evaluations of concrete declarations, through the theorems on internal/store/grill.go.
use ananke.Prelude.{String, ◌≡◌, ◌≢◌, refl, ◌⊎◌, true, none, some, List, [], ◌∷◌, length, is_some}
use ananke.Prelude.Fallible.{ok}
use ananke.Int.{pos}
use ananke.Table.Sort.{place, order_by}
use ananke.Grill.Patterns.{
  codes, all, same_codes, number, is_hash, is_identifier, is_timestamp, identifier, fraction,
  days_in, is_leap,
}
use ananke.Grill.Declarations.{GrillInput, one_of, validate_grill_input}
use ananke.Grill.Rules.{
  member, rule_by_class, rule_class_in, grill_rule_by_class, grill_rule_class, grill_rule_triggered,
}
use ananke.Grill.{
  GrillEvaluation, clear, blocked, existing_classes, waived_classes, smallest, min_grill,
  active_rules, new_limit, budgeted, rewrite_needed, evaluate_grill_pure,
}
use ananke.Grill.Budget.{Budget, evaluate_grill_pure-Budget}
use ananke.Grill.Partition.{Partition, evaluate_grill_pure-Partition}
use ananke.Grill.Clear.{evaluate_grill_pure-clear}

-- What an evaluation of concrete declarations has to open.
evaluation : Unit {0}
unfolding active_rules all budgeted codes days_in evaluate_grill_pure existing_classes fraction
    identifier is_leap grill_rule_by_class grill_rule_class grill_rule_triggered is_hash
    is_identifier is_timestamp member min_grill new_limit number one_of order_by place
    rewrite_needed rule_by_class rule_class_in same_codes smallest validate_grill_input
    waived_classes
evaluation = tt

-- Nothing is declared but the deadline.
abbrev undeclared : GrillInput
undeclared = record {
  schema_version = "ananke.grill.input.v1";
  proposal_id = "proposal_7";
  revision = pos 1;
  revision_hash = "sha256:0123456789abcdef0123456789abcdef0123456789abcdef0123456789abcdef";
  declarations = record {
    observable_outcome = "absent";
    scope_compatibility = "absent";
    acceptance_evidence = "absent";
    destructive_external = "declared";
    local_authorization = "unrecorded";
    adapter_mode = "read_only";
    worktree_isolation = "not_isolated";
    autonomy = record { deadline = some "2028-02-29T23:59:59.5Z"; attempt_cap = none };
  };
}

abbrev asked : GrillEvaluation
asked = record {
  proposal_id = "proposal_7";
  revision = pos 1;
  revision_hash = "sha256:0123456789abcdef0123456789abcdef0123456789abcdef0123456789abcdef";
  rule_version = "ananke.grill.rules.v1";
  new_question_ids =
      "grill_question_scope_compatibility" ∷ "grill_question_acceptance_evidence"
      ∷ "grill_question_destructive_external_authorization"
      ∷ "grill_question_adapter_worktree_isolation" ∷ [];
  shown_question_ids =
      "grill_question_observable_outcome" ∷ "grill_question_scope_compatibility"
      ∷ "grill_question_acceptance_evidence" ∷ "grill_question_destructive_external_authorization"
      ∷ "grill_question_adapter_worktree_isolation" ∷ [];
  deferred_rule_classes = some ("autonomy_budget" ∷ []);
  status = blocked;
}

undeclared-asked : evaluate_grill_pure undeclared ("observable_outcome" ∷ []) (pos 1) [] ≡ ok asked
unfolding evaluation
undeclared-asked = refl

evaluate_grill_pure-Budget_example :
    (existing : List String) × (existing_classes ("observable_outcome" ∷ []) ≡ ok existing)
    × Budget undeclared existing [] (pos 1) asked
evaluate_grill_pure-Budget_example =
    evaluate_grill_pure-Budget undeclared ("observable_outcome" ∷ []) (pos 1) [] asked
      undeclared-asked

-- All six classes exist and ask again: all six are shown.
six_shown :
    (ev : GrillEvaluation) × (evaluate_grill_pure undeclared
        ("observable_outcome" ∷ "scope_compatibility" ∷ "acceptance_evidence"
          ∷ "destructive_external_authorization" ∷ "adapter_worktree_isolation" ∷ "autonomy_budget"
          ∷ [])
        (pos 6)
        []
      ≡ ok ev)
    × (length ev.shown_question_ids ≡ 6)
unfolding evaluation
six_shown = (_, refl, refl)

evaluate_grill_pure-Partition_example :
    (existing : List String) × (existing_classes ("observable_outcome" ∷ []) ≡ ok existing)
    × Partition undeclared existing [] asked "autonomy_budget"
evaluate_grill_pure-Partition_example =
    evaluate_grill_pure-Partition undeclared ("observable_outcome" ∷ []) (pos 1) [] asked
      "autonomy_budget" undeclared-asked refl

-- All is declared but the scope, which is waived.
abbrev declared : GrillInput
declared = record undeclared {
  declarations = record {
    observable_outcome = "declared";
    scope_compatibility = "absent";
    acceptance_evidence = "declared";
    destructive_external = "declared";
    local_authorization = "recorded";
    adapter_mode = "read_only";
    worktree_isolation = "isolated";
    autonomy = record { deadline = some "2028-02-29T23:59:59.5Z"; attempt_cap = some (pos 3) };
  };
}

abbrev nothing_asked : GrillEvaluation
nothing_asked = record asked {
  new_question_ids = [];
  shown_question_ids = [];
  deferred_rule_classes = none;
  status = clear;
}

declared_clear :
    evaluate_grill_pure declared [] (pos 0) ("scope_compatibility" ∷ []) ≡ ok nothing_asked
unfolding evaluation
declared_clear = refl

evaluate_grill_pure-clear_example :
    (declared.declarations.observable_outcome ≡ "declared")
    × ((declared.declarations.scope_compatibility ≡ "declared")
        ⊎ (member "scope_compatibility" ("scope_compatibility" ∷ []) ≡ true))
    × (declared.declarations.acceptance_evidence ≡ "declared")
    × ((declared.declarations.destructive_external ≢ "declared")
        ⊎ (declared.declarations.local_authorization ≡ "recorded"))
    × ((declared.declarations.adapter_mode ≡ "none")
        ⊎ (declared.declarations.worktree_isolation ≡ "isolated"))
    × (is_some declared.declarations.autonomy.deadline ≡ true)
    × (is_some declared.declarations.autonomy.attempt_cap ≡ true)
evaluate_grill_pure-clear_example =
    evaluate_grill_pure-clear declared [] (pos 0) ("scope_compatibility" ∷ []) nothing_asked
      declared_clear refl
