-- ===== src/GrillRecords/Examples.antt =====
-- The records of concrete evaluations and answers, through the theorems on internal/store/grill.go.
use ananke.Prelude.{
  length, ℕ, ◌≤◌, String, ◌≡◌, refl, true, false, none, some, List, [], ◌∷◌, ◌++◌, map, find,
  exists,
}
use ananke.Prelude.Fallible.{ok}
use ananke.Int.{pos}
use ananke.Table.Sort.{place, order_by}
use ananke.Store.Rows.{max_seq, next_seq}
use ananke.Store.Sequence.{Consecutive}
use ananke.Store.Progress.{Extends}
use ananke.Grill.Patterns.{
  codes, all, same_codes, number, is_hash, is_identifier, is_timestamp, identifier, fraction,
  days_in, is_leap,
}
use ananke.Grill.Declarations.{GrillInput, GrillDeclarations, one_of, validate_grill_input}
use ananke.Grill.Rules.{
  member, rule_by_class, rule_class_in, grill_rule_by_class, grill_rule_class, grill_rule_triggered,
}
use ananke.Grill.{
  existing_classes, waived_classes, smallest, min_grill, active_rules, new_limit, budgeted,
  rewrite_needed, evaluate_grill_pure,
}
use ananke.GrillRecords.Rows.{GrillRevisionIdentity, question_v1, override_v1, RecordRow, GrillDb}
use ananke.GrillRecords.Actions.{record_grill_operator_action, list_grill_records}
use ananke.GrillRecords.Evaluations.{GrillEvaluated, evaluate_grill, identity_of}
use ananke.GrillRecords.Calls.{Call, evaluate, act, run_calls}
use ananke.GrillRecords.Repeats.{record_grill_operator_action_again}
use ananke.GrillRecords.Stream.{list_grill_records_append_only}
use ananke.GrillRecords.Bounds.{asked_about, ceiling, run_calls-ceiling}

-- What a run of the calls has to open.
evaluation : Unit {0}
unfolding run_calls asked_about next_seq max_seq find exists place active_rules all budgeted codes
    days_in evaluate_grill_pure existing_classes fraction identifier is_leap grill_rule_by_class
    grill_rule_class grill_rule_triggered is_hash is_identifier is_timestamp member min_grill
    new_limit number one_of order_by rewrite_needed rule_by_class rule_class_in same_codes smallest
    validate_grill_input waived_classes
evaluation = tt

-- Nothing is declared but the evidence.
abbrev undeclared : GrillInput
undeclared = record {
  schema_version = "ananke.grill.input.v1";
  proposal_id = "proposal_7";
  revision = pos 1;
  revision_hash = "sha256:0123456789abcdef0123456789abcdef0123456789abcdef0123456789abcdef";
  declarations = record {
    observable_outcome = "absent";
    scope_compatibility = "absent";
    acceptance_evidence = "declared";
    destructive_external = "none";
    local_authorization = "not_required";
    adapter_mode = "none";
    worktree_isolation = "not_applicable";
    autonomy = record { deadline = none; attempt_cap = none };
  };
}

abbrev first_revision : GrillRevisionIdentity
first_revision = identity_of undeclared

abbrev digest : List ℕ → String
digest bytes = "00"

-- The revision is there, and it has no records.
abbrev unasked : GrillDb
unasked = record {
  revisions =
      record {
        proposal_id = "proposal_7";
        revision = 1;
        revision_hash = "sha256:0123456789abcdef0123456789abcdef0123456789abcdef0123456789abcdef";
        snapshot_json = [];
      }
      ∷ [];
  evaluations = [];
  records = [];
}

abbrev asking : Call
asking = evaluate (record {
  input = undeclared;
  input_hash = "sha256:00";
  rule_version = "ananke.grill.rules.v1";
})

abbrev waiving : Call
waiving = act first_revision "grill_question_scope_compatibility" override_v1

-- One question is asked.
abbrev asked : GrillDb
asked = record unasked {
  records =
      record {
        identity = first_revision;
        rule_version = "ananke.grill.rules.v1";
        record_sequence = 1;
        schema = question_v1;
        question_id = "grill_question_scope_compatibility";
        question_sequence = some 1;
        rule_class = some "scope_compatibility";
        risk = some "medium";
        blocking = some true;
        waivable = some true;
        default_value = some "needs_rewrite";
        remedial_step = some "declare_scope_compatibility";
        answer_value = none;
        override_value = none;
        written_at = 5;
        written_by = "deterministic_grill";
      }
      ∷ [];
}

abbrev override_row : RecordRow
override_row = record {
  identity = first_revision;
  rule_version = "ananke.grill.rules.v1";
  record_sequence = 2;
  schema = override_v1;
  question_id = "grill_question_scope_compatibility";
  question_sequence = none;
  rule_class = none;
  risk = none;
  blocking = none;
  waivable = none;
  default_value = none;
  remedial_step = none;
  answer_value = none;
  override_value = some "waived";
  written_at = 6;
  written_by = "local_gui_operator";
}

abbrev waived : GrillDb
waived = record asked { records = asked.records ++ override_row ∷ [] }

record_grill_operator_action_again_example :
    record_grill_operator_action first_revision "grill_question_scope_compatibility" override_v1 9
      waived
    ≡ ok (false, waived)
unfolding record_grill_operator_action next_seq max_seq find exists
record_grill_operator_action_again_example =
    record_grill_operator_action_again first_revision "grill_question_scope_compatibility"
      override_v1 6 asked waived true refl 9

list_grill_records_append_only_example :
    Consecutive 1 (
      map
        (λ r. r.record_sequence)
        (list_grill_records first_revision (run_calls digest ((asking, 5) ∷ []) unasked)))
    × Extends (list_grill_records first_revision (run_calls digest ((asking, 5) ∷ []) unasked)) (
        list_grill_records first_revision (
          run_calls digest
            ((waiving, 6) ∷ (asking, 7) ∷ [])
            (run_calls digest ((asking, 5) ∷ []) unasked)))
list_grill_records_append_only_example =
    list_grill_records_append_only digest ((asking, 5) ∷ []) ((waiving, 6) ∷ (asking, 7) ∷ [])
      unasked refl first_revision

-- A question of rules that are to come.
abbrev future : ℕ → String → RecordRow
future n question_id = record override_row {
  rule_version = "ananke.grill.rules.v2";
  record_sequence = n;
  schema = question_v1;
  question_id = question_id;
  question_sequence = some n;
  rule_class = some question_id;
}

-- Nine of them are there.
abbrev nine_asked : GrillDb
nine_asked = record unasked {
  records =
      future 1 "a"
      ∷ future 2 "b"
      ∷ future 3 "c"
      ∷ future 4 "d"
      ∷ future 5 "e"
      ∷ future 6 "f"
      ∷ future 7 "g"
      ∷ future 8 "h"
      ∷ future 9 "i"
      ∷ [];
}

run_calls-ceiling_example :
    asked_about first_revision
      (run_calls digest ((asking, 5) ∷ (asking, 7) ∷ []) nine_asked).records
    ≤ ceiling (asked_about first_revision nine_asked.records)
run_calls-ceiling_example =
    run_calls-ceiling digest ((asking, 5) ∷ (asking, 7) ∷ []) nine_asked first_revision

-- Only one of the three that ask is asked.
ten_asked :
    asked_about first_revision
      (run_calls digest ((asking, 5) ∷ (asking, 7) ∷ []) nine_asked).records
    ≡ 10
unfolding evaluation asked_about run_calls
ten_asked = refl

-- Three questions are asked; the second evaluation, after the waiver, asks none.
three_asked :
    asked_about first_revision
      (run_calls digest ((asking, 5) ∷ (waiving, 6) ∷ (asking, 7) ∷ []) unasked).records
    ≡ 3
unfolding evaluation asked_about run_calls
three_asked = refl

abbrev with_declarations : GrillDeclarations → Call
with_declarations d = evaluate (record {
  input = record undeclared { declarations = d };
  input_hash = "sha256:00";
  rule_version = "ananke.grill.rules.v1";
})

-- Declarations that trigger every class, every class but the budget, and the budget alone.
abbrev nothing_declared : GrillDeclarations
nothing_declared = record {
  observable_outcome = "absent";
  scope_compatibility = "absent";
  acceptance_evidence = "absent";
  destructive_external = "declared";
  local_authorization = "unrecorded";
  adapter_mode = "read_only";
  worktree_isolation = "not_isolated";
  autonomy = record { deadline = none; attempt_cap = none };
}

abbrev only_budget : GrillDeclarations
only_budget = record nothing_declared {
  autonomy = record { deadline = some "2028-02-29T23:59:59Z"; attempt_cap = some (pos 3) };
}

abbrev all_but_budget : GrillDeclarations
all_but_budget = record {
  observable_outcome = "declared";
  scope_compatibility = "declared";
  acceptance_evidence = "declared";
  destructive_external = "none";
  local_authorization = "not_required";
  adapter_mode = "none";
  worktree_isolation = "not_applicable";
  autonomy = record { deadline = none; attempt_cap = none };
}

-- After five classes and then the sixth are asked, an evaluation that triggers all shows six.
six_shown_at_last :
    (r : GrillEvaluated × GrillDb) × (evaluate_grill digest
        (record {
          input = record undeclared { declarations = nothing_declared };
          input_hash = "sha256:00";
          rule_version = "ananke.grill.rules.v1";
        })
        7
        (run_calls digest
          ((with_declarations only_budget, 5) ∷ (with_declarations all_but_budget, 6) ∷ [])
          unasked)
      ≡ ok r)
    × (length r.0.shown_question_ids ≡ 6)
unfolding evaluation run_calls
six_shown_at_last = (_, refl, refl)
