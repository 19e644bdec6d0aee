-- ===== src/GrillRecords/Evaluations.antt =====
-- internal/store/grill.go: HashGrillInput and EvaluateGrill, with the history of a revision that an
-- evaluation reads.
use Prim.Native.String.{◌++◌ as ◌<>◌}
use ananke.Prelude.{
  ℕ, suc, ◌+◌, String, Bool, true, false, ◌&&◌, not, Option, none, some, List, [], ◌∷◌, ◌++◌, keep,
  ◌==◌, length, if◌then◌else◌, exists,
}
use ananke.Prelude.Fallible.{Fallible, ok, ◌>>=◌, ◌>>◌, fail_if, or_fail}
use ananke.Int.{pos, pos_part}
use ananke.Table.Sort.{order_by}
use ananke.Proposals.Json.{Json, null, text, integer, object, no_fields, field, canonical_json}
use ananke.Grill.Declarations.{
  GrillError, grill_input_hash_mismatch, grill_rule_version, grill_scan, GrillAutonomy,
  GrillDeclarations, GrillInput, validate_grill_input,
}
use ananke.Grill.Rules.{GrillRule, grill_question_id, grill_rule_by_class, grill_rule_class}
use ananke.Grill.{GrillEvaluation, evaluate_grill_pure}
use ananke.GrillRecords.Rows.{
  GrillRevisionIdentity, same_tuple, question_v1, override_v1, same_schema, RecordRow,
  EvaluationRow, GrillDb, validate_grill_revision_identity, of_revision, next_record, insert_record,
}

abbrev optional {ℓ} : {A : Type ℓ} → (A → Json) → Option A → Json
optional write none = null
optional write (some value) = write value

-- The numbers are positive, since a valid input is written only.
unfoldable pub autonomy_value : GrillAutonomy → Json
autonomy_value a = object (
    field "deadline" (optional text a.deadline)
      (field "attempt_cap" (optional (λ cap. integer (pos_part cap)) a.attempt_cap) no_fields))

unfoldable pub declarations_value : GrillDeclarations → Json
unfolding autonomy_value
declarations_value d = object (
    field "observable_outcome" (text d.observable_outcome) (
      field "scope_compatibility" (text d.scope_compatibility) (
        field "acceptance_evidence" (text d.acceptance_evidence) (
          field "destructive_external" (text d.destructive_external) (
            field "local_authorization" (text d.local_authorization) (
              field "adapter_mode" (text d.adapter_mode) (
                field "worktree_isolation" (text d.worktree_isolation)
                  (field "autonomy" (autonomy_value d.autonomy) no_fields))))))))

unfoldable pub grill_input_canonical_value : GrillInput → Json
unfolding declarations_value
grill_input_canonical_value input = object (
    field "schema_version" (text input.schema_version) (
      field "proposal_id" (text input.proposal_id) (
        field "revision" (integer (pos_part input.revision)) (
          field "revision_hash" (text input.revision_hash)
            (field "declarations" (declarations_value input.declarations) no_fields)))))

pub record GrillEvaluationRequest : Type 0 where
  pub input : GrillInput
  pub input_hash : String
  pub rule_version : String

-- The count of the questions, the classes that were asked, and those that were waived.
pub record GrillHistory : Type 0 where
  pub question_count : ℕ
  pub existing : List String
  pub waived : List String

abbrev sequence_or_zero : Option ℕ → ℕ
sequence_or_zero none = 0
sequence_or_zero (some sequence) = sequence

unfoldable pub scan_classes : List RecordRow → Fallible GrillError (List String)
scan_classes [] = ok []
scan_classes (r ∷ rows) = or_fail r.rule_class grill_scan >>= λ rule_class.
    scan_classes rows >>= λ rest. ok (rule_class ∷ rest)

unfoldable pub questions : List RecordRow → List RecordRow
unfolding same_schema
questions rows = keep (λ r. same_schema r.schema question_v1) rows

-- The join of an override with its question.
unfoldable pub overridden : List RecordRow → List RecordRow → List RecordRow
unfolding same_tuple
overridden asked [] = []
overridden asked (o ∷ overrides) =
    keep
      (λ q.
        same_tuple q.identity o.identity
        && q.rule_version == o.rule_version
        && q.question_id == o.question_id)
      asked
    ++ overridden asked overrides

-- The questions of the rules' version, in their order, and those that were overridden.
unfoldable pub existing_rows : List RecordRow → List RecordRow
unfolding questions order_by
existing_rows rows =
    order_by (λ r. sequence_or_zero r.question_sequence)
      (keep (λ r. r.rule_version == "ananke.grill.rules.v1") (questions rows))

unfoldable pub waived_rows : List RecordRow → List RecordRow
unfolding questions overridden order_by same_schema
waived_rows rows = overridden (questions rows) (
    order_by (λ r. r.record_sequence)
      (keep (λ r. r.rule_version == "ananke.grill.rules.v1" && same_schema r.schema override_v1)
        rows))

unfoldable pub load_grill_history :
    GrillRevisionIdentity → GrillDb → Fallible GrillError GrillHistory
unfolding of_revision scan_classes existing_rows waived_rows questions
load_grill_history identity db =
    let rows = of_revision identity db.records in
    do
      existing ← scan_classes (existing_rows rows)
      waived ← scan_classes (waived_rows rows)
      ok (record { question_count = length (questions rows); existing = existing; waived = waived })

-- The primary key of grill_evaluations.
unfoldable pub has_evaluation : GrillRevisionIdentity → String → String → EvaluationRow → Bool
unfolding same_tuple
has_evaluation identity rule_version input_hash e =
    same_tuple e.identity identity && e.rule_version == rule_version && e.input_hash == input_hash

-- INSERT OR IGNORE; the Boolean says whether a row was added.
unfoldable pub insert_grill_evaluation :
    GrillRevisionIdentity → String → String → List ℕ → ℕ → GrillDb → Bool × GrillDb
unfolding has_evaluation
insert_grill_evaluation identity rule_version input_hash input_json now db =
    if exists (has_evaluation identity rule_version input_hash) db.evaluations
    then (false, db)
    else (
      true,
      record db {
        evaluations =
            db.evaluations
            ++ record {
              identity = identity;
              rule_version = rule_version;
              input_hash = input_hash;
              input_json = input_json;
              created_at = now;
            }
              ∷ [];
      },
    )

unfoldable pub question_row : GrillRevisionIdentity → String → ℕ → ℕ → GrillRule → ℕ → RecordRow
question_row identity rule_version sequence prior rule now = record {
  identity = identity;
  rule_version = rule_version;
  record_sequence = sequence;
  schema = question_v1;
  question_id = grill_question_id rule.class;
  question_sequence = some (suc prior);
  rule_class = some rule.class;
  risk = some rule.risk;
  blocking = some rule.blocking;
  waivable = some rule.waivable;
  default_value = some rule.default;
  remedial_step = some rule.remedial_step;
  answer_value = none;
  override_value = none;
  written_at = now;
  written_by = "deterministic_grill";
}

unfoldable pub insert_grill_question :
    GrillRevisionIdentity → String → ℕ → GrillRule → ℕ → GrillDb → Fallible GrillError GrillDb
unfolding question_row next_record insert_record
insert_grill_question identity rule_version prior rule now db =
    insert_record (question_row identity rule_version (next_record identity db) prior rule now) db

-- The zero value of grillRule, which a lookup that fails gives.
abbrev pub rule_or_zero : Option GrillRule → GrillRule
rule_or_zero none = record {
  priority = 0;
  class = "";
  risk = "";
  blocking = false;
  waivable = false;
  default = "";
  remedial_step = "";
}
rule_or_zero (some rule) = rule

abbrev pub class_or_zero : Option String → String
class_or_zero none = ""
class_or_zero (some rule_class) = rule_class

-- The loop over the new questions.
unfoldable pub insert_questions :
    GrillRevisionIdentity → String → ℕ → List String → ℕ → GrillDb → Fallible GrillError GrillDb
unfolding insert_grill_question
insert_questions identity rule_version prior [] now db = ok db
insert_questions identity rule_version prior (question_id ∷ ids) now db =
    let rule_class = class_or_zero (grill_rule_class question_id) in
    insert_grill_question identity rule_version prior
      (rule_or_zero (grill_rule_by_class rule_class)) now db
    >>= λ next. insert_questions identity rule_version (suc prior) ids now next

-- What EvaluateGrill returns: the result of the evaluation, with the hash and the count filled in.
pub record GrillEvaluated : Type 0 where
  pub evaluation : GrillEvaluation
  pub open evaluation use *
  pub input_hash : String
  pub new_records : ℕ

abbrev pub identity_of : GrillInput → GrillRevisionIdentity
identity_of input = record {
  proposal_id = input.proposal_id;
  revision = input.revision;
  revision_hash = input.revision_hash;
}

module _ (sha256_hex : List ℕ → String) where
  unfoldable pub hash_grill_input : GrillInput → Fallible GrillError String
  unfolding validate_grill_input canonical_json grill_input_canonical_value
  hash_grill_input input =
      validate_grill_input input
      >> ok ("sha256:" <> sha256_hex (canonical_json (grill_input_canonical_value input)))

  unfoldable pub evaluate_grill :
      GrillEvaluationRequest → ℕ → GrillDb → Fallible GrillError (GrillEvaluated × GrillDb)
  unfolding hash_grill_input load_grill_history insert_grill_evaluation insert_questions
      validate_grill_revision_identity
  evaluate_grill request now db = do
    validate_grill_input request.input
    fail_if (not (request.rule_version == "ananke.grill.rules.v1")) grill_rule_version
    computed ← hash_grill_input request.input
    validate_grill_revision_identity (identity_of request.input) db
    fail_if (not (request.input_hash == computed)) grill_input_hash_mismatch
    history ← load_grill_history (identity_of request.input) db
    result ←
        evaluate_grill_pure request.input history.existing (pos history.question_count)
          history.waived
    let (created, recorded) =
        insert_grill_evaluation (identity_of request.input) request.rule_version computed
          (canonical_json (grill_input_canonical_value request.input)) now db
    after ←
        insert_questions (identity_of request.input) request.rule_version history.question_count
          result.new_question_ids now recorded
    ok (
      record {
        evaluation = result;
        input_hash = computed;
        new_records = (if created then 1 else 0) + length result.new_question_ids;
      },
      after,
    )
