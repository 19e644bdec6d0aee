-- ===== src/GrillRecords/Actions.antt =====
-- internal/store/grill.go: RecordGrillDefault, RecordGrillAnswer, RecordGrillOverride and
-- ListGrillRecords.
use ananke.Prelude.{
  ℕ, String, Bool, true, false, ◌&&◌, not, Option, none, some, List, map, ◌==◌, if◌then◌else◌, find,
  exists,
}
use ananke.Prelude.Fallible.{Fallible, ok, ◌>>=◌, ◌>>◌, fail_if, or_fail}
use ananke.Table.Sort.{order_by}
use ananke.Grill.Declarations.{
  GrillError, grill_question_not_found, grill_override_not_permitted, grill_unsupported_schema,
  grill_scan,
}
use ananke.GrillRecords.Rows.{
  GrillRevisionIdentity, same_tuple, RecordSchema, question_v1, default_v1, answer_v1, override_v1,
  same_schema, RecordRow, GrillDb, validate_grill_revision_identity, of_revision, next_record,
  has_record, insert_record,
}

-- The row that asks a question.
unfoldable pub is_question : GrillRevisionIdentity → String → RecordRow → Bool
unfolding same_tuple same_schema
is_question identity question_id r =
    same_tuple r.identity identity
    && same_schema r.schema question_v1
    && r.question_id == question_id

unfoldable pub nullable_grill_default : RecordSchema → String → Option String
nullable_grill_default default_v1 value = some value
nullable_grill_default _ value = none

unfoldable pub writer_of : RecordSchema → String
writer_of default_v1 = "deterministic_grill"
writer_of _ = "local_gui_operator"

unfoldable pub answer_of : RecordSchema → Option String
answer_of answer_v1 = some "acknowledged"
answer_of _ = none

unfoldable pub override_of : RecordSchema → Option String
override_of override_v1 = some "waived"
override_of _ = none

-- The row that records an action on a question, all of whose columns on the rule are NULL.
unfoldable pub action_row :
    GrillRevisionIdentity → String → ℕ → RecordSchema → String → String → ℕ → RecordRow
unfolding nullable_grill_default writer_of answer_of override_of
action_row identity rule_version sequence schema question_id default_value now = record {
  identity = identity;
  rule_version = rule_version;
  record_sequence = sequence;
  schema = schema;
  question_id = question_id;
  question_sequence = none;
  rule_class = none;
  risk = none;
  blocking = none;
  waivable = none;
  default_value = nullable_grill_default schema default_value;
  remedial_step = none;
  answer_value = answer_of schema;
  override_value = override_of schema;
  written_at = now;
  written_by = writer_of schema;
}

-- The row is added unless it is there.
unfoldable pub add_action :
    GrillRevisionIdentity
    → String
    → RecordSchema
    → ℕ
    → RecordRow
    → String
    → GrillDb
    → Fallible GrillError (Bool × GrillDb)
unfolding action_row has_record next_record insert_record
add_action identity question_id schema now question default_value db =
    if exists (has_record identity question.rule_version schema question_id) db.records
    then ok (false, db)
    else (insert_record
          (action_row identity question.rule_version (next_record identity db) schema question_id
            default_value now)
          db
        >>= λ after. ok (true, after))

-- The action on a question whose row is found; the Boolean says whether a row was added.
unfoldable pub act_on :
    GrillRevisionIdentity
    → String
    → RecordSchema
    → ℕ
    → RecordRow
    → GrillDb
    → Fallible GrillError (Bool × GrillDb)
unfolding same_schema add_action
act_on identity question_id schema now question db = do
  rule_class ← or_fail question.rule_class grill_scan
  waivable ← or_fail question.waivable grill_scan
  default_value ← or_fail question.default_value grill_scan
  fail_if (same_schema schema override_v1 && not waivable) grill_override_not_permitted
  fail_if (same_schema schema question_v1) grill_unsupported_schema
  add_action identity question_id schema now question default_value db

unfoldable pub record_grill_operator_action :
    GrillRevisionIdentity
    → String
    → RecordSchema
    → ℕ
    → GrillDb
    → Fallible GrillError (Bool × GrillDb)
unfolding is_question validate_grill_revision_identity act_on
record_grill_operator_action identity question_id schema now db = do
  validate_grill_revision_identity identity db
  question ← or_fail (find (is_question identity question_id) db.records) grill_question_not_found
  act_on identity question_id schema now question db

unfoldable pub record_grill_default :
    GrillRevisionIdentity → String → ℕ → GrillDb → Fallible GrillError (Bool × GrillDb)
unfolding record_grill_operator_action
record_grill_default identity question_id now db =
    record_grill_operator_action identity question_id default_v1 now db

unfoldable pub record_grill_answer :
    GrillRevisionIdentity → String → ℕ → GrillDb → Fallible GrillError (Bool × GrillDb)
unfolding record_grill_operator_action
record_grill_answer identity question_id now db =
    record_grill_operator_action identity question_id answer_v1 now db

unfoldable pub record_grill_override :
    GrillRevisionIdentity → String → ℕ → GrillDb → Fallible GrillError (Bool × GrillDb)
unfolding record_grill_operator_action
record_grill_override identity question_id now db =
    record_grill_operator_action identity question_id override_v1 now db

-- A record as it is read back; a NULL is the zero value.
pub record GrillRecord : Type 0 where
  pub identity : GrillRevisionIdentity
  pub rule_version : String
  pub record_sequence : ℕ
  pub schema : RecordSchema
  pub question_id : String
  pub question_sequence : ℕ
  pub rule_class : String
  pub risk : String
  pub blocking : Bool
  pub waivable : Bool
  pub default : String
  pub remedial_step : String
  pub answer : String
  pub override : String
  pub written_at : ℕ
  pub written_by : String

abbrev or_zero {ℓ} : {A : Type ℓ} → A → Option A → A
or_zero zero_value none = zero_value
or_zero zero_value (some value) = value

unfoldable pub scan_record : RecordRow → GrillRecord
scan_record r = record {
  identity = r.identity;
  rule_version = r.rule_version;
  record_sequence = r.record_sequence;
  schema = r.schema;
  question_id = r.question_id;
  question_sequence = or_zero 0 r.question_sequence;
  rule_class = or_zero "" r.rule_class;
  risk = or_zero "" r.risk;
  blocking = or_zero false r.blocking;
  waivable = or_zero false r.waivable;
  default = or_zero "" r.default_value;
  remedial_step = or_zero "" r.remedial_step;
  answer = or_zero "" r.answer_value;
  override = or_zero "" r.override_value;
  written_at = r.written_at;
  written_by = r.written_by;
}

unfoldable pub list_grill_records : GrillRevisionIdentity → GrillDb → List GrillRecord
unfolding of_revision order_by scan_record
list_grill_records identity db =
    map scan_record (order_by (λ r. r.record_sequence) (of_revision identity db.records))
