-- ===== src/GrillRecords/Rows.antt =====
-- internal/store/grill.go: the rows of an evaluation's records, as migrateV10 declares them, and what
-- is read and inserted. A timestamp is the time at which the operation reads the clock.
use ananke.Prelude.{
  ℕ, String, Bool, true, false, ◌&&◌, not, Option, some, List, [], ◌∷◌, ◌++◌, map, keep, ◌==◌, eqb,
  exists,
}
use ananke.Prelude.Fallible.{Fallible, ok, ◌>>◌, fail_if}
use ananke.Int.{ℤ, pos, leb_ℤ, eqb_ℤ}
use ananke.Store.Rows.{next_seq}
use ananke.Grill.Declarations.{GrillError, grill_revision_mismatch, grill_constraint}
use ananke.Proposals.Rows.{RevisionRow}

pub record GrillRevisionIdentity : Type 0 where
  pub proposal_id : String
  pub revision : ℤ
  pub revision_hash : String

unfoldable pub same_tuple : GrillRevisionIdentity → GrillRevisionIdentity → Bool
same_tuple a b =
    a.proposal_id == b.proposal_id
    && eqb_ℤ a.revision b.revision
    && a.revision_hash == b.revision_hash

-- The schema versions of the records.
pub data RecordSchema : Type 0 where
  question_v1 default_v1 answer_v1 override_v1 : RecordSchema

unfoldable pub same_schema : RecordSchema → RecordSchema → Bool
same_schema question_v1 question_v1 = true
same_schema default_v1 default_v1 = true
same_schema answer_v1 answer_v1 = true
same_schema override_v1 override_v1 = true
same_schema _ _ = false

-- A row of grill_records; a column that may be NULL is an option.
pub record RecordRow : Type 0 where
  pub identity : GrillRevisionIdentity
  pub rule_version : String
  pub record_sequence : ℕ
  pub schema : RecordSchema
  pub question_id : String
  pub question_sequence : Option ℕ
  pub rule_class : Option String
  pub risk : Option String
  pub blocking : Option Bool
  pub waivable : Option Bool
  pub default_value : Option String
  pub remedial_step : Option String
  pub answer_value : Option String
  pub override_value : Option String
  pub written_at : ℕ
  pub written_by : String

-- A row of grill_evaluations.
pub record EvaluationRow : Type 0 where
  pub identity : GrillRevisionIdentity
  pub rule_version : String
  pub input_hash : String
  pub input_json : List ℕ
  pub created_at : ℕ

pub record GrillDb : Type 0 where
  pub revisions : List RevisionRow
  pub evaluations : List EvaluationRow
  pub records : List RecordRow

unfoldable pub is_revision : GrillRevisionIdentity → RevisionRow → Bool
is_revision identity r =
    r.proposal_id == identity.proposal_id
    && eqb_ℤ (pos r.revision) identity.revision
    && r.revision_hash == identity.revision_hash

unfoldable pub validate_grill_revision_identity :
    GrillRevisionIdentity → GrillDb → Fallible GrillError (Unit {0})
unfolding is_revision
validate_grill_revision_identity identity db =
    fail_if (not (exists (is_revision identity) db.revisions)) grill_revision_mismatch

unfoldable pub of_revision : GrillRevisionIdentity → List RecordRow → List RecordRow
unfolding same_tuple
of_revision identity rows = keep (λ r. same_tuple r.identity identity) rows

-- The record sequence after the greatest of the revision.
unfoldable pub next_record : GrillRevisionIdentity → GrillDb → ℕ
unfolding of_revision
next_record identity db = next_seq (map (λ r. r.record_sequence) (of_revision identity db.records))

unfoldable pub same_number : Option ℕ → Option ℕ → Bool
same_number (some m) (some n) = eqb m n
same_number _ _ = false

-- UNIQUE (proposal_id, revision, revision_hash, rule_version, schema_version, question_id)
unfoldable pub has_record :
    GrillRevisionIdentity → String → RecordSchema → String → RecordRow → Bool
unfolding same_tuple same_schema
has_record identity rule_version schema question_id r =
    same_tuple r.identity identity
    && r.rule_version == rule_version
    && same_schema r.schema schema
    && r.question_id == question_id

-- The primary key and the key of the question's sequence, in which NULL is equal to nothing.
unfoldable pub has_place : GrillRevisionIdentity → ℕ → RecordRow → Bool
unfolding same_tuple
has_place identity sequence r = same_tuple r.identity identity && eqb r.record_sequence sequence

unfoldable pub has_question_place : GrillRevisionIdentity → Option ℕ → RecordRow → Bool
unfolding same_tuple same_number
has_question_place identity sequence r =
    same_tuple r.identity identity && same_number r.question_sequence sequence

unfoldable pub insert_record : RecordRow → GrillDb → Fallible GrillError GrillDb
unfolding has_record has_place has_question_place
insert_record row db = do
  fail_if (leb_ℤ row.identity.revision (pos 0)) grill_constraint
  fail_if (exists (has_place row.identity row.record_sequence) db.records) grill_constraint
  fail_if (exists (has_question_place row.identity row.question_sequence) db.records)
      grill_constraint
  fail_if (exists (has_record row.identity row.rule_version row.schema row.question_id) db.records)
      grill_constraint
  ok (record db { records = db.records ++ row ∷ [] })
