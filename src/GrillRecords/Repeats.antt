-- ===== src/GrillRecords/Repeats.antt =====
-- internal/store/grill.go: an action of the operator that is repeated.
use ananke.Prelude.{
  ℕ, String, Bool, true, false, ◌&&◌, not, some, [], ◌∷◌, ◌++◌, ◌≡◌, refl, sym, subst, ap, ◌∙◌, ◌⊎◌,
  inl, inr, Bool-cases, arith, find, exists, find-append, exists_last, eq_refl,
}
use ananke.Prelude.Fallible.{ok, ◌>>=◌, fail_if, or_fail, bind-ok, then-ok, fail_if-ok, or_fail-ok}
use ananke.Int.{eqb_ℤ_refl}
use ananke.Grill.Declarations.{grill_scan, grill_override_not_permitted, grill_unsupported_schema}
use ananke.GrillRecords.Rows.{
  GrillRevisionIdentity, same_tuple, RecordSchema, question_v1, override_v1, same_schema, RecordRow,
  GrillDb, validate_grill_revision_identity, next_record, has_record, insert_record,
}
use ananke.GrillRecords.Actions.{
  is_question, action_row, add_action, act_on, record_grill_operator_action,
}

pub same_tuple_refl : (a : GrillRevisionIdentity) → same_tuple a a ≡ true
unfolding same_tuple
same_tuple_refl a = rw (eq_refl a.proposal_id, eqb_ℤ_refl a.revision, eq_refl a.revision_hash) refl

pub same_schema_refl : (s : RecordSchema) → same_schema s s ≡ true
unfolding same_schema
same_schema_refl s = ground arith

-- An insertion adds its row at the end.
pub insert_record-ok :
    (row : RecordRow) (db after : GrillDb)
    → insert_record row db ≡ ok after
    → after ≡ record db { records = db.records ++ row ∷ [] }
unfolding insert_record
insert_record-ok row db after h = ground arith

-- What an action leaves, when it succeeds: the tables, or a row more that records it.
pub add_action-ok :
    (identity : GrillRevisionIdentity) (question_id : String) (schema : RecordSchema) (now : ℕ)
    (question : RecordRow) (default_value : String) (db : GrillDb) (r : Bool × GrillDb)
    → add_action identity question_id schema now question default_value db ≡ ok r
    → ((r ≡ (false, db))
        × (exists (has_record identity question.rule_version schema question_id) db.records ≡ true))
      ⊎ (r ≡ (
        true,
        record db {
          records =
              db.records
              ++ action_row identity question.rule_version
                  (next_record identity db)
                  schema
                  question_id
                  default_value
                  now
                ∷ [];
        },
      ))
unfolding add_action
add_action-ok identity question_id schema now question default_value db r h =
    elim (Bool-cases
      (exists (has_record identity question.rule_version schema question_id) db.records)) [
        | inl t ↦ inl (ground (arith, h, t), t)
        | inr f ↦
            let row =
              action_row identity question.rule_version (next_record identity db) schema question_id
                default_value now in
            let inserted : (insert_record row db >>= λ after. ok (true, after)) ≡ ok r =
              ground (arith, f, h) in
            let (after, e, g) =
              bind-ok (insert_record row db) (λ after. ok (true, after)) r inserted in
            let added : r ≡ (true, after) = ground (arith, g) in
            inr (added ∙ ap (λ a. (true, a)) (insert_record-ok row db after e))
      ]

-- An action that succeeds passes the tests of the question's row, whatever the tables are.
act_on-ok :
    (identity : GrillRevisionIdentity) (question_id : String) (schema : RecordSchema) (now : ℕ)
    (question : RecordRow) (db : GrillDb) (r : Bool × GrillDb)
    → act_on identity question_id schema now question db ≡ ok r
    → (default_value : String) × (same_schema schema question_v1 ≡ false)
      × ((later : ℕ) (d : GrillDb)
          → act_on identity question_id schema later question d
            ≡ add_action identity question_id schema later question default_value d)
unfolding act_on
act_on-ok identity question_id schema now question db r h =
    let (rule_class, c, h1) = bind-ok (or_fail question.rule_class grill_scan) _ r h in
    let (waivable, w, h2) = bind-ok (or_fail question.waivable grill_scan) _ r h1 in
    let (default_value, v, h3) = bind-ok (or_fail question.default_value grill_scan) _ r h2 in
    let (permitted, h4) =
      then-ok
        (fail_if (same_schema schema override_v1 && not waivable) grill_override_not_permitted) _ r
        h3 in
    let (supported, h5) =
      then-ok (fail_if (same_schema schema question_v1) grill_unsupported_schema) _ r h4 in
    (default_value, fail_if-ok _ _ supported, λ later d. rw (c, w, v, permitted, supported) refl)

-- What a success says of the question's row.
pub record Admitted (identity : GrillRevisionIdentity) (question_id : String)
    (schema : RecordSchema) (now : ℕ) (db : GrillDb) (r : Bool × GrillDb) : Type 0 where
  pub question : RecordRow
  pub default_value : String
  pub named : validate_grill_revision_identity identity db ≡ ok tt
  pub found : find (is_question identity question_id) db.records ≡ some question
  pub answers : same_schema schema question_v1 ≡ false
  pub acts :
      (later : ℕ) (d : GrillDb)
      → act_on identity question_id schema later question d
        ≡ add_action identity question_id schema later question default_value d
  pub added : add_action identity question_id schema now question default_value db ≡ ok r

pub record_grill_operator_action-Admitted :
    (identity : GrillRevisionIdentity) (question_id : String) (schema : RecordSchema) (now : ℕ)
    (db : GrillDb) (r : Bool × GrillDb)
    → record_grill_operator_action identity question_id schema now db ≡ ok r
    → Admitted identity question_id schema now db r
unfolding record_grill_operator_action
record_grill_operator_action-Admitted identity question_id schema now db r h =
    let (named, h1) = then-ok (validate_grill_revision_identity identity db) _ r h in
    let (question, found, h2) = bind-ok _ _ r h1 in
    let some_question =
      or_fail-ok (find (is_question identity question_id) db.records) _ question found in
    let (default_value, answers, acts) =
      act_on-ok identity question_id schema now question db r h2 in
    record {
      question = question;
      default_value = default_value;
      named = named;
      found = some_question;
      answers = answers;
      acts = acts;
      added = sym (acts now db) ∙ h2;
    }

-- The new row is found by its key.
has_record-action_row :
    (identity : GrillRevisionIdentity) (rule_version : String) (sequence : ℕ)
    (schema : RecordSchema) (question_id default_value : String) (now : ℕ)
    → has_record identity rule_version schema question_id
        (action_row identity rule_version sequence schema question_id default_value now)
      ≡ true
unfolding has_record action_row
has_record-action_row identity rule_version sequence schema question_id default_value now =
    rw
      (same_tuple_refl identity, eq_refl rule_version, same_schema_refl schema, eq_refl question_id)
      refl

-- Once the record is there, the action adds nothing.
repeated :
    (identity : GrillRevisionIdentity) (question_id : String) (schema : RecordSchema) (later : ℕ)
    (db d : GrillDb) (now : ℕ) (r : Bool × GrillDb)
    (a : Admitted identity question_id schema now db r)
    → validate_grill_revision_identity identity d ≡ ok tt
    → find (is_question identity question_id) d.records ≡ some a.question
    → exists (has_record identity a.question.rule_version schema question_id) d.records ≡ true
    → record_grill_operator_action identity question_id schema later d ≡ ok (false, d)
unfolding record_grill_operator_action add_action
repeated identity question_id schema later db d now r a named found there =
    rw (named, found) (a.acts later d ∙ rw there refl)

-- If RecordGrillDefault, RecordGrillAnswer or RecordGrillOverride succeeds on a question, then the same
-- action again, at any later time, succeeds, says that it adds no row, and leaves the tables as they are.
pub record_grill_operator_action_again :
    (identity : GrillRevisionIdentity) (question_id : String) (schema : RecordSchema) (now : ℕ)
    (db after : GrillDb) (written : Bool)
    → record_grill_operator_action identity question_id schema now db ≡ ok (written, after)
    → (later : ℕ)
    → record_grill_operator_action identity question_id schema later after ≡ ok (false, after)
unfolding validate_grill_revision_identity
record_grill_operator_action_again identity question_id schema now db after written h later =
    let a =
      record_grill_operator_action-Admitted identity question_id schema now db (written, after) h in
    elim (add_action-ok identity question_id schema now a.question a.default_value db
      (written, after) a.added) [
        | inl (same, there) ↦
            subst
              (λ d.
                record_grill_operator_action identity question_id schema later d ≡ ok (false, d))
              (sym (ap (λ r. r.1) same))
              (repeated identity question_id schema later db db now (written, after) a a.named
                a.found there)
        | inr new ↦
            subst
              (λ d.
                record_grill_operator_action identity question_id schema later d ≡ ok (false, d))
              (sym (ap (λ r. r.1) new))
              (repeated identity question_id schema later db _ now (written, after) a a.named
                (find-append (is_question identity question_id) db.records _ a.question a.found)
                (exists_last (has_record identity a.question.rule_version schema question_id)
                  db.records
                  (action_row identity a.question.rule_version (next_record identity db) schema
                    question_id a.default_value now)
                  (has_record-action_row identity a.question.rule_version (next_record identity db)
                    schema question_id a.default_value now)))
      ]
