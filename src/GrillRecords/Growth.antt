-- ===== src/GrillRecords/Growth.antt =====
-- internal/store/grill.go: how a call changes the records: rows are added one after another, each under
-- the next record sequence of its revision.
use ananke.Prelude.{
  ℕ, suc, String, List, [], ◌∷◌, ◌++◌, map, ◌≡◌, refl, sym, subst, ◌∙◌, inl, inr, Bool-cases, arith,
  ◌==◌, not, exists,
}
use ananke.Prelude.Fallible.{ok, fail_if, bind-ok, then-ok}
use ananke.Store.Rows.{next_seq}
use ananke.Int.{pos}
use ananke.Proposals.Json.{canonical_json}
use ananke.Grill.Declarations.{grill_rule_version, grill_input_hash_mismatch, validate_grill_input}
use ananke.Grill.Rules.{grill_rule_by_class, grill_rule_class}
use ananke.Grill.{GrillEvaluation, evaluate_grill_pure}
use ananke.GrillRecords.Rows.{
  GrillRevisionIdentity, validate_grill_revision_identity, RecordRow, GrillDb, of_revision,
  next_record, insert_record,
}
use ananke.GrillRecords.Evaluations.{
  GrillEvaluationRequest, GrillEvaluated, GrillHistory, identity_of, rule_or_zero, class_or_zero,
  question_row, has_evaluation, hash_grill_input, grill_input_canonical_value,
  insert_grill_question, insert_questions, insert_grill_evaluation, evaluate_grill,
  load_grill_history,
}
use ananke.GrillRecords.Repeats.{insert_record-ok}

-- The record sequence that comes next in a revision.
abbrev pub next_in : GrillRevisionIdentity → List RecordRow → ℕ
next_in identity rows = next_seq (map (λ r. r.record_sequence) (of_revision identity rows))

-- The later rows are the earlier ones and others, added one by one under the next sequence.
pub data Growth : List RecordRow → List RecordRow → Type 0 where
  grown : {rows : List RecordRow} → Growth rows rows
  one_more :
      {rows later : List RecordRow} (row : RecordRow)
      → row.record_sequence ≡ next_in row.identity rows
      → Growth (rows ++ row ∷ []) later
      → Growth rows later

pub Growth-trans : {a b c : List RecordRow} → Growth a b → Growth b c → Growth a c
Growth-trans grown h = h
Growth-trans (one_more row s g) h = one_more row s (Growth-trans g h)

pub insert_record-Growth :
    (row : RecordRow) (db next : GrillDb)
    → row.record_sequence ≡ next_in row.identity db.records
    → insert_record row db ≡ ok next
    → Growth db.records next.records
insert_record-Growth row db next s h =
    subst (λ d. Growth db.records d.records) (sym (insert_record-ok row db next h))
      (one_more row s grown)

pub insert_questions-Growth :
    (identity : GrillRevisionIdentity) (rule_version : String) (prior : ℕ) (ids : List String)
    (now : ℕ) (db next : GrillDb)
    → insert_questions identity rule_version prior ids now db ≡ ok next
    → Growth db.records next.records
unfolding insert_questions
insert_questions-Growth identity rule_version prior [] now db next h =
    let same : db ≡ next = ground (arith, h) in subst (λ d. Growth db.records d.records) same grown
insert_questions-Growth identity rule_version prior (question_id ∷ ids) now db next h =
    let rule = rule_or_zero (grill_rule_by_class (class_or_zero (grill_rule_class question_id))) in
    let (d, e, g) =
      bind-ok (insert_grill_question identity rule_version prior rule now db)
        (λ d. insert_questions identity rule_version (suc prior) ids now d) next h in
    Growth-trans
      (insert_record-Growth
        (question_row identity rule_version (next_record identity db) prior rule now) db d refl e)
      (insert_questions-Growth identity rule_version (suc prior) ids now d next g)

pub insert_grill_evaluation-records :
    (identity : GrillRevisionIdentity) (rule_version input_hash : String) (input_json : List ℕ)
    (now : ℕ) (db : GrillDb)
    → (insert_grill_evaluation identity rule_version input_hash input_json now db).1.records
      ≡ db.records
unfolding insert_grill_evaluation
insert_grill_evaluation-records identity rule_version input_hash input_json now db =
    elim (Bool-cases (exists (has_evaluation identity rule_version input_hash) db.evaluations)) [
      | inl t ↦ rw t refl
      | inr f ↦ rw f refl
    ]

module _ (sha256_hex : List ℕ → String) where
  -- What a success of EvaluateGrill says of its parts.
  pub record Evaluated (request : GrillEvaluationRequest) (now : ℕ) (db : GrillDb)
      (r : GrillEvaluated × GrillDb) : Type 0 where
    pub history : GrillHistory
    pub result : GrillEvaluation
    pub recorded : GrillDb
    pub loaded : load_grill_history (identity_of request.input) db ≡ ok history
    pub outcome :
        evaluate_grill_pure request.input history.existing
          (pos history.question_count)
          history.waived
        ≡ ok result
    pub kept : recorded.records ≡ db.records
    pub asked :
        insert_questions
          (identity_of request.input)
          request.rule_version
          history.question_count
          result.new_question_ids
          now
          recorded
        ≡ ok r.1

  pub evaluate_grill-Evaluated :
      (request : GrillEvaluationRequest) (now : ℕ) (db : GrillDb) (r : GrillEvaluated × GrillDb)
      → evaluate_grill sha256_hex request now db ≡ ok r
      → Evaluated request now db r
  unfolding evaluate_grill
  evaluate_grill-Evaluated request now db r h =
      let identity = identity_of request.input in
      let (v, h1) = then-ok (validate_grill_input request.input) _ r h in
      let (k, h2) =
        then-ok (fail_if (not (request.rule_version == "ananke.grill.rules.v1")) grill_rule_version)
          _ r h1 in
      let (computed, c, h3) = bind-ok (hash_grill_input sha256_hex request.input) _ r h2 in
      let (n, h4) = then-ok (validate_grill_revision_identity identity db) _ r h3 in
      let (m, h5) =
        then-ok (fail_if (not (request.input_hash == computed)) grill_input_hash_mismatch) _ r h4 in
      let (history, l, h6) = bind-ok (load_grill_history identity db) _ r h5 in
      let (result, o, h7) =
        bind-ok
          (evaluate_grill_pure request.input history.existing (pos history.question_count)
            history.waived)
          _ r h6 in
      let inserted =
        insert_grill_evaluation identity request.rule_version computed
          (canonical_json (grill_input_canonical_value request.input)) now db in
      let (next, a, h8) =
        bind-ok
          (insert_questions identity request.rule_version history.question_count
            result.new_question_ids now inserted.1)
          _ r h7 in
      record {
        history = history;
        result = result;
        recorded = inserted.1;
        loaded = l;
        outcome = o;
        kept = insert_grill_evaluation-records identity request.rule_version computed _ now db;
        asked = a ∙ ground (arith, h8);
      }
