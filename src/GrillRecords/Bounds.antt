-- ===== src/GrillRecords/Bounds.antt =====
-- internal/store/grill.go: how many questions are ever asked about a revision.
use ananke.Prelude.{
  ℕ, suc, ◌+◌, ◌≤◌, String, Bool, false, List, [], ◌∷◌, ◌++◌, ◌≡◌, refl, sym, ap, subst, ◌∙◌, inl,
  inr, Bool-cases, arith, length, leb, if◌then◌else◌, keep-append, length-append,
}
use ananke.Prelude.Fallible.{ok, after, bind-ok, Fallible-cases}
use ananke.Int.{pos}
use ananke.GrillRecords.Stream.{of_revision_own, of_revision_other}
use ananke.Grill.Rules.{grill_rule_by_class, grill_rule_class}
use ananke.Grill.Budget.{evaluate_grill_pure-limit}
use ananke.GrillRecords.Rows.{
  GrillRevisionIdentity, same_tuple, RecordSchema, question_v1, same_schema, RecordRow, GrillDb,
  of_revision, next_record,
}
use ananke.GrillRecords.Actions.{action_row, record_grill_operator_action}
use ananke.GrillRecords.Evaluations.{
  GrillHistory, questions, load_grill_history, question_row, insert_grill_question,
  insert_questions, rule_or_zero, class_or_zero, identity_of, evaluate_grill,
  GrillEvaluationRequest, scan_classes, existing_rows, waived_rows, GrillEvaluated,
}
use ananke.GrillRecords.Calls.{Call, evaluate, act, call, run_calls}
use ananke.GrillRecords.Repeats.{
  same_tuple_refl, insert_record-ok, add_action-ok, record_grill_operator_action-Admitted,
}
use ananke.GrillRecords.Growth.{evaluate_grill-Evaluated}
use ananke.GrillRecords.Stream.{of_revision-added, same_tuple-eq}

-- The number of questions that are asked about a revision.
unfoldable pub asked_about : GrillRevisionIdentity → List RecordRow → ℕ
asked_about identity rows = length (questions (of_revision identity rows))

asked_about-added :
    (identity : GrillRevisionIdentity) (rows : List RecordRow) (row : RecordRow)
    → asked_about identity (rows ++ row ∷ [])
      ≡ asked_about identity rows + asked_about identity (row ∷ [])
unfolding asked_about questions
asked_about-added identity rows row =
    let those = of_revision identity rows in
    let new = of_revision identity (row ∷ []) in
    ap (λ rows. length (questions rows)) (of_revision-added identity rows row)
    ∙ ap length (keep-append (λ r. same_schema r.schema question_v1) those new)
    ∙ length-append (questions those) (questions new)

asked_about_own :
    (identity : GrillRevisionIdentity) (row : RecordRow)
    → row.schema ≡ question_v1
    → row.identity ≡ identity
    → asked_about identity (row ∷ []) ≡ 1
unfolding asked_about questions
asked_about_own identity row q e =
    rw (of_revision_own identity row (rw e (same_tuple_refl identity)), q) refl

asked_about_other :
    (identity : GrillRevisionIdentity) (row : RecordRow)
    → same_tuple row.identity identity ≡ false
    → asked_about identity (row ∷ []) ≡ 0
unfolding asked_about questions
asked_about_other identity row f = rw (of_revision_other identity row f) refl

asked_about_answer :
    (identity : GrillRevisionIdentity) (row : RecordRow)
    → same_schema row.schema question_v1 ≡ false
    → asked_about identity (row ∷ []) ≡ 0
unfolding asked_about questions of_revision
asked_about_answer identity row f = elim (Bool-cases (same_tuple row.identity identity)) [
  | inl t ↦ rw t (rw f refl)
  | inr other ↦ rw other refl
]

-- The rows that the loop over the new questions adds, in the revision that they are of and in another.
module _ (identity : GrillRevisionIdentity) (rule_version : String) (now : ℕ) where
  asked_about-insert_questions :
      (prior : ℕ) (ids : List String) (db next : GrillDb)
      → insert_questions identity rule_version prior ids now db ≡ ok next
      → asked_about identity next.records ≡ asked_about identity db.records + length ids
  unfolding insert_questions
  asked_about-insert_questions prior [] db next h =
      let same : db ≡ next = ground (arith, h) in
      ap (λ (d : GrillDb). asked_about identity d.records) (sym same) ∙ omega arith
  asked_about-insert_questions prior (question_id ∷ ids) db next h =
      let rule =
        rule_or_zero (grill_rule_by_class (class_or_zero (grill_rule_class question_id))) in
      let row = question_row identity rule_version (next_record identity db) prior rule now in
      let (d, e, g) =
        bind-ok (insert_grill_question identity rule_version prior rule now db)
          (λ d. insert_questions identity rule_version (suc prior) ids now d) next h in
      let rest = asked_about-insert_questions (suc prior) ids d next g in
      let grows : asked_about identity d.records ≡ asked_about identity (db.records ++ row ∷ []) =
        ap (λ (x : GrillDb). asked_about identity x.records) (insert_record-ok row db d e) in
      let added = asked_about-added identity db.records row in
      let own = asked_about_own identity row refl refl in omega (arith, rest, grows, added, own)

  asked_about-insert_questions_other :
      (about : GrillRevisionIdentity) (prior : ℕ) (ids : List String) (db next : GrillDb)
      → same_tuple identity about ≡ false
      → insert_questions identity rule_version prior ids now db ≡ ok next
      → asked_about about next.records ≡ asked_about about db.records
  unfolding insert_questions
  asked_about-insert_questions_other about prior [] db next f h =
      let same : db ≡ next = ground (arith, h) in
      ap (λ (d : GrillDb). asked_about about d.records) (sym same)
  asked_about-insert_questions_other about prior (question_id ∷ ids) db next f h =
      let rule =
        rule_or_zero (grill_rule_by_class (class_or_zero (grill_rule_class question_id))) in
      let row = question_row identity rule_version (next_record identity db) prior rule now in
      let (d, e, g) =
        bind-ok (insert_grill_question identity rule_version prior rule now db)
          (λ d. insert_questions identity rule_version (suc prior) ids now d) next h in
      let rest = asked_about-insert_questions_other about (suc prior) ids d next f g in
      let grows : asked_about about d.records ≡ asked_about about (db.records ++ row ∷ []) =
        ap (λ (x : GrillDb). asked_about about x.records) (insert_record-ok row db d e) in
      let added = asked_about-added about db.records row in
      let other = asked_about_other about row f in omega (arith, rest, grows, added, other)

load_grill_history-count :
    (identity : GrillRevisionIdentity) (db : GrillDb) (history : GrillHistory)
    → load_grill_history identity db ≡ ok history
    → history.question_count ≡ asked_about identity db.records
unfolding load_grill_history asked_about
load_grill_history-count identity db history h =
    let rows = of_revision identity db.records in
    let (existing, e, h1) = bind-ok (scan_classes (existing_rows rows)) _ history h in
    let (waived, w, h2) = bind-ok (scan_classes (waived_rows rows)) _ history h1 in
    ground (arith, h2)

-- No more questions are asked about a revision than 10, or than there were.
unfoldable pub ceiling : ℕ → ℕ
ceiling before = if leb before 10 then 10 else before

record_grill_operator_action-asked_about :
    (identity about : GrillRevisionIdentity) (question_id : String) (schema : RecordSchema)
    (now : ℕ) (db : GrillDb) (r : Bool × GrillDb)
    → record_grill_operator_action identity question_id schema now db ≡ ok r
    → asked_about about r.1.records ≡ asked_about about db.records
unfolding action_row
record_grill_operator_action-asked_about identity about question_id schema now db r h =
    let a = record_grill_operator_action-Admitted identity question_id schema now db r h in
    elim (add_action-ok identity question_id schema now a.question a.default_value db r a.added) [
      | inl (same, there) ↦ ap (λ (p : Bool × GrillDb). asked_about about p.1.records) same
      | inr new ↦
          let row =
            action_row identity a.question.rule_version (next_record identity db) schema question_id
              a.default_value now in
          let answer = asked_about_answer about row a.answers in
          ap (λ (p : Bool × GrillDb). asked_about about p.1.records) new
          ∙ asked_about-added about db.records row
          ∙ omega (arith, answer)
    ]

ceiling-le : (n : ℕ) → 10 ≤ ceiling n
unfolding ceiling
ceiling-le n = ground arith

le-ceiling : (n : ℕ) → n ≤ ceiling n
unfolding ceiling
le-ceiling n = ground arith

-- A bound of each revision that is 10 at least.
module _ (bound : GrillRevisionIdentity → ℕ)
    (ten_fit : (identity : GrillRevisionIdentity) → 10 ≤ bound identity) where
  abbrev Bounded : List RecordRow → Type 0
  Bounded rows = (identity : GrillRevisionIdentity) → asked_about identity rows ≤ bound identity

  module _ (sha256_hex : List ℕ → String) where
    evaluate_grill-Bounded :
        (request : GrillEvaluationRequest) (now : ℕ) (db : GrillDb) (r : GrillEvaluated × GrillDb)
        → evaluate_grill sha256_hex request now db ≡ ok r
        → Bounded db.records
        → Bounded r.1.records
    evaluate_grill-Bounded request now db r h bounded about =
        let v = evaluate_grill-Evaluated sha256_hex request now db r h in
        let identity = identity_of request.input in
        let ten =
          evaluate_grill_pure-limit request.input v.history.existing (pos v.history.question_count)
            v.history.waived v.result v.outcome in
        let count = load_grill_history-count identity db v.history v.loaded in
        let kept = ap (λ rows. asked_about about rows) v.kept in
        let before = bounded about in
        elim (Bool-cases (same_tuple identity about)) [
          | inl t ↦
              let grows =
                asked_about-insert_questions identity request.rule_version now
                  v.history.question_count v.result.new_question_ids v.recorded r.1 v.asked in
              let total : asked_about identity r.1.records ≤ bound identity =
                let kept = ap (λ rows. asked_about identity rows) v.kept in
                let before = bounded identity in
                elim ten [
                  | inl none ↦ omega (arith, grows, none, kept, before)
                  | inr room ↦ omega (arith, grows, room, kept, count, ten_fit identity)
                ] in
              subst (λ i. asked_about i r.1.records ≤ bound i) (same_tuple-eq identity about t)
                total
          | inr f ↦
              let stays =
                asked_about-insert_questions_other identity request.rule_version now about
                  v.history.question_count v.result.new_question_ids v.recorded r.1 f v.asked in
              omega (arith, stays, kept, before)
        ]

    call-Bounded :
        (c : Call) (now : ℕ) (db next : GrillDb)
        → call sha256_hex c now db ≡ ok next
        → Bounded db.records
        → Bounded next.records
    unfolding call
    call-Bounded (evaluate request) now db next h bounded about =
        let (r, e, g) = bind-ok (evaluate_grill sha256_hex request now db) (λ r. ok r.1) next h in
        let same : r.1 ≡ next = ground (arith, g) in
        subst (λ (d : GrillDb). asked_about about d.records ≤ bound about) same
          (evaluate_grill-Bounded request now db r e bounded about)
    call-Bounded (act identity question_id schema) now db next h bounded about =
        let (r, e, g) =
          bind-ok (record_grill_operator_action identity question_id schema now db) (λ r. ok r.1)
            next h in
        let same : r.1 ≡ next = ground (arith, g) in
        subst (λ (d : GrillDb). asked_about about d.records ≤ bound about) same
          (subst (λ n. n ≤ bound about)
            (sym (
              record_grill_operator_action-asked_about identity about question_id schema now db r
                e))
            (bounded about))

    after-Bounded :
        (c : Call) (now : ℕ) (db : GrillDb)
        → Bounded db.records
        → Bounded (after db (call sha256_hex c now db)).records
    after-Bounded c now db bounded = elim (Fallible-cases (call sha256_hex c now db)) [
      | inl (next, e) ↦ rw e (call-Bounded c now db next e bounded)
      | inr (error, e) ↦ rw e bounded
    ]

    runs :
        (calls : List (Call × ℕ)) (db : GrillDb)
        → Bounded db.records
        → Bounded (run_calls sha256_hex calls db).records
    unfolding run_calls
    runs [] db bounded = bounded
    runs ((c, now) ∷ calls) db bounded =
        runs calls (after db (call sha256_hex c now db)) (after-Bounded c now db bounded)

-- After any calls of EvaluateGrill and of the operator's actions, whatever records there were before,
-- those of other rules' versions included, the records of a revision hold at most 10 questions, or, if
-- they held more, no more than they held.
pub run_calls-ceiling :
    (sha256_hex : List ℕ → String) (calls : List (Call × ℕ)) (db : GrillDb)
    (identity : GrillRevisionIdentity)
    → asked_about identity (run_calls sha256_hex calls db).records
      ≤ ceiling (asked_about identity db.records)
run_calls-ceiling sha256_hex calls db identity =
    runs (λ i. ceiling (asked_about i db.records)) (λ i. ceiling-le (asked_about i db.records))
      sha256_hex calls db (λ i. le-ceiling (asked_about i db.records)) identity
