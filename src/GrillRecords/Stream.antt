-- ===== src/GrillRecords/Stream.antt =====
-- internal/store/grill.go: the records of one revision as a stream, as ListGrillRecords reads them.
use mathlib.Core.List.{append-nil, map-append}
use ananke.Store.Progress.{Extends, Extends-trans}
use ananke.Prelude.{
  keep-append, ℕ, suc, String, Bool, true, false, List, [], ◌∷◌, ◌++◌, map, ◌≡◌, refl, sym, ap,
  subst, ◌∙◌, inl, inr, Bool-cases, eq_iff, arith, length,
}
use ananke.Prelude.Fallible.{ok, after, bind-ok, Fallible-cases}
use ananke.Int.{eqb_ℤ-eq}
use ananke.Store.Sequence.{
  Consecutive, Consecutive-append, next_seq-Consecutive, Consecutive-Ascending,
}
use ananke.Table.Sort.{order_by-Ascending}
use ananke.GrillRecords.Rows.{
  GrillRevisionIdentity, same_tuple, RecordSchema, RecordRow, GrillDb, of_revision, next_record,
}
use ananke.GrillRecords.Actions.{
  scan_record, list_grill_records, action_row, record_grill_operator_action,
}
use ananke.GrillRecords.Evaluations.{identity_of, evaluate_grill}
use ananke.GrillRecords.Calls.{Call, evaluate, act, call, run_calls}
use ananke.GrillRecords.Repeats.{add_action-ok, record_grill_operator_action-Admitted}
use ananke.GrillRecords.Growth.{
  next_in, Growth, grown, one_more, Growth-trans, insert_questions-Growth, evaluate_grill-Evaluated,
}

record_grill_operator_action-Growth :
    (identity : GrillRevisionIdentity) (question_id : String) (schema : RecordSchema) (now : ℕ)
    (db : GrillDb) (r : Bool × GrillDb)
    → record_grill_operator_action identity question_id schema now db ≡ ok r
    → Growth db.records r.1.records
unfolding action_row next_record
record_grill_operator_action-Growth identity question_id schema now db r h =
    let a = record_grill_operator_action-Admitted identity question_id schema now db r h in
    elim (add_action-ok identity question_id schema now a.question a.default_value db r a.added) [
      | inl (same, there) ↦
          subst (λ (p : Bool × GrillDb). Growth db.records p.1.records) (sym same) grown
      | inr new ↦
          subst (λ (p : Bool × GrillDb). Growth db.records p.1.records) (sym new)
            (one_more
              (action_row identity a.question.rule_version (next_record identity db) schema
                question_id a.default_value now)
              refl grown)
    ]

module _ (sha256_hex : List ℕ → String) where
  call-Growth :
      (c : Call) (now : ℕ) (db next : GrillDb)
      → call sha256_hex c now db ≡ ok next
      → Growth db.records next.records
  unfolding call
  call-Growth (evaluate request) now db next h =
      let (r, e, g) = bind-ok (evaluate_grill sha256_hex request now db) (λ r. ok r.1) next h in
      let v = evaluate_grill-Evaluated sha256_hex request now db r e in
      let same : r.1 ≡ next = ground (arith, g) in
      subst (λ (d : GrillDb). Growth db.records d.records) same
        (subst (λ rows. Growth rows r.1.records) v.kept
          (insert_questions-Growth (identity_of request.input) request.rule_version
            v.history.question_count v.result.new_question_ids now v.recorded r.1 v.asked))
  call-Growth (act identity question_id schema) now db next h =
      let (r, e, g) =
        bind-ok (record_grill_operator_action identity question_id schema now db) (λ r. ok r.1) next
          h in
      let same : r.1 ≡ next = ground (arith, g) in
      subst (λ (d : GrillDb). Growth db.records d.records) same
        (record_grill_operator_action-Growth identity question_id schema now db r e)

  after-Growth :
      (c : Call) (now : ℕ) (db : GrillDb)
      → Growth db.records (after db (call sha256_hex c now db)).records
  after-Growth c now db = elim (Fallible-cases (call sha256_hex c now db)) [
    | inl (next, e) ↦ rw e (call-Growth c now db next e)
    | inr (error, e) ↦ rw e grown
  ]

  pub run_calls-Growth :
      (calls : List (Call × ℕ)) (db : GrillDb)
      → Growth db.records (run_calls sha256_hex calls db).records
  unfolding run_calls
  run_calls-Growth [] db = grown
  run_calls-Growth ((c, now) ∷ calls) db =
      Growth-trans (after-Growth c now db)
        (run_calls-Growth calls (after db (call sha256_hex c now db)))

-- The records of each revision are numbered from 1 in the order of insertion.
abbrev pub Numbered : List RecordRow → Type 0
Numbered rows =
    (identity : GrillRevisionIdentity)
    → Consecutive 1 (map (λ r. r.record_sequence) (of_revision identity rows))

pub same_tuple-eq : (a b : GrillRevisionIdentity) → same_tuple a b ≡ true → a ≡ b
unfolding same_tuple
same_tuple-eq a b t = ground (
  arith,
  t,
  eq_iff a.proposal_id b.proposal_id,
  eqb_ℤ-eq a.revision b.revision,
  eq_iff a.revision_hash b.revision_hash,
)

-- Where a row that is added stands.
pub of_revision-added :
    (identity : GrillRevisionIdentity) (rows : List RecordRow) (row : RecordRow)
    → of_revision identity (rows ++ row ∷ [])
      ≡ of_revision identity rows ++ of_revision identity (row ∷ [])
unfolding of_revision
of_revision-added identity rows row =
    keep-append (λ r. same_tuple r.identity identity) rows (row ∷ [])

pub of_revision_own :
    (identity : GrillRevisionIdentity) (row : RecordRow)
    → same_tuple row.identity identity ≡ true
    → of_revision identity (row ∷ []) ≡ row ∷ []
unfolding of_revision
of_revision_own identity row t = rw t refl

pub of_revision_other :
    (identity : GrillRevisionIdentity) (row : RecordRow)
    → same_tuple row.identity identity ≡ false
    → of_revision identity (row ∷ []) ≡ []
unfolding of_revision
of_revision_other identity row f = rw f refl

one_more-Numbered :
    (rows : List RecordRow) (row : RecordRow)
    → row.record_sequence ≡ next_in row.identity rows
    → Numbered rows
    → Numbered (rows ++ row ∷ [])
one_more-Numbered rows row s n identity =
    let sequence = λ (r : RecordRow). r.record_sequence in
    let those = of_revision identity rows in
    elim (Bool-cases (same_tuple row.identity identity)) [
      | inl t ↦
          let next : row.record_sequence ≡ suc (length (map sequence those)) =
            s
            ∙ ap (λ i. next_in i rows) (same_tuple-eq row.identity identity t)
            ∙ next_seq-Consecutive 0 (map sequence those) (n identity) refl in
          rw (of_revision-added identity rows row, of_revision_own identity row t)
            (rw (map-append sequence those (row ∷ [])) (
              Consecutive-append 1 row.record_sequence (map sequence those) (n identity)
                (next ∙ omega arith)))
      | inr f ↦
          rw
            (
              of_revision-added identity rows row,
              of_revision_other identity row f,
              append-nil those,
            )
            (n identity)
    ]

pub Growth-Numbered :
    {rows later : List RecordRow} → Growth rows later → Numbered rows → Numbered later
Growth-Numbered grown n = n
Growth-Numbered (one_more row s g) n = Growth-Numbered g (one_more-Numbered _ row s n)

-- The records of a revision are kept, and others may follow.
pub Growth-Extends :
    {rows later : List RecordRow} (identity : GrillRevisionIdentity)
    → Growth rows later
    → Extends (of_revision identity rows) (of_revision identity later)
Growth-Extends {rows} identity grown = ([], sym (append-nil (of_revision identity rows)))
Growth-Extends {rows} {later} identity (one_more row s g) =
    Extends-trans (of_revision identity rows) (of_revision identity (rows ++ row ∷ []))
      (of_revision identity later)
      (of_revision identity (row ∷ []), of_revision-added identity rows row)
      (Growth-Extends identity g)

-- Where the records are numbered, the query gives them as they stand.
list_grill_records-Numbered :
    (identity : GrillRevisionIdentity) (db : GrillDb)
    → Numbered db.records
    → list_grill_records identity db ≡ map scan_record (of_revision identity db.records)
unfolding list_grill_records
list_grill_records-Numbered identity db n = ap (map scan_record) (
    order_by-Ascending (λ r. r.record_sequence) (of_revision identity db.records)
      (Consecutive-Ascending (λ r. r.record_sequence) 1 (of_revision identity db.records)
        (n identity)))

sequences :
    (rows : List RecordRow)
    → map (λ r. r.record_sequence) rows ≡ map (λ r. r.record_sequence) (map scan_record rows)
unfolding scan_record
sequences [] = refl
sequences (r ∷ rows) = ap (r.record_sequence ∷◌) (sequences rows)

none_yet : (rows : List RecordRow) → rows ≡ [] → Numbered rows
unfolding of_revision
none_yet rows e identity = rw e tt

-- After any calls of EvaluateGrill and of the operator's actions, from tables without a record, what
-- ListGrillRecords gives of any revision is numbered from 1 without a gap; and after any more calls it
-- gives the same records, unchanged, followed by those that were added.
pub list_grill_records_append_only :
    (sha256_hex : List ℕ → String) (calls more : List (Call × ℕ)) (db : GrillDb)
    → db.records ≡ []
    → (identity : GrillRevisionIdentity)
    → let now = run_calls sha256_hex calls db in
      Consecutive 1 (map (λ r. r.record_sequence) (list_grill_records identity now))
      × Extends
          (list_grill_records identity now)
          (list_grill_records identity (run_calls sha256_hex more now))
list_grill_records_append_only sha256_hex calls more db e identity =
    let now = run_calls sha256_hex calls db in
    let later = run_calls sha256_hex more now in
    let n = Growth-Numbered (run_calls-Growth sha256_hex calls db) (none_yet db.records e) in
    let g = run_calls-Growth sha256_hex more now in
    let (added, grows) = Growth-Extends identity g in
    rw
      (
        list_grill_records-Numbered identity now n,
        list_grill_records-Numbered identity later (Growth-Numbered g n),
      )
      (
        subst (Consecutive 1) (sequences (of_revision identity now.records)) (n identity),
        (
          map scan_record added,
          ap (map scan_record) grows
              ∙ map-append scan_record (of_revision identity now.records) added,
        ),
      )
