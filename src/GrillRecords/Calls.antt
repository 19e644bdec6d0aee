-- ===== src/GrillRecords/Calls.antt =====
-- internal/store/grill.go: histories of the calls that write records.
use ananke.Prelude.{ℕ, String, List, [], ◌∷◌}
use ananke.Prelude.Fallible.{Fallible, ok, ◌>>=◌, after}
use ananke.Grill.Declarations.{GrillError}
use ananke.GrillRecords.Rows.{GrillRevisionIdentity, RecordSchema, GrillDb}
use ananke.GrillRecords.Actions.{record_grill_operator_action}
use ananke.GrillRecords.Evaluations.{GrillEvaluationRequest, evaluate_grill}

-- EvaluateGrill, or RecordGrillDefault, RecordGrillAnswer or RecordGrillOverride.
pub data Call : Type 0 where
  evaluate : GrillEvaluationRequest → Call
  act : GrillRevisionIdentity → String → RecordSchema → Call

module _ (sha256_hex : List ℕ → String) where
  unfoldable pub call : Call → ℕ → GrillDb → Fallible GrillError GrillDb
  unfolding evaluate_grill record_grill_operator_action
  call (evaluate request) now db = evaluate_grill sha256_hex request now db >>= λ r. ok r.1
  call (act identity question_id schema) now db =
      record_grill_operator_action identity question_id schema now db >>= λ r. ok r.1

  -- The calls in their order, each with the time at which it is made; one that fails changes nothing.
  unfoldable pub run_calls : List (Call × ℕ) → GrillDb → GrillDb
  unfolding call
  run_calls [] db = db
  run_calls ((c, now) ∷ calls) db = run_calls calls (after db (call c now db))
