-- ===== src/Grill.antt =====
-- internal/store/grill.go: the deterministic evaluation that decides which questions are asked about
-- a revision. Its records are in GrillRecords.
pub mod Patterns
pub mod Declarations
pub mod Rules
pub mod Members
pub mod Evaluation
pub mod Budget
pub mod Partition
pub mod Clear
pub mod Examples
use ananke.Prelude.{
  ℕ, ◌-◌, String, Bool, true, false, ◌&&◌, ◌||◌, not, Option, none, some, List, [], ◌∷◌, ◌++◌, map,
  ◌==◌, leb, eqb, length, take, keep, if◌then◌else◌, is_some,
}
use ananke.Prelude.Fallible.{Fallible, ok, err, ◌>>=◌, ◌>>◌, fail_if}
use ananke.Int.{ℤ, pos, negsuc, pos_part, leb_ℤ, ltb_ℤ, diff}
use ananke.Table.Sort.{order_by}
use Declarations.{
  GrillError, grill_invalid_input, grill_override_not_permitted, GrillInput, validate_grill_input,
}
use Rules.{
  GrillRule, grill_rules, grill_question_id, member, grill_rule_by_class, grill_rule_class,
  grill_rule_triggered,
}

pub data GrillStatus : Type 0 where
  clear blocked needs_rewrite : GrillStatus

-- `deferred_rule_classes` is nil where it is none. The input hash and the number of new records are
-- filled in by the caller.
pub record GrillEvaluation : Type 0 where
  pub proposal_id : String
  pub revision : ℤ
  pub revision_hash : String
  pub rule_version : String
  pub new_question_ids : List String
  pub shown_question_ids : List String
  pub deferred_rule_classes : Option (List String)
  pub status : GrillStatus

-- The classes of the questions that exist already, given as classes or as question ids.
unfoldable pub existing_classes : List String → Fallible GrillError (List String)
existing_classes [] = ok []
existing_classes (value ∷ values) = elim (grill_rule_class value) [
  | none ↦ err grill_invalid_input
  | some rule_class ↦ existing_classes values >>= λ rest. ok (rule_class ∷ rest)
]

abbrev pub can_waive : Option GrillRule → Bool
can_waive none = false
can_waive (some r) = r.waivable

unfoldable pub waived_classes : List String → Fallible GrillError (List String)
waived_classes [] = ok []
waived_classes (rule_class ∷ values) =
    fail_if (not (can_waive (grill_rule_by_class rule_class))) grill_override_not_permitted
    >> (waived_classes values >>= λ rest. ok (rule_class ∷ rest))

unfoldable pub smallest : ℤ → List ℤ → ℤ
smallest minimum [] = minimum
smallest minimum (value ∷ values) = smallest (if ltb_ℤ value minimum then value else minimum) values

-- At least 0.
unfoldable pub min_grill : ℤ → List ℤ → ℕ
min_grill value values = pos_part (smallest value values)

-- The rules that ask, in the order of the table.
unfoldable pub active_rules : GrillInput → List String → List GrillRule
active_rules input waived =
    keep (λ r. grill_rule_triggered input r.class && not (member r.class waived)) grill_rules

unfoldable pub new_limit : ℤ → List GrillRule → List GrillRule → ℕ
new_limit prior already_shown available =
    min_grill (pos 5)
      (diff 10 (pos_part prior) ∷ diff 5 (length already_shown) ∷ pos (length available) ∷ [])

abbrev pub classes : List GrillRule → List String
classes rules = map (λ r. r.class) rules

unfoldable pub budgeted : GrillInput → List String → ℤ → List GrillRule → GrillEvaluation
budgeted input existing prior active =
    let already_shown = keep (λ r. member r.class existing) active in
    let available = keep (λ r. not (member r.class existing)) active in
    let new_rules = take (new_limit prior already_shown available) available in
    let shown = order_by (λ r. r.priority) (already_shown ++ new_rules) in
    let deferred = keep (λ r. not (member r.class (classes shown))) active in
    let no_active = eqb (length active) 0 in
    record {
      proposal_id = input.proposal_id;
      revision = input.revision;
      revision_hash = input.revision_hash;
      rule_version = "ananke.grill.rules.v1";
      new_question_ids = map grill_question_id (classes new_rules);
      shown_question_ids = map grill_question_id (classes shown);
      deferred_rule_classes = if no_active then none else some (classes deferred);
      status = if no_active then clear else blocked;
    }

unfoldable pub rewrite_needed : GrillInput → GrillEvaluation
rewrite_needed input = record {
  proposal_id = input.proposal_id;
  revision = input.revision;
  revision_hash = input.revision_hash;
  rule_version = "ananke.grill.rules.v1";
  new_question_ids = [];
  shown_question_ids = [];
  deferred_rule_classes = none;
  status = needs_rewrite;
}

unfoldable pub evaluate_grill_pure :
    GrillInput → List String → ℤ → List String → Fallible GrillError GrillEvaluation
evaluate_grill_pure input existing_question_ids prior waived_rule_classes = do
  validate_grill_input input
  fail_if (ltb_ℤ prior (pos 0)) grill_invalid_input
  existing ← existing_classes existing_question_ids
  waived ← waived_classes waived_rule_classes
  ok (
      if leb_ℤ (pos 10) prior
      then rewrite_needed input
      else budgeted input existing prior (active_rules input waived))
