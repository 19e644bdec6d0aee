-- ===== src/Grill/Declarations.antt =====
-- internal/store/grill.go: the declarations that an evaluation reads, and when they are valid.
use ananke.Prelude.{String, Bool, false, ◌&&◌, ◌||◌, not, Option, none, some, List, [], ◌∷◌, ◌==◌}
use ananke.Prelude.Fallible.{Fallible, ◌>>◌, fail_if}
use ananke.Int.{ℤ, pos, leb_ℤ, ltb_ℤ}
use ananke.Grill.Patterns.{is_hash, is_identifier, is_timestamp}

pub data GrillError : Type 0 where
  grill_invalid_input grill_revision_mismatch grill_input_hash_mismatch : GrillError
  grill_rule_version grill_question_not_found grill_override_not_permitted : GrillError
  grill_unsupported_schema : GrillError
  -- A NULL is scanned into a variable that cannot hold it; the schema refuses a row.
  grill_scan grill_constraint : GrillError

pub record GrillAutonomy : Type 0 where
  pub deadline : Option String
  pub attempt_cap : Option ℤ

pub record GrillDeclarations : Type 0 where
  pub observable_outcome : String
  pub scope_compatibility : String
  pub acceptance_evidence : String
  pub destructive_external : String
  pub local_authorization : String
  pub adapter_mode : String
  pub worktree_isolation : String
  pub autonomy : GrillAutonomy

pub record GrillInput : Type 0 where
  pub schema_version : String
  pub proposal_id : String
  pub revision : ℤ
  pub revision_hash : String
  pub declarations : GrillDeclarations

unfoldable pub one_of : String → List String → Bool
one_of value [] = false
one_of value (candidate ∷ allowed) = value == candidate || one_of value allowed

abbrev bad_deadline : Option String → Bool
bad_deadline none = false
bad_deadline (some deadline) = not (is_timestamp deadline)

abbrev bad_cap : Option ℤ → Bool
bad_cap none = false
bad_cap (some cap) = ltb_ℤ cap (pos 1) || ltb_ℤ (pos 100) cap

unfoldable pub validate_grill_input : GrillInput → Fallible GrillError (Unit {0})
validate_grill_input input =
    let d = input.declarations in
    do
      fail_if (not (input.schema_version == "ananke.grill.input.v1")) grill_invalid_input
      fail_if (not (is_identifier input.proposal_id)) grill_invalid_input
      fail_if (leb_ℤ input.revision (pos 0)) grill_invalid_input
      fail_if (not (is_hash input.revision_hash)) grill_invalid_input
      fail_if (not (one_of d.observable_outcome ("absent" ∷ "declared" ∷ []))) grill_invalid_input
      fail_if (not (one_of d.scope_compatibility ("absent" ∷ "declared" ∷ []))) grill_invalid_input
      fail_if (not (one_of d.acceptance_evidence ("absent" ∷ "declared" ∷ []))) grill_invalid_input
      fail_if (not (one_of d.destructive_external ("none" ∷ "declared" ∷ []))) grill_invalid_input
      fail_if (not (one_of d.local_authorization ("not_required" ∷ "recorded" ∷ "unrecorded" ∷ [])))
          grill_invalid_input
      fail_if (not (one_of d.adapter_mode ("none" ∷ "read_only" ∷ []))) grill_invalid_input
      fail_if
          (not (one_of d.worktree_isolation ("not_applicable" ∷ "isolated" ∷ "not_isolated" ∷ [])))
          grill_invalid_input
      fail_if (d.adapter_mode == "none" && not (d.worktree_isolation == "not_applicable"))
          grill_invalid_input
      fail_if (d.destructive_external == "none" && not (d.local_authorization == "not_required"))
          grill_invalid_input
      fail_if (bad_deadline d.autonomy.deadline) grill_invalid_input
      fail_if (bad_cap d.autonomy.attempt_cap) grill_invalid_input
