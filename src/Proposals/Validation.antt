-- ===== src/Proposals/Validation.antt =====
-- internal/store/proposals.go: the validation of the requests.
use ananke.Prelude.{
  ℕ, ◌+◌, String, Bool, false, ◌&&◌, ◌||◌, not, List, [], ◌∷◌, length, ltb, eqb, ◌==◌,
  if◌then◌else◌,
}
use ananke.Grill.Patterns.{codes, is_word, is_lower, is_hash, is_identifier, between, all}
use ananke.Proposals.Rows.{
  ProposalPolicy, RevisionInput, approved, rejected, same_review, Result, ok, ◌>>◌, fail_if,
  bad_identifier, bad_idempotency_key, bad_text, bad_criteria_count, bad_policy, bad_revision,
  bad_hash, bad_decision,
}
use ananke.Proposals.Requests.{
  CreateProposalRequest, AppendProposalRevisionRequest, DecideProposalApprovalRequest,
  WithdrawProposalRequest,
}

-- len of a string: the bytes of its UTF-8.
unfoldable pub byte_length : List ℕ → ℕ
byte_length [] = 0
byte_length (c ∷ cs) =
    (if ltb c 128 then 1 else if ltb c 2048 then 2 else if ltb c 65536 then 3 else 4)
    + byte_length cs

unfoldable pub validate_identifier : String → Result (Unit {0})
validate_identifier value = fail_if (not (is_identifier value)) bad_identifier

unfoldable pub idempotency_pattern : List ℕ → Bool
idempotency_pattern [] = false
idempotency_pattern (c ∷ cs) = is_lower c && between 2 127 (length cs) && all is_word cs

unfoldable pub validate_idempotency_key : String → Result (Unit {0})
validate_idempotency_key value =
    fail_if (not (idempotency_pattern (codes value))) bad_idempotency_key

-- A String is valid UTF-8.
unfoldable pub validate_text : String → ℕ → Result (Unit {0})
validate_text value maximum_bytes =
    fail_if (eqb (byte_length (codes value)) 0 || ltb maximum_bytes (byte_length (codes value)))
      bad_text

unfoldable pub validate_texts : List String → ℕ → Result (Unit {0})
validate_texts [] maximum_bytes = ok tt
validate_texts (s ∷ ss) maximum_bytes =
    validate_text s maximum_bytes >> validate_texts ss maximum_bytes

abbrev is_pair_of : List String → String → String → Bool
is_pair_of (a ∷ b ∷ []) c d = a == c && b == d
is_pair_of _ c d = false

unfoldable pub is_fixed_policy : ProposalPolicy → Bool
is_fixed_policy p =
    p.adapter.access == "read_only"
    && p.adapter.kind == "omp_audit"
    && p.adapter.status == "future"
    && p.authority == "deterministic"
    && p.model_role == "advisory_only"
    && p.budget.status == "future"
    && is_pair_of p.budget.dimensions "deadline" "attempt_cap"

unfoldable pub validate_revision_input : RevisionInput → Result (Unit {0})
validate_revision_input i = do
  validate_text i.task.title 160
  validate_text i.task.instructions 8000
  fail_if (not (between 1 32 (length i.acceptance_criteria))) bad_criteria_count
  validate_texts i.acceptance_criteria 1000
  fail_if (not (is_fixed_policy i.policy)) bad_policy

unfoldable pub validate_revision_hash : String → Result (Unit {0})
validate_revision_hash value = fail_if (not (is_hash value)) bad_hash

unfoldable pub validate_create_proposal_request : CreateProposalRequest → Result (Unit {0})
validate_create_proposal_request r = do
  validate_identifier r.project_id
  validate_identifier r.workstream_id
  validate_idempotency_key r.idempotency_key
  validate_revision_input r.revision_input

unfoldable pub validate_append_proposal_revision_request :
    AppendProposalRevisionRequest → Result (Unit {0})
validate_append_proposal_revision_request r = do
  validate_identifier r.proposal_id
  validate_idempotency_key r.idempotency_key
  fail_if (eqb r.expected_current_revision 0) bad_revision
  validate_revision_hash r.expected_current_revision_hash
  validate_revision_input r.revision_input

unfoldable pub validate_decide_proposal_approval_request :
    DecideProposalApprovalRequest → Result (Unit {0})
validate_decide_proposal_approval_request r = do
  validate_identifier r.approval_id
  validate_identifier r.proposal_id
  validate_idempotency_key r.idempotency_key
  fail_if (eqb r.revision 0) bad_revision
  validate_revision_hash r.revision_hash
  fail_if (not (same_review r.decision approved) && not (same_review r.decision rejected))
      bad_decision
  validate_text r.reason 1000

unfoldable pub validate_withdraw_proposal_request : WithdrawProposalRequest → Result (Unit {0})
validate_withdraw_proposal_request r = do
  validate_identifier r.proposal_id
  validate_idempotency_key r.idempotency_key
