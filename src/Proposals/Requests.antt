-- ===== src/Proposals/Requests.antt =====
-- internal/store/proposals.go: the requests, their bodies as canonical JSON, and the snapshot
-- of a revision. A revision number of a request is a natural number: validation refuses a negative one as
-- it refuses 0.
use Prim.Native.String.{◌++◌ as ◌<>◌}
use ananke.Prelude.{ℕ, String, Option, none, some, List}
use ananke.Proposals.Json.{
  Json, null, text, integer, texts, object, no_fields, field, canonical_json,
}
use ananke.Proposals.Rows.{
  superseded, withdrawn, ProposalTask, ProposalPolicy, RevisionInput, Revision, ReviewState,
  pending, approved, rejected, Env,
}

pub record CreateProposalRequest : Type 0 where
  pub idempotency_key : String
  pub project_id : String
  pub workstream_id : String
  pub revision_input : RevisionInput

pub record AppendProposalRevisionRequest : Type 0 where
  pub idempotency_key : String
  pub proposal_id : String
  pub expected_current_revision : ℕ
  pub expected_current_revision_hash : String
  pub revision_input : RevisionInput

pub record DecideProposalApprovalRequest : Type 0 where
  pub idempotency_key : String
  pub approval_id : String
  pub proposal_id : String
  pub revision : ℕ
  pub revision_hash : String
  pub decision : ReviewState
  pub reason : String

pub record WithdrawProposalRequest : Type 0 where
  pub idempotency_key : String
  pub proposal_id : String

unfoldable pub task_value : ProposalTask → Json
task_value t =
    object (field "instructions" (text t.instructions) (field "title" (text t.title) no_fields))

unfoldable pub policy_value : ProposalPolicy → Json
policy_value p = object (
    field "adapter"
      (object (
        field "access" (text p.adapter.access)
          (field "kind" (text p.adapter.kind) (field "status" (text p.adapter.status) no_fields))))
      (field "authority" (text p.authority) (
        field "budget"
          (object (
            field "dimensions" (texts p.budget.dimensions)
              (field "status" (text p.budget.status) no_fields)))
          (field "model_role" (text p.model_role) no_fields))))

unfoldable pub revision_input_value : RevisionInput → Json
revision_input_value i = object (
    field "acceptance_criteria" (texts i.acceptance_criteria)
      (field "policy" (policy_value i.policy) (field "task" (task_value i.task) no_fields)))

unfoldable pub create_request_body : CreateProposalRequest → Json
create_request_body r = object (
    field "project_id" (text r.project_id) (
      field "revision_input" (revision_input_value r.revision_input) (
        field "schema_version" (text "ananke.proposal.create-request.v1")
          (field "workstream_id" (text r.workstream_id) no_fields))))

unfoldable pub append_revision_request_body : AppendProposalRevisionRequest → Json
append_revision_request_body r = object (
    field "expected_current_revision" (integer r.expected_current_revision) (
      field "expected_current_revision_hash" (text r.expected_current_revision_hash) (
        field "proposal_id" (text r.proposal_id) (
          field "revision_input" (revision_input_value r.revision_input)
            (field "schema_version" (text "ananke.proposal.append-request.v1") no_fields)))))

abbrev pub state_text : ReviewState → String
state_text s = elim s [
  | pending ↦ "pending"
  | approved ↦ "approved"
  | rejected ↦ "rejected"
  | superseded ↦ "superseded"
  | withdrawn ↦ "withdrawn"
]

unfoldable pub decision_request_body : DecideProposalApprovalRequest → Json
decision_request_body r = object (
    field "approval_id" (text r.approval_id) (
      field "decision" (text (state_text r.decision)) (
        field "proposal_id" (text r.proposal_id) (
          field "reason" (text r.reason) (
            field "revision" (integer r.revision) (
              field "revision_hash" (text r.revision_hash) (
                field "schema_version" (text "ananke.proposal.decision-request.v1") no_fields)))))))

unfoldable pub withdraw_proposal_request_body : WithdrawProposalRequest → Json
withdraw_proposal_request_body r = object (
    field "proposal_id" (text r.proposal_id)
      (field "schema_version" (text "ananke.proposal.withdraw-request.v1") no_fields))

abbrev optional {ℓ} : {A : Type ℓ} → (A → Json) → Option A → Json
optional write none = null
optional write (some a) = write a

unfoldable pub canonical_json_hash : Env → Json → String
canonical_json_hash env value = "sha256:" <> env.sha256_hex (canonical_json value)

unfoldable pub snapshot_value : Env → Revision → Json
snapshot_value env r = object (
    field "acceptance_criteria" (texts r.acceptance_criteria) (
      field "created_at" (text (env.format_time r.created_at)) (
        field "created_by" (text r.created_by) (
          field "idempotency_key" (text r.idempotency_key) (
            field "parent_revision" (optional integer r.parent_revision) (
              field "parent_revision_hash" (optional text r.parent_revision_hash) (
                field "policy" (policy_value r.policy) (
                  field "proposal_id" (text r.proposal_id) (
                    field "revision" (integer r.revision) (
                      field "schema_version" (text r.schema_version)
                        (field "task" (task_value r.task) no_fields)))))))))))

-- The snapshot and its hash.
unfoldable pub canonical_revision_snapshot : Env → Revision → List ℕ × String
canonical_revision_snapshot env r =
    (canonical_json (snapshot_value env r), canonical_json_hash env (snapshot_value env r))
