-- ===== src/Proposals/Calls.antt =====
-- The mutations of internal/store/proposals.go as one type, and a history of calls; one that fails is
-- rolled back.
use ananke.Prelude.{ℕ, String, List, [], ◌∷◌}
use ananke.Proposals.Rows.{Db, Env, Result, ok, ◌>>=◌, after, ProposalMutation}
use ananke.Proposals.Rows.{
  Operation, create_proposal_op, append_revision_op, decide_approval_op, withdraw_proposal_op,
}
use ananke.Proposals.Requests.{
  create_request_body, append_revision_request_body, decision_request_body,
  withdraw_proposal_request_body, canonical_json_hash, CreateProposalRequest,
  AppendProposalRevisionRequest, DecideProposalApprovalRequest, WithdrawProposalRequest,
}
use ananke.Proposals.Mutations.{create_proposal, append_proposal_revision}
use ananke.Proposals.Decisions.{decide_proposal_approval, withdraw_proposal}

-- A request, with the identifiers that are drawn for it.
pub data Request : Type 0 where
  create : String → String → CreateProposalRequest → Request
  append : String → AppendProposalRevisionRequest → Request
  decide : DecideProposalApprovalRequest → Request
  withdraw : WithdrawProposalRequest → Request

pub record Call : Type 0 where
  pub request : Request
  pub now : ℕ

-- The key of a request's idempotency record: its operation, resource and caller key.
abbrev pub operation_of : Request → Operation
operation_of (create proposal_id approval_id r) = create_proposal_op
operation_of (append approval_id r) = append_revision_op
operation_of (decide r) = decide_approval_op
operation_of (withdraw r) = withdraw_proposal_op

abbrev pub resource_of : Request → String
resource_of (create proposal_id approval_id r) = "proposal_collection"
resource_of (append approval_id r) = r.proposal_id
resource_of (decide r) = r.approval_id
resource_of (withdraw r) = r.proposal_id

abbrev pub key_of : Request → String
key_of (create proposal_id approval_id r) = r.idempotency_key
key_of (append approval_id r) = r.idempotency_key
key_of (decide r) = r.idempotency_key
key_of (withdraw r) = r.idempotency_key

module _ (env : Env) where
  abbrev pub body_hash_of : Request → String
  body_hash_of (create proposal_id approval_id r) = canonical_json_hash env (create_request_body r)
  body_hash_of (append approval_id r) = canonical_json_hash env (append_revision_request_body r)
  body_hash_of (decide r) = canonical_json_hash env (decision_request_body r)
  body_hash_of (withdraw r) = canonical_json_hash env (withdraw_proposal_request_body r)

  unfoldable pub mutate : Request → ℕ → Db → Result (ProposalMutation × Db)
  mutate (create proposal_id approval_id r) now db =
      create_proposal env proposal_id approval_id now r db
  mutate (append approval_id r) now db = append_proposal_revision env approval_id now r db
  mutate (decide r) now db = decide_proposal_approval env now r db
  mutate (withdraw r) now db = withdraw_proposal env now r db

  unfoldable pub call : Call → Db → Result Db
  call c db = mutate c.request c.now db >>= λ r. ok r.1

  unfoldable pub run_calls : List Call → Db → Db
  run_calls [] db = db
  run_calls (c ∷ cs) db = run_calls cs (after db (call c db))

unfoldable pub empty : Db
empty = record {
  proposals = [];
  revisions = [];
  approvals = [];
  lifecycles = [];
  activity = [];
  idempotency = [];
}
