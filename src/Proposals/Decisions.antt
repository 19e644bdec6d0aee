-- ===== src/Proposals/Decisions.antt =====
-- internal/store/proposals.go: DecideProposalApproval and WithdrawProposal.
use ananke.Prelude.{ℕ, String, ◌&&◌, not, some, eqb, ◌==◌, if◌then◌else◌, find}
use ananke.Table.{lookup}
use ananke.Proposals.Rows.{Approval}
use ananke.Proposals.Rows.{
  ProposalState, approved_state, withdrawn_state, is_open, pending, approved, withdrawn,
  same_review, ProposalMutation, same_mutation, Proposal, RevisionLifecycle, decide_approval_op,
  withdraw_proposal_op, Db, Env, Result, ok, ◌>>=◌, ◌>>◌, fail_if, or_fail, proposal_not_found,
  approval_not_found, proposal_conflict, approval_conflict, record_corrupt,
}
use ananke.Proposals.Requests.{
  DecideProposalApprovalRequest, WithdrawProposalRequest, decision_request_body,
  withdraw_proposal_request_body, canonical_json_hash,
}
use ananke.Proposals.Validation.{
  validate_decide_proposal_approval_request, validate_withdraw_proposal_request,
}
use ananke.Proposals.Identity.{
  update_pending_lifecycle, update_pending_approval, is_current, update_current, current_pair,
}
use ananke.Proposals.Mutations.{once, record_mutation, may_follow}

abbrev pub set_state : ProposalState → Proposal → Proposal
set_state state p = record p { state = state }

abbrev pub decided_row : DecideProposalApprovalRequest → ℕ → Approval → Approval
decided_row request now a = record a {
  state = request.decision;
  decided_at = some now;
  decided_by = some "local_gui_operator";
  decision_idempotency_key = some request.idempotency_key;
  reason = some request.reason;
}

abbrev pub withdrawn_row : Approval → Approval
withdrawn_row a = record a { state = withdrawn }

-- The updates of the pair, and of the proposal if it is approved.
unfoldable pub apply_decision :
    DecideProposalApprovalRequest → ℕ → ProposalMutation → Db → Result Db
apply_decision request now m db = do
  d ← update_pending_lifecycle approval_conflict (λ n. same_mutation n m) request.decision now db
  e ←
      update_pending_approval approval_conflict (λ n. n.approval_id == request.approval_id)
        (decided_row request now) d
  if same_review request.decision approved
      then update_current approval_conflict request.proposal_id request.revision
          request.revision_hash (set_state approved_state) e
      else ok e

abbrev pub target : DecideProposalApprovalRequest → ProposalMutation
target request = record {
  proposal_id = request.proposal_id;
  revision = request.revision;
  revision_hash = request.revision_hash;
  approval_id = request.approval_id;
}

unfoldable pub decide_proposal_approval :
    Env → ℕ → DecideProposalApprovalRequest → Db → Result (ProposalMutation × Db)
unfolding once
decide_proposal_approval env now request db =
    let body_hash = canonical_json_hash env (decision_request_body request) in
    once decide_approval_op request.approval_id request.idempotency_key body_hash db (do
      validate_decide_proposal_approval_request request
      a ← or_fail (find (λ a. a.approval_id == request.approval_id) db.approvals) approval_not_found
      fail_if
          (not (
            a.proposal_id == request.proposal_id
            && eqb a.revision request.revision
            && a.revision_hash == request.revision_hash
            && same_review a.state pending))
          approval_conflict
      p ← or_fail (lookup request.proposal_id db.proposals) record_corrupt
      l ← or_fail (find (λ l. same_mutation l.names (target request)) db.lifecycles) record_corrupt
      fail_if
          (not (is_current request.revision request.revision_hash p && same_review l.state pending))
          approval_conflict
      d ← apply_decision request now (target request) db
      record_mutation decide_approval_op request.approval_id request.idempotency_key body_hash
          (target request) now d)

-- What names the current revision, with the approval's id.
abbrev pub current_target : String → Proposal → String → ProposalMutation
current_target proposal_id p approval_id = record {
  proposal_id = proposal_id;
  revision = p.current_revision;
  revision_hash = p.current_revision_hash;
  approval_id = approval_id;
}

unfoldable pub withdraw_pair : ProposalMutation → ℕ → Db → Result Db
withdraw_pair m now db = do
  d ← update_pending_lifecycle proposal_conflict (λ n. same_mutation n m) withdrawn now db
  update_pending_approval proposal_conflict (λ n. n.approval_id == m.approval_id) withdrawn_row d

unfoldable pub apply_withdrawal : String → Proposal → RevisionLifecycle → ℕ → Db → Result Db
unfolding withdraw_pair
apply_withdrawal proposal_id p l now db = do
  d ←
      (if same_review l.state pending
        then withdraw_pair (current_target proposal_id p l.approval_id) now db
        else ok db)
  update_current proposal_conflict proposal_id p.current_revision p.current_revision_hash
      (set_state withdrawn_state) d

unfoldable pub withdraw_proposal :
    Env → ℕ → WithdrawProposalRequest → Db → Result (ProposalMutation × Db)
unfolding once
withdraw_proposal env now request db =
    let body_hash = canonical_json_hash env (withdraw_proposal_request_body request) in
    once withdraw_proposal_op request.proposal_id request.idempotency_key body_hash db (do
      validate_withdraw_proposal_request request
      p ← or_fail (lookup request.proposal_id db.proposals) proposal_not_found
      fail_if (not (is_open p.state)) proposal_conflict
      pair ←
          or_fail (current_pair request.proposal_id p.current_revision p.current_revision_hash db)
            record_corrupt
      fail_if (not (same_review pair.0.state pair.1.state)) record_corrupt
      fail_if (not (may_follow pair.0.state)) proposal_conflict
      d ← apply_withdrawal request.proposal_id p pair.0 now db
      record_mutation withdraw_proposal_op request.proposal_id request.idempotency_key body_hash
          (current_target request.proposal_id p pair.0.approval_id) now d)
