-- ===== src/Proposals/Changes/Decisions.antt =====
-- A decision that succeeds replays, or makes its change.
use ananke.Prelude.{
  ℕ, String, ◌≡◌, refl, ap, ◌∙◌, inl, inr, true, ◌&&◌, ◌||◌, not, map, arith, eqb, ◌==◌,
  if◌then◌else◌, update_where, rows_affected, Bool-cases,
}
use ananke.Prelude.Fallible.{bind-ok, then-ok, fail_if-ok, or_fail-ok}
use ananke.Table.{lookup, update}
use ananke.Proposals.Rows.{
  pending, approved, rejected, same_review, approved_state, ProposalMutation, same_mutation, Db,
  Env, ok,
}
use ananke.Proposals.Requests.{canonical_json_hash}
use ananke.Proposals.Identity.{update_pending_lifecycle, update_pending_approval, is_current}
use ananke.Proposals.Decisions.{set_state}
use ananke.Proposals.Pairs.{pairs, Paired, to_state, pending_at}
use ananke.Proposals.Steps.{Outcome, SameRows, SameRows-Paired, record_mutation_ends, once-cases}
use ananke.Proposals.Changes.Current.{update_current_effect}
use ananke.Proposals.Rows.{record_corrupt, or_fail, fail_if}
use ananke.Proposals.Pairs.{update_pair}
use ananke.Prelude.{find}
use ananke.Proposals.Identity.{update_current}
use ananke.Proposals.Pairs.{lifecycle_pair}
use ananke.Proposals.Requests.{DecideProposalApprovalRequest, decision_request_body}
use ananke.Proposals.Rows.{approval_conflict, approval_not_found, decide_approval_op}
use ananke.Proposals.Validation.{
  validate_decide_proposal_approval_request, validate_identifier, validate_idempotency_key,
  validate_revision_hash, validate_text,
}
use ananke.Proposals.Decisions.{target, apply_decision, decide_proposal_approval}
use ananke.Proposals.Changes.{Deciding}

pub same_mutation-approval_id :
    (m n : ProposalMutation) → same_mutation n m ≡ true → (n.approval_id == m.approval_id) ≡ true
unfolding same_mutation
same_mutation-approval_id m n t = ground arith

module _ (env : Env) where
  approve_effect :
      (r : DecideProposalApprovalRequest) (db d : Db)
      → (if same_review r.decision approved
          then update_current approval_conflict r.proposal_id r.revision r.revision_hash
              (set_state approved_state)
              db
          else ok db)
        ≡ ok d
      → SameRows db d
        × (d.idempotency ≡ db.idempotency)
        × (d.activity ≡ db.activity)
        × (d.proposals ≡ (
            if same_review r.decision approved
            then update r.proposal_id (set_state approved_state) db.proposals
            else db.proposals))
  approve_effect r db d h = elim (Bool-cases (same_review r.decision approved)) [
    | inl t ↦
        let written =
          update_current_effect approval_conflict r.proposal_id r.revision r.revision_hash
            (set_state approved_state) db d (ground arith) in
        (
          record {
            same_revisions = ap (λ q. q.revisions) written;
            same_approvals = ap (λ q. q.approvals) written;
            same_lifecycles = ap (λ q. q.lifecycles) written;
          },
          ap (λ q. q.idempotency) written,
          ap (λ q. q.activity) written,
          rw t (ap (λ q. q.proposals) written),
        )
    | inr f ↦
        let same : d ≡ db = ground arith in
        (
          record {
            same_revisions = ap (λ q. q.revisions) same;
            same_approvals = ap (λ q. q.approvals) same;
            same_lifecycles = ap (λ q. q.lifecycles) same;
          },
          ap (λ q. q.idempotency) same,
          ap (λ q. q.activity) same,
          rw f (ap (λ q. q.proposals) same),
        )
  ]

  pub apply_decision_effect :
      (r : DecideProposalApprovalRequest) (now : ℕ) (db d : Db)
      → Paired db
      → apply_decision r now (target r) db ≡ ok d
      → Paired d
        × (d.idempotency ≡ db.idempotency)
        × (d.activity ≡ db.activity)
        × (d.proposals ≡ (
            if same_review r.decision approved
            then update r.proposal_id (set_state approved_state) db.proposals
            else db.proposals))
        × (pairs d
            ≡ update_where
                (pending_at (λ n. same_mutation n (target r)))
                (to_state r.decision)
                (pairs db))
        × (rows_affected (pending_at (λ n. same_mutation n (target r))) (pairs db) ≡ 1)
  unfolding apply_decision
  apply_decision_effect r now db d paired h =
      let (e, a, first) =
        bind-ok
          (update_pending_lifecycle approval_conflict (λ n. same_mutation n (target r)) r.decision
            now db)
          _ d h in
      let (k, b, second) =
        bind-ok
          (update_pending_approval approval_conflict (λ n. n.approval_id == r.approval_id) _ e) _ d
          first in
      let (one, ended) =
        update_pair approval_conflict (λ n. same_mutation n (target r))
          (λ n. n.approval_id == r.approval_id) r.decision now _ db e k (λ x. refl)
          (λ n t. same_mutation-approval_id (target r) n t) paired a b in
      let (rows_kept, i, c, ps) = approve_effect r k d second in
      (
        SameRows-Paired k d rows_kept ended.paired,
        i ∙ ended.idempotency_kept,
        c ∙ ended.activity_kept,
        ps
            ∙ ap
                (λ t.
                  if same_review r.decision approved
                  then update r.proposal_id (set_state approved_state) t
                  else t)
                ended.proposals_kept,
        ap (map lifecycle_pair) rows_kept.same_lifecycles ∙ ended.becomes,
        one,
      )

  decision_decides :
      (r : DecideProposalApprovalRequest)
      → validate_decide_proposal_approval_request r ≡ ok tt
      → (same_review r.decision approved || same_review r.decision rejected) ≡ true
  unfolding validate_decide_proposal_approval_request validate_identifier validate_idempotency_key
      validate_revision_hash validate_text
  decision_decides r h = ground arith

  pub decide_proposal_approval-Deciding :
      (now : ℕ) (r : DecideProposalApprovalRequest) (m : ProposalMutation) (db db' : Db)
      → Paired db
      → decide_proposal_approval env now r db ≡ ok (m, db')
      → Outcome decide_approval_op r.approval_id r.idempotency_key
          (canonical_json_hash env (decision_request_body r))
          m
          now
          db
          db'
          ((c : Deciding db db') × (c.names ≡ target r))
  unfolding decide_proposal_approval
  decide_proposal_approval-Deciding now r m db db' paired h =
      elim (once-cases decide_approval_op r.approval_id r.idempotency_key hash db _ m db' h) [
        | inl replay ↦ inl replay
        | inr rest ↦
            let (valid, h1) =
              then-ok (validate_decide_proposal_approval_request r) _ (m, db') rest in
            let (a, found_a, h2) =
              bind-ok
                (or_fail (find (λ a. a.approval_id == r.approval_id) db.approvals)
                  approval_not_found)
                _ (m, db') h1 in
            let (matches, h3) =
              then-ok
                (fail_if
                  (not (
                    a.proposal_id == r.proposal_id
                    && eqb a.revision r.revision
                    && a.revision_hash == r.revision_hash
                    && same_review a.state pending))
                  approval_conflict)
                _ (m, db') h2 in
            let (p, found, h4) =
              bind-ok (or_fail (lookup r.proposal_id db.proposals) record_corrupt) _ (m, db') h3 in
            let (l, found_l, h5) =
              bind-ok
                (or_fail (find (λ l. same_mutation l.names (target r)) db.lifecycles)
                  record_corrupt)
                _ (m, db') h4 in
            let (current, h6) =
              then-ok
                (fail_if
                  (not (is_current r.revision r.revision_hash p && same_review l.state pending))
                  approval_conflict)
                _ (m, db') h5 in
            let (d, applied, last) = bind-ok (apply_decision r now (target r) db) _ (m, db') h6 in
            let (d_paired, i, c, ps, xs, one) = apply_decision_effect r now db d paired applied in
            let (same, logged, kept, qs, ys) =
              record_mutation_ends decide_approval_op r.approval_id r.idempotency_key hash
                (target r) m now db d db' i c d_paired last in
            inr (
              (
                record {
                  names = target r;
                  before = p;
                  decision = r.decision;
                  stands = or_fail-ok _ record_corrupt p found;
                  was_current = ground (arith, fail_if-ok _ approval_conflict current);
                  decided = decision_decides r valid;
                  one = one;
                  proposals_become = qs ∙ ps;
                  pairs_become = ys ∙ xs;
                },
                refl,
              ),
              kept,
              logged,
            )
      ]
    where
      hash : String
      hash = canonical_json_hash env (decision_request_body r)
