-- ===== src/Proposals/Changes/Withdrawals.antt =====
-- A withdrawal that succeeds replays, or makes its change.
use ananke.Prelude.{
  ℕ, String, ◌≡◌, refl, ap, subst, ◌∙◌, inl, inr, true, not, arith, ◌==◌, if◌then◌else◌,
  update_where, rows_affected, Bool-cases,
}
use ananke.Prelude.Fallible.{bind-ok, then-ok, fail_if-ok, or_fail-ok}
use ananke.Table.{lookup, update}
use ananke.Proposals.Rows.{
  ReviewState, pending, withdrawn, same_review, is_open, withdrawn_state, ProposalMutation,
  same_mutation, Proposal, Db, Env, ok,
}
use ananke.Proposals.Requests.{canonical_json_hash}
use ananke.Proposals.Identity.{update_pending_lifecycle, is_current}
use ananke.Proposals.Mutations.{may_follow}
use ananke.Proposals.Decisions.{set_state}
use ananke.Proposals.Pairs.{pairs, Paired, to_state, pending_at, Becomes}
use ananke.Proposals.Steps.{Outcome, SameRows-Paired, record_mutation_ends, once-cases}
use ananke.Proposals.Changes.Current.{update_current_effect, current_pair-current_in}
use ananke.Proposals.Rows.{proposal_not_found, record_corrupt, or_fail, fail_if}
use ananke.Proposals.Pairs.{update_pair}
use ananke.Proposals.Rows.{RevisionLifecycle}
use ananke.Proposals.Identity.{current_pair}
use ananke.Proposals.Requests.{WithdrawProposalRequest, withdraw_proposal_request_body}
use ananke.Proposals.Rows.{proposal_conflict, withdraw_proposal_op}
use ananke.Proposals.Validation.{validate_withdraw_proposal_request}
use ananke.Proposals.Decisions.{current_target, withdraw_pair, apply_withdrawal, withdraw_proposal}
use ananke.Proposals.Changes.{Withdrawing}
use ananke.Proposals.Changes.Decisions.{same_mutation-approval_id}
use ananke.Prelude.{eq_refl}

module _ (env : Env) where
  withdraw_pair_effect :
      (m : ProposalMutation) (now : ℕ) (db d : Db)
      → Paired db
      → withdraw_pair m now db ≡ ok d
      → (rows_affected (pending_at (λ n. same_mutation n m)) (pairs db) ≡ 1)
        × Becomes
            (update_where (pending_at (λ n. same_mutation n m)) (to_state withdrawn) (pairs db))
            db
            d
  unfolding withdraw_pair
  withdraw_pair_effect m now db d paired h =
      let (e, a, b) =
        bind-ok
          (update_pending_lifecycle proposal_conflict (λ n. same_mutation n m) withdrawn now db) _ d
          h in
      update_pair proposal_conflict (λ n. same_mutation n m) (λ n. n.approval_id == m.approval_id)
        withdrawn now _ db e d (λ x. refl) (λ n t. same_mutation-approval_id m n t) paired a b

  current_withdrawn :
      (m : ProposalMutation) (now : ℕ) (s : ReviewState) (db d : Db)
      → Paired db
      → (if same_review s pending then withdraw_pair m now db else ok db) ≡ ok d
      → (same_review s pending ≡ true
          → rows_affected (pending_at (λ n. same_mutation n m)) (pairs db) ≡ 1)
        × Becomes
            (if same_review s pending
              then update_where
                  (pending_at (λ n. same_mutation n m))
                  (to_state withdrawn)
                  (pairs db)
              else pairs db)
            db
            d
  current_withdrawn m now s db d paired h = elim (Bool-cases (same_review s pending)) [
    | inl t ↦
        let (one, ended) = withdraw_pair_effect m now db d paired (ground arith) in
        (λ _. one, rw t ended)
    | inr f ↦
        let same : db ≡ d = ground arith in
        (
          λ t. ground arith,
          rw f (
              subst (Becomes (pairs db) db) same (record {
                becomes = refl;
                paired = paired;
                proposals_kept = refl;
                activity_kept = refl;
                idempotency_kept = refl;
              })),
        )
  ]

  pub apply_withdrawal_effect :
      (proposal_id : String) (p : Proposal) (l : RevisionLifecycle) (now : ℕ) (db d : Db)
      → Paired db
      → apply_withdrawal proposal_id p l now db ≡ ok d
      → Paired d
        × (d.idempotency ≡ db.idempotency)
        × (d.activity ≡ db.activity)
        × (d.proposals ≡ update proposal_id (set_state withdrawn_state) db.proposals)
        × (pairs d ≡ (
            if same_review l.state pending
            then update_where
                (pending_at (λ n. same_mutation n (current_target proposal_id p l.approval_id)))
                (to_state withdrawn)
                (pairs db)
            else pairs db))
        × (same_review l.state pending ≡ true
            → rows_affected
                (pending_at (λ n. same_mutation n (current_target proposal_id p l.approval_id)))
                (pairs db)
              ≡ 1)
  unfolding apply_withdrawal
  apply_withdrawal_effect proposal_id p l now db d paired h =
      let (k, a, b) =
        bind-ok
          (if same_review l.state pending
            then withdraw_pair (current_target proposal_id p l.approval_id) now db
            else ok db)
          _ d h in
      let (one, ended) =
        current_withdrawn (current_target proposal_id p l.approval_id) now l.state db k paired a in
      let written =
        update_current_effect proposal_conflict proposal_id p.current_revision
          p.current_revision_hash (set_state withdrawn_state) k d b in
      (
        SameRows-Paired k d
            (record {
              same_revisions = ap (λ q. q.revisions) written;
              same_approvals = ap (λ q. q.approvals) written;
              same_lifecycles = ap (λ q. q.lifecycles) written;
            })
            ended.paired,
        ap (λ q. q.idempotency) written ∙ ended.idempotency_kept,
        ap (λ q. q.activity) written ∙ ended.activity_kept,
        ap (λ q. q.proposals) written
            ∙ ap (update proposal_id (set_state withdrawn_state)) ended.proposals_kept,
        ap pairs written ∙ ended.becomes,
        one,
      )

  pub withdraw_proposal-Withdrawing :
      (now : ℕ) (r : WithdrawProposalRequest) (m : ProposalMutation) (db db' : Db)
      → Paired db
      → withdraw_proposal env now r db ≡ ok (m, db')
      → Outcome withdraw_proposal_op r.proposal_id r.idempotency_key
          (canonical_json_hash env (withdraw_proposal_request_body r))
          m
          now
          db
          db'
          (Withdrawing db db')
  unfolding withdraw_proposal is_current
  withdraw_proposal-Withdrawing now r m db db' paired h =
      elim (once-cases withdraw_proposal_op r.proposal_id r.idempotency_key hash db _ m db' h) [
        | inl replay ↦ inl replay
        | inr rest ↦
            let (valid, h1) = then-ok (validate_withdraw_proposal_request r) _ (m, db') rest in
            let (p, found, h2) =
              bind-ok (or_fail (lookup r.proposal_id db.proposals) proposal_not_found) _ (m, db')
                h1 in
            let (opened, h3) =
              then-ok (fail_if (not (is_open p.state)) proposal_conflict) _ (m, db') h2 in
            let (pair, joined, h4) =
              bind-ok
                (or_fail (current_pair r.proposal_id p.current_revision p.current_revision_hash db)
                  record_corrupt)
                _ (m, db') h3 in
            let (agree, h5) =
              then-ok (fail_if (not (same_review pair.0.state pair.1.state)) record_corrupt) _
                (m, db') h4 in
            let (follow, h6) =
              then-ok (fail_if (not (may_follow pair.0.state)) proposal_conflict) _ (m, db') h5 in
            let (d, applied, last) =
              bind-ok (apply_withdrawal r.proposal_id p pair.0 now db) _ (m, db') h6 in
            let (d_paired, i, c, ps, xs, one) =
              apply_withdrawal_effect r.proposal_id p pair.0 now db d paired applied in
            let (same, logged, kept, qs, ys) =
              record_mutation_ends withdraw_proposal_op r.proposal_id r.idempotency_key hash
                (current_target r.proposal_id p pair.0.approval_id) m now db d db' i c d_paired
                last in
            inr (
              record {
                names = current_target r.proposal_id p pair.0.approval_id;
                before = p;
                former = pair.0.state;
                stands = or_fail-ok _ proposal_not_found p found;
                was_current =
                    ground (
                      arith,
                      fail_if-ok _ proposal_conflict opened,
                      eq_refl p.current_revision_hash,
                    );
                former_pair =
                    current_pair-current_in r.proposal_id p db pair.0 pair.1
                      (or_fail-ok _ record_corrupt pair joined);
                follows = ground (arith, fail_if-ok _ proposal_conflict follow);
                one = one;
                proposals_become = qs ∙ ps;
                pairs_become = ys ∙ xs;
              },
              kept,
              logged,
            )
      ]
    where
      hash : String
      hash = canonical_json_hash env (withdraw_proposal_request_body r)
