-- ===== src/Proposals/Deciding.antt =====
-- When DecideProposalApproval of internal/store/proposals.go succeeds.
use ananke.Prelude.{
  ℕ, String, ◌≡◌, ◌↔◌, refl, sym, ap, subst, ◌∙◌, inl, inr, Bool, true, false, ◌&&◌, some, none,
  List, [], ◌∷◌, arith, ◌==◌, eqb, eq_refl, exists, find, find-none, find-map, rows_affected,
  exists-update_where, exists-imply,
}
use ananke.Table.{lookup}
use ananke.Proposals.Rows.{
  pending, same_review, ProposalMutation, same_mutation, Proposal, RevisionLifecycle, Approval, Db,
  Env, ok, decide_approval_op, Operation, Result,
}
use ananke.Proposals.Requests.{
  DecideProposalApprovalRequest, canonical_json_hash, decision_request_body,
}
use ananke.Proposals.Validation.{validate_decide_proposal_approval_request}
use ananke.Proposals.Identity.{has_key, is_current, lookup_proposal_idempotency}
use ananke.Proposals.Mutations.{once, record_mutation}
use ananke.Proposals.Decisions.{target, apply_decision, decide_proposal_approval}
use ananke.Proposals.Pairs.{Pair, pairs, Paired, lifecycle_pair, approval_pair, to_state}
use ananke.Proposals.Steps.{fresh}
use ananke.Proposals.Changes.Decisions.{decide_proposal_approval-Deciding, apply_decision_effect}
use ananke.Proposals.Calls.{Call, run_calls, empty}
use ananke.Proposals.Names.{has_names}
use ananke.Proposals.Distinct.{
  DistinctApprovals, run_calls-DistinctApprovals, has_approval, named, Single, named-Single,
}
use ananke.Proposals.Success.{apply_decision-succeeds, record_mutation-succeeds}
use ananke.Proposals.Invariant.Histories.{WellFormed, run_calls-WellFormed_proposals}

-- The proposal is open, its current revision is the one that the request names, and that revision is
-- pending with the approval that the request names.
abbrev pub CanDecide : DecideProposalApprovalRequest → Db → Type 0
CanDecide r db =
    (p : Proposal) × (lookup r.proposal_id db.proposals ≡ some p)
    × (is_current r.revision r.revision_hash p ≡ true)
    × (exists (named (target r)) (pairs db) ≡ true)

pub once-new :
    (operation : Operation) (resource key body_hash : String) (db : Db)
    (rest : Result (ProposalMutation × Db))
    → find (has_key operation resource key) db.idempotency ≡ none
    → once operation resource key body_hash db rest ≡ rest
unfolding once lookup_proposal_idempotency
once-new operation resource key body_hash db rest absent = ground (arith, absent)

pub affected-exists :
    (p : Pair → Bool) (xs : List Pair) → rows_affected p xs ≡ 1 → exists p xs ≡ true
unfolding rows_affected exists
affected-exists p [] one = ground arith
affected-exists p (x ∷ xs) one = ground (arith, affected-exists p xs)

pub has_own_names : (m : ProposalMutation) → same_mutation m m ≡ true
unfolding same_mutation
has_own_names m =
    ground (arith, eq_refl m.proposal_id, eq_refl m.revision_hash, eq_refl m.approval_id)

found_lifecycle :
    (m : ProposalMutation) (db : Db)
    → Single m (pairs db)
    → (l : RevisionLifecycle) × (find (λ l. same_mutation l.names m) db.lifecycles ≡ some l)
      × (same_review l.state pending ≡ true)
unfolding same_review
found_lifecycle m db single =
    let (l, e, g) =
      find-map lifecycle_pair (λ l. same_mutation l.names m) (λ x. same_mutation x.names m)
        db.lifecycles (fresh m) (λ l. refl) single.found_named in
    (l, e, ap (λ x. same_review x.state pending) g)

found_approval :
    (m : ProposalMutation) (db : Db)
    → Paired db
    → Single m (pairs db)
    → (a : Approval) × (find (λ a. a.approval_id == m.approval_id) db.approvals ≡ some a)
      × (a.names ≡ m)
      × (same_review a.state pending ≡ true)
unfolding same_review
found_approval m db paired single =
    let (a, e, g) =
      find-map approval_pair (λ a. a.approval_id == m.approval_id) (has_approval m.approval_id)
        db.approvals (fresh m) (λ a. refl)
        (ap (find (has_approval m.approval_id)) paired.approvals_match ∙ single.found_approval) in
    (a, e, ap (λ x. x.names) g, ap (λ x. same_review x.state pending) g)

named_by_target :
    (r : DecideProposalApprovalRequest) (a : Approval)
    → a.names ≡ target r
    → same_review a.state pending ≡ true
    → (a.proposal_id == r.proposal_id
        && eqb a.revision r.revision
        && a.revision_hash == r.revision_hash
        && same_review a.state pending)
      ≡ true
named_by_target r a e t =
    subst
      (λ n.
        (n.proposal_id == r.proposal_id
          && eqb n.revision r.revision
          && n.revision_hash == r.revision_hash
          && same_review a.state pending)
        ≡ true)
      (sym e) (ground (arith, eq_refl r.proposal_id, eq_refl r.revision_hash, t))

module _ (env : Env) where
  decide-CanDecide :
      (now : ℕ) (r : DecideProposalApprovalRequest) (m : ProposalMutation) (db db' : Db)
      → Paired db
      → exists (has_key decide_approval_op r.approval_id r.idempotency_key) db.idempotency ≡ false
      → decide_proposal_approval env now r db ≡ ok (m, db')
      → CanDecide r db
  unfolding lookup_proposal_idempotency
  decide-CanDecide now r m db db' paired new h =
      elim (decide_proposal_approval-Deciding env now r m db db' paired h) [
        | inl (replay, same) ↦
            let absent =
              find-none (has_key decide_approval_op r.approval_id r.idempotency_key) db.idempotency
                new in
            ground (arith, absent, replay)
        | inr ((c, names), kept, logged) ↦ (
          c.before,
          subst (λ n. lookup n.proposal_id db.proposals ≡ some c.before) names c.stands,
          subst (λ n. is_current n.revision n.revision_hash c.before ≡ true) names c.was_current,
          subst (λ n. exists (named n) (pairs db) ≡ true) names
              (affected-exists (named c.names) (pairs db) c.one),
        )
      ]

  decide_runs :
      (now : ℕ) (r : DecideProposalApprovalRequest) (a : Approval) (p : Proposal)
      (l : RevisionLifecycle) (d db : Db) (result : Result (ProposalMutation × Db))
      → find (has_key decide_approval_op r.approval_id r.idempotency_key) db.idempotency ≡ none
      → validate_decide_proposal_approval_request r ≡ ok tt
      → find (λ a. a.approval_id == r.approval_id) db.approvals ≡ some a
      → (a.proposal_id == r.proposal_id
          && eqb a.revision r.revision
          && a.revision_hash == r.revision_hash
          && same_review a.state pending)
        ≡ true
      → lookup r.proposal_id db.proposals ≡ some p
      → find (λ l. same_mutation l.names (target r)) db.lifecycles ≡ some l
      → is_current r.revision r.revision_hash p ≡ true
      → same_review l.state pending ≡ true
      → apply_decision r now (target r) db ≡ ok d
      → record_mutation decide_approval_op r.approval_id r.idempotency_key
          (canonical_json_hash env (decision_request_body r))
          (target r)
          now
          d
        ≡ result
      → decide_proposal_approval env now r db ≡ result
  unfolding decide_proposal_approval
  decide_runs now r a p l d db result absent valid find_a matches found find_l current pending_l
        applied recorded =
      once-new decide_approval_op r.approval_id r.idempotency_key _ db _ absent
      ∙ rw (valid, find_a, matches, found, find_l, current, pending_l, applied) recorded

  CanDecide-decide :
      (now : ℕ) (r : DecideProposalApprovalRequest) (db : Db)
      → Paired db
      → DistinctApprovals (pairs db)
      → validate_decide_proposal_approval_request r ≡ ok tt
      → exists (has_key decide_approval_op r.approval_id r.idempotency_key) db.idempotency ≡ false
      → CanDecide r db
      → (db' : Db) × (decide_proposal_approval env now r db ≡ ok (target r, db'))
  CanDecide-decide now r db paired distinct valid new (p, found, current, there) =
      let m = target r in
      let single = named-Single m (pairs db) distinct there in
      let (l, find_l, pending_l) = found_lifecycle m db single in
      let (a, find_a, names_a, pending_a) = found_approval m db paired single in
      let (d, applied) = apply_decision-succeeds r now p db paired single found current in
      let (d_paired, same_keys, act, ps, becomes, one) =
        apply_decision_effect env r now db d paired applied in
      let kept : exists (has_names m) (pairs d) ≡ true =
        ap (exists (has_names m)) becomes
        ∙ exists-update_where (has_names m) (named m) (to_state r.decision) (pairs db) (λ x. refl)
        ∙ exists-imply (named m) (has_names m) (pairs db) (λ x t. ground arith) there in
      let (e, recorded) =
        record_mutation-succeeds decide_approval_op r.approval_id r.idempotency_key
          (canonical_json_hash env (decision_request_body r)) m now db d d_paired kept same_keys
          new in
      let absent =
        find-none (has_key decide_approval_op r.approval_id r.idempotency_key) db.idempotency new in
      let matches : (a.proposal_id == r.proposal_id
            && eqb a.revision r.revision
            && a.revision_hash == r.revision_hash
            && same_review a.state pending)
          ≡ true =
        named_by_target r a names_a pending_a in
      (
        e,
        decide_runs now r a p l d db (ok (m, e)) absent valid find_a matches found find_l current
            pending_l applied recorded,
      )

  -- A valid decision with a new key, after any history of calls, succeeds exactly if its proposal is
  -- open, its revision is the current one, with that hash, and that revision is pending with that
  -- approval; the result names that revision and that approval.
  pub decide_proposal_approval_exact :
      (cs : List Call) (now : ℕ) (r : DecideProposalApprovalRequest)
      → validate_decide_proposal_approval_request r ≡ ok tt
      → exists
          (has_key decide_approval_op r.approval_id r.idempotency_key)
          (run_calls env cs empty).idempotency
        ≡ false
      → ((db' : Db) × (decide_proposal_approval env now r (run_calls env cs empty)
            ≡ ok (target r, db')))
        ↔ CanDecide r (run_calls env cs empty)
  decide_proposal_approval_exact cs now r valid new = (
    λ (db', h). decide-CanDecide now r (target r) (run_calls env cs empty) db' w.paired new h,
    CanDecide-decide now r (run_calls env cs empty) w.paired (run_calls-DistinctApprovals env cs)
        valid new,
  )
    where
      w : WellFormed (run_calls env cs empty)
      w = run_calls-WellFormed_proposals env cs
