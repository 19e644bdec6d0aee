-- ===== src/Proposals/Withdrawing.antt =====
-- When WithdrawProposal of internal/store/proposals.go succeeds.
use ananke.Prelude.{
  ℕ, String, ◌≡◌, refl, ap, subst, ◌∙◌, inl, inr, true, false, some, none, List, arith, eq_refl,
  exists, find, find-none, find-exists, find-exists_other, update_where, exists-update_where,
  Bool-cases, if◌then◌else◌,
}
use ananke.Table.{lookup}
use ananke.Proposals.Rows.{
  ReviewState, pending, withdrawn, same_review, is_open, withdrawn_state, ProposalMutation,
  same_mutation, Proposal, RevisionLifecycle, Approval, Db, Env, ok, Result, withdraw_proposal_op,
  proposal_conflict,
}
use ananke.Proposals.Requests.{
  WithdrawProposalRequest, canonical_json_hash, withdraw_proposal_request_body,
}
use ananke.Proposals.Validation.{validate_withdraw_proposal_request}
use ananke.Proposals.Identity.{has_key, current_pair}
use ananke.Proposals.Mutations.{record_mutation, may_follow}
use ananke.Proposals.Decisions.{
  current_target, withdraw_pair, apply_withdrawal, withdraw_proposal, withdrawn_row, set_state,
}
use ananke.Proposals.Pairs.{Pair, pairs, Paired, lifecycle_pair, to_state}
use ananke.Proposals.Distinct.{DistinctApprovals, run_calls-DistinctApprovals, named, named-Single}
use ananke.Proposals.Deciding.{once-new, has_own_names}
use ananke.Proposals.Success.{
  update_pair-succeeds, update_current-succeeds, record_mutation-succeeds,
}
use ananke.Proposals.Pointer.{at_pointer, found_pair, pointer-target, open_follows, own_is_current}
use ananke.Proposals.Names.{has_names}
use ananke.Proposals.Changes.Withdrawals.{apply_withdrawal_effect}
use ananke.Proposals.Calls.{Call, run_calls, empty}
use ananke.Proposals.Invariant.Histories.{WellFormed, run_calls-WellFormed_proposals}
use mathlib.Core.Option
use ananke.Table.{lookup-update}
use ananke.Proposals.Steps.{record_mutation_effect}

apply_withdrawal-succeeds :
    (id : String) (p : Proposal) (l : RevisionLifecycle) (now : ℕ) (db : Db)
    → Paired db
    → DistinctApprovals (pairs db)
    → lookup id db.proposals ≡ some p
    → is_open p.state ≡ true
    → find (at_pointer id p) (pairs db) ≡ some (lifecycle_pair l)
    → (d : Db) × (apply_withdrawal id p l now db ≡ ok d)
unfolding apply_withdrawal withdraw_pair
apply_withdrawal-succeeds id p l now db paired distinct stands opened found =
    elim (Bool-cases (same_review l.state pending)) [
      | inl t ↦
          let m = current_target id p l.approval_id in
          let names : l.names ≡ m =
            pointer-target id p l
              (find-exists (at_pointer id p) (pairs db) (lifecycle_pair l) found) in
          let is_named : named m (lifecycle_pair l) ≡ true =
            subst (λ k. named k (lifecycle_pair l) ≡ true) names
              (ground (arith, has_own_names l.names, t)) in
          let there : exists (named m) (pairs db) ≡ true =
            find-exists_other (at_pointer id p) (named m) (pairs db) (lifecycle_pair l) found
              is_named in
          let (d, k, first, second, kept) =
            update_pair-succeeds proposal_conflict m withdrawn now withdrawn_row db paired
              (named-Single m (pairs db) distinct there) in
          let (e, third) =
            update_current-succeeds proposal_conflict id p.current_revision p.current_revision_hash
              (set_state withdrawn_state) p k (ap (lookup id) kept ∙ stands)
              (own_is_current p opened) in
          (e, rw (t, first, second) third)
      | inr f ↦
          let (e, third) =
            update_current-succeeds proposal_conflict id p.current_revision p.current_revision_hash
              (set_state withdrawn_state) p db stands (own_is_current p opened) in
          (e, rw f third)
    ]

kept_names :
    (m n : ProposalMutation) (s : ReviewState) (xs ys : List Pair)
    → ys ≡ (if same_review s pending then update_where (named m) (to_state withdrawn) xs else xs)
    → exists (has_names n) xs ≡ true
    → exists (has_names n) ys ≡ true
kept_names m n s xs ys e t = elim (Bool-cases (same_review s pending)) [
  | inl p ↦
      ap (exists (has_names n)) (e ∙ rw p refl)
      ∙ exists-update_where (has_names n) (named m) (to_state withdrawn) xs (λ x. refl)
      ∙ t
  | inr f ↦ ap (exists (has_names n)) (e ∙ rw f refl) ∙ t
]

module _ (env : Env) where
  withdraw_runs :
      (now : ℕ) (r : WithdrawProposalRequest) (p : Proposal) (l : RevisionLifecycle) (a : Approval)
      (d db : Db) (result : Result (ProposalMutation × Db))
      → find (has_key withdraw_proposal_op r.proposal_id r.idempotency_key) db.idempotency ≡ none
      → validate_withdraw_proposal_request r ≡ ok tt
      → lookup r.proposal_id db.proposals ≡ some p
      → is_open p.state ≡ true
      → current_pair r.proposal_id p.current_revision p.current_revision_hash db ≡ some (l, a)
      → same_review l.state a.state ≡ true
      → may_follow l.state ≡ true
      → apply_withdrawal r.proposal_id p l now db ≡ ok d
      → record_mutation withdraw_proposal_op r.proposal_id r.idempotency_key
          (canonical_json_hash env (withdraw_proposal_request_body r))
          (current_target r.proposal_id p l.approval_id)
          now
          d
        ≡ result
      → withdraw_proposal env now r db ≡ result
  unfolding withdraw_proposal
  withdraw_runs now r p l a d db result absent valid found opened joined agree follow applied
        recorded =
      once-new withdraw_proposal_op r.proposal_id r.idempotency_key _ db _ absent
      ∙ rw (valid, found, opened, joined, agree, follow, applied) recorded

  open-withdraw :
      (now : ℕ) (r : WithdrawProposalRequest) (p : Proposal) (db : Db)
      → WellFormed db
      → DistinctApprovals (pairs db)
      → validate_withdraw_proposal_request r ≡ ok tt
      → exists (has_key withdraw_proposal_op r.proposal_id r.idempotency_key) db.idempotency ≡ false
      → lookup r.proposal_id db.proposals ≡ some p
      → is_open p.state ≡ true
      → (m : ProposalMutation) × (db' : Db) × (withdraw_proposal env now r db ≡ ok (m, db'))
        × (lookup r.proposal_id db'.proposals ≡ some (set_state withdrawn_state p))
  open-withdraw now r p db w distinct valid new stands opened =
      let (l, a, joined, agree, in_step, found) =
        found_pair r.proposal_id p db w.paired distinct stands (w.in_step r.proposal_id) in
      let m = current_target r.proposal_id p l.approval_id in
      let (d, applied) =
        apply_withdrawal-succeeds r.proposal_id p l now db w.paired distinct stands opened found in
      let (d_paired, same_keys, act, ps, becomes, one) =
        apply_withdrawal_effect env r.proposal_id p l now db d w.paired applied in
      let names : l.names ≡ m =
        pointer-target r.proposal_id p l
          (find-exists (at_pointer r.proposal_id p) (pairs db) (lifecycle_pair l) found) in
      let there : exists (has_names m) (pairs db) ≡ true =
        find-exists_other (at_pointer r.proposal_id p) (has_names m) (pairs db) (lifecycle_pair l)
          found (subst (λ k. same_mutation l.names k ≡ true) names (has_own_names l.names)) in
      let (e, recorded) =
        record_mutation-succeeds withdraw_proposal_op r.proposal_id r.idempotency_key
          (canonical_json_hash env (withdraw_proposal_request_body r)) m now db d d_paired
          (kept_names m m l.state (pairs db) (pairs d) becomes there) same_keys new in
      let absent =
        find-none (has_key withdraw_proposal_op r.proposal_id r.idempotency_key) db.idempotency
          new in
      (
        m,
        e,
        withdraw_runs now r p l a d db (ok (m, e)) absent valid stands opened joined agree
            (open_follows p l.state opened in_step) applied recorded,
        ap (lookup r.proposal_id) (
              (record_mutation_effect withdraw_proposal_op r.proposal_id r.idempotency_key
                (canonical_json_hash env (withdraw_proposal_request_body r)) m m now d e recorded).3
              ∙ ps)
            ∙ lookup-update r.proposal_id r.proposal_id (set_state withdrawn_state) db.proposals
            ∙ rw (eq_refl r.proposal_id) (ap (Option.map (set_state withdrawn_state)) stands),
      )

  -- After any history of calls, a valid withdrawal of an open proposal with a new key succeeds, and
  -- leaves the proposal withdrawn with the same current revision.
  pub withdraw_proposal_open :
      (cs : List Call) (now : ℕ) (r : WithdrawProposalRequest) (p : Proposal)
      → validate_withdraw_proposal_request r ≡ ok tt
      → exists
          (has_key withdraw_proposal_op r.proposal_id r.idempotency_key)
          (run_calls env cs empty).idempotency
        ≡ false
      → lookup r.proposal_id (run_calls env cs empty).proposals ≡ some p
      → is_open p.state ≡ true
      → (m : ProposalMutation) × (db' : Db) × (withdraw_proposal env now r (run_calls env cs empty)
          ≡ ok (m, db'))
        × (lookup r.proposal_id db'.proposals ≡ some (set_state withdrawn_state p))
  withdraw_proposal_open cs now r p valid new stands opened =
      open-withdraw now r p (run_calls env cs empty) (run_calls-WellFormed_proposals env cs)
        (run_calls-DistinctApprovals env cs) valid new stands opened
