-- ===== src/Proposals/Success.antt =====
-- When the statements of a decision and of a withdrawal succeed, in internal/store/proposals.go.
use ananke.Prelude.{
  ℕ, String, ◌≡◌, refl, ap, ◌∙◌, inl, inr, Bool, true, false, ◌&&◌, some, arith, ◌==◌, eqb, eqb_iff,
  exists, rows_affected, rows_affected-map, Bool-cases, map,
}
use ananke.Table.{lookup}
use ananke.Proposals.Rows.{
  ReviewState, pending, approved, same_review, approved_state, ProposalMutation, same_mutation,
  Proposal, Approval, Operation, Db, Error, ok, approval_conflict,
}
use ananke.Proposals.Requests.{DecideProposalApprovalRequest}
use ananke.Proposals.Identity.{
  update_pending_lifecycle, update_pending_approval, is_current, update_current, has_key,
  identity_exists, insert_proposal_idempotency, validate_proposal_mutation_identity,
}
use ananke.Proposals.Mutations.{record_mutation}
use ananke.Prelude.Fallible.{Fallible-cases}
use ananke.Proposals.Decisions.{decided_row, target, apply_decision, set_state}
use ananke.Proposals.Pairs.{
  pairs, Paired, lifecycle_pair, approval_pair, approvals_of, pending_at,
  update_pending_lifecycle_effect,
}
use ananke.Proposals.Steps.{record_mutation_effect}
use ananke.Proposals.Names.{has_names, identity_exists-Paired}
use ananke.Proposals.Distinct.{with_approval, Single}

update_pending_lifecycle-succeeds :
    (e : Error) (p : ProposalMutation → Bool) (s : ReviewState) (now : ℕ) (db : Db)
    → rows_affected (pending_at p) (pairs db) ≡ 1
    → (d : Db) × (update_pending_lifecycle e p s now db ≡ ok d)
unfolding update_pending_lifecycle
update_pending_lifecycle-succeeds e p s now db one =
    let counted : eqb (rows_affected (λ l. p l.names && same_review l.state pending) db.lifecycles)
          1
        ≡ true =
      (eqb_iff _ 1).1
        (rows_affected-map lifecycle_pair _ (pending_at p) db.lifecycles (λ l. refl) ∙ one) in
    elim (Fallible-cases (update_pending_lifecycle e p s now db)) [
      | inl (d, f) ↦ (d, f)
      | inr (x, f) ↦ ground (arith, counted)
    ]

update_pending_approval-succeeds :
    (e : Error) (p : ProposalMutation → Bool) (f : Approval → Approval) (db : Db)
    → rows_affected (pending_at p) (approvals_of db) ≡ 1
    → (d : Db) × (update_pending_approval e p f db ≡ ok d) × (d.proposals ≡ db.proposals)
unfolding update_pending_approval
update_pending_approval-succeeds e p f db one =
    let counted : eqb (rows_affected (λ a. p a.names && same_review a.state pending) db.approvals) 1
        ≡ true =
      (eqb_iff _ 1).1
        (rows_affected-map approval_pair _ (pending_at p) db.approvals (λ a. refl) ∙ one) in
    elim (Fallible-cases (update_pending_approval e p f db)) [
      | inl (d, g) ↦ (d, g, ground (arith, counted))
      | inr (x, g) ↦ ground (arith, counted)
    ]

-- The two updates of a pending pair.
pub update_pair-succeeds :
    (e : Error) (m : ProposalMutation) (s : ReviewState) (now : ℕ) (f : Approval → Approval)
    (db : Db)
    → Paired db
    → Single m (pairs db)
    → (d : Db) × (k : Db) × (update_pending_lifecycle e (λ n. same_mutation n m) s now db ≡ ok d)
      × (update_pending_approval e (λ n. n.approval_id == m.approval_id) f d ≡ ok k)
      × (k.proposals ≡ db.proposals)
update_pair-succeeds e m s now f db paired single =
    let (d, first) =
      update_pending_lifecycle-succeeds e (λ n. same_mutation n m) s now db single.one_named in
    let effect = update_pending_lifecycle_effect e (λ n. same_mutation n m) s now db d first in
    let (k, second, kept) =
      update_pending_approval-succeeds e (λ n. n.approval_id == m.approval_id) f d
        (ap (λ l. rows_affected (with_approval m.approval_id) (map approval_pair l))
            effect.approvals_kept
          ∙ ap (rows_affected (with_approval m.approval_id)) paired.approvals_match
          ∙ single.one_approval) in
    (d, k, first, second, kept ∙ effect.proposals_kept)

pub update_current-succeeds :
    (e : Error) (id : String) (n : ℕ) (h : String) (f : Proposal → Proposal) (p : Proposal)
    (db : Db)
    → lookup id db.proposals ≡ some p
    → is_current n h p ≡ true
    → (d : Db) × (update_current e id n h f db ≡ ok d)
unfolding update_current
update_current-succeeds e id n h f p db found current =
    elim (Fallible-cases (update_current e id n h f db)) [
      | inl (d, g) ↦ (d, g)
      | inr (x, g) ↦ ground (arith, found, current)
    ]

pub record_mutation-succeeds :
    (operation : Operation) (resource key body_hash : String) (m : ProposalMutation) (now : ℕ)
    (db d : Db)
    → Paired d
    → exists (has_names m) (pairs d) ≡ true
    → d.idempotency ≡ db.idempotency
    → exists (has_key operation resource key) db.idempotency ≡ false
    → (e : Db) × (record_mutation operation resource key body_hash m now d ≡ ok (m, e))
unfolding record_mutation insert_proposal_idempotency validate_proposal_mutation_identity
record_mutation-succeeds operation resource key body_hash m now db d paired there same new =
    let known : identity_exists m d ≡ true = identity_exists-Paired m d paired ∙ there in
    let fresh_key : exists (has_key operation resource key) d.idempotency ≡ false =
      ap (exists (has_key operation resource key)) same ∙ new in
    elim (Fallible-cases (record_mutation operation resource key body_hash m now d)) [
      | inl ((n, e), g) ↦
          let same : n ≡ m =
            (record_mutation_effect operation resource key body_hash m n now d e g).0 in
          (e, g ∙ ap (λ k. ok (k, e)) same)
      | inr (x, g) ↦ ground (arith, known, fresh_key)
    ]

pub apply_decision-succeeds :
    (r : DecideProposalApprovalRequest) (now : ℕ) (p : Proposal) (db : Db)
    → Paired db
    → Single (target r) (pairs db)
    → lookup r.proposal_id db.proposals ≡ some p
    → is_current r.revision r.revision_hash p ≡ true
    → (d : Db) × (apply_decision r now (target r) db ≡ ok d)
unfolding apply_decision
apply_decision-succeeds r now p db paired single found current =
    let (d, k, first, second, kept) =
      update_pair-succeeds approval_conflict (target r) r.decision now (decided_row r now) db paired
        single in
    let (e, third) =
      update_current-succeeds approval_conflict r.proposal_id r.revision r.revision_hash
        (set_state approved_state) p k (ap (lookup r.proposal_id) kept ∙ found) current in
    elim (Bool-cases (same_review r.decision approved)) [
      | inl t ↦ (e, rw (first, second, t) third)
      | inr f ↦ (k, rw (first, second, f) refl)
    ]
