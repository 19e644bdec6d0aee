-- ===== src/Proposals/Invariant/Decisions.antt =====
-- A decision and a withdrawal keep every proposal in step with its pairs.
use mathlib.Core.Option
use ananke.Prelude.{
  ℕ, String, ◌≡◌, refl, ap, subst, ◌∙◌, inl, inr, true, false, ◌||◌, some, List, arith, ◌==◌,
  eq_refl, exists, update_where, keep, Bool-cases, keep-update_where, keep-untouched,
  rows_affected-keep, if◌then◌else◌,
}
use ananke.Table.{lookup, update, lookup-update}
use ananke.Proposals.Rows.{
  is_open, ReviewState, pending, approved, rejected, withdrawn, same_review, approved_state,
  withdrawn_state, ProposalMutation, same_mutation, Proposal, Db,
}
use ananke.Proposals.Identity.{is_current}
use ananke.Proposals.Decisions.{set_state}
use ananke.Proposals.Pairs.{same_review_refl, Pair, pairs, to_state, pending_at}
use ananke.Proposals.Changes.{
  Change, creation, appending, deciding, withdrawing, Deciding, Withdrawing, current_in,
}
use ananke.Proposals.Ledger.{agrees, Ledger-decide, Ledger-close}
use ananke.Proposals.Invariant.Revisions.{Creation-InStep, Appending-InStep}
use ananke.Proposals.Invariant.{
  of_proposal, InStep, SameAt, move, InStep-Ledger, everywhere, apart, found_in, followed,
}

named-of_proposal :
    (m : ProposalMutation) (x : Pair)
    → pending_at (λ n. same_mutation n m) x ≡ true
    → of_proposal m.proposal_id x ≡ true
unfolding same_mutation
named-of_proposal m x t = ground arith

keep-named :
    (m : ProposalMutation) (s : ReviewState) (xs : List Pair)
    → keep
        (of_proposal m.proposal_id)
        (update_where (pending_at (λ n. same_mutation n m)) (to_state s) xs)
      ≡ update_where
          (pending_at (λ n. same_mutation n m))
          (to_state s)
          (keep (of_proposal m.proposal_id) xs)
keep-named m s xs = keep-update_where (of_proposal m.proposal_id) _ (to_state s) xs (λ x. refl)

keep-named_other :
    (m : ProposalMutation) (s : ReviewState) (id : String) (xs : List Pair)
    → (m.proposal_id == id) ≡ false
    → keep (of_proposal id) (update_where (pending_at (λ n. same_mutation n m)) (to_state s) xs)
      ≡ keep (of_proposal id) xs
keep-named_other m s id xs f =
    keep-untouched (of_proposal id) (pending_at (λ n. same_mutation n m)) (to_state s) xs
      (λ x. refl) (λ x t. apart m.proposal_id id x f (named-of_proposal m x t))

-- What a decision makes of a proposal.
abbrev decide_on : ReviewState → Proposal → Proposal
decide_on s p = if same_review s approved then set_state approved_state p else p

decided_own :
    (s : ReviewState) (own : String) (p : Proposal) (db db' : Db)
    → db'.proposals ≡ (
        if same_review s approved
        then update own (set_state approved_state) db.proposals
        else db.proposals)
    → lookup own db.proposals ≡ some p
    → lookup own db'.proposals ≡ some (decide_on s p)
decided_own s own p db db' w stands = elim (Bool-cases (same_review s approved)) [
  | inl t ↦ rw t (
      ap (lookup own) (w ∙ rw t refl)
      ∙ lookup-update own own (set_state approved_state) db.proposals
      ∙ rw (eq_refl own) (ap (Option.map (set_state approved_state)) stands))
  | inr f ↦ rw f (ap (lookup own) (w ∙ rw f refl) ∙ stands)
]

decided_other :
    (s : ReviewState) (own id : String) (db db' : Db)
    → db'.proposals ≡ (
        if same_review s approved
        then update own (set_state approved_state) db.proposals
        else db.proposals)
    → (own == id) ≡ false
    → lookup id db'.proposals ≡ lookup id db.proposals
decided_other s own id db db' w f = elim (Bool-cases (same_review s approved)) [
  | inl t ↦
      ap (lookup id) (w ∙ rw t refl)
      ∙ lookup-update own id (set_state approved_state) db.proposals
      ∙ rw f refl
  | inr g ↦ ap (lookup id) (w ∙ rw g refl)
]

decided_agrees :
    (s : ReviewState) (p : Proposal)
    → is_open p.state ≡ true
    → (same_review s approved || same_review s rejected) ≡ true
    → agrees (decide_on s p).state s ≡ true
unfolding agrees same_review is_open
decided_agrees s p o d = ground arith

decided_current :
    (s : ReviewState) (p : Proposal)
    → ((decide_on s p).current_revision ≡ p.current_revision)
      × ((decide_on s p).current_revision_hash ≡ p.current_revision_hash)
decided_current s p = elim (Bool-cases (same_review s approved)) [
  | inl t ↦ rw t (refl, refl)
  | inr f ↦ rw f (refl, refl)
]

pub is_current-is_open :
    (n : ℕ) (h : String) (p : Proposal) → is_current n h p ≡ true → is_open p.state ≡ true
unfolding is_current
is_current-is_open n h p t = ground arith

pub Deciding-elsewhere :
    (db db' : Db) (c : Deciding db db') (id : String)
    → (c.names.proposal_id == id) ≡ false
    → SameAt db db' id
Deciding-elsewhere db db' c id f = (
  (decided_other c.decision own id db db' c.proposals_become f),
  (ap (keep (of_proposal id)) c.pairs_become ∙ keep-named_other c.names c.decision id (pairs db) f),
)
  where
    own : String
    own = c.names.proposal_id

Deciding-InStep : (db db' : Db) → Deciding db db' → (id : String) → InStep db id → InStep db' id
Deciding-InStep db db' c =
    everywhere db db' own
      (λ h.
        move own db' (some (decide_on c.decision c.before))
          (update_where (pending_at (λ n. same_mutation n c.names)) (to_state c.decision)
            (keep (of_proposal own) (pairs db)))
          (decided_own c.decision own c.before db db' c.proposals_become c.stands)
          (ap (keep (of_proposal own)) c.pairs_become ∙ keep-named c.names c.decision (pairs db))
          (Ledger-decide own c.before (decide_on c.decision c.before) c.names c.decision 1 _
            (InStep-Ledger own db c.before c.stands h)
            (rows_affected-keep (of_proposal own) _ (pairs db) (named-of_proposal c.names) ∙ c.one)
            (decided_current c.decision c.before).0 (decided_current c.decision c.before).1
            (decided_agrees c.decision c.before
              (is_current-is_open c.names.revision c.names.revision_hash c.before c.was_current)
              c.decided)))
      (Deciding-elsewhere db db' c)
  where
    own : String
    own = c.names.proposal_id

pub Withdrawing-elsewhere :
    (db db' : Db) (c : Withdrawing db db') (id : String)
    → (c.names.proposal_id == id) ≡ false
    → SameAt db db' id
Withdrawing-elsewhere db db' c id f = (
  (ap (lookup id) c.proposals_become
      ∙ lookup-update own id (set_state withdrawn_state) db.proposals
      ∙ rw f refl),
  (elim (Bool-cases (same_review c.former pending)) [
    | inl t ↦
        ap (keep (of_proposal id)) (c.pairs_become ∙ rw t refl)
        ∙ keep-named_other c.names withdrawn id (pairs db) f
    | inr g ↦ ap (keep (of_proposal id)) (c.pairs_become ∙ rw g refl)
  ]),
)
  where
    own : String
    own = c.names.proposal_id

Withdrawing-InStep :
    (db db' : Db) → Withdrawing db db' → (id : String) → InStep db id → InStep db' id
unfolding agrees
Withdrawing-InStep db db' c =
    everywhere db db' own
      (λ h. elim (followed c.former c.follows) [
        | inl w ↦
            let t : same_review c.former pending ≡ true =
              ap (λ s. same_review s pending) w ∙ same_review_refl pending in
            move own db' (some (set_state withdrawn_state c.before))
              (update_where (pending_at (λ n. same_mutation n c.names)) (to_state withdrawn)
                (keep (of_proposal own) (pairs db)))
              (withdrawn_own c.stands)
              (ap (keep (of_proposal own)) (c.pairs_become ∙ rw t refl)
                ∙ keep-named c.names withdrawn (pairs db))
              (Ledger-decide own c.before (set_state withdrawn_state c.before) c.names withdrawn 1 _
                (InStep-Ledger own db c.before c.stands h)
                (rows_affected-keep (of_proposal own) _ (pairs db) (named-of_proposal c.names)
                  ∙ c.one t)
                refl refl refl)
        | inr (w, f) ↦
            move own db' (some (set_state withdrawn_state c.before))
              (keep (of_proposal own) (pairs db)) (withdrawn_own c.stands)
              (ap (keep (of_proposal own)) (c.pairs_become ∙ rw f refl))
              (Ledger-close own c.before (set_state withdrawn_state c.before) rejected 1 _
                (InStep-Ledger own db c.before c.stands h)
                (subst
                  (λ s.
                    exists (current_in own c.before s) (keep (of_proposal own) (pairs db)) ≡ true)
                  w (found_in own c.before c.former (pairs db) c.former_pair))
                refl refl refl)
      ])
      (Withdrawing-elsewhere db db' c)
  where
    own : String
    own = c.names.proposal_id

    withdrawn_own :
        lookup own db.proposals ≡ some c.before
        → lookup own db'.proposals ≡ some (set_state withdrawn_state c.before)
    withdrawn_own stands =
        ap (lookup own) c.proposals_become
        ∙ lookup-update own own (set_state withdrawn_state) db.proposals
        ∙ rw (eq_refl own) (ap (Option.map (set_state withdrawn_state)) stands)

pub Change-InStep : (db db' : Db) → Change db db' → (id : String) → InStep db id → InStep db' id
Change-InStep db db' (creation c) = Creation-InStep db db' c
Change-InStep db db' (appending c) = Appending-InStep db db' c
Change-InStep db db' (deciding c) = Deciding-InStep db db' c
Change-InStep db db' (withdrawing c) = Withdrawing-InStep db db' c
