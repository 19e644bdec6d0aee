-- ===== src/Proposals/Ledger.antt =====
-- The revisions of one proposal as a ledger: numbered one by one, each settled but the last, and the
-- last in step with the proposal. The steps of internal/store/proposals.go on it.
use ananke.Prelude.{
  ℕ, suc, ◌≤◌, String, ◌≡◌, sym, ap, ◌∙◌, inl, inr, Bool, true, false, List, [], ◌∷◌, ◌++◌, arith,
  eq_iff, exists, update_where, rows_affected, Bool-cases,
}
use ananke.Proposals.Rows.{
  ProposalState, open_state, approved_state, withdrawn_state, is_open, ReviewState, pending,
  approved, rejected, superseded, withdrawn, same_review, ProposalMutation, same_mutation, Proposal,
}
use ananke.Proposals.Pairs.{same_review-eq, Pair, to_state, pending_at}
use ananke.Proposals.Mutations.{point_to}
use ananke.Proposals.Changes.{at_revision, current_in}

unfoldable pub is_settled : ReviewState → Bool
is_settled rejected = true
is_settled superseded = true
is_settled _ = false

-- The states of a proposal and of its current revision.
unfoldable pub agrees : ProposalState → ReviewState → Bool
agrees open_state pending = true
agrees open_state rejected = true
agrees approved_state approved = true
agrees withdrawn_state withdrawn = true
agrees withdrawn_state rejected = true
agrees _ _ = false

-- The pairs of a proposal from its n-th revision on.
abbrev pub Ledger : String → Proposal → ℕ → List Pair → Type 0
Ledger id p n [] = true ≡ false
Ledger id p n (x ∷ []) =
    (x.proposal_id ≡ id)
    × (x.revision ≡ n)
    × (p.current_revision ≡ n)
    × (x.revision_hash ≡ p.current_revision_hash)
    × (agrees p.state x.state ≡ true)
Ledger id p n (x ∷ y ∷ ys) =
    (x.proposal_id ≡ id)
    × (x.revision ≡ n)
    × (is_settled x.state ≡ true)
    × Ledger id p (suc n) (y ∷ ys)

pub Ledger-le :
    (id : String) (p : Proposal) (n : ℕ) (xs : List Pair)
    → Ledger id p n xs
    → n ≤ p.current_revision
Ledger-le id p n [] l = ground arith
Ledger-le id p n (x ∷ []) l = omega arith
Ledger-le id p n (x ∷ y ∷ ys) l = omega (arith, Ledger-le id p (suc n) (y ∷ ys) l.3)

abbrev at_current : String → Proposal → Pair → Bool
at_current id p = pending_at (at_revision id p.current_revision)

-- A new revision after a pending one.
pub Ledger-supersede :
    (id : String) (p : Proposal) (n : ℕ) (xs : List Pair) (new : Pair)
    → Ledger id p n xs
    → is_open p.state ≡ true
    → new.proposal_id ≡ id
    → new.revision ≡ suc p.current_revision
    → same_review new.state pending ≡ true
    → Ledger id
        (point_to new.revision new.revision_hash p)
        n
        (update_where (at_current id p) (to_state superseded) (xs ++ new ∷ []))
unfolding update_where is_open agrees is_settled same_review
Ledger-supersede id p n [] new l o i r s = ground arith
Ledger-supersede id p n (x ∷ []) new l o i r s =
    let beyond : at_current id p new ≡ false = ground arith in
    elim (Bool-cases (at_current id p x)) [
      | inl t ↦ rw (beyond, t) (ground arith)
      | inr f ↦ rw (beyond, f) (ground (arith, eq_iff x.proposal_id id))
    ]
Ledger-supersede id p n (x ∷ y ∷ ys) new l o i r s =
    let earlier : at_current id p x ≡ false = ground (arith, Ledger-le id p (suc n) (y ∷ ys) l.3) in
    rw earlier (l.0, l.1, l.2, Ledger-supersede id p (suc n) (y ∷ ys) new l.3 o i r s)

-- The current revision is in the state in which a pair of that number is found.
Ledger-current :
    (id : String) (p : Proposal) (n : ℕ) (x y : Pair) (ys : List Pair) (s : ReviewState)
    → Ledger id p n (x ∷ y ∷ ys)
    → exists (current_in id p s) (x ∷ y ∷ ys) ≡ true
    → exists (current_in id p s) (y ∷ ys) ≡ true
unfolding exists
Ledger-current id p n x y ys s l e = ground (arith, Ledger-le id p (suc n) (y ∷ ys) l.3)

-- A new revision after a rejected one.
pub Ledger-append :
    (id : String) (p : Proposal) (n : ℕ) (xs : List Pair) (new : Pair)
    → Ledger id p n xs
    → exists (current_in id p rejected) xs ≡ true
    → is_open p.state ≡ true
    → new.proposal_id ≡ id
    → new.revision ≡ suc p.current_revision
    → same_review new.state pending ≡ true
    → Ledger id (point_to new.revision new.revision_hash p) n (xs ++ new ∷ [])
unfolding exists is_open agrees is_settled same_review
Ledger-append id p n [] new l e o i r s = ground arith
Ledger-append id p n (x ∷ []) new l e o i r s = ground arith
Ledger-append id p n (x ∷ y ∷ ys) new l e o i r s = (
  l.0,
  l.1,
  l.2,
  Ledger-append id p (suc n) (y ∷ ys) new l.3 (Ledger-current id p n x y ys rejected l e) o i r s,
)

-- The pending pair that is found comes to a state that agrees with the proposal's new one.
pub Ledger-decide :
    (id : String) (p q : Proposal) (m : ProposalMutation) (s : ReviewState) (n : ℕ) (xs : List Pair)
    → Ledger id p n xs
    → rows_affected (pending_at (λ k. same_mutation k m)) xs ≡ 1
    → q.current_revision ≡ p.current_revision
    → q.current_revision_hash ≡ p.current_revision_hash
    → agrees q.state s ≡ true
    → Ledger id q n (update_where (pending_at (λ k. same_mutation k m)) (to_state s) xs)
unfolding update_where rows_affected is_settled same_review
Ledger-decide id p q m s n [] l one c h a = ground arith
Ledger-decide id p q m s n (x ∷ []) l one c h a =
    let found : pending_at (λ k. same_mutation k m) x ≡ true = ground arith in
    rw found (ground arith)
Ledger-decide id p q m s n (x ∷ y ∷ ys) l one c h a =
    let settled : pending_at (λ k. same_mutation k m) x ≡ false = ground arith in
    let rest : rows_affected (pending_at (λ k. same_mutation k m)) (y ∷ ys) ≡ 1 = ground arith in
    rw settled (l.0, l.1, l.2, Ledger-decide id p q m s (suc n) (y ∷ ys) l.3 rest c h a)

-- The proposal comes to a state that agrees with its current pair.
pub Ledger-close :
    (id : String) (p q : Proposal) (s : ReviewState) (n : ℕ) (xs : List Pair)
    → Ledger id p n xs
    → exists (current_in id p s) xs ≡ true
    → q.current_revision ≡ p.current_revision
    → q.current_revision_hash ≡ p.current_revision_hash
    → agrees q.state s ≡ true
    → Ledger id q n xs
unfolding exists
Ledger-close id p q s n [] l e c h a = ground arith
Ledger-close id p q s n (x ∷ []) l e c h a =
    let same : x.state ≡ s = same_review-eq x.state s (ground arith) in
    (l.0, l.1, c ∙ l.2, l.3 ∙ sym h, ap (agrees q.state) same ∙ a)
Ledger-close id p q s n (x ∷ y ∷ ys) l e c h a = (
  l.0,
  l.1,
  l.2,
  Ledger-close id p q s (suc n) (y ∷ ys) l.3 (Ledger-current id p n x y ys s l e) c h a,
)
