-- ===== src/Proposals/Pointer.antt =====
-- The current revision of a proposal is found by the statements of internal/store/proposals.go.
use ananke.Prelude.{
  ℕ, suc, String, ◌≡◌, refl, sym, ap, subst, ◌∙◌, inl, inr, Bool, true, false, ◌&&◌, some, List, [],
  ◌∷◌, arith, ◌==◌, eqb, eq_iff, eq_refl, exists, find, find-map, find-keep, find-exists_other,
  Bool-cases,
}
use ananke.Table.{lookup}
use ananke.Proposals.Rows.{
  ReviewState, same_review, is_open, same_mutation, Proposal, RevisionLifecycle, Approval, Db,
}
use ananke.Proposals.Identity.{is_current, current_pair}
use ananke.Proposals.Mutations.{may_follow}
use ananke.Proposals.Decisions.{current_target}
use ananke.Proposals.Pairs.{Pair, pairs, Paired, lifecycle_pair, approval_pair, same_review_refl}
use ananke.Proposals.Ledger.{Ledger-le, Ledger, agrees}
use ananke.Proposals.Distinct.{DistinctApprovals, has_approval}
use ananke.Proposals.Deciding.{has_own_names}
use ananke.Proposals.Invariant.{of_proposal, InStep-Ledger, InStep}

-- A pair of the current revision, with its hash.
abbrev pub at_pointer : String → Proposal → Pair → Bool
at_pointer id p x =
    x.proposal_id == id
    && eqb x.revision p.current_revision
    && x.revision_hash == p.current_revision_hash

Ledger-find :
    (id : String) (p : Proposal) (n : ℕ) (xs : List Pair)
    → Ledger id p n xs
    → (x : Pair) × (find (at_pointer id p) xs ≡ some x) × (agrees p.state x.state ≡ true)
unfolding find
Ledger-find id p n [] l = ground arith
Ledger-find id p n (x ∷ []) l =
    let here : at_pointer id p x ≡ true =
      ground (arith, eq_iff x.proposal_id id, eq_iff x.revision_hash p.current_revision_hash) in
    (x, rw here refl, l.4)
Ledger-find id p n (x ∷ y ∷ ys) l =
    let (z, e, a) = Ledger-find id p (suc n) (y ∷ ys) l.3 in
    let earlier : at_pointer id p x ≡ false = ground (arith, Ledger-le id p (suc n) (y ∷ ys) l.3) in
    (z, rw earlier e, a)

-- What a search finds is found by its names.
find_by_names :
    (p : Pair → Bool) (xs : List Pair) (x : Pair)
    → DistinctApprovals xs
    → find p xs ≡ some x
    → find (λ y. same_mutation y.names x.names) xs ≡ some x
unfolding find same_mutation
find_by_names p [] x d h = ground arith
find_by_names p (y ∷ ys) x d h = elim (Bool-cases (p y)) [
  | inl t ↦
      let same : y ≡ x = ground arith in
      let own : same_mutation y.names x.names ≡ true =
        subst (λ z. same_mutation y.names z.names ≡ true) same (has_own_names y.names) in
      rw own (ap some same)
  | inr f ↦
      let later : find p ys ≡ some x = ground arith in
      let there : exists (has_approval x.approval_id) ys ≡ true =
        find-exists_other p (has_approval x.approval_id) ys x later (eq_refl x.approval_id) in
      let other : same_mutation y.names x.names ≡ false =
        ground (arith, there, d.0, eq_iff y.approval_id x.approval_id) in
      rw other (find_by_names p ys x d.1 later)
]

current_pair-found :
    (id : String) (p : Proposal) (db : Db) (l : RevisionLifecycle) (a : Approval)
    → find
        (λ l.
          l.proposal_id == id
          && eqb l.revision p.current_revision
          && l.revision_hash == p.current_revision_hash)
        db.lifecycles
      ≡ some l
    → find (λ a. same_mutation a.names l.names) db.approvals ≡ some a
    → current_pair id p.current_revision p.current_revision_hash db ≡ some (l, a)
unfolding current_pair
current_pair-found id p db l a f g = ground (arith, f, g)

-- The pair of the current revision as the join finds it.
pub found_pair :
    (id : String) (p : Proposal) (db : Db)
    → Paired db
    → DistinctApprovals (pairs db)
    → lookup id db.proposals ≡ some p
    → InStep db id
    → (l : RevisionLifecycle) × (a : Approval) × (current_pair id p.current_revision
          p.current_revision_hash db
        ≡ some (l, a))
      × (same_review l.state a.state ≡ true)
      × (agrees p.state l.state ≡ true)
      × (find (at_pointer id p) (pairs db) ≡ some (lifecycle_pair l))
found_pair id p db paired distinct stands h =
    let (x, e, agree) = Ledger-find id p 1 _ (InStep-Ledger id db p stands h) in
    let whole : find (at_pointer id p) (pairs db) ≡ some x =
      sym (find-keep (of_proposal id) (at_pointer id p) (pairs db) (λ y t. ground arith)) ∙ e in
    let (l, found_l, is_l) =
      find-map lifecycle_pair
        (λ l.
          l.proposal_id == id
          && eqb l.revision p.current_revision
          && l.revision_hash == p.current_revision_hash)
        (at_pointer id p) db.lifecycles x (λ l. refl) whole in
    let whole_l : find (at_pointer id p) (pairs db) ≡ some (lifecycle_pair l) =
      whole ∙ ap some (sym is_l) in
    let (a, found_a, is_a) =
      find-map approval_pair (λ a. same_mutation a.names l.names)
        (λ y. same_mutation y.names l.names) db.approvals (lifecycle_pair l) (λ a. refl)
        (ap (find (λ y. same_mutation y.names l.names)) paired.approvals_match
          ∙ find_by_names (at_pointer id p) (pairs db) (lifecycle_pair l) distinct whole_l) in
    (
      l,
      a,
      current_pair-found id p db l a found_l found_a,
      subst (λ s. same_review l.state s ≡ true) (ap (λ y. y.state) (sym is_a))
          (same_review_refl l.state),
      subst (λ y. agrees p.state y.state ≡ true) (sym is_l) agree,
      whole_l,
    )

pub pointer-target :
    (id : String) (p : Proposal) (l : RevisionLifecycle)
    → at_pointer id p (lifecycle_pair l) ≡ true
    → l.names ≡ current_target id p l.approval_id
pointer-target id p l t =
    ground (arith, eq_iff l.proposal_id id, eq_iff l.revision_hash p.current_revision_hash)

pub open_follows :
    (p : Proposal) (s : ReviewState)
    → is_open p.state ≡ true
    → agrees p.state s ≡ true
    → may_follow s ≡ true
unfolding is_open agrees
open_follows p s o a = ground arith

pub own_is_current :
    (p : Proposal)
    → is_open p.state ≡ true
    → is_current p.current_revision p.current_revision_hash p ≡ true
unfolding is_current
own_is_current p o = ground (arith, eq_refl p.current_revision_hash)
