-- ===== src/Proposals/Distinct.antt =====
-- Each approval of internal/store/proposals.go has an id of its own, so that a pair is found by it.
use ananke.Prelude.{
  String, ◌≡◌, refl, sym, ap, subst, ◌∙◌, inl, inr, Bool, true, false, some, List, [], ◌∷◌, ◌++◌,
  arith, ◌==◌, eq_iff, exists, find, update_where, rows_affected, Bool-cases, exists-imply,
  exists-append, exists-update_where,
}
use ananke.Proposals.Rows.{
  ReviewState, pending, superseded, withdrawn, same_review, ProposalMutation, same_mutation, Db,
  Env, after,
}
use ananke.Proposals.Identity.{clashes}
use ananke.Proposals.Pairs.{Pair, pairs, to_state, pending_at, same_mutation-eq, same_review-eq}
use ananke.Proposals.Steps.{fresh}
use ananke.Proposals.Changes.{Change, creation, appending, deciding, withdrawing, at_revision}
use ananke.Proposals.Calls.{Call, call, run_calls, empty}
use ananke.Proposals.Outcomes.{call-Outcome}
use ananke.Proposals.Invariant.Histories.{WellFormed, call-WellFormed, empty-WellFormed}

abbrev pub has_approval : String → Pair → Bool
has_approval id x = x.approval_id == id

abbrev pub DistinctApprovals : List Pair → Type 0
DistinctApprovals [] = Unit
DistinctApprovals (x ∷ xs) = (exists (has_approval x.approval_id) xs ≡ false) × DistinctApprovals xs

DistinctApprovals-update_where :
    (p : Pair → Bool) (s : ReviewState) (xs : List Pair)
    → DistinctApprovals xs
    → DistinctApprovals (update_where p (to_state s) xs)
unfolding update_where
DistinctApprovals-update_where p s [] d = tt
DistinctApprovals-update_where p s (x ∷ xs) d = elim (Bool-cases (p x)) [
  | inl t ↦ rw t (
    exists-update_where (has_approval x.approval_id) p (to_state s) xs (λ y. refl) ∙ d.0,
    DistinctApprovals-update_where p s xs d.1,
  )
  | inr f ↦ rw f (
    exists-update_where (has_approval x.approval_id) p (to_state s) xs (λ y. refl) ∙ d.0,
    DistinctApprovals-update_where p s xs d.1,
  )
]

DistinctApprovals-append :
    (m : ProposalMutation) (xs : List Pair)
    → exists (λ x. clashes m x.names) xs ≡ false
    → DistinctApprovals xs
    → DistinctApprovals (xs ++ fresh m ∷ [])
unfolding exists clashes
DistinctApprovals-append m [] u d = (refl, tt)
DistinctApprovals-append m (x ∷ xs) u d = (
  exists-append (has_approval x.approval_id) xs (fresh m ∷ [])
      ∙ ground (arith, d.0, eq_iff x.approval_id m.approval_id, eq_iff m.approval_id x.approval_id),
  DistinctApprovals-append m xs (ground arith) d.1,
)

Change-DistinctApprovals :
    (db db' : Db) → Change db db' → DistinctApprovals (pairs db) → DistinctApprovals (pairs db')
Change-DistinctApprovals db db' (creation c) d =
    subst DistinctApprovals (sym c.pairs_become)
      (DistinctApprovals-append c.names (pairs db) c.unclashed d)
Change-DistinctApprovals db db' (appending c) d =
    subst DistinctApprovals (sym c.pairs_become) (elim (Bool-cases (same_review c.former pending)) [
      | inl t ↦ rw t (
          DistinctApprovals-update_where
            (pending_at (at_revision c.names.proposal_id c.before.current_revision)) superseded _
            (DistinctApprovals-append c.names (pairs db) c.unclashed d))
      | inr f ↦ rw f (DistinctApprovals-append c.names (pairs db) c.unclashed d)
    ])
Change-DistinctApprovals db db' (deciding c) d = subst DistinctApprovals (sym c.pairs_become) (
    DistinctApprovals-update_where (pending_at (λ n. same_mutation n c.names)) c.decision (pairs db)
      d)
Change-DistinctApprovals db db' (withdrawing c) d =
    subst DistinctApprovals (sym c.pairs_become) (elim (Bool-cases (same_review c.former pending)) [
      | inl t ↦ rw t (
          DistinctApprovals-update_where (pending_at (λ n. same_mutation n c.names)) withdrawn
            (pairs db) d)
      | inr f ↦ rw f d
    ])

run_calls-DistinctApprovals_from :
    (env : Env) (cs : List Call) (db : Db)
    → WellFormed db
    → DistinctApprovals (pairs db)
    → DistinctApprovals (pairs (run_calls env cs db))
unfolding run_calls
run_calls-DistinctApprovals_from env [] db w d = d
run_calls-DistinctApprovals_from env (c ∷ cs) db w d =
    run_calls-DistinctApprovals_from env cs (after db (call env c db)) (call-WellFormed env c db w)
      (elim (call-Outcome env c db w.paired) [
        | inl same ↦ subst (λ k. DistinctApprovals (pairs k)) (sym same) d
        | inr (m, change, rest, logged) ↦
            Change-DistinctApprovals db (after db (call env c db)) change d
      ])

pub run_calls-DistinctApprovals :
    (env : Env) (cs : List Call) → DistinctApprovals (pairs (run_calls env cs empty))
unfolding empty
run_calls-DistinctApprovals env cs =
    run_calls-DistinctApprovals_from env cs empty empty-WellFormed tt

none_affected :
    (p q : Pair → Bool) (xs : List Pair)
    → ((x : Pair) → p x ≡ true → q x ≡ true)
    → exists q xs ≡ false
    → rows_affected p xs ≡ 0
unfolding exists rows_affected
none_affected p q [] imply n = refl
none_affected p q (x ∷ xs) imply n = ground (arith, none_affected p q xs imply, imply x)

abbrev pub named : ProposalMutation → Pair → Bool
named m = pending_at (λ n. same_mutation n m)

abbrev pub with_approval : String → Pair → Bool
with_approval id = pending_at (λ n. n.approval_id == id)

same_approval :
    (m n : ProposalMutation) → same_mutation n m ≡ true → (n.approval_id == m.approval_id) ≡ true
unfolding same_mutation
same_approval m n t = ground arith

-- A pending pair is the one row that its names, or the id of its approval, find.
pub record Single (m : ProposalMutation) (xs : List Pair) : Type 0 where
  pub one_named : rows_affected (named m) xs ≡ 1
  pub one_approval : rows_affected (with_approval m.approval_id) xs ≡ 1
  pub found_approval : find (has_approval m.approval_id) xs ≡ some (fresh m)
  pub found_named : find (λ x. same_mutation x.names m) xs ≡ some (fresh m)

named-fresh : (m : ProposalMutation) (x : Pair) → named m x ≡ true → x ≡ fresh m
named-fresh m x t =
    let names : x.names ≡ m = same_mutation-eq x.names m (ground arith) in
    let state : x.state ≡ pending = same_review-eq x.state pending (ground arith) in ground arith

first_Single :
    (m : ProposalMutation) (x : Pair) (xs : List Pair)
    → exists (has_approval x.approval_id) xs ≡ false
    → named m x ≡ true
    → Single m (x ∷ xs)
unfolding rows_affected find
first_Single m x xs d t =
    let same : (x.approval_id == m.approval_id) ≡ true = same_approval m x.names (ground arith) in
    let none_left : exists (has_approval m.approval_id) xs ≡ false =
      ap (λ i. exists (has_approval i) xs) (sym ((eq_iff x.approval_id m.approval_id).0 same))
      ∙ d in
    let is_fresh = named-fresh m x t in
    record {
      one_named = ground (
        arith,
        none_affected (named m) (has_approval m.approval_id) xs
            (λ y p. same_approval m y.names (ground arith)) none_left,
      );
      one_approval = ground (
        arith,
        none_affected (with_approval m.approval_id) (has_approval m.approval_id) xs
            (λ y p. ground arith) none_left,
      );
      found_approval = ground (arith, same, is_fresh);
      found_named = ground (arith, t, is_fresh);
    }

later_Single :
    (m : ProposalMutation) (x : Pair) (xs : List Pair)
    → (x.approval_id == m.approval_id) ≡ false
    → Single m xs
    → Single m (x ∷ xs)
unfolding rows_affected find
later_Single m x xs f s =
    let other : same_mutation x.names m ≡ false = ground (arith, same_approval m x.names) in
    record {
      one_named = ground (arith, s.one_named);
      one_approval = ground (arith, s.one_approval);
      found_approval = ground (arith, s.found_approval);
      found_named = ground (arith, s.found_named);
    }

pub named-Single :
    (m : ProposalMutation) (xs : List Pair)
    → DistinctApprovals xs
    → exists (named m) xs ≡ true
    → Single m xs
unfolding exists
named-Single m [] d e = ground arith
named-Single m (x ∷ xs) d e = elim (Bool-cases (named m x)) [
  | inl t ↦ first_Single m x xs d.0 t
  | inr f ↦
      let later : exists (named m) xs ≡ true = ground arith in
      let s = named-Single m xs d.1 later in later_Single m x xs (apart_from m x xs d.0 later) s
]
  where
    apart_from :
        (m : ProposalMutation) (x : Pair) (xs : List Pair)
        → exists (has_approval x.approval_id) xs ≡ false
        → exists (named m) xs ≡ true
        → (x.approval_id == m.approval_id) ≡ false
    apart_from m x xs n t = elim (Bool-cases (x.approval_id == m.approval_id)) [
      | inl same ↦
          let there : exists (has_approval m.approval_id) xs ≡ true =
            exists-imply (named m) (has_approval m.approval_id) xs
              (λ y p. same_approval m y.names (ground arith)) t in
          let here : exists (has_approval m.approval_id) xs ≡ false =
            ap (λ i. exists (has_approval i) xs) (sym ((eq_iff x.approval_id m.approval_id).0 same))
            ∙ n in
          ground arith
      | inr g ↦ g
    ]
