-- ===== src/Proposals/Names.antt =====
-- The names of revisions in the tables of internal/store/proposals.go: once there, always there.
use ananke.Prelude.{
  ℕ, String, ◌≡◌, refl, sym, ap, ◌∙◌, inl, inr, Bool, true, ◌&&◌, List, [], ◌∷◌, ◌++◌, arith, ◌==◌,
  eqb, Bool-cases, exists, exists-imply, exists-append, exists-update_where, exists-map,
}
use ananke.Proposals.Rows.{
  ReviewState, superseded, ProposalMutation, same_mutation, Db, same_review, pending, withdrawn,
}
use ananke.Proposals.Identity.{identity_exists, names_revision}
use ananke.Proposals.Pairs.{
  Pair, pairs, Paired, lifecycle_pair, approval_pair, pair_snapshot, row_snapshot, to_state,
  pending_at, Snapshot,
}
use ananke.Proposals.Steps.{fresh}
use ananke.Proposals.Changes.{
  Change, creation, appending, deciding, withdrawing, supersede, at_revision,
}

-- A pair with these names, in any state.
abbrev pub has_names : ProposalMutation → Pair → Bool
has_names m x = same_mutation x.names m

abbrev has_snapshot : ProposalMutation → Snapshot → Bool
has_snapshot m r =
    r.proposal_id == m.proposal_id
    && eqb r.revision m.revision
    && r.revision_hash == m.revision_hash

names_snapshot :
    (m : ProposalMutation) (x : Pair)
    → has_names m x ≡ true
    → has_snapshot m (pair_snapshot x) ≡ true
unfolding same_mutation
names_snapshot m x t = ground arith

revision_exists :
    (m : ProposalMutation) (db : Db)
    → Paired db
    → exists (has_names m) (pairs db) ≡ true
    → exists (names_revision m.proposal_id m.revision m.revision_hash) db.revisions ≡ true
unfolding names_revision
revision_exists m db paired t =
    exists-map row_snapshot _ (has_snapshot m) db.revisions (λ r. refl)
    ∙ ap (exists (has_snapshot m)) paired.revisions_match
    ∙ sym (
        exists-map pair_snapshot (λ x. has_snapshot m (pair_snapshot x)) (has_snapshot m) (pairs db)
          (λ x. refl))
    ∙ exists-imply (has_names m) (λ x. has_snapshot m (pair_snapshot x)) (pairs db)
        (names_snapshot m) t

pub approval_exists :
    (m : ProposalMutation) (db : Db)
    → Paired db
    → exists (λ a. same_mutation a.names m) db.approvals ≡ exists (has_names m) (pairs db)
approval_exists m db paired =
    exists-map approval_pair _ (has_names m) db.approvals (λ a. refl)
    ∙ ap (exists (has_names m)) paired.approvals_match

-- In paired tables the join is a search of the lifecycles.
pub identity_exists-Paired :
    (m : ProposalMutation) (db : Db)
    → Paired db
    → identity_exists m db ≡ exists (has_names m) (pairs db)
unfolding identity_exists
identity_exists-Paired m db paired = ground (
  arith,
  exists-map lifecycle_pair (λ l. same_mutation l.names m) (has_names m) db.lifecycles (λ l. refl),
  approval_exists m db paired,
  revision_exists m db paired,
)

exists-supersede :
    (m : ProposalMutation) (id : String) (n : ℕ) (s : ReviewState) (xs : List Pair)
    → exists (has_names m) (supersede id n s xs) ≡ exists (has_names m) xs
exists-supersede m id n s xs = elim (Bool-cases (same_review s pending)) [
  | inl t ↦ rw t (
      exists-update_where (has_names m) (pending_at (at_revision id n)) (to_state superseded) xs
        (λ x. refl))
  | inr f ↦ rw f refl
]

grown :
    (m : ProposalMutation) (xs : List Pair) (y : Pair)
    → exists (has_names m) xs ≡ true
    → exists (has_names m) (xs ++ y ∷ []) ≡ true
grown m xs y t = ground (arith, exists-append (has_names m) xs (y ∷ []))

pub Change-has_names :
    (m : ProposalMutation) (db db' : Db)
    → Change db db'
    → exists (has_names m) (pairs db) ≡ true
    → exists (has_names m) (pairs db') ≡ true
Change-has_names m db db' (creation c) t =
    ap (exists (has_names m)) c.pairs_become ∙ grown m (pairs db) (fresh c.names) t
Change-has_names m db db' (appending c) t =
    ap (exists (has_names m)) c.pairs_become
    ∙ exists-supersede m c.names.proposal_id c.before.current_revision c.former _
    ∙ grown m (pairs db) (fresh c.names) t
Change-has_names m db db' (deciding c) t =
    ap (exists (has_names m)) c.pairs_become
    ∙ exists-update_where (has_names m) (pending_at (λ n. same_mutation n c.names))
        (to_state c.decision) (pairs db) (λ x. refl)
    ∙ t
Change-has_names m db db' (withdrawing c) t = elim (Bool-cases (same_review c.former pending)) [
  | inl p ↦
      ap (exists (has_names m)) (c.pairs_become ∙ rw p refl)
      ∙ exists-update_where (has_names m) (pending_at (λ n. same_mutation n c.names))
          (to_state withdrawn) (pairs db) (λ x. refl)
      ∙ t
  | inr f ↦ ap (exists (has_names m)) (c.pairs_become ∙ rw f refl) ∙ t
]
