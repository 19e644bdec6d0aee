-- ===== src/Proposals/Changes/Current.antt =====
-- What the statements on the current revision of a proposal say of its pairs.
use ananke.Prelude.{
  ℕ, String, ◌≡◌, refl, sym, ap, ◌∙◌, inl, inr, Bool, true, ◌&&◌, some, arith, eqb, ◌==◌, exists,
  Option-cases,
}
use ananke.Table.{lookup, update}
use ananke.Proposals.Rows.{same_review, Proposal, Db, ok}
use ananke.Proposals.Pairs.{same_review_refl, pairs}
use ananke.Proposals.Changes.{at_revision, current_in}
use ananke.Prelude.{find, exists-map, find-exists_other, find-exists}
use ananke.Proposals.Rows.{Error, RevisionLifecycle, Approval}
use ananke.Proposals.Identity.{update_current, current_pair}
use ananke.Proposals.Pairs.{lifecycle_pair}

pub update_current_effect :
    (e : Error) (proposal_id : String) (revision : ℕ) (revision_hash : String)
    (f : Proposal → Proposal) (db d : Db)
    → update_current e proposal_id revision revision_hash f db ≡ ok d
    → d ≡ record db { proposals = update proposal_id f db.proposals }
unfolding update_current
update_current_effect e proposal_id revision revision_hash f db d h =
    elim (Option-cases (lookup proposal_id db.proposals)) [
      | inl n ↦ ground arith
      | inr (p, s) ↦ ground arith
    ]

-- The pair of the current revision that the join finds.
pub current_pair-current_in :
    (proposal_id : String) (p : Proposal) (db : Db) (l : RevisionLifecycle) (a : Approval)
    → current_pair proposal_id p.current_revision p.current_revision_hash db ≡ some (l, a)
    → exists (current_in proposal_id p l.state) (pairs db) ≡ true
unfolding current_pair
current_pair-current_in proposal_id p db l a h = elim (Option-cases (find those db.lifecycles)) [
  | inl n ↦ ground arith
  | inr (k, s) ↦
      let same : k ≡ l = ground arith in
      sym (
        exists-map lifecycle_pair mine (current_in proposal_id p l.state) db.lifecycles (λ x. refl))
      ∙ find-exists_other those mine db.lifecycles l (s ∙ ap some same) (
          ground
            (arith, find-exists those db.lifecycles l (s ∙ ap some same), same_review_refl l.state))
]
  where
    those : RevisionLifecycle → Bool
    those x =
        x.proposal_id == proposal_id
        && eqb x.revision p.current_revision
        && x.revision_hash == p.current_revision_hash

    mine : RevisionLifecycle → Bool
    mine x = at_revision proposal_id p.current_revision x.names && same_review x.state l.state
