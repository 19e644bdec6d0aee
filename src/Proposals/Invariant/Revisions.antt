-- ===== src/Proposals/Invariant/Revisions.antt =====
-- A creation and an appended revision keep every proposal in step with its pairs.
use mathlib.Core.List.{append-nil}
use mathlib.Core.Option
use ananke.Prelude.{
  ℕ, suc, String, ◌≡◌, refl, sym, ap, subst, ◌∙◌, inl, inr, Bool, true, false, some, List, [], ◌∷◌,
  ◌++◌, arith, ◌==◌, eq_refl, exists, keep, Bool-cases, keep-append, keep-update_where,
  keep-untouched,
}
use ananke.Table.{lookup, lookup-insert, lookup-update}
use ananke.Proposals.Rows.{
  is_open, ReviewState, pending, superseded, same_review, ProposalMutation, Proposal, Db,
}
use ananke.Proposals.Mutations.{may_follow, point_to}
use ananke.Proposals.Pairs.{Pair, pairs, to_state, pending_at}
use ananke.Proposals.Steps.{fresh}
use ananke.Proposals.Changes.{Creation, Appending, at_revision, current_in, supersede}
use ananke.Proposals.Ledger.{Ledger, agrees, Ledger-supersede, Ledger-append}
use ananke.Proposals.Invariant.{
  of_proposal, Recorded, InStep, SameAt, move, InStep-Ledger, everywhere, apart, found_in, followed,
}

pub Creation-elsewhere :
    (db db' : Db) (c : Creation db db') (id : String)
    → (c.names.proposal_id == id) ≡ false
    → SameAt db db' id
Creation-elsewhere db db' c id f = (
  (ap (lookup id) c.proposals_become
      ∙ lookup-insert own id c.proposal db.proposals c.absent
      ∙ rw f refl),
  (ap (keep (of_proposal id)) c.pairs_become
      ∙ keep-append (of_proposal id) (pairs db) (fresh c.names ∷ [])
      ∙ rw (f, append-nil) refl),
)
  where
    own : String
    own = c.names.proposal_id

pub Creation-InStep : (db db' : Db) → Creation db db' → (id : String) → InStep db id → InStep db' id
unfolding agrees
Creation-InStep db db' c =
    everywhere db db' own
      (λ h.
        move own db' (some c.proposal) (fresh c.names ∷ [])
          (ap (lookup own) c.proposals_become
            ∙ lookup-insert own own c.proposal db.proposals c.absent
            ∙ rw (eq_refl own) refl)
          (ap (keep (of_proposal own)) c.pairs_become
            ∙ keep-append (of_proposal own) (pairs db) (fresh c.names ∷ [])
            ∙ rw
                (
                  eq_refl own,
                  subst (λ t. Recorded own t (keep (of_proposal own) (pairs db))) c.absent h,
                )
                refl)
          (refl, c.first, c.points_first, sym c.points_hash, ap (λ t. agrees t pending) c.opened))
      (Creation-elsewhere db db' c)
  where
    own : String
    own = c.names.proposal_id

keep-supersede :
    (k : Pair → Bool) (own : String) (n : ℕ) (s : ReviewState) (xs : List Pair)
    → ((x : Pair) → k (to_state superseded x) ≡ k x)
    → keep k (supersede own n s xs) ≡ supersede own n s (keep k xs)
keep-supersede k own n s xs same = elim (Bool-cases (same_review s pending)) [
  | inl t ↦
      rw t (keep-update_where k (pending_at (at_revision own n)) (to_state superseded) xs same)
  | inr f ↦ rw f refl
]

keep-supersede_other :
    (own id : String) (n : ℕ) (s : ReviewState) (xs : List Pair)
    → (own == id) ≡ false
    → keep (of_proposal id) (supersede own n s xs) ≡ keep (of_proposal id) xs
keep-supersede_other own id n s xs f = elim (Bool-cases (same_review s pending)) [
  | inl t ↦ rw t (
      keep-untouched (of_proposal id) (pending_at (at_revision own n)) (to_state superseded) xs
        (λ x. refl) (λ x p. apart own id x f (ground arith)))
  | inr g ↦ rw g refl
]

Ledger-append_fresh :
    (own : String) (p : Proposal) (s : ReviewState) (m : ProposalMutation) (xs : List Pair)
    → Ledger own p 1 xs
    → is_open p.state ≡ true
    → exists (current_in own p s) xs ≡ true
    → may_follow s ≡ true
    → m.proposal_id ≡ own
    → m.revision ≡ suc p.current_revision
    → Ledger own
        (point_to m.revision m.revision_hash p)
        1
        (supersede own p.current_revision s (xs ++ fresh m ∷ []))
unfolding same_review
Ledger-append_fresh own p s m xs l o e follow i r = elim (followed s follow) [
  | inl w ↦
      subst
        (λ t.
          Ledger own (point_to m.revision m.revision_hash p) 1
            (supersede own p.current_revision t (xs ++ fresh m ∷ [])))
        (sym w) (Ledger-supersede own p 1 xs (fresh m) l o i r refl)
  | inr (w, f) ↦ rw f (
      Ledger-append own p 1 xs (fresh m) l (subst (λ t. exists (current_in own p t) xs ≡ true) w e)
        o i r refl)
]

pub Appending-elsewhere :
    (db db' : Db) (c : Appending db db') (id : String)
    → (c.names.proposal_id == id) ≡ false
    → SameAt db db' id
Appending-elsewhere db db' c id f = (
  (ap (lookup id) c.proposals_become ∙ lookup-update own id set db.proposals ∙ rw f refl),
  (ap (keep (of_proposal id)) c.pairs_become
      ∙ keep-supersede_other own id c.before.current_revision c.former
          (pairs db ++ fresh c.names ∷ []) f
      ∙ keep-append (of_proposal id) (pairs db) (fresh c.names ∷ [])
      ∙ rw (f, append-nil) refl),
)
  where
    own : String
    own = c.names.proposal_id

    set : Proposal → Proposal
    set = point_to c.names.revision c.names.revision_hash

pub Appending-InStep :
    (db db' : Db) → Appending db db' → (id : String) → InStep db id → InStep db' id
Appending-InStep db db' c =
    everywhere db db' own
      (λ h.
        move own db' (some (set c.before))
          (supersede own c.before.current_revision c.former
            (keep (of_proposal own) (pairs db) ++ fresh c.names ∷ []))
          (ap (lookup own) c.proposals_become
            ∙ lookup-update own own set db.proposals
            ∙ rw (eq_refl own) (ap (Option.map set) c.stands))
          (ap (keep (of_proposal own)) c.pairs_become
            ∙ keep-supersede (of_proposal own) own c.before.current_revision c.former
                (pairs db ++ fresh c.names ∷ []) (λ x. refl)
            ∙ ap (supersede own c.before.current_revision c.former) (
                keep-append (of_proposal own) (pairs db) (fresh c.names ∷ [])
                ∙ rw (eq_refl own) refl))
          (Ledger-append_fresh own c.before c.former c.names _
            (InStep-Ledger own db c.before c.stands h) c.was_open
            (found_in own c.before c.former (pairs db) c.former_pair) c.follows refl c.next))
      (Appending-elsewhere db db' c)
  where
    own : String
    own = c.names.proposal_id

    set : Proposal → Proposal
    set = point_to c.names.revision c.names.revision_hash
