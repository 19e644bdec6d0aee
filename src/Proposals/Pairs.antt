-- ===== src/Proposals/Pairs.antt =====
-- The pairs of a lifecycle and an approval, as the two tables show them, and what the statements of
-- internal/store/proposals.go do to them.
use ananke.Prelude.{
  ℕ, suc, String, ◌≡◌, refl, sym, ap, ◌∙◌, Bool, true, ◌&&◌, List, [], ◌∷◌, map, arith, eqb, eq_iff,
  update_where, rows_affected, map-update_where, rows_affected-map, update_where_same, eqb_iff,
}
use ananke.Proposals.Rows.{
  ReviewState, pending, same_review, ProposalMutation, same_mutation, RevisionRow,
  RevisionLifecycle, Approval, Db, Error, ok,
}
use ananke.Proposals.Identity.{update_pending_lifecycle, update_pending_approval}

pub record Pair : Type 0 where
  pub names : ProposalMutation
  pub open names use *
  pub state : ReviewState

abbrev pub lifecycle_pair : RevisionLifecycle → Pair
lifecycle_pair l = record { names = l.names; state = l.state }

abbrev pub approval_pair : Approval → Pair
approval_pair a = record { names = a.names; state = a.state }

abbrev pub pairs : Db → List Pair
pairs db = map lifecycle_pair db.lifecycles

abbrev pub approvals_of : Db → List Pair
approvals_of db = map approval_pair db.approvals

-- What a revision row and a pair have in common.
pub record Snapshot : Type 0 where
  pub proposal_id : String
  pub revision : ℕ
  pub revision_hash : String

abbrev pub row_snapshot : RevisionRow → Snapshot
row_snapshot r = record {
  proposal_id = r.proposal_id;
  revision = r.revision;
  revision_hash = r.revision_hash;
}

abbrev pub pair_snapshot : Pair → Snapshot
pair_snapshot x = record {
  proposal_id = x.proposal_id;
  revision = x.revision;
  revision_hash = x.revision_hash;
}

-- The approvals are those that the lifecycles name, in the same states and order, and there is a
-- revision row for each.
pub record Paired (db : Db) : Type 0 where
  pub approvals_match : approvals_of db ≡ pairs db
  pub revisions_match : map row_snapshot db.revisions ≡ map pair_snapshot (pairs db)

abbrev pub to_state : ReviewState → Pair → Pair
to_state s x = record x { state = s }

abbrev pub pending_at : (ProposalMutation → Bool) → Pair → Bool
pending_at p x = p x.names && same_review x.state pending

pub same_review-eq : (s t : ReviewState) → same_review s t ≡ true → s ≡ t
unfolding same_review
same_review-eq s t h = ground arith

pub same_review_refl : (s : ReviewState) → same_review s s ≡ true
unfolding same_review
same_review_refl s = ground arith

pub same_mutation-eq : (m n : ProposalMutation) → same_mutation m n ≡ true → m ≡ n
unfolding same_mutation
same_mutation-eq m n h = ground (
  arith,
  eq_iff m.proposal_id n.proposal_id,
  eq_iff m.revision_hash n.revision_hash,
  eq_iff m.approval_id n.approval_id,
)

-- What the update of a lifecycle leaves, and that it changes exactly one pair.
pub record LifecycleUpdate (p : ProposalMutation → Bool) (s : ReviewState) (db db' : Db)
    : Type 0 where
  pub one : rows_affected (pending_at p) (pairs db) ≡ 1
  pub updated : pairs db' ≡ update_where (pending_at p) (to_state s) (pairs db)
  pub proposals_kept : db'.proposals ≡ db.proposals
  pub revisions_kept : db'.revisions ≡ db.revisions
  pub approvals_kept : db'.approvals ≡ db.approvals
  pub activity_kept : db'.activity ≡ db.activity
  pub idempotency_kept : db'.idempotency ≡ db.idempotency

pub update_pending_lifecycle_effect :
    (e : Error) (p : ProposalMutation → Bool) (s : ReviewState) (now : ℕ) (db db' : Db)
    → update_pending_lifecycle e p s now db ≡ ok db'
    → LifecycleUpdate p s db db'
unfolding update_pending_lifecycle
update_pending_lifecycle_effect e p s now db db' h = record {
  one =
      sym (rows_affected-map lifecycle_pair those (pending_at p) db.lifecycles (λ l. refl))
      ∙ (eqb_iff _ 1).0 count;
  updated =
      ap pairs written
      ∙ map-update_where lifecycle_pair those (pending_at p) set (to_state s) db.lifecycles
          (λ l. refl) (λ l. refl);
  proposals_kept = ap (λ d. d.proposals) written;
  revisions_kept = ap (λ d. d.revisions) written;
  approvals_kept = ap (λ d. d.approvals) written;
  activity_kept = ap (λ d. d.activity) written;
  idempotency_kept = ap (λ d. d.idempotency) written;
}
  where
    those : RevisionLifecycle → Bool
    those l = p l.names && same_review l.state pending

    set : RevisionLifecycle → RevisionLifecycle
    set l = record l { state = s; updated_at = now; version = suc l.version }

    count : eqb (rows_affected those db.lifecycles) 1 ≡ true
    count = ground arith

    written : db' ≡ record db { lifecycles = update_where those set db.lifecycles }
    written = ground arith

-- What the statements on the three tables of revisions leave.
pub record Becomes (xs : List Pair) (db db' : Db) : Type 0 where
  pub becomes : pairs db' ≡ xs
  pub paired : Paired db'
  pub proposals_kept : db'.proposals ≡ db.proposals
  pub activity_kept : db'.activity ≡ db.activity
  pub idempotency_kept : db'.idempotency ≡ db.idempotency

snapshots_kept :
    (p : Pair → Bool) (s : ReviewState) (xs : List Pair)
    → map pair_snapshot (update_where p (to_state s) xs) ≡ map pair_snapshot xs
unfolding update_where
snapshots_kept p s [] = refl
snapshots_kept p s (x ∷ xs) = ground (arith, snapshots_kept p s xs)

-- The update of an approval after that of its lifecycle, whose test may be narrower.
pub update_pair :
    (e : Error) (p q : ProposalMutation → Bool) (s : ReviewState) (now : ℕ)
    (f : Approval → Approval) (db d db' : Db)
    → ((a : Approval) → approval_pair (f a) ≡ to_state s (approval_pair a))
    → ((n : ProposalMutation) → p n ≡ true → q n ≡ true)
    → Paired db
    → update_pending_lifecycle e p s now db ≡ ok d
    → update_pending_approval e q f d ≡ ok db'
    → (rows_affected (pending_at p) (pairs db) ≡ 1)
      × Becomes (update_where (pending_at p) (to_state s) (pairs db)) db db'
unfolding update_pending_approval
update_pair e p q s now f db d db' step imply paired first second = (
  effect.one,
  record {
    becomes = becomes;
    paired = record {
      approvals_match =
          ap approvals_of written
          ∙ map-update_where approval_pair those (pending_at q) f (to_state s) d.approvals
              (λ a. refl) step
          ∙ ap (update_where (pending_at q) (to_state s)) approvals
          ∙ sym same
          ∙ sym becomes;
      revisions_match =
          ap (λ r. map row_snapshot r.revisions) written
          ∙ ap (map row_snapshot) effect.revisions_kept
          ∙ paired.revisions_match
          ∙ sym (snapshots_kept (pending_at p) s (pairs db))
          ∙ ap (map pair_snapshot) (sym becomes);
    };
    proposals_kept = ap (λ r. r.proposals) written ∙ effect.proposals_kept;
    activity_kept = ap (λ r. r.activity) written ∙ effect.activity_kept;
    idempotency_kept = ap (λ r. r.idempotency) written ∙ effect.idempotency_kept;
  },
)
  where
    effect : LifecycleUpdate p s db d
    effect = update_pending_lifecycle_effect e p s now db d first

    those : Approval → Bool
    those a = q a.names && same_review a.state pending

    count : eqb (rows_affected those d.approvals) 1 ≡ true
    count = ground arith

    written : db' ≡ record d { approvals = update_where those f d.approvals }
    written = ground arith

    approvals : map approval_pair d.approvals ≡ pairs db
    approvals = ap (map approval_pair) effect.approvals_kept ∙ paired.approvals_match

    becomes : pairs db' ≡ update_where (pending_at p) (to_state s) (pairs db)
    becomes = ap pairs written ∙ effect.updated

    counted : rows_affected (pending_at q) (pairs db) ≡ 1
    counted =
        ap (rows_affected (pending_at q)) (sym approvals)
        ∙ sym (rows_affected-map approval_pair those (pending_at q) d.approvals (λ a. refl))
        ∙ (eqb_iff _ 1).0 count

    same :
        update_where (pending_at p) (to_state s) (pairs db)
        ≡ update_where (pending_at q) (to_state s) (pairs db)
    same =
        update_where_same (pending_at p) (pending_at q) (to_state s) (pairs db)
          (λ x t. ground (arith, imply x.names, t)) (effect.one ∙ sym counted)
