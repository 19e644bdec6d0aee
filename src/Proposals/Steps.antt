-- ===== src/Proposals/Steps.antt =====
-- What a mutation of internal/store/proposals.go that succeeds does to the proposals and the pairs of
-- their revisions, and what it records.
use ananke.Prelude.{
  ℕ, String, ◌≡◌, refl, sym, ap, subst, ◌∙◌, ◌⊎◌, inl, inr, true, false, none, some, [], ◌∷◌, ◌++◌,
  map, arith, exists, map-append, exists-map,
}
use ananke.Prelude.Fallible.{Fallible-cases}
use ananke.Prelude.{Option-cases}
use ananke.Table.{rows, insert}
use ananke.Store.Rows.{next_seq}
use ananke.Proposals.Rows.{
  pending, ProposalMutation, Revision, RevisionRow, RevisionLifecycle, Approval, Operation, Db, Env,
  Result, ok,
}
use ananke.Proposals.Requests.{canonical_revision_snapshot}
use ananke.Proposals.Identity.{
  identity_exists, has_key, insert_revision, insert_approval, insert_lifecycle, clashes,
  validate_proposal_mutation_identity, insert_proposal_idempotency, append_proposal_activity,
  lookup_proposal_idempotency,
}
use ananke.Proposals.Mutations.{once, record_mutation, identity_of, insert_snapshot}
use ananke.Proposals.Pairs.{
  Pair, lifecycle_pair, approval_pair, pairs, row_snapshot, pair_snapshot, Paired, Becomes,
}

abbrev pub fresh : ProposalMutation → Pair
fresh m = record { names = m; state = pending }

pub insert_snapshot-Becomes :
    (env : Env) (approval_id : String) (r : Revision) (now : ℕ) (db db' : Db)
    → Paired db
    → insert_snapshot env approval_id r now db ≡ ok db'
    → (exists (λ x. clashes (identity_of env approval_id r) x.names) (pairs db) ≡ false)
      × Becomes (pairs db ++ fresh (identity_of env approval_id r) ∷ []) db db'
unfolding insert_snapshot insert_revision insert_approval insert_lifecycle identity_of
insert_snapshot-Becomes env approval_id r now db db' paired h = (
  sym (
        exists-map lifecycle_pair (λ l. clashes m l.names) (λ x. clashes m x.names) db.lifecycles
          (λ l. refl))
      ∙ ground arith,
  record {
    becomes = becomes;
    paired = record {
      approvals_match =
          ap (map approval_pair) approvals
          ∙ map-append approval_pair db.approvals (new_approval ∷ [])
          ∙ ap (λ xs. xs ++ fresh m ∷ []) paired.approvals_match
          ∙ sym becomes;
      revisions_match =
          ap (map row_snapshot) revisions
          ∙ map-append row_snapshot db.revisions (new_row ∷ [])
          ∙ ap (λ xs. xs ++ pair_snapshot (fresh m) ∷ []) paired.revisions_match
          ∙ sym (map-append pair_snapshot (pairs db) (fresh m ∷ []))
          ∙ ap (map pair_snapshot) (sym becomes);
    };
    proposals_kept = ground arith;
    activity_kept = ground arith;
    idempotency_kept = ground arith;
  },
)
  where
    m : ProposalMutation
    m = identity_of env approval_id r

    new_row : RevisionRow
    new_row = record {
      proposal_id = r.proposal_id;
      revision = r.revision;
      revision_hash = (canonical_revision_snapshot env r).1;
      snapshot_json = (canonical_revision_snapshot env r).0;
    }

    new_approval : Approval
    new_approval = record {
      names = m;
      created_at = now;
      created_by = "local_gui_operator";
      state = pending;
      decided_at = none;
      decided_by = none;
      decision_idempotency_key = none;
      reason = none;
    }

    new_lifecycle : RevisionLifecycle
    new_lifecycle = record {
      names = m;
      state = pending;
      created_at = now;
      updated_at = now;
      version = 1;
    }

    revisions : db'.revisions ≡ db.revisions ++ new_row ∷ []
    revisions = ground arith

    approvals : db'.approvals ≡ db.approvals ++ new_approval ∷ []
    approvals = ground arith

    lifecycles : db'.lifecycles ≡ db.lifecycles ++ new_lifecycle ∷ []
    lifecycles = ground arith

    becomes : pairs db' ≡ pairs db ++ fresh m ∷ []
    becomes =
        ap (map lifecycle_pair) lifecycles
        ∙ map-append lifecycle_pair db.lifecycles (new_lifecycle ∷ [])

-- The idempotency record and the activity of a mutation.
pub record Logged (operation : Operation) (resource key body_hash : String) (m : ProposalMutation)
    (now : ℕ) (db db' : Db) : Type 0 where
  pub new_key : exists (has_key operation resource key) db.idempotency ≡ false
  pub known : identity_exists m db' ≡ true
  pub idempotency_grows :
      db'.idempotency
      ≡ db.idempotency
        ++ record {
          operation = operation;
          resource = resource;
          idempotency_key = key;
          request_body_hash = body_hash;
          result = m;
        }
          ∷ []
  pub activity_grows :
      db'.activity
      ≡ insert m.proposal_id
          (record {
            sequence = next_seq (map (λ a. a.sequence) (rows m.proposal_id db.activity));
            operation = operation;
            revision = m.revision;
            revision_hash = m.revision_hash;
            approval_id = m.approval_id;
            written_at = now;
          })
          db.activity

-- The tables of revisions are the same.
pub record SameRows (db db' : Db) : Type 0 where
  pub same_revisions : db'.revisions ≡ db.revisions
  pub same_approvals : db'.approvals ≡ db.approvals
  pub same_lifecycles : db'.lifecycles ≡ db.lifecycles

pub record_mutation_effect :
    (operation : Operation) (resource key body_hash : String) (m n : ProposalMutation) (now : ℕ)
    (db db' : Db)
    → record_mutation operation resource key body_hash m now db ≡ ok (n, db')
    → (n ≡ m)
      × Logged operation resource key body_hash m now db db'
      × SameRows db db'
      × (db'.proposals ≡ db.proposals)
unfolding record_mutation insert_proposal_idempotency append_proposal_activity
    validate_proposal_mutation_identity identity_exists
record_mutation_effect operation resource key body_hash m n now db db' h = (
  ground arith,
  record {
    new_key = ground arith;
    known = ground arith;
    idempotency_grows = ground arith;
    activity_grows = ground arith;
  },
  record {
    same_revisions = ground arith;
    same_approvals = ground arith;
    same_lifecycles = ground arith;
  },
  ground arith,
)

-- A mutation finds its key and replays what is recorded, or it goes on.
pub once-cases :
    (operation : Operation) (resource key body_hash : String) (db : Db)
    (rest : Result (ProposalMutation × Db)) (m : ProposalMutation) (db' : Db)
    → once operation resource key body_hash db rest ≡ ok (m, db')
    → ((lookup_proposal_idempotency operation resource key body_hash db ≡ ok (some m)) × (db' ≡ db))
      ⊎ (rest ≡ ok (m, db'))
unfolding once
once-cases operation resource key body_hash db rest m db' h =
    elim (Fallible-cases (lookup_proposal_idempotency operation resource key body_hash db)) [
      | inr (e, f) ↦ ground arith
      | inl (o, f) ↦ elim (Option-cases o) [
        | inl n ↦ inr (ground arith)
        | inr (k, s) ↦ inl (ground arith, ground arith)
      ]
    ]

pub SameRows-Paired : (db db' : Db) → SameRows db db' → Paired db → Paired db'
SameRows-Paired db db' same paired = record {
  approvals_match =
      ap (map approval_pair) same.same_approvals
      ∙ paired.approvals_match
      ∙ ap (map lifecycle_pair) (sym same.same_lifecycles);
  revisions_match =
      ap (map row_snapshot) same.same_revisions
      ∙ paired.revisions_match
      ∙ ap (λ ls. map pair_snapshot (map lifecycle_pair ls)) (sym same.same_lifecycles);
}

-- The end of every mutation: what it has recorded since its start.
pub record_mutation_ends :
    (operation : Operation) (resource key body_hash : String) (m n : ProposalMutation) (now : ℕ)
    (db d db' : Db)
    → d.idempotency ≡ db.idempotency
    → d.activity ≡ db.activity
    → Paired d
    → record_mutation operation resource key body_hash m now d ≡ ok (n, db')
    → (n ≡ m)
      × Logged operation resource key body_hash n now db db'
      × Paired db'
      × (db'.proposals ≡ d.proposals)
      × (pairs db' ≡ pairs d)
record_mutation_ends operation resource key body_hash m n now db d db' i a paired h = (
  same,
  subst (λ k. Logged operation resource key body_hash k now db db') (sym same)
      (record {
        new_key = ap (exists (has_key operation resource key)) (sym i) ∙ logged.new_key;
        known = logged.known;
        idempotency_grows = ground (arith, logged.idempotency_grows, i);
        activity_grows = ground (arith, logged.activity_grows, a);
      }),
  SameRows-Paired d db' rows_kept paired,
  effect.3,
  ap (map lifecycle_pair) rows_kept.same_lifecycles,
)
  where
    effect :
        (n ≡ m)
        × Logged operation resource key body_hash m now d db'
        × SameRows d db'
        × (db'.proposals ≡ d.proposals)
    effect = record_mutation_effect operation resource key body_hash m n now d db' h

    same : n ≡ m
    same = effect.0

    logged : Logged operation resource key body_hash m now d db'
    logged = effect.1

    rows_kept : SameRows d db'
    rows_kept = effect.2

-- Either the replay of what is recorded, or a change.
abbrev pub Outcome :
    Operation → String → String → String → ProposalMutation → ℕ → Db → Db → Type 0 → Type 0
Outcome operation resource key body_hash m now db db' Changed =
    ((lookup_proposal_idempotency operation resource key body_hash db ≡ ok (some m)) × (db' ≡ db))
    ⊎ (Changed × Paired db' × Logged operation resource key body_hash m now db db')
