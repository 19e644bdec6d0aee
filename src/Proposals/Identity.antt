-- ===== src/Proposals/Identity.antt =====
-- internal/store/proposals.go: the rows that the mutations share: the identity of a revision, the
-- idempotency records, the activity, and the insertions under the keys of the schema.
use ananke.Prelude.{
  ℕ, suc, String, Bool, ◌&&◌, ◌||◌, not, Option, none, some, [], ◌∷◌, ◌++◌, map, eqb, ◌==◌,
  if◌then◌else◌, find, exists, update_where, rows_affected,
}
use ananke.Table.{lookup, rows, insert, update}
use ananke.Store.Rows.{next_seq}
use ananke.Proposals.Rows.{
  is_open, ReviewState, pending, same_review, ProposalMutation, same_mutation, Proposal,
  RevisionRow, RevisionLifecycle, Approval, Operation, same_operation, IdempotencyRow, Db, Result,
  Error, ok, err, ◌>>◌, fail_if, record_corrupt, idempotency_conflict, constraint,
}

unfoldable pub names_revision : String → ℕ → String → RevisionRow → Bool
names_revision proposal_id revision revision_hash r =
    r.proposal_id == proposal_id && eqb r.revision revision && r.revision_hash == revision_hash

unfoldable pub validate_revision_identity : String → ℕ → String → Db → Result (Unit {0})
validate_revision_identity proposal_id revision revision_hash db =
    fail_if (not (exists (names_revision proposal_id revision revision_hash) db.revisions))
      record_corrupt

-- The SELECT EXISTS over the join of lifecycles, revisions and approvals.
unfoldable pub identity_exists : ProposalMutation → Db → Bool
unfolding names_revision
identity_exists m db =
    exists (λ l. same_mutation l.names m) db.lifecycles
    && exists (names_revision m.proposal_id m.revision m.revision_hash) db.revisions
    && exists (λ a. same_mutation a.names m) db.approvals

unfoldable pub validate_proposal_mutation_identity : ProposalMutation → Db → Result (Unit {0})
validate_proposal_mutation_identity m db = fail_if (not (identity_exists m db)) record_corrupt

-- The key of the idempotency records.
unfoldable pub has_key : Operation → String → String → IdempotencyRow → Bool
has_key operation resource key i =
    same_operation i.operation operation && i.resource == resource && i.idempotency_key == key

-- The replayed mutation, if there is one.
unfoldable pub lookup_proposal_idempotency :
    Operation → String → String → String → Db → Result (Option ProposalMutation)
lookup_proposal_idempotency operation resource key body_hash db =
    elim (find (has_key operation resource key) db.idempotency) [
      | none ↦ ok none
      | some i ↦ do
        validate_proposal_mutation_identity i.result db
        fail_if (not (i.request_body_hash == body_hash)) idempotency_conflict
        ok (some i.result)
    ]

unfoldable pub insert_proposal_idempotency :
    Operation → String → String → String → ProposalMutation → Db → Result Db
insert_proposal_idempotency operation resource key body_hash result db = do
  validate_proposal_mutation_identity result db
  fail_if (exists (has_key operation resource key) db.idempotency) constraint
  ok (record db {
    idempotency =
        db.idempotency
        ++ record {
          operation = operation;
          resource = resource;
          idempotency_key = key;
          request_body_hash = body_hash;
          result = result;
        }
          ∷ [];
  })

unfoldable pub append_proposal_activity : ProposalMutation → Operation → ℕ → Db → Db
append_proposal_activity result operation now db = record db {
  activity =
      insert result.proposal_id
        (record {
          sequence = next_seq (map (λ a. a.sequence) (rows result.proposal_id db.activity));
          operation = operation;
          revision = result.revision;
          revision_hash = result.revision_hash;
          approval_id = result.approval_id;
          written_at = now;
        })
        db.activity;
}

-- PRIMARY KEY (proposal_id, revision), and UNIQUE revision_hash.
unfoldable pub insert_revision : RevisionRow → Db → Result Db
insert_revision row db = do
  fail_if
      (exists
        (λ r.
          r.proposal_id == row.proposal_id && eqb r.revision row.revision
          || r.revision_hash == row.revision_hash)
        db.revisions)
      constraint
  ok (record db { revisions = db.revisions ++ row ∷ [] })

-- The key (proposal_id, revision), the revision's hash or the approval's id.
unfoldable pub clashes : ProposalMutation → ProposalMutation → Bool
clashes m n =
    n.proposal_id == m.proposal_id && eqb n.revision m.revision
    || n.revision_hash == m.revision_hash
    || n.approval_id == m.approval_id

unfoldable pub insert_approval : ProposalMutation → ℕ → Db → Result Db
insert_approval names now db = do
  fail_if (exists (λ a. clashes names a.names) db.approvals) constraint
  ok (record db {
    approvals =
        db.approvals
        ++ record {
          names = names;
          created_at = now;
          created_by = "local_gui_operator";
          state = pending;
          decided_at = none;
          decided_by = none;
          decision_idempotency_key = none;
          reason = none;
        }
          ∷ [];
  })

unfoldable pub insert_lifecycle : ProposalMutation → ℕ → Db → Result Db
insert_lifecycle names now db = do
  fail_if (exists (λ l. clashes names l.names) db.lifecycles) constraint
  ok (record db {
    lifecycles =
        db.lifecycles
        ++ record {
          names = names;
          state = pending;
          created_at = now;
          updated_at = now;
          version = 1;
        }
          ∷ [];
  })

-- UPDATE … WHERE p AND state = pending, which must affect exactly one row; e is the error if not.
unfoldable pub update_pending_lifecycle :
    Error → (ProposalMutation → Bool) → ReviewState → ℕ → Db → Result Db
update_pending_lifecycle e p state now db =
    let those = λ (l : RevisionLifecycle). p l.names && same_review l.state pending in
    if eqb (rows_affected those db.lifecycles) 1
    then ok (record db {
      lifecycles =
          update_where those
            (λ l. record l { state = state; updated_at = now; version = suc l.version })
            db.lifecycles;
    })
    else err e

unfoldable pub update_pending_approval :
    Error → (ProposalMutation → Bool) → (Approval → Approval) → Db → Result Db
update_pending_approval e p f db =
    let those = λ (a : Approval). p a.names && same_review a.state pending in
    if eqb (rows_affected those db.approvals) 1
    then ok (record db { approvals = update_where those f db.approvals })
    else err e

-- UPDATE task_proposals … WHERE the proposal is open and its current revision is the one given.
unfoldable pub is_current : ℕ → String → Proposal → Bool
is_current revision revision_hash p =
    is_open p.state && eqb p.current_revision revision && p.current_revision_hash == revision_hash

unfoldable pub update_current : Error → String → ℕ → String → (Proposal → Proposal) → Db → Result Db
update_current e proposal_id revision revision_hash f db = elim (lookup proposal_id db.proposals) [
  | none ↦ err e
  | some p ↦
      if is_current revision revision_hash p
      then ok (record db { proposals = update proposal_id f db.proposals })
      else err e
]

-- The states of the lifecycle and of the approval of a revision, by the join of the two tables, with
-- the approval's id.
unfoldable pub current_pair : String → ℕ → String → Db → Option (RevisionLifecycle × Approval)
current_pair proposal_id revision revision_hash db =
    elim (find
      (λ l.
        l.proposal_id == proposal_id && eqb l.revision revision && l.revision_hash == revision_hash)
      db.lifecycles) [
        | none ↦ none
        | some l ↦ elim (find (λ a. same_mutation a.names l.names) db.approvals) [
          | none ↦ none
          | some a ↦ some (l, a)
        ]
      ]
