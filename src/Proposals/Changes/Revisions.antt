-- ===== src/Proposals/Changes/Revisions.antt =====
-- A creation or an appended revision that succeeds replays, or makes its change.
use ananke.Prelude.{
  ℕ, suc, String, ◌≡◌, refl, sym, ap, subst, ◌∙◌, inl, inr, not, none, [], ◌∷◌, ◌++◌, arith,
  if◌then◌else◌, Option-cases, Bool-cases,
}
use ananke.Prelude.Fallible.{bind-ok, then-ok, fail_if-ok, or_fail-ok}
use ananke.Table.{lookup, insert, update}
use ananke.Proposals.Rows.{
  ReviewState, pending, superseded, same_review, open_state, ProposalMutation, Proposal, Db, Env,
  ok, create_proposal_op,
}
use ananke.Proposals.Requests.{CreateProposalRequest, canonical_json_hash, create_request_body}
use ananke.Proposals.Identity.{is_current}
use ananke.Proposals.Mutations.{
  may_follow, point_to, identity_of, insert_proposal, root_revision, new_revision, create_proposal,
}
use ananke.Proposals.Pairs.{pairs, Paired, Becomes}
use ananke.Proposals.Steps.{
  Outcome, SameRows-Paired, fresh, insert_snapshot-Becomes, record_mutation_ends, once-cases,
}
use ananke.Proposals.Changes.Current.{update_current_effect, current_pair-current_in}
use ananke.Proposals.Requests.{AppendProposalRevisionRequest, append_revision_request_body}
use ananke.Proposals.Mutations.{
  next_revision, append_next, supersede_pending_revision_pair, append_proposal_revision,
}
use ananke.Proposals.Rows.{
  revision_conflict, append_revision_op, proposal_not_found, record_corrupt, or_fail, fail_if,
}
use ananke.Proposals.Validation.{validate_append_proposal_revision_request}
use ananke.Proposals.Pairs.{update_pair, same_review-eq}
use ananke.Prelude.{exists, false}
use ananke.Proposals.Identity.{clashes}
use ananke.Proposals.Changes.{Creation, Appending, at_revision, supersede}
use ananke.Proposals.Rows.{RevisionLifecycle, Approval}
use ananke.Proposals.Identity.{current_pair}

module _ (env : Env) where
  insert_proposal_effect :
      (proposal_id : String) (request : CreateProposalRequest) (revision_hash : String) (now : ℕ)
      (db d : Db)
      → insert_proposal proposal_id request revision_hash now db ≡ ok d
      → (lookup proposal_id db.proposals ≡ none)
        × (d ≡ record db {
          proposals =
              insert proposal_id
                (record {
                  project_id = request.project_id;
                  workstream_id = request.workstream_id;
                  created_at = now;
                  created_by = "local_gui_operator";
                  state = open_state;
                  current_revision = 1;
                  current_revision_hash = revision_hash;
                })
                db.proposals;
        })
  unfolding insert_proposal
  insert_proposal_effect proposal_id request revision_hash now db d h =
      elim (Option-cases (lookup proposal_id db.proposals)) [
        | inl n ↦ (n, ground arith)
        | inr (p, s) ↦ ground arith
      ]

  pub create_proposal-Creation :
      (proposal_id approval_id : String) (now : ℕ) (r : CreateProposalRequest)
      (m : ProposalMutation) (db db' : Db)
      → Paired db
      → create_proposal env proposal_id approval_id now r db ≡ ok (m, db')
      → Outcome create_proposal_op "proposal_collection" r.idempotency_key
          (canonical_json_hash env (create_request_body r))
          m
          now
          db
          db'
          (Creation db db')
  unfolding create_proposal identity_of new_revision
  create_proposal-Creation proposal_id approval_id now r m db db' paired h =
      elim (once-cases create_proposal_op "proposal_collection" r.idempotency_key hash db _ m db'
        h) [
          | inl replay ↦ inl replay
          | inr rest ↦
              let (valid, first) = then-ok _ _ (m, db') rest in
              let (d, a, second) = bind-ok _ _ (m, db') first in
              let (e, b, third) = bind-ok _ _ (m, db') second in
              let (missing, written) =
                insert_proposal_effect proposal_id r new.revision_hash now db d a in
              let d_paired =
                SameRows-Paired db d
                  (record {
                    same_revisions = ap (λ q. q.revisions) written;
                    same_approvals = ap (λ q. q.approvals) written;
                    same_lifecycles = ap (λ q. q.lifecycles) written;
                  })
                  paired in
              let (unclashed, inserted) =
                insert_snapshot-Becomes env approval_id (root_revision proposal_id r now) now d e
                  d_paired b in
              let (same, logged, kept, ps, xs) =
                record_mutation_ends create_proposal_op "proposal_collection" r.idempotency_key hash
                  new m now db e db' (inserted.idempotency_kept ∙ ap (λ q. q.idempotency) written)
                  (inserted.activity_kept ∙ ap (λ q. q.activity) written) inserted.paired third in
              inr (
                record {
                  names = new;
                  proposal = _;
                  absent = missing;
                  first = refl;
                  opened = refl;
                  points_first = refl;
                  points_hash = refl;
                  unclashed =
                      ap (λ q. exists (λ x. clashes new x.names) (pairs q)) (sym written)
                      ∙ unclashed;
                  proposals_become = ps ∙ inserted.proposals_kept ∙ ap (λ q. q.proposals) written;
                  pairs_become =
                      xs ∙ inserted.becomes ∙ ap (λ q. pairs q ++ fresh new ∷ []) written;
                },
                kept,
                logged,
              )
        ]
    where
      hash : String
      hash = canonical_json_hash env (create_request_body r)

      new : ProposalMutation
      new = identity_of env approval_id (root_revision proposal_id r now)

  supersede_pending_revision_pair_effect :
      (proposal_id : String) (revision now : ℕ) (db d : Db)
      → Paired db
      → supersede_pending_revision_pair proposal_id revision now db ≡ ok d
      → Becomes (supersede proposal_id revision pending (pairs db)) db d
  unfolding supersede_pending_revision_pair same_review
  supersede_pending_revision_pair_effect proposal_id revision now db d paired h =
      let (e, a, b) = bind-ok _ _ d h in
      (update_pair revision_conflict (at_revision proposal_id revision)
        (at_revision proposal_id revision) superseded now _ db e d (λ x. refl) (λ n t. t) paired a
        b).1

  former_ended :
      (proposal_id : String) (revision now : ℕ) (s : ReviewState) (db d : Db)
      → Paired db
      → (if same_review s pending
          then supersede_pending_revision_pair proposal_id revision now db
          else ok db)
        ≡ ok d
      → Becomes (supersede proposal_id revision s (pairs db)) db d
  former_ended proposal_id revision now s db d paired h =
      elim (Bool-cases (same_review s pending)) [
        | inl t ↦
            subst (λ r. Becomes (supersede proposal_id revision r (pairs db)) db d)
              (sym (same_review-eq s pending t))
              (supersede_pending_revision_pair_effect proposal_id revision now db d paired
                (ground arith))
        | inr f ↦
            let same : db ≡ d = ground arith in
            rw f (
              subst (Becomes (pairs db) db) same (record {
                becomes = refl;
                paired = paired;
                proposals_kept = refl;
                activity_kept = refl;
                idempotency_kept = refl;
              }))
      ]

  -- The rows of the next revision, the end of its predecessor, and the pointer to it.
  append_next_effect :
      (approval_id : String) (now : ℕ) (r : AppendProposalRevisionRequest) (p : Proposal)
      (former : RevisionLifecycle × Approval) (db d : Db)
      → Paired db
      → append_next env approval_id now r p former db ≡ ok d
      → Paired d
        × (d.idempotency ≡ db.idempotency)
        × (d.activity ≡ db.activity)
        × (d.proposals
            ≡ update r.proposal_id
                (point_to
                  (suc p.current_revision)
                  (identity_of env approval_id (next_revision r p now)).revision_hash)
                db.proposals)
        × (pairs d
            ≡ supersede r.proposal_id p.current_revision former.0.state
                (pairs db ++ fresh (identity_of env approval_id (next_revision r p now)) ∷ []))
        × (exists
              (λ x. clashes (identity_of env approval_id (next_revision r p now)) x.names)
              (pairs db)
            ≡ false)
  unfolding append_next
  append_next_effect approval_id now r p former db d paired h =
      let (e, a, first) = bind-ok _ _ d h in
      let (k, b, second) = bind-ok _ _ d first in
      let (unclashed, inserted) =
        insert_snapshot-Becomes env approval_id (next_revision r p now) now db e paired a in
      let written =
        update_current_effect revision_conflict r.proposal_id p.current_revision
          p.current_revision_hash _ k d second in
      let ended =
        former_ended r.proposal_id p.current_revision now former.0.state e k inserted.paired b in
      (
        SameRows-Paired k d
            (record {
              same_revisions = ap (λ q. q.revisions) written;
              same_approvals = ap (λ q. q.approvals) written;
              same_lifecycles = ap (λ q. q.lifecycles) written;
            })
            ended.paired,
        ap (λ q. q.idempotency) written ∙ ended.idempotency_kept ∙ inserted.idempotency_kept,
        ap (λ q. q.activity) written ∙ ended.activity_kept ∙ inserted.activity_kept,
        ap (λ q. q.proposals) written
            ∙ ap (update r.proposal_id _) (ended.proposals_kept ∙ inserted.proposals_kept),
        ap pairs written
            ∙ ended.becomes
            ∙ ap (supersede r.proposal_id p.current_revision former.0.state) inserted.becomes,
        unclashed,
      )

  pub append_proposal_revision-Appending :
      (approval_id : String) (now : ℕ) (r : AppendProposalRevisionRequest) (m : ProposalMutation)
      (db db' : Db)
      → Paired db
      → append_proposal_revision env approval_id now r db ≡ ok (m, db')
      → Outcome append_revision_op r.proposal_id r.idempotency_key
          (canonical_json_hash env (append_revision_request_body r))
          m
          now
          db
          db'
          (Appending db db')
  unfolding append_proposal_revision identity_of new_revision is_current
  append_proposal_revision-Appending approval_id now r m db db' paired h =
      elim (once-cases append_revision_op r.proposal_id r.idempotency_key hash db _ m db' h) [
        | inl replay ↦ inl replay
        | inr rest ↦
            let (valid, h1) =
              then-ok (validate_append_proposal_revision_request r) _ (m, db') rest in
            let (p, found, h2) =
              bind-ok (or_fail (lookup r.proposal_id db.proposals) proposal_not_found) _ (m, db')
                h1 in
            let (current, h3) =
              then-ok
                (fail_if
                  (not (is_current r.expected_current_revision r.expected_current_revision_hash p))
                  revision_conflict)
                _ (m, db') h2 in
            let (former, joined, h4) =
              bind-ok
                (or_fail (current_pair r.proposal_id p.current_revision p.current_revision_hash db)
                  record_corrupt)
                _ (m, db') h3 in
            let (agree, h5) =
              then-ok (fail_if (not (same_review former.0.state former.1.state)) record_corrupt) _
                (m, db') h4 in
            let (follow, h6) =
              then-ok (fail_if (not (may_follow former.0.state)) revision_conflict) _ (m, db') h5 in
            let (d, next, last) =
              bind-ok (append_next env approval_id now r p former db) _ (m, db') h6 in
            let (d_paired, i, a, ps, xs, unclashed) =
              append_next_effect approval_id now r p former db d paired next in
            let (same, logged, kept, qs, ys) =
              record_mutation_ends append_revision_op r.proposal_id r.idempotency_key hash
                (identity_of env approval_id (next_revision r p now)) m now db d db' i a d_paired
                last in
            inr (
              record {
                names = identity_of env approval_id (next_revision r p now);
                before = p;
                former = former.0.state;
                stands = or_fail-ok _ proposal_not_found p found;
                was_open = ground (arith, fail_if-ok _ revision_conflict current);
                next = refl;
                former_pair =
                    current_pair-current_in r.proposal_id p db former.0 former.1
                      (or_fail-ok _ record_corrupt former joined);
                follows = ground (arith, fail_if-ok _ revision_conflict follow);
                unclashed = unclashed;
                proposals_become = qs ∙ ps;
                pairs_become = ys ∙ xs;
              },
              kept,
              logged,
            )
      ]
    where
      hash : String
      hash = canonical_json_hash env (append_revision_request_body r)
