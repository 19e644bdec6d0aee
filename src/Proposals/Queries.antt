-- ===== src/Proposals/Queries.antt =====
-- internal/store/proposals.go: the queries.
use ananke.Prelude.{
  ltb, true, false, ℕ, String, Bool, ◌&&◌, ◌||◌, not, List, [], ◌∷◌, eqb, ◌==◌, if◌then◌else◌,
  is_some, find, keep,
}
use ananke.Grill.Patterns.{codes, is_identifier, same_codes}
use ananke.Table.{Table, lookup, rows}
use ananke.Table.Sort.{order_by}
use ananke.Proposals.Rows.{
  Revision, ProposalMutation, Proposal, RevisionLifecycle, Approval, ProposalActivity, Db, Env,
  Result, ok, ◌>>=◌, ◌>>◌, fail_if, or_fail, proposal_not_found, revision_not_found,
  approval_not_found, record_corrupt, decode_failed,
}
use ananke.Proposals.Requests.{canonical_revision_snapshot}
use ananke.Proposals.Validation.{validate_identifier}
use ananke.Proposals.Identity.{validate_revision_identity, validate_proposal_mutation_identity}

unfoldable pub get_proposal : String → Db → Result Proposal
get_proposal proposal_id db = do
  p ← or_fail (lookup proposal_id db.proposals) proposal_not_found
  validate_revision_identity proposal_id p.current_revision p.current_revision_hash db
  ok p

-- The stored text must be that of the revision that it decodes to.
unfoldable pub get_revision : Env → String → ℕ → Db → Result Revision
get_revision env proposal_id revision_number db = do
  row ←
      or_fail
        (find (λ r. r.proposal_id == proposal_id && eqb r.revision revision_number) db.revisions)
        revision_not_found
  r ← or_fail (env.unmarshal row.snapshot_json) decode_failed
  fail_if
      (not (
        same_codes (canonical_revision_snapshot env r).0 row.snapshot_json
        && (canonical_revision_snapshot env r).1 == row.revision_hash))
      record_corrupt
  ok r

unfoldable pub get_revision_lifecycle : String → ℕ → Db → Result RevisionLifecycle
get_revision_lifecycle proposal_id revision_number db = do
  l ←
      or_fail
        (find (λ l. l.proposal_id == proposal_id && eqb l.revision revision_number) db.lifecycles)
        revision_not_found
  validate_proposal_mutation_identity l.names db
  ok l

unfoldable pub get_approval : String → Db → Result Approval
get_approval approval_id db = do
  a ← or_fail (find (λ a. a.approval_id == approval_id) db.approvals) approval_not_found
  validate_proposal_mutation_identity a.names db
  ok a

-- The identity that an activity record names.
abbrev pub mutation_of : String → ProposalActivity → ProposalMutation
mutation_of proposal_id a = record {
  proposal_id = proposal_id;
  revision = a.revision;
  revision_hash = a.revision_hash;
  approval_id = a.approval_id;
}

unfoldable pub validate_activity : String → List ProposalActivity → Db → Result (Unit {0})
validate_activity proposal_id [] db = ok tt
validate_activity proposal_id (a ∷ rest) db =
    validate_proposal_mutation_identity (mutation_of proposal_id a) db
    >> validate_activity proposal_id rest db

abbrev pub activity_sequence : ProposalActivity → ℕ
activity_sequence a = a.sequence

unfoldable pub list_proposal_activity : String → Db → Result (List ProposalActivity)
list_proposal_activity proposal_id db = do
  fail_if (not (is_identifier proposal_id)) proposal_not_found
  fail_if (not (is_some (lookup proposal_id db.proposals))) proposal_not_found
  validate_activity proposal_id (order_by activity_sequence (rows proposal_id db.activity)) db
  ok (order_by activity_sequence (rows proposal_id db.activity))

-- The order of texts, by their code points.
unfoldable pub text_before : List ℕ → List ℕ → Bool
text_before [] [] = false
text_before [] (d ∷ ds) = true
text_before (c ∷ cs) [] = false
text_before (c ∷ cs) (d ∷ ds) = let rest = text_before cs ds in if eqb c d then rest else ltb c d

-- ORDER BY created_at ASC, proposal_id ASC
unfoldable pub comes_after : String × Proposal → String × Proposal → Bool
unfolding text_before
comes_after (i, p) (j, q) =
    ltb q.created_at p.created_at
    || eqb q.created_at p.created_at && text_before (codes j) (codes i)

unfoldable pub place_proposal : String × Proposal → Table Proposal → Table Proposal
unfolding comes_after
place_proposal p [] = p ∷ []
place_proposal p (q ∷ qs) =
    let rest = place_proposal p qs in if comes_after p q then q ∷ rest else p ∷ q ∷ qs

unfoldable pub sort_proposals : Table Proposal → Table Proposal
unfolding place_proposal
sort_proposals [] = []
sort_proposals (p ∷ ps) = place_proposal p (sort_proposals ps)

abbrev pub of_target : String → String → String × Proposal → Bool
of_target project_id workstream_id (_, p) =
    p.project_id == project_id && p.workstream_id == workstream_id

unfoldable pub validate_proposals : Table Proposal → Db → Result (Unit {0})
validate_proposals [] db = ok tt
validate_proposals ((proposal_id, p) ∷ ps) db =
    validate_revision_identity proposal_id p.current_revision p.current_revision_hash db
    >> validate_proposals ps db

unfoldable pub list_proposals_by_target : String → String → Db → Result (Table Proposal)
unfolding sort_proposals
list_proposals_by_target project_id workstream_id db =
    let found = sort_proposals (keep (of_target project_id workstream_id) db.proposals) in
    validate_identifier project_id
    >> (validate_identifier workstream_id >> (validate_proposals found db >> ok found))
