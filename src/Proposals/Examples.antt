-- ===== src/Proposals/Examples.antt =====
-- One proposal from its creation to its approval, through the theorems on internal/store/proposals.go.
use Prim.Native.String.{◌++◌ as ◌<>◌}
use ananke.Prelude.{
  ℕ, String, ◌/◌, ◌%◌, ◌≡◌, refl, true, false, none, some, List, [], ◌∷◌, arith, eqb, length,
  if◌then◌else◌,
}
use ananke.Proposals.Rows.{ProposalPolicy, RevisionInput, Env, Db, approved, rejected, ok, err}
use ananke.Proposals.Calls.{
  Call, Request, create, append, decide, withdraw, mutate, run_calls, empty,
}
use ananke.Prelude.{◌≢◌, map, exists, find, update_where, rows_affected, eq_iff}
use ananke.Table.{lookup, rows, insert, update}
use ananke.Store.Rows.{max_seq, next_seq}
use ananke.Store.Sequence.{Consecutive}
use ananke.Grill.Patterns.{codes, all, same_codes, is_hash, identifier, is_identifier}
use ananke.Canonical.{write_rune, write_runes, units_of, encode, compare_units, compare_utf16}
use ananke.Proposals.Json.{
  digits, format_int, append_text, append_more, append_texts, insert_member, sort_members,
  join_members, canonical_json, members,
}
use ananke.Proposals.Rows.{
  same_review, is_open, same_mutation, same_operation, approved_state, Proposal, ProposalMutation,
  idempotency_conflict,
}
use ananke.Proposals.Requests.{DecideProposalApprovalRequest, WithdrawProposalRequest}
use ananke.Proposals.Requests.{
  task_value, policy_value, revision_input_value, create_request_body, append_revision_request_body,
  decision_request_body, withdraw_proposal_request_body, canonical_json_hash, snapshot_value,
  canonical_revision_snapshot,
}
use ananke.Proposals.Validation.{
  byte_length, validate_identifier, idempotency_pattern, validate_idempotency_key, validate_text,
  validate_texts, is_fixed_policy, validate_revision_input, validate_revision_hash,
  validate_create_proposal_request, validate_append_proposal_revision_request,
  validate_decide_proposal_approval_request, validate_withdraw_proposal_request,
}
use ananke.Proposals.Identity.{
  names_revision, validate_revision_identity, identity_exists, validate_proposal_mutation_identity,
  has_key, lookup_proposal_idempotency, insert_proposal_idempotency, append_proposal_activity,
  insert_revision, clashes, insert_approval, insert_lifecycle, update_pending_lifecycle,
  update_pending_approval, is_current, update_current, current_pair,
}
use ananke.Proposals.Mutations.{
  once, record_mutation, new_revision, identity_of, insert_snapshot, insert_proposal,
  create_proposal, supersede_pending_revision_pair, append_next, append_proposal_revision,
}
use ananke.Proposals.Decisions.{
  apply_decision, decide_proposal_approval, withdraw_pair, apply_withdrawal, withdraw_proposal,
}
use ananke.Prelude.{◌↔◌}
use ananke.Proposals.Rows.{decide_approval_op, withdraw_proposal_op, open_state, withdrawn_state}
use ananke.Proposals.Decisions.{target, set_state}
use ananke.Proposals.Deciding.{CanDecide, decide_proposal_approval_exact}
use ananke.Proposals.Withdrawing.{withdraw_proposal_open}
use ananke.Proposals.Queries.{list_proposal_activity, activity_sequence, mutation_of}
use ananke.Proposals.Rows.{ProposalActivity, withdraw_proposal_op, record_corrupt}
use ananke.Table.Sort.{order_by}
use ananke.Prelude.{◌++◌}
use ananke.Proposals.Calls.{call, body_hash_of}
use ananke.Proposals.Invariant.{SameAt}
use ananke.Proposals.Invariant.Histories.{WellFormed, run_calls-WellFormed_proposals}
use ananke.Proposals.Closed.{run_calls-closed}
use ananke.Proposals.Replay.{mutate_replayed, mutate_conflicts}
use ananke.Proposals.Activity.{AllExist, list_proposal_activity_complete}

-- A hash that shows the length of what it hashes.
abbrev digit : ℕ → String
digit n =
    if eqb n 0
    then "0"
    else if eqb n 1
    then "1"
    else if eqb n 2
    then "2"
    else if eqb n 3
    then "3"
    else if eqb n 4
    then "4"
    else if eqb n 5
    then "5"
    else if eqb n 6
    then "6"
    else if eqb n 7
    then "7"
    else if eqb n 8
    then "8"
    else "9"

abbrev length_hex : ℕ → String
length_hex n =
    "000000000000000000000000000000000000000000000000000000000000"
    <> (digit (n / 1000 % 10) <> (digit (n / 100 % 10) <> (digit (n / 10 % 10) <> digit (n % 10))))

abbrev plain_env : Env
plain_env = record {
  sha256_hex = λ cs. length_hex (length cs);
  format_time = λ t. "2026-01-01T00:00:00Z";
  unmarshal = λ cs. none;
}

abbrev fixed_policy : ProposalPolicy
fixed_policy = record {
  adapter = record { access = "read_only"; kind = "omp_audit"; status = "future" };
  authority = "deterministic";
  budget = record { dimensions = "deadline" ∷ "attempt_cap" ∷ []; status = "future" };
  model_role = "advisory_only";
}

abbrev some_input : String → RevisionInput
some_input title = record {
  task = record { title = title; instructions = "Read it." };
  acceptance_criteria = "It is read." ∷ [];
  policy = fixed_policy;
}

abbrev opening : Request
opening = create "proposal_one" "approval_one" (record {
  idempotency_key = "key_one";
  project_id = "project_a";
  workstream_id = "stream_a";
  revision_input = some_input "Audit";
})

abbrev first_hash : String
first_hash = "sha256:0000000000000000000000000000000000000000000000000000000000000535"

abbrev rejection : DecideProposalApprovalRequest
rejection = record {
  idempotency_key = "key_two";
  approval_id = "approval_one";
  proposal_id = "proposal_one";
  revision = 1;
  revision_hash = first_hash;
  decision = rejected;
  reason = "Say more.";
}

abbrev rejecting : Request
rejecting = decide rejection

abbrev rewriting : Request
rewriting = append "approval_two" (record {
  idempotency_key = "key_three";
  proposal_id = "proposal_one";
  expected_current_revision = 1;
  expected_current_revision_hash = first_hash;
  revision_input = some_input "Audit again";
})

abbrev second_hash : String
second_hash = "sha256:0000000000000000000000000000000000000000000000000000000000000609"

abbrev approving : Request
approving = decide (record {
  idempotency_key = "key_two";
  approval_id = "approval_two";
  proposal_id = "proposal_one";
  revision = 2;
  revision_hash = second_hash;
  decision = approved;
  reason = "Good.";
})

abbrev withdrawal : WithdrawProposalRequest
withdrawal = record { idempotency_key = "key_five"; proposal_id = "proposal_one" }

abbrev closing : Request
closing = withdraw withdrawal

-- What a run of the mutations has to open.
evaluation : Unit {0}
unfolding lookup rows insert update exists find update_where rows_affected max_seq next_seq codes
    all same_codes is_hash identifier is_identifier write_rune write_runes units_of encode
    compare_units compare_utf16 digits format_int append_text append_more append_texts insert_member
    sort_members join_members canonical_json members same_review is_open same_mutation
    same_operation task_value policy_value revision_input_value create_request_body
    append_revision_request_body decision_request_body withdraw_proposal_request_body
    canonical_json_hash snapshot_value canonical_revision_snapshot byte_length validate_identifier
    idempotency_pattern validate_idempotency_key validate_text validate_texts is_fixed_policy
    validate_revision_input validate_revision_hash validate_create_proposal_request
    validate_append_proposal_revision_request validate_decide_proposal_approval_request
    validate_withdraw_proposal_request names_revision validate_revision_identity identity_exists
    validate_proposal_mutation_identity has_key lookup_proposal_idempotency
    insert_proposal_idempotency append_proposal_activity insert_revision clashes insert_approval
    insert_lifecycle update_pending_lifecycle update_pending_approval is_current update_current
    current_pair once record_mutation new_revision identity_of insert_snapshot insert_proposal
    create_proposal supersede_pending_revision_pair append_next append_proposal_revision
    apply_decision decide_proposal_approval withdraw_pair apply_withdrawal withdraw_proposal mutate
    call run_calls empty
evaluation = tt

abbrev approved_run : List Call
approved_run =
    record { request = opening; now = 1 }
    ∷ record { request = rejecting; now = 2 }
    ∷ record { request = rewriting; now = 3 }
    ∷ record { request = approving; now = 4 }
    ∷ []

abbrev approved_proposal : Proposal
approved_proposal = record {
  project_id = "project_a";
  workstream_id = "stream_a";
  created_at = 1;
  created_by = "local_gui_operator";
  state = approved_state;
  current_revision = 2;
  current_revision_hash = second_hash;
}

approved_run-lookup :
    lookup "proposal_one" (run_calls plain_env approved_run empty).proposals
    ≡ some approved_proposal
unfolding evaluation
approved_run-lookup = refl

run_calls-WellFormed_proposals_example : WellFormed (run_calls plain_env approved_run empty)
run_calls-WellFormed_proposals_example = run_calls-WellFormed_proposals plain_env approved_run

approved_proposal_closed : is_open approved_proposal.state ≡ false
unfolding is_open
approved_proposal_closed = refl

run_calls-closed_example :
    SameAt
      (run_calls plain_env approved_run empty)
      (run_calls plain_env
        (record { request = closing; now = 5 } ∷ [])
        (run_calls plain_env approved_run empty))
      "proposal_one"
run_calls-closed_example =
    run_calls-closed plain_env approved_run (record { request = closing; now = 5 } ∷ [])
      "proposal_one" approved_proposal approved_run-lookup approved_proposal_closed

-- The same body under the same key, with other identifiers drawn; and another body.
abbrev reopening : String → Request
reopening title = create "proposal_two" "approval_nine" (record {
  idempotency_key = "key_one";
  project_id = "project_a";
  workstream_id = "stream_a";
  revision_input = some_input title;
})

abbrev first_mutation : ProposalMutation
first_mutation = record {
  proposal_id = "proposal_one";
  revision = 1;
  revision_hash = first_hash;
  approval_id = "approval_one";
}

abbrev opened : Db
opened = run_calls plain_env (record { request = opening; now = 1 } ∷ []) empty

opening-mutate :
    mutate plain_env opening 1 (run_calls plain_env [] empty) ≡ ok (first_mutation, opened)
unfolding evaluation
opening-mutate = refl

abbrev later_run : List Call
later_run =
    record { request = rejecting; now = 2 }
    ∷ record { request = rewriting; now = 3 }
    ∷ record { request = closing; now = 4 }
    ∷ []

mutate_replayed_example :
    mutate plain_env (reopening "Audit") 9 (run_calls plain_env later_run opened)
    ≡ ok (first_mutation, run_calls plain_env later_run opened)
mutate_replayed_example =
    mutate_replayed plain_env [] later_run opening (reopening "Audit") 1 9 first_mutation opened
      opening-mutate refl refl refl refl

other_body : body_hash_of plain_env (reopening "Another audit") ≢ body_hash_of plain_env opening
unfolding evaluation
other_body e = ground (
  arith,
  eq_iff (body_hash_of plain_env (reopening "Another audit")) (body_hash_of plain_env opening),
)

mutate_conflicts_example :
    mutate plain_env (reopening "Another audit") 9 (run_calls plain_env later_run opened)
    ≡ err idempotency_conflict
mutate_conflicts_example =
    mutate_conflicts plain_env [] later_run opening (reopening "Another audit") 1 9 first_mutation
      opened opening-mutate refl refl refl other_body

proposal_one-is_identifier : is_identifier "proposal_one" ≡ true
unfolding evaluation
proposal_one-is_identifier = refl

-- A record of a revision that nobody wrote.
abbrev stray : ProposalActivity
stray = record {
  sequence = 3;
  operation = withdraw_proposal_op;
  revision = 2;
  revision_hash = "sha256:beef";
  approval_id = "approval_two";
  written_at = 9;
}

list_proposal_activity_complete_example :
    let db = run_calls plain_env approved_run empty in
    (list_proposal_activity "proposal_one" db ≡ ok (rows "proposal_one" db.activity))
    × Consecutive 1 (map activity_sequence (rows "proposal_one" db.activity))
    × AllExist "proposal_one" db (rows "proposal_one" db.activity)
    × (list_proposal_activity "proposal_one"
          (record db { activity = insert "proposal_one" stray db.activity })
        ≡ (if identity_exists (mutation_of "proposal_one" stray) db
            then ok (order_by activity_sequence (rows "proposal_one" db.activity ++ stray ∷ []))
            else err record_corrupt))
list_proposal_activity_complete_example =
    list_proposal_activity_complete plain_env approved_run "proposal_one" approved_proposal stray
      proposal_one-is_identifier approved_run-lookup

stray_missing :
    identity_exists (mutation_of "proposal_one" stray) (run_calls plain_env approved_run empty)
    ≡ false
unfolding evaluation
stray_missing = refl

abbrev open_run : List Call
open_run = record { request = opening; now = 1 } ∷ []

rejection-valid : validate_decide_proposal_approval_request rejection ≡ ok tt
unfolding evaluation
rejection-valid = refl

rejection_new :
    exists
      (has_key decide_approval_op "approval_one" "key_two")
      (run_calls plain_env open_run empty).idempotency
    ≡ false
unfolding evaluation
rejection_new = refl

decide_proposal_approval_exact_example :
    ((db' : Db) × (decide_proposal_approval plain_env 2 rejection
          (run_calls plain_env open_run empty)
        ≡ ok (target rejection, db')))
    ↔ CanDecide rejection (run_calls plain_env open_run empty)
decide_proposal_approval_exact_example =
    decide_proposal_approval_exact plain_env open_run 2 rejection rejection-valid rejection_new

abbrev open_proposal : Proposal
open_proposal = record approved_proposal {
  state = open_state;
  current_revision = 1;
  current_revision_hash = first_hash;
}

withdrawal-valid : validate_withdraw_proposal_request withdrawal ≡ ok tt
unfolding evaluation
withdrawal-valid = refl

withdrawal_new :
    exists
      (has_key withdraw_proposal_op "proposal_one" "key_five")
      (run_calls plain_env open_run empty).idempotency
    ≡ false
unfolding evaluation
withdrawal_new = refl

open_run-lookup :
    lookup "proposal_one" (run_calls plain_env open_run empty).proposals ≡ some open_proposal
unfolding evaluation
open_run-lookup = refl

open_proposal_open : is_open open_proposal.state ≡ true
unfolding is_open
open_proposal_open = refl

withdraw_proposal_open_example :
    (m : ProposalMutation) × (db' : Db) × (withdraw_proposal plain_env 2 withdrawal
        (run_calls plain_env open_run empty)
      ≡ ok (m, db'))
    × (lookup "proposal_one" db'.proposals ≡ some (set_state withdrawn_state open_proposal))
withdraw_proposal_open_example =
    withdraw_proposal_open plain_env open_run 2 withdrawal open_proposal withdrawal-valid
      withdrawal_new open_run-lookup open_proposal_open
