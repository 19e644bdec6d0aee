-- ===== src/Proposals/Rows.antt =====
-- The records and the errors of internal/store/proposals.go, and the tables of its schema in store.go.
-- A timestamp is a number: the time at which the operation reads the clock.
use ananke.Prelude.{ℕ, String, Bool, true, false, ◌&&◌, Option, List, ◌==◌, eqb}
use ananke.Prelude.Fallible.{Fallible}
pub use ananke.Prelude.Fallible.{ok, err, ◌>>=◌, ◌>>◌, fail_if, or_fail, after, Fallible-cases}
use ananke.Table.{Table}

pub data ProposalState : Type 0 where
  open_state approved_state withdrawn_state : ProposalState

unfoldable pub is_open : ProposalState → Bool
is_open open_state = true
is_open _ = false

-- RevisionLifecycleState and ApprovalState have the same values, and the code converts between them.
pub data ReviewState : Type 0 where
  pending approved rejected superseded withdrawn : ReviewState

-- s == t
unfoldable pub same_review : ReviewState → ReviewState → Bool
same_review pending pending = true
same_review approved approved = true
same_review rejected rejected = true
same_review superseded superseded = true
same_review withdrawn withdrawn = true
same_review _ _ = false

pub record ProposalTask : Type 0 where
  pub title : String
  pub instructions : String

pub record ProposalAdapterPolicy : Type 0 where
  pub access : String
  pub kind : String
  pub status : String

pub record ProposalBudgetPolicy : Type 0 where
  pub dimensions : List String
  pub status : String

pub record ProposalPolicy : Type 0 where
  pub adapter : ProposalAdapterPolicy
  pub authority : String
  pub budget : ProposalBudgetPolicy
  pub model_role : String

pub record RevisionInput : Type 0 where
  pub task : ProposalTask
  pub acceptance_criteria : List String
  pub policy : ProposalPolicy

pub record Revision : Type 0 where
  pub schema_version : String
  pub proposal_id : String
  pub revision : ℕ
  pub parent_revision : Option ℕ
  pub parent_revision_hash : Option String
  pub created_at : ℕ
  pub created_by : String
  pub idempotency_key : String
  pub input : RevisionInput
  pub open input use *

-- What a mutation returns, and what names the rows of a revision in the other tables.
pub record ProposalMutation : Type 0 where
  pub proposal_id : String
  pub revision : ℕ
  pub revision_hash : String
  pub approval_id : String

unfoldable pub same_mutation : ProposalMutation → ProposalMutation → Bool
same_mutation a b =
    a.proposal_id == b.proposal_id
    && eqb a.revision b.revision
    && a.revision_hash == b.revision_hash
    && a.approval_id == b.approval_id

-- The key of task_proposals is the key of the table.
pub record Proposal : Type 0 where
  pub project_id : String
  pub workstream_id : String
  pub created_at : ℕ
  pub created_by : String
  pub state : ProposalState
  pub current_revision : ℕ
  pub current_revision_hash : String

pub record RevisionRow : Type 0 where
  pub proposal_id : String
  pub revision : ℕ
  pub revision_hash : String
  pub snapshot_json : List ℕ

pub record RevisionLifecycle : Type 0 where
  pub names : ProposalMutation
  pub open names use *
  pub state : ReviewState
  pub created_at : ℕ
  pub updated_at : ℕ
  pub version : ℕ

pub record Approval : Type 0 where
  pub names : ProposalMutation
  pub open names use *
  pub created_at : ℕ
  pub created_by : String
  pub state : ReviewState
  pub decided_at : Option ℕ
  pub decided_by : Option String
  pub decision_idempotency_key : Option String
  pub reason : Option String

pub data Operation : Type 0 where
  create_proposal_op append_revision_op decide_approval_op withdraw_proposal_op : Operation

unfoldable pub same_operation : Operation → Operation → Bool
same_operation create_proposal_op create_proposal_op = true
same_operation append_revision_op append_revision_op = true
same_operation decide_approval_op decide_approval_op = true
same_operation withdraw_proposal_op withdraw_proposal_op = true
same_operation _ _ = false

-- The proposal's id is the key of the table.
pub record ProposalActivity : Type 0 where
  pub sequence : ℕ
  pub operation : Operation
  pub revision : ℕ
  pub revision_hash : String
  pub approval_id : String
  pub written_at : ℕ

-- The actor is always the local operator.
pub record IdempotencyRow : Type 0 where
  pub operation : Operation
  pub resource : String
  pub idempotency_key : String
  pub request_body_hash : String
  pub result : ProposalMutation

pub record Db : Type 0 where
  pub proposals : Table Proposal
  pub revisions : List RevisionRow
  pub approvals : List Approval
  pub lifecycles : List RevisionLifecycle
  pub activity : Table ProposalActivity
  pub idempotency : List IdempotencyRow

-- What the code takes from the standard library: SHA-256 in hexadecimal, the format of a time, and the
-- decoding of a stored snapshot.
pub record Env : Type 0 where
  pub sha256_hex : List ℕ → String
  pub format_time : ℕ → String
  pub unmarshal : List ℕ → Option Revision

pub data Error : Type 0 where
  proposal_not_found revision_not_found approval_not_found proposal_conflict : Error
  revision_conflict approval_conflict idempotency_conflict record_corrupt : Error
  -- Validation.
  bad_identifier bad_idempotency_key bad_text bad_criteria_count bad_policy bad_revision : Error
  bad_hash bad_decision : Error
  -- json.Unmarshal refuses a snapshot.
  decode_failed : Error
  -- A key of the schema refuses the row.
  constraint : Error

abbrev pub Result {ℓ} : Type ℓ → Type ℓ
Result A = Fallible Error A
