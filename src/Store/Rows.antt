-- ===== src/Store/Rows.antt =====
-- The rows of internal/store/store.go's tables for runs. The key column (`id` or `run_id`) is the
-- key of the table. A timestamp is a number: the time at which the operation reads the clock.
use ananke.Prelude.{
  ℕ, suc, String, Bool, ◌||◌, ◌&&◌, Option, none, some, List, [], ◌∷◌, leb, if◌then◌else◌,
}
use ananke.Int.{ℤ, pos, leb_ℤ, eqb_ℤ}
use ananke.Table.{Table}
use ananke.Store.State.{State}
use ananke.Store.Result.{Result, ok, err, transcript_identity_unknown, transcript_identity_invalid}

pub record TranscriptFileIdentity : Type 0 where
  pub device : ℤ
  pub inode : ℤ

abbrev pub no_identity : TranscriptFileIdentity
no_identity = record { device = pos 0; inode = pos 0 }

abbrev pub is_zero : ℤ → Bool
is_zero n = eqb_ℤ n (pos 0)

unfoldable pub validate : TranscriptFileIdentity → Result (Unit {0})
validate id =
    if is_zero id.device && is_zero id.inode
    then err transcript_identity_unknown
    else if leb_ℤ id.device (pos 0) || leb_ℤ id.inode (pos 0)
    then err transcript_identity_invalid
    else ok tt

abbrev pub same_identity : TranscriptFileIdentity → TranscriptFileIdentity → Bool
same_identity a b = eqb_ℤ a.device b.device && eqb_ℤ a.inode b.inode

pub record RunSpec : Type 0 where
  pub worker_path : String
  pub worker_args : List String
  pub worker_env : List String
  pub transcript_path : String
  pub socket_path : String
  pub token : String
  pub identity_path : String
  pub transcript_required : Bool

pub record Run : Type 0 where
  pub project_id : String
  pub workstream_id : String
  pub state : State
  pub spec : RunSpec
  pub open spec use *
  pub transcript_identity : TranscriptFileIdentity
  pub supervisor_pid : ℤ
  pub supervisor_pgid : ℤ
  pub worker_pid : ℤ
  pub committed_offset : ℤ
  pub cancel_requested : Bool
  pub transcript_consumed_offset : ℤ
  pub transcript_final_size : ℤ
  pub created_at : ℕ
  pub updated_at : ℕ

-- `none` is the empty from_state of the initial transition.
pub record TransitionRecord : Type 0 where
  pub seq : ℕ
  pub from_state : Option State
  pub to_state : State
  pub reason : String
  pub written_at : ℕ

pub data Acknowledged : Type 0 where
  pending acknowledged abandoned : Acknowledged

pub record OutboxRow : Type 0 where
  pub terminal_state : State
  pub supervisor_pid : ℤ
  pub supervisor_pgid : ℤ
  pub socket_path : String
  pub token : String
  pub status : Acknowledged
  pub diagnostic : String
  pub created_at : ℕ
  pub acknowledged_at : Option ℕ

pub record Event : Type 0 where
  pub seq : ℕ
  pub type : String
  pub payload : List ℕ
  pub transcript_offset : ℤ
  pub written_at : ℕ

pub record Workstream : Type 0 where
  pub project : String
  pub name : String
  pub created_at : ℕ

pub record Project : Type 0 where
  pub name : String
  pub root : String
  pub created_at : ℕ

pub record Db : Type 0 where
  pub projects : Table Project
  pub workstreams : Table Workstream
  pub runs : Table Run
  pub transitions : Table TransitionRecord
  pub outbox : Table OutboxRow
  pub events : Table Event

-- SELECT MAX(seq), and the sequence number after it, the same in events.go, transitions.go and
-- cancellation.go.
unfoldable pub max_seq : List ℕ → Option ℕ
max_seq [] = none
max_seq (n ∷ ns) = elim (max_seq ns) [ none ↦ some n | some m ↦ some (if leb n m then m else n) ]

unfoldable pub next_seq : List ℕ → ℕ
unfolding max_seq
next_seq ns = elim (max_seq ns) [ none ↦ 1 | some m ↦ suc m ]
