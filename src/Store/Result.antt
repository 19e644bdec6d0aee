-- ===== src/Store/Result.antt =====
-- The error values of internal/store, and the result of an operation that may fail.
use ananke.Prelude.Fallible.{Fallible}
pub use ananke.Prelude.Fallible.{ok, err, ◌>>=◌, ◌>>◌, fail_if, or_fail, after}
use ananke.Store.State.{State}

pub data Error : Type 0 where
  -- runs.go
  run_not_found transcript_identity_unknown transcript_identity_invalid : Error
  transcript_identity_conflict run_id_required worker_path_required : Error
  -- transitions.go
  invalid_transition terminal_requires_outbox transition_not_terminal no_process_identity : Error
  terminal_transcript_incomplete terminal_transcript_identity : Error
  -- cancellation.go
  run_terminal : State → Error
  cancellation_requested : Error
  -- events.go
  transcript_final_size_changed transcript_offset_beyond_end negative_size : Error
  -- outbox.go
  outbox_not_found diagnostic_required : Error
  -- A key or a foreign key of the schema refuses the row.
  constraint : Error

abbrev pub Result {ℓ} : Type ℓ → Type ℓ
Result A = Fallible Error A
