-- ===== src/Store/Events.antt =====
-- internal/store/events.go: the transcript's events and the handoff of its bytes.
use ananke.Prelude.{
  ℕ, String, Bool, ◌||◌, not, none, some, List, map, ◌==◌, ltb, if◌then◌else◌, keep,
}
use ananke.Int.{ℤ, pos, ltb_ℤ, leb_ℤ, eqb_ℤ, max_ℤ}
use ananke.Table.{lookup, rows, insert, update}
use ananke.Store.Result.{
  Result, ok, err, ◌>>=◌, ◌>>◌, fail_if, or_fail, run_not_found, run_id_required, constraint,
  transcript_final_size_changed, transcript_offset_beyond_end, negative_size,
}
use ananke.Store.Rows.{Run, Event, Db, next_seq, max_seq}
use ananke.Table.Sort.{order_by}

-- transcript_final_size < 0 OR offset <= transcript_final_size
unfoldable pub within : ℤ → Run → Bool
within offset r = ltb_ℤ r.transcript_final_size (pos 0) || leb_ℤ offset r.transcript_final_size

unfoldable pub advance_both : ℤ → ℕ → Run → Run
advance_both offset now r = record r {
  committed_offset = max_ℤ r.committed_offset offset;
  transcript_consumed_offset = max_ℤ r.transcript_consumed_offset offset;
  updated_at = now;
}

unfoldable pub event_row : List Event → String → List ℕ → ℤ → ℕ → Event
event_row journal type payload offset now = record {
  seq = next_seq (map (λ e. e.seq) journal);
  type = type;
  payload = payload;
  transcript_offset = offset;
  written_at = now;
}

-- A foreign key refuses the event of a run that is not there.
unfoldable pub append_event : String → String → List ℕ → ℤ → ℕ → Db → Result (Event × Db)
append_event run_id type payload offset now db = do
  fail_if (run_id == "") run_id_required
  r ← or_fail (lookup run_id db.runs) constraint
  let e = event_row (rows run_id db.events) type payload offset now
  fail_if (not (within offset r)) transcript_offset_beyond_end
  ok (
    e,
    (record db {
      events = insert run_id e db.events;
      runs = update run_id (advance_both offset now) db.runs;
    }),
  )

unfoldable pub committed_offset : String → Db → Result ℤ
committed_offset run_id db = do
  r ← or_fail (lookup run_id db.runs) run_not_found
  ok r.committed_offset

pub record TranscriptProgress : Type 0 where
  pub required : Bool
  pub consumed_offset : ℤ
  pub final_size : ℤ

unfoldable pub get_transcript_progress : String → Db → Result TranscriptProgress
get_transcript_progress run_id db = do
  r ← or_fail (lookup run_id db.runs) run_not_found
  ok (record {
    required = r.transcript_required;
    consumed_offset = r.transcript_consumed_offset;
    final_size = r.transcript_final_size;
  })

unfoldable pub set_final_size : ℤ → ℕ → Run → Run
set_final_size size now r = record r { transcript_final_size = size; updated_at = now }

unfoldable pub seal_transcript : String → ℤ → ℕ → Db → Result Db
seal_transcript run_id size now db = do
  fail_if (ltb_ℤ size (pos 0)) negative_size
  r ← or_fail (lookup run_id db.runs) run_not_found
  if leb_ℤ (pos 0) r.transcript_final_size
      then (if not (eqb_ℤ r.transcript_final_size size)
          then err transcript_final_size_changed
          else ok db)
      else ok (record db { runs = update run_id (set_final_size size now) db.runs })

unfoldable pub advance : ℤ → ℕ → Run → Run
advance offset now r = record r {
  transcript_consumed_offset = max_ℤ r.transcript_consumed_offset offset;
  updated_at = now;
}

-- The UPDATE affects no row if the run is not there or the offset lies past the sealed end.
unfoldable pub advance_transcript_consumed : String → ℤ → ℕ → Db → Result Db
advance_transcript_consumed run_id offset now db = do
  fail_if (ltb_ℤ offset (pos 0)) negative_size
  r ← or_fail (lookup run_id db.runs) run_not_found
  if within offset r
      then ok (record db { runs = update run_id (advance offset now) db.runs })
      else err transcript_offset_beyond_end

-- WHERE run_id = ? AND seq > ? ORDER BY seq
unfoldable pub list_events : String → ℕ → Db → List Event
list_events run_id after_seq db =
    order_by (λ e. e.seq) (keep (λ e. ltb after_seq e.seq) (rows run_id db.events))

unfoldable pub highest_event_seq : String → Db → ℕ
highest_event_seq run_id db = elim (max_seq (map (λ e. e.seq) (rows run_id db.events))) [
  | none ↦ 0
  | some n ↦ n
]
