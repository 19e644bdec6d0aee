-- ===== src/Store/Outbox.antt =====
-- internal/store/outbox.go, and the queries of queries.go and transitions.go.
use ananke.Prelude.{
  ℕ, String, Bool, true, false, ◌||◌, not, Option, none, some, List, [], ◌∷◌, exists, ◌==◌,
  if◌then◌else◌, keep,
}
use ananke.Table.{Table, lookup, rows, update}
use ananke.Store.Trim.{trim_space}
use ananke.Store.State.{same, completed, failed, cancelled}
use ananke.Table.Sort.{order_by}
use ananke.Store.Result.{
  Result, ok, err, ◌>>◌, fail_if, or_fail, outbox_not_found, diagnostic_required,
}
use ananke.Store.Rows.{
  Run, OutboxRow, TransitionRecord, Db, Acknowledged, pending, acknowledged, abandoned,
}

abbrev pub is_pending : Acknowledged → Bool
is_pending pending = true
is_pending _ = false

-- acknowledged = 0
unfoldable pub has_pending : Option OutboxRow → Bool
has_pending none = false
has_pending (some row) = is_pending row.status

unfoldable pub settle : Acknowledged → Option String → ℕ → OutboxRow → OutboxRow
settle status none now row = record row { status = status; acknowledged_at = some now }
settle status (some reason) now row = record row {
  status = status;
  acknowledged_at = some now;
  diagnostic = reason;
}

unfoldable pub acknowledge_outbox : String → ℕ → Db → Result Db
acknowledge_outbox run_id now db =
    if has_pending (lookup run_id db.outbox)
    then ok (record db { outbox = update run_id (settle acknowledged none now) db.outbox })
    else err outbox_not_found

unfoldable pub abandon_outbox : String → String → ℕ → Db → Result Db
abandon_outbox run_id reason now db = do
  let trimmed = trim_space reason
  fail_if (trimmed == "") diagnostic_required
  if has_pending (lookup run_id db.outbox)
      then ok (record db { outbox = update run_id (settle abandoned (some trimmed) now) db.outbox })
      else err outbox_not_found

unfoldable pub get_outbox : String → Db → Result OutboxRow
get_outbox run_id db = or_fail (lookup run_id db.outbox) outbox_not_found

unfoldable pub list_pending_outbox : Db → Table OutboxRow
list_pending_outbox db =
    order_by (λ row. row.1.created_at) (keep (λ row. is_pending row.1.status) db.outbox)

-- NOT IN the literals that the query lists, or with a pending row in the outbox.
unfoldable pub is_active : Db → String × Run → Bool
unfolding has_pending same exists
is_active db (id, r) =
    not (exists (same r.state) (completed ∷ failed ∷ cancelled ∷ []))
    || has_pending (lookup id db.outbox)

unfoldable pub list_active_runs : Db → Table Run
unfolding is_active
list_active_runs db = order_by (λ row. row.1.created_at) (keep (is_active db) db.runs)

unfoldable pub list_runs_by_project : String → Db → Table Run
list_runs_by_project project_id db =
    order_by (λ row. row.1.created_at) (keep (λ row. row.1.project_id == project_id) db.runs)

unfoldable pub transitions : String → Db → List TransitionRecord
transitions run_id db = order_by (λ t. t.seq) (rows run_id db.transitions)
