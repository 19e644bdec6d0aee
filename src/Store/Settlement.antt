-- ===== src/Store/Settlement.antt =====
-- internal/store/outbox.go: a finalization is settled once.
use ananke.Prelude.{
  ℕ, String, ◌≡◌, refl, inl, inr, false, Option, none, some, List, arith, eq_refl, sym, ◌∙◌, ◌≢◌,
  Option-cases,
}
use ananke.Table.{lookup, lookup-update}
use ananke.Store.Trim.{trim_space}
use ananke.Store.Result.{Result, ok}
use ananke.Store.Rows.{Db, OutboxRow, acknowledged, abandoned}
use ananke.Store.Outbox.{acknowledge_outbox, abandon_outbox, has_pending, is_pending, settle}
use ananke.Store.Ops.{Call, run_calls}
use ananke.Store.RunJournal.{view}
use ananke.Store.Progress.{OutboxAdvances, run_calls-Progress}

-- Acknowledge, or abandon with a diagnostic.
abbrev pub settle_call : String → Option String → ℕ → Db → Result Db
settle_call id none now db = acknowledge_outbox id now db
settle_call id (some reason) now db = abandon_outbox id reason now db

settled :
    (id : String) (how : Option String) (now : ℕ) (db db' : Db)
    → settle_call id how now db ≡ ok db'
    → (row : OutboxRow) × (lookup id db'.outbox ≡ some row) × (is_pending row.status ≡ false)
unfolding acknowledge_outbox abandon_outbox settle has_pending
settled id none now db db' h = elim (Option-cases (lookup id db.outbox)) [
  | inl e ↦ ground arith
  | inr (row, e) ↦ (
    settle acknowledged none now row,
    ground (arith, eq_refl id, lookup-update id id (settle acknowledged none now) db.outbox),
    refl,
  )
]
settled id (some d) now db db' h = elim (Option-cases (lookup id db.outbox)) [
  | inl e ↦ ground arith
  | inr (row, e) ↦ (
    settle abandoned (some (trim_space d)) now row,
    ground (
      arith,
      eq_refl id,
      lookup-update id id (settle abandoned (some (trim_space d)) now) db.outbox,
    ),
    refl,
  )
]

kept :
    (o p : Option OutboxRow) (row : OutboxRow)
    → OutboxAdvances o p
    → o ≡ some row
    → is_pending row.status ≡ false
    → p ≡ some row
kept none p row a e f = cc
kept (some o) none row a e f = absurd a
kept (some o) (some p) row a e f = ground (arith, a.1)

unpending :
    (o : Option OutboxRow) (row : OutboxRow)
    → o ≡ some row
    → is_pending row.status ≡ false
    → has_pending o ≡ false
unfolding has_pending
unpending o row e f = ground arith

refused_again :
    (id : String) (how : Option String) (now : ℕ) (db db' : Db)
    → has_pending (lookup id db.outbox) ≡ false
    → settle_call id how now db ≢ ok db'
unfolding acknowledge_outbox abandon_outbox
refused_again id none now db db' f e = ground arith
refused_again id (some d) now db db' f e = ground arith

-- Once a run's finalization is acknowledged or abandoned, its outbox row stays as it is whatever
-- calls follow, and every later attempt to acknowledge or to abandon it fails.
pub settled_once :
    (id : String) (how again : Option String) (now later : ℕ) (cs : List Call) (db db' : Db)
    → settle_call id how now db ≡ ok db'
    → (lookup id (run_calls cs db').outbox ≡ lookup id db'.outbox)
      × ((db'' : Db) → settle_call id again later (run_calls cs db') ≢ ok db'')
unfolding view
settled_once id how again now later cs db db' h =
    let (row, there, done) = settled id how now db db' h in
    let still = kept _ _ row (run_calls-Progress cs db' id).outbox_advances there done in
    (still ∙ sym there, λ db''. refused_again id again later _ db'' (unpending _ row still done))
