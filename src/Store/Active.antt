-- ===== src/Store/Active.antt =====
-- internal/store/queries.go: ListActiveRuns finds exactly the runs that recovery still owes work.
use ananke.Prelude.{
  ℕ, String, Bool, ◌≡◌, ◌∙◌, refl, ap, subst, true, false, not, ◌||◌, Option, none, some, List, [],
  ◌∷◌, arith, inl, inr, Option-cases, exists, if◌then◌else◌,
}
use ananke.Table.{Table, lookup}
use ananke.Table.Unique.{
  Unique, Unique-insert, Unique-update, Unique-keep, lookup-keep, lookup-order_by, filtered,
}
use ananke.Store.State.{
  State, created, running, cancelling, cleanup_required, recovery_unknown, completed, failed,
  cancelled, same, is_terminal,
}
use ananke.Store.Result.{Result, after}
use ananke.Store.Rows.{Run, OutboxRow, Db}
use ananke.Store.Transitions.{
  TransitionCommit, transition, commit_terminal, commit_no_process_failure, commit_transition,
  insert_outbox, request_cancellation, set_state, clear_transcript, mark_cancelled, cancel_target,
  plain,
}
use ananke.Store.Runs.{
  create_project, create_workstream, create_run, new_run, set_transcript_identity, set_identity,
  set_run_supervisor, set_pids,
}
use ananke.Store.Events.{
  append_event, advance_both, seal_transcript, set_final_size, advance_transcript_consumed, advance,
}
use ananke.Store.Outbox.{
  acknowledge_outbox, abandon_outbox, has_pending, is_pending, is_active, list_active_runs,
}
use ananke.Store.Ops.{
  Op, found_project, found_workstream, create, move, finish, fail_unstarted, cancel,
  publish_identity, publish_pids, append, seal, consume, acknowledge, abandon, Call, call, step,
  run_calls, empty,
}
use ananke.Store.RunJournal.{RunJournal, view}
use ananke.Store.Invariant.{Holds, OutboxFits}
use ananke.Store.Histories.{run_calls-WellFormed}

module _ (id : String) (now : ℕ) (db : Db) (u : Unique db.runs) where
  abbrev runs_after : Result Db → Table Run
  runs_after m = (after db m).runs

  commit-Unique :
      (to : State) (reason : String) (c : TransitionCommit)
      → Unique (runs_after (commit_transition id to reason c now db))
  unfolding commit_transition insert_outbox
  commit-Unique to reason c =
      ground (arith, Unique-update id (λ row. set_state to now (clear_transcript c row)) db.runs u)

  call-Unique : (op : Op) → Unique (runs_after (call id op now db))
  unfolding call create_project create_workstream create_run transition commit_terminal
      commit_no_process_failure request_cancellation set_transcript_identity set_run_supervisor
      append_event seal_transcript advance_transcript_consumed acknowledge_outbox abandon_outbox
  call-Unique (found_project name root) = ground arith
  call-Unique (found_workstream project name) = ground arith
  call-Unique (create project workstream spec) =
      ground (arith, Unique-insert id (new_run project workstream spec now) db.runs)
  call-Unique (move to reason) = ground (arith, commit-Unique to reason plain)
  call-Unique (finish to reason address) =
      ground
        (arith, commit-Unique to reason (record address { terminal = true; no_process = false }))
  call-Unique (fail_unstarted reason) =
      commit-Unique failed reason (record plain { terminal = true; no_process = true })
  call-Unique cancel = elim (Option-cases (lookup id db.runs)) [
    | inl e ↦ ground arith
    | inr (r, e) ↦
        ground (arith, Unique-update id (mark_cancelled (cancel_target r.state) now) db.runs u)
  ]
  call-Unique (publish_identity identity) =
      ground (arith, Unique-update id (set_identity identity now) db.runs u)
  call-Unique (publish_pids s g w) = ground (arith, Unique-update id (set_pids s g w now) db.runs u)
  call-Unique (append type payload offset) =
      ground (arith, Unique-update id (advance_both offset now) db.runs u)
  call-Unique (seal size) = ground (arith, Unique-update id (set_final_size size now) db.runs u)
  call-Unique (consume offset) = ground (arith, Unique-update id (advance offset now) db.runs u)
  call-Unique acknowledge = ground arith
  call-Unique (abandon reason) = ground arith

run_calls-Unique_from : (cs : List Call) (db : Db) → Unique db.runs → Unique (run_calls cs db).runs
unfolding run_calls step
run_calls-Unique_from [] db u = u
run_calls-Unique_from (c ∷ cs) db u = run_calls-Unique_from cs _ (call-Unique c.id c.now db u c.op)

-- The states that the query lists are those for which IsTerminal holds.
literals-is_terminal :
    (s : State) → exists (same s) (completed ∷ failed ∷ cancelled ∷ []) ≡ is_terminal s
unfolding exists same is_terminal
literals-is_terminal completed = refl
literals-is_terminal failed = refl
literals-is_terminal cancelled = refl
literals-is_terminal created = refl
literals-is_terminal running = refl
literals-is_terminal cancelling = refl
literals-is_terminal cleanup_required = refl
literals-is_terminal recovery_unknown = refl

-- The finalization of the run was acknowledged or abandoned.
unfoldable pub is_settled : Option OutboxRow → Bool
is_settled none = false
is_settled (some row) = not (is_pending row.status)

is_active-is_terminal :
    (db : Db) (id : String) (r : Run)
    → is_active db (id, r) ≡ (not (is_terminal r.state) || has_pending (lookup id db.outbox))
unfolding is_active
is_active-is_terminal db id r =
    ap (λ b. not b || has_pending (lookup id db.outbox)) (literals-is_terminal r.state)

filtered_same :
    (p q : Run → Bool) (found : Option Run)
    → ((r : Run) → p r ≡ q r)
    → filtered p found ≡ filtered q found
filtered_same p q none same_test = refl
filtered_same p q (some r) same_test = rw (same_test r) refl

filtered_settled :
    (found : Option Run) (o : Option OutboxRow) (j : RunJournal)
    → Holds found j
    → j.outbox ≡ o
    → filtered (λ r. not (is_terminal r.state) || has_pending o) found
      ≡ (if is_settled o then none else found)
unfolding is_settled has_pending
filtered_settled none o j h e = ground arith
filtered_settled (some r) none j h e =
    let fits : is_terminal r.state ≡ false = subst (λ o. OutboxFits o r.state) e h.outbox_fits in
    rw fits refl
filtered_settled (some r) (some row) j h e =
    let fits = subst (λ o. OutboxFits o r.state) e h.outbox_fits in ground (arith, fits.0)

-- In any reachable database the active runs are exactly the recorded runs that are not terminal, by
-- IsTerminal, or whose outbox row is still pending: such a run is found in the list under its id, with
-- its row, and no other run is in the list. They are also exactly the recorded runs whose finalization
-- is not settled: a run is left out only once its outbox row is acknowledged or abandoned.
pub list_active_runs_exact :
    (cs : List Call) (id : String)
    → let db = run_calls cs empty in
      (lookup id (list_active_runs db)
        ≡ filtered
            (λ r. not (is_terminal r.state) || has_pending (lookup id db.outbox))
            (lookup id db.runs))
      × (lookup id (list_active_runs db)
          ≡ (if is_settled (lookup id db.outbox) then none else lookup id db.runs))
unfolding list_active_runs empty view
list_active_runs_exact cs id =
    let db = run_calls cs empty in
    let u : Unique db.runs = run_calls-Unique_from cs empty tt in
    let listed : lookup id (list_active_runs db)
        ≡ filtered (λ r. not (is_terminal r.state) || has_pending (lookup id db.outbox))
            (lookup id db.runs) =
      lookup-order_by (λ row. row.1.created_at) _ id (Unique-keep (is_active db) db.runs u)
      ∙ lookup-keep (is_active db) db.runs id u
      ∙ filtered_same (λ r. is_active db (id, r)) _ (lookup id db.runs)
          (is_active-is_terminal db id) in
    (
      listed,
      listed
          ∙ filtered_settled (lookup id db.runs) (lookup id db.outbox) (view id db)
              (run_calls-WellFormed cs id) refl,
    )
