-- ===== src/Store/Cancel.antt =====
-- internal/store/cancellation.go: an accepted request is durable, idempotent and decisive.
use ananke.Prelude.{
  ℕ, String, ◌≡◌, ◌≢◌, refl, subst, ap, inl, inr, true, false, ◌&&◌, Option, none, some, List,
  arith, eq_refl, Option-cases, Bool-cases,
}
use ananke.Table.{lookup, lookup-update}
use ananke.Store.State.{
  State, running, cancelling, completed, same, same-eq, same_refl, cancel-Edge,
}
use ananke.Store.Result.{ok, or_fail, run_not_found}
use ananke.Store.Rows.{Run, Db}
use ananke.Store.Transitions.{request_cancellation, cancel_target, mark_cancelled}
use ananke.Store.Ops.{Call, cancel, call, step, run_calls, empty}
use ananke.Store.RunJournal.{view}
use ananke.Store.Invariant.{WellFormed, Holds}
use ananke.Store.Histories.{step-WellFormed, run_calls-WellFormed, run_calls-WellFormed_from}
use ananke.Store.Progress.{RunAdvances, run_calls-Progress}

-- Asking again for a cancellation that was accepted changes nothing and gives the same state.
pub request_cancellation_again :
    (id : String) (now later : ℕ) (db db' : Db) (s : State)
    → request_cancellation id now db ≡ ok (s, db')
    → request_cancellation id later db' ≡ ok (s, db')
unfolding request_cancellation cancel_target mark_cancelled
request_cancellation_again id now later db db' s h = elim (Option-cases (lookup id db.runs)) [
  | inl e ↦ ground arith
  | inr (r, e) ↦ ground (
    arith,
    eq_refl id,
    same-eq r.state running,
    same_refl r.state,
    same_refl cancelling,
    same_refl running,
    cancel-Edge,
    lookup-update id id (mark_cancelled (cancel_target r.state) now) db.runs,
  )
]

request_cancellation-marks :
    (id : String) (now : ℕ) (db db' : Db) (s : State)
    → request_cancellation id now db ≡ ok (s, db')
    → (r : Run) × (lookup id db'.runs ≡ some r) × (r.cancel_requested ≡ true)
unfolding request_cancellation mark_cancelled
request_cancellation-marks id now db db' s h = elim (Option-cases (lookup id db.runs)) [
  | inl e ↦ cc (h, ap (λ o. or_fail o run_not_found) e)
  | inr (r, e) ↦
      let marked = lookup-update id id (mark_cancelled (cancel_target r.state) now) db.runs in
      elim (Bool-cases (r.cancel_requested && same (cancel_target r.state) r.state)) [
        | inl again ↦ (r, ground arith, ground arith)
        | inr first ↦
            (mark_cancelled (cancel_target r.state) now r, ground (arith, marked, eq_refl id), refl)
      ]
]

step-cancel :
    (id : String) (now : ℕ) (db db' : Db) (s : State)
    → request_cancellation id now db ≡ ok (s, db')
    → step (record { id = id; op = cancel; now = now }) db ≡ db'
unfolding step call
step-cancel id now db db' s h = ground arith

still_requested :
    (r : Run) (o p : Option Run) (x : Run)
    → o ≡ some r
    → r.cancel_requested ≡ true
    → RunAdvances o p
    → p ≡ some x
    → x.cancel_requested ≡ true
still_requested r none p x e c a f = cc
still_requested r (some y) none x e c a f = absurd a
still_requested r (some y) (some z) x e c a f = ground (arith, a.cancel_kept)

not_completed :
    (r : Run)
    → r.cancel_requested ≡ true
    → (r.cancel_requested && same r.state completed) ≡ false
    → r.state ≢ completed
unfolding same
not_completed r c u e = ground arith

reachable-WellFormed :
    (before : List Call) (id : String) (now : ℕ) (db' : Db) (s : State)
    → request_cancellation id now (run_calls before empty) ≡ ok (s, db')
    → (j : String) → WellFormed (view j db')
reachable-WellFormed before id now db' s h j =
    subst (λ x. WellFormed (view j x)) (step-cancel id now _ db' s h)
      (step-WellFormed (record { id = id; op = cancel; now = now }) _ j
        (run_calls-WellFormed before id) (run_calls-WellFormed before j))

-- Once a request for cancellation is accepted, in any reachable database, the run is never completed,
-- whatever calls follow.
pub cancelled-ne-completed :
    (before later : List Call) (id : String) (now : ℕ) (db' : Db) (s : State) (r : Run)
    → request_cancellation id now (run_calls before empty) ≡ ok (s, db')
    → lookup id (run_calls later db').runs ≡ some r
    → r.state ≢ completed
unfolding view
cancelled-ne-completed before later id now db' s r h e =
    let (x, there, asked) = request_cancellation-marks id now _ db' s h in
    let progress = run_calls-Progress later db' id in
    let asked' =
      still_requested x (lookup id db'.runs) (lookup id (run_calls later db').runs) r there asked
        progress.run_advances e in
    let wf = run_calls-WellFormed_from later db' (reachable-WellFormed before id now db' s h) id in
    not_completed r asked' (subst (λ o. Holds o (view id (run_calls later db'))) e wf).uncancelled
