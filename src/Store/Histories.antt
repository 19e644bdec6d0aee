-- ===== src/Store/Histories.antt =====
-- What holds of every run after any history of calls of internal/store.
use ananke.Prelude.{
  ℕ, String, refl, sym, subst, Bool, true, false, List, [], ◌∷◌, ◌==◌, if◌then◌else◌,
}
use ananke.Table.{lookup, rows}
use ananke.Store.Rows.{Db}
use ananke.Store.Ops.{Op, Call, step, run_calls, empty}
use ananke.Store.RunJournal.{RunJournal, view, next, parents_exist}
use ananke.Store.Refinement.{view-step}
use ananke.Store.Invariant.{WellFormed}
use ananke.Store.Invariant.Steps.{apply-WellFormed}

next-WellFormed :
    (id : String) (op : Op) (now : ℕ) (parents : Bool) (j : RunJournal)
    → WellFormed j
    → WellFormed (next id op now parents j)
unfolding next
next-WellFormed id op now parents j h = apply-WellFormed parents id now j op h

pub step-WellFormed :
    (c : Call) (db : Db) (j : String)
    → WellFormed (view c.id db)
    → WellFormed (view j db)
    → WellFormed (view j (step c db))
step-WellFormed c db j own other = subst WellFormed (sym (view-step c db j)) (pick (c.id == j))
  where
    pick :
        (b : Bool)
        → WellFormed
            (if b then next c.id c.op c.now (parents_exist c.op db) (view c.id db) else view j db)
    pick true = next-WellFormed c.id c.op c.now _ (view c.id db) own
    pick false = other

pub run_calls-WellFormed_from :
    (cs : List Call) (db : Db)
    → ((id : String) → WellFormed (view id db))
    → (id : String) → WellFormed (view id (run_calls cs db))
unfolding run_calls
run_calls-WellFormed_from [] db h id = h id
run_calls-WellFormed_from (c ∷ cs) db h id =
    run_calls-WellFormed_from cs (step c db) (λ j. step-WellFormed c db j (h c.id) (h j)) id

-- After any history of calls on the empty database, in any interleaving of runs, what is recorded
-- of each run is well formed: its transitions are numbered from 0 without a gap and lead along the
-- edges of the state machine from created to its state; an outbox row is there exactly if that
-- state is terminal, and names it; a run whose cancellation was requested is not completed; a
-- terminal run whose transcript was required has consumed exactly its sealed size; and its events
-- are numbered from 1 without a gap. A run that is not there has left nothing.
pub run_calls-WellFormed :
    (cs : List Call) (id : String) → WellFormed (view id (run_calls cs empty))
unfolding view empty lookup rows
run_calls-WellFormed cs id = run_calls-WellFormed_from cs empty (λ j. (refl, refl, refl)) id
