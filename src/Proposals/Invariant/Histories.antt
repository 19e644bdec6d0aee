-- ===== src/Proposals/Invariant/Histories.antt =====
-- What holds of the proposals after any history of calls of internal/store/proposals.go.
use ananke.Prelude.{String, refl, subst, sym, inl, inr, List, [], ◌∷◌}
use ananke.Table.{lookup}
use ananke.Proposals.Rows.{Db, Env, after}
use ananke.Proposals.Pairs.{Paired}
use ananke.Proposals.Changes.{Change}
use ananke.Proposals.Calls.{Call, call, run_calls, empty}
use ananke.Proposals.Outcomes.{call-Outcome}
use ananke.Proposals.Invariant.{InStep}
use ananke.Proposals.Invariant.Decisions.{Change-InStep}

pub record WellFormed (db : Db) : Type 0 where
  pub paired : Paired db
  pub in_step : (id : String) → InStep db id

pub Change-WellFormed : (db db' : Db) → Change db db' → Paired db' → WellFormed db → WellFormed db'
Change-WellFormed db db' change paired w = record {
  paired = paired;
  in_step = λ id. Change-InStep db db' change id (w.in_step id);
}

pub empty-WellFormed : WellFormed empty
unfolding empty lookup
empty-WellFormed = record {
  paired = record { approvals_match = refl; revisions_match = refl };
  in_step = λ id. refl;
}

module _ (env : Env) where
  pub call-WellFormed : (c : Call) (db : Db) → WellFormed db → WellFormed (after db (call env c db))
  call-WellFormed c db w = elim (call-Outcome env c db w.paired) [
    | inl same ↦ subst WellFormed (sym same) w
    | inr (m, change, paired, logged) ↦
        Change-WellFormed db (after db (call env c db)) change paired w
  ]

  pub run_calls-WellFormed_from :
      (cs : List Call) (db : Db) → WellFormed db → WellFormed (run_calls env cs db)
  unfolding run_calls
  run_calls-WellFormed_from [] db w = w
  run_calls-WellFormed_from (c ∷ cs) db w =
      run_calls-WellFormed_from cs (after db (call env c db)) (call-WellFormed c db w)

  -- After any history of calls on the empty database, the approvals are exactly those that the
  -- lifecycles name, in the same states, and there is a revision row for each; and the pairs of each
  -- proposal are numbered from 1 without a gap, each rejected or superseded but the last, which is the
  -- proposal's current revision, with its hash: pending or rejected if the proposal is open, approved if
  -- it is approved, withdrawn or rejected if it is withdrawn. An id without a proposal has no pairs.
  pub run_calls-WellFormed_proposals : (cs : List Call) → WellFormed (run_calls env cs empty)
  run_calls-WellFormed_proposals cs = run_calls-WellFormed_from cs empty empty-WellFormed
