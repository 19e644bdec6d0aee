-- ===== src/Schema/Examples.antt =====
-- Openings of databases with concrete histories.
use ananke.Prelude.{ℕ, ◌+◌, ◌≤◌, ◌≡◌, refl, Option, none, some, [], ◌∷◌, arith, eqb, if◌then◌else◌}
use ananke.Int.{pos}
use ananke.Schema.{ok, migrations, validate_history, ordered, run_migrations}
use ananke.Schema.{
  schema_version, apply_migrations, definitions_head, scan_history, check_version, place,
}
use ananke.Schema.Version.{run_migrations-schema_version}
use ananke.Schema.Opening.{versions, validate_history_exact}
use ananke.Schema.Resuming.{Ends, run_migrations_resumes}

-- Migration 14 fails; the others count themselves.
abbrev up : ℕ → ℕ → Option ℕ
up version d = if eqb version 14 then none else some (d + 1)

validate_history_exact_example :
    (validate_history migrations (pos 2 ∷ pos 1 ∷ []) ≡ ok 2
      → (ordered (pos 2 ∷ pos 1 ∷ []) ≡ versions 1 2) × (2 ≤ 15))
    × ((ordered (pos 2 ∷ pos 1 ∷ []) ≡ versions 1 2) × (2 ≤ 15)
        → validate_history migrations (pos 2 ∷ pos 1 ∷ []) ≡ ok 2)
validate_history_exact_example = validate_history_exact (pos 2 ∷ pos 1 ∷ []) 2

run_migrations_resumes_example : Ends up 12 3 0 (run_migrations up 0 (versions 1 12))
run_migrations_resumes_example = run_migrations_resumes up 12 0 (omega arith)

-- Every migration succeeds.
abbrev always : ℕ → ℕ → Option ℕ
always version d = some (d + 1)

always-ends : (run_migrations always 0 (versions 1 12)).1 ≡ none
unfolding run_migrations apply_migrations validate_history definitions_head scan_history
    check_version ordered place
always-ends = refl

run_migrations-schema_version_example :
    schema_version (run_migrations always 0 (versions 1 12)).0.1 ≡ pos 15
run_migrations-schema_version_example =
    run_migrations-schema_version always 12 0 (omega arith) always-ends
