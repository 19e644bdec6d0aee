-- ===== src/Schema/Version.antt =====
-- The version that SchemaVersion reports after an opening.
use ananke.Prelude.{ℕ, suc, zero, ◌+◌, ◌≤◌, ◌≡◌, refl, ap, ◌∙◌, inl, inr, none, Option, arith}
use ananke.Int.{pos, max_ℤ}
use ananke.Schema.{run_migrations, greatest, schema_version}
use ananke.Schema.Opening.{versions}
use ananke.Schema.Resuming.{run_migrations_resumes}

greatest-versions : (n k : ℕ) → greatest (pos n) (versions (suc n) k) ≡ pos (n + k)
unfolding greatest
greatest-versions n zero = ap pos (omega arith)
greatest-versions n (suc k) =
    let step : max_ℤ (pos n) (pos (suc n)) ≡ pos (suc n) = ground arith in
    ap (λ v. greatest v (versions (suc (suc n)) k)) step
    ∙ greatest-versions (suc n) k
    ∙ ap pos (omega arith)

schema_version-versions : (n : ℕ) → schema_version (versions 1 n) ≡ pos n
unfolding schema_version
schema_version-versions zero = refl
schema_version-versions (suc n) = greatest-versions 1 n ∙ ap pos (omega arith)

-- When the opening of a database with a recorded history of 1 to n, n at most 15, ends without an
-- error, SchemaVersion reports 15.
pub run_migrations-schema_version :
    {D : Type 0} (up : ℕ → D → Option D) (n : ℕ) (d : D)
    → n ≤ 15
    → (run_migrations up d (versions 1 n)).1 ≡ none
    → schema_version (run_migrations up d (versions 1 n)).0.1 ≡ pos 15
run_migrations-schema_version up n d h e =
    let ends = run_migrations_resumes up n d h in
    elim ends.ended [
      | inl (done, all) ↦
          ap schema_version ends.recorded
          ∙ schema_version-versions (n + ends.more)
          ∙ ap pos (omega (arith, all, h))
      | inr (stopped, failed) ↦ ground (arith, e, stopped)
    ]
