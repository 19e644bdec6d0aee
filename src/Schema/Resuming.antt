-- ===== src/Schema/Resuming.antt =====
-- Opening a database migrates it, and an opening that fails part way is continued by the next.
use ananke.Prelude.{
  ℕ, suc, zero, ◌+◌, ◌-◌, ◌≤◌, ◌≡◌, refl, sym, ap, ◌∙◌, subst, ◌⊎◌, inl, inr, true, false, Option,
  none, some, List, [], ◌∷◌, ◌++◌, arith, leb, Option-cases,
}
use mathlib.Core.Path.{ap₂}
use ananke.Int.{ℤ, pos}
use ananke.Schema.{
  SchemaError, migration_failed, ok, migrations, validate_history, apply_migrations, run_migrations,
}
use ananke.Schema.Opening.{versions, validate_history_exact, ordered-versions, versions_snoc}

module _ {ℓ} {D : Type ℓ} (up : ℕ → D → Option D) where
  -- The migrations after version n, k of them, in order.
  unfoldable pub upgrade : ℕ → ℕ → D → Option D
  upgrade n zero d = some d
  upgrade n (suc k) d = elim (up (suc n) d) [ none ↦ none | some d' ↦ upgrade (suc n) k d' ]

  -- Where an opening from version n, database d and head n + k ends: after some more migrations,
  -- recorded one by one, either at the head, or before a migration that fails.
  pub record Ends (n k : ℕ) (d : D) (s : (D × List ℤ) × Option SchemaError) : Type ℓ where
    pub more : ℕ
    pub bounded : more ≤ k
    pub upgraded : upgrade n more d ≡ some s.0.0
    pub recorded : s.0.1 ≡ versions 1 (n + more)
    pub ended :
        ((s.1 ≡ none) × (more ≡ k))
        ⊎ ((s.1 ≡ some (migration_failed (suc (n + more)))) × (up (suc (n + more)) s.0.0 ≡ none))

  abbrev count : ℕ → ℕ → List ℕ
  count from zero = []
  count from (suc k) = from ∷ count (suc from) k

  Ends-suc :
      (n k : ℕ) (d d' : D) (s : (D × List ℤ) × Option SchemaError)
      → up (suc n) d ≡ some d'
      → Ends (suc n) k d' s
      → Ends n (suc k) d s
  unfolding upgrade
  Ends-suc n k d d' s e h =
      let same : suc n + h.more ≡ n + suc h.more = omega arith in
      record {
        more = suc h.more;
        bounded = omega (arith, h.bounded);
        upgraded = rw (e, upgrade) h.upgraded;
        recorded = h.recorded ∙ ap (versions 1) same;
        ended = elim h.ended [
          | inl (done, all) ↦ inl (done, ap suc all)
          | inr (stopped, failed) ↦ inr (
            stopped ∙ ap (λ m. some (migration_failed (suc m))) same,
            subst (λ m. up (suc m) s.0.0 ≡ none) same failed,
          )
        ];
      }

  Ends-zero : (n : ℕ) (d : D) → Ends n 0 d ((d, versions 1 n), none)
  unfolding upgrade
  Ends-zero n d = record {
    more = 0;
    bounded = omega arith;
    upgraded = refl;
    recorded = ap (versions 1) (omega arith);
    ended = inl (refl, refl);
  }

  Ends-failed :
      (n k : ℕ) (d : D)
      → up (suc n) d ≡ none
      → Ends n (suc k) d ((d, versions 1 n), some (migration_failed (suc n)))
  unfolding upgrade
  Ends-failed n k d e =
      let same : n ≡ n + 0 = omega arith in
      record {
        more = 0;
        bounded = omega arith;
        upgraded = refl;
        recorded = ap (versions 1) same;
        ended = inr (
          ap (λ m. some (migration_failed (suc m))) same,
          subst (λ m. up (suc m) d ≡ none) same e,
        );
      }

  apply_migrations-Ends :
      (current n k : ℕ) (d : D)
      → current ≤ n
      → Ends n k d (apply_migrations up (count (suc n) k) current d (versions 1 n))
  unfolding apply_migrations
  apply_migrations-Ends current n zero d h = Ends-zero n d
  apply_migrations-Ends current n (suc k) d h =
      let new : leb (suc n) current ≡ false = ground arith in
      elim (Option-cases (up (suc n) d)) [
        | inl e ↦ rw (new, e, apply_migrations) (Ends-failed n k d e)
        | inr (d', e) ↦
            let snoc : versions 1 n ++ pos (suc n) ∷ [] ≡ versions 1 (suc n) =
              subst (λ m. versions 1 n ++ pos m ∷ [] ≡ versions 1 (suc n)) (omega arith)
                (versions_snoc 1 n) in
            rw (new, e, snoc, apply_migrations)
              (Ends-suc n k d d' _ e (apply_migrations-Ends current (suc n) k d' (omega arith)))
      ]

  -- Migrations up to the current version are passed over.
  apply_migrations_skip :
      (current from k : ℕ) (d : D) (history : List ℤ)
      → from + k ≡ suc current
      → (rest : List ℕ)
      → apply_migrations up (count from k ++ rest) current d history
        ≡ apply_migrations up rest current d history
  unfolding apply_migrations
  apply_migrations_skip current from zero d history h rest = refl
  apply_migrations_skip current from (suc k) d history h rest =
      let old : leb from current ≡ true = ground arith in
      rw (old, apply_migrations)
        (apply_migrations_skip current (suc from) k d history (omega arith) rest)

  count-append : (from k l : ℕ) → count from (k + l) ≡ count from k ++ count (from + k) l
  count-append from zero l = ap₂ count (omega arith) (omega arith)
  count-append from (suc k) l =
      let sum : suc k + l ≡ suc (k + l) = omega arith in
      rw sum (
        ap (◌∷◌ from) (
          subst (λ m. count (suc from) (k + l) ≡ count (suc from) k ++ count m l) (omega arith)
            (count-append (suc from) k l)))

  -- Opening a database whose recorded history is 1 to n, whatever migrations do or fail: some more
  -- migrations are applied in order, each recorded, and nothing else; it ends without an error
  -- exactly at version 15, and otherwise reports the first migration that failed, whose changes are
  -- rolled back. What it leaves is again such a database, so that the next opening goes on there.
  pub run_migrations_resumes :
      (n : ℕ) (d : D) → n ≤ 15 → Ends n (15 - n) d (run_migrations up d (versions 1 n))
  unfolding run_migrations
  run_migrations_resumes n d h =
      let valid : validate_history migrations (versions 1 n) ≡ ok n =
        (validate_history_exact (versions 1 n) n).1 (ordered-versions 1 n, h) in
      let total : n + (15 - n) ≡ 15 = omega arith in
      let next : 1 + n ≡ suc n = omega arith in
      let split : migrations ≡ count 1 n ++ count (suc n) (15 - n) =
        subst (λ m. migrations ≡ count 1 n ++ count m (15 - n)) next
          (subst (λ m. count 1 m ≡ count 1 n ++ count (1 + n) (15 - n)) total
            (count-append 1 n (15 - n))) in
      rw (valid, run_migrations)
        (subst (λ m. Ends n (15 - n) d (apply_migrations up m n d (versions 1 n))) (sym split)
          (rw (apply_migrations_skip n 1 n d (versions 1 n) (omega arith) (count (suc n) (15 - n)))
            (apply_migrations-Ends n n (15 - n) d (omega arith))))
