-- ===== src/Schema.antt =====
-- internal/store/store.go: the history of schema versions and the migrations that extend it. What a
-- migration does to the rest of the database is a parameter, `up`, which may fail; a failed
-- migration is rolled back with its version row.
pub mod Opening
pub mod Resuming
pub mod Version
pub mod Examples
use ananke.Prelude.{
  ℕ, suc, zero, Bool, true, false, Option, none, some, List, [], ◌∷◌, ◌++◌, map, leb, eqb,
  if◌then◌else◌,
}
use ananke.Prelude.Fallible.{Fallible}
pub use ananke.Prelude.Fallible.{ok, err, ◌>>=◌}
use ananke.Int.{ℤ, pos, leb_ℤ, ltb_ℤ, max_ℤ}

pub data SchemaError : Type 0 where
  inconsistent_definitions non_positive newer_than_head duplicate gap : SchemaError
  migration_failed : ℕ → SchemaError

abbrev pub Checked {ℓ} : Type ℓ → Type ℓ
Checked A = Fallible SchemaError A

-- The version fields of the ordered list of migrations.
abbrev pub migrations : List ℕ
migrations = 1 ∷ 2 ∷ 3 ∷ 4 ∷ 5 ∷ 6 ∷ 7 ∷ 8 ∷ 9 ∷ 10 ∷ 11 ∷ 12 ∷ 13 ∷ 14 ∷ 15 ∷ []

-- Each migration stands at its version; the last is the head.
unfoldable pub definitions_head : ℕ → ℕ → List ℕ → Checked ℕ
definitions_head i head [] = ok head
definitions_head i head (m ∷ ms) =
    let rest = definitions_head (suc i) m ms in
    if eqb m (suc i) then rest else err inconsistent_definitions

-- ORDER BY version
unfoldable pub place : ℤ → List ℤ → List ℤ
place v [] = v ∷ []
place v (w ∷ ws) = let rest = place v ws in if ltb_ℤ w v then w ∷ rest else v ∷ w ∷ ws

unfoldable pub ordered : List ℤ → List ℤ
unfolding place
ordered [] = []
ordered (v ∷ vs) = place v (ordered vs)

unfoldable pub check_version : ℕ → ℕ → ℤ → Checked ℕ
check_version head expected version =
    if leb_ℤ version (pos 0)
    then err non_positive
    else if ltb_ℤ (pos head) version
    then err newer_than_head
    else if ltb_ℤ version (pos expected)
    then err duplicate
    else if ltb_ℤ (pos expected) version
    then err gap
    else ok expected

-- The loop over the rows: the version that is expected next is the current one and one more.
unfoldable pub scan_history : ℕ → ℕ → List ℤ → Checked ℕ
unfolding check_version
scan_history head current [] = ok current
scan_history head current (v ∷ vs) =
    check_version head (suc current) v >>= λ now. scan_history head now vs

unfoldable pub validate_history : List ℕ → List ℤ → Checked ℕ
validate_history definitions history =
    definitions_head 0 0 definitions >>= λ head. scan_history head 0 (ordered history)

module _ {ℓ} {D : Type ℓ} (up : ℕ → D → Option D) where
  -- The loop over the migrations, each in a transaction of its own.
  unfoldable pub apply_migrations : List ℕ → ℕ → D → List ℤ → (D × List ℤ) × Option SchemaError
  apply_migrations [] current d history = ((d, history), none)
  apply_migrations (m ∷ ms) current d history = elim (leb m current) [
    | true ↦ apply_migrations ms current d history
    | false ↦ elim (up m d) [
      | none ↦ ((d, history), some (migration_failed m))
      | some d' ↦ apply_migrations ms current d' (history ++ pos m ∷ [])
    ]
  ]

  unfoldable pub run_migrations : D → List ℤ → (D × List ℤ) × Option SchemaError
  run_migrations d history = elim (validate_history migrations history) [
    | err e ↦ ((d, history), some e)
    | ok current ↦ apply_migrations migrations current d history
  ]

unfoldable pub greatest : ℤ → List ℤ → ℤ
greatest v [] = v
greatest v (w ∷ ws) = greatest (max_ℤ v w) ws

-- MAX(version), or 0 where there is no row.
unfoldable pub schema_version : List ℤ → ℤ
unfolding greatest
schema_version [] = pos 0
schema_version (v ∷ vs) = greatest v vs
