-- ===== src/Table.antt =====
-- A SQLite table whose rows are found by a text column (`id`, `run_id`): that column is the key
-- of a row, and the other columns are its value. Rows stand in the order of insertion.
pub mod Sort
pub mod Unique
use ananke.Prelude.{
  String, ◌≡◌, refl, Option, none, some, List, [], ◌∷◌, ◌++◌, arith, ◌==◌, eq_iff, if◌then◌else◌,
}
use mathlib.Core.Option

abbrev pub Table {ℓ} : Type ℓ → Type ℓ
Table V = List (String × V)

module _ {ℓ} {V : Type ℓ} where
  -- SELECT … WHERE id = k, for a key column.
  unfoldable pub lookup : String → Table V → Option V
  lookup k [] = none
  lookup k ((j, v) ∷ t) = if j == k then some v else lookup k t

  -- SELECT … WHERE run_id = k.
  unfoldable pub rows : String → Table V → List V
  rows k [] = []
  rows k ((j, v) ∷ t) = let rest = rows k t in if j == k then v ∷ rest else rest

  -- INSERT.
  unfoldable pub insert : String → V → Table V → Table V
  insert k v [] = (k, v) ∷ []
  insert k v ((j, w) ∷ t) = (j, w) ∷ insert k v t

  -- UPDATE … WHERE id = k.
  unfoldable pub update : String → (V → V) → Table V → Table V
  update k f [] = []
  update k f ((j, v) ∷ t) = (j, (if j == k then f v else v)) ∷ update k f t

  pub rows-insert :
      (k j : String) (v : V) (t : Table V)
      → rows j (insert k v t) ≡ (if k == j then rows j t ++ v ∷ [] else rows j t)
  unfolding rows insert
  rows-insert k j v [] = ground arith
  rows-insert k j v ((i, w) ∷ t) = ground (arith, rows-insert k j v t)

  pub lookup-insert :
      (k j : String) (v : V) (t : Table V)
      → lookup k t ≡ none
      → lookup j (insert k v t) ≡ (if k == j then some v else lookup j t)
  unfolding lookup insert
  lookup-insert k j v [] h = refl
  lookup-insert k j v ((i, w) ∷ t) h =
      ground (arith, lookup-insert k j v t, eq_iff k j, eq_iff i k, eq_iff i j)

  pub lookup-update :
      (k j : String) (f : V → V) (t : Table V)
      → lookup j (update k f t) ≡ (if k == j then Option.map f (lookup j t) else lookup j t)
  unfolding lookup update
  lookup-update k j f [] = ground arith
  lookup-update k j f ((i, w) ∷ t) =
      ground (arith, lookup-update k j f t, eq_iff k j, eq_iff i k, eq_iff i j)
