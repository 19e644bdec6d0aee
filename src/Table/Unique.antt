-- ===== src/Table/Unique.antt =====
-- Tables whose key is a primary key: at most one row for each key.
use ananke.Prelude.{
  ℕ, String, ◌≡◌, refl, Bool, Option, none, some, [], ◌∷◌, arith, ◌==◌, eq_iff, if◌then◌else◌, keep,
}
use ananke.Table.{Table, lookup, insert, update, lookup-insert, lookup-update}
use ananke.Table.Sort.{place, order_by}

module _ {ℓ} {V : Type ℓ} where
  abbrev pub Unique : Table V → Type ℓ
  Unique [] = Unit
  Unique ((k, v) ∷ t) = (lookup k t ≡ none) × Unique t

  pub Unique-insert :
      (k : String) (v : V) (t : Table V) → lookup k t ≡ none → Unique t → Unique (insert k v t)
  unfolding insert lookup
  Unique-insert k v [] n u = (refl, tt)
  Unique-insert k v ((j, w) ∷ t) n u = (
    ground (arith, lookup-insert k j v t, eq_iff k j, eq_iff j k),
    Unique-insert k v t (ground arith) u.1,
  )

  pub Unique-update : (k : String) (f : V → V) (t : Table V) → Unique t → Unique (update k f t)
  unfolding update
  Unique-update k f [] u = tt
  Unique-update k f ((j, w) ∷ t) u =
      (ground (arith, lookup-update k j f t), Unique-update k f t u.1)

  lookup-place :
      (key : String × V → ℕ) (k : String) (v : V) (t : Table V) (j : String)
      → lookup k t ≡ none
      → lookup j (place key (k, v) t) ≡ (if k == j then some v else lookup j t)
  unfolding lookup place
  lookup-place key k v [] j n = refl
  lookup-place key k v ((i, w) ∷ t) j n =
      ground (arith, lookup-place key k v t j, eq_iff i k, eq_iff i j, eq_iff k j)

  -- Sorting keeps what is found under a key.
  pub lookup-order_by :
      (key : String × V → ℕ) (t : Table V) (j : String)
      → Unique t
      → lookup j (order_by key t) ≡ lookup j t
  unfolding lookup order_by
  lookup-order_by key [] j u = refl
  lookup-order_by key ((k, v) ∷ t) j u = ground (
    arith,
    lookup-place key k v (order_by key t) j,
    lookup-order_by key t k u.1,
    lookup-order_by key t j u.1,
  )

  abbrev pub filtered : (V → Bool) → Option V → Option V
  filtered p none = none
  filtered p (some v) = if p v then some v else none

  pub lookup-keep :
      (p : String × V → Bool) (t : Table V) (j : String)
      → Unique t
      → lookup j (keep p t) ≡ filtered (λ v. p (j, v)) (lookup j t)
  unfolding lookup
  lookup-keep p [] j u = refl
  lookup-keep p ((k, v) ∷ t) j u =
      ground (arith, lookup-keep p t j u.1, lookup-keep p t k u.1, eq_iff k j)

  pub Unique-keep : (p : String × V → Bool) (t : Table V) → Unique t → Unique (keep p t)
  Unique-keep p [] u = tt
  Unique-keep p ((k, v) ∷ t) u = ground (arith, lookup-keep p t k u.1, Unique-keep p t u.1)
