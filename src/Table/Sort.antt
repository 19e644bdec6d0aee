-- ===== src/Table/Sort.antt =====
-- ORDER BY of a numeric column, ascending; rows with equal keys stay in the order of insertion.
use mathlib.Core.List.{Permᴰ}
use mathlib.Core.List
use ananke.Prelude.{
  ℕ, ◌≤◌, ◌<◌, ◌≡◌, ◌≢◌, refl, inl, inr, Bool-cases, List, [], ◌∷◌, arith, ltb, Bool, exists, ◌||◌,
  ap, ◌∙◌, if◌then◌else◌,
}

module _ {ℓ} {A : Type ℓ} (key : A → ℕ) where
  unfoldable pub place : A → List A → List A
  place x [] = x ∷ []
  place x (y ∷ ys) = let rest = place x ys in if ltb (key y) (key x) then y ∷ rest else x ∷ y ∷ ys

  unfoldable pub order_by : List A → List A
  unfolding place
  order_by [] = []
  order_by (x ∷ xs) = place x (order_by xs)

  abbrev pub Ascending : List A → Type 0
  Ascending [] = Unit
  Ascending (x ∷ []) = Unit
  Ascending (x ∷ y ∷ ys) = (key x ≤ key y) × Ascending (y ∷ ys)

  abbrev pub StrictlyAscending : List A → Type 0
  StrictlyAscending [] = Unit
  StrictlyAscending (x ∷ []) = Unit
  StrictlyAscending (x ∷ y ∷ ys) = (key x < key y) × StrictlyAscending (y ∷ ys)

  -- No row has the key.
  abbrev pub Absent : ℕ → List A → Type 0
  Absent k [] = Unit
  Absent k (x ∷ xs) = (key x ≢ k) × Absent k xs

  abbrev pub Distinct : List A → Type 0
  Distinct [] = Unit
  Distinct (x ∷ xs) = Absent (key x) xs × Distinct xs

  place-Absent : (k : ℕ) (x : A) (xs : List A) → key x ≢ k → Absent k xs → Absent k (place x xs)
  unfolding place
  place-Absent k x [] n a = (n, tt)
  place-Absent k x (y ∷ ys) n a = ground (arith, place-Absent k x ys n a.1)

  order_by-Absent : (k : ℕ) (xs : List A) → Absent k xs → Absent k (order_by xs)
  unfolding order_by
  order_by-Absent k [] a = tt
  order_by-Absent k (x ∷ xs) a = place-Absent k x (order_by xs) a.0 (order_by-Absent k xs a.1)

  place-StrictlyAscending :
      (x : A) (xs : List A)
      → Absent (key x) xs
      → StrictlyAscending xs
      → StrictlyAscending (place x xs)
  unfolding place
  place-StrictlyAscending x [] a s = tt
  place-StrictlyAscending x (y ∷ []) a s = ground arith
  place-StrictlyAscending x (y ∷ z ∷ zs) a s =
      ground (arith, place-StrictlyAscending x (z ∷ zs) a.1 s.1)

  -- Rows with distinct keys come in strictly ascending order.
  pub order_by-StrictlyAscending : (xs : List A) → Distinct xs → StrictlyAscending (order_by xs)
  unfolding order_by
  order_by-StrictlyAscending [] d = tt
  order_by-StrictlyAscending (x ∷ xs) d =
      place-StrictlyAscending x (order_by xs) (order_by-Absent (key x) xs d.0)
        (order_by-StrictlyAscending xs d.1)

  place-Perm : (x : A) (xs : List A) → Permᴰ (place x xs) (x ∷ xs)
  unfolding place
  place-Perm x [] = List.Permᴰ.refl (x ∷ [])
  place-Perm x (y ∷ ys) = elim (Bool-cases (ltb (key y) (key x))) [
    | inl t ↦
        rw t (List.Permᴰ.trans (List.Permᴰ.cons refl (place-Perm x ys)) (List.Permᴰ.swap refl refl))
    | inr f ↦ rw f (List.Permᴰ.refl (x ∷ y ∷ ys))
  ]

  -- Sorting loses and adds no row.
  pub order_by-Perm : (xs : List A) → Permᴰ (order_by xs) xs
  unfolding order_by
  order_by-Perm [] = List.Permᴰ.nil
  order_by-Perm (x ∷ xs) =
      List.Permᴰ.trans (place-Perm x (order_by xs)) (List.Permᴰ.cons refl (order_by-Perm xs))

  -- Rows that already stand in order stay so.
  pub order_by-Ascending : (xs : List A) → Ascending xs → order_by xs ≡ xs
  unfolding order_by
  order_by-Ascending [] h = refl
  order_by-Ascending (x ∷ []) h = refl
  order_by-Ascending (x ∷ y ∷ ys) h = ground (arith, order_by-Ascending (y ∷ ys) h.1)

  exists-place : (p : A → Bool) (x : A) (xs : List A) → exists p (place x xs) ≡ (p x || exists p xs)
  unfolding place exists
  exists-place p x [] = refl
  exists-place p x (y ∷ ys) = ground (arith, exists-place p x ys)

  -- The order does not matter to a test.
  pub exists-order_by : (p : A → Bool) (xs : List A) → exists p (order_by xs) ≡ exists p xs
  unfolding order_by exists
  exists-order_by p [] = refl
  exists-order_by p (x ∷ xs) =
      exists-place p x (order_by xs) ∙ ap (λ b. p x || b) (exists-order_by p xs)
