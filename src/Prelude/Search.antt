-- ===== src/Prelude/Search.antt =====
-- SQL's statements with a WHERE clause, on a table that is a plain list of rows: what a SELECT finds,
-- whether there is a row, the rows that an UPDATE changes, and how many they are.
use Prim.Native.Nat.{ℕ, suc, ◌≤◌}
use mathlib.Core.Path.{◌≡◌, refl, sym, ap, ◌∙◌}
use mathlib.Core.Bool.{Bool, true, false, ◌||◌}
use mathlib.Core.Option.{Option, none, some}
use mathlib.Core.List.{List, [], ◌∷◌, ◌++◌, map}
use native.Mathlib.Omega.{arith}
use mathlib.Core.Logic.{inl, inr}
use ananke.Prelude.Lists.{keep}
use ananke.Prelude.Tests.{if◌then◌else◌, Bool-cases}

module _ {ℓ} {A : Type ℓ} where
  -- The row that a SELECT on a unique key finds.
  unfoldable pub find : (A → Bool) → List A → Option A
  find p [] = none
  find p (x ∷ xs) = let rest = find p xs in if p x then some x else rest

  unfoldable pub exists : (A → Bool) → List A → Bool
  exists p [] = false
  exists p (x ∷ xs) = p x || exists p xs

  -- UPDATE … WHERE p.
  unfoldable pub update_where : (A → Bool) → (A → A) → List A → List A
  update_where p f [] = []
  update_where p f (x ∷ xs) = (if p x then f x else x) ∷ update_where p f xs

  -- RowsAffected of an UPDATE … WHERE p.
  unfoldable pub rows_affected : (A → Bool) → List A → ℕ
  rows_affected p [] = 0
  rows_affected p (x ∷ xs) = let rest = rows_affected p xs in if p x then suc rest else rest

  pub exists-append :
      (p : A → Bool) (xs ys : List A) → exists p (xs ++ ys) ≡ (exists p xs || exists p ys)
  unfolding exists
  exists-append p [] ys = refl
  exists-append p (x ∷ xs) ys = ground (arith, exists-append p xs ys)

  -- A test that an update does not touch.
  pub exists-update_where :
      (q p : A → Bool) (f : A → A) (xs : List A)
      → ((x : A) → q (f x) ≡ q x)
      → exists q (update_where p f xs) ≡ exists q xs
  unfolding exists update_where
  exists-update_where q p f [] same = refl
  exists-update_where q p f (x ∷ xs) same =
      ground (arith, exists-update_where q p f xs same, same x)

  pub find-append :
      (p : A → Bool) (xs ys : List A) (x : A) → find p xs ≡ some x → find p (xs ++ ys) ≡ some x
  unfolding find
  find-append p [] ys x h = ground arith
  find-append p (y ∷ xs) ys x h = elim (Bool-cases (p y)) [
    | inl t ↦ ground arith
    | inr f ↦ ground (arith, find-append p xs ys x)
  ]

  pub find_last :
      (p : A → Bool) (xs : List A) (x : A)
      → find p xs ≡ none
      → p x ≡ true
      → find p (xs ++ x ∷ []) ≡ some x
  unfolding find
  find_last p [] x h t = ground arith
  find_last p (y ∷ xs) x h t = ground (arith, find_last p xs x)

  pub exists_last :
      (p : A → Bool) (xs : List A) (x : A) → p x ≡ true → exists p (xs ++ x ∷ []) ≡ true
  unfolding exists
  exists_last p [] x t = ground arith
  exists_last p (y ∷ xs) x t = ground (arith, exists_last p xs x)

  pub find-exists : (p : A → Bool) (xs : List A) (x : A) → find p xs ≡ some x → p x ≡ true
  unfolding find
  find-exists p [] x h = ground arith
  find-exists p (y ∷ ys) x h = ground (arith, find-exists p ys x)

  pub exists-imply :
      (p q : A → Bool) (xs : List A)
      → ((x : A) → p x ≡ true → q x ≡ true)
      → exists p xs ≡ true
      → exists q xs ≡ true
  unfolding exists
  exists-imply p q [] imply t = t
  exists-imply p q (x ∷ xs) imply t = ground (arith, exists-imply p q xs imply, imply x)

  pub find-none : (p : A → Bool) (xs : List A) → exists p xs ≡ false → find p xs ≡ none
  unfolding find exists
  find-none p [] n = refl
  find-none p (x ∷ xs) n = ground (arith, find-none p xs)

  pub find-exists_other :
      (p q : A → Bool) (xs : List A) (x : A) → find p xs ≡ some x → q x ≡ true → exists q xs ≡ true
  unfolding find exists
  find-exists_other p q [] x h t = ground arith
  find-exists_other p q (y ∷ ys) x h t = elim (Bool-cases (p y)) [
    | inl here ↦ let same : y ≡ x = ground arith in ap (λ b. b || exists q ys) (ap q same ∙ t)
    | inr later ↦ ground (arith, find-exists_other p q ys x)
  ]

  -- Two tests, the first of which implies the second, that affect equally many rows, affect the same.
  rows_affected-le :
      (p q : A → Bool) (xs : List A)
      → ((x : A) → p x ≡ true → q x ≡ true)
      → rows_affected p xs ≤ rows_affected q xs
  unfolding rows_affected
  rows_affected-le p q [] imply = omega arith
  rows_affected-le p q (x ∷ xs) imply = ground (arith, rows_affected-le p q xs imply, imply x)

  pub update_where_same :
      (p q : A → Bool) (f : A → A) (xs : List A)
      → ((x : A) → p x ≡ true → q x ≡ true)
      → rows_affected p xs ≡ rows_affected q xs
      → update_where p f xs ≡ update_where q f xs
  unfolding rows_affected update_where
  update_where_same p q f [] imply same = refl
  update_where_same p q f (x ∷ xs) imply same =
      ground (arith, update_where_same p q f xs imply, rows_affected-le p q xs imply, imply x)

  pub update_where-append :
      (p : A → Bool) (f : A → A) (xs ys : List A)
      → update_where p f (xs ++ ys) ≡ update_where p f xs ++ update_where p f ys
  unfolding update_where
  update_where-append p f [] ys = refl
  update_where-append p f (x ∷ xs) ys =
      ap ((if p x then f x else x) ∷◌) (update_where-append p f xs ys)

  -- Rows whose update keeps them in, or out of, a selection.
  pub keep-update_where :
      (k p : A → Bool) (f : A → A) (xs : List A)
      → ((x : A) → k (f x) ≡ k x)
      → keep k (update_where p f xs) ≡ update_where p f (keep k xs)
  unfolding update_where
  keep-update_where k p f [] same = refl
  keep-update_where k p f (x ∷ xs) same = ground (arith, keep-update_where k p f xs same, same x)

  pub update_where_none :
      (p : A → Bool) (f : A → A) (xs : List A) → rows_affected p xs ≡ 0 → update_where p f xs ≡ xs
  unfolding rows_affected update_where
  update_where_none p f [] none_there = refl
  update_where_none p f (x ∷ xs) none_there = ground (arith, update_where_none p f xs)

  -- A test that only selected rows pass.
  pub rows_affected-keep :
      (k p : A → Bool) (xs : List A)
      → ((x : A) → p x ≡ true → k x ≡ true)
      → rows_affected p (keep k xs) ≡ rows_affected p xs
  unfolding rows_affected
  rows_affected-keep k p [] inside = refl
  rows_affected-keep k p (x ∷ xs) inside =
      ground (arith, rows_affected-keep k p xs inside, inside x)

  pub exists-keep :
      (k p : A → Bool) (xs : List A)
      → ((x : A) → p x ≡ true → k x ≡ true)
      → exists p (keep k xs) ≡ exists p xs
  unfolding exists
  exists-keep k p [] inside = refl
  exists-keep k p (x ∷ xs) inside = ground (arith, exists-keep k p xs inside, inside x)

  pub find-keep :
      (k p : A → Bool) (xs : List A)
      → ((x : A) → p x ≡ true → k x ≡ true)
      → find p (keep k xs) ≡ find p xs
  unfolding find
  find-keep k p [] inside = refl
  find-keep k p (x ∷ xs) inside = ground (arith, find-keep k p xs inside, inside x)

  -- An update of rows that are not selected.
  pub keep-untouched :
      (k p : A → Bool) (f : A → A) (xs : List A)
      → ((x : A) → k (f x) ≡ k x)
      → ((x : A) → p x ≡ true → k x ≡ false)
      → keep k (update_where p f xs) ≡ keep k xs
  unfolding update_where
  keep-untouched k p f [] same outside = refl
  keep-untouched k p f (x ∷ xs) same outside =
      ground (arith, keep-untouched k p f xs same outside, same x, outside x)

-- The image of a table.
module _ {ℓ κ} {A : Type ℓ} {B : Type κ} (image : A → B) where
  pub map-update_where :
      (p : A → Bool) (q : B → Bool) (f : A → A) (g : B → B) (xs : List A)
      → ((x : A) → p x ≡ q (image x))
      → ((x : A) → image (f x) ≡ g (image x))
      → map image (update_where p f xs) ≡ update_where q g (map image xs)
  unfolding update_where
  map-update_where p q f g [] test step = refl
  map-update_where p q f g (x ∷ xs) test step =
      ground (arith, map-update_where p q f g xs test step, test x, step x)

  pub rows_affected-map :
      (p : A → Bool) (q : B → Bool) (xs : List A)
      → ((x : A) → p x ≡ q (image x))
      → rows_affected p xs ≡ rows_affected q (map image xs)
  unfolding rows_affected
  rows_affected-map p q [] test = refl
  rows_affected-map p q (x ∷ xs) test = ground (arith, rows_affected-map p q xs test, test x)

  pub exists-map :
      (p : A → Bool) (q : B → Bool) (xs : List A)
      → ((x : A) → p x ≡ q (image x))
      → exists p xs ≡ exists q (map image xs)
  unfolding exists
  exists-map p q [] test = refl
  exists-map p q (x ∷ xs) test = ground (arith, exists-map p q xs test, test x)

  pub map-append : (xs ys : List A) → map image (xs ++ ys) ≡ map image xs ++ map image ys
  map-append [] ys = refl
  map-append (x ∷ xs) ys = ap (image x ∷◌) (map-append xs ys)

  pub find-map :
      (p : A → Bool) (q : B → Bool) (xs : List A) (y : B)
      → ((x : A) → p x ≡ q (image x))
      → find q (map image xs) ≡ some y
      → (x : A) × (find p xs ≡ some x) × (image x ≡ y)
  unfolding find
  find-map p q [] y test h = ground arith
  find-map p q (x ∷ xs) y test h = elim (Bool-cases (p x)) [
    | inl t ↦
        let here : q (image x) ≡ true = sym (test x) ∙ t in (x, rw t refl, ground (arith, here, h))
    | inr f ↦
        let there : q (image x) ≡ false = sym (test x) ∙ f in
        let later : find q (map image xs) ≡ some y = ground (arith, there, h) in
        let (z, e, g) = find-map p q xs y test later in (z, rw f e, g)
  ]
