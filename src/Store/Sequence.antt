-- ===== src/Store/Sequence.antt =====
-- Sequence numbers: what `max_seq` and `next_seq` give on rows numbered one by one.
use ananke.Prelude.{
  ℕ, zero, suc, ◌+◌, ◌≡◌, refl, some, List, [], ◌∷◌, ◌++◌, map, arith, length, ltb, keep, drop, ◌≤◌,
  ap,
}
use ananke.Store.Rows.{max_seq, next_seq}
use ananke.Table.Sort.{Ascending}

-- n, n + 1, …
abbrev pub Consecutive : ℕ → List ℕ → Type 0
Consecutive n [] = Unit
Consecutive n (m ∷ ms) = (m ≡ n) × Consecutive (suc n) ms

pub Consecutive-append :
    (n m : ℕ) (ms : List ℕ) → Consecutive n ms → m ≡ n + length ms → Consecutive n (ms ++ m ∷ [])
Consecutive-append n m [] h e = (omega arith, tt)
Consecutive-append n m (k ∷ ms) h e = (h.0, Consecutive-append (suc n) m ms h.1 (omega arith))

pub max_seq-Consecutive :
    (n m : ℕ) (ms : List ℕ) → Consecutive n (m ∷ ms) → max_seq (m ∷ ms) ≡ some (n + length ms)
unfolding max_seq
max_seq-Consecutive n m [] h = ap some (omega arith)
max_seq-Consecutive n m (k ∷ ms) h = ground (arith, max_seq-Consecutive (suc n) k ms h.1)

-- The number after the last.
pub next_seq-Consecutive :
    (n : ℕ) (ms : List ℕ) → Consecutive (suc n) ms → n ≡ 0 → next_seq ms ≡ suc (length ms)
unfolding next_seq
next_seq-Consecutive n [] h z = refl
next_seq-Consecutive n (m ∷ ms) h z = ground (arith, max_seq-Consecutive (suc n) m ms h)

pub next_seq-Consecutive_zero :
    (m : ℕ) (ms : List ℕ) → Consecutive 0 (m ∷ ms) → next_seq (m ∷ ms) ≡ length (m ∷ ms)
unfolding next_seq
next_seq-Consecutive_zero m ms h = ground (arith, max_seq-Consecutive 0 m ms h)

module _ {ℓ} {A : Type ℓ} (seq : A → ℕ) where
  pub length-map : (xs : List A) → length (map seq xs) ≡ length xs
  length-map [] = refl
  length-map (x ∷ xs) = ap suc (length-map xs)

  pub Consecutive-Ascending : (n : ℕ) (xs : List A) → Consecutive n (map seq xs) → Ascending seq xs
  Consecutive-Ascending n [] h = tt
  Consecutive-Ascending n (x ∷ []) h = tt
  Consecutive-Ascending n (x ∷ y ∷ xs) h = (omega arith, Consecutive-Ascending (suc n) (y ∷ xs) h.1)

  keep_all :
      (after n : ℕ) (xs : List A)
      → Consecutive n (map seq xs)
      → suc after ≤ n
      → keep (λ x. ltb after (seq x)) xs ≡ xs
  keep_all after n [] h le = refl
  keep_all after n (x ∷ xs) h le = ground (arith, keep_all after (suc n) xs h.1)

  -- The rows after a number are those that its predecessors leave.
  pub keep-Consecutive :
      (after k n : ℕ) (xs : List A)
      → Consecutive (suc n) (map seq xs)
      → after ≡ k + n
      → keep (λ x. ltb after (seq x)) xs ≡ drop k xs
  keep-Consecutive after zero n xs h e = keep_all after (suc n) xs h (omega arith)
  keep-Consecutive after (suc k) n [] h e = refl
  keep-Consecutive after (suc k) n (x ∷ xs) h e =
      ground (arith, keep-Consecutive after k (suc n) xs h.1)
