-- ===== src/Canonical/Keys.antt =====
-- The order of keys in canonical JSON is a strict total order on strings, so that the members of an
-- object come in one order.
use ananke.Prelude.{
  ℕ, suc, zero, ◌+◌, ◌-◌, ◌/◌, ◌%◌, ◌≤◌, ◌≡◌, ◌≢◌, refl, sym, ap, ◌∙◌, inl, inr, true, false, ◌||◌,
  List, [], ◌∷◌, ◌++◌, ltb, arith, Bool-cases,
}
use ananke.Int.{ℤ, pos, negsuc}
use ananke.Canonical.{is_surrogate, units_of, encode, compare_units, compare_utf16}

-- -n
abbrev pub neg : ℤ → ℤ
neg (pos zero) = pos 0
neg (pos (suc n)) = negsuc n
neg (negsuc n) = pos (suc n)

compare_units-swap : (xs bs : List ℕ) → compare_units bs xs ≡ neg (compare_units xs bs)
unfolding compare_units
compare_units-swap [] [] = refl
compare_units-swap [] (b ∷ bs) = refl
compare_units-swap (a ∷ xs) [] = refl
compare_units-swap (a ∷ xs) (b ∷ bs) = ground (arith, compare_units-swap xs bs)

compare_units-eq : (xs bs : List ℕ) → compare_units xs bs ≡ pos 0 → xs ≡ bs
unfolding compare_units
compare_units-eq [] [] h = refl
compare_units-eq [] (b ∷ bs) h = ground arith
compare_units-eq (a ∷ xs) [] h = ground arith
compare_units-eq (a ∷ xs) (b ∷ bs) h = ground (arith, h, compare_units-eq xs bs)

compare_units_trans :
    (xs bs cs : List ℕ)
    → compare_units xs bs ≡ negsuc 0
    → compare_units bs cs ≡ negsuc 0
    → compare_units xs cs ≡ negsuc 0
unfolding compare_units
compare_units_trans [] [] cs h k = ground arith
compare_units_trans [] (b ∷ bs) [] h k = ground arith
compare_units_trans [] (b ∷ bs) (c ∷ cs) h k = refl
compare_units_trans (a ∷ xs) [] cs h k = ground arith
compare_units_trans (a ∷ xs) (b ∷ bs) [] h k = ground arith
compare_units_trans (a ∷ xs) (b ∷ bs) (c ∷ cs) h k =
    ground (arith, h, k, compare_units_trans xs bs cs)

-- Every rune is a Unicode scalar value.
abbrev pub Scalars : List ℕ → Type 0
Scalars [] = Unit
Scalars (r ∷ rs) = ((is_surrogate r || ltb 1114111 r) ≡ false) × Scalars rs

units_of-single :
    (r : ℕ) → (is_surrogate r || ltb 1114111 r) ≡ false → ltb r 65536 ≡ true → units_of r ≡ r ∷ []
unfolding units_of
units_of-single r u a = rw (u, a) refl

units_of-pair :
    (r : ℕ)
    → (is_surrogate r || ltb 1114111 r) ≡ false
    → ltb r 65536 ≡ false
    → units_of r ≡ (55296 + (r - 65536) / 1024) ∷ (56320 + (r - 65536) % 1024) ∷ []
unfolding units_of
units_of-pair r u a = rw (u, a) refl

pair_inj :
    (r s : ℕ)
    → ltb r 65536 ≡ false
    → ltb s 65536 ≡ false
    → 55296 + (r - 65536) / 1024 ≡ 55296 + (s - 65536) / 1024
    → 56320 + (r - 65536) % 1024 ≡ 56320 + (s - 65536) % 1024
    → r ≡ s
pair_inj r s a b h l =
    let x : 65536 ≤ r = ground (arith, a) in
    let y : 65536 ≤ s = ground (arith, b) in omega (arith, x, y, h, l)

-- A scalar value of the basic plane is no high surrogate.
single-ne-pair :
    (r s : ℕ)
    → (is_surrogate r || ltb 1114111 r) ≡ false
    → (is_surrogate s || ltb 1114111 s) ≡ false
    → ltb r 65536 ≡ true
    → r ≢ 55296 + (s - 65536) / 1024
single-ne-pair r s u v a = λ e.
    let low : 55296 ≤ r = omega (arith, e) in
    let top : s ≤ 1114111 = ground (arith, v) in
    let high : r ≤ 57343 = omega (arith, e, top) in ground (arith, u, low, high)

encode-ne-nil : (r : ℕ) (rs : List ℕ) → encode (r ∷ rs) ≢ []
unfolding encode units_of
encode-ne-nil r rs = ground arith

encode-inj : (rs ss : List ℕ) → Scalars rs → Scalars ss → encode rs ≡ encode ss → rs ≡ ss
unfolding encode
encode-inj [] [] u v h = refl
encode-inj [] (s ∷ ss) u v h = elim (encode-ne-nil s ss (sym h)) [ ]
encode-inj (r ∷ rs) [] u v h = elim (encode-ne-nil r rs h) [ ]
encode-inj (r ∷ rs) (s ∷ ss) u v h =
    let rest = encode-inj rs ss u.1 v.1 in
    elim (Bool-cases (ltb r 65536)) [
      | inl a ↦ elim (Bool-cases (ltb s 65536)) [
        | inl b ↦
            let eq : r ∷ encode rs ≡ s ∷ encode ss =
              ap (λ us. us ++ encode rs) (sym (units_of-single r u.0 a))
              ∙ h
              ∙ ap (λ us. us ++ encode ss) (units_of-single s v.0 b) in
            ground (arith, eq, rest)
        | inr b ↦
            let eq : r ∷ encode rs
                ≡ (55296 + (s - 65536) / 1024) ∷ (56320 + (s - 65536) % 1024) ∷ encode ss =
              ap (λ us. us ++ encode rs) (sym (units_of-single r u.0 a))
              ∙ h
              ∙ ap (λ us. us ++ encode ss) (units_of-pair s v.0 b) in
            ground (arith, eq, single-ne-pair r s u.0 v.0 a)
      ]
      | inr a ↦ elim (Bool-cases (ltb s 65536)) [
        | inl b ↦
            let eq : (55296 + (r - 65536) / 1024) ∷ (56320 + (r - 65536) % 1024) ∷ encode rs
                ≡ s ∷ encode ss =
              ap (λ us. us ++ encode rs) (sym (units_of-pair r u.0 a))
              ∙ h
              ∙ ap (λ us. us ++ encode ss) (units_of-single s v.0 b) in
            ground (arith, sym eq, single-ne-pair s r v.0 u.0 b)
        | inr b ↦
            let eq : (55296 + (r - 65536) / 1024) ∷ (56320 + (r - 65536) % 1024) ∷ encode rs
                ≡ (55296 + (s - 65536) / 1024) ∷ (56320 + (s - 65536) % 1024) ∷ encode ss =
              ap (λ us. us ++ encode rs) (sym (units_of-pair r u.0 a))
              ∙ h
              ∙ ap (λ us. us ++ encode ss) (units_of-pair s v.0 b) in
            ground (arith, eq, rest, pair_inj r s a b)
      ]
    ]

-- compareUTF16 on strings of Unicode scalar values is a total order: comparing the other way round
-- gives the opposite sign, it is 0 for equal strings only, and it is transitive.
pub compare_utf16_total :
    (rs ss ts : List ℕ)
    → Scalars rs
    → Scalars ss
    → (compare_utf16 ss rs ≡ neg (compare_utf16 rs ss))
      × (compare_utf16 rs ss ≡ pos 0 → rs ≡ ss)
      × (compare_utf16 rs ss ≡ negsuc 0
          → compare_utf16 ss ts ≡ negsuc 0
          → compare_utf16 rs ts ≡ negsuc 0)
unfolding compare_utf16
compare_utf16_total rs ss ts u v = (
  compare_units-swap (encode rs) (encode ss),
  λ e. encode-inj rs ss u v (compare_units-eq (encode rs) (encode ss) e),
  compare_units_trans (encode rs) (encode ss) (encode ts),
)
