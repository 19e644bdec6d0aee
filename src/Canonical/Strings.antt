-- ===== src/Canonical/Strings.antt =====
-- What canonical JSON writes for a string is read back by the grammar of JSON strings.
use mathlib.Core.List.{append_assoc}
use ananke.Prelude.{
  ℕ, suc, zero, ◌+◌, ◌-◌, ◌*◌, ◌/◌, ◌%◌, ◌<◌, ◌≡◌, refl, ap, subst, ◌∙◌, inl, inr, true, ◌&&◌,
  Option, none, some, List, [], ◌∷◌, ◌++◌, leb, ltb, eqb, if◌then◌else◌, arith, Bool-cases,
}
use ananke.Prelude.Fallible.{ok}
use ananke.Canonical.{GoString, write_rune, write_runes, append_canonical_string, hex_digit}

-- RFC 8259: a reader of a string after its opening quote, one rune at a time. It is between
-- characters, after a backslash, or within the four digits of \u, with those that are left and the
-- number so far.
pub data Reading : Type 0 where
  plain escaped : Reading
  digits : ℕ → ℕ → Reading

abbrev short : ℕ → Option ℕ
short c =
    if eqb c 34
    then some 34
    else if eqb c 92
    then some 92
    else if eqb c 47
    then some 47
    else if eqb c 98
    then some 8
    else if eqb c 102
    then some 12
    else if eqb c 110
    then some 10
    else if eqb c 114
    then some 13
    else if eqb c 116
    then some 9
    else none

abbrev hex_value : ℕ → Option ℕ
hex_value c =
    if leb 48 c && leb c 57
    then some (c - 48)
    else if leb 97 c && leb c 102
    then some (c - 87)
    else if leb 65 c && leb c 70
    then some (c - 55)
    else none

abbrev push : ℕ → Option (List ℕ × List ℕ) → Option (List ℕ × List ℕ)
push r none = none
push r (some (rs, rest)) = some (r ∷ rs, rest)

-- What was read, and what is left after the closing quote.
unfoldable pub read : Reading → List ℕ → Option (List ℕ × List ℕ)
read plain [] = none
read plain (c ∷ cs) =
    let next = read plain cs in
    let escape = read escaped cs in
    if eqb c 34
    then some ([], cs)
    else if eqb c 92
    then escape
    else if ltb c 32
    then none
    else push c next
read escaped [] = none
read escaped (c ∷ cs) =
    let next = read plain cs in
    let code = read (digits 3 0) cs in
    if eqb c 117 then code else elim (short c) [ none ↦ none | some r ↦ push r next ]
read (digits n acc) [] = none
read (digits zero acc) (c ∷ cs) =
    let next = read plain cs in
    elim (hex_value c) [ none ↦ none | some d ↦ push (acc * 16 + d) next ]
read (digits (suc n) acc) (c ∷ cs) = elim (hex_value c) [
  | none ↦ none
  | some d ↦ read (digits n (acc * 16 + d)) cs
]

abbrev ReadsBack : List ℕ → ℕ → Type 0
ReadsBack rest r = read plain (write_rune r ++ rest) ≡ push r (read plain rest)

at_code : (rest : List ℕ) (r k : ℕ) → ReadsBack rest k → eqb r k ≡ true → ReadsBack rest r
at_code rest r k h e = let same : k ≡ r = ground (arith, e) in subst (ReadsBack rest) same h

hex_value-hex_digit : (d : ℕ) → d < 16 → hex_value (hex_digit d) ≡ some d
hex_value-hex_digit d h = ground arith

read-control :
    (a b : ℕ) (rest : List ℕ)
    → a < 2
    → b < 16
    → read (digits 3 0) (48 ∷ 48 ∷ hex_digit a ∷ hex_digit b ∷ rest)
      ≡ push (a * 16 + b) (read plain rest)
unfolding read
read-control zero b rest h k = rw (hex_value-hex_digit b k, read) refl
read-control (suc zero) b rest h k = rw (hex_value-hex_digit b k, read) refl
read-control (suc (suc a)) b rest h k = ground arith

read-write_rune : (r : ℕ) (rest : List ℕ) → ReadsBack rest r
unfolding read write_rune
read-write_rune r rest = elim (Bool-cases (eqb r 34)) [
  | inl t ↦ at_code rest r 34 refl t
  | inr a ↦ elim (Bool-cases (eqb r 92)) [
    | inl t ↦ at_code rest r 92 refl t
    | inr b ↦ elim (Bool-cases (eqb r 8)) [
      | inl t ↦ at_code rest r 8 refl t
      | inr c ↦ elim (Bool-cases (eqb r 12)) [
        | inl t ↦ at_code rest r 12 refl t
        | inr d ↦ elim (Bool-cases (eqb r 10)) [
          | inl t ↦ at_code rest r 10 refl t
          | inr e ↦ elim (Bool-cases (eqb r 13)) [
            | inl t ↦ at_code rest r 13 refl t
            | inr f ↦ elim (Bool-cases (eqb r 9)) [
              | inl t ↦ at_code rest r 9 refl t
              | inr g ↦ elim (Bool-cases (ltb r 32)) [
                | inl t ↦
                    rw (a, b, c, d, e, f, g, t)
                      (read-control (r / 16) (r % 16) rest (ground (arith, t)) (omega arith)
                        ∙ ap (λ n. push n (read plain rest)) (omega arith))
                | inr t ↦ rw (a, b, c, d, e, f, g, t) (ground (arith, a, b, t))
              ]
            ]
          ]
        ]
      ]
    ]
  ]
]

read-write_runes : (rs rest : List ℕ) → read plain (write_runes rs ++ 34 ∷ rest) ≡ some (rs, rest)
unfolding write_runes read
read-write_runes [] rest = refl
read-write_runes (r ∷ rs) rest =
    ap (read plain) (append_assoc (write_rune r) (write_runes rs) (34 ∷ rest))
    ∙ read-write_rune r (write_runes rs ++ 34 ∷ rest)
    ∙ ap (push r) (read-write_runes rs rest)

-- A string that canonical JSON accepts is valid UTF-8; what is written starts with a quote, and the
-- grammar of JSON strings reads the string back from the rest, whatever follows.
pub append_canonical_string-read :
    (value : GoString) (written : List ℕ)
    → append_canonical_string value ≡ ok written
    → (rs : List ℕ) × (quoted : List ℕ) × (value ≡ some rs)
      × (written ≡ 34 ∷ quoted)
      × ((rest : List ℕ) → read plain (quoted ++ rest) ≡ some (rs, rest))
unfolding append_canonical_string
append_canonical_string-read none written h = ground arith
append_canonical_string-read (some rs) written h = (
  rs,
  write_runes rs ++ 34 ∷ [],
  refl,
  ground (arith, h),
  λ rest. ap (read plain) (append_assoc (write_runes rs) (34 ∷ []) rest) ∙ read-write_runes rs rest,
)
