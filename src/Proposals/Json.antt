-- ===== src/Proposals/Json.antt =====
-- internal/store/proposal_canonical.go: canonical JSON of the values that proposals.go hashes and stores.
-- A value is what the maps of proposals.go hold; text is written as its code points.
use ananke.Prelude.{
  ℕ, suc, zero, ◌+◌, ◌-◌, ◌*◌, ◌/◌, ◌%◌, ◌≤◌, ◌≡◌, refl, String, List, [], ◌∷◌, ◌++◌, ltb,
  if◌then◌else◌, arith, inl, inr, Bool-cases,
}
use ananke.Int.{pos, ltb_ℤ}
use ananke.Canonical.{write_runes, compare_utf16}
use ananke.Grill.Patterns.{codes, number}

mutual
  pub data Json : Type 0 where
    null : Json
    text : String → Json
    integer : ℕ → Json
    texts : List String → Json
    object : Fields → Json

  pub data Fields : Type 0 where
    no_fields : Fields
    field : String → Json → Fields → Fields

-- strconv.FormatInt of a number that is not negative; the fuel is the number itself.
unfoldable pub digits : ℕ → ℕ → List ℕ
digits zero n = (48 + n) ∷ []
digits (suc fuel) n =
    let rest = digits fuel (n / 10) in
    if ltb n 10 then (48 + n) ∷ [] else rest ++ (48 + n % 10) ∷ []

unfoldable pub format_int : ℕ → List ℕ
unfolding digits
format_int n = digits n n

unfoldable pub append_text : String → List ℕ
append_text s = 34 ∷ write_runes (codes s) ++ 34 ∷ []

unfoldable pub append_more : List String → List ℕ
unfolding append_text
append_more [] = 93 ∷ []
append_more (s ∷ ss) = 44 ∷ append_text s ++ append_more ss

unfoldable pub append_texts : List String → List ℕ
unfolding append_more append_text
append_texts [] = 91 ∷ 93 ∷ []
append_texts (s ∷ ss) = 91 ∷ append_text s ++ append_more ss

-- A key of an object, and what is written for the key and its value.
pub record Member : Type 0 where
  pub key : String
  pub written : List ℕ

-- sort.Slice over the keys, in the order of their UTF-16 units.
unfoldable pub insert_member : Member → List Member → List Member
insert_member m [] = m ∷ []
insert_member m (n ∷ ns) =
    let rest = insert_member m ns in
    if ltb_ℤ (compare_utf16 (codes n.key) (codes m.key)) (pos 0) then n ∷ rest else m ∷ n ∷ ns

unfoldable pub sort_members : List Member → List Member
unfolding insert_member
sort_members [] = []
sort_members (m ∷ ms) = insert_member m (sort_members ms)

unfoldable pub join_members : List Member → List ℕ
join_members [] = []
join_members (m ∷ []) = m.written
join_members (m ∷ n ∷ ms) = m.written ++ 44 ∷ join_members (n ∷ ms)

unfoldable mutual
  unfolding append_text append_texts format_int sort_members join_members

  pub canonical_json : Json → List ℕ
  canonical_json null = 110 ∷ 117 ∷ 108 ∷ 108 ∷ []
  canonical_json (text s) = append_text s
  canonical_json (integer n) = format_int n
  canonical_json (texts ss) = append_texts ss
  canonical_json (object fs) = 123 ∷ join_members (sort_members (members fs)) ++ 125 ∷ []

  pub members : Fields → List Member
  members no_fields = []
  members (field k v fs) =
      record { key = k; written = append_text k ++ 58 ∷ canonical_json v } ∷ members fs

number-append : (a d : ℕ) (ds : List ℕ) → number a (ds ++ d ∷ []) ≡ number a ds * 10 + (d - 48)
unfolding number
number-append a d [] = refl
number-append a d (c ∷ ds) = number-append (a * 10 + (c - 48)) d ds

number-digits : (fuel n : ℕ) → n ≤ fuel → number 0 (digits fuel n) ≡ n
unfolding number digits
number-digits zero n h = omega arith
number-digits (suc fuel) n h = elim (Bool-cases (ltb n 10)) [
  | inl t ↦ rw t (omega arith)
  | inr f ↦
      rw
        (
          f,
          number-append 0 (48 + n % 10) (digits fuel (n / 10)),
          number-digits fuel (n / 10) (ground (arith, f, h)),
        )
        (omega arith)
]

-- The decimal digits that are written for a number, read from the first to the last, give the number
-- back.
pub number-format_int : (n : ℕ) → number 0 (format_int n) ≡ n
unfolding format_int
number-format_int n = number-digits n n (omega arith)
