-- ===== src/Grill/Patterns.antt =====
-- The regular expressions of internal/store/grill.go and of validateIdentifier in
-- internal/store/proposals.go, and the dates that time.Parse accepts, on lists of code points.
use Prim.Native.Char.{code}
use Prim.Native.String.{[] as []ˢ, ◌∷◌ as ◌∷ˢ◌}
use ananke.Prelude.{
  ℕ, ◌+◌, ◌-◌, ◌*◌, ◌%◌, String, Bool, true, false, ◌&&◌, ◌||◌, not, List, [], ◌∷◌, length, take,
  drop, leb, ltb, eqb, if◌then◌else◌,
}

unfoldable pub codes : String → List ℕ
codes []ˢ = []
codes (c ∷ˢ s) = code c ∷ codes s

abbrev pub between : ℕ → ℕ → ℕ → Bool
between low high c = leb low c && leb c high

-- [0-9], [0-9a-f], [a-z] and [a-z0-9_]
abbrev pub is_digit : ℕ → Bool
is_digit c = between 48 57 c

abbrev pub is_hex : ℕ → Bool
is_hex c = is_digit c || between 97 102 c

abbrev pub is_lower : ℕ → Bool
is_lower c = between 97 122 c

abbrev pub is_word : ℕ → Bool
is_word c = is_lower c || is_digit c || eqb c 95

unfoldable pub all : (ℕ → Bool) → List ℕ → Bool
all p [] = true
all p (c ∷ cs) = p c && all p cs

unfoldable pub same_codes : List ℕ → List ℕ → Bool
same_codes [] [] = true
same_codes [] (d ∷ ds) = false
same_codes (c ∷ cs) [] = false
same_codes (c ∷ cs) (d ∷ ds) = eqb c d && same_codes cs ds

-- ^sha256:[0-9a-f]{64}$
unfoldable pub is_hash : String → Bool
is_hash s =
    let cs = codes s in
    same_codes (take 7 cs) (codes "sha256:") && eqb (length cs) 71 && all is_hex (drop 7 cs)

unfoldable pub identifier : List ℕ → Bool
identifier [] = false
identifier (c ∷ cs) = is_lower c && between 2 63 (length cs) && all is_word cs

-- ^[a-z][a-z0-9_]{2,63}$
unfoldable pub is_identifier : String → Bool
unfolding identifier
is_identifier s = identifier (codes s)

-- The number that the digits spell.
unfoldable pub number : ℕ → List ℕ → ℕ
number n [] = n
number n (c ∷ cs) = number (n * 10 + (c - 48)) cs

-- n digits from an offset
abbrev digits : ℕ → ℕ → List ℕ → Bool
digits at n cs = all is_digit (take n (drop at cs))

abbrev field : ℕ → ℕ → List ℕ → ℕ
field at n cs = number 0 (take n (drop at cs))

abbrev char_is : ℕ → ℕ → List ℕ → Bool
char_is at c cs = same_codes (take 1 (drop at cs)) (c ∷ [])

-- Z, or a fraction of one to nine digits and Z
unfoldable pub fraction : List ℕ → Bool
fraction [] = false
fraction (c ∷ cs) =
    if eqb c 46
    then between 2 10 (length cs)
      && all is_digit (take (length cs - 1) cs)
      && char_is (length cs - 1) 90 cs
    else eqb c 90 && eqb (length cs) 0

unfoldable pub is_leap : ℕ → Bool
is_leap year = eqb (year % 4) 0 && (not (eqb (year % 100) 0) || eqb (year % 400) 0)

unfoldable pub days_in : ℕ → ℕ → ℕ
unfolding is_leap
days_in month year =
    if eqb month 2
    then (if is_leap year then 29 else 28)
    else if eqb month 4 || eqb month 6 || eqb month 9 || eqb month 11
    then 30
    else 31

-- ^\d{4}-\d{2}-\d{2}T\d{2}:\d{2}:\d{2}(?:\.\d{1,9})?Z$, with a date and a time of day that exist
unfoldable pub is_timestamp : String → Bool
unfolding fraction days_in
is_timestamp s =
    let cs = codes s in
    digits 0 4 cs
    && char_is 4 45 cs
    && digits 5 2 cs
    && char_is 7 45 cs
    && digits 8 2 cs
    && char_is 10 84 cs
    && digits 11 2 cs
    && char_is 13 58 cs
    && digits 14 2 cs
    && char_is 16 58 cs
    && digits 17 2 cs
    && fraction (drop 19 cs)
    && between 1 12 (field 5 2 cs)
    && between 1 (days_in (field 5 2 cs) (field 0 4 cs)) (field 8 2 cs)
    && ltb (field 11 2 cs) 24
    && ltb (field 14 2 cs) 60
    && ltb (field 17 2 cs) 60
