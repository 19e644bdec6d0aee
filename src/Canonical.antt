-- ===== src/Canonical.antt =====
-- internal/transportprimitives/canonical.go: how canonical JSON writes a string, and the order of the
-- keys of an object. A Go string is the list of its runes, or none if it is not valid UTF-8.
pub mod Strings
pub mod Keys
pub mod Examples
use ananke.Prelude.{
  ℕ, suc, zero, ◌+◌, ◌-◌, ◌/◌, ◌%◌, Bool, true, false, ◌&&◌, ◌||◌, Option, none, some, List, [],
  ◌∷◌, ◌++◌, leb, ltb, eqb, if◌then◌else◌,
}
use ananke.Prelude.Fallible.{Fallible, ok, err, ◌>>=◌, ◌>>◌, fail_if}
use ananke.Int.{ℤ, pos, negsuc}

pub data CanonicalError : Type 0 where
  not_utf8 unpaired_surrogate : CanonicalError

abbrev pub GoString : Type 0
GoString = Option (List ℕ)

abbrev pub is_surrogate : ℕ → Bool
is_surrogate r = leb 55296 r && leb r 57343

unfoldable pub any_surrogate : List ℕ → Bool
any_surrogate [] = false
any_surrogate (r ∷ rs) = is_surrogate r || any_surrogate rs

-- "0123456789abcdef"[d]
abbrev pub hex_digit : ℕ → ℕ
hex_digit d = if ltb d 10 then 48 + d else 87 + d

-- The cases of the switch, and its default.
unfoldable pub write_rune : ℕ → List ℕ
write_rune r =
    if eqb r 34
    then 92 ∷ 34 ∷ []
    else if eqb r 92
    then 92 ∷ 92 ∷ []
    else if eqb r 8
    then 92 ∷ 98 ∷ []
    else if eqb r 12
    then 92 ∷ 102 ∷ []
    else if eqb r 10
    then 92 ∷ 110 ∷ []
    else if eqb r 13
    then 92 ∷ 114 ∷ []
    else if eqb r 9
    then 92 ∷ 116 ∷ []
    else if ltb r 32
    then 92 ∷ 117 ∷ 48 ∷ 48 ∷ hex_digit (r / 16) ∷ hex_digit (r % 16) ∷ []
    else r ∷ []

unfoldable pub write_runes : List ℕ → List ℕ
write_runes [] = []
write_runes (r ∷ rs) = write_rune r ++ write_runes rs

-- The runes that are written.
unfoldable pub append_canonical_string : GoString → Fallible CanonicalError (List ℕ)
append_canonical_string none = err not_utf8
append_canonical_string (some rs) = do
  fail_if (any_surrogate rs) unpaired_surrogate
  ok (34 ∷ write_runes rs ++ 34 ∷ [])

-- utf16.Encode: a rune of the basic plane is one unit, any other a pair of surrogates, and what is no
-- rune is the replacement character.
unfoldable pub units_of : ℕ → List ℕ
units_of r =
    if is_surrogate r || ltb 1114111 r
    then 65533 ∷ []
    else if ltb r 65536
    then r ∷ []
    else (55296 + (r - 65536) / 1024) ∷ (56320 + (r - 65536) % 1024) ∷ []

unfoldable pub encode : List ℕ → List ℕ
encode [] = []
encode (r ∷ rs) = units_of r ++ encode rs

-- The loop over the units and the comparison of the lengths: -1, 0 or 1.
unfoldable pub compare_units : List ℕ → List ℕ → ℤ
compare_units [] [] = pos 0
compare_units [] (b ∷ bs) = negsuc 0
compare_units (a ∷ rest_a) [] = pos 1
compare_units (a ∷ rest_a) (b ∷ bs) =
    let rest = compare_units rest_a bs in
    if ltb a b then negsuc 0 else if ltb b a then pos 1 else rest

unfoldable pub compare_utf16 : List ℕ → List ℕ → ℤ
compare_utf16 left right = compare_units (encode left) (encode right)
