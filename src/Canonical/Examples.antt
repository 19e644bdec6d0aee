-- ===== src/Canonical/Examples.antt =====
-- Strings and keys of concrete JSON values.
use ananke.Prelude.{ℕ, ◌≡◌, refl, some, List, [], ◌∷◌, ◌++◌}
use ananke.Prelude.Fallible.{ok}
use ananke.Int.{pos, negsuc}
use ananke.Canonical.{
  write_rune, write_runes, any_surrogate, append_canonical_string, units_of, encode, compare_units,
  compare_utf16,
}
use ananke.Canonical.Strings.{read, plain, append_canonical_string-read}
use ananke.Canonical.Keys.{neg, compare_utf16_total}

-- A line feed, a control character, a quote and a letter.
abbrev line : List ℕ
line = 10 ∷ 31 ∷ 34 ∷ 97 ∷ []

abbrev line_written : List ℕ
line_written = 34 ∷ 92 ∷ 110 ∷ 92 ∷ 117 ∷ 48 ∷ 48 ∷ 49 ∷ 102 ∷ 92 ∷ 34 ∷ 97 ∷ 34 ∷ []

line-written : append_canonical_string (some line) ≡ ok line_written
unfolding append_canonical_string any_surrogate write_runes write_rune
line-written = refl

append_canonical_string-read_example :
    (rs : List ℕ) × (quoted : List ℕ) × (some line ≡ some rs)
    × (line_written ≡ 34 ∷ quoted)
    × ((rest : List ℕ) → read plain (quoted ++ rest) ≡ some (rs, rest))
append_canonical_string-read_example =
    append_canonical_string-read (some line) line_written line-written

-- U+1F600 stands before U+E000 in UTF-16, and after it by code points.
abbrev face : List ℕ
face = 128512 ∷ []

abbrev private_use : List ℕ
private_use = 57344 ∷ []

face_first : compare_utf16 face private_use ≡ negsuc 0
unfolding compare_utf16 compare_units encode units_of
face_first = refl

compare_utf16_total_example :
    (compare_utf16 private_use face ≡ neg (compare_utf16 face private_use))
    × (compare_utf16 face private_use ≡ pos 0 → face ≡ private_use)
    × (compare_utf16 face private_use ≡ negsuc 0
        → compare_utf16 private_use (57345 ∷ []) ≡ negsuc 0
        → compare_utf16 face (57345 ∷ []) ≡ negsuc 0)
compare_utf16_total_example =
    compare_utf16_total face private_use (57345 ∷ []) (refl, tt) (refl, tt)
