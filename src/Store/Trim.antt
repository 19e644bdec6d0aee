-- ===== src/Store/Trim.antt =====
-- strings.TrimSpace, which internal/store/outbox.go applies to a diagnostic.
use Prim.Native.Char.{code}
use Prim.Native.String.{[] as []ˢ, ◌∷◌ as ◌∷ˢ◌}
use ananke.Prelude.{ℕ, String, ◌≡◌, refl, Bool, true, ◌&&◌, ◌||◌, leb, eqb, ◌==◌, if◌then◌else◌}

-- unicode.IsSpace
abbrev is_space : ℕ → Bool
is_space c =
    leb 9 c && leb c 13
    || eqb c 32
    || eqb c 133
    || eqb c 160
    || eqb c 5760
    || leb 8192 c && leb c 8202
    || eqb c 8232
    || eqb c 8233
    || eqb c 8239
    || eqb c 8287
    || eqb c 12288

trim_left : String → String
trim_left []ˢ = []ˢ
trim_left (c ∷ˢ s) = let rest = trim_left s in if is_space (code c) then rest else c ∷ˢ s

trim_right : String → String
trim_right []ˢ = []ˢ
trim_right (c ∷ˢ s) =
    let rest = trim_right s in if rest == []ˢ && is_space (code c) then []ˢ else c ∷ˢ rest

unfoldable pub trim_space : String → String
unfolding trim_left trim_right
trim_space s = trim_right (trim_left s)

trimmed : trim_space " \t worker lost\n" == "worker lost" ≡ true
unfolding trim_space
trimmed = refl
