-- ===== src/Schema/Opening.antt =====
-- What opening a database with any history of schema versions does.
use ananke.Prelude.{
  ℕ, suc, zero, ◌+◌, ◌≤◌, ◌≡◌, refl, ap, ◌∙◌, subst, ◌⊎◌, inl, inr, List, [], ◌∷◌, ◌++◌, arith,
}
use ananke.Int.{ℤ, pos}
use ananke.Schema.{
  SchemaError, Checked, ok, err, migrations, definitions_head, place, ordered, check_version,
  scan_history, validate_history,
}

-- from, from + 1, …, k of them.
abbrev pub versions : ℕ → ℕ → List ℤ
versions from zero = []
versions from (suc k) = pos from ∷ versions (suc from) k

check_version_exact :
    (head current n : ℕ) (v : ℤ)
    → check_version head (suc current) v ≡ ok n
    → (v ≡ pos (suc current)) × (n ≡ suc current) × (suc current ≤ head)
unfolding check_version
check_version_exact head current n v h = ground arith

Checked-cases {ℓ} :
    {A : Type ℓ} (m : Checked A) → ((a : A) × (m ≡ ok a)) ⊎ ((e : SchemaError) × (m ≡ err e))
Checked-cases (ok a) = inl (a, refl)
Checked-cases (err e) = inr (e, refl)

-- The loop accepts only an unbroken run of versions up to the head.
scan_history-versions :
    (head current n : ℕ) (vs : List ℤ)
    → current ≤ head
    → scan_history head current vs ≡ ok n
    → (k : ℕ) × (vs ≡ versions (suc current) k) × (n ≡ current + k) × (n ≤ head)
unfolding scan_history
scan_history-versions head current n [] c h = (0, refl, ground arith, ground arith)
scan_history-versions head current n (v ∷ vs) c h =
    elim (Checked-cases (check_version head (suc current) v)) [
      | inr (e, bad) ↦ cc (bad, h)
      | inl (m, good) ↦
          let (w, e, below) = check_version_exact head current m v good in
          let (k, list, sum, low) =
            scan_history-versions head (suc current) n vs below (ground (arith, good, e)) in
          (suc k, ground arith, omega arith, low)
    ]

versions_scan :
    (head current k : ℕ)
    → current + k ≤ head
    → scan_history head current (versions (suc current) k) ≡ ok (current + k)
unfolding scan_history check_version
versions_scan head current zero h = ap ok (omega arith)
versions_scan head current (suc k) h = ground (arith, versions_scan head (suc current) k)

migrations-head : definitions_head 0 0 migrations ≡ ok 15
unfolding definitions_head
migrations-head = refl

-- A history of schema versions is accepted as version n exactly if its versions, put in order, are
-- 1 to n with none missing, twice or unknown to this program.
pub validate_history_exact :
    (history : List ℤ) (n : ℕ)
    → (validate_history migrations history ≡ ok n → (ordered history ≡ versions 1 n) × (n ≤ 15))
      × ((ordered history ≡ versions 1 n) × (n ≤ 15) → validate_history migrations history ≡ ok n)
unfolding validate_history
validate_history_exact history n = (
  λ h.
      let (k, list, sum, low) =
        scan_history-versions 15 0 n (ordered history) (omega arith)
          (ground (arith, migrations-head)) in
      let e : k ≡ n = omega arith in (list ∙ ap (versions 1) e, low),
  λ (list, low). ground (arith, migrations-head, versions_scan 15 0 n),
)

place-versions : (from k : ℕ) → place (pos from) (versions (suc from) k) ≡ versions from (suc k)
unfolding place
place-versions from zero = refl
place-versions from (suc k) = ground arith

pub ordered-versions : (from k : ℕ) → ordered (versions from k) ≡ versions from k
unfolding ordered
ordered-versions from zero = refl
ordered-versions from (suc k) =
    ap (place (pos from)) (ordered-versions (suc from) k) ∙ place-versions from k

pub versions_snoc : (from k : ℕ) → versions from k ++ pos (from + k) ∷ [] ≡ versions from (suc k)
versions_snoc from zero = ap (λ n. pos n ∷ []) (omega arith)
versions_snoc from (suc k) = ap (◌∷◌ (pos from)) (
    subst (λ n. versions (suc from) k ++ pos n ∷ [] ≡ versions (suc from) (suc k)) (omega arith)
      (versions_snoc (suc from) k))
