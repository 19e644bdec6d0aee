-- ===== src/Grill/Budget.antt =====
-- How many questions an evaluation of internal/store/grill.go asks.
use ananke.Prelude.{
  ℕ, suc, zero, ◌+◌, ◌≤◌, String, ◌≡◌, refl, sym, subst, eqb, ap, ◌∙◌, ◌⊎◌, inl, inr, true, false,
  not, List, [], ◌∷◌, ◌++◌, map, Bool-cases, keep, take, length, length-append, if◌then◌else◌,
  arith, leb,
}
use ananke.Prelude.Fallible.{ok}
use ananke.Int.{ℤ, pos, pos_part, leb_ℤ, ltb_ℤ, diff, ◌≤ℤ◌}
use ananke.Table.Sort.{place, order_by}
use ananke.Grill.Declarations.{GrillInput}
use ananke.Grill.Rules.{GrillRule, grill_question_id, member}
use ananke.Grill.{
  GrillEvaluation, clear, blocked, needs_rewrite, existing_classes, smallest, min_grill,
  active_rules, new_limit, classes, budgeted, rewrite_needed, evaluate_grill_pure,
}
use ananke.Grill.Evaluation.{evaluate_grill_pure-Passed}

length-take : {A : Type 0} (n : ℕ) (xs : List A) → length (take n xs) ≤ n
length-take zero xs = omega arith
length-take (suc n) [] = omega arith
length-take (suc n) (x ∷ xs) = omega (arith, length-take n xs)

smallest-head : (m : ℤ) (vs : List ℤ) → smallest m vs ≤ℤ m
unfolding smallest
smallest-head m [] = omega arith
smallest-head m (v ∷ vs) = ground (arith, smallest-head (if ltb_ℤ v m then v else m) vs)

smallest-next : (m v : ℤ) (vs : List ℤ) → smallest m (v ∷ vs) ≤ℤ v
unfolding smallest
smallest-next m v vs = ground (arith, smallest-head (if ltb_ℤ v m then v else m) vs)

limit_of :
    (z prior : ℤ) (k : ℕ)
    → ltb_ℤ prior (pos 0) ≡ false
    → leb_ℤ (pos 10) prior ≡ false
    → z ≤ℤ pos 5
    → z ≤ℤ diff 10 (pos_part prior)
    → z ≤ℤ diff 5 k
    → (pos_part z ≤ 5)
      × (pos_part prior + pos_part z ≤ 10)
      × ((pos_part z ≡ 0) ⊎ (k + pos_part z ≤ 5))
limit_of z prior k n l a b c = (
  ground arith,
  ground arith,
  elim (Bool-cases (leb k 5)) [ inl t ↦ inr (ground arith) | inr f ↦ inl (ground arith) ],
)

new_limit-bounds :
    (prior : ℤ) (shown available : List GrillRule)
    → ltb_ℤ prior (pos 0) ≡ false
    → leb_ℤ (pos 10) prior ≡ false
    → (new_limit prior shown available ≤ 5)
      × (pos_part prior + new_limit prior shown available ≤ 10)
      × ((new_limit prior shown available ≡ 0)
          ⊎ (length shown + new_limit prior shown available ≤ 5))
unfolding new_limit min_grill smallest
new_limit-bounds prior shown available n l =
    let a = diff 10 (pos_part prior) in
    let b = diff 5 (length shown) in
    let c = pos (length available) in
    limit_of (smallest (pos 5) (a ∷ b ∷ c ∷ [])) prior (length shown) n l
      (smallest-head (pos 5) (a ∷ b ∷ c ∷ [])) (smallest-next (pos 5) a (b ∷ c ∷ []))
      (smallest-next (if ltb_ℤ a (pos 5) then a else pos 5) b (c ∷ []))

length-map : {A B : Type 0} (f : A → B) (xs : List A) → length (map f xs) ≡ length xs
length-map f [] = refl
length-map f (x ∷ xs) = ap suc (length-map f xs)

length-place :
    (key : GrillRule → ℕ) (r : GrillRule) (rs : List GrillRule)
    → length (place key r rs) ≡ suc (length rs)
unfolding place
length-place key r [] = refl
length-place key r (s ∷ rs) = ground (arith, length-place key r rs)

length-order_by : (key : GrillRule → ℕ) (rs : List GrillRule) → length (order_by key rs) ≡ length rs
unfolding order_by
length-order_by key [] = refl
length-order_by key (r ∷ rs) =
    length-place key r (order_by key rs) ∙ ap suc (length-order_by key rs)

length-ids : (rs : List GrillRule) → length (map grill_question_id (classes rs)) ≡ length rs
length-ids rs = length-map grill_question_id (classes rs) ∙ length-map (λ r. r.class) rs

-- The number of the questions that exist and still ask.
unfoldable pub still_asking : GrillInput → List String → List String → ℕ
still_asking input existing waived =
    length (keep (λ r. member r.class existing) (active_rules input waived))

-- The budget: at most 5 new questions, at most 10 with the earlier ones, and at most 5 are shown, or
-- those that exist already and no new one.
abbrev pub Within : ℕ → ℕ → GrillEvaluation → Type 0
Within prior already ev =
    (length ev.new_question_ids ≤ 5)
    × (prior + length ev.new_question_ids ≤ 10)
    × ((length ev.shown_question_ids ≤ 5)
        ⊎ ((length ev.new_question_ids ≡ 0) × (length ev.shown_question_ids ≡ already)))

budgeted-Within :
    (input : GrillInput) (existing : List String) (prior : ℤ) (active : List GrillRule)
    → ltb_ℤ prior (pos 0) ≡ false
    → leb_ℤ (pos 10) prior ≡ false
    → Within
        (pos_part prior)
        (length (keep (λ r. member r.class existing) active))
        (budgeted input existing prior active)
unfolding budgeted
budgeted-Within input existing prior active n l =
    let already = keep (λ r. member r.class existing) active in
    let available = keep (λ r. not (member r.class existing)) active in
    let k = new_limit prior already available in
    let asked = take k available in
    let (five, ten, few) = new_limit-bounds prior already available n l in
    let fits = length-take k available in
    let ids = length-ids asked in
    let shown : length
          (map grill_question_id (classes (order_by (λ r. r.priority) (already ++ asked))))
        ≡ length already + length asked =
      length-ids (order_by (λ r. r.priority) (already ++ asked))
      ∙ length-order_by (λ r. r.priority) (already ++ asked)
      ∙ length-append already asked in
    (
      omega (arith, ids, fits, five),
      omega (arith, ids, fits, ten),
      elim few [
        | inl none_left ↦
            inr (omega (arith, ids, fits, none_left), omega (arith, shown, fits, none_left))
        | inr room ↦ inl (omega (arith, shown, fits, room))
      ],
    )

budgeted-status :
    (input : GrillInput) (existing : List String) (prior : ℤ) (active : List GrillRule)
    → ((budgeted input existing prior active).status ≡ clear)
      ⊎ ((budgeted input existing prior active).status ≡ blocked)
unfolding budgeted
budgeted-status input existing prior active = elim (Bool-cases (eqb (length active) 0)) [
  | inl t ↦ inl (rw t refl)
  | inr f ↦ inr (rw f refl)
]

-- What is asked when 10 questions or more exist, and when there are fewer.
abbrev pub Budget : GrillInput → List String → List String → ℤ → GrillEvaluation → Type 0
Budget input existing waived prior ev =
    ((leb_ℤ (pos 10) prior ≡ true)
      × (ev.status ≡ needs_rewrite)
      × (ev.new_question_ids ≡ [])
      × (ev.shown_question_ids ≡ []))
    ⊎ ((leb_ℤ (pos 10) prior ≡ false)
        × ((ev.status ≡ clear) ⊎ (ev.status ≡ blocked))
        × Within (pos_part prior) (still_asking input existing waived) ev)

-- An evaluation that succeeds with 10 earlier questions or more asks for a rewrite, and neither asks
-- nor shows a question. With fewer it is clear or blocked; it asks at most 5 new questions, which with
-- the earlier ones are at most 10; and it shows at most 5, except that it shows all the questions that
-- exist and still ask, and then asks no new one, when those alone are more.
pub evaluate_grill_pure-Budget :
    (input : GrillInput) (ids : List String) (prior : ℤ) (waived : List String)
    (ev : GrillEvaluation)
    → evaluate_grill_pure input ids prior waived ≡ ok ev
    → (existing : List String) × (existing_classes ids ≡ ok existing)
      × Budget input existing waived prior ev
unfolding rewrite_needed still_asking
evaluate_grill_pure-Budget input ids prior waived ev h =
    let p = evaluate_grill_pure-Passed input ids prior waived ev h in
    (
      p.existing,
      p.known,
      elim (Bool-cases (leb_ℤ (pos 10) prior)) [
        | inl t ↦
            let same : ev ≡ rewrite_needed input = ground (arith, t, p.outcome) in
            inl (
              t,
              ap (λ (e : GrillEvaluation). e.status) same,
              ap (λ (e : GrillEvaluation). e.new_question_ids) same,
              ap (λ (e : GrillEvaluation). e.shown_question_ids) same,
            )
        | inr f ↦
            let active = active_rules input waived in
            let same : ev ≡ budgeted input p.existing prior active = ground (arith, f, p.outcome) in
            subst (Budget input p.existing waived prior) (sym same) (
              inr (
                f,
                budgeted-status input p.existing prior active,
                budgeted-Within input p.existing prior active p.nonnegative f,
              ))
      ],
    )

pub evaluate_grill_pure-limit :
    (input : GrillInput) (ids : List String) (prior : ℤ) (waived : List String)
    (ev : GrillEvaluation)
    → evaluate_grill_pure input ids prior waived ≡ ok ev
    → (length ev.new_question_ids ≡ 0) ⊎ (pos_part prior + length ev.new_question_ids ≤ 10)
evaluate_grill_pure-limit input ids prior waived ev h =
    let (existing, known, budget) = evaluate_grill_pure-Budget input ids prior waived ev h in
    elim budget [
      | inl (full, status, none, shown) ↦ inl (ap length none)
      | inr (room, status, within) ↦ inr within.1
    ]
