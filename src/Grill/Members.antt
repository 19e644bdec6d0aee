-- ===== src/Grill/Members.antt =====
-- Which classes stand in the lists that internal/store/grill.go builds.
use text.Mathlib.TextLemmas.{append_cancel_left}
use ananke.Prelude.{
  ℕ, suc, zero, String, ◌≡◌, refl, sym, ap, subst, ◌∙◌, inl, inr, Bool, true, ◌&&◌, ◌||◌, List, [],
  ◌∷◌, ◌++◌, map, ◌==◌, eq_iff, eq_refl, Bool-cases, keep, take, arith,
}
use ananke.Table.Sort.{place, order_by}
use ananke.Grill.Rules.{GrillRule, grill_question_id, member, grill_rules, grill_rule_triggered}
use ananke.Grill.{classes}
use ananke.Grill.Declarations.{GrillInput}

question_id-eq : (c d : String) → (grill_question_id c == grill_question_id d) ≡ (c == d)
question_id-eq c d = elim (Bool-cases (c == d)) [
  | inl t ↦
      subst (λ x. (grill_question_id c == grill_question_id x) ≡ (c == x)) ((eq_iff c d).0 t)
        (eq_refl (grill_question_id c) ∙ sym (eq_refl c))
  | inr f ↦ elim (Bool-cases (grill_question_id c == grill_question_id d)) [
    | inr g ↦ g ∙ sym f
    | inl g ↦ ground (
      arith,
      f,
      eq_iff c d,
      append_cancel_left "grill_question_" c d
          ((eq_iff (grill_question_id c) (grill_question_id d)).0 g),
    )
  ]
]

pub member-question_id :
    (c : String) (ds : List String)
    → member (grill_question_id c) (map grill_question_id ds) ≡ member c ds
unfolding member
member-question_id c [] = refl
member-question_id c (d ∷ ds) = ground (arith, question_id-eq c d, member-question_id c ds)

pub member-keep :
    (c : String) (q : String → Bool) (rs : List GrillRule)
    → member c (classes (keep (λ r. q r.class) rs)) ≡ (member c (classes rs) && q c)
unfolding member
member-keep c q [] = refl
member-keep c q (r ∷ rs) =
    let rest = member-keep c q rs in
    elim (Bool-cases (c == r.class)) [
      | inr f ↦ ground (arith, rest, f)
      | inl t ↦
          let same : q r.class ≡ q c = ap q (sym ((eq_iff c r.class).0 t)) in
          ground (arith, rest, t, same)
    ]

pub member-append :
    (c : String) (rs ss : List GrillRule)
    → member c (classes (rs ++ ss)) ≡ (member c (classes rs) || member c (classes ss))
unfolding member
member-append c [] ss = refl
member-append c (r ∷ rs) ss = ground (arith, member-append c rs ss)

member-place :
    (key : GrillRule → ℕ) (c : String) (r : GrillRule) (rs : List GrillRule)
    → member c (classes (place key r rs)) ≡ (c == r.class || member c (classes rs))
unfolding member place
member-place key c r [] = refl
member-place key c r (s ∷ rs) = ground (arith, member-place key c r rs)

pub member-order_by :
    (key : GrillRule → ℕ) (c : String) (rs : List GrillRule)
    → member c (classes (order_by key rs)) ≡ member c (classes rs)
unfolding member order_by
member-order_by key c [] = refl
member-order_by key c (r ∷ rs) =
    ground (arith, member-place key c r (order_by key rs), member-order_by key c rs)

pub member-take :
    (n : ℕ) (c : String) (rs : List GrillRule)
    → member c (classes (take n rs)) ≡ true
    → member c (classes rs) ≡ true
unfolding member
member-take zero c rs h = ground arith
member-take (suc n) c [] h = ground arith
member-take (suc n) c (r ∷ rs) h = elim (Bool-cases (c == r.class)) [
  | inl t ↦ ground arith
  | inr f ↦ ground (arith, f, member-take n c rs (ground arith))
]

-- A class that is not in the table never asks.
pub triggered-member :
    (input : GrillInput) (c : String)
    → (member c (classes grill_rules) && grill_rule_triggered input c)
      ≡ grill_rule_triggered input c
unfolding member grill_rule_triggered
triggered-member input c = ground arith
