-- ===== src/Grill/Partition.antt =====
-- Which questions an evaluation of internal/store/grill.go asks, and what its status says.
use ananke.Prelude.{
  String, ◌≡◌, refl, sym, ap, subst, ◌∙◌, inl, inr, Bool, true, false, ◌&&◌, ◌||◌, not, none, some,
  List, [], ◌∷◌, ◌++◌, map, Bool-cases, keep, take, length, arith, eqb,
}
use ananke.Prelude.Fallible.{ok}
use ananke.Int.{ℤ, pos, leb_ℤ}
use ananke.Table.Sort.{order_by}
use ananke.Grill.Declarations.{GrillInput}
use ananke.Grill.Rules.{GrillRule, grill_rules, grill_question_id, member, grill_rule_triggered}
use ananke.Grill.{
  GrillEvaluation, existing_classes, active_rules, new_limit, classes, budgeted,
  evaluate_grill_pure,
}
use ananke.Grill.Members.{
  member-question_id, member-keep, member-append, member-order_by, member-take, triggered-member,
}
use ananke.Grill.Evaluation.{evaluate_grill_pure-Passed}

-- The class asks: its declaration is missing and it is not waived.
abbrev pub asks : GrillInput → List String → String → Bool
asks input waived c = grill_rule_triggered input c && not (member c waived)

pub member-active :
    (input : GrillInput) (waived : List String) (c : String)
    → member c (classes (active_rules input waived)) ≡ asks input waived c
unfolding active_rules
member-active input waived c = ground (
  arith,
  member-keep c (λ c. grill_rule_triggered input c && not (member c waived)) grill_rules,
  triggered-member input c,
)

abbrev pub deferred : GrillEvaluation → List String
deferred ev = elim ev.deferred_rule_classes [ none ↦ [] | some cs ↦ cs ]

-- Each class that asks is shown or deferred, and not both; the new questions are those that are shown
-- and did not exist.
abbrev pub Partition : GrillInput → List String → List String → GrillEvaluation → String → Type 0
Partition input existing waived ev c =
    ((member (grill_question_id c) ev.shown_question_ids || member c (deferred ev))
      ≡ asks input waived c)
    × ((member (grill_question_id c) ev.shown_question_ids && member c (deferred ev)) ≡ false)
    × (member (grill_question_id c) ev.new_question_ids
        ≡ (member (grill_question_id c) ev.shown_question_ids && not (member c existing)))

pub member-empty :
    (c : String) (rs : List GrillRule) → length rs ≡ 0 → member c (classes rs) ≡ false
unfolding member
member-empty c [] h = refl
member-empty c (r ∷ rs) h = ground arith

abbrev shown_rules : List String → ℤ → List GrillRule → List GrillRule
shown_rules existing prior active =
    let already = keep (λ r. member r.class existing) active in
    let available = keep (λ r. not (member r.class existing)) active in
    order_by (λ r. r.priority) (already ++ take (new_limit prior already available) available)

member-deferred :
    (input : GrillInput) (existing : List String) (prior : ℤ) (active : List GrillRule) (c : String)
    → member c (deferred (budgeted input existing prior active))
      ≡ (member c (classes active) && not (member c (classes (shown_rules existing prior active))))
unfolding budgeted member
member-deferred input existing prior active c = elim (Bool-cases (eqb (length active) 0)) [
  | inl z ↦ rw (z, member-empty c active (ground (arith, z))) refl
  | inr f ↦
      rw f
        (member-keep c (λ c. not (member c (classes (shown_rules existing prior active)))) active)
]

partition_bools :
    (shown deferred new already asked available active old : Bool)
    → already ≡ (active && old)
    → available ≡ (active && not old)
    → shown ≡ (already || asked)
    → deferred ≡ (active && not shown)
    → new ≡ asked
    → (asked ≡ true → available ≡ true)
    → ((shown || deferred) ≡ active) × ((shown && deferred) ≡ false) × (new ≡ (shown && not old))
partition_bools shown deferred new already asked available active old a b c d e f =
    elim (Bool-cases asked) [
      | inl t ↦ let g = f t in (ground arith, ground arith, ground arith)
      | inr t ↦ (ground arith, ground arith, ground arith)
    ]

budgeted-Partition :
    (input : GrillInput) (existing waived : List String) (prior : ℤ) (c : String)
    → Partition input existing waived (budgeted input existing prior (active_rules input waived)) c
unfolding budgeted
budgeted-Partition input existing waived prior c =
    let active = active_rules input waived in
    let already = keep (λ r. member r.class existing) active in
    let available = keep (λ r. not (member r.class existing)) active in
    let k = new_limit prior already available in
    let asked = take k available in
    let shown = shown_rules existing prior active in
    let in_active = member-active input waived c in
    let in_already = member-keep c (λ c. member c existing) active in
    let in_available = member-keep c (λ c. not (member c existing)) active in
    let in_shown : member (grill_question_id c) (map grill_question_id (classes shown))
        ≡ (member c (classes already) || member c (classes asked)) =
      member-question_id c (classes shown)
      ∙ member-order_by (λ r. r.priority) c (already ++ asked)
      ∙ member-append c already asked in
    let in_shown_classes = member-question_id c (classes shown) in
    let in_deferred =
      member-deferred input existing prior active c
      ∙ ap (λ b. b && not (member c (classes shown))) in_active
      ∙ ap (λ b. asks input waived c && not b) (sym in_shown_classes) in
    let in_new = member-question_id c (classes asked) in
    let taken = member-take k c available in
    partition_bools _ _ _ _ _ _ _ _ (in_already ∙ ap (λ b. b && member c existing) in_active)
      (in_available ∙ ap (λ b. b && not (member c existing)) in_active) in_shown in_deferred in_new
      taken

-- When an evaluation succeeds with fewer than 10 earlier questions, every class whose declaration is
-- missing and that is not waived is either shown or deferred, no other class is, and the new
-- questions are those that are shown and are not among the classes of the existing ids.
pub evaluate_grill_pure-Partition :
    (input : GrillInput) (ids : List String) (prior : ℤ) (waived : List String)
    (ev : GrillEvaluation) (c : String)
    → evaluate_grill_pure input ids prior waived ≡ ok ev
    → leb_ℤ (pos 10) prior ≡ false
    → (existing : List String) × (existing_classes ids ≡ ok existing)
      × Partition input existing waived ev c
evaluate_grill_pure-Partition input ids prior waived ev c h l =
    let p = evaluate_grill_pure-Passed input ids prior waived ev h in
    let same : ev ≡ budgeted input p.existing prior (active_rules input waived) =
      ground (arith, l, p.outcome) in
    (
      p.existing,
      p.known,
      subst (λ ev. Partition input p.existing waived ev c) (sym same)
          (budgeted-Partition input p.existing waived prior c),
    )
