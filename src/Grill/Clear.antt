-- ===== src/Grill/Clear.antt =====
-- What a clear evaluation of internal/store/grill.go means.
use ananke.Prelude.{
  String, ◌≡◌, ◌≢◌, refl, sym, ap, subst, ◌∙◌, ◌⊎◌, inl, inr, true, false, List, [], ◌∷◌, ◌==◌,
  eq_iff, Bool-cases, length, arith, is_some,
}
use ananke.Prelude.Fallible.{ok, Fallible-cases}
use ananke.Int.{ℤ, pos, leb_ℤ}
use ananke.Grill.Declarations.{GrillInput}
use ananke.Grill.Rules.{member, grill_rule_by_class, rule_by_class, grill_rule_triggered}
use ananke.Grill.{
  GrillEvaluation, clear, waived_classes, can_waive, active_rules, budgeted, rewrite_needed,
  evaluate_grill_pure,
}
use ananke.Grill.Evaluation.{Passed, evaluate_grill_pure-Passed}
use ananke.Grill.Partition.{asks, member-active, member-empty}

waived-can_waive :
    (cs out : List String) (c : String)
    → waived_classes cs ≡ ok out
    → member c cs ≡ true
    → can_waive (grill_rule_by_class c) ≡ true
unfolding waived_classes member
waived-can_waive [] out c h m = ground arith
waived-can_waive (d ∷ cs) out c h m = elim (Fallible-cases (waived_classes cs)) [
  | inr (x, e) ↦ ground arith
  | inl (rest, e) ↦ elim (Bool-cases (c == d)) [
    | inl t ↦
        subst (λ x. can_waive (grill_rule_by_class x) ≡ true) (sym ((eq_iff c d).0 t))
          (ground arith)
    | inr f ↦ waived-can_waive cs rest c e (ground arith)
  ]
]

clear-asks :
    (input : GrillInput) (ids : List String) (prior : ℤ) (waived : List String)
    (ev : GrillEvaluation) (c : String)
    → Passed input ids prior waived ev
    → ev.status ≡ clear
    → asks input waived c ≡ false
unfolding budgeted rewrite_needed
clear-asks input ids prior waived ev c p s = elim (Bool-cases (leb_ℤ (pos 10) prior)) [
  | inl t ↦
      let same : ev ≡ rewrite_needed input = ground (arith, t, p.outcome) in
      let status = ap (λ ev. ev.status) same in ground (arith, status, s)
  | inr f ↦
      let same : ev ≡ budgeted input p.existing prior (active_rules input waived) =
        ground (arith, f, p.outcome) in
      let status = ap (λ ev. ev.status) same in
      let idle : length (active_rules input waived) ≡ 0 = ground (arith, status, s) in
      sym (member-active input waived c) ∙ member-empty c (active_rules input waived) idle
]

-- An evaluation is clear only if the outcome and the acceptance evidence are declared, the scope is
-- declared or waived, destructive or external work is authorized, an adapter runs in an isolated
-- worktree, and both the deadline and the attempt cap are given. No waiver stands in for any but the
-- scope.
pub evaluate_grill_pure-clear :
    (input : GrillInput) (ids : List String) (prior : ℤ) (waived : List String)
    (ev : GrillEvaluation)
    → evaluate_grill_pure input ids prior waived ≡ ok ev
    → ev.status ≡ clear
    → (input.declarations.observable_outcome ≡ "declared")
      × ((input.declarations.scope_compatibility ≡ "declared")
          ⊎ (member "scope_compatibility" waived ≡ true))
      × (input.declarations.acceptance_evidence ≡ "declared")
      × ((input.declarations.destructive_external ≢ "declared")
          ⊎ (input.declarations.local_authorization ≡ "recorded"))
      × ((input.declarations.adapter_mode ≡ "none")
          ⊎ (input.declarations.worktree_isolation ≡ "isolated"))
      × (is_some input.declarations.autonomy.deadline ≡ true)
      × (is_some input.declarations.autonomy.attempt_cap ≡ true)
unfolding grill_rule_triggered grill_rule_by_class rule_by_class
evaluate_grill_pure-clear input ids prior waived ev h s =
    let p = evaluate_grill_pure-Passed input ids prior waived ev h in
    let d = input.declarations in
    let quiet : (c : String) → asks input waived c ≡ false =
      λ c. clear-asks input ids prior waived ev c p s in
    let declared : (c : String)
        → can_waive (grill_rule_by_class c) ≡ false
        → grill_rule_triggered input c ≡ false =
      λ c n. elim (Bool-cases (member c waived)) [
        | inl m ↦ ground (arith, n, waived-can_waive waived waived c p.permitted m)
        | inr m ↦ ground (arith, m, quiet c)
      ] in
    let outcome = declared "observable_outcome" refl in
    let scope = quiet "scope_compatibility" in
    let evidence = declared "acceptance_evidence" refl in
    let external = declared "destructive_external_authorization" refl in
    let isolation = declared "adapter_worktree_isolation" refl in
    let budget = declared "autonomy_budget" refl in
    (
      ground (arith, outcome, eq_iff d.observable_outcome "declared"),
      elim (Bool-cases (d.scope_compatibility == "declared")) [
        | inl t ↦ inl ((eq_iff d.scope_compatibility "declared").0 t)
        | inr f ↦ inr (ground (arith, scope, f))
      ],
      ground (arith, evidence, eq_iff d.acceptance_evidence "declared"),
      elim (Bool-cases (d.destructive_external == "declared")) [
        | inl t ↦ inr (ground (arith, external, t, eq_iff d.local_authorization "recorded"))
        | inr f ↦ inl (ground (arith, f, eq_iff d.destructive_external "declared"))
      ],
      elim (Bool-cases (d.adapter_mode == "none")) [
        | inl t ↦ inl ((eq_iff d.adapter_mode "none").0 t)
        | inr f ↦ inr (ground (arith, isolation, f, eq_iff d.worktree_isolation "isolated"))
      ],
      ground (arith, budget),
      ground (arith, budget),
    )
