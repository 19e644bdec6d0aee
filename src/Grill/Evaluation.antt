-- ===== src/Grill/Evaluation.antt =====
-- What a successful evaluation of internal/store/grill.go went through.
use ananke.Prelude.{String, ◌≡◌, subst, inl, inr, false, List, [], ◌∷◌, if◌then◌else◌, arith}
use ananke.Prelude.Fallible.{ok, Fallible-cases}
use ananke.Int.{ℤ, pos, leb_ℤ, ltb_ℤ}
use ananke.Grill.Declarations.{GrillInput, validate_grill_input}
use ananke.Grill.{
  GrillEvaluation, existing_classes, waived_classes, active_rules, budgeted, rewrite_needed,
  evaluate_grill_pure,
}

-- What a successful evaluation went through.
pub record Passed (input : GrillInput) (ids : List String) (prior : ℤ) (waived : List String)
    (ev : GrillEvaluation) : Type 0 where
  pub existing : List String
  pub valid : validate_grill_input input ≡ ok tt
  pub nonnegative : ltb_ℤ prior (pos 0) ≡ false
  pub known : existing_classes ids ≡ ok existing
  pub permitted : waived_classes waived ≡ ok waived
  pub outcome : ev ≡ (
      if leb_ℤ (pos 10) prior
      then rewrite_needed input
      else budgeted input existing prior (active_rules input waived))

waived_classes-eq : (waived out : List String) → waived_classes waived ≡ ok out → out ≡ waived
unfolding waived_classes
waived_classes-eq [] out h = ground arith
waived_classes-eq (c ∷ cs) out h = elim (Fallible-cases (waived_classes cs)) [
  | inr (x, e) ↦ ground arith
  | inl (rest, e) ↦ ground (arith, e, waived_classes-eq cs rest e)
]

pub evaluate_grill_pure-Passed :
    (input : GrillInput) (ids : List String) (prior : ℤ) (waived : List String)
    (ev : GrillEvaluation)
    → evaluate_grill_pure input ids prior waived ≡ ok ev
    → Passed input ids prior waived ev
unfolding evaluate_grill_pure
evaluate_grill_pure-Passed input ids prior waived ev h =
    elim (Fallible-cases (existing_classes ids)) [
      | inr (x, e) ↦ ground arith
      | inl (existing, e) ↦ elim (Fallible-cases (waived_classes waived)) [
        | inr (x, w) ↦ ground arith
        | inl (out, w) ↦
            let same = waived_classes-eq waived out w in
            record {
              existing = existing;
              valid = ground arith;
              nonnegative = ground arith;
              known = e;
              permitted = subst (λ o. waived_classes waived ≡ ok o) same w;
              outcome =
                  subst
                    (λ o. ev ≡ (
                      if leb_ℤ (pos 10) prior
                      then rewrite_needed input
                      else budgeted input existing prior (active_rules input o)))
                    same (ground arith);
            }
      ]
    ]
