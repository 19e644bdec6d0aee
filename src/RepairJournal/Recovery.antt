-- ===== src/RepairJournal/Recovery.antt =====
-- What a new boot epoch does to the claims that earlier epochs left without a terminal event.
pub mod Success
use mathlib.Core.List.{append_assoc, append-nil}
use mathlib.Core.List.{map}
use ananke.Prelude.{
  ℕ, String, ◌≡◌, refl, sym, ap, subst, ◌∙◌, ◌⊎◌, inl, inr, Bool, true, false, ◌&&◌, ◌||◌, not,
  Option, none, some, List, [], ◌∷◌, ◌++◌, arith, ◌==◌, eq_refl, eq_iff, Option-cases, Bool-cases,
  keep, if◌then◌else◌, keep-append,
}
use ananke.Prelude.{exists-append}
use ananke.RepairJournal.Claims.{
  Claim, ClaimEntry, TerminalEvent, Journal, Codec, Result, Error, Fallible-cases, ok, err, exists,
}
use ananke.RepairJournal.{
  is_orphan, waiting_event, insert_terminal, mark_all, mark_prior_epoch_nonterminal,
}
use ananke.RepairJournal.Calls.{Call, run_calls, empty}
use ananke.RepairJournal.Invariant.{run_calls-Chained, Linked, Chained, mark_all-claims}

module _ {ℓ} {A : Type ℓ} (p : A → Bool) where
  pub exists_or :
      (q : A → Bool) (xs : List A) → exists (λ x. p x || q x) xs ≡ (exists p xs || exists q xs)
  unfolding exists
  exists_or q [] = refl
  exists_or q (x ∷ xs) = ground (arith, exists_or q xs)

module _ (codec : Codec) where
  abbrev pub for_claim : ClaimEntry → TerminalEvent → Bool
  for_claim c u = u.claim_hash == c.claim_hash

  -- Every one of the claims has a terminal event.
  abbrev Marked : List TerminalEvent → List ClaimEntry → Type 0
  Marked ts [] = Unit
  Marked ts (c ∷ cs) = (exists (for_claim c) ts ≡ true) × Marked ts cs

  abbrev pub waiting : ℕ → List ClaimEntry → List TerminalEvent
  waiting now cs = map (λ c. waiting_event codec c now) cs

  Marked-waiting :
      (now : ℕ) (ts : List TerminalEvent) (cs : List ClaimEntry) → Marked (ts ++ waiting now cs) cs
  unfolding waiting_event exists
  Marked-waiting now ts [] = tt
  Marked-waiting now ts (c ∷ cs) = (
    ground (arith, exists-append (for_claim c) ts (waiting now (c ∷ cs)), eq_refl c.claim_hash),
    subst (λ us. Marked us cs) (append_assoc ts (waiting_event codec c now ∷ []) (waiting now cs))
        (Marked-waiting now (ts ++ waiting_event codec c now ∷ []) cs),
  )

  Marked-no_orphan :
      (current : String) (ts us : List TerminalEvent) (cs : List ClaimEntry)
      → Marked (ts ++ us) (keep (is_orphan codec current ts) cs)
      → keep (is_orphan codec current (ts ++ us)) cs ≡ []
  unfolding is_orphan
  Marked-no_orphan current ts us [] m = refl
  Marked-no_orphan current ts us (c ∷ cs) m =
      let kept = keep (is_orphan codec current ts) cs in
      let split : (b : Bool)
          → is_orphan codec current ts c ≡ b
          → Marked (ts ++ us) (if b then c ∷ kept else kept) =
        λ b e. subst (λ b. Marked (ts ++ us) (if b then c ∷ kept else kept)) e m in
      elim (Bool-cases (is_orphan codec current ts c)) [
        | inl o ↦
            let settled : is_orphan codec current (ts ++ us) c ≡ false =
              ground (arith, (split true o).0) in
            rw settled (Marked-no_orphan current ts us cs (split true o).1)
        | inr o ↦
            let settled : is_orphan codec current (ts ++ us) c ≡ false =
              ground (arith, o, exists-append (for_claim c) ts us) in
            rw settled (Marked-no_orphan current ts us cs (split false o))
      ]

  mark_all-terminals :
      (cs : List ClaimEntry) (now : ℕ) (j j' : Journal)
      → mark_all codec cs now j ≡ ok j'
      → j'.terminals ≡ j.terminals ++ waiting now cs
  unfolding mark_all insert_terminal
  mark_all-terminals [] now j j' h = ground (arith, append-nil j.terminals)
  mark_all-terminals (c ∷ cs) now j j' h =
      elim (Fallible-cases (insert_terminal codec (waiting_event codec c now) j)) [
        | inr (x, e) ↦ ground arith
        | inl (k, e) ↦
            let rest : mark_all codec cs now k ≡ ok j' = ground arith in
            let one : k.terminals ≡ j.terminals ++ waiting_event codec c now ∷ [] = ground arith in
            mark_all-terminals cs now k j' rest
            ∙ ap (λ ts. ts ++ waiting now cs) one
            ∙ append_assoc j.terminals (waiting_event codec c now ∷ []) (waiting now cs)
      ]

  -- When the recovery of a new boot epoch succeeds, the claims are unchanged, the terminal events
  -- are extended by one waiting_for_human event for each claim of another epoch that had none, no
  -- such claim is left, and recovering again, at any time, changes nothing.
  pub mark_prior_epoch_nonterminal_settles :
      (current : String) (now later : ℕ) (j j' : Journal)
      → mark_prior_epoch_nonterminal codec current now j ≡ ok j'
      → (j'.claims ≡ j.claims)
        × (j'.terminals
            ≡ j.terminals ++ waiting now (keep (is_orphan codec current j.terminals) j.claims))
        × (keep (is_orphan codec current j'.terminals) j'.claims ≡ [])
        × (mark_prior_epoch_nonterminal codec current later j' ≡ ok j')
  unfolding mark_prior_epoch_nonterminal mark_all
  mark_prior_epoch_nonterminal_settles current now later j j' h =
      let cs = keep (is_orphan codec current j.terminals) j.claims in
      let same = mark_all-claims codec cs now j j' h in
      let more = mark_all-terminals cs now j j' h in
      let none_left : keep (is_orphan codec current j'.terminals) j'.claims ≡ [] =
        rw (same, more)
          (Marked-no_orphan current j.terminals (waiting now cs) j.claims
            (Marked-waiting now j.terminals cs)) in
      (same, more, none_left, ap (λ ds. mark_all codec ds later j') none_left)
