-- ===== src/RepairJournal/Recovery/Success.antt =====
-- When the recovery of a new boot epoch succeeds.
use mathlib.Core.List.{append_assoc, append-nil}
use ananke.Prelude.{
  ℕ, String, ◌≡◌, refl, sym, ap, subst, ◌∙◌, inl, inr, Bool, true, false, List, [], ◌∷◌, ◌++◌,
  arith, ◌==◌, Bool-cases, keep, if◌then◌else◌, keep-append,
}
use ananke.RepairJournal.Claims.{ClaimEntry, TerminalEvent, Journal, Codec, ok, exists}
use ananke.RepairJournal.{
  is_orphan, waiting_event, insert_terminal, mark_all, mark_prior_epoch_nonterminal,
}
use ananke.RepairJournal.Calls.{Call, run_calls, empty}
use ananke.RepairJournal.Invariant.{run_calls-Chained, Chained}
use ananke.Prelude.{exists-append}
use ananke.RepairJournal.Recovery.{exists_or, for_claim, waiting}

module _ (codec : Codec) where
  -- No waiting_for_human event of these claims has the hash of an earlier terminal event.
  abbrev pub NewHashes : ℕ → List TerminalEvent → List ClaimEntry → Type 0
  NewHashes now ts [] = Unit
  NewHashes now ts (c ∷ cs) =
      (exists (λ u. u.terminal_event_hash == (waiting_event codec c now).terminal_event_hash) ts
        ≡ false)
      × NewHashes now (ts ++ waiting_event codec c now ∷ []) cs

  waiting-for_claim :
      (current : String) (now : ℕ) (ts : List TerminalEvent) (c : ClaimEntry)
      (seen : List ClaimEntry)
      → exists (λ u. u.claim_hash == c.claim_hash) seen ≡ false
      → exists (for_claim codec c) (waiting codec now (keep (is_orphan codec current ts) seen))
        ≡ false
  unfolding exists waiting_event
  waiting-for_claim current now ts c [] h = refl
  waiting-for_claim current now ts c (d ∷ seen) h =
      let rest : exists (for_claim codec c)
            (waiting codec now (keep (is_orphan codec current ts) seen))
          ≡ false =
        waiting-for_claim current now ts c seen (ground arith) in
      elim (Bool-cases (is_orphan codec current ts d)) [
        | inl o ↦ rw o (ground (arith, h, rest))
        | inr o ↦ rw o rest
      ]

  insert_terminal-waiting :
      (c : ClaimEntry) (now : ℕ) (j : Journal)
      → exists (for_claim codec c) j.terminals ≡ false
      → exists
          (λ u. u.terminal_event_hash == (waiting_event codec c now).terminal_event_hash)
          j.terminals
        ≡ false
      → insert_terminal codec (waiting_event codec c now) j
        ≡ ok (record j { terminals = j.terminals ++ waiting_event codec c now ∷ [] })
  unfolding insert_terminal waiting_event
  insert_terminal-waiting c now j f n = ground (
    arith,
    exists_or (λ u. u.terminal_event_hash == (waiting_event codec c now).terminal_event_hash)
        (for_claim codec c) j.terminals,
  )

  waiting-append :
      (now : ℕ) (cs ds : List ClaimEntry)
      → waiting codec now (cs ++ ds) ≡ waiting codec now cs ++ waiting codec now ds
  waiting-append now [] ds = refl
  waiting-append now (c ∷ cs) ds =
      ap (λ us. waiting_event codec c now ∷ us) (waiting-append now cs ds)

  waiting-keep :
      (now : ℕ) (p : ClaimEntry → Bool) (seen : List ClaimEntry) (c : ClaimEntry) (b : Bool)
      → p c ≡ b
      → waiting codec now (keep p (seen ++ c ∷ []))
        ≡ waiting codec now (keep p seen) ++ waiting codec now (if b then c ∷ [] else [])
  waiting-keep now p seen c b e =
      ap (waiting codec now) (keep-append p seen (c ∷ []))
      ∙ waiting-append now (keep p seen) (keep p (c ∷ []))
      ∙ ap (λ b. waiting codec now (keep p seen) ++ waiting codec now (if b then c ∷ [] else [])) e

  is_orphan-unmarked :
      (current : String) (ts : List TerminalEvent) (c : ClaimEntry)
      → is_orphan codec current ts c ≡ true
      → exists (for_claim codec c) ts ≡ false
  unfolding is_orphan
  is_orphan-unmarked current ts c h = ground arith

  mark_all_rest :
      (current : String) (now : ℕ) (ts : List TerminalEvent) (seen es : List ClaimEntry)
      (j : Journal)
      → Chained codec seen es
      → j.terminals ≡ ts ++ waiting codec now (keep (is_orphan codec current ts) seen)
      → NewHashes now j.terminals (keep (is_orphan codec current ts) es)
      → (j' : Journal) × (mark_all codec (keep (is_orphan codec current ts) es) now j ≡ ok j')
  unfolding mark_all
  mark_all_rest current now ts seen [] j k done n = (j, refl)
  mark_all_rest current now ts seen (c ∷ es) j k done n =
      let p = is_orphan codec current ts in
      elim (Bool-cases (p c)) [
        | inl o ↦
            let w = waiting_event codec c now in
            let n' : NewHashes now j.terminals (c ∷ keep p es) =
              subst (λ b. NewHashes now j.terminals (if b then c ∷ keep p es else keep p es)) o n in
            let k' = record j { terminals = j.terminals ++ w ∷ [] } in
            let free : exists (for_claim codec c) j.terminals ≡ false =
              ap (exists (for_claim codec c)) done
              ∙ exists-append (for_claim codec c) ts (waiting codec now (keep p seen))
              ∙ rw
                  (
                    is_orphan-unmarked current ts c o,
                    waiting-for_claim current now ts c seen k.0.new_hash,
                  )
                  refl in
            let done' : k'.terminals ≡ ts ++ waiting codec now (keep p (seen ++ c ∷ [])) =
              ap (λ us. us ++ w ∷ []) done
              ∙ append_assoc ts (waiting codec now (keep p seen)) (w ∷ [])
              ∙ ap (λ us. ts ++ us) (sym (waiting-keep now p seen c true o)) in
            let one : insert_terminal codec w j ≡ ok k' =
              insert_terminal-waiting c now j free n'.0 in
            let rest = mark_all_rest current now ts (seen ++ c ∷ []) es k' k.1 done' n'.1 in
            rw (o, one) rest
        | inr o ↦
            let n' : NewHashes now j.terminals (keep p es) =
              subst (λ b. NewHashes now j.terminals (if b then c ∷ keep p es else keep p es)) o n in
            let done' : j.terminals ≡ ts ++ waiting codec now (keep p (seen ++ c ∷ [])) =
              done
              ∙ ap (λ us. ts ++ us)
                  (sym (append-nil (waiting codec now (keep p seen)))
                    ∙ sym (waiting-keep now p seen c false o)) in
            let rest = mark_all_rest current now ts (seen ++ c ∷ []) es j k.1 done' n' in rw o rest
      ]

  -- Recovery succeeds on a journal that a history of calls leads to, if the waiting_for_human events
  -- of the claims it finds have hashes that no terminal event has yet, nor an earlier one of them.
  pub mark_prior_epoch_nonterminal_succeeds :
      (cs : List Call) (current : String) (now : ℕ)
      → NewHashes now (run_calls codec cs empty).terminals (
          keep
            (is_orphan codec current (run_calls codec cs empty).terminals)
            (run_calls codec cs empty).claims)
      → (j' : Journal) × (mark_prior_epoch_nonterminal codec current now (run_calls codec cs empty)
          ≡ ok j')
  unfolding mark_prior_epoch_nonterminal
  mark_prior_epoch_nonterminal_succeeds cs current now n =
      let j = run_calls codec cs empty in
      mark_all_rest current now j.terminals [] j.claims j (run_calls-Chained codec cs)
        (sym (append-nil j.terminals)) n
