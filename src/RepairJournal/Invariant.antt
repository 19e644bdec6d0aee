-- ===== src/RepairJournal/Invariant.antt =====
-- The claims of the supervisor's journal form hash chains, one for each attempt.
use mathlib.Core.List.{append_assoc, append-nil}
use ananke.Prelude.{
  ℕ, String, ◌≡◌, refl, sym, ap, subst, ◌∙◌, ◌⊎◌, inl, inr, true, false, ◌&&◌, Option, none, some,
  List, [], ◌∷◌, ◌++◌, arith, ◌==◌, Option-cases, Bool-cases,
}
use ananke.Int.{pos, ltb_ℤ, ◌≤ℤ◌, eqb_ℤ}
use ananke.RepairJournal.Claims.{
  Claim, ClaimEntry, TerminalEvent, Journal, Codec, Fallible-cases, after, ok, find, exists,
  phase_by_sequence, pred_ℤ, is_phase,
}
use ananke.RepairJournal.{
  compute_journal_head_hash, of_attempt_phase, load_claim_by_attempt_phase, record_boot_epoch,
  refuses, predecessor, head_of, new_entry, is_malformed, claim_phase, insert_terminal,
  mark_launched, mark_all, mark_prior_epoch_nonterminal, waiting_event,
}
use ananke.RepairJournal.Calls.{Call, boot, claim, launch, recover, call, run_calls, empty}

module _ (codec : Codec) where
  -- How a claim continues those before it: it is the first with its hash, its id, its phase and its
  -- sequence in its attempt, and its head hash is chained to that of the claim of the phase before,
  -- or to nothing if it is the first.
  pub record Linked (seen : List ClaimEntry) (e : ClaimEntry) : Type 0 where
    pub at_least : pos 1 ≤ℤ e.sequence
    pub at_most : e.sequence ≤ℤ pos 3
    pub known_phase : is_phase e.phase ≡ true
    pub new_phase : find (of_attempt_phase codec e.attempt_hash e.phase) seen ≡ none
    pub new_hash : exists (λ u. u.claim_hash == e.claim_hash) seen ≡ false
    pub new_id : exists (λ u. u.claim_id == e.claim_id) seen ≡ false
    pub new_sequence :
        exists (λ u. u.attempt_hash == e.attempt_hash && eqb_ℤ u.sequence e.sequence) seen ≡ false
    pub chained :
        e.journal_head_hash
        ≡ compute_journal_head_hash codec e.journal_predecessor_hash e.claim_hash
    pub linked :
        ((ltb_ℤ (pos 1) e.sequence ≡ false) × (e.journal_predecessor_hash ≡ ""))
        ⊎ ((p : ClaimEntry) × (find
                (of_attempt_phase codec e.attempt_hash (phase_by_sequence (pred_ℤ e.sequence)))
                seen
              ≡ some p)
            × (e.journal_predecessor_hash ≡ p.journal_head_hash))

  abbrev pub Chained : List ClaimEntry → List ClaimEntry → Type 0
  Chained seen [] = Unit
  Chained seen (e ∷ es) = Linked seen e × Chained (seen ++ e ∷ []) es

  Chained-append :
      (seen es : List ClaimEntry) (e : ClaimEntry)
      → Chained seen es
      → Linked (seen ++ es) e
      → Chained seen (es ++ e ∷ [])
  Chained-append seen [] e c l = (subst (λ s. Linked s e) (append-nil seen) l, tt)
  Chained-append seen (x ∷ es) e c l = (
    c.0,
    Chained-append (seen ++ x ∷ []) es e c.1
        (subst (λ s. Linked s e) (sym (append_assoc seen (x ∷ []) es)) l),
  )

  predecessor-Linked :
      (c : Claim) (j : Journal) (before : Option ClaimEntry)
      → predecessor codec c j ≡ ok before
      → ((ltb_ℤ (pos 1) c.sequence ≡ false) × (head_of codec before ≡ ""))
        ⊎ ((p : ClaimEntry) × (find
                (of_attempt_phase codec c.attempt_hash (phase_by_sequence (pred_ℤ c.sequence)))
                j.claims
              ≡ some p)
            × (head_of codec before ≡ p.journal_head_hash))
  unfolding predecessor load_claim_by_attempt_phase
  predecessor-Linked c j before h = elim (Bool-cases (ltb_ℤ (pos 1) c.sequence)) [
    | inl later ↦
        elim (Option-cases (
          find (of_attempt_phase codec c.attempt_hash (phase_by_sequence (pred_ℤ c.sequence)))
            j.claims)) [ inl e ↦ ground arith | inr (p, e) ↦ inr (p, e, ground arith) ]
    | inr first ↦ inl (first, ground arith)
  ]

  new_entry-Linked :
      (c : Claim) (id hash json : String) (now : ℕ) (j : Journal) (before : Option ClaimEntry)
      → is_malformed codec c ≡ false
      → load_claim_by_attempt_phase codec c.attempt_hash c.phase j ≡ none
      → predecessor codec c j ≡ ok before
      → refuses codec (new_entry codec c id hash before json now) j ≡ false
      → Linked j.claims (new_entry codec c id hash before json now)
  unfolding is_malformed load_claim_by_attempt_phase refuses new_entry
  new_entry-Linked c id hash json now j before m n p r = record {
    at_least = ground arith;
    at_most = ground arith;
    known_phase = ground arith;
    new_phase = n;
    new_hash = ground arith;
    new_id = ground arith;
    new_sequence = ground arith;
    chained = refl;
    linked = predecessor-Linked c j before p;
  }

  -- A claim that succeeds was there, or it is appended.
  claim_phase-cases :
      (c : Claim) (id hash : String) (now : ℕ) (j j' : Journal) (e : ClaimEntry)
      → claim_phase codec c id hash now j ≡ ok (e, j')
      → (j' ≡ j) ⊎ (Linked j.claims e × (j' ≡ record j { claims = j.claims ++ e ∷ [] }))
  unfolding claim_phase
  claim_phase-cases c id hash now j j' e h =
      elim (Option-cases (load_claim_by_attempt_phase codec c.attempt_hash c.phase j)) [
        | inr (r, f) ↦ inl (ground arith)
        | inl f ↦ elim (Fallible-cases (predecessor codec c j)) [
          | inr (x, p) ↦ ground arith
          | inl (before, p) ↦ elim (Option-cases (codec.claim_json c)) [
            | inl w ↦ ground arith
            | inr (json, w) ↦
                let made : e ≡ new_entry codec c id hash before json now = ground arith in
                inr (
                  subst (Linked j.claims) (sym made) (
                      new_entry-Linked c id hash json now j before (ground arith) f p
                        (ground arith)),
                  ground arith,
                )
          ]
        ]
      ]

  insert_terminal-claims :
      (t : TerminalEvent) (j j' : Journal)
      → insert_terminal codec t j ≡ ok j'
      → j'.claims ≡ j.claims
  unfolding insert_terminal
  insert_terminal-claims t j j' h = ground arith

  mark_launched-claims :
      (claim_hash event_hash status : String) (c : Claim) (id hash : String) (now : ℕ)
      (j j' : Journal)
      → mark_launched codec claim_hash event_hash status c id hash now j ≡ ok j'
      → j'.claims ≡ j.claims
  unfolding mark_launched insert_terminal
  mark_launched-claims claim_hash event_hash status c id hash now j j' h = ground arith

  pub mark_all-claims :
      (cs : List ClaimEntry) (now : ℕ) (j j' : Journal)
      → mark_all codec cs now j ≡ ok j'
      → j'.claims ≡ j.claims
  unfolding mark_all
  mark_all-claims [] now j j' h = ground arith
  mark_all-claims (c ∷ cs) now j j' h =
      elim (Fallible-cases (insert_terminal codec (waiting_event codec c now) j)) [
        | inr (x, e) ↦ ground arith
        | inl (k, e) ↦
            let rest : mark_all codec cs now k ≡ ok j' = ground arith in
            mark_all-claims cs now k j' rest
            ∙ insert_terminal-claims (waiting_event codec c now) j k e
      ]

  -- What a call does to the claims: nothing, or one more that is linked to those before.
  pub call-claims :
      (c : Call) (j j' : Journal)
      → call codec c j ≡ ok j'
      → (j'.claims ≡ j.claims)
        ⊎ ((e : ClaimEntry) × Linked j.claims e × (j'.claims ≡ j.claims ++ e ∷ []))
  unfolding call record_boot_epoch mark_prior_epoch_nonterminal
  call-claims (boot epoch) j j' h = inl (ground arith)
  call-claims (claim c id hash now) j j' h =
      elim (Fallible-cases (claim_phase codec c id hash now j)) [
        | inr (x, e) ↦ ground arith
        | inl ((r, k), e) ↦
            let same : k ≡ j' = ground arith in
            elim (claim_phase-cases c id hash now j k r e) [
              | inl old ↦ inl (ap (λ q. q.claims) (sym same ∙ old))
              | inr (l, new) ↦ inr (r, l, ap (λ q. q.claims) (sym same ∙ new))
            ]
      ]
  call-claims (launch claim_hash event_hash status c id hash now) j j' h =
      inl (mark_launched-claims claim_hash event_hash status c id hash now j j' h)
  call-claims (recover current now) j j' h = inl (mark_all-claims _ now j j' h)

  call-Chained :
      (c : Call) (j : Journal) → Chained [] j.claims → Chained [] (after j (call codec c j)).claims
  call-Chained c j k = elim (Fallible-cases (call codec c j)) [
    | inr (x, e) ↦ subst (λ r. Chained [] (after j r).claims) (sym e) k
    | inl (j', e) ↦
        subst (λ r. Chained [] (after j r).claims) (sym e)
          (elim (call-claims c j j' e) [
            | inl same ↦ subst (Chained []) (sym same) k
            | inr (n, l, more) ↦ subst (Chained []) (sym more) (Chained-append [] j.claims n k l)
          ])
  ]

  run_calls_keeps_Chained :
      (cs : List Call) (j : Journal)
      → Chained [] j.claims
      → Chained [] (run_calls codec cs j).claims
  unfolding run_calls
  run_calls_keeps_Chained [] j k = k
  run_calls_keeps_Chained (c ∷ cs) j k =
      run_calls_keeps_Chained cs (after j (call codec c j)) (call-Chained c j k)

  -- After any history of calls on an empty journal, each claim is linked to those before it: its
  -- sequence is 1, 2 or 3, its phase is known, no earlier claim has its hash, its id, or its attempt
  -- with its phase or its sequence, and its head hash is computed from its predecessor hash, which is
  -- empty for sequence 1 and else the head hash of the earlier claim of the phase before.
  pub run_calls-Chained : (cs : List Call) → Chained [] (run_calls codec cs empty).claims
  unfolding empty
  run_calls-Chained cs = run_calls_keeps_Chained cs empty tt
