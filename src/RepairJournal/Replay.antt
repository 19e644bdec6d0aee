-- ===== src/RepairJournal/Replay.antt =====
-- Claiming a phase of the supervisor's journal again.
use ananke.Prelude.{
  ℕ, String, ◌≡◌, ◌≢◌, refl, sym, ap, subst, ◌∙◌, inl, inr, true, false, Option, some, List, [],
  ◌∷◌, ◌++◌, arith, ◌==◌, eq_refl, eq_iff, Option-cases, Bool-cases,
}
use ananke.Prelude.{find-append, find_last}
use ananke.RepairJournal.Claims.{
  Claim, ClaimEntry, Journal, Codec, journal_conflict, Fallible-cases, after, ok, err, find,
  or_empty,
}
use ananke.RepairJournal.{
  of_attempt_phase, load_claim_by_attempt_phase, predecessor, new_entry, is_malformed, claim_phase,
}
use ananke.RepairJournal.Calls.{Call, call, run_calls}
use ananke.RepairJournal.Invariant.{call-claims}

module _ (codec : Codec) where
  -- The claim stands in the journal under its attempt and phase, with its own JSON.
  record Recorded (c : Claim) (e : ClaimEntry) (j : Journal) : Type 0 where
    formed : is_malformed codec c ≡ false
    stands : load_claim_by_attempt_phase codec c.attempt_hash c.phase j ≡ some e
    same_json : e.claim_json ≡ or_empty (codec.claim_json c)

  new_entry-matches :
      (c : Claim) (id hash json : String) (now : ℕ) (before : Option ClaimEntry)
      → of_attempt_phase codec c.attempt_hash c.phase (new_entry codec c id hash before json now)
        ≡ true
  unfolding of_attempt_phase new_entry
  new_entry-matches c id hash json now before =
      ground (arith, eq_refl c.attempt_hash, eq_refl c.phase)

  claim_phase-Recorded :
      (c : Claim) (id hash : String) (now : ℕ) (j j' : Journal) (e : ClaimEntry)
      → claim_phase codec c id hash now j ≡ ok (e, j')
      → Recorded c e j'
  unfolding claim_phase load_claim_by_attempt_phase new_entry
  claim_phase-Recorded c id hash now j j' e h =
      elim (Option-cases (load_claim_by_attempt_phase codec c.attempt_hash c.phase j)) [
        | inr (r, f) ↦
            let same : (r ≡ e) × (j ≡ j') = ground arith in
            record {
              formed = ground arith;
              stands =
                  subst (λ k. load_claim_by_attempt_phase codec c.attempt_hash c.phase k ≡ some e)
                    same.1 (f ∙ ap some same.0);
              same_json = ground (arith, eq_iff r.claim_json (or_empty (codec.claim_json c)));
            }
        | inl f ↦ elim (Fallible-cases (predecessor codec c j)) [
          | inr (x, p) ↦ ground arith
          | inl (before, p) ↦ elim (Option-cases (codec.claim_json c)) [
            | inl w ↦ ground arith
            | inr (json, w) ↦
                let n = new_entry codec c id hash before json now in
                let made : (n ≡ e) × (record j { claims = j.claims ++ n ∷ [] } ≡ j') =
                  ground arith in
                record {
                  formed = ground arith;
                  stands =
                      subst
                        (λ k. load_claim_by_attempt_phase codec c.attempt_hash c.phase k ≡ some e)
                        made.1
                        (find_last (of_attempt_phase codec c.attempt_hash c.phase) j.claims n f
                            (new_entry-matches c id hash json now before)
                          ∙ ap some made.0);
                  same_json = ap (λ x. x.claim_json) (sym made.0) ∙ ap or_empty (sym w);
                }
          ]
        ]
      ]

  call-Recorded :
      (c : Claim) (e : ClaimEntry) (d : Call) (j : Journal)
      → Recorded c e j
      → Recorded c e (after j (call codec d j))
  unfolding load_claim_by_attempt_phase
  call-Recorded c e d j r = elim (Fallible-cases (call codec d j)) [
    | inr (x, f) ↦ subst (λ q. Recorded c e (after j q)) (sym f) r
    | inl (j', f) ↦
        subst (λ q. Recorded c e (after j q)) (sym f)
          (elim (call-claims codec d j j' f) [
            | inl same ↦ record {
              formed = r.formed;
              stands = ap (find (of_attempt_phase codec c.attempt_hash c.phase)) same ∙ r.stands;
              same_json = r.same_json;
            }
            | inr (n, l, more) ↦ record {
              formed = r.formed;
              stands =
                  ap (find (of_attempt_phase codec c.attempt_hash c.phase)) more
                  ∙ find-append (of_attempt_phase codec c.attempt_hash c.phase) j.claims (n ∷ []) e
                      r.stands;
              same_json = r.same_json;
            }
          ])
  ]

  run_calls-Recorded :
      (c : Claim) (e : ClaimEntry) (ds : List Call) (j : Journal)
      → Recorded c e j
      → Recorded c e (run_calls codec ds j)
  unfolding run_calls
  run_calls-Recorded c e [] j r = r
  run_calls-Recorded c e (d ∷ ds) j r =
      run_calls-Recorded c e ds (after j (call codec d j)) (call-Recorded c e d j r)

  -- A claim that was granted is granted again after any calls, in any boot epoch: ClaimPhase returns
  -- the claim as it was recorded the first time, and leaves the journal alone.
  pub claim_phase_replayed :
      (c : Claim) (id hash id' hash' : String) (now later : ℕ) (j j' : Journal) (e : ClaimEntry)
      (ds : List Call)
      → claim_phase codec c id hash now j ≡ ok (e, j')
      → claim_phase codec c id' hash' later (run_calls codec ds j') ≡ ok (e, run_calls codec ds j')
  unfolding claim_phase
  claim_phase_replayed c id hash id' hash' now later j j' e ds h =
      let r = run_calls-Recorded c e ds j' (claim_phase-Recorded c id hash now j j' e h) in
      rw (r.formed, r.stands, r.same_json, eq_refl (or_empty (codec.claim_json c))) refl

  -- Once a claim is granted, a well-formed claim of the same attempt and phase with another JSON is
  -- a conflict, whatever calls come between.
  pub claim_phase_conflicts :
      (c d : Claim) (id hash id' hash' : String) (now later : ℕ) (j j' : Journal) (e : ClaimEntry)
      (ds : List Call)
      → claim_phase codec c id hash now j ≡ ok (e, j')
      → is_malformed codec d ≡ false
      → d.attempt_hash ≡ c.attempt_hash
      → d.phase ≡ c.phase
      → or_empty (codec.claim_json d) ≢ or_empty (codec.claim_json c)
      → claim_phase codec d id' hash' later (run_calls codec ds j') ≡ err journal_conflict
  unfolding claim_phase
  claim_phase_conflicts c d id hash id' hash' now later j j' e ds h m a p n =
      let r = run_calls-Recorded c e ds j' (claim_phase-Recorded c id hash now j j' e h) in
      let other : (e.claim_json == or_empty (codec.claim_json d)) ≡ false =
        elim (Bool-cases (e.claim_json == or_empty (codec.claim_json d))) [
          | inr f ↦ f
          | inl t ↦ ground (arith, eq_iff e.claim_json (or_empty (codec.claim_json d)), r.same_json)
        ] in
      rw (m, a, p, r.stands, other) refl
