-- ===== src/RepairJournal/Attempts.antt =====
-- The claims of one attempt.
use mathlib.Core.List.{append_assoc, Permᴰ}
use ananke.Prelude.{
  String, ◌≡◌, subst, inl, inr, true, false, ◌&&◌, List, [], ◌∷◌, ◌++◌, arith, ◌==◌, eq_iff,
  Bool-cases, keep,
}
use ananke.Int.{pos, ◌≤ℤ◌, eqb_ℤ}
use ananke.Table.Sort.{
  StrictlyAscending, Absent, Distinct, order_by-StrictlyAscending, order_by-Perm,
}
use ananke.RepairJournal.Claims.{ClaimEntry, Codec, exists}
use ananke.RepairJournal.{of_attempt, sequence_key, get_claims_for_attempt}
use ananke.RepairJournal.Calls.{Call, run_calls, empty}
use ananke.RepairJournal.Invariant.{Chained, run_calls-Chained}
use ananke.Prelude.{exists-append}

module _ (codec : Codec) where
  -- A claim that stands among the earlier ones shares its sequence with no later one of its attempt.
  Chained-Absent :
      (attempt : String) (u : ClaimEntry) (before between es : List ClaimEntry)
      → u.attempt_hash ≡ attempt
      → pos 1 ≤ℤ u.sequence
      → Chained codec (before ++ u ∷ between) es
      → Absent (sequence_key codec) (sequence_key codec u) (keep (of_attempt codec attempt) es)
  unfolding exists
  Chained-Absent attempt u before between [] a l k = tt
  Chained-Absent attempt u before between (e ∷ es) a l k =
      let rest =
        Chained-Absent attempt u before (between ++ e ∷ []) es a l
          (subst (λ s. Chained codec s es) (append_assoc before (u ∷ between) (e ∷ [])) k.1) in
      elim (Bool-cases (of_attempt codec attempt e)) [
        | inr f ↦ rw f rest
        | inl t ↦
            let apart : (u.attempt_hash == e.attempt_hash && eqb_ℤ u.sequence e.sequence) ≡ false =
              ground (
                arith,
                exists-append (λ u. u.attempt_hash == e.attempt_hash && eqb_ℤ u.sequence e.sequence)
                    before (u ∷ between),
                k.0.new_sequence,
              ) in
            let home : (u.attempt_hash == e.attempt_hash) ≡ true =
              ground (
                arith,
                a,
                t,
                eq_iff e.attempt_hash attempt,
                eq_iff u.attempt_hash e.attempt_hash,
              ) in
            let later = k.0.at_least in rw t (ground (arith, apart, home, l, later), rest)
      ]

  Chained-Distinct :
      (attempt : String) (seen es : List ClaimEntry)
      → Chained codec seen es
      → Distinct (sequence_key codec) (keep (of_attempt codec attempt) es)
  Chained-Distinct attempt seen [] k = tt
  Chained-Distinct attempt seen (e ∷ es) k =
      let rest = Chained-Distinct attempt (seen ++ e ∷ []) es k.1 in
      elim (Bool-cases (of_attempt codec attempt e)) [
        | inr f ↦ rw f rest
        | inl t ↦ rw t (
          Chained-Absent attempt e seen [] es (ground (arith, eq_iff e.attempt_hash attempt))
              k.0.at_least k.1,
          rest,
        )
      ]

  -- After any history of calls on an empty journal, GetClaimsForAttempt returns exactly the recorded
  -- claims of the attempt, each once, in strictly ascending order of their sequence.
  pub get_claims_for_attempt_exact :
      (cs : List Call) (attempt : String)
      → Permᴰ
          (get_claims_for_attempt codec attempt (run_calls codec cs empty))
          (keep (of_attempt codec attempt) (run_calls codec cs empty).claims)
        × StrictlyAscending
            (sequence_key codec)
            (get_claims_for_attempt codec attempt (run_calls codec cs empty))
  unfolding get_claims_for_attempt
  get_claims_for_attempt_exact cs attempt =
      let claims = (run_calls codec cs empty).claims in
      (
        order_by-Perm (sequence_key codec) (keep (of_attempt codec attempt) claims),
        order_by-StrictlyAscending (sequence_key codec) (keep (of_attempt codec attempt) claims)
            (Chained-Distinct attempt [] claims (run_calls-Chained codec cs)),
      )
