-- ===== src/RepairJournal/Calls.antt =====
-- The operations of the supervisor's journal as one type, and a history of calls; one that fails is
-- rolled back.
use ananke.Prelude.{ℕ, String, List, [], ◌∷◌}
use ananke.RepairJournal.Claims.{Claim, BootEpoch, Journal, Codec, Result, ok, ◌>>=◌, after}
use ananke.RepairJournal.{
  record_boot_epoch, claim_phase, mark_launched, mark_prior_epoch_nonterminal,
}

pub data Call : Type 0 where
  boot : BootEpoch → Call
  claim : Claim → String → String → ℕ → Call
  launch : String → String → String → Claim → String → String → ℕ → Call
  recover : String → ℕ → Call

module _ (codec : Codec) where
  unfoldable pub call : Call → Journal → Result Journal
  call (boot epoch) j = record_boot_epoch codec epoch j
  call (claim c id hash now) j = claim_phase codec c id hash now j >>= λ r. ok r.1
  call (launch claim_hash event_hash status c id hash now) j =
      mark_launched codec claim_hash event_hash status c id hash now j
  call (recover current now) j = mark_prior_epoch_nonterminal codec current now j

  unfoldable pub run_calls : List Call → Journal → Journal
  run_calls [] j = j
  run_calls (c ∷ cs) j = run_calls cs (after j (call c j))

unfoldable pub empty : Journal
empty = record { epochs = []; claims = []; terminals = [] }
