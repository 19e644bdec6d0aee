-- ===== src/RepairJournal/Examples.antt =====
-- Two phases of one attempt, and the boot after them, through the theorems on
-- internal/repairsupervisor/journal.go.
use Prim.Native.String.{◌++◌ as ◌<>◌}
use mathlib.Core.List.{Permᴰ}
use ananke.Prelude.{◌≡◌, refl, false, none, some, List, [], ◌∷◌, ◌++◌, arith, keep, eq_iff}
use ananke.Int.{pos}
use ananke.Table.Sort.{StrictlyAscending}
use ananke.RepairJournal.Claims.{
  Claim, ClaimEntry, EventBody, Journal, Codec, ok, err, journal_conflict, find, exists,
  phase_by_sequence, pred_ℤ, is_phase,
}
use ananke.RepairJournal.{
  compute_journal_head_hash, of_attempt_phase, load_claim_by_attempt_phase, record_boot_epoch,
  refuses, predecessor, new_entry, is_malformed, claim_phase, insert_terminal, mark_launched,
  is_orphan, waiting_event, mark_all, mark_prior_epoch_nonterminal, of_attempt, sequence_key,
  get_claims_for_attempt,
}
use ananke.RepairJournal.Calls.{Call, boot, claim, launch, recover, call, run_calls, empty}
use ananke.RepairJournal.Invariant.{Chained, run_calls-Chained}
use ananke.RepairJournal.Replay.{claim_phase_replayed, claim_phase_conflicts}
use ananke.RepairJournal.Recovery.{mark_prior_epoch_nonterminal_settles, waiting}
use ananke.RepairJournal.Recovery.Success.{NewHashes, mark_prior_epoch_nonterminal_succeeds}
use ananke.RepairJournal.Attempts.{get_claims_for_attempt_exact}

-- What a run of the operations on a concrete journal has to open.
evaluation : Unit {0}
unfolding call claim_phase compute_journal_head_hash empty exists find insert_terminal is_malformed
    is_orphan is_phase load_claim_by_attempt_phase mark_all mark_launched
    mark_prior_epoch_nonterminal new_entry of_attempt_phase phase_by_sequence pred_ℤ predecessor
    record_boot_epoch refuses run_calls waiting_event
evaluation = tt

-- An encoding that shows the fields that differ here, and a hash that shows what it hashes.
abbrev plain_codec : Codec
plain_codec = record {
  claim_json = λ (c : Claim). some (c.claim_hash <> (" " <> c.claim_id));
  event_json = λ (b : EventBody). some (b.claim_hash <> (" " <> b.terminal_status));
  sha256 = λ s. s;
}

abbrev first : Claim
first = record {
  claim_hash = "h1";
  claim_id = "c1";
  phase = "materialization_claim";
  sequence = pos 1;
  attempt_hash = "a";
  attempt_number = pos 1;
  attempt_cap = pos 3;
  other = [];
}

abbrev second : Claim
second = record first {
  claim_hash = "h2";
  claim_id = "c2";
  phase = "adapter_claim";
  sequence = pos 2;
}

abbrev rival : Claim
rival = record first { claim_hash = "h9"; claim_id = "c9" }

abbrev history : List Call
history =
    boot (record { boot_epoch_id = "b1"; boot_epoch_hash = "e1"; started_at = 1 })
    ∷ claim first "b1" "e1" 2
    ∷ launch "h1" "t1" "completed" first "b1" "e1" 3
    ∷ claim second "b1" "e1" 4
    ∷ []

abbrev reached : Journal
reached = run_calls plain_codec history empty

run_calls-Chained_example : Chained plain_codec [] reached.claims
run_calls-Chained_example = run_calls-Chained plain_codec history

get_claims_for_attempt_exact_example :
    Permᴰ
      (get_claims_for_attempt plain_codec "a" reached)
      (keep (of_attempt plain_codec "a") reached.claims)
    × StrictlyAscending (sequence_key plain_codec) (get_claims_for_attempt plain_codec "a" reached)
get_claims_for_attempt_exact_example = get_claims_for_attempt_exact plain_codec history "a"

abbrev booted : Journal
booted =
    run_calls plain_codec
      (boot (record { boot_epoch_id = "b1"; boot_epoch_hash = "e1"; started_at = 1 }) ∷ []) empty

abbrev first_entry : ClaimEntry
first_entry = new_entry plain_codec first "b1" "e1" none "h1 c1" 2

abbrev granted : Journal
granted = run_calls plain_codec (claim first "b1" "e1" 2 ∷ []) booted

first-granted : claim_phase plain_codec first "b1" "e1" 2 booted ≡ ok (first_entry, granted)
unfolding evaluation
first-granted = refl

abbrev later_calls : List Call
later_calls = claim second "b1" "e1" 4 ∷ recover "b2" 5 ∷ []

claim_phase_replayed_example :
    claim_phase plain_codec first "b2" "e2" 9 (run_calls plain_codec later_calls granted)
    ≡ ok (first_entry, run_calls plain_codec later_calls granted)
claim_phase_replayed_example =
    claim_phase_replayed plain_codec first "b1" "e1" "b2" "e2" 2 9 booted granted first_entry
      later_calls first-granted

rival_formed : is_malformed plain_codec rival ≡ false
unfolding evaluation
rival_formed = refl

claim_phase_conflicts_example :
    claim_phase plain_codec rival "b2" "e2" 9 (run_calls plain_codec later_calls granted)
    ≡ err journal_conflict
claim_phase_conflicts_example =
    claim_phase_conflicts plain_codec first rival "b1" "e1" "b2" "e2" 2 9 booted granted first_entry
      later_calls first-granted rival_formed refl refl (ground (arith, eq_iff "h9 c9" "h1 c1"))

abbrev recovered : Journal
recovered = run_calls plain_codec (recover "b2" 5 ∷ []) reached

reached-recovered : mark_prior_epoch_nonterminal plain_codec "b2" 5 reached ≡ ok recovered
unfolding evaluation
reached-recovered = refl

mark_prior_epoch_nonterminal_settles_example :
    (recovered.claims ≡ reached.claims)
    × (recovered.terminals
        ≡ reached.terminals
          ++ waiting plain_codec 5
              (keep (is_orphan plain_codec "b2" reached.terminals) reached.claims))
    × (keep (is_orphan plain_codec "b2" recovered.terminals) recovered.claims ≡ [])
    × (mark_prior_epoch_nonterminal plain_codec "b2" 8 recovered ≡ ok recovered)
mark_prior_epoch_nonterminal_settles_example =
    mark_prior_epoch_nonterminal_settles plain_codec "b2" 5 8 reached recovered reached-recovered

reached-NewHashes :
    NewHashes plain_codec 5 reached.terminals
      (keep (is_orphan plain_codec "b2" reached.terminals) reached.claims)
unfolding evaluation
reached-NewHashes = (refl, tt)

mark_prior_epoch_nonterminal_succeeds_example :
    (j' : Journal) × (mark_prior_epoch_nonterminal plain_codec "b2" 5 reached ≡ ok j')
mark_prior_epoch_nonterminal_succeeds_example =
    mark_prior_epoch_nonterminal_succeeds plain_codec history "b2" 5 reached-NewHashes
