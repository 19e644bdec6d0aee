-- ===== src/RepairJournal.antt =====
-- internal/repairsupervisor/journal.go: the supervisor's journal of phase claims, in three
-- insert-only tables. `Codec` stands for the canonical JSON of a claim and of a terminal event (none
-- if the value cannot be encoded) and for the hexadecimal SHA-256. The declared foreign keys are not
-- enforced, since the connection does not switch SQLite's foreign keys on.
pub mod Claims
pub mod Calls
pub mod Invariant
pub mod Replay
pub mod Recovery
pub mod Attempts
pub mod Examples
use Prim.Native.String.{◌++◌ as ◌<>◌}
use ananke.Prelude.{
  ℕ, suc, zero, ◌-◌, String, Bool, true, false, ◌&&◌, ◌||◌, not, Option, none, some, List, [], ◌∷◌,
  ◌++◌, ◌==◌, if◌then◌else◌, is_some, keep,
}
use ananke.Int.{ℤ, pos, pos_part, negsuc, ltb_ℤ, eqb_ℤ}
use ananke.Table.Sort.{order_by}
use Claims.{
  Claim, ClaimEntry, TerminalEvent, EventBody, BootEpoch, Journal, Codec, Error, Result, ok, err,
  ◌>>=◌, ◌>>◌, fail_if, journal_conflict, predecessor_missing, marshal_failed, constraint,
  not_found, find, exists, or_empty, require_json, phase_by_sequence, pred_ℤ, is_phase,
}

module _ (codec : Codec) where
  unfoldable pub compute_journal_head_hash : String → String → String
  compute_journal_head_hash predecessor_hash claim_hash =
      "sha256:" <> codec.sha256 (predecessor_hash <> (":" <> claim_hash))

  unfoldable pub of_attempt_phase : String → String → ClaimEntry → Bool
  of_attempt_phase attempt phase e = e.attempt_hash == attempt && e.phase == phase

  unfoldable pub load_claim_by_attempt_phase : String → String → Journal → Option ClaimEntry
  load_claim_by_attempt_phase attempt phase j = find (of_attempt_phase attempt phase) j.claims

  unfoldable pub load_claim_by_hash : String → Journal → Option ClaimEntry
  load_claim_by_hash hash j = find (λ e. e.claim_hash == hash) j.claims

  unfoldable pub record_boot_epoch : BootEpoch → Journal → Result Journal
  record_boot_epoch epoch j = do
    fail_if
        (exists
          (λ e.
            e.boot_epoch_id == epoch.boot_epoch_id || e.boot_epoch_hash == epoch.boot_epoch_hash)
          j.epochs)
        constraint
    ok (record j { epochs = j.epochs ++ epoch ∷ [] })

  -- The unique columns and the checks of supervisor_claims.
  unfoldable pub refuses : ClaimEntry → Journal → Bool
  refuses c j =
      not (is_phase c.phase)
      || ltb_ℤ c.attempt_number (pos 1)
      || exists (λ e. e.claim_hash == c.claim_hash) j.claims
      || exists (of_attempt_phase c.attempt_hash c.phase) j.claims
      || exists (λ e. e.attempt_hash == c.attempt_hash && eqb_ℤ e.sequence c.sequence) j.claims
      || exists (λ e. e.claim_id == c.claim_id) j.claims

  -- The claim that must come before: none for the first, else the one of the phase before.
  unfoldable pub predecessor : Claim → Journal → Result (Option ClaimEntry)
  predecessor claim j =
      if not (ltb_ℤ (pos 1) claim.sequence)
      then ok none
      else elim (load_claim_by_attempt_phase claim.attempt_hash
          (phase_by_sequence (pred_ℤ claim.sequence)) j) [
            | none ↦ err predecessor_missing
            | some p ↦ ok (some p)
          ]

  abbrev pub head_of : Option ClaimEntry → String
  head_of none = ""
  head_of (some p) = p.journal_head_hash

  unfoldable pub new_entry : Claim → String → String → Option ClaimEntry → String → ℕ → ClaimEntry
  new_entry claim boot_epoch_id boot_epoch_hash before json now = record {
    claim_hash = claim.claim_hash;
    claim_id = claim.claim_id;
    phase = claim.phase;
    sequence = claim.sequence;
    attempt_hash = claim.attempt_hash;
    attempt_number = claim.attempt_number;
    attempt_cap = claim.attempt_cap;
    boot_epoch_id = boot_epoch_id;
    boot_epoch_hash = boot_epoch_hash;
    journal_head_hash = compute_journal_head_hash (head_of before) claim.claim_hash;
    journal_predecessor_hash = head_of before;
    claim_json = json;
    launched = false;
    terminal_status = "";
    created_at = now;
  }

  unfoldable pub is_malformed : Claim → Bool
  is_malformed claim =
      claim.claim_hash == ""
      || claim.claim_id == ""
      || claim.attempt_hash == ""
      || ltb_ℤ claim.sequence (pos 1)
      || ltb_ℤ (pos 3) claim.sequence

  unfoldable pub claim_phase : Claim → String → String → ℕ → Journal → Result (ClaimEntry × Journal)
  claim_phase claim boot_epoch_id boot_epoch_hash now j = do
    fail_if (is_malformed claim) journal_conflict
    elim (load_claim_by_attempt_phase claim.attempt_hash claim.phase j) [
      | some e ↦
          if e.claim_json == or_empty (codec.claim_json claim)
          then ok (e, j)
          else err journal_conflict
      | none ↦ do
        before ← predecessor claim j
        json ← require_json (codec.claim_json claim)
        let e = new_entry claim boot_epoch_id boot_epoch_hash before json now
        fail_if (refuses e j) constraint
        ok (e, (record j { claims = j.claims ++ e ∷ [] }))
    ]

  -- A terminal event: its hash is the primary key, and a claim has at most one.
  unfoldable pub insert_terminal : TerminalEvent → Journal → Result Journal
  insert_terminal t j = do
    fail_if
        (exists
          (λ u. u.terminal_event_hash == t.terminal_event_hash || u.claim_hash == t.claim_hash)
          j.terminals)
        constraint
    ok (record j { terminals = j.terminals ++ t ∷ [] })

  unfoldable pub mark_launched :
      String → String → String → Claim → String → String → ℕ → Journal → Result Journal
  mark_launched claim_hash event_hash status claim boot_epoch_id boot_epoch_hash now j =
      let body : EventBody = record {
        terminal_event_hash = event_hash;
        claim_hash = claim_hash;
        phase = claim.phase;
        sequence = claim.sequence;
        attempt_hash = claim.attempt_hash;
        boot_epoch_id = boot_epoch_id;
        terminal_status = status;
      } in
      if exists (λ u. u.claim_hash == claim_hash) j.terminals then ok j else do
        json ← require_json (codec.event_json body)
        insert_terminal
            (record {
              body = body;
              boot_epoch_hash = boot_epoch_hash;
              terminal_event_json = json;
              created_at = now;
            })
            j

  -- Claims of other epochs that have no terminal event.
  unfoldable pub is_orphan : String → List TerminalEvent → ClaimEntry → Bool
  is_orphan current terminals c =
      not (c.boot_epoch_id == current) && not (exists (λ u. u.claim_hash == c.claim_hash) terminals)

  unfoldable pub waiting_event : ClaimEntry → ℕ → TerminalEvent
  waiting_event c now =
      let body : EventBody = record {
        terminal_event_hash = compute_journal_head_hash c.journal_head_hash "waiting_for_human";
        claim_hash = c.claim_hash;
        phase = c.phase;
        sequence = c.sequence;
        attempt_hash = c.attempt_hash;
        boot_epoch_id = c.boot_epoch_id;
        terminal_status = "waiting_for_human";
      } in
      record {
        body = body;
        boot_epoch_hash = c.boot_epoch_hash;
        terminal_event_json = or_empty (codec.event_json body);
        created_at = now;
      }

  unfoldable pub mark_all : List ClaimEntry → ℕ → Journal → Result Journal
  mark_all [] now j = ok j
  mark_all (c ∷ cs) now j = insert_terminal (waiting_event c now) j >>= mark_all cs now

  unfoldable pub mark_prior_epoch_nonterminal : String → ℕ → Journal → Result Journal
  mark_prior_epoch_nonterminal current now j =
      mark_all (keep (is_orphan current j.terminals) j.claims) now j

  unfoldable pub get_claim : String → Journal → Result ClaimEntry
  get_claim hash j = elim (load_claim_by_hash hash j) [ none ↦ err not_found | some e ↦ ok e ]

  unfoldable pub get_claim_by_attempt_phase : String → String → Journal → Result ClaimEntry
  get_claim_by_attempt_phase attempt phase j = elim (load_claim_by_attempt_phase attempt phase j) [
    | none ↦ err not_found
    | some e ↦ ok e
  ]

  -- The key of ORDER BY sequence: the table's CHECK keeps the column positive.
  abbrev pub sequence_key : ClaimEntry → ℕ
  sequence_key e = pos_part e.sequence

  abbrev pub of_attempt : String → ClaimEntry → Bool
  of_attempt attempt e = e.attempt_hash == attempt

  unfoldable pub get_claims_for_attempt : String → Journal → List ClaimEntry
  get_claims_for_attempt attempt j = order_by sequence_key (keep (of_attempt attempt) j.claims)
