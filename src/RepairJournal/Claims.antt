-- ===== src/RepairJournal/Claims.antt =====
-- The rows of internal/repairsupervisor/journal.go, its errors, and its small helpers.
use ananke.Prelude.{ℕ, suc, zero, String, Bool, ◌||◌, Option, none, some, List, ◌==◌, if◌then◌else◌}
use ananke.Prelude.Fallible.{Fallible}
unfoldable pub use ananke.Prelude.Search.{find, exists}
pub use ananke.Prelude.Fallible.{ok, err, ◌>>=◌, ◌>>◌, fail_if, after, Fallible-cases}
use ananke.Int.{ℤ, pos, negsuc, eqb_ℤ}

-- The fields of SupervisorIntentClaim that the journal reads; `other` holds the rest, which only its
-- canonical JSON shows.
pub record Claim : Type 0 where
  pub claim_hash : String
  pub claim_id : String
  pub phase : String
  pub sequence : ℤ
  pub attempt_hash : String
  pub attempt_number : ℤ
  pub attempt_cap : ℤ
  pub other : List String

pub record ClaimEntry : Type 0 where
  pub claim_hash : String
  pub claim_id : String
  pub phase : String
  pub sequence : ℤ
  pub attempt_hash : String
  pub attempt_number : ℤ
  pub attempt_cap : ℤ
  pub boot_epoch_id : String
  pub boot_epoch_hash : String
  pub journal_head_hash : String
  pub journal_predecessor_hash : String
  pub claim_json : String
  pub launched : Bool
  pub terminal_status : String
  pub created_at : ℕ

-- The fields of a terminal event's JSON.
pub record EventBody : Type 0 where
  pub terminal_event_hash : String
  pub claim_hash : String
  pub phase : String
  pub sequence : ℤ
  pub attempt_hash : String
  pub boot_epoch_id : String
  pub terminal_status : String

pub record TerminalEvent : Type 0 where
  pub body : EventBody
  pub open body use *
  pub boot_epoch_hash : String
  pub terminal_event_json : String
  pub created_at : ℕ

pub record BootEpoch : Type 0 where
  pub boot_epoch_id : String
  pub boot_epoch_hash : String
  pub started_at : ℕ

pub record Journal : Type 0 where
  pub epochs : List BootEpoch
  pub claims : List ClaimEntry
  pub terminals : List TerminalEvent

pub record Codec : Type 0 where
  pub claim_json : Claim → Option String
  pub event_json : EventBody → Option String
  pub sha256 : String → String

pub data Error : Type 0 where
  journal_conflict not_found predecessor_missing marshal_failed constraint : Error

abbrev pub Result {ℓ} : Type ℓ → Type ℓ
Result A = Fallible Error A

-- What is left of a string whose encoder failed and whose error was dropped.
abbrev pub or_empty : Option String → String
or_empty none = ""
or_empty (some s) = s

abbrev pub require_json : Option String → Result String
require_json none = err marshal_failed
require_json (some s) = ok s

-- n - 1
unfoldable pub pred_ℤ : ℤ → ℤ
pred_ℤ (pos zero) = negsuc 0
pred_ℤ (pos (suc n)) = pos n
pred_ℤ (negsuc n) = negsuc (suc n)

unfoldable pub phase_by_sequence : ℤ → String
phase_by_sequence seq =
    if eqb_ℤ seq (pos 1)
    then "materialization_claim"
    else if eqb_ℤ seq (pos 2)
    then "adapter_claim"
    else if eqb_ℤ seq (pos 3)
    then "test_claim"
    else ""

-- CHECK (phase IN …)
unfoldable pub is_phase : String → Bool
is_phase phase =
    phase == "materialization_claim" || phase == "adapter_claim" || phase == "test_claim"
