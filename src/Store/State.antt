-- ===== src/Store/State.antt =====
-- internal/store/state.go: the cleanup state machine.
use ananke.Prelude.{◌≡◌, refl, Bool, true, false, arith, if◌then◌else◌}

pub data State : Type 0 where
  created running cancelling cleanup_required recovery_unknown completed failed cancelled : State

-- s == t
unfoldable pub same : State → State → Bool
same created created = true
same running running = true
same cancelling cancelling = true
same cleanup_required cleanup_required = true
same recovery_unknown recovery_unknown = true
same completed completed = true
same failed failed = true
same cancelled cancelled = true
same _ _ = false

unfoldable pub is_terminal : State → Bool
is_terminal completed = true
is_terminal failed = true
is_terminal cancelled = true
is_terminal _ = false

-- The map of maps: `allowed_transitions from to` tells whether `to` is a key under `from`.
unfoldable pub allowed_transitions : State → State → Bool
allowed_transitions created running = true
allowed_transitions created cleanup_required = true
allowed_transitions created recovery_unknown = true
allowed_transitions running cancelling = true
allowed_transitions running cleanup_required = true
allowed_transitions running recovery_unknown = true
allowed_transitions running completed = true
allowed_transitions running failed = true
allowed_transitions running cancelled = true
allowed_transitions cancelling cancelled = true
allowed_transitions cancelling recovery_unknown = true
allowed_transitions cancelling cleanup_required = true
allowed_transitions cancelling running = true
allowed_transitions cleanup_required failed = true
allowed_transitions cleanup_required cancelled = true
allowed_transitions cleanup_required recovery_unknown = true
allowed_transitions recovery_unknown running = true
allowed_transitions recovery_unknown cleanup_required = true
allowed_transitions recovery_unknown cancelling = true
allowed_transitions recovery_unknown completed = true
allowed_transitions recovery_unknown failed = true
allowed_transitions recovery_unknown cancelled = true
allowed_transitions _ _ = false

unfoldable pub can_transition : State → State → Bool
unfolding same allowed_transitions
can_transition from to = if same from to then false else allowed_transitions from to

pub same-eq : (s t : State) → same s t ≡ true → s ≡ t
unfolding same
same-eq s t h = ground arith

pub can_transition-is_terminal :
    (from to : State) → is_terminal from ≡ true → can_transition from to ≡ false
unfolding is_terminal can_transition
can_transition-is_terminal from to h = ground arith

pub same_refl : (s : State) → same s s ≡ true
unfolding same
same_refl s = ground arith

pub running-can_transition-failed : can_transition running failed ≡ true
unfolding can_transition
running-can_transition-failed = refl

pub completed-is_terminal : (s : State) → same s completed ≡ true → is_terminal s ≡ true
unfolding same is_terminal
completed-is_terminal s h = ground arith

pub unstarted-is_terminal : (is_terminal created ≡ false) × (is_terminal running ≡ false)
unfolding is_terminal
unstarted-is_terminal = (refl, refl)

pub cancel-Edge :
    (can_transition running cancelling ≡ true)
    × (is_terminal cancelling ≡ false)
    × (same cancelling completed ≡ false)
    × (same cancelling running ≡ false)
unfolding can_transition is_terminal
cancel-Edge = (refl, refl, refl, refl)
