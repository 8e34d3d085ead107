-- ===== src/Domain.antt =====
-- src/gg_relay/core/domain.py: the states of a session, the terminal states and the edge table.
pub mod Lifecycle
use gg_proxy.Base.{Bool, true, false, List, [], ◌∷◌, ◌||◌}

pub data SessionState : Type 0 where
  queued running paused completed failed cancelled interrupted : SessionState

-- Members of a `StrEnum` are compared by their texts, which are distinct.
abbrev pub state_eq : SessionState → SessionState → Bool
state_eq queued queued = true
state_eq running running = true
state_eq paused paused = true
state_eq completed completed = true
state_eq failed failed = true
state_eq cancelled cancelled = true
state_eq interrupted interrupted = true
state_eq _ _ = false

abbrev pub state_in : SessionState → List SessionState → Bool
state_in s [] = false
state_in s (t ∷ ts) = state_eq s t || state_in s ts

unfoldable pub terminal_states : List SessionState
terminal_states = completed ∷ failed ∷ cancelled ∷ interrupted ∷ []

unfoldable pub legal_transitions : SessionState → List SessionState
legal_transitions queued = running ∷ cancelled ∷ interrupted ∷ []
legal_transitions running = paused ∷ completed ∷ failed ∷ cancelled ∷ interrupted ∷ []
legal_transitions paused = running ∷ cancelled ∷ interrupted ∷ []
legal_transitions completed = []
legal_transitions failed = []
legal_transitions cancelled = []
legal_transitions interrupted = []

unfoldable pub is_legal_transition : SessionState → SessionState → Bool
unfolding legal_transitions
is_legal_transition from_state to_state = state_in to_state (legal_transitions from_state)
