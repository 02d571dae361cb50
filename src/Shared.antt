-- ===== src/Shared.antt =====
-- packages/shared/src/index.js: the legal transitions of a session.
use volt_hub_csms.Prelude.{Bool, true, false}
use volt_hub_csms.State.{SessionState, preparing, charging, suspended, completed}

-- `LEGAL` and `legalTransition(from, to)`; a state without an entry has no transition.
abbrev pub legal_transition : SessionState → SessionState → Bool
legal_transition SessionState.reserved preparing = true
legal_transition SessionState.reserved SessionState.cancelled = true
legal_transition preparing charging = true
legal_transition preparing SessionState.failed = true
legal_transition preparing SessionState.cancelled = true
legal_transition charging suspended = true
legal_transition charging completed = true
legal_transition charging SessionState.failed = true
legal_transition suspended charging = true
legal_transition suspended completed = true
legal_transition suspended SessionState.failed = true
legal_transition _ _ = false
