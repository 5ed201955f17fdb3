-- ===== src/Smtp/Session/State.antt =====
-- `SessionState` of src/smtp/session.rs.
use mathlib.Core.Bool.{Bool, true, false}

pub data SessionState : Type 0 where
  connected ready mail_from rcpt_to receiving_data closing : SessionState

unfoldable pub is_connected : SessionState → Bool
is_connected connected = true
is_connected _ = false

unfoldable pub is_receiving : SessionState → Bool
is_receiving receiving_data = true
is_receiving _ = false
