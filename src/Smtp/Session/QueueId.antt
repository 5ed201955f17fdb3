-- ===== src/Smtp/Session/QueueId.antt =====
-- `generate_queue_id` of src/smtp/session.rs and src/http/api.rs: six bytes of a UUID in hexadecimal.
use Prim.Native.Nat.{ℕ, ◌+◌, ◌-◌, ◌/◌, ◌%◌}
use mathlib.Core.List.{List, [], ◌∷◌}
use my_mta.Prelude.{ltb, if◌then◌else◌, take}
use my_mta.Prelude.Text.{Text}

hex_digit : ℕ → ℕ
hex_digit n = if ltb n 10 then b'0' + n else b'A' + (n - 10)

hex_bytes : List ℕ → Text
unfolding hex_digit
hex_bytes [] = []
hex_bytes (b ∷ bytes) = hex_digit (b / 16) ∷ hex_digit (b % 16) ∷ hex_bytes bytes

-- The argument is the sixteen bytes of `Uuid::new_v4`.
unfoldable pub generate_queue_id : List ℕ → Text
unfolding hex_bytes
generate_queue_id bytes = hex_bytes (take 6 bytes)
