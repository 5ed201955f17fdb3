-- ===== src/Delivery/Client/Body.antt =====
-- The message body on the wire: `send_body` of src/delivery/client.rs.
pub mod Relay
use my_mta.Prelude.{ℕ, List, [], ◌∷◌, ◌++◌, reverse, Bool, true, false, ◌==◌, if◌then◌else◌}
use my_mta.Prelude.Text.{codes, starts_with}

-- The bytes of a line without its end; the line comes in reverse, without its line feed.
unfoldable pub content : List ℕ → List ℕ
content [] = []
content (c ∷ line) = if c == 13 then reverse line else reverse (c ∷ line)

-- A line with its dot, if it needs one, and its end.
unfoldable pub wire_line : List ℕ → List ℕ
unfolding starts_with
wire_line line = (if starts_with line (codes ".") then b'.' ∷ line else line) ++ codes "\r\n"

-- The loop over the lines; `line` is the present one in reverse.
unfoldable pub wire_from : List ℕ → List ℕ → List ℕ
unfolding content wire_line
wire_from [] [] = []
wire_from (c ∷ line) [] = wire_line (reverse (c ∷ line))
wire_from line (c ∷ body) = elim (c == 10) [
  | true ↦ wire_line (content line) ++ wire_from [] body
  | false ↦ wire_from (c ∷ line) body
]

-- `out_buffer`
unfoldable pub body_on_wire : List ℕ → List ℕ
unfolding wire_from
body_on_wire body = wire_from [] body ++ codes ".\r\n"
