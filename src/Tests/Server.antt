-- ===== src/Tests/Server.antt =====
-- A conversation with src/smtp/server.rs.
use Prim.Native.Nat.{ℕ}
use mathlib.Core.Path.{◌≡◌, refl}
use mathlib.Core.Bool.{true}
use mathlib.Core.List.{List, [], ◌∷◌, ◌++◌}
use my_mta.Prelude.Text.{Text, codes}
use my_mta.Smtp.Session.State.{receiving_data}
use my_mta.Smtp.Server.{Connection, Input, accept, receive, handle_connection}
use my_mta.Smtp.Server.Reach.{IsSound, served-IsSound}
use my_mta.Smtp.Server.Tasks.{Limits, hang_up, welcome, Shared, shared, stores}
use my_mta.Smtp.Server.Replies.{replies, replies_to, replies-receive}

abbrev ascii : List ℕ → Text
ascii bytes = bytes

abbrev no_date : ℕ → Text
no_date now = codes "Mon, 01 Jan 2024 00:00:00 +0000"

abbrev input : Text → Input
input line = record {
  line = line;
  buffer_is_empty = true;
  fresh = record { uuid = 1 ∷ 2 ∷ 3 ∷ 4 ∷ 5 ∷ 255 ∷ []; now = 7 };
  message_uuid = codes "u";
}

abbrev conversation : List Input
conversation =
    input (codes "EHLO c.test\r\n")
    ∷ input (codes "MAIL FROM:<a@b.com>\r\n")
    ∷ input (codes "RCPT TO:<c@d.com>\r\n")
    ∷ input (codes "DATA\r\n")
    ∷ input (codes "From: a@b.com\r\n")
    ∷ input (codes ".\r\n")
    ∷ []

served-IsSound_example :
    IsSound
      (handle_connection ascii no_date (accept (codes "p") (codes "mx") 1000 10 0) conversation)
served-IsSound_example =
    served-IsSound ascii no_date (codes "p") (codes "mx") 1000 10 0 conversation

abbrev connection : Connection
connection = accept (codes "p") (codes "mx") 1000 10 0

abbrev receiving : Connection
receiving = record connection { session = record connection.session { state = receiving_data } }

replies-receive_example :
    replies (receive ascii no_date receiving (input (codes ".\r\n")))
    ≡ replies receiving ++ replies_to receiving (input (codes ".\r\n"))
unfolding accept
replies-receive_example =
    replies-receive ascii no_date receiving (input (codes ".\r\n")) (λ e. refl)

abbrev limits : Limits
limits = record { hostname = codes "mx"; max_message_size = 1000; max_recipients = 10 }

abbrev first : Connection
first = welcome ascii no_date limits (codes "p") 0

abbrev second : Connection
second = welcome ascii no_date limits (codes "q") 1

-- Two connections; the first sends a line, and then the second ends.
abbrev served : Shared
served =
    let answered = receive ascii no_date first (input (codes "NOOP\r\n")) in
    shared (answered ∷ hang_up second ∷ []) (stores ascii no_date limits first answered)
