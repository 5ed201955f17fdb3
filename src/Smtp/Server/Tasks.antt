-- ===== src/Smtp/Server/Tasks.antt =====
-- `SmtpServer::run` of src/smtp/server.rs: one task for each connection, in any interleaving, and the
-- spool that they share. The connections stand in the order in which they were accepted, also those
-- that have ended; the spool is the calls of `DiskSpool::store` in the order in which they come.
mod Count
mod Spooled
use my_mta.Prelude.{
  ℕ, ◌+◌, List, [], ◌∷◌, ◌++◌, drop, length, Bool, true, false, ◌≡◌, ◌⊎◌, All, if◌then◌else◌,
}
use my_mta.Prelude.Text.{Text}
use my_mta.Message.Envelope.{Envelope}
use my_mta.Smtp.Server.{Connection, Input, accept, receive, handle_connection}
use my_mta.Smtp.Server.Reach.{IsDeliverable}
use Count.{count, total}

-- What the tasks take from `Config`.
pub record Limits : Type 0 where
  pub hostname : Text
  pub max_message_size : ℕ
  pub max_recipients : ℕ

-- The end of the input, or an error of the socket.
unfoldable pub hang_up : Connection → Connection
hang_up c = record c { is_running = false }

-- The tasks, and their spool.
pub record Shared : Type 0 where
  pub tasks : List Connection
  pub spool : List (Envelope × List ℕ)

abbrev pub shared : List Connection → List (Envelope × List ℕ) → Shared
shared tasks spool = record { tasks = tasks; spool = spool }

module _ (lossy : List ℕ → Text) (date : ℕ → Text) (config : Limits) where
  unfoldable pub welcome : Text → ℕ → Connection
  unfolding accept
  welcome peer now = accept peer config.hostname config.max_message_size config.max_recipients now

  -- The calls of `store` in a round of a task.
  abbrev pub stores : Connection → Connection → List (Envelope × List ℕ)
  stores before after = drop (length before.spooled) after.spooled

  -- One step of the server: the listener accepts a connection, or one task, whichever is next, reads a
  -- line, which may store a message, or ends.
  pub data Step : Shared → Shared → Type 0 where
    accepts :
        (peer : Text) (now : ℕ) (cs : List Connection) (spool : List (Envelope × List ℕ))
        → Step (shared cs spool) (shared (cs ++ welcome peer now ∷ []) spool)
    reads :
        (front back : List Connection) (c : Connection) (input : Input)
        (spool : List (Envelope × List ℕ))
        → c.is_running ≡ true
        → Step (shared (front ++ c ∷ back) spool) (
            shared
              (front ++ receive lossy date c input ∷ back)
              (spool ++ stores c (receive lossy date c input)))
    ends :
        (front back : List Connection) (c : Connection) (spool : List (Envelope × List ℕ))
        → c.is_running ≡ true
        → Step (shared (front ++ c ∷ back) spool) (shared (front ++ hang_up c ∷ back) spool)

  pub data Runs : Shared → Type 0 where
    start : Runs (shared [] [])
    next : {st st' : Shared} → Runs st → Step st st' → Runs st'

  -- What its own lines make of a connection, alone.
  abbrev pub alone : Text → ℕ → List Input → Connection
  alone peer now inputs = handle_connection lossy date (welcome peer now) inputs

  -- A connection as if it were the only one, with lines of its own, perhaps after its end.
  pub record IsOwn (c : Connection) : Type 0 where
    pub peer : Text
    pub now : ℕ
    pub inputs : List Input
    pub same : (c ≡ alone peer now inputs) ⊎ (c ≡ hang_up (alone peer now inputs))

  -- Each task is on its own, the spool has only messages that can be delivered, and of every kind as
  -- many as the tasks have stored.
  pub record IsServed (st : Shared) : Type 0 where
    pub own : All IsOwn st.tasks
    pub deliverable : All (λ m. IsDeliverable m.0) st.spool
    pub kept : (test : Envelope × List ℕ → Bool) → count test st.spool ≡ total test st.tasks
