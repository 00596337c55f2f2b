-- ===== src/Platform/Connections.antt =====
-- The connection of a client to a server, as far as one command sees it.
use otus_highload_architect.Prelude.{Bool, true, false, Outcome, ok, throw, database_error}

-- What becomes of a command of the client: it is run and answered, it does not reach the server, or it
-- is run and its answer is lost.
pub data Connection : Type 0 where
  up down lost : Connection

abbrev pub is_answered : Connection → Bool
is_answered up = true
is_answered down = false
is_answered lost = false

-- Whether the server runs the command.
abbrev pub is_run : Connection → Bool
is_run up = true
is_run down = false
is_run lost = true

abbrev pub call {ℓ} : {A : Type ℓ} → Connection → A → Outcome A
call up a = ok a
call down a = throw database_error
call lost a = throw database_error
