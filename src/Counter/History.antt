-- ===== src/Counter/History.antt =====
-- The counters over any sequence of events, resets and reconciliations, against a ledger of what was
-- counted for each pair of users.
pub mod Steps
pub mod Replies
pub mod Order
pub mod Retries
use otus_highload_architect.Prelude.{
  ℕ, ◌+◌, ◌≡◌, ◌&&◌, List, [], ◌∷◌, if◌then◌else◌, Text, bytes_eq,
}
use otus_highload_architect.Prelude.Int.{pos}
use otus_highload_architect.Platform.Hashes.{Hashes}
use otus_highload_architect.Counter.{
  Connection, up, down, lost, reset_dialog, reconcile_user, count_message,
}
use otus_highload_architect.Counter.Steps.{total_of, dialog_of, sum_of}

-- An event with the connections of its two commands, a reset, and the reconciliation of a user.
pub data CounterStep : Type 0 where
  event : Connection → Connection → Text → Text → CounterStep
  reset : Text → Text → CounterStep
  reconcile : Text → CounterStep

-- How many messages of a partner a user has not read, and by how many half-counted events the user's
-- total is ahead of the dialogs.
pub record Ledger : Type 0 where
  pub unread : Text → Text → ℕ
  pub excess : Text → ℕ

abbrev pub note : Ledger → CounterStep → Ledger
note l (event down second to from) = l
note l (event lost second to from) = record l {
  excess = λ u. if bytes_eq to u then l.excess u + 1 else l.excess u;
}
note l (event up lost to from) = record l {
  unread = λ u p. if bytes_eq to u && bytes_eq from p then l.unread u p + 1 else l.unread u p;
}
note l (event up down to from) = record l {
  excess = λ u. if bytes_eq to u then l.excess u + 1 else l.excess u;
}
note l (event up up to from) = record l {
  unread = λ u p. if bytes_eq to u && bytes_eq from p then l.unread u p + 1 else l.unread u p;
}
note l (reset user partner) = record l {
  unread = λ u p. if bytes_eq user u && bytes_eq partner p then 0 else l.unread u p;
}
note l (reconcile user) = record l { excess = λ u. if bytes_eq user u then 0 else l.excess u }

abbrev pub empty_ledger : Ledger
empty_ledger = record { unread = λ u p. 0; excess = λ u. 0 }

unfoldable pub note_all : Ledger → List CounterStep → Ledger
note_all l [] = l
note_all l (step ∷ steps) = note_all (note l step) steps

module _ (r : Hashes) where
  unfoldable pub perform : r.Store → CounterStep → r.Store
  perform s (event first second to from) = (count_message r s first second to from).0
  perform s (reset user partner) = (reset_dialog r s user partner).0
  perform s (reconcile user) = (reconcile_user r s user).0

  unfoldable pub run : r.Store → List CounterStep → r.Store
  run s [] = s
  run s (step ∷ steps) = run (perform s step) steps

  -- Every dialog counts what the ledger says, and a total is the sum of the dialogs and the excess.
  pub record Represents (s : r.Store) (l : Ledger) : Type 0 where
    pub dialogs : (u p : Text) → dialog_of r s u p ≡ pos (l.unread u p)
    pub totals : (u : Text) → total_of r s u ≡ pos (sum_of r s u + l.excess u)
