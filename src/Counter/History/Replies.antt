-- ===== src/Counter/History/Replies.antt =====
-- What a caller sees after any history.
use otus_highload_architect.Prelude.{◌+◌, ◌≡◌, ap, some, List, [], ◌∷◌, Text, ok}
use otus_highload_architect.Prelude.Int.{pos}
use otus_highload_architect.Platform.Hashes.{Hashes}
use otus_highload_architect.Counter.{
  up, down, lost, count_message, reset_dialog_counter, get_unread_count, extract_user_id,
}
use otus_highload_architect.Counter.Steps.{sum_of}
use otus_highload_architect.Counter.Resets.{reset_dialog_drift}
use otus_highload_architect.Counter.History.{
  CounterStep, event, reset, reconcile, Ledger, note, perform, run, note_all, Represents,
}
use otus_highload_architect.Counter.History.Steps.{
  event-Represents, half-Represents, reset-Represents, reconcile-Represents,
}

module _ (r : Hashes) where
  perform-Represents :
      (s : r.Store) (l : Ledger) (step : CounterStep)
      → Represents r s l
      → Represents r (perform r s step) (note l step)
  unfolding perform count_message
  perform-Represents s l (event down second to from) h = h
  perform-Represents s l (event lost second to from) h = half-Represents r s l to from h
  perform-Represents s l (event up lost to from) h = event-Represents r s l to from h
  perform-Represents s l (event up down to from) h = half-Represents r s l to from h
  perform-Represents s l (event up up to from) h = event-Represents r s l to from h
  perform-Represents s l (reset user partner) h = reset-Represents r s l user partner h
  perform-Represents s l (reconcile user) h = reconcile-Represents r s l user h

  -- After any events, whole, half-counted or not counted at all, answered or not, resets and reconciliations, the store
  -- stands for the ledger of the same steps, where it did before.
  pub run-Represents :
      (steps : List CounterStep) (s : r.Store) (l : Ledger)
      → Represents r s l
      → Represents r (run r s steps) (note_all l steps)
  unfolding run note_all
  run-Represents [] s l h = h
  run-Represents (step ∷ steps) s l h =
      run-Represents steps (perform r s step) (note l step) (perform-Represents s l step h)

  -- What a caller sees after any events, whole, half-counted or not counted at all, answered or
  -- not, resets and reconciliations of a store that stood for a ledger: a query returns the sum of the dialogs and the
  -- excess of the half-counted events since the last reconciliation, so never less than the sum, and a
  -- reset returns exactly the number of messages that the ledger holds as unread.
  pub run-replies :
      (steps : List CounterStep) (s : r.Store) (l : Ledger) (user partner : Text)
      → Represents r s l
      → let t = run r s steps in
        (get_unread_count r t up (some user)
          ≡ ok (pos (sum_of r t user + (note_all l steps).excess user)))
        × ((reset_dialog_counter r t up (some user) partner).1
            ≡ ok (pos ((note_all l steps).unread user partner)))
  unfolding get_unread_count reset_dialog_counter extract_user_id
  run-replies steps s l user partner h =
      let good = run-Represents steps s l h in
      let t = run r s steps in
      let m = note_all l steps in
      (
        rw (good.totals user),
        ap ok
            (reset_dialog_drift r t user partner (m.unread user partner) (m.excess user)
              (good.totals user) (good.dialogs user partner)).1,
      )
