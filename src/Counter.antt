-- ===== src/Counter.antt =====
-- The unread counters of counter-service (counter-service/src/counter) and the Redis functions that it
-- calls (scripts/redis/counter_functions.lua).
pub mod Sums
pub mod Steps
pub mod Resets
pub mod Reconcile
pub mod Scan
pub mod History
pub mod Consumer
use otus_highload_architect.Prelude.{
  ◌>>=◌, ℕ, zero, suc, ◌+◌, not, ◌&&◌, Option, none, some, List, [], ◌∷◌, ◌++◌, if◌then◌else◌, drop,
  Text, codes, bytes_eq, database_error, unauthenticated, Outcome, ok, throw,
}
use otus_highload_architect.Prelude.Int.{ℤ, pos, pos_part, neg, ltb_ℤ}
use otus_highload_architect.Platform.Json.{JsonText, text_at, parse}
pub use otus_highload_architect.Platform.Connections.{Connection, up, down, lost, is_run, call}
use otus_highload_architect.Platform.Hashes.{Hashes, hget, value_or_zero}

abbrev pub counters_key : Text → Text
counters_key user_id = codes "counters:" ++ user_id

abbrev pub dialog_field : Text → Text
dialog_field partner_id = codes "dialog:" ++ partner_id

abbrev pub total_field : Text
total_field = codes "total"

-- `ExtractUserId`: the value of `x-user-id` in the metadata of the call.
unfoldable pub extract_user_id : Option Text → Outcome Text
extract_user_id none = throw unauthenticated
extract_user_id (some id) = ok id

-- What a field adds to the total in `counter_reconcile_user`.
unfoldable pub weight : Text → ℤ → ℕ
weight field value =
    if not (bytes_eq field total_field) && ltb_ℤ (pos 0) value then pos_part value else 0

unfoldable pub computed_total : List (Text × ℤ) → ℕ
computed_total [] = 0
computed_total ((field, value) ∷ rest) = weight field value + computed_total rest

module _ (r : Hashes) where
  -- `counter_reset_dialog`
  unfoldable pub reset_dialog : r.Store → Text → Text → r.Store × ℤ
  reset_dialog s user_id partner_id =
      let key = counters_key user_id in
      let field = dialog_field partner_id in
      let dialog_count = value_or_zero (hget r s key field) in
      let zeroed = r.hset s key field (pos 0) in
      let lowered = r.hincrby zeroed key total_field (neg dialog_count) in
      let new_total = value_or_zero (hget r lowered key total_field) in
      if ltb_ℤ (pos 0) dialog_count
      then (if ltb_ℤ new_total (pos 0)
          then (r.hset lowered key total_field (pos 0), dialog_count)
          else (lowered, dialog_count))
      else (s, dialog_count)

  -- `counter_reconcile_user`
  unfoldable pub reconcile_user : r.Store → Text → r.Store × ℤ
  reconcile_user s user_id =
      let key = counters_key user_id in
      let total = pos (computed_total (r.fields s key)) in (r.hset s key total_field total, total)

  -- `CounterServiceImpl::GetUnreadCount`
  unfoldable pub get_unread_count : r.Store → Connection → Option Text → Outcome ℤ
  unfolding extract_user_id
  get_unread_count s connection metadata = do
    user_id ← extract_user_id metadata
    reply ← call connection (hget r s (counters_key user_id) total_field)
    ok (value_or_zero reply)

  answer_reset : r.Store → Connection → Outcome Text → Text → r.Store × Outcome ℤ
  answer_reset s connection (throw e) partner_id = (s, throw e)
  answer_reset s connection (ok user_id) partner_id =
      let (reset, count) = reset_dialog s user_id partner_id in
      (if is_run connection then reset else s, call connection count)

  -- `CounterServiceImpl::ResetDialogCounter`
  unfoldable pub reset_dialog_counter :
      r.Store → Connection → Option Text → Text → r.Store × Outcome ℤ
  unfolding answer_reset extract_user_id
  reset_dialog_counter s connection metadata partner_id =
      answer_reset s connection (extract_user_id metadata) partner_id

  -- The two HINCRBY of `CounterConsumer::Process`, each with its own connection: the second is not
  -- sent where the first throws, which it does too where it was run and its answer is lost.
  unfoldable pub count_message :
      r.Store → Connection → Connection → Text → Text → r.Store × Outcome (Unit {0})
  count_message s down second to_user_id from_user_id = (s, throw database_error)
  count_message s lost second to_user_id from_user_id =
      (r.hincrby s (counters_key to_user_id) total_field (pos 1), throw database_error)
  count_message s up down to_user_id from_user_id =
      (r.hincrby s (counters_key to_user_id) total_field (pos 1), throw database_error)
  count_message s up lost to_user_id from_user_id =
      let key = counters_key to_user_id in
      let counted = r.hincrby s key total_field (pos 1) in
      (r.hincrby counted key (dialog_field from_user_id) (pos 1), throw database_error)
  count_message s up up to_user_id from_user_id =
      let key = counters_key to_user_id in
      let counted = r.hincrby s key total_field (pos 1) in
      (r.hincrby counted key (dialog_field from_user_id) (pos 1), ok tt)

  module _ (json : JsonText) where
    unfoldable pub read_sent : json.Document → Outcome (Text × Text)
    read_sent message = do
      value ← parse json message
      to_user_id ← text_at "to_user_id" value
      from_user_id ← text_at "from_user_id" value
      ok (to_user_id, from_user_id)

    count_read :
        r.Store → Connection → Connection → Outcome (Text × Text) → r.Store × Outcome (Unit {0})
    unfolding count_message
    count_read s first second (throw e) = (s, throw e)
    count_read s first second (ok (to, from)) = count_message s first second to from

    -- `CounterConsumer::Process`
    unfoldable pub counter_process :
        r.Store → Connection → Connection → json.Document → r.Store × Outcome (Unit {0})
    unfolding count_read
    counter_process s first second message = count_read s first second (read_sent message)

  -- The loop over one page of keys: a failing FCALL is logged and skipped.
  unfoldable pub reconcile_keys : (Text → Connection) → r.Store → List Text → r.Store
  reconcile_keys link s [] = s
  reconcile_keys link s (key ∷ keys) =
      let user_id = drop 9 key in
      let next = if is_run (link user_id) then (reconcile_user s user_id).0 else s in
      reconcile_keys link next keys

  -- `RunReconciliation`: `none` means that the fuel ran out before the cursor came back to "0". A SCAN
  -- that fails ends the run with what was reconciled before it.
  unfoldable pub run_reconciliation :
      ℕ
      → (Text → Connection)
      → (Text → Connection)
      → r.Store
      → Text
      → Option (r.Store × Outcome (Unit {0}))
  run_reconciliation zero scan_link link s cursor = none
  run_reconciliation (suc fuel) scan_link link s cursor =
      let next = (r.scan s cursor).0 in
      let reconciled = reconcile_keys link s (r.scan s cursor).1 in
      let rest = run_reconciliation fuel scan_link link reconciled next in
      elim (scan_link cursor) [
        | down ↦ some (s, throw database_error)
        | lost ↦ some (s, throw database_error)
        | up ↦ if bytes_eq next (codes "0") then some (reconciled, ok tt) else rest
      ]
