-- ===== src/Tests/Counters.antt =====
-- The theorems on the unread counters at concrete inputs.
use otus_highload_architect.Prelude.{
  arith, ◌<◌, List, ◌+◌, ◌≡◌, refl, inl, true, ◌&&◌, ◌||◌, some, [], ◌∷◌, if◌then◌else◌, Text,
  codes, bytes_eq, mem_bytes, ok,
}
use mathlib.Core.List.Perm
use otus_highload_architect.Prelude.Int.{pos, neg_part, ◌+ℤ◌}
use otus_highload_architect.Prelude.Maps.{insert, lookup}
use otus_highload_architect.Counter.History.Order.{total_over, of_user, of_dialog}
use otus_highload_architect.Counter.History.Retries.{Attempt, attempts, attempts-exact}
use otus_highload_architect.Platform.Hashes.{Hashes, hget, value_or_zero}
use otus_highload_architect.Platform.PlainQueues.{PlainHash, plain_hashes, no_fields}
use otus_highload_architect.Counter.{
  run_reconciliation, counters_key, dialog_field, total_field, Connection, up, down, lost, is_run,
  computed_total, reconcile_user, count_message, get_unread_count, reset_dialog_counter,
  reconcile_keys, reset_dialog,
}
use otus_highload_architect.Counter.Steps.{dialog_of, sum_of, IsConsistent, count_message_lem}
use otus_highload_architect.Counter.Scan.{run_reconciliation_lem}
use otus_highload_architect.Counter.History.{
  CounterStep, event, reconcile, Represents, empty_ledger, run, note_all,
}
use otus_highload_architect.Counter.History.Replies.{run-replies}
use otus_highload_architect.Platform.Scans.{plain_scans}
use otus_highload_architect.Counter.Reconcile.{reconcile_keys_lem}

abbrev pub store : Hashes
store = plain_hashes (codes "ann" ∷ []) (codes "bob" ∷ [])

abbrev bob : Text
bob = codes "bob"

abbrev ann : Text
ann = codes "ann"

abbrev pub nothing_read : Text → PlainHash
nothing_read k = no_fields

nothing-IsConsistent : (u : Text) → IsConsistent store nothing_read u
unfolding computed_total lookup
nothing-IsConsistent u = refl

nothing-dialog : neg_part (dialog_of store nothing_read bob ann) ≡ 0
unfolding lookup
nothing-dialog = refl

count_message_lem_example :
    ((j g : Text)
      → hget store (count_message store nothing_read up up bob ann).0 j g ≡ (
          if bytes_eq (counters_key bob) j
            && (bytes_eq total_field g || bytes_eq (dialog_field ann) g)
          then some (value_or_zero (hget store nothing_read j g) +ℤ pos 1)
          else hget store nothing_read j g))
    × IsConsistent store (count_message store nothing_read up up bob ann).0 bob
count_message_lem_example =
    count_message_lem store nothing_read bob ann bob nothing-dialog (nothing-IsConsistent bob)

abbrev pub counted : Text → PlainHash
counted = (count_message store nothing_read up up bob ann).0

counted-IsConsistent : IsConsistent store counted bob
counted-IsConsistent =
    (count_message_lem store nothing_read bob ann bob nothing-dialog (nothing-IsConsistent bob)).1

counted-dialog : dialog_of store counted bob ann ≡ pos 1
unfolding count_message lookup insert bytes_eq ◌+ℤ◌
counted-dialog = refl

abbrev links : Text → Connection
links u = if bytes_eq u bob then up else down

bob-listed :
    (mem_bytes (counters_key bob) (counters_key ann ∷ counters_key bob ∷ []) && is_run (links bob))
    ≡ true
unfolding mem_bytes bytes_eq
bob-listed = refl

reconcile_keys_lem_example :
    IsConsistent store
      (reconcile_keys store links counted (counters_key ann ∷ counters_key bob ∷ []))
      bob
reconcile_keys_lem_example =
    reconcile_keys_lem store links counted (counters_key ann ∷ counters_key bob ∷ []) bob
      (inl bob-listed)

abbrev bob_link : Text → Connection
bob_link u = up

three_pages : (plain_scans (codes "ann" ∷ []) (codes "bob" ∷ [])).pages_left counted (codes "0") < 3
unfolding bytes_eq
three_pages = omega arith

bob-scanned :
    ((plain_scans (codes "ann" ∷ []) (codes "bob" ∷ [])).present counted (counters_key bob)
      && is_run (bob_link bob))
    ≡ true
unfolding mem_bytes bytes_eq
bob-scanned = refl

run_reconciliation_lem_example :
    (t : Text → PlainHash) × (run_reconciliation store 3 bob_link bob_link counted (codes "0")
      ≡ some (t, ok tt))
    × IsConsistent store t bob
run_reconciliation_lem_example =
    run_reconciliation_lem store (plain_scans (codes "ann" ∷ []) (codes "bob" ∷ [])) 3 bob_link
      bob_link counted bob (λ c. refl) three_pages (inl bob-scanned)

nothing-Represents : Represents store nothing_read empty_ledger
unfolding lookup computed_total
nothing-Represents = record { dialogs = λ u p. refl; totals = λ u. refl }

abbrev steps : List CounterStep
steps = event up down bob ann ∷ event up up bob ann ∷ reconcile bob ∷ []

run-replies_example :
    (get_unread_count store (run store nothing_read steps) up (some bob)
      ≡ ok (
          pos (
            sum_of store (run store nothing_read steps) bob
            + (note_all empty_ledger steps).excess bob)))
    × ((reset_dialog_counter store (run store nothing_read steps) up (some bob) ann).1
        ≡ ok (pos ((note_all empty_ledger steps).unread bob ann)))
run-replies_example = run-replies store steps nothing_read empty_ledger bob ann nothing-Represents

-- The message to Bob is handled at the fifth attempt; the answer of the second command was lost once.
abbrev tries : List Attempt
tries =
    record { first = up; second = down; to = bob; from = ann }
    ∷ record { first = up; second = up; to = ann; from = bob }
    ∷ record { first = down; second = up; to = bob; from = ann }
    ∷ record { first = up; second = lost; to = bob; from = ann }
    ∷ record { first = lost; second = up; to = bob; from = ann }
    ∷ record { first = up; second = up; to = bob; from = ann }
    ∷ []

abbrev settled : Text → PlainHash
settled = (reconcile_user store (run store nothing_read (attempts tries)) bob).0

attempts-exact_example :
    (get_unread_count store settled up (some bob)
      ≡ ok (
          pos (
            sum_of store nothing_read bob
            + total_over (of_user bob) ((bob, ann) ∷ (ann, bob) ∷ [])
            + total_over (of_user bob) ((bob, ann) ∷ []))))
    × ((reset_dialog store settled bob ann).1
        ≡ pos (
            0
            + total_over (of_dialog bob ann) ((bob, ann) ∷ (ann, bob) ∷ [])
            + total_over (of_dialog bob ann) ((bob, ann) ∷ [])))
attempts-exact_example =
    attempts-exact store nothing_read empty_ledger tries ((bob, ann) ∷ (ann, bob) ∷ []) bob ann
      nothing-Represents (Perm.swap (bob, ann) (ann, bob) [])
