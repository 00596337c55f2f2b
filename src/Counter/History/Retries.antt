-- ===== src/Counter/History/Retries.antt =====
-- Messages of the queue that are handed out again and again until they are handled whole: the queue takes a
-- message back where `CounterConsumer::Process` throws.
use otus_highload_architect.Prelude.{
  ℕ, ◌+◌, ◌≡◌, refl, ap, ◌∙◌, some, List, [], ◌∷◌, ◌++◌, arith, if◌then◌else◌, Text, bytes_eq,
  bytes_eq_refl, ok,
}
use mathlib.Core.List.{Perm}
use otus_highload_architect.Prelude.Int.{pos, pos_part, ◌+ℤ◌}
use otus_highload_architect.Platform.Hashes.{Hashes}
use otus_highload_architect.Counter.{
  counters_key, total_field, Connection, up, down, lost, reset_dialog, reconcile_user,
  get_unread_count, count_message, extract_user_id,
}
use otus_highload_architect.Counter.Steps.{total_of, sum_of, counters_key-eq}
use otus_highload_architect.Counter.Resets.{reset_dialog_drift}
use otus_highload_architect.Counter.Reconcile.{reconcile-sum}
use otus_highload_architect.Counter.History.{
  CounterStep, event, reconcile, Ledger, note, perform, run, note_all, Represents,
}
use otus_highload_architect.Counter.History.Replies.{run-Represents}
use otus_highload_architect.Counter.History.Steps.{reconcile-Represents}
use otus_highload_architect.Counter.History.Order.{
  total_over, total_over-Perm, of_dialog, of_user, total-event,
}

-- One run of `Process`: a message and the connections of its two commands.
pub record Attempt : Type 0 where
  pub first : Connection
  pub second : Connection
  pub to : Text
  pub from : Text

abbrev pub attempts : List Attempt → List CounterStep
attempts [] = []
attempts (a ∷ rest) = event a.first a.second a.to a.from ∷ attempts rest

-- The messages whose run did not throw, which the queue forgets.
abbrev taken : Connection → Connection → Text × Text → List (Text × Text)
taken up up message = message ∷ []
taken up down message = []
taken up lost message = []
taken down second message = []
taken lost second message = []

abbrev pub acknowledged : List Attempt → List (Text × Text)
acknowledged [] = []
acknowledged (a ∷ rest) = taken a.first a.second (a.to, a.from) ++ acknowledged rest

-- The messages that were counted by a run whose second command was run and its answer lost: the queue
-- hands them out again.
abbrev again : Connection → Connection → Text × Text → List (Text × Text)
again up lost message = message ∷ []
again up up message = []
again up down message = []
again down second message = []
again lost second message = []

abbrev pub unconfirmed : List Attempt → List (Text × Text)
unconfirmed [] = []
unconfirmed (a ∷ rest) = again a.first a.second (a.to, a.from) ++ unconfirmed rest

-- The runs for a user that were counted by the first command alone.
abbrev half : Connection → Connection → Text → Text → ℕ
half up down to user = if bytes_eq to user then 1 else 0
half lost second to user = if bytes_eq to user then 1 else 0
half up up to user = 0
half up lost to user = 0
half down second to user = 0

halves : List Attempt → Text → ℕ
halves [] user = 0
halves (a ∷ rest) user = half a.first a.second a.to user + halves rest user

note-unread :
    (first second : Connection) (l : Ledger) (to from user partner : Text)
    → (note l (event first second to from)).unread user partner
      ≡ l.unread user partner
        + total_over (of_dialog user partner) (taken first second (to, from))
        + total_over (of_dialog user partner) (again first second (to, from))
unfolding total_over
note-unread up up l to from user partner = ground arith
note-unread up down l to from user partner = ground arith
note-unread up lost l to from user partner = ground arith
note-unread lost second l to from user partner = ground arith
note-unread down second l to from user partner = ground arith

note-excess :
    (first second : Connection) (l : Ledger) (to from user : Text)
    → (note l (event first second to from)).excess user ≡ l.excess user + half first second to user
note-excess up up l to from user = ground arith
note-excess up down l to from user = ground arith
note-excess up lost l to from user = ground arith
note-excess lost second l to from user = ground arith
note-excess down second l to from user = ground arith

total_over-append {ℓ} :
    {A : Type ℓ} (f : A → ℕ) (xs ys : List A)
    → total_over f (xs ++ ys) ≡ total_over f xs + total_over f ys
unfolding total_over
total_over-append f [] ys = omega arith
total_over-append f (x ∷ xs) ys = omega (arith, total_over-append f xs ys)

attempts-unread :
    (tries : List Attempt) (l : Ledger) (user partner : Text)
    → (note_all l (attempts tries)).unread user partner
      ≡ l.unread user partner
        + total_over (of_dialog user partner) (acknowledged tries)
        + total_over (of_dialog user partner) (unconfirmed tries)
unfolding note_all total_over
attempts-unread [] l user partner = omega arith
attempts-unread (a ∷ rest) l user partner = omega (
  arith,
  attempts-unread rest (note l (event a.first a.second a.to a.from)) user partner,
  note-unread a.first a.second l a.to a.from user partner,
  total_over-append (of_dialog user partner) (taken a.first a.second (a.to, a.from))
      (acknowledged rest),
  total_over-append (of_dialog user partner) (again a.first a.second (a.to, a.from))
      (unconfirmed rest),
)

attempts-excess :
    (tries : List Attempt) (l : Ledger) (user : Text)
    → (note_all l (attempts tries)).excess user ≡ l.excess user + halves tries user
unfolding note_all halves
attempts-excess [] l user = omega arith
attempts-excess (a ∷ rest) l user = omega (
  arith,
  attempts-excess rest (note l (event a.first a.second a.to a.from)) user,
  note-excess a.first a.second l a.to a.from user,
)

module _ (r : Hashes) where
  total-attempt :
      (first second : Connection) (s : r.Store) (to from user : Text) (n : ℕ)
      → total_of r s user ≡ pos n
      → total_of r (count_message r s first second to from).0 user
        ≡ pos (
            n
            + total_over (of_user user) (taken first second (to, from))
            + total_over (of_user user) (again first second (to, from))
            + half first second to user)
  unfolding total_over count_message ◌+ℤ◌
  total-attempt up up s to from user n h = total-event r s to from user n h ∙ ap pos (omega arith)
  total-attempt up lost s to from user n h = total-event r s to from user n h ∙ ap pos (omega arith)
  total-attempt lost second s to from user n h = ground (
    arith,
    h,
    r.lookup-hincrby s (counters_key to) total_field (pos 1) (counters_key user) total_field,
    counters_key-eq to user,
    bytes_eq_refl total_field,
  )
  total-attempt up down s to from user n h = ground (
    arith,
    h,
    r.lookup-hincrby s (counters_key to) total_field (pos 1) (counters_key user) total_field,
    counters_key-eq to user,
    bytes_eq_refl total_field,
  )
  total-attempt down second s to from user n h = h ∙ ap pos (omega arith)

  total-attempts :
      (tries : List Attempt) (s : r.Store) (user : Text) (n : ℕ)
      → total_of r s user ≡ pos n
      → total_of r (run r s (attempts tries)) user
        ≡ pos (
            n
            + total_over (of_user user) (acknowledged tries)
            + total_over (of_user user) (unconfirmed tries)
            + halves tries user)
  unfolding run perform halves total_over
  total-attempts [] s user n h = h ∙ ap pos (omega arith)
  total-attempts (a ∷ rest) s user n h =
      total-attempts rest (count_message r s a.first a.second a.to a.from).0 user _
        (total-attempt a.first a.second s a.to a.from user n h)
      ∙ ap pos (
          omega (
            arith,
            total_over-append (of_user user) (taken a.first a.second (a.to, a.from))
                (acknowledged rest),
            total_over-append (of_user user) (again a.first a.second (a.to, a.from))
                (unconfirmed rest),
          ))

  -- The runs that were not whole leave the dialogs exact, and the totals ahead of them.
  sum-attempts :
      (tries : List Attempt) (s : r.Store) (l : Ledger) (user : Text)
      → Represents r s l
      → sum_of r (run r s (attempts tries)) user
        ≡ sum_of r s user
          + total_over (of_user user) (acknowledged tries)
          + total_over (of_user user) (unconfirmed tries)
  sum-attempts tries s l user h = omega (
    arith,
    ap pos_part (total-attempts tries s user (sum_of r s user + l.excess user) (h.totals user)),
    ap pos_part ((run-Represents r (attempts tries) s l h).totals user),
    attempts-excess tries l user,
  )

  -- Each message is handed out in any order and any number of times, where either command may fail
  -- before it is run or after, until it is handled once without an exception. Once the user is then
  -- reconciled, a query gives the sum of the dialogs of before and one for each message to the user, and
  -- a reset of a dialog returns what was unread in it and one for each message of the partner to the
  -- user; and both count once more each run whose second command was run with its answer lost, and no
  -- other run that failed.
  pub attempts-exact :
      (s : r.Store) (l : Ledger) (tries : List Attempt) (messages : List (Text × Text))
      (user partner : Text)
      → Represents r s l
      → Perm (acknowledged tries) messages
      → let t = (reconcile_user r (run r s (attempts tries)) user).0 in
        (get_unread_count r t up (some user)
          ≡ ok (
              pos (
                sum_of r s user
                + total_over (of_user user) messages
                + total_over (of_user user) (unconfirmed tries))))
        × ((reset_dialog r t user partner).1
            ≡ pos (
                l.unread user partner
                + total_over (of_dialog user partner) messages
                + total_over (of_dialog user partner) (unconfirmed tries)))
  unfolding get_unread_count extract_user_id
  attempts-exact s l tries messages user partner h same =
      let ran = run r s (attempts tries) in
      let m = note_all l (attempts tries) in
      let good = reconcile-Represents r ran m user (run-Represents r (attempts tries) s l h) in
      let none_left : (note m (reconcile user)).excess user ≡ 0 = rw (bytes_eq_refl user) refl in
      let u = (reconcile_user r ran user).0 in
      let sum : sum_of r u user + (note m (reconcile user)).excess user
          ≡ sum_of r s user
            + total_over (of_user user) messages
            + total_over (of_user user) (unconfirmed tries) =
        omega (
          arith,
          reconcile-sum r ran user,
          sum-attempts tries s l user h,
          total_over-Perm (of_user user) (acknowledged tries) messages same,
          none_left,
        ) in
      let unread : m.unread user partner
          ≡ l.unread user partner
            + total_over (of_dialog user partner) messages
            + total_over (of_dialog user partner) (unconfirmed tries) =
        omega (
          arith,
          attempts-unread tries l user partner,
          total_over-Perm (of_dialog user partner) (acknowledged tries) messages same,
        ) in
      (
        rw (good.totals user) (ap (λ n. ok (pos n)) sum),
        (reset_dialog_drift r _ user partner _ _ (good.totals user) (good.dialogs user partner)).1
            ∙ ap pos unread,
      )
