-- ===== src/Counter/History/Order.antt =====
-- The queue may hand out the events in any order: the counters end with the same replies.
use otus_highload_architect.Prelude.{
  ℕ, ◌+◌, ◌≡◌, refl, sym, ap, ◌∙◌, ◌&&◌, some, List, [], ◌∷◌, arith, if◌then◌else◌, Text, bytes_eq,
  bytes_eq_refl, ok,
}
use mathlib.Core.List.{Perm, Permᴰ}
use mathlib.Core.Logic.{∥∥₁_elim}
use otus_highload_architect.Prelude.Int.{pos, ◌+ℤ◌}
use otus_highload_architect.Platform.Hashes.{Hashes}
use otus_highload_architect.Counter.{
  counters_key, total_field, up, reset_dialog, get_unread_count, count_message, extract_user_id,
}
use otus_highload_architect.Counter.Steps.{total_of, sum_of, counters_key-eq, count_message-fields}
use otus_highload_architect.Counter.Resets.{reset_dialog_drift}
use otus_highload_architect.Counter.History.{
  CounterStep, event, Ledger, note, perform, run, note_all, Represents,
}
use otus_highload_architect.Counter.History.Replies.{run-Represents}

-- The events of messages, each with its recipient and its sender, all of them counted whole.
abbrev pub whole : List (Text × Text) → List CounterStep
whole [] = []
whole ((to, from) ∷ events) = event up up to from ∷ whole events

unfoldable pub total_over {ℓ} : {A : Type ℓ} → (A → ℕ) → List A → ℕ
total_over f [] = 0
total_over f (a ∷ l) = f a + total_over f l

total_over-Permᴰ {ℓ} :
    {A : Type ℓ} (f : A → ℕ) (l m : List A) → Permᴰ l m → total_over f l ≡ total_over f m
unfolding total_over
total_over-Permᴰ f l m Permᴰ.nil = refl
total_over-Permᴰ f l m (Permᴰ.cons {l₁ = xs} {l₂ = ys} e d) =
    omega (arith, ap f e, total_over-Permᴰ f xs ys d)
total_over-Permᴰ f l m (Permᴰ.swap e₁ e₂) = omega (arith, ap f e₁, ap f e₂)
total_over-Permᴰ f l m (Permᴰ.trans {l₂ = xs} d₁ d₂) =
    total_over-Permᴰ f l xs d₁ ∙ total_over-Permᴰ f xs m d₂

pub total_over-Perm {ℓ} :
    {A : Type ℓ} (f : A → ℕ) (l m : List A) → Perm l m → total_over f l ≡ total_over f m
total_over-Perm f l m h = ∥∥₁_elim h (hlevel) (λ d. total_over-Permᴰ f l m d)

abbrev pub of_dialog : Text → Text → Text × Text → ℕ
of_dialog user partner (to, from) = if bytes_eq to user && bytes_eq from partner then 1 else 0

abbrev pub of_user : Text → Text × Text → ℕ
of_user user (to, from) = if bytes_eq to user then 1 else 0

unread-whole :
    (events : List (Text × Text)) (l : Ledger) (user partner : Text)
    → (note_all l (whole events)).unread user partner
      ≡ l.unread user partner + total_over (of_dialog user partner) events
unfolding note_all total_over
unread-whole [] l user partner = omega arith
unread-whole ((to, from) ∷ events) l user partner =
    ground (arith, unread-whole events (note l (event up up to from)) user partner)

module _ (r : Hashes) where
  pub total-event :
      (s : r.Store) (to from user : Text) (n : ℕ)
      → total_of r s user ≡ pos n
      → total_of r (count_message r s up up to from).0 user
        ≡ pos (n + (if bytes_eq to user then 1 else 0))
  unfolding ◌+ℤ◌
  total-event s to from user n h = ground (
    arith,
    h,
    count_message-fields r s to from (counters_key user) total_field,
    counters_key-eq to user,
    bytes_eq_refl total_field,
  )

  total-whole :
      (events : List (Text × Text)) (s : r.Store) (user : Text) (n : ℕ)
      → total_of r s user ≡ pos n
      → total_of r (run r s (whole events)) user ≡ pos (n + total_over (of_user user) events)
  unfolding run perform total_over
  total-whole [] s user n h = h ∙ ap pos (omega arith)
  total-whole ((to, from) ∷ events) s user n h =
      total-whole events (count_message r s up up to from).0 user (n + of_user user (to, from))
        (total-event s to from user n h)
      ∙ ap pos (omega arith)

  -- Two orders of the same events, from a store that stands for a ledger: a query gets the same answer
  -- after the one as after the other, and a reset of any dialog returns the same count.
  pub whole-Perm :
      (s : r.Store) (l : Ledger) (events others : List (Text × Text)) (user partner : Text)
      → Represents r s l
      → Perm events others
      → let t = run r s (whole events) in
        let u = run r s (whole others) in
        (get_unread_count r t up (some user) ≡ get_unread_count r u up (some user))
        × ((reset_dialog r t user partner).1 ≡ (reset_dialog r u user partner).1)
  unfolding get_unread_count extract_user_id
  whole-Perm s l events others user partner h same =
      let n = sum_of r s user + l.excess user in
      let a = run-Represents r (whole events) s l h in
      let b = run-Represents r (whole others) s l h in
      let by_user = total_over-Perm (of_user user) events others same in
      let by_dialog = total_over-Perm (of_dialog user partner) events others same in
      let total : total_of r (run r s (whole events)) user
          ≡ total_of r (run r s (whole others)) user =
        total-whole events s user n (h.totals user)
        ∙ ap (λ k. pos (n + k)) by_user
        ∙ sym (total-whole others s user n (h.totals user)) in
      let unread : (note_all l (whole events)).unread user partner
          ≡ (note_all l (whole others)).unread user partner =
        omega (
          arith,
          unread-whole events l user partner,
          unread-whole others l user partner,
          by_dialog,
        ) in
      (
        ap ok total,
        (reset_dialog_drift r _ user partner _ _ (a.totals user) (a.dialogs user partner)).1
            ∙ ap pos unread
            ∙ sym
                (reset_dialog_drift r _ user partner _ _ (b.totals user)
                  (b.dialogs user partner)).1,
      )
