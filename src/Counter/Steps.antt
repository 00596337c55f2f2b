-- ===== src/Counter/Steps.antt =====
-- What an event, a reset and their failures do to a user's total and dialog counts.
use otus_highload_architect.Prelude.{
  ℕ, ◌+◌, ◌≡◌, refl, sym, ap, ◌∙◌, inl, inr, false, ◌&&◌, ◌||◌, Option, none, some, arith,
  if◌then◌else◌, Bool-cases, Text, bytes_eq, bytes_eq_iff, bytes_eq_refl,
}
use mathlib.Core.Path.{subst}
use otus_highload_architect.Prelude.Int.{ℤ, pos, pos_part, neg_part, ◌+ℤ◌}
use otus_highload_architect.Prelude.Maps.{lookup}
use otus_highload_architect.Platform.Hashes.{Hashes, hget, value_or_zero}
use otus_highload_architect.Counter.{
  counters_key, dialog_field, total_field, up, weight, computed_total, count_message,
}
use otus_highload_architect.Counter.Sums.{weight_at, computed_total-set, computed_total-ext}

pub counters_key-eq : (u v : Text) → bytes_eq (counters_key u) (counters_key v) ≡ bytes_eq u v
unfolding bytes_eq
counters_key-eq u v = refl

pub dialog_field-eq : (u v : Text) → bytes_eq (dialog_field u) (dialog_field v) ≡ bytes_eq u v
unfolding bytes_eq
dialog_field-eq u v = refl

pub total-ne-dialog : (x : Text) → bytes_eq total_field (dialog_field x) ≡ false
unfolding bytes_eq
total-ne-dialog x = refl

pub dialog-ne-total : (x : Text) → bytes_eq (dialog_field x) total_field ≡ false
unfolding bytes_eq
dialog-ne-total x = refl

pub weight-total : (v : ℤ) → weight total_field v ≡ 0
unfolding weight
weight-total v = rw (bytes_eq_refl total_field)

pub weight-dialog : (x : Text) (v : ℤ) → weight (dialog_field x) v ≡ pos_part v
unfolding weight
weight-dialog x v = rw (dialog-ne-total x) (ground arith)

pub weight_at-total : (o : Option ℤ) → weight_at total_field o ≡ 0
weight_at-total none = refl
weight_at-total (some v) = weight-total v

pub weight_at-dialog :
    (x : Text) (o : Option ℤ) → weight_at (dialog_field x) o ≡ pos_part (value_or_zero o)
weight_at-dialog x none = refl
weight_at-dialog x (some v) = weight-dialog x v

pos_part-suc : (v : ℤ) → neg_part v ≡ 0 → pos_part (v +ℤ pos 1) ≡ pos_part v + 1
unfolding ◌+ℤ◌
pos_part-suc v h = ground arith

pub pos-suc : (v : ℤ) (n : ℕ) → v ≡ pos n → v +ℤ pos 1 ≡ pos (n + 1)
unfolding ◌+ℤ◌
pos-suc v n h = ground arith

module _ (r : Hashes) where
  -- The total that is stored for a user, and the count of a dialog.
  abbrev pub total_of : r.Store → Text → ℤ
  total_of s user = value_or_zero (hget r s (counters_key user) total_field)

  abbrev pub dialog_of : r.Store → Text → Text → ℤ
  dialog_of s user partner = value_or_zero (hget r s (counters_key user) (dialog_field partner))

  abbrev pub sum_of : r.Store → Text → ℕ
  sum_of s user = computed_total (r.fields s (counters_key user))

  -- The stored total is the sum of the dialogs that count.
  abbrev pub IsConsistent : r.Store → Text → Type 0
  IsConsistent s user = total_of s user ≡ pos (sum_of s user)

  module _ (s t : r.Store) (k f : Text) (v : ℤ)
      (wrote : (j g : Text)
        → lookup g (r.fields t j)
          ≡ (if bytes_eq k j && bytes_eq f g then some v else lookup g (r.fields s j))) where
    pub sum-written :
        computed_total (r.fields t k) + weight_at f (lookup f (r.fields s k))
        ≡ computed_total (r.fields s k) + weight f v
    sum-written =
        computed_total-set f v (r.fields s k) (r.fields t k) (r.fields-IsDistinct s k)
          (r.fields-IsDistinct t k) (λ g. ground (arith, wrote k g, bytes_eq_refl k))

    pub sum-other :
        (j : Text)
        → bytes_eq k j ≡ false
        → computed_total (r.fields t j) ≡ computed_total (r.fields s j)
    sum-other j h =
        computed_total-ext (r.fields t j) (r.fields s j) (r.fields-IsDistinct t j)
          (r.fields-IsDistinct s j) (λ g. ground (arith, wrote j g))

  module _ (s : r.Store) (k f : Text) (d : ℤ) where
    incremented :
        (j g : Text)
        → lookup g (r.fields (r.hincrby s k f d) j) ≡ (
            if bytes_eq k j && bytes_eq f g
            then some (value_or_zero (lookup f (r.fields s k)) +ℤ d)
            else lookup g (r.fields s j))
    incremented j g = ground (
      arith,
      r.lookup-hincrby s k f d j g,
      bytes_eq_iff k j,
      bytes_eq_iff f g,
      λ (e : k ≡ j). ap (λ x. lookup g (r.fields s x)) e,
      λ (e : f ≡ g). ap (λ x. lookup x (r.fields s k)) e,
    )

    pub sum-hincrby :
        computed_total (r.fields (r.hincrby s k f d) k) + weight_at f (hget r s k f)
        ≡ computed_total (r.fields s k) + weight f (value_or_zero (hget r s k f) +ℤ d)
    sum-hincrby = sum-written s (r.hincrby s k f d) k f _ incremented

    pub sum-hincrby_other :
        (j : Text)
        → bytes_eq k j ≡ false
        → computed_total (r.fields (r.hincrby s k f d) j) ≡ computed_total (r.fields s j)
    sum-hincrby_other = sum-other s (r.hincrby s k f d) k f _ incremented

  -- An event that is counted whole raises the total of the recipient and the count of the sender's
  -- dialog by one, and no other field of any hash.
  pub count_message-fields :
      (s : r.Store) (to from j g : Text)
      → lookup g (r.fields (count_message r s up up to from).0 j) ≡ (
          if bytes_eq (counters_key to) j
            && (bytes_eq total_field g || bytes_eq (dialog_field from) g)
          then some (value_or_zero (lookup g (r.fields s j)) +ℤ pos 1)
          else lookup g (r.fields s j))
  unfolding count_message
  count_message-fields s to from j g = ground (
    arith,
    r.lookup-hincrby s (counters_key to) total_field (pos 1) j g,
    r.lookup-hincrby (r.hincrby s (counters_key to) total_field (pos 1)) (counters_key to)
        (dialog_field from) (pos 1) j g,
    bytes_eq_iff total_field g,
    bytes_eq_iff (dialog_field from) g,
    total-ne-dialog from,
    bytes_eq_iff total_field (dialog_field from),
  )

  pub sum-count_message :
      (s : r.Store) (to from : Text)
      → neg_part (dialog_of s to from) ≡ 0
      → sum_of (count_message r s up up to from).0 to ≡ sum_of s to + 1
  unfolding count_message
  sum-count_message s to from h =
      let key = counters_key to in
      let first = r.hincrby s key total_field (pos 1) in
      let v = dialog_of s to from in
      let same : hget r first key (dialog_field from) ≡ hget r s key (dialog_field from) = ground (
        arith,
        r.lookup-hincrby s key total_field (pos 1) key (dialog_field from),
        total-ne-dialog from,
      ) in
      let old : weight_at (dialog_field from) (hget r first key (dialog_field from)) ≡ pos_part v =
        ap (weight_at (dialog_field from)) same ∙ weight_at-dialog from _ in
      let new : weight (dialog_field from)
            (value_or_zero (hget r first key (dialog_field from)) +ℤ pos 1)
          ≡ pos_part v + 1 =
        ap (λ o. weight (dialog_field from) (value_or_zero o +ℤ pos 1)) same
        ∙ weight-dialog from (v +ℤ pos 1)
        ∙ pos_part-suc v h in
      omega (
        arith,
        sum-hincrby s key total_field (pos 1),
        weight_at-total (hget r s key total_field),
        weight-total (value_or_zero (hget r s key total_field) +ℤ pos 1),
        sum-hincrby first key (dialog_field from) (pos 1),
        old,
        new,
      )

  pub total-count_message :
      (s : r.Store) (to from : Text)
      → total_of (count_message r s up up to from).0 to ≡ total_of s to +ℤ pos 1
  total-count_message s to from = ground (
    arith,
    count_message-fields s to from (counters_key to) total_field,
    bytes_eq_refl (counters_key to),
    bytes_eq_refl total_field,
  )

  pub count_message-other :
      (s : r.Store) (to from user : Text)
      → bytes_eq to user ≡ false
      → (total_of (count_message r s up up to from).0 user ≡ total_of s user)
        × (sum_of (count_message r s up up to from).0 user ≡ sum_of s user)
  count_message-other s to from user h = (
    ground (
      arith,
      count_message-fields s to from (counters_key user) total_field,
      counters_key-eq to user,
    ),
    computed_total-ext _ (r.fields s (counters_key user)) (r.fields-IsDistinct _ _)
        (r.fields-IsDistinct s _)
        (λ g.
          ground
            (arith, count_message-fields s to from (counters_key user) g, counters_key-eq to user)),
  )

  -- An event that is counted whole raises the total of the recipient and the count of the sender's
  -- dialog by one and no other field of any hash, and keeps a user's total the sum of the dialogs,
  -- as long as the dialog's count was not below zero.
  pub count_message_lem :
      (s : r.Store) (to from user : Text)
      → neg_part (dialog_of s to from) ≡ 0
      → IsConsistent s user
      → ((j g : Text)
          → hget r (count_message r s up up to from).0 j g ≡ (
              if bytes_eq (counters_key to) j
                && (bytes_eq total_field g || bytes_eq (dialog_field from) g)
              then some (value_or_zero (hget r s j g) +ℤ pos 1)
              else hget r s j g))
        × IsConsistent (count_message r s up up to from).0 user
  count_message_lem s to from user h c = (
    count_message-fields s to from,
    elim (Bool-cases (bytes_eq to user)) [
      | inl e ↦
          subst (λ x. IsConsistent s x → IsConsistent (count_message r s up up to from).0 x)
            ((bytes_eq_iff to user).0 e)
            (λ d.
              total-count_message s to from
              ∙ pos-suc (total_of s to) (sum_of s to) d
              ∙ ap pos (sym (sum-count_message s to from h)))
            c
      | inr e ↦ let same = count_message-other s to from user e in same.0 ∙ c ∙ ap pos (sym same.1)
    ],
  )
