-- ===== src/Counter/Resets.antt =====
-- What `counter_reset_dialog` does to the total and the dialogs.
pub mod Replies
use otus_highload_architect.Prelude.{
  ℕ, zero, false, suc, ◌+◌, ◌-◌, ◌≡◌, refl, ap, ◌∙◌, ◌&&◌, some, arith, if◌then◌else◌, Text,
  bytes_eq, bytes_eq_iff, bytes_eq_refl,
}
use otus_highload_architect.Prelude.Int.{ℤ, pos, neg_part, pos_part, neg, ltb_ℤ, ◌+ℤ◌}
use otus_highload_architect.Platform.Hashes.{Hashes, hget, value_or_zero}
use otus_highload_architect.Counter.{
  count_message, counters_key, dialog_field, total_field, up, weight, computed_total, reset_dialog,
}
use otus_highload_architect.Counter.Sums.{weight_at, computed_total-ext}
use otus_highload_architect.Counter.Steps.{
  pos-suc, total-count_message, sum-count_message, count_message-fields, dialog_field-eq,
  total-ne-dialog, counters_key-eq, dialog-ne-total, weight-total, weight_at-total, weight-dialog,
  weight_at-dialog, total_of, dialog_of, sum_of, sum-written, sum-hincrby,
}

lowered : (t : ℤ) (n m : ℕ) → t ≡ pos (n + m) → t +ℤ neg (pos n) ≡ pos m
unfolding ◌+ℤ◌
lowered t n m h = ground arith

no_drift : (v : ℤ) (n : ℕ) → v ≡ pos n → v ≡ pos (n + 0)
no_drift v n h = ground arith

drift_free : (v : ℤ) (n : ℕ) → v ≡ pos (n + 0) → v ≡ pos n
drift_free v n h = ground arith

module _ (r : Hashes) where
  sum-hset :
      (s : r.Store) (k f : Text) (v : ℤ)
      → computed_total (r.fields (r.hset s k f v) k) + weight_at f (hget r s k f)
        ≡ computed_total (r.fields s k) + weight f v
  sum-hset s k f v = sum-written r s (r.hset s k f v) k f v (r.lookup-hset s k f v)

  zeroed : r.Store → Text → Text → r.Store
  zeroed s user partner = r.hset s (counters_key user) (dialog_field partner) (pos 0)

  reset : r.Store → Text → Text → r.Store
  unfolding zeroed
  reset s user partner =
      r.hincrby (zeroed s user partner) (counters_key user) total_field
        (neg (dialog_of r s user partner))

  sum-reset :
      (s : r.Store) (user partner : Text)
      → sum_of r (reset s user partner) user + pos_part (dialog_of r s user partner)
        ≡ sum_of r s user
  unfolding reset zeroed
  sum-reset s user partner =
      let key = counters_key user in
      omega (
        arith,
        sum-hset s key (dialog_field partner) (pos 0),
        weight_at-dialog partner (hget r s key (dialog_field partner)),
        weight-dialog partner (pos 0),
        sum-hincrby r (zeroed s user partner) key total_field (neg (dialog_of r s user partner)),
        weight_at-total (hget r (zeroed s user partner) key total_field),
        weight-total (
            value_or_zero (hget r (zeroed s user partner) key total_field)
            +ℤ neg (dialog_of r s user partner)),
      )

  reset-fields :
      (s : r.Store) (user partner j g : Text)
      → hget r (reset s user partner) j g ≡ (
          if bytes_eq (counters_key user) j && bytes_eq total_field g
          then some (value_or_zero (hget r s j g) +ℤ neg (dialog_of r s user partner))
          else if bytes_eq (counters_key user) j && bytes_eq (dialog_field partner) g
          then some (pos 0)
          else hget r s j g)
  unfolding reset zeroed
  reset-fields s user partner j g = ground (
    arith,
    r.lookup-hincrby (zeroed s user partner) (counters_key user) total_field
        (neg (dialog_of r s user partner)) j g,
    r.lookup-hset s (counters_key user) (dialog_field partner) (pos 0) j g,
    bytes_eq_iff total_field g,
    bytes_eq_iff (dialog_field partner) g,
    dialog-ne-total partner,
    bytes_eq_iff (dialog_field partner) total_field,
  )

  -- A positive count and a total that stays at zero or above: neither guard of the script fires.
  unguarded :
      (d new : ℤ) (a b c : r.Store) (n m : ℕ)
      → d ≡ pos (suc n)
      → new ≡ pos m
      → ◌≡◌ {A = r.Store × ℤ}
          (if ltb_ℤ (pos 0) d then (if ltb_ℤ new (pos 0) then (a, d) else (b, d)) else (c, d))
          (b, pos (suc n))
  unguarded d new a b c n m e f = ground arith

  -- The total may be too high by some `d`: a reset keeps the excess.
  total-reset :
      (s : r.Store) (user partner : Text) (n d : ℕ)
      → total_of r s user ≡ pos (sum_of r s user + d)
      → dialog_of r s user partner ≡ pos n
      → total_of r (reset s user partner) user ≡ pos (sum_of r (reset s user partner) user + d)
  total-reset s user partner n d c e =
      let m = sum_of r (reset s user partner) user + d in
      let sum : sum_of r s user + d ≡ n + m =
        omega (arith, sum-reset s user partner, ap pos_part e) in
      let field : total_of r (reset s user partner) user
          ≡ total_of r s user +ℤ neg (dialog_of r s user partner) =
        ground (
          arith,
          reset-fields s user partner (counters_key user) total_field,
          bytes_eq_refl (counters_key user),
          bytes_eq_refl total_field,
        ) in
      field
      ∙ ap (λ x. total_of r s user +ℤ neg x) e
      ∙ lowered (total_of r s user) n m (c ∙ ap pos sum)

  reset_dialog_run :
      (s : r.Store) (user partner : Text) (n d : ℕ)
      → total_of r s user ≡ pos (sum_of r s user + d)
      → dialog_of r s user partner ≡ pos (suc n)
      → reset_dialog r s user partner ≡ (reset s user partner, pos (suc n))
  unfolding reset_dialog reset zeroed
  reset_dialog_run s user partner n d c e =
      unguarded (dialog_of r s user partner) (total_of r (reset s user partner) user) _
        (reset s user partner) s n _ e (total-reset s user partner (suc n) d c e)

  reset-other :
      (s : r.Store) (user partner u : Text)
      → bytes_eq user u ≡ false
      → (total_of r (reset s user partner) u ≡ total_of r s u)
        × (sum_of r (reset s user partner) u ≡ sum_of r s u)
  reset-other s user partner u h =
      let same : (g : Text)
          → hget r (reset s user partner) (counters_key u) g ≡ hget r s (counters_key u) g =
        λ g.
          ground (arith, reset-fields s user partner (counters_key u) g, counters_key-eq user u) in
      (
        ap value_or_zero (same total_field),
        computed_total-ext _ (r.fields s (counters_key u)) (r.fields-IsDistinct _ _)
            (r.fields-IsDistinct s _) same,
      )

  reset-dialogs :
      (s : r.Store) (user partner u p : Text)
      → dialog_of r (reset s user partner) u p
        ≡ (if bytes_eq user u && bytes_eq partner p then pos 0 else dialog_of r s u p)
  reset-dialogs s user partner u p = ground (
    arith,
    reset-fields s user partner (counters_key u) (dialog_field p),
    counters_key-eq user u,
    total-ne-dialog p,
    dialog_field-eq partner p,
  )

  -- A dialog that counts nothing is left as it is, and so is the rest of the store.
  pub reset_dialog-none :
      (s : r.Store) (user partner : Text)
      → pos_part (dialog_of r s user partner) ≡ 0
      → reset_dialog r s user partner ≡ (s, dialog_of r s user partner)
  unfolding reset_dialog
  reset_dialog-none s user partner h = ground arith

  -- A reset whatever the count is.
  pub reset_dialog_drift :
      (s : r.Store) (user partner : Text) (n d : ℕ)
      → total_of r s user ≡ pos (sum_of r s user + d)
      → dialog_of r s user partner ≡ pos n
      → let t = (reset_dialog r s user partner).0 in
        (total_of r t user ≡ pos (sum_of r t user + d))
        × ((reset_dialog r s user partner).1 ≡ pos n)
        × ((u p : Text)
            → dialog_of r t u p
              ≡ (if bytes_eq user u && bytes_eq partner p then pos 0 else dialog_of r s u p))
        × ((u : Text)
            → bytes_eq user u ≡ false
            → (total_of r t u ≡ total_of r s u) × (sum_of r t u ≡ sum_of r s u))
        × (sum_of r t user + n ≡ sum_of r s user)
  reset_dialog_drift s user partner zero d c e =
      rw (reset_dialog-none s user partner (ap pos_part e)) (
        c,
        e,
        λ u p. ground (
          arith,
          bytes_eq_iff user u,
          bytes_eq_iff partner p,
          λ (x : user ≡ u). ap (λ y. dialog_of r s y p) x,
          λ (x : partner ≡ p). ap (λ y. dialog_of r s user y) x,
        ),
        λ u h. (refl, refl),
        omega arith,
      )
  reset_dialog_drift s user partner (suc n) d c e = rw (reset_dialog_run s user partner n d c e) (
    total-reset s user partner (suc n) d c e,
    refl,
    reset-dialogs s user partner,
    reset-other s user partner,
    omega (arith, sum-reset s user partner, ap pos_part e),
  )

  -- A message that is counted and read takes with it what its recipient had not read of the dialog.
  pub reset-count_message :
      (s : r.Store) (to from : Text) (n d : ℕ)
      → dialog_of r s to from ≡ pos n
      → total_of r s to ≡ pos (sum_of r s to + d)
      → total_of r (reset_dialog r (count_message r s up up to from).0 to from).0 to
        ≡ pos (sum_of r s to + d - n)
  reset-count_message s to from n d e c =
      let t = (count_message r s up up to from).0 in
      let one : dialog_of r t to from ≡ dialog_of r s to from +ℤ pos 1 = ground (
        arith,
        count_message-fields r s to from (counters_key to) (dialog_field from),
        bytes_eq_refl (counters_key to),
        bytes_eq_refl (dialog_field from),
      ) in
      let sum = sum-count_message r s to from (ap neg_part e) in
      let high : total_of r t to ≡ pos (sum_of r t to + d) =
        total-count_message r s to from ∙ pos-suc _ _ c ∙ ap pos (omega (arith, sum)) in
      let (total, value, dialogs, others, rest) =
        reset_dialog_drift t to from (n + 1) d high (one ∙ pos-suc _ _ e) in
      total ∙ ap pos (omega (arith, rest, sum))
