-- ===== src/Counter/Resets/Replies.antt =====
-- What the calls of counter-service answer around a reset.
use otus_highload_architect.Prelude.{
  ℕ, suc, ◌-◌, ◌≡◌, refl, ap, ◌&&◌, none, some, arith, if◌then◌else◌, Text, bytes_eq,
  unauthenticated, ok, throw,
}
use otus_highload_architect.Prelude.Int.{pos, pos_part, neg, ◌+ℤ◌}
use otus_highload_architect.Platform.Hashes.{Hashes, hget, value_or_zero}
use otus_highload_architect.Counter.{
  counters_key, dialog_field, total_field, Connection, up, reset_dialog, get_unread_count,
  reset_dialog_counter,
}
use otus_highload_architect.Counter.Steps.{dialog_of, sum_of, IsConsistent}
use otus_highload_architect.Counter.Resets.{
  no_drift, drift_free, reset, sum-reset, reset-fields, total-reset, reset_dialog_run,
}

module _ (r : Hashes) where
  -- For a user whose total is the sum of the dialogs, a reset of a dialog with a count above zero returns
  -- the count of the dialog, sets it to zero, takes it off the total, and leaves the total the sum; no other field of any hash changes.
  pub reset_dialog_lem :
      (s : r.Store) (user partner : Text) (n : ℕ)
      → IsConsistent r s user
      → dialog_of r s user partner ≡ pos (suc n)
      → ((reset_dialog r s user partner).1 ≡ pos (suc n))
        × IsConsistent r (reset_dialog r s user partner).0 user
        × ((j g : Text)
            → hget r (reset_dialog r s user partner).0 j g ≡ (
                if bytes_eq (counters_key user) j && bytes_eq total_field g
                then some (value_or_zero (hget r s j g) +ℤ neg (pos (suc n)))
                else if bytes_eq (counters_key user) j && bytes_eq (dialog_field partner) g
                then some (pos 0)
                else hget r s j g))
  reset_dialog_lem s user partner n c e =
      rw (reset_dialog_run r s user partner n 0 (no_drift _ _ c) e) (
        refl,
        drift_free _ _ (total-reset r s user partner (suc n) 0 (no_drift _ _ c) e),
        λ j g. rw e at (reset-fields r s user partner j g),
      )

  -- Through the gRPC calls, with a server that answers, a consistent total and a dialog with a count above
  -- zero: a query gives the sum of the dialogs, a reset returns the count of the
  -- dialog, and the next query gives the sum less that count.
  pub unread-reset :
      (s : r.Store) (user partner : Text) (n : ℕ)
      → IsConsistent r s user
      → dialog_of r s user partner ≡ pos (suc n)
      → (t : r.Store) × (reset_dialog_counter r s up (some user) partner ≡ (t, ok (pos (suc n))))
        × (get_unread_count r s up (some user) ≡ ok (pos (sum_of r s user)))
        × (get_unread_count r t up (some user) ≡ ok (pos (sum_of r s user - suc n)))
  unfolding reset_dialog_counter get_unread_count
  unread-reset s user partner n c e = (
    reset r s user partner,
    rw (reset_dialog_run r s user partner n 0 (no_drift _ _ c) e),
    rw c,
    rw (drift_free _ _ (total-reset r s user partner (suc n) 0 (no_drift _ _ c) e))
        (ap (λ (x : ℕ). ok (pos x)) (omega (arith, sum-reset r s user partner, ap pos_part e))),
  )

  pub refused :
      (s : r.Store) (connection : Connection) (partner : Text)
      → (get_unread_count r s connection none ≡ throw unauthenticated)
        × (reset_dialog_counter r s connection none partner ≡ (s, throw unauthenticated))
  unfolding get_unread_count reset_dialog_counter
  refused s connection partner = (refl, refl)
