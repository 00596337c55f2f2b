-- ===== src/Counter/Reconcile.antt =====
-- The reconciler: it makes every total that it reaches the sum of the dialogs, whatever went wrong
-- before, and touches nothing else.
use otus_highload_architect.Prelude.{
  ◌+◌, ◌≡◌, refl, sym, ap, ◌∙◌, ◌⊎◌, inl, inr, true, false, ◌&&◌, some, List, [], ◌∷◌, arith,
  if◌then◌else◌, Bool-cases, drop, Text, bytes_eq, bytes_eq_iff, bytes_eq_refl, mem_bytes,
  database_error, throw,
}
use mathlib.Core.Path.{subst}
use otus_highload_architect.Prelude.Int.{pos, ◌+ℤ◌}
use otus_highload_architect.Platform.Hashes.{Hashes, hget}
use otus_highload_architect.Counter.{
  is_run, counters_key, total_field, Connection, up, down, count_message, reconcile_user,
  reconcile_keys,
}
use otus_highload_architect.Counter.Steps.{
  pos-suc, counters_key-eq, weight-total, weight_at-total, total_of, sum_of, IsConsistent,
  sum-written, sum-other, sum-hincrby,
}

module _ (r : Hashes) where
  pub reconcile-sum :
      (s : r.Store) (user : Text) → sum_of r (reconcile_user r s user).0 user ≡ sum_of r s user
  unfolding reconcile_user
  reconcile-sum s user = omega (
    arith,
    sum-written r s (reconcile_user r s user).0 (counters_key user) total_field _
        (r.lookup-hset s (counters_key user) total_field (pos (sum_of r s user))),
    weight_at-total (hget r s (counters_key user) total_field),
    weight-total (pos (sum_of r s user)),
  )

  pub reconcile-fields :
      (s : r.Store) (user j g : Text)
      → hget r (reconcile_user r s user).0 j g ≡ (
          if bytes_eq (counters_key user) j && bytes_eq total_field g
          then some (pos (sum_of r s user))
          else hget r s j g)
  unfolding reconcile_user
  reconcile-fields s user j g =
      r.lookup-hset s (counters_key user) total_field (pos (sum_of r s user)) j g

  reconcile-value :
      (s : r.Store) (user : Text) → (reconcile_user r s user).1 ≡ pos (sum_of r s user)
  unfolding reconcile_user
  reconcile-value s user = refl

  pub reconcile-other :
      (s : r.Store) (user v : Text)
      → bytes_eq user v ≡ false
      → sum_of r (reconcile_user r s user).0 v ≡ sum_of r s v
  unfolding reconcile_user
  reconcile-other s user v h =
      sum-other r s (reconcile_user r s user).0 (counters_key user) total_field _
        (r.lookup-hset s (counters_key user) total_field (pos (sum_of r s user))) (counters_key v)
        (counters_key-eq user v ∙ h)

  -- From any state, reconciling a user makes the stored total the sum of the dialogs, returns it, and
  -- changes no other field of any hash.
  pub reconcile_user_lem :
      (s : r.Store) (user : Text)
      → IsConsistent r (reconcile_user r s user).0 user
        × ((reconcile_user r s user).1 ≡ pos (sum_of r s user))
        × ((j g : Text)
            → hget r (reconcile_user r s user).0 j g ≡ (
                if bytes_eq (counters_key user) j && bytes_eq total_field g
                then some (pos (sum_of r s user))
                else hget r s j g))
  reconcile_user_lem s user = (
    rw (reconcile-sum s user) (
        ground (
          arith,
          reconcile-fields s user (counters_key user) total_field,
          bytes_eq_refl (counters_key user),
          bytes_eq_refl total_field,
        )),
    reconcile-value s user,
    reconcile-fields s user,
  )

  reconcile-keeps :
      (s : r.Store) (user v : Text)
      → IsConsistent r s v
      → IsConsistent r (reconcile_user r s user).0 v
  reconcile-keeps s user v c = elim (Bool-cases (bytes_eq user v)) [
    | inl e ↦
        subst (IsConsistent r (reconcile_user r s user).0) ((bytes_eq_iff user v).0 e)
          (reconcile_user_lem s user).0
    | inr e ↦ ground (
      arith,
      reconcile-fields s user (counters_key v) total_field,
      counters_key-eq user v,
      ap pos (reconcile-other s user v e),
    )
  ]

  -- For a user whose total is the sum of the dialogs, an event whose second command fails throws and
  -- leaves the total one too high; the next reconciliation puts the total back to the sum of the dialogs
  -- as they were before the event.
  pub partial_count-reconciled :
      (s : r.Store) (to from : Text)
      → IsConsistent r s to
      → let t = (count_message r s up down to from).0 in
        ((count_message r s up down to from).1 ≡ throw database_error)
        × (total_of r t to ≡ pos (sum_of r s to + 1))
        × (sum_of r t to ≡ sum_of r s to)
        × (total_of r (reconcile_user r t to).0 to ≡ pos (sum_of r s to))
  unfolding count_message
  partial_count-reconciled s to from c =
      let t = r.hincrby s (counters_key to) total_field (pos 1) in
      let same : sum_of r t to ≡ sum_of r s to = omega (
        arith,
        sum-hincrby r s (counters_key to) total_field (pos 1),
        weight_at-total (hget r s (counters_key to) total_field),
        weight-total (total_of r s to +ℤ pos 1),
      ) in
      (
        refl,
        ground (
          arith,
          r.lookup-hincrby s (counters_key to) total_field (pos 1) (counters_key to) total_field,
          bytes_eq_refl (counters_key to),
          bytes_eq_refl total_field,
          pos-suc (total_of r s to) (sum_of r s to) c,
        ),
        same,
        (reconcile_user_lem t to).0 ∙ ap pos (reconcile-sum t to ∙ same),
      )

  reconcile_keys-keeps :
      (link : Text → Connection) (s : r.Store) (keys : List Text) (v : Text)
      → IsConsistent r s v
      → IsConsistent r (reconcile_keys r link s keys) v
  unfolding reconcile_keys
  reconcile_keys-keeps link s [] v c = c
  reconcile_keys-keeps link s (key ∷ keys) v c = elim (Bool-cases (is_run (link (drop 9 key)))) [
    | inl e ↦ rw e (
        reconcile_keys-keeps link (reconcile_user r s (drop 9 key)).0 keys v
          (reconcile-keeps s (drop 9 key) v c))
    | inr e ↦ rw e (reconcile_keys-keeps link s keys v c)
  ]

  -- One page of the reconciler: every user whose key the page lists and whose call reaches the server
  -- ends with the total that is the sum of the dialogs, even where the calls for other keys fail, and a
  -- user that was consistent stays so.
  pub reconcile_keys_lem :
      (link : Text → Connection) (s : r.Store) (keys : List Text) (v : Text)
      → (mem_bytes (counters_key v) keys && is_run (link v)) ≡ true ⊎ IsConsistent r s v
      → IsConsistent r (reconcile_keys r link s keys) v
  unfolding reconcile_keys mem_bytes
  reconcile_keys_lem link s keys v (inr c) = reconcile_keys-keeps link s keys v c
  reconcile_keys_lem link s [] v (inl h) = absurd (ground (arith, h))
  reconcile_keys_lem link s (key ∷ keys) v (inl h) =
      elim (Bool-cases (bytes_eq (counters_key v) key)) [
        | inl e ↦
            let same : drop 9 key ≡ v =
              sym (ap (drop 9) ((bytes_eq_iff (counters_key v) key).0 e)) in
            let reached : is_run (link (drop 9 key)) ≡ true =
              ap (λ u. is_run (link u)) same ∙ ground (arith, h) in
            let done : IsConsistent r (reconcile_user r s (drop 9 key)).0 v =
              subst (IsConsistent r (reconcile_user r s (drop 9 key)).0) same
                (reconcile_user_lem s (drop 9 key)).0 in
            rw reached (reconcile_keys-keeps link (reconcile_user r s (drop 9 key)).0 keys v done)
        | inr e ↦
            let later : (mem_bytes (counters_key v) keys && is_run (link v)) ≡ true =
              ground (
                arith,
                h,
                e,
                bytes_eq_iff key (counters_key v),
                bytes_eq_iff (counters_key v) key,
              ) in
            elim (Bool-cases (is_run (link (drop 9 key)))) [
              | inl u ↦
                  rw u
                    (reconcile_keys_lem link (reconcile_user r s (drop 9 key)).0 keys v (inl later))
              | inr d ↦ rw d (reconcile_keys_lem link s keys v (inl later))
            ]
      ]
