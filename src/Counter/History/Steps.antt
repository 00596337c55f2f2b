-- ===== src/Counter/History/Steps.antt =====
-- Each step of a history keeps the store in step with the ledger.
use otus_highload_architect.Prelude.{
  ℕ, ◌+◌, ◌≡◌, sym, ap, ◌∙◌, inl, inr, Bool, ◌&&◌, arith, if◌then◌else◌, Bool-cases, Text, bytes_eq,
  bytes_eq_iff, bytes_eq_refl,
}
use mathlib.Core.Path.{subst}
use otus_highload_architect.Prelude.Int.{ℤ, pos, neg_part, ◌+ℤ◌}
use otus_highload_architect.Platform.Hashes.{Hashes, hget}
use otus_highload_architect.Counter.{
  counters_key, dialog_field, total_field, up, down, reset_dialog, reconcile_user, count_message,
}
use otus_highload_architect.Counter.Steps.{
  pos-suc, counters_key-eq, dialog_field-eq, total-ne-dialog, weight-total, weight_at-total,
  total_of, dialog_of, sum_of, sum-hincrby, sum-hincrby_other, count_message-fields,
  sum-count_message, total-count_message, count_message-other,
}
use otus_highload_architect.Counter.Resets.{reset_dialog_drift}
use otus_highload_architect.Counter.Reconcile.{reconcile-fields, reconcile-sum, reconcile-other}
use otus_highload_architect.Counter.History.{event, reset, reconcile, Ledger, note, Represents}

count_if :
    (c : Bool) (v : ℤ) (n : ℕ)
    → v ≡ pos n
    → (if c then v +ℤ pos 1 else v) ≡ pos (if c then n + 1 else n)
unfolding ◌+ℤ◌
count_if c v n h = ground arith

zero_if :
    (c : Bool) (v : ℤ) (n : ℕ) → v ≡ pos n → (if c then pos 0 else v) ≡ pos (if c then 0 else n)
zero_if c v n h = ground arith

module _ (r : Hashes) where
  pub event-Represents :
      (s : r.Store) (l : Ledger) (to from : Text)
      → Represents r s l
      → Represents r (count_message r s up up to from).0 (note l (event up up to from))
  event-Represents s l to from h = record {
    dialogs = λ u p.
        let field : dialog_of r (count_message r s up up to from).0 u p ≡ (
            if bytes_eq to u && bytes_eq from p
            then dialog_of r s u p +ℤ pos 1
            else dialog_of r s u p) =
          ground (
            arith,
            count_message-fields r s to from (counters_key u) (dialog_field p),
            counters_key-eq to u,
            total-ne-dialog p,
            dialog_field-eq from p,
          ) in
        field ∙ count_if (bytes_eq to u && bytes_eq from p) _ _ (h.dialogs u p);
    totals = λ u. elim (Bool-cases (bytes_eq to u)) [
      | inl e ↦
          subst
            (λ x.
              total_of r (count_message r s up up to from).0 x
              ≡ pos (sum_of r (count_message r s up up to from).0 x + l.excess x))
            ((bytes_eq_iff to u).0 e)
            (total-count_message r s to from
              ∙ pos-suc _ _ (h.totals to)
              ∙ ap pos
                  (omega (arith, sum-count_message r s to from (ap neg_part (h.dialogs to from)))))
      | inr e ↦
          let same = count_message-other r s to from u e in
          same.0 ∙ h.totals u ∙ ap (λ (x : ℕ). pos (x + l.excess u)) (sym same.1)
    ];
  }

  pub half-Represents :
      (s : r.Store) (l : Ledger) (to from : Text)
      → Represents r s l
      → Represents r (count_message r s up down to from).0 (note l (event up down to from))
  unfolding count_message
  half-Represents s l to from h =
      let t = r.hincrby s (counters_key to) total_field (pos 1) in
      let raised : total_of r t to ≡ total_of r s to +ℤ pos 1 = ground (
        arith,
        r.lookup-hincrby s (counters_key to) total_field (pos 1) (counters_key to) total_field,
        bytes_eq_refl (counters_key to),
        bytes_eq_refl total_field,
      ) in
      let sum : sum_of r t to ≡ sum_of r s to = omega (
        arith,
        sum-hincrby r s (counters_key to) total_field (pos 1),
        weight_at-total (hget r s (counters_key to) total_field),
        weight-total (total_of r s to +ℤ pos 1),
      ) in
      record {
        dialogs = λ u p.
            let kept : dialog_of r t u p ≡ dialog_of r s u p = ground (
              arith,
              r.lookup-hincrby s (counters_key to) total_field (pos 1) (counters_key u)
                  (dialog_field p),
              total-ne-dialog p,
            ) in
            kept ∙ h.dialogs u p;
        totals = λ u. elim (Bool-cases (bytes_eq to u)) [
          | inl e ↦
              subst
                (λ x.
                  total_of r t x
                  ≡ pos (sum_of r t x + (if bytes_eq to x then l.excess x + 1 else l.excess x)))
                ((bytes_eq_iff to u).0 e)
                (rw (bytes_eq_refl to)
                  (raised ∙ pos-suc _ _ (h.totals to) ∙ ap pos (omega (arith, sum))))
          | inr e ↦
              let kept : total_of r t u ≡ total_of r s u = ground (
                arith,
                r.lookup-hincrby s (counters_key to) total_field (pos 1) (counters_key u)
                    total_field,
                counters_key-eq to u,
              ) in
              rw e (
                kept
                ∙ h.totals u
                ∙ ap (λ (x : ℕ). pos (x + l.excess u))
                    (sym (
                      sum-hincrby_other r s (counters_key to) total_field (pos 1) (counters_key u)
                        (counters_key-eq to u ∙ e))))
        ];
      }

  pub reset-Represents :
      (s : r.Store) (l : Ledger) (user partner : Text)
      → Represents r s l
      → Represents r (reset_dialog r s user partner).0 (note l (reset user partner))
  reset-Represents s l user partner h =
      let (total, value, dialogs, others, sum) =
        reset_dialog_drift r s user partner (l.unread user partner) (l.excess user) (h.totals user)
          (h.dialogs user partner) in
      let t = (reset_dialog r s user partner).0 in
      record {
        dialogs = λ u p.
            dialogs u p ∙ zero_if (bytes_eq user u && bytes_eq partner p) _ _ (h.dialogs u p);
        totals = λ u. elim (Bool-cases (bytes_eq user u)) [
          | inl e ↦
              subst (λ x. total_of r t x ≡ pos (sum_of r t x + l.excess x))
                ((bytes_eq_iff user u).0 e) total
          | inr e ↦
              (others u e).0
              ∙ h.totals u
              ∙ ap (λ (x : ℕ). pos (x + l.excess u)) (sym (others u e).1)
        ];
      }

  pub reconcile-Represents :
      (s : r.Store) (l : Ledger) (user : Text)
      → Represents r s l
      → Represents r (reconcile_user r s user).0 (note l (reconcile user))
  reconcile-Represents s l user h =
      let t = (reconcile_user r s user).0 in
      let set : total_of r t user ≡ pos (sum_of r s user) = ground (
        arith,
        reconcile-fields r s user (counters_key user) total_field,
        bytes_eq_refl (counters_key user),
        bytes_eq_refl total_field,
      ) in
      record {
        dialogs = λ u p.
            let kept : dialog_of r t u p ≡ dialog_of r s u p = ground (
              arith,
              reconcile-fields r s user (counters_key u) (dialog_field p),
              total-ne-dialog p,
            ) in
            kept ∙ h.dialogs u p;
        totals = λ u. elim (Bool-cases (bytes_eq user u)) [
          | inl e ↦
              subst
                (λ x.
                  total_of r t x ≡ pos (sum_of r t x + (if bytes_eq user x then 0 else l.excess x)))
                ((bytes_eq_iff user u).0 e)
                (rw (bytes_eq_refl user) (set ∙ ap pos (omega (arith, reconcile-sum r s user))))
          | inr e ↦
              let kept : total_of r t u ≡ total_of r s u = ground (
                arith,
                reconcile-fields r s user (counters_key u) total_field,
                counters_key-eq user u,
              ) in
              rw e (
                kept
                ∙ h.totals u
                ∙ ap (λ (x : ℕ). pos (x + l.excess u)) (sym (reconcile-other r s user u e)))
        ];
      }
