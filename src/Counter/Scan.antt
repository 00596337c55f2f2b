-- ===== src/Counter/Scan.antt =====
-- A whole run of the reconciler comes to its end and reaches every user that the scan promises.
use otus_highload_architect.Prelude.{
  ℕ, zero, suc, ◌<◌, ◌≡◌, refl, sym, ap, ◌∙◌, ◌⊎◌, inl, inr, true, false, ◌&&◌, some, List, [], ◌∷◌,
  ◌++◌, arith, Bool-cases, drop, All, Text, codes, bytes_eq, mem_bytes, ok,
}
use otus_highload_architect.Platform.Hashes.{Hashes}
use otus_highload_architect.Platform.Scans.{ScanGuarantee}
use otus_highload_architect.Counter.{
  is_run, counters_key, Connection, up, reconcile_user, reconcile_keys, run_reconciliation,
}
use otus_highload_architect.Counter.Steps.{IsConsistent}
use otus_highload_architect.Counter.Reconcile.{reconcile_keys_lem}

module _ (r : Hashes) (g : ScanGuarantee r) where
  -- A store that the scan cannot tell from another.
  record Same (s t : r.Store) : Type 0 where
    present_eq : (j : Text) → g.present t j ≡ g.present s j
    unreturned_eq : (c : Text) → g.unreturned t c ≡ g.unreturned s c
    pages_eq : (c : Text) → g.pages_left t c ≡ g.pages_left s c

  Same-reconcile_user :
      (s : r.Store) (key : Text)
      → key ≡ codes "counters:" ++ drop 9 key
      → g.present s key ≡ true
      → Same s (reconcile_user r s (drop 9 key)).0
  unfolding reconcile_user
  Same-reconcile_user s key match there =
      let here : g.present s (counters_key (drop 9 key)) ≡ true =
        ap (g.present s) (sym match) ∙ there in
      record {
        present_eq = λ j. g.present-hset s _ _ _ j here;
        unreturned_eq = λ c. g.unreturned-hset s _ _ _ c here;
        pages_eq = λ c. g.pages_left-hset s _ _ _ c here;
      }

  Same-trans : (s t u : r.Store) → Same s t → Same t u → Same s u
  Same-trans s t u a b = record {
    present_eq = λ j. b.present_eq j ∙ a.present_eq j;
    unreturned_eq = λ c. b.unreturned_eq c ∙ a.unreturned_eq c;
    pages_eq = λ c. b.pages_eq c ∙ a.pages_eq c;
  }

  All-present :
      (s t : r.Store) (keys : List Text)
      → Same s t
      → All (λ k. g.present s k ≡ true) keys
      → All (λ k. g.present t k ≡ true) keys
  All-present s t [] same a = tt
  All-present s t (k ∷ keys) same a = (same.present_eq k ∙ a.0, All-present s t keys same a.1)

  Same-reconcile_keys :
      (link : Text → Connection) (s : r.Store) (keys : List Text)
      → All (λ k. k ≡ codes "counters:" ++ drop 9 k) keys
      → All (λ k. g.present s k ≡ true) keys
      → Same s (reconcile_keys r link s keys)
  unfolding reconcile_keys
  Same-reconcile_keys link s [] match there = record {
    present_eq = λ j. refl;
    unreturned_eq = λ c. refl;
    pages_eq = λ c. refl;
  }
  Same-reconcile_keys link s (k ∷ keys) match there = elim (Bool-cases (is_run (link (drop 9 k)))) [
    | inl e ↦
        let t = (reconcile_user r s (drop 9 k)).0 in
        let one = Same-reconcile_user s k match.0 there.0 in
        rw e (
          Same-trans s t (reconcile_keys r link t keys) one
            (Same-reconcile_keys link t keys match.1 (All-present s t keys one there.1)))
    | inr e ↦ rw e (Same-reconcile_keys link s keys match.1 there.1)
  ]

  -- What a run from the cursor is to do for a user: return the key where the call reaches the server,
  -- unless the user's total is right already.
  abbrev Owed : r.Store → Text → (Text → Connection) → Text → Type 0
  Owed s cursor link v =
      ((mem_bytes (counters_key v) (g.unreturned s cursor) && is_run (link v)) ≡ true)
      ⊎ IsConsistent r s v

  module _ (link : Text → Connection) (s : r.Store) (cursor v : Text) where
    abbrev after_page : r.Store
    after_page = reconcile_keys r link s (r.scan s cursor).1

    after_page-Same : Same s after_page
    after_page-Same =
        Same-reconcile_keys link s (r.scan s cursor).1 (g.scan-match s cursor)
          (g.scan-present s cursor)

    Owed-page :
        Owed s cursor link v
        → IsConsistent r after_page v
          ⊎ ((bytes_eq (r.scan s cursor).0 (codes "0") ≡ false)
              × Owed after_page (r.scan s cursor).0 link v)
    Owed-page (inr c) = inl (reconcile_keys_lem r link s (r.scan s cursor).1 v (inr c))
    Owed-page (inl o) = elim (Bool-cases (mem_bytes (counters_key v) (r.scan s cursor).1)) [
      | inl e ↦ inl (reconcile_keys_lem r link s (r.scan s cursor).1 v (inl (ground (arith, o, e))))
      | inr e ↦
          let more = g.unreturned-scan s cursor (counters_key v) (ground (arith, o)) in
          inr (
            ground (arith, more, e),
            inl (ground (arith, more, e, o, after_page-Same.unreturned_eq (r.scan s cursor).0)),
          )
    ]

  run_ends :
      (fuel : ℕ) (scan_link link : Text → Connection) (s : r.Store) (cursor v : Text)
      → ((c : Text) → scan_link c ≡ up)
      → g.pages_left s cursor < fuel
      → Owed s cursor link v
      → (t : r.Store) × (run_reconciliation r fuel scan_link link s cursor ≡ some (t, ok tt))
        × IsConsistent r t v
  unfolding run_reconciliation
  run_ends zero scan_link link s cursor v alive h owed = absurd (omega arith)
  run_ends (suc fuel) scan_link link s cursor v alive h owed =
      elim (Bool-cases (bytes_eq (r.scan s cursor).0 (codes "0"))) [
        | inl last ↦
            let done : IsConsistent r (after_page link s cursor v) v =
              elim (Owed-page link s cursor v owed) [
                | inl c ↦ c
                | inr (more, later) ↦ absurd (ground (arith, last, more))
              ] in
            (after_page link s cursor v, rw (alive cursor, run_reconciliation, last) refl, done)
        | inr more ↦
            let next = (r.scan s cursor).0 in
            let t = after_page link s cursor v in
            let owes : Owed t next link v = elim (Owed-page link s cursor v owed) [
              | inl c ↦ inr c
              | inr (e, later) ↦ later
            ] in
            let (u, run, good) =
              run_ends fuel scan_link link t next v alive
                (omega (
                  arith,
                  g.pages_left-scan s cursor more,
                  (after_page-Same link s cursor v).pages_eq next,
                ))
                owes in
            (u, rw (alive cursor, run_reconciliation, more) run, good)
      ]

  -- Where every SCAN is answered, a run of the reconciler over a store with at most as many pages left
  -- as its fuel comes to its end, and then the total of every user whose key was there and whose call
  -- reached the server is the sum of the dialogs, and of every user for whom it was so before.
  pub run_reconciliation_lem :
      (fuel : ℕ) (scan_link link : Text → Connection) (s : r.Store) (v : Text)
      → ((c : Text) → scan_link c ≡ up)
      → g.pages_left s (codes "0") < fuel
      → ((g.present s (counters_key v) && is_run (link v)) ≡ true) ⊎ IsConsistent r s v
      → (t : r.Store) × (run_reconciliation r fuel scan_link link s (codes "0") ≡ some (t, ok tt))
        × IsConsistent r t v
  run_reconciliation_lem fuel scan_link link s v alive h (inr c) =
      run_ends fuel scan_link link s (codes "0") v alive h (inr c)
  run_reconciliation_lem fuel scan_link link s v alive h (inl there) =
      run_ends fuel scan_link link s (codes "0") v alive h
        (inl (ground (arith, there, g.unreturned-start s (counters_key v))))
