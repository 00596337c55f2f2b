-- ===== src/Platform/Scans.antt =====
-- What the documentation of SCAN promises: a full iteration returns every key that is there from its
-- start to its end, and comes to its end. A write to a key that is there takes no key away.
use otus_highload_architect.Prelude.{
  ℕ, ◌<◌, ◌≡◌, refl, Bool, true, false, not, ◌&&◌, ◌||◌, List, [], ◌∷◌, ◌++◌, arith, drop, All,
  Text, codes, bytes_eq, bytes_eq_refl, mem_bytes,
}
use otus_highload_architect.Prelude.Int.{ℤ}
use otus_highload_architect.Platform.Hashes.{Hashes}
use otus_highload_architect.Platform.PlainQueues.{plain_hashes, user_keys, first_page, page_of}

pub record ScanGuarantee (r : Hashes) : Type 0 where
  -- the keys `counters:*` that are there
  pub present : r.Store → Text → Bool
  -- what an iteration that stands at the cursor has still to return, and a bound on its pages
  pub unreturned : r.Store → Text → List Text
  pub pages_left : r.Store → Text → ℕ
  pub unreturned-start :
      (s : r.Store) (k : Text) → present s k ≡ true → mem_bytes k (unreturned s (codes "0")) ≡ true
  pub unreturned-scan :
      (s : r.Store) (c k : Text)
      → mem_bytes k (unreturned s c) ≡ true
      → (mem_bytes k (r.scan s c).1
          || (not (bytes_eq (r.scan s c).0 (codes "0"))
              && mem_bytes k (unreturned s (r.scan s c).0)))
        ≡ true
  pub pages_left-scan :
      (s : r.Store) (c : Text)
      → bytes_eq (r.scan s c).0 (codes "0") ≡ false
      → pages_left s (r.scan s c).0 < pages_left s c
  -- MATCH counters:*
  pub scan-match :
      (s : r.Store) (c : Text) → All (λ k. k ≡ codes "counters:" ++ drop 9 k) (r.scan s c).1
  pub scan-present : (s : r.Store) (c : Text) → All (λ k. present s k ≡ true) (r.scan s c).1
  pub present-hset :
      (s : r.Store) (k f : Text) (v : ℤ) (j : Text)
      → present s k ≡ true
      → present (r.hset s k f v) j ≡ present s j
  pub unreturned-hset :
      (s : r.Store) (k f : Text) (v : ℤ) (c : Text)
      → present s k ≡ true
      → unreturned (r.hset s k f v) c ≡ unreturned s c
  pub pages_left-hset :
      (s : r.Store) (k f : Text) (v : ℤ) (c : Text)
      → present s k ≡ true
      → pages_left (r.hset s k f v) c ≡ pages_left s c

mem-append : (k : Text) (l m : List Text) → mem_bytes k (l ++ m) ≡ (mem_bytes k l || mem_bytes k m)
unfolding mem_bytes
mem-append k [] m = refl
mem-append k (j ∷ l) m = ground (arith, mem-append k l m)

All-weaken : (P Q : Text → Type 0) → ((k : Text) → P k → Q k) → (l : List Text) → All P l → All Q l
All-weaken P Q h [] a = tt
All-weaken P Q h (x ∷ l) a = (h x a.0, All-weaken P Q h l a.1)

All-mem : (l : List Text) → All (λ k. mem_bytes k l ≡ true) l
unfolding mem_bytes
All-mem [] = tt
All-mem (x ∷ l) = (
  ground (arith, bytes_eq_refl x),
  All-weaken (λ k. mem_bytes k l ≡ true) (λ k. mem_bytes k (x ∷ l) ≡ true)
      (λ k h. ground (arith, h)) l (All-mem l),
)

pub user_keys-match :
    (users : List Text) → All (λ k. k ≡ codes "counters:" ++ drop 9 k) (user_keys users)
user_keys-match [] = tt
user_keys-match (u ∷ users) = (refl, user_keys-match users)

module _ (first second : List Text) where
  abbrev pub left_at : Bool → List Text
  left_at true = user_keys first ++ user_keys second
  left_at false = user_keys second

  abbrev pub pages_at : Bool → ℕ
  pages_at true = 1
  pages_at false = 0

  pub left_at-page :
      (at_first : Bool) (k : Text)
      → mem_bytes k (left_at at_first) ≡ true
      → (mem_bytes k (page_of first second at_first).1
          || (not (bytes_eq (page_of first second at_first).0 (codes "0"))
              && mem_bytes k (left_at (first_page (page_of first second at_first).0))))
        ≡ true
  unfolding bytes_eq
  left_at-page true k h = ground (arith, h, mem-append k (user_keys first) (user_keys second))
  left_at-page false k h = ground (arith, h)

  pub pages_at-page :
      (at_first : Bool)
      → bytes_eq (page_of first second at_first).0 (codes "0") ≡ false
      → pages_at (first_page (page_of first second at_first).0) < pages_at at_first
  unfolding bytes_eq
  pages_at-page true h = omega arith
  pages_at-page false h = absurd (ground (arith, h))

  pub page_of-match :
      (at_first : Bool)
      → All (λ k. k ≡ codes "counters:" ++ drop 9 k) (page_of first second at_first).1
  page_of-match true = user_keys-match first
  page_of-match false = user_keys-match second

  pub page_of-left :
      (at_first : Bool)
      → All (λ k. mem_bytes k (left_at true) ≡ true) (page_of first second at_first).1
  page_of-left true =
      All-weaken (λ k. mem_bytes k (user_keys first) ≡ true)
        (λ k. mem_bytes k (left_at true) ≡ true)
        (λ k h. ground (arith, h, mem-append k (user_keys first) (user_keys second)))
        (user_keys first) (All-mem (user_keys first))
  page_of-left false =
      All-weaken (λ k. mem_bytes k (user_keys second) ≡ true)
        (λ k. mem_bytes k (left_at true) ≡ true)
        (λ k h. ground (arith, h, mem-append k (user_keys first) (user_keys second)))
        (user_keys second) (All-mem (user_keys second))

  pub left_at_start :
      (k : Text)
      → mem_bytes k (left_at true) ≡ true
      → mem_bytes k (left_at (first_page (codes "0"))) ≡ true
  unfolding bytes_eq
  left_at_start k h = h

  -- The store of two pages keeps the promise.
  abbrev pub plain_scans : ScanGuarantee (plain_hashes first second)
  plain_scans = record {
    present = λ s k. mem_bytes k (left_at true);
    unreturned = λ s c. left_at (first_page c);
    pages_left = λ s c. pages_at (first_page c);
    unreturned-start = λ s. left_at_start;
    unreturned-scan = λ s c. left_at-page (first_page c);
    pages_left-scan = λ s c. pages_at-page (first_page c);
    scan-match = λ s c. page_of-match (first_page c);
    scan-present = λ s c. page_of-left (first_page c);
    present-hset = λ s k f v j h. refl;
    unreturned-hset = λ s k f v c h. refl;
    pages_left-hset = λ s k f v c h. refl;
  }
