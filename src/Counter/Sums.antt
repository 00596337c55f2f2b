-- ===== src/Counter/Sums.antt =====
-- The sum over the dialogs of a hash, whatever the order in which HGETALL lists its fields.
use otus_highload_architect.Prelude.{
  ℕ, ◌+◌, ◌≡◌, refl, sym, ap, false, Option, none, some, List, [], ◌∷◌, arith, if◌then◌else◌, Text,
  bytes_eq, bytes_eq_iff, bytes_eq_refl, mem_bytes, IsDistinct,
}
use otus_highload_architect.Prelude.Int.{ℤ}
use otus_highload_architect.Prelude.Maps.{lookup, remove, lookup-remove}
use otus_highload_architect.Platform.Hashes.{names}
use otus_highload_architect.Counter.{weight, computed_total}

-- What the field `f` adds to the sum, 0 where it is missing.
abbrev pub weight_at : Text → Option ℤ → ℕ
weight_at f none = 0
weight_at f (some v) = weight f v

mem-remove :
    (f g : Text) (l : List (Text × ℤ))
    → mem_bytes g (names l) ≡ false
    → mem_bytes g (names (remove f l)) ≡ false
unfolding mem_bytes remove
mem-remove f g [] h = refl
mem-remove f g ((k, v) ∷ l) h = ground (arith, mem-remove f g l)

remove-IsDistinct :
    (f : Text) (l : List (Text × ℤ)) → IsDistinct (names l) → IsDistinct (names (remove f l))
unfolding remove
remove-IsDistinct f [] d = tt
remove-IsDistinct f ((k, v) ∷ l) d = ground (arith, remove-IsDistinct f l d.1, mem-remove f k l)

remove-absent : (f : Text) (l : List (Text × ℤ)) → mem_bytes f (names l) ≡ false → remove f l ≡ l
unfolding mem_bytes remove
remove-absent f [] h = refl
remove-absent f ((k, v) ∷ l) h = ground (arith, remove-absent f l)

lookup-absent : (f : Text) (l : List (Text × ℤ)) → mem_bytes f (names l) ≡ false → lookup f l ≡ none
unfolding mem_bytes lookup
lookup-absent f [] h = refl
lookup-absent f ((k, v) ∷ l) h = ground (arith, lookup-absent f l)

pub computed_total-split :
    (f : Text) (l : List (Text × ℤ))
    → IsDistinct (names l)
    → computed_total l ≡ weight_at f (lookup f l) + computed_total (remove f l)
unfolding computed_total lookup remove
computed_total-split f [] d = omega arith
computed_total-split f ((k, v) ∷ l) d = ground (
  arith,
  computed_total-split f l d.1,
  bytes_eq_iff k f,
  remove-absent f l,
  λ (e : k ≡ f). ap (λ x. mem_bytes x (names l)) e,
  λ (e : k ≡ f). ap (λ x. weight x v) e,
)

lookup_all_none : (m : List (Text × ℤ)) → ((g : Text) → lookup g m ≡ none) → m ≡ []
unfolding lookup
lookup_all_none [] h = refl
lookup_all_none ((k, v) ∷ m) h = ground (arith, h k, bytes_eq_refl k)

-- Two lists of fields with the same values at every name have one sum.
pub computed_total-ext :
    (l m : List (Text × ℤ))
    → IsDistinct (names l)
    → IsDistinct (names m)
    → ((g : Text) → lookup g l ≡ lookup g m)
    → computed_total l ≡ computed_total m
unfolding computed_total lookup
computed_total-ext [] m dl dm h = rw (lookup_all_none m (λ g. sym (h g)))
computed_total-ext ((k, v) ∷ l) m dl dm h =
    let rest = computed_total-ext l (remove k m) dl.1 (remove-IsDistinct k m dm) (λ g. ground (
      arith,
      h g,
      lookup-remove k g m,
      bytes_eq_iff k g,
      lookup-absent k l,
      λ (e : k ≡ g). ap (λ x. lookup x l) e,
    )) in
    ground (arith, rest, computed_total-split k m dm, h k, bytes_eq_refl k)

-- One field set to `v` and the rest kept: the sum changes by that field's share.
pub computed_total-set :
    (f : Text) (v : ℤ) (l m : List (Text × ℤ))
    → IsDistinct (names l)
    → IsDistinct (names m)
    → ((g : Text) → lookup g m ≡ (if bytes_eq f g then some v else lookup g l))
    → computed_total m + weight_at f (lookup f l) ≡ computed_total l + weight f v
computed_total-set f v l m dl dm h =
    let rest =
      computed_total-ext (remove f m) (remove f l) (remove-IsDistinct f m dm)
        (remove-IsDistinct f l dl)
        (λ g. ground (arith, h g, lookup-remove f g m, lookup-remove f g l)) in
    ground
      (arith, rest, computed_total-split f m dm, computed_total-split f l dl, h f, bytes_eq_refl f)
