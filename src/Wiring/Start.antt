-- ===== src/Wiring/Start.antt =====
-- The start of a program: userver constructs a component once all that it finds are constructed, many
-- at a time and in no set order. The start never stands still.
use otus_highload_architect.Prelude.{
  ℕ, zero, suc, ◌+◌, ◌<◌, ◌≡◌, refl, ap, ◌⊎◌, inl, inr, Bool, true, false, ◌&&◌, Option, none, some,
  List, [], ◌∷◌, arith, ltb, ltb→lt, Bool-cases, All, Text, bytes_eq, bytes_eq_iff, bytes_eq_refl,
}
use mathlib.Core.Path.{subst}
use otus_highload_architect.Prelude.Maps.{lookup}
use otus_highload_architect.Wiring.Names.{
  redis, rabbitmq, postgres, auth_cache, grpc_client_factory, dialog_grpc_client,
  counter_grpc_client, post_feed_cache, post_feed_ws_manager, post_feed_publisher,
}
use otus_highload_architect.Wiring.{Program}
use otus_highload_architect.Wiring.Programs.{
  Process, monolith, chat_service, counters_service, components,
}

-- `FindComponent<T>(name)` succeeds where a component of the class `T` has that name.
abbrev offers : Option (Text × List (Text × Text)) → Text → Bool
offers none asked = false
offers (some (class, needs)) asked = bytes_eq class asked

abbrev needs_of : Option (Text × List (Text × Text)) → List (Text × Text)
needs_of none = []
needs_of (some entry) = entry.1

-- Every need of a component is in the program with the class that is asked for, at a lower rank.
unfoldable needs_below : Program → (Text → ℕ) → ℕ → List (Text × Text) → Bool
needs_below program rank r [] = true
needs_below program rank r ((d, asked) ∷ ds) =
    (offers (lookup d program) asked && ltb (rank d) r) && needs_below program rank r ds

unfoldable is_ranked : Program → (Text → ℕ) → Program → Bool
unfolding needs_below
is_ranked program rank [] = true
is_ranked program rank ((c, (class, ds)) ∷ rest) =
    needs_below program rank (rank c) ds && is_ranked program rank rest

-- A component that is not constructed yet and finds all that it needs.
abbrev pub Ready : Program → (Text → Bool) → Type 0
Ready program built =
    (c : Text) × (entry : Text × List (Text × Text)) × (lookup c program ≡ some entry)
    × (built c ≡ false)
    × All (λ d. built d.0 ≡ true) entry.1

-- Each component that is asked for is in the program under that name, with the class asked for.
abbrev pub Found : Program → List (Text × Text) → Type 0
Found program needs =
    All (λ d. (own : List (Text × Text)) × (lookup d.0 program ≡ some (d.1, own))) needs

offers-class :
    (entry : Option (Text × List (Text × Text))) (asked : Text)
    → offers entry asked ≡ true
    → (own : List (Text × Text)) × (entry ≡ some (asked, own))
offers-class none asked h = absurd (ground (arith, h))
offers-class (some (class, own)) asked h =
    (own, ap (λ k. some (k, own)) ((bytes_eq_iff class asked).0 h))

module _ (program : Program) (rank : Text → ℕ) where
  ranked-at :
      (rest : Program) (c : Text) (entry : Text × List (Text × Text))
      → is_ranked program rank rest ≡ true
      → lookup c rest ≡ some entry
      → needs_below program rank (rank c) entry.1 ≡ true
  unfolding is_ranked lookup
  ranked-at [] c entry h e = absurd (ground (arith, e))
  ranked-at ((k, (class, ds)) ∷ rest) c entry h e = elim (Bool-cases (bytes_eq k c)) [
    | inl same ↦
        let here : some (class, ds) ≡ some entry = rw same at e in
        let own : ds ≡ entry.1 = ap needs_of here in
        subst (λ x. needs_below program rank (rank x) entry.1 ≡ true) ((bytes_eq_iff k c).0 same)
          (subst (λ l. needs_below program rank (rank k) l ≡ true) own (ground (arith, h)))
    | inr other ↦ ranked-at rest c entry (ground (arith, h)) (ground (arith, e, other))
  ]

  below-Found :
      (r : ℕ) (needs : List (Text × Text))
      → needs_below program rank r needs ≡ true
      → Found program needs
  unfolding needs_below
  below-Found r [] h = tt
  below-Found r ((d, asked) ∷ ds) h = (
    offers-class (lookup d program) asked (ground (arith, h)),
    below-Found r ds (ground (arith, h)),
  )

module _ (program : Program) (rank : Text → ℕ) (built : Text → Bool) where
  -- The needs are constructed, or one is not, and that one is in the program at a lower rank.
  missing_need :
      (r : ℕ) (needs : List (Text × Text))
      → needs_below program rank r needs ≡ true
      → All (λ d. built d.0 ≡ true) needs
        ⊎ ((d : Text) × (entry : Text × List (Text × Text)) × (lookup d program ≡ some entry)
            × (built d ≡ false)
            × (rank d < r))
  unfolding needs_below
  missing_need r [] h = inl tt
  missing_need r ((d, asked) ∷ ds) h = elim (Bool-cases (built d)) [
    | inl e ↦ elim (missing_need r ds (ground (arith, h))) [
      | inl all ↦ inl (e, all)
      | inr found ↦ inr found
    ]
    | inr e ↦
        let (own, there) = offers-class (lookup d program) asked (ground (arith, h)) in
        inr (d, (asked, own), there, e, ltb→lt (rank d) r (ground (arith, h)))
  ]

  Ready-below :
      (fuel : ℕ) (c : Text) (entry : Text × List (Text × Text))
      → is_ranked program rank program ≡ true
      → lookup c program ≡ some entry
      → built c ≡ false
      → rank c < fuel
      → Ready program built
  Ready-below zero c entry h there waits low = absurd (omega arith)
  Ready-below (suc fuel) c entry h there waits low =
      elim (missing_need (rank c) entry.1 (ranked-at program rank program c entry h there)) [
        | inl all ↦ (c, entry, there, waits, all)
        | inr (d, ds, found, unbuilt, below) ↦ Ready-below fuel d ds h found unbuilt (omega arith)
      ]

  first_open :
      (rest : Program)
      → All (λ e. built e.0 ≡ true) rest
        ⊎ ((c : Text) × (entry : Text × List (Text × Text)) × (lookup c rest ≡ some entry)
            × (built c ≡ false))
  unfolding lookup
  first_open [] = inl tt
  first_open ((k, entry) ∷ rest) = elim (Bool-cases (built k)) [
    | inr e ↦ inr (k, entry, rw (bytes_eq_refl k) refl, e)
    | inl e ↦ elim (first_open rest) [
      | inl all ↦ inl (e, all)
      | inr (c, later, there, waits) ↦ elim (Bool-cases (bytes_eq k c)) [
        | inl same ↦ inr (c, entry, rw same refl, waits)
        | inr other ↦ inr (c, later, rw (other, there) refl, waits)
      ]
    ]
  ]

  ranked-start :
      is_ranked program rank program ≡ true
      → All (λ e. built e.0 ≡ true) program ⊎ Ready program built
  ranked-start h = elim (first_open program) [
    | inl all ↦ inl all
    | inr (c, entry, there, waits) ↦
        inr (Ready-below (rank c + 1) c entry h there waits (omega arith))
  ]

-- The rounds in which the components can be constructed, 2 for the handlers and consumers.
abbrev ranks : List (Text × ℕ)
ranks =
    (redis, 0)
    ∷ (rabbitmq, 0)
    ∷ (postgres, 0)
    ∷ (grpc_client_factory, 0)
    ∷ (auth_cache, 1)
    ∷ (dialog_grpc_client, 1)
    ∷ (counter_grpc_client, 1)
    ∷ (post_feed_cache, 1)
    ∷ (post_feed_ws_manager, 1)
    ∷ (post_feed_publisher, 1)
    ∷ []

rank_of : Option ℕ → ℕ
rank_of none = 2
rank_of (some n) = n

rank : Text → ℕ
unfolding rank_of
rank c = rank_of (lookup c ranks)

components-ranked :
    (process : Process) → is_ranked (components process) rank (components process) ≡ true
unfolding is_ranked needs_below rank rank_of lookup bytes_eq
components-ranked monolith = refl
components-ranked chat_service = refl
components-ranked counters_service = refl

-- In each of the three programs, whatever has been constructed so far, either all components are or one
-- that is not finds all that its constructor asks for: nothing is missing from the program, and
-- no components wait for each other.
pub start-proceeds :
    (process : Process) (built : Text → Bool)
    → All (λ e. built e.0 ≡ true) (components process) ⊎ Ready (components process) built
start-proceeds process built =
    ranked-start (components process) rank built (components-ranked process)

-- `FindComponent` never fails for a component of the three programs: under each name that the constructor
-- of one asks for, the same program registers a component, and it has the class that is asked for.
pub components-Found :
    (process : Process) (c : Text) (entry : Text × List (Text × Text))
    → lookup c (components process) ≡ some entry
    → Found (components process) entry.1
components-Found process c entry there = below-Found (components process) rank (rank c) entry.1 (
    ranked-at (components process) rank (components process) c entry (components-ranked process)
      there)
