-- ===== src/Platform/Mailbox.antt =====
-- userver's `concurrent::MpscQueue`, as `Queue::Create()` makes it: without a limit on its size.
use otus_highload_architect.Prelude.{◌≡◌, refl, Option, none, some, List, [], ◌∷◌, ◌++◌}

pub record Mailbox (M : Type 0) : Type 1 where
  pub Queue : Type 0
  pub create : Queue
  pub contents : Queue → List M
  pub push_noblock : Queue → M → Queue
  -- `Pop` with a deadline: `none` where nothing arrives in time
  pub pop : Queue → Option (M × Queue)
  pub contents-create : contents create ≡ []
  pub contents-push_noblock :
      (q : Queue) (m : M) → contents (push_noblock q m) ≡ contents q ++ m ∷ []
  pub pop-none : (q : Queue) → pop q ≡ none → contents q ≡ []
  pub pop-some : (q r : Queue) (m : M) → pop q ≡ some (m, r) → contents q ≡ m ∷ contents r

unfoldable pub plain_pop : {M : Type 0} → List M → Option (M × List M)
plain_pop [] = none
plain_pop (m ∷ q) = some (m, q)

pub plain_pop-none : {M : Type 0} (q : List M) → plain_pop q ≡ none → q ≡ []
unfolding plain_pop
plain_pop-none [] h = refl
plain_pop-none (m ∷ q) h = cc

pub plain_pop-some : {M : Type 0} (q r : List M) (m : M) → plain_pop q ≡ some (m, r) → q ≡ m ∷ r
unfolding plain_pop
plain_pop-some [] r m h = cc
plain_pop-some (x ∷ q) r m h = cc

-- A list, first in first out.
abbrev pub plain_mailbox : (M : Type 0) → Mailbox M
plain_mailbox M = record {
  Queue = List M;
  create = [];
  contents = λ q. q;
  push_noblock = λ q m. q ++ m ∷ [];
  pop = plain_pop;
  contents-create = refl;
  contents-push_noblock = λ q m. refl;
  pop-none = plain_pop-none;
  pop-some = plain_pop-some;
}
