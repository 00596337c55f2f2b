-- ===== src/Platform/PlainQueues.antt =====
-- A broker and a hash store that meet the laws of the platform.
use otus_highload_architect.Prelude.{
  map, ◌≡◌, refl, sym, ap, Bool, true, false, ◌&&◌, ◌||◌, Option, some, List, [], ◌∷◌, ◌++◌, arith,
  if◌then◌else◌, Text, codes, bytes_eq, bytes_eq_iff, mem_bytes, IsDistinct, rpc_error, Outcome, ok,
  throw,
}
use otus_highload_architect.Prelude.Int.{ℤ, ◌+ℤ◌}
use otus_highload_architect.Prelude.Maps.{lookup, insert, lookup-insert}
use otus_highload_architect.Platform.Broker.{Broker, Kind}
use otus_highload_architect.Platform.Hashes.{Hashes, names, value_or_zero}

-- Every key matches every pattern.
pub record PlainBroker (M : Type 0) : Type 0 where
  pub kinds : Text → Option Kind
  pub queues : Text → List M
  pub bound : Text → Text → Text → Bool
  -- whether the broker takes messages
  pub reachable : Bool

pub bind_topic_lem : (a b c : Bool) → (a || (b && c)) ≡ (a || (b && (c && true)))
bind_topic_lem a b c = ground arith

module _ (M : Type 0) where
  abbrev pub deliver_if : Bool → PlainBroker M → Text → Text → M → Outcome (PlainBroker M)
  deliver_if false s e key m = throw rpc_error
  deliver_if true s e key m =
      ok (record s { queues = λ q. if s.bound e key q then s.queues q ++ m ∷ [] else s.queues q })

  from_ok : PlainBroker M → Outcome (PlainBroker M) → PlainBroker M
  from_ok a (ok b) = b
  from_ok a (throw e) = a

  abbrev pub deliver : PlainBroker M → Text → Text → M → Outcome (PlainBroker M)
  deliver s e key m = deliver_if s.reachable s e key m

  queue-deliver_if :
      (up : Bool) (s t : PlainBroker M) (e key : Text) (m : M)
      → deliver_if up s e key m ≡ ok t
      → (q : Text) → t.queues q ≡ (if s.bound e key q then s.queues q ++ m ∷ [] else s.queues q)
  unfolding from_ok
  queue-deliver_if true s t e key m h q = ap (λ x. x.queues q) (sym (ap (from_ok s) h))
  queue-deliver_if false s t e key m h q = absurd (ground (arith, h))

  routes-deliver_if :
      (up : Bool) (s t : PlainBroker M) (e key : Text) (m : M)
      → deliver_if up s e key m ≡ ok t
      → (f k q : Text) → t.bound f k q ≡ s.bound f k q
  unfolding from_ok
  routes-deliver_if true s t e key m h f k q = ap (λ x. x.bound f k q) (sym (ap (from_ok s) h))
  routes-deliver_if false s t e key m h f k q = absurd (ground (arith, h))

  pub routes-deliver :
      (s t : PlainBroker M) (e key : Text) (m : M)
      → deliver s e key m ≡ ok t
      → (f k q : Text) → t.bound f k q ≡ s.bound f k q
  routes-deliver s t e key m h f k q = routes-deliver_if s.reachable s t e key m h f k q

  pub queue-deliver :
      (s t : PlainBroker M) (e key : Text) (m : M)
      → deliver s e key m ≡ ok t
      → (q : Text) → t.queues q ≡ (if s.bound e key q then s.queues q ++ m ∷ [] else s.queues q)
  queue-deliver s t e key m h q = queue-deliver_if s.reachable s t e key m h q

  abbrev pub plain_broker : Broker M
  plain_broker = record {
    State = PlainBroker M;
    kind = λ s e. s.kinds e;
    queue = λ s q. s.queues q;
    routes = λ s e key q. s.bound e key q;
    matches = λ pattern key. true;
    declare_exchange =
        λ s e k. record s { kinds = λ f. if bytes_eq e f then some k else s.kinds f };
    declare_queue = λ s q. s;
    bind = λ s e q pattern. record s {
      bound = λ f key r. s.bound f key r || (bytes_eq e f && bytes_eq q r);
    };
    publish_reliable = deliver;
    publish = deliver;
    matches-hash = λ prefix rest. refl;
    kind-declare_exchange = λ s e k f. refl;
    kind-declare_queue = λ s q e. refl;
    kind-bind = λ s e q pattern f. refl;
    routes-declare_exchange = λ s e k f key q. refl;
    routes-declare_queue = λ s r e key q. refl;
    routes-bind_topic =
        λ s e q pattern f key r h. bind_topic_lem (s.bound f key r) (bytes_eq e f) (bytes_eq q r);
    routes-bind_fanout = λ s e q pattern f key r h. refl;
    queue-publish_reliable = queue-deliver;
    queue-publish = queue-deliver;
    routes-publish_reliable = routes-deliver;
  }

pub names-insert :
    (f : Text) (v : ℤ) (g : Text) (l : List (Text × ℤ))
    → mem_bytes g (names (insert f v l)) ≡ (bytes_eq f g || mem_bytes g (names l))
unfolding mem_bytes insert
names-insert f v g [] = refl
names-insert f v g ((k, w) ∷ l) =
    ground (arith, names-insert f v g l, bytes_eq_iff k f, λ (e : k ≡ f). ap (λ x. bytes_eq x g) e)

pub insert-IsDistinct :
    (f : Text) (v : ℤ) (l : List (Text × ℤ))
    → IsDistinct (names l)
    → IsDistinct (names (insert f v l))
unfolding insert mem_bytes
insert-IsDistinct f v [] d = (refl, tt)
insert-IsDistinct f v ((k, w) ∷ l) d = ground (
  arith,
  insert-IsDistinct f v l d.1,
  names-insert f v k l,
  bytes_eq_iff k f,
  bytes_eq_iff f k,
  λ (e : k ≡ f). ap (λ x. mem_bytes x (names l)) e,
)

pub record PlainHash : Type 0 where
  pub items : List (Text × ℤ)
  pub distinct : IsDistinct (names items)

abbrev pub no_fields : PlainHash
no_fields = record { items = []; distinct = tt }

abbrev pub put : Text → ℤ → PlainHash → PlainHash
put f v h = record {
  items = insert f v h.items;
  distinct = insert-IsDistinct f v h.items h.distinct;
}

pub put_at_lem :
    (c : Bool) (f g : Text) (v : ℤ) (h : PlainHash)
    → lookup g (if c then put f v h else h).items
      ≡ (if c && bytes_eq f g then some v else lookup g h.items)
put_at_lem c f g v h = ground (arith, lookup-insert f g v h.items)

pub raise_at_lem :
    (c : Bool) (f g : Text) (d : ℤ) (h : PlainHash)
    → lookup g (if c then put f (value_or_zero (lookup f h.items) +ℤ d) h else h).items ≡ (
        if c && bytes_eq f g
        then some (value_or_zero (lookup g h.items) +ℤ d)
        else lookup g h.items)
raise_at_lem c f g d h = ground (
  arith,
  lookup-insert f g (value_or_zero (lookup f h.items) +ℤ d) h.items,
  bytes_eq_iff f g,
  λ (e : f ≡ g). ap (λ x. lookup x h.items) e,
)

-- The keys of some users, in two pages.
abbrev pub user_keys : List Text → List Text
user_keys users = map (λ u. codes "counters:" ++ u) users

abbrev pub first_page : Text → Bool
first_page cursor = bytes_eq cursor (codes "0")

abbrev pub page_of : List Text → List Text → Bool → Text × List Text
page_of first second true = (codes "1", user_keys first)
page_of first second false = (codes "0", user_keys second)

-- The scan of this store returns the keys of the users that it is told, in two pages.
abbrev pub plain_hashes : List Text → List Text → Hashes
plain_hashes first second = record {
  Store = Text → PlainHash;
  fields = λ s k. (s k).items;
  hset = λ s k f v j. if bytes_eq k j then put f v (s j) else s j;
  hincrby = λ s k f d j.
      if bytes_eq k j then put f (value_or_zero (lookup f (s j).items) +ℤ d) (s j) else s j;
  scan = λ s cursor. page_of first second (first_page cursor);
  fields-IsDistinct = λ s k. (s k).distinct;
  lookup-hset = λ s k f v j g. put_at_lem (bytes_eq k j) f g v (s j);
  lookup-hincrby = λ s k f d j g. raise_at_lem (bytes_eq k j) f g d (s j);
}
