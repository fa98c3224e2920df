-- ===== src/Storage/BTree.antt =====
-- cpp/negentropy/storage/btree/core.h, the data: keys, nodes and pointers to nodes, and what the core
-- asks of a store of nodes. A pointer that may be null is an option of the node that it points to;
-- `node_id` is 0 where it is null.
use negentropy.Prelude.{
  ℕ, suc, ◌+◌, ◌*◌, ◌/◌, ◌%◌, ◌<◌, ◌≡◌, Bytes, List, [], ◌∷◌, ◌++◌, replicate, take, drop, length,
  get_elem?, Option, none, some,
}
use negentropy.Prelude.Results.{Result, ok, err, Error}
use negentropy.Types.{Item, item_at}
use negentropy.Accumulator.{zero_accum}
pub mod Mem
pub mod Shape
pub mod Ids
pub mod Laws
pub mod Changes
pub mod Tree
pub mod Reading
pub mod Search
pub mod Insert
pub mod Erase

pub record Limits : Type 0 where
  pub min_items : ℕ
  pub rebalance_threshold : ℕ
  pub max_items : ℕ

abbrev pub production : Limits
production = record { min_items = 30; rebalance_threshold = 60; max_items = 80 }

-- with `NE_FUZZ_TEST`
abbrev pub fuzz_test : Limits
fuzz_test = record { min_items = 2; rebalance_threshold = 4; max_items = 6 }

-- the static assertions
pub record IsLimits (l : Limits) : Type 0 where
  pub min_below : l.min_items < l.rebalance_threshold
  pub threshold_below : l.rebalance_threshold < l.max_items
  pub half_above : l.min_items < l.max_items / 2
  pub even_min : l.min_items % 2 ≡ 0
  pub even_threshold : l.rebalance_threshold % 2 ≡ 0
  pub even_max : l.max_items % 2 ≡ 0

pub record Key : Type 0 where
  pub item : Item
  pub node_id : ℕ

abbrev pub zero_key : Key
zero_key = record { item = item_at 0; node_id = 0 }

-- `items` is the whole array, of which the first `num_items` are in use.
pub record Node : Type 0 where
  pub num_items : ℕ
  pub accum_count : ℕ
  pub next_sibling : ℕ
  pub prev_sibling : ℕ
  pub accum : Bytes
  pub items : List Key

-- the constructor clears the whole object
abbrev pub zero_node : Limits → Node
zero_node l = record {
  num_items = 0;
  accum_count = 0;
  next_sibling = 0;
  prev_sibling = 0;
  accum = zero_accum;
  items = replicate (suc l.max_items) zero_key;
}

pub record NodePtr : Type 0 where
  pub p : Option Node
  pub node_id : ℕ

abbrev pub null_ptr : NodePtr
null_ptr = record { p = none; node_id = 0 }

abbrev pub node_ptr : ℕ → Node → NodePtr
node_ptr id node = record { p = some node; node_id = id }

-- an access to what may not be there
abbrev pub present {ℓ} : {A : Type ℓ} → Option A → Result A
present none = err Error.undefined
present (some a) = ok a

unfoldable pub deref : NodePtr → Result Node
deref ptr = present ptr.p

unfoldable pub key_at : Node → ℕ → Result Key
key_at node i = present (get_elem? node.items i)

-- `xs` written over `array` from place `i` on, as by `memcpy`
abbrev pub overlay : ℕ → List Key → List Key → List Key
overlay i xs array = take i array ++ xs ++ drop (i + length xs) array

-- the virtual functions of the core; a node is changed through the pointer of `getNodeWrite`
pub record NodeStore (M : Type 0) : Type 0 where
  pub read : M → ℕ → NodePtr
  pub write : ℕ → Node → M → M
  pub make : M → M × NodePtr
  pub delete : ℕ → M → M
  pub get_root : M → ℕ
  pub set_root : ℕ → M → M
