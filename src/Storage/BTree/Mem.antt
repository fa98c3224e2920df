-- ===== src/Storage/BTree/Mem.antt =====
-- cpp/negentropy/storage/BTreeMem.h: the nodes of a tree in memory. The `std::unordered_map` is an
-- association list; a write through a pointer from `getNodeWrite` is `write_node`. For an id without a
-- node the pointer is null: the core reads through it first, which is the error `undefined` there, and
-- `write_node` itself changes nothing.
use negentropy.Prelude.{
  ℕ, ◌+◌, ◌%◌, u64_mod, List, [], ◌∷◌, ◌==◌, if◌then◌else◌, Option, some, none,
}
use negentropy.Storage.BTree.{Limits, Node, zero_node, NodePtr, null_ptr, node_ptr, NodeStore}
pub mod Reads
pub mod Contract

pub record BTreeMem : Type 0 where
  pub node_storage_map : List (ℕ × Node)
  pub root_node_id : ℕ
  pub next_node_id : ℕ

abbrev pub empty_mem : BTreeMem
empty_mem = record { node_storage_map = []; root_node_id = 0; next_node_id = 1 }

unfoldable pub find_node : ℕ → List (ℕ × Node) → Option Node
find_node k [] = none
find_node k (e ∷ es) = if e.0 == k then some e.1 else find_node k es

-- a new entry if the key has none
pub try_emplace : ℕ → Node → List (ℕ × Node) → List (ℕ × Node)
try_emplace k n es = elim (find_node k es) [ none ↦ (k, n) ∷ es | some old ↦ es ]

pub erase : ℕ → List (ℕ × Node) → List (ℕ × Node)
erase k [] = []
erase k (e ∷ es) = let rest = erase k es in if e.0 == k then rest else e ∷ rest

pub assign : ℕ → Node → List (ℕ × Node) → List (ℕ × Node)
assign k n [] = []
assign k n (e ∷ es) = if e.0 == k then (k, n) ∷ es else e ∷ assign k n es

unfoldable pub get_node_read : BTreeMem → ℕ → NodePtr
get_node_read m node_id =
    if node_id == 0 then null_ptr else elim (find_node node_id m.node_storage_map) [
      | none ↦ null_ptr
      | some n ↦ node_ptr node_id n
    ]

unfoldable pub write_node : ℕ → Node → BTreeMem → BTreeMem
write_node node_id n m = record m { node_storage_map = assign node_id n m.node_storage_map }

unfoldable pub make_node : Limits → BTreeMem → BTreeMem × NodePtr
make_node l m =
    let m' : BTreeMem = record m {
      next_node_id = (m.next_node_id + 1) % u64_mod;
      node_storage_map = try_emplace m.next_node_id (zero_node l) m.node_storage_map;
    } in
    (m', get_node_read m' m.next_node_id)

pub delete_node : ℕ → BTreeMem → BTreeMem
delete_node node_id m = record m { node_storage_map = erase node_id m.node_storage_map }

-- the interface that the core is over
unfoldable pub mem_store : Limits → NodeStore BTreeMem
mem_store l = record {
  read = get_node_read;
  write = write_node;
  make = make_node l;
  delete = delete_node;
  get_root = λ m. m.root_node_id;
  set_root = λ id m. record m { root_node_id = id };
}
