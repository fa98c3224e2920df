-- ===== src/Storage/BTree/Laws.antt =====
-- What the core relies on in a store of nodes: reads after writes, and ids that are given out in order.
use negentropy.Prelude.{ℕ, ◌+◌, ◌<◌, ◌≡◌, u64_mod, ◌==◌, if◌then◌else◌, ◌⊎◌}
use negentropy.Storage.BTree.{Limits, Node, zero_node, NodePtr, null_ptr, node_ptr, NodeStore}

pub record StoreLaws {M : Type 0} (l : Limits) (s : NodeStore M) : Type 1 where
  pub Valid : M → Type 0
  pub next : M → ℕ
  pub next_pos : (m : M) → Valid m → 0 < next m
  pub read_zero : (m : M) → s.read m 0 ≡ null_ptr
  pub read_next : (m : M) (k : ℕ) (n : Node) → Valid m → s.read m k ≡ node_ptr k n → k < next m
  pub read-write :
      (m : M) (j k : ℕ) (n old : Node)
      → Valid m
      → s.read m j ≡ node_ptr j old
      → s.read (s.write j n m) k ≡ (if k == j then node_ptr j n else s.read m k)
  pub write-Valid :
      (m : M) (j : ℕ) (n old : Node) → Valid m → s.read m j ≡ node_ptr j old → Valid (s.write j n m)
  pub get_root-write : (m : M) (j : ℕ) (n : Node) → s.get_root (s.write j n m) ≡ s.get_root m
  pub get_root-make : (m : M) → s.get_root (s.make m).0 ≡ s.get_root m
  pub next-write : (m : M) (j : ℕ) (n : Node) → next (s.write j n m) ≡ next m
  pub make_ptr :
      (m : M) → Valid m → next m + 1 < u64_mod → (s.make m).1 ≡ node_ptr (next m) (zero_node l)
  pub read-make :
      (m : M) (k : ℕ)
      → Valid m
      → next m + 1 < u64_mod
      → s.read (s.make m).0 k
        ≡ (if k == next m then node_ptr (next m) (zero_node l) else s.read m k)
  pub make-Valid : (m : M) → Valid m → next m + 1 < u64_mod → Valid (s.make m).0
  pub next-make : (m : M) → Valid m → next m + 1 < u64_mod → next (s.make m).0 ≡ next m + 1
  pub read-set_root : (m : M) (r k : ℕ) → s.read (s.set_root r m) k ≡ s.read m k
  pub set_root-Valid : (m : M) (r : ℕ) → Valid m → Valid (s.set_root r m)
  pub get_root-set_root : (m : M) (r : ℕ) → s.get_root (s.set_root r m) ≡ r
  pub next-set_root : (m : M) (r : ℕ) → next (s.set_root r m) ≡ next m

-- Every sibling that a node names is there.
abbrev pub Linked : (ℕ → NodePtr) → Type 0
Linked read =
    (k : ℕ) (n : Node)
    → read k ≡ node_ptr k n
    → (n.next_sibling ≡ 0) ⊎ ((n' : Node) × (read n.next_sibling ≡ node_ptr n.next_sibling n'))
