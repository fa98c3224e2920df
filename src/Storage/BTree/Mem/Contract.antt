-- ===== src/Storage/BTree/Mem/Contract.antt =====
-- The store of nodes in memory keeps what the core relies on.
use negentropy.Prelude.{
  ℕ, ◌+◌, ◌≤◌, ◌<◌, ◌≡◌, ◌↔◌, refl, ap, sym, ◌∙◌, arith, u64_mod, ◌==◌, if◌then◌else◌, some, none,
  lt-or-le, inl, inr, Bool-cases,
}
use negentropy.Storage.BTree.{Limits, Node, zero_node, NodePtr, null_ptr, node_ptr}
use negentropy.Storage.BTree.Laws.{StoreLaws, Linked}
use negentropy.Storage.BTree.Changes.{Sound}
use negentropy.Storage.BTree.Mem.{
  BTreeMem, empty_mem, get_node_read, write_node, make_node, mem_store,
}
use negentropy.Storage.BTree.Mem.Reads.{
  IsStore, made, make_node-made, get_node_read-made, find_node-fresh, make_node_fresh,
  write_node-get_node_read,
}

has_node : NodePtr → ℕ
has_node ptr = elim ptr.p [ none ↦ 0 | some node ↦ 1 ]

unused_null : (m : BTreeMem) (k : ℕ) → IsStore m → m.next_node_id ≤ k → get_node_read m k ≡ null_ptr
unfolding get_node_read
unused_null m k st h =
    ground (arith, find_node-fresh k m.node_storage_map m.next_node_id h st.given)

used_before :
    (m : BTreeMem) (k : ℕ) (n : Node)
    → IsStore m
    → get_node_read m k ≡ node_ptr k n
    → k < m.next_node_id
unfolding has_node
used_before m k n st e = elim (lt-or-le k m.next_node_id) [
  | inl before ↦ before
  | inr unused ↦ absurd (omega (arith, ap has_node (sym (unused_null m k st unused) ∙ e)))
]

written :
    (m : BTreeMem) (j k : ℕ) (n old : Node)
    → IsStore m
    → get_node_read m j ≡ node_ptr j old
    → get_node_read (write_node j n m) k ≡ (if k == j then node_ptr j n else get_node_read m k)
written m j k n old st e = elim (Bool-cases (k == j)) [
  | inl same ↦
      let k_j : k ≡ j = ground arith in
      rw same
        (ap (get_node_read (write_node j n m)) k_j ∙ (write_node-get_node_read m j n old st e).0)
  | inr other ↦ rw other ((write_node-get_node_read m j n old st e).1 k (ground arith))
]

made_store :
    (l : Limits) (m : BTreeMem)
    → IsStore m
    → m.next_node_id + 1 < u64_mod
    → (make_node l m).0 ≡ made l m
made_store l m st h = rw (make_node-made l m st h) refl

read_made :
    (l : Limits) (m : BTreeMem) (k : ℕ)
    → IsStore m
    → m.next_node_id + 1 < u64_mod
    → get_node_read (make_node l m).0 k
      ≡ (if k == m.next_node_id then node_ptr m.next_node_id (zero_node l) else get_node_read m k)
read_made l m k st h =
    ap (λ (m' : BTreeMem). get_node_read m' k) (made_store l m st h)
    ∙ get_node_read-made l m k st.started
    ∙ ground arith

-- the laws one by one
pub mem_laws : (l : Limits) → StoreLaws l (mem_store l)
unfolding mem_store write_node made get_node_read make_node
mem_laws l = record {
  Valid = IsStore;
  next = λ m. m.next_node_id;
  next_pos = λ m st. st.started;
  read_zero = λ m. refl;
  read_next = used_before;
  read-write = written;
  write-Valid = λ m j n old st e. (write_node-get_node_read m j n old st e).2;
  get_root-write = λ m j n. refl;
  get_root-make = λ m. refl;
  next-write = λ m j n. refl;
  make_ptr = λ m st h. (make_node_fresh l m st h).0;
  read-make = read_made l;
  make-Valid = λ m st h. (make_node_fresh l m st h).3;
  next-make = λ m st h. ap (λ (m' : BTreeMem). m'.next_node_id) (made_store l m st h);
  read-set_root = λ m r k. refl;
  set_root-Valid = λ m r st. record { started = st.started; given = st.given };
  get_root-set_root = λ m r. refl;
  next-set_root = λ m r. refl;
}

-- The tree in memory keeps the contract that the core of the tree relies on, for exactly the stores whose
-- ids were given out in order, of which the empty one is one, and with the next id of the store as the
-- next id: as long as ids are left, what is written is read back and other nodes stay, a new node is
-- cleared and under the next id, and neither touches the root.
pub mem_store-StoreLaws :
    (l : Limits)
    → (law : StoreLaws l (mem_store l)) × ((m : BTreeMem) → law.Valid m ↔ IsStore m)
      × ((m : BTreeMem) → law.next m ≡ m.next_node_id)
      × law.Valid empty_mem
unfolding mem_laws
mem_store-StoreLaws l = (
  mem_laws l,
  (λ m. ((λ st. st), (λ st. st))),
  (λ m. refl),
  record { started = omega arith; given = tt },
)

pub mem_Sound :
    (l : Limits) (m : BTreeMem)
    → IsStore m
    → Linked (get_node_read m)
    → Sound (mem_store l) l (mem_laws l) m
unfolding mem_laws mem_store
mem_Sound l m st linked = record { valid = st; linked = linked }

pub mem_next : (l : Limits) (m : BTreeMem) → (mem_laws l).next m ≡ m.next_node_id
unfolding mem_laws
mem_next l m = refl
