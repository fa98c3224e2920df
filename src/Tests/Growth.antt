-- ===== src/Tests/Growth.antt =====
-- The limits, and an insertion that divides a full leaf, with the limits of the fuzz test.
use negentropy.Prelude.{
  ◌↔◌, ℕ, ◌+◌, ◌-◌, slice, min, ◌≤◌, ◌<◌, ◌≡◌, refl, ap, sym, ◌∙◌, true, false, List, [], ◌∷◌, some,
  none, arith, inl, inr, ◌==◌, All, Bool-cases,
}
use negentropy.Prelude.Results.{ok}
use negentropy.Types.{Item, IsItem, item_lt, bound_at}
use negentropy.Types.Order.{item_lt_earlier}
use negentropy.Accumulator.{zero_accum, accum_from, get_fingerprint}
use negentropy.Storage.{IsAscending, count_below}
use negentropy.Storage.Ordered.{has}
use negentropy.Storage.BTree.{
  IsLimits, production, fuzz_test, Key, zero_key, Node, NodePtr, null_ptr, node_ptr,
}
use negentropy.Storage.BTree.Mem.Reads.{IsStore}
use negentropy.Storage.BTree.Mem.{empty_mem, BTreeMem, mem_store, find_node, get_node_read}
use negentropy.Storage.BTree.Mem.Contract.{mem_laws, mem_store-StoreLaws, mem_Sound, mem_next}
use negentropy.Storage.BTree.Laws.{StoreLaws, Linked}
use negentropy.Storage.BTree.Changes.{node_ptr_inj}
use negentropy.Storage.BTree.Tree.{IsTree, Shape}
use negentropy.Storage.BTree.Shape.{Sub}
use negentropy.Storage.BTree.Search.{search_item}
use negentropy.Storage.BTree.Search.Way.{way, search_item_lem}
use negentropy.Storage.BTree.Insert.Refines.{Inserted, insert_item_refines}
use negentropy.Storage.BTree.Insert.Many.{Loaded, insert_items_exact}
use negentropy.Storage.BTree.Reading.{fingerprint, get_item, find_lower_bound}
use negentropy.Storage.BTree.Reading.Bounds.{tree_find_lower_bound}
use negentropy.Storage.BTree.Reading.Whole.{tree_fingerprint}
use negentropy.Storage.BTree.Reading.Items.{tree_get_item}
use negentropy.Tests.Data.{item, item-IsItem, hash}

production-IsLimits : IsLimits production
production-IsLimits = record {
  min_below = omega arith;
  threshold_below = omega arith;
  half_above = omega arith;
  even_min = refl;
  even_threshold = refl;
  even_max = refl;
}

fuzz_test-IsLimits : IsLimits fuzz_test
fuzz_test-IsLimits = record {
  min_below = omega arith;
  threshold_below = omega arith;
  half_above = omega arith;
  even_min = refl;
  even_threshold = refl;
  even_max = refl;
}

abbrev leaf_key : ℕ → Key
leaf_key t = record { item = item t 1; node_id = 0 }

abbrev six_items : List Item
six_items = item 1 1 ∷ item 2 1 ∷ item 3 1 ∷ item 5 1 ∷ item 6 1 ∷ item 7 1 ∷ []

abbrev full_leaf : Node
full_leaf = record {
  num_items = 6;
  accum_count = 6;
  next_sibling = 0;
  prev_sibling = 0;
  accum = accum_from zero_accum six_items;
  items =
      leaf_key 1 ∷ leaf_key 2 ∷ leaf_key 3 ∷ leaf_key 5 ∷ leaf_key 6 ∷ leaf_key 7 ∷ zero_key ∷ [];
}

abbrev full_root : BTreeMem
full_root = record { node_storage_map = (1, full_leaf) ∷ []; root_node_id = 1; next_node_id = 2 }

leaf_tree : Sub fuzz_test (get_node_read full_root) 0 1 six_items (1 ∷ [])
unfolding get_node_read find_node
leaf_tree = record {
  node = full_leaf;
  keys = leaf_key 1 ∷ leaf_key 2 ∷ leaf_key 3 ∷ leaf_key 5 ∷ leaf_key 6 ∷ leaf_key 7 ∷ [];
  below = [];
  found = refl;
  slots = record {
    rest = zero_key ∷ [];
    used = refl;
    full = refl;
    room = refl;
    within = omega arith;
  };
  some_key = omega arith;
  counts = record { count = refl; total = refl };
  own = refl;
  body = record {
    own = refl;
    no_child = (refl, (refl, (refl, (refl, (refl, (refl, tt))))));
    none_below = refl;
  };
}

has_node : NodePtr → ℕ
has_node ptr = elim ptr.p [ none ↦ 0 | some node ↦ 1 ]

full_root-other : (k : ℕ) → (1 == k) ≡ false → has_node (get_node_read full_root k) ≡ 0
unfolding get_node_read find_node has_node
full_root-other k other = ground (arith, other)

full_root-Linked : Linked (get_node_read full_root)
unfolding get_node_read find_node has_node
full_root-Linked k n e = elim (Bool-cases (1 == k)) [
  | inl same ↦
      let is_one : 1 ≡ k = ground arith in
      inl (
        ap (λ (node : Node). node.next_sibling)
          (sym (
            node_ptr_inj k full_leaf n (
              ap (λ (i : ℕ). node_ptr i full_leaf) (sym is_one)
              ∙ ap (get_node_read full_root) is_one
              ∙ e))))
  | inr other ↦ absurd (omega (arith, ap has_node e, full_root-other k other))
]

later : (a b : ℕ) → a + 1 ≤ b → item_lt (item a 1) (item b 1) ≡ true
later a b h = item_lt_earlier (item a 1) (item b 1) (omega (arith, h))

valid : (t : ℕ) → t < 1000 → IsItem (item t 1)
valid t h = item-IsItem t 1 h (omega arith)

six_items-valid : All IsItem six_items
six_items-valid = (
  valid 1 (omega arith),
  (
    valid 2 (omega arith),
    (
      valid 3 (omega arith),
      (valid 5 (omega arith), (valid 6 (omega arith), (valid 7 (omega arith), tt))),
    ),
  ),
)

six_items-IsAscending : IsAscending six_items
six_items-IsAscending = (
  later 1 2 (omega arith),
  (
    later 2 3 (omega arith),
    (later 3 5 (omega arith), (later 5 6 (omega arith), (later 6 7 (omega arith), (tt, tt)))),
  ),
)

full_root-IsTree : IsTree (mem_store fuzz_test) fuzz_test (mem_laws fuzz_test) full_root six_items 1
unfolding mem_store
full_root-IsTree = record {
  sound =
      mem_Sound fuzz_test full_root
        (record { started = omega arith; given = ((omega arith, omega arith), tt) })
        full_root-Linked;
  valid = six_items-valid;
  sorted = six_items-IsAscending;
  shape =
      Shape.rooted 0 (1 ∷ []) leaf_tree (tt, tt) (omega (arith, mem_next fuzz_test full_root), tt);
}

full_root_zero : get_node_read full_root 0 ≡ null_ptr
unfolding get_node_read
full_root_zero = refl

search_item_lem_example :
    search_item (get_node_read full_root) 2 1 (item 4 1)
    ≡ ok (
      way fuzz_test
          (omega arith)
          (get_node_read full_root)
          full_root_zero
          (item 4 1)
          0
          1
          six_items
          (1 ∷ [])
          leaf_tree,
      has (item 4 1) six_items,
    )
search_item_lem_example =
    search_item_lem fuzz_test (omega arith) (get_node_read full_root) full_root_zero (item 4 1) 0 1
      six_items (1 ∷ []) leaf_tree six_items-IsAscending 2 (omega arith)

insert_item_refines_example :
    Inserted
      (mem_store fuzz_test)
      fuzz_test
      fuzz_test-IsLimits
      (omega arith)
      (mem_laws fuzz_test)
      2
      (item 4 1)
      full_root
      six_items
      1
insert_item_refines_example =
    insert_item_refines (mem_store fuzz_test) fuzz_test fuzz_test-IsLimits (omega arith)
      (mem_laws fuzz_test) 2 (item 4 1) full_root six_items 1 full_root-IsTree
      (valid 4 (omega arith)) (omega arith) (omega (arith, mem_next fuzz_test full_root))

mem_store-StoreLaws_example :
    (law : StoreLaws fuzz_test (mem_store fuzz_test)) × ((m : BTreeMem) → law.Valid m ↔ IsStore m)
    × ((m : BTreeMem) → law.next m ≡ m.next_node_id)
    × law.Valid empty_mem
mem_store-StoreLaws_example = mem_store-StoreLaws fuzz_test

tree_fingerprint_example :
    fingerprint (get_node_read full_root) 1 1 hash 2 5
    ≡ ok (get_fingerprint hash (accum_from zero_accum (slice 2 5 six_items)) (5 - 2))
unfolding mem_store
tree_fingerprint_example =
    tree_fingerprint (mem_store fuzz_test) fuzz_test (mem_laws fuzz_test) hash full_root six_items 1
      1 2 5 full_root-IsTree (omega arith) (omega arith) (omega arith)

tree_get_item_example : get_item (get_node_read full_root) 1 1 3 ≡ ok (item 5 1)
unfolding mem_store
tree_get_item_example =
    tree_get_item (mem_store fuzz_test) fuzz_test (mem_laws fuzz_test) full_root 1 six_items 1 3
      full_root-IsTree (omega arith)

two_below : 2 ≤ count_below (bound_at 4).item six_items
unfolding count_below
two_below =
    let one : item_lt (item 1 1) (bound_at 4).item ≡ true = item_lt_earlier _ _ (omega arith) in
    let two : item_lt (item 2 1) (bound_at 4).item ≡ true = item_lt_earlier _ _ (omega arith) in
    rw (one, two) (omega arith)

tree_find_lower_bound_example :
    find_lower_bound (get_node_read full_root) 1 2 2 5 (bound_at 4)
    ≡ ok (min (count_below (bound_at 4).item six_items) 5)
unfolding mem_store
tree_find_lower_bound_example =
    tree_find_lower_bound (mem_store fuzz_test) fuzz_test (mem_laws fuzz_test) full_root 2 six_items
      1 2 5 (bound_at 4) full_root-IsTree (omega arith) (omega arith) (omega arith) two_below

insert_items_exact_example :
    Loaded
      (mem_store fuzz_test)
      fuzz_test
      fuzz_test-IsLimits
      (omega arith)
      (mem_laws fuzz_test)
      5
      full_root
      six_items
      (item 4 1 ∷ item 2 1 ∷ item 8 1 ∷ [])
insert_items_exact_example =
    insert_items_exact (mem_store fuzz_test) fuzz_test fuzz_test-IsLimits (omega arith)
      (mem_laws fuzz_test) 5 full_root six_items (item 4 1 ∷ item 2 1 ∷ item 8 1 ∷ []) 1
      full_root-IsTree (valid 4 (omega arith), (valid 2 (omega arith), (valid 8 (omega arith), tt)))
      (omega arith) (omega (arith, mem_next fuzz_test full_root))
