-- ===== src/Tests/Trees.antt =====
-- A store of nodes with one node, and a tree of two levels.
use negentropy.Prelude.{◌≡◌, refl, ℕ, List, [], ◌∷◌, arith, ◌==◌, if◌then◌else◌}
use negentropy.Prelude.Results.{ok}
use negentropy.Types.{Item, bound_at, bytes_lt, item_le}
use negentropy.Accumulator.{zero_accum, accum_from}
use negentropy.Tests.Data.{item}
use negentropy.Storage.BTree.Reading.{
  find_lower_bound, find_lower_bound_aux, pick_in, pick_child, check_bounds, size,
}
use negentropy.Storage.BTree.{deref, key_at, production, Key, Node, zero_node, null_ptr}
use negentropy.Storage.BTree.Mem.{BTreeMem, find_node, get_node_read, delete_node}
use negentropy.Storage.BTree.Mem.Reads.{IsStore, delete_node-get_node_read}

abbrev one_node : BTreeMem
one_node = record {
  node_storage_map = (1, (zero_node production)) ∷ [];
  root_node_id = 1;
  next_node_id = 2;
}

one_node-IsStore : IsStore one_node
one_node-IsStore = record { started = omega arith; given = ((omega arith, omega arith), tt) }

delete_node-get_node_read_example :
    ((k : ℕ)
      → get_node_read (delete_node 1 one_node) k
        ≡ (if k == 1 then null_ptr else get_node_read one_node k))
    × IsStore (delete_node 1 one_node)
delete_node-get_node_read_example = delete_node-get_node_read one_node 1 one_node-IsStore

abbrev linked : Node
linked = record (zero_node production) { next_sibling = 7 }

abbrev leaf_key : ℕ → Key
leaf_key t = record { item = item t 1; node_id = 0 }

abbrev left_leaf : Node
left_leaf = record {
  num_items = 2;
  accum_count = 2;
  next_sibling = 3;
  prev_sibling = 0;
  accum = accum_from zero_accum (item 5 1 ∷ item 6 1 ∷ []);
  items = leaf_key 5 ∷ leaf_key 6 ∷ [];
}

abbrev right_leaf : Node
right_leaf = record {
  num_items = 1;
  accum_count = 1;
  next_sibling = 0;
  prev_sibling = 2;
  accum = accum_from zero_accum (item 7 1 ∷ []);
  items = leaf_key 7 ∷ [];
}

abbrev three_items : List Item
three_items = item 5 1 ∷ item 6 1 ∷ item 7 1 ∷ []

abbrev root : Node
root = record {
  num_items = 2;
  accum_count = 3;
  next_sibling = 0;
  prev_sibling = 0;
  accum = accum_from zero_accum three_items;
  items = record { item = item 5 1; node_id = 2 } ∷ record { item = item 7 1; node_id = 3 } ∷ [];
}

abbrev two_levels : BTreeMem
two_levels = record {
  node_storage_map = (1, root) ∷ (2, left_leaf) ∷ (3, right_leaf) ∷ [];
  root_node_id = 1;
  next_node_id = 4;
}

-- The tree searches from its first item on, whatever `begin` is: a bound below the items of the range
-- is found at an index below `begin`.
tree_before_begin : find_lower_bound (get_node_read two_levels) 1 3 2 3 (bound_at 6) ≡ ok 1
unfolding get_node_read find_node bytes_lt item_le find_lower_bound find_lower_bound_aux pick_in
    pick_child deref key_at check_bounds size
tree_before_begin = refl
