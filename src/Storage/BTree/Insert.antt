-- ===== src/Storage/BTree/Insert.antt =====
-- cpp/negentropy/storage/btree/core.h, `insertItem`: down to a leaf, and back up along the
-- breadcrumbs, where full nodes are split. Counts of the items in memory are unbounded here.
use negentropy.Prelude.{
  ℕ, zero, suc, ◌+◌, ◌-◌, ◌/◌, Bool, true, false, not, Bytes, List, [], ◌∷◌, ◌++◌, take, drop,
  replicate, ltb, ◌==◌, if◌then◌else◌, Option, none, some,
}
use negentropy.Prelude.Results.{Result, ok, err, Error, ◌>>=◌}
use negentropy.Types.{Item, item_lt, make_item}
use negentropy.Accumulator.{add, zero_accum}
use negentropy.Storage.BTree.{
  Limits, Key, zero_key, Node, zero_node, NodePtr, deref, key_at, overlay, NodeStore,
}
use negentropy.Storage.BTree.Search.{Breadcrumb, search_item}
pub mod Steps
pub mod Place
pub mod Split
pub mod Divide
pub mod Layers
pub mod Outcome
pub mod Raise
pub mod Merge
pub mod Leaf
pub mod Around
pub mod Inner
pub mod Descent
pub mod Root
pub mod Levels
pub mod Refines
pub mod Many

-- `std::inplace_merge` of sorted keys with one more: behind the keys that are not above it
unfoldable pub merge_key : Key → List Key → List Key
merge_key k [] = k ∷ []
merge_key k (e ∷ es) = if item_lt k.item e.item then k ∷ e ∷ es else e ∷ merge_key k es

-- the variables of the way back
pub record Inserting (M : Type 0) : Type 0 where
  pub store : M
  pub new_key : Key
  pub needs_merge : Bool

module _ {M : Type 0} (s : NodeStore M) (l : Limits) where
  pub load : M → ℕ → Result Node
  load m id = deref (s.read m id)

  -- with the node that the key at `index` points to
  pub refresh_from : Node → ℕ → Key → Option Node → Result Node
  refresh_from node index k none = ok node
  refresh_from node index k (some child) = do
    first ← key_at child 0
    ok (record node { items = overlay index (record k { item = first.item } ∷ []) node.items })

  pub refresh_index : M → Node → ℕ → Result Node
  refresh_index m node index = do
    k ← key_at node index
    refresh_from node index k (s.read m k.node_id).p

  -- `addToAccum` for each key, on `accum` and `accumCount`
  unfoldable pub add_to_accum : M → List Key → Bytes × ℕ → Result (Bytes × ℕ)
  add_to_accum m [] acc = ok acc
  add_to_accum m (k ∷ ks) acc =
      if k.node_id == 0 then add_to_accum m ks (add acc.0 k.item.id, acc.1 + 1) else do
        child ← load m k.node_id
        add_to_accum m ks (add acc.0 child.accum, acc.1 + child.accum_count)

  -- There is room for the new key.
  unfoldable pub put_key : Key → Item → Node → Node
  put_key new_key new_item node = record node {
    items = overlay 0 (merge_key new_key (take node.num_items node.items)) node.items;
    num_items = node.num_items + 1;
    accum = add node.accum new_item.id;
    accum_count = node.accum_count + 1;
  }

  -- The two halves of a full node, their siblings not yet set.
  unfoldable pub split_node : M → Key → Node → Result (Node × Node)
  split_node m new_key node = do
    let keys = merge_key new_key (take l.max_items node.items)
    let num_left = if node.next_sibling == 0 then l.max_items else l.max_items / 2 + 1
    let num_right = if node.next_sibling == 0 then 1 else l.max_items / 2
    left ← add_to_accum m (take num_left keys) (zero_accum, 0)
    let moved = take num_right (drop num_left keys)
    right ← add_to_accum m moved (zero_accum, 0)
    ok (
      record node {
        num_items = num_left;
        accum = left.0;
        accum_count = left.1;
        items = take num_left keys ++ replicate (l.max_items + 1 - num_left) zero_key;
      },
      record (zero_node l) {
        num_items = num_right;
        accum = right.0;
        accum_count = right.1;
        items = overlay 0 moved (zero_node l).items;
      },
    )

  -- `if (id) getNodeWrite(id).get().prevSibling = prev;`
  unfoldable pub set_prev : ℕ → ℕ → M → Result M
  set_prev id prev m =
      if id == 0
      then ok m
      else do node ← load m id; ok (s.write id (record node { prev_sibling = prev }) m)

  -- The node is full: the new node, the changed links, and the key for the parent.
  unfoldable pub split_at : M → ℕ → Key → Node → Result (M × Node × Key)
  split_at m id new_key node = do
    let made = s.make m
    let right_id = made.1.node_id
    (left, right) ← split_node made.0 new_key node
    let m1 = s.write id (record left { next_sibling = right_id }) made.0
    let m2 =
        s.write right_id (record right { next_sibling = node.next_sibling; prev_sibling = id }) m1
    m3 ← set_prev node.next_sibling right_id m2
    first ← key_at right 0
    ok (
      m3,
      record left { next_sibling = right_id },
      record { item = first.item; node_id = right_id },
    )

  -- one breadcrumb
  pub insert_step : Item → Breadcrumb → Inserting M → Result (Inserting M)
  insert_step new_item crumb st = do
    node ← load st.store crumb.node_id
    if not st.needs_merge
        then (do
          node' ←
              refresh_index st.store
                (record node {
                  accum = add node.accum new_item.id;
                  accum_count = node.accum_count + 1;
                })
                0
          ok (record st { store = s.write crumb.node_id node' st.store }))
        else if ltb node.num_items l.max_items
        then (do
          node' ← refresh_index st.store (put_key st.new_key new_item node) 0
          ok (record st { store = s.write crumb.node_id node' st.store; needs_merge = false }))
        else (do
          (m, left, key) ← split_at st.store crumb.node_id st.new_key node
          left' ← refresh_index m left 0
          ok (record st { store = s.write crumb.node_id left' m; new_key = key }))

  pub insert_steps : Item → List Breadcrumb → Inserting M → Result (Inserting M)
  insert_steps new_item [] st = ok st
  insert_steps new_item (crumb ∷ crumbs) st = do
    st' ← insert_step new_item crumb st
    insert_steps new_item crumbs st'

  -- a new level above the two halves of the root
  pub new_level : M → ℕ → ℕ → Result M
  new_level m left_id right_id = do
    left ← load m left_id
    right ← load m right_id
    left_first ← key_at left 0
    right_first ← key_at right 0
    let made = s.make m
    let root : Node = record (zero_node l) {
      num_items = 2;
      accum = add (add zero_accum left.accum) right.accum;
      accum_count = left.accum_count + right.accum_count;
      items =
          overlay 0
            (record left_first { node_id = left_id }
              ∷ record right_first { node_id = right_id }
              ∷ [])
            (zero_node l).items;
    }
    ok (s.set_root made.1.node_id (s.write made.1.node_id root made.0))

  -- the first leaf
  pub first_leaf : M → Item → M
  first_leaf m new_item =
      let made = s.make m in
      let leaf : Node = record (zero_node l) {
        num_items = 1;
        accum = add zero_accum new_item.id;
        accum_count = 1;
        items = overlay 0 (record { item = new_item; node_id = 0 } ∷ []) (zero_node l).items;
      } in
      s.set_root made.1.node_id (s.write made.1.node_id leaf made.0)

  -- `fuel` is more than the levels of the tree.
  pub insert_item : ℕ → M → Item → Result (M × Bool)
  insert_item fuel m new_item =
      let root_id = s.get_root m in
      if root_id == 0 then ok (first_leaf m new_item, true) else do
        (breadcrumbs, found) ← search_item (s.read m) fuel root_id new_item
        if found then ok (m, false) else do
          st ← insert_steps new_item breadcrumbs (record {
            store = m;
            new_key = record { item = new_item; node_id = 0 };
            needs_merge = true;
          })
          if st.needs_merge
              then (do m' ← new_level st.store root_id st.new_key.node_id; ok (m', true))
              else ok (st.store, true)

  pub insert : ℕ → M → ℕ → Bytes → Result (M × Bool)
  insert fuel m created_at id = do it ← make_item created_at id; insert_item fuel m it
