-- ===== src/Storage/BTree/Erase.antt =====
-- cpp/negentropy/storage/btree/core.h, `eraseItem`: down to the leaf that holds the item, and back up
-- along the breadcrumbs, where nodes that are short of items take some from a neighbour or join it.
use negentropy.Prelude.{
  ℕ, ◌+◌, ◌-◌, ◌/◌, Bool, true, false, not, ◌&&◌, Bytes, List, [], ◌∷◌, take, drop, replicate,
  sub_u64, ltb, leb, ◌==◌, if◌then◌else◌,
}
use negentropy.Prelude.Results.{Result, ok, ◌>>=◌}
use negentropy.Types.{Item, make_item}
use negentropy.Accumulator.{add, sub, zero_accum}
use negentropy.Storage.BTree.{Limits, zero_key, Node, key_at, overlay, NodeStore}
use negentropy.Storage.BTree.Search.{Breadcrumb, search_item}
use negentropy.Storage.BTree.Insert.{load, refresh_index, add_to_accum, set_prev}

-- the variables of the way back
pub record Erasing (M : Type 0) : Type 0 where
  pub store : M
  pub needs_remove : Bool
  pub neighbour_refresh_needed : Bool

-- the keys from `index + 1` on move one place down, and the last place in use is cleared
pub remove_key : ℕ → Node → Node
remove_key index node =
    let last = sub_u64 node.num_items 1 in
    record node {
      num_items = last;
      items = overlay last (zero_key ∷ []) (
          overlay index (take (node.num_items - (index + 1)) (drop (index + 1) node.items))
            node.items);
    }

pub subtract : Item → Node → Node
subtract old_item node = record node {
  accum = sub node.accum old_item.id;
  accum_count = sub_u64 node.accum_count 1;
}

module _ {M : Type 0} (s : NodeStore M) (l : Limits) where
  -- `if (id) getNodeWrite(id).get().nextSibling = next;`
  pub set_next : ℕ → ℕ → M → Result M
  set_next id next m =
      if id == 0
      then ok m
      else do node ← load s l m id; ok (s.write id (record node { next_sibling = next }) m)

  -- `rebalance`, to the left: both nodes
  pub move_left : M → ℕ → Node → Node → Result (Node × Node)
  move_left m num_right left right = do
    let num_move = right.num_items - num_right
    let moved = take num_move right.items
    (accum, count) ← add_to_accum s l m moved (zero_accum, 0)
    ok (
      record left {
        num_items = left.num_items + num_move;
        accum = add left.accum accum;
        accum_count = left.accum_count + count;
        items = overlay left.num_items moved left.items;
      },
      record right {
        num_items = num_right;
        accum = sub right.accum accum;
        accum_count = sub_u64 right.accum_count count;
        items =
            overlay num_right (replicate num_move zero_key)
              (overlay 0 (take num_right (drop num_move right.items)) right.items);
      },
    )

  -- `rebalance`, to the right: both nodes
  pub move_right : M → ℕ → Node → Node → Result (Node × Node)
  move_right m num_left left right = do
    let num_move = left.num_items - num_left
    let moved = take num_move (drop num_left left.items)
    (accum, count) ← add_to_accum s l m moved (zero_accum, 0)
    ok (
      record left {
        num_items = num_left;
        accum = sub left.accum accum;
        accum_count = sub_u64 left.accum_count count;
        items = overlay num_left (replicate num_move zero_key) left.items;
      },
      record right {
        num_items = right.num_items + num_move;
        accum = add right.accum accum;
        accum_count = right.accum_count + count;
        items = overlay 0 moved (overlay num_move (take right.num_items right.items) right.items);
      },
    )

  -- `rebalance`: both nodes, and whether the key of the right one has to be refreshed
  pub rebalance : M → Node → Node → Result ((Node × Node) × Bool)
  rebalance m left right =
      let total = left.num_items + right.num_items in
      let num_left = (total + 1) / 2 in
      let num_right = total - num_left in
      if leb num_right right.num_items
      then (do both ← move_left m num_right left right; ok (both, true))
      else (do both ← move_right m num_left left right; ok (both, false))

  -- The neighbour to the right, `node` being the left one: `node` as it is afterwards, the store with
  -- all else, and whether the neighbour's key has to be refreshed.
  pub use_right : Node → M → Result (M × Node × Bool)
  use_right node m = do
    right ← load s l m node.next_sibling
    if leb (node.num_items + right.num_items) l.rebalance_threshold
        then (do
          let joined : Node = record right {
            num_items = right.num_items + node.num_items;
            accum = add right.accum node.accum;
            accum_count = right.accum_count + node.accum_count;
            items =
                overlay 0 (take node.num_items node.items)
                  (overlay node.num_items (take right.num_items right.items) right.items);
          }
          m1 ← set_next node.prev_sibling node.next_sibling (s.write node.next_sibling joined m)
          m2 ← set_prev s l node.next_sibling node.prev_sibling m1
          ok (m2, record node { num_items = 0 }, false))
        else (do
          ((left', right'), refresh) ← rebalance m node right
          ok (s.write node.next_sibling right' m, left', refresh))

  -- The same with the neighbour to the left, `node` being the right one.
  pub use_left : Node → M → Result (M × Node × Bool)
  use_left node m = do
    left ← load s l m node.prev_sibling
    if leb (left.num_items + node.num_items) l.rebalance_threshold
        then (do
          let joined : Node = record left {
            num_items = left.num_items + node.num_items;
            accum = add left.accum node.accum;
            accum_count = left.accum_count + node.accum_count;
            next_sibling = node.next_sibling;
            items = overlay left.num_items (take node.num_items node.items) left.items;
          }
          m1 ← set_prev s l node.next_sibling node.prev_sibling (s.write node.prev_sibling joined m)
          ok (m1, record node { num_items = 0 }, false))
        else (do
          ((left', right'), refresh) ← rebalance m left node
          ok (s.write node.prev_sibling left' m, right', refresh))

  -- The node on which rebalancing may act, with the breadcrumbs that are left.
  pub balance : Node → List Breadcrumb → M → Bool → Result (M × Node × Bool)
  balance node [] m refresh = ok (m, node, refresh)
  balance node (parent ∷ crumbs) m refresh =
      if ltb node.num_items l.min_items
      then (do
        above ← load s l m parent.node_id
        if ltb 1 above.num_items
            then (if parent.index == 0 then use_right node m else use_left node m)
            else ok (m, node, refresh))
      else ok (m, node, refresh)

  -- An empty node is unlinked and deleted.
  pub drop_empty : ℕ → Node → M → Result (M × Bool)
  drop_empty id node m =
      if node.num_items == 0
      then (do
        m1 ← set_next node.prev_sibling node.next_sibling m
        m2 ← set_prev s l node.next_sibling node.prev_sibling m1
        ok (s.delete id m2, true))
      else ok (m, false)

  -- one breadcrumb, of which `crumbs` are those above
  pub erase_step : Item → Breadcrumb → List Breadcrumb → Erasing M → Result (Erasing M)
  erase_step old_item crumb crumbs st = do
    node ← load s l st.store crumb.node_id
    let node1 = subtract old_item (if st.needs_remove then remove_key crumb.index node else node)
    node2 ←
        if ltb crumb.index node1.num_items
        then refresh_index s l st.store node1 crumb.index
        else ok node1
    node3 ←
        if st.neighbour_refresh_needed
        then refresh_index s l st.store node2 (crumb.index + 1)
        else ok node2
    (m, node4, refresh) ← balance node3 crumbs st.store false
    (m', removed) ← drop_empty crumb.node_id node4 (s.write crumb.node_id node4 m)
    ok (record { store = m'; needs_remove = removed; neighbour_refresh_needed = refresh })

  pub erase_steps : Item → List Breadcrumb → Erasing M → Result (Erasing M)
  erase_steps old_item [] st = ok st
  erase_steps old_item (crumb ∷ crumbs) st = do
    st' ← erase_step old_item crumb crumbs st
    erase_steps old_item crumbs st'

  -- the end: an empty tree has no root, and a root with one child gives way to it
  pub shrink_root : ℕ → Erasing M → Result M
  shrink_root root_id st = if st.needs_remove then ok (s.set_root 0 st.store) else do
    node ← load s l st.store root_id
    first ← key_at node 0
    ok (
        if (node.num_items == 1) && not (first.node_id == 0)
        then s.delete root_id (s.set_root first.node_id st.store)
        else st.store)

  pub erase_item : ℕ → M → Item → Result (M × Bool)
  erase_item fuel m old_item =
      let root_id = s.get_root m in
      if root_id == 0 then ok (m, false) else do
        (breadcrumbs, found) ← search_item (s.read m) fuel root_id old_item
        if not found then ok (m, false) else do
          st ←
              erase_steps old_item breadcrumbs
                (record { store = m; needs_remove = true; neighbour_refresh_needed = false })
          m' ← shrink_root root_id st
          ok (m', true)

  pub erase : ℕ → M → ℕ → Bytes → Result (M × Bool)
  erase fuel m created_at id = do it ← make_item created_at id; erase_item fuel m it
