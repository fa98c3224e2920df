-- ===== src/Storage/BTree/Search.antt =====
-- cpp/negentropy/storage/btree/core.h, `searchItem`: the way down from the root to an item.
use negentropy.Prelude.{
  ℕ, zero, suc, ◌+◌, ◌-◌, Bool, true, false, ◌||◌, List, [], ◌∷◌, take, drop, sub_u64, ltb, ◌==◌,
  if◌then◌else◌,
}
use negentropy.Prelude.Results.{Result, ok, err, Error, ◌>>=◌}
use negentropy.Types.{Item, item_lt, item_eq}
use negentropy.Storage.BTree.{Key, Node, NodePtr, deref, key_at}
pub mod Pick
pub mod Locate
pub mod Way

pub record Breadcrumb : Type 0 where
  pub index : ℕ
  pub node_id : ℕ

-- the loop over `i`, from the key after index `before` on; `index` is what was set before the loop
unfoldable pub pick_index : Item → ℕ → List Key → ℕ → ℕ
pick_index new_item before [] index = index
pick_index new_item before (k ∷ ks) index =
    let rest = pick_index new_item (suc before) ks index in
    if item_lt new_item k.item then before else rest

-- the keys from 1 to `num_items`, the one behind the last included
unfoldable pub index_for : Item → Node → ℕ
index_for new_item node =
    let last = sub_u64 node.num_items 1 in
    if ltb 1 node.num_items
    then pick_index new_item 0 (take node.num_items (drop 1 node.items)) last
    else last

-- The breadcrumbs have the last one in front, where the callers take them from.
module _ (read : ℕ → NodePtr) where
  unfoldable pub search_from :
      ℕ → Item → NodePtr → Bool → List Breadcrumb → Result (List Breadcrumb × Bool)
  search_from zero new_item found_node found breadcrumbs = err Error.out_of_fuel
  search_from (suc fuel) new_item found_node found breadcrumbs =
      if found_node.node_id == 0 then ok (breadcrumbs, found) else do
        node ← deref found_node
        let index = index_for new_item node
        k ← key_at node index
        let crumb : Breadcrumb = record { index = index; node_id = found_node.node_id }
        search_from fuel new_item (read k.node_id) (found || item_eq new_item k.item)
            (crumb ∷ breadcrumbs)

  unfoldable pub search_item : ℕ → ℕ → Item → Result (List Breadcrumb × Bool)
  search_item fuel root_node_id new_item = search_from fuel new_item (read root_node_id) false []
