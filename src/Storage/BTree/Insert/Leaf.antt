-- ===== src/Storage/BTree/Insert/Leaf.antt =====
-- The insertion into a leaf.
use negentropy.Prelude.{
  ℕ, zero, ◌+◌, ◌<◌, ◌≡◌, refl, ap, sym, ◌∙◌, true, false, List, [], ◌∷◌, map, arith, All, u64_mod,
}
use mathlib.Core.Path.{subst}
use negentropy.Types.{Item, IsItem}
use negentropy.Storage.{IsAscending}
use negentropy.Storage.Vector.{insert_sorted}
use negentropy.Storage.Ordered.{has}
use negentropy.Storage.BTree.{Limits, IsLimits, Key, NodeStore}
use negentropy.Storage.BTree.Search.{Breadcrumb}
use negentropy.Storage.BTree.Shape.{item_of, LeafKeys, Sub}
use negentropy.Storage.BTree.Ids.{Distinct}
use negentropy.Storage.BTree.Laws.{StoreLaws}
use negentropy.Storage.BTree.Changes.{Sound, Change-none}
use negentropy.Storage.BTree.Insert.Merge.{map-merge_key, All-merge_key, merge_key_first}
use negentropy.Storage.BTree.Insert.Layers.{LeafBody, leaf_layer, leaf_loose}
use negentropy.Storage.BTree.Insert.Outcome.{Stepped}
use negentropy.Storage.BTree.Insert.Raise.{raise_merge}

module _ {M : Type 0} (s : NodeStore M) (l : Limits) (lim : IsLimits l) (law : StoreLaws l s)
    (v : Item) (crumb : Breadcrumb) (xs : List Item) (ids : List ℕ) (m : M)
    (sound : Sound s l law m) (before : Sub l (s.read m) zero crumb.node_id xs ids)
    (distinct : Distinct ids) (given : All (λ i. i < law.next m) ids) (hv : IsItem v)
    (hx : All IsItem xs) (ascending : IsAscending (insert_sorted v xs)) where
  -- The new item is put into a leaf, or divides it.
  pub put_in_leaf :
      law.next m + 1 < u64_mod
      → has v xs ≡ false
      → Stepped s l law v m
          (λ read. Sub l read zero)
          crumb
          xs
          ids
          1
          (record { store = m; new_key = record { item = v; node_id = 0 }; needs_merge = true })
  put_in_leaf room new =
      let key : Key = record { item = v; node_id = 0 } in
      let leaf : LeafKeys before.keys xs before.below = before.body in
      let (k, ks, merged) = merge_key_first key before.keys in
      let inner : Distinct before.below = (subst Distinct before.own distinct).1 in
      let body : LeafKeys (k ∷ ks) (insert_sorted v xs) before.below = record {
        own =
            ap (insert_sorted v) leaf.own
            ∙ sym (map-merge_key key before.keys (ap (has v) (sym leaf.own) ∙ new))
            ∙ ap (map item_of) merged;
        no_child =
            subst (All (λ (q : Key). q.node_id ≡ 0)) merged
              (All-merge_key (λ q. q.node_id ≡ 0) key before.keys refl leaf.no_child);
        none_below = leaf.none_below;
      } in
      raise_merge s l lim law LeafBody (leaf_layer s l law) v crumb xs ids m before distinct given
        hv hx ascending m 0 [] before.below (Change-none s l law m sound) (omega arith)
        (omega (arith, room)) tt (λ i a. tt) (record { carry = λ P a _. a }) inner k ks k.item
        (leaf_loose s l law k k.item refl) body key merged
