-- ===== src/Storage/BTree/Reading/Bounds.antt =====
-- `findLowerBound` on a tree as insertion keeps it.
use negentropy.Prelude.{
  ℕ, zero, suc, ◌+◌, ◌≤◌, ◌<◌, ◌≡◌, refl, ap, sym, ◌∙◌, true, false, not, List, [], ◌∷◌, take,
  length, arith, min, inl, inr, Bool-cases,
}
use mathlib.Core.Path.{subst}
use negentropy.Prelude.Results.{ok}
use negentropy.Types.{Item, Bound, item_lt, item_le}
use negentropy.Types.Order.{item_le-not_lt}
use negentropy.Storage.{IsAscending, count_below}
use negentropy.Storage.BTree.{Limits, Key, Node, NodePtr, node_ptr, null_ptr, key_at, NodeStore}
use negentropy.Storage.BTree.Shape.{Sub, LeafKeys, Below, First, First-append, Sub-First}
use negentropy.Storage.BTree.Insert.Steps.{take-Slots}
use negentropy.Storage.BTree.Insert.Layers.{Sub-Counts, First-unique}
use negentropy.Storage.BTree.Reading.{
  pick_child, pick_in, find_lower_bound_aux, find_lower_bound, check_bounds, size,
}
use negentropy.Storage.BTree.Changes.{node_ptr_inj}
use negentropy.Storage.BTree.Reading.Whole.{empty_size}
use negentropy.Storage.BTree.Reading.Items.{size_at}
use negentropy.Storage.BTree.Laws.{StoreLaws}
use negentropy.Storage.BTree.Tree.{IsTree, Shape}
use negentropy.Storage.BTree.Reading.Pick.{pick_leaf, pick_inner}

module _ (l : Limits) (read : ℕ → NodePtr) (zero_null : read 0 ≡ null_ptr) (v : Item) where
  find_at :
      (fuel id : ℕ) (node : Node) (prev : Key) (ks : List Key) (n next left : ℕ)
      → read id ≡ node_ptr id node
      → take node.num_items node.items ≡ prev ∷ ks
      → pick_child read v prev ks n ≡ ok (next, left)
      → find_lower_bound_aux read (suc fuel) v (read id) n
        ≡ find_lower_bound_aux read fuel v (read next) left
  unfolding find_lower_bound_aux pick_in
  find_at fuel id node prev ks n next left at keys picked = rw (at, keys, picked) refl

  find_null : (fuel n : ℕ) → find_lower_bound_aux read (suc fuel) v (read 0) n ≡ ok (n + 1)
  unfolding find_lower_bound_aux
  find_null fuel n = rw zero_null refl

  counted :
      (depth id : ℕ) (ys : List Item) (is : List ℕ)
      → Sub l read depth id ys is
      → (node : Node) × (read id ≡ node_ptr id node) × (node.accum_count ≡ length ys)
  counted depth id ys is t =
      let (node, at, counts) = Sub-Counts l read depth id ys is t in (node, at, counts.count)

  -- From a node whose first item is below the bound, the search counts the items below the bound.
  pub find_in_tree :
      (depth fuel id : ℕ) (xs : List Item) (ids : List ℕ) (first : Item) (n : ℕ)
      → Sub l read depth id xs ids
      → IsAscending xs
      → First first xs
      → item_lt first v ≡ true
      → depth + 2 ≤ fuel
      → find_lower_bound_aux read fuel v (read id) n ≡ ok (n + count_below v xs)
  find_in_tree depth zero id xs ids first n t sorted f h e = absurd (omega (arith, e))
  find_in_tree depth (suc zero) id xs ids first n t sorted f h e = absurd (omega (arith, e))
  find_in_tree zero (suc (suc fuel)) id xs ids first n t sorted f h e =
      leaf t.keys t.some_key (take-Slots t.slots) t.body
    where
      leaf :
          (keys : List Key)
          → 0 < length keys
          → take t.node.num_items t.node.items ≡ keys
          → LeafKeys keys xs t.below
          → find_lower_bound_aux read (suc (suc fuel)) v (read id) n ≡ ok (n + count_below v xs)
      leaf [] some_key used body = absurd (omega (arith, some_key))
      leaf (k ∷ ks) some_key used body =
          let first_below : item_lt k.item v ≡ true =
            subst (λ (i : Item). item_lt i v ≡ true) (subst (First first) body.own f) h in
          let (left, picked, count) = pick_leaf l read v k ks n body.no_child first_below in
          find_at (suc fuel) id t.node k ks n 0 (n + left) t.found used picked
          ∙ find_null fuel (n + left)
          ∙ ap ok (omega (arith, count, ap (count_below v) body.own))
  find_in_tree (suc depth) (suc (suc fuel)) id xs ids first n t sorted f h e =
      inner t.keys t.some_key (take-Slots t.slots) t.body (λ id' ys is a m t' sorted' f' h'.
        find_in_tree depth (suc fuel) id' ys is a m t' sorted' f' h' (omega (arith, e)))
    where
      inner :
          (keys : List Key)
          → 0 < length keys
          → take t.node.num_items t.node.items ≡ keys
          → Below l read (Sub l read depth) keys xs t.below
          → ((id' : ℕ) (ys : List Item) (is : List ℕ) (a : Item) (m : ℕ)
              → Sub l read depth id' ys is
              → IsAscending ys
              → First a ys
              → item_lt a v ≡ true
              → find_lower_bound_aux read (suc fuel) v (read id') m ≡ ok (m + count_below v ys))
          → find_lower_bound_aux read (suc (suc fuel)) v (read id) n ≡ ok (n + count_below v xs)
      inner [] some_key used body below = absurd (omega (arith, some_key))
      inner (k ∷ ks) some_key used body below =
          let same : first ≡ k.item = First-unique first k.item xs f (
            subst (First k.item) (sym body.items_split)
              (First-append k.item body.ys body.zs body.first)) in
          let first_below : item_lt k.item v ≡ true =
            subst (λ (i : Item). item_lt i v ≡ true) same h in
          let c =
            pick_inner l read v (Sub l read depth) (counted depth) k ks xs t.below n body sorted
              first_below in
          find_at (suc fuel) id t.node k ks n c.id (n + c.left) t.found used c.picked
          ∙ below c.id c.ys c.is c.first_key (n + c.left) c.held c.sorted c.first c.first_below
          ∙ ap ok (omega (arith, c.count))

count_below-First :
    (v a : Item) (xs : List Item) → First a xs → item_lt a v ≡ false → count_below v xs ≡ 0
unfolding count_below
count_below-First v a [] f h = absurd f
count_below-First v a (x ∷ xs) f h =
    let first : item_lt x v ≡ false = subst (λ (i : Item). item_lt i v ≡ false) f h in rw first refl

inside_bounds :
    (read : ℕ → NodePtr) (root_id fuel begin end n : ℕ)
    → size read root_id fuel ≡ ok n
    → begin ≤ end
    → end ≤ n
    → check_bounds read root_id fuel begin end ≡ ok tt
unfolding check_bounds
inside_bounds read root_id fuel begin end n e h k = rw e (ground arith)

module _ (read : ℕ → NodePtr) (root_id fuel begin end : ℕ) (b : Bound)
    (inside : check_bounds read root_id fuel begin end ≡ ok tt) where
  at_begin :
      (node : Node) (k : Key)
      → read root_id ≡ node_ptr root_id node
      → key_at node 0 ≡ ok k
      → item_lt k.item b.item ≡ false
      → find_lower_bound read root_id fuel begin end b ≡ ok begin
  unfolding find_lower_bound
  at_begin node k at first h =
      let stop : item_le b.item k.item ≡ true = item_le-not_lt b.item k.item ∙ ap not h in
      rw (inside, at) (rw first (rw stop refl))

  behind_first :
      (node : Node) (k : Key) (i : ℕ)
      → read root_id ≡ node_ptr root_id node
      → key_at node 0 ≡ ok k
      → item_lt k.item b.item ≡ true
      → find_lower_bound_aux read fuel b.item (read root_id) 0 ≡ ok i
      → find_lower_bound read root_id fuel begin end b ≡ ok (min i end)
  unfolding find_lower_bound
  behind_first node k i at first h e =
      let on : item_le b.item k.item ≡ false = item_le-not_lt b.item k.item ∙ ap not h in
      rw (inside, at) (rw first (rw on (rw e refl)))

  at_none : read root_id ≡ null_ptr → find_lower_bound read root_id fuel begin end b ≡ ok end
  unfolding find_lower_bound
  at_none none_there = rw (inside, none_there) refl

module _ {M : Type 0} (s : NodeStore M) (l : Limits) (law : StoreLaws l s) (m : M) (fuel : ℕ) where
  first_key :
      (id : ℕ) (xs : List Item) (node node' : Node) (k : Key) (ks : List Key)
      → s.read m id ≡ node_ptr id node
      → s.read m id ≡ node_ptr id node'
      → node.items ≡ k ∷ ks
      → key_at node' 0 ≡ ok k
  unfolding key_at
  first_key id xs node node' k ks at at' items =
      let same : node'.items ≡ k ∷ ks =
        ap (λ (n : Node). n.items) (node_ptr_inj id node' node (sym at' ∙ at)) ∙ items in
      rw same refl

  -- Over a store of nodes that keeps its contract, `findLowerBound` on a tree as insertion keeps it, with
  -- fuel above its levels, gives the number of items below the bound, but at most `end`, for a range
  -- inside the tree before which all items are below the bound.
  pub tree_find_lower_bound :
      (xs : List Item) (levels begin end : ℕ) (b : Bound)
      → IsTree s l law m xs levels
      → levels + 1 ≤ fuel
      → begin ≤ end
      → end ≤ length xs
      → begin ≤ count_below b.item xs
      → find_lower_bound (s.read m) (s.get_root m) fuel begin end b
        ≡ ok (min (count_below b.item xs) end)
  tree_find_lower_bound xs levels begin end b tree enough h k above =
      by_shape xs tree.shape tree.sorted enough k above
    where
      none_below :
          (its : List Item) → its ≡ [] → end ≤ length its → end ≡ min (count_below b.item its) end
      none_below its e q = omega (arith, q, ap length e)

      by_shape :
          {n : ℕ} (its : List Item)
          → Shape s l law m its n
          → IsAscending its
          → n + 1 ≤ fuel
          → end ≤ length its
          → begin ≤ count_below b.item its
          → find_lower_bound (s.read m) (s.get_root m) fuel begin end b
            ≡ ok (min (count_below b.item its) end)
      by_shape its (Shape.no_root at_zero no_items) sorted e q a =
          let nothing : s.read m (s.get_root m) ≡ null_ptr =
            ap (s.read m) at_zero ∙ law.read_zero m in
          let empty : size (s.read m) (s.get_root m) fuel ≡ ok 0 =
            ap (λ (id : ℕ). size (s.read m) id fuel) at_zero ∙ empty_size s l law m fuel in
          at_none (s.read m) (s.get_root m) fuel begin end b
            (inside_bounds (s.read m) (s.get_root m) fuel begin end 0 empty h
              (omega (arith, q, ap length no_items)))
            nothing
          ∙ ap ok (none_below its no_items q)
      by_shape its (Shape.rooted depth ids t _ _) sorted e q a =
          let (node, at, counts) = Sub-Counts l (s.read m) depth (s.get_root m) its ids t in
          let (node', key, keys, at', items, first) =
            Sub-First l (s.read m) depth (s.get_root m) its ids t in
          let inside =
            inside_bounds (s.read m) (s.get_root m) fuel begin end node.accum_count
              (size_at (s.read m) (s.get_root m) fuel node at) h (omega (arith, q, counts.count)) in
          let at_key = first_key (s.get_root m) its node' node key keys at' at items in
          elim (Bool-cases (item_lt key.item b.item)) [
            | inl below ↦
                behind_first (s.read m) (s.get_root m) fuel begin end b inside node key
                  (0 + count_below b.item its) at at_key below
                  (find_in_tree l (s.read m) (law.read_zero m) b.item depth fuel (s.get_root m) its
                    ids key.item 0 t sorted first below (omega (arith, e)))
                ∙ ap ok (omega arith)
            | inr not_below ↦
                let zero_below = count_below-First b.item key.item its first not_below in
                at_begin (s.read m) (s.get_root m) fuel begin end b inside node key at at_key
                  not_below
                ∙ ap ok (omega (arith, a, zero_below))
          ]
