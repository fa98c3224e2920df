-- ===== src/Storage/BTree/Search/Way.antt =====
-- The search in a tree: the way it takes, and that it finds exactly the items of the tree.
use negentropy.Prelude.{
  ℕ, zero, suc, ◌+◌, ◌≤◌, ◌<◌, ◌≡◌, refl, ap, sym, ◌∙◌, Bool, true, false, ◌||◌, List, [], ◌∷◌,
  ◌++◌, append_assoc, append-nil, length, arith, u64_mod, ◌==◌, if◌then◌else◌, get_elem?, some,
  none, All, map,
}
use mathlib.Core.Path.{subst}
use negentropy.Prelude.Results.{ok}
use negentropy.Types.{Item, item_eq}
use negentropy.Storage.{IsAscending}
use negentropy.Storage.Ordered.{has}
use negentropy.Storage.BTree.{Limits, Key, Node, NodePtr, node_ptr, null_ptr, deref, key_at}
use negentropy.Storage.BTree.Search.{Breadcrumb, index_for, search_from, search_item}
use negentropy.Storage.BTree.Search.Pick.{Picked, index_for_lem}
use negentropy.Storage.BTree.Search.Locate.{
  locate_leaf, locate_child, has_located, here_IsAscending,
}
use negentropy.Storage.BTree.Shape.{
  Slots, Sub, LeafKeys, Below, Halves, Below-split, First, All-split,
}

get_elem-behind :
    (front : List Key) (k : Key) (back rest : List Key) (i : ℕ)
    → 0 + length front ≡ i
    → get_elem? ((front ++ (k ∷ back)) ++ rest) i ≡ some k
get_elem-behind [] k back rest zero e = refl
get_elem-behind [] k back rest (suc i) e = absurd (omega (arith, e))
get_elem-behind (q ∷ front) k back rest zero e = absurd (omega (arith, e))
get_elem-behind (q ∷ front) k back rest (suc i) e =
    get_elem-behind front k back rest i (omega (arith, e))

has_node : NodePtr → ℕ
has_node ptr = elim ptr.p [ none ↦ 0 | some node ↦ 1 ]

module _ (l : Limits) (short : l.max_items < u64_mod) (read : ℕ → NodePtr)
    (zero_null : read 0 ≡ null_ptr) (v : Item) where
  pub picked :
      (node : Node) (keys : List Key)
      → Slots l node keys
      → 0 < length keys
      → Picked v keys 0 (index_for v node)
  picked node keys slots some_key =
      index_for_lem l v node keys slots some_key (omega (arith, slots.within, short))

  -- the child that the search goes on with, and the children around it
  pub child_at :
      (depth : ℕ) (keys : List Key) (xs : List Item) (below : List ℕ) (b i : ℕ)
      → Below l read (Sub l read depth) keys xs below
      → (p : Picked v keys b i) → Halves l read (Sub l read depth) p.front (p.key ∷ p.back) xs below
  child_at depth keys xs below b i body p =
      Below-split l read (Sub l read depth) p.front (p.key ∷ p.back) xs below
        (subst (λ (ks : List Key). Below l read (Sub l read depth) ks xs below) p.parts body)

  abbrev pub crumb_at : ℕ → Node → Breadcrumb
  crumb_at id node = record { index = index_for v node; node_id = id }

  -- the breadcrumbs, the last one in front
  unfoldable pub way :
      (depth id : ℕ) (xs : List Item) (ids : List ℕ) → Sub l read depth id xs ids → List Breadcrumb
  way zero id xs ids t = crumb_at id t.node ∷ []
  way (suc depth) id xs ids t =
      let p = picked t.node t.keys t.slots t.some_key in
      let h = child_at depth t.keys xs t.below 0 (index_for v t.node) t.body p in
      way depth p.key.node_id h.back.ys h.back.is h.back.held ++ (crumb_at id t.node ∷ [])

  pub not_zero : (id : ℕ) (node : Node) → read id ≡ node_ptr id node → 0 < id
  unfolding has_node
  not_zero zero node e = absurd (omega (arith, ap has_node (sym zero_null ∙ e)))
  not_zero (suc id) node e = omega arith

  search_step :
      (id : ℕ) (node : Node) (keys : List Key) (fuel : ℕ) (found : Bool) (crumbs : List Breadcrumb)
      → read id ≡ node_ptr id node
      → Slots l node keys
      → (p : Picked v keys 0 (index_for v node))
      → search_from read (suc fuel) v (read id) found crumbs
        ≡ search_from read fuel v
            (read p.key.node_id)
            (found || item_eq v p.key.item)
            (crumb_at id node ∷ crumbs)
  unfolding search_from deref key_at
  search_step id node keys fuel found crumbs at slots p =
      let at_key : get_elem? node.items (index_for v node) ≡ some p.key =
        ap (λ (ks : List Key). get_elem? ks (index_for v node))
          (slots.used ∙ ap (λ (ks : List Key). ks ++ slots.rest) p.parts)
        ∙ get_elem-behind p.front p.key p.back slots.rest (index_for v node) p.place in
      let some_id : (id == 0) ≡ false = ground (arith, not_zero id node at) in
      rw (at, some_id) (simp at_key)

  search_leaf :
      (id : ℕ) (xs : List Item) (ids : List ℕ) (fuel : ℕ) (found : Bool) (crumbs : List Breadcrumb)
      → (t : Sub l read zero id xs ids) → IsAscending xs
      → search_from read (suc (suc fuel)) v (read id) found crumbs
        ≡ ok (way zero id xs ids t ++ crumbs, found || has v xs)
  unfolding search_from way has
  search_leaf id xs ids fuel found crumbs t h =
      let p = picked t.node t.keys t.slots t.some_key in
      let leaf : LeafKeys t.keys xs t.below = t.body in
      let none_below : p.key.node_id ≡ 0 =
        (All-split (λ (k : Key). k.node_id ≡ 0) p.front (p.key ∷ p.back)
          (subst (All (λ (k : Key). k.node_id ≡ 0)) p.parts leaf.no_child)).1.0 in
      let in_leaf : has v xs ≡ item_eq v p.key.item =
        has_located v xs (map (λ (k : Key). k.item) p.front) (p.key.item ∷ [])
          (map (λ (k : Key). k.item) p.back) h (locate_leaf v xs h t.keys t.below 0 _ leaf p)
        ∙ ground arith in
      search_step id t.node t.keys (suc fuel) found crumbs t.found t.slots p
      ∙ rw (none_below, zero_null, in_leaf) refl

  First-has : (k : Item) (ys : List Item) → First k ys → item_eq v k ≡ true → has v ys ≡ true
  unfolding has
  First-has k [] f e = absurd f
  First-has k (y ∷ ys) f e =
      subst (λ (i : Item). (if item_eq v i then true else has v ys) ≡ true) f (rw e refl)

  -- The search takes its way, and says whether the item is one of the tree's.
  pub search_way :
      (depth id : ℕ) (xs : List Item) (ids : List ℕ) (t : Sub l read depth id xs ids)
      → IsAscending xs
      → (fuel : ℕ) (found : Bool) (crumbs : List Breadcrumb) → depth + 2 ≤ fuel
      → search_from read fuel v (read id) found crumbs
        ≡ ok (way depth id xs ids t ++ crumbs, found || has v xs)
  unfolding way
  search_way depth id xs ids t h zero found crumbs e = absurd (omega (arith, e))
  search_way depth id xs ids t h (suc zero) found crumbs e = absurd (omega (arith, e))
  search_way zero id xs ids t h (suc (suc fuel)) found crumbs e =
      search_leaf id xs ids fuel found crumbs t h
  search_way (suc depth) id xs ids t h (suc (suc fuel)) found crumbs e =
      let p = picked t.node t.keys t.slots t.some_key in
      let c = child_at depth t.keys xs t.below 0 (index_for v t.node) t.body p in
      let at =
        locate_child v xs h l read (Sub l read depth) p.front p.key p.back t.below p.lower p.upper
          c in
      let under : has v xs ≡ has v c.back.ys = has_located v xs c.ys c.back.ys c.back.zs h at in
      let asc : IsAscending c.back.ys = here_IsAscending v xs c.ys c.back.ys c.back.zs h at in
      let flag : ((found || item_eq v p.key.item) || has v c.back.ys) ≡ (found || has v xs) =
        ground (arith, under, First-has p.key.item c.back.ys c.back.first) in
      search_step id t.node t.keys (suc fuel) found crumbs t.found t.slots p
      ∙ search_way depth p.key.node_id c.back.ys c.back.is c.back.held asc (suc fuel)
          (found || item_eq v p.key.item) (crumb_at id t.node ∷ crumbs) (omega (arith, e))
      ∙ ap
          (λ (b : Bool). ok (
            way depth p.key.node_id c.back.ys c.back.is c.back.held
                ++ (crumb_at id t.node ∷ crumbs),
            b,
          ))
          flag
      ∙ ap (λ (cs : List Breadcrumb). ok (cs, found || has v xs))
          (sym (
            append_assoc (way depth p.key.node_id c.back.ys c.back.is c.back.held)
              (crumb_at id t.node ∷ []) crumbs))

  -- In a tree of ascending items, with fuel above its levels, `searchItem` returns: it finds exactly the
  -- items of the tree, and its breadcrumbs are the way that the keys lead, the last one in front.
  pub search_item_lem :
      (depth id : ℕ) (xs : List Item) (ids : List ℕ) (t : Sub l read depth id xs ids)
      → IsAscending xs
      → (fuel : ℕ) → depth + 2 ≤ fuel
      → search_item read fuel id v ≡ ok (way depth id xs ids t, has v xs)
  unfolding search_item
  search_item_lem depth id xs ids t h fuel e =
      search_way depth id xs ids t h fuel false [] e
      ∙ ap (λ (cs : List Breadcrumb). ok (cs, has v xs)) (append-nil (way depth id xs ids t))
