-- ===== src/Storage/BTree/Reading/Pick.antt =====
-- The loop of `findLowerBoundAux` over the keys of a node.
use negentropy.Prelude.{
  ℕ, suc, ◌+◌, ◌<◌, ◌≡◌, refl, ap, sym, ◌∙◌, true, false, not, List, [], ◌∷◌, ◌++◌, length, map,
  arith, ◌==◌, inl, inr, Bool-cases, All, append-nil,
}
use mathlib.Core.Path.{subst}
use negentropy.Prelude.Results.{ok}
use negentropy.Types.{Item, item_lt, item_le}
use negentropy.Types.Order.{item_le-not_lt, item_lt_trans}
use negentropy.Storage.{IsAscending, count_below}
use negentropy.Storage.Ordered.{HeadOver, IsAscending-split}
use negentropy.Storage.BTree.{Limits, Key, Node, NodePtr, node_ptr, deref}
use negentropy.Storage.BTree.Shape.{Below, First, item_of}
use negentropy.Storage.BTree.Reading.{pick_child}

abbrev pub HeadNotBelow : Item → List Item → Type 0
HeadNotBelow v [] = Unit
HeadNotBelow v (x ∷ xs) = item_lt x v ≡ false

count_below-under :
    (v : Item) (xs ys : List Item)
    → All (λ x. item_lt x v ≡ true) xs
    → count_below v (xs ++ ys) ≡ length xs + count_below v ys
unfolding count_below
count_below-under v [] ys a = omega arith
count_below-under v (x ∷ xs) ys a = rw a.0 (omega (arith, count_below-under v xs ys a.1))

count_below-back :
    (v : Item) (xs ys : List Item) → HeadNotBelow v ys → count_below v (xs ++ ys) ≡ count_below v xs
unfolding count_below
count_below-back v [] [] h = refl
count_below-back v [] (y ∷ ys) h = rw h refl
count_below-back v (x ∷ xs) ys h = ground (arith, count_below-back v xs ys h)

head_not_below :
    (v a : Item) (ys zs : List Item) → First a ys → item_lt a v ≡ false → HeadNotBelow v (ys ++ zs)
head_not_below v a [] zs f h = absurd f
head_not_below v a (y ∷ ys) zs f h = subst (λ (i : Item). item_lt i v ≡ false) f h

before_under :
    (v a : Item) (xs ys zs : List Item)
    → First a ys
    → item_lt a v ≡ true
    → All (λ x. HeadOver x (ys ++ zs)) xs
    → All (λ x. item_lt x v ≡ true) xs
before_under v a [] ys zs f h o = tt
before_under v a (x ∷ xs) [] zs f h o = absurd f
before_under v a (x ∷ xs) (y ∷ ys) zs f h o = (
  item_lt_trans x a v (subst (λ (i : Item). item_lt x i ≡ true) (sym f) o.0) h,
  before_under v a xs (y ∷ ys) zs f h o.1,
)

module _ (l : Limits) (read : ℕ → NodePtr) (v : Item) where
  pick_here :
      (prev k : Key) (ks : List Key) (n : ℕ)
      → item_lt k.item v ≡ false
      → pick_child read v prev (k ∷ ks) n ≡ ok (prev.node_id, n)
  unfolding pick_child
  pick_here prev k ks n h =
      let stop : item_le v k.item ≡ true = item_le-not_lt v k.item ∙ ap not h in rw stop refl

  pick_past_leaf :
      (prev k : Key) (ks : List Key) (n : ℕ)
      → item_lt k.item v ≡ true
      → prev.node_id ≡ 0
      → pick_child read v prev (k ∷ ks) n ≡ pick_child read v k ks (n + 1)
  unfolding pick_child
  pick_past_leaf prev k ks n h z =
      let on : item_le v k.item ≡ false = item_le-not_lt v k.item ∙ ap not h in rw on (rw z refl)

  pick_past_child :
      (prev k : Key) (ks : List Key) (n : ℕ) (node : Node)
      → item_lt k.item v ≡ true
      → 0 < prev.node_id
      → read prev.node_id ≡ node_ptr prev.node_id node
      → pick_child read v prev (k ∷ ks) n ≡ pick_child read v k ks (n + node.accum_count)
  unfolding pick_child deref
  pick_past_child prev k ks n node h z e =
      let on : item_le v k.item ≡ false = item_le-not_lt v k.item ∙ ap not h in
      let inner : (prev.node_id == 0) ≡ false = ground (arith, z) in rw on (rw inner (rw e refl))

  -- in a leaf, whose first key is below the bound
  pub pick_leaf :
      (prev : Key) (ks : List Key) (n : ℕ)
      → All (λ (k : Key). k.node_id ≡ 0) (prev ∷ ks)
      → item_lt prev.item v ≡ true
      → (left : ℕ) × (pick_child read v prev ks n ≡ ok (0, n + left))
        × (count_below v (map item_of (prev ∷ ks)) ≡ suc left)
  unfolding pick_child count_below
  pick_leaf prev [] n z h = (0, rw z.0 (ap (λ (i : ℕ). ok (0, i)) (omega arith)), rw h refl)
  pick_leaf prev (k ∷ ks) n z h = elim (Bool-cases (item_lt k.item v)) [
    | inl below ↦
        let (left, e, count) = pick_leaf k ks (n + 1) z.1 below in
        (
          suc left,
          pick_past_leaf prev k ks n below z.0 ∙ e ∙ ap (λ (i : ℕ). ok (0, i)) (omega arith),
          rw h (ap suc count),
        )
    | inr above ↦ (
      0,
      pick_here prev k ks n above ∙ rw z.0 (ap (λ (i : ℕ). ok (0, i)) (omega arith)),
      rw (h, above) refl,
    )
  ]

  -- the child that the search goes on in
  pub record Chosen (Held : ℕ → List Item → List ℕ → Type 0) (prev : Key) (ks : List Key)
      (xs : List Item) (n : ℕ) : Type 0 where
    pub id : ℕ
    pub ys : List Item
    pub is : List ℕ
    pub left : ℕ
    pub first_key : Item
    pub picked : pick_child read v prev ks n ≡ ok (id, n + left)
    pub held : Held id ys is
    pub sorted : IsAscending ys
    pub first : First first_key ys
    pub first_below : item_lt first_key v ≡ true
    pub count : count_below v xs ≡ left + count_below v ys

  module _ (Held : ℕ → List Item → List ℕ → Type 0)
      (counted : (id : ℕ) (ys : List Item) (is : List ℕ)
        → Held id ys is
        → (node : Node) × (read id ≡ node_ptr id node) × (node.accum_count ≡ length ys)) where
    -- above the leaves, in a node whose first key is below the bound
    pub pick_inner :
        (prev : Key) (ks : List Key) (xs : List Item) (below : List ℕ) (n : ℕ)
        → Below l read Held (prev ∷ ks) xs below
        → IsAscending xs
        → item_lt prev.item v ≡ true
        → Chosen Held prev ks xs n
    unfolding pick_child
    pick_inner prev [] xs below n b sorted h = record {
      id = prev.node_id;
      ys = b.ys;
      is = b.is;
      left = 0;
      first_key = prev.item;
      picked = ap (λ (i : ℕ). ok (prev.node_id, i)) (omega arith);
      held = b.held;
      sorted = (IsAscending-split b.ys b.zs (subst IsAscending b.items_split sorted)).front;
      first = b.first;
      first_below = h;
      count =
          ap (count_below v) (b.items_split ∙ ap (◌++◌ b.ys) b.others.0 ∙ append-nil b.ys)
          ∙ omega arith;
    }
    pick_inner prev (k ∷ ks) xs below n b sorted h =
        let parts = IsAscending-split b.ys b.zs (subst IsAscending b.items_split sorted) in
        elim (Bool-cases (item_lt k.item v)) [
          | inl under ↦
              let (node, at, size) = counted prev.node_id b.ys b.is b.held in
              let rest =
                pick_inner k ks b.zs b.js (n + node.accum_count) b.others parts.back under in
              record {
                id = rest.id;
                ys = rest.ys;
                is = rest.is;
                left = length b.ys + rest.left;
                first_key = rest.first_key;
                picked =
                    pick_past_child prev k ks n node under b.some_id at
                    ∙ rest.picked
                    ∙ ap (λ (i : ℕ). ok (rest.id, i)) (omega (arith, size));
                held = rest.held;
                sorted = rest.sorted;
                first = rest.first;
                first_below = rest.first_below;
                count =
                    ap (count_below v) b.items_split
                    ∙ count_below-under v b.ys b.zs (
                        before_under v k.item b.ys b.others.ys b.others.zs b.others.first under (
                          subst (λ (its : List Item). All (λ x. HeadOver x its) b.ys)
                            b.others.items_split parts.across))
                    ∙ omega (arith, rest.count);
              }
          | inr above ↦ record {
            id = prev.node_id;
            ys = b.ys;
            is = b.is;
            left = 0;
            first_key = prev.item;
            picked =
                pick_here prev k ks n above ∙ ap (λ (i : ℕ). ok (prev.node_id, i)) (omega arith);
            held = b.held;
            sorted = parts.front;
            first = b.first;
            first_below = h;
            count =
                ap (count_below v) b.items_split
                ∙ count_below-back v b.ys b.zs (
                    subst (HeadNotBelow v) (sym b.others.items_split)
                      (head_not_below v k.item b.others.ys b.others.zs b.others.first above))
                ∙ omega arith;
          }
        ]
