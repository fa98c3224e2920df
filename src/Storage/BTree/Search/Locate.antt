-- ===== src/Storage/BTree/Search/Locate.antt =====
-- Where an item belongs among the items under a node.
use negentropy.Prelude.{
  ◌≡◌, refl, ap, sym, ◌∙◌, Bool, true, false, ◌||◌, List, [], ◌∷◌, ◌++◌, length, map, All, ◌⊎◌, inl,
  inr, arith, ℕ,
}
use mathlib.Core.Path.{subst}
use mathlib.Core.List.{map-append}
use negentropy.Types.{Item, item_lt}
use negentropy.Types.Order.{item_lt-le_trans}
use negentropy.Storage.{IsAscending}
use negentropy.Storage.Vector.{insert_sorted}
use negentropy.Storage.Ordered.{
  has, Under, Over, HeadOver, HeadOver-All, IsAscending-split, has-append, has-Over, has-Under,
  insert_sorted-front, insert_sorted-back,
}
use negentropy.Storage.BTree.{Limits, Key, NodePtr}
use negentropy.Storage.BTree.Shape.{item_of, First, First-append, LeafKeys, Below, Halves}
use negentropy.Storage.BTree.Search.Pick.{Picked}

-- the items before, at and behind the place
pub record Located (v : Item) (xs before here after : List Item) : Type 0 where
  pub parts : xs ≡ before ++ (here ++ after)
  pub under : All (Under v) before
  pub over : HeadOver v after

Under-All :
    (v k : Item) (before zs : List Item)
    → First k zs
    → item_lt v k ≡ false
    → All (λ x. HeadOver x zs) before
    → All (Under v) before
Under-All v k [] zs f h a = tt
Under-All v k (x ∷ before) [] f h a = absurd f
Under-All v k (x ∷ before) (z ∷ zs) f h a = (
  item_lt-le_trans x k v (subst (λ (i : Item). item_lt x i ≡ true) (sym f) a.0) h,
  Under-All v k before (z ∷ zs) f h a.1,
)

locate :
    (v k : Item) (xs before here after : List Item)
    → IsAscending xs
    → xs ≡ before ++ (here ++ after)
    → First k here
    → (before ≡ []) ⊎ (item_lt v k ≡ false)
    → HeadOver v after
    → Located v xs before here after
locate v k xs before here after h e f (inl none) o = record {
  parts = e;
  under = subst (All (Under v)) (sym none) tt;
  over = o;
}
locate v k xs before here after h e f (inr not_above) o = record {
  parts = e;
  under =
      Under-All v k before (here ++ after) (First-append k here after f) not_above
        (IsAscending-split before (here ++ after) (subst IsAscending e h)).across;
  over = o;
}

module _ (v : Item) (xs before here after : List Item) (h : IsAscending xs)
    (at : Located v xs before here after) where
  after-Over : All (Over v) after
  after-Over =
      let rest = (IsAscending-split before (here ++ after) (subst IsAscending at.parts h)).back in
      HeadOver-All v after (IsAscending-split here after rest).back at.over

  pub here_IsAscending : IsAscending here
  here_IsAscending =
      (IsAscending-split here after
        (IsAscending-split before (here ++ after) (subst IsAscending at.parts h)).back).front

  pub has_located : has v xs ≡ has v here
  has_located =
      ap (has v) at.parts
      ∙ has-append v before (here ++ after)
      ∙ ap (λ (b : Bool). b || has v (here ++ after)) (has-Under v before at.under)
      ∙ has-append v here after
      ∙ ap (λ (b : Bool). has v here || b) (has-Over v after after-Over)
      ∙ ground arith

  pub insert_located : insert_sorted v xs ≡ before ++ (insert_sorted v here ++ after)
  insert_located =
      ap (insert_sorted v) at.parts
      ∙ insert_sorted-front v before (here ++ after) at.under
      ∙ ap (◌++◌ before) (insert_sorted-back v here after at.over)

module _ (v : Item) (xs : List Item) (h : IsAscending xs) where
  -- in a leaf
  pub locate_leaf :
      (keys : List Key) (below : List ℕ) (b i : ℕ)
      → LeafKeys keys xs below
      → (p : Picked v keys b i)
      → Located v xs (map item_of p.front) (p.key.item ∷ []) (map item_of p.back)
  locate_leaf keys below b i leaf p =
      locate v p.key.item xs (map item_of p.front) (p.key.item ∷ []) (map item_of p.back) h
        (leaf.own ∙ ap (map item_of) p.parts ∙ map-append item_of p.front (p.key ∷ p.back)) refl
        (lower p.lower) p.upper
    where
      lower :
          (p.front ≡ []) ⊎ (item_lt v p.key.item ≡ false)
          → (map item_of p.front ≡ []) ⊎ (item_lt v p.key.item ≡ false)
      lower (inl none) = inl (ap (map item_of) none)
      lower (inr c) = inr c

  module _ (l : Limits) (read : ℕ → NodePtr) (Held : ℕ → List Item → List ℕ → Type 0) where
    upper_after :
        (back : List Key) (zs : List Item) (js : List ℕ)
        → HeadOver v (map item_of back)
        → Below l read Held back zs js
        → HeadOver v zs
    upper_after [] zs js o none = subst (HeadOver v) (sym none.0) tt
    upper_after (k ∷ ks) zs js o c =
        subst (HeadOver v) (sym c.items_split) (first_over k.item c.ys c.zs c.first o)
      where
        first_over :
            (a : Item) (ys rest : List Item) → First a ys → Over v a → HeadOver v (ys ++ rest)
        first_over a [] rest f o' = absurd f
        first_over a (y ∷ ys) rest f o' = subst (Over v) f o'

    none_before :
        (front : List Key) (ys : List Item) (is : List ℕ)
        → Below l read Held front ys is
        → front ≡ []
        → ys ≡ []
    none_before [] ys is none e = none.0
    none_before (k ∷ ks) ys is c e = absurd (omega (arith, ap length e))

    -- in a node above the leaves
    pub locate_child :
        (front : List Key) (key : Key) (back : List Key) (below : List ℕ)
        → (front ≡ []) ⊎ (item_lt v key.item ≡ false)
        → HeadOver v (map item_of back)
        → (c : Halves l read Held front (key ∷ back) xs below)
        → Located v xs c.ys c.back.ys c.back.zs
    locate_child front key back below lo up c =
        locate v key.item xs c.ys c.back.ys c.back.zs h
          (c.items_split ∙ ap (◌++◌ c.ys) c.back.items_split) c.back.first (lower lo)
          (upper_after back c.back.zs c.back.js up c.back.others)
      where
        lower :
            (front ≡ []) ⊎ (item_lt v key.item ≡ false) → (c.ys ≡ []) ⊎ (item_lt v key.item ≡ false)
        lower (inl none) = inl (none_before front c.ys c.is c.front none)
        lower (inr k) = inr k
