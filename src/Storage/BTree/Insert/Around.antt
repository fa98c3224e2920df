-- ===== src/Storage/BTree/Insert/Around.antt =====
-- The children around the one that an insertion goes into.
use negentropy.Prelude.{
  ℕ, ◌<◌, ◌≡◌, ◌≢◌, refl, ap, sym, ◌∙◌, false, List, [], ◌∷◌, ◌++◌, length, arith, All, All-append,
  map, ◌⊎◌, inl, inr,
}
use mathlib.Core.Path.{subst}
use negentropy.Types.{Item, item_lt}
use negentropy.Storage.Vector.{insert_sorted}
use negentropy.Storage.Ordered.{has, HeadOver, Over, insert_sorted-stays}
use negentropy.Storage.BTree.{Limits, Key, NodePtr, NodeStore}
use negentropy.Storage.BTree.Shape.{
  item_of, First, Agrees, Below, Below-Agrees, Halves, Sub, Sub-Agrees, All-split,
}
use negentropy.Storage.BTree.Ids.{
  Apart, Distinct, All-map, All-both, across_back, Distinct-split, middle_Apart, Distinct-replace,
}
use negentropy.Storage.BTree.Laws.{StoreLaws}
use negentropy.Storage.BTree.Changes.{Change}
use negentropy.Storage.BTree.Insert.Outcome.{Owned}

pub First-All : (P : Item → Type 0) (u : Item) (zs : List Item) → First u zs → All P zs → P u
First-All P u [] f a = absurd f
First-All P u (z ∷ zs) f a = subst P (sym f) a.0

-- the keys of children are among the items below them
pub Below-keys :
    (l : Limits) (read : ℕ → NodePtr) (Held : ℕ → List Item → List ℕ → Type 0) (P : Item → Type 0)
    (keys : List Key) (xs : List Item) (below : List ℕ)
    → Below l read Held keys xs below
    → All P xs
    → All (λ (k : Key). P k.item) keys
Below-keys l read Held P [] xs below b a = tt
Below-keys l read Held P (k ∷ ks) xs below b a =
    let both = All-split P b.ys b.zs (subst (All P) b.items_split a) in
    (First-All P k.item b.ys b.first both.0, Below-keys l read Held P ks b.zs b.js b.others both.1)

pub HeadOver-keys :
    (u : Item) (keys : List Key)
    → All (λ (k : Key). Over u k.item) keys
    → HeadOver u (map item_of keys)
HeadOver-keys u [] a = tt
HeadOver-keys u (k ∷ ks) a = a.0

-- The first item below a key that is not above the new item stays the first.
pub First-stays :
    (v k f : Item) (ys : List Item)
    → First k ys
    → item_lt v k ≡ false
    → has v ys ≡ false
    → First f (insert_sorted v ys)
    → f ≡ k
First-stays v k f [] first h n g = absurd first
First-stays v k f (y ∷ ys) first h n g =
    let not_above : item_lt v y ≡ false = subst (λ (i : Item). item_lt v i ≡ false) first h in
    subst (First f) (insert_sorted-stays v y ys not_above n) g ∙ sym first

-- A key with another item, as the first key of its node or with the item that it had.
pub refreshed :
    (front back : List Key) (key : Key) (i : Item)
    → (front ≡ []) ⊎ (i ≡ key.item)
    → (k : Key) × (ks : List Key) × (f : Item) × (front ++ (key ∷ back) ≡ k ∷ ks)
      × (front ++ (record key { item = i } ∷ back) ≡ record k { item = f } ∷ ks)
refreshed [] back key i c = (key, back, i, refl, refl)
refreshed (q ∷ front) back key i (inl none) =
    absurd (omega (arith, ap (λ (ks : List Key). length ks) none))
refreshed (q ∷ front) back key i (inr same) = (
  q,
  front ++ (key ∷ back),
  q.item,
  refl,
  ap (λ (it : Item). q ∷ (front ++ (record key { item = it } ∷ back))) same,
)

module _ {M : Type 0} (s : NodeStore M) (l : Limits) (law : StoreLaws l s) (v : Item) (m : M)
    (depth : ℕ) (front : List Key) (key : Key) (back : List Key) (xs : List Item) (below : List ℕ)
    (c : Halves l (s.read m) (Sub l (s.read m) depth) front (key ∷ back) xs below)
    (distinct : Distinct below) (given : All (λ i. i < law.next m) below) where
  whole : below ≡ c.is ++ (c.back.is ++ c.back.js)
  whole = c.ids_split ∙ ap (◌++◌ c.is) c.back.ids_split

  pub parts_All : (P : ℕ → Type 0) → All P below → All P c.is × All P c.back.is × All P c.back.js
  parts_All P a =
      let outer = All-split P c.is (c.back.is ++ c.back.js) (subst (All P) whole a) in
      let inner = All-split P c.back.is c.back.js outer.1 in (outer.0, inner.0, inner.1)

  pub child_Distinct : Distinct c.back.is
  child_Distinct =
      (Distinct-split c.back.is c.back.js
        (Distinct-split c.is (c.back.is ++ c.back.js) (subst Distinct whole distinct)).back).front

  module _ (m1 : M) (change : Change s l law m m1 c.back.is) (new : List ℕ)
      (owned : Owned s l law v m c.back.is new m1) (new_distinct : Distinct new) where
    pub around_Owned : Owned s l law v m below (c.is ++ (new ++ c.back.js)) m1
    around_Owned = record {
      carry = λ P a fresh.
          let (pi, pm, pj) = parts_All P a in
          All-append P c.is (new ++ c.back.js) pi
            (All-append P new c.back.js (owned.carry P pm fresh) pj);
    }

    pub around_Distinct : Distinct (c.is ++ (new ++ c.back.js))
    around_Distinct =
        let (gi, gm, gj) = parts_All (λ i. i < law.next m) given in
        Distinct-replace c.is c.back.is c.back.js new (subst Distinct whole distinct) new_distinct (
          owned.carry (λ i. Apart i c.is × Apart i c.back.js)
            (middle_Apart c.is c.back.is c.back.js (subst Distinct whole distinct))
            (λ i later _. (
              All-map (λ j h e. omega (arith, h, e, later)) c.is gi,
              All-map (λ j h e. omega (arith, h, e, later)) c.back.js gj,
            )))

    untouched :
        (is : List ℕ)
        → All (λ i. Apart i c.back.is) is
        → All (λ i. i < law.next m) is
        → All (Agrees (s.read m) (s.read m1)) is
    untouched is a g = agree is (All-both (λ i. Apart i c.back.is) (λ i. i < law.next m) is a g)
      where
        agree :
            (js : List ℕ)
            → All (λ i. Apart i c.back.is × (i < law.next m)) js
            → All (Agrees (s.read m) (s.read m1)) js
        agree [] b = tt
        agree (j ∷ js) b = (change.kept j b.0.0 b.0.1, agree js b.1)

    pub front_moved : Below l (s.read m1) (Sub l (s.read m1) depth) front c.ys c.is
    front_moved =
        let outer = Distinct-split c.is (c.back.is ++ c.back.js) (subst Distinct whole distinct) in
        let apart =
          All-map (λ i a. (All-split (λ (k : ℕ). i ≢ k) c.back.is c.back.js a).0) c.is
            outer.across in
        Below-Agrees l (s.read m) (s.read m1) (Sub l (s.read m) depth) (Sub l (s.read m1) depth)
          (Sub-Agrees l (s.read m) (s.read m1) depth) front c.ys c.is
          (untouched c.is apart (parts_All (λ i. i < law.next m) given).0) c.front

    pub back_moved : Below l (s.read m1) (Sub l (s.read m1) depth) back c.back.zs c.back.js
    back_moved =
        let outer = Distinct-split c.is (c.back.is ++ c.back.js) (subst Distinct whole distinct) in
        let inner = Distinct-split c.back.is c.back.js outer.back in
        Below-Agrees l (s.read m) (s.read m1) (Sub l (s.read m) depth) (Sub l (s.read m1) depth)
          (Sub-Agrees l (s.read m) (s.read m1) depth) back c.back.zs c.back.js
          (untouched c.back.js (across_back c.back.is c.back.js inner.across)
            (parts_All (λ i. i < law.next m) given).2)
          c.back.others
