-- ===== src/Storage/BTree/Insert/Many.antt =====
-- A sequence of insertions: the tree holds what was there and what was inserted, and nothing else.
use negentropy.Prelude.{
  ℕ, ◌+◌, ◌*◌, ◌≤◌, ◌<◌, ◌≡◌, refl, ap, ◌∙◌, Bool, true, ◌||◌, List, [], ◌∷◌, length, arith, All,
  u64_mod, Bool-cases, inl, inr,
}
use native.Mathlib.Nat.{suc-mul}
use negentropy.Prelude.Results.{Result, ok, ◌>>=◌}
use negentropy.Types.{Item, IsItem, item_eq}
use negentropy.Types.Order.{item_eq_iff}
use negentropy.Storage.Vector.{insert_sorted}
use negentropy.Storage.Ordered.{has}
use negentropy.Storage.BTree.{Limits, IsLimits, NodeStore}
use negentropy.Storage.BTree.Laws.{StoreLaws}
use negentropy.Storage.BTree.Tree.{IsTree}
use negentropy.Storage.BTree.Insert.{insert_item}
use negentropy.Storage.BTree.Insert.Refines.{with_item, insert_item_refines}

has-insert_sorted :
    (w v : Item) (xs : List Item) → has w (insert_sorted v xs) ≡ (item_eq w v || has w xs)
unfolding has insert_sorted
has-insert_sorted w v [] = ground arith
has-insert_sorted w v (x ∷ xs) = ground (arith, has-insert_sorted w v xs)

has-with_item : (w v : Item) (xs : List Item) → has w (with_item v xs) ≡ (item_eq w v || has w xs)
has-with_item w v xs = elim (Bool-cases (has v xs)) [
  | inl there ↦ rw there (among there)
  | inr new ↦ rw new (has-insert_sorted w v xs)
]
  where
    among : has v xs ≡ true → has w xs ≡ (item_eq w v || has w xs)
    among there = elim (Bool-cases (item_eq w v)) [
      | inl same ↦ rw same (ap (λ (i : Item). has i xs) ((item_eq_iff w v).0 same) ∙ there)
      | inr other ↦ rw other refl
    ]

module _ {M : Type 0} (s : NodeStore M) (l : Limits) (lim : IsLimits l)
    (short : l.max_items < u64_mod) (law : StoreLaws l s) (fuel : ℕ) where
  -- one insertion after another
  pub insert_items : M → List Item → Result M
  insert_items m [] = ok m
  insert_items m (v ∷ vs) = do (m', _) ← insert_item s l fuel m v; insert_items m' vs

  pub record Loaded (m : M) (xs vs : List Item) : Type 0 where
    pub store : M
    pub items : List Item
    pub levels : ℕ
    pub returned : insert_items m vs ≡ ok store
    pub tree : IsTree s l law store items levels
    pub exactly : (w : Item) → has w items ≡ (has w vs || has w xs)

  -- On a tree, with fuel above its levels and the number of insertions, and ids for all of them, any
  -- sequence of insertions of valid items returns, and leaves a tree whose items are exactly those before
  -- and those inserted, each once.
  pub insert_items_exact :
      (m : M) (xs vs : List Item) (levels : ℕ)
      → IsTree s l law m xs levels
      → All IsItem vs
      → levels + length vs + 1 ≤ fuel
      → law.next m + length vs * fuel + fuel < u64_mod
      → Loaded m xs vs
  unfolding insert_items has
  insert_items_exact m xs [] levels tree valid enough room = record {
    store = m;
    items = xs;
    levels = levels;
    returned = refl;
    tree = tree;
    exactly = λ w. refl;
  }
  insert_items_exact m xs (v ∷ vs) levels tree valid enough room =
      let one =
        insert_item_refines s l lim short law fuel v m xs levels tree valid.0
          (omega (arith, enough)) (omega (arith, enough, room)) in
      let rest =
        insert_items_exact one.store (with_item v xs) vs one.levels' one.tree valid.1
          (omega (arith, enough, one.height))
          (omega (arith, enough, room, one.ids_used, suc-mul (length vs) fuel)) in
      record {
        store = rest.store;
        items = rest.items;
        levels = rest.levels;
        returned =
            ap (λ (r : Result (M × Bool)). (do (m', _) ← r; insert_items m' vs)) one.returned
            ∙ rest.returned;
        tree = rest.tree;
        exactly = λ w.
            rest.exactly w ∙ ap (λ (b : Bool). has w vs || b) (has-with_item w v xs) ∙ ground arith;
      }
