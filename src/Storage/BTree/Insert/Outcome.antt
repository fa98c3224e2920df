-- ===== src/Storage/BTree/Insert/Outcome.antt =====
-- What an insertion leaves of a subtree.
use negentropy.Prelude.{
  ℕ, ◌+◌, ◌≤◌, ◌<◌, ◌≡◌, sym, ◌∙◌, true, false, List, [], ◌∷◌, ◌++◌, All, Bool-cases, inl, inr,
}
use mathlib.Core.Path.{subst}
use negentropy.Prelude.Results.{ok}
use negentropy.Types.{Item, item_lt}
use negentropy.Types.Order.{item_lt-asym, item_lt_irrefl}
use negentropy.Storage.{IsAscending}
use negentropy.Storage.Vector.{insert_sorted}
use negentropy.Storage.Ordered.{Over, ascending_after}
use negentropy.Storage.BTree.{Limits, NodePtr, NodeStore}
use negentropy.Storage.BTree.Shape.{First, All-split}
use negentropy.Storage.BTree.Ids.{Distinct}
use negentropy.Storage.BTree.Laws.{StoreLaws}
use negentropy.Storage.BTree.Changes.{Change}
use negentropy.Storage.BTree.Search.{Breadcrumb}
use negentropy.Storage.BTree.Insert.{Inserting, insert_step}

abbrev pub SomeItem : List Item → Type 0
SomeItem [] = ⊥
SomeItem (x ∷ xs) = Unit

-- an item of an ascending list is below the first one behind some others
below-First :
    (w u : Item) (ys zs : List Item) → IsAscending (w ∷ ys ++ zs) → First u zs → item_lt w u ≡ true
below-First w u ys [] h g = absurd g
below-First w u ys (z ∷ zs) h g =
    subst (λ (i : Item). item_lt w i ≡ true) (sym g)
      (All-split (Over w) ys (z ∷ zs) (ascending_after w (ys ++ z ∷ zs) h)).1.0

insert_under :
    (v x : Item) (xs : List Item)
    → item_lt x v ≡ true
    → insert_sorted v (x ∷ xs) ≡ x ∷ insert_sorted v xs
unfolding insert_sorted
insert_under v x xs h = rw h

insert_before :
    (v x : Item) (xs : List Item) → item_lt x v ≡ false → insert_sorted v (x ∷ xs) ≡ v ∷ x ∷ xs
unfolding insert_sorted
insert_before v x xs h = rw h

-- The first item of a right half is not below the first item before the insertion.
pub right_not_below :
    (v : Item) (xs ys zs : List Item) (u f : Item)
    → IsAscending (insert_sorted v xs)
    → insert_sorted v xs ≡ ys ++ zs
    → SomeItem ys
    → First u zs
    → First f xs
    → item_lt u f ≡ false
unfolding insert_sorted
right_not_below v [] ys zs u f h e n g k = absurd k
right_not_below v (x ∷ xs) [] zs u f h e n g k = absurd n
right_not_below v (x ∷ xs) (y ∷ ys) zs u f h e n g k = elim (Bool-cases (item_lt x v)) [
  | inl under ↦
      let e' : x ∷ insert_sorted v xs ≡ y ∷ (ys ++ zs) = sym (insert_under v x xs under) ∙ e in
      let asc : IsAscending (y ∷ (ys ++ zs)) = subst IsAscending e h in
      let f_y : f ≡ y = cc in
      subst (λ (i : Item). item_lt u i ≡ false) (sym f_y)
        (item_lt-asym y u (below-First y u ys zs asc g))
  | inr first ↦
      let e' : v ∷ x ∷ xs ≡ y ∷ (ys ++ zs) = sym (insert_before v x xs first) ∙ e in
      behind ys (cc) (subst IsAscending e h)
]
  where
    behind :
        (ys' : List Item) → x ∷ xs ≡ ys' ++ zs → IsAscending (y ∷ (ys' ++ zs)) → item_lt u f ≡ false
    behind [] q asc = at_head zs g q
      where
        at_head : (zs' : List Item) → First u zs' → x ∷ xs ≡ zs' → item_lt u f ≡ false
        at_head [] g' q' = absurd g'
        at_head (z ∷ zs') g' q' =
            let same : u ≡ f = cc in
            subst (λ (i : Item). item_lt i f ≡ false) (sym same) (item_lt_irrefl f)
    behind (y' ∷ ys') q asc =
        let f_y : f ≡ y' = cc in
        subst (λ (i : Item). item_lt u i ≡ false) (sym f_y)
          (item_lt-asym y' u (below-First y' u ys' zs asc.1 g))

module _ {M : Type 0} (s : NodeStore M) (l : Limits) (law : StoreLaws l s) (v : Item) (m : M) where
  -- The ids of the new subtree are old ids of it, or new ones.
  pub record Owned (ids ids' : List ℕ) (m' : M) : Type 1 where
    pub carry :
        (P : ℕ → Type 0)
        → All P ids
        → ((k : ℕ) → law.next m ≤ k → k < law.next m' → P k)
        → All P ids'

  pub data Outcome (Tree : (ℕ → NodePtr) → ℕ → List Item → List ℕ → Type 0) (id : ℕ)
      (xs : List Item) (ids : List ℕ) (levels : ℕ) (st : Inserting M) : Type 1 where
    fits :
        (ids' : List ℕ)
        → st.needs_merge ≡ false
        → Change s l law m st.store ids
        → law.next st.store ≤ law.next m + levels
        → Distinct ids'
        → Owned ids ids' st.store
        → Tree (s.read st.store) id (insert_sorted v xs) ids'
        → Outcome Tree id xs ids levels st
    splits :
        (ys zs : List Item) (is js : List ℕ)
        → st.needs_merge ≡ true
        → Change s l law m st.store ids
        → law.next st.store ≤ law.next m + levels
        → 0 < st.new_key.node_id
        → insert_sorted v xs ≡ ys ++ zs
        → First st.new_key.item zs
        → ((f : Item) → First f xs → item_lt st.new_key.item f ≡ false)
        → Distinct (is ++ js)
        → Owned ids (is ++ js) st.store
        → Tree (s.read st.store) id ys is
        → Tree (s.read st.store) st.new_key.node_id zs js
        → Outcome Tree id xs ids levels st

  -- a step with what it leaves of its node
  abbrev pub Stepped :
      ((ℕ → NodePtr) → ℕ → List Item → List ℕ → Type 0)
      → Breadcrumb
      → List Item
      → List ℕ
      → ℕ
      → Inserting M
      → Type 1
  Stepped Tree crumb xs ids levels from =
      (st : Inserting M) × (insert_step s l v crumb from ≡ ok st)
      × Outcome Tree crumb.node_id xs ids levels st
