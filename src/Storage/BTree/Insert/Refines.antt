-- ===== src/Storage/BTree/Insert/Refines.antt =====
-- `insertItem` as a whole: on a tree it is insertion into the set of items that the tree holds.
use negentropy.Prelude.{
  ℕ, zero, suc, ◌+◌, ◌≤◌, ◌<◌, ◌≡◌, refl, ap, sym, ◌∙◌, true, false, not, List, [], ◌++◌, arith,
  All, u64_mod, ◌==◌, if◌then◌else◌, Bool-cases, inl, inr,
}
use mathlib.Core.Path.{subst}
use negentropy.Prelude.Results.{Result, ok, ◌>>=◌}
use negentropy.Types.{Item, IsItem}
use negentropy.Storage.{IsAscending}
use negentropy.Storage.Vector.{insert_sorted}
use negentropy.Storage.Vector.Contract.{insert_sorted-IsItem}
use negentropy.Storage.Ordered.{has, insert_sorted-IsAscending}
use negentropy.Storage.BTree.{Limits, IsLimits, NodeStore}
use negentropy.Storage.BTree.Search.{Breadcrumb, search_item}
use negentropy.Storage.BTree.Search.Way.{way, search_item_lem, not_zero}
use negentropy.Storage.BTree.Shape.{Sub}
use negentropy.Storage.BTree.Ids.{Distinct, All-map}
use negentropy.Storage.BTree.Laws.{StoreLaws}
use negentropy.Storage.BTree.Changes.{Sound}
use negentropy.Storage.BTree.Tree.{IsTree, Shape}
use negentropy.Storage.BTree.Insert.{Inserting, insert_steps, insert_item, new_level, first_leaf}
use negentropy.Storage.BTree.Insert.Layers.{Sub-Counts}
use negentropy.Storage.BTree.Insert.Outcome.{Outcome}
use negentropy.Storage.BTree.Insert.Descent.{inserted}
use negentropy.Storage.BTree.Insert.Levels.{first_leaf-Planted, new_level-Planted}

-- the items with one more, unless it is among them
abbrev pub with_item : Item → List Item → List Item
with_item v xs = if has v xs then xs else insert_sorted v xs

module _ {M : Type 0} (s : NodeStore M) (l : Limits) (lim : IsLimits l)
    (short : l.max_items < u64_mod) (law : StoreLaws l s) (fuel : ℕ) (v : Item) where
  -- how an insertion ends
  pub record Inserted (m : M) (xs : List Item) (levels : ℕ) : Type 0 where
    pub store : M
    pub levels' : ℕ
    pub returned : insert_item s l fuel m v ≡ ok (store, not (has v xs))
    pub tree : IsTree s l law store (with_item v xs) levels'
    pub height : levels' ≤ suc levels
    pub ids_used : law.next store ≤ law.next m + suc levels

  module _ (m : M) (xs : List Item) (levels : ℕ) (valid : All IsItem xs) (hv : IsItem v)
      (sorted : IsAscending xs) where
    -- with a new item, from the tree that the store holds in the end
    as_new :
        (store : M) (levels' : ℕ)
        → has v xs ≡ false
        → insert_item s l fuel m v ≡ ok (store, true)
        → Sound s l law store
        → Shape s l law store (insert_sorted v xs) levels'
        → levels' ≤ suc levels
        → law.next store ≤ law.next m + suc levels
        → Inserted m xs levels
    as_new store levels' new e sound shape height used = record {
      store = store;
      levels' = levels';
      returned = rw new e;
      tree = rw new (record {
        sound = sound;
        valid = insert_sorted-IsItem v xs hv valid;
        sorted = insert_sorted-IsAscending v xs sorted new;
        shape = shape;
      });
      height = height;
      ids_used = used;
    }

    into_none :
        Sound s l law m
        → law.next m + 1 < u64_mod
        → s.get_root m ≡ 0
        → xs ≡ []
        → Inserted m xs levels
    unfolding insert_item has insert_sorted
    into_none sound room at_none no_items =
        let p = first_leaf-Planted s l lim law m sound room v in
        as_new (first_leaf s l m v) 1 (rw no_items refl) (rw at_none refl) p.sound'
          (subst (λ (its : List Item). Shape s l law (first_leaf s l m v) (insert_sorted v its) 1)
            (sym no_items) p.shape)
          (omega arith) (omega (arith, p.next'))

    module _ (depth : ℕ) (ids : List ℕ) (t : Sub l (s.read m) depth (s.get_root m) xs ids)
        (sound : Sound s l law m) (distinct : Distinct ids) (given : All (λ i. i < law.next m) ids)
        (enough : depth + 2 ≤ fuel) (room : law.next m + depth + 2 < u64_mod)
        (height : levels ≡ suc depth) where
      abbrev crumbs : List Breadcrumb
      crumbs = way l short (s.read m) (law.read_zero m) v depth (s.get_root m) xs ids t

      root_pos : 0 < s.get_root m
      root_pos =
          let (node, found, _) = Sub-Counts l (s.read m) depth (s.get_root m) xs ids t in
          not_zero l short (s.read m) (law.read_zero m) v (s.get_root m) node found

      some_root : (s.get_root m == 0) ≡ false
      some_root = ground (arith, root_pos)

      searched : search_item (s.read m) fuel (s.get_root m) v ≡ ok (crumbs, has v xs)
      searched =
          search_item_lem l short (s.read m) (law.read_zero m) v depth (s.get_root m) xs ids t
            sorted fuel enough

      run_found : has v xs ≡ true → insert_item s l fuel m v ≡ ok (m, false)
      unfolding insert_item
      run_found found = simp (some_root, searched, found)

      run_steps :
          (st : Inserting M)
          → has v xs ≡ false
          → insert_steps s l v crumbs
              (record { store = m; new_key = record { item = v; node_id = 0 }; needs_merge = true })
            ≡ ok st
          → insert_item s l fuel m v ≡ (
              if st.needs_merge
              then (do m' ← new_level s l st.store (s.get_root m) st.new_key.node_id; ok (m', true))
              else ok (st.store, true))
      unfolding insert_item
      run_steps st new e = simp (some_root, searched, new, e)

      after_steps :
          (st : Inserting M)
          → has v xs ≡ false
          → insert_steps s l v crumbs
              (record { store = m; new_key = record { item = v; node_id = 0 }; needs_merge = true })
            ≡ ok st
          → Outcome s l law v m (λ read. Sub l read depth) (s.get_root m) xs ids (suc depth) st
          → Inserted m xs levels
      after_steps st new e (Outcome.fits ids' flag change grown d owned tree) =
          as_new st.store (suc depth) new (run_steps st new e ∙ rw flag refl) change.sound
            (Shape.rooted depth ids'
              (subst (λ (id : ℕ). Sub l (s.read st.store) depth id (insert_sorted v xs) ids')
                (sym change.same_root) tree)
              d
              (owned.carry (λ i. i < law.next st.store)
                (All-map (λ i h. omega (arith, h, change.later)) ids given) (λ k h lt. lt)))
            (omega (arith, height)) (omega (arith, grown, height))
      after_steps st new e
            (Outcome.splits ys zs is js flag change grown some_id halves first not_below d owned
              left right) =
          let valid' : All IsItem (ys ++ zs) =
            subst (All IsItem) halves (insert_sorted-IsItem v xs hv valid) in
          let given' =
            owned.carry (λ i. i < law.next st.store)
              (All-map (λ i h. omega (arith, h, change.later)) ids given) (λ k h lt. lt) in
          let (m', e', planted) =
            new_level-Planted s l lim law st.store change.sound (omega (arith, grown, room)) depth
              (s.get_root m) st.new_key.node_id ys zs is js left right root_pos some_id d given'
              valid' in
          as_new m' (suc (suc depth)) new
            (run_steps st new e ∙ rw flag (ap (λ (r : Result M). r >>= λ m2. ok (m2, true)) e'))
            planted.sound'
            (subst (λ (its : List Item). Shape s l law m' its (suc (suc depth))) (sym halves)
              planted.shape)
            (omega (arith, height)) (omega (arith, planted.next', grown, height))

      into_root : Inserted m xs levels
      into_root = elim (Bool-cases (has v xs)) [
        | inl found ↦ record {
          store = m;
          levels' = levels;
          returned = rw found (run_found found);
          tree = rw found (record {
            sound = sound;
            valid = valid;
            sorted = sorted;
            shape =
                subst (Shape s l law m xs) (sym height) (Shape.rooted depth ids t distinct given);
          });
          height = omega arith;
          ids_used = omega arith;
        }
        | inr new ↦ by_outcome new
      ]
        where
          by_outcome : has v xs ≡ false → Inserted m xs levels
          by_outcome new =
              let (st, e, outcome) =
                inserted s l lim short law v m sound hv depth (s.get_root m) xs ids t distinct given
                  valid sorted new (omega (arith, room)) in
              after_steps st new e outcome

  -- Insertion into a tree that holds valid items in ascending order, with fuel above its levels and ids
  -- left: `insertItem` returns, and says whether the item is new; the store holds a tree of the items
  -- with the new one in its place, at most one level higher.
  pub insert_item_refines :
      (m : M) (xs : List Item) (levels : ℕ)
      → IsTree s l law m xs levels
      → IsItem v
      → levels + 1 ≤ fuel
      → law.next m + levels + 1 < u64_mod
      → Inserted m xs levels
  insert_item_refines m xs levels tree hv enough room = by_shape tree.shape enough room
    where
      by_shape :
          {n : ℕ}
          → Shape s l law m xs n
          → n + 1 ≤ fuel
          → law.next m + n + 1 < u64_mod
          → Inserted m xs n
      by_shape (Shape.no_root at_none no_items) e r =
          into_none m xs zero tree.valid hv tree.sorted tree.sound (omega (arith, r)) at_none
            no_items
      by_shape (Shape.rooted depth ids t distinct given) e r =
          into_root m xs (suc depth) tree.valid hv tree.sorted depth ids t tree.sound distinct given
            (omega (arith, e)) (omega (arith, r)) refl
