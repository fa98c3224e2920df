-- ===== src/Storage/BTree/Insert/Inner.antt =====
-- The insertion into a node above the leaves, after that into the child.
use negentropy.Prelude.{
  ℕ, suc, ◌+◌, ◌≤◌, ◌<◌, ◌≡◌, ◌≢◌, refl, ap, sym, ◌∙◌, Bool, true, false, List, [], ◌∷◌, ◌++◌,
  append_assoc, map, All, u64_mod, ◌⊎◌, inl, inr,
}
use mathlib.Core.Path.{subst}
use negentropy.Types.{Item, IsItem, item_lt}
use negentropy.Types.Order.{item_lt-asym}
use negentropy.Storage.{IsAscending}
use negentropy.Storage.Vector.{insert_sorted}
use negentropy.Storage.Ordered.{has, HeadOver, Over, ascending_across, IsAscending-split}
use negentropy.Storage.BTree.{Limits, IsLimits, Key, NodePtr, NodeStore}
use negentropy.Storage.BTree.Search.{Breadcrumb}
use negentropy.Storage.BTree.Search.Pick.{Picked}
use negentropy.Storage.BTree.Search.Locate.{Located, locate_child, has_located, insert_located}
use negentropy.Storage.BTree.Shape.{
  item_of, First, First-append, Below, Below-join, Halves, Sub, Sub-First, All-split,
}
use negentropy.Storage.BTree.Ids.{Apart, Distinct}
use negentropy.Storage.BTree.Laws.{StoreLaws}
use negentropy.Storage.BTree.Changes.{Change}
use negentropy.Storage.BTree.Insert.{merge_key, Inserting}
use negentropy.Storage.BTree.Insert.Merge.{merge_key-behind}
use negentropy.Storage.BTree.Insert.Layers.{InnerBody, inner_layer, inner_loose}
use negentropy.Storage.BTree.Insert.Outcome.{Owned, Outcome, Stepped}
use negentropy.Storage.BTree.Insert.Raise.{raise_bump, raise_merge}
use negentropy.Storage.BTree.Insert.Around.{
  First-All, Below-keys, HeadOver-keys, First-stays, refreshed, parts_All, around_Owned,
  around_Distinct, front_moved, back_moved,
}

-- a tree with leaves at this depth
abbrev SubTree : Limits → ℕ → (ℕ → NodePtr) → ℕ → List Item → List ℕ → Type 0
SubTree l depth read id xs ids = Sub l read depth id xs ids

module _ {M : Type 0} (s : NodeStore M) (l : Limits) (lim : IsLimits l) (law : StoreLaws l s)
    (v : Item) (crumb : Breadcrumb) (depth : ℕ) (xs : List Item) (ids : List ℕ) (m : M)
    (before : Sub l (s.read m) (suc depth) crumb.node_id xs ids) (distinct : Distinct ids)
    (given : All (λ i. i < law.next m) ids) (hv : IsItem v) (hx : All IsItem xs)
    (sorted : IsAscending xs) (new : has v xs ≡ false)
    (ascending : IsAscending (insert_sorted v xs)) (b i : ℕ) (p : Picked v before.keys b i)
    (c : Halves l (s.read m) (Sub l (s.read m) depth) p.front (p.key ∷ p.back) xs before.below)
    (levels : ℕ) (room : law.next m + levels + 1 < u64_mod) (st : Inserting M) where
  own-Distinct : Apart crumb.node_id before.below × Distinct before.below
  own-Distinct = subst Distinct before.own distinct

  own_given : (crumb.node_id < law.next m) × All (λ i. i < law.next m) before.below
  own_given = subst (All (λ (i : ℕ). i < law.next m)) before.own given

  located : Located v xs c.ys c.back.ys c.back.zs
  located =
      locate_child v xs sorted l (s.read m) (Sub l (s.read m) depth) p.front p.key p.back
        before.below p.lower p.upper c

  here_new : has v c.back.ys ≡ false
  here_new = sym (has_located v xs c.ys c.back.ys c.back.zs sorted located) ∙ new

  insert_here : insert_sorted v xs ≡ c.ys ++ (insert_sorted v c.back.ys ++ c.back.zs)
  insert_here = insert_located v xs c.ys c.back.ys c.back.zs sorted located

  -- The key of the child is the first of its node, or keeps its item.
  key_stays : (f : Item) → First f (insert_sorted v c.back.ys) → (p.front ≡ []) ⊎ (f ≡ p.key.item)
  key_stays f first = stays p.lower
    where
      stays : (p.front ≡ []) ⊎ (item_lt v p.key.item ≡ false) → (p.front ≡ []) ⊎ (f ≡ p.key.item)
      stays (inl none) = inl none
      stays (inr h) = inr (First-stays v p.key.item f c.back.ys c.back.first h here_new first)

  -- the items with their child's new items and the keys from the child on
  joined :
      (m1 : M) (change : Change s l law m m1 c.back.is) (keys : List Key) (mid : List ℕ)
      → Owned s l law v m c.back.is mid m1
      → Distinct mid
      → Below l
          (s.read m1)
          (Sub l (s.read m1) depth)
          keys
          (insert_sorted v c.back.ys ++ c.back.zs)
          (mid ++ c.back.js)
      → InnerBody l depth
          (s.read m1)
          (p.front ++ keys)
          (insert_sorted v xs)
          (c.is ++ (mid ++ c.back.js))
  joined m1 change keys mid owned dm body =
      subst
        (λ (its : List Item).
          Below l (s.read m1) (Sub l (s.read m1) depth) (p.front ++ keys) its
            (c.is ++ (mid ++ c.back.js)))
        (sym insert_here)
        (Below-join l (s.read m1) (Sub l (s.read m1) depth) p.front keys c.ys
          (insert_sorted v c.back.ys ++ c.back.zs) c.is (mid ++ c.back.js)
          (front_moved s l law v m depth p.front p.key p.back xs before.below c own-Distinct.1
            own_given.1 m1 change mid owned dm)
          body)

  with_flag :
      (b : Bool)
      → st.needs_merge ≡ b
      → Stepped s l law v m
          (λ read. Sub l read (suc depth))
          crumb
          xs
          ids
          (suc levels)
          (record { store = st.store; new_key = st.new_key; needs_merge = b })
      → Stepped s l law v m (λ read. Sub l read (suc depth)) crumb xs ids (suc levels) st
  with_flag b e t =
      subst
        (λ (flag : Bool).
          Stepped s l law v m (λ read. Sub l read (suc depth)) crumb xs ids (suc levels)
            (record { store = st.store; new_key = st.new_key; needs_merge = flag }))
        (sym e) t

  touched : (j : ℕ) → Apart j before.below → Apart j c.back.is
  touched j a =
      (parts_All s l law v m depth p.front p.key p.back xs before.below c own-Distinct.1 own_given.1
        (λ k. j ≢ k) a).1

  module _ (change : Change s l law m st.store c.back.is)
      (grown : law.next st.store ≤ law.next m + levels) where
    inner_fits :
        (mid : List ℕ)
        → st.needs_merge ≡ false
        → Distinct mid
        → Owned s l law v m c.back.is mid st.store
        → Sub l (s.read st.store) depth p.key.node_id (insert_sorted v c.back.ys) mid
        → Stepped s l law v m (λ read. Sub l read (suc depth)) crumb xs ids (suc levels) st
    inner_fits mid flag dm owned tree =
        let (_, q, _, _, _, first) =
          Sub-First l (s.read st.store) depth p.key.node_id (insert_sorted v c.back.ys) mid tree in
        let (k, ks, f, old_keys, new_keys) =
          refreshed p.front p.back p.key q.item (key_stays q.item first) in
        let body =
          joined st.store change (record p.key { item = q.item } ∷ p.back) mid owned dm (record {
            ys = insert_sorted v c.back.ys;
            zs = c.back.zs;
            is = mid;
            js = c.back.js;
            items_split = refl;
            ids_split = refl;
            some_id = c.back.some_id;
            first = first;
            held = tree;
            others =
                back_moved s l law v m depth p.front p.key p.back xs before.below c own-Distinct.1
                  own_given.1 st.store change mid owned dm;
          }) in
        with_flag false flag (
          raise_bump s l lim law (InnerBody l depth) (inner_layer s l law depth) v crumb xs ids m
            before distinct given hv hx ascending st.store levels c.back.is
            (c.is ++ (mid ++ c.back.js)) change grown room (touched crumb.node_id own-Distinct.0)
            touched
            (around_Owned s l law v m depth p.front p.key p.back xs before.below c own-Distinct.1
              own_given.1 st.store change mid owned dm)
            (around_Distinct s l law v m depth p.front p.key p.back xs before.below c own-Distinct.1
              own_given.1 st.store change mid owned dm)
            k ks f (inner_loose s l law depth k f)
            (subst
              (λ (keys : List Key).
                InnerBody l depth (s.read st.store) keys (insert_sorted v xs)
                  (c.is ++ (mid ++ c.back.js)))
              new_keys body)
            st.new_key (p.parts ∙ old_keys))

    module _ (ys zs : List Item) (is js : List ℕ) (some_id : 0 < st.new_key.node_id)
        (halves : insert_sorted v c.back.ys ≡ ys ++ zs) (up_first : First st.new_key.item zs)
        (not_below : (f : Item) → First f c.back.ys → item_lt st.new_key.item f ≡ false) where
      abbrev u : Item
      u = st.new_key.item

      split-IsAscending : IsAscending (c.ys ++ ((ys ++ zs) ++ c.back.zs))
      split-IsAscending =
          subst IsAscending
            (insert_here ∙ ap (λ (its : List Item). c.ys ++ (its ++ c.back.zs)) halves) ascending

      not_above : (x : Item) → Over x u → item_lt u x ≡ false
      not_above x h = item_lt-asym x u h

      All-items :
          {P Q : Item → Type 0}
          → ((x : Item) → P x → Q x)
          → (its : List Item) → All P its
          → All Q its
      All-items f [] a = tt
      All-items f (x ∷ its) a = (f x a.0, All-items f its a.1)

      front_under : All (λ (e : Key). item_lt u e.item ≡ false) p.front
      front_under =
          Below-keys l (s.read m) (Sub l (s.read m) depth) (λ x. item_lt u x ≡ false) p.front c.ys
            c.is c.front
            (All-items
              (λ x a.
                let inner = (All-split (Over x) (ys ++ zs) c.back.zs a).0 in
                not_above x (First-All (Over x) u zs up_first (All-split (Over x) ys zs inner).1))
              c.ys (ascending_across c.ys ((ys ++ zs) ++ c.back.zs) split-IsAscending))

      back_over : HeadOver u (map item_of p.back)
      back_over =
          let rest : IsAscending ((ys ++ zs) ++ c.back.zs) =
            (IsAscending-split c.ys ((ys ++ zs) ++ c.back.zs) split-IsAscending).back in
          let behind : All (Over u) c.back.zs =
            First-All (λ x. All (Over x) c.back.zs) u zs up_first
              (All-split (λ (x : Item). All (Over x) c.back.zs) ys zs
                (ascending_across (ys ++ zs) c.back.zs rest)).1 in
          HeadOver-keys u p.back (
            Below-keys l (s.read m) (Sub l (s.read m) depth) (Over u) p.back c.back.zs c.back.js
              c.back.others behind)

      merged : merge_key st.new_key before.keys ≡ p.front ++ (p.key ∷ st.new_key ∷ p.back)
      merged =
          ap (merge_key st.new_key) p.parts
          ∙ merge_key-behind st.new_key p.front p.key p.back front_under
              (not_below p.key.item c.back.first) back_over

      inner_splits :
          st.needs_merge ≡ true
          → Distinct (is ++ js)
          → Owned s l law v m c.back.is (is ++ js) st.store
          → Sub l (s.read st.store) depth p.key.node_id ys is
          → Sub l (s.read st.store) depth st.new_key.node_id zs js
          → Stepped s l law v m (λ read. Sub l read (suc depth)) crumb xs ids (suc levels) st
      inner_splits flag dm owned left right =
          let (_, q, _, _, _, first) =
            Sub-First l (s.read st.store) depth p.key.node_id ys is left in
          let first_all : First q.item (insert_sorted v c.back.ys) =
            subst (First q.item) (sym halves) (First-append q.item ys zs first) in
          let (k, ks, f, old_keys, new_keys) =
            refreshed p.front (st.new_key ∷ p.back) p.key q.item (key_stays q.item first_all) in
          let body =
            joined st.store change (record p.key { item = q.item } ∷ st.new_key ∷ p.back) (is ++ js)
              owned dm
              (record {
                ys = ys;
                zs = zs ++ c.back.zs;
                is = is;
                js = js ++ c.back.js;
                items_split =
                    ap (λ (its : List Item). its ++ c.back.zs) halves
                    ∙ append_assoc ys zs c.back.zs;
                ids_split = append_assoc is js c.back.js;
                some_id = c.back.some_id;
                first = first;
                held = left;
                others = record {
                  ys = zs;
                  zs = c.back.zs;
                  is = js;
                  js = c.back.js;
                  items_split = refl;
                  ids_split = refl;
                  some_id = some_id;
                  first = up_first;
                  held = right;
                  others =
                      back_moved s l law v m depth p.front p.key p.back xs before.below c
                        own-Distinct.1 own_given.1 st.store change (is ++ js) owned dm;
                };
              }) in
          with_flag true flag (
            raise_merge s l lim law (InnerBody l depth) (inner_layer s l law depth) v crumb xs ids m
              before distinct given hv hx ascending st.store levels c.back.is
              (c.is ++ ((is ++ js) ++ c.back.js)) change grown room
              (touched crumb.node_id own-Distinct.0) touched
              (around_Owned s l law v m depth p.front p.key p.back xs before.below c own-Distinct.1
                own_given.1 st.store change (is ++ js) owned dm)
              (around_Distinct s l law v m depth p.front p.key p.back xs before.below c
                own-Distinct.1 own_given.1 st.store change (is ++ js) owned dm)
              k ks f (inner_loose s l law depth k f)
              (subst
                (λ (keys : List Key).
                  InnerBody l depth (s.read st.store) keys (insert_sorted v xs)
                    (c.is ++ ((is ++ js) ++ c.back.js)))
                new_keys body)
              st.new_key (merged ∙ old_keys))

  -- The step after the child.
  pub put_above :
      Outcome s l law v m (λ read. Sub l read depth) p.key.node_id c.back.ys c.back.is levels st
      → Stepped s l law v m (λ read. Sub l read (suc depth)) crumb xs ids (suc levels) st
  put_above (Outcome.fits mid flag change grown dm owned tree) =
      inner_fits change grown mid flag dm owned tree
  put_above
        (Outcome.splits ys zs is js flag change grown some_id halves first not_below dm owned left
          right) =
      inner_splits change grown ys zs is js some_id halves first not_below flag dm owned left right
