-- ===== src/Storage/BTree/Insert/Levels.antt =====
-- The first leaf, and the level above two halves, as trees.
use negentropy.Prelude.{
  ℕ, suc, ◌+◌, ◌<◌, ◌≡◌, refl, ap, ap₂, sym, ◌∙◌, Bytes, List, [], ◌∷◌, ◌++◌, append-nil, length,
  length-append, length-drop, length-replicate, drop, replicate, arith, All, u64_mod,
}
use mathlib.Core.Path.{subst}
use negentropy.Prelude.Results.{ok}
use negentropy.Types.{Item, IsItem}
use negentropy.Accumulator.{add, zero_accum, accum_from}
use negentropy.Accumulator.Value.{zero-IsBuffer}
use negentropy.Accumulator.Sums.{accum_from-add, accum_from-append, accum_from-IsBuffer}
use negentropy.Storage.BTree.{
  Limits, IsLimits, Key, zero_key, Node, zero_node, node_ptr, key_at, NodeStore,
}
use negentropy.Storage.BTree.Shape.{Sub, First, Sub-Agrees, Sub-First, All-split}
use negentropy.Storage.BTree.Ids.{Distinct, All-map}
use negentropy.Storage.BTree.Laws.{StoreLaws}
use negentropy.Storage.BTree.Changes.{Sound, node_ptr_inj}
use negentropy.Storage.BTree.Tree.{Shape}
use negentropy.Storage.BTree.Insert.{first_leaf, new_level}
use negentropy.Storage.BTree.Insert.Steps.{load_found}
use negentropy.Storage.BTree.Insert.Layers.{Sub-Counts}
use negentropy.Storage.BTree.Insert.Root.{Rooted, with_root, with_root-Rooted}

module _ {M : Type 0} (s : NodeStore M) (l : Limits) (lim : IsLimits l) (law : StoreLaws l s)
    (m : M) (sound : Sound s l law m) (room : law.next m + 1 < u64_mod) where
  -- what a new root leaves
  pub record Planted (m' : M) (xs : List Item) (levels : ℕ) : Type 0 where
    pub sound' : Sound s l law m'
    pub next' : law.next m' ≡ law.next m + 1
    pub shape : Shape s l law m' xs levels

  pub first_leaf-Planted : (v : Item) → Planted (first_leaf s l m v) (v ∷ []) 1
  unfolding first_leaf accum_from
  first_leaf-Planted v = record {
    sound' = r.sound;
    next' = r.next;
    shape =
        Shape.rooted 0 (law.next m ∷ [])
          (subst (λ (id : ℕ). Sub l (s.read (first_leaf s l m v)) 0 id (v ∷ []) (law.next m ∷ []))
            (sym r.root) here)
          (tt, tt) (omega (arith, r.next), tt);
  }
    where
      leaf : Node
      leaf = record (zero_node l) {
        num_items = 1;
        accum = add zero_accum v.id;
        accum_count = 1;
        items = record { item = v; node_id = 0 } ∷ drop 1 (replicate (suc l.max_items) zero_key);
      }

      r : Rooted s l law m (first_leaf s l m v) leaf
      r = with_root-Rooted s l law m leaf sound room refl

      here : Sub l (s.read (first_leaf s l m v)) 0 (law.next m) (v ∷ []) (law.next m ∷ [])
      here = record {
        node = leaf;
        keys = record { item = v; node_id = 0 } ∷ [];
        below = [];
        found = r.at;
        slots = record {
          rest = drop 1 (replicate (suc l.max_items) zero_key);
          used = refl;
          full = refl;
          room = omega (
            arith,
            length-drop 1 (replicate (suc l.max_items) zero_key),
            length-replicate (suc l.max_items) zero_key,
          );
          within = omega (arith, lim.threshold_below);
        };
        some_key = omega arith;
        counts = record { count = refl; total = refl };
        own = refl;
        body = record { own = refl; no_child = (refl, tt); none_below = refl };
      }

  -- the node at the top of a tree, with its first key
  Top : ℕ → List Item → Type 0
  Top id xs =
      (node : Node) × (k : Key) × (ks : List Key) × (s.read m id ≡ node_ptr id node)
      × (node.items ≡ k ∷ ks)
      × First k.item xs
      × (node.accum ≡ accum_from zero_accum xs)
      × (node.accum_count ≡ length xs)

  top :
      (depth id : ℕ) (xs : List Item) (ids : List ℕ) → Sub l (s.read m) depth id xs ids → Top id xs
  unfolding Top
  top depth id xs ids t =
      let (node, k, ks, found, items, first) = Sub-First l (s.read m) depth id xs ids t in
      let (node', found', counts) = Sub-Counts l (s.read m) depth id xs ids t in
      let same : node' ≡ node = node_ptr_inj id node' node (sym found' ∙ found) in
      (
        node,
        k,
        ks,
        found,
        items,
        first,
        ap (λ (n : Node). n.accum) (sym same) ∙ counts.total,
        ap (λ (n : Node). n.accum_count) (sym same) ∙ counts.count,
      )

  module _ (depth left_id right_id : ℕ) (ys zs : List Item) (is js : List ℕ)
      (left : Sub l (s.read m) depth left_id ys is) (right : Sub l (s.read m) depth right_id zs js)
      (some_left : 0 < left_id) (some_right : 0 < right_id) (distinct : Distinct (is ++ js))
      (given : All (λ i. i < law.next m) (is ++ js)) (valid : All IsItem (ys ++ zs)) where
    sum_of_halves :
        (a b : Bytes)
        → a ≡ accum_from zero_accum ys
        → b ≡ accum_from zero_accum zs
        → add (add zero_accum a) b ≡ accum_from zero_accum (ys ++ zs)
    sum_of_halves a b ea eb =
        let both = All-split IsItem ys zs valid in
        ap₂ (λ (x y : Bytes). add (add zero_accum x) y) ea eb
        ∙ ap (λ (x : Bytes). add x (accum_from zero_accum zs))
            (sym (accum_from-add zero_accum ys zero-IsBuffer both.0))
        ∙ sym (
            accum_from-add (accum_from zero_accum ys) zs
              (accum_from-IsBuffer zero_accum ys zero-IsBuffer) both.1)
        ∙ sym (accum_from-append zero_accum ys zs)

    pub new_level-Planted :
        (m' : M) × (new_level s l m left_id right_id ≡ ok m')
        × Planted m' (ys ++ zs) (suc (suc depth))
    unfolding new_level key_at Top
    new_level-Planted =
        let (a, ka, kas, found_a, items_a, first_a, total_a, count_a) =
          top depth left_id ys is left in
        let (b, kb, kbs, found_b, items_b, first_b, total_b, count_b) =
          top depth right_id zs js right in
        build a ka kas b kb kbs found_a items_a first_a found_b items_b first_b
          (sum_of_halves a.accum b.accum total_a total_b)
          (ap₂ ◌+◌ count_a count_b ∙ sym (length-append ys zs))
      where
        build :
            (a : Node) (ka : Key) (kas : List Key) (b : Node) (kb : Key) (kbs : List Key)
            → s.read m left_id ≡ node_ptr left_id a
            → a.items ≡ ka ∷ kas
            → First ka.item ys
            → s.read m right_id ≡ node_ptr right_id b
            → b.items ≡ kb ∷ kbs
            → First kb.item zs
            → add (add zero_accum a.accum) b.accum ≡ accum_from zero_accum (ys ++ zs)
            → a.accum_count + b.accum_count ≡ length (ys ++ zs)
            → (m' : M) × (new_level s l m left_id right_id ≡ ok m')
              × Planted m' (ys ++ zs) (suc (suc depth))
        build a ka kas b kb kbs found_a items_a first_a found_b items_b first_b total count = (
          with_root s l law root m,
          simp (
            load_found s l m left_id a found_a,
            load_found s l m right_id b found_b,
            items_a,
            items_b,
          ),
          record {
            sound' = r.sound;
            next' = r.next;
            shape =
                Shape.rooted (suc depth) (law.next m ∷ (is ++ js))
                  (subst
                    (λ (id : ℕ).
                      Sub l (s.read m') (suc depth) id (ys ++ zs) (law.next m ∷ (is ++ js)))
                    (sym r.root) here)
                  (All-map (λ i h e. omega (arith, h, e)) (is ++ js) given, distinct)
                  (
                    omega (arith, r.next),
                    All-map (λ i h. omega (arith, h, r.next)) (is ++ js) given,
                  );
          },
        )
          where
            keys : List Key
            keys = record ka { node_id = left_id } ∷ record kb { node_id = right_id } ∷ []

            root : Node
            root = record (zero_node l) {
              num_items = 2;
              accum = add (add zero_accum a.accum) b.accum;
              accum_count = a.accum_count + b.accum_count;
              items = keys ++ drop 2 (replicate (suc l.max_items) zero_key);
            }

            m' : M
            m' = with_root s l law root m

            r : Rooted s l law m m' root
            r = with_root-Rooted s l law m root sound room refl

            given_both : All (λ i. i < law.next m) is × All (λ i. i < law.next m) js
            given_both = All-split (λ (i : ℕ). i < law.next m) is js given

            here : Sub l (s.read m') (suc depth) (law.next m) (ys ++ zs) (law.next m ∷ (is ++ js))
            here = record {
              node = root;
              keys = keys;
              below = is ++ js;
              found = r.at;
              slots = record {
                rest = drop 2 (replicate (suc l.max_items) zero_key);
                used = refl;
                full = refl;
                room = omega (
                  arith,
                  length-drop 2 (replicate (suc l.max_items) zero_key),
                  length-replicate (suc l.max_items) zero_key,
                  lim.threshold_below,
                  lim.min_below,
                );
                within = omega (arith, lim.threshold_below, lim.min_below);
              };
              some_key = omega arith;
              counts = record { count = count; total = total };
              own = refl;
              body = record {
                ys = ys;
                zs = zs;
                is = is;
                js = js;
                items_split = refl;
                ids_split = refl;
                some_id = some_left;
                first = first_a;
                held =
                    Sub-Agrees l (s.read m) (s.read m') depth left_id ys is (r.kept is given_both.0)
                      left;
                others = record {
                  ys = zs;
                  zs = [];
                  is = js;
                  js = [];
                  items_split = sym (append-nil zs);
                  ids_split = sym (append-nil js);
                  some_id = some_right;
                  first = first_b;
                  held =
                      Sub-Agrees l (s.read m) (s.read m') depth right_id zs js
                        (r.kept js given_both.1) right;
                  others = (refl, refl);
                };
              };
            }
