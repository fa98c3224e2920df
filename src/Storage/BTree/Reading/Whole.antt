-- ===== src/Storage/BTree/Reading/Whole.antt =====
-- What the storage interface answers for a tree as insertion keeps it: its size, and the fingerprints of
-- its ranges.
use negentropy.Prelude.{
  ℕ, zero, suc, ◌+◌, ◌-◌, ◌≤◌, ◌<◌, ◌≡◌, ap, sym, ◌∙◌, Bytes, List, [], ◌∷◌, ◌++◌, length,
  length-append, slice, map, All, arith, ◌==◌, inl, inr, Bool-cases,
}
use mathlib.Core.Path.{subst}
use negentropy.Prelude.Results.{ok}
use negentropy.Types.{Item, IsItem}
use negentropy.Accumulator.{zero_accum, accum_from, get_fingerprint}
use negentropy.Accumulator.Sums.{accum_from-range}
use negentropy.Storage.BTree.{Limits, Key, Node, NodePtr, node_ptr, NodeStore}
use negentropy.Storage.BTree.Shape.{Sub, LeafKeys, Below, First, item_of}
use negentropy.Storage.BTree.Laws.{StoreLaws}
use negentropy.Storage.BTree.Tree.{IsTree, Shape}
use negentropy.Storage.BTree.Insert.Steps.{take-Slots}
use negentropy.Storage.BTree.Reading.{
  size, fingerprint, traverse_to_offset, accum_left_of, check_bounds,
}
use negentropy.Storage.BTree.Reading.Fingerprint.{
  Counts, Children, Holds, length-map_item, fingerprint_total,
}

First-length : (a : Item) (xs : List Item) → First a xs → 0 < length xs
First-length a [] f = absurd f
First-length a (x ∷ xs) f = omega arith

module _ (l : Limits) (read : ℕ → NodePtr) where
  Below-length :
      (Held : ℕ → List Item → List ℕ → Type 0) (keys : List Key) (xs : List Item) (below : List ℕ)
      → Below l read Held keys xs below
      → length keys ≤ length xs
  Below-length Held [] xs below b = omega arith
  Below-length Held (k ∷ ks) xs below b = omega (
    arith,
    ap length b.items_split,
    length-append b.ys b.zs,
    First-length k.item b.ys b.first,
    Below-length Held ks b.zs b.js b.others,
  )

  one_item : (a : Item) (ys : List Item) → First a ys → length ys ≤ 1 → ys ≡ a ∷ []
  one_item a [] f h = absurd f
  one_item a (y ∷ []) f h = ap (λ (i : Item). i ∷ []) (sym f)
  one_item a (y ∷ y' ∷ ys) f h = absurd (omega (arith, h))

  -- With one item under each key, the keys are the items.
  Below-single :
      (Held : ℕ → List Item → List ℕ → Type 0) (keys : List Key) (xs : List Item) (below : List ℕ)
      → Below l read Held keys xs below
      → length xs ≡ length keys
      → xs ≡ map item_of keys
  Below-single Held [] xs below b h = b.0
  Below-single Held (k ∷ ks) xs below b h =
      let total : length b.ys + length b.zs ≡ suc (length ks) =
        sym (length-append b.ys b.zs) ∙ ap length (sym b.items_split) ∙ h in
      let some_more = Below-length Held ks b.zs b.js b.others in
      let some_own = First-length k.item b.ys b.first in
      b.items_split
      ∙ ap (λ (its : List Item). its ++ b.zs) (one_item k.item b.ys b.first (omega arith))
      ∙ ap (◌∷◌ k.item) (Below-single Held ks b.zs b.js b.others (omega arith))

  abbrev pub Walked : ℕ → ℕ → List Item → Type 0
  Walked fuel id xs =
      (node : Node) × (read id ≡ node_ptr id node) × Counts node xs × Holds read fuel node xs

  Sub-Children :
      (depth fuel : ℕ) (keys : List Key) (xs : List Item) (below : List ℕ)
      → ((id : ℕ) (ys : List Item) (is : List ℕ) → Sub l read depth id ys is → Walked fuel id ys)
      → Below l read (Sub l read depth) keys xs below
      → Children read (Holds read fuel) keys xs
  Sub-Children depth fuel [] xs below child b =
      subst (Children read (Holds read fuel) []) (sym b.0) Children.done
  Sub-Children depth fuel (k ∷ ks) xs below child b =
      let (node, found, counts, held) = child k.node_id b.ys b.is b.held in
      subst (Children read (Holds read fuel) (k ∷ ks)) (sym b.items_split) (
        Children.child k node b.ys found counts held
          (Sub-Children depth fuel ks b.zs b.js child b.others))

  -- A tree by its levels is a tree as the walk to an offset sees it.
  pub Sub-Holds :
      (depth fuel id : ℕ) (xs : List Item) (ids : List ℕ)
      → suc depth ≤ fuel
      → Sub l read depth id xs ids
      → Walked fuel id xs
  Sub-Holds depth zero id xs ids h t = absurd (omega (arith, h))
  Sub-Holds zero (suc fuel) id xs ids h t =
      let leaf : LeafKeys t.keys xs t.below = t.body in
      (
        t.node,
        t.found,
        record { count = t.counts.count; total = t.counts.total },
        inl (
          record {
            keys = t.keys;
            rest = t.slots.rest;
            used = t.slots.used;
            own = leaf.own;
            full = t.slots.full;
          },
          omega (arith, t.slots.full, t.counts.count, ap length leaf.own, length-map_item t.keys),
        ),
      )
  Sub-Holds (suc depth) (suc fuel) id xs ids h t = (
    t.node,
    t.found,
    record { count = t.counts.count; total = t.counts.total },
    elim (Bool-cases (t.node.num_items == t.node.accum_count)) [
      | inl same ↦
          let equal : t.node.num_items ≡ t.node.accum_count = ground (arith, same) in
          inl (
            record {
              keys = t.keys;
              rest = t.slots.rest;
              used = t.slots.used;
              own =
                  Below-single (Sub l read depth) t.keys xs t.below t.body
                    (omega (arith, t.slots.full, t.counts.count, equal));
              full = t.slots.full;
            },
            equal,
          )
      | inr more ↦ inr (record {
        more = more;
        children =
            subst (λ (ks : List Key). Children read (Holds read fuel) ks xs)
              (sym (take-Slots t.slots))
              (Sub-Children depth fuel t.keys xs t.below
                (λ id' ys is held. Sub-Holds depth fuel id' ys is (omega (arith, h)) held) t.body);
      })
    ],
  )

module _ {M : Type 0} (s : NodeStore M) (l : Limits) (law : StoreLaws l s) (m : M) where
  pub empty_size : (fuel : ℕ) → size (s.read m) 0 fuel ≡ ok 0
  unfolding size
  empty_size fuel = ground (arith, law.read_zero m)

module _ {M : Type 0} (s : NodeStore M) (l : Limits) (law : StoreLaws l s) (sha256 : Bytes → Bytes)
    (m : M) where
  rooted_fingerprint :
      (depth fuel : ℕ) (xs : List Item) (ids : List ℕ) (begin end : ℕ)
      → Sub l (s.read m) depth (s.get_root m) xs ids
      → suc depth ≤ fuel
      → All IsItem xs
      → begin ≤ end
      → end ≤ length xs
      → fingerprint (s.read m) (s.get_root m) fuel sha256 begin end
        ≡ ok (get_fingerprint sha256 (accum_from zero_accum (slice begin end xs)) (end - begin))
  rooted_fingerprint depth fuel xs ids begin end t enough valid h k =
      let (node, found, counts, held) =
        Sub-Holds l (s.read m) depth fuel (s.get_root m) xs ids enough t in
      fingerprint_total (s.read m) (s.get_root m) fuel sha256 node xs begin end
        (record { at_root = found; counts = counts; held = held; valid = valid }) h k

  empty_bounds : (fuel : ℕ) → check_bounds (s.read m) 0 fuel 0 0 ≡ ok tt
  unfolding check_bounds
  empty_bounds fuel = rw (empty_size s l law m fuel) (ground arith)

  empty_accum : (fuel : ℕ) → accum_left_of (s.read m) 0 fuel 0 ≡ ok zero_accum
  unfolding accum_left_of traverse_to_offset
  empty_accum fuel = ground (arith, law.read_zero m)

  empty_fingerprint :
      (fuel : ℕ)
      → s.get_root m ≡ 0
      → fingerprint (s.read m) (s.get_root m) fuel sha256 0 0
        ≡ ok (get_fingerprint sha256 (accum_from zero_accum []) 0)
  unfolding fingerprint accum_from
  empty_fingerprint fuel at_none =
      ap (λ (id : ℕ). fingerprint (s.read m) id fuel sha256 0 0) at_none
      ∙ rw (empty_bounds fuel, empty_accum fuel)
          (ap (λ (accum : Bytes). ok (get_fingerprint sha256 accum 0))
            (accum_from-range [] [] tt tt))

  -- Over a store of nodes that keeps its contract, a tree as insertion keeps it, with fuel not below its
  -- levels, gives for each range the hash of the sum of exactly its items and of their number.
  pub tree_fingerprint :
      (xs : List Item) (levels fuel begin end : ℕ)
      → IsTree s l law m xs levels
      → levels ≤ fuel
      → begin ≤ end
      → end ≤ length xs
      → fingerprint (s.read m) (s.get_root m) fuel sha256 begin end
        ≡ ok (get_fingerprint sha256 (accum_from zero_accum (slice begin end xs)) (end - begin))
  tree_fingerprint xs levels fuel begin end tree enough h k =
      by_shape xs begin end tree.shape tree.valid enough h k
    where
      by_shape :
          {n : ℕ} (its : List Item) (i j : ℕ)
          → Shape s l law m its n
          → All IsItem its
          → n ≤ fuel
          → i ≤ j
          → j ≤ length its
          → fingerprint (s.read m) (s.get_root m) fuel sha256 i j
            ≡ ok (get_fingerprint sha256 (accum_from zero_accum (slice i j its)) (j - i))
      by_shape its i j (Shape.rooted depth ids t _ _) valid e p q =
          rooted_fingerprint depth fuel its ids i j t e valid p q
      by_shape [] zero zero (Shape.no_root at_none no_items) valid e p q =
          empty_fingerprint fuel at_none
      by_shape [] i (suc j) (Shape.no_root at_none no_items) valid e p q = absurd (omega (arith, q))
      by_shape [] (suc i) zero (Shape.no_root at_none no_items) valid e p q =
          absurd (omega (arith, p))
      by_shape (x ∷ its) i j (Shape.no_root at_none no_items) valid e p q =
          absurd (omega (arith, ap length no_items))
