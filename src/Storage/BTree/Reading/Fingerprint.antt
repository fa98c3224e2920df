-- ===== src/Storage/BTree/Reading/Fingerprint.antt =====
-- The fingerprint of a range in a tree: what the nodes have added up gives the same as adding the
-- items of the range.
use negentropy.Prelude.{
  ℕ, zero, suc, ◌-◌, ◌≤◌, ◌<◌, ◌≡◌, refl, ap, sym, ◌∙◌, true, false, Bytes, List, [], ◌∷◌, ◌++◌,
  take, length, slice, All, take-split, arith, ltb, ◌==◌, inl, inr, ◌⊎◌, some, lt-or-le, map,
  if◌then◌else◌, length-append, ap₂,
}
use mathlib.Core.Path.{subst}
use negentropy.Prelude.Results.{Result, ok}
use negentropy.Types.{Item, IsItem}
use negentropy.Accumulator.{add, negate, zero_accum, accum_from, get_fingerprint}
use negentropy.Accumulator.Value.{IsBuffer, zero-IsBuffer}
use negentropy.Accumulator.Sums.{
  accum_from-IsBuffer, accum_from-append, accum_from-add, accum_from-range,
}
use negentropy.Storage.BTree.{Key, Node, NodePtr, deref}
use negentropy.Storage.BTree.Reading.{
  add_keys, descend, traverse_to_offset_aux, traverse_to_offset, size, check_bounds, accum_left_of,
  fingerprint,
}

-- What a node counts and adds up are the items under it.
pub record Counts (node : Node) (xs : List Item) : Type 0 where
  pub count : node.accum_count ≡ length xs
  pub total : node.accum ≡ accum_from zero_accum xs

-- The keys of a leaf are its items.
pub record Leaf (node : Node) (xs : List Item) : Type 0 where
  pub keys : List Key
  pub rest : List Key
  pub used : node.items ≡ keys ++ rest
  pub own : xs ≡ map (λ (k : Key). k.item) keys
  pub full : node.num_items ≡ length keys

module _ (read : ℕ → NodePtr) where
  -- The children under some keys hold items, one child after the other.
  pub data Children (Holds : Node → List Item → Type 0) : List Key → List Item → Type 0 where
    done : Children Holds [] []
    child :
        (k : Key) (node : Node) (ys : List Item) {ks : List Key} {zs : List Item}
        → read k.node_id ≡ record { p = some node; node_id = k.node_id }
        → Counts node ys
        → Holds node ys
        → Children Holds ks zs
        → Children Holds (k ∷ ks) (ys ++ zs)

  pub record Inner (Holds : Node → List Item → Type 0) (node : Node) (xs : List Item) : Type 0 where
    pub more : (node.num_items == node.accum_count) ≡ false
    pub children : Children Holds (take node.num_items node.items) xs

  -- A tree of at most `depth` levels under the node holds the items. An inner node has fewer keys than
  -- items under it.
  abbrev pub Holds : ℕ → Node → List Item → Type 0
  Holds zero node xs = ⊥
  Holds (suc depth) node xs =
      (Leaf node xs × (node.num_items ≡ node.accum_count)) ⊎ Inner (Holds depth) node xs

add_keys-take :
    (keys rest : List Key) (i : ℕ) (acc : Bytes)
    → i ≤ length keys
    → add_keys acc (take i (keys ++ rest))
      ≡ accum_from acc (take i (map (λ (k : Key). k.item) keys))
unfolding add_keys accum_from
add_keys-take keys rest zero acc h = refl
add_keys-take [] rest (suc i) acc h = absurd (omega arith)
add_keys-take (k ∷ keys) rest (suc i) acc h =
    add_keys-take keys rest i (add acc k.item.id) (omega arith)

pub length-map_item : (keys : List Key) → length (map (λ (k : Key). k.item) keys) ≡ length keys
length-map_item [] = refl
length-map_item (k ∷ keys) = ap suc (length-map_item keys)

take-front : (ys zs : List Item) (i : ℕ) → i ≤ length ys → take i (ys ++ zs) ≡ take i ys
take-front ys zs zero h = refl
take-front [] zs (suc i) h = absurd (omega arith)
take-front (y ∷ ys) zs (suc i) h = ap (◌∷◌ y) (take-front ys zs i (omega arith))

take-past :
    (ys zs : List Item) (i : ℕ) → length ys ≤ i → take i (ys ++ zs) ≡ ys ++ take (i - length ys) zs
take-past [] zs i h = ap (λ (n : ℕ). take n zs) (omega arith)
take-past (y ∷ ys) zs zero h = absurd (omega arith)
take-past (y ∷ ys) zs (suc i) h =
    ap (◌∷◌ y) (take-past ys zs i (omega arith) ∙ ap (λ (n : ℕ). ys ++ take n zs) (omega arith))

All-front : (ys zs : List Item) → All IsItem (ys ++ zs) → All IsItem ys
All-front [] zs a = tt
All-front (y ∷ ys) zs a = (a.0, All-front ys zs a.1)

All-back : (ys zs : List Item) → All IsItem (ys ++ zs) → All IsItem zs
All-back [] zs a = a
All-back (y ∷ ys) zs a = All-back ys zs a.1

All-take : (i : ℕ) (xs : List Item) → All IsItem xs → All IsItem (take i xs)
All-take zero xs a = tt
All-take (suc i) [] a = tt
All-take (suc i) (x ∷ xs) a = (a.0, All-take i xs a.1)

take-none : (i : ℕ) → take {A = Item} i [] ≡ []
take-none zero = refl
take-none (suc i) = refl

pub same_count :
    (node : Node) → node.num_items ≡ node.accum_count → (node.num_items == node.accum_count) ≡ true
same_count node e = ground arith

Leaf-total :
    (node : Node) (xs : List Item) (i : ℕ) (acc : Bytes)
    → Leaf node xs
    → i ≤ length xs
    → add_keys acc (take i node.items) ≡ accum_from acc (take i xs)
Leaf-total node xs i acc leaf h =
    ap (λ (ks : List Key). add_keys acc (take i ks)) leaf.used
    ∙ add_keys-take leaf.keys leaf.rest i acc
        (omega (arith, ap length leaf.own, length-map_item leaf.keys))
    ∙ ap (λ (its : List Item). accum_from acc (take i its)) (sym leaf.own)

-- Going past a child adds what it has added up.
past_child :
    (node : Node) (ys zs : List Item) (i : ℕ) (acc : Bytes)
    → Counts node ys
    → length ys ≤ i
    → IsBuffer acc
    → All IsItem ys
    → (add acc node.accum ≡ accum_from acc ys)
      × (accum_from (add acc node.accum) (take (i - node.accum_count) zs)
          ≡ accum_from acc (take i (ys ++ zs)))
past_child node ys zs i acc c h b a = (
  added,
  ap₂ accum_from added (ap (λ (n : ℕ). take (i - n) zs) c.count)
      ∙ sym (accum_from-append acc ys (take (i - length ys) zs))
      ∙ ap (accum_from acc) (sym (take-past ys zs i h)),
)
  where
    added : add acc node.accum ≡ accum_from acc ys
    added = ap (add acc) c.total ∙ sym (accum_from-add acc ys b a)

module _ (read : ℕ → NodePtr) where
  -- the callbacks of `accum_left_of`
  abbrev visit : ℕ → ℕ → Node → Bytes → Result Bytes
  visit depth =
      traverse_to_offset_aux read (λ node i accum. ok (add_keys accum (take i node.items)))
        (λ node accum. add accum node.accum) depth

  pub descend_step :
      {S : Type 0} (go : ℕ → Node → S → Result S) (custom : Node → S → S) (k : Key) (ks : List Key)
      (node : Node) (i : ℕ) (s : S)
      → read k.node_id ≡ record { p = some node; node_id = k.node_id }
      → descend read go custom (k ∷ ks) i s ≡ (
          if ltb i node.accum_count
          then go i node s
          else descend read go custom ks (i - node.accum_count) (custom node s))
  unfolding descend deref
  descend_step go custom k ks node i s h = simp h

  descend_total :
      (Held : Node → List Item → Type 0) (go : ℕ → Node → Bytes → Result Bytes)
      → ((node : Node) (xs : List Item) (i : ℕ) (acc : Bytes)
          → Held node xs
          → i ≤ length xs
          → IsBuffer acc
          → All IsItem xs
          → go i node acc ≡ ok (accum_from acc (take i xs)))
      → (ks : List Key) (xs : List Item) (i : ℕ) (acc : Bytes) → Children read Held ks xs
      → i ≤ length xs
      → IsBuffer acc
      → All IsItem xs
      → descend read go (λ node accum. add accum node.accum) ks i acc
        ≡ ok (accum_from acc (take i xs))
  descend_total Held go ih _ _ i acc Children.done h b a =
      unfold descend accum_from in
      ap (λ (xs : List Item). ok (accum_from acc xs)) (sym (take-none i))
  descend_total Held go ih _ _ i acc (Children.child k node ys {ks} {zs} at c held rest) h b a =
      descend_step go _ k ks node i acc at ∙ elim (lt-or-le i (length ys)) [
        | inl inside ↦ rw (within inside) (
            ih node ys i acc held (omega arith) b (All-front ys zs a)
            ∙ ap (λ (xs : List Item). ok (accum_from acc xs))
                (sym (take-front ys zs i (omega arith))))
        | inr past ↦
            let (added, same) = past_child node ys zs i acc c past b (All-front ys zs a) in
            rw (beyond past) (
              descend_total Held go ih ks zs (i - node.accum_count) (add acc node.accum) rest
                (omega (arith, c.count, length-append ys zs))
                (rw added (accum_from-IsBuffer acc ys b)) (All-back ys zs a)
              ∙ ap ok same)
      ]
    where
      within : i < length ys → ltb i node.accum_count ≡ true
      within p = ground (arith, c.count)

      beyond : length ys ≤ i → ltb i node.accum_count ≡ false
      beyond p = ground (arith, c.count)

  -- In a tree that holds items, the walk to an offset adds up the items before it.
  traverse_total :
      (depth : ℕ) (node : Node) (xs : List Item) (i : ℕ) (acc : Bytes)
      → Holds read depth node xs
      → i ≤ length xs
      → IsBuffer acc
      → All IsItem xs
      → visit depth i node acc ≡ ok (accum_from acc (take i xs))
  unfolding traverse_to_offset_aux
  traverse_total zero node xs i acc held h b a = absurd held
  traverse_total (suc depth) node xs i acc (inl (leaf, whole)) h b a =
      rw (same_count node whole) (ap ok (Leaf-total node xs i acc leaf h))
  traverse_total (suc depth) node xs i acc (inr inner) h b a = rw inner.more (
      descend_total (Holds read depth) (visit depth)
        (λ node' ys j acc' held' h' b' a'. traverse_total depth node' ys j acc' held' h' b' a') _ xs
        i acc inner.children h b a)

module _ (read : ℕ → NodePtr) (root_id depth : ℕ) where
  -- The tree under the root holds the items.
  pub record HoldsRoot (root : Node) (xs : List Item) : Type 0 where
    pub at_root : read root_id ≡ record { p = some root; node_id = root_id }
    pub counts : Counts root xs
    pub held : Holds read depth root xs
    pub valid : All IsItem xs

  size_root :
      (root : Node) (xs : List Item) → HoldsRoot root xs → size read root_id depth ≡ ok (length xs)
  unfolding size
  size_root root xs t = ground (arith, t.at_root, t.counts.count)

  traverse_root :
      (go : Node → ℕ → Bytes → Result Bytes) (custom : Node → Bytes → Bytes) (root : Node)
      (xs : List Item) (i : ℕ) (acc : Bytes)
      → HoldsRoot root xs
      → i ≤ length xs
      → traverse_to_offset read root_id depth go custom i acc
        ≡ traverse_to_offset_aux read go custom depth i root acc
  unfolding traverse_to_offset
  traverse_root go custom root xs i acc t h = ground (arith, t.at_root, t.counts.count)

  accum_left_of_total :
      (root : Node) (xs : List Item) (i : ℕ)
      → HoldsRoot root xs
      → i ≤ length xs
      → accum_left_of read root_id depth i ≡ ok (accum_from zero_accum (take i xs))
  unfolding accum_left_of
  accum_left_of_total root xs i t h =
      traverse_root _ _ root xs i zero_accum t h
      ∙ traverse_total read depth root xs i zero_accum t.held h zero-IsBuffer t.valid

  inside_tree :
      (root : Node) (xs : List Item) (begin end : ℕ)
      → HoldsRoot root xs
      → begin ≤ end
      → end ≤ length xs
      → check_bounds read root_id depth begin end ≡ ok tt
  unfolding check_bounds
  inside_tree root xs begin end t h k = rw (size_root root xs t) (ground arith)

  -- In a tree that holds valid items, whose nodes count and add up the items under them, the
  -- fingerprint of a range is the hash of the sum of exactly its items and of their number, the same
  -- that a vector of the items gives.
  pub fingerprint_total :
      (sha256 : Bytes → Bytes) (root : Node) (xs : List Item) (begin end : ℕ)
      → HoldsRoot root xs
      → begin ≤ end
      → end ≤ length xs
      → fingerprint read root_id depth sha256 begin end
        ≡ ok (get_fingerprint sha256 (accum_from zero_accum (slice begin end xs)) (end - begin))
  unfolding fingerprint
  fingerprint_total sha256 root xs begin end t h k =
      rw
        (
          inside_tree root xs begin end t h k,
          accum_left_of_total root xs begin t (omega arith),
          accum_left_of_total root xs end t k,
        )
        (ap (λ (accum : Bytes). ok (get_fingerprint sha256 accum (end - begin))) difference)
    where
      prefix : take end xs ≡ take begin xs ++ slice begin end xs
      prefix = ap (λ (n : ℕ). take n xs) (omega arith) ∙ sym (take-split begin (end - begin) xs)

      slice_valid : All IsItem (slice begin end xs)
      slice_valid = All-back (take begin xs) _ (subst (All IsItem) prefix (All-take end xs t.valid))

      difference :
          add (accum_from zero_accum (take end xs)) (negate (accum_from zero_accum (take begin xs)))
          ≡ accum_from zero_accum (slice begin end xs)
      difference =
          ap
            (λ (its : List Item).
              add (accum_from zero_accum its) (negate (accum_from zero_accum (take begin xs))))
            prefix
          ∙ accum_from-range (take begin xs) (slice begin end xs) (All-take begin xs t.valid)
              slice_valid
