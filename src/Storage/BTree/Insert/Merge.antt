-- ===== src/Storage/BTree/Insert/Merge.antt =====
-- Where a new key lands among the sorted keys of a node.
use negentropy.Prelude.{
  ◌≡◌, refl, ap, true, false, List, [], ◌∷◌, ◌++◌, map, All, arith, Bool-cases, inl, inr,
}
use negentropy.Types.{item_lt}
use negentropy.Types.Order.{item_eq_iff, item_lt-total, item_lt-asym}
use negentropy.Storage.Vector.{insert_sorted}
use negentropy.Storage.Ordered.{has, HeadOver}
use negentropy.Storage.BTree.{Key}
use negentropy.Storage.BTree.Shape.{item_of}
use negentropy.Storage.BTree.Insert.{merge_key}

-- right behind a key that is not above it
pub merge_key-behind :
    (key : Key) (front : List Key) (k : Key) (back : List Key)
    → All (λ (e : Key). item_lt key.item e.item ≡ false) front
    → item_lt key.item k.item ≡ false
    → HeadOver key.item (map item_of back)
    → merge_key key (front ++ (k ∷ back)) ≡ front ++ (k ∷ key ∷ back)
unfolding merge_key
merge_key-behind key [] k [] a h o = rw h refl
merge_key-behind key [] k (b ∷ back) a h o = rw (h, o) refl
merge_key-behind key (q ∷ front) k back a h o =
    rw a.0 (ap (◌∷◌ q) (merge_key-behind key front k back a.1 h o))

pub map-merge_key :
    (key : Key) (keys : List Key)
    → has key.item (map item_of keys) ≡ false
    → map item_of (merge_key key keys) ≡ insert_sorted key.item (map item_of keys)
unfolding merge_key insert_sorted has
map-merge_key key [] h = refl
map-merge_key key (k ∷ ks) h = elim (Bool-cases (item_lt key.item k.item)) [
  | inl above ↦ rw (above, item_lt-asym key.item k.item above) refl
  | inr not_above ↦
      let under : item_lt k.item key.item ≡ true =
        ground (arith, item_eq_iff key.item k.item, item_lt-total key.item k.item) in
      let rest : has key.item (map item_of ks) ≡ false = ground arith in
      rw (not_above, under) (ap (◌∷◌ k.item) (map-merge_key key ks rest))
]

pub All-merge_key :
    (P : Key → Type 0) (key : Key) (keys : List Key)
    → P key
    → All P keys
    → All P (merge_key key keys)
unfolding merge_key
All-merge_key P key [] p a = (p, tt)
All-merge_key P key (k ∷ ks) p a = elim (Bool-cases (item_lt key.item k.item)) [
  | inl above ↦ rw above (p, a)
  | inr not_above ↦ rw not_above (a.0, All-merge_key P key ks p a.1)
]

-- there is a first key afterwards
pub merge_key_first :
    (key : Key) (keys : List Key) → (k : Key) × (ks : List Key) × (merge_key key keys ≡ k ∷ ks)
unfolding merge_key
merge_key_first key [] = (key, [], refl)
merge_key_first key (k ∷ ks) = elim (Bool-cases (item_lt key.item k.item)) [
  | inl above ↦ (key, k ∷ ks, rw above refl)
  | inr not_above ↦ (k, merge_key key ks, rw not_above refl)
]
