-- ===== src/Storage/BTree/Search/Pick.antt =====
-- Which key of a node the search goes on with: the last one that is not above the item, or the first.
use negentropy.Prelude.{
  ℕ, suc, ◌+◌, ◌<◌, ◌≡◌, refl, ap, ◌∙◌, true, false, List, [], ◌∷◌, ◌++◌, length, take, drop, map,
  arith, sub_u64, sub_u64_lem, u64_mod, ltb, ◌⊎◌, inl, inr, Bool-cases,
}
use mathlib.Core.Path.{subst}
use negentropy.Types.{Item, item_lt}
use negentropy.Storage.Ordered.{HeadOver}
use negentropy.Storage.BTree.{Limits, Key, Node}
use negentropy.Storage.BTree.Search.{pick_index, index_for}
use negentropy.Storage.BTree.Shape.{Slots, item_of}

-- the key at place `i` of those from place `b` on, and the keys around it
pub record Picked (v : Item) (keys : List Key) (b i : ℕ) : Type 0 where
  pub front : List Key
  pub key : Key
  pub back : List Key
  pub parts : keys ≡ front ++ (key ∷ back)
  pub place : b + length front ≡ i
  pub lower : (front ≡ []) ⊎ (item_lt v key.item ≡ false)
  pub upper : HeadOver v (map item_of back)

pick_first :
    (v : Item) (prev : Key) (ks : List Key) (b : ℕ)
    → HeadOver v (map item_of ks)
    → Picked v (prev ∷ ks) b b
pick_first v prev ks b h = record {
  front = [];
  key = prev;
  back = ks;
  parts = refl;
  place = omega arith;
  lower = inl refl;
  upper = h;
}

pick_later :
    (v : Item) (prev k : Key) (ks : List Key) (b i : ℕ)
    → item_lt v k.item ≡ false
    → Picked v (k ∷ ks) (suc b) i
    → Picked v (prev ∷ k ∷ ks) b i
pick_later v prev k ks b i h p = record {
  front = prev ∷ p.front;
  key = p.key;
  back = p.back;
  parts = ap (◌∷◌ prev) p.parts;
  place = omega (arith, p.place);
  lower = inr (not_above p.front p.parts p.lower);
  upper = p.upper;
}
  where
    not_above :
        (front : List Key)
        → k ∷ ks ≡ front ++ (p.key ∷ p.back)
        → (front ≡ []) ⊎ (item_lt v p.key.item ≡ false)
        → item_lt v p.key.item ≡ false
    not_above [] e c =
        let same : k ≡ p.key = cc in subst (λ (q : Key). item_lt v q.item ≡ false) same h
    not_above (q ∷ qs) e (inl none) = absurd (omega (arith, ap length none))
    not_above (q ∷ qs) e (inr c) = c

-- The loop, over the keys behind `prev` and at most one more.
pick_index_lem :
    (v : Item) (prev : Key) (ks rest : List Key) (b index : ℕ)
    → index ≡ b + length ks
    → Picked v (prev ∷ ks) b (pick_index v b (take (suc (length ks)) (ks ++ rest)) index)
unfolding pick_index
pick_index_lem v prev [] [] b index e =
    subst (Picked v (prev ∷ []) b) (omega (arith, e)) (pick_first v prev [] b tt)
pick_index_lem v prev [] (r ∷ rest) b index e =
    subst (Picked v (prev ∷ []) b) (ground (arith, e)) (pick_first v prev [] b tt)
pick_index_lem v prev (k ∷ ks) rest b index e = elim (Bool-cases (item_lt v k.item)) [
  | inl above ↦ rw above (pick_first v prev (k ∷ ks) b above)
  | inr below ↦ rw below (
      pick_later v prev k ks b (pick_index v (suc b) (take (suc (length ks)) (ks ++ rest)) index)
        below (pick_index_lem v k ks rest (suc b) index (omega (arith, e))))
]

pub index_for_lem :
    (l : Limits) (v : Item) (node : Node) (keys : List Key)
    → Slots l node keys
    → 0 < length keys
    → length keys < u64_mod
    → Picked v keys 0 (index_for v node)
unfolding index_for
index_for_lem l v node [] slots h w = absurd (omega (arith, h))
index_for_lem l v node (k ∷ []) slots h w =
    let last : sub_u64 node.num_items 1 ≡ 0 =
      sub_u64_lem node.num_items 1 (omega (arith, slots.full)) (omega (arith, slots.full))
      ∙ omega (arith, slots.full) in
    let one : ltb 1 node.num_items ≡ false = ground (arith, slots.full) in
    rw (one, last) (pick_first v k [] 0 tt)
index_for_lem l v node (k ∷ k' ∷ ks) slots h w =
    let last : sub_u64 node.num_items 1 ≡ suc (length ks) =
      sub_u64_lem node.num_items 1 (omega (arith, slots.full)) (omega (arith, slots.full, w))
      ∙ omega (arith, slots.full) in
    let many : ltb 1 node.num_items ≡ true = ground (arith, slots.full) in
    let keys_left : take node.num_items (drop 1 node.items)
        ≡ take (suc (length (k' ∷ ks))) ((k' ∷ ks) ++ slots.rest) =
      ap (λ (n : ℕ). take n (drop 1 node.items)) slots.full
      ∙ ap (λ (its : List Key). take (suc (length (k' ∷ ks))) (drop 1 its)) slots.used in
    rw (many, last, keys_left)
      (pick_index_lem v k (k' ∷ ks) slots.rest 0 (suc (length ks)) (omega arith))
