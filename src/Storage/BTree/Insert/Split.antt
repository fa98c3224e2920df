-- ===== src/Storage/BTree/Insert/Split.antt =====
-- A full node cut into two: both halves hold their items, and the store links them.
use negentropy.Prelude.{
  ℕ, suc, ◌+◌, ◌-◌, ◌/◌, ◌≤◌, ◌<◌, ◌≡◌, refl, ap, sym, ◌∙◌, List, [], ◌∷◌, ◌++◌, take, drop, length,
  arith, ◌==◌, if◌then◌else◌, inl, inr, replicate, u64_mod, Bool-cases,
}
use native.Mathlib.Nat.{zero-add}
use negentropy.Prelude.Results.{ok}
use negentropy.Types.{Item}
use negentropy.Accumulator.{zero_accum, accum_from}
use negentropy.Storage.BTree.{
  Limits, IsLimits, Key, Node, zero_node, zero_key, node_ptr, overlay, NodeStore, key_at,
}
use negentropy.Storage.BTree.Shape.{Slots, SameKeys}
use negentropy.Storage.BTree.Laws.{StoreLaws}
use negentropy.Storage.BTree.Changes.{
  Sound, Change, Change-trans, write_Change, make_Change, set_prev-Change, Sibling, Sibling-stays,
  read_same, read_made, read_before, read_other,
}
use negentropy.Storage.BTree.Insert.{merge_key, add_to_accum, split_node, split_at, set_prev}
use negentropy.Storage.BTree.Insert.Steps.{take-Slots}

-- how many keys the halves get
pub record Cut (l : Limits) (next_sibling nl nr : ℕ) : Type 0 where
  pub left_is : (if next_sibling == 0 then l.max_items else l.max_items / 2 + 1) ≡ nl
  pub right_is : (if next_sibling == 0 then 1 else l.max_items / 2) ≡ nr
  pub whole : nl + nr ≡ suc l.max_items
  pub some_left : 0 < nl
  pub some_right : 0 < nr
  pub left_fits : nl ≤ l.max_items
  pub right_fits : nr ≤ l.max_items

pub cut : (l : Limits) → IsLimits l → (id : ℕ) → (nl : ℕ) × (nr : ℕ) × Cut l id nl nr
cut l h id = elim (Bool-cases (id == 0)) [
  | inl last ↦ (
    l.max_items,
    1,
    record {
      left_is = rw last;
      right_is = rw last;
      whole = omega arith;
      some_left = omega (arith, h.threshold_below);
      some_right = omega arith;
      left_fits = omega arith;
      right_fits = omega (arith, h.threshold_below);
    },
  )
  | inr inside ↦ (
    l.max_items / 2 + 1,
    l.max_items / 2,
    record {
      left_is = rw inside;
      right_is = rw inside;
      whole = omega (arith, h.even_max);
      some_left = omega arith;
      some_right = omega (arith, h.half_above);
      left_fits = omega (arith, h.half_above, h.even_max);
      right_fits = omega arith;
    },
  )
]

module _ {M : Type 0} (s : NodeStore M) (l : Limits) where
  -- both halves, as `split_node` makes them
  unfoldable pub left_half : Node → List Key → List Item → Node
  left_half node ks ys = record node {
    num_items = length ks;
    accum = accum_from zero_accum ys;
    accum_count = length ys;
    items = ks ++ replicate (l.max_items + 1 - length ks) zero_key;
  }

  unfoldable pub right_half : List Key → List Item → Node
  right_half ks zs = record (zero_node l) {
    num_items = length ks;
    accum = accum_from zero_accum zs;
    accum_count = length zs;
    items = overlay 0 ks (replicate (suc l.max_items) zero_key);
  }

  take_left : (ks ks' : List Key) → take (length ks) (ks ++ ks') ≡ ks
  take_left [] ks' = refl
  take_left (k ∷ ks) ks' = ap (◌∷◌ k) (take_left ks ks')

  drop_left : (ks ks' : List Key) → drop (length ks) (ks ++ ks') ≡ ks'
  drop_left [] ks' = refl
  drop_left (k ∷ ks) ks' = drop_left ks ks'

  take_all : (ks : List Key) → take (length ks) ks ≡ ks
  take_all [] = refl
  take_all (k ∷ ks) = ap (◌∷◌ k) (take_all ks)

  pub split_node_lem :
      (m : M) (key : Key) (node : Node) (keys ks ks' : List Key) (ys zs : List Item) (nl nr : ℕ)
      → Slots l node keys
      → length keys ≡ l.max_items
      → Cut l node.next_sibling nl nr
      → merge_key key keys ≡ ks ++ ks'
      → length ks ≡ nl
      → length ks' ≡ nr
      → add_to_accum s l m ks (zero_accum, 0) ≡ ok (accum_from zero_accum ys, 0 + length ys)
      → add_to_accum s l m ks' (zero_accum, 0) ≡ ok (accum_from zero_accum zs, 0 + length zs)
      → split_node s l m key node ≡ ok (left_half node ks ys, right_half ks' zs)
  unfolding split_node left_half right_half
  split_node_lem m key node keys ks ks' ys zs nl nr sl full c e el er al ar =
      let whole : merge_key key (take l.max_items node.items) ≡ ks ++ ks' =
        ap (λ (n : ℕ). merge_key key (take n node.items)) (sym full ∙ sym sl.full)
        ∙ ap (merge_key key) (take-Slots sl)
        ∙ e in
      let front : take nl (ks ++ ks') ≡ ks = rw⁻¹ el (take_left ks ks') in
      let back : take nr (drop nl (ks ++ ks')) ≡ ks' =
        ap (λ (n : ℕ). take nr (drop n (ks ++ ks'))) (sym el)
        ∙ ap (take nr) (drop_left ks ks')
        ∙ ap (λ (n : ℕ). take n ks') (sym er)
        ∙ take_all ks' in
      simp (whole, c.left_is, c.right_is, front, back, al, ar, zero-add, el, er)

  split_at_ok :
      (m m' : M) (id rid : ℕ) (key first : Key) (node left right : Node)
      → (s.make m).1 ≡ node_ptr rid (zero_node l)
      → split_node s l (s.make m).0 key node ≡ ok (left, right)
      → set_prev s l node.next_sibling rid (
          s.write rid
            (record right { next_sibling = node.next_sibling; prev_sibling = id })
            (s.write id (record left { next_sibling = rid }) (s.make m).0))
        ≡ ok m'
      → key_at right 0 ≡ ok first
      → split_at s l m id key node
        ≡ ok (m', record left { next_sibling = rid }, record { item = first.item; node_id = rid })
  unfolding split_at
  split_at_ok m m' id rid key first node left right ptr e set at = simp (ptr, e, set, at)

  key_at_first :
      (node : Node) (k : Key) (ks : List Key) → node.items ≡ k ∷ ks → key_at node 0 ≡ ok k
  unfolding key_at
  key_at_first node k ks e = rw e

module _ {M : Type 0} (s : NodeStore M) (l : Limits) (law : StoreLaws l s) (m : M)
    (sound : Sound s l law m) (room : law.next m + 1 < u64_mod) (id : ℕ) (node : Node)
    (found : s.read m id ≡ node_ptr id node) (left right : Node)
    (left_next : left.next_sibling ≡ node.next_sibling) where
  -- the store after the halves are linked
  pub record Linking (k : Key) (ks : List Key) : Type 0 where
    pub store : M
    pub split_ok :
        (key : Key)
        → split_node s l (s.make m).0 key node ≡ ok (left, right)
        → split_at s l m id key node
          ≡ ok (
            store,
            record left { next_sibling = law.next m },
            record { item = k.item; node_id = law.next m },
          )
    pub change : Change s l law m store (id ∷ [])
    pub same_next : law.next store ≡ law.next m + 1
    pub left_there : (n : Node) × (s.read store id ≡ node_ptr id n)
    pub right_there :
        (n : Node) × (s.read store (law.next m) ≡ node_ptr (law.next m) n) × SameKeys right n

  pub link : (k : Key) (ks : List Key) → right.items ≡ k ∷ ks → Linking k ks
  link k ks first_right = record {
    store = m4;
    split_ok = λ key e.
        split_at_ok s l m m4 id rid key k node left right ptr e prev_set
          (key_at_first s l right k ks first_right);
    change = Change-trans s l law m m3 m4 (id ∷ []) [] (id ∷ []) c3 c4 (λ i lt a. (a, tt));
    same_next =
        next4
        ∙ law.next-write m2 rid right'
        ∙ law.next-write m1 id left'
        ∙ law.next-make m sound.valid room;
    left_there = c4.stays id left' left3;
    right_there =
        let (n', e', same) =
          c4.kept rid tt
            (omega (
              arith,
              law.next-write m2 rid right',
              law.next-write m1 id left',
              law.next-make m sound.valid room,
            ))
            right' (read_same s l law m2 rid right' (zero_node l) c2.sound.valid rid2) in
        (
          n',
          e',
          record {
            num_items = same.num_items;
            accum_count = same.accum_count;
            accum = same.accum;
            items = same.items;
          },
        );
  }
    where
      rid : ℕ
      rid = law.next m

      id_before : id < rid
      id_before = law.read_next m id node sound.valid found

      m1 : M
      m1 = (s.make m).0

      ptr : (s.make m).1 ≡ node_ptr rid (zero_node l)
      ptr = law.make_ptr m sound.valid room

      c1 : Change s l law m m1 []
      c1 = make_Change s l law m sound room

      left' : Node
      left' = record left { next_sibling = rid }

      right' : Node
      right' = record right { next_sibling = node.next_sibling; prev_sibling = id }

      m2 : M
      m2 = s.write id left' m1

      found1 : s.read m1 id ≡ node_ptr id node
      found1 = read_before s l law m sound room id id_before ∙ found

      c2 : Change s l law m1 m2 (id ∷ [])
      c2 =
          write_Change s l law m1 id left' node c1.sound.valid found1 c1.sound.linked
            (inr (zero_node l, read_made s l law m sound room))

      rid2 : s.read m2 rid ≡ node_ptr rid (zero_node l)
      rid2 =
          read_other s l law m1 id left' node c1.sound.valid found1 rid (omega (arith, id_before))
          ∙ read_made s l law m sound room

      next_there : Sibling s l law m node.next_sibling
      next_there = sound.linked id node found

      next_there2 : Sibling s l law m2 node.next_sibling
      next_there2 =
          Sibling-stays s l law m1 m2 (id ∷ []) node.next_sibling c2
            (Sibling-stays s l law m m1 [] node.next_sibling c1 next_there)

      m3 : M
      m3 = s.write rid right' m2

      cw : Change s l law m2 m3 (rid ∷ [])
      cw =
          write_Change s l law m2 rid right' (zero_node l) c2.sound.valid rid2 c2.sound.linked
            next_there2

      c3 : Change s l law m m3 (id ∷ [])
      c3 =
          Change-trans s l law m m2 m3 (id ∷ []) (rid ∷ []) (id ∷ [])
            (Change-trans s l law m m1 m2 [] (id ∷ []) (id ∷ []) c1 c2 (λ i lt a. (tt, a))) cw
            (λ i lt a. (a, (omega (arith, lt), tt)))

      left3 : s.read m3 id ≡ node_ptr id left'
      left3 =
          read_other s l law m2 rid right' (zero_node l) c2.sound.valid rid2 id
            (omega (arith, id_before))
          ∙ read_same s l law m1 id left' node c1.sound.valid found1

      set :
          (m' : M) × (set_prev s l node.next_sibling rid m3 ≡ ok m')
          × Change s l law m3 m' []
          × (law.next m' ≡ law.next m3)
      set =
          set_prev-Change s l law m3 node.next_sibling rid cw.sound
            (Sibling-stays s l law m2 m3 (rid ∷ []) node.next_sibling cw next_there2)

      m4 : M
      m4 = set.0

      prev_set : set_prev s l node.next_sibling rid m3 ≡ ok m4
      prev_set = set.1

      c4 : Change s l law m3 m4 []
      c4 = set.2

      next4 : law.next m4 ≡ law.next m3
      next4 = set.3
