-- ===== src/Storage/BTree/Reading/Items.antt =====
-- `getItem` on a tree as insertion keeps it.
use negentropy.Prelude.{
  ℕ, zero, suc, ◌-◌, ◌≤◌, ◌<◌, ◌≡◌, refl, ap, sym, ◌∙◌, true, false, List, [], ◌∷◌, ◌++◌, length,
  map, arith, ltb, inl, inr, Option, some, none, lt-or-le, get_elem?,
}
use negentropy.Prelude.Results.{Result, ok, err, Error, ◌>>=◌}
use negentropy.Types.{Item}
use negentropy.Storage.BTree.{Limits, Key, Node, NodePtr, node_ptr, key_at, NodeStore}
use negentropy.Storage.BTree.Shape.{item_of}
use negentropy.Storage.BTree.Laws.{StoreLaws}
use negentropy.Storage.BTree.Tree.{IsTree, Shape}
use negentropy.Storage.BTree.Reading.{
  descend, traverse_to_offset_aux, traverse_to_offset, size, get_item,
}
use negentropy.Storage.BTree.Reading.Fingerprint.{
  Leaf, Children, Holds, Counts, descend_step, same_count,
}
use negentropy.Storage.BTree.Reading.Whole.{Sub-Holds, empty_size}

get_elem-front :
    (ys zs : List Item) (i : ℕ) → i < length ys → get_elem? (ys ++ zs) i ≡ get_elem? ys i
get_elem-front [] zs i h = absurd (omega (arith, h))
get_elem-front (y ∷ ys) zs zero h = refl
get_elem-front (y ∷ ys) zs (suc i) h = get_elem-front ys zs i (omega (arith, h))

get_elem-past :
    (ys zs : List Item) (i : ℕ)
    → length ys ≤ i
    → get_elem? (ys ++ zs) i ≡ get_elem? zs (i - length ys)
get_elem-past [] zs i h = ap (get_elem? zs) (omega arith)
get_elem-past (y ∷ ys) zs zero h = absurd (omega (arith, h))
get_elem-past (y ∷ ys) zs (suc i) h =
    get_elem-past ys zs i (omega (arith, h)) ∙ ap (get_elem? zs) (omega arith)

-- the key at the place of an item
key_of :
    (keys rest : List Key) (i : ℕ) (it : Item)
    → get_elem? (map item_of keys) i ≡ some it
    → (k : Key) × (get_elem? (keys ++ rest) i ≡ some k) × (k.item ≡ it)
key_of [] rest i it e = ground (arith, e)
key_of (k ∷ keys) rest zero it e = (k, refl, cc)
key_of (k ∷ keys) rest (suc i) it e = key_of keys rest i it e

module _ (read : ℕ → NodePtr) where
  -- the callbacks of `get_item`
  abbrev visit : ℕ → ℕ → Node → Option Item → Result (Option Item)
  visit fuel =
      traverse_to_offset_aux read (λ node i out. do k ← key_at node i; ok (some k.item))
        (λ node out. out) fuel

  Leaf-item :
      (node : Node) (xs : List Item) (i : ℕ) (it : Item)
      → Leaf node xs
      → get_elem? xs i ≡ some it
      → (do k ← key_at node i; ok (some k.item)) ≡ ok (some it)
  unfolding key_at
  Leaf-item node xs i it leaf e =
      let (k, at, same) =
        key_of leaf.keys leaf.rest i it
          (ap (λ (its : List Item). get_elem? its i) (sym leaf.own) ∙ e) in
      let found : get_elem? node.items i ≡ some k =
        ap (λ (ks : List Key). get_elem? ks i) leaf.used ∙ at in
      rw (found, same) refl

  descend_item :
      (Held : Node → List Item → Type 0) (go : ℕ → Node → Option Item → Result (Option Item))
      → ((node : Node) (xs : List Item) (i : ℕ) (it : Item)
          → Held node xs
          → get_elem? xs i ≡ some it
          → go i node none ≡ ok (some it))
      → (ks : List Key) (xs : List Item) (i : ℕ) (it : Item) → Children read Held ks xs
      → get_elem? xs i ≡ some it
      → descend read go (λ node out. out) ks i none ≡ ok (some it)
  descend_item Held go ih _ _ i it Children.done e = ground (arith, e)
  descend_item Held go ih _ _ i it (Children.child k node ys {ks} {zs} at c held rest) e =
      descend_step read go (λ node out. out) k ks node i none at ∙ elim (lt-or-le i (length ys)) [
        | inl inside ↦
            rw (within inside) (ih node ys i it held (sym (get_elem-front ys zs i inside) ∙ e))
        | inr past ↦ rw (beyond past) (
            descend_item Held go ih ks zs (i - node.accum_count) it rest
              (ap (λ (n : ℕ). get_elem? zs (i - n)) c.count ∙ sym (get_elem-past ys zs i past) ∙ e))
      ]
    where
      within : i < length ys → ltb i node.accum_count ≡ true
      within p = ground (arith, c.count)

      beyond : length ys ≤ i → ltb i node.accum_count ≡ false
      beyond p = ground (arith, c.count)

  traverse_item :
      (fuel : ℕ) (node : Node) (xs : List Item) (i : ℕ) (it : Item)
      → Holds read fuel node xs
      → get_elem? xs i ≡ some it
      → visit fuel i node none ≡ ok (some it)
  unfolding traverse_to_offset_aux
  traverse_item zero node xs i it held e = absurd held
  traverse_item (suc fuel) node xs i it (inl (leaf, whole)) e =
      rw (same_count node whole) (Leaf-item node xs i it leaf e)
  traverse_item (suc fuel) node xs i it (inr inner) e = rw inner.more (
      descend_item (Holds read fuel) (visit fuel)
        (λ node' ys j it' held' e'. traverse_item fuel node' ys j it' held' e') _ xs i it
        inner.children e)

get_elem-none : (xs : List Item) (i : ℕ) → get_elem? xs i ≡ none → length xs ≤ i
get_elem-none [] i e = omega arith
get_elem-none (x ∷ xs) zero e = absurd (ground (arith, e))
get_elem-none (x ∷ xs) (suc i) e = omega (arith, get_elem-none xs i e)

get_elem-inside : (xs : List Item) (i : ℕ) (it : Item) → get_elem? xs i ≡ some it → i < length xs
get_elem-inside [] i it e = ground (arith, e)
get_elem-inside (x ∷ xs) zero it e = omega arith
get_elem-inside (x ∷ xs) (suc i) it e = omega (arith, get_elem-inside xs i it e)

-- the item at an index, or the error of an index that is out of range
abbrev pub item_or_error : Option Item → Result Item
item_or_error none = err Error.out_of_range
item_or_error (some it) = ok it

module _ (read : ℕ → NodePtr) (root_id fuel : ℕ) where
  get_beyond :
      (n i : ℕ)
      → size read root_id fuel ≡ ok n
      → n ≤ i
      → get_item read root_id fuel i ≡ err Error.out_of_range
  unfolding get_item
  get_beyond n i e h = let out : ltb i n ≡ false = ground (arith, h) in rw e (rw out refl)

  pub size_at :
      (node : Node)
      → read root_id ≡ node_ptr root_id node
      → size read root_id fuel ≡ ok node.accum_count
  unfolding size
  size_at node at = ground (arith, at)

  from_root :
      (node : Node) (i : ℕ)
      → read root_id ≡ node_ptr root_id node
      → i ≤ node.accum_count
      → traverse_to_offset read root_id fuel
          (λ n j out. do k ← key_at n j; ok (some k.item))
          (λ n out. out)
          i
          none
        ≡ visit read fuel i node none
  unfolding traverse_to_offset
  from_root node i at h = ground (arith, at)

  get_within :
      (node : Node) (xs : List Item) (i : ℕ) (it : Item)
      → read root_id ≡ node_ptr root_id node
      → Counts node xs
      → Holds read fuel node xs
      → get_elem? xs i ≡ some it
      → get_item read root_id fuel i ≡ ok it
  unfolding get_item
  get_within node xs i it at c held e =
      let inside = get_elem-inside xs i it e in
      let first : ltb i node.accum_count ≡ true = ground (arith, c.count, inside) in
      rw (size_at node at) (
        rw first (
          rw
            (from_root node i at (omega (arith, c.count, inside))
              ∙ traverse_item read fuel node xs i it held e)
            refl))

module _ {M : Type 0} (s : NodeStore M) (l : Limits) (law : StoreLaws l s) (m : M) (fuel : ℕ) where
  item_at_index :
      (xs : List Item) (levels i : ℕ) (o : Option Item)
      → IsTree s l law m xs levels
      → levels ≤ fuel
      → get_elem? xs i ≡ o
      → get_item (s.read m) (s.get_root m) fuel i ≡ item_or_error o
  item_at_index xs levels i o tree enough e = by_shape xs o tree.shape enough e
    where
      by_shape :
          {n : ℕ} (its : List Item) (r : Option Item)
          → Shape s l law m its n
          → n ≤ fuel
          → get_elem? its i ≡ r
          → get_item (s.read m) (s.get_root m) fuel i ≡ item_or_error r
      by_shape its none (Shape.rooted depth ids t _ _) h f =
          let (node, found, counts, held) =
            Sub-Holds l (s.read m) depth fuel (s.get_root m) its ids h t in
          get_beyond (s.read m) (s.get_root m) fuel node.accum_count i
            (size_at (s.read m) (s.get_root m) fuel node found)
            (omega (arith, counts.count, get_elem-none its i f))
      by_shape its (some it) (Shape.rooted depth ids t _ _) h f =
          let (node, found, counts, held) =
            Sub-Holds l (s.read m) depth fuel (s.get_root m) its ids h t in
          get_within (s.read m) (s.get_root m) fuel node its i it found counts held f
      by_shape its none (Shape.no_root at_none no_items) h f =
          get_beyond (s.read m) (s.get_root m) fuel 0 i
            (ap (λ (id : ℕ). size (s.read m) id fuel) at_none ∙ empty_size s l law m fuel)
            (omega arith)
      by_shape its (some it) (Shape.no_root at_none no_items) h f =
          absurd (omega (arith, ap length no_items, get_elem-inside its i it f))

  -- Over a store of nodes that keeps its contract, `getItem` on a tree as insertion keeps it, with fuel
  -- not below its levels, gives the item at the index, and throws "out of range" where there is none.
  pub tree_get_item :
      (xs : List Item) (levels i : ℕ)
      → IsTree s l law m xs levels
      → levels ≤ fuel
      → get_item (s.read m) (s.get_root m) fuel i ≡ item_or_error (get_elem? xs i)
  tree_get_item xs levels i tree enough =
      item_at_index xs levels i (get_elem? xs i) tree enough refl
