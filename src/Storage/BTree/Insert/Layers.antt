-- ===== src/Storage/BTree/Insert/Layers.antt =====
-- The laws that the steps rely on, for leaves and for inner nodes.
use negentropy.Prelude.{
  ℕ, zero, suc, ◌+◌, ◌<◌, ◌≡◌, refl, ap, sym, ◌∙◌, false, true, Bytes, List, [], ◌∷◌, ◌++◌, length,
  length-append, map, arith, All, ◌==◌,
}
use mathlib.Core.Path.{subst}
use mathlib.Core.List.{map-append}
use negentropy.Prelude.Results.{ok}
use negentropy.Types.{Item, IsItem}
use negentropy.Accumulator.{add, accum_from}
use negentropy.Accumulator.Value.{IsBuffer}
use negentropy.Accumulator.Sums.{accum_from-IsBuffer, accum_from-append, accum_from-add}
use negentropy.Storage.BTree.{Limits, Key, Node, NodePtr, node_ptr, null_ptr, NodeStore}
use negentropy.Storage.BTree.Shape.{
  Counts, LeafKeys, Below, Sub, Sub-First, First, First-append, Sub-Agrees, All-split, Below-split,
  item_of, Below-Agrees,
}
use negentropy.Storage.BTree.Laws.{StoreLaws}
use negentropy.Storage.BTree.Insert.{add_to_accum}
use negentropy.Storage.BTree.Insert.Steps.{Fixes, load_found}
use negentropy.Storage.BTree.Insert.Place.{Layer}

-- the node of a subtree
pub Sub-Counts :
    (l : Limits) (read : ℕ → NodePtr) (depth id : ℕ) (xs : List Item) (ids : List ℕ)
    → Sub l read depth id xs ids
    → (node : Node) × (read id ≡ node_ptr id node) × Counts node xs
Sub-Counts l read zero id xs ids v = (v.node, v.found, v.counts)
Sub-Counts l read (suc depth) id xs ids v = (v.node, v.found, v.counts)

pub First-unique : (a b : Item) (xs : List Item) → First a xs → First b xs → a ≡ b
First-unique a b [] f g = absurd f
First-unique a b (x ∷ xs) f g = f ∙ sym g

abbrev pub LeafBody : (ℕ → NodePtr) → List Key → List Item → List ℕ → Type 0
LeafBody read keys xs below = LeafKeys keys xs below

abbrev pub InnerBody : Limits → ℕ → (ℕ → NodePtr) → List Key → List Item → List ℕ → Type 0
InnerBody l depth read keys xs below = Below l read (Sub l read depth) keys xs below

module _ {M : Type 0} (s : NodeStore M) (l : Limits) (law : StoreLaws l s) where
  leaf_sums :
      (m : M) (keys : List Key) (acc : Bytes) (c : ℕ)
      → All (λ (k : Key). k.node_id ≡ 0) keys
      → add_to_accum s l m keys (acc, c)
        ≡ ok (accum_from acc (map item_of keys), c + length (map item_of keys))
  unfolding add_to_accum accum_from
  leaf_sums m [] acc c a = ap (λ (n : ℕ). ok (acc, n)) (omega arith)
  leaf_sums m (k ∷ ks) acc c a =
      let leaf : (k.node_id == 0) ≡ true = ground (arith, a.0) in
      rw leaf (
        leaf_sums m ks (add acc k.item.id) (c + 1) a.1
        ∙ ap (λ (n : ℕ). ok (accum_from (add acc k.item.id) (map item_of ks), n)) (omega arith))

  leaf_split :
      (ks ks' : List Key) (xs : List Item) (below : List ℕ)
      → LeafKeys (ks ++ ks') xs below
      → (ys : List Item) × (zs : List Item) × (is : List ℕ) × (js : List ℕ) × (xs ≡ ys ++ zs)
        × (below ≡ is ++ js)
        × LeafKeys ks ys is
        × LeafKeys ks' zs js
  leaf_split ks ks' xs below b =
      let both = All-split (λ (k : Key). k.node_id ≡ 0) ks ks' b.no_child in
      (
        map item_of ks,
        map item_of ks',
        [],
        [],
        b.own ∙ map-append item_of ks ks',
        b.none_below,
        record { own = refl; no_child = both.0; none_below = refl },
        record { own = refl; no_child = both.1; none_below = refl },
      )

  pub leaf_layer : Layer s l LeafBody
  leaf_layer = record {
    Loose = λ k f. k.item ≡ f;
    fixes = λ m k f ks xs below loose b.
        Fixes.own (subst (λ (id : ℕ). s.read m id ≡ null_ptr) (sym b.no_child.0) (law.read_zero m))
          loose;
    first = λ m k ks xs below b. subst (First k.item) (sym b.own) refl;
    move = λ read read' keys xs below a b. b;
    sums = λ m keys xs below acc c b _ _.
        leaf_sums m keys acc c b.no_child
        ∙ ap (λ (its : List Item). ok (accum_from acc its, c + length its)) (sym b.own);
    sums_first = λ m k f ks xs below acc c loose b _ _.
        leaf_sums m (k ∷ ks) acc c b.no_child
        ∙ ap
            (λ (it : Item).
              ok (accum_from acc (it ∷ map item_of ks), c + length (it ∷ map item_of ks)))
            loose
        ∙ ap (λ (its : List Item). ok (accum_from acc its, c + length its)) (sym b.own);
    split = λ read ks ks' xs below b. leaf_split ks ks' xs below b;
  }

  -- one child adds what it holds
  child_sum :
      (m : M) (depth : ℕ) (k : Key) (ks : List Key) (ys : List Item) (is : List ℕ) (acc : Bytes)
      (c : ℕ)
      → 0 < k.node_id
      → Sub l (s.read m) depth k.node_id ys is
      → IsBuffer acc
      → All IsItem ys
      → add_to_accum s l m (k ∷ ks) (acc, c)
        ≡ add_to_accum s l m ks (accum_from acc ys, c + length ys)
  unfolding add_to_accum
  child_sum m depth k ks ys is acc c pos v b a =
      let (node, found, counts) = Sub-Counts l (s.read m) depth k.node_id ys is v in
      let inner : (k.node_id == 0) ≡ false = ground arith in
      let total : add acc node.accum ≡ accum_from acc ys =
        ap (add acc) counts.total ∙ sym (accum_from-add acc ys b a) in
      simp (inner, load_found s l m k.node_id node found, total, counts.count)

  inner_sums :
      (depth : ℕ) (m : M) (keys : List Key) (xs : List Item) (below : List ℕ) (acc : Bytes) (c : ℕ)
      → InnerBody l depth (s.read m) keys xs below
      → IsBuffer acc
      → All IsItem xs
      → add_to_accum s l m keys (acc, c) ≡ ok (accum_from acc xs, c + length xs)
  unfolding add_to_accum accum_from
  inner_sums depth m [] xs below acc c b hb a =
      ap (λ (n : ℕ). ok (acc, n)) (omega arith)
      ∙ ap (λ (its : List Item). ok (accum_from acc its, c + length its)) (sym b.0)
  inner_sums depth m (k ∷ ks) xs below acc c b hb a =
      let both = All-split IsItem b.ys b.zs (subst (All IsItem) b.items_split a) in
      child_sum m depth k ks b.ys b.is acc c b.some_id b.held hb both.0
      ∙ inner_sums depth m ks b.zs b.js (accum_from acc b.ys) (c + length b.ys) b.others
          (accum_from-IsBuffer acc b.ys hb) both.1
      ∙ ap (λ (n : ℕ). ok (accum_from (accum_from acc b.ys) b.zs, n))
          (omega (arith, length-append b.ys b.zs))
      ∙ ap (λ (t : Bytes). ok (t, c + length (b.ys ++ b.zs)))
          (sym (accum_from-append acc b.ys b.zs))
      ∙ ap (λ (its : List Item). ok (accum_from acc its, c + length its)) (sym b.items_split)

  pub inner_layer : (depth : ℕ) → Layer s l (InnerBody l depth)
  inner_layer depth = record {
    Loose = λ k f. Unit;
    fixes = λ m k f ks xs below loose b.
        let (node, c, cs, found, items, first) =
          Sub-First l (s.read m) depth k.node_id b.ys b.is b.held in
        Fixes.child node c cs found items (First-unique c.item f b.ys first b.first);
    first = λ m k ks xs below b.
        subst (First k.item) (sym b.items_split) (First-append k.item b.ys b.zs b.first);
    move = λ read read' keys xs below a b.
        Below-Agrees l read read' (Sub l read depth) (Sub l read' depth)
          (Sub-Agrees l read read' depth) keys xs below a b;
    sums = λ m keys xs below acc c b hb a. inner_sums depth m keys xs below acc c b hb a;
    sums_first = λ m k f ks xs below acc c loose b hb a.
        let both = All-split IsItem b.ys b.zs (subst (All IsItem) b.items_split a) in
        child_sum m depth k ks b.ys b.is acc c b.some_id b.held hb both.0
        ∙ sym (
            child_sum m depth (record k { item = f }) ks b.ys b.is acc c b.some_id b.held hb both.0)
        ∙ inner_sums depth m (record k { item = f } ∷ ks) xs below acc c b hb a;
    split = λ read ks ks' xs below b.
        let h = Below-split l read (Sub l read depth) ks ks' xs below b in
        (h.ys, h.zs, h.is, h.js, h.items_split, h.ids_split, h.front, h.back);
  }

  pub leaf_loose : (k : Key) (f : Item) → k.item ≡ f → leaf_layer.Loose k f
  unfolding leaf_layer
  leaf_loose k f e = e

  pub inner_loose : (depth : ℕ) (k : Key) (f : Item) → (inner_layer depth).Loose k f
  unfolding inner_layer
  inner_loose depth k f = tt
