-- ===== src/Storage/BTree/Insert/Place.antt =====
-- A new key put into a node with room: the node holds the items with the new one among them.
use negentropy.Prelude.{
  ℕ, suc, ◌+◌, ◌<◌, ◌≡◌, ◌≢◌, refl, ap, sym, ◌∙◌, Bool, true, false, Bytes, List, [], ◌∷◌, ◌++◌,
  drop, length, length-append, length-drop, arith, All, ◌⊎◌,
}
use mathlib.Core.Path.{subst}
use negentropy.Prelude.Results.{ok}
use negentropy.Types.{Item, IsItem}
use negentropy.Accumulator.{add, accum_from}
use negentropy.Accumulator.Value.{IsBuffer}
use negentropy.Storage.Vector.{insert_sorted}
use negentropy.Storage.Vector.Contract.{length-insert_sorted}
use negentropy.Storage.Ordered.{accum_from-insert_sorted}
use negentropy.Storage.BTree.{Limits, Key, Node, NodePtr, node_ptr, overlay, NodeStore}
use negentropy.Storage.BTree.Search.{Breadcrumb}
use negentropy.Storage.BTree.Shape.{Slots, Counts, Level, First, Agrees}
use negentropy.Storage.BTree.Laws.{StoreLaws}
use negentropy.Storage.BTree.Changes.{
  Sound, Change, write_Change, read_same, Agrees-same, read_other,
}
use negentropy.Storage.BTree.Insert.{merge_key, put_key, insert_step, add_to_accum}
use negentropy.Storage.BTree.Insert.Steps.{Fixes, take-Slots, bumped, bump_step, put_step}

pub length-merge_key :
    (key : Key) (keys : List Key) → length (merge_key key keys) ≡ suc (length keys)
unfolding merge_key
length-merge_key key [] = refl
length-merge_key key (k ∷ ks) = ground (arith, length-merge_key key ks)

-- What is the same for leaves and inner nodes.
pub record Layer {M : Type 0} (s : NodeStore M) (l : Limits)
    (Body : (ℕ → NodePtr) → List Key → List Item → List ℕ → Type 0) : Type 1 where
  pub Loose : Key → Item → Type 0
  pub fixes :
      (m : M) (k : Key) (f : Item) (ks : List Key) (xs : List Item) (below : List ℕ)
      → Loose k f
      → Body (s.read m) (record k { item = f } ∷ ks) xs below
      → Fixes (s.read m) k f
  pub first :
      (m : M) (k : Key) (ks : List Key) (xs : List Item) (below : List ℕ)
      → Body (s.read m) (k ∷ ks) xs below
      → First k.item xs
  pub move :
      (read read' : ℕ → NodePtr) (keys : List Key) (xs : List Item) (below : List ℕ)
      → All (Agrees read read') below
      → Body read keys xs below
      → Body read' keys xs below
  pub sums :
      (m : M) (keys : List Key) (xs : List Item) (below : List ℕ) (acc : Bytes) (c : ℕ)
      → Body (s.read m) keys xs below
      → IsBuffer acc
      → All IsItem xs
      → add_to_accum s l m keys (acc, c) ≡ ok (accum_from acc xs, c + length xs)
  pub sums_first :
      (m : M) (k : Key) (f : Item) (ks : List Key) (xs : List Item) (below : List ℕ) (acc : Bytes)
      (c : ℕ)
      → Loose k f
      → Body (s.read m) (record k { item = f } ∷ ks) xs below
      → IsBuffer acc
      → All IsItem xs
      → add_to_accum s l m (k ∷ ks) (acc, c) ≡ ok (accum_from acc xs, c + length xs)
  pub split :
      (read : ℕ → NodePtr) (ks ks' : List Key) (xs : List Item) (below : List ℕ)
      → Body read (ks ++ ks') xs below
      → (ys : List Item) × (zs : List Item) × (is : List ℕ) × (js : List ℕ) × (xs ≡ ys ++ zs)
        × (below ≡ is ++ js)
        × Body read ks ys is
        × Body read ks' zs js

-- what a node counts and adds up with one more item
pub more-Counts :
    (v : Item) (xs : List Item) (node node' : Node)
    → IsItem v
    → All IsItem xs
    → Counts node xs
    → node'.accum_count ≡ node.accum_count + 1
    → node'.accum ≡ add node.accum v.id
    → Counts node' (insert_sorted v xs)
more-Counts v xs node node' hv hx c n a = record {
  count = omega (arith, n, c.count, length-insert_sorted v xs);
  total = a ∙ ap (λ (t : Bytes). add t v.id) c.total ∙ sym (accum_from-insert_sorted v xs hv hx);
}

module _ {M : Type 0} (s : NodeStore M) (l : Limits) (law : StoreLaws l s)
    (Body : (ℕ → NodePtr) → List Key → List Item → List ℕ → Type 0) (layer : Layer s l Body)
    (v : Item) (crumb : Breadcrumb) (m : M) (sound : Sound s l law m) (node : Node)
    (found : s.read m crumb.node_id ≡ node_ptr crumb.node_id node) (keys : List Key)
    (slots : Slots l node keys) (xs : List Item) (counts : Counts node xs) (hv : IsItem v)
    (hx : All IsItem xs) where
  -- the store with a node of the same siblings in the place of this one
  rewritten :
      (n : Node)
      → n.next_sibling ≡ node.next_sibling
      → Change s l law m (s.write crumb.node_id n m) (crumb.node_id ∷ [])
  rewritten n same = write_Change s l law m crumb.node_id n node sound.valid found sound.linked (
      subst (λ (id : ℕ). (id ≡ 0) ⊎ ((a : Node) × (s.read m id ≡ node_ptr id a))) (sym same)
        (sound.linked crumb.node_id node found))

  -- A node whose keys and counts are right is a level of the tree in the store with it.
  pub Level-at :
      (n : Node) (ks : List Key) (ys : List Item) (below : List ℕ)
      → Slots l n ks
      → 0 < length ks
      → Counts n ys
      → Body (s.read m) ks ys below
      → All (λ i. i ≢ crumb.node_id) below
      → Level l
          (s.read (s.write crumb.node_id n m))
          (Body (s.read (s.write crumb.node_id n m)))
          crumb.node_id
          ys
          (crumb.node_id ∷ below)
  Level-at n ks ys below sl some_key c body apart = record {
    node = n;
    keys = ks;
    below = below;
    found = read_same s l law m crumb.node_id n node sound.valid found;
    slots = sl;
    some_key = some_key;
    counts = c;
    own = refl;
    body =
        layer.move (s.read m) (s.read (s.write crumb.node_id n m)) ks ys below (agree below apart)
          body;
  }
    where
      agree :
          (is : List ℕ)
          → All (λ i. i ≢ crumb.node_id) is
          → All (Agrees (s.read m) (s.read (s.write crumb.node_id n m))) is
      agree [] a = tt
      agree (i ∷ is) a = (
        Agrees-same (s.read m) (s.read (s.write crumb.node_id n m)) i
            (read_other s l law m crumb.node_id n node sound.valid found i a.0),
        agree is a.1,
      )

  -- the outcome of a step that leaves nothing to merge
  pub record Settled (key : Key) (from : Bool) (below : List ℕ) : Type 0 where
    pub store : M
    pub stepped :
        insert_step s l v crumb (record { store = m; new_key = key; needs_merge = from })
        ≡ ok (record { store = store; new_key = key; needs_merge = false })
    pub change : Change s l law m store (crumb.node_id ∷ [])
    pub same_next : law.next store ≡ law.next m
    pub level :
        Level l
          (s.read store)
          (Body (s.read store))
          crumb.node_id
          (insert_sorted v xs)
          (crumb.node_id ∷ below)

  module _ (k : Key) (t : List Key) (f : Item) (below : List ℕ) (loose : layer.Loose k f)
      (body : Body (s.read m) (record k { item = f } ∷ t) (insert_sorted v xs) below)
      (apart : All (λ i. i ≢ crumb.node_id) below) where
    -- Below this node nothing is left to merge.
    pub bump_Settled : (key : Key) → keys ≡ k ∷ t → Settled key false below
    unfolding bumped
    bump_Settled key e =
        let items : node.items ≡ k ∷ (t ++ slots.rest) =
          slots.used ∙ ap (λ (ks : List Key). ks ++ slots.rest) e in
        let n : Node = record (bumped s l v crumb m node found) {
          items = record k { item = f } ∷ (t ++ slots.rest);
        } in
        record {
          store = s.write crumb.node_id n m;
          stepped =
              bump_step s l v crumb m node found key k (t ++ slots.rest) f items
                (layer.fixes m k f t (insert_sorted v xs) below loose body);
          change = rewritten n refl;
          same_next = law.next-write m crumb.node_id n;
          level =
              Level-at n (record k { item = f } ∷ t) (insert_sorted v xs) below
                (record {
                  rest = slots.rest;
                  used = refl;
                  full = slots.full ∙ ap length e;
                  room = omega (arith, ap length items, slots.room);
                  within = omega (arith, ap length e, slots.within);
                })
                (omega arith) (more-Counts v xs node n hv hx counts refl refl) body apart;
        }

    -- There is room for the key from below.
    pub put_Settled :
        (key : Key)
        → merge_key key keys ≡ k ∷ t
        → length keys < l.max_items
        → Settled key true below
    unfolding put_key
    put_Settled key e h =
        let rest : List Key = drop (0 + suc (length t)) node.items in
        let items : (put_key s l key v node).items ≡ k ∷ (t ++ rest) =
          ap (λ (ks : List Key). overlay 0 ks node.items)
            (ap (merge_key key) (take-Slots slots) ∙ e) in
        let n : Node = record (put_key s l key v node) {
          items = record k { item = f } ∷ (t ++ rest);
        } in
        record {
          store = s.write crumb.node_id n m;
          stepped =
              put_step s l v crumb m node found key k (t ++ rest) f (omega (arith, slots.full))
                items (layer.fixes m k f t (insert_sorted v xs) below loose body);
          change = rewritten n refl;
          same_next = law.next-write m crumb.node_id n;
          level =
              Level-at n (record k { item = f } ∷ t) (insert_sorted v xs) below
                (record {
                  rest = rest;
                  used = refl;
                  full = omega (arith, slots.full, ap length e, length-merge_key key keys);
                  room = omega (
                    arith,
                    length-append t rest,
                    length-drop (0 + suc (length t)) node.items,
                    slots.room,
                    slots.within,
                    ap length e,
                    length-merge_key key keys,
                  );
                  within = omega (arith, ap length e, length-merge_key key keys);
                })
                (omega arith) (more-Counts v xs node n hv hx counts refl refl) body apart;
        }
