-- ===== src/Storage/BTree/Insert/Divide.antt =====
-- A step that divides a full node: two levels of the tree hold the items with the new one among them.
use negentropy.Prelude.{
  ℕ, zero, suc, ◌+◌, ◌-◌, ◌<◌, ◌≡◌, ◌≢◌, refl, ap, sym, ◌∙◌, true, List, [], ◌∷◌, ◌++◌, take, drop,
  length, length-append, length-take, length-drop, length-replicate, take-append-drop, arith, All,
  inr, replicate, u64_mod,
}
use mathlib.Core.Path.{subst}
use negentropy.Prelude.Results.{ok}
use negentropy.Types.{Item, IsItem}
use negentropy.Accumulator.{zero_accum}
use negentropy.Accumulator.Value.{zero-IsBuffer}
use negentropy.Storage.Vector.{insert_sorted}
use negentropy.Storage.Vector.Contract.{insert_sorted-IsItem}
use negentropy.Storage.BTree.{Limits, IsLimits, Key, Node, zero_key, NodePtr, node_ptr, NodeStore}
use negentropy.Storage.BTree.Search.{Breadcrumb}
use negentropy.Storage.BTree.Shape.{
  Slots, Level, First, Agrees, SameKeys-Slots, SameKeys-Counts, All-split,
}
use negentropy.Storage.BTree.Laws.{StoreLaws}
use negentropy.Storage.BTree.Changes.{
  Sound, Change, Change-trans, write_Change, make_Change, read_same, read_other,
}
use negentropy.Storage.BTree.Insert.{merge_key, insert_step, split_node}
use negentropy.Storage.BTree.Insert.Steps.{full_step}
use negentropy.Storage.BTree.Insert.Place.{Layer, length-merge_key}
use negentropy.Storage.BTree.Insert.Split.{
  Cut, cut, left_half, right_half, split_node_lem, Linking, link,
}

module _ {M : Type 0} (s : NodeStore M) (l : Limits) (lim : IsLimits l) (law : StoreLaws l s)
    (Body : (ℕ → NodePtr) → List Key → List Item → List ℕ → Type 0) (layer : Layer s l Body)
    (v : Item) (crumb : Breadcrumb) (m : M) (sound : Sound s l law m)
    (room : law.next m + 1 < u64_mod) (node : Node)
    (found : s.read m crumb.node_id ≡ node_ptr crumb.node_id node) (keys : List Key)
    (slots : Slots l node keys) (xs : List Item) (hv : IsItem v) (hx : All IsItem xs) where
  -- the outcome of a step that divides its node
  pub record Divided (key : Key) (below : List ℕ) : Type 0 where
    pub store : M
    pub up : Key
    pub ys : List Item
    pub zs : List Item
    pub is : List ℕ
    pub js : List ℕ
    pub stepped :
        insert_step s l v crumb (record { store = m; new_key = key; needs_merge = true })
        ≡ ok (record { store = store; new_key = up; needs_merge = true })
    pub change : Change s l law m store (crumb.node_id ∷ [])
    pub same_next : law.next store ≡ law.next m + 1
    pub up_id : up.node_id ≡ law.next m
    pub up_first : First up.item zs
    pub items_split : insert_sorted v xs ≡ ys ++ zs
    pub ids_split : below ≡ is ++ js
    pub left : Level l (s.read store) (Body (s.read store)) crumb.node_id ys (crumb.node_id ∷ is)
    pub right : Level l (s.read store) (Body (s.read store)) (law.next m) zs (law.next m ∷ js)

  module _ (key k : Key) (f : Item) (below : List ℕ) (loose : layer.Loose k f)
      (apart : All (λ i. i ≢ crumb.node_id) below) (before : All (λ i. i < law.next m) below)
      (full : length keys ≡ l.max_items) where
    moved :
        (m' : M)
        → ((i : ℕ) → i ≢ crumb.node_id → i < law.next m → Agrees (s.read m) (s.read m') i)
        → (is : List ℕ) → All (λ i. i ≢ crumb.node_id) is
        → All (λ i. i < law.next m) is
        → All (Agrees (s.read m) (s.read m')) is
    moved m' a [] p q = tt
    moved m' a (i ∷ is) p q = (a i p.0 q.0, moved m' a is p.1 q.1)

    divide_at :
        (t1 t2 : List Key) (k2 : Key) (nl nr : ℕ)
        → Cut l node.next_sibling nl nr
        → merge_key key keys ≡ (k ∷ t1) ++ (k2 ∷ t2)
        → length (k ∷ t1) ≡ nl
        → length (k2 ∷ t2) ≡ nr
        → Body (s.read m) ((record k { item = f } ∷ t1) ++ (k2 ∷ t2)) (insert_sorted v xs) below
        → Divided key below
    unfolding left_half right_half
    divide_at t1 t2 k2 nl nr c merged el er body = record {
      store = m5;
      up = record { item = k2.item; node_id = law.next m };
      ys = ys;
      zs = zs;
      is = is;
      js = js;
      stepped =
          full_step s l v crumb m node found key m4 left'
            (record { item = k2.item; node_id = law.next m }) k (t1 ++ fill) f
            (omega (arith, full, slots.full)) (linking.split_ok key halves) refl
            (layer.fixes m4 k f t1 ys is loose
              (to m4 in_m4 (record k { item = f } ∷ t1) ys is is_apart is_before left_body));
      change = c5;
      same_next = law.next-write m4 crumb.node_id n5 ∙ linking.same_next;
      up_id = refl;
      up_first = layer.first m k2 t2 zs js right_body;
      items_split = p.4;
      ids_split = p.5;
      left = record {
        node = n5;
        keys = record k { item = f } ∷ t1;
        below = is;
        found = read_same s l law m4 crumb.node_id n5 old4 linking.change.sound.valid at4;
        slots = record {
          rest = fill;
          used = refl;
          full = refl;
          room = omega (
            arith,
            length-append t1 fill,
            length-replicate (l.max_items + 1 - length (k ∷ t1)) zero_key,
            el,
            c.left_fits,
          );
          within = omega (arith, el, c.left_fits);
        };
        some_key = omega arith;
        counts = record { count = refl; total = refl };
        own = refl;
        body = to m5 in_m5 (record k { item = f } ∷ t1) ys is is_apart is_before left_body;
      };
      right = record {
        node = linking.right_there.0;
        keys = k2 ∷ t2;
        below = js;
        found = right5;
        slots = SameKeys-Slots linking.right_there.2 (record {
          rest = drop (0 + length (k2 ∷ t2)) (replicate (suc l.max_items) zero_key);
          used = refl;
          full = refl;
          room = omega (
            arith,
            length-append t2 (drop (0 + length (k2 ∷ t2)) (replicate (suc l.max_items) zero_key)),
            length-drop (0 + length (k2 ∷ t2)) (replicate (suc l.max_items) zero_key),
            length-replicate (suc l.max_items) zero_key,
            er,
            c.right_fits,
          );
          within = omega (arith, er, c.right_fits);
        });
        some_key = omega arith;
        counts = SameKeys-Counts linking.right_there.2 (record { count = refl; total = refl });
        own = refl;
        body = to m5 in_m5 (k2 ∷ t2) zs js js_apart js_before right_body;
      };
    }
      where
        p :
            (ys : List Item) × (zs : List Item) × (is : List ℕ) × (js : List ℕ) × (insert_sorted v
                xs
              ≡ ys ++ zs)
            × (below ≡ is ++ js)
            × Body (s.read m) (record k { item = f } ∷ t1) ys is
            × Body (s.read m) (k2 ∷ t2) zs js
        p =
            layer.split (s.read m) (record k { item = f } ∷ t1) (k2 ∷ t2) (insert_sorted v xs) below
              body

        ys : List Item
        ys = p.0

        zs : List Item
        zs = p.1

        is : List ℕ
        is = p.2

        js : List ℕ
        js = p.3

        left_body : Body (s.read m) (record k { item = f } ∷ t1) ys is
        left_body = p.6

        right_body : Body (s.read m) (k2 ∷ t2) zs js
        right_body = p.7

        valid : All IsItem ys × All IsItem zs
        valid = All-split IsItem ys zs (subst (All IsItem) p.4 (insert_sorted-IsItem v xs hv hx))

        aparts : All (λ i. i ≢ crumb.node_id) is × All (λ i. i ≢ crumb.node_id) js
        aparts =
            All-split (λ (i : ℕ). i ≢ crumb.node_id) is js
              (subst (All (λ (i : ℕ). i ≢ crumb.node_id)) p.5 apart)

        befores : All (λ i. i < law.next m) is × All (λ i. i < law.next m) js
        befores =
            All-split (λ (i : ℕ). i < law.next m) is js
              (subst (All (λ (i : ℕ). i < law.next m)) p.5 before)

        is_apart : All (λ i. i ≢ crumb.node_id) is
        is_apart = aparts.0

        js_apart : All (λ i. i ≢ crumb.node_id) js
        js_apart = aparts.1

        is_before : All (λ i. i < law.next m) is
        is_before = befores.0

        js_before : All (λ i. i < law.next m) js
        js_before = befores.1

        to :
            (m' : M)
            → ((i : ℕ) → i ≢ crumb.node_id → i < law.next m → Agrees (s.read m) (s.read m') i)
            → (ks : List Key) (its : List Item) (ids : List ℕ) → All (λ i. i ≢ crumb.node_id) ids
            → All (λ i. i < law.next m) ids
            → Body (s.read m) ks its ids
            → Body (s.read m') ks its ids
        to m' a ks its ids ap1 bef b =
            layer.move (s.read m) (s.read m') ks its ids (moved m' a ids ap1 bef) b

        made : M
        made = (s.make m).0

        in_made : (i : ℕ) → i ≢ crumb.node_id → i < law.next m → Agrees (s.read m) (s.read made) i
        in_made i ne lt = (make_Change s l law m sound room).kept i tt lt

        left : Node
        left = left_half s l node (k ∷ t1) ys

        right : Node
        right = right_half s l (k2 ∷ t2) zs

        halves : split_node s l made key node ≡ ok (left, right)
        halves =
            split_node_lem s l made key node keys (k ∷ t1) (k2 ∷ t2) ys zs nl nr slots full c merged
              el er
              (layer.sums_first made k f t1 ys is zero_accum 0 loose
                (to made in_made (record k { item = f } ∷ t1) ys is is_apart is_before left_body)
                zero-IsBuffer valid.0)
              (layer.sums made (k2 ∷ t2) zs js zero_accum 0
                (to made in_made (k2 ∷ t2) zs js js_apart js_before right_body) zero-IsBuffer
                valid.1)

        fill : List Key
        fill = replicate (l.max_items + 1 - length (k ∷ t1)) zero_key

        linking :
            Linking s l law m sound room crumb.node_id node found left right refl k2
              (t2 ++ drop (0 + length (k2 ∷ t2)) (replicate (suc l.max_items) zero_key))
        linking =
            link s l law m sound room crumb.node_id node found left right refl k2
              (t2 ++ drop (0 + length (k2 ∷ t2)) (replicate (suc l.max_items) zero_key)) refl

        m4 : M
        m4 = linking.store

        in_m4 : (i : ℕ) → i ≢ crumb.node_id → i < law.next m → Agrees (s.read m) (s.read m4) i
        in_m4 i ne lt = linking.change.kept i (ne, tt) lt

        left' : Node
        left' = record left { next_sibling = law.next m }

        n5 : Node
        n5 = record left' { items = record k { item = f } ∷ (t1 ++ fill) }

        old4 : Node
        old4 = linking.left_there.0

        at4 : s.read m4 crumb.node_id ≡ node_ptr crumb.node_id old4
        at4 = linking.left_there.1

        m5 : M
        m5 = s.write crumb.node_id n5 m4

        w5 : Change s l law m4 m5 (crumb.node_id ∷ [])
        w5 =
            write_Change s l law m4 crumb.node_id n5 old4 linking.change.sound.valid at4
              linking.change.sound.linked (inr (linking.right_there.0, linking.right_there.1))

        c5 : Change s l law m m5 (crumb.node_id ∷ [])
        c5 =
            Change-trans s l law m m4 m5 (crumb.node_id ∷ []) (crumb.node_id ∷ [])
              (crumb.node_id ∷ []) linking.change w5 (λ i lt a. (a, a))

        in_m5 : (i : ℕ) → i ≢ crumb.node_id → i < law.next m → Agrees (s.read m) (s.read m5) i
        in_m5 i ne lt = c5.kept i (ne, tt) lt

        right5 : s.read m5 (law.next m) ≡ node_ptr (law.next m) linking.right_there.0
        right5 =
            read_other s l law m4 crumb.node_id n5 old4 linking.change.sound.valid at4 (law.next m)
              (omega (arith, law.read_next m crumb.node_id node sound.valid found))
            ∙ linking.right_there.1

    pub divide :
        (t : List Key)
        → merge_key key keys ≡ k ∷ t
        → Body (s.read m) (record k { item = f } ∷ t) (insert_sorted v xs) below
        → Divided key below
    divide t merged body = at_cut nl nr c
      where
        nl : ℕ
        nl = (cut l lim node.next_sibling).0

        nr : ℕ
        nr = (cut l lim node.next_sibling).1

        c : Cut l node.next_sibling nl nr
        c = (cut l lim node.next_sibling).2

        size : suc (length t) ≡ suc l.max_items
        size = omega (arith, ap length merged, length-merge_key key keys, full)

        at_key :
            (p nr' : ℕ) (d : List Key)
            → Cut l node.next_sibling (suc p) nr'
            → drop p t ≡ d
            → Divided key below
        at_key p nr' [] c' e =
            absurd (omega (arith, ap length e, length-drop p t, size, c'.whole, c'.some_right))
        at_key p nr' (k2 ∷ t2) c' e =
            let parts : t ≡ take p t ++ (k2 ∷ t2) =
              sym (take-append-drop p t) ∙ ap (λ (ks : List Key). take p t ++ ks) e in
            divide_at (take p t) t2 k2 (suc p) nr' c' (merged ∙ ap (◌∷◌ k) parts)
              (omega (arith, length-take p t, size, c'.left_fits))
              (omega (arith, ap length e, length-drop p t, size, c'.whole))
              (subst
                (λ (ks : List Key).
                  Body (s.read m) (record k { item = f } ∷ ks) (insert_sorted v xs) below)
                parts body)

        at_cut : (nl' nr' : ℕ) → Cut l node.next_sibling nl' nr' → Divided key below
        at_cut zero nr' c' = absurd (omega (arith, c'.some_left))
        at_cut (suc p) nr' c' = at_key p nr' (drop p t) c' refl
