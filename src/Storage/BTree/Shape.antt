-- ===== src/Storage/BTree/Shape.antt =====
-- When a store of nodes holds a tree: all leaves lie at one depth, and each node counts and adds up the
-- items under it. The list of ids says which nodes the tree consists of.
use negentropy.Prelude.{
  ℕ, zero, suc, ◌≤◌, ◌<◌, ◌≡◌, List, [], ◌∷◌, ◌++◌, length, map, All, ap, ◌∙◌, sym, refl,
  append_assoc, arith,
}
use mathlib.Core.Path.{subst}
use negentropy.Types.{Item}
use negentropy.Accumulator.{zero_accum, accum_from}
use negentropy.Storage.BTree.{Limits, Key, Node, NodePtr, node_ptr}

pub All-split {ℓ} :
    {A : Type 0} (P : A → Type ℓ) (xs ys : List A) → All P (xs ++ ys) → All P xs × All P ys
All-split P [] ys h = (tt, h)
All-split P (x ∷ xs) ys h = let both = All-split P xs ys h.1 in ((h.0, both.0), both.1)

-- What a node counts and adds up are the items under it.
pub record Counts (node : Node) (xs : List Item) : Type 0 where
  pub count : node.accum_count ≡ length xs
  pub total : node.accum ≡ accum_from zero_accum xs

-- The keys in use stand at the front of the array.
pub record Slots (l : Limits) (node : Node) (keys : List Key) : Type 0 where
  pub rest : List Key
  pub used : node.items ≡ keys ++ rest
  pub full : node.num_items ≡ length keys
  pub room : length node.items ≡ suc l.max_items
  pub within : length keys ≤ l.max_items

abbrev pub item_of : Key → Item
item_of k = k.item

abbrev pub First : Item → List Item → Type 0
First a [] = ⊥
First a (x ∷ xs) = a ≡ x

-- the keys of a leaf are its items
pub record LeafKeys (keys : List Key) (xs : List Item) (below : List ℕ) : Type 0 where
  pub own : xs ≡ map item_of keys
  pub no_child : All (λ (k : Key). k.node_id ≡ 0) keys
  pub none_below : below ≡ []

module _ (l : Limits) (read : ℕ → NodePtr) where
  -- one child, in front of others
  pub record Child (Held : ℕ → List Item → List ℕ → Type 0) (Rest : List Item → List ℕ → Type 0)
      (k : Key) (xs : List Item) (below : List ℕ) : Type 0 where
    pub ys : List Item
    pub zs : List Item
    pub is : List ℕ
    pub js : List ℕ
    pub items_split : xs ≡ ys ++ zs
    pub ids_split : below ≡ is ++ js
    pub some_id : 0 < k.node_id
    pub first : First k.item ys
    pub held : Held k.node_id ys is
    pub others : Rest zs js

  abbrev pub Below : (ℕ → List Item → List ℕ → Type 0) → List Key → List Item → List ℕ → Type 0
  Below Held [] xs below = (xs ≡ []) × (below ≡ [])
  Below Held (k ∷ ks) xs below = Child Held (Below Held ks) k xs below

  -- One node with its keys, and what they say of the items below it.
  pub record Level (Body : List Key → List Item → List ℕ → Type 0) (id : ℕ) (xs : List Item)
      (ids : List ℕ) : Type 0 where
    pub node : Node
    pub keys : List Key
    pub below : List ℕ
    pub found : read id ≡ node_ptr id node
    pub slots : Slots l node keys
    pub some_key : 0 < length keys
    pub counts : Counts node xs
    pub own : ids ≡ id ∷ below
    pub body : Body keys xs below

  -- The node and those under it, leaves `depth` levels down, hold the items.
  abbrev pub Sub : ℕ → ℕ → List Item → List ℕ → Type 0
  Sub zero id xs ids = Level LeafKeys id xs ids
  Sub (suc depth) id xs ids = Level (Below (Sub depth)) id xs ids

-- Two pointers to nodes that differ in their siblings at most.
pub record SameKeys (node node' : Node) : Type 0 where
  pub num_items : node'.num_items ≡ node.num_items
  pub accum_count : node'.accum_count ≡ node.accum_count
  pub accum : node'.accum ≡ node.accum
  pub items : node'.items ≡ node.items

-- Where one store has a node, the other has the same but for its siblings.
abbrev pub Agrees : (ℕ → NodePtr) → (ℕ → NodePtr) → ℕ → Type 0
Agrees read read' id =
    (node : Node)
    → read id ≡ node_ptr id node
    → (node' : Node) × (read' id ≡ node_ptr id node') × SameKeys node node'

pub Agrees-trans : (r s t : ℕ → NodePtr) (id : ℕ) → Agrees r s id → Agrees s t id → Agrees r t id
Agrees-trans r s t id f g node e =
    let (node', e', same) = f node e in
    let (node'', e'', same') = g node' e' in
    (
      node'',
      e'',
      record {
        num_items = same'.num_items ∙ same.num_items;
        accum_count = same'.accum_count ∙ same.accum_count;
        accum = same'.accum ∙ same.accum;
        items = same'.items ∙ same.items;
      },
    )

pub SameKeys-Slots :
    {l : Limits} {node node' : Node} {keys : List Key}
    → SameKeys node node'
    → Slots l node keys
    → Slots l node' keys
SameKeys-Slots same s = record {
  rest = s.rest;
  used = same.items ∙ s.used;
  full = same.num_items ∙ s.full;
  room = ap length same.items ∙ s.room;
  within = s.within;
}

pub SameKeys-Counts :
    {node node' : Node} {xs : List Item} → SameKeys node node' → Counts node xs → Counts node' xs
SameKeys-Counts same c = record { count = same.accum_count ∙ c.count; total = same.accum ∙ c.total }

module _ (l : Limits) (read read' : ℕ → NodePtr) where
  -- A tree stays where its nodes agree.
  Level-Agrees :
      (Body Body' : List Key → List Item → List ℕ → Type 0)
      → ((keys : List Key) (xs : List Item) (below : List ℕ)
          → All (Agrees read read') below
          → Body keys xs below
          → Body' keys xs below)
      → (id : ℕ) (xs : List Item) (ids : List ℕ) → All (Agrees read read') ids
      → Level l read Body id xs ids
      → Level l read' Body' id xs ids
  Level-Agrees Body Body' move id xs ids a v =
      let split : All (Agrees read read') (id ∷ v.below) =
        subst (All (Agrees read read')) v.own a in
      let (node', e', same) = split.0 v.node v.found in
      record {
        node = node';
        keys = v.keys;
        below = v.below;
        found = e';
        slots = SameKeys-Slots same v.slots;
        some_key = v.some_key;
        counts = SameKeys-Counts same v.counts;
        own = v.own;
        body = move v.keys xs v.below split.1 v.body;
      }

  pub Below-Agrees :
      (Held Held' : ℕ → List Item → List ℕ → Type 0)
      → ((id : ℕ) (xs : List Item) (ids : List ℕ)
          → All (Agrees read read') ids
          → Held id xs ids
          → Held' id xs ids)
      → (keys : List Key) (xs : List Item) (below : List ℕ) → All (Agrees read read') below
      → Below l read Held keys xs below
      → Below l read' Held' keys xs below
  Below-Agrees Held Held' move [] xs below a b = b
  Below-Agrees Held Held' move (k ∷ ks) xs below a b =
      let both = All-split (Agrees read read') b.is b.js (rw (← b.ids_split) a) in
      record {
        ys = b.ys;
        zs = b.zs;
        is = b.is;
        js = b.js;
        items_split = b.items_split;
        ids_split = b.ids_split;
        some_id = b.some_id;
        first = b.first;
        held = move k.node_id b.ys b.is both.0 b.held;
        others = Below-Agrees Held Held' move ks b.zs b.js both.1 b.others;
      }

  pub Sub-Agrees :
      (depth id : ℕ) (xs : List Item) (ids : List ℕ)
      → All (Agrees read read') ids
      → Sub l read depth id xs ids
      → Sub l read' depth id xs ids
  Sub-Agrees zero id xs ids a v =
      Level-Agrees LeafKeys LeafKeys (λ keys ys below _ b. b) id xs ids a v
  Sub-Agrees (suc depth) id xs ids a v =
      Level-Agrees (Below l read (Sub l read depth)) (Below l read' (Sub l read' depth))
        (Below-Agrees (Sub l read depth) (Sub l read' depth) (Sub-Agrees depth)) id xs ids a v

module _ (l : Limits) (read : ℕ → NodePtr) (Held : ℕ → List Item → List ℕ → Type 0) where
  -- the children of some keys, and those of the keys behind them
  pub record Halves (ks ks' : List Key) (xs : List Item) (below : List ℕ) : Type 0 where
    pub ys : List Item
    pub zs : List Item
    pub is : List ℕ
    pub js : List ℕ
    pub items_split : xs ≡ ys ++ zs
    pub ids_split : below ≡ is ++ js
    pub front : Below l read Held ks ys is
    pub back : Below l read Held ks' zs js

  pub Below-split :
      (ks ks' : List Key) (xs : List Item) (below : List ℕ)
      → Below l read Held (ks ++ ks') xs below
      → Halves ks ks' xs below
  Below-split [] ks' xs below b = record {
    ys = [];
    zs = xs;
    is = [];
    js = below;
    items_split = refl;
    ids_split = refl;
    front = (refl, refl);
    back = b;
  }
  Below-split (k ∷ ks) ks' xs below b =
      let h = Below-split ks ks' b.zs b.js b.others in
      record {
        ys = b.ys ++ h.ys;
        zs = h.zs;
        is = b.is ++ h.is;
        js = h.js;
        items_split =
            b.items_split ∙ ap (◌++◌ b.ys) h.items_split ∙ sym (append_assoc b.ys h.ys h.zs);
        ids_split = b.ids_split ∙ ap (◌++◌ b.is) h.ids_split ∙ sym (append_assoc b.is h.is h.js);
        front = record {
          ys = b.ys;
          zs = h.ys;
          is = b.is;
          js = h.is;
          items_split = refl;
          ids_split = refl;
          some_id = b.some_id;
          first = b.first;
          held = b.held;
          others = h.front;
        };
        back = h.back;
      }

  pub Below-join :
      (ks ks' : List Key) (ys zs : List Item) (is js : List ℕ)
      → Below l read Held ks ys is
      → Below l read Held ks' zs js
      → Below l read Held (ks ++ ks') (ys ++ zs) (is ++ js)
  Below-join [] ks' ys zs is js a b =
      subst (λ (ids : List ℕ). Below l read Held ks' (ys ++ zs) (ids ++ js)) (sym a.1)
        (subst (λ (its : List Item). Below l read Held ks' (its ++ zs) js) (sym a.0) b)
  Below-join (k ∷ ks) ks' ys zs is js a b = record {
    ys = a.ys;
    zs = a.zs ++ zs;
    is = a.is;
    js = a.js ++ js;
    items_split = ap (λ (its : List Item). its ++ zs) a.items_split ∙ append_assoc a.ys a.zs zs;
    ids_split = ap (λ (ids : List ℕ). ids ++ js) a.ids_split ∙ append_assoc a.is a.js js;
    some_id = a.some_id;
    first = a.first;
    held = a.held;
    others = Below-join ks ks' a.zs zs a.js js a.others b;
  }

pub First-append : (a : Item) (xs ys : List Item) → First a xs → First a (xs ++ ys)
First-append a [] ys f = absurd f
First-append a (x ∷ xs) ys f = f

-- the first key of a node is the first item under it
pub Sub-First :
    (l : Limits) (read : ℕ → NodePtr) (depth id : ℕ) (xs : List Item) (ids : List ℕ)
    → (v : Sub l read depth id xs ids)
    → (node : Node) × (k : Key) × (ks : List Key) × (read id ≡ node_ptr id node)
      × (node.items ≡ k ∷ ks)
      × First k.item xs
Sub-First l read zero id xs ids v = leaf v.keys v.slots.used v.some_key v.body
  where
    leaf :
        (keys : List Key)
        → v.node.items ≡ keys ++ v.slots.rest
        → 0 < length keys
        → LeafKeys keys xs v.below
        → (node : Node) × (k : Key) × (ks : List Key) × (read id ≡ node_ptr id node)
          × (node.items ≡ k ∷ ks)
          × First k.item xs
    leaf [] e h b = absurd (omega arith)
    leaf (k ∷ ks) e h b =
        (v.node, k, ks ++ v.slots.rest, v.found, e, subst (First k.item) (sym b.own) refl)
Sub-First l read (suc depth) id xs ids v = inner v.keys v.slots.used v.some_key v.body
  where
    inner :
        (keys : List Key)
        → v.node.items ≡ keys ++ v.slots.rest
        → 0 < length keys
        → Below l read (Sub l read depth) keys xs v.below
        → (node : Node) × (k : Key) × (ks : List Key) × (read id ≡ node_ptr id node)
          × (node.items ≡ k ∷ ks)
          × First k.item xs
    inner [] e h b = absurd (omega arith)
    inner (k ∷ ks) e h b = (
      v.node,
      k,
      ks ++ v.slots.rest,
      v.found,
      e,
      subst (First k.item) (sym b.items_split) (First-append k.item b.ys b.zs b.first),
    )
