-- ===== src/Storage/BTree/Insert/Steps.antt =====
-- What one breadcrumb of an insertion does to its node, branch by branch.
use negentropy.Prelude.{
  ℕ, ◌+◌, ◌≤◌, ◌<◌, ◌≡◌, refl, ap, ◌∙◌, true, false, List, [], ◌∷◌, ◌++◌, take, length, arith, ltb,
}
use negentropy.Prelude.Results.{ok}
use negentropy.Types.{Item}
use negentropy.Accumulator.{add}
use negentropy.Storage.BTree.{
  Limits, Key, Node, NodePtr, null_ptr, node_ptr, deref, key_at, NodeStore,
}
use negentropy.Storage.BTree.Search.{Breadcrumb}
use negentropy.Storage.BTree.Shape.{Slots}
use negentropy.Storage.BTree.Insert.{
  load, refresh_index, refresh_from, put_key, insert_step, split_at,
}

pub take-front_keys : (ks rest : List Key) → take (length ks) (ks ++ rest) ≡ ks
take-front_keys [] rest = refl
take-front_keys (k ∷ ks) rest = ap (◌∷◌ k) (take-front_keys ks rest)

pub take-Slots :
    {l : Limits} {node : Node} {keys : List Key}
    → Slots l node keys
    → take node.num_items node.items ≡ keys
take-Slots {node = node} {keys = keys} s =
    ap (λ (n : ℕ). take n node.items) s.full
    ∙ ap (take (length keys)) s.used
    ∙ take-front_keys keys s.rest

-- The first item under a key as a store has it: that of the child, or the key's own if it has none.
pub data Fixes (read : ℕ → NodePtr) (k : Key) (f : Item) : Type 0 where
  own : read k.node_id ≡ null_ptr → k.item ≡ f → Fixes read k f
  child :
      (node : Node) (c : Key) (cs : List Key)
      → read k.node_id ≡ node_ptr k.node_id node
      → node.items ≡ c ∷ cs
      → c.item ≡ f
      → Fixes read k f

module _ {M : Type 0} (s : NodeStore M) (l : Limits) where
  pub load_found :
      (m : M) (id : ℕ) (node : Node) → s.read m id ≡ node_ptr id node → load s l m id ≡ ok node
  unfolding load deref
  load_found m id node e = simp e

  -- `refreshIndex(node, 0)`
  pub refresh_first :
      (m : M) (node : Node) (k : Key) (ks : List Key) (f : Item)
      → node.items ≡ k ∷ ks
      → Fixes (s.read m) k f
      → refresh_index s l m node 0 ≡ ok (record node { items = record k { item = f } ∷ ks })
  unfolding refresh_index refresh_from key_at
  refresh_first m node k ks f e (Fixes.own none_there same) =
      rw (e, none_there)
        (ap (λ (it : Item). ok (record node { items = record k { item = it } ∷ ks })) same)
  refresh_first m node k ks f e (Fixes.child n c cs there first same) =
      rw (e, there, first)
        (ap (λ (it : Item). ok (record node { items = record k { item = it } ∷ ks })) same)

  module _ (new_item : Item) (crumb : Breadcrumb) (m : M) (node : Node)
      (found : s.read m crumb.node_id ≡ node_ptr crumb.node_id node) where
    -- nothing is left to merge
    unfoldable pub bumped : Node
    bumped = record node { accum = add node.accum new_item.id; accum_count = node.accum_count + 1 }

    pub bump_step :
        (key : Key) (k : Key) (ks : List Key) (f : Item)
        → node.items ≡ k ∷ ks
        → Fixes (s.read m) k f
        → insert_step s l new_item crumb (record { store = m; new_key = key; needs_merge = false })
          ≡ ok (record {
            store = s.write crumb.node_id (record bumped { items = record k { item = f } ∷ ks }) m;
            new_key = key;
            needs_merge = false;
          })
    unfolding insert_step bumped
    bump_step key k ks f e fix =
        simp (load_found m crumb.node_id node found, refresh_first m bumped k ks f e fix)

    pub put_step :
        (key : Key) (k : Key) (ks : List Key) (f : Item)
        → node.num_items < l.max_items
        → (put_key s l key new_item node).items ≡ k ∷ ks
        → Fixes (s.read m) k f
        → insert_step s l new_item crumb (record { store = m; new_key = key; needs_merge = true })
          ≡ ok (record {
            store =
                s.write crumb.node_id
                  (record (put_key s l key new_item node) { items = record k { item = f } ∷ ks })
                  m;
            new_key = key;
            needs_merge = false;
          })
    unfolding insert_step
    put_step key k ks f h e fix =
        let room : ltb node.num_items l.max_items ≡ true = ground arith in
        simp (
          load_found m crumb.node_id node found,
          room,
          refresh_first m (put_key s l key new_item node) k ks f e fix,
        )

    pub full_step :
        (key : Key) (m' : M) (left : Node) (up : Key) (k : Key) (ks : List Key) (f : Item)
        → l.max_items ≤ node.num_items
        → split_at s l m crumb.node_id key node ≡ ok (m', left, up)
        → left.items ≡ k ∷ ks
        → Fixes (s.read m') k f
        → insert_step s l new_item crumb (record { store = m; new_key = key; needs_merge = true })
          ≡ ok (record {
            store = s.write crumb.node_id (record left { items = record k { item = f } ∷ ks }) m';
            new_key = up;
            needs_merge = true;
          })
    unfolding insert_step
    full_step key m' left up k ks f h cut e fix =
        let full : ltb node.num_items l.max_items ≡ false = ground arith in
        simp (load_found m crumb.node_id node found, full, cut, refresh_first m' left k ks f e fix)
