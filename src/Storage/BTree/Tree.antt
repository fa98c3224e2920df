-- ===== src/Storage/BTree/Tree.antt =====
-- What the operations on a tree keep up: the store holds a tree of valid items in ascending order under
-- its root, or has no root. Also how a new root holds a tree.
use negentropy.Prelude.{ℕ, suc, ◌<◌, ◌≡◌, List, [], All}
use negentropy.Types.{Item, IsItem}
use negentropy.Storage.{IsAscending}
use negentropy.Storage.BTree.{Limits, NodeStore}
use negentropy.Storage.BTree.Shape.{Sub}
use negentropy.Storage.BTree.Ids.{Distinct}
use negentropy.Storage.BTree.Laws.{StoreLaws}
use negentropy.Storage.BTree.Changes.{Sound}

module _ {M : Type 0} (s : NodeStore M) (l : Limits) (law : StoreLaws l s) where
  -- the nodes under the root, on so many levels
  pub data Shape (m : M) (xs : List Item) : ℕ → Type 0 where
    no_root : s.get_root m ≡ 0 → xs ≡ [] → Shape m xs 0
    rooted :
        (depth : ℕ) (ids : List ℕ)
        → Sub l (s.read m) depth (s.get_root m) xs ids
        → Distinct ids
        → All (λ i. i < law.next m) ids
        → Shape m xs (suc depth)

  pub record IsTree (m : M) (xs : List Item) (levels : ℕ) : Type 0 where
    pub sound : Sound s l law m
    pub valid : All IsItem xs
    pub sorted : IsAscending xs
    pub shape : Shape m xs levels
