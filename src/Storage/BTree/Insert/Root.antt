-- ===== src/Storage/BTree/Insert/Root.antt =====
-- A new root: the first leaf of a tree, or a level above the halves of the old root.
use negentropy.Prelude.{
  ℕ, ◌+◌, ◌<◌, ◌≡◌, ap, sym, ◌∙◌, List, [], ◌∷◌, arith, All, u64_mod, inl, inr,
}
use mathlib.Core.Path.{subst}
use negentropy.Storage.BTree.{Limits, Node, zero_node, NodePtr, node_ptr, NodeStore}
use negentropy.Storage.BTree.Shape.{Agrees}
use negentropy.Storage.BTree.Laws.{StoreLaws, Linked}
use negentropy.Storage.BTree.Changes.{
  Sound, Change, Agrees-same, make_Change, write_Change, read_same, read_other, read_made,
  read_before,
}

module _ {M : Type 0} (s : NodeStore M) (l : Limits) (law : StoreLaws l s) where
  -- the store with a new node, which is its root
  abbrev pub with_root : Node → M → M
  with_root n m = s.set_root (s.make m).1.node_id (s.write (s.make m).1.node_id n (s.make m).0)

  pub record Rooted (m m' : M) (n : Node) : Type 0 where
    pub sound : Sound s l law m'
    pub root : s.get_root m' ≡ law.next m
    pub next : law.next m' ≡ law.next m + 1
    pub at : s.read m' (law.next m) ≡ node_ptr (law.next m) n
    pub kept : (is : List ℕ) → All (λ i. i < law.next m) is → All (Agrees (s.read m) (s.read m')) is

  pub with_root-Rooted :
      (m : M) (n : Node)
      → Sound s l law m
      → law.next m + 1 < u64_mod
      → n.next_sibling ≡ 0
      → Rooted m (with_root n m) n
  with_root-Rooted m n sound room none_next =
      subst (λ (id : ℕ). Rooted m (s.set_root id (s.write id n (s.make m).0)) n)
        (sym (ap (λ (ptr : NodePtr). ptr.node_id) (law.make_ptr m sound.valid room)))
        (record {
          sound = record {
            valid = law.set_root-Valid m2 (law.next m) c2.sound.valid;
            linked = linked;
          };
          root = law.get_root-set_root m2 (law.next m);
          next =
              law.next-set_root m2 (law.next m)
              ∙ law.next-write m1 (law.next m) n
              ∙ law.next-make m sound.valid room;
          at =
              law.read-set_root m2 (law.next m) (law.next m)
              ∙ read_same s l law m1 (law.next m) n (zero_node l) c1.sound.valid there;
          kept = kept;
        })
    where
      m1 : M
      m1 = (s.make m).0

      c1 : Change s l law m m1 []
      c1 = make_Change s l law m sound room

      there : s.read m1 (law.next m) ≡ node_ptr (law.next m) (zero_node l)
      there = read_made s l law m sound room

      m2 : M
      m2 = s.write (law.next m) n m1

      c2 : Change s l law m1 m2 (law.next m ∷ [])
      c2 =
          write_Change s l law m1 (law.next m) n (zero_node l) c1.sound.valid there c1.sound.linked
            (inl none_next)

      m3 : M
      m3 = s.set_root (law.next m) m2

      linked : Linked (s.read m3)
      linked k a e = elim (c2.sound.linked k a (sym (law.read-set_root m2 (law.next m) k) ∙ e)) [
        | inl z ↦ inl z
        | inr (b, f) ↦ inr (b, law.read-set_root m2 (law.next m) a.next_sibling ∙ f)
      ]

      kept : (is : List ℕ) → All (λ i. i < law.next m) is → All (Agrees (s.read m) (s.read m3)) is
      kept [] a = tt
      kept (i ∷ is) a = (
        Agrees-same (s.read m) (s.read m3) i (
            law.read-set_root m2 (law.next m) i
            ∙ read_other s l law m1 (law.next m) n (zero_node l) c1.sound.valid there i
                (omega (arith, a.0))
            ∙ read_before s l law m sound room i a.0),
        kept is a.1,
      )
