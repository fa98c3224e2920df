-- ===== src/Storage/BTree/Changes.antt =====
-- What writing and making a node change of a store, and what they leave.
use negentropy.Prelude.{
  ℕ, ◌+◌, ◌≤◌, ◌<◌, ◌≡◌, ◌≢◌, refl, ap, sym, ◌∙◌, List, [], ◌∷◌, arith, u64_mod, ◌==◌, ◌⊎◌, inl,
  inr, some, none, Bool-cases,
}
use negentropy.Prelude.Results.{ok}
use negentropy.Storage.BTree.{Limits, Node, zero_node, NodePtr, node_ptr, NodeStore}
use negentropy.Storage.BTree.Shape.{Agrees, Agrees-trans}
use negentropy.Storage.BTree.Ids.{Apart}
use negentropy.Storage.BTree.Laws.{StoreLaws, Linked}
use negentropy.Storage.BTree.Insert.{set_prev}
use negentropy.Storage.BTree.Insert.Steps.{load_found}

pub Agrees-refl : (read : ℕ → NodePtr) (id : ℕ) → Agrees read read id
Agrees-refl read id node e =
    (node, e, record { num_items = refl; accum_count = refl; accum = refl; items = refl })

pub Agrees-same : (read read' : ℕ → NodePtr) (id : ℕ) → read' id ≡ read id → Agrees read read' id
Agrees-same read read' id same node e =
    (node, same ∙ e, record { num_items = refl; accum_count = refl; accum = refl; items = refl })

node_of_ptr : Node → NodePtr → Node
node_of_ptr other ptr = elim ptr.p [ none ↦ other | some n ↦ n ]

pub node_ptr_inj : (k : ℕ) (a b : Node) → node_ptr k a ≡ node_ptr k b → a ≡ b
unfolding node_of_ptr
node_ptr_inj k a b e = ap (node_of_ptr a) e

module _ {M : Type 0} (s : NodeStore M) (l : Limits) (law : StoreLaws l s) where
  open law use {Valid, next}

  -- The sibling is there.
  abbrev pub Sibling : M → ℕ → Type 0
  Sibling m id = (id ≡ 0) ⊎ ((n : Node) × (s.read m id ≡ node_ptr id n))

  -- A store in order.
  pub record Sound (m : M) : Type 0 where
    pub valid : Valid m
    pub linked : Linked (s.read m)

  -- From one store to another: the nodes that are not touched stay but for their siblings.
  pub record Change (m m' : M) (touched : List ℕ) : Type 0 where
    pub sound : Sound m'
    pub same_root : s.get_root m' ≡ s.get_root m
    pub later : next m ≤ next m'
    pub stays :
        (id : ℕ) (n : Node)
        → s.read m id ≡ node_ptr id n
        → (n' : Node) × (s.read m' id ≡ node_ptr id n')
    pub kept : (id : ℕ) → Apart id touched → id < next m → Agrees (s.read m) (s.read m') id

  pub Sibling-stays :
      (m m' : M) (t : List ℕ) (id : ℕ) → Change m m' t → Sibling m id → Sibling m' id
  Sibling-stays m m' t id c (inl none_there) = inl none_there
  Sibling-stays m m' t id c (inr (n, e)) = inr (c.stays id n e)

  module _ (m : M) (j : ℕ) (n old : Node) (v : Valid m) (found : s.read m j ≡ node_ptr j old) where
    pub read_same : s.read (s.write j n m) j ≡ node_ptr j n
    read_same = law.read-write m j j n old v found ∙ ground arith

    pub read_other : (k : ℕ) → k ≢ j → s.read (s.write j n m) k ≡ s.read m k
    read_other k ne = law.read-write m j k n old v found ∙ ground arith

    write_stays :
        (id : ℕ) (a : Node)
        → s.read m id ≡ node_ptr id a
        → (a' : Node) × (s.read (s.write j n m) id ≡ node_ptr id a')
    write_stays id a e = elim (Bool-cases (id == j)) [
      | inl same ↦ (n, law.read-write m j id n old v found ∙ ground arith)
      | inr other ↦ (a, law.read-write m j id n old v found ∙ rw other e)
    ]

    Sibling-write : (id : ℕ) → Sibling m id → Sibling (s.write j n m) id
    Sibling-write id (inl none_there) = inl none_there
    Sibling-write id (inr (a, e)) = inr (write_stays id a e)

    write_Linked : Linked (s.read m) → Sibling m n.next_sibling → Linked (s.read (s.write j n m))
    write_Linked linked next_there k a e = elim (Bool-cases (k == j)) [
      | inl same ↦
          let is_n : a ≡ n =
            node_ptr_inj k a n (sym e ∙ law.read-write m j k n old v found ∙ ground arith) in
          rw is_n (Sibling-write n.next_sibling next_there)
      | inr other ↦
          Sibling-write a.next_sibling
            (linked k a (sym (law.read-write m j k n old v found ∙ rw other) ∙ e))
    ]

    pub write_Change :
        Linked (s.read m) → Sibling m n.next_sibling → Change m (s.write j n m) (j ∷ [])
    write_Change linked next_there = record {
      sound = record {
        valid = law.write-Valid m j n old v found;
        linked = write_Linked linked next_there;
      };
      same_root = law.get_root-write m j n;
      later = omega (arith, law.next-write m j n);
      stays = write_stays;
      kept = λ id a _. Agrees-same (s.read m) (s.read (s.write j n m)) id (read_other id a.0);
    }

  pub Change-trans :
      (m m1 m2 : M) (t t' u : List ℕ)
      → Change m m1 t
      → Change m1 m2 t'
      → ((id : ℕ) → id < next m → Apart id u → Apart id t × Apart id t')
      → Change m m2 u
  Change-trans m m1 m2 t t' u c d apart = record {
    sound = d.sound;
    same_root = d.same_root ∙ c.same_root;
    later = omega (arith, c.later, d.later);
    stays = λ id n e. let (n1, e1) = c.stays id n e in d.stays id n1 e1;
    kept = λ id a lt.
        let (at, at') = apart id lt a in
        Agrees-trans (s.read m) (s.read m1) (s.read m2) id (c.kept id at lt)
          (d.kept id at' (omega (arith, c.later)));
  }

  pub Change-none : (m : M) → Sound m → Change m m []
  Change-none m sound = record {
    sound = sound;
    same_root = refl;
    later = omega arith;
    stays = λ id n e. (n, e);
    kept = λ id _ _. Agrees-refl (s.read m) id;
  }

  module _ (m : M) (sound : Sound m) (room : next m + 1 < u64_mod) where
    pub read_made : s.read (s.make m).0 (next m) ≡ node_ptr (next m) (zero_node l)
    read_made = law.read-make m (next m) sound.valid room ∙ ground arith

    pub read_before : (id : ℕ) → id < next m → s.read (s.make m).0 id ≡ s.read m id
    read_before id lt = law.read-make m id sound.valid room ∙ ground arith

    make_stays :
        (id : ℕ) (n : Node)
        → s.read m id ≡ node_ptr id n
        → (n' : Node) × (s.read (s.make m).0 id ≡ node_ptr id n')
    make_stays id n e = (n, read_before id (law.read_next m id n sound.valid e) ∙ e)

    make_Linked : Linked (s.read (s.make m).0)
    make_Linked k a e = elim (Bool-cases (k == next m)) [
      | inl same ↦
          let is_zero : a ≡ zero_node l =
            node_ptr_inj k a (zero_node l)
              (sym e ∙ law.read-make m k sound.valid room ∙ ground arith) in
          inl (ap (λ (n : Node). n.next_sibling) is_zero)
      | inr other ↦
          let old : Sibling m a.next_sibling =
            sound.linked k a (sym (law.read-make m k sound.valid room ∙ rw other) ∙ e) in
          elim old [ inl z ↦ inl z | inr (n, f) ↦ inr (make_stays a.next_sibling n f) ]
    ]

    pub make_Change : Change m (s.make m).0 []
    make_Change = record {
      sound = record { valid = law.make-Valid m sound.valid room; linked = make_Linked };
      same_root = law.get_root-make m;
      later = omega (arith, law.next-make m sound.valid room);
      stays = make_stays;
      kept = λ id _ lt. Agrees-same (s.read m) (s.read (s.make m).0) id (read_before id lt);
    }

  -- A changed previous sibling leaves every node's keys.
  pub set_prev-Change :
      (m : M) (id prev : ℕ)
      → Sound m
      → Sibling m id
      → (m' : M) × (set_prev s l id prev m ≡ ok m') × Change m m' [] × (next m' ≡ next m)
  unfolding set_prev
  set_prev-Change m id prev sound (inl none_there) = (m, ground arith, Change-none m sound, refl)
  set_prev-Change m id prev sound (inr (n, e)) = elim (Bool-cases (id == 0)) [
    | inl zero_id ↦ (m, rw zero_id, Change-none m sound, refl)
    | inr some_id ↦ (
      s.write id n' m,
      rw some_id (simp (load_found s l m id n e)),
      record {
        sound = c.sound;
        same_root = c.same_root;
        later = c.later;
        stays = c.stays;
        kept = agrees;
      },
      law.next-write m id n',
    )
  ]
    where
      n' : Node
      n' = record n { prev_sibling = prev }

      c : Change m (s.write id n' m) (id ∷ [])
      c = write_Change m id n' n sound.valid e sound.linked (sound.linked id n e)

      agrees : (k : ℕ) → Apart k [] → k < next m → Agrees (s.read m) (s.read (s.write id n' m)) k
      agrees k _ lt a f = elim (Bool-cases (k == id)) [
        | inl same ↦
            let k_id : k ≡ id = ground arith in
            let is_n : a ≡ n = node_ptr_inj k a n (sym f ∙ (rw k_id e)) in
            (
              n',
              law.read-write m id k n' n sound.valid e ∙ ground arith,
              rw is_n (record { num_items = refl; accum_count = refl; accum = refl; items = refl }),
            )
        | inr other ↦ c.kept k (ground arith) lt a f
      ]
