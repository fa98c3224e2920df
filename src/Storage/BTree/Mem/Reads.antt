-- ===== src/Storage/BTree/Mem/Reads.antt =====
-- What a read of the store finds after a node was made, written or deleted.
use negentropy.Prelude.{
  ℕ, ◌+◌, ◌%◌, ◌≤◌, ◌<◌, ◌≡◌, ◌≢◌, refl, ◌∙◌, List, [], ◌∷◌, All, arith, ◌==◌, if◌then◌else◌, some,
  none, u64_mod, inl, inr, Bool-cases,
}
use negentropy.Storage.BTree.{Limits, Node, zero_node, null_ptr, node_ptr}
use negentropy.Storage.BTree.Mem.{
  BTreeMem, find_node, try_emplace, erase, assign, get_node_read, write_node, make_node,
  delete_node,
}

-- Ids are given out in order, from 1 on.
pub record IsStore (m : BTreeMem) : Type 0 where
  pub started : 0 < m.next_node_id
  pub given : All (λ (e : ℕ × Node). (0 < e.0) × (e.0 < m.next_node_id)) m.node_storage_map

pub find_node-fresh :
    (k : ℕ) (es : List (ℕ × Node)) (limit : ℕ)
    → limit ≤ k
    → All (λ (e : ℕ × Node). (0 < e.0) × (e.0 < limit)) es
    → find_node k es ≡ none
unfolding find_node
find_node-fresh k [] limit h a = refl
find_node-fresh k (e ∷ es) limit h a = ground (arith, find_node-fresh k es limit h a.1)

All-later :
    (es : List (ℕ × Node)) (m n : ℕ)
    → m ≤ n
    → All (λ (e : ℕ × Node). (0 < e.0) × (e.0 < m)) es
    → All (λ (e : ℕ × Node). (0 < e.0) × (e.0 < n)) es
All-later [] m n h a = tt
All-later (e ∷ es) m n h a = ((a.0.0, omega arith), All-later es m n h a.1)

find_node-erase :
    (j k : ℕ) (es : List (ℕ × Node))
    → find_node k (erase j es) ≡ (if k == j then none else find_node k es)
unfolding find_node erase
find_node-erase j k [] = ground arith
find_node-erase j k (e ∷ es) = ground (arith, find_node-erase j k es)

erase-Given :
    (j limit : ℕ) (es : List (ℕ × Node))
    → All (λ (e : ℕ × Node). (0 < e.0) × (e.0 < limit)) es
    → All (λ (e : ℕ × Node). (0 < e.0) × (e.0 < limit)) (erase j es)
unfolding erase
erase-Given j limit [] a = tt
erase-Given j limit (e ∷ es) a = elim (Bool-cases (e.0 == j)) [
  | inl same ↦ rw same (erase-Given j limit es a.1)
  | inr other ↦ rw other (a.0, erase-Given j limit es a.1)
]

try_emplace-fresh :
    (k : ℕ) (n : Node) (es : List (ℕ × Node))
    → find_node k es ≡ none
    → try_emplace k n es ≡ (k, n) ∷ es
unfolding try_emplace
try_emplace-fresh k n es h = ground (arith, h)

-- the store after `make_node`
unfoldable pub made : Limits → BTreeMem → BTreeMem
made l m = record m {
  next_node_id = m.next_node_id + 1;
  node_storage_map = (m.next_node_id, zero_node l) ∷ m.node_storage_map;
}

pub make_node-made :
    (l : Limits) (m : BTreeMem)
    → IsStore m
    → m.next_node_id + 1 < u64_mod
    → make_node l m ≡ (made l m, get_node_read (made l m) m.next_node_id)
unfolding make_node made
make_node-made l m s h =
    let fresh =
      try_emplace-fresh _ (zero_node l) _
        (find_node-fresh m.next_node_id m.node_storage_map m.next_node_id (omega arith) s.given) in
    let short : (m.next_node_id + 1) % u64_mod ≡ m.next_node_id + 1 = omega arith in
    rw (fresh, short)

pub get_node_read-made :
    (l : Limits) (m : BTreeMem) (k : ℕ)
    → 0 < m.next_node_id
    → get_node_read (made l m) k
      ≡ (if k == m.next_node_id then node_ptr k (zero_node l) else get_node_read m k)
unfolding get_node_read made find_node
get_node_read-made l m k h = ground arith

pub make_node_fresh :
    (l : Limits) (m : BTreeMem)
    → IsStore m
    → m.next_node_id + 1 < u64_mod
    → ((make_node l m).1 ≡ node_ptr m.next_node_id (zero_node l))
      × (get_node_read m m.next_node_id ≡ null_ptr)
      × ((k : ℕ) → k ≢ m.next_node_id → get_node_read (make_node l m).0 k ≡ get_node_read m k)
      × IsStore (make_node l m).0
make_node_fresh l m s h = rw (make_node-made l m s h) (
  get_node_read-made l m m.next_node_id s.started ∙ ground arith,
  unused,
  (λ k ne. get_node_read-made l m k s.started ∙ ground arith),
  unfold made in
      record {
        started = omega arith;
        given = (
          (s.started, omega arith),
          All-later m.node_storage_map m.next_node_id (m.next_node_id + 1) (omega arith) s.given,
        );
      },
)
  where
    unused : get_node_read m m.next_node_id ≡ null_ptr
    unused =
        unfold get_node_read in
        ground (
          arith,
          find_node-fresh m.next_node_id m.node_storage_map m.next_node_id (omega arith) s.given,
        )

-- After `delete_node` its id reads as null and every other id as before, and the ids are still given
-- out in order if they were.
pub delete_node-get_node_read :
    (m : BTreeMem) (j : ℕ)
    → IsStore m
    → ((k : ℕ)
        → get_node_read (delete_node j m) k ≡ (if k == j then null_ptr else get_node_read m k))
      × IsStore (delete_node j m)
unfolding delete_node get_node_read
delete_node-get_node_read m j s = (
  (λ k. ground (arith, find_node-erase j k m.node_storage_map)),
  record { started = s.started; given = erase-Given j m.next_node_id m.node_storage_map s.given },
)

find_node-assign :
    (j k : ℕ) (n : Node) (es : List (ℕ × Node))
    → find_node k (assign j n es)
      ≡ elim (find_node k es) [ none ↦ none | some old ↦ some (if k == j then n else old) ]
unfolding find_node assign
find_node-assign j k n [] = refl
find_node-assign j k n (e ∷ es) = ground (arith, find_node-assign j k n es)

assign-Given :
    (j limit : ℕ) (n : Node) (es : List (ℕ × Node))
    → All (λ (e : ℕ × Node). (0 < e.0) × (e.0 < limit)) es
    → All (λ (e : ℕ × Node). (0 < e.0) × (e.0 < limit)) (assign j n es)
unfolding assign
assign-Given j limit n [] a = tt
assign-Given j limit n (e ∷ es) a = elim (Bool-cases (e.0 == j)) [
  | inl same ↦ rw same ((ground arith, ground arith), a.1)
  | inr other ↦ rw other (a.0, assign-Given j limit n es a.1)
]

pub write_node-get_node_read :
    (m : BTreeMem) (j : ℕ) (n old : Node)
    → IsStore m
    → get_node_read m j ≡ record { p = some old; node_id = j }
    → (get_node_read (write_node j n m) j ≡ record { p = some n; node_id = j })
      × ((k : ℕ) → k ≢ j → get_node_read (write_node j n m) k ≡ get_node_read m k)
      × IsStore (write_node j n m)
unfolding write_node get_node_read
write_node-get_node_read m j n old s h = (
  (ground (arith, find_node-assign j j n m.node_storage_map)),
  (λ k ne. ground (arith, find_node-assign j k n m.node_storage_map)),
  record {
    started = s.started;
    given = assign-Given j m.next_node_id n m.node_storage_map s.given;
  },
)
