-- ===== src/Storage/BTree/Reading.antt =====
-- cpp/negentropy/storage/btree/core.h, the operations that read a tree: `traverseToOffset` and the
-- storage interface. `getNodeRead` and the id of the root are arguments. Recursion into the tree is on
-- fuel, the depth of the tree. A callback that returns early ends the walk, as in `walk`.
use negentropy.Prelude.{
  ℕ, zero, suc, ◌+◌, ◌-◌, ◌%◌, Bool, true, false, not, Bytes, List, [], ◌∷◌, take, get_elem?, min,
  ◌||◌, ltb, leb, ◌==◌, if◌then◌else◌, Option, none, some,
}
use negentropy.Prelude.Results.{Result, ok, err, Error, ◌>>=◌, ◌>>◌, guard}
use negentropy.Types.{Item, Bound, item_le}
use negentropy.Accumulator.{add, negate, zero_accum, get_fingerprint}
use negentropy.Storage.BTree.{Key, Node, NodePtr, deref, key_at}
pub mod Fingerprint
pub mod Whole
pub mod Items
pub mod Pick
pub mod Bounds

-- `for (i = 0; i < index; i++) accum.add(node.items[i].item);` over the keys that are left
pub add_keys : Bytes → List Key → Bytes
add_keys accum [] = accum
add_keys accum (k ∷ ks) = add_keys (add accum k.item.id) ks

module _ (read : ℕ → NodePtr) where
  -- The loop over the children: `visit` goes into the child that holds the offset.
  pub descend :
      {S : Type 0} → (ℕ → Node → S → Result S) → (Node → S → S) → List Key → ℕ → S → Result S
  descend visit custom_accum [] index s = ok s
  descend visit custom_accum (k ∷ ks) index s = do
    child ← deref (read k.node_id)
    if ltb index child.accum_count
        then visit index child s
        else descend visit custom_accum ks (index - child.accum_count) (custom_accum child s)

  pub traverse_to_offset_aux :
      {S : Type 0} → (Node → ℕ → S → Result S) → (Node → S → S) → ℕ → ℕ → Node → S → Result S
  traverse_to_offset_aux cb custom_accum zero index node s = err Error.out_of_fuel
  traverse_to_offset_aux cb custom_accum (suc fuel) index node s =
      if node.num_items == node.accum_count
      then cb node index s
      else descend (traverse_to_offset_aux cb custom_accum fuel) custom_accum
          (take node.num_items node.items) index s

  -- The keys from the second on; `prev` is the one before them.
  unfoldable pub pick_child : Item → Key → List Key → ℕ → Result (ℕ × ℕ)
  pick_child v prev [] num_to_left = ok (prev.node_id, num_to_left)
  pick_child v prev (k ∷ ks) num_to_left =
      if item_le v k.item then ok (prev.node_id, num_to_left) else do
        width ←
            if prev.node_id == 0
            then ok 1
            else do child ← deref (read prev.node_id); ok child.accum_count
        pick_child v k ks (num_to_left + width)

  unfoldable pub pick_in : Item → List Key → ℕ → Result (ℕ × ℕ)
  pick_in v [] num_to_left = err Error.undefined
  pick_in v (k ∷ ks) num_to_left = pick_child v k ks num_to_left

  unfoldable pub find_lower_bound_aux : ℕ → Item → NodePtr → ℕ → Result ℕ
  find_lower_bound_aux zero v ptr num_to_left = err Error.out_of_fuel
  find_lower_bound_aux (suc fuel) v ptr num_to_left = elim ptr.p [
    | none ↦ ok (num_to_left + 1)
    | some node ↦ (do
      (id, left) ← pick_in v (take node.num_items node.items) num_to_left
      find_lower_bound_aux fuel v (read id) left)
  ]

  -- The rounds that are left, from index `index` of `curr_node` on: a leaf that is used up is followed
  -- by its sibling.
  pub walk_leaves :
      {S : Type 0} → (Item → ℕ → S → S × Bool) → ℕ → ℕ → Option Node → ℕ → S → Result S
  walk_leaves cb zero i curr_node index s = ok s
  walk_leaves cb (suc num) i curr_node index s = do
    node ← deref (record { p = curr_node; node_id = 0 })
    k ← key_at node index
    let r = cb k.item i s
    let used_up = leb node.num_items (index + 1)
    let rest =
        walk_leaves cb num (suc i) (if used_up then (read node.next_sibling).p else curr_node)
          (if used_up then 0 else index + 1) r.0
    if r.1 then rest else ok r.0

  module _ (root_id depth : ℕ) where
    unfoldable pub traverse_to_offset :
        {S : Type 0} → (Node → ℕ → S → Result S) → (Node → S → S) → ℕ → S → Result S
    traverse_to_offset cb custom_accum index s = elim (read root_id).p [
      | none ↦ ok s
      | some root ↦ (do
        guard (not (ltb root.accum_count index)) Error.out_of_range
        traverse_to_offset_aux cb custom_accum depth index root s)
    ]

    unfoldable pub size : Result ℕ
    size = elim (read root_id).p [ none ↦ ok 0 | some root ↦ ok root.accum_count ]

    unfoldable pub check_bounds : ℕ → ℕ → Result (Unit {0})
    check_bounds begin end = do n ← size; guard (not (ltb end begin || ltb n end)) Error.bad_range

    unfoldable pub find_lower_bound : ℕ → ℕ → Bound → Result ℕ
    find_lower_bound begin end value = do
      check_bounds begin end
      elim (read root_id).p [
        | none ↦ ok end
        | some root ↦ (do
          first ← key_at root 0
          if item_le value.item first.item
              then ok begin
              else do i ← find_lower_bound_aux depth value.item (read root_id) 0; ok (min i end))
      ]

    unfoldable pub accum_left_of : ℕ → Result Bytes
    accum_left_of index =
        traverse_to_offset (λ node i accum. ok (add_keys accum (take i node.items)))
          (λ node accum. add accum node.accum) index zero_accum

    unfoldable pub fingerprint : (Bytes → Bytes) → ℕ → ℕ → Result Bytes
    fingerprint sha256 begin end = do
      check_bounds begin end
      accum1 ← accum_left_of begin
      accum2 ← accum_left_of end
      ok (get_fingerprint sha256 (add accum2 (negate accum1)) (end - begin))

    unfoldable pub get_item : ℕ → Result Item
    get_item index = do
      n ← size
      guard (ltb index n) Error.out_of_range
      out ←
          traverse_to_offset (λ node i out. do k ← key_at node i; ok (some k.item))
            (λ node out. out) index none
      elim out [ none ↦ err Error.undefined | some it ↦ ok it ]

    pub iterate : (S : Type 0) → (Item → ℕ → S → S × Bool) → ℕ → ℕ → S → Result S
    iterate S cb begin end s = do
      check_bounds begin end
      traverse_to_offset (λ node index st. walk_leaves cb (end - begin) begin (some node) index st)
          (λ node st. st) begin s
