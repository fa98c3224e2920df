-- ===== src/Tests/Stores.antt =====
-- The vector, the sub-range and the search for a bound.
use negentropy.Prelude.{ℕ, ◌≤◌, ◌<◌, ◌≡◌, refl, true, false, [], ◌∷◌, ◌++◌, arith, max_u64, ◌⊎◌}
use negentropy.Prelude.Results.{ok, err, Error}
use negentropy.Types.{Item, bound_at, item_lt}
use negentropy.Storage.{Presents, IsAscending}
use negentropy.Storage.Vector.{Vector, seal, unseal, vector_storage, get_item, find_lower_bound}
use negentropy.Storage.Vector.Seal.{seal_sorts, IsAscending-Nodup}
use negentropy.Storage.Vector.Load.{insert_all, load-Presents}
use negentropy.Storage.Vector.Contract.{vector-Presents}
use negentropy.Storage.SubRange.{SubRange, make_sub_range, sub_range_storage}
use negentropy.Storage.SubRange.Contract.{make_sub_range-Presents}
use negentropy.Storage.SubRange.Inside.{IsInside}
use negentropy.Storage.SubRange.Between.{between}
use negentropy.Storage.Vector.Position.{find_lower_bound_parts}
use negentropy.Tests.Data.{
  item, items_from, items_from-IsAscending, items_from-IsItem, sealed_vector, sealed_vector-IsReady,
  length-items_from, hash, forty, forty-Presents,
}
use mathlib.Core.List.{Perm, Nodup}

abbrev unsorted : Vector
unsorted = record { items = item 8 2 ∷ item 3 1 ∷ item 8 1 ∷ []; is_sealed = false }

seal_sorts_example :
    Perm (seal unsorted).0.items unsorted.items
    × ((seal unsorted).0.is_sealed ≡ true)
    × ((((seal unsorted).1 ≡ ok tt) × Nodup unsorted.items × IsAscending (seal unsorted).0.items)
        ⊎ (((seal unsorted).1 ≡ err Error.duplicate_item) × (¬ Nodup unsorted.items)))
seal_sorts_example = seal_sorts unsorted refl

vector-Presents_example : Presents hash (vector_storage hash (sealed_vector 3)) (items_from 3 5)
vector-Presents_example =
    vector-Presents hash (sealed_vector 3) (sealed_vector-IsReady 3 (omega arith))

find_lower_bound_parts_example :
    (p : ℕ) × (find_lower_bound (sealed_vector 4) 1 4 (bound_at 7) ≡ ok p)
    × (1 ≤ p)
    × (p ≤ 4)
    × ((i : ℕ) (it : Item)
        → 1 ≤ i
        → i < p
        → get_item (sealed_vector 4) i ≡ ok it
        → item_lt it (bound_at 7).item ≡ true)
    × ((i : ℕ) (it : Item)
        → p ≤ i
        → i < 4
        → get_item (sealed_vector 4) i ≡ ok it
        → item_lt it (bound_at 7).item ≡ false)
find_lower_bound_parts_example =
    find_lower_bound_parts (sealed_vector 4) 1 4 (bound_at 7)
      (sealed_vector-IsReady 4 (omega arith)) (omega arith) (omega (arith, length-items_from 4 5))

make_sub_range-Presents_example :
    (r : SubRange) × (make_sub_range forty (bound_at 9) (bound_at max_u64) ≡ ok r)
    × IsInside r (items_from 40 5)
    × Presents hash
        (sub_range_storage forty r)
        (between (bound_at 9) (bound_at max_u64) (items_from 40 5))
make_sub_range-Presents_example =
    make_sub_range-Presents hash forty (items_from 40 5) forty-Presents (bound_at 9)
      (bound_at max_u64)

load-Presents_example :
    (w : Vector) × (insert_all (unseal (sealed_vector 3)) (items_from 2 8) ≡ ok w)
    × ((seal w).1 ≡ ok tt)
    × Perm (seal w).0.items ((sealed_vector 3).items ++ items_from 2 8)
    × Presents hash (vector_storage hash (seal w).0) (seal w).0.items
unfolding items_from
load-Presents_example =
    load-Presents hash (sealed_vector 3) (items_from 2 8) (items_from-IsItem 3 5 (omega arith))
      (items_from-IsItem 2 8 (omega arith)) (omega arith)
      (IsAscending-Nodup _ (items_from-IsAscending 5 5))
