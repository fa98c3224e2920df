-- ===== src/Tests/Sums.antt =====
-- Accumulators.
use negentropy.Prelude.{◌+◌, ◌%◌, ◌≡◌, refl, Bytes, List, [], ◌∷◌, ◌++◌, arith, All, replicate}
use negentropy.Types.{Item, IsItem}
use negentropy.Accumulator.{
  le_value, le_bytes, add_limb, add_limbs, add, sub, negate, zero_accum, accum_from,
}
use negentropy.Accumulator.Value.{accum_mod, add-value, sub-add}
use negentropy.Accumulator.Sums.{accum_from-perm, accum_from-range}
use negentropy.Tests.Data.{item}
use mathlib.Core.List.Perm

-- carries run through every limb
abbrev all_ones : Bytes
all_ones = replicate 32 255

abbrev one_more : Bytes
one_more = 1 ∷ replicate 31 0

add_carries : add all_ones one_more ≡ zero_accum
unfolding add add_limbs add_limb le_value le_bytes
add_carries = refl

add-value_example :
    le_value (add all_ones one_more) ≡ (le_value all_ones + le_value one_more) % accum_mod
add-value_example = add-value all_ones one_more (omega arith) (omega arith)

sub-add_example :
    (sub (add all_ones one_more) one_more ≡ all_ones)
    × (add (sub all_ones one_more) one_more ≡ all_ones)
sub-add_example = sub-add all_ones one_more (omega arith) (omega arith)

abbrev pair : List Item
pair = item 3 200 ∷ item 8 100 ∷ []

pair-IsItem : All IsItem pair
pair-IsItem = omega arith

accum_from-perm_example :
    accum_from zero_accum pair ≡ accum_from zero_accum (item 8 100 ∷ item 3 200 ∷ [])
accum_from-perm_example = accum_from-perm (Perm.swap (item 8 100) (item 3 200) []) pair-IsItem

accum_from-range_example :
    add (accum_from zero_accum (pair ++ pair)) (negate (accum_from zero_accum pair))
    ≡ accum_from zero_accum pair
accum_from-range_example = accum_from-range pair pair pair-IsItem pair-IsItem
