-- ===== src/Storage/Sorted.antt =====
-- Ascending items: what is below a bound stands at the front, and walks over slices.
use negentropy.Prelude.{
  ℕ, zero, suc, ◌≤◌, ◌≡◌, refl, Bool, true, false, Bytes, List, [], ◌∷◌, take, drop, length, arith,
  All, Bool-cases, inl, inr,
}
use negentropy.Types.{Item, item_lt}
use negentropy.Types.Order.{item_lt_trans}
use negentropy.Storage.{walk, count_below, IsAscending}
use negentropy.Accumulator.{add, accum_from}

pub IsAscending-take : (n : ℕ) (xs : List Item) → IsAscending xs → IsAscending (take n xs)
IsAscending-take zero xs h = tt
IsAscending-take (suc n) [] h = tt
IsAscending-take (suc zero) (x ∷ xs) h = (tt, tt)
IsAscending-take (suc (suc n)) (x ∷ []) h = h
IsAscending-take (suc (suc n)) (x ∷ y ∷ xs) h = (h.0, IsAscending-take (suc n) (y ∷ xs) h.1)

pub IsAscending-drop : (n : ℕ) (xs : List Item) → IsAscending xs → IsAscending (drop n xs)
IsAscending-drop zero xs h = h
IsAscending-drop (suc n) [] h = tt
IsAscending-drop (suc n) (x ∷ xs) h = IsAscending-drop n xs h.1

pub count_below-le : (v : Item) (xs : List Item) → count_below v xs ≤ length xs
unfolding count_below
count_below-le v [] = omega arith
count_below-le v (x ∷ xs) = ground (arith, count_below-le v xs)

abbrev pub IsBelow : Item → Item → Type 0
IsBelow v it = item_lt it v ≡ true

abbrev pub IsNotBelow : Item → Item → Type 0
IsNotBelow v it = item_lt it v ≡ false

-- nothing after an item that is not below `v` is below it
above-All :
    (v x : Item) (xs : List Item)
    → IsAscending (x ∷ xs)
    → IsNotBelow v x
    → All (IsNotBelow v) (x ∷ xs)
above-All v x [] h k = (k, tt)
above-All v x (y ∷ ys) h k = (k, above-All v y ys h.1 (above_next (item_lt y v) refl))
  where
    above_next : (b : Bool) → item_lt y v ≡ b → item_lt y v ≡ false
    above_next true e = cc (item_lt_trans x y v h.0 e)
    above_next false e = e

-- On ascending items the position splits them: those before it are below the bound, the others not.
pub count_below_splits :
    (v : Item) (xs : List Item)
    → IsAscending xs
    → All (IsBelow v) (take (count_below v xs) xs) × All (IsNotBelow v) (drop (count_below v xs) xs)
unfolding count_below
count_below_splits v [] h = (tt, tt)
count_below_splits v (x ∷ xs) h = elim (Bool-cases (item_lt x v)) [
  | inl below ↦ rw below (let ih = count_below_splits v xs h.1 in ((below, ih.0), ih.1))
  | inr above ↦ rw above (tt, above-All v x xs h above)
]

-- the callback that adds up is the accumulator
pub walk-accum :
    (i : ℕ) (xs : List Item) (acc : Bytes)
    → walk (λ it _ a. (add a it.id, true)) i xs acc ≡ accum_from acc xs
unfolding walk accum_from
walk-accum i [] acc = refl
walk-accum i (x ∷ xs) acc = walk-accum (suc i) xs (add acc x.id)
