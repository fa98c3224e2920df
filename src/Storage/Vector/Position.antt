-- ===== src/Storage/Vector/Position.antt =====
-- The position that `findLowerBound` of a vector gives, by what `getItem` gives around it.
use negentropy.Prelude.{
  ℕ, zero, suc, ◌+◌, ◌-◌, ◌≤◌, ◌<◌, ◌≡◌, refl, ap, ◌∙◌, true, false, List, [], ◌∷◌, take, drop,
  length, slice, length-slice, All, get_elem?, some, arith,
}
use mathlib.Core.Path.{subst}
use negentropy.Prelude.Results.{ok}
use negentropy.Types.{Item, Bound, item_lt}
use negentropy.Storage.{count_below}
use negentropy.Storage.Sorted.{
  count_below-le, count_below_splits, IsBelow, IsNotBelow, IsAscending-take, IsAscending-drop,
}
use negentropy.Storage.Vector.{Vector, check_sealed, get_item, find_lower_bound}
use negentropy.Storage.Vector.Contract.{IsReady, find_ready}

drop_at : (xs : List Item) (b i : ℕ) → b ≤ i → get_elem? (drop b xs) (i - b) ≡ get_elem? xs i
drop_at xs zero i h = ap (get_elem? xs) (omega arith)
drop_at [] (suc b) i h = refl
drop_at (x ∷ xs) (suc b) zero h = absurd (omega (arith, h))
drop_at (x ∷ xs) (suc b) (suc i) h =
    ap (get_elem? (drop b xs)) (omega arith) ∙ drop_at xs b i (omega (arith, h))

take_at : (xs : List Item) (n i : ℕ) → i < n → get_elem? (take n xs) i ≡ get_elem? xs i
take_at xs zero i h = absurd (omega (arith, h))
take_at [] (suc n) i h = refl
take_at (x ∷ xs) (suc n) zero h = refl
take_at (x ∷ xs) (suc n) (suc i) h = take_at xs n i (omega (arith, h))

All-front_at :
    (P : Item → Type 0) (xs : List Item) (n i : ℕ) (it : Item)
    → All P (take n xs)
    → i < n
    → get_elem? xs i ≡ some it
    → P it
All-front_at P xs zero i it a h e = absurd (omega (arith, h))
All-front_at P [] (suc n) i it a h e = ground (arith, e)
All-front_at P (x ∷ xs) (suc n) zero it a h e = let same : x ≡ it = cc in subst P same a.0
All-front_at P (x ∷ xs) (suc n) (suc i) it a h e = All-front_at P xs n i it a.1 (omega (arith, h)) e

All-back_at :
    (P : Item → Type 0) (xs : List Item) (n i : ℕ) (it : Item)
    → All P (drop n xs)
    → n ≤ i
    → get_elem? xs i ≡ some it
    → P it
All-back_at P [] zero i it a h e = ground (arith, e)
All-back_at P (x ∷ xs) zero zero it a h e = let same : x ≡ it = cc in subst P same a.0
All-back_at P (x ∷ xs) zero (suc i) it a h e = All-back_at P xs zero i it a.1 (omega arith) e
All-back_at P [] (suc n) i it a h e = ground (arith, e)
All-back_at P (x ∷ xs) (suc n) zero it a h e = absurd (omega (arith, h))
All-back_at P (x ∷ xs) (suc n) (suc i) it a h e = All-back_at P xs n i it a (omega (arith, h)) e

got : (v : Vector) (i : ℕ) (it : Item) → get_item v i ≡ ok it → get_elem? v.items i ≡ some it
unfolding get_item check_sealed
got v i it g = ground (arith, g)

-- In a sealed vector of ascending valid items, `findLowerBound` on a range inside gives a position of the
-- range: every item that `getItem` gives before it in the range is below the bound, and none from it on.
pub find_lower_bound_parts :
    (v : Vector) (b e : ℕ) (x : Bound)
    → IsReady v
    → b ≤ e
    → e ≤ length v.items
    → (p : ℕ) × (find_lower_bound v b e x ≡ ok p)
      × (b ≤ p)
      × (p ≤ e)
      × ((i : ℕ) (it : Item) → b ≤ i → i < p → get_item v i ≡ ok it → item_lt it x.item ≡ true)
      × ((i : ℕ) (it : Item) → p ≤ i → i < e → get_item v i ≡ ok it → item_lt it x.item ≡ false)
find_lower_bound_parts v b e x r h k = (
  b + count,
  find_ready v b e x r h k,
  omega arith,
  omega (arith, small, h),
  (λ i it p q g.
      All-front_at (IsBelow x.item) its count (i - b) it parts.0 (omega (arith, p, q))
        (inside i it p (omega (arith, q, small, h)) g)),
  (λ i it p q g.
      All-back_at (IsNotBelow x.item) its count (i - b) it parts.1 (omega (arith, p, q))
        (inside i it (omega (arith, p)) q g)),
)
  where
    its : List Item
    its = slice b e v.items

    count : ℕ
    count = count_below x.item its

    small : count ≤ e - b
    small = omega (arith, count_below-le x.item its, length-slice b e v.items h k)

    parts : All (IsBelow x.item) (take count its) × All (IsNotBelow x.item) (drop count its)
    parts =
        count_below_splits x.item its
          (IsAscending-take (e - b) (drop b v.items) (IsAscending-drop b v.items r.sorted))

    inside :
        (i : ℕ) (it : Item) → b ≤ i → i < e → get_item v i ≡ ok it → get_elem? its (i - b) ≡ some it
    inside i it p q g =
        take_at (drop b v.items) (e - b) (i - b) (omega (arith, p, q))
        ∙ drop_at v.items b i p
        ∙ got v i it g
