-- ===== src/Storage/SubRange/Between.antt =====
-- Which items a sub-range is to hold, and how positions found by a search select them.
use negentropy.Prelude.{
  ℕ, zero, suc, ◌≡◌, refl, ap, sym, ◌∙◌, Bool, true, false, not, ◌||◌, Bytes, List, [], ◌∷◌, take,
  drop, length, replicate, All, get_elem?, some, arith, if◌then◌else◌, max_u64, Bool-cases, inl,
  inr,
}
use mathlib.Core.Path.{subst}
use negentropy.Types.{
  Item, Bound, IsItem, item_lt, item_le, item_eq, item_at, bound_eq, bound_at, bytes_lt,
}
use negentropy.Types.Order.{
  item_le-not_lt, item_lt_irrefl, item_lt_trans, item_lt-total, item_lt-asym, item_eq_iff,
}
use negentropy.Storage.{IsAscending, count_below}
use negentropy.Storage.Ordered.{Over, ascending_after}

unfoldable pub select : (Item → Bool) → List Item → List Item
select keep [] = []
select keep (it ∷ its) = let rest = select keep its in if keep it then it ∷ rest else rest

abbrev pub not_before : Bound → Item → Bool
not_before lower it = not (item_lt it lower.item)

-- up to the upper bound, an item equal to it included
abbrev pub up_to : Bound → Item → Bool
up_to upper it = bound_eq upper (bound_at max_u64) || item_le it upper.item

-- the items from the lower bound on, up to the upper one
unfoldable pub between : Bound → Bound → List Item → List Item
between lower upper xs = select (up_to upper) (select (not_before lower) xs)

pub select_all :
    (keep : Item → Bool) (xs : List Item) → All (λ it. keep it ≡ true) xs → select keep xs ≡ xs
unfolding select
select_all keep [] a = refl
select_all keep (x ∷ xs) a = rw a.0 (ap (◌∷◌ x) (select_all keep xs a.1))

select_none :
    (keep : Item → Bool) (xs : List Item) → All (λ it. keep it ≡ false) xs → select keep xs ≡ []
unfolding select
select_none keep [] a = refl
select_none keep (x ∷ xs) a = rw a.0 (select_none keep xs a.1)

All-items :
    {P Q : Item → Type 0} → ((it : Item) → P it → Q it) → (xs : List Item) → All P xs → All Q xs
All-items f [] a = tt
All-items f (x ∷ xs) a = (f x a.0, All-items f xs a.1)

-- Behind the items below a value are those that are not.
pub drop-select :
    (lower : Bound) (xs : List Item)
    → IsAscending xs
    → drop (count_below lower.item xs) xs ≡ select (not_before lower) xs
unfolding select count_below
drop-select lower [] h = refl
drop-select lower (x ∷ xs) h = elim (Bool-cases (item_lt x lower.item)) [
  | inl below ↦ rw below (drop-select lower xs h.1)
  | inr above ↦ rw above (ap (◌∷◌ x) (sym (select_all (not_before lower) xs (behind above))))
]
  where
    behind : item_lt x lower.item ≡ false → All (λ it. not_before lower it ≡ true) xs
    behind above =
        All-items (λ it over. ap not (not_lower it over above)) xs (ascending_after x xs h)
      where
        not_lower :
            (it : Item) → Over x it → item_lt x lower.item ≡ false → item_lt it lower.item ≡ false
        not_lower it over above' = ground (arith, item_lt_trans x it lower.item)

le_above : (hi it : Item) → item_lt hi it ≡ true → item_le it hi ≡ false
le_above hi it h = item_le-not_lt it hi ∙ ap not h

-- Where the item behind those below the value is the value, the items up to it.
pub take_equal-select :
    (hi : Item) (xs : List Item) (it : Item)
    → IsAscending xs
    → get_elem? xs (count_below hi xs) ≡ some it
    → item_eq it hi ≡ true
    → take (suc (count_below hi xs)) xs ≡ select (λ x. item_le x hi) xs
unfolding select count_below
take_equal-select hi [] it h e same = ground (arith, e)
take_equal-select hi (x ∷ xs) it h e same = elim (Bool-cases (item_lt x hi)) [
  | inl below ↦
      let next : get_elem? xs (count_below hi xs) ≡ some it =
        subst
          (λ (b : Bool). get_elem? (x ∷ xs) (if b then suc (count_below hi xs) else 0) ≡ some it)
          below e in
      let kept : item_le x hi ≡ true = item_le-not_lt x hi ∙ ap not (item_lt-asym x hi below) in
      rw (below, kept) (ap (◌∷◌ x) (take_equal-select hi xs it h.1 next same))
  | inr above ↦
      let first : some x ≡ some it =
        subst
          (λ (b : Bool). get_elem? (x ∷ xs) (if b then suc (count_below hi xs) else 0) ≡ some it)
          above e in
      let x_it : x ≡ it = cc in
      let x_hi : x ≡ hi = x_it ∙ (item_eq_iff it hi).0 same in
      let kept : item_le x hi ≡ true =
        item_le-not_lt x hi ∙ ap not (ap (item_lt hi) x_hi ∙ item_lt_irrefl hi) in
      rw (above, kept)
        (ap (◌∷◌ x) (
          sym (
            select_none (λ y. item_le y hi) xs
              (All-items
                (λ y over. le_above hi y (subst (λ (z : Item). item_lt z y ≡ true) x_hi over)) xs
                (ascending_after x xs h)))))
]

pub take_other-select :
    (hi : Item) (xs : List Item)
    → IsAscending xs
    → ((it : Item) → get_elem? xs (count_below hi xs) ≡ some it → item_eq it hi ≡ false)
    → take (count_below hi xs) xs ≡ select (λ x. item_le x hi) xs
unfolding select count_below
take_other-select hi [] h other = refl
take_other-select hi (x ∷ xs) h other = elim (Bool-cases (item_lt x hi)) [
  | inl below ↦
      let kept : item_le x hi ≡ true = item_le-not_lt x hi ∙ ap not (item_lt-asym x hi below) in
      let rest = take_other-select hi xs h.1 (λ it e. other it (at_next below it e)) in
      rw (below, kept) (ap (◌∷◌ x) rest)
  | inr above ↦
      let differ : item_eq x hi ≡ false = other x (at_first above) in
      let over_hi : item_lt hi x ≡ true =
        ground (arith, item_lt-total x hi, item_eq_iff x hi, above, differ) in
      rw above (
        sym (
          select_none (λ y. item_le y hi) (x ∷ xs)
            (
              le_above hi x over_hi,
              All-items (λ y over. le_above hi y (item_lt_trans hi x y over_hi over)) xs
                  (ascending_after x xs h),
            )))
]
  where
    at_next :
        item_lt x hi ≡ true
        → (it : Item) → get_elem? xs (count_below hi xs) ≡ some it
        → get_elem? (x ∷ xs) (if item_lt x hi then suc (count_below hi xs) else 0) ≡ some it
    at_next below it e = rw below e

    at_first :
        item_lt x hi ≡ false
        → get_elem? (x ∷ xs) (if item_lt x hi then suc (count_below hi xs) else 0) ≡ some x
    at_first above = rw above refl

-- no valid item is below the bound at 0
zero_first : (id : Bytes) (n : ℕ) → length id ≡ n → bytes_lt id (replicate n 0) ≡ false
unfolding bytes_lt
zero_first [] zero h = refl
zero_first [] (suc n) h = absurd (omega (arith, h))
zero_first (a ∷ id) zero h = absurd (omega (arith, h))
zero_first (a ∷ id) (suc n) h = ground (arith, zero_first id n (omega (arith, h)))

pub not_below_zero : (it : Item) → IsItem it → item_lt it (item_at 0) ≡ false
unfolding item_lt
not_below_zero it v = ground (arith, zero_first it.id 32 v.id_full)
