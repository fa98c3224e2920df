-- ===== src/Storage/SubRange/Contract.antt =====
-- A sub-range of a storage that keeps the contract keeps it too, on the items between its bounds.
use negentropy.Prelude.{
  ℕ, zero, suc, ◌+◌, ◌-◌, ◌≤◌, ◌<◌, ◌≡◌, refl, ap, sym, ◌∙◌, Bool, true, Bytes, List, [], ◌∷◌, take,
  drop, length, slice_all, take_all, length-drop, All, ◌||◌, not, false, get_elem?, some, arith,
  if◌then◌else◌, ◌==◌, sub_u64, sub_u64_lem, Bool-cases, inl, inr, max_u64,
}
use mathlib.Core.Path.{subst}
use negentropy.Prelude.Results.{ok}
use negentropy.Types.{Item, Bound, IsItem, bound_eq, bound_at, item_at, item_lt, item_le, item_eq}
use negentropy.Types.Order.{item_eq_iff}
use negentropy.Storage.{Storage, Presents, IsAscending, count_below}
use negentropy.Storage.Sorted.{count_below-le, IsAscending-drop}
use negentropy.Storage.SubRange.Between.{
  select, not_before, up_to, between, select_all, drop-select, take_equal-select, take_other-select,
  not_below_zero,
}
use negentropy.Storage.SubRange.{SubRange, include_upper, make_sub_range, sub_range_storage}
use negentropy.Storage.SubRange.Inside.{
  IsInside, get_elem?-drop, get_elem?_inside, sub_range-Presents,
}

get_elem?-some : (xs : List Item) (i : ℕ) (it : Item) → get_elem? xs i ≡ some it → i < length xs
get_elem?-some [] i it e = ground (arith, e)
get_elem?-some (x ∷ xs) zero it e = omega arith
get_elem?-some (x ∷ xs) (suc i) it e = omega (arith, get_elem?-some xs i it e)

module _ (sha256 : Bytes → Bytes) (base : Storage) (xs : List Item)
    (p : Presents sha256 base xs) where
  begin_found :
      (lower : Bound)
      → (b : ℕ) × ((if bound_eq lower (bound_at 0)
            then ok 0
            else base.find_lower_bound 0 (length xs) lower)
          ≡ ok b)
        × (b ≤ length xs)
        × (drop b xs ≡ select (not_before lower) xs)
  begin_found lower = elim (Bool-cases (bound_eq lower (bound_at 0))) [
    | inl first ↦
        let at_zero : lower.item ≡ item_at 0 = (item_eq_iff lower.item (item_at 0)).0 first in
        (
          0,
          rw first refl,
          omega arith,
          sym (select_all (not_before lower) xs (none_before at_zero xs p.valid)),
        )
    | inr other ↦ (
      count_below lower.item xs,
      rw other (
          p.find_lower_bound_lem 0 (length xs) lower (omega arith) (omega arith)
          ∙ ap (λ (its : List Item). ok (0 + count_below lower.item its)) (slice_all xs)
          ∙ ap ok (omega arith)),
      count_below-le lower.item xs,
      drop-select lower xs p.sorted,
    )
  ]
    where
      none_before :
          lower.item ≡ item_at 0
          → (its : List Item) → All IsItem its
          → All (λ it. not_before lower it ≡ true) its
      none_before e [] a = tt
      none_before e (it ∷ its) a = (
        ap (λ (i : Item). not (item_lt it i)) e ∙ ap not (not_below_zero it a.0),
        none_before e its a.1,
      )

  -- where the search for the upper bound ends, and the item there
  module _ (b : ℕ) (upper : Bound) (h : b ≤ length xs) where
    abbrev behind : List Item
    behind = drop b xs

    abbrev below_upper : ℕ
    below_upper = count_below upper.item behind

    small : b + below_upper ≤ length xs
    small = omega (arith, count_below-le upper.item behind, length-drop b xs, h)

    sorted_behind : IsAscending behind
    sorted_behind = IsAscending-drop b xs p.sorted

    not_max :
        bound_eq upper (bound_at max_u64) ≡ false
        → select (λ x. item_le x upper.item) behind ≡ select (up_to upper) behind
    not_max other =
        ap (λ (top : Bool). select (λ x. top || item_le x upper.item) behind) (sym other)

    past_end :
        (b + below_upper == length xs) ≡ true
        → (it : Item) → get_elem? behind below_upper ≡ some it
        → ⊥
    past_end at_end it e =
        let whole : b + below_upper ≡ length xs = ground (arith, at_end) in
        omega (arith, whole, get_elem?-some behind below_upper it e, length-drop b xs)

    included_at :
        bound_eq upper (bound_at max_u64) ≡ false
        → (e' : ℕ) × (include_upper base (length xs) (b + below_upper) upper ≡ ok e')
          × (b ≤ e')
          × (e' ≤ length xs)
          × (take (e' - b) behind ≡ select (up_to upper) behind)
    unfolding include_upper
    included_at other = elim (Bool-cases (b + below_upper == length xs)) [
      | inl at_end ↦ (
        b + below_upper,
        rw at_end refl,
        omega arith,
        small,
        ap (λ (n : ℕ). take n behind) (omega arith)
            ∙ take_other-select upper.item behind sorted_behind
                (λ it e. absurd (past_end at_end it e))
            ∙ not_max other,
      )
      | inr before ↦
          let (it, found) = get_elem?_inside xs (b + below_upper) (ground (arith, before, small)) in
          let at : get_elem? behind below_upper ≡ some it =
            get_elem?-drop b below_upper xs ∙ found in
          elim (Bool-cases (item_eq it upper.item)) [
            | inl same ↦ (
              b + below_upper + 1,
              rw (before, p.get_item_lem (b + below_upper) it found) (rw same refl),
              omega arith,
              ground (arith, before, small),
              (let one_more : b + below_upper + 1 - b ≡ suc below_upper = omega arith in
                    ap (λ (n : ℕ). take n behind) one_more)
                  ∙ take_equal-select upper.item behind it sorted_behind at same
                  ∙ not_max other,
            )
            | inr differ ↦ (
              b + below_upper,
              rw (before, p.get_item_lem (b + below_upper) it found) (rw differ refl),
              omega arith,
              small,
              ap (λ (n : ℕ). take n behind) (omega arith)
                  ∙ take_other-select upper.item behind sorted_behind (λ it' e.
                    (let same : it ≡ it' = cc in
                      subst (λ (i : Item). item_eq i upper.item ≡ false) same differ))
                  ∙ not_max other,
            )
          ]
    ]

    end_found :
        (e : ℕ) × (e' : ℕ) × ((if bound_eq upper (bound_at max_u64)
            then ok (length xs)
            else base.find_lower_bound b (length xs) upper)
          ≡ ok e)
        × (include_upper base (length xs) e upper ≡ ok e')
        × (b ≤ e')
        × (e' ≤ length xs)
        × (take (e' - b) behind ≡ select (up_to upper) behind)
    unfolding include_upper
    end_found = elim (Bool-cases (bound_eq upper (bound_at max_u64))) [
      | inl last ↦
          let same : (length xs == length xs) ≡ true = ground arith in
          (
            length xs,
            length xs,
            rw last refl,
            rw same refl,
            h,
            omega arith,
            ap (λ (n : ℕ). take n behind) (sym (length-drop b xs))
                ∙ take_all behind
                ∙ sym (select_all (up_to upper) behind (all_up_to last behind)),
          )
      | inr other ↦
          let (e', included, be, en, kept) = included_at other in
          (
            b + below_upper,
            e',
            rw other (
                p.find_lower_bound_lem b (length xs) upper h (omega arith)
                ∙ ap (λ (its : List Item). ok (b + count_below upper.item its))
                    (ap (λ (n : ℕ). take n behind) (sym (length-drop b xs)) ∙ take_all behind)),
            included,
            be,
            en,
            kept,
          )
    ]
      where
        all_up_to :
            bound_eq upper (bound_at max_u64) ≡ true
            → (its : List Item) → All (λ it. up_to upper it ≡ true) its
        all_up_to last [] = tt
        all_up_to last (it ∷ its) = (rw last refl, all_up_to last its)

  make_sub_range_steps :
      (lower upper : Bound) (n b e e' : ℕ)
      → base.size ≡ ok n
      → (if bound_eq lower (bound_at 0) then ok 0 else base.find_lower_bound 0 n lower) ≡ ok b
      → (if bound_eq upper (bound_at max_u64) then ok n else base.find_lower_bound b n upper) ≡ ok e
      → include_upper base n e upper ≡ ok e'
      → make_sub_range base lower upper
        ≡ ok (record { base_size = n; sub_begin = b; sub_end = e'; sub_size = sub_u64 e' b })
  unfolding make_sub_range
  make_sub_range_steps lower upper n b e e' q1 q2 q3 q4 = simp (q1, q2, q3, q4)

  -- Over a storage that keeps the contract the constructor never throws, whichever bounds it is given,
  -- and the sub-range presents exactly the base's items from the lower bound on that are not above the
  -- upper one, or all from the lower bound on if the upper one is infinite.
  pub make_sub_range-Presents :
      (lower upper : Bound)
      → (r : SubRange) × (make_sub_range base lower upper ≡ ok r)
        × IsInside r xs
        × Presents sha256 (sub_range_storage base r) (between lower upper xs)
  unfolding between
  make_sub_range-Presents lower upper =
      let (b, at_begin, hb, from) = begin_found lower in
      let (e, e', at_end, included, be, he', kept) = end_found b upper hb in
      let r : SubRange = record {
        base_size = length xs;
        sub_begin = b;
        sub_end = e';
        sub_size = sub_u64 e' b;
      } in
      let inside : IsInside r xs = record {
        ordered = be;
        within = he';
        sized = sub_u64_lem e' b be (omega (arith, he', p.size_fits));
      } in
      (
        r,
        make_sub_range_steps lower upper (length xs) b e e' p.size_lem at_begin at_end included,
        inside,
        subst (Presents sha256 (sub_range_storage base r)) (kept ∙ ap (select (up_to upper)) from)
            (sub_range-Presents sha256 base xs p r inside),
      )
