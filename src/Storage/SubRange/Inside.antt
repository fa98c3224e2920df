-- ===== src/Storage/SubRange/Inside.antt =====
-- A range inside a storage that keeps the contract keeps it too, on the slice that it selects.
use negentropy.Prelude.{
  ℕ, zero, suc, ◌+◌, ◌-◌, ◌≤◌, ◌<◌, ◌≡◌, refl, ap, sym, ◌∙◌, Bool, true, Bytes, IsU64, List, [],
  ◌∷◌, take, drop, length, slice, length-slice, ◌⊎◌, false, slice-slice, get_elem?, some, arith,
  ltb, if◌then◌else◌, sub_u64, sub_u64_lem, min,
}
use native.Mathlib.Nat.{zero-add, suc-add, add-suc}
use negentropy.Prelude.Results.{ok, err, Error}
use negentropy.Types.{Item, Bound, IsItem}
use negentropy.Storage.{Storage, Presents, walk, count_below}
use negentropy.Storage.Sorted.{count_below-le, IsAscending-take, IsAscending-drop}
use negentropy.Accumulator.Limbs.{All-take, All-drop}
use negentropy.Accumulator.{accum_from, zero_accum, get_fingerprint}
use negentropy.Storage.SubRange.{
  SubRange, check_bounds, get_item, iterate, find_lower_bound, fingerprint, sub_range_storage,
}

-- indices of the base, moved back by the start of the range
walk_shift {ℓ} :
    {S : Type ℓ} (cb : Item → ℕ → S → S × Bool) (b i : ℕ) (its : List Item) (s : S)
    → IsU64 (b + i + length its)
    → walk (λ it index. cb it (sub_u64 index b)) (b + i) its s ≡ walk cb i its s
unfolding walk
walk_shift cb b i [] s h = refl
walk_shift {S} cb b i (it ∷ its) s h = rw back (
    ap (λ (t : S). if (cb it i s).1 then t else (cb it i s).0)
      (ap (λ (k : ℕ). walk (λ it' index. cb it' (sub_u64 index b)) k its (cb it i s).0)
          (sym (add-suc b i))
        ∙ walk_shift cb b (suc i) its (cb it i s).0 (omega arith)))
  where
    back : sub_u64 (b + i) b ≡ i
    back = omega (arith, sub_u64_lem (b + i) b)

get_elem?-take :
    (n i : ℕ) (xs : List Item) {it : Item}
    → get_elem? (take n xs) i ≡ some it
    → (i < n) × (get_elem? xs i ≡ some it)
get_elem?-take zero i xs e = cc
get_elem?-take (suc n) i [] e = cc
get_elem?-take (suc n) zero (x ∷ xs) e = (omega arith, e)
get_elem?-take (suc n) (suc i) (x ∷ xs) e = let (h, f) = get_elem?-take n i xs e in (omega arith, f)

pub get_elem?-drop : (b i : ℕ) (xs : List Item) → get_elem? (drop b xs) i ≡ get_elem? xs (b + i)
get_elem?-drop zero i xs = rw zero-add
get_elem?-drop (suc b) i [] = refl
get_elem?-drop (suc b) i (x ∷ xs) = rw suc-add (get_elem?-drop b i xs)

pub get_elem?_inside :
    (xs : List Item) (i : ℕ) → i < length xs → (it : Item) × (get_elem? xs i ≡ some it)
get_elem?_inside [] i h = absurd (omega arith)
get_elem?_inside (x ∷ xs) zero h = (x, refl)
get_elem?_inside (x ∷ xs) (suc i) h = get_elem?_inside xs i (omega arith)

-- what the constructor makes: a range inside the base
pub record IsInside (r : SubRange) (xs : List Item) : Type 0 where
  pub ordered : r.sub_begin ≤ r.sub_end
  pub within : r.sub_end ≤ length xs
  pub sized : r.sub_size ≡ r.sub_end - r.sub_begin

in_bounds : (r : SubRange) (b e : ℕ) → b ≤ e → e ≤ r.sub_size → check_bounds r b e ≡ ok tt
unfolding check_bounds
in_bounds r b e h k = ground arith

module _ (sha256 : Bytes → Bytes) (base : Storage) (xs : List Item) (p : Presents sha256 base xs)
    (r : SubRange) (c : IsInside r xs) where
  abbrev selected : List Item
  selected = slice r.sub_begin r.sub_end xs

  length-selected : length selected ≡ r.sub_size
  length-selected = length-slice r.sub_begin r.sub_end xs c.ordered c.within ∙ sym c.sized

  get_item_inside : (i : ℕ) (it : Item) → get_elem? selected i ≡ some it → get_item base r i ≡ ok it
  unfolding get_item
  get_item_inside i it e =
      let (inside, f) = get_elem?-take (r.sub_end - r.sub_begin) i (drop r.sub_begin xs) e in
      rw (below inside)
        (p.get_item_lem (r.sub_begin + i) it (sym (get_elem?-drop r.sub_begin i xs) ∙ f))
    where
      below : i < r.sub_end - r.sub_begin → ltb i r.sub_size ≡ true
      below h = ground (arith, c.sized)

  iterate_inside :
      (S : Type 0) (cb : Item → ℕ → S → S × Bool) (b e : ℕ) (s : S)
      → b ≤ e
      → e ≤ length selected
      → iterate base r S cb b e s ≡ ok (walk cb b (slice b e selected) s)
  unfolding iterate
  iterate_inside S cb b e s h k =
      rw
        (
          in_bounds r b e h (omega (arith, length-selected)),
          p.iterate_lem S (λ it index. cb it (sub_u64 index r.sub_begin)) (r.sub_begin + b)
              (r.sub_begin + e) s (omega arith) inside,
        )
        (ap ok (
          walk_shift cb r.sub_begin b (slice (r.sub_begin + b) (r.sub_begin + e) xs) s fits
          ∙ ap (λ (its : List Item). walk cb b its s)
              (sym (
                slice-slice r.sub_begin r.sub_end b e xs h
                  (omega (arith, length-selected, c.sized))))))
    where
      inside : r.sub_begin + e ≤ length xs
      inside = omega (arith, length-selected, c.sized, c.within, c.ordered)

      fits : IsU64 (r.sub_begin + b + length (slice (r.sub_begin + b) (r.sub_begin + e) xs))
      fits = omega (
        arith,
        length-slice (r.sub_begin + b) (r.sub_begin + e) xs (omega arith) inside,
        inside,
        p.size_fits,
      )

  find_inside :
      (b e : ℕ) (x : Bound)
      → b ≤ e
      → e ≤ length selected
      → find_lower_bound base r b e x ≡ ok (b + count_below x.item (slice b e selected))
  unfolding find_lower_bound
  find_inside b e x h k =
      rw
        (
          in_bounds r b e h (omega (arith, length-selected)),
          p.find_lower_bound_lem (r.sub_begin + b) (r.sub_begin + e) x (omega arith) inside,
          sym (
              slice-slice r.sub_begin r.sub_end b e xs h (omega (arith, length-selected, c.sized))),
        )
        (ap ok back)
    where
      inside : r.sub_begin + e ≤ length xs
      inside = omega (arith, length-selected, c.sized, c.within, c.ordered)

      count : ℕ
      count = count_below x.item (slice b e selected)

      count_small : count ≤ e - b
      count_small =
          omega (arith, count_below-le x.item (slice b e selected), length-slice b e selected h k)

      back : min (sub_u64 (r.sub_begin + b + count) r.sub_begin) r.sub_size ≡ b + count
      back = omega (
        arith,
        sub_u64_lem (r.sub_begin + b + count) r.sub_begin,
        count_small,
        inside,
        p.size_fits,
        length-selected,
      )

  fingerprint_inside :
      (b e : ℕ)
      → b ≤ e
      → e ≤ length selected
      → fingerprint base r b e
        ≡ ok (get_fingerprint sha256 (accum_from zero_accum (slice b e selected)) (e - b))
  unfolding fingerprint
  fingerprint_inside b e h k =
      rw
        (
          in_bounds r b e h (omega (arith, length-selected)),
          p.fingerprint_lem (r.sub_begin + b) (r.sub_begin + e) (omega arith) inside,
          sym (
              slice-slice r.sub_begin r.sub_end b e xs h (omega (arith, length-selected, c.sized))),
        )
        (ap (λ (n : ℕ). ok (get_fingerprint sha256 (accum_from zero_accum (slice b e selected)) n))
          same)
    where
      inside : r.sub_begin + e ≤ length xs
      inside = omega (arith, length-selected, c.sized, c.within, c.ordered)

      same : (r.sub_begin + e) - (r.sub_begin + b) ≡ e - b
      same = omega arith

  outside_bounds :
      (b e : ℕ) → (e < b) ⊎ (length selected < e) → check_bounds r b e ≡ err Error.bad_range
  unfolding check_bounds
  outside_bounds b e h = ground (arith, h, length-selected)

  iterate_outside :
      (S : Type 0) (cb : Item → ℕ → S → S × Bool) (b e : ℕ) (s : S)
      → (e < b) ⊎ (length selected < e)
      → iterate base r S cb b e s ≡ err Error.bad_range
  unfolding iterate
  iterate_outside S cb b e s h = rw (outside_bounds b e h) refl

  find_outside :
      (b e : ℕ) (x : Bound)
      → (e < b) ⊎ (length selected < e)
      → find_lower_bound base r b e x ≡ err Error.bad_range
  unfolding find_lower_bound
  find_outside b e x h = rw (outside_bounds b e h) refl

  fingerprint_outside :
      (b e : ℕ) → (e < b) ⊎ (length selected < e) → fingerprint base r b e ≡ err Error.bad_range
  unfolding fingerprint
  fingerprint_outside b e h = rw (outside_bounds b e h) refl

  get_item_outside : (i : ℕ) → length selected ≤ i → get_item base r i ≡ err Error.bad_index
  unfolding get_item
  get_item_outside i h =
      let out : ltb i r.sub_size ≡ false = ground (arith, h, length-selected) in rw out refl

  pub sub_range-Presents : Presents sha256 (sub_range_storage base r) selected
  unfolding sub_range_storage
  sub_range-Presents = record {
    sorted = IsAscending-take _ _ (IsAscending-drop r.sub_begin xs p.sorted);
    valid = All-take IsItem _ _ (All-drop IsItem r.sub_begin xs p.valid);
    size_fits = omega (arith, length-selected, c.sized, c.within, p.size_fits);
    size_lem = ap ok (sym length-selected);
    get_item_lem = get_item_inside;
    get_item_refused = λ i h. (Error.bad_index, get_item_outside i h);
    iterate_refused = iterate_outside;
    find_lower_bound_refused = find_outside;
    fingerprint_refused = fingerprint_outside;
    iterate_lem = iterate_inside;
    find_lower_bound_lem = find_inside;
    fingerprint_lem = fingerprint_inside;
  }
