-- ===== src/Storage/Vector/Contract.antt =====
-- A sealed vector keeps the storage contract.
use negentropy.Prelude.{
  Bool-cases, inl, inr, suc, ℕ, ◌+◌, ◌-◌, ◌≤◌, ◌≡◌, refl, ap, sym, ◌∙◌, Bool, true, false, Bytes,
  IsByte, IsU64, List, [], ◌∷◌, ◌++◌, length, slice, take, drop, ◌<◌, ◌⊎◌, zero, none, All,
  All-append, get_elem?, some, arith, if◌then◌else◌, ◌==◌,
}
use negentropy.Prelude.Results.{Result, ok, err, Error}
use negentropy.Types.{Item, Bound, IsItem, make_item_ok, item_lt}
use negentropy.Storage.{Presents, IsAscending, walk, count_below}
use negentropy.Storage.Sorted.{walk-accum}
use negentropy.Accumulator.{accum_from, zero_accum, get_fingerprint}
use negentropy.Storage.Vector.Seal.{seal_sorts, seal_ok-IsAscending}
use mathlib.Core.Path.{subst}
use negentropy.Storage.Vector.{
  insert_sorted, sort, Vector, insert, seal, check_sealed, check_bounds, size, get_item, iterate,
  find_lower_bound, fingerprint, vector_storage, for_items, lower_bound, add_item, elem_at,
}

-- `insert` of a 32-byte id into an unsealed vector appends the item; any other id, and any insertion
-- into a sealed vector, is refused.
pub insert_outcome :
    (v : Vector) (t : ℕ) (id : Bytes)
    → insert v t id ≡ (
        if v.is_sealed
        then err Error.already_sealed
        else if length id == 32
        then ok (record v { items = v.items ++ (record { timestamp = t; id = id } ∷ []) })
        else err Error.bad_added_id)
unfolding insert
insert_outcome v t id = ground (arith, make_item_ok t id)

pub insert-IsItem :
    (v v' : Vector) (t : ℕ) (id : Bytes)
    → All IsItem v.items
    → IsU64 t
    → All IsByte id
    → insert v t id ≡ ok v'
    → All IsItem v'.items
insert-IsItem v v' t id h ht hb e = subst (All IsItem) (sym (grown.0)) (
    All-append IsItem v.items _ h
      (record { timestamp_fits = ht; id_full = grown.1; id_bytes = hb }, tt))
  where
    grown : (v'.items ≡ v.items ++ (record { timestamp = t; id = id } ∷ [])) × (length id ≡ 32)
    grown = ground (arith, insert_outcome v t id)

in_bounds : (v : Vector) (b e : ℕ) → b ≤ e → e ≤ length v.items → check_bounds v b e ≡ ok tt
unfolding check_bounds
in_bounds v b e h k = ground arith

-- what a sealed vector of sorted items answers
pub record IsReady (v : Vector) : Type 0 where
  pub sealed_now : v.is_sealed ≡ true
  pub sorted : IsAscending v.items
  pub valid : All IsItem v.items
  pub fits : IsU64 (length v.items)

pub insert_sorted-IsItem :
    (a : Item) (bs : List Item) → IsItem a → All IsItem bs → All IsItem (insert_sorted a bs)
unfolding insert_sorted
insert_sorted-IsItem a [] h k = (h, tt)
insert_sorted-IsItem a (b ∷ bs) h k = elim (Bool-cases (item_lt b a)) [
  | inl above ↦ rw above (k.0, insert_sorted-IsItem a bs h k.1)
  | inr first ↦ rw first (h, k)
]

sort-IsItem : (xs : List Item) → All IsItem xs → All IsItem (sort xs)
unfolding sort
sort-IsItem [] h = tt
sort-IsItem (x ∷ xs) h = insert_sorted-IsItem x (sort xs) h.0 (sort-IsItem xs h.1)

pub length-insert_sorted :
    (a : Item) (bs : List Item) → length (insert_sorted a bs) ≡ suc (length bs)
unfolding insert_sorted
length-insert_sorted a [] = refl
length-insert_sorted a (b ∷ bs) = ground (arith, length-insert_sorted a bs)

length-sort : (xs : List Item) → length (sort xs) ≡ length xs
unfolding sort
length-sort [] = refl
length-sort (x ∷ xs) = length-insert_sorted x (sort xs) ∙ ap suc (length-sort xs)

seal_sorted : (v : Vector) → v.is_sealed ≡ false → (seal v).0.items ≡ sort v.items
unfolding seal
seal_sorted v h = rw h

-- A vector of valid items that `seal` accepts is ready.
pub seal-IsReady :
    (v : Vector)
    → v.is_sealed ≡ false
    → All IsItem v.items
    → IsU64 (length v.items)
    → (seal v).1 ≡ ok tt
    → IsReady (seal v).0
seal-IsReady v h valid fits passed =
    let (_, done, _) = seal_sorts v h in
    record {
      sealed_now = done;
      sorted = seal_ok-IsAscending v h passed;
      valid = subst (All IsItem) (sym (seal_sorted v h)) (sort-IsItem v.items valid);
      fits = omega (arith, ap length (seal_sorted v h), length-sort v.items);
    }

-- the item at an index inside, and what is left behind it
elem-drop :
    (xs : List Item) (i : ℕ)
    → i < length xs
    → (it : Item) × (elem_at xs i ≡ ok it) × (drop i xs ≡ it ∷ drop (suc i) xs)
unfolding elem_at
elem-drop [] i h = absurd (omega (arith, h))
elem-drop (x ∷ xs) zero h = (x, refl, refl)
elem-drop (x ∷ xs) (suc i) h = elem-drop xs i (omega (arith, h))

-- The loop over indices is the walk over the items.
for_items-walk :
    {S : Type 0} (cb : Item → ℕ → S → S × Bool) (xs : List Item) (n i : ℕ) (s : S)
    → i + n ≤ length xs
    → for_items cb xs n i s ≡ ok (walk cb i (take n (drop i xs)) s)
unfolding for_items walk
for_items-walk cb xs zero i s h = refl
for_items-walk {S} cb xs (suc n) i s h =
    let (it, at, left) = elem-drop xs i (omega (arith, h)) in
    rw (at, left)
      (ap (λ (r : Result S). if (cb it i s).1 then r else ok (cb it i s).0)
          (for_items-walk cb xs n (suc i) (cb it i s).0 (omega (arith, h)))
        ∙ branch (cb it i s).1 (walk cb (suc i) (take n (drop (suc i) xs)) (cb it i s).0)
            (cb it i s).0)
  where
    branch : (b : Bool) (x y : S) → (if b then ok x else ok y) ≡ ok (if b then x else y)
    branch true x y = refl
    branch false x y = refl

-- The position found is behind the items below the value.
lower_bound-count_below :
    (xs : List Item) (value : Item) (n i : ℕ)
    → i + n ≤ length xs
    → lower_bound xs value n i ≡ ok (i + count_below value (take n (drop i xs)))
unfolding lower_bound count_below
lower_bound-count_below xs value zero i h = ap ok (omega arith)
lower_bound-count_below xs value (suc n) i h =
    let (it, at, left) = elem-drop xs i (omega (arith, h)) in
    let rest = lower_bound-count_below xs value n (suc i) (omega (arith, h)) in
    elim (Bool-cases (item_lt it value)) [
      | inl below ↦ rw (at, left, below) (rest ∙ ap ok (omega arith))
      | inr above ↦ rw (at, left, above) (ap ok (omega arith))
    ]

iterate_ready :
    (v : Vector) (S : Type 0) (cb : Item → ℕ → S → S × Bool) (b e : ℕ) (s : S)
    → IsReady v
    → b ≤ e
    → e ≤ length v.items
    → iterate v S cb b e s ≡ ok (walk cb b (slice b e v.items) s)
unfolding iterate check_sealed
iterate_ready v S cb b e s r h k =
    rw (in_bounds v b e h k, r.sealed_now)
      (for_items-walk cb v.items (e - b) b s (omega (arith, h, k)))

pub find_ready :
    (v : Vector) (b e : ℕ) (x : Bound)
    → IsReady v
    → b ≤ e
    → e ≤ length v.items
    → find_lower_bound v b e x ≡ ok (b + count_below x.item (slice b e v.items))
unfolding find_lower_bound check_sealed
find_ready v b e x r h k =
    rw (in_bounds v b e h k, r.sealed_now)
      (lower_bound-count_below v.items x.item (e - b) b (omega (arith, h, k)))

out_of_bounds :
    (v : Vector) (b e : ℕ)
    → (e < b) ⊎ (length v.items < e)
    → check_bounds v b e ≡ err Error.bad_range
unfolding check_bounds
out_of_bounds v b e h = ground (arith, h)

iterate_refused :
    (v : Vector) (S : Type 0) (cb : Item → ℕ → S → S × Bool) (b e : ℕ) (s : S)
    → IsReady v
    → (e < b) ⊎ (length v.items < e)
    → iterate v S cb b e s ≡ err Error.bad_range
unfolding iterate check_sealed
iterate_refused v S cb b e s r h = rw (out_of_bounds v b e h, r.sealed_now)

find_refused :
    (v : Vector) (b e : ℕ) (x : Bound)
    → IsReady v
    → (e < b) ⊎ (length v.items < e)
    → find_lower_bound v b e x ≡ err Error.bad_range
unfolding find_lower_bound check_sealed
find_refused v b e x r h = rw (out_of_bounds v b e h, r.sealed_now)

elem_beyond : (xs : List Item) (i : ℕ) → length xs ≤ i → get_elem? xs i ≡ none
elem_beyond [] i h = refl
elem_beyond (x ∷ xs) zero h = absurd (omega (arith, h))
elem_beyond (x ∷ xs) (suc i) h = elem_beyond xs i (omega (arith, h))

get_item_refused :
    (v : Vector) (i : ℕ)
    → IsReady v
    → length v.items ≤ i
    → get_item v i ≡ err Error.std_out_of_range
unfolding get_item check_sealed
get_item_refused v i r h = rw r.sealed_now (rw (elem_beyond v.items i h))

size_ready : (v : Vector) → IsReady v → size v ≡ ok (length v.items)
unfolding size check_sealed
size_ready v r = rw r.sealed_now

get_item_ready :
    (v : Vector) (i : ℕ) (it : Item)
    → IsReady v
    → get_elem? v.items i ≡ some it
    → get_item v i ≡ ok it
unfolding get_item check_sealed
get_item_ready v i it r h = rw r.sealed_now (rw h)

module _ (sha256 : Bytes → Bytes) where
  fingerprint_ready :
      (v : Vector) (b e : ℕ)
      → IsReady v
      → b ≤ e
      → e ≤ length v.items
      → fingerprint sha256 v b e
        ≡ ok (get_fingerprint sha256 (accum_from zero_accum (slice b e v.items)) (e - b))
  unfolding fingerprint
  fingerprint_ready v b e r h k =
      rw (iterate_ready v Bytes _ b e zero_accum r h k, walk-accum b (slice b e v.items) zero_accum)

  fingerprint_refused :
      (v : Vector) (b e : ℕ)
      → IsReady v
      → (e < b) ⊎ (length v.items < e)
      → fingerprint sha256 v b e ≡ err Error.bad_range
  unfolding fingerprint
  fingerprint_refused v b e r h = rw (iterate_refused v Bytes add_item b e zero_accum r h)

  -- A sealed vector of ascending valid items presents its items: inside, every operation of the storage
  -- interface answers as the contract says of the list of items, and every range and index outside it is
  -- refused.
  pub vector-Presents : (v : Vector) → IsReady v → Presents sha256 (vector_storage sha256 v) v.items
  unfolding vector_storage
  vector-Presents v r = record {
    sorted = r.sorted;
    valid = r.valid;
    size_fits = r.fits;
    size_lem = size_ready v r;
    get_item_lem = λ i it h. get_item_ready v i it r h;
    get_item_refused = λ i h. (Error.std_out_of_range, get_item_refused v i r h);
    iterate_refused = λ S cb b e s h. iterate_refused v S cb b e s r h;
    find_lower_bound_refused = λ b e x h. find_refused v b e x r h;
    fingerprint_refused = λ b e h. fingerprint_refused v b e r h;
    iterate_lem = λ S cb b e s h k. iterate_ready v S cb b e s r h k;
    find_lower_bound_lem = λ b e x h k. find_ready v b e x r h k;
    fingerprint_lem = λ b e h k. fingerprint_ready v b e r h k;
  }
