-- ===== src/Storage/Ordered.antt =====
-- A set of items as an ascending list: membership, and insertion in order.
use negentropy.Prelude.{
  ◌≡◌, refl, ap, ◌∙◌, Bool, true, false, ◌||◌, List, [], ◌∷◌, ◌++◌, All, arith, if◌then◌else◌,
  Bool-cases, inl, inr,
}
use negentropy.Types.{Item, item_lt, item_eq, IsItem}
use negentropy.Types.Order.{item_lt_trans, item_lt-total, item_lt-asym, item_lt_irrefl, item_eq_iff}
use negentropy.Accumulator.{add, zero_accum, accum_from}
use negentropy.Accumulator.Value.{IsBuffer, zero-IsBuffer, add-IsBuffer, add_comm, add-zero_accum}
use negentropy.Accumulator.Sums.{id-IsBuffer, accum_from-IsBuffer, accum_from-add, accum_from-perm}
use negentropy.Storage.{IsAscending}
use negentropy.Storage.Vector.{insert_sorted}
use negentropy.Storage.Vector.Seal.{insert_sorted-perm}
use negentropy.Storage.Vector.Contract.{insert_sorted-IsItem}

unfoldable pub has : Item → List Item → Bool
has v [] = false
has v (x ∷ xs) = if item_eq v x then true else has v xs

abbrev pub Under : Item → Item → Type 0
Under v x = item_lt x v ≡ true

abbrev pub Over : Item → Item → Type 0
Over v x = item_lt v x ≡ true

-- the first item, if there is one, is above `v`
abbrev pub HeadOver : Item → List Item → Type 0
HeadOver v [] = Unit
HeadOver v (x ∷ xs) = item_lt v x ≡ true

pub Over-All :
    (v x : Item) (zs : List Item) → item_lt v x ≡ true → All (Over x) zs → All (Over v) zs
Over-All v x [] h a = tt
Over-All v x (z ∷ zs) h a = (item_lt_trans v x z h a.0, Over-All v x zs h a.1)

pub ascending_after : (x : Item) (xs : List Item) → IsAscending (x ∷ xs) → All (Over x) xs
ascending_after x [] h = tt
ascending_after x (y ∷ ys) h = (h.0, Over-All x y ys h.0 (ascending_after y ys h.1))

pub HeadOver-All : (v : Item) (xs : List Item) → IsAscending xs → HeadOver v xs → All (Over v) xs
HeadOver-All v [] h o = tt
HeadOver-All v (x ∷ xs) h o = (o, Over-All v x xs o (ascending_after x xs h))

-- what an ascending list says of its parts
pub record Parts (xs ys : List Item) : Type 0 where
  pub front : IsAscending xs
  pub back : IsAscending ys
  pub across : All (λ x. HeadOver x ys) xs

pub IsAscending-split : (xs ys : List Item) → IsAscending (xs ++ ys) → Parts xs ys
IsAscending-split [] ys h = record { front = tt; back = h; across = tt }
IsAscending-split (x ∷ []) [] h = record { front = h; back = tt; across = (tt, tt) }
IsAscending-split (x ∷ []) (y ∷ ys) h = record { front = (tt, tt); back = h.1; across = (h.0, tt) }
IsAscending-split (x ∷ x' ∷ xs) [] h =
    let p = IsAscending-split (x' ∷ xs) [] h.1 in
    record { front = (h.0, p.front); back = tt; across = (tt, p.across) }
IsAscending-split (x ∷ x' ∷ xs) (y ∷ ys) h =
    let p = IsAscending-split (x' ∷ xs) (y ∷ ys) h.1 in
    record {
      front = (h.0, p.front);
      back = p.back;
      across = (item_lt_trans x x' y h.0 p.across.0, p.across);
    }

pub has-append : (v : Item) (xs ys : List Item) → has v (xs ++ ys) ≡ (has v xs || has v ys)
unfolding has
has-append v [] ys = refl
has-append v (x ∷ xs) ys = ground (arith, has-append v xs ys)

pub has-Over : (v : Item) (xs : List Item) → All (Over v) xs → has v xs ≡ false
unfolding has
has-Over v [] a = refl
has-Over v (x ∷ xs) a = ground (arith, has-Over v xs a.1, item_eq_iff v x, item_lt_irrefl v)

pub has-Under : (v : Item) (xs : List Item) → All (Under v) xs → has v xs ≡ false
unfolding has
has-Under v [] a = refl
has-Under v (x ∷ xs) a = ground (arith, has-Under v xs a.1, item_eq_iff v x, item_lt_irrefl v)

pub insert_sorted-front :
    (v : Item) (xs ys : List Item)
    → All (Under v) xs
    → insert_sorted v (xs ++ ys) ≡ xs ++ insert_sorted v ys
unfolding insert_sorted
insert_sorted-front v [] ys a = refl
insert_sorted-front v (x ∷ xs) ys a = rw a.0 (ap (◌∷◌ x) (insert_sorted-front v xs ys a.1))

pub insert_sorted-back :
    (v : Item) (ys zs : List Item)
    → HeadOver v zs
    → insert_sorted v (ys ++ zs) ≡ insert_sorted v ys ++ zs
unfolding insert_sorted
insert_sorted-back v [] [] h = refl
insert_sorted-back v [] (z ∷ zs) h = rw (item_lt-asym v z h)
insert_sorted-back v (y ∷ ys) zs h = ground (arith, insert_sorted-back v ys zs h)

pub insert_sorted-IsAscending :
    (v : Item) (xs : List Item)
    → IsAscending xs
    → has v xs ≡ false
    → IsAscending (insert_sorted v xs)
unfolding insert_sorted has
insert_sorted-IsAscending v [] h n = (tt, tt)
insert_sorted-IsAscending v (x ∷ []) h n = ground (arith, item_eq_iff v x, item_lt-total v x)
insert_sorted-IsAscending v (x ∷ y ∷ ys) h n =
    let ih = λ (n' : has v (y ∷ ys) ≡ false). insert_sorted-IsAscending v (y ∷ ys) h.1 n' in
    ground (
      arith,
      ih (ground arith),
      item_eq_iff v x,
      item_eq_iff v y,
      item_lt-total v x,
      item_lt-total v y,
    )

pub accum_from-insert_sorted :
    (v : Item) (xs : List Item)
    → IsItem v
    → All IsItem xs
    → accum_from zero_accum (insert_sorted v xs) ≡ add (accum_from zero_accum xs) v.id
unfolding accum_from
accum_from-insert_sorted v xs hv a =
    let id = id-IsBuffer v hv in
    let sum : IsBuffer (accum_from zero_accum xs) =
      accum_from-IsBuffer zero_accum xs zero-IsBuffer in
    accum_from-perm (insert_sorted-perm v xs) (insert_sorted-IsItem v xs hv a)
    ∙ accum_from-add (add zero_accum v.id) xs (add-IsBuffer zero_accum v.id) a
    ∙ add_comm (add zero_accum v.id) (accum_from zero_accum xs) (add-IsBuffer zero_accum v.id) sum
    ∙ ap (add (accum_from zero_accum xs))
        (add_comm zero_accum v.id zero-IsBuffer id ∙ add-zero_accum v.id id)

pub All-insert_sorted :
    (P : Item → Type 0) (v : Item) (xs : List Item) → P v → All P xs → All P (insert_sorted v xs)
unfolding insert_sorted
All-insert_sorted P v [] p a = (p, tt)
All-insert_sorted P v (x ∷ xs) p a = elim (Bool-cases (item_lt x v)) [
  | inl under ↦ rw under (a.0, All-insert_sorted P v xs p a.1)
  | inr first ↦ rw first (p, a)
]

-- every item in front is below every item behind
pub ascending_across : (xs ys : List Item) → IsAscending (xs ++ ys) → All (λ x. All (Over x) ys) xs
ascending_across [] ys h = tt
ascending_across (x ∷ xs) ys h =
    (over_back xs (ascending_after x (xs ++ ys) h), ascending_across xs ys h.1)
  where
    over_back : (zs : List Item) → All (Over x) (zs ++ ys) → All (Over x) ys
    over_back [] a = a
    over_back (z ∷ zs) a = over_back zs a.1

-- the first item stays where the new one is not below it
pub insert_sorted-stays :
    (v y : Item) (ys : List Item)
    → item_lt v y ≡ false
    → has v (y ∷ ys) ≡ false
    → insert_sorted v (y ∷ ys) ≡ y ∷ insert_sorted v ys
unfolding insert_sorted has
insert_sorted-stays v y ys h n =
    let under : item_lt y v ≡ true = ground (arith, item_eq_iff v y, item_lt-total v y) in
    rw under refl
