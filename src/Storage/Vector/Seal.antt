-- ===== src/Storage/Vector/Seal.antt =====
-- `seal` sorts, and refuses items that stand twice.
use negentropy.Prelude.{
  ◌≡◌, refl, Bool, true, false, List, [], ◌∷◌, arith, Bool-cases, inl, inr, ◌⊎◌,
}
use negentropy.Prelude.Results.{ok, err, Error}
use negentropy.Types.{Item, item_lt, item_eq}
use negentropy.Types.Order.{item_lt_trans, item_lt-total, item_lt_irrefl, item_eq_iff, item_lt-asym}
use negentropy.Storage.{IsAscending}
use negentropy.Storage.Vector.{Vector, insert_sorted, sort, has_duplicate, seal}
use mathlib.Core.List.{Mem, Perm, Nodup, Nodup-cons, Nodup-nil, mem-cons, not-mem-nil}
use mathlib.Core.List.Perm
use mathlib.Core.Logic.Or

-- sorted, where items may stand twice
abbrev NotAbove : Item → List Item → Type 0
NotAbove a [] = Unit
NotAbove a (b ∷ bs) = item_lt b a ≡ false

abbrev IsSorted : List Item → Type 0
IsSorted [] = Unit
IsSorted (a ∷ as') = NotAbove a as' × IsSorted as'

insert_sorted-NotAbove :
    (a b : Item) (bs : List Item)
    → item_lt a b ≡ false
    → NotAbove b bs
    → NotAbove b (insert_sorted a bs)
unfolding insert_sorted
insert_sorted-NotAbove a b [] h k = h
insert_sorted-NotAbove a b (c ∷ cs) h k = ground arith

insert_sorted-IsSorted : (a : Item) (bs : List Item) → IsSorted bs → IsSorted (insert_sorted a bs)
unfolding insert_sorted
insert_sorted-IsSorted a [] h = (tt, tt)
insert_sorted-IsSorted a (b ∷ bs) h = elim (Bool-cases (item_lt b a)) [
  | inl above ↦
      rw above (
        insert_sorted-NotAbove a b bs (item_lt-asym b a above) h.0,
        insert_sorted-IsSorted a bs h.1,
      )
  | inr first ↦ rw first (first, h)
]

sort-IsSorted : (xs : List Item) → IsSorted (sort xs)
unfolding sort
sort-IsSorted [] = tt
sort-IsSorted (x ∷ xs) = insert_sorted-IsSorted x (sort xs) (sort-IsSorted xs)

pub insert_sorted-perm : (a : Item) (bs : List Item) → Perm (insert_sorted a bs) (a ∷ bs)
unfolding insert_sorted
insert_sorted-perm a [] = Perm.refl (a ∷ [])
insert_sorted-perm a (b ∷ bs) = elim (Bool-cases (item_lt b a)) [
  | inl above ↦ rw above (Perm.trans (Perm.cons b (insert_sorted-perm a bs)) (Perm.swap a b bs))
  | inr first ↦ rw first (Perm.refl (a ∷ b ∷ bs))
]

sort-perm : (xs : List Item) → Perm (sort xs) xs
unfolding sort
sort-perm [] = Perm.refl []
sort-perm (x ∷ xs) = Perm.trans (insert_sorted-perm x (sort xs)) (Perm.cons x (sort-perm xs))

no_duplicate-IsAscending :
    (xs : List Item) → IsSorted xs → has_duplicate xs ≡ false → IsAscending xs
unfolding has_duplicate
no_duplicate-IsAscending [] h e = tt
no_duplicate-IsAscending (a ∷ []) h e = (tt, tt)
no_duplicate-IsAscending (a ∷ b ∷ rest) h e = (
  ground (arith, item_lt-total a b, item_eq_iff a b),
  no_duplicate-IsAscending (b ∷ rest) h.1 (ground arith),
)

Bool-set : IsSet Bool
Bool-set = hlevel

IsAscending-lt :
    (a : Item) (xs : List Item) (b : Item) → IsAscending (a ∷ xs) → Mem b xs → item_lt a b ≡ true
IsAscending-lt a [] b h m = absurd (not-mem-nil m)
IsAscending-lt a (x ∷ xs) b h m =
    Or.elim (Bool-set _ _) (mem-cons.0 m) (λ e. rw e h.0)
      (λ t. item_lt_trans a x b h.0 (IsAscending-lt x xs b h.1 t))

pub IsAscending-Nodup : (xs : List Item) → IsAscending xs → Nodup xs
IsAscending-Nodup [] h = Nodup-nil
IsAscending-Nodup (a ∷ xs) h =
    Nodup-cons.1 ((λ m. cc (IsAscending-lt a xs a h m, item_lt_irrefl a)), IsAscending-Nodup xs h.1)

duplicate-not_Nodup : (xs : List Item) → has_duplicate xs ≡ true → ¬ Nodup xs
unfolding has_duplicate
duplicate-not_Nodup [] e n = cc
duplicate-not_Nodup (a ∷ []) e n = cc
duplicate-not_Nodup (a ∷ b ∷ rest) e n = elim (Bool-cases (item_eq a b)) [
  | inl same ↦ (Nodup-cons.0 n).0 (mem-cons.1 (Or.inl ((item_eq_iff a b).0 same)))
  | inr other ↦ duplicate-not_Nodup (b ∷ rest) (ground arith) (Nodup-cons.0 n).1
]

-- `seal` on a vector that is not sealed keeps the items, whatever their order, and marks the vector
-- sealed. If no item stands twice it returns and leaves strictly ascending items; else it throws
-- "duplicate item inserted".
pub seal_sorts :
    (v : Vector)
    → v.is_sealed ≡ false
    → Perm (seal v).0.items v.items
      × ((seal v).0.is_sealed ≡ true)
      × ((((seal v).1 ≡ ok tt) × Nodup v.items × IsAscending (seal v).0.items)
          ⊎ (((seal v).1 ≡ err Error.duplicate_item) × (¬ Nodup v.items)))
unfolding seal
seal_sorts v h = rw h (
  sort-perm v.items,
  refl,
  (elim (Bool-cases (has_duplicate (sort v.items))) [
    | inl twice ↦ inr (
      rw twice,
      (λ n.
          duplicate-not_Nodup (sort v.items) twice (Perm.nodup (Perm.symm (sort-perm v.items)) n)),
    )
    | inr once ↦
        let ascending = no_duplicate-IsAscending (sort v.items) (sort-IsSorted v.items) once in
        inl (
          rw once,
          Perm.nodup (sort-perm v.items) (IsAscending-Nodup (sort v.items) ascending),
          ascending,
        )
  ]),
)

-- the items of a vector that `seal` accepts
pub seal_ok-IsAscending :
    (v : Vector) → v.is_sealed ≡ false → (seal v).1 ≡ ok tt → IsAscending (seal v).0.items
seal_ok-IsAscending v h passed = elim ((seal_sorts v h).2) [
  | inl (_, _, ascending) ↦ ascending
  | inr (thrown, _) ↦ cc
]
