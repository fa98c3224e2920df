-- ===== src/Storage.antt =====
-- cpp/negentropy/storage/base.h: what the protocol asks of a storage. An operation returns the
-- exception that it throws. `iterate` hands each item and its index to a callback, whose answer says
-- whether to go on; the variables that the callback changes are the state `S` that it passes on.
use negentropy.Prelude.{
  ℕ, zero, suc, ◌+◌, ◌-◌, ◌≤◌, ◌<◌, ◌≡◌, Bool, true, false, not, Bytes, IsU64, List, [], ◌∷◌, slice,
  length, leb, ◌&&◌, if◌then◌else◌, All, ◌⊎◌, get_elem?, Option, none, some,
}
use negentropy.Prelude.Results.{Result, ok, err, Error, ◌>>=◌}
use negentropy.Types.{Item, Bound, item_lt, IsItem, fingerprint_size}
use negentropy.Accumulator.{zero_accum, accum_from, get_fingerprint}
pub mod Sorted
pub mod Vector
pub mod Ordered
pub mod SubRange
pub mod BTree

pub record Storage : Type 1 where
  pub size : Result ℕ
  pub get_item : ℕ → Result Item
  pub iterate : (S : Type 0) → (Item → ℕ → S → S × Bool) → ℕ → ℕ → S → Result S
  pub find_lower_bound : ℕ → ℕ → Bound → Result ℕ
  pub fingerprint : ℕ → ℕ → Result Bytes

-- the callback on the items of a list, from index `i` on, until it says not to go on
unfoldable pub walk {ℓ} : {S : Type ℓ} → (Item → ℕ → S → S × Bool) → ℕ → List Item → S → S
walk cb i [] s = s
walk cb i (it ∷ its) s =
    let r = cb it i s in let rest = walk cb (suc i) its r.0 in if r.1 then rest else r.0

-- how many items at the front are below the bound
unfoldable pub count_below : Item → List Item → ℕ
count_below v [] = 0
count_below v (it ∷ its) = if item_lt it v then suc (count_below v its) else 0

-- strictly ascending items
abbrev pub Below : Item → List Item → Type 0
Below a [] = Unit
Below a (b ∷ bs) = item_lt a b ≡ true

abbrev pub IsAscending : List Item → Type 0
IsAscending [] = Unit
IsAscending (a ∷ as') = Below a as' × IsAscending as'

-- The contract: the storage presents the items `xs`, and a range or an index outside them is refused.
module _ (sha256 : Bytes → Bytes) where
  pub record Presents (s : Storage) (xs : List Item) : Type 1 where
    pub sorted : IsAscending xs
    pub valid : All IsItem xs
    pub size_fits : IsU64 (length xs)
    pub size_lem : s.size ≡ ok (length xs)
    pub get_item_lem : (i : ℕ) (it : Item) → get_elem? xs i ≡ some it → s.get_item i ≡ ok it
    pub get_item_refused : (i : ℕ) → length xs ≤ i → (reason : Error) × (s.get_item i ≡ err reason)
    pub iterate_lem :
        (S : Type 0) (cb : Item → ℕ → S → S × Bool) (begin end : ℕ) (st : S)
        → begin ≤ end
        → end ≤ length xs
        → s.iterate S cb begin end st ≡ ok (walk cb begin (slice begin end xs) st)
    pub iterate_refused :
        (S : Type 0) (cb : Item → ℕ → S → S × Bool) (begin end : ℕ) (st : S)
        → (end < begin) ⊎ (length xs < end)
        → s.iterate S cb begin end st ≡ err Error.bad_range
    pub find_lower_bound_lem :
        (begin end : ℕ) (b : Bound)
        → begin ≤ end
        → end ≤ length xs
        → s.find_lower_bound begin end b ≡ ok (begin + count_below b.item (slice begin end xs))
    pub find_lower_bound_refused :
        (begin end : ℕ) (b : Bound)
        → (end < begin) ⊎ (length xs < end)
        → s.find_lower_bound begin end b ≡ err Error.bad_range
    pub fingerprint_lem :
        (begin end : ℕ)
        → begin ≤ end
        → end ≤ length xs
        → s.fingerprint begin end
          ≡ ok (get_fingerprint sha256 (accum_from zero_accum (slice begin end xs)) (end - begin))
    pub fingerprint_refused :
        (begin end : ℕ)
        → (end < begin) ⊎ (length xs < end)
        → s.fingerprint begin end ≡ err Error.bad_range
