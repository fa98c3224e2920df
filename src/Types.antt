-- ===== src/Types.antt =====
-- cpp/negentropy/types.h, the plain data: `Item`, `Bound`, `Mode`. The accumulator is the module
-- Accumulator. An id is a string of 32 bytes.
use negentropy.Prelude.{
  ℕ, ◌-◌, ◌%◌, ◌≤◌, ◌≡◌, refl, Bool, true, false, not, ◌&&◌, Bytes, IsByte, IsU64, All, List, [],
  ◌∷◌, ◌++◌, length, take, replicate, ltb, ◌==◌, if◌then◌else◌, Option, some, none,
}
use negentropy.Prelude.Results.{Result, ok, err, Error}
pub mod Order
pub mod Bounds

abbrev pub id_size : ℕ
id_size = 32

abbrev pub fingerprint_size : ℕ
fingerprint_size = 16

pub data Mode : Type 0 where
  skip fingerprint id_list : Mode

abbrev pub mode_code : Mode → ℕ
mode_code Mode.skip = 0
mode_code Mode.fingerprint = 1
mode_code Mode.id_list = 2

-- `Mode(n)` for a uint64 `n`: the enumeration stands on `int`, so 32 bits are kept. `none` is a
-- value that the code compares unequal to all three modes.
pub mode_of : ℕ → Option Mode
mode_of n =
    let m = n % 0x1_0000_0000 in
    if m == 0
    then some Mode.skip
    else if m == 1
    then some Mode.fingerprint
    else if m == 2
    then some Mode.id_list
    else none

-- `std::string_view`'s `<` and `==`: bytes compare as unsigned numbers
unfoldable pub bytes_lt : Bytes → Bytes → Bool
bytes_lt [] [] = false
bytes_lt [] (b ∷ bs) = true
bytes_lt (a ∷ as') [] = false
bytes_lt (a ∷ as') (b ∷ bs) = if a == b then bytes_lt as' bs else ltb a b

unfoldable pub bytes_eq : Bytes → Bytes → Bool
bytes_eq [] [] = true
bytes_eq [] (b ∷ bs) = false
bytes_eq (a ∷ as') [] = false
bytes_eq (a ∷ as') (b ∷ bs) = (a == b) && bytes_eq as' bs

pub record Item : Type 0 where
  pub timestamp : ℕ
  pub id : Bytes

abbrev pub zero_id : Bytes
zero_id = replicate 32 0

-- `Item(timestamp)`
abbrev pub item_at : ℕ → Item
item_at t = record { timestamp = t; id = zero_id }

-- `Item(timestamp, id_)`
pub make_item : ℕ → Bytes → Result Item
make_item t id_ =
    if length id_ == id_size then ok (record { timestamp = t; id = id_ }) else err Error.bad_item_id

pub make_item_ok :
    (t : ℕ) (id_ : Bytes)
    → make_item t id_ ≡ (
        if length id_ == id_size
        then ok (record { timestamp = t; id = id_ })
        else err Error.bad_item_id)
unfolding make_item
make_item_ok t id_ = refl

pub item_eq : Item → Item → Bool
item_eq a b = (a.timestamp == b.timestamp) && bytes_eq a.id b.id

unfoldable pub item_lt : Item → Item → Bool
item_lt a b =
    if not (a.timestamp == b.timestamp) then ltb a.timestamp b.timestamp else bytes_lt a.id b.id

-- `a.id <= b.id` is `!(b.id < a.id)`
unfoldable pub item_le : Item → Item → Bool
item_le a b =
    if not (a.timestamp == b.timestamp)
    then not (ltb b.timestamp a.timestamp)
    else not (bytes_lt b.id a.id)

pub record Bound : Type 0 where
  pub item : Item
  pub id_len : ℕ

-- `Bound(timestamp, id)`: the bytes past the id are zero
pub make_bound : ℕ → Bytes → Result Bound
make_bound t id =
    if ltb id_size (length id)
    then err Error.bad_bound_id
    else ok (record {
      item = record { timestamp = t; id = id ++ replicate (id_size - length id) 0 };
      id_len = length id;
    })

-- `Bound(timestamp)`, whose empty id is never too long
abbrev pub bound_at : ℕ → Bound
bound_at t = record { item = item_at t; id_len = 0 }

-- `Bound(item)`
abbrev pub bound_of_item : Item → Bound
bound_of_item it = record { item = it; id_len = id_size }

abbrev pub bound_eq : Bound → Bound → Bool
bound_eq a b = item_eq a.item b.item

-- What the types of C++ give: a uint64, and 32 bytes.
pub record IsItem (it : Item) : Type 0 where
  pub timestamp_fits : IsU64 it.timestamp
  pub id_full : length it.id ≡ 32
  pub id_bytes : All IsByte it.id

-- A bound names a prefix of an id, and the rest of the id is zero.
pub record IsBound (b : Bound) : Type 0 where
  pub item_valid : IsItem b.item
  pub len_fits : b.id_len ≤ 32
  pub padded : b.item.id ≡ take b.id_len b.item.id ++ replicate (32 - b.id_len) 0
