-- ===== src/Storage/Vector.antt =====
-- cpp/negentropy/storage/Vector.h. `std::sort` and `std::lower_bound` are modelled by what the
-- standard says of them: a sorted permutation (here by insertion), and the first position whose item
-- is not below the value.
use negentropy.Prelude.{
  ℕ, zero, suc, ◌+◌, ◌-◌, ◌≤◌, ◌≡◌, Bool, true, false, not, Bytes, List, [], ◌∷◌, ◌++◌, length,
  get_elem?, ◌||◌, ltb, ◌==◌, if◌then◌else◌, Option, none, some,
}
use negentropy.Prelude.Results.{Result, ok, err, Error, ◌>>=◌, ◌>>◌, guard}
use negentropy.Types.{Item, Bound, item_lt, item_eq, id_size, make_item}
use negentropy.Accumulator.{add, zero_accum, get_fingerprint}
use negentropy.Storage.{Storage}
pub mod Seal
pub mod Contract
pub mod Load
pub mod Position

pub record Vector : Type 0 where
  pub items : List Item
  pub is_sealed : Bool

abbrev pub empty_vector : Vector
empty_vector = record { items = []; is_sealed = false }

-- `items.emplace_back(createdAt, id)` runs the constructor of `Item`
pub insert : Vector → ℕ → Bytes → Result Vector
insert v created_at id = do
  guard (not v.is_sealed) Error.already_sealed
  guard (length id == id_size) Error.bad_added_id
  it ← make_item created_at id
  ok (record v { items = v.items ++ (it ∷ []) })

pub insert_item : Vector → Item → Result Vector
insert_item v it = insert v it.timestamp it.id

unfoldable pub insert_sorted : Item → List Item → List Item
insert_sorted a [] = a ∷ []
insert_sorted a (b ∷ bs) = if item_lt b a then b ∷ insert_sorted a bs else a ∷ b ∷ bs

pub sort : List Item → List Item
sort [] = []
sort (a ∷ as') = insert_sorted a (sort as')

-- the loop over neighbours
pub has_duplicate : List Item → Bool
has_duplicate [] = false
has_duplicate (a ∷ []) = false
has_duplicate (a ∷ b ∷ rest) = item_eq a b || has_duplicate (b ∷ rest)

-- A duplicate throws when the vector is sealed and sorted already: the exception leaves `v'` behind.
pub seal : Vector → Vector × Result (Unit {0})
seal v =
    if v.is_sealed
    then (v, err Error.already_sealed)
    else let v' : Vector = record { items = sort v.items; is_sealed = true } in
      (v', guard (not (has_duplicate v'.items)) Error.duplicate_item)

pub unseal : Vector → Vector
unseal v = record v { is_sealed = false }

pub check_sealed : Vector → Result (Unit {0})
check_sealed v = guard v.is_sealed Error.not_sealed

pub check_bounds : Vector → ℕ → ℕ → Result (Unit {0})
check_bounds v begin end = guard (not (ltb end begin || ltb (length v.items) end)) Error.bad_range

pub size : Vector → Result ℕ
size v = do check_sealed v; ok (length v.items)

-- `items.at(i)` throws `std::out_of_range`, which is no exception of the code's own
pub get_item : Vector → ℕ → Result Item
get_item v i = do
  check_sealed v
  elim (get_elem? v.items i) [ none ↦ err Error.std_out_of_range | some it ↦ ok it ]

-- `items[i]`, and `*it`: beyond the end is undefined
unfoldable pub elem_at : List Item → ℕ → Result Item
elem_at items i = elim (get_elem? items i) [ none ↦ err Error.undefined | some it ↦ ok it ]

-- `for (i = begin; i < end; ++i) if (!cb(items[i], i)) break;`, with the rounds that are left
pub for_items : {S : Type 0} → (Item → ℕ → S → S × Bool) → List Item → ℕ → ℕ → S → Result S
for_items cb items zero i s = ok s
for_items cb items (suc rounds) i s = do
  it ← elem_at items i
  let r = cb it i s
  let rest = for_items cb items rounds (suc i) r.0
  if r.1 then rest else ok r.0

pub iterate : Vector → (S : Type 0) → (Item → ℕ → S → S × Bool) → ℕ → ℕ → S → Result S
iterate v S cb begin end s = do
  check_sealed v
  check_bounds v begin end
  for_items cb v.items (end - begin) begin s

-- `std::lower_bound` on sorted items: the first position that is not below the value, of those left
pub lower_bound : List Item → Item → ℕ → ℕ → Result ℕ
lower_bound items value zero i = ok i
lower_bound items value (suc left) i = do
  it ← elem_at items i
  let rest = lower_bound items value left (suc i)
  if item_lt it value then rest else ok i

pub find_lower_bound : Vector → ℕ → ℕ → Bound → Result ℕ
find_lower_bound v begin end bound = do
  check_sealed v
  check_bounds v begin end
  lower_bound v.items bound.item (end - begin) begin

-- the callback of `fingerprint`
abbrev pub add_item : Item → ℕ → Bytes → Bytes × Bool
add_item it _ acc = (add acc it.id, true)

module _ (sha256 : Bytes → Bytes) where
  pub fingerprint : Vector → ℕ → ℕ → Result Bytes
  fingerprint v begin end = do
    out ← iterate v Bytes add_item begin end zero_accum
    ok (get_fingerprint sha256 out (end - begin))

  pub vector_storage : Vector → Storage
  vector_storage v = record {
    size = size v;
    get_item = get_item v;
    iterate = iterate v;
    find_lower_bound = find_lower_bound v;
    fingerprint = fingerprint v;
  }
