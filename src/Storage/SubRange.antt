-- ===== src/Storage/SubRange.antt =====
-- cpp/negentropy/storage/SubRange.h: the items of a base storage between two bounds.
use negentropy.Prelude.{
  ℕ, zero, suc, ◌+◌, ◌-◌, ◌%◌, ◌≡◌, Bool, true, false, not, Bytes, ◌||◌, ◌&&◌, min, sub_u64,
  max_u64, ltb, leb, ◌==◌, if◌then◌else◌,
}
use negentropy.Prelude.Results.{Result, ok, err, Error, ◌>>=◌, ◌>>◌, guard}
use negentropy.Types.{Item, Bound, bound_at, bound_of_item, bound_eq}
use negentropy.Storage.{Storage}
pub mod Between
pub mod Inside
pub mod Contract

pub record SubRange : Type 0 where
  pub base_size : ℕ
  pub sub_begin : ℕ
  pub sub_end : ℕ
  pub sub_size : ℕ

-- `if (subEnd != baseSize && Bound(base.getItem(subEnd)) == upperBound) subEnd++;`
pub include_upper : Storage → ℕ → ℕ → Bound → Result ℕ
include_upper base base_size sub_end upper = if sub_end == base_size then ok sub_end else do
  it ← base.get_item sub_end
  ok (if bound_eq (bound_of_item it) upper then sub_end + 1 else sub_end)

pub make_sub_range : Storage → Bound → Bound → Result SubRange
make_sub_range base lower upper = do
  base_size ← base.size
  sub_begin ← if bound_eq lower (bound_at 0) then ok 0 else base.find_lower_bound 0 base_size lower
  sub_end ←
      if bound_eq upper (bound_at max_u64)
      then ok base_size
      else base.find_lower_bound sub_begin base_size upper
  sub_end' ← include_upper base base_size sub_end upper
  ok (record {
    base_size = base_size;
    sub_begin = sub_begin;
    sub_end = sub_end';
    sub_size = sub_u64 sub_end' sub_begin;
  })

pub check_bounds : SubRange → ℕ → ℕ → Result (Unit {0})
check_bounds r begin end = guard (not (ltb end begin || ltb r.sub_size end)) Error.bad_range

pub get_item : Storage → SubRange → ℕ → Result Item
get_item base r i = do guard (ltb i r.sub_size) Error.bad_index; base.get_item (r.sub_begin + i)

pub iterate : Storage → SubRange → (S : Type 0) → (Item → ℕ → S → S × Bool) → ℕ → ℕ → S → Result S
iterate base r S cb begin end s = do
  check_bounds r begin end
  base.iterate S (λ it index. cb it (sub_u64 index r.sub_begin)) (r.sub_begin + begin)
      (r.sub_begin + end) s

pub find_lower_bound : Storage → SubRange → ℕ → ℕ → Bound → Result ℕ
find_lower_bound base r begin end b = do
  check_bounds r begin end
  i ← base.find_lower_bound (r.sub_begin + begin) (r.sub_begin + end) b
  ok (min (sub_u64 i r.sub_begin) r.sub_size)

pub fingerprint : Storage → SubRange → ℕ → ℕ → Result Bytes
fingerprint base r begin end = do
  check_bounds r begin end
  base.fingerprint (r.sub_begin + begin) (r.sub_begin + end)

pub sub_range_storage : Storage → SubRange → Storage
sub_range_storage base r = record {
  size = ok r.sub_size;
  get_item = get_item base r;
  iterate = iterate base r;
  find_lower_bound = find_lower_bound base r;
  fingerprint = fingerprint base r;
}
