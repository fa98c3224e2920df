-- ===== src/Protocol/Wire.antt =====
-- cpp/negentropy.h: timestamps and bounds on the wire, and the bound that separates two items.
-- `lastTimestampIn` and `lastTimestampOut` are arguments and parts of the results.
use negentropy.Prelude.{
  ℕ, zero, suc, ◌+◌, ◌-◌, ◌%◌, ◌≡◌, Bytes, u64_mod, max_u64, sub_u64, List, [], ◌∷◌, ◌++◌, take,
  ltb, ◌==◌, if◌then◌else◌,
}
use negentropy.Prelude.Results.{Result, ok, err, Error, ◌>>=◌}
use negentropy.Encoding.{get_bytes, decode_var_int, encode_var_int}
use negentropy.Types.{Item, Bound, make_bound, bound_at}
pub mod RoundTrip
pub mod Prefix
pub mod Minimal
pub mod Size

-- the value of a decoded varint `v` after the timestamp `last`
unfoldable pub timestamp_after : ℕ → ℕ → ℕ
timestamp_after last v =
    let timestamp = if v == 0 then max_u64 else v - 1 in
    let timestamp' = (timestamp + last) % u64_mod in
    if ltb timestamp' last then max_u64 else timestamp'

-- The timestamp, which is the new `lastTimestampIn` too, and the rest of the input.
pub decode_timestamp_in : ℕ → Bytes → Result (ℕ × Bytes)
decode_timestamp_in last encoded = do
  (v, rest) ← decode_var_int encoded
  ok (timestamp_after last v, rest)

pub decode_bound : ℕ → Bytes → Result (Bound × ℕ × Bytes)
decode_bound last encoded = do
  (timestamp, rest) ← decode_timestamp_in last encoded
  (len, rest') ← decode_var_int rest
  (id, rest'') ← get_bytes rest' len
  b ← make_bound timestamp id
  ok (b, timestamp, rest'')

-- The bytes, and the new `lastTimestampOut`.
pub encode_timestamp_out : ℕ → ℕ → Bytes × ℕ
encode_timestamp_out last timestamp =
    if timestamp == max_u64
    then (encode_var_int 0, max_u64)
    else (encode_var_int ((sub_u64 timestamp last + 1) % u64_mod), timestamp)

pub encode_bound : ℕ → Bound → Bytes × ℕ
encode_bound last b =
    let t = encode_timestamp_out last b.item.timestamp in
    (t.0 ++ encode_var_int b.id_len ++ take b.id_len b.item.id, t.1)

-- the loop over the bytes of both ids, up to the first that differ
pub shared_prefix_bytes : Bytes → Bytes → ℕ
shared_prefix_bytes [] prev = 0
shared_prefix_bytes (c ∷ curr) [] = 0
shared_prefix_bytes (c ∷ curr) (p ∷ prev) =
    if c == p then suc (shared_prefix_bytes curr prev) else 0

pub get_minimal_bound : Item → Item → Result Bound
get_minimal_bound prev curr =
    if curr.timestamp == prev.timestamp
    then make_bound curr.timestamp (take (shared_prefix_bytes curr.id prev.id + 1) curr.id)
    else ok (bound_at curr.timestamp)
