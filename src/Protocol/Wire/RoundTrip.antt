-- ===== src/Protocol/Wire/RoundTrip.antt =====
-- What `encode_bound` writes, `decode_bound` reads.
use negentropy.Prelude.{
  ℕ, ◌+◌, ◌%◌, ◌≤◌, ◌≡◌, Bytes, u64_mod, max_u64, sub_u64, sub_u64_lem, IsU64, ◌++◌, append_assoc,
  take, arith, ◌⊎◌,
}
use negentropy.Prelude.Results.{ok}
use negentropy.Encoding.{encode_var_int}
use negentropy.Encoding.Varint.{decode_var_int-encode_var_int}
use negentropy.Encoding.Parse.{get_bytes-append}
use negentropy.Types.{Bound, IsBound}
use negentropy.Types.Bounds.{take-length, make_bound-take}
use negentropy.Protocol.Wire.{
  timestamp_after, decode_timestamp_in, decode_bound, encode_timestamp_out, encode_bound,
}

-- Whatever varint is read, the timestamp is a uint64 and never below the one before.
pub timestamp_after_bounds :
    (last v : ℕ)
    → IsU64 last
    → IsU64 v
    → (last ≤ timestamp_after last v) × IsU64 (timestamp_after last v)
unfolding timestamp_after
timestamp_after_bounds last v h k = ground arith

-- A timestamp can follow `last` in a message if it is not below it; infinity always can.
abbrev pub Follows : ℕ → ℕ → Type 0
Follows last timestamp = (last ≤ timestamp) ⊎ (timestamp ≡ max_u64)

pub encode_timestamp_out_next : (last t : ℕ) → (encode_timestamp_out last t).1 ≡ t
unfolding encode_timestamp_out
encode_timestamp_out_next last t = ground arith

pub decode_timestamp_in-encode_timestamp_out :
    (last t : ℕ) (rest : Bytes)
    → IsU64 last
    → IsU64 t
    → Follows last t
    → decode_timestamp_in last ((encode_timestamp_out last t).0 ++ rest) ≡ ok (t, rest)
unfolding decode_timestamp_in encode_timestamp_out timestamp_after
decode_timestamp_in-encode_timestamp_out last t rest hl ht f =
    let offset = (sub_u64 t last + 1) % u64_mod in
    ground (
      arith,
      decode_var_int-encode_var_int 0 rest,
      decode_var_int-encode_var_int offset rest,
      sub_u64_lem t last,
    )

-- `decode_bound` reads back the well-formed bound that `encode_bound` wrote after the same timestamp,
-- and leaves what follows it. The bound's timestamp is not below the one before, or is infinity.
pub decode_bound-encode_bound :
    (last : ℕ) (b : Bound) (rest : Bytes)
    → IsU64 last
    → IsBound b
    → Follows last b.item.timestamp
    → decode_bound last ((encode_bound last b).0 ++ rest) ≡ ok (b, b.item.timestamp, rest)
unfolding decode_bound encode_bound
decode_bound-encode_bound last b rest hl hb f =
    let t = encode_timestamp_out last b.item.timestamp in
    let id = take b.id_len b.item.id in
    simp append_assoc (
      rw (
        decode_timestamp_in-encode_timestamp_out last b.item.timestamp
            (encode_var_int b.id_len ++ (id ++ rest)) hl hb.item_valid.timestamp_fits f,
        decode_var_int-encode_var_int b.id_len (id ++ rest) (omega (arith, hb.len_fits)),
        get_bytes-append id rest b.id_len
            (take-length b.id_len b.item.id (omega (arith, hb.len_fits, hb.item_valid.id_full))),
        make_bound-take b hb,
      ))
