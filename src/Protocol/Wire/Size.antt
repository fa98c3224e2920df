-- ===== src/Protocol/Wire/Size.antt =====
-- How long a bound is on the wire.
use negentropy.Prelude.{
  ℕ, ◌+◌, ◌%◌, ◌≤◌, ◌<◌, ◌≡◌, refl, ap, Bytes, u64_mod, sub_u64, ◌++◌, take, length, length-append,
  length-take, arith, IsU64,
}
use negentropy.Prelude.Results.{Outcome, Outcome-bind, Result, ok, err}
use negentropy.Encoding.{encode_var_int, get_bytes, decode_var_int}
use negentropy.Encoding.Varint.{length-encode_var_int, length-encode_var_int_small}
use negentropy.Encoding.Parse.{
  decode_var_int_takes, decode_var_int_error, get_bytes_takes, get_bytes_error,
}
use negentropy.Types.{Bound, make_bound}
use negentropy.Types.Bounds.{make_bound-Outcome}
use negentropy.Protocol.Wire.{encode_timestamp_out, encode_bound, decode_timestamp_in, decode_bound}

length-encode_timestamp_out : (last t : ℕ) → length (encode_timestamp_out last t).0 ≤ 10
unfolding encode_timestamp_out
length-encode_timestamp_out last t =
    ground (arith, length-encode_var_int 0, length-encode_var_int ((sub_u64 t last + 1) % u64_mod))

-- A bound takes 43 bytes at most, whatever the timestamps.
pub length-encode_bound :
    (last : ℕ) (b : Bound) → b.id_len ≤ 32 → length (encode_bound last b).0 ≤ 43
unfolding encode_bound
length-encode_bound last b h =
    let t = encode_timestamp_out last b.item.timestamp in
    omega (
      arith,
      length-append (t.0 ++ encode_var_int b.id_len) (take b.id_len b.item.id),
      length-append t.0 (encode_var_int b.id_len),
      length-encode_timestamp_out last b.item.timestamp,
      length-encode_var_int_small b.id_len,
      length-take b.id_len b.item.id,
    )

-- Outcomes of the readers: what they take, or an exception that the message causes.
pub decode_var_int-Outcome :
    (q : Bytes) → Outcome (λ r. IsU64 r.0 × (length r.1 < length q)) (decode_var_int q)
decode_var_int-Outcome q = go (decode_var_int q) refl
  where
    go :
        (r : Result (ℕ × Bytes))
        → decode_var_int q ≡ r
        → Outcome (λ r. IsU64 r.0 × (length r.1 < length q)) r
    go (ok (v, rest)) e = decode_var_int_takes q e
    go (err x) e = rw (decode_var_int_error q e) tt

pub get_bytes-Outcome :
    (q : Bytes) (n : ℕ)
    → Outcome (λ r. (length r.0 ≡ n) × (length r.1 + n ≡ length q)) (get_bytes q n)
get_bytes-Outcome q n = go (get_bytes q n) refl
  where
    go :
        (r : Result (Bytes × Bytes))
        → get_bytes q n ≡ r
        → Outcome (λ r. (length r.0 ≡ n) × (length r.1 + n ≡ length q)) r
    go (ok (front, rest)) e =
        let (split, full) = get_bytes_takes q n e in
        (full, omega (arith, ap length split, length-append front rest))
    go (err x) e = rw (get_bytes_error q n e) tt

decode_timestamp_in-Outcome :
    (last : ℕ) (q : Bytes) → Outcome (λ r. length r.1 < length q) (decode_timestamp_in last q)
unfolding decode_timestamp_in
decode_timestamp_in-Outcome last q =
    Outcome-bind _ _ (decode_var_int q) _ (decode_var_int-Outcome q) (λ r h. h.1)

pub decode_bound-Outcome :
    (last : ℕ) (q : Bytes)
    → Outcome (λ r. (r.0.id_len ≤ 32) × (length r.2 < length q)) (decode_bound last q)
unfolding decode_bound
decode_bound-Outcome last q =
    Outcome-bind _ _ (decode_timestamp_in last q) _ (decode_timestamp_in-Outcome last q) λ t ht.
      Outcome-bind _ _ (decode_var_int t.1) _ (decode_var_int-Outcome t.1) λ n hn.
        Outcome-bind _ _ (get_bytes n.1 n.0) _ (get_bytes-Outcome n.1 n.0) λ id hid.
          Outcome-bind _ _ (make_bound t.0 id.0) _ (make_bound-Outcome t.0 id.0)
            λ b hb. (hb, omega arith)
