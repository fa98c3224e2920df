-- ===== src/Encoding.antt =====
-- cpp/negentropy/encoding.h: bytes and varints. The `std::string_view &encoded` that the code reads
-- from and advances is an argument and a part of the result. Where `char` is signed, a byte above
-- 127 widens with its upper bits set; the code reads its low eight bits only, by two masks.
use negentropy.Prelude.{
  ℕ, ◌+◌, ◌*◌, ◌/◌, ◌%◌, ◌<◌, bit_and, bit_or, Bytes, u64_mod, lt_wf, dec_lt, dite, List, [], ◌∷◌,
  ◌++◌, reverse, length, take, drop, ltb, ◌==◌, if◌then◌else◌, arith,
}
use negentropy.Prelude.Results.{Result, ok, err, Error}
use mathlib.Core.WellFounded.{Acc}
pub mod Varint
pub mod Parse

unfoldable pub get_byte : Bytes → Result (ℕ × Bytes)
get_byte [] = err Error.parse_ends
get_byte (b ∷ rest) = ok (b, rest)

unfoldable pub get_bytes : Bytes → ℕ → Result (Bytes × Bytes)
get_bytes encoded n =
    if ltb (length encoded) n then err Error.parse_ends else ok (take n encoded, drop n encoded)

-- `res = (res << 7) | (byte & 0b0111'1111)`, in 64 bits
unfoldable pub push_septet : ℕ → ℕ → ℕ
push_septet res byte = bit_or (res * 128 % u64_mod) (bit_and byte 0x7f)

-- the loop, from `res` on
unfoldable pub decode_loop : ℕ → Bytes → Result (ℕ × Bytes)
decode_loop res [] = err Error.premature_varint
decode_loop res (byte ∷ rest) =
    let more = decode_loop (push_septet res byte) rest in
    if bit_and byte 0x80 == 0 then ok (push_septet res byte, rest) else more

unfoldable pub decode_var_int : Bytes → Result (ℕ × Bytes)
decode_var_int encoded = decode_loop 0 encoded

-- `while (n) { o.push_back(n & 0x7F); n >>= 7; }`: each round leaves a smaller `n`
unfoldable pub push_septets : (n : ℕ) → Acc ◌<◌ n → Bytes → Bytes
push_septets n (Acc.intro _ smaller) o =
    dite (dec_lt 0 n)
      (λ h. push_septets (n / 128) (smaller (n / 128) (omega arith)) (o ++ (bit_and n 0x7f ∷ [])))
      (λ _. o)

-- `for (i = 0; i < o.size() - 1; i++) o[i] |= 0x80;`
unfoldable pub mark_all_but_last : Bytes → Bytes
mark_all_but_last [] = []
mark_all_but_last (b ∷ []) = b ∷ []
mark_all_but_last (b ∷ c ∷ rest) = bit_or b 0x80 ∷ mark_all_but_last (c ∷ rest)

unfoldable pub encode_var_int : ℕ → Bytes
unfolding lt_wf dec_lt
encode_var_int n =
    if n == 0 then 0 ∷ [] else mark_all_but_last (reverse (push_septets n (lt_wf.apply n) []))
