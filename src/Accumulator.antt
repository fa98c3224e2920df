-- ===== src/Accumulator.antt =====
-- cpp/negentropy/types.h, `Accumulator` and `Fingerprint`. The buffer is 32 bytes, which `add` reads
-- as four little-endian uint64. (On a big-endian host the code swaps bytes to the same effect.)
use negentropy.Prelude.{
  ℕ, zero, suc, ◌+◌, ◌-◌, ◌*◌, ◌/◌, ◌%◌, Bytes, u64_mod, List, [], ◌∷◌, ◌++◌, map, take, drop, ltb,
  if◌then◌else◌, replicate, length, length-take, arith, ◌≡◌,
}
use negentropy.Encoding.{encode_var_int}
use negentropy.Types.{Item, zero_id, fingerprint_size}
pub mod Limbs
pub mod Value
pub mod Sums

-- the number that bytes stand for, the lowest byte first
unfoldable pub le_value : Bytes → ℕ
le_value [] = 0
le_value (b ∷ bs) = b + 256 * le_value bs

-- `k` bytes of a number, the lowest first
unfoldable pub le_bytes : ℕ → ℕ → Bytes
le_bytes zero n = []
le_bytes (suc k) n = n % 256 ∷ le_bytes k (n / 256)

-- `setToZero`
abbrev pub zero_accum : Bytes
zero_accum = replicate 32 0

-- `next += currCarry; if (next < orig) nextCarry = 1; next += otherV; if (next < otherV) nextCarry = 1;`
-- The result is `next` and `nextCarry`.
unfoldable pub add_limb : ℕ → ℕ → ℕ → ℕ × ℕ
add_limb carry orig other =
    let next = (orig + carry) % u64_mod in
    let next_carry = if ltb next orig then 1 else 0 in
    let next' = (next + other) % u64_mod in (next', (if ltb next' other then 1 else next_carry))

-- the rounds of the loop that are left, with the bytes that they read and write
unfoldable pub add_limbs : ℕ → ℕ → Bytes → Bytes → Bytes
add_limbs zero carry buf other = []
add_limbs (suc i) carry buf other =
    let r = add_limb carry (le_value (take 8 buf)) (le_value (take 8 other)) in
    le_bytes 8 r.0 ++ add_limbs i r.1 (drop 8 buf) (drop 8 other)

-- `add(const uint8_t *otherBuf)`; an item is added by its id
unfoldable pub add : Bytes → Bytes → Bytes
add buf other = add_limbs 4 0 buf other

-- `~` on one byte
abbrev pub complement : ℕ → ℕ
complement b = 255 - b

abbrev pub one_accum : Bytes
one_accum = 1 ∷ replicate 31 0

pub negate : Bytes → Bytes
negate buf = add (map complement buf) one_accum

-- `sub(const uint8_t *otherBuf)`
pub sub : Bytes → Bytes → Bytes
sub buf other = add buf (negate other)

-- The items of a range added up, as `fingerprint` and the tree's nodes do.
unfoldable pub accum_from : Bytes → List Item → Bytes
accum_from acc [] = acc
accum_from acc (it ∷ its) = accum_from (add acc it.id) its

-- OpenSSL's SHA256 is a parameter.
module _ (sha256 : Bytes → Bytes) where
  pub get_fingerprint : Bytes → ℕ → Bytes
  get_fingerprint buf n = take fingerprint_size (sha256 (buf ++ encode_var_int n))

  pub length-get_fingerprint :
      ((m : Bytes) → length (sha256 m) ≡ 32)
      → (buf : Bytes) (n : ℕ) → length (get_fingerprint buf n) ≡ 16
  unfolding get_fingerprint
  length-get_fingerprint h buf n =
      omega (arith, length-take 16 (sha256 (buf ++ encode_var_int n)), h (buf ++ encode_var_int n))
