-- ===== src/Accumulator/Value.antt =====
-- The buffer operations are arithmetic modulo 2 ^ 256 on what the buffers stand for.
use negentropy.Prelude.{
  ℕ, zero, suc, ◌+◌, ◌-◌, ◌*◌, ◌/◌, ◌%◌, ◌^◌, ◌≤◌, ◌<◌, ◌≡◌, refl, ap, ◌∙◌, sym, Bytes, u64_mod, [],
  ◌∷◌, map, take, drop, length, length-append, length-drop, length-take, length-map,
  take-append-drop, All, All-append, IsByte, IsU64, arith,
}
use negentropy.Accumulator.{
  le_value, le_bytes, add_limb, add_limbs, add, negate, sub, complement, one_accum, zero_accum,
}
use negentropy.Accumulator.Limbs.{
  le_value-lt, length-le_bytes, le_bytes-IsByte, le_value-le_bytes, le_value-injective,
  le_value-append, All-take, All-drop, add_limb_lem,
}
use native.Mathlib.Nat.{pow-suc, add-mul-mod_self_left, mod-eq_of_lt, mod-lt, div-add-mod}

abbrev pub accum_mod : ℕ
accum_mod = 2 ^ 256

-- 32 bytes
pub record IsBuffer (buf : Bytes) : Type 0 where
  pub full : length buf ≡ 32
  pub bytes : All IsByte buf

length-add_limbs : (i carry : ℕ) (a b : Bytes) → length (add_limbs i carry a b) ≡ 8 * i
unfolding add_limbs
length-add_limbs zero carry a b = omega arith
length-add_limbs (suc i) carry a b =
    let r = add_limb carry (le_value (take 8 a)) (le_value (take 8 b)) in
    rw length-append
      (omega (arith, length-le_bytes 8 r.0, length-add_limbs i r.1 (drop 8 a) (drop 8 b)))

add_limbs-IsByte : (i carry : ℕ) (a b : Bytes) → All IsByte (add_limbs i carry a b)
unfolding add_limbs
add_limbs-IsByte zero carry a b = tt
add_limbs-IsByte (suc i) carry a b =
    let r = add_limb carry (le_value (take 8 a)) (le_value (take 8 b)) in
    All-append IsByte (le_bytes 8 r.0) _ (le_bytes-IsByte 8 r.0)
      (add_limbs-IsByte i r.1 (drop 8 a) (drop 8 b))

pub add-IsBuffer : (a b : Bytes) → IsBuffer (add a b)
unfolding add
add-IsBuffer a b = record { full = length-add_limbs 4 0 a b; bytes = add_limbs-IsByte 4 0 a b }

-- the first limb and the limbs above it
split_limb :
    (i : ℕ) (a : Bytes)
    → length a ≡ 8 * suc i
    → All IsByte a
    → IsU64 (le_value (take 8 a))
      × (le_value a ≡ le_value (take 8 a) + u64_mod * le_value (drop 8 a))
      × (length (drop 8 a) ≡ 8 * i)
      × All IsByte (drop 8 a)
split_limb i a l h = (
  rw eight at (le_value-lt (take 8 a) (All-take IsByte 8 a h)),
  ap le_value (sym (take-append-drop 8 a)) ∙ rw eight at (le_value-append (take 8 a) (drop 8 a)),
  omega (arith, length-drop 8 a),
  All-drop IsByte 8 a h,
)
  where
    eight : length (take 8 a) ≡ 8
    eight = omega (arith, length-take 8 a)

-- Reducing above the lowest limb is reducing the whole.
mod_limb :
    (r x m : ℕ) → r < u64_mod → 0 < m → (r + u64_mod * x) % (m * u64_mod) ≡ r + u64_mod * (x % m)
mod_limb r x m h pos =
    ap (λ (t : ℕ). t % (m * u64_mod)) split
    ∙ add-mul-mod_self_left low (m * u64_mod) (x / m)
    ∙ mod-eq_of_lt (omega (arith, mod-lt x pos))
  where
    low : ℕ
    low = r + u64_mod * (x % m)

    split : r + u64_mod * x ≡ low + m * u64_mod * (x / m)
    split = omega (arith, div-add-mod x m)

pow_pos : (i : ℕ) → 0 < u64_mod ^ i
pow_pos zero = omega arith
pow_pos (suc i) = omega (arith, pow-suc u64_mod i, pow_pos i)

add_limbs-value :
    (i carry : ℕ) (a b : Bytes)
    → carry ≤ 1
    → length a ≡ 8 * i
    → length b ≡ 8 * i
    → All IsByte a
    → All IsByte b
    → le_value (add_limbs i carry a b) ≡ (carry + le_value a + le_value b) % u64_mod ^ i
unfolding add_limbs
add_limbs-value zero carry a b hc la lb ha hb = unfold le_value in omega arith
add_limbs-value (suc i) carry a b hc la lb ha hb =
    let (fa, va, ra, ba) = split_limb i a la ha in
    let (fb, vb, rb, bb) = split_limb i b lb hb in
    let r = add_limb carry (le_value (take 8 a)) (le_value (take 8 b)) in
    let (fits, carry', sum) = add_limb_lem carry _ _ hc fa fb in
    le_value-append (le_bytes 8 r.0) _
    ∙ rw
        (
          length-le_bytes 8 r.0,
          le_value-le_bytes 8 r.0 fits,
          add_limbs-value i r.1 (drop 8 a) (drop 8 b) carry' ra rb ba bb,
          pow-suc u64_mod i,
        )
        (sym (mod_limb r.0 (r.1 + le_value (drop 8 a) + le_value (drop 8 b)) _ fits (pow_pos i))
          ∙ ap (λ (t : ℕ). t % (u64_mod ^ i * u64_mod)) (omega (arith, sum, va, vb)))

-- `add` is addition modulo 2 ^ 256: its carries from limb to limb are right.
pub add-value :
    (a b : Bytes)
    → IsBuffer a
    → IsBuffer b
    → le_value (add a b) ≡ (le_value a + le_value b) % accum_mod
unfolding add
add-value a b ha hb =
    omega (arith, add_limbs-value 4 0 a b (omega arith) ha.full hb.full ha.bytes hb.bytes)

complement_value :
    (a : Bytes) → All IsByte a → le_value (map complement a) + le_value a + 1 ≡ 256 ^ length a
unfolding le_value
complement_value [] h = omega arith
complement_value (x ∷ a) h = omega (arith, complement_value a h.1, pow-suc 256 (length a))

complement-IsByte : (a : Bytes) → All IsByte (map complement a)
complement-IsByte [] = tt
complement-IsByte (x ∷ a) = (omega arith, complement-IsByte a)

complement-IsBuffer : (a : Bytes) → IsBuffer a → IsBuffer (map complement a)
complement-IsBuffer a h = record {
  full = length-map a complement ∙ h.full;
  bytes = complement-IsByte a;
}

one-IsBuffer : IsBuffer one_accum
one-IsBuffer = omega arith

pub zero-IsBuffer : IsBuffer zero_accum
zero-IsBuffer = omega arith

pub value-lt : (a : Bytes) → IsBuffer a → le_value a < accum_mod
value-lt a h = rw h.full at (le_value-lt a h.bytes)

-- `negate` is the negative modulo 2 ^ 256.
pub negate-value :
    (a : Bytes) → IsBuffer a → le_value (negate a) ≡ (accum_mod - le_value a) % accum_mod
unfolding negate
negate-value a h =
    add-value _ _ (complement-IsBuffer a h) one-IsBuffer
    ∙ ap (λ (t : ℕ). t % accum_mod)
        (omega (arith, rw h.full at (complement_value a h.bytes), one_value))
  where
    one_value : le_value one_accum ≡ 1
    one_value = unfold le_value in refl

pub negate-IsBuffer : (a : Bytes) → IsBuffer (negate a)
unfolding negate
negate-IsBuffer a = add-IsBuffer (map complement a) one_accum

pub sub-IsBuffer : (a b : Bytes) → IsBuffer (sub a b)
unfolding sub
sub-IsBuffer a b = add-IsBuffer a (negate b)

-- Two buffers are one if they stand for the same number.
pub buffer_eq : (a b : Bytes) → IsBuffer a → IsBuffer b → le_value a ≡ le_value b → a ≡ b
buffer_eq a b ha hb e = le_value-injective a b ha.bytes hb.bytes (ha.full ∙ sym hb.full) e

pub add_comm : (a b : Bytes) → IsBuffer a → IsBuffer b → add a b ≡ add b a
add_comm a b ha hb =
    buffer_eq _ _ (add-IsBuffer a b) (add-IsBuffer b a)
      (omega (arith, add-value a b ha hb, add-value b a hb ha))

pub add_assoc :
    (a b c : Bytes) → IsBuffer a → IsBuffer b → IsBuffer c → add (add a b) c ≡ add a (add b c)
add_assoc a b c ha hb hc = buffer_eq _ _ (add-IsBuffer (add a b) c) (add-IsBuffer a (add b c)) (
    omega (
      arith,
      add-value (add a b) c (add-IsBuffer a b) hc,
      add-value a b ha hb,
      add-value a (add b c) ha (add-IsBuffer b c),
      add-value b c hb hc,
    ))

pub add-zero_accum : (a : Bytes) → IsBuffer a → add a zero_accum ≡ a
add-zero_accum a ha =
    buffer_eq _ _ (add-IsBuffer a zero_accum) ha
      (omega (arith, add-value a zero_accum ha zero-IsBuffer, zero_value, value-lt a ha))
  where
    zero_value : le_value zero_accum ≡ 0
    zero_value = unfold le_value in refl

-- Adding the negative of `b` undoes adding `b`.
pub add-negate_cancel : (a b : Bytes) → IsBuffer a → IsBuffer b → add (add a b) (negate b) ≡ a
add-negate_cancel a b ha hb = buffer_eq _ _ (add-IsBuffer (add a b) (negate b)) ha (
    omega (
      arith,
      add-value (add a b) (negate b) (add-IsBuffer a b) (negate-IsBuffer b),
      add-value a b ha hb,
      negate-value b hb,
      value-lt a ha,
      value-lt b hb,
    ))

-- `sub` undoes `add`, and `add` undoes `sub`.
pub sub-add :
    (a b : Bytes) → IsBuffer a → IsBuffer b → (sub (add a b) b ≡ a) × (add (sub a b) b ≡ a)
unfolding sub
sub-add a b ha hb = (
  add-negate_cancel a b ha hb,
  buffer_eq _ _ (add-IsBuffer (add a (negate b)) b) ha (
      omega (
        arith,
        add-value (add a (negate b)) b (add-IsBuffer a (negate b)) hb,
        add-value a (negate b) ha (negate-IsBuffer b),
        negate-value b hb,
        value-lt a ha,
        value-lt b hb,
      )),
)
