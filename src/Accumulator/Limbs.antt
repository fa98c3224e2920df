-- ===== src/Accumulator/Limbs.antt =====
-- Bytes and the numbers that they stand for.
use negentropy.Prelude.{
  ℕ, zero, suc, ◌+◌, ◌*◌, ◌/◌, ◌^◌, ◌≤◌, ◌<◌, ◌≡◌, refl, ap, Bytes, u64_mod, List, [], ◌∷◌, ◌++◌,
  take, drop, length, All, IsByte, IsU64, arith,
}
use negentropy.Accumulator.{le_value, le_bytes, add_limb}
use native.Mathlib.Nat.{pow-suc}

pub le_value-lt : (bs : Bytes) → All IsByte bs → le_value bs < 256 ^ length bs
unfolding le_value
le_value-lt [] h = omega arith
le_value-lt (b ∷ bs) h = omega (arith, le_value-lt bs h.1, pow-suc 256 (length bs))

pub length-le_bytes : (k n : ℕ) → length (le_bytes k n) ≡ k
unfolding le_bytes
length-le_bytes zero n = refl
length-le_bytes (suc k) n = ap suc (length-le_bytes k (n / 256))

pub le_bytes-IsByte : (k n : ℕ) → All IsByte (le_bytes k n)
unfolding le_bytes
le_bytes-IsByte zero n = tt
le_bytes-IsByte (suc k) n = (omega arith, le_bytes-IsByte k (n / 256))

pub le_value-le_bytes : (k n : ℕ) → n < 256 ^ k → le_value (le_bytes k n) ≡ n
unfolding le_value le_bytes
le_value-le_bytes zero n h = omega arith
le_value-le_bytes (suc k) n h =
    omega (arith, le_value-le_bytes k (n / 256) (omega (arith, pow-suc 256 k)))

pub le_value-injective :
    (as' bs : Bytes)
    → All IsByte as'
    → All IsByte bs
    → length as' ≡ length bs
    → le_value as' ≡ le_value bs
    → as' ≡ bs
unfolding le_value
le_value-injective [] [] h k l e = refl
le_value-injective [] (b ∷ bs) h k l e = absurd (omega arith)
le_value-injective (a ∷ as') [] h k l e = absurd (omega arith)
le_value-injective (a ∷ as') (b ∷ bs) h k l e =
    cc (first, le_value-injective as' bs h.1 k.1 (omega arith) (omega arith))
  where
    first : a ≡ b
    first = omega arith

pub le_value-append :
    (as' bs : Bytes) → le_value (as' ++ bs) ≡ le_value as' + 256 ^ length as' * le_value bs
unfolding le_value
le_value-append [] bs = omega arith
le_value-append (a ∷ as') bs =
    omega
      (arith, le_value-append as' bs, ap (λ (t : ℕ). t * le_value bs) (pow-suc 256 (length as')))

pub All-take {ℓ κ} :
    {A : Type ℓ} (P : A → Type κ) (k : ℕ) (xs : List A) → All P xs → All P (take k xs)
All-take P zero xs h = tt
All-take P (suc k) [] h = tt
All-take P (suc k) (x ∷ xs) h = (h.0, All-take P k xs h.1)

pub All-drop {ℓ κ} :
    {A : Type ℓ} (P : A → Type κ) (k : ℕ) (xs : List A) → All P xs → All P (drop k xs)
All-drop P zero xs h = h
All-drop P (suc k) [] h = tt
All-drop P (suc k) (x ∷ xs) h = All-drop P k xs h.1

-- One round adds two uint64 and a carry: the sum is the limb with the carry out above it.
pub add_limb_lem :
    (carry orig other : ℕ)
    → carry ≤ 1
    → IsU64 orig
    → IsU64 other
    → IsU64 (add_limb carry orig other).0
      × ((add_limb carry orig other).1 ≤ 1)
      × ((add_limb carry orig other).0 + u64_mod * (add_limb carry orig other).1
          ≡ carry + orig + other)
unfolding add_limb
add_limb_lem carry orig other hc ho hv = ground arith
