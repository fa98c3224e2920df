-- ===== src/Encoding/Varint.antt =====
-- `decode_var_int` reads back what `encode_var_int` writes, and what follows it is left.
use negentropy.Prelude.{
  ℕ, zero, suc, ◌+◌, ◌*◌, ◌/◌, ◌%◌, ◌<◌, ◌≤◌, ◌^◌, bit_or, Bytes, u64_mod, lt_wf, List, [], ◌∷◌,
  ◌++◌, reverse, length, length-append, ◌==◌, if◌then◌else◌, false, arith, ◌≡◌, ◌∙◌, ap, refl, All,
  All-append, IsByte, ◌⊎◌, IsU64, append_assoc, append-nil, lt-or-le, inl, inr,
}
use negentropy.Prelude.Bits.{bit_and_septet, bit_and_top, bit_or_top, bit_or_septet}
use negentropy.Prelude.Results.{ok}
use negentropy.Encoding.{
  push_septet, decode_loop, decode_var_int, push_septets, mark_all_but_last, encode_var_int,
}
use mathlib.Core.WellFounded.{Acc}
use mathlib.Core.List.{reverse-cons}
use native.Mathlib.Nat.{pow-suc}

lt→positive : (n : ℕ) → 0 < n → (n == 0) ≡ false
lt→positive n h = ground arith

le-zero : (n : ℕ) → n ≤ 0 → n ≡ 0
le-zero n h = omega arith

abbrev IsSeptet : ℕ → Type 0
IsSeptet d = d < 128

-- The digits of `n` to the base 128, lowest first, for `n` below 128 ^ k.
septets : ℕ → ℕ → List ℕ
septets zero n = []
septets (suc k) n = let rest = septets k (n / 128) in if n == 0 then [] else (n % 128 ∷ rest)

push_septets-septets :
    (k n : ℕ) (w : Acc ◌<◌ n) (o : Bytes) → n < 128 ^ k → push_septets n w o ≡ o ++ septets k n
unfolding push_septets septets
push_septets-septets zero n (Acc.intro _ smaller) o h = ground (arith, append-nil o)
push_septets-septets (suc k) n (Acc.intro _ smaller) o h =
    let digit : Bytes = n % 128 ∷ [] in
    grind (
      arith,
      bit_and_septet n,
      λ (w : Acc ◌<◌ (n / 128)).
          push_septets-septets k (n / 128) w (o ++ digit) (omega (arith, pow-suc 128 k)),
      append_assoc o digit (septets k (n / 128)),
      append-nil o,
    )

-- The number that decoding makes of the digits, from `res` on.
value_from : ℕ → List ℕ → ℕ
value_from res [] = res
value_from res (d ∷ ds) = value_from (res * 128 % u64_mod + d) ds

pub push_septet_lem : (res b : ℕ) → push_septet res b ≡ res * 128 % u64_mod + b % 128
unfolding push_septet
push_septet_lem res b =
    ground (arith, bit_and_septet b, bit_or_septet (res * 128 % u64_mod / 128) (b % 128))

decode_loop_last :
    (res d : ℕ) (rest : Bytes)
    → d < 128
    → decode_loop res (d ∷ rest) ≡ ok (res * 128 % u64_mod + d, rest)
unfolding decode_loop
decode_loop_last res d rest h = ground (arith, push_septet_lem res d, bit_and_top d)

decode_loop_more :
    (res d : ℕ) (rest : Bytes)
    → d < 128
    → decode_loop res (bit_or d 0x80 ∷ rest) ≡ decode_loop (res * 128 % u64_mod + d) rest
unfolding decode_loop
decode_loop_more res d rest h =
    ground (arith, bit_or_top d h, push_septet_lem res (d + 128), bit_and_top (d + 128))

decode_loop-mark :
    (res d : ℕ) (ds rest : Bytes)
    → All IsSeptet (d ∷ ds)
    → decode_loop res (mark_all_but_last (d ∷ ds) ++ rest) ≡ ok (value_from res (d ∷ ds), rest)
unfolding mark_all_but_last value_from
decode_loop-mark res d [] rest h = decode_loop_last res d rest h.0
decode_loop-mark res d (c ∷ ds) rest h =
    decode_loop_more res d _ h.0 ∙ decode_loop-mark (res * 128 % u64_mod + d) c ds rest h.1

value_from-append :
    (res : ℕ) (ds es : List ℕ) → value_from res (ds ++ es) ≡ value_from (value_from res ds) es
unfolding value_from
value_from-append res [] es = refl
value_from-append res (d ∷ ds) es = value_from-append (res * 128 % u64_mod + d) ds es

value_from-septets : (k n : ℕ) → IsU64 n → n < 128 ^ k → value_from 0 (reverse (septets k n)) ≡ n
unfolding septets value_from
value_from-septets zero n u h = omega arith
value_from-septets (suc k) n u h = elim (lt-or-le 0 n) [
  | inl more ↦
      rw
        (
          lt→positive n more,
          reverse-cons (n % 128) (septets k (n / 128)),
          value_from-append 0 (reverse (septets k (n / 128))) (n % 128 ∷ []),
          value_from-septets k (n / 128) (omega arith) (omega (arith, pow-suc 128 k)),
        )
        (omega arith)
  | inr done ↦ ground arith
]

septets-IsSeptet : (k n : ℕ) → All IsSeptet (septets k n)
unfolding septets
septets-IsSeptet zero n = tt
septets-IsSeptet (suc k) n = ground (arith, septets-IsSeptet k (n / 128))

All-reverse : (ds : List ℕ) → All IsSeptet ds → All IsSeptet (reverse ds)
All-reverse [] h = tt
All-reverse (d ∷ ds) h =
    rw (reverse-cons d ds)
      (All-append IsSeptet (reverse ds) (d ∷ []) (All-reverse ds h.1) (h.0, tt))

length-reverse : (ds : List ℕ) → length (reverse ds) ≡ length ds
length-reverse [] = refl
length-reverse (d ∷ ds) =
    rw reverse-cons (omega (arith, length-append (reverse ds) (d ∷ []), length-reverse ds))

length-mark : (ds : Bytes) → length (mark_all_but_last ds) ≡ length ds
unfolding mark_all_but_last
length-mark [] = refl
length-mark (d ∷ []) = refl
length-mark (d ∷ e ∷ ds) = ap suc (length-mark (e ∷ ds))

mark-IsByte : (ds : Bytes) → All IsSeptet ds → All IsByte (mark_all_but_last ds)
unfolding mark_all_but_last
mark-IsByte [] h = tt
mark-IsByte (d ∷ []) h = omega arith
mark-IsByte (d ∷ e ∷ ds) h = (omega (arith, bit_or_top d h.0), mark-IsByte (e ∷ ds) h.1)

septets_positive : (k n : ℕ) → 0 < n → septets (suc k) n ≡ n % 128 ∷ septets k (n / 128)
unfolding septets
septets_positive k n h = rw (lt→positive n h)

septets_zero : (k : ℕ) → septets k 0 ≡ []
unfolding septets
septets_zero zero = refl
septets_zero (suc k) = refl

-- There are as few digits as there can be.
length-septets :
    (k n : ℕ)
    → 0 < n
    → n < 128 ^ k
    → (1 ≤ length (septets k n))
      × (length (septets k n) ≤ k)
      × (n < 128 ^ length (septets k n))
      × (128 ^ length (septets k n) ≤ 128 * n)
length-septets zero n h b = absurd (omega arith)
length-septets (suc k) n h b = rw (septets_positive k n h) (elim (lt-or-le 0 (n / 128)) [
  | inl more ↦
      let rest = length-septets k (n / 128) more (omega (arith, pow-suc 128 k)) in
      omega (arith, rest, pow-suc 128 (length (septets k (n / 128))))
  | inr done ↦ rw (le-zero (n / 128) done, septets_zero k) (omega arith)
])

-- What `encode_var_int` writes for a positive number: its digits, highest first, marked.
encode_digits :
    (n : ℕ) → IsU64 n → 0 < n → encode_var_int n ≡ mark_all_but_last (reverse (septets 10 n))
unfolding encode_var_int
encode_digits n u h =
    rw (lt→positive n h, push_septets-septets 10 n (lt_wf.apply n) [] (omega arith))

-- `encode_var_int` writes 1 to 10 bytes.
pub length-encode_var_int :
    (n : ℕ) → IsU64 n → (1 ≤ length (encode_var_int n)) × (length (encode_var_int n) ≤ 10)
length-encode_var_int n u = elim (lt-or-le 0 n) [
  | inl h ↦
      rw (encode_digits n u h, length-mark, length-reverse)
        (omega (arith, length-septets 10 n h (omega arith)))
  | inr z ↦ rw (le-zero n z) (unfold encode_var_int in omega arith)
]

-- The encoding of a uint64 is a byte string that has as few base-128 digits as possible: for its
-- length k, the number is below 128 ^ k, and it is 0 or at least 128 ^ (k - 1).
pub encode_var_int_minimal :
    (n : ℕ)
    → IsU64 n
    → All IsByte (encode_var_int n)
      × (n < 128 ^ length (encode_var_int n))
      × ((n ≡ 0) ⊎ (128 ^ length (encode_var_int n) ≤ 128 * n))
encode_var_int_minimal n u = elim (lt-or-le 0 n) [
  | inl h ↦
      let (lo, hi, below, above) = length-septets 10 n h (omega arith) in
      rw (encode_digits n u h, length-mark, length-reverse)
        (mark-IsByte _ (All-reverse _ (septets-IsSeptet 10 n)), below, inr above)
  | inr z ↦ rw (le-zero n z) (unfold encode_var_int in (omega arith, omega arith, inl refl))
]

decode-mark_nonempty :
    (ds rest : Bytes)
    → 1 ≤ length ds
    → All IsSeptet ds
    → decode_loop 0 (mark_all_but_last ds ++ rest) ≡ ok (value_from 0 ds, rest)
decode-mark_nonempty [] rest h a = elim h [ ]
decode-mark_nonempty (d ∷ ds) rest h a = decode_loop-mark 0 d ds rest a

-- `decode_var_int` reads back the uint64 that `encode_var_int` wrote, and leaves what follows it.
pub decode_var_int-encode_var_int :
    (n : ℕ) (rest : Bytes) → IsU64 n → decode_var_int (encode_var_int n ++ rest) ≡ ok (n, rest)
unfolding decode_var_int
decode_var_int-encode_var_int n rest u = elim (lt-or-le 0 n) [
  | inl h ↦
      let digits : Bytes = reverse (septets 10 n) in
      rw (encode_digits n u h) (
        decode-mark_nonempty digits rest (rw length-reverse (length-septets 10 n h (omega arith)).0)
          (All-reverse _ (septets-IsSeptet 10 n))
        ∙ ap (λ (v : ℕ). ok (v, rest)) (value_from-septets 10 n u (omega arith)))
  | inr z ↦ rw (le-zero n z) (unfold encode_var_int decode_loop push_septet in refl)
]

-- A number below 128 takes one byte.
pub length-encode_var_int_small : (n : ℕ) → n < 128 → length (encode_var_int n) ≡ 1
length-encode_var_int_small n h = elim (lt-or-le 0 n) [
  | inl pos ↦ rw (
    encode_digits n (omega arith) pos,
    length-mark,
    length-reverse,
    septets_positive 9 n pos,
    le-zero (n / 128) (omega arith),
    septets_zero 9,
  )
  | inr z ↦ rw (le-zero n z) (unfold encode_var_int in refl)
]
