-- ===== src/Protocol/Wire/Prefix.antt =====
-- The bytes of an id up to the first that differs from another id, filled up with zeros.
use negentropy.Prelude.{
  ℕ, zero, suc, ◌+◌, ◌-◌, ◌<◌, ◌≡◌, refl, ap, sym, ◌∙◌, true, false, Bytes, [], ◌∷◌, ◌++◌, take,
  drop, length, replicate, ◌==◌, arith, All, Bool-cases, inl, inr,
}
use mathlib.Core.Path.{subst}
use negentropy.Types.{bytes_lt}
use negentropy.Protocol.Wire.{shared_prefix_bytes}

-- Nothing of the same length is below zeros.
pub not_below_zeros : (xs : Bytes) → bytes_lt xs (replicate (length xs) 0) ≡ false
unfolding bytes_lt
not_below_zeros [] = refl
not_below_zeros (x ∷ xs) = ground (arith, not_below_zeros xs)

abbrev pub IsZero : ℕ → Type 0
IsZero b = b ≡ 0

not_below_IsZero : (xs zs : Bytes) → length xs ≡ length zs → All IsZero zs → bytes_lt xs zs ≡ false
unfolding bytes_lt
not_below_IsZero [] [] e h = refl
not_below_IsZero [] (z ∷ zs) e h = absurd (omega arith)
not_below_IsZero (x ∷ xs) [] e h = refl
not_below_IsZero (x ∷ xs) (z ∷ zs) e h = ground (arith, not_below_IsZero xs zs)

-- the shortest prefix of `curr` that tells it from `prev`
abbrev pub cut : Bytes → Bytes → Bytes
cut curr prev = take (shared_prefix_bytes curr prev + 1) curr

abbrev pub pad : ℕ → Bytes → Bytes
pad n xs = xs ++ replicate (n - length xs) 0

cut_equal :
    (c p : ℕ) (curr prev : Bytes) → (c == p) ≡ true → cut (c ∷ curr) (p ∷ prev) ≡ c ∷ cut curr prev
unfolding shared_prefix_bytes
cut_equal c p curr prev e =
    rw e (ap (λ (k : ℕ). take k (c ∷ curr)) (one_more (shared_prefix_bytes curr prev)))
  where
    one_more : (k : ℕ) → suc k + 1 ≡ suc (k + 1)
    one_more k = omega arith

cut_differ : (c p : ℕ) (curr prev : Bytes) → (c == p) ≡ false → cut (c ∷ curr) (p ∷ prev) ≡ c ∷ []
unfolding shared_prefix_bytes
cut_differ c p curr prev e = rw e

pad-cons : (n x : ℕ) (xs : Bytes) → pad (suc n) (x ∷ xs) ≡ x ∷ pad n xs
pad-cons n x xs = ap (λ (k : ℕ). x ∷ (xs ++ replicate k 0)) (same n (length xs))
  where
    same : (a b : ℕ) → suc a - suc b ≡ a - b
    same a b = omega arith

pad-nil : (n : ℕ) → pad n [] ≡ replicate n 0
pad-nil n = ap (λ (k : ℕ). replicate k 0) (same n)
  where
    same : (a : ℕ) → a - 0 ≡ a
    same a = omega arith

-- a value above `prev` and not above `curr`
abbrev pub Between : Bytes → Bytes → Bytes → Type 0
Between prev curr xs = (bytes_lt prev xs ≡ true) × (bytes_lt curr xs ≡ false)

Between-cons :
    (c p : ℕ) (prev curr xs : Bytes)
    → (c == p) ≡ true
    → Between prev curr xs
    → Between (p ∷ prev) (c ∷ curr) (c ∷ xs)
unfolding bytes_lt
Between-cons c p prev curr xs e h = ground arith

Between-zeros :
    (c p : ℕ) (prev curr : Bytes)
    → (c == p) ≡ false
    → bytes_lt (p ∷ prev) (c ∷ curr) ≡ true
    → Between (p ∷ prev) (c ∷ curr) (c ∷ replicate (length curr) 0)
unfolding bytes_lt
Between-zeros c p prev curr e h = ground (arith, not_below_zeros curr)

bytes_lt_tail :
    (c p : ℕ) (prev curr : Bytes)
    → (c == p) ≡ true
    → bytes_lt (p ∷ prev) (c ∷ curr) ≡ true
    → bytes_lt prev curr ≡ true
unfolding bytes_lt
bytes_lt_tail c p prev curr e h = ground arith

pub cut-Between :
    (prev curr : Bytes)
    → length prev ≡ length curr
    → bytes_lt prev curr ≡ true
    → Between prev curr (pad (length curr) (cut curr prev))
cut-Between [] [] e h = unfold bytes_lt in cc
cut-Between [] (c ∷ curr) e h = absurd (omega arith)
cut-Between (p ∷ prev) [] e h = absurd (omega arith)
cut-Between (p ∷ prev) (c ∷ curr) e h = elim (Bool-cases (c == p)) [
  | inl same ↦
      subst (Between (p ∷ prev) (c ∷ curr))
        (sym (
          ap (pad (suc (length curr))) (cut_equal c p curr prev same)
          ∙ pad-cons (length curr) c (cut curr prev)))
        (Between-cons c p prev curr _ same
          (cut-Between prev curr (omega arith) (bytes_lt_tail c p prev curr same h)))
  | inr other ↦
      subst (Between (p ∷ prev) (c ∷ curr))
        (sym (
          ap (pad (suc (length curr))) (cut_differ c p curr prev other)
          ∙ pad-cons (length curr) c []
          ∙ ap (◌∷◌ c) (pad-nil (length curr))))
        (Between-zeros c p prev curr other h)
]

-- A value between the two ids that is zero from byte `j` on differs from `prev` before byte `j`.
pub shared_prefix_shortest :
    (j : ℕ) (prev curr xs : Bytes)
    → length prev ≡ length curr
    → length prev ≡ length xs
    → All IsZero (drop j xs)
    → bytes_lt prev xs ≡ true
    → bytes_lt curr xs ≡ false
    → shared_prefix_bytes curr prev < j
unfolding bytes_lt shared_prefix_bytes
shared_prefix_shortest zero prev curr xs e l z h k = cc (not_below_IsZero prev xs l z)
shared_prefix_shortest (suc j) [] [] xs e l z h k = omega arith
shared_prefix_shortest (suc j) [] (c ∷ curr) xs e l z h k = absurd (omega arith)
shared_prefix_shortest (suc j) (p ∷ prev) [] xs e l z h k = absurd (omega arith)
shared_prefix_shortest (suc j) (p ∷ prev) (c ∷ curr) [] e l z h k = absurd (omega arith)
shared_prefix_shortest (suc j) (p ∷ prev) (c ∷ curr) (x ∷ xs) e l z h k =
    ground (arith, shared_prefix_shortest j prev curr xs (omega arith) (omega arith) z)
