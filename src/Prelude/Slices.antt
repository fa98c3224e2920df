-- ===== src/Prelude/Slices.antt =====
-- A slice is the elements at the places from `begin` up to `end`.
use Prim.Native.Nat.{ℕ, zero, suc, ◌+◌, ◌-◌, ◌≤◌}
use mathlib.Core.Path.{◌≡◌, refl, sym, ap, ◌∙◌}
use mathlib.Core.List.{List, [], ◌∷◌, ◌++◌}
use native.Mathlib.Omega.{arith}
use native.Mathlib.Nat.{zero-add, suc-add, suc-sub-suc, zero-sub, sub-zero}
use negentropy.Prelude.Lists.{length, take, drop, length-take, length-drop}

module _ {ℓ} {A : Type ℓ} where
  abbrev pub slice : ℕ → ℕ → List A → List A
  slice begin end xs = take (end - begin) (drop begin xs)

  take-nil : (n : ℕ) → take {A = A} n [] ≡ []
  take-nil zero = refl
  take-nil (suc n) = refl

  drop-nil : (n : ℕ) → drop {A = A} n [] ≡ []
  drop-nil zero = refl
  drop-nil (suc n) = refl

  pub take-split : (m n : ℕ) (xs : List A) → take m xs ++ take n (drop m xs) ≡ take (m + n) xs
  take-split zero n xs = rw zero-add
  take-split (suc m) n [] = rw (take-nil n, take-nil (suc m + n))
  take-split (suc m) n (x ∷ xs) = rw suc-add (ap (◌∷◌ x) (take-split m n xs))

  pub drop-drop : (m n : ℕ) (xs : List A) → drop n (drop m xs) ≡ drop (m + n) xs
  drop-drop zero n xs = rw zero-add
  drop-drop (suc m) n [] = rw (drop-nil n, drop-nil (suc m + n))
  drop-drop (suc m) n (x ∷ xs) = rw suc-add (drop-drop m n xs)

  take-take : (m n : ℕ) (xs : List A) → m ≤ n → take m (take n xs) ≡ take m xs
  take-take zero n xs h = refl
  take-take (suc m) zero xs h = absurd (omega arith)
  take-take (suc m) (suc n) [] h = refl
  take-take (suc m) (suc n) (x ∷ xs) h = ap (◌∷◌ x) (take-take m n xs (omega arith))

  drop-take : (m n : ℕ) (xs : List A) → drop m (take n xs) ≡ take (n - m) (drop m xs)
  drop-take zero n xs = rw sub-zero
  drop-take (suc m) zero xs = rw zero-sub
  drop-take (suc m) (suc n) [] = rw take-nil
  drop-take (suc m) (suc n) (x ∷ xs) = rw suc-sub-suc (drop-take m n xs)

  pub length-slice : (b e : ℕ) (xs : List A) → b ≤ e → e ≤ length xs → length (slice b e xs) ≡ e - b
  length-slice b e xs h k = omega (arith, length-take (e - b) (drop b xs), length-drop b xs)

  -- neighbouring slices join
  pub slice-append :
      (a b c : ℕ) (xs : List A) → a ≤ b → b ≤ c → slice a b xs ++ slice b c xs ≡ slice a c xs
  slice-append a b c xs h k =
      ap (λ (ys : List A). slice a b xs ++ take (c - b) ys)
        (sym (drop-drop a (b - a) xs ∙ ap (λ (n : ℕ). drop n xs) there))
      ∙ take-split (b - a) (c - b) (drop a xs)
      ∙ ap (λ (n : ℕ). take n (drop a xs)) whole
    where
      there : a + (b - a) ≡ b
      there = omega arith

      whole : (b - a) + (c - b) ≡ c - a
      whole = omega arith

  -- a slice of a slice
  pub slice-slice :
      (b e i j : ℕ) (xs : List A)
      → i ≤ j
      → j ≤ e - b
      → slice i j (slice b e xs) ≡ slice (b + i) (b + j) xs
  slice-slice b e i j xs h k =
      ap (take (j - i)) (drop-take i (e - b) (drop b xs))
      ∙ take-take (j - i) (e - b - i) _ inside
      ∙ ap (take (j - i)) (drop-drop b i xs)
      ∙ ap (λ (n : ℕ). take n (drop (b + i) xs)) same
    where
      inside : j - i ≤ e - b - i
      inside = omega arith

      same : j - i ≡ (b + j) - (b + i)
      same = omega arith

  pub take_all : (xs : List A) → take (length xs) xs ≡ xs
  take_all [] = refl
  take_all (x ∷ xs) = ap (◌∷◌ x) (take_all xs)

  pub slice_all : (xs : List A) → slice 0 (length xs) xs ≡ xs
  slice_all xs = rw sub-zero (take_all xs)
