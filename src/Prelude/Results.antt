-- ===== src/Prelude/Results.antt =====
-- Results of code that may throw. There is a constructor for each text that a
-- `negentropy::err` is thrown with.

use mathlib.Core.Path.{◌≡◌, refl}
use mathlib.Core.Logic.{◌⊎◌, inl, inr}
use mathlib.Core.Bool.{Bool, false}
use negentropy.Prelude.Tests.{if◌then◌else◌}

-- `std_out_of_range` is the exception of `std::vector::at`. Two are no exceptions: `out_of_fuel` marks a loop of the model whose fuel ran out, and
-- `undefined` an access through a null pointer or beyond an array.
pub data Error : Type 0 where
  parse_ends premature_varint bad_item_id bad_bound_id : Error
  already_sealed bad_added_id duplicate_item not_sealed bad_range bad_index : Error
  frame_limit_small already_initiated not_asking asking : Error
  bad_version unsupported_version unexpected_mode out_of_range std_out_of_range : Error
  out_of_fuel undefined : Error

pub data Result {ℓ} (A : Type ℓ) : Type ℓ where
  ok : A → Result A
  err : Error → Result A

-- `if (!holds) throw reason;`
abbrev pub guard : Bool → Error → Result (Unit {0})
guard holds reason = if holds then ok tt else err reason

infixl 5 ◌>>=◌ ◌>>◌
abbrev pub ◌>>=◌ {ℓ κ} : {A : Type ℓ} {B : Type κ} → Result A → (A → Result B) → Result B
err thrown >>= next = err thrown
ok value >>= next = next value

abbrev pub ◌>>◌ {ℓ} : {B : Type ℓ} → Result (Unit {0}) → Result B → Result B
first >> second = first >>= λ _. second

pub >>=-eq-ok {ℓ κ} :
    {A : Type ℓ} {B : Type κ} (first : Result A) (next : A → Result B) {result : B}
    → (first >>= next) ≡ ok result
    → (value : A) × (first ≡ ok value) × (next value ≡ ok result)
>>=-eq-ok (ok value) next done = (value, refl, done)
>>=-eq-ok (err thrown) next done = cc

pub Result-cases {ℓ} :
    {A : Type ℓ} (r : Result A) → ((a : A) × (r ≡ ok a)) ⊎ ((e : Error) × (r ≡ err e))
Result-cases (ok a) = inl (a, refl)
Result-cases (err e) = inr (e, refl)

-- the exceptions that a malformed message causes
abbrev pub IsMessageError : Error → Type 0
IsMessageError Error.parse_ends = Unit
IsMessageError Error.premature_varint = Unit
IsMessageError Error.bad_bound_id = Unit
IsMessageError Error.bad_version = Unit
IsMessageError Error.unsupported_version = Unit
IsMessageError Error.unexpected_mode = Unit
IsMessageError _ = ⊥

-- a result that satisfies `P`, or an exception that the message causes
abbrev pub Outcome {ℓ} : {A : Type ℓ} → (A → Type 0) → Result A → Type 0
Outcome P (ok a) = P a
Outcome P (err e) = IsMessageError e

pub Outcome-bind {ℓ κ} :
    {A : Type ℓ} {B : Type κ} (Q : A → Type 0) (P : B → Type 0) (m : Result A) (f : A → Result B)
    → Outcome Q m
    → ((a : A) → Q a → Outcome P (f a))
    → Outcome P (m >>= f)
Outcome-bind Q P (ok a) f h k = k a h
Outcome-bind Q P (err e) f h k = h

-- the other branch of an `if`
pub Outcome-else {ℓ} :
    {A : Type ℓ} (P : A → Type 0) (b : Bool) (m n : Result A)
    → b ≡ false
    → Outcome P n
    → Outcome P (if b then m else n)
Outcome-else P b m n e h = rw e h
