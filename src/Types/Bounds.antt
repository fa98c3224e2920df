-- ===== src/Types/Bounds.antt =====
-- Bounds made from a timestamp and a prefix of an id.
use negentropy.Prelude.{
  ℕ, zero, suc, ◌-◌, ◌≤◌, ◌≡◌, refl, ap, sym, Bytes, IsU64, [], ◌∷◌, ◌++◌, take, length,
  length-append, length-take, length-replicate, replicate, ltb, Bool-cases, inl, inr, arith, All,
  All-append, IsByte,
}
use negentropy.Prelude.Results.{ok, Outcome}
use negentropy.Types.{Item, Bound, make_bound, bound_at, bound_of_item, IsItem, IsBound}

pub take-length : (n : ℕ) (xs : Bytes) → n ≤ length xs → length (take n xs) ≡ n
take-length n xs h = omega (arith, length-take n xs)

take_front : (xs ys : Bytes) → take (length xs) (xs ++ ys) ≡ xs
take_front [] ys = refl
take_front (x ∷ xs) ys = ap (◌∷◌ x) (take_front xs ys)

take-whole : (n : ℕ) (xs : Bytes) → length xs ≡ n → take n xs ++ [] ≡ xs
take-whole zero [] h = refl
take-whole zero (x ∷ xs) h = absurd (omega arith)
take-whole (suc n) [] h = absurd (omega arith)
take-whole (suc n) (x ∷ xs) h = ap (◌∷◌ x) (take-whole n xs (omega arith))

zeros-IsByte : (n : ℕ) → All IsByte (replicate n 0)
zeros-IsByte zero = tt
zeros-IsByte (suc n) = (omega arith, zeros-IsByte n)

-- A bound is made again from its timestamp and its prefix.
pub make_bound-take :
    (b : Bound) → IsBound b → make_bound b.item.timestamp (take b.id_len b.item.id) ≡ ok b
unfolding make_bound
make_bound-take b h = ground (
  arith,
  take-length b.id_len b.item.id (omega (arith, h.len_fits, h.item_valid.id_full)),
  h.padded,
  h.len_fits,
)

-- the bound of a timestamp and at most 32 bytes
abbrev pub prefix_bound : ℕ → Bytes → Bound
prefix_bound t id = record {
  item = record { timestamp = t; id = id ++ replicate (32 - length id) 0 };
  id_len = length id;
}

pub make_bound_short :
    (t : ℕ) (id : Bytes) → length id ≤ 32 → make_bound t id ≡ ok (prefix_bound t id)
unfolding make_bound
make_bound_short t id h = ground arith

pub prefix_bound-IsBound :
    (t : ℕ) (id : Bytes) → IsU64 t → length id ≤ 32 → All IsByte id → IsBound (prefix_bound t id)
prefix_bound-IsBound t id ht hl hb = record {
  item_valid = record {
    timestamp_fits = ht;
    id_full = omega (
      arith,
      length-append id (replicate (32 - length id) 0),
      length-replicate (32 - length id) zero,
    );
    id_bytes = All-append IsByte id _ hb (zeros-IsByte (32 - length id));
  };
  len_fits = hl;
  padded = ap (λ (front : Bytes). front ++ replicate (32 - length id) 0) (sym (take_front id _));
}

pub bound_of_item-IsBound : (it : Item) → IsItem it → IsBound (bound_of_item it)
bound_of_item-IsBound it h = record {
  item_valid = h;
  len_fits = omega arith;
  padded = sym (take-whole 32 it.id h.id_full);
}

pub bound_at-IsBound : (t : ℕ) → IsU64 t → IsBound (bound_at t)
bound_at-IsBound t h = record {
  item_valid = record { timestamp_fits = h; id_full = refl; id_bytes = zeros-IsByte 32 };
  len_fits = omega arith;
  padded = refl;
}

pub make_bound-Outcome : (t : ℕ) (id : Bytes) → Outcome (λ b. b.id_len ≤ 32) (make_bound t id)
unfolding make_bound
make_bound-Outcome t id = elim (Bool-cases (ltb 32 (length id))) [
  | inl long ↦ rw long tt
  | inr short ↦ rw short (ground arith)
]
