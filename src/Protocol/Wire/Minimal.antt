-- ===== src/Protocol/Wire/Minimal.antt =====
-- The bound between two neighbours: it separates them, and no bound with a shorter id does.
use negentropy.Prelude.{
  ℕ, zero, suc, ◌+◌, ◌-◌, ◌≤◌, ◌<◌, ◌≡◌, refl, ap, sym, ◌∙◌, true, false, Bytes, List, [], ◌∷◌,
  ◌++◌, take, drop, length, length-take, replicate, ◌==◌, if◌then◌else◌, arith, All, IsByte,
  Bool-cases, inl, inr,
}
use mathlib.Core.Path.{subst}
use negentropy.Prelude.Results.{Result, ok}
use negentropy.Types.{Item, Bound, item_lt, IsItem, IsBound, bound_at}
use negentropy.Types.Bounds.{
  prefix_bound, make_bound_short, prefix_bound-IsBound, bound_at-IsBound, take-length,
}
use negentropy.Types.Order.{item_lt_same, item_lt_timestamp, item_lt_earlier, item_not_lt_timestamp}
use negentropy.Protocol.Wire.{shared_prefix_bytes, get_minimal_bound}
use negentropy.Accumulator.Limbs.{All-take}
use negentropy.Protocol.Wire.Prefix.{
  not_below_zeros, IsZero, cut, pad, Between, cut-Between, shared_prefix_shortest,
}

-- `b` is above `prev` and not above `curr`: it bounds the range before `curr`.
pub record Separates (prev curr : Item) (b : Bound) : Type 0 where
  pub above : item_lt prev b.item ≡ true
  pub not_above : item_lt curr b.item ≡ false

cut-le : (curr prev : Bytes) → length curr ≡ 32 → length (cut curr prev) ≤ 32
cut-le curr prev e = omega (arith, length-take (shared_prefix_bytes curr prev + 1) curr)

-- what `get_minimal_bound` returns
pub minimal_bound : Item → Item → Bound
minimal_bound prev curr =
    if curr.timestamp == prev.timestamp
    then prefix_bound curr.timestamp (cut curr.id prev.id)
    else bound_at curr.timestamp

-- `get_minimal_bound` never throws.
pub get_minimal_bound_ok :
    (prev curr : Item) → IsItem curr → get_minimal_bound prev curr ≡ ok (minimal_bound prev curr)
unfolding get_minimal_bound minimal_bound
get_minimal_bound_ok prev curr h = ground (
  arith,
  make_bound_short curr.timestamp (cut curr.id prev.id) (cut-le curr.id prev.id h.id_full),
)

pub minimal_bound-IsBound : (prev curr : Item) → IsItem curr → IsBound (minimal_bound prev curr)
unfolding minimal_bound
minimal_bound-IsBound prev curr h = elim (Bool-cases (curr.timestamp == prev.timestamp)) [
  | inl same ↦ rw same (
      prefix_bound-IsBound curr.timestamp (cut curr.id prev.id) h.timestamp_fits
        (cut-le curr.id prev.id h.id_full) (All-take IsByte _ curr.id h.id_bytes))
  | inr other ↦ rw other (bound_at-IsBound curr.timestamp h.timestamp_fits)
]

pub minimal_bound_timestamp :
    (prev curr : Item) → (minimal_bound prev curr).item.timestamp ≡ curr.timestamp
unfolding minimal_bound
minimal_bound_timestamp prev curr = ground arith

same_timestamp : (a b : ℕ) → (a == b) ≡ true → a ≡ b
same_timestamp a b e = ground arith

Separates-same :
    (prev curr : Item)
    → IsItem prev
    → IsItem curr
    → curr.timestamp ≡ prev.timestamp
    → item_lt prev curr ≡ true
    → Separates prev curr (prefix_bound curr.timestamp (cut curr.id prev.id))
Separates-same prev curr hp hc e h =
    let ids : Between prev.id curr.id (pad 32 (cut curr.id prev.id)) = rw hc.id_full at (
      cut-Between prev.id curr.id (hp.id_full ∙ sym hc.id_full)
        (sym (item_lt_same prev curr (sym e)) ∙ h)) in
    record {
      above = item_lt_same prev _ (sym e) ∙ ids.0;
      not_above = item_lt_same curr _ refl ∙ ids.1;
    }

Separates-other :
    (prev curr : Item)
    → IsItem curr
    → (curr.timestamp == prev.timestamp) ≡ false
    → item_lt prev curr ≡ true
    → Separates prev curr (bound_at curr.timestamp)
Separates-other prev curr hc e h = record {
  above = item_lt_earlier prev _ (ground (arith, item_lt_timestamp prev curr h));
  not_above = item_lt_same curr _ refl ∙ rw hc.id_full at (not_below_zeros curr.id);
}

pub minimal_bound-Separates :
    (prev curr : Item)
    → IsItem prev
    → IsItem curr
    → item_lt prev curr ≡ true
    → Separates prev curr (minimal_bound prev curr)
unfolding minimal_bound
minimal_bound-Separates prev curr hp hc h = elim (Bool-cases (curr.timestamp == prev.timestamp)) [
  | inl same ↦ rw same (Separates-same prev curr hp hc (same_timestamp _ _ same) h)
  | inr other ↦ rw other (Separates-other prev curr hc other h)
]

drop-append {ℓ} : {A : Type ℓ} (n : ℕ) (xs ys : List A) → length xs ≡ n → drop n (xs ++ ys) ≡ ys
drop-append zero [] ys e = refl
drop-append zero (x ∷ xs) ys e = absurd (omega arith)
drop-append (suc n) [] ys e = absurd (omega arith)
drop-append (suc n) (x ∷ xs) ys e = drop-append n xs ys (omega arith)

zeros-IsZero : (n : ℕ) → All IsZero (replicate n 0)
zeros-IsZero zero = tt
zeros-IsZero (suc n) = (refl, zeros-IsZero n)

-- past its prefix a bound is zero
bound_zeros : (b : Bound) → IsBound b → All IsZero (drop b.id_len b.item.id)
bound_zeros b h =
    subst (λ (id : Bytes). All IsZero (drop b.id_len id)) (sym h.padded)
      (subst (All IsZero)
        (sym (
          drop-append b.id_len (take b.id_len b.item.id) _
            (take-length b.id_len b.item.id (omega (arith, h.len_fits, h.item_valid.id_full)))))
        (zeros-IsZero (32 - b.id_len)))

minimal_same :
    (prev curr : Item) (b : Bound)
    → IsItem prev
    → IsItem curr
    → IsBound b
    → curr.timestamp ≡ prev.timestamp
    → Separates prev curr b
    → shared_prefix_bytes curr.id prev.id < b.id_len
minimal_same prev curr b hp hc hb e s =
    shared_prefix_shortest b.id_len prev.id curr.id b.item.id (hp.id_full ∙ sym hc.id_full)
      (hp.id_full ∙ sym hb.item_valid.id_full) (bound_zeros b hb)
      (sym (item_lt_same prev b.item at_one) ∙ s.above)
      (sym (item_lt_same curr b.item (e ∙ at_one)) ∙ s.not_above)
  where
    at_one : prev.timestamp ≡ b.item.timestamp
    at_one = omega (
      arith,
      item_lt_timestamp prev b.item s.above,
      item_not_lt_timestamp curr b.item s.not_above,
    )

minimal_bound_shortest :
    (prev curr : Item) (b : Bound)
    → IsItem prev
    → IsItem curr
    → IsBound b
    → Separates prev curr b
    → (minimal_bound prev curr).id_len ≤ b.id_len
unfolding minimal_bound
minimal_bound_shortest prev curr b hp hc hb s =
    elim (Bool-cases (curr.timestamp == prev.timestamp)) [
      | inl same ↦ rw same (
          omega (
            arith,
            length-take (shared_prefix_bytes curr.id prev.id + 1) curr.id,
            minimal_same prev curr b hp hc hb (same_timestamp _ _ same) s,
          ))
      | inr other ↦ rw other (omega arith)
    ]

-- For items `prev < curr`, `get_minimal_bound` returns a well-formed bound that is above `prev` and not
-- above `curr`.
pub get_minimal_bound-Separates :
    (prev curr : Item)
    → IsItem prev
    → IsItem curr
    → item_lt prev curr ≡ true
    → (b : Bound) × (get_minimal_bound prev curr ≡ ok b) × IsBound b × Separates prev curr b
get_minimal_bound-Separates prev curr hp hc h = (
  minimal_bound prev curr,
  get_minimal_bound_ok prev curr hc,
  minimal_bound-IsBound prev curr hc,
  minimal_bound-Separates prev curr hp hc h,
)

-- No well-formed bound that is above `prev` and not above `curr` names fewer bytes of an id than the
-- one that `get_minimal_bound` returns.
pub get_minimal_bound_shortest :
    (prev curr : Item) (b b' : Bound)
    → IsItem prev
    → IsItem curr
    → get_minimal_bound prev curr ≡ ok b
    → IsBound b'
    → Separates prev curr b'
    → b.id_len ≤ b'.id_len
get_minimal_bound_shortest prev curr b b' hp hc made hb s =
    omega (arith, minimal_bound_shortest prev curr b' hp hc hb s, ap (λ (x : Bound). x.id_len) same)
  where
    unpacked :
        ◌≡◌ {A = Result Bound} (ok (minimal_bound prev curr)) (ok b) → minimal_bound prev curr ≡ b
    unpacked e = cc

    same : minimal_bound prev curr ≡ b
    same = unpacked (sym (get_minimal_bound_ok prev curr hc) ∙ made)
