-- ===== src/Protocol/Split/Tiling.antt =====
-- The ranges of a message that `split_range` writes, and when they tile a range of items.
use negentropy.Prelude.{
  ℕ, suc, ◌+◌, ◌-◌, ◌≤◌, ◌≡◌, Bytes, List, [], ◌∷◌, ◌++◌, slice, get_elem?, some, ◌⊎◌,
}
use negentropy.Encoding.{encode_var_int}
use negentropy.Types.{Item, Bound, IsBound, Mode, mode_code}
use negentropy.Accumulator.{accum_from, zero_accum, get_fingerprint}
use negentropy.Protocol.Wire.{encode_bound}
use negentropy.Protocol.Wire.Minimal.{Separates}

-- A fingerprint range of a message.
pub record Range : Type 0 where
  pub bound : Bound
  pub digest : Bytes

unfoldable pub encode_ranges : ℕ → List Range → Bytes × ℕ
encode_ranges last [] = ([], last)
encode_ranges last (r ∷ rs) =
    let e = encode_bound last r.bound in
    let rest = encode_ranges e.1 rs in
    (e.0 ++ encode_var_int (mode_code Mode.fingerprint) ++ r.digest ++ rest.0, rest.1)

-- the ids of items, one after the other
unfoldable pub concat_ids : List Item → Bytes
concat_ids [] = []
concat_ids (it ∷ its) = it.id ++ concat_ids its

module _ (sha256 : Bytes → Bytes) (xs : List Item) (upper : ℕ) (upper_bound : Bound) where
  -- A range that ends before item `next`: at the upper bound, or at a bound between two neighbours.
  pub data EndsAt (next : ℕ) (b : Bound) : Type 0 where
    at_upper : next ≡ upper → b ≡ upper_bound → EndsAt next b
    between :
        (k : ℕ) (prev curr : Item)
        → next ≡ suc k
        → get_elem? xs k ≡ some prev
        → get_elem? xs next ≡ some curr
        → IsBound b
        → Separates prev curr b
        → EndsAt next b

  -- The ranges start at item `curr`, follow one another without a gap, and end at `upper`; each is of
  -- `per` or `per + 1` items and has the digest of its own items.
  pub data Tiles (per : ℕ) : ℕ → List Range → Type 0 where
    done : {curr : ℕ} → curr ≡ upper → Tiles per curr []
    tile :
        {curr : ℕ} {r : Range} {rs : List Range} (next : ℕ)
        → (next ≡ curr + per) ⊎ (next ≡ curr + per + 1)
        → next ≤ upper
        → r.digest
          ≡ get_fingerprint sha256 (accum_from zero_accum (slice curr next xs)) (next - curr)
        → EndsAt next r.bound
        → Tiles per next rs
        → Tiles per curr (r ∷ rs)
