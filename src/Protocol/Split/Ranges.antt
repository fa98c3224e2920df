-- ===== src/Protocol/Split/Ranges.antt =====
-- What `split_range` writes: ranges that tile the items from `lower` to `upper`.
use negentropy.Prelude.{
  ℕ, zero, suc, ◌+◌, ◌-◌, ◌*◌, ◌/◌, ◌%◌, ◌≤◌, ◌<◌, ◌≡◌, refl, ap, sym, ◌∙◌, true, false, Bytes,
  List, [], ◌∷◌, ◌++◌, append_assoc, append-nil, take, drop, length, slice, arith, ltb, ◌==◌,
  if◌then◌else◌, sub_u64, sub_u64_lem, ap₂, ◌⊎◌, inl, inr, Bool-cases,
}
use negentropy.Prelude.Results.{Result, ok, ◌>>=◌}
use negentropy.Encoding.{encode_var_int}
use negentropy.Types.{Item, item_at, Bound, Mode, mode_code}
use negentropy.Storage.{Storage, Presents, walk}
use negentropy.Accumulator.{accum_from, zero_accum, get_fingerprint}
use negentropy.Protocol.Wire.{encode_bound, get_minimal_bound}
use negentropy.Protocol.Wire.Minimal.{get_minimal_bound-Separates}
use negentropy.Protocol.Split.{next_bound, pick_neighbours, push_id, split_buckets, split_range}
use negentropy.Protocol.Split.Neighbours.{Neighbours, neighbours}
use negentropy.Protocol.Split.Tiling.{Range, encode_ranges, concat_ids, EndsAt, Tiles}

module _ (sha256 : Bytes → Bytes) (s : Storage) (xs : List Item) (p : Presents sha256 s xs) where
  -- the callback picks the items on both sides of `suc c`
  picks :
      (c : ℕ) {a b : Item}
      → suc c < length xs
      → Neighbours xs c a b
      → s.iterate
          (Item × Item)
          (pick_neighbours (suc c))
          (sub_u64 (suc c) 1)
          (suc c + 1)
          (item_at 0, item_at 0)
        ≡ ok (a, b)
  picks c {a} {b} h n =
      p.iterate_lem (Item × Item) (pick_neighbours (suc c)) (sub_u64 (suc c) 1) (suc c + 1) _
        (omega (arith, back)) (omega arith)
      ∙ ap ok (
          ap (λ (its : List Item). walk (pick_neighbours (suc c)) (sub_u64 (suc c) 1) its start) two
          ∙ walked)
    where
      start : Item × Item
      start = (item_at 0, item_at 0)

      back : sub_u64 (suc c) 1 ≡ c
      back = omega (arith, sub_u64_lem (suc c) 1, p.size_fits)

      width : suc c + 1 - sub_u64 (suc c) 1 ≡ 2
      width = omega (arith, back)

      two : slice (sub_u64 (suc c) 1) (suc c + 1) xs ≡ a ∷ b ∷ []
      two = ap₂ (λ (m k : ℕ). take m (drop k xs)) width back ∙ n.both

      walked : walk (pick_neighbours (suc c)) (sub_u64 (suc c) 1) (a ∷ b ∷ []) start ≡ (a, b)
      walked = unfold walk in ground (arith, back)

  next_bound_ends :
      (curr upper : ℕ) (upper_bound : Bound)
      → 0 < curr
      → curr ≤ upper
      → upper ≤ length xs
      → (b : Bound) × (next_bound s curr upper upper_bound ≡ ok b)
        × EndsAt sha256 xs upper upper_bound curr b
  unfolding next_bound
  next_bound_ends zero upper ub pos h k = absurd (omega arith)
  next_bound_ends (suc c) upper ub pos h k = elim (Bool-cases (suc c == upper)) [
    | inl at_end ↦ (ub, rw at_end, EndsAt.at_upper (ground arith) refl)
    | inr inside ↦
        let more : suc c < length xs = ground arith in
        let (a, b, n) = neighbours c xs more p.sorted p.valid in
        let (m, made, valid, separates) =
          get_minimal_bound-Separates a b n.first_valid n.second_valid n.ascending in
        (
          m,
          rw inside (picked (picks c more n) made),
          EndsAt.between c a b refl n.first n.second valid separates,
        )
  ]
    where
      picked :
          {a b : Item} {m : Bound}
          → s.iterate
              (Item × Item)
              (pick_neighbours (suc c))
              (sub_u64 (suc c) 1)
              (suc c + 1)
              (item_at 0, item_at 0)
            ≡ ok (a, b)
          → get_minimal_bound a b ≡ ok m
          → (s.iterate
                (Item × Item)
                (pick_neighbours (suc c))
                (sub_u64 (suc c) 1)
                (suc c + 1)
                (item_at 0, item_at 0)
              >>= λ st. get_minimal_bound st.0 st.1)
            ≡ ok m
      picked e f = rw e f

  bucket : ℕ → ℕ → ℕ → ℕ
  bucket per extra i = per + (if ltb i extra then 1 else 0)

  split_buckets_step :
      (per extra upper : ℕ) (ub : Bound) (n i curr last : ℕ) (o digest : Bytes) (b : Bound)
      → s.fingerprint curr (curr + bucket per extra i) ≡ ok digest
      → next_bound s (curr + bucket per extra i) upper ub ≡ ok b
      → split_buckets s per extra upper ub (suc n) i curr last o
        ≡ split_buckets s per extra upper ub n
            (suc i)
            (curr + bucket per extra i)
            (encode_bound last b).1
            (o ++ (encode_bound last b).0 ++ encode_var_int (mode_code Mode.fingerprint) ++ digest)
  unfolding split_buckets bucket
  split_buckets_step per extra upper ub n i curr last o digest b e f = simp (e, f)

  encode_ranges_cons :
      (last : ℕ) (o : Bytes) (r : Range) (rs : List Range)
      → ◌≡◌ {A = Result (Bytes × ℕ)}
          (ok (
            (o
                  ++ (encode_bound last r.bound).0
                  ++ encode_var_int (mode_code Mode.fingerprint)
                  ++ r.digest)
                ++ (encode_ranges (encode_bound last r.bound).1 rs).0,
            (encode_ranges (encode_bound last r.bound).1 rs).1,
          ))
          (ok (o ++ (encode_ranges last (r ∷ rs)).0, (encode_ranges last (r ∷ rs)).1))
  unfolding encode_ranges
  encode_ranges_cons last o r rs = simp append_assoc

  split_buckets-Tiles :
      (per extra upper : ℕ) (ub : Bound)
      → 0 < per
      → extra < 16
      → upper ≤ length xs
      → (n i curr last : ℕ) (o : Bytes) → n + i ≡ 16
      → curr + n * per + (extra - i) ≡ upper
      → (rs : List Range) × (split_buckets s per extra upper ub n i curr last o
          ≡ ok (o ++ (encode_ranges last rs).0, (encode_ranges last rs).1))
        × Tiles sha256 xs upper ub per curr rs
        × (length rs ≡ n)
  split_buckets-Tiles per extra upper ub pos small within zero i curr last o rounds there = (
    [],
    unfold split_buckets encode_ranges in ap (λ (t : Bytes). ok (t, last)) (sym (append-nil o)),
    Tiles.done (omega arith),
    refl,
  )
  split_buckets-Tiles per extra upper ub pos small within (suc n) i curr last o rounds there =
      let next = curr + bucket per extra i in
      let (b, bounded, ends) = next_bound_ends next upper ub reached.0 reached.1 within in
      let digest =
        get_fingerprint sha256 (accum_from zero_accum (slice curr next xs)) (next - curr) in
      let r : Range = record { bound = b; digest = digest } in
      let (rs, written, tiles, count) =
        split_buckets-Tiles per extra upper ub pos small within n (suc i) next
          (encode_bound last b).1
          (o ++ (encode_bound last b).0 ++ encode_var_int (mode_code Mode.fingerprint) ++ digest)
          (omega arith) left in
      (
        r ∷ rs,
        split_buckets_step per extra upper ub n i curr last o digest b
              (p.fingerprint_lem curr next (omega (arith, reached)) (omega (arith, reached)))
              bounded
            ∙ written
            ∙ encode_ranges_cons last o r rs,
        Tiles.tile next sizes reached.1 refl ends tiles,
        ap suc count,
      )
    where
      reached : (0 < curr + bucket per extra i) × (curr + bucket per extra i ≤ upper)
      reached = unfold bucket in ground arith

      left : curr + bucket per extra i + n * per + (extra - suc i) ≡ upper
      left = unfold bucket in ground arith

      sizes :
          (curr + bucket per extra i ≡ curr + per) ⊎ (curr + bucket per extra i ≡ curr + per + 1)
      sizes = unfold bucket in ground arith

  collects : (i : ℕ) (its : List Item) (o : Bytes) → walk push_id i its o ≡ o ++ concat_ids its
  unfolding walk concat_ids
  collects i [] o = sym (append-nil o)
  collects i (it ∷ its) o =
      collects (suc i) its (o ++ it.id) ∙ append_assoc o it.id (concat_ids its)

  -- `split_range` on 32 items or more writes exactly sixteen fingerprint ranges, which tile the items
  -- from `lower` to `upper`: there is no gap and no overlap, each has a sixteenth of the items, rounded
  -- down, or one more, the digest of exactly its items, and a bound between its last item and the
  -- next; the last range ends at the given bound.
  pub split_range-Tiles :
      (last lower upper : ℕ) (ub : Bound)
      → lower + 32 ≤ upper
      → upper ≤ length xs
      → (rs : List Range) × (split_range s last lower upper ub ≡ ok (encode_ranges last rs))
        × Tiles sha256 xs upper ub ((upper - lower) / 16) lower rs
        × (length rs ≡ 16)
  split_range-Tiles last lower upper ub h k =
      let n = upper - lower in
      let (rs, written, tiles, count) =
        split_buckets-Tiles (n / 16) (n % 16) upper ub (omega arith) (omega arith) k 16 0 lower last
          [] (omega arith) (omega arith) in
      (rs, long_range ∙ written, tiles, count)
    where
      size : sub_u64 upper lower ≡ upper - lower
      size = omega (arith, sub_u64_lem upper lower, p.size_fits)

      long_range :
          split_range s last lower upper ub
          ≡ split_buckets s
              ((upper - lower) / 16)
              ((upper - lower) % 16)
              upper
              ub
              16
              0
              lower
              last
              []
      long_range = unfold split_range in rw size (rw many)
        where
          many : ltb (upper - lower) 32 ≡ false
          many = ground arith

  -- `split_range` on fewer than 32 items writes one range with the ids of all of them.
  pub split_range_ids :
      (last lower upper : ℕ) (ub : Bound)
      → lower ≤ upper
      → upper < lower + 32
      → upper ≤ length xs
      → split_range s last lower upper ub
        ≡ ok (
          (encode_bound last ub).0
              ++ encode_var_int (mode_code Mode.id_list)
              ++ encode_var_int (upper - lower)
              ++ concat_ids (slice lower upper xs),
          (encode_bound last ub).1,
        )
  unfolding split_range
  split_range_ids last lower upper ub h few k =
      let front =
        (encode_bound last ub).0
        ++ encode_var_int (mode_code Mode.id_list)
        ++ encode_var_int (upper - lower) in
      rw size (
        rw short (
          rw (p.iterate_lem Bytes push_id lower upper front h k) (
            ap (λ (t : Bytes). ok (t, (encode_bound last ub).1))
              (collects lower (slice lower upper xs) front))))
    where
      size : sub_u64 upper lower ≡ upper - lower
      size = omega (arith, sub_u64_lem upper lower, p.size_fits)

      short : ltb (upper - lower) 32 ≡ true
      short = ground arith
