-- ===== src/Protocol/Split.antt =====
-- cpp/negentropy.h, `splitRange`: the ids of a short range, or sixteen fingerprints of a long one.
use negentropy.Prelude.{
  ℕ, zero, suc, ◌+◌, ◌/◌, ◌%◌, ◌*◌, Bool, true, Bytes, sub_u64, List, [], ◌∷◌, ◌++◌, ltb, ◌==◌,
  if◌then◌else◌,
}
use negentropy.Prelude.Results.{Result, ok, err, ◌>>=◌}
use negentropy.Encoding.{encode_var_int}
use negentropy.Types.{Item, item_at, Bound, Mode, mode_code}
use negentropy.Storage.{Storage}
use negentropy.Protocol.Wire.{encode_bound, get_minimal_bound}
pub mod Neighbours
pub mod Tiling
pub mod Ranges

abbrev pub bucket_count : ℕ
bucket_count = 16

-- the callback that reads the items on both sides of `curr`, as (prevItem, currItem)
abbrev pub pick_neighbours : ℕ → Item → ℕ → Item × Item → (Item × Item) × Bool
pick_neighbours curr it index st =
    ((if index == sub_u64 curr 1 then (it, st.1) else (st.0, it)), true)

-- the callback that collects ids
abbrev pub push_id : Item → ℕ → Bytes → Bytes × Bool
push_id it _ o = (o ++ it.id, true)

module _ (s : Storage) where
  pub next_bound : ℕ → ℕ → Bound → Result Bound
  next_bound curr upper upper_bound = if curr == upper then ok upper_bound else do
    (prev, it) ←
        s.iterate (Item × Item) (pick_neighbours curr) (sub_u64 curr 1) (curr + 1)
          (item_at 0, item_at 0)
    get_minimal_bound prev it

  -- `n` buckets are left and `i` are done; `last` is `lastTimestampOut`
  pub split_buckets :
      (per_bucket with_extra upper : ℕ) (upper_bound : Bound)
      → (n i curr last : ℕ) (o : Bytes) → Result (Bytes × ℕ)
  split_buckets per_bucket with_extra upper upper_bound zero i curr last o = ok (o, last)
  split_buckets per_bucket with_extra upper upper_bound (suc n) i curr last o = do
    let bucket_size = per_bucket + (if ltb i with_extra then 1 else 0)
    our_fingerprint ← s.fingerprint curr (curr + bucket_size)
    let curr' = curr + bucket_size
    b ← next_bound curr' upper upper_bound
    let e = encode_bound last b
    split_buckets per_bucket with_extra upper upper_bound n (suc i) curr' e.1
        (o ++ e.0 ++ encode_var_int (mode_code Mode.fingerprint) ++ our_fingerprint)

  pub split_range : (last lower upper : ℕ) (upper_bound : Bound) → Result (Bytes × ℕ)
  split_range last lower upper upper_bound =
      let num_elems = sub_u64 upper lower in
      if ltb num_elems (bucket_count * 2)
      then (do
        let e = encode_bound last upper_bound
        o ←
            s.iterate Bytes push_id lower upper
              (e.0 ++ encode_var_int (mode_code Mode.id_list) ++ encode_var_int num_elems)
        ok (o, e.1))
      else split_buckets (num_elems / bucket_count) (num_elems % bucket_count) upper upper_bound
          bucket_count 0 lower last []
