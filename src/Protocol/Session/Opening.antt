-- ===== src/Protocol/Session/Opening.antt =====
-- The first message of the initiator.
use negentropy.Prelude.{ℕ, ◌/◌, ◌<◌, ◌≡◌, Bytes, max_u64, List, ◌++◌, length}
use negentropy.Encoding.{encode_var_int}
use negentropy.Types.{Item, bound_at, Mode, mode_code}
use negentropy.Storage.{Storage}
use negentropy.Protocol.Wire.{encode_bound}
use negentropy.Protocol.Split.Tiling.{Range, encode_ranges, Tiles, concat_ids}

module _ (sha256 : Bytes → Bytes) (xs : List Item) where
  -- What the first message says behind its version: the ids of all items, or sixteen ranges that
  -- tile them.
  pub data Opens (last : ℕ) (o : Bytes) : Type 0 where
    by_ids :
        length xs < 32
        → o
          ≡ (encode_bound last (bound_at max_u64)).0
            ++ encode_var_int (mode_code Mode.id_list)
            ++ encode_var_int (length xs)
            ++ concat_ids xs
        → Opens last o
    by_ranges :
        (rs : List Range)
        → o ≡ (encode_ranges last rs).0
        → Tiles sha256 xs (length xs) (bound_at max_u64) (length xs / 16) 0 rs
        → length rs ≡ 16
        → Opens last o
