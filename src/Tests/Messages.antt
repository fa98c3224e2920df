-- ===== src/Tests/Messages.antt =====
-- Splitting, turns and whole messages over a vector of forty items.
use negentropy.Prelude.{
  ℕ, ◌-◌, ◌/◌, ◌<◌, ◌≡◌, refl, true, false, Bytes, List, [], ◌∷◌, ◌++◌, length, slice, arith,
  max_u64, inr, ◌⊎◌, replicate,
}
use negentropy.Prelude.Results.{ok, err, Error, Outcome}
use negentropy.Encoding.{encode_var_int}
use negentropy.Types.{bound_at, bytes_eq, Mode, mode_code}
use negentropy.Protocol.Wire.{encode_bound}
use negentropy.Protocol.Split.{split_range}
use negentropy.Protocol.Split.Tiling.{Range, encode_ranges, Tiles, concat_ids}
use negentropy.Protocol.Split.Ranges.{split_range-Tiles, split_range_ids}
use negentropy.Protocol.Turn.{Params, Vars, contains, turn_ids_initiator}
use negentropy.Protocol.Turn.Ids.{has_id, ours_only, theirs_only, turn_ids_initiator_exact}
use negentropy.Protocol.Turn.Respond.{IsLimit}
use negentropy.Protocol.Session.{Negentropy, make_negentropy, reconcile, reconcile_with_ids}
use negentropy.Protocol.Session.Replies.{
  make_negentropy_limits, WithinLimit, message, reconcile-fits_limit, reconcile_with_ids-fits_limit,
}
use negentropy.Tests.Data.{items_from, length-items_from, hash, length-hash, forty, forty-Presents}

split_range-Tiles_example :
    (rs : List Range) × (split_range forty 0 2 40 (bound_at max_u64) ≡ ok (encode_ranges 0 rs))
    × Tiles hash (items_from 40 5) 40 (bound_at max_u64) ((40 - 2) / 16) 2 rs
    × (length rs ≡ 16)
split_range-Tiles_example =
    split_range-Tiles hash forty (items_from 40 5) forty-Presents 0 2 40 (bound_at max_u64)
      (omega arith) (omega (arith, length-items_from 40 5))

split_range_ids_example :
    split_range forty 0 10 12 (bound_at 99)
    ≡ ok (
      (encode_bound 0 (bound_at 99)).0
          ++ encode_var_int (mode_code Mode.id_list)
          ++ encode_var_int (12 - 10)
          ++ concat_ids (slice 10 12 (items_from 40 5)),
      (encode_bound 0 (bound_at 99)).1,
    )
split_range_ids_example =
    split_range_ids hash forty (items_from 40 5) forty-Presents 0 10 12 (bound_at 99) (omega arith)
      (omega arith) (omega (arith, length-items_from 40 5))

abbrev client : Negentropy
client = record { frame_size_limit = 5000; is_initiator = true; last_in = 0; last_out = 0 }

abbrev server : Negentropy
server = record { frame_size_limit = 5000; is_initiator = false; last_in = 0; last_out = 0 }

make_negentropy_limits_example :
    ((n : Negentropy) × (make_negentropy 100 ≡ ok n)
      × (n.frame_size_limit ≡ 100)
      × ((◌≡◌ {A = ℕ} 100 0) ⊎ IsLimit 100))
    ⊎ ((make_negentropy 100 ≡ err Error.frame_limit_small) × (0 < 100) × (100 < 4096))
make_negentropy_limits_example = make_negentropy_limits 100 (omega arith)

reconcile-fits_limit_example :
    Outcome
      (λ r. WithinLimit server (length r.0))
      (reconcile forty server (0x61 ∷ 0 ∷ 0 ∷ 2 ∷ 0 ∷ []))
reconcile-fits_limit_example =
    reconcile-fits_limit hash length-hash forty (items_from 40 5) forty-Presents server
      (0x61 ∷ 0 ∷ 0 ∷ 2 ∷ 0 ∷ []) refl (inr (omega arith))

reconcile_with_ids-fits_limit_example :
    Outcome
      (λ r. WithinLimit client (length (message r.0)))
      (reconcile_with_ids forty client (0x61 ∷ 0 ∷ 0 ∷ 2 ∷ 0 ∷ []) [] [])
reconcile_with_ids-fits_limit_example =
    reconcile_with_ids-fits_limit hash length-hash forty (items_from 40 5) forty-Presents client
      (0x61 ∷ 0 ∷ 0 ∷ 2 ∷ 0 ∷ []) [] [] refl (inr (omega arith))

-- the ids of the items at times 8 and 9, and one that is of no item
abbrev their_ids : List Bytes
their_ids = replicate 32 9 ∷ replicate 32 77 ∷ []

abbrev params : Params
params = record { frame_size_limit = 5000; is_initiator = true; storage_size = 40 }

abbrev vars : Vars
vars = record {
  query = [];
  full_output = 0x61 ∷ [];
  prev_bound = bound_at 0;
  prev_index = 0;
  skip = false;
  last_in = 0;
  last_out = 0;
  have_ids = [];
  need_ids = [];
}

turn_ids_initiator_exact_example :
    turn_ids_initiator forty params 3 5 their_ids vars
    ≡ ok (record {
      vars = record vars {
        skip = true;
        have_ids = [] ++ ours_only their_ids (slice 3 5 (items_from 40 5));
        need_ids = [] ++ theirs_only (slice 3 5 (items_from 40 5)) their_ids;
      };
      o = [];
      upper = 5;
    })
unfolding items_from has_id bytes_eq contains
turn_ids_initiator_exact_example =
    turn_ids_initiator_exact hash forty (items_from 40 5) forty-Presents params 3 5 their_ids vars
      (omega arith) (omega arith) (refl, (refl, tt)) (refl, (refl, tt))

difference :
    (ours_only their_ids (slice 3 5 (items_from 40 5)) ≡ replicate 32 8 ∷ [])
    × (theirs_only (slice 3 5 (items_from 40 5)) their_ids ≡ replicate 32 77 ∷ [])
unfolding items_from has_id bytes_eq contains ours_only theirs_only
difference = (refl, refl)
