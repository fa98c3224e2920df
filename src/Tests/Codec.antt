-- ===== src/Tests/Codec.antt =====
-- Varints, bounds and the order of items.
use negentropy.Prelude.{
  ℕ, ◌*◌, ◌^◌, ◌≤◌, ◌<◌, ◌≡◌, refl, true, false, not, IsByte, IsU64, All, [], ◌∷◌, ◌++◌, length,
  max_u64, inl, ◌⊎◌, ◌↔◌, arith, lt_wf, dec_lt,
}
use negentropy.Prelude.Results.{ok, err, Error}
use negentropy.Encoding.{encode_var_int, decode_var_int, push_septets, mark_all_but_last}
use negentropy.Encoding.Varint.{decode_var_int-encode_var_int, encode_var_int_minimal}
use negentropy.Encoding.Parse.{decode_var_int_truncated}
use negentropy.Types.{Item, Bound, IsBound, item_lt, item_le, item_eq}
use negentropy.Types.Order.{item_lt_earlier, item_order}
use negentropy.Types.Bounds.{prefix_bound, prefix_bound-IsBound}
use negentropy.Protocol.Wire.{encode_bound, decode_bound, timestamp_after, get_minimal_bound}
use negentropy.Protocol.Wire.RoundTrip.{decode_bound-encode_bound, timestamp_after_bounds}
use negentropy.Protocol.Wire.Minimal.{
  Separates, get_minimal_bound-Separates, get_minimal_bound_shortest, minimal_bound,
  get_minimal_bound_ok, minimal_bound-IsBound, minimal_bound-Separates,
}
use negentropy.Tests.Data.{item, item-IsItem}

decode_var_int-encode_var_int_example :
    decode_var_int (encode_var_int 300 ++ (7 ∷ [])) ≡ ok (300, 7 ∷ [])
decode_var_int-encode_var_int_example = decode_var_int-encode_var_int 300 (7 ∷ []) (omega arith)

encode_var_int_minimal_example :
    All IsByte (encode_var_int 300)
    × (300 < 128 ^ length (encode_var_int 300))
    × ((◌≡◌ {A = ℕ} 300 0) ⊎ (128 ^ length (encode_var_int 300) ≤ 128 * 300))
encode_var_int_minimal_example = encode_var_int_minimal 300 (omega arith)

encode_300 : encode_var_int 300 ≡ 0x82 ∷ 0x2c ∷ []
unfolding encode_var_int push_septets mark_all_but_last lt_wf dec_lt
encode_300 = refl

decode_var_int_truncated_example : decode_var_int (0x82 ∷ []) ≡ err Error.premature_varint
decode_var_int_truncated_example =
    decode_var_int_truncated 300 0x2c (0x82 ∷ []) [] (omega arith) encode_300

abbrev some_bound : Bound
some_bound = prefix_bound 9 (1 ∷ 2 ∷ [])

some_bound-IsBound : IsBound some_bound
some_bound-IsBound = prefix_bound-IsBound 9 (1 ∷ 2 ∷ []) (omega arith) (omega arith) (omega arith)

decode_bound-encode_bound_example :
    decode_bound 4 ((encode_bound 4 some_bound).0 ++ (7 ∷ [])) ≡ ok (some_bound, 9, 7 ∷ [])
decode_bound-encode_bound_example =
    decode_bound-encode_bound 4 some_bound (7 ∷ []) (omega arith) some_bound-IsBound
      (inl (omega arith))

timestamp_after_bounds_example : (5 ≤ timestamp_after 5 max_u64) × IsU64 (timestamp_after 5 max_u64)
timestamp_after_bounds_example = timestamp_after_bounds 5 max_u64 (omega arith) (omega arith)

abbrev low : Item
low = item 3 1

abbrev high : Item
high = item 8 2

low-lt-high : item_lt low high ≡ true
low-lt-high = item_lt_earlier low high (omega arith)

get_minimal_bound-Separates_example :
    (b : Bound) × (get_minimal_bound low high ≡ ok b) × IsBound b × Separates low high b
get_minimal_bound-Separates_example =
    get_minimal_bound-Separates low high (item-IsItem 3 1 (omega arith) (omega arith))
      (item-IsItem 8 2 (omega arith) (omega arith)) low-lt-high

get_minimal_bound_shortest_example :
    (minimal_bound low high).id_len ≤ (minimal_bound low high).id_len
get_minimal_bound_shortest_example =
    get_minimal_bound_shortest low high (minimal_bound low high) (minimal_bound low high)
      (item-IsItem 3 1 (omega arith) (omega arith)) (item-IsItem 8 2 (omega arith) (omega arith))
      (get_minimal_bound_ok low high (item-IsItem 8 2 (omega arith) (omega arith)))
      (minimal_bound-IsBound low high (item-IsItem 8 2 (omega arith) (omega arith)))
      (minimal_bound-Separates low high (item-IsItem 3 1 (omega arith) (omega arith))
        (item-IsItem 8 2 (omega arith) (omega arith)) low-lt-high)

item_order_example :
    (item_lt low low ≡ false)
    × ((item_lt low high ≡ true) ⊎ ((item_lt high low ≡ true) ⊎ (low ≡ high)))
    × (item_le low high ≡ not (item_lt high low))
    × ((item_eq low high ≡ true) ↔ (low ≡ high))
item_order_example = item_order low high
