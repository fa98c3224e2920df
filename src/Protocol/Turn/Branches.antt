-- ===== src/Protocol/Turn/Branches.antt =====
-- The branches of one turn of the message loop over a storage that keeps its contract: each throws for a
-- malformed message only, and leaves room for the fingerprint of the remaining range.
use negentropy.Prelude.{
  ℕ, zero, suc, ◌+◌, ◌-◌, ◌≤◌, ◌≡◌, ap, Bool, true, false, Bytes, List, [], ◌++◌, length,
  length-append, slice, length-slice, arith, if◌then◌else◌, Bool-cases, inl, inr, Option, some,
  none, lt-or-le,
}
use negentropy.Prelude.Results.{Result, ok, err, Outcome, Outcome-bind, ◌>>=◌}
use negentropy.Encoding.{get_bytes, decode_var_int, encode_var_int}
use negentropy.Encoding.Varint.{length-encode_var_int, length-encode_var_int_small}
use negentropy.Types.{Item, Bound, IsItem, Mode, bytes_eq}
use negentropy.Storage.{Storage, Presents, walk}
use negentropy.Accumulator.{accum_from, zero_accum, get_fingerprint}
use negentropy.Accumulator.Limbs.{All-take, All-drop}
use negentropy.Protocol.Wire.{encode_bound}
use negentropy.Protocol.Wire.Size.{length-encode_bound, decode_var_int-Outcome, get_bytes-Outcome}
use negentropy.Protocol.Split.{split_range}
use negentropy.Protocol.Split.Ranges.{split_range-Tiles, split_range_ids}
use negentropy.Protocol.Turn.{
  Params, Vars, Turned, Response, do_skip, read_ids, match_id, respond_id, turn_fingerprint,
  turn_ids_initiator, turn_ids_responder, turn_ids, turn_mode,
}
use negentropy.Protocol.Turn.Respond.{IsLimit, IsWithin, walk-respond}

do_skip_lem :
    (r : Vars)
    → r.prev_bound.id_len ≤ 32
    → ((do_skip r).0.query ≡ r.query)
      × ((do_skip r).0.full_output ≡ r.full_output)
      × (length (do_skip r).1 ≤ 44)
unfolding do_skip
do_skip_lem r h = ground (
  arith,
  length-encode_bound r.last_out r.prev_bound h,
  length-append (encode_bound r.last_out r.prev_bound).0 (encode_var_int 0),
  length-encode_var_int_small 0,
)

shorter-Outcome :
    (a b : ℕ) (m : Result (Bytes × List Bytes))
    → a ≤ b
    → Outcome (λ r. length r.0 ≤ a) m
    → Outcome (λ r. length r.0 ≤ b) m
shorter-Outcome a b (ok r) le h = omega arith
shorter-Outcome a b (err e) le h = h

read_ids-Outcome :
    (init : Bool) (n : ℕ) (q : Bytes) (elems : List Bytes)
    → Outcome (λ r. length r.0 ≤ length q) (read_ids init n q elems)
unfolding read_ids
read_ids-Outcome init zero q elems = omega arith
read_ids-Outcome init (suc n) q elems =
    Outcome-bind _ _ (get_bytes q 32) _ (get_bytes-Outcome q 32) λ e he.
      shorter-Outcome (length e.1) (length q) _ (omega arith) (read_ids-Outcome init n e.1 _)

branch {ℓ} :
    {A : Type ℓ} (P : A → Type 0) (b : Bool) (m n : Result A)
    → Outcome P m
    → Outcome P n
    → Outcome P (if b then m else n)
branch P true m n h k = h
branch P false m n h k = k

module _ (xs : List Item) (c : Params) where
  -- what holds of the variables before a turn
  pub record IsReady (r : Vars) : Type 0 where
    pub index : r.prev_index ≤ length xs
    pub prefix : r.prev_bound.id_len ≤ 32
    pub room : IsLimit c.frame_size_limit → length r.full_output + 200 ≤ c.frame_size_limit

  -- what a branch leaves: `q` is the length of the query before it
  pub record IsTurned (q : ℕ) (t : Turned) : Type 0 where
    pub inside : t.upper ≤ length xs
    pub taken : length t.vars.query ≤ q
    pub room : IsLimit c.frame_size_limit → length t.vars.full_output + 70 ≤ c.frame_size_limit

module _ (sha256 : Bytes → Bytes) (full_hash : (m : Bytes) → length (sha256 m) ≡ 32) (s : Storage)
    (xs : List Item) (p : Presents sha256 s xs) (c : Params)
    (sized : c.storage_size ≡ length xs) where
  split_range_total :
      (last lower upper : ℕ) (ub : Bound)
      → lower ≤ upper
      → upper ≤ length xs
      → (r : Bytes × ℕ) × (split_range s last lower upper ub ≡ ok r)
  split_range_total last lower upper ub h k = elim (lt-or-le upper (lower + 32)) [
    | inl few ↦ (_, split_range_ids sha256 s xs p last lower upper ub h few k)
    | inr many ↦
        let (rs, e, _, _) = split_range-Tiles sha256 s xs p last lower upper ub many k in (_, e)
  ]

  turn_fingerprint-IsTurned :
      (b : Bound) (lower upper : ℕ) (r : Vars)
      → IsReady xs c r
      → lower ≤ upper
      → upper ≤ length xs
      → Outcome (IsTurned xs c (length r.query)) (turn_fingerprint s c b lower upper r)
  unfolding turn_fingerprint
  turn_fingerprint-IsTurned b lower upper r i h k =
      Outcome-bind _ _ (get_bytes r.query 16) _ (get_bytes-Outcome r.query 16) λ g hg.
        rw (p.fingerprint_lem lower upper h k) (elim (Bool-cases (bytes_eq g.0 ours)) [
          | inl same ↦
              rw same
                (record { inside = k; taken = omega arith; room = λ l. omega (arith, i.room l) })
          | inr other ↦ rw other (answered g (omega arith))
        ])
    where
      ours : Bytes
      ours = get_fingerprint sha256 (accum_from zero_accum (slice lower upper xs)) (upper - lower)

      answered :
          (g : Bytes × Bytes)
          → length g.1 ≤ length r.query
          → Outcome (IsTurned xs c (length r.query)) (
              split_range s (do_skip (record r { query = g.1 })).0.last_out lower upper b >>= λ e.
              ok (record {
                vars = record ((do_skip (record r { query = g.1 })).0) { last_out = e.1 };
                o = (do_skip (record r { query = g.1 })).1 ++ e.0;
                upper = upper;
              }))
      answered g short =
          let r' : Vars = record r { query = g.1 } in
          let (e, split) = split_range_total (do_skip r').0.last_out lower upper b h k in
          let (kept, same, _) = do_skip_lem r' i.prefix in
          rw split (record {
            inside = k;
            taken = omega (arith, ap length kept);
            room = λ l. omega (arith, i.room l, ap length same);
          })

  turn_ids_initiator-IsTurned :
      (lower upper : ℕ) (elems : List Bytes) (r : Vars)
      → IsReady xs c r
      → lower ≤ upper
      → upper ≤ length xs
      → Outcome (IsTurned xs c (length r.query)) (turn_ids_initiator s c lower upper elems r)
  unfolding turn_ids_initiator
  turn_ids_initiator-IsTurned lower upper elems r i h k =
      rw (p.iterate_lem (List Bytes × List Bytes) match_id lower upper (elems, r.have_ids) h k)
        (record { inside = k; taken = omega arith; room = λ l. omega (arith, i.room l) })

  turn_ids_responder-IsTurned :
      (b : Bound) (lower upper : ℕ) (r : Vars)
      → IsReady xs c r
      → b.id_len ≤ 32
      → lower ≤ upper
      → upper ≤ length xs
      → Outcome (IsTurned xs c (length r.query)) (turn_ids_responder s c b lower upper r)
  unfolding turn_ids_responder
  turn_ids_responder-IsTurned b lower upper r i hb h k =
      rw
        (p.iterate_lem Response (respond_id c.frame_size_limit (length r.full_output)) lower upper
          start h k)
        (record {
          inside = w.inside;
          taken = omega (arith, ap length (do_skip_lem r i.prefix).0);
          room = λ l. omega (
            arith,
            length-append r.full_output
                (skipped ++ bound ++ encode_var_int 2 ++ encode_var_int st.count ++ st.ids),
            length-append (skipped ++ bound ++ encode_var_int 2 ++ encode_var_int st.count) st.ids,
            length-append (skipped ++ bound ++ encode_var_int 2) (encode_var_int st.count),
            length-append (skipped ++ bound) (encode_var_int 2),
            length-append skipped bound,
            (do_skip_lem r i.prefix).2,
            length-encode_bound (do_skip r).0.last_out st.end_bound w.prefix,
            length-encode_var_int_small 2,
            length-encode_var_int st.count (omega (arith, w.counted, p.size_fits)),
            w.room l,
          );
        })
    where
      start : Response
      start = record { ids = []; count = 0; end_bound = b; upper = upper }

      st : Response
      st =
          walk (respond_id c.frame_size_limit (length r.full_output)) lower (slice lower upper xs)
            start

      w : IsWithin c.frame_size_limit (length r.full_output) (length xs) (length xs) st
      w =
          walk-respond c.frame_size_limit (length r.full_output) (length xs) lower
            (slice lower upper xs) start (All-take IsItem _ _ (All-drop IsItem lower xs p.valid))
            (omega (arith, length-slice lower upper xs h k))
            (record {
              counted = omega arith;
              prefix = hb;
              inside = k;
              room = λ l. omega (arith, i.room l);
            })

      skipped : Bytes
      skipped = (do_skip r).1

      bound : Bytes
      bound = (encode_bound (do_skip r).0.last_out st.end_bound).0

  longer :
      (a b : ℕ) (m : Result Turned)
      → a ≤ b
      → Outcome (IsTurned xs c a) m
      → Outcome (IsTurned xs c b) m
  longer a b (ok t) le h = record {
    inside = h.inside;
    taken = omega (arith, h.taken);
    room = h.room;
  }
  longer a b (err e) le h = h

  turn_ids-IsTurned :
      (b : Bound) (lower upper : ℕ) (r : Vars)
      → IsReady xs c r
      → b.id_len ≤ 32
      → lower ≤ upper
      → upper ≤ length xs
      → Outcome (IsTurned xs c (length r.query)) (turn_ids s c b lower upper r)
  unfolding turn_ids
  turn_ids-IsTurned b lower upper r i hb h k =
      Outcome-bind _ _ (decode_var_int r.query) _ (decode_var_int-Outcome r.query) λ n hn.
        Outcome-bind _ _ (read_ids c.is_initiator n.0 n.1 []) _
          (read_ids-Outcome c.is_initiator n.0 n.1 [])
          λ e he. longer (length e.0) (length r.query) _ (omega arith) (both e)
    where
      ready : (q : Bytes) → IsReady xs c (record r { query = q })
      ready q = record { index = i.index; prefix = i.prefix; room = i.room }

      both :
          (e : Bytes × List Bytes)
          → Outcome (IsTurned xs c (length e.0)) (
              if c.is_initiator
              then turn_ids_initiator s c lower upper e.1 (record r { query = e.0 })
              else turn_ids_responder s c b lower upper (record r { query = e.0 }))
      both e =
          branch _ c.is_initiator _ _
            (turn_ids_initiator-IsTurned lower upper e.1 (record r { query = e.0 }) (ready e.0) h k)
            (turn_ids_responder-IsTurned b lower upper (record r { query = e.0 }) (ready e.0) hb h
              k)

  pub turn_mode-IsTurned :
      (m : Option Mode) (b : Bound) (lower upper : ℕ) (r : Vars)
      → IsReady xs c r
      → b.id_len ≤ 32
      → lower ≤ upper
      → upper ≤ length xs
      → Outcome (IsTurned xs c (length r.query)) (turn_mode s c m b lower upper r)
  unfolding turn_mode
  turn_mode-IsTurned none b lower upper r i hb h k = tt
  turn_mode-IsTurned (some Mode.skip) b lower upper r i hb h k = record {
    inside = k;
    taken = omega arith;
    room = λ l. omega (arith, i.room l);
  }
  turn_mode-IsTurned (some Mode.fingerprint) b lower upper r i hb h k =
      turn_fingerprint-IsTurned b lower upper r i h k
  turn_mode-IsTurned (some Mode.id_list) b lower upper r i hb h k =
      turn_ids-IsTurned b lower upper r i hb h k
