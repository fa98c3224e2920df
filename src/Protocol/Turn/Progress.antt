-- ===== src/Protocol/Turn/Progress.antt =====
-- One turn of the message loop over a storage that keeps its contract: it throws for a malformed
-- message only, takes bytes from the query, and keeps to the frame size limit.
use negentropy.Prelude.{
  ℕ, zero, suc, ◌+◌, ◌-◌, ◌≤◌, ◌≡◌, refl, ap, ◌∙◌, Bool, true, false, Bytes, List, ◌++◌, length,
  length-append, slice, length-slice, arith, ◌==◌, Bool-cases, inl, inr, max_u64,
}
use negentropy.Prelude.Results.{Result, ok, err, Outcome, Outcome-bind}
use negentropy.Encoding.{decode_var_int, encode_var_int}
use negentropy.Encoding.Varint.{length-encode_var_int_small}
use negentropy.Types.{Item, Bound, bound_at, mode_of}
use negentropy.Storage.{Storage, Presents, count_below}
use negentropy.Storage.Sorted.{count_below-le}
use negentropy.Accumulator.{accum_from, zero_accum, get_fingerprint, length-get_fingerprint}
use negentropy.Protocol.Wire.{decode_bound, encode_bound}
use negentropy.Protocol.Wire.Size.{
  length-encode_bound, decode_var_int-Outcome, decode_bound-Outcome,
}
use negentropy.Protocol.Turn.{
  Params, Vars, Turned, exceeded_frame_size_limit, turn_mode, finish_turn, turn, turns,
}
use negentropy.Protocol.Turn.Respond.{IsLimit, not_exceeded}
use negentropy.Protocol.Turn.Branches.{IsReady, IsTurned, turn_mode-IsTurned}

module _ (sha256 : Bytes → Bytes) (full_hash : (m : Bytes) → length (sha256 m) ≡ 32) (s : Storage)
    (xs : List Item) (p : Presents sha256 s xs) (c : Params)
    (sized : c.storage_size ≡ length xs) where
  -- the end of a turn
  pub record IsFinished (q : ℕ) (f : Vars × Bool) : Type 0 where
    pub taken : length f.0.query ≤ q
    pub ready : f.1 ≡ true → IsReady xs c f.0
    pub within : IsLimit c.frame_size_limit → length f.0.full_output ≤ c.frame_size_limit

  finish_turn-IsFinished :
      (b : Bound) (q : ℕ) (t : Turned)
      → b.id_len ≤ 32
      → IsTurned xs c q t
      → Outcome (IsFinished q) (finish_turn s c b t)
  unfolding finish_turn
  finish_turn-IsFinished b q t hb h =
      elim (Bool-cases
        (exceeded_frame_size_limit c.frame_size_limit (length t.vars.full_output + length t.o))) [
          | inl full ↦ rw full (
              rw remaining (record {
                taken = h.taken;
                ready = λ e. cc;
                within = λ l. omega (
                  arith,
                  length-append (t.vars.full_output ++ bound ++ encode_var_int 1) digest,
                  length-append (t.vars.full_output ++ bound) (encode_var_int 1),
                  length-append t.vars.full_output bound,
                  length-encode_bound t.vars.last_out (bound_at max_u64) (omega arith),
                  length-encode_var_int_small 1,
                  length-get_fingerprint sha256 full_hash
                      (accum_from zero_accum (slice t.upper (length xs) xs)) (length xs - t.upper),
                  h.room l,
                );
              }))
          | inr free ↦ rw free (record {
            taken = h.taken;
            ready = λ e. record {
              index = h.inside;
              prefix = hb;
              room = λ l. omega (
                arith,
                not_exceeded c.frame_size_limit _ l free,
                length-append t.vars.full_output t.o,
              );
            };
            within = λ l. omega (
              arith,
              not_exceeded c.frame_size_limit _ l free,
              length-append t.vars.full_output t.o,
            );
          })
        ]
    where
      digest : Bytes
      digest =
          get_fingerprint sha256 (accum_from zero_accum (slice t.upper (length xs) xs))
            (length xs - t.upper)

      bound : Bytes
      bound = (encode_bound t.vars.last_out (bound_at max_u64)).0

      remaining : s.fingerprint t.upper c.storage_size ≡ ok digest
      remaining =
          ap (s.fingerprint t.upper) sized
          ∙ p.fingerprint_lem t.upper (length xs) h.inside (omega arith)

  sooner :
      (a b : ℕ) (m : Result (Vars × Bool))
      → a ≤ b
      → Outcome (IsFinished a) m
      → Outcome (IsFinished b) m
  sooner a b (ok f) le h = record {
    taken = omega (arith, h.taken);
    ready = h.ready;
    within = h.within;
  }
  sooner a b (err e) le h = h

  -- A turn takes at least one byte of the query, and leaves the variables ready for the next turn.
  pub turn-IsFinished :
      (r : Vars) (q : ℕ)
      → IsReady xs c r
      → length r.query ≤ suc q
      → Outcome (IsFinished q) (turn s c r)
  unfolding turn
  turn-IsFinished r q i size =
      Outcome-bind _ _ (decode_bound r.last_in r.query) _ (decode_bound-Outcome r.last_in r.query)
        λ d hd. Outcome-bind _ _ (decode_var_int d.2) _ (decode_var_int-Outcome d.2) λ m hm.
          rw (found d.0) (
            Outcome-bind _ _
              (turn_mode s c (mode_of m.0) d.0 r.prev_index (upper d.0) (vars d.1 m.1)) _
              (turn_mode-IsTurned sha256 full_hash s xs p c sized (mode_of m.0) d.0 r.prev_index
                (upper d.0) (vars d.1 m.1) (ready d.1 m.1) hd.0 (omega arith) (inside d.0))
              λ t ht.
                sooner (length m.1) q _ (omega arith)
                  (finish_turn-IsFinished d.0 (length m.1) t hd.0 ht))
    where
      rest : List Item
      rest = slice r.prev_index (length xs) xs

      upper : Bound → ℕ
      upper b = r.prev_index + count_below b.item rest

      inside : (b : Bound) → upper b ≤ length xs
      inside b = omega (
        arith,
        count_below-le b.item rest,
        length-slice r.prev_index (length xs) xs i.index,
        i.index,
      )

      found : (b : Bound) → s.find_lower_bound r.prev_index c.storage_size b ≡ ok (upper b)
      found b =
          ap (λ (n : ℕ). s.find_lower_bound r.prev_index n b) sized
          ∙ p.find_lower_bound_lem r.prev_index (length xs) b i.index (omega arith)

      vars : ℕ → Bytes → Vars
      vars last query = record r { query = query; last_in = last }

      ready : (last : ℕ) (query : Bytes) → IsReady xs c (vars last query)
      ready last query = record { index = i.index; prefix = i.prefix; room = i.room }

  -- the output keeps to the limit
  abbrev pub KeepsLimit : Vars → Type 0
  KeepsLimit r = IsLimit c.frame_size_limit → length r.full_output ≤ c.frame_size_limit

  go_on :
      (fuel : ℕ) (f : Vars × Bool)
      → IsFinished fuel f
      → (IsReady xs c f.0 → length f.0.query ≤ fuel → Outcome KeepsLimit (turns s c fuel f.0))
      → Outcome KeepsLimit (elim (f.1) [ true ↦ turns s c fuel f.0 | false ↦ ok f.0 ])
  go_on fuel (r, true) h k = k (h.ready refl) h.taken
  go_on fuel (r, false) h k = h.within

  -- With fuel for each byte of the query the loop ends by itself.
  pub turns-KeepsLimit :
      (fuel : ℕ) (r : Vars)
      → IsReady xs c r
      → length r.query ≤ fuel
      → Outcome KeepsLimit (turns s c fuel r)
  unfolding turns
  turns-KeepsLimit zero r i h = rw (none_left (length r.query) h) (λ l. omega (arith, i.room l))
    where
      none_left : (n : ℕ) → n ≤ 0 → (n == 0) ≡ true
      none_left n le = ground arith
  turns-KeepsLimit (suc fuel) r i h = elim (Bool-cases (length r.query == 0)) [
    | inl over ↦ rw over (λ l. omega (arith, i.room l))
    | inr more ↦ rw more (
        Outcome-bind (IsFinished fuel) KeepsLimit (turn s c r) _ (turn-IsFinished r fuel i h)
          λ f hf. go_on fuel f hf (turns-KeepsLimit fuel f.0))
  ]
