-- ===== src/Protocol/Turn.antt =====
-- cpp/negentropy.h, the body of the loop in `reconcileAux`. Each branch of the code's `if` on the mode
-- is a function; the local variables of the loop, and what it changes in the object, are a record.
use negentropy.Prelude.{
  ℕ, zero, suc, ◌+◌, Bool, true, false, not, ◌&&◌, Bytes, sub_u64, max_u64, List, [], ◌∷◌, ◌++◌,
  length, ltb, ◌==◌, if◌then◌else◌, Option, some, none,
}
use negentropy.Prelude.Results.{Result, ok, err, Error, ◌>>=◌}
use negentropy.Encoding.{get_bytes, decode_var_int, encode_var_int}
use negentropy.Types.{
  Item, Bound, bound_at, bound_of_item, Mode, mode_code, mode_of, bytes_eq, id_size,
  fingerprint_size,
}
use negentropy.Storage.{Storage}
use negentropy.Protocol.Wire.{decode_bound, encode_bound}
use negentropy.Protocol.Split.{split_range}
pub mod Ids
pub mod Respond
pub mod Branches
pub mod Progress

-- What does not change during a message: the members of the object, and `storageSize`.
pub record Params : Type 0 where
  pub frame_size_limit : ℕ
  pub is_initiator : Bool
  pub storage_size : ℕ

-- The variables of the loop, `lastTimestampIn`, `lastTimestampOut` and the two output vectors.
pub record Vars : Type 0 where
  pub query : Bytes
  pub full_output : Bytes
  pub prev_bound : Bound
  pub prev_index : ℕ
  pub skip : Bool
  pub last_in : ℕ
  pub last_out : ℕ
  pub have_ids : List Bytes
  pub need_ids : List Bytes

-- What a branch leaves for the end of the turn: the variables, `o` and `upper`.
pub record Turned : Type 0 where
  pub vars : Vars
  pub o : Bytes
  pub upper : ℕ

unfoldable pub exceeded_frame_size_limit : ℕ → ℕ → Bool
exceeded_frame_size_limit limit n = not (limit == 0) && ltb (sub_u64 limit 200) n

-- `doSkip`, with `o` empty before
unfoldable pub do_skip : Vars → Vars × Bytes
do_skip r =
    let e = encode_bound r.last_out r.prev_bound in
    if r.skip
    then (record r { skip = false; last_out = e.1 }, e.0 ++ encode_var_int (mode_code Mode.skip))
    else (r, [])

-- `std::unordered_set<std::string>` as a list without repetitions. The order in which C++ walks the
-- set is not specified; here it is the order of arrival.
unfoldable pub contains : Bytes → List Bytes → Bool
contains k [] = false
contains k (e ∷ es) = if bytes_eq e k then true else contains k es

unfoldable pub insert_elem : Bytes → List Bytes → List Bytes
insert_elem e es = if contains e es then es else es ++ (e ∷ [])

unfoldable pub erase_elem : Bytes → List Bytes → List Bytes
erase_elem k [] = []
erase_elem k (e ∷ es) = if bytes_eq e k then es else e ∷ erase_elem k es

-- `for (i = 0; i < numIds; i++)`: the rest of the input and `theirElems`
pub read_ids : Bool → ℕ → Bytes → List Bytes → Result (Bytes × List Bytes)
read_ids is_initiator zero query elems = ok (query, elems)
read_ids is_initiator (suc n) query elems = do
  (e, rest) ← get_bytes query id_size
  read_ids is_initiator n rest (if is_initiator then insert_elem e elems else elems)

-- the callback of the initiator, over `theirElems` and `haveIds`
abbrev pub match_id : Item → ℕ → List Bytes × List Bytes → (List Bytes × List Bytes) × Bool
match_id it _ st = (
  (if contains it.id st.0 then (erase_elem it.id st.0, st.1) else (st.0, st.1 ++ (it.id ∷ []))),
  true,
)

-- what the callback of the responder changes
pub record Response : Type 0 where
  pub ids : Bytes
  pub count : ℕ
  pub end_bound : Bound
  pub upper : ℕ

abbrev pub respond_id : ℕ → ℕ → Item → ℕ → Response → Response × Bool
respond_id limit written it index st =
    if exceeded_frame_size_limit limit (written + length st.ids)
    then (record st { end_bound = bound_of_item it; upper = index }, false)
    else (record st { ids = st.ids ++ it.id; count = st.count + 1 }, true)

module _ (s : Storage) (p : Params) where
  pub turn_fingerprint : Bound → (lower upper : ℕ) → Vars → Result Turned
  turn_fingerprint curr_bound lower upper r = do
    (theirs, query) ← get_bytes r.query fingerprint_size
    ours ← s.fingerprint lower upper
    let r' = record r { query = query }
    if bytes_eq theirs ours
        then ok (record { vars = record r' { skip = true }; o = []; upper = upper })
        else do
          let d = do_skip r'
          (o, last) ← split_range s d.0.last_out lower upper curr_bound
          ok (record { vars = record (d.0) { last_out = last }; o = d.1 ++ o; upper = upper })

  pub turn_ids_initiator : (lower upper : ℕ) → List Bytes → Vars → Result Turned
  turn_ids_initiator lower upper elems r = do
    (elems', have) ← s.iterate (List Bytes × List Bytes) match_id lower upper (elems, r.have_ids)
    ok (record {
      vars = record r { skip = true; have_ids = have; need_ids = r.need_ids ++ elems' };
      o = [];
      upper = upper;
    })

  pub turn_ids_responder : Bound → (lower upper : ℕ) → Vars → Result Turned
  turn_ids_responder curr_bound lower upper r = do
    let d = do_skip r
    st ←
        s.iterate Response (respond_id p.frame_size_limit (length r.full_output)) lower upper
          (record { ids = []; count = 0; end_bound = curr_bound; upper = upper })
    let e = encode_bound d.0.last_out st.end_bound
    let o =
        d.1 ++ e.0 ++ encode_var_int (mode_code Mode.id_list) ++ encode_var_int st.count ++ st.ids
    ok (record {
      vars = record (d.0) { last_out = e.1; full_output = r.full_output ++ o };
      o = [];
      upper = st.upper;
    })

  pub turn_ids : Bound → (lower upper : ℕ) → Vars → Result Turned
  turn_ids curr_bound lower upper r = do
    (num_ids, query) ← decode_var_int r.query
    (query', elems) ← read_ids p.is_initiator num_ids query []
    let r' = record r { query = query' }
    if p.is_initiator
        then turn_ids_initiator lower upper elems r'
        else turn_ids_responder curr_bound lower upper r'

  pub turn_mode : Option Mode → Bound → (lower upper : ℕ) → Vars → Result Turned
  turn_mode none curr_bound lower upper r = err Error.unexpected_mode
  turn_mode (some Mode.skip) curr_bound lower upper r =
      ok (record { vars = record r { skip = true }; o = []; upper = upper })
  turn_mode (some Mode.fingerprint) curr_bound lower upper r =
      turn_fingerprint curr_bound lower upper r
  turn_mode (some Mode.id_list) curr_bound lower upper r = turn_ids curr_bound lower upper r

  -- the end of the turn, and whether the loop goes on
  pub finish_turn : Bound → Turned → Result (Vars × Bool)
  finish_turn curr_bound t =
      if exceeded_frame_size_limit p.frame_size_limit (length t.vars.full_output + length t.o)
      then (do
        remaining ← s.fingerprint t.upper p.storage_size
        let e = encode_bound t.vars.last_out (bound_at max_u64)
        ok (
          record (t.vars) {
            full_output =
                t.vars.full_output
                ++ e.0
                ++ encode_var_int (mode_code Mode.fingerprint)
                ++ remaining;
            last_out = e.1;
          },
          false,
        ))
      else ok (
        record (t.vars) {
          full_output = t.vars.full_output ++ t.o;
          prev_index = t.upper;
          prev_bound = curr_bound;
        },
        true,
      )

  pub turn : Vars → Result (Vars × Bool)
  turn r = do
    (curr_bound, last_in, query) ← decode_bound r.last_in r.query
    (mode, query') ← decode_var_int query
    upper ← s.find_lower_bound r.prev_index p.storage_size curr_bound
    t ←
        turn_mode (mode_of mode) curr_bound r.prev_index upper
          (record r { query = query'; last_in = last_in })
    finish_turn curr_bound t

  -- `while (query.size())`: each turn takes bytes from the query, so its length is fuel enough
  pub turns : ℕ → Vars → Result Vars
  turns zero r = if length r.query == 0 then ok r else err Error.out_of_fuel
  turns (suc fuel) r =
      if length r.query == 0
      then ok r
      else do (r', more) ← turn r; elim more [ true ↦ turns fuel r' | false ↦ ok r' ]
