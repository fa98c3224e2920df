-- ===== src/Protocol/Session.antt =====
-- cpp/negentropy.h, the public operations of `Negentropy`: the constructor, `initiate`,
-- `setInitiator` and both forms of `reconcile`, with `reconcileAux`. An exception is modelled by its
-- text; what it leaves of the object is not.
use negentropy.Prelude.{
  ℕ, Bool, true, false, not, ◌&&◌, ◌||◌, Bytes, max_u64, List, [], ◌∷◌, ◌++◌, length, ltb, ◌==◌,
  if◌then◌else◌, Option, some, none,
}
use negentropy.Prelude.Results.{Result, ok, err, Error, ◌>>=◌, ◌>>◌, guard}
use negentropy.Encoding.{get_byte}
use negentropy.Types.{bound_at}
use negentropy.Storage.{Storage}
use negentropy.Protocol.Split.{split_range}
use negentropy.Protocol.Turn.{Params, Vars, turns}
pub mod Replies
pub mod Opening

abbrev pub protocol_version : ℕ
protocol_version = 0x61

-- the members besides the storage
pub record Negentropy : Type 0 where
  pub frame_size_limit : ℕ
  pub is_initiator : Bool
  pub last_in : ℕ
  pub last_out : ℕ

pub make_negentropy : ℕ → Result Negentropy
make_negentropy limit =
    if not (limit == 0) && ltb limit 4096
    then err Error.frame_limit_small
    else ok (record { frame_size_limit = limit; is_initiator = false; last_in = 0; last_out = 0 })

abbrev pub set_initiator : Negentropy → Negentropy
set_initiator n = record n { is_initiator = true }

module _ (s : Storage) where
  pub initiate : Negentropy → Result (Bytes × Negentropy)
  initiate n = if n.is_initiator then err Error.already_initiated else do
    size ← s.size
    (o, last) ← split_range s n.last_out 0 size (bound_at max_u64)
    ok (protocol_version ∷ o, record n { is_initiator = true; last_out = last })

  -- the variables before the loop
  abbrev pub start_vars : Bytes → List Bytes → List Bytes → Vars
  start_vars query have need = record {
    query = query;
    full_output = protocol_version ∷ [];
    prev_bound = bound_at 0;
    prev_index = 0;
    skip = false;
    last_in = 0;
    last_out = 0;
    have_ids = have;
    need_ids = need;
  }

  pub run_turns : Negentropy → Bytes → List Bytes → List Bytes → Result Vars
  run_turns n query have need = do
    size ← s.size
    turns s
        (record {
          frame_size_limit = n.frame_size_limit;
          is_initiator = n.is_initiator;
          storage_size = size;
        })
        (length query) (start_vars query have need)

  -- The variables at the end: `full_output` is the result.
  pub reconcile_aux : Negentropy → Bytes → List Bytes → List Bytes → Result Vars
  reconcile_aux n query have need = do
    (version, rest) ← get_byte query
    guard (not (ltb version 0x60 || ltb 0x6f version)) Error.bad_version
    if version == protocol_version
        then run_turns n rest have need
        else if n.is_initiator
        then err Error.unsupported_version
        else ok (start_vars rest have need)

  abbrev pub after : Negentropy → Vars → Negentropy
  after n r = record n { last_in = r.last_in; last_out = r.last_out }

  -- `reconcile(query)`
  pub reconcile : Negentropy → Bytes → Result (Bytes × Negentropy)
  reconcile n query =
      if n.is_initiator
      then err Error.not_asking
      else do r ← reconcile_aux n query [] []; ok (r.full_output, after n r)

  -- `reconcile(query, haveIds, needIds)`
  pub reconcile_with_ids :
      Negentropy
      → Bytes
      → List Bytes
      → List Bytes
      → Result (Option Bytes × List Bytes × List Bytes × Negentropy)
  reconcile_with_ids n query have need = if not n.is_initiator then err Error.asking else do
    r ← reconcile_aux n query have need
    ok (
      (if length r.full_output == 1 then none else some r.full_output),
      r.have_ids,
      r.need_ids,
      after n r,
    )
