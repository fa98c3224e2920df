-- ===== src/Protocol/Session/Replies.antt =====
-- The public operations on any message.
use negentropy.Prelude.{
  ℕ, ◌≤◌, ◌<◌, ◌≡◌, refl, ap, true, false, not, ◌&&◌, ◌||◌, Bytes, IsU64, List, [], length, arith,
  ltb, ◌==◌, if◌then◌else◌, ◌⊎◌, inl, inr, Option, some, none, Bool-cases,
}
use negentropy.Prelude.Results.{ok, err, Error, Outcome, Outcome-bind, Outcome-else}
use negentropy.Encoding.Parse.{get_byte-Outcome}
use negentropy.Types.{Item}
use negentropy.Storage.{Storage, Presents}
use negentropy.Protocol.Turn.{Params, Vars}
use negentropy.Protocol.Turn.Respond.{IsLimit}
use negentropy.Protocol.Turn.Progress.{turns-KeepsLimit}
use negentropy.Protocol.Session.{
  Negentropy, make_negentropy, start_vars, run_turns, reconcile_aux, reconcile, reconcile_with_ids,
}
use negentropy.Encoding.{get_byte}

-- The constructor admits no limit, or one of at least 4096 bytes, and nothing else.
pub make_negentropy_limits :
    (limit : ℕ)
    → IsU64 limit
    → ((n : Negentropy) × (make_negentropy limit ≡ ok n)
        × (n.frame_size_limit ≡ limit)
        × ((limit ≡ 0) ⊎ IsLimit limit))
      ⊎ ((make_negentropy limit ≡ err Error.frame_limit_small) × (0 < limit) × (limit < 4096))
unfolding make_negentropy
make_negentropy_limits limit u = elim (Bool-cases (not (limit == 0) && ltb limit 4096)) [
  | inl small ↦ inr (rw small, ground arith, ground arith)
  | inr fine ↦ inl (
    record { frame_size_limit = limit; is_initiator = false; last_in = 0; last_out = 0 },
    rw fine,
    refl,
    ground arith,
  )
]

-- what the constructor admits: no limit, or one of at least 4096 bytes
abbrev pub HasLimit : Negentropy → Type 0
HasLimit n = (n.frame_size_limit ≡ 0) ⊎ IsLimit n.frame_size_limit

abbrev pub WithinLimit : Negentropy → ℕ → Type 0
WithinLimit n size = (n.frame_size_limit ≡ 0) ⊎ (size ≤ n.frame_size_limit)

limited :
    (n : Negentropy) (size : ℕ)
    → HasLimit n
    → (IsLimit n.frame_size_limit → size ≤ n.frame_size_limit)
    → WithinLimit n size
limited n size (inl free) k = inl free
limited n size (inr l) k = inr (k l)

-- what the initiator sends next, empty if it has nothing to send
abbrev pub message : Option Bytes → Bytes
message none = []
message (some out) = out

module _ (sha256 : Bytes → Bytes) (full_hash : (m : Bytes) → length (sha256 m) ≡ 32) (s : Storage)
    (xs : List Item) (p : Presents sha256 s xs) where
  abbrev FitsLimit : Negentropy → Vars → Type 0
  FitsLimit n r = IsLimit n.frame_size_limit → length r.full_output ≤ n.frame_size_limit

  run_turns-FitsLimit :
      (n : Negentropy) (query : Bytes) (have need : List Bytes)
      → Outcome (FitsLimit n) (run_turns s n query have need)
  unfolding run_turns
  run_turns-FitsLimit n query have need =
      Outcome-bind (λ size. size ≡ length xs) (FitsLimit n) s.size _ sized
        λ size same.
          turns-KeepsLimit sha256 full_hash s xs p (params size) same (length query)
            (start_vars s query have need)
            (record { index = omega arith; prefix = omega arith; room = λ l. omega arith })
            (omega arith)
    where
      sized : Outcome (λ size. size ≡ length xs) s.size
      sized = rw p.size_lem refl

      params : ℕ → Params
      params size = record {
        frame_size_limit = n.frame_size_limit;
        is_initiator = n.is_initiator;
        storage_size = size;
      }

  reconcile_aux-FitsLimit :
      (n : Negentropy) (query : Bytes) (have need : List Bytes)
      → Outcome (FitsLimit n) (reconcile_aux s n query have need)
  unfolding reconcile_aux
  reconcile_aux-FitsLimit n query have need =
      Outcome-bind _ _ (get_byte query) _ (get_byte-Outcome query) λ v hv.
        elim (Bool-cases (ltb v.0 0x60 || ltb 0x6f v.0)) [
          | inl bad ↦ rw bad tt
          | inr fine ↦ rw fine (elim (Bool-cases (v.0 == 0x61)) [
            | inl one ↦ rw one (run_turns-FitsLimit n v.1 have need)
            | inr other ↦
                rw other
                  (elim (n.is_initiator)
                    as (λ b. Outcome (FitsLimit n) (
                      if b
                      then err Error.unsupported_version
                      else ok (start_vars s v.1 have need))) [
                        | true ↦ tt
                        | false ↦ λ l. omega arith
                      ])
          ])
        ]

  -- Whatever bytes the query holds, a responder over a storage that keeps its contract either answers,
  -- with at most `frame_size_limit` bytes if there is a limit, or throws one of the exceptions for a
  -- malformed message. In particular the loop ends and no range is out of bounds.
  pub reconcile-fits_limit :
      (n : Negentropy) (query : Bytes)
      → n.is_initiator ≡ false
      → HasLimit n
      → Outcome (λ r. WithinLimit n (length r.0)) (reconcile s n query)
  unfolding reconcile
  reconcile-fits_limit n query h l = Outcome-else _ n.is_initiator _ _ h (
      Outcome-bind (FitsLimit n) _ (reconcile_aux s n query [] []) _
        (reconcile_aux-FitsLimit n query [] []) λ r hr. limited n (length r.full_output) l hr)

  -- The same of the initiator, whose next message, if there is one, has at most `frame_size_limit`
  -- bytes if there is a limit.
  pub reconcile_with_ids-fits_limit :
      (n : Negentropy) (query : Bytes) (have need : List Bytes)
      → n.is_initiator ≡ true
      → HasLimit n
      → Outcome (λ r. WithinLimit n (length (message r.0))) (reconcile_with_ids s n query have need)
  unfolding reconcile_with_ids
  reconcile_with_ids-fits_limit n query have need h l =
      Outcome-else _ (not n.is_initiator) _ _ (ap not h) (
        Outcome-bind (FitsLimit n) _ (reconcile_aux s n query have need) _
          (reconcile_aux-FitsLimit n query have need)
          λ r hr. limited n _ l (λ k. next_message n r.full_output (hr k)))
    where
      next_message :
          (n : Negentropy) (full : Bytes)
          → length full ≤ n.frame_size_limit
          → length (message (if length full == 1 then none else some full)) ≤ n.frame_size_limit
      next_message n full k = ground arith
