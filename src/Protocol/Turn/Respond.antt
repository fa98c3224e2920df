-- ===== src/Protocol/Turn/Respond.antt =====
-- The frame size limit in the responder's walk over its items.
use negentropy.Prelude.{
  ℕ, suc, ◌+◌, ◌≤◌, ◌<◌, ◌≡◌, refl, false, IsU64, List, [], ◌∷◌, length, length-append, All, arith,
  sub_u64_lem, Bool-cases, inl, inr,
}
use negentropy.Types.{Item, IsItem}
use negentropy.Storage.{walk}
use negentropy.Protocol.Turn.{Response, respond_id, exceeded_frame_size_limit}

-- the limits that the constructor admits, but for "no limit"
abbrev pub IsLimit : ℕ → Type 0
IsLimit limit = (4096 ≤ limit) × IsU64 limit

pub not_exceeded :
    (limit n : ℕ) → IsLimit limit → exceeded_frame_size_limit limit n ≡ false → n + 200 ≤ limit
unfolding exceeded_frame_size_limit
not_exceeded limit n h e = ground (arith, sub_u64_lem limit 200)

-- No limit is never exceeded.
pub no_limit : (n : ℕ) → exceeded_frame_size_limit 0 n ≡ false
unfolding exceeded_frame_size_limit
no_limit n = refl

-- what holds of the response at item `i`, `written` bytes being written before it
pub record IsWithin (limit written size i : ℕ) (st : Response) : Type 0 where
  pub counted : st.count ≤ i
  pub prefix : st.end_bound.id_len ≤ 32
  pub inside : st.upper ≤ size
  pub room : IsLimit limit → written + length st.ids + 168 ≤ limit

respond_once :
    (limit written size i : ℕ) (it : Item) (st : Response)
    → IsItem it
    → i < size
    → IsWithin limit written size i st
    → IsWithin limit written size (suc i) (respond_id limit written it i st).0
respond_once limit written size i it st h lt w =
    elim (Bool-cases (exceeded_frame_size_limit limit (written + length st.ids))) [
      | inl full ↦ rw full (record {
        counted = omega (arith, w.counted);
        prefix = omega arith;
        inside = omega arith;
        room = w.room;
      })
      | inr free ↦ rw free (record {
        counted = omega (arith, w.counted);
        prefix = w.prefix;
        inside = w.inside;
        room = λ l. omega (
          arith,
          not_exceeded limit (written + length st.ids) l free,
          length-append st.ids it.id,
          h.id_full,
        );
      })
    ]

pub walk-respond :
    (limit written size i : ℕ) (its : List Item) (st : Response)
    → All IsItem its
    → i + length its ≤ size
    → IsWithin limit written size i st
    → IsWithin limit written size size (walk (respond_id limit written) i its st)
unfolding walk
walk-respond limit written size i [] st h k w = record {
  counted = omega (arith, w.counted);
  prefix = w.prefix;
  inside = w.inside;
  room = w.room;
}
walk-respond limit written size i (it ∷ its) st h k w =
    let w' = respond_once limit written size i it st h.0 (omega arith) w in
    let rest =
      walk-respond limit written size (suc i) its (respond_id limit written it i st).0 h.1
        (omega arith) w' in
    elim (Bool-cases ((respond_id limit written it i st).1)) [
      | inl on ↦ rw on rest
      | inr off ↦ rw off (record {
        counted = omega (arith, w'.counted);
        prefix = w'.prefix;
        inside = w'.inside;
        room = w'.room;
      })
    ]
