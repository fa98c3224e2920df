-- ===== src/Protocol/Turn/Ids.antt =====
-- The initiator's comparison of two lists of ids: what it reports is exactly the difference.
use negentropy.Prelude.{
  ℕ, zero, suc, ◌≤◌, ◌≡◌, refl, ap, ap₂, sym, ◌∙◌, Bool, true, false, Bytes, List, [], ◌∷◌, ◌++◌,
  append_assoc, append-nil, length, slice, arith, if◌then◌else◌, Bool-cases, inl, inr,
}
use negentropy.Prelude.Results.{Result, ok, >>=-eq-ok}
use negentropy.Encoding.{get_bytes}
use negentropy.Types.{Item, bytes_eq}
use negentropy.Types.Order.{bytes_eq_iff}
use negentropy.Storage.{Storage, Presents, walk}
use negentropy.Protocol.Turn.{
  Params, Vars, contains, insert_elem, erase_elem, read_ids, match_id, turn_ids_initiator,
}

-- a set: no element is there twice
abbrev pub NoRepeat : List Bytes → Type 0
NoRepeat [] = Unit
NoRepeat (e ∷ es) = (contains e es ≡ false) × NoRepeat es

unfoldable pub has_id : Bytes → List Item → Bool
has_id e [] = false
has_id e (it ∷ its) = if bytes_eq it.id e then true else has_id e its

abbrev pub DistinctIds : List Item → Type 0
DistinctIds [] = Unit
DistinctIds (it ∷ its) = (has_id it.id its ≡ false) × DistinctIds its

-- the ids of the items that are not among `elems`, in the order of the items
unfoldable pub ours_only : List Bytes → List Item → List Bytes
ours_only elems [] = []
ours_only elems (it ∷ its) =
    if contains it.id elems then ours_only elems its else it.id ∷ ours_only elems its

-- those of `elems` that are the id of no item
unfoldable pub theirs_only : List Item → List Bytes → List Bytes
theirs_only items [] = []
theirs_only items (e ∷ es) =
    if has_id e items then theirs_only items es else e ∷ theirs_only items es

contains-erase_elem :
    (j k : Bytes) (es : List Bytes)
    → bytes_eq j k ≡ false
    → contains k (erase_elem j es) ≡ contains k es
unfolding contains erase_elem
contains-erase_elem j k [] h = refl
contains-erase_elem j k (e ∷ es) h =
    ground
      (arith, contains-erase_elem j k es h, bytes_eq_iff e j, bytes_eq_iff e k, bytes_eq_iff j k)

contains-insert_elem :
    (e k : Bytes) (es : List Bytes)
    → bytes_eq e k ≡ false
    → contains k (es ++ (e ∷ [])) ≡ contains k es
unfolding contains
contains-insert_elem e k [] h = rw h
contains-insert_elem e k (x ∷ es) h = ground (arith, contains-insert_elem e k es h)

add-NoRepeat :
    (e : Bytes) (es : List Bytes) → contains e es ≡ false → NoRepeat es → NoRepeat (es ++ (e ∷ []))
unfolding contains
add-NoRepeat e [] h n = (refl, tt)
add-NoRepeat e (x ∷ es) h n = (
  contains-insert_elem e x es (ground (arith, bytes_eq_iff e x, bytes_eq_iff x e)) ∙ n.0,
  add-NoRepeat e es (ground arith) n.1,
)

pub insert_elem-NoRepeat : (e : Bytes) (es : List Bytes) → NoRepeat es → NoRepeat (insert_elem e es)
unfolding insert_elem
insert_elem-NoRepeat e es n = elim (Bool-cases (contains e es)) [
  | inl old ↦ rw old n
  | inr new ↦ rw new (add-NoRepeat e es new n)
]

-- erasing an id that is matched leaves the rest of the search as it was
ours_only-erase_elem :
    (j : Bytes) (es : List Bytes) (its : List Item)
    → has_id j its ≡ false
    → ours_only (erase_elem j es) its ≡ ours_only es its
unfolding ours_only has_id
ours_only-erase_elem j es [] h = refl
ours_only-erase_elem j es (it ∷ its) h = ground (
  arith,
  contains-erase_elem j it.id es,
  ours_only-erase_elem j es its,
  bytes_eq_iff it.id j,
  bytes_eq_iff j it.id,
)

theirs_only-absent :
    (it : Item) (its : List Item) (es : List Bytes)
    → contains it.id es ≡ false
    → theirs_only (it ∷ its) es ≡ theirs_only its es
unfolding theirs_only contains has_id
theirs_only-absent it its [] h = refl
theirs_only-absent it its (e ∷ es) h =
    ground (arith, theirs_only-absent it its es, bytes_eq_iff it.id e, bytes_eq_iff e it.id)

theirs_only-erase_elem :
    (it : Item) (its : List Item) (es : List Bytes)
    → NoRepeat es
    → theirs_only its (erase_elem it.id es) ≡ theirs_only (it ∷ its) es
unfolding erase_elem theirs_only has_id
theirs_only-erase_elem it its [] n = refl
theirs_only-erase_elem it its (e ∷ es) n = elim (Bool-cases (bytes_eq e it.id)) [
  | inl same ↦
      rw (same, turned e it.id same)
        (sym (
          theirs_only-absent it its es
            (ap (λ k. contains k es) (sym ((bytes_eq_iff e it.id).0 same)) ∙ n.0)))
  | inr other ↦
      rw (other, apart e it.id other) (ground (arith, theirs_only-erase_elem it its es n.1))
]
  where
    turned : (a b : Bytes) → bytes_eq a b ≡ true → bytes_eq b a ≡ true
    turned a b h = ground (arith, bytes_eq_iff a b, bytes_eq_iff b a)

    apart : (a b : Bytes) → bytes_eq a b ≡ false → bytes_eq b a ≡ false
    apart a b h = ground (arith, bytes_eq_iff a b, bytes_eq_iff b a)

erase_elem-NoRepeat : (j : Bytes) (es : List Bytes) → NoRepeat es → NoRepeat (erase_elem j es)
unfolding erase_elem
erase_elem-NoRepeat j [] n = tt
erase_elem-NoRepeat j (e ∷ es) n = elim (Bool-cases (bytes_eq e j)) [
  | inl same ↦ rw same n.1
  | inr other ↦ rw other (
    contains-erase_elem j e es (ground (arith, bytes_eq_iff e j, bytes_eq_iff j e)) ∙ n.0,
    erase_elem-NoRepeat j es n.1,
  )
]

theirs_only-none : (es : List Bytes) → theirs_only [] es ≡ es
unfolding theirs_only has_id
theirs_only-none [] = refl
theirs_only-none (e ∷ es) = ap (◌∷◌ e) (theirs_only-none es)

ours_only-nil : (es : List Bytes) → ours_only es [] ≡ []
unfolding ours_only
ours_only-nil es = refl

ours_only-matched :
    (es : List Bytes) (it : Item) (its : List Item)
    → contains it.id es ≡ true
    → ours_only es (it ∷ its) ≡ ours_only es its
unfolding ours_only
ours_only-matched es it its h = rw h

ours_only-unmatched :
    (es : List Bytes) (it : Item) (its : List Item)
    → contains it.id es ≡ false
    → ours_only es (it ∷ its) ≡ it.id ∷ ours_only es its
unfolding ours_only
ours_only-unmatched es it its h = rw h

walk-match_id :
    (i : ℕ) (its : List Item) (es have : List Bytes)
    → DistinctIds its
    → NoRepeat es
    → walk match_id i its (es, have) ≡ (theirs_only its es, have ++ ours_only es its)
unfolding walk
walk-match_id i [] es have d n =
    ap₂ (λ (u v : List Bytes). (u, v)) (sym (theirs_only-none es))
      (sym (append-nil have) ∙ ap (◌++◌ have) (sym (ours_only-nil es)))
walk-match_id i (it ∷ its) es have d n = elim (Bool-cases (contains it.id es)) [
  | inl both ↦ rw both (
      walk-match_id (suc i) its (erase_elem it.id es) have d.1 (erase_elem-NoRepeat it.id es n)
      ∙ ap₂ (λ (u v : List Bytes). (u, have ++ v)) (theirs_only-erase_elem it its es n)
          (ours_only-erase_elem it.id es its d.0 ∙ sym (ours_only-matched es it its both)))
  | inr ours ↦ rw ours (
      walk-match_id (suc i) its es (have ++ (it.id ∷ [])) d.1 n
      ∙ ap₂ (λ (u v : List Bytes). (u, v)) (sym (theirs_only-absent it its es ours))
          (append_assoc have (it.id ∷ []) (ours_only es its)
            ∙ ap (◌++◌ have) (sym (ours_only-unmatched es it its ours))))
]

read_ids-NoRepeat :
    (n : ℕ) (q : Bytes) (elems : List Bytes)
    → NoRepeat elems
    → (r : Bytes × List Bytes) → read_ids true n q elems ≡ ok r
    → NoRepeat r.1
unfolding read_ids
read_ids-NoRepeat zero q elems h r e = rw (unpacked e) at h
  where
    unpacked : ◌≡◌ {A = Result (Bytes × List Bytes)} (ok (q, elems)) (ok r) → elems ≡ r.1
    unpacked p = cc
read_ids-NoRepeat (suc n) q elems h r e =
    let (g, _, rest) = >>=-eq-ok (get_bytes q 32) _ e in
    read_ids-NoRepeat n g.1 (insert_elem g.0 elems) (insert_elem-NoRepeat g.0 elems h) r rest

-- On an id list the initiator adds to `haveIds` exactly the ids of its items in the range that the
-- list lacks, in order, and to `needIds` exactly the ids of the list that are of none of its items in
-- the range; it writes nothing, and marks the range to be skipped. This holds if no two of the items
-- share an id, and the set holds no id twice, as any set that was read does.
pub turn_ids_initiator_exact :
    (sha256 : Bytes → Bytes) (s : Storage) (xs : List Item) (p : Presents sha256 s xs) (c : Params)
    (lower upper : ℕ) (elems : List Bytes) (r : Vars)
    → lower ≤ upper
    → upper ≤ length xs
    → DistinctIds (slice lower upper xs)
    → NoRepeat elems
    → turn_ids_initiator s c lower upper elems r
      ≡ ok (record {
        vars = record r {
          skip = true;
          have_ids = r.have_ids ++ ours_only elems (slice lower upper xs);
          need_ids = r.need_ids ++ theirs_only (slice lower upper xs) elems;
        };
        o = [];
        upper = upper;
      })
unfolding turn_ids_initiator
turn_ids_initiator_exact sha256 s xs p c lower upper elems r h k d n =
    rw (p.iterate_lem (List Bytes × List Bytes) match_id lower upper (elems, r.have_ids) h k) (
      ap
        (λ (st : List Bytes × List Bytes). ok (record {
          vars = record r { skip = true; have_ids = st.1; need_ids = r.need_ids ++ st.0 };
          o = [];
          upper = upper;
        }))
        (walk-match_id lower (slice lower upper xs) elems r.have_ids d n))
