-- ===== src/Accumulator/Sums.antt =====
-- The accumulator of a list of items: neither order nor grouping matters, and the accumulator of a
-- range is the difference of two prefixes, which the tree's `fingerprint` relies on.
use negentropy.Prelude.{◌≡◌, refl, ap, ap₂, ◌∙◌, sym, Bytes, List, [], ◌∷◌, ◌++◌, All}
use negentropy.Types.{Item, IsItem}
use negentropy.Accumulator.{add, negate, zero_accum, accum_from}
use negentropy.Accumulator.Value.{
  IsBuffer, add-IsBuffer, zero-IsBuffer, add_comm, add_assoc, add-zero_accum, add-negate_cancel,
}
use mathlib.Core.List.{Perm, Permᴰ}
use mathlib.Core.Logic.{∥∥₁_elim}

pub id-IsBuffer : (it : Item) → IsItem it → IsBuffer it.id
id-IsBuffer it h = record { full = h.id_full; bytes = h.id_bytes }

pub accum_from-IsBuffer :
    (acc : Bytes) (its : List Item) → IsBuffer acc → IsBuffer (accum_from acc its)
unfolding accum_from
accum_from-IsBuffer acc [] h = h
accum_from-IsBuffer acc (it ∷ its) h =
    accum_from-IsBuffer (add acc it.id) its (add-IsBuffer acc it.id)

pub accum_from-append :
    (acc : Bytes) (xs ys : List Item)
    → accum_from acc (xs ++ ys) ≡ accum_from (accum_from acc xs) ys
unfolding accum_from
accum_from-append acc [] ys = refl
accum_from-append acc (x ∷ xs) ys = accum_from-append (add acc x.id) xs ys

-- what was there before adds to the sum
pub accum_from-add :
    (acc : Bytes) (its : List Item)
    → IsBuffer acc
    → All IsItem its
    → accum_from acc its ≡ add acc (accum_from zero_accum its)
unfolding accum_from
accum_from-add acc [] ha h = sym (add-zero_accum acc ha)
accum_from-add acc (it ∷ its) ha (hi, h) =
    let id = id-IsBuffer it hi in
    accum_from-add (add acc it.id) its (add-IsBuffer acc it.id) h
    ∙ add_assoc acc it.id (accum_from zero_accum its) ha id
        (accum_from-IsBuffer zero_accum its zero-IsBuffer)
    ∙ ap (add acc) (
        ap (λ (t : Bytes). add t (accum_from zero_accum its))
          (sym (add_comm zero_accum it.id zero-IsBuffer id ∙ add-zero_accum it.id id))
        ∙ sym (accum_from-add (add zero_accum it.id) its (add-IsBuffer zero_accum it.id) h))

-- The accumulator of the items behind a prefix is the accumulator of all less that of the prefix.
pub accum_from-range :
    (xs ys : List Item)
    → All IsItem xs
    → All IsItem ys
    → add (accum_from zero_accum (xs ++ ys)) (negate (accum_from zero_accum xs))
      ≡ accum_from zero_accum ys
accum_from-range xs ys hx hy =
    let a = accum_from zero_accum xs in
    let b = accum_from zero_accum ys in
    let ha : IsBuffer a = accum_from-IsBuffer zero_accum xs zero-IsBuffer in
    let hb : IsBuffer b = accum_from-IsBuffer zero_accum ys zero-IsBuffer in
    ap (λ (t : Bytes). add t (negate a))
      (accum_from-append zero_accum xs ys ∙ accum_from-add a ys ha hy ∙ add_comm a b ha hb)
    ∙ add-negate_cancel b a hb ha

Permᴰ-IsItem : {xs ys : List Item} → Permᴰ xs ys → All IsItem xs → All IsItem ys
Permᴰ-IsItem Permᴰ.nil h = tt
Permᴰ-IsItem (Permᴰ.cons e d) (a, h) = (rw e at a, Permᴰ-IsItem d h)
Permᴰ-IsItem (Permᴰ.swap e f) (a, (b, h)) = (rw f at b, (rw e at a, h))
Permᴰ-IsItem (Permᴰ.trans c d) h = Permᴰ-IsItem d (Permᴰ-IsItem c h)

accum_from-swap :
    (acc : Bytes) (a b : Item)
    → IsBuffer acc
    → IsItem a
    → IsItem b
    → add (add acc a.id) b.id ≡ add (add acc b.id) a.id
accum_from-swap acc a b h ha hb =
    let ia = id-IsBuffer a ha in
    let ib = id-IsBuffer b hb in
    add_assoc acc a.id b.id h ia ib
    ∙ ap (add acc) (add_comm a.id b.id ia ib)
    ∙ sym (add_assoc acc b.id a.id h ib ia)

accum_from-Permᴰ :
    (acc : Bytes) {xs ys : List Item}
    → Permᴰ xs ys
    → IsBuffer acc
    → All IsItem xs
    → accum_from acc xs ≡ accum_from acc ys
unfolding accum_from
accum_from-Permᴰ acc Permᴰ.nil b h = refl
accum_from-Permᴰ acc (Permᴰ.cons {a = x} {l₂ = ys} e d) b h =
    accum_from-Permᴰ (add acc x.id) d (add-IsBuffer acc x.id) h.1
    ∙ ap (λ (y : Item). accum_from (add acc y.id) ys) e
accum_from-Permᴰ acc (Permᴰ.swap {a = x} {b = y} {a' = y'} {b' = x'} {l = l} e f) b (hx, (hy, h)) =
    ap (λ (t : Bytes). accum_from t l) (accum_from-swap acc x y b hx hy)
    ∙ ap₂ (λ (u v : Item). accum_from (add (add acc u.id) v.id) l) f e
accum_from-Permᴰ acc (Permᴰ.trans c d) b h =
    accum_from-Permᴰ acc c b h ∙ accum_from-Permᴰ acc d b (Permᴰ-IsItem c h)

Bytes-set : IsSet Bytes
Bytes-set = hlevel

-- The accumulator does not depend on the order of the items.
pub accum_from-perm :
    {xs ys : List Item}
    → Perm xs ys
    → All IsItem xs
    → accum_from zero_accum xs ≡ accum_from zero_accum ys
accum_from-perm {xs} {ys} p h =
    ∥∥₁_elim p (Bytes-set _ _) (λ d. accum_from-Permᴰ zero_accum d zero-IsBuffer h)
