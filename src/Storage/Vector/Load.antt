-- ===== src/Storage/Vector/Load.antt =====
-- Loading a vector: items inserted after `unseal`, and sealed again.
use negentropy.Prelude.{
  ◌≡◌, refl, ap, sym, ◌∙◌, false, Bytes, IsU64, List, [], ◌∷◌, ◌++◌, append_assoc, append-nil,
  length, All, All-append, arith, inl, inr,
}
use negentropy.Prelude.Results.{Result, ok, ◌>>=◌}
use negentropy.Types.{Item, IsItem}
use negentropy.Storage.{Presents}
use negentropy.Storage.Vector.{Vector, insert_item, seal, unseal, vector_storage}
use negentropy.Storage.Vector.Seal.{seal_sorts}
use negentropy.Storage.Vector.Contract.{insert_outcome, seal-IsReady, vector-Presents}
use mathlib.Core.List.{Perm, Nodup}

-- `insertItem` of one item after the other
unfoldable pub insert_all : Vector → List Item → Result Vector
insert_all v [] = ok v
insert_all v (it ∷ its) = do v' ← insert_item v it; insert_all v' its

insert_item_ok :
    (v : Vector) (it : Item)
    → v.is_sealed ≡ false
    → length it.id ≡ 32
    → insert_item v it ≡ ok (record v { items = v.items ++ (it ∷ []) })
unfolding insert_item
insert_item_ok v it h k = insert_outcome v it.timestamp it.id ∙ ground (arith, h, k)

insert_all_ok :
    (v : Vector) (its : List Item)
    → v.is_sealed ≡ false
    → All IsItem its
    → insert_all v its ≡ ok (record v { items = v.items ++ its })
unfolding insert_all
insert_all_ok v [] h k =
    ap (λ (xs : List Item). ok (record v { items = xs })) (sym (append-nil v.items))
insert_all_ok v (it ∷ its) h k = rw (insert_item_ok v it h k.0.id_full) (
    insert_all_ok (record v { items = v.items ++ (it ∷ []) }) its h k.1
    ∙ ap (λ (xs : List Item). ok (record v { items = xs })) (append_assoc v.items (it ∷ []) its))

module _ (sha256 : Bytes → Bytes) where
  -- Valid items that are inserted into an unsealed vector of valid items, sealed before or not, are
  -- accepted; if then no item stands twice, `seal` accepts them too, and the storage presents exactly
  -- the old items and the new ones, in ascending order.
  pub load-Presents :
      (v : Vector) (its : List Item)
      → All IsItem v.items
      → All IsItem its
      → IsU64 (length (v.items ++ its))
      → Nodup (v.items ++ its)
      → (w : Vector) × (insert_all (unseal v) its ≡ ok w)
        × ((seal w).1 ≡ ok tt)
        × Perm (seal w).0.items (v.items ++ its)
        × Presents sha256 (vector_storage sha256 (seal w).0) (seal w).0.items
  unfolding unseal
  load-Presents v its hv hi fits distinct =
      let w : Vector = record { items = v.items ++ its; is_sealed = false } in
      let (kept, _, outcome) = seal_sorts w refl in
      let passed : (seal w).1 ≡ ok tt = elim outcome [
        | inl (accepted, _, _) ↦ accepted
        | inr (_, twice) ↦ absurd (twice distinct)
      ] in
      (
        w,
        insert_all_ok (unseal v) its refl hi,
        passed,
        kept,
        vector-Presents sha256 (seal w).0
            (seal-IsReady w refl (All-append IsItem v.items its hv hi) fits passed),
      )
