-- ===== src/Storage/BTree/Insert/Raise.antt =====
-- How one breadcrumb turns what the insertion left below a node into what it leaves of the node.
use negentropy.Prelude.{
  ℕ, suc, ◌+◌, ◌≤◌, ◌<◌, ◌≡◌, ◌≢◌, refl, sym, Bool, true, false, List, [], ◌∷◌, ◌++◌, length, arith,
  All, All-append, u64_mod, inl, inr, lt-or-le,
}
use mathlib.Core.Path.{subst}
use negentropy.Types.{Item, IsItem}
use negentropy.Storage.{IsAscending}
use negentropy.Storage.Vector.{insert_sorted}
use negentropy.Storage.BTree.{Limits, IsLimits, Key, Node, NodePtr, node_ptr, NodeStore}
use negentropy.Storage.BTree.Search.{Breadcrumb}
use negentropy.Storage.BTree.Shape.{
  Slots, Counts, Level, First, SameKeys, SameKeys-Slots, SameKeys-Counts, All-split,
}
use negentropy.Storage.BTree.Ids.{Apart, Distinct, Separate, Distinct-split, Distinct-join, All-map}
use negentropy.Storage.BTree.Laws.{StoreLaws}
use negentropy.Storage.BTree.Changes.{Change, Change-trans}
use negentropy.Storage.BTree.Insert.{merge_key}
use negentropy.Storage.BTree.Insert.Place.{Layer, Settled, bump_Settled, put_Settled}
use negentropy.Storage.BTree.Insert.Divide.{Divided, divide}
use negentropy.Storage.BTree.Insert.Outcome.{SomeItem, right_not_below, Owned, Outcome, Stepped}

First-SomeItem : (a : Item) (xs : List Item) → First a xs → SomeItem xs
First-SomeItem a [] f = absurd f
First-SomeItem a (x ∷ xs) f = tt

-- ids below a limit are none of it
below-Apart : (limit : ℕ) (is : List ℕ) → All (λ i. i < limit) is → Apart limit is
below-Apart limit is a = All-map (λ i h. omega (arith, h)) is a

module _ {M : Type 0} (s : NodeStore M) (l : Limits) (lim : IsLimits l) (law : StoreLaws l s)
    (Body : (ℕ → NodePtr) → List Key → List Item → List ℕ → Type 0) (layer : Layer s l Body)
    (v : Item) (crumb : Breadcrumb) (xs : List Item) (ids : List ℕ) (m : M)
    (before : Level l (s.read m) (Body (s.read m)) crumb.node_id xs ids) (distinct : Distinct ids)
    (given : All (λ i. i < law.next m) ids) (hv : IsItem v) (hx : All IsItem xs)
    (ascending : IsAscending (insert_sorted v xs)) where
  abbrev pub NodeTree : (ℕ → NodePtr) → ℕ → List Item → List ℕ → Type 0
  NodeTree read id ys is = Level l read (Body read) id ys is

  Level-SomeItem :
      (m' : M) (id : ℕ) (ys : List Item) (is : List ℕ)
      → Level l (s.read m') (Body (s.read m')) id ys is
      → SomeItem ys
  Level-SomeItem m' id ys is here = by_keys here.keys here.some_key here.body
    where
      by_keys : (ks : List Key) → 0 < length ks → Body (s.read m') ks ys here.below → SomeItem ys
      by_keys [] h b = absurd (omega (arith, h))
      by_keys (k ∷ ks) h b = First-SomeItem k.item ys (layer.first m' k ks ys here.below b)

  own_given : (crumb.node_id < law.next m) × All (λ i. i < law.next m) before.below
  own_given = subst (All (λ (i : ℕ). i < law.next m)) before.own given

  own-Distinct : Apart crumb.node_id before.below × Distinct before.below
  own-Distinct = subst Distinct before.own distinct

  module _ (m1 : M) (n : ℕ) (t below : List ℕ) (change : Change s l law m m1 t)
      (grown : law.next m1 ≤ law.next m + n) (room : law.next m + n + 1 < u64_mod)
      (not_touched : Apart crumb.node_id t) (touched : (i : ℕ) → Apart i before.below → Apart i t)
      (owned : Owned s l law v m before.below below m1) (distinct' : Distinct below) where
    there :
        (node' : Node) × (s.read m1 crumb.node_id ≡ node_ptr crumb.node_id node')
        × SameKeys before.node node'
    there = change.kept crumb.node_id not_touched own_given.0 before.node before.found

    slots : Slots l there.0 before.keys
    slots = SameKeys-Slots there.2 before.slots

    apart : All (λ i. i ≢ crumb.node_id) below
    apart =
        owned.carry (λ i. i ≢ crumb.node_id)
          (All-map (λ i ne e. ne (sym e)) before.below own-Distinct.0)
          (λ i old new. omega (arith, old, own_given.0))

    All-given : All (λ i. i < law.next m1) below
    All-given =
        owned.carry (λ i. i < law.next m1)
          (All-map (λ i h. omega (arith, h, change.later)) before.below own_given.1)
          (λ i old new. new)

    apart_back : Apart crumb.node_id below
    apart_back = All-map (λ i ne e. ne (sym e)) below apart

    whole : (m2 : M) → Change s l law m1 m2 (crumb.node_id ∷ []) → Change s l law m m2 ids
    whole m2 c = Change-trans s l law m m1 m2 t (crumb.node_id ∷ []) ids change c (λ i lt a.
        let a' : Apart i (crumb.node_id ∷ before.below) = subst (Apart i) before.own a in
        (touched i a'.1, (a'.0, tt)))

    keep :
        (m2 : M) (P : ℕ → Type 0)
        → law.next m1 ≤ law.next m2
        → All P ids
        → ((i : ℕ) → law.next m ≤ i → i < law.next m2 → P i)
        → P crumb.node_id × All P below
    keep m2 P later a new =
        let a' : P crumb.node_id × All P before.below = subst (All P) before.own a in
        (a'.0, owned.carry P a'.1 (λ i h lt. new i h (omega (arith, lt, later))))

    counts : Counts there.0 xs
    counts = SameKeys-Counts there.2 before.counts

    -- A step from the store that the child left, and what it comes to.
    abbrev pub Raised : Key → Bool → Type 1
    Raised key from =
        Stepped s l law v m NodeTree crumb xs ids (suc n)
          (record { store = m1; new_key = key; needs_merge = from })

    settled :
        (key : Key) (from : Bool)
        → Settled s l law Body layer v crumb m1 change.sound there.0 there.1 before.keys slots xs
            counts hv hx key from below
        → Raised key from
    settled key from st = (
      record { store = st.store; new_key = key; needs_merge = false },
      st.stepped,
      Outcome.fits (crumb.node_id ∷ below) refl (whole st.store st.change)
          (omega (arith, st.same_next, grown)) (apart_back, distinct')
          (record { carry = λ P a new. keep st.store P (omega (arith, st.same_next)) a new })
          st.level,
    )

    divided :
        (key : Key)
        → Divided s l lim law Body layer v crumb m1 change.sound
            (omega (arith, grown, room))
            there.0
            there.1
            before.keys
            slots
            xs
            hv
            hx
            key
            below
        → Raised key true
    divided key d = (
      record { store = d.store; new_key = d.up; needs_merge = true },
      d.stepped,
      Outcome.splits d.ys d.zs (crumb.node_id ∷ d.is) (law.next m1 ∷ d.js) refl
          (whole d.store d.change) (omega (arith, d.same_next, grown))
          (omega (arith, d.up_id, law.next_pos m1 change.sound.valid)) d.items_split d.up_first
          (λ f first.
            right_not_below v xs d.ys d.zs d.up.item f ascending d.items_split
              (Level-SomeItem d.store crumb.node_id d.ys (crumb.node_id ∷ d.is) d.left) d.up_first
              first)
          both_distinct (record { carry = carry_both }) d.left
          (subst (λ (id : ℕ). NodeTree (s.read d.store) id d.zs (law.next m1 ∷ d.js)) (sym d.up_id)
            d.right),
    )
      where
        parts : Separate d.is d.js
        parts = Distinct-split d.is d.js (subst Distinct d.ids_split distinct')

        fresh : All (λ i. i < law.next m1) d.is × All (λ i. i < law.next m1) d.js
        fresh =
            All-split (λ (i : ℕ). i < law.next m1) d.is d.js
              (subst (All (λ (i : ℕ). i < law.next m1)) d.ids_split All-given)

        apart_both : Apart crumb.node_id d.is × Apart crumb.node_id d.js
        apart_both =
            All-split (λ (i : ℕ). crumb.node_id ≢ i) d.is d.js
              (subst (Apart crumb.node_id) d.ids_split apart_back)

        with_new :
            (is : List ℕ)
            → All (λ i. i < law.next m1) is
            → All (λ i. Apart i d.js) is
            → All (λ i. Apart i (law.next m1 ∷ d.js)) is
        with_new [] a b = tt
        with_new (i ∷ is) a b = (((λ e. omega (arith, e, a.0)), b.0), with_new is a.1 b.1)

        both_distinct : Distinct ((crumb.node_id ∷ d.is) ++ (law.next m1 ∷ d.js))
        both_distinct = Distinct-join (crumb.node_id ∷ d.is) (law.next m1 ∷ d.js) (record {
          front = (apart_both.0, parts.front);
          back = (below-Apart (law.next m1) d.js fresh.1, parts.back);
          across = (
            ((λ e. omega (arith, e, own_given.0, change.later)), apart_both.1),
            with_new d.is fresh.0 parts.across,
          );
        })

        carry_both :
            (P : ℕ → Type 0)
            → All P ids
            → ((i : ℕ) → law.next m ≤ i → i < law.next d.store → P i)
            → All P ((crumb.node_id ∷ d.is) ++ (law.next m1 ∷ d.js))
        carry_both P a new =
            let kept = keep d.store P (omega (arith, d.same_next)) a new in
            let halves = All-split P d.is d.js (subst (All P) d.ids_split kept.1) in
            All-append P (crumb.node_id ∷ d.is) (law.next m1 ∷ d.js) (kept.0, halves.0)
              (new (law.next m1) change.later (omega (arith, d.same_next)), halves.1)

    module _ (k : Key) (ks : List Key) (f : Item) (loose : layer.Loose k f)
        (body : Body (s.read m1) (record k { item = f } ∷ ks) (insert_sorted v xs) below) where
      -- nothing comes from below
      pub raise_bump : (key : Key) → before.keys ≡ k ∷ ks → Raised key false
      raise_bump key e = settled key false (
          bump_Settled s l law Body layer v crumb m1 change.sound there.0 there.1 before.keys slots
            xs counts hv hx k ks f below loose body apart key e)

      -- a key comes from below
      pub raise_merge : (key : Key) → merge_key key before.keys ≡ k ∷ ks → Raised key true
      raise_merge key e = elim (lt-or-le (length before.keys) l.max_items) [
        | inl room_left ↦ settled key true (
            put_Settled s l law Body layer v crumb m1 change.sound there.0 there.1 before.keys slots
              xs counts hv hx k ks f below loose body apart key e room_left)
        | inr full ↦ divided key (
            divide s l lim law Body layer v crumb m1 change.sound (omega (arith, grown, room))
              there.0 there.1 before.keys slots xs hv hx key k f below loose apart All-given
              (omega (arith, full, slots.within)) ks e body)
      ]
