-- ===== src/Storage/BTree/Insert/Descent.antt =====
-- The way back up from a leaf: each breadcrumb in turn.
use negentropy.Prelude.{
  ℕ, zero, suc, ◌+◌, ◌<◌, ◌≡◌, refl, ap, sym, ◌∙◌, true, false, List, [], ◌∷◌, ◌++◌, arith, All,
  u64_mod,
}
use mathlib.Core.Path.{subst}
use negentropy.Prelude.Results.{Result, ok, err, ◌>>=◌}
use negentropy.Types.{Item, IsItem}
use negentropy.Storage.{IsAscending}
use negentropy.Storage.Ordered.{has, insert_sorted-IsAscending}
use negentropy.Storage.BTree.{Limits, IsLimits, NodeStore}
use negentropy.Storage.BTree.Search.{Breadcrumb, index_for}
use negentropy.Storage.BTree.Search.Locate.{locate_child, has_located, here_IsAscending}
use negentropy.Storage.BTree.Search.Way.{way, picked, child_at, crumb_at}
use negentropy.Storage.BTree.Shape.{Sub, All-split}
use negentropy.Storage.BTree.Ids.{Distinct}
use negentropy.Storage.BTree.Laws.{StoreLaws}
use negentropy.Storage.BTree.Changes.{Sound}
use negentropy.Storage.BTree.Insert.{Inserting, insert_step, insert_steps}
use negentropy.Storage.BTree.Insert.Outcome.{Outcome}
use negentropy.Storage.BTree.Insert.Leaf.{put_in_leaf}
use negentropy.Storage.BTree.Insert.Around.{parts_All, child_Distinct}
use negentropy.Storage.BTree.Insert.Inner.{put_above}

module _ {M : Type 0} (s : NodeStore M) (l : Limits) where
  insert_steps-append :
      (v : Item) (crumbs : List Breadcrumb) (crumb : Breadcrumb) (from : Inserting M)
      → insert_steps s l v (crumbs ++ (crumb ∷ [])) from
        ≡ (insert_steps s l v crumbs from >>= insert_step s l v crumb)
  unfolding insert_steps
  insert_steps-append v [] crumb from = alone (insert_step s l v crumb from)
    where
      alone : (r : Result (Inserting M)) → (r >>= λ st. ok st) ≡ r
      alone (ok st) = refl
      alone (err e) = refl
  insert_steps-append v (c ∷ crumbs) crumb from =
      after_first (insert_step s l v c from) (λ st. insert_steps-append v crumbs crumb st)
    where
      after_first :
          (r : Result (Inserting M))
          → ((st : Inserting M)
              → insert_steps s l v (crumbs ++ (crumb ∷ [])) st
                ≡ (insert_steps s l v crumbs st >>= insert_step s l v crumb))
          → (r >>= λ st. insert_steps s l v (crumbs ++ (crumb ∷ [])) st)
            ≡ ((r >>= λ st. insert_steps s l v crumbs st) >>= insert_step s l v crumb)
      after_first (ok st) rest = rest st
      after_first (err e) rest = refl

  insert_steps-last :
      (v : Item) (crumbs : List Breadcrumb) (crumb : Breadcrumb) (from st st' : Inserting M)
      → insert_steps s l v crumbs from ≡ ok st
      → insert_step s l v crumb st ≡ ok st'
      → insert_steps s l v (crumbs ++ (crumb ∷ [])) from ≡ ok st'
  insert_steps-last v crumbs crumb from st st' e f =
      insert_steps-append v crumbs crumb from
      ∙ ap (λ (r : Result (Inserting M)). r >>= insert_step s l v crumb) e
      ∙ f

module _ {M : Type 0} (s : NodeStore M) (l : Limits) (lim : IsLimits l)
    (short : l.max_items < u64_mod) (law : StoreLaws l s) (v : Item) (m : M)
    (sound : Sound s l law m) (hv : IsItem v) where
  abbrev start : Inserting M
  start = record { store = m; new_key = record { item = v; node_id = 0 }; needs_merge = true }

  -- All breadcrumbs of the search, and what they leave of the tree.
  pub inserted :
      (depth id : ℕ) (xs : List Item) (ids : List ℕ) (t : Sub l (s.read m) depth id xs ids)
      → Distinct ids
      → All (λ i. i < law.next m) ids
      → All IsItem xs
      → IsAscending xs
      → has v xs ≡ false
      → law.next m + depth + 1 < u64_mod
      → (st : Inserting M) × (insert_steps s l v
            (way l short (s.read m) (law.read_zero m) v depth id xs ids t)
            start
          ≡ ok st)
        × Outcome s l law v m (λ read. Sub l read depth) id xs ids (suc depth) st
  unfolding way insert_steps
  inserted zero id xs ids t distinct given hx sorted new room =
      let (st, e, outcome) =
        put_in_leaf s l lim law v (crumb_at l short (s.read m) (law.read_zero m) v id t.node) xs ids
          m sound t distinct given hv hx (insert_sorted-IsAscending v xs sorted new)
          (omega (arith, room)) new in
      (
        st,
        insert_steps-last s l v [] (crumb_at l short (s.read m) (law.read_zero m) v id t.node) start
            start st refl e,
        outcome,
      )
  inserted (suc depth) id xs ids t distinct given hx sorted new room =
      let p = picked l short (s.read m) (law.read_zero m) v t.node t.keys t.slots t.some_key in
      let c =
        child_at l short (s.read m) (law.read_zero m) v depth t.keys xs t.below 0
          (index_for v t.node) t.body p in
      let d = (subst Distinct t.own distinct).1 in
      let g = (subst (All (λ (i : ℕ). i < law.next m)) t.own given).1 in
      let at =
        locate_child v xs sorted l (s.read m) (Sub l (s.read m) depth) p.front p.key p.back t.below
          p.lower p.upper c in
      let valid =
        (All-split IsItem c.back.ys c.back.zs
          (All-split IsItem c.ys (c.back.ys ++ c.back.zs) (subst (All IsItem) at.parts hx)).1).0 in
      let (st, e, outcome) =
        inserted depth p.key.node_id c.back.ys c.back.is c.back.held
          (child_Distinct s l law v m depth p.front p.key p.back xs t.below c d g)
          (parts_All s l law v m depth p.front p.key p.back xs t.below c d g (λ i. i < law.next m)
            g).1
          valid (here_IsAscending v xs c.ys c.back.ys c.back.zs sorted at)
          (sym (has_located v xs c.ys c.back.ys c.back.zs sorted at) ∙ new) (omega (arith, room)) in
      let (st', e', outcome') =
        put_above s l lim law v (crumb_at l short (s.read m) (law.read_zero m) v id t.node) depth xs
          ids m t distinct given hv hx sorted new (insert_sorted-IsAscending v xs sorted new) 0
          (index_for v t.node) p c (suc depth) (omega (arith, room)) st outcome in
      (
        st',
        insert_steps-last s l v
            (way l short (s.read m) (law.read_zero m) v depth p.key.node_id c.back.ys c.back.is
              c.back.held)
            (crumb_at l short (s.read m) (law.read_zero m) v id t.node) start st st' e e',
        outcome',
      )
