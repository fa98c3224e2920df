-- ===== src/Types/Order.antt =====
-- `<`, `<=` and `==` on items: a strict total order by timestamp and then by id.
use negentropy.Prelude.{◌⊎◌, ◌≤◌, ◌<◌, ◌≡◌, refl, true, false, not, Bytes, [], ◌∷◌, arith, ◌↔◌}
use negentropy.Types.{Item, item_lt, item_le, item_eq, bytes_lt, bytes_eq}

pub bytes_lt_irrefl : (a : Bytes) → bytes_lt a a ≡ false
unfolding bytes_lt
bytes_lt_irrefl [] = refl
bytes_lt_irrefl (x ∷ a) = ground (arith, bytes_lt_irrefl a)

pub bytes_lt_trans :
    (a b c : Bytes) → bytes_lt a b ≡ true → bytes_lt b c ≡ true → bytes_lt a c ≡ true
unfolding bytes_lt
bytes_lt_trans [] [] c h k = cc
bytes_lt_trans [] (y ∷ b) [] h k = cc
bytes_lt_trans [] (y ∷ b) (z ∷ c) h k = refl
bytes_lt_trans (x ∷ a) [] c h k = cc
bytes_lt_trans (x ∷ a) (y ∷ b) [] h k = cc
bytes_lt_trans (x ∷ a) (y ∷ b) (z ∷ c) h k = ground (arith, bytes_lt_trans a b c)

pub bytes_lt-total : (a b : Bytes) → bytes_lt a b ≡ false → bytes_lt b a ≡ false → a ≡ b
unfolding bytes_lt
bytes_lt-total [] [] h k = refl
bytes_lt-total [] (y ∷ b) h k = cc
bytes_lt-total (x ∷ a) [] h k = cc
bytes_lt-total (x ∷ a) (y ∷ b) h k = ground (arith, bytes_lt-total a b)

pub bytes_eq_iff : (a b : Bytes) → (bytes_eq a b ≡ true) ↔ (a ≡ b)
unfolding bytes_eq
bytes_eq_iff [] [] = (λ _. refl, λ _. refl)
bytes_eq_iff [] (y ∷ b) = (λ h. cc, λ h. cc)
bytes_eq_iff (x ∷ a) [] = (λ h. cc, λ h. cc)
bytes_eq_iff (x ∷ a) (y ∷ b) = ground (arith, bytes_eq_iff a b)

pub item_lt_irrefl : (a : Item) → item_lt a a ≡ false
unfolding item_lt
item_lt_irrefl a = ground (arith, bytes_lt_irrefl a.id)

pub item_lt_trans : (a b c : Item) → item_lt a b ≡ true → item_lt b c ≡ true → item_lt a c ≡ true
unfolding item_lt
item_lt_trans a b c h k = ground (arith, bytes_lt_trans a.id b.id c.id)

pub item_lt-total : (a b : Item) → item_lt a b ≡ false → item_lt b a ≡ false → a ≡ b
unfolding item_lt
item_lt-total a b h k = ground (arith, bytes_lt-total a.id b.id)

pub item_lt-asym : (a b : Item) → item_lt a b ≡ true → item_lt b a ≡ false
item_lt-asym a b h = ground (arith, item_lt_trans a b a, item_lt_irrefl a)

-- `<=` is the negation of `<` the other way round.
pub item_le-not_lt : (a b : Item) → item_le a b ≡ not (item_lt b a)
unfolding item_le item_lt
item_le-not_lt a b = ground arith

pub item_eq_iff : (a b : Item) → (item_eq a b ≡ true) ↔ (a ≡ b)
unfolding item_eq
item_eq_iff a b = ground (arith, bytes_eq_iff a.id b.id)

-- what the code compares by `<` is negatively transitive too
pub item_lt-le_trans :
    (a b c : Item) → item_lt a b ≡ true → item_lt c b ≡ false → item_lt a c ≡ true
item_lt-le_trans a b c h k =
    ground (arith, item_lt_trans a b c, item_lt-total b c, item_lt-asym a b)

pub item_le-lt_trans :
    (a b c : Item) → item_lt b a ≡ false → item_lt b c ≡ true → item_lt a c ≡ true
item_le-lt_trans a b c h k = ground (arith, item_lt_trans a b c, item_lt-total a b)

-- what `<` says where the timestamps are one, and where they are not
pub item_lt_same : (a b : Item) → a.timestamp ≡ b.timestamp → item_lt a b ≡ bytes_lt a.id b.id
unfolding item_lt
item_lt_same a b e = ground arith

pub item_lt_timestamp : (a b : Item) → item_lt a b ≡ true → a.timestamp ≤ b.timestamp
unfolding item_lt
item_lt_timestamp a b h = ground arith

pub item_lt_earlier : (a b : Item) → a.timestamp < b.timestamp → item_lt a b ≡ true
unfolding item_lt
item_lt_earlier a b h = ground arith

pub item_not_lt_timestamp : (a b : Item) → item_lt a b ≡ false → b.timestamp ≤ a.timestamp
unfolding item_lt
item_not_lt_timestamp a b h = ground arith

-- Of two items one is below the other, or they are one; none is below itself; and `<=` and `==` say
-- what `<` and equality say.
pub item_order :
    (a b : Item)
    → (item_lt a a ≡ false)
      × ((item_lt a b ≡ true) ⊎ ((item_lt b a ≡ true) ⊎ (a ≡ b)))
      × (item_le a b ≡ not (item_lt b a))
      × ((item_eq a b ≡ true) ↔ (a ≡ b))
item_order a b = (item_lt_irrefl a, three, item_le-not_lt a b, item_eq_iff a b)
  where
    three : (item_lt a b ≡ true) ⊎ ((item_lt b a ≡ true) ⊎ (a ≡ b))
    three = ground (arith, item_lt-total a b)
