-- ===== src/Protocol/Split/Neighbours.antt =====
-- Two items that follow one another in a storage.
use negentropy.Prelude.{
  ℕ, zero, suc, ◌<◌, ◌≡◌, refl, true, List, [], ◌∷◌, take, drop, length, All, get_elem?, some,
  arith,
}
use negentropy.Types.{Item, item_lt, IsItem}
use negentropy.Storage.{IsAscending}

-- two neighbours in a storage
pub record Neighbours (xs : List Item) (k : ℕ) (a b : Item) : Type 0 where
  pub both : take 2 (drop k xs) ≡ a ∷ b ∷ []
  pub first : get_elem? xs k ≡ some a
  pub second : get_elem? xs (suc k) ≡ some b
  pub ascending : item_lt a b ≡ true
  pub first_valid : IsItem a
  pub second_valid : IsItem b

pub neighbours :
    (k : ℕ) (xs : List Item)
    → suc k < length xs
    → IsAscending xs
    → All IsItem xs
    → (a : Item) × (b : Item) × Neighbours xs k a b
neighbours k [] h s v = absurd (omega arith)
neighbours zero (x ∷ []) h s v = absurd (omega arith)
neighbours zero (x ∷ y ∷ xs) h s v = (
  x,
  y,
  record {
    both = refl;
    first = refl;
    second = refl;
    ascending = s.0;
    first_valid = v.0;
    second_valid = v.1.0;
  },
)
neighbours (suc k) (x ∷ xs) h s v =
    let (a, b, n) = neighbours k xs (omega arith) s.1 v.1 in
    (
      a,
      b,
      record {
        both = n.both;
        first = n.first;
        second = n.second;
        ascending = n.ascending;
        first_valid = n.first_valid;
        second_valid = n.second_valid;
      },
    )
