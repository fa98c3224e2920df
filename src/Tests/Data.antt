-- ===== src/Tests/Data.antt =====
-- Items, vectors and a hash for the tests.
use negentropy.Prelude.{
  ℕ, zero, suc, ◌+◌, ◌%◌, ◌<◌, ◌≡◌, refl, true, Bytes, List, [], ◌∷◌, length, replicate, arith, All,
  ap,
}
use negentropy.Types.{Item, IsItem}
use negentropy.Types.Order.{item_lt_earlier}
use negentropy.Storage.{IsAscending, Storage, Presents}
use negentropy.Storage.Vector.{Vector, vector_storage}
use negentropy.Storage.Vector.Contract.{IsReady, vector-Presents}

-- the item at a time, with the same byte 32 times as its id
abbrev pub item : ℕ → ℕ → Item
item t b = record { timestamp = t; id = replicate 32 b }

pub item-IsItem : (t b : ℕ) → t < 1000 → b < 256 → IsItem (item t b)
item-IsItem t b h k = omega arith

-- `n` items from time `t` on, one at each time
unfoldable pub items_from : ℕ → ℕ → List Item
items_from zero t = []
items_from (suc n) t = item t (t % 256) ∷ items_from n (suc t)

pub items_from-IsItem : (n t : ℕ) → n + t < 1000 → All IsItem (items_from n t)
unfolding items_from
items_from-IsItem zero t h = tt
items_from-IsItem (suc n) t h =
    (item-IsItem t (t % 256) (omega arith) (omega arith), items_from-IsItem n (suc t) (omega arith))

pub items_from-IsAscending : (n t : ℕ) → IsAscending (items_from n t)
unfolding items_from
items_from-IsAscending zero t = tt
items_from-IsAscending (suc zero) t = (tt, tt)
items_from-IsAscending (suc (suc n)) t =
    (item_lt_earlier _ _ (omega arith), items_from-IsAscending (suc n) (suc t))

pub length-items_from : (n t : ℕ) → length (items_from n t) ≡ n
unfolding items_from
length-items_from zero t = refl
length-items_from (suc n) t = ap suc (length-items_from n (suc t))

abbrev pub sealed_vector : ℕ → Vector
sealed_vector n = record { items = items_from n 5; is_sealed = true }

pub sealed_vector-IsReady : (n : ℕ) → n < 900 → IsReady (sealed_vector n)
sealed_vector-IsReady n h = record {
  sealed_now = refl;
  sorted = items_from-IsAscending n 5;
  valid = items_from-IsItem n 5 (omega arith);
  fits = omega (arith, length-items_from n 5);
}

-- a stand-in for SHA-256 with its length
abbrev pub hash : Bytes → Bytes
hash m = replicate 32 (length m % 256)

pub length-hash : (m : Bytes) → length (hash m) ≡ 32
length-hash m = refl

abbrev pub forty : Storage
forty = vector_storage hash (sealed_vector 40)

pub forty-Presents : Presents hash forty (items_from 40 5)
forty-Presents = vector-Presents hash (sealed_vector 40) (sealed_vector-IsReady 40 (omega arith))
