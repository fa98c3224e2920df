-- ===== src/Storage/BTree/Ids.antt =====
-- Lists of ids without repetitions.
use negentropy.Prelude.{ℕ, ◌≢◌, List, [], ◌∷◌, ◌++◌, All, All-append, sym}
use negentropy.Storage.BTree.Shape.{All-split}

-- `k` is none of the ids
abbrev pub Apart : ℕ → List ℕ → Type 0
Apart k ids = All (λ (i : ℕ). k ≢ i) ids

abbrev pub Distinct : List ℕ → Type 0
Distinct [] = Unit
Distinct (i ∷ is) = Apart i is × Distinct is

pub All-map : {P Q : ℕ → Type 0} (f : (i : ℕ) → P i → Q i) (is : List ℕ) → All P is → All Q is
All-map f [] a = tt
All-map f (i ∷ is) a = (f i a.0, All-map f is a.1)

-- what distinct ids say of their parts
pub record Separate (is js : List ℕ) : Type 0 where
  pub front : Distinct is
  pub back : Distinct js
  pub across : All (λ i. Apart i js) is

pub Distinct-split : (is js : List ℕ) → Distinct (is ++ js) → Separate is js
Distinct-split [] js d = record { front = tt; back = d; across = tt }
Distinct-split (i ∷ is) js d =
    let p = Distinct-split is js d.1 in
    let both = All-split (λ (k : ℕ). i ≢ k) is js d.0 in
    record { front = (both.0, p.front); back = p.back; across = (both.1, p.across) }

pub Distinct-join : (is js : List ℕ) → Separate is js → Distinct (is ++ js)
Distinct-join [] js s = s.back
Distinct-join (i ∷ is) js s = (
  All-append (λ (k : ℕ). i ≢ k) is js s.front.0 s.across.0,
  Distinct-join is js (record { front = s.front.1; back = s.back; across = s.across.1 }),
)

Apart-cons :
    (i : ℕ) (is js : List ℕ)
    → All (λ j. Apart j is) js
    → Apart i js
    → All (λ j. Apart j (i ∷ is)) js
Apart-cons i is [] a b = tt
Apart-cons i is (j ∷ js) a b = (((λ e. b.0 (sym e)), a.0), Apart-cons i is js a.1 b.1)

-- the same the other way round
pub across_back : (is js : List ℕ) → All (λ i. Apart i js) is → All (λ j. Apart j is) js
across_back [] js a = All-none js
  where
    All-none : (ks : List ℕ) → All (λ (j : ℕ). Apart j []) ks
    All-none [] = tt
    All-none (k ∷ ks) = (tt, All-none ks)
across_back (i ∷ is) js a = Apart-cons i is js (across_back is js a.1) a.0

pub All-both : (P Q : ℕ → Type 0) (is : List ℕ) → All P is → All Q is → All (λ i. P i × Q i) is
All-both P Q [] a b = tt
All-both P Q (i ∷ is) a b = ((a.0, b.0), All-both P Q is a.1 b.1)

-- what stands between some ids and others, and is apart from them
pub middle_Apart :
    (is mid js : List ℕ) → Distinct (is ++ (mid ++ js)) → All (λ i. Apart i is × Apart i js) mid
middle_Apart is mid js d =
    let outer = Distinct-split is (mid ++ js) d in
    let inner = Distinct-split mid js outer.back in
    let apart = across_back is (mid ++ js) outer.across in
    All-both (λ i. Apart i is) (λ i. Apart i js) mid
      (All-split (λ (i : ℕ). Apart i is) mid js apart).0 inner.across

-- other ids take its place
pub Distinct-replace :
    (is mid js new : List ℕ)
    → Distinct (is ++ (mid ++ js))
    → Distinct new
    → All (λ i. Apart i is × Apart i js) new
    → Distinct (is ++ (new ++ js))
Distinct-replace is mid js new d dn a =
    let outer = Distinct-split is (mid ++ js) d in
    let inner = Distinct-split mid js outer.back in
    let new_is : All (λ i. Apart i is) new = All-map (λ i b. b.0) new a in
    let is_new = across_back new is new_is in
    let is_js = All-map (λ i b. (All-split (λ (k : ℕ). i ≢ k) mid js b).1) is outer.across in
    Distinct-join is (new ++ js) (record {
      front = outer.front;
      back =
          Distinct-join new js
            (record { front = dn; back = inner.back; across = All-map (λ i b. b.1) new a });
      across =
          All-map (λ i b. All-append (λ (k : ℕ). i ≢ k) new js b.0 b.1) is
            (All-both (λ i. Apart i new) (λ i. Apart i js) is is_new is_js);
    })
