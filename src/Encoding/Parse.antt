-- ===== src/Encoding/Parse.antt =====
-- What the readers take on any input, well formed or not.
use negentropy.Prelude.{
  ℕ, ◌<◌, ◌≡◌, ◌∙◌, refl, ap, Bytes, List, [], ◌∷◌, ◌++◌, length, length-append, take, drop, inl,
  inr, IsU64, arith, take-append-drop, append-nil, length-take,
}
use negentropy.Prelude.Results.{Outcome, ok, err, Error, Result-cases}
use negentropy.Encoding.{
  get_byte, get_bytes, push_septet, decode_loop, decode_var_int, encode_var_int,
}
use negentropy.Encoding.Varint.{push_septet_lem, decode_var_int-encode_var_int}

decode_loop_takes :
    (src : Bytes) (res v : ℕ) (rest : Bytes)
    → decode_loop res src ≡ ok (v, rest)
    → IsU64 v × (length rest < length src)
unfolding decode_loop
decode_loop_takes [] res v rest e = cc
decode_loop_takes (b ∷ bs) res v rest e =
    ground (arith, push_septet_lem res b, decode_loop_takes bs (push_septet res b) v rest)

-- A successful read of a varint gives a uint64 and takes at least one byte.
pub decode_var_int_takes :
    (src : Bytes) {v : ℕ} {rest : Bytes}
    → decode_var_int src ≡ ok (v, rest)
    → IsU64 v × (length rest < length src)
unfolding decode_var_int
decode_var_int_takes src e = decode_loop_takes src 0 _ _ e

decode_loop-append :
    (src more : Bytes) (res v : ℕ) (rest : Bytes)
    → decode_loop res src ≡ ok (v, rest)
    → decode_loop res (src ++ more) ≡ ok (v, rest ++ more)
unfolding decode_loop
decode_loop-append [] more res v rest e = cc
decode_loop-append (b ∷ bs) more res v rest e =
    ground (arith, decode_loop-append bs more (push_septet res b) v rest)

decode_loop_error :
    (src : Bytes) (res : ℕ) (e : Error) → decode_loop res src ≡ err e → e ≡ Error.premature_varint
unfolding decode_loop
decode_loop_error [] res e h = cc
decode_loop_error (b ∷ bs) res e h = ground (arith, decode_loop_error bs (push_septet res b) e)

pub decode_var_int_error :
    (src : Bytes) {e : Error} → decode_var_int src ≡ err e → e ≡ Error.premature_varint
unfolding decode_var_int
decode_var_int_error src h = decode_loop_error src 0 _ h

-- `decode_var_int` throws "premature end of varint" on every proper prefix of what
-- `encode_var_int` wrote for a uint64.
pub decode_var_int_truncated :
    (v x : ℕ) (front back : Bytes)
    → IsU64 v
    → encode_var_int v ≡ front ++ (x ∷ back)
    → decode_var_int front ≡ err Error.premature_varint
unfolding decode_var_int
decode_var_int_truncated v x front back u e = elim (Result-cases (decode_loop 0 front)) [
  | inl ((w, rest), r) ↦
      ground (
        arith,
        whole,
        decode_loop-append front (x ∷ back) 0 w rest r,
        length-append rest (x ∷ back),
      )
  | inr (er, r) ↦ r ∙ ap err (decode_loop_error front 0 er r)
]
  where
    whole : decode_loop 0 (front ++ (x ∷ back)) ≡ ok (v, [])
    whole = rw (append-nil, e) at (decode_var_int-encode_var_int v [] u)

-- `get_bytes` splits its input after `n` bytes.
pub get_bytes_takes :
    (src : Bytes) (n : ℕ) {front rest : Bytes}
    → get_bytes src n ≡ ok (front, rest)
    → (src ≡ front ++ rest) × (length front ≡ n)
unfolding get_bytes
get_bytes_takes src n e = ground (arith, take-append-drop n src, length-take n src)

take-append {ℓ} : {A : Type ℓ} (xs ys : List A) → take (length xs) (xs ++ ys) ≡ xs
take-append [] ys = refl
take-append (x ∷ xs) ys = ap (◌∷◌ x) (take-append xs ys)

drop-append {ℓ} : {A : Type ℓ} (xs ys : List A) → drop (length xs) (xs ++ ys) ≡ ys
drop-append [] ys = refl
drop-append (x ∷ xs) ys = drop-append xs ys

-- `get_bytes` reads back a string of the length that is asked for.
pub get_bytes-append :
    (xs rest : Bytes) (n : ℕ) → length xs ≡ n → get_bytes (xs ++ rest) n ≡ ok (xs, rest)
unfolding get_bytes
get_bytes-append xs rest n e =
    ground (arith, length-append xs rest, take-append xs rest, drop-append xs rest)

pub get_bytes_error :
    (src : Bytes) (n : ℕ) {e : Error} → get_bytes src n ≡ err e → e ≡ Error.parse_ends
unfolding get_bytes
get_bytes_error src n h = ground arith

pub get_byte-Outcome : (src : Bytes) → Outcome (λ r. src ≡ r.0 ∷ r.1) (get_byte src)
unfolding get_byte
get_byte-Outcome [] = tt
get_byte-Outcome (b ∷ bs) = refl
