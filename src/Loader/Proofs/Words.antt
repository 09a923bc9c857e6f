-- ===== src/Loader/Proofs/Words.antt =====
-- The little-endian numbers that the primitives of icecreme/loader.c read.
use creme.Common.{
  ℕ, zero, suc, ◌-◌, ◌*◌, ◌/◌, ◌%◌, ◌^◌, ◌≤◌, ◌<◌, ◌≡◌, refl, sym, subst, ◌∙◌, Result, fail, ap,
  true, false, List, [], ◌∷◌, ◌++◌, ok, length, length-append, take, drop, ltb, leb, lt→ltb,
  le→ltb_false, arith,
}
use creme.Csv.Parse.{Bytes}
use creme.Loader.Primitives.{must_read, little_endian, signed, read_i32}
use creme.Loader.State.{LoadState}
use creme.Value.{ℤ, pos, negsuc}

-- The `k` lowest bytes of a number, the lowest first.
unfoldable pub le_bytes : ℕ → ℕ → Bytes
le_bytes zero n = []
le_bytes (suc k) n = n % 256 ∷ le_bytes k (n / 256)

-- The pattern of an `int32_t`.
abbrev pub pattern32 : ℤ → ℕ
pattern32 (pos n) = n
pattern32 (negsuc n) = 2 ^ 32 - 1 - n

abbrev pub IsInt32 : ℤ → Type 0
IsInt32 (pos n) = n < 2 ^ 31
IsInt32 (negsuc n) = n < 2 ^ 31

little_endian-le_bytes4 : (n : ℕ) → n < 2 ^ 32 → little_endian (le_bytes 4 n) ≡ n
unfolding little_endian le_bytes
little_endian-le_bytes4 n h = omega arith

signed-pattern32 : (z : ℤ) → IsInt32 z → signed (2 ^ 31) (pattern32 z) ≡ z
signed-pattern32 (pos n) h = rw (lt→ltb n (2 ^ 31) h) refl
signed-pattern32 (negsuc n) h =
    let big : ltb (2 ^ 32 - 1 - n) (2 ^ 31) ≡ false =
      le→ltb_false (2 ^ 32 - 1 - n) (2 ^ 31) (omega arith) in
    let back : 2 ^ 31 * 2 - 1 - (2 ^ 32 - 1 - n) ≡ n = omega arith in rw big (ap negsuc back)

pattern32-bound : (z : ℤ) → IsInt32 z → pattern32 z < 2 ^ 32
pattern32-bound (pos n) h = omega arith
pattern32-bound (negsuc n) h = omega arith

le→leb : (a b : ℕ) → a ≤ b → leb a b ≡ true
le→leb a b h = ground arith

take-append : {A : Type 0} (xs ys : List A) → take (length xs) (xs ++ ys) ≡ xs
take-append [] ys = refl
take-append (x ∷ xs) ys = rw (take-append xs ys) refl

drop-append : {A : Type 0} (xs ys : List A) → drop (length xs) (xs ++ ys) ≡ ys
drop-append [] ys = refl
drop-append (x ∷ xs) ys = drop-append xs ys

must_read-append :
    (xs rest : Bytes) (s : LoadState)
    → s.rest ≡ xs ++ rest
    → must_read (length xs) s ≡ ok (xs, record s { rest = rest })
unfolding must_read
must_read-append xs rest s e =
    let l : length s.rest ≡ length (xs ++ rest) = ap length e in
    let enough : leb (length xs) (length s.rest) ≡ true =
      le→leb (length xs) (length s.rest) (omega (arith, length-append xs rest)) in
    rw (enough, must_read)
      (subst
        (λ bytes.
          Path (Result (Bytes × LoadState))
            (ok (take (length xs) bytes, record s { rest = drop (length xs) bytes }))
            (ok (xs, record s { rest = rest })))
        (sym e) (rw (take-append xs rest, drop-append xs rest) refl))

-- Reading a 32-bit integer gives back the one, of either sign, whose little-endian bytes come
-- next, and takes those four bytes.
pub read_i32-le_bytes :
    (z : ℤ) (rest : Bytes) (s : LoadState)
    → IsInt32 z
    → s.rest ≡ le_bytes 4 (pattern32 z) ++ rest
    → read_i32 s ≡ ok (z, record s { rest = rest })
unfolding read_i32 le_bytes
read_i32-le_bytes z rest s h e =
    let n = pattern32 z in
    let value : signed (2 ^ 31) (little_endian (le_bytes 4 n)) ≡ z =
      ap (λ m. signed (2 ^ 31) m) (little_endian-le_bytes4 n (pattern32-bound z h))
      ∙ signed-pattern32 z h in
    subst
      (λ r.
        Path (Result (ℤ × LoadState))
          (elim r [ ok r ↦ ok (signed (2 ^ 31) (little_endian r.0), r.1) | fail why ↦ fail why ])
          (ok (z, record s { rest = rest })))
      (sym (must_read-append (le_bytes 4 n) rest s e))
      (ap (λ i. ok (i, record s { rest = rest })) value)
