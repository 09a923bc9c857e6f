-- ===== src/Csv/Proofs/Same.antt =====
-- The comparison of bytes in icecreme/csv.c, radix.c and vm.c, which is `memcmp` at equal lengths.
use creme.Common.{◌≡◌, refl, ap, ◌∙◌, true, [], ◌∷◌, ◌==◌, arith}
use creme.Csv.Builtins.{same_bytes}
use creme.Csv.Parse.{Bytes}
use creme.Csv.Proofs.Cells.{and-true}

pub same_bytes-eq : (xs ys : Bytes) → same_bytes xs ys ≡ true → xs ≡ ys
same_bytes-eq [] [] e = refl
same_bytes-eq [] (d ∷ ys) e = absurd (cc e)
same_bytes-eq (c ∷ xs) [] e = absurd (cc e)
same_bytes-eq (c ∷ xs) (d ∷ ys) e =
    let (first, rest) = and-true (c == d) (same_bytes xs ys) e in
    let equal : c ≡ d = ground arith in
    ap (λ x. x ∷ xs) equal ∙ ap (λ r. d ∷ r) (same_bytes-eq xs ys rest)

pub same_bytes_refl : (s : Bytes) → same_bytes s s ≡ true
same_bytes_refl [] = refl
same_bytes_refl (c ∷ s) = let e : (c == c) ≡ true = ground arith in rw (e, same_bytes_refl s) refl
