-- ===== src/Treelist/Proofs/Ranges.antt =====
-- Ranges of a sequence, which the slices of icecreme/treelist.c hold.
use creme.Common.{
  ℕ, suc, zero, ◌+◌, ◌-◌, ◌≤◌, ◌≡◌, refl, ap, ◌∙◌, sym, List, [], ◌∷◌, ◌++◌, length, take, drop,
  length-drop, arith,
}

module _ {A : Type 0} where
  -- Items `from` to `to` of a sequence, the latter excluded.
  abbrev pub range : ℕ → ℕ → List A → List A
  range from to xs = take (to - from) (drop from xs)

  pub drop-append_right :
      (xs ys : List A) (n k : ℕ) → n ≡ length xs + k → drop n (xs ++ ys) ≡ drop k ys
  drop-append_right [] ys n k h = ap (λ m. drop m ys) (omega arith)
  drop-append_right (x ∷ xs) ys zero k h = absurd (omega arith)
  drop-append_right (x ∷ xs) ys (suc n) k h = drop-append_right xs ys n k (omega arith)

  pub drop-append_left :
      (xs ys : List A) (n : ℕ) → n ≤ length xs → drop n (xs ++ ys) ≡ drop n xs ++ ys
  drop-append_left xs ys zero h = refl
  drop-append_left [] ys (suc n) h = absurd (omega arith)
  drop-append_left (x ∷ xs) ys (suc n) h = drop-append_left xs ys n (omega arith)

  pub take-append_left : (xs ys : List A) (n : ℕ) → n ≤ length xs → take n (xs ++ ys) ≡ take n xs
  take-append_left xs ys zero h = refl
  take-append_left [] ys (suc n) h = absurd (omega arith)
  take-append_left (x ∷ xs) ys (suc n) h = ap (x ∷◌) (take-append_left xs ys n (omega arith))

  pub take-append_right :
      (xs ys : List A) (n k : ℕ) → n ≡ length xs + k → take n (xs ++ ys) ≡ xs ++ take k ys
  take-append_right [] ys n k h = ap (λ m. take m ys) (omega arith)
  take-append_right (x ∷ xs) ys zero k h = absurd (omega arith)
  take-append_right (x ∷ xs) ys (suc n) k h = ap (x ∷◌) (take-append_right xs ys n k (omega arith))

  pub take_all : (xs : List A) (n : ℕ) → length xs ≤ n → take n xs ≡ xs
  take_all [] zero h = refl
  take_all [] (suc n) h = refl
  take_all (x ∷ xs) zero h = absurd (omega arith)
  take_all (x ∷ xs) (suc n) h = ap (x ∷◌) (take_all xs n (omega arith))

  -- A range that ends in the first part, begins in the second, or crosses from one to the other.
  pub range-append_left :
      (xs ys : List A) (a b : ℕ) → a ≤ b → b ≤ length xs → range a b (xs ++ ys) ≡ range a b xs
  range-append_left xs ys a b h k =
      let l = length-drop {0} a xs in
      ap (take (b - a)) (drop-append_left xs ys a (omega arith))
      ∙ take-append_left (drop a xs) ys (b - a) (omega arith)

  pub range-append_right :
      (xs ys : List A) (a b c d : ℕ)
      → a ≡ length xs + c
      → b - a ≡ d - c
      → range a b (xs ++ ys) ≡ range c d ys
  range-append_right xs ys a b c d h k =
      ap (take (b - a)) (drop-append_right xs ys a c h) ∙ ap (λ n. take n (drop c ys)) k

  pub range-append_across :
      (xs ys : List A) (a b d : ℕ)
      → a ≤ length xs
      → b ≡ length xs + d
      → range a b (xs ++ ys) ≡ range a (length xs) xs ++ range 0 d ys
  range-append_across xs ys a b d h k =
      let l = length-drop {0} a xs in
      ap (take (b - a)) (drop-append_left xs ys a h)
      ∙ take-append_right (drop a xs) ys (b - a) d (omega arith)
      ∙ ap (λ zs. zs ++ take d ys) (sym (take_all (drop a xs) (length xs - a) (omega arith)))
      ∙ ap (λ n. range a (length xs) xs ++ take n ys) (omega arith)

  pub range-eq : (a b c d : ℕ) (xs : List A) → a ≡ c → b ≡ d → range a b xs ≡ range c d xs
  range-eq a b c d xs p q = ap (λ k. range k b xs) p ∙ ap (λ k. range c k xs) q
