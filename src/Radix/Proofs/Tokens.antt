-- ===== src/Radix/Proofs/Tokens.antt =====
-- The tokenizer of icecreme/radix.c cuts a key into names, globs and runs.
use creme.Common.{
  ℕ, zero, suc, ◌≤◌, ◌≡◌, refl, ap, inl, inr, Bool, [], ◌∷◌, ◌++◌, length, ◌==◌, Bool-cases, arith,
}
use creme.Csv.Parse.{Bytes}
use creme.Radix.Add.{run_until, starts_param, tokenize}
use creme.Radix.Spec.{
  IsFree, free_end, free_byte, IsStopped, stopped_end, stopped_byte, is_slash, is_mark, IsTokens,
  no_tokens, name_token, glob_token, run_token,
}

pub run_until-whole :
    (stop : ℕ → Bool) (key : Bytes) → key ≡ (run_until stop key).0 ++ (run_until stop key).1
unfolding run_until
run_until-whole stop [] = refl
run_until-whole stop (c ∷ key) = elim (Bool-cases (stop c)) [
  | inl at ↦ rw at refl
  | inr before ↦ rw before (ap (λ r. c ∷ r) (run_until-whole stop key))
]

pub run_until-IsFree : (stop : ℕ → Bool) (key : Bytes) → IsFree stop (run_until stop key).0
unfolding run_until
run_until-IsFree stop [] = free_end
run_until-IsFree stop (c ∷ key) = elim (Bool-cases (stop c)) [
  | inl at ↦ rw at free_end
  | inr before ↦ rw before (free_byte before (run_until-IsFree stop key))
]

pub run_until-IsStopped : (stop : ℕ → Bool) (key : Bytes) → IsStopped stop (run_until stop key).1
unfolding run_until
run_until-IsStopped stop [] = stopped_end
run_until-IsStopped stop (c ∷ key) = elim (Bool-cases (stop c)) [
  | inl at ↦ rw at (stopped_byte at)
  | inr before ↦ rw before (run_until-IsStopped stop key)
]

-- There is one way to cut.
pub run_until-append :
    (stop : ℕ → Bool) {run rest : Bytes}
    → IsFree stop run
    → IsStopped stop rest
    → run_until stop (run ++ rest) ≡ (run, rest)
unfolding run_until
run_until-append stop free_end stopped_end = refl
run_until-append stop free_end (stopped_byte at) = rw at refl
run_until-append stop (free_byte {c} before free) stopped =
    rw before (ap (λ r. (c ∷ r.0, r.1)) (run_until-append stop free stopped))

run_until-shrinks : (stop : ℕ → Bool) (key : Bytes) → length (run_until stop key).1 ≤ length key
unfolding run_until
run_until-shrinks stop [] = omega arith
run_until-shrinks stop (c ∷ key) =
    let rest = run_until-shrinks stop key in
    elim (Bool-cases (stop c)) [
      | inl at ↦ rw at (omega arith)
      | inr before ↦ rw before (omega arith)
    ]

tokenize-IsTokens :
    (rounds : ℕ) (key : Bytes) → length key ≤ rounds → IsTokens key (tokenize rounds key)
unfolding tokenize
tokenize-IsTokens zero [] enough = no_tokens
tokenize-IsTokens zero (c ∷ key) enough = absurd (omega arith)
tokenize-IsTokens (suc rounds) [] enough = no_tokens
tokenize-IsTokens (suc rounds) (c ∷ key) enough =
    let name = run_until is_slash key in
    let run = run_until starts_param key in
    let short = run_until-shrinks is_slash key in
    let short' = run_until-shrinks starts_param key in
    elim (Bool-cases (c == b':')) [
      | inl colon ↦
          let is_colon : c ≡ b':' = ground arith in
          rw (colon, is_colon)
            (name_token (run_until-whole is_slash key) (run_until-IsFree is_slash key)
              (run_until-IsStopped is_slash key) (tokenize-IsTokens rounds name.1 (omega arith)))
      | inr other ↦ elim (Bool-cases (c == b'*')) [
        | inl star ↦ let is_star : c ≡ b'*' = ground arith in rw (other, star, is_star) glob_token
        | inr plain ↦
            rw (other, plain)
              (run_token (rw (other, plain) refl) (run_until-whole is_mark key)
                (run_until-IsFree is_mark key) (run_until-IsStopped is_mark key)
                (tokenize-IsTokens rounds run.1 (omega arith)))
      ]
    ]

-- With as many rounds as the pattern has bytes, the tokenizer returns the tokens of the pattern: a
-- name from a colon up to the next slash, a glob from an asterisk to the end, a run up to the next
-- colon or asterisk, each with its kind, and no byte is left.
pub tokenize_lem : (key : Bytes) → IsTokens key (tokenize (length key) key)
tokenize_lem key = tokenize-IsTokens (length key) key (omega arith)
