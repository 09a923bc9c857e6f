-- ===== src/Radix/Proofs/Precedence.antt =====
-- A run of literal bytes beats a name or a glob in a lookup of icecreme/radix.c.
use creme.Common.{ℕ, ◌≤◌, ◌≡◌, refl, ap, true, List, inl, inr, Option-cases, arith}
use creme.Csv.Parse.{Bytes}
use creme.Radix.Find.{RadixParam, Found, attempt, find_rec, find_child}
use creme.Radix.Node.{
  RadixKind, normal, named, glob, RadixNode, Children, no_children, child, key_of, kind_of,
}
use creme.Radix.Proofs.Find.{is_found}
use creme.Radix.Proofs.Order.{rank, IsOrderedFrom}
use creme.Radix.Spec.{IsChild, first_child, other_child, precedence}

rank-zero : (kind : RadixKind) → precedence kind ≤ 0 → kind ≡ normal
rank-zero normal low = refl
rank-zero named low = absurd (omega arith)
rank-zero glob low = absurd (omega arith)

module _ {V : Type 0} (max_params : ℕ) where
  -- The result of the loop of `find_rec` for one child.
  abbrev pub attempt_at : RadixNode V → Bytes → List RadixParam → Found V
  attempt_at t path params =
      attempt max_params (kind_of t) (key_of t) path params
        (λ rest params'. find_rec max_params t rest params')

  IsOrderedFrom-IsChild :
      (low : ℕ) (cs : Children V) (t : RadixNode V)
      → IsOrderedFrom low cs
      → IsChild t cs
      → low ≤ rank t
  unfolding IsOrderedFrom
  IsOrderedFrom-IsChild low no_children t w c = elim c [ ]
  IsOrderedFrom-IsChild low (child t ts) _ (above, w, ws) first_child = above
  IsOrderedFrom-IsChild low (child u us) t (above, w, ws) (other_child c) =
      omega (arith, IsOrderedFrom-IsChild (rank u) us t ws c)

  -- Among children in order, if an attempt at a run succeeds then the result of the lookup is that
  -- of a child that is a run, whatever names and globs would match too.
  pub find_child-normal_first :
      (low : ℕ) (cs : Children V) (path : Bytes) (params : List RadixParam) (t : RadixNode V)
      → IsOrderedFrom low cs
      → IsChild t cs
      → kind_of t ≡ normal
      → is_found max_params (attempt_at t path params) ≡ true
      → (u : RadixNode V) × IsChild u cs
        × (kind_of u ≡ normal)
        × (find_child max_params cs path params ≡ attempt_at u path params)
  unfolding find_child IsOrderedFrom
  find_child-normal_first low no_children path params t w is_child static found = elim is_child [ ]
  find_child-normal_first low (child u us) path params _ w first_child static found =
      elim (Option-cases (attempt_at u path params)) [
        | inl failed ↦ absurd (cc (rw failed at found))
        | inr (r, succeeded) ↦ (u, first_child, static, rw succeeded refl)
      ]
  find_child-normal_first low (child u us) path params t (above, w, ws) (other_child c) static
        found =
      elim (Option-cases (attempt_at u path params)) [
        | inl failed ↦
            let (v, c', static', e) =
              find_child-normal_first (rank u) us path params t ws c static found in
            (v, other_child c', static', rw failed e)
        | inr (r, succeeded) ↦
            let lowest : rank t ≡ 0 = ap precedence static in
            let first : rank u ≤ 0 = omega (arith, IsOrderedFrom-IsChild (rank u) us t ws c) in
            (u, first_child, rank-zero (kind_of u) first, rw succeeded refl)
      ]
