-- ===== src/Treelist/Proofs/Shapes.antt =====
-- Memory safety of the shapes that the treelist builtins have.
use creme.Common.{ℕ, ◌≤◌, ◌<◌, ◌∙◌, inl, inr, ap, List, Returns-weaken, length, arith}
use creme.Treelist.Node.{Node, size_of}
use creme.Treelist.Access.{read, node_ref, node_set}
use creme.Treelist.WellFormed.{elements, IsTree, size_of-eq-length}
use creme.Treelist.Proofs.Ref.{node_ref-eq-read, node_set_lem}
use creme.Treelist.Builtins.{v_treelist, tl_arg, on_treelist, from_index}
use creme.Treelist.Mutable.{mtl_arg, root_of, set_root, on_mutable, replace_root, replace_at}
use creme.Value.{Value, M, lift, arg, check_min_args}
use creme.Treelist.Proofs.Safe.{
  Safe, Any, Safe-bind, Safe-lift, Safe-gets, Safe-check_min_args, Safe-arg, Safe-tl_arg,
  Safe-v_treelist, Safe-set_root, Safe-mtl_arg, get_elem?-lt,
}

module _ {A : Type 0} {Q : A → Type 0} (n : ℕ) (args : List Value) (some_arg : 1 ≤ n) where
  pub Safe-on_treelist :
      (body : Node Value → M A)
      → ((t : Node Value) → IsTree t → n ≤ length args → Safe Q (body t))
      → Safe Q (on_treelist n body args)
  Safe-on_treelist body k =
      Safe-bind (check_min_args args n) _ (Safe-check_min_args args n) λ u enough.
        Safe-bind (arg args 0) _ (Safe-arg args 0 (omega arith))
          λ v u. Safe-bind (tl_arg v) body (Safe-tl_arg v) λ t w. k t w enough

  pub Safe-on_mutable :
      (body : ℕ → Node Value → M A)
      → ((m : ℕ) (t : Node Value) → IsTree t → n ≤ length args → Safe Q (body m t))
      → Safe Q (on_mutable n body args)
  Safe-on_mutable body k =
      Safe-bind (check_min_args args n) _ (Safe-check_min_args args n) λ u enough.
        Safe-bind (arg args 0) _ (Safe-arg args 0 (omega arith)) λ v u.
          Safe-bind (mtl_arg v) _ (Safe-mtl_arg v)
            λ m u. Safe-bind (root_of m) _ (Safe-gets _ (λ h w. w.mutables m)) λ t w. k m t w enough

-- A checked number stands in `P`, given the size of the treelist.
module _ (P : ℕ → ℕ → Type 0) (bound : Value → ℕ → M ℕ)
    (checks : (size : ℕ) (v : Value) → Safe (P size) (bound v size)) (n : ℕ) (args : List Value)
    (two : 2 ≤ n) (body : Node Value → ℕ → M (Node Value))
    (k : (t : Node Value) (i : ℕ)
      → IsTree t
      → P (size_of t) i
      → n ≤ length args
      → Safe IsTree (body t i)) where
  pub Safe-from_index : Safe Any (from_index bound n body args)
  Safe-from_index = Safe-on_treelist n args (omega arith) _ λ t w enough.
      Safe-bind (arg args 1) _ (Safe-arg args 1 (omega arith)) λ v u.
        Safe-bind (bound v (size_of t)) _ (checks (size_of t) v)
          λ i p. Safe-bind (body t i) v_treelist (k t i w p enough) Safe-v_treelist

  pub Safe-replace_at : Safe Any (replace_at bound n body args)
  Safe-replace_at = Safe-on_mutable n args (omega arith) _ λ m t w enough.
      Safe-bind _ (set_root m)
        (Safe-bind (arg args 1) _ (Safe-arg args 1 (omega arith))
          λ v u. Safe-bind (bound v (size_of t)) _ (checks (size_of t) v) λ i p. k t i w p enough)
        (Safe-set_root m)

pub Safe-replace_root :
    (n : ℕ) (args : List Value) (body : Node Value → M (Node Value))
    → 1 ≤ n
    → ((t : Node Value) → IsTree t → n ≤ length args → Safe IsTree (body t))
    → Safe Any (replace_root n body args)
Safe-replace_root n args body one k =
    Safe-on_mutable n args one _
      λ m t w enough. Safe-bind (body t) (set_root m) (k t w enough) (Safe-set_root m)

-- Reading and writing within the size.
pub Safe-node_ref :
    (t : Node Value) (i : ℕ) → IsTree t → i < size_of t → Safe Any (lift (node_ref t i))
Safe-node_ref t i (inl n, _) lt =
    let size = size_of-eq-length t n in
    let (v, e) = get_elem?-lt (elements t) i (omega arith) in
    Safe-lift _ (v, node_ref-eq-read t i n ∙ rw (read, e), tt)
Safe-node_ref t i (inr e, _) lt = absurd (omega (arith, ap size_of e))

pub Safe-node_set :
    (t : Node Value) (i : ℕ) (v : Value)
    → IsTree t
    → i < size_of t
    → Safe IsTree (lift (node_set t i v))
Safe-node_set t i v (inl n, fits) lt =
    let size = size_of-eq-length t n in
    Safe-lift _ (
      Returns-weaken
        (λ u (m, h, same, e). let size' = size_of-eq-length u m in (inl m, omega arith))
        (node_set_lem t i v n (omega arith)))
Safe-node_set t i v (inr e, _) lt = absurd (omega (arith, ap size_of e))
