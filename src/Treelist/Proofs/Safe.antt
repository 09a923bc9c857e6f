-- ===== src/Treelist/Proofs/Safe.antt =====
-- Memory safety of the treelist builtins: the rules, one for each step that a builtin is made of.
use creme.Common.{
  ℕ, suc, zero, ◌≤◌, ◌<◌, ◌≡◌, inl, inr, refl, ◌∙◌, List, [], ◌∷◌, none, some, Result, ok, fail,
  abort, int_overflow, Abort, Returns, length, get_elem?, arith, leb, ltb, leb→le, ltb→lt, Bool,
  true, false, Bool-cases, ◌==◌,
}
use creme.Treelist.Node.{Node}
use creme.Treelist.WellFormed.{IsTree}
use creme.Treelist.Builtins.{
  v_treelist, tl_arg, tl_bounds, tl_bounds_incl, tl_count, cons_all, array_to_list, vector_arg,
}
use creme.Treelist.Mutable.{v_mutable_treelist, mtl_arg, set_root, any_tree_arg}
use creme.Value.{
  pos, negsuc, treelist, mutable_treelist, Value, nil, int, vector, box, Heap, M, pure, ◌>>=◌, lift,
  stop, gets, check, update, arg, check_min_args, cons, new_vector,
}

-- Every tree in the heap is well-formed.
pub record IsHeap (h : Heap) : Type 0 where
  pub trees : (a : ℕ) → IsTree (h.trees a)
  pub mutables : (a : ℕ) → IsTree (h.mutables a)

-- Objects may have been added, and those that were there are as they were: pairs, vectors and the
-- trees of immutable treelists.
pub record Extends (h h' : Heap) : Type 0 where
  pub grows : h.next ≤ h'.next
  pub same_trees : (a : ℕ) → a < h.next → h'.trees a ≡ h.trees a
  pub same_pairs : (a : ℕ) → a < h.next → h'.pairs a ≡ h.pairs a
  pub same_vectors : (a : ℕ) → a < h.next → h'.vectors a ≡ h.vectors a

pub Extends-refl : (h : Heap) → Extends h h
Extends-refl h = record {
  grows = omega arith;
  same_trees = λ a lt. refl;
  same_pairs = λ a lt. refl;
  same_vectors = λ a lt. refl;
}

Extends-trans : {h h' h'' : Heap} → Extends h h' → Extends h' h'' → Extends h h''
Extends-trans {h} {h'} {h''} e f =
    let up = e.grows in
    let up' = f.grows in
    record {
      grows = omega arith;
      same_trees = λ a lt. f.same_trees a (omega arith) ∙ e.same_trees a lt;
      same_pairs = λ a lt. f.same_pairs a (omega arith) ∙ e.same_pairs a lt;
      same_vectors = λ a lt. f.same_vectors a (omega arith) ∙ e.same_vectors a lt;
    }

-- From the heap `before`, the code returns with a well-formed heap that extends it and a result in
-- `P`, calls `creme_abort`, or makes a tree whose size an `int` does not hold: up to there it neither
-- leaves an array nor loops.
pub data Outcome {A : Type 0} (P : A → Type 0) (before : Heap) : Result (A × Heap) → Type 0 where
  returns : (a : A) (h : Heap) → P a → IsHeap h → Extends before h → Outcome P before (ok (a, h))
  aborts : (why : Abort) → Outcome P before (fail (abort why))
  overflows : Outcome P before (fail int_overflow)

abbrev pub Safe : {A : Type 0} → (A → Type 0) → M A → Type 0
Safe P m = (h : Heap) → IsHeap h → Outcome P h (m h)

abbrev pub Any : {A : Type 0} → A → Type 0
Any a = Unit

module _ {B : Type 0} {Q : B → Type 0} where
  later-Outcome :
      {h h' : Heap} {r : Result (B × Heap)} → Extends h h' → Outcome Q h' r → Outcome Q h r
  later-Outcome e (returns b h'' q w f) = returns b h'' q w (Extends-trans e f)
  later-Outcome e (aborts why) = aborts why
  later-Outcome e overflows = overflows

module _ {A B : Type 0} {P : A → Type 0} {Q : B → Type 0} where
  bind-Outcome :
      (f : A → M B) {h : Heap} {r : Result (A × Heap)}
      → Outcome P h r
      → ((a : A) → P a → Safe Q (f a))
      → Outcome Q h (elim r [ fail e ↦ fail e | ok r ↦ f r.0 r.1 ])
  bind-Outcome f (returns a h' p w e) k = later-Outcome e (k a p h' w)
  bind-Outcome f (aborts why) k = aborts why
  bind-Outcome f overflows k = overflows

  pub Safe-bind :
      (m : M A) (f : A → M B) → Safe P m → ((a : A) → P a → Safe Q (f a)) → Safe Q (m >>= f)
  Safe-bind m f s k h w = bind-Outcome f (s h w) k

module _ {A : Type 0} {P : A → Type 0} where
  pub Safe-pure : (a : A) → P a → Safe P (pure a)
  Safe-pure a p h w = returns a h p w (Extends-refl h)

  pub Safe-lift : (r : Result A) → Returns P r → Safe P (lift r)
  Safe-lift r (a, e, p) h w = rw e (returns a h p w (Extends-refl h))

  pub Safe-overflow : (r : Result A) → r ≡ fail int_overflow → Safe P (lift r)
  Safe-overflow r e h w = rw e overflows

  pub Safe-gets : (f : Heap → A) → ((h : Heap) → IsHeap h → P (f h)) → Safe P (gets f)
  Safe-gets f k h w = returns (f h) h (k h w) w (Extends-refl h)

  pub Safe-stop : (why : Abort) → Safe P (stop why)
  Safe-stop why h w = aborts why

pub Safe-check : (b : Bool) (why : Abort) → Safe (λ u. b ≡ true) (check b why)
Safe-check true why h w = returns tt h refl w (Extends-refl h)
Safe-check false why h w = aborts why

pub Safe-check_min_args :
    (args : List Value) (n : ℕ) → Safe (λ u. n ≤ length args) (check_min_args args n)
Safe-check_min_args args n h w = elim (Bool-cases (leb n (length args))) [
  | inl enough ↦ rw enough (returns tt h (leb→le n (length args) enough) w (Extends-refl h))
  | inr few ↦ rw few (aborts _)
]

pub get_elem?-lt :
    {A : Type 0} (xs : List A) (i : ℕ) → i < length xs → (x : A) × (get_elem? xs i ≡ some x)
get_elem?-lt [] i h = absurd (omega arith)
get_elem?-lt (x ∷ xs) zero h = (x, refl)
get_elem?-lt (x ∷ xs) (suc i) h = get_elem?-lt xs i (omega arith)

pub Safe-arg : (args : List Value) (i : ℕ) → i < length args → Safe Any (arg args i)
Safe-arg args i lt h w =
    let (v, e) = get_elem?-lt args i lt in rw (arg, e) (returns v h tt w (Extends-refl h))

pub Safe-tl_arg : (v : Value) → Safe IsTree (tl_arg v)
unfolding tl_arg
Safe-tl_arg (box treelist a) h w = returns _ h (w.trees a) w (Extends-refl h)
Safe-tl_arg _ h w = aborts _

module _ (size : ℕ) where
  pub Safe-tl_bounds : (v : Value) → Safe (λ i. i < size) (tl_bounds v size)
  unfolding tl_bounds
  Safe-tl_bounds (int (pos i)) =
      Safe-bind (check (ltb i size) _) _ (Safe-check (ltb i size) _)
        λ u e. Safe-pure i (ltb→lt i size e)
  Safe-tl_bounds (int (negsuc i)) = Safe-stop _
  Safe-tl_bounds _ = Safe-stop _

  pub Safe-tl_bounds_incl : (v : Value) → Safe (λ i. i ≤ size) (tl_bounds_incl v size)
  unfolding tl_bounds_incl
  Safe-tl_bounds_incl (int (pos i)) =
      Safe-bind (check (leb i size) _) _ (Safe-check (leb i size) _)
        λ u e. Safe-pure i (leb→le i size e)
  Safe-tl_bounds_incl (int (negsuc i)) = Safe-stop _
  Safe-tl_bounds_incl _ = Safe-stop _

  pub Safe-tl_count : (v : Value) → Safe (λ i. i ≤ size) (tl_count v size)
  unfolding tl_count
  Safe-tl_count (int (pos i)) =
      Safe-bind (check (leb i size) _) _ (Safe-check (leb i size) _)
        λ u e. Safe-pure i (leb→le i size e)
  Safe-tl_count (int (negsuc i)) = Safe-stop _
  Safe-tl_count _ = Safe-stop _

-- Writing a well-formed root keeps the heap well-formed.
update-IsTree :
    (f : ℕ → Node Value) (p : ℕ) (t : Node Value)
    → ((a : ℕ) → IsTree (f a))
    → IsTree t
    → (a : ℕ) → IsTree (update f p t a)
update-IsTree f p t w n a = elim (Bool-cases (p == a)) [
  | inl same ↦ rw (update, same) n
  | inr other ↦ rw (update, other) (w a)
]

-- A write at a new address leaves the old ones.
update_fresh : {A : Type 0} (f : ℕ → A) (p : ℕ) (v : A) (a : ℕ) → a < p → update f p v a ≡ f a
update_fresh f p v a lt = let other : (p == a) ≡ false = ground arith in rw (update, other)

pub Safe-v_treelist : (t : Node Value) → IsTree t → Safe Any (v_treelist t)
unfolding v_treelist
Safe-v_treelist t n h w =
    returns _ _ tt
      (record { trees = update-IsTree h.trees h.next t w.trees n; mutables = w.mutables })
      (record {
        grows = omega arith;
        same_trees = update_fresh h.trees h.next t;
        same_pairs = λ a lt. refl;
        same_vectors = λ a lt. refl;
      })

pub Safe-v_mutable_treelist : (t : Node Value) → IsTree t → Safe Any (v_mutable_treelist t)
unfolding v_mutable_treelist
Safe-v_mutable_treelist t n h w =
    returns _ _ tt
      (record { trees = w.trees; mutables = update-IsTree h.mutables h.next t w.mutables n })
      (record {
        grows = omega arith;
        same_trees = λ a lt. refl;
        same_pairs = λ a lt. refl;
        same_vectors = λ a lt. refl;
      })

pub Safe-set_root : (m : ℕ) (t : Node Value) → IsTree t → Safe Any (set_root m t)
Safe-set_root m t n h w =
    returns _ _ tt
      (record { trees = w.trees; mutables = update-IsTree h.mutables m t w.mutables n })
      (record {
        grows = omega arith;
        same_trees = λ a lt. refl;
        same_pairs = λ a lt. refl;
        same_vectors = λ a lt. refl;
      })

pub Safe-cons : (a d : Value) → Safe Any (cons a d)
unfolding cons
Safe-cons a d h w =
    returns _ _ tt (record { trees = w.trees; mutables = w.mutables })
      (record {
        grows = omega arith;
        same_trees = λ p lt. refl;
        same_pairs = update_fresh h.pairs h.next (record { car = a; cdr = d });
        same_vectors = λ p lt. refl;
      })

pub Safe-new_vector : (items : List Value) → Safe Any (new_vector items)
unfolding new_vector
Safe-new_vector items h w =
    returns _ _ tt (record { trees = w.trees; mutables = w.mutables })
      (record {
        grows = omega arith;
        same_trees = λ a lt. refl;
        same_pairs = λ a lt. refl;
        same_vectors = update_fresh h.vectors h.next items;
      })

Safe-cons_all : (xs : List Value) (r : Value) → Safe Any (cons_all xs r)
unfolding cons_all
Safe-cons_all [] r = Safe-pure r tt
Safe-cons_all (x ∷ xs) r = Safe-bind (cons x r) _ (Safe-cons x r) λ p u. Safe-cons_all xs p

pub Safe-array_to_list : (items : List Value) → Safe Any (array_to_list items)
unfolding array_to_list
Safe-array_to_list items = Safe-cons_all _ nil

pub Safe-vector_arg : (args : List Value) → Safe Any (vector_arg args)
unfolding vector_arg
Safe-vector_arg [] = Safe-stop _
Safe-vector_arg (vector a ∷ args) = Safe-gets (λ h. h.vectors a) (λ h w. tt)
Safe-vector_arg (_ ∷ args) = Safe-stop _

pub Safe-any_tree_arg : (v : Value) → Safe IsTree (any_tree_arg v)
unfolding any_tree_arg
Safe-any_tree_arg (box treelist a) = Safe-gets (λ h. h.trees a) (λ h w. w.trees a)
Safe-any_tree_arg (box mutable_treelist a) = Safe-gets (λ h. h.mutables a) (λ h w. w.mutables a)
Safe-any_tree_arg _ = Safe-stop _

pub Safe-mtl_arg : (v : Value) → Safe Any (mtl_arg v)
unfolding mtl_arg
Safe-mtl_arg (box mutable_treelist a) = Safe-pure a tt
Safe-mtl_arg _ = Safe-stop _

pub get_elem?-none : {A : Type 0} (xs : List A) (i : ℕ) → length xs ≤ i → get_elem? xs i ≡ none
get_elem?-none [] i h = refl
get_elem?-none (x ∷ xs) zero h = absurd (omega arith)
get_elem?-none (x ∷ xs) (suc i) h = get_elem?-none xs i (omega arith)
