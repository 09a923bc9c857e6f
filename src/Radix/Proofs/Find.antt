-- ===== src/Radix/Proofs/Find.antt =====
-- A lookup of icecreme/radix.c finds a stored pattern that matches, if there is one.
use creme.Common.{
  ℕ, ◌≤◌, ◌≡◌, ◌⊎◌, ◌∙◌, ◌++◌, ◌==◌, append-nil, append_assoc, take, refl, sym, ap, subst, inl, inr,
  Bool, true, false, none, some, List, [], ◌∷◌, length, length-append, drop, ltb, ltb→lt,
  Bool-cases, arith,
}
use creme.Csv.Parse.{Bytes}
use creme.Csv.Proofs.Cells.{and-true}
use creme.Radix.Add.{token, RadixTree}
use creme.Radix.Find.{
  RadixParam, Found, behind_first_byte, is_prefix, segment, capture, or_else, attempt, find_rec,
  find_child, radix_tree_find,
}
use creme.Radix.Node.{
  RadixKind, normal, named, glob, RadixNode, node, Children, no_children, child, Token, key_of,
  kind_of,
}
use creme.Radix.Proofs.Tokens.{
  run_until-whole, run_until-IsFree, run_until-IsStopped, run_until-append,
}
use creme.Radix.Spec.{
  IsChild, first_child, other_child, Stored, stored_here, stored_below, is_slash, captured_as,
  Matches, at_end, match_run, match_name, match_rest,
}
use creme.Treelist.Proofs.Ranges.{take-append_left, drop-append_right, take_all}

is_prefix-split :
    (key path : Bytes) → is_prefix key path ≡ true → path ≡ key ++ drop (length key) path
is_prefix-split [] path e = refl
is_prefix-split (c ∷ key) [] e = absurd (cc e)
is_prefix-split (c ∷ key) (d ∷ path) e =
    let (first, rest) = and-true (c == d) (is_prefix key path) e in
    let same : d ≡ c = ground arith in
    ap (λ x. x ∷ path) same ∙ ap (λ p. c ∷ p) (is_prefix-split key path rest)

is_prefix-append : (key rest : Bytes) → is_prefix key (key ++ rest) ≡ true
is_prefix-append [] rest = refl
is_prefix-append (c ∷ key) rest =
    let same : (c == c) ≡ true = ground arith in rw (same, is_prefix-append key rest) refl

behind_first_byte-drop : (key : Bytes) → behind_first_byte key ≡ drop 1 key
behind_first_byte-drop [] = refl
behind_first_byte-drop (c ∷ key) = refl

no_token_at_end :
    {tok : Token} {toks : List Token} {captures : List RadixParam}
    → Matches (tok ∷ toks) [] captures
    → ⊥
no_token_at_end matches = elim matches [ ]

-- A capture is dropped when there is no room for it.
module _ (max_params : ℕ) where
  capture-take :
      (params captures : List RadixParam) (key value : Bytes)
      → take max_params (capture max_params params key value ++ captures)
        ≡ take max_params (params ++ (captured_as key value ∷ captures))
  capture-take params captures key value = elim (Bool-cases (ltb (length params) max_params)) [
    | inl room ↦
        rw (room, behind_first_byte-drop key)
          (ap (take max_params) (append_assoc params (captured_as key value ∷ []) captures))
    | inr full ↦
        let below : max_params ≤ length params = ground arith in
        rw full (
          take-append_left params captures max_params below
          ∙ sym (take-append_left params (captured_as key value ∷ captures) max_params below))
  ]

  capture-bounded :
      (params : List RadixParam) (key value : Bytes)
      → length params ≤ max_params
      → length (capture max_params params key value) ≤ max_params
  capture-bounded params key value fits = elim (Bool-cases (ltb (length params) max_params)) [
    | inl room ↦
        rw room
          (omega (arith, ltb→lt (length params) max_params room, length-append params (_ ∷ [])))
    | inr full ↦ rw full fits
  ]

module _ {V : Type 0} (max_params : ℕ) where
  -- A stored pattern that matches.
  abbrev IsMatch : RadixNode V → Bytes → List RadixParam → V × List RadixParam → Type 0
  IsMatch t path before r =
      (toks : List Token) × (captures : List RadixParam) × Stored r.0 t toks
      × Matches toks path captures
      × (r.1 ≡ take max_params (before ++ captures))

  -- The same for the children of a node, with a path that is not at its end.
  abbrev IsMatchBelow : Children V → Bytes → List RadixParam → V × List RadixParam → Type 0
  IsMatchBelow cs path before r =
      (t : RadixNode V) × (toks : List Token) × (captures : List RadixParam) × IsChild t cs
      × Stored r.0 t toks
      × Matches (token (kind_of t) (key_of t) ∷ toks) path captures
      × (r.1 ≡ take max_params (before ++ captures))

  attempt_lem :
      (kind : RadixKind) (key : Bytes) (c : ℕ) (path : Bytes) (before : List RadixParam)
      (t : RadixNode V) (r : V × List RadixParam)
      → length before ≤ max_params
      → ((rest : Bytes) (before' : List RadixParam)
          → length before' ≤ max_params
          → find_rec max_params t rest before' ≡ some r
          → IsMatch t rest before' r)
      → attempt max_params kind key
          (c ∷ path)
          before
          (λ rest params. find_rec max_params t rest params)
        ≡ some r
      → (toks : List Token) × (captures : List RadixParam) × Stored r.0 t toks
        × Matches (token kind key ∷ toks) (c ∷ path) captures
        × (r.1 ≡ take max_params (before ++ captures))
  attempt_lem normal key c path before t r fits visit e =
      elim (Bool-cases (is_prefix key (c ∷ path))) [
        | inl is ↦
            let (toks, captures, stored, matches, q) =
              visit (drop (length key) (c ∷ path)) before fits (rw is at e) in
            (toks, captures, stored, match_run (is_prefix-split key (c ∷ path) is) matches, q)
        | inr apart ↦ absurd (cc (rw apart at e))
      ]
  attempt_lem named key c path before t r fits visit e =
      let cut = segment (c ∷ path) in
      let (toks, captures, stored, matches, q) =
        visit cut.1 (capture max_params before key cut.0)
          (capture-bounded max_params before key cut.0 fits) e in
      (
        toks,
        captured_as key cut.0 ∷ captures,
        stored,
        match_name (run_until-whole is_slash (c ∷ path)) (run_until-IsFree is_slash (c ∷ path))
            (run_until-IsStopped is_slash (c ∷ path)) matches,
        q ∙ capture-take max_params before captures key cut.0,
      )
  attempt_lem glob key c path before t r fits visit e =
      let (toks, captures, stored, matches, q) =
        visit [] (capture max_params before key (c ∷ path))
          (capture-bounded max_params before key (c ∷ path) fits) e in
      (
        toks,
        captured_as key (c ∷ path) ∷ captures,
        stored,
        match_rest matches,
        q ∙ capture-take max_params before captures key (c ∷ path),
      )

  or_else-some :
      (a b : Found V) (r : V × List RadixParam)
      → or_else max_params a b ≡ some r
      → (a ≡ some r) ⊎ (b ≡ some r)
  or_else-some none b r e = inr e
  or_else-some (some x) b r e = inl e

  found-injective : {a b : V × List RadixParam} → Path (Found V) (some a) (some b) → a ≡ b
  found-injective {a} e = ap (λ o. elim o [ some x ↦ x | none ↦ a ]) e

  mutual
    unfolding find_rec find_child

    find_rec_sound :
        (t : RadixNode V) (path : Bytes) (before : List RadixParam) (r : V × List RadixParam)
        → length before ≤ max_params
        → find_rec max_params t path before ≡ some r
        → IsMatch t path before r
    find_rec_sound (node key kind cs none) [] before r fits e = absurd (cc e)
    find_rec_sound (node key kind cs (some v)) [] before r fits e =
        subst (λ x. IsMatch (node key kind cs (some v)) [] before x) (found-injective e)
          (
            [],
            [],
            stored_here refl,
            at_end,
            sym (ap (take max_params) (append-nil before) ∙ take_all before max_params fits),
          )
    find_rec_sound (node key kind cs payload) (c ∷ path) before r fits e =
        let (t, toks, captures, is_child, stored, matches, q) =
          find_child_sound cs c path before r fits e in
        (_, captures, stored_below is_child stored, matches, q)

    find_child_sound :
        (cs : Children V) (c : ℕ) (path : Bytes) (before : List RadixParam)
        (r : V × List RadixParam)
        → length before ≤ max_params
        → find_child max_params cs (c ∷ path) before ≡ some r
        → IsMatchBelow cs (c ∷ path) before r
    find_child_sound no_children c path before r fits e = absurd (cc e)
    find_child_sound (child t ts) c path before r fits e = elim (or_else-some _ _ r e) [
      | inl here ↦
          let (toks, captures, stored, matches, q) =
            attempt_lem (kind_of t) (key_of t) c path before t r fits
              (λ rest before' fits' e'. find_rec_sound t rest before' r fits' e') here in
          (t, toks, captures, first_child, stored, matches, q)
      | inr later ↦
          let (u, toks, captures, is_child, stored, matches, q) =
            find_child_sound ts c path before r fits later in
          (u, toks, captures, other_child is_child, stored, matches, q)
    ]

  abbrev pub is_found : Found V → Bool
  is_found none = false
  is_found (some r) = true

  or_else-first : (a b : Found V) → is_found a ≡ true → is_found (or_else max_params a b) ≡ true
  or_else-first none b e = absurd (cc e)
  or_else-first (some r) b e = refl

  or_else-second : (a b : Found V) → is_found b ≡ true → is_found (or_else max_params a b) ≡ true
  or_else-second none b e = e
  or_else-second (some r) b e = refl

  -- An attempt at a child succeeds if a lookup in it does, wherever the token leads.
  attempt_complete :
      {toks : List Token} {c : ℕ} {path : Bytes} {captures : List RadixParam} (kind : RadixKind)
      (key : Bytes) (t : RadixNode V) (before : List RadixParam)
      → ((rest : Bytes) (captures' : List RadixParam) (before' : List RadixParam)
          → Matches toks rest captures'
          → is_found (find_rec max_params t rest before') ≡ true)
      → Matches (token kind key ∷ toks) (c ∷ path) captures
      → is_found (
          attempt max_params kind key
            (c ∷ path)
            before
            (λ rest params. find_rec max_params t rest params))
        ≡ true
  attempt_complete normal key t before visit (match_run {rest} e matches) =
      rw (e, is_prefix-append key rest, drop-append_right key rest (length key) 0 (omega arith))
        (visit rest _ before matches)
  attempt_complete named key t before visit (match_name {value} {rest} e free stopped matches) =
      rw (e, run_until-append is_slash free stopped) (visit rest _ _ matches)
  attempt_complete glob key t before visit (match_rest matches) = visit [] _ _ matches

  mutual
    unfolding find_rec find_child

    find_rec_complete :
        {v : V} {captures : List RadixParam} (t : RadixNode V) (toks : List Token) (path : Bytes)
        (before : List RadixParam)
        → Stored v t toks
        → Matches toks path captures
        → is_found (find_rec max_params t path before) ≡ true
    find_rec_complete (node key kind cs payload) [] _ before (stored_here e) at_end = rw e refl
    find_rec_complete (node key kind cs payload) (tok ∷ toks) [] before stored matches =
        absurd (no_token_at_end matches)
    find_rec_complete (node key kind cs payload) (_ ∷ toks) (c ∷ path) before
          (stored_below {t} is_child stored) matches =
        find_child_complete cs t toks c path before is_child stored matches

    find_child_complete :
        {v : V} {captures : List RadixParam} (cs : Children V) (t : RadixNode V) (toks : List Token)
        (c : ℕ) (path : Bytes) (before : List RadixParam)
        → IsChild t cs
        → Stored v t toks
        → Matches (token (kind_of t) (key_of t) ∷ toks) (c ∷ path) captures
        → is_found (find_child max_params cs (c ∷ path) before) ≡ true
    find_child_complete no_children t toks c path before is_child stored matches = elim is_child [ ]
    find_child_complete (child t ts) _ toks c path before first_child stored matches =
        or_else-first _ _ (
          attempt_complete (kind_of t) (key_of t) t before
            (λ rest captures' before' m. find_rec_complete t toks rest before' stored m) matches)
    find_child_complete (child u ts) t toks c path before (other_child is_child) stored matches =
        or_else-second _ _ (find_child_complete ts t toks c path before is_child stored matches)

  -- What a lookup in any tree returns is the payload of a stored pattern that matches the path,
  -- and the captures are the first of that pattern, at most as many as there is room for, with
  -- none of a failed attempt.
  pub radix_tree_find_sound :
      (t : RadixTree V) (path : Bytes) (v : V) (params : List RadixParam)
      → radix_tree_find max_params t path ≡ some (v, params)
      → (toks : List Token) × (captures : List RadixParam) × Stored v t.root toks
        × Matches toks path captures
        × (params ≡ take max_params captures)
  unfolding radix_tree_find
  radix_tree_find_sound t path v params e =
      find_rec_sound t.root path [] (v, params) (omega arith) e

  -- If a stored pattern matches the path then the lookup returns a payload, whatever attempts
  -- failed before.
  pub radix_tree_find_complete :
      (t : RadixTree V) (path : Bytes) (toks : List Token) (v : V) (captures : List RadixParam)
      → Stored v t.root toks
      → Matches toks path captures
      → is_found (radix_tree_find max_params t path) ≡ true
  unfolding radix_tree_find
  radix_tree_find_complete t path toks v captures stored matches =
      find_rec_complete t.root toks path [] stored matches
