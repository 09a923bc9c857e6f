-- ===== src/Radix/Spec.antt =====
-- What a trie of icecreme/radix.c holds, and what its patterns match.
use creme.Common.{ℕ, ◌≡◌, Bool, true, false, ◌||◌, Option, some, List, [], ◌∷◌, ◌++◌, drop, ◌==◌}
use creme.Csv.Parse.{Bytes}
use creme.Radix.Add.{token}
use creme.Radix.Find.{RadixParam}
use creme.Radix.Node.{
  RadixKind, normal, named, glob, RadixNode, node, Children, child, Token, key_of, kind_of,
}

module _ {V : Type 0} where
  pub data IsChild (t : RadixNode V) : Children V → Type 0 where
    first_child : {ts : Children V} → IsChild t (child t ts)
    other_child : {u : RadixNode V} {ts : Children V} → IsChild t ts → IsChild t (child u ts)

  -- A pattern below a node, as the tokens on the way down, and its payload.
  pub data Stored (v : V) : RadixNode V → List Token → Type 0 where
    stored_here :
        {key : Bytes} {kind : RadixKind} {cs : Children V} {payload : Option V}
        → payload ≡ some v
        → Stored v (node key kind cs payload) []
    stored_below :
        {key : Bytes} {kind : RadixKind} {cs : Children V} {payload : Option V} {t : RadixNode V}
        {toks : List Token}
        → IsChild t cs
        → Stored v t toks
        → Stored v (node key kind cs payload) (token (kind_of t) (key_of t) ∷ toks)

-- Runs come before names, names before globs.
abbrev pub precedence : RadixKind → ℕ
precedence normal = 0
precedence named = 1
precedence glob = 2

-- A text with no byte that stops.
pub data IsFree (stop : ℕ → Bool) : Bytes → Type 0 where
  free_end : IsFree stop []
  free_byte : {c : ℕ} {s : Bytes} → stop c ≡ false → IsFree stop s → IsFree stop (c ∷ s)

-- A text that is at its end or before a byte that stops.
pub data IsStopped (stop : ℕ → Bool) : Bytes → Type 0 where
  stopped_end : IsStopped stop []
  stopped_byte : {c : ℕ} {s : Bytes} → stop c ≡ true → IsStopped stop (c ∷ s)

abbrev pub is_slash : ℕ → Bool
is_slash c = c == 47

-- A colon or an asterisk.
abbrev pub is_mark : ℕ → Bool
is_mark c = c == 58 || c == 42

-- The tokens of a pattern: a name from a colon to the next slash, a glob from an asterisk to the end,
-- a run up to the next colon or asterisk.
pub data IsTokens : Bytes → List Token → Type 0 where
  no_tokens : IsTokens [] []
  name_token :
      {key name rest : Bytes} {toks : List Token}
      → key ≡ name ++ rest
      → IsFree is_slash name
      → IsStopped is_slash rest
      → IsTokens rest toks
      → IsTokens (58 ∷ key) (record { bytes = 58 ∷ name; kind = named } ∷ toks)
  glob_token : {key : Bytes} → IsTokens (42 ∷ key) (record { bytes = 42 ∷ key; kind = glob } ∷ [])
  run_token :
      {c : ℕ} {key run rest : Bytes} {toks : List Token}
      → is_mark c ≡ false
      → key ≡ run ++ rest
      → IsFree is_mark run
      → IsStopped is_mark rest
      → IsTokens rest toks
      → IsTokens (c ∷ key) (record { bytes = c ∷ run; kind = normal } ∷ toks)

-- What a list of tokens spells, however its runs are cut: single literal bytes, and whole names and
-- globs.
pub data Letter : Type 0 where
  literal : ℕ → Letter
  whole_name : Bytes → Letter
  whole_glob : Bytes → Letter

abbrev pub letters_of : RadixKind → Bytes → List Letter
letters_of kind [] = []
letters_of normal (c ∷ key) = literal c ∷ letters_of normal key
letters_of named (c ∷ key) = whole_name (c ∷ key) ∷ []
letters_of glob (c ∷ key) = whole_glob (c ∷ key) ∷ []

abbrev pub letters : List Token → List Letter
letters [] = []
letters (tok ∷ toks) = letters_of tok.kind tok.bytes ++ letters toks

-- What a name or a glob captures, its key without the mark.
abbrev pub captured_as : Bytes → Bytes → RadixParam
captured_as key value = record { name = drop 1 key; value = value }

-- A pattern matches a path with these captures: a run its own bytes, a name the bytes up to the next
-- slash, a glob all that is left. At the end of the path no token matches.
pub data Matches : List Token → Bytes → List RadixParam → Type 0 where
  at_end : Matches [] [] []
  match_run :
      {key : Bytes} {toks : List Token} {c : ℕ} {path rest : Bytes} {captures : List RadixParam}
      → c ∷ path ≡ key ++ rest
      → Matches toks rest captures
      → Matches (token normal key ∷ toks) (c ∷ path) captures
  match_name :
      {key : Bytes} {toks : List Token} {c : ℕ} {path value rest : Bytes}
      {captures : List RadixParam}
      → c ∷ path ≡ value ++ rest
      → IsFree is_slash value
      → IsStopped is_slash rest
      → Matches toks rest captures
      → Matches (token named key ∷ toks) (c ∷ path) (captured_as key value ∷ captures)
  match_rest :
      {key : Bytes} {toks : List Token} {c : ℕ} {path : Bytes} {captures : List RadixParam}
      → Matches toks [] captures
      → Matches (token glob key ∷ toks) (c ∷ path) (captured_as key (c ∷ path) ∷ captures)
