-- ===== src/Json/Proofs/Puts.antt =====
-- The output buffer of icecreme/json.c: what it holds after bytes are put behind those it has.
use creme.Common.{
  ℕ, ◌+◌, ◌*◌, ◌≤◌, ◌<◌, ◌≡◌, refl, sym, ap, ◌∙◌, inl, inr, true, false, [], ◌∷◌, ◌++◌, append-nil,
  append_assoc, Result, ok, ◌>>=◌, length, length-append, leb, leb→le, Bool-cases, Bool,
  if◌then◌else◌, arith,
}
use creme.Csv.Parse.{Bytes}
use creme.Csv.Proofs.Buffer.{limit, grow_cap-enough, grow_cap-bounded}
use creme.Csv.Write.{int_max, grow_cap}
use creme.Json.Buffer.{GBuf, gbuf_init, gbuf_reserve, gbuf_puts, gbuf_putc}

-- The bytes are inside the allocation, whose size an int holds.
pub record IsGBuf (b : GBuf) : Type 0 where
  pub inside : length b.buf ≤ b.cap
  pub some_cap : 1 ≤ b.cap
  pub int_cap : b.cap ≤ int_max

-- The result is the buffer with the bytes behind its own.
pub data Puts (b : GBuf) (bytes : Bytes) : Result GBuf → Type 0 where
  has_put : (b' : GBuf) → IsGBuf b' → b'.buf ≡ b.buf ++ bytes → Puts b bytes (ok b')

-- The bytes fit behind those of the buffer.
abbrev pub Fits : GBuf → Bytes → Type 0
Fits b bytes = length b.buf + length bytes ≤ limit

pub gbuf_init-IsGBuf : IsGBuf gbuf_init
gbuf_init-IsGBuf = record { inside = omega arith; some_cap = omega arith; int_cap = omega arith }

-- What `gbuf_reserve` gives: the same bytes, and room for more.
data Reserved (b : GBuf) (extra : ℕ) : Result GBuf → Type 0 where
  reserved :
      (b' : GBuf)
      → IsGBuf b'
      → b'.buf ≡ b.buf
      → length b.buf + extra ≤ b'.cap
      → Reserved b extra (ok b')

gbuf_reserve-Reserved :
    (b : GBuf) (extra : ℕ)
    → IsGBuf b
    → length b.buf + extra ≤ limit
    → Reserved b extra (gbuf_reserve b extra)
unfolding gbuf_reserve
gbuf_reserve-Reserved b extra w fits =
    let need = length b.buf + extra in
    let newcap = grow_cap need (b.cap * 2) need in
    let inside = w.inside in
    let some_cap = w.some_cap in
    let int_cap = w.int_cap in
    elim (Bool-cases (leb need b.cap)) [
      | inl e ↦ rw (e, gbuf_reserve) (reserved b w refl (leb→le need b.cap e))
      | inr e ↦
          let over : b.cap < need = ground arith in
          let enough = grow_cap-enough need (b.cap * 2) need (omega arith) (omega arith) in
          let bounded =
            grow_cap-bounded need (b.cap * 2) need int_max (omega arith) (omega arith) in
          let ok_cap : leb newcap int_max ≡ true = ground arith in
          rw (e, gbuf_reserve, ok_cap)
            (reserved (record b { cap = newcap })
              (record { inside = omega arith; some_cap = omega arith; int_cap = bounded }) refl
              enough)
    ]

put_behind :
    {b : GBuf} {r : Result GBuf} (bytes : Bytes)
    → Reserved b (length bytes) r
    → Puts b bytes (r >>= λ b'. ok (record b' { buf = b'.buf ++ bytes }))
put_behind {b} bytes (reserved b' w same room) =
    let l : length b'.buf ≡ length b.buf = ap length same in
    has_put (record b' { buf = b'.buf ++ bytes })
      (record {
        inside = omega (arith, length-append b'.buf bytes);
        some_cap = w.some_cap;
        int_cap = w.int_cap;
      })
      (ap (λ x. x ++ bytes) same)

pub gbuf_puts_lem :
    (b : GBuf) (bytes : Bytes) → IsGBuf b → Fits b bytes → Puts b bytes (gbuf_puts b bytes)
unfolding gbuf_puts
gbuf_puts_lem b bytes w fits = put_behind bytes (gbuf_reserve-Reserved b (length bytes) w fits)

pub gbuf_putc_lem :
    (b : GBuf) (c : ℕ) → IsGBuf b → Fits b (c ∷ []) → Puts b (c ∷ []) (gbuf_putc b c)
gbuf_putc_lem b c w fits = put_behind (c ∷ []) (gbuf_reserve-Reserved b 1 w fits)

more_behind :
    {b b' : GBuf} (xs : Bytes) {ys : Bytes} {r : Result GBuf}
    → b'.buf ≡ b.buf ++ xs
    → Puts b' ys r
    → Puts b (xs ++ ys) r
more_behind {b} xs {ys} e (has_put b'' w e') =
    has_put b'' w (e' ∙ ap (λ x. x ++ ys) e ∙ append_assoc b.buf xs ys)

put_then :
    {b : GBuf} {xs ys : Bytes} {m : Result GBuf} (k : GBuf → Result GBuf)
    → Puts b xs m
    → ((b' : GBuf) → IsGBuf b' → b'.buf ≡ b.buf ++ xs → Puts b' ys (k b'))
    → Puts b (xs ++ ys) (m >>= k)
put_then {xs} k (has_put b' w e) next = more_behind xs e (next b' w e)

-- One step of the writer and those behind it.
pub put_step :
    {b : GBuf} (xs ys : Bytes) {m : Result GBuf} (k : GBuf → Result GBuf)
    → Fits b (xs ++ ys)
    → (Fits b xs → Puts b xs m)
    → ((b' : GBuf) → IsGBuf b' → Fits b' ys → Puts b' ys (k b'))
    → Puts b (xs ++ ys) (m >>= k)
put_step {b} xs ys k fits first rest =
    let l = length-append xs ys in
    put_then k (first (omega arith)) (λ b' w e.
      let l' : length b'.buf ≡ length (b.buf ++ xs) = ap length e in
      rest b' w (omega (arith, length-append b.buf xs)))

pub put_nothing : (b : GBuf) → IsGBuf b → Puts b [] (ok b)
put_nothing b w = has_put b w (sym (append-nil b.buf))

-- A choice between two puts.
pub put_if :
    (test : Bool) {b : GBuf} {xs ys : Bytes} {m n : Result GBuf}
    → (Fits b xs → Puts b xs m)
    → (Fits b ys → Puts b ys n)
    → Fits b (if test then xs else ys)
    → Puts b (if test then xs else ys) (if test then m else n)
put_if true k l fits = k fits
put_if false k l fits = l fits
