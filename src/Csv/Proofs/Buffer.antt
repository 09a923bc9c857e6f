-- ===== src/Csv/Proofs/Buffer.antt =====
-- The growing buffer of icecreme/csv.c: what an append does while there is room.
use creme.Common.{
  ℕ, zero, suc, ◌+◌, ◌*◌, ◌≤◌, ◌≡◌, refl, ap, ◌∙◌, inl, inr, true, false, ◌++◌, append_assoc,
  Result, ok, ◌>>=◌, length, length-append, ltb, leb, ◌==◌, ltb→lt, Bool-cases, if◌then◌else◌,
  arith,
}
use creme.Csv.Parse.{Bytes}
use creme.Csv.Write.{DynBuf, int_max, grow_cap, dynbuf_append}

-- No append fails up to this many bytes.
abbrev pub limit : ℕ
limit = 1073741824

-- Enough rounds make room for the bytes that are needed.
pub grow_cap-enough :
    (rounds newcap need : ℕ)
    → 1 ≤ newcap
    → need ≤ newcap + rounds
    → need ≤ grow_cap rounds newcap need
unfolding grow_cap
grow_cap-enough zero newcap need big enough = omega arith
grow_cap-enough (suc rounds) newcap need big enough = elim (Bool-cases (ltb newcap need)) [
  | inl e ↦ rw (e, grow_cap) (grow_cap-enough rounds (newcap * 2) need (omega arith) (omega arith))
  | inr e ↦ rw (e, grow_cap) (ground arith)
]

-- Doubling stops below twice the need.
pub grow_cap-bounded :
    (rounds newcap need top : ℕ)
    → newcap ≤ top
    → need * 2 ≤ top + 1
    → grow_cap rounds newcap need ≤ top
unfolding grow_cap
grow_cap-bounded zero newcap need top small need_small = small
grow_cap-bounded (suc rounds) newcap need top small need_small =
    elim (Bool-cases (ltb newcap need)) [
      | inl e ↦
          rw (e, grow_cap)
            (grow_cap-bounded rounds (newcap * 2) need top (omega (arith, ltb→lt newcap need e))
              need_small)
      | inr e ↦ rw (e, grow_cap) small
    ]

-- The bytes are inside the allocation, whose size an int holds.
abbrev pub IsBuf : DynBuf → Type 0
IsBuf b = (length b.buf ≤ b.cap) × (b.cap ≤ int_max)

-- The result is the buffer with the bytes behind its own.
pub data Appends (b : DynBuf) (bytes : Bytes) : Result DynBuf → Type 0 where
  appended : (b' : DynBuf) → IsBuf b' → b'.buf ≡ b.buf ++ bytes → Appends b bytes (ok b')

Appends-more :
    {b b' : DynBuf} (xs : Bytes) {ys : Bytes} {r : Result DynBuf}
    → b'.buf ≡ b.buf ++ xs
    → Appends b' ys r
    → Appends b (xs ++ ys) r
Appends-more {b} xs {ys} e (appended b'' inside e') =
    appended b'' inside (e' ∙ ap (◌++ ys) e ∙ append_assoc b.buf xs ys)

pub Appends-bind :
    {b : DynBuf} {xs ys : Bytes} {m : Result DynBuf} (k : DynBuf → Result DynBuf)
    → Appends b xs m
    → ((b' : DynBuf) → IsBuf b' → b'.buf ≡ b.buf ++ xs → Appends b' ys (k b'))
    → Appends b (xs ++ ys) (m >>= k)
Appends-bind {xs} k (appended b' inside e) next = Appends-more xs e (next b' inside e)

first_cap :
    (cap need : ℕ)
    → ltb cap need ≡ true
    → need ≤ limit
    → (1 ≤ (if cap == 0 then 64 else cap * 2)) × ((if cap == 0 then 64 else cap * 2) ≤ int_max)
first_cap zero need e fits = (omega arith, omega arith)
first_cap (suc cap) need e fits =
    let n : (suc cap == 0) ≡ false = ground arith in
    rw n (omega arith, omega (arith, ltb→lt (suc cap) need e))

pub dynbuf_append_lem :
    (b : DynBuf) (bytes : Bytes)
    → IsBuf b
    → length b.buf + length bytes ≤ limit
    → Appends b bytes (dynbuf_append b bytes)
unfolding dynbuf_append
dynbuf_append_lem b bytes (inside, small) fits =
    let need = length b.buf + length bytes in
    let newcap = grow_cap need (if b.cap == 0 then 64 else b.cap * 2) need in
    let l = length-append b.buf bytes in
    elim (Bool-cases (ltb b.cap need)) [
      | inl e ↦
          let (low, high) = first_cap b.cap need e fits in
          let roomy =
            grow_cap-enough need (if b.cap == 0 then 64 else b.cap * 2) need low (omega arith) in
          let bounded =
            grow_cap-bounded need (if b.cap == 0 then 64 else b.cap * 2) need int_max high
              (omega arith) in
          let ok_cap : leb newcap int_max ≡ true = ground arith in
          rw (e, ok_cap, dynbuf_append)
            (appended (record { buf = b.buf ++ bytes; cap = newcap }) (omega arith, bounded) refl)
      | inr e ↦
          let room : need ≤ b.cap = ground arith in
          rw (e, dynbuf_append)
            (appended (record b { buf = b.buf ++ bytes }) (omega arith, small) refl)
    ]
