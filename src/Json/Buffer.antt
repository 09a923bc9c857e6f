-- ===== src/Json/Buffer.antt =====
-- The growing output buffer of icecreme/json.c.
use creme.Common.{
  ℕ, ◌+◌, ◌*◌, [], ◌∷◌, ◌++◌, Result, ok, ◌>>=◌, ◌>>◌, require, too_large, length, leb,
  if◌then◌else◌,
}
use creme.Csv.Parse.{Bytes}
use creme.Csv.Write.{int_max, grow_cap}

-- The used part of the buffer, and its capacity.
pub record GBuf : Type 0 where
  pub buf : Bytes
  pub cap : ℕ

abbrev pub gbuf_init : GBuf
gbuf_init = record { buf = []; cap = 64 }

unfoldable pub gbuf_reserve : GBuf → ℕ → Result GBuf
gbuf_reserve b extra =
    let need = length b.buf + extra in
    if leb need b.cap then ok b else (do
      let newcap = grow_cap need (b.cap * 2) need
      require (leb newcap int_max) too_large
      ok (record b { cap = newcap }))

unfoldable pub gbuf_puts : GBuf → Bytes → Result GBuf
gbuf_puts b bytes = do b' ← gbuf_reserve b (length bytes); ok (record b' { buf = b'.buf ++ bytes })

abbrev pub gbuf_putc : GBuf → ℕ → Result GBuf
gbuf_putc b c = do b' ← gbuf_reserve b 1; ok (record b' { buf = b'.buf ++ (c ∷ []) })

-- The bytes that `vsnprintf` makes, on the stack or in a larger block.
abbrev pub gbuf_printf : GBuf → Bytes → Result GBuf
gbuf_printf b printed = gbuf_puts b printed

-- The literals, which the reader and the writer share.
abbrev pub true_text : Bytes
true_text = b't' ∷ b'r' ∷ b'u' ∷ b'e' ∷ []

abbrev pub false_text : Bytes
false_text = b'f' ∷ b'a' ∷ b'l' ∷ b's' ∷ b'e' ∷ []

abbrev pub null_text : Bytes
null_text = b'n' ∷ b'u' ∷ b'l' ∷ b'l' ∷ []
