-- ===== src/Utf8.antt =====
-- The UTF-8 codec of cutils.c and cutils.h: `unicode_to_utf8`, `unicode_from_utf8`, `utf8_get`.
-- A byte buffer is a list of numbers below 256.
pub mod Laws
pub mod Shape
mod Examples
use mquickjs.Base.{
  ℕ, ◌+◌, ◌*◌, ◌/◌, ◌%◌, ◌^◌, bit_and, bit_or, Bool, not, ◌||◌, Option, none, some, List, [], ◌∷◌,
  ltb, ◌==◌, if◌then◌else◌, get_or,
}

abbrev pub u8 : ℕ → ℕ
u8 x = x % 256

-- x >> k and x << k
infixl 60 ◌>>>◌ ◌<<<◌
abbrev pub ◌>>>◌ : ℕ → ℕ → ℕ
x >>> k = x / 2 ^ k

abbrev pub ◌<<<◌ : ℕ → ℕ → ℕ
x <<< k = x * 2 ^ k

-- The bytes written; `return 0` writes none that the caller may use.
unfoldable pub unicode_to_utf8_multi : ℕ → List ℕ
unicode_to_utf8_multi c =
    let last = u8 (bit_or (bit_and c 0x3f) 0x80) in
    let mid = u8 (bit_or (bit_and (c >>> 6) 0x3f) 0x80) in
    let high = u8 (bit_or (bit_and (c >>> 12) 0x3f) 0x80) in
    if ltb c 0x800
    then u8 (bit_or (c >>> 6) 0xc0) ∷ last ∷ []
    else if ltb c 0x10000
    then u8 (bit_or (c >>> 12) 0xe0) ∷ mid ∷ last ∷ []
    else if ltb c 0x200000
    then u8 (bit_or (c >>> 18) 0xf0) ∷ high ∷ mid ∷ last ∷ []
    else []

unfoldable pub unicode_to_utf8 : ℕ → List ℕ
unfolding unicode_to_utf8_multi
unicode_to_utf8 c = if ltb c 0x80 then u8 c ∷ [] else unicode_to_utf8_multi c

-- The return value, where `none` is -1, and `*plen`.
pub record Decoded : Type 0 where
  pub code : Option ℕ
  pub len : ℕ

abbrev pub fail : ℕ → Decoded
fail n = record { code = none; len = n }

abbrev pub got : ℕ → ℕ → Decoded
got c n = record { code = some c; len = n }

-- (p[i] & 0xc0) != 0x80
abbrev pub no_tail : ℕ → Bool
no_tail b = not (bit_and b 0xc0 == 0x80)

abbrev pub two_bytes : ℕ → ℕ → ℕ
two_bytes b0 b1 = bit_or (bit_and b0 0x1f <<< 6) (bit_and b1 0x3f)

abbrev pub three_bytes : ℕ → ℕ → ℕ → ℕ
three_bytes b0 b1 b2 =
    bit_or (bit_or (bit_and b0 0x0f <<< 12) (bit_and b1 0x3f <<< 6)) (bit_and b2 0x3f)

abbrev pub four_bytes : ℕ → ℕ → ℕ → ℕ → ℕ
four_bytes b0 b1 b2 b3 =
    bit_or
      (bit_or (bit_or (bit_and b0 0x07 <<< 18) (bit_and b1 0x3f <<< 12)) (bit_and b2 0x3f <<< 6))
      (bit_and b3 0x3f)

pub unicode_from_utf8_multi : List ℕ → ℕ → Decoded
unicode_from_utf8_multi p max_len =
    let b0 = get_or p 0 0 in
    let b1 = get_or p 1 0 in
    let b2 = get_or p 2 0 in
    let b3 = get_or p 3 0 in
    if ltb b0 0xc0
    then fail 1
    else if ltb b0 0xe0
    then if ltb max_len 2 || no_tail b1
      then fail 1
      else if ltb (two_bytes b0 b1) 0x80
      then fail 2
      else got (two_bytes b0 b1) 2
    else if ltb b0 0xf0
    then if ltb max_len 2 || no_tail b1
      then fail 1
      else if ltb max_len 3 || no_tail b2
      then fail 2
      else if ltb (three_bytes b0 b1 b2) 0x800
      then fail 3
      else got (three_bytes b0 b1 b2) 3
    else if ltb b0 0xf8
    then if ltb max_len 2 || no_tail b1
      then fail 1
      else if ltb max_len 3 || no_tail b2
      then fail 2
      else if ltb max_len 4 || no_tail b3
      then fail 3
      else if ltb (four_bytes b0 b1 b2 b3) 0x10000 || ltb 0x10ffff (four_bytes b0 b1 b2 b3)
      then fail 4
      else got (four_bytes b0 b1 b2 b3) 4
    else fail 1

pub unicode_from_utf8 : List ℕ → ℕ → Decoded
unfolding unicode_from_utf8_multi
unicode_from_utf8 p max_len =
    if ltb (get_or p 0 0) 0x80 then got (get_or p 0 0) 1 else unicode_from_utf8_multi p max_len

-- No error checking: the code point and `*plen`.
pub utf8_get_multi : List ℕ → ℕ × ℕ
utf8_get_multi p =
    let b0 = get_or p 0 0 in
    let b1 = get_or p 1 0 in
    let b2 = get_or p 2 0 in
    let b3 = get_or p 3 0 in
    if ltb b0 0xc0
    then (b0, 1)
    else if ltb b0 0xe0
    then (two_bytes b0 b1, 2)
    else if ltb b0 0xf0
    then (three_bytes b0 b1 b2, 3)
    else if ltb b0 0xf8
    then (four_bytes b0 b1 b2 b3, 4)
    else (b0, 1)

pub utf8_get : List ℕ → ℕ × ℕ
unfolding utf8_get_multi
utf8_get p = if ltb (get_or p 0 0) 0x80 then (get_or p 0 0, 1) else utf8_get_multi p
