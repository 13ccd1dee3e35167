-- ===== src/Utf8/Laws.antt =====
-- The codec of cutils.c in plain arithmetic, and its round trips.
use mquickjs.Base.{
  ℕ, ◌+◌, ◌*◌, ◌/◌, ◌%◌, ◌≤◌, ◌<◌, bit_and, bit_or, ◌≡◌, refl, List, [], ◌∷◌, ◌++◌, arith, get_or,
  length, take, All, ltb, if◌then◌else◌,
}
use mquickjs.Base.Bits.{bit_or_fields, bit_or_fields_right, bit_and_mask, bit_and_step}
use mquickjs.Utf8.{
  got, u8, two_bytes, three_bytes, four_bytes, unicode_to_utf8, unicode_from_utf8, utf8_get,
}

abbrev pub IsByte : ℕ → Type 0
IsByte b = b < 256

top_two : (b : ℕ) → IsByte b → bit_and b 0xc0 ≡ b / 64 * 64
top_two b h = omega (
  arith,
  bit_and_step b 0xc0,
  bit_and_step (b / 2) 0x60,
  bit_and_step (b / 2 / 2) 0x30,
  bit_and_step (b / 2 / 2 / 2) 0x18,
  bit_and_step (b / 2 / 2 / 2 / 2) 0x0c,
  bit_and_step (b / 2 / 2 / 2 / 2 / 2) 6,
  bit_and_mask 2 (b / 2 / 2 / 2 / 2 / 2 / 2) 3 refl,
)

tail_byte : (x : ℕ) → u8 (bit_or (bit_and x 0x3f) 0x80) ≡ 128 + x % 64
tail_byte x = rw (bit_and_mask 6 x 0x3f refl) (omega (arith, bit_or_fields_right 6 2 (x % 64)))

-- The encoding as sums.
unfoldable pub encoding : ℕ → List ℕ
encoding c =
    if ltb c 0x80
    then c ∷ []
    else if ltb c 0x800
    then (192 + c / 64) ∷ (128 + c % 64) ∷ []
    else if ltb c 0x10000
    then (224 + c / 4096) ∷ (128 + c / 64 % 64) ∷ (128 + c % 64) ∷ []
    else if ltb c 0x200000
    then (240 + c / 262144) ∷ (128 + c / 4096 % 64) ∷ (128 + c / 64 % 64) ∷ (128 + c % 64) ∷ []
    else []

pub unicode_to_utf8-encoding : (c : ℕ) → unicode_to_utf8 c ≡ encoding c
unfolding unicode_to_utf8 encoding
unicode_to_utf8-encoding c = ground (
  arith,
  tail_byte c,
  tail_byte (c / 64),
  tail_byte (c / 4096),
  bit_or_fields_right 5 6 (c / 64),
  bit_or_fields_right 4 14 (c / 4096),
  bit_or_fields_right 3 30 (c / 262144),
)

pub two_sum : (a b : ℕ) → two_bytes a b ≡ a % 32 * 64 + b % 64
two_sum a b =
    rw (bit_and_mask 5 a 0x1f refl, bit_and_mask 6 b 0x3f refl)
      (bit_or_fields 6 (a % 32) (b % 64) (omega arith))

pub three_sum : (a b c : ℕ) → three_bytes a b c ≡ a % 16 * 4096 + b % 64 * 64 + c % 64
three_sum a b c = ground (
  arith,
  bit_and_mask 4 a 0x0f refl,
  bit_and_mask 6 b 0x3f refl,
  bit_and_mask 6 c 0x3f refl,
  bit_or_fields 12 (a % 16) (b % 64 * 64) (omega arith),
  bit_or_fields 6 (a % 16 * 64 + b % 64) (c % 64) (omega arith),
)

pub four_sum :
    (a b c d : ℕ) → four_bytes a b c d ≡ a % 8 * 262144 + b % 64 * 4096 + c % 64 * 64 + d % 64
four_sum a b c d = ground (
  arith,
  bit_and_mask 3 a 0x07 refl,
  bit_and_mask 6 b 0x3f refl,
  bit_and_mask 6 c 0x3f refl,
  bit_and_mask 6 d 0x3f refl,
  bit_or_fields 18 (a % 8) (b % 64 * 4096) (omega arith),
  bit_or_fields 12 (a % 8 * 64 + b % 64) (c % 64 * 64) (omega arith),
  bit_or_fields 6 (a % 8 * 4096 + b % 64 * 64 + c % 64) (d % 64) (omega arith),
)

module _ (rest : List ℕ) (max_len c : ℕ) where
  decode_two :
      128 ≤ c
      → c < 0x800
      → 2 ≤ max_len
      → unicode_from_utf8 ((192 + c / 64) ∷ (128 + c % 64) ∷ rest) max_len ≡ got c 2
  unfolding unicode_from_utf8
  decode_two lo hi fits =
      ground (arith, two_sum (192 + c / 64) (128 + c % 64), top_two (128 + c % 64))

  decode_three :
      0x800 ≤ c
      → c < 0x10000
      → 3 ≤ max_len
      → unicode_from_utf8 ((224 + c / 4096) ∷ (128 + c / 64 % 64) ∷ (128 + c % 64) ∷ rest) max_len
        ≡ got c 3
  unfolding unicode_from_utf8
  decode_three lo hi fits = ground (
    arith,
    three_sum (224 + c / 4096) (128 + c / 64 % 64) (128 + c % 64),
    top_two (128 + c / 64 % 64),
    top_two (128 + c % 64),
  )

  decode_four :
      0x10000 ≤ c
      → c ≤ 0x10ffff
      → 4 ≤ max_len
      → unicode_from_utf8
          ((240 + c / 262144) ∷ (128 + c / 4096 % 64) ∷ (128 + c / 64 % 64) ∷ (128 + c % 64) ∷ rest)
          max_len
        ≡ got c 4
  unfolding unicode_from_utf8
  decode_four lo hi fits = ground (
    arith,
    four_sum (240 + c / 262144) (128 + c / 4096 % 64) (128 + c / 64 % 64) (128 + c % 64),
    top_two (128 + c / 4096 % 64),
    top_two (128 + c / 64 % 64),
    top_two (128 + c % 64),
  )

-- Decoding the encoding of a code point up to 0x10ffff, whatever follows it, gives the code point
-- back with the number of bytes written.
pub unicode_from_utf8-unicode_to_utf8 :
    (c max_len : ℕ) (rest : List ℕ)
    → c ≤ 0x10ffff
    → length (unicode_to_utf8 c) ≤ max_len
    → unicode_from_utf8 (unicode_to_utf8 c ++ rest) max_len ≡ got c (length (unicode_to_utf8 c))
unicode_from_utf8-unicode_to_utf8 c max_len rest h fits =
    rw unicode_to_utf8-encoding (decode (rw unicode_to_utf8-encoding at fits))
  where
    decode_one : c < 0x80 → unicode_from_utf8 (c ∷ rest) max_len ≡ got c 1
    decode_one lo = unfold unicode_from_utf8 in ground arith

    decode :
        length (encoding c) ≤ max_len
        → unicode_from_utf8 (encoding c ++ rest) max_len ≡ got c (length (encoding c))
    decode fits' =
        unfold encoding in
        ground (
          arith,
          decode_one,
          decode_two rest max_len c,
          decode_three rest max_len c,
          decode_four rest max_len c,
        )

-- The part of a buffer that a lead byte in a given range announces.
abbrev Taken : List ℕ → ℕ → ℕ → ℕ → Type 0
Taken p max_len c n = (encoding c ≡ take n p) × (c ≤ 0x10ffff) × (n ≤ max_len)

module _ (max_len c n : ℕ) where
  one_accepted :
      (p : List ℕ)
      → max_len ≤ length p
      → 1 ≤ max_len
      → get_or p 0 0 < 0xc0
      → unicode_from_utf8 p max_len ≡ got c n
      → Taken p max_len c n
  unfolding unicode_from_utf8 encoding
  one_accepted [] room some_room lead e = absurd (omega arith)
  one_accepted (b0 ∷ p) room some_room lead e = ground arith

  two_accepted :
      (p : List ℕ)
      → max_len ≤ length p
      → All IsByte p
      → 0xc0 ≤ get_or p 0 0
      → get_or p 0 0 < 0xe0
      → unicode_from_utf8 p max_len ≡ got c n
      → Taken p max_len c n
  unfolding unicode_from_utf8 encoding
  two_accepted [] room bytes lo hi e = absurd (omega arith)
  two_accepted (b0 ∷ []) room bytes lo hi e = ground arith
  two_accepted (b0 ∷ b1 ∷ p) room bytes lo hi e = ground (arith, top_two b1, two_sum b0 b1)

  three_accepted :
      (p : List ℕ)
      → max_len ≤ length p
      → All IsByte p
      → 0xe0 ≤ get_or p 0 0
      → get_or p 0 0 < 0xf0
      → unicode_from_utf8 p max_len ≡ got c n
      → Taken p max_len c n
  unfolding unicode_from_utf8 encoding
  three_accepted [] room bytes lo hi e = absurd (omega arith)
  three_accepted (b0 ∷ []) room bytes lo hi e = ground arith
  three_accepted (b0 ∷ b1 ∷ []) room bytes lo hi e = ground arith
  three_accepted (b0 ∷ b1 ∷ b2 ∷ p) room bytes lo hi e =
      ground (arith, top_two b1, top_two b2, three_sum b0 b1 b2)

  four_accepted :
      (p : List ℕ)
      → max_len ≤ length p
      → All IsByte p
      → 0xf0 ≤ get_or p 0 0
      → unicode_from_utf8 p max_len ≡ got c n
      → Taken p max_len c n
  unfolding unicode_from_utf8 encoding
  four_accepted [] room bytes lo e = absurd (omega arith)
  four_accepted (b0 ∷ []) room bytes lo e = ground arith
  four_accepted (b0 ∷ b1 ∷ []) room bytes lo e = ground arith
  four_accepted (b0 ∷ b1 ∷ b2 ∷ []) room bytes lo e = ground arith
  four_accepted (b0 ∷ b1 ∷ b2 ∷ b3 ∷ p) room bytes lo e =
      ground (arith, top_two b1, top_two b2, top_two b3, four_sum b0 b1 b2 b3)

  -- An accepted sequence of bytes is the one that encodes its result: overlong forms, code points
  -- past 0x10ffff and stray bytes are refused. The `*plen` bytes taken lie inside the buffer.
  pub unicode_from_utf8_canonical :
      (p : List ℕ)
      → max_len ≤ length p
      → All IsByte p
      → 1 ≤ max_len
      → unicode_from_utf8 p max_len ≡ got c n
      → (unicode_to_utf8 c ≡ take n p) × (c ≤ 0x10ffff) × (n ≤ max_len)
  unicode_from_utf8_canonical p room bytes some_room e = rw unicode_to_utf8-encoding (
      ground (
        arith,
        one_accepted p room some_room,
        two_accepted p room bytes,
        three_accepted p room bytes,
        four_accepted p room bytes,
      ))

-- Whatever the bytes are, `*plen` is between 1 and 4, and never passes the end of the buffer.
pub unicode_from_utf8_len :
    (p : List ℕ) (max_len : ℕ)
    → 1 ≤ max_len
    → let r = unicode_from_utf8 p max_len in (1 ≤ r.len) × (r.len ≤ 4) × (r.len ≤ max_len)
unfolding unicode_from_utf8
unicode_from_utf8_len p max_len h = ground arith

-- On what the checked decoder accepts, the unchecked one gives the same code point and length.
pub utf8_get-unicode_from_utf8 :
    (p : List ℕ) (max_len c n : ℕ) → unicode_from_utf8 p max_len ≡ got c n → utf8_get p ≡ (c, n)
unfolding unicode_from_utf8 utf8_get
utf8_get-unicode_from_utf8 p max_len c n e = ground arith
