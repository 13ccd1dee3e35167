-- ===== src/Utf8/Shape.antt =====
-- The form of an encoded code point: a lead byte and the bytes that continue it. Any code point that
-- four bytes can hold is meant here, also past 0x10ffff.
use mquickjs.Base.{
  ℕ, ◌+◌, ◌/◌, ◌%◌, ◌≤◌, ◌<◌, ◌≡◌, refl, ◌⊎◌, inl, inr, List, [], ◌∷◌, ◌++◌, arith, length, All,
}
use native.Mathlib.Decide.{dec_lt}
use mquickjs.Utf8.{unicode_to_utf8, utf8_get, utf8_get_multi}
use mquickjs.Utf8.Laws.{encoding, unicode_to_utf8-encoding, two_sum, three_sum, four_sum}

abbrev pub IsTail : ℕ → Type 0
IsTail b = (128 ≤ b) × (b < 192)

-- The lead byte is no continuation, and is the code point itself if that is below 128.
pub record IsEncoded (c : ℕ) (bytes : List ℕ) : Type 0 where
  pub lead : ℕ
  pub tail : List ℕ
  pub form : bytes ≡ lead ∷ tail
  pub is_lead : ((lead < 128) × (lead ≡ c) × (tail ≡ [])) ⊎ ((192 ≤ lead) × (128 ≤ c))
  pub is_tail : All IsTail tail
  pub short : length tail < 4

-- The four lengths.
abbrev pub Lengths : ℕ → List ℕ → Type 0
Lengths c bytes =
    ((c < 0x80) × (bytes ≡ c ∷ []))
    ⊎ ((0x80 ≤ c) × (c < 0x800) × (bytes ≡ (192 + c / 64) ∷ (128 + c % 64) ∷ []))
    ⊎ ((0x800 ≤ c)
        × (c < 0x10000)
        × (bytes ≡ (224 + c / 4096) ∷ (128 + c / 64 % 64) ∷ (128 + c % 64) ∷ []))
    ⊎ ((0x10000 ≤ c)
        × (c < 0x200000)
        × (bytes
            ≡ (240 + c / 262144)
              ∷ (128 + c / 4096 % 64)
              ∷ (128 + c / 64 % 64)
              ∷ (128 + c % 64)
              ∷ []))

pub encoding-Lengths : (c : ℕ) → c < 0x200000 → Lengths c (encoding c)
unfolding encoding
encoding-Lengths c l = elim (dec_lt c 0x80) [
  | yes a ↦ inl (a, ground arith)
  | no a ↦ elim (dec_lt c 0x800) [
    | yes b ↦ inr (inl (omega arith, b, ground arith))
    | no b ↦ elim (dec_lt c 0x10000) [
      | yes d ↦ inr (inr (inl (omega arith, d, ground arith)))
      | no d ↦ inr (inr (inr (omega arith, l, ground arith)))
    ]
  ]
]

Lengths-IsEncoded : (c : ℕ) (bytes : List ℕ) → Lengths c bytes → IsEncoded c bytes
Lengths-IsEncoded c bytes (inl (l, e)) = record {
  lead = c;
  tail = [];
  form = e;
  is_lead = inl (l, refl, refl);
  is_tail = tt;
  short = omega arith;
}
Lengths-IsEncoded c bytes (inr (inl (lo, hi, e))) = record {
  lead = 192 + c / 64;
  tail = (128 + c % 64) ∷ [];
  form = e;
  is_lead = inr (omega arith, lo);
  is_tail = ((omega arith, omega arith), tt);
  short = omega arith;
}
Lengths-IsEncoded c bytes (inr (inr (inl (lo, hi, e)))) = record {
  lead = 224 + c / 4096;
  tail = (128 + c / 64 % 64) ∷ (128 + c % 64) ∷ [];
  form = e;
  is_lead = inr (omega arith, omega arith);
  is_tail = ((omega arith, omega arith), ((omega arith, omega arith), tt));
  short = omega arith;
}
Lengths-IsEncoded c bytes (inr (inr (inr (lo, hi, e)))) = record {
  lead = 240 + c / 262144;
  tail = (128 + c / 4096 % 64) ∷ (128 + c / 64 % 64) ∷ (128 + c % 64) ∷ [];
  form = e;
  is_lead = inr (omega arith, omega arith);
  is_tail =
      ((omega arith, omega arith), ((omega arith, omega arith), ((omega arith, omega arith), tt)));
  short = omega arith;
}

pub unicode_to_utf8-IsEncoded : (c : ℕ) → c < 0x200000 → IsEncoded c (unicode_to_utf8 c)
unicode_to_utf8-IsEncoded c l =
    rw (unicode_to_utf8-encoding c) (Lengths-IsEncoded c (encoding c) (encoding-Lengths c l))

get_encoded :
    (c : ℕ) (bytes rest : List ℕ) → Lengths c bytes → utf8_get (bytes ++ rest) ≡ (c, length bytes)
unfolding utf8_get
get_encoded c bytes rest (inl (l, e)) = rw e (ground arith)
get_encoded c bytes rest (inr (inl (lo, hi, e))) =
    rw e (ground (arith, two_sum (192 + c / 64) (128 + c % 64)))
get_encoded c bytes rest (inr (inr (inl (lo, hi, e)))) =
    rw e (ground (arith, three_sum (224 + c / 4096) (128 + c / 64 % 64) (128 + c % 64)))
get_encoded c bytes rest (inr (inr (inr (lo, hi, e)))) = rw e (
    ground
      (arith, four_sum (240 + c / 262144) (128 + c / 4096 % 64) (128 + c / 64 % 64) (128 + c % 64)))

-- The unchecked decoder reads an encoded code point, whatever follows it.
pub utf8_get-unicode_to_utf8 :
    (c : ℕ) (rest : List ℕ)
    → c < 0x200000
    → utf8_get (unicode_to_utf8 c ++ rest) ≡ (c, length (unicode_to_utf8 c))
utf8_get-unicode_to_utf8 c rest l =
    rw (unicode_to_utf8-encoding c) (get_encoded c (encoding c) rest (encoding-Lengths c l))

-- The unchecked decoder takes at least a byte.
pub utf8_get-takes : (p : List ℕ) → 1 ≤ (utf8_get p).1
unfolding utf8_get utf8_get_multi
utf8_get-takes p = ground arith
