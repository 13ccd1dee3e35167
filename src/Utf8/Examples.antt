-- ===== src/Utf8/Examples.antt =====
-- Concrete runs of the UTF-8 codec, and its theorems at concrete inputs.
use mquickjs.Base.{ℕ, ◌≤◌, ◌≡◌, refl, List, [], ◌∷◌, ◌++◌, length, take, arith}
use mquickjs.Utf8.{
  got, fail, unicode_to_utf8, unicode_to_utf8_multi, unicode_from_utf8, unicode_from_utf8_multi,
  utf8_get,
}
use mquickjs.Utf8.Laws.{
  unicode_from_utf8-unicode_to_utf8, unicode_from_utf8_canonical, unicode_from_utf8_len,
  utf8_get-unicode_from_utf8,
}

euro : unicode_to_utf8 0x20ac ≡ 0xe2 ∷ 0x82 ∷ 0xac ∷ []
unfolding unicode_to_utf8 unicode_to_utf8_multi
euro = refl

abbrev euro_bytes : List ℕ
euro_bytes = 0xe2 ∷ 0x82 ∷ 0xac ∷ []

decoded : unicode_from_utf8 euro_bytes 3 ≡ got 0x20ac 3
unfolding unicode_from_utf8 unicode_from_utf8_multi
decoded = refl

overlong : unicode_from_utf8 (0xc1 ∷ 0x81 ∷ []) 2 ≡ fail 2
unfolding unicode_from_utf8 unicode_from_utf8_multi
overlong = refl

unicode_from_utf8-unicode_to_utf8_example :
    unicode_from_utf8 (unicode_to_utf8 0x20ac ++ 65 ∷ []) 4
    ≡ got 0x20ac (length (unicode_to_utf8 0x20ac))
unfolding unicode_to_utf8 unicode_to_utf8_multi
unicode_from_utf8-unicode_to_utf8_example =
    unicode_from_utf8-unicode_to_utf8 0x20ac 4 (65 ∷ []) (omega arith) (omega arith)

unicode_from_utf8_canonical_example :
    (unicode_to_utf8 0x20ac ≡ take 3 euro_bytes) × (0x20ac ≤ 0x10ffff) × (3 ≤ 3)
unicode_from_utf8_canonical_example =
    unicode_from_utf8_canonical 3 0x20ac 3 euro_bytes (omega arith)
      (omega arith, (omega arith, (omega arith, tt))) (omega arith) decoded

unicode_from_utf8_len_example :
    let r = unicode_from_utf8 euro_bytes 2 in (1 ≤ r.len) × (r.len ≤ 4) × (r.len ≤ 2)
unicode_from_utf8_len_example = unicode_from_utf8_len euro_bytes 2 (omega arith)

utf8_get-unicode_from_utf8_example : utf8_get euro_bytes ≡ (0x20ac, 3)
utf8_get-unicode_from_utf8_example = utf8_get-unicode_from_utf8 euro_bytes 3 0x20ac 3 decoded
