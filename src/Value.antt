-- ===== src/Value.antt =====
-- The words of mquickjs.h that stand for a JSValue, with JSW = 8: a short integer has bit 0 clear, a
-- special value has the tag bits 3. A word is a number below 2 ^ 64.
use mquickjs.Base.{ℕ, ◌*◌, ◌/◌, ◌%◌, ◌^◌, bit_or, ◌≡◌, refl}

abbrev pub jsw : ℕ
jsw = 8

abbrev pub tag_special : ℕ
tag_special = 3

-- JS_TAG_x: the number of the special value behind the tag bits.
abbrev pub special_tag : ℕ → ℕ
special_tag n = bit_or tag_special (n * 2 ^ 2)

-- JS_VALUE_MAKE_SPECIAL, for a payload that is not negative.
abbrev pub make_special : ℕ → ℕ → ℕ
make_special tag v = bit_or tag (v * 2 ^ 5)

abbrev pub js_undefined : ℕ
js_undefined = make_special (special_tag 2) 0

abbrev pub js_uninitialized : ℕ
js_uninitialized = make_special (special_tag 5) 0

-- JS_NewShortInt and JS_VALUE_GET_INT, for the counts and indices of this library, which lie
-- between 0 and 2 ^ 30 - 1, so that the sign bit of the C `int` is clear.
abbrev pub new_short_int : ℕ → ℕ
new_short_int v = 2 * v

abbrev pub get_int : ℕ → ℕ
get_int w = w % 2 ^ 32 / 2

special_words : (js_undefined ≡ 11) × (js_uninitialized ≡ 23)
special_words = (refl, refl)
