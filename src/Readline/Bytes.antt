-- ===== src/Readline/Bytes.antt =====
-- The bytes of a character, one after the other.
use mathlib.Core.Path.{subst}
use mquickjs.Base.{
  ℕ, suc, ◌+◌, ◌-◌, ◌*◌, ◌/◌, ◌%◌, ◌^◌, ◌≤◌, ◌<◌, ◌≡◌, refl, sym, ap, ◌∙◌, inl, inr, bit_and,
  bit_or, Bool, true, false, ◌&&◌, Option, List, [], ◌∷◌, arith, ltb, leb, ◌==◌, if◌then◌else◌,
}
use mquickjs.Base.Bits.{bit_or_fields, bit_and_mask}
use mquickjs.Utf8.{unicode_to_utf8, ◌<<<◌}
use mquickjs.Utf8.Laws.{unicode_to_utf8-encoding, encoding}
use mquickjs.Utf8.Shape.{Lengths, encoding-Lengths}
use mquickjs.Readline.{Readline}
use mquickjs.Readline.Display.{GetColor}
use mquickjs.Readline.Keys.{
  ReadlineRet, ret_handled, tails, readline_handle_char, readline_handle_byte,
}

-- A state of the decoder that waits for `n` bytes.
abbrev pub pending : Readline → ℕ → ℕ → Readline
pending s n v = record s { utf8_state = n; utf8_val = v }

module _ (is_space : ℕ → Bool) (get : Option GetColor) where
  -- All bytes are handled; what the last one returns is returned.
  unfoldable pub handle_bytes : Readline → List ℕ → Readline × ReadlineRet
  handle_bytes s [] = (s, ret_handled)
  handle_bytes s (b ∷ []) = readline_handle_byte is_space get s b
  handle_bytes s (b ∷ b' ∷ bs) = handle_bytes (readline_handle_byte is_space get s b).0 (b' ∷ bs)

  lead_step :
      (s : Readline) (b n v : ℕ)
      → 192 ≤ b
      → b < 248
      → tails b ≡ n
      → bit_and b (2 ^ (6 - n) - 1) ≡ v
      → readline_handle_byte is_space get s b ≡ (pending s n v, ret_handled)
  unfolding readline_handle_byte
  lead_step s b n v lo hi count mask =
      let is_lead : (leb 192 b && ltb b 248) ≡ true = ground arith in rw (is_lead, count, mask) refl

  value_step :
      (v x : ℕ)
      → x < 64
      → v < 0x8000
      → bit_or (v <<< 6) (bit_and (128 + x) 0x3f) % 2 ^ 32 ≡ v * 64 + x
  value_step v x hx hv = rw (bit_and_mask 6 (128 + x) 0x3f refl) (
      let low : (128 + x) % 2 ^ 6 ≡ x = omega arith in
      rw low (ap (λ y. y % 2 ^ 32) (bit_or_fields 6 v x (omega arith)) ∙ omega arith))

  tail_step :
      (s : Readline) (n v x : ℕ)
      → x < 64
      → v < 0x8000
      → readline_handle_byte is_space get (pending s (suc (suc n)) v) (128 + x)
        ≡ (pending s (suc n) (v * 64 + x), ret_handled)
  unfolding readline_handle_byte
  tail_step s n v x hx hv =
      let no_lead : (leb 192 (128 + x) && ltb (128 + x) 248) ≡ false = ground arith in
      let is_tail : (leb 128 (128 + x) && ltb (128 + x) 192) ≡ true = ground arith in
      let waits : (suc (suc n) == 0) ≡ false = ground arith in
      let more : (suc (suc n) == 1) ≡ false = ground arith in
      let less : suc (suc n) - 1 ≡ suc n = omega arith in
      rw (no_lead, waits, is_tail, more, value_step v x hx hv, less) refl

  last_step :
      (s : Readline) (v x : ℕ)
      → x < 64
      → v < 0x8000
      → readline_handle_byte is_space get (pending s 1 v) (128 + x)
        ≡ readline_handle_char is_space get (pending s 0 (v * 64 + x)) (v * 64 + x)
  unfolding readline_handle_byte
  last_step s v x hx hv =
      let no_lead : (leb 192 (128 + x) && ltb (128 + x) 248) ≡ false = ground arith in
      let is_tail : (leb 128 (128 + x) && ltb (128 + x) 192) ≡ true = ground arith in
      rw (no_lead, is_tail, value_step v x hx hv) refl

  bytes_one :
      (s : Readline) (c : ℕ)
      → s.utf8_state ≡ 0
      → c < 0x80
      → readline_handle_byte is_space get s c ≡ readline_handle_char is_space get s c
  unfolding readline_handle_byte
  bytes_one s c e hi =
      let no_lead : (leb 192 c && ltb c 248) ≡ false = ground arith in
      let none_left : (s.utf8_state == 0) ≡ true = ground arith in rw (no_lead, none_left) refl

  bytes_two :
      (s : Readline) (a b : ℕ)
      → a < 32
      → b < 64
      → handle_bytes s ((192 + a) ∷ (128 + b) ∷ [])
        ≡ readline_handle_char is_space get (pending s 0 (a * 64 + b)) (a * 64 + b)
  unfolding handle_bytes
  bytes_two s a b ha hb =
      rw
        (lead_step s (192 + a) 1 a (omega arith) (omega arith) (ground arith)
          (bit_and_mask 5 (192 + a) 31 refl ∙ omega arith))
        (last_step s a b hb (omega arith))

  bytes_three :
      (s : Readline) (a b d : ℕ)
      → a < 16
      → b < 64
      → d < 64
      → handle_bytes s ((224 + a) ∷ (128 + b) ∷ (128 + d) ∷ [])
        ≡ readline_handle_char is_space get
            (pending s 0 ((a * 64 + b) * 64 + d))
            ((a * 64 + b) * 64 + d)
  unfolding handle_bytes
  bytes_three s a b d ha hb hd =
      rw
        (
          lead_step s (224 + a) 2 a (omega arith) (omega arith) (ground arith)
              (bit_and_mask 4 (224 + a) 15 refl ∙ omega arith),
          tail_step s 0 a b hb (omega arith),
        )
        (last_step s (a * 64 + b) d hd (omega arith))

  bytes_four :
      (s : Readline) (a b d f : ℕ)
      → a < 8
      → b < 64
      → d < 64
      → f < 64
      → handle_bytes s ((240 + a) ∷ (128 + b) ∷ (128 + d) ∷ (128 + f) ∷ [])
        ≡ readline_handle_char is_space get
            (pending s 0 (((a * 64 + b) * 64 + d) * 64 + f))
            (((a * 64 + b) * 64 + d) * 64 + f)
  unfolding handle_bytes
  bytes_four s a b d f ha hb hd hf =
      rw
        (
          lead_step s (240 + a) 3 a (omega arith) (omega arith) (ground arith)
              (bit_and_mask 3 (240 + a) 7 refl ∙ omega arith),
          tail_step s 1 a b hb (omega arith),
          tail_step s 0 (a * 64 + b) d hd (omega arith),
        )
        (last_step s ((a * 64 + b) * 64 + d) f hf (omega arith))

  -- The state in which the character is handled.
  abbrev pub received : Readline → ℕ → Readline
  received s c = pending s 0 (if ltb c 0x80 then s.utf8_val else c)

  parts :
      (s : Readline) (c : ℕ) (bs : List ℕ)
      → s.utf8_state ≡ 0
      → Lengths c bs
      → handle_bytes s bs ≡ readline_handle_char is_space get (received s c) c
  unfolding handle_bytes
  parts s c bs e (inl (hi, same)) =
      let low : ltb c 0x80 ≡ true = ground arith in
      let at : pending s 0 s.utf8_val ≡ s = ap (λ n. pending s n s.utf8_val) (sym e) in
      rw (same, low, at) (bytes_one s c e hi)
  parts s c bs e (inr (inl (lo, hi, same))) =
      let high : ltb c 0x80 ≡ false = ground arith in
      let sum : c / 64 * 64 + c % 64 ≡ c = omega arith in
      rw (same, high)
        (subst
          (λ x.
            handle_bytes s ((192 + c / 64) ∷ (128 + c % 64) ∷ [])
            ≡ readline_handle_char is_space get (pending s 0 x) x)
          sum (bytes_two s (c / 64) (c % 64) (omega arith) (omega arith)))
  parts s c bs e (inr (inr (inl (lo, hi, same)))) =
      let high : ltb c 0x80 ≡ false = ground arith in
      let sum : (c / 4096 * 64 + c / 64 % 64) * 64 + c % 64 ≡ c = omega arith in
      rw (same, high)
        (subst
          (λ x.
            handle_bytes s ((224 + c / 4096) ∷ (128 + c / 64 % 64) ∷ (128 + c % 64) ∷ [])
            ≡ readline_handle_char is_space get (pending s 0 x) x)
          sum
          (bytes_three s (c / 4096) (c / 64 % 64) (c % 64) (omega arith) (omega arith)
            (omega arith)))
  parts s c bs e (inr (inr (inr (lo, hi, same)))) =
      let high : ltb c 0x80 ≡ false = ground arith in
      let sum : ((c / 262144 * 64 + c / 4096 % 64) * 64 + c / 64 % 64) * 64 + c % 64 ≡ c =
        omega arith in
      rw (same, high)
        (subst
          (λ x.
            handle_bytes s (
              (240 + c / 262144)
              ∷ (128 + c / 4096 % 64)
              ∷ (128 + c / 64 % 64)
              ∷ (128 + c % 64)
              ∷ [])
            ≡ readline_handle_char is_space get (pending s 0 x) x)
          sum
          (bytes_four s (c / 262144) (c / 4096 % 64) (c / 64 % 64) (c % 64) (omega arith)
            (omega arith) (omega arith) (omega arith)))

  -- The bytes of the encoding of a code point below 0x200000, given one by one to readline_handle_byte that
  -- waits for none, act as the code point given to readline_handle_char.
  pub readline_handle_byte-unicode_to_utf8 :
      (s : Readline) (c : ℕ)
      → s.utf8_state ≡ 0
      → c < 0x200000
      → handle_bytes s (unicode_to_utf8 c) ≡ readline_handle_char is_space get (received s c) c
  readline_handle_byte-unicode_to_utf8 s c e hi =
      ap (handle_bytes s) (unicode_to_utf8-encoding c)
      ∙ parts s c (encoding c) e (encoding-Lengths c hi)
