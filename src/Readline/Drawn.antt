-- ===== src/Readline/Drawn.antt =====
-- The redrawing of the line: where each character takes the cursor.
use mquickjs.Base.{
  ℕ, zero, suc, ◌+◌, ◌-◌, ◌<◌, ◌≡◌, refl, ap, ◌∙◌, inl, inr, Bool, true, false, ◌&&◌, Option, none,
  some, arith, Bool-cases, ltb, leb, ◌==◌, if◌then◌else◌,
}
use mquickjs.Base.Slices.{words_at}
use mquickjs.Utf8.Shape.{utf8_get-takes}
use mquickjs.Readline.{Readline}
use mquickjs.Readline.Edit.{char_at}
use mquickjs.Readline.Display.{
  GetColor, Draw, pad_line, place_char, colorize, draw_char, draw_loop, char_width,
}
use mquickjs.Readline.Frame.{pad_line-core, draw_char-core}

pad_line-pos : (n : ℕ) (s : Readline) → (pad_line n s).term_cursor_pos ≡ s.term_cursor_pos + n
unfolding pad_line
pad_line-pos zero s = omega arith
pad_line-pos (suc n) s = omega (arith, pad_line-pos n _)

-- Where a character of width `len` takes the cursor from the column `x` of lines of `w` columns.
abbrev pub crosses : ℕ → ℕ → ℕ → ℕ → Bool
crosses w i x len = ltb w (x + len) && ltb 0 i

abbrev pub next_column : ℕ → ℕ → ℕ → ℕ → ℕ
next_column w i x len =
    let x1 = (if crosses w i x len then 0 else x) + len in if leb w x1 then 0 else x1

abbrev pub next_pos : ℕ → ℕ → ℕ → ℕ → ℕ → ℕ
next_pos w i x pos len = (if crosses w i x len then pos + (w - x) else pos) + len

abbrev pub IsPlaced : Readline → ℕ → ℕ → Readline → Type 0
IsPlaced s i len t =
    (t.term_cursor_pos ≡ next_pos s.term_width i s.term_cursor_x s.term_cursor_pos len)
    × (t.term_cursor_x ≡ next_column s.term_width i s.term_cursor_x len)

place_char-IsPlaced : (i len : ℕ) (s : Readline) → IsPlaced s i len (place_char i len s)
unfolding place_char
place_char-IsPlaced i len s =
    elim (Bool-cases (ltb s.term_width (s.term_cursor_x + len) && ltb 0 i)) [
      | inl e ↦
          let n = s.term_width - s.term_cursor_x in
          let width : (pad_line n s).term_width ≡ s.term_width =
            ap (λ t. t.term_width) (pad_line-core n s) in
          rw e (omega (arith, pad_line-pos n s), rw width refl)
      | inr e ↦ rw e (refl, refl)
    ]

if_same :
    (b : Bool) (f : Readline → ℕ) (x y : Readline) (p : ℕ)
    → f x ≡ p
    → f y ≡ p
    → f (if b then x else y) ≡ p
if_same true f x y p e e' = e
if_same false f x y p e e' = e'

-- The colors leave the cursor.
colorize-cursor :
    (get : Option GetColor) (i : ℕ) (s : Readline) (d : Draw)
    → ((colorize get i (s, d)).0.term_cursor_pos ≡ s.term_cursor_pos)
      × ((colorize get i (s, d)).0.term_cursor_x ≡ s.term_cursor_x)
      × ((colorize get i (s, d)).1.new_cursor_pos ≡ d.new_cursor_pos)
unfolding colorize
colorize-cursor none i s d = (refl, refl, refl)
colorize-cursor (some get) i s d = elim (Bool-cases s.term_is_password) [
  | inl e ↦ rw e (refl, refl, refl)
  | inr e ↦ rw e (
    if_same _ (λ t. t.term_cursor_pos) _ _ s.term_cursor_pos refl refl,
    if_same _ (λ t. t.term_cursor_x) _ _ s.term_cursor_x refl refl,
    refl,
  )
]

-- The width of a character on the screen.
abbrev pub width_at : Readline → ℕ → ℕ
width_at s c = if s.term_is_password then 1 else char_width c

new_pos :
    (b : Bool) (s : Readline) (d : Draw)
    → (if b then record d { new_cursor_pos = s.term_cursor_pos } else d).new_cursor_pos
      ≡ (if b then s.term_cursor_pos else d.new_cursor_pos)
new_pos true s d = refl
new_pos false s d = refl

pub draw_char-cursor :
    (get : Option GetColor) (i : ℕ) (s : Readline) (d : Draw)
    → IsPlaced s i (width_at s (char_at s.term_cmd_buf i).0) (draw_char get i (s, d)).0
      × ((draw_char get i (s, d)).1.new_cursor_pos
          ≡ (if i == s.term_cmd_buf_index then s.term_cursor_pos else d.new_cursor_pos))
unfolding draw_char
draw_char-cursor get i s d =
    let len = width_at s (char_at s.term_cmd_buf i).0 in
    let d1 =
      if i == s.term_cmd_buf_index then record d { new_cursor_pos = s.term_cursor_pos } else d in
    let (a, b) = place_char-IsPlaced i len s in
    let (p, x, n) = colorize-cursor get i (place_char i len s) d1 in
    ((p ∙ a, x ∙ b), n ∙ new_pos (i == s.term_cmd_buf_index) s d)

pub draw_step :
    (fuel : ℕ) (get : Option GetColor) (i : ℕ) (s : Readline) (d : Draw)
    → ltb i s.term_cmd_buf_len ≡ true
    → draw_loop (suc fuel) get i (s, d)
      ≡ draw_loop fuel get (i + (char_at s.term_cmd_buf i).1) (draw_char get i (s, d))
unfolding draw_loop
draw_step fuel get i s d e = rw e refl

draw_stop :
    (fuel : ℕ) (get : Option GetColor) (i : ℕ) (s : Readline) (d : Draw)
    → ltb i s.term_cmd_buf_len ≡ false
    → draw_loop (suc fuel) get i (s, d) ≡ (s, d, i)
unfolding draw_loop
draw_stop fuel get i s d e = rw e refl

-- The position that `term_update` takes after its loop.
abbrev pub taken : Readline × Draw × ℕ → ℕ
taken (s, d, i) = if i == s.term_cmd_buf_index then s.term_cursor_pos else d.new_cursor_pos

-- Behind the cursor the position stays as it was found.
draw_behind :
    (fuel : ℕ) (get : Option GetColor) (i : ℕ) (s : Readline) (d : Draw)
    → s.term_cmd_buf_index < i
    → taken (draw_loop fuel get i (s, d)) ≡ d.new_cursor_pos
unfolding draw_loop
draw_behind zero get i s d l =
    let other : (i == s.term_cmd_buf_index) ≡ false = ground arith in rw other refl
draw_behind (suc fuel) get i s d l =
    let other : (i == s.term_cmd_buf_index) ≡ false = ground arith in
    elim (Bool-cases (ltb i s.term_cmd_buf_len)) [
      | inr stops ↦ ap (λ x. taken x) (draw_stop fuel get i s d stops) ∙ rw other refl
      | inl goes ↦
          let (s1, d1) = draw_char get i (s, d) in
          let index : s1.term_cmd_buf_index ≡ s.term_cmd_buf_index =
            ap (λ t. t.term_cmd_buf_index) (draw_char-core get i s d) in
          ap (λ x. taken x) (draw_step fuel get i s d goes)
          ∙ draw_behind fuel get (i + (char_at s.term_cmd_buf i).1) s1 d1 (omega (arith, index))
          ∙ (draw_char-cursor get i s d).1
          ∙ rw other refl
    ]

-- At the cursor its position is found.
pub draw_at :
    (fuel : ℕ) (get : Option GetColor) (i : ℕ) (s : Readline) (d : Draw)
    → i ≡ s.term_cmd_buf_index
    → taken (draw_loop fuel get i (s, d)) ≡ s.term_cursor_pos
unfolding draw_loop
draw_at zero get i s d at =
    let here : (i == s.term_cmd_buf_index) ≡ true = ground arith in rw here refl
draw_at (suc fuel) get i s d at =
    let here : (i == s.term_cmd_buf_index) ≡ true = ground arith in
    elim (Bool-cases (ltb i s.term_cmd_buf_len)) [
      | inr stops ↦ ap (λ x. taken x) (draw_stop fuel get i s d stops) ∙ rw here refl
      | inl goes ↦
          let (s1, d1) = draw_char get i (s, d) in
          let index : s1.term_cmd_buf_index ≡ s.term_cmd_buf_index =
            ap (λ t. t.term_cmd_buf_index) (draw_char-core get i s d) in
          ap (λ x. taken x) (draw_step fuel get i s d goes)
          ∙ draw_behind fuel get (i + (char_at s.term_cmd_buf i).1) s1 d1
              (omega (arith, index, at, utf8_get-takes (words_at s.term_cmd_buf i 4)))
          ∙ (draw_char-cursor get i s d).1
          ∙ rw here refl
    ]
