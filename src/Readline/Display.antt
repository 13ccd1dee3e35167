-- ===== src/Readline/Display.antt =====
-- The display of the command line in readline.c: the cursor and the redrawing.
use mquickjs.Base.{
  ℕ, zero, suc, ◌+◌, ◌-◌, ◌%◌, min, Bool, true, false, not, ◌&&◌, ◌||◌, Option, none, some, [], ◌∷◌,
  length, ltb, leb, ◌==◌, if◌then◌else◌,
}
use mquickjs.Base.Slices.{words_at}
use mquickjs.Props.{Words}
use mquickjs.Readline.{Readline, text, csi, color, is_norm, term_print}
use mquickjs.Readline.Edit.{char_at}

-- `get_color`: the color of the text from a position on, and for how many bytes it holds.
abbrev pub GetColor : Type 0
GetColor = Words → ℕ → ℕ → ℕ × ℕ

abbrev pub color_none : ℕ
color_none = 0

abbrev pub term_show_prompt2 : Readline → Readline
term_show_prompt2 s = record (term_print (text s.term_prompt) s) {
  term_cursor_x = length s.term_prompt % s.term_width;
  term_cursor_pos = 0;
  term_esc_state = is_norm;
  utf8_state = 0;
}

abbrev pub term_show_prompt : Readline → Readline
term_show_prompt s = record (term_show_prompt2 s) { term_cmd_buf_index = 0; term_cmd_buf_len = 0 }

-- The loop of `move_cursor` to the right.
unfoldable pub move_right : ℕ → Readline → ℕ → Readline
move_right zero s delta = s
move_right (suc fuel) s delta =
    let l = min (s.term_width - 1 - s.term_cursor_x) delta in
    let next_line =
      move_right fuel (record (term_print (text (13 ∷ 10 ∷ [])) s) { term_cursor_x = 0 })
        (delta - 1) in
    let same_line =
      move_right fuel (record (term_print (csi l b'C') s) { term_cursor_x = s.term_cursor_x + l })
        (delta - l) in
    if delta == 0 then s else if s.term_cursor_x == s.term_width - 1 then next_line else same_line

-- And to the left.
unfoldable pub move_left : ℕ → Readline → ℕ → Readline
move_left zero s delta = s
move_left (suc fuel) s delta =
    let l = min delta s.term_cursor_x in
    let line_above =
      move_left fuel
        (record (term_print (csi (s.term_width - 1) b'C') (term_print (csi 1 b'A') s)) {
          term_cursor_x = s.term_width - 1;
        })
        (delta - 1) in
    let same_line =
      move_left fuel (record (term_print (csi l b'D') s) { term_cursor_x = s.term_cursor_x - l })
        (delta - l) in
    if delta == 0 then s else if s.term_cursor_x == 0 then line_above else same_line

-- `move_cursor` by the integer `to - from`; each round moves by at least one column.
unfoldable pub move_cursor : Readline → ℕ → ℕ → Readline
unfolding move_right move_left
move_cursor s from to =
    if ltb from to
    then move_right (to - from) s (to - from)
    else move_left (from - to) s (from - to)

unfoldable pub char_width : ℕ → ℕ
char_width c =
    if ltb c 0x100
    then 1
    else if leb 0x4e00 c && leb c 0x9fff
        || leb 0xff01 c && leb c 0xff5e
        || leb 0x1f600 c && leb c 0x1f64f
    then 2
    else 1

-- while (x < width) { printf(" "); x++; pos++; } for the `n` columns that are left
unfoldable pub pad_line : ℕ → Readline → Readline
pad_line zero s = s
pad_line (suc n) s = pad_line n (record (term_print (text (32 ∷ [])) s) {
  term_cursor_x = s.term_cursor_x + 1;
  term_cursor_pos = s.term_cursor_pos + 1;
})

-- A character of width `len` at the byte `i` moves the cursor.
unfoldable pub place_char : ℕ → ℕ → Readline → Readline
unfolding pad_line
place_char i len s =
    let wrapped =
      (if ltb s.term_width (s.term_cursor_x + len) && ltb 0 i
        then record (pad_line (s.term_width - s.term_cursor_x) s) { term_cursor_x = 0 }
        else s) in
    let x = wrapped.term_cursor_x + len in
    record wrapped {
      term_cursor_pos = wrapped.term_cursor_pos + len;
      term_cursor_x = if leb wrapped.term_width x then 0 else x;
    }

-- The local variables of the redrawing; `none` for the length is a negative one.
pub record Draw : Type 0 where
  pub new_cursor_pos : ℕ
  pub last_color : ℕ
  pub color_len : Option ℕ

abbrev pub less_one : Option ℕ → Option ℕ
less_one none = none
less_one (some zero) = none
less_one (some (suc n)) = some n

abbrev pub is_spent : Option ℕ → Bool
is_spent (some zero) = true
is_spent _ = false

-- The colorization before the character at the byte `i` is printed.
unfoldable pub colorize : Option GetColor → ℕ → Readline × Draw → Readline × Draw
colorize none i (s, d) = (s, d)
colorize (some get) i (s, d) =
    let (c, n) = get s.term_cmd_buf i s.term_cmd_buf_len in
    let changed = is_spent d.color_len && not (c == d.last_color) in
    if s.term_is_password then (s, d) else (
      if changed then term_print (color c) (term_print (color color_none) s) else s,
      record d {
        last_color = if changed then c else d.last_color;
        color_len = less_one (if is_spent d.color_len then some n else d.color_len);
      },
    )

-- One round of the loop of `term_update`.
unfoldable pub draw_char : Option GetColor → ℕ → Readline × Draw → Readline × Draw
unfolding place_char colorize char_width
draw_char get i (s, d) =
    let (c, c_len) = char_at s.term_cmd_buf i in
    let d1 =
      (if i == s.term_cmd_buf_index then record d { new_cursor_pos = s.term_cursor_pos } else d) in
    let len = if s.term_is_password then 1 else char_width c in
    let bytes = if s.term_is_password then b'*' ∷ [] else words_at s.term_cmd_buf i c_len in
    let (s', d') = colorize get i (place_char i len s, d1) in (term_print (text bytes) s', d')

-- The loop of `term_update`, over the bytes that are left; it ends with the last value of `i`.
unfoldable pub draw_loop : ℕ → Option GetColor → ℕ → Readline × Draw → Readline × Draw × ℕ
unfolding draw_char
draw_loop zero get i (s, d) = (s, d, i)
draw_loop (suc fuel) get i (s, d) =
    let rest = draw_loop fuel get (i + (char_at s.term_cmd_buf i).1) (draw_char get i (s, d)) in
    if ltb i s.term_cmd_buf_len then rest else (s, d, i)

-- The column of the first character: (x - pos) % width, made positive.
abbrev pub start_column : Readline → ℕ
start_column s =
    let r = (s.term_cursor_pos - s.term_cursor_x) % s.term_width in
    if leb s.term_cursor_pos s.term_cursor_x
    then (s.term_cursor_x - s.term_cursor_pos) % s.term_width
    else if r == 0
    then 0
    else s.term_width - r

-- The loop that computes the cursor position without display, from the column `x` and position `pos` on.
unfoldable pub measure_loop : ℕ → Readline → ℕ → ℕ → ℕ → ℕ
unfolding char_width
measure_loop zero s i x pos = pos
measure_loop (suc fuel) s i x pos =
    let (c, c_len) = char_at s.term_cmd_buf i in
    let len = char_width (if s.term_is_password then b'*' else c) in
    let wraps = ltb s.term_width (x + len) && ltb 0 i in
    let x1 = (if wraps then 0 else x) + len in
    let pos1 = (if wraps then pos + (s.term_width - x) else pos) + len in
    let rest = measure_loop fuel s (i + c_len) (if leb s.term_width x1 then 0 else x1) pos1 in
    if ltb i s.term_cmd_buf_index then rest else pos

-- The line with a byte 0 behind it, which lies in the buffer while the line is shorter than the buffer.
abbrev pub ended : Readline → Readline
ended s = record s { term_cmd_buf = λ i. if i == s.term_cmd_buf_len then 0 else s.term_cmd_buf i }

abbrev pub start_draw : Draw
start_draw = record { new_cursor_pos = 0; last_color = color_none; color_len = some 0 }

-- What follows the loop of `term_update`.
unfoldable pub end_draw : Readline × Draw × ℕ → Readline × ℕ
end_draw (s, d, i) =
    let plain = if d.last_color == color_none then s else term_print (color color_none) s in
    let shown =
      (if plain.term_cursor_x == 0 then term_print (text (32 ∷ 8 ∷ [])) plain else plain) in
    (
      record (term_print (csi 1 b'J') shown) { term_cmd_updated = false },
      if i == s.term_cmd_buf_index then s.term_cursor_pos else d.new_cursor_pos,
    )

-- The redrawing of the line, and the new cursor position.
unfoldable pub redraw : Option GetColor → Readline → Readline × ℕ
unfolding draw_loop move_cursor end_draw
redraw get s =
    let home = record (move_cursor s s.term_cursor_pos 0) { term_cursor_pos = 0 } in
    end_draw (draw_loop home.term_cmd_buf_len get 0 (ended home, start_draw))

-- The cursor goes to its new position.
unfoldable pub place_cursor : Readline × ℕ → Readline
unfolding move_cursor
place_cursor (s, new_pos) = record (move_cursor s s.term_cursor_pos new_pos) {
  term_cursor_pos = new_pos;
}

unfoldable pub term_update : Option GetColor → Readline → Readline
unfolding redraw measure_loop place_cursor
term_update get s =
    if s.term_cmd_updated
    then place_cursor (redraw get s)
    else place_cursor (s, measure_loop s.term_cmd_buf_index s 0 (start_column s) 0)
