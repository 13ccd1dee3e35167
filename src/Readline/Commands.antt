-- ===== src/Readline/Commands.antt =====
-- The edit commands of readline.c on the line of code points that the editor stands for.
use mquickjs.Base.{ℕ, ◌+◌, ◌≤◌, ◌<◌, Bool, true, false, length, inl, inr, arith, Bool-cases, ltb}
use mquickjs.Base.Slices.{words_of}
use mquickjs.Props.{Words}
use mquickjs.Utf8.{unicode_to_utf8}
use mquickjs.Readline.{Readline}
use mquickjs.Readline.Edit.{
  term_bol, term_eol, term_backward_char, term_forward_char, term_delete_char, term_backspace,
  term_insert_char, term_insert_region, term_yank, term_kill_region, term_skip_word_backward,
  term_skip_word_forward, term_kill_word, term_kill_word_backward,
}
use mquickjs.Readline.Text.{IsCode}
use mquickjs.Readline.Moves.{length-IsLine}
use mquickjs.Readline.Chars.{
  Line, line, Shows, go_left, go_right, drop_left, drop_right, type_char, insert_killed,
  term_forward_char-Shows, term_backward_char-Shows, term_delete_char-Shows, term_backspace-Shows,
  term_insert_char-Shows, term_yank-Shows,
}
use mquickjs.Readline.Skip.{IsAsciiTest}
use mquickjs.Readline.Spans.{
  go_start, go_end, word_left, word_right, kill_word_left, kill_word_right, kill_behind,
  kill_before, term_bol-Shows, term_eol-Shows, kill_behind-Shows, kill_before-Shows,
  term_skip_word_backward-Shows, term_skip_word_forward-Shows, term_kill_word-Shows,
  term_kill_word_backward-Shows,
}

-- On an editor that stands for a line of code points, for a test of spaces that holds of no byte from 128 on:
-- the cursor goes over the code point behind it, over the one before it, to the start of the line, to its end,
-- back over the spaces and then the word before it, and on over the spaces and then the word behind it.
pub moves-Shows :
    (is_space : ℕ → Bool) (s : Readline) (z : Line)
    → IsAsciiTest is_space false
    → Shows s z
    → Shows (term_forward_char s) (go_right z)
      × Shows (term_backward_char s) (go_left z)
      × Shows (term_bol s) (go_start z)
      × Shows (term_eol s) (go_end z)
      × Shows (term_skip_word_backward is_space s) (word_left is_space z)
      × Shows (term_skip_word_forward is_space s) (word_right is_space z)
moves-Shows is_space s z ascii v = (
  term_forward_char-Shows s z v,
  term_backward_char-Shows s z v,
  term_bol-Shows s z v,
  term_eol-Shows s z v,
  term_skip_word_backward-Shows is_space ascii s z v,
  term_skip_word_forward-Shows is_space ascii s z v,
)

-- On an editor that stands for a line of code points, for a test of spaces that holds of no byte from 128 on:
-- the code point behind the cursor goes, or the one before it, and what was killed stays; all behind the cursor,
-- all before it, the spaces and then the word behind it, or those before it go, and if these are any, they are
-- what was killed last.
pub deletions-Shows :
    (is_space : ℕ → Bool) (s : Readline) (z : Line)
    → IsAsciiTest is_space false
    → Shows s z
    → Shows (term_delete_char s) (drop_right z)
      × Shows (term_backspace s) (drop_left z)
      × Shows (term_kill_region s s.term_cmd_buf_len true) (kill_behind z)
      × Shows (term_kill_region s 0 true) (kill_before z)
      × Shows (term_kill_word is_space s) (kill_word_right is_space z)
      × Shows (term_kill_word_backward is_space s) (kill_word_left is_space z)
deletions-Shows is_space s z ascii v = (
  term_delete_char-Shows s z v,
  term_backspace-Shows s z v,
  kill_behind-Shows s z v,
  kill_before-Shows s z v,
  term_kill_word-Shows is_space ascii s z v,
  term_kill_word_backward-Shows is_space ascii s z v,
)

cursor-le : (s : Readline) (z : Line) → Shows s z → s.term_cmd_buf_index ≤ s.term_cmd_buf_len
cursor-le s (line l r k) v = omega (arith, v.line.here, length-IsLine v.line)

insert_region-len :
    (s : Readline) (p : Words) (n : ℕ)
    → s.term_cmd_buf_len + n < s.term_cmd_buf_size
    → (term_insert_region s p n).term_cmd_buf_len < s.term_cmd_buf_size
unfolding term_insert_region
insert_region-len s p n fits =
    elim (Bool-cases (ltb (s.term_cmd_buf_index + n) s.term_cmd_buf_size)) [
      | inl e ↦ rw e fits
      | inr e ↦ rw e (omega arith)
    ]

-- On an editor that stands for a line of code points: a code point from 32 up to 0x1fffff is inserted before the
-- cursor, and so is what was killed last, where these bytes and those of the whole line are fewer than the bytes
-- of the buffer; the line stays shorter than the buffer.
pub insertions-Shows :
    (s : Readline) (z : Line) (c : ℕ)
    → Shows s z
    → IsCode c
    → s.term_cmd_buf_len + length (unicode_to_utf8 c) < s.term_cmd_buf_size
    → s.term_cmd_buf_len + s.term_kill_buf_len < s.term_cmd_buf_size
    → Shows (term_insert_char s c) (type_char c z)
      × Shows (term_yank s) (insert_killed z)
      × ((term_insert_char s c).term_cmd_buf_len < s.term_cmd_buf_size)
      × ((term_yank s).term_cmd_buf_len < s.term_cmd_buf_size)
unfolding term_insert_char
insertions-Shows s z c v h room room_killed =
    let inside = cursor-le s z v in
    (
      term_insert_char-Shows s z c v h (omega arith),
      term_yank-Shows s z v (omega arith),
      insert_region-len s (words_of (unicode_to_utf8 c)) (length (unicode_to_utf8 c)) room,
      insert_region-len s s.term_kill_buf s.term_kill_buf_len room_killed,
    )
