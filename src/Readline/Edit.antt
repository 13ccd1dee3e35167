-- ===== src/Readline/Edit.antt =====
-- The editing of the command line in readline.c.
use mquickjs.Base.{
  ℕ, zero, suc, ◌+◌, ◌-◌, Bool, true, false, not, ◌&&◌, length, ltb, leb, if◌then◌else◌,
}
use mquickjs.Base.Slices.{words_at, words_of, blit}
use mquickjs.Props.{Words}
use mquickjs.Utf8.{unicode_to_utf8, utf8_get}
use mquickjs.Readline.{Readline}

-- The bytes from `start` up to `end` are taken out.
unfoldable pub cut_region : Readline → ℕ → ℕ → Bool → Readline
cut_region s start end kill =
    let len = end - start in
    let killed =
      (if kill
        then record s {
          term_kill_buf = blit s.term_kill_buf 0 s.term_cmd_buf start len;
          term_kill_buf_len = len;
        }
        else s) in
    record killed {
      term_cmd_buf = blit s.term_cmd_buf start s.term_cmd_buf end (s.term_cmd_buf_len - end);
      term_cmd_buf_len = s.term_cmd_buf_len - len;
      term_cmd_buf_index = start;
      term_cmd_updated = true;
    }

unfoldable pub term_kill_region : Readline → ℕ → Bool → Readline
unfolding cut_region
term_kill_region s to kill =
    let start = if ltb to s.term_cmd_buf_index then to else s.term_cmd_buf_index in
    let end0 = if ltb to s.term_cmd_buf_index then s.term_cmd_buf_index else to in
    let end = if ltb s.term_cmd_buf_len end0 then s.term_cmd_buf_len else end0 in
    if ltb start end then cut_region s start end kill else s

-- The buffer has no end here. In C the bytes behind term_cmd_buf_size are not part of it: the test on `pos` does not keep
-- the line out of them, and a theorem on what is inserted asks for room behind the whole line.
unfoldable pub term_insert_region : Readline → Words → ℕ → Readline
term_insert_region s p len =
    let pos = s.term_cmd_buf_index in
    let nchars = s.term_cmd_buf_len - pos in
    let moved = blit s.term_cmd_buf (pos + len) s.term_cmd_buf pos nchars in
    if ltb (pos + len) s.term_cmd_buf_size
    then record s {
      term_cmd_buf = blit moved pos p 0 len;
      term_cmd_buf_len = s.term_cmd_buf_len + len;
      term_cmd_buf_index = pos + len;
      term_cmd_updated = true;
    }
    else s

unfoldable pub term_insert_char : Readline → ℕ → Readline
term_insert_char s ch =
    term_insert_region s (words_of (unicode_to_utf8 ch)) (length (unicode_to_utf8 ch))

abbrev pub is_utf8_ext : ℕ → Bool
is_utf8_ext c = leb 0x80 c && ltb c 0xc0

-- while (pos > 0 && is_utf8_ext(buf[pos])) pos--
unfoldable pub back_to_lead : Words → ℕ → ℕ
back_to_lead m zero = zero
back_to_lead m (suc pos) = if is_utf8_ext (m (suc pos)) then back_to_lead m pos else suc pos

unfoldable pub term_backward_char : Readline → Readline
unfolding back_to_lead
term_backward_char s =
    if ltb 0 s.term_cmd_buf_index
    then record s { term_cmd_buf_index = back_to_lead s.term_cmd_buf (s.term_cmd_buf_index - 1) }
    else s

-- The character at a byte of the command line and its length; four bytes are enough for `utf8_get`.
abbrev pub char_at : Words → ℕ → ℕ × ℕ
char_at m i = utf8_get (words_at m i 4)

unfoldable pub term_forward_char : Readline → Readline
term_forward_char s =
    if ltb s.term_cmd_buf_index s.term_cmd_buf_len
    then record s {
      term_cmd_buf_index = s.term_cmd_buf_index + (char_at s.term_cmd_buf s.term_cmd_buf_index).1;
    }
    else s

unfoldable pub term_delete_char : Readline → Readline
term_delete_char s =
    if ltb s.term_cmd_buf_index s.term_cmd_buf_len
    then term_kill_region s (s.term_cmd_buf_index + (char_at s.term_cmd_buf s.term_cmd_buf_index).1)
        false
    else s

unfoldable pub term_backspace : Readline → Readline
term_backspace s = if ltb 0 s.term_cmd_buf_index then term_delete_char (term_backward_char s) else s

-- while (pos > 0 && test(buf[pos - 1])) --pos
unfoldable pub skip_back : (ℕ → Bool) → Words → ℕ → ℕ
skip_back test m zero = zero
skip_back test m (suc pos) = if test (m pos) then skip_back test m pos else suc pos

-- while (pos < pos + n && test(buf[pos])) pos++
unfoldable pub skip_on : (ℕ → Bool) → Words → ℕ → ℕ → ℕ
skip_on test m pos zero = pos
skip_on test m pos (suc n) = if test (m pos) then skip_on test m (suc pos) n else pos

unfoldable pub skip_word_backward : (ℕ → Bool) → Readline → ℕ
unfolding skip_back
skip_word_backward is_space s =
    skip_back (λ c. not (is_space c)) s.term_cmd_buf
      (skip_back is_space s.term_cmd_buf s.term_cmd_buf_index)

unfoldable pub skip_word_forward : (ℕ → Bool) → Readline → ℕ
unfolding skip_on
skip_word_forward is_space s =
    let pos =
      skip_on is_space s.term_cmd_buf s.term_cmd_buf_index
        (s.term_cmd_buf_len - s.term_cmd_buf_index) in
    skip_on (λ c. not (is_space c)) s.term_cmd_buf pos (s.term_cmd_buf_len - pos)

abbrev pub term_skip_word_backward : (ℕ → Bool) → Readline → Readline
term_skip_word_backward is_space s = record s { term_cmd_buf_index = skip_word_backward is_space s }

abbrev pub term_skip_word_forward : (ℕ → Bool) → Readline → Readline
term_skip_word_forward is_space s = record s { term_cmd_buf_index = skip_word_forward is_space s }

abbrev pub term_yank : Readline → Readline
term_yank s = term_insert_region s s.term_kill_buf s.term_kill_buf_len

abbrev pub term_kill_word : (ℕ → Bool) → Readline → Readline
term_kill_word is_space s = term_kill_region s (skip_word_forward is_space s) true

abbrev pub term_kill_word_backward : (ℕ → Bool) → Readline → Readline
term_kill_word_backward is_space s = term_kill_region s (skip_word_backward is_space s) true

abbrev pub term_bol : Readline → Readline
term_bol s = record s { term_cmd_buf_index = 0 }

abbrev pub term_eol : Readline → Readline
term_eol s = record s { term_cmd_buf_index = s.term_cmd_buf_len }
