-- ===== src/Readline/Chars.antt =====
-- The operations on single characters are those of an editor of code points.
use mathlib.Core.List.{append-nil}
use mquickjs.Base.{
  ℕ, ◌+◌, ◌-◌, ◌<◌, ◌≡◌, refl, sym, ap, ◌∙◌, true, false, List, [], ◌∷◌, arith, length,
  length-append, ltb,
}
use mquickjs.Base.Slices.{words_at_split, words_of, words_at-words_of}
use mquickjs.Utf8.{unicode_to_utf8}
use mquickjs.Readline.{Readline}
use mquickjs.Readline.Edit.{
  term_insert_char, term_backward_char, term_forward_char, term_delete_char, term_backspace,
  char_at, back_to_lead, term_yank,
}
use mquickjs.Readline.Text.{
  IsCode, bytes, back, shift, length-back, char_at-encoded, back_to_lead-encoded,
  length-unicode_to_utf8, over_cursor,
}
use mquickjs.Readline.Moves.{IsEdited, kill_into, length-IsLine, to_left-IsLine, to_right-IsLine}
use mquickjs.Readline.Keeps.{kill_right-IsEdited, insert-IsEdited}

-- A line of code points with a cursor: those before it, the nearest first, and those behind it; and
-- what was killed last.
pub data Line : Type 0 where
  line : List ℕ → List ℕ → List ℕ → Line

-- The state of the editor stands for a line.
abbrev pub Shows : Readline → Line → Type 0
Shows s (line l r k) = IsEdited s l r k

unfoldable pub go_left : Line → Line
go_left (line [] r k) = line [] r k
go_left (line (c ∷ l) r k) = line l (c ∷ r) k

unfoldable pub go_right : Line → Line
go_right (line l [] k) = line l [] k
go_right (line l (c ∷ r) k) = line (c ∷ l) r k

unfoldable pub drop_right : Line → Line
drop_right (line l [] k) = line l [] k
drop_right (line l (c ∷ r) k) = line l r k

unfoldable pub drop_left : Line → Line
drop_left (line [] r k) = line [] r k
drop_left (line (c ∷ l) r k) = line l r k

unfoldable pub type_char : ℕ → Line → Line
type_char c (line l r k) = line (c ∷ l) r k

unfoldable pub insert_killed : Line → Line
insert_killed (line l r k) = line (shift k l) r k

-- The first code point behind the cursor.
behind_char :
    {s : Readline} (c : ℕ) (l r k : List ℕ)
    → IsEdited s l (c ∷ r) k
    → (char_at s.term_cmd_buf s.term_cmd_buf_index ≡ (c, length (unicode_to_utf8 c)))
      × (s.term_cmd_buf_index < s.term_cmd_buf_len)
unfolding bytes
behind_char {s} c l r k v =
    let (at_l, at_r, n) =
      words_at_split s.term_cmd_buf 0 s.term_cmd_buf_index s.term_cmd_buf_len (back l)
        (bytes (c ∷ r)) (omega (arith, v.line.here)) v.line.text in
    let u = unicode_to_utf8 c in
    let (at_c, rest, n') =
      words_at_split s.term_cmd_buf s.term_cmd_buf_index (s.term_cmd_buf_index + length u)
        (length (bytes (c ∷ r))) u (bytes r) refl at_r in
    let pos = length-unicode_to_utf8 c v.line.codes_behind.0 in
    (
      char_at-encoded s.term_cmd_buf s.term_cmd_buf_index c v.line.codes_behind.0 at_c,
      omega (arith, n, n', v.line.here),
    )

one_char : (c : ℕ) → length (bytes (c ∷ [])) ≡ length (unicode_to_utf8 c)
unfolding bytes
one_char c = length-append (unicode_to_utf8 c) [] ∙ omega arith

-- Right: on an editor that stands for a line of code points, the cursor goes over the code point behind it, and
-- stays at the end of the line.
pub term_forward_char-Shows :
    (s : Readline) (z : Line) → Shows s z → Shows (term_forward_char s) (go_right z)
unfolding term_forward_char go_right shift
term_forward_char-Shows s (line l [] k) v =
    let stop : ltb s.term_cmd_buf_index s.term_cmd_buf_len ≡ false =
      unfold bytes in ground (arith, length-IsLine v.line, v.line.here) in
    rw stop v
term_forward_char-Shows s (line l (c ∷ r) k) v =
    let (char, more) = behind_char c l r k v in
    let goes : ltb s.term_cmd_buf_index s.term_cmd_buf_len ≡ true = ground arith in
    let at : s.term_cmd_buf_index + (char_at s.term_cmd_buf s.term_cmd_buf_index).1
        ≡ length (back l) + length (bytes (c ∷ [])) =
      omega (arith, ap (λ x. x.1) char, one_char c, v.line.here) in
    rw goes (record {
      line = to_right-IsLine (c ∷ []) l r _ v.line at;
      killed = record { text = v.killed.text; codes = v.killed.codes };
    })

-- ^D: the code point behind the cursor goes, and at the end of the line nothing changes; what was killed stays.
pub term_delete_char-Shows :
    (s : Readline) (z : Line) → Shows s z → Shows (term_delete_char s) (drop_right z)
unfolding term_delete_char drop_right
term_delete_char-Shows s (line l [] k) v =
    let stop : ltb s.term_cmd_buf_index s.term_cmd_buf_len ≡ false =
      unfold bytes in ground (arith, length-IsLine v.line, v.line.here) in
    rw stop v
term_delete_char-Shows s (line l (c ∷ r) k) v =
    let (char, more) = behind_char c l r k v in
    let goes : ltb s.term_cmd_buf_index s.term_cmd_buf_len ≡ true = ground arith in
    let at : s.term_cmd_buf_index + (char_at s.term_cmd_buf s.term_cmd_buf_index).1
        ≡ length (back l) + length (bytes (c ∷ [])) =
      omega (arith, ap (λ x. x.1) char, one_char c, v.line.here) in
    rw goes (unfold kill_into in kill_right-IsEdited _ l (c ∷ []) r k false v at)

-- The code point before the cursor.
before_char :
    {s : Readline} (c : ℕ) (l r k : List ℕ)
    → IsEdited s (c ∷ l) r k
    → (back_to_lead s.term_cmd_buf (s.term_cmd_buf_index - 1) ≡ length (back l))
      × (0 < s.term_cmd_buf_index)
unfolding bytes
before_char {s} c l r k v =
    let start = length (back l) in
    let u = unicode_to_utf8 c in
    let text = v.line.text ∙ over_cursor c l r in
    let (at_l, at_r, n) =
      words_at_split s.term_cmd_buf 0 start s.term_cmd_buf_len (back l) (bytes (c ∷ r))
        (omega arith) text in
    let (at_c, rest, n') =
      words_at_split s.term_cmd_buf start (start + length u) (length (bytes (c ∷ r))) u (bytes r)
        refl at_r in
    let pos = length-unicode_to_utf8 c v.line.codes_before.0 in
    let here : s.term_cmd_buf_index ≡ start + length u = v.line.here ∙ length-back c l in
    let last : s.term_cmd_buf_index - 1 ≡ start + length u - 1 = omega (arith, here) in
    (
      ap (back_to_lead s.term_cmd_buf) last
          ∙ back_to_lead-encoded s.term_cmd_buf start c v.line.codes_before.0 at_c,
      omega (arith, here, pos),
    )

-- Left: the cursor goes back over the code point before it, and stays at the start of the line.
pub term_backward_char-Shows :
    (s : Readline) (z : Line) → Shows s z → Shows (term_backward_char s) (go_left z)
unfolding term_backward_char go_left shift
term_backward_char-Shows s (line [] r k) v =
    let stop : ltb 0 s.term_cmd_buf_index ≡ false = unfold back in ground (arith, v.line.here) in
    rw stop v
term_backward_char-Shows s (line (c ∷ l) r k) v =
    let (at, pos) = before_char c l r k v in
    let goes : ltb 0 s.term_cmd_buf_index ≡ true = ground arith in
    rw goes (record {
      line = to_left-IsLine (c ∷ []) l r _ v.line at;
      killed = record { text = v.killed.text; codes = v.killed.codes };
    })

-- Backspace: the code point before the cursor goes, and at the start of the line nothing changes.
pub term_backspace-Shows :
    (s : Readline) (z : Line) → Shows s z → Shows (term_backspace s) (drop_left z)
unfolding term_backspace drop_left go_left drop_right
term_backspace-Shows s (line [] r k) v =
    let stop : ltb 0 s.term_cmd_buf_index ≡ false = unfold back in ground (arith, v.line.here) in
    rw stop v
term_backspace-Shows s (line (c ∷ l) r k) v =
    let (at, pos) = before_char c l r k v in
    let goes : ltb 0 s.term_cmd_buf_index ≡ true = ground arith in
    let moved = term_backward_char-Shows s (line (c ∷ l) r k) v in
    rw goes (term_delete_char-Shows (term_backward_char s) (line l (c ∷ r) k) moved)

-- A code point from 32 up to 0x1fffff is inserted before the cursor, if its bytes and those before the cursor
-- are fewer than the bytes of the buffer.
pub term_insert_char-Shows :
    (s : Readline) (z : Line) (c : ℕ)
    → Shows s z
    → IsCode c
    → s.term_cmd_buf_index + length (unicode_to_utf8 c) < s.term_cmd_buf_size
    → Shows (term_insert_char s c) (type_char c z)
unfolding term_insert_char type_char bytes shift
term_insert_char-Shows s (line l r k) c v h room =
    insert-IsEdited (words_of (unicode_to_utf8 c)) (length (unicode_to_utf8 c)) l (c ∷ []) r k v
      (words_at-words_of (unicode_to_utf8 c) ∙ sym (append-nil (unicode_to_utf8 c))) (h, tt) room

-- ^Y: what was killed last is inserted before the cursor, if its bytes and those before the cursor are fewer
-- than the bytes of the buffer.
pub term_yank-Shows :
    (s : Readline) (z : Line)
    → Shows s z
    → s.term_cmd_buf_index + s.term_kill_buf_len < s.term_cmd_buf_size
    → Shows (term_yank s) (insert_killed z)
unfolding insert_killed
term_yank-Shows s (line l r k) v room =
    insert-IsEdited s.term_kill_buf s.term_kill_buf_len l k r k v v.killed.text v.killed.codes room
