-- ===== src/Readline/Spans.antt =====
-- The operations on words and on the rest of the line.
use mathlib.Core.List.{append_assoc, append-nil}
use mquickjs.Base.{
  ℕ, ◌+◌, ◌-◌, ◌≤◌, ◌≡◌, refl, ap, ◌∙◌, Bool, true, false, not, List, [], ◌++◌, arith, length,
  length-append,
}
use mquickjs.Base.Slices.{words_at, words_at_split}
use mquickjs.Props.{Words}
use mquickjs.Readline.{Readline}
use mquickjs.Readline.Edit.{
  term_kill_region, skip_back, skip_word_backward, skip_word_forward, term_skip_word_backward,
  term_skip_word_forward, term_kill_word, term_kill_word_backward, term_bol, term_eol,
}
use mquickjs.Readline.Text.{bytes, back, IsLine, shift, bytes-append, back-append}
use mquickjs.Readline.Moves.{IsEdited, kill_into, length-IsLine, to_left-IsLine, to_right-IsLine}
use mquickjs.Readline.Keeps.{kill_right-IsEdited, kill_left-IsEdited}
use mquickjs.Readline.Chars.{Line, line, Shows}
use mquickjs.Readline.Skip.{
  take_while, drop_while, take_while-drop_while, All-drop_while, IsAsciiTest, skip_back-drop_while,
  skip_on-take_while,
}

-- The next word with the spaces before it, and what is left.
unfoldable pub word : (ℕ → Bool) → List ℕ → List ℕ
word is_space l =
    take_while is_space l ++ take_while (λ c. not (is_space c)) (drop_while is_space l)

unfoldable pub past_word : (ℕ → Bool) → List ℕ → List ℕ
past_word is_space l = drop_while (λ c. not (is_space c)) (drop_while is_space l)

word-past_word : (is_space : ℕ → Bool) (l : List ℕ) → word is_space l ++ past_word is_space l ≡ l
unfolding word past_word
word-past_word is_space l =
    let rest = drop_while is_space l in
    let test = λ (c : ℕ). not (is_space c) in
    append_assoc (take_while is_space l) (take_while test rest) (drop_while test rest)
    ∙ ap (λ xs. take_while is_space l ++ xs) (take_while-drop_while test rest)
    ∙ take_while-drop_while is_space l

unfoldable pub word_left : (ℕ → Bool) → Line → Line
word_left is_space (line l r k) = line (past_word is_space l) (shift (word is_space l) r) k

unfoldable pub word_right : (ℕ → Bool) → Line → Line
word_right is_space (line l r k) = line (shift (word is_space r) l) (past_word is_space r) k

-- A word that is not empty becomes what was killed last.
unfoldable pub kill_word_left : (ℕ → Bool) → Line → Line
kill_word_left is_space (line l r k) =
    line (past_word is_space l) r (kill_into true (shift (word is_space l) []) k)

unfoldable pub kill_word_right : (ℕ → Bool) → Line → Line
kill_word_right is_space (line l r k) =
    line l (past_word is_space r) (kill_into true (word is_space r) k)

unfoldable pub kill_behind : Line → Line
kill_behind (line l r k) = line l [] (kill_into true r k)

unfoldable pub kill_before : Line → Line
kill_before (line l r k) = line [] r (kill_into true (shift l []) k)

unfoldable pub go_start : Line → Line
go_start (line l r k) = line [] (shift l r) k

unfoldable pub go_end : Line → Line
go_end (line l r k) = line (shift r l) [] k

moved-IsEdited :
    {s : Readline} {l r k l' r' : List ℕ} (i : ℕ)
    → IsEdited s l r k
    → IsLine (record s { term_cmd_buf_index = i }) l' r'
    → IsEdited (record s { term_cmd_buf_index = i }) l' r' k
moved-IsEdited i v w = record {
  line = w;
  killed = record { text = v.killed.text; codes = v.killed.codes };
}

-- ^A and Home
pub term_bol-Shows : (s : Readline) (z : Line) → Shows s z → Shows (term_bol s) (go_start z)
unfolding go_start back
term_bol-Shows s (line l r k) v =
    moved-IsEdited 0 v (to_left-IsLine {s = s} l [] r 0 (rw (append-nil l) v.line) refl)

-- ^E and End
pub term_eol-Shows : (s : Readline) (z : Line) → Shows s z → Shows (term_eol s) (go_end z)
unfolding go_end
term_eol-Shows s (line l r k) v = moved-IsEdited s.term_cmd_buf_len v (
    to_right-IsLine {s = s} r l [] s.term_cmd_buf_len (rw (append-nil r) v.line)
      (length-IsLine v.line))

-- ^K: the code points behind the cursor go; if there are any, they are what was killed last.
pub kill_behind-Shows :
    (s : Readline) (z : Line)
    → Shows s z
    → Shows (term_kill_region s s.term_cmd_buf_len true) (kill_behind z)
unfolding kill_behind
kill_behind-Shows s (line l r k) v =
    kill_right-IsEdited s.term_cmd_buf_len l r [] k true (rw (append-nil r) v)
      (length-IsLine v.line)

-- ^U: the code points before the cursor go; if there are any, they are what was killed last.
pub kill_before-Shows :
    (s : Readline) (z : Line) → Shows s z → Shows (term_kill_region s 0 true) (kill_before z)
unfolding kill_before back
kill_before-Shows s (line l r k) v = kill_left-IsEdited 0 l [] r k true (rw (append-nil l) v) refl

-- The code points that are left after others are passed.
behind_back :
    (m : Words) (t l : List ℕ)
    → words_at m 0 (length (back (t ++ l))) ≡ back (t ++ l)
    → words_at m 0 (length (back l)) ≡ back l
behind_back m t l e =
    (words_at_split m 0 (length (back l)) (length (back (t ++ l))) (back l) (back t) (omega arith)
      (e ∙ back-append t l)).0

behind_bytes :
    (m : Words) (i : ℕ) (t r : List ℕ)
    → words_at m i (length (bytes (t ++ r))) ≡ bytes (t ++ r)
    → (words_at m (i + length (bytes t)) (length (bytes r)) ≡ bytes r)
      × (length (bytes (t ++ r)) ≡ length (bytes t) + length (bytes r))
behind_bytes m i t r e =
    let (front, behind, n) =
      words_at_split m i (i + length (bytes t)) (length (bytes (t ++ r))) (bytes t) (bytes r) refl
        (e ∙ bytes-append t r) in
    (behind, n)

module _ (is_space : ℕ → Bool) (ascii : (b : ℕ) → 128 ≤ b → is_space b ≡ false) where
  not_space : IsAsciiTest (λ c. not (is_space c)) true
  not_space b l = ap not (ascii b l)

  -- The words that are skipped in the buffer are those of the code points.
  skip_word_backward-past_word :
      (s : Readline) (l r k : List ℕ)
      → IsEdited s l r k
      → skip_word_backward is_space s ≡ length (back (past_word is_space l))
  unfolding skip_word_backward past_word
  skip_word_backward-past_word s l r k v =
      let m = s.term_cmd_buf in
      let test = λ (c : ℕ). not (is_space c) in
      let (at_l, at_r, n) =
        words_at_split m 0 s.term_cmd_buf_index s.term_cmd_buf_len (back l) (bytes r)
          (omega (arith, v.line.here)) v.line.text in
      let rest = drop_while is_space l in
      let first = skip_back-drop_while is_space m false ascii l v.line.codes_before at_l in
      let at_rest =
        behind_back m (take_while is_space l) rest (rw (take_while-drop_while is_space l) at_l) in
      ap (λ i. skip_back test m (skip_back is_space m i)) v.line.here
      ∙ ap (skip_back test m) first
      ∙ skip_back-drop_while test m true not_space rest
          (All-drop_while is_space l v.line.codes_before) at_rest

  skip_word_forward-word :
      (s : Readline) (l r k : List ℕ)
      → IsEdited s l r k
      → skip_word_forward is_space s ≡ length (back l) + length (bytes (word is_space r))
  unfolding skip_word_forward word
  skip_word_forward-word s l r k v =
      let m = s.term_cmd_buf in
      let i = s.term_cmd_buf_index in
      let test = λ (c : ℕ). not (is_space c) in
      let (at_l, at_r, n) =
        words_at_split m 0 i s.term_cmd_buf_len (back l) (bytes r) (omega (arith, v.line.here))
          v.line.text in
      let spaces = take_while is_space r in
      let rest = drop_while is_space r in
      let (at_rest, n') =
        behind_bytes m i spaces rest (rw (take_while-drop_while is_space r) at_r) in
      let whole : length (bytes r) ≡ length (bytes spaces) + length (bytes rest) =
        rw (take_while-drop_while is_space r) at n' in
      let left : s.term_cmd_buf_len - i ≡ length (bytes r) = omega (arith, n, v.line.here) in
      let first = skip_on-take_while is_space m false ascii i r v.line.codes_behind at_r in
      let pos = i + length (bytes spaces) in
      let left' : s.term_cmd_buf_len - pos ≡ length (bytes rest) =
        omega (arith, n, v.line.here, whole) in
      let second =
        skip_on-take_while test m true not_space pos rest
          (All-drop_while is_space r v.line.codes_behind) at_rest in
      let done = bytes-append spaces (take_while test rest) in
      rw (left, first, left', second)
        (omega (
          arith,
          v.line.here,
          ap length done,
          length-append (bytes spaces) (bytes (take_while test rest)),
        ))

  -- ESC b, for a test of spaces that holds of no byte from 128 on: the cursor goes back over the spaces and then the
  -- word before it.
  pub term_skip_word_backward-Shows :
      (s : Readline) (z : Line)
      → Shows s z
      → Shows (term_skip_word_backward is_space s) (word_left is_space z)
  unfolding word_left
  term_skip_word_backward-Shows s (line l r k) v =
      let i = skip_word_backward is_space s in
      moved-IsEdited i v (
        to_left-IsLine {s = s} (word is_space l) (past_word is_space l) r i
          (rw (word-past_word is_space l) v.line) (skip_word_backward-past_word s l r k v))

  -- ESC f, for a test of spaces that holds of no byte from 128 on: the cursor goes over the spaces and then the word
  -- behind it.
  pub term_skip_word_forward-Shows :
      (s : Readline) (z : Line)
      → Shows s z
      → Shows (term_skip_word_forward is_space s) (word_right is_space z)
  unfolding word_right
  term_skip_word_forward-Shows s (line l r k) v =
      let i = skip_word_forward is_space s in
      moved-IsEdited i v (
        to_right-IsLine {s = s} (word is_space r) l (past_word is_space r) i
          (rw (word-past_word is_space r) v.line) (skip_word_forward-word s l r k v))

  -- ^W, for a test of spaces that holds of no byte from 128 on: the spaces and then the word before the cursor go; if
  -- there are any, they are what was killed last.
  pub term_kill_word_backward-Shows :
      (s : Readline) (z : Line)
      → Shows s z
      → Shows (term_kill_word_backward is_space s) (kill_word_left is_space z)
  unfolding kill_word_left
  term_kill_word_backward-Shows s (line l r k) v =
      kill_left-IsEdited {s = s} (skip_word_backward is_space s) (word is_space l)
        (past_word is_space l) r k true (rw (word-past_word is_space l) v)
        (skip_word_backward-past_word s l r k v)

  -- ESC d, for a test of spaces that holds of no byte from 128 on: the spaces and then the word behind the cursor go;
  -- if there are any, they are what was killed last.
  pub term_kill_word-Shows :
      (s : Readline) (z : Line)
      → Shows s z
      → Shows (term_kill_word is_space s) (kill_word_right is_space z)
  unfolding kill_word_right
  term_kill_word-Shows s (line l r k) v =
      kill_right-IsEdited {s = s} (skip_word_forward is_space s) l (word is_space r)
        (past_word is_space r) k true (rw (word-past_word is_space r) v)
        (skip_word_forward-word s l r k v)
