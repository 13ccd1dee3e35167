-- ===== src/Readline/Handle.antt =====
-- The line editor as a state machine: every key keeps a state in order.
use mathlib.Core.Path.{subst}
use mquickjs.Base.{
  ℕ, ◌+◌, ◌≤◌, length, ◌<◌, ◌≡◌, refl, sym, ◌⊎◌, inl, inr, Bool, true, false, ◌&&◌, Option, arith,
  leb, ◌==◌, if◌then◌else◌,
}
use mquickjs.Utf8.{unicode_to_utf8}
use mquickjs.Readline.{Readline, EscState, is_norm, is_esc, is_csi}
use mquickjs.Readline.Edit.{
  term_kill_region, term_delete_char, term_backspace, term_backward_char, term_forward_char,
  term_bol, term_eol, term_skip_word_backward, term_skip_word_forward, term_kill_word,
  term_kill_word_backward, skip_word_backward, skip_word_forward,
}
use mquickjs.Readline.Display.{GetColor, term_update}
use mquickjs.Readline.Keys.{
  ReadlineRet, ret_exit, ret_not_handled, ret_handled, ret_accepted, KeyAction, returns, shows,
  esc_goes, norm_key, esc_key, tilde_key, csi_key, key_action, end_line, finish_key,
  readline_handle_char,
}
use mquickjs.Readline.Chars.{
  go_left, go_right, drop_left, drop_right, term_forward_char-Shows, term_backward_char-Shows,
  term_delete_char-Shows, term_backspace-Shows,
}
use mquickjs.Readline.Skip.{IsAsciiTest}
use mquickjs.Readline.Spans.{
  word_left, word_right, kill_word_left, kill_word_right, kill_behind, kill_before, go_start,
  go_end, kill_behind-Shows, kill_before-Shows, term_skip_word_backward-Shows,
  term_skip_word_forward-Shows, term_kill_word-Shows, term_kill_word_backward-Shows, term_bol-Shows,
  term_eol-Shows,
}
use mquickjs.Readline.Ready.{
  term_kill_region-Shrinks, term_delete_char-Shrinks, term_backspace-Shrinks,
  term_backward_char-Shrinks, term_forward_char-Shrinks, within, IsReady, edited-IsReady,
  plain-IsReady, term_kill_region-past_part, term_delete_char-past_part, term_backspace-past_part,
  term_backward_char-past_part, term_forward_char-past_part, term_insert_char-IsReady,
  term_yank-IsReady, term_update-IsReady,
}
use mquickjs.Readline.Accept.{term_up_char-IsReady, term_down_char-IsReady, term_return-IsReady}

-- The state after a key, before the display.
abbrev IsKept : KeyAction → Type 0
IsKept (returns t r) = IsReady t
IsKept (shows t r) = IsReady t

-- What the key `ch` may insert has room behind the line: what was killed for Ctrl-Y, the character itself from 32 on.
abbrev pub Fits : Readline → ℕ → Type 0
Fits s ch =
    (ch ≡ 25 → s.term_cmd_buf_len + s.term_kill_buf_len < s.term_cmd_buf_size)
    × (32 ≤ ch → s.term_cmd_buf_len + length (unicode_to_utf8 ch) < s.term_cmd_buf_size)

either :
    (b : Bool) (x y : KeyAction)
    → (b ≡ true → IsKept x)
    → (b ≡ false → IsKept y)
    → IsKept (if b then x else y)
either true x y p q = p refl
either false x y p q = q refl

bol-IsReady : (s : Readline) → IsReady s → IsReady (term_bol s)
bol-IsReady s h =
    edited-IsReady (go_start h.view) refl (term_bol-Shows s h.view h.shows) (h.room, h.room_killed)
      h

eol-IsReady : (s : Readline) → IsReady s → IsReady (term_eol s)
eol-IsReady s h =
    edited-IsReady (go_end h.view) refl (term_eol-Shows s h.view h.shows) (h.room, h.room_killed) h

delete-IsReady : (s : Readline) → IsReady s → IsReady (term_delete_char s)
delete-IsReady s h =
    edited-IsReady (drop_right h.view) (term_delete_char-past_part s)
      (term_delete_char-Shows s h.view h.shows)
      (within (term_delete_char s) h (term_delete_char-Shrinks s)) h

backspace-IsReady : (s : Readline) → IsReady s → IsReady (term_backspace s)
backspace-IsReady s h =
    edited-IsReady (drop_left h.view) (term_backspace-past_part s)
      (term_backspace-Shows s h.view h.shows)
      (within (term_backspace s) h (term_backspace-Shrinks s)) h

backward-IsReady : (s : Readline) → IsReady s → IsReady (term_backward_char s)
backward-IsReady s h =
    edited-IsReady (go_left h.view) (term_backward_char-past_part s)
      (term_backward_char-Shows s h.view h.shows)
      (within (term_backward_char s) h (term_backward_char-Shrinks s)) h

forward-IsReady : (s : Readline) → IsReady s → IsReady (term_forward_char s)
forward-IsReady s h =
    edited-IsReady (go_right h.view) (term_forward_char-past_part s)
      (term_forward_char-Shows s h.view h.shows)
      (within (term_forward_char s) h (term_forward_char-Shrinks s)) h

kill_behind-IsReady :
    (s : Readline) → IsReady s → IsReady (term_kill_region s s.term_cmd_buf_len true)
kill_behind-IsReady s h =
    edited-IsReady (kill_behind h.view) (term_kill_region-past_part s s.term_cmd_buf_len true)
      (kill_behind-Shows s h.view h.shows)
      (within (term_kill_region s s.term_cmd_buf_len true) h
        (term_kill_region-Shrinks s s.term_cmd_buf_len true))
      h

kill_before-IsReady : (s : Readline) → IsReady s → IsReady (term_kill_region s 0 true)
kill_before-IsReady s h =
    edited-IsReady (kill_before h.view) (term_kill_region-past_part s 0 true)
      (kill_before-Shows s h.view h.shows)
      (within (term_kill_region s 0 true) h (term_kill_region-Shrinks s 0 true)) h

module _ (is_space : ℕ → Bool) (ascii : IsAsciiTest is_space false) where
  kill_word_backward-IsReady :
      (s : Readline) → IsReady s → IsReady (term_kill_word_backward is_space s)
  kill_word_backward-IsReady s h =
      edited-IsReady (kill_word_left is_space h.view)
        (term_kill_region-past_part s (skip_word_backward is_space s) true)
        (term_kill_word_backward-Shows is_space ascii s h.view h.shows)
        (within (term_kill_region s (skip_word_backward is_space s) true) h
          (term_kill_region-Shrinks s (skip_word_backward is_space s) true))
        h

  kill_word-IsReady : (s : Readline) → IsReady s → IsReady (term_kill_word is_space s)
  kill_word-IsReady s h =
      edited-IsReady (kill_word_right is_space h.view)
        (term_kill_region-past_part s (skip_word_forward is_space s) true)
        (term_kill_word-Shows is_space ascii s h.view h.shows)
        (within (term_kill_region s (skip_word_forward is_space s) true) h
          (term_kill_region-Shrinks s (skip_word_forward is_space s) true))
        h

  skip_backward-IsReady : (s : Readline) → IsReady s → IsReady (term_skip_word_backward is_space s)
  skip_backward-IsReady s h =
      edited-IsReady (word_left is_space h.view) refl
        (term_skip_word_backward-Shows is_space ascii s h.view h.shows) (h.room, h.room_killed) h

  skip_forward-IsReady : (s : Readline) → IsReady s → IsReady (term_skip_word_forward is_space s)
  skip_forward-IsReady s h =
      edited-IsReady (word_right is_space h.view) refl
        (term_skip_word_forward-Shows is_space ascii s h.view h.shows) (h.room, h.room_killed) h

  norm_key-IsKept :
      (s : Readline) (ch : ℕ)
      → IsReady s
      → ch < 0x200000
      → Fits s ch
      → IsKept (norm_key is_space s ch)
  unfolding norm_key
  norm_key-IsKept s ch h hi (fits_killed, fits) =
      either (ch == 1) _ _ (λ e. bol-IsReady s h)
        (λ e.
          either (ch == 4) _ _
            (λ e.
              either (s.term_cmd_buf_len == 0) _ _ (λ e. plain-IsReady refl h)
                (λ e. delete-IsReady s h))
            (λ e.
              either (ch == 5) _ _ (λ e. eol-IsReady s h)
                (λ e.
                  either (ch == 9) _ _ (λ e. h)
                    (λ e.
                      either (ch == 10) _ _ (λ e. term_return-IsReady s h)
                        (λ e.
                          either (ch == 13) _ _ (λ e. term_return-IsReady s h)
                            (λ e.
                              either (ch == 11) _ _ (λ e. kill_behind-IsReady s h)
                                (λ e.
                                  either (ch == 21) _ _ (λ e. kill_before-IsReady s h)
                                    (λ e.
                                      either (ch == 23) _ _ (λ e. kill_word_backward-IsReady s h)
                                        (λ e.
                                          either (ch == 25) _ _
                                            (λ e.
                                              term_yank-IsReady s h (fits_killed (ground arith)))
                                            (λ e.
                                              either (ch == 27) _ _ (λ e. plain-IsReady refl h)
                                                (λ e.
                                                  either (ch == 127) _ _
                                                    (λ e. backspace-IsReady s h)
                                                    (λ e.
                                                      either (ch == 8) _ _
                                                        (λ e. backspace-IsReady s h)
                                                        (λ e.
                                                          either (ch == 155) _ _
                                                            (λ e. plain-IsReady refl h)
                                                            (λ e.
                                                            either (leb 32 ch) _ _
                                                            (λ e.
                                                            term_insert_char-IsReady s ch h
                                                            (ground arith, hi)
                                                            (fits (ground arith)))
                                                            (λ e. h)))))))))))))))

  esc_key-IsKept : (s : Readline) (ch : ℕ) → IsReady s → IsKept (esc_key is_space s ch)
  unfolding esc_key
  esc_key-IsKept s ch h =
      either (ch == b'[') _ _ (λ e. plain-IsReady refl h)
        (λ e.
          either (ch == b'O') _ _ (λ e. plain-IsReady refl h)
            (λ e.
              either (ch == 13) _ _ (λ e. term_return-IsReady s h)
                (λ e.
                  either (ch == 8) _ _ (λ e. kill_word_backward-IsReady s h)
                    (λ e.
                      either (ch == 127) _ _ (λ e. kill_word_backward-IsReady s h)
                        (λ e.
                          either (ch == b'b') _ _ (λ e. skip_backward-IsReady s h)
                            (λ e.
                              either (ch == b'd') _ _ (λ e. kill_word-IsReady s h)
                                (λ e.
                                  either (ch == b'f') _ _ (λ e. skip_forward-IsReady s h)
                                    (λ e. h))))))))

tilde_key-IsKept : (s : Readline) → IsReady s → IsKept (tilde_key s)
unfolding tilde_key
tilde_key-IsKept s h =
    either (s.term_esc_param == 1) _ _ (λ e. bol-IsReady s h)
      (λ e.
        either (s.term_esc_param == 3) _ _ (λ e. delete-IsReady s h)
          (λ e. either (s.term_esc_param == 4) _ _ (λ e. eol-IsReady s h) (λ e. h)))

csi_key-IsKept : (s : Readline) (ch : ℕ) → IsReady s → IsKept (csi_key s ch)
unfolding csi_key
csi_key-IsKept s ch h =
    either (ch == b'A') _ _ (λ e. term_up_char-IsReady s h)
      (λ e.
        either (ch == b'B') _ _ (λ e. term_down_char-IsReady s h)
          (λ e.
            either (ch == b'E') _ _ (λ e. term_down_char-IsReady s h)
              (λ e.
                either (ch == b'D') _ _ (λ e. backward-IsReady s h)
                  (λ e.
                    either (ch == b'C') _ _ (λ e. forward-IsReady s h)
                      (λ e.
                        either (ch == b'F') _ _ (λ e. eol-IsReady s h)
                          (λ e.
                            either (ch == b'H') _ _ (λ e. bol-IsReady s h)
                              (λ e.
                                either (ch == b';') _ _ (λ e. plain-IsReady refl h)
                                  (λ e.
                                    either (leb b'0' ch && leb ch b'9') _ _
                                      (λ e. plain-IsReady refl h)
                                      (λ e.
                                        either (ch == b'~') _ _ (λ e. tilde_key-IsKept s h)
                                          (λ e. h))))))))))

-- The display ends a key that does not return at once.
end_line-IsReady : (r : ReadlineRet) (s : Readline) → IsReady s → IsReady (end_line r s)
end_line-IsReady ret_exit s h = h
end_line-IsReady ret_not_handled s h = h
end_line-IsReady ret_handled s h = h
end_line-IsReady ret_accepted s h = plain-IsReady refl h

finish_key-IsReady :
    (get : Option GetColor) (a : KeyAction) → IsKept a → IsReady (finish_key get a).0
finish_key-IsReady get (returns t r) h = h
finish_key-IsReady get (shows t r) h =
    end_line-IsReady r (term_update get t) (term_update-IsReady get t h)

after_key :
    (is_space : ℕ → Bool) (get : Option GetColor) (s : Readline) (ch : ℕ) (a : KeyAction)
    → key_action is_space s ch ≡ a
    → IsKept a
    → IsReady (readline_handle_char is_space get s ch).0
unfolding readline_handle_char
after_key is_space get s ch a e h =
    subst (λ x. IsReady (finish_key get x).0) (sym e) (finish_key-IsReady get a h)

esc_cases : (e : EscState) → (e ≡ is_norm) ⊎ (e ≡ is_esc) ⊎ (e ≡ is_csi)
esc_cases is_norm = inl refl
esc_cases is_esc = inr (inl refl)
esc_cases is_csi = inr (inr refl)

-- A key below 0x200000 keeps the state in order, where `isspace` holds of no byte from 128 on and what the key would
-- insert has room in the buffer behind the whole line: the command line stays a sequence of code points with the cursor
-- between two of them and the history a sequence of entries; the line and each entry stay shorter than the line's
-- buffer, and what was killed no longer than its buffer.
pub readline_handle_char-IsReady :
    (is_space : ℕ → Bool)
    → IsAsciiTest is_space false
    → (get : Option GetColor) (s : Readline) (ch : ℕ) → IsReady s
    → ch < 0x200000
    → Fits s ch
    → IsReady (readline_handle_char is_space get s ch).0
unfolding key_action
readline_handle_char-IsReady is_space ascii get s ch h hi fits = elim (esc_cases s.term_esc_state) [
  | inl e ↦
      after_key is_space get s ch (norm_key is_space s ch) (rw e refl)
        (norm_key-IsKept is_space ascii s ch h hi fits)
  | inr (inl e) ↦
      after_key is_space get s ch (esc_key is_space (esc_goes is_norm s) ch) (rw e refl)
        (esc_key-IsKept is_space ascii (esc_goes is_norm s) ch (plain-IsReady refl h))
  | inr (inr e) ↦
      after_key is_space get s ch (csi_key (esc_goes is_norm s) ch) (rw e refl)
        (csi_key-IsKept (esc_goes is_norm s) ch (plain-IsReady refl h))
]
