-- ===== src/Readline/Keys.antt =====
-- The keys of the line editor: `readline_handle_char`, `readline_handle_byte` and `readline_start`.
use mquickjs.Base.{
  ℕ, ◌+◌, ◌-◌, ◌*◌, ◌%◌, ◌^◌, bit_and, bit_or, Bool, true, ◌&&◌, Option, none, List, [], ◌∷◌, ltb,
  leb, ◌==◌, if◌then◌else◌,
}
use mquickjs.Utf8.{◌<<<◌}
use mquickjs.Readline.{Readline, EscState, is_norm, is_esc, is_csi, text, term_print}
use mquickjs.Readline.Edit.{
  term_insert_char, term_delete_char, term_backspace, term_kill_region, term_yank, term_kill_word,
  term_kill_word_backward, term_skip_word_backward, term_skip_word_forward, term_bol, term_eol,
  term_backward_char, term_forward_char,
}
use mquickjs.Readline.Display.{GetColor, term_update, term_show_prompt}
use mquickjs.Readline.History.{term_up_char, term_down_char, term_return}

-- READLINE_RET_x
pub data ReadlineRet : Type 0 where
  ret_exit ret_not_handled ret_handled ret_accepted : ReadlineRet

-- What a key does: it returns at once, or it goes on to the end of `readline_handle_char`, where the
-- line is displayed.
pub data KeyAction : Type 0 where
  returns shows : Readline → ReadlineRet → KeyAction

abbrev pub esc_goes : EscState → Readline → Readline
esc_goes e s = record s { term_esc_state = e }

module _ (is_space : ℕ → Bool) where
  -- case IS_NORM
  unfoldable pub norm_key : Readline → ℕ → KeyAction
  norm_key s ch =
      if ch == 1
      then shows (term_bol s) ret_handled
      else if ch == 4
      then if s.term_cmd_buf_len == 0
        then returns (term_print (text (b'^' ∷ b'D' ∷ 10 ∷ [])) s) ret_exit
        else shows (term_delete_char s) ret_handled
      else if ch == 5
      then shows (term_eol s) ret_handled
      else if ch == 9
      then shows s ret_handled
      else if ch == 10
      then shows (term_return s) ret_accepted
      else if ch == 13
      then shows (term_return s) ret_accepted
      else if ch == 11
      then shows (term_kill_region s s.term_cmd_buf_len true) ret_handled
      else if ch == 21
      then shows (term_kill_region s 0 true) ret_handled
      else if ch == 23
      then shows (term_kill_word_backward is_space s) ret_handled
      else if ch == 25
      then shows (term_yank s) ret_handled
      else if ch == 27
      then shows (esc_goes is_esc s) ret_handled
      else if ch == 127
      then shows (term_backspace s) ret_handled
      else if ch == 8
      then shows (term_backspace s) ret_handled
      else if ch == 155
      then shows (esc_goes is_csi s) ret_handled
      else if leb 32 ch
      then shows (term_insert_char s ch) ret_handled
      else returns s ret_not_handled

  -- The parameters of a control sequence are reset.
  abbrev pub start_csi : Readline → Readline
  start_csi s = record s {
    term_esc_state = is_csi;
    term_esc_param2 = 0;
    term_esc_param1 = 0;
    term_esc_param = 0;
  }

  -- case IS_ESC, after the state has gone back to IS_NORM
  unfoldable pub esc_key : Readline → ℕ → KeyAction
  esc_key s ch =
      if ch == b'['
      then shows (start_csi s) ret_handled
      else if ch == b'O'
      then shows (start_csi s) ret_handled
      else if ch == 13
      then shows (term_return s) ret_handled
      else if ch == 8
      then shows (term_kill_word_backward is_space s) ret_handled
      else if ch == 127
      then shows (term_kill_word_backward is_space s) ret_handled
      else if ch == b'b'
      then shows (term_skip_word_backward is_space s) ret_handled
      else if ch == b'd'
      then shows (term_kill_word is_space s) ret_handled
      else if ch == b'f'
      then shows (term_skip_word_forward is_space s) ret_handled
      else returns s ret_not_handled

-- term_esc_param * 10 + digit, which wraps here where the C int overflows
abbrev pub add_digit : Readline → ℕ → Readline
add_digit s ch = record s {
  term_esc_param = (s.term_esc_param * 10 + (ch - b'0')) % 2 ^ 32;
  term_esc_state = is_csi;
}

abbrev pub next_param : Readline → Readline
next_param s = record s {
  term_esc_param2 = s.term_esc_param1;
  term_esc_param1 = s.term_esc_param;
  term_esc_param = 0;
  term_esc_state = is_csi;
}

-- case '~' of IS_CSI
unfoldable pub tilde_key : Readline → KeyAction
tilde_key s =
    if s.term_esc_param == 1
    then shows (term_bol s) ret_handled
    else if s.term_esc_param == 3
    then shows (term_delete_char s) ret_handled
    else if s.term_esc_param == 4
    then shows (term_eol s) ret_handled
    else returns s ret_not_handled

-- case IS_CSI, after the state has gone back to IS_NORM
unfoldable pub csi_key : Readline → ℕ → KeyAction
unfolding tilde_key
csi_key s ch =
    if ch == b'A'
    then shows (term_up_char s) ret_handled
    else if ch == b'B'
    then shows (term_down_char s) ret_handled
    else if ch == b'E'
    then shows (term_down_char s) ret_handled
    else if ch == b'D'
    then shows (term_backward_char s) ret_handled
    else if ch == b'C'
    then shows (term_forward_char s) ret_handled
    else if ch == b'F'
    then shows (term_eol s) ret_handled
    else if ch == b'H'
    then shows (term_bol s) ret_handled
    else if ch == b';'
    then shows (next_param s) ret_handled
    else if leb b'0' ch && leb ch b'9'
    then shows (add_digit s ch) ret_handled
    else if ch == b'~'
    then tilde_key s
    else returns s ret_not_handled

unfoldable pub key_action : (ℕ → Bool) → Readline → ℕ → KeyAction
unfolding norm_key esc_key csi_key
key_action is_space s ch = elim s.term_esc_state [
  | is_norm ↦ norm_key is_space s ch
  | is_esc ↦ esc_key is_space (esc_goes is_norm s) ch
  | is_csi ↦ csi_key (esc_goes is_norm s) ch
]

abbrev pub end_line : ReadlineRet → Readline → Readline
end_line ret_accepted s = term_print (text (10 ∷ [])) s
end_line _ s = s

-- What follows the switch on the key.
abbrev pub finish_key : Option GetColor → KeyAction → Readline × ReadlineRet
finish_key get (returns t r) = (t, r)
finish_key get (shows t r) = (end_line r (term_update get t), r)

unfoldable pub readline_handle_char :
    (ℕ → Bool) → Option GetColor → Readline → ℕ → Readline × ReadlineRet
unfolding key_action
readline_handle_char is_space get s ch = finish_key get (key_action is_space s ch)

-- utf8_state for a lead byte: the number of bytes that follow
abbrev pub tails : ℕ → ℕ
tails c = 1 + (if leb 0xe0 c then 1 else 0) + (if leb 0xf0 c then 1 else 0)

unfoldable pub readline_handle_byte :
    (ℕ → Bool) → Option GetColor → Readline → ℕ → Readline × ReadlineRet
readline_handle_byte is_space get s c =
    let val = bit_or (s.utf8_val <<< 6) (bit_and c 0x3f) % 2 ^ 32 in
    let more = record s { utf8_val = val; utf8_state = s.utf8_state - 1 } in
    if leb 0xc0 c && ltb c 0xf8
    then (
      record s { utf8_state = tails c; utf8_val = bit_and c (2 ^ (6 - tails c) - 1) },
      ret_handled,
    )
    else if s.utf8_state == 0
    then readline_handle_char is_space get s c
    else if leb 0x80 c && ltb c 0xc0
    then if s.utf8_state == 1
      then readline_handle_char is_space get more val
      else (more, ret_handled)
    else readline_handle_char is_space get (record s { utf8_state = 0 }) c

unfoldable pub readline_start : Readline → List ℕ → Bool → Readline
readline_start s prompt is_password = term_show_prompt (record s {
  term_prompt = prompt;
  term_is_password = is_password;
  term_hist_entry = none;
  term_cmd_buf_index = 0;
  term_cmd_buf_len = 0;
})
