-- ===== src/Readline.antt =====
-- The line editor of readline.c: its state, and what it prints. `term_printf` is a list of the things
-- printed, the newest first; `isspace` and the colors are arguments of the operations that call them.
pub mod Edit
pub mod Display
pub mod History
pub mod Keys
pub mod Text
pub mod Moves
pub mod Keeps
pub mod Chars
pub mod Skip
pub mod Spans
pub mod Commands
pub mod Frame
pub mod Entries
pub mod Recall
pub mod Ends
pub mod Enter
pub mod Repeated
pub mod Added
pub mod Return
pub mod Ready
pub mod Accept
pub mod Handle
pub mod Bytes
pub mod Cursor
pub mod Drawn
pub mod Measure
mod Examples
use mquickjs.Base.{ℕ, ◌+◌, Bool, Option, List, [], ◌∷◌}
use mquickjs.Props.{Words}

pub data EscState : Type 0 where
  is_norm is_esc is_csi : EscState

-- Text, the escape sequence of `print_csi`, and the one of `print_color`.
pub data Output : Type 0 where
  text : List ℕ → Output
  csi : ℕ → ℕ → Output
  color : ℕ → Output

-- ReadlineState, with what was printed; `none` for term_hist_entry is -1.
pub record Readline : Type 0 where
  pub term_cmd_buf_index : ℕ
  pub term_cmd_buf_len : ℕ
  pub utf8_val : ℕ
  pub term_cmd_updated : Bool
  pub utf8_state : ℕ
  pub term_esc_state : EscState
  pub term_esc_param : ℕ
  pub term_esc_param1 : ℕ
  pub term_esc_param2 : ℕ
  pub term_cursor_x : ℕ
  pub term_cursor_pos : ℕ
  pub term_hist_entry : Option ℕ
  pub term_history_size : ℕ
  pub term_is_password : Bool
  pub term_prompt : List ℕ
  pub term_width : ℕ
  pub term_cmd_buf_size : ℕ
  pub term_kill_buf_len : ℕ
  pub term_cmd_buf : Words
  pub term_kill_buf : Words
  pub term_history_buf_size : ℕ
  pub term_history : Words
  pub term_output : List Output

abbrev pub term_print : Output → Readline → Readline
term_print o s = record s { term_output = o ∷ s.term_output }
