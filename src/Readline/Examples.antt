-- ===== src/Readline/Examples.antt =====
-- The line editor on concrete lines, and its theorems there.
use mquickjs.Base.{
  All, ◌-◌, ◌≤◌, ◌<◌, ◌⊎◌, ℕ, ◌≡◌, refl, inl, Bool, true, false, ◌&&◌, Option, none, some, List, [],
  ◌∷◌, arith, leb, ◌==◌, if◌then◌else◌,
}
use mquickjs.Base.Slices.{words_at, words_of}
use mquickjs.Utf8.{unicode_to_utf8, unicode_to_utf8_multi}
use mquickjs.Readline.{Readline, is_norm}
use mquickjs.Readline.Edit.{
  term_insert_region, term_bol, term_eol, term_skip_word_forward, term_backward_char,
  term_forward_char, term_delete_char, term_backspace, term_insert_char, term_yank,
  term_kill_region, term_skip_word_backward, term_kill_word, term_kill_word_backward,
}
use mquickjs.Readline.Display.{term_update}
use mquickjs.Readline.History.{term_up_char, term_down_char, term_return}
use mquickjs.Readline.Text.{IsCode, bytes, back, shift}
use mquickjs.Readline.Moves.{IsEdited}
use mquickjs.Readline.Chars.{
  Line, line, Shows, go_left, go_right, drop_left, drop_right, type_char, insert_killed,
}
use mquickjs.Readline.Skip.{IsAsciiTest}
use mquickjs.Readline.Spans.{
  go_start, go_end, word_left, word_right, kill_word_left, kill_word_right, kill_behind,
  kill_before,
}
use mquickjs.Readline.Commands.{moves-Shows, deletions-Shows, insertions-Shows}
use mquickjs.Readline.Frame.{term_update-IsEdited}
use mquickjs.Readline.Entries.{IsEntry, flat, flat_back, IsPast}
use mquickjs.Readline.Recall.{term_up_char-IsPast, term_down_char-IsPast}
use mquickjs.Readline.Ends.{term_down_char-last}
use mquickjs.Readline.Display.{move_cursor, redraw, measure_loop, start_column}
use mquickjs.Readline.Measure.{redraw-measure_loop}
use mquickjs.Readline.Keys.{readline_handle_char}
use mquickjs.Readline.Ready.{IsShort, IsReady}
use mquickjs.Readline.Handle.{Fits, readline_handle_char-IsReady}
use mquickjs.Readline.Bytes.{handle_bytes, received, readline_handle_byte-unicode_to_utf8}
use mquickjs.Readline.Cursor.{IsRightOf, IsLeftOf, move_cursor-column}
use mquickjs.Readline.Return.{term_return-IsPast}

-- The line `a b|é`, with `x` killed last, and the history `c`, `d`.
abbrev edited : Readline
edited = record {
  term_cmd_buf_index = 3;
  term_cmd_buf_len = 5;
  utf8_val = 0;
  term_cmd_updated = true;
  utf8_state = 0;
  term_esc_state = is_norm;
  term_esc_param = 0;
  term_esc_param1 = 0;
  term_esc_param2 = 0;
  term_cursor_x = 5;
  term_cursor_pos = 3;
  term_hist_entry = none;
  term_history_size = 4;
  term_is_password = false;
  term_prompt = 62 ∷ 32 ∷ [];
  term_width = 80;
  term_cmd_buf_size = 64;
  term_kill_buf_len = 1;
  term_cmd_buf = words_of (97 ∷ 32 ∷ 98 ∷ 0xc3 ∷ 0xa9 ∷ []);
  term_kill_buf = words_of (120 ∷ []);
  term_history_buf_size = 64;
  term_history = words_of (99 ∷ 0 ∷ 100 ∷ 0 ∷ []);
  term_output = [];
}

abbrev shown : Line
shown = line (98 ∷ 32 ∷ 97 ∷ []) (0xe9 ∷ []) (120 ∷ [])

edited-Shows : Shows edited shown
unfolding words_at bytes back unicode_to_utf8 unicode_to_utf8_multi
edited-Shows = record {
  line = record {
    text = refl;
    here = refl;
    codes_before = (
      (omega arith, omega arith),
      ((omega arith, omega arith), ((omega arith, omega arith), tt)),
    );
    codes_behind = ((omega arith, omega arith), tt);
  };
  killed = record { text = refl; codes = ((omega arith, omega arith), tt) };
}

one_char : {c : ℕ} → IsCode c → IsEntry (c ∷ [])
one_char h = ((h, tt), λ e. cc e)

-- The cursor at the end of the history.
edited-IsPast : IsPast edited ((100 ∷ []) ∷ (99 ∷ []) ∷ []) []
unfolding words_at bytes unicode_to_utf8 flat flat_back
edited-IsPast = record {
  text = refl;
  entries_older = (one_char (omega arith, omega arith), (one_char (omega arith, omega arith), tt));
  entries_newer = tt;
  fits = omega arith;
  blank = λ e. absurd (cc e);
  place = refl;
  ends = λ e. refl;
  begun = λ e. inl refl;
}

abbrev at_oldest : Readline
at_oldest = record edited { term_hist_entry = some 0 }

abbrev at_newest : Readline
at_newest = record edited { term_hist_entry = some 2 }

oldest-IsPast : IsPast at_oldest [] ((99 ∷ []) ∷ (100 ∷ []) ∷ [])
unfolding words_at bytes unicode_to_utf8 flat flat_back
oldest-IsPast = record {
  text = refl;
  entries_older = tt;
  entries_newer = (one_char (omega arith, omega arith), (one_char (omega arith, omega arith), tt));
  fits = omega arith;
  blank = λ a b. absurd (cc b);
  place = refl;
  ends = λ e. absurd (cc e);
  begun = λ e. absurd (cc e);
}

newest_entry-IsPast : IsPast at_newest ((99 ∷ []) ∷ []) ((100 ∷ []) ∷ [])
unfolding words_at bytes unicode_to_utf8 flat flat_back
newest_entry-IsPast = record {
  text = refl;
  entries_older = (one_char (omega arith, omega arith), tt);
  entries_newer = (one_char (omega arith, omega arith), tt);
  fits = omega arith;
  blank = λ a b. absurd (cc b);
  place = refl;
  ends = λ e. absurd (cc e);
  begun = λ e. absurd (cc e);
}

-- isspace on ASCII
abbrev is_space : ℕ → Bool
is_space b = if b == 32 then true else leb 9 b && leb b 13

is_space-IsAsciiTest : IsAsciiTest is_space false
is_space-IsAsciiTest b l = ground arith

moves-Shows_example :
    Shows (term_forward_char edited) (go_right shown)
    × Shows (term_backward_char edited) (go_left shown)
    × Shows (term_bol edited) (go_start shown)
    × Shows (term_eol edited) (go_end shown)
    × Shows (term_skip_word_backward is_space edited) (word_left is_space shown)
    × Shows (term_skip_word_forward is_space edited) (word_right is_space shown)
moves-Shows_example = moves-Shows is_space edited shown is_space-IsAsciiTest edited-Shows

deletions-Shows_example :
    Shows (term_delete_char edited) (drop_right shown)
    × Shows (term_backspace edited) (drop_left shown)
    × Shows (term_kill_region edited edited.term_cmd_buf_len true) (kill_behind shown)
    × Shows (term_kill_region edited 0 true) (kill_before shown)
    × Shows (term_kill_word is_space edited) (kill_word_right is_space shown)
    × Shows (term_kill_word_backward is_space edited) (kill_word_left is_space shown)
deletions-Shows_example = deletions-Shows is_space edited shown is_space-IsAsciiTest edited-Shows

insertions-Shows_example :
    Shows (term_insert_char edited 0xe8) (type_char 0xe8 shown)
    × Shows (term_yank edited) (insert_killed shown)
    × ((term_insert_char edited 0xe8).term_cmd_buf_len < 64)
    × ((term_yank edited).term_cmd_buf_len < 64)
unfolding unicode_to_utf8 unicode_to_utf8_multi
insertions-Shows_example =
    insertions-Shows edited shown 0xe8 edited-Shows (omega arith, omega arith) (omega arith)
      (omega arith)

term_update-IsEdited_example :
    IsEdited (term_update none edited) (98 ∷ 32 ∷ 97 ∷ []) (0xe9 ∷ []) (120 ∷ [])
    × ((i : ℕ)
        → (i < 5) ⊎ (64 ≤ i)
        → (term_update none edited).term_cmd_buf i ≡ edited.term_cmd_buf i)
    × ((term_update none edited).term_kill_buf ≡ edited.term_kill_buf)
    × ((term_update none edited).term_history ≡ edited.term_history)
term_update-IsEdited_example = term_update-IsEdited none edited-Shows (omega arith)

term_up_char-IsPast_example :
    IsEdited (term_up_char edited) (100 ∷ []) [] (120 ∷ [])
    × IsPast (term_up_char edited) ((99 ∷ []) ∷ []) ((100 ∷ []) ∷ [])
unfolding shift
term_up_char-IsPast_example =
    term_up_char-IsPast edited (98 ∷ 32 ∷ 97 ∷ []) (0xe9 ∷ []) (120 ∷ []) (100 ∷ [])
      ((99 ∷ []) ∷ []) [] edited-Shows edited-IsPast

at_entry :
    (e : Option ℕ)
    → IsEdited (record edited { term_hist_entry = e }) (98 ∷ 32 ∷ 97 ∷ []) (0xe9 ∷ []) (120 ∷ [])
at_entry e = record {
  line = record {
    text = edited-Shows.line.text;
    here = edited-Shows.line.here;
    codes_before = edited-Shows.line.codes_before;
    codes_behind = edited-Shows.line.codes_behind;
  };
  killed = record { text = edited-Shows.killed.text; codes = edited-Shows.killed.codes };
}

term_down_char-IsPast_example :
    IsEdited (term_down_char at_oldest) (100 ∷ []) [] (120 ∷ [])
    × IsPast (term_down_char at_oldest) ((99 ∷ []) ∷ []) ((100 ∷ []) ∷ [])
unfolding shift
term_down_char-IsPast_example =
    term_down_char-IsPast at_oldest (98 ∷ 32 ∷ 97 ∷ []) (0xe9 ∷ []) (120 ∷ []) (99 ∷ []) (100 ∷ [])
      [] [] (at_entry (some 0)) oldest-IsPast

term_down_char-last_example :
    IsEdited (term_down_char at_newest) (0xe9 ∷ 98 ∷ 32 ∷ 97 ∷ []) [] (120 ∷ [])
    × IsPast (term_down_char at_newest) ((100 ∷ []) ∷ (99 ∷ []) ∷ []) []
unfolding shift
term_down_char-last_example =
    term_down_char-last at_newest (98 ∷ 32 ∷ 97 ∷ []) (0xe9 ∷ []) (120 ∷ []) (100 ∷ [])
      ((99 ∷ []) ∷ []) (at_entry (some 2)) newest_entry-IsPast

term_return-IsPast_example :
    (older : List (List ℕ)) × IsPast (term_return edited) ((97 ∷ 32 ∷ 98 ∷ 0xe9 ∷ []) ∷ older) []
    × All IsEntry older
unfolding shift
term_return-IsPast_example =
    term_return-IsPast IsEntry edited (98 ∷ 32 ∷ 97 ∷ []) (0xe9 ∷ []) (120 ∷ [])
      ((100 ∷ []) ∷ (99 ∷ []) ∷ []) [] edited-Shows edited-IsPast edited-IsPast.entries_older
      edited-IsPast.entries_newer (λ e. cc e) refl (omega arith) (omega arith)

sample-IsShort : All (IsShort 64) ((100 ∷ []) ∷ (99 ∷ []) ∷ [])
unfolding bytes unicode_to_utf8
sample-IsShort = (omega arith, (omega arith, tt))

sample-IsReady : IsReady edited
sample-IsReady = record {
  view = shown;
  shows = edited-Shows;
  older = (100 ∷ []) ∷ (99 ∷ []) ∷ [];
  newer = [];
  past = edited-IsPast;
  sizes = omega arith;
  room = omega arith;
  room_killed = omega arith;
  short_older = sample-IsShort;
  short_newer = tt;
}

-- An è has room.
sample-Fits : Fits edited 0xe8
unfolding unicode_to_utf8 unicode_to_utf8_multi
sample-Fits = (λ e. absurd (omega arith), λ le. omega arith)

readline_handle_char-IsReady_example : IsReady (readline_handle_char is_space none edited 0xe8).0
readline_handle_char-IsReady_example =
    readline_handle_char-IsReady is_space is_space-IsAsciiTest none edited 0xe8 sample-IsReady
      (omega arith) sample-Fits

readline_handle_byte-unicode_to_utf8_example :
    handle_bytes is_space none edited (unicode_to_utf8 0x20ac)
    ≡ readline_handle_char is_space none (received is_space none edited 0x20ac) 0x20ac
readline_handle_byte-unicode_to_utf8_example =
    readline_handle_byte-unicode_to_utf8 is_space none edited 0x20ac refl (omega arith)

move_cursor-column_example :
    ((3 ≤ 90) × IsRightOf edited (90 - 3) (move_cursor edited 3 90))
    ⊎ ((90 ≤ 3) × IsLeftOf edited (3 - 90) (move_cursor edited 3 90))
move_cursor-column_example = move_cursor-column edited 3 90 (omega arith)

redraw-measure_loop_example :
    (redraw none edited).1 ≡ measure_loop 3 edited 0 (start_column edited) 0
redraw-measure_loop_example =
    redraw-measure_loop none edited (98 ∷ 32 ∷ 97 ∷ []) (0xe9 ∷ []) (120 ∷ []) edited-Shows
      (omega arith)

-- A character of two bytes at the start of a line that all but fills its buffer goes in, and the line is then
-- longer than the buffer.
abbrev nearly_full : Readline
nearly_full = record edited { term_cmd_buf_index = 0; term_cmd_buf_size = 6 }

overflow : (term_insert_char nearly_full 0xe9).term_cmd_buf_len ≡ 7
unfolding term_insert_char unicode_to_utf8 unicode_to_utf8_multi term_insert_region
overflow = refl
