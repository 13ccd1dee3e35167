-- ===== src/Readline/Return.antt =====
-- Entering a line: it becomes the newest entry of the history.
use mquickjs.Base.{
  ℕ, ◌+◌, ◌≤◌, ◌<◌, ◌≡◌, refl, sym, ap, ◌∙◌, ◌≢◌, true, false, none, List, [], ◌∷◌, ◌++◌, arith,
  length, length-append, All, leb, ◌==◌,
}
use mquickjs.Base.Slices.{words_at}
use mquickjs.Props.{Words}
use mquickjs.Readline.{Readline}
use mquickjs.Readline.Display.{ended}
use mquickjs.Readline.History.{
  strlen, make_room, without_repeated, append_entry, term_hist_add, term_return,
}
use mquickjs.Utf8.{unicode_to_utf8}
use mquickjs.Readline.Text.{length-unicode_to_utf8, bytes, back, shift, bytes-shift, All-shift}
use mquickjs.Readline.Moves.{IsEdited, length-IsLine}
use mquickjs.Readline.Frame.{ended-IsEdited}
use mquickjs.Readline.Entries.{IsEntry, IsPast, strlen_lem, bytes-IsSome}
use mquickjs.Readline.Repeated.{without_repeated-Holds}
use mquickjs.Readline.Added.{IsCommand, added-IsPast}

first_byte :
    (m : Words) (bs : List ℕ)
    → All (λ b. 0 < b) bs
    → words_at m 0 (length bs) ≡ bs
    → 1 ≤ length bs
    → (m 0 == 0) ≡ false
unfolding words_at
first_byte m [] h e l = absurd (omega (arith, l))
first_byte m (b ∷ bs) (h, hs) e l = ground arith

some_bytes : (t : List ℕ) → IsEntry t → 1 ≤ length (bytes t)
unfolding bytes
some_bytes [] (h, n) = absurd (n refl)
some_bytes (c ∷ t) ((h, hs), n) =
    omega (arith, length-append (unicode_to_utf8 c) (bytes t), length-unicode_to_utf8 c h)

-- Adding the line, where the history has room for it.
hist_add_steps :
    (s : Readline) (size : ℕ)
    → (s.term_cmd_buf 0 == 0) ≡ false
    → strlen s.term_cmd_buf_size s.term_cmd_buf 0 + 1 ≡ size
    → leb size (without_repeated s size).term_history_buf_size ≡ true
    → term_hist_add s
      ≡ record (append_entry size
          (make_room (without_repeated s size).term_history_size size (without_repeated s size))) {
            term_hist_entry = none;
          }
unfolding term_hist_add
hist_add_steps s size go e fits = rw (go, e, fits) refl

-- The line becomes the newest entry where the history can hold it; the others are some of those before.
pub term_hist_add-IsPast :
    (P : List ℕ → Type 0) (s : Readline) (t : List ℕ) (older newer : List (List ℕ))
    → IsPast s older newer
    → All P older
    → All P newer
    → IsCommand s t
    → length (bytes t) + 1 ≤ s.term_history_buf_size
    → (older' : List (List ℕ)) × IsPast (term_hist_add s) (t ∷ older') [] × All P older'
term_hist_add-IsPast P s t older newer p ps qs c fits =
    let size = length (bytes t) + 1 in
    let some_byte = some_bytes t c.entry in
    let go = first_byte s.term_cmd_buf (bytes t) (bytes-IsSome t c.entry.0) c.text some_byte in
    let (es, h, buf, cap, rs) = without_repeated-Holds P s older newer size p ps qs (omega arith) in
    let n : strlen s.term_cmd_buf_size s.term_cmd_buf 0 + 1 ≡ size =
      ap (λ x. x + 1)
        (strlen_lem s.term_cmd_buf_size s.term_cmd_buf 0 (bytes t) (bytes-IsSome t c.entry.0) c.text
          (ap s.term_cmd_buf (omega arith) ∙ c.stop) c.room) in
    rw (hist_add_steps s size go n (ground (arith, cap))) (
      added-IsPast P (without_repeated s size) es t size h rs
        (ap (λ m. words_at m 0 (length (bytes t))) buf ∙ c.text)
        (ap (λ m. m (length (bytes t))) buf ∙ c.stop) c.entry refl (ground (arith, cap)))

-- The command line with the byte 0 behind it.
ended-IsCommand :
    (s : Readline) (l r k : List ℕ)
    → IsEdited s l r k
    → shift l r ≢ []
    → s.term_cmd_buf_len < s.term_cmd_buf_size
    → IsCommand (ended s) (shift l r)
ended-IsCommand s l r k v some_line room =
    let w = ended-IsEdited v in
    let text : back l ++ bytes r ≡ bytes (shift l r) = sym (bytes-shift l r) in
    let n : s.term_cmd_buf_len ≡ length (bytes (shift l r)) =
      length-IsLine v.line ∙ sym (length-append (back l) (bytes r)) ∙ ap length text in
    record {
      text = ap (words_at (ended s).term_cmd_buf 0) (sym n) ∙ w.line.text ∙ text;
      stop = ground (arith, n);
      entry = (All-shift l r v.line.codes_before v.line.codes_behind, some_line);
      room = omega (arith, n);
    }

return_adds :
    (s : Readline)
    → s.term_is_password ≡ false
    → term_return s ≡ record (term_hist_add (ended s)) {
      term_cmd_buf_index = (term_hist_add (ended s)).term_cmd_buf_len;
    }
unfolding term_return
return_adds s shown = rw shown refl

-- Return on a line that is not empty and no password, where the line and its byte 0 fit in the buffers: the line
-- is the newest entry of the history, whose text is well formed, the others are some of those before, so that
-- what holds of all of those holds of them, and no entry is the current one.
pub term_return-IsPast :
    (P : List ℕ → Type 0) (s : Readline) (l r k : List ℕ) (older newer : List (List ℕ))
    → IsEdited s l r k
    → IsPast s older newer
    → All P older
    → All P newer
    → shift l r ≢ []
    → s.term_is_password ≡ false
    → s.term_cmd_buf_len < s.term_cmd_buf_size
    → s.term_cmd_buf_len + 1 ≤ s.term_history_buf_size
    → (older' : List (List ℕ)) × IsPast (term_return s) (shift l r ∷ older') [] × All P older'
term_return-IsPast P s l r k older newer v p ps qs some_line shown room fits =
    let ended_past : IsPast (ended s) older newer = record {
      text = p.text;
      entries_older = p.entries_older;
      entries_newer = p.entries_newer;
      fits = p.fits;
      blank = p.blank;
      place = p.place;
      ends = p.ends;
      begun = p.begun;
    } in
    let n : length (bytes (shift l r)) ≡ s.term_cmd_buf_len =
      ap length (bytes-shift l r) ∙ length-append (back l) (bytes r) ∙ sym (length-IsLine v.line) in
    let (older', q, rs) =
      term_hist_add-IsPast P (ended s) (shift l r) older newer ended_past ps qs
        (ended-IsCommand s l r k v some_line room) (ground (arith, n)) in
    rw (return_adds s shown) (
      older',
      record {
        text = q.text;
        entries_older = q.entries_older;
        entries_newer = q.entries_newer;
        fits = q.fits;
        blank = q.blank;
        place = q.place;
        ends = q.ends;
        begun = q.begun;
      },
      rs,
    )
