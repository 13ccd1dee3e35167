-- ===== src/Readline/Ready.antt =====
-- A state of the line editor between two keys.
use mathlib.Core.Path.{subst}
use mquickjs.Base.{
  ℕ, ◌+◌, ◌-◌, ◌≤◌, ◌<◌, ◌≡◌, ◌⊎◌, All, refl, sym, ap, ◌∙◌, inl, inr, Bool, true, false, Option,
  none, List, [], arith, length, Bool-cases, ltb, if◌then◌else◌,
}
use mquickjs.Base.Slices.{words_of}
use mquickjs.Props.{Words}
use mquickjs.Utf8.{unicode_to_utf8}
use mquickjs.Readline.{Readline, is_norm}
use mquickjs.Readline.Edit.{
  char_at, cut_region, term_kill_region, term_insert_region, term_insert_char, term_delete_char,
  term_backspace, term_backward_char, term_forward_char, term_yank, back_to_lead,
}
use mquickjs.Readline.Display.{GetColor, ended, term_update}
use mquickjs.Readline.Text.{IsCode, bytes}
use mquickjs.Readline.Chars.{
  Line, line, Shows, type_char, insert_killed, term_insert_char-Shows, term_yank-Shows,
}
use mquickjs.Readline.Frame.{term_update-core, ended-IsEdited}
use mquickjs.Readline.Entries.{IsPast}

-- A text that is shorter than a buffer of `n` bytes.
abbrev pub IsShort : ℕ → List ℕ → Type 0
IsShort n e = length (bytes e) < n

-- The command line stands for code points and the history for entries. The line lies in its buffer with room for a
-- byte 0 behind it, and so would each entry; what was killed lies in its buffer, which has the same size; the history
-- has room for each command line.
pub record IsReady (s : Readline) : Type 0 where
  pub view : Line
  pub shows : Shows s view
  pub older : List (List ℕ)
  pub newer : List (List ℕ)
  pub past : IsPast s older newer
  pub sizes : s.term_cmd_buf_size ≤ s.term_history_buf_size
  pub room : s.term_cmd_buf_len < s.term_cmd_buf_size
  pub room_killed : s.term_kill_buf_len ≤ s.term_cmd_buf_size
  pub short_older : All (IsShort s.term_cmd_buf_size) older
  pub short_newer : All (IsShort s.term_cmd_buf_size) newer

-- The texts of `t` lie in the buffers of `s`.
abbrev pub Within : Readline → Readline → Type 0
Within s t =
    (t.term_cmd_buf_len < s.term_cmd_buf_size) × (t.term_kill_buf_len ≤ s.term_cmd_buf_size)

-- The line gets no longer, and what is killed comes from it.
abbrev pub Shrinks : Readline → Readline → Type 0
Shrinks s t =
    (t.term_cmd_buf_len ≤ s.term_cmd_buf_len)
    × ((t.term_kill_buf_len ≤ s.term_cmd_buf_len) ⊎ (t.term_kill_buf_len ≡ s.term_kill_buf_len))

pub within : {s : Readline} (t : Readline) → IsReady s → Shrinks s t → Within s t
within {s} t h (len, kill) =
    let size = h.room in
    let killed = h.room_killed in
    (omega arith, elim kill [ inl le ↦ omega arith | inr e ↦ omega arith ])

-- The buffers alone.
abbrev pub plain : Readline → Readline
plain s = record s {
  utf8_val = 0;
  term_cmd_updated = false;
  utf8_state = 0;
  term_esc_state = is_norm;
  term_esc_param = 0;
  term_esc_param1 = 0;
  term_esc_param2 = 0;
  term_cursor_x = 0;
  term_cursor_pos = 0;
  term_is_password = false;
  term_prompt = [];
  term_width = 0;
  term_output = [];
}

-- The history alone.
abbrev pub past_part : Readline → Readline
past_part s = record (plain s) {
  term_cmd_buf_index = 0;
  term_cmd_buf_len = 0;
  term_kill_buf_len = 0;
  term_cmd_buf = λ i. 0;
  term_kill_buf = λ i. 0;
}

-- The command line and what was killed alone.
abbrev pub line_part : Readline → Readline
line_part s = record (plain s) {
  term_history = λ i. 0;
  term_history_size = 0;
  term_hist_entry = none;
}

past_part-IsPast :
    {s : Readline} {older newer : List (List ℕ)}
    → IsPast s older newer
    → IsPast (past_part s) older newer
past_part-IsPast p = record {
  text = p.text;
  entries_older = p.entries_older;
  entries_newer = p.entries_newer;
  fits = p.fits;
  blank = p.blank;
  place = p.place;
  ends = p.ends;
  begun = p.begun;
}

IsPast-past_part :
    {s : Readline} {older newer : List (List ℕ)}
    → IsPast (past_part s) older newer
    → IsPast s older newer
IsPast-past_part p = record {
  text = p.text;
  entries_older = p.entries_older;
  entries_newer = p.entries_newer;
  fits = p.fits;
  blank = p.blank;
  place = p.place;
  ends = p.ends;
  begun = p.begun;
}

-- Where the history is the same, another line will do.
pub edited-IsReady :
    {s t : Readline} (z : Line)
    → past_part t ≡ past_part s
    → Shows t z
    → Within s t
    → IsReady s
    → IsReady t
edited-IsReady {s} {t} z same v (len, kill) h =
    let size : t.term_cmd_buf_size ≡ s.term_cmd_buf_size = ap (λ x. x.term_cmd_buf_size) same in
    record {
      view = z;
      shows = v;
      older = h.older;
      newer = h.newer;
      past =
          IsPast-past_part
            (subst (λ x. IsPast x h.older h.newer) (sym same) (past_part-IsPast h.past));
      sizes = subst (λ x. x.term_cmd_buf_size ≤ x.term_history_buf_size) (sym same) h.sizes;
      room = omega (arith, size, len);
      room_killed = omega (arith, size, kill);
      short_older = subst (λ n. All (IsShort n) h.older) (sym size) h.short_older;
      short_newer = subst (λ n. All (IsShort n) h.newer) (sym size) h.short_newer;
    }

into_line : (s : Readline) (z : Line) → Shows s z → Shows (line_part s) z
into_line s (line l r k) v = record {
  line = record {
    text = v.line.text;
    here = v.line.here;
    codes_before = v.line.codes_before;
    codes_behind = v.line.codes_behind;
  };
  killed = record { text = v.killed.text; codes = v.killed.codes };
}

out_of_line : (s : Readline) (z : Line) → Shows (line_part s) z → Shows s z
out_of_line s (line l r k) v = record {
  line = record {
    text = v.line.text;
    here = v.line.here;
    codes_before = v.line.codes_before;
    codes_behind = v.line.codes_behind;
  };
  killed = record { text = v.killed.text; codes = v.killed.codes };
}

pub line_part-Shows :
    (s t : Readline) (z : Line) → line_part t ≡ line_part s → Shows s z → Shows t z
line_part-Shows s t z same v = out_of_line t z (subst (λ x. Shows x z) (sym same) (into_line s z v))

-- Where the buffers are the same, nothing is lost.
pub plain-IsReady : {s t : Readline} → plain t ≡ plain s → IsReady s → IsReady t
plain-IsReady {s} {t} same h =
    edited-IsReady h.view (ap (λ x. past_part x) same)
      (line_part-Shows s t h.view (ap (λ x. line_part x) same) h.shows)
      (
        omega (arith, ap (λ x. x.term_cmd_buf_len) same, h.room),
        omega (arith, ap (λ x. x.term_kill_buf_len) same, h.room_killed),
      )
      h

same_if :
    {A : Type 0} (f : Readline → A) (b : Bool) (x y : Readline) (p : A)
    → f x ≡ p
    → f y ≡ p
    → f (if b then x else y) ≡ p
same_if f true x y p e e' = e
same_if f false x y p e e' = e'

cut_region-past_part :
    (s : Readline) (start end : ℕ) (kill : Bool)
    → past_part (cut_region s start end kill) ≡ past_part s
unfolding cut_region
cut_region-past_part s start end true = refl
cut_region-past_part s start end false = refl

cut_region-Shrinks :
    (s : Readline) (start end : ℕ) (kill : Bool)
    → end ≤ s.term_cmd_buf_len
    → Shrinks s (cut_region s start end kill)
unfolding cut_region
cut_region-Shrinks s start end true inside = (omega arith, inl (omega arith))
cut_region-Shrinks s start end false inside = (omega arith, inr refl)

pub term_kill_region-Shrinks :
    (s : Readline) (to : ℕ) (kill : Bool) → Shrinks s (term_kill_region s to kill)
unfolding term_kill_region
term_kill_region-Shrinks s to kill =
    let start = if ltb to s.term_cmd_buf_index then to else s.term_cmd_buf_index in
    let end0 = if ltb to s.term_cmd_buf_index then s.term_cmd_buf_index else to in
    let end = if ltb s.term_cmd_buf_len end0 then s.term_cmd_buf_len else end0 in
    let inside : end ≤ s.term_cmd_buf_len = elim (Bool-cases (ltb s.term_cmd_buf_len end0)) [
      | inl e ↦ rw e (omega arith)
      | inr e ↦ rw e (ground arith)
    ] in
    elim (Bool-cases (ltb start end)) [
      | inl e ↦ rw e (cut_region-Shrinks s start end kill inside)
      | inr e ↦ rw e (omega arith, inr refl)
    ]

pub term_delete_char-Shrinks : (s : Readline) → Shrinks s (term_delete_char s)
unfolding term_delete_char
term_delete_char-Shrinks s = elim (Bool-cases (ltb s.term_cmd_buf_index s.term_cmd_buf_len)) [
  | inl e ↦ rw e (
      term_kill_region-Shrinks s
        (s.term_cmd_buf_index + (char_at s.term_cmd_buf s.term_cmd_buf_index).1) false)
  | inr e ↦ rw e (omega arith, inr refl)
]

pub term_backward_char-Shrinks : (s : Readline) → Shrinks s (term_backward_char s)
unfolding term_backward_char
term_backward_char-Shrinks s = elim (Bool-cases (ltb 0 s.term_cmd_buf_index)) [
  | inl e ↦ rw e (omega arith, inr refl)
  | inr e ↦ rw e (omega arith, inr refl)
]

pub term_forward_char-Shrinks : (s : Readline) → Shrinks s (term_forward_char s)
unfolding term_forward_char
term_forward_char-Shrinks s = elim (Bool-cases (ltb s.term_cmd_buf_index s.term_cmd_buf_len)) [
  | inl e ↦ rw e (omega arith, inr refl)
  | inr e ↦ rw e (omega arith, inr refl)
]

pub term_backspace-Shrinks : (s : Readline) → Shrinks s (term_backspace s)
unfolding term_backspace term_backward_char
term_backspace-Shrinks s = elim (Bool-cases (ltb 0 s.term_cmd_buf_index)) [
  | inl e ↦ rw e (
      term_delete_char-Shrinks
        (record s { term_cmd_buf_index = back_to_lead s.term_cmd_buf (s.term_cmd_buf_index - 1) }))
  | inr e ↦ rw e (omega arith, inr refl)
]

pub term_kill_region-past_part :
    (s : Readline) (to : ℕ) (kill : Bool) → past_part (term_kill_region s to kill) ≡ past_part s
unfolding term_kill_region
term_kill_region-past_part s to kill =
    let start = if ltb to s.term_cmd_buf_index then to else s.term_cmd_buf_index in
    let end0 = if ltb to s.term_cmd_buf_index then s.term_cmd_buf_index else to in
    let end = if ltb s.term_cmd_buf_len end0 then s.term_cmd_buf_len else end0 in
    same_if past_part (ltb start end) (cut_region s start end kill) s (past_part s)
      (cut_region-past_part s start end kill) refl

pub term_delete_char-past_part : (s : Readline) → past_part (term_delete_char s) ≡ past_part s
unfolding term_delete_char
term_delete_char-past_part s = elim (Bool-cases (ltb s.term_cmd_buf_index s.term_cmd_buf_len)) [
  | inl e ↦ rw e (
      term_kill_region-past_part s
        (s.term_cmd_buf_index + (char_at s.term_cmd_buf s.term_cmd_buf_index).1) false)
  | inr e ↦ rw e refl
]

pub term_backward_char-past_part : (s : Readline) → past_part (term_backward_char s) ≡ past_part s
unfolding term_backward_char
term_backward_char-past_part s = elim (Bool-cases (ltb 0 s.term_cmd_buf_index)) [
  | inl e ↦ rw e refl
  | inr e ↦ rw e refl
]

pub term_backspace-past_part : (s : Readline) → past_part (term_backspace s) ≡ past_part s
unfolding term_backspace
term_backspace-past_part s = elim (Bool-cases (ltb 0 s.term_cmd_buf_index)) [
  | inl e ↦
      rw e (term_delete_char-past_part (term_backward_char s) ∙ term_backward_char-past_part s)
  | inr e ↦ rw e refl
]

pub term_forward_char-past_part : (s : Readline) → past_part (term_forward_char s) ≡ past_part s
unfolding term_forward_char
term_forward_char-past_part s = elim (Bool-cases (ltb s.term_cmd_buf_index s.term_cmd_buf_len)) [
  | inl e ↦ rw e refl
  | inr e ↦ rw e refl
]

insert_region_full :
    (s : Readline) (p : Words) (n : ℕ)
    → ltb (s.term_cmd_buf_index + n) s.term_cmd_buf_size ≡ false
    → term_insert_region s p n ≡ s
unfolding term_insert_region
insert_region_full s p n e = rw e refl

term_insert_region-past_part :
    (s : Readline) (p : Words) (n : ℕ) → past_part (term_insert_region s p n) ≡ past_part s
unfolding term_insert_region
term_insert_region-past_part s p n =
    elim (Bool-cases (ltb (s.term_cmd_buf_index + n) s.term_cmd_buf_size)) [
      | inl e ↦ rw e refl
      | inr e ↦ rw e refl
    ]

insert_region-Within :
    (s : Readline) (p : Words) (n : ℕ)
    → IsReady s
    → s.term_cmd_buf_len + n < s.term_cmd_buf_size
    → Within s (term_insert_region s p n)
unfolding term_insert_region
insert_region-Within s p n h fits =
    elim (Bool-cases (ltb (s.term_cmd_buf_index + n) s.term_cmd_buf_size)) [
      | inl e ↦ rw e (fits, h.room_killed)
      | inr e ↦ rw e (h.room, h.room_killed)
    ]

-- A code point is inserted.
pub term_insert_char-IsReady :
    (s : Readline) (c : ℕ)
    → IsReady s
    → IsCode c
    → s.term_cmd_buf_len + length (unicode_to_utf8 c) < s.term_cmd_buf_size
    → IsReady (term_insert_char s c)
unfolding term_insert_char
term_insert_char-IsReady s c h code fits =
    let n = length (unicode_to_utf8 c) in
    let same = term_insert_region-past_part s (words_of (unicode_to_utf8 c)) n in
    let inside = insert_region-Within s (words_of (unicode_to_utf8 c)) n h fits in
    elim (Bool-cases (ltb (s.term_cmd_buf_index + n) s.term_cmd_buf_size)) [
      | inl e ↦
          edited-IsReady (type_char c h.view) same
            (term_insert_char-Shows s h.view c h.shows code (ground arith)) inside h
      | inr e ↦
          edited-IsReady h.view same
            (subst (λ t. Shows t h.view)
              (sym (insert_region_full s (words_of (unicode_to_utf8 c)) n e)) h.shows)
            inside h
    ]

pub term_yank-IsReady :
    (s : Readline)
    → IsReady s
    → s.term_cmd_buf_len + s.term_kill_buf_len < s.term_cmd_buf_size
    → IsReady (term_yank s)
term_yank-IsReady s h fits =
    let n = s.term_kill_buf_len in
    let same = term_insert_region-past_part s s.term_kill_buf n in
    let inside = insert_region-Within s s.term_kill_buf n h fits in
    elim (Bool-cases (ltb (s.term_cmd_buf_index + n) s.term_cmd_buf_size)) [
      | inl e ↦
          edited-IsReady (insert_killed h.view) same
            (term_yank-Shows s h.view h.shows (ground arith)) inside h
      | inr e ↦
          edited-IsReady h.view same
            (subst (λ t. Shows t h.view) (sym (insert_region_full s s.term_kill_buf n e)) h.shows)
            inside h
    ]

pub ended-Shows : (s : Readline) (z : Line) → Shows s z → Shows (ended s) z
ended-Shows s (line l r k) v = ended-IsEdited v

-- The display leaves the buffers but for a byte 0 behind the line.
pub term_update-IsReady :
    (get : Option GetColor) (s : Readline) → IsReady s → IsReady (term_update get s)
term_update-IsReady get s h = elim (term_update-core get s) [
  | inl e ↦ plain-IsReady (ap (λ x. plain x) e) h
  | inr e ↦ plain-IsReady (ap (λ x. plain x) e) (
      edited-IsReady {s = s} {t = ended s} h.view refl (ended-Shows s h.view h.shows)
        (h.room, h.room_killed) h)
]
