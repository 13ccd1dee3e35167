-- ===== src/Readline/Accept.antt =====
-- The keys that go to the history, between two states of the line editor.
use mathlib.Core.Path.{subst}
use mquickjs.Base.{
  All, ℕ, zero, suc, ◌+◌, ◌<◌, ◌≡◌, refl, sym, ap, ◌∙◌, ◌≢◌, ◌⊎◌, inl, inr, Bool, true, false, none,
  List, [], ◌∷◌, ◌++◌, arith, length, length-append, Bool-cases, Option-cases, ltb, leb, ◌==◌,
  if◌then◌else◌,
}
use mquickjs.Readline.{Readline}
use mquickjs.Readline.Display.{ended}
use mquickjs.Readline.History.{
  strlen, entry_length, current_entry, remove_entry, make_room, repeated_entry, without_repeated,
  append_entry, term_hist_add, term_return, term_up_char, term_down_char,
  update_cmdline_from_history,
}
use mquickjs.Readline.Text.{back, bytes, shift, bytes-shift, back-shift}
use mquickjs.Readline.Moves.{IsEdited, length-IsLine}
use mquickjs.Readline.Chars.{Line, line, Shows}
use mquickjs.Readline.Spans.{term_eol-Shows, go_end}
use mquickjs.Readline.Frame.{ended-IsEdited}
use mquickjs.Readline.Entries.{IsPast}
use mquickjs.Readline.Recall.{term_up_char-IsPast, term_up_char-first, term_down_char-IsPast}
use mquickjs.Readline.Ends.{term_down_char-last, term_down_char-none}
use mquickjs.Readline.Repeated.{none_removed, some_removed}
use mquickjs.Readline.Return.{term_return-IsPast}
use mquickjs.Readline.Ready.{
  IsShort, IsReady, line_part, line_part-Shows, ended-Shows, edited-IsReady,
}

-- A line and a history, where the buffers keep their sizes.
recalled-IsReady :
    {s t : Readline} (l r k : List ℕ) (older newer : List (List ℕ))
    → (t.term_cmd_buf_size ≡ s.term_cmd_buf_size)
      × (t.term_history_buf_size ≡ s.term_history_buf_size)
      × (t.term_kill_buf_len ≡ s.term_kill_buf_len)
    → t.term_cmd_buf_len < s.term_cmd_buf_size
    → All (IsShort s.term_cmd_buf_size) older
    → All (IsShort s.term_cmd_buf_size) newer
    → IsEdited t l r k × IsPast t older newer
    → IsReady s
    → IsReady t
recalled-IsReady {s} {t} l r k older newer (a, b, c) len olds news (v, p) h = record {
  view = line l r k;
  shows = v;
  older = older;
  newer = newer;
  past = p;
  sizes = omega (arith, a, b, h.sizes);
  room = omega (arith, a, len);
  room_killed = omega (arith, a, c, h.room_killed);
  short_older = subst (λ n. All (IsShort n) older) (sym a) olds;
  short_newer = subst (λ n. All (IsShort n) newer) (sym a) news;
}

same_length :
    {s t : Readline} {l r k : List ℕ}
    → IsEdited s l r k
    → IsEdited t l r k
    → t.term_cmd_buf_len ≡ s.term_cmd_buf_len
same_length v w = length-IsLine w.line ∙ sym (length-IsLine v.line)

-- With the cursor at its end.
end_length :
    {t : Readline} (l r k : List ℕ)
    → IsEdited t (shift r l) [] k
    → t.term_cmd_buf_len ≡ length (back l) + length (bytes r)
unfolding bytes
end_length l r k w =
    omega
      (arith, length-IsLine w.line, ap length (back-shift r l), length-append (back l) (bytes r))

up_sizes :
    (s : Readline)
    → ((term_up_char s).term_cmd_buf_size ≡ s.term_cmd_buf_size)
      × ((term_up_char s).term_history_buf_size ≡ s.term_history_buf_size)
      × ((term_up_char s).term_kill_buf_len ≡ s.term_kill_buf_len)
unfolding term_up_char update_cmdline_from_history
up_sizes s = elim (Bool-cases (current_entry s == 0)) [
  | inl e ↦ rw e (refl, refl, refl)
  | inr e ↦ rw e (refl, refl, refl)
]

down_sizes :
    (s : Readline)
    → ((term_down_char s).term_cmd_buf_size ≡ s.term_cmd_buf_size)
      × ((term_down_char s).term_history_buf_size ≡ s.term_history_buf_size)
      × ((term_down_char s).term_kill_buf_len ≡ s.term_kill_buf_len)
unfolding term_down_char update_cmdline_from_history
down_sizes s = elim (Option-cases s.term_hist_entry) [
  | inl e ↦ rw e (refl, refl, refl)
  | inr (i, e) ↦ elim (Bool-cases (ltb (i + (entry_length s i + 1)) s.term_history_size)) [
    | inl more ↦ rw (e, more) (refl, refl, refl)
    | inr stops ↦ rw (e, stops) (refl, refl, refl)
  ]
]

no_back : length (back []) ≡ 0
unfolding back
no_back = refl

up_view :
    (s : Readline) (z : Line) (older newer : List (List ℕ))
    → Shows s z
    → IsPast s older newer
    → All (IsShort s.term_cmd_buf_size) older
    → All (IsShort s.term_cmd_buf_size) newer
    → IsReady s
    → IsReady (term_up_char s)
up_view s (line l r k) [] newer v p olds news h =
    let (w, q) = term_up_char-first s l r k newer v p in
    recalled-IsReady l r k [] newer (up_sizes s) (omega (arith, same_length v w, h.room)) tt news
      (w, q) h
up_view s (line l r k) (e ∷ older) newer v p (short, olds) news h =
    let (w, q) = term_up_char-IsPast s l r k e older newer v p in
    recalled-IsReady (shift e []) [] k older (e ∷ newer) (up_sizes s)
      (omega (arith, end_length [] e k w, no_back, short)) olds (short, news) (w, q) h

pub term_up_char-IsReady : (s : Readline) → IsReady s → IsReady (term_up_char s)
term_up_char-IsReady s h =
    up_view s h.view h.older h.newer h.shows h.past h.short_older h.short_newer h

down_view :
    (s : Readline) (z : Line) (older newer : List (List ℕ))
    → Shows s z
    → IsPast s older newer
    → All (IsShort s.term_cmd_buf_size) older
    → All (IsShort s.term_cmd_buf_size) newer
    → IsReady s
    → IsReady (term_down_char s)
down_view s (line l r k) older [] v p olds news h =
    let (one, q) = term_down_char-none s l r k older v p in
    elim one [
      | inl w ↦
          recalled-IsReady l r k older [] (down_sizes s) (omega (arith, same_length v w, h.room))
            olds tt (w, q) h
      | inr w ↦
          recalled-IsReady (shift r l) [] k older [] (down_sizes s)
            (omega (arith, end_length l r k w, length-IsLine v.line, h.room)) olds tt (w, q) h
    ]
down_view s (line l r k) older (e ∷ []) v p olds (short, news) h =
    let (w, q) = term_down_char-last s l r k e older v p in
    recalled-IsReady (shift r l) [] k (e ∷ older) [] (down_sizes s)
      (omega (arith, end_length l r k w, length-IsLine v.line, h.room)) (short, olds) tt (w, q) h
down_view s (line l r k) older (e ∷ e' ∷ newer) v p olds (short, (short', news)) h =
    let (w, q) = term_down_char-IsPast s l r k e e' older newer v p in
    recalled-IsReady (shift e' []) [] k (e ∷ older) (e' ∷ newer) (down_sizes s)
      (omega (arith, end_length [] e' k w, no_back, short')) (short, olds) (short', news) (w, q) h

pub term_down_char-IsReady : (s : Readline) → IsReady s → IsReady (term_down_char s)
term_down_char-IsReady s h =
    down_view s h.view h.older h.newer h.shows h.past h.short_older h.short_newer h

remove_entry-line_part : (s : Readline) (i n : ℕ) → line_part (remove_entry s i n) ≡ line_part s
unfolding remove_entry
remove_entry-line_part s i n = refl

make_room-line_part :
    (fuel size : ℕ) (s : Readline) → line_part (make_room fuel size s) ≡ line_part s
unfolding make_room
make_room-line_part zero size s = refl
make_room-line_part (suc fuel) size s =
    let t = remove_entry s 0 (entry_length s 0 + 1) in
    elim (Bool-cases (ltb s.term_history_buf_size (s.term_history_size + size))) [
      | inr room ↦ rw room refl
      | inl full ↦
          rw full
            (make_room-line_part fuel size t ∙ remove_entry-line_part s 0 (entry_length s 0 + 1))
    ]

without_repeated-line_part :
    (s : Readline) (size : ℕ) → line_part (without_repeated s size) ≡ line_part s
without_repeated-line_part s size = elim (Option-cases (repeated_entry s size)) [
  | inl e ↦ ap (λ x. line_part x) (none_removed s size e)
  | inr (i, e) ↦
      ap (λ x. line_part x) (some_removed s size i e)
      ∙ remove_entry-line_part s i (entry_length s i + 1)
]

added-line_part :
    (b : Bool) (size : ℕ) (s : Readline)
    → line_part (if b then append_entry size (make_room s.term_history_size size s) else s)
      ≡ line_part s
added-line_part true size s = make_room-line_part s.term_history_size size s
added-line_part false size s = refl

unless :
    (b : Bool) (x y : Readline)
    → line_part y ≡ line_part x
    → line_part (if b then x else y) ≡ line_part x
unless true x y e = refl
unless false x y e = e

-- The history alone changes.
term_hist_add-line_part : (s : Readline) → line_part (term_hist_add s) ≡ line_part s
unfolding term_hist_add
term_hist_add-line_part s =
    let size = strlen s.term_cmd_buf_size s.term_cmd_buf 0 + 1 in
    let kept = without_repeated s size in
    let fits = leb size kept.term_history_buf_size in
    let added =
      if fits then append_entry size (make_room kept.term_history_size size kept) else kept in
    unless (s.term_cmd_buf 0 == 0) s (record added { term_hist_entry = none })
      (added-line_part fits size kept ∙ without_repeated-line_part s size)

return_password :
    (s : Readline)
    → s.term_is_password ≡ true
    → term_return s ≡ record (ended s) { term_cmd_buf_index = s.term_cmd_buf_len }
unfolding term_return
return_password s e = rw e refl

return_added :
    (s : Readline)
    → s.term_is_password ≡ false
    → term_return s ≡ record (term_hist_add (ended s)) {
      term_cmd_buf_index = (term_hist_add (ended s)).term_cmd_buf_len;
    }
unfolding term_return
return_added s e = rw e refl

-- An empty line is not added.
not_added : (s : Readline) → s.term_cmd_buf_len ≡ 0 → term_hist_add (ended s) ≡ ended s
unfolding term_hist_add
not_added s e = let stop : ((ended s).term_cmd_buf 0 == 0) ≡ true = ground arith in rw stop refl

line_cases : (t : List ℕ) → (t ≡ []) ⊎ (t ≢ [])
line_cases [] = inl refl
line_cases (c ∷ t) = inr (λ e. cc e)

no_line :
    {s : Readline} {l r k : List ℕ} → IsEdited s l r k → shift l r ≡ [] → s.term_cmd_buf_len ≡ 0
unfolding bytes
no_line {s} {l} {r} v e =
    let text : length (back l ++ bytes r) ≡ 0 =
      ap length (sym (bytes-shift l r)) ∙ ap (λ t. length (bytes t)) e in
    omega (arith, length-IsLine v.line, length-append (back l) (bytes r), text)

eol-IsReady :
    (s : Readline) → IsReady s → IsReady (record s { term_cmd_buf_index = s.term_cmd_buf_len })
eol-IsReady s h =
    edited-IsReady (go_end h.view) refl (term_eol-Shows s h.view h.shows) (h.room, h.room_killed) h

ended-IsReady : (s : Readline) → IsReady s → IsReady (ended s)
ended-IsReady s h =
    edited-IsReady h.view refl (ended-Shows s h.view h.shows) (h.room, h.room_killed) h

return_sizes :
    (s : Readline)
    → ((term_return s).term_cmd_buf_size ≡ s.term_cmd_buf_size)
      × ((term_return s).term_history_buf_size ≡ s.term_history_buf_size)
      × ((term_return s).term_kill_buf_len ≡ s.term_kill_buf_len)
return_sizes s = elim (Bool-cases s.term_is_password) [
  | inl e ↦ rw (return_password s e) (refl, refl, refl)
  | inr e ↦
      let same = term_hist_add-line_part (ended s) in
      rw (return_added s e) (
        ap (λ t. t.term_cmd_buf_size) same,
        ap (λ t. t.term_history_buf_size) same,
        ap (λ t. t.term_kill_buf_len) same,
      )
]

return_view :
    (s : Readline) (l r k : List ℕ) → IsEdited s l r k → IsReady s → IsReady (term_return s)
return_view s l r k v h = elim (Bool-cases s.term_is_password) [
  | inl e ↦
      subst (λ t. IsReady t) (sym (return_password s e)) (eol-IsReady (ended s) (ended-IsReady s h))
  | inr e ↦ elim (line_cases (shift l r)) [
    | inl none_e ↦
        let left = sym (not_added s (no_line v none_e)) in
        subst (λ t. IsReady t) (sym (return_added s e))
          (eol-IsReady (term_hist_add (ended s)) (subst (λ t. IsReady t) left (ended-IsReady s h)))
    | inr some_e ↦
        let (older, p, rs) =
          term_return-IsPast (IsShort s.term_cmd_buf_size) s l r k h.older h.newer v h.past
            h.short_older h.short_newer some_e e h.room (omega (arith, h.room, h.sizes)) in
        let added = term_hist_add (ended s) in
        let w : Shows added (line l r k) =
          line_part-Shows (ended s) added (line l r k) (term_hist_add-line_part (ended s))
            (ended-IsEdited v) in
        let at_end : Shows (term_return s) (go_end (line l r k)) =
          subst (λ t. Shows t (go_end (line l r k))) (sym (return_added s e))
            (term_eol-Shows added (line l r k) w) in
        let w' : IsEdited (term_return s) (shift r l) [] k = unfold go_end in at_end in
        let entry : length (bytes (shift l r)) ≡ length (back l) + length (bytes r) =
          ap length (bytes-shift l r) ∙ length-append (back l) (bytes r) in
        recalled-IsReady (shift r l) [] k (shift l r ∷ older) [] (return_sizes s)
          (omega (arith, end_length l r k w', length-IsLine v.line, h.room))
          (omega (arith, entry, length-IsLine v.line, h.room), rs) tt (w', p) h
  ]
]

return_shown : (s : Readline) (z : Line) → Shows s z → IsReady s → IsReady (term_return s)
return_shown s (line l r k) v h = return_view s l r k v h

-- The line is added to the history, or left out of it.
pub term_return-IsReady : (s : Readline) → IsReady s → IsReady (term_return s)
term_return-IsReady s h = return_shown s h.view h.shows h
