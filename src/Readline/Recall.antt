-- ===== src/Readline/Recall.antt =====
-- Going through the history.
use mathlib.Core.List.{append-nil}
use mquickjs.Base.{
  ℕ, ◌+◌, ◌-◌, ◌≤◌, ◌≡◌, refl, sym, ap, ◌∙◌, ◌≢◌, inl, inr, true, false, some, List, [], ◌∷◌, ◌++◌,
  arith, length, length-append, All, Option-cases, ltb, ◌==◌,
}
use mquickjs.Base.Slices.{words_at, words_at-blit, length-words_at}
use mquickjs.Readline.{Readline}
use mquickjs.Readline.History.{
  entry_start, current_entry, entry_length, update_cmdline_from_history, term_up_char,
  term_down_char,
}
use mquickjs.Readline.Text.{IsCode, bytes, back, IsKilled, shift, back-shift, All-shift}
use mquickjs.Readline.Moves.{IsEdited}
use mquickjs.Readline.Entries.{
  IsEntry, flat, flat_back, IsPast, flat_back_step, length-flat_back, entry_parts, entry_length_lem,
  entry_start_lem,
}

-- An entry of the history becomes the command line, with the cursor at its end.
load-IsEdited :
    {s : Readline} {k : List ℕ} (i : ℕ) (a e rest : List ℕ)
    → IsKilled s k
    → i ≡ length a
    → words_at s.term_history 0 s.term_history_size ≡ a ++ (bytes e ++ (0 ∷ rest))
    → All IsCode e
    → s.term_history_size ≤ s.term_history_buf_size
    → IsEdited (update_cmdline_from_history s i) (shift e []) [] k
unfolding update_cmdline_from_history back bytes
load-IsEdited {s} i a e rest v at text codes fits =
    let n : entry_length s i ≡ length (bytes e) =
      ap (entry_length s) at ∙ entry_length_lem s a e rest text codes fits in
    let (at_e, zero_at, size) = entry_parts s.term_history s.term_history_size a e rest text in
    let whole : back (shift e []) ++ [] ≡ bytes e =
      append-nil (back (shift e [])) ∙ back-shift e [] in
    record {
      line = record {
        text =
            words_at-blit s.term_cmd_buf 0 s.term_history i (entry_length s i)
            ∙ rw (n, at) at_e
            ∙ sym whole;
        here = n ∙ sym (ap length (back-shift e []));
        codes_before = All-shift e [] codes tt;
        codes_behind = tt;
      };
      killed = record { text = v.text; codes = v.codes };
    }

-- The history does not change.
recalled-IsPast :
    (s : Readline) (older' newer' : List (List ℕ)) (i : ℕ)
    → words_at s.term_history 0 s.term_history_size ≡ flat_back older' ++ flat newer'
    → s.term_history_size ≤ s.term_history_buf_size
    → All IsEntry older'
    → All IsEntry newer'
    → newer' ≢ []
    → i ≡ length (flat_back older')
    → IsPast (update_cmdline_from_history (record s { term_hist_entry = some i }) i) older' newer'
unfolding update_cmdline_from_history
recalled-IsPast s older' newer' i text fits olds news some_new at = record {
  text = text;
  entries_older = olds;
  entries_newer = news;
  fits = fits;
  blank = λ a b. absurd (some_new b);
  place = at;
  ends = λ e. absurd (some_new (cc e));
  begun = λ e. absurd (some_new e);
}

-- Up: the entry before the current one becomes the line, with the cursor at its end, and the current entry; the
-- history stays.
pub term_up_char-IsPast :
    (s : Readline) (l r k e : List ℕ) (older newer : List (List ℕ))
    → IsEdited s l r k
    → IsPast s (e ∷ older) newer
    → IsEdited (term_up_char s) (shift e []) [] k × IsPast (term_up_char s) older (e ∷ newer)
unfolding term_up_char flat
term_up_char-IsPast s l r k e older newer v p =
    let codes = p.entries_older.0.0 in
    let more : (current_entry s == 0) ≡ false = ground (arith, p.place, length-flat_back e older) in
    let idx : entry_start s.term_history (current_entry s - 1) ≡ length (flat_back older) =
      ap (λ x. entry_start s.term_history (x - 1)) p.place
      ∙ entry_start_lem s.term_history e older s.term_history_size (flat newer) p.text codes in
    let text = p.text ∙ flat_back_step e older (flat newer) in
    let at = length (flat_back older) in
    rw (more, idx)
      (
        load-IsEdited {s = record s { term_hist_entry = some at }} at (flat_back older) e
            (flat newer) (record { text = v.killed.text; codes = v.killed.codes }) refl text codes
            p.fits,
        recalled-IsPast s older (e ∷ newer) at text p.fits p.entries_older.1
            (p.entries_older.0, p.entries_newer) (λ x. cc x) refl,
      )

-- At the oldest entry nothing changes.
pub term_up_char-first :
    (s : Readline) (l r k : List ℕ) (newer : List (List ℕ))
    → IsEdited s l r k
    → IsPast s [] newer
    → IsEdited (term_up_char s) l r k × IsPast (term_up_char s) [] newer
unfolding term_up_char flat_back
term_up_char-first s l r k newer v p =
    let stop : (current_entry s == 0) ≡ true = ground (arith, p.place) in
    rw stop (
      record {
        line = record {
          text = v.line.text;
          here = v.line.here;
          codes_before = v.line.codes_before;
          codes_behind = v.line.codes_behind;
        };
        killed = record { text = v.killed.text; codes = v.killed.codes };
      },
      record {
        text = p.text;
        entries_older = tt;
        entries_newer = p.entries_newer;
        fits = p.fits;
        blank = p.blank;
        place = p.place;
        ends = λ e. cc e;
        begun = λ e. inr refl;
      },
    )

-- Where the current entry is one of the history.
pub current_some :
    {s : Readline} {older newer : List (List ℕ)} {e : List ℕ}
    → IsPast s older (e ∷ newer)
    → s.term_hist_entry ≡ some (length (flat_back older))
current_some {s} p = elim (Option-cases s.term_hist_entry) [
  | inl e ↦ absurd (cc (p.ends e))
  | inr (i, e) ↦ e ∙ ap some (ground (arith, p.place, e))
]

pub next_entry :
    {s : Readline} {older newer : List (List ℕ)} {e : List ℕ}
    → IsPast s older (e ∷ newer)
    → length (flat_back older) + (entry_length s (length (flat_back older)) + 1)
      ≡ length (flat_back (e ∷ older))
unfolding flat
next_entry {s} {older} {newer} {e} p = omega (
  arith,
  length-flat_back e older,
  entry_length_lem s (flat_back older) e (flat newer) p.text p.entries_newer.0.0 p.fits,
)

pub history_length :
    {s : Readline} {older newer : List (List ℕ)}
    → IsPast s older newer
    → s.term_history_size ≡ length (flat_back older) + length (flat newer)
history_length {s} {older} {newer} p =
    sym (length-words_at s.term_history 0 s.term_history_size)
    ∙ ap length p.text
    ∙ length-append (flat_back older) (flat newer)

-- Down: the entry behind the current one becomes the line, with the cursor at its end, and the current entry; the
-- history stays.
pub term_down_char-IsPast :
    (s : Readline) (l r k e e' : List ℕ) (older newer : List (List ℕ))
    → IsEdited s l r k
    → IsPast s older (e ∷ e' ∷ newer)
    → IsEdited (term_down_char s) (shift e' []) [] k
      × IsPast (term_down_char s) (e ∷ older) (e' ∷ newer)
unfolding term_down_char flat
term_down_char-IsPast s l r k e e' older newer v p =
    let next = length (flat_back (e ∷ older)) in
    let text = p.text ∙ sym (flat_back_step e older (flat (e' ∷ newer))) in
    let goes : ltb next s.term_history_size ≡ true = ground (
      arith,
      history_length p,
      length-flat_back e older,
      length-append (bytes e) (0 ∷ (bytes e' ++ (0 ∷ flat newer))),
      length-append (bytes e') (0 ∷ flat newer),
    ) in
    rw (current_some p, next_entry p, goes)
      (
        load-IsEdited {s = record s { term_hist_entry = some next }} next (flat_back (e ∷ older)) e'
            (flat newer) (record { text = v.killed.text; codes = v.killed.codes }) refl text
            p.entries_newer.1.0.0 p.fits,
        recalled-IsPast s (e ∷ older) (e' ∷ newer) next text p.fits
            (p.entries_newer.0, p.entries_older) p.entries_newer.1 (λ x. cc x) refl,
      )
