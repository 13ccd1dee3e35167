-- ===== src/Readline/Ends.antt =====
-- The key down where the history ends.
use mquickjs.Base.{
  ℕ, ◌+◌, ◌≡◌, refl, sym, ap, ◌∙◌, ◌⊎◌, inl, inr, false, none, some, List, [], ◌∷◌, arith, length,
  length-append, Option-cases, ltb,
}
use mquickjs.Readline.{Readline}
use mquickjs.Readline.History.{entry_length, term_down_char}
use mquickjs.Readline.Text.{bytes, shift}
use mquickjs.Readline.Moves.{IsEdited}
use mquickjs.Readline.Chars.{line}
use mquickjs.Readline.Spans.{term_eol-Shows, go_end}
use mquickjs.Readline.Entries.{flat, flat_back, IsPast, flat_back_step, length-flat_back}
use mquickjs.Readline.Recall.{current_some, next_entry, history_length}

at_end-IsEdited :
    {s : Readline} {l r k : List ℕ}
    → IsEdited s l r k
    → IsEdited
        (record s { term_hist_entry = none; term_cmd_buf_index = s.term_cmd_buf_len })
        (shift r l)
        []
        k
unfolding go_end
at_end-IsEdited {s} {l} {r} {k} v =
    let w : IsEdited (record s { term_cmd_buf_index = s.term_cmd_buf_len }) (shift r l) [] k =
      term_eol-Shows s (line l r k) v in
    record {
      line = record {
        text = w.line.text;
        here = w.line.here;
        codes_before = w.line.codes_before;
        codes_behind = w.line.codes_behind;
      };
      killed = record { text = w.killed.text; codes = w.killed.codes };
    }

-- Down at the newest entry: the line stays, with the cursor at its end, and no entry is the current one.
pub term_down_char-last :
    (s : Readline) (l r k e : List ℕ) (older : List (List ℕ))
    → IsEdited s l r k
    → IsPast s older (e ∷ [])
    → IsEdited (term_down_char s) (shift r l) [] k × IsPast (term_down_char s) (e ∷ older) []
unfolding term_down_char flat
term_down_char-last s l r k e older v p =
    let next = length (flat_back (e ∷ older)) in
    let size : s.term_history_size ≡ next =
      omega (arith, history_length p, length-flat_back e older, length-append (bytes e) (0 ∷ [])) in
    let stops : ltb next s.term_history_size ≡ false = ground arith in
    rw (current_some p, next_entry p, stops)
      (
        at_end-IsEdited v,
        record {
          text = p.text ∙ sym (flat_back_step e older []);
          entries_older = (p.entries_newer.0, p.entries_older);
          entries_newer = tt;
          fits = p.fits;
          blank = λ a. absurd (cc a);
          place = size;
          ends = λ x. refl;
          begun = λ x. inl refl;
        },
      )

down_at_none : (s : Readline) → s.term_hist_entry ≡ none → term_down_char s ≡ s
unfolding term_down_char
down_at_none s e = rw e refl

down_at_last :
    (s : Readline) (i : ℕ)
    → s.term_hist_entry ≡ some i
    → ltb (i + (entry_length s i + 1)) s.term_history_size ≡ false
    → term_down_char s
      ≡ record s { term_hist_entry = none; term_cmd_buf_index = s.term_cmd_buf_len }
unfolding term_down_char
down_at_last s i e stops = rw (e, stops) refl

-- With no entry behind it the line stays, where the history is empty with the cursor at its end.
pub term_down_char-none :
    (s : Readline) (l r k : List ℕ) (older : List (List ℕ))
    → IsEdited s l r k
    → IsPast s older []
    → (IsEdited (term_down_char s) l r k ⊎ IsEdited (term_down_char s) (shift r l) [] k)
      × IsPast (term_down_char s) older []
unfolding flat
term_down_char-none s l r k older v p = elim (Option-cases s.term_hist_entry) [
  | inl e ↦ rw (down_at_none s e) (inl v, p)
  | inr (i, e) ↦
      let empty : older ≡ [] = elim (p.begun refl) [ inl x ↦ cc (e, x) | inr x ↦ x ] in
      let size : s.term_history_size ≡ 0 =
        unfold flat_back in ground (arith, history_length p, ap flat_back empty) in
      let stops : ltb (i + (entry_length s i + 1)) s.term_history_size ≡ false = ground arith in
      rw (down_at_last s i e stops) (
        inr (at_end-IsEdited v),
        record {
          text = p.text;
          entries_older = p.entries_older;
          entries_newer = tt;
          fits = p.fits;
          blank = p.blank;
          place = unfold flat_back in ground (arith, size, ap flat_back empty);
          ends = λ x. refl;
          begun = λ x. inl refl;
        },
      )
]
