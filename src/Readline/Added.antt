-- ===== src/Readline/Added.antt =====
-- The command line goes behind the entries of the history.
use mathlib.Core.List.{append_assoc, append-nil}
use mquickjs.Base.{
  ℕ, zero, suc, ◌+◌, ◌≤◌, ◌<◌, ◌≡◌, refl, sym, ap, ◌∙◌, inl, inr, none, List, [], ◌∷◌, ◌++◌, arith,
  length, length-append, All, Bool-cases, ltb,
}
use mquickjs.Base.Slices.{
  words_at, words_at_join, words_at_last, words_at-blit, words_at-blit_below,
}
use mquickjs.Readline.{Readline}
use mquickjs.Readline.History.{entry_length, remove_entry, make_room, append_entry}
use mquickjs.Readline.Text.{bytes}
use mquickjs.Readline.Entries.{IsEntry, flat, flat_back, IsPast, flat_back_step}
use mquickjs.Readline.Enter.{Holds, size-Holds, make_room-Holds}

-- The command line holds `t` with a byte 0 behind it.
pub record IsCommand (s : Readline) (t : List ℕ) : Type 0 where
  pub text : words_at s.term_cmd_buf 0 (length (bytes t)) ≡ bytes t
  pub stop : s.term_cmd_buf (length (bytes t)) ≡ 0
  pub entry : IsEntry t
  pub room : length (bytes t) < s.term_cmd_buf_size

flat_last :
    (es : List (List ℕ)) (t : List ℕ) → flat (es ++ (t ∷ [])) ≡ flat es ++ (bytes t ++ (0 ∷ []))
unfolding flat
flat_last [] t = refl
flat_last (e ∷ es) t =
    ap (λ xs. bytes e ++ (0 ∷ xs)) (flat_last es t)
    ∙ sym (append_assoc (bytes e) (0 ∷ flat es) (bytes t ++ (0 ∷ [])))

All_last :
    (es : List (List ℕ)) (t : List ℕ) → All IsEntry es → IsEntry t → All IsEntry (es ++ (t ∷ []))
All_last [] t h x = (x, tt)
All_last (e ∷ es) t (h, hs) x = (h, All_last es t hs x)

-- The entries listed from the newest one on.
rewound :
    (P : List ℕ → Type 0) (es acc : List (List ℕ))
    → All IsEntry es
    → All IsEntry acc
    → All P es
    → All P acc
    → (older : List (List ℕ)) × (flat_back older ≡ flat_back acc ++ flat es)
      × All IsEntry older
      × All P older
unfolding flat
rewound P [] acc h a p q = (acc, sym (append-nil (flat_back acc)), a, q)
rewound P (e ∷ es) acc (h, hs) a (p, ps) q =
    let (older, same, all, rs) = rewound P es (e ∷ acc) hs (h, a) ps (p, q) in
    (older, same ∙ flat_back_step e acc (flat es), all, rs)

-- The command line goes behind the entries.
append_entry-Holds :
    (s : Readline) (es : List (List ℕ)) (t : List ℕ) (size : ℕ)
    → Holds s es
    → words_at s.term_cmd_buf 0 (length (bytes t)) ≡ bytes t
    → s.term_cmd_buf (length (bytes t)) ≡ 0
    → IsEntry t
    → size ≡ length (bytes t) + 1
    → s.term_history_size + size ≤ s.term_history_buf_size
    → Holds (append_entry size s) (es ++ (t ∷ []))
append_entry-Holds s es t size h text stop entry one room =
    let b = bytes t ++ (0 ∷ []) in
    let n : length b ≡ size = omega (arith, one, length-append (bytes t) (0 ∷ [])) in
    let cmd : words_at s.term_cmd_buf 0 size ≡ b =
      ap (words_at s.term_cmd_buf 0) (omega (arith, one))
      ∙ words_at_last s.term_cmd_buf 0 (length (bytes t))
      ∙ ground (arith, text, stop) in
    let at = size-Holds h in
    let m = (append_entry size s).term_history in
    let before : words_at m 0 (length (flat es)) ≡ flat es =
      words_at-blit_below s.term_history s.term_history_size s.term_cmd_buf 0 size 0
        (length (flat es)) (omega (arith, at))
      ∙ ap (words_at s.term_history 0) (sym at)
      ∙ h.text in
    let behind : words_at m s.term_history_size (length b) ≡ b =
      ap (words_at m s.term_history_size) n
      ∙ words_at-blit s.term_history s.term_history_size s.term_cmd_buf 0 size
      ∙ cmd in
    record {
      text =
          words_at_join m 0 s.term_history_size (s.term_history_size + size) (flat es) b
            (omega (arith, at)) (omega (arith, at, n)) before behind
          ∙ sym (flat_last es t);
      entries = All_last es t h.entries entry;
      fits = room;
    }

make_room_frame :
    (fuel size : ℕ) (s : Readline)
    → ((make_room fuel size s).term_cmd_buf ≡ s.term_cmd_buf)
      × ((make_room fuel size s).term_history_buf_size ≡ s.term_history_buf_size)
unfolding make_room remove_entry
make_room_frame zero size s = (refl, refl)
make_room_frame (suc fuel) size s =
    elim (Bool-cases (ltb s.term_history_buf_size (s.term_history_size + size))) [
      | inr room ↦ rw room (refl, refl)
      | inl full ↦ rw full (make_room_frame fuel size (remove_entry s 0 (entry_length s 0 + 1)))
    ]

-- All entries lie before the current one, which is none.
newest-IsPast :
    (P : List ℕ → Type 0) (s : Readline) (es : List (List ℕ)) (t : List ℕ)
    → Holds s (es ++ (t ∷ []))
    → IsEntry t
    → All IsEntry es
    → All P es
    → (older : List (List ℕ)) × IsPast (record s { term_hist_entry = none }) (t ∷ older) []
      × All P older
unfolding flat flat_back
newest-IsPast P s es t h entry all ps =
    let (older, same, olds, rs) = rewound P es [] all tt ps tt in
    let text : flat (es ++ (t ∷ [])) ≡ flat_back (t ∷ older) ++ [] =
      flat_last es t
      ∙ ap (λ xs. xs ++ (bytes t ++ (0 ∷ []))) (sym same)
      ∙ sym (flat_back_step t older []) in
    (
      older,
      record {
        text = h.text ∙ text;
        entries_older = (entry, olds);
        entries_newer = tt;
        fits = h.fits;
        blank = λ a. absurd (cc a);
        place = size-Holds h ∙ ap length (text ∙ append-nil (flat_back (t ∷ older)));
        ends = λ x. refl;
        begun = λ x. inl refl;
      },
      rs,
    )

pub added-IsPast :
    (P : List ℕ → Type 0) (s : Readline) (es : List (List ℕ)) (t : List ℕ) (size : ℕ)
    → Holds s es
    → All P es
    → words_at s.term_cmd_buf 0 (length (bytes t)) ≡ bytes t
    → s.term_cmd_buf (length (bytes t)) ≡ 0
    → IsEntry t
    → size ≡ length (bytes t) + 1
    → size ≤ s.term_history_buf_size
    → (older : List (List ℕ)) × IsPast
        (record (append_entry size (make_room s.term_history_size size s)) {
          term_hist_entry = none;
        })
        (t ∷ older)
        []
      × All P older
added-IsPast P s es t size h ps text stop entry one fits =
    let (es', h', room, rs) =
      make_room-Holds P s.term_history_size size s es h ps (omega (arith, size-Holds h)) fits in
    let (buf, cap) = make_room_frame s.term_history_size size s in
    let s' = make_room s.term_history_size size s in
    newest-IsPast P (append_entry size s') es' t
      (append_entry-Holds s' es' t size h' (ap (λ m. words_at m 0 (length (bytes t))) buf ∙ text)
        (ap (λ m. m (length (bytes t))) buf ∙ stop) entry one room)
      entry h'.entries rs
