-- ===== src/Readline/Enter.antt =====
-- Entering a line: the history afterwards.
use mathlib.Core.List.{append_assoc}
use mquickjs.Base.{
  ℕ, zero, suc, ◌+◌, ◌≤◌, ◌<◌, ◌≡◌, refl, sym, ap, ◌∙◌, inl, inr, false, some, List, [], ◌∷◌, ◌++◌,
  arith, length, length-append, All, Bool-cases, ltb,
}
use mquickjs.Base.Slices.{words_at, blit_cut, length-words_at}
use mquickjs.Readline.{Readline}
use mquickjs.Readline.History.{entry_length, is_entry, find_entry, remove_entry, make_room}
use mquickjs.Readline.Text.{IsCode, bytes}
use mquickjs.Readline.Entries.{
  IsEntry, flat, flat_back, flat_back_step, length-flat_back, entry_length_lem,
}

-- All entries in order.
unfoldable pub unwind : List (List ℕ) → List (List ℕ) → List (List ℕ)
unwind [] newer = newer
unwind (e ∷ older) newer = unwind older (e ∷ newer)

pub flat-unwind :
    (older newer : List (List ℕ)) → flat (unwind older newer) ≡ flat_back older ++ flat newer
unfolding unwind flat flat_back
flat-unwind [] newer = refl
flat-unwind (e ∷ older) newer =
    flat-unwind older (e ∷ newer) ∙ sym (flat_back_step e older (flat newer))

pub All-unwind :
    (P : List ℕ → Type 0) (older newer : List (List ℕ))
    → All P older
    → All P newer
    → All P (unwind older newer)
unfolding unwind
All-unwind P [] newer a b = b
All-unwind P (e ∷ older) newer (h, hs) b = All-unwind P older (e ∷ newer) hs (h, b)

-- The entries of the history.
pub record Holds (s : Readline) (es : List (List ℕ)) : Type 0 where
  pub text : words_at s.term_history 0 s.term_history_size ≡ flat es
  pub entries : All IsEntry es
  pub fits : s.term_history_size ≤ s.term_history_buf_size

pub size-Holds :
    {s : Readline} {es : List (List ℕ)} → Holds s es → s.term_history_size ≡ length (flat es)
size-Holds {s} h = sym (length-words_at s.term_history 0 s.term_history_size) ∙ ap length h.text

-- Where an entry lies among the others.
abbrev pub IsAmong : ℕ → List (List ℕ) → Type 0
IsAmong idx es =
    (older : List (List ℕ)) × (e : List ℕ) × (newer : List (List ℕ)) × (es
      ≡ unwind older (e ∷ newer))
    × (idx ≡ length (flat_back older))

-- The search finds an entry.
pub find_entry-IsAmong :
    (fuel : ℕ) (s : Readline) (size : ℕ) (older newer : List (List ℕ)) (idx : ℕ)
    → Holds s (unwind older newer)
    → All IsEntry newer
    → find_entry fuel s size (length (flat_back older)) ≡ some idx
    → IsAmong idx (unwind older newer)
unfolding find_entry unwind
find_entry-IsAmong zero s size older newer idx h es found = cc found
find_entry-IsAmong (suc fuel) s size older [] idx h es found =
    let all : s.term_history_size ≡ length (flat_back older) =
      unfold flat in
      omega (
        arith,
        size-Holds h,
        ap length (flat-unwind older []),
        length-append (flat_back older) [],
      ) in
    let out : ltb (length (flat_back older)) s.term_history_size ≡ false = ground arith in
    cc (rw out at found)
find_entry-IsAmong (suc fuel) s size older (e ∷ newer) idx h (x, es) found =
    let at = length (flat_back older) in
    let n : entry_length s at ≡ length (bytes e) =
      entry_length_lem s (flat_back older) e (flat newer)
        (h.text ∙ flat-unwind older (e ∷ newer) ∙ unfold flat in refl) x.0 h.fits in
    elim (Bool-cases (ltb at s.term_history_size)) [
      | inr out ↦ cc (rw out at found)
      | inl inside ↦ elim (Bool-cases (is_entry s size at)) [
        | inl same ↦ (older, e, newer, refl, ground (arith, rw (inside, same) at found))
        | inr other ↦
            let next : at + (entry_length s at + 1) ≡ length (flat_back (e ∷ older)) =
              omega (arith, n, length-flat_back e older) in
            find_entry-IsAmong fuel s size (e ∷ older) newer idx h es
              (rw (inside, other, next) at found)
      ]
    ]

-- An entry is taken out.
pub remove_entry-Holds :
    (s : Readline) (older newer : List (List ℕ)) (e : List ℕ) (idx : ℕ)
    → Holds s (unwind older (e ∷ newer))
    → All IsEntry (unwind older newer)
    → All IsCode e
    → idx ≡ length (flat_back older)
    → Holds (remove_entry s idx (entry_length s idx + 1)) (unwind older newer)
      × (length (flat (unwind older newer)) < length (flat (unwind older (e ∷ newer))))
unfolding remove_entry flat
remove_entry-Holds s older newer e idx h es codes at =
    let b = bytes e ++ (0 ∷ []) in
    let text : words_at s.term_history 0 s.term_history_size
        ≡ flat_back older ++ (b ++ flat newer) =
      h.text
      ∙ flat-unwind older (e ∷ newer)
      ∙ ap (λ xs. flat_back older ++ xs) (sym (append_assoc (bytes e) (0 ∷ []) (flat newer))) in
    let n : entry_length s idx ≡ length (bytes e) =
      ap (entry_length s) at
      ∙ entry_length_lem s (flat_back older) e (flat newer) (h.text ∙ flat-unwind older (e ∷ newer))
          codes h.fits in
    let size : length b ≡ length (bytes e) + 1 = length-append (bytes e) (0 ∷ []) ∙ omega arith in
    let one : entry_length s idx + 1 ≡ length b = omega (arith, n, size) in
    (
      record {
        text = rw one (
            blit_cut s.term_history s.term_history_size idx (idx + length b) (flat_back older) b
              (flat newer) at (omega arith) text
            ∙ sym (flat-unwind older newer));
        entries = es;
        fits = omega (arith, h.fits);
      },
      omega (
        arith,
        ap length (flat-unwind older newer),
        ap length (flat-unwind older (e ∷ newer)),
        length-append (flat_back older) (flat newer),
        length-append (flat_back older) (bytes e ++ (0 ∷ flat newer)),
        length-append (bytes e) (0 ∷ flat newer),
      ),
    )

-- The oldest entries go until there is room; those that stay are some of the entries.
pub make_room-Holds :
    (P : List ℕ → Type 0) (fuel size : ℕ) (s : Readline) (es : List (List ℕ))
    → Holds s es
    → All P es
    → length (flat es) ≤ fuel
    → size ≤ s.term_history_buf_size
    → (es' : List (List ℕ)) × Holds (make_room fuel size s) es'
      × ((make_room fuel size s).term_history_size + size
          ≤ (make_room fuel size s).term_history_buf_size)
      × All P es'
unfolding make_room unwind flat_back remove_entry
make_room-Holds P zero size s es h ps enough fits = (es, h, omega (arith, size-Holds h), ps)
make_room-Holds P (suc fuel) size s [] h ps enough fits =
    let room : ltb s.term_history_buf_size (s.term_history_size + size) ≡ false =
      unfold flat in ground (arith, size-Holds h) in
    rw room ([], h, unfold flat in omega (arith, size-Holds h), tt)
make_room-Holds P (suc fuel) size s (e ∷ es) h ps enough fits =
    elim (Bool-cases (ltb s.term_history_buf_size (s.term_history_size + size))) [
      | inr room ↦ rw room (e ∷ es, h, ground arith, ps)
      | inl full ↦
          let (h', less) = remove_entry-Holds s [] es e 0 h h.entries.1 h.entries.0.0 refl in
          rw full (
            make_room-Holds P fuel size (remove_entry s 0 (entry_length s 0 + 1)) es h' ps.1
              (omega arith) fits)
    ]
