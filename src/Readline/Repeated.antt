-- ===== src/Readline/Repeated.antt =====
-- The entry of the history that the command line repeats is taken out.
use mquickjs.Base.{
  ℕ, zero, suc, ◌+◌, ◌<◌, ◌≡◌, refl, sym, ap, ◌∙◌, inl, inr, true, false, none, some, List, [], ◌∷◌,
  arith, All, Bool-cases, Option-cases, ◌==◌, if◌then◌else◌,
}
use mquickjs.Props.{Words}
use mquickjs.Readline.{Readline}
use mquickjs.Readline.History.{
  strlen, entry_length, is_entry, find_entry, remove_entry, repeated_entry, without_repeated,
}
use mquickjs.Readline.Entries.{IsEntry, flat_back, IsPast}
use mquickjs.Readline.Enter.{
  unwind, flat-unwind, All-unwind, Holds, IsAmong, find_entry-IsAmong, remove_entry-Holds,
}

All-unwound :
    (P : List ℕ → Type 0) (older newer : List (List ℕ))
    → All P (unwind older newer)
    → All P older × All P newer
unfolding unwind
All-unwound P [] newer h = (tt, h)
All-unwound P (e ∷ older) newer h =
    let (a, b) = All-unwound P older (e ∷ newer) h in ((b.0, a), b.1)

removed-Holds :
    (P : List ℕ → Type 0) (s : Readline) (es : List (List ℕ)) (idx : ℕ)
    → Holds s es
    → All P es
    → IsAmong idx es
    → (es' : List (List ℕ)) × Holds (remove_entry s idx (entry_length s idx + 1)) es' × All P es'
removed-Holds P s es idx h ps (older, e, newer, same, at) =
    let h' : Holds s (unwind older (e ∷ newer)) = rw same at h in
    let ps' : All P (unwind older (e ∷ newer)) = rw same at ps in
    let (a, b) = All-unwound IsEntry older (e ∷ newer) h'.entries in
    let (c, d) = All-unwound P older (e ∷ newer) ps' in
    (
      unwind older newer,
      (remove_entry-Holds s older newer e idx h' (All-unwind IsEntry older newer a b.1) b.0.0 at).0,
      All-unwind P older newer c d.1,
    )

unwind-Holds :
    {s : Readline} {older newer : List (List ℕ)}
    → IsPast s older newer
    → Holds s (unwind older newer)
unwind-Holds {s} {older} {newer} p = record {
  text = p.text ∙ sym (flat-unwind older newer);
  entries = All-unwind IsEntry older newer p.entries_older p.entries_newer;
  fits = p.fits;
}

no_strlen : (fuel : ℕ) (m : Words) → m 0 ≡ 0 → strlen fuel m 0 ≡ 0
unfolding strlen
no_strlen zero m e = refl
no_strlen (suc fuel) m e = let stop : (m 0 == 0) ≡ true = ground (arith, e) in rw stop refl

-- The command line is not the empty text at the start of an empty history.
no_entry : (s : Readline) (size : ℕ) → s.term_history 0 ≡ 0 → 1 < size → is_entry s size 0 ≡ false
no_entry s size blank l =
    let other : (entry_length s 0 + 1 == size) ≡ false =
      ground (arith, no_strlen s.term_history_buf_size s.term_history blank) in
    rw other refl

none_repeated :
    (s : Readline) (size : ℕ)
    → s.term_hist_entry ≡ none
    → repeated_entry s size ≡ find_entry s.term_history_size s size 0
none_repeated s size e = rw e refl

some_repeated :
    (s : Readline) (size i : ℕ)
    → s.term_hist_entry ≡ some i
    → repeated_entry s size
      ≡ (if is_entry s size i then some i else find_entry s.term_history_size s size 0)
some_repeated s size i e = rw e refl

-- The current entry, where the line repeats it.
current_entry-IsAmong :
    (s : Readline) (older newer : List (List ℕ)) (size i : ℕ)
    → IsPast s older newer
    → 1 < size
    → s.term_hist_entry ≡ some i
    → is_entry s size i ≡ true
    → IsAmong i (unwind older newer)
unfolding unwind
current_entry-IsAmong s older (e ∷ rest) size i p l some_e same =
    (older, e, rest, refl, ground (arith, p.place, some_e))
current_entry-IsAmong s older [] size i p l some_e same = elim (p.begun refl) [
  | inl x ↦ absurd (cc (some_e, x))
  | inr x ↦
      let here : i ≡ 0 = unfold flat_back in ground (arith, p.place, some_e, ap flat_back x) in
      let other : is_entry s size i ≡ false =
        ap (is_entry s size) here ∙ no_entry s size (p.blank x refl) l in
      absurd (cc (same, other))
]

-- What the line repeats is an entry.
repeated_entry-IsAmong :
    (s : Readline) (older newer : List (List ℕ)) (size idx : ℕ)
    → IsPast s older newer
    → 1 < size
    → repeated_entry s size ≡ some idx
    → IsAmong idx (unwind older newer)
unfolding unwind flat_back
repeated_entry-IsAmong s older newer size idx p l found =
    let h = unwind-Holds p in
    let search : find_entry s.term_history_size s size 0 ≡ some idx
        → IsAmong idx (unwind older newer) =
      λ e.
        find_entry-IsAmong s.term_history_size s size [] (unwind older newer) idx h h.entries e in
    elim (Option-cases s.term_hist_entry) [
      | inl none_e ↦ search (sym (none_repeated s size none_e) ∙ found)
      | inr (i, some_e) ↦
          let found' = sym (some_repeated s size i some_e) ∙ found in
          elim (Bool-cases (is_entry s size i)) [
            | inr other ↦ search (rw other at found')
            | inl same ↦
                let at : i ≡ idx = ground (arith, rw same at found') in
                rw (sym at) (current_entry-IsAmong s older newer size i p l some_e same)
          ]
    ]

pub none_removed :
    (s : Readline) (size : ℕ) → repeated_entry s size ≡ none → without_repeated s size ≡ s
none_removed s size e = rw (without_repeated, e) refl

pub some_removed :
    (s : Readline) (size idx : ℕ)
    → repeated_entry s size ≡ some idx
    → without_repeated s size ≡ remove_entry s idx (entry_length s idx + 1)
some_removed s size idx e = rw (without_repeated, e) refl

-- The history without the entry that the line repeats; the entries left are some of the entries.
pub without_repeated-Holds :
    (P : List ℕ → Type 0) (s : Readline) (older newer : List (List ℕ)) (size : ℕ)
    → IsPast s older newer
    → All P older
    → All P newer
    → 1 < size
    → (es : List (List ℕ)) × Holds (without_repeated s size) es
      × ((without_repeated s size).term_cmd_buf ≡ s.term_cmd_buf)
      × ((without_repeated s size).term_history_buf_size ≡ s.term_history_buf_size)
      × All P es
unfolding remove_entry
without_repeated-Holds P s older newer size p ps qs l =
    elim (Option-cases (repeated_entry s size)) [
      | inl e ↦
          rw (none_removed s size e)
            (unwind older newer, unwind-Holds p, refl, refl, All-unwind P older newer ps qs)
      | inr (idx, e) ↦
          let (es, h, rs) =
            removed-Holds P s (unwind older newer) idx (unwind-Holds p)
              (All-unwind P older newer ps qs)
              (repeated_entry-IsAmong s older newer size idx p l e) in
          rw (some_removed s size idx e) (es, h, refl, refl, rs)
    ]
