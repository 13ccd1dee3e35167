-- ===== src/Readline/Entries.antt =====
-- The history as a list of command lines.
use mathlib.Core.List.{append_assoc}
use mquickjs.Base.{
  ℕ, zero, suc, ◌+◌, ◌-◌, ◌≤◌, ◌<◌, ◌≡◌, refl, ap, ◌∙◌, ◌≢◌, ◌⊎◌, true, false, none, List, [], ◌∷◌,
  ◌++◌, arith, length, length-append, All, ◌==◌,
}
use mquickjs.Base.Slices.{words_at, words_at_split}
use mquickjs.Props.{Words}
use mquickjs.Utf8.{unicode_to_utf8}
use mquickjs.Utf8.Shape.{IsTail, unicode_to_utf8-IsEncoded}
use mquickjs.Readline.{Readline}
use mquickjs.Readline.History.{strlen, entry_start, current_entry, entry_length}
use mquickjs.Readline.Text.{IsCode, bytes}

-- A line that was entered is not empty.
abbrev pub IsEntry : List ℕ → Type 0
IsEntry e = All IsCode e × (e ≢ [])

unfoldable pub flat : List (List ℕ) → List ℕ
flat [] = []
flat (e ∷ es) = bytes e ++ (0 ∷ flat es)

-- The entries that are listed from the newest one on.
unfoldable pub flat_back : List (List ℕ) → List ℕ
flat_back [] = []
flat_back (e ∷ es) = flat_back es ++ (bytes e ++ (0 ∷ []))

-- The history holds the entries `older` before the current one, the nearest first, and `newer` from it on.
pub record IsPast (s : Readline) (older newer : List (List ℕ)) : Type 0 where
  pub text : words_at s.term_history 0 s.term_history_size ≡ flat_back older ++ flat newer
  pub entries_older : All IsEntry older
  pub entries_newer : All IsEntry newer
  pub fits : s.term_history_size ≤ s.term_history_buf_size
  pub blank : older ≡ [] → newer ≡ [] → s.term_history 0 ≡ 0
  pub place : current_entry s ≡ length (flat_back older)
  pub ends : s.term_hist_entry ≡ none → newer ≡ []
  pub begun : newer ≡ [] → (s.term_hist_entry ≡ none) ⊎ (older ≡ [])

abbrev IsSome : ℕ → Type 0
IsSome b = 0 < b

tails-IsSome : (bs : List ℕ) → All IsTail bs → All IsSome bs
tails-IsSome [] h = tt
tails-IsSome (b ∷ bs) (h, hs) = (omega arith, tails-IsSome bs hs)

all_append : (xs ys : List ℕ) → All IsSome xs → All IsSome ys → All IsSome (xs ++ ys)
all_append [] ys hx hy = hy
all_append (x ∷ xs) ys (h, hs) hy = (h, all_append xs ys hs hy)

encoded-IsSome : (c : ℕ) → IsCode c → All IsSome (unicode_to_utf8 c)
encoded-IsSome c (lo, hi) =
    let enc = unicode_to_utf8-IsEncoded c hi in
    rw enc.form (ground (arith, enc.is_lead), tails-IsSome enc.tail enc.is_tail)

-- No byte of a line is 0.
pub bytes-IsSome : (e : List ℕ) → All IsCode e → All IsSome (bytes e)
unfolding bytes
bytes-IsSome [] h = tt
bytes-IsSome (c ∷ e) (h, hs) =
    all_append (unicode_to_utf8 c) (bytes e) (encoded-IsSome c h) (bytes-IsSome e hs)

-- strlen counts the bytes up to the 0.
pub strlen_lem :
    (fuel : ℕ) (m : Words) (i : ℕ) (bs : List ℕ)
    → All IsSome bs
    → words_at m i (length bs) ≡ bs
    → m (i + length bs) ≡ 0
    → length bs < fuel
    → strlen fuel m i ≡ length bs
unfolding strlen words_at
strlen_lem zero m i bs h e z l = absurd (omega arith)
strlen_lem (suc fuel) m i [] h e z l =
    let at : i + 0 ≡ i = omega arith in
    let stop : (m i == 0) ≡ true = ground (arith, ap m at) in rw stop refl
strlen_lem (suc fuel) m i (b ∷ bs) (h, hs) e z l =
    let first : m i ≡ b = ground arith in
    let goes : (m i == 0) ≡ false = ground arith in
    let rest : words_at m (suc i) (length bs) ≡ bs = ground arith in
    let at : suc i + length bs ≡ i + suc (length bs) = omega arith in
    rw goes (ap suc (strlen_lem fuel m (suc i) bs hs rest (rw at z) (omega arith)))

back_over :
    (m : Words) (i : ℕ) (bs : List ℕ)
    → All IsSome bs
    → words_at m i (length bs) ≡ bs
    → entry_start m (i + length bs) ≡ entry_start m i
unfolding entry_start words_at
back_over m i [] h e = ap (entry_start m) (omega arith)
back_over m i (b ∷ bs) (h, hs) e =
    let goes : (m i == 0) ≡ false = ground arith in
    let rest : words_at m (suc i) (length bs) ≡ bs = ground arith in
    ap (entry_start m) (omega arith) ∙ back_over m (suc i) bs hs rest ∙ rw goes refl

pub length-flat_back :
    (e : List ℕ) (older : List (List ℕ))
    → length (flat_back (e ∷ older)) ≡ length (flat_back older) + length (bytes e) + 1
unfolding flat_back
length-flat_back e older =
    omega (
      arith,
      length-append (flat_back older) (bytes e ++ (0 ∷ [])),
      length-append (bytes e) (0 ∷ []),
    )

-- The newest of the older entries as the oldest of those behind it.
pub flat_back_step :
    (e : List ℕ) (older : List (List ℕ)) (rest : List ℕ)
    → flat_back (e ∷ older) ++ rest ≡ flat_back older ++ (bytes e ++ (0 ∷ rest))
unfolding flat_back
flat_back_step e older rest =
    append_assoc (flat_back older) (bytes e ++ (0 ∷ [])) rest
    ∙ ap (λ xs. flat_back older ++ xs) (append_assoc (bytes e) (0 ∷ []) rest)

-- Where an entry lies.
pub entry_parts :
    (m : Words) (n : ℕ) (a : List ℕ) (e rest : List ℕ)
    → words_at m 0 n ≡ a ++ (bytes e ++ (0 ∷ rest))
    → (words_at m (length a) (length (bytes e)) ≡ bytes e)
      × (m (length a + length (bytes e)) ≡ 0)
      × (n ≡ length a + length (bytes e) + suc (length rest))
unfolding words_at
entry_parts m n a e rest text =
    let (at_a, at_more, size) =
      words_at_split m 0 (length a) n a (bytes e ++ (0 ∷ rest)) (omega arith) text in
    let (at_e, at_end, size') =
      words_at_split m (length a) (length a + length (bytes e)) (length (bytes e ++ (0 ∷ rest)))
        (bytes e) (0 ∷ rest) refl at_more in
    (at_e, ground arith, omega (arith, size, size'))

pub entry_length_lem :
    (s : Readline) (a e rest : List ℕ)
    → words_at s.term_history 0 s.term_history_size ≡ a ++ (bytes e ++ (0 ∷ rest))
    → All IsCode e
    → s.term_history_size ≤ s.term_history_buf_size
    → entry_length s (length a) ≡ length (bytes e)
entry_length_lem s a e rest text codes fits =
    let (at, zero_at, n) = entry_parts s.term_history s.term_history_size a e rest text in
    strlen_lem s.term_history_buf_size s.term_history (length a) (bytes e) (bytes-IsSome e codes) at
      zero_at (omega (arith, n))

-- An entry starts behind the byte 0 of the entry before it.
stops :
    (m : Words) (older : List (List ℕ)) (n : ℕ) (rest : List ℕ)
    → words_at m 0 n ≡ flat_back older ++ rest
    → entry_start m (length (flat_back older)) ≡ length (flat_back older)
unfolding entry_start
stops m [] n rest e = unfold flat_back in refl
stops m (x ∷ older) n rest e =
    let (at, zero_at, size) =
      entry_parts m n (flat_back older) x rest (e ∙ flat_back_step x older rest) in
    let j = length (flat_back older) + length (bytes x) in
    let last : length (flat_back (x ∷ older)) ≡ suc j = omega (arith, length-flat_back x older) in
    let found : (m j == 0) ≡ true = ground arith in rw (last, found) refl

-- From the end of an entry the walk goes back to its start.
pub entry_start_lem :
    (m : Words) (e : List ℕ) (older : List (List ℕ)) (n : ℕ) (rest : List ℕ)
    → words_at m 0 n ≡ flat_back (e ∷ older) ++ rest
    → All IsCode e
    → entry_start m (length (flat_back (e ∷ older)) - 1) ≡ length (flat_back older)
entry_start_lem m e older n rest text codes =
    let text' = text ∙ flat_back_step e older rest in
    let (at, zero_at, size) = entry_parts m n (flat_back older) e rest text' in
    let last : length (flat_back (e ∷ older)) - 1 ≡ length (flat_back older) + length (bytes e) =
      omega (arith, length-flat_back e older) in
    ap (entry_start m) last
    ∙ back_over m (length (flat_back older)) (bytes e) (bytes-IsSome e codes) at
    ∙ stops m older n (bytes e ++ (0 ∷ rest)) text'
