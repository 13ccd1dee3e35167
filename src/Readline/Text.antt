-- ===== src/Readline/Text.antt =====
-- The command line as code points: those before the cursor, the nearest first, and those behind it.
use mathlib.Core.List.{append_assoc, append-nil}
use mquickjs.Base.{
  ℕ, zero, suc, ◌+◌, ◌-◌, ◌≤◌, ◌<◌, ◌≡◌, refl, sym, ap, ◌∙◌, true, false, List, [], ◌∷◌, ◌++◌,
  arith, length, length-append, All,
}
use mquickjs.Base.Slices.{words_at, words_at_add}
use mquickjs.Props.{Words}
use mquickjs.Utf8.{unicode_to_utf8, utf8_get}
use mquickjs.Utf8.Shape.{IsTail, unicode_to_utf8-IsEncoded, utf8_get-unicode_to_utf8}
use mquickjs.Readline.{Readline}
use mquickjs.Readline.Edit.{is_utf8_ext, back_to_lead, char_at}

-- A code point that a key can insert.
abbrev pub IsCode : ℕ → Type 0
IsCode c = (32 ≤ c) × (c < 0x200000)

unfoldable pub bytes : List ℕ → List ℕ
bytes [] = []
bytes (c ∷ r) = unicode_to_utf8 c ++ bytes r

-- The bytes of code points that are listed from the last one on.
unfoldable pub back : List ℕ → List ℕ
back [] = []
back (c ∷ l) = back l ++ unicode_to_utf8 c

-- The code points `l` before the cursor and `r` behind it make up the command line.
pub record IsLine (s : Readline) (l r : List ℕ) : Type 0 where
  pub text : words_at s.term_cmd_buf 0 s.term_cmd_buf_len ≡ back l ++ bytes r
  pub here : s.term_cmd_buf_index ≡ length (back l)
  pub codes_before : All IsCode l
  pub codes_behind : All IsCode r

-- Moving a code point over the cursor leaves the text.
pub over_cursor : (c : ℕ) (l r : List ℕ) → back (c ∷ l) ++ bytes r ≡ back l ++ bytes (c ∷ r)
unfolding back bytes
over_cursor c l r = append_assoc (back l) (unicode_to_utf8 c) (bytes r)

pub length-back :
    (c : ℕ) (l : List ℕ) → length (back (c ∷ l)) ≡ length (back l) + length (unicode_to_utf8 c)
unfolding back
length-back c l = length-append (back l) (unicode_to_utf8 c)

pub length-unicode_to_utf8 : (c : ℕ) → IsCode c → 1 ≤ length (unicode_to_utf8 c)
length-unicode_to_utf8 c (lo, hi) =
    let e = unicode_to_utf8-IsEncoded c hi in rw e.form (omega arith)

-- The character at a place where an encoded code point lies.
pub char_at-encoded :
    (m : Words) (i c : ℕ)
    → IsCode c
    → words_at m i (length (unicode_to_utf8 c)) ≡ unicode_to_utf8 c
    → char_at m i ≡ (c, length (unicode_to_utf8 c))
char_at-encoded m i c (lo, hi) e =
    let u = unicode_to_utf8 c in
    let enc = unicode_to_utf8-IsEncoded c hi in
    let short : length u ≤ 4 = omega (arith, ap length enc.form, enc.short) in
    let four : 4 ≡ length u + (4 - length u) = omega arith in
    let all : words_at m i 4 ≡ u ++ words_at m (i + length u) (4 - length u) =
      ap (words_at m i) four ∙ words_at_add m i (length u) (4 - length u) ∙ rw e refl in
    ap utf8_get all ∙ utf8_get-unicode_to_utf8 c (words_at m (i + length u) (4 - length u)) hi

-- Continuation bytes are passed on the way back, up to the byte before them.
back_over_tail :
    (m : Words) (i : ℕ) (tail : List ℕ)
    → All IsTail tail
    → words_at m (suc i) (length tail) ≡ tail
    → back_to_lead m (i + length tail) ≡ back_to_lead m i
unfolding back_to_lead words_at
back_over_tail m i [] ts e = ap (back_to_lead m) (omega arith)
back_over_tail m i (b ∷ tail) (t, ts) e =
    let first : m (suc i) ≡ b = ground arith in
    let rest : words_at m (suc (suc i)) (length tail) ≡ tail = ground arith in
    let ext : is_utf8_ext (m (suc i)) ≡ true = ground arith in
    ap (back_to_lead m) (omega arith) ∙ back_over_tail m (suc i) tail ts rest ∙ rw ext refl

back_at_lead : (m : Words) (i : ℕ) → is_utf8_ext (m i) ≡ false → back_to_lead m i ≡ i
unfolding back_to_lead
back_at_lead m zero e = refl
back_at_lead m (suc i) e = rw e refl

-- From the last byte of an encoded code point the walk goes back to its first one.
pub back_to_lead-encoded :
    (m : Words) (i c : ℕ)
    → IsCode c
    → words_at m i (length (unicode_to_utf8 c)) ≡ unicode_to_utf8 c
    → back_to_lead m (i + length (unicode_to_utf8 c) - 1) ≡ i
unfolding words_at
back_to_lead-encoded m i c (lo, hi) e =
    let enc = unicode_to_utf8-IsEncoded c hi in
    let e' : words_at m i (suc (length enc.tail)) ≡ enc.lead ∷ enc.tail = rw enc.form at e in
    let first : m i ≡ enc.lead = ground arith in
    let rest : words_at m (suc i) (length enc.tail) ≡ enc.tail = ground arith in
    let lead : is_utf8_ext (m i) ≡ false = ground (arith, enc.is_lead) in
    let at : i + length (unicode_to_utf8 c) - 1 ≡ i + length enc.tail =
      omega (arith, ap length enc.form) in
    ap (back_to_lead m) at ∙ back_over_tail m i enc.tail enc.is_tail rest ∙ back_at_lead m i lead

-- What was killed last.
pub record IsKilled (s : Readline) (k : List ℕ) : Type 0 where
  pub text : words_at s.term_kill_buf 0 s.term_kill_buf_len ≡ bytes k
  pub codes : All IsCode k

-- The code points `t` go over the cursor, one by one.
unfoldable pub shift : List ℕ → List ℕ → List ℕ
shift [] r = r
shift (c ∷ t) r = shift t (c ∷ r)

pub back-append : (t l : List ℕ) → back (t ++ l) ≡ back l ++ back t
unfolding back
back-append [] l = sym (append-nil (back l))
back-append (c ∷ t) l =
    ap (λ xs. xs ++ unicode_to_utf8 c) (back-append t l)
    ∙ append_assoc (back l) (back t) (unicode_to_utf8 c)

pub bytes-append : (t r : List ℕ) → bytes (t ++ r) ≡ bytes t ++ bytes r
unfolding bytes
bytes-append [] r = refl
bytes-append (c ∷ t) r =
    ap (λ xs. unicode_to_utf8 c ++ xs) (bytes-append t r)
    ∙ sym (append_assoc (unicode_to_utf8 c) (bytes t) (bytes r))

pub bytes-shift : (t r : List ℕ) → bytes (shift t r) ≡ back t ++ bytes r
unfolding shift back bytes
bytes-shift [] r = refl
bytes-shift (c ∷ t) r =
    bytes-shift t (c ∷ r) ∙ sym (append_assoc (back t) (unicode_to_utf8 c) (bytes r))

pub back-shift : (t l : List ℕ) → back (shift t l) ≡ back l ++ bytes t
unfolding shift back bytes
back-shift [] l = sym (append-nil (back l))
back-shift (c ∷ t) l = back-shift t (c ∷ l) ∙ append_assoc (back l) (unicode_to_utf8 c) (bytes t)

pub All-shift : (t r : List ℕ) → All IsCode t → All IsCode r → All IsCode (shift t r)
unfolding shift
All-shift [] r ts rs = rs
All-shift (c ∷ t) r (h, ts) rs = All-shift t (c ∷ r) ts (h, rs)

pub All-parts : (t r : List ℕ) → All IsCode (t ++ r) → All IsCode t × All IsCode r
All-parts [] r h = (tt, h)
All-parts (c ∷ t) r (h, hs) = let (a, b) = All-parts t r hs in ((h, a), b)
