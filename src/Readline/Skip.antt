-- ===== src/Readline/Skip.antt =====
-- Skipping bytes by a test skips whole code points.
use mathlib.Core.Path.{subst}
use mquickjs.Base.{
  ℕ, zero, suc, ◌+◌, ◌≤◌, ◌≡◌, refl, sym, ap, ◌∙◌, inl, inr, Bool, true, false, List, [], ◌∷◌, ◌++◌,
  arith, length, length-append, All, Bool-cases, if◌then◌else◌,
}
use mquickjs.Base.Slices.{words_at, words_at_split}
use mquickjs.Props.{Words}
use mquickjs.Utf8.{unicode_to_utf8}
use mquickjs.Utf8.Shape.{IsTail, unicode_to_utf8-IsEncoded}
use mquickjs.Readline.Edit.{skip_back, skip_on}
use mquickjs.Readline.Text.{IsCode, bytes, back, length-unicode_to_utf8}

-- The code points in front for which the test holds, and what is left.
unfoldable pub take_while : (ℕ → Bool) → List ℕ → List ℕ
take_while test [] = []
take_while test (c ∷ l) = if test c then c ∷ take_while test l else []

unfoldable pub drop_while : (ℕ → Bool) → List ℕ → List ℕ
drop_while test [] = []
drop_while test (c ∷ l) = if test c then drop_while test l else c ∷ l

pub take_while-drop_while :
    (test : ℕ → Bool) (l : List ℕ) → take_while test l ++ drop_while test l ≡ l
unfolding take_while drop_while
take_while-drop_while test [] = refl
take_while-drop_while test (c ∷ l) = ground (arith, take_while-drop_while test l)

pub All-drop_while : (test : ℕ → Bool) (l : List ℕ) → All IsCode l → All IsCode (drop_while test l)
unfolding drop_while
All-drop_while test [] h = h
All-drop_while test (c ∷ l) (h, hs) = elim (Bool-cases (test c)) [
  | inl e ↦ rw e (All-drop_while test l hs)
  | inr e ↦ rw e (h, hs)
]

-- A test that says the same of all bytes that are not ASCII.
abbrev pub IsAsciiTest : (ℕ → Bool) → Bool → Type 0
IsAsciiTest test v = (b : ℕ) → 128 ≤ b → test b ≡ v

AllTest : (ℕ → Bool) → Bool → List ℕ → Type 0
AllTest test v bs = All (λ b. test b ≡ v) bs

tails_test :
    (test : ℕ → Bool) (v : Bool) (bs : List ℕ)
    → IsAsciiTest test v
    → All IsTail bs
    → AllTest test v bs
unfolding AllTest
tails_test test v [] h ts = tt
tails_test test v (b ∷ bs) h (t, ts) = (h b t.0, tails_test test v bs h ts)

-- All bytes of an encoded code point pass the test just as the code point does.
encoded_test :
    (test : ℕ → Bool) (v : Bool) (c : ℕ)
    → IsAsciiTest test v
    → IsCode c
    → AllTest test (test c) (unicode_to_utf8 c)
unfolding AllTest
encoded_test test v c h (lo, hi) =
    let enc = unicode_to_utf8-IsEncoded c hi in
    elim enc.is_lead [
      | inl (small, same, none) ↦ rw (enc.form, none) (ap test same, tt)
      | inr (big, wide) ↦
          let e : test c ≡ v = h c wide in
          subst (λ x. AllTest test x (unicode_to_utf8 c)) (sym e)
            (rw enc.form (h enc.lead (omega arith), tails_test test v enc.tail h enc.is_tail))
    ]

module _ (test : ℕ → Bool) (m : Words) where
  back_over :
      (i : ℕ) (bs : List ℕ)
      → AllTest test true bs
      → words_at m i (length bs) ≡ bs
      → skip_back test m (i + length bs) ≡ skip_back test m i
  unfolding skip_back words_at AllTest
  back_over i [] h e = ap (skip_back test m) (omega arith)
  back_over i (b ∷ bs) (h, hs) e =
      let first : test (m i) ≡ true = ground arith in
      let rest : words_at m (suc i) (length bs) ≡ bs = ground arith in
      ap (skip_back test m) (omega arith) ∙ back_over (suc i) bs hs rest ∙ rw first refl

  on_over :
      (i n : ℕ) (bs : List ℕ)
      → AllTest test true bs
      → words_at m i (length bs) ≡ bs
      → skip_on test m i (length bs + n) ≡ skip_on test m (i + length bs) n
  unfolding skip_on words_at AllTest
  on_over i n [] h e =
      let a : 0 + n ≡ n = omega arith in let b : i + 0 ≡ i = omega arith in rw (a, b) refl
  on_over i n (b ∷ bs) (h, hs) e =
      let first : test (m i) ≡ true = ground arith in
      let rest : words_at m (suc i) (length bs) ≡ bs = ground arith in
      let a : suc (length bs) + n ≡ suc (length bs + n) = omega arith in
      let b : i + suc (length bs) ≡ suc i + length bs = omega arith in
      rw (a, b, first) (on_over (suc i) n bs hs rest)

  back_stops :
      (i : ℕ) (bs : List ℕ)
      → AllTest test false bs
      → words_at m i (length bs) ≡ bs
      → 1 ≤ length bs
      → skip_back test m (i + length bs) ≡ i + length bs
  unfolding skip_back words_at AllTest
  back_stops i [] h e l = absurd (omega arith)
  back_stops i (b ∷ []) (h, hs) e l =
      let first : test (m i) ≡ false = ground arith in
      let at : i + suc zero ≡ suc i = omega arith in rw (at, first) refl
  back_stops i (b ∷ b' ∷ bs) (h, hs) e l =
      let rest : words_at m (suc i) (suc (length bs)) ≡ b' ∷ bs = ground arith in
      let at : i + suc (suc (length bs)) ≡ suc i + suc (length bs) = omega arith in
      rw at (back_stops (suc i) (b' ∷ bs) hs rest (omega arith))

  on_stops :
      (i n : ℕ) (bs : List ℕ)
      → AllTest test false bs
      → words_at m i (length bs) ≡ bs
      → 1 ≤ length bs
      → skip_on test m i (length bs + n) ≡ i
  unfolding skip_on words_at AllTest
  on_stops i n [] h e l = absurd (omega arith)
  on_stops i n (b ∷ bs) (h, hs) e l =
      let first : test (m i) ≡ false = ground arith in
      let a : suc (length bs) + n ≡ suc (length bs + n) = omega arith in rw (a, first) refl

  module _ (v : Bool) (ascii : IsAsciiTest test v) where
    -- Going back over bytes goes back over the code points that pass the test.
    pub skip_back-drop_while :
        (l : List ℕ)
        → All IsCode l
        → words_at m 0 (length (back l)) ≡ back l
        → skip_back test m (length (back l)) ≡ length (back (drop_while test l))
    unfolding back drop_while skip_back
    skip_back-drop_while [] h e = refl
    skip_back-drop_while (c ∷ l) (h, hs) e =
        let u = unicode_to_utf8 c in
        let size : length (back l ++ u) ≡ length (back l) + length u = length-append (back l) u in
        let (at_l, at_c, n) =
          words_at_split m 0 (length (back l)) (length (back l ++ u)) (back l) u (omega arith) e in
        let all = encoded_test test v c ascii h in
        elim (Bool-cases (test c)) [
          | inl passes ↦ rw passes (
              ap (skip_back test m) size
              ∙ back_over (length (back l)) u (rw passes at all) at_c
              ∙ skip_back-drop_while l hs at_l)
          | inr stops ↦ rw stops (
              ap (skip_back test m) size
              ∙ back_stops (length (back l)) u (rw stops at all) at_c (length-unicode_to_utf8 c h)
              ∙ sym size)
        ]

    -- And so does going on.
    pub skip_on-take_while :
        (i : ℕ) (r : List ℕ)
        → All IsCode r
        → words_at m i (length (bytes r)) ≡ bytes r
        → skip_on test m i (length (bytes r)) ≡ i + length (bytes (take_while test r))
    unfolding bytes take_while skip_on
    skip_on-take_while i [] h e = omega arith
    skip_on-take_while i (c ∷ r) (h, hs) e =
        let u = unicode_to_utf8 c in
        let size : length (u ++ bytes r) ≡ length u + length (bytes r) =
          length-append u (bytes r) in
        let (at_c, at_r, n) =
          words_at_split m i (i + length u) (length (u ++ bytes r)) u (bytes r) refl e in
        let all = encoded_test test v c ascii h in
        elim (Bool-cases (test c)) [
          | inl passes ↦ rw passes (
              ap (skip_on test m i) size
              ∙ on_over i (length (bytes r)) u (rw passes at all) at_c
              ∙ skip_on-take_while (i + length u) r hs at_r
              ∙ omega (arith, length-append u (bytes (take_while test r))))
          | inr stops ↦ rw stops (
              ap (skip_on test m i) size
              ∙ on_stops i (length (bytes r)) u (rw stops at all) at_c (length-unicode_to_utf8 c h)
              ∙ omega arith)
        ]
