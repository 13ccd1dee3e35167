-- ===== src/Gc/Count.antt =====
-- Distinct slots in a range are no more than its words.
use mquickjs.Base.{
  ℕ, zero, suc, ◌+◌, ◌≤◌, ◌<◌, ◌≡◌, refl, sym, ap, ◌∙◌, inl, inr, true, false, ◌||◌, List, [], ◌∷◌,
  arith, length, Bool-cases, ◌==◌, if◌then◌else◌,
}
use mquickjs.Gc.Chain.{among, NoDup, among-first, among-rest, other}

unfoldable without : ℕ → List ℕ → List ℕ
without y [] = []
without y (x ∷ xs) = if x == y then xs else x ∷ without y xs

without-first : (y x : ℕ) (xs : List ℕ) → (x == y) ≡ true → without y (x ∷ xs) ≡ xs
unfolding without
without-first y x xs e = rw e refl

without-later : (y x : ℕ) (xs : List ℕ) → (x == y) ≡ false → without y (x ∷ xs) ≡ x ∷ without y xs
unfolding without
without-later y x xs e = rw e refl

among-without : (y x : ℕ) (xs : List ℕ) → among x (without y xs) ≡ true → among x xs ≡ true
unfolding without among
among-without y x [] i = i
among-without y x (t ∷ xs) i = elim (Bool-cases (t == y)) [
  | inl e ↦ among-rest x t xs (sym (ap (among x) (without-first y t xs e)) ∙ i)
  | inr e ↦
      let i' : ((x == t) || among x (without y xs)) ≡ true =
        sym (ap (among x) (without-later y t xs e)) ∙ i in
      elim (Bool-cases (x == t)) [
        | inl xt ↦ ground arith
        | inr xt ↦ among-rest x t xs (among-without y x xs (ground arith))
      ]
]

without-NoDup :
    (y : ℕ) (xs : List ℕ) → NoDup xs → NoDup (without y xs) × (among y (without y xs) ≡ false)
unfolding without among NoDup
without-NoDup y [] nodup = (tt, refl)
without-NoDup y (t ∷ xs) (out, nodup) = elim (Bool-cases (t == y)) [
  | inl e ↦ let same : t ≡ y = ground arith in rw e (nodup, sym (ap (λ z. among z xs) same) ∙ out)
  | inr e ↦
      let (rest, gone) = without-NoDup y xs nodup in
      let still_out : among t (without y xs) ≡ false = elim (Bool-cases (among t (without y xs))) [
        | inl i ↦ absurd (cc (out, among-without y t xs i))
        | inr o ↦ o
      ] in
      rw e ((still_out, rest), ground arith)
]

length-without : (y : ℕ) (xs : List ℕ) → length xs ≤ suc (length (without y xs))
unfolding without
length-without y [] = omega arith
length-without y (t ∷ xs) =
    let rest = length-without y xs in
    elim (Bool-cases (t == y)) [ inl e ↦ rw e (omega arith) | inr e ↦ rw e (omega arith) ]

-- The distinct numbers from `low` to `low + n` are at most `n`.
pub length-NoDup :
    (low n : ℕ) (xs : List ℕ)
    → NoDup xs
    → ((x : ℕ) → among x xs ≡ true → (low ≤ x) × (x < low + n))
    → length xs ≤ n
unfolding among
length-NoDup low zero [] nodup within = omega arith
length-NoDup low zero (t ∷ xs) nodup within =
    let (least, most) = within t (among-first t xs) in absurd (omega arith)
length-NoDup low (suc n) xs nodup within =
    let y = low + n in
    let (nodup', gone) = without-NoDup y xs nodup in
    let shorter = length-without y xs in
    let rest = length-NoDup low n (without y xs) nodup' (λ x i.
      let (least, most) = within x (among-without y x xs i) in
      let differ = other (λ z. among z (without y xs)) i gone in (least, ground arith)) in
    omega arith
