-- ===== src/Base/Slices.antt =====
-- Stretches of an array of words as lists, and the moves of blocks of words.
use Prim.Native.Nat.{ℕ, zero, suc, ◌+◌, ◌-◌, ◌≤◌, ◌<◌}
use mathlib.Core.Path.{◌≡◌, refl, sym, ap, ◌∙◌}
use mathlib.Core.Bool.{◌&&◌}
use mathlib.Core.List.{List, [], ◌∷◌, ◌++◌}
use native.Mathlib.Omega.{arith}
use mquickjs.Base.Tests.{ltb, leb, if◌then◌else◌}
use mquickjs.Base.Lists.{length, get_or, length-append}

-- `n` words from index `i` on.
unfoldable pub words_at : (ℕ → ℕ) → ℕ → ℕ → List ℕ
words_at m i zero = []
words_at m i (suc n) = m i ∷ words_at m (suc i) n

pub length-words_at : (m : ℕ → ℕ) (i n : ℕ) → length (words_at m i n) ≡ n
unfolding words_at
length-words_at m i zero = refl
length-words_at m i (suc n) = omega (arith, length-words_at m (suc i) n)

pub words_at-cong :
    (m m' : ℕ → ℕ) (i i' n : ℕ)
    → ((t : ℕ) → t < n → m' (i' + t) ≡ m (i + t))
    → words_at m' i' n ≡ words_at m i n
unfolding words_at
words_at-cong m m' i i' zero same = refl
words_at-cong m m' i i' (suc n) same = ground (
  arith,
  same 0 (omega arith),
  words_at-cong m m' (suc i) (suc i') n (λ t l. ground (arith, same (suc t) (omega arith))),
)

pub words_at_last :
    (m : ℕ → ℕ) (i n : ℕ) → words_at m i (suc n) ≡ words_at m i n ++ (m (i + n) ∷ [])
unfolding words_at
words_at_last m i zero = ground arith
words_at_last m i (suc n) = ground (arith, words_at_last m (suc i) n)

pub words_at_add :
    (m : ℕ → ℕ) (i n k : ℕ) → words_at m i (n + k) ≡ words_at m i n ++ words_at m (i + n) k
unfolding words_at
words_at_add m i zero k = ground arith
words_at_add m i (suc n) k =
    let e : suc n + k ≡ suc (n + k) = omega arith in
    let e' : i + suc n ≡ suc i + n = omega arith in
    rw (e, e') (ap (λ xs. m i ∷ xs) (words_at_add m (suc i) n k))

-- memcpy and memmove: `n` words of `src` from index `from` on go to index `to` of `dst`.
unfoldable pub blit : (ℕ → ℕ) → ℕ → (ℕ → ℕ) → ℕ → ℕ → ℕ → ℕ
blit dst to src from n i = if leb to i && ltb i (to + n) then src (from + (i - to)) else dst i

pub words_at-blit :
    (dst : ℕ → ℕ) (to : ℕ) (src : ℕ → ℕ) (from n : ℕ)
    → words_at (blit dst to src from n) to n ≡ words_at src from n
unfolding blit
words_at-blit dst to src from n =
    words_at-cong src (blit dst to src from n) from to n (λ t l. ground arith)

pub words_at-blit_below :
    (dst : ℕ → ℕ) (to : ℕ) (src : ℕ → ℕ) (from n i k : ℕ)
    → i + k ≤ to
    → words_at (blit dst to src from n) i k ≡ words_at dst i k
unfolding blit
words_at-blit_below dst to src from n i k l =
    words_at-cong dst (blit dst to src from n) i i k (λ t b. ground arith)

pub words_at-blit_above :
    (dst : ℕ → ℕ) (to : ℕ) (src : ℕ → ℕ) (from n i k : ℕ)
    → to + n ≤ i
    → words_at (blit dst to src from n) i k ≡ words_at dst i k
unfolding blit
words_at-blit_above dst to src from n i k l =
    words_at-cong dst (blit dst to src from n) i i k (λ t b. ground arith)

-- The words of a list.
abbrev pub words_of : List ℕ → ℕ → ℕ
words_of xs i = get_or xs i 0

words_of_rest :
    (xs : List ℕ) (m : ℕ → ℕ) (i : ℕ)
    → ((t : ℕ) → t < length xs → m (i + t) ≡ words_of xs t)
    → words_at m i (length xs) ≡ xs
unfolding words_at
words_of_rest [] m i same = refl
words_of_rest (x ∷ xs) m i same = ground (
  arith,
  same 0 (omega arith),
  words_of_rest xs m (suc i) (λ t l. ground (arith, same (suc t) (omega arith))),
)

pub words_at-words_of : (xs : List ℕ) → words_at (words_of xs) 0 (length xs) ≡ xs
words_at-words_of xs = words_of_rest xs (words_of xs) 0 (λ t l. ap (words_of xs) (omega arith))

pub append_parts :
    (xs us ys vs : List ℕ) → xs ++ ys ≡ us ++ vs → length xs ≡ length us → (xs ≡ us) × (ys ≡ vs)
append_parts [] [] ys vs e l = (refl, e)
append_parts [] (u ∷ us) ys vs e l = absurd (omega arith)
append_parts (x ∷ xs) [] ys vs e l = absurd (omega arith)
append_parts (x ∷ xs) (u ∷ us) ys vs e l =
    let (same, rest) = append_parts xs us ys vs (ground arith) (omega arith) in (ground arith, rest)

-- A stretch that holds two lists holds the first in front and the second behind, from `j` on.
pub words_at_split :
    (m : ℕ → ℕ) (i j n : ℕ) (us vs : List ℕ)
    → j ≡ i + length us
    → words_at m i n ≡ us ++ vs
    → (words_at m i (length us) ≡ us)
      × (words_at m j (length vs) ≡ vs)
      × (n ≡ length us + length vs)
words_at_split m i j n us vs at e =
    let count : n ≡ length us + length vs =
      sym (length-words_at m i n) ∙ ap length e ∙ length-append us vs in
    let (front, behind) =
      append_parts (words_at m i (length us)) us (words_at m (i + length us) (length vs)) vs
        (sym (words_at_add m i (length us) (length vs)) ∙ ap (words_at m i) (sym count) ∙ e)
        (length-words_at m i (length us)) in
    (front, rw at behind, count)

pub words_at_join :
    (m : ℕ → ℕ) (i j n : ℕ) (us vs : List ℕ)
    → j ≡ i + length us
    → n ≡ length us + length vs
    → words_at m i (length us) ≡ us
    → words_at m j (length vs) ≡ vs
    → words_at m i n ≡ us ++ vs
words_at_join m i j n us vs at count a b =
    ap (words_at m i) count ∙ words_at_add m i (length us) (length vs) ∙ rw (a, rw at at b) refl

-- The words between two others are taken out.
pub blit_cut :
    (m : ℕ → ℕ) (len start end : ℕ) (a b c : List ℕ)
    → start ≡ length a
    → end ≡ length a + length b
    → words_at m 0 len ≡ a ++ (b ++ c)
    → words_at (blit m start m end (len - end)) 0 (len - length b) ≡ a ++ c
blit_cut m len start end a b c at at' e =
    let (at_a, at_bc, n) = words_at_split m 0 start len a (b ++ c) (omega arith) e in
    let (at_b, at_c, n') = words_at_split m start end (length (b ++ c)) b c (omega arith) at_bc in
    let rest : len - end ≡ length c = omega (arith, n, n') in
    rw rest (
      words_at_join (blit m start m end (length c)) 0 start (len - length b) a c (omega arith)
        (omega (arith, n, n'))
        (words_at-blit_below m start m end (length c) 0 (length a) (omega arith) ∙ at_a)
        (words_at-blit m start m end (length c) ∙ at_c))

-- And put in between.
pub blit_paste :
    (m p : ℕ → ℕ) (len pos : ℕ) (a b c : List ℕ)
    → pos ≡ length a
    → words_at m 0 len ≡ a ++ c
    → words_at p 0 (length b) ≡ b
    → let moved = blit m (pos + length b) m pos (len - pos) in
      words_at (blit moved pos p 0 (length b)) 0 (len + length b) ≡ a ++ (b ++ c)
blit_paste m p len pos a b c at e at_b =
    let (at_a, at_c, n) = words_at_split m 0 pos len a c (omega arith) e in
    let rest : len - pos ≡ length c = omega (arith, n) in
    let moved = blit m (pos + length b) m pos (length c) in
    let r = blit moved pos p 0 (length b) in
    let low =
      words_at-blit_below moved pos p 0 (length b) 0 (length a) (omega arith)
      ∙ words_at-blit_below m (pos + length b) m pos (length c) 0 (length a) (omega arith)
      ∙ at_a in
    let high =
      words_at-blit_above moved pos p 0 (length b) (pos + length b) (length c) (omega arith)
      ∙ words_at-blit m (pos + length b) m pos (length c)
      ∙ at_c in
    let size : length (b ++ c) ≡ length b + length c = length-append b c in
    rw rest (
      words_at_join r 0 pos (len + length b) a (b ++ c) (omega arith) (omega (arith, n, size)) low (
        words_at_join r pos (pos + length b) (length (b ++ c)) b c refl size
          (words_at-blit moved pos p 0 (length b) ∙ at_b) high))
