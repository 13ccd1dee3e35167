-- ===== src/Array/Reverse.antt =====
-- Reversing an array in place.
use mquickjs.Base.{
  ℕ, zero, suc, ◌+◌, ◌-◌, ◌/◌, ◌≤◌, ◌<◌, ◌≡◌, ◌≢◌, refl, ◌∙◌, ◌⊎◌, inl, inr, true, false, ◌||◌,
  Option, none, some, List, [], ◌∷◌, ◌++◌, arith, Bool-cases, ltb, if◌then◌else◌,
}
use native.Mathlib.Decide.{ℕ_discrete}
use mquickjs.Props.{Words}
use mquickjs.Props.Create.{ValueArray}
use mquickjs.Props.Delete.{flag_frozen}
use mquickjs.Lock.{has_flag}
use mquickjs.Array.{
  Array, swap, swaps, js_reverse_val, reverse_table, table_words, js_array_reverse,
}
use mquickjs.Base.Slices.{words_at, words_at_last}
use mquickjs.Array.Laws.{room, IsArray, elements}

unfoldable pub reversed : List ℕ → List ℕ
reversed [] = []
reversed (x ∷ xs) = reversed xs ++ (x ∷ [])

-- After `k` rounds the word at `t` is that of the other side, if it is one of the `k` outer ones.
abbrev outer : ℕ → ℕ → ℕ → Words → ℕ
outer n k t m = if ltb t k || ltb (n - 1 - t) k then m (n - 1 - t) else m t

swap_first : (i j : ℕ) (m : Words) → i ≢ j → swap i j m i ≡ m j
swap_first i j m ne = ground arith

swap_second : (i j : ℕ) (m : Words) → swap i j m j ≡ m i
swap_second i j m = ground arith

swap_other : (i j t : ℕ) (m : Words) → t ≢ i → t ≢ j → swap i j m t ≡ m t
swap_other i j t m a b = ground arith

outer_other :
    (n k t : ℕ) (m : Words) → t < n → t ≢ k → t ≢ n - 1 - k → outer n k t m ≡ outer n (suc k) t m
outer_other n k t m l a b =
    let e : ltb t (suc k) ≡ ltb t k = ground arith in
    let e' : ltb (n - 1 - t) (suc k) ≡ ltb (n - 1 - t) k = ground arith in rw (e, e') refl

outer_inner : (n k t : ℕ) (m : Words) → k ≤ t → t < n - k → outer n k t m ≡ m t
outer_inner n k t m lo hi =
    let e : ltb t k ≡ false = ground arith in
    let e' : ltb (n - 1 - t) k ≡ false = ground arith in rw (e, e') refl

swapped : (n k t : ℕ) (m : Words) → k ≤ n / 2 → t < n → swaps n k m t ≡ outer n k t m
unfolding swaps
swapped n zero t m le l =
    let e : ltb t 0 ≡ false = ground arith in
    let e' : ltb (n - 1 - t) 0 ≡ false = ground arith in rw (e, e') refl
swapped n (suc k) t m le l =
    let j = n - 1 - k in
    let below = swaps n k m in
    elim (ℕ_discrete t k) [
      | yes same ↦
          let e : ltb k (suc k) ≡ true = ground arith in
          rw same (
            swap_first k j below (omega arith)
            ∙ swapped n k j m (omega arith) (omega arith)
            ∙ outer_inner n k j m (omega arith) (omega arith)
            ∙ rw e refl)
      | no ne ↦ elim (ℕ_discrete t j) [
        | yes same ↦
            let back : n - 1 - (n - 1 - k) ≡ k = omega arith in
            let e : ltb k (suc k) ≡ true = ground arith in
            let e' : ltb (n - 1 - k) (suc k) ≡ false = ground arith in
            rw same (
              swap_second k j below
              ∙ swapped n k k m (omega arith) (omega arith)
              ∙ outer_inner n k k m (omega arith) (omega arith)
              ∙ rw (back, e, e') refl)
        | no apart ↦
            swap_other k j t below ne apart
            ∙ swapped n k t m (omega arith) l
            ∙ outer_other n k t m l ne apart
      ]
    ]

all_swapped : (n t : ℕ) (m : Words) → t < n → js_reverse_val n m t ≡ m (n - 1 - t)
all_swapped n t m l = ground (arith, swapped n (n / 2) t m)

words_at-reversed :
    (m m' : Words) (i j n : ℕ)
    → ((t : ℕ) → t < n → m' (j + t) ≡ m (i + (n - 1 - t)))
    → words_at m' j n ≡ reversed (words_at m i n)
unfolding words_at reversed
words_at-reversed m m' i j zero same = refl
words_at-reversed m m' i j (suc n) same =
    words_at_last m' j n
    ∙ rw
        (
          words_at-reversed m m' (suc i) j n (λ t l. ground (arith, same t (omega arith))),
          same n (omega arith),
        )
        (ground arith)

reverse_words :
    (tab : Option ValueArray) (n t : ℕ)
    → n ≤ room tab
    → t < n
    → table_words (reverse_table n tab) (0 + t) ≡ table_words tab (0 + (n - 1 - t))
reverse_words none n t inside l = absurd (omega arith)
reverse_words (some v) n t inside l =
    let e : 0 + t ≡ t = omega arith in
    let e' : 0 + (n - 1 - t) ≡ n - 1 - t = omega arith in rw (e, e') (all_swapped n t v.arr l)

reverse_room : (tab : Option ValueArray) (n : ℕ) → room (reverse_table n tab) ≡ room tab
reverse_room none n = refl
reverse_room (some v) n = refl

-- js_array_reverse on a well-formed array refuses with the flag FROZEN, and only then. Otherwise the array is well
-- formed and holds its elements in the opposite order.
pub js_array_reverse-elements :
    (a : Array)
    → IsArray a
    → ((has_flag a.obj_flags flag_frozen ≡ true) × (js_array_reverse a ≡ none))
      ⊎ ((has_flag a.obj_flags flag_frozen ≡ false)
          × (b : Array) × (js_array_reverse a ≡ some b)
          × IsArray b
          × (elements b ≡ reversed (elements a))
          × (b.obj_flags ≡ a.obj_flags))
unfolding js_array_reverse elements
js_array_reverse-elements a inside = elim (Bool-cases (has_flag a.obj_flags flag_frozen)) [
  | inl frozen ↦ inl (frozen, rw frozen refl)
  | inr free ↦ inr (
    free,
    record a { tab = reverse_table a.len a.tab },
    rw free refl,
    rw (reverse_room a.tab a.len) inside,
    words_at-reversed (table_words a.tab) (table_words (reverse_table a.len a.tab)) 0 0 a.len
        (λ t l. reverse_words a.tab a.len t inside l),
    refl,
  )
]
