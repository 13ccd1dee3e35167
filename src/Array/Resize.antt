-- ===== src/Array/Resize.antt =====
-- Setting the length of an array.
use mquickjs.Base.{
  ℕ, zero, suc, ◌+◌, ◌-◌, ◌/◌, ◌≤◌, ◌<◌, ◌≡◌, refl, ◌∙◌, ◌⊎◌, inl, inr, true, false, ◌&&◌, Option,
  none, some, List, [], ◌∷◌, arith, Bool-cases, ltb, leb, ◌==◌,
}
use native.Mathlib.Decide.{dec_lt}
use mquickjs.Value.{js_undefined}
use mquickjs.Props.{Words, write}
use mquickjs.Props.Create.{Memory, ValueArray}
use mquickjs.Array.{
  Array, Sized, sized, bad_size, out_of_memory, js_shortint_max, fill_undefined, filled, cut_table,
  table_words, js_array_resize,
}
use mquickjs.Base.Slices.{words_at}
use mquickjs.Array.Laws.{room, IsArray, elements}
use mquickjs.Array.Push.{Enough, Lacking, resize_cases}

-- The first `n` of the elements, behind which undefined stands for those that are missing.
unfoldable pub with_length : ℕ → List ℕ → List ℕ
with_length zero xs = []
with_length (suc n) [] = js_undefined ∷ with_length n []
with_length (suc n) (x ∷ xs) = x ∷ with_length n xs

fill_low : (from n : ℕ) (m : Words) (i : ℕ) → i < from → fill_undefined from n m i ≡ m i
unfolding fill_undefined
fill_low from zero m i l = refl
fill_low from (suc n) m i l =
    fill_low (suc from) n (write m from js_undefined) i (omega arith) ∙ ground arith

fill_in :
    (from n : ℕ) (m : Words) (i : ℕ)
    → from ≤ i
    → i < from + n
    → fill_undefined from n m i ≡ js_undefined
unfolding fill_undefined
fill_in from zero m i lo hi = absurd (omega arith)
fill_in from (suc n) m i lo hi = elim (Bool-cases (i == from)) [
  | inl same ↦ fill_low (suc from) n (write m from js_undefined) i (ground arith) ∙ ground arith
  | inr apart ↦ fill_in (suc from) n (write m from js_undefined) i (ground arith) (omega arith)
]

-- The words at an index below `len` are kept, and the others are undefined.
resized_words :
    (m m' : Words) (i len n : ℕ)
    → ((t : ℕ) → t < n → t < len → m' (i + t) ≡ m (i + t))
    → ((t : ℕ) → t < n → len ≤ t → m' (i + t) ≡ js_undefined)
    → words_at m' i n ≡ with_length n (words_at m i len)
unfolding words_at with_length
resized_words m m' i len zero kept new = refl
resized_words m m' i zero (suc n) kept new = ground (
  arith,
  new 0 (omega arith) (omega arith),
  resized_words m m' (suc i) zero n (λ t l h. absurd (omega arith))
      (λ t l h. ground (arith, new (suc t) (omega arith) (omega arith))),
)
resized_words m m' i (suc len) (suc n) kept new = ground (
  arith,
  kept 0 (omega arith) (omega arith),
  resized_words m m' (suc i) len n
      (λ t l h. ground (arith, kept (suc t) (omega arith) (omega arith)))
      (λ t l h. ground (arith, new (suc t) (omega arith) (omega arith))),
)

cut_room :
    (tab : Option ValueArray) (len n : ℕ)
    → len ≤ room tab
    → n < len
    → n ≤ room (cut_table len n tab)
cut_room none len n inside less = absurd (omega arith)
cut_room (some v) len n inside less = elim (Bool-cases (ltb n (v.size / 2) && leb 4 v.size)) [
  | inr whole ↦ rw whole (omega arith)
  | inl small ↦
      rw small
        (elim (Bool-cases (n == 0)) [ inl e ↦ rw e (ground arith) | inr ne ↦ rw ne (omega arith) ])
]

cut_words :
    (tab : Option ValueArray) (len n t : ℕ)
    → t < n
    → table_words (cut_table len n tab) t ≡ table_words tab t
cut_words none len n t l = refl
cut_words (some v) len n t l = elim (Bool-cases (ltb n (v.size / 2) && leb 4 v.size)) [
  | inr whole ↦ rw whole (fill_low n (len - n) v.arr t l)
  | inl small ↦ let e : (n == 0) ≡ false = ground arith in rw (small, e) refl
]

filled_room : (tab : Option ValueArray) (from n : ℕ) → room (filled from n tab) ≡ room tab
filled_room none from n = refl
filled_room (some v) from n = refl

filled_low :
    (tab : Option ValueArray) (from n t : ℕ)
    → t < from
    → table_words (filled from n tab) t ≡ table_words tab t
filled_low none from n t l = refl
filled_low (some v) from n t l = fill_low from n v.arr t l

filled_in :
    (tab : Option ValueArray) (from n t : ℕ)
    → from ≤ t
    → t < from + n
    → table_words (filled from n tab) t ≡ js_undefined
filled_in none from n t lo hi = refl
filled_in (some v) from n t lo hi = fill_in from n v.arr t lo hi

-- What js_array_resize answers for a length that is not negative.
abbrev pub ResizeOutcome : Memory → Array → ℕ → Sized → Type 0
ResizeOutcome mem a n r =
    ((js_shortint_max < n) × (r ≡ bad_size))
    ⊎ ((n ≤ js_shortint_max) × (a.len < n) × Lacking mem a.tab n × (r ≡ out_of_memory))
    ⊎ ((n ≤ js_shortint_max)
        × Enough mem a.tab n
        × (b : Array) × (r ≡ sized b)
        × IsArray b
        × (elements b ≡ with_length n (elements a))
        × (b.obj_flags ≡ a.obj_flags))

module _ (mem : Memory) (a : Array) (n : ℕ) (inside : IsArray a)
    (short : ltb js_shortint_max n ≡ false) where
  shorter : n < a.len → ResizeOutcome mem a n (js_array_resize mem a (some n))
  unfolding js_array_resize elements
  shorter less =
      let e : ltb n a.len ≡ true = ground arith in
      inr (
        inr (
          ground arith,
          inl (omega arith),
          record a { tab = cut_table a.len n a.tab; len = n },
          rw (short, e) refl,
          cut_room a.tab a.len n inside less,
          resized_words (table_words a.tab) (table_words (cut_table a.len n a.tab)) 0 a.len n
              (λ t l k. cut_words a.tab a.len n (0 + t) (omega arith))
              (λ t l h. absurd (omega arith)),
          refl,
        ))

  longer : a.len < n → ResizeOutcome mem a n (js_array_resize mem a (some n))
  unfolding js_array_resize elements
  longer more =
      let e : ltb n a.len ≡ false = ground arith in
      let e' : ltb a.len n ≡ true = ground arith in
      elim (resize_cases mem a.tab n) [
        | inl (none_left, r) ↦ inr (inl (ground arith, more, r, rw (short, e, e', none_left) refl))
        | inr (tab, run, fits, same, enough) ↦
            let count = n - a.len in
            inr (
              inr (
                ground arith,
                enough,
                record a { tab = filled a.len count tab; len = n },
                rw (short, e, e', run) refl,
                rw (filled_room tab a.len count) fits,
                resized_words (table_words a.tab) (table_words (filled a.len count tab)) 0 a.len n
                    (λ t l k.
                      filled_low tab a.len count (0 + t) (omega arith) ∙ same (0 + t) (omega arith))
                    (λ t l h. filled_in tab a.len count (0 + t) (omega arith) (omega arith)),
                refl,
              ))
      ]

  as_long : a.len ≡ n → ResizeOutcome mem a n (js_array_resize mem a (some n))
  unfolding js_array_resize elements
  as_long same =
      let e : ltb n a.len ≡ false = ground arith in
      let e' : ltb a.len n ≡ false = ground arith in
      inr (
        inr (
          ground arith,
          inl (omega arith),
          record a { len = n },
          rw (short, e, e') refl,
          omega arith,
          resized_words (table_words a.tab) (table_words a.tab) 0 a.len n (λ t l k. refl)
              (λ t l h. absurd (omega arith)),
          refl,
        ))

-- js_array_resize of a well-formed array to a length that is not negative: it refuses a length that is
-- no short integer, and fails exactly when it has to grow, the table has too few words and the allocator refuses more.
-- Otherwise the array is well formed and
-- has that length: its first elements are kept, and undefined stands for those that were missing.
pub js_array_resize-elements :
    (mem : Memory) (a : Array) (n : ℕ)
    → IsArray a
    → ResizeOutcome mem a n (js_array_resize mem a (some n))
unfolding js_array_resize
js_array_resize-elements mem a n inside = elim (Bool-cases (ltb js_shortint_max n)) [
  | inl long ↦ inl (ground arith, rw long refl)
  | inr short ↦ elim (dec_lt n a.len) [
    | yes less ↦ shorter mem a n inside short less
    | no ge ↦ elim (dec_lt a.len n) [
      | yes more ↦ longer mem a n inside short more
      | no le ↦ as_long mem a n inside short (omega arith)
    ]
  ]
]
