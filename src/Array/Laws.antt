-- ===== src/Array/Laws.antt =====
-- Arrays as lists of their elements.
use mquickjs.Base.{
  ℕ, suc, ◌+◌, ◌-◌, ◌≤◌, ◌<◌, ◌≡◌, refl, sym, ap, ◌∙◌, ◌≢◌, ◌⊎◌, inl, inr, Bool, true, false,
  bit_and, Option, none, some, List, [], ◌∷◌, ◌++◌, length, arith, Bool-cases, ltb, if◌then◌else◌,
}
use native.Mathlib.Decide.{ℕ_discrete}
use mquickjs.Value.{js_undefined}
use mquickjs.Props.{Words, write}
use mquickjs.Props.Create.{ValueArray, move_up}
use mquickjs.Props.Delete.{flag_sealed, flag_frozen}
use mquickjs.Base.Slices.{words_at, words_at-cong, words_at_last, words_at_add}
use mquickjs.Array.{
  Array, taken, not_removable, put_args, place_args, table_words, js_array_pop, js_array_shift,
  shifted,
}

-- The words that the table holds, and a well-formed array: its elements lie in the table.
abbrev pub room : Option ValueArray → ℕ
room none = 0
room (some v) = v.size

abbrev pub IsArray : Array → Type 0
IsArray a = a.len ≤ room a.tab

-- What an array stands for.
unfoldable pub elements : Array → List ℕ
unfolding words_at
elements a = words_at (table_words a.tab) 0 a.len

put_args_low : (from : ℕ) (xs : List ℕ) (m : Words) (i : ℕ) → i < from → put_args from xs m i ≡ m i
unfolding put_args
put_args_low from [] m i l = refl
put_args_low from (x ∷ xs) m i l =
    put_args_low (suc from) xs (write m from x) i (omega arith) ∙ ground arith

put_args_high :
    (from : ℕ) (xs : List ℕ) (m : Words) (i : ℕ) → from + length xs ≤ i → put_args from xs m i ≡ m i
unfolding put_args
put_args_high from [] m i l = refl
put_args_high from (x ∷ xs) m i l =
    put_args_high (suc from) xs (write m from x) i (omega arith) ∙ ground arith

put_args_list :
    (from : ℕ) (xs : List ℕ) (m : Words) → words_at (put_args from xs m) from (length xs) ≡ xs
unfolding put_args words_at
put_args_list from [] m = refl
put_args_list from (x ∷ xs) m =
    let first = put_args_low (suc from) xs (write m from x) from (omega arith) in
    ground (arith, first, put_args_list (suc from) xs (write m from x))

behind :
    (n : ℕ) (xs : List ℕ) (m : Words)
    → words_at (put_args n xs m) 0 (n + length xs) ≡ words_at m 0 n ++ xs
behind n xs m =
    let e : 0 + n ≡ n = omega arith in
    let low =
      words_at-cong m (put_args n xs m) 0 0 n (λ t l. put_args_low n xs m (0 + t) (omega arith)) in
    let parts = rw e at (words_at_add (put_args n xs m) 0 n (length xs)) in
    parts ∙ rw (low, put_args_list n xs m) refl

before :
    (n : ℕ) (xs : List ℕ) (m : Words)
    → words_at (put_args 0 xs (move_up 0 (length xs) n m)) 0 (n + length xs) ≡ xs ++ words_at m 0 n
before n xs m =
    let moved = move_up 0 (length xs) n m in
    let swap : n + length xs ≡ length xs + n = omega arith in
    let e : 0 + length xs ≡ length xs = omega arith in
    let high =
      words_at-cong m (put_args 0 xs moved) 0 (length xs) n
        (λ t l. put_args_high 0 xs moved (length xs + t) (omega arith) ∙ ground arith) in
    let parts = rw e at (words_at_add (put_args 0 xs moved) 0 (length xs) n) in
    rw swap (parts ∙ rw (high, put_args_list 0 xs moved) refl)

nothing_more : (xs : List ℕ) → xs ++ [] ≡ xs
nothing_more [] = refl
nothing_more (x ∷ xs) = ap (λ ys. x ∷ ys) (nothing_more xs)

pub no_args : (xs : List ℕ) → ltb 0 (length xs) ≡ false → xs ≡ []
no_args [] e = refl
no_args (x ∷ xs) e = absurd (ground arith)

abbrev pub joined : Bool → List ℕ → List ℕ → List ℕ
joined is_unshift old new = if is_unshift then new ++ old else old ++ new

-- The new elements stand behind the old ones, or before them.
pub place_args_list :
    (is_unshift : Bool) (n : ℕ) (xs : List ℕ) (m : Words)
    → words_at (place_args is_unshift n xs m) 0 (n + length xs)
      ≡ joined is_unshift (words_at m 0 n) xs
unfolding place_args
place_args_list false n xs m = behind n xs m
place_args_list true n xs m = elim (Bool-cases (ltb 0 (length xs))) [
  | inl more ↦ rw more (before n xs m)
  | inr none_new ↦
      rw none_new (behind n xs m ∙ rw (no_args xs none_new) (nothing_more (words_at m 0 n)))
]

-- Array.prototype.pop: with the flag SEALED or FROZEN, and only then, it refuses, and of an array without elements it
-- gives undefined. Otherwise it takes the last element away and gives it.
pub js_array_pop-elements :
    (a : Array)
    → ((bit_and a.obj_flags (flag_sealed + flag_frozen) ≢ 0) × (js_array_pop a ≡ not_removable))
      ⊎ ((bit_and a.obj_flags (flag_sealed + flag_frozen) ≡ 0)
          × (elements a ≡ [])
          × (js_array_pop a ≡ taken a js_undefined))
      ⊎ ((bit_and a.obj_flags (flag_sealed + flag_frozen) ≡ 0)
          × (b : Array) × (x : ℕ) × (js_array_pop a ≡ taken b x)
          × (elements a ≡ elements b ++ (x ∷ []))
          × (b.obj_flags ≡ a.obj_flags))
unfolding js_array_pop elements
js_array_pop-elements a = elim (ℕ_discrete (bit_and a.obj_flags (flag_sealed + flag_frozen)) 0) [
  | no ne ↦ inl (ne, ground (arith, ne))
  | yes unlocked ↦ elim (ℕ_discrete a.len 0) [
    | yes e ↦ inr (inl (unlocked, ground (arith, e), ground (arith, e)))
    | no some_left ↦
        let b : Array = record a { len = a.len - 1 } in
        let e : a.len ≡ suc (a.len - 1) = omega arith in
        inr (
          inr (
            unlocked,
            b,
            table_words a.tab (a.len - 1),
            ground (arith, unlocked),
            ap (words_at (table_words a.tab) 0) e
                ∙ ground (arith, words_at_last (table_words a.tab) 0 (a.len - 1)),
            refl,
          ))
  ]
]

shifted_words :
    (tab : Option ValueArray) (n t : ℕ)
    → 0 < room tab
    → t < n
    → table_words (shifted n tab) (0 + t) ≡ table_words tab (suc 0 + t)
shifted_words none n t there l = absurd (omega arith)
shifted_words (some v) n t there l = ground arith

-- Array.prototype.shift: as pop, at the other end.
pub js_array_shift-elements :
    (a : Array)
    → IsArray a
    → ((bit_and a.obj_flags (flag_sealed + flag_frozen) ≢ 0) × (js_array_shift a ≡ not_removable))
      ⊎ ((bit_and a.obj_flags (flag_sealed + flag_frozen) ≡ 0)
          × (elements a ≡ [])
          × (js_array_shift a ≡ taken a js_undefined))
      ⊎ ((bit_and a.obj_flags (flag_sealed + flag_frozen) ≡ 0)
          × (b : Array) × (x : ℕ) × (js_array_shift a ≡ taken b x)
          × (elements a ≡ x ∷ elements b)
          × (b.obj_flags ≡ a.obj_flags))
unfolding js_array_shift elements words_at
js_array_shift-elements a inside =
    elim (ℕ_discrete (bit_and a.obj_flags (flag_sealed + flag_frozen)) 0) [
      | no ne ↦ inl (ne, ground (arith, ne))
      | yes unlocked ↦ elim (ℕ_discrete a.len 0) [
        | yes e ↦ inr (inl (unlocked, ground (arith, e), ground (arith, e)))
        | no some_left ↦
            let b : Array = record a { tab = shifted (a.len - 1) a.tab; len = a.len - 1 } in
            let e : a.len ≡ suc (a.len - 1) = omega arith in
            inr (
              inr (
                unlocked,
                b,
                table_words a.tab 0,
                ground (arith, unlocked),
                ap (words_at (table_words a.tab) 0) e
                    ∙ ap (λ xs. table_words a.tab 0 ∷ xs)
                        (sym (
                          words_at-cong (table_words a.tab) (table_words b.tab) (suc 0) 0
                            (a.len - 1)
                            (λ t l. shifted_words a.tab (a.len - 1) t (omega arith) l))),
                refl,
              ))
      ]
    ]
