-- ===== src/Array/Push.antt =====
-- `push` and `unshift` on well-formed arrays.
use mquickjs.Base.{
  ℕ, ◌+◌, ◌≤◌, ◌<◌, ◌≡◌, refl, ◌∙◌, ◌⊎◌, inl, inr, Bool, true, false, Option, none, some, List, [],
  length, arith, Bool-cases, ltb,
}
use mquickjs.Value.{new_short_int}
use mquickjs.Props.Create.{Memory, ValueArray, resized, js_resize_value_array2}
use mquickjs.Props.Create.Fresh.{Refused, Granted, grow_array_cases}
use mquickjs.Lock.{flag_extensible, has_flag}
use mquickjs.Array.{
  with_words, Array, place_args, table_words, js_resize_value_array, js_array_push, Pushed, pushed,
  not_extensible, invalid_length, no_memory, js_shortint_max,
}
use mquickjs.Base.Slices.{words_at, words_at-cong}
use mquickjs.Array.Laws.{room, IsArray, elements, place_args_list, no_args, joined}

resized_room : (old_size n : ℕ) → n ≤ resized old_size n 0
unfolding resized
resized_room old_size n = ground arith

-- The table holds `n` words, or the allocator grants those of a larger one.
abbrev pub Enough : Memory → Option ValueArray → ℕ → Type 0
Enough mem tab n = (n ≤ room tab) ⊎ Granted mem (resized (room tab) n 0)

-- It holds fewer, and the allocator refuses the larger one.
abbrev pub Lacking : Memory → Option ValueArray → ℕ → Type 0
Lacking mem tab n = (room tab < n) × Refused mem (resized (room tab) n 0)

abbrev Resized : Memory → Option ValueArray → ℕ → Option (Option ValueArray) → Type 0
Resized mem tab n r =
    ((r ≡ none) × Lacking mem tab n)
    ⊎ ((tab' : Option ValueArray) × (r ≡ some tab')
        × (n ≤ room tab')
        × ((i : ℕ) → i < room tab → table_words tab' i ≡ table_words tab i)
        × Enough mem tab n)

-- A table that has to grow keeps its words.
resize_none : (mem : Memory) (n : ℕ) → Resized mem none n (js_resize_value_array mem none n)
unfolding js_resize_value_array2
resize_none mem n =
    let old : ValueArray = record { size = 0; arr = mem.junk } in
    elim (Bool-cases (ltb 0 n)) [
      | inr enough ↦
          inr (none, rw enough refl, ground arith, λ i l. absurd (omega arith), inl (ground arith))
      | inl more ↦ elim (grow_array_cases mem old n 0) [
        | inl (e, r) ↦ inl (rw (more, e) refl, (ground arith, r))
        | inr (w, e, size, fits, same) ↦ inr (
          some w,
          rw (more, e) refl,
          omega (arith, resized_room 0 n, size),
          λ i l. absurd (omega arith),
          inr fits,
        )
      ]
    ]

resize_some :
    (mem : Memory) (v : ValueArray) (n : ℕ)
    → Resized mem (some v) n (js_resize_value_array mem (some v) n)
unfolding js_resize_value_array2
resize_some mem v n = elim (Bool-cases (ltb v.size n)) [
  | inr enough ↦ inr (some v, rw enough refl, ground arith, λ i l. refl, inl (ground arith))
  | inl more ↦ elim (grow_array_cases mem v n 0) [
    | inl (e, r) ↦ inl (rw (more, e) refl, (ground arith, r))
    | inr (w, e, size, fits, same) ↦
        inr (some w, rw (more, e) refl, omega (arith, resized_room v.size n, size), same, inr fits)
  ]
]

pub resize_cases :
    (mem : Memory) (tab : Option ValueArray) (n : ℕ)
    → Resized mem tab n (js_resize_value_array mem tab n)
resize_cases mem none n = resize_none mem n
resize_cases mem (some v) n = resize_some mem v n

-- What js_array_push answers.
abbrev pub PushOutcome : Memory → Array → List ℕ → Bool → Pushed → Type 0
PushOutcome mem a xs is_unshift r =
    ((has_flag a.obj_flags flag_extensible ≡ false) × (r ≡ not_extensible))
    ⊎ ((has_flag a.obj_flags flag_extensible ≡ true)
        × (js_shortint_max < a.len + length xs)
        × (r ≡ invalid_length))
    ⊎ ((has_flag a.obj_flags flag_extensible ≡ true)
        × (a.len + length xs ≤ js_shortint_max)
        × Lacking mem a.tab (a.len + length xs)
        × (r ≡ no_memory))
    ⊎ ((has_flag a.obj_flags flag_extensible ≡ true)
        × (a.len + length xs ≤ js_shortint_max)
        × Enough mem a.tab (a.len + length xs)
        × (b : Array) × (r ≡ pushed b (new_short_int (a.len + length xs)))
        × IsArray b
        × (elements b ≡ joined is_unshift (elements a) xs)
        × (b.obj_flags ≡ a.obj_flags))

module _ (mem : Memory) (a : Array) (xs : List ℕ) (is_unshift : Bool) (inside : IsArray a)
    (may : has_flag a.obj_flags flag_extensible ≡ true)
    (short : ltb js_shortint_max (a.len + length xs) ≡ false) where
  abbrev new_len : ℕ
  new_len = a.len + length xs

  refused_push :
      js_resize_value_array mem a.tab new_len ≡ none → js_array_push mem a xs is_unshift ≡ no_memory
  unfolding js_array_push
  refused_push e = rw (may, short, e) refl

  -- No table, so no element and no argument.
  stored_none :
      js_resize_value_array mem a.tab new_len ≡ some none
      → new_len ≡ 0
      → Enough mem a.tab new_len
      → PushOutcome mem a xs is_unshift (js_array_push mem a xs is_unshift)
  unfolding js_array_push elements words_at
  stored_none e z enough =
      let no_old : a.len ≡ 0 = omega arith in
      let no_new : xs ≡ [] = no_args xs (ground arith) in
      inr (
        inr (
          inr (
            may,
            ground arith,
            enough,
            record a { len = new_len },
            rw (may, short, e) refl,
            omega (arith, z),
            rw (z, no_old, no_new) (ground arith),
            refl,
          )))

  stored_some :
      (v : ValueArray)
      → js_resize_value_array mem a.tab new_len ≡ some (some v)
      → new_len ≤ v.size
      → ((i : ℕ) → i < room a.tab → v.arr i ≡ table_words a.tab i)
      → Enough mem a.tab new_len
      → PushOutcome mem a xs is_unshift (js_array_push mem a xs is_unshift)
  unfolding js_array_push elements
  stored_some v e fits same enough =
      let old =
        words_at-cong (table_words a.tab) v.arr 0 0 a.len (λ t l. same (0 + t) (omega arith)) in
      let m = place_args is_unshift a.len xs v.arr in
      inr (
        inr (
          inr (
            may,
            ground arith,
            enough,
            record a { tab = some (with_words v m); len = new_len },
            rw (may, short, e) refl,
            fits,
            place_args_list is_unshift a.len xs v.arr ∙ rw old refl,
            refl,
          )))

-- js_array_push on a well-formed array, for push and for unshift: it refuses exactly when the object is not
-- extensible or the new length is no short integer, and fails when the table has too few words and the allocator refuses more. Otherwise
-- the array is well formed and holds the arguments behind the old elements, or before them for
-- unshift, and the new length is returned.
pub js_array_push-elements :
    (mem : Memory) (a : Array) (xs : List ℕ) (is_unshift : Bool)
    → IsArray a
    → PushOutcome mem a xs is_unshift (js_array_push mem a xs is_unshift)
unfolding js_array_push
js_array_push-elements mem a xs is_unshift inside =
    elim (Bool-cases (has_flag a.obj_flags flag_extensible)) [
      | inr closed ↦ inl (closed, rw closed refl)
      | inl may ↦ elim (Bool-cases (ltb js_shortint_max (a.len + length xs))) [
        | inl long ↦ inr (inl (may, ground arith, rw (may, long) refl))
        | inr short ↦ elim (resize_cases mem a.tab (a.len + length xs)) [
          | inl (e, r) ↦ inr (
              inr (inl (may, ground arith, r, refused_push mem a xs is_unshift inside may short e)))
          | inr (none, e, fits, same, enough) ↦
              stored_none mem a xs is_unshift inside may short e (omega arith) enough
          | inr (some v, e, fits, same, enough) ↦
              stored_some mem a xs is_unshift inside may short v e fits same enough
        ]
      ]
    ]
