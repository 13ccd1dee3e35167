-- ===== src/Props/Create/Fresh.antt =====
-- New arrays: what `js_alloc_value_array` and `js_resize_value_array2` hand out, and the empty table of
-- `js_alloc_props`.
use mquickjs.Base.{
  ℕ, zero, suc, ◌+◌, ◌-◌, ◌*◌, ◌/◌, ◌%◌, ◌^◌, ◌≤◌, ◌<◌, ◌≡◌, refl, ◌∙◌, ◌⊎◌, inl, inr, true, false,
  none, some, arith, Bool-cases, leb, ltb, if◌then◌else◌,
}
use native.Mathlib.Nat.{one-le-pow}
use mquickjs.Value.{js_undefined, js_uninitialized, new_short_int}
use mquickjs.Props.{
  Words, Props, write, set_hash_next, prop_count, hash_mask, base, slot, slots, clear_heads,
  get_first_free,
}
use mquickjs.Props.Chain.{IsLinked, last, count_live}
use mquickjs.Props.Rehash.{clear_heads_at}
use mquickjs.Props.Table.{IsTable}
use mquickjs.Props.Create.{
  Memory, ValueArray, value_array_size_max, resized, js_alloc_value_array, grow_array, clear_keys,
  get_prop_hash_size_log2, js_alloc_props,
}
use mquickjs.Props.Create.Place.{IsReady}

-- The allocator does not hand out an array of `size` words.
abbrev pub Refused : Memory → ℕ → Type 0
Refused mem size = (value_array_size_max < size) ⊎ (mem.grants size ≡ false)

-- It does.
abbrev pub Granted : Memory → ℕ → Type 0
Granted mem size = (size ≤ value_array_size_max) × (mem.grants size ≡ true)

pub js_alloc_value_array_cases :
    (mem : Memory) (init_base size : ℕ)
    → ((js_alloc_value_array mem init_base size ≡ none) × Refused mem size)
      ⊎ ((m : Words) × (js_alloc_value_array mem init_base size ≡ some m) × Granted mem size)
unfolding js_alloc_value_array
js_alloc_value_array_cases mem init_base size = elim (Bool-cases (ltb value_array_size_max size)) [
  | inl big ↦ inl (rw big, inl (ground arith))
  | inr fits ↦ elim (Bool-cases (mem.grants size)) [
    | inl yes_granted ↦ inr (
      (λ i. if leb init_base i then js_undefined else mem.junk i),
      rw (fits, yes_granted),
      (ground arith, yes_granted),
    )
    | inr refused ↦ inl (rw (fits, refused), inr refused)
  ]
]

pub grow_array_cases :
    (mem : Memory) (v : ValueArray) (new_size prop_base : ℕ)
    → let size = resized v.size new_size prop_base in
      ((grow_array mem v new_size prop_base ≡ none) × Refused mem size)
      ⊎ ((w : ValueArray) × (grow_array mem v new_size prop_base ≡ some w)
          × (w.size ≡ size)
          × Granted mem size
          × ((i : ℕ) → i < v.size → w.arr i ≡ v.arr i))
unfolding grow_array
grow_array_cases mem v new_size prop_base =
    elim (js_alloc_value_array_cases mem v.size (resized v.size new_size prop_base)) [
      | inl (e, r) ↦ inl (rw (e, grow_array), r)
      | inr (m, e, fits) ↦ inr (
        record {
          size = resized v.size new_size prop_base;
          arr = λ i. if ltb i v.size then v.arr i else m i;
        },
        rw (e, grow_array),
        refl,
        fits,
        λ i l. ground arith,
      )
    ]

clear_keys_low : (mask n : ℕ) (m : Words) (j : ℕ) → j < base mask → clear_keys mask n m j ≡ m j
unfolding clear_keys
clear_keys_low mask zero m j lo = refl
clear_keys_low mask (suc n) m j lo = ground (arith, clear_keys_low mask n m j lo)

clear_keys_last :
    (mask n : ℕ) (m : Words) → clear_keys mask (suc n) m (slot mask n) ≡ js_uninitialized
unfolding clear_keys
clear_keys_last mask n m = ground arith

-- The words that `js_alloc_props` writes into a new array `m`.
abbrev fresh : ℕ → ℕ → Words → Words
fresh mask n m =
    set_hash_next
      (clear_keys mask n
        (clear_heads (mask + 1) (write (write m 0 (new_short_int 0)) 1 (new_short_int mask))))
      (slot mask (n - 1)) ((2 + mask + 1) * 2)

abbrev fresh_props : ℕ → ℕ → Words → Props
fresh_props mask n m = record {
  size = 2 + mask + 1 + 3 * n;
  arr = fresh mask n m;
  in_rom = false;
  is_empty = false;
}

pub first_free_link :
    (p : Props)
    → p.arr (p.size - 3) ≡ js_uninitialized
    → get_first_free p ≡ p.arr (p.size - 3 + 2) % 2 ^ 30 / 2
unfolding get_first_free
first_free_link p e = rw e

module _ (mask k : ℕ) (m : Words) (fits : 2 + mask + 1 + 3 * suc k ≤ value_array_size_max) where
  abbrev f : Words
  f = fresh mask (suc k) m

  abbrev headed : Words
  headed = write (write m 0 (new_short_int 0)) 1 (new_short_int mask)

  fresh_low : (j : ℕ) → j < base mask → f j ≡ clear_heads (mask + 1) headed j
  fresh_low j lo = ground (arith, clear_keys_low mask (suc k) (clear_heads (mask + 1) headed) j lo)

  fresh_mask : hash_mask f ≡ mask
  fresh_mask = ground (arith, fresh_low 1, clear_heads_at (mask + 1) headed 1)

  fresh_count : prop_count f ≡ 0
  fresh_count = ground (arith, fresh_low 0, clear_heads_at (mask + 1) headed 0)

  fresh_IsLinked : IsLinked f mask 0
  unfolding last
  fresh_IsLinked = record {
    heads = λ h le. ground (arith, fresh_low (2 + h), clear_heads_at (mask + 1) headed (2 + h));
    links = λ s l a. absurd (omega arith);
  }

  fresh_last : f (2 + mask + 1 + 3 * suc k - 3) ≡ js_uninitialized
  fresh_last =
      let e : 2 + mask + 1 + 3 * suc k - 3 ≡ slot mask k = omega arith in
      rw e (ground (arith, clear_keys_last mask k (clear_heads (mask + 1) headed)))

  fresh_link : f (2 + mask + 1 + 3 * suc k - 3 + 2) % 2 ^ 30 ≡ slot mask 0 * 2
  fresh_link =
      let e : 2 + mask + 1 + 3 * suc k - 3 ≡ slot mask (suc k - 1) = omega arith in
      rw e (ground arith)

  fresh_free : get_first_free (fresh_props mask (suc k) m) ≡ slot mask 0
  unfolding get_first_free
  fresh_free = first_free_link (fresh_props mask (suc k) m) fresh_last ∙ ground (arith, fresh_link)

  fresh-IsReady : IsReady (fresh_props mask (suc k) m) 0
  fresh-IsReady = record {
    linked = rw fresh_mask fresh_IsLinked;
    aligned = rw fresh_mask (omega arith);
    fits = rw fresh_mask (omega arith);
    small = omega arith;
    marked = fresh_last;
    owned = refl;
  }

  fresh-IsTable : IsTable (fresh_props mask (suc k) m) 0
  unfolding count_live
  fresh-IsTable = record {
    shape = record {
      counted = fresh_count;
      aligned = rw fresh_mask (omega arith);
      heads_alone = rw fresh_mask (omega arith);
      fits = rw fresh_mask (omega arith);
      small = omega arith;
      blank = λ b. cc b;
    };
    linked = rw fresh_mask fresh_IsLinked;
    free = rw fresh_mask fresh_free;
    room = λ e. rw fresh_mask (omega arith);
  }

-- The words of a table with room for `n` properties.
abbrev pub table_size : ℕ → ℕ
table_size n = 2 + (2 ^ get_prop_hash_size_log2 n - 1) + 1 + 3 * n

-- `js_alloc_props` of at least one property gives an empty well-formed table with all its slots free
-- when the allocator grants the words of that table, and NULL when it refuses them.
pub js_alloc_props-IsTable :
    (mem : Memory) (n : ℕ)
    → 1 ≤ n
    → ((js_alloc_props mem n ≡ none) × Refused mem (table_size n))
      ⊎ ((q : Props) × (js_alloc_props mem n ≡ some q)
          × Granted mem (table_size n)
          × (q.size ≡ table_size n)
          × IsTable q 0
          × IsReady q 0
          × (slots q.size (hash_mask q.arr) ≡ n)
          × (hash_mask q.arr + 1 ≡ 2 ^ get_prop_hash_size_log2 n))
unfolding js_alloc_props
js_alloc_props-IsTable mem zero some_n = absurd (omega arith)
js_alloc_props-IsTable mem (suc k) some_n =
    let mask = 2 ^ get_prop_hash_size_log2 (suc k) - 1 in
    let size = 2 + mask + 1 + 3 * suc k in
    elim (js_alloc_value_array_cases mem 0 size) [
      | inl (e, r) ↦ inl (rw (e, js_alloc_props), r)
      | inr (m, e, granted) ↦
          let fits = granted.0 in
          let eq = fresh_mask mask k m fits in
          inr (
            fresh_props mask (suc k) m,
            rw (e, js_alloc_props),
            granted,
            refl,
            fresh-IsTable mask k m fits,
            fresh-IsReady mask k m fits,
            rw eq (omega arith),
            rw eq (omega (arith, one-le-pow (get_prop_hash_size_log2 (suc k)) 2)),
          )
    ]
