-- ===== src/Props/Create.antt =====
-- `js_alloc_value_array`, `js_resize_value_array2`, `js_alloc_props` and `js_create_property` of
-- mquickjs.c. The allocator's answers are arguments.
pub mod Place
pub mod Extend
pub mod Fresh
pub mod Laws
use mquickjs.Base.{
  ℕ, zero, suc, ◌+◌, ◌-◌, ◌*◌, ◌/◌, ◌%◌, ◌^◌, max, Bool, true, false, not, ◌&&◌, ◌||◌, Option, none,
  some, ltb, leb, ◌==◌, if◌then◌else◌,
}
use mquickjs.Value.{js_undefined, js_uninitialized, new_short_int}
use mquickjs.Props.{
  Words, Props, write, key, hash_next, set_hash_next, set_prop_type, normal, bucket, prop_count,
  hash_mask, base, slot, clear_heads, js_rehash_props,
}

-- What the allocator answers: whether a block of so many words is granted, and what its words hold
-- before they are written.
pub record Memory : Type 0 where
  pub grants : ℕ → Bool
  pub junk : Words

abbrev pub value_array_size_max : ℕ
value_array_size_max = 2 ^ 28 - 1

-- The words of the new array; `none` is NULL, after an out of memory error.
unfoldable pub js_alloc_value_array : Memory → ℕ → ℕ → Option Words
js_alloc_value_array mem init_base new_size =
    if ltb value_array_size_max new_size || not (mem.grants new_size)
    then none
    else some (λ i. if leb init_base i then js_undefined else mem.junk i)

pub record ValueArray : Type 0 where
  pub size : ℕ
  pub arr : Words

-- The size that is asked for grows by half, and then to a whole number of slots.
unfoldable pub resized : ℕ → ℕ → ℕ → ℕ
resized old_size new_size prop_base =
    let grown = old_size + old_size / 2 in
    let align = (grown - prop_base) % 3 in
    let wanted =
      (if ltb new_size grown
        then (if not (prop_base == 0) && not (align == 0) then grown + (3 - align) else grown)
        else new_size) in
    max wanted (old_size + old_size / 2)

-- memcpy of the first `n` words
abbrev pub copy_words : ℕ → Words → Words → Words
copy_words n old new i = if ltb i n then old i else new i

-- The new array of `js_resize_value_array2`, when it has to grow; `none` is JS_EXCEPTION.
unfoldable pub grow_array : Memory → ValueArray → ℕ → ℕ → Option ValueArray
unfolding resized js_alloc_value_array
grow_array mem v new_size prop_base =
    let size = resized v.size new_size prop_base in
    elim (js_alloc_value_array mem v.size size) [
      | none ↦ none
      | some new ↦ some (record { size = size; arr = copy_words v.size v.arr new })
    ]

-- An absent array is JS_NULL, and counts as one of size 0.
unfoldable pub js_resize_value_array2 :
    Memory → Option ValueArray → ℕ → ℕ → Option (Option ValueArray)
unfolding grow_array
js_resize_value_array2 mem val new_size prop_base =
    let old : ValueArray = elim val [ none ↦ record { size = 0; arr = mem.junk } | some v ↦ v ] in
    if ltb old.size new_size
    then elim (grow_array mem old new_size prop_base) [ none ↦ none | some v ↦ some (some v) ]
    else some val

-- The leading zeros of `a` as a number of `w` digits.
leading_zeros : ℕ → ℕ → ℕ
leading_zeros zero a = 0
leading_zeros (suc k) a = let rest = leading_zeros k a in if ltb a (2 ^ k) then suc rest else 0

unfoldable pub clz32 : ℕ → ℕ
unfolding leading_zeros
clz32 a = leading_zeros 32 a

pub get_prop_hash_size_log2 : ℕ → ℕ
unfolding clz32
get_prop_hash_size_log2 count = if leb count 1 then 0 else 32 - clz32 (count - 1) - 1

-- for(i = 0; i < n; i++) the key of slot i = JS_UNINITIALIZED
pub clear_keys : ℕ → ℕ → Words → Words
clear_keys mask zero m = m
clear_keys mask (suc n) m = write (clear_keys mask n m) (slot mask n) js_uninitialized

unfoldable pub js_alloc_props : Memory → ℕ → Option Props
unfolding js_alloc_value_array get_prop_hash_size_log2 clear_keys
js_alloc_props mem n =
    let mask = 2 ^ get_prop_hash_size_log2 n - 1 in
    let first_free = 2 + mask + 1 in
    let size = first_free + 3 * n in
    elim (js_alloc_value_array mem 0 size) [
      | none ↦ none
      | some m ↦
          let heads =
            clear_heads (mask + 1) (write (write m 0 (new_short_int 0)) 1 (new_short_int mask)) in
          let keys = clear_keys mask n heads in
          some (record {
            size = size;
            arr = set_hash_next keys (slot mask (n - 1)) (first_free * 2);
            in_rom = false;
            is_empty = false;
          })
    ]

-- The property at word `first_free` with the key `prop`, the value undefined and the normal type, linked in
-- and counted; the last slot remembers where the next one goes.
unfoldable pub place : Props → ℕ → ℕ → ℕ → ℕ → Props
place p mask count first_free prop =
    let m1 = write p.arr first_free prop in
    let m2 = write m1 (first_free + 1) js_undefined in
    let m3 = set_prop_type m2 first_free normal in
    let h = bucket mask prop in
    let m4 = set_hash_next m3 first_free (m3 (2 + h)) in
    let m5 = write m4 (2 + h) (new_short_int first_free) in
    let m6 = write m5 0 (new_short_int (count + 1)) in
    let next = first_free + 3 in
    record p { arr = if ltb next p.size then set_hash_next m6 (p.size - 3) (next * 2) else m6 }

-- memmove of `n` words from `from` up to `to`
abbrev pub move_up : ℕ → ℕ → ℕ → Words → Words
move_up from to n m i = if leb to i && ltb i (to + n) then m (from + (i - to)) else m i

-- The hash table is rebuilt with twice as many heads, behind which the slots move up.
unfoldable pub widen : Props → ℕ → ℕ → ℕ → Option Props
widen p mask new_mask first_free =
    let m = move_up (base mask) (base new_mask) (first_free - base mask) p.arr in
    js_rehash_props (record p { arr = write m 1 (new_short_int new_mask) }) false

-- A table with no slot left: a larger array, and from there on `first_free` and the mask.
unfoldable pub extend : Memory → Props → ℕ → Option (Props × ℕ × ℕ)
unfolding widen grow_array js_alloc_props
extend mem p count =
    let mask = hash_mask p.arr in
    let full = ltb (2 * (mask + 1)) (count + 1) in
    let new_mask = if full then 2 * (mask + 1) - 1 else mask in
    let first_free = p.size in
    let new_size = first_free + 3 + (new_mask - mask) in
    if p.is_empty
    then elim (js_alloc_props mem 1) [ none ↦ none | some q ↦ some (q, 3, mask) ]
    else elim (grow_array mem (record { size = p.size; arr = p.arr }) new_size (base new_mask)) [
      | none ↦ none
      | some v ↦
          let q : Props = record { size = v.size; arr = v.arr; in_rom = false; is_empty = false } in
          if new_mask == mask
          then some (q, first_free, mask)
          else elim (widen q mask new_mask first_free) [
            | none ↦ none
            | some r ↦ some (r, first_free + (new_mask - mask), new_mask)
          ]
    ]

-- The new table and the word index of the new property, or `none` for NULL.
pub js_create_property : Memory → Props → ℕ → Option (Props × ℕ)
unfolding place extend
js_create_property mem p prop =
    let count = prop_count p.arr in
    let mask = hash_mask p.arr in
    let pr1 = p.size - 3 in
    if key p.arr pr1 == js_uninitialized
    then some (place p mask count (hash_next p.arr pr1 / 2) prop, hash_next p.arr pr1 / 2)
    else elim (extend mem p count) [
      | none ↦ none
      | some (q, first_free, mask') ↦
          let marked : Props = record q { arr = write q.arr (q.size - 3) js_uninitialized } in
          some (place marked mask' count first_free prop, first_free)
    ]
