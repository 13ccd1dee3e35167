-- ===== src/Array.antt =====
-- `push`, `unshift`, `pop`, `shift`, `reverse` and the change of the length of JS arrays in mquickjs.c, on
-- an object of class JS_CLASS_ARRAY.
pub mod Laws
pub mod Push
pub mod Resize
pub mod Reverse
mod Examples
use mquickjs.Base.{
  ℕ, zero, suc, ◌+◌, ◌-◌, ◌/◌, ◌^◌, bit_and, Bool, true, false, not, ◌&&◌, Option, none, some, List,
  [], ◌∷◌, length, ltb, leb, ◌==◌, if◌then◌else◌,
}
use mquickjs.Value.{js_undefined, new_short_int}
use mquickjs.Props.{Words, write}
use mquickjs.Props.Create.{Memory, ValueArray, js_resize_value_array2, move_up}
use mquickjs.Props.Delete.{flag_sealed, flag_frozen}
use mquickjs.Lock.{flag_extensible, has_flag}

-- obj_flags, u.array.tab (`none` is JS_NULL) and u.array.len
pub record Array : Type 0 where
  pub obj_flags : ℕ
  pub tab : Option ValueArray
  pub len : ℕ

abbrev pub js_shortint_max : ℕ
js_shortint_max = 2 ^ 30 - 1

abbrev pub js_resize_value_array : Memory → Option ValueArray → ℕ → Option (Option ValueArray)
js_resize_value_array mem val new_size = js_resize_value_array2 mem val new_size 0

-- for(i = 0; i < argc; i++) arr[from + i] = argv[i]
unfoldable pub put_args : ℕ → List ℕ → Words → Words
put_args from [] m = m
put_args from (x ∷ xs) m = put_args (suc from) xs (write m from x)

-- The words after the arguments are stored behind the `from` old elements, or before them.
unfoldable pub place_args : Bool → ℕ → List ℕ → Words → Words
unfolding put_args
place_args is_unshift from argv m =
    if is_unshift && ltb 0 (length argv)
    then put_args 0 argv (move_up 0 (length argv) from m)
    else put_args from argv m

pub data Pushed : Type 0 where
  pushed : Array → ℕ → Pushed
  not_extensible invalid_length no_memory : Pushed

abbrev pub with_words : ValueArray → Words → ValueArray
with_words v m = record v { arr = m }

pub js_array_push : Memory → Array → List ℕ → Bool → Pushed
unfolding place_args
js_array_push mem a argv is_unshift =
    let new_len = a.len + length argv in
    if not (has_flag a.obj_flags flag_extensible)
    then not_extensible
    else if ltb js_shortint_max new_len
    then invalid_length
    else elim (js_resize_value_array mem a.tab new_len) [
      | none ↦ no_memory
      | some none ↦ pushed (record a { len = new_len }) (new_short_int new_len)
      | some (some v) ↦
          pushed
            (record a {
              tab = some (with_words v (place_args is_unshift a.len argv v.arr));
              len = new_len;
            })
            (new_short_int new_len)
    ]

pub data Taken : Type 0 where
  taken : Array → ℕ → Taken
  not_removable : Taken

-- The words of the table; JS_NULL has none, and is not read.
abbrev pub table_words : Option ValueArray → Words
table_words none i = js_undefined
table_words (some v) i = v.arr i

pub js_array_pop : Array → Taken
js_array_pop a =
    if not (bit_and a.obj_flags (flag_sealed + flag_frozen) == 0)
    then not_removable
    else if ltb 0 a.len
    then taken (record a { len = a.len - 1 }) (table_words a.tab (a.len - 1))
    else taken a js_undefined

-- memmove of the words behind the first one
abbrev pub move_down : ℕ → Words → Words
move_down n m i = if ltb i n then m (i + 1) else m i

abbrev pub shifted : ℕ → Option ValueArray → Option ValueArray
shifted n none = none
shifted n (some v) = some (with_words v (move_down n v.arr))

pub js_array_shift : Array → Taken
js_array_shift a =
    if not (bit_and a.obj_flags (flag_sealed + flag_frozen) == 0)
    then not_removable
    else if ltb 0 a.len
    then taken (record a { tab = shifted (a.len - 1) a.tab; len = a.len - 1 }) (table_words a.tab 0)
    else taken a js_undefined

pub data Sized : Type 0 where
  sized : Array → Sized
  bad_size out_of_memory : Sized

-- js_shrink_value_array on a table that is there: a table of no word is freed, and JS_NULL.
abbrev pub js_shrink_value_array : ValueArray → ℕ → Option ValueArray
js_shrink_value_array v new_size =
    if new_size == 0 then none else some (record v { size = new_size })

-- for(i = from; i < from + n; i++) arr[i] = JS_UNDEFINED
unfoldable pub fill_undefined : ℕ → ℕ → Words → Words
fill_undefined from zero m = m
fill_undefined from (suc n) m = fill_undefined (suc from) n (write m from js_undefined)

abbrev pub filled : ℕ → ℕ → Option ValueArray → Option ValueArray
filled from n none = none
filled from n (some v) = some (with_words v (fill_undefined from n v.arr))

-- A table that loses elements.
abbrev pub cut_table : ℕ → ℕ → Option ValueArray → Option ValueArray
cut_table len new_len none = none
cut_table len new_len (some v) =
    if ltb new_len (v.size / 2) && leb 4 v.size
    then js_shrink_value_array v new_len
    else filled new_len (len - new_len) (some v)

-- `none` for a negative length.
pub js_array_resize : Memory → Array → Option ℕ → Sized
js_array_resize mem a none = bad_size
js_array_resize mem a (some new_len) =
    if ltb js_shortint_max new_len
    then bad_size
    else if ltb new_len a.len
    then sized (record a { tab = cut_table a.len new_len a.tab; len = new_len })
    else if ltb a.len new_len
    then elim (js_resize_value_array mem a.tab new_len) [
      | none ↦ out_of_memory
      | some tab ↦ sized (record a { tab = filled a.len (new_len - a.len) tab; len = new_len })
    ]
    else sized (record a { len = new_len })

abbrev pub swap : ℕ → ℕ → Words → Words
swap i j m = write (write m i (m j)) j (m i)

-- The first `k` rounds of the loop of js_reverse_val on `n` words.
unfoldable pub swaps : ℕ → ℕ → Words → Words
swaps n zero m = m
swaps n (suc k) m = swap k (n - 1 - k) (swaps n k m)

abbrev pub js_reverse_val : ℕ → Words → Words
js_reverse_val n m = swaps n (n / 2) m

abbrev pub reverse_table : ℕ → Option ValueArray → Option ValueArray
reverse_table n none = none
reverse_table n (some v) = some (with_words v (js_reverse_val n v.arr))

-- `none`: the array is frozen.
pub js_array_reverse : Array → Option Array
js_array_reverse a =
    if has_flag a.obj_flags flag_frozen
    then none
    else some (record a { tab = reverse_table a.len a.tab })
