-- ===== src/Props.antt =====
-- The property tables of objects in mquickjs.c: an array of words that holds the number of
-- properties, the hash mask, the heads of the hash chains and slots of three words (key, value,
-- link and type). `idx` in a head or a link is twice the index of a slot's first word.
pub mod Chain
pub mod Same
pub mod Rehash
pub mod Table
pub mod Create
pub mod Compact
pub mod Delete
mod Examples
use mquickjs.Base.{
  ℕ, zero, suc, ◌+◌, ◌-◌, ◌*◌, ◌/◌, ◌%◌, ◌^◌, min, max, bit_and, bit_xor, Bool, true, false, not,
  ◌&&◌, ◌||◌, Option, none, some, ltb, leb, ◌==◌, if◌then◌else◌,
}
use mquickjs.Value.{jsw, js_undefined, js_uninitialized, new_short_int, get_int}

abbrev pub Words : Type 0
Words = ℕ → ℕ

abbrev pub write : Words → ℕ → ℕ → Words
write m i v j = if j == i then v else m j

-- A JSValueArray as a property table; `is_empty` says that it is the shared `ctx->empty_props`.
pub record Props : Type 0 where
  pub size : ℕ
  pub arr : Words
  pub in_rom : Bool
  pub is_empty : Bool

-- The fields of the JSProperty at word `i`: hash_next in the low 30 bits, prop_type in two more.
abbrev pub key : Words → ℕ → ℕ
key m i = m i

abbrev pub hash_next : Words → ℕ → ℕ
hash_next m i = m (i + 2) % 2 ^ 30

abbrev pub prop_type : Words → ℕ → ℕ
prop_type m i = m (i + 2) / 2 ^ 30 % 4

abbrev pub set_hash_next : Words → ℕ → ℕ → Words
set_hash_next m i v = write m (i + 2) (v % 2 ^ 30 + prop_type m i * 2 ^ 30)

abbrev pub set_prop_type : Words → ℕ → ℕ → Words
set_prop_type m i t = write m (i + 2) (hash_next m i + t * 2 ^ 30)

-- JS_PROP_NORMAL, JS_PROP_SPECIAL
abbrev pub normal : ℕ
normal = 0

abbrev pub special : ℕ
special = 3

pub hash_prop : ℕ → ℕ
hash_prop prop = bit_xor (prop / jsw) (prop % jsw) % 2 ^ 32

abbrev pub bucket : ℕ → ℕ → ℕ
bucket mask prop = bit_and (hash_prop prop) mask

abbrev pub prop_count : Words → ℕ
prop_count m = get_int (m 0)

abbrev pub hash_mask : Words → ℕ
hash_mask m = get_int (m 1)

-- The first word behind the heads, and the slots from there on.
abbrev pub base : ℕ → ℕ
base mask = 2 + (mask + 1)

abbrev pub slot : ℕ → ℕ → ℕ
slot mask i = base mask + 3 * i

-- `none`: out of fuel; `some none`: NULL; `some (some i)`: the property at word `i`.
pub find_loop : ℕ → Words → ℕ → ℕ → Option (Option ℕ)
find_loop zero m prop idx = none
find_loop (suc fuel) m prop idx =
    let rest = find_loop fuel m prop (hash_next m (idx / 2)) in
    if idx == 0 then some none else if key m (idx / 2) == prop then some (some (idx / 2)) else rest

-- The chain of a bucket is at most as long as the array has words.
pub find_own_property : Props → ℕ → Option (Option ℕ)
unfolding find_loop
find_own_property p prop =
    let mask = hash_mask p.arr in find_loop p.size p.arr prop (p.arr (2 + bucket mask prop))

-- for(i = 0; i < n; i++) arr[2 + i] = 0
pub clear_heads : ℕ → Words → Words
clear_heads zero m = m
clear_heads (suc n) m = write (clear_heads n m) (2 + n) (new_short_int 0)

-- The slot at word `idx` becomes the head of the chain of its bucket.
abbrev link_slot : ℕ → Words → ℕ → Words
link_slot mask m idx =
    let h = bucket mask (key m idx) in
    write (set_hash_next m idx (m (2 + h))) (2 + h) (new_short_int idx)

-- `none`: the loop leaves the slots of the array, whose number is the fuel.
pub rehash_loop : ℕ → ℕ → ℕ → Words → ℕ → ℕ → Option Words
rehash_loop zero mask count m i j = if ltb j count then none else some m
rehash_loop (suc fuel) mask count m i j =
    let idx = slot mask i in
    let dead = key m idx == js_uninitialized in
    let rest =
      rehash_loop fuel mask count (if dead then m else link_slot mask m idx) (suc i)
        (if dead then j else suc j) in
    if ltb j count then rest else some m

abbrev pub slots : ℕ → ℕ → ℕ
slots size mask = (size - base mask) / 3

unfoldable pub js_rehash_props : Props → Bool → Option Props
unfolding clear_heads rehash_loop
js_rehash_props p gc_rehash =
    let mask = hash_mask p.arr in
    if p.in_rom || (mask == 0 && gc_rehash)
    then some p
    else elim (rehash_loop (slots p.size mask) mask (prop_count p.arr)
        (clear_heads (mask + 1) p.arr) 0 0) [ none ↦ none | some m ↦ some (record p { arr = m }) ]

-- Where the next property goes.
unfoldable pub get_first_free : Props → ℕ
get_first_free p =
    let pr1 = p.size - 3 in
    if key p.arr pr1 == js_uninitialized then hash_next p.arr pr1 / 2 else p.size
