-- ===== src/Props/Compact.antt =====
-- `js_compact_props` of mquickjs.c: the live slots move down over the deleted ones, the hash table may
-- shrink, and the chains are rebuilt.
pub mod Laws
use mquickjs.Base.{
  ℕ, zero, suc, ◌+◌, ◌-◌, ◌*◌, ◌^◌, min, Bool, false, true, Option, none, some, ltb, leb, ◌==◌,
  if◌then◌else◌,
}
use mquickjs.Value.{js_uninitialized, new_short_int}
use mquickjs.Props.{Words, Props, write, key, prop_count, hash_mask, slot, slots, js_rehash_props}
use mquickjs.Props.Create.{get_prop_hash_size_log2}

-- ctx->empty_props: no property, one head.
abbrev pub empty_props : Props
empty_props = record { size = 3; arr = λ _. 0; in_rom = false; is_empty = true }

-- *pr1 = *pr for the JSProperty at the words `to` and `from`
abbrev pub copy_prop : Words → ℕ → ℕ → Words
copy_prop m to from =
    write (write (write m to (m from)) (to + 1) (m (from + 1))) (to + 2) (m (from + 2))

-- `none`: the loop leaves the slots of the array, whose number bounds the fuel.
pub compact_loop : ℕ → ℕ → ℕ → ℕ → Words → ℕ → ℕ → Option Words
compact_loop zero mask new_mask count m i j = if ltb j count then none else some m
compact_loop (suc fuel) mask new_mask count m i j =
    let pr = slot mask i in
    let dead = key m pr == js_uninitialized in
    let rest =
      compact_loop fuel mask new_mask count (if dead then m else copy_prop m (slot new_mask j) pr)
        (suc i) (if dead then j else suc j) in
    if ltb j count then rest else some m

unfoldable pub js_compact_props : Props → Option Props
unfolding compact_loop
js_compact_props p =
    let count = prop_count p.arr in
    let mask = hash_mask p.arr in
    let new_mask = min mask (2 ^ get_prop_hash_size_log2 count - 1) in
    let new_size = 2 + new_mask + 1 + 3 * count in
    if count == 0
    then some (if p.is_empty then p else empty_props)
    else if leb p.size new_size
    then some p
    else elim (compact_loop (slots p.size mask) mask new_mask count
        (write p.arr 1 (new_short_int new_mask)) 0 0) [
          | none ↦ none
          | some m ↦ js_rehash_props (record p { size = new_size; arr = m }) false
        ]
