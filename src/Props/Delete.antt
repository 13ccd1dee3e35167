-- ===== src/Props/Delete.antt =====
-- `js_update_props` and `JS_DeleteProperty` of mquickjs.c, on an object with a property key at hand.
pub mod Unlink
pub mod Removed
pub mod Relinked
pub mod Trim
pub mod Laws
use mquickjs.Base.{
  ℕ, zero, suc, ◌+◌, ◌-◌, ◌*◌, ◌/◌, ◌%◌, ◌^◌, bit_and, Bool, true, false, not, ◌&&◌, Option, none,
  some, ltb, leb, ◌==◌, if◌then◌else◌,
}
use mquickjs.Value.{js_undefined, js_uninitialized, new_short_int, get_int}
use mquickjs.Props.{
  Words, Props, write, key, hash_next, prop_type, set_hash_next, set_prop_type, normal, special,
  bucket, prop_count, hash_mask, base, slot, get_first_free,
}
use mquickjs.Props.Create.{Memory, js_alloc_value_array, copy_words}
use mquickjs.Props.Compact.{js_compact_props}

-- JS_OBJ_FLAG_SEALED and JS_OBJ_FLAG_FROZEN
abbrev pub flag_sealed : ℕ
flag_sealed = 2

abbrev pub flag_frozen : ℕ
flag_frozen = 4

pub record Object : Type 0 where
  pub class_id : ℕ
  pub obj_flags : ℕ
  pub props : Props

-- The conversion of the property at word `i` when it leaves ROM; `get` is `get_special_prop`.
abbrev pub convert_prop : (ℕ → ℕ) → Words → ℕ → Words
convert_prop get m i =
    if prop_type m i == special
    then set_prop_type (write m (i + 1) (get (m (i + 1)))) i normal
    else m

pub convert_props : (ℕ → ℕ) → ℕ → ℕ → Words → Words
convert_props get mask zero m = m
convert_props get mask (suc n) m = convert_prop get (convert_props get mask n m) (slot mask n)

-- `none`: the copy is refused.
unfoldable pub js_update_props : Memory → (ℕ → ℕ) → Props → Option Props
unfolding js_alloc_value_array convert_props
js_update_props mem get p =
    if p.in_rom
    then elim (js_alloc_value_array mem 0 p.size) [
      | none ↦ none
      | some new ↦
          let m = copy_words p.size p.arr new in
          some (record p {
            arr = convert_props get (hash_mask m) (prop_count m) m;
            in_rom = false;
            is_empty = false;
          })
    ]
    else some p

-- The walk of JS_DeleteProperty: the word index of the property and of the one before it in its chain.
-- `none`: out of fuel; `some none`: not found.
pub find_prev : ℕ → Words → ℕ → ℕ → Option ℕ → Option (Option (ℕ × Option ℕ))
find_prev zero m prop idx last_idx = none
find_prev (suc fuel) m prop idx last_idx =
    let rest = find_prev fuel m prop (hash_next m idx / 2) (some idx) in
    if idx == 0 then some none else if key m idx == prop then some (some (idx, last_idx)) else rest

-- The link that led to the property at `idx` now leads past it.
unfoldable pub unlink : Words → ℕ → ℕ → Option ℕ → Words
unlink m h idx none = write m (2 + h) (hash_next m idx)
unlink m h idx (some last_idx) = set_hash_next m last_idx (hash_next m idx)

-- The property at `idx` becomes a free slot, and is no longer counted.
unfoldable pub erase_slot : Words → ℕ → Words
erase_slot m idx =
    let m1 = write m 0 (new_short_int (prop_count m - 1)) in
    let m2 = set_prop_type m1 idx normal in
    write (write m2 idx js_uninitialized) (idx + 1) js_undefined

-- `first_free` moves down over the free slots before it; it falls by 3 in each round.
pub trim : ℕ → Words → ℕ → ℕ → ℕ
trim zero m mask first_free = first_free
trim (suc fuel) m mask first_free =
    let rest = trim fuel m mask (first_free - 3) in
    if ltb (2 + mask + 1) first_free && (key m (first_free - 3) == js_uninitialized)
    then rest
    else first_free

-- The table after the property at `idx` is removed; the count before that decides on compaction.
unfoldable pub remove_slot : Props → ℕ → ℕ → Option ℕ → Option Props
unfolding trim
remove_slot p h idx last_idx =
    let mask = hash_mask p.arr in
    let unlinked = unlink p.arr h idx last_idx in
    let count = prop_count unlinked in
    let m = erase_slot unlinked idx in
    let first_free = trim p.size m mask (get_first_free (record p { arr = unlinked })) in
    let q : Props = record p {
      arr = if ltb first_free p.size then set_hash_next m (p.size - 3) (first_free * 2) else m;
    } in
    if ltb (2 + mask + 1 + 3 * count) (p.size / 2) then js_compact_props q else some q

pub data Deletion : Type 0 where
  deleted : Object → Deletion
  sealed_object no_memory stuck : Deletion

-- `prop` is the key that JS_ToPropertyKey gave. `deleted` is JS_TRUE, also where there is no such
-- property; `sealed_object` is the TypeError; `stuck` is no answer of the C code.
pub js_delete_property : Memory → (ℕ → ℕ) → Object → ℕ → Deletion
unfolding find_prev js_update_props remove_slot
js_delete_property mem get o prop =
    let p = o.props in
    let h = bucket (hash_mask p.arr) prop in
    if not (bit_and o.obj_flags (flag_sealed + flag_frozen) == 0)
    then sealed_object
    else elim (find_prev p.size p.arr prop (get_int (p.arr (2 + h))) none) [
      | none ↦ stuck
      | some none ↦ deleted o
      | some (some (idx, last_idx)) ↦ elim (js_update_props mem get p) [
        | none ↦ no_memory
        | some q ↦ elim (remove_slot q h idx last_idx) [
          | none ↦ stuck
          | some r ↦ deleted (record o { props = r })
        ]
      ]
    ]
