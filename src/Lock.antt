-- ===== src/Lock.antt =====
-- Object.preventExtensions, seal, freeze and their tests in mquickjs.c. The arguments are `none` for a
-- value that is not an object; the functions return the value that they are given.
pub mod Laws
mod Examples
use mquickjs.Base.{
  ℕ, ◌+◌, ◌-◌, bit_and, bit_or, Bool, true, false, not, ◌&&◌, Option, none, some, ◌==◌,
  if◌then◌else◌,
}
use mquickjs.Props.{prop_count}
use mquickjs.Props.Delete.{Object, flag_sealed, flag_frozen}

-- JS_OBJ_FLAG_EXTENSIBLE
abbrev pub flag_extensible : ℕ
flag_extensible = 1

-- JS_CLASS_ARRAY
abbrev pub class_array : ℕ
class_array = 1

-- obj_flags & ~flag, on the 4 bits of the field
abbrev pub clear_flag : ℕ → ℕ → ℕ
clear_flag flags flag = bit_and flags (15 - flag)

abbrev pub has_flag : ℕ → ℕ → Bool
has_flag flags flag = not (bit_and flags flag == 0)

abbrev pub with_flags : Object → ℕ → Object
with_flags o flags = record o { obj_flags = flags }

-- The object, if the argument is one, after the call.
pub js_object_prevent_extensions : Option Object → Option Object
js_object_prevent_extensions none = none
js_object_prevent_extensions (some o) = some (with_flags o (clear_flag o.obj_flags flag_extensible))

pub js_object_seal : Option Object → Option Object
js_object_seal none = none
js_object_seal (some o) =
    some (with_flags o (bit_or (clear_flag o.obj_flags flag_extensible) flag_sealed))

pub js_object_freeze : Option Object → Option Object
js_object_freeze none = none
js_object_freeze (some o) = some (
    with_flags o (bit_or (clear_flag o.obj_flags flag_extensible) (bit_or flag_sealed flag_frozen)))

pub js_object_is_extensible : Option Object → Bool
js_object_is_extensible none = false
js_object_is_extensible (some o) = has_flag o.obj_flags flag_extensible

-- No property, and not an array
abbrev pub is_bare : Object → Bool
is_bare o = prop_count o.props.arr == 0 && not (o.class_id == class_array)

pub js_object_is_sealed : Option Object → Bool
js_object_is_sealed none = true
js_object_is_sealed (some o) =
    if has_flag o.obj_flags flag_extensible
    then false
    else if has_flag o.obj_flags (bit_or flag_sealed flag_frozen)
    then true
    else is_bare o

pub js_object_is_frozen : Option Object → Bool
js_object_is_frozen none = true
js_object_is_frozen (some o) =
    if has_flag o.obj_flags flag_extensible
    then false
    else if has_flag o.obj_flags flag_frozen
    then true
    else is_bare o
