-- ===== src/Gc.antt =====
-- The heap of mquickjs.c as words of 8 bytes (JSW = 8), and the passes of the garbage collector on it. A
-- pointer of the C code is the index of its word.
pub mod Thread
pub mod Compact
pub mod Chain
pub mod Unthread
pub mod Blocks
pub mod Graph
pub mod Staged
pub mod Update
pub mod Slots
pub mod Tiles
pub mod Threaded
pub mod Pass1
pub mod Settled
pub mod Moved
pub mod Pass2
pub mod Count
pub mod Relocation
pub mod Sweep
pub mod Swept
pub mod Reset
pub mod Compacted
pub mod Mark
pub mod Marking
pub mod Pushed
pub mod MarkedSlots
pub mod Popped
pub mod Flushed
pub mod Room
pub mod Rescan
pub mod Overflow
pub mod Reach
pub mod Collected
pub mod Survivors
pub mod References
pub mod Kept
pub mod Examples
use mquickjs.Base.{
  ℕ, zero, suc, ◌+◌, ◌-◌, ◌*◌, ◌/◌, ◌%◌, ◌^◌, Bool, true, false, ◌&&◌, List, [], ◌∷◌, ltb, leb,
  ◌==◌, if◌then◌else◌,
}

-- JS_IsPtr, JS_VALUE_FROM_PTR and JS_VALUE_TO_PTR
abbrev pub is_ptr : ℕ → Bool
is_ptr v = v % 8 == 1

abbrev pub value_from_ptr : ℕ → ℕ
value_from_ptr p = 8 * p + 1

abbrev pub value_to_ptr : ℕ → ℕ
value_to_ptr v = v / 8

-- JS_MTAG_x
abbrev pub mtag_free : ℕ
mtag_free = 0

abbrev pub mtag_object : ℕ
mtag_object = 1

abbrev pub mtag_float64 : ℕ
mtag_float64 = 2

abbrev pub mtag_string : ℕ
mtag_string = 3

abbrev pub mtag_function_bytecode : ℕ
mtag_function_bytecode = 4

abbrev pub mtag_value_array : ℕ
mtag_value_array = 5

abbrev pub mtag_byte_array : ℕ
mtag_byte_array = 6

abbrev pub mtag_varref : ℕ
mtag_varref = 7

-- The fields of a header; `gc_mark` is bit 0.
abbrev pub gc_mark : ℕ → ℕ
gc_mark h = h % 2

abbrev pub mtag : ℕ → ℕ
mtag h = h / 2 % 8

abbrev pub class_id : ℕ → ℕ
class_id h = h / 2 ^ 4 % 2 ^ 8

abbrev pub extra_size : ℕ → ℕ
extra_size h = h / 2 ^ 16

-- the `size` of byte arrays, value arrays and free blocks
abbrev pub size_field : ℕ → ℕ
size_field h = h / 2 ^ 4

abbrev pub string_len : ℕ → ℕ
string_len h = h / 2 ^ 7

abbrev pub is_detached : ℕ → Bool
is_detached h = h / 2 ^ 4 % 2 == 1

-- get_mblock_size in words. All 8 tags have a case.
unfoldable pub get_mblock_size : ℕ → ℕ
get_mblock_size h =
    if mtag h == mtag_object
    then 3 + extra_size h
    else if mtag h == mtag_float64
    then 2
    else if mtag h == mtag_string
    then 1 + (string_len h + 8) / 8
    else if mtag h == mtag_byte_array
    then 1 + (size_field h + 7) / 8
    else if mtag h == mtag_value_array
    then 1 + size_field h
    else if mtag h == mtag_free
    then 1 + size_field h
    else if mtag h == mtag_varref
    then if is_detached h then 2 else 3
    else 10

-- JS_CLASS_x
abbrev pub class_c_function : ℕ
class_c_function = 2

abbrev pub class_closure : ℕ
class_closure = 3

abbrev pub class_regexp : ℕ
class_regexp = 8

abbrev pub class_error : ℕ
class_error = 9

abbrev pub class_array_buffer : ℕ
class_array_buffer = 17

abbrev pub class_uint8c_array : ℕ
class_uint8c_array = 19

abbrev pub class_float64_array : ℕ
class_float64_array = 27
