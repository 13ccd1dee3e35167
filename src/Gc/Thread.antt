-- ===== src/Gc/Thread.antt =====
-- The threading of pointers: the header of a block starts a chain of the slots that point to it.
use mquickjs.Base.{ℕ, zero, suc, ◌+◌, Bool, ◌&&◌, ltb, leb, ◌==◌, if◌then◌else◌}
use mquickjs.Lock.{class_array}
use mquickjs.Props.{Words, write}
use mquickjs.Gc.{
  is_ptr, value_from_ptr, value_to_ptr, mtag, mtag_object, mtag_value_array, mtag_varref,
  mtag_function_bytecode, class_id, extra_size, size_field, class_c_function, class_closure,
  class_regexp, class_error, class_array_buffer, class_uint8c_array, class_float64_array,
}

-- The words from `ctx` up to `stack_top` are those that are not in ROM.
pub record Ram : Type 0 where
  pub ctx : ℕ
  pub stack_top : ℕ

-- ! JS_IS_ROM_PTR
abbrev pub in_ram : Ram → ℕ → Bool
in_ram ram p = leb ram.ctx p && ltb p ram.stack_top

module _ (ram : Ram) where
  unfoldable pub gc_thread_pointer : Words → ℕ → Words
  gc_thread_pointer m pval =
      let val = m pval in
      let ptr = value_to_ptr val in
      if is_ptr val && in_ram ram ptr
      then write (write m pval (m ptr)) ptr (value_from_ptr pval)
      else m

  -- The slots from the offset `o` on, while they are below the limit that the header of the block gives.
  unfoldable pub thread_slots : (ℕ → ℕ) → ℕ → Words → ℕ → ℕ → Words
  thread_slots limit zero m ptr o = m
  thread_slots limit (suc fuel) m ptr o =
      let rest = thread_slots limit fuel (gc_thread_pointer m (ptr + o)) ptr (o + 1) in
      if ltb o (limit (m ptr)) then rest else m

  -- var_refs[i] for i < extra_size - 1; a closure has an extra_size of 1 at least
  abbrev pub var_refs_end : ℕ → ℕ
  var_refs_end h = 3 + extra_size h

  abbrev pub array_end : ℕ → ℕ
  array_end h = 1 + size_field h

  -- The slots that depend on the class.
  unfoldable pub thread_class : Words → ℕ → Words
  unfolding gc_thread_pointer thread_slots
  thread_class m ptr =
      let c = class_id (m ptr) in
      let first = gc_thread_pointer m (ptr + 3) in
      if c == class_closure
      then thread_slots var_refs_end (extra_size (first ptr)) first ptr 4
      else if c == class_c_function
      then if ltb 1 (extra_size (m ptr)) then gc_thread_pointer m (ptr + 4) else m
      else if c == class_array
      then first
      else if c == class_error
      then gc_thread_pointer first (ptr + 4)
      else if c == class_array_buffer
      then first
      else if leb class_uint8c_array c && leb c class_float64_array
      then first
      else if c == class_regexp
      then gc_thread_pointer first (ptr + 4)
      else m

  unfoldable pub thread_function_bytecode : Words → ℕ → Words
  unfolding gc_thread_pointer
  thread_function_bytecode m ptr =
      let func_name = gc_thread_pointer m (ptr + 1) in
      let byte_code = gc_thread_pointer func_name (ptr + 2) in
      let cpool = gc_thread_pointer byte_code (ptr + 3) in
      let vars = gc_thread_pointer cpool (ptr + 4) in
      let ext_vars = gc_thread_pointer vars (ptr + 5) in
      let filename = gc_thread_pointer ext_vars (ptr + 7) in gc_thread_pointer filename (ptr + 8)

  unfoldable pub gc_thread_block : Words → ℕ → Words
  unfolding gc_thread_pointer thread_slots thread_class thread_function_bytecode
  gc_thread_block m ptr =
      if mtag (m ptr) == mtag_object
      then thread_class (gc_thread_pointer (gc_thread_pointer m (ptr + 1)) (ptr + 2)) ptr
      else if mtag (m ptr) == mtag_value_array
      then thread_slots array_end (size_field (m ptr)) m ptr 1
      else if mtag (m ptr) == mtag_varref
      then gc_thread_pointer m (ptr + 1)
      else if mtag (m ptr) == mtag_function_bytecode
      then thread_function_bytecode m ptr
      else m

-- The loop of `gc_update_threaded_pointers`, with the last value of `val`.
unfoldable pub unthread : ℕ → Words → ℕ → ℕ → Words × ℕ
unthread zero m val new_ptr = (m, val)
unthread (suc fuel) m val new_ptr =
    let pv = value_to_ptr val in
    let next = m pv in
    let m' = write m pv (value_from_ptr new_ptr) in
    let rest = unthread fuel m' next new_ptr in if is_ptr next then rest else (m', next)

unfoldable pub gc_update_threaded_pointers : ℕ → Words → ℕ → ℕ → Words
unfolding unthread
gc_update_threaded_pointers fuel m ptr new_ptr =
    let val = m ptr in
    let (m', last) = unthread fuel m val new_ptr in if is_ptr val then write m' ptr last else m
