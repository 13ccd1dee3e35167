-- ===== src/Gc/Mark.antt =====
-- The marking of gc_mark_all, with its explicit stack and what it does when the stack is full.
use mquickjs.Base.{
  ℕ, zero, suc, ◌+◌, ◌-◌, ◌*◌, Bool, true, false, not, ◌&&◌, ◌||◌, List, [], ◌∷◌, ltb, ◌==◌,
  if◌then◌else◌,
}
use mquickjs.Props.{Words, write}
use mquickjs.Gc.{
  is_ptr, value_to_ptr, gc_mark, mtag, mtag_object, mtag_value_array, mtag_varref,
  mtag_function_bytecode, class_id, size_field, get_mblock_size,
}
use mquickjs.Gc.Thread.{Ram, in_ram}
use mquickjs.Gc.Compact.{range}
use mquickjs.Gc.Blocks.{class_slots}

-- JS_CLASS_COMPARTMENT
abbrev pub class_compartment : ℕ
class_compartment = 28

unfoldable pub mtag_has_references : ℕ → Bool
mtag_has_references t =
    (t == mtag_object)
    || ((t == mtag_value_array) || ((t == mtag_varref) || (t == mtag_function_bytecode)))

-- A block on the stack takes one word, a value array two: its address and the next index.
pub data Entry : Type 0 where
  block : ℕ → Entry
  array : ℕ → ℕ → Entry

-- GCMarkState with the memory; `room` is the number of words between gs_bottom and gs_top, where the stack grows down
-- from gs_top, and `stray` tells that a push has gone below gs_bottom. While it has not, the stack lies in the words
-- behind the heap that nothing else uses, and is kept apart from `mem`.
pub record GcMarkState : Type 0 where
  pub mem : Words
  pub stack : List Entry
  pub room : ℕ
  pub overflow : Bool
  pub stray : Bool

unfoldable pub depth : List Entry → ℕ
depth [] = 0
depth (block p ∷ es) = 1 + depth es
depth (array p i ∷ es) = 2 + depth es

-- *--s->gsp = ..., for one word or two
abbrev pub on_top : GcMarkState → Entry → GcMarkState
on_top s e = record s { stack = e ∷ s.stack; stray = ltb s.room (depth (e ∷ s.stack)) || s.stray }

-- The slots that gc_mark_flush marks in a block that is no value array, and the elements of an array.
unfoldable pub marked_slots : ℕ → ℕ → List ℕ
unfolding class_slots range
marked_slots h b =
    if mtag h == mtag_object
    then (b + 1)
      ∷ (b + 2)
      ∷ (if class_id h == class_compartment then (b + 3) ∷ (b + 4) ∷ [] else class_slots h b)
    else if mtag h == mtag_value_array
    then range (b + 1) (size_field h)
    else if mtag h == mtag_varref
    then (b + 1) ∷ []
    else if mtag h == mtag_function_bytecode
    then (b + 1) ∷ (b + 2) ∷ (b + 3) ∷ (b + 4) ∷ (b + 5) ∷ (b + 7) ∷ (b + 8) ∷ []
    else []

-- A block that has its mark now goes on the stack, if it may hold references and there is room.
unfoldable pub push : GcMarkState → ℕ → GcMarkState
unfolding depth
push s ptr =
    let t = mtag (s.mem ptr) in
    if t == mtag_value_array
    then if ltb (s.room - depth s.stack) 2
      then record s { overflow = true }
      else on_top s (array ptr 0)
    else if mtag_has_references t
    then if ltb (s.room - depth s.stack) 1
      then record s { overflow = true }
      else on_top s (block ptr)
    else s

-- The first index from `pos` on of an element that is a pointer.
unfoldable pub skip_values : ℕ → Words → ℕ → ℕ → ℕ
skip_values zero m ptr pos = pos
skip_values (suc fuel) m ptr pos =
    let rest = skip_values fuel m ptr (pos + 1) in
    if ltb pos (size_field (m ptr)) && not (is_ptr (m (ptr + 1 + pos))) then rest else pos

module _ (ram : Ram) where
  -- gc_mark
  unfoldable pub mark_value : GcMarkState → ℕ → GcMarkState
  unfolding push
  mark_value s val =
      let ptr = value_to_ptr val in
      if is_ptr val && in_ram ram ptr
      then if gc_mark (s.mem ptr) == 1
        then s
        else push (record s { mem = write s.mem ptr (s.mem ptr + 1) }) ptr
      else s

  unfoldable pub mark_slots : GcMarkState → List ℕ → GcMarkState
  unfolding mark_value
  mark_slots s [] = s
  mark_slots s (x ∷ xs) = mark_slots (mark_value s (s.mem x)) xs

  -- A round of the loop of gc_mark_flush, for the entry on top of `es`.
  unfoldable pub flush_entry : GcMarkState → Entry → List Entry → GcMarkState
  unfolding mark_value mark_slots skip_values marked_slots
  flush_entry s (block ptr) es = mark_slots (record s { stack = es }) (marked_slots (s.mem ptr) ptr)
  flush_entry s (array ptr pos) es =
      let size = size_field (s.mem ptr) in
      let i = skip_values size s.mem ptr pos in
      let left = if ltb (i + 1) size then array ptr (i + 1) ∷ es else es in
      if ltb i size
      then mark_value (record s { stack = left }) (s.mem (ptr + 1 + i))
      else record s { stack = es }

  unfoldable pub gc_mark_flush : ℕ → GcMarkState → GcMarkState
  unfolding flush_entry
  gc_mark_flush zero s = s
  gc_mark_flush (suc fuel) s = elim s.stack [
    | [] ↦ s
    | e ∷ es ↦ gc_mark_flush fuel (flush_entry s e es)
  ]

  -- gc_mark_root on each of the slots outside the heap.
  unfoldable pub mark_roots : ℕ → GcMarkState → List ℕ → GcMarkState
  unfolding gc_mark_flush mark_value
  mark_roots steps s [] = s
  mark_roots steps s (x ∷ xs) = mark_roots steps (gc_mark_flush steps (mark_value s (s.mem x))) xs

  -- The blocks with a mark are marked through once more. Nothing tests whether their entries have room.
  unfoldable pub rescan : ℕ → ℕ → ℕ → GcMarkState → ℕ → GcMarkState
  unfolding gc_mark_flush
  rescan steps zero heap_free s ptr = s
  rescan steps (suc fuel) heap_free s ptr =
      let h = s.mem ptr in
      let e = if mtag h == mtag_value_array then array ptr 0 else block ptr in
      let marked =
        if (gc_mark h == 1) && mtag_has_references (mtag h)
        then gc_mark_flush steps (on_top s e)
        else s in
      let rest = rescan steps fuel heap_free marked (ptr + get_mblock_size h) in
      if ltb ptr heap_free then rest else s

  unfoldable pub mark_overflow : ℕ → ℕ → ℕ → ℕ → GcMarkState → GcMarkState
  unfolding rescan
  mark_overflow steps zero heap_base heap_free s = s
  mark_overflow steps (suc fuel) heap_base heap_free s =
      let rest = mark_overflow steps fuel heap_base heap_free (
        rescan steps (heap_free - heap_base) heap_free (record s { overflow = false }) heap_base) in
      if s.overflow then rest else s

  -- The marking of gc_mark_all, from the roots on.
  unfoldable pub mark_all : List ℕ → ℕ → ℕ → ℕ → Words → GcMarkState
  unfolding mark_roots mark_overflow
  mark_all roots room heap_base heap_free m =
      let words = heap_free - heap_base in
      let start : GcMarkState = record {
        mem = m;
        stack = [];
        room = room;
        overflow = false;
        stray = false;
      } in
      mark_overflow (4 * words) (2 * words + 1) heap_base heap_free
        (mark_roots (4 * words) start roots)
