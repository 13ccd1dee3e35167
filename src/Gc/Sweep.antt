-- ===== src/Gc/Sweep.antt =====
-- The end of gc_mark_all: marks are reset and the blocks without one become free blocks.
use mquickjs.Base.{
  ℕ, zero, suc, ◌+◌, ◌-◌, ◌*◌, ◌^◌, Bool, ◌&&◌, List, [], ◌∷◌, ltb, leb, ◌==◌, if◌then◌else◌,
}
use mquickjs.Props.{Words, write}
use mquickjs.Gc.{gc_mark, mtag, mtag_object, class_id, get_mblock_size}

-- JS_CLASS_USER
abbrev pub class_user : ℕ
class_user = 29

-- set_free_block with the size in words: the tag of a free block and its mark are 0.
abbrev pub set_free_block : Words → ℕ → ℕ → Words
set_free_block m ptr size = write m ptr ((size - 1) * 2 ^ 4)

-- The end of the run of blocks without mark from `ptr1` on.
unfoldable pub skip_unmarked : ℕ → ℕ → Words → ℕ → ℕ
skip_unmarked zero heap_free m ptr1 = ptr1
skip_unmarked (suc fuel) heap_free m ptr1 =
    let rest = skip_unmarked fuel heap_free m (ptr1 + get_mblock_size (m ptr1)) in
    if ltb ptr1 heap_free && (gc_mark (m ptr1) == 0) then rest else ptr1

-- A call of the finalizer of a user class, with the word `opaque`.
pub record Finalized : Type 0 where
  pub user_class : ℕ
  pub opaque : ℕ

-- `has_finalizer` tells the user classes with an entry in c_finalizer_table; the calls come out as a list.
module _ (has_finalizer : ℕ → Bool) (heap_free : ℕ) where
  abbrev pub finalize : Words → ℕ → List Finalized → List Finalized
  finalize m ptr calls =
      let c = class_id (m ptr) in
      if (mtag (m ptr) == mtag_object) && (leb class_user c && has_finalizer (c - class_user))
      then record { user_class = c - class_user; opaque = m (ptr + 3) } ∷ calls
      else calls

  unfoldable pub sweep : ℕ → Words → ℕ → List Finalized → Words × List Finalized
  unfolding skip_unmarked
  sweep zero m ptr calls = (m, calls)
  sweep (suc fuel) m ptr calls =
      let size = get_mblock_size (m ptr) in
      let live = sweep fuel (write m ptr (m ptr - 1)) (ptr + size) calls in
      let ptr1 = skip_unmarked fuel heap_free m (ptr + size) in
      let dead = sweep fuel (set_free_block m ptr (ptr1 - ptr)) ptr1 (finalize m ptr calls) in
      if ltb ptr heap_free then if gc_mark (m ptr) == 1 then live else dead else (m, calls)

  -- The whole loop.
  unfoldable pub sweep_heap : Words → ℕ → Words × List Finalized
  unfolding sweep
  sweep_heap m heap_base = sweep (heap_free - heap_base) m heap_base []
