-- ===== src/Gc/Compact.antt =====
-- Heap compaction by Jonkers' algorithm: `gc_compact_heap`.
use mquickjs.Base.{ℕ, zero, suc, ◌+◌, ◌-◌, List, [], ◌∷◌, ◌++◌, length, ltb, ◌==◌, if◌then◌else◌}
use mquickjs.Base.Slices.{blit}
use mquickjs.Props.{Words}
use mquickjs.Gc.{mtag, mtag_free, get_mblock_size}
use mquickjs.Gc.Thread.{Ram, gc_thread_pointer, gc_update_threaded_pointers, gc_thread_block}

-- The slots outside the heap in the order in which they are threaded: the values of the context from
-- `unique_strings` on, the position cache, the stack, the lists of JSGCRef and those of the parser.
pub record Roots : Type 0 where
  pub unique_strings : ℕ
  pub sp_end : ℕ
  pub string_pos_cache : List ℕ
  pub sp : ℕ
  pub gc_refs : List ℕ
  pub parse_state : List ℕ

unfoldable pub range : ℕ → ℕ → List ℕ
range i zero = []
range i (suc n) = i ∷ range (suc i) n

unfoldable pub root_slots : Ram → Roots → List ℕ
unfolding range
root_slots ram r =
    range r.unique_strings (r.sp_end - r.unique_strings)
    ++ (r.string_pos_cache ++ (range r.sp (ram.stack_top - r.sp) ++ (r.gc_refs ++ r.parse_state)))

module _ (ram : Ram) where
  unfoldable pub thread_roots : Words → List ℕ → Words
  thread_roots m [] = m
  thread_roots m (x ∷ xs) = thread_roots (gc_thread_pointer ram m x) xs

  -- Pass 1 from `ptr` on; `chain` bounds the number of slots that point to a block.
  unfoldable pub thread_pass : ℕ → ℕ → ℕ → Words → ℕ → ℕ → Words
  thread_pass chain zero heap_free m ptr new_ptr = m
  thread_pass chain (suc fuel) heap_free m ptr new_ptr =
      let m' = gc_update_threaded_pointers chain m ptr new_ptr in
      let size = get_mblock_size (m' ptr) in
      let live =
        thread_pass chain fuel heap_free (gc_thread_block ram m' ptr) (ptr + size)
          (new_ptr + size) in
      let dead = thread_pass chain fuel heap_free m' (ptr + size) new_ptr in
      if ltb ptr heap_free then if mtag (m' ptr) == mtag_free then dead else live else m

-- Pass 2 from `ptr` on, with the end of the heap afterwards.
unfoldable pub move_pass : ℕ → ℕ → ℕ → Words → ℕ → ℕ → Words × ℕ
move_pass chain zero heap_free m ptr new_ptr = (m, new_ptr)
move_pass chain (suc fuel) heap_free m ptr new_ptr =
    let m' = gc_update_threaded_pointers chain m ptr new_ptr in
    let size = get_mblock_size (m' ptr) in
    let moved = if new_ptr == ptr then m' else blit m' new_ptr m' ptr size in
    let live = move_pass chain fuel heap_free moved (ptr + size) (new_ptr + size) in
    let dead = move_pass chain fuel heap_free m' (ptr + size) new_ptr in
    if ltb ptr heap_free then if mtag (m' ptr) == mtag_free then dead else live else (m, new_ptr)

-- gc_compact_heap up to the new heap_free; the parser's pointer into its source and the hash tables of the
-- objects, which js_rehash_props builds again, come after it.
unfoldable pub gc_compact_heap : Ram → Roots → ℕ → ℕ → Words → Words × ℕ
unfolding root_slots thread_roots thread_pass move_pass
gc_compact_heap ram r heap_base heap_free m =
    let roots = root_slots ram r in
    let fuel = heap_free - heap_base in
    let chain = length roots + fuel in
    let threaded =
      thread_pass ram chain fuel heap_free (thread_roots ram m roots) heap_base heap_base in
    move_pass chain fuel heap_free threaded heap_base heap_base
