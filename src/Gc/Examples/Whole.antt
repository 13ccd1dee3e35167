-- ===== src/Gc/Examples/Whole.antt =====
-- A collection of the heap of three blocks, with a null before the two values of the context.
use mquickjs.Base.{
  ℕ, ◌+◌, ◌<◌, ◌≡◌, refl, ◌⊎◌, inl, inr, true, false, ◌||◌, List, [], ◌∷◌, ◌++◌, arith, ltb, leb,
  ◌==◌,
}
use mquickjs.Gc.{value_to_ptr, mtag, mtag_free, get_mblock_size}
use mquickjs.Gc.Chain.{among, NoDup}
use mquickjs.Gc.Compact.{range, Roots, root_slots, gc_compact_heap}
use mquickjs.Gc.Graph.{is_reference, relocated, heap_slots, new_place, WellFormed}
use mquickjs.Gc.Blocks.{threaded_slots}
use mquickjs.Gc.Sweep.{sweep_heap}
use mquickjs.Gc.Swept.{swept}
use mquickjs.Gc.Mark.{mark_all}
use mquickjs.Gc.Marking.{IsUnmarked}
use mquickjs.Gc.Reach.{IsReached}
use mquickjs.Gc.References.{heap_references}
use mquickjs.Gc.Kept.{gc_compact_heap-IsReached}
use mquickjs.Gc.Examples.{
  small_ram, small_heap, small_blocks, small_WellFormed, small_NoCompartment, small_IsUnmarked,
  every, RefersToBlock, no_finalizer,
}

-- No string is unique.
abbrev null_roots : Roots
null_roots = record {
  unique_strings = 9;
  sp_end = 12;
  string_pos_cache = [];
  sp = 200;
  gc_refs = [];
  parse_state = [];
}

abbrev strong_roots : List ℕ
strong_roots = 10 ∷ 11 ∷ 200 ∷ []

null_WellFormed :
    WellFormed small_ram (root_slots small_ram null_roots) 100 107 small_blocks small_heap
unfolding among root_slots range heap_slots threaded_slots NoDup
null_WellFormed = record {
  tiles = small_WellFormed.tiles;
  headers = small_WellFormed.headers;
  slots = small_WellFormed.slots;
  no_loop = small_WellFormed.no_loop;
  targets = λ x i is.
      every
        (λ y.
          is_reference small_ram (small_heap y) ≡ true
          → among (value_to_ptr (small_heap y)) small_blocks ≡ true)
        (9 ∷ 10 ∷ 11 ∷ 200 ∷ 103 ∷ 104 ∷ 106 ∷ [])
        (
          λ no. absurd (ground arith),
          (
            λ _. refl,
            (λ _. refl, (λ _. refl, (λ _. refl, (λ no. absurd (ground arith), (λ _. refl, tt))))),
          ),
        )
        x i is;
  outside = λ x i.
      every (λ y. (ltb y 100 || leb 107 y) ≡ true) (9 ∷ 10 ∷ 11 ∷ 200 ∷ [])
        (refl, (refl, (refl, (refl, tt)))) x i;
  nodup = (refl, (refl, (refl, (refl, (refl, (refl, (refl, tt)))))));
}

strong_IsUnmarked : IsUnmarked small_ram strong_roots 100 107 small_blocks small_heap
unfolding among
strong_IsUnmarked = record {
  tiles = small_IsUnmarked.tiles;
  unmarked = small_IsUnmarked.unmarked;
  slots = small_IsUnmarked.slots;
  roots_slots = λ x i.
      every RefersToBlock strong_roots
        ((refl, λ _. refl), ((refl, λ _. refl), ((refl, λ _. refl), tt))) x i;
}

abbrev StrongOrNull : ℕ → Type 0
StrongOrNull x =
    (among x small_blocks ≡ false)
    × ((among x strong_roots ≡ true) ⊎ (is_reference small_ram (small_heap x) ≡ false))

strong_or_null : (x : ℕ) → among x (root_slots small_ram null_roots) ≡ true → StrongOrNull x
unfolding among root_slots range
strong_or_null x i =
    every StrongOrNull (9 ∷ 10 ∷ 11 ∷ 200 ∷ [])
      ((refl, inr refl), ((refl, inl refl), ((refl, inl refl), ((refl, inl refl), tt)))) x i

gc_compact_heap-IsReached_example :
    let s = mark_all small_ram strong_roots 2 100 107 small_heap in
    let v = s.mem in
    let m = (sweep_heap no_finalizer 107 v 100).0 in
    let blocks = swept v false small_blocks in
    let (m', end) = gc_compact_heap small_ram null_roots 100 107 m in
    let place = new_place m blocks 100 in
    let final =
      relocated small_ram place
        (root_slots small_ram null_roots ++ heap_references m blocks)
        small_heap in
    (s.stray ≡ false)
    × ((b i : ℕ)
        → IsReached small_ram strong_roots small_heap b
        → (mtag (small_heap b) == mtag_free) ≡ false
        → i < get_mblock_size (small_heap b)
        → m' (place b + i) ≡ final (b + i))
    × ((x : ℕ) → among x (root_slots small_ram null_roots) ≡ true → m' x ≡ final x)
gc_compact_heap-IsReached_example =
    gc_compact_heap-IsReached small_ram strong_roots null_roots no_finalizer 2 100 107 small_blocks
      small_heap null_WellFormed strong_IsUnmarked strong_or_null small_NoCompartment (omega arith)
