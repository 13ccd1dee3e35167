-- ===== src/Gc/Examples.antt =====
-- A heap of three blocks: a free one, an array of two values and a variable reference.
use mathlib.Core.Path.{subst}
use mquickjs.Base.{
  ℕ, ◌+◌, ◌≤◌, ◌<◌, ◌≡◌, refl, sym, ◌⊎◌, inl, inr, Bool, true, false, List, [], ◌∷◌, ◌++◌, ◌||◌,
  arith, map, All, ltb, leb, ◌==◌, if◌then◌else◌,
}
use mquickjs.Base.Slices.{blit}
use mquickjs.Props.{Words}
use mquickjs.Gc.{gc_mark, is_ptr, value_from_ptr, value_to_ptr, mtag, mtag_free, get_mblock_size}
use mquickjs.Gc.Thread.{Ram, gc_thread_pointer, gc_thread_block, gc_update_threaded_pointers}
use mquickjs.Gc.Chain.{among, NoDup}
use mquickjs.Gc.Compact.{range, Roots, root_slots, gc_compact_heap}
use mquickjs.Gc.Graph.{
  is_reference, relocated, heap_slots, live_blocks, live_size, Tiles, new_place, WellFormed,
}
use mquickjs.Gc.Blocks.{threaded_slots}
use mquickjs.Gc.Tiles.{among-cons}
use mquickjs.Gc.Sweep.{sweep_heap}
use mquickjs.Gc.Mark.{mark_all, marked_slots}
use mquickjs.Gc.Marking.{IsUnmarked}
use mquickjs.Gc.Swept.{is_marked, swept}
use mquickjs.Gc.Reach.{IsReached, mark_all-IsReached, from_root, from_block}
use mquickjs.Gc.Collected.{sweep_heap-IsReached}
use mquickjs.Gc.Reset.{IsSwept, sweep_heap-IsSwept}
use mquickjs.Gc.Compacted.{gc_compact_heap-Tiles}
use mquickjs.Gc.References.{
  is_compartment, NoCompartment, heap_references, gc_compact_heap-references,
  gc_compact_heap-IsClosed,
}
mod Whole

abbrev small_ram : Ram
small_ram = record { ctx = 0; stack_top = 201 }

-- The two values of the context refer to the array and to the variable, the stack to the array.
abbrev small_roots : Roots
small_roots = record {
  unique_strings = 10;
  sp_end = 12;
  string_pos_cache = [];
  sp = 200;
  gc_refs = [];
  parse_state = [];
}

abbrev small_heap : Words
small_heap x =
    if x == 100
    then 16
    else if x == 102
    then 42
    else if x == 103
    then value_from_ptr 105
    else if x == 105
    then 30
    else if x == 106
    then value_from_ptr 102
    else if x == 10
    then value_from_ptr 102
    else if x == 11
    then value_from_ptr 105
    else if x == 200
    then value_from_ptr 102
    else 0

abbrev small_blocks : List ℕ
small_blocks = 100 ∷ 102 ∷ 105 ∷ []

every : (P : ℕ → Type 0) (xs : List ℕ) → All P xs → (x : ℕ) → among x xs ≡ true → P x
unfolding among
every P [] all x i = absurd (ground arith)
every P (t ∷ xs) (first, all) x i = elim (among-cons x t xs i) [
  | inl same ↦ subst P (sym same) first
  | inr j ↦ every P xs all x j
]

abbrev StaysAt : ℕ → Type 0
StaysAt b = (mtag (small_heap b) == mtag_free) ≡ false

abbrev InsideBlock : ℕ → ℕ → Type 0
InsideBlock b x = (b < x) × (x < b + get_mblock_size (small_heap b))

abbrev OtherBlock : ℕ → ℕ → Type 0
OtherBlock b x = (small_heap x == value_from_ptr b) ≡ false

small_slots :
    (b : ℕ)
    → among b small_blocks ≡ true
    → StaysAt b
    → (x : ℕ) → among x (threaded_slots (small_heap b) b) ≡ true
    → InsideBlock b x × OtherBlock b x
unfolding threaded_slots range get_mblock_size
small_slots b hb =
    every
      (λ c.
        StaysAt c
        → (x : ℕ) → among x (threaded_slots (small_heap c) c) ≡ true
        → InsideBlock c x × OtherBlock c x)
      small_blocks
      (
        λ stays. absurd (ground arith),
        (
          λ stays x i.
              every (λ y. InsideBlock 102 y × OtherBlock 102 y) (103 ∷ 104 ∷ [])
                (((omega arith, omega arith), refl), (((omega arith, omega arith), refl), tt)) x i,
          (
            λ stays x i.
                every (λ y. InsideBlock 105 y × OtherBlock 105 y) (106 ∷ [])
                  (((omega arith, omega arith), refl), tt) x i,
            tt,
          ),
        ),
      )
      b hb

small_WellFormed :
    WellFormed small_ram (root_slots small_ram small_roots) 100 107 small_blocks small_heap
unfolding among root_slots range heap_slots threaded_slots Tiles NoDup get_mblock_size
small_WellFormed = record {
  tiles = (refl, omega arith, (refl, omega arith, (refl, omega arith, refl)));
  headers = λ b hb.
      every (λ c. is_ptr (small_heap c) ≡ false) small_blocks (refl, (refl, (refl, tt))) b hb;
  slots = λ b x hb stays i. (small_slots b hb stays x i).0;
  no_loop = λ b x hb stays i. (small_slots b hb stays x i).1;
  targets = λ x i is.
      every
        (λ y.
          is_reference small_ram (small_heap y) ≡ true
          → among (value_to_ptr (small_heap y)) small_blocks ≡ true)
        (10 ∷ 11 ∷ 200 ∷ 103 ∷ 104 ∷ 106 ∷ [])
        (
          λ _. refl,
          (λ _. refl, (λ _. refl, (λ _. refl, (λ no. absurd (ground arith), (λ _. refl, tt))))),
        )
        x i is;
  outside = λ x i.
      every (λ y. (ltb y 100 || leb 107 y) ≡ true) (10 ∷ 11 ∷ 200 ∷ []) (refl, (refl, (refl, tt))) x
        i;
  nodup = (refl, (refl, (refl, (refl, (refl, (refl, tt))))));
}

small_NoCompartment : NoCompartment small_heap small_blocks
small_NoCompartment b hb =
    every (λ c. StaysAt c → is_compartment (small_heap c) ≡ false) small_blocks
      (λ _. refl, (λ _. refl, (λ _. refl, tt))) b hb

gc_compact_heap-references_example :
    let (m', end) = gc_compact_heap small_ram small_roots 100 107 small_heap in
    let place = new_place small_heap small_blocks 100 in
    let final =
      relocated small_ram place
        (root_slots small_ram small_roots ++ heap_references small_heap small_blocks)
        small_heap in
    (end ≡ 100 + live_size small_heap small_blocks)
    × ((c i : ℕ)
        → among c small_blocks ≡ true
        → (mtag (small_heap c) == mtag_free) ≡ false
        → i < get_mblock_size (small_heap c)
        → m' (place c + i) ≡ final (c + i))
    × ((y : ℕ) → (y < 100) ⊎ (107 ≤ y) → m' y ≡ final y)
gc_compact_heap-references_example =
    gc_compact_heap-references small_ram small_roots 100 107 small_blocks small_heap
      small_WellFormed small_NoCompartment

gc_compact_heap-Tiles_example :
    let (m', end) = gc_compact_heap small_ram small_roots 100 107 small_heap in
    Tiles m' 100
      (map (new_place small_heap small_blocks 100) (live_blocks small_heap small_blocks))
      end
gc_compact_heap-Tiles_example =
    gc_compact_heap-Tiles small_ram small_roots 100 107 small_blocks small_heap small_WellFormed

small_live :
    (c x : ℕ)
    → among c small_blocks ≡ true
    → StaysAt c
    → among x (marked_slots (small_heap c) c) ≡ true
    → is_reference small_ram (small_heap x) ≡ true
    → StaysAt (value_to_ptr (small_heap x))
unfolding marked_slots range
small_live c x hc stays i is =
    every
      (λ d.
        StaysAt d
        → (y : ℕ) → among y (marked_slots (small_heap d) d) ≡ true
        → is_reference small_ram (small_heap y) ≡ true
        → StaysAt (value_to_ptr (small_heap y)))
      small_blocks
      (
        λ no. absurd (ground arith),
        (
          λ _ y j.
              every
                (λ z.
                  is_reference small_ram (small_heap z) ≡ true
                  → StaysAt (value_to_ptr (small_heap z)))
                (103 ∷ 104 ∷ []) (λ _. refl, (λ no. absurd (ground arith), tt)) y j,
          (
            λ _ y j.
                every
                  (λ z.
                    is_reference small_ram (small_heap z) ≡ true
                    → StaysAt (value_to_ptr (small_heap z)))
                  (106 ∷ []) (λ _. refl, tt) y j,
            tt,
          ),
        ),
      )
      c hc stays x i is

-- The first element of the array refers to the variable, which stays three words after it.
array_slot : among 103 (marked_slots (small_heap 102) 102) ≡ true
unfolding among marked_slots range
array_slot = refl

array_listed : among 102 small_blocks ≡ true
unfolding among
array_listed = refl

gc_compact_heap-IsClosed_example :
    let (m', end) = gc_compact_heap small_ram small_roots 100 107 small_heap in
    let place = new_place small_heap small_blocks 100 in
    (m' (place 102 + 1) ≡ value_from_ptr (place 105))
    × (among (place 105) (map place (live_blocks small_heap small_blocks)) ≡ true)
    × (m' (place 105) ≡ small_heap 105)
gc_compact_heap-IsClosed_example =
    gc_compact_heap-IsClosed small_ram small_roots 100 107 small_blocks small_heap small_WellFormed
      small_NoCompartment small_live 102 1 array_listed refl array_slot refl

compacted : (gc_compact_heap small_ram small_roots 100 107 small_heap).0 101 ≡ value_from_ptr 103
unfolding gc_compact_heap gc_update_threaded_pointers gc_thread_pointer get_mblock_size
    gc_thread_block blit
compacted = refl

-- After marking: the array and the variable have their marks, the block before them has none.
abbrev marked_heap : Words
marked_heap x = if x == 102 then 43 else if x == 105 then 31 else small_heap x

no_finalizer : ℕ → Bool
no_finalizer c = false

marked_Tiles : Tiles marked_heap 100 small_blocks 107
unfolding Tiles get_mblock_size
marked_Tiles = (refl, omega arith, (refl, omega arith, (refl, omega arith, refl)))

sweep_heap-IsSwept_example :
    IsSwept marked_heap 100 small_blocks 107 (sweep_heap no_finalizer 107 marked_heap 100).0
sweep_heap-IsSwept_example =
    sweep_heap-IsSwept no_finalizer 100 107 small_blocks marked_heap marked_Tiles

abbrev RefersToBlock : ℕ → Type 0
RefersToBlock x =
    (among x small_blocks ≡ false)
    × (is_reference small_ram (small_heap x) ≡ true
        → among (value_to_ptr (small_heap x)) small_blocks ≡ true)

small_marked_slots :
    (b : ℕ)
    → among b small_blocks ≡ true
    → (x : ℕ) → among x (marked_slots (small_heap b) b) ≡ true
    → RefersToBlock x
unfolding marked_slots range among
small_marked_slots b hb =
    every (λ c. (x : ℕ) → among x (marked_slots (small_heap c) c) ≡ true → RefersToBlock x)
      small_blocks
      (
        λ x i. absurd (ground arith),
        (
          λ x i.
              every RefersToBlock (103 ∷ 104 ∷ [])
                ((refl, λ _. refl), ((refl, λ is. absurd (ground arith)), tt)) x i,
          (λ x i. every RefersToBlock (106 ∷ []) ((refl, λ _. refl), tt) x i, tt),
        ),
      )
      b hb

-- The roots 10 and 200 only, which both refer to the array.
small_IsUnmarked : IsUnmarked small_ram (10 ∷ 200 ∷ []) 100 107 small_blocks small_heap
unfolding among Tiles get_mblock_size
small_IsUnmarked = record {
  tiles = (refl, omega arith, (refl, omega arith, (refl, omega arith, refl)));
  unmarked =
      λ b hb. every (λ c. gc_mark (small_heap c) ≡ 0) small_blocks (refl, (refl, (refl, tt))) b hb;
  slots = λ b x hb i. small_marked_slots b hb x i;
  roots_slots =
      λ x i. every RefersToBlock (10 ∷ 200 ∷ []) ((refl, λ _. refl), ((refl, λ _. refl), tt)) x i;
}

first_slot : among 103 (marked_slots (small_heap 102) 102) ≡ true
unfolding among marked_slots range
first_slot = refl

first_root : among 10 (10 ∷ 200 ∷ []) ≡ true
unfolding among
first_root = refl

-- The variable can be reached through the array.
variable_IsReached : IsReached small_ram (10 ∷ 200 ∷ []) small_heap 105
variable_IsReached =
    from_block 105 102 103 (from_root 102 10 first_root refl refl) first_slot refl refl

-- There is room for the array only, so that the stack overflows at the variable.
mark_all-IsReached_example :
    let s = mark_all small_ram (10 ∷ 200 ∷ []) 2 100 107 small_heap in
    ((b : ℕ)
      → IsReached small_ram (10 ∷ 200 ∷ []) small_heap b
      → (among b small_blocks ≡ true) × (is_marked s.mem b ≡ true))
    × (s.stack ≡ [])
    × (s.overflow ≡ false)
    × (s.stray ≡ false)
    × ((b : ℕ)
        → among b small_blocks ≡ true
        → (s.mem b ≡ small_heap b) ⊎ (s.mem b ≡ small_heap b + 1))
    × ((x : ℕ) → among x small_blocks ≡ false → s.mem x ≡ small_heap x)
mark_all-IsReached_example =
    mark_all-IsReached small_ram (10 ∷ 200 ∷ []) 2 100 107 small_blocks small_heap small_IsUnmarked
      (omega arith)

sweep_heap-IsReached_example :
    let s = mark_all small_ram (10 ∷ 200 ∷ []) 2 100 107 small_heap in
    let marked = s.mem in
    let m = (sweep_heap no_finalizer 107 marked 100).0 in
    (s.stray ≡ false)
    × (among 105 (swept marked false small_blocks) ≡ true)
    × (m 105 ≡ small_heap 105)
    × ((i : ℕ) → 0 < i → i < get_mblock_size (small_heap 105) → m (105 + i) ≡ small_heap (105 + i))
sweep_heap-IsReached_example =
    sweep_heap-IsReached small_ram (10 ∷ 200 ∷ []) no_finalizer 2 100 107 small_blocks small_heap
      small_IsUnmarked (omega arith) 105 variable_IsReached
