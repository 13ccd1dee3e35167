-- ===== src/Gc/References.antt =====
-- The compaction and all the references of a heap, which are those that gc_mark_flush marks. gc_thread_block threads them
-- but for the two of a compartment.
use mquickjs.Base.{
  ℕ, ◌+◌, ◌≤◌, ◌<◌, ◌≡◌, refl, sym, ap, ◌∙◌, ◌⊎◌, inl, inr, Bool, true, false, ◌&&◌, List, [], ◌∷◌,
  ◌++◌, map, Bool-cases, ◌==◌, if◌then◌else◌,
}
use mquickjs.Props.{Words}
use mquickjs.Gc.{
  value_from_ptr, value_to_ptr, mtag, mtag_free, mtag_object, class_id, get_mblock_size,
}
use mquickjs.Gc.Thread.{Ram}
use mquickjs.Gc.Chain.{among, among-first, among-rest}
use mquickjs.Gc.Compact.{Roots, root_slots, gc_compact_heap}
use mquickjs.Gc.Graph.{
  is_reference, heap_slots, live_blocks, live_size, new_place, relocated, WellFormed,
}
use mquickjs.Gc.Blocks.{threaded_slots}
use mquickjs.Gc.Mark.{marked_slots, class_compartment}
use mquickjs.Gc.Relocation.{gc_compact_heap-relocated}
use mquickjs.Gc.Compacted.{gc_compact_heap-closed}
use mquickjs.Gc.Survivors.{object_slots, other_slots}

abbrev pub is_compartment : ℕ → Bool
is_compartment v = (mtag v == mtag_object) && (class_id v == class_compartment)

-- No block that stays is a compartment, which gc_thread_block leaves out.
abbrev pub NoCompartment : Words → List ℕ → Type 0
NoCompartment h bs =
    (b : ℕ) → among b bs ≡ true → (mtag (h b) == mtag_free) ≡ false → is_compartment (h b) ≡ false

-- The words of the blocks that are not free which gc_mark_flush takes for references.
unfoldable pub heap_references : Words → List ℕ → List ℕ
heap_references h [] = []
heap_references h (b ∷ bs) =
    if mtag (h b) == mtag_free
    then heap_references h bs
    else marked_slots (h b) b ++ heap_references h bs

pub threaded-marked : (v b : ℕ) → is_compartment v ≡ false → threaded_slots v b ≡ marked_slots v b
threaded-marked v b none = elim (Bool-cases (mtag v == mtag_object)) [
  | inl e ↦
      let (refs, marks) = object_slots v b e in
      let class : (class_id v == class_compartment) ≡ false =
        sym (ap (λ z. z && (class_id v == class_compartment)) e) ∙ none in
      refs ∙ (rw class refl ∙ sym marks)
  | inr e ↦ other_slots v b e
]

-- Without compartments the references are the slots that are threaded.
pub heap_slots-references :
    (h : Words) (bs : List ℕ) → NoCompartment h bs → heap_slots h bs ≡ heap_references h bs
unfolding heap_slots heap_references
heap_slots-references h [] none = refl
heap_slots-references h (b ∷ bs) none =
    let rest = heap_slots-references h bs (λ c i. none c (among-rest c b bs i)) in
    elim (Bool-cases (mtag (h b) == mtag_free)) [
      | inl e ↦ rw e rest
      | inr e ↦
          let here = threaded-marked (h b) b (none b (among-first b bs) e) in
          rw (e, here, rest) refl
    ]

-- On a well-formed heap without compartments, with roots outside it: gc_compact_heap moves each block that is not free to
-- the place behind those before it, redirects every reference in it and in the roots to the new place of its block, and
-- leaves all other words of these blocks, and those outside the heap, as they were. The heap ends behind the blocks.
pub gc_compact_heap-references :
    (ram : Ram) (r : Roots) (heap_base heap_free : ℕ) (bs : List ℕ) (h : Words)
    → WellFormed ram (root_slots ram r) heap_base heap_free bs h
    → NoCompartment h bs
    → let (m', end) = gc_compact_heap ram r heap_base heap_free h in
      let place = new_place h bs heap_base in
      let final = relocated ram place (root_slots ram r ++ heap_references h bs) h in
      (end ≡ heap_base + live_size h bs)
      × ((c i : ℕ)
          → among c bs ≡ true
          → (mtag (h c) == mtag_free) ≡ false
          → i < get_mblock_size (h c)
          → m' (place c + i) ≡ final (c + i))
      × ((y : ℕ) → (y < heap_base) ⊎ (heap_free ≤ y) → m' y ≡ final y)
gc_compact_heap-references ram r heap_base heap_free bs h w none =
    let same = heap_slots-references h bs none in
    rw (← same) (gc_compact_heap-relocated ram r heap_base heap_free bs h w)

-- After gc_compact_heap on a well-formed heap without compartments, where the references in blocks that are not free lead
-- to blocks that are not free: each reference in a moved block leads to the new place of one of the moved blocks, where its
-- header stands.
pub gc_compact_heap-IsClosed :
    (ram : Ram) (r : Roots) (heap_base heap_free : ℕ) (bs : List ℕ) (h : Words)
    → WellFormed ram (root_slots ram r) heap_base heap_free bs h
    → NoCompartment h bs
    → ((c x : ℕ)
        → among c bs ≡ true
        → (mtag (h c) == mtag_free) ≡ false
        → among x (marked_slots (h c) c) ≡ true
        → is_reference ram (h x) ≡ true
        → (mtag (h (value_to_ptr (h x))) == mtag_free) ≡ false)
    → (c i : ℕ) → among c bs ≡ true
    → (mtag (h c) == mtag_free) ≡ false
    → among (c + i) (marked_slots (h c) c) ≡ true
    → is_reference ram (h (c + i)) ≡ true
    → let (m', end) = gc_compact_heap ram r heap_base heap_free h in
      let place = new_place h bs heap_base in
      let target = value_to_ptr (h (c + i)) in
      (m' (place c + i) ≡ value_from_ptr (place target))
      × (among (place target) (map place (live_blocks h bs)) ≡ true)
      × (m' (place target) ≡ h target)
gc_compact_heap-IsClosed ram r heap_base heap_free bs h w none live c i hc stays slot is =
    gc_compact_heap-closed ram r heap_base heap_free bs h w
      (λ d x hd stays_d j.
        live d x hd stays_d (sym (ap (among x) (threaded-marked (h d) d (none d hd stays_d))) ∙ j))
      c i hc stays (ap (among (c + i)) (threaded-marked (h c) c (none c hc stays)) ∙ slot) is
