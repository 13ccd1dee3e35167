-- ===== src/Gc/Kept.antt =====
-- A collection as a whole: what marking and sweep leave is a heap that can be compacted.
use mquickjs.Base.{
  ℕ, ◌+◌, ◌-◌, ◌≤◌, ◌<◌, ◌≡◌, refl, sym, ap, ◌∙◌, ◌⊎◌, inl, inr, Bool, true, false, ◌||◌, List,
  ◌++◌, arith, Bool-cases, ltb, leb, ◌==◌,
}
use mquickjs.Props.{Words}
use mquickjs.Gc.{value_to_ptr, gc_mark, mtag, mtag_free, get_mblock_size}
use mquickjs.Gc.Thread.{Ram}
use mquickjs.Gc.Chain.{among}
use mquickjs.Gc.Compact.{Roots, root_slots, gc_compact_heap}
use mquickjs.Gc.Graph.{Tiles, is_reference, heap_slots, new_place, relocated, WellFormed}
use mquickjs.Gc.Blocks.{threaded_slots}
use mquickjs.Gc.Tiles.{among-append}
use mquickjs.Gc.Sweep.{sweep_heap}
use mquickjs.Gc.Swept.{is_marked, swept, swept-among}
use mquickjs.Gc.Mark.{mark_all, marked_slots}
use mquickjs.Gc.Marking.{IsUnmarked}
use mquickjs.Gc.Reset.{sweep_heap-IsSwept}
use mquickjs.Gc.Reach.{IsReached, all_covered, closed, mark_all-Marking, mark_all-IsReached}
use mquickjs.Gc.Overflow.{header_now}
use mquickjs.Gc.Collected.{swept-marked, inside_block, Tiles-headers}
use mquickjs.Gc.References.{
  is_compartment, NoCompartment, heap_references, gc_compact_heap-references,
}
use mquickjs.Gc.Survivors.{
  threaded_slots-marked_slots, heap_slots-source, heap_slots-swept, IsSublist-append,
  IsSublist-NoDup,
}

-- What marking and sweep leave of the heap `h`, `v` after the marking and `m` after the sweep.
record IsKept (ram : Ram) (strong : List ℕ) (heap_base heap_free : ℕ) (bs : List ℕ) (h v m : Words)
    : Type 0 where
  pub word : (c : ℕ) → among c bs ≡ true → is_marked v c ≡ true → m c ≡ h c
  pub inside :
      (c x : ℕ)
      → among c bs ≡ true
      → is_marked v c ≡ true
      → c < x
      → x < c + get_mblock_size (h c)
      → m x ≡ h x
  pub free :
      (c : ℕ) → among c (swept v false bs) ≡ true → is_marked v c ≡ false → mtag (m c) ≡ mtag_free
  pub reset : (c : ℕ) → among c (swept v false bs) ≡ true → gc_mark (m c) ≡ 0
  pub out : (x : ℕ) → (ltb x heap_base || leb heap_free x) ≡ true → among x bs ≡ false → m x ≡ h x
  pub live :
      (c x : ℕ)
      → among c bs ≡ true
      → is_marked v c ≡ true
      → among x (marked_slots (h c) c) ≡ true
      → is_reference ram (h x) ≡ true
      → is_marked v (value_to_ptr (h x)) ≡ true
  pub roots_live :
      (x : ℕ)
      → among x strong ≡ true
      → is_reference ram (h x) ≡ true
      → is_marked v (value_to_ptr (h x)) ≡ true

kept :
    (ram : Ram) (strong : List ℕ) (has_finalizer : ℕ → Bool) (room heap_base heap_free : ℕ)
    (bs : List ℕ) (h : Words)
    → IsUnmarked ram strong heap_base heap_free bs h
    → let v = (mark_all ram strong room heap_base heap_free h).mem in
      IsKept ram strong heap_base heap_free bs h v
        (sweep_heap has_finalizer heap_free v heap_base).0
kept ram strong has_finalizer room heap_base heap_free bs h u =
    let s = mark_all ram strong room heap_base heap_free h in
    let (k, empty, over, roots_marked, inside_room) = mark_all-Marking u room in
    let sizes : (c : ℕ) → among c bs ≡ true → get_mblock_size (s.mem c) ≡ get_mblock_size (h c) =
      λ c hc. (header_now u (all_covered u) s c k hc).1 in
    let t = Tiles-headers h s.mem heap_base bs heap_free sizes u.tiles in
    let (tiles, stays, free, reset, beyond) =
      sweep_heap-IsSwept has_finalizer heap_base heap_free bs s.mem t in
    record {
      word = λ c hc marked.
          let (cleared, inside) = stays c hc marked in
          elim (k.header c hc) [
            | inl e ↦
                let even = u.unmarked c hc in
                let odd : (gc_mark (h c) == 1) ≡ true = ap (λ z. gc_mark z == 1) (sym e) ∙ marked in
                absurd (ground arith)
            | inr e ↦ omega arith
          ];
      inside = λ c x hc marked low high.
          let (cleared, inside) = stays c hc marked in
          let same_size = sizes c hc in
          let at : c + (x - c) ≡ x = omega arith in
          let not_header =
            inside_block h heap_base heap_free bs c (x - c) u.tiles hc (omega arith)
              (omega arith) in
          ap (sweep_heap has_finalizer heap_free s.mem heap_base).0 (sym at)
          ∙ (inside (x - c) (omega arith) (omega arith)
              ∙ (k.frame (c + (x - c)) not_header ∙ ap h at));
      free = free;
      reset = reset;
      out = λ x far not_header. beyond x (ground arith) ∙ k.frame x not_header;
      live = λ c x hc marked i is. closed u s k empty over c hc marked x i is;
      roots_live = roots_marked;
    }

module _ {ram : Ram} {strong : List ℕ} {heap_base heap_free : ℕ} {bs : List ℕ} {h v m : Words}
    (k : IsKept ram strong heap_base heap_free bs h v m) where
  -- A block of the swept heap that is not free had its mark.
  stays-marked :
      (c : ℕ)
      → among c (swept v false bs) ≡ true
      → (mtag (m c) == mtag_free) ≡ false
      → (among c bs ≡ true)
        × (is_marked v c ≡ true)
        × (m c ≡ h c)
        × ((mtag (h c) == mtag_free) ≡ false)
  stays-marked c hc stays =
      let hb = swept-among v false bs c hc in
      elim (Bool-cases (is_marked v c)) [
        | inl e ↦
            let word = k.word c hb e in
            (hb, e, word, ap (λ z. mtag z == mtag_free) (sym word) ∙ stays)
        | inr e ↦ let tag = k.free c hc e in absurd (ground arith)
      ]

  swept_slot :
      (roots : List ℕ)
      → WellFormed ram roots heap_base heap_free bs h
      → (c x : ℕ) → among c (swept v false bs) ≡ true
      → (mtag (m c) == mtag_free) ≡ false
      → among x (threaded_slots (m c) c) ≡ true
      → (among x (threaded_slots (h c) c) ≡ true)
        × (c < x)
        × (x < c + get_mblock_size (h c))
        × (m x ≡ h x)
  swept_slot roots w c x hc stays i =
      let (hb, marked, word, stays') = stays-marked c hc stays in
      let i' = sym (ap (λ z. among x (threaded_slots z c)) word) ∙ i in
      let (low, high) = w.slots c x hb stays' i' in (i', low, high, k.inside c x hb marked low high)

  swept-WellFormed :
      (roots : List ℕ)
      → WellFormed ram roots heap_base heap_free bs h
      → IsUnmarked ram strong heap_base heap_free bs h
      → Tiles m heap_base (swept v false bs) heap_free
      → ((x : ℕ)
          → among x roots ≡ true
          → (among x bs ≡ false) × ((among x strong ≡ true) ⊎ (is_reference ram (h x) ≡ false)))
      → WellFormed ram roots heap_base heap_free (swept v false bs) m
  swept-WellFormed roots w u t strength = record {
    tiles = t;
    headers = λ b hb. let even = k.reset b hb in ground arith;
    slots = λ b x hb stays i.
        let (hc, marked, word, stays') = stays-marked b hb stays in
        let (i', low, high, same) = swept_slot roots w b x hb stays i in (low, rw word high);
    no_loop = λ b x hb stays i.
        let (hc, marked, word, stays') = stays-marked b hb stays in
        let (i', low, high, same) = swept_slot roots w b x hb stays i in
        rw same (w.no_loop b x hc stays' i');
    targets = λ x i is. elim (Bool-cases (among x roots)) [
      | inl j ↦
          let (not_header, strength_x) = strength x j in
          let same = k.out x (w.outside x j) not_header in
          let is' = sym (ap (is_reference ram) same) ∙ is in
          elim strength_x [
            | inl s ↦ rw same (
                swept-marked v false bs (value_to_ptr (h x)) ((u.roots_slots x s).1 is')
                  (k.roots_live x s is'))
            | inr none ↦ absurd (cc (is', none))
          ]
      | inr o ↦
          let later =
            ap (λ z. z || among x (heap_slots m (swept v false bs))) (sym o)
            ∙ (sym (among-append x roots _) ∙ i) in
          let (c, hc, stays, slot) = heap_slots-source m (swept v false bs) x later in
          let (hb, marked, word, stays') = stays-marked c hc stays in
          let (slot', low, high, same) = swept_slot roots w c x hc stays slot in
          let is' = sym (ap (is_reference ram) same) ∙ is in
          let slot_marked = threaded_slots-marked_slots (h c) c x slot' in
          rw same (
            swept-marked v false bs (value_to_ptr (h x)) ((u.slots c x hb slot_marked).1 is')
              (k.live c x hb marked slot_marked is'))
    ];
    outside = w.outside;
    nodup =
        IsSublist-NoDup (roots ++ heap_slots m (swept v false bs)) (roots ++ heap_slots h bs)
          (IsSublist-append roots _ _ (heap_slots-swept h v m false bs k.word k.free)) w.nodup;
  }

-- A collection, from the marking on, of a heap that is well formed and has no marks. The slots outside the heap that the
-- compaction goes through are among the roots of the marking, or hold no reference, as those of the weak references do
-- when they are empty; no block is a compartment, and the mark stack has room for two words. Then the stack does not leave
-- its room, and each block that can be reached and is not a free one stands at its new place: its references,
-- and those of the slots outside, lead to the new places of their blocks, and all its other words are what they were.
pub gc_compact_heap-IsReached :
    (ram : Ram) (strong : List ℕ) (r : Roots) (has_finalizer : ℕ → Bool)
    (room heap_base heap_free : ℕ) (bs : List ℕ) (h : Words)
    → WellFormed ram (root_slots ram r) heap_base heap_free bs h
    → IsUnmarked ram strong heap_base heap_free bs h
    → ((x : ℕ)
        → among x (root_slots ram r) ≡ true
        → (among x bs ≡ false) × ((among x strong ≡ true) ⊎ (is_reference ram (h x) ≡ false)))
    → NoCompartment h bs
    → 2 ≤ room
    → let s = mark_all ram strong room heap_base heap_free h in
      let v = s.mem in
      let m = (sweep_heap has_finalizer heap_free v heap_base).0 in
      let blocks = swept v false bs in
      let (m', end) = gc_compact_heap ram r heap_base heap_free m in
      let place = new_place m blocks heap_base in
      let final = relocated ram place (root_slots ram r ++ heap_references m blocks) h in
      (s.stray ≡ false)
      × ((b i : ℕ)
          → IsReached ram strong h b
          → (mtag (h b) == mtag_free) ≡ false
          → i < get_mblock_size (h b)
          → m' (place b + i) ≡ final (b + i))
      × ((x : ℕ) → among x (root_slots ram r) ≡ true → m' x ≡ final x)
unfolding relocated
gc_compact_heap-IsReached ram strong r has_finalizer room heap_base heap_free bs h w u strength none
      some_room =
    let s = mark_all ram strong room heap_base heap_free h in
    let v = s.mem in
    let m = (sweep_heap has_finalizer heap_free v heap_base).0 in
    let blocks = swept v false bs in
    let roots = root_slots ram r in
    let k = kept ram strong has_finalizer room heap_base heap_free bs h u in
    let (marking, empty, over, roots_marked, inside_room) = mark_all-Marking u room in
    let t =
      Tiles-headers h v heap_base bs heap_free
        (λ c hc. (header_now u (all_covered u) s c marking hc).1) u.tiles in
    let (tiles, stay, free, reset, beyond) =
      sweep_heap-IsSwept has_finalizer heap_base heap_free bs v t in
    let w' = swept-WellFormed k roots w u tiles strength in
    let none' : NoCompartment m blocks = λ c hc stays.
      let (hb, marked, word, stays') = stays-marked k c hc stays in
      ap is_compartment word ∙ none c hb stays' in
    let (size, moved, outside) =
      gc_compact_heap-references ram r heap_base heap_free blocks m w' none' in
    let (reached, no_stack, no_overflow, no_stray, headers, frame) =
      mark_all-IsReached ram strong room heap_base heap_free bs h u some_room in
    let place = new_place m blocks heap_base in
    let slots = roots ++ heap_references m blocks in
    let at_word : (x : ℕ)
        → m x ≡ h x
        → relocated ram place slots m x ≡ relocated ram place slots h x =
      λ x same. rw same refl in
    (
      no_stray,
      λ b i r_b stays lt.
          let (hb, marked) = reached b r_b in
          let word = k.word b hb marked in
          let same : m (b + i) ≡ h (b + i) = elim (Bool-cases (i == 0)) [
            | inl e ↦ let at : b + i ≡ b = ground arith in ap m at ∙ (word ∙ ap h (sym at))
            | inr e ↦
                let low : b < b + i = ground arith in k.inside b (b + i) hb marked low (omega arith)
          ] in
          moved b i (swept-marked v false bs b hb marked)
            (ap (λ z. mtag z == mtag_free) word ∙ stays) (rw word lt)
          ∙ at_word (b + i) same,
      λ x j.
          let far : (x < heap_base) ⊎ (heap_free ≤ x) = let o = w.outside x j in ground arith in
          outside x far ∙ at_word x (k.out x (w.outside x j) (strength x j).0),
    )
