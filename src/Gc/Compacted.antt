-- ===== src/Gc/Compacted.antt =====
-- The heap after gc_compact_heap: the blocks fill it without gaps and their references lead to blocks.
use mathlib.Core.Path.{subst}
use mquickjs.Base.{
  ℕ, ◌+◌, ◌≡◌, refl, sym, ap, ◌∙◌, inl, inr, true, false, ◌||◌, List, [], ◌∷◌, ◌++◌, arith, map,
  Bool-cases, ◌==◌,
}
use mquickjs.Props.{Words}
use mquickjs.Gc.{value_from_ptr, value_to_ptr, mtag, mtag_free, get_mblock_size}
use mquickjs.Gc.Thread.{Ram}
use mquickjs.Gc.Chain.{among, among-first, among-rest}
use mquickjs.Gc.Compact.{Roots, root_slots, gc_compact_heap}
use mquickjs.Gc.Graph.{
  is_reference, relocate, relocated, heap_slots, live_blocks, live_size, Tiles, new_place,
  WellFormed,
}
use mquickjs.Gc.Blocks.{threaded_slots}
use mquickjs.Gc.Tiles.{among-cons, among-append, heap_slots-block, Tiles-bounds}
use mquickjs.Gc.Pass1.{places-rest, place-first}
use mquickjs.Gc.Threaded.{slot-apart}
use mquickjs.Gc.Relocation.{slots-free, slots-stay, root_Slot, gc_compact_heap-relocated}

slot-relocated :
    (ram : Ram) (place : ℕ → ℕ) (slots : List ℕ) (h : Words) (x : ℕ)
    → among x slots ≡ true
    → is_reference ram (h x) ≡ true
    → relocated ram place slots h x ≡ value_from_ptr (place (value_to_ptr (h x)))
unfolding relocated relocate
slot-relocated ram place slots h x i is = rw i (rw is refl)

module _ {ram : Ram} {roots : List ℕ} {heap_base heap_free : ℕ} {bs : List ℕ} {h : Words}
    (w : WellFormed ram roots heap_base heap_free bs h) where
  abbrev placed : ℕ → ℕ
  placed = new_place h bs heap_base

  heap_slot-apart :
      (rest : List ℕ) (x : ℕ)
      → ((c : ℕ) → among c rest ≡ true → among c bs ≡ true)
      → among x (heap_slots h rest) ≡ true
      → among x bs ≡ false
  unfolding heap_slots among
  heap_slot-apart [] x sub i = absurd (ground arith)
  heap_slot-apart (b ∷ rest) x sub i =
      let after_b : among x (heap_slots h rest) ≡ true → among x bs ≡ false =
        λ j. heap_slot-apart rest x (λ c hc. sub c (among-rest c b rest hc)) j in
      elim (Bool-cases (mtag (h b) == mtag_free)) [
        | inl e ↦ after_b (sym (ap (among x) (slots-free h b rest e)) ∙ i)
        | inr e ↦
            let split =
              sym (among-append x (threaded_slots (h b) b) (heap_slots h rest))
              ∙ (sym (ap (among x) (slots-stay h b rest e)) ∙ i) in
            elim (Bool-cases (among x (threaded_slots (h b) b))) [
              | inl j ↦ slot-apart w placed 0 b x (sub b (among-first b rest)) e j
              | inr o ↦ after_b (sym (ap (λ z. z || among x (heap_slots h rest)) o) ∙ split)
            ]
      ]

  -- A header is no reference slot: it keeps its word.
  header-relocated :
      (c : ℕ) → among c bs ≡ true → relocated ram placed (roots ++ heap_slots h bs) h c ≡ h c
  unfolding relocated
  header-relocated c hc = elim (Bool-cases (among c (roots ++ heap_slots h bs))) [
    | inl i ↦
        let split = sym (among-append c roots (heap_slots h bs)) ∙ i in
        elim (Bool-cases (among c roots)) [
          | inl j ↦ let slot = root_Slot w c j in absurd (cc (hc, slot.no_head))
          | inr o ↦ absurd (
              cc (
                hc,
                heap_slot-apart bs c (λ d hd. hd)
                    (sym (ap (λ z. z || among c (heap_slots h bs)) o) ∙ split),
              ))
        ]
    | inr o ↦ rw o refl
  ]

  Tiles-place :
      (m' : Words) (ptr new_ptr : ℕ) (rest : List ℕ)
      → Tiles h ptr rest heap_free
      → ((c : ℕ) → among c rest ≡ true → placed c ≡ new_place h rest new_ptr c)
      → ((c : ℕ) → among c rest ≡ true → (mtag (h c) == mtag_free) ≡ false → m' (placed c) ≡ h c)
      → Tiles m' new_ptr (map placed (live_blocks h rest)) (new_ptr + live_size h rest)
  unfolding Tiles live_blocks live_size
  Tiles-place m' ptr new_ptr [] t places headers = omega arith
  Tiles-place m' ptr new_ptr (b ∷ rest) (at, some_words, t) places headers =
      let size = get_mblock_size (h b) in
      let t' = subst (λ p. Tiles h (p + size) rest heap_free) (sym at) t in
      let places' = places-rest w placed 0 b rest new_ptr t' some_words places in
      let first = place-first w placed 0 b rest new_ptr places in
      elim (Bool-cases (mtag (h b) == mtag_free)) [
        | inl e ↦ rw e (
            Tiles-place m' (ptr + size) new_ptr rest t (λ c i. places' c i ∙ rw e refl)
              (λ c i. headers c (among-rest c b rest i)))
        | inr e ↦
            let header = headers b (among-first b rest) e in
            let rest' =
              Tiles-place m' (ptr + size) (new_ptr + size) rest t (λ c i. places' c i ∙ rw e refl)
                (λ c i. headers c (among-rest c b rest i)) in
            rw e (
              first,
              rw header some_words,
              rw header (
                  subst (Tiles m' (new_ptr + size) (map placed (live_blocks h rest))) (omega arith)
                    rest'),
            )
      ]

  -- A block that stays is among those of the new heap.
  place-among :
      (c : ℕ) (rest : List ℕ)
      → among c rest ≡ true
      → (mtag (h c) == mtag_free) ≡ false
      → among (placed c) (map placed (live_blocks h rest)) ≡ true
  unfolding live_blocks among
  place-among c [] hc stays = absurd (ground arith)
  place-among c (b ∷ rest) hc stays = elim (among-cons c b rest hc) [
    | inl same ↦
        let stays' : (mtag (h b) == mtag_free) ≡ false =
          ap (λ z. mtag (h z) == mtag_free) (sym same) ∙ stays in
        rw stays' (rw same (ground arith))
    | inr j ↦
        let later = place-among c rest j stays in
        elim (Bool-cases (mtag (h b) == mtag_free)) [
          | inl e ↦ rw e later
          | inr e ↦ rw e (ground arith)
        ]
  ]

-- The header of a block stands in its new place.
moved-header :
    (ram : Ram) (r : Roots) (heap_base heap_free : ℕ) (bs : List ℕ) (h : Words)
    → WellFormed ram (root_slots ram r) heap_base heap_free bs h
    → (c : ℕ) → among c bs ≡ true
    → (mtag (h c) == mtag_free) ≡ false
    → (gc_compact_heap ram r heap_base heap_free h).0 (new_place h bs heap_base c) ≡ h c
moved-header ram r heap_base heap_free bs h w c hc stays =
    let (size, blocks, outside) = gc_compact_heap-relocated ram r heap_base heap_free bs h w in
    let at : (new_place h bs heap_base c + 0) ≡ new_place h bs heap_base c = omega arith in
    let at_c : c + 0 ≡ c = omega arith in
    let (first, positive, last) = Tiles-bounds h heap_base bs heap_free c w.tiles hc in
    let final = relocated ram (new_place h bs heap_base) (root_slots ram r ++ heap_slots h bs) h in
    let same : final (c + 0) ≡ h c = ap final at_c ∙ header-relocated w c hc in
    sym (ap (gc_compact_heap ram r heap_base heap_free h).0 at)
    ∙ (blocks c 0 hc stays positive ∙ same)

-- After gc_compact_heap on such a well-formed heap the blocks that were not free, in their order, fill it without
-- gaps up to its new end.
pub gc_compact_heap-Tiles :
    (ram : Ram) (r : Roots) (heap_base heap_free : ℕ) (bs : List ℕ) (h : Words)
    → WellFormed ram (root_slots ram r) heap_base heap_free bs h
    → let (m', end) = gc_compact_heap ram r heap_base heap_free h in
      Tiles m' heap_base (map (new_place h bs heap_base) (live_blocks h bs)) end
gc_compact_heap-Tiles ram r heap_base heap_free bs h w =
    let (size, blocks, outside) = gc_compact_heap-relocated ram r heap_base heap_free bs h w in
    rw size (
      Tiles-place w _ heap_base heap_base bs w.tiles (λ c hc. refl)
        (λ c hc stays. moved-header ram r heap_base heap_free bs h w c hc stays))

-- After gc_compact_heap on a well-formed heap, where the references in blocks that are not free lead to blocks that
-- are not free: each reference that gc_thread_block threads in a moved block leads to the new place of one of the moved blocks, where its header
-- stands.
pub gc_compact_heap-closed :
    (ram : Ram) (r : Roots) (heap_base heap_free : ℕ) (bs : List ℕ) (h : Words)
    → WellFormed ram (root_slots ram r) heap_base heap_free bs h
    → ((c x : ℕ)
        → among c bs ≡ true
        → (mtag (h c) == mtag_free) ≡ false
        → among x (threaded_slots (h c) c) ≡ true
        → is_reference ram (h x) ≡ true
        → (mtag (h (value_to_ptr (h x))) == mtag_free) ≡ false)
    → (c i : ℕ) → among c bs ≡ true
    → (mtag (h c) == mtag_free) ≡ false
    → among (c + i) (threaded_slots (h c) c) ≡ true
    → is_reference ram (h (c + i)) ≡ true
    → let (m', end) = gc_compact_heap ram r heap_base heap_free h in
      let place = new_place h bs heap_base in
      let target = value_to_ptr (h (c + i)) in
      (m' (place c + i) ≡ value_from_ptr (place target))
      × (among (place target) (map place (live_blocks h bs)) ≡ true)
      × (m' (place target) ≡ h target)
gc_compact_heap-closed ram r heap_base heap_free bs h w live c i hc stays slot is =
    let (size, blocks, outside) = gc_compact_heap-relocated ram r heap_base heap_free bs h w in
    let x = c + i in
    let (low, high) = w.slots c x hc stays slot in
    let in_heap : among x (heap_slots h bs) ≡ true = heap_slots-block h bs c x hc stays slot in
    let listed : among x (root_slots ram r ++ heap_slots h bs) ≡ true =
      among-append x (root_slots ram r) (heap_slots h bs) ∙ rw in_heap (ground arith) in
    let ht = w.targets x listed is in
    let alive = live c x hc stays slot is in
    (
      blocks c i hc stays (omega arith)
          ∙ slot-relocated ram (new_place h bs heap_base) (root_slots ram r ++ heap_slots h bs) h x
              listed is,
      place-among w (value_to_ptr (h x)) bs ht alive,
      moved-header ram r heap_base heap_free bs h w (value_to_ptr (h x)) ht alive,
    )
