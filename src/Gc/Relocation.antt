-- ===== src/Gc/Relocation.antt =====
-- gc_compact_heap as a whole: the blocks that are not free move together and every reference follows its block.
use mquickjs.Base.{
  ℕ, ◌+◌, ◌-◌, ◌≤◌, ◌<◌, ◌≡◌, refl, sym, ap, ◌∙◌, ◌⊎◌, inl, inr, Bool, true, false, ◌||◌, List, [],
  ◌∷◌, ◌++◌, arith, length, Bool-cases, ◌==◌,
}
use mquickjs.Props.{Words}
use mquickjs.Gc.{value_to_ptr, mtag, mtag_free, get_mblock_size}
use mquickjs.Gc.Thread.{Ram}
use mquickjs.Gc.Chain.{among, NoDup, Chain, among-first, among-rest}
use mquickjs.Gc.Compact.{Roots, root_slots, thread_roots, gc_compact_heap}
use mquickjs.Gc.Graph.{relocated, heap_slots, live_size, new_place, WellFormed}
use mquickjs.Gc.Blocks.{threaded_slots}
use mquickjs.Gc.Staged.{Staged, stage}
use mquickjs.Gc.Slots.{Slot, thread_roots-Staged}
use mquickjs.Gc.Tiles.{among-append, stage-among, NoDup-append, Tiles-end, Tiles-bounds}
use mquickjs.Gc.Pass1.{thread_pass-Staged}
use mquickjs.Gc.Threaded.{all_live}
use mquickjs.Gc.Pass2.{move_pass-Outcome}
use mquickjs.Gc.Moved.{ahead}
use mquickjs.Gc.Settled.{narrow-Staged}
use mquickjs.Gc.Count.{length-NoDup}

pub slots-free :
    (h : Words) (b : ℕ) (rest : List ℕ)
    → (mtag (h b) == mtag_free) ≡ true
    → heap_slots h (b ∷ rest) ≡ heap_slots h rest
unfolding heap_slots
slots-free h b rest e = rw e refl

pub slots-stay :
    (h : Words) (b : ℕ) (rest : List ℕ)
    → (mtag (h b) == mtag_free) ≡ false
    → heap_slots h (b ∷ rest) ≡ threaded_slots (h b) b ++ heap_slots h rest
unfolding heap_slots
slots-stay h b rest e = rw e refl

either : (a b : Bool) → (a || (b || false)) ≡ (b || a)
either a b = ground arith

module _ {ram : Ram} {roots : List ℕ} {heap_base heap_free : ℕ} {bs : List ℕ} {h : Words}
    (w : WellFormed ram roots heap_base heap_free bs h) where
  abbrev all_slots : List ℕ
  all_slots = roots ++ heap_slots h bs

  abbrev placed : ℕ → ℕ
  placed = new_place h bs heap_base

  none_staged : ℕ → Bool
  none_staged x = false

  -- Before the collection nothing is threaded.
  start : Staged ram h placed bs all_live (λ x. false) heap_base heap_free 0 (λ c. []) h h
  unfolding among NoDup Chain
  start = record {
    rep = record {
      chain = λ b hb. refl;
      nodup = λ b hb. tt;
      points = λ b x hb i. absurd (ground arith);
      header = w.headers;
      plain = λ x hx lx out. refl;
    };
    slot = λ c x hc i. absurd (ground arith);
    target = λ c x hc i. absurd (ground arith);
    after = λ c x hc i lt. absurd (ground arith);
    settled = λ x st. absurd (ground arith);
    fresh = λ x st. refl;
    apart = λ x st. absurd (ground arith);
    count = λ c hc. omega arith;
  }

  pub root_Slot : (x : ℕ) → among x roots ≡ true → Slot ram h bs all_live heap_base heap_free x
  root_Slot x i = record {
    no_head = elim (Bool-cases (among x bs)) [
      | inl hx ↦
          let (first, positive, last) = Tiles-bounds h heap_base bs heap_free x w.tiles hx in
          let out = w.outside x i in absurd (ground arith)
      | inr o ↦ o
    ];
    is_live = refl;
    block = w.targets x (among-append x roots (heap_slots h bs) ∙ rw i refl);
    later = λ is lt.
        let hc = w.targets x (among-append x roots (heap_slots h bs) ∙ rw i refl) is in
        let (first, positive, last) =
          Tiles-bounds h heap_base bs heap_free (value_to_ptr (h x)) w.tiles hc in
        absurd (omega arith);
  }

  -- The slots of the heap are inside it.
  heap_slot-inside :
      (rest : List ℕ) (x : ℕ)
      → ((c : ℕ) → among c rest ≡ true → among c bs ≡ true)
      → among x (heap_slots h rest) ≡ true
      → (heap_base ≤ x) × (x < heap_free)
  unfolding heap_slots among
  heap_slot-inside [] x sub i = absurd (ground arith)
  heap_slot-inside (b ∷ rest) x sub i =
      let after_b : among x (heap_slots h rest) ≡ true → (heap_base ≤ x) × (x < heap_free) =
        λ j. heap_slot-inside rest x (λ c hc. sub c (among-rest c b rest hc)) j in
      let hb = sub b (among-first b rest) in
      elim (Bool-cases (mtag (h b) == mtag_free)) [
        | inl e ↦ after_b (sym (ap (among x) (slots-free h b rest e)) ∙ i)
        | inr e ↦
            let split =
              sym (among-append x (threaded_slots (h b) b) (heap_slots h rest))
              ∙ (sym (ap (among x) (slots-stay h b rest e)) ∙ i) in
            elim (Bool-cases (among x (threaded_slots (h b) b))) [
              | inl j ↦
                  let (low, high) = w.slots b x hb e j in
                  let (first, positive, last) =
                    Tiles-bounds h heap_base bs heap_free b w.tiles hb in
                  (omega arith, omega arith)
              | inr o ↦ after_b (sym (ap (λ z. z || among x (heap_slots h rest)) o) ∙ split)
            ]
      ]

  few_slots : length (heap_slots h bs) ≤ heap_free - heap_base
  few_slots =
      let last = Tiles-end h heap_base bs heap_free w.tiles in
      let (first, second, apart) = NoDup-append roots (heap_slots h bs) w.nodup in
      length-NoDup heap_base (heap_free - heap_base) (heap_slots h bs) second
        (λ x i. let (low, high) = heap_slot-inside bs x (λ c hc. hc) i in (low, omega arith))

-- A heap of blocks, in which the reference slots are distinct, stand behind the headers of their blocks and refer
-- to other blocks of the heap, with roots outside it: gc_compact_heap moves each block that is not free to the place
-- behind those before it, redirects every reference in its slots that gc_thread_block threads, and in the roots, to the new place of its block, and leaves
-- all other words of these blocks, and those outside the heap, as they were. The heap ends behind the blocks.
pub gc_compact_heap-relocated :
    (ram : Ram) (r : Roots) (heap_base heap_free : ℕ) (bs : List ℕ) (h : Words)
    → WellFormed ram (root_slots ram r) heap_base heap_free bs h
    → let (m', end) = gc_compact_heap ram r heap_base heap_free h in
      let place = new_place h bs heap_base in
      let final = relocated ram place (root_slots ram r ++ heap_slots h bs) h in
      (end ≡ heap_base + live_size h bs)
      × ((c i : ℕ)
          → among c bs ≡ true
          → (mtag (h c) == mtag_free) ≡ false
          → i < get_mblock_size (h c)
          → m' (place c + i) ≡ final (c + i))
      × ((y : ℕ) → (y < heap_base) ⊎ (heap_free ≤ y) → m' y ≡ final y)
unfolding gc_compact_heap
gc_compact_heap-relocated ram r heap_base heap_free bs h w =
    let roots = root_slots ram r in
    let slots = roots ++ heap_slots h bs in
    let chain = length roots + (heap_free - heap_base) in
    let place = new_place h bs heap_base in
    let last = Tiles-end h heap_base bs heap_free w.tiles in
    let few = few_slots w in
    let (first, second, apart) = NoDup-append roots (heap_slots h bs) w.nodup in
    let (threads1, s1, keeps) =
      thread_roots-Staged (start w) roots first (λ x i. refl) (λ x i. root_Slot w x i) in
    let (threads2, l, s2) =
      thread_pass-Staged w place chain (heap_free - heap_base) heap_base heap_base bs
        (stage roots (λ x. false)) (length roots + 0) (thread_roots ram h roots) (threads1, h, s1)
        w.tiles (omega arith) (λ c hc. hc) (omega arith) second
        (λ x i. stage-among roots (λ y. false) x ∙ rw (apart x i) refl) (λ c hc. refl) in
    let staged = stage (heap_slots h bs) (stage roots (λ x. false)) in
    let is : (x : ℕ) → staged x ≡ among x slots = λ x.
      stage-among (heap_slots h bs) (stage roots (λ y. false)) x
      ∙ (ap (λ z. among x (heap_slots h bs) || z) (stage-among roots (λ y. false) x)
          ∙ (either (among x (heap_slots h bs)) (among x roots)
              ∙ sym (among-append x roots (heap_slots h bs)))) in
    let s3 = narrow-Staged (ahead heap_base heap_base) (λ x lx. refl) s2 in
    let (size, blocks, below, outside) =
      move_pass-Outcome w place chain (length (heap_slots h bs) + (length roots + 0)) (omega arith)
        staged slots is (heap_free - heap_base) heap_base heap_base bs threads2 _ l s3 w.tiles
        (omega arith) (omega arith, omega arith) (λ c hc. refl) in
    (size, blocks, outside)
