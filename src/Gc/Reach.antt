-- ===== src/Gc/Reach.antt =====
-- The marking as a whole: every block that can be reached from the roots has its mark.
use mquickjs.Base.{
  ℕ, zero, suc, ◌+◌, ◌-◌, ◌*◌, ◌≤◌, ◌<◌, ◌≡◌, refl, sym, ap, ◌∙◌, ◌⊎◌, inl, inr, Bool, true, false,
  List, [], arith, Bool-cases,
}
use mquickjs.Props.{Words}
use mquickjs.Gc.{value_to_ptr}
use mquickjs.Gc.Thread.{Ram}
use mquickjs.Gc.Chain.{among}
use mquickjs.Gc.Graph.{is_reference}
use mquickjs.Gc.Tiles.{Tiles-end, Tiles-bounds}
use mquickjs.Gc.Swept.{is_marked}
use mquickjs.Gc.Mark.{GcMarkState, marked_slots, mark_roots, rescan, mark_overflow}
use mquickjs.Gc.Marking.{IsUnmarked, on_stack, unmarked_weight, Marked, Done}
use mquickjs.Gc.Room.{Stays}
use mquickjs.Gc.Pushed.{Grows, InOrder}
use mquickjs.Gc.Mark.{mark_all}
use mquickjs.Gc.Rescan.{mark_roots-Ran, unmarked_weight-Tiles, from}
use mquickjs.Gc.Overflow.{rescan-Ran}

-- The block `b` can be reached: a root refers to it, or a slot of a block that can be reached.
pub data IsReached (ram : Ram) (roots : List ℕ) (h : Words) : ℕ → Type 0 where
  from_root :
      (b x : ℕ)
      → among x roots ≡ true
      → is_reference ram (h x) ≡ true
      → value_to_ptr (h x) ≡ b
      → IsReached ram roots h b
  from_block :
      (b c x : ℕ)
      → IsReached ram roots h c
      → among x (marked_slots (h c) c) ≡ true
      → is_reference ram (h x) ≡ true
      → value_to_ptr (h x) ≡ b
      → IsReached ram roots h b

module _ {ram : Ram} {roots : List ℕ} {heap_base heap_free : ℕ} {bs : List ℕ} {h : Words}
    (u : IsUnmarked ram roots heap_base heap_free bs h) where
  -- No block is left.
  abbrev pub all_covered : ℕ → Bool
  all_covered c = false

  cover_all : (s : GcMarkState) → InOrder u (from u heap_free) s → InOrder u all_covered s
  cover_all s k = record {
    frame = k.frame;
    header = k.header;
    cover = λ c hc marked out.
        let (first, positive, last) = Tiles-bounds h heap_base bs heap_free c u.tiles hc in
        k.cover c hc marked (ground arith);
  }

  forget :
      (s : GcMarkState)
      → InOrder u all_covered s
      → InOrder u (from u heap_base) (record s { overflow = false })
  forget s k = record {
    frame = k.frame;
    header = k.header;
    cover = λ c hc marked out.
        let (first, positive, last) = Tiles-bounds h heap_base bs heap_free c u.tiles hc in
        absurd (ground arith);
  }

  -- The loop ends without an overflow, since each round that has one sets a mark.
  mark_overflow-Ran :
      (steps fuel : ℕ) (s : GcMarkState)
      → 4 * (heap_free - heap_base) ≤ steps
      → InOrder u all_covered s
      → s.stack ≡ []
      → (s.overflow ≡ false) ⊎ (unmarked_weight h s.mem bs < fuel)
      → let s' = mark_overflow ram steps fuel heap_base heap_free s in
        InOrder u all_covered s'
        × Grows s.mem s'.mem
        × (s'.stack ≡ [])
        × (s'.overflow ≡ false)
        × Stays s s'
  unfolding mark_overflow
  mark_overflow-Ran steps zero s enough k empty why = (
    k,
    λ c e. e,
    empty,
    elim why [ inl e ↦ e | inr lt ↦ absurd (omega arith) ],
    λ some_room. (refl, refl),
  )
  mark_overflow-Ran steps (suc fuel) s enough k empty why =
      let last = Tiles-end h heap_base bs heap_free u.tiles in
      let s0 : GcMarkState = record s { overflow = false } in
      let s1 = rescan ram steps (heap_free - heap_base) heap_free s0 heap_base in
      elim (Bool-cases s.overflow) [
        | inl full ↦
            let r =
              rescan-Ran u steps (heap_free - heap_base) heap_base bs s0 enough u.tiles
                (omega arith) (λ c i. i) (forget s k) empty in
            let fewer : unmarked_weight h s.mem bs < suc fuel = elim why [
              | inl e ↦ absurd (cc (e, full))
              | inr lt ↦ lt
            ] in
            let why' : (s1.overflow ≡ false) ⊎ (unmarked_weight h s1.mem bs < fuel) = elim r.lost [
              | inl e ↦ inl e
              | inr lt ↦ inr (omega arith)
            ] in
            let (k', grows, empty', over, stays) =
              mark_overflow-Ran steps fuel s1 enough (cover_all s1 r.marking) r.empty why' in
            let code : mark_overflow ram steps (suc fuel) heap_base heap_free s
                ≡ mark_overflow ram steps fuel heap_base heap_free s1 =
              rw full refl in
            rw code (
              k',
              λ c e. grows c (r.grows c e),
              empty',
              over,
              λ some_room.
                  let (a, b) = r.stays some_room in
                  let (a', b') = stays (omega (arith, b)) in (a' ∙ a, b' ∙ b),
            )
        | inr e ↦
            let code : mark_overflow ram steps (suc fuel) heap_base heap_free s ≡ s = rw e refl in
            rw code (k, λ c i. i, empty, e, λ some_room. (refl, refl))
      ]

  start_marking :
      (room : ℕ)
      → InOrder u all_covered
          (record { mem = h; stack = []; room = room; overflow = false; stray = false })
  start_marking room = record {
    frame = λ x out. refl;
    header = λ b hb. inl refl;
    cover = λ c hc marked out. let even = u.unmarked c hc in absurd (ground arith);
  }

  -- What the marking leaves.
  pub mark_all-Marking :
      (room : ℕ)
      → let s = mark_all ram roots room heap_base heap_free h in
        InOrder u all_covered s
        × (s.stack ≡ [])
        × (s.overflow ≡ false)
        × ((x : ℕ) → among x roots ≡ true → Marked ram h bs s.mem x)
        × (2 ≤ room → s.stray ≡ false)
  unfolding mark_all
  mark_all-Marking room =
      let words = heap_free - heap_base in
      let s : GcMarkState = record {
        mem = h;
        stack = [];
        room = room;
        overflow = false;
        stray = false;
      } in
      let few = unmarked_weight-Tiles u h heap_base bs u.tiles in
      let (r, marked) =
        mark_roots-Ran u all_covered (4 * words) roots s (start_marking room) refl (omega arith)
          (λ x i. u.roots_slots x i) in
      let s1 = mark_roots ram (4 * words) s roots in
      let (k, grows, empty, over, stays) =
        mark_overflow-Ran (4 * words) (2 * words + 1) s1 (omega arith) r.marking r.empty
          (inr (omega (arith, r.fewer))) in
      (
        k,
        empty,
        over,
        λ x i is. grows (value_to_ptr (h x)) (marked x i is),
        λ some_room.
            let (a, b) = r.stays some_room in let (a', b') = stays (omega (arith, b)) in a' ∙ a,
      )

  pub closed :
      (s : GcMarkState)
      → InOrder u all_covered s
      → s.stack ≡ []
      → s.overflow ≡ false
      → (c : ℕ) → among c bs ≡ true
      → is_marked s.mem c ≡ true
      → Done ram h bs s.mem c
  unfolding on_stack
  closed s k empty over c hc marked = elim (k.cover c hc marked refl) [
    | inl done ↦ done
    | inr (inl on) ↦ absurd (cc (sym (ap (on_stack c) empty) ∙ on))
    | inr (inr full) ↦ absurd (cc (over, full))
  ]

  reached :
      (s : GcMarkState)
      → ((c : ℕ) → among c bs ≡ true → is_marked s.mem c ≡ true → Done ram h bs s.mem c)
      → ((x : ℕ) → among x roots ≡ true → Marked ram h bs s.mem x)
      → (b : ℕ) → IsReached ram roots h b
      → (among b bs ≡ true) × (is_marked s.mem b ≡ true)
  reached s done roots_marked _ (from_root b x i is at) = (
    ap (λ z. among z bs) (sym at) ∙ (u.roots_slots x i).1 is,
    ap (is_marked s.mem) (sym at) ∙ roots_marked x i is,
  )
  reached s done roots_marked _ (from_block b c x r i is at) =
      let (hc, marked) = reached s done roots_marked c r in
      (
        ap (λ z. among z bs) (sym at) ∙ (u.slots c x hc i).1 is,
        ap (is_marked s.mem) (sym at) ∙ done c hc marked x i is,
      )

-- On a heap of blocks without mark, whose reference slots stand behind the headers and refer to blocks, the marking
-- ends with an empty stack and without an overflow, when the stack has room for two words at least, which it never leaves.
-- Every block that can be reached from the roots has its mark. The header of each block is as before, but for its mark, and so are all other words.
pub mark_all-IsReached :
    (ram : Ram) (roots : List ℕ) (room heap_base heap_free : ℕ) (bs : List ℕ) (h : Words)
    → IsUnmarked ram roots heap_base heap_free bs h
    → 2 ≤ room
    → let s = mark_all ram roots room heap_base heap_free h in
      ((b : ℕ) → IsReached ram roots h b → (among b bs ≡ true) × (is_marked s.mem b ≡ true))
      × (s.stack ≡ [])
      × (s.overflow ≡ false)
      × (s.stray ≡ false)
      × ((b : ℕ) → among b bs ≡ true → (s.mem b ≡ h b) ⊎ (s.mem b ≡ h b + 1))
      × ((x : ℕ) → among x bs ≡ false → s.mem x ≡ h x)
mark_all-IsReached ram roots room heap_base heap_free bs h u some_room =
    let s = mark_all ram roots room heap_base heap_free h in
    let (k, empty, over, roots_marked, inside) = mark_all-Marking u room in
    (
      λ b r. reached u s (closed u s k empty over) roots_marked b r,
      empty,
      over,
      inside some_room,
      k.header,
      k.frame,
    )
