-- ===== src/Gc/Overflow.antt =====
-- The heap is marked through again until the stack has not overflowed.
use mathlib.Core.Path.{subst}
use mquickjs.Base.{
  ℕ, zero, suc, ◌+◌, ◌-◌, ◌*◌, ◌≤◌, ◌<◌, ◌≡◌, refl, sym, ap, ◌∙◌, ◌⊎◌, inl, inr, Bool, true, false,
  ◌&&◌, List, [], ◌∷◌, arith, Bool-cases, ltb, if◌then◌else◌,
}
use mquickjs.Props.{Words}
use mquickjs.Gc.{mtag, get_mblock_size}
use mquickjs.Gc.Thread.{Ram}
use mquickjs.Gc.Chain.{among, among-first, among-rest}
use mquickjs.Gc.Graph.{Tiles}
use mquickjs.Gc.Tiles.{Tiles-end}
use mquickjs.Gc.Swept.{is_marked}
use mquickjs.Gc.Mark.{mtag_has_references, on_top, GcMarkState, marked_slots, gc_mark_flush, rescan}
use mquickjs.Gc.Marking.{IsUnmarked, Marking, marked-fields, stack_weight}
use mquickjs.Gc.Room.{on_top-Stays}
use mquickjs.Gc.Pushed.{marked_slots-none, InOrder}
use mquickjs.Gc.Swept.{unmarked-header}
use mquickjs.Gc.Rescan.{
  Ran, no_Ran, Ran-after, gc_mark_flush-Ran, unmarked_weight-Tiles, from, entry_of,
  entry_of-IsEntry, taken,
}

module _ {ram : Ram} {roots : List ℕ} {heap_base heap_free : ℕ} {bs : List ℕ} {h : Words}
    (u : IsUnmarked ram roots heap_base heap_free bs h) where
  pub header_now :
      (left : ℕ → Bool) (s : GcMarkState) (b : ℕ)
      → InOrder u left s
      → among b bs ≡ true
      → (mtag (s.mem b) ≡ mtag (h b)) × (get_mblock_size (s.mem b) ≡ get_mblock_size (h b))
  header_now left s b k hb =
      let (tag, class, extra, size, odd) = marked-fields (h b) (u.unmarked b hb) in
      let (same_size, same_tag, clear) = unmarked-header (h b + 1) odd in
      let back : h b + 1 - 1 ≡ h b = omega arith in
      elim (k.header b hb) [
        | inl e ↦ (ap mtag e, ap get_mblock_size e)
        | inr e ↦
            (ap mtag e ∙ tag, ap get_mblock_size e ∙ (sym same_size ∙ ap get_mblock_size back))
      ]

  abbrev scanned : ℕ → GcMarkState → ℕ → GcMarkState
  scanned steps s b =
      if is_marked s.mem b && mtag_has_references (mtag (h b))
      then gc_mark_flush ram steps (on_top s (entry_of u b))
      else s

  rescan-step :
      (steps fuel : ℕ) (s : GcMarkState) (b : ℕ)
      → b < heap_free
      → (mtag (s.mem b) ≡ mtag (h b)) × (get_mblock_size (s.mem b) ≡ get_mblock_size (h b))
      → rescan ram steps (suc fuel) heap_free s b
        ≡ rescan ram steps fuel heap_free (scanned steps s b) (b + get_mblock_size (h b))
  unfolding rescan
  rescan-step steps fuel s b lt (tag, size) =
      let goes : ltb b heap_free ≡ true = ground arith in rw goes (rw tag (rw size refl))

  rescan-end :
      (steps fuel : ℕ) (s : GcMarkState) (p : ℕ)
      → p ≡ heap_free
      → rescan ram steps fuel heap_free s p ≡ s
  unfolding rescan
  rescan-end steps zero s p at = refl
  rescan-end steps (suc fuel) s p at =
      let stop : ltb p heap_free ≡ false = ground arith in rw stop refl

  -- One block of the scan.
  scanned-Ran :
      (steps : ℕ) (s : GcMarkState) (b : ℕ)
      → 4 * (heap_free - heap_base) ≤ steps
      → among b bs ≡ true
      → InOrder u (from u b) s
      → s.stack ≡ []
      → Ran u (from u (b + get_mblock_size (h b))) s (scanned steps s b)
  scanned-Ran steps s b enough hb k empty =
      let (entry, on, cost) = entry_of-IsEntry u s.mem b hb in
      let weighs = unmarked_weight-Tiles u s.mem heap_base bs u.tiles in
      let left = from u (b + get_mblock_size (h b)) in
      let skipped : ((marked_slots (h b) b ≡ []) ⊎ (is_marked s.mem b ≡ false)) → Ran u left s s =
        λ why.
          let k' = taken u s b s.stack hb k empty (inr why) in
          no_Ran u left s (record { frame = k'.frame; header = k'.header; cover = k'.cover })
            empty in
      elim (Bool-cases (is_marked s.mem b)) [
        | inl m ↦ elim (Bool-cases (mtag_has_references (mtag (h b)))) [
          | inl refs ↦
              let es = entry_of u b ∷ [] in
              let s0 = on_top s (entry_of u b) in
              let stacked : entry_of u b ∷ s.stack ≡ es = ap (λ z. entry_of u b ∷ z) empty in
              let k0 =
                subst (λ z. Marking ram h bs left s.mem z s.overflow) (sym stacked)
                  (taken u s b es hb k empty (inl on)) in
              let same_cost : stack_weight h s0.stack ≡ stack_weight h es =
                ap (stack_weight h) stacked in
              let r =
                gc_mark_flush-Ran u left steps s0 es stacked k0 (entry, tt)
                  (omega (arith, same_cost)) in
              let after : Ran u left s (gc_mark_flush ram steps s0) =
                Ran-after u left left s s0 _ (λ c e. e) (inl refl) (omega arith)
                  (on_top-Stays s (entry_of u b) empty) r in
              let both : (is_marked s.mem b && mtag_has_references (mtag (h b))) ≡ true =
                ground arith in
              rw both after
          | inr none ↦
              let neither : (is_marked s.mem b && mtag_has_references (mtag (h b))) ≡ false =
                ground arith in
              rw neither (skipped (inl (marked_slots-none (h b) b none)))
        ]
        | inr free ↦
            let neither : (is_marked s.mem b && mtag_has_references (mtag (h b))) ≡ false =
              ground arith in
            rw neither (skipped (inr free))
      ]

  -- One scan of the heap.
  pub rescan-Ran :
      (steps fuel ptr : ℕ) (rest : List ℕ) (s : GcMarkState)
      → 4 * (heap_free - heap_base) ≤ steps
      → Tiles h ptr rest heap_free
      → heap_free ≤ ptr + fuel
      → ((c : ℕ) → among c rest ≡ true → among c bs ≡ true)
      → InOrder u (from u ptr) s
      → s.stack ≡ []
      → Ran u (from u heap_free) s (rescan ram steps fuel heap_free s ptr)
  unfolding Tiles
  rescan-Ran steps fuel ptr [] s enough t inside sub k empty =
      rw (rescan-end steps fuel s ptr t)
        (no_Ran u (from u heap_free) s (subst (λ p. InOrder u (from u p) s) t k) empty)
  rescan-Ran steps zero ptr (b ∷ rest) s enough (at, some_words, t) inside sub k empty =
      let last = Tiles-end h (ptr + get_mblock_size (h b)) rest heap_free t in absurd (omega arith)
  rescan-Ran steps (suc fuel) ptr (b ∷ rest) s enough (at, some_words, t) inside sub k empty =
      let size = get_mblock_size (h b) in
      let t' = subst (λ p. Tiles h (p + size) rest heap_free) (sym at) t in
      let last = Tiles-end h (b + size) rest heap_free t' in
      let k' = subst (λ p. InOrder u (from u p) s) (sym at) k in
      let hb = sub b (among-first b rest) in
      let r = scanned-Ran steps s b enough hb k' empty in
      let s1 = scanned steps s b in
      let later =
        rescan-Ran steps fuel (b + size) rest s1 enough t' (omega arith)
          (λ c i. sub c (among-rest c b rest i)) r.marking r.empty in
      let both =
        Ran-after u (from u heap_free) (from u heap_free) s s1 _ r.grows r.lost r.fewer r.stays
          later in
      subst (λ p. Ran u (from u heap_free) s (rescan ram steps (suc fuel) heap_free s p)) at
        (rw (rescan-step steps fuel s b (omega arith) (header_now (from u b) s b k' hb)) both)
