-- ===== src/Gc/Flushed.antt =====
-- gc_mark_flush: every entry of the stack is worked off.
use mathlib.Core.Path.{subst}
use mquickjs.Base.{
  ℕ, ◌+◌, ◌-◌, ◌≤◌, ◌<◌, ◌≡◌, refl, sym, ap, ◌∙◌, ◌⊎◌, inl, inr, Bool, true, List, ◌∷◌, arith, All,
  Bool-cases, ltb,
}
use mquickjs.Props.{Words}
use mquickjs.Gc.{size_field}
use mquickjs.Gc.Thread.{Ram}
use mquickjs.Gc.Mark.{
  Entry, block, array, GcMarkState, marked_slots, mark_value, mark_slots, skip_values, flush_entry,
}
use mquickjs.Gc.Marking.{IsUnmarked, on_stack, unmarked_weight, stack_weight, Marked, IsEntry}
use mquickjs.Gc.Pushed.{Grows, potential, InOrder}
use mquickjs.Gc.MarkedSlots.{mark_slots-Step}
use mquickjs.Gc.Popped.{
  popped, worked_off, slots-now, elements_Done, passed, mark_element, through, entries-grow,
  skip_values-pointer, with_block,
}

module _ {ram : Ram} {roots : List ℕ} {heap_base heap_free : ℕ} {bs : List ℕ} {h : Words}
    (u : IsUnmarked ram roots heap_base heap_free bs h) where
  pub record Flushed (left : ℕ → Bool) (s s' : GcMarkState) : Type 0 where
    pub marking : InOrder u left s'
    pub grows : Grows s.mem s'.mem
    pub entries : All (IsEntry ram h bs s'.mem) s'.stack
    pub spent : potential u s' < potential u s
    pub lost :
        (s'.overflow ≡ s.overflow) ⊎ (unmarked_weight h s'.mem bs < unmarked_weight h s.mem bs)
    pub fewer : unmarked_weight h s'.mem bs ≤ unmarked_weight h s.mem bs

  pub flush_block :
      (left : ℕ → Bool) (s : GcMarkState) (p : ℕ) (es : List Entry)
      → InOrder u left s
      → s.stack ≡ block p ∷ es
      → All (IsEntry ram h bs s.mem) (block p ∷ es)
      → Flushed left s (flush_entry ram s (block p) es)
  unfolding flush_entry IsEntry on_stack stack_weight
  flush_block left s p es k top ((hp, tag), all) =
      let s0 : GcMarkState = record s { stack = es } in
      let s1 = mark_slots ram s0 (marked_slots (h p) p) in
      let k0 = popped u left s p es k (λ c on apart.
        let on' : on_stack c (block p ∷ es) ≡ true = sym (ap (on_stack c) top) ∙ on in
        ground arith) in
      let (step, marked) =
        mark_slots-Step u (with_block u left p) (marked_slots (h p) p) s0 k0
          (λ x i. u.slots p x hp i) in
      let cost : stack_weight h s.stack ≡ 1 + stack_weight h es = ap (stack_weight h) top in
      let done : Flushed left s s1 = record {
        marking = worked_off u left p s1 step.marking (inl marked);
        grows = step.grows;
        entries = step.above.1 s1.mem (entries-grow u s.mem s1.mem es step.grows all);
        spent = omega (arith, step.spent, cost);
        lost = step.lost;
        fewer = step.fewer;
      } in
      subst (λ xs. Flushed left s (mark_slots ram s0 xs)) (sym (slots-now u left s p k hp).0) done

  pub flush_array :
      (left : ℕ → Bool) (s : GcMarkState) (p pos : ℕ) (es : List Entry)
      → InOrder u left s
      → s.stack ≡ array p pos ∷ es
      → All (IsEntry ram h bs s.mem) (array p pos ∷ es)
      → Flushed left s (flush_entry ram s (array p pos) es)
  unfolding flush_entry IsEntry on_stack stack_weight
  flush_array left s p pos es k top ((hp, tag, before), all) =
      let size = size_field (h p) in
      let i = skip_values size s.mem p pos in
      let now = (slots-now u left s p k hp).1 in
      let (further, none) = skip_values-pointer size s.mem p pos in
      let before_i : ((j : ℕ) → j < i → j < size → Marked ram h bs s.mem (p + 1 + j)) =
        λ j lt inside. passed u left s p pos j k hp tag before (λ low. none j low lt) inside in
      let cost : stack_weight h s.stack ≡ size - pos + 1 + stack_weight h es =
        ap (stack_weight h) top in
      elim (Bool-cases (ltb i size)) [
        | inl e ↦ elim (Bool-cases (ltb (i + 1) size)) [
          | inl e' ↦
              let es' = array p (i + 1) ∷ es in
              let s0 : GcMarkState = record s { stack = es' } in
              let k0 = popped u left s p es' k (λ c on apart.
                let on' : on_stack c (array p pos ∷ es) ≡ true = sym (ap (on_stack c) top) ∙ on in
                ground arith) in
              let (step, marked) = mark_element u left s0 p i k0 hp tag (ground arith) in
              let s1 = mark_value ram s0 (s.mem (p + 1 + i)) in
              let to_i : ((j : ℕ) → j < i + 1 → Marked ram h bs s1.mem (p + 1 + j)) = λ j lt.
                through u i s.mem s1.mem p step.grows (λ n below. before_i n below (ground arith))
                  marked j lt in
              let done : Flushed left s s1 = record {
                marking = worked_off u left p s1 step.marking (inr (step.above.0 p (ground arith)));
                grows = step.grows;
                entries =
                    step.above.1 s1.mem
                      ((hp, tag, to_i), entries-grow u s.mem s1.mem es step.grows all);
                spent = ground (arith, step.spent, cost);
                lost = step.lost;
                fewer = step.fewer;
              } in
              rw (now, e, e') done
          | inr e' ↦
              let s0 : GcMarkState = record s { stack = es } in
              let k0 = popped u left s p es k (λ c on apart.
                let on' : on_stack c (array p pos ∷ es) ≡ true = sym (ap (on_stack c) top) ∙ on in
                ground arith) in
              let (step, marked) = mark_element u left s0 p i k0 hp tag (ground arith) in
              let s1 = mark_value ram s0 (s.mem (p + 1 + i)) in
              let to_i : ((j : ℕ) → j < i + 1 → Marked ram h bs s1.mem (p + 1 + j)) = λ j lt.
                through u i s.mem s1.mem p step.grows (λ n below. before_i n below (ground arith))
                  marked j lt in
              let done : Flushed left s s1 = record {
                marking =
                    worked_off u left p s1 step.marking
                      (inl (elements_Done u s1.mem p tag (λ j lt. to_i j (ground arith))));
                grows = step.grows;
                entries = step.above.1 s1.mem (entries-grow u s.mem s1.mem es step.grows all);
                spent = omega (arith, step.spent, cost);
                lost = step.lost;
                fewer = step.fewer;
              } in
              rw (now, e, e') done
        ]
        | inr e ↦
            let s1 : GcMarkState = record s { stack = es } in
            let k0 = popped u left s p es k (λ c on apart.
              let on' : on_stack c (array p pos ∷ es) ≡ true = sym (ap (on_stack c) top) ∙ on in
              ground arith) in
            let done : Flushed left s s1 = record {
              marking =
                  worked_off u left p s1 k0
                    (inl (elements_Done u s.mem p tag (λ j lt. before_i j (ground arith) lt)));
              grows = λ c m. m;
              entries = all;
              spent = omega (arith, cost);
              lost = inl refl;
              fewer = omega arith;
            } in
            rw (now, e) done
      ]
