-- ===== src/Gc/Rescan.antt =====
-- The loops of the marking: gc_mark_flush, the roots, and the heap once more after an overflow of the stack.
use mathlib.Core.Path.{subst}
use mquickjs.Base.{
  ℕ, zero, suc, ◌+◌, ◌-◌, ◌*◌, ◌≤◌, ◌<◌, ◌≡◌, refl, sym, ap, ◌∙◌, ◌⊎◌, inl, inr, Bool, true, false,
  List, [], ◌∷◌, arith, All, Bool-cases, ltb, leb, ◌==◌, if◌then◌else◌,
}
use mquickjs.Props.{Words}
use mquickjs.Gc.{value_to_ptr, mtag, mtag_value_array, get_mblock_size}
use mquickjs.Gc.Thread.{Ram}
use mquickjs.Gc.Chain.{among, among-first, among-rest}
use mquickjs.Gc.Graph.{is_reference, Tiles}
use mquickjs.Gc.Tiles.{among-cons, Tiles-end, Tiles-bounds, Tiles-apart}
use mquickjs.Gc.Swept.{is_marked}
use mquickjs.Gc.Mark.{
  Entry, block, array, GcMarkState, marked_slots, mark_value, flush_entry, gc_mark_flush,
  mark_roots,
}
use mquickjs.Gc.Marking.{IsUnmarked, on_stack, unmarked_weight, stack_weight, Marked, IsEntry}
use mquickjs.Gc.Pushed.{nothing_among, array_weight, Grows, potential, InOrder, mark_value-Step}
use mquickjs.Gc.MarkedSlots.{IsSlot}
use mquickjs.Gc.Room.{Stays, mark_value-Stays, flush_entry-Stays}
use mquickjs.Gc.Flushed.{Flushed, flush_block, flush_array}

module _ {ram : Ram} {roots : List ℕ} {heap_base heap_free : ℕ} {bs : List ℕ} {h : Words}
    (u : IsUnmarked ram roots heap_base heap_free bs h) where
  -- A loop from `s` to `s'` that leaves no entry.
  pub record Ran (left : ℕ → Bool) (s s' : GcMarkState) : Type 0 where
    pub marking : InOrder u left s'
    pub grows : Grows s.mem s'.mem
    pub empty : s'.stack ≡ []
    pub lost :
        (s'.overflow ≡ s.overflow) ⊎ (unmarked_weight h s'.mem bs < unmarked_weight h s.mem bs)
    pub fewer : unmarked_weight h s'.mem bs ≤ unmarked_weight h s.mem bs
    pub stays : Stays s s'

  pub no_Ran : (left : ℕ → Bool) (s : GcMarkState) → InOrder u left s → s.stack ≡ [] → Ran left s s
  no_Ran left s k empty = record {
    marking = k;
    grows = λ c e. e;
    empty = empty;
    lost = inl refl;
    fewer = omega arith;
    stays = λ some_room. (refl, refl);
  }

  pub Ran-after :
      (left left' : ℕ → Bool) (s s' s'' : GcMarkState)
      → Grows s.mem s'.mem
      → (s'.overflow ≡ s.overflow) ⊎ (unmarked_weight h s'.mem bs < unmarked_weight h s.mem bs)
      → unmarked_weight h s'.mem bs ≤ unmarked_weight h s.mem bs
      → Stays s s'
      → Ran left s' s''
      → Ran left s s''
  Ran-after left left' s s' s'' grows lost fewer stays r =
      let fewer' = r.fewer in
      record {
        marking = r.marking;
        grows = λ c e. r.grows c (grows c e);
        empty = r.empty;
        lost = elim lost [
          | inl e ↦ elim r.lost [ inl e' ↦ inl (e' ∙ e) | inr lt ↦ inr (omega arith) ]
          | inr lt ↦ inr (omega arith)
        ];
        fewer = omega arith;
        stays = λ some_room.
            let (a, b) = stays some_room in
            let (a', b') = r.stays (omega (arith, b)) in (a' ∙ a, b' ∙ b);
      }

  flush-empty : (fuel : ℕ) (s : GcMarkState) → s.stack ≡ [] → gc_mark_flush ram fuel s ≡ s
  unfolding gc_mark_flush
  flush-empty zero s e = refl
  flush-empty (suc fuel) s e = rw e refl

  flush-entry :
      (fuel : ℕ) (s : GcMarkState) (e : Entry) (es : List Entry)
      → s.stack ≡ e ∷ es
      → gc_mark_flush ram (suc fuel) s ≡ gc_mark_flush ram fuel (flush_entry ram s e es)
  unfolding gc_mark_flush
  flush-entry fuel s e es at = rw at refl

  some_weight : (e : Entry) (es : List Entry) → 0 < stack_weight h (e ∷ es)
  unfolding stack_weight
  some_weight (block p) es = omega arith
  some_weight (array p i) es = omega arith

  flush_one :
      (left : ℕ → Bool) (s : GcMarkState) (e : Entry) (es : List Entry)
      → InOrder u left s
      → s.stack ≡ e ∷ es
      → All (IsEntry ram h bs s.mem) (e ∷ es)
      → Flushed u left s (flush_entry ram s e es)
  flush_one left s (block p) es k top all = flush_block u left s p es k top all
  flush_one left s (array p i) es k top all = flush_array u left s p i es k top all

  -- The loop of gc_mark_flush ends with an empty stack.
  pub gc_mark_flush-Ran :
      (left : ℕ → Bool) (fuel : ℕ) (s : GcMarkState) (es : List Entry)
      → s.stack ≡ es
      → InOrder u left s
      → All (IsEntry ram h bs s.mem) es
      → potential u s ≤ fuel
      → Ran left s (gc_mark_flush ram fuel s)
  gc_mark_flush-Ran left fuel s [] top k all enough =
      rw (flush-empty fuel s top) (no_Ran left s k top)
  gc_mark_flush-Ran left zero s (e ∷ es) top k all enough =
      let some = some_weight e es in
      let cost : stack_weight h s.stack ≡ stack_weight h (e ∷ es) = ap (stack_weight h) top in
      absurd (omega arith)
  gc_mark_flush-Ran left (suc fuel) s (e ∷ es) top k all enough =
      let f = flush_one left s e es k top all in
      let s1 = flush_entry ram s e es in
      let r =
        gc_mark_flush-Ran left fuel s1 s1.stack refl f.marking f.entries (omega (arith, f.spent)) in
      rw (flush-entry fuel s e es top)
        (Ran-after left left s s1 _ f.grows f.lost f.fewer (flush_entry-Stays ram s e es) r)

  pub nothing_stacked : (s : GcMarkState) → s.stack ≡ [] → stack_weight h s.stack ≡ 0
  unfolding stack_weight
  nothing_stacked s empty = ap (stack_weight h) empty

  -- The roots: every block that one of them refers to has its mark.
  pub mark_roots-Ran :
      (left : ℕ → Bool) (steps : ℕ) (xs : List ℕ) (s : GcMarkState)
      → InOrder u left s
      → s.stack ≡ []
      → unmarked_weight h s.mem bs ≤ steps
      → ((x : ℕ) → among x xs ≡ true → IsSlot u x)
      → Ran left s (mark_roots ram steps s xs)
        × ((x : ℕ) → among x xs ≡ true → Marked ram h bs (mark_roots ram steps s xs).mem x)
  unfolding mark_roots among
  mark_roots-Ran left steps [] s k empty enough slots =
      (no_Ran left s k empty, λ x i. absurd (ground arith))
  mark_roots-Ran left steps (x ∷ xs) s k empty enough slots =
      let (out, listed) = slots x (among-first x xs) in
      let word : s.mem x ≡ h x = k.frame x out in
      let (step, marked) = mark_value-Step u left s (s.mem x) k (λ is.
        ap (λ v. among (value_to_ptr v) bs) word
        ∙ listed (sym (ap (is_reference ram) word) ∙ is)) in
      let s1 = mark_value ram s (s.mem x) in
      let none : All (IsEntry ram h bs s1.mem) s.stack =
        subst (All (IsEntry ram h bs s1.mem)) (sym empty) tt in
      let no_cost = nothing_stacked s empty in
      let r1 =
        gc_mark_flush-Ran left steps s1 s1.stack refl step.marking (step.above.1 s1.mem none)
          (omega (arith, step.spent)) in
      let s2 = gc_mark_flush ram steps s1 in
      let (r2, later) =
        mark_roots-Ran left steps xs s2 r1.marking r1.empty (omega (arith, r1.fewer, step.fewer))
          (λ y i. slots y (among-rest y x xs i)) in
      let to_s2 =
        Ran-after left left s s1 s2 step.grows step.lost step.fewer
          (mark_value-Stays ram s (s.mem x)) r1 in
      (
        Ran-after left left s s2 _ to_s2.grows to_s2.lost to_s2.fewer to_s2.stays r2,
        λ y i. elim (among-cons y x xs i) [
          | inl same ↦ λ is.
              let is_x : is_reference ram (h x) ≡ true =
                ap (λ z. is_reference ram (h z)) (sym same) ∙ is in
              let mark_x = marked (ap (is_reference ram) word ∙ is_x) in
              let at_y : is_marked s1.mem (value_to_ptr (h y)) ≡ true =
                ap (λ v. is_marked s1.mem (value_to_ptr v)) (ap h same ∙ sym word) ∙ mark_x in
              r2.grows (value_to_ptr (h y)) (r1.grows (value_to_ptr (h y)) at_y)
          | inr j ↦ later y j
        ],
      )

  -- The weight of the blocks is at most twice their words.
  pub unmarked_weight-Tiles :
      (m : Words) (p : ℕ) (rest : List ℕ)
      → Tiles h p rest heap_free
      → unmarked_weight h m rest ≤ 2 * (heap_free - p)
  unfolding unmarked_weight Tiles
  unmarked_weight-Tiles m p [] t = omega arith
  unmarked_weight-Tiles m p (b ∷ rest) (at, some_words, t) =
      let later = unmarked_weight-Tiles m (p + get_mblock_size (h b)) rest t in
      let last = Tiles-end h (p + get_mblock_size (h b)) rest heap_free t in
      elim (Bool-cases (is_marked m b)) [ inl e ↦ rw e (omega arith) | inr e ↦ rw e (omega arith) ]

  -- The blocks from `ptr` on are left.
  abbrev pub from : ℕ → ℕ → Bool
  from ptr c = leb ptr c

  abbrev pub entry_of : ℕ → Entry
  entry_of b = if mtag (h b) == mtag_value_array then array b 0 else block b

  pub entry_of-IsEntry :
      (m : Words) (b : ℕ)
      → among b bs ≡ true
      → IsEntry ram h bs m (entry_of b)
        × (on_stack b (entry_of b ∷ []) ≡ true)
        × (stack_weight h (entry_of b ∷ []) ≤ 2 * (heap_free - heap_base))
  unfolding IsEntry on_stack stack_weight
  entry_of-IsEntry m b hb =
      let (first, positive, last) = Tiles-bounds h heap_base bs heap_free b u.tiles hb in
      elim (Bool-cases (mtag (h b) == mtag_value_array)) [
        | inl e ↦
            let fits = array_weight (h b) e in
            rw e ((hb, e, λ k lt. absurd (omega arith)), ground arith, omega arith)
        | inr e ↦ rw e ((hb, e), ground arith, omega arith)
      ]

  -- The next block is taken on: it stands on the stack, has nothing to mark, or has no mark.
  pub taken :
      (s : GcMarkState) (b : ℕ) (es : List Entry)
      → among b bs ≡ true
      → InOrder u (from b) s
      → s.stack ≡ []
      → (on_stack b es ≡ true) ⊎ ((marked_slots (h b) b ≡ []) ⊎ (is_marked s.mem b ≡ false))
      → InOrder u (from (b + get_mblock_size (h b))) (record s { stack = es })
  unfolding on_stack among
  taken s b es hb k empty covered = record {
    frame = k.frame;
    header = k.header;
    cover = λ c hc marked out. elim (Bool-cases (leb b c)) [
      | inl e ↦
          let same : c ≡ b = elim (Bool-cases (ltb b c)) [
            | inl lt ↦
                let apart = Tiles-apart h heap_base bs heap_free b c u.tiles hb hc (ground arith) in
                absurd (ground arith)
            | inr ge ↦ ground arith
          ] in
          elim covered [
            | inl on ↦ inr (inl (ap (λ z. on_stack z es) same ∙ on))
            | inr (inl none) ↦ inl (λ x i. absurd (
                nothing_among x (marked_slots (h c) c) (ap (λ z. marked_slots (h z) z) same ∙ none)
                  i))
            | inr (inr free) ↦ absurd (cc (marked, free, ap (is_marked s.mem) same))
          ]
      | inr e ↦ elim (k.cover c hc marked e) [
        | inl done ↦ inl done
        | inr (inl on) ↦ absurd (cc (sym (ap (on_stack c) empty) ∙ on))
        | inr (inr full) ↦ inr (inr full)
      ]
    ];
  }
