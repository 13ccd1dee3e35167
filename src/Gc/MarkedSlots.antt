-- ===== src/Gc/MarkedSlots.antt =====
-- gc_mark on the slots of a block.
use mquickjs.Base.{ℕ, ◌≡◌, sym, ap, ◌∙◌, inl, inr, Bool, true, false, List, [], ◌∷◌, arith}
use mquickjs.Props.{Words}
use mquickjs.Gc.{value_to_ptr}
use mquickjs.Gc.Thread.{Ram}
use mquickjs.Gc.Chain.{among, among-first, among-rest}
use mquickjs.Gc.Graph.{is_reference}
use mquickjs.Gc.Tiles.{among-cons}
use mquickjs.Gc.Swept.{is_marked}
use mquickjs.Gc.Mark.{GcMarkState, mark_value, mark_slots}
use mquickjs.Gc.Marking.{IsUnmarked, Marked}
use mquickjs.Gc.Pushed.{Step, InOrder, no_Step, mark_value-Step}

module _ {ram : Ram} {roots : List ℕ} {heap_base heap_free : ℕ} {bs : List ℕ} {h : Words}
    (u : IsUnmarked ram roots heap_base heap_free bs h) where
  Step-trans :
      (left : ℕ → Bool) (s s' s'' : GcMarkState)
      → Step u left s s'
      → Step u left s' s''
      → Step u left s s''
  Step-trans left s s' s'' a b =
      let (up, entries) = a.above in
      let (up', entries') = b.above in
      let spent = a.spent in
      let spent' = b.spent in
      let fewer = a.fewer in
      let fewer' = b.fewer in
      record {
        marking = b.marking;
        grows = λ c e. b.grows c (a.grows c e);
        above = (λ c i. up' c (up c i), λ m all. entries' m (entries m all));
        spent = omega arith;
        lost = elim a.lost [
          | inl e ↦ elim b.lost [ inl e' ↦ inl (e' ∙ e) | inr lt ↦ inr (omega arith) ]
          | inr lt ↦ inr (omega arith)
        ];
        fewer = omega arith;
      }

  -- A slot outside the headers.
  abbrev pub IsSlot : ℕ → Type 0
  IsSlot x =
      (among x bs ≡ false) × (is_reference ram (h x) ≡ true → among (value_to_ptr (h x)) bs ≡ true)

  -- gc_mark on a list of slots: the blocks that they refer to have marks afterwards.
  pub mark_slots-Step :
      (left : ℕ → Bool) (xs : List ℕ) (s : GcMarkState)
      → InOrder u left s
      → ((x : ℕ) → among x xs ≡ true → IsSlot x)
      → Step u left s (mark_slots ram s xs)
        × ((x : ℕ) → among x xs ≡ true → Marked ram h bs (mark_slots ram s xs).mem x)
  unfolding mark_slots among
  mark_slots-Step left [] s k slots = (no_Step u left s k, λ x i. absurd (ground arith))
  mark_slots-Step left (x ∷ xs) s k slots =
      let (out, listed) = slots x (among-first x xs) in
      let word : s.mem x ≡ h x = k.frame x out in
      let s1 = mark_value ram s (s.mem x) in
      let (step, marked) = mark_value-Step u left s (s.mem x) k (λ is.
        ap (λ v. among (value_to_ptr v) bs) word
        ∙ listed (sym (ap (is_reference ram) word) ∙ is)) in
      let (rest, later) =
        mark_slots-Step left xs s1 step.marking (λ y i. slots y (among-rest y x xs i)) in
      (
        Step-trans left s s1 _ step rest,
        λ y i. elim (among-cons y x xs i) [
          | inl same ↦ λ is.
              let is_x : is_reference ram (h x) ≡ true =
                ap (λ z. is_reference ram (h z)) (sym same) ∙ is in
              let mark_x = marked (ap (is_reference ram) word ∙ is_x) in
              rest.grows (value_to_ptr (h y))
                (ap (λ v. is_marked s1.mem (value_to_ptr v)) (ap h same ∙ sym word) ∙ mark_x)
          | inr j ↦ later y j
        ],
      )
