-- ===== src/Gc/Popped.antt =====
-- The entry at work: what its slots are, and what is done when they have been marked.
use mathlib.Core.Path.{subst}
use mquickjs.Base.{
  ℕ, zero, suc, ◌+◌, ◌-◌, ◌≤◌, ◌<◌, ◌≡◌, refl, sym, ap, ◌∙◌, ◌⊎◌, inl, inr, Bool, true, false, not,
  ◌&&◌, ◌||◌, List, [], ◌∷◌, arith, All, Bool-cases, ltb, ◌==◌,
}
use mquickjs.Props.{Words}
use mquickjs.Gc.{is_ptr, value_to_ptr, mtag, mtag_value_array, size_field}
use mquickjs.Gc.Thread.{Ram}
use mquickjs.Gc.Compact.{range}
use mquickjs.Gc.Chain.{among, among-rest}
use mquickjs.Gc.Graph.{is_reference}
use mquickjs.Gc.Tiles.{among-cons}
use mquickjs.Gc.Swept.{is_marked}
use mquickjs.Gc.Mark.{Entry, block, array, GcMarkState, marked_slots, mark_value, skip_values}
use mquickjs.Gc.Marking.{
  IsUnmarked, on_stack, Marked, Done, IsEntry, marked-fields, marked_slots-mark,
}
use mquickjs.Gc.Pushed.{Grows, Step, InOrder, mark_value-Step}

among-range : (x a n : ℕ) → among x (range a n) ≡ true → (a ≤ x) × (x < a + n)
unfolding among range
among-range x a zero i = absurd (ground arith)
among-range x a (suc n) i = elim (among-cons x a (range (suc a) n) i) [
  | inl same ↦ (omega arith, omega arith)
  | inr j ↦ let (low, high) = among-range x (suc a) n j in (omega arith, omega arith)
]

range-among : (x a n : ℕ) → a ≤ x → x < a + n → among x (range a n) ≡ true
unfolding among range
range-among x a zero low high = absurd (omega arith)
range-among x a (suc n) low high = elim (Bool-cases (x == a)) [
  | inl e ↦ rw e refl
  | inr e ↦ among-rest x a (range (suc a) n) (range-among x (suc a) n (ground arith) (omega arith))
]

marked_slots-array :
    (v b : ℕ)
    → (mtag v == mtag_value_array) ≡ true
    → marked_slots v b ≡ range (b + 1) (size_field v)
unfolding marked_slots
marked_slots-array v b e = let tag : mtag v ≡ mtag_value_array = ground arith in rw tag refl

-- The elements that the fast path passes are no pointers.
pub skip_values-pointer :
    (fuel : ℕ) (m : Words) (p pos : ℕ)
    → (pos ≤ skip_values fuel m p pos)
      × ((k : ℕ) → pos ≤ k → k < skip_values fuel m p pos → is_ptr (m (p + 1 + k)) ≡ false)
unfolding skip_values
skip_values-pointer zero m p pos = (omega arith, λ k low high. absurd (omega arith))
skip_values-pointer (suc fuel) m p pos =
    elim (Bool-cases (ltb pos (size_field (m p)) && not (is_ptr (m (p + 1 + pos))))) [
      | inl e ↦
          let (further, rest) = skip_values-pointer fuel m p (pos + 1) in
          let none : is_ptr (m (p + 1 + pos)) ≡ false = ground arith in
          rw e (
            omega arith,
            λ k low high. elim (Bool-cases (k == pos)) [
              | inl kp ↦
                  let same : k ≡ pos = ground arith in ap (λ z. is_ptr (m (p + 1 + z))) same ∙ none
              | inr kp ↦ rest k (ground arith) high
            ],
          )
      | inr e ↦ rw e (omega arith, λ k low high. absurd (omega arith))
    ]

module _ {ram : Ram} {roots : List ℕ} {heap_base heap_free : ℕ} {bs : List ℕ} {h : Words}
    (u : IsUnmarked ram roots heap_base heap_free bs h) where
  IsEntry-grows :
      (m m' : Words) (e : Entry) → Grows m m' → IsEntry ram h bs m e → IsEntry ram h bs m' e
  unfolding IsEntry
  IsEntry-grows m m' (block p) grows i = i
  IsEntry-grows m m' (array p pos) grows (hp, tag, before) =
      (hp, tag, λ k lt is. grows (value_to_ptr (h (p + 1 + k))) (before k lt is))

  pub entries-grow :
      (m m' : Words) (es : List Entry)
      → Grows m m'
      → All (IsEntry ram h bs m) es
      → All (IsEntry ram h bs m') es
  entries-grow m m' [] grows all = tt
  entries-grow m m' (e ∷ es) grows (first, all) =
      (IsEntry-grows m m' e grows first, entries-grow m m' es grows all)

  abbrev pub with_block : (ℕ → Bool) → ℕ → ℕ → Bool
  with_block left p c = (c == p) || left c

  -- While the entry of `p` is at work it need not be covered.
  pub popped :
      (left : ℕ → Bool) (s : GcMarkState) (p : ℕ) (es : List Entry)
      → InOrder u left s
      → ((c : ℕ) → on_stack c s.stack ≡ true → (c == p) ≡ false → on_stack c es ≡ true)
      → InOrder u (with_block left p) (record s { stack = es })
  popped left s p es k others = record {
    frame = k.frame;
    header = k.header;
    cover = λ c hc marked out.
        let apart : (c == p) ≡ false = ground arith in
        elim (k.cover c hc marked (ground arith)) [
          | inl done ↦ inl done
          | inr (inl on) ↦ inr (inl (others c on apart))
          | inr (inr full) ↦ inr (inr full)
        ];
  }

  -- The entry is done.
  pub worked_off :
      (left : ℕ → Bool) (p : ℕ) (s : GcMarkState)
      → InOrder u (with_block left p) s
      → Done ram h bs s.mem p ⊎ (on_stack p s.stack ≡ true)
      → InOrder u left s
  worked_off left p s k done = record {
    frame = k.frame;
    header = k.header;
    cover = λ c hc marked out. elim (Bool-cases (c == p)) [
      | inl e ↦
          let same : c ≡ p = ground arith in
          elim done [
            | inl d ↦ inl (subst (Done ram h bs s.mem) (sym same) d)
            | inr on ↦ inr (inl (ap (λ z. on_stack z s.stack) same ∙ on))
          ]
      | inr e ↦ k.cover c hc marked (rw e out)
    ];
  }

  pub slots-now :
      (left : ℕ → Bool) (s : GcMarkState) (p : ℕ)
      → InOrder u left s
      → among p bs ≡ true
      → (marked_slots (s.mem p) p ≡ marked_slots (h p) p)
        × (size_field (s.mem p) ≡ size_field (h p))
  slots-now left s p k hp =
      let (tag, class, extra, size, odd) = marked-fields (h p) (u.unmarked p hp) in
      elim (k.header p hp) [
        | inl e ↦ (ap (λ v. marked_slots v p) e, ap size_field e)
        | inr e ↦ (
          ap (λ v. marked_slots v p) e ∙ marked_slots-mark (h p) p (u.unmarked p hp),
          ap size_field e ∙ size,
        )
      ]

  pub element-slot :
      (p j : ℕ)
      → (mtag (h p) == mtag_value_array) ≡ true
      → j < size_field (h p)
      → among (p + 1 + j) (marked_slots (h p) p) ≡ true
  element-slot p j tag lt =
      rw (marked_slots-array (h p) p tag)
        (range-among (p + 1 + j) (p + 1) (size_field (h p)) (omega arith) (omega arith))

  pub elements_Done :
      (m : Words) (p : ℕ)
      → (mtag (h p) == mtag_value_array) ≡ true
      → ((j : ℕ) → j < size_field (h p) → Marked ram h bs m (p + 1 + j))
      → Done ram h bs m p
  elements_Done m p tag all x i =
      let (low, high) =
        among-range x (p + 1) (size_field (h p))
          (sym (ap (among x) (marked_slots-array (h p) p tag)) ∙ i) in
      let at : p + 1 + (x - (p + 1)) ≡ x = omega arith in
      subst (Marked ram h bs m) at (all (x - (p + 1)) (omega arith))

  -- What is before the next pointer is marked through.
  pub passed :
      (left : ℕ → Bool) (s : GcMarkState) (p pos j : ℕ)
      → InOrder u left s
      → among p bs ≡ true
      → (mtag (h p) == mtag_value_array) ≡ true
      → ((k : ℕ) → k < pos → Marked ram h bs s.mem (p + 1 + k))
      → (pos ≤ j → is_ptr (s.mem (p + 1 + j)) ≡ false)
      → j < size_field (h p)
      → Marked ram h bs s.mem (p + 1 + j)
  passed left s p pos j k hp tag before none inside = elim (Bool-cases (ltb j pos)) [
    | inl e ↦ before j (ground arith)
    | inr e ↦
        let word : s.mem (p + 1 + j) ≡ h (p + 1 + j) =
          k.frame (p + 1 + j) (u.slots p (p + 1 + j) hp (element-slot p j tag inside)).0 in
        let value : is_ptr (h (p + 1 + j)) ≡ false = ap is_ptr (sym word) ∙ none (ground arith) in
        λ is. absurd (ground arith)
  ]

  pub mark_element :
      (left : ℕ → Bool) (s : GcMarkState) (p i : ℕ)
      → InOrder u (with_block left p) s
      → among p bs ≡ true
      → (mtag (h p) == mtag_value_array) ≡ true
      → i < size_field (h p)
      → Step u (with_block left p) s (mark_value ram s (s.mem (p + 1 + i)))
        × Marked ram h bs (mark_value ram s (s.mem (p + 1 + i))).mem (p + 1 + i)
  mark_element left s p i k hp tag lt =
      let x = p + 1 + i in
      let (out, listed) = u.slots p x hp (element-slot p i tag lt) in
      let word : s.mem x ≡ h x = k.frame x out in
      let (step, marked) = mark_value-Step u (with_block left p) s (s.mem x) k (λ is.
        ap (λ v. among (value_to_ptr v) bs) word
        ∙ listed (sym (ap (is_reference ram) word) ∙ is)) in
      (
        step,
        λ is.
            let mark_x = marked (ap (is_reference ram) word ∙ is) in
            ap (λ v. is_marked (mark_value ram s (s.mem x)).mem (value_to_ptr v)) (sym word)
            ∙ mark_x,
      )

  pub through :
      (i : ℕ) (m m' : Words) (p : ℕ)
      → Grows m m'
      → ((j : ℕ) → j < i → Marked ram h bs m (p + 1 + j))
      → Marked ram h bs m' (p + 1 + i)
      → (j : ℕ) → j < i + 1
      → Marked ram h bs m' (p + 1 + j)
  through i m m' p grows below at_i j lt = elim (Bool-cases (j == i)) [
    | inl e ↦
        let same : j ≡ i = ground arith in
        subst (λ z. Marked ram h bs m' (p + 1 + z)) (sym same) at_i
    | inr e ↦ λ is. grows (value_to_ptr (h (p + 1 + j))) (below j (ground arith) is)
  ]
