-- ===== src/Gc/Pushed.antt =====
-- gc_mark on one value, and on the slots of a block.
use mquickjs.Base.{
  ℕ, ◌+◌, ◌-◌, ◌≤◌, ◌<◌, ◌≡◌, refl, sym, ap, ◌∙◌, ◌⊎◌, inl, inr, Bool, true, false, List, [], ◌∷◌,
  arith, All, Bool-cases, ltb, ◌==◌, ◌||◌,
}
use mquickjs.Props.{Words, write}
use mquickjs.Gc.{
  value_to_ptr, gc_mark, mtag, mtag_object, mtag_value_array, mtag_varref, mtag_function_bytecode,
  size_field, get_mblock_size,
}
use mquickjs.Gc.Thread.{Ram}
use mquickjs.Gc.Chain.{among}
use mquickjs.Gc.Graph.{is_reference}
use mquickjs.Gc.Swept.{is_marked}
use mquickjs.Gc.Mark.{
  mtag_has_references, Entry, block, array, GcMarkState, depth, marked_slots, push, mark_value,
}
use mquickjs.Gc.Marking.{
  IsUnmarked, on_stack, weight, unmarked_weight, stack_weight, Marking, IsEntry, marked-fields,
  unmarked_weight-write,
}

-- Blocks keep the marks they have.
abbrev pub Grows : Words → Words → Type 0
Grows m m' = (c : ℕ) → is_marked m c ≡ true → is_marked m' c ≡ true

write-here : (m : Words) (p v : ℕ) → write m p v p ≡ v
write-here m p v = ground arith

pub nothing_among : (x : ℕ) (xs : List ℕ) → xs ≡ [] → among x xs ≡ true → ⊥
unfolding among
nothing_among x [] e i = ground arith
nothing_among x (t ∷ xs) e i = cc e

push-mem : (s : GcMarkState) (p : ℕ) → (push s p).mem ≡ s.mem
unfolding push
push-mem s p = elim (Bool-cases (mtag (s.mem p) == mtag_value_array)) [
  | inl e ↦ elim (Bool-cases (ltb (s.room - depth s.stack) 2)) [
    | inl full ↦ rw (e, full) refl
    | inr room ↦ rw (e, room) refl
  ]
  | inr e ↦ elim (Bool-cases (mtag_has_references (mtag (s.mem p)))) [
    | inl refs ↦ elim (Bool-cases (ltb (s.room - depth s.stack) 1)) [
      | inl full ↦ rw (e, refs, full) refl
      | inr room ↦ rw (e, refs, room) refl
    ]
    | inr none ↦ rw (e, none) refl
  ]
]

-- A block that may not hold references has no slots to mark.
pub marked_slots-none : (v p : ℕ) → mtag_has_references (mtag v) ≡ false → marked_slots v p ≡ []
unfolding marked_slots mtag_has_references
marked_slots-none v p none =
    let object : (mtag v == mtag_object) ≡ false = ground arith in
    let values : (mtag v == mtag_value_array) ≡ false = ground arith in
    let varref : (mtag v == mtag_varref) ≡ false = ground arith in
    let code : (mtag v == mtag_function_bytecode) ≡ false = ground arith in
    rw (object, values, varref, code) refl

pub array_weight : (v : ℕ) → (mtag v == mtag_value_array) ≡ true → size_field v - 0 + 1 ≤ weight v
unfolding get_mblock_size
array_weight v e = let tag : mtag v ≡ mtag_value_array = ground arith in rw tag (omega arith)

module _ {ram : Ram} {roots : List ℕ} {heap_base heap_free : ℕ} {bs : List ℕ} {h : Words}
    (u : IsUnmarked ram roots heap_base heap_free bs h) where
  abbrev pub potential : GcMarkState → ℕ
  potential s = unmarked_weight h s.mem bs + stack_weight h s.stack

  -- A push on top of a stack, or no change of it.
  abbrev pub Above : List Entry → List Entry → Type 0
  Above es es' =
      ((c : ℕ) → on_stack c es ≡ true → on_stack c es' ≡ true)
      × ((m : Words) → All (IsEntry ram h bs m) es → All (IsEntry ram h bs m) es')

  -- What a step of the marking from `s` to `s'` does.
  pub record Step (left : ℕ → Bool) (s s' : GcMarkState) : Type 0 where
    pub marking : Marking ram h bs left s'.mem s'.stack s'.overflow
    pub grows : Grows s.mem s'.mem
    pub above : Above s.stack s'.stack
    pub spent : potential s' ≤ potential s
    pub lost :
        (s'.overflow ≡ s.overflow) ⊎ (unmarked_weight h s'.mem bs < unmarked_weight h s.mem bs)
    pub fewer : unmarked_weight h s'.mem bs ≤ unmarked_weight h s.mem bs

  abbrev pub InOrder : (ℕ → Bool) → GcMarkState → Type 0
  InOrder left s = Marking ram h bs left s.mem s.stack s.overflow

  pub no_Step : (left : ℕ → Bool) (s : GcMarkState) → InOrder left s → Step left s s
  no_Step left s k = record {
    marking = k;
    grows = λ c e. e;
    above = (λ c i. i, λ m all. all);
    spent = omega arith;
    lost = inl refl;
    fewer = omega arith;
  }

  old_header :
      (left : ℕ → Bool) (s : GcMarkState) (p : ℕ)
      → InOrder left s
      → among p bs ≡ true
      → is_marked s.mem p ≡ false
      → s.mem p ≡ h p
  old_header left s p k hp free =
      let (tag, class, extra, size, odd) = marked-fields (h p) (u.unmarked p hp) in
      elim (k.header p hp) [
        | inl same ↦ same
        | inr marked ↦ absurd (cc (free, odd, ap (λ z. gc_mark z == 1) marked))
      ]

  -- The new mark of the block `p`, with `es` and `o` as they are after the push.
  marked_Step :
      (left : ℕ → Bool) (s : GcMarkState) (p : ℕ) (es : List Entry) (o y : Bool)
      → InOrder left s
      → among p bs ≡ true
      → is_marked s.mem p ≡ false
      → ((c : ℕ) → on_stack c s.stack ≡ true → on_stack c es ≡ true)
      → ((m : Words) → All (IsEntry ram h bs m) s.stack → All (IsEntry ram h bs m) es)
      → stack_weight h es ≤ weight (h p) + stack_weight h s.stack
      → (o ≡ s.overflow) ⊎ (o ≡ true)
      → (marked_slots (h p) p ≡ []) ⊎ ((on_stack p es ≡ true) ⊎ (o ≡ true))
      → Step left s (record {
        mem = write s.mem p (s.mem p + 1);
        stack = es;
        room = s.room;
        overflow = o;
        stray = y;
      })
  marked_Step left s p es o y k hp free up entries costs over covered =
      let m' = write s.mem p (s.mem p + 1) in
      let even = u.unmarked p hp in
      let (tag, class, extra, size, odd) = marked-fields (h p) even in
      let was = old_header left s p k hp free in
      let here : m' p ≡ h p + 1 = write-here s.mem p (s.mem p + 1) ∙ ap (λ z. z + 1) was in
      let there : (c : ℕ) → (c == p) ≡ false → m' c ≡ s.mem c = λ c e. rw e refl in
      let now : is_marked m' p ≡ true = ap (λ z. gc_mark z == 1) here ∙ odd in
      let grows : Grows s.mem m' = λ c e. elim (Bool-cases (c == p)) [
        | inl cp ↦ let same : c ≡ p = ground arith in ap (is_marked m') same ∙ now
        | inr cp ↦ ap (λ z. gc_mark z == 1) (there c cp) ∙ e
      ] in
      let weights =
        unmarked_weight-write h s.mem heap_base heap_free bs p (s.mem p + 1) u.tiles hp free
          (ap (λ z. gc_mark (z + 1) == 1) was ∙ odd) in
      record {
        marking = record {
          frame = λ x out. elim (Bool-cases (x == p)) [
            | inl xp ↦
                let same : x ≡ p = ground arith in absurd (cc (out, hp, ap (λ z. among z bs) same))
            | inr xp ↦ there x xp ∙ k.frame x out
          ];
          header = λ b hb. elim (Bool-cases (b == p)) [
            | inl bp ↦
                let same : b ≡ p = ground arith in
                inr (ap m' same ∙ (here ∙ ap (λ z. h z + 1) (sym same)))
            | inr bp ↦ elim (k.header b hb) [
              | inl e ↦ inl (there b bp ∙ e)
              | inr e ↦ inr (there b bp ∙ e)
            ]
          ];
          cover = λ c hc marked out. elim (Bool-cases (c == p)) [
            | inl cp ↦
                let same : c ≡ p = ground arith in
                elim covered [
                  | inl none ↦ inl (λ x i. absurd (
                      nothing_among x (marked_slots (h c) c)
                        (ap (λ z. marked_slots (h z) z) same ∙ none) i))
                  | inr (inl on) ↦ inr (inl (ap (λ z. on_stack z es) same ∙ on))
                  | inr (inr full) ↦ inr (inr full)
                ]
            | inr cp ↦
                elim (k.cover c hc (sym (ap (λ z. gc_mark z == 1) (there c cp)) ∙ marked) out) [
                  | inl done ↦ inl (λ x i is. grows (value_to_ptr (h x)) (done x i is))
                  | inr (inl on) ↦ inr (inl (up c on))
                  | inr (inr full) ↦ inr (inr (elim over [ inl e ↦ e ∙ full | inr e ↦ e ]))
                ]
          ];
        };
        grows = grows;
        above = (up, entries);
        spent = omega (arith, weights);
        lost = inr (omega (arith, weights));
        fewer = omega (arith, weights);
      }

  abbrev with_mark : GcMarkState → ℕ → GcMarkState
  with_mark s p = record s { mem = write s.mem p (s.mem p + 1) }

  push-Step :
      (left : ℕ → Bool) (s : GcMarkState) (p : ℕ)
      → InOrder left s
      → among p bs ≡ true
      → is_marked s.mem p ≡ false
      → mtag ((with_mark s p).mem p) ≡ mtag (h p)
      → Step left s (push (with_mark s p) p)
  unfolding push on_stack stack_weight IsEntry
  push-Step left s p k hp free tag = elim (Bool-cases (mtag (h p) == mtag_value_array)) [
    | inl e ↦ elim (Bool-cases (ltb (s.room - depth s.stack) 2)) [
      | inl full ↦
          rw (tag, e, full)
            (marked_Step left s p s.stack true s.stray k hp free (λ c i. i) (λ m all. all)
              (omega arith) (inr refl) (inr (inr refl)))
      | inr room ↦
          rw (tag, e, room)
            (marked_Step left s p (array p 0 ∷ s.stack) s.overflow
              (ltb s.room (depth (array p 0 ∷ s.stack)) || s.stray) k hp free (λ c i. ground arith)
              (λ m all. ((hp, e, λ j lt. absurd (omega arith)), all))
              (omega (arith, array_weight (h p) e)) (inl refl) (inr (inl (ground arith))))
    ]
    | inr e ↦ elim (Bool-cases (mtag_has_references (mtag (h p)))) [
      | inl refs ↦ elim (Bool-cases (ltb (s.room - depth s.stack) 1)) [
        | inl full ↦
            rw (tag, e, refs, full)
              (marked_Step left s p s.stack true s.stray k hp free (λ c i. i) (λ m all. all)
                (omega arith) (inr refl) (inr (inr refl)))
        | inr room ↦
            rw (tag, e, refs, room)
              (marked_Step left s p (block p ∷ s.stack) s.overflow
                (ltb s.room (depth (block p ∷ s.stack)) || s.stray) k hp free (λ c i. ground arith)
                (λ m all. ((hp, e), all)) (omega arith) (inl refl) (inr (inl (ground arith))))
      ]
      | inr none ↦
          rw (tag, e, none)
            (marked_Step left s p s.stack s.overflow s.stray k hp free (λ c i. i) (λ m all. all)
              (omega arith) (inl refl) (inl (marked_slots-none (h p) p none)))
    ]
  ]

  -- gc_mark: the block that the value refers to has a mark afterwards.
  pub mark_value-Step :
      (left : ℕ → Bool) (s : GcMarkState) (v : ℕ)
      → InOrder left s
      → (is_reference ram v ≡ true → among (value_to_ptr v) bs ≡ true)
      → Step left s (mark_value ram s v)
        × (is_reference ram v ≡ true → is_marked (mark_value ram s v).mem (value_to_ptr v) ≡ true)
  unfolding mark_value
  mark_value-Step left s v k listed =
      let p = value_to_ptr v in
      elim (Bool-cases (is_reference ram v)) [
        | inl e ↦ elim (Bool-cases (is_marked s.mem p)) [
          | inl marked ↦
              let code : mark_value ram s v ≡ s = rw (e, marked) refl in
              rw code (no_Step left s k, λ _. marked)
          | inr free ↦
              let code : mark_value ram s v ≡ push (with_mark s p) p = rw (e, free) refl in
              let (tag, class, extra, size, odd) = marked-fields (h p) (u.unmarked p (listed e)) in
              let here : (with_mark s p).mem p ≡ h p + 1 =
                write-here s.mem p (s.mem p + 1)
                ∙ ap (λ z. z + 1) (old_header left s p k (listed e) free) in
              rw code (
                push-Step left s p k (listed e) free (ap mtag here ∙ tag),
                λ _.
                    ap (λ m. is_marked m p) (push-mem (with_mark s p) p)
                    ∙ (ap (λ z. gc_mark z == 1) here ∙ odd),
              )
        ]
        | inr e ↦
            let code : mark_value ram s v ≡ s = rw e refl in
            rw code (no_Step left s k, λ is. absurd (cc (e, is)))
      ]
