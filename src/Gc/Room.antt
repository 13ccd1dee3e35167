-- ===== src/Gc/Room.antt =====
-- The mark stack stays in its room: only the scan after an overflow pushes without a test, onto the empty stack.
use mquickjs.Base.{
  ℕ, ◌+◌, ◌-◌, ◌≤◌, ◌≡◌, refl, ◌∙◌, inl, inr, false, List, [], ◌∷◌, arith, Bool-cases, ltb, ◌==◌,
  if◌then◌else◌,
}
use mquickjs.Props.{write}
use mquickjs.Gc.{value_to_ptr, mtag, mtag_value_array, size_field}
use mquickjs.Gc.Thread.{Ram}
use mquickjs.Gc.Graph.{is_reference}
use mquickjs.Gc.Swept.{is_marked}
use mquickjs.Gc.Mark.{
  mtag_has_references, Entry, block, array, GcMarkState, depth, on_top, marked_slots, push,
  skip_values, mark_value, mark_slots, flush_entry,
}

-- Where there is room for two words, no push leaves the room.
abbrev pub Stays : GcMarkState → GcMarkState → Type 0
Stays s s' = 2 ≤ s.room → (s'.stray ≡ s.stray) × (s'.room ≡ s.room)

-- No push leaves the room, whatever it is.
abbrev Keeps : GcMarkState → GcMarkState → Type 0
Keeps s s' = (s'.stray ≡ s.stray) × (s'.room ≡ s.room)

Keeps-trans : (s s' s'' : GcMarkState) → Keeps s s' → Keeps s' s'' → Keeps s s''
Keeps-trans s s' s'' (a, b) (a', b') = (a' ∙ a, b' ∙ b)

pub on_top-Stays : (s : GcMarkState) (e : Entry) → s.stack ≡ [] → Stays s (on_top s e)
unfolding depth
on_top-Stays s (block p) empty some_room =
    let fits : ltb s.room (1 + depth s.stack) ≡ false = rw empty (ground arith) in
    (rw fits refl, refl)
on_top-Stays s (array p i) empty some_room =
    let fits : ltb s.room (2 + depth s.stack) ≡ false = rw empty (ground arith) in
    (rw fits refl, refl)

push-Keeps : (s : GcMarkState) (p : ℕ) → Keeps s (push s p)
unfolding push depth
push-Keeps s p = elim (Bool-cases (mtag (s.mem p) == mtag_value_array)) [
  | inl e ↦ elim (Bool-cases (ltb (s.room - depth s.stack) 2)) [
    | inl full ↦ rw (e, full) (refl, refl)
    | inr room ↦
        let fits : ltb s.room (2 + depth s.stack) ≡ false = ground arith in
        rw (e, room, fits) (refl, refl)
  ]
  | inr e ↦ elim (Bool-cases (mtag_has_references (mtag (s.mem p)))) [
    | inl refs ↦ elim (Bool-cases (ltb (s.room - depth s.stack) 1)) [
      | inl full ↦ rw (e, refs, full) (refl, refl)
      | inr room ↦
          let fits : ltb s.room (1 + depth s.stack) ≡ false = ground arith in
          rw (e, refs, room, fits) (refl, refl)
    ]
    | inr none ↦ rw (e, none) (refl, refl)
  ]
]

module _ (ram : Ram) where
  mark_value-Keeps : (s : GcMarkState) (v : ℕ) → Keeps s (mark_value ram s v)
  unfolding mark_value
  mark_value-Keeps s v =
      let p = value_to_ptr v in
      elim (Bool-cases (is_reference ram v)) [
        | inl e ↦ elim (Bool-cases (is_marked s.mem p)) [
          | inl marked ↦ rw (e, marked) (refl, refl)
          | inr free ↦ rw (e, free) (push-Keeps (record s { mem = write s.mem p (s.mem p + 1) }) p)
        ]
        | inr e ↦ rw e (refl, refl)
      ]

  pub mark_value-Stays : (s : GcMarkState) (v : ℕ) → Stays s (mark_value ram s v)
  mark_value-Stays s v some_room = mark_value-Keeps s v

  mark_slots-Keeps : (xs : List ℕ) (s : GcMarkState) → Keeps s (mark_slots ram s xs)
  unfolding mark_slots
  mark_slots-Keeps [] s = (refl, refl)
  mark_slots-Keeps (x ∷ xs) s =
      let s1 = mark_value ram s (s.mem x) in
      Keeps-trans s s1 (mark_slots ram s1 xs) (mark_value-Keeps s (s.mem x))
        (mark_slots-Keeps xs s1)

  flush_entry-Keeps :
      (s : GcMarkState) (e : Entry) (es : List Entry) → Keeps s (flush_entry ram s e es)
  unfolding flush_entry
  flush_entry-Keeps s (block p) es =
      mark_slots-Keeps (marked_slots (s.mem p) p) (record s { stack = es })
  flush_entry-Keeps s (array p pos) es =
      let size = size_field (s.mem p) in
      let i = skip_values size s.mem p pos in
      let left = if ltb (i + 1) size then array p (i + 1) ∷ es else es in
      elim (Bool-cases (ltb i size)) [
        | inl e ↦ rw e (mark_value-Keeps (record s { stack = left }) (s.mem (p + 1 + i)))
        | inr e ↦ rw e (refl, refl)
      ]

  pub flush_entry-Stays :
      (s : GcMarkState) (e : Entry) (es : List Entry) → Stays s (flush_entry ram s e es)
  flush_entry-Stays s e es some_room = flush_entry-Keeps s e es
