-- ===== src/Gc/Marking.antt =====
-- What the marking keeps: each block with a mark is done, waits on the stack, or was lost to a full stack.
use mquickjs.Base.{
  ℕ, ◌+◌, ◌-◌, ◌/◌, ◌%◌, ◌^◌, ◌<◌, ◌≡◌, refl, sym, ap, ◌∙◌, ◌⊎◌, inl, inr, Bool, true, false, ◌||◌,
  List, [], ◌∷◌, arith, Bool-cases, ◌==◌, if◌then◌else◌,
}
use mquickjs.Props.{Words, write}
use mquickjs.Gc.{
  value_to_ptr, gc_mark, mtag, mtag_value_array, class_id, extra_size, size_field, get_mblock_size,
}
use mquickjs.Gc.Thread.{Ram}
use mquickjs.Gc.Chain.{among, among-first, among-rest}
use mquickjs.Gc.Graph.{is_reference, Tiles}
use mquickjs.Gc.Blocks.{class_slots}
use mquickjs.Gc.Tiles.{among-cons, Tiles-bounds}
use mquickjs.Gc.Swept.{is_marked}
use mquickjs.Gc.Mark.{Entry, block, array, marked_slots}

-- A heap before the marking: blocks without mark, whose slots stand behind their headers and refer to blocks.
pub record IsUnmarked (ram : Ram) (roots : List ℕ) (heap_base heap_free : ℕ) (bs : List ℕ)
    (h : Words) : Type 0 where
  pub tiles : Tiles h heap_base bs heap_free
  pub unmarked : (b : ℕ) → among b bs ≡ true → gc_mark (h b) ≡ 0
  pub slots :
      (b x : ℕ)
      → among b bs ≡ true
      → among x (marked_slots (h b) b) ≡ true
      → (among x bs ≡ false)
        × (is_reference ram (h x) ≡ true → among (value_to_ptr (h x)) bs ≡ true)
  pub roots_slots :
      (x : ℕ)
      → among x roots ≡ true
      → (among x bs ≡ false)
        × (is_reference ram (h x) ≡ true → among (value_to_ptr (h x)) bs ≡ true)

unfoldable pub on_stack : ℕ → List Entry → Bool
on_stack c [] = false
on_stack c (block p ∷ es) = (c == p) || on_stack c es
on_stack c (array p i ∷ es) = (c == p) || on_stack c es

-- The marks that are left to set, weighted by the rounds that their blocks need, and those of the stack.
abbrev pub weight : ℕ → ℕ
weight v = get_mblock_size v + 1

unfoldable pub unmarked_weight : Words → Words → List ℕ → ℕ
unmarked_weight h m [] = 0
unmarked_weight h m (b ∷ bs) =
    if is_marked m b then unmarked_weight h m bs else weight (h b) + unmarked_weight h m bs

unfoldable pub stack_weight : Words → List Entry → ℕ
stack_weight h [] = 0
stack_weight h (block p ∷ es) = 1 + stack_weight h es
stack_weight h (array p i ∷ es) = size_field (h p) - i + 1 + stack_weight h es

module _ (ram : Ram) (h : Words) (bs : List ℕ) where
  -- The block that the word at `x` refers to has its mark.
  abbrev pub Marked : Words → ℕ → Type 0
  Marked m x = is_reference ram (h x) ≡ true → is_marked m (value_to_ptr (h x)) ≡ true

  abbrev pub Done : Words → ℕ → Type 0
  Done m c = (x : ℕ) → among x (marked_slots (h c) c) ≡ true → Marked m x

  -- The blocks in `left` need not be covered yet.
  pub record Marking (left : ℕ → Bool) (m : Words) (stack : List Entry) (overflow : Bool)
      : Type 0 where
    pub frame : (x : ℕ) → among x bs ≡ false → m x ≡ h x
    pub header : (b : ℕ) → among b bs ≡ true → (m b ≡ h b) ⊎ (m b ≡ h b + 1)
    pub cover :
        (c : ℕ)
        → among c bs ≡ true
        → is_marked m c ≡ true
        → left c ≡ false
        → Done m c ⊎ ((on_stack c stack ≡ true) ⊎ (overflow ≡ true))

  -- What an entry of the stack promises.
  unfoldable pub IsEntry : Words → Entry → Type 0
  IsEntry m (block c) = (among c bs ≡ true) × ((mtag (h c) == mtag_value_array) ≡ false)
  IsEntry m (array c i) =
      (among c bs ≡ true)
      × ((mtag (h c) == mtag_value_array) ≡ true)
      × ((k : ℕ) → k < i → Marked m (c + 1 + k))

-- A header with its mark says the same.
pub marked-fields :
    (v : ℕ)
    → gc_mark v ≡ 0
    → (mtag (v + 1) ≡ mtag v)
      × (class_id (v + 1) ≡ class_id v)
      × (extra_size (v + 1) ≡ extra_size v)
      × (size_field (v + 1) ≡ size_field v)
      × ((gc_mark (v + 1) == 1) ≡ true)
marked-fields v even =
    let half : (v + 1) / 2 ≡ v / 2 = omega arith in
    let size : size_field (v + 1) ≡ size_field v = omega arith in
    (ap (λ z. z % 8) half, ap (λ z. z % 2 ^ 8) size, omega arith, size, ground arith)

pub marked_slots-mark : (v b : ℕ) → gc_mark v ≡ 0 → marked_slots (v + 1) b ≡ marked_slots v b
unfolding marked_slots class_slots
marked_slots-mark v b even =
    let (tag, class, extra, size, odd) = marked-fields v even in rw (tag, class, extra, size) refl

pub unmarked_weight-frame :
    (h m m' : Words) (bs : List ℕ)
    → ((b : ℕ) → among b bs ≡ true → m' b ≡ m b)
    → unmarked_weight h m' bs ≡ unmarked_weight h m bs
unfolding unmarked_weight
unmarked_weight-frame h m m' [] same = refl
unmarked_weight-frame h m m' (b ∷ bs) same =
    let here = same b (among-first b bs) in
    let rest = unmarked_weight-frame h m m' bs (λ c i. same c (among-rest c b bs i)) in
    rw here (rw rest refl)

-- The mark of a block is worth its weight.
pub unmarked_weight-write :
    (h m : Words) (p heap_free : ℕ) (bs : List ℕ) (c v : ℕ)
    → Tiles h p bs heap_free
    → among c bs ≡ true
    → is_marked m c ≡ false
    → (gc_mark v == 1) ≡ true
    → unmarked_weight h (write m c v) bs + weight (h c) ≡ unmarked_weight h m bs
unfolding unmarked_weight Tiles among
unmarked_weight-write h m p heap_free [] c v t hc free odd = absurd (ground arith)
unmarked_weight-write h m p heap_free (b ∷ bs) c v (at, some_words, t) hc free odd =
    elim (among-cons c b bs hc) [
      | inl same ↦
          let here : write m c v b ≡ v = ground arith in
          let others : unmarked_weight h (write m c v) bs ≡ unmarked_weight h m bs =
            unmarked_weight-frame h m (write m c v) bs (λ d i.
              let (low, positive, last) =
                Tiles-bounds h (p + get_mblock_size (h b)) bs heap_free d t i in
              ground arith) in
          let free_b : is_marked m b ≡ false = ap (is_marked m) (sym same) ∙ free in
          let weighs : weight (h c) ≡ weight (h b) = ap (λ z. weight (h z)) same in
          rw here (rw odd (rw free_b (omega (arith, others, weighs))))
      | inr j ↦
          let (low, positive, last) =
            Tiles-bounds h (p + get_mblock_size (h b)) bs heap_free c t j in
          let there : write m c v b ≡ m b = ground arith in
          let rest =
            unmarked_weight-write h m (p + get_mblock_size (h b)) heap_free bs c v t j free odd in
          elim (Bool-cases (is_marked m b)) [
            | inl e ↦ rw there (rw e rest)
            | inr e ↦ rw there (rw e (omega (arith, rest)))
          ]
    ]
