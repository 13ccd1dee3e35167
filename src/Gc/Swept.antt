-- ===== src/Gc/Swept.antt =====
-- The heap after the sweep: the blocks that were marked stand as before, the others are free blocks.
use mquickjs.Base.{
  ℕ, zero, suc, ◌+◌, ◌-◌, ◌*◌, ◌/◌, ◌%◌, ◌^◌, ◌≤◌, ◌<◌, ◌≡◌, refl, sym, ap, ◌∙◌, inl, inr, Bool,
  true, false, List, [], ◌∷◌, arith, Bool-cases, ltb, ◌==◌, if◌then◌else◌,
}
use mquickjs.Props.{Words}
use mquickjs.Gc.{gc_mark, mtag, get_mblock_size, size_field, string_len, extra_size, is_detached}
use mquickjs.Gc.Chain.{among, among-rest}
use mquickjs.Gc.Graph.{Tiles}
use mquickjs.Gc.Tiles.{among-cons, Tiles-end}
use mquickjs.Gc.Sweep.{skip_unmarked}

abbrev pub is_marked : Words → ℕ → Bool
is_marked m b = gc_mark (m b) == 1

-- The blocks after the sweep: the marked ones and the first one of each run of others.
unfoldable pub swept : Words → Bool → List ℕ → List ℕ
swept m in_run [] = []
swept m in_run (b ∷ bs) =
    if is_marked m b
    then b ∷ swept m false bs
    else if in_run
    then swept m true bs
    else b ∷ swept m true bs

-- What is left behind a run of blocks without mark.
unfoldable pub drop_unmarked : Words → List ℕ → List ℕ
drop_unmarked m [] = []
drop_unmarked m (b ∷ bs) = if is_marked m b then b ∷ bs else drop_unmarked m bs

pub is_marked-not :
    (m : Words) (b : ℕ) → (gc_mark (m b) == 0) ≡ (if is_marked m b then false else true)
is_marked-not m b = ground arith

pub swept-drop_unmarked :
    (m : Words) (bs : List ℕ) → swept m true bs ≡ swept m false (drop_unmarked m bs)
unfolding swept drop_unmarked
swept-drop_unmarked m [] = refl
swept-drop_unmarked m (b ∷ bs) = elim (Bool-cases (is_marked m b)) [
  | inl e ↦ rw e (rw e refl)
  | inr e ↦ rw e (swept-drop_unmarked m bs)
]

pub drop_unmarked-among :
    (m : Words) (bs : List ℕ) (c : ℕ)
    → among c bs ≡ true
    → is_marked m c ≡ true
    → among c (drop_unmarked m bs) ≡ true
unfolding drop_unmarked among
drop_unmarked-among m [] c i marked = i
drop_unmarked-among m (b ∷ bs) c i marked = elim (Bool-cases (is_marked m b)) [
  | inl e ↦ rw e i
  | inr e ↦ elim (among-cons c b bs i) [
    | inl same ↦ absurd (cc (marked, e, ap (is_marked m) same))
    | inr j ↦ rw e (drop_unmarked-among m bs c j marked)
  ]
]

-- The loop ends where the run ends.
pub skip_unmarked-Tiles :
    (fuel : ℕ) (m : Words) (ptr heap_free : ℕ) (bs : List ℕ)
    → Tiles m ptr bs heap_free
    → heap_free ≤ ptr + fuel
    → Tiles m (skip_unmarked fuel heap_free m ptr) (drop_unmarked m bs) heap_free
      × (ptr ≤ skip_unmarked fuel heap_free m ptr)
unfolding Tiles skip_unmarked drop_unmarked
skip_unmarked-Tiles zero m ptr heap_free [] t enough = (t, omega arith)
skip_unmarked-Tiles (suc fuel) m ptr heap_free [] t enough =
    let stop : ltb ptr heap_free ≡ false = ground arith in rw stop (t, omega arith)
skip_unmarked-Tiles zero m ptr heap_free (b ∷ bs) (at, some_words, t) enough =
    let last = Tiles-end m (ptr + get_mblock_size (m b)) bs heap_free t in absurd (omega arith)
skip_unmarked-Tiles (suc fuel) m ptr heap_free (b ∷ bs) (at, some_words, t) enough =
    let last = Tiles-end m (ptr + get_mblock_size (m b)) bs heap_free t in
    let goes : ltb ptr heap_free ≡ true = ground arith in
    let not = is_marked-not m ptr in
    elim (Bool-cases (is_marked m b)) [
      | inl e ↦
          let e' : is_marked m ptr ≡ true = ap (is_marked m) (sym at) ∙ e in
          rw goes (rw not (rw e (rw e' ((at, some_words, t), omega arith))))
      | inr e ↦
          let e' : is_marked m ptr ≡ false = ap (is_marked m) (sym at) ∙ e in
          let size : get_mblock_size (m ptr) ≡ get_mblock_size (m b) =
            ap (λ z. get_mblock_size (m z)) (sym at) in
          let (rest, further) =
            skip_unmarked-Tiles fuel m (ptr + get_mblock_size (m b)) heap_free bs t (omega arith) in
          rw goes (rw not (rw e (rw e' (rw size (rest, omega arith)))))
    ]

-- A block and the list of blocks depend on the words from there on only.
pub Tiles-frame :
    (m m' : Words) (ptr : ℕ) (bs : List ℕ) (heap_free : ℕ)
    → ((y : ℕ) → ptr ≤ y → m' y ≡ m y)
    → Tiles m ptr bs heap_free
    → Tiles m' ptr bs heap_free
      × (swept m' false bs ≡ swept m false bs)
      × (swept m' true bs ≡ swept m true bs)
unfolding Tiles swept
Tiles-frame m m' ptr [] heap_free same t = (t, refl, refl)
Tiles-frame m m' ptr (b ∷ bs) heap_free same (at, some_words, t) =
    let word : m' b ≡ m b = same b (omega arith) in
    let (rest, unmarked, in_run) =
      Tiles-frame m m' (ptr + get_mblock_size (m b)) bs heap_free (λ y low. same y (omega arith))
        t in
    (
      (at, rw word some_words, rw word rest),
      rw word (rw unmarked (rw in_run refl)),
      rw word (rw unmarked (rw in_run refl)),
    )

-- The header of a free block.
pub set_free_block-header :
    (n : ℕ)
    → 0 < n
    → (get_mblock_size ((n - 1) * 2 ^ 4) ≡ n)
      × (mtag ((n - 1) * 2 ^ 4) ≡ 0)
      × (gc_mark ((n - 1) * 2 ^ 4) ≡ 0)
unfolding get_mblock_size
set_free_block-header n some_words =
    let tag : mtag ((n - 1) * 2 ^ 4) ≡ 0 = omega arith in
    let size : size_field ((n - 1) * 2 ^ 4) ≡ n - 1 = omega arith in
    (rw tag (rw size (omega arith)), tag, omega arith)

-- Without its mark a header says the same.
pub unmarked-header :
    (v : ℕ)
    → (gc_mark v == 1) ≡ true
    → (get_mblock_size (v - 1) ≡ get_mblock_size v)
      × (mtag (v - 1) ≡ mtag v)
      × (gc_mark (v - 1) ≡ 0)
unfolding get_mblock_size
unmarked-header v marked =
    let odd : v % 2 ≡ 1 = ground arith in
    let half : (v - 1) / 2 ≡ v / 2 = omega arith in
    let size : size_field (v - 1) ≡ size_field v = omega arith in
    let len : string_len (v - 1) ≡ string_len v = omega arith in
    let extra : extra_size (v - 1) ≡ extra_size v = omega arith in
    let detached : is_detached (v - 1) ≡ is_detached v = ap (λ z. z % 2 == 1) size in
    (rw (half, size, len, extra) refl, ap (λ z. z % 8) half, omega arith)

pub swept-live :
    (m : Words) (in_run : Bool) (b : ℕ) (bs : List ℕ)
    → is_marked m b ≡ true
    → swept m in_run (b ∷ bs) ≡ b ∷ swept m false bs
unfolding swept
swept-live m in_run b bs e = rw e refl

pub swept-skip :
    (m : Words) (in_run : Bool) (b : ℕ) (bs : List ℕ)
    → is_marked m b ≡ false
    → in_run ≡ true
    → swept m in_run (b ∷ bs) ≡ swept m true bs
unfolding swept
swept-skip m in_run b bs e r = rw e (rw r refl)

pub swept-first :
    (m : Words) (in_run : Bool) (b : ℕ) (bs : List ℕ)
    → is_marked m b ≡ false
    → in_run ≡ false
    → swept m in_run (b ∷ bs) ≡ b ∷ swept m true bs
unfolding swept
swept-first m in_run b bs e r = rw e (rw r refl)

among-step :
    (c b : ℕ) (bs ss : List ℕ)
    → (among c ss ≡ true → among c bs ≡ true)
    → among c (b ∷ ss) ≡ true
    → among c (b ∷ bs) ≡ true
unfolding among
among-step c b bs ss inside i = elim (among-cons c b ss i) [
  | inl same ↦ ground arith
  | inr j ↦ among-rest c b bs (inside j)
]

pub swept-among :
    (m : Words) (in_run : Bool) (bs : List ℕ) (c : ℕ)
    → among c (swept m in_run bs) ≡ true
    → among c bs ≡ true
unfolding swept among
swept-among m in_run [] c i = i
swept-among m in_run (b ∷ bs) c i = elim (Bool-cases (is_marked m b)) [
  | inl e ↦
      among-step c b bs (swept m false bs) (λ j. swept-among m false bs c j)
        (sym (ap (among c) (swept-live m in_run b bs e)) ∙ i)
  | inr e ↦ elim (Bool-cases in_run) [
    | inl r ↦
        among-rest c b bs
          (swept-among m true bs c (sym (ap (among c) (swept-skip m in_run b bs e r)) ∙ i))
    | inr r ↦
        among-step c b bs (swept m true bs) (λ j. swept-among m true bs c j)
          (sym (ap (among c) (swept-first m in_run b bs e r)) ∙ i)
  ]
]
