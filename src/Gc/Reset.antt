-- ===== src/Gc/Reset.antt =====
-- The sweep keeps the heap a sequence of blocks.
use mathlib.Core.Path.{subst}
use mquickjs.Base.{
  ℕ, zero, suc, ◌+◌, ◌-◌, ◌*◌, ◌^◌, ◌≤◌, ◌<◌, ◌≡◌, refl, sym, ap, ◌∙◌, ◌⊎◌, inl, inr, Bool, true,
  false, List, [], ◌∷◌, arith, Bool-cases, ltb, ◌==◌,
}
use mquickjs.Props.{Words, write}
use mquickjs.Gc.{gc_mark, mtag, mtag_free, get_mblock_size}
use mquickjs.Gc.Chain.{among}
use mquickjs.Gc.Graph.{Tiles}
use mquickjs.Gc.Tiles.{among-cons, Tiles-end, Tiles-bounds}
use mquickjs.Gc.Sweep.{set_free_block, skip_unmarked, Finalized, finalize, sweep, sweep_heap}
use mquickjs.Gc.Swept.{
  is_marked, swept, drop_unmarked, swept-drop_unmarked, drop_unmarked-among, skip_unmarked-Tiles,
  Tiles-frame, set_free_block-header, unmarked-header, swept-among, swept-live, swept-first,
}

-- What the sweep of the blocks `bs` from `p` on makes of `m`.
abbrev pub IsSwept : Words → ℕ → List ℕ → ℕ → Words → Type 0
IsSwept m p bs heap_free m' =
    Tiles m' p (swept m false bs) heap_free
    × ((c : ℕ)
        → among c bs ≡ true
        → is_marked m c ≡ true
        → (m' c ≡ m c - 1) × ((i : ℕ) → 0 < i → i < get_mblock_size (m c) → m' (c + i) ≡ m (c + i)))
    × ((c : ℕ)
        → among c (swept m false bs) ≡ true
        → is_marked m c ≡ false
        → mtag (m' c) ≡ mtag_free)
    × ((c : ℕ) → among c (swept m false bs) ≡ true → gc_mark (m' c) ≡ 0)
    × ((y : ℕ) → (y < p) ⊎ (heap_free ≤ y) → m' y ≡ m y)

nothing-IsSwept : (m : Words) (ptr heap_free : ℕ) → ptr ≡ heap_free → IsSwept m ptr [] heap_free m
unfolding swept Tiles among
nothing-IsSwept m ptr heap_free at = (
  at,
  λ c i. absurd (ground arith),
  λ c i. absurd (ground arith),
  λ c i. absurd (ground arith),
  λ y lt. refl,
)

-- One block before what is swept behind it: `n` is its size and `rest` the blocks behind it.
IsSwept-cons :
    (m m1 m' : Words) (b n : ℕ) (bs rest : List ℕ) (heap_free : ℕ)
    → swept m false (b ∷ bs) ≡ b ∷ swept m false rest
    → 0 < n
    → Tiles m (b + n) rest heap_free
    → (get_mblock_size (m1 b) ≡ n) × (gc_mark (m1 b) ≡ 0)
    → (is_marked m b ≡ false → mtag (m1 b) ≡ mtag_free)
    → (is_marked m b ≡ true → (m1 b ≡ m b - 1) × (get_mblock_size (m b) ≡ n))
    → ((c : ℕ) → among c bs ≡ true → is_marked m c ≡ true → among c rest ≡ true)
    → ((y : ℕ) → (y < b) ⊎ (b < y) → m1 y ≡ m y)
    → IsSwept m1 (b + n) rest heap_free m'
    → IsSwept m b (b ∷ bs) heap_free m'
unfolding Tiles
IsSwept-cons m m1 m' b n bs rest heap_free blocks some_words t (size, clear) dead live sub same
      (tiles, kept, free, reset, before) =
    let (t1, same_blocks, in_run) =
      Tiles-frame m m1 (b + n) rest heap_free (λ y low. same y (inr (omega arith))) t in
    let header : m' b ≡ m1 b = before b (inl (omega arith)) in
    let behind : (c : ℕ) → among c rest ≡ true → b + n ≤ c =
      λ c i. (Tiles-bounds m (b + n) rest heap_free c t i).0 in
    let word : (c : ℕ) → among c rest ≡ true → m1 c ≡ m c =
      λ c i. same c (inr (omega (arith, behind c i))) in
    let later : (c : ℕ)
        → among c (swept m false rest) ≡ true
        → (among c (swept m1 false rest) ≡ true) × (m1 c ≡ m c) =
      λ c i. (ap (among c) same_blocks ∙ i, word c (swept-among m false rest c i)) in
    let tiled : Tiles m' b (b ∷ swept m false rest) heap_free = (
      refl,
      rw header (rw size some_words),
      rw header (rw size (subst (λ ss. Tiles m' (b + n) ss heap_free) same_blocks tiles)),
    ) in
    (
      rw blocks tiled,
      λ c i marked. elim (among-cons c b bs i) [
        | inl first ↦
            let marked_b : is_marked m b ≡ true = ap (is_marked m) (sym first) ∙ marked in
            let (cleared, same_size) = live marked_b in
            rw first (
              header ∙ cleared,
              λ k low high. before (b + k) (inl (omega arith)) ∙ same (b + k) (inr (omega arith)),
            )
        | inr j ↦
            let k = sub c j marked in
            let same_word = word c k in
            let (cleared, inside) = kept c k (ap (λ v. gc_mark v == 1) same_word ∙ marked) in
            let past = behind c k in
            (
              cleared ∙ ap (λ v. v - 1) same_word,
              λ o low high.
                  inside o low (subst (λ v. o < get_mblock_size v) (sym same_word) high)
                  ∙ same (c + o) (inr (omega arith)),
            )
      ],
      λ c i unmarked. elim (among-cons c b (swept m false rest) (sym (ap (among c) blocks) ∙ i)) [
        | inl first ↦ rw first (rw header (dead (ap (is_marked m) (sym first) ∙ unmarked)))
        | inr j ↦
            let (k, same_word) = later c j in
            free c k (ap (λ v. gc_mark v == 1) same_word ∙ unmarked)
      ],
      λ c i. elim (among-cons c b (swept m false rest) (sym (ap (among c) blocks) ∙ i)) [
        | inl first ↦ rw first (rw header clear)
        | inr j ↦ reset c (later c j).0
      ],
      λ y out. elim out [
        | inl lt ↦ before y (inl (omega arith)) ∙ same y (inl lt)
        | inr ge ↦
            before y (inr ge) ∙ same y (inr (omega (arith, Tiles-end m (b + n) rest heap_free t)))
      ],
    )

write-at : (m : Words) (b v : ℕ) → write m b v b ≡ v
write-at m b v = ground arith

write-others : (m : Words) (b v y : ℕ) → (y < b) ⊎ (b < y) → write m b v y ≡ m y
write-others m b v y apart = ground arith

module _ (has_finalizer : ℕ → Bool) (heap_free : ℕ) where
  sweep-end :
      (fuel : ℕ) (m : Words) (ptr : ℕ) (calls : List Finalized)
      → ptr ≡ heap_free
      → (sweep has_finalizer heap_free fuel m ptr calls).0 ≡ m
  unfolding sweep
  sweep-end zero m ptr calls at = refl
  sweep-end (suc fuel) m ptr calls at =
      let stop : ltb ptr heap_free ≡ false = ground arith in rw stop refl

  sweep-live :
      (fuel : ℕ) (m : Words) (b : ℕ) (calls : List Finalized)
      → b < heap_free
      → is_marked m b ≡ true
      → sweep has_finalizer heap_free (suc fuel) m b calls
        ≡ sweep has_finalizer heap_free fuel (write m b (m b - 1)) (b + get_mblock_size (m b)) calls
  unfolding sweep
  sweep-live fuel m b calls lt e =
      let goes : ltb b heap_free ≡ true = ground arith in rw goes (rw e refl)

  sweep-dead :
      (fuel : ℕ) (m : Words) (b : ℕ) (calls : List Finalized)
      → b < heap_free
      → is_marked m b ≡ false
      → let ptr1 = skip_unmarked fuel heap_free m (b + get_mblock_size (m b)) in
        sweep has_finalizer heap_free (suc fuel) m b calls
        ≡ sweep has_finalizer heap_free fuel
            (set_free_block m b (ptr1 - b))
            ptr1
            (finalize has_finalizer heap_free m b calls)
  unfolding sweep
  sweep-dead fuel m b calls lt e =
      let goes : ltb b heap_free ≡ true = ground arith in rw goes (rw e refl)

  sweep-IsSwept :
      (fuel : ℕ) (m : Words) (ptr : ℕ) (bs : List ℕ) (calls : List Finalized)
      → Tiles m ptr bs heap_free
      → heap_free ≤ ptr + fuel
      → IsSwept m ptr bs heap_free (sweep has_finalizer heap_free fuel m ptr calls).0
  unfolding Tiles
  sweep-IsSwept fuel m ptr [] calls t enough =
      let code = sweep-end fuel m ptr calls t in rw code (nothing-IsSwept m ptr heap_free t)
  sweep-IsSwept zero m ptr (b ∷ bs) calls (at, some_words, t) enough =
      let last = Tiles-end m (ptr + get_mblock_size (m b)) bs heap_free t in absurd (omega arith)
  sweep-IsSwept (suc fuel) m ptr (b ∷ bs) calls (at, some_words, t) enough =
      let size = get_mblock_size (m b) in
      let t' = subst (λ p. Tiles m (p + size) bs heap_free) (sym at) t in
      let last = Tiles-end m (b + size) bs heap_free t' in
      subst
        (λ p. IsSwept m p (b ∷ bs) heap_free (sweep has_finalizer heap_free (suc fuel) m p calls).0)
        at
        (elim (Bool-cases (is_marked m b)) [
          | inl e ↦
              let m1 = write m b (m b - 1) in
              let (same_size, same_tag, clear) = unmarked-header (m b) e in
              let (t1, same_blocks, in_run) =
                Tiles-frame m m1 (b + size) bs heap_free
                  (λ y low. write-others m b (m b - 1) y (inr (omega arith))) t' in
              let rest = sweep-IsSwept fuel m1 (b + size) bs calls t1 (omega arith) in
              rw (sweep-live fuel m b calls (omega arith) e) (
                IsSwept-cons m m1 _ b size bs bs heap_free (swept-live m false b bs e) some_words t'
                  (rw (write-at m b (m b - 1)) (same_size, clear)) (λ no. absurd (cc (e, no)))
                  (λ _. (write-at m b (m b - 1), refl)) (λ c i _. i) (write-others m b (m b - 1))
                  rest)
          | inr e ↦
              let ptr1 = skip_unmarked fuel heap_free m (b + size) in
              let (t1, further) =
                skip_unmarked-Tiles fuel m (b + size) heap_free bs t' (omega arith) in
              let n = ptr1 - b in
              let m1 = set_free_block m b n in
              let others = drop_unmarked m bs in
              let at_n : ptr1 ≡ b + n = omega arith in
              let tn = subst (λ p. Tiles m p others heap_free) at_n t1 in
              let (t2, same_blocks, in_run) =
                Tiles-frame m m1 (b + n) others heap_free
                  (λ y low. write-others m b ((n - 1) * 2 ^ 4) y (inr (omega arith))) tn in
              let (same_size, tag, clear) = set_free_block-header n (omega arith) in
              let rest =
                sweep-IsSwept fuel m1 (b + n) others (finalize has_finalizer heap_free m b calls) t2
                  (omega arith) in
              let blocks =
                swept-first m false b bs e refl ∙ ap (λ ss. b ∷ ss) (swept-drop_unmarked m bs) in
              let code = sweep-dead fuel m b calls (omega arith) e in
              rw
                (code
                  ∙ ap
                      (λ p.
                        sweep has_finalizer heap_free fuel m1 p
                          (finalize has_finalizer heap_free m b calls))
                      at_n)
                (IsSwept-cons m m1 _ b n bs others heap_free blocks (omega arith) tn
                  (rw (write-at m b ((n - 1) * 2 ^ 4)) (same_size, clear))
                  (λ _. rw (write-at m b ((n - 1) * 2 ^ 4)) tag) (λ yes. absurd (cc (e, yes)))
                  (λ c i marked. drop_unmarked-among m bs c i marked)
                  (write-others m b ((n - 1) * 2 ^ 4)) rest)
        ])

-- The sweep of a heap of blocks, in which user classes may have finalizers: the blocks that have a mark and the
-- free blocks between them, one for each run of blocks without mark, tile the heap. A marked block has lost its
-- mark and is otherwise as it was; no block has a mark, and nothing outside the heap has changed.
pub sweep_heap-IsSwept :
    (has_finalizer : ℕ → Bool) (heap_base heap_free : ℕ) (bs : List ℕ) (m : Words)
    → Tiles m heap_base bs heap_free
    → IsSwept m heap_base bs heap_free (sweep_heap has_finalizer heap_free m heap_base).0
unfolding sweep_heap
sweep_heap-IsSwept has_finalizer heap_base heap_free bs m t =
    let last = Tiles-end m heap_base bs heap_free t in
    sweep-IsSwept has_finalizer heap_free (heap_free - heap_base) m heap_base bs [] t (omega arith)
