-- ===== src/Gc/Collected.antt =====
-- Marking and sweep: what can be reached stays as it was.
use mquickjs.Base.{
  ℕ, ◌+◌, ◌-◌, ◌≤◌, ◌<◌, ◌≡◌, sym, ap, ◌∙◌, inl, inr, Bool, true, false, List, [], ◌∷◌, arith,
  Bool-cases, ◌==◌,
}
use mquickjs.Props.{Words}
use mquickjs.Gc.{gc_mark, get_mblock_size}
use mquickjs.Gc.Thread.{Ram}
use mquickjs.Gc.Chain.{among, among-first, among-rest}
use mquickjs.Gc.Graph.{Tiles}
use mquickjs.Gc.Tiles.{among-cons, Tiles-apart}
use mquickjs.Gc.Swept.{is_marked}
use mquickjs.Gc.Marking.{IsUnmarked}
use mquickjs.Gc.Sweep.{sweep_heap}
use mquickjs.Gc.Swept.{swept, swept-live, swept-first, swept-skip}
use mquickjs.Gc.Reset.{sweep_heap-IsSwept}
use mquickjs.Gc.Mark.{mark_all}
use mquickjs.Gc.Overflow.{header_now}
use mquickjs.Gc.Reach.{IsReached, all_covered, mark_all-Marking, mark_all-IsReached}

pub swept-marked :
    (m : Words) (in_run : Bool) (bs : List ℕ) (b : ℕ)
    → among b bs ≡ true
    → is_marked m b ≡ true
    → among b (swept m in_run bs) ≡ true
unfolding among
swept-marked m in_run [] b i marked = absurd (ground arith)
swept-marked m in_run (c ∷ bs) b i marked = elim (Bool-cases (is_marked m c)) [
  | inl e ↦ elim (among-cons b c bs i) [
    | inl same ↦ rw (swept-live m in_run c bs e) (ground arith)
    | inr j ↦
        let rest = swept-marked m false bs b j marked in
        rw (swept-live m in_run c bs e) (ground arith)
  ]
  | inr e ↦ elim (among-cons b c bs i) [
    | inl same ↦ absurd (cc (marked, e, ap (is_marked m) same))
    | inr j ↦
        let rest = swept-marked m true bs b j marked in
        elim (Bool-cases in_run) [
          | inl r ↦ rw (swept-skip m in_run c bs e r) rest
          | inr r ↦ rw (swept-first m in_run c bs e r) (ground arith)
        ]
  ]
]

pub Tiles-headers :
    (h m : Words) (p : ℕ) (bs : List ℕ) (heap_free : ℕ)
    → ((c : ℕ) → among c bs ≡ true → get_mblock_size (m c) ≡ get_mblock_size (h c))
    → Tiles h p bs heap_free
    → Tiles m p bs heap_free
unfolding Tiles
Tiles-headers h m p [] heap_free same t = t
Tiles-headers h m p (b ∷ bs) heap_free same (at, some_words, t) =
    let here = same b (among-first b bs) in
    let rest =
      Tiles-headers h m (p + get_mblock_size (h b)) bs heap_free
        (λ c i. same c (among-rest c b bs i)) t in
    (at, rw here some_words, rw here rest)

-- The inside of a block holds no header.
pub inside_block :
    (h : Words) (heap_base heap_free : ℕ) (bs : List ℕ) (b i : ℕ)
    → Tiles h heap_base bs heap_free
    → among b bs ≡ true
    → 0 < i
    → i < get_mblock_size (h b)
    → among (b + i) bs ≡ false
inside_block h heap_base heap_free bs b i t hb low high = elim (Bool-cases (among (b + i) bs)) [
  | inl hx ↦
      let apart = Tiles-apart h heap_base bs heap_free b (b + i) t hb hx (omega arith) in
      absurd (omega arith)
  | inr o ↦ o
]

-- On a heap of blocks without mark, whose reference slots stand behind the headers and refer to blocks, after the
-- marking and the sweep, with any finalizers and room for two words at least on the mark stack: the stack has not left its
-- room, and a block that can be reached from the roots
-- is one of the blocks, and all its words, the header included, are what they were.
pub sweep_heap-IsReached :
    (ram : Ram) (roots : List ℕ) (has_finalizer : ℕ → Bool) (room heap_base heap_free : ℕ)
    (bs : List ℕ) (h : Words)
    → IsUnmarked ram roots heap_base heap_free bs h
    → 2 ≤ room
    → (b : ℕ) → IsReached ram roots h b
    → let s = mark_all ram roots room heap_base heap_free h in
      let marked = s.mem in
      let m = (sweep_heap has_finalizer heap_free marked heap_base).0 in
      (s.stray ≡ false)
      × (among b (swept marked false bs) ≡ true)
      × (m b ≡ h b)
      × ((i : ℕ) → 0 < i → i < get_mblock_size (h b) → m (b + i) ≡ h (b + i))
sweep_heap-IsReached ram roots has_finalizer room heap_base heap_free bs h u some_room b r =
    let s = mark_all ram roots room heap_base heap_free h in
    let (reached, empty, over, inside_room, headers, frame) =
      mark_all-IsReached ram roots room heap_base heap_free bs h u some_room in
    let (k, empty', over', roots_marked, inside_room') = mark_all-Marking u room in
    let sizes : (c : ℕ) → among c bs ≡ true → get_mblock_size (s.mem c) ≡ get_mblock_size (h c) =
      λ c hc. (header_now u (all_covered u) s c k hc).1 in
    let t = Tiles-headers h s.mem heap_base bs heap_free sizes u.tiles in
    let (tiles, kept, free, reset, before) =
      sweep_heap-IsSwept has_finalizer heap_base heap_free bs s.mem t in
    let (hb, marked) = reached b r in
    let (cleared, inside) = kept b hb marked in
    let header : s.mem b ≡ h b + 1 = elim (headers b hb) [
      | inl e ↦
          let even = u.unmarked b hb in
          let odd : (gc_mark (h b) == 1) ≡ true = ap (λ v. gc_mark v == 1) (sym e) ∙ marked in
          absurd (ground arith)
      | inr e ↦ e
    ] in
    let back : s.mem b - 1 ≡ h b = omega arith in
    let same_size = sizes b hb in
    (
      inside_room,
      swept-marked s.mem false bs b hb marked,
      cleared ∙ back,
      λ i low high.
          inside i low (omega arith)
          ∙ frame (b + i) (inside_block h heap_base heap_free bs b i u.tiles hb low high),
    )
