-- ===== src/Gc/Pass2.antt =====
-- Pass 2 of gc_compact_heap: the remaining slots are redirected and the blocks move to their places.
use mathlib.Core.Path.{subst}
use mquickjs.Base.{
  ℕ, zero, suc, ◌+◌, ◌≤◌, ◌<◌, ◌≡◌, refl, sym, ap, ◌∙◌, ◌⊎◌, inl, inr, Bool, true, false, List, [],
  ◌∷◌, arith, Bool-cases, ◌==◌,
}
use mquickjs.Props.{Words}
use mquickjs.Gc.{mtag, mtag_free, get_mblock_size}
use mquickjs.Gc.Thread.{Ram, gc_update_threaded_pointers}
use mquickjs.Gc.Chain.{among, cleared, updated, among-first}
use mquickjs.Gc.Compact.{move_pass}
use mquickjs.Gc.Graph.{live_size, Tiles, new_place, WellFormed}
use mquickjs.Gc.Slots.{updated-header}
use mquickjs.Gc.Tiles.{among-cons, Tiles-end}
use mquickjs.Gc.Settled.{settled-word}
use mquickjs.Gc.Pass1.{places-rest, place-first}
use mquickjs.Gc.Threaded.{ltb-less, ltb_irrefl}
use mquickjs.Gc.Moved.{
  moved, far_away, moved-inside, moved-outside, block_word, update-below, done_block, Left, final,
}

module _ {ram : Ram} {roots : List ℕ} {heap_base heap_free : ℕ} {bs : List ℕ} {h : Words}
    (w : WellFormed ram roots heap_base heap_free bs h) (place : ℕ → ℕ) (chain n : ℕ)
    (enough : n ≤ chain) (staged : ℕ → Bool) (slots : List ℕ)
    (is : (x : ℕ) → staged x ≡ among x slots) where
  abbrev Outcome : List ℕ → ℕ → Words → Words × ℕ → Type 0
  Outcome rest new_ptr m (m', end) =
      (end ≡ new_ptr + live_size h rest)
      × ((c i : ℕ)
          → among c rest ≡ true
          → (mtag (h c) == mtag_free) ≡ false
          → i < get_mblock_size (h c)
          → m' (place c + i) ≡ final w place chain n enough staged slots is (c + i))
      × ((y : ℕ) → heap_base ≤ y → y < new_ptr → m' y ≡ m y)
      × ((y : ℕ)
          → (y < heap_base) ⊎ (heap_free ≤ y)
          → m' y ≡ final w place chain n enough staged slots is y)

  move_pass-end :
      (fuel new_ptr : ℕ) (m : Words)
      → move_pass chain fuel heap_free m heap_free new_ptr ≡ (m, new_ptr)
  unfolding move_pass
  move_pass-end zero new_ptr m = refl
  move_pass-end (suc fuel) new_ptr m = rw (ltb_irrefl heap_free) refl

  move_pass-dead :
      (fuel b new_ptr q : ℕ) (m : Words)
      → b < heap_free
      → q ≡ new_ptr
      → gc_update_threaded_pointers chain m b q b ≡ h b
      → (mtag (h b) == mtag_free) ≡ true
      → move_pass chain (suc fuel) heap_free m b new_ptr
        ≡ move_pass chain fuel heap_free
            (gc_update_threaded_pointers chain m b q)
            (b + get_mblock_size (h b))
            new_ptr
  unfolding move_pass
  move_pass-dead fuel b new_ptr q m lt same header free =
      rw (← same) (rw (ltb-less b heap_free lt) (rw header (rw free refl)))

  move_pass-live :
      (fuel b new_ptr q : ℕ) (m : Words)
      → b < heap_free
      → q ≡ new_ptr
      → gc_update_threaded_pointers chain m b q b ≡ h b
      → (mtag (h b) == mtag_free) ≡ false
      → move_pass chain (suc fuel) heap_free m b new_ptr
        ≡ move_pass chain fuel heap_free
            (moved (gc_update_threaded_pointers chain m b q) new_ptr b (get_mblock_size (h b)))
            (b + get_mblock_size (h b))
            (new_ptr + get_mblock_size (h b))
  unfolding move_pass
  move_pass-live fuel b new_ptr q m lt same header stays =
      rw (← same) (rw (ltb-less b heap_free lt) (rw header (rw stays refl)))

  no_more : (new_ptr : ℕ) → new_ptr ≡ new_ptr + live_size h []
  unfolding live_size
  no_more new_ptr = omega arith

  -- A free block adds nothing to the outcome of the blocks after it.
  Outcome-dead :
      (b new_ptr : ℕ) (rest : List ℕ) (m m' : Words) (r : Words × ℕ)
      → (mtag (h b) == mtag_free) ≡ true
      → ((y : ℕ) → heap_base ≤ y → y < new_ptr → m' y ≡ m y)
      → Outcome rest new_ptr m' r
      → Outcome (b ∷ rest) new_ptr m r
  unfolding live_size
  Outcome-dead b new_ptr rest m m' (m2, end) free same (size, blocks, below, outside) = (
    rw free size,
    λ c i hc stays lt. elim (among-cons c b rest hc) [
      | inl first ↦ absurd (cc (stays, free, ap (λ z. mtag (h z) == mtag_free) first))
      | inr j ↦ blocks c i j stays lt
    ],
    λ y low high. below y low high ∙ same y low high,
    outside,
  )

  Outcome-live :
      (b new_ptr : ℕ) (rest : List ℕ) (m m' : Words) (r : Words × ℕ)
      → (mtag (h b) == mtag_free) ≡ false
      → place b ≡ new_ptr
      → heap_base ≤ new_ptr
      → ((i : ℕ)
          → i < get_mblock_size (h b)
          → m' (new_ptr + i) ≡ final w place chain n enough staged slots is (b + i))
      → ((y : ℕ) → heap_base ≤ y → y < new_ptr → m' y ≡ m y)
      → Outcome rest (new_ptr + get_mblock_size (h b)) m' r
      → Outcome (b ∷ rest) new_ptr m r
  unfolding live_size
  Outcome-live b new_ptr rest m m' (m2, end) stays at low_ptr block same
        (size, blocks, below, outside) =
      (
        rw stays (omega arith),
        λ c i hc stays_c lt. elim (among-cons c b rest hc) [
          | inl first ↦
              let lt' : i < get_mblock_size (h b) =
                subst (λ z. i < get_mblock_size (h z)) first lt in
              rw first (rw at (below (new_ptr + i) (omega arith) (omega arith) ∙ block i lt'))
          | inr j ↦ blocks c i j stays_c lt
        ],
        λ y low high. below y low (omega arith) ∙ same y low high,
        outside,
      )

  pub move_pass-Outcome :
      (fuel ptr new_ptr : ℕ) (rest : List ℕ) (threads : ℕ → List ℕ) (m l : Words)
      → Left w place chain n enough staged slots is rest ptr threads m l
      → Tiles h ptr rest heap_free
      → heap_free ≤ ptr + fuel
      → (heap_base ≤ new_ptr) × (new_ptr ≤ ptr)
      → ((c : ℕ) → among c rest ≡ true → place c ≡ new_place h rest new_ptr c)
      → Outcome rest new_ptr m (move_pass chain fuel heap_free m ptr new_ptr)
  unfolding Tiles among
  move_pass-Outcome fuel ptr new_ptr [] threads m l s t enough' (low, high) places =
      let code : move_pass chain fuel heap_free m ptr new_ptr ≡ (m, new_ptr) =
        ap (λ p. move_pass chain fuel heap_free m p new_ptr) t ∙ move_pass-end fuel new_ptr m in
      rw code (
        no_more new_ptr,
        λ c i hc. absurd (ground arith),
        λ y _ _. refl,
        λ y out. settled-word slots s is y refl (ground arith) (λ c hc. absurd (ground arith)),
      )
  move_pass-Outcome zero ptr new_ptr (b ∷ rest) threads m l s (at, some_words, t) enough' bounds
        places =
      let last = Tiles-end h (ptr + get_mblock_size (h b)) rest heap_free t in absurd (omega arith)
  move_pass-Outcome (suc fuel) ptr new_ptr (b ∷ rest) threads m l s (at, some_words, t) enough'
        (low, high) places =
      let size = get_mblock_size (h b) in
      let t' = subst (λ p. Tiles h (p + size) rest heap_free) (sym at) t in
      let s' : Left w place chain n enough staged slots is (b ∷ rest) b threads m l =
        subst (λ p. Left w place chain n enough staged slots is (b ∷ rest) p threads m l) (sym at)
          s in
      let last = Tiles-end h (b + size) rest heap_free t' in
      let header = updated-header chain b s' (among-first b rest) enough in
      let same = place-first w place chain b rest new_ptr places in
      let m1 = gc_update_threaded_pointers chain m b (place b) in
      let kept : ((y : ℕ) → y < new_ptr → m1 y ≡ m y) = λ y lt.
        update-below w place chain n enough staged slots is y s' (omega arith) (omega arith) in
      let places' = places-rest w place chain b rest new_ptr t' some_words places in
      subst (λ p. Outcome (b ∷ rest) new_ptr m (move_pass chain (suc fuel) heap_free m p new_ptr))
        at
        (elim (Bool-cases (mtag (h b) == mtag_free)) [
          | inl e ↦
              let left =
                done_block w place chain n enough staged slots is m1 s' t' some_words (omega arith)
                  (λ y ly. refl) in
              let rest_out =
                move_pass-Outcome fuel (b + size) new_ptr rest (cleared threads b) m1
                  (updated l (threads b) (place b)) left t' (omega arith) (low, omega arith)
                  (λ c i. places' c i ∙ rw e refl) in
              rw (move_pass-dead fuel b new_ptr (place b) m (omega arith) same header e)
                (Outcome-dead b new_ptr rest m m1 _ e (λ y _ lt. kept y lt) rest_out)
          | inr e ↦
              let m2 = moved m1 new_ptr b size in
              let left =
                done_block w place chain n enough staged slots is m2 s' t' some_words (omega arith)
                  (λ y ly.
                    moved-outside m1 new_ptr b size y
                      (far_away heap_base b new_ptr size y low (omega arith) ly)) in
              let rest_out =
                move_pass-Outcome fuel (b + size) (new_ptr + size) rest (cleared threads b) m2
                  (updated l (threads b) (place b)) left t' (omega arith) (omega arith, omega arith)
                  (λ c i. places' c i ∙ rw e refl) in
              rw (move_pass-live fuel b new_ptr (place b) m (omega arith) same header e) (
                Outcome-live b new_ptr rest m m2 _ e same low
                  (λ i lt.
                    moved-inside m1 new_ptr b size i lt
                    ∙ block_word w place chain n enough staged slots is i s' t' (omega arith) lt)
                  (λ y _ lt. moved-outside m1 new_ptr b size y (inl lt) ∙ kept y lt) rest_out)
        ])
