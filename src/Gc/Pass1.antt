-- ===== src/Gc/Pass1.antt =====
-- Pass 1 of gc_compact_heap: the slots of the blocks join the chains, and those before a block are redirected.
use mathlib.Core.Path.{subst}
use mquickjs.Base.{
  ℕ, zero, suc, ◌+◌, ◌≤◌, ◌<◌, ◌≡◌, refl, sym, ap, ◌∙◌, inl, inr, Bool, true, false, List, [], ◌∷◌,
  ◌++◌, arith, length, length-append, Bool-cases, ◌==◌, if◌then◌else◌,
}
use mquickjs.Props.{Words}
use mquickjs.Gc.{mtag, mtag_free, get_mblock_size}
use mquickjs.Gc.Thread.{Ram, gc_thread_block, gc_update_threaded_pointers}
use mquickjs.Gc.Chain.{among, NoDup, cleared, updated, among-first, among-rest}
use mquickjs.Gc.Compact.{thread_pass}
use mquickjs.Gc.Graph.{heap_slots, Tiles, new_place, WellFormed}
use mquickjs.Gc.Blocks.{threaded_slots}
use mquickjs.Gc.Staged.{stage, count-Staged}
use mquickjs.Gc.Slots.{eqb_refl, updated-header}
use mquickjs.Gc.Tiles.{
  among-append, stage-among, stage-append, NoDup-append, Tiles-end, Tiles-bounds,
}
use mquickjs.Gc.Threaded.{or_true, ltb_irrefl, ltb-less, State, updated_block, threaded_block}

module _ {ram : Ram} {roots : List ℕ} {heap_base heap_free : ℕ} {bs : List ℕ} {h : Words}
    (w : WellFormed ram roots heap_base heap_free bs h) (place : ℕ → ℕ) (chain : ℕ) where
  count_State :
      (staged : ℕ → Bool) (ptr n k : ℕ) (m : Words)
      → n ≤ k
      → State w place chain staged ptr n m
      → State w place chain staged ptr k m
  count_State staged ptr n k m le (threads, l, s) = (threads, l, count-Staged le s)

  thread_pass-end :
      (fuel new_ptr : ℕ) (m : Words) → thread_pass ram chain fuel heap_free m heap_free new_ptr ≡ m
  unfolding thread_pass
  thread_pass-end zero new_ptr m = refl
  thread_pass-end (suc fuel) new_ptr m = rw (ltb_irrefl heap_free) refl

  -- The step of pass 1 at a free block, and at one that stays.
  thread_pass-dead :
      (fuel b new_ptr q : ℕ) (m : Words)
      → b < heap_free
      → q ≡ new_ptr
      → gc_update_threaded_pointers chain m b q b ≡ h b
      → (mtag (h b) == mtag_free) ≡ true
      → thread_pass ram chain (suc fuel) heap_free m b new_ptr
        ≡ thread_pass ram chain fuel heap_free
            (gc_update_threaded_pointers chain m b q)
            (b + get_mblock_size (h b))
            new_ptr
  unfolding thread_pass
  thread_pass-dead fuel b new_ptr q m lt same header free =
      rw (← same) (rw (ltb-less b heap_free lt) (rw header (rw free refl)))

  thread_pass-live :
      (fuel b new_ptr q : ℕ) (m : Words)
      → b < heap_free
      → q ≡ new_ptr
      → gc_update_threaded_pointers chain m b q b ≡ h b
      → (mtag (h b) == mtag_free) ≡ false
      → thread_pass ram chain (suc fuel) heap_free m b new_ptr
        ≡ thread_pass ram chain fuel heap_free
            (gc_thread_block ram (gc_update_threaded_pointers chain m b q) b)
            (b + get_mblock_size (h b))
            (new_ptr + get_mblock_size (h b))
  unfolding thread_pass
  thread_pass-live fuel b new_ptr q m lt same header stays =
      rw (← same) (rw (ltb-less b heap_free lt) (rw header (rw stays refl)))

  -- The later blocks get their places from the end of the first one on.
  pub places-rest :
      (b : ℕ) (rest : List ℕ) (new_ptr : ℕ)
      → Tiles h (b + get_mblock_size (h b)) rest heap_free
      → 0 < get_mblock_size (h b)
      → ((c : ℕ) → among c (b ∷ rest) ≡ true → place c ≡ new_place h (b ∷ rest) new_ptr c)
      → (c : ℕ) → among c rest ≡ true
      → place c
        ≡ new_place h rest
            (if mtag (h b) == mtag_free then new_ptr else new_ptr + get_mblock_size (h b))
            c
  unfolding new_place
  places-rest b rest new_ptr t some_words places c i =
      let (low, positive, last) = Tiles-bounds h (b + get_mblock_size (h b)) rest heap_free c t i in
      let differ : (c == b) ≡ false = ground arith in
      places c (among-rest c b rest i) ∙ rw differ refl

  pub place-first :
      (b : ℕ) (rest : List ℕ) (new_ptr : ℕ)
      → ((c : ℕ) → among c (b ∷ rest) ≡ true → place c ≡ new_place h (b ∷ rest) new_ptr c)
      → place b ≡ new_ptr
  unfolding new_place
  place-first b rest new_ptr places = places b (among-first b rest) ∙ rw (eqb_refl b) refl

  -- From `ptr` on the blocks of `rest` are left.
  pub thread_pass-Staged :
      (fuel ptr new_ptr : ℕ) (rest : List ℕ) (staged : ℕ → Bool) (n : ℕ) (m : Words)
      → State w place chain staged ptr n m
      → Tiles h ptr rest heap_free
      → heap_free ≤ ptr + fuel
      → ((c : ℕ) → among c rest ≡ true → among c bs ≡ true)
      → length (heap_slots h rest) + n ≤ chain
      → NoDup (heap_slots h rest)
      → ((x : ℕ) → among x (heap_slots h rest) ≡ true → staged x ≡ false)
      → ((c : ℕ) → among c rest ≡ true → place c ≡ new_place h rest new_ptr c)
      → State w place chain
          (stage (heap_slots h rest) staged)
          heap_free
          (length (heap_slots h rest) + n)
          (thread_pass ram chain fuel heap_free m ptr new_ptr)
  unfolding Tiles heap_slots stage
  thread_pass-Staged fuel ptr new_ptr [] staged n m state t enough sub bound nodup fresh places =
      let state' : State w place chain staged heap_free n m =
        subst (λ p. State w place chain staged p n m) t state in
      let code : thread_pass ram chain fuel heap_free m ptr new_ptr ≡ m =
        ap (λ p. thread_pass ram chain fuel heap_free m p new_ptr) t
        ∙ thread_pass-end fuel new_ptr m in
      rw code (count_State staged heap_free n (0 + n) m (omega arith) state')
  thread_pass-Staged zero ptr new_ptr (b ∷ rest) staged n m state (at, some_words, t) enough sub
        bound nodup fresh places =
      let last = Tiles-end h (ptr + get_mblock_size (h b)) rest heap_free t in absurd (omega arith)
  thread_pass-Staged (suc fuel) ptr new_ptr (b ∷ rest) staged n m state (at, some_words, t) enough
        sub bound nodup fresh places =
      let t' = subst (λ p. Tiles h (p + get_mblock_size (h b)) rest heap_free) (sym at) t in
      let (threads, l, s) : State w place chain staged b n m =
        subst (λ p. State w place chain staged p n m) (sym at) state in
      let last = Tiles-end h (b + get_mblock_size (h b)) rest heap_free t' in
      let hb = sub b (among-first b rest) in
      let few : n ≤ chain = omega arith in
      let header = updated-header chain b s hb few in
      let same = place-first b rest new_ptr places in
      let m' = gc_update_threaded_pointers chain m b (place b) in
      let size = get_mblock_size (h b) in
      let next : ((c : ℕ) → among c rest ≡ true → among c bs ≡ true) =
        λ c i. sub c (among-rest c b rest i) in
      subst
        (λ p.
          State w place chain (stage (heap_slots h (b ∷ rest)) staged) heap_free
            (length (heap_slots h (b ∷ rest)) + n)
            (thread_pass ram chain (suc fuel) heap_free m p new_ptr))
        at
        (elim (Bool-cases (mtag (h b) == mtag_free)) [
          | inl e ↦
              let slots : heap_slots h (b ∷ rest) ≡ heap_slots h rest = rw e refl in
              let places' : ((c : ℕ) → among c rest ≡ true → place c ≡ new_place h rest new_ptr c) =
                λ c i. places-rest b rest new_ptr t' some_words places c i ∙ rw e refl in
              rw slots (
                rw (thread_pass-dead fuel b new_ptr (place b) m (omega arith) same header e) (
                  thread_pass-Staged fuel (b + size) new_ptr rest staged n m'
                    (
                      cleared threads b,
                      updated l (threads b) (place b),
                      updated_block w place chain s hb few,
                    )
                    t' (omega arith) next (subst (λ xs. length xs + n ≤ chain) slots bound)
                    (subst NoDup slots nodup)
                    (subst (λ xs. (x : ℕ) → among x xs ≡ true → staged x ≡ false) slots fresh)
                    places'))
          | inr e ↦
              let refs = threaded_slots (h b) b in
              let others = heap_slots h rest in
              let slots : heap_slots h (b ∷ rest) ≡ refs ++ others = rw e refl in
              let places' : ((c : ℕ)
                  → among c rest ≡ true
                  → place c ≡ new_place h rest (new_ptr + size) c) =
                λ c i. places-rest b rest new_ptr t' some_words places c i ∙ rw e refl in
              let fresh' : ((x : ℕ) → among x (refs ++ others) ≡ true → staged x ≡ false) =
                subst (λ xs. (x : ℕ) → among x xs ≡ true → staged x ≡ false) slots fresh in
              let bound' : length (refs ++ others) + n ≤ chain =
                subst (λ xs. length xs + n ≤ chain) slots bound in
              let total : length (refs ++ others) ≡ length refs + length others =
                length-append refs others in
              let (first, second, apart) = NoDup-append refs others (subst NoDup slots nodup) in
              let block =
                threaded_block w place chain staged n b m hb e few first
                  (λ x i. fresh' x (among-append x refs others ∙ rw i refl)) (threads, l, s) in
              let result =
                thread_pass-Staged fuel (b + size) (new_ptr + size) rest (stage refs staged)
                  (length refs + n) (gc_thread_block ram m' b) block t' (omega arith) next
                  (omega arith) second
                  (λ x i.
                    stage-among refs staged x
                    ∙ rw (apart x i) (fresh' x (among-append x refs others ∙ rw i (or_true _))))
                  places' in
              rw slots (
                rw (thread_pass-live fuel b new_ptr (place b) m (omega arith) same header e) (
                  rw (stage-append refs others staged)
                    (count_State _ heap_free _ _ _ (omega arith) result)))
        ])
