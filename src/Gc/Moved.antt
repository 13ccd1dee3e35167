-- ===== src/Gc/Moved.antt =====
-- A block on its way to its new place in pass 2.
use mquickjs.Base.{
  ℕ, zero, suc, ◌+◌, ◌-◌, ◌≤◌, ◌<◌, ◌≡◌, refl, sym, ap, ◌∙◌, ◌⊎◌, inl, inr, Bool, true, false, ◌&&◌,
  ◌||◌, List, [], ◌∷◌, arith, Bool-cases, ltb, leb, ◌==◌, if◌then◌else◌,
}
use mquickjs.Base.Slices.{blit}
use mquickjs.Props.{Words}
use mquickjs.Gc.{get_mblock_size}
use mquickjs.Gc.Thread.{Ram, gc_update_threaded_pointers}
use mquickjs.Gc.Chain.{among, cleared, updated, among-first, among-rest}
use mquickjs.Gc.Unthread.{cleared-same, update-Chain}
use mquickjs.Gc.Graph.{relocated, Tiles, WellFormed}
use mquickjs.Gc.Staged.{Staged}
use mquickjs.Gc.Update.{update-Staged}
use mquickjs.Gc.Slots.{eqb_refl, updated-header}
use mquickjs.Gc.Tiles.{among-cons, Tiles-bounds}
use mquickjs.Gc.Settled.{shrink-Staged, settled-word}

-- Outside the heap, and from `ptr` on, nothing has moved.
abbrev pub ahead : ℕ → ℕ → ℕ → Bool
ahead heap_base ptr x = ltb x heap_base || leb ptr x

abbrev pub moved : Words → ℕ → ℕ → ℕ → Words
moved m new_ptr b size = if new_ptr == b then m else blit m new_ptr m b size

pub far_away :
    (heap_base b new_ptr size y : ℕ)
    → heap_base ≤ new_ptr
    → new_ptr ≤ b
    → ahead heap_base (b + size) y ≡ true
    → (y < new_ptr) ⊎ (new_ptr + size ≤ y)
far_away heap_base b new_ptr size y low high out = elim (Bool-cases (ltb y new_ptr)) [
  | inl e ↦ inl (ground arith)
  | inr e ↦ inr (ground arith)
]

pub moved-inside :
    (m : Words) (new_ptr b size i : ℕ) → i < size → moved m new_ptr b size (new_ptr + i) ≡ m (b + i)
unfolding blit
moved-inside m new_ptr b size i lt = elim (Bool-cases (new_ptr == b)) [
  | inl e ↦ let same : new_ptr ≡ b = ground arith in rw e (ap (λ z. m (z + i)) same)
  | inr e ↦
      let low : leb new_ptr (new_ptr + i) ≡ true = ground arith in
      let high : ltb (new_ptr + i) (new_ptr + size) ≡ true = ground arith in
      let at : b + (new_ptr + i - new_ptr) ≡ b + i = omega arith in
      rw e (rw low (rw high (ap m at)))
]

pub moved-outside :
    (m : Words) (new_ptr b size y : ℕ)
    → (y < new_ptr) ⊎ (new_ptr + size ≤ y)
    → moved m new_ptr b size y ≡ m y
unfolding blit
moved-outside m new_ptr b size y out =
    let not_inside : (leb new_ptr y && ltb y (new_ptr + size)) ≡ false = ground arith in
    elim (Bool-cases (new_ptr == b)) [ inl e ↦ rw e refl | inr e ↦ rw e (rw not_inside refl) ]

module _ {ram : Ram} {roots : List ℕ} {heap_base heap_free : ℕ} {bs : List ℕ} {h : Words}
    (w : WellFormed ram roots heap_base heap_free bs h) (place : ℕ → ℕ) (chain n : ℕ)
    (enough : n ≤ chain) (staged : ℕ → Bool) (slots : List ℕ)
    (is : (x : ℕ) → staged x ≡ among x slots) where
  abbrev pub final : ℕ → ℕ
  final = relocated ram place slots h

  abbrev pub Left : List ℕ → ℕ → (ℕ → List ℕ) → Words → Words → Type 0
  Left rest ptr threads m l =
      Staged ram h place rest (ahead heap_base ptr) staged heap_free heap_free n threads m l

  -- A word of the block at work, after its update.
  pub block_word :
      {b : ℕ} {rest : List ℕ} {threads : ℕ → List ℕ} {m l : Words} (i : ℕ)
      → Left (b ∷ rest) b threads m l
      → Tiles h (b + get_mblock_size (h b)) rest heap_free
      → heap_base ≤ b
      → i < get_mblock_size (h b)
      → gc_update_threaded_pointers chain m b (place b) (b + i) ≡ final (b + i)
  unfolding relocated among
  block_word {b} {rest} zero s t low lt =
      let none : among b slots ≡ false = elim (Bool-cases (staged b)) [
        | inl st ↦ absurd (cc (s.apart b st, among-first b rest))
        | inr st ↦ sym (is b) ∙ st
      ] in
      let at : b + 0 ≡ b = omega arith in
      let unchanged : final b ≡ h b = rw none refl in
      rw at (updated-header chain b s (among-first b rest) enough ∙ sym unchanged)
  block_word {b} {rest} {threads} {m} {l} (suc i) s t low lt =
      let s1 =
        update-Staged s chain b heap_free (among-first b rest) enough (λ c hc below e. below) in
      let x = b + suc i in
      let later : (c : ℕ) → among c rest ≡ true → (x < c) × (c < heap_free) = λ c hc.
        let (first, positive, last) =
          Tiles-bounds h (b + get_mblock_size (h b)) rest heap_free c t hc in
        (omega arith, omega arith) in
      settled-word slots s1 is x
        (elim (Bool-cases (among x (b ∷ rest))) [
          | inl hx ↦ elim (among-cons x b rest hx) [
            | inl same ↦ absurd (omega arith)
            | inr j ↦ absurd (omega (arith, (later x j).0))
          ]
          | inr o ↦ o
        ])
        (ground arith)
        (λ c hc. elim (Bool-cases (among x (cleared threads b c))) [
          | inl j ↦ elim (among-cons c b rest hc) [
            | inl same ↦
                let empty : cleared threads b c ≡ [] = cleared-same threads b c (ground arith) in
                absurd (cc (ap (among x) empty, j))
            | inr k ↦
                let (above, below) = later c k in
                let (past, inside) = s1.after c x hc j below in absurd (omega arith)
          ]
          | inr o ↦ o
        ])

  -- The update of `b` leaves the words before it in the heap.
  pub update-below :
      {b : ℕ} {rest : List ℕ} {threads : ℕ → List ℕ} {m l : Words} (y : ℕ)
      → Left (b ∷ rest) b threads m l
      → b < heap_free
      → y < b
      → gc_update_threaded_pointers chain m b (place b) y ≡ m y
  update-below {b} {rest} {threads} {m} {l} y s below lt =
      let hb = among-first b rest in
      let few = s.count b hb in
      let code =
        update-Chain chain m b (threads b) (l b) (place b) (omega arith) (s.rep.nodup b hb)
          (s.rep.chain b hb) (s.rep.header b hb) y in
      let apart : (y == b) ≡ false = ground arith in
      let out : among y (threads b) ≡ false = elim (Bool-cases (among y (threads b))) [
        | inl i ↦ let (past, inside) = s.after b y hb i below in absurd (omega arith)
        | inr o ↦ o
      ] in
      code ∙ rw apart (rw out refl)

  -- The block is done: the blocks that are left stand for the words from its end on.
  pub done_block :
      {b : ℕ} {rest : List ℕ} {threads : ℕ → List ℕ} {m l : Words} (m' : Words)
      → Left (b ∷ rest) b threads m l
      → Tiles h (b + get_mblock_size (h b)) rest heap_free
      → 0 < get_mblock_size (h b)
      → heap_base ≤ b
      → ((y : ℕ)
          → ahead heap_base (b + get_mblock_size (h b)) y ≡ true
          → m' y ≡ gc_update_threaded_pointers chain m b (place b) y)
      → Left rest
          (b + get_mblock_size (h b))
          (cleared threads b)
          m'
          (updated l (threads b) (place b))
  done_block {b} {rest} {threads} {m} {l} m' s t some_words low same =
      let hb = among-first b rest in
      let s1 = update-Staged s chain b heap_free hb enough (λ c hc lt e. lt) in
      let size = get_mblock_size (h b) in
      shrink-Staged (ahead heap_base (b + size)) m' s1 (cleared-same threads b b (eqb_refl b))
        (λ y ly. (ground arith, ground arith, same y ly))
        (λ c hc.
          let (first, positive, last) = Tiles-bounds h (b + size) rest heap_free c t hc in
          ground arith)
        (λ c x hc i.
          let (first, positive, last) = Tiles-bounds h (b + size) rest heap_free c t hc in
          let (past, inside) = s1.after c x (among-rest c b rest hc) i (omega arith) in
          ground arith)
