-- ===== src/Gc/Threaded.antt =====
-- One block in pass 1: its header comes back, and its slots join the chains.
use mathlib.Core.Path.{subst}
use mquickjs.Base.{
  ℕ, ◌+◌, ◌≤◌, ◌<◌, ◌≡◌, refl, sym, ap, ◌∙◌, inl, inr, Bool, true, false, ◌||◌, List, ◌++◌, arith,
  length, Bool-cases, ltb, ◌==◌,
}
use mquickjs.Props.{Words}
use mquickjs.Gc.{value_to_ptr, mtag, mtag_free, get_mblock_size}
use mquickjs.Gc.Thread.{Ram, gc_thread_block, gc_update_threaded_pointers}
use mquickjs.Gc.Chain.{among, NoDup, cleared, updated}
use mquickjs.Gc.Unthread.{cleared-same}
use mquickjs.Gc.Compact.{thread_roots}
use mquickjs.Gc.Graph.{heap_slots, WellFormed}
use mquickjs.Gc.Blocks.{threaded_slots, Steady, gc_thread_block-slots}
use mquickjs.Gc.Staged.{Staged, stage}
use mquickjs.Gc.Update.{update-Staged}
use mquickjs.Gc.Slots.{Slot, eqb_refl, updated-header, thread_roots-Staged}
use mquickjs.Gc.Tiles.{among-append, heap_slots-block, Tiles-bounds, Tiles-apart}

pub or_true : (a : Bool) → (a || true) ≡ true
or_true a = ground arith

pub ltb_irrefl : (p : ℕ) → ltb p p ≡ false
ltb_irrefl p = ground arith

pub ltb-less : (a b : ℕ) → a < b → ltb a b ≡ true
ltb-less a b lt = ground arith

abbrev pub all_live : ℕ → Bool
all_live x = true

module _ {ram : Ram} {roots : List ℕ} {heap_base heap_free : ℕ} {bs : List ℕ} {h : Words}
    (w : WellFormed ram roots heap_base heap_free bs h) (place : ℕ → ℕ) (chain : ℕ) where
  -- No block starts between two neighbours.
  pub between :
      (b c : ℕ) → among b bs ≡ true → among c bs ≡ true → c < b + get_mblock_size (h b) → c ≤ b
  between b c hb hc lt = elim (Bool-cases (ltb b c)) [
    | inl e ↦
        let apart = Tiles-apart h heap_base bs heap_free b c w.tiles hb hc (ground arith) in
        absurd (omega arith)
    | inr e ↦ ground arith
  ]

  -- A slot of a block is no header.
  pub slot-apart :
      (b x : ℕ)
      → among b bs ≡ true
      → (mtag (h b) == mtag_free) ≡ false
      → among x (threaded_slots (h b) b) ≡ true
      → among x bs ≡ false
  slot-apart b x hb stays i = elim (Bool-cases (among x bs)) [
    | inl hx ↦
        let (low, high) = w.slots b x hb stays i in
        let le = between b x hb hx high in absurd (omega arith)
    | inr o ↦ o
  ]

  listed :
      (b x : ℕ)
      → among b bs ≡ true
      → (mtag (h b) == mtag_free) ≡ false
      → among x (threaded_slots (h b) b) ≡ true
      → among x (roots ++ heap_slots h bs) ≡ true
  listed b x hb stays i =
      let in_heap : among x (heap_slots h bs) ≡ true = heap_slots-block h bs b x hb stays i in
      among-append x roots (heap_slots h bs) ∙ rw in_heap (ground arith)

  block-Slot :
      (b x : ℕ)
      → among b bs ≡ true
      → (mtag (h b) == mtag_free) ≡ false
      → among x (threaded_slots (h b) b) ≡ true
      → Slot ram h bs all_live (b + get_mblock_size (h b)) heap_free x
  block-Slot b x hb stays i = record {
    no_head = slot-apart b x hb stays i;
    is_live = refl;
    block = w.targets x (listed b x hb stays i);
    later = λ is lt.
        let (low, high) = w.slots b x hb stays i in
        let le = between b (value_to_ptr (h x)) hb (w.targets x (listed b x hb stays i) is) lt in
        let (first, positive, last) = Tiles-bounds h heap_base bs heap_free b w.tiles hb in
        (omega arith, omega arith);
  }

  abbrev pub State : (ℕ → Bool) → ℕ → ℕ → Words → Type 0
  State staged ptr n m =
      (threads : ℕ → List ℕ) × (l : Words) × Staged ram h place bs all_live staged ptr heap_free n
        threads m l

  -- After its update the next block is at work.
  pub updated_block :
      {staged : ℕ → Bool} {n b : ℕ} {threads : ℕ → List ℕ} {m l : Words}
      → Staged ram h place bs all_live staged b heap_free n threads m l
      → among b bs ≡ true
      → n ≤ chain
      → Staged ram h place bs all_live staged
          (b + get_mblock_size (h b))
          heap_free
          n
          (cleared threads b)
          (gc_update_threaded_pointers chain m b (place b))
          (updated l (threads b) (place b))
  updated_block {b = b} s hb enough =
      update-Staged s chain b (b + get_mblock_size (h b)) hb enough
        (λ c hc lt e. let le = between b c hb hc lt in ground arith)

  -- A block that stays is updated and its slots are threaded.
  pub threaded_block :
      (staged : ℕ → Bool) (n b : ℕ) (m : Words)
      → among b bs ≡ true
      → (mtag (h b) == mtag_free) ≡ false
      → n ≤ chain
      → NoDup (threaded_slots (h b) b)
      → ((x : ℕ) → among x (threaded_slots (h b) b) ≡ true → staged x ≡ false)
      → State staged b n m
      → State
          (stage (threaded_slots (h b) b) staged)
          (b + get_mblock_size (h b))
          (length (threaded_slots (h b) b) + n)
          (gc_thread_block ram (gc_update_threaded_pointers chain m b (place b)) b)
  threaded_block staged n b m hb stays enough nodup fresh (threads, l, s) =
      let m' = gc_update_threaded_pointers chain m b (place b) in
      let s1 = updated_block s hb enough in
      let header : m' b ≡ h b = updated-header chain b s hb enough in
      let (threads', s', keeps) =
        thread_roots-Staged s1 (threaded_slots (h b) b) nodup fresh
          (λ x i. block-Slot b x hb stays i) in
      let (steady, empty') =
        keeps b hb (cleared-same threads b b (eqb_refl b)) (λ x i. w.no_loop b x hb stays i) in
      let code : gc_thread_block ram m' b ≡ thread_roots ram m' (threaded_slots (h b) b) =
        gc_thread_block-slots ram b m'
          (subst (λ z. Steady ram b m' (threaded_slots z b)) (sym header) steady)
        ∙ ap (λ z. thread_roots ram m' (threaded_slots z b)) header in
      (threads', updated l (threads b) (place b), rw code s')
