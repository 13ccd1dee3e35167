-- ===== src/Gc/Slots.antt =====
-- A list of slots is threaded one after the other.
use mathlib.Core.Path.{subst}
use mquickjs.Base.{
  ℕ, suc, ◌+◌, ◌≤◌, ◌<◌, ◌≡◌, sym, ◌∙◌, inl, inr, Bool, true, false, List, [], ◌∷◌, arith, length,
  Bool-cases, ◌==◌,
}
use mquickjs.Props.{Words}
use mquickjs.Gc.{value_from_ptr, value_to_ptr}
use mquickjs.Gc.Thread.{Ram, gc_thread_pointer, gc_update_threaded_pointers}
use mquickjs.Gc.Chain.{
  among, Chain, NoDup, threaded, threaded-others, from_to, among-first, among-rest, other,
}
use mquickjs.Gc.Unthread.{cleared-same}
use mquickjs.Gc.Compact.{thread_roots}
use mquickjs.Gc.Graph.{is_reference}
use mquickjs.Gc.Blocks.{Steady}
use mquickjs.Gc.Staged.{
  Staged, joined, stage, and-left, count-Staged, thread-reference, thread-other,
}
use mquickjs.Gc.Update.{update-Staged}

-- The slot `x` can be threaded while the blocks before `ptr` are updated.
pub record Slot (ram : Ram) (h : Words) (heads : List ℕ) (live : ℕ → Bool) (ptr heap_free x : ℕ)
    : Type 0 where
  pub no_head : among x heads ≡ false
  pub is_live : live x ≡ true
  pub block : is_reference ram (h x) ≡ true → among (value_to_ptr (h x)) heads ≡ true
  pub later :
      is_reference ram (h x) ≡ true
      → value_to_ptr (h x) < ptr
      → (value_to_ptr (h x) < x) × (x < heap_free)

-- What is left of a chain when the slots in `xs` have been threaded: the block `b` has no slot among them.
abbrev pub Untouched : Ram → Words → List ℕ → (ℕ → List ℕ) → (ℕ → List ℕ) → Words → List ℕ → Type 0
Untouched ram h heads threads threads' m xs =
    (b : ℕ)
    → among b heads ≡ true
    → threads b ≡ []
    → ((x : ℕ) → among x xs ≡ true → (h x == value_from_ptr b) ≡ false)
    → Steady ram b m xs × (threads' b ≡ [])

abbrev pub After :
    Ram
    → Words
    → (ℕ → ℕ)
    → List ℕ
    → (ℕ → Bool)
    → (ℕ → Bool)
    → ℕ
    → ℕ
    → ℕ
    → (ℕ → List ℕ)
    → Words
    → Words
    → List ℕ
    → Type 0
After ram h place heads live staged ptr heap_free n threads m l xs =
    (threads' : ℕ → List ℕ) × Staged ram h place heads live (stage xs staged) ptr heap_free
      (length xs + n) threads' (thread_roots ram m xs) l
    × Untouched ram h heads threads threads' m xs

-- While its chain is empty, the header stands in the block.
header-stays :
    {ram : Ram} {h : Words} {place : ℕ → ℕ} {heads : List ℕ} {live staged : ℕ → Bool}
    {ptr heap_free n : ℕ} {threads : ℕ → List ℕ} {m l : Words}
    → Staged ram h place heads live staged ptr heap_free n threads m l
    → (b : ℕ) → among b heads ≡ true
    → threads b ≡ []
    → m b ≡ l b
unfolding Chain
header-stays {m = m} {l} s b hb empty = subst (λ ts. Chain m b ts (l b)) empty (s.rep.chain b hb)

pub eqb_refl : (p : ℕ) → (p == p) ≡ true
eqb_refl p = ground arith

pub headers-kept :
    {ram : Ram} {h : Words} {place : ℕ → ℕ} {heads : List ℕ} {live staged : ℕ → Bool}
    {ptr heap_free n : ℕ} {threads : ℕ → List ℕ} {m l : Words}
    → Staged ram h place heads live staged ptr heap_free n threads m l
    → (b : ℕ) → among b heads ≡ true
    → l b ≡ h b
headers-kept {staged = staged} s b hb = elim (Bool-cases (staged b)) [
  | inl st ↦ absurd (cc (hb, s.apart b st))
  | inr st ↦ s.fresh b st
]

-- The header of a block stands in it after its update.
pub updated-header :
    {ram : Ram} {h : Words} {place : ℕ → ℕ} {heads : List ℕ} {live staged : ℕ → Bool}
    {ptr heap_free n : ℕ} {threads : ℕ → List ℕ} {m l : Words} (fuel b : ℕ)
    → Staged ram h place heads live staged ptr heap_free n threads m l
    → among b heads ≡ true
    → n ≤ fuel
    → gc_update_threaded_pointers fuel m b (place b) b ≡ h b
updated-header {threads = threads} fuel b s hb enough =
    let s' = update-Staged s fuel b 0 hb enough (λ c hc lt e. absurd (omega arith)) in
    header-stays s' b hb (cleared-same threads b b (eqb_refl b)) ∙ headers-kept s' b hb

thread-one :
    {ram : Ram} {h : Words} {place : ℕ → ℕ} {heads : List ℕ} {live staged : ℕ → Bool}
    {ptr heap_free n : ℕ} {threads : ℕ → List ℕ} {m l : Words}
    → Staged ram h place heads live staged ptr heap_free n threads m l
    → (x : ℕ) → staged x ≡ false
    → Slot ram h heads live ptr heap_free x
    → (threads' : ℕ → List ℕ) × Staged ram h place heads live
        (joined x staged)
        ptr
        heap_free
        (suc n)
        threads'
        (gc_thread_pointer ram m x)
        l
      × ((b : ℕ) → threads b ≡ [] → (h x == value_from_ptr b) ≡ false → threads' b ≡ [])
thread-one {ram} {h} {threads = threads} s x new slot = elim (Bool-cases (is_reference ram (h x))) [
  | inl e ↦
      let c = value_to_ptr (h x) in
      let at : h x ≡ value_from_ptr c = from_to (h x) (and-left _ _ e) in
      (
        threaded threads c x,
        thread-reference s x new slot.no_head slot.is_live e (slot.block e) (slot.later e),
        λ b empty no. threaded-others threads c x b (ground arith) ∙ empty,
      )
  | inr e ↦ (threads, thread-other s x new slot.no_head slot.is_live e, λ b empty no. empty)
]

pub thread_roots-Staged :
    {ram : Ram} {h : Words} {place : ℕ → ℕ} {heads : List ℕ} {live staged : ℕ → Bool}
    {ptr heap_free n : ℕ} {threads : ℕ → List ℕ} {m l : Words}
    → Staged ram h place heads live staged ptr heap_free n threads m l
    → (xs : List ℕ) → NoDup xs
    → ((x : ℕ) → among x xs ≡ true → staged x ≡ false)
    → ((x : ℕ) → among x xs ≡ true → Slot ram h heads live ptr heap_free x)
    → After ram h place heads live staged ptr heap_free n threads m l xs
unfolding stage thread_roots Steady among NoDup
thread_roots-Staged {threads = threads} s [] nodup new slot =
    (threads, count-Staged (omega arith) s, λ b hb empty no. (tt, empty))
thread_roots-Staged {ram} {h} {staged = staged} {n = n} {m = m} {l} s (x ∷ xs) (out, nodup) new
      slot =
    let still_new : (y : ℕ) → among y xs ≡ true → joined x staged y ≡ false =
      λ y j. rw (other (λ z. among z xs) j out) (new y (among-rest y x xs j)) in
    let (threads1, s1, keep1) =
      thread-one s x (new x (among-first x xs)) (slot x (among-first x xs)) in
    let (threads2, s2, keep2) =
      thread_roots-Staged {staged = joined x staged} {n = suc n} {threads = threads1}
        {m = gc_thread_pointer ram m x} s1 xs nodup (λ y j. still_new y j)
        (λ y j. slot y (among-rest y x xs j)) in
    (
      threads2,
      count-Staged (omega arith) s2,
      λ b hb empty no.
          let gone = keep1 b empty (no x (among-first x xs)) in
          let (steady, last) = keep2 b hb gone (λ y j. no y (among-rest y x xs j)) in
          ((header-stays s1 b hb gone ∙ sym (header-stays s b hb empty), steady), last),
    )
