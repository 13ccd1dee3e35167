-- ===== src/Gc/Staged.antt =====
-- The slots that the collector has threaded so far, and what the words stand for meanwhile.
use mathlib.Core.Path.{subst}
use mquickjs.Base.{
  ℕ, suc, ◌≤◌, ◌<◌, ◌≡◌, refl, sym, ap, ◌∙◌, ◌⊎◌, inl, inr, Bool, true, false, ◌&&◌, ◌||◌, List, [],
  ◌∷◌, arith, length, Bool-cases, ◌==◌,
}
use mquickjs.Props.{Words, write}
use mquickjs.Gc.{value_from_ptr, value_to_ptr}
use mquickjs.Gc.Thread.{Ram, gc_thread_pointer}
use mquickjs.Gc.Chain.{among, Rep, threaded, threaded-same, threaded-others, thread-Rep, from_to}
use mquickjs.Gc.Graph.{is_reference, relocate}

abbrev pub joined : ℕ → (ℕ → Bool) → ℕ → Bool
joined x staged y = (y == x) || staged y

unfoldable pub stage : List ℕ → (ℕ → Bool) → ℕ → Bool
stage [] staged = staged
stage (x ∷ xs) staged = stage xs (joined x staged)

among-threaded :
    (threads : ℕ → List ℕ) (b p c y : ℕ)
    → among y (threaded threads b p c) ≡ true
    → (((c == b) ≡ true) × ((y == p) ≡ true)) ⊎ (among y (threads c) ≡ true)
unfolding among
among-threaded threads b p c y i = elim (Bool-cases (c == b)) [
  | inl e ↦ elim (Bool-cases (y == p)) [
    | inl yp ↦ inl (e, yp)
    | inr yp ↦ inr (
        sym (ap (λ z. z || among y (threads c)) yp)
        ∙ (sym (ap (among y) (threaded-same threads b p c e)) ∙ i))
  ]
  | inr e ↦ inr (sym (ap (among y) (threaded-others threads b p c e)) ∙ i)
]

threaded-keeps :
    (threads : ℕ → List ℕ) (b p c y : ℕ)
    → among y (threads c) ≡ true
    → among y (threaded threads b p c) ≡ true
unfolding among
threaded-keeps threads b p c y i = elim (Bool-cases (c == b)) [
  | inl e ↦ rw e (ground arith)
  | inr e ↦ rw e i
]

threaded-holds : (threads : ℕ → List ℕ) (b p : ℕ) → among p (threaded threads b p b) ≡ true
unfolding among
threaded-holds threads b p = ground arith

length-threaded :
    (threads : ℕ → List ℕ) (b p c n : ℕ)
    → length (threads c) ≤ n
    → length (threaded threads b p c) ≤ suc n
length-threaded threads b p c n le = elim (Bool-cases (c == b)) [
  | inl e ↦ rw e (omega arith)
  | inr e ↦ rw e (omega arith)
]

pub and-left : (a b : Bool) → (a && b) ≡ true → a ≡ true
and-left a b e = ground arith

or-right : (a b : Bool) → b ≡ true → (a || b) ≡ true
or-right a b e = ground arith

or-none : (a b : Bool) → (a || b) ≡ false → b ≡ false
or-none a b e = ground arith

weaken : {a n : ℕ} → a ≤ n → a ≤ suc n
weaken le = omega arith

-- `h` is the memory before the collection and `place` the new place of each block. The blocks before `ptr`
-- are updated; `n` bounds the number of slots in a chain.
pub record Staged (ram : Ram) (h : Words) (place : ℕ → ℕ) (heads : List ℕ) (live staged : ℕ → Bool)
    (ptr heap_free n : ℕ) (threads : ℕ → List ℕ) (m l : Words) : Type 0 where
  pub rep : Rep live (λ c. among c heads) threads m l
  pub slot : (c x : ℕ) → among c heads ≡ true → among x (threads c) ≡ true → staged x ≡ true
  pub target :
      (c x : ℕ)
      → among c heads ≡ true
      → among x (threads c) ≡ true
      → (h x ≡ value_from_ptr c) × (is_reference ram (h x) ≡ true)
  pub after :
      (c x : ℕ)
      → among c heads ≡ true
      → among x (threads c) ≡ true
      → c < ptr
      → (c < x) × (x < heap_free)
  pub settled :
      (x : ℕ)
      → staged x ≡ true
      → ((c : ℕ) × (among c heads ≡ true) × (among x (threads c) ≡ true))
        ⊎ (l x ≡ relocate ram place (h x))
  pub fresh : (x : ℕ) → staged x ≡ false → l x ≡ h x
  pub apart : (x : ℕ) → staged x ≡ true → among x heads ≡ false
  pub count : (c : ℕ) → among c heads ≡ true → length (threads c) ≤ n

pub count-Staged :
    {ram : Ram} {h : Words} {place : ℕ → ℕ} {heads : List ℕ} {live staged : ℕ → Bool}
    {ptr heap_free n k : ℕ} {threads : ℕ → List ℕ} {m l : Words}
    → n ≤ k
    → Staged ram h place heads live staged ptr heap_free n threads m l
    → Staged ram h place heads live staged ptr heap_free k threads m l
count-Staged {n = n} {k = k} le s = record {
  rep = s.rep;
  slot = s.slot;
  target = s.target;
  after = s.after;
  settled = s.settled;
  fresh = s.fresh;
  apart = s.apart;
  count = λ c hc. let bound = s.count c hc in omega arith;
}

module _ {ram : Ram} {h : Words} {place : ℕ → ℕ} {heads : List ℕ} {live staged : ℕ → Bool}
    {ptr heap_free n : ℕ} {threads : ℕ → List ℕ} {m l : Words}
    (s : Staged ram h place heads live staged ptr heap_free n threads m l) (x : ℕ)
    (new : staged x ≡ false) (no_head : among x heads ≡ false) (is_live : live x ≡ true) where
  in_no_chain : (c : ℕ) → among c heads ≡ true → among x (threads c) ≡ false
  in_no_chain c hc = elim (Bool-cases (among x (threads c))) [
    | inl i ↦ absurd (cc (new, s.slot c x hc i))
    | inr o ↦ o
  ]

  -- The word of the slot is still that of the start.
  word : m x ≡ h x
  word = s.rep.plain x no_head is_live in_no_chain ∙ s.fresh x new

  pub thread-reference :
      is_reference ram (h x) ≡ true
      → among (value_to_ptr (h x)) heads ≡ true
      → (value_to_ptr (h x) < ptr → (value_to_ptr (h x) < x) × (x < heap_free))
      → Staged ram h place heads live
          (joined x staged)
          ptr
          heap_free
          (suc n)
          (threaded threads (value_to_ptr (h x)) x)
          (gc_thread_pointer ram m x)
          l
  unfolding gc_thread_pointer
  thread-reference is hb later =
      let c = value_to_ptr (h x) in
      let at : h x ≡ value_from_ptr c = from_to (h x) (and-left _ _ is) in
      let m' : Words = write (write m x (m c)) c (value_from_ptr x) in
      let code : gc_thread_pointer ram m x ≡ m' = rw word (rw is refl) in
      let rep' : Rep live (λ c. among c heads) (threaded threads c x) m' l =
        thread-Rep x c s.rep hb no_head is_live in_no_chain (s.fresh x new ∙ at) in
      record {
        rep = rw code rep';
        slot = λ d y hd i. elim (among-threaded threads c x d y i) [
          | inl (e, yx) ↦ ground arith
          | inr j ↦ or-right _ _ (s.slot d y hd j)
        ];
        target = λ d y hd i. elim (among-threaded threads c x d y i) [
          | inl (e, yx) ↦
              let same : y ≡ x = ground arith in
              let block : d ≡ c = ground arith in
              (
                ap h same ∙ (at ∙ sym (ap value_from_ptr block)),
                ap (λ z. is_reference ram (h z)) same ∙ is,
              )
          | inr j ↦ s.target d y hd j
        ];
        after = λ d y hd i lt. elim (among-threaded threads c x d y i) [
          | inl (e, yx) ↦
              let same : y ≡ x = ground arith in
              let block : d ≡ c = ground arith in
              rw same (rw block (later (subst (λ z. z < ptr) block lt)))
          | inr j ↦ s.after d y hd j lt
        ];
        settled = λ y st. elim (Bool-cases (y == x)) [
          | inl e ↦
              let same : y ≡ x = ground arith in inl (c, hb, rw same (threaded-holds threads c x))
          | inr e ↦ elim (s.settled y (sym (ap (λ z. z || staged y) e) ∙ st)) [
            | inl (d, hd, i) ↦ inl (d, hd, threaded-keeps threads c x d y i)
            | inr done ↦ inr done
          ]
        ];
        fresh = λ y st. s.fresh y (or-none _ _ st);
        apart = λ y st. elim (Bool-cases (y == x)) [
          | inl e ↦ let same : y ≡ x = ground arith in rw same no_head
          | inr e ↦ s.apart y (sym (ap (λ z. z || staged y) e) ∙ st)
        ];
        count = λ d hd. length-threaded threads c x d n (s.count d hd);
      }

  pub thread-other :
      is_reference ram (h x) ≡ false
      → Staged ram h place heads live
          (joined x staged)
          ptr
          heap_free
          (suc n)
          threads
          (gc_thread_pointer ram m x)
          l
  unfolding gc_thread_pointer relocate
  thread-other is =
      let not_moved : h x ≡ relocate ram place (h x) = rw is refl in
      record {
        rep = rw word (rw is s.rep);
        slot = λ d y hd i. or-right _ _ (s.slot d y hd i);
        target = s.target;
        after = s.after;
        settled = λ y st. elim (Bool-cases (y == x)) [
          | inl e ↦
              let same : y ≡ x = ground arith in
              inr (
                ap l same
                ∙ (s.fresh x new ∙ (not_moved ∙ ap (λ z. relocate ram place (h z)) (sym same))))
          | inr e ↦ s.settled y (sym (ap (λ z. z || staged y) e) ∙ st)
        ];
        fresh = λ y st. s.fresh y (or-none _ _ st);
        apart = λ y st. elim (Bool-cases (y == x)) [
          | inl e ↦ let same : y ≡ x = ground arith in rw same no_head
          | inr e ↦ s.apart y (sym (ap (λ z. z || staged y) e) ∙ st)
        ];
        count = λ d hd. weaken (s.count d hd);
      }
