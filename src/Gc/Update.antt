-- ===== src/Gc/Update.antt =====
-- What a call of gc_update_threaded_pointers and a list of calls of gc_thread_pointer do to the slots threaded so far.
use mquickjs.Base.{
  ℕ, ◌≤◌, ◌<◌, ◌≡◌, refl, sym, ap, ◌∙◌, inl, inr, Bool, true, false, List, arith, length,
  Bool-cases, ◌==◌,
}
use mquickjs.Props.{Words}
use mquickjs.Gc.{value_from_ptr, value_to_ptr}
use mquickjs.Gc.Thread.{Ram, gc_update_threaded_pointers}
use mquickjs.Gc.Chain.{among, cleared, updated, to_from}
use mquickjs.Gc.Unthread.{cleared-same, cleared-others, updated-out, update-Rep}
use mquickjs.Gc.Graph.{is_reference, relocate}
use mquickjs.Gc.Staged.{Staged}

relocate-reference :
    (ram : Ram) (place : ℕ → ℕ) (v b : ℕ)
    → v ≡ value_from_ptr b
    → is_reference ram v ≡ true
    → value_from_ptr (place b) ≡ relocate ram place v
unfolding relocate
relocate-reference ram place v b at is =
    rw is (ap (λ z. value_from_ptr (place z)) (sym (to_from b) ∙ ap value_to_ptr (sym at)))

among-cleared :
    (threads : ℕ → List ℕ) (b c x : ℕ)
    → among x (cleared threads b c) ≡ true
    → ((c == b) ≡ false) × (among x (threads c) ≡ true)
unfolding among
among-cleared threads b c x i = elim (Bool-cases (c == b)) [
  | inl e ↦ absurd (cc (sym (ap (among x) (cleared-same threads b c e)) ∙ i))
  | inr e ↦ (e, sym (ap (among x) (cleared-others threads b c e)) ∙ i)
]

length-cleared :
    (threads : ℕ → List ℕ) (b c n : ℕ) → length (threads c) ≤ n → length (cleared threads b c) ≤ n
length-cleared threads b c n le = elim (Bool-cases (c == b)) [
  | inl e ↦ rw e (omega arith)
  | inr e ↦ rw e le
]

updated-in :
    (l : Words) (ts : List ℕ) (new_ptr x : ℕ)
    → among x ts ≡ true
    → updated l ts new_ptr x ≡ value_from_ptr new_ptr
updated-in l ts new_ptr x i = rw i refl

module _ {ram : Ram} {h : Words} {place : ℕ → ℕ} {heads : List ℕ} {live staged : ℕ → Bool}
    {ptr heap_free n : ℕ} {threads : ℕ → List ℕ} {m l : Words}
    (s : Staged ram h place heads live staged ptr heap_free n threads m l) where
  pub update-Staged :
      (fuel b ptr' : ℕ)
      → among b heads ≡ true
      → n ≤ fuel
      → ((c : ℕ) → among c heads ≡ true → c < ptr' → (c == b) ≡ false → c < ptr)
      → Staged ram h place heads live staged ptr' heap_free n
          (cleared threads b)
          (gc_update_threaded_pointers fuel m b (place b))
          (updated l (threads b) (place b))
  update-Staged fuel b ptr' hb enough below =
      let bound = s.count b hb in
      record {
        rep = update-Rep fuel b (place b) s.rep hb (omega arith);
        slot = λ c x hc i. s.slot c x hc (among-cleared threads b c x i).1;
        target = λ c x hc i. s.target c x hc (among-cleared threads b c x i).1;
        after = λ c x hc i lt.
            let (e, j) = among-cleared threads b c x i in s.after c x hc j (below c hc lt e);
        settled = λ x st. elim (Bool-cases (among x (threads b))) [
          | inl i ↦
              let (at, is) = s.target b x hb i in
              inr (
                updated-in l (threads b) (place b) x i ∙ relocate-reference ram place (h x) b at is)
          | inr o ↦ elim (s.settled x st) [
            | inl (c, hc, i) ↦ elim (Bool-cases (c == b)) [
              | inl e ↦
                  let same : c ≡ b = ground arith in
                  absurd (cc (i, o, ap (λ z. among x (threads z)) same))
              | inr e ↦ inl (c, hc, ap (among x) (cleared-others threads b c e) ∙ i)
            ]
            | inr done ↦ inr (updated-out l (threads b) (place b) x o ∙ done)
          ]
        ];
        fresh = λ x st. elim (Bool-cases (among x (threads b))) [
          | inl i ↦ absurd (cc (st, s.slot b x hb i))
          | inr o ↦ updated-out l (threads b) (place b) x o ∙ s.fresh x st
        ];
        apart = s.apart;
        count = λ c hc. length-cleared threads b c n (s.count c hc);
      }
