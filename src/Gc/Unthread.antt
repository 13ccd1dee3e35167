-- ===== src/Gc/Unthread.antt =====
-- gc_update_threaded_pointers walks the chain of a block and restores its header.
use mquickjs.Base.{
  ℕ, zero, suc, ◌≤◌, ◌≡◌, refl, sym, ap, ◌∙◌, inl, inr, Bool, true, false, List, [], ◌∷◌, arith,
  length, Bool-cases, ◌==◌, if◌then◌else◌,
}
use mquickjs.Props.{Words, write}
use mquickjs.Gc.{is_ptr, value_from_ptr}
use mquickjs.Gc.Thread.{unthread, gc_update_threaded_pointers}
use mquickjs.Gc.Chain.{
  Chain, NoDup, among, Chain-frame, among-first, among-rest, to_from, is_ptr-value_from_ptr, Rep,
  cleared, updated, distinct, other,
}

unthread-step :
    (fuel : ℕ) (m : Words) (t new_ptr : ℕ)
    → unthread (suc fuel) m (value_from_ptr t) new_ptr ≡ (
        if is_ptr (m t)
        then unthread fuel (write m t (value_from_ptr new_ptr)) (m t) new_ptr
        else (write m t (value_from_ptr new_ptr), m t))
unfolding unthread
unthread-step fuel m t new_ptr =
    ap
      (λ p.
        if is_ptr (m p)
        then unthread fuel (write m p (value_from_ptr new_ptr)) (m p) new_ptr
        else (write m p (value_from_ptr new_ptr), m p))
      (to_from t)

updated-cons :
    (m : Words) (t : ℕ) (ts : List ℕ) (new_ptr x : ℕ)
    → updated (write m t (value_from_ptr new_ptr)) ts new_ptr x ≡ updated m (t ∷ ts) new_ptr x
unfolding among
updated-cons m t ts new_ptr x = elim (Bool-cases (among x ts)) [
  | inl e ↦ elim (Bool-cases (x == t)) [ inl xt ↦ rw e (rw xt refl) | inr xt ↦ rw e (rw xt refl) ]
  | inr e ↦ elim (Bool-cases (x == t)) [ inl xt ↦ rw e (rw xt refl) | inr xt ↦ rw e (rw xt refl) ]
]

-- The loop walks the whole chain: it returns the header and redirects every slot on the way.
unthread-Chain :
    (fuel : ℕ) (m : Words) (t : ℕ) (ts : List ℕ) (h new_ptr : ℕ)
    → length (t ∷ ts) ≤ fuel
    → NoDup (t ∷ ts)
    → Chain m t ts h
    → is_ptr h ≡ false
    → ((unthread fuel m (value_from_ptr t) new_ptr).1 ≡ h)
      × ((x : ℕ) → (unthread fuel m (value_from_ptr t) new_ptr).0 x ≡ updated m (t ∷ ts) new_ptr x)
unfolding Chain NoDup among
unthread-Chain zero m t ts h new_ptr enough nodup chain plain = absurd (omega arith)
unthread-Chain (suc fuel) m t [] h new_ptr enough nodup chain plain =
    rw (unthread-step fuel m t new_ptr) (rw chain (rw plain (refl, λ x. ground arith)))
unthread-Chain (suc fuel) m t (t' ∷ ts) h new_ptr enough (out, nodup) (next, chain) plain =
    let m' = write m t (value_from_ptr new_ptr) in
    let kept : (x : ℕ) → among x (t' ∷ ts) ≡ true → m' x ≡ m x =
      λ x i. rw (other (λ y. among y (t' ∷ ts)) i out) refl in
    let chain' =
      Chain-frame m m' t' t' ts h (kept t' (among-first t' ts))
        (λ x i. kept x (among-rest x t' ts i)) chain in
    let (last, rest) = unthread-Chain fuel m' t' ts h new_ptr (omega arith) nodup chain' plain in
    rw (unthread-step fuel m t new_ptr) (
      rw next
        (rw (is_ptr-value_from_ptr t') (last, λ x. rest x ∙ updated-cons m t (t' ∷ ts) new_ptr x)))

-- All of gc_update_threaded_pointers.
pub update-Chain :
    (fuel : ℕ) (m : Words) (b : ℕ) (ts : List ℕ) (h new_ptr : ℕ)
    → length ts ≤ fuel
    → NoDup ts
    → Chain m b ts h
    → is_ptr h ≡ false
    → (x : ℕ)
    → gc_update_threaded_pointers fuel m b new_ptr x
      ≡ (if x == b then h else updated m ts new_ptr x)
unfolding gc_update_threaded_pointers Chain NoDup among
update-Chain fuel m b [] h new_ptr enough nodup chain plain x = rw chain (
    rw plain (elim (Bool-cases (x == b)) [
      | inl e ↦ let same : x ≡ b = ground arith in rw e (ap m same ∙ chain)
      | inr e ↦ rw e refl
    ]))
update-Chain fuel m b (t ∷ ts) h new_ptr enough nodup (at, chain) plain x =
    let (last, rest) = unthread-Chain fuel m t ts h new_ptr enough nodup chain plain in
    rw at (rw (is_ptr-value_from_ptr t) (rw last (rw (rest x) refl)))

pub cleared-others :
    (threads : ℕ → List ℕ) (b c : ℕ) → (c == b) ≡ false → cleared threads b c ≡ threads c
cleared-others threads b c e = rw e refl

pub cleared-same : (threads : ℕ → List ℕ) (b c : ℕ) → (c == b) ≡ true → cleared threads b c ≡ []
cleared-same threads b c e = rw e refl

pub updated-out :
    (l : Words) (ts : List ℕ) (new_ptr x : ℕ) → among x ts ≡ false → updated l ts new_ptr x ≡ l x
updated-out l ts new_ptr x e = rw e refl

-- The slots of a chain point to the new place of the block afterwards, and its header stands there again.
pub update-Rep :
    {live head : ℕ → Bool} {threads : ℕ → List ℕ} {m l : Words} (fuel b new_ptr : ℕ)
    → Rep live head threads m l
    → head b ≡ true
    → length (threads b) ≤ fuel
    → Rep live head
        (cleared threads b)
        (gc_update_threaded_pointers fuel m b new_ptr)
        (updated l (threads b) new_ptr)
unfolding Chain among NoDup
update-Rep {live} {head} {threads} {m} {l} fuel b new_ptr r hb enough =
    let m' = gc_update_threaded_pointers fuel m b new_ptr in
    let l' = updated l (threads b) new_ptr in
    let is : (x : ℕ) → m' x ≡ (if x == b then l b else updated m (threads b) new_ptr x) =
      update-Chain fuel m b (threads b) (l b) new_ptr enough (r.nodup b hb) (r.chain b hb)
        (r.header b hb) in
    let free : (c : ℕ) → head c ≡ true → among c (threads b) ≡ false = λ c h.
      elim (Bool-cases (among c (threads b))) [
        | inl i ↦ absurd (cc (h, (r.points b c hb i).1))
        | inr o ↦ o
      ] in
    let elsewhere : (x : ℕ) → (x == b) ≡ false → among x (threads b) ≡ false → m' x ≡ m x =
      λ x e o. is x ∙ rw e (rw o refl) in
    let slot : (c x : ℕ) → head c ≡ true → among x (threads c) ≡ true → (x == b) ≡ false =
      λ c x h i. distinct head (r.points c x h i).1 hb in
    let apart : (c x : ℕ)
        → head c ≡ true
        → (c == b) ≡ false
        → among x (threads c) ≡ true
        → among x (threads b) ≡ false =
      λ c x h e i. elim (Bool-cases (among x (threads b))) [
        | inl j ↦
            let one_target : value_from_ptr c ≡ value_from_ptr b =
              sym (r.points c x h i).0 ∙ (r.points b x hb j).0 in
            ground arith
        | inr o ↦ o
      ] in
    record {
      chain = λ c h. elim (Bool-cases (c == b)) [
        | inl e ↦
            let same : c ≡ b = ground arith in
            let at : m' c ≡ l c = is c ∙ rw e (ap l (sym same)) in
            rw e (at ∙ sym (updated-out l (threads b) new_ptr c (free c h)))
        | inr e ↦
            let frame =
              Chain-frame m m' c c (threads c) (l c) (elsewhere c e (free c h))
                (λ x i. elsewhere x (slot c x h i) (apart c x h e i)) (r.chain c h) in
            rw e (rw (free c h) frame)
      ];
      nodup = λ c h. elim (Bool-cases (c == b)) [ inl e ↦ rw e tt | inr e ↦ rw e (r.nodup c h) ];
      points = λ c x h i. elim (Bool-cases (c == b)) [
        | inl e ↦ absurd (cc (sym (ap (among x) (cleared-same threads b c e)) ∙ i))
        | inr e ↦
            let in_chain : among x (threads c) ≡ true =
              sym (ap (among x) (cleared-others threads b c e)) ∙ i in
            let (target, below) = r.points c x h in_chain in
            (updated-out l (threads b) new_ptr x (apart c x h e in_chain) ∙ target, below)
      ];
      header = λ c h. ap is_ptr (updated-out l (threads b) new_ptr c (free c h)) ∙ r.header c h;
      plain = λ x hx lx out.
          is x
          ∙ rw (distinct head hx hb) (elim (Bool-cases (among x (threads b))) [
            | inl i ↦ rw i refl
            | inr o ↦ rw o (
                r.plain x hx lx (λ c h. elim (Bool-cases (c == b)) [
                  | inl e ↦
                      let same : c ≡ b = ground arith in ap (λ y. among x (threads y)) same ∙ o
                  | inr e ↦ sym (ap (among x) (cleared-others threads b c e)) ∙ out c h
                ]))
          ]);
    }
