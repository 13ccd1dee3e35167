-- ===== src/Gc/Chain.antt =====
-- Memory with threaded pointers stands for memory without: the chains of slots that start at the headers.
use mquickjs.Base.{
  ℕ, ◌≡◌, refl, sym, ap, ◌∙◌, inl, inr, Bool, true, false, ◌||◌, List, [], ◌∷◌, arith, Bool-cases,
  ◌==◌, if◌then◌else◌,
}
use mquickjs.Props.{Words, write}
use mquickjs.Gc.{is_ptr, value_from_ptr, value_to_ptr}

unfoldable pub among : ℕ → List ℕ → Bool
among x [] = false
among x (t ∷ ts) = (x == t) || among x ts

-- From the cell `c` the chain goes through the slots `ts` to the header `h`.
unfoldable pub Chain : Words → ℕ → List ℕ → ℕ → Type 0
Chain m c [] h = m c ≡ h
Chain m c (t ∷ ts) h = (m c ≡ value_from_ptr t) × Chain m t ts h

unfoldable pub NoDup : List ℕ → Type 0
NoDup [] = Unit {0}
NoDup (t ∷ ts) = (among t ts ≡ false) × NoDup ts

-- The chain depends on its cells only; its first cell may stand elsewhere.
pub Chain-frame :
    (m m' : Words) (c c' : ℕ) (ts : List ℕ) (h : ℕ)
    → m' c' ≡ m c
    → ((x : ℕ) → among x ts ≡ true → m' x ≡ m x)
    → Chain m c ts h
    → Chain m' c' ts h
unfolding Chain among
Chain-frame m m' c c' [] h e same chain = e ∙ chain
Chain-frame m m' c c' (t ∷ ts) h e same (at, chain) =
    (e ∙ at, Chain-frame m m' t t ts h (same t (ground arith)) (λ x i. same x (ground arith)) chain)

pub among-first : (t : ℕ) (ts : List ℕ) → among t (t ∷ ts) ≡ true
unfolding among
among-first t ts = ground arith

pub among-rest : (x t : ℕ) (ts : List ℕ) → among x ts ≡ true → among x (t ∷ ts) ≡ true
unfolding among
among-rest x t ts i = ground arith

pub from_to : (v : ℕ) → is_ptr v ≡ true → v ≡ value_from_ptr (value_to_ptr v)
from_to v e = ground arith

pub to_from : (p : ℕ) → value_to_ptr (value_from_ptr p) ≡ p
to_from p = omega arith

pub is_ptr-value_from_ptr : (p : ℕ) → is_ptr (value_from_ptr p) ≡ true
is_ptr-value_from_ptr p = ground arith

-- The memory `m` stands for `l`: the slots in `threads b` point to the block `b`, each header in `head` ends
-- the chain that starts in its place; in the region `live` all other words are those of `l`.
pub record Rep (live head : ℕ → Bool) (threads : ℕ → List ℕ) (m l : Words) : Type 0 where
  pub chain : (b : ℕ) → head b ≡ true → Chain m b (threads b) (l b)
  pub nodup : (b : ℕ) → head b ≡ true → NoDup (threads b)
  pub points :
      (b x : ℕ)
      → head b ≡ true
      → among x (threads b) ≡ true
      → (l x ≡ value_from_ptr b) × (head x ≡ false)
  pub header : (b : ℕ) → head b ≡ true → is_ptr (l b) ≡ false
  pub plain :
      (x : ℕ)
      → head x ≡ false
      → live x ≡ true
      → ((b : ℕ) → head b ≡ true → among x (threads b) ≡ false)
      → m x ≡ l x

-- The chain of `b` starts with the slot `p`.
abbrev pub threaded : (ℕ → List ℕ) → ℕ → ℕ → ℕ → List ℕ
threaded threads b p c = if c == b then p ∷ threads c else threads c

abbrev pub cleared : (ℕ → List ℕ) → ℕ → ℕ → List ℕ
cleared threads b c = if c == b then [] else threads c

pub threaded-same :
    (threads : ℕ → List ℕ) (b p c : ℕ) → (c == b) ≡ true → threaded threads b p c ≡ p ∷ threads c
threaded-same threads b p c e = rw e refl

pub threaded-others :
    (threads : ℕ → List ℕ) (b p c : ℕ) → (c == b) ≡ false → threaded threads b p c ≡ threads c
threaded-others threads b p c e = rw e refl

-- The slots in `ts` point to `new_ptr`.
abbrev pub updated : Words → List ℕ → ℕ → Words
updated l ts new_ptr x = if among x ts then value_from_ptr new_ptr else l x

pub eqb_refl : (p : ℕ) → (p == p) ≡ true
eqb_refl p = ground arith

pub distinct : (f : ℕ → Bool) {x y : ℕ} → f x ≡ false → f y ≡ true → (x == y) ≡ false
distinct f {x} {y} hx hy = elim (Bool-cases (x == y)) [
  | inl e ↦ let same : x ≡ y = ground arith in cc (hx, hy, ap f same)
  | inr e ↦ e
]

pub other : (f : ℕ → Bool) {x y : ℕ} → f x ≡ true → f y ≡ false → (x == y) ≡ false
other f {x} {y} hx hy = elim (Bool-cases (x == y)) [
  | inl e ↦ let same : x ≡ y = ground arith in cc (hx, hy, ap f same)
  | inr e ↦ e
]

-- A slot that points to a header joins its chain.
pub thread-Rep :
    {live head : ℕ → Bool} {threads : ℕ → List ℕ} {m l : Words} (p b : ℕ)
    → Rep live head threads m l
    → head b ≡ true
    → head p ≡ false
    → live p ≡ true
    → ((c : ℕ) → head c ≡ true → among p (threads c) ≡ false)
    → l p ≡ value_from_ptr b
    → Rep live head (threaded threads b p) (write (write m p (m b)) b (value_from_ptr p)) l
unfolding Chain among NoDup
thread-Rep {live} {head} {threads} {m} {l} p b r hb hp lp free at =
    let m' = write (write m p (m b)) b (value_from_ptr p) in
    let apart : (x : ℕ) → head x ≡ false → (x == b) ≡ false = λ x e. distinct head e hb in
    let slot : (c x : ℕ) → head c ≡ true → among x (threads c) ≡ true → m' x ≡ m x = λ c x h i.
      rw (apart x (r.points c x h i).1) (rw (other (λ y. among y (threads c)) i (free c h)) refl) in
    record {
      chain = λ c h. elim (Bool-cases (c == b)) [
        | inl e ↦
            let same : c ≡ b = ground arith in
            let rest =
              Chain-frame m m' c p (threads c) (l c)
                (rw (apart p hp) (rw (eqb_refl p) (sym (ap m same)))) (λ x i. slot c x h i)
                (r.chain c h) in
            rw e (rw e refl, rest)
        | inr e ↦ rw e (
            Chain-frame m m' c c (threads c) (l c) (rw e (rw (other head h hp) refl))
              (λ x i. slot c x h i) (r.chain c h))
      ];
      nodup = λ c h. elim (Bool-cases (c == b)) [
        | inl e ↦ rw e (free c h, r.nodup c h)
        | inr e ↦ rw e (r.nodup c h)
      ];
      points = λ c x h i. elim (Bool-cases (c == b)) [
        | inl e ↦
            (let now : among x (p ∷ threads c) ≡ true =
                sym (ap (among x) (threaded-same threads b p c e)) ∙ i in
              elim (Bool-cases (x == p)) [
                | inl xp ↦
                    let same : x ≡ p = ground arith in
                    let block : c ≡ b = ground arith in
                    (ap l same ∙ (at ∙ sym (ap value_from_ptr block)), ap head same ∙ hp)
                | inr xp ↦ r.points c x h (sym (ap (λ y. y || among x (threads c)) xp) ∙ now)
              ])
        | inr e ↦ r.points c x h (sym (ap (among x) (threaded-others threads b p c e)) ∙ i)
      ];
      header = r.header;
      plain = λ x hx lx out.
          (let now : among x (p ∷ threads b) ≡ false =
              sym (ap (among x) (threaded-same threads b p b (eqb_refl b))) ∙ out b hb in
            let xp : (x == p) ≡ false = ground arith in
            rw (apart x hx) (
              rw xp (
                r.plain x hx lx (λ c h. elim (Bool-cases (c == b)) [
                  | inl e ↦
                      let then_in : among x (p ∷ threads c) ≡ false =
                        sym (ap (among x) (threaded-same threads b p c e)) ∙ out c h in
                      ground arith
                  | inr e ↦ sym (ap (among x) (threaded-others threads b p c e)) ∙ out c h
                ]))));
    }
