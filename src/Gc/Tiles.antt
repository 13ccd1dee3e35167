-- ===== src/Gc/Tiles.antt =====
-- Blocks that tile the heap, and lists of slots without repetition.
use mquickjs.Base.{
  ℕ, ◌+◌, ◌≤◌, ◌<◌, ◌≡◌, refl, sym, ap, ◌∙◌, ◌⊎◌, inl, inr, Bool, true, false, ◌||◌, List, [], ◌∷◌,
  ◌++◌, arith, Bool-cases, ◌==◌,
}
use mquickjs.Props.{Words}
use mquickjs.Gc.{mtag, mtag_free, get_mblock_size}
use mquickjs.Gc.Chain.{among, NoDup}
use mquickjs.Gc.Blocks.{threaded_slots}
use mquickjs.Gc.Graph.{heap_slots, Tiles}
use mquickjs.Gc.Staged.{joined, stage}

pub among-cons : (x t : ℕ) (ts : List ℕ) → among x (t ∷ ts) ≡ true → (x ≡ t) ⊎ (among x ts ≡ true)
unfolding among
among-cons x t ts i = elim (Bool-cases (x == t)) [
  | inl e ↦ inl (ground arith)
  | inr e ↦ inr (sym (ap (λ z. z || among x ts) e) ∙ i)
]

pub among-append : (x : ℕ) (xs ys : List ℕ) → among x (xs ++ ys) ≡ (among x xs || among x ys)
unfolding among
among-append x [] ys = refl
among-append x (t ∷ xs) ys = rw (among-append x xs ys) (ground arith)

pub stage-among :
    (xs : List ℕ) (staged : ℕ → Bool) (x : ℕ) → stage xs staged x ≡ (among x xs || staged x)
unfolding stage among
stage-among [] staged x = refl
stage-among (t ∷ xs) staged x = stage-among xs (joined t staged) x ∙ ground arith

pub stage-append :
    (xs ys : List ℕ) (staged : ℕ → Bool) → stage (xs ++ ys) staged ≡ stage ys (stage xs staged)
unfolding stage
stage-append [] ys staged = refl
stage-append (t ∷ xs) ys staged = stage-append xs ys (joined t staged)

pub NoDup-append :
    (xs ys : List ℕ)
    → NoDup (xs ++ ys)
    → NoDup xs × NoDup ys × ((x : ℕ) → among x ys ≡ true → among x xs ≡ false)
unfolding NoDup among
NoDup-append [] ys nodup = (tt, nodup, λ x i. refl)
NoDup-append (t ∷ xs) ys (out, nodup) =
    let (first, second, apart) = NoDup-append xs ys nodup in
    let out' : (among t xs || among t ys) ≡ false = sym (among-append t xs ys) ∙ out in
    (
      (ground arith, first),
      second,
      λ x i. elim (Bool-cases (x == t)) [
        | inl e ↦
            let same : x ≡ t = ground arith in
            let missing : among t ys ≡ false = ground arith in
            absurd (cc (i, missing, ap (λ z. among z ys) same))
        | inr e ↦ rw e (apart x i)
      ],
    )

-- A slot of a block that stays is among those of the heap.
pub heap_slots-block :
    (h : Words) (bs : List ℕ) (b x : ℕ)
    → among b bs ≡ true
    → (mtag (h b) == mtag_free) ≡ false
    → among x (threaded_slots (h b) b) ≡ true
    → among x (heap_slots h bs) ≡ true
unfolding heap_slots among
heap_slots-block h [] b x hb stays i = absurd (ground arith)
heap_slots-block h (c ∷ bs) b x hb stays i = elim (among-cons b c bs hb) [
  | inl same ↦
      let stays' : (mtag (h c) == mtag_free) ≡ false =
        ap (λ z. mtag (h z) == mtag_free) (sym same) ∙ stays in
      let i' : among x (threaded_slots (h c) c) ≡ true =
        ap (λ z. among x (threaded_slots (h z) z)) (sym same) ∙ i in
      rw stays' (among-append x (threaded_slots (h c) c) (heap_slots h bs) ∙ rw i' refl)
  | inr j ↦
      let rest = heap_slots-block h bs b x j stays i in
      elim (Bool-cases (mtag (h c) == mtag_free)) [
        | inl e ↦ rw e rest
        | inr e ↦
            rw e
              (among-append x (threaded_slots (h c) c) (heap_slots h bs) ∙ rw rest (ground arith))
      ]
]

pub Tiles-end :
    (h : Words) (p : ℕ) (bs : List ℕ) (heap_free : ℕ) → Tiles h p bs heap_free → p ≤ heap_free
unfolding Tiles
Tiles-end h p [] heap_free t = omega arith
Tiles-end h p (b ∷ bs) heap_free (at, some_words, t) =
    let rest = Tiles-end h (p + get_mblock_size (h b)) bs heap_free t in omega arith

pub Tiles-bounds :
    (h : Words) (p : ℕ) (bs : List ℕ) (heap_free c : ℕ)
    → Tiles h p bs heap_free
    → among c bs ≡ true
    → (p ≤ c) × (0 < get_mblock_size (h c)) × (c + get_mblock_size (h c) ≤ heap_free)
unfolding Tiles among
Tiles-bounds h p [] heap_free c t i = absurd (ground arith)
Tiles-bounds h p (b ∷ bs) heap_free c (at, some_words, t) i = elim (among-cons c b bs i) [
  | inl same ↦
      let last = Tiles-end h (p + get_mblock_size (h b)) bs heap_free t in
      rw same (omega arith, some_words, omega arith)
  | inr j ↦
      let (low, positive, high) = Tiles-bounds h (p + get_mblock_size (h b)) bs heap_free c t j in
      (omega arith, positive, high)
]

-- Two blocks do not overlap.
pub Tiles-apart :
    (h : Words) (p : ℕ) (bs : List ℕ) (heap_free c d : ℕ)
    → Tiles h p bs heap_free
    → among c bs ≡ true
    → among d bs ≡ true
    → c < d
    → c + get_mblock_size (h c) ≤ d
unfolding Tiles among
Tiles-apart h p [] heap_free c d t hc hd lt = absurd (ground arith)
Tiles-apart h p (b ∷ bs) heap_free c d (at, some_words, t) hc hd lt = elim (among-cons c b bs hc) [
  | inl c_first ↦ elim (among-cons d b bs hd) [
    | inl d_first ↦ absurd (omega arith)
    | inr j ↦
        let (low, positive, high) = Tiles-bounds h (p + get_mblock_size (h b)) bs heap_free d t j in
        let same_size : get_mblock_size (h c) ≡ get_mblock_size (h b) =
          ap (λ z. get_mblock_size (h z)) c_first in
        omega arith
  ]
  | inr i ↦ elim (among-cons d b bs hd) [
    | inl d_first ↦
        let (low, positive, high) = Tiles-bounds h (p + get_mblock_size (h b)) bs heap_free c t i in
        absurd (omega arith)
    | inr j ↦ Tiles-apart h (p + get_mblock_size (h b)) bs heap_free c d t i j lt
  ]
]
