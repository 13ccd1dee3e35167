-- ===== src/Gc/Survivors.antt =====
-- The slots of the swept heap are those of the blocks that were marked.
use mathlib.Core.Path.{subst}
use mquickjs.Base.{
  ℕ, ◌+◌, ◌≡◌, refl, sym, ap, ◌∙◌, inl, inr, Bool, true, false, ◌||◌, List, [], ◌∷◌, ◌++◌, arith,
  Bool-cases, ◌==◌, if◌then◌else◌,
}
use mquickjs.Props.{Words}
use mquickjs.Gc.{mtag, mtag_free, mtag_object, class_id}
use mquickjs.Gc.Chain.{among, NoDup, among-first, among-rest}
use mquickjs.Gc.Graph.{heap_slots}
use mquickjs.Gc.Blocks.{threaded_slots, class_slots}
use mquickjs.Gc.Tiles.{among-cons, among-append}
use mquickjs.Gc.Swept.{is_marked, swept, swept-live, swept-first, swept-skip}
use mquickjs.Gc.Mark.{marked_slots, class_compartment}
use mquickjs.Gc.Relocation.{slots-free, slots-stay}

class_slots-none : (v b : ℕ) → (class_id v == class_compartment) ≡ true → class_slots v b ≡ []
unfolding class_slots
class_slots-none v b e = let class : class_id v ≡ class_compartment = ground arith in rw class refl

pub object_slots :
    (v b : ℕ)
    → (mtag v == mtag_object) ≡ true
    → (threaded_slots v b ≡ (b + 1) ∷ (b + 2) ∷ class_slots v b)
      × (marked_slots v b
          ≡ (b + 1)
            ∷ (b + 2)
            ∷ (if class_id v == class_compartment then (b + 3) ∷ (b + 4) ∷ [] else class_slots v b))
unfolding threaded_slots marked_slots
object_slots v b e = (rw e refl, rw e refl)

pub other_slots :
    (v b : ℕ) → (mtag v == mtag_object) ≡ false → threaded_slots v b ≡ marked_slots v b
unfolding threaded_slots marked_slots
other_slots v b e = rw e refl

front_slots :
    (x b : ℕ) (xs : List ℕ)
    → among x ((b + 1) ∷ (b + 2) ∷ []) ≡ true
    → among x ((b + 1) ∷ (b + 2) ∷ xs) ≡ true
unfolding among
front_slots x b xs i = ground arith

-- The slots that are threaded are among those that are marked.
pub threaded_slots-marked_slots :
    (v b x : ℕ) → among x (threaded_slots v b) ≡ true → among x (marked_slots v b) ≡ true
threaded_slots-marked_slots v b x i = elim (Bool-cases (mtag v == mtag_object)) [
  | inl e ↦
      let (refs, marks) = object_slots v b e in
      let i' = sym (ap (among x) refs) ∙ i in
      elim (Bool-cases (class_id v == class_compartment)) [
        | inl c ↦
            let few : among x ((b + 1) ∷ (b + 2) ∷ []) ≡ true =
              sym (ap (λ xs. among x ((b + 1) ∷ (b + 2) ∷ xs)) (class_slots-none v b c)) ∙ i' in
            ap (among x) marks ∙ rw c (front_slots x b ((b + 3) ∷ (b + 4) ∷ []) few)
        | inr c ↦ ap (among x) marks ∙ rw c i'
      ]
  | inr e ↦ ap (among x) (sym (other_slots v b e)) ∙ i
]

-- A slot of the heap belongs to a block that is not free.
pub heap_slots-source :
    (h : Words) (bs : List ℕ) (x : ℕ)
    → among x (heap_slots h bs) ≡ true
    → (c : ℕ) × (among c bs ≡ true)
      × ((mtag (h c) == mtag_free) ≡ false)
      × (among x (threaded_slots (h c) c) ≡ true)
unfolding among heap_slots
heap_slots-source h [] x i = absurd (ground arith)
heap_slots-source h (b ∷ bs) x i =
    let later : among x (heap_slots h bs) ≡ true
        → (c : ℕ) × (among c (b ∷ bs) ≡ true)
          × ((mtag (h c) == mtag_free) ≡ false)
          × (among x (threaded_slots (h c) c) ≡ true) =
      λ j.
        let (c, hc, stays, slot) = heap_slots-source h bs x j in
        (c, among-rest c b bs hc, stays, slot) in
    elim (Bool-cases (mtag (h b) == mtag_free)) [
      | inl e ↦ later (sym (ap (among x) (slots-free h b bs e)) ∙ i)
      | inr e ↦
          let split =
            sym (among-append x (threaded_slots (h b) b) (heap_slots h bs))
            ∙ (sym (ap (among x) (slots-stay h b bs e)) ∙ i) in
          elim (Bool-cases (among x (threaded_slots (h b) b))) [
            | inl j ↦ (b, among-first b bs, e, j)
            | inr o ↦ later (sym (ap (λ z. z || among x (heap_slots h bs)) o) ∙ split)
          ]
    ]

-- `xs` is `ys` without some of its elements.
pub data IsSublist : List ℕ → List ℕ → Type 0 where
  nothing : IsSublist [] []
  keep : (x : ℕ) (xs ys : List ℕ) → IsSublist xs ys → IsSublist (x ∷ xs) (x ∷ ys)
  leave_out : (x : ℕ) (xs ys : List ℕ) → IsSublist xs ys → IsSublist xs (x ∷ ys)

IsSublist-among :
    (xs ys : List ℕ) → IsSublist xs ys → (x : ℕ) → among x xs ≡ true → among x ys ≡ true
unfolding among
IsSublist-among _ _ nothing x i = i
IsSublist-among _ _ (keep y xs ys s) x i = elim (among-cons x y xs i) [
  | inl same ↦ ground arith
  | inr j ↦ among-rest x y ys (IsSublist-among xs ys s x j)
]
IsSublist-among _ _ (leave_out y xs ys s) x i = among-rest x y ys (IsSublist-among xs ys s x i)

pub IsSublist-NoDup : (xs ys : List ℕ) → IsSublist xs ys → NoDup ys → NoDup xs
unfolding NoDup
IsSublist-NoDup _ _ nothing nodup = nodup
IsSublist-NoDup _ _ (keep y xs ys s) (out, nodup) = (
  elim (Bool-cases (among y xs)) [
    | inl i ↦ absurd (cc (out, IsSublist-among xs ys s y i))
    | inr o ↦ o
  ],
  IsSublist-NoDup xs ys s nodup,
)
IsSublist-NoDup _ _ (leave_out y xs ys s) (out, nodup) = IsSublist-NoDup xs ys s nodup

IsSublist-refl : (xs : List ℕ) → IsSublist xs xs
IsSublist-refl [] = nothing
IsSublist-refl (x ∷ xs) = keep x xs xs (IsSublist-refl xs)

pub IsSublist-append : (ps xs ys : List ℕ) → IsSublist xs ys → IsSublist (ps ++ xs) (ps ++ ys)
IsSublist-append [] xs ys s = s
IsSublist-append (p ∷ ps) xs ys s = keep p (ps ++ xs) (ps ++ ys) (IsSublist-append ps xs ys s)

IsSublist-leave : (ps xs ys : List ℕ) → IsSublist xs ys → IsSublist xs (ps ++ ys)
IsSublist-leave [] xs ys s = s
IsSublist-leave (p ∷ ps) xs ys s = leave_out p xs (ps ++ ys) (IsSublist-leave ps xs ys s)

subst2 : {xs xs' ys ys' : List ℕ} → xs ≡ xs' → ys ≡ ys' → IsSublist xs' ys' → IsSublist xs ys
subst2 {xs} {xs'} {ys} {ys'} e f s =
    subst (λ z. IsSublist z ys) (sym e) (subst (IsSublist xs') (sym f) s)

behind :
    (h : Words) (b : ℕ) (bs xs : List ℕ)
    → IsSublist xs (heap_slots h bs)
    → IsSublist xs (heap_slots h (b ∷ bs))
behind h b bs xs s = elim (Bool-cases (mtag (h b) == mtag_free)) [
  | inl f ↦ subst2 refl (slots-free h b bs f) s
  | inr f ↦
      subst2 refl (slots-stay h b bs f)
        (IsSublist-leave (threaded_slots (h b) b) xs (heap_slots h bs) s)
]

-- The slots of the swept heap are those of the marked blocks.
pub heap_slots-swept :
    (h v m : Words) (in_run : Bool) (bs : List ℕ)
    → ((c : ℕ) → among c bs ≡ true → is_marked v c ≡ true → m c ≡ h c)
    → ((c : ℕ)
        → among c (swept v in_run bs) ≡ true
        → is_marked v c ≡ false
        → mtag (m c) ≡ mtag_free)
    → IsSublist (heap_slots m (swept v in_run bs)) (heap_slots h bs)
unfolding swept heap_slots
heap_slots-swept h v m in_run [] same free = nothing
heap_slots-swept h v m in_run (b ∷ bs) same free =
    let later : IsSublist (heap_slots m (swept v in_run (b ∷ bs))) (heap_slots h (b ∷ bs)) =
      elim (Bool-cases (is_marked v b)) [
        | inl e ↦
            let blocks = swept-live v in_run b bs e in
            let word = same b (among-first b bs) e in
            let rest =
              heap_slots-swept h v m false bs (λ c i. same c (among-rest c b bs i))
                (λ c i. free c (ap (among c) blocks ∙ among-rest c b (swept v false bs) i)) in
            elim (Bool-cases (mtag (h b) == mtag_free)) [
              | inl f ↦
                  let f' : (mtag (m b) == mtag_free) ≡ true =
                    ap (λ z. mtag z == mtag_free) word ∙ f in
                  subst2 (ap (heap_slots m) blocks ∙ slots-free m b (swept v false bs) f')
                    (slots-free h b bs f) rest
              | inr f ↦
                  let f' : (mtag (m b) == mtag_free) ≡ false =
                    ap (λ z. mtag z == mtag_free) word ∙ f in
                  let refs = ap (λ z. threaded_slots z b ++ heap_slots m (swept v false bs)) word in
                  subst2 (ap (heap_slots m) blocks ∙ (slots-stay m b (swept v false bs) f' ∙ refs))
                    (slots-stay h b bs f) (IsSublist-append (threaded_slots (h b) b) _ _ rest)
            ]
        | inr e ↦ elim (Bool-cases in_run) [
          | inl r ↦
              let blocks = swept-skip v in_run b bs e r in
              let rest =
                heap_slots-swept h v m true bs (λ c i. same c (among-rest c b bs i))
                  (λ c i. free c (ap (among c) blocks ∙ i)) in
              subst2 (ap (heap_slots m) blocks) refl (behind h b bs _ rest)
          | inr r ↦
              let blocks = swept-first v in_run b bs e r in
              let tag = free b (ap (among b) blocks ∙ among-first b (swept v true bs)) e in
              let f' : (mtag (m b) == mtag_free) ≡ true = ground arith in
              let rest =
                heap_slots-swept h v m true bs (λ c i. same c (among-rest c b bs i))
                  (λ c i. free c (ap (among c) blocks ∙ among-rest c b (swept v true bs) i)) in
              subst2 (ap (heap_slots m) blocks ∙ slots-free m b (swept v true bs) f') refl
                (behind h b bs _ rest)
        ]
      ] in
    later
