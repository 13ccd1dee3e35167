-- ===== src/Props/Create/Place.antt =====
-- The slot that `js_create_property` fills.
use mquickjs.Base.{
  ℕ, zero, suc, ◌+◌, ◌-◌, ◌*◌, ◌/◌, ◌%◌, ◌^◌, ◌≤◌, ◌<◌, ◌≡◌, refl, sym, ap, ◌∙◌, ◌≢◌, inl, inr,
  true, false, ◌∷◌, arith, Bool-cases, ltb, ◌==◌, if◌then◌else◌,
}
use native.Mathlib.Decide.{dec_lt}
use mquickjs.Value.{js_undefined, js_uninitialized, new_short_int}
use mquickjs.Props.{
  Words, Props, write, key, set_hash_next, set_prop_type, normal, bucket, hash_mask, slot, slots,
  get_first_free, link_slot,
}
use mquickjs.Props.Chain.{live, count_live, IsLinked, bucket-le}
use mquickjs.Props.Same.{entry, entries, IsLinked-cong, entries-cong, count_live-cong}
use mquickjs.Props.Rehash.{link_slot-IsLinked}
use mquickjs.Props.Table.{IsTable, contents}
use mquickjs.Props.Create.{place}

pub count_live-le : (m : Words) (mask n : ℕ) → count_live m mask n ≤ n
unfolding count_live
count_live-le m mask zero = omega arith
count_live-le m mask (suc n) = ground (arith, count_live-le m mask n)

-- A table with `n` slots handed out and at least one more, the last marked as free.
pub record IsReady (p : Props) (n : ℕ) : Type 0 where
  pub linked : IsLinked p.arr (hash_mask p.arr) n
  pub aligned : p.size ≡ slot (hash_mask p.arr) (slots p.size (hash_mask p.arr))
  pub fits : slot (hash_mask p.arr) n < p.size
  pub small : p.size < 2 ^ 28
  pub marked : p.arr (p.size - 3) ≡ js_uninitialized
  pub owned : p.is_empty ≡ false

-- The link of the last slot lies above every other slot.
pub low_words :
    (size next v i : ℕ) (m : Words)
    → i < next
    → next ≤ size
    → (if ltb next size then set_hash_next m (size - 3) v else m) i ≡ m i
low_words size next v i m lo hi = elim (Bool-cases (ltb next size)) [
  | inl more ↦ rw more (ground arith)
  | inr full ↦ rw full
]

pub last_link :
    (size next v : ℕ) (m : Words)
    → next < size
    → let f = (if ltb next size then set_hash_next m (size - 3) v else m) in
      (f (size - 3) ≡ m (size - 3)) × (f (size - 3 + 2) % 2 ^ 30 ≡ v % 2 ^ 30)
last_link size next v m lo =
    let more : ltb next size ≡ true = ground arith in rw more (ground arith, ground arith)

above_zero : (m : Words) (i v : ℕ) → 2 ≤ i → write m 0 v i ≡ m i
above_zero m i v lo = ground arith

module _ (p : Props) (n k : ℕ) (r : IsReady p n) (ne : k ≢ js_uninitialized) where
  abbrev pub mask : ℕ
  mask = hash_mask p.arr

  abbrev pub at : ℕ
  at = slot mask n

  -- The words after the three fields are written, and after the count is.
  abbrev filled : Words
  filled = set_prop_type (write (write p.arr at k) (at + 1) js_undefined) at normal

  abbrev pub count : ℕ
  count = count_live p.arr mask n

  abbrev pub placed : Props
  placed = place p mask count at k

  filled-IsLinked : IsLinked (link_slot mask filled at) mask (suc n)
  filled-IsLinked =
      link_slot-IsLinked mask filled n (omega (arith, r.fits, r.small))
        (IsLinked-cong mask n p.arr filled (λ i lo hi. ground arith) r.linked) (ground arith)

  filled_key : filled at ≡ k
  filled_key = ground arith

  -- The words after the slot is linked into bucket `h`, and after it is counted.
  abbrev chained : ℕ → Words
  chained h = write (set_hash_next filled at (filled (2 + h))) (2 + h) (new_short_int at)

  abbrev counted : Words
  counted = write (chained (bucket mask k)) 0 (new_short_int (count + 1))

  chained-link_slot : chained (bucket mask k) ≡ link_slot mask filled at
  chained-link_slot = ap (λ x. chained (bucket mask x)) (sym filled_key)

  placed_arr :
      placed.arr
      ≡ (if ltb (at + 3) p.size then set_hash_next counted (p.size - 3) ((at + 3) * 2) else counted)
  unfolding place
  placed_arr = refl

  placed_low : (i : ℕ) → i < at + 3 → placed.arr i ≡ counted i
  placed_low i lo =
      rw placed_arr
        (low_words p.size (at + 3) ((at + 3) * 2) i counted lo (omega (arith, r.fits, r.aligned)))

  placed_words : (i : ℕ) → 2 ≤ i → i < slot mask (suc n) → placed.arr i ≡ link_slot mask filled at i
  placed_words i lo hi =
      placed_low i (omega arith)
      ∙ above_zero (chained (bucket mask k)) i _ lo
      ∙ ap (λ f. f i) chained-link_slot

  placed_mask : placed.arr 1 ≡ p.arr 1
  placed_mask = placed_low 1 (omega arith) ∙ ground (arith, bucket-le mask k)

  placed_count : placed.arr 0 ≡ 2 * (count + 1)
  placed_count = placed_low 0 (omega arith)

  -- Below the new slot the slots are what they were.
  placed_slots : (i : ℕ) → slot mask 0 ≤ i → i < at → placed.arr i ≡ p.arr i
  placed_slots i lo hi =
      placed_words i (omega arith) (omega arith) ∙ ground (arith, filled_key, bucket-le mask k)

  pub placed_entry : entry placed.arr at ≡ record { key = k; value = js_undefined; kind = normal }
  placed_entry =
      ground (arith, placed_low at, placed_low (at + 1), placed_low (at + 2), bucket-le mask k)

  placed_live : live placed.arr mask n ≡ true
  placed_live = ground (arith, placed_low at, bucket-le mask k)

  placed_entries :
      entries placed.arr mask (suc n)
      ≡ record { key = k; value = js_undefined; kind = normal } ∷ entries p.arr mask n
  unfolding entries
  placed_entries =
      rw (placed_live, placed_entry)
        (ap (λ es. record { key = k; value = js_undefined; kind = normal } ∷ es)
          (entries-cong p.arr placed.arr mask mask n (λ s l. ground (
            arith,
            placed_slots (slot mask s),
            placed_slots (slot mask s + 1),
            placed_slots (slot mask s + 2),
          ))))

  placed_live_count : count_live placed.arr mask (suc n) ≡ suc count
  unfolding count_live
  placed_live_count = rw placed_live (
      ap suc (
        count_live-cong mask p.arr placed.arr n
          (λ s l. placed_slots (slot mask s) (omega arith) (omega arith))))

  placed_size : placed.size ≡ p.size
  unfolding place
  placed_size = refl

  placed_owned : placed.is_empty ≡ false
  unfolding place
  placed_owned = r.owned

  -- Where a slot is left, the last one is still marked, and its link is new.
  placed_last :
      at + 3 < p.size
      → (placed.arr (p.size - 3) ≡ js_uninitialized)
        × (placed.arr (p.size - 3 + 2) % 2 ^ 30 ≡ (at + 3) * 2)
  placed_last more =
      let far : counted (p.size - 3) ≡ p.arr (p.size - 3) = ground (arith, bucket-le mask k) in
      let (same, link) = last_link p.size (at + 3) ((at + 3) * 2) counted more in
      (
        ap (λ f. f (p.size - 3)) placed_arr ∙ same ∙ far ∙ r.marked,
        ap (λ f. f (p.size - 3 + 2) % 2 ^ 30) placed_arr ∙ link ∙ omega (arith, r.small),
      )

  placed_free : get_first_free placed ≡ slot mask (suc n)
  unfolding get_first_free
  placed_free = rw placed_size (elim (dec_lt (at + 3) p.size) [
    | yes more ↦ ground (arith, placed_last more)
    | no full ↦
        let e : p.size - 3 ≡ at = omega (arith, r.fits, r.aligned) in
        rw e (ground (arith, placed_low at, bucket-le mask k, r.fits, r.aligned))
  ])

  placed_room :
      (key placed.arr (placed.size - 3) == js_uninitialized) ≡ true
      → slot mask (suc n) < placed.size
  placed_room free = rw placed_size (elim (dec_lt (at + 3) p.size) [
    | yes more ↦ omega arith
    | no full ↦
        let e : placed.size - 3 ≡ at = rw placed_size (omega (arith, r.fits, r.aligned)) in
        absurd (ground (arith, rw e at free, placed_low at, bucket-le mask k))
  ])

  -- Filling the first free slot of a table keeps it well formed, and puts the new property in front.
  pub place-IsTable : IsTable placed (suc n)
  place-IsTable =
      let e : hash_mask placed.arr ≡ mask = ap (λ t. t % 2 ^ 32 / 2) placed_mask in
      record {
        shape = record {
          counted =
              rw (e, placed_live_count, placed_count)
                (omega (arith, count_live-le p.arr mask n, r.fits, r.small));
          aligned = rw (e, placed_size) r.aligned;
          heads_alone = rw (e, placed_size) (omega (arith, r.fits, r.aligned));
          fits = rw (e, placed_size) (omega (arith, r.fits, r.aligned));
          small = rw placed_size r.small;
          blank = λ b. cc (placed_owned, b);
        };
        linked = rw e (
            IsLinked-cong mask (suc n) (link_slot mask filled at) placed.arr placed_words
              filled-IsLinked);
        free = rw e placed_free;
        room = rw e placed_room;
      }

  pub contents-place :
      contents placed (suc n)
      ≡ record { key = k; value = js_undefined; kind = normal } ∷ contents p n
  contents-place =
      let e : hash_mask placed.arr ≡ mask = ap (λ t. t % 2 ^ 32 / 2) placed_mask in
      rw e placed_entries
