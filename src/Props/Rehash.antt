-- ===== src/Props/Rehash.antt =====
-- `js_rehash_props` rebuilds the heads and links, and keeps every property.
use mquickjs.Base.{
  ℕ, zero, suc, ◌+◌, ◌*◌, ◌^◌, ◌≤◌, ◌<◌, ◌≡◌, refl, sym, ap, ◌∙◌, inl, inr, true, false, ◌&&◌, some,
  arith, Bool-cases, leb, ltb, ◌==◌, if◌then◌else◌,
}
use native.Mathlib.Decide.{dec_lt}
use mquickjs.Value.{js_uninitialized}
use mquickjs.Props.{
  Words, key, hash_next, prop_count, bucket, slot, clear_heads, rehash_loop, link_slot,
}
use mquickjs.Props.Same.{SameProps, same_itself, same_through, last-cong, count_live-cong}
use mquickjs.Props.Chain.{live, last, count_live, IsLinked, last-lt, bucket-le}

module _ (mask : ℕ) where
  -- Linking a slot writes a head and the slot's own link, nothing else.
  pub link_slot-SameProps :
      (m : Words) (i : ℕ) → live m mask i ≡ true → SameProps mask m (link_slot mask m (slot mask i))
  link_slot-SameProps m i alive = record {
    counts = (ground arith, ground arith);
    keys = λ s. ground (arith, bucket-le mask (m (slot mask i)));
    values = λ s. ground (arith, bucket-le mask (m (slot mask i)));
    types = λ s. ground (arith, bucket-le mask (m (slot mask i)));
    dead_links = λ s d. ground (arith, bucket-le mask (m (slot mask i)));
  }

  module _ (m : Words) (n : ℕ) (small : slot mask n < 2 ^ 29) (w : IsLinked m mask n)
      (alive : live m mask n ≡ true) where
    abbrev linked : Words
    linked = link_slot mask m (slot mask n)

    same_last : (h t : ℕ) → last linked mask h t ≡ last m mask h t
    same_last h t = last-cong mask m linked h t (λ s l. (link_slot-SameProps m n alive).keys s)

    linked_heads : (h : ℕ) → h ≤ mask → linked (2 + h) ≡ 2 * last linked mask h (suc n)
    unfolding last
    linked_heads h le = ground (
      arith,
      w.heads h le,
      (link_slot-SameProps m n alive).keys n,
      bucket-le mask (m (slot mask n)),
      same_last h n,
    )

    linked_links :
        (s : ℕ)
        → s < suc n
        → live linked mask s ≡ true
        → hash_next linked (slot mask s)
          ≡ 2 * last linked mask (bucket mask (key linked (slot mask s))) s
    linked_links s l a = ground (
      arith,
      w.links s,
      w.heads (bucket mask (m (slot mask n))),
      (link_slot-SameProps m n alive).keys s,
      bucket-le mask (m (slot mask n)),
      same_last (bucket mask (m (slot mask s))) s,
      last-lt m mask (bucket mask (m (slot mask s))) s,
    )

    -- A live slot behind a linked table is linked in by `link_slot`.
    pub link_slot-IsLinked : IsLinked linked mask (suc n)
    link_slot-IsLinked = record { heads = linked_heads; links = linked_links }

  module _ (m : Words) where
    dead-IsLinked : (n : ℕ) → live m mask n ≡ false → IsLinked m mask n → IsLinked m mask (suc n)
    unfolding last
    dead-IsLinked n dead w = record {
      heads = λ h le. rw dead (w.heads h le);
      links = λ s l a. w.links s (below s l a) a;
    }
      where
        below : (s : ℕ) → s < suc n → live m mask s ≡ true → s < n
        below s l a = ground arith

    pub count_live_mono : (i n : ℕ) → i ≤ n → count_live m mask i ≤ count_live m mask n
    unfolding count_live
    count_live_mono i zero le = let h : i ≡ 0 = omega arith in rw h (omega arith)
    count_live_mono i (suc n) le = elim (dec_lt n i) [
      | yes p ↦ let h : i ≡ suc n = omega arith in rw h (omega arith)
      | no p ↦ ground (arith, count_live_mono i n)
    ]

    -- Slots behind the last live one are dead, and change nothing.
    IsLinked-extend :
        (i n : ℕ)
        → i ≤ n
        → count_live m mask i ≡ count_live m mask n
        → IsLinked m mask i
        → IsLinked m mask n
    unfolding count_live
    IsLinked-extend i zero le e w = let h : i ≡ 0 = omega arith in rw h at w
    IsLinked-extend i (suc n) le e w = elim (dec_lt n i) [
      | yes p ↦ let h : i ≡ suc n = omega arith in rw h at w
      | no p ↦ elim (Bool-cases (live m mask n)) [
        | inl alive ↦ absurd (ground (arith, count_live_mono i n))
        | inr dead ↦
            dead-IsLinked n dead
              (IsLinked-extend i n (omega arith) (ground (arith, count_live_mono i n)) w)
      ]
    ]

    pub counts_one :
        (i : ℕ) → live m mask i ≡ true → count_live m mask (suc i) ≡ suc (count_live m mask i)
    unfolding count_live
    counts_one i alive = rw alive

    pub counts_none :
        (i : ℕ) → live m mask i ≡ false → count_live m mask (suc i) ≡ count_live m mask i
    unfolding count_live
    counts_none i dead = rw dead

  -- While the count is not reached, a slot is left.
  pub slot_left :
      (m : Words) (n i j count : ℕ)
      → i ≤ n
      → j ≡ count_live m mask i
      → count ≡ count_live m mask n
      → ltb j count ≡ true
      → suc i ≤ n
  slot_left m n i j count le ej en more = elim (dec_lt i n) [
    | yes p ↦ p
    | no p ↦ let e : i ≡ n = omega arith in absurd (ground (arith, ap (count_live m mask) e))
  ]

  -- From a table linked up to slot `i` the loop links the rest, and ends at the last live slot.
  pub rehash_loop-IsLinked :
      (fuel n i j count : ℕ) (m : Words)
      → slot mask n < 2 ^ 29
      → IsLinked m mask i
      → i ≤ n
      → n ≤ i + fuel
      → j ≡ count_live m mask i
      → count ≡ count_live m mask n
      → (m' : Words) × (rehash_loop fuel mask count m i j ≡ some m')
        × SameProps mask m m'
        × IsLinked m' mask n
  unfolding rehash_loop
  rehash_loop-IsLinked zero n i j count m small w le enough ej en =
      let e : i ≡ n = omega arith in
      (m, ground (arith, ap (count_live m mask) e), same_itself mask m, rw e at w)
  rehash_loop-IsLinked (suc fuel) n i j count m small w le enough ej en =
      elim (Bool-cases (ltb j count)) [
        | inl more ↦
            let left = slot_left m n i j count le ej en more in
            elim (Bool-cases (key m (slot mask i) == js_uninitialized)) [
              | inl dead ↦
                  let d : live m mask i ≡ false = rw dead in
                  let (m', e, p, v) =
                    rehash_loop-IsLinked fuel n (suc i) j count m small (dead-IsLinked m i d w) left
                      (omega arith) (ej ∙ sym (counts_none m i d)) en in
                  (m', rw (more, dead) e, p, v)
              | inr alive ↦
                  let a : live m mask i ≡ true = rw alive in
                  let m1 = link_slot mask m (slot mask i) in
                  let same = link_slot-SameProps m i a in
                  let (m', e, p, v) =
                    rehash_loop-IsLinked fuel n (suc i) (suc j) count m1 small
                      (link_slot-IsLinked m i (omega arith) w a) left (omega arith)
                      (ap suc ej
                        ∙ sym (counts_one m i a)
                        ∙ sym (count_live-cong mask m m1 (suc i) (λ s l. same.keys s)))
                      (en ∙ sym (count_live-cong mask m m1 n (λ s l. same.keys s))) in
                  (m', rw (more, alive) e, same_through mask m m1 m' same p, v)
            ]
        | inr done ↦ (
          m,
          rw done,
          same_itself mask m,
          IsLinked-extend m i n le (ground (arith, count_live_mono m i n)) w,
        )
      ]

pub clear_heads_at :
    (n : ℕ) (m : Words) (j : ℕ) → clear_heads n m j ≡ (if leb 2 j && ltb j (2 + n) then 0 else m j)
unfolding clear_heads
clear_heads_at zero m j = ground arith
clear_heads_at (suc n) m j = ground (arith, clear_heads_at n m j)

module _ (m : Words) (mask : ℕ) where
  clear_heads-SameProps : SameProps mask m (clear_heads (mask + 1) m)
  clear_heads-SameProps = record {
    counts = (clear_heads_at (mask + 1) m 0, clear_heads_at (mask + 1) m 1);
    keys = λ s. ground (arith, clear_heads_at (mask + 1) m (slot mask s));
    values = λ s. ground (arith, clear_heads_at (mask + 1) m (slot mask s + 1));
    types = λ s. ground (arith, clear_heads_at (mask + 1) m (slot mask s + 2));
    dead_links = λ s d. ground (arith, clear_heads_at (mask + 1) m (slot mask s + 2));
  }

  clear_heads-IsLinked : IsLinked (clear_heads (mask + 1) m) mask 0
  unfolding last
  clear_heads-IsLinked = record {
    heads = λ h le. ground (arith, clear_heads_at (mask + 1) m (2 + h));
    links = λ s l a. absurd (omega arith);
  }

  -- The heads and links are rebuilt from the slots alone, whatever they were before.
  pub rehash_loop-clear_heads :
      (n fuel : ℕ)
      → slot mask n < 2 ^ 29
      → n ≤ fuel
      → prop_count m ≡ count_live m mask n
      → (m' : Words) × (rehash_loop fuel mask (prop_count m) (clear_heads (mask + 1) m) 0 0
          ≡ some m')
        × SameProps mask m m'
        × IsLinked m' mask n
  unfolding count_live
  rehash_loop-clear_heads n fuel small enough e =
      let c = clear_heads (mask + 1) m in
      let same = clear_heads-SameProps in
      let (m', run, p, v) =
        rehash_loop-IsLinked mask fuel n 0 0 (prop_count m) c small clear_heads-IsLinked
          (omega arith) (omega arith) refl
          (e ∙ sym (count_live-cong mask m c n (λ s l. same.keys s))) in
      (m', run, same_through mask m c m' same p, v)
