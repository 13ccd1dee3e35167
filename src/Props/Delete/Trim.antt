-- ===== src/Props/Delete/Trim.antt =====
-- The free slots at the end of a table after a deletion.
use mquickjs.Base.{
  ℕ, zero, suc, ◌+◌, ◌-◌, ◌*◌, ◌/◌, ◌%◌, ◌^◌, ◌≤◌, ◌<◌, ◌≡◌, refl, sym, ap, ◌∙◌, inl, inr, true,
  false, arith, Bool-cases, ltb, ◌==◌, if◌then◌else◌,
}
use native.Mathlib.Decide.{dec_lt}
use mquickjs.Value.{js_uninitialized}
use mquickjs.Props.{
  Words, Props, key, set_hash_next, prop_count, hash_mask, slot, slots, get_first_free,
}
use mquickjs.Props.Chain.{live, last, count_live, IsLinked}
use mquickjs.Props.Same.{entries, IsLinked-cong, entries_of_words, count_of_words}
use mquickjs.Props.Table.{IsTable, contents}
use mquickjs.Props.Create.Place.{low_words, last_link}
use mquickjs.Props.Create.Fresh.{first_free_link}
use mquickjs.Props.Create.Laws.{full_free}
use mquickjs.Props.Delete.{trim}

-- The first `n'` of `n` slots, where all the others are free and the last of the `n'` is not.
pub record IsTrimmed (d : Words) (mask n n' : ℕ) : Type 0 where
  pub le : n' ≤ n
  pub linked : IsLinked d mask n'
  pub same : entries d mask n' ≡ entries d mask n
  pub count : count_live d mask n' ≡ count_live d mask n
  pub free : (t : ℕ) → n' ≤ t → t < n → live d mask t ≡ false
  pub used : 0 < n' → live d mask (n' - 1) ≡ true

module _ (d : Words) (mask : ℕ) where
  shorter-IsLinked : (n : ℕ) → live d mask n ≡ false → IsLinked d mask (suc n) → IsLinked d mask n
  unfolding last
  shorter-IsLinked n dead w = record {
    heads = λ h le. ground (arith, w.heads h le, dead);
    links = λ s l a. w.links s (omega arith) a;
  }

  stop-IsTrimmed :
      (n : ℕ) → IsLinked d mask n → (0 < n → live d mask (n - 1) ≡ true) → IsTrimmed d mask n n
  stop-IsTrimmed n w used = record {
    le = omega arith;
    linked = w;
    same = refl;
    count = refl;
    free = λ t lo hi. absurd (omega arith);
    used = used;
  }

  step-IsTrimmed :
      (n n' : ℕ) → live d mask n ≡ false → IsTrimmed d mask n n' → IsTrimmed d mask (suc n) n'
  unfolding entries count_live
  step-IsTrimmed n n' dead v = record {
    le = omega (arith, v.le);
    linked = v.linked;
    same = rw dead v.same;
    count = rw dead v.count;
    free = λ t lo hi. elim (dec_lt t n) [
      | yes l ↦ v.free t lo l
      | no ge ↦ let e : t ≡ n = omega arith in rw e dead
    ];
    used = v.used;
  }

  trim_more :
      (fuel n : ℕ)
      → live d mask n ≡ false
      → trim (suc fuel) d mask (slot mask (suc n)) ≡ trim fuel d mask (slot mask n)
  unfolding trim
  trim_more fuel n dead =
      let back : slot mask (suc n) - 3 ≡ slot mask n = omega arith in
      let more : ltb (2 + mask + 1) (slot mask (suc n)) ≡ true = ground arith in
      let free : (key d (slot mask n) == js_uninitialized) ≡ true = ground arith in
      rw (more, back, free)

  trim_stop :
      (fuel n : ℕ)
      → live d mask n ≡ true
      → trim (suc fuel) d mask (slot mask (suc n)) ≡ slot mask (suc n)
  unfolding trim
  trim_stop fuel n alive =
      let back : slot mask (suc n) - 3 ≡ slot mask n = omega arith in
      let used : (key d (slot mask n) == js_uninitialized) ≡ false = ground arith in
      rw (back, used) (ground arith)

  trim_none : (fuel : ℕ) → trim fuel d mask (slot mask 0) ≡ slot mask 0
  unfolding trim
  trim_none zero = refl
  trim_none (suc fuel) = ground arith

  -- The loop ends at the end of the used slots.
  pub trim-IsTrimmed :
      (fuel n : ℕ)
      → n ≤ fuel
      → IsLinked d mask n
      → (n' : ℕ) × (trim fuel d mask (slot mask n) ≡ slot mask n') × IsTrimmed d mask n n'
  trim-IsTrimmed fuel zero le w =
      (0, trim_none fuel, stop-IsTrimmed 0 w (λ pos. absurd (omega arith)))
  trim-IsTrimmed zero (suc n) le w = absurd (omega arith)
  trim-IsTrimmed (suc fuel) (suc n) le w = elim (Bool-cases (live d mask n)) [
    | inl alive ↦
        let last_used : suc n - 1 ≡ n = omega arith in
        (suc n, trim_stop fuel n alive, stop-IsTrimmed (suc n) w (λ pos. rw last_used alive))
    | inr dead ↦
        let (n', e, v) = trim-IsTrimmed fuel n (omega arith) (shorter-IsLinked n dead w) in
        (n', trim_more fuel n dead ∙ e, step-IsTrimmed n n' dead v)
  ]

abbrev pub closed : Props → ℕ → Words → Words
closed p first_free d =
    if ltb first_free p.size then set_hash_next d (p.size - 3) (first_free * 2) else d

-- A table of trimmed words, in whose last slot the first free word is written if there is one.
module _ (p : Props) (d : Words) (mask n n' : ℕ) (v : IsTrimmed d mask n n')
    (masked : hash_mask d ≡ mask) (aligned : p.size ≡ slot mask (slots p.size mask))
    (fits : slot mask n ≤ p.size) (small : p.size < 2 ^ 28)
    (counted : prop_count d ≡ count_live d mask n) (some_slot : 0 < n) (owned : p.is_empty ≡ false)
    (marked : slot mask n < p.size → d (p.size - 3) ≡ js_uninitialized) where
  abbrev pub q : Props
  q = record p { arr = closed p (slot mask n') d }

  q_low : (i : ℕ) → i < slot mask n' → q.arr i ≡ d i
  q_low i lo = low_words p.size (slot mask n') (slot mask n' * 2) i d lo (omega (arith, fits, v.le))

  q_mask : hash_mask q.arr ≡ mask
  q_mask = ap (λ x. x % 2 ^ 32 / 2) (q_low 1 (omega arith)) ∙ masked

  q_linked : IsLinked q.arr mask n'
  q_linked = IsLinked-cong mask n' d q.arr (λ i lo hi. q_low i hi) v.linked

  q_last : slot mask n' < p.size → q.arr (p.size - 3) ≡ js_uninitialized
  q_last more =
      let (same, link) = last_link p.size (slot mask n') (slot mask n' * 2) d more in
      same ∙ elim (dec_lt (slot mask n) p.size) [
        | yes before ↦ marked before
        | no full ↦
            let t = slots p.size mask - 1 in
            let e : p.size - 3 ≡ slot mask t = omega (arith, aligned, fits) in
            let dead = v.free t (omega (arith, aligned, fits)) (omega (arith, aligned, fits)) in
            rw e (ground (arith, dead))
      ]

  q_used : ¬ (slot mask n' < p.size) → (key q.arr (p.size - 3) == js_uninitialized) ≡ false
  q_used full =
      let e : p.size - 3 ≡ slot mask (n' - 1) = omega (arith, fits, v.le) in
      let alive = v.used (omega (arith, fits, v.le)) in
      rw e (ground (arith, q_low (slot mask (n' - 1)), alive, v.le, fits))

  q_room : (key q.arr (p.size - 3) == js_uninitialized) ≡ true → slot mask n' < p.size
  q_room e = elim (dec_lt (slot mask n') p.size) [ yes more ↦ more | no full ↦ cc (q_used full, e) ]

  q_free : get_first_free q ≡ slot mask n'
  q_free = elim (dec_lt (slot mask n') p.size) [
    | yes more ↦
        let (same, link) = last_link p.size (slot mask n') (slot mask n' * 2) d more in
        first_free_link q (q_last more) ∙ ap (λ x. x / 2) link ∙ omega (arith, small)
    | no full ↦ full_free q (q_used full) ∙ omega (arith, fits, v.le)
  ]

  q_count : prop_count q.arr ≡ count_live q.arr mask n'
  q_count =
      ap (λ x. x % 2 ^ 32 / 2) (q_low 0 (omega arith))
      ∙ counted
      ∙ sym v.count
      ∙ sym (count_of_words mask n' d q.arr (λ i lo hi. q_low i hi))

  pub closed-IsTable : IsTable q n'
  closed-IsTable = record {
    shape = record {
      counted = rw q_mask q_count;
      aligned = rw q_mask aligned;
      heads_alone = rw q_mask (λ e. absurd (omega (arith, aligned, fits)));
      fits = rw q_mask (omega (arith, fits, v.le));
      small = small;
      blank = λ b. cc (owned, b);
    };
    linked = rw q_mask q_linked;
    free = rw q_mask q_free;
    room = rw q_mask q_room;
  }

  pub contents-closed : contents q n' ≡ entries d mask n
  contents-closed = rw q_mask (entries_of_words mask n' d q.arr (λ i lo hi. q_low i hi)) ∙ v.same
