-- ===== src/Props/Create/Laws.antt =====
-- `js_create_property` on every well-formed table.
use mquickjs.Base.{
  ℕ, suc, ◌+◌, ◌-◌, ◌*◌, ◌/◌, ◌%◌, ◌^◌, ◌≤◌, ◌<◌, ◌≡◌, refl, sym, ap, ◌∙◌, ◌≢◌, ◌⊎◌, inl, inr, true,
  false, Option, none, some, ◌∷◌, arith, length, ==_iff, Bool-cases, ltb, ◌==◌, if◌then◌else◌,
}
use mquickjs.Value.{js_undefined, js_uninitialized}
use mquickjs.Props.{
  Props, key, hash_next, normal, base, prop_count, hash_mask, slot, slots, get_first_free,
}
use mquickjs.Props.Chain.{IsLinked, count_live}
use mquickjs.Props.Same.{Entry, entry, entries, IsLinked-cong, entries_of_words, length-entries}
use mquickjs.Props.Table.{IsTable, contents}
use mquickjs.Props.Create.{Memory, ValueArray, resized, extend, place, js_create_property}
use mquickjs.Props.Create.Place.{IsReady, placed_entry, place-IsTable, contents-place}
use mquickjs.Props.Create.Extend.{
  resized_lem, mark, mark_mask, mark-IsReady, mark-contents, widen-IsLinked,
}
use mquickjs.Props.Create.Fresh.{
  Refused, Granted, table_size, first_free_link, grow_array_cases, js_alloc_props-IsTable,
}

-- A table `q` that `extend` hands to `place`, with the first free word and the mask.
pub record Extended (p : Props) (n : ℕ) (q : Props) (first_free mask : ℕ) : Type 0 where
  pub ready : IsReady (mark q) n
  pub same : contents (mark q) n ≡ contents p n
  pub at : first_free ≡ slot mask n
  pub masked : hash_mask (mark q).arr ≡ mask

-- The words that a table without a free slot asks the allocator for.
abbrev pub requested_size : Props → ℕ
requested_size p =
    let mask = hash_mask p.arr in
    let wide = (if ltb (2 * (mask + 1)) (prop_count p.arr + 1) then 2 * (mask + 1) - 1 else mask) in
    if p.is_empty then table_size 1 else resized p.size (p.size + 3 + (wide - mask)) (base wide)

abbrev Outcome : Memory → Props → ℕ → Option (Props × ℕ × ℕ) → Type 0
Outcome mem p n r =
    ((r ≡ none) × Refused mem (requested_size p))
    ⊎ ((q : Props) × (first_free : ℕ) × (mask : ℕ) × (r ≡ some (q, first_free, mask))
        × Granted mem (requested_size p)
        × Extended p n q first_free mask)

module _ (mem : Memory) (p : Props) (n : ℕ) (t : IsTable p n)
    (full : p.size ≡ slot (hash_mask p.arr) n) where
  abbrev mask : ℕ
  mask = hash_mask p.arr

  extended :
      (q : Props) (first_free wide : ℕ)
      → hash_mask q.arr ≡ wide
      → first_free ≡ slot wide n
      → IsLinked q.arr wide n
      → q.size ≡ slot wide (slots q.size wide)
      → slot wide n < q.size
      → q.size < 2 ^ 28
      → q.is_empty ≡ false
      → contents q n ≡ contents p n
      → Extended p n q first_free wide
  extended q first_free wide e at v aligned fits small owned same =
      let v' : IsLinked q.arr (hash_mask q.arr) n = rw e v in
      let aligned' : q.size ≡ slot (hash_mask q.arr) (slots q.size (hash_mask q.arr)) =
        rw e aligned in
      let fits' : slot (hash_mask q.arr) n < q.size = rw e fits in
      record {
        ready = mark-IsReady q n v' aligned' fits' small owned;
        same = mark-contents q n v' aligned' fits' small owned ∙ same;
        at = at;
        masked = mark_mask q n v' aligned' fits' small owned ∙ e;
      }

  -- The shared empty table is replaced by one with room for a property.
  extend_empty : p.is_empty ≡ true → Outcome mem p n (extend mem p (prop_count p.arr))
  unfolding extend entries
  extend_empty e = elim (js_alloc_props-IsTable mem 1 (omega arith)) [
    | inl (f, r) ↦ inl (simp (e, f), rw e r)
    | inr (q, f, granted, q_size, table, ready, one_slot, wide) ↦
        let none_used : n ≡ 0 = omega (arith, t.shape.blank e, full) in
        let narrow : mask ≡ 0 = omega (arith, t.shape.blank e, full) in
        let w : hash_mask q.arr ≡ mask = omega (arith, wide, narrow) in
        let same : contents q n ≡ contents p n = rw none_used refl in
        inr (
          q,
          3,
          mask,
          simp (e, f),
          rw e granted,
          extended q 3 mask w (omega arith) (rw (← w, none_used) ready.linked)
              (rw (← w) ready.aligned) (rw (← w, none_used) ready.fits) ready.small ready.owned
              same,
        )
  ]

  abbrev words : ValueArray
  words = record { size = p.size; arr = p.arr }

  -- The array that `grow_array` hands out for `wide + 1` heads.
  abbrev grown : ValueArray → Props
  grown v = record { size = v.size; arr = v.arr; in_rom = false; is_empty = false }

  grown_size :
      (wide : ℕ)
      → mask ≤ wide
      → let size = resized p.size (p.size + 3 + (wide - mask)) (base wide) in
        (slot wide n < size) × (size ≡ slot wide (slots size wide))
  grown_size wide more =
      let (least, whole) =
        resized_lem p.size (p.size + 3 + (wide - mask)) (base wide) (omega arith) (omega arith)
          (omega (arith, full)) (omega (arith, full)) in
      (omega (arith, full, least), omega (arith, full, least, whole))

  extend_plain :
      p.is_empty ≡ false
      → ltb (2 * (mask + 1)) (prop_count p.arr + 1) ≡ false
      → Outcome mem p n (extend mem p (prop_count p.arr))
  unfolding extend
  extend_plain e small_count =
      let (least, whole) = grown_size mask (omega arith) in
      elim (grow_array_cases mem words (p.size + 3 + (mask - mask)) (base mask)) [
        | inl (f, r) ↦ inl (simp (e, small_count, f), rw (e, small_count) r)
        | inr (v, f, size, bound, old) ↦
            let same : (i : ℕ) → 2 ≤ i → i < slot mask n → v.arr i ≡ p.arr i =
              λ i lo hi. old i (omega (arith, full)) in
            let w : hash_mask v.arr ≡ mask =
              ap (λ x. x % 2 ^ 32 / 2) (old 1 (omega (arith, full))) in
            inr (
              grown v,
              p.size,
              mask,
              ground (arith, e, small_count, f),
              rw (e, small_count) bound,
              extended (grown v) p.size mask w full (IsLinked-cong mask n p.arr v.arr same t.linked)
                  (rw size whole) (rw size least) (omega (arith, size, bound.0)) refl
                  (rw w (entries_of_words mask n p.arr v.arr same)),
            )
      ]

  extend_wide :
      p.is_empty ≡ false
      → ltb (2 * (mask + 1)) (prop_count p.arr + 1) ≡ true
      → Outcome mem p n (extend mem p (prop_count p.arr))
  unfolding extend
  extend_wide e big_count =
      let wide = 2 * (mask + 1) - 1 in
      let (least, whole) = grown_size wide (omega arith) in
      let differ : (wide == mask) ≡ false = ground arith in
      elim (grow_array_cases mem words (p.size + 3 + (wide - mask)) (base wide)) [
        | inl (f, r) ↦ inl (simp (e, big_count, f), rw (e, big_count) r)
        | inr (v, f, size, bound, old) ↦
            let fits : slot wide n < v.size = rw size least in
            let aligned : v.size ≡ slot wide (slots v.size wide) = rw size whole in
            let small : v.size < 2 ^ 28 = omega (arith, size, bound.0) in
            let (r, run, linked, w, same, r_size, owned, c) =
              widen-IsLinked p n t full (grown v) wide refl old (omega arith) aligned fits small
                refl in
            inr (
              r,
              p.size + (wide - mask),
              wide,
              ground (arith, e, big_count, f, differ, run),
              rw (e, big_count) bound,
              extended r (p.size + (wide - mask)) wide w (omega (arith, full)) linked
                  (rw r_size aligned) (rw r_size fits) (rw r_size small) owned same,
            )
      ]

  extend-Outcome : Outcome mem p n (extend mem p (prop_count p.arr))
  extend-Outcome = elim (Bool-cases p.is_empty) [
    | inl e ↦ extend_empty e
    | inr e ↦ elim (Bool-cases (ltb (2 * (mask + 1)) (prop_count p.arr + 1))) [
      | inl big ↦ extend_wide e big
      | inr small ↦ extend_plain e small
    ]
  ]

abbrev pub new_entry : ℕ → Entry
new_entry k = record { key = k; value = js_undefined; kind = normal }

-- The result of `js_create_property` on a table: NULL, when no slot is free and the allocator refuses the words asked
-- for; else the table with the property in front, and its word index.
abbrev pub Created : Memory → Props → ℕ → ℕ → Option (Props × ℕ) → Type 0
Created mem p n k r =
    ((r ≡ none)
      × ((key p.arr (p.size - 3) == js_uninitialized) ≡ false)
      × Refused mem (requested_size p))
    ⊎ ((q : Props) × (i : ℕ) × (r ≡ some (q, i))
        × (((key p.arr (p.size - 3) == js_uninitialized) ≡ true) ⊎ Granted mem (requested_size p))
        × IsTable q (suc n)
        × (contents q (suc n) ≡ new_entry k ∷ contents p n)
        × (entry q.arr i ≡ new_entry k))

-- Filling the slot at `first_free` of a table that is ready for it.
place_ready :
    (q : Props) (n k first_free wide count : ℕ)
    → IsReady q n
    → k ≢ js_uninitialized
    → first_free ≡ slot wide n
    → hash_mask q.arr ≡ wide
    → count ≡ count_live q.arr wide n
    → let r = place q wide count first_free k in
      IsTable r (suc n)
      × (contents r (suc n) ≡ new_entry k ∷ contents q n)
      × (entry r.arr first_free ≡ new_entry k)
place_ready q n k first_free wide count ready ne at w c =
    let e1 : first_free ≡ slot (hash_mask q.arr) n = rw w at in
    let e2 : count ≡ count_live q.arr (hash_mask q.arr) n = rw w c in
    rw (← w, e1, e2)
      (place-IsTable q n k ready ne, contents-place q n k ready ne, placed_entry q n k ready ne)

pub full_free :
    (p : Props) → (key p.arr (p.size - 3) == js_uninitialized) ≡ false → get_first_free p ≡ p.size
unfolding get_first_free
full_free p used = rw used

module _ (mem : Memory) {p : Props} {n : ℕ} (k : ℕ) (t : IsTable p n)
    (ne : k ≢ js_uninitialized) where
  table-IsReady : (key p.arr (p.size - 3) == js_uninitialized) ≡ true → IsReady p n
  table-IsReady free = record {
    linked = t.linked;
    aligned = t.shape.aligned;
    fits = t.room free;
    small = t.shape.small;
    marked = (==_iff _ _).0 free;
    owned = elim (Bool-cases p.is_empty) [
      | inl e ↦ absurd (omega (arith, t.shape.blank e, t.room free))
      | inr e ↦ e
    ];
  }

  table_free :
      (key p.arr (p.size - 3) == js_uninitialized) ≡ true
      → hash_next p.arr (p.size - 3) / 2 ≡ slot (hash_mask p.arr) n
  table_free free = sym (first_free_link p ((==_iff _ _).0 free)) ∙ t.free

  table_full :
      (key p.arr (p.size - 3) == js_uninitialized) ≡ false → p.size ≡ slot (hash_mask p.arr) n
  table_full used = sym (full_free p used) ∙ t.free

  -- `js_create_property` with a key that is no marker adds one property, undefined and of the normal
  -- type, in front of those that the table holds, and keeps the table well formed, whether it fills a
  -- free slot, replaces the shared empty table, grows the array, or also doubles the hash table. It
  -- gives NULL exactly when no slot is free and the allocator refuses the words of the new array.
  pub js_create_property-IsTable : Created mem p n k (js_create_property mem p k)
  unfolding js_create_property
  js_create_property-IsTable = elim (Bool-cases (key p.arr (p.size - 3) == js_uninitialized)) [
    | inl free ↦
        let (table, front, new) =
          place_ready p n k (hash_next p.arr (p.size - 3) / 2) (hash_mask p.arr) (prop_count p.arr)
            (table-IsReady free) ne (table_free free) refl t.shape.counted in
        inr (_, _, simp free, inl free, table, front, new)
    | inr used ↦ elim (extend-Outcome mem p n t (table_full used)) [
      | inl (f, r) ↦ inl (simp (used, f), used, r)
      | inr (q, first_free, wide, f, granted, x) ↦
          let counted : prop_count p.arr ≡ count_live (mark q).arr wide n =
            t.shape.counted
            ∙ sym (length-entries p.arr (hash_mask p.arr) n)
            ∙ sym (ap length x.same)
            ∙ length-entries (mark q).arr (hash_mask (mark q).arr) n
            ∙ ap (λ h. count_live (mark q).arr h n) x.masked in
          let (table, front, new) =
            place_ready (mark q) n k first_free wide (prop_count p.arr) x.ready ne x.at x.masked
              counted in
          inr (
            place (mark q) wide (prop_count p.arr) first_free k,
            first_free,
            simp (used, f),
            inr granted,
            table,
            front ∙ ap (λ es. new_entry k ∷ es) x.same,
            new,
          )
    ]
  ]
