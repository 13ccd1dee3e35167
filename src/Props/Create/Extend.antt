-- ===== src/Props/Create/Extend.antt =====
-- What `js_create_property` does to a table with no slot left, and on every table.
use mquickjs.Base.{
  ℕ, ◌+◌, ◌-◌, ◌/◌, ◌%◌, ◌^◌, ◌≤◌, ◌<◌, ◌≡◌, refl, sym, ap, ◌∙◌, false, some, arith,
}
use mquickjs.Value.{js_uninitialized, new_short_int}
use mquickjs.Props.{Words, Props, write, base, prop_count, hash_mask, slot, slots}
use mquickjs.Props.Chain.{IsLinked}
use mquickjs.Props.Same.{IsLinked-cong, entries-cong, count_live-moved, entries_of_words}
use mquickjs.Props.Rehash.{rehash_loop-clear_heads}
use mquickjs.Props.Table.{IsTable, contents, js_rehash_props_runs}
use mquickjs.Props.Create.{resized, move_up, widen}
use mquickjs.Props.Create.Place.{IsReady}

-- The growth policy: room for what is asked, and a whole number of slots, if the old table had one.
pub resized_lem :
    (old_size new_size prop_base : ℕ)
    → 0 < prop_base
    → old_size < new_size
    → prop_base ≤ new_size
    → (new_size - prop_base) % 3 ≡ 0
    → let size = resized old_size new_size prop_base in
      (new_size ≤ size) × ((size - prop_base) % 3 ≡ 0)
unfolding resized
resized_lem old_size new_size prop_base pos more above whole = ground arith

abbrev pub mark : Props → Props
mark q = record q { arr = write q.arr (q.size - 3) js_uninitialized }

-- Marking the last slot as free, behind the slots that are used.
module _ (q : Props) (n : ℕ) (linked : IsLinked q.arr (hash_mask q.arr) n)
    (aligned : q.size ≡ slot (hash_mask q.arr) (slots q.size (hash_mask q.arr)))
    (fits : slot (hash_mask q.arr) n < q.size) (small : q.size < 2 ^ 28)
    (owned : q.is_empty ≡ false) where
  mark_low : (i : ℕ) → i < slot (hash_mask q.arr) n → (mark q).arr i ≡ q.arr i
  mark_low i lo = ground arith

  pub mark_mask : hash_mask (mark q).arr ≡ hash_mask q.arr
  mark_mask = ap (λ t. t % 2 ^ 32 / 2) (mark_low 1 (omega arith))

  pub mark-IsReady : IsReady (mark q) n
  mark-IsReady = record {
    linked =
        rw mark_mask
          (IsLinked-cong (hash_mask q.arr) n q.arr (mark q).arr (λ i lo hi. mark_low i hi) linked);
    aligned = rw mark_mask aligned;
    fits = rw mark_mask fits;
    small = small;
    marked = ground arith;
    owned = owned;
  }

  pub mark-contents : contents (mark q) n ≡ contents q n
  mark-contents =
      rw mark_mask
        (entries_of_words (hash_mask q.arr) n q.arr (mark q).arr (λ i lo hi. mark_low i hi))

-- The slots of a full table in an array with more room and, with `delta` more heads, moved up.
module _ (p : Props) (n : ℕ) (t : IsTable p n) (full : p.size ≡ slot (hash_mask p.arr) n)
    (q : Props) (wide : ℕ) (in_ram : q.in_rom ≡ false)
    (old : (i : ℕ) → i < p.size → q.arr i ≡ p.arr i) (grown : hash_mask p.arr ≤ wide)
    (aligned : q.size ≡ slot wide (slots q.size wide)) (fits : slot wide n < q.size)
    (small : q.size < 2 ^ 28) (owned : q.is_empty ≡ false) where
  abbrev pub mask : ℕ
  mask = hash_mask p.arr

  abbrev pub moved : Words
  moved = write (move_up (base mask) (base wide) (p.size - base mask) q.arr) 1 (new_short_int wide)

  moved_mask : hash_mask moved ≡ wide
  moved_mask = omega (arith, fits, small)

  moved_slots : (s d : ℕ) → s < n → d < 3 → moved (slot wide s + d) ≡ p.arr (slot mask s + d)
  moved_slots s d l three = ground (arith, old (slot mask s + d), full)

  moved_count : prop_count moved ≡ prop_count p.arr
  moved_count = ground (arith, old 0, full)

  -- The chains are rebuilt for the larger hash table.
  pub widen-IsLinked :
      (r : Props) × (widen q mask wide p.size ≡ some r)
      × IsLinked r.arr wide n
      × (hash_mask r.arr ≡ wide)
      × (contents r n ≡ contents p n)
      × (r.size ≡ q.size)
      × (r.is_empty ≡ false)
      × (prop_count r.arr ≡ prop_count p.arr)
  unfolding widen
  widen-IsLinked =
      let (m, run, same, v) =
        rehash_loop-clear_heads moved wide n (slots q.size wide) (omega (arith, fits, small))
          (omega (arith, fits, aligned))
          (moved_count
            ∙ t.shape.counted
            ∙ sym (
                count_live-moved p.arr moved mask wide n
                  (λ s l. ground (arith, moved_slots s 0 l)))) in
      let e : hash_mask m ≡ wide = ap (λ x. x % 2 ^ 32 / 2) same.counts.1 ∙ moved_mask in
      (
        record q { arr = m },
        js_rehash_props_runs (record q { arr = moved }) false m in_ram (ground arith)
            (rw moved_mask run),
        v,
        e,
        rw e (
            entries-cong p.arr m mask wide n (λ s l. ground (
              arith,
              same.keys s,
              same.values s,
              same.types s,
              moved_slots s 0 l,
              moved_slots s 1 l,
              moved_slots s 2 l,
            ))),
        refl,
        owned,
        ap (λ x. x % 2 ^ 32 / 2) same.counts.0 ∙ moved_count,
      )
