-- ===== src/Props/Compact/Laws.antt =====
-- Compaction keeps the properties and the form of the table.
use native.Mathlib.Decide.{dec_lt, ℕ_discrete}
use mquickjs.Base.{
  ℕ, zero, suc, ◌+◌, ◌-◌, ◌*◌, ◌^◌, min, ◌≤◌, ◌<◌, ◌≡◌, refl, sym, ap, ◌∙◌, ◌≢◌, inl, inr, true,
  false, Option, some, List, [], ◌∷◌, length, arith, Bool-cases, leb, ltb, ◌==◌,
}
use mquickjs.Value.{js_uninitialized, new_short_int}
use mquickjs.Props.{
  Words, Props, write, key, base, prop_count, hash_mask, slot, slots, get_first_free,
  js_rehash_props,
}
use mquickjs.Props.Create.Laws.{full_free}
use mquickjs.Props.Chain.{live, last, count_live}
use mquickjs.Props.Same.{entry, entries, entries_of_words, count_of_words, length-entries}
use mquickjs.Props.Rehash.{slot_left, count_live_mono, counts_one, counts_none}
use mquickjs.Props.Table.{IsShape, IsTable, contents, js_rehash_props-IsTable}
use mquickjs.Props.Create.{get_prop_hash_size_log2}
use mquickjs.Props.Create.Place.{count_live-le}
use mquickjs.Props.Compact.{empty_props, copy_prop, compact_loop, js_compact_props}

lists_one :
    (m : Words) (mask i : ℕ)
    → live m mask i ≡ true
    → entries m mask (suc i) ≡ entry m (slot mask i) ∷ entries m mask i
unfolding entries
lists_one m mask i a = rw a

lists_none :
    (m : Words) (mask i : ℕ) → live m mask i ≡ false → entries m mask (suc i) ≡ entries m mask i
unfolding entries
lists_none m mask i d = rw d

-- The dead slots behind the last live one hold no property.
entries_of_counts :
    (m : Words) (mask i n : ℕ)
    → i ≤ n
    → count_live m mask i ≡ count_live m mask n
    → entries m mask i ≡ entries m mask n
entries_of_counts m mask i zero le e = let h : i ≡ 0 = omega arith in rw h
entries_of_counts m mask i (suc n) le e = elim (dec_lt n i) [
  | yes p ↦ let h : i ≡ suc n = omega arith in rw h
  | no p ↦ elim (Bool-cases (live m mask n)) [
    | inl a ↦ absurd (omega (arith, count_live_mono mask m i n, counts_one mask m n a))
    | inr d ↦
        entries_of_counts m mask i n (omega arith) (e ∙ counts_none mask m n d)
        ∙ sym (lists_none m mask n d)
  ]
]

le_of_ltb : (a b : ℕ) → ltb a b ≡ false → b ≤ a
le_of_ltb a b h = ground arith

module _ (m0 : Words) (mask wide n count : ℕ) (narrow : wide ≤ mask)
    (counted : count ≡ count_live m0 mask n) where
  -- After `i` slots are read and `j` are written.
  record Moved (i j : ℕ) (m : Words) : Type 0 where
    ahead : (x : ℕ) → slot mask i ≤ x → m x ≡ m0 x
    behind : entries m wide j ≡ entries m0 mask i
    head : (x : ℕ) → x < base wide → m x ≡ m0 x
    written : j ≡ count_live m0 mask i

  start_Moved : Moved 0 0 m0
  unfolding entries count_live
  start_Moved = record { ahead = λ x lo. refl; behind = refl; head = λ x lo. refl; written = refl }

  abbrev copied : Words → ℕ → ℕ → Words
  copied m i j = copy_prop m (slot wide j) (slot mask i)

  copied-entry :
      (m : Words) (i j : ℕ)
      → Moved i j m
      → entry (copied m i j) (slot wide j) ≡ entry m0 (slot mask i)
  copied-entry m i j v =
      ground (arith, v.ahead (slot mask i), v.ahead (slot mask i + 1), v.ahead (slot mask i + 2))

  copied-Moved :
      (m : Words) (i j : ℕ)
      → j ≤ i
      → live m0 mask i ≡ true
      → Moved i j m
      → Moved (suc i) (suc j) (copied m i j)
  copied-Moved m i j le a v =
      let e = copied-entry m i j v in
      let alive : live (copied m i j) wide j ≡ true = ground (arith, ap (λ x. x.key) e) in
      record {
        ahead = λ x lo. ground (arith, v.ahead x);
        behind =
            lists_one (copied m i j) wide j alive
            ∙ ap (λ x. x ∷ entries (copied m i j) wide j) e
            ∙ ap (λ es. entry m0 (slot mask i) ∷ es)
                (entries_of_words wide j m (copied m i j) (λ x lo hi. ground arith) ∙ v.behind)
            ∙ sym (lists_one m0 mask i a);
        head = λ x lo. ground (arith, v.head x);
        written = ap suc v.written ∙ sym (counts_one mask m0 i a);
      }

  stepped-Moved : (m : Words) (i j : ℕ) → live m0 mask i ≡ false → Moved i j m → Moved (suc i) j m
  stepped-Moved m i j d v = record {
    ahead = λ x lo. v.ahead x (omega arith);
    behind = v.behind ∙ sym (lists_none m0 mask i d);
    head = v.head;
    written = v.written ∙ sym (counts_none mask m0 i d);
  }

  compact_loop-Moved :
      (fuel i j : ℕ) (m : Words)
      → Moved i j m
      → i ≤ n
      → n ≤ i + fuel
      → (m' : Words) × (compact_loop fuel mask wide count m i j ≡ some m')
        × (entries m' wide count ≡ entries m0 mask n)
        × ((x : ℕ) → x < base wide → m' x ≡ m0 x)
  unfolding compact_loop
  compact_loop-Moved zero i j m v le enough =
      let e : i ≡ n = omega arith in
      let full : j ≡ count = v.written ∙ ap (count_live m0 mask) e ∙ sym counted in
      (m, ground arith, rw (← full, ← e) v.behind, v.head)
  compact_loop-Moved (suc fuel) i j m v le enough = elim (Bool-cases (ltb j count)) [
    | inl more ↦
        let left = slot_left mask m0 n i j count le v.written counted more in
        let same = v.ahead (slot mask i) (omega arith) in
        elim (Bool-cases (key m (slot mask i) == js_uninitialized)) [
          | inl dead ↦
              let d : live m0 mask i ≡ false = ground arith in
              let (m', run, es, hs) =
                compact_loop-Moved fuel (suc i) j m (stepped-Moved m i j d v) left (omega arith) in
              (m', rw (more, dead) run, es, hs)
          | inr alive ↦
              let a : live m0 mask i ≡ true = ground arith in
              let below : j ≤ i = omega (arith, v.written, count_live-le m0 mask i) in
              let (m', run, es, hs) =
                compact_loop-Moved fuel (suc i) (suc j) (copied m i j)
                  (copied-Moved m i j below a v) left (omega arith) in
              (m', rw (more, alive) run, es, hs)
        ]
    | inr done ↦
        let same : count_live m0 mask i ≡ count_live m0 mask n =
          omega (arith, count_live_mono mask m0 i n, v.written, counted, le_of_ltb j count done) in
        let full : j ≡ count = v.written ∙ same ∙ sym counted in
        (
          m,
          rw done,
          ap (λ x. entries m wide x) (sym full) ∙ v.behind ∙ entries_of_counts m0 mask i n le same,
          v.head,
        )
  ]

nil_of_length {ℓ} : {A : Type ℓ} (xs : List A) → length xs ≡ 0 → xs ≡ []
nil_of_length [] e = refl
nil_of_length (x ∷ xs) e = absurd (omega arith)

last_live : (m : Words) (mask n : ℕ) → 0 < n → count_live m mask n ≡ n → live m mask (n - 1) ≡ true
unfolding count_live
last_live m mask zero pos e = absurd (omega arith)
last_live m mask (suc k) pos e =
    let back : suc k - 1 ≡ k = omega arith in rw back (ground (arith, count_live-le m mask k))

empty_props-IsTable : IsTable empty_props 0
unfolding get_first_free count_live last
empty_props-IsTable = record {
  shape = record {
    counted = refl;
    aligned = refl;
    heads_alone = λ e. refl;
    fits = omega arith;
    small = omega arith;
    blank = λ b. (refl, refl);
  };
  linked = record { heads = λ h le. refl; links = λ s l a. absurd (omega arith) };
  free = refl;
  room = λ e. cc e;
}

-- What compaction answers.
abbrev pub Compacted : Props → ℕ → Option Props → Type 0
Compacted p n r =
    (q : Props) × (n' : ℕ) × (r ≡ some q)
    × IsTable q n'
    × (contents q n' ≡ contents p n)
    × (q.in_rom ≡ false)

module _ {p : Props} {n : ℕ} (t : IsTable p n) (ram : p.in_rom ≡ false) where
  packed_none : prop_count p.arr ≡ 0 → Compacted p n (js_compact_props p)
  unfolding js_compact_props entries
  packed_none e =
      let nothing : contents p n ≡ [] =
        nil_of_length (contents p n)
          (length-entries p.arr (hash_mask p.arr) n ∙ sym t.shape.counted ∙ e) in
      elim (Bool-cases p.is_empty) [
        | inl shared ↦ (p, n, ground (arith, e, shared), t, refl, ram)
        | inr own ↦ (empty_props, 0, ground (arith, e, own), empty_props-IsTable, sym nothing, refl)
      ]

  abbrev new_mask : ℕ
  new_mask = min (hash_mask p.arr) (2 ^ get_prop_hash_size_log2 (prop_count p.arr) - 1)

  -- The table after the move, before its chains are rebuilt.
  module _ (m : Words) (some_left : prop_count p.arr ≢ 0)
      (shorter : slot new_mask (prop_count p.arr) < p.size)
      (same : entries m new_mask (prop_count p.arr) ≡ contents p n)
      (head : (x : ℕ) → x < base new_mask → m x ≡ write p.arr 1 (new_short_int new_mask) x) where
    abbrev packed : Props
    packed = record p { size = 2 + new_mask + 1 + 3 * prop_count p.arr; arr = m }

    packed_mask : hash_mask m ≡ new_mask
    packed_mask = omega (arith, head 1 (omega arith), t.shape.small)

    packed_count : count_live m new_mask (prop_count p.arr) ≡ prop_count p.arr
    packed_count =
        sym (length-entries m new_mask (prop_count p.arr))
        ∙ ap length same
        ∙ length-entries p.arr (hash_mask p.arr) n
        ∙ sym t.shape.counted

    packed_heads : prop_count m ≡ prop_count p.arr
    packed_heads = omega (arith, head 0 (omega arith))

    packed_last : (key m (packed.size - 3) == js_uninitialized) ≡ false
    packed_last =
        let at : packed.size - 3 ≡ slot new_mask (prop_count p.arr - 1) = omega arith in
        rw at (ground (arith, last_live m new_mask (prop_count p.arr) (omega arith) packed_count))

    packed-IsShape : IsShape packed (prop_count p.arr)
    packed-IsShape = record {
      counted = packed_heads ∙ rw packed_mask (sym packed_count);
      aligned = rw packed_mask (omega arith);
      heads_alone = rw packed_mask (λ e. absurd (omega arith));
      fits = rw packed_mask (omega arith);
      small = omega (arith, t.shape.small);
      blank = λ b. absurd (omega (arith, t.shape.blank b));
    }

    packed_free : get_first_free packed ≡ slot (hash_mask m) (prop_count p.arr)
    packed_free = full_free packed packed_last ∙ rw packed_mask (omega arith)

    packed-Compacted : Compacted p n (js_rehash_props packed false)
    packed-Compacted =
        let (q, run, table, same', size, in_ram) =
          js_rehash_props-IsTable false packed-IsShape packed_free (λ e. cc (packed_last, e)) ram
            (ground arith) in
        (q, prop_count p.arr, run, table, same' ∙ rw packed_mask same, in_ram)

  compact_runs :
      (m : Words)
      → prop_count p.arr ≢ 0
      → slot new_mask (prop_count p.arr) < p.size
      → compact_loop
          (slots p.size (hash_mask p.arr))
          (hash_mask p.arr)
          new_mask
          (prop_count p.arr)
          (write p.arr 1 (new_short_int new_mask))
          0
          0
        ≡ some m
      → js_compact_props p
        ≡ js_rehash_props
            (record p { size = 2 + new_mask + 1 + 3 * prop_count p.arr; arr = m })
            false
  unfolding js_compact_props
  compact_runs m some_left shorter run =
      let more : (prop_count p.arr == 0) ≡ false = ground arith in
      let moves : leb p.size (2 + new_mask + 1 + 3 * prop_count p.arr) ≡ false = ground arith in
      simp (more, moves, run)

  packed_some :
      prop_count p.arr ≢ 0
      → slot new_mask (prop_count p.arr) < p.size
      → Compacted p n (js_compact_props p)
  packed_some some_left shorter =
      let mask = hash_mask p.arr in
      let m0 = write p.arr 1 (new_short_int new_mask) in
      let slots_same : (i : ℕ) → 2 ≤ i → i < slot mask n → m0 i ≡ p.arr i =
        λ i lo hi. ground arith in
      let kept : prop_count p.arr ≡ count_live m0 mask n =
        t.shape.counted ∙ sym (count_of_words mask n p.arr m0 slots_same) in
      let start = start_Moved m0 mask new_mask n (prop_count p.arr) (omega arith) kept in
      let (m, run, same, head) =
        compact_loop-Moved m0 mask new_mask n (prop_count p.arr) (omega arith) kept
          (slots p.size mask) 0 0 m0 start (omega arith)
          (omega (arith, t.shape.fits, t.shape.aligned)) in
      rw (compact_runs m some_left shorter run) (
        packed-Compacted m some_left shorter (same ∙ entries_of_words mask n p.arr m0 slots_same)
          head)

  packed_full :
      prop_count p.arr ≢ 0
      → p.size ≤ slot new_mask (prop_count p.arr)
      → Compacted p n (js_compact_props p)
  unfolding js_compact_props
  packed_full some_left enough =
      let more : (prop_count p.arr == 0) ≡ false = ground arith in
      let stays : leb p.size (2 + new_mask + 1 + 3 * prop_count p.arr) ≡ true = ground arith in
      (p, n, simp (more, stays), t, refl, ram)

  -- Compaction of a well-formed table in RAM gives a well-formed table that holds the same properties
  -- in the same order; a table with no property left becomes the shared empty one.
  pub js_compact_props-IsTable : Compacted p n (js_compact_props p)
  js_compact_props-IsTable = elim (ℕ_discrete (prop_count p.arr) 0) [
    | yes e ↦ packed_none e
    | no some_left ↦ elim (dec_lt (slot new_mask (prop_count p.arr)) p.size) [
      | yes shorter ↦ packed_some some_left shorter
      | no enough ↦ packed_full some_left (omega arith)
    ]
  ]
