-- ===== src/Props/Table.antt =====
-- Well-formed property tables: what `find_own_property` and `js_rehash_props` do on them.
use mquickjs.Base.{
  ℕ, ◌+◌, ◌-◌, ◌/◌, ◌%◌, ◌^◌, ◌≤◌, ◌<◌, ◌≡◌, refl, sym, ap, ◌∙◌, ◌≢◌, Bool, true, false, ◌&&◌,
  Option, some, arith, ◌==◌, List,
}
use native.Mathlib.Decide.{dec_lt}
use mquickjs.Value.{js_uninitialized}
use mquickjs.Props.{
  Words, Props, key, bucket, prop_count, hash_mask, slot, slots, find_own_property, js_rehash_props,
  get_first_free, clear_heads, rehash_loop,
}
use mquickjs.Props.Chain.{seek, count_live, IsLinked, bucket-le, find_loop-seek}
use mquickjs.Props.Same.{
  SameProps, Entry, entries, lookup, map_entry, seek-lookup, entries-SameProps, count_live-cong,
}
use mquickjs.Props.Rehash.{rehash_loop-clear_heads}

-- The counts and sizes of a table whose first `n` slots have been handed out.
pub record IsShape (p : Props) (n : ℕ) : Type 0 where
  pub counted : prop_count p.arr ≡ count_live p.arr (hash_mask p.arr) n
  pub aligned : p.size ≡ slot (hash_mask p.arr) (slots p.size (hash_mask p.arr))
  pub heads_alone : slots p.size (hash_mask p.arr) ≡ 0 → hash_mask p.arr ≡ 0
  pub fits : slot (hash_mask p.arr) n ≤ p.size
  pub small : p.size < 2 ^ 28
  pub blank : p.is_empty ≡ true → (n ≡ 0) × (p.size ≡ 3)

-- A well-formed table: its chains are right, and the last slot says where the free slots begin; if
-- that slot is marked free, there is one.
pub record IsTable (p : Props) (n : ℕ) : Type 0 where
  pub shape : IsShape p n
  pub linked : IsLinked p.arr (hash_mask p.arr) n
  pub free : get_first_free p ≡ slot (hash_mask p.arr) n
  pub room : (key p.arr (p.size - 3) == js_uninitialized) ≡ true → slot (hash_mask p.arr) n < p.size

abbrev pub contents : Props → ℕ → List Entry
contents p n = entries p.arr (hash_mask p.arr) n

-- The walk of `find_own_property` ends, and it finds the newest property with the key, or NULL if
-- the table holds none.
pub find_own_property-lookup :
    {p : Props} {n : ℕ} (k : ℕ)
    → IsTable p n
    → k ≢ js_uninitialized
    → (r : Option ℕ) × (find_own_property p k ≡ some r)
      × (map_entry p.arr r ≡ lookup k (contents p n))
unfolding find_own_property
find_own_property-lookup {p} {n} k t ne =
    let m = p.arr in
    let mask = hash_mask m in
    (
      seek m mask k n,
      rw (t.linked.heads (bucket mask k) (bucket-le mask k)) (
          find_loop-seek m mask k n n p.size t.linked ne (omega arith)
            (omega (arith, t.shape.fits))),
      seek-lookup m mask k n,
    )

abbrev pub with_arr : Props → Words → Props
with_arr p m = record p { arr = m }

-- New heads and links over the same properties.
module _ {p : Props} {n : ℕ} (m : Words) (s : IsShape p n)
    (free : get_first_free p ≡ slot (hash_mask p.arr) n)
    (room : (key p.arr (p.size - 3) == js_uninitialized) ≡ true → slot (hash_mask p.arr) n < p.size)
    (same : SameProps (hash_mask p.arr) p.arr m) (v : IsLinked m (hash_mask p.arr) n) where
  same_mask : hash_mask m ≡ hash_mask p.arr
  same_mask = ap (λ t. t % 2 ^ 32 / 2) same.counts.1

  -- Without slots the word before the end is the count of properties, which is 0.
  no_slots_free : slots p.size (hash_mask p.arr) ≡ 0 → get_first_free (with_arr p m) ≡ p.size
  unfolding get_first_free count_live
  no_slots_free none_there =
      let e : n ≡ 0 = omega (arith, s.fits, s.aligned) in
      let c : prop_count p.arr ≡ 0 = rw e at s.counted in
      ground (arith, same.counts.0, s.aligned, s.heads_alone none_there, c)

  some_slots_free :
      0 < slots p.size (hash_mask p.arr) → get_first_free (with_arr p m) ≡ get_first_free p
  unfolding get_first_free
  some_slots_free more =
      let q = slots p.size (hash_mask p.arr) - 1 in
      let e : p.size - 3 ≡ slot (hash_mask p.arr) q = omega (arith, s.aligned) in
      rw e (ground (arith, same.keys q, same.dead_links q))

  relinked_free : get_first_free (with_arr p m) ≡ slot (hash_mask p.arr) n
  relinked_free = elim (dec_lt 0 (slots p.size (hash_mask p.arr))) [
    | yes more ↦ some_slots_free more ∙ free
    | no stop ↦ no_slots_free (omega arith) ∙ omega (arith, s.fits, s.aligned)
  ]

  relinked_room :
      (key m (p.size - 3) == js_uninitialized) ≡ true → slot (hash_mask p.arr) n < p.size
  unfolding count_live
  relinked_room last = elim (dec_lt 0 (slots p.size (hash_mask p.arr))) [
    | yes more ↦
        let q = slots p.size (hash_mask p.arr) - 1 in
        let e : p.size - 3 ≡ slot (hash_mask p.arr) q = omega (arith, s.aligned) in
        room (rw (e, ← same.keys q) (rw e at last))
    | no stop ↦
        let e : n ≡ 0 = omega (arith, s.fits, s.aligned) in
        let c : prop_count p.arr ≡ 0 = rw e at s.counted in
        absurd (ground (arith, same.counts.0, s.aligned, s.heads_alone (omega arith), c))
  ]

  relinked-IsTable : IsTable (with_arr p m) n
  relinked-IsTable = record {
    shape = record {
      counted =
          rw (same_mask, same.counts.0)
            (s.counted ∙ sym (count_live-cong (hash_mask p.arr) p.arr m n (λ t l. same.keys t)));
      aligned = rw same_mask s.aligned;
      heads_alone = rw same_mask s.heads_alone;
      fits = rw same_mask s.fits;
      small = s.small;
      blank = s.blank;
    };
    linked = rw same_mask v;
    free = rw same_mask relinked_free;
    room = rw same_mask relinked_room;
  }

  relinked-contents : contents (with_arr p m) n ≡ contents p n
  relinked-contents = rw same_mask (entries-SameProps p.arr m (hash_mask p.arr) n same)

-- A table in RAM is rehashed by the loop.
pub js_rehash_props_runs :
    (p : Props) (gc_rehash : Bool) (m : Words)
    → p.in_rom ≡ false
    → (hash_mask p.arr == 0 && gc_rehash) ≡ false
    → rehash_loop
        (slots p.size (hash_mask p.arr))
        (hash_mask p.arr)
        (prop_count p.arr)
        (clear_heads (hash_mask p.arr + 1) p.arr)
        0
        0
      ≡ some m
    → js_rehash_props p gc_rehash ≡ some (with_arr p m)
unfolding js_rehash_props
js_rehash_props_runs p gc_rehash m ram work run = simp (ram, work, run)

-- `js_rehash_props` on a table in RAM, but with `gc_rehash` on one head, where it returns at once, rebuilds the chains
-- from any state of the heads and of the links of live slots, where the last slot says where the free slots begin: the
-- result is well formed, and holds the same properties in the same order.
pub js_rehash_props-IsTable :
    {p : Props} {n : ℕ} (gc_rehash : Bool)
    → IsShape p n
    → get_first_free p ≡ slot (hash_mask p.arr) n
    → ((key p.arr (p.size - 3) == js_uninitialized) ≡ true → slot (hash_mask p.arr) n < p.size)
    → p.in_rom ≡ false
    → (hash_mask p.arr == 0 && gc_rehash) ≡ false
    → (p' : Props) × (js_rehash_props p gc_rehash ≡ some p')
      × IsTable p' n
      × (contents p' n ≡ contents p n)
      × (p'.size ≡ p.size)
      × (p'.in_rom ≡ false)
js_rehash_props-IsTable {p} {n} gc_rehash s free room ram work =
    let m = p.arr in
    let mask = hash_mask m in
    let (m', run, same, v) =
      rehash_loop-clear_heads m mask n (slots p.size mask) (omega (arith, s.fits, s.small))
        (omega (arith, s.fits, s.aligned)) s.counted in
    (
      with_arr p m',
      js_rehash_props_runs p gc_rehash m' ram work run,
      relinked-IsTable m' s free room same v,
      relinked-contents m' s free room same v,
      refl,
      ram,
    )
