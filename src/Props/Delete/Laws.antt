-- ===== src/Props/Delete/Laws.antt =====
-- `JS_DeleteProperty` on every well-formed table in RAM.
use native.Mathlib.Decide.{ℕ_discrete}
use mquickjs.Base.{
  ℕ, zero, suc, ◌+◌, ◌-◌, ◌*◌, ◌/◌, bit_and, ◌≤◌, ◌<◌, ◌≡◌, refl, sym, ap, ◌∙◌, ◌≢◌, ◌⊎◌, inl, inr,
  true, false, Option, none, some, arith, Bool-cases, ltb,
}
use mquickjs.Value.{js_uninitialized, new_short_int, get_int}
use mquickjs.Props.{Words, Props, key, bucket, prop_count, hash_mask, slot, slots, get_first_free}
use mquickjs.Props.Chain.{live, last, seek, count_live, IsLinked, bucket-le, last-lt}
use mquickjs.Props.Same.{entries}
use mquickjs.Props.Table.{IsTable, contents}
use mquickjs.Props.Create.{Memory}
use mquickjs.Props.Create.Place.{count_live-le}
use mquickjs.Props.Compact.Laws.{js_compact_props-IsTable}
use mquickjs.Props.Delete.{
  Object, Deletion, deleted, sealed_object, flag_sealed, flag_frozen, unlink, erase_slot,
  remove_slot, find_prev, js_update_props, js_delete_property,
}
use mquickjs.Props.Delete.Unlink.{Before, Walk, find_prev-Walk}
use mquickjs.Props.Delete.Removed.{
  erase, IsFreed, from_head-IsFreed, from_slot-IsFreed, entries-freed, count-freed,
}
use mquickjs.Props.Delete.Relinked.{from_head-IsLinked, from_slot-IsLinked}
use mquickjs.Props.Delete.Trim.{closed, trim-IsTrimmed, closed-IsTable, contents-closed}

-- What is left of a table without its newest property with the key `k`.
abbrev pub Erased : Props → ℕ → ℕ → Option Props → Type 0
Erased p n k r =
    (q : Props) × (n' : ℕ) × (r ≡ some q)
    × IsTable q n'
    × (contents q n' ≡ erase k (contents p n))
    × (q.in_rom ≡ false)

module _ {p : Props} {n : ℕ} (t : IsTable p n) (ram : p.in_rom ≡ false) (k s : ℕ) (below : s < n)
    (alive : live p.arr (hash_mask p.arr) s ≡ true)
    (has_key : key p.arr (slot (hash_mask p.arr) s) ≡ k)
    (newest : seek p.arr (hash_mask p.arr) k n ≡ some (slot (hash_mask p.arr) s)) where
  abbrev mask : ℕ
  mask = hash_mask p.arr

  owned : p.is_empty ≡ false
  owned = elim (Bool-cases p.is_empty) [
    | inl e ↦ absurd (omega (arith, t.shape.blank e))
    | inr e ↦ e
  ]

  -- From the words after the slot is unlinked.
  module _ (h : ℕ) (l : Option ℕ)
      (counts : (unlink p.arr h (slot mask s) l 0 ≡ p.arr 0)
        × (unlink p.arr h (slot mask s) l 1 ≡ p.arr 1))
      (f : IsFreed mask p.arr (erase_slot (unlink p.arr h (slot mask s) l) (slot mask s)) s)
      (v : IsLinked (erase_slot (unlink p.arr h (slot mask s) l) (slot mask s)) mask n)
      (free : get_first_free (record p { arr = unlink p.arr h (slot mask s) l })
        ≡ slot mask n) where
    abbrev d : Words
    d = erase_slot (unlink p.arr h (slot mask s) l) (slot mask s)

    kept_heads : hash_mask d ≡ mask
    unfolding erase_slot
    kept_heads = ground (arith, counts)

    one_less : d 0 ≡ new_short_int (prop_count p.arr - 1)
    unfolding erase_slot
    one_less = ground (arith, counts)

    still_counted : prop_count d ≡ count_live d mask n
    still_counted = omega (
      arith,
      one_less,
      count-freed p.arr d mask s f alive n below,
      t.shape.counted,
      count_live-le p.arr mask n,
      t.shape.fits,
      t.shape.small,
    )

    still_marked : slot mask n < p.size → d (p.size - 3) ≡ js_uninitialized
    unfolding get_first_free
    still_marked more =
        let e : p.size - 3 ≡ slot mask (slots p.size mask - 1) = omega (arith, t.shape.aligned) in
        let room : n ≤ slots p.size mask - 1 = omega (arith, t.shape.aligned) in
        let free' = rw e at t.free in rw e (ground (arith, f.keys (slots p.size mask - 1), free'))

    remove_slot-Erased : Erased p n k (remove_slot p h (slot mask s) l)
    unfolding remove_slot
    remove_slot-Erased =
        let (n', run, v0) = trim-IsTrimmed d mask p.size n (omega (arith, t.shape.fits)) v in
        let table =
          closed-IsTable p d mask n n' v0 kept_heads t.shape.aligned t.shape.fits t.shape.small
            still_counted (omega arith) owned still_marked in
        let same =
          contents-closed p d mask n n' v0 kept_heads t.shape.aligned t.shape.fits t.shape.small
            still_counted (omega arith) owned still_marked in
        let gone = entries-freed p.arr d mask s f alive k n has_key newest in
        let q : Props = record p { arr = closed p (slot mask n') d } in
        let (r, n2, e, table2, same2, ram2) = js_compact_props-IsTable table ram in
        rw (free, run)
          (elim (Bool-cases
            (ltb (2 + mask + 1 + 3 * prop_count (unlink p.arr h (slot mask s) l)) (p.size / 2))) [
              | inl less ↦ (r, n2, rw less e, table2, same2 ∙ same ∙ gone, ram2)
              | inr more ↦ (q, n', rw more refl, table, same ∙ gone, ram)
            ])

  abbrev own : ℕ
  own = bucket mask (key p.arr (slot mask s))

  last_slot : p.size - 3 ≡ slot mask (slots p.size mask - 1)
  last_slot = omega (arith, t.shape.aligned, t.shape.fits)

  -- To unlink the slot does not change where the free ones begin.
  head_free : get_first_free (record p { arr = unlink p.arr own (slot mask s) none }) ≡ slot mask n
  unfolding unlink get_first_free
  head_free =
      let free = rw last_slot at t.free in
      rw last_slot (ground (arith, bucket-le mask (key p.arr (slot mask s)), free))

  slot_free :
      (u : ℕ)
      → live p.arr mask u ≡ true
      → get_first_free (record p { arr = unlink p.arr own (slot mask s) (some (slot mask u)) })
        ≡ slot mask n
  unfolding unlink get_first_free
  slot_free u alive_u = let free = rw last_slot at t.free in rw last_slot (ground (arith, free))

  head_counts :
      (unlink p.arr own (slot mask s) none 0 ≡ p.arr 0)
      × (unlink p.arr own (slot mask s) none 1 ≡ p.arr 1)
  unfolding unlink
  head_counts = (ground arith, ground arith)

  slot_counts :
      (u : ℕ)
      → (unlink p.arr own (slot mask s) (some (slot mask u)) 0 ≡ p.arr 0)
        × (unlink p.arr own (slot mask s) (some (slot mask u)) 1 ≡ p.arr 1)
  unfolding unlink
  slot_counts u = (ground arith, ground arith)

  found-Erased :
      (l : Option ℕ)
      → Before p.arr mask k n s none l
      → Erased p n k (remove_slot p (bucket mask k) (slot mask s) l)
  found-Erased l before =
      let same : bucket mask k ≡ own = ap (bucket mask) (sym has_key) in
      elim before [
        | inl (at, first) ↦
            rw (at, same)
              (remove_slot-Erased own none head_counts
                (from_head-IsFreed p.arr mask s own (bucket-le mask (key p.arr (slot mask s))))
                (from_head-IsLinked p.arr mask n s t.linked below alive (rw same at first))
                head_free)
        | inr (u, at, younger, u_in, inside, next) ↦
            rw (at, same)
              (remove_slot-Erased own (some (slot mask u)) (slot_counts u)
                (from_slot-IsFreed p.arr mask s own u (omega arith))
                (from_slot-IsLinked p.arr mask n s t.linked below alive u younger
                  (rw same at inside) u_in (rw same at next))
                (slot_free u (ground arith)))
      ]

-- What JS_DeleteProperty answers on an object whose properties lie in RAM.
abbrev pub Deleted : Object → ℕ → ℕ → Deletion → Type 0
Deleted o n k r =
    ((bit_and o.obj_flags (flag_sealed + flag_frozen) ≢ 0) × (r ≡ sealed_object))
    ⊎ ((bit_and o.obj_flags (flag_sealed + flag_frozen) ≡ 0)
        × (o' : Object) × (n' : ℕ) × (r ≡ deleted o')
        × (o'.obj_flags ≡ o.obj_flags)
        × IsTable o'.props n'
        × (contents o'.props n' ≡ erase k (contents o.props n))
        × (o'.props.in_rom ≡ false))

erase-missing :
    (m : Words) (mask k n : ℕ)
    → seek m mask k n ≡ none
    → erase k (entries m mask n) ≡ entries m mask n
unfolding seek erase entries
erase-missing m mask k zero e = refl
erase-missing m mask k (suc n) e = ground (arith, erase-missing m mask k n)

pub locked_out :
    (mem : Memory) (get : ℕ → ℕ) (o : Object) (k : ℕ)
    → bit_and o.obj_flags (flag_sealed + flag_frozen) ≢ 0
    → js_delete_property mem get o k ≡ sealed_object
unfolding js_delete_property
locked_out mem get o k ne = ground (arith, ne)

module _ (mem : Memory) (get : ℕ → ℕ) (o : Object) {n : ℕ} (k : ℕ) (t : IsTable o.props n)
    (ram : o.props.in_rom ≡ false) where
  walked : Walk o.props.arr (hash_mask o.props.arr) k n none (
      find_prev o.props.size o.props.arr k
        (get_int (o.props.arr (2 + bucket (hash_mask o.props.arr) k)))
        none)
  walked =
      let m = o.props.arr in
      let mask = hash_mask m in
      let start : get_int (m (2 + bucket mask k)) ≡ last m mask (bucket mask k) n = omega (
        arith,
        t.linked.heads (bucket mask k) (bucket-le mask k),
        last-lt m mask (bucket mask k) n,
        t.shape.fits,
        t.shape.small,
      ) in
      rw start (
        find_prev-Walk m mask k n t.linked n o.props.size none (omega arith)
          (omega (arith, t.shape.fits)))

  in_place : js_update_props mem get o.props ≡ some o.props
  unfolding js_update_props
  in_place = simp ram

  found_runs :
      (i : ℕ) (l : Option ℕ) (q : Props)
      → bit_and o.obj_flags (flag_sealed + flag_frozen) ≡ 0
      → find_prev o.props.size o.props.arr k
          (get_int (o.props.arr (2 + bucket (hash_mask o.props.arr) k)))
          none
        ≡ some (some (i, l))
      → remove_slot o.props (bucket (hash_mask o.props.arr) k) i l ≡ some q
      → js_delete_property mem get o k ≡ deleted (record o { props = q })
  unfolding js_delete_property
  found_runs i l q unsealed run gone = simp (unsealed, run, in_place, gone)

  missing :
      bit_and o.obj_flags (flag_sealed + flag_frozen) ≡ 0
      → find_prev o.props.size o.props.arr k
          (get_int (o.props.arr (2 + bucket (hash_mask o.props.arr) k)))
          none
        ≡ some none
      → js_delete_property mem get o k ≡ deleted o
  unfolding js_delete_property
  missing unsealed run = simp (unsealed, run)

  -- On an object with a well-formed table in RAM, JS_DeleteProperty refuses with the flag SEALED or
  -- FROZEN. Otherwise it answers, and in a well-formed table the newest property with the key, if there
  -- is one, is gone; the others keep their order, key, value and type.
  pub js_delete_property-IsTable : Deleted o n k (js_delete_property mem get o k)
  js_delete_property-IsTable =
      elim (ℕ_discrete (bit_and o.obj_flags (flag_sealed + flag_frozen)) 0) [
        | no ne ↦ inl (ne, locked_out mem get o k ne)
        | yes unsealed ↦ elim walked [
          | inl (run, nothing) ↦ inr (
            unsealed,
            o,
            n,
            missing unsealed run,
            refl,
            t,
            sym (erase-missing o.props.arr (hash_mask o.props.arr) k n nothing),
            ram,
          )
          | inr (i, l, run, f) ↦
              let (q, n', gone, table, same, in_ram) =
                found-Erased t ram k f.s f.below f.alive f.has_key (rw f.at at f.newest) l
                  f.before in
              let gone' = rw (← f.at) at gone in
              inr (
                unsealed,
                record o { props = q },
                n',
                found_runs i l q unsealed run gone',
                refl,
                table,
                same,
                in_ram,
              )
        ]
      ]
