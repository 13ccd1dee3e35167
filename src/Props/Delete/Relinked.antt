-- ===== src/Props/Delete/Relinked.antt =====
-- The chains of a table after a slot is unlinked and freed.
use native.Mathlib.Decide.{dec_lt, ℕ_discrete}
use mquickjs.Base.{
  ℕ, zero, suc, ◌+◌, ◌*◌, ◌≤◌, ◌<◌, ◌≡◌, sym, ◌≢◌, inl, inr, true, arith, Bool-cases, ◌==◌,
  if◌then◌else◌,
}
use mquickjs.Props.{Words, key, hash_next, bucket, slot}
use mquickjs.Props.Chain.{live, in_bucket, last, IsLinked, last-lt, bucket-le}
use mquickjs.Props.Delete.{unlink, erase_slot}
use mquickjs.Props.Delete.Unlink.{last-ge}
use mquickjs.Props.Delete.Removed.{
  IsFreed, from_head, from_slot, from_head-IsFreed, from_slot-IsFreed, last_freed, freed_dead,
}

last-in_bucket :
    (m : Words) (mask h n s : ℕ) → last m mask h n ≡ slot mask s → in_bucket m mask h s ≡ true
unfolding last
last-in_bucket m mask h zero s e = absurd (omega arith)
last-in_bucket m mask h (suc n) s e = elim (Bool-cases (in_bucket m mask h n)) [
  | inl inside ↦ let same : n ≡ s = ground arith in rw (← same) inside
  | inr out ↦ last-in_bucket m mask h n s (ground arith)
]

module _ (m : Words) (mask n s : ℕ) (w : IsLinked m mask n) (below : s < n)
    (alive : live m mask s ≡ true) where
  abbrev h : ℕ
  h = bucket mask (key m (slot mask s))

  -- The slot is found only through its own bucket, and only by younger slots.
  led_here : (b t : ℕ) → last m mask b t ≡ slot mask s → (b ≡ h) × (s < t)
  led_here b t e =
      let inside = last-in_bucket m mask b t s e in
      (ground arith, omega (arith, last-lt m mask b t))

  link_here : hash_next m (slot mask s) ≡ 2 * last m mask h s
  link_here = w.links s below alive

  -- The words of the links after the slot is taken out.
  head_links :
      (t : ℕ) → t ≢ s → hash_next (from_head m mask s h) (slot mask t) ≡ hash_next m (slot mask t)
  unfolding unlink erase_slot
  head_links t ne = ground (arith, bucket-le mask (key m (slot mask s)))

  head_heads :
      (x : ℕ)
      → x ≤ mask
      → from_head m mask s h (2 + x) ≡ (if x == h then hash_next m (slot mask s) else m (2 + x))
  unfolding unlink erase_slot
  head_heads x le = ground arith

  slot_links :
      (u t : ℕ)
      → u ≢ s
      → t ≢ s
      → hash_next (from_slot m mask s h u) (slot mask t)
        ≡ (if t == u then hash_next m (slot mask s) else hash_next m (slot mask t))
  unfolding unlink erase_slot
  slot_links u t apart ne = ground arith

  slot_heads : (u x : ℕ) → x ≤ mask → from_slot m mask s h u (2 + x) ≡ m (2 + x)
  unfolding unlink erase_slot
  slot_heads u x le = ground arith

  module _ (d : Words) (f : IsFreed mask m d s) where
    other_slot : (t : ℕ) → live d mask t ≡ true → t ≢ s
    other_slot t a e = cc (freed_dead m d mask s f alive)

    -- Where the link of a live slot did not lead here it need not change.
    kept_link :
        (t : ℕ)
        → t < n
        → live d mask t ≡ true
        → last m mask (bucket mask (d (slot mask t))) t ≢ slot mask s
        → hash_next d (slot mask t) ≡ hash_next m (slot mask t)
        → hash_next d (slot mask t) ≡ 2 * last d mask (bucket mask (d (slot mask t))) t
    kept_link t l a elsewhere same =
        let ne = other_slot t a in
        ground (
          arith,
          f.keys t ne,
          w.links t l,
          last_freed m d mask s f alive (bucket mask (d (slot mask t))) t,
        )

    in_own_bucket :
        (b t : ℕ)
        → live d mask t ≡ true
        → b ≡ bucket mask (d (slot mask t))
        → in_bucket m mask b t ≡ true
    in_own_bucket b t a e = ground (arith, f.keys t (other_slot t a))

  pub from_head-IsLinked : last m mask h n ≡ slot mask s → IsLinked (from_head m mask s h) mask n
  from_head-IsLinked first =
      let d = from_head m mask s h in
      let f = from_head-IsFreed m mask s h (bucket-le mask (key m (slot mask s))) in
      record {
        heads = λ x le. ground (
          arith,
          head_heads x le,
          w.heads x le,
          last_freed m d mask s f alive x n,
          led_here x n,
          link_here,
        );
        links = λ t l a.
            kept_link d f t l a
              (λ e.
                let (own, younger) = led_here (bucket mask (d (slot mask t))) t e in
                let inside = in_own_bucket d f h t a (sym own) in
                absurd (omega (arith, last-ge m mask h t n inside l, first)))
              (head_links t (other_slot d f t a));
      }

  module _ (u : ℕ) (younger : s < u) (inside : in_bucket m mask h u ≡ true) (u_in : u < n)
      (next : last m mask h u ≡ slot mask s) where
    not_first : last m mask h n ≢ slot mask s
    not_first e = absurd (omega (arith, last-ge m mask h u n inside u_in, e))

    not_other : (t : ℕ) → t ≢ u → in_bucket m mask h t ≡ true → last m mask h t ≢ slot mask s
    not_other t ne it e = elim (dec_lt t u) [
      | yes lt ↦ absurd (omega (arith, last-ge m mask h t u it lt, next, led_here h t e))
      | no ge ↦ absurd (omega (arith, last-ge m mask h u t inside (omega arith), e))
    ]

    pub from_slot-IsLinked : IsLinked (from_slot m mask s h u) mask n
    from_slot-IsLinked =
        let d = from_slot m mask s h u in
        let f = from_slot-IsFreed m mask s h u (omega arith) in
        record {
          heads = λ x le. ground (
            arith,
            slot_heads u x le,
            w.heads x le,
            last_freed m d mask s f alive x n,
            led_here x n,
            not_first,
          );
          links = λ t l a.
              let ne = other_slot d f t a in
              elim (ℕ_discrete t u) [
                | yes e ↦ rw e (
                    ground (
                      arith,
                      slot_links u u,
                      f.keys u,
                      inside,
                      link_here,
                      next,
                      last_freed m d mask s f alive h u,
                    ))
                | no apart ↦
                    kept_link d f t l a
                      (λ e.
                        let (own, after) = led_here (bucket mask (d (slot mask t))) t e in
                        not_other t apart (in_own_bucket d f h t a (sym own)) (rw own at e))
                      (ground (arith, slot_links u t))
              ];
        }
