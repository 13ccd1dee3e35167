-- ===== src/Props/Delete/Unlink.antt =====
-- Taking a slot out of its chain.
use native.Mathlib.Decide.{ℕ_discrete}
use mquickjs.Base.{
  ℕ, zero, suc, ◌/◌, ◌≤◌, ◌<◌, ◌≡◌, refl, sym, ap, ◌∙◌, ◌≢◌, ◌⊎◌, inl, inr, true, false, ◌&&◌,
  Option, none, some, arith, Bool-cases, ◌==◌,
}
use mathlib.Core.Path.{subst}
use mquickjs.Props.{Words, key, hash_next, bucket, slot}
use mquickjs.Props.Chain.{live, in_bucket, last, seek, IsLinked}
use mquickjs.Props.Delete.{find_prev}

module _ (m : Words) (mask : ℕ) where
  pub last-ge : (h t n : ℕ) → in_bucket m mask h t ≡ true → t < n → slot mask t ≤ last m mask h n
  unfolding last
  last-ge h t zero b l = absurd (omega arith)
  last-ge h t (suc n) b l = elim (ℕ_discrete t n) [
    | yes e ↦ let b' : in_bucket m mask h n ≡ true = rw e at b in rw (b', e) (omega arith)
    | no ne ↦ ground (arith, last-ge h t n b (omega arith))
  ]

  -- The link through which the chain of `k` leads to the slot `s`: a head, or the slot `u`.
  abbrev pub Before : ℕ → ℕ → ℕ → Option ℕ → Option ℕ → Type 0
  Before k t s prev l =
      ((l ≡ prev) × (last m mask (bucket mask k) t ≡ slot mask s))
      ⊎ ((u : ℕ) × (l ≡ some (slot mask u))
          × (s < u)
          × (u < t)
          × (in_bucket m mask (bucket mask k) u ≡ true)
          × (last m mask (bucket mask k) u ≡ slot mask s))

  -- The newest slot of the first `t` with the key `k`, and the link to it.
  pub record IsFound (k t i : ℕ) (prev l : Option ℕ) : Type 0 where
    pub s : ℕ
    pub at : i ≡ slot mask s
    pub below : s < t
    pub alive : live m mask s ≡ true
    pub has_key : key m (slot mask s) ≡ k
    pub newest : seek m mask k t ≡ some i
    pub before : Before k t s prev l

  abbrev pub Walk : ℕ → ℕ → Option ℕ → Option (Option (ℕ × Option ℕ)) → Type 0
  Walk k t prev r =
      ((r ≡ some none) × (seek m mask k t ≡ none))
      ⊎ ((i : ℕ) × (l : Option ℕ) × (r ≡ some (some (i, l))) × IsFound k t i prev l)

  module _ (k s : ℕ) (other : (live m mask s && (key m (slot mask s) == k)) ≡ false) where
    seek_other : seek m mask k (suc s) ≡ seek m mask k s
    unfolding seek
    seek_other = rw other

    -- A slot outside the bucket is not met.
    skip-Walk :
        (prev : Option ℕ) (r : Option (Option (ℕ × Option ℕ)))
        → in_bucket m mask (bucket mask k) s ≡ false
        → Walk k s prev r
        → Walk k (suc s) prev r
    unfolding last
    skip-Walk prev r out (inl (e, nothing)) = inl (e, seek_other ∙ nothing)
    skip-Walk prev r out (inr (i, l, e, f)) = inr (
      i,
      l,
      e,
      record {
        s = f.s;
        at = f.at;
        below = omega (arith, f.below);
        alive = f.alive;
        has_key = f.has_key;
        newest = seek_other ∙ f.newest;
        before = elim f.before [
          | inl (a, b) ↦ inl (a, rw out b)
          | inr (u, a, b, c, d, x) ↦ inr (u, a, b, omega arith, d, x)
        ];
      },
    )

    -- A slot of the bucket with another key is passed.
    pass-Walk :
        (prev : Option ℕ) (r : Option (Option (ℕ × Option ℕ)))
        → in_bucket m mask (bucket mask k) s ≡ true
        → Walk k s (some (slot mask s)) r
        → Walk k (suc s) prev r
    pass-Walk prev r inside (inl (e, nothing)) = inl (e, seek_other ∙ nothing)
    pass-Walk prev r inside (inr (i, l, e, f)) = inr (
      i,
      l,
      e,
      record {
        s = f.s;
        at = f.at;
        below = omega (arith, f.below);
        alive = f.alive;
        has_key = f.has_key;
        newest = seek_other ∙ f.newest;
        before = elim f.before [
          | inl (a, b) ↦ inr (s, a, f.below, omega arith, inside, b)
          | inr (u, a, b, c, d, x) ↦ inr (u, a, b, omega arith, d, x)
        ];
      },
    )

  hit-Walk :
      (k s : ℕ) (prev : Option ℕ)
      → live m mask s ≡ true
      → key m (slot mask s) ≡ k
      → Walk k (suc s) prev (some (some (slot mask s, prev)))
  unfolding last seek
  hit-Walk k s prev a e = inr (
    slot mask s,
    prev,
    refl,
    record {
      s = s;
      at = refl;
      below = omega arith;
      alive = a;
      has_key = e;
      newest = ground arith;
      before = inl (refl, ground arith);
    },
  )

  last-suc_in : (h s : ℕ) → in_bucket m mask h s ≡ true → last m mask h (suc s) ≡ slot mask s
  unfolding last
  last-suc_in h s e = rw e

  last-suc_out : (h s : ℕ) → in_bucket m mask h s ≡ false → last m mask h (suc s) ≡ last m mask h s
  unfolding last
  last-suc_out h s e = rw e

  find_prev_hit :
      (k s fuel : ℕ) (prev : Option ℕ)
      → key m (slot mask s) ≡ k
      → find_prev (suc fuel) m k (slot mask s) prev ≡ some (some (slot mask s, prev))
  unfolding find_prev
  find_prev_hit k s fuel prev e = ground arith

  find_prev_miss :
      (k s fuel : ℕ) (prev : Option ℕ)
      → key m (slot mask s) ≢ k
      → find_prev (suc fuel) m k (slot mask s) prev
        ≡ find_prev fuel m k (hash_next m (slot mask s) / 2) (some (slot mask s))
  unfolding find_prev
  find_prev_miss k s fuel prev ne = ground arith

  -- The walk of JS_DeleteProperty ends. It finds the newest property with the key, and the link to it.
  pub find_prev-Walk :
      (k n : ℕ)
      → IsLinked m mask n
      → (t fuel : ℕ) (prev : Option ℕ) → t ≤ n
      → t < fuel
      → Walk k t prev (find_prev fuel m k (last m mask (bucket mask k) t) prev)
  find_prev-Walk k n w t zero prev le enough = absurd (omega arith)
  find_prev-Walk k n w zero (suc fuel) prev le enough =
      unfold find_prev last seek in inl (refl, refl)
  find_prev-Walk k n w (suc s) (suc fuel) prev le enough =
      let h = bucket mask k in
      elim (Bool-cases (in_bucket m mask h s)) [
        | inr out ↦
            subst (λ x. Walk k (suc s) prev (find_prev (suc fuel) m k x prev))
              (sym (last-suc_out h s out))
              (skip-Walk k s (ground arith) prev _ out
                (find_prev-Walk k n w s (suc fuel) prev (omega arith) (omega arith)))
        | inl inside ↦
            subst (λ x. Walk k (suc s) prev (find_prev (suc fuel) m k x prev))
              (sym (last-suc_in h s inside))
              (elim (ℕ_discrete (key m (slot mask s)) k) [
                | yes e ↦
                    subst (Walk k (suc s) prev) (sym (find_prev_hit k s fuel prev e))
                      (hit-Walk k s prev (ground arith) e)
                | no ne ↦
                    let next : hash_next m (slot mask s) / 2 ≡ last m mask h s =
                      ground (arith, w.links s) in
                    subst (Walk k (suc s) prev)
                      (sym (
                        find_prev_miss k s fuel prev ne
                        ∙ ap (λ x. find_prev fuel m k x (some (slot mask s))) next))
                      (pass-Walk k s (ground arith) prev _ inside (
                        find_prev-Walk k n w s fuel (some (slot mask s)) (omega arith)
                          (omega arith)))
              ])
      ]
