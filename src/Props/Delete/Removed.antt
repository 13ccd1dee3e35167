-- ===== src/Props/Delete/Removed.antt =====
-- The words of a table after a slot is unlinked and freed.
use native.Mathlib.Decide.{ℕ_discrete}
use mquickjs.Base.{
  ℕ, zero, suc, ◌+◌, ◌≤◌, ◌<◌, ◌≡◌, ap, ◌≢◌, true, false, not, none, some, List, [], ◌∷◌, arith,
  ◌==◌, if◌then◌else◌,
}
use mquickjs.Value.{js_uninitialized}
use mquickjs.Props.{Words, key, prop_type, slot}
use mquickjs.Props.Chain.{live, last, seek, count_live, last-lt}
use mquickjs.Props.Same.{Entry, entry, entries, entries-cong, count_live-cong}
use mquickjs.Props.Delete.{unlink, erase_slot}

-- The newest property with the key `k` is taken out.
unfoldable pub erase : ℕ → List Entry → List Entry
erase k [] = []
erase k (e ∷ es) = if e.key == k then es else e ∷ erase k es

-- `d` differs from `m` in that the slot `s` is free.
pub record IsFreed (mask : ℕ) (m d : Words) (s : ℕ) : Type 0 where
  pub gone : d (slot mask s) ≡ js_uninitialized
  pub keys : (t : ℕ) → t ≢ s → d (slot mask t) ≡ m (slot mask t)
  pub values : (t : ℕ) → t ≢ s → d (slot mask t + 1) ≡ m (slot mask t + 1)
  pub types : (t : ℕ) → t ≢ s → prop_type d (slot mask t) ≡ prop_type m (slot mask t)

module _ (m : Words) (mask s : ℕ) where
  -- The two ways to unlink.
  abbrev pub from_head : ℕ → Words
  from_head h = erase_slot (unlink m h (slot mask s) none) (slot mask s)

  abbrev pub from_slot : ℕ → ℕ → Words
  from_slot h u = erase_slot (unlink m h (slot mask s) (some (slot mask u))) (slot mask s)

  pub from_head-IsFreed : (h : ℕ) → h ≤ mask → IsFreed mask m (from_head h) s
  unfolding unlink erase_slot
  from_head-IsFreed h le = record {
    gone = ground arith;
    keys = λ t ne. ground arith;
    values = λ t ne. ground arith;
    types = λ t ne. ground arith;
  }

  pub from_slot-IsFreed : (h u : ℕ) → u ≢ s → IsFreed mask m (from_slot h u) s
  unfolding unlink erase_slot
  from_slot-IsFreed h u apart = record {
    gone = ground arith;
    keys = λ t ne. ground arith;
    values = λ t ne. ground arith;
    types = λ t ne. ground arith;
  }

module _ (m d : Words) (mask s : ℕ) (f : IsFreed mask m d s) (alive : live m mask s ≡ true) where
  pub freed_dead : live d mask s ≡ false
  freed_dead = ground (arith, f.gone)

  freed_live : (t : ℕ) → t ≢ s → live d mask t ≡ live m mask t
  freed_live t ne = ap (λ x. not (x == js_uninitialized)) (f.keys t ne)

  -- What led to the slot leads to the one before it.
  pub last_freed :
      (b t : ℕ)
      → last d mask b t
        ≡ (if last m mask b t == slot mask s then last m mask b s else last m mask b t)
  unfolding last
  last_freed b zero = ground arith
  last_freed b (suc t) = elim (ℕ_discrete t s) [
    | yes e ↦ rw e (ground (arith, freed_dead, rw e at (last_freed b t), last-lt m mask b s))
    | no ne ↦ ground (arith, f.keys t ne, last_freed b t)
  ]

  pub freed-entry : (t : ℕ) → t ≢ s → entry d (slot mask t) ≡ entry m (slot mask t)
  freed-entry t ne = ground (arith, f.keys t ne, f.values t ne, f.types t ne)

  -- The newest property with the key is gone, and the others stay.
  pub entries-freed :
      (k n : ℕ)
      → key m (slot mask s) ≡ k
      → seek m mask k n ≡ some (slot mask s)
      → entries d mask n ≡ erase k (entries m mask n)
  unfolding seek entries erase
  entries-freed k zero has newest = absurd (cc newest)
  entries-freed k (suc t) has newest = elim (ℕ_discrete t s) [
    | yes e ↦
        let below : entries d mask s ≡ entries m mask s =
          entries-cong m d mask mask s (λ x l. freed-entry x (omega arith)) in
        rw e (ground (arith, freed_dead, alive, has, below))
    | no ne ↦ ground (arith, f.keys t ne, freed-entry t ne, has, entries-freed k t has)
  ]

  pub count-freed : (n : ℕ) → s < n → suc (count_live d mask n) ≡ count_live m mask n
  unfolding count_live
  count-freed zero l = absurd (omega arith)
  count-freed (suc t) l = elim (ℕ_discrete t s) [
    | yes e ↦
        let below : count_live d mask s ≡ count_live m mask s =
          count_live-cong mask m d s (λ x b. f.keys x (omega arith)) in
        rw e (ground (arith, freed_dead, alive, below))
    | no ne ↦ ground (arith, f.keys t ne, count-freed t (omega arith))
  ]
