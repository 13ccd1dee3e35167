-- ===== src/Props/Chain.antt =====
-- The hash chains of a property table: each link leads to the nearest older live slot of the bucket.
use mquickjs.Base.{
  ℕ, zero, suc, ◌+◌, ◌*◌, ◌≤◌, ◌<◌, ◌≡◌, refl, ◌≢◌, Bool, true, not, ◌&&◌, Option, none, some,
  arith, ◌==◌, if◌then◌else◌,
}
use mquickjs.Base.Bits.{bit_and-le}
use mquickjs.Value.{js_uninitialized}
use mquickjs.Props.{Words, key, hash_next, bucket, hash_prop, slot, find_loop}

pub bucket-le : (mask k : ℕ) → bucket mask k ≤ mask
bucket-le mask k = bit_and-le (hash_prop k) mask

module _ (m : Words) (mask : ℕ) where
  abbrev pub live : ℕ → Bool
  live s = not (key m (slot mask s) == js_uninitialized)

  -- Slot `s` is live and its key falls into bucket `h`.
  abbrev pub in_bucket : ℕ → ℕ → Bool
  in_bucket h s = live s && (bucket mask (key m (slot mask s)) == h)

  -- The newest of the first `n` slots that lies in bucket `h`, as a word index; 0 if there is none.
  unfoldable pub last : ℕ → ℕ → ℕ
  last h zero = 0
  last h (suc s) = if in_bucket h s then slot mask s else last h s

  -- The newest of the first `n` slots that is live and has the key `k`.
  unfoldable pub seek : ℕ → ℕ → Option ℕ
  seek k zero = none
  seek k (suc s) = if live s && (key m (slot mask s) == k) then some (slot mask s) else seek k s

  -- The live slots among the first `n`.
  unfoldable pub count_live : ℕ → ℕ
  count_live zero = 0
  count_live (suc s) = if live s then suc (count_live s) else count_live s

  -- Heads and links lead to the newest slot of the bucket, from the end and from each slot on.
  pub record IsLinked (n : ℕ) : Type 0 where
    pub heads : (h : ℕ) → h ≤ mask → m (2 + h) ≡ 2 * last h n
    pub links :
        (s : ℕ)
        → s < n
        → live s ≡ true
        → hash_next m (slot mask s) ≡ 2 * last (bucket mask (key m (slot mask s))) s

  pub last-lt : (h n : ℕ) → last h n < slot mask n
  unfolding last
  last-lt h zero = omega arith
  last-lt h (suc s) = ground (arith, last-lt h s)

  -- The walk along a chain ends, and finds what a search through the slots finds.
  pub find_loop-seek :
      (k n t fuel : ℕ)
      → IsLinked n
      → k ≢ js_uninitialized
      → t ≤ n
      → t < fuel
      → find_loop fuel m k (2 * last (bucket mask k) t) ≡ some (seek k t)
  unfolding find_loop last seek
  find_loop-seek k n t zero w ne below enough = absurd (omega arith)
  find_loop-seek k n zero (suc fuel) w ne below enough = refl
  find_loop-seek k n (suc s) (suc fuel) w ne below enough =
      ground
        (arith, w.links s, find_loop-seek k n s fuel w ne, find_loop-seek k n s (suc fuel) w ne)
