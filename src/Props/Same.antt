-- ===== src/Props/Same.antt =====
-- Two arrays that hold the same properties in the same slots; only heads and links may differ.
use mquickjs.Base.{
  ℕ, zero, suc, ◌+◌, ◌≤◌, ◌<◌, ◌≡◌, refl, ◌∙◌, false, arith, ◌==◌, if◌then◌else◌, List, [], ◌∷◌,
  Option, some, none, length,
}
use mquickjs.Props.{Words, hash_next, prop_type, bucket, slot}
use mquickjs.Props.Chain.{live, last, seek, count_live, IsLinked}

-- `m'` holds the same counts and the same keys, values and types in the slots as `m`.
pub record SameProps (mask : ℕ) (m m' : Words) : Type 0 where
  pub counts : (m' 0 ≡ m 0) × (m' 1 ≡ m 1)
  pub keys : (s : ℕ) → m' (slot mask s) ≡ m (slot mask s)
  pub values : (s : ℕ) → m' (slot mask s + 1) ≡ m (slot mask s + 1)
  pub types : (s : ℕ) → prop_type m' (slot mask s) ≡ prop_type m (slot mask s)
  pub dead_links :
      (s : ℕ) → live m mask s ≡ false → hash_next m' (slot mask s) ≡ hash_next m (slot mask s)

module _ (mask : ℕ) where
  -- What is said of the first `n` slots depends on their keys only.
  pub last-cong :
      (m m' : Words) (h n : ℕ)
      → ((s : ℕ) → s < n → m' (slot mask s) ≡ m (slot mask s))
      → last m' mask h n ≡ last m mask h n
  unfolding last
  last-cong m m' h zero same = refl
  last-cong m m' h (suc s) same =
      ground (arith, same s, last-cong m m' h s (λ t l. same t (omega arith)))

  pub seek-cong :
      (m m' : Words) (k n : ℕ)
      → ((s : ℕ) → s < n → m' (slot mask s) ≡ m (slot mask s))
      → seek m' mask k n ≡ seek m mask k n
  unfolding seek
  seek-cong m m' k zero same = refl
  seek-cong m m' k (suc s) same =
      ground (arith, same s, seek-cong m m' k s (λ t l. same t (omega arith)))

  pub count_live-cong :
      (m m' : Words) (n : ℕ)
      → ((s : ℕ) → s < n → m' (slot mask s) ≡ m (slot mask s))
      → count_live m' mask n ≡ count_live m mask n
  unfolding count_live
  count_live-cong m m' zero same = refl
  count_live-cong m m' (suc s) same =
      ground (arith, same s, count_live-cong m m' s (λ t l. same t (omega arith)))

  pub same_itself : (m : Words) → SameProps mask m m
  same_itself m = record {
    counts = (refl, refl);
    keys = λ s. refl;
    values = λ s. refl;
    types = λ s. refl;
    dead_links = λ s d. refl;
  }

  pub same_through : (a b c : Words) → SameProps mask a b → SameProps mask b c → SameProps mask a c
  same_through a b c p q = record {
    counts = (q.counts.0 ∙ p.counts.0, q.counts.1 ∙ p.counts.1);
    keys = λ s. q.keys s ∙ p.keys s;
    values = λ s. q.values s ∙ p.values s;
    types = λ s. q.types s ∙ p.types s;
    dead_links = λ s d. q.dead_links s (rw p.keys d) ∙ p.dead_links s d;
  }

-- What a property stands for.
pub record Entry : Type 0 where
  pub key : ℕ
  pub value : ℕ
  pub kind : ℕ

-- The property at word `i`.
abbrev pub entry : Words → ℕ → Entry
entry m i = record { key = m i; value = m (i + 1); kind = prop_type m i }

-- The properties in the first `n` slots, the newest first.
unfoldable pub entries : Words → ℕ → ℕ → List Entry
entries m mask zero = []
entries m mask (suc s) =
    if live m mask s then entry m (slot mask s) ∷ entries m mask s else entries m mask s

pub length-entries : (m : Words) (mask n : ℕ) → length (entries m mask n) ≡ count_live m mask n
unfolding entries count_live
length-entries m mask zero = refl
length-entries m mask (suc n) = ground (arith, length-entries m mask n)

-- The newest property with the key `k`.
unfoldable pub lookup : ℕ → List Entry → Option Entry
lookup k [] = none
lookup k (e ∷ es) = if e.key == k then some e else lookup k es

abbrev pub map_entry : Words → Option ℕ → Option Entry
map_entry m none = none
map_entry m (some i) = some (entry m i)

pub seek-lookup :
    (m : Words) (mask k n : ℕ) → map_entry m (seek m mask k n) ≡ lookup k (entries m mask n)
unfolding entries lookup seek
seek-lookup m mask k zero = refl
seek-lookup m mask k (suc s) = ground (arith, seek-lookup m mask k s)

-- The same keys in the slots of another layout give the same count.
pub count_live-moved :
    (m m' : Words) (mask mask' n : ℕ)
    → ((s : ℕ) → s < n → m' (slot mask' s) ≡ m (slot mask s))
    → count_live m' mask' n ≡ count_live m mask n
unfolding count_live
count_live-moved m m' mask mask' zero same = refl
count_live-moved m m' mask mask' (suc s) same =
    ground (arith, same s, count_live-moved m m' mask mask' s (λ t l. same t (omega arith)))

-- The same slots give the same list.
pub entries-cong :
    (m m' : Words) (mask mask' n : ℕ)
    → ((s : ℕ) → s < n → entry m' (slot mask' s) ≡ entry m (slot mask s))
    → entries m' mask' n ≡ entries m mask n
unfolding entries
entries-cong m m' mask mask' zero same = refl
entries-cong m m' mask mask' (suc s) same =
    ground
      (arith, same s (omega arith), entries-cong m m' mask mask' s (λ t l. same t (omega arith)))

pub entries-SameProps :
    (m m' : Words) (mask n : ℕ) → SameProps mask m m' → entries m' mask n ≡ entries m mask n
entries-SameProps m m' mask n p =
    entries-cong m m' mask mask n (λ s l. ground (arith, p.keys s, p.values s, p.types s))

-- The chains through the first `n` slots depend on the words of the heads and of those slots only.
module _ (mask n : ℕ) (m m' : Words) (same : (i : ℕ) → 2 ≤ i → i < slot mask n → m' i ≡ m i) where
  same_keys : (s : ℕ) → s < n → m' (slot mask s) ≡ m (slot mask s)
  same_keys s l = same (slot mask s) (omega arith) (omega arith)

  pub IsLinked-cong : IsLinked m mask n → IsLinked m' mask n
  IsLinked-cong w = record {
    heads = λ h le. ground (arith, same (2 + h), w.heads h le, last-cong mask m m' h n same_keys);
    links = λ s l a. ground (
      arith,
      same_keys s l,
      same (slot mask s + 2),
      w.links s l,
      last-cong mask m m' (bucket mask (m (slot mask s))) s (λ t b. same_keys t (omega arith)),
    );
  }

  pub entries_of_words : entries m' mask n ≡ entries m mask n
  entries_of_words =
      entries-cong m m' mask mask n
        (λ s l. ground (arith, same_keys s l, same (slot mask s + 1), same (slot mask s + 2)))

  pub count_of_words : count_live m' mask n ≡ count_live m mask n
  count_of_words = count_live-cong mask m m' n same_keys
