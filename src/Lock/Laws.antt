-- ===== src/Lock/Laws.antt =====
-- What the locks of an object promise: the tests after the calls, and the calls that they refuse.
use mquickjs.Base.{
  ℕ, zero, suc, ◌<◌, ◌≡◌, refl, ◌⊎◌, inl, inr, bit_and, bit_or, Bool, true, false, not, ◌&&◌, ◌||◌,
  some, arith,
}
use native.Mathlib.Decide.{ℕ_discrete}
use mquickjs.Props.Create.{Memory}
use mquickjs.Props.Delete.{Object, sealed_object, flag_sealed, flag_frozen, js_delete_property}
use mquickjs.Props.Delete.Laws.{locked_out}
use mquickjs.Lock.{
  flag_extensible, clear_flag, has_flag, js_object_prevent_extensions, js_object_seal,
  js_object_freeze, js_object_is_extensible, js_object_is_sealed, js_object_is_frozen,
}

-- A test that holds for all numbers below `n`.
unfoldable all_below : ℕ → (ℕ → Bool) → Bool
all_below zero f = true
all_below (suc n) f = f n && all_below n f

by_table : (f : ℕ → Bool) (n i : ℕ) → all_below n f ≡ true → i < n → f i ≡ true
unfolding all_below
by_table f zero i e l = absurd (omega arith)
by_table f (suc n) i e l = elim (ℕ_discrete i n) [
  | yes same ↦ rw same (ground arith)
  | no ne ↦ by_table f n i (ground arith) (omega arith)
]

abbrev prevented : ℕ → ℕ
prevented n = clear_flag n flag_extensible

abbrev sealed : ℕ → ℕ
sealed n = bit_or (prevented n) flag_sealed

abbrev frozen : ℕ → ℕ
frozen n = bit_or (prevented n) (bit_or flag_sealed flag_frozen)

abbrev locked : ℕ → ℕ
locked n = bit_and n (bit_or flag_sealed flag_frozen)

abbrev is_open : ℕ → Bool
is_open n = has_flag n flag_extensible

abbrev is_frozen : ℕ → Bool
is_frozen n = has_flag n flag_frozen

abbrev is_locked : ℕ → Bool
is_locked n = has_flag n (bit_or flag_sealed flag_frozen)

-- What the flags say after a call, on the 4 bits of the field.
abbrev after_calls : ℕ → Bool
after_calls n =
    not (is_open (prevented n))
    && not (is_open (sealed n))
    && not (is_open (frozen n))
    && is_locked (sealed n)
    && is_locked (frozen n)
    && is_frozen (frozen n)

abbrev kept_flags : ℕ → Bool
kept_flags n =
    (not (is_frozen n) || is_locked n && is_frozen (prevented n) && is_frozen (sealed n))
    && (not (is_locked n) || is_locked (prevented n))

after_calls_hold : (n : ℕ) → n < 16 → after_calls n ≡ true
unfolding all_below
after_calls_hold n l = by_table after_calls 16 n refl l

kept_flags_hold : (n : ℕ) → n < 16 → kept_flags n ≡ true
unfolding all_below
kept_flags_hold n l = by_table kept_flags 16 n refl l

-- After Object.freeze an object is not extensible, sealed and frozen; after Object.seal it is not
-- extensible and sealed; after Object.preventExtensions it is not extensible.
pub js_object_freeze-js_object_is_frozen :
    (o : Object)
    → o.obj_flags < 16
    → (js_object_is_frozen (js_object_freeze (some o)) ≡ true)
      × (js_object_is_sealed (js_object_freeze (some o)) ≡ true)
      × (js_object_is_extensible (js_object_freeze (some o)) ≡ false)
      × (js_object_is_sealed (js_object_seal (some o)) ≡ true)
      × (js_object_is_extensible (js_object_seal (some o)) ≡ false)
      × (js_object_is_extensible (js_object_prevent_extensions (some o)) ≡ false)
unfolding js_object_freeze js_object_seal js_object_prevent_extensions js_object_is_frozen
    js_object_is_sealed js_object_is_extensible
js_object_freeze-js_object_is_frozen o l =
    let h = after_calls_hold o.obj_flags l in
    (
      ground (arith, h),
      ground (arith, h),
      ground (arith, h),
      ground (arith, h),
      ground (arith, h),
      ground (arith, h),
    )

-- A frozen object is sealed and not extensible, and it stays frozen through Object.preventExtensions,
-- Object.seal and Object.freeze.
pub js_object_is_frozen-js_object_is_sealed :
    (o : Object)
    → o.obj_flags < 16
    → js_object_is_frozen (some o) ≡ true
    → (js_object_is_sealed (some o) ≡ true)
      × (js_object_is_extensible (some o) ≡ false)
      × (js_object_is_frozen (js_object_prevent_extensions (some o)) ≡ true)
      × (js_object_is_frozen (js_object_seal (some o)) ≡ true)
      × (js_object_is_frozen (js_object_freeze (some o)) ≡ true)
unfolding js_object_freeze js_object_seal js_object_prevent_extensions js_object_is_frozen
    js_object_is_sealed js_object_is_extensible
js_object_is_frozen-js_object_is_sealed o l e =
    let h = kept_flags_hold o.obj_flags l in
    let a = after_calls_hold o.obj_flags l in
    (
      ground (arith, h, e),
      ground (arith, h, e),
      ground (arith, h, a, e),
      ground (arith, h, a, e),
      ground (arith, a),
    )

-- The object after Object.seal or Object.freeze.
abbrev pub IsLockedFrom : Object → Object → Type 0
IsLockedFrom o o' = (js_object_seal (some o) ≡ some o') ⊎ (js_object_freeze (some o) ≡ some o')

-- After Object.seal or Object.freeze JS_DeleteProperty refuses every key.
pub js_delete_property-IsLockedFrom :
    (mem : Memory) (get : ℕ → ℕ) (o o' : Object) (k : ℕ)
    → o.obj_flags < 16
    → IsLockedFrom o o'
    → js_delete_property mem get o' k ≡ sealed_object
unfolding js_object_freeze js_object_seal
js_delete_property-IsLockedFrom mem get o o' k l (inl e) =
    locked_out mem get o' k (λ z. absurd (ground (arith, after_calls_hold o.obj_flags l, e, z)))
js_delete_property-IsLockedFrom mem get o o' k l (inr e) =
    locked_out mem get o' k (λ z. absurd (ground (arith, after_calls_hold o.obj_flags l, e, z)))
