-- ===== src/Array/Examples.antt =====
-- JS arrays on concrete inputs.
use mquickjs.Base.{
  ℕ, ◌+◌, ◌≡◌, refl, ◌≢◌, ◌⊎◌, bit_and, true, false, none, some, [], ◌∷◌, ◌++◌, arith, get_or,
}
use mquickjs.Value.{js_undefined}
use mquickjs.Props.Create.{Memory}
use mquickjs.Props.Delete.{flag_sealed, flag_frozen}
use mquickjs.Array.Resize.{ResizeOutcome, js_array_resize-elements}
use mquickjs.Array.{
  sized, js_array_resize, js_array_reverse, Array, taken, not_removable, js_array_push,
  js_array_pop, js_array_shift,
}
use mquickjs.Lock.{has_flag}
use mquickjs.Array.Reverse.{reversed, js_array_reverse-elements}
use mquickjs.Array.Push.{PushOutcome, js_array_push-elements}
use mquickjs.Array.Laws.{IsArray, elements, js_array_pop-elements, js_array_shift-elements}

abbrev generous : Memory
generous = record { grants = λ _. true; junk = λ _. 0 }

abbrev two : Array
two = record {
  obj_flags = 1;
  tab = some (record { size = 3; arr = λ i. get_or (20 ∷ 40 ∷ 11 ∷ []) i 0 });
  len = 2;
}

js_array_push-elements_example :
    PushOutcome generous two (60 ∷ 80 ∷ []) true (js_array_push generous two (60 ∷ 80 ∷ []) true)
js_array_push-elements_example =
    js_array_push-elements generous two (60 ∷ 80 ∷ []) true (omega arith)

js_array_pop-elements_example :
    ((bit_and two.obj_flags (flag_sealed + flag_frozen) ≢ 0) × (js_array_pop two ≡ not_removable))
    ⊎ ((bit_and two.obj_flags (flag_sealed + flag_frozen) ≡ 0)
        × (elements two ≡ [])
        × (js_array_pop two ≡ taken two js_undefined))
    ⊎ ((bit_and two.obj_flags (flag_sealed + flag_frozen) ≡ 0)
        × (b : Array) × (x : ℕ) × (js_array_pop two ≡ taken b x)
        × (elements two ≡ elements b ++ (x ∷ []))
        × (b.obj_flags ≡ two.obj_flags))
js_array_pop-elements_example = js_array_pop-elements two

js_array_shift-elements_example :
    ((bit_and two.obj_flags (flag_sealed + flag_frozen) ≢ 0) × (js_array_shift two ≡ not_removable))
    ⊎ ((bit_and two.obj_flags (flag_sealed + flag_frozen) ≡ 0)
        × (elements two ≡ [])
        × (js_array_shift two ≡ taken two js_undefined))
    ⊎ ((bit_and two.obj_flags (flag_sealed + flag_frozen) ≡ 0)
        × (b : Array) × (x : ℕ) × (js_array_shift two ≡ taken b x)
        × (elements two ≡ x ∷ elements b)
        × (b.obj_flags ≡ two.obj_flags))
js_array_shift-elements_example = js_array_shift-elements two (omega arith)

js_array_resize-elements_example :
    ResizeOutcome generous two 5 (js_array_resize generous two (some 5))
js_array_resize-elements_example = js_array_resize-elements generous two 5 (omega arith)

abbrev frozen_four : Array
frozen_four = record {
  obj_flags = 6;
  tab = some (record { size = 4; arr = λ i. get_or (20 ∷ 40 ∷ 60 ∷ 80 ∷ []) i 0 });
  len = 4;
}

-- The length of a frozen array can be set.
frozen_cut :
    js_array_resize generous frozen_four (some 0)
    ≡ sized (record frozen_four { len = 0; tab = none })
unfolding js_array_resize
frozen_cut = refl

js_array_reverse-elements_example :
    ((has_flag two.obj_flags flag_frozen ≡ true) × (js_array_reverse two ≡ none))
    ⊎ ((has_flag two.obj_flags flag_frozen ≡ false)
        × (b : Array) × (js_array_reverse two ≡ some b)
        × IsArray b
        × (elements b ≡ reversed (elements two))
        × (b.obj_flags ≡ two.obj_flags))
js_array_reverse-elements_example = js_array_reverse-elements two (omega arith)
