-- ===== src/Lock/Examples.antt =====
-- The locks on a concrete object.
use mquickjs.Base.{◌≡◌, refl, inl, true, false, some, arith}
use mquickjs.Props.Compact.{empty_props}
use mquickjs.Props.Create.{Memory}
use mquickjs.Props.Delete.{Object, sealed_object, js_delete_property}
use mquickjs.Lock.{
  js_object_prevent_extensions, js_object_seal, js_object_freeze, js_object_is_extensible,
  js_object_is_sealed, js_object_is_frozen,
}
use mquickjs.Lock.Laws.{
  js_object_freeze-js_object_is_frozen, js_object_is_frozen-js_object_is_sealed,
  js_delete_property-IsLockedFrom,
}

abbrev fresh : Object
fresh = record { class_id = 0; obj_flags = 1; props = empty_props }

abbrev cold : Object
cold = record { class_id = 1; obj_flags = 14; props = empty_props }

abbrev shut : Object
shut = record { class_id = 0; obj_flags = 2; props = empty_props }

-- Without extension an object with no property is sealed and frozen.
bare : js_object_is_frozen (js_object_prevent_extensions (some fresh)) ≡ true
unfolding js_object_is_frozen js_object_prevent_extensions
bare = refl

js_object_freeze-js_object_is_frozen_example :
    (js_object_is_frozen (js_object_freeze (some fresh)) ≡ true)
    × (js_object_is_sealed (js_object_freeze (some fresh)) ≡ true)
    × (js_object_is_extensible (js_object_freeze (some fresh)) ≡ false)
    × (js_object_is_sealed (js_object_seal (some fresh)) ≡ true)
    × (js_object_is_extensible (js_object_seal (some fresh)) ≡ false)
    × (js_object_is_extensible (js_object_prevent_extensions (some fresh)) ≡ false)
js_object_freeze-js_object_is_frozen_example =
    js_object_freeze-js_object_is_frozen fresh (omega arith)

cold_frozen : js_object_is_frozen (some cold) ≡ true
unfolding js_object_is_frozen
cold_frozen = refl

js_object_is_frozen-js_object_is_sealed_example :
    (js_object_is_sealed (some cold) ≡ true)
    × (js_object_is_extensible (some cold) ≡ false)
    × (js_object_is_frozen (js_object_prevent_extensions (some cold)) ≡ true)
    × (js_object_is_frozen (js_object_seal (some cold)) ≡ true)
    × (js_object_is_frozen (js_object_freeze (some cold)) ≡ true)
js_object_is_frozen-js_object_is_sealed_example =
    js_object_is_frozen-js_object_is_sealed cold (omega arith) cold_frozen

abbrev generous : Memory
generous = record { grants = λ _. true; junk = λ _. 0 }

sealed_fresh : js_object_seal (some fresh) ≡ some shut
unfolding js_object_seal
sealed_fresh = refl

js_delete_property-IsLockedFrom_example :
    js_delete_property generous (λ v. v) shut 64 ≡ sealed_object
js_delete_property-IsLockedFrom_example =
    js_delete_property-IsLockedFrom generous (λ v. v) fresh shut 64 (omega arith) (inl sealed_fresh)
