-- ===== src/Gc/Blocks.antt =====
-- The slots of a block that may hold pointers, from its header alone, and gc_thread_block.
use mquickjs.Base.{
  ℕ, zero, suc, ◌+◌, ◌-◌, ◌≤◌, ◌≡◌, refl, sym, ap, ◌∙◌, Bool, true, false, ◌&&◌, List, [], ◌∷◌,
  arith, ltb, leb, ◌==◌, if◌then◌else◌,
}
use mathlib.Core.Path.{subst}
use mquickjs.Lock.{class_array}
use mquickjs.Props.{Words}
use mquickjs.Gc.{
  mtag, mtag_object, mtag_value_array, mtag_varref, mtag_function_bytecode, class_id, extra_size,
  size_field, class_c_function, class_closure, class_regexp, class_error, class_array_buffer,
  class_uint8c_array, class_float64_array,
}
use mquickjs.Gc.Thread.{
  Ram, gc_thread_pointer, thread_slots, var_refs_end, array_end, thread_class,
  thread_function_bytecode, gc_thread_block,
}
use mquickjs.Gc.Compact.{range, thread_roots}

unfoldable pub class_slots : ℕ → ℕ → List ℕ
class_slots h b =
    let c = class_id h in
    if c == class_closure
    then (b + 3) ∷ range (b + 4) (extra_size h - 1)
    else if c == class_c_function
    then if ltb 1 (extra_size h) then (b + 4) ∷ [] else []
    else if c == class_array
    then (b + 3) ∷ []
    else if c == class_error
    then (b + 3) ∷ (b + 4) ∷ []
    else if c == class_array_buffer
    then (b + 3) ∷ []
    else if leb class_uint8c_array c && leb c class_float64_array
    then (b + 3) ∷ []
    else if c == class_regexp
    then (b + 3) ∷ (b + 4) ∷ []
    else []

-- The slots that gc_thread_block threads in the block at `b` with the header `h`; a compartment keeps two more
-- references, which it leaves out.
unfoldable pub threaded_slots : ℕ → ℕ → List ℕ
unfolding class_slots
threaded_slots h b =
    if mtag h == mtag_object
    then (b + 1) ∷ (b + 2) ∷ class_slots h b
    else if mtag h == mtag_value_array
    then range (b + 1) (size_field h)
    else if mtag h == mtag_varref
    then (b + 1) ∷ []
    else if mtag h == mtag_function_bytecode
    then (b + 1) ∷ (b + 2) ∷ (b + 3) ∷ (b + 4) ∷ (b + 5) ∷ (b + 7) ∷ (b + 8) ∷ []
    else []

ltb-stop : (o l : ℕ) → 0 ≡ l - o → ltb o l ≡ false
ltb-stop o l e = ground arith

ltb-go : (o n l : ℕ) → suc n ≡ l - o → ltb o l ≡ true
ltb-go o n l e = ground arith

module _ (ram : Ram) (b : ℕ) where
  -- None of the slots in the list changes the header of `b` when it is threaded.
  unfoldable pub Steady : Words → List ℕ → Type 0
  Steady m [] = Unit {0}
  Steady m (x ∷ xs) = (gc_thread_pointer ram m x b ≡ m b) × Steady (gc_thread_pointer ram m x) xs

  branch :
      (m : Words) (c : Bool) (f g : Words) (xs ys : List ℕ)
      → (Steady m xs → f ≡ thread_roots ram m xs)
      → (Steady m ys → g ≡ thread_roots ram m ys)
      → Steady m (if c then xs else ys)
      → (if c then f else g) ≡ thread_roots ram m (if c then xs else ys)
  branch m true f g xs ys first second = first
  branch m false f g xs ys first second = second

  thread_slots-range :
      (limit : ℕ → ℕ) (fuel : ℕ) (m : Words) (o n : ℕ)
      → n ≡ limit (m b) - o
      → n ≤ fuel
      → Steady m (range (b + o) n)
      → thread_slots ram limit fuel m b o ≡ thread_roots ram m (range (b + o) n)
  unfolding Steady thread_slots range thread_roots
  thread_slots-range limit zero m o zero count enough steady = refl
  thread_slots-range limit zero m o (suc n) count enough steady = absurd (omega arith)
  thread_slots-range limit (suc fuel) m o zero count enough steady =
      rw (ltb-stop o (limit (m b)) count) refl
  thread_slots-range limit (suc fuel) m o (suc n) count enough (same, steady) =
      let at : b + (o + 1) ≡ suc (b + o) = omega arith in
      let m' = gc_thread_pointer ram m (b + o) in
      let left : n ≡ limit (m' b) - (o + 1) = rw same (omega arith) in
      let rest = thread_slots-range limit fuel m' (o + 1) n left (omega arith) (rw at steady) in
      rw (ltb-go o n (limit (m b)) count) (rest ∙ ap (λ p. thread_roots ram m' (range p n)) at)

  thread_class-slots :
      (m : Words)
      → Steady m (class_slots (m b) b)
      → thread_class ram m b ≡ thread_roots ram m (class_slots (m b) b)
  unfolding Steady thread_class class_slots thread_roots
  thread_class-slots m =
      let c = class_id (m b) in
      branch m (c == class_closure) _ _ _ _
        (λ s.
          let m' = gc_thread_pointer ram m (b + 3) in
          let count : extra_size (m b) - 1 ≡ var_refs_end ram (m' b) - 4 = rw s.0 (omega arith) in
          let fuel : extra_size (m b) - 1 ≤ extra_size (m' b) = rw s.0 (omega arith) in
          thread_slots-range (var_refs_end ram) (extra_size (m' b)) m' 4 (extra_size (m b) - 1)
            count fuel s.1)
        (branch m (c == class_c_function) _ _ _ _
          (branch m (ltb 1 (extra_size (m b))) _ _ _ _ (λ s. refl) (λ s. refl))
          (branch m (c == class_array) _ _ _ _ (λ s. refl)
            (branch m (c == class_error) _ _ _ _ (λ s. refl)
              (branch m (c == class_array_buffer) _ _ _ _ (λ s. refl)
                (branch m (leb class_uint8c_array c && leb c class_float64_array) _ _ _ _
                  (λ s. refl) (branch m (c == class_regexp) _ _ _ _ (λ s. refl) (λ s. refl)))))))

  pub gc_thread_block-slots :
      (m : Words)
      → Steady m (threaded_slots (m b) b)
      → gc_thread_block ram m b ≡ thread_roots ram m (threaded_slots (m b) b)
  unfolding Steady gc_thread_block thread_function_bytecode threaded_slots thread_roots
  gc_thread_block-slots m =
      branch m (mtag (m b) == mtag_object) _ _ _ _
        (λ s.
          let m' = gc_thread_pointer ram m (b + 1) in
          let m'' = gc_thread_pointer ram m' (b + 2) in
          let same : m'' b ≡ m b = s.1.0 ∙ s.0 in
          thread_class-slots m'' (subst (λ h. Steady m'' (class_slots h b)) (sym same) s.1.1)
          ∙ ap (λ h. thread_roots ram m'' (class_slots h b)) same)
        (branch m (mtag (m b) == mtag_value_array) _ _ _ _
          (λ s.
            thread_slots-range (array_end ram) (size_field (m b)) m 1 (size_field (m b))
              (omega arith) (omega arith) s)
          (branch m (mtag (m b) == mtag_varref) _ _ _ _ (λ s. refl)
            (branch m (mtag (m b) == mtag_function_bytecode) _ _ _ _ (λ s. refl) (λ s. refl))))
