-- ===== src/Gc/Graph.antt =====
-- The heap that a collection starts from: its blocks, the slots that hold references, and the place that
-- each block gets.
use mquickjs.Base.{
  ℕ, ◌+◌, ◌<◌, ◌≡◌, Bool, true, false, ◌&&◌, ◌||◌, List, [], ◌∷◌, ◌++◌, ltb, leb, ◌==◌,
  if◌then◌else◌,
}
use mquickjs.Props.{Words}
use mquickjs.Gc.{is_ptr, value_from_ptr, value_to_ptr, mtag, mtag_free, get_mblock_size}
use mquickjs.Gc.Thread.{Ram, in_ram}
use mquickjs.Gc.Chain.{among, NoDup}
use mquickjs.Gc.Blocks.{threaded_slots}

-- The slots of the blocks that are not free which gc_thread_block threads.
unfoldable pub heap_slots : Words → List ℕ → List ℕ
heap_slots h [] = []
heap_slots h (b ∷ bs) =
    if mtag (h b) == mtag_free then heap_slots h bs else threaded_slots (h b) b ++ heap_slots h bs

-- The blocks `bs` fill the words from `p` up to `heap_free`.
unfoldable pub Tiles : Words → ℕ → List ℕ → ℕ → Type 0
Tiles h p [] heap_free = p ≡ heap_free
Tiles h p (b ∷ bs) heap_free =
    (b ≡ p) × (0 < get_mblock_size (h b)) × Tiles h (p + get_mblock_size (h b)) bs heap_free

unfoldable pub live_blocks : Words → List ℕ → List ℕ
live_blocks h [] = []
live_blocks h (b ∷ bs) = if mtag (h b) == mtag_free then live_blocks h bs else b ∷ live_blocks h bs

-- The number of words of the blocks that stay.
unfoldable pub live_size : Words → List ℕ → ℕ
live_size h [] = 0
live_size h (b ∷ bs) =
    if mtag (h b) == mtag_free then live_size h bs else get_mblock_size (h b) + live_size h bs

-- The place of the block `c` when the blocks that stay are moved together, from `new_ptr` on.
unfoldable pub new_place : Words → List ℕ → ℕ → ℕ → ℕ
new_place h [] new_ptr c = 0
new_place h (b ∷ bs) new_ptr c =
    if c == b
    then new_ptr
    else new_place h bs
        (if mtag (h b) == mtag_free then new_ptr else new_ptr + get_mblock_size (h b)) c

abbrev pub is_reference : Ram → ℕ → Bool
is_reference ram v = is_ptr v && in_ram ram (value_to_ptr v)

unfoldable pub relocate : Ram → (ℕ → ℕ) → ℕ → ℕ
relocate ram place v = if is_reference ram v then value_from_ptr (place (value_to_ptr v)) else v

-- The word at `x` once the references in `slots` follow their blocks.
unfoldable pub relocated : Ram → (ℕ → ℕ) → List ℕ → Words → ℕ → ℕ
unfolding relocate
relocated ram place slots h x = if among x slots then relocate ram place (h x) else h x

-- A heap between two collections: the blocks tile it, their headers are no pointers, the slots of a block that
-- gc_thread_block threads stand behind its header and are distinct, and each one refers to another block of the heap.
pub record WellFormed (ram : Ram) (roots : List ℕ) (heap_base heap_free : ℕ) (bs : List ℕ)
    (h : Words) : Type 0 where
  pub tiles : Tiles h heap_base bs heap_free
  pub headers : (b : ℕ) → among b bs ≡ true → is_ptr (h b) ≡ false
  pub slots :
      (b x : ℕ)
      → among b bs ≡ true
      → (mtag (h b) == mtag_free) ≡ false
      → among x (threaded_slots (h b) b) ≡ true
      → (b < x) × (x < b + get_mblock_size (h b))
  pub no_loop :
      (b x : ℕ)
      → among b bs ≡ true
      → (mtag (h b) == mtag_free) ≡ false
      → among x (threaded_slots (h b) b) ≡ true
      → (h x == value_from_ptr b) ≡ false
  pub targets :
      (x : ℕ)
      → among x (roots ++ heap_slots h bs) ≡ true
      → is_reference ram (h x) ≡ true
      → among (value_to_ptr (h x)) bs ≡ true
  pub outside : (x : ℕ) → among x roots ≡ true → (ltb x heap_base || leb heap_free x) ≡ true
  pub nodup : NoDup (roots ++ heap_slots h bs)
