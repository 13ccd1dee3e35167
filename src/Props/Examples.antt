-- ===== src/Props/Examples.antt =====
-- Concrete property tables: runs of their operations, and the theorems on them.
use mquickjs.Base.{
  ℕ, zero, suc, ◌+◌, ◌-◌, ◌*◌, ◌%◌, ◌^◌, ◌≤◌, ◌<◌, ◌≡◌, refl, ◌⊎◌, true, false, Option, none, some,
  List, [], ◌∷◌, arith, get_or,
}
use mquickjs.Props.{
  Props, key, hash_mask, slots, slot, bucket, hash_next, hash_prop, find_own_property,
  js_rehash_props, get_first_free,
}
use mquickjs.Props.Chain.{live, last, count_live}
use mquickjs.Props.Same.{Entry, entries, lookup, map_entry}
use mquickjs.Props.Table.{
  IsShape, IsTable, contents, find_own_property-lookup, js_rehash_props-IsTable,
}
use mquickjs.Props.Create.{
  Memory, resized, js_alloc_props, js_create_property, get_prop_hash_size_log2,
}
use mquickjs.Props.Create.Place.{IsReady}
use mquickjs.Props.Create.Extend.{resized_lem}
use mquickjs.Props.Create.Fresh.{Refused, Granted, table_size, js_alloc_props-IsTable}
use mquickjs.Props.Create.Laws.{Created, js_create_property-IsTable}
use mquickjs.Props.Compact.{js_compact_props}
use mquickjs.Props.Compact.Laws.{Compacted, js_compact_props-IsTable}
use mquickjs.Props.Delete.{Object, js_delete_property}
use mquickjs.Props.Delete.Laws.{Deleted, js_delete_property-IsTable}

abbrev generous : Memory
generous = record { grants = λ _. true; junk = λ _. 0 }

-- Two heads and three slots: the properties 64 and 80 in one chain, and a deleted one between them.
abbrev holed : Props
holed = record {
  size = 13;
  arr = λ i. get_or (4 ∷ 2 ∷ 20 ∷ 0 ∷ 64 ∷ 1002 ∷ 0 ∷ 23 ∷ 11 ∷ 0 ∷ 80 ∷ 1004 ∷ 8 ∷ []) i 0;
  in_rom = false;
  is_empty = false;
}

abbrev holed_entries : List Entry
holed_entries =
    record { key = 80; value = 1004; kind = 0 } ∷ record { key = 64; value = 1002; kind = 0 } ∷ []

holed_list : contents holed 3 ≡ holed_entries
unfolding entries
holed_list = refl

holed-IsShape : IsShape holed 3
unfolding count_live
holed-IsShape = record {
  counted = refl;
  aligned = refl;
  heads_alone = λ e. absurd (omega (arith, e));
  fits = omega arith;
  small = omega arith;
  blank = λ b. cc b;
}

holed_heads : (h : ℕ) → h ≤ 1 → holed.arr (2 + h) ≡ 2 * last holed.arr 1 h 3
unfolding last hash_prop
holed_heads zero le = refl
holed_heads (suc zero) le = refl
holed_heads (suc (suc h)) le = absurd (omega arith)

holed_links :
    (s : ℕ)
    → s < 3
    → live holed.arr 1 s ≡ true
    → hash_next holed.arr (slot 1 s) ≡ 2 * last holed.arr 1 (bucket 1 (key holed.arr (slot 1 s))) s
unfolding last hash_prop
holed_links zero l a = refl
holed_links (suc zero) l a = absurd (cc a)
holed_links (suc (suc zero)) l a = refl
holed_links (suc (suc (suc s))) l a = absurd (omega arith)

holed-IsTable : IsTable holed 3
holed-IsTable = record {
  shape = holed-IsShape;
  linked = record { heads = holed_heads; links = holed_links };
  free = unfold get_first_free in refl;
  room = λ e. cc e;
}

js_create_property-IsTable_example :
    Created generous holed 3 72 (js_create_property generous holed 72)
js_create_property-IsTable_example =
    js_create_property-IsTable generous 72 holed-IsTable (omega arith)

abbrev holder : Object
holder = record { class_id = 0; obj_flags = 1; props = holed }

js_delete_property-IsTable_example :
    Deleted holder 3 64 (js_delete_property generous (λ v. v) holder 64)
js_delete_property-IsTable_example =
    js_delete_property-IsTable generous (λ v. v) holder 64 holed-IsTable refl

find_own_property-lookup_example :
    (r : Option ℕ) × (find_own_property holed 64 ≡ some r)
    × (map_entry holed.arr r ≡ lookup 64 (contents holed 3))
find_own_property-lookup_example = find_own_property-lookup 64 holed-IsTable (omega arith)

js_rehash_props-IsTable_example :
    (p : Props) × (js_rehash_props holed false ≡ some p)
    × IsTable p 3
    × (contents p 3 ≡ contents holed 3)
    × (p.size ≡ 13)
    × (p.in_rom ≡ false)
js_rehash_props-IsTable_example =
    js_rehash_props-IsTable false holed-IsShape holed-IsTable.free holed-IsTable.room refl refl

js_compact_props-IsTable_example : Compacted holed 3 (js_compact_props holed)
js_compact_props-IsTable_example = js_compact_props-IsTable holed-IsTable refl

js_alloc_props-IsTable_example :
    ((js_alloc_props generous 3 ≡ none) × Refused generous (table_size 3))
    ⊎ ((q : Props) × (js_alloc_props generous 3 ≡ some q)
        × Granted generous (table_size 3)
        × (q.size ≡ table_size 3)
        × IsTable q 0
        × IsReady q 0
        × (slots q.size (hash_mask q.arr) ≡ 3)
        × (hash_mask q.arr + 1 ≡ 2 ^ get_prop_hash_size_log2 3))
js_alloc_props-IsTable_example = js_alloc_props-IsTable generous 3 (omega arith)

resized_lem_example : let size = resized 13 16 4 in (16 ≤ size) × ((size - 4) % 3 ≡ 0)
resized_lem_example = resized_lem 13 16 4 (omega arith) (omega arith) (omega arith) refl
