-- ===== src/Lib.antt =====
-- mquickjs: a small JavaScript engine in C. This library models parts of it and proves what they promise.
--
-- The parts and their files:
--   * Base: Boolean tests on numbers (Base/Tests), lists with native lengths (Base/Lists), and masks and
--     joins of bit fields as division and remainder (Base/Bits), ranges of words and memmove (Base/Slices).
--   * Utf8 (cutils.c, cutils.h): unicode_to_utf8, unicode_from_utf8 and utf8_get on lists of bytes. Utf8/Laws
--     holds the round trips, Utf8/Shape the bytes of one code point.
--   * Value (mquickjs.h): the words of the special values and of short integers, for JSW = 8.
--   * Props (mquickjs.c): the property tables of objects. A table is a JSValueArray: an array of words, here
--     a function from the index to the word, and its size. Word 0 is twice the number of properties, word 1
--     twice the hash mask, then come the heads of the hash chains and slots of three words. The C pointer to a
--     JSProperty is the index of its first word.
--       Props: find_own_property, js_rehash_props, get_first_free
--       Props/Create: js_alloc_value_array, js_resize_value_array2, get_prop_hash_size_log2, js_alloc_props,
--         js_create_property
--       Props/Compact: js_compact_props
--       Props/Delete: js_update_props, JS_DeleteProperty from the test of the flags on
--     Props/Chain says what the chains are (each link leads to the next older live slot of its bucket),
--     Props/Same what a table stands for (the list of its properties, the newest first), Props/Table when a
--     table is well formed. Props/Rehash and the children of Create, Compact and Delete prove that the
--     operations keep this.
--   * Lock (mquickjs.c): Object.preventExtensions, seal, freeze and isExtensible, isSealed, isFrozen on the
--     flags of an object. Lock/Laws ties them to JS_DeleteProperty.
--   * Array (mquickjs.c): js_array_push (push and unshift), js_array_pop, js_array_shift,
--     js_array_reverse and js_array_resize on an object of class JS_CLASS_ARRAY, whose elements are the first u.array.len words of its value array.
--   * Readline (readline.c, readline.h): the line editor. The buffers are functions from the index to the byte,
--     without an end, memcpy and memmove are Base/Slices.blit, and term_printf adds to a list of what was printed. isspace and
--     get_color are arguments.
--       Readline/Edit: the operations on the command line; Readline/Display: term_update and move_cursor
--       Readline/History: term_up_char, term_down_char, term_hist_add and term_return
--       Readline/Keys: readline_handle_char, readline_handle_byte and readline_start
--     The command line is UTF-8. Readline/Text says when its bytes stand for code points, those before the
--     cursor and those behind it, Readline/Chars and Readline/Spans have the same operations on code points.
--     Readline/Ready says when both the command line and the history are in order, which includes that they
--     lie in their buffers; Readline/Accept and
--     Readline/Handle go through the keys, Readline/Bytes through the bytes of a key, and Readline/Cursor, Readline/Drawn and
--     Readline/Measure are about the cursor on the screen.
--     Readline/Entries says when the bytes of the history stand for a list of entries; Readline/Recall and Readline/Ends go
--     through them, Readline/Enter, Readline/Repeated, Readline/Added and Readline/Return add one. Readline/Frame is about the
--     display.
--   * Shell (mqjs.c): term_get_color, the colors that the shell gives to Readline/Display as its get_color argument.
--     Shell/Color says how far a color holds.
--   * Gc (mquickjs.c, mquickjs_priv.h): the heap as words of 8 bytes, and the garbage collector on it. The C pointer to a
--     block is the index of its first word, which is its header.
--       Gc: the fields of the headers and get_mblock_size
--       Gc/Mark: gc_mark, gc_mark_flush and the marking of gc_mark_all; Gc/Sweep: its last loop. The stack of the marking is
--         a list, whose entries count the words that they take; GcMarkState tells whether a push has left its room.
--       Gc/Thread: gc_thread_pointer, gc_update_threaded_pointers and gc_thread_block; Gc/Compact: gc_compact_heap
--     Gc/Graph says when a heap is well formed and what a block's new place is, Gc/Blocks which slots of a block
--     gc_thread_block threads. Gc/Chain says when memory with threaded pointers stands for memory without, and Gc/Unthread walks the
--     threads. Gc/Staged, Gc/Update and Gc/Slots carry this through the collection, Gc/Threaded and Gc/Pass1 through its first
--     pass, Gc/Settled, Gc/Moved and Gc/Pass2 through its second, and Gc/Relocation and Gc/Compacted put them together.
--     Gc/Tiles and Gc/Count are about lists of blocks and slots, Gc/Swept and Gc/Reset about the sweep. Gc/Marking says when
--     the marked blocks are covered and what is left to do. Gc/Pushed, Gc/MarkedSlots, Gc/Popped, Gc/Flushed, Gc/Room, Gc/Rescan
--     and Gc/Overflow go through the loops of the marking, Gc/Reach says which blocks can be reached, and Gc/Collected is about
--     the marking with the sweep. Gc/References takes the slots that gc_mark_flush marks for the references
--     of a block, which are those that gc_thread_block threads but in a compartment. Gc/Survivors and Gc/Kept put the
--     marking, the sweep and the compaction together.
--
-- How the parts interact: js_create_property grows a full table with js_resize_value_array2, whose allocator
-- is an argument (which blocks it grants, and what fresh memory holds), and rebuilds the chains with
-- js_rehash_props when the number of heads doubles; JS_DeleteProperty ends with js_compact_props, which also
-- ends with js_rehash_props. The sweep takes the marks that the marking left. The garbage collector moves blocks during an allocation; since the C code reads
-- its pointers again afterwards, a table is a value here.
--
-- Bounds and fuel: a walk along a chain has one round of fuel for each word of the array. A chain of a
-- well-formed table is shorter, so the theorems never meet the end of the fuel. rehash_loop and compact_loop
-- run over the slots of the array: to run out of fuel is to leave the array. In the line editor strlen has the bytes of the
-- buffer as fuel, the loops over the entries the bytes of the history, those over characters the bytes of the line, and move_cursor the
-- columns to go, and the loops of the colors the bytes of the line: each round takes one of them at least. The loops over
-- the blocks of the heap have its words as fuel, and a walk along the slots that point to a block the number of roots
-- and words; the slots are distinct, so that this is enough. The loop
-- over the mark stack has four times the words of the heap as fuel: a block and its elements are taken from the stack once, and
-- once more in a scan after an overflow. Each such scan sets a mark, so that there are at most twice as many as words. Sizes are below 2 ^ 28
-- (JS_VALUE_ARRAY_SIZE_MAX), hence an index fits in the 30 bits of hash_next.
--
-- Not modelled: the memory allocator, the weak references in the garbage collection, which the marking skips (unique strings and the
-- position cache), the atoms in RAM, and what follows the compaction (the hash tables of the moved objects and the
-- parser's pointer into its source), strings, the other array functions, the parser, the interpreter,
-- regular expressions and the other built-in objects of mquickjs.c; the rest of the shell and the build tool;
-- dtoa.c, libm.c and the soft floating point, which are libraries of their own.
pub mod Base
pub mod Utf8
pub mod Value
pub mod Props
pub mod Lock
pub mod Array
pub mod Readline
pub mod Shell
pub mod Gc
