-- ===== src/Readline/History.antt =====
-- The history of readline.c: command lines, each with a byte 0 behind it, the oldest first.
use mquickjs.Base.{
  ℕ, zero, suc, ◌+◌, ◌-◌, Bool, true, ◌&&◌, Option, none, some, ltb, leb, ◌==◌, if◌then◌else◌,
}
use mquickjs.Base.Slices.{blit}
use mquickjs.Props.{Words}
use mquickjs.Readline.{Readline}
use mquickjs.Readline.Display.{ended}

-- The length of the text at `i`, which ends before the `fuel` bytes do.
unfoldable pub strlen : ℕ → Words → ℕ → ℕ
strlen zero m i = 0
strlen (suc fuel) m i = let rest = suc (strlen fuel m (suc i)) in if m i == 0 then 0 else rest

-- memcmp of `n` bytes gives 0
unfoldable pub same_bytes : ℕ → Words → ℕ → Words → ℕ → Bool
same_bytes zero m i m' j = true
same_bytes (suc n) m i m' j = (m i == m' j) && same_bytes n m (suc i) m' (suc j)

abbrev pub entry_length : Readline → ℕ → ℕ
entry_length s i = strlen s.term_history_buf_size s.term_history i

unfoldable pub update_cmdline_from_history : Readline → ℕ → Readline
unfolding strlen
update_cmdline_from_history s entry =
    let hist_entry_size = entry_length s entry in
    record s {
      term_cmd_buf = blit s.term_cmd_buf 0 s.term_history entry hist_entry_size;
      term_cmd_buf_len = hist_entry_size;
      term_cmd_buf_index = hist_entry_size;
      term_cmd_updated = true;
    }

-- while (idx > 0 && history[idx - 1] != '\0') idx--
unfoldable pub entry_start : Words → ℕ → ℕ
entry_start m zero = zero
entry_start m (suc idx) = if m idx == 0 then suc idx else entry_start m idx

abbrev pub current_entry : Readline → ℕ
current_entry s = elim s.term_hist_entry [ none ↦ s.term_history_size | some e ↦ e ]

unfoldable pub term_up_char : Readline → Readline
unfolding entry_start
term_up_char s =
    let entry = current_entry s in
    let idx = entry_start s.term_history (entry - 1) in
    if entry == 0
    then record s { term_hist_entry = some entry }
    else update_cmdline_from_history (record s { term_hist_entry = some idx }) idx

unfoldable pub term_down_char : Readline → Readline
term_down_char s = elim s.term_hist_entry [
  | none ↦ s
  | some entry ↦
      let next = entry + (entry_length s entry + 1) in
      if ltb next s.term_history_size
      then update_cmdline_from_history (record s { term_hist_entry = some next }) next
      else record s { term_hist_entry = none; term_cmd_buf_index = s.term_cmd_buf_len }
]

-- The entry at `idx` holds the `size` bytes of the command line.
abbrev pub is_entry : Readline → ℕ → ℕ → Bool
is_entry s size idx =
    (entry_length s idx + 1 == size) && same_bytes size s.term_history idx s.term_cmd_buf 0

-- The search for the command line from `idx` on.
unfoldable pub find_entry : ℕ → Readline → ℕ → ℕ → Option ℕ
unfolding same_bytes
find_entry zero s size idx = none
find_entry (suc fuel) s size idx =
    let rest = find_entry fuel s size (idx + (entry_length s idx + 1)) in
    if ltb idx s.term_history_size then if is_entry s size idx then some idx else rest else none

unfoldable pub remove_entry : Readline → ℕ → ℕ → Readline
remove_entry s idx size = record s {
  term_history =
      blit s.term_history idx s.term_history (idx + size) (s.term_history_size - (idx + size));
  term_history_size = s.term_history_size - size;
}

-- The oldest entries go until `size` bytes more have room.
unfoldable pub make_room : ℕ → ℕ → Readline → Readline
unfolding remove_entry
make_room zero size s = s
make_room (suc fuel) size s =
    let rest = make_room fuel size (remove_entry s 0 (entry_length s 0 + 1)) in
    if ltb s.term_history_buf_size (s.term_history_size + size) then rest else s

-- The entry that the command line repeats: the one that is edited, or else the first in the history.
abbrev pub repeated_entry : Readline → ℕ → Option ℕ
repeated_entry s size =
    let found = find_entry s.term_history_size s size 0 in
    elim s.term_hist_entry [
      | none ↦ found
      | some entry ↦ if is_entry s size entry then some entry else found
    ]

abbrev pub without_repeated : Readline → ℕ → Readline
without_repeated s size = elim (repeated_entry s size) [
  | none ↦ s
  | some idx ↦ remove_entry s idx (entry_length s idx + 1)
]

abbrev pub append_entry : ℕ → Readline → Readline
append_entry size s = record s {
  term_history = blit s.term_history s.term_history_size s.term_cmd_buf 0 size;
  term_history_size = s.term_history_size + size;
}

-- `term_hist_add` of the command line, which the caller has ended with a byte 0.
unfoldable pub term_hist_add : Readline → Readline
unfolding find_entry make_room
term_hist_add s =
    let size = strlen s.term_cmd_buf_size s.term_cmd_buf 0 + 1 in
    let kept = without_repeated s size in
    let added =
      (if leb size kept.term_history_buf_size
        then append_entry size (make_room kept.term_history_size size kept)
        else kept) in
    if s.term_cmd_buf 0 == 0 then s else record added { term_hist_entry = none }

unfoldable pub term_return : Readline → Readline
term_return s =
    let kept = if s.term_is_password then ended s else term_hist_add (ended s) in
    record kept { term_cmd_buf_index = kept.term_cmd_buf_len }
