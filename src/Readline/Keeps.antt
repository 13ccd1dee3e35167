-- ===== src/Readline/Keeps.antt =====
-- The editing operations on whole code points.
use mathlib.Core.List.{append_assoc, append-nil}
use mquickjs.Base.{
  ℕ, ◌+◌, ◌≤◌, ◌<◌, ◌≡◌, refl, sym, ap, ◌∙◌, ◌≢◌, Bool, true, false, List, [], ◌∷◌, ◌++◌, arith,
  length, length-append, All, ltb,
}
use native.Mathlib.Decide.{dec_lt}
use mquickjs.Base.Slices.{words_at, blit_paste, length-words_at}
use mquickjs.Props.{Words}
use mquickjs.Utf8.{unicode_to_utf8}
use mquickjs.Readline.{Readline}
use mquickjs.Readline.Edit.{term_kill_region, term_insert_region}
use mquickjs.Readline.Text.{
  IsCode, bytes, back, shift, back-append, bytes-append, bytes-shift, back-shift, All-shift,
  All-parts, length-unicode_to_utf8,
}
use mquickjs.Readline.Moves.{
  IsEdited, kill_into, length-IsLine, region_left, region_right, region_empty, cut-IsEdited,
}

no_bytes : (t : List ℕ) → All IsCode t → length (bytes t) ≡ 0 → t ≡ []
unfolding bytes
no_bytes [] ts e = refl
no_bytes (c ∷ t) (h, ts) e =
    absurd
      (omega (arith, e, length-append (unicode_to_utf8 c) (bytes t), length-unicode_to_utf8 c h))

some_bytes : (t : List ℕ) → 0 < length (bytes t) → t ≢ []
unfolding bytes
some_bytes [] l e = absurd (omega arith)
some_bytes (c ∷ t) l e = cc

kill_none : (kill : Bool) (t k : List ℕ) → t ≡ [] → kill_into kill t k ≡ k
unfolding kill_into
kill_none true [] k e = refl
kill_none true (c ∷ t) k e = cc
kill_none false t k e = refl

-- The region behind the cursor with the text `t`.
pub kill_right-IsEdited :
    {s : Readline} (to : ℕ) (l t r k : List ℕ) (kill : Bool)
    → IsEdited s l (t ++ r) k
    → to ≡ length (back l) + length (bytes t)
    → IsEdited (term_kill_region s to kill) l r (kill_into kill t k)
kill_right-IsEdited {s} to l t r k kill v at =
    let (ts, rs) = All-parts t r v.line.codes_behind in
    let text = v.line.text ∙ ap (λ xs. back l ++ xs) (bytes-append t r) in
    let inside : to ≤ s.term_cmd_buf_len = omega (
      arith,
      at,
      length-IsLine v.line,
      ap length (bytes-append t r),
      length-append (bytes t) (bytes r),
    ) in
    elim (dec_lt s.term_cmd_buf_index to) [
      | yes more ↦ rw (region_right s to kill more inside) (
          cut-IsEdited s.term_cmd_buf_index to l t r k kill v.line.here at text v.line.codes_before
            ts rs (some_bytes t (omega (arith, v.line.here))) v.killed)
      | no none ↦
          let nothing : t ≡ [] = no_bytes t ts (omega (arith, v.line.here)) in
          let same : term_kill_region s to kill ≡ s =
            region_empty s to kill (omega (arith, v.line.here)) in
          rw (same, kill_none kill t k nothing)
            (record { line = rw nothing at v.line; killed = v.killed })
    ]

shift_none : (t r : List ℕ) → shift t r ≡ [] → (t ≡ []) × (r ≡ [])
unfolding shift
shift_none [] r e = (refl, e)
shift_none (c ∷ t) r e = absurd (ground (arith, (shift_none t (c ∷ r) e).1))

-- The region before the cursor with the text `t`, the nearest code point first.
pub kill_left-IsEdited :
    {s : Readline} (to : ℕ) (t l r k : List ℕ) (kill : Bool)
    → IsEdited s (t ++ l) r k
    → to ≡ length (back l)
    → IsEdited (term_kill_region s to kill) l r (kill_into kill (shift t []) k)
unfolding bytes back
kill_left-IsEdited {s} to t l r k kill v at =
    let killed = shift t [] in
    let (ts, ls) = All-parts t l v.line.codes_before in
    let kills : bytes killed ≡ back t = bytes-shift t [] ∙ append-nil (back t) in
    let text =
      v.line.text
      ∙ ap (λ xs. xs ++ bytes r) (back-append t l)
      ∙ append_assoc (back l) (back t) (bytes r)
      ∙ ap (λ xs. back l ++ (xs ++ bytes r)) (sym kills) in
    let ends : s.term_cmd_buf_index ≡ length (back l) + length (bytes killed) =
      v.line.here
      ∙ ap length (back-append t l)
      ∙ length-append (back l) (back t)
      ∙ ap (λ xs. length (back l) + length xs) (sym kills) in
    let inside : s.term_cmd_buf_index ≤ s.term_cmd_buf_len =
      omega (arith, length-IsLine v.line, v.line.here) in
    elim (dec_lt to s.term_cmd_buf_index) [
      | yes more ↦ rw (region_left s to kill more inside) (
          cut-IsEdited to s.term_cmd_buf_index l killed r k kill at ends text ls
            (All-shift t [] ts tt) v.line.codes_behind (some_bytes killed (omega (arith, at, ends)))
            v.killed)
      | no none ↦
          let empty : killed ≡ [] =
            no_bytes killed (All-shift t [] ts tt) (omega (arith, at, ends)) in
          let nothing : t ≡ [] = (shift_none t [] empty).0 in
          let same : term_kill_region s to kill ≡ s =
            region_empty s to kill (omega (arith, at, ends)) in
          rw (same, kill_none kill killed k empty)
            (record { line = rw nothing at v.line; killed = v.killed })
    ]

-- A text that is inserted at the cursor.
pub insert-IsEdited :
    {s : Readline} (p : Words) (len : ℕ) (l t r k : List ℕ)
    → IsEdited s l r k
    → words_at p 0 len ≡ bytes t
    → All IsCode t
    → s.term_cmd_buf_index + len < s.term_cmd_buf_size
    → IsEdited (term_insert_region s p len) (shift t l) r k
unfolding term_insert_region
insert-IsEdited {s} p len l t r k v at ts room =
    let n : len ≡ length (bytes t) = sym (length-words_at p 0 len) ∙ ap length at in
    let fits : ltb (s.term_cmd_buf_index + len) s.term_cmd_buf_size ≡ true = ground arith in
    rw fits (record {
      line = record {
        text =
            rw (← n) at (
              blit_paste s.term_cmd_buf p s.term_cmd_buf_len s.term_cmd_buf_index (back l) (bytes t)
                (bytes r) v.line.here v.line.text (rw n at at))
            ∙ sym (append_assoc (back l) (bytes t) (bytes r))
            ∙ ap (λ xs. xs ++ bytes r) (sym (back-shift t l));
        here =
            omega
              (arith, v.line.here, n, ap length (back-shift t l), length-append (back l) (bytes t));
        codes_before = All-shift t l ts v.line.codes_before;
        codes_behind = v.line.codes_behind;
      };
      killed = record { text = v.killed.text; codes = v.killed.codes };
    })
