-- ===== src/Readline/Measure.antt =====
-- The position of the cursor on the screen: redrawing the line finds the one that is measured without display.
use mathlib.Core.List.{append-nil}
use mquickjs.Base.{
  ℕ, zero, suc, ◌+◌, ◌-◌, ◌*◌, ◌%◌, ◌≤◌, ◌<◌, ◌≡◌, refl, sym, ap, ◌∙◌, inl, inr, Bool, true, false,
  Option, List, [], ◌∷◌, ◌++◌, arith, length, length-append, All, Bool-cases, ltb, leb, ◌==◌,
  if◌then◌else◌,
}
use mquickjs.Base.Slices.{words_at, words_at_split}
use mquickjs.Props.{Words}
use mquickjs.Utf8.{unicode_to_utf8}
use mquickjs.Readline.{Readline}
use mquickjs.Readline.Edit.{char_at}
use mquickjs.Readline.Display.{
  GetColor, Draw, draw_char, draw_loop, measure_loop, char_width, start_draw, end_draw, redraw,
  move_left, start_column, ended, move_cursor,
}
use mquickjs.Readline.Text.{
  IsLine, IsCode, bytes, back, shift, bytes-shift, All-shift, char_at-encoded,
  length-unicode_to_utf8,
}
use mquickjs.Readline.Moves.{IsEdited, length-IsLine}
use mquickjs.Base.Bits.{mod_of_parts}
use mquickjs.Readline.Cursor.{line_more, move_left-IsLeftOf}
use mquickjs.Readline.Frame.{ended-IsEdited, move_cursor-core, core, draw_char-core}
use mquickjs.Readline.Drawn.{
  next_column, next_pos, IsPlaced, width_at, draw_char-cursor, draw_step, taken, draw_at,
}

-- By `n` characters, the same in both buffers, one comes from `i` to `to`.
Walk : ℕ → Words → Words → ℕ → ℕ → Type 0
Walk zero m m' i to = i ≡ to
Walk (suc n) m m' i to =
    (i < to) × (char_at m i ≡ char_at m' i) × Walk n m m' (i + (char_at m i).1) to

measure_step :
    (fuel : ℕ) (s : Readline) (i x pos : ℕ)
    → ltb i s.term_cmd_buf_index ≡ true
    → let len = char_width (if s.term_is_password then b'*' else (char_at s.term_cmd_buf i).0) in
      measure_loop (suc fuel) s i x pos
      ≡ measure_loop fuel s
          (i + (char_at s.term_cmd_buf i).1)
          (next_column s.term_width i x len)
          (next_pos s.term_width i x pos len)
unfolding measure_loop
measure_step fuel s i x pos e = rw e refl

measure_stop :
    (fuel : ℕ) (s : Readline) (i x pos : ℕ)
    → ltb i s.term_cmd_buf_index ≡ false
    → measure_loop fuel s i x pos ≡ pos
unfolding measure_loop
measure_stop zero s i x pos e = refl
measure_stop (suc fuel) s i x pos e = rw e refl

star_width :
    (b : Bool) (c : ℕ) → char_width (if b then b'*' else c) ≡ (if b then 1 else char_width c)
unfolding char_width
star_width true c = refl
star_width false c = refl

-- The measurement goes where the display goes.
measure_placed :
    (fuel : ℕ) (s s' t : Readline) (i : ℕ)
    → char_at s.term_cmd_buf i ≡ char_at s'.term_cmd_buf i
    → s.term_width ≡ s'.term_width
    → s.term_is_password ≡ s'.term_is_password
    → ltb i s'.term_cmd_buf_index ≡ true
    → IsPlaced s i (width_at s (char_at s.term_cmd_buf i).0) t
    → measure_loop (suc fuel) s' i s.term_cursor_x s.term_cursor_pos
      ≡ measure_loop fuel s' (i + (char_at s.term_cmd_buf i).1) t.term_cursor_x t.term_cursor_pos
measure_placed fuel s s' t i char width password goes (pos, column) =
    let len : char_width (if s'.term_is_password then b'*' else (char_at s'.term_cmd_buf i).0)
        ≡ width_at s (char_at s.term_cmd_buf i).0 =
      star_width s'.term_is_password (char_at s'.term_cmd_buf i).0
      ∙ rw (sym password, sym (ap (λ p. p.0) char)) refl in
    let x = s.term_cursor_x in
    let y = s.term_cursor_pos in
    let len' = char_width (if s'.term_is_password then b'*' else (char_at s'.term_cmd_buf i).0) in
    let n = (char_at s.term_cmd_buf i).1 in
    let go : ℕ → ℕ → ℕ → ℕ =
      λ a w l. measure_loop fuel s' (i + a) (next_column w i x l) (next_pos w i x y l) in
    measure_step fuel s' i x y goes
    ∙ ap (λ a. go a s'.term_width len') (sym (ap (λ p. p.1) char))
    ∙ ap (λ w. go n w len') (sym width)
    ∙ ap (λ l. go n s.term_width l) len
    ∙ ap
        (λ z.
          measure_loop fuel s' (i + n) z
            (next_pos s.term_width i x y (width_at s (char_at s.term_cmd_buf i).0)))
        (sym column)
    ∙ ap (λ z. measure_loop fuel s' (i + n) t.term_cursor_x z) (sym pos)

-- The display and the measurement go on in step up to the cursor.
in_step :
    (n fuel more : ℕ) (get : Option GetColor) (i : ℕ) (s s' : Readline) (d : Draw)
    → Walk n s.term_cmd_buf s'.term_cmd_buf i s.term_cmd_buf_index
    → core s ≡ core (record s' { term_cmd_buf = s.term_cmd_buf })
    → s.term_cmd_buf_index ≤ s.term_cmd_buf_len
    → n ≤ fuel
    → n ≤ more
    → taken (draw_loop fuel get i (s, d)) ≡ measure_loop more s' i s.term_cursor_x s.term_cursor_pos
unfolding Walk
in_step zero fuel more get i s s' d walk same l a b =
    let index : s.term_cmd_buf_index ≡ s'.term_cmd_buf_index =
      ap (λ t. t.term_cmd_buf_index) same in
    draw_at fuel get i s d walk
    ∙ sym (measure_stop more s' i s.term_cursor_x s.term_cursor_pos (ground (arith, walk, index)))
in_step (suc n) zero more get i s s' d walk same l a b = absurd (omega arith)
in_step (suc n) (suc fuel) zero get i s s' d walk same l a b = absurd (omega arith)
in_step (suc n) (suc fuel) (suc more) get i s s' d (less, char, walk) same l a b =
    let index : s.term_cmd_buf_index ≡ s'.term_cmd_buf_index =
      ap (λ t. t.term_cmd_buf_index) same in
    let (s1, d1) = draw_char get i (s, d) in
    let kept : core s1 ≡ core s = draw_char-core get i s d in
    let buf : s1.term_cmd_buf ≡ s.term_cmd_buf = ap (λ t. t.term_cmd_buf) kept in
    let at : s1.term_cmd_buf_index ≡ s.term_cmd_buf_index = ap (λ t. t.term_cmd_buf_index) kept in
    let end : s1.term_cmd_buf_len ≡ s.term_cmd_buf_len = ap (λ t. t.term_cmd_buf_len) kept in
    ap (λ x. taken x) (draw_step fuel get i s d (ground arith))
    ∙ in_step n fuel more get (i + (char_at s.term_cmd_buf i).1) s1 s' d1 (rw (buf, at) walk)
        (kept ∙ same ∙ ap (λ b. core (record s' { term_cmd_buf = b })) (sym buf))
        (omega (arith, at, end)) (omega arith) (omega arith)
    ∙ sym (
        measure_placed more s s' s1 i char (ap (λ t. t.term_width) same)
          (ap (λ t. t.term_is_password) same) (ground (arith, index))
          (draw_char-cursor get i s d).0)

-- The code points of a text, where two buffers hold it.
codes-Walk :
    (t : List ℕ) (m m' : Words) (i to : ℕ)
    → All IsCode t
    → words_at m i (length (bytes t)) ≡ bytes t
    → words_at m' i (length (bytes t)) ≡ bytes t
    → to ≡ i + length (bytes t)
    → Walk (length t) m m' i to
unfolding Walk bytes
codes-Walk [] m m' i to h e e' at = omega (arith, at)
codes-Walk (c ∷ t) m m' i to (h, hs) e e' at =
    let u = unicode_to_utf8 c in
    let (at_c, at_t, n) =
      words_at_split m i (i + length u) (length (u ++ bytes t)) u (bytes t) refl e in
    let (at_c', at_t', n') =
      words_at_split m' i (i + length u) (length (u ++ bytes t)) u (bytes t) refl e' in
    let one = char_at-encoded m i c h at_c in
    let len : (char_at m i).1 ≡ length u = ap (λ p. p.1) one in
    (
      omega (arith, at, n, length-unicode_to_utf8 c h),
      one ∙ sym (char_at-encoded m' i c h at_c'),
      rw len (codes-Walk t m m' (i + length u) to hs at_t at_t' (omega (arith, at, n))),
    )

codes_fit : (t : List ℕ) → All IsCode t → length t ≤ length (bytes t)
unfolding bytes
codes_fit [] h = omega arith
codes_fit (c ∷ t) (h, hs) =
    omega (
      arith,
      length-append (unicode_to_utf8 c) (bytes t),
      length-unicode_to_utf8 c h,
      codes_fit t hs,
    )

column_same : (w x p h n : ℕ) → x < w → h < w → h + p ≡ x + n * w → p ≤ x → h ≡ (x - p) % w
column_same w x p h zero hx hh e le =
    let flat : 0 * w ≡ 0 = grind arith in
    sym (ap (λ a. a % w) (omega (arith, flat)) ∙ mod_of_parts w 0 h hh)
column_same w x p h (suc n) hx hh e le = absurd (omega (arith, e, line_more n w))

column_above :
    (w x p h n : ℕ)
    → x < w
    → h < w
    → h + p ≡ x + n * w
    → x < p
    → h ≡ (if (p - x) % w == 0 then 0 else w - (p - x) % w)
column_above w x p h zero hx hh e gt =
    let flat : 0 * w ≡ 0 = grind arith in absurd (omega (arith, e, flat))
column_above w x p zero (suc n) hx hh e gt =
    let r : (p - x) % w ≡ 0 = ap (λ a. a % w) (omega (arith, e)) ∙ mod_of_parts w (suc n) 0 hh in
    let none_left : ((p - x) % w == 0) ≡ true = ground (arith, r) in rw none_left refl
column_above w x p (suc h) (suc n) hx hh e gt =
    let r : (p - x) % w ≡ w - suc h =
      ap (λ a. a % w) (omega (arith, e, line_more n w))
      ∙ mod_of_parts w n (w - suc h) (omega arith) in
    let some_left : ((p - x) % w == 0) ≡ false = ground (arith, r) in
    rw some_left (omega (arith, r))

-- The column from which the cursor came, `p` columns back.
column_before :
    (w x p h n : ℕ)
    → x < w
    → h < w
    → h + p ≡ x + n * w
    → h ≡ (if leb p x then (x - p) % w else if (p - x) % w == 0 then 0 else w - (p - x) % w)
column_before w x p h n hx hh e = elim (Bool-cases (leb p x)) [
  | inl le ↦ rw le (column_same w x p h n hx hh e (ground arith))
  | inr gt ↦ rw gt (column_above w x p h n hx hh e (ground arith))
]

home_column :
    (s : Readline)
    → s.term_cursor_x < s.term_width
    → (move_cursor s s.term_cursor_pos 0).term_cursor_x ≡ start_column s
unfolding move_cursor
home_column s on =
    let p = s.term_cursor_pos in
    let back_again : ltb p 0 ≡ false = ground arith in
    let all : p - 0 ≡ p = omega arith in
    let (a, b, n, e) = move_left-IsLeftOf p s p (omega arith) on in
    rw (back_again, all)
      (column_before s.term_width s.term_cursor_x p (move_left p s p).term_cursor_x n on a e)

end_draw-taken : (x : Readline × Draw × ℕ) → (end_draw x).1 ≡ taken x
unfolding end_draw
end_draw-taken (s, d, i) = refl

back-bytes : (l : List ℕ) → bytes (shift l []) ≡ back l
unfolding bytes
back-bytes l = bytes-shift l [] ∙ append-nil (back l)

front_text :
    {s : Readline} {l r : List ℕ}
    → IsLine s l r
    → words_at s.term_cmd_buf 0 (length (bytes (shift l []))) ≡ bytes (shift l [])
front_text {s} {l} {r} v =
    let (front, behind, n) =
      words_at_split s.term_cmd_buf 0 (length (back l)) s.term_cmd_buf_len (back l) (bytes r)
        (omega arith) v.text in
    ap (λ xs. words_at s.term_cmd_buf 0 (length xs)) (back-bytes l) ∙ front ∙ sym (back-bytes l)

-- Redrawing a line of code points, with the cursor on the screen, finds the position of the cursor that the
-- measurement without display gives: the two branches of term_update agree.
pub redraw-measure_loop :
    (get : Option GetColor) (s : Readline) (l r k : List ℕ)
    → IsEdited s l r k
    → s.term_cursor_x < s.term_width
    → (redraw get s).1 ≡ measure_loop s.term_cmd_buf_index s 0 (start_column s) 0
unfolding redraw
redraw-measure_loop get s l r k v on =
    let moved = move_cursor s s.term_cursor_pos 0 in
    let home = record moved { term_cursor_pos = 0 } in
    let kept : core home ≡ core s = move_cursor-core s s.term_cursor_pos 0 in
    let shown = ended home in
    let buf : shown.term_cmd_buf ≡ (ended s).term_cmd_buf = ap (λ t. (ended t).term_cmd_buf) kept in
    let same : core shown ≡ core (record s { term_cmd_buf = shown.term_cmd_buf }) =
      ap (λ t. core (ended t)) kept ∙ ap (λ b. core (record s { term_cmd_buf = b })) (sym buf) in
    let index : shown.term_cmd_buf_index ≡ s.term_cmd_buf_index =
      ap (λ t. t.term_cmd_buf_index) same in
    let end : shown.term_cmd_buf_len ≡ s.term_cmd_buf_len = ap (λ t. t.term_cmd_buf_len) same in
    let t = shift l [] in
    let codes = All-shift l [] v.line.codes_before tt in
    let size : length (bytes t) ≡ s.term_cmd_buf_index =
      ap length (back-bytes l) ∙ sym v.line.here in
    let text : words_at s.term_cmd_buf 0 (length (bytes t)) ≡ bytes t = front_text v.line in
    let text' : words_at shown.term_cmd_buf 0 (length (bytes t)) ≡ bytes t =
      ap (λ m. words_at m 0 (length (bytes t))) buf ∙ front_text (ended-IsEdited v).line in
    let walk =
      codes-Walk t shown.term_cmd_buf s.term_cmd_buf 0 shown.term_cmd_buf_index codes text' text
        (omega (arith, index, size)) in
    let fits = codes_fit t codes in
    let whole = length-IsLine v.line in
    end_draw-taken (draw_loop home.term_cmd_buf_len get 0 (shown, start_draw))
    ∙ in_step (length t) home.term_cmd_buf_len s.term_cmd_buf_index get 0 shown s start_draw walk
        same (omega (arith, index, end, whole, v.line.here))
        (omega (arith, size, fits, end, whole, v.line.here)) (omega (arith, size, fits))
    ∙ ap (λ x. measure_loop s.term_cmd_buf_index s 0 x 0) (home_column s on)
