-- ===== src/Readline/Frame.antt =====
-- The display changes nothing of the text, the history and the state of the keys.
use mathlib.Core.Path.{subst}
use mquickjs.Base.{
  ℕ, zero, suc, ◌+◌, ◌-◌, ◌≤◌, ◌<◌, ◌≡◌, refl, sym, ap, ◌∙◌, ◌⊎◌, inl, inr, Bool, true, false, ◌&&◌,
  Option, none, some, List, [], arith, Bool-cases, ltb, ◌==◌, if◌then◌else◌,
}
use mquickjs.Base.Slices.{words_at-cong}
use mquickjs.Readline.{Readline}
use mquickjs.Readline.Display.{
  GetColor, Draw, move_right, move_left, move_cursor, pad_line, place_char, colorize, draw_char,
  draw_loop, end_draw, start_draw, ended, place_cursor, measure_loop, start_column, redraw,
  term_update,
}
use mquickjs.Readline.Edit.{char_at}
use mquickjs.Readline.Moves.{IsEdited}

-- All but the cursor on the screen and what was printed.
abbrev pub core : Readline → Readline
core s = record s {
  term_cursor_x = 0;
  term_cursor_pos = 0;
  term_cmd_updated = false;
  term_output = [];
}

move_right-core : (fuel : ℕ) (s : Readline) (d : ℕ) → core (move_right fuel s d) ≡ core s
unfolding move_right
move_right-core zero s d = refl
move_right-core (suc fuel) s d = elim (Bool-cases (d == 0)) [
  | inl e ↦ rw e refl
  | inr e ↦ elim (Bool-cases (s.term_cursor_x == s.term_width - 1)) [
    | inl e' ↦ rw (e, e') (move_right-core fuel _ _)
    | inr e' ↦ rw (e, e') (move_right-core fuel _ _)
  ]
]

move_left-core : (fuel : ℕ) (s : Readline) (d : ℕ) → core (move_left fuel s d) ≡ core s
unfolding move_left
move_left-core zero s d = refl
move_left-core (suc fuel) s d = elim (Bool-cases (d == 0)) [
  | inl e ↦ rw e refl
  | inr e ↦ elim (Bool-cases (s.term_cursor_x == 0)) [
    | inl e' ↦ rw (e, e') (move_left-core fuel _ _)
    | inr e' ↦ rw (e, e') (move_left-core fuel _ _)
  ]
]

pub move_cursor-core : (s : Readline) (from to : ℕ) → core (move_cursor s from to) ≡ core s
unfolding move_cursor
move_cursor-core s from to = elim (Bool-cases (ltb from to)) [
  | inl e ↦ rw e (move_right-core (to - from) s (to - from))
  | inr e ↦ rw e (move_left-core (from - to) s (from - to))
]

pub pad_line-core : (n : ℕ) (s : Readline) → core (pad_line n s) ≡ core s
unfolding pad_line
pad_line-core zero s = refl
pad_line-core (suc n) s = pad_line-core n _

place_char-core : (i len : ℕ) (s : Readline) → core (place_char i len s) ≡ core s
unfolding place_char
place_char-core i len s = elim (Bool-cases (ltb s.term_width (s.term_cursor_x + len) && ltb 0 i)) [
  | inl e ↦ rw e (pad_line-core (s.term_width - s.term_cursor_x) s)
  | inr e ↦ rw e refl
]

either-core :
    (b : Bool) (x y s : Readline)
    → core x ≡ core s
    → core y ≡ core s
    → core (if b then x else y) ≡ core s
either-core true x y s p q = p
either-core false x y s p q = q

either-core_pair :
    (b : Bool) (x y : Readline × Draw) (s : Readline)
    → core x.0 ≡ core s
    → core y.0 ≡ core s
    → core (if b then x else y).0 ≡ core s
either-core_pair true x y s p q = p
either-core_pair false x y s p q = q

colorize-core :
    (get : Option GetColor) (i : ℕ) (s : Readline) (d : Draw)
    → core (colorize get i (s, d)).0 ≡ core s
unfolding colorize
colorize-core none i s d = refl
colorize-core (some get) i s d =
    either-core_pair s.term_is_password (s, d) _ s refl (either-core _ _ s s refl refl)

pub draw_char-core :
    (get : Option GetColor) (i : ℕ) (s : Readline) (d : Draw)
    → core (draw_char get i (s, d)).0 ≡ core s
unfolding draw_char
draw_char-core get i s d = colorize-core get i (place_char i _ s) _ ∙ place_char-core i _ s

draw_loop-core :
    (fuel : ℕ) (get : Option GetColor) (i : ℕ) (s : Readline) (d : Draw)
    → core (draw_loop fuel get i (s, d)).0 ≡ core s
unfolding draw_loop
draw_loop-core zero get i s d = refl
draw_loop-core (suc fuel) get i s d = elim (Bool-cases (ltb i s.term_cmd_buf_len)) [
  | inl e ↦
      let (s', d') = draw_char get i (s, d) in
      rw e (
        draw_loop-core fuel get (i + (char_at s.term_cmd_buf i).1) s' d' ∙ draw_char-core get i s d)
  | inr e ↦ rw e refl
]

end_draw-core : (x : Readline × Draw × ℕ) → core (end_draw x).0 ≡ core x.0
unfolding end_draw
end_draw-core (s, d, i) =
    either-core _ _ _ s (either-core _ _ _ s refl refl) (either-core _ _ _ s refl refl)

place_cursor-core : (x : Readline × ℕ) → core (place_cursor x) ≡ core x.0
unfolding place_cursor
place_cursor-core (s, n) = move_cursor-core s s.term_cursor_pos n

redraw-core : (get : Option GetColor) (s : Readline) → core (redraw get s).0 ≡ core (ended s)
unfolding redraw
redraw-core get s =
    let home = record (move_cursor s s.term_cursor_pos 0) { term_cursor_pos = 0 } in
    let moved : core home ≡ core s = move_cursor-core s s.term_cursor_pos 0 in
    end_draw-core (draw_loop home.term_cmd_buf_len get 0 (ended home, start_draw))
    ∙ draw_loop-core home.term_cmd_buf_len get 0 (ended home) start_draw
    ∙ ap (λ t. ended t) moved

one_of :
    (b : Bool) (x y p q : Readline)
    → core x ≡ q
    → core y ≡ p
    → (core (if b then x else y) ≡ p) ⊎ (core (if b then x else y) ≡ q)
one_of true x y p q e e' = inr e
one_of false x y p q e e' = inl e'

-- After the display the line is as before, or has a byte 0 behind it.
pub term_update-core :
    (get : Option GetColor) (s : Readline)
    → (core (term_update get s) ≡ core s) ⊎ (core (term_update get s) ≡ core (ended s))
unfolding term_update
term_update-core get s =
    one_of s.term_cmd_updated (place_cursor (redraw get s))
      (place_cursor (s, measure_loop s.term_cmd_buf_index s 0 (start_column s) 0)) (core s)
      (core (ended s)) (place_cursor-core (redraw get s) ∙ redraw-core get s)
      (place_cursor-core (s, measure_loop s.term_cmd_buf_index s 0 (start_column s) 0))

into_core : {s : Readline} {l r k : List ℕ} → IsEdited s l r k → IsEdited (core s) l r k
into_core v = record {
  line = record {
    text = v.line.text;
    here = v.line.here;
    codes_before = v.line.codes_before;
    codes_behind = v.line.codes_behind;
  };
  killed = record { text = v.killed.text; codes = v.killed.codes };
}

-- States that differ in what is on the screen show the same line.
pub core-IsEdited :
    {s t : Readline} {l r k : List ℕ} → core t ≡ core s → IsEdited s l r k → IsEdited t l r k
core-IsEdited {s} {t} {l} {r} {k} e v =
    let w : IsEdited (core t) l r k = subst (λ x. IsEdited x l r k) (sym e) (into_core v) in
    record {
      line = record {
        text = w.line.text;
        here = w.line.here;
        codes_before = w.line.codes_before;
        codes_behind = w.line.codes_behind;
      };
      killed = record { text = w.killed.text; codes = w.killed.codes };
    }

pub ended-IsEdited : {s : Readline} {l r k : List ℕ} → IsEdited s l r k → IsEdited (ended s) l r k
ended-IsEdited {s} v = record {
  line = record {
    text =
        words_at-cong s.term_cmd_buf (ended s).term_cmd_buf 0 0 s.term_cmd_buf_len
          (λ t l. ground arith)
        ∙ v.line.text;
    here = v.line.here;
    codes_before = v.line.codes_before;
    codes_behind = v.line.codes_behind;
  };
  killed = record { text = v.killed.text; codes = v.killed.codes };
}

-- The display of a line of code points that is shorter than its buffer leaves the line, the place of the cursor in it and
-- what was killed, and writes no byte before the end of the line or outside the buffer.
pub term_update-IsEdited :
    {s : Readline} {l r k : List ℕ} (get : Option GetColor)
    → IsEdited s l r k
    → s.term_cmd_buf_len < s.term_cmd_buf_size
    → IsEdited (term_update get s) l r k
      × ((i : ℕ)
          → (i < s.term_cmd_buf_len) ⊎ (s.term_cmd_buf_size ≤ i)
          → (term_update get s).term_cmd_buf i ≡ s.term_cmd_buf i)
      × ((term_update get s).term_kill_buf ≡ s.term_kill_buf)
      × ((term_update get s).term_history ≡ s.term_history)
term_update-IsEdited {s} get v room = elim (term_update-core get s) [
  | inl e ↦ (
    core-IsEdited e v,
    λ i out. ap (λ x. x.term_cmd_buf i) e,
    ap (λ x. x.term_kill_buf) e,
    ap (λ x. x.term_history) e,
  )
  | inr e ↦ (
    core-IsEdited e (ended-IsEdited v),
    λ i out. ap (λ x. x.term_cmd_buf i) e ∙ ground arith,
    ap (λ x. x.term_kill_buf) e,
    ap (λ x. x.term_history) e,
  )
]
