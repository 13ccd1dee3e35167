-- ===== src/Readline/Cursor.antt =====
-- Moving the cursor on the screen.
use mathlib.Core.Path.{subst}
use mquickjs.Base.{
  ℕ, zero, suc, ◌+◌, ◌-◌, ◌*◌, ◌≤◌, ◌<◌, ◌≡◌, refl, sym, ◌⊎◌, inl, inr, true, false, min, [], ◌∷◌,
  arith, Bool-cases, ltb, ◌==◌,
}
use mquickjs.Readline.{Readline, text, csi, term_print}
use mquickjs.Readline.Display.{move_right, move_left, move_cursor}

-- From the column of `s` the cursor goes by `d` columns over the ends of lines to the column of `t`.
abbrev pub IsRightOf : Readline → ℕ → Readline → Type 0
IsRightOf s d t =
    (t.term_cursor_x < s.term_width)
    × (t.term_width ≡ s.term_width)
    × (lines : ℕ) × (s.term_cursor_x + d ≡ t.term_cursor_x + lines * s.term_width)

pub line_more : (n w : ℕ) → suc n * w ≡ n * w + w
line_more n w = grind arith

-- The state at the start of the next line.
abbrev next_line : Readline → Readline
next_line s = record (term_print (text (13 ∷ 10 ∷ [])) s) { term_cursor_x = 0 }

abbrev right_by : ℕ → Readline → Readline
right_by l s = record (term_print (csi l b'C') s) { term_cursor_x = s.term_cursor_x + l }

abbrev right_most : Readline → ℕ → ℕ
right_most s d = min (s.term_width - 1 - s.term_cursor_x) d

right_wraps :
    (fuel : ℕ) (s : Readline) (d : ℕ)
    → (s.term_cursor_x == s.term_width - 1) ≡ true
    → move_right (suc fuel) s (suc d) ≡ move_right fuel (next_line s) d
unfolding move_right
right_wraps fuel s d e =
    let go : (suc d == 0) ≡ false = ground arith in
    let less : suc d - 1 ≡ d = omega arith in rw (go, e, less) refl

right_goes :
    (fuel : ℕ) (s : Readline) (d : ℕ)
    → (s.term_cursor_x == s.term_width - 1) ≡ false
    → move_right (suc fuel) s (suc d)
      ≡ move_right fuel (right_by (right_most s (suc d)) s) (suc d - right_most s (suc d))
unfolding move_right
right_goes fuel s d e = let go : (suc d == 0) ≡ false = ground arith in rw (go, e) refl

right_stays : (fuel : ℕ) (s : Readline) → move_right fuel s 0 ≡ s
unfolding move_right
right_stays zero s = refl
right_stays (suc fuel) s = refl

move_right-IsRightOf :
    (fuel : ℕ) (s : Readline) (d : ℕ)
    → d ≤ fuel
    → s.term_cursor_x < s.term_width
    → IsRightOf s d (move_right fuel s d)
move_right-IsRightOf fuel s zero enough on =
    subst (λ t. IsRightOf s 0 t) (sym (right_stays fuel s)) (on, refl, 0, omega arith)
move_right-IsRightOf zero s (suc d) enough on = absurd (omega arith)
move_right-IsRightOf (suc fuel) s (suc d) enough on =
    let l = right_most s (suc d) in
    elim (Bool-cases (s.term_cursor_x == s.term_width - 1)) [
      | inl ends ↦
          let (a, b, n, e) =
            move_right-IsRightOf fuel (next_line s) d (omega arith) (omega arith) in
          subst (λ t. IsRightOf s (suc d) t) (sym (right_wraps fuel s d ends))
            (a, b, suc n, ground (arith, e, line_more n s.term_width))
      | inr inside ↦
          let less : 1 ≤ l = ground arith in
          let (a, b, n, e) =
            move_right-IsRightOf fuel (right_by l s) (suc d - l) (omega (arith, less))
              (omega arith) in
          subst (λ t. IsRightOf s (suc d) t) (sym (right_goes fuel s d inside))
            (a, b, n, omega (arith, e))
    ]

-- From the column of `s` the cursor goes back by `d` columns to the column of `t`.
abbrev pub IsLeftOf : Readline → ℕ → Readline → Type 0
IsLeftOf s d t =
    (t.term_cursor_x < s.term_width)
    × (t.term_width ≡ s.term_width)
    × (lines : ℕ) × (t.term_cursor_x + d ≡ s.term_cursor_x + lines * s.term_width)

abbrev line_above : Readline → Readline
line_above s = record (term_print (csi (s.term_width - 1) b'C') (term_print (csi 1 b'A') s)) {
  term_cursor_x = s.term_width - 1;
}

abbrev left_by : ℕ → Readline → Readline
left_by l s = record (term_print (csi l b'D') s) { term_cursor_x = s.term_cursor_x - l }

left_wraps :
    (fuel : ℕ) (s : Readline) (d : ℕ)
    → (s.term_cursor_x == 0) ≡ true
    → move_left (suc fuel) s (suc d) ≡ move_left fuel (line_above s) d
unfolding move_left
left_wraps fuel s d e =
    let go : (suc d == 0) ≡ false = ground arith in
    let less : suc d - 1 ≡ d = omega arith in rw (go, e, less) refl

left_goes :
    (fuel : ℕ) (s : Readline) (d : ℕ)
    → (s.term_cursor_x == 0) ≡ false
    → move_left (suc fuel) s (suc d)
      ≡ move_left fuel
          (left_by (min (suc d) s.term_cursor_x) s)
          (suc d - min (suc d) s.term_cursor_x)
unfolding move_left
left_goes fuel s d e = let go : (suc d == 0) ≡ false = ground arith in rw (go, e) refl

left_stays : (fuel : ℕ) (s : Readline) → move_left fuel s 0 ≡ s
unfolding move_left
left_stays zero s = refl
left_stays (suc fuel) s = refl

pub move_left-IsLeftOf :
    (fuel : ℕ) (s : Readline) (d : ℕ)
    → d ≤ fuel
    → s.term_cursor_x < s.term_width
    → IsLeftOf s d (move_left fuel s d)
move_left-IsLeftOf fuel s zero enough on =
    subst (λ t. IsLeftOf s 0 t) (sym (left_stays fuel s)) (on, refl, 0, omega arith)
move_left-IsLeftOf zero s (suc d) enough on = absurd (omega arith)
move_left-IsLeftOf (suc fuel) s (suc d) enough on =
    let l = min (suc d) s.term_cursor_x in
    elim (Bool-cases (s.term_cursor_x == 0)) [
      | inl ends ↦
          let (a, b, n, e) = move_left-IsLeftOf fuel (line_above s) d (omega arith) (omega arith) in
          subst (λ t. IsLeftOf s (suc d) t) (sym (left_wraps fuel s d ends))
            (a, b, suc n, ground (arith, e, line_more n s.term_width))
      | inr inside ↦
          let less : 1 ≤ l = ground arith in
          let (a, b, n, e) =
            move_left-IsLeftOf fuel (left_by l s) (suc d - l) (omega (arith, less)) (omega arith) in
          subst (λ t. IsLeftOf s (suc d) t) (sym (left_goes fuel s d inside))
            (a, b, n, omega (arith, e))
    ]

-- The loops of move_cursor end, whatever the number of columns is; the cursor, which starts on the screen, then
-- stands on it, as many columns further on or back, counted over the ends of lines, as the new position is from
-- the old one.
pub move_cursor-column :
    (s : Readline) (from to : ℕ)
    → s.term_cursor_x < s.term_width
    → ((from ≤ to) × IsRightOf s (to - from) (move_cursor s from to))
      ⊎ ((to ≤ from) × IsLeftOf s (from - to) (move_cursor s from to))
unfolding move_cursor
move_cursor-column s from to on = elim (Bool-cases (ltb from to)) [
  | inl right ↦
      rw right (inl (ground arith, move_right-IsRightOf (to - from) s (to - from) (omega arith) on))
  | inr left ↦
      rw left (inr (ground arith, move_left-IsLeftOf (from - to) s (from - to) (omega arith) on))
]
