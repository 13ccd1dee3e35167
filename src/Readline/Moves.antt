-- ===== src/Readline/Moves.antt =====
-- Moving the cursor over whole code points, and taking out what lies between.
use mathlib.Core.List.{append_assoc}
use mquickjs.Base.{
  ℕ, ◌+◌, ◌-◌, ◌≤◌, ◌<◌, ◌≡◌, refl, sym, ap, ◌∙◌, ◌≢◌, Bool, true, false, List, [], ◌∷◌, ◌++◌,
  arith, length, length-append, All, ltb,
}
use mquickjs.Base.Slices.{words_at, words_at_split, words_at-blit, blit_cut, length-words_at}
use mquickjs.Readline.{Readline}
use mquickjs.Readline.Edit.{cut_region, term_kill_region}
use mquickjs.Readline.Text.{
  IsCode, bytes, back, IsLine, IsKilled, shift, back-append, bytes-append, bytes-shift, back-shift,
  All-shift, All-parts,
}

-- The whole text has the bytes before the cursor and those behind it.
pub length-IsLine :
    {s : Readline} {l r : List ℕ}
    → IsLine s l r
    → s.term_cmd_buf_len ≡ length (back l) + length (bytes r)
length-IsLine {s} {l} {r} v =
    sym (length-words_at s.term_cmd_buf 0 s.term_cmd_buf_len)
    ∙ ap length v.text
    ∙ length-append (back l) (bytes r)

-- The cursor goes to the left over `t`.
pub to_left-IsLine :
    {s : Readline} (t l r : List ℕ) (i : ℕ)
    → IsLine s (t ++ l) r
    → i ≡ length (back l)
    → IsLine (record s { term_cmd_buf_index = i }) l (shift t r)
to_left-IsLine t l r i v at =
    let (front, behind) = All-parts t l v.codes_before in
    record {
      text =
          v.text
          ∙ ap (λ xs. xs ++ bytes r) (back-append t l)
          ∙ append_assoc (back l) (back t) (bytes r)
          ∙ ap (λ xs. back l ++ xs) (sym (bytes-shift t r));
      here = at;
      codes_before = behind;
      codes_behind = All-shift t r front v.codes_behind;
    }

-- And to the right.
pub to_right-IsLine :
    {s : Readline} (t l r : List ℕ) (i : ℕ)
    → IsLine s l (t ++ r)
    → i ≡ length (back l) + length (bytes t)
    → IsLine (record s { term_cmd_buf_index = i }) (shift t l) r
to_right-IsLine t l r i v at =
    let (front, behind) = All-parts t r v.codes_behind in
    record {
      text =
          v.text
          ∙ ap (λ xs. back l ++ xs) (bytes-append t r)
          ∙ sym (append_assoc (back l) (bytes t) (bytes r))
          ∙ ap (λ xs. xs ++ bytes r) (sym (back-shift t l));
      here = at ∙ sym (length-append (back l) (bytes t)) ∙ sym (ap length (back-shift t l));
      codes_before = All-shift t l front v.codes_before;
      codes_behind = behind;
    }

-- Where a region is cut, the bytes `b` between `a` and `c` go, and the kill buffer may hold them.
module _ (s : Readline) (start end : ℕ) (a b c : List ℕ) (kill : Bool) (at : start ≡ length a)
    (at' : end ≡ length a + length b)
    (text : words_at s.term_cmd_buf 0 s.term_cmd_buf_len ≡ a ++ (b ++ c)) where
  pub cut_region-text :
      words_at
        (cut_region s start end kill).term_cmd_buf
        0
        (cut_region s start end kill).term_cmd_buf_len
      ≡ a ++ c
  unfolding cut_region
  cut_region-text =
      let n : end - start ≡ length b = omega arith in
      ground (
        arith,
        n,
        rw (← n) at (blit_cut s.term_cmd_buf s.term_cmd_buf_len start end a b c at at' text),
      )

  cut_text : words_at s.term_cmd_buf start (end - start) ≡ b
  cut_text =
      let n : end - start ≡ length b = omega arith in
      let (at_a, at_bc, size) =
        words_at_split s.term_cmd_buf 0 start s.term_cmd_buf_len a (b ++ c) (omega arith) text in
      let (at_b, at_c, size') =
        words_at_split s.term_cmd_buf start end (length (b ++ c)) b c (omega arith) at_bc in
      rw n at_b

  pub cut_region-killed :
      kill ≡ true
      → words_at
          (cut_region s start end kill).term_kill_buf
          0
          (cut_region s start end kill).term_kill_buf_len
        ≡ b
  unfolding cut_region
  cut_region-killed on =
      rw on (words_at-blit s.term_kill_buf 0 s.term_cmd_buf start (end - start) ∙ cut_text)

pub cut_region-kept :
    (s : Readline) (start end : ℕ) (k : List ℕ)
    → IsKilled s k
    → IsKilled (cut_region s start end false) k
unfolding cut_region
cut_region-kept s start end k v = record { text = v.text; codes = v.codes }

pub cut_region-index :
    (s : Readline) (start end : ℕ) (kill : Bool)
    → (cut_region s start end kill).term_cmd_buf_index ≡ start
unfolding cut_region
cut_region-index s start end kill = refl

-- A region that is not empty is cut; the cursor is at one of its ends.
pub region_left :
    (s : Readline) (to : ℕ) (kill : Bool)
    → to < s.term_cmd_buf_index
    → s.term_cmd_buf_index ≤ s.term_cmd_buf_len
    → term_kill_region s to kill ≡ cut_region s to s.term_cmd_buf_index kill
unfolding term_kill_region
region_left s to kill l inside =
    let e : ltb to s.term_cmd_buf_index ≡ true = ground arith in
    let e' : ltb s.term_cmd_buf_len s.term_cmd_buf_index ≡ false = ground arith in
    rw (e, e', e) refl

pub region_right :
    (s : Readline) (to : ℕ) (kill : Bool)
    → s.term_cmd_buf_index < to
    → to ≤ s.term_cmd_buf_len
    → term_kill_region s to kill ≡ cut_region s s.term_cmd_buf_index to kill
unfolding term_kill_region
region_right s to kill l inside =
    let e : ltb to s.term_cmd_buf_index ≡ false = ground arith in
    let e' : ltb s.term_cmd_buf_len to ≡ false = ground arith in
    let e'' : ltb s.term_cmd_buf_index to ≡ true = ground arith in rw (e, e', e'') refl

pub region_empty :
    (s : Readline) (to : ℕ) (kill : Bool)
    → to ≡ s.term_cmd_buf_index
    → term_kill_region s to kill ≡ s
unfolding term_kill_region
region_empty s to kill e = rw e (ground arith)

-- What the kill buffer holds after the region with the text `t` is taken out.
unfoldable pub kill_into : Bool → List ℕ → List ℕ → List ℕ
kill_into true (c ∷ t) k = c ∷ t
kill_into _ _ k = k

-- The line and the kill buffer.
pub record IsEdited (s : Readline) (l r k : List ℕ) : Type 0 where
  pub line : IsLine s l r
  pub killed : IsKilled s k

pub cut-IsEdited :
    {s : Readline} (start end : ℕ) (l t r k : List ℕ) (kill : Bool)
    → start ≡ length (back l)
    → end ≡ length (back l) + length (bytes t)
    → words_at s.term_cmd_buf 0 s.term_cmd_buf_len ≡ back l ++ (bytes t ++ bytes r)
    → All IsCode l
    → All IsCode t
    → All IsCode r
    → t ≢ []
    → IsKilled s k
    → IsEdited (cut_region s start end kill) l r (kill_into kill t k)
cut-IsEdited {s} start end l t r k kill at at' text ls ts rs some_text v = record {
  line = record {
    text = cut_region-text s start end (back l) (bytes t) (bytes r) kill at at' text;
    here = cut_region-index s start end kill ∙ at;
    codes_before = ls;
    codes_behind = rs;
  };
  killed = killed_text kill;
}
  where
    killed_some :
        (t' : List ℕ) → t' ≡ t → IsKilled (cut_region s start end true) (kill_into true t' k)
    killed_some [] e = absurd (some_text (sym e))
    killed_some (c ∷ t') e =
        unfold kill_into in
        record {
          text =
              cut_region-killed s start end (back l) (bytes t) (bytes r) true at at' text refl
              ∙ ap bytes (sym e);
          codes = rw (sym e) at ts;
        }

    killed_text : (b : Bool) → IsKilled (cut_region s start end b) (kill_into b t k)
    killed_text true = killed_some t refl
    killed_text false = unfold kill_into in cut_region-kept s start end k v
