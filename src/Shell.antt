-- ===== src/Shell.antt =====
-- The colors of the shell's command line in mqjs.c: `term_get_color`.
use Prim.Native.Char.{code}
use Prim.Native.String.{String}
use mquickjs.Base.{
  ℕ, zero, suc, ◌+◌, ◌-◌, Bool, true, false, not, ◌&&◌, ◌||◌, Option, none, some, List, [], ◌∷◌,
  ◌++◌, length, ltb, leb, ◌==◌, if◌then◌else◌,
}
use mquickjs.Base.Slices.{words_of}
use mquickjs.Props.{Words}
use mquickjs.Readline.History.{same_bytes}
pub mod Color
mod Examples

-- The bytes of a text in ASCII.
abbrev codes : String → List ℕ
codes String.[] = []
codes (String.◌∷◌ c s) = code c ∷ codes s

abbrev pub js_keywords : List ℕ
js_keywords =
    codes "break|case|catch|continue|debugger|default|delete|do|"
    ++ codes "else|finally|for|function|if|in|instanceof|new|"
    ++ codes "return|switch|this|throw|try|typeof|while|with|"
    ++ codes "class|const|enum|import|export|extends|super|"
    ++ codes "implements|interface|let|package|private|protected|"
    ++ codes "public|static|yield|"
    ++ codes "undefined|null|true|false|Infinity|NaN|"
    ++ codes "eval|arguments|"
    ++ codes "await|"

abbrev pub js_types : List ℕ
js_types = codes "void|var|"

abbrev pub style_default : ℕ
style_default = 11

abbrev pub style_comment : ℕ
style_comment = 8

abbrev pub style_string : ℕ
style_string = 15

abbrev pub style_number : ℕ
style_number = 3

abbrev pub style_keyword : ℕ
style_keyword = 16

abbrev pub style_function : ℕ
style_function = 12

abbrev pub style_type : ℕ
style_type = 14

abbrev pub style_identifier : ℕ
style_identifier = 11

abbrev pub is_word : ℕ → Bool
is_word c =
    (leb b'0' c && leb c b'9')
    || (leb b'A' c && leb c b'Z')
    || (leb b'a' c && leb c b'z')
    || (c == b'_')
    || (c == b'$')

-- strchr from `i` on, in a text that ends before the `fuel` bytes do
unfoldable pub strchr : ℕ → Words → ℕ → ℕ → Option ℕ
strchr zero m i c = none
strchr (suc fuel) m i c =
    let rest = strchr fuel m (suc i) c in
    if m i == c then some i else if m i == 0 then none else rest

-- The search for the `len` bytes at `pos` in the words of `dict` from `p` on; each word takes a byte at least.
unfoldable pub find_keyword : ℕ → Words → ℕ → ℕ → Words → ℕ → Bool
unfolding strchr
find_keyword zero buf pos len dict p = false
find_keyword (suc fuel) buf pos len dict p = elim (strchr (suc fuel) dict p b'|') [
  | none ↦ false
  | some r ↦
      let rest = find_keyword fuel buf pos len dict (r + 1) in
      if dict p == 0
      then false
      else if (r - p == len) && same_bytes len buf pos dict p
      then true
      else rest
]

-- The loop over a string that `c` ends, up to the byte behind it or the end of the line.
unfoldable pub skip_string : ℕ → Words → ℕ → ℕ → ℕ
skip_string zero buf c pos = pos
skip_string (suc fuel) buf c pos =
    let two = skip_string fuel buf c (pos + 2) in
    let one = skip_string fuel buf c (pos + 1) in
    if (buf pos == 0) || (buf pos == c)
    then pos
    else if (buf pos == 92) && not (buf (pos + 1) == 0)
    then two
    else one

-- The loop over a comment.
unfoldable pub skip_comment : ℕ → Words → ℕ → ℕ
skip_comment zero buf pos = pos
skip_comment (suc fuel) buf pos =
    let rest = skip_comment fuel buf (pos + 1) in
    if not (buf pos == 0) && not ((buf pos == b'*') && (buf (pos + 1) == b'/')) then rest else pos

-- while (test(buf[pos])) pos++
unfoldable pub skip_while : ℕ → (ℕ → Bool) → Words → ℕ → ℕ
skip_while zero test buf pos = pos
skip_while (suc fuel) test buf pos =
    let rest = skip_while fuel test buf (pos + 1) in if test (buf pos) then rest else pos

-- The color and the length of a string whose quote `c` is at `pos`.
abbrev pub string_color : Words → ℕ → ℕ → ℕ → ℕ × ℕ
string_color buf c pos buf_len =
    let pos1 = skip_string buf_len buf c (pos + 1) in
    (style_string, (if buf pos1 == 0 then pos1 else pos1 + 1) - pos)

abbrev pub comment_color : Words → ℕ → ℕ → ℕ × ℕ
comment_color buf pos buf_len =
    let pos1 = skip_comment buf_len buf (pos + 2) in
    (style_comment, (if buf pos1 == 0 then pos1 else pos1 + 2) - pos)

abbrev pub word_color : Words → ℕ → ℕ → ℕ × ℕ
word_color buf pos buf_len =
    let pos1 = skip_while buf_len is_word buf (pos + 1) in
    let len = pos1 - pos in
    let pos2 = skip_while buf_len (λ c. c == 32) buf pos1 in
    (
      if find_keyword (length js_keywords) buf pos len (words_of js_keywords) 0
          then style_keyword
          else if buf pos2 == b'('
          then style_function
          else if find_keyword (length js_types) buf pos len (words_of js_types) 0
          then style_type
          else style_identifier,
      len,
    )

unfoldable pub term_get_color : Words → ℕ → ℕ → ℕ × ℕ
unfolding skip_string skip_comment skip_while find_keyword
term_get_color buf pos buf_len =
    let c = buf pos in
    if (c == 34) || (c == 39)
    then string_color buf c pos buf_len
    else if (c == b'/') && (buf (pos + 1) == b'*')
    then comment_color buf pos buf_len
    else if (leb b'0' c && leb c b'9') || (c == b'.')
    then (style_number, skip_while buf_len is_word buf (pos + 1) - pos)
    else if is_word c
    then word_color buf pos buf_len
    else (style_default, 1)
