-- ===== src/Shell/Examples.antt =====
-- Colors of concrete lines.
use mquickjs.Base.{◌≡◌, refl, [], ◌∷◌}
use mquickjs.Base.Slices.{words_of}
use mquickjs.Props.{Words}
use mquickjs.Readline.History.{same_bytes}
use mquickjs.Shell.{term_get_color, find_keyword, strchr, skip_while}

abbrev if_line : Words
if_line = words_of (b'i' ∷ b'f' ∷ b'(' ∷ [])

-- `if` is a keyword of two bytes.
keyword_if : term_get_color if_line 0 3 ≡ (16, 2)
unfolding term_get_color find_keyword strchr skip_while same_bytes
keyword_if = refl
