-- ===== src/Shell/Color.antt =====
-- How far a color holds.
use mquickjs.Base.{ℕ, ◌+◌, ◌≤◌, ◌<◌, ◌≡◌, ◌⊎◌, true, ◌==◌}
use mquickjs.Props.{Words}

-- The line is in the first `n` bytes of the buffer, with a byte 0 behind it, the first one.
pub record IsEnded (buf : Words) (n : ℕ) : Type 0 where
  pub stop : buf n ≡ 0
  pub before : (i : ℕ) → i < n → 0 < buf i

-- The end of the comment, or of the line.
abbrev AtEnd : Words → ℕ → Type 0
AtEnd buf i = (buf i ≡ 0) ⊎ ((buf (i + 1) == b'/') ≡ true)

-- A color that holds for at least a byte, and not behind the line.
abbrev pub Within : ℕ → ℕ → ℕ → Type 0
Within pos n len = (1 ≤ len) × (pos + len ≤ n)
