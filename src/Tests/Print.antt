-- ===== src/Tests/Print.antt =====
-- A print of numbers that can be read back: as many marks as the number says.
use Prim.Native.Nat.{ℕ, zero, suc}
use Prim.Native.String.{String, [], ◌∷◌, count}
use mathlib.Core.Path.{◌≡◌, ap, ◌∙◌}
use text.Mathlib.TextLemmas.{length-nil, length-cons}

unfoldable pub marks : ℕ → String
marks zero = []
marks (suc n) = "1" ∷ marks n

abbrev pub read_marks : String → ℕ
read_marks s = count s

pub read-marks : (n : ℕ) → read_marks (marks n) ≡ n
unfolding marks
read-marks zero = length-nil
read-marks (suc n) = length-cons "1" (marks n) ∙ ap suc (read-marks n)
