-- ===== src/Base/Writing.antt =====
-- `std::io::Write` and `std::fmt::Write`: functions that write texts, and may fail.
use mathlib.Core.List.{List, [], ◌∷◌, ◌++◌}
use speed_cli.Base.Text.{Text}

-- `io::Result<()>` or `fmt::Result`, with the text of the error.
pub data IoResult : Type 0 where
  ok : IoResult
  err : (message : Text) → IoResult

-- A writer, of which the program uses `write_all`, as `write_str` is called for `fmt::Write`.
pub record Writer (W : Type 0) : Type 0 where
  pub write_all : Text → W → W × IoResult

-- `Write` of a `Vec`, which never fails.
abbrev pub vec : Writer Text
vec = record { write_all = λ s v. (v ++ s, ok) }

-- A function that writes.
abbrev pub Action : Type 0 → Type 0
Action W = W → W × IoResult

abbrev pub and_then : {W : Type 0} → W × IoResult → Action W → W × IoResult
and_then (w, ok) next = next w
and_then (w, err message) next = (w, err message)

-- One action after the other, with the `?` operator between them.
infixr 4 ◌>>◌
unfoldable pub ◌>>◌ : {W : Type 0} → Action W → Action W → Action W
(a >> b) w = and_then (a w) b

unfoldable pub done : {W : Type 0} → Action W
done w = (w, ok)

module _ {W : Type 0} (out : Writer W) where
  unfoldable pub write : List Text → Action W
  write [] w = (w, ok)
  write (s ∷ ss) w = and_then (out.write_all s w) (λ w'. write ss w')
