-- ===== src/Display.antt =====
-- `Display` of the reports in src/report, as the program prints them on a terminal. A `writeln!` is
-- the list of its parts in order, as in Html. The colours (colored), the grouping of digits
-- (num-format) and the texts of dates, sizes and floats are parameters.
pub mod Configs
pub mod Latency
pub mod Throughput
pub mod Reports
pub mod Indent
use speed_cli.Base.{ℕ, List, [], ◌∷◌, Option, none, some}
use speed_cli.Base.Text.{Text, codes}
use speed_cli.Base.Writing.{Writer, Action, done, write}
use speed_cli.Html.{Format}

-- The methods of `colored::Colorize` that are used.
pub data Style : Type 0 where
  bold : Style
  underline : Style
  bright_blue : Style
  bright_cyan : Style
  bright_green : Style
  bright_white : Style
  bright_yellow : Style
  blue : Style
  cyan : Style
  green : Style
  magenta : Style
  red : Style
  white : Style
  yellow : Style

-- What printing takes from other code: the texts of Html, `{:.1}` on an f64, `format_size` with bits
-- per second, `to_formatted_string` with `Locale::en`, and a text in the styles that it was given.
pub record Print (F T : Type 0) : Type 0 where
  pub texts : Format F T
  pub one_decimal : F → Text
  pub format_bits : ℕ → Text
  pub grouped : ℕ → Text
  pub paint : List Style → Text → Text

module _ {F T W : Type 0} (p : Print F T) (out : Writer W) where
  -- `writeln!(f, "  {}: {}", label, value)`, with the indentation as it is in the literal.
  unfoldable pub row : Text → List Style → Text → Text → Action W
  row indentation styles label value =
      write out (indentation ∷ p.paint styles label ∷ codes ": " ∷ value ∷ codes "\n" ∷ [])

  -- `if let Some(x)` around such a row.
  unfoldable pub row_some : Text → List Style → Text → Option F → (F → Text) → Action W
  unfolding row
  row_some indentation styles label none value = done
  row_some indentation styles label (some x) value = row indentation styles label (value x)
