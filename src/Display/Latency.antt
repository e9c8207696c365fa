-- ===== src/Display/Latency.antt =====
-- `Display` of the latency results in src/report/result/latency.rs.
use Prim.Native.String.{String}
use speed_cli.Base.{none, some, [], ◌∷◌, ltb, if◌then◌else◌}
use speed_cli.Base.Decimal.{print_usize}
use speed_cli.Base.Text.{Text, codes, format}
use speed_cli.Base.Writing.{Writer, Action, ◌>>◌, write}
use speed_cli.Float.{Float}
use speed_cli.Report.Latency.{
  LatencyResult, LatencyMeasurement, count, successful_count, dropped_count, avg_rtt, min_rtt,
  max_rtt, percentile_rtt, jitter,
}
use speed_cli.Html.{Stamped}
use speed_cli.Display.{
  Print, row, row_some, bold, bright_blue, blue, cyan, green, magenta, red, white, yellow,
}

module _ {F T W : Type 0} (f : Float F) (p : Print F T) (out : Writer W) where
  abbrev figure : String → Text → Action W
  figure label value = row p out (codes "    ") (bright_blue ∷ bold ∷ []) (codes label) value

  abbrev milliseconds : F → Text
  milliseconds x = format (p.texts.two_decimals x ∷ codes " ms" ∷ [])

  unfoldable pub loss_rate : LatencyResult F → F
  loss_rate r =
      if ltb 0 (count f r)
      then f.mul (f.div (f.of_u64 (dropped_count f r)) (f.of_u64 (count f r))) (f.lit 100 1)
      else f.lit 0 1

  unfoldable pub print_statistics : LatencyResult F → Action W
  unfolding row_some
  print_statistics r =
      row_some p out (codes "    ") (bright_blue ∷ bold ∷ []) (codes "Average RTT") (avg_rtt f r)
        (λ x. p.paint (cyan ∷ []) (milliseconds x))
      >> row_some p out (codes "    ") (bright_blue ∷ bold ∷ []) (codes "Min RTT") (min_rtt f r)
          (λ x. p.paint (green ∷ []) (milliseconds x))
      >> row_some p out (codes "    ") (bright_blue ∷ bold ∷ []) (codes "25th Percentile RTT")
          (percentile_rtt f r (f.lit 25 1)) (λ x. p.paint (yellow ∷ []) (milliseconds x))
      >> row_some p out (codes "    ") (bright_blue ∷ bold ∷ []) (codes "Median RTT")
          (percentile_rtt f r (f.lit 50 1)) (λ x. p.paint (yellow ∷ []) (milliseconds x))
      >> row_some p out (codes "    ") (bright_blue ∷ bold ∷ []) (codes "75th Percentile RTT")
          (percentile_rtt f r (f.lit 75 1)) (λ x. p.paint (yellow ∷ []) (milliseconds x))
      >> row_some p out (codes "    ") (bright_blue ∷ bold ∷ []) (codes "Max RTT") (max_rtt f r)
          (λ x. p.paint (yellow ∷ []) (milliseconds x))
      >> row_some p out (codes "    ") (bright_blue ∷ bold ∷ []) (codes "Jitter") (jitter f r)
          (λ x. p.paint (magenta ∷ []) (milliseconds x))

  unfoldable pub print_latency : Stamped T (LatencyResult F) → Action W
  unfolding row print_statistics loss_rate
  print_latency r =
      figure "Total Measurements" (p.paint (white ∷ []) (print_usize (count f r.figures)))
      >> figure "Successful" (p.paint (green ∷ []) (print_usize (successful_count f r.figures)))
      >> figure "Dropped" (p.paint (red ∷ []) (print_usize (dropped_count f r.figures)))
      >> figure "Packet Loss" (
          p.paint (red ∷ []) (format (p.texts.two_decimals (loss_rate r.figures) ∷ codes "%" ∷ [])))
      >> print_statistics r.figures
      >> figure "Timestamp" (p.paint (blue ∷ []) (p.texts.format_time r.timestamp))

  unfoldable pub print_latency_measurement : LatencyMeasurement F → Action W
  print_latency_measurement m = elim m.rtt_ms [
    | some rtt ↦ write out (p.texts.two_decimals rtt ∷ codes " ms" ∷ [])
    | none ↦ write out (p.paint (red ∷ []) (codes "dropped") ∷ [])
  ]
