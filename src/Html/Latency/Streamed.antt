-- ===== src/Html/Latency/Streamed.antt =====
-- `write_html` of the latency results in src/renderer/mod.rs.
use speed_cli.Base.{Option, none, some, List, [], ◌∷◌, ltb, if◌then◌else◌}
use speed_cli.Base.Decimal.{print_usize}
use speed_cli.Float.{Float}
use speed_cli.Report.Latency.{
  LatencyResult, count, successful_count, dropped_count, avg_rtt, min_rtt, max_rtt, percentile_rtt,
  jitter,
}
use speed_cli.Html.{Text, lines, Format, Stamped, Writer, Action, ◌>>◌, done, write}
use speed_cli.Html.Latency.{loss_rate}

-- `if let Some(x)` around a `write!`.
unfoldable pub write_some : {F W : Type 0} → Writer W → Option F → (F → List Text) → Action W
write_some out none pieces = done
write_some out (some x) pieces = write out (pieces x)

module _ {F T W : Type 0} (f : Float F) (fmt : Format F T) (out : Writer W) where
  -- What is written of the statistics of the round trips.
  unfoldable pub write_statistics : LatencyResult F → Action W
  write_statistics r =
      write_some out (avg_rtt f r) (λ x.
        (lines (
            "<div style=\"display: flex; justify-content: space-between;\">"
            ∷ "                        <strong>Average RTT:</strong> "
            ∷ "                        <span style=\"color: #007acc;\">" ∷ [])
          ∷ fmt.two_decimals x
          ∷ lines (" ms</span>" ∷ "                    </div>" ∷ [])
          ∷ []))
      >> write_some out (min_rtt f r) (λ x.
        (lines (
            "<div style=\"display: flex; justify-content: space-between;\">"
            ∷ "                        <strong>Min RTT:</strong> "
            ∷ "                        <span style=\"color: #28a745;\">" ∷ [])
          ∷ fmt.two_decimals x
          ∷ lines (" ms</span>" ∷ "                    </div>" ∷ [])
          ∷ []))
      >> write_some out (percentile_rtt f r (f.lit 25 1)) (λ x.
        (lines (
            "<div style=\"display: flex; justify-content: space-between;\">"
            ∷ "                        <strong>25th Percentile RTT:</strong> "
            ∷ "                        <span style=\"color: #fd7e14;\">" ∷ [])
          ∷ fmt.two_decimals x
          ∷ lines (" ms</span>" ∷ "                    </div>" ∷ [])
          ∷ []))
      >> write_some out (percentile_rtt f r (f.lit 50 1)) (λ x.
        (lines (
            "<div style=\"display: flex; justify-content: space-between;\">"
            ∷ "                        <strong>Median RTT:</strong> "
            ∷ "                        <span style=\"color: #fd7e14;\">" ∷ [])
          ∷ fmt.two_decimals x
          ∷ lines (" ms</span>" ∷ "                    </div>" ∷ [])
          ∷ []))
      >> write_some out (percentile_rtt f r (f.lit 75 1)) (λ x.
        (lines (
            "<div style=\"display: flex; justify-content: space-between;\">"
            ∷ "                        <strong>75th Percentile RTT:</strong> "
            ∷ "                        <span style=\"color: #fd7e14;\">" ∷ [])
          ∷ fmt.two_decimals x
          ∷ lines (" ms</span>" ∷ "                    </div>" ∷ [])
          ∷ []))
      >> write_some out (max_rtt f r) (λ x.
        (lines (
            "<div style=\"display: flex; justify-content: space-between;\">"
            ∷ "                        <strong>Max RTT:</strong> "
            ∷ "                        <span style=\"color: #fd7e14;\">" ∷ [])
          ∷ fmt.two_decimals x
          ∷ lines (" ms</span>" ∷ "                    </div>" ∷ [])
          ∷ []))
      >> write_some out (jitter f r) (λ x.
        (lines (
            "<div style=\"display: flex; justify-content: space-between;\">"
            ∷ "                        <strong>Jitter (Std Dev):</strong> "
            ∷ "                        <span style=\"color: #6f42c1;\">" ∷ [])
          ∷ fmt.two_decimals x
          ∷ lines (" ms</span>" ∷ "                    </div>" ∷ [])
          ∷ []))

  unfoldable pub write_latency : Stamped T (LatencyResult F) → Action W
  unfolding write_statistics loss_rate
  write_latency r =
      write out (
        lines (
          "<div style=\"background-color: #f8f9fa; padding: 20px; border-radius: 6px; border-left: 4px solid #007acc;\">"
          ∷ "                <div style=\"display: grid; grid-template-columns: repeat(auto-fit, minmax(250px, 1fr)); gap: 15px; margin-bottom: 20px;\">"
          ∷ "                    <div style=\"display: flex; justify-content: space-between;\">"
          ∷ "                        <strong>Total Measurements:</strong> "
          ∷ "                        <span style=\"color: #6c757d;\">" ∷ [])
        ∷ print_usize (count f r.figures)
        ∷ lines (
            "</span>" ∷ "                    </div>"
            ∷ "                    <div style=\"display: flex; justify-content: space-between;\">"
            ∷ "                        <strong>Successful:</strong> "
            ∷ "                        <span style=\"color: #28a745;\">" ∷ [])
        ∷ print_usize (successful_count f r.figures)
        ∷ lines (
            "</span>" ∷ "                    </div>"
            ∷ "                    <div style=\"display: flex; justify-content: space-between;\">"
            ∷ "                        <strong>Dropped:</strong> "
            ∷ "                        <span style=\"color: #dc3545;\">" ∷ [])
        ∷ print_usize (dropped_count f r.figures)
        ∷ lines (
            "</span>" ∷ "                    </div>"
            ∷ "                    <div style=\"display: flex; justify-content: space-between;\">"
            ∷ "                        <strong>Packet Loss:</strong> "
            ∷ "                        <span style=\"color: #dc3545;\">" ∷ [])
        ∷ fmt.two_decimals (loss_rate f fmt r.figures)
        ∷ lines ("%</span>" ∷ "                    </div>" ∷ [])
        ∷ [])
      >> (if ltb 0 (successful_count f r.figures) then write_statistics r.figures else done)
      >> write out (
          lines (
            "</div>" ∷ "                <div style=\"margin-top: 15px;\">"
            ∷ "                    <strong>Timestamp:</strong> "
            ∷ "                    <span style=\"color: #007acc;\">" ∷ [])
          ∷ fmt.format_time r.timestamp
          ∷ lines ("</span>" ∷ "                </div>" ∷ "            </div>" ∷ [])
          ∷ [])
