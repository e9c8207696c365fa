-- ===== src/Html/Latency.antt =====
-- The latency results in src/renderer/mod.rs: `to_html`, and Streamed for `write_html`.
pub mod Streamed
pub mod Shown
use speed_cli.Base.{Option, none, some, List, [], ◌∷◌, ◌++◌, ltb, if◌then◌else◌}
use speed_cli.Base.Decimal.{print_usize}
use speed_cli.Float.{Float}
use speed_cli.Report.Latency.{
  LatencyResult, count, successful_count, dropped_count, avg_rtt, min_rtt, max_rtt, percentile_rtt,
  jitter,
}
use speed_cli.Html.{Text, codes, lines, format, Format, Stamped}

-- `if let Some(x)` around a `push_str`.
unfoldable pub push_some : {F : Type 0} → Option F → (F → List Text) → Text
push_some none pieces = []
push_some (some x) pieces = format (pieces x)

module _ {F T : Type 0} (f : Float F) (fmt : Format F T) where
  -- The share of the dropped measurements, in percent.
  unfoldable pub loss_rate : LatencyResult F → F
  loss_rate r =
      if ltb 0 (count f r)
      then f.mul (f.div (f.of_u64 (dropped_count f r)) (f.of_u64 (count f r))) (f.lit 100 1)
      else f.lit 0 1

  -- What is pushed for the statistics of the round trips.
  unfoldable pub statistics_html : LatencyResult F → Text
  statistics_html r =
      push_some (avg_rtt f r) (λ x.
        (lines (
            "<div style=\"display: flex; justify-content: space-between;\">"
            ∷ "                        <strong>Average RTT:</strong> "
            ∷ "                        <span style=\"color: #007acc;\">" ∷ [])
          ∷ fmt.two_decimals x
          ∷ lines (" ms</span>" ∷ "                    </div>" ∷ [])
          ∷ []))
      ++ (push_some (min_rtt f r) (λ x.
            (lines (
                "<div style=\"display: flex; justify-content: space-between;\">"
                ∷ "                        <strong>Min RTT:</strong> "
                ∷ "                        <span style=\"color: #28a745;\">" ∷ [])
              ∷ fmt.two_decimals x
              ∷ lines (" ms</span>" ∷ "                    </div>" ∷ [])
              ∷ []))
          ++ (push_some (percentile_rtt f r (f.lit 25 1)) (λ x.
                (lines (
                    "<div style=\"display: flex; justify-content: space-between;\">"
                    ∷ "                        <strong>25th Percentile RTT:</strong> "
                    ∷ "                        <span style=\"color: #fd7e14;\">" ∷ [])
                  ∷ fmt.two_decimals x
                  ∷ lines (" ms</span>" ∷ "                    </div>" ∷ [])
                  ∷ []))
              ++ (push_some (percentile_rtt f r (f.lit 50 1)) (λ x.
                    (lines (
                        "<div style=\"display: flex; justify-content: space-between;\">"
                        ∷ "                        <strong>Median RTT:</strong> "
                        ∷ "                        <span style=\"color: #fd7e14;\">" ∷ [])
                      ∷ fmt.two_decimals x
                      ∷ lines (" ms</span>" ∷ "                    </div>" ∷ [])
                      ∷ []))
                  ++ (push_some (percentile_rtt f r (f.lit 75 1)) (λ x.
                        (lines (
                            "<div style=\"display: flex; justify-content: space-between;\">"
                            ∷ "                        <strong>75th Percentile RTT:</strong> "
                            ∷ "                        <span style=\"color: #fd7e14;\">" ∷ [])
                          ∷ fmt.two_decimals x
                          ∷ lines (" ms</span>" ∷ "                    </div>" ∷ [])
                          ∷ []))
                      ++ (push_some (max_rtt f r) (λ x.
                            (lines (
                                "<div style=\"display: flex; justify-content: space-between;\">"
                                ∷ "                        <strong>Max RTT:</strong> "
                                ∷ "                        <span style=\"color: #fd7e14;\">" ∷ [])
                              ∷ fmt.two_decimals x
                              ∷ lines (" ms</span>" ∷ "                    </div>" ∷ [])
                              ∷ []))
                          ++ (push_some (jitter f r) (λ x.
                              (lines (
                                  "<div style=\"display: flex; justify-content: space-between;\">"
                                  ∷ "                        <strong>Jitter (Std Dev):</strong> "
                                  ∷ "                        <span style=\"color: #6f42c1;\">" ∷ [])
                                ∷ fmt.two_decimals x
                                ∷ lines (" ms</span>" ∷ "                    </div>" ∷ [])
                                ∷ []))))))))

  unfoldable pub latency_html : Stamped T (LatencyResult F) → Text
  unfolding statistics_html loss_rate
  latency_html r =
      let stats_html =
        format (
          lines (
            "<div style=\"display: grid; grid-template-columns: repeat(auto-fit, minmax(250px, 1fr)); gap: 15px; margin-bottom: 20px;\">"
            ∷ "                <div style=\"display: flex; justify-content: space-between;\">"
            ∷ "                    <strong>Total Measurements:</strong> "
            ∷ "                    <span style=\"color: #6c757d;\">" ∷ [])
          ∷ print_usize (count f r.figures)
          ∷ lines (
              "</span>" ∷ "                </div>"
              ∷ "                <div style=\"display: flex; justify-content: space-between;\">"
              ∷ "                    <strong>Successful:</strong> "
              ∷ "                    <span style=\"color: #28a745;\">" ∷ [])
          ∷ print_usize (successful_count f r.figures)
          ∷ lines (
              "</span>" ∷ "                </div>"
              ∷ "                <div style=\"display: flex; justify-content: space-between;\">"
              ∷ "                    <strong>Dropped:</strong> "
              ∷ "                    <span style=\"color: #dc3545;\">" ∷ [])
          ∷ print_usize (dropped_count f r.figures)
          ∷ lines (
              "</span>" ∷ "                </div>"
              ∷ "                <div style=\"display: flex; justify-content: space-between;\">"
              ∷ "                    <strong>Packet Loss:</strong> "
              ∷ "                    <span style=\"color: #dc3545;\">" ∷ [])
          ∷ fmt.two_decimals (loss_rate r.figures)
          ∷ lines ("%</span>" ∷ "                </div>" ∷ [])
          ∷ [])
        ++ ((if ltb 0 (successful_count f r.figures) then statistics_html r.figures else [])
            ++ codes "</div>") in
      format (
        lines (
          "<div style=\"background-color: #f8f9fa; padding: 20px; border-radius: 6px; border-left: 4px solid #007acc;\">"
          ∷ "                " ∷ [])
        ∷ stats_html
        ∷ lines (
            "" ∷ "                <div style=\"margin-top: 15px;\">"
            ∷ "                    <strong>Timestamp:</strong> "
            ∷ "                    <span style=\"color: #007acc;\">" ∷ [])
        ∷ fmt.format_time r.timestamp
        ∷ lines ("</span>" ∷ "                </div>" ∷ "            </div>" ∷ [])
        ∷ [])
