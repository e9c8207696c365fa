-- ===== src/Html/Figures.antt =====
-- The throughput results in src/renderer/mod.rs, and the measurements.
use speed_cli.Base.{ℕ, ◌/◌, none, some, [], ◌∷◌, ◌++◌, length}
use speed_cli.Base.Decimal.{print_usize}
use speed_cli.Base.Time.{Duration}
use speed_cli.Float.{Float}
use speed_cli.Report.Latency.{LatencyMeasurement}
use speed_cli.Report.Throughput.{
  ThroughputResult, ThroughputMeasurement, success, failure, ConnectionError, connection_failed,
  transfer_failed, timeout, unknown, bytes_transferred, avg_throughput, throughput_bps,
}
use speed_cli.Html.{Text, codes, lines, format, Format, Stamped, Writer, Action, write}

-- `Display` of a `ConnectionError`.
unfoldable pub error_text : ConnectionError → Text
error_text (connection_failed msg) = codes "Connection failed: " ++ msg
error_text (transfer_failed msg) = codes "Transfer failed: " ++ msg
error_text (timeout msg) = codes "Timeout: " ++ msg
error_text (unknown msg) = codes "Unknown error: " ++ msg

-- `Duration::as_millis`.
abbrev pub as_millis : Duration → ℕ
as_millis d = d / 1_000_000

module _ {F T : Type 0} (f : Float F) (fmt : Format F T) where
  -- `to_html` of a `LatencyMeasurement` and of a `ThroughputMeasurement`.
  unfoldable pub latency_measurement_html : LatencyMeasurement F → Text
  latency_measurement_html m = elim m.rtt_ms [
    | some rtt ↦
        format (
          codes "<span style=\"color: #28a745;\">" ∷ fmt.two_decimals rtt ∷ codes " ms</span>" ∷ [])
    | none ↦ codes "<span style=\"color: #dc3545;\">dropped</span>"
  ]

  unfoldable pub throughput_measurement_html : ThroughputMeasurement → Text
  unfolding error_text
  throughput_measurement_html (success bytes duration) = format (
      lines (
        "<div style=\"display: flex; justify-content: space-between; padding: 8px; background-color: #f8f9fa; border-radius: 4px; margin: 5px 0;\">"
        ∷ "                        <span>" ∷ [])
      ∷ fmt.format_size bytes
      ∷ codes " in "
      ∷ print_usize (as_millis duration)
      ∷ lines (" ms</span>" ∷ "                        <span style=\"color: #6f42c1;\">" ∷ [])
      ∷ fmt.format_size_i (throughput_bps f (success bytes duration))
      ∷ lines ("</span>" ∷ "                    </div>" ∷ [])
      ∷ [])
  throughput_measurement_html (failure error duration retry_count) = format (
      lines (
        "<div style=\"display: flex; justify-content: space-between; padding: 8px; background-color: #f8d7da; border-radius: 4px; margin: 5px 0;\">"
        ∷ "                        <span style=\"color: #721c24;\">Error: " ∷ [])
      ∷ error_text error
      ∷ codes " (after "
      ∷ print_usize (as_millis duration)
      ∷ codes " ms, "
      ∷ print_usize retry_count
      ∷ lines (
          " retries)</span>"
          ∷ "                        <span style=\"color: #dc3545;\">Failed</span>"
          ∷ "                    </div>" ∷ [])
      ∷ [])

  unfoldable pub throughput_html : Stamped T ThroughputResult → Text
  throughput_html r = format (
      lines (
        "<div class=\"result-card\" style=\"background-color: #f8f9fa; padding: 20px; border-radius: 6px; border-left: 4px solid #28a745;\">"
        ∷ "                <h3 style=\"color: #28a745; margin-top: 0;\">Throughput Results</h3>"
        ∷ "                <div style=\"display: grid; gap: 15px;\">"
        ∷ "                    <div style=\"display: flex; justify-content: space-between;\">"
        ∷ "                        <strong>Data Transferred:</strong> "
        ∷ "                        <span style=\"color: #007acc;\">" ∷ [])
      ∷ fmt.format_size (bytes_transferred r.figures)
      ∷ lines (
          "</span>" ∷ "                    </div>"
          ∷ "                    <div style=\"display: flex; justify-content: space-between;\">"
          ∷ "                        <strong>Duration:</strong> "
          ∷ "                        <span style=\"color: #fd7e14;\">" ∷ [])
      ∷ fmt.two_decimals (f.as_secs r.figures.total_duration)
      ∷ lines (
          "s</span>" ∷ "                    </div>"
          ∷ "                    <div style=\"display: flex; justify-content: space-between;\">"
          ∷ "                        <strong>Average Throughput:</strong> "
          ∷ "                        <span style=\"color: #6f42c1;\">" ∷ [])
      ∷ fmt.format_size_i (avg_throughput f r.figures)
      ∷ lines (
          "</span>" ∷ "                    </div>"
          ∷ "                    <div style=\"display: flex; justify-content: space-between;\">"
          ∷ "                        <strong>Measurements:</strong> "
          ∷ "                        <span style=\"color: #6c757d;\">" ∷ [])
      ∷ print_usize (length r.figures.measurements)
      ∷ lines (
          "</span>" ∷ "                    </div>"
          ∷ "                    <div style=\"display: flex; justify-content: space-between;\">"
          ∷ "                        <strong>Timestamp:</strong> "
          ∷ "                        <span style=\"color: #007acc;\">" ∷ [])
      ∷ fmt.format_time r.timestamp
      ∷ lines (
          "</span>" ∷ "                    </div>" ∷ "                </div>" ∷ "            </div>"
          ∷ [])
      ∷ [])

module _ {F T W : Type 0} (f : Float F) (fmt : Format F T) (out : Writer W) where
  -- `write_html` of the measurements.
  unfoldable pub write_latency_measurement : LatencyMeasurement F → Action W
  unfolding latency_measurement_html
  write_latency_measurement m = write out (latency_measurement_html f fmt m ∷ [])

  unfoldable pub write_throughput_measurement : ThroughputMeasurement → Action W
  unfolding throughput_measurement_html
  write_throughput_measurement m = write out (throughput_measurement_html f fmt m ∷ [])

  unfoldable pub write_throughput : Stamped T ThroughputResult → Action W
  write_throughput r = write out (
      lines (
        "<div class=\"result-card\" style=\"background-color: #f8f9fa; padding: 20px; border-radius: 6px; border-left: 4px solid #28a745;\">"
        ∷ "                <h3 style=\"color: #28a745; margin-top: 0;\">Throughput Results</h3>"
        ∷ "                <div style=\"display: grid; gap: 15px;\">"
        ∷ "                    <div style=\"display: flex; justify-content: space-between;\">"
        ∷ "                        <strong>Data Transferred:</strong> "
        ∷ "                        <span style=\"color: #007acc;\">" ∷ [])
      ∷ fmt.format_size (bytes_transferred r.figures)
      ∷ lines (
          "</span>" ∷ "                    </div>"
          ∷ "                    <div style=\"display: flex; justify-content: space-between;\">"
          ∷ "                        <strong>Duration:</strong> "
          ∷ "                        <span style=\"color: #fd7e14;\">" ∷ [])
      ∷ fmt.two_decimals (f.as_secs r.figures.total_duration)
      ∷ lines (
          "s</span>" ∷ "                    </div>"
          ∷ "                    <div style=\"display: flex; justify-content: space-between;\">"
          ∷ "                        <strong>Average Throughput:</strong> "
          ∷ "                        <span style=\"color: #6f42c1;\">" ∷ [])
      ∷ fmt.format_size_i (avg_throughput f r.figures)
      ∷ lines (
          "</span>" ∷ "                    </div>"
          ∷ "                    <div style=\"display: flex; justify-content: space-between;\">"
          ∷ "                        <strong>Measurements:</strong> "
          ∷ "                        <span style=\"color: #6c757d;\">" ∷ [])
      ∷ print_usize (length r.figures.measurements)
      ∷ lines (
          "</span>" ∷ "                    </div>"
          ∷ "                    <div style=\"display: flex; justify-content: space-between;\">"
          ∷ "                        <strong>Timestamp:</strong> "
          ∷ "                        <span style=\"color: #007acc;\">" ∷ [])
      ∷ fmt.format_time r.timestamp
      ∷ lines (
          "</span>" ∷ "                    </div>" ∷ "                </div>" ∷ "            </div>"
          ∷ [])
      ∷ [])
