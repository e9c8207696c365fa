-- ===== src/Display/Throughput.antt =====
-- `Display` of the throughput results and measurements in src/report.
use Prim.Native.String.{String}
use speed_cli.Base.{ℕ, List, [], ◌∷◌, ltb, if◌then◌else◌, is_empty, length}
use speed_cli.Base.Decimal.{print_usize}
use speed_cli.Base.Text.{Text, codes, format}
use speed_cli.Base.Writing.{Writer, Action, ◌>>◌, done, write}
use speed_cli.Float.{Float}
use speed_cli.Report.Throughput.{
  ThroughputResult, ThroughputMeasurement, success, failure, ErrorType, connection_failures,
  transfer_failures, timeouts, unknowns, bytes_transferred, avg_throughput, connection_success_rate,
  retry_statistics, retry_success_rate, error_distribution, total_errors, throughput_bps,
}
use speed_cli.Html.{Stamped}
use speed_cli.Html.Figures.{error_text, as_millis}
use speed_cli.Display.{
  Print, row, bold, bright_green, bright_yellow, blue, cyan, green, magenta, red, white, yellow,
}

-- The keys of the error distribution.
unfoldable pub error_name : ErrorType → Text
error_name connection_failures = codes "Connection Failed"
error_name transfer_failures = codes "Transfer Failed"
error_name timeouts = codes "Timeout"
error_name unknowns = codes "Unknown"

module _ {F T W : Type 0} (f : Float F) (p : Print F T) (out : Writer W) where
  abbrev result_row : String → Text → Action W
  result_row label value = row p out (codes "  ") (bright_green ∷ bold ∷ []) (codes label) value

  -- `request_success_rate` is `connection_success_rate`.
  abbrev percent : F → Text
  percent rate = format (p.one_decimal (f.mul rate (f.lit 100 1)) ∷ codes "%" ∷ [])

  unfoldable pub print_retries : ThroughputResult → Action W
  print_retries r =
      let s = retry_statistics r in
      if ltb 0 s.total_retries
      then write out (
          codes "  "
          ∷ p.paint (bright_green ∷ bold ∷ []) (codes "Total Retries")
          ∷ codes ": "
          ∷ p.paint (yellow ∷ []) (p.grouped s.total_retries)
          ∷ codes " (Success: "
          ∷ p.paint (green ∷ []) (p.grouped s.successful_after_retry)
          ∷ codes ", Failed: "
          ∷ p.paint (red ∷ []) (p.grouped s.failed_after_retry)
          ∷ codes ")\n"
          ∷ [])
        >> write out (
            codes "  "
            ∷ p.paint (bright_green ∷ bold ∷ []) (codes "Retry Success Rate")
            ∷ codes ": "
            ∷ p.one_decimal (f.mul (retry_success_rate f r) (f.lit 100 1))
            ∷ codes "%\n"
            ∷ [])
      else done

  -- The loop over the entries of the hash map, in the order in which it gives them.
  unfoldable pub print_error_types : List (ErrorType × ℕ) → Action W
  unfolding row error_name
  print_error_types [] = done
  print_error_types ((error_type, count) ∷ rest) =
      row p out (codes "    ") (bright_yellow ∷ []) (error_name error_type)
        (p.paint (red ∷ []) (p.grouped count))
      >> print_error_types rest

  unfoldable pub print_errors :
      (List (ErrorType × ℕ) → List (ErrorType × ℕ)) → ThroughputResult → Action W
  unfolding print_error_types
  print_errors iter r =
      if is_empty (iter (error_distribution r))
      then done
      else write out (
          codes "  "
          ∷ p.paint (bright_green ∷ bold ∷ []) (codes "Errors")
          ∷ codes ": "
          ∷ p.paint (red ∷ []) (p.grouped (total_errors r))
          ∷ codes " total\n"
          ∷ [])
        >> print_error_types (iter (error_distribution r))

  -- `iter` gives the order in which the entries of a hash map come.
  unfoldable pub print_throughput :
      (List (ErrorType × ℕ) → List (ErrorType × ℕ)) → Stamped T ThroughputResult → Action W
  unfolding row print_retries print_errors
  print_throughput iter r =
      result_row "Data Transferred"
        (p.paint (cyan ∷ []) (p.texts.format_size (bytes_transferred r.figures)))
      >> result_row "Duration" (
          p.paint (yellow ∷ [])
            (format (p.texts.two_decimals (f.as_secs r.figures.total_duration) ∷ codes "s" ∷ [])))
      >> result_row "Average Throughput" (
          p.paint (magenta ∷ [])
            (p.format_bits (f.to_usize (f.mul (avg_throughput f r.figures) (f.lit 8 1)))))
      >> result_row "Connection Success Rate"
          (p.paint (green ∷ []) (percent (connection_success_rate f r.figures)))
      >> result_row "Request Success Rate"
          (p.paint (green ∷ []) (percent (connection_success_rate f r.figures)))
      >> print_retries r.figures
      >> print_errors iter r.figures
      >> result_row "Measurements"
          (p.paint (white ∷ []) (p.grouped (length r.figures.measurements)))
      >> result_row "Timestamp" (p.paint (blue ∷ []) (p.texts.format_time r.timestamp))

  unfoldable pub print_throughput_measurement : ThroughputMeasurement → Action W
  unfolding error_text
  print_throughput_measurement (success bytes duration) = write out (
      p.paint (cyan ∷ []) (p.texts.format_size bytes)
      ∷ codes " in "
      ∷ p.paint (yellow ∷ []) (print_usize (as_millis duration))
      ∷ codes " ms ("
      ∷ p.paint (magenta ∷ []) (p.texts.format_size_i (throughput_bps f (success bytes duration)))
      ∷ codes ")"
      ∷ [])
  print_throughput_measurement (failure error duration retry_count) = write out (
      p.paint (red ∷ []) (codes "Error")
      ∷ codes ": "
      ∷ error_text error
      ∷ codes " (after "
      ∷ p.paint (yellow ∷ []) (print_usize (as_millis duration))
      ∷ codes " ms, "
      ∷ p.paint (yellow ∷ []) (print_usize retry_count)
      ∷ codes " retries)"
      ∷ [])
