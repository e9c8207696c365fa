-- ===== src/Html/Tags/Measurements.antt =====
-- The tags of single measurements in src/renderer/mod.rs.
use speed_cli.Base.{refl, Option-cases, inl, inr, [], ◌++◌}
use speed_cli.Float.{Float}
use speed_cli.Report.Latency.{LatencyMeasurement}
use speed_cli.Report.Throughput.{
  ThroughputMeasurement, success, failure, ConnectionError, connection_failed, transfer_failed,
  timeout, unknown,
}
use speed_cli.Html.{Text, codes, Format}
use speed_cli.Html.Figures.{error_text, latency_measurement_html, throughput_measurement_html}
use speed_cli.Html.Tags.{
  read, read_two, read_last, IsPlain, IsBalanced, IsBalanced-append, IsPlain-IsBalanced,
  print_usize-IsBalanced, IsPlainFormat, format_size-IsBalanced, format_size_i-IsBalanced,
  two_decimals-IsBalanced,
}

-- The message in an error.
abbrev pub message : ConnectionError → Text
message (connection_failed msg) = msg
message (transfer_failed msg) = msg
message (timeout msg) = msg
message (unknown msg) = msg

abbrev pub message_of : ThroughputMeasurement → Text
message_of (success bytes duration) = []
message_of (failure error duration retry_count) = message error

text-IsBalanced : (l msg : Text) → IsBalanced l → IsPlain msg → IsBalanced (l ++ msg)
text-IsBalanced l msg b h = IsBalanced-append b (IsPlain-IsBalanced msg h)

error_text-IsBalanced : (e : ConnectionError) → IsPlain (message e) → IsBalanced (error_text e)
unfolding error_text read
error_text-IsBalanced (connection_failed msg) h =
    text-IsBalanced (codes "Connection failed: ") msg (record { reads = λ o. refl }) h
error_text-IsBalanced (transfer_failed msg) h =
    text-IsBalanced (codes "Transfer failed: ") msg (record { reads = λ o. refl }) h
error_text-IsBalanced (timeout msg) h =
    text-IsBalanced (codes "Timeout: ") msg (record { reads = λ o. refl }) h
error_text-IsBalanced (unknown msg) h =
    text-IsBalanced (codes "Unknown error: ") msg (record { reads = λ o. refl }) h

module _ {F T : Type 0} (f : Float F) (fmt : Format F T) (plain : IsPlainFormat fmt) where
  pub latency_measurement_html-IsBalanced :
      (m : LatencyMeasurement F) → IsBalanced (latency_measurement_html f fmt m)
  unfolding latency_measurement_html read
  latency_measurement_html-IsBalanced m = elim (Option-cases m.rtt_ms) [
    | inl e ↦ rw e (record { reads = λ o. refl })
    | inr (rtt, e) ↦ rw e (record {
      reads = λ o. read_two _ _ _ _ refl (two_decimals-IsBalanced plain rtt) (read_last _ _ refl);
    })
  ]

  -- The error's message is shown as it is.
  pub throughput_measurement_html-IsBalanced :
      (m : ThroughputMeasurement)
      → IsPlain (message_of m)
      → IsBalanced (throughput_measurement_html f fmt m)
  unfolding throughput_measurement_html read
  throughput_measurement_html-IsBalanced (success bytes duration) h = record {
    reads = λ o. read_two _ _ _ _ refl (format_size-IsBalanced plain bytes) (
        read_two _ _ _ _ refl (print_usize-IsBalanced _)
          (read_two _ _ _ _ refl (format_size_i-IsBalanced plain _) (read_last _ _ refl)));
  }
  throughput_measurement_html-IsBalanced (failure error duration retry_count) h = record {
    reads = λ o. read_two _ _ _ _ refl (error_text-IsBalanced error h) (
        read_two _ _ _ _ refl (print_usize-IsBalanced _)
          (read_two _ _ _ _ refl (print_usize-IsBalanced _) (read_last _ _ refl)));
  }
