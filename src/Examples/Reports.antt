-- ===== src/Examples/Reports.antt =====
-- The results of src/report at concrete measurements.
use speed_cli.Base.{ℕ, ◌≡◌, refl, ◌≢◌, true, none, some, [], ◌∷◌, arith, All}
use speed_cli.Float.Fixed.{fixed}
use speed_cli.Report.Throughput.{
  ThroughputResult, success, failure, timeout, unknown, total_errors, retry_statistics,
  retry_success_rate, retry_loop,
}
use speed_cli.Report.Throughput.Totals.{retry_success_rate_lem}
use speed_cli.Report.Latency.{LatencyResult, rtts, filter_rtts}

abbrev throughput : ThroughputResult
throughput = record {
  measurements = success 1000 5 ∷ failure (timeout []) 7 2 ∷ failure (unknown []) 7 1 ∷ [];
  total_duration = 100;
}

retried : (retry_statistics throughput).total_retries ≢ 0
unfolding retry_statistics retry_loop
retried = omega arith

retry_success_rate_lem_example :
    retry_success_rate fixed throughput
    ≡ fixed.div (fixed.of_u64 0) (fixed.of_u64 (total_errors throughput))
retry_success_rate_lem_example = retry_success_rate_lem fixed throughput retried

abbrev latency : LatencyResult ℕ
latency = record {
  measurements =
      (record { rtt_ms = some 12; elapsed_time = 1 })
      ∷ (record { rtt_ms = none; elapsed_time = 2 })
      ∷ (record { rtt_ms = some 40; elapsed_time = 3 })
      ∷ [];
}

rtts-latency : rtts fixed latency ≡ 12 ∷ 40 ∷ []
unfolding rtts filter_rtts
rtts-latency = refl

numbers : All (λ t. fixed.le t t ≡ true) (rtts fixed latency)
unfolding rtts filter_rtts
numbers = (refl, (refl, tt))

some_rtts : rtts fixed latency ≢ []
unfolding rtts filter_rtts
some_rtts = λ e. cc
