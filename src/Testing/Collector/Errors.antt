-- ===== src/Testing/Collector/Errors.antt =====
-- The failures of a test whose tasks end after an error.
use speed_cli.Base.{◌≤◌, ◌≡◌, List, [], ◌∷◌, arith, true, some, length, map, sum_of}
use speed_cli.Base.Time.{Instant}
use speed_cli.Report.Throughput.{ThroughputMeasurement, is_failure, count, total_errors}
use speed_cli.Testing.Collector.{StatsCollector, new_collector, Event, run, is_drained, test_result}
use speed_cli.Testing.Collector.Delivery.{test_result_lem}

module _ {A : Type 0} (task : A → List ThroughputMeasurement)
    (few : (a : A) → count is_failure (task a) ≤ 1) where
  sum_failures : (xs : List A) → sum_of (count is_failure) (map task xs) ≤ length xs
  sum_failures [] = omega arith
  sum_failures (x ∷ xs) = omega (arith, few x, sum_failures xs)

  -- Each of the tasks counts at most once.
  pub errors_of_tasks :
      (xs : List A) (es : List Event) (start_time end_time : Instant)
      {s : StatsCollector ThroughputMeasurement}
      → run (new_collector (map task xs)) es ≡ some s
      → is_drained s ≡ true
      → total_errors (test_result s start_time end_time) ≤ length xs
  errors_of_tasks xs es start_time end_time {s} h done =
      let (b, l, e) = test_result_lem (map task xs) es start_time end_time {s = s} h done in
      omega (arith, e, sum_failures xs)
