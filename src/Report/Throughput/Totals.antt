-- ===== src/Report/Throughput/Totals.antt =====
-- How the figures of a `ThroughputResult` fit together.
use speed_cli.Base.{
  ℕ, ◌+◌, ◌<◌, ◌^◌, ◌≢◌, ◌≡◌, refl, Bool, false, List, [], ◌∷◌, arith, if◌then◌else◌, sum_of, u32,
  u64,
}
use speed_cli.Float.{Float}
use speed_cli.Report.Throughput.{
  connection_failed, transfer_failed, timeout, unknown, ThroughputMeasurement, success, failure,
  ThroughputResult, bytes_of, sum_bytes, is_failure, count, total_errors, RetryStatistics,
  retry_loop, retry_statistics, ErrorType, connection_failures, transfer_failures, timeouts,
  unknowns, error_type, same_type, bump, distribution_loop, error_distribution, retry_success_rate,
}

pub sum_bytes_lem : (ms : List ThroughputMeasurement) → sum_bytes ms ≡ u64 (sum_of bytes_of ms)
unfolding sum_bytes
sum_bytes_lem [] = omega arith
sum_bytes_lem (m ∷ ms) = omega (arith, sum_bytes_lem ms)

retry_loop_failed :
    (s : RetryStatistics) (ms : List ThroughputMeasurement)
    → u32 (retry_loop s ms).failed_after_retry ≡ u32 (s.failed_after_retry + count is_failure ms)
unfolding retry_loop count
retry_loop_failed s [] = omega arith
retry_loop_failed s (success b d ∷ ms) = retry_loop_failed s ms
retry_loop_failed s (failure e d k ∷ ms) = omega (
  arith,
  retry_loop_failed
      (record s {
        total_retries = u32 (s.total_retries + k);
        failed_after_retry = u32 (s.failed_after_retry + 1);
      })
      ms,
)

retry_loop_fits :
    (s : RetryStatistics) (ms : List ThroughputMeasurement)
    → s.failed_after_retry < 2 ^ 32
    → (retry_loop s ms).failed_after_retry < 2 ^ 32
unfolding retry_loop
retry_loop_fits s [] h = h
retry_loop_fits s (success b d ∷ ms) h = retry_loop_fits s ms h
retry_loop_fits s (failure e d k ∷ ms) h =
    retry_loop_fits
      (record s {
        total_retries = u32 (s.total_retries + k);
        failed_after_retry = u32 (s.failed_after_retry + 1);
      })
      ms (omega arith)

retry_loop_kept :
    (s : RetryStatistics) (ms : List ThroughputMeasurement)
    → (retry_loop s ms).successful_after_retry ≡ s.successful_after_retry
unfolding retry_loop
retry_loop_kept s [] = refl
retry_loop_kept s (success b d ∷ ms) = retry_loop_kept s ms
retry_loop_kept s (failure e d k ∷ ms) =
    retry_loop_kept
      (record s {
        total_retries = u32 (s.total_retries + k);
        failed_after_retry = u32 (s.failed_after_retry + 1);
      })
      ms

-- The measurements that failed with an error of a type.
abbrev pub has_type : ErrorType → ThroughputMeasurement → Bool
has_type t (success bytes duration) = false
has_type t (failure error duration retry_count) = same_type (error_type error) t

-- `get` on the distribution, 0 if the key is missing.
unfoldable pub count_of : ErrorType → List (ErrorType × ℕ) → ℕ
count_of t [] = 0
count_of t ((k, n) ∷ d) = let rest = count_of t d in if same_type k t then n else rest

count_of-bump :
    (t k : ErrorType) (d : List (ErrorType × ℕ))
    → u32 (count_of t (bump k d)) ≡ u32 (count_of t d + (if same_type k t then 1 else 0))
unfolding count_of bump
count_of-bump t k [] = ground arith
count_of-bump t k ((j, n) ∷ d) = ground (arith, count_of-bump t k d)

distribution_loop-count :
    (t : ErrorType) (d : List (ErrorType × ℕ)) (ms : List ThroughputMeasurement)
    → u32 (count_of t (distribution_loop d ms)) ≡ u32 (count_of t d + count (has_type t) ms)
unfolding distribution_loop count
distribution_loop-count t d [] = omega arith
distribution_loop-count t d (success b u ∷ ms) = distribution_loop-count t d ms
distribution_loop-count t d (failure e u k ∷ ms) =
    ground (
      arith,
      distribution_loop-count t (bump (error_type e) d) ms,
      count_of-bump t (error_type e) d,
    )

split_types :
    (ms : List ThroughputMeasurement)
    → count (has_type connection_failures) ms
        + count (has_type transfer_failures) ms
        + count (has_type timeouts) ms
        + count (has_type unknowns) ms
      ≡ count is_failure ms
unfolding count
split_types [] = omega arith
split_types (success b d ∷ ms) = split_types ms
split_types (failure (connection_failed x) d k ∷ ms) = omega (arith, split_types ms)
split_types (failure (transfer_failed x) d k ∷ ms) = omega (arith, split_types ms)
split_types (failure (timeout x) d k ∷ ms) = omega (arith, split_types ms)
split_types (failure (unknown x) d k ∷ ms) = omega (arith, split_types ms)

-- The counts of the four error types in the distribution, the total of errors, and the failures in
-- the retry statistics are the same number, in 32 bits.
pub errors_agree :
    (r : ThroughputResult)
    → let d = error_distribution r in
      (u32 (
          count_of connection_failures d
          + count_of transfer_failures d
          + count_of timeouts d
          + count_of unknowns d)
        ≡ total_errors r)
      × ((retry_statistics r).failed_after_retry ≡ total_errors r)
unfolding error_distribution total_errors retry_statistics count_of
errors_agree r =
    let start : RetryStatistics = record {
      total_retries = 0;
      successful_after_retry = 0;
      failed_after_retry = 0;
    } in
    (
      omega (
        arith,
        distribution_loop-count connection_failures [] r.measurements,
        distribution_loop-count transfer_failures [] r.measurements,
        distribution_loop-count timeouts [] r.measurements,
        distribution_loop-count unknowns [] r.measurements,
        split_types r.measurements,
      ),
      omega (
        arith,
        retry_loop_failed start r.measurements,
        retry_loop_fits start r.measurements (omega arith),
      ),
    )

total_errors_fits : (r : ThroughputResult) → total_errors r < 2 ^ 32
unfolding total_errors
total_errors_fits r = omega arith

-- Once a retry was counted, the retry success rate is zero divided by the number of failed
-- measurements, however many measurements succeeded.
pub retry_success_rate_lem :
    {F : Type 0} (f : Float F) (r : ThroughputResult)
    → (retry_statistics r).total_retries ≢ 0
    → retry_success_rate f r ≡ f.div (f.of_u64 0) (f.of_u64 (total_errors r))
unfolding retry_success_rate retry_statistics
retry_success_rate_lem f r h =
    let kept : (retry_statistics r).successful_after_retry ≡ 0 =
      retry_loop_kept
        (record { total_retries = 0; successful_after_retry = 0; failed_after_retry = 0 })
        r.measurements in
    let fits : u32 (0 + (retry_statistics r).failed_after_retry) ≡ total_errors r =
      omega (arith, (errors_agree r).1, total_errors_fits r) in
    simp (kept, fits) (ground (arith, h))
