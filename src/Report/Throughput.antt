-- ===== src/Report/Throughput.antt =====
-- src/report/measurement/throughput.rs, src/report/errors.rs and src/report/result/throughput.rs.
-- The printing is in Display, the result's time stamp in Html.
pub mod Totals
use speed_cli.Base.{
  ℕ, zero, suc, ◌+◌, ◌==◌, Bool, true, false, List, [], ◌∷◌, ltb, if◌then◌else◌, length, is_empty,
  u32, u64,
}
use speed_cli.Base.Time.{Duration}
use speed_cli.Float.{Float}

-- A message is the list of its characters.
pub data ConnectionError : Type 0 where
  connection_failed : List ℕ → ConnectionError
  transfer_failed : List ℕ → ConnectionError
  timeout : List ℕ → ConnectionError
  unknown : List ℕ → ConnectionError

pub data ThroughputMeasurement : Type 0 where
  success : (bytes : ℕ) → (duration : Duration) → ThroughputMeasurement
  failure :
      (error : ConnectionError) → (duration : Duration) → (retry_count : ℕ) → ThroughputMeasurement

pub record ThroughputResult : Type 0 where
  pub measurements : List ThroughputMeasurement
  pub total_duration : Duration

abbrev pub bytes_of : ThroughputMeasurement → ℕ
bytes_of (success bytes duration) = bytes
bytes_of (failure error duration retry_count) = 0

-- The iterator's sum, on u64.
unfoldable pub sum_bytes : List ThroughputMeasurement → ℕ
sum_bytes [] = 0
sum_bytes (m ∷ ms) = u64 (bytes_of m + sum_bytes ms)

unfoldable pub bytes_transferred : ThroughputResult → ℕ
unfolding sum_bytes
bytes_transferred r = sum_bytes r.measurements

abbrev pub is_success : ThroughputMeasurement → Bool
is_success (success bytes duration) = true
is_success (failure error duration retry_count) = false

abbrev pub is_failure : ThroughputMeasurement → Bool
is_failure (success bytes duration) = false
is_failure (failure error duration retry_count) = true

-- `filter(..).count()`.
unfoldable pub count : (ThroughputMeasurement → Bool) → List ThroughputMeasurement → ℕ
count p [] = 0
count p (m ∷ ms) = let rest = count p ms in if p m then suc rest else rest

unfoldable pub total_errors : ThroughputResult → ℕ
unfolding count
total_errors r = u32 (count is_failure r.measurements)

-- `total_retries` and `failed_after_retry`, on u32; `successful_after_retry` stays 0.
pub record RetryStatistics : Type 0 where
  pub total_retries : ℕ
  pub successful_after_retry : ℕ
  pub failed_after_retry : ℕ

unfoldable pub retry_loop : RetryStatistics → List ThroughputMeasurement → RetryStatistics
retry_loop s [] = s
retry_loop s (success bytes duration ∷ ms) = retry_loop s ms
retry_loop s (failure error duration retry_count ∷ ms) =
    retry_loop
      (record s {
        total_retries = u32 (s.total_retries + retry_count);
        failed_after_retry = u32 (s.failed_after_retry + 1);
      })
      ms

unfoldable pub retry_statistics : ThroughputResult → RetryStatistics
unfolding retry_loop
retry_statistics r =
    retry_loop (record { total_retries = 0; successful_after_retry = 0; failed_after_retry = 0 })
      r.measurements

-- The four keys of the distribution, for the strings that name them.
pub data ErrorType : Type 0 where
  connection_failures : ErrorType
  transfer_failures : ErrorType
  timeouts : ErrorType
  unknowns : ErrorType

abbrev pub error_type : ConnectionError → ErrorType
error_type (connection_failed msg) = connection_failures
error_type (transfer_failed msg) = transfer_failures
error_type (timeout msg) = timeouts
error_type (unknown msg) = unknowns

abbrev pub same_type : ErrorType → ErrorType → Bool
same_type connection_failures connection_failures = true
same_type transfer_failures transfer_failures = true
same_type timeouts timeouts = true
same_type unknowns unknowns = true
same_type _ _ = false

-- The map from types to counts is a list of pairs; `*entry(t).or_insert(0) += 1`.
unfoldable pub bump : ErrorType → List (ErrorType × ℕ) → List (ErrorType × ℕ)
bump t [] = (t, 1) ∷ []
bump t ((k, n) ∷ d) =
    let rest = bump t d in if same_type k t then (k, u32 (n + 1)) ∷ d else (k, n) ∷ rest

unfoldable pub distribution_loop :
    List (ErrorType × ℕ) → List ThroughputMeasurement → List (ErrorType × ℕ)
unfolding bump
distribution_loop d [] = d
distribution_loop d (success bytes duration ∷ ms) = distribution_loop d ms
distribution_loop d (failure error duration retry_count ∷ ms) =
    distribution_loop (bump (error_type error) d) ms

unfoldable pub error_distribution : ThroughputResult → List (ErrorType × ℕ)
unfolding distribution_loop
error_distribution r = distribution_loop [] r.measurements

module _ {F : Type 0} (f : Float F) where
  unfoldable pub throughput_bps : ThroughputMeasurement → F
  throughput_bps (success bytes duration) =
      if f.lt (f.lit 0 1) (f.as_secs duration)
      then f.div (f.mul (f.of_u64 bytes) (f.lit 8 1)) (f.as_secs duration)
      else f.lit 0 1
  throughput_bps (failure error duration retry_count) = f.lit 0 1

  unfoldable pub avg_throughput : ThroughputResult → F
  avg_throughput r =
      if r.total_duration == 0
      then f.lit 0 1
      else f.div (f.of_u64 (bytes_transferred r)) (f.as_secs r.total_duration)

  unfoldable pub connection_success_rate : ThroughputResult → F
  connection_success_rate r =
      if is_empty r.measurements
      then f.lit 0 1
      else f.div (f.of_u64 (count is_success r.measurements)) (f.of_u64 (length r.measurements))

  -- `as f64` of a u32 is that of its value.
  unfoldable pub retry_success_rate : ThroughputResult → F
  retry_success_rate r =
      let s = retry_statistics r in
      if s.total_retries == 0
      then f.lit 1 1
      else f.div (f.of_u64 s.successful_after_retry)
          (f.of_u64 (u32 (s.successful_after_retry + s.failed_after_retry)))
