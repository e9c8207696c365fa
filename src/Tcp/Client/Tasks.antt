-- ===== src/Tcp/Client/Tasks.antt =====
-- What the tasks of src/performance/tcp/client.rs measure.
use speed_cli.Base.{
  ltb, if◌then◌else◌, Bool, false, ◌⊎◌, refl, inl, inr, Bool-cases, ℕ, ◌*◌, ◌≤◌, ◌≡◌, ap, ◌∙◌, List,
  [], ◌∷◌, some, true, arith, map, length, sum_of, u64,
}
use speed_cli.Base.Chunks.{suc_mul}
use speed_cli.Base.Outcome.{Result, ok, err}
use speed_cli.Base.Time.{Duration, Instant}
use speed_cli.Report.Throughput.{
  ThroughputMeasurement, bytes_of, bytes_transferred, is_failure, count, total_errors,
}
use speed_cli.Testing.Collector.{StatsCollector, new_collector, Event, run, is_drained, test_result}
use speed_cli.Testing.Collector.Delivery.{test_result_lem}
use speed_cli.Testing.Collector.Errors.{errors_of_tasks}
use speed_cli.Tcp.Client.{
  Pass, Opening, unconnected, command_unsent, opened, write_loop, upload_task,
}

abbrev pub is_error : Result ℕ → Bool
is_error (ok n) = false
is_error (err message) = true

-- The turns of an upload that take place: those before the first late one, up to the first error.
abbrev pub takes_place : Duration → List Pass → List Pass
takes_place duration [] = []
takes_place duration (t ∷ ts) =
    let rest = takes_place duration ts in
    if ltb t.elapsed duration then t ∷ (if is_error t.outcome then [] else rest) else []

-- The number of writes that succeed. Each puts all the data on the stream.
abbrev pub writes : Duration → List Pass → ℕ
writes duration ts = sum_of (λ t. if is_error t.outcome then 0 else 1) (takes_place duration ts)

-- The successful writes of a connection.
abbrev pub writes_of : Duration → Opening → ℕ
writes_of duration unconnected = 0
writes_of duration command_unsent = 0
writes_of duration (opened turns) = writes duration turns

Result-cases : (r : Result ℕ) → ((n : ℕ) × (r ≡ ok n)) ⊎ ((message : List ℕ) × (r ≡ err message))
Result-cases (ok n) = inl (n, refl)
Result-cases (err message) = inr (message, refl)

write_loop_failures :
    (duration : Duration) (n : ℕ) (ts : List Pass) → count is_failure (write_loop duration n ts) ≤ 1
unfolding write_loop count
write_loop_failures duration n [] = omega arith
write_loop_failures duration n (t ∷ ts) = ground (arith, write_loop_failures duration n ts)

pub write_loop_bytes :
    (duration : Duration) (n : ℕ) (ts : List Pass)
    → sum_of bytes_of (write_loop duration n ts) ≡ writes duration ts * n
unfolding write_loop
write_loop_bytes duration n [] = omega arith
write_loop_bytes duration n (t ∷ ts) = elim (Bool-cases (ltb t.elapsed duration)) [
  | inr late ↦ rw late (omega arith)
  | inl early ↦ elim (Result-cases t.outcome) [
    | inl (k, e) ↦
        rw (early, e)
          (omega (arith, write_loop_bytes duration n ts, suc_mul (writes duration ts) n))
    | inr (message, e) ↦ rw (early, e) (omega arith)
  ]
]

module _ (duration : Duration) (payload_size : ℕ) where
  -- The measurements of an upload task.
  unfoldable pub upload_measurements : Opening → List ThroughputMeasurement
  upload_measurements o = (upload_task duration payload_size o).1

  one_failure : (o : Opening) → count is_failure (upload_measurements o) ≤ 1
  unfolding upload_measurements upload_task count
  one_failure unconnected = omega arith
  one_failure command_unsent = omega arith
  one_failure (opened turns) = write_loop_failures duration payload_size turns

  task_bytes :
      (o : Opening) → sum_of bytes_of (upload_measurements o) ≡ writes_of duration o * payload_size
  unfolding upload_measurements upload_task
  task_bytes unconnected = omega arith
  task_bytes command_unsent = omega arith
  task_bytes (opened turns) = write_loop_bytes duration payload_size turns

  all_bytes :
      (os : List Opening)
      → sum_of (sum_of bytes_of) (map upload_measurements os)
        ≡ sum_of (writes_of duration) os * payload_size
  all_bytes [] = omega arith
  all_bytes (o ∷ os) = omega (arith, task_bytes o, all_bytes os)

  -- An upload test over TCP reports at most one error for each parallel connection, whatever the
  -- server does and however the connections interleave, and its bytes are, in 64 bits, the payload
  -- size for each write that succeeded on a connection before the first late turn and before the
  -- connection's first error.
  pub tcp_upload_lem :
      (connections : List Opening) (es : List Event) (start_time end_time : Instant)
      {s : StatsCollector ThroughputMeasurement}
      → run (new_collector (map upload_measurements connections)) es ≡ some s
      → is_drained s ≡ true
      → let r = test_result s start_time end_time in
        (total_errors r ≤ length connections)
        × (bytes_transferred r ≡ u64 (sum_of (writes_of duration) connections * payload_size))
  unfolding test_result
  tcp_upload_lem connections es start_time end_time {s} h done =
      let tasks : List (List ThroughputMeasurement) = map upload_measurements connections in
      (
        errors_of_tasks upload_measurements one_failure connections es start_time end_time {s = s} h
            done,
        (test_result_lem tasks es start_time end_time {s = s} h done).0
            ∙ ap u64 (all_bytes connections),
      )
