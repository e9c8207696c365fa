-- ===== src/Testing/Collector.antt =====
-- src/utils/instrumentation.rs: the tasks of a test send their measurements into one channel, and a
-- collector task puts what it receives into a list. All run at the same time, so that an execution
-- is a sequence of steps, each the next sending of a task or a receipt. The test ends when the
-- tasks have ended, the channel is closed and the collector has drained it. The progress bar is
-- in Progress.
pub mod Delivery
pub mod Errors
use speed_cli.Base.{
  ℕ, zero, suc, Bool, true, Option, none, some, List, [], ◌∷◌, ◌++◌, ◌&&◌, is_empty,
}
use speed_cli.Base.Options.{◌>>=◌}
use speed_cli.Base.Time.{Duration, Instant, duration_since}
use speed_cli.Report.Throughput.{ThroughputMeasurement, ThroughputResult}

-- The measurements that each task is yet to send, the channel, and the collector's list.
pub record StatsCollector {ℓ} (A : Type ℓ) : Type ℓ where
  pub tasks : List (List A)
  pub channel : List A
  pub measurements : List A

pub data Event : Type 0 where
  sent : (task : ℕ) → Event
  received : Event

module _ {ℓ} {A : Type ℓ} where
  -- `ThroughputStatsCollector::new` and the spawning of the tasks.
  abbrev pub new_collector : List (List A) → StatsCollector A
  new_collector tasks = record { tasks = tasks; channel = []; measurements = [] }

  -- The next measurement of the i-th task, and the tasks without it.
  unfoldable pub next_of : ℕ → List (List A) → Option (A × List (List A))
  next_of i [] = none
  next_of zero ([] ∷ tasks) = none
  next_of zero ((m ∷ ms) ∷ tasks) = some (m, ms ∷ tasks)
  next_of (suc i) (ms ∷ tasks) = do (m, tasks') ← next_of i tasks; some (m, ms ∷ tasks')

  -- None if the event cannot come.
  unfoldable pub step : StatsCollector A → Event → Option (StatsCollector A)
  unfolding next_of
  step s (sent i) = do
    (m, tasks) ← next_of i s.tasks
    some (record s { tasks = tasks; channel = s.channel ++ (m ∷ []) })
  step s received = elim s.channel [
    | [] ↦ none
    | m ∷ ms ↦ some (record s { channel = ms; measurements = s.measurements ++ (m ∷ []) })
  ]

  unfoldable pub run : StatsCollector A → List Event → Option (StatsCollector A)
  unfolding step
  run s [] = some s
  run s (e ∷ es) = do s' ← step s e; run s' es

  abbrev pub all_empty : List (List A) → Bool
  all_empty [] = true
  all_empty (ms ∷ tasks) = is_empty ms && all_empty tasks

  abbrev pub is_drained : StatsCollector A → Bool
  is_drained s = all_empty s.tasks && is_empty s.channel

-- The end of `run_download_test` and `run_upload_test`: the measurements that `finish` gives, with
-- the time since the start.
unfoldable pub test_result :
    StatsCollector ThroughputMeasurement → Instant → Instant → ThroughputResult
test_result s start_time end_time = record {
  measurements = s.measurements;
  total_duration = duration_since end_time start_time;
}
