-- ===== src/Http/Client/Tasks.antt =====
-- What the tasks of src/performance/http/client.rs measure.
use speed_cli.Base.{◌≤◌, ◌≡◌, List, [], ◌∷◌, some, true, arith, map, length}
use speed_cli.Base.Time.{Duration, Instant}
use speed_cli.Report.Throughput.{ThroughputMeasurement, is_failure, count, total_errors}
use speed_cli.Testing.Collector.{StatsCollector, new_collector, Event, run, is_drained, test_result}
use speed_cli.Testing.Collector.Errors.{errors_of_tasks}
use speed_cli.Http.Client.{Turn, download_task}

one_failure :
    (duration : Duration) (ts : List Turn) → count is_failure (download_task duration ts) ≤ 1
unfolding download_task count
one_failure duration [] = omega arith
one_failure duration (t ∷ ts) = ground (arith, one_failure duration ts)

-- A download test over HTTP reports at most one error for each parallel connection, whatever the
-- server does and however the connections interleave.
pub http_download_errors :
    (duration : Duration) (connections : List (List Turn)) (es : List Event)
    (start_time end_time : Instant) {s : StatsCollector ThroughputMeasurement}
    → run (new_collector (map (download_task duration) connections)) es ≡ some s
    → is_drained s ≡ true
    → total_errors (test_result s start_time end_time) ≤ length connections
http_download_errors duration = errors_of_tasks (download_task duration) (one_failure duration)
