-- ===== src/Examples/Clients.antt =====
-- The transfers and the collector at concrete inputs.
use speed_cli.Base.{
  ℕ, ◌+◌, suc, ◌*◌, ◌≤◌, ◌≡◌, ◌⊎◌, refl, false, some, List, [], ◌∷◌, arith, length, map, sum_of,
  append_nil, u32, u64,
}
use speed_cli.Base.Decimal.{print_usize}
use speed_cli.Base.Outcome.{Result, ok, err}
use speed_cli.Report.Throughput.{
  ThroughputMeasurement, success, failure, unknown, bytes_of, bytes_transferred, is_failure, count,
  total_errors,
}
use speed_cli.Http.Server.{Bytes, DownloadQuery, Response, download_handler}
use speed_cli.Http.Server.Body.{zeros}
use speed_cli.Http.Client.{UploadRequest, download_chunk, upload_chunk}
use speed_cli.Http.Client.Exchange.{
  is_accepted, Accepted, received_bytes, download_chunk-handler, upload_chunk-handler,
}
use speed_cli.Testing.Collector.{
  StatsCollector, new_collector, Event, sent, received, run, test_result,
}
use speed_cli.Testing.Collector.Delivery.{test_result_lem}
use speed_cli.Tcp.Client.{Pass, Opening, opened, unconnected, upload_task}
use speed_cli.Tcp.Server.{Clock, command_byte, default_config, new_metrics, new_handler}
use speed_cli.Tcp.Client.Session.{feed, reads, GoesOn, feed-upload_task}
use speed_cli.Tcp.Client.Tasks.{writes_of, upload_measurements, tcp_upload_lem}

abbrev query : DownloadQuery
query = record { size = 5; chunk_size = 2 }

-- The answer to it.
abbrev response : Response
response = record {
  status = 200;
  content_length = some (b'5' ∷ []);
  body = zeros 2 ∷ zeros 2 ∷ zeros 1 ∷ [];
}

response_lem : download_handler (zeros 4) query ≡ some response
unfolding download_handler print_usize
response_lem = refl

download_chunk-handler_example : download_chunk (ok (200, map ok (zeros 3 ∷ zeros 2 ∷ []))) ≡ ok 5
download_chunk-handler_example =
    download_chunk-handler 4 query response (zeros 3 ∷ zeros 2 ∷ []) (omega arith) (omega arith)
      (omega arith) response_lem refl

abbrev whole : Bytes → List Bytes
whole b = b ∷ []

upload_chunk-handler_example :
    (requests : List UploadRequest) × (result : Result ℕ) × (upload_chunk
        (λ i. ok 200)
        (λ status. [])
        5
        (1 ∷ 2 ∷ [])
      ≡ some (requests, result))
    × ((result ≡ ok 5)
          × Accepted (λ i. ok 200) (λ status. []) 0 requests
          × (received_bytes whole append_nil requests ≡ 5)
        ⊎ ((message : List ℕ) × (j : ℕ) × (result ≡ err message)
            × (length requests ≡ suc j)
            × (is_accepted (ok 200) ≡ false)))
upload_chunk-handler_example =
    upload_chunk-handler whole append_nil (λ i. ok 200) (λ status. []) 5 (1 ∷ 2 ∷ []) (omega arith)
      (omega arith)

abbrev m : ℕ → ThroughputMeasurement
m bytes = success bytes 3

abbrev tasks : List (List ThroughputMeasurement)
tasks = (m 7 ∷ m 8 ∷ []) ∷ (failure (unknown []) 4 0 ∷ []) ∷ []

abbrev events : List Event
events = sent 1 ∷ sent 0 ∷ received ∷ sent 0 ∷ received ∷ received ∷ []

abbrev collected : StatsCollector ThroughputMeasurement
collected = record {
  tasks = [] ∷ [] ∷ [];
  channel = [];
  measurements = failure (unknown []) 4 0 ∷ m 7 ∷ m 8 ∷ [];
}

collected_lem : run (new_collector tasks) events ≡ some collected
unfolding run
collected_lem = refl

test_result_lem_example :
    let r = test_result collected 10 20 in
    (bytes_transferred r ≡ u64 (sum_of (sum_of bytes_of) tasks))
    × (length r.measurements ≡ sum_of length tasks)
    × (total_errors r ≡ u32 (sum_of (count is_failure) tasks))
test_result_lem_example = test_result_lem tasks events 10 20 {s = collected} collected_lem refl

abbrev turn : Result ℕ → Pass
turn outcome = record { elapsed = 5; outcome = outcome; took = 2 }

-- A connection with two writes and an error, and one that fails.
abbrev connections : List Opening
connections = opened (turn (ok 4) ∷ turn (ok 4) ∷ turn (err []) ∷ []) ∷ unconnected ∷ []

abbrev upload_events : List Event
upload_events = sent 0 ∷ sent 0 ∷ received ∷ sent 0 ∷ received ∷ received ∷ []

abbrev uploaded : StatsCollector ThroughputMeasurement
uploaded = record {
  tasks = [] ∷ [] ∷ [];
  channel = [];
  measurements = success 4 2 ∷ success 4 2 ∷ failure (unknown []) 2 0 ∷ [];
}

uploaded_lem :
    run (new_collector (map (upload_measurements 10 4) connections)) upload_events ≡ some uploaded
unfolding run upload_measurements upload_task
uploaded_lem = refl

tcp_upload_lem_example :
    let r = test_result uploaded 10 20 in
    (total_errors r ≤ length connections)
    × (bytes_transferred r ≡ u64 (sum_of (writes_of 10) connections * 4))
tcp_upload_lem_example =
    tcp_upload_lem 10 4 connections upload_events 10 20 {s = uploaded} uploaded_lem refl

abbrev clock : Clock
clock = record { activity = 11; check = 12; report = 13 }

-- The eight bytes of two writes, in three reads.
abbrev cut : List (ℕ × Clock)
cut = (3, clock) ∷ (4, clock) ∷ (1, clock) ∷ []

feed-upload_task_example : GoesOn default_config 8 (u64 (100 + 8)) (
    feed default_config
      (record new_metrics { total_bytes_received = 100 })
      (new_handler 0 5)
      (command_byte b'U' 6 ∷ reads cut))
unfolding upload_task
feed-upload_task_example =
    feed-upload_task default_config (record new_metrics { total_bytes_received = 100 }) 0 5 6 10 4
      (turn (ok 4) ∷ turn (ok 4) ∷ turn (err []) ∷ []) cut refl
      (omega arith, (omega arith, (omega arith, tt))) (omega arith) refl (omega arith)
