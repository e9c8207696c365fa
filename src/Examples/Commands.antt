-- ===== src/Examples/Commands.antt =====
-- The runs of tests and the commands at concrete inputs.
use speed_cli.Base.{ℕ, ◌≡◌, ◌⊎◌, refl, true, false, none, some, List, [], ◌∷◌, if◌then◌else◌, ◌==◌}
use speed_cli.Base.Outcome.{Result, ok, err}
use speed_cli.Report.Throughput.{ThroughputMeasurement, ThroughputResult, success}
use speed_cli.Testing.Index.Ordered.{
  ordered_set, ordered_set-IsIndexSet, ordered_map, ordered_map-IsIndexMap,
}
use speed_cli.Testing.Config.{ClientMode, bidirectional}
use speed_cli.Testing.Runner.{
  Test, Suite, NetworkProtocol, NetworkTestResult, TestReport, new_result, run_tests,
}
use speed_cli.Testing.Runner.Plan.{IsRecorded, first_error, plan}
use speed_cli.Testing.Runner.Outcomes.{run_tests-Ends}
use speed_cli.Testing.Clients.{Network, ClientOptions, run_client}
use speed_cli.Testing.Clients.Reports.{IsTested, run_client-IsTested}
use speed_cli.Cli.{cbor, Formats, export_report}
use speed_cli.Cli.Files.{IsReread, report_command-export_report}

abbrev m : ℕ → ThroughputMeasurement
m bytes = success bytes 3

abbrev result_of : ℕ → ThroughputResult
result_of size = record { measurements = m size ∷ []; total_duration = 9 }

-- The upload of 20 bytes fails.
abbrev suite : Suite ℕ
suite = record {
  measure_latency = ok none;
  run_download_test = λ size. ok (result_of size);
  run_upload_test = λ size. if size == 20 then err (b'!' ∷ []) else ok (result_of size);
}

run_tests-Ends_example :
    let (started, result) =
      run_tests ordered_map bidirectional suite
        (10 ∷ 20 ∷ [])
        (new_result ordered_map NetworkProtocol.tcp) in
    ((message : List ℕ) × (result ≡ err message)
      × (first_error suite (plan bidirectional (10 ∷ 20 ∷ [])) ≡ some message))
    ⊎ ((r : NetworkTestResult ℕ (List (ℕ × ThroughputResult))) × (result ≡ ok r)
        × (first_error suite (plan bidirectional (10 ∷ 20 ∷ [])) ≡ none)
        × (started ≡ plan bidirectional (10 ∷ 20 ∷ []))
        × IsRecorded ordered_map suite r (10 ∷ 20 ∷ []) (10 ∷ 20 ∷ []))
run_tests-Ends_example =
    run_tests-Ends ordered_map suite ordered_map-IsIndexMap bidirectional (10 ∷ 20 ∷ [])
      NetworkProtocol.tcp (refl, (refl, tt))

abbrev network : Network ℕ
network = record {
  measure_tcp_latency = λ c. ok none;
  tcp_download = λ server port parallel size duration. ok (result_of size);
  tcp_upload = λ server port parallel size duration. ok (result_of size);
  measure_udp_latency = λ c. ok none;
  udp_download = λ server port parallel size duration. ok (result_of size);
  udp_upload = λ server port parallel size duration. ok (result_of size);
  create_http_client = λ version. none;
  measure_http_latency = λ url duration. ok none;
  http_download = λ url parallel size chunk duration. ok (result_of size);
  http_upload = λ url parallel size chunk duration. ok (result_of size);
}

abbrev options : ClientOptions
options = record {
  server = b'a' ∷ [];
  port = none;
  duration = 10;
  mode = none;
  use_tcp = false;
  use_udp = false;
  use_http1 = false;
  use_http2 = true;
  use_h2c = false;
  use_http3 = false;
  connections = 2;
  test_type = bidirectional;
  test_sizes = 30 ∷ 40 ∷ 30 ∷ [];
  chunk_size = none;
}

run_client-IsTested_example :
    (outcome : List Test × Result (TestReport ℕ (List (ℕ × ThroughputResult)))) × (run_client
        ordered_map network ordered_set options
      ≡ some outcome)
    × IsTested ordered_map ordered_map-IsIndexMap network ordered_set ordered_set-IsIndexSet options
        ClientMode.http2 outcome
run_client-IsTested_example =
    run_client-IsTested ordered_map ordered_map-IsIndexMap network ordered_set
      ordered_set-IsIndexSet options ClientMode.http2 refl

abbrev first_of : List ℕ → Result ℕ
first_of [] = err []
first_of (x ∷ xs) = ok x

abbrev formats : Formats ℕ
formats = record {
  to_json = λ r. ok (r ∷ []);
  to_cbor = λ r. if r == 0 then err [] else ok (r ∷ 0 ∷ []);
  to_html = λ r. [];
  from_json = first_of;
  from_cbor = first_of;
}

report_command-export_report_example : IsReread formats 6 (some cbor) (6 ∷ 0 ∷ [])
unfolding export_report
report_command-export_report_example =
    report_command-export_report formats 6 (some cbor) (6 ∷ 0 ∷ []) refl
