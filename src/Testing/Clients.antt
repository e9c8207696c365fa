-- ===== src/Testing/Clients.antt =====
-- The client of src/main.rs: the choice of the protocol, the configuration, and the clients of the
-- protocols in src/performance. The export of the report is left out, and so is printing.
pub mod Choice
pub mod Expected
pub mod Reports
use speed_cli.Base.{
  ℕ, suc, ◌==◌, Bool, true, false, Option, none, some, List, [], ◌∷◌, if◌then◌else◌, length, not,
}
use speed_cli.Base.Options.{◌>>=◌}
use speed_cli.Base.Outcome.{Result, ok, err}
use speed_cli.Base.Time.{Duration, from_secs}
use speed_cli.Http.{HttpVersion}
use speed_cli.Report.Latency.{LatencyResult}
use speed_cli.Report.Throughput.{ThroughputResult}
use speed_cli.Testing.Index.{IndexSet, IndexMap}
use speed_cli.Testing.Config.{
  TestType, ClientMode, tcp, udp, http1, h2c, http2, http3, TcpTestConfig, UdpTestConfig,
  HttpTestConfig, new_tcp_config, new_udp_config, new_http_config,
}
use speed_cli.Testing.Runner.{
  NetworkProtocol, NetworkTestResult, Test, Suite, TestConfig, tcp_config, udp_config, http_config,
  TestReport, new_result, run_tests,
}

-- What the tests give, with the arguments of their calls.
pub record Network (F : Type 0) : Type 0 where
  pub measure_tcp_latency : TcpTestConfig → Result (Option (LatencyResult F))
  pub tcp_download : List ℕ → ℕ → ℕ → ℕ → Duration → Result ThroughputResult
  pub tcp_upload : List ℕ → ℕ → ℕ → ℕ → Duration → Result ThroughputResult
  pub measure_udp_latency : UdpTestConfig → Result (Option (LatencyResult F))
  pub udp_download : List ℕ → ℕ → ℕ → ℕ → Duration → Result ThroughputResult
  pub udp_upload : List ℕ → ℕ → ℕ → ℕ → Duration → Result ThroughputResult
  -- The error of the building of the client, if any.
  pub create_http_client : HttpVersion → Option (List ℕ)
  pub measure_http_latency : List ℕ → Duration → Result (Option (LatencyResult F))
  pub http_download : List ℕ → ℕ → ℕ → ℕ → Duration → Result ThroughputResult
  pub http_upload : List ℕ → ℕ → ℕ → ℕ → Duration → Result ThroughputResult

-- The options of the `client` command.
pub record ClientOptions : Type 0 where
  pub server : List ℕ
  pub port : Option ℕ
  pub duration : ℕ
  pub mode : Option ClientMode
  pub use_tcp : Bool
  pub use_udp : Bool
  pub use_http1 : Bool
  pub use_http2 : Bool
  pub use_h2c : Bool
  pub use_http3 : Bool
  pub connections : ℕ
  pub test_type : TestType
  pub test_sizes : List ℕ
  pub chunk_size : Option ℕ

-- `filter(..).count()` on the enabled protocols.
abbrev pub count_true : List Bool → ℕ
count_true [] = 0
count_true (true ∷ bs) = suc (count_true bs)
count_true (false ∷ bs) = count_true bs

abbrev pub is_given : Option ClientMode → Bool
is_given none = false
is_given (some mode) = true

-- The mode; none is the error that exactly one protocol must be specified. The `unreachable!` of the
-- last `else` is none as well.
unfoldable pub client_mode : ClientOptions → Option ClientMode
client_mode o =
    let protocols =
      is_given o.mode
      ∷ o.use_tcp
      ∷ o.use_udp
      ∷ o.use_http1
      ∷ o.use_http2
      ∷ o.use_h2c
      ∷ o.use_http3
      ∷ [] in
    let flagged : Option ClientMode =
      if o.use_tcp
      then some tcp
      else if o.use_udp
      then some udp
      else if o.use_http1
      then some http1
      else if o.use_http2
      then some http2
      else if o.use_h2c
      then some h2c
      else if o.use_http3
      then some http3
      else none in
    if not (count_true protocols == 1)
    then none
    else elim o.mode [ none ↦ flagged | some mode ↦ some mode ]

-- The calls that the three clients make, on their configuration.
module _ {F : Type 0} (net : Network F) where
  abbrev pub tcp_suite : TcpTestConfig → Suite F
  tcp_suite c = record {
    measure_latency = net.measure_tcp_latency c;
    run_download_test =
        λ size. net.tcp_download c.server c.port c.parallel_connections size c.duration;
    run_upload_test = λ size. net.tcp_upload c.server c.port c.parallel_connections size c.duration;
  }

  abbrev pub udp_suite : UdpTestConfig → Suite F
  udp_suite c = record {
    measure_latency = net.measure_udp_latency c;
    run_download_test =
        λ size. net.udp_download c.server c.port c.parallel_streams size (from_secs c.duration);
    run_upload_test =
        λ size. net.udp_upload c.server c.port c.parallel_streams size (from_secs c.duration);
  }

  abbrev pub http_suite : HttpTestConfig → Suite F
  http_suite c = record {
    measure_latency = net.measure_http_latency c.server_url c.duration;
    run_download_test =
        λ size. net.http_download c.server_url c.parallel_connections size c.chunk_size c.duration;
    run_upload_test =
        λ size. net.http_upload c.server_url c.parallel_connections size c.chunk_size c.duration;
  }

-- The version that `main` takes for a mode of HTTP; the others do not reach it.
abbrev pub http_version_of : ClientMode → Option HttpVersion
http_version_of tcp = none
http_version_of udp = none
http_version_of http1 = some HttpVersion.http1
http_version_of h2c = some HttpVersion.h2c
http_version_of http2 = some HttpVersion.http2
http_version_of http3 = some HttpVersion.http3

-- `(start_time, config, result).into()`, once the tests are over.
abbrev pub report_of :
    {F M : Type 0}
    → TestConfig
    → List Test × Result (NetworkTestResult F M)
    → List Test × Result (TestReport F M)
report_of config (started, err message) = (started, err message)
report_of config (started, ok result) = (started, ok (record { config = config; result = result }))

module _ {F M : Type 0} (index : IndexMap ThroughputResult M) (net : Network F) where
  abbrev pub Run : Type 0
  Run = List Test × Result (TestReport F M)

  unfoldable pub run_tcp_client : TcpTestConfig → Run
  unfolding run_tests
  run_tcp_client c = report_of (tcp_config c) (
      run_tests index c.test_type (tcp_suite net c) c.payload_sizes
        (new_result index NetworkProtocol.tcp))

  unfoldable pub run_udp_client : UdpTestConfig → Run
  unfolding run_tests
  run_udp_client c = report_of (udp_config c) (
      run_tests index c.test_type (udp_suite net c) c.payload_sizes
        (new_result index NetworkProtocol.udp))

  unfoldable pub run_http_test : HttpTestConfig → Run
  unfolding run_tests
  run_http_test c = elim (net.create_http_client c.http_version) [
    | some message ↦ ([], err message)
    | none ↦ report_of (http_config c) (
        run_tests index c.test_type (http_suite net c) c.payload_sizes
          (new_result index NetworkProtocol.http))
  ]

  module _ (s : IndexSet) where
    -- The arm of a mode: the configuration and its client. No mode reaches the empty error.
    unfoldable pub run_mode : ClientOptions → ClientMode → Run
    unfolding run_tcp_client run_udp_client run_http_test new_tcp_config new_udp_config
        new_http_config
    run_mode o tcp =
        run_tcp_client
          (new_tcp_config s o.server o.port o.duration o.connections o.test_type o.test_sizes)
    run_mode o udp =
        run_udp_client
          (new_udp_config s o.server o.port o.duration o.connections o.test_type o.test_sizes)
    run_mode o mode = elim (http_version_of mode) [
      | none ↦ ([], err [])
      | some version ↦ run_http_test (
          new_http_config s o.server o.port o.duration o.connections o.test_type o.test_sizes
            o.chunk_size version)
    ]

    -- The `client` command; none is the error of the mode.
    unfoldable pub run_client : ClientOptions → Option Run
    unfolding client_mode run_mode
    run_client o = do mode ← client_mode o; some (run_mode o mode)
