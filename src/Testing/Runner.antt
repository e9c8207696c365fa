-- ===== src/Testing/Runner.antt =====
-- The choice and the order of the tests: `run_tcp_client` of src/performance/tcp/client.rs,
-- `run_udp_client` of src/performance/udp/client.rs and `run_http_test` of
-- src/performance/http/client.rs, with src/report/result/network.rs and src/report/mod.rs. What a
-- single test gives is an argument, with the arguments that the code calls it with. Time stamps and
-- the building of the HTTP client are left out.
pub mod Plan
pub mod Sizes
pub mod Outcomes
use speed_cli.Base.{ℕ, Option, none, some, List, [], ◌∷◌, ◌++◌, concat, map}
use speed_cli.Base.Outcome.{Result, ok, err, ◌>>=◌}
use speed_cli.Base.Time.{Duration, from_secs}
use speed_cli.Report.Throughput.{ThroughputResult}
use speed_cli.Report.Latency.{LatencyResult}
use speed_cli.Testing.Index.{IndexMap}
use speed_cli.Testing.Config.{
  TestType, download, upload, bidirectional, simultaneous, latency_only, TcpTestConfig,
  UdpTestConfig, HttpTestConfig,
}

pub data NetworkProtocol : Type 0 where
  http : NetworkProtocol
  tcp : NetworkProtocol
  udp : NetworkProtocol

pub record NetworkTestResult (F M : Type 0) : Type 0 where
  pub latency : Option (LatencyResult F)
  pub download_results : M
  pub upload_results : M
  pub protocol : NetworkProtocol

-- A test that the client starts.
pub data Test : Type 0 where
  latency_test : Test
  download_test : (payload_size : ℕ) → Test
  upload_test : (payload_size : ℕ) → Test

-- What the tests of a client give.
pub record Suite (F : Type 0) : Type 0 where
  pub measure_latency : Result (Option (LatencyResult F))
  pub run_download_test : ℕ → Result ThroughputResult
  pub run_upload_test : ℕ → Result ThroughputResult

pub data TestConfig : Type 0 where
  tcp_config : TcpTestConfig → TestConfig
  udp_config : UdpTestConfig → TestConfig
  http_config : HttpTestConfig → TestConfig

-- `TestReport`, whose `TestResult` is always that of a network test.
pub record TestReport (F M : Type 0) : Type 0 where
  pub config : TestConfig
  pub result : NetworkTestResult F M

module _ {F M : Type 0} (index : IndexMap ThroughputResult M) where
  -- `NetworkTestResult::new_http`, `new_tcp` and `new_udp`.
  abbrev pub new_result : NetworkProtocol → NetworkTestResult F M
  new_result protocol = record {
    latency = none;
    download_results = index.new_map;
    upload_results = index.new_map;
    protocol = protocol;
  }

  abbrev pub add_download : ℕ → ThroughputResult → NetworkTestResult F M → NetworkTestResult F M
  add_download k d r = record r { download_results = index.insert k d r.download_results }

  abbrev pub add_upload : ℕ → ThroughputResult → NetworkTestResult F M → NetworkTestResult F M
  add_upload k u r = record r { upload_results = index.insert k u r.upload_results }

  -- A pass through the loop over the payload sizes: the tests that it starts, and what they give.
  -- In a simultaneous test both run to their end before the errors are looked at.
  unfoldable pub size_step :
      TestType → Suite F → ℕ → NetworkTestResult F M → List Test × Result (NetworkTestResult F M)
  size_step download s k r =
      (download_test k ∷ [], (do d ← s.run_download_test k; ok (add_download k d r)))
  size_step upload s k r = (upload_test k ∷ [], (do u ← s.run_upload_test k; ok (add_upload k u r)))
  size_step bidirectional s k r = elim (s.run_download_test k) [
    | err message ↦ (download_test k ∷ [], err message)
    | ok d ↦ (
      download_test k ∷ upload_test k ∷ [],
      (do u ← s.run_upload_test k; ok (add_upload k u (add_download k d r))),
    )
  ]
  size_step simultaneous s k r = (
    download_test k ∷ upload_test k ∷ [],
    (do
      d ← s.run_download_test k
      u ← s.run_upload_test k
      ok (add_upload k u (add_download k d r))),
  )
  size_step latency_only s k r = ([], ok r)

  -- The next pass, unless an error ended the loop.
  abbrev pub and_then :
      List Test × Result (NetworkTestResult F M)
      → (NetworkTestResult F M → List Test × Result (NetworkTestResult F M))
      → List Test × Result (NetworkTestResult F M)
  and_then (started, err message) next = (started, err message)
  and_then (started, ok r) next = let (rest, result) = next r in (started ++ rest, result)

  -- The loop.
  unfoldable pub size_loop :
      TestType
      → Suite F
      → List ℕ
      → NetworkTestResult F M
      → List Test × Result (NetworkTestResult F M)
  unfolding size_step
  size_loop type s [] r = ([], ok r)
  size_loop type s (k ∷ ks) r = and_then (size_step type s k r) (λ r'. size_loop type s ks r')

  -- The `match` on the type of the test.
  unfoldable pub run_tests :
      TestType
      → Suite F
      → List ℕ
      → NetworkTestResult F M
      → List Test × Result (NetworkTestResult F M)
  unfolding size_loop
  run_tests latency_only s ks r =
      (latency_test ∷ [], (do l ← s.measure_latency; ok (record r { latency = l })))
  run_tests type s ks r = size_loop type s ks r
