-- ===== src/Testing/Clients/Reports.antt =====
-- What the report of a client of src/main.rs holds.
use speed_cli.Base.{
  sym, subst, ℕ, ◌≡◌, ◌⊎◌, refl, ap, Option, none, some, List, [], ◌∷◌, arith, inl, inr,
  Option-cases,
}
use speed_cli.Base.Outcome.{Result, ok, err}
use speed_cli.Http.{HttpVersion}
use speed_cli.Report.Throughput.{ThroughputResult}
use speed_cli.Testing.Index.{IsDistinct, IndexSet, IsIndexSet, IndexMap, IsIndexMap}
use speed_cli.Testing.Config.{
  TestType, ClientMode, tcp, udp, http1, h2c, http2, http3, HttpTestConfig, payload_sizes_of,
  default_payload_sizes, default_http_payload_sizes, new_tcp_config, new_udp_config,
  new_http_config,
}
use speed_cli.Testing.Config.Sizes.{IsSelection, payload_sizes_of-IsSelection}
use speed_cli.Testing.Runner.{
  NetworkProtocol, NetworkTestResult, Test, Suite, TestConfig, tcp_config, udp_config, http_config,
  TestReport, new_result, run_tests,
}
use speed_cli.Testing.Runner.Plan.{first_error, plan, downloads, uploads, tested, IsRecorded}
use speed_cli.Testing.Runner.Outcomes.{Ends, run_tests-Ends}
use speed_cli.Testing.Runner.Sizes.{ok-injective}
use speed_cli.Testing.Clients.{
  Network, ClientOptions, http_suite, report_of, run_tcp_client, run_udp_client, run_http_test,
  run_mode, run_client,
}
use speed_cli.Testing.Clients.Choice.{named_modes, client_mode_iff}
use speed_cli.Testing.Clients.Expected.{sizes_of, defaults_of, suite_of, run_error, IsConfig}

message_or {ℓ} : {A : Type ℓ} → List ℕ → Result A → List ℕ
message_or default (ok x) = default
message_or default (err message) = message

module _ {F M : Type 0} (index : IndexMap ThroughputResult M) (is_map : IsIndexMap index) where
  -- A run ends with the error given, or without one with a report of the configuration, in which
  -- what the tests of the suite gave is recorded.
  abbrev pub Reports :
      Suite F
      → Option (List ℕ)
      → TestType
      → TestConfig
      → List Test × Result (TestReport F M)
      → Type 0
  Reports suite error type config (started, result) =
      ((message : List ℕ) × (result ≡ err message) × (error ≡ some message))
      ⊎ ((report : TestReport F M) × (result ≡ ok report)
          × (error ≡ none)
          × (report.config ≡ config)
          × (started ≡ plan type (sizes_of config))
          × IsRecorded index suite report.result (tested (downloads type) (sizes_of config))
              (tested (uploads type) (sizes_of config)))

  report_of-Reports :
      (suite : Suite F) (type : TestType) (config : TestConfig)
      (x : List Test × Result (NetworkTestResult F M))
      → Ends index suite is_map
          (plan type (sizes_of config))
          (tested (downloads type) (sizes_of config))
          (tested (uploads type) (sizes_of config))
          x
      → Reports suite
          (first_error suite (plan type (sizes_of config)))
          type
          config
          (report_of config x)
  unfolding message_or
  report_of-Reports suite type config (started, err m) (inl (message, e, bad)) =
      inl (message, ap (λ r. err (message_or m r)) e, bad)
  report_of-Reports suite type config (started, err m) (inr (r', e, good, same, h)) = ground arith
  report_of-Reports suite type config (started, ok r) (inl (m, e, bad)) = ground arith
  report_of-Reports suite type config (started, ok r) (inr (r', e, good, same, h)) =
      let same_result : r ≡ r' = ok-injective r r' e in
      inr (
        record { config = config; result = r },
        refl,
        good,
        refl,
        same,
        subst
            (λ q.
              IsRecorded index suite q (tested (downloads type) (sizes_of config))
                (tested (uploads type) (sizes_of config)))
            (sym same_result) h,
      )

  module _ (net : Network F) (s : IndexSet) (is_set : IsIndexSet s) where
    -- The run is one of the mode's configuration with a selection of sizes.
    abbrev pub IsTested : ClientOptions → ClientMode → List Test × Result (TestReport F M) → Type 0
    IsTested o mode run =
        (config : TestConfig) × IsConfig o mode config
        × IsSelection o.test_sizes (defaults_of mode) (sizes_of config)
        × Reports (suite_of net config) (run_error net o.test_type config) o.test_type config run

    tcp_defaults :
        (sizes : List ℕ)
        → IsSelection sizes default_payload_sizes (payload_sizes_of s sizes default_payload_sizes)
    tcp_defaults sizes =
        payload_sizes_of-IsSelection s is_set sizes default_payload_sizes (refl, (refl, (refl, tt)))
          (omega arith)

    http_defaults :
        (sizes : List ℕ)
        → IsSelection sizes default_http_payload_sizes
            (payload_sizes_of s sizes default_http_payload_sizes)
    http_defaults sizes =
        payload_sizes_of-IsSelection s is_set sizes default_http_payload_sizes
          (refl, (refl, (refl, tt))) (omega arith)

    run_tests-Reports :
        (suite : Suite F) (type : TestType) (config : TestConfig) (protocol : NetworkProtocol)
        → IsDistinct (sizes_of config)
        → Reports suite (first_error suite (plan type (sizes_of config))) type config (
            report_of config
              (run_tests index type suite (sizes_of config) (new_result index protocol)))
    run_tests-Reports suite type config protocol d =
        report_of-Reports suite type config _
          (run_tests-Ends index suite is_map type (sizes_of config) protocol d)

    run_http_test-Reports :
        (c : HttpTestConfig)
        → IsDistinct c.payload_sizes
        → Reports
            (http_suite net c)
            (run_error net c.test_type (http_config c))
            c.test_type
            (http_config c)
            (run_http_test index net c)
    unfolding run_http_test
    run_http_test-Reports c d = elim (Option-cases (net.create_http_client c.http_version)) [
      | inl e ↦
          rw (e, run_http_test)
            (run_tests-Reports (http_suite net c) c.test_type (http_config c) NetworkProtocol.http
              d)
      | inr (message, e) ↦ rw (e, run_http_test) (inl (message, refl, refl))
    ]

    run_http_test-IsTested :
        (o : ClientOptions) (mode : ClientMode) (version : HttpVersion)
        → IsConfig o mode (
            http_config (
              new_http_config s o.server o.port o.duration o.connections o.test_type o.test_sizes
                o.chunk_size version))
        → defaults_of mode ≡ default_http_payload_sizes
        → IsTested o mode (
            run_http_test index net (
              new_http_config s o.server o.port o.duration o.connections o.test_type o.test_sizes
                o.chunk_size version))
    unfolding new_http_config
    run_http_test-IsTested o mode version is_config e =
        let c : HttpTestConfig =
          new_http_config s o.server o.port o.duration o.connections o.test_type o.test_sizes
            o.chunk_size version in
        let h = http_defaults o.test_sizes in
        (http_config c, is_config, rw e h, run_http_test-Reports c h.distinct)

    run_mode-IsTested :
        (o : ClientOptions) (mode : ClientMode) → IsTested o mode (run_mode index net s o mode)
    unfolding run_mode run_tcp_client run_udp_client new_tcp_config new_udp_config
    run_mode-IsTested o tcp =
        let h = tcp_defaults o.test_sizes in
        (
          tcp_config _,
          (refl, refl, refl, refl, refl),
          h,
          run_tests-Reports _ o.test_type (tcp_config _) NetworkProtocol.tcp h.distinct,
        )
    run_mode-IsTested o udp =
        let h = tcp_defaults o.test_sizes in
        (
          udp_config _,
          (refl, refl, refl, refl, refl),
          h,
          run_tests-Reports _ o.test_type (udp_config _) NetworkProtocol.udp h.distinct,
        )
    run_mode-IsTested o http1 =
        run_http_test-IsTested o http1 HttpVersion.http1 (refl, refl, refl, refl, refl, refl) refl
    run_mode-IsTested o h2c =
        run_http_test-IsTested o h2c HttpVersion.h2c (refl, refl, refl, refl, refl, refl) refl
    run_mode-IsTested o http2 =
        run_http_test-IsTested o http2 HttpVersion.http2 (refl, refl, refl, refl, refl, refl) refl
    run_mode-IsTested o http3 =
        run_http_test-IsTested o http3 HttpVersion.http3 (refl, refl, refl, refl, refl, refl) refl

    -- If the options name exactly one protocol, the client runs the tests of that protocol, on its
    -- configuration with the server, the port, the duration and the number of connections of the
    -- options. It ends with the first error of
    -- the building of its HTTP client or of the tests in the order of the plan. Without any, it ends
    -- with a report whose payload sizes are the given ones, each once, or the default ones of the
    -- protocol if none is given; and what the tests of that protocol gave is recorded under these
    -- sizes, for the directions that the type of the test asks for.
    pub run_client-IsTested :
        (o : ClientOptions) (mode : ClientMode)
        → named_modes o ≡ mode ∷ []
        → (run : List Test × Result (TestReport F M)) × (run_client index net s o ≡ some run)
          × IsTested o mode run
    unfolding run_client
    run_client-IsTested o mode named = (
      run_mode index net s o mode,
      rw ((client_mode_iff o mode).1 named) refl,
      run_mode-IsTested o mode,
    )
