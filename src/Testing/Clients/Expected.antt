-- ===== src/Testing/Clients/Expected.antt =====
-- What the options of the client of src/main.rs ask for: the configuration of each protocol, its
-- tests and the errors that they may meet.
use speed_cli.Base.{max, ◌++◌, if◌then◌else◌, ℕ, ◌≡◌, Option, none, some, List}
use speed_cli.Base.Decimal.{print_usize}
use speed_cli.Base.Text.{codes}
use speed_cli.Base.Time.{from_secs}
use speed_cli.Http.{is_secure, scheme}
use speed_cli.Http.Server.{default_chunk_size}
use speed_cli.Testing.Config.{
  TestType, ClientMode, tcp, udp, default_payload_sizes, default_http_payload_sizes, unwrap_or,
}
use speed_cli.Testing.Runner.{Suite, TestConfig, tcp_config, udp_config, http_config}
use speed_cli.Testing.Runner.Plan.{or_else, first_error, plan}
use speed_cli.Testing.Clients.{
  Network, ClientOptions, tcp_suite, udp_suite, http_suite, http_version_of,
}

abbrev pub sizes_of : TestConfig → List ℕ
sizes_of (tcp_config c) = c.payload_sizes
sizes_of (udp_config c) = c.payload_sizes
sizes_of (http_config c) = c.payload_sizes

abbrev pub defaults_of : ClientMode → List ℕ
defaults_of tcp = default_payload_sizes
defaults_of udp = default_payload_sizes
defaults_of _ = default_http_payload_sizes

module _ {F : Type 0} (net : Network F) where
  abbrev pub suite_of : TestConfig → Suite F
  suite_of (tcp_config c) = tcp_suite net c
  suite_of (udp_config c) = udp_suite net c
  suite_of (http_config c) = http_suite net c

  -- The error of the HTTP client's building.
  abbrev pub build_error : TestConfig → Option (List ℕ)
  build_error (http_config c) = net.create_http_client c.http_version
  build_error _ = none

  -- The first error that a run of the tests meets, if any.
  abbrev pub run_error : TestType → TestConfig → Option (List ℕ)
  run_error type config =
      or_else (build_error config) (first_error (suite_of config) (plan type (sizes_of config)))

-- The configuration is that of the protocol of the mode, with what the options say of the server,
-- the time, the connections, of which one is made at least, and the chunks. The port is the default
-- one of the protocol if none is given.
abbrev pub IsConfig : ClientOptions → ClientMode → TestConfig → Type 0
IsConfig o tcp (tcp_config c) =
    (c.server ≡ o.server)
    × (c.port ≡ unwrap_or o.port 5201)
    × (c.duration ≡ from_secs o.duration)
    × (c.parallel_connections ≡ max o.connections 1)
    × (c.test_type ≡ o.test_type)
IsConfig o udp (udp_config c) =
    (c.server ≡ o.server)
    × (c.port ≡ unwrap_or o.port 5201)
    × (c.duration ≡ o.duration)
    × (c.parallel_streams ≡ max o.connections 1)
    × (c.test_type ≡ o.test_type)
IsConfig o tcp _ = ⊥
IsConfig o udp _ = ⊥
IsConfig o mode (http_config c) =
    (some c.http_version ≡ http_version_of mode)
    × (c.server_url
        ≡ scheme c.http_version
          ++ (codes "://"
              ++ (o.server
                  ++ (codes ":"
                      ++ print_usize
                          (unwrap_or o.port (if is_secure c.http_version then 8443 else 8080))))))
    × (c.chunk_size ≡ unwrap_or o.chunk_size default_chunk_size)
    × (c.duration ≡ from_secs o.duration)
    × (c.parallel_connections ≡ max o.connections 1)
    × (c.test_type ≡ o.test_type)
IsConfig o mode _ = ⊥
