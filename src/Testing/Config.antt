-- ===== src/Testing/Config.antt =====
-- src/report/config.rs, src/constants.rs and the types of src/utils/types.rs: the configuration of a
-- test as the client makes it. The printing is in Display.
pub mod Sizes
use speed_cli.Base.{ℕ, Bool, Option, none, some, List, [], ◌∷◌, ◌++◌, if◌then◌else◌, is_empty, max}
use speed_cli.Base.Decimal.{print_usize}
use speed_cli.Base.Time.{Duration, from_secs}
use speed_cli.Http.{HttpVersion, is_secure, scheme}
use speed_cli.Http.Server.{default_chunk_size}
use speed_cli.Testing.Index.{IndexSet}

pub data TestType : Type 0 where
  download : TestType
  upload : TestType
  bidirectional : TestType
  simultaneous : TestType
  latency_only : TestType

pub data ClientMode : Type 0 where
  tcp : ClientMode
  udp : ClientMode
  http1 : ClientMode
  h2c : ClientMode
  http2 : ClientMode
  http3 : ClientMode

abbrev pub default_tcp_port : ℕ
default_tcp_port = 5201

abbrev pub default_udp_port : ℕ
default_udp_port = 5201

abbrev pub default_http_port : ℕ
default_http_port = 8080

abbrev pub default_https_port : ℕ
default_https_port = 8443

-- `DEFAULT_TCP_PAYLOAD_SIZES`; those of UDP are the same.
abbrev pub default_payload_sizes : List ℕ
default_payload_sizes = 1024 ∷ 8192 ∷ 65536 ∷ []

abbrev pub default_http_payload_sizes : List ℕ
default_http_payload_sizes = 1_048_576 ∷ 10_485_760 ∷ 104_857_600 ∷ []

pub record TcpTestConfig : Type 0 where
  pub server : List ℕ
  pub port : ℕ
  pub duration : Duration
  pub parallel_connections : ℕ
  pub test_type : TestType
  pub payload_sizes : List ℕ

-- The duration is in seconds.
pub record UdpTestConfig : Type 0 where
  pub server : List ℕ
  pub port : ℕ
  pub duration : ℕ
  pub parallel_streams : ℕ
  pub test_type : TestType
  pub payload_sizes : List ℕ

pub record HttpTestConfig : Type 0 where
  pub server_url : List ℕ
  pub duration : Duration
  pub parallel_connections : ℕ
  pub test_type : TestType
  pub payload_sizes : List ℕ
  pub http_version : HttpVersion
  pub chunk_size : ℕ

abbrev pub unwrap_or {ℓ} : {A : Type ℓ} → Option A → A → A
unwrap_or none default = default
unwrap_or (some x) default = x

module _ (s : IndexSet) where
  -- The set of the given sizes, or of the default ones when none is given.
  unfoldable pub payload_sizes_of : List ℕ → List ℕ → List ℕ
  payload_sizes_of sizes defaults =
      let given = s.collect sizes in if is_empty given then s.collect defaults else given

  unfoldable pub new_tcp_config : List ℕ → Option ℕ → ℕ → ℕ → TestType → List ℕ → TcpTestConfig
  unfolding payload_sizes_of
  new_tcp_config server port duration parallel_connections test_type sizes = record {
    server = server;
    port = unwrap_or port default_tcp_port;
    duration = from_secs duration;
    parallel_connections = max parallel_connections 1;
    test_type = test_type;
    payload_sizes = payload_sizes_of sizes default_payload_sizes;
  }

  unfoldable pub new_udp_config : List ℕ → Option ℕ → ℕ → ℕ → TestType → List ℕ → UdpTestConfig
  unfolding payload_sizes_of
  new_udp_config server port duration parallel_streams test_type sizes = record {
    server = server;
    port = unwrap_or port default_udp_port;
    duration = duration;
    parallel_streams = max parallel_streams 1;
    test_type = test_type;
    payload_sizes = payload_sizes_of sizes default_payload_sizes;
  }

  unfoldable pub new_http_config :
      List ℕ → Option ℕ → ℕ → ℕ → TestType → List ℕ → Option ℕ → HttpVersion → HttpTestConfig
  unfolding payload_sizes_of scheme
  new_http_config server port duration parallel_connections test_type sizes chunk_size version =
      let port' =
        unwrap_or port (if is_secure version then default_https_port else default_http_port) in
      record {
        server_url =
            scheme version ++ ((b':' ∷ b'/' ∷ b'/' ∷ []) ++ (server ++ (b':' ∷ print_usize port')));
        duration = from_secs duration;
        parallel_connections = max parallel_connections 1;
        test_type = test_type;
        payload_sizes = payload_sizes_of sizes default_http_payload_sizes;
        http_version = version;
        chunk_size = unwrap_or chunk_size default_chunk_size;
      }
