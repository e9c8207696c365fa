-- ===== src/Tcp/Server/Builder.antt =====
-- `TcpServerBuilder` and `run_tcp_server` of src/performance/tcp/server.rs.
use speed_cli.Base.{ℕ, ◌≡◌, refl, Option, some}
use speed_cli.Base.Time.{Duration, from_secs}
use speed_cli.Tcp.Server.{TcpServerConfig, default_config, TcpServer, new_server}

pub record TcpServerBuilder : Type 0 where
  pub config : TcpServerConfig

abbrev pub new_builder : TcpServerBuilder
new_builder = record { config = default_config }

abbrev pub max_connections : ℕ → TcpServerBuilder → TcpServerBuilder
max_connections max b = record { config = record b.config { max_connections = max } }

abbrev pub connection_timeout : Duration → TcpServerBuilder → TcpServerBuilder
connection_timeout timeout b = record { config = record b.config { connection_timeout = timeout } }

abbrev pub read_timeout : Duration → TcpServerBuilder → TcpServerBuilder
read_timeout timeout b = record { config = record b.config { read_timeout = timeout } }

abbrev pub buffer_size : ℕ → TcpServerBuilder → TcpServerBuilder
buffer_size size b = record { config = record b.config { buffer_size = size } }

abbrev pub report_interval : Duration → TcpServerBuilder → TcpServerBuilder
report_interval interval b = record { config = record b.config { report_interval = interval } }

abbrev pub max_bytes_per_connection : Option ℕ → TcpServerBuilder → TcpServerBuilder
max_bytes_per_connection max_bytes b = record {
  config = record b.config { max_bytes_per_connection = max_bytes };
}

abbrev pub build : TcpServerBuilder → TcpServer
build b = new_server b.config

-- The server that `run_tcp_server` starts.
abbrev pub run_tcp_server : TcpServer
run_tcp_server = build (
    max_bytes_per_connection (some 1_000_000_000_000) (
      report_interval (from_secs 5) (
        buffer_size 131072 (
          read_timeout (from_secs 30)
            (connection_timeout (from_secs 300) (max_connections 1000 new_builder))))))

-- It has the default configuration.
run_tcp_server_lem : run_tcp_server ≡ new_server default_config
run_tcp_server_lem = refl
