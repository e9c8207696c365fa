-- ===== src/Html/Configs.antt =====
-- The configurations in src/renderer/mod.rs: `to_html`, and Streamed for `write_html`.
pub mod Streamed
use speed_cli.Base.{ℕ, List, [], ◌∷◌, ◌/◌, map}
use speed_cli.Base.Decimal.{print_usize}
use speed_cli.Base.Time.{Duration}
use speed_cli.Http.{HttpVersion, http1, h2c, http2, http3}
use speed_cli.Testing.Config.{TcpTestConfig, UdpTestConfig, HttpTestConfig}
use speed_cli.Testing.Runner.{TestConfig, tcp_config, udp_config, http_config}
use speed_cli.Html.{Text, codes, lines, join, format, Format, test_type_html}

-- `to_html` of an `HttpVersion`, which its `write_html` writes.
unfoldable pub version_html : HttpVersion → Text
version_html http1 = codes "HTTP/1.1"
version_html h2c = codes "HTTP/2 Cleartext (h2c)"
version_html http2 = codes "HTTP/2 with TLS"
version_html http3 = codes "HTTP/3 (QUIC)"

-- `Duration::as_secs`.
abbrev pub as_secs : Duration → ℕ
as_secs d = d / 1_000_000_000

module _ {F T : Type 0} (fmt : Format F T) where
  unfoldable pub payload_sizes_html : List ℕ → Text
  unfolding join
  payload_sizes_html sizes = join (codes ", ") (map fmt.format_size sizes)

  unfoldable pub tcp_html : TcpTestConfig → Text
  unfolding payload_sizes_html test_type_html
  tcp_html c = format (
      lines (
        "<h3 style=\"color: #28a745; margin-top: 0;\">TCP Configuration</h3>"
        ∷ "            <div style=\"display: grid; gap: 10px;\">"
        ∷ "                <div><strong>Protocol:</strong> <span style=\"color: #28a745;\">TCP</span></div>"
        ∷ "                <div><strong>Server:</strong> <span style=\"color: #007acc;\">" ∷ [])
      ∷ c.server
      ∷ lines (
          "</span></div>"
          ∷ "                <div><strong>Port:</strong> <span style=\"color: #fd7e14;\">" ∷ [])
      ∷ print_usize c.port
      ∷ lines (
          "</span></div>"
          ∷ "                <div><strong>Duration:</strong> <span style=\"color: #6f42c1;\">" ∷ [])
      ∷ print_usize (as_secs c.duration)
      ∷ lines (
          "s</span></div>"
          ∷ "                <div><strong>Parallel Connections:</strong> <span style=\"color: #28a745;\">"
          ∷ [])
      ∷ print_usize c.parallel_connections
      ∷ lines (
          "</span></div>"
          ∷ "                <div><strong>Test Type:</strong> <span style=\"color: #fd7e14;\">"
          ∷ [])
      ∷ test_type_html c.test_type
      ∷ lines (
          "</span></div>"
          ∷ "                <div><strong>Payload Sizes:</strong> <span style=\"color: #6c757d;\">["
          ∷ [])
      ∷ payload_sizes_html c.payload_sizes
      ∷ lines ("]</span></div>" ∷ "            </div>" ∷ [])
      ∷ [])

  unfoldable pub udp_html : UdpTestConfig → Text
  unfolding payload_sizes_html test_type_html
  udp_html c = format (
      lines (
        "<h3 style=\"color: #28a745; margin-top: 0;\">UDP Configuration</h3>"
        ∷ "            <div style=\"display: grid; gap: 10px;\">"
        ∷ "                <div><strong>Protocol:</strong> <span style=\"color: #28a745;\">UDP</span></div>"
        ∷ "                <div><strong>Server:</strong> <span style=\"color: #007acc;\">" ∷ [])
      ∷ c.server
      ∷ lines (
          "</span></div>"
          ∷ "                <div><strong>Port:</strong> <span style=\"color: #fd7e14;\">" ∷ [])
      ∷ print_usize c.port
      ∷ lines (
          "</span></div>"
          ∷ "                <div><strong>Duration:</strong> <span style=\"color: #6f42c1;\">" ∷ [])
      ∷ print_usize c.duration
      ∷ lines (
          "s</span></div>"
          ∷ "                <div><strong>Parallel Streams:</strong> <span style=\"color: #28a745;\">"
          ∷ [])
      ∷ print_usize c.parallel_streams
      ∷ lines (
          "</span></div>"
          ∷ "                <div><strong>Test Type:</strong> <span style=\"color: #fd7e14;\">"
          ∷ [])
      ∷ test_type_html c.test_type
      ∷ lines (
          "</span></div>"
          ∷ "                <div><strong>Payload Sizes:</strong> <span style=\"color: #6c757d;\">["
          ∷ [])
      ∷ payload_sizes_html c.payload_sizes
      ∷ lines ("]</span></div>" ∷ "            </div>" ∷ [])
      ∷ [])

  unfoldable pub http_html : HttpTestConfig → Text
  unfolding payload_sizes_html test_type_html version_html
  http_html c = format (
      lines (
        "<h3 style=\"color: #28a745; margin-top: 0;\">HTTP Configuration</h3>"
        ∷ "            <div style=\"display: grid; gap: 10px;\">"
        ∷ "                <div><strong>Protocol:</strong> <span style=\"color: #28a745;\">HTTP</span></div>"
        ∷ "                <div><strong>Server URL:</strong> <span style=\"color: #007acc;\">" ∷ [])
      ∷ c.server_url
      ∷ lines (
          "</span></div>"
          ∷ "                <div><strong>Duration:</strong> <span style=\"color: #6f42c1;\">" ∷ [])
      ∷ print_usize (as_secs c.duration)
      ∷ lines (
          "s</span></div>"
          ∷ "                <div><strong>Parallel Connections:</strong> <span style=\"color: #28a745;\">"
          ∷ [])
      ∷ print_usize c.parallel_connections
      ∷ lines (
          "</span></div>"
          ∷ "                <div><strong>Test Type:</strong> <span style=\"color: #fd7e14;\">"
          ∷ [])
      ∷ test_type_html c.test_type
      ∷ lines (
          "</span></div>"
          ∷ "                <div><strong>HTTP Version:</strong> <span style=\"color: #fd7e14;\">"
          ∷ [])
      ∷ version_html c.http_version
      ∷ lines (
          "</span></div>"
          ∷ "                <div><strong>Payload Sizes:</strong> <span style=\"color: #6c757d;\">["
          ∷ [])
      ∷ payload_sizes_html c.payload_sizes
      ∷ lines ("]</span></div>" ∷ "            </div>" ∷ [])
      ∷ [])

  unfoldable pub config_html : TestConfig → Text
  unfolding tcp_html udp_html http_html
  config_html (tcp_config c) = tcp_html c
  config_html (udp_config c) = udp_html c
  config_html (http_config c) = http_html c
