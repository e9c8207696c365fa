-- ===== src/Html/Configs/Streamed.antt =====
-- `write_html` of the configurations in src/renderer/mod.rs.
use speed_cli.Base.{[], ◌∷◌}
use speed_cli.Base.Decimal.{print_usize}
use speed_cli.Testing.Config.{TcpTestConfig, UdpTestConfig, HttpTestConfig}
use speed_cli.Testing.Runner.{TestConfig, tcp_config, udp_config, http_config}
use speed_cli.Html.{lines, Format, Writer, Action, write, test_type_html}
use speed_cli.Html.Configs.{as_secs, version_html, payload_sizes_html}

module _ {F T W : Type 0} (fmt : Format F T) (out : Writer W) where
  unfoldable pub write_tcp : TcpTestConfig → Action W
  unfolding payload_sizes_html test_type_html
  write_tcp c = write out (
      lines (
        "<h3 style=\"color: #28a745; margin-top: 0;\">TCP Configuration</h3>"
        ∷ "            <div style=\"display: grid; gap: 10px;\">"
        ∷ "                <div><strong>Protocol:</strong> <span style=\"color: #28a745;\">TCP</span></div>"
        ∷ "                <div><strong>Server:</strong> <span style=\"color: #007acc;\">" ∷ [])
      ∷ c.server
      ∷ lines (
          "</span></div>"
          ∷ "                <div><strong>Port:</strong> <span style=\"color: #fd7e14;\">" ∷ [])
      ∷ print_usize c.port
      ∷ lines (
          "</span></div>"
          ∷ "                <div><strong>Duration:</strong> <span style=\"color: #6f42c1;\">" ∷ [])
      ∷ print_usize (as_secs c.duration)
      ∷ lines (
          "s</span></div>"
          ∷ "                <div><strong>Parallel Connections:</strong> <span style=\"color: #28a745;\">"
          ∷ [])
      ∷ print_usize c.parallel_connections
      ∷ lines (
          "</span></div>"
          ∷ "                <div><strong>Test Type:</strong> <span style=\"color: #fd7e14;\">"
          ∷ [])
      ∷ test_type_html c.test_type
      ∷ lines (
          "</span></div>"
          ∷ "                <div><strong>Payload Sizes:</strong> <span style=\"color: #6c757d;\">["
          ∷ [])
      ∷ payload_sizes_html fmt c.payload_sizes
      ∷ lines ("]</span></div>" ∷ "            </div>" ∷ [])
      ∷ [])

  unfoldable pub write_udp : UdpTestConfig → Action W
  unfolding payload_sizes_html test_type_html
  write_udp c = write out (
      lines (
        "<h3 style=\"color: #28a745; margin-top: 0;\">UDP Configuration</h3>"
        ∷ "            <div style=\"display: grid; gap: 10px;\">"
        ∷ "                <div><strong>Protocol:</strong> <span style=\"color: #28a745;\">UDP</span></div>"
        ∷ "                <div><strong>Server:</strong> <span style=\"color: #007acc;\">" ∷ [])
      ∷ c.server
      ∷ lines (
          "</span></div>"
          ∷ "                <div><strong>Port:</strong> <span style=\"color: #fd7e14;\">" ∷ [])
      ∷ print_usize c.port
      ∷ lines (
          "</span></div>"
          ∷ "                <div><strong>Duration:</strong> <span style=\"color: #6f42c1;\">" ∷ [])
      ∷ print_usize c.duration
      ∷ lines (
          "s</span></div>"
          ∷ "                <div><strong>Parallel Streams:</strong> <span style=\"color: #28a745;\">"
          ∷ [])
      ∷ print_usize c.parallel_streams
      ∷ lines (
          "</span></div>"
          ∷ "                <div><strong>Test Type:</strong> <span style=\"color: #fd7e14;\">"
          ∷ [])
      ∷ test_type_html c.test_type
      ∷ lines (
          "</span></div>"
          ∷ "                <div><strong>Payload Sizes:</strong> <span style=\"color: #6c757d;\">["
          ∷ [])
      ∷ payload_sizes_html fmt c.payload_sizes
      ∷ lines ("]</span></div>" ∷ "            </div>" ∷ [])
      ∷ [])

  unfoldable pub write_http : HttpTestConfig → Action W
  unfolding payload_sizes_html test_type_html version_html
  write_http c = write out (
      lines (
        "<h3 style=\"color: #28a745; margin-top: 0;\">HTTP Configuration</h3>"
        ∷ "            <div style=\"display: grid; gap: 10px;\">"
        ∷ "                <div><strong>Protocol:</strong> <span style=\"color: #28a745;\">HTTP</span></div>"
        ∷ "                <div><strong>Server URL:</strong> <span style=\"color: #007acc;\">" ∷ [])
      ∷ c.server_url
      ∷ lines (
          "</span></div>"
          ∷ "                <div><strong>Duration:</strong> <span style=\"color: #6f42c1;\">" ∷ [])
      ∷ print_usize (as_secs c.duration)
      ∷ lines (
          "s</span></div>"
          ∷ "                <div><strong>Parallel Connections:</strong> <span style=\"color: #28a745;\">"
          ∷ [])
      ∷ print_usize c.parallel_connections
      ∷ lines (
          "</span></div>"
          ∷ "                <div><strong>Test Type:</strong> <span style=\"color: #fd7e14;\">"
          ∷ [])
      ∷ test_type_html c.test_type
      ∷ lines (
          "</span></div>"
          ∷ "                <div><strong>HTTP Version:</strong> <span style=\"color: #fd7e14;\">"
          ∷ [])
      ∷ version_html c.http_version
      ∷ lines (
          "</span></div>"
          ∷ "                <div><strong>Payload Sizes:</strong> <span style=\"color: #6c757d;\">["
          ∷ [])
      ∷ payload_sizes_html fmt c.payload_sizes
      ∷ lines ("]</span></div>" ∷ "            </div>" ∷ [])
      ∷ [])

  unfoldable pub write_config : TestConfig → Action W
  unfolding write_tcp write_udp write_http
  write_config (tcp_config c) = write_tcp c
  write_config (udp_config c) = write_udp c
  write_config (http_config c) = write_http c
