-- ===== src/Display/Configs.antt =====
-- `Display` of the configurations in src/report/config.rs.
use Prim.Native.String.{String}
use speed_cli.Base.{ℕ, ◌-◌, ◌&&◌, List, [], ◌∷◌, leb, if◌then◌else◌, map}
use speed_cli.Base.Decimal.{print_usize}
use speed_cli.Base.Text.{Text, codes, join, format}
use speed_cli.Base.Writing.{Writer, Action, ◌>>◌, write}
use speed_cli.Http.{HttpVersion, http1, h2c, http2, http3, scheme}
use speed_cli.Testing.Config.{
  TestType, download, upload, bidirectional, simultaneous, latency_only, TcpTestConfig,
  UdpTestConfig, HttpTestConfig,
}
use speed_cli.Testing.Runner.{TestConfig, tcp_config, udp_config, http_config}
use speed_cli.Html.Configs.{as_secs}
use speed_cli.Display.{Print, row, bold, bright_blue, cyan, green, magenta, white, yellow}

-- The derived `Debug` of a `TestType` and of an `HttpVersion`.
unfoldable pub test_type_name : TestType → Text
test_type_name download = codes "Download"
test_type_name upload = codes "Upload"
test_type_name bidirectional = codes "Bidirectional"
test_type_name simultaneous = codes "Simultaneous"
test_type_name latency_only = codes "LatencyOnly"

unfoldable pub version_name : HttpVersion → Text
version_name http1 = codes "HTTP1"
version_name h2c = codes "H2C"
version_name http2 = codes "HTTP2"
version_name http3 = codes "HTTP3"

-- `str::to_uppercase`, on a text in ASCII.
unfoldable pub to_uppercase : Text → Text
to_uppercase s = map (λ c. if leb b'a' c && leb c b'z' then c - 32 else c) s

module _ {F T W : Type 0} (p : Print F T) (out : Writer W) where
  unfoldable pub setting : String → Text → Action W
  unfolding row
  setting label value = row p out (codes "  ") (bright_blue ∷ bold ∷ []) (codes label) value

  unfoldable pub print_sizes : List ℕ → Action W
  unfolding join
  print_sizes sizes = write out (
      codes "  "
      ∷ p.paint (bright_blue ∷ bold ∷ []) (codes "Payload Sizes")
      ∷ codes ": ["
      ∷ p.paint (white ∷ []) (join (codes ", ") (map p.texts.format_size sizes))
      ∷ codes "]\n"
      ∷ [])

  unfoldable pub print_tcp : TcpTestConfig → Action W
  unfolding setting print_sizes
  print_tcp c =
      setting "Protocol" (p.paint (green ∷ []) (codes "TCP"))
      >> setting "Server" (p.paint (cyan ∷ []) c.server)
      >> setting "Port" (p.paint (yellow ∷ []) (print_usize c.port))
      >> setting "Duration"
          (p.paint (magenta ∷ []) (format (print_usize (as_secs c.duration) ∷ codes "s" ∷ [])))
      >> setting "Parallel Connections" (p.paint (green ∷ []) (print_usize c.parallel_connections))
      >> print_sizes c.payload_sizes

  unfoldable pub print_udp : UdpTestConfig → Action W
  unfolding setting print_sizes
  print_udp c =
      setting "Protocol" (p.paint (green ∷ []) (codes "UDP"))
      >> setting "Server" (p.paint (cyan ∷ []) c.server)
      >> setting "Port" (p.paint (yellow ∷ []) (print_usize c.port))
      >> setting "Duration"
          (p.paint (magenta ∷ []) (format (print_usize (c.duration) ∷ codes "s" ∷ [])))
      >> setting "Parallel Streams" (p.paint (green ∷ []) (print_usize c.parallel_streams))
      >> print_sizes c.payload_sizes

  unfoldable pub print_http : HttpTestConfig → Action W
  unfolding setting print_sizes
  print_http c =
      setting "Protocol" (p.paint (green ∷ []) (to_uppercase (scheme c.http_version)))
      >> setting "Server URL" (p.paint (cyan ∷ []) c.server_url)
      >> setting "Duration"
          (p.paint (magenta ∷ []) (format (print_usize (as_secs c.duration) ∷ codes "s" ∷ [])))
      >> setting "Parallel Connections" (p.paint (green ∷ []) (print_usize c.parallel_connections))
      >> setting "Test Type" (p.paint (yellow ∷ []) (test_type_name c.test_type))
      >> setting "HTTP Version" (p.paint (yellow ∷ []) (version_name c.http_version))
      >> print_sizes c.payload_sizes

  unfoldable pub print_config : TestConfig → Action W
  unfolding print_tcp print_udp print_http
  print_config (tcp_config c) = print_tcp c
  print_config (udp_config c) = print_udp c
  print_config (http_config c) = print_http c
