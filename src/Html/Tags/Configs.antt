-- ===== src/Html/Tags/Configs.antt =====
-- The tags of the configurations in src/renderer/mod.rs.
use speed_cli.Base.{ℕ, refl, List, [], ◌∷◌, All, map}
use speed_cli.Http.{HttpVersion, http1, h2c, http2, http3}
use speed_cli.Testing.Config.{TestType, download, upload, bidirectional, simultaneous, latency_only}
use speed_cli.Testing.Runner.{TestConfig, tcp_config, udp_config, http_config}
use speed_cli.Html.{Text, codes, Format, test_type_html}
use speed_cli.Html.Configs.{version_html, payload_sizes_html, config_html}
use speed_cli.Html.Tags.{
  read, read_two, read_last, IsPlain, IsBalanced, IsPlain-IsBalanced, print_usize-IsBalanced,
  IsBalanced-join, IsPlainFormat, format_size-IsBalanced,
}

test_type_html-IsBalanced : (t : TestType) → IsBalanced (test_type_html t)
unfolding test_type_html read
test_type_html-IsBalanced download = record { reads = λ o. refl }
test_type_html-IsBalanced upload = record { reads = λ o. refl }
test_type_html-IsBalanced bidirectional = record { reads = λ o. refl }
test_type_html-IsBalanced simultaneous = record { reads = λ o. refl }
test_type_html-IsBalanced latency_only = record { reads = λ o. refl }

version_html-IsBalanced : (v : HttpVersion) → IsBalanced (version_html v)
unfolding version_html read
version_html-IsBalanced http1 = record { reads = λ o. refl }
version_html-IsBalanced h2c = record { reads = λ o. refl }
version_html-IsBalanced http2 = record { reads = λ o. refl }
version_html-IsBalanced http3 = record { reads = λ o. refl }

-- The server that a configuration names.
abbrev pub server_of : TestConfig → Text
server_of (tcp_config c) = c.server
server_of (udp_config c) = c.server
server_of (http_config c) = c.server_url

module _ {F T : Type 0} (fmt : Format F T) (plain : IsPlainFormat fmt) where
  payload_sizes_html-IsBalanced : (sizes : List ℕ) → IsBalanced (payload_sizes_html fmt sizes)
  unfolding payload_sizes_html read
  payload_sizes_html-IsBalanced sizes =
      IsBalanced-join (codes ", ") (map fmt.format_size sizes) (record { reads = λ o. refl })
        (all_balanced sizes)
    where
      all_balanced : (ns : List ℕ) → All IsBalanced (map fmt.format_size ns)
      all_balanced [] = tt
      all_balanced (n ∷ ns) = (format_size-IsBalanced plain n, all_balanced ns)

  pub config_html-IsBalanced :
      (c : TestConfig) → IsPlain (server_of c) → IsBalanced (config_html fmt c)
  unfolding config_html read
  config_html-IsBalanced (tcp_config c) h = record {
    reads = λ o. read_two _ _ _ _ refl (IsPlain-IsBalanced c.server h) (
        read_two _ _ _ _ refl (print_usize-IsBalanced _) (
          read_two _ _ _ _ refl (print_usize-IsBalanced _) (
            read_two _ _ _ _ refl (print_usize-IsBalanced _) (
              read_two _ _ _ _ refl (test_type_html-IsBalanced _)
                (read_two _ _ _ _ refl (payload_sizes_html-IsBalanced _) (read_last _ _ refl))))));
  }
  config_html-IsBalanced (udp_config c) h = record {
    reads = λ o. read_two _ _ _ _ refl (IsPlain-IsBalanced c.server h) (
        read_two _ _ _ _ refl (print_usize-IsBalanced _) (
          read_two _ _ _ _ refl (print_usize-IsBalanced _) (
            read_two _ _ _ _ refl (print_usize-IsBalanced _) (
              read_two _ _ _ _ refl (test_type_html-IsBalanced _)
                (read_two _ _ _ _ refl (payload_sizes_html-IsBalanced _) (read_last _ _ refl))))));
  }
  config_html-IsBalanced (http_config c) h = record {
    reads = λ o. read_two _ _ _ _ refl (IsPlain-IsBalanced c.server_url h) (
        read_two _ _ _ _ refl (print_usize-IsBalanced _) (
          read_two _ _ _ _ refl (print_usize-IsBalanced _) (
            read_two _ _ _ _ refl (test_type_html-IsBalanced _) (
              read_two _ _ _ _ refl (version_html-IsBalanced _)
                (read_two _ _ _ _ refl (payload_sizes_html-IsBalanced _) (read_last _ _ refl))))));
  }
