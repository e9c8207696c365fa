-- ===== src/Html/Streams/Configs.antt =====
-- `write_html` of the configurations in src/renderer/mod.rs.
use speed_cli.Base.{◌≡◌, ◌++◌}
use speed_cli.Testing.Runner.{TestConfig, tcp_config, udp_config, http_config}
use speed_cli.Html.{Text, ok, Format, Writer, vec}
use speed_cli.Html.Configs.{config_html}
use speed_cli.Html.Configs.Streamed.{write_config}
use speed_cli.Html.Space.{Alike-refl}
use speed_cli.Html.Streams.{IsWriter, Streams, Streams-write, write-vec}

module _ {F T : Type 0} (fmt : Format F T) where
  -- `write_html` of a configuration, whatever its protocol, appends to a buffer exactly the text that
  -- `to_html` gives, and never fails there.
  pub write_config-vec :
      (c : TestConfig) (v : Text) → write_config fmt vec c v ≡ (v ++ config_html fmt c, ok)
  unfolding write_config config_html
  write_config-vec (tcp_config c) v = write-vec _ v
  write_config-vec (udp_config c) v = write-vec _ v
  write_config-vec (http_config c) v = write-vec _ v

module _ {F T W : Type 0} (fmt : Format F T) {out : Writer W} {Fails : Text → Type 0}
    (law : IsWriter out Fails) where
  pub Streams-config :
      (c : TestConfig)
      → Streams law (write_config fmt out c) (write_config fmt vec c) (config_html fmt c)
  unfolding write_config config_html
  Streams-config (tcp_config c) = Streams-write law _ (Alike-refl _)
  Streams-config (udp_config c) = Streams-write law _ (Alike-refl _)
  Streams-config (http_config c) = Streams-write law _ (Alike-refl _)
