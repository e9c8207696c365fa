-- ===== src/Html.antt =====
-- src/renderer/mod.rs: the reports as HTML pages, streamed to a writer (`write_html`) or collected in
-- a string (`to_html`). A text is the list of its code points; its UTF-8 encoding is left out. A
-- `write!` is the list of its literal parts and arguments in order, each written by one `write_all`,
-- and a `format!` is their concatenation. The texts of dates, of sizes and of floats, which chrono,
-- humansize and the standard library print, are parameters.
pub mod Configs
pub mod Figures
pub mod Latency
pub mod Network
pub mod Page
pub mod Streams
pub mod Space
pub mod Tags
pub use speed_cli.Base.Text.{Text, codes, lines}
unfoldable pub use speed_cli.Base.Text.{join, format}
pub use speed_cli.Base.Writing.{IoResult, ok, err, Writer, vec, Action, and_then}
unfoldable pub use speed_cli.Base.Writing.{◌>>◌, done, write}
use speed_cli.Base.{ℕ, List, Option}
use speed_cli.Report.Latency.{LatencyResult}
use speed_cli.Report.Throughput.{ThroughputResult}
use speed_cli.Testing.Config.{TestType, download, upload, bidirectional, simultaneous, latency_only}
use speed_cli.Testing.Runner.{NetworkProtocol, TestConfig}

-- What the renderer takes from other code: `{:.2}` on an f64, the format of a `DateTime<Utc>` with
-- "%Y-%m-%d %H:%M:%S UTC", `format_size` with `BINARY` and `format_size_i` with bits per second.
pub record Format (F T : Type 0) : Type 0 where
  pub two_decimals : F → Text
  pub format_time : T → Text
  pub format_size : ℕ → Text
  pub format_size_i : F → Text

-- A result with its `timestamp`, the field that the figures leave out.
pub record Stamped (T A : Type 0) : Type 0 where
  pub figures : A
  pub timestamp : T

pub record NetworkTestResult (F T : Type 0) : Type 0 where
  pub latency : Option (Stamped T (LatencyResult F))
  pub download_results : List (ℕ × Stamped T ThroughputResult)
  pub upload_results : List (ℕ × Stamped T ThroughputResult)
  pub protocol : NetworkProtocol

pub data TestResult (F T : Type 0) : Type 0 where
  simple : Stamped T ThroughputResult → TestResult F T
  network : NetworkTestResult F T → TestResult F T

pub record TestReport (F T : Type 0) : Type 0 where
  pub start_time : T
  pub config : TestConfig
  pub result : TestResult F T
  pub timestamp : T
  pub version : Text

-- `to_html` of a `TestType`, which its `write_html` writes.
unfoldable pub test_type_html : TestType → Text
test_type_html download = codes "download"
test_type_html upload = codes "upload"
test_type_html bidirectional = codes "bidirectional"
test_type_html simultaneous = codes "simultaneous"
test_type_html latency_only = codes "latency-only"
