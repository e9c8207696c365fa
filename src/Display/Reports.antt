-- ===== src/Display/Reports.antt =====
-- `Display` of network results and of whole reports in src/report.
use Prim.Native.String.{String}
use speed_cli.Base.{ℕ, ◌==◌, true, false, none, some, List, [], ◌∷◌, ◌++◌, if◌then◌else◌, is_empty}
use speed_cli.Base.Text.{Text, codes, format}
use speed_cli.Base.Writing.{Writer, vec, Action, ◌>>◌, done, write}
use speed_cli.Float.{Float}
use speed_cli.Report.Throughput.{ThroughputResult, ErrorType}
use speed_cli.Testing.Runner.{NetworkProtocol, http, tcp, udp}
use speed_cli.Html.{Stamped, NetworkTestResult, TestResult, simple, network, TestReport}
use speed_cli.Display.{
  Print, bold, underline, bright_blue, bright_cyan, bright_green, bright_white, green, yellow,
}
use speed_cli.Display.Configs.{print_config}
use speed_cli.Display.Latency.{print_latency}
use speed_cli.Display.Throughput.{print_throughput}

-- `str::lines`: a line ends with a newline, or a carriage return and a newline; the last one may have
-- none. The first argument is what was read of the line.
abbrev pub strip_return : Text → Text
strip_return [] = []
strip_return (c ∷ []) = if c == b'\r' then [] else c ∷ []
strip_return (c ∷ (d ∷ s)) = c ∷ strip_return (d ∷ s)

unfoldable pub lines_of : Text → Text → List Text
lines_of line [] = if is_empty line then [] else line ∷ []
lines_of line (c ∷ s) = elim (c == b'\n') [
  | true ↦ strip_return line ∷ lines_of [] s
  | false ↦ lines_of (line ++ (c ∷ [])) s
]

module _ {W : Type 0} (out : Writer W) where
  -- The loop over the lines of a result's text.
  unfoldable pub print_lines : List Text → Action W
  print_lines [] = done
  print_lines (line ∷ rest) = write out (codes "    " ∷ line ∷ codes "\n" ∷ []) >> print_lines rest

-- `protocol_prefix`.
unfoldable pub protocol_prefix : NetworkProtocol → Text
protocol_prefix http = codes "HTTP "
protocol_prefix tcp = codes "TCP "
protocol_prefix udp = codes "UDP "

module _ {F T W : Type 0} (f : Float F) (p : Print F T)
    (iter : List (ErrorType × ℕ) → List (ErrorType × ℕ)) (out : Writer W) where
  -- The results of the payload sizes; the loops of both directions are the same. `format!` makes a
  -- string of a result.
  unfoldable pub print_entries : List (ℕ × Stamped T ThroughputResult) → Action W
  unfolding print_lines lines_of
  print_entries [] = done
  print_entries ((size, result) ∷ rest) =
      let result_str = (print_throughput f p vec iter result []).0 in
      write out (
        codes "    "
        ∷ p.paint (bright_blue ∷ []) (codes "Payload Size")
        ∷ codes " ("
        ∷ p.paint (yellow ∷ []) (p.texts.format_size size)
        ∷ codes "):\n"
        ∷ [])
      >> print_lines out (lines_of [] result_str)
      >> print_entries rest

  unfoldable pub heading : NetworkProtocol → String → Action W
  unfolding protocol_prefix
  heading protocol title = write out (
      codes "  "
      ∷ p.paint (bright_green ∷ bold ∷ []) (format (protocol_prefix protocol ∷ codes title ∷ []))
      ∷ codes "\n"
      ∷ [])

  unfoldable pub print_latency_section : NetworkTestResult F T → Action W
  unfolding heading
  print_latency_section r = elim r.latency [
    | none ↦ done
    | some latency ↦
        heading r.protocol "Latency Results:"
        >> print_latency f p out latency
        >> write out (codes "\n" ∷ [])
  ]

  unfoldable pub print_downloads : NetworkTestResult F T → Action W
  unfolding heading print_entries
  print_downloads r =
      if is_empty r.download_results
      then done
      else heading r.protocol "Download Results:" >> print_entries r.download_results

  unfoldable pub print_uploads : NetworkTestResult F T → Action W
  unfolding heading print_entries
  print_uploads r =
      if is_empty r.upload_results
      then done
      else heading r.protocol "Upload Results:" >> print_entries r.upload_results

  unfoldable pub print_network : NetworkTestResult F T → Action W
  unfolding print_latency_section print_downloads print_uploads
  print_network r = print_latency_section r >> print_downloads r >> print_uploads r

  unfoldable pub print_result : TestResult F T → Action W
  unfolding print_network
  print_result (simple result) = print_throughput f p out iter result
  print_result (network result) = print_network result

  -- `writeln!(f, "{}: {}", label, value)` of a `TestReport`.
  abbrev item : String → Text → Action W
  item label value =
      write out
        (p.paint (bright_white ∷ bold ∷ []) (codes label) ∷ codes ": " ∷ value ∷ codes "\n" ∷ [])

  unfoldable pub print_report : TestReport F T → Action W
  unfolding print_result
  print_report r =
      write out (
        p.paint (bright_cyan ∷ bold ∷ []) (codes "═══ Speed CLI Test Report ═══") ∷ codes "\n" ∷ [])
      >> item "Version" (p.paint (green ∷ []) r.version)
      >> item "Start Time" (p.paint (yellow ∷ []) (p.texts.format_time r.start_time))
      >> item "Report Time" (p.paint (yellow ∷ []) (p.texts.format_time r.timestamp))
      >> write out (codes "\n" ∷ [])
      >> write out (
          p.paint (bright_white ∷ bold ∷ underline ∷ []) (codes "Configuration:") ∷ codes "\n" ∷ [])
      >> print_config p out r.config
      >> write out (codes "\n" ∷ [])
      >> write out
          (p.paint (bright_white ∷ bold ∷ underline ∷ []) (codes "Results:") ∷ codes "\n" ∷ [])
      >> print_result r.result
