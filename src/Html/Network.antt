-- ===== src/Html/Network.antt =====
-- The result of a network test in src/renderer/mod.rs.
use speed_cli.Base.{ℕ, none, some, List, [], ◌∷◌, ◌++◌, if◌then◌else◌, is_empty}
use speed_cli.Float.{Float}
use speed_cli.Report.Throughput.{ThroughputResult}
use speed_cli.Testing.Runner.{NetworkProtocol, http, tcp, udp}
use speed_cli.Html.{
  Text, codes, lines, format, Format, Stamped, NetworkTestResult, Writer, Action, ◌>>◌, done, write,
}
use speed_cli.Html.Figures.{throughput_html, write_throughput}
use speed_cli.Html.Latency.{latency_html}
use speed_cli.Html.Latency.Streamed.{write_latency}

-- `protocol_prefix`.
unfoldable pub prefix : NetworkProtocol → Text
prefix http = []
prefix tcp = codes "TCP "
prefix udp = codes "UDP "

module _ {F T : Type 0} (f : Float F) (fmt : Format F T) where
  -- The results of the payload sizes, which `to_html` joins; they are the same for both directions.
  unfoldable pub entries_html : List (ℕ × Stamped T ThroughputResult) → Text
  entries_html [] = []
  entries_html ((size, result) ∷ rest) =
      format (
        lines (
          "<div>"
          ∷ "                            <h4 style=\"color: #007acc; margin-bottom: 10px;\">Payload Size: "
          ∷ [])
        ∷ fmt.format_size size
        ∷ lines ("</h4>" ∷ "                            <div style=\"margin-left: 20px;\">" ∷ [])
        ∷ throughput_html f fmt result
        ∷ lines ("</div>" ∷ "                        </div>" ∷ [])
        ∷ [])
      ++ entries_html rest

  -- What `to_html` pushes for the latency, for the downloads and for the uploads.
  unfoldable pub latency_section_html : NetworkTestResult F T → Text
  unfolding prefix latency_html
  latency_section_html r = elim r.latency [
    | none ↦ []
    | some latency ↦ format (
        lines (
          "<div class=\"result-section\" style=\"margin-bottom: 30px;\">"
          ∷ "                    <h3 style=\"color: #28a745; border-bottom: 2px solid #e9ecef; padding-bottom: 10px;\">"
          ∷ [])
        ∷ prefix r.protocol
        ∷ lines ("Latency Results</h3>" ∷ "                    " ∷ [])
        ∷ latency_html f fmt latency
        ∷ lines ("" ∷ "                </div>" ∷ [])
        ∷ [])
  ]

  unfoldable pub download_section_html : NetworkTestResult F T → Text
  unfolding prefix entries_html
  download_section_html r =
      if is_empty r.download_results
      then []
      else format (
          lines (
            "<div class=\"result-section\" style=\"margin-bottom: 30px;\">"
            ∷ "                    <h3 style=\"color: #28a745; border-bottom: 2px solid #e9ecef; padding-bottom: 10px;\">"
            ∷ [])
          ∷ prefix r.protocol
          ∷ lines (
              "Download Results</h3>"
              ∷ "                    <div style=\"display: grid; gap: 20px;\">" ∷ [])
          ∷ entries_html r.download_results
          ∷ lines ("</div>" ∷ "                </div>" ∷ [])
          ∷ [])

  unfoldable pub upload_section_html : NetworkTestResult F T → Text
  unfolding prefix entries_html
  upload_section_html r =
      if is_empty r.upload_results
      then []
      else format (
          lines (
            "<div class=\"result-section\" style=\"margin-bottom: 30px;\">"
            ∷ "                    <h3 style=\"color: #28a745; border-bottom: 2px solid #e9ecef; padding-bottom: 10px;\">"
            ∷ [])
          ∷ prefix r.protocol
          ∷ lines (
              "Upload Results</h3>"
              ∷ "                    <div style=\"display: grid; gap: 20px;\">" ∷ [])
          ∷ entries_html r.upload_results
          ∷ lines ("</div>" ∷ "                </div>" ∷ [])
          ∷ [])

  unfoldable pub network_html : NetworkTestResult F T → Text
  unfolding latency_section_html download_section_html upload_section_html
  network_html r = latency_section_html r ++ (download_section_html r ++ upload_section_html r)

module _ {F T W : Type 0} (f : Float F) (fmt : Format F T) (out : Writer W) where
  -- The loop over the payload sizes, the same for both directions.
  unfoldable pub write_entries : List (ℕ × Stamped T ThroughputResult) → Action W
  write_entries [] = done
  write_entries ((size, result) ∷ rest) =
      write out (
        lines (
          "<div>"
          ∷ "                        <h4 style=\"color: #007acc; margin-bottom: 10px;\">Payload Size: "
          ∷ [])
        ∷ fmt.format_size size
        ∷ lines ("</h4>" ∷ "                        <div style=\"margin-left: 20px;\">" ∷ [])
        ∷ [])
      >> write_throughput f fmt out result
      >> write out (codes "</div></div>" ∷ [])
      >> write_entries rest

  -- What `write_html` writes for the latency, for the downloads and for the uploads.
  unfoldable pub write_latency_section : NetworkTestResult F T → Action W
  unfolding prefix write_latency
  write_latency_section r = elim r.latency [
    | none ↦ done
    | some latency ↦
        write out (
          lines (
            "<div class=\"result-section\" style=\"margin-bottom: 30px;\">"
            ∷ "                    <h3 style=\"color: #28a745; border-bottom: 2px solid #e9ecef; padding-bottom: 10px;\">"
            ∷ [])
          ∷ prefix r.protocol
          ∷ lines ("Latency Results</h3>" ∷ "                    " ∷ [])
          ∷ [])
        >> write_latency f fmt out latency
        >> write out (codes "</div>" ∷ [])
  ]

  unfoldable pub write_download_section : NetworkTestResult F T → Action W
  unfolding prefix write_entries
  write_download_section r =
      if is_empty r.download_results
      then done
      else write out (
          lines (
            "<div class=\"result-section\" style=\"margin-bottom: 30px;\">"
            ∷ "                    <h3 style=\"color: #28a745; border-bottom: 2px solid #e9ecef; padding-bottom: 10px;\">"
            ∷ [])
          ∷ prefix r.protocol
          ∷ lines (
              "Download Results</h3>"
              ∷ "                    <div style=\"display: grid; gap: 20px;\">" ∷ [])
          ∷ [])
        >> write_entries r.download_results
        >> write out (codes "</div></div>" ∷ [])

  unfoldable pub write_upload_section : NetworkTestResult F T → Action W
  unfolding prefix write_entries
  write_upload_section r =
      if is_empty r.upload_results
      then done
      else write out (
          lines (
            "<div class=\"result-section\" style=\"margin-bottom: 30px;\">"
            ∷ "                    <h3 style=\"color: #28a745; border-bottom: 2px solid #e9ecef; padding-bottom: 10px;\">"
            ∷ [])
          ∷ prefix r.protocol
          ∷ lines (
              "Upload Results</h3>"
              ∷ "                    <div style=\"display: grid; gap: 20px;\">" ∷ [])
          ∷ [])
        >> write_entries r.upload_results
        >> write out (codes "</div></div>" ∷ [])

  unfoldable pub write_network : NetworkTestResult F T → Action W
  unfolding write_latency_section write_download_section write_upload_section
  write_network r = write_latency_section r >> write_download_section r >> write_upload_section r
