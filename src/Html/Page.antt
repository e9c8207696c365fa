-- ===== src/Html/Page.antt =====
-- The results and the whole report in src/renderer/mod.rs, and its export.
use speed_cli.Base.{[], ◌∷◌}
use speed_cli.Float.{Float}
use speed_cli.Html.{
  Text, lines, format, Format, IoResult, ok, err, TestResult, simple, network, TestReport, Writer,
  vec, Action, ◌>>◌, write,
}
use speed_cli.Html.Configs.{config_html}
use speed_cli.Html.Configs.Streamed.{write_config}
use speed_cli.Html.Figures.{throughput_html, write_throughput}
use speed_cli.Html.Network.{network_html, write_network}

-- The start of a page, up to the end of the styles: the literals of `write_html` and of `to_html`
-- both begin with it.
unfoldable pub page_style : Text
page_style = lines (
    "<!DOCTYPE html>" ∷ "<html lang=\"en\">" ∷ "<head>" ∷ "    <meta charset=\"UTF-8\">"
    ∷ "    <meta name=\"viewport\" content=\"width=device-width, initial-scale=1.0\">"
    ∷ "    <title>Speed CLI Test Report</title>" ∷ "    <style>" ∷ "        body {"
    ∷ "            font-family: -apple-system, BlinkMacSystemFont, 'Segoe UI', Roboto, sans-serif;"
    ∷ "            line-height: 1.6;" ∷ "            margin: 0;" ∷ "            padding: 20px;"
    ∷ "            background-color: #f5f5f5;" ∷ "        }" ∷ "        .container {"
    ∷ "            max-width: 1200px;" ∷ "            margin: 0 auto;"
    ∷ "            background-color: white;" ∷ "            border-radius: 8px;"
    ∷ "            box-shadow: 0 2px 10px rgba(0,0,0,0.1);" ∷ "            padding: 30px;"
    ∷ "        }" ∷ "        .header {" ∷ "            text-align: center;"
    ∷ "            border-bottom: 3px solid #007acc;" ∷ "            padding-bottom: 20px;"
    ∷ "            margin-bottom: 30px;" ∷ "        }" ∷ "        .header h1 {"
    ∷ "            color: #007acc;" ∷ "            margin: 0;" ∷ "            font-size: 2.5em;"
    ∷ "        }" ∷ "        .meta-info {" ∷ "            display: grid;"
    ∷ "            grid-template-columns: repeat(auto-fit, minmax(250px, 1fr));"
    ∷ "            gap: 15px;" ∷ "            margin-bottom: 30px;" ∷ "            padding: 20px;"
    ∷ "            background-color: #f8f9fa;" ∷ "            border-radius: 6px;" ∷ "        }"
    ∷ "        .meta-item {" ∷ "            display: flex;"
    ∷ "            justify-content: space-between;" ∷ "        }" ∷ "        .meta-label {"
    ∷ "            font-weight: 600;" ∷ "            color: #495057;" ∷ "        }"
    ∷ "        .meta-value {" ∷ "            color: #007acc;" ∷ "            font-weight: 500;"
    ∷ "        }" ∷ "        .section {" ∷ "            margin-bottom: 30px;" ∷ "        }"
    ∷ "        .section-title {" ∷ "            color: #495057;"
    ∷ "            border-bottom: 2px solid #e9ecef;" ∷ "            padding-bottom: 10px;"
    ∷ "            margin-bottom: 20px;" ∷ "            font-size: 1.5em;"
    ∷ "            font-weight: 600;" ∷ "        }" ∷ "        .config-grid {"
    ∷ "            display: grid;"
    ∷ "            grid-template-columns: repeat(auto-fit, minmax(300px, 1fr));"
    ∷ "            gap: 20px;" ∷ "        }" ∷ "        .config-card {"
    ∷ "            background-color: #f8f9fa;" ∷ "            padding: 20px;"
    ∷ "            border-radius: 6px;" ∷ "            border-left: 4px solid #007acc;"
    ∷ "        }" ∷ "    </style>" ∷ "" ∷ [])

module _ {F T : Type 0} (f : Float F) (fmt : Format F T) where
  unfoldable pub result_html : TestResult F T → Text
  result_html (simple result) = throughput_html f fmt result
  result_html (network result) = network_html f fmt result

  unfoldable pub report_html : TestReport F T → Text
  unfolding page_style result_html
  report_html r = format (
      page_style
      ∷ lines (
          "</head>" ∷ "<body>" ∷ "    <div class=\"container\">" ∷ "        <div class=\"header\">"
          ∷ "            <h1>═══ Speed CLI Test Report ═══</h1>" ∷ "        </div>" ∷ "        "
          ∷ "        <div class=\"meta-info\">" ∷ "            <div class=\"meta-item\">"
          ∷ "                <span class=\"meta-label\">Version:</span>"
          ∷ "                <span class=\"meta-value\">" ∷ [])
      ∷ r.version
      ∷ lines (
          "</span>" ∷ "            </div>" ∷ "            <div class=\"meta-item\">"
          ∷ "                <span class=\"meta-label\">Start Time:</span>"
          ∷ "                <span class=\"meta-value\">" ∷ [])
      ∷ fmt.format_time r.start_time
      ∷ lines (
          "</span>" ∷ "            </div>" ∷ "            <div class=\"meta-item\">"
          ∷ "                <span class=\"meta-label\">Report Time:</span>"
          ∷ "                <span class=\"meta-value\">" ∷ [])
      ∷ fmt.format_time r.timestamp
      ∷ lines (
          "</span>" ∷ "            </div>" ∷ "        </div>" ∷ ""
          ∷ "        <div class=\"section\">"
          ∷ "            <h2 class=\"section-title\">Configuration</h2>"
          ∷ "            <div class=\"config-grid\">"
          ∷ "                <div class=\"config-card\">" ∷ "                    " ∷ [])
      ∷ config_html fmt r.config
      ∷ lines (
          "" ∷ "                </div>" ∷ "            </div>" ∷ "        </div>" ∷ ""
          ∷ "        <div class=\"section\">"
          ∷ "            <h2 class=\"section-title\">Results</h2>" ∷ "            " ∷ [])
      ∷ result_html r.result
      ∷ lines ("" ∷ "        </div>" ∷ "    </div>" ∷ "</body>" ∷ "</html>" ∷ [])
      ∷ [])

module _ {F T W : Type 0} (f : Float F) (fmt : Format F T) (out : Writer W) where
  unfoldable pub write_result : TestResult F T → Action W
  write_result (simple result) = write_throughput f fmt out result
  write_result (network result) = write_network f fmt out result

  unfoldable pub write_report : TestReport F T → Action W
  unfolding page_style write_result
  write_report r =
      write out (
        page_style
        ∷ lines (
            "</head>" ∷ "<body>" ∷ "    <div class=\"container\">"
            ∷ "        <div class=\"header\">"
            ∷ "            <h1>═══ Speed CLI Test Report ═══</h1>" ∷ "        </div>" ∷ "        "
            ∷ "        <div class=\"meta-info\">" ∷ "            <div class=\"meta-item\">"
            ∷ "                <span class=\"meta-label\">Version:</span>"
            ∷ "                <span class=\"meta-value\">" ∷ [])
        ∷ r.version
        ∷ lines (
            "</span>" ∷ "            </div>" ∷ "            <div class=\"meta-item\">"
            ∷ "                <span class=\"meta-label\">Start Time:</span>"
            ∷ "                <span class=\"meta-value\">" ∷ [])
        ∷ fmt.format_time r.start_time
        ∷ lines (
            "</span>" ∷ "            </div>" ∷ "            <div class=\"meta-item\">"
            ∷ "                <span class=\"meta-label\">Report Time:</span>"
            ∷ "                <span class=\"meta-value\">" ∷ [])
        ∷ fmt.format_time r.timestamp
        ∷ lines (
            "</span>" ∷ "            </div>" ∷ "        </div>" ∷ ""
            ∷ "        <div class=\"section\">"
            ∷ "            <h2 class=\"section-title\">Configuration</h2>"
            ∷ "            <div class=\"config-grid\">"
            ∷ "                <div class=\"config-card\">" ∷ "                    " ∷ [])
        ∷ [])
      >> write_config fmt out r.config
      >> write out (
          lines (
            "" ∷ "                </div>" ∷ "            </div>" ∷ "        </div>" ∷ ""
            ∷ "        <div class=\"section\">"
            ∷ "            <h2 class=\"section-title\">Results</h2>" ∷ "            " ∷ [])
          ∷ [])
      >> write_result r.result
      >> write out (lines ("" ∷ "        </div>" ∷ "    </div>" ∷ "</body>" ∷ "</html>" ∷ []) ∷ [])

module _ {F T W : Type 0} (f : Float F) (fmt : Format F T) (file : Writer W)
    (flush : Action W) where
  abbrev pub write_buffer : Text × IoResult → Action W
  write_buffer (buffer, ok) w = (file.write_all buffer >> flush) w
  write_buffer (buffer, err message) w = (w, err message)

  -- `export_report_html` of src/utils/export.rs once the file is created: the page is written to a
  -- buffer, the buffer to the file.
  unfoldable pub export_report_html : TestReport F T → Action W
  unfolding write_report
  export_report_html r w = write_buffer (write_report f fmt vec r []) w
