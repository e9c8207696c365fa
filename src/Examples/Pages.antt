-- ===== src/Examples/Pages.antt =====
-- The pages of src/renderer/mod.rs for concrete reports, and a file of limited size.
use speed_cli.Base.{
  none, ◌≡◌, ◌⊎◌, ◌-◌, refl, ℕ, leb, if◌then◌else◌, some, [], ◌∷◌, ◌++◌, length, take, drop,
  take-append-drop, arith, Bool, true, false,
}
use speed_cli.Base.Decimal.{print_usize}
use speed_cli.Float.Fixed.{fixed}
use speed_cli.Testing.Config.{TcpTestConfig, bidirectional}
use speed_cli.Testing.Runner.{tcp_config, tcp}
use speed_cli.Report.Throughput.{success, failure, timeout}
use speed_cli.Html.{
  Text, codes, Format, Stamped, TestReport, network, Writer, ok, err, vec, done, ◌>>◌, format, join,
  test_type_html,
}
use speed_cli.Html.Configs.{config_html, tcp_html, payload_sizes_html}
use speed_cli.Html.Configs.Streamed.{write_config}
use speed_cli.Html.Page.{report_html, write_report, export_report_html}
use speed_cli.Report.Latency.{LatencyResult}
use speed_cli.Html.Space.{tidy}
use speed_cli.Html.Streams.{Appended, IsWriter}
use speed_cli.Html.Streams.Configs.{write_config-vec}
use speed_cli.Html.Streams.Reports.{write_report_lem, write_report-report_html}
use speed_cli.Html.Tags.{IsPlainFormat, print_usize-IsPlain, read, outside}
use speed_cli.Html.Tags.Pages.{write_report-IsBalanced}

-- Every number is printed in decimal, whatever it stands for.
abbrev plain_format : Format ℕ ℕ
plain_format = record {
  two_decimals = print_usize;
  format_time = print_usize;
  format_size = print_usize;
  format_size_i = print_usize;
}

plain_format-IsPlainFormat : IsPlainFormat plain_format
plain_format-IsPlainFormat = record {
  two_decimals-IsPlain = print_usize-IsPlain;
  format_time-IsPlain = print_usize-IsPlain;
  format_size-IsPlain = print_usize-IsPlain;
  format_size_i-IsPlain = print_usize-IsPlain;
}

abbrev tcp_test : TcpTestConfig
tcp_test = record {
  server = codes "::1";
  port = 5201;
  duration = 10_000_000_000;
  parallel_connections = 4;
  test_type = bidirectional;
  payload_sizes = 1024 ∷ 8192 ∷ [];
}

abbrev report : TestReport ℕ ℕ
report = record {
  start_time = 1;
  config = tcp_config tcp_test;
  result = network (record {
    latency = some (record {
      figures = record { measurements = (record { rtt_ms = some 3; elapsed_time = 1 }) ∷ [] };
      timestamp = 5;
    });
    download_results =
        (
          1024,
          record {
            figures = record {
              measurements = success 4096 7 ∷ failure (timeout []) 2 1 ∷ [];
              total_duration = 1_000_000_000;
            };
            timestamp = 6;
          },
        )
        ∷ [];
    upload_results = [];
    protocol = tcp;
  });
  timestamp = 9;
  version = codes "0.1.0";
}

write_config-vec_example :
    write_config plain_format vec (tcp_config tcp_test) (codes "<p>")
    ≡ (codes "<p>" ++ config_html plain_format (tcp_config tcp_test), ok)
write_config-vec_example = write_config-vec plain_format (tcp_config tcp_test) (codes "<p>")

write_report-report_html_example :
    (page : Text) × (tidy false page ≡ tidy false (report_html fixed plain_format report))
    × ((v : Text) → write_report fixed plain_format vec report v ≡ (v ++ page, ok))
    × ((w : Text)
        → export_report_html fixed plain_format vec done report w ≡ (vec.write_all page >> done) w)
write_report-report_html_example = write_report-report_html fixed plain_format vec done report

-- A file on a disk that has room for some more characters: `write_all` writes those that fit.
abbrev full : Text
full = codes "No space left on device"

abbrev disk : Writer (ℕ × Text)
disk = record {
  write_all = λ s w.
      if leb (length s) w.0
      then ((w.0 - length s, w.1 ++ s), ok)
      else ((0, w.1 ++ take w.0 s), err full);
}

disk_appends :
    (fits : Bool) (n : ℕ) (s t : Text)
    → Appended {W = ℕ × Text}
        (λ w. w.1)
        (λ message. message ≡ full)
        (n, t)
        s
        (if fits then ((n - length s, t ++ s), ok) else ((0, t ++ take n s), err full))
disk_appends true n s t = refl
disk_appends false n s t = (refl, take n s, drop n s, take-append-drop n s, refl)

abbrev disk_law : IsWriter disk (λ message. message ≡ full)
disk_law = record {
  written = λ w. w.1;
  write_all-Appended = λ s w. disk_appends (leb (length s) w.0) w.0 s w.1;
}

write_report_lem_example :
    let page = (write_report fixed plain_format vec report []).0 in
    let (w, outcome) = write_report fixed plain_format disk report (1000, []) in
    (outcome ≡ ok) × (w.1 ≡ page)
    ⊎ ((message : Text) × (outcome ≡ err message)
        × (message ≡ full)
        × (part : Text) × (rest : Text) × (part ++ rest ≡ page)
        × (w.1 ≡ part))
write_report_lem_example = write_report_lem fixed plain_format disk_law report (1000, [])

write_report-IsBalanced_example :
    (read (outside, []) (report_html fixed plain_format report) ≡ some (outside, []))
    × (read (outside, []) (write_report fixed plain_format vec report []).0 ≡ some (outside, []))
write_report-IsBalanced_example =
    write_report-IsBalanced fixed plain_format plain_format-IsPlainFormat report
      (omega arith, (omega arith, (omega arith, (omega arith, (omega arith, tt)))))
      (omega arith, (omega arith, (omega arith, tt)))

-- The name of a server is not escaped: an element in it stays open.
unescaped :
    read
      (outside, [])
      (config_html plain_format (tcp_config (record tcp_test { server = codes "<script>" })))
    ≡ none
unfolding config_html tcp_html payload_sizes_html test_type_html join format read
unescaped = refl

abbrev figures : LatencyResult ℕ
figures = record {
  measurements =
      (record { rtt_ms = none; elapsed_time = 1 })
      ∷ (record { rtt_ms = some 3; elapsed_time = 2 })
      ∷ [];
}

abbrev stamped_figures : Stamped ℕ (LatencyResult ℕ)
stamped_figures = record { figures = figures; timestamp = 5 }
