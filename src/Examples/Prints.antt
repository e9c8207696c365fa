-- ===== src/Examples/Prints.antt =====
-- The printed reports of src/report for a concrete result, without colours.
use speed_cli.Base.{true, ◌≡◌, refl, ℕ, false, true, [], ◌∷◌, ◌++◌, arith, All}
use speed_cli.Base.{length, ◌⊎◌, some, none, List}
use speed_cli.Base.Time.{Duration}
use speed_cli.Report.Latency.{LatencyMeasurement, avg_rtt}
use speed_cli.Testing.Progress.{
  ProgressBarType, Turn, create_progress_bar, progress_loop, latency_message, finish,
}
use speed_cli.Testing.Progress.Averages.{Saw, finish-progress_loop}
use speed_cli.Base.Decimal.{print_usize, print_usize-IsDigit, IsDigit}
use speed_cli.Base.Text.{Text, codes, format}
use speed_cli.Base.Writing.{vec}
use speed_cli.Float.Fixed.{fixed}
use speed_cli.Report.Throughput.{ThroughputResult, success, failure, timeout}
use speed_cli.Html.{Stamped}
use speed_cli.Html.Configs.{as_secs}
use speed_cli.Display.{Print}
use speed_cli.Display.Throughput.{print_throughput}
use speed_cli.Display.Reports.{print_entries, lines_of}
use speed_cli.Display.Indent.{indent, has_return}
use speed_cli.Display.Indent.Prints.{IsClean, IsCleanPrint}
use speed_cli.Display.Indent.Results.{print_entries-indent}

abbrev plain_print : Print ℕ ℕ
plain_print = record {
  texts = record {
    two_decimals = print_usize;
    format_time = print_usize;
    format_size = print_usize;
    format_size_i = print_usize;
  };
  one_decimal = print_usize;
  format_bits = print_usize;
  grouped = print_usize;
  paint = λ styles s. s;
}

has_return-digits : (s : Text) → All IsDigit s → has_return s ≡ false
unfolding has_return
has_return-digits [] h = refl
has_return-digits (c ∷ s) h = ground (arith, h.0, has_return-digits s h.1)

number-IsClean : (n : ℕ) → IsClean (print_usize n)
number-IsClean n = record { clean = has_return-digits (print_usize n) (print_usize-IsDigit n) }

plain_print-IsCleanPrint : IsCleanPrint plain_print
plain_print-IsCleanPrint = record {
  two_decimals-IsClean = number-IsClean;
  one_decimal-IsClean = number-IsClean;
  format_time-IsClean = number-IsClean;
  format_size-IsClean = number-IsClean;
  format_bits-IsClean = number-IsClean;
  grouped-IsClean = number-IsClean;
  paint-IsClean = λ styles s h. h;
}

abbrev result : Stamped ℕ ThroughputResult
result = record {
  figures = record {
    measurements = success 4096 7 ∷ failure (timeout []) 2 1 ∷ [];
    total_duration = 1_000_000_000;
  };
  timestamp = 6;
}

print_entries-indent_example :
    print_entries fixed plain_print (λ d. d) vec ((1024, result) ∷ []) (codes "x\n")
    ≡ print_entries fixed plain_print
        (λ d. d)
        vec
        []
        (codes "x\n"
          ++ (format (
                codes "    "
                ∷ codes "Payload Size"
                ∷ codes " ("
                ∷ print_usize 1024
                ∷ codes "):\n"
                ∷ [])
              ++ indent true (print_throughput fixed plain_print vec (λ d. d) result []).0))
print_entries-indent_example =
    print_entries-indent fixed plain_print plain_print-IsCleanPrint (λ d. d) 1024 result []
      (codes "x\n")

returns_stripped : lines_of [] (codes "a\r\nb\n\nc") ≡ codes "a" ∷ codes "b" ∷ [] ∷ codes "c" ∷ []
unfolding lines_of
returns_stripped = refl

abbrev probe : LatencyMeasurement ℕ
probe = record { rtt_ms = some 3000; elapsed_time = 1 }

abbrev turns : List (Turn (LatencyMeasurement ℕ))
turns =
    (record {
      elapsed = 100_000_000;
      elapsed_position = 100_000_000;
      elapsed_rate = 100_000_000;
      locked = some (probe ∷ []);
    })
    ∷ (record {
      elapsed = 200_000_000;
      elapsed_position = 200_000_000;
      elapsed_rate = 200_000_000;
      locked = none;
    })
    ∷ []

abbrev ended : List (LatencyMeasurement ℕ)
ended = probe ∷ probe ∷ []

finish-progress_loop_example :
    let start = create_progress_bar ProgressBarType.latency 5_000_000_000 in
    let end = progress_loop (latency_message fixed plain_print) 5_000_000_000 start turns in
    let (bar, given) = finish end ended (codes "over") in
    (end.position ≡ end.bar_length)
    × ((end.message ≡ start.message)
        ⊎ ((elapsed : Duration) × (ms : List (LatencyMeasurement ℕ)) × Saw elapsed ms turns
            × (avg : ℕ) × (avg_rtt fixed (record { measurements = ms }) ≡ some avg)
            × (end.message
                ≡ format (
                    codes "Avg latency: "
                    ∷ print_usize avg
                    ∷ codes "ms | Conn/s: "
                    ∷ print_usize (fixed.div (fixed.of_u64 (length ms)) (fixed.as_secs elapsed))
                    ∷ codes " | Connections: "
                    ∷ print_usize (length ms)
                    ∷ []))))
    × (bar.message ≡ codes "over")
    × (bar.position ≡ as_secs 5_000_000_000)
    × (bar.bar_length ≡ as_secs 5_000_000_000)
    × (given ≡ ended)
finish-progress_loop_example =
    finish-progress_loop fixed plain_print ProgressBarType.latency 5_000_000_000 turns ended
      (codes "over")
