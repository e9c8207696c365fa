-- ===== src/Display/Indent/Results.antt =====
-- How src/report/result/network.rs prints the result of a payload size.
use Prim.Native.String.{String}
use speed_cli.Base.{
  ◌≡◌, refl, ap, ◌∙◌, ℕ, true, false, List, [], ◌∷◌, ◌++◌, append_assoc, ltb, is_empty,
}
use speed_cli.Base.Text.{Text, codes, format}
use speed_cli.Base.Writing.{vec}
use speed_cli.Float.{Float}
use speed_cli.Report.Throughput.{
  ThroughputResult, ErrorType, connection_failures, transfer_failures, timeouts, unknowns,
  retry_statistics, error_distribution,
}
use speed_cli.Html.{Stamped}
use speed_cli.Html.Streams.{write-vec}
use speed_cli.Display.{Print, Style, row, bold, bright_green, bright_blue, yellow}
use speed_cli.Display.Throughput.{
  error_name, print_retries, print_error_types, print_errors, print_throughput,
}
use speed_cli.Display.Reports.{print_entries}
use speed_cli.Display.Indent.Prints.{
  IsClean, IsCleanPrint, literal, IsClean-format, starts_after, then_vec, Prints, Prints-done,
  Prints-then, Prints-write, Prints-if,
}
use speed_cli.Display.Indent.{indent, at_start, has_return, print_lines-indent}

error_name-IsClean : (t : ErrorType) → IsClean (error_name t)
unfolding error_name has_return
error_name-IsClean connection_failures = record { clean = refl }
error_name-IsClean transfer_failures = record { clean = refl }
error_name-IsClean timeouts = record { clean = refl }
error_name-IsClean unknowns = record { clean = refl }

module _ {F T : Type 0} (f : Float F) (p : Print F T) (plain : IsCleanPrint p) where
  row-Prints :
      (i : Text) (styles : List Style) (l value : Text)
      → IsClean i
      → IsClean l
      → IsClean value
      → Prints (row p vec i styles l value)
  unfolding row starts_after at_start has_return
  row-Prints i styles l value h k m = Prints-write _ refl (
    h,
    (plain.paint-IsClean styles l k, (record { clean = refl }, (m, (record { clean = refl }, tt)))),
  )

  painted : (styles : List Style) {s : Text} → IsClean s → IsClean (p.paint styles s)
  painted styles {s} h = plain.paint-IsClean styles s h

  print_retries-Prints : (r : ThroughputResult) → Prints (print_retries f p vec r)
  unfolding print_retries starts_after at_start has_return
  print_retries-Prints r =
      let s = retry_statistics r in
      Prints-if (ltb 0 s.total_retries)
        (Prints-then
          (Prints-write _ refl (
            literal _ refl,
            (
              painted _ (literal _ refl),
              (
                literal _ refl,
                (
                  painted _ (plain.grouped-IsClean _),
                  (
                    literal _ refl,
                    (
                      painted _ (plain.grouped-IsClean _),
                      (literal _ refl, (painted _ (plain.grouped-IsClean _), (literal _ refl, tt))),
                    ),
                  ),
                ),
              ),
            ),
          ))
          (Prints-write _ refl (
            literal _ refl,
            (
              painted _ (literal _ refl),
              (literal _ refl, (plain.one_decimal-IsClean _, (literal _ refl, tt))),
            ),
          )))
        Prints-done

  print_error_types-Prints : (d : List (ErrorType × ℕ)) → Prints (print_error_types f p vec d)
  unfolding print_error_types has_return
  print_error_types-Prints [] = Prints-done
  print_error_types-Prints ((t, n) ∷ d) =
      Prints-then
        (row-Prints _ _ _ _ (literal _ refl) (error_name-IsClean t)
          (painted _ (plain.grouped-IsClean n)))
        (print_error_types-Prints d)

  module _ (iter : List (ErrorType × ℕ) → List (ErrorType × ℕ)) where
    print_errors-Prints : (r : ThroughputResult) → Prints (print_errors f p vec iter r)
    unfolding print_errors starts_after at_start has_return
    print_errors-Prints r = Prints-if (is_empty (iter (error_distribution r))) Prints-done (
        Prints-then
          (Prints-write _ refl (
            literal _ refl,
            (
              painted _ (literal _ refl),
              (literal _ refl, (painted _ (plain.grouped-IsClean _), (literal _ refl, tt))),
            ),
          ))
          (print_error_types-Prints (iter (error_distribution r))))

    result_row-Prints :
        (label : String) {value : Text}
        → has_return (codes label) ≡ false
        → IsClean value
        → Prints (row p vec (codes "  ") (bright_green ∷ bold ∷ []) (codes label) value)
    unfolding has_return
    result_row-Prints label {value} h k =
        row-Prints (codes "  ") _ (codes label) value (literal _ refl) (literal _ h) k

    percent-IsClean : (rate : F) → IsClean (format (p.one_decimal rate ∷ codes "%" ∷ []))
    unfolding has_return
    percent-IsClean rate = IsClean-format _ (plain.one_decimal-IsClean rate, (literal _ refl, tt))

    seconds-IsClean : (x : F) → IsClean (format (p.texts.two_decimals x ∷ codes "s" ∷ []))
    unfolding has_return
    seconds-IsClean x = IsClean-format _ (plain.two_decimals-IsClean x, (literal _ refl, tt))

    print_throughput-Prints :
        (r : Stamped T ThroughputResult) → Prints (print_throughput f p vec iter r)
    unfolding print_throughput has_return
    print_throughput-Prints r =
        Prints-then
          (result_row-Prints "Data Transferred" refl (painted _ (plain.format_size-IsClean _)))
          (Prints-then (result_row-Prints "Duration" refl (painted _ (seconds-IsClean _))) (
            Prints-then
              (result_row-Prints "Average Throughput" refl
                (painted _ (plain.format_bits-IsClean _)))
              (Prints-then
                (result_row-Prints "Connection Success Rate" refl (painted _ (percent-IsClean _)))
                (Prints-then
                  (result_row-Prints "Request Success Rate" refl (painted _ (percent-IsClean _)))
                  (Prints-then (print_retries-Prints r.figures) (
                    Prints-then (print_errors-Prints r.figures) (
                      Prints-then
                        (result_row-Prints "Measurements" refl
                          (painted _ (plain.grouped-IsClean _)))
                        (result_row-Prints "Timestamp" refl
                          (painted _ (plain.format_time-IsClean _))))))))))

    -- What is printed for a payload size is a heading and then the text of its result with four blanks
    -- at the start of each line, if the texts of numbers and dates have no carriage return.
    pub print_entries-indent :
        (size : ℕ) (r : Stamped T ThroughputResult) (rest : List (ℕ × Stamped T ThroughputResult))
        (v : Text)
        → print_entries f p iter vec ((size, r) ∷ rest) v
          ≡ print_entries f p iter vec rest (
              v
              ++ (format (
                    codes "    "
                    ∷ p.paint (bright_blue ∷ []) (codes "Payload Size")
                    ∷ codes " ("
                    ∷ p.paint (yellow ∷ []) (p.texts.format_size size)
                    ∷ codes "):\n"
                    ∷ [])
                  ++ indent true (print_throughput f p vec iter r []).0))
    unfolding print_entries
    print_entries-indent size r rest v =
        let x = print_throughput-Prints r in
        let result_str = (print_throughput f p vec iter r []).0 in
        then_vec _ _ v _ (write-vec _ v)
        ∙ then_vec _ _ _ _ (
            print_lines-indent result_str (v ++ format _)
              (ap (λ y. at_start true y.0) (x.to_buffer []) ∙ x.whole)
              (ap (λ y. has_return y.0) (x.to_buffer []) ∙ x.no_return.clean))
        ∙ ap (print_entries f p iter vec rest) (append_assoc v (format _) (indent true result_str))
