-- ===== src/Html/Tags/Results.antt =====
-- The tags of the results in src/renderer/mod.rs.
use speed_cli.Base.{
  ℕ, ◌≡◌, refl, Option-cases, inl, inr, Bool, true, false, Option, none, some, if◌then◌else◌, ltb,
  List, [], ◌∷◌, ◌++◌, is_empty,
}
use speed_cli.Float.{Float}
use speed_cli.Report.Latency.{LatencyResult, successful_count}
use speed_cli.Report.Throughput.{ThroughputResult}
use speed_cli.Testing.Runner.{NetworkProtocol, http, tcp, udp}
use speed_cli.Html.{
  Text, codes, format, Format, Stamped, NetworkTestResult, TestResult, simple, network,
}
use speed_cli.Html.Figures.{throughput_html}
use speed_cli.Html.Latency.{push_some, statistics_html, latency_html}
use speed_cli.Html.Network.{
  prefix, entries_html, latency_section_html, download_section_html, upload_section_html,
  network_html,
}
use speed_cli.Html.Page.{result_html}
use speed_cli.Html.Tags.{
  outside, read, read_then, read_two, read_last, IsBalanced, IsBalanced-nil, IsBalanced-append,
  print_usize-IsBalanced, IsPlainFormat, format_size-IsBalanced, format_size_i-IsBalanced,
  two_decimals-IsBalanced, format_time-IsBalanced,
}

push_some-IsBalanced :
    {F : Type 0} (x : Option F) (pieces : F → List Text)
    → ((a : F) → IsBalanced (format (pieces a)))
    → IsBalanced (push_some x pieces)
unfolding push_some
push_some-IsBalanced none pieces h = IsBalanced-nil
push_some-IsBalanced (some a) pieces h = h a

guarded-IsBalanced : (b : Bool) {s : Text} → IsBalanced s → IsBalanced (if b then s else [])
guarded-IsBalanced true h = h
guarded-IsBalanced false h = IsBalanced-nil

unless-IsBalanced : (b : Bool) {s : Text} → IsBalanced s → IsBalanced (if b then [] else s)
unless-IsBalanced true h = IsBalanced-nil
unless-IsBalanced false h = h

prefix-IsBalanced : (p : NetworkProtocol) → IsBalanced (prefix p)
unfolding prefix read
prefix-IsBalanced http = IsBalanced-nil
prefix-IsBalanced tcp = record { reads = λ o. refl }
prefix-IsBalanced udp = record { reads = λ o. refl }

-- A `div` that is opened and closed around another text.
box-IsBalanced :
    (ss : List Text) (s t : Text)
    → ((o : List Text) → read (outside, o) (format ss) ≡ some (outside, codes "div" ∷ o))
    → IsBalanced s
    → ((o : List Text) → read (outside, codes "div" ∷ o) t ≡ some (outside, o))
    → IsBalanced (format ss ++ (s ++ t))
box-IsBalanced ss s t h b k = record {
  reads = λ o.
      read_then (outside, o) (format ss) (s ++ t) (h o)
        (read_then (outside, codes "div" ∷ o) s t (b.reads (codes "div" ∷ o)) (k o));
}

module _ {F T : Type 0} (f : Float F) (fmt : Format F T) (plain : IsPlainFormat fmt) where
  throughput_html-IsBalanced :
      (r : Stamped T ThroughputResult) → IsBalanced (throughput_html f fmt r)
  unfolding throughput_html read
  throughput_html-IsBalanced r = record {
    reads = λ o. read_two _ _ _ _ refl (format_size-IsBalanced plain _) (
        read_two _ _ _ _ refl (two_decimals-IsBalanced plain _) (
          read_two _ _ _ _ refl (format_size_i-IsBalanced plain _) (
            read_two _ _ _ _ refl (print_usize-IsBalanced _)
              (read_two _ _ _ _ refl (format_time-IsBalanced plain _) (read_last _ _ refl)))));
  }

  -- A row of the statistics.
  row-IsBalanced :
      (x : Option F) (s t : Text)
      → ((o : List Text) → read (outside, o) s ≡ some (outside, codes "span" ∷ codes "div" ∷ o))
      → ((o : List Text) → read (outside, codes "span" ∷ codes "div" ∷ o) t ≡ some (outside, o))
      → IsBalanced (push_some x (λ a. s ∷ fmt.two_decimals a ∷ t ∷ []))
  row-IsBalanced x s t h k =
      push_some-IsBalanced x (λ a. s ∷ fmt.two_decimals a ∷ t ∷ [])
        (λ a. record {
          reads =
              λ o. read_two _ _ _ _ (h o) (two_decimals-IsBalanced plain a) (read_last _ _ (k o));
        })

  statistics_html-IsBalanced : (r : LatencyResult F) → IsBalanced (statistics_html f fmt r)
  unfolding statistics_html read
  statistics_html-IsBalanced r = IsBalanced-append (row-IsBalanced _ _ _ (λ o. refl) (λ o. refl)) (
      IsBalanced-append (row-IsBalanced _ _ _ (λ o. refl) (λ o. refl)) (
        IsBalanced-append (row-IsBalanced _ _ _ (λ o. refl) (λ o. refl)) (
          IsBalanced-append (row-IsBalanced _ _ _ (λ o. refl) (λ o. refl)) (
            IsBalanced-append (row-IsBalanced _ _ _ (λ o. refl) (λ o. refl)) (
              IsBalanced-append (row-IsBalanced _ _ _ (λ o. refl) (λ o. refl))
                (row-IsBalanced _ _ _ (λ o. refl) (λ o. refl)))))))

  latency_html-IsBalanced : (r : Stamped T (LatencyResult F)) → IsBalanced (latency_html f fmt r)
  unfolding latency_html read
  latency_html-IsBalanced r = record {
    reads = λ o.
        read_two _ _ _ _ refl
          (box-IsBalanced _ _ _
            (λ o'. read_two _ _ _ _ refl (print_usize-IsBalanced _) (
              read_two _ _ _ _ refl (print_usize-IsBalanced _) (
                read_two _ _ _ _ refl (print_usize-IsBalanced _)
                  (read_two _ _ _ _ refl (two_decimals-IsBalanced plain _) (read_last _ _ refl)))))
            (guarded-IsBalanced (ltb 0 (successful_count f r.figures))
              (statistics_html-IsBalanced r.figures))
            (λ o'. refl))
          (read_two _ _ _ _ refl (format_time-IsBalanced plain _) (read_last _ _ refl));
  }

  entries_html-IsBalanced :
      (rs : List (ℕ × Stamped T ThroughputResult)) → IsBalanced (entries_html f fmt rs)
  unfolding entries_html read
  entries_html-IsBalanced [] = IsBalanced-nil
  entries_html-IsBalanced ((size, r) ∷ rs) =
      IsBalanced-append
        (record {
          reads = λ o.
              read_two _ _ _ _ refl (format_size-IsBalanced plain _)
                (read_two _ _ _ _ refl (throughput_html-IsBalanced r) (read_last _ _ refl));
        })
        (entries_html-IsBalanced rs)

  latency_section_html-IsBalanced :
      (r : NetworkTestResult F T) → IsBalanced (latency_section_html f fmt r)
  unfolding latency_section_html read
  latency_section_html-IsBalanced r = elim (Option-cases r.latency) [
    | inl e ↦ rw e IsBalanced-nil
    | inr (l, e) ↦ rw e (record {
      reads = λ o.
          read_two _ _ _ _ refl (prefix-IsBalanced r.protocol)
            (read_two _ _ _ _ refl (latency_html-IsBalanced l) (read_last _ _ refl));
    })
  ]

  download_section_html-IsBalanced :
      (r : NetworkTestResult F T) → IsBalanced (download_section_html f fmt r)
  unfolding download_section_html read
  download_section_html-IsBalanced r = unless-IsBalanced (is_empty r.download_results) (record {
    reads = λ o.
        read_two _ _ _ _ refl (prefix-IsBalanced r.protocol)
          (read_two _ _ _ _ refl (entries_html-IsBalanced r.download_results) (read_last _ _ refl));
  })

  upload_section_html-IsBalanced :
      (r : NetworkTestResult F T) → IsBalanced (upload_section_html f fmt r)
  unfolding upload_section_html read
  upload_section_html-IsBalanced r = unless-IsBalanced (is_empty r.upload_results) (record {
    reads = λ o.
        read_two _ _ _ _ refl (prefix-IsBalanced r.protocol)
          (read_two _ _ _ _ refl (entries_html-IsBalanced r.upload_results) (read_last _ _ refl));
  })

  pub result_html-IsBalanced : (r : TestResult F T) → IsBalanced (result_html f fmt r)
  unfolding result_html network_html
  result_html-IsBalanced (simple r) = throughput_html-IsBalanced r
  result_html-IsBalanced (network r) =
      IsBalanced-append (latency_section_html-IsBalanced r)
        (IsBalanced-append (download_section_html-IsBalanced r) (upload_section_html-IsBalanced r))
