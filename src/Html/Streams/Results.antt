-- ===== src/Html/Streams/Results.antt =====
-- `write_html` of the results of network tests in src/renderer/mod.rs.
use speed_cli.Base.{
  ◌≡◌, refl, Option-cases, inl, inr, ℕ, List, [], ◌∷◌, ◌++◌, is_empty, append_assoc,
}
use speed_cli.Float.{Float}
use speed_cli.Report.Throughput.{ThroughputResult}
use speed_cli.Html.{
  Text, format, Format, Stamped, NetworkTestResult, TestResult, simple, network, Writer, vec,
}
use speed_cli.Html.Figures.{throughput_html, write_throughput}
use speed_cli.Html.Network.{
  entries_html, latency_section_html, download_section_html, upload_section_html, network_html,
  write_entries, write_latency_section, write_download_section, write_upload_section, write_network,
}
use speed_cli.Html.Page.{result_html, write_result}
use speed_cli.Html.Space.{
  Alike-refl, Alike-format, Alike-EndsInTag, after, after_parts, tidy_parts, tidy,
}
use speed_cli.Html.Streams.{
  IsWriter, Streams, Streams-write, Streams-then, Streams-done, Streams-Alike, Streams-same,
  Streams-if_not_done,
}
use speed_cli.Html.Streams.Latency.{Streams-latency, latency_html-EndsInTag}

-- The parts of a `format!` as they are written: three, one by another `write_html`, and the last.
format_parts :
    (a b c x d rest : Text)
    → format (a ∷ b ∷ c ∷ []) ++ (x ++ (format (d ∷ []) ++ rest))
      ≡ format (a ∷ b ∷ c ∷ x ∷ d ∷ []) ++ rest
unfolding format
format_parts a b c x d rest = simp append_assoc

format_section :
    (a b c x d : Text)
    → format (a ∷ b ∷ c ∷ []) ++ (x ++ format (d ∷ [])) ≡ format (a ∷ b ∷ c ∷ x ∷ d ∷ [])
unfolding format
format_section a b c x d = simp append_assoc

module _ {F T W : Type 0} (f : Float F) (fmt : Format F T) {out : Writer W} {Fails : Text → Type 0}
    (law : IsWriter out Fails) where
  Streams-throughput :
      (r : Stamped T ThroughputResult)
      → Streams law
          (write_throughput f fmt out r)
          (write_throughput f fmt vec r)
          (throughput_html f fmt r)
  unfolding write_throughput throughput_html
  Streams-throughput r = Streams-write law _ (Alike-refl _)

  Streams-entries :
      (rs : List (ℕ × Stamped T ThroughputResult))
      → Streams law
          (write_entries f fmt out rs)
          (write_entries f fmt vec rs)
          (entries_html f fmt rs)
  unfolding write_entries entries_html tidy_parts after_parts tidy after
  Streams-entries [] = Streams-done law
  Streams-entries ((size, r) ∷ rs) =
      Streams-same law
        (Streams-then law (Streams-write law _ (Alike-format _ _ (λ b. refl) (λ b. refl))) (
          Streams-then law (Streams-throughput r) (
            Streams-then law (Streams-write law _ (Alike-format _ _ (λ b. refl) (λ b. refl)))
              (Streams-entries rs))))
        (format_parts _ _ _ _ _ _)

  Streams-latency_section :
      (r : NetworkTestResult F T)
      → Streams law
          (write_latency_section f fmt out r)
          (write_latency_section f fmt vec r)
          (latency_section_html f fmt r)
  unfolding write_latency_section latency_section_html tidy_parts after_parts tidy after
  Streams-latency_section r = elim (Option-cases r.latency) [
    | inl e ↦ rw e (Streams-done law)
    | inr (l, e) ↦ rw e (
        Streams-same law
          (Streams-then law (Streams-write law _ (Alike-format _ _ (λ b. refl) (λ b. refl))) (
            Streams-Alike law
              (Streams-then law (Streams-latency f fmt law l) (Streams-write law _ (Alike-refl _)))
              (Alike-EndsInTag _ _ (latency_html-EndsInTag f fmt l) refl refl)))
          (format_section _ _ _ _ _))
  ]

  Streams-download_section :
      (r : NetworkTestResult F T)
      → Streams law
          (write_download_section f fmt out r)
          (write_download_section f fmt vec r)
          (download_section_html f fmt r)
  unfolding write_download_section download_section_html tidy_parts after_parts tidy after
  Streams-download_section r = Streams-if_not_done law (is_empty r.download_results) (
      Streams-same law
        (Streams-then law (Streams-write law _ (Alike-format _ _ (λ b. refl) (λ b. refl))) (
          Streams-then law (Streams-entries r.download_results)
            (Streams-write law _ (Alike-format _ _ (λ b. refl) (λ b. refl)))))
        (format_section _ _ _ _ _))

  Streams-upload_section :
      (r : NetworkTestResult F T)
      → Streams law
          (write_upload_section f fmt out r)
          (write_upload_section f fmt vec r)
          (upload_section_html f fmt r)
  unfolding write_upload_section upload_section_html tidy_parts after_parts tidy after
  Streams-upload_section r = Streams-if_not_done law (is_empty r.upload_results) (
      Streams-same law
        (Streams-then law (Streams-write law _ (Alike-format _ _ (λ b. refl) (λ b. refl))) (
          Streams-then law (Streams-entries r.upload_results)
            (Streams-write law _ (Alike-format _ _ (λ b. refl) (λ b. refl)))))
        (format_section _ _ _ _ _))

  pub Streams-result :
      (r : TestResult F T)
      → Streams law (write_result f fmt out r) (write_result f fmt vec r) (result_html f fmt r)
  unfolding write_result result_html write_network network_html
  Streams-result (simple r) = Streams-throughput r
  Streams-result (network r) =
      Streams-then law (Streams-latency_section r)
        (Streams-then law (Streams-download_section r) (Streams-upload_section r))
