-- ===== src/Html/Streams/Latency.antt =====
-- `write_html` of the latency results in src/renderer/mod.rs.
use speed_cli.Base.{◌≡◌, refl, Bool, Option, none, some, List, ◌∷◌, ◌++◌, ltb, append_assoc}
use speed_cli.Float.{Float}
use speed_cli.Report.Latency.{LatencyResult, successful_count}
use speed_cli.Html.{Text, format, Format, Stamped, Writer, vec}
use speed_cli.Html.Latency.{push_some, statistics_html, latency_html}
use speed_cli.Html.Latency.Streamed.{write_some, write_statistics, write_latency}
use speed_cli.Html.Space.{
  Alike-format, EndsInTag, EndsInTag-format, after, after_parts, tidy_parts, tidy,
}
use speed_cli.Html.Streams.{
  IsWriter, Streams, Streams-write, Streams-then, Streams-done, Streams-same, Streams-if_done,
}

-- Parts of a `format!` that are themselves put together.
format_nested :
    (l : Text) (a : List Text) (r d : Text) (e : List Text)
    → format (l ∷ a) ++ (r ++ format (d ∷ e)) ≡ format (l ∷ (format a ++ (r ++ d)) ∷ e)
unfolding format
format_nested l a r d e = simp append_assoc

module _ {F T W : Type 0} (f : Float F) (fmt : Format F T) {out : Writer W} {Fails : Text → Type 0}
    (law : IsWriter out Fails) where
  write_some-Streams :
      (x : Option F) (ps qs : F → List Text)
      → ((a : F) (b : Bool) → tidy_parts b (ps a) ≡ tidy_parts b (qs a))
      → ((a : F) (b : Bool) → after_parts b (ps a) ≡ after_parts b (qs a))
      → Streams law (write_some out x ps) (write_some vec x ps) (push_some x qs)
  unfolding write_some push_some
  write_some-Streams none ps qs h k = Streams-done law
  write_some-Streams (some a) ps qs h k =
      Streams-write law (ps a) (Alike-format (ps a) (qs a) (h a) (k a))

  Streams-statistics :
      (r : LatencyResult F)
      → Streams law
          (write_statistics f fmt out r)
          (write_statistics f fmt vec r)
          (statistics_html f fmt r)
  unfolding write_statistics statistics_html tidy_parts after_parts tidy after
  Streams-statistics r = Streams-then law (write_some-Streams _ _ _ (λ a b. refl) (λ a b. refl)) (
      Streams-then law (write_some-Streams _ _ _ (λ a b. refl) (λ a b. refl)) (
        Streams-then law (write_some-Streams _ _ _ (λ a b. refl) (λ a b. refl)) (
          Streams-then law (write_some-Streams _ _ _ (λ a b. refl) (λ a b. refl)) (
            Streams-then law (write_some-Streams _ _ _ (λ a b. refl) (λ a b. refl)) (
              Streams-then law (write_some-Streams _ _ _ (λ a b. refl) (λ a b. refl))
                (write_some-Streams _ _ _ (λ a b. refl) (λ a b. refl)))))))

  pub Streams-latency :
      (r : Stamped T (LatencyResult F))
      → Streams law (write_latency f fmt out r) (write_latency f fmt vec r) (latency_html f fmt r)
  unfolding write_latency latency_html tidy_parts after_parts tidy after
  Streams-latency r =
      Streams-same law
        (Streams-then law (Streams-write law _ (Alike-format _ _ (λ b. refl) (λ b. refl))) (
          Streams-then law
            (Streams-if_done law (ltb 0 (successful_count f r.figures))
              (Streams-statistics r.figures))
            (Streams-write law _ (Alike-format _ _ (λ b. refl) (λ b. refl)))))
        (format_nested _ _ _ _ _)

module _ {F T : Type 0} (f : Float F) (fmt : Format F T) where
  pub latency_html-EndsInTag : (r : Stamped T (LatencyResult F)) → EndsInTag (latency_html f fmt r)
  unfolding latency_html after_parts after
  latency_html-EndsInTag r = EndsInTag-format _ (λ b. refl)
