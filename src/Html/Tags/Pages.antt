-- ===== src/Html/Tags/Pages.antt =====
-- The tags of a whole report in src/renderer/mod.rs, collected and written.
use speed_cli.Base.{
  ◌≡◌, refl, sym, ap, ◌∙◌, ◌==◌, ◌||◌, arith, ℕ, Bool, true, false, Bool-cases, inl, inr, Option,
  none, some, List, [], ◌∷◌,
}
use speed_cli.Base.Options.{◌>>=◌}
use speed_cli.Float.{Float}
use speed_cli.Html.{Text, Format, TestReport, vec, ok}
use speed_cli.Html.Page.{page_style, report_html, write_report}
use speed_cli.Html.Space.{tidy, is_skipped, next}
use speed_cli.Html.Streams.Reports.{write_report-report_html}
use speed_cli.Html.Tags.{
  Reader, outside, in_name, in_attributes, tag, step, read, read_one, read_two, read_last, IsPlain,
  IsBalanced, IsPlain-IsBalanced, IsPlainFormat, format_time-IsBalanced,
}
use speed_cli.Html.Tags.Configs.{server_of, config_html-IsBalanced}
use speed_cli.Html.Tags.Results.{result_html-IsBalanced}

-- White space is left out of a text only outside of tags.
abbrev AtTag : Bool → Reader → Type 0
AtTag true x = x.0 ≡ outside
AtTag false x = Unit

tag_end :
    (closing : Bool) (name : Text) (o : List Text) (y : Reader)
    → tag closing name o ≡ some y
    → y.0 ≡ outside
tag_end false name o y e = ground (arith, e)
tag_end true name [] y e = ground (arith, e)
tag_end true name (n ∷ o) y e = ground (arith, e)

step_end :
    (x : Reader) (c : ℕ) (y : Reader) → (c == b'>') ≡ true → step x c ≡ some y → y.0 ≡ outside
step_end (outside, o) c y h e = ground (arith, e)
step_end (in_name closing name, o) c y h e = tag_end closing name o y (rw h at e)
step_end (in_attributes closing name, o) c y h e = tag_end closing name o y (rw h at e)

skipped :
    (b : Bool) (x : Reader) (c : ℕ)
    → AtTag b x
    → is_skipped b c ≡ true
    → (step x c ≡ some x) × (x.0 ≡ outside) × (next b c ≡ true)
skipped false x c h k = ground (arith, k)
skipped true (outside, o) c h k = (ground (arith, k), refl, ground (arith, k))
skipped true (in_name closing name, o) c h k = ground (arith, h)
skipped true (in_attributes closing name, o) c h k = ground (arith, h)

kept :
    (b : Bool) (x : Reader) (c : ℕ) (y : Reader)
    → is_skipped b c ≡ false
    → step x c ≡ some y
    → AtTag (next b c) y
kept b x c y h k = elim (Bool-cases (c == b'>')) [
  | inl e ↦ rw e (step_end x c y e k)
  | inr e ↦ rw (e, h) tt
]

bind_same :
    (o : Option Reader) (g h : Reader → Option Reader)
    → ((y : Reader) → o ≡ some y → g y ≡ h y)
    → (o >>= g) ≡ (o >>= h)
bind_same none g h e = refl
bind_same (some x) g h e = e x refl

read-tidy : (b : Bool) (x : Reader) (s : Text) → AtTag b x → read x (tidy b s) ≡ read x s
unfolding read tidy
read-tidy b x [] h = refl
read-tidy b x (c ∷ s) h = elim (Bool-cases (is_skipped b c)) [
  | inl skip ↦
      let (e, o, n) = skipped b x c h skip in
      rw (skip, e) (ap (λ k. read x (tidy k s)) {y = true} (rw skip at n) ∙ read-tidy true x s o)
  | inr keep ↦
      let after_tag : Bool = (c == b'>') || false in
      rw keep (
        bind_same (step x c) (λ y. read y (tidy after_tag s)) (λ y. read y s)
          (λ y e. read-tidy after_tag y s (rw keep at (kept b x c y keep e))))
]

module _ {F T : Type 0} (f : Float F) (fmt : Format F T) (plain : IsPlainFormat fmt) where
  report_html-IsBalanced :
      (r : TestReport F T)
      → IsPlain r.version
      → IsPlain (server_of r.config)
      → IsBalanced (report_html f fmt r)
  unfolding report_html page_style read
  report_html-IsBalanced r v h = record {
    reads = λ o. read_one _ _ _ refl (
        read_two _ _ _ _ refl (IsPlain-IsBalanced r.version v) (
          read_two _ _ _ _ refl (format_time-IsBalanced plain _) (
            read_two _ _ _ _ refl (format_time-IsBalanced plain _) (
              read_two _ _ _ _ refl (config_html-IsBalanced fmt plain r.config h) (
                read_two _ _ _ _ refl (result_html-IsBalanced f fmt plain r.result)
                  (read_last _ _ refl))))));
  }

  -- If neither the version nor the name of the server has a `<`, then the tags of the page are
  -- balanced: every element that it opens is closed in it, the innermost first. This holds for the text
  -- of `to_html` and for that which `write_html` writes.
  pub write_report-IsBalanced :
      (r : TestReport F T)
      → IsPlain r.version
      → IsPlain (server_of r.config)
      → (read (outside, []) (report_html f fmt r) ≡ some (outside, []))
        × (read (outside, []) (write_report f fmt vec r []).0 ≡ some (outside, []))
  write_report-IsBalanced r v h =
      let collected = (report_html-IsBalanced r v h).reads [] in
      let (page, same, written, exported) = write_report-report_html f fmt vec (λ w. (w, ok)) r in
      (
        collected,
        rw (written []) (
            sym (read-tidy false (outside, []) page tt)
            ∙ ap (read (outside, [])) same
            ∙ read-tidy false (outside, []) (report_html f fmt r) tt
            ∙ collected),
      )
