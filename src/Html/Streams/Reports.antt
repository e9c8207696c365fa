-- ===== src/Html/Streams/Reports.antt =====
-- `write_html` of a whole report in src/renderer/mod.rs, to a buffer, to any writer, and as
-- src/utils/export.rs uses it.
use speed_cli.Base.{
  ◌≡◌, refl, sym, ap, ◌∙◌, ◌⊎◌, inl, inr, false, List, [], ◌∷◌, ◌++◌, append_assoc,
}
use speed_cli.Float.{Float}
use speed_cli.Html.{Text, format, Format, TestReport, IoResult, ok, err, Writer, vec, Action, ◌>>◌}
use speed_cli.Html.Page.{report_html, write_report, export_report_html, write_buffer}
use speed_cli.Html.Space.{tidy, Alike-refl}
use speed_cli.Html.Streams.{Appended, IsWriter, Streams, Streams-write, Streams-then, Streams-same}
use speed_cli.Html.Streams.Configs.{Streams-config}
use speed_cli.Html.Streams.Results.{Streams-result}

format-append : (ss ts : List Text) → format (ss ++ ts) ≡ format ss ++ format ts
unfolding format
format-append [] ts = refl
format-append (s ∷ ss) ts =
    ap (λ t. s ++ t) (format-append ss ts) ∙ sym (append_assoc s (format ss) (format ts))

-- The page as it is written, in five turns.
format_page :
    (ss : List Text) (c d r e : Text)
    → format ss ++ (c ++ (format (d ∷ []) ++ (r ++ format (e ∷ []))))
      ≡ format (ss ++ (c ∷ d ∷ r ∷ e ∷ []))
unfolding format
format_page ss c d r e = simp (format-append, append_assoc)

module _ {F T W : Type 0} (f : Float F) (fmt : Format F T) {out : Writer W} {Fails : Text → Type 0}
    (law : IsWriter out Fails) where
  Streams-report :
      (r : TestReport F T)
      → Streams law (write_report f fmt out r) (write_report f fmt vec r) (report_html f fmt r)
  unfolding write_report report_html
  Streams-report r =
      Streams-same law
        (Streams-then law (Streams-write law _ (Alike-refl _)) (
          Streams-then law (Streams-config fmt law r.config) (
            Streams-then law (Streams-write law _ (Alike-refl _)) (
              Streams-then law (Streams-result f fmt law r.result)
                (Streams-write law _ (Alike-refl _))))))
        (format_page _ _ _ _ _)

  -- The two ways in which writing a page ends.
  ending :
      (w : W) (page : Text) (x : W × IoResult)
      → Appended law.written Fails w page x
      → (x.1 ≡ ok) × (law.written x.0 ≡ law.written w ++ page)
        ⊎ ((message : Text) × (x.1 ≡ err message)
            × Fails message
            × (part : Text) × (rest : Text) × (part ++ rest ≡ page)
            × (law.written x.0 ≡ law.written w ++ part))
  ending w page (w', ok) h = inl (refl, h)
  ending w page (w', err message) (fails, part, rest, whole, had) =
      inr (message, refl, fails, part, rest, whole, had)

  -- `write_html` of a report to a writer that can fail either succeeds, and has appended the page that
  -- it writes to a buffer, or it ends with an error that the writer gave, and has appended a part of
  -- that page from its start.
  pub write_report_lem :
      (r : TestReport F T) (w : W)
      → let page = (write_report f fmt vec r []).0 in
        let (w', outcome) = write_report f fmt out r w in
        (outcome ≡ ok) × (law.written w' ≡ law.written w ++ page)
        ⊎ ((message : Text) × (outcome ≡ err message)
            × Fails message
            × (part : Text) × (rest : Text) × (part ++ rest ≡ page)
            × (law.written w' ≡ law.written w ++ part))
  write_report_lem r w =
      let s = Streams-report r in
      rw (s.to_buffer []) (ending w s.text (write_report f fmt out r w) (s.to_writer w))

-- `Write` of a buffer gives no error.
vec-IsWriter : IsWriter vec (λ message. ⊥)
vec-IsWriter = record { written = λ v. v; write_all-Appended = λ s v. refl }

module _ {F T W : Type 0} (f : Float F) (fmt : Format F T) (file : Writer W)
    (flush : Action W) where
  -- `write_html` of a report to a buffer never fails. What it appends there is the text of `to_html`, up
  -- to blanks and newlines directly behind a `>`, and what the export to a file writes, in one
  -- `write_all`.
  pub write_report-report_html :
      (r : TestReport F T)
      → (page : Text) × (tidy false page ≡ tidy false (report_html f fmt r))
        × ((v : Text) → write_report f fmt vec r v ≡ (v ++ page, ok))
        × ((w : W) → export_report_html f fmt file flush r w ≡ (file.write_all page >> flush) w)
  unfolding export_report_html
  write_report-report_html r =
      let s = Streams-report f fmt vec-IsWriter r in
      (
        s.text,
        s.alike.tidy_same false,
        s.to_buffer,
        λ w. ap (λ x. write_buffer f fmt file flush x w) (s.to_buffer []),
      )
