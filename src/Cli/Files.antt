-- ===== src/Cli/Files.antt =====
-- A report that src/utils/export.rs wrote, given to the `report` command of src/main.rs.
use speed_cli.Base.{
  ◌≡◌, ◌≢◌, ◌⊎◌, ℕ, List, Bool, false, Option, sym, refl, ap, ◌∙◌, ◌==◌, &&-true, true, false, none,
  some, [], ◌∷◌, arith, inl, inr, Bool-cases,
}
use speed_cli.Base.Outcome.{Result, ok, err}
use speed_cli.Testing.Runner.Sizes.{ok-injective}
use speed_cli.Cli.{
  FilePath, json, cbor, html, same_text, Formats, ReportOutcome, fails, prints, complains,
  import_failed, is_html, no_extension, export_report, show_report, guess_report, report_command,
}

same_text_lem : (xs ys : FilePath) → same_text xs ys ≡ true → xs ≡ ys
same_text_lem [] [] h = refl
same_text_lem [] (y ∷ ys) h = ground arith
same_text_lem (x ∷ xs) [] h = ground arith
same_text_lem (x ∷ xs) (y ∷ ys) h =
    let (first, rest) = &&-true (x == y) (same_text xs ys) h in
    ap (λ k. k ∷ xs) {x = x} {y = y} (ground (arith, first)) ∙ ap (◌∷◌ y) (same_text_lem xs ys rest)

same_text_refl : (xs : FilePath) → same_text xs xs ≡ true
same_text_refl [] = refl
same_text_refl (x ∷ xs) = ground (arith, same_text_refl xs)

not_same : (xs ys : FilePath) → same_text xs ys ≡ false → xs ≢ ys
not_same xs ys h e = ground (arith, h, ap (λ x. same_text x ys) e, same_text_refl ys)

html_alone :
    (extension : FilePath)
    → same_text extension html ≡ true
    → (same_text extension json ≡ false) × (same_text extension cbor ≡ false)
html_alone extension h =
    let e : extension ≡ html = same_text_lem extension html h in rw e (refl, refl)

json_alone :
    (extension : FilePath) → same_text extension json ≡ true → same_text extension cbor ≡ false
json_alone extension h = let e : extension ≡ json = same_text_lem extension json h in rw e refl

-- How a file is read: as the `report` command shows what the import in its format gives, or as it
-- does for a file whose format it has to guess.
abbrev pub shown : {R : Type 0} → Formats R → (known : Bool) → Result R → ReportOutcome R
shown f known (ok r) = prints r
shown f true (err message) = fails (import_failed message)
shown f false (err message) = complains message

module _ {R : Type 0} (f : Formats R) where
  show_report_lem : (x : Result R) → show_report f x none ≡ shown f true x
  unfolding show_report
  show_report_lem (ok r) = refl
  show_report_lem (err message) = refl

  guess_report_lem : (x : Result R) → guess_report f x ≡ shown f false x
  unfolding guess_report
  guess_report_lem (ok r) = refl
  guess_report_lem (err message) = refl

  -- A file with content that was exported under an extension, given to the `report` command with
  -- that extension: html is refused, CBOR is read as CBOR, and any other content, which is JSON, as
  -- JSON. A file without an extension, which is written as JSON, is refused.
  abbrev pub IsReread : R → Option FilePath → List ℕ → Type 0
  IsReread r none content =
      (f.to_json r ≡ ok content)
      × (report_command f true true none content none ≡ fails no_extension)
  IsReread r (some extension) content =
      let outcome = report_command f true true (some extension) content none in
      ((extension ≡ html) × (content ≡ f.to_html r) × (outcome ≡ fails is_html))
      ⊎ ((extension ≡ cbor)
          × (f.to_cbor r ≡ ok content)
          × (outcome ≡ shown f true (f.from_cbor content)))
      ⊎ ((known : Bool) × (extension ≢ html)
          × (extension ≢ cbor)
          × (f.to_json r ≡ ok content)
          × (known ≡ same_text extension json)
          × (outcome ≡ shown f known (f.from_json content)))

  -- What `export_report` writes to a file, whatever its extension, if the report has a form in the
  -- format, the `report` command reads in the format in which it was written, or it refuses the
  -- file, which it does exactly for the extension html and for none. The report that the import in
  -- that format gives is printed; an error of the import is reported.
  pub report_command-export_report :
      (r : R) (extension : Option FilePath) (content : List ℕ)
      → export_report f r extension ≡ ok content
      → IsReread r extension content
  unfolding report_command export_report
  report_command-export_report r none content e = (e, refl)
  report_command-export_report r (some extension) content e =
      elim (Bool-cases (same_text extension html)) [
        | inl h ↦
            let (j, c) = html_alone extension h in
            inl (
              same_text_lem extension html h,
              sym (ok-injective _ _ (rw h at e)),
              rw (j, c, h) refl,
            )
        | inr h ↦ elim (Bool-cases (same_text extension json)) [
          | inl j ↦ inr (
              inr (
                true,
                not_same extension html h,
                not_same extension cbor (json_alone extension j),
                rw (h, j) at e,
                sym j,
                rw (h, j) (show_report_lem (f.from_json content)),
              ))
          | inr j ↦ elim (Bool-cases (same_text extension cbor)) [
            | inl c ↦ inr (
                inl (
                  same_text_lem extension cbor c,
                  rw (h, j, c) at e,
                  rw (h, j, c) (show_report_lem (f.from_cbor content)),
                ))
            | inr c ↦ inr (
                inr (
                  false,
                  not_same extension html h,
                  not_same extension cbor c,
                  rw (h, j, c) at e,
                  sym j,
                  rw (h, j, c) (guess_report_lem (f.from_json content)),
                ))
          ]
        ]
      ]
