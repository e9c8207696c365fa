-- ===== src/Display/Indent.antt =====
-- How the loop over `result_str.lines()` in src/report/result/network.rs indents a text.
pub mod Prints
pub mod Results
use speed_cli.Base.{
  ◌≡◌, refl, sym, ap, ◌∙◌, ◌==◌, ◌||◌, ℕ, Bool, true, false, Bool-cases, inl, inr, if◌then◌else◌,
  List, [], ◌∷◌, ◌++◌, is_empty, append_nil, append_assoc, arith,
}
use speed_cli.Base.Text.{Text, codes, format}
use speed_cli.Base.Writing.{ok, vec, and_then, ◌>>◌, done, write}
use speed_cli.Html.Streams.{write-vec}
use speed_cli.Display.Reports.{lines_of, strip_return, print_lines}

-- A text with four blanks at the start of each of its lines. The Boolean tells whether a line starts.
unfoldable pub indent : Bool → Text → Text
indent starts [] = []
indent starts (c ∷ s) =
    let rest = indent (c == b'\n') s in if starts then codes "    " ++ (c ∷ rest) else c ∷ rest

-- Whether a line starts after the text.
unfoldable pub at_start : Bool → Text → Bool
at_start starts [] = starts
at_start starts (c ∷ s) = at_start (c == b'\n') s

-- There is no carriage return in the text.
unfoldable pub has_return : Text → Bool
has_return [] = false
has_return (c ∷ s) = (c == b'\r') || has_return s

pub at_start-append : (b : Bool) (s t : Text) → at_start b (s ++ t) ≡ at_start (at_start b s) t
unfolding at_start
at_start-append b [] t = refl
at_start-append b (c ∷ s) t = at_start-append (c == b'\n') s t

pub has_return-append : (s t : Text) → has_return (s ++ t) ≡ has_return s || has_return t
unfolding has_return
has_return-append [] t = refl
has_return-append (c ∷ s) t = ground (arith, has_return-append s t)

strip_return_lem : (s : Text) → has_return s ≡ false → strip_return s ≡ s
unfolding has_return
strip_return_lem [] h = refl
strip_return_lem (c ∷ []) h = ground (arith, h)
strip_return_lem (c ∷ (d ∷ s)) h = ap (◌∷◌ c) (strip_return_lem (d ∷ s) (ground (arith, h)))

-- The indented text behind what was read of its first line.
lead : Text → Text → Text
lead [] t = indent true t
lead (c ∷ line) t = codes "    " ++ ((c ∷ line) ++ indent false t)

lead_newline :
    (line t : Text) → lead line (b'\n' ∷ t) ≡ codes "    " ++ (line ++ (b'\n' ∷ indent true t))
unfolding lead indent
lead_newline [] t = refl
lead_newline (c ∷ line) t = refl

lead_same :
    (line : Text) (c : ℕ) (t : Text)
    → (c == b'\n') ≡ false
    → lead (line ++ (c ∷ [])) t ≡ lead line (c ∷ t)
unfolding lead indent
lead_same [] c t h = rw h refl
lead_same (d ∷ line) c t h =
    rw h (ap (λ s. codes "    " ++ (d ∷ s)) (append_assoc line (c ∷ []) (indent false t)))

print_nothing :
    (line v : Text)
    → is_empty line ≡ true
    → print_lines vec (lines_of line []) v ≡ (v ++ lead line [], ok)
unfolding print_lines lines_of lead indent done
print_nothing [] v h = ap (λ s. (s, ok)) (sym (append_nil v))
print_nothing (c ∷ line) v h = ground (arith, h)

lines_of_newline :
    (line : Text) (c : ℕ) (t : Text)
    → (c == b'\n') ≡ true
    → lines_of line (c ∷ t) ≡ strip_return line ∷ lines_of [] t
unfolding lines_of
lines_of_newline line c t e = rw (e, lines_of) refl

lines_of_same :
    (line : Text) (c : ℕ) (t : Text)
    → (c == b'\n') ≡ false
    → lines_of line (c ∷ t) ≡ lines_of (line ++ (c ∷ [])) t
unfolding lines_of
lines_of_same line c t e = rw (e, lines_of) refl

print_lines_first :
    (line : Text) (rest : List Text) (v : Text)
    → print_lines vec (line ∷ rest) v
      ≡ print_lines vec rest (v ++ (codes "    " ++ (line ++ (b'\n' ∷ []))))
unfolding print_lines ◌>>◌ format
print_lines_first line rest v =
    ap (λ x. and_then x (print_lines vec rest))
      (write-vec (codes "    " ∷ line ∷ codes "\n" ∷ []) v)

line_end :
    (v line t : Text)
    → (v ++ (codes "    " ++ (line ++ (b'\n' ∷ [])))) ++ t
      ≡ v ++ (codes "    " ++ (line ++ (b'\n' ∷ t)))
line_end v line t = simp append_assoc

at_start_more :
    (line : Text) (c : ℕ) (t : Text)
    → (c == b'\n') ≡ false
    → at_start (is_empty line) (c ∷ t) ≡ true
    → at_start (is_empty (line ++ (c ∷ []))) t ≡ true
unfolding at_start
at_start_more [] c t e h = rw e at h
at_start_more (d ∷ line) c t e h = rw e at h

print_lines-lead :
    (t line v : Text)
    → at_start (is_empty line) t ≡ true
    → has_return line ≡ false
    → has_return t ≡ false
    → print_lines vec (lines_of line t) v ≡ (v ++ lead line t, ok)
unfolding at_start has_return lead indent
print_lines-lead [] line v h k l = print_nothing line v h
print_lines-lead (c ∷ t) line v h k l = elim (Bool-cases (c == b'\n')) [
  | inl e ↦
      let same : c ≡ b'\n' = ground (arith, e) in
      rw
        (
          lines_of_newline line c t e,
          strip_return_lem line k,
          same,
          print_lines_first line (lines_of [] t) v,
          lead_newline line t,
        )
        (print_lines-lead t [] _ (rw e at h) refl (ground (arith, l))
          ∙ ap (λ s. (s, ok)) (line_end v line (indent true t)))
  | inr e ↦ rw (lines_of_same line c t e) (
      print_lines-lead t (line ++ (c ∷ [])) v (at_start_more line c t e h)
        (has_return-append line (c ∷ []) ∙ ground (arith, k, l)) (ground (arith, l))
      ∙ ap (λ s. (v ++ s, ok)) (lead_same line c t e))
]

-- The lines of a text that ends with a newline, or is empty, and has no carriage return, each behind
-- four blanks.
pub print_lines-indent :
    (t v : Text)
    → at_start true t ≡ true
    → has_return t ≡ false
    → print_lines vec (lines_of [] t) v ≡ (v ++ indent true t, ok)
unfolding lead has_return
print_lines-indent t v h k = print_lines-lead t [] v h refl k
