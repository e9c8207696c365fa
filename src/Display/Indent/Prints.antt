-- ===== src/Display/Indent/Prints.antt =====
-- Actions that print whole lines, of which the `Display` of src/report is made.
use speed_cli.Base.{
  ◌≡◌, refl, sym, ap, ◌∙◌, ℕ, Bool, true, false, if◌then◌else◌, List, [], ◌∷◌, ◌++◌, All,
  append_nil, append_assoc, arith,
}
use speed_cli.Base.Text.{Text, format}
use speed_cli.Base.Writing.{ok, vec, Action, and_then, ◌>>◌, done, write}
use speed_cli.Html.Streams.{write-vec}
use speed_cli.Display.{Print, Style}
use speed_cli.Display.Indent.{at_start, has_return, at_start-append, has_return-append}

-- A text without carriage returns.
pub record IsClean (s : Text) : Type 0 where
  pub clean : has_return s ≡ false

-- No text of a number, a size or a date has a carriage return, and painting adds none.
pub record IsCleanPrint {F T : Type 0} (p : Print F T) : Type 0 where
  pub two_decimals-IsClean : (x : F) → IsClean (p.texts.two_decimals x)
  pub one_decimal-IsClean : (x : F) → IsClean (p.one_decimal x)
  pub format_time-IsClean : (t : T) → IsClean (p.texts.format_time t)
  pub format_size-IsClean : (n : ℕ) → IsClean (p.texts.format_size n)
  pub format_bits-IsClean : (n : ℕ) → IsClean (p.format_bits n)
  pub grouped-IsClean : (n : ℕ) → IsClean (p.grouped n)
  pub paint-IsClean : (styles : List Style) (s : Text) → IsClean s → IsClean (p.paint styles s)

pub literal : (s : Text) → has_return s ≡ false → IsClean s
literal s h = record { clean = h }

pub IsClean-append : {s t : Text} → IsClean s → IsClean t → IsClean (s ++ t)
IsClean-append {s} {t} h k = record {
  clean = has_return-append s t ∙ ground (arith, h.clean, k.clean);
}

pub IsClean-format : (ss : List Text) → All IsClean ss → IsClean (format ss)
unfolding format has_return
IsClean-format [] h = record { clean = refl }
IsClean-format (s ∷ ss) h = IsClean-append h.0 (IsClean-format ss h.1)

-- Whether a line starts after the parts of a `write!`.
unfoldable pub starts_after : Bool → List Text → Bool
starts_after b [] = b
starts_after b (s ∷ ss) = starts_after (at_start b s) ss

pub at_start-format : (b : Bool) (ss : List Text) → at_start b (format ss) ≡ starts_after b ss
unfolding format starts_after at_start
at_start-format b [] = refl
at_start-format b (s ∷ ss) = at_start-append b s (format ss) ∙ at_start-format (at_start b s) ss

-- An action prints whole lines to a string, without carriage returns.
pub record Prints (c : Action Text) : Type 0 where
  pub text : Text
  pub to_buffer : (v : Text) → c v ≡ (v ++ text, ok)
  pub whole : at_start true text ≡ true
  pub no_return : IsClean text

pub then_vec : (c d : Action Text) (v t : Text) → c v ≡ (v ++ t, ok) → (c >> d) v ≡ d (v ++ t)
unfolding ◌>>◌
then_vec c d v t e = ap (λ r. and_then r d) e

pub Prints-done : Prints done
unfolding done at_start has_return
Prints-done = record {
  text = [];
  to_buffer = λ v. ap (λ s. (s, ok)) (sym (append_nil v));
  whole = refl;
  no_return = record { clean = refl };
}

pub Prints-then : {c d : Action Text} → Prints c → Prints d → Prints (c >> d)
unfolding ◌>>◌
Prints-then {c} {d} x y = record {
  text = x.text ++ y.text;
  to_buffer = λ v.
      ap (λ r. and_then r d) (x.to_buffer v)
      ∙ y.to_buffer (v ++ x.text)
      ∙ ap (λ s. (s, ok)) (append_assoc v x.text y.text);
  whole = at_start-append true x.text y.text ∙ ap (λ b. at_start b y.text) x.whole ∙ y.whole;
  no_return = IsClean-append x.no_return y.no_return;
}

pub Prints-write :
    (ss : List Text) → starts_after true ss ≡ true → All IsClean ss → Prints (write vec ss)
Prints-write ss h k = record {
  text = format ss;
  to_buffer = write-vec ss;
  whole = at_start-format true ss ∙ h;
  no_return = IsClean-format ss k;
}

pub Prints-if : (b : Bool) {c d : Action Text} → Prints c → Prints d → Prints (if b then c else d)
Prints-if true x y = x
Prints-if false x y = y
