-- ===== src/Html/Space.antt =====
-- The white space after the tags of a page: texts of src/renderer/mod.rs that differ in nothing else.
use speed_cli.Base.{
  ◌≡◌, refl, sym, ap, ◌∙◌, ◌==◌, ◌&&◌, ◌||◌, ℕ, Bool, true, false, if◌then◌else◌, List, [], ◌∷◌,
  ◌++◌,
}
use speed_cli.Html.{Text, format}

-- A blank or a newline, where white space is left out.
abbrev pub is_skipped : Bool → ℕ → Bool
is_skipped after_tag c = ((c == b' ') || (c == b'\n')) && after_tag

abbrev pub next : Bool → ℕ → Bool
next after_tag c = (c == b'>') || is_skipped after_tag c

-- A text without the blanks and newlines that directly follow a `>`. The Boolean tells whether one is
-- just before the text.
unfoldable pub tidy : Bool → Text → Text
tidy after_tag [] = []
tidy after_tag (c ∷ s) =
    let rest = tidy (next after_tag c) s in if is_skipped after_tag c then rest else c ∷ rest

unfoldable pub after : Bool → Text → Bool
after after_tag [] = after_tag
after after_tag (c ∷ s) = after (next after_tag c) s

kept-append :
    (skip : Bool) (c : ℕ) (s t u : Text)
    → s ≡ t ++ u
    → (if skip then s else c ∷ s) ≡ (if skip then t else c ∷ t) ++ u
kept-append true c s t u e = e
kept-append false c s t u e = ap (◌∷◌ c) e

pub tidy-append : (b : Bool) (s t : Text) → tidy b (s ++ t) ≡ tidy b s ++ tidy (after b s) t
unfolding tidy after
tidy-append b [] t = refl
tidy-append b (c ∷ s) t =
    kept-append (is_skipped b c) c (tidy (next b c) (s ++ t)) (tidy (next b c) s)
      (tidy (after (next b c) s) t) (tidy-append (next b c) s t)

pub after-append : (b : Bool) (s t : Text) → after b (s ++ t) ≡ after (after b s) t
unfolding after
after-append b [] t = refl
after-append b (c ∷ s) t = after-append (next b c) s t

-- Two texts are the same up to the white space after tags, wherever they stand.
pub record Alike (s t : Text) : Type 0 where
  pub tidy_same : (b : Bool) → tidy b s ≡ tidy b t
  pub after_same : (b : Bool) → after b s ≡ after b t

pub Alike-refl : (s : Text) → Alike s s
Alike-refl s = record { tidy_same = λ b. refl; after_same = λ b. refl }

pub Alike-trans : {s t u : Text} → Alike s t → Alike t u → Alike s u
Alike-trans x y = record {
  tidy_same = λ b. x.tidy_same b ∙ y.tidy_same b;
  after_same = λ b. x.after_same b ∙ y.after_same b;
}

pub Alike-append : {s s' t t' : Text} → Alike s s' → Alike t t' → Alike (s ++ t) (s' ++ t')
Alike-append {s} {s'} {t} {t'} x y = record {
  tidy_same = λ b. simp (tidy-append, x.tidy_same, x.after_same, y.tidy_same);
  after_same = λ b. simp (after-append, x.after_same, y.after_same);
}

-- After the text, white space is left out.
pub record EndsInTag (s : Text) : Type 0 where
  pub after_true : (b : Bool) → after b s ≡ true

-- The same for a `format!`, one part after the other.
unfoldable pub tidy_parts : Bool → List Text → Text
tidy_parts b [] = []
tidy_parts b (s ∷ ss) = tidy b s ++ tidy_parts (after b s) ss

unfoldable pub after_parts : Bool → List Text → Bool
after_parts b [] = b
after_parts b (s ∷ ss) = after_parts (after b s) ss

pub tidy-format : (b : Bool) (ss : List Text) → tidy b (format ss) ≡ tidy_parts b ss
unfolding format tidy_parts tidy
tidy-format b [] = refl
tidy-format b (s ∷ ss) =
    tidy-append b s (format ss) ∙ ap (λ t. tidy b s ++ t) (tidy-format (after b s) ss)

pub after-format : (b : Bool) (ss : List Text) → after b (format ss) ≡ after_parts b ss
unfolding format after_parts after
after-format b [] = refl
after-format b (s ∷ ss) = after-append b s (format ss) ∙ after-format (after b s) ss

pub Alike-format :
    (ss ts : List Text)
    → ((b : Bool) → tidy_parts b ss ≡ tidy_parts b ts)
    → ((b : Bool) → after_parts b ss ≡ after_parts b ts)
    → Alike (format ss) (format ts)
Alike-format ss ts h k = record {
  tidy_same = λ b. tidy-format b ss ∙ h b ∙ sym (tidy-format b ts);
  after_same = λ b. after-format b ss ∙ k b ∙ sym (after-format b ts);
}

pub EndsInTag-format :
    (ss : List Text) → ((b : Bool) → after_parts b ss ≡ true) → EndsInTag (format ss)
EndsInTag-format ss h = record { after_true = λ b. after-format b ss ∙ h b }

-- White space at the start of what follows a text that ends in a tag.
pub Alike-EndsInTag :
    {s : Text} (ss ts : List Text)
    → EndsInTag s
    → tidy_parts true ss ≡ tidy_parts true ts
    → after_parts true ss ≡ after_parts true ts
    → Alike (s ++ format ss) (s ++ format ts)
Alike-EndsInTag {s} ss ts h e a = record {
  tidy_same = λ b. simp (tidy-append, h.after_true, tidy-format, e);
  after_same = λ b. simp (after-append, h.after_true, after-format, a);
}
