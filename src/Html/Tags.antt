-- ===== src/Html/Tags.antt =====
-- The tags of a page of src/renderer/mod.rs: what it means that they are balanced, and lemmas on the
-- texts that a page is made of.
pub mod Configs
pub mod Measurements
pub mod Results
pub mod Pages
use speed_cli.Base.{
  ◌≡◌, ◌≢◌, refl, sym, ap, ◌∙◌, ◌==◌, ◌&&◌, ◌||◌, ◌+◌, ◌≤◌, ◌<◌, arith, ℕ, Bool, true, false,
  if◌then◌else◌, Option, none, some, List, [], ◌∷◌, ◌++◌, is_empty, All, All-append, All-map, map,
}
use speed_cli.Base.Options.{◌>>=◌}
use speed_cli.Base.Decimal.{print_usize, print_usize-IsDigit, IsDigit}
use speed_cli.Cli.{same_text}
use speed_cli.Html.{Text, codes, format, join, Format}

-- Where a reader of a page is: outside of a tag, in a tag's name as far as it is read, or behind it.
-- The Boolean tells a closing tag.
pub data Mode : Type 0 where
  outside : Mode
  in_name : Bool → Text → Mode
  in_attributes : Bool → Text → Mode

-- The mode, and the names of the open elements, the innermost first.
abbrev pub Reader : Type 0
Reader = Mode × List Text

-- The elements that have no closing tag.
abbrev is_void : Text → Bool
is_void name = same_text name (codes "meta") || same_text name (codes "!DOCTYPE")

-- At the end of a tag. A closing tag has the name of the innermost open element.
abbrev pub tag : Bool → Text → List Text → Option Reader
tag false name open_names = some (outside, if is_void name then open_names else name ∷ open_names)
tag true name [] = none
tag true name (innermost ∷ open_names) =
    if same_text name innermost then some (outside, open_names) else none

abbrev pub step : Reader → ℕ → Option Reader
step (outside, open_names) c = some (if c == b'<' then in_name false [] else outside, open_names)
step (in_name closing name, open_names) c =
    if c == b'>'
    then tag closing name open_names
    else some (
      if c == b' '
          then in_attributes closing name
          else if (c == b'/') && is_empty name
          then in_name true []
          else in_name closing (name ++ (c ∷ [])),
      open_names,
    )
step (in_attributes closing name, open_names) c =
    if c == b'>' then tag closing name open_names else some (in_attributes closing name, open_names)

unfoldable pub read : Reader → Text → Option Reader
read x [] = some x
read x (c ∷ s) = step x c >>= (λ y. read y s)

-- Every element that a text opens is closed in it, in the reverse order, and none other is.
pub record IsBalanced (s : Text) : Type 0 where
  pub reads : (open_names : List Text) → read (outside, open_names) s ≡ some (outside, open_names)

bind_same :
    (o : Option Reader) (g h k : Reader → Option Reader) (e : (y : Reader) → g y ≡ (h y >>= k))
    → (o >>= g) ≡ ((o >>= h) >>= k)
bind_same none g h k e = refl
bind_same (some x) g h k e = e x

pub read-append : (x : Reader) (s t : Text) → read x (s ++ t) ≡ read x s >>= (λ y. read y t)
unfolding read
read-append x [] t = refl
read-append x (c ∷ s) t =
    bind_same (step x c) (λ y. read y (s ++ t)) (λ y. read y s) (λ y. read y t)
      (λ y. read-append y s t)

pub read_then :
    (x : Reader) {y z : Reader} (s t : Text)
    → read x s ≡ some y
    → read y t ≡ some z
    → read x (s ++ t) ≡ some z
read_then x s t e h = read-append x s t ∙ ap (λ r. r >>= (λ y. read y t)) e ∙ h

pub IsBalanced-append : {s t : Text} → IsBalanced s → IsBalanced t → IsBalanced (s ++ t)
IsBalanced-append {s} {t} h k = record {
  reads = λ o. read_then (outside, o) s t (h.reads o) (k.reads o);
}

pub IsBalanced-nil : IsBalanced []
unfolding read
IsBalanced-nil = record { reads = λ o. refl }

-- A text in which no tag begins.
abbrev pub IsPlain : Text → Type 0
IsPlain s = All (λ c. c ≢ b'<') s

pub IsPlain-IsBalanced : (s : Text) → IsPlain s → IsBalanced s
unfolding read
IsPlain-IsBalanced [] h = IsBalanced-nil
IsPlain-IsBalanced (c ∷ s) h = record {
  reads = λ o.
      let e : (c == b'<') ≡ false = ground (arith, h.0) in
      rw e ((IsPlain-IsBalanced s h.1).reads o);
}

-- A `format!` is read one part after the other, here a literal and an argument.
pub read_one :
    (x : Reader) {y z : Reader} (s : Text) (ss : List Text)
    → read x s ≡ some y
    → read y (format ss) ≡ some z
    → read x (format (s ∷ ss)) ≡ some z
unfolding format
read_one x s ss e h = read_then x s (format ss) e h

pub read_two :
    (x : Reader) {o : List Text} {z : Reader} (s t : Text) (ss : List Text)
    → read x s ≡ some (outside, o)
    → IsBalanced t
    → read (outside, o) (format ss) ≡ some z
    → read x (format (s ∷ t ∷ ss)) ≡ some z
read_two x {o} s t ss e b h = read_one x s (t ∷ ss) e (read_one (outside, o) t ss (b.reads o) h)

pub read_last :
    (x : Reader) {z : Reader} (s : Text) → read x s ≡ some z → read x (format (s ∷ [])) ≡ some z
unfolding format read
read_last x s e = read_one x s [] e refl

pub print_usize-IsPlain : (n : ℕ) → IsPlain (print_usize n)
print_usize-IsPlain n =
    All-map IsDigit (λ c. c ≢ b'<') (λ c h. omega arith) (print_usize n) (print_usize-IsDigit n)

pub print_usize-IsBalanced : (n : ℕ) → IsBalanced (print_usize n)
print_usize-IsBalanced n = IsPlain-IsBalanced (print_usize n) (print_usize-IsPlain n)

pub IsBalanced-join :
    (separator : Text) (ss : List Text)
    → IsBalanced separator
    → All IsBalanced ss
    → IsBalanced (join separator ss)
unfolding join
IsBalanced-join separator [] h k = IsBalanced-nil
IsBalanced-join separator (s ∷ []) h k = k.0
IsBalanced-join separator (s ∷ (t ∷ ss)) h k =
    IsBalanced-append k.0 (IsBalanced-append h (IsBalanced-join separator (t ∷ ss) h k.1))

-- No text of a number, a size or a date has a `<`.
pub record IsPlainFormat {F T : Type 0} (fmt : Format F T) : Type 0 where
  pub two_decimals-IsPlain : (x : F) → IsPlain (fmt.two_decimals x)
  pub format_time-IsPlain : (t : T) → IsPlain (fmt.format_time t)
  pub format_size-IsPlain : (n : ℕ) → IsPlain (fmt.format_size n)
  pub format_size_i-IsPlain : (x : F) → IsPlain (fmt.format_size_i x)

module _ {F T : Type 0} {fmt : Format F T} (plain : IsPlainFormat fmt) where
  pub two_decimals-IsBalanced : (x : F) → IsBalanced (fmt.two_decimals x)
  two_decimals-IsBalanced x = IsPlain-IsBalanced (fmt.two_decimals x) (plain.two_decimals-IsPlain x)

  pub format_time-IsBalanced : (t : T) → IsBalanced (fmt.format_time t)
  format_time-IsBalanced t = IsPlain-IsBalanced (fmt.format_time t) (plain.format_time-IsPlain t)

  pub format_size-IsBalanced : (n : ℕ) → IsBalanced (fmt.format_size n)
  format_size-IsBalanced n = IsPlain-IsBalanced (fmt.format_size n) (plain.format_size-IsPlain n)

  pub format_size_i-IsBalanced : (x : F) → IsBalanced (fmt.format_size_i x)
  format_size_i-IsBalanced x =
      IsPlain-IsBalanced (fmt.format_size_i x) (plain.format_size_i-IsPlain x)
