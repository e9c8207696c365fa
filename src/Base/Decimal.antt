-- ===== src/Base/Decimal.antt =====
-- Decimal text of unsigned integers, as `format!("{}", n)` prints it and `str::parse` reads it.
use speed_cli.Base.Tests.{ltb, leb, ◌==◌, if◌then◌else◌, Bool-cases}
use speed_cli.Base.Lists.{is_empty, All, All-append}
use Prim.Native.Nat.{ℕ, zero, suc, ◌+◌, ◌-◌, ◌*◌, ◌/◌, ◌%◌, ◌^◌, ◌≤◌, ◌<◌}
use mathlib.Core.Path.{◌≡◌, refl}
use mathlib.Core.Bool.{Bool, true, ◌&&◌}
use mathlib.Core.Logic.{inl, inr}
use mathlib.Core.List.{List, [], ◌∷◌, ◌++◌}
use mathlib.Core.Option.{Option, none, some}
use native.Mathlib.Omega.{arith}

-- The digits of a number below 10 ^ (k + 1), highest first, with no leading zero.
pub digits : ℕ → ℕ → List ℕ
digits zero n = (b'0' + n % 10) ∷ []
digits (suc k) n =
    let front = digits k (n / 10) in
    if ltb n 10 then (b'0' + n) ∷ [] else front ++ ((b'0' + n % 10) ∷ [])

-- A u64 has at most 20 digits.
unfoldable pub print_usize : ℕ → List ℕ
unfolding digits
print_usize n = digits 19 n

abbrev is_digit : ℕ → Bool
is_digit c = leb b'0' c && leb c b'9'

-- `none` is a character that is no digit, or a value that does not fit 64 bits.
scan : List ℕ → ℕ → Option ℕ
scan [] acc = some acc
scan (c ∷ s) acc =
    let acc' : ℕ = acc * 10 + (c - b'0') in
    let rest = scan s acc' in if is_digit c && ltb acc' (2 ^ 64) then rest else none

skip_plus : List ℕ → List ℕ
skip_plus [] = []
skip_plus (c ∷ s) = if c == b'+' then s else c ∷ s

-- `str::parse::<usize>`: an optional plus sign, then at least one digit.
unfoldable pub parse_usize : List ℕ → Option ℕ
unfolding skip_plus scan
parse_usize s = let t = skip_plus s in if is_empty t then none else scan t 0

scan-snoc :
    (s : List ℕ) (acc d : ℕ) {n : ℕ}
    → scan s acc ≡ some n
    → d < 10
    → n * 10 + d < 2 ^ 64
    → scan (s ++ ((b'0' + d) ∷ [])) acc ≡ some (n * 10 + d)
unfolding scan
scan-snoc [] acc d {n} e hd hn = ground arith
scan-snoc (c ∷ s) acc d {n} e hd hn = ground (arith, scan-snoc s (acc * 10 + (c - b'0')) d {n = n})

scan-digits : (k n : ℕ) → n < 10 ^ suc k → n < 2 ^ 64 → scan (digits k n) 0 ≡ some n
unfolding scan digits
scan-digits zero n h w = ground arith
scan-digits (suc k) n h w = elim (Bool-cases (ltb n 10)) [
  | inl small ↦ ground arith
  | inr large ↦ rw large (
      ground (
        arith,
        scan-snoc (digits k (n / 10)) 0 (n % 10) {n = n / 10},
        scan-digits k (n / 10) (omega arith) (omega arith),
      ))
]

-- The text begins with a digit.
digits_head :
    (k n : ℕ) → n < 10 ^ suc k → (c : ℕ) × (s : List ℕ) × (digits k n ≡ c ∷ s) × (is_digit c ≡ true)
unfolding digits
digits_head zero n h = (b'0' + n % 10, [], refl, ground arith)
digits_head (suc k) n h = elim (Bool-cases (ltb n 10)) [
  | inl small ↦ (b'0' + n, [], rw small, ground arith)
  | inr large ↦
      let (c, s, e, d) = digits_head k (n / 10) (omega arith) in
      (c, s ++ ((b'0' + n % 10) ∷ []), rw large (ground arith), d)
]

skip-digit :
    (c : ℕ) (s : List ℕ) {n : ℕ}
    → is_digit c ≡ true
    → scan (c ∷ s) 0 ≡ some n
    → parse_usize (c ∷ s) ≡ some n
unfolding parse_usize
skip-digit c s {n} d e = ground arith

-- Printing a usize and parsing the text gives the number back.
pub parse_usize-print_usize : (n : ℕ) → n < 2 ^ 64 → parse_usize (print_usize n) ≡ some n
unfolding print_usize
parse_usize-print_usize n h =
    let (c, s, e, d) = digits_head 19 n (omega arith) in
    rw e (skip-digit c s d (rw e at (scan-digits 19 n (omega arith) h)))

-- Every character is an ASCII digit.
abbrev pub IsDigit : ℕ → Type 0
IsDigit c = (b'0' ≤ c) × (c ≤ b'9')

digits-IsDigit : (k n : ℕ) → All IsDigit (digits k n)
unfolding digits
digits-IsDigit zero n = ((omega arith, omega arith), tt)
digits-IsDigit (suc k) n = elim (Bool-cases (ltb n 10)) [
  | inl small ↦ rw small ((omega arith, ground arith), tt)
  | inr large ↦ rw large (
      All-append IsDigit (digits k (n / 10)) ((b'0' + n % 10) ∷ []) (digits-IsDigit k (n / 10))
        ((omega arith, omega arith), tt))
]

pub print_usize-IsDigit : (n : ℕ) → All IsDigit (print_usize n)
unfolding print_usize
print_usize-IsDigit n = digits-IsDigit 19 n
