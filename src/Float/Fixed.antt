-- ===== src/Float/Fixed.antt =====
-- Thousandths as natural numbers: operations that meet `Float` and its laws, for the examples.
use speed_cli.Base.{ℕ, ◌+◌, ◌-◌, ◌*◌, ◌/◌, ◌^◌, arith, ltb, leb, max, min}
use speed_cli.Float.{Float, IsOrdered}

abbrev pub fixed : Float ℕ
fixed = record {
  lit = λ a b. a * 1000 / b;
  of_u64 = λ n. n * 1000;
  add = λ a b. a + b;
  sub = λ a b. a - b;
  mul = λ a b. a * b / 1000;
  div = λ a b. a * 1000 / b;
  sqrt = λ a. a;
  round = λ a. (a + 500) / 1000 * 1000;
  fmax = λ a b. max a b;
  fmin = λ a b. min a b;
  le = leb;
  lt = ltb;
  to_usize = λ a. min (a / 1000) (2 ^ 64 - 1);
  as_secs = λ d. d / 1_000_000;
  of_secs = λ a. a * 1_000_000;
}

pub fixed-IsOrdered : IsOrdered fixed
fixed-IsOrdered = record {
  le_trans = λ a b c p q. ground arith;
  lit_number = λ a b h. ground arith;
  le_numbers = λ a b p. (ground arith, ground arith);
  le-fmax_left = λ a b p. ground arith;
  le-fmax_right = λ a b p. ground arith;
  fmax_cases = λ a b p. ground arith;
}
