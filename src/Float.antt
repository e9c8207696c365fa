-- ===== src/Float.antt =====
-- Rust's `f64`, which antt does not have: a type and the operations that the program uses, with
-- the documented behaviour that its correctness rests on. `Float/Fixed` meets it.
pub mod Fixed
use speed_cli.Base.{ℕ, ◌≡◌, ◌⊎◌, Bool, true, ◌<◌, IsU64}
use speed_cli.Base.Time.{Duration}

pub record Float (F : Type 0) : Type 0 where
  -- The literal whose value is the fraction of two numbers, such as 2.77 for 277 and 100.
  pub lit : ℕ → ℕ → F
  -- `as f64`.
  pub of_u64 : ℕ → F
  pub add : F → F → F
  pub sub : F → F → F
  pub mul : F → F → F
  pub div : F → F → F
  pub sqrt : F → F
  pub round : F → F
  -- `f64::max`, `f64::min`.
  pub fmax : F → F → F
  pub fmin : F → F → F
  -- `a <= b` and `a < b`, which are false on a NaN.
  pub le : F → F → Bool
  pub lt : F → F → Bool
  -- `as usize`, which saturates and takes a NaN to 0.
  pub to_usize : F → ℕ
  -- `Duration::as_secs_f64`, `Duration::from_secs_f64`.
  pub as_secs : Duration → F
  pub of_secs : F → Duration

-- The comparisons of numbers that are no NaN, and `f64::max`, which ignores a NaN.
pub record IsOrdered {F : Type 0} (f : Float F) : Type 0 where
  pub le_trans : (a b c : F) → f.le a b ≡ true → f.le b c ≡ true → f.le a c ≡ true
  pub lit_number : (a b : ℕ) → 0 < b → f.le (f.lit a b) (f.lit a b) ≡ true
  -- A comparison that holds is between numbers.
  pub le_numbers : (a b : F) → f.le a b ≡ true → (f.le a a ≡ true) × (f.le b b ≡ true)
  pub le-fmax_left : (a b : F) → f.le a a ≡ true → f.le a (f.fmax a b) ≡ true
  pub le-fmax_right : (a b : F) → f.le b b ≡ true → f.le b (f.fmax a b) ≡ true
  pub fmax_cases : (a b : F) → f.le a a ≡ true → (f.fmax a b ≡ a) ⊎ (f.fmax a b ≡ b)
