-- ===== src/Base/Chunks.antt =====
-- A total cut into pieces of one size, the last one being what is left: `div_ceil` and its laws.
use speed_cli.Base.Tests.{◌==◌, if◌then◌else◌}
use speed_cli.Base.Lists.{sum_of}
use Prim.Native.Nat.{ℕ, zero, suc, ◌+◌, ◌-◌, ◌*◌, ◌/◌, ◌%◌, ◌≤◌, ◌<◌, min}
use mathlib.Core.Path.{◌≡◌, refl}
use mathlib.Core.List.{List, [], ◌∷◌}
use mathlib.Core.Option.{Option, none, some}
use native.Mathlib.Omega.{arith, div_any, mod_fact}
use native.Mathlib.Nat.{mul-le-mul_right}

-- `div_ceil` of the standard library; none is the panic on a zero divisor.
unfoldable pub div_ceil : ℕ → ℕ → Option ℕ
div_ceil a zero = none
div_ceil a (suc k) = some (if a % suc k == 0 then a / suc k else suc (a / suc k))

-- A number of pieces that covers the total, with none that is empty.
pub record IsCover (total size n : ℕ) : Type 0 where
  pub covers : total ≤ n * size
  pub tight : n * size < total + size

pub suc_mul : (i size : ℕ) → suc i * size ≡ size + i * size
suc_mul i size = omega arith

ceil-IsCover :
    (a size q r : ℕ) → size * q + r ≡ a → r < size → IsCover a size (if r == 0 then q else suc q)
ceil-IsCover a size q r e h = record {
  covers = ground (arith, suc_mul q size);
  tight = ground (arith, suc_mul q size);
}

pub div_ceil-IsCover :
    (total size : ℕ) → 0 < size → (n : ℕ) × (div_ceil total size ≡ some n) × IsCover total size n
unfolding div_ceil
div_ceil-IsCover total zero h = ground arith
div_ceil-IsCover total (suc k) h = (
  if total % suc k == 0 then total / suc k else suc (total / suc k),
  refl,
  ceil-IsCover total (suc k) (total / suc k) (total % suc k) (div_any total (suc k))
      (mod_fact total k),
)

-- The lengths of the pieces from the i-th on, n of them.
unfoldable pub pieces : ℕ → ℕ → ℕ → ℕ → List ℕ
pieces total size i zero = []
pieces total size i (suc n) = min size (total - i * size) ∷ pieces total size (suc i) n

sum_pieces_from :
    (total size i n : ℕ)
    → sum_of (λ k. k) (pieces total size i n) ≡ min (n * size) (total - i * size)
unfolding pieces
sum_pieces_from total size i zero = omega arith
sum_pieces_from total size i (suc n) =
    omega (arith, sum_pieces_from total size (suc i) n, suc_mul i size, suc_mul n size)

pub sum_pieces :
    {total size n : ℕ} → IsCover total size n → sum_of (λ k. k) (pieces total size 0 n) ≡ total
sum_pieces {total} {size} {n} c = omega (arith, sum_pieces_from total size 0 n, c.covers)

-- A piece within the cover starts before the end of the total.
pub start_below : {total size i n : ℕ} → IsCover total size n → i < n → i * size < total
start_below {total} {size} {i} {n} c h =
    omega (arith, c.tight, mul-le-mul_right {m = suc i} {n = n} size h, suc_mul i size)
