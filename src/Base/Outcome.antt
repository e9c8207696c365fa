-- ===== src/Base/Outcome.antt =====
-- `Result` with an error that is a message, the list of its characters, and the `?` operator.
use Prim.Native.Nat.{ℕ}
use mathlib.Core.List.{List}

pub data Result {ℓ} (A : Type ℓ) : Type ℓ where
  ok : A → Result A
  err : List ℕ → Result A

infixl 5 ◌>>=◌
abbrev pub ◌>>=◌ {ℓ κ} : {A : Type ℓ} {B : Type κ} → Result A → (A → Result B) → Result B
ok a >>= f = f a
err message >>= f = err message
