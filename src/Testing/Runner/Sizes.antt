-- ===== src/Testing/Runner/Sizes.antt =====
-- Lists of payload sizes without repetition, as a client's run goes through them.
use speed_cli.Base.{
  ℕ, ◌≡◌, refl, ap, sym, Bool, true, false, List, [], ◌∷◌, ◌++◌, ◌==◌, ◌||◌, arith, All, append_nil,
  append_assoc,
}
use speed_cli.Base.Outcome.{Result, ok, err}
use speed_cli.Testing.Index.{contains}
use speed_cli.Testing.Runner.Plan.{tested}

from_ok {ℓ} : {A : Type ℓ} → A → Result A → A
from_ok x (ok y) = y
from_ok x (err message) = x

pub ok-injective {ℓ} : {A : Type ℓ} (x y : A) → ok x ≡ ok y → x ≡ y
unfolding from_ok
ok-injective x y e = ap (from_ok x) e

contains-append :
    (j : ℕ) (xs ys : List ℕ) → contains j (xs ++ ys) ≡ (contains j xs || contains j ys)
contains-append j [] ys = refl
contains-append j (x ∷ xs) ys = ground (arith, contains-append j xs ys)

fresh_one :
    (wanted : Bool) (ds : List ℕ) (k j : ℕ)
    → contains j ds ≡ false
    → (k == j) ≡ false
    → contains j (ds ++ tested wanted (k ∷ [])) ≡ false
fresh_one true ds k j h n = ground (arith, contains-append j ds (k ∷ []))
fresh_one false ds k j h n = ground (arith, contains-append j ds [])

-- A number that was tested is not among the later ones.
pub fresh_after :
    (wanted : Bool) (ds : List ℕ) (k : ℕ) (ks : List ℕ)
    → All (λ j. contains j ds ≡ false) ks
    → contains k ks ≡ false
    → All (λ j. contains j (ds ++ tested wanted (k ∷ [])) ≡ false) ks
fresh_after wanted ds k [] h n = tt
fresh_after wanted ds k (j ∷ ks) h n =
    (fresh_one wanted ds k j h.0 (ground arith), fresh_after wanted ds k ks h.1 (ground arith))

pub tested_nil : (wanted : Bool) (ds : List ℕ) → ds ++ tested wanted [] ≡ ds
tested_nil true ds = append_nil ds
tested_nil false ds = append_nil ds

pub tested_cons :
    (wanted : Bool) (ds : List ℕ) (k : ℕ) (ks : List ℕ)
    → ds ++ tested wanted (k ∷ ks) ≡ (ds ++ tested wanted (k ∷ [])) ++ tested wanted ks
tested_cons true ds k ks = sym (append_assoc ds (k ∷ []) ks)
tested_cons false ds k ks = ap (λ xs. xs ++ []) {x = ds} {y = ds ++ []} (sym (append_nil ds))

pub fresh_nil : (ks : List ℕ) → All (λ k. contains k [] ≡ false) ks
fresh_nil [] = tt
fresh_nil (k ∷ ks) = (refl, fresh_nil ks)
