-- ===== src/Testing/Index.antt =====
-- What the program takes from the `indexmap` crate: a set collected from a sequence, and a map, both
-- iterated in the order of insertion. Their documented behaviour is stated as laws.
pub mod Ordered
use speed_cli.Base.{ℕ, ◌≡◌, ◌++◌, ◌==◌, ◌||◌, Bool, true, false, List, [], ◌∷◌, map}

abbrev pub contains : ℕ → List ℕ → Bool
contains k [] = false
contains k (x ∷ xs) = (x == k) || contains k xs

abbrev pub IsDistinct : List ℕ → Type 0
IsDistinct [] = Unit
IsDistinct (x ∷ xs) = (contains x xs ≡ false) × IsDistinct xs

-- `collect::<IndexSet<usize>>()`, a set being the list that its iterator gives.
pub record IndexSet : Type 0 where
  pub collect : List ℕ → List ℕ

pub record IsIndexSet (s : IndexSet) : Type 0 where
  pub collect-IsDistinct : (xs : List ℕ) → IsDistinct (s.collect xs)
  pub contains-collect : (k : ℕ) (xs : List ℕ) → contains k (s.collect xs) ≡ contains k xs
  pub collect_distinct : (xs : List ℕ) → IsDistinct xs → s.collect xs ≡ xs

-- A map from numbers, with what its iterator gives.
pub record IndexMap (V M : Type 0) : Type 0 where
  pub new_map : M
  pub insert : ℕ → V → M → M
  pub entries : M → List (ℕ × V)

module _ {V M : Type 0} (m : IndexMap V M) where
  abbrev pub keys : M → List ℕ
  keys d = map (λ e. e.0) (m.entries d)

  pub record IsIndexMap : Type 0 where
    pub entries-new_map : m.entries m.new_map ≡ []
    -- A new key comes last.
    pub entries-insert :
        (k : ℕ) (v : V) (d : M)
        → contains k (keys d) ≡ false
        → m.entries (m.insert k v d) ≡ m.entries d ++ ((k, v) ∷ [])
