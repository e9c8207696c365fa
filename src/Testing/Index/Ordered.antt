-- ===== src/Testing/Index/Ordered.antt =====
-- Lists that keep the order of insertion, which meet the laws of the set and of the map.
use speed_cli.Base.{
  ℕ, ◌≡◌, refl, ap, ◌++◌, ◌==◌, false, List, [], ◌∷◌, arith, if◌then◌else◌, Bool-cases, inl, inr,
}
use speed_cli.Testing.Index.{contains, IsDistinct, IndexSet, IsIndexSet, IndexMap, IsIndexMap, keys}

remove : ℕ → List ℕ → List ℕ
remove k [] = []
remove k (x ∷ xs) = let rest = remove k xs in if x == k then rest else x ∷ rest

-- The first of each group of equal numbers.
firsts : List ℕ → List ℕ
firsts [] = []
firsts (x ∷ xs) = x ∷ remove x (firsts xs)

contains-remove :
    (k j : ℕ) (xs : List ℕ) → contains k (remove j xs) ≡ (if k == j then false else contains k xs)
unfolding remove
contains-remove k j [] = ground arith
contains-remove k j (x ∷ xs) = ground (arith, contains-remove k j xs)

remove-IsDistinct : (j : ℕ) (xs : List ℕ) → IsDistinct xs → IsDistinct (remove j xs)
unfolding remove
remove-IsDistinct j [] h = tt
remove-IsDistinct j (x ∷ xs) h = elim (Bool-cases (x == j)) [
  | inl e ↦ rw e (remove-IsDistinct j xs h.1)
  | inr e ↦ rw e (ground (arith, contains-remove x j xs), remove-IsDistinct j xs h.1)
]

remove_absent : (j : ℕ) (xs : List ℕ) → contains j xs ≡ false → remove j xs ≡ xs
unfolding remove
remove_absent j [] h = refl
remove_absent j (x ∷ xs) h = ground (arith, remove_absent j xs)

firsts-IsDistinct : (xs : List ℕ) → IsDistinct (firsts xs)
unfolding firsts
firsts-IsDistinct [] = tt
firsts-IsDistinct (x ∷ xs) = (
  ground (arith, contains-remove x x (firsts xs)),
  remove-IsDistinct x (firsts xs) (firsts-IsDistinct xs),
)

contains-firsts : (k : ℕ) (xs : List ℕ) → contains k (firsts xs) ≡ contains k xs
unfolding firsts
contains-firsts k [] = refl
contains-firsts k (x ∷ xs) = ground (arith, contains-remove k x (firsts xs), contains-firsts k xs)

firsts_distinct : (xs : List ℕ) → IsDistinct xs → firsts xs ≡ xs
unfolding firsts
firsts_distinct [] h = refl
firsts_distinct (x ∷ xs) h = rw (firsts_distinct xs h.1) (ap (◌∷◌ x) (remove_absent x xs h.0))

unfoldable pub ordered_set : IndexSet
unfolding firsts remove
ordered_set = record { collect = firsts }

pub ordered_set-IsIndexSet : IsIndexSet ordered_set
unfolding ordered_set
ordered_set-IsIndexSet = record {
  collect-IsDistinct = firsts-IsDistinct;
  contains-collect = contains-firsts;
  collect_distinct = firsts_distinct;
}

module _ {V : Type 0} where
  store : ℕ → V → List (ℕ × V) → List (ℕ × V)
  store k v [] = (k, v) ∷ []
  store k v ((j, w) ∷ es) = let rest = store k v es in if j == k then (j, v) ∷ es else (j, w) ∷ rest

  unfoldable pub ordered_map : IndexMap V (List (ℕ × V))
  unfolding store
  ordered_map = record { new_map = []; insert = store; entries = λ es. es }

  store_last :
      (k : ℕ) (v : V) (es : List (ℕ × V))
      → contains k (keys ordered_map es) ≡ false
      → store k v es ≡ es ++ ((k, v) ∷ [])
  unfolding store ordered_map
  store_last k v [] h = refl
  store_last k v ((j, w) ∷ es) h = ground (arith, store_last k v es)

  pub ordered_map-IsIndexMap : IsIndexMap ordered_map
  unfolding ordered_map
  ordered_map-IsIndexMap = record { entries-new_map = refl; entries-insert = store_last }
