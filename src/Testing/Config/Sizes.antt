-- ===== src/Testing/Config/Sizes.antt =====
-- The payload sizes that a configuration of src/report/config.rs holds.
use speed_cli.Base.{
  ℕ, ◌≡◌, ◌≢◌, ◌⊎◌, ◌<◌, refl, ap, sym, ◌∙◌, true, false, List, [], ◌∷◌, arith, inl, inr, is_empty,
  length, Bool-cases,
}
use speed_cli.Testing.Index.{contains, IsDistinct, IndexSet, IsIndexSet}
use speed_cli.Testing.Config.{payload_sizes_of}

absent : (xs : List ℕ) → ((k : ℕ) → contains k xs ≡ false) → xs ≡ []
absent [] h = refl
absent (x ∷ xs) h = ground (arith, h x)

is_empty_lem : (xs : List ℕ) → is_empty xs ≡ true → xs ≡ []
is_empty_lem [] h = refl
is_empty_lem (x ∷ xs) h = ground arith

length_positive : (xs : List ℕ) → is_empty xs ≡ false → 0 < length xs
length_positive [] h = ground arith
length_positive (x ∷ xs) h = omega arith

-- What a test may rely on: there is a payload size, none comes twice, and they are those that were
-- given, or else the default ones.
pub record IsSelection (sizes defaults chosen : List ℕ) : Type 0 where
  pub distinct : IsDistinct chosen
  pub positive : 0 < length chosen
  pub source :
      (sizes ≡ []) × (chosen ≡ defaults)
      ⊎ (sizes ≢ []) × ((k : ℕ) → contains k chosen ≡ contains k sizes)

module _ (s : IndexSet) (is_set : IsIndexSet s) where
  collect_none : (xs : List ℕ) → is_empty (s.collect xs) ≡ true → xs ≡ []
  collect_none xs h =
      absent xs
        (λ k. sym (is_set.contains-collect k xs) ∙ ap (contains k) (is_empty_lem (s.collect xs) h))

  collect_some : (xs : List ℕ) → is_empty (s.collect xs) ≡ false → xs ≢ []
  collect_some xs h e = ground (arith, h, ap s.collect e, is_set.collect_distinct [] tt)

  pub payload_sizes_of-IsSelection :
      (sizes defaults : List ℕ)
      → IsDistinct defaults
      → 0 < length defaults
      → IsSelection sizes defaults (payload_sizes_of s sizes defaults)
  unfolding payload_sizes_of
  payload_sizes_of-IsSelection sizes defaults d p =
      let kept : s.collect defaults ≡ defaults = is_set.collect_distinct defaults d in
      elim (Bool-cases (is_empty (s.collect sizes))) [
        | inl e ↦
            rw (e, kept)
              (record { distinct = d; positive = p; source = inl (collect_none sizes e, refl) })
        | inr e ↦ rw e (record {
          distinct = is_set.collect-IsDistinct sizes;
          positive = length_positive (s.collect sizes) e;
          source = inr (collect_some sizes e, λ k. is_set.contains-collect k sizes);
        })
      ]
