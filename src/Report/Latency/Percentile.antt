-- ===== src/Report/Latency/Percentile.antt =====
-- The percentiles of src/report/result/latency.rs.
use speed_cli.Base.{
  ℕ, zero, suc, ◌-◌, ◌≡◌, ◌⊎◌, inl, inr, true, none, some, List, [], ◌∷◌, arith, length, get_elem?,
  Bool-cases, Option-cases,
}
use speed_cli.Float.{Float}
use speed_cli.Report.Latency.{LatencyResult, rtts, insert, sort, percentile_rtt, equals}

module _ {F : Type 0} (f : Float F) where
  -- A value is one of a list.
  abbrev pub Among : F → List F → Type 0
  Among p [] = ⊥
  Among p (x ∷ xs) = (p ≡ x) ⊎ Among p xs

  Among-get_elem : (xs : List F) (i : ℕ) (p : F) → get_elem? xs i ≡ some p → Among p xs
  Among-get_elem [] i p e = ground arith
  Among-get_elem (x ∷ xs) zero p e = inl (ground arith)
  Among-get_elem (x ∷ xs) (suc i) p e = inr (Among-get_elem xs i p e)

  Among-insert : (x p : F) (ys : List F) → Among p (insert f x ys) → (p ≡ x) ⊎ Among p ys
  unfolding insert
  Among-insert x p [] h = h
  Among-insert x p (y ∷ ys) h = elim (Bool-cases (f.lt y x)) [
    | inr here ↦ rw (here, insert) at h
    | inl later ↦ elim (rw (later, insert) at h) [
      | inl e ↦ inr (inl e)
      | inr k ↦ elim (Among-insert x p ys k) [ inl e ↦ inl e | inr a ↦ inr (inr a) ]
    ]
  ]

  Among-sort : (p : F) (xs : List F) → Among p (sort f xs) → Among p xs
  unfolding sort
  Among-sort p [] h = h
  Among-sort p (x ∷ xs) h = elim (Among-insert x p (sort f xs) h) [
    | inl e ↦ inl e
    | inr k ↦ inr (Among-sort p xs k)
  ]

  percentile_measured :
      (r : LatencyResult F) (n p : F) → percentile_rtt f r n ≡ some p → Among p (rtts f r)
  unfolding percentile_rtt
  percentile_measured r n p e =
      let sorted : List F = sort f (rtts f r) in
      let last : ℕ = length sorted - 1 in
      let at : ℕ = f.to_usize (f.round (f.mul (f.div n (f.lit 100 1)) (f.of_u64 last))) in
      Among-sort p (rtts f r) (elim (Bool-cases (equals f n (f.lit 0 1))) [
        | inl first ↦ Among-get_elem sorted 0 p (ground (arith, e, first))
        | inr above ↦ elim (Bool-cases (equals f n (f.lit 100 1))) [
          | inl end ↦ Among-get_elem sorted last p (ground (arith, e, above, end))
          | inr below ↦ Among-get_elem sorted at p (ground (arith, e, above, below))
        ]
      ])

  in_range :
      (r : LatencyResult F) (n p : F)
      → percentile_rtt f r n ≡ some p
      → (f.le (f.lit 0 1) n ≡ true) × (f.le n (f.lit 100 1) ≡ true)
  unfolding percentile_rtt
  in_range r n p e = (ground (arith, e), ground (arith, e))

  -- A percentile is none or one of the measured round trip times, and the latter only for a rank
  -- from 0 to 100.
  pub percentile_rtt_lem :
      (r : LatencyResult F) (n : F)
      → (percentile_rtt f r n ≡ none)
        ⊎ (p : F) × (percentile_rtt f r n ≡ some p)
          × Among p (rtts f r)
          × (f.le (f.lit 0 1) n ≡ true)
          × (f.le n (f.lit 100 1) ≡ true)
  percentile_rtt_lem r n = elim (Option-cases (percentile_rtt f r n)) [
    | inl e ↦ inl e
    | inr (p, e) ↦
        let (low, high) = in_range r n p e in inr (p, e, percentile_measured r n p e, low, high)
  ]
