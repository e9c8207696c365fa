-- ===== src/Report/Latency/Figures.antt =====
-- What the figures of a `LatencyResult` say of its measurements.
use speed_cli.Base.{
  suc, ◌+◌, ◌≡◌, refl, ap, inl, inr, ◌≢◌, true, false, none, some, List, [], ◌∷◌, arith, length,
  All, Option-cases,
}
use speed_cli.Float.{Float, IsOrdered}
use speed_cli.Report.Latency.{
  LatencyMeasurement, LatencyResult, filter_rtts, rtts, count, count_rtts, successful_count,
  dropped_count, fold_rtts, max_rtt,
}

module _ {F : Type 0} (f : Float F) where
  split_counts :
      (ms : List (LatencyMeasurement F))
      → (count_rtts f true ms + count_rtts f false ms ≡ length ms)
        × (length (filter_rtts f ms) ≡ count_rtts f true ms)
  unfolding count_rtts filter_rtts
  split_counts [] = (refl, refl)
  split_counts (m ∷ ms) =
      let (k, l) = split_counts ms in
      elim (Option-cases m.rtt_ms) [
        | inl e ↦ simp e (omega (arith, k), l)
        | inr (r, e) ↦ simp e (omega (arith, k), ap suc l)
      ]

  -- Every measurement is counted as successful or as dropped, and the successful ones are those
  -- whose round trip times are listed.
  pub counts_agree :
      (r : LatencyResult F)
      → (successful_count f r + dropped_count f r ≡ count f r)
        × (length (rtts f r) ≡ successful_count f r)
  unfolding successful_count dropped_count rtts
  counts_agree r = split_counts r.measurements

  module _ (o : IsOrdered f) where
    -- `m` is an upper bound of a list.
    abbrev pub Bounds : F → List F → Type 0
    Bounds m rs = All (λ r. f.le r m ≡ true) rs

    fold_rtts-Bounds :
        (rs : List F) (current : F)
        → f.le current current ≡ true
        → All (λ r. f.le r r ≡ true) rs
        → (m : F) × (fold_rtts f f.fmax (some current) rs ≡ some m)
          × (f.le current m ≡ true)
          × Bounds m rs
    unfolding fold_rtts
    fold_rtts-Bounds [] current h n = (current, refl, h, tt)
    fold_rtts-Bounds (r ∷ rs) current h n =
        let top : F = f.fmax r current in
        let up = o.le-fmax_left r current n.0 in
        let over = o.le-fmax_right r current h in
        let (m, e, l, bs) = fold_rtts-Bounds rs top (o.le_numbers r top up).1 n.1 in
        (m, e, o.le_trans current top m over l, (o.le_trans r top m up l, bs))

    -- If some round trip was measured and the times are numbers, `max_rtt` is an upper bound of
    -- them all.
    pub max_rtt_lem :
        (r : LatencyResult F)
        → All (λ t. f.le t t ≡ true) (rtts f r)
        → rtts f r ≢ []
        → (m : F) × (max_rtt f r ≡ some m) × Bounds m (rtts f r)
    unfolding max_rtt fold_rtts
    max_rtt_lem r n nonempty = go (rtts f r) n nonempty
      where
        go :
            (rs : List F)
            → All (λ t. f.le t t ≡ true) rs
            → rs ≢ []
            → (m : F) × (fold_rtts f f.fmax none rs ≡ some m) × Bounds m rs
        go [] n' k = absurd (k refl)
        go (t ∷ ts) n' k = let (m, e, l, bs) = fold_rtts-Bounds ts t n'.0 n'.1 in (m, e, (l, bs))
