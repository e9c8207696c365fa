-- ===== src/Report/Latency.antt =====
-- src/report/result/latency.rs: the figures of a latency test. The printing is in Display, the time
-- stamp in Html. `sort_by` of the standard library is written as a stable insertion sort.
pub mod Figures
pub mod Percentile
use speed_cli.Base.{
  ℕ, zero, suc, ◌+◌, ◌-◌, ◌&&◌, Bool, true, false, Option, none, some, List, [], ◌∷◌, ltb, not,
  if◌then◌else◌, length, is_empty, get_elem?, map,
}
use speed_cli.Base.Time.{Duration}
use speed_cli.Float.{Float}

pub record LatencyMeasurement (F : Type 0) : Type 0 where
  pub rtt_ms : Option F
  pub elapsed_time : Duration

pub record LatencyResult (F : Type 0) : Type 0 where
  pub measurements : List (LatencyMeasurement F)

module _ {F : Type 0} (f : Float F) where
  unfoldable pub filter_rtts : List (LatencyMeasurement F) → List F
  filter_rtts [] = []
  filter_rtts (m ∷ ms) = elim m.rtt_ms [ none ↦ filter_rtts ms | some r ↦ r ∷ filter_rtts ms ]

  unfoldable pub rtts : LatencyResult F → List F
  unfolding filter_rtts
  rtts r = filter_rtts r.measurements

  abbrev pub count : LatencyResult F → ℕ
  count r = length r.measurements

  abbrev pub is_some : Option F → Bool
  is_some none = false
  is_some (some r) = true

  -- `filter(..).count()`, on the measurements whose `is_some` is the given one.
  unfoldable pub count_rtts : Bool → List (LatencyMeasurement F) → ℕ
  count_rtts wanted [] = 0
  count_rtts wanted (m ∷ ms) =
      let rest = count_rtts wanted ms in
      if is_some m.rtt_ms
      then (if wanted then suc rest else rest)
      else (if wanted then rest else suc rest)

  unfoldable pub successful_count : LatencyResult F → ℕ
  successful_count r = count_rtts true r.measurements

  unfoldable pub dropped_count : LatencyResult F → ℕ
  dropped_count r = count_rtts false r.measurements

  -- The sum and the count of the loop in `avg_rtt`.
  unfoldable pub sum_rtts : F → ℕ → List (LatencyMeasurement F) → F × ℕ
  sum_rtts sum n [] = (sum, n)
  sum_rtts sum n (m ∷ ms) = elim m.rtt_ms [
    | none ↦ sum_rtts sum n ms
    | some rtt ↦ sum_rtts (f.add sum rtt) (n + 1) ms
  ]

  unfoldable pub avg_rtt : LatencyResult F → Option F
  unfolding sum_rtts
  avg_rtt r =
      let (sum, n) = sum_rtts (f.lit 0 1) 0 r.measurements in
      if ltb 0 n then some (f.div sum (f.of_u64 n)) else none

  -- `fold(None, ..)` with `f64::min` or `f64::max`.
  unfoldable pub fold_rtts : (F → F → F) → Option F → List F → Option F
  fold_rtts pick acc [] = acc
  fold_rtts pick none (rtt ∷ rs) = fold_rtts pick (some rtt) rs
  fold_rtts pick (some current) (rtt ∷ rs) = fold_rtts pick (some (pick rtt current)) rs

  unfoldable pub min_rtt : LatencyResult F → Option F
  unfolding fold_rtts rtts
  min_rtt r = fold_rtts f.fmin none (rtts r)

  unfoldable pub max_rtt : LatencyResult F → Option F
  unfolding fold_rtts rtts
  max_rtt r = fold_rtts f.fmax none (rtts r)

  unfoldable pub insert : F → List F → List F
  insert x [] = x ∷ []
  insert x (y ∷ ys) = let rest = insert x ys in if f.lt y x then y ∷ rest else x ∷ y ∷ ys

  unfoldable pub sort : List F → List F
  unfolding insert
  sort [] = []
  sort (x ∷ xs) = insert x (sort xs)

  -- `n == c` for a literal `c`, which is no NaN.
  abbrev pub equals : F → F → Bool
  equals a c = f.le a c && f.le c a

  -- None stands for an index out of range as well, at which `rtts[index]` panics.
  unfoldable pub percentile_rtt : LatencyResult F → F → Option F
  unfolding sort rtts
  percentile_rtt r n =
      let sorted = sort (rtts r) in
      let last = length sorted - 1 in
      if not (f.le (f.lit 0 1) n && f.le n (f.lit 100 1))
      then none
      else if is_empty (rtts r)
      then none
      else if equals n (f.lit 0 1)
      then get_elem? sorted 0
      else if equals n (f.lit 100 1)
      then get_elem? sorted last
      else get_elem? sorted (f.to_usize (f.round (f.mul (f.div n (f.lit 100 1)) (f.of_u64 last))))

  abbrev pub sum_floats : F → List F → F
  sum_floats acc [] = acc
  sum_floats acc (x ∷ xs) = sum_floats (f.add acc x) xs

  -- The standard deviation; `powi(2)` is the product.
  unfoldable pub jitter : LatencyResult F → Option F
  unfolding avg_rtt rtts
  jitter r = elim (avg_rtt r) [
    | none ↦ none
    | some mean ↦
        if is_empty (rtts r)
        then none
        else some (
            f.sqrt (
              f.div
                (sum_floats (f.lit 0 1)
                  (map (λ rtt. f.mul (f.sub rtt mean) (f.sub rtt mean)) (rtts r)))
                (f.of_u64 (length (rtts r)))))
  ]
