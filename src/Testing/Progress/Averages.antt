-- ===== src/Testing/Progress/Averages.antt =====
-- What the progress bars of src/utils/instrumentation.rs show, next to what the reports give.
use speed_cli.Base.{
  suc, ◌+◌, ◌⊎◌, ◌≡◌, refl, sym, ap, ◌∙◌, inl, inr, ℕ, Option, none, some, List, [], ◌∷◌, arith,
  ltb, if◌then◌else◌, is_empty, length, Option-cases, Bool-cases, true,
}
use speed_cli.Base.Decimal.{print_usize}
use speed_cli.Base.Text.{Text, codes, format}
use speed_cli.Base.Time.{Duration}
use speed_cli.Float.{Float}
use speed_cli.Report.Latency.{
  LatencyMeasurement, LatencyResult, filter_rtts, sum_rtts, avg_rtt, sum_floats,
}
use speed_cli.Testing.Config.{unwrap_or}
use speed_cli.Html.Configs.{as_secs}
use speed_cli.Display.{Print}
use speed_cli.Testing.Progress.{
  ProgressBar, ProgressBarType, Turn, create_progress_bar, turn_message, set_position,
  set_some_message, progress_loop, latency_message, finish,
}

module _ {F : Type 0} (f : Float F) where
  sum_rtts-sum_floats :
      (sum : F) (n : ℕ) (ms : List (LatencyMeasurement F))
      → sum_rtts f sum n ms ≡ (sum_floats f sum (filter_rtts f ms), n + length (filter_rtts f ms))
  unfolding sum_rtts filter_rtts
  sum_rtts-sum_floats sum n [] = ap (λ k. (sum, k)) {y = n + 0} (omega arith)
  sum_rtts-sum_floats sum n (m ∷ ms) = elim (Option-cases m.rtt_ms) [
    | inl e ↦ rw e (sum_rtts-sum_floats sum n ms)
    | inr (r, e) ↦ rw e (
        sum_rtts-sum_floats (f.add sum r) (n + 1) ms
        ∙ ap (λ k. (sum_floats f (f.add sum r) (filter_rtts f ms), k))
            {y = n + suc (length (filter_rtts f ms))} (omega arith))
  ]

  -- The average of a list of round trips, in the form of the progress task.
  average : List F → Option F
  average rs =
      if is_empty rs
      then none
      else some (f.div (sum_floats f (f.lit 0 1) rs) (f.of_u64 (length rs)))

  average_counted :
      (rs : List F) (n : ℕ)
      → n ≡ length rs
      → (if ltb 0 n then some (f.div (sum_floats f (f.lit 0 1) rs) (f.of_u64 n)) else none)
        ≡ average rs
  unfolding average
  average_counted [] n e = rw e refl
  average_counted (r ∷ rs) n e =
      let some_counted : ltb 0 (suc (length rs)) ≡ true = ground arith in rw (e, some_counted) refl

  avg_rtt-average : (r : LatencyResult F) → avg_rtt f r ≡ average (filter_rtts f r.measurements)
  unfolding avg_rtt
  avg_rtt-average r = rw (sum_rtts-sum_floats (f.lit 0 1) 0 r.measurements) (
      average_counted (filter_rtts f r.measurements) (0 + length (filter_rtts f r.measurements))
        (omega arith))

-- A turn had the reading for the rates and saw the list.
abbrev pub Saw : {A : Type 0} → Duration → List A → List (Turn A) → Type 0
Saw elapsed ms [] = ⊥
Saw elapsed ms (t ∷ ts) = ((t.elapsed_rate ≡ elapsed) × (t.locked ≡ some ms)) ⊎ Saw elapsed ms ts

module _ {A : Type 0} (message_of : Duration → List A → Option Text) where
  -- What the task of a progress bar leaves.
  Left : Duration → List (Turn A) → ProgressBar → ProgressBar → Type 0
  Left duration ts bar end =
      (end.position ≡ as_secs duration)
      × (end.bar_length ≡ bar.bar_length)
      × ((end.message ≡ bar.message)
          ⊎ ((elapsed : Duration) × (ms : List A) × (message_of elapsed ms ≡ some end.message)
              × Saw elapsed ms ts))

  turn_message-cases :
      (t : Turn A)
      → (turn_message message_of t ≡ none)
        ⊎ ((message : Text) × (ms : List A) × (turn_message message_of t ≡ some message)
            × (message_of t.elapsed_rate ms ≡ some message)
            × (t.locked ≡ some ms))
  unfolding turn_message
  turn_message-cases t = elim (Option-cases t.locked) [
    | inl e ↦ rw e (inl refl)
    | inr (ms, e) ↦ rw e (elim (Bool-cases (is_empty ms)) [
      | inl none_yet ↦ rw none_yet (inl refl)
      | inr some_yet ↦ rw some_yet (elim (Option-cases (message_of t.elapsed_rate ms)) [
        | inl k ↦ inl k
        | inr (message, k) ↦ inr (message, ms, k, k, refl)
      ])
    ])
  ]

  progress_loop-Left :
      (duration : Duration) (ts : List (Turn A)) (bar : ProgressBar)
      → Left duration ts bar (progress_loop message_of duration bar ts)
  unfolding progress_loop Left
  progress_loop-Left duration [] bar = (refl, refl, inl refl)
  progress_loop-Left duration (t ∷ ts) bar = elim (Bool-cases (ltb t.elapsed duration)) [
    | inr late ↦ rw late (refl, refl, inl refl)
    | inl early ↦ rw early (elim (turn_message-cases t) [
      | inl e ↦
          let (full, same, shown) =
            progress_loop-Left duration ts (set_position (as_secs t.elapsed_position) bar) in
          rw e (
            full,
            same,
            elim shown [
              | inl kept ↦ inl kept
              | inr (elapsed, ms, k, saw) ↦ inr (elapsed, ms, k, inr saw)
            ],
          )
      | inr (message, ms, e, k, seen) ↦
          let next : ProgressBar =
            set_some_message (some message) (set_position (as_secs t.elapsed_position) bar) in
          let (full, same, shown) = progress_loop-Left duration ts next in
          rw e (
            full,
            same,
            inr (elim shown [
              | inl kept ↦ (t.elapsed_rate, ms, k ∙ ap some (sym kept), inl (refl, seen))
              | inr (elapsed, ms', k', saw) ↦ (elapsed, ms', k', inr saw)
            ]),
          )
    ])
  ]

module _ {F T : Type 0} (f : Float F) (p : Print F T) where
  latency_message-some :
      (elapsed : Duration) (ms : List (LatencyMeasurement F)) (message : Text)
      → latency_message f p elapsed ms ≡ some message
      → (avg : F) × (avg_rtt f (record { measurements = ms }) ≡ some avg)
        × (message
            ≡ format (
                codes "Avg latency: "
                ∷ p.texts.two_decimals avg
                ∷ codes "ms | Conn/s: "
                ∷ p.one_decimal (f.div (f.of_u64 (length ms)) (f.as_secs elapsed))
                ∷ codes " | Connections: "
                ∷ print_usize (length ms)
                ∷ []))
  unfolding latency_message average
  latency_message-some elapsed ms message e =
      let counted = avg_rtt-average f (record { measurements = ms }) in
      elim (Bool-cases (is_empty (filter_rtts f ms))) [
        | inl none_yet ↦ absurd (ground (arith, none_yet, e))
        | inr some_yet ↦
            (_, rw some_yet at counted, sym (ap (λ o. unwrap_or o message) (rw some_yet at e)))
      ]

  -- The task of the bar of a latency test leaves it full, whatever it saw. The message is then the
  -- first one or shows an average, which is the one that the report gives of the measurements in one
  -- of the turns. After that, `finish` shows its own message on the bar, which stays full, and gives
  -- back the measurements.
  pub finish-progress_loop :
      (type : ProgressBarType) (duration : Duration) (turns : List (Turn (LatencyMeasurement F)))
      (measurements : List (LatencyMeasurement F)) (message : Text)
      → let start = create_progress_bar type duration in
        let end = progress_loop (latency_message f p) duration start turns in
        let (bar, given) = finish end measurements message in
        (end.position ≡ end.bar_length)
        × ((end.message ≡ start.message)
            ⊎ ((elapsed : Duration) × (ms : List (LatencyMeasurement F)) × Saw elapsed ms turns
                × (avg : F) × (avg_rtt f (record { measurements = ms }) ≡ some avg)
                × (end.message
                    ≡ format (
                        codes "Avg latency: "
                        ∷ p.texts.two_decimals avg
                        ∷ codes "ms | Conn/s: "
                        ∷ p.one_decimal (f.div (f.of_u64 (length ms)) (f.as_secs elapsed))
                        ∷ codes " | Connections: "
                        ∷ print_usize (length ms)
                        ∷ []))))
        × (bar.message ≡ message)
        × (bar.position ≡ as_secs duration)
        × (bar.bar_length ≡ as_secs duration)
        × (given ≡ measurements)
  unfolding create_progress_bar Left finish
  finish-progress_loop type duration turns measurements message =
      let start = create_progress_bar type duration in
      let (full, same, shown) = progress_loop-Left (latency_message f p) duration turns start in
      (
        full ∙ sym same,
        elim shown [
          | inl first ↦ inl first
          | inr (elapsed, ms, e, saw) ↦
              let (avg, counted, shows) = latency_message-some elapsed ms _ e in
              inr (elapsed, ms, saw, avg, counted, shows)
        ],
        refl,
        same,
        same,
        refl,
      )
