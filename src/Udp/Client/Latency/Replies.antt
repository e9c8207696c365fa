-- ===== src/Udp/Client/Latency/Replies.antt =====
-- What the latency loop of src/performance/udp/client.rs counts.
use speed_cli.Base.{
  ℕ, suc, ◌+◌, ◌≤◌, ◌≡◌, refl, ◌⊎◌, inl, inr, List, [], ◌∷◌, ◌++◌, none, some, Bool, true, false,
  arith, ltb, length, length-append, is_empty, Bool-cases, Option-cases, if◌then◌else◌,
}
use speed_cli.Base.Time.{Duration}
use speed_cli.Float.{Float}
use speed_cli.Report.Latency.{
  LatencyMeasurement, LatencyResult, count, count_rtts, successful_count,
}
use speed_cli.Udp.Buf.{ByteBuf}
use speed_cli.Udp.Protocol.{decode}
use speed_cli.Udp.Client.Latency.{
  Reply, unconnected, unsent, answered, silent, Turn, rtt_of_reply, latency_loop,
  measure_udp_latency,
}

module _ (b : ByteBuf) where
  -- A packet came back.
  abbrev pub is_valid : Reply → Bool
  is_valid unconnected = false
  is_valid unsent = false
  is_valid silent = false
  is_valid (answered d took) = elim (decode b d) [ none ↦ false | some packet ↦ true ]

  -- The turns before the first late one, and those of them in which a packet came back.
  unfoldable pub turns : Duration → List Turn → ℕ × ℕ
  turns duration [] = (0, 0)
  turns duration (t ∷ ts) = elim (ltb t.elapsed duration) [
    | false ↦ (0, 0)
    | true ↦
        let (n, valid) = turns duration ts in (suc n, if is_valid t.reply then suc valid else valid)
  ]

module _ {F : Type 0} (f : Float F) (b : ByteBuf) where
  count_rtts-append :
      (ms ns : List (LatencyMeasurement F))
      → count_rtts f true (ms ++ ns) ≡ count_rtts f true ms + count_rtts f true ns
  unfolding count_rtts
  count_rtts-append [] ns = omega arith
  count_rtts-append (m ∷ ms) ns = ground (arith, count_rtts-append ms ns)

  count_one :
      (r : Reply) (elapsed : Duration)
      → count_rtts f true ((record { rtt_ms = rtt_of_reply f b r; elapsed_time = elapsed }) ∷ [])
        ≡ (if is_valid b r then 1 else 0)
  unfolding count_rtts rtt_of_reply
  count_one unconnected elapsed = refl
  count_one unsent elapsed = refl
  count_one silent elapsed = refl
  count_one (answered d took) elapsed = elim (Option-cases (decode b d)) [
    | inl e ↦ ground (arith, e)
    | inr (p, e) ↦ ground (arith, e)
  ]

  latency_loop_counts :
      (duration : Duration) (ms : List (LatencyMeasurement F)) (ts : List Turn)
      → let ms' = latency_loop f b duration ms ts in
        (length ms' ≡ length ms + (turns b duration ts).0)
        × (count_rtts f true ms' ≡ count_rtts f true ms + (turns b duration ts).1)
  unfolding latency_loop turns
  latency_loop_counts duration ms [] = (omega arith, omega arith)
  latency_loop_counts duration ms (t ∷ ts) = elim (Bool-cases (ltb t.elapsed duration)) [
    | inr late ↦ rw (late, latency_loop, turns) (omega arith, omega arith)
    | inl early ↦
        let m : LatencyMeasurement F = record {
          rtt_ms = rtt_of_reply f b t.reply;
          elapsed_time = t.elapsed_time;
        } in
        let (l, c) = latency_loop_counts duration (ms ++ (m ∷ [])) ts in
        rw (early, latency_loop, turns)
          (
            omega (arith, l, length-append ms (m ∷ [])),
            ground (arith, c, count_rtts-append ms (m ∷ []), count_one t.reply t.elapsed_time),
          )
  ]

  no_items : (ms : List (LatencyMeasurement F)) → is_empty ms ≡ true → length ms ≡ 0
  no_items [] e = refl
  no_items (m ∷ ms) e = ground arith

  some_items : (ms : List (LatencyMeasurement F)) → is_empty ms ≡ false → 1 ≤ length ms
  some_items [] e = ground arith
  some_items (m ∷ ms) e = omega arith

  -- A latency test gives no result exactly when no turn began in time. Else it has a measurement
  -- for each turn that began in time, and those count as successful in which a packet came back.
  pub measure_udp_latency_lem :
      (duration : Duration) (ts : List Turn)
      → let (n, valid) = turns b duration ts in
        (measure_udp_latency f b duration ts ≡ none) × (n ≡ 0)
        ⊎ (1 ≤ n)
          × ((r : LatencyResult F) × (measure_udp_latency f b duration ts ≡ some r)
              × (count f r ≡ n)
              × (successful_count f r ≡ valid))
  unfolding measure_udp_latency successful_count count_rtts
  measure_udp_latency_lem duration ts =
      let ms : List (LatencyMeasurement F) = latency_loop f b duration [] ts in
      let (l, c) = latency_loop_counts duration [] ts in
      elim (Bool-cases (is_empty ms)) [
        | inl none_came ↦ inl (simp none_came refl, omega (arith, l, no_items ms none_came))
        | inr some_came ↦ inr (
          omega (arith, l, some_items ms some_came),
          (record { measurements = ms }, simp some_came refl, omega (arith, l), omega (arith, c)),
        )
      ]
