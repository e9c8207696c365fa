-- ===== src/Testing/Probes/Measures.antt =====
-- What the latency loops of the TCP and HTTP clients measure.
use speed_cli.Base.{
  ◌≡◌, refl, sym, ◌∙◌, List, [], ◌∷◌, ◌++◌, Option, none, some, ltb, inl, inr, map, append_assoc,
  append_nil, is_empty, if◌then◌else◌, Bool-cases,
}
use speed_cli.Base.Time.{Duration}
use speed_cli.Float.{Float}
use speed_cli.Report.Latency.{LatencyMeasurement, LatencyResult}
use speed_cli.Testing.Probes.{
  Turn, measurement_of, probe_loop, measure_http_latency, measure_tcp_latency,
}

-- The turns before the first late one.
unfoldable pub in_time : Duration → List Turn → List Turn
in_time duration [] = []
in_time duration (t ∷ ts) =
    let rest = in_time duration ts in if ltb t.elapsed duration then t ∷ rest else []

module _ {F : Type 0} (f : Float F) where
  probe_loop_lem :
      (duration : Duration) (ms : List (LatencyMeasurement F)) (ts : List Turn)
      → probe_loop f duration ms ts ≡ ms ++ map (measurement_of f) (in_time duration ts)
  unfolding probe_loop in_time
  probe_loop_lem duration ms [] = sym (append_nil ms)
  probe_loop_lem duration ms (t ∷ ts) = elim (Bool-cases (ltb t.elapsed duration)) [
    | inr late ↦ rw late (sym (append_nil ms))
    | inl early ↦ rw early (
        probe_loop_lem duration (ms ++ (measurement_of f t ∷ [])) ts
        ∙ append_assoc ms (measurement_of f t ∷ []) (map (measurement_of f) (in_time duration ts)))
  ]

  -- A latency test over TCP or HTTP measures each turn that began in time, in order, and gives no
  -- result if there was none.
  pub measure_latency_lem :
      (duration : Duration) (ts : List Turn)
      → let ms = map (measurement_of f) (in_time duration ts) in
        let result : Option (LatencyResult F) =
          if is_empty ms then none else some (record { measurements = ms }) in
        (measure_http_latency f duration ts ≡ result) × (measure_tcp_latency f duration ts ≡ result)
  unfolding measure_http_latency measure_tcp_latency
  measure_latency_lem duration ts = let e = probe_loop_lem duration [] ts in (rw e refl, rw e refl)
