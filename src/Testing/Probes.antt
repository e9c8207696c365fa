-- ===== src/Testing/Probes.antt =====
-- The loop of a latency test: a probe in each turn, a measurement for each probe, and 100 ms of
-- sleep. `measure_http_latency` of src/performance/http/client.rs sends a HEAD request,
-- `measure_tcp_latency` of src/performance/tcp/client.rs opens a connection. There is one task, so
-- that the collector hands back its measurements in order.
pub mod Measures
use speed_cli.Base.{◌++◌, List, [], ◌∷◌, Option, none, some, ltb, if◌then◌else◌, is_empty}
use speed_cli.Base.Time.{Duration}
use speed_cli.Float.{Float}
use speed_cli.Report.Latency.{LatencyMeasurement, LatencyResult}

-- A turn of the loop: the time on the clock of its condition, the time that the probe took if it was
-- answered, and the time on the clock of its measurement.
pub record Turn : Type 0 where
  pub elapsed : Duration
  pub took : Option Duration
  pub elapsed_time : Duration

module _ {F : Type 0} (f : Float F) where
  unfoldable pub measurement_of : Turn → LatencyMeasurement F
  measurement_of t = elim t.took [
    | none ↦ record { rtt_ms = none; elapsed_time = t.elapsed_time }
    | some rtt ↦ record {
      rtt_ms = some (f.mul (f.as_secs rtt) (f.lit 1000 1));
      elapsed_time = t.elapsed_time;
    }
  ]

  -- The loop, over the turns that there may be: it ends at the first late one.
  unfoldable pub probe_loop :
      Duration → List (LatencyMeasurement F) → List Turn → List (LatencyMeasurement F)
  unfolding measurement_of
  probe_loop duration ms [] = ms
  probe_loop duration ms (t ∷ ts) =
      let rest = probe_loop duration (ms ++ (measurement_of t ∷ [])) ts in
      if ltb t.elapsed duration then rest else ms

  -- The end of both functions.
  abbrev latency_result : List (LatencyMeasurement F) → Option (LatencyResult F)
  latency_result ms = if is_empty ms then none else some (record { measurements = ms })

  unfoldable pub measure_http_latency : Duration → List Turn → Option (LatencyResult F)
  unfolding probe_loop
  measure_http_latency duration ts = latency_result (probe_loop duration [] ts)

  unfoldable pub measure_tcp_latency : Duration → List Turn → Option (LatencyResult F)
  unfolding probe_loop
  measure_tcp_latency duration ts = latency_result (probe_loop duration [] ts)
