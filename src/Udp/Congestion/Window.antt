-- ===== src/Udp/Congestion/Window.antt =====
-- The congestion window of src/performance/udp/congestion.rs, over any sequence of callbacks.
use speed_cli.Base.{
  ℕ, ◌%◌, ◌≤◌, ◌<◌, ◌≡◌, refl, true, List, [], ◌∷◌, arith, some, length, get_elem?, zero, suc,
}
use speed_cli.Base.Time.{Duration, Instant}
use speed_cli.Float.{Float}
use speed_cli.Udp.Congestion.{
  Bbr, BbrConfig, Event, sent, acked, lost, gain_at, update_model, update_state,
  update_control_parameters, on_packet_sent, on_ack_received, on_packet_lost, step, run, new_bbr,
  can_send, get_probe_bw_gain, default_config,
}

-- The configuration never changes, the window stays within its limits, and the cycle index within
-- the table of gains.
pub record IsBbr {F : Type 0} (k : BbrConfig F) (c : Bbr F) : Type 0 where
  pub same_config : c.config ≡ k
  pub window_min : k.min_cwnd ≤ c.cwnd
  pub window_max : c.cwnd ≤ k.max_cwnd
  pub cycle : c.cycle_index < length k.probe_bw_gains

module _ {F : Type 0} (f : Float F) where
  gain_lem : (gs : List F) (i : ℕ) → i < length gs → get_elem? gs i ≡ some (gain_at f gs i)
  gain_lem [] i h = elim h [ ]
  gain_lem (g ∷ gs) zero h = refl
  gain_lem (g ∷ gs) (suc i) h = gain_lem gs i (omega arith)

  update_state-IsBbr :
      (k : BbrConfig F) (c : Bbr F) (n : ℕ) (now : Instant)
      → IsBbr k c
      → IsBbr k (update_state f c n now)
  unfolding update_state
  update_state-IsBbr k c n now v = ground arith

  update_model-IsBbr :
      (k : BbrConfig F) (c : Bbr F) (n : ℕ) (rtt : Duration) (now : Instant)
      → IsBbr k c
      → IsBbr k (update_model f c n rtt now)
  unfolding update_model
  update_model-IsBbr k c n rtt now v = ground arith

  update_control-IsBbr :
      (k : BbrConfig F) (c : Bbr F)
      → k.min_cwnd ≤ k.max_cwnd
      → IsBbr k c
      → IsBbr k (update_control_parameters f c)
  unfolding update_control_parameters
  update_control-IsBbr k c h v = ground arith

  step-IsBbr :
      (k : BbrConfig F) (c : Bbr F) (e : Event)
      → k.min_cwnd ≤ k.max_cwnd
      → IsBbr k c
      → IsBbr k (step f c e)
  unfolding step on_packet_sent on_ack_received on_packet_lost
  step-IsBbr k c (sent n now) h v = update_control-IsBbr k _ h (
      update_state-IsBbr k (record c { packets_sent = _ }) 0 now
        (record {
          same_config = v.same_config;
          window_min = v.window_min;
          window_max = v.window_max;
          cycle = v.cycle;
        }))
  step-IsBbr k c (acked n rtt now) h v = update_control-IsBbr k _ h (
      update_state-IsBbr k _ 0 now (
        update_model-IsBbr k (record c { packets_acked = _ }) n rtt now
          (record {
            same_config = v.same_config;
            window_min = v.window_min;
            window_max = v.window_max;
            cycle = v.cycle;
          })))
  step-IsBbr k c (lost n now) h v = update_control-IsBbr k _ h (update_state-IsBbr k c 0 now v)

  pub run-IsBbr :
      (k : BbrConfig F) (c : Bbr F) (es : List Event)
      → k.min_cwnd ≤ k.max_cwnd
      → IsBbr k c
      → IsBbr k (run f c es)
  unfolding run
  run-IsBbr k c [] h v = v
  run-IsBbr k c (e ∷ es) h v = run-IsBbr k (step f c e) es h (step-IsBbr k c e h v)

  -- After any callbacks the window of a new BBR lies between 4 packets of 1400 bytes and 1 MiB, so
  -- that data may be sent when none is in flight, and the gain table is read inside its bounds.
  pub run-new_bbr :
      (now : Instant) (es : List Event)
      → let c = run f (new_bbr f now) es in
        (5600 ≤ c.cwnd)
        × (c.cwnd ≤ 1048576)
        × (can_send f c 0 ≡ true)
        × (get_elem? c.config.probe_bw_gains (c.cycle_index % length c.config.probe_bw_gains)
            ≡ some (get_probe_bw_gain f c))
  unfolding can_send get_probe_bw_gain
  run-new_bbr now es =
      let v : IsBbr (default_config f) (run f (new_bbr f now) es) =
        run-IsBbr (default_config f) (new_bbr f now) es (omega arith) (record {
          same_config = refl;
          window_min = omega arith;
          window_max = omega arith;
          cycle = omega arith;
        }) in
      (
        omega arith,
        omega arith,
        ground arith,
        rw v.same_config (gain_lem (default_config f).probe_bw_gains _ (omega arith)),
      )
