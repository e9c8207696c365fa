-- ===== src/Udp/Congestion/States.antt =====
-- The state machine of src/performance/udp/congestion.rs, over any sequence of callbacks.
use speed_cli.Base.{
  ℕ, ◌≤◌, ◌≡◌, refl, ◌∙◌, sym, ◌⊎◌, inl, inr, ◌+◌, subst, u64, List, [], ◌∷◌, arith,
}
use speed_cli.Base.Time.{Duration, Instant}
use speed_cli.Float.{Float}
use speed_cli.Udp.Congestion.{
  BbrState, startup, drain, probe_bw, probe_rtt, Bbr, Event, sent, acked, lost, update_model,
  update_state, update_control_parameters, on_packet_sent, on_ack_received, on_packet_lost, step,
  run,
}

-- The moves of the machine.
pub data Edge (s t : BbrState) : Type 0 where
  stay : t ≡ s → Edge s t
  filled : s ≡ startup → t ≡ drain → Edge s t
  drained : s ≡ drain → t ≡ probe_bw → Edge s t
  stale : s ≡ probe_bw → t ≡ probe_rtt → Edge s t
  probed : s ≡ probe_rtt → t ≡ probe_bw → Edge s t

abbrev Moves : BbrState → BbrState → Type 0
Moves s t =
    (t ≡ s)
    ⊎ ((s ≡ startup) × (t ≡ drain))
    ⊎ ((s ≡ drain) × (t ≡ probe_bw))
    ⊎ ((s ≡ probe_bw) × (t ≡ probe_rtt))
    ⊎ ((s ≡ probe_rtt) × (t ≡ probe_bw))

Moves-Edge : {s t : BbrState} → Moves s t → Edge s t
Moves-Edge (inl e) = stay e
Moves-Edge (inr (inl (e, h))) = filled e h
Moves-Edge (inr (inr (inl (e, h)))) = drained e h
Moves-Edge (inr (inr (inr (inl (e, h))))) = stale e h
Moves-Edge (inr (inr (inr (inr (e, h))))) = probed e h

-- How far a state is from the start; the last two alternate for ever.
abbrev pub rank : BbrState → ℕ
rank startup = 0
rank drain = 1
rank probe_bw = 2
rank probe_rtt = 2

module _ {F : Type 0} (f : Float F) where
  update_state-Moves :
      (c : Bbr F) (n : ℕ) (now : Instant) → Moves c.state (update_state f c n now).state
  unfolding update_state
  update_state-Moves c n now = ground arith

  update_control-state : (c : Bbr F) → (update_control_parameters f c).state ≡ c.state
  unfolding update_control_parameters
  update_control-state c = refl

  update_model-state :
      (c : Bbr F) (n : ℕ) (rtt : Duration) (now : Instant)
      → (update_model f c n rtt now).state ≡ c.state
  unfolding update_model
  update_model-state c n rtt now = ground arith

  step-Moves : (c : Bbr F) (e : Event) → Moves c.state (step f c e).state
  unfolding step on_packet_sent on_ack_received on_packet_lost update_control_parameters
  step-Moves c (sent n now) = update_state-Moves (record c { packets_sent = _ }) 0 now
  step-Moves c (acked n rtt now) =
      let c' : Bbr F = record c { packets_acked = u64 (c.packets_acked + 1) } in
      subst (λ s. Moves s (update_state f (update_model f c' n rtt now) 0 now).state)
        (update_model-state c' n rtt now) (update_state-Moves (update_model f c' n rtt now) 0 now)
  step-Moves c (lost n now) = update_state-Moves c 0 now

  drain-update_state :
      (c : Bbr F) (now : Instant) → c.state ≡ drain → (update_state f c 0 now).state ≡ probe_bw
  unfolding update_state
  drain-update_state c now h = ground arith

  -- Each callback leaves the machine in its state or moves it along one edge: startup to drain, drain to the bandwidth
  -- probing, and between that and the round-trip probing in both directions.
  pub step-Edge : (c : Bbr F) (e : Event) → Edge c.state (step f c e).state
  step-Edge c e = Moves-Edge (step-Moves c e)

  -- Since every callback reports zero bytes in flight, any one callback ends the drain.
  pub drain_ends : (c : Bbr F) (e : Event) → c.state ≡ drain → (step f c e).state ≡ probe_bw
  unfolding step on_packet_sent on_ack_received on_packet_lost update_control_parameters
  drain_ends c (sent n now) h = drain-update_state (record c { packets_sent = _ }) now h
  drain_ends c (acked n rtt now) h =
      drain-update_state _ now (update_model-state (record c { packets_acked = _ }) n rtt now ∙ h)
  drain_ends c (lost n now) h = drain-update_state c now h

  -- After the model is updated its stamp is within the filter's length.
  update_model_fresh :
      (c : Bbr F) (n : ℕ) (rtt : Duration) (now : Instant)
      → let c' = update_model f c n rtt now in now ≤ c'.min_rtt_stamp + c'.config.min_rtt_filter_len
  unfolding update_model
  update_model_fresh c n rtt now = ground arith

  fresh-update_state :
      (c : Bbr F) (n : ℕ) (now : Instant)
      → now ≤ c.min_rtt_stamp + c.config.min_rtt_filter_len
      → (update_state f c n now).state ≡ probe_rtt
      → c.state ≡ probe_rtt
  unfolding update_state
  fresh-update_state c n now h e = ground arith

  -- An acknowledgment never starts the round-trip probing: it refreshes the stamp whose age the
  -- test looks at. Only a sent or a lost packet does.
  pub ack_never_probes_rtt :
      (c : Bbr F) (n : ℕ) (rtt : Duration) (now : Instant)
      → (step f c (acked n rtt now)).state ≡ probe_rtt
      → c.state ≡ probe_rtt
  unfolding step on_ack_received update_control_parameters
  ack_never_probes_rtt c n rtt now e =
      let c' : Bbr F = record c { packets_acked = u64 (c.packets_acked + 1) } in
      sym (update_model-state c' n rtt now)
      ∙ fresh-update_state (update_model f c' n rtt now) 0 now (update_model_fresh c' n rtt now) e

  rank-Moves : (s t : BbrState) → Moves s t → rank s ≤ rank t
  rank-Moves s t m = ground arith

  -- Over any callbacks the machine never goes back to the startup or to the drain once it has left
  -- them.
  pub rank-run : (c : Bbr F) (es : List Event) → rank c.state ≤ rank (run f c es).state
  unfolding run
  rank-run c [] = omega arith
  rank-run c (e ∷ es) =
      omega
        (arith, rank-Moves c.state (step f c e).state (step-Moves c e), rank-run (step f c e) es)
