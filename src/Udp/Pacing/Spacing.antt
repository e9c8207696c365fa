-- ===== src/Udp/Pacing/Spacing.antt =====
-- The pace that src/performance/udp/pacing.rs keeps.
use speed_cli.Base.{ℕ, ◌+◌, ◌≤◌, ◌≡◌, ◌⊎◌, All, true, none, some, List, [], ◌∷◌, arith}
use speed_cli.Base.Time.{Duration, Instant}
use speed_cli.Float.{Float, IsOrdered}
use speed_cli.Udp.Pacing.{Pacer, wait_of, new_pacer, update_rate, send_duration, schedule_next_send}

-- What the client does with the pacer: a packet of a size at a time, or a new rate.
pub data Use (F : Type 0) : Type 0 where
  packet : ℕ → Instant → Use F
  rate : F → Use F

module _ {F : Type 0} (f : Float F) where
  pub after_use : Pacer F → Use F → Pacer F
  after_use p (packet n now) = (schedule_next_send f p n now).0
  after_use p (rate r) = update_rate f p r

  pub after_uses : Pacer F → List (Use F) → Pacer F
  after_uses p [] = p
  after_uses p (u ∷ us) = after_uses (after_use p u) us

  -- The instant at which each packet leaves, which is when the wait that the pacer asks for is over.
  -- With it stands the time spent so far: the durations of the packets up to it, itself included,
  -- each at the rate then in force.
  unfoldable pub departures :
      Pacer F → (spent : Duration) → List (Use F) → List (Duration × Instant)
  departures p spent [] = []
  departures p spent (packet n now ∷ us) =
      let (p', wait) = schedule_next_send f p n now in
      let spent' = spent + send_duration f p n in
      (spent', now + wait_of wait) ∷ departures p' spent' us
  departures p spent (rate r ∷ us) = departures (update_rate f p r) spent us

  -- The packet leaves when the wait is over, which is the recorded time. The first packet leaves at
  -- once; a later one at the recorded time plus its own duration, or now if that is past.
  pub schedule_next_send_lem :
      (p : Pacer F) (n : ℕ) (now : Instant)
      → let (p', wait) = schedule_next_send f p n now in
        (p'.last_send_time ≡ some (now + wait_of wait))
        × (p'.next_send_time ≡ some (now + wait_of wait + send_duration f p n))
        × (p'.sending_rate ≡ p.sending_rate)
        × (p.last_send_time ≡ none → wait ≡ none)
        × ((t : Instant)
            → p.last_send_time ≡ some t
            → (t + send_duration f p n ≤ now + wait_of wait)
              × ((wait ≡ none) ⊎ (now + wait_of wait ≡ t + send_duration f p n)))
  unfolding schedule_next_send
  schedule_next_send_lem p n now = (
    ground arith,
    ground arith,
    ground arith,
    λ e. ground arith,
    λ t e. (ground arith, ground arith),
  )

  departures_from :
      (p : Pacer F) (spent : Duration) (us : List (Use F)) (start t : Instant)
      → p.last_send_time ≡ some t
      → start + spent ≤ t
      → All (λ d. start + d.0 ≤ d.1) (departures p spent us)
  unfolding departures
  departures_from p spent [] start t e h = tt
  departures_from p spent (packet n now ∷ us) start t e h =
      let (p', wait) = schedule_next_send f p n now in
      let (last, _, _, _, later) = schedule_next_send_lem p n now in
      let here : start + (spent + send_duration f p n) ≤ now + wait_of wait =
        omega (arith, (later t e).0) in
      (
        here,
        departures_from p' (spent + send_duration f p n) us start (now + wait_of wait) last here,
      )
  departures_from p spent (rate r ∷ us) start t e h =
      departures_from (update_rate f p r) spent us start t (unfold update_rate in e) h

  -- Packets leave no faster than the rates in force allow. Once a packet has left a pacer in any
  -- state, each later one leaves, its wait included, no earlier than that departure plus the
  -- durations of all packets since, itself included, each taken at the rate then in force. The
  -- readings of the clock may be any, and so may the changes of the rate.
  pub departures_pace :
      (p : Pacer F) (n : ℕ) (now : Instant) (us : List (Use F))
      → let (p', wait) = schedule_next_send f p n now in
        All (λ d. (now + wait_of wait) + d.0 ≤ d.1) (departures p' 0 us)
  departures_pace p n now us =
      let (p', wait) = schedule_next_send f p n now in
      departures_from p' 0 us (now + wait_of wait) (now + wait_of wait)
        (schedule_next_send_lem p n now).0 (omega arith)

  module _ (o : IsOrdered f) where
    rate_floor_from :
        (p : Pacer F) (us : List (Use F))
        → f.le (f.lit 1000 1) p.sending_rate ≡ true
        → f.le (f.lit 1000 1) (after_uses p us).sending_rate ≡ true
    unfolding after_uses after_use
    rate_floor_from p [] h = h
    rate_floor_from p (packet n now ∷ us) h =
        rate_floor_from (schedule_next_send f p n now).0 us
          (rw ((schedule_next_send_lem p n now).2) h)
    rate_floor_from p (rate r ∷ us) h =
        rate_floor_from (update_rate f p r) us (
          unfold update_rate in
          o.le-fmax_right r (f.lit 1000 1) (o.lit_number 1000 1 (omega arith)))

    -- Whatever rates it is given, a NaN included, the pacer's rate never falls below 1000 bytes a
    -- second.
    pub after_uses_rate :
        (initial : F) (us : List (Use F))
        → f.le (f.lit 1000 1) (after_uses (new_pacer f initial) us).sending_rate ≡ true
    unfolding new_pacer
    after_uses_rate initial us =
        rate_floor_from _ us
          (o.le-fmax_right initial (f.lit 1000 1) (o.lit_number 1000 1 (omega arith)))
