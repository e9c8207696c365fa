-- ===== src/Udp/Congestion.antt =====
-- src/performance/udp/congestion.rs: the BBR congestion control. Rates and gains are values of a
-- `Float`; the time of a call is its argument `now`, and only `new` reads the clock.
pub mod Filter
pub mod Window
pub mod States
use speed_cli.Base.{
  ℕ, zero, suc, ◌+◌, ◌-◌, ◌*◌, ◌/◌, ◌%◌, ◌≡◌, Bool, true, false, ◌||◌, not, List, [], ◌∷◌, ◌++◌,
  max, min, ltb, leb, ◌==◌, if◌then◌else◌, length, u64,
}
use speed_cli.Base.Time.{Duration, Instant, from_secs, from_millis, duration_since}
use speed_cli.Float.{Float}

pub data BbrState : Type 0 where
  startup drain probe_bw probe_rtt : BbrState

pub record BandwidthSample (F : Type 0) : Type 0 where
  pub bw : F
  pub time : Instant

pub record BandwidthFilter (F : Type 0) : Type 0 where
  pub samples : List (BandwidthSample F)
  pub max_bw : F

pub record BbrConfig (F : Type 0) : Type 0 where
  pub startup_cwnd_gain : F
  pub startup_pacing_gain : F
  pub probe_bw_gains : List F
  pub probe_bw_cycle_len : Duration
  pub probe_rtt_duration : Duration
  pub probe_rtt_cwnd_gain : F
  pub min_cwnd : ℕ
  pub max_cwnd : ℕ
  pub initial_cwnd : ℕ
  pub min_rtt_filter_len : Duration
  pub bw_filter_len : Duration

-- `BbrCongestionControl`.
pub record Bbr (F : Type 0) : Type 0 where
  pub state : BbrState
  pub max_bw : BandwidthFilter F
  pub min_rtt : Duration
  pub min_rtt_stamp : Instant
  pub pacing_rate : F
  pub cwnd : ℕ
  pub cycle_index : ℕ
  pub cycle_start : Instant
  pub packets_sent : ℕ
  pub packets_acked : ℕ
  pub config : BbrConfig F
  pub state_start : Instant

module _ {F : Type 0} (f : Float F) where
  -- `BbrConfig::default`.
  abbrev pub default_config : BbrConfig F
  default_config = record {
    startup_cwnd_gain = f.lit 2 1;
    startup_pacing_gain = f.lit 277 100;
    probe_bw_gains =
        f.lit 125 100
        ∷ f.lit 75 100
        ∷ f.lit 1 1
        ∷ f.lit 1 1
        ∷ f.lit 1 1
        ∷ f.lit 1 1
        ∷ f.lit 1 1
        ∷ f.lit 1 1
        ∷ [];
    probe_bw_cycle_len = from_secs 8;
    probe_rtt_duration = from_millis 200;
    probe_rtt_cwnd_gain = f.lit 1 2;
    min_cwnd = 4 * 1400;
    max_cwnd = 1024 * 1024;
    initial_cwnd = 10 * 1400;
    min_rtt_filter_len = from_secs 10;
    bw_filter_len = from_secs 2;
  }

  abbrev pub new_filter : BandwidthFilter F
  new_filter = record { samples = []; max_bw = f.lit 0 1 }

  -- The loop that pops old samples off the front. `time < now - filter_len` is written as a sum, so
  -- that an instant near the clock's start does not matter.
  unfoldable pub pop_old : Instant → Duration → List (BandwidthSample F) → List (BandwidthSample F)
  pop_old now filter_len [] = []
  pop_old now filter_len (s ∷ ss) =
      if ltb (s.time + filter_len) now then pop_old now filter_len ss else s ∷ ss

  -- `.map(|s| s.bw).fold(acc, f64::max)`.
  unfoldable pub fold_max : F → List (BandwidthSample F) → F
  fold_max acc [] = acc
  fold_max acc (s ∷ ss) = fold_max (f.fmax acc s.bw) ss

  -- `BandwidthFilter::update`.
  unfoldable pub update_filter : BandwidthFilter F → F → Instant → Duration → BandwidthFilter F
  update_filter b bw now filter_len =
      let samples = pop_old now filter_len (b.samples ++ (record { bw = bw; time = now } ∷ [])) in
      record { samples = samples; max_bw = fold_max (f.lit 0 1) samples }

  -- `BbrCongestionControl::new`, with the clock's reading.
  abbrev pub new_bbr : Instant → Bbr F
  new_bbr now = record {
    state = startup;
    max_bw = new_filter;
    min_rtt = from_millis 1000;
    min_rtt_stamp = now;
    pacing_rate = f.lit 0 1;
    cwnd = default_config.initial_cwnd;
    cycle_index = 0;
    cycle_start = now;
    packets_sent = 0;
    packets_acked = 0;
    config = default_config;
    state_start = now;
  }

  unfoldable pub update_rtt : Bbr F → Duration → Instant → Bbr F
  update_rtt c rtt now =
      if ltb rtt c.min_rtt || ltb c.config.min_rtt_filter_len (duration_since now c.min_rtt_stamp)
      then record c { min_rtt = rtt; min_rtt_stamp = now }
      else c

  unfoldable pub update_model : Bbr F → ℕ → Duration → Instant → Bbr F
  unfolding update_rtt
  update_model c bytes_acked rtt now =
      let c' = update_rtt c rtt now in
      let delivery_rate = f.div (f.of_u64 bytes_acked) (f.as_secs rtt) in
      record c' { max_bw = update_filter c'.max_bw delivery_rate now c'.config.bw_filter_len }

  -- `gains[i]`, with 0 past the end, where the source panics.
  abbrev pub gain_at : List F → ℕ → F
  gain_at [] i = f.lit 0 1
  gain_at (g ∷ gs) zero = g
  gain_at (g ∷ gs) (suc i) = gain_at gs i

  unfoldable pub get_probe_bw_gain : Bbr F → F
  get_probe_bw_gain c =
      gain_at c.config.probe_bw_gains (c.cycle_index % length c.config.probe_bw_gains)

  -- `.max(min_cwnd).min(max_cwnd)`.
  unfoldable pub clamp_cwnd : BbrConfig F → ℕ → ℕ
  clamp_cwnd k n = min (max n k.min_cwnd) k.max_cwnd

  -- The pacing rate and the product that becomes the window, for each state.
  unfoldable pub control : BbrState → Bbr F → F × F
  unfolding get_probe_bw_gain
  control startup c = (
    f.mul c.config.startup_pacing_gain c.max_bw.max_bw,
    f.mul c.config.startup_cwnd_gain (f.mul c.max_bw.max_bw (f.as_secs c.min_rtt)),
  )
  control drain c = (
    f.div c.max_bw.max_bw c.config.startup_pacing_gain,
    f.mul c.max_bw.max_bw (f.as_secs c.min_rtt),
  )
  control probe_bw c = (
    f.mul (get_probe_bw_gain c) c.max_bw.max_bw,
    f.mul (f.mul (get_probe_bw_gain c) c.max_bw.max_bw) (f.as_secs c.min_rtt),
  )
  control probe_rtt c = (
    c.max_bw.max_bw,
    f.mul (f.mul c.config.probe_rtt_cwnd_gain c.max_bw.max_bw) (f.as_secs c.min_rtt),
  )

  unfoldable pub update_control_parameters : Bbr F → Bbr F
  unfolding control clamp_cwnd
  update_control_parameters c =
      let (rate, window) = control c.state c in
      record c { pacing_rate = rate; cwnd = clamp_cwnd c.config (f.to_usize window) }

  abbrev is_probe_bw : BbrState → Bool
  is_probe_bw probe_bw = true
  is_probe_bw _ = false

  unfoldable pub advance_cycle_phase : Bbr F → Instant → Bbr F
  advance_cycle_phase c now =
      let n = length c.config.probe_bw_gains in
      if not (is_probe_bw c.state)
      then c
      else if leb (c.config.probe_bw_cycle_len / n) (duration_since now c.cycle_start)
      then record c { cycle_index = (c.cycle_index + 1) % n; cycle_start = now }
      else c

  unfoldable pub check_startup_done : Bbr F → Bool
  check_startup_done c = ltb (u64 (3 * (c.cwnd / 1400))) c.packets_acked

  unfoldable pub check_drain_done : Bbr F → ℕ → Bool
  check_drain_done c bytes_in_flight =
      leb bytes_in_flight (f.to_usize (f.mul c.max_bw.max_bw (f.as_secs c.min_rtt)))

  -- The `match` of `update_state`.
  dispatch : BbrState → Bbr F → ℕ → Instant → Bbr F
  dispatch startup c bytes_in_flight now =
      if check_startup_done c then record c { state = drain; state_start = now } else c
  dispatch drain c bytes_in_flight now =
      if check_drain_done c bytes_in_flight
      then record c { state = probe_bw; state_start = now; cycle_start = now; cycle_index = 0 }
      else c
  dispatch probe_bw c bytes_in_flight now =
      advance_cycle_phase
        (if ltb c.config.min_rtt_filter_len (duration_since now c.min_rtt_stamp)
          then record c { state = probe_rtt; state_start = now }
          else c)
        now
  dispatch probe_rtt c bytes_in_flight now =
      if leb c.config.probe_rtt_duration (duration_since now c.state_start)
      then record c { state = probe_bw; state_start = now; cycle_start = now; cycle_index = 0 }
      else c

  unfoldable pub update_state : Bbr F → ℕ → Instant → Bbr F
  unfolding dispatch check_startup_done check_drain_done advance_cycle_phase
  update_state c bytes_in_flight now = dispatch c.state c bytes_in_flight now

  -- The three callbacks of the trait.
  unfoldable pub on_packet_sent : Bbr F → ℕ → Instant → Bbr F
  on_packet_sent c bytes_sent now =
      update_control_parameters
        (update_state (record c { packets_sent = u64 (c.packets_sent + 1) }) 0 now)

  unfoldable pub on_ack_received : Bbr F → ℕ → Duration → Instant → Bbr F
  on_ack_received c bytes_acked rtt now =
      let c' =
        update_model (record c { packets_acked = u64 (c.packets_acked + 1) }) bytes_acked rtt now in
      update_control_parameters (update_state c' 0 now)

  unfoldable pub on_packet_lost : Bbr F → ℕ → Instant → Bbr F
  on_packet_lost c bytes_lost now = update_control_parameters (update_state c 0 now)

  unfoldable pub get_sending_rate : Bbr F → F
  get_sending_rate c = f.fmax c.pacing_rate (f.lit 1000 1)

  unfoldable pub can_send : Bbr F → ℕ → Bool
  can_send c bytes_in_flight = ltb bytes_in_flight c.cwnd

-- A callback, with its arguments.
pub data Event : Type 0 where
  sent : ℕ → Instant → Event
  acked : ℕ → Duration → Instant → Event
  lost : ℕ → Instant → Event

unfoldable pub step : {F : Type 0} → Float F → Bbr F → Event → Bbr F
step f c (sent bytes now) = on_packet_sent f c bytes now
step f c (acked bytes rtt now) = on_ack_received f c bytes rtt now
step f c (lost bytes now) = on_packet_lost f c bytes now

unfoldable pub run : {F : Type 0} → Float F → Bbr F → List Event → Bbr F
run f c [] = c
run f c (e ∷ es) = run f (step f c e) es
