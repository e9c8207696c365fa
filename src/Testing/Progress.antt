-- ===== src/Testing/Progress.antt =====
-- The progress bars of src/utils/instrumentation.rs and src/utils/progress.rs, with
-- src/utils/format.rs: what a bar of the indicatif crate is told while the tasks of a test run. A
-- turn of the loop has the readings of the clock in it and the list of measurements, unless the
-- collector holds its lock.
pub mod Averages
use speed_cli.Base.{
  ℕ, Bool, Option, none, some, List, [], ◌∷◌, ◌++◌, ltb, if◌then◌else◌, is_empty, length,
}
use speed_cli.Base.Decimal.{print_usize}
use speed_cli.Base.Text.{Text, codes, format}
use speed_cli.Base.Time.{Duration}
use speed_cli.Float.{Float}
use speed_cli.Report.Latency.{LatencyMeasurement, filter_rtts, sum_floats}
use speed_cli.Report.Throughput.{ThroughputMeasurement, sum_bytes}
use speed_cli.Html.Configs.{as_secs}
use speed_cli.Display.{Print, blue, bold, green, yellow}
use speed_cli.Display.Configs.{to_uppercase}

pub data ProgressBarType : Type 0 where
  latency : ProgressBarType
  download : ProgressBarType
  upload : ProgressBarType

-- What a bar was told.
pub record ProgressBar : Type 0 where
  pub template : Text
  pub bar_length : ℕ
  pub position : ℕ
  pub message : Text

unfoldable pub to_title_case : Text → Text
unfolding to_uppercase
to_title_case [] = []
to_title_case (first ∷ chars) = to_uppercase (first ∷ []) ++ chars

unfoldable pub colour_and_name : ProgressBarType → Text × Text
colour_and_name latency = (codes "yellow/blue", codes "latency")
colour_and_name download = (codes "cyan/blue", codes "download")
colour_and_name upload = (codes "green/blue", codes "upload")

unfoldable pub create_progress_bar : ProgressBarType → Duration → ProgressBar
unfolding to_title_case colour_and_name
create_progress_bar test_type duration =
    let (colour, test_name) = colour_and_name test_type in
    record {
      template =
          format
            (codes "[{elapsed_precise}] {bar:40." ∷ colour ∷ codes "} {pos}s/{len}s {msg}" ∷ []);
      bar_length = as_secs duration;
      position = 0;
      message = format (to_title_case test_name ∷ codes "..." ∷ []);
    }

-- The readings are those of the loop's condition, of the position and of the rates.
pub record Turn (A : Type 0) : Type 0 where
  pub elapsed : Duration
  pub elapsed_position : Duration
  pub elapsed_rate : Duration
  pub locked : Option (List A)

abbrev pub set_position : ℕ → ProgressBar → ProgressBar
set_position n bar = record bar { position = n }

-- `set_message` with a message, if there is one.
abbrev pub set_some_message : Option Text → ProgressBar → ProgressBar
set_some_message none bar = bar
set_some_message (some message) bar = record bar { message = message }

module _ {A : Type 0} (message_of : Duration → List A → Option Text) where
  -- The message of a turn, none if the lock is held or nothing was measured yet.
  unfoldable pub turn_message : Turn A → Option Text
  turn_message t = elim t.locked [
    | none ↦ none
    | some measurements ↦
        if is_empty measurements then none else message_of t.elapsed_rate measurements
  ]

  -- The task of the progress bar.
  unfoldable pub progress_loop : Duration → ProgressBar → List (Turn A) → ProgressBar
  unfolding turn_message
  progress_loop duration bar [] = set_position (as_secs duration) bar
  progress_loop duration bar (t ∷ ts) =
      let rest =
        progress_loop duration
          (set_some_message (turn_message t) (set_position (as_secs t.elapsed_position) bar)) ts in
      if ltb t.elapsed duration then rest else set_position (as_secs duration) bar

-- `finish_with_message`, as its documentation says: the bar is full and shows the message.
abbrev pub finish_with_message : Text → ProgressBar → ProgressBar
finish_with_message message bar = record bar { position = bar.bar_length; message = message }

-- `finish` of a collector, once both of its tasks are over: the bar that the progress task left, and
-- the list that the collector's task left. The measurements are copied out of the list.
unfoldable pub finish : {A : Type 0} → ProgressBar → List A → Text → ProgressBar × List A
finish bar measurements message = (finish_with_message message bar, measurements)

module _ {F T : Type 0} (f : Float F) (p : Print F T) where
  -- `format_throughput` of src/utils/format.rs.
  unfoldable pub format_throughput : F → Text
  format_throughput mbps =
      if f.le (f.lit 1000 1) mbps
      then format (p.texts.two_decimals (f.div mbps (f.lit 1000 1)) ∷ codes " Gbps" ∷ [])
      else format (p.texts.two_decimals mbps ∷ codes " Mbps" ∷ [])

  -- The message of `LatencyStatsCollector`, none while every measurement is a dropped one.
  unfoldable pub latency_message : Duration → List (LatencyMeasurement F) → Option Text
  latency_message elapsed measurements =
      let valid_measurements = filter_rtts f measurements in
      if is_empty valid_measurements
      then none
      else some (
          format (
            codes "Avg latency: "
            ∷ p.texts.two_decimals (
                f.div (sum_floats f (f.lit 0 1) valid_measurements)
                  (f.of_u64 (length valid_measurements)))
            ∷ codes "ms | Conn/s: "
            ∷ p.one_decimal (f.div (f.of_u64 (length measurements)) (f.as_secs elapsed))
            ∷ codes " | Connections: "
            ∷ print_usize (length measurements)
            ∷ []))

  -- The message of `ThroughputStatsCollector`.
  unfoldable pub throughput_message : Duration → List ThroughputMeasurement → Option Text
  unfolding format_throughput
  throughput_message elapsed measurements =
      let total_bytes = sum_bytes measurements in
      let elapsed_secs = f.as_secs elapsed in
      some (
        format (
          codes "Avg: "
          ∷ format_throughput (
              f.div (f.mul (f.of_u64 total_bytes) (f.lit 8 1))
                (f.mul elapsed_secs (f.lit 1_000_000 1)))
          ∷ codes " | "
          ∷ p.texts.format_size (f.to_usize (f.div (f.of_u64 total_bytes) elapsed_secs))
          ∷ codes " | Req/s: "
          ∷ p.one_decimal (f.div (f.of_u64 (length measurements)) elapsed_secs)
          ∷ codes " | Chunks: "
          ∷ print_usize (length measurements)
          ∷ []))

module _ {F T : Type 0} (p : Print F T) where
  -- The loop of `with_progress_counter` in src/utils/progress.rs: what it prints, with the readings
  -- of the clock at the ticks before the future is complete.
  unfoldable pub counter_loop : Text → ℕ → List Duration → Text
  counter_loop message seconds [] = format (
      codes "\r"
      ∷ p.paint (green ∷ bold ∷ []) (codes "✓")
      ∷ codes " "
      ∷ p.paint (green ∷ []) message
      ∷ codes " ("
      ∷ print_usize seconds
      ∷ codes "s)\n"
      ∷ [])
  counter_loop message seconds (elapsed ∷ ticks) =
      format (
        codes "\r"
        ∷ p.paint (blue ∷ []) (codes "⏳")
        ∷ codes " "
        ∷ p.paint (yellow ∷ bold ∷ []) message
        ∷ codes " ("
        ∷ print_usize (as_secs elapsed)
        ∷ codes "s)"
        ∷ [])
      ++ counter_loop message (as_secs elapsed) ticks

  -- What is printed, and the result of the future.
  unfoldable pub with_progress_counter : {A : Type 0} → Text → List Duration → A → Text × A
  unfolding counter_loop
  with_progress_counter message ticks result = (
    format (p.paint (yellow ∷ bold ∷ []) message ∷ codes " " ∷ []) ++ counter_loop message 0 ticks,
    result,
  )
