-- ===== src/Udp/Pacing.antt =====
-- src/performance/udp/pacing.rs: the pacer. The clock's reading is an argument.
pub mod Spacing
use speed_cli.Base.{ℕ, ◌+◌, ◌-◌, Bool, Option, none, some, List, [], ◌∷◌, leb, if◌then◌else◌}
use speed_cli.Base.Time.{Duration, Instant}
use speed_cli.Float.{Float}

pub record Pacer (F : Type 0) : Type 0 where
  pub sending_rate : F
  pub last_send_time : Option Instant
  pub debt : Duration
  pub next_send_time : Option Instant

-- `PacedSend` sleeps for this long before it is ready; `none` is ready at once.
abbrev pub wait_of : Option Duration → Duration
wait_of none = 0
wait_of (some d) = d

module _ {F : Type 0} (f : Float F) where
  -- `Pacer::new`.
  unfoldable pub new_pacer : F → Pacer F
  new_pacer initial_rate = record {
    sending_rate = f.fmax initial_rate (f.lit 1000 1);
    last_send_time = none;
    debt = 0;
    next_send_time = none;
  }

  unfoldable pub update_rate : Pacer F → F → Pacer F
  update_rate p rate = record p { sending_rate = f.fmax rate (f.lit 1000 1) }

  -- The time that a packet takes at the target rate.
  unfoldable pub send_duration : Pacer F → ℕ → Duration
  send_duration p packet_size = f.of_secs (f.div (f.of_u64 packet_size) p.sending_rate)

  -- The `match` on the last send time.
  schedule_after : Option Instant → Pacer F → Duration → Instant → Pacer F × Option Duration
  schedule_after none p d now =
      (record p { last_send_time = some now; next_send_time = some (now + d) }, none)
  schedule_after (some last_send) p d now =
      let ideal_send_time = last_send + d in
      if leb ideal_send_time now
      then (record p { last_send_time = some now; next_send_time = some (now + d) }, none)
      else (
        record p {
          last_send_time = some ideal_send_time;
          next_send_time = some (ideal_send_time + d);
        },
        some (ideal_send_time - now),
      )

  unfoldable pub schedule_next_send : Pacer F → ℕ → Instant → Pacer F × Option Duration
  unfolding schedule_after
  schedule_next_send p packet_size now =
      schedule_after p.last_send_time p (send_duration p packet_size) now
