-- ===== src/Udp/Protocol/Clock.antt =====
-- The wall clock in src/performance/udp/protocol.rs. `SystemTime` is not monotonic, and the
-- difference of two readings is taken on u64 without a check.
use speed_cli.Base.{
  ℕ, ◌+◌, ◌-◌, ◌^◌, ◌≤◌, ◌<◌, ◌≡◌, refl, true, List, [], ◌∷◌, arith, All, IsU64, u64, ltb, leb, max,
  Bool, if◌then◌else◌,
}
use speed_cli.Base.Time.{Duration, as_micros, from_micros}
use speed_cli.Udp.Protocol.{
  InFlightPacket, LossRecovery, timed_out, is_lost, retain, on_ack_received, calculate_rtt,
}

-- A packet that the clock says was sent at or before `now` times out exactly when the elapsed
-- microseconds exceed the timeout's.
pub timed_out_forwards :
    (now : ℕ) (timeout : Duration) (p : InFlightPacket)
    → IsU64 now
    → p.sent_time ≤ now
    → timed_out now timeout p ≡ ltb (u64 (as_micros timeout)) (now - p.sent_time)
unfolding timed_out
timed_out_forwards now timeout p f h = ground arith

-- The sending time lies ahead of `now`, by less than wraps round to the timeout.
abbrev pub SentAhead : ℕ → Duration → InFlightPacket → Type 0
SentAhead now timeout p =
    (now < p.sent_time) × (p.sent_time + u64 (as_micros timeout) < now + 2 ^ 64)

timed_out_backwards :
    (now : ℕ) (timeout : Duration) (p : InFlightPacket)
    → SentAhead now timeout p
    → timed_out now timeout p ≡ true
unfolding timed_out
timed_out_backwards now timeout p h = ground arith

-- The packets of a queue that pass a test, in the order of the queue.
abbrev pub those : (InFlightPacket → Bool) → List InFlightPacket → List InFlightPacket
those test [] = []
those test (p ∷ ps) = if test p then p ∷ those test ps else those test ps

retain_ahead :
    (l : LossRecovery) (now a : ℕ) (ps : List InFlightPacket)
    → All (SentAhead now l.loss_timeout) ps
    → let r = retain l now a ps in
      (r.kept ≡ [])
      × (r.acked ≡ those (λ p. leb p.packet_number a) ps)
      × (r.lost ≡ those (λ p. ltb a p.packet_number) ps)
unfolding retain is_lost
retain_ahead l now a [] h = (refl, refl, refl)
retain_ahead l now a (p ∷ ps) h =
    let late = timed_out_backwards now l.loss_timeout p h.0 in
    let (kept, acked, lost) = retain_ahead l now a ps h.1 in
    (ground (arith, late, kept), ground (arith, late, acked), ground (arith, late, lost))

-- After the wall clock has stepped back behind the sending times, the next acknowledgment empties
-- the queue: the packets that it covers are acknowledged, and all others are declared lost, in the
-- order of the queue, however recently they were sent; and the round-trip time of a timestamp that
-- is echoed from before the step is zero.
pub clock_step_back :
    (l : LossRecovery) (now a echo : ℕ)
    → All (SentAhead now l.loss_timeout) l.in_flight
    → now ≤ echo
    → let (l', acked, lost) = on_ack_received l now a in
      (l'.in_flight ≡ [])
      × (acked ≡ those (λ p. leb p.packet_number a) l.in_flight)
      × (lost ≡ those (λ p. ltb a p.packet_number) l.in_flight)
      × (calculate_rtt now echo ≡ from_micros 0)
unfolding on_ack_received calculate_rtt
clock_step_back l now a echo h e =
    let l' : LossRecovery = record l { largest_acked = max l.largest_acked a } in
    let (kept, acked, lost) = retain_ahead l' now a l.in_flight h in
    (kept, acked, lost, ground arith)
