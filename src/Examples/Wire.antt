-- ===== src/Examples/Wire.antt =====
-- src/performance/udp/protocol.rs at concrete packets and queues.
use speed_cli.Base.{
  ℕ, ◌≤◌, ◌<◌, ◌≡◌, ◌⊎◌, true, false, none, some, [], ◌∷◌, ◌++◌, arith, length, replicate, max, All,
  leb, ltb,
}
use mathlib.Core.List.{Perm}
use speed_cli.Base.Time.{from_micros}
use speed_cli.Udp.Buf.{Bytes}
use speed_cli.Udp.Buf.BigEndian.{big_endian, big_endian-IsFixedWidth}
use speed_cli.Udp.Protocol.{
  StpPacket, new_packet, encode, decode, InFlightPacket, new_in_flight, LossRecovery,
  new_loss_recovery, on_packet_sent, on_ack_received, is_lost, timed_out, calculate_rtt,
}
use speed_cli.Udp.Protocol.Wire.{IsHeader, decode-encode, decode_cases}
use speed_cli.Udp.Protocol.Loss.{
  Link, send, Reach, start, next, on_ack_received_partition, lost_timed_out,
}
use speed_cli.Udp.Protocol.Clock.{those, clock_step_back}

abbrev ping : StpPacket
ping = new_packet 77 5 3 70 (b'P' ∷ b'I' ∷ b'N' ∷ b'G' ∷ [])

decode-encode_example : decode big_endian (encode big_endian ping) ≡ some ping
decode-encode_example = decode-encode big_endian big_endian-IsFixedWidth ping (record {
  packet_number_fits = omega arith;
  timestamp_fits = omega arith;
  latest_ack_fits = omega arith;
  echo_fits = omega arith;
})

abbrev short : Bytes
short = 1 ∷ 2 ∷ []

decode_cases_example :
    (length short < 32) × (decode big_endian short ≡ none)
    ⊎ (32 ≤ length short)
      × ((p : StpPacket) × (decode big_endian short ≡ some p)
          × (encode big_endian p ≡ short)
          × IsHeader p.header)
decode_cases_example =
    decode_cases big_endian big_endian-IsFixedWidth short (omega arith, (omega arith, tt))

abbrev sent_at : ℕ → ℕ → InFlightPacket
sent_at now n = new_in_flight now n 33 (replicate 33 0)

abbrev three_sent : LossRecovery
three_sent =
    on_packet_sent (on_packet_sent (on_packet_sent new_loss_recovery (sent_at 10 1)) (sent_at 20 2))
      (sent_at 2000000 3)

on_ack_received_partition_example :
    let (l', acked, lost) = on_ack_received three_sent 2000001 1 in
    Perm three_sent.in_flight (acked ++ (lost ++ l'.in_flight))
    × All (λ p. p.packet_number ≤ 1) acked
    × All (λ p. (1 < p.packet_number) × (is_lost l' 2000001 p ≡ true)) lost
    × All (λ p. (1 < p.packet_number) × (is_lost l' 2000001 p ≡ false)) l'.in_flight
    × (l'.largest_acked ≡ max three_sent.largest_acked 1)
on_ack_received_partition_example = on_ack_received_partition three_sent 2000001 1

abbrev one_sent : Link
one_sent = record { recovery = on_packet_sent new_loss_recovery (sent_at 10 1); last_sent = 1 }

one_sent-Reach : Reach one_sent
one_sent-Reach =
    next start
      (send (record { recovery = new_loss_recovery; last_sent = 0 }) (sent_at 10 1) (omega arith))

lost_timed_out_example :
    All
      (λ p. timed_out 2000000 one_sent.recovery.loss_timeout p ≡ true)
      (on_ack_received one_sent.recovery 2000000 0).2
lost_timed_out_example = lost_timed_out {k = one_sent} 2000000 0 one_sent-Reach (omega arith)

abbrev sent_later : LossRecovery
sent_later = on_packet_sent new_loss_recovery (sent_at 1000 1)

clock_step_back_example :
    let (l', acked, lost) = on_ack_received sent_later 999 0 in
    (l'.in_flight ≡ [])
    × (acked ≡ those (λ p. leb p.packet_number 0) sent_later.in_flight)
    × (lost ≡ those (λ p. ltb 0 p.packet_number) sent_later.in_flight)
    × (calculate_rtt 999 1000 ≡ from_micros 0)
unfolding on_packet_sent
clock_step_back_example =
    clock_step_back sent_later 999 0 1000 ((omega arith, omega arith), tt) (omega arith)
