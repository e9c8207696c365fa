-- ===== src/Udp/Client/Ledger.antt =====
-- The books of the STP client of src/performance/udp/client.rs: bytes sent, acknowledged and in
-- flight.
pub mod Resend
pub mod Acks
use speed_cli.Base.{
  ℕ, ◌+◌, ◌≤◌, ◌≡◌, refl, sym, ap, ◌∙◌, ◌⊎◌, inl, inr, true, false, some, List, [], ◌∷◌, arith,
  length, sum_of, sum_of-append, All, All-append, Bool-cases, Option-cases, subst, u64, IsU64, take,
  drop, length-take, length-drop, max,
}
use speed_cli.Base.Time.{Duration, Instant}
use speed_cli.Float.{Float}
use speed_cli.Udp.Buf.{Bytes, ByteBuf, IsFixedWidth}
use speed_cli.Udp.Protocol.{
  StpHeader, new_header, StpPacket, InFlightPacket, LossRecovery, encode, decode, decode_header,
  new_packet, next_packet_number, Retained, retain, update_from_received,
}
use speed_cli.Udp.Protocol
use speed_cli.Udp.Protocol.Wire.{length-encode}
use speed_cli.Udp.Protocol.Loss.{retain-sum, retain-All}
use speed_cli.Udp.Client.{
  StpClient, Outcome, Retry, AckEnv, count_acked, refresh, count_one, renumber,
  track_retransmission, resend_lost, settle, accept_ack, process_ack, rtt_of,
}

abbrev pub total : List InFlightPacket → ℕ
total = sum_of (λ p. p.size)

-- An entry's size is that of its datagram, which holds a header.
abbrev pub IsTracked : InFlightPacket → Type 0
IsTracked p = (p.size ≡ length p.bytes) × (32 ≤ length p.bytes)

module _ {F : Type 0} where
  -- The bytes of the packets in flight.
  abbrev pub flight : StpClient F → ℕ
  flight c = total c.loss_recovery.in_flight

  -- Of the bytes counted as sent, all are acknowledged or in flight but for `leaked` of them. The
  -- counters are u64s.
  pub record Books (leaked : ℕ) (c : StpClient F) : Type 0 where
    pub balance : c.bytes_sent ≡ u64 (c.bytes_acked + flight c + leaked)
    pub acked_fits : IsU64 c.bytes_acked
    pub tracked : All IsTracked c.loss_recovery.in_flight
