-- ===== src/Udp/Client/Balance.antt =====
-- Whole sessions of the STP client: what the upload loop computes as the bytes in flight.
use speed_cli.Base.{
  ℕ, ◌≤◌, ◌≡◌, refl, true, List, [], ◌∷◌, arith, length, sum_of-append, All-append, Bool-cases, u64,
  inl, inr,
}
use speed_cli.Base.Time.{Instant}
use speed_cli.Float.{Float}
use speed_cli.Udp.Buf.{Bytes, ByteBuf, IsFixedWidth}
use speed_cli.Udp.Protocol.{
  StpPacket, InFlightPacket, encode, new_packet, next_packet_number, new_in_flight,
}
use speed_cli.Udp.Protocol
use speed_cli.Udp.Protocol.Wire.{length-encode}
use speed_cli.Udp.Client.{
  StpClient, Outcome, SendEnv, AckEnv, new_client, record_sent, send_data, process_ack,
  bytes_in_flight,
}
use speed_cli.Udp.Client.Ledger.{IsTracked, flight, Books}
use speed_cli.Udp.Client.Ledger.Acks.{process_ack-Books}

-- A call of the client, with what its environment answers.
pub data Call : Type 0 where
  send : Bytes → SendEnv → Call
  ack : Bytes → AckEnv → Call

module _ {F : Type 0} (f : Float F) (b : ByteBuf) where
  unfoldable pub call : StpClient F → Call → Outcome F
  call c (send payload env) = send_data f b c payload env
  call c (ack d env) = process_ack f b c d env

  unfoldable pub session : StpClient F → List Call → StpClient F
  session c [] = c
  session c (k ∷ ks) = session (call c k).client ks

  -- No retransmission is refused by the socket. A refused `send_data` may occur.
  abbrev pub IsServed : Outcome F → Call → Type 0
  IsServed o (send payload env) = Unit
  IsServed o (ack d env) = o.is_ok ≡ true

  abbrev pub AllServed : StpClient F → List Call → Type 0
  AllServed c [] = Unit
  AllServed c (k ∷ ks) = IsServed (call c k) k × AllServed (call c k).client ks

module _ {F : Type 0} (f : Float F) (b : ByteBuf) (w : IsFixedWidth b) where
  record_sent-Books :
      (k : ℕ) (c : StpClient F) (env : SendEnv) (n : ℕ) (d : Bytes)
      → 32 ≤ length d
      → Books k c
      → Books k (record_sent f b c env n d)
  unfolding record_sent Protocol.on_packet_sent
  record_sent-Books k c env n d h v = record {
    balance = omega (
      arith,
      v.balance,
      sum_of-append (λ (p : InFlightPacket). p.size) c.loss_recovery.in_flight
          (new_in_flight env.tracked n (length d) d ∷ []),
    );
    acked_fits = v.acked_fits;
    tracked =
        All-append IsTracked c.loss_recovery.in_flight
          (new_in_flight env.tracked n (length d) d ∷ []) v.tracked ((refl, h), tt);
  }

  -- Sending keeps the books, whether the socket takes the datagram or not.
  pub send_data-Books :
      (k : ℕ) (c : StpClient F) (payload : Bytes) (env : SendEnv)
      → Books k c
      → Books k (send_data f b c payload env).client
  unfolding send_data
  send_data-Books k c payload env v = elim (Bool-cases env.is_sent) [
    | inl sent ↦ simp sent (
        record_sent-Books k _ env _ _ (omega (arith, length-encode b w _))
          (record { balance = v.balance; acked_fits = v.acked_fits; tracked = v.tracked }))
    | inr refused ↦
        simp refused
          (record { balance = v.balance; acked_fits = v.acked_fits; tracked = v.tracked })
  ]

  pub new_client-Books : (now : Instant) → Books 0 (new_client f b now)
  unfolding new_client
  new_client-Books now = record { balance = refl; acked_fits = omega arith; tracked = tt }

  session-Books :
      (c : StpClient F) (ks : List Call)
      → AllServed f b c ks
      → Books 0 c
      → Books 0 (session f b c ks)
  unfolding session call
  session-Books c [] h v = v
  session-Books c (send payload env ∷ ks) h v =
      session-Books (send_data f b c payload env).client ks h.1 (send_data-Books 0 c payload env v)
  session-Books c (ack d env ∷ ks) h v =
      session-Books (process_ack f b c d env).client ks h.1
        (process_ack-Books f b w 0 c d env v h.0)

  -- After any calls in which no retransmission is refused, the difference of the counters that the
  -- upload loop tests against the congestion window is the size of the packets in flight.
  pub session_in_flight :
      (now : Instant) (ks : List Call)
      → AllServed f b (new_client f b now) ks
      → let c = session f b (new_client f b now) ks in bytes_in_flight f b c ≡ u64 (flight c)
  unfolding bytes_in_flight
  session_in_flight now ks h =
      let v : Books 0 (session f b (new_client f b now) ks) =
        session-Books _ ks h (new_client-Books now) in
      omega (arith, v.balance, v.acked_fits)
