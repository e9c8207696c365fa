-- ===== src/Udp/Client/Ledger/Acks.antt =====
-- The books after `process_ack` of src/performance/udp/client.rs.
use speed_cli.Base.{
  ℕ, ◌+◌, ◌≡◌, refl, sym, ap, ◌∙◌, ◌⊎◌, inl, inr, true, none, some, length, List, arith, All,
  Bool-cases, Option-cases, subst, u64, IsU64, max,
}
use speed_cli.Base.Time.{Duration}
use speed_cli.Float.{Float}
use speed_cli.Udp.Buf.{Bytes, ByteBuf, IsFixedWidth}
use speed_cli.Udp.Protocol.{
  StpHeader, new_header, StpPacket, InFlightPacket, LossRecovery, encode, decode, decode_header,
  new_packet, next_packet_number, Retained, retain, update_from_received,
}
use speed_cli.Udp.Protocol
use speed_cli.Udp.Protocol.Loss.{retain-sum, retain-All}
use speed_cli.Udp.Client.{
  StpClient, Outcome, Retry, AckEnv, count_acked, settle, accept_ack, process_ack, rtt_of,
}
use speed_cli.Udp.Client.Ledger.{total, IsTracked, flight, Books}
use speed_cli.Udp.Client.Ledger.Resend.{count_acked_lem, Resent, Ended, resend_lost_lem}

module _ {F : Type 0} (f : Float F) (b : ByteBuf) (w : IsFixedWidth b) where
  -- What the books of a client look at.
  abbrev SameBooks : StpClient F → StpClient F → Type 0
  SameBooks c c' =
      (c'.bytes_sent ≡ c.bytes_sent)
      × (c'.bytes_acked ≡ c.bytes_acked)
      × (c'.loss_recovery ≡ c.loss_recovery)

  settle_lem :
      (o : Outcome F)
      → SameBooks o.client (settle f b o).client
        × ((settle f b o).is_ok ≡ o.is_ok)
        × ((settle f b o).datagrams ≡ o.datagrams)
  unfolding settle
  settle_lem o = elim (Bool-cases o.is_ok) [
    | inl e ↦ rw e ((refl, refl, refl), refl, refl)
    | inr e ↦ rw e ((refl, refl, refl), refl, refl)
  ]

  Books-same : (k : ℕ) (c c' : StpClient F) → SameBooks c c' → Books k c → Books k c'
  Books-same k c c' s v = record {
    balance = ground arith;
    acked_fits = ground arith;
    tracked = subst (λ (l : LossRecovery). All IsTracked l.in_flight) (sym s.2) v.tracked;
  }

  -- The outcome of a function from a client's books, with what it leaks.
  abbrev pub Settled : ℕ → (ℕ → Retry) → List InFlightPacket → Outcome F → ℕ → Type 0
  Settled k retries lost o r = Books (k + r) o.client × Ended f b w retries 0 lost o r

  Books-settle :
      (k r : ℕ) (c c2 : StpClient F) (retries : ℕ → Retry) (acked lost kept : List InFlightPacket)
      (o : Outcome F)
      → Books k c
      → flight c ≡ total acked + total lost + total kept
      → c2.bytes_sent ≡ c.bytes_sent
      → u64 c2.bytes_acked ≡ u64 (c.bytes_acked + total acked)
      → IsU64 c2.bytes_acked
      → flight c2 ≡ total kept
      → All IsTracked c2.loss_recovery.in_flight
      → Resent f b w c2 (total lost) o r
      → Ended f b w retries 0 lost o r
      → Settled k retries lost (settle f b o) r
  Books-settle k r c c2 retries acked lost kept o v split sent count fits fl tracked (s, a, m, t)
        ended =
      let (same, ok, out) = settle_lem o in
      (
        Books-same (k + r) o.client (settle f b o).client same (record {
          balance = omega (arith, v.balance);
          acked_fits = omega arith;
          tracked = t tracked;
        }),
        elim ended [
          | inl (good, len, left) ↦ inl (ok ∙ good, ap length out ∙ len, left)
          | inr (j, bad, below, refused, len, left) ↦
              inr (j, ok ∙ bad, below, refused, ap length out ∙ len, left)
        ],
      )

  -- The lost packets of an acknowledgment.
  abbrev pub lost_of : StpClient F → StpPacket → AckEnv → List InFlightPacket
  lost_of c packet env =
      (Protocol.on_ack_received c.loss_recovery env.loss_clock packet.header.latest_ack).2

  accept_ack-Books :
      (k : ℕ) (c : StpClient F) (packet : StpPacket) (env : AckEnv)
      → Books k c
      → (r : ℕ) × Settled k env.retries (lost_of c packet env) (accept_ack f b c packet env) r
  unfolding accept_ack Protocol.on_ack_received
  accept_ack-Books k c packet env v =
      let l : LossRecovery = record c.loss_recovery {
        largest_acked = max c.loss_recovery.largest_acked packet.header.latest_ack;
      } in
      let r : Retained =
        retain l env.loss_clock packet.header.latest_ack c.loss_recovery.in_flight in
      let c1 : StpClient F = record c {
        connection = update_from_received c.connection packet.header;
        loss_recovery = record l { in_flight = r.kept };
      } in
      let rtt : Duration = rtt_of f b packet env.rtt_clock in
      let c2 : StpClient F = count_acked f b c1 rtt env.now r.acked in
      let (sent, count, fits, same) = count_acked_lem f b w c1 rtt env.now r.acked in
      let (t_acked, t_lost, t_kept) =
        retain-All IsTracked l env.loss_clock packet.header.latest_ack c.loss_recovery.in_flight
          v.tracked in
      let (owed, done, ended) = resend_lost_lem f b w c2 env.now env.retries 0 r.lost t_lost in
      (
        owed,
        Books-settle k owed c c2 env.retries r.acked r.lost r.kept _ v
            (retain-sum (λ p. p.size) l env.loss_clock packet.header.latest_ack
              c.loss_recovery.in_flight)
            sent count (fits v.acked_fits) (ap (λ (m : LossRecovery). total m.in_flight) same)
            (subst (λ (m : LossRecovery). All IsTracked m.in_flight) (sym same) t_kept) done ended,
      )

  -- Processing a datagram keeps the books: of the bytes counted as sent, all are acknowledged, in
  -- flight or leaked. One that does not decode changes nothing. For an ACK the call tries to send the
  -- lost packets again, one after the other. If the socket takes all of them, the call ends well and
  -- leaks nothing. If it refuses attempt `j`, then `j` datagrams went out, the call fails, and the
  -- packets of the list from that one on are in flight no more: just their sizes leak.
  pub process_ack_balance :
      (k : ℕ) (c : StpClient F) (d : Bytes) (env : AckEnv)
      → Books k c
      → let o = process_ack f b c d env in
        ((decode b d ≡ none) × (o.client ≡ c) × (o.is_ok ≡ true))
        ⊎ ((packet : StpPacket) × (decode b d ≡ some packet)
            × (r : ℕ) × Books (k + r) o.client
            × Ended f b w env.retries 0 (lost_of c packet env) o r)
  unfolding process_ack
  process_ack_balance k c d env v = elim (Option-cases (decode b d)) [
    | inl e ↦ rw (e, process_ack) (inl (refl, refl, refl))
    | inr (p, e) ↦
        let (r, settled) = accept_ack-Books k c p env v in
        rw (e, process_ack) (inr (p, refl, r, settled.0, settled.1))
  ]

  -- A call that ends well leaks nothing.
  pub process_ack-Books :
      (k : ℕ) (c : StpClient F) (d : Bytes) (env : AckEnv)
      → Books k c
      → (process_ack f b c d env).is_ok ≡ true
      → Books k (process_ack f b c d env).client
  process_ack-Books k c d env v ok = elim (process_ack_balance k c d env v) [
    | inl (e, same, good) ↦ subst (λ x. Books k x) (sym same) v
    | inr (p, e, r, books, inl (good, len, none_left)) ↦
        subst (λ n. Books n (process_ack f b c d env).client) {x = k + r} {y = k}
          (omega (arith, none_left)) books
    | inr (p, e, r, books, inr (j, bad, below, refused, len, left)) ↦
        absurd (ground (arith, ok, bad))
  ]
