-- ===== src/Udp/Client/Ledger/Resend.antt =====
-- The loops of `process_ack` in src/performance/udp/client.rs: what they do to the byte counters.
use speed_cli.Base.{
  ℕ, suc, ◌+◌, ◌<◌, ◌⊎◌, ap, ◌≤◌, ◌≡◌, refl, ◌∙◌, inl, inr, true, false, some, List, [], ◌∷◌, arith,
  length, sum_of-append, All, All-append, Bool-cases, u64, IsU64, take, drop, length-take,
  length-drop,
}
use speed_cli.Base.Time.{Duration, Instant}
use speed_cli.Float.{Float}
use speed_cli.Udp.Buf.{Bytes, ByteBuf, IsFixedWidth}
use speed_cli.Udp.Protocol.{
  StpHeader, new_header, StpPacket, InFlightPacket, LossRecovery, encode, decode, decode_header,
  new_packet, next_packet_number, Retained, retain, update_from_received,
}
use speed_cli.Udp.Protocol
use speed_cli.Udp.Protocol.Wire.{length-encode}
use speed_cli.Udp.Client.{
  StpClient, Outcome, Retry, count_acked, refresh, count_one, renumber, track_retransmission,
  resend_lost,
}
use speed_cli.Udp.Client.Ledger.{total, IsTracked, flight}

module _ (b : ByteBuf) (w : IsFixedWidth b) where
  decode_header_long : (s : Bytes) → 32 ≤ length s → (h : StpHeader) × (decode_header b s ≡ some h)
  unfolding decode_header
  decode_header_long s h =
      let (p, s1) = b.get_u64 s in
      let (t, s2) = b.get_u64 s1 in
      let (a, s3) = b.get_u64 s2 in (new_header t p a (b.get_u64 s3).0, ground arith)

  -- A datagram that holds a header decodes, to a packet of its length.
  decode_long :
      (d : Bytes)
      → 32 ≤ length d
      → (p : StpPacket) × (decode b d ≡ some p) × (32 + length p.payload ≡ length d)
  unfolding decode
  decode_long d h =
      let (k, e) = decode_header_long (take 32 d) (omega (arith, length-take 32 d)) in
      (record { header = k; payload = drop 32 d }, ground arith, omega (arith, length-drop 32 d))

module _ {F : Type 0} (f : Float F) (b : ByteBuf) (w : IsFixedWidth b) where
  pub count_acked_lem :
      (c : StpClient F) (rtt : Duration) (now : Instant) (ps : List InFlightPacket)
      → let c' = count_acked f b c rtt now ps in
        (c'.bytes_sent ≡ c.bytes_sent)
        × (u64 c'.bytes_acked ≡ u64 (c.bytes_acked + total ps))
        × (IsU64 c.bytes_acked → IsU64 c'.bytes_acked)
        × (c'.loss_recovery ≡ c.loss_recovery)
  unfolding count_acked
  count_acked_lem c rtt now [] = (refl, omega arith, λ h. h, refl)
  count_acked_lem c rtt now (p ∷ ps) =
      let (sent, acked, fits, rest) = count_acked_lem (count_one f b c rtt now p) rtt now ps in
      (sent, omega arith, λ h. fits (omega arith), rest)

  -- What the loop over the lost packets does to the books: it owes the total of the list. What it
  -- tracks again, plus `r`, is that total.
  abbrev pub Resent : StpClient F → ℕ → Outcome F → ℕ → Type 0
  Resent c owed o r =
      (o.client.bytes_sent ≡ c.bytes_sent)
      × (o.client.bytes_acked ≡ c.bytes_acked)
      × (flight o.client + r ≡ flight c + owed)
      × (All IsTracked c.loss_recovery.in_flight → All IsTracked o.client.loss_recovery.in_flight)

  -- The loop ran to the end and every attempt from `i` on was sent, so that nothing is left out; or
  -- the socket refused attempt `i + j`, for the j-th packet of the list, and that packet and all
  -- after it are left out.
  abbrev pub Ended : (ℕ → Retry) → ℕ → List InFlightPacket → Outcome F → ℕ → Type 0
  Ended retries i ps o r =
      (o.is_ok ≡ true) × (length o.datagrams ≡ length ps) × (r ≡ 0)
      ⊎ ((j : ℕ) × (o.is_ok ≡ false)
          × (j < length ps)
          × ((retries (i + j)).is_sent ≡ false)
          × (length o.datagrams ≡ j)
          × (r ≡ total (drop j ps)))

  track_lem :
      (c : StpClient F) (r : Retry) (d : Bytes)
      → let c' = track_retransmission f b c r d in
        (flight c' ≡ flight c + length d)
        × (32 ≤ length d
            → All IsTracked c.loss_recovery.in_flight
            → All IsTracked c'.loss_recovery.in_flight)
  unfolding track_retransmission Protocol.on_packet_sent
  track_lem c r d = (
    omega (
      arith,
      sum_of-append (λ (p : InFlightPacket). p.size) c.loss_recovery.in_flight
          (record {
            packet_number = c.connection.local_packet_number;
            sent_time = r.tracked;
            size = length d;
            bytes = d;
            retransmitted = true;
          }
            ∷ []),
    ),
    λ h t. All-append IsTracked c.loss_recovery.in_flight _ t ((refl, h), tt),
  )

  -- The client after one lost packet has gone out again.
  abbrev resent : StpClient F → Instant → Retry → InFlightPacket → StpPacket → StpClient F
  resent c now r lost p =
      let c' = renumber f b c now lost in
      track_retransmission f b c' r
        (encode b (refresh f b c'.connection r.stamp c'.connection.local_packet_number p))

  resent_lem :
      (c : StpClient F) (now : Instant) (r : Retry) (lost : InFlightPacket) (p : StpPacket)
      → IsTracked lost
      → 32 + length p.payload ≡ length lost.bytes
      → let c' = resent c now r lost p in
        (c'.bytes_sent ≡ c.bytes_sent)
        × (c'.bytes_acked ≡ c.bytes_acked)
        × (flight c' ≡ flight c + lost.size)
        × (All IsTracked c.loss_recovery.in_flight → All IsTracked c'.loss_recovery.in_flight)
  unfolding renumber track_retransmission refresh
  resent_lem c now r lost p h l =
      let c1 : StpClient F = renumber f b c now lost in
      let again : StpPacket =
        refresh f b c1.connection r.stamp c1.connection.local_packet_number p in
      let len : length (encode b again) ≡ 32 + length p.payload = length-encode b w again in
      let (fl, kept) = track_lem c1 r (encode b again) in
      (refl, refl, omega arith, λ t. kept (omega arith) t)

  resend_sent :
      (c : StpClient F) (now : Instant) (retries : ℕ → Retry) (i : ℕ) (lost : InFlightPacket)
      (ps : List InFlightPacket) (p : StpPacket) (r : ℕ)
      → IsTracked lost
      → decode b lost.bytes ≡ some p
      → 32 + length p.payload ≡ length lost.bytes
      → (retries i).is_sent ≡ true
      → let o = resend_lost f b (resent c now (retries i) lost p) now retries (i + 1) ps in
        let o' = resend_lost f b c now retries i (lost ∷ ps) in
        Resent (resent c now (retries i) lost p) (total ps) o r
        → Ended retries (i + 1) ps o r
        → Resent c (total (lost ∷ ps)) o' r × Ended retries i (lost ∷ ps) o' r
  unfolding resend_lost
  resend_sent c now retries i lost ps p r h e l sent (s, a, fl, kept) ended =
      let (s1, a1, fl1, kept1) = resent_lem c now (retries i) lost p h l in
      rw (e, sent, resend_lost)
        (
          (s ∙ s1, a ∙ a1, omega arith, λ t. kept (kept1 t)),
          elim ended [
            | inl (ok, len, none_left) ↦ inl (ok, ap suc len, none_left)
            | inr (j, bad, below, refused, len, left) ↦ inr (
              suc j,
              bad,
              omega arith,
              ap (λ k. (retries k).is_sent) {x = i + suc j} {y = (i + 1) + j} (omega arith)
                  ∙ refused,
              ap suc len,
              left,
            )
          ],
        )

  resend_refused :
      (c : StpClient F) (now : Instant) (retries : ℕ → Retry) (i : ℕ) (lost : InFlightPacket)
      (ps : List InFlightPacket) (p : StpPacket)
      → IsTracked lost
      → decode b lost.bytes ≡ some p
      → (retries i).is_sent ≡ false
      → let o = resend_lost f b c now retries i (lost ∷ ps) in
        Resent c (total (lost ∷ ps)) o (total (lost ∷ ps))
        × Ended retries i (lost ∷ ps) o (total (lost ∷ ps))
  unfolding resend_lost renumber
  resend_refused c now retries i lost ps p h e refused =
      rw (e, refused, resend_lost)
        (
          (refl, refl, omega arith, λ t. t),
          inr (
            0,
            refl,
            omega arith,
            ap (λ k. (retries k).is_sent) {x = i + 0} {y = i} (omega arith) ∙ refused,
            refl,
            refl,
          ),
        )

  pub resend_lost_lem :
      (c : StpClient F) (now : Instant) (retries : ℕ → Retry) (i : ℕ) (ps : List InFlightPacket)
      → All IsTracked ps
      → let o = resend_lost f b c now retries i ps in
        (r : ℕ) × Resent c (total ps) o r × Ended retries i ps o r
  resend_lost_lem c now retries i [] h =
      unfold resend_lost in (0, (refl, refl, omega arith, λ t. t), inl (refl, refl, refl))
  resend_lost_lem c now retries i (lost ∷ ps) h =
      let (p, e, l) = decode_long b w lost.bytes (omega arith) in
      let (r, rest, ended) =
        resend_lost_lem (resent c now (retries i) lost p) now retries (i + 1) ps h.1 in
      elim (Bool-cases (retries i).is_sent) [
        | inl sent ↦
            let (books, end) = resend_sent c now retries i lost ps p r h.0 e l sent rest ended in
            (r, books, end)
        | inr refused ↦
            let (books, end) = resend_refused c now retries i lost ps p h.0 e refused in
            (total (lost ∷ ps), books, end)
      ]
