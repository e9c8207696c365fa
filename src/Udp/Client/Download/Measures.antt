-- ===== src/Udp/Client/Download/Measures.antt =====
-- What the download loop of src/performance/udp/client.rs measures and acknowledges.
use mathlib.Core.List.{append_assoc, append-nil}
use speed_cli.Base.{
  ℕ, ◌+◌, ◌≡◌, refl, sym, ap, ◌∙◌, u32, inl, inr, List, [], ◌∷◌, ◌++◌, none, some, true, arith, ltb,
  length, sum_of, sum_of-append, map, Bool-cases, Option-cases, if◌then◌else◌, map-append,
}
use speed_cli.Base.Time.{Duration, Instant, from_secs, duration_since}
use speed_cli.Report.Throughput.{
  success, failure, ConnectionError, transfer_failed, timeout, unknown, bytes_of,
}
use speed_cli.Udp.Buf.{Bytes, ByteBuf}
use speed_cli.Udp.Protocol.{StpPacket, decode, next_packet_number, ack_only}
use speed_cli.Udp.Client.Download.{
  Received, datagram, socket_error, nothing, Pass, Download, record_measurement, take_datagram,
  take_timeout, download_loop,
}

module _ (b : ByteBuf) where
  -- The packets of the turns before the first late one and before an error of the socket.
  unfoldable pub delivered : Duration → List Pass → List StpPacket
  delivered duration [] = []
  delivered duration (p ∷ ps) =
      if ltb p.elapsed duration
      then (elim p.received [
        | datagram d read_start stamp took message ↦
            (elim (decode b d) as (λ _. List StpPacket) [ none ↦ [] | some packet ↦ packet ∷ [] ])
            ++ delivered duration ps
        | socket_error now message ↦ []
        | nothing now again message ↦ delivered duration ps
      ])
      else []

  abbrev pub payload_bytes : StpPacket → ℕ
  payload_bytes p = length p.payload

  -- What an ACK says.
  abbrev pub acked : StpPacket → ℕ × ℕ
  acked a = (a.header.latest_ack, a.header.ack_timestamp_echo)

  abbrev pub stamped : StpPacket → ℕ × ℕ
  stamped p = (p.header.packet_number, p.header.timestamp)

  -- `s'` comes from `s` by the packets.
  pub record Took (s : Download) (ps : List StpPacket) (s' : Download) : Type 0 where
    pub bytes :
        sum_of bytes_of s'.measurements ≡ sum_of bytes_of s.measurements + sum_of payload_bytes ps
    pub acks : map acked s'.acks ≡ map acked s.acks ++ map stamped ps

  take_datagram-Took :
      (s : Download) (d : Bytes) (read_start : Instant) (stamp : ℕ) (took : Duration)
      (message : List ℕ)
      → Took s
          (elim (decode b d) as (λ _. List StpPacket) [ none ↦ [] | some p ↦ p ∷ [] ])
          (take_datagram b s d read_start stamp took message)
  unfolding take_datagram next_packet_number
  take_datagram-Took s d read_start stamp took message = elim (Option-cases (decode b d)) [
    | inl e ↦
        rw (e, take_datagram)
          (record {
            bytes = omega (
              arith,
              sum_of-append bytes_of s.measurements (failure (transfer_failed message) took 0 ∷ []),
            );
            acks = sym (append-nil (map acked s.acks));
          })
    | inr (p, e) ↦
        rw (e, take_datagram)
          (record {
            bytes = omega (
              arith,
              sum_of-append bytes_of s.measurements (success (length p.payload) took ∷ []),
            );
            acks = map-append acked s.acks (
                ack_only stamp (next_packet_number s.connection).1 p.header.packet_number
                  p.header.timestamp
                ∷ []);
          })
  ]

  Took-then :
      (s s1 s2 : Download) (ps qs : List StpPacket)
      → Took s ps s1
      → Took s1 qs s2
      → Took s (ps ++ qs) s2
  Took-then s s1 s2 ps qs h k = record {
    bytes = omega (arith, h.bytes, k.bytes, sum_of-append payload_bytes ps qs);
    acks =
        k.acks
        ∙ (ap (λ x. x ++ map stamped qs) h.acks
            ∙ (append_assoc (map acked s.acks) (map stamped ps) (map stamped qs)
                ∙ ap (λ x. map acked s.acks ++ x) (sym (map-append stamped ps qs))));
  }

  -- A failed measurement counts no bytes.
  Took-failure :
      (s : Download) (e : ConnectionError) (d : Duration) (n : ℕ)
      → Took s [] (record_measurement s (failure e d n))
  Took-failure s e d n = record {
    bytes = omega (arith, sum_of-append bytes_of s.measurements (failure e d n ∷ []));
    acks = sym (append-nil (map acked s.acks));
  }

  Took-nothing :
      (s s' : Download) → s'.measurements ≡ s.measurements → s'.acks ≡ s.acks → Took s [] s'
  Took-nothing s s' e k = record {
    bytes = ap (sum_of bytes_of) e ∙ omega arith;
    acks = ap (map acked) k ∙ sym (append-nil (map acked s.acks));
  }

  take_timeout-Took :
      (s : Download) (now again : Instant) (message : List ℕ)
      → Took s [] (take_timeout b s now again message)
  unfolding take_timeout
  take_timeout-Took s now again message =
      elim (Bool-cases (ltb (from_secs 2) (duration_since now s.last_successful_receive))) [
        | inl long ↦ simp long (record {
          bytes = omega (
            arith,
            sum_of-append bytes_of s.measurements (
                failure (timeout message) (duration_since now s.last_successful_receive)
                  (u32 (s.timeout_count + 1))
                ∷ []),
          );
          acks = sym (append-nil (map acked s.acks));
        })
        | inr short ↦
            simp short
              (Took-nothing s (record s { timeout_count = u32 (s.timeout_count + 1) }) refl refl)
      ]

  download_pass-Took :
      (duration : Duration) (s : Download) (p : Pass) (ps : List Pass)
      → ltb p.elapsed duration ≡ true
      → ((s1 : Download) → Took s1 (delivered duration ps) (download_loop b duration s1 ps))
      → (r : Received) → p.received ≡ r
      → Took s (delivered duration (p ∷ ps)) (download_loop b duration s (p ∷ ps))
  unfolding download_loop delivered
  download_pass-Took duration s p ps early next (datagram d read_start stamp took message) e =
      let s1 : Download = take_datagram b s d read_start stamp took message in
      simp (early, e)
        (Took-then s s1 (download_loop b duration s1 ps)
          (elim (decode b d) as (λ _. List StpPacket) [ none ↦ [] | some q ↦ q ∷ [] ])
          (delivered duration ps) (take_datagram-Took s d read_start stamp took message) (next s1))
  download_pass-Took duration s p ps early next (socket_error now message) e =
      simp (early, e)
        (Took-failure s (unknown message) (duration_since now s.last_successful_receive) 0)
  download_pass-Took duration s p ps early next (nothing now again message) e =
      let s1 : Download = take_timeout b s now again message in
      simp (early, e)
        (Took-then s s1 (download_loop b duration s1 ps) [] (delivered duration ps)
          (take_timeout-Took s now again message) (next s1))

  -- The bytes that the download loop measures are those of the payloads of the valid packets that
  -- came in time, and it acknowledges each of them, in order, by its number and its time stamp.
  pub download_loop-Took :
      (duration : Duration) (s : Download) (ps : List Pass)
      → Took s (delivered duration ps) (download_loop b duration s ps)
  unfolding download_loop delivered
  download_loop-Took duration s [] = Took-nothing s s refl refl
  download_loop-Took duration s (p ∷ ps) = elim (Bool-cases (ltb p.elapsed duration)) [
    | inr late ↦ rw (late, download_loop, delivered) (Took-nothing s s refl refl)
    | inl early ↦
        download_pass-Took duration s p ps early (λ s1. download_loop-Took duration s1 ps)
          p.received refl
  ]
