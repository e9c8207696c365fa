-- ===== src/Udp/Server/Command.antt =====
-- The DOWNLOAD command from the client to the burst, over src/performance/udp/client.rs,
-- protocol.rs and server.rs.
use speed_cli.Base.{
  ℕ, ◌+◌, ◌≤◌, ◌<◌, ◌≡◌, refl, sym, ap, ◌∙◌, true, some, List, [], ◌∷◌, ◌++◌, arith, All, IsU64,
  u64, subst,
}
use speed_cli.Base.Decimal.{print_usize, parse_usize-print_usize, IsDigit, print_usize-IsDigit}
use speed_cli.Udp.Buf.{Bytes, ByteBuf, IsFixedWidth}
use speed_cli.Udp.Protocol.{
  StpPacket, ConnectionState, new_packet, encode, decode, next_packet_number,
}
use speed_cli.Udp.Protocol.Wire.{decode-encode}
use speed_cli.Udp.Client.Download.{download_cmd}
use speed_cli.Udp.Server.{
  StpClientState, Clients, ReceiveEnv, find, put, entry, strip_prefix, download_prefix, is_utf8,
  utf8_from, requested_size, apply_command, receive, update_statistics, next_number,
}
use speed_cli.Udp.Server.Burst.{SendTry, Progress, max_udp_payload, burst}
use speed_cli.Udp.Server.Fragments.{Payloads, payload_length, Numbered, find-put, burst_all}
use speed_cli.Udp.Server.Handler.{Handled, answer, handle_stp_packet}

utf8_ascii : (s : Bytes) → All (λ c. c < 128) s → is_utf8 s ≡ true
unfolding utf8_from
utf8_ascii [] h = refl
utf8_ascii (c ∷ s) (h, hs) = ground (arith, utf8_ascii s hs)

digits_ascii : (s : Bytes) → All IsDigit s → All (λ c. c < 128) s
digits_ascii [] h = tt
digits_ascii (c ∷ s) (h, hs) = (omega arith, digits_ascii s hs)

requested_size-download :
    (n : ℕ) → IsU64 n → requested_size (download_prefix ++ print_usize n) ≡ some n
unfolding requested_size strip_prefix utf8_from
requested_size-download n h =
    rw
      (
        utf8_ascii (print_usize n) (digits_ascii (print_usize n) (print_usize-IsDigit n)),
        requested_size,
      )
      (parse_usize-print_usize n h)

-- The client's entry and the ACK after a DOWNLOAD command that bears the number `k`.
receive-download :
    (s : StpClientState) (k now n : ℕ) (env : ReceiveEnv)
    → IsU64 n
    → let packet = new_packet now k 0 0 (download_prefix ++ print_usize n) in
      let (s', ack) = receive s packet env in
      (s'.download_mode ≡ true)
      × (s'.download_payload_size ≡ n)
      × (ack.header.packet_number ≡ s'.local_packet_number)
      × (s'.local_packet_number ≡ u64 (s.local_packet_number + 1))
      × (ack.header.latest_ack ≡ k)
      × (ack.header.ack_timestamp_echo ≡ now)
unfolding receive apply_command update_statistics next_number strip_prefix
receive-download s k now n env h =
    let e = requested_size-download n h in (simp e refl, simp e refl, refl, simp e refl, refl, refl)

-- The ACK of the command, then ten payloads of zeros of the requested size under consecutive
-- numbers; the client's entry is in download mode at that size.
abbrev pub IsFullAnswer : (k now n addr : ℕ) → Handled → Type 0
IsFullAnswer k now n addr r =
    (ack : StpPacket) × (ps : List StpPacket) × (s : StpClientState) × (r.packets ≡ ack ∷ ps)
    × (ack.header.latest_ack ≡ k)
    × (ack.header.ack_timestamp_echo ≡ now)
    × Numbered ack.header.packet_number ps s.local_packet_number
    × Payloads 10 n ps
    × All (λ p. payload_length p ≤ max_udp_payload) ps
    × (find addr r.clients ≡ some s)
    × (s.download_mode ≡ true)
    × (s.download_payload_size ≡ n)

module _ (b : ByteBuf) (w : IsFixedWidth b) where
  -- In download mode, once the ACK is out, a burst of the requested size follows.
  pub answer-burst :
      (m : Clients) (addr : ℕ) (packet : StpPacket) (env : ReceiveEnv) (sends : ℕ → SendTry)
      → let (s, ack) = receive (entry addr env.first_seen m) packet env in
        let g =
          burst sends addr 10 s.download_payload_size
            (record { clients = put addr s m; tried = 0; packets = [] }) in
        env.ack_is_sent ≡ true
        → s.download_mode ≡ true
        → answer b m addr packet env sends
          ≡ record { clients = g.clients; packets = ack ∷ g.packets; is_ok = true }
  unfolding answer
  answer-burst m addr packet env sends sent mode = simp (sent, mode) refl

  -- The server's answer to a DOWNLOAD packet that decodes.
  answer-download :
      (k now n addr : ℕ) (m : Clients) (env : ReceiveEnv) (sends : ℕ → SendTry)
      → IsU64 n
      → env.ack_is_sent ≡ true
      → ((i : ℕ) → (sends i).is_sent ≡ true)
      → IsFullAnswer k now n addr
          (answer b m addr (new_packet now k 0 0 (download_prefix ++ print_usize n)) env sends)
  unfolding answer
  answer-download k now n addr m env sends h sent out =
      let packet : StpPacket = new_packet now k 0 0 (download_prefix ++ print_usize n) in
      let r : StpClientState × StpPacket = receive (entry addr env.first_seen m) packet env in
      let (mode, size, from, _, acks, echo) =
        receive-download (entry addr env.first_seen m) k now n env h in
      let g : Progress = record { clients = put addr r.0 m; tried = 0; packets = [] } in
      let (ps, s, e, here, kept, numbers, total, small) =
        burst_all sends addr out 10 r.0.download_payload_size g r.0
          (ground (arith, find-put addr addr r.0 m)) in
      subst (λ x. IsFullAnswer k now n addr x)
        (sym (answer-burst m addr packet env sends sent mode))
        (
          r.1,
          ps,
          s,
          ap (λ x. r.1 ∷ x) e,
          acks,
          echo,
          subst (λ i. Numbered i ps s.local_packet_number) (sym from) numbers,
          subst (λ x. Payloads 10 x ps) size total,
          small,
          here,
          ap {A = StpClientState} (λ x. x.download_mode) kept ∙ mode,
          ap {A = StpClientState} (λ x. x.download_payload_size) kept ∙ size,
        )

  -- The datagram of the client's download command for `n` bytes, sent on a connection `c` at the
  -- wall clock's `now`, is answered by an ACK that echoes its number and `now`, and then by ten
  -- payloads of zeros of `n` bytes each, under consecutive numbers in datagrams of at most 1400
  -- bytes of payload, if the socket takes every send. The entry ends in download mode at size `n`.
  pub handle_stp_packet-download_cmd :
      (c : ConnectionState) (now n addr : ℕ) (m : Clients) (env : ReceiveEnv) (sends : ℕ → SendTry)
      → IsU64 now
      → IsU64 n
      → env.ack_is_sent ≡ true
      → ((i : ℕ) → (sends i).is_sent ≡ true)
      → let (c', d) = download_cmd b c now n in
        IsFullAnswer c'.local_packet_number now n addr (handle_stp_packet b m addr d env sends)
  unfolding download_cmd next_packet_number handle_stp_packet
  handle_stp_packet-download_cmd c now n addr m env sends t h sent out =
      let k : ℕ = u64 (c.local_packet_number + 1) in
      let packet : StpPacket = new_packet now k 0 0 (download_prefix ++ print_usize n) in
      let read : decode b (encode b packet) ≡ some packet = decode-encode b w packet (record {
        packet_number_fits = omega arith;
        timestamp_fits = t;
        latest_ack_fits = omega arith;
        echo_fits = omega arith;
      }) in
      rw (read, handle_stp_packet) (answer-download k now n addr m env sends h sent out)
