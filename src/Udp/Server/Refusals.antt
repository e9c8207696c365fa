-- ===== src/Udp/Server/Refusals.antt =====
-- Bursts of src/performance/udp/server.rs that nobody asked for, and bursts that the socket refuses.
use mathlib.Core.WellFounded.{Acc}
use native.Mathlib.Decide.{dec_lt}
use speed_cli.Base.{
  ℕ, zero, suc, ◌+◌, ◌<◌, ◌≡◌, refl, ap, ◌∙◌, true, false, some, List, [], ◌∷◌, arith, leb,
  if◌then◌else◌, min, subst, Bool-cases, Dec-cases, inl, inr, u64,
}
use speed_cli.Base.Order.{lt_wf}
use speed_cli.Udp.Buf.{ByteBuf, IsFixedWidth}
use speed_cli.Udp.Protocol.{StpPacket, StpHeader, encode, decode}
use speed_cli.Udp.Protocol.Wire.{decode-encode, IsHeader}
use speed_cli.Udp.Server.{
  StpClientState, Clients, ReceiveEnv, find, put, entry, receive, apply_command, update_statistics,
  next_number, strip_prefix,
}
use speed_cli.Udp.Server.Burst.{
  SendTry, Progress, failed, max_udp_payload, send_zeros, send_fragments, burst,
}
use speed_cli.Udp.Server.Fragments.{Payloads, find-put, burst_all}
use speed_cli.Udp.Server.Handler.{handle_stp_packet}
use speed_cli.Udp.Server.Command.{answer-burst}

-- A bare ACK leaves the download settings as they are.
receive-ack_only :
    (a : ℕ) (m : Clients) (env : ReceiveEnv) (s : StpClientState) (h : StpHeader)
    → find a m ≡ some s
    → let s' = (receive (entry a env.first_seen m) (record { header = h; payload = [] }) env).0 in
      (s'.download_mode ≡ s.download_mode) × (s'.download_payload_size ≡ s.download_payload_size)
unfolding receive apply_command update_statistics next_number strip_prefix
receive-ack_only a m env s h e =
    let found : entry a env.first_seen m ≡ s = rw (e, entry) refl in
    (ap (λ x. x.download_mode) found, ap (λ x. x.download_payload_size) found)

module _ (b : ByteBuf) (w : IsFixedWidth b) where
  -- From an address in download mode a datagram with a header and no payload, such as the ACK that
  -- the client sends for each packet of a burst, is answered by another burst of ten payloads of
  -- zeros of the size that was asked for, if the socket takes every send.
  pub handle_stp_packet-ack_only :
      (h : StpHeader) (addr : ℕ) (m : Clients) (s : StpClientState) (env : ReceiveEnv)
      (sends : ℕ → SendTry)
      → IsHeader h
      → find addr m ≡ some s
      → s.download_mode ≡ true
      → env.ack_is_sent ≡ true
      → ((i : ℕ) → (sends i).is_sent ≡ true)
      → let r =
          handle_stp_packet b m addr (encode b (record { header = h; payload = [] })) env sends in
        (ack : StpPacket) × (ps : List StpPacket) × (r.packets ≡ ack ∷ ps)
        × Payloads 10 s.download_payload_size ps
  unfolding handle_stp_packet
  handle_stp_packet-ack_only h addr m s env sends v e mode sent all_out =
      let packet : StpPacket = record { header = h; payload = [] } in
      let r : StpClientState × StpPacket = receive (entry addr env.first_seen m) packet env in
      let (same_mode, same_size) = receive-ack_only addr m env s h e in
      let g : Progress = record { clients = put addr r.0 m; tried = 0; packets = [] } in
      let (ps, t, list, _, _, _, total, _) =
        burst_all sends addr all_out 10 r.0.download_payload_size g r.0
          (ground (arith, find-put addr addr r.0 m)) in
      let served = answer-burst b w m addr packet env sends sent (same_mode ∙ mode) in
      let read : decode b (encode b packet) ≡ some packet = decode-encode b w packet v in
      rw (read, handle_stp_packet)
        (
          r.1,
          ps,
          ap (λ x. x.packets) served ∙ ap (λ x. r.1 ∷ x) list,
          subst (λ x. Payloads 10 x ps) same_size total,
        )

-- The attempts of a burst that the socket refuses throughout.
abbrev pub attempts : ℕ → ℕ → ℕ
attempts rounds size = if leb size max_udp_payload then min 1 rounds else rounds

module _ (sends : ℕ → SendTry) (addr : ℕ) (refused : (i : ℕ) → (sends i).is_sent ≡ false) where
  -- One refused attempt.
  send_zeros_failed :
      (g : Progress) (s : StpClientState) (size : ℕ)
      → find addr g.clients ≡ some s
      → (g' : Progress) × (s' : StpClientState) × (send_zeros sends addr g size ≡ failed g')
        × (find addr g'.clients ≡ some s')
        × (g'.tried ≡ suc g.tried)
        × (g'.packets ≡ g.packets)
  unfolding send_zeros next_number
  send_zeros_failed g s size e =
      let s' : StpClientState = record s {
        local_packet_number = u64 (s.local_packet_number + 1);
      } in
      (
        record g { clients = put addr s' g.clients; tried = suc g.tried },
        s',
        rw (e, refused g.tried, send_zeros) refl,
        ground (arith, find-put addr addr s' g.clients),
        refl,
        refl,
      )

  fragments_failed :
      (g : Progress) (s : StpClientState) (remaining : ℕ) (a : Acc ◌<◌ remaining)
      → 0 < remaining
      → find addr g.clients ≡ some s
      → let g' = send_fragments sends addr g remaining a in
        (s' : StpClientState) × (find addr g'.clients ≡ some s')
        × (g'.tried ≡ suc g.tried)
        × (g'.packets ≡ g.packets)
  unfolding send_fragments
  fragments_failed g s remaining (Acc.intro _ smaller) more e =
      elim (Dec-cases (dec_lt 0 remaining)) [
        | inr (done, _) ↦ absurd (done more)
        | inl (_, is_more) ↦
            let (g', s', went, here, tried, packets) =
              send_zeros_failed g s (min remaining max_udp_payload) e in
            rw (is_more, went, send_fragments) (s', here, tried, packets)
      ]

  -- When the socket refuses every send, a burst of single packets stops at its first attempt, but
  -- one of fragmented payloads makes an attempt in each of its rounds.
  pub burst_refused :
      (rounds size : ℕ) (g : Progress) (s : StpClientState)
      → find addr g.clients ≡ some s
      → let g' = burst sends addr rounds size g in
        (g'.tried ≡ g.tried + attempts rounds size) × (g'.packets ≡ g.packets)
  unfolding burst
  burst_refused zero size g s e = (ground arith, refl)
  burst_refused (suc rounds) size g s e = elim (Bool-cases (leb size max_udp_payload)) [
    | inl single ↦
        let (g', s', went, here, tried, packets) = send_zeros_failed g s size e in
        rw (single, went, burst) (omega (arith, tried), packets)
    | inr large ↦
        let g1 : Progress = send_fragments sends addr g size (lt_wf.apply size) in
        let (s', here, tried, packets) =
          fragments_failed g s size (lt_wf.apply size) (ground arith) e in
        let (tried', packets') = burst_refused rounds size g1 s' here in
        rw (large, burst) (ground (arith, tried, tried', large), packets' ∙ packets)
  ]
