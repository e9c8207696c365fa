-- ===== src/Udp/Server/Sessions.antt =====
-- Several datagrams of several clients, at the server of src/performance/udp/server.rs.
use speed_cli.Base.{
  ℕ, zero, suc, ◌+◌, ◌-◌, ◌<◌, ◌≡◌, refl, ap, ◌∙◌, ◌≢◌, inl, inr, true, some, List, [], ◌∷◌, arith,
  leb, ◌==◌, min, Bool-cases, Option-cases, Dec-cases, u64,
}
use mathlib.Core.WellFounded.{Acc}
use native.Mathlib.Decide.{dec_lt}
use speed_cli.Base.Order.{lt_wf}
use speed_cli.Base.Time.{Instant}
use speed_cli.Udp.Buf.{Bytes, ByteBuf}
use speed_cli.Udp.Protocol.{StpPacket, decode}
use speed_cli.Udp.Server.{
  StpClientState, Clients, ReceiveEnv, find, put, entry, receive, apply_command, update_statistics,
  next_number, requested_size, starts_with, download_word,
}
use speed_cli.Udp.Server.Burst.{
  SendTry, Progress, Attempt, gone, failed, out, max_udp_payload, send_zeros, send_fragments, burst,
}
use speed_cli.Udp.Server.Fragments.{find-put}
use speed_cli.Udp.Server.Handler.{answer, handle_stp_packet, Datagram, serve}

-- Where an attempt leaves the burst.
abbrev reached : Progress → Attempt → Progress
reached g gone = g
reached g (failed g') = g'
reached g (out g') = g'

-- A property of the map that numbering a packet of a client keeps holds throughout a burst.
module _ (sends : ℕ → SendTry) (addr : ℕ) (P : Clients → Type 0)
    (numbered : (m : Clients) (s : StpClientState) (n : ℕ)
      → find addr m ≡ some s
      → P m
      → P (put addr (record s { local_packet_number = n }) m)) where
  send_zeros_keeps :
      (g : Progress) (size : ℕ) → P g.clients → P (reached g (send_zeros sends addr g size)).clients
  unfolding send_zeros next_number
  send_zeros_keeps g size h = elim (Option-cases (find addr g.clients)) [
    | inl e ↦ rw (e, send_zeros) h
    | inr (s, e) ↦ elim (Bool-cases (sends g.tried).is_sent) [
      | inl y ↦ rw (e, y, send_zeros) (numbered g.clients s (u64 (s.local_packet_number + 1)) e h)
      | inr y ↦ rw (e, y, send_zeros) (numbered g.clients s (u64 (s.local_packet_number + 1)) e h)
    ]
  ]

  after_attempt :
      (g : Progress) (a : Attempt) (next : Progress → Progress)
      → P (reached g a).clients
      → ((g' : Progress) → P g'.clients → P (next g').clients)
      → P (elim a as (λ _. Progress) [ gone ↦ g | failed g' ↦ g' | out g' ↦ next g' ]).clients
  after_attempt g gone next h k = h
  after_attempt g (failed g') next h k = h
  after_attempt g (out g') next h k = k g' h

  send_fragments_keeps :
      (g : Progress) (remaining : ℕ) (w : Acc ◌<◌ remaining)
      → P g.clients
      → P (send_fragments sends addr g remaining w).clients
  unfolding send_fragments
  send_fragments_keeps g remaining (Acc.intro _ smaller) h = elim (Dec-cases (dec_lt 0 remaining)) [
    | inl (more, is_more) ↦ rw is_more (
        after_attempt g (send_zeros sends addr g (min remaining max_udp_payload))
          (λ g'.
            send_fragments sends addr g' (remaining - min remaining max_udp_payload)
              (smaller (remaining - min remaining max_udp_payload) (omega arith)))
          (send_zeros_keeps g (min remaining max_udp_payload) h)
          λ g' h'.
            send_fragments_keeps g' (remaining - min remaining max_udp_payload)
              (smaller (remaining - min remaining max_udp_payload) (omega arith)) h')
    | inr (done, is_done) ↦ rw is_done h
  ]

  burst_keeps :
      (rounds size : ℕ) (g : Progress) → P g.clients → P (burst sends addr rounds size g).clients
  unfolding burst
  burst_keeps zero size g h = h
  burst_keeps (suc rounds) size g h = elim (Bool-cases (leb size max_udp_payload)) [
    | inl single ↦
        rw (single, burst)
          (after_attempt g (send_zeros sends addr g size) (λ g'. burst sends addr rounds size g')
            (send_zeros_keeps g size h) λ g' h'. burst_keeps rounds size g' h')
    | inr large ↦
        rw (large, burst)
          (burst_keeps rounds size (send_fragments sends addr g size (lt_wf.apply size))
            (send_fragments_keeps g size (lt_wf.apply size) h))
  ]

-- So it holds after the handler, if it holds once the received packet is recorded.
module _ (b : ByteBuf) (P : Clients → Type 0) (addr : ℕ)
    (numbered : (m : Clients) (s : StpClientState) (n : ℕ)
      → find addr m ≡ some s
      → P m
      → P (put addr (record s { local_packet_number = n }) m)) where
  answer_keeps :
      (m : Clients) (packet : StpPacket) (env : ReceiveEnv) (sends : ℕ → SendTry)
      → P (put addr (receive (entry addr env.first_seen m) packet env).0 m)
      → P (answer b m addr packet env sends).clients
  unfolding answer
  answer_keeps m packet env sends h =
      let s : StpClientState = (receive (entry addr env.first_seen m) packet env).0 in
      elim (Bool-cases env.ack_is_sent) [
        | inr refused ↦ simp refused h
        | inl sent ↦ elim (Bool-cases s.download_mode) [
          | inr idle ↦ simp (sent, idle) h
          | inl busy ↦
              simp (sent, busy)
                (burst_keeps sends addr P numbered 10 s.download_payload_size
                  (record { clients = put addr s m; tried = 0; packets = [] }) h)
        ]
      ]

  handle_keeps :
      (m : Clients) (d : Bytes) (env : ReceiveEnv) (sends : ℕ → SendTry)
      → P m
      → ((packet : StpPacket)
          → decode b d ≡ some packet
          → P (put addr (receive (entry addr env.first_seen m) packet env).0 m))
      → P (handle_stp_packet b m addr d env sends).clients
  unfolding handle_stp_packet
  handle_keeps m d env sends h k = elim (Option-cases (decode b d)) [
    | inl e ↦ rw (e, handle_stp_packet) h
    | inr (packet, e) ↦ rw (e, handle_stp_packet) (answer_keeps m packet env sends (k packet e))
  ]

-- A datagram changes the entry of its own address at most, whatever the socket answers.
pub others_kept :
    (b : ByteBuf) (m : Clients) (addr other : ℕ) (d : Bytes) (env : ReceiveEnv)
    (sends : ℕ → SendTry)
    → addr ≢ other
    → find other (handle_stp_packet b m addr d env sends).clients ≡ find other m
others_kept b m addr other d env sends ne =
    handle_keeps b (λ m'. find other m' ≡ find other m) addr (λ m' s n e h. put_other m' _ ∙ h) m d
      env sends refl λ packet e. put_other m _
  where
    put_other : (m' : Clients) (s : StpClientState) → find other (put addr s m') ≡ find other m'
    put_other m' s = ground (arith, find-put addr other s m')

-- The client at `a` is in download mode.
abbrev pub IsDownloading : ℕ → Clients → Type 0
IsDownloading a m = (s : StpClientState) × (find a m ≡ some s) × (s.download_mode ≡ true)

IsDownloading-put :
    (a addr : ℕ) (t : StpClientState) (m : Clients)
    → ((s : StpClientState)
        → find addr m ≡ some s
        → s.download_mode ≡ true
        → t.download_mode ≡ true)
    → IsDownloading a m
    → IsDownloading a (put addr t m)
IsDownloading-put a addr t m keeps (r, f, h) = elim (Bool-cases (addr == a)) [
  | inl same ↦ (t, ground (arith, find-put addr a t m), keeps r (ground arith) h)
  | inr other ↦ (r, ground (arith, find-put addr a t m), h)
]

apply_command_mode :
    (s : StpClientState) (payload : Bytes) (now : Instant)
    → s.download_mode ≡ true
    → (apply_command s payload now).download_mode ≡ true
unfolding apply_command
apply_command_mode s payload now h = elim (Bool-cases (starts_with download_word payload)) [
  | inr plain ↦ ground arith
  | inl word ↦ elim (Option-cases (requested_size payload)) [
    | inl e ↦ ground arith
    | inr (size, e) ↦ ground arith
  ]
]

entry_found :
    (a : ℕ) (now : Instant) (m : Clients) (s : StpClientState)
    → find a m ≡ some s
    → entry a now m ≡ s
entry_found a now m s e = rw (e, entry) refl

receive_mode :
    (s : StpClientState) (packet : StpPacket) (env : ReceiveEnv)
    → s.download_mode ≡ true
    → (receive s packet env).0.download_mode ≡ true
unfolding receive update_statistics next_number
receive_mode s packet env h = apply_command_mode s packet.payload env.command_time h

handle_mode :
    (b : ByteBuf) (a addr : ℕ) (m : Clients) (d : Bytes) (env : ReceiveEnv) (sends : ℕ → SendTry)
    → IsDownloading a m
    → IsDownloading a (handle_stp_packet b m addr d env sends).clients
handle_mode b a addr m d env sends h =
    handle_keeps b (IsDownloading a) addr
      (λ m' s n e.
        IsDownloading-put a addr (record s { local_packet_number = n }) m'
          λ t e' k. ground (arith, e, e', k))
      m d env sends h
      λ packet e.
        IsDownloading-put a addr (receive (entry addr env.first_seen m) packet env).0 m
          (λ s f k.
            receive_mode (entry addr env.first_seen m) packet env
              (ap (λ x. x.download_mode) (entry_found addr env.first_seen m s f) ∙ k))
          h

-- No datagram takes a client out of download mode, its own or another's, whatever the socket
-- answers: a client that asked for a download stays there as long as the server runs.
pub download_mode_kept :
    (b : ByteBuf) (a : ℕ) (m : Clients) (ds : List Datagram)
    → IsDownloading a m
    → IsDownloading a (serve b m ds)
unfolding serve
download_mode_kept b a m [] h = h
download_mode_kept b a m (d ∷ ds) h =
    download_mode_kept b a (handle_stp_packet b m d.addr d.bytes d.env d.sends).clients ds
      (handle_mode b a d.addr m d.bytes d.env d.sends h)
