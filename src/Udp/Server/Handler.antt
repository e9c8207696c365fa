-- ===== src/Udp/Server/Handler.antt =====
-- `handle_stp_packet` of src/performance/udp/server.rs as a whole, and the server over a sequence
-- of datagrams: it takes them one at a time.
use speed_cli.Base.{ℕ, Bool, true, false, none, some, List, [], ◌∷◌, if◌then◌else◌}
use speed_cli.Udp.Buf.{Bytes, ByteBuf}
use speed_cli.Udp.Protocol.{StpPacket, decode}
use speed_cli.Udp.Server.{Clients, ReceiveEnv, receive, put, entry}
use speed_cli.Udp.Server.Burst.{SendTry, burst}

-- The map after a datagram, the packets that the socket took, and whether the handler ended with
-- `Ok`.
pub record Handled : Type 0 where
  pub clients : Clients
  pub packets : List StpPacket
  pub is_ok : Bool

-- A datagram of `recv_from`, with what the environment answers while it is handled.
pub record Datagram : Type 0 where
  pub addr : ℕ
  pub bytes : Bytes
  pub env : ReceiveEnv
  pub sends : ℕ → SendTry

module _ (b : ByteBuf) where
  -- A packet that decodes.
  unfoldable pub answer : Clients → ℕ → StpPacket → ReceiveEnv → (ℕ → SendTry) → Handled
  answer m addr packet env sends =
      let (s, ack) = receive (entry addr env.first_seen m) packet env in
      let m' = put addr s m in
      if env.ack_is_sent
      then (if s.download_mode
          then (let g =
                burst sends addr 10 s.download_payload_size
                  (record { clients = m'; tried = 0; packets = [] }) in
              record { clients = g.clients; packets = ack ∷ g.packets; is_ok = true })
          else record { clients = m'; packets = ack ∷ []; is_ok = true })
      else record { clients = m'; packets = []; is_ok = false }

  unfoldable pub handle_stp_packet : Clients → ℕ → Bytes → ReceiveEnv → (ℕ → SendTry) → Handled
  handle_stp_packet m addr d env sends = elim (decode b d) [
    | none ↦ record { clients = m; packets = []; is_ok = true }
    | some packet ↦ answer m addr packet env sends
  ]

  -- The loop of `run`; an error of a handler is only logged.
  unfoldable pub serve : Clients → List Datagram → Clients
  serve m [] = m
  serve m (d ∷ ds) = serve (handle_stp_packet m d.addr d.bytes d.env d.sends).clients ds
