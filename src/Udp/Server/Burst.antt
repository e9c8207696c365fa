-- ===== src/Udp/Server/Burst.antt =====
-- The burst of download data in `handle_stp_packet` of src/performance/udp/server.rs. The socket
-- answers the i-th send of the burst by `sends i`; what it took is listed.
use mathlib.Core.Logic.{dite}
use mathlib.Core.WellFounded.{Acc}
use native.Mathlib.Decide.{dec_lt}
use speed_cli.Base.{
  ℕ, zero, suc, ◌-◌, ◌<◌, Bool, true, false, none, some, List, [], ◌∷◌, ◌++◌, arith, leb,
  if◌then◌else◌, replicate, min,
}
use speed_cli.Base.Order.{lt_wf}
use speed_cli.Udp.Protocol.{StpPacket, new_packet}
use speed_cli.Udp.Server.{Clients, find, put, next_number}

-- The wall clock's reading for a packet, and whether the socket takes it.
pub record SendTry : Type 0 where
  pub stamp : ℕ
  pub is_sent : Bool

abbrev pub max_udp_payload : ℕ
max_udp_payload = 1400

-- The map of clients, the number of sends tried, and the packets that the socket took.
pub record Progress : Type 0 where
  pub clients : Clients
  pub tried : ℕ
  pub packets : List StpPacket

-- How one send ends: the client is gone, the socket refuses, or the packet is out.
pub data Attempt : Type 0 where
  gone : Attempt
  failed : Progress → Attempt
  out : Progress → Attempt

module _ (sends : ℕ → SendTry) (addr : ℕ) where
  -- Number a packet of zeros and send it.
  unfoldable pub send_zeros : Progress → ℕ → Attempt
  unfolding next_number
  send_zeros g size = elim (find addr g.clients) [
    | none ↦ gone
    | some s ↦
        let (s', n) = next_number s in
        let packet = new_packet (sends g.tried).stamp n 0 0 (replicate size 0) in
        let g' = record g { clients = put addr s' g.clients; tried = suc g.tried } in
        if (sends g.tried).is_sent
        then out (record g' { packets = g.packets ++ (packet ∷ []) })
        else failed g'
  ]

  -- `while remaining_bytes > 0`; a `break` leaves this loop only.
  unfoldable pub send_fragments : Progress → (remaining : ℕ) → Acc ◌<◌ remaining → Progress
  send_fragments g remaining (Acc.intro _ smaller) =
      dite (dec_lt 0 remaining)
        (λ h. elim (send_zeros g (min remaining max_udp_payload)) [
          | gone ↦ g
          | failed g' ↦ g'
          | out g' ↦
              send_fragments g' (remaining - min remaining max_udp_payload)
                (smaller (remaining - min remaining max_udp_payload) (omega arith))
        ])
        (λ _. g)

  -- `for _ in 0..10`, with the rounds left.
  unfoldable pub burst : ℕ → ℕ → Progress → Progress
  unfolding lt_wf
  burst zero size g = g
  burst (suc rounds) size g = elim (leb size max_udp_payload) [
    | true ↦ elim (send_zeros g size) [ gone ↦ g | failed g' ↦ g' | out g' ↦ burst rounds size g' ]
    | false ↦ burst rounds size (send_fragments g size (lt_wf.apply size))
  ]
