-- ===== src/Udp/Client/Latency.antt =====
-- `measure_udp_latency` of src/performance/udp/client.rs: a ping on a new connection in each turn.
pub mod Replies
use speed_cli.Base.{
  ℕ, ◌++◌, List, [], ◌∷◌, Option, none, some, Bool, true, false, ltb, if◌then◌else◌, is_empty,
}
use speed_cli.Base.Time.{Duration}
use speed_cli.Float.{Float}
use speed_cli.Report.Latency.{LatencyMeasurement, LatencyResult}
use speed_cli.Udp.Buf.{Bytes, ByteBuf}
use speed_cli.Udp.Protocol.{
  ConnectionState, StpPacket, new_packet, new_connection, next_packet_number, encode, decode,
}

-- How a turn goes: no client, a refused send, an answer after some time, or none within a second.
pub data Reply : Type 0 where
  unconnected : Reply
  unsent : Reply
  answered : Bytes → (took : Duration) → Reply
  silent : Reply

-- A turn of the loop: the time on the clock of its condition, how it goes, and the time on the
-- clock of its measurement.
pub record Turn : Type 0 where
  pub elapsed : Duration
  pub reply : Reply
  pub elapsed_time : Duration

module _ (b : ByteBuf) where
  -- The datagram of the ping, at the wall clock's `now`.
  unfoldable pub ping : ℕ → Bytes
  unfolding next_packet_number
  ping now =
      encode b
        (new_packet now (next_packet_number new_connection).1 0 0 (b'P' ∷ b'I' ∷ b'N' ∷ b'G' ∷ []))

module _ {F : Type 0} (f : Float F) (b : ByteBuf) where
  -- The round trip time in milliseconds, if a packet came back.
  unfoldable pub rtt_of_reply : Reply → Option F
  rtt_of_reply unconnected = none
  rtt_of_reply unsent = none
  rtt_of_reply silent = none
  rtt_of_reply (answered d took) = elim (decode b d) [
    | none ↦ none
    | some packet ↦ some (f.mul (f.as_secs took) (f.lit 1000 1))
  ]

  -- The loop, over the turns that there may be: it ends at the first late one.
  unfoldable pub latency_loop :
      Duration → List (LatencyMeasurement F) → List Turn → List (LatencyMeasurement F)
  latency_loop duration ms [] = ms
  latency_loop duration ms (t ∷ ts) = elim (ltb t.elapsed duration) [
    | false ↦ ms
    | true ↦
        latency_loop duration
          (ms ++ ((record { rtt_ms = rtt_of_reply t.reply; elapsed_time = t.elapsed_time }) ∷ []))
          ts
  ]

  unfoldable pub measure_udp_latency : Duration → List Turn → Option (LatencyResult F)
  measure_udp_latency duration ts =
      let ms = latency_loop duration [] ts in
      if is_empty ms then none else some (record { measurements = ms })
