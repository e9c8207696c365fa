-- ===== src/Udp/Client/Download.antt =====
-- `run_download_test` of src/performance/udp/client.rs: the command that opens it, and its loop.
-- The collector hands the measurements back in order, so that they are the loop's list.
pub mod Measures
use mathlib.Core.List.{map}
use speed_cli.Base.{
  ℕ, ◌+◌, ◌++◌, List, [], ◌∷◌, Option, none, some, Bool, true, false, ltb, if◌then◌else◌, length,
  u32,
}
use speed_cli.Base.Decimal.{print_usize}
use speed_cli.Base.Time.{Duration, Instant, from_secs, duration_since}
use speed_cli.Report.Throughput.{
  ThroughputMeasurement, success, failure, ConnectionError, transfer_failed, timeout, unknown,
}
use speed_cli.Udp.Buf.{Bytes, ByteBuf}
use speed_cli.Udp.Protocol.{
  ConnectionState, StpPacket, new_packet, ack_only, next_packet_number, encode, decode,
}
use speed_cli.Udp.Server.{download_prefix}

-- What `recv` gives within its 50 ms, with the readings of the clocks and the text of an error.
pub data Received : Type 0 where
  -- The wall clock stamps the ACK; `took` is the time since `read_start`.
  datagram : Bytes → (read_start : Instant) → (stamp : ℕ) → (took : Duration) → List ℕ → Received
  socket_error : (now : Instant) → List ℕ → Received
  nothing : (now : Instant) → (again : Instant) → List ℕ → Received

-- A turn of the loop: the time on the clock of its condition, and what came.
pub record Pass : Type 0 where
  pub elapsed : Duration
  pub received : Received

pub record Download : Type 0 where
  pub connection : ConnectionState
  pub measurements : List ThroughputMeasurement
  pub acks : List StpPacket
  pub last_successful_receive : Instant
  pub timeout_count : ℕ

abbrev pub record_measurement : Download → ThroughputMeasurement → Download
record_measurement s m = record s { measurements = s.measurements ++ (m ∷ []) }

module _ (b : ByteBuf) where
  -- The connection after the command, and the datagram. `now` is the wall clock's reading.
  unfoldable pub download_cmd : ConnectionState → ℕ → ℕ → ConnectionState × Bytes
  unfolding next_packet_number
  download_cmd c now payload_size =
      let (c', n) = next_packet_number c in
      (c', encode b (new_packet now n 0 0 (download_prefix ++ print_usize payload_size)))

  -- The arm of a received datagram. The ACK's own fate is ignored.
  unfoldable pub take_datagram : Download → Bytes → Instant → ℕ → Duration → List ℕ → Download
  unfolding next_packet_number
  take_datagram s d read_start stamp took message =
      let s' = record s { last_successful_receive = read_start; timeout_count = 0 } in
      elim (decode b d) [
        | none ↦ record_measurement s' (failure (transfer_failed message) took 0)
        | some packet ↦
            let (c, n) = next_packet_number s'.connection in
            let ack = ack_only stamp n packet.header.packet_number packet.header.timestamp in
            record_measurement (record s' { connection = c; acks = s'.acks ++ (ack ∷ []) })
              (success (length packet.payload) took)
      ]

  -- The arm of the timeout.
  unfoldable pub take_timeout : Download → Instant → Instant → List ℕ → Download
  take_timeout s now again message =
      let s' = record s { timeout_count = u32 (s.timeout_count + 1) } in
      let since = duration_since now s.last_successful_receive in
      if ltb (from_secs 2) since
      then record_measurement (record s' { last_successful_receive = again; timeout_count = 0 })
          (failure (timeout message) since s'.timeout_count)
      else s'

  -- The loop, over the turns that there may be: it ends at the first late one and at an error of
  -- the socket.
  unfoldable pub download_loop : Duration → Download → List Pass → Download
  unfolding take_datagram take_timeout
  download_loop duration s [] = s
  download_loop duration s (p ∷ ps) =
      if ltb p.elapsed duration
      then (elim p.received [
        | datagram d read_start stamp took message ↦
            download_loop duration (take_datagram s d read_start stamp took message) ps
        | socket_error now message ↦
            record_measurement s
              (failure (unknown message) (duration_since now s.last_successful_receive) 0)
        | nothing now again message ↦ download_loop duration (take_timeout s now again message) ps
      ])
      else s
