-- ===== src/Udp/Client.antt =====
-- src/performance/udp/client.rs: the STP client. Readings of the clocks and the socket's answers
-- are arguments. A function returns the client with the datagrams that it handed to the socket and
-- whether it ended with `Ok`.
pub mod Download
pub mod Latency
pub mod Upload
pub mod Ledger
pub mod Balance
use speed_cli.Base.{
  ℕ, zero, suc, ◌+◌, ◌-◌, ◌*◌, ◌/◌, ◌==◌, Bool, true, false, Option, none, some, List, [], ◌∷◌,
  ◌++◌, ltb, if◌then◌else◌, length, is_empty, sum_of, u64, u32, sub_u64,
}
use speed_cli.Base.Time.{Duration, Instant, from_millis}
use speed_cli.Float.{Float}
use speed_cli.Udp.Buf.{Bytes, ByteBuf}
use speed_cli.Udp.Protocol.{
  StpPacket, ConnectionState, InFlightPacket, LossRecovery, new_packet, new_connection,
  next_packet_number, update_from_received, new_in_flight, new_loss_recovery, encode, decode,
  calculate_rtt, new_header,
}
use speed_cli.Udp.Protocol
use speed_cli.Udp.Congestion.{Bbr, new_bbr, get_sending_rate}
use speed_cli.Udp.Congestion
use speed_cli.Udp.Pacing.{Pacer, new_pacer, update_rate, schedule_next_send}

-- The socket is left out: what is sent is part of each result.
pub record StpClient (F : Type 0) : Type 0 where
  pub connection : ConnectionState
  pub congestion_control : Bbr F
  pub loss_recovery : LossRecovery
  pub pacer : Pacer F
  pub bytes_sent : ℕ
  pub bytes_acked : ℕ
  pub packets_sent : ℕ
  pub packets_acked : ℕ
  pub rtt_samples : List Duration
  pub ack_timestamps : List (ℕ × ℕ)

pub record Outcome (F : Type 0) : Type 0 where
  pub client : StpClient F
  pub datagrams : List Bytes
  pub is_ok : Bool

-- `HashMap::insert`.
unfoldable pub insert_timestamp : ℕ → ℕ → List (ℕ × ℕ) → List (ℕ × ℕ)
insert_timestamp k v [] = (k, v) ∷ []
insert_timestamp k v ((j, w) ∷ m) = if j == k then (k, v) ∷ m else (j, w) ∷ insert_timestamp k v m

-- The readings of `send_data`, in the order of the calls, and the socket's answer.
pub record SendEnv : Type 0 where
  pub stamp : ℕ
  pub paced : Instant
  pub is_sent : Bool
  pub now : Instant
  pub tracked : ℕ

-- The same for one retransmission.
pub record Retry : Type 0 where
  pub stamp : ℕ
  pub is_sent : Bool
  pub tracked : ℕ

-- The readings of `process_ack`: its `now`, the two of the wall clock, and one `Retry` for each
-- lost packet.
pub record AckEnv : Type 0 where
  pub now : Instant
  pub rtt_clock : ℕ
  pub loss_clock : ℕ
  pub retries : ℕ → Retry

module _ {F : Type 0} (f : Float F) (b : ByteBuf) where
  -- `StpClient::new`, once the socket is connected.
  unfoldable pub new_client : Instant → StpClient F
  new_client now =
      let cc = new_bbr f now in
      record {
        connection = new_connection;
        congestion_control = cc;
        loss_recovery = new_loss_recovery;
        pacer = new_pacer f (get_sending_rate f cc);
        bytes_sent = 0;
        bytes_acked = 0;
        packets_sent = 0;
        packets_acked = 0;
        rtt_samples = [];
        ack_timestamps = [];
      }

  -- What `send_data` does once the socket has taken the datagram.
  unfoldable pub record_sent : StpClient F → SendEnv → ℕ → Bytes → StpClient F
  record_sent c env packet_number encoded =
      let cc = Congestion.on_packet_sent f c.congestion_control (length encoded) env.now in
      let entry = new_in_flight env.tracked packet_number (length encoded) encoded in
      record c {
        bytes_sent = u64 (c.bytes_sent + length encoded);
        packets_sent = u64 (c.packets_sent + 1);
        congestion_control = cc;
        pacer = update_rate f c.pacer (get_sending_rate f cc);
        loss_recovery = Protocol.on_packet_sent c.loss_recovery entry;
      }

  unfoldable pub send_data : StpClient F → Bytes → SendEnv → Outcome F
  send_data c payload env =
      let (connection, packet_number) = next_packet_number c.connection in
      let packet =
        new_packet env.stamp packet_number connection.last_received_packet
          connection.last_received_timestamp payload in
      let (pacer, wait) = schedule_next_send f c.pacer (length payload + 32) env.paced in
      let c' = record c {
        connection = connection;
        ack_timestamps = insert_timestamp packet_number env.stamp c.ack_timestamps;
        pacer = pacer;
      } in
      let encoded = encode b packet in
      if env.is_sent
      then record {
        client = record_sent c' env packet_number encoded;
        datagrams = encoded ∷ [];
        is_ok = true;
      }
      else record { client = c'; datagrams = []; is_ok = false }

  -- One acknowledged packet, and the loop over them.
  unfoldable pub count_one : StpClient F → Duration → Instant → InFlightPacket → StpClient F
  count_one c rtt now p = record c {
    bytes_acked = u64 (c.bytes_acked + p.size);
    packets_acked = u64 (c.packets_acked + 1);
    rtt_samples = c.rtt_samples ++ (rtt ∷ []);
    congestion_control = Congestion.on_ack_received f c.congestion_control p.size rtt now;
  }

  unfoldable pub count_acked : StpClient F → Duration → Instant → List InFlightPacket → StpClient F
  unfolding count_one
  count_acked c rtt now [] = c
  count_acked c rtt now (p ∷ ps) = count_acked (count_one c rtt now p) rtt now ps

  -- The lost packet under a new number, with the connection's latest acknowledgment.
  unfoldable pub refresh : ConnectionState → ℕ → ℕ → StpPacket → StpPacket
  refresh k stamp packet_number p =
      new_packet stamp packet_number k.last_received_packet k.last_received_timestamp p.payload

  -- The head of the loop over the lost packets: the congestion control hears of it, and a new
  -- number is taken.
  unfoldable pub renumber : StpClient F → Instant → InFlightPacket → StpClient F
  renumber c now lost = record c {
    congestion_control = Congestion.on_packet_lost f c.congestion_control lost.size now;
    connection = (next_packet_number c.connection).0;
  }

  unfoldable pub track_retransmission : StpClient F → Retry → Bytes → StpClient F
  track_retransmission c r encoded =
      let entry =
        new_in_flight r.tracked c.connection.local_packet_number (length encoded) encoded in
      record c {
        loss_recovery =
            Protocol.on_packet_sent c.loss_recovery (record entry { retransmitted = true });
      }

  -- The loop over the lost packets; a failed send leaves it at once.
  unfoldable pub resend_lost :
      StpClient F → Instant → (ℕ → Retry) → ℕ → List InFlightPacket → Outcome F
  resend_lost c now retries i [] = record { client = c; datagrams = []; is_ok = true }
  resend_lost c now retries i (lost ∷ ps) =
      let c' = renumber c now lost in
      let r = retries i in
      elim (decode b lost.bytes) [
        | none ↦ resend_lost c' now retries (i + 1) ps
        | some p ↦
            let encoded =
              encode b (refresh c'.connection r.stamp c'.connection.local_packet_number p) in
            elim r.is_sent [
              | false ↦ record { client = c'; datagrams = []; is_ok = false }
              | true ↦
                  let rest =
                    resend_lost (track_retransmission c' r encoded) now retries (i + 1) ps in
                  record rest { datagrams = encoded ∷ rest.datagrams }
            ]
      ]

  unfoldable pub rtt_of : StpPacket → ℕ → Duration
  rtt_of packet clock =
      if ltb 0 packet.header.ack_timestamp_echo
      then calculate_rtt clock packet.header.ack_timestamp_echo
      else from_millis 1

  -- The end of `process_ack`, which the `?` on a failed send skips.
  unfoldable pub settle : Outcome F → Outcome F
  settle o =
      if o.is_ok
      then record o {
        client = record o.client {
          pacer = update_rate f o.client.pacer (get_sending_rate f o.client.congestion_control);
        };
      }
      else o

  -- `process_ack` on a datagram that decodes.
  unfoldable pub accept_ack : StpClient F → StpPacket → AckEnv → Outcome F
  accept_ack c packet env =
      let rtt = rtt_of packet env.rtt_clock in
      let (recovery, acked, lost) =
        Protocol.on_ack_received c.loss_recovery env.loss_clock packet.header.latest_ack in
      let c' = record c {
        connection = update_from_received c.connection packet.header;
        loss_recovery = recovery;
      } in
      settle (resend_lost (count_acked c' rtt env.now acked) env.now env.retries 0 lost)

  unfoldable pub process_ack : StpClient F → Bytes → AckEnv → Outcome F
  process_ack c d env = elim (decode b d) [
    | none ↦ record { client = c; datagrams = []; is_ok = true }
    | some packet ↦ accept_ack c packet env
  ]

  -- The average of `get_stats`; the count is cut to a u32.
  unfoldable pub average_rtt : List Duration → Duration
  average_rtt samples =
      if is_empty samples then 0 else sum_of (λ d. d) samples / u32 (length samples)

  unfoldable pub get_stats : StpClient F → ℕ × ℕ × ℕ × ℕ × F × Duration
  get_stats c = (
    c.bytes_sent,
    c.bytes_acked,
    c.packets_sent,
    c.packets_acked,
    get_sending_rate f c.congestion_control,
    average_rtt c.rtt_samples,
  )

  -- `bytes_sent - client.bytes_acked`, of the upload loop.
  unfoldable pub bytes_in_flight : StpClient F → ℕ
  bytes_in_flight c = sub_u64 c.bytes_sent c.bytes_acked
