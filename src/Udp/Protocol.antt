-- ===== src/Udp/Protocol.antt =====
-- src/performance/udp/protocol.rs: the STP packet, the connection state and the loss recovery.
-- A call of `current_timestamp_micros` is an argument: the reading of the wall clock that it gave.
pub mod Wire
pub mod Loss
pub mod Clock
use speed_cli.Base.{
  ℕ, ◌+◌, ◌-◌, ◌^◌, ◌≡◌, Bool, true, false, ◌||◌, not, Option, none, some, List, [], ◌∷◌, ◌++◌, max,
  ltb, leb, if◌then◌else◌, length, is_empty, take, drop, u64, sub_u64,
}
use speed_cli.Base.Time.{Duration, as_micros, from_millis, from_micros}
use speed_cli.Udp.Buf.{Bytes, ByteBuf}

pub record StpHeader : Type 0 where
  pub packet_number : ℕ
  pub timestamp : ℕ
  pub latest_ack : ℕ
  pub ack_timestamp_echo : ℕ

abbrev pub header_size : ℕ
header_size = 32

-- `StpHeader::new`, at the wall clock's `now`.
abbrev pub new_header : ℕ → ℕ → ℕ → ℕ → StpHeader
new_header now packet_number latest_ack ack_timestamp_echo = record {
  packet_number = packet_number;
  timestamp = now;
  latest_ack = latest_ack;
  ack_timestamp_echo = ack_timestamp_echo;
}

pub record StpPacket : Type 0 where
  pub header : StpHeader
  pub payload : Bytes

-- `StpPacket::new`.
abbrev pub new_packet : ℕ → ℕ → ℕ → ℕ → Bytes → StpPacket
new_packet now packet_number latest_ack ack_timestamp_echo payload = record {
  header = new_header now packet_number latest_ack ack_timestamp_echo;
  payload = payload;
}

-- `StpPacket::ack_only`.
abbrev pub ack_only : ℕ → ℕ → ℕ → ℕ → StpPacket
ack_only now packet_number latest_ack ack_timestamp_echo = record {
  header = new_header now packet_number latest_ack ack_timestamp_echo;
  payload = [];
}

abbrev pub is_ack_only : StpPacket → Bool
is_ack_only p = is_empty p.payload

module _ (b : ByteBuf) where
  -- `StpHeader::encode` appends the four numbers to the buffer.
  unfoldable pub encode_header : StpHeader → Bytes → Bytes
  encode_header h buf =
      (((buf ++ b.put_u64 h.packet_number) ++ b.put_u64 h.timestamp) ++ b.put_u64 h.latest_ack)
      ++ b.put_u64 h.ack_timestamp_echo

  -- The fields are read one after the other.
  unfoldable pub decode_header : Bytes → Option StpHeader
  decode_header buf =
      let (packet_number, s1) = b.get_u64 buf in
      let (timestamp, s2) = b.get_u64 s1 in
      let (latest_ack, s3) = b.get_u64 s2 in
      let (ack_timestamp_echo, s4) = b.get_u64 s3 in
      if ltb (length buf) header_size
      then none
      else some (new_header timestamp packet_number latest_ack ack_timestamp_echo)

  -- `StpPacket::encode`.
  unfoldable pub encode : StpPacket → Bytes
  encode p = encode_header p.header [] ++ p.payload

  -- `StpPacket::decode`.
  unfoldable pub decode : Bytes → Option StpPacket
  decode d =
      if ltb (length d) header_size then none else elim (decode_header (take header_size d)) [
        | none ↦ none
        | some header ↦ some (record { header = header; payload = drop header_size d })
      ]

-- The peer's address belongs to the socket layer and never changes; it is left out.
pub record ConnectionState : Type 0 where
  pub local_packet_number : ℕ
  pub peer_latest_ack : ℕ
  pub last_received_packet : ℕ
  pub last_received_timestamp : ℕ
  pub established : Bool

abbrev pub new_connection : ConnectionState
new_connection = record {
  local_packet_number = 0;
  peer_latest_ack = 0;
  last_received_packet = 0;
  last_received_timestamp = 0;
  established = false;
}

unfoldable pub next_packet_number : ConnectionState → ConnectionState × ℕ
next_packet_number c =
    let n = u64 (c.local_packet_number + 1) in (record c { local_packet_number = n }, n)

unfoldable pub update_from_received : ConnectionState → StpHeader → ConnectionState
update_from_received c h =
    let c' = record c {
      peer_latest_ack = h.latest_ack;
      last_received_packet = h.packet_number;
      last_received_timestamp = h.timestamp;
    } in
    if not c.established then record c' { established = true } else c'

pub record InFlightPacket : Type 0 where
  pub packet_number : ℕ
  pub sent_time : ℕ
  pub size : ℕ
  pub bytes : Bytes
  pub retransmitted : Bool

-- `InFlightPacket::new`, at the wall clock's `now`.
abbrev pub new_in_flight : ℕ → ℕ → ℕ → Bytes → InFlightPacket
new_in_flight now packet_number size bytes = record {
  packet_number = packet_number;
  sent_time = now;
  size = size;
  bytes = bytes;
  retransmitted = false;
}

pub record LossRecovery : Type 0 where
  pub in_flight : List InFlightPacket
  pub largest_acked : ℕ
  pub loss_threshold : ℕ
  pub loss_timeout : Duration

abbrev pub new_loss_recovery : LossRecovery
new_loss_recovery = record {
  in_flight = [];
  largest_acked = 0;
  loss_threshold = 3;
  loss_timeout = from_millis 1000;
}

unfoldable pub on_packet_sent : LossRecovery → InFlightPacket → LossRecovery
on_packet_sent l p = record l { in_flight = l.in_flight ++ (p ∷ []) }

-- `current_time - packet.sent_time > self.loss_timeout.as_micros() as u64`.
unfoldable pub timed_out : ℕ → Duration → InFlightPacket → Bool
timed_out current_time loss_timeout p =
    ltb (u64 (as_micros loss_timeout)) (sub_u64 current_time p.sent_time)

-- `saturating_sub` on u64 is the subtraction of the natural numbers.
unfoldable pub is_lost : LossRecovery → ℕ → InFlightPacket → Bool
unfolding timed_out
is_lost l current_time p =
    leb l.loss_threshold (l.largest_acked - p.packet_number)
    || timed_out current_time l.loss_timeout p

-- What `retain` keeps, and the two vectors that its closure fills.
pub record Retained : Type 0 where
  pub kept : List InFlightPacket
  pub acked : List InFlightPacket
  pub lost : List InFlightPacket

-- `in_flight.retain(..)` of `on_ack_received`, in the order of the queue.
unfoldable pub retain : LossRecovery → ℕ → ℕ → List InFlightPacket → Retained
retain l current_time acked_packet [] = record { kept = []; acked = []; lost = [] }
retain l current_time acked_packet (p ∷ ps) =
    let r = retain l current_time acked_packet ps in
    if leb p.packet_number acked_packet
    then record r { acked = p ∷ r.acked }
    else if is_lost l current_time p
    then record r { lost = p ∷ r.lost }
    else record r { kept = p ∷ r.kept }

-- The new state, the acknowledged packets and the lost ones.
unfoldable pub on_ack_received :
    LossRecovery → ℕ → ℕ → LossRecovery × List InFlightPacket × List InFlightPacket
on_ack_received l current_time acked_packet =
    let l' = record l { largest_acked = max l.largest_acked acked_packet } in
    let r = retain l' current_time acked_packet l.in_flight in
    (record l' { in_flight = r.kept }, r.acked, r.lost)

-- `calculate_rtt`, with the clock's reading.
unfoldable pub calculate_rtt : ℕ → ℕ → Duration
calculate_rtt current ack_timestamp_echo =
    if ltb ack_timestamp_echo current
    then from_micros (current - ack_timestamp_echo)
    else from_micros 0
