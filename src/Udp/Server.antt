-- ===== src/Udp/Server.antt =====
-- src/performance/udp/server.rs: the STP server. The map from addresses to clients is a list of
-- pairs. Readings of the clocks and the socket's answers are arguments; logging is left out, but
-- the time of the last progress report is kept.
pub mod Command
pub mod Burst
pub mod Fragments
pub mod Handler
pub mod Sessions
pub mod Refusals
use mathlib.Core.List.{map}
use speed_cli.Base.{
  ℕ, zero, suc, ◌+◌, ◌-◌, ◌*◌, ◌/◌, ◌==◌, Bool, true, false, Option, none, some, List, [], ◌∷◌,
  ◌++◌, ltb, leb, ◌&&◌, if◌then◌else◌, length, is_empty, replicate, u64, min, drop,
}
use speed_cli.Base.Decimal.{parse_usize}
use speed_cli.Base.Time.{Duration, Instant, from_secs, duration_since}
use speed_cli.Udp.Buf.{Bytes, ByteBuf}
use speed_cli.Udp.Protocol.{
  StpPacket, StpHeader, ConnectionState, ack_only, new_packet, new_connection, update_from_received,
  encode, decode,
}

pub record StpClientState : Type 0 where
  pub connection : ConnectionState
  pub start_time : Instant
  pub total_bytes : ℕ
  pub packets_received : ℕ
  pub last_report : Instant
  pub local_packet_number : ℕ
  pub download_mode : Bool
  pub download_payload_size : ℕ
  pub download_start_time : Option Instant

-- `StpClientState::new`.
abbrev pub new_state : Instant → StpClientState
new_state now = record {
  connection = new_connection;
  start_time = now;
  total_bytes = 0;
  packets_received = 0;
  last_report = now;
  local_packet_number = 0;
  download_mode = false;
  download_payload_size = 1024;
  download_start_time = none;
}

unfoldable pub next_number : StpClientState → StpClientState × ℕ
next_number s = let n = u64 (s.local_packet_number + 1) in (record s { local_packet_number = n }, n)

-- `starts_with` and `strip_prefix` on bytes.
unfoldable pub strip_prefix : Bytes → Bytes → Option Bytes
strip_prefix [] s = some s
strip_prefix (c ∷ cs) [] = none
strip_prefix (c ∷ cs) (d ∷ s) = if c == d then strip_prefix cs s else none

abbrev pub download_word : Bytes
download_word = b'D' ∷ b'O' ∷ b'W' ∷ b'N' ∷ b'L' ∷ b'O' ∷ b'A' ∷ b'D' ∷ []

abbrev pub download_prefix : Bytes
download_prefix = download_word ++ (b':' ∷ [])

abbrev pub starts_with : Bytes → Bytes → Bool
starts_with w s = elim (strip_prefix w s) [ none ↦ false | some _ ↦ true ]

-- `String::from_utf8(..).is_ok()`, by table 3-7 of the Unicode standard: the ranges of the bytes
-- that must follow a leading byte.
abbrev ByteRange : Type 0
ByteRange = ℕ × ℕ

abbrev within : ℕ → ℕ → ℕ → Bool
within lo hi c = leb lo c && leb c hi

abbrev follow : ByteRange
follow = (0x80, 0xbf)

abbrev followers : ℕ → Option (List ByteRange)
followers c =
    if ltb c 0x80
    then some []
    else if within 0xc2 0xdf c
    then some (follow ∷ [])
    else if c == 0xe0
    then some ((0xa0, 0xbf) ∷ follow ∷ [])
    else if c == 0xed
    then some ((0x80, 0x9f) ∷ follow ∷ [])
    else if within 0xe1 0xef c
    then some (follow ∷ follow ∷ [])
    else if c == 0xf0
    then some ((0x90, 0xbf) ∷ follow ∷ follow ∷ [])
    else if within 0xf1 0xf3 c
    then some (follow ∷ follow ∷ follow ∷ [])
    else if c == 0xf4
    then some ((0x80, 0x8f) ∷ follow ∷ follow ∷ [])
    else none

unfoldable pub utf8_from : List ByteRange → Bytes → Bool
utf8_from [] [] = true
utf8_from (r ∷ rs) [] = false
utf8_from (r ∷ rs) (c ∷ s) = within r.0 r.1 c && utf8_from rs s
utf8_from [] (c ∷ s) = elim (followers c) [ none ↦ false | some rs ↦ utf8_from rs s ]

abbrev pub is_utf8 : Bytes → Bool
is_utf8 = utf8_from []

-- The block on the DOWNLOAD command.
unfoldable pub requested_size : Bytes → Option ℕ
unfolding strip_prefix
requested_size payload =
    if is_utf8 payload
    then elim (strip_prefix download_prefix payload) [
      | none ↦ none
      | some size_part ↦ parse_usize size_part
    ]
    else none

unfoldable pub apply_command : StpClientState → Bytes → Instant → StpClientState
apply_command s payload now =
    let s' = record s { download_mode = true; download_start_time = some now } in
    if starts_with download_word payload
    then (elim (requested_size payload) [
      | none ↦ s'
      | some size ↦ record s' { download_payload_size = size }
    ])
    else s

-- The readings under the lock, in the order of the calls, and the socket's answer to the ACK.
pub record ReceiveEnv : Type 0 where
  pub first_seen : Instant
  pub command_time : Instant
  pub report_check : Instant
  pub report_time : Instant
  pub ack_stamp : ℕ
  pub ack_is_sent : Bool

unfoldable pub update_statistics : StpClientState → StpPacket → ReceiveEnv → StpClientState
update_statistics s packet env = record s {
  connection = update_from_received s.connection packet.header;
  total_bytes = u64 (s.total_bytes + length packet.payload);
  packets_received = u64 (s.packets_received + 1);
  last_report =
      if leb (from_secs 2) (duration_since env.report_check s.last_report)
      then env.report_time
      else s.last_report;
}

-- What happens under the lock: the client's new state and the ACK.
unfoldable pub receive : StpClientState → StpPacket → ReceiveEnv → StpClientState × StpPacket
unfolding apply_command update_statistics next_number
receive s packet env =
    let s' = update_statistics (apply_command s packet.payload env.command_time) packet env in
    let (s'', n) = next_number s' in
    (s'', ack_only env.ack_stamp n packet.header.packet_number packet.header.timestamp)

-- `clients`. An address is a number.
abbrev pub Clients : Type 0
Clients = List (ℕ × StpClientState)

unfoldable pub find : ℕ → Clients → Option StpClientState
find a [] = none
find a ((k, s) ∷ m) = if k == a then some s else find a m

unfoldable pub put : ℕ → StpClientState → Clients → Clients
put a s [] = (a, s) ∷ []
put a s ((k, t) ∷ m) = if k == a then (k, s) ∷ m else (k, t) ∷ put a s m

-- `entry(client_addr).or_insert_with(..)`.
abbrev pub entry : ℕ → Instant → Clients → StpClientState
entry a now m = elim (find a m) [ none ↦ new_state now | some s ↦ s ]
