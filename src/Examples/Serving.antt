-- ===== src/Examples/Serving.antt =====
-- The servers of src/performance/udp/server.rs and src/performance/tcp/server.rs at concrete inputs.
use speed_cli.Base.{
  ℕ, ◌+◌, ◌≤◌, ◌<◌, ◌≡◌, refl, true, false, Option, none, some, List, [], ◌∷◌, arith, length, All,
  u64,
}
use speed_cli.Udp.Buf.BigEndian.{big_endian, big_endian-IsFixedWidth}
use speed_cli.Udp.Protocol.{StpHeader, StpPacket, new_header, encode, new_connection}
use speed_cli.Udp.Client.Download.{download_cmd}
use speed_cli.Udp.Server.{StpClientState, Clients, ReceiveEnv, new_state, find}
use speed_cli.Udp.Server.Burst.{SendTry, Progress, burst}
use speed_cli.Udp.Server.Fragments.{Payloads}
use speed_cli.Udp.Server.Handler.{Datagram, handle_stp_packet, serve}
use speed_cli.Udp.Server.Command.{IsFullAnswer, handle_stp_packet-download_cmd}
use speed_cli.Udp.Server.Refusals.{attempts, burst_refused, handle_stp_packet-ack_only}
use speed_cli.Udp.Server.Sessions.{IsDownloading, download_mode_kept}
use speed_cli.Tcp.Server.{
  TcpServer, default_config, new_server, Event, accepted, handler_event, command_byte,
  command_timeout, read, step, accept, handle, handle_command, handle_upload, handle_download,
  settle, splice, add_bytes,
}
use speed_cli.Tcp.Server.Permits.{run, lost, active_connections_run}
use speed_cli.Tcp.Server.Limit.{handlers_below_limit}
use speed_cli.Tcp.Server.Shutdown.{shutdown, shutdown_forced, shutdown_ends}

abbrev env : ReceiveEnv
env = record {
  first_seen = 1;
  command_time = 2;
  report_check = 3;
  report_time = 4;
  ack_stamp = 5;
  ack_is_sent = true;
}

abbrev sends : ℕ → SendTry
sends i = record { stamp = i; is_sent = true }

handle_stp_packet-download_cmd_example :
    let (c', d) = download_cmd big_endian new_connection 9 3000 in
    IsFullAnswer c'.local_packet_number 9 3000 7 (handle_stp_packet big_endian [] 7 d env sends)
handle_stp_packet-download_cmd_example =
    handle_stp_packet-download_cmd big_endian big_endian-IsFixedWidth new_connection 9 3000 7 [] env
      sends (omega arith) (omega arith) refl λ i. refl

abbrev downloading : StpClientState
downloading = record (new_state 1) { download_mode = true; download_payload_size = 3000 }

abbrev clients : Clients
clients = (7, downloading) ∷ (8, new_state 2) ∷ []

abbrev progress : Progress
progress = record { clients = clients; tried = 0; packets = [] }

abbrev datagrams : List Datagram
datagrams =
    (record {
      addr = 7;
      bytes = (download_cmd big_endian new_connection 9 10).1;
      env = env;
      sends = sends;
    })
    ∷ []

download_mode_kept_example : IsDownloading 7 (serve big_endian clients datagrams)
unfolding find
download_mode_kept_example =
    download_mode_kept big_endian 7 clients datagrams (downloading, refl, refl)

-- One connection whose client never sends a command byte, and one that uploads.
abbrev events : List Event
events = accepted 1 ∷ handler_event 0 command_timeout ∷ []

abbrev uploads : List Event
uploads =
    accepted 1
    ∷ handler_event 0 (command_byte b'U' 2)
    ∷ handler_event 0 (read 1000 (record { activity = 3; check = 4; report = 5 }))
    ∷ []

abbrev after : Option TcpServer → TcpServer
after none = new_server default_config
after (some s) = s

reached : List Event → TcpServer
unfolding run step accept handle handle_command handle_upload handle_download settle splice
    add_bytes
reached es = after (run (new_server default_config) es)

reached-events : run (new_server default_config) events ≡ some (reached events)
unfolding reached
reached-events = refl

reached-uploads : run (new_server default_config) uploads ≡ some (reached uploads)
unfolding reached
reached-uploads = refl

active_connections_run_example :
    let s = reached events in
    (s.available_permits + length s.handlers ≡ default_config.max_connections)
    × (length s.handlers ≤ default_config.max_connections)
    × (s.active_connections ≡ u64 (length s.handlers + lost events))
active_connections_run_example =
    active_connections_run default_config events (reached events) reached-events

handlers_below_limit_example :
    All (λ h. h.stats.total_bytes < 1000000000000) (reached uploads).handlers
handlers_below_limit_example =
    handlers_below_limit default_config 1000000000000 uploads (reached uploads) refl (omega arith)
      reached-uploads

shutdown_forced_example : shutdown (λ i. (reached events).active_connections) ≡ (30, true)
shutdown_forced_example =
    shutdown_forced default_config events (λ i. []) (λ i. reached events) (λ i. reached-events)
      (omega arith) λ i. omega arith

shutdown_ends_example : (shutdown (λ i. (new_server default_config).active_connections)).0 ≤ 0
unfolding run
shutdown_ends_example =
    shutdown_ends default_config [] (λ i. []) (λ i. new_server default_config) (λ i. refl) 0 refl
      refl

abbrev bare : StpHeader
bare = new_header 5 2 1 4

handle_stp_packet-ack_only_example :
    let r =
      handle_stp_packet big_endian clients 7
        (encode big_endian (record { header = bare; payload = [] }))
        env
        sends in
    (ack : StpPacket) × (ps : List StpPacket) × (r.packets ≡ ack ∷ ps)
    × Payloads 10 downloading.download_payload_size ps
unfolding find
handle_stp_packet-ack_only_example =
    handle_stp_packet-ack_only big_endian big_endian-IsFixedWidth bare 7 clients downloading env
      sends
      (record {
        packet_number_fits = omega arith;
        timestamp_fits = omega arith;
        latest_ack_fits = omega arith;
        echo_fits = omega arith;
      })
      refl refl refl λ i. refl

abbrev refusals : ℕ → SendTry
refusals i = record { stamp = i; is_sent = false }

burst_refused_example :
    let g' = burst refusals 7 10 3000 progress in
    (g'.tried ≡ progress.tried + attempts 10 3000) × (g'.packets ≡ progress.packets)
unfolding find
burst_refused_example = burst_refused refusals 7 (λ i. refl) 10 3000 progress downloading refl
