-- ===== src/Examples/Transport.antt =====
-- The congestion control, the pacer and the client of src/performance/udp at concrete inputs.
use speed_cli.Base.{
  ℕ, ◌+◌, ◌*◌, ◌%◌, ◌≤◌, ◌≡◌, refl, ◌⊎◌, true, false, none, some, List, [], ◌∷◌, ◌++◌, arith,
  length, get_elem?, sum_of, All, u64,
}
use speed_cli.Float.Fixed.{fixed, fixed-IsOrdered}
use speed_cli.Udp.Buf.{Bytes}
use speed_cli.Udp.Buf.BigEndian.{big_endian, big_endian-IsFixedWidth}
use speed_cli.Udp.Congestion.{
  drain, probe_bw, probe_rtt, Bbr, BandwidthFilter, new_bbr, step, run, can_send, get_probe_bw_gain,
  update_filter, Event, sent, acked, lost,
}
use speed_cli.Udp.Congestion.States.{Edge, step-Edge, drain_ends, rank, rank-run}
use speed_cli.Udp.Congestion.Window.{run-new_bbr}
use speed_cli.Udp.Congestion.Filter.{InOrder, Until, Occurs, recent, update_filter_window}
use speed_cli.Udp.Pacing.{Pacer, new_pacer, wait_of, schedule_next_send}
use speed_cli.Udp.Pacing.Spacing.{Use, packet, rate, departures, departures_pace}
use speed_cli.Udp.Client.{StpClient, SendEnv, AckEnv, new_client, process_ack, bytes_in_flight}
use speed_cli.Udp.Client.Ledger.{flight, Books}
use speed_cli.Udp.Client.Ledger.Acks.{lost_of, process_ack_balance}
use speed_cli.Udp.Client.Ledger.Resend.{Ended}
use speed_cli.Udp.Client.Balance.{Call, send, session, session_in_flight, new_client-Books}
use speed_cli.Udp.Client.Upload.{Upload, upload_loop}
use speed_cli.Udp.Client.Upload
use speed_cli.Udp.Client.Upload.Paced.{Paced, upload_loop-Paced}
use speed_cli.Report.Latency.{LatencyResult, count, successful_count}
use speed_cli.Udp.Client.Latency.{Turn, answered, silent, measure_udp_latency}
use speed_cli.Udp.Client.Latency.Replies.{turns, measure_udp_latency_lem}
use speed_cli.Udp.Client.Download.{Download, datagram, download_loop}
use speed_cli.Udp.Client.Download
use speed_cli.Udp.Client.Download.Measures.{delivered, Took, download_loop-Took}
use speed_cli.Udp.Protocol.{StpPacket, decode, new_packet, new_connection, encode}
use speed_cli.Report.Throughput.{bytes_of}

abbrev bbr : Bbr ℕ
bbr = new_bbr fixed 0

abbrev draining : Bbr ℕ
draining = record bbr { state = drain }

abbrev probing : Bbr ℕ
probing = record bbr { state = probe_rtt }

abbrev events : List Event
events = sent 1432 1 ∷ acked 1432 1000000 2 ∷ lost 1432 20000000000 ∷ []

step-Edge_example : Edge bbr.state (step fixed bbr (sent 1432 1)).state
step-Edge_example = step-Edge fixed bbr (sent 1432 1)

drain_ends_example : (step fixed draining (lost 1432 1)).state ≡ probe_bw
drain_ends_example = drain_ends fixed draining (lost 1432 1) refl

rank-run_example : rank bbr.state ≤ rank (run fixed bbr events).state
rank-run_example = rank-run fixed bbr events

run-new_bbr_example :
    let c = run fixed (new_bbr fixed 0) events in
    (5600 ≤ c.cwnd)
    × (c.cwnd ≤ 1048576)
    × (can_send fixed c 0 ≡ true)
    × (get_elem? c.config.probe_bw_gains (c.cycle_index % length c.config.probe_bw_gains)
        ≡ some (get_probe_bw_gain fixed c))
run-new_bbr_example = run-new_bbr fixed 0 events

abbrev sampled : BandwidthFilter ℕ
sampled = record { samples = record { bw = 5000; time = 10 } ∷ []; max_bw = 5000 }

update_filter_window_example :
    let b' = update_filter fixed sampled 4000 30 15 in
    (b'.samples ≡ recent 30 15 (sampled.samples ++ (record { bw = 4000; time = 30 } ∷ [])))
    × InOrder b'.samples
    × All (Until 30) b'.samples
    × All (λ s. (fixed.le s.bw s.bw ≡ false) ⊎ (fixed.le s.bw b'.max_bw ≡ true)) b'.samples
    × ((b'.max_bw ≡ fixed.lit 0 1) ⊎ Occurs b'.max_bw b'.samples)
update_filter_window_example =
    update_filter_window fixed fixed-IsOrdered sampled 4000 30 15 (tt, tt) (omega arith, tt)

abbrev paced : Pacer ℕ
paced = record (new_pacer fixed 1000000) { last_send_time = some 100 }

abbrev uses : List (Use ℕ)
uses = packet 1432 200 ∷ rate 5 ∷ packet 33 300 ∷ []

departures_pace_example :
    let (p', wait) = schedule_next_send fixed paced 1000 150 in
    All (λ d. (150 + wait_of wait) + d.0 ≤ d.1) (departures fixed p' 0 uses)
departures_pace_example = departures_pace fixed paced 1000 150 uses

abbrev client : StpClient ℕ
client = new_client fixed big_endian 0

abbrev send_env : SendEnv
send_env = record { stamp = 1; paced = 2; is_sent = true; now = 3; tracked = 4 }

abbrev ack_env : AckEnv
ack_env = record {
  now = 5;
  rtt_clock = 6;
  loss_clock = 7;
  retries = λ i. record { stamp = 8; is_sent = true; tracked = 9 };
}

abbrev reply : Bytes
reply = encode big_endian (new_packet 3 1 1 1 [])

process_ack_balance_example :
    let o = process_ack fixed big_endian client reply ack_env in
    ((decode big_endian reply ≡ none) × (o.client ≡ client) × (o.is_ok ≡ true))
    ⊎ ((packet : StpPacket) × (decode big_endian reply ≡ some packet)
        × (r : ℕ) × Books (0 + r) o.client
        × Ended fixed big_endian big_endian-IsFixedWidth ack_env.retries 0
            (lost_of fixed big_endian big_endian-IsFixedWidth client packet ack_env)
            o
            r)
process_ack_balance_example =
    process_ack_balance fixed big_endian big_endian-IsFixedWidth 0 client reply ack_env
      (new_client-Books fixed big_endian big_endian-IsFixedWidth 0)

abbrev calls : List Call
calls = send (1 ∷ 2 ∷ 3 ∷ []) send_env ∷ send (4 ∷ []) send_env ∷ []

session_in_flight_example :
    let c = session fixed big_endian (new_client fixed big_endian 0) calls in
    bytes_in_flight fixed big_endian c ≡ u64 (flight c)
session_in_flight_example =
    session_in_flight fixed big_endian big_endian-IsFixedWidth 0 calls (tt, (tt, tt))

abbrev upload_passes : List Upload.Pass
upload_passes =
    (record {
      elapsed = 1;
      took = 2;
      env = send_env;
      message = [];
      received = some (reply, ack_env);
    })
    ∷ (record { elapsed = 3; took = 4; env = send_env; message = []; received = none })
    ∷ []

abbrev text : Bytes
text = 1 ∷ 2 ∷ []

abbrev upload : Upload ℕ
upload = record { client = client; measurements = [] }

upload_loop-Paced_example :
    let u' = upload_loop fixed big_endian 100 text upload upload_passes in
    (n : ℕ) × Paced fixed big_endian 100 text upload.client n u'.client
    × (sum_of bytes_of u'.measurements ≡ sum_of bytes_of upload.measurements + n * length text)
upload_loop-Paced_example = upload_loop-Paced fixed big_endian 100 text upload upload_passes

abbrev download : Download
download = record {
  connection = new_connection;
  measurements = [];
  acks = [];
  last_successful_receive = 0;
  timeout_count = 0;
}

abbrev download_passes : List Download.Pass
download_passes = (record { elapsed = 1; received = datagram reply 2 3 4 [] }) ∷ []

download_loop-Took_example :
    Took big_endian download
      (delivered big_endian 100 download_passes)
      (download_loop big_endian 100 download download_passes)
download_loop-Took_example = download_loop-Took big_endian 100 download download_passes

abbrev turns_taken : List Turn
turns_taken =
    (record { elapsed = 1; reply = answered reply 2; elapsed_time = 3 })
    ∷ (record { elapsed = 4; reply = silent; elapsed_time = 5 })
    ∷ []

measure_udp_latency_lem_example :
    let (n, valid) = turns big_endian 100 turns_taken in
    (measure_udp_latency fixed big_endian 100 turns_taken ≡ none) × (n ≡ 0)
    ⊎ (1 ≤ n)
      × ((r : LatencyResult ℕ) × (measure_udp_latency fixed big_endian 100 turns_taken ≡ some r)
          × (count fixed r ≡ n)
          × (successful_count fixed r ≡ valid))
measure_udp_latency_lem_example = measure_udp_latency_lem fixed big_endian 100 turns_taken
