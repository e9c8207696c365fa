-- ===== src/Lib.antt =====
-- speed-cli measures the throughput and the latency of a network against its own servers, over TCP,
-- HTTP and STP, a transport of its own on UDP. These files model the STP stack, the TCP and HTTP
-- servers and clients, the choice of the tests, their results and the commands, and prove what makes
-- them correct.
--
-- The parts. An STP packet (src/performance/udp/protocol.rs) has a header of four u64s and a
-- payload. The client (client.rs) numbers the packets of an upload, paces them (pacing.rs), keeps
-- those in flight for the loss recovery and tells the congestion control (congestion.rs) of every
-- packet sent, acknowledged or lost. The server (server.rs) keeps a state for each address, answers
-- each packet with an ACK, and after a DOWNLOAD command with bursts of data. The TCP server
-- (src/performance/tcp/server.rs) hands each connection a permit and a handler, which reads a
-- command byte and then receives or sends. The HTTP server (src/performance/http/server.rs) streams
-- zero bytes and counts uploads. A command of src/main.rs makes a configuration (src/report/config.rs)
-- and runs the client of its protocol, which runs a test for each payload size. The parallel tasks
-- of a test send their measurements to a collector (src/utils/instrumentation.rs), and the results
-- (src/report) compute their figures from them, which src/renderer/mod.rs shows as an
-- HTML page and `Display` on a terminal.
--
-- The files.
--   Base: numbers, lists, tests, texts, writers and time. A `Duration` or `Instant` is a number of
--     nanoseconds, a `Bytes` or a text the list of its bytes.
--   Float: `f64` as an interface, with the laws on comparison and maximum that proofs use; Float/Fixed
--     is an instance on which the examples run.
--   Udp/Buf: `put_u64` and `get_u64` of the bytes crate as an interface; Udp/Buf/BigEndian meets it.
--   Udp/Protocol: src/performance/udp/protocol.rs. Wire is about encoding, Loss about the queue of
--     packets in flight, Clock about readings of the wall clock.
--   Udp/Congestion: src/performance/udp/congestion.rs, `BbrCongestionControl` as the record `Bbr`.
--     States is about the state machine, Window about the bounds, Filter about the bandwidth samples.
--   Udp/Pacing: src/performance/udp/pacing.rs; Spacing is about the times between packets.
--   Udp/Client: src/performance/udp/client.rs, `StpClient` and its operations. Ledger and Balance are
--     about its byte counters. Upload, Download and Latency are the loops of
--     `run_upload_test`, `run_download_test` and `measure_udp_latency`, with Upload/Paced,
--     Download/Measures and Latency/Replies about what they do.
--   Udp/Server: src/performance/udp/server.rs. Burst is the sending of download data, Handler the
--     whole of `handle_stp_packet` and the loop of `run`. Fragments is about the data on the wire,
--     Command about the way of a DOWNLOAD command, Sessions about sequences of datagrams, Refusals
--     about bursts that bare ACKs start and bursts that the socket refuses.
--   Tcp/Server: src/performance/tcp/server.rs as a step function over events. Permits is about the
--     counters, Limit about the bytes of a connection, Shutdown is `shutdown` and its waiting, Builder
--     is `TcpServerBuilder`.
--   Tcp/Client: the tasks of src/performance/tcp/client.rs; Tasks is about what they measure, Session
--     about an upload at the server's handler.
--   Http: src/performance/http/mod.rs. Http/Server is server.rs, Body is about what it streams.
--     Http/Client is client.rs; Exchange is about whole transfers with the server, Tasks about what
--     the tasks measure.
--   Testing/Collector: the channel and the collector of src/utils/instrumentation.rs, Delivery and
--     Errors about what reaches it. Testing/Probes: the latency loops of the TCP and HTTP clients;
--     Measures is about them.
--   Testing/Progress: the progress bars of src/utils/instrumentation.rs and src/utils/progress.rs;
--     Averages is about what they show.
--   Testing/Index: `IndexSet` and `IndexMap` of the indexmap crate as interfaces; Index/Ordered meets
--     them. Testing/Config: src/report/config.rs, src/constants.rs and src/utils/types.rs; Sizes is
--     about the payload sizes.
--   Testing/Runner: the choice of tests in `run_tcp_client`, `run_udp_client` and `run_http_test`, with
--     src/report/result/network.rs; Plan, Sizes and Outcomes are about which tests run and what is
--     recorded.
--   Testing/Clients: the client command of src/main.rs, whose options are the record `ClientOptions`;
--     Choice is about its mode, Reports about its report, which Expected describes.
--   Cli: the server and report commands of src/main.rs, with `export_report` of src/utils/export.rs;
--     Servers and Files are about them.
--   Report/Throughput: src/report/measurement/throughput.rs, src/report/errors.rs and
--     src/report/result/throughput.rs; Totals is about its figures. Report/Latency is
--     src/report/result/latency.rs; Figures and Percentile are about its figures.
--   Html: src/renderer/mod.rs, the trait `ToHtml`. Configs, Figures, Latency, Network and Page hold
--     `to_html` (`tcp_html`, `report_html` and so on) and `write_html` (`write_tcp`, `write_report`),
--     the latter partly in Configs/Streamed and Latency/Streamed, and `export_report_html` of
--     src/utils/export.rs. Streams is about writing, to a buffer and to a writer that can fail, Space
--     about the white space between tags, Tags about their balance.
--   Display: the `Display` of the types in src/report, as `print_tcp`, `print_latency`, `print_report`
--     and so on. Indent is about the lines that a network result indents.
--   Examples: the theorems at concrete inputs.
--
-- The model. Stateful code takes its state and returns the new one. Readings of the clocks, the
-- answers of sockets and the texts of error messages are arguments. Integers are natural numbers
-- with the wrap-around of the release build written out (`u64`, `u32`, `sub_u64`). Loops on data are
-- structural; the loop over fragments recurs on the accessibility of the bytes that remain, and the
-- loops of the tests run over the list of turns that the environment gives, up to the first late
-- one, which needs no fuel. The STP server handles one datagram after the other, as its loop
-- does. The TCP server's handlers interleave freely; the few counter updates at a connection's
-- start or end are one step.
-- The loop that repeats the HTTP server's buffer takes the size of the chunk as its fuel, which is
-- enough since each turn copies a byte at least. The tasks of a parallel test interleave freely; what
-- one of them measures is taken as a whole, before the order of its sendings.
--
-- A page of HTML or a printed report is a list of code points. The texts of its dates, sizes and
-- floats come from libraries and are parameters; the commands take the page as an argument.
--
-- Not modelled: the routing, the TLS and the sockets of the HTTP library, and the fixed texts of its
-- info and health endpoints; the parsing of arguments (clap); the check that an export file can be
-- written, and the waiting for spawned servers, in src/main.rs; the drawing of progress bars,
-- src/utils/tls.rs and src/utils/file.rs; and logging everywhere.
pub mod Base
pub mod Float
pub mod Udp
pub mod Tcp
pub mod Testing
pub mod Html
pub mod Display
pub mod Http
pub mod Cli
pub mod Report
mod Examples
