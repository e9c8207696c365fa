-- ===== src/Tcp/Server.antt =====
-- src/performance/tcp/server.rs: the accept loop, the permits, and the handlers of connections.
-- A handler waits in a `select!` for what its socket or a timer gives; each such event is a step,
-- with the readings of the clock that it makes. The handlers run at the same time, so an execution
-- is any sequence of steps. The steps of the accept loop and of the end of a handler, which change
-- the counters, are taken as one step each. Logging and socket options are left out, and so is
-- `buffer_size` 0, at which the read of the command byte panics.
pub mod Builder
pub mod Permits
pub mod Limit
pub mod Shutdown
use mathlib.Core.List.{map}
use speed_cli.Base.{
  ℕ, zero, suc, ◌+◌, ◌-◌, ◌*◌, ◌==◌, Bool, true, false, Option, none, some, List, [], ◌∷◌, ◌++◌,
  ltb, leb, if◌then◌else◌, length, get_elem?, take, drop, u64, sub_u64,
}
use speed_cli.Base.Time.{Duration, Instant, from_secs, duration_since}

pub record TcpServerConfig : Type 0 where
  pub max_connections : ℕ
  pub connection_timeout : Duration
  pub read_timeout : Duration
  pub buffer_size : ℕ
  pub report_interval : Duration
  pub max_bytes_per_connection : Option ℕ

-- `TcpServerConfig::default`.
abbrev pub default_config : TcpServerConfig
default_config = record {
  max_connections = 1000;
  connection_timeout = from_secs 300;
  read_timeout = from_secs 30;
  buffer_size = 131072;
  report_interval = from_secs 5;
  max_bytes_per_connection = some 1000000000000;
}

pub record TcpServerMetrics : Type 0 where
  pub total_connections : ℕ
  pub active_connections : ℕ
  pub total_bytes_received : ℕ
  pub total_bytes_sent : ℕ
  pub connection_errors : ℕ

abbrev pub new_metrics : TcpServerMetrics
new_metrics = record {
  total_connections = 0;
  active_connections = 0;
  total_bytes_received = 0;
  total_bytes_sent = 0;
  connection_errors = 0;
}

abbrev pub count_error : TcpServerMetrics → TcpServerMetrics
count_error m = record m { connection_errors = u64 (m.connection_errors + 1) }

pub record ConnectionStats : Type 0 where
  pub total_bytes : ℕ
  pub start_time : Instant
  pub last_report : Instant
  pub last_activity : Instant

-- `ConnectionStats::new`.
abbrev pub new_stats : Instant → ConnectionStats
new_stats now = record { total_bytes = 0; start_time = now; last_report = now; last_activity = now }

unfoldable pub add_bytes : ConnectionStats → ℕ → Instant → ConnectionStats
add_bytes s bytes now = record s { total_bytes = u64 (s.total_bytes + bytes); last_activity = now }

-- `should_report`, with the reading of the check and of the new report; the answer is only logged.
unfoldable pub should_report : ConnectionStats → Duration → Instant → Instant → ConnectionStats
should_report s report_interval check now =
    if leb report_interval (duration_since check s.last_report)
    then record s { last_report = now }
    else s

unfoldable pub is_idle : ConnectionStats → Duration → Instant → Bool
is_idle s limit now = ltb limit (duration_since now s.last_activity)

-- Where a handler stands: before the command byte, or in one of the two loops. The loop of a
-- download has a count of its own.
pub data Phase : Type 0 where
  waiting : Phase
  uploading : Phase
  downloading : (total_sent : ℕ) → (last_report : Instant) → Phase

-- `ProductionTcpHandler`, without the socket and what it shares with the server.
pub record Handler : Type 0 where
  pub connection_id : ℕ
  pub stats : ConnectionStats
  pub phase : Phase

-- `ProductionTcpHandler::new`.
abbrev pub new_handler : ℕ → Instant → Handler
new_handler connection_id now = record {
  connection_id = connection_id;
  stats = new_stats now;
  phase = waiting;
}

-- The three instants that a pass through a loop may read.
pub record Clock : Type 0 where
  pub activity : Instant
  pub check : Instant
  pub report : Instant

-- What the handler is given.
pub data Input : Type 0 where
  -- The answer to the read of the command byte.
  command_byte : ℕ → Instant → Input
  command_failed : Input
  command_timeout : Input
  -- The branches of `handle_upload`.
  read : ℕ → Clock → Input
  read_failed : Input
  read_timeout : Input
  upload_tick : Instant → Input
  -- The branches of `handle_download`.
  written : Clock → Input
  write_failed : Input
  download_tick : Input
  -- The signal, in either loop.
  shutdown_signal : Input

-- A handler goes on, ends with a result, or returns from `handle` before the loops.
pub data Turn : Type 0 where
  stays : Handler → Turn
  finishes : (is_ok : Bool) → Turn
  bails : Turn

abbrev pub is_reached : Option ℕ → ℕ → Bool
is_reached none total = false
is_reached (some max_bytes) total = leb max_bytes total

unfoldable pub handle_upload :
    TcpServerConfig → TcpServerMetrics → Handler → Input → Option (TcpServerMetrics × Turn)
unfolding add_bytes should_report is_idle
handle_upload c m h (read n clock) =
    let stats = add_bytes h.stats n clock.activity in
    let m' = record m { total_bytes_received = u64 (m.total_bytes_received + n) } in
    let stats' = should_report stats c.report_interval clock.check clock.report in
    if n == 0
    then some (m, finishes true)
    else if is_reached c.max_bytes_per_connection stats.total_bytes
    then some (m', finishes true)
    else some (m', stays (record h { stats = stats' }))
handle_upload c m h read_failed = some (count_error m, finishes false)
handle_upload c m h read_timeout = some (count_error m, finishes false)
handle_upload c m h shutdown_signal = some (m, finishes true)
handle_upload c m h (upload_tick now) =
    if is_idle h.stats c.connection_timeout now then some (m, finishes false) else some (m, stays h)
handle_upload c m h _ = none

unfoldable pub handle_download :
    TcpServerConfig
    → TcpServerMetrics
    → Handler
    → ℕ
    → Instant
    → Input
    → Option (TcpServerMetrics × Turn)
unfolding add_bytes
handle_download c m h total_sent last_report (written clock) =
    let total_sent' = u64 (total_sent + c.buffer_size) in
    let stats = add_bytes h.stats c.buffer_size clock.activity in
    let m' = record m { total_bytes_sent = u64 (m.total_bytes_sent + c.buffer_size) } in
    let last_report' =
      if leb c.report_interval (duration_since clock.check last_report)
      then clock.report
      else last_report in
    if is_reached c.max_bytes_per_connection total_sent'
    then some (m', finishes true)
    else some (m', stays (record h { stats = stats; phase = downloading total_sent' last_report' }))
handle_download c m h total_sent last_report write_failed = some (count_error m, finishes false)
handle_download c m h total_sent last_report shutdown_signal = some (m, finishes true)
handle_download c m h total_sent last_report download_tick = some (m, stays h)
handle_download c m h total_sent last_report _ = none

-- The read of the command byte and the choice of the loop. The read times out after five seconds.
unfoldable pub handle_command :
    TcpServerMetrics → Handler → Input → Option (TcpServerMetrics × Turn)
handle_command m h (command_byte c now) =
    if c == b'U'
    then some (m, stays (record h { phase = uploading }))
    else if c == b'D'
    then some (m, stays (record h { phase = downloading 0 now }))
    else some (count_error m, finishes false)
handle_command m h command_failed = some (count_error m, bails)
handle_command m h command_timeout = some (count_error m, bails)
handle_command m h _ = none

-- One event at a handler; none if the handler does not wait for it.
unfoldable pub handle :
    TcpServerConfig → TcpServerMetrics → Handler → Input → Option (TcpServerMetrics × Turn)
unfolding handle_command handle_upload handle_download
handle c m h i = elim h.phase [
  | waiting ↦ handle_command m h i
  | uploading ↦ handle_upload c m h i
  | downloading total_sent last_report ↦ handle_download c m h total_sent last_report i
]

-- `TcpServer` with the accept loop's own counter and the handlers that run.
pub record TcpServer : Type 0 where
  pub config : TcpServerConfig
  pub active_connections : ℕ
  pub available_permits : ℕ
  pub metrics : TcpServerMetrics
  pub connection_id : ℕ
  pub is_accepting : Bool
  pub handlers : List Handler

-- `TcpServer::new`, with the accept loop started.
abbrev pub new_server : TcpServerConfig → TcpServer
new_server config = record {
  config = config;
  active_connections = 0;
  available_permits = config.max_connections;
  metrics = new_metrics;
  connection_id = 0;
  is_accepting = true;
  handlers = [];
}

-- `accept` gave a socket. Without a permit it is dropped.
unfoldable pub accept : TcpServer → Instant → TcpServer
accept s now = elim s.available_permits [
  | zero ↦ s
  | suc permits ↦
      let active = u64 (s.active_connections + 1) in
      record s {
        available_permits = permits;
        active_connections = active;
        connection_id = u64 (s.connection_id + 1);
        metrics = record s.metrics {
          total_connections = u64 (s.metrics.total_connections + 1);
          active_connections = active;
        };
        handlers = s.handlers ++ (new_handler s.connection_id now ∷ []);
      }
]

-- The i-th handler replaced by those of a list.
unfoldable pub splice : ℕ → List Handler → List Handler → List Handler
splice i new hs = take i hs ++ (new ++ drop (suc i) hs)

-- The end of `handle` counts the connection out; a return before the loops does not. The permit
-- goes back with the handler in both cases.
unfoldable pub settle : TcpServer → ℕ → TcpServerMetrics → Turn → TcpServer
unfolding splice
settle s i m (stays h) = record s { metrics = m; handlers = splice i (h ∷ []) s.handlers }
settle s i m (finishes is_ok) =
    let remaining = sub_u64 s.active_connections 1 in
    record s {
      active_connections = remaining;
      metrics = record m { active_connections = remaining };
      available_permits = s.available_permits + 1;
      handlers = splice i [] s.handlers;
    }
settle s i m bails = record s {
  metrics = m;
  available_permits = s.available_permits + 1;
  handlers = splice i [] s.handlers;
}

pub data Event : Type 0 where
  accepted : Instant → Event
  accept_failed : Event
  stop_accepting : Event
  handler_event : ℕ → Input → Event

-- One step of the server; none if the event cannot come.
unfoldable pub step : TcpServer → Event → Option TcpServer
unfolding accept handle settle
step s (accepted now) = if s.is_accepting then some (accept s now) else none
step s accept_failed = if s.is_accepting then some s else none
step s stop_accepting = if s.is_accepting then some (record s { is_accepting = false }) else none
step s (handler_event i input) = elim (get_elem? s.handlers i) [
  | none ↦ none
  | some h ↦ elim (handle s.config s.metrics h input) [
    | none ↦ none
    | some (m, turn) ↦ some (settle s i m turn)
  ]
]
