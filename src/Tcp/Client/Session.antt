-- ===== src/Tcp/Client/Session.antt =====
-- An upload task of src/performance/tcp/client.rs at a handler of src/performance/tcp/server.rs.
use speed_cli.Base.{
  ℕ, ◌+◌, ◌*◌, ◌<◌, ◌≡◌, refl, ap, ◌∙◌, false, ◌==◌, Option, none, some, List, [], ◌∷◌, ◌++◌, arith,
  map, sum_of, All, u64, IsU64,
}
use speed_cli.Base.Time.{Duration, Instant}
use speed_cli.Report.Throughput.{bytes_of}
use speed_cli.Tcp.Server.{
  TcpServerConfig, TcpServerMetrics, ConnectionStats, Handler, new_handler, uploading, Clock, Input,
  command_byte, read, Turn, stays, is_reached, add_bytes, should_report, handle, handle_command,
  handle_upload,
}
use speed_cli.Tcp.Client.{Pass, opened, upload_task}
use speed_cli.Tcp.Client.Tasks.{writes, write_loop_bytes}

-- A handler given inputs until it ends; none if it does not wait for one.
unfoldable pub feed :
    TcpServerConfig → TcpServerMetrics → Handler → List Input → Option (TcpServerMetrics × Turn)
unfolding handle
feed c m h [] = some (m, stays h)
feed c m h (i ∷ is) = elim (handle c m h i) [
  | none ↦ none
  | some (m', stays h') ↦ feed c m' h' is
  | some (m', turn) ↦ some (m', turn)
]

-- Reads of the given lengths, with the instants of their clocks.
abbrev pub reads : List (ℕ × Clock) → List Input
reads rs = map (λ r. read r.0 r.1) rs

abbrev pub total_read : List (ℕ × Clock) → ℕ
total_read rs = sum_of (λ r. r.0) rs

not_reached :
    (limit : Option ℕ) (total more : ℕ)
    → is_reached limit (total + more) ≡ false
    → is_reached limit total ≡ false
not_reached none total more h = refl
not_reached (some n) total more h = ground arith

module _ (c : TcpServerConfig) where
  -- The handler goes on in the upload loop with the given totals.
  abbrev pub GoesOn : ℕ → ℕ → Option (TcpServerMetrics × Turn) → Type 0
  GoesOn total received result =
      (m : TcpServerMetrics) × (h : Handler) × (result ≡ some (m, stays h))
      × (h.phase ≡ uploading)
      × (h.stats.total_bytes ≡ total)
      × (m.total_bytes_received ≡ received)

  total_kept :
      (s : ConnectionStats) (interval : Duration) (check report : Instant)
      → (should_report s interval check report).total_bytes ≡ s.total_bytes
  unfolding should_report
  total_kept s interval check report = ground arith

  read_lem :
      (m : TcpServerMetrics) (h : Handler) (n : ℕ) (clock : Clock)
      → h.phase ≡ uploading
      → 0 < n
      → IsU64 (h.stats.total_bytes + n)
      → is_reached c.max_bytes_per_connection (h.stats.total_bytes + n) ≡ false
      → GoesOn
          (h.stats.total_bytes + n)
          (u64 (m.total_bytes_received + n))
          (handle c m h (read n clock))
  unfolding handle handle_upload add_bytes
  read_lem m h n clock up pos u below =
      let same : u64 (h.stats.total_bytes + n) ≡ h.stats.total_bytes + n = omega arith in
      let some_bytes : (n == 0) ≡ false = ground arith in
      let below' : is_reached c.max_bytes_per_connection (u64 (h.stats.total_bytes + n)) ≡ false =
        ap (is_reached c.max_bytes_per_connection) same ∙ below in
      let stats =
        should_report (add_bytes h.stats n clock.activity) c.report_interval clock.check
          clock.report in
      let m' = record m { total_bytes_received = u64 (m.total_bytes_received + n) } in
      (
        m',
        record h { stats = stats; phase = uploading },
        rw (up, handle, some_bytes, below')
            (ap (λ p. some (m', stays (record h { stats = stats; phase = p }))) up),
        refl,
        total_kept (add_bytes h.stats n clock.activity) c.report_interval clock.check clock.report
            ∙ same,
        refl,
      )

  feed_stays :
      (m : TcpServerMetrics) (h : Handler) (i : Input) (is : List Input) {m' : TcpServerMetrics}
      {h' : Handler}
      → handle c m h i ≡ some (m', stays h')
      → feed c m h (i ∷ is) ≡ feed c m' h' is
  unfolding feed
  feed_stays m h i is e = rw (e, feed) refl

  feed-reads :
      (m : TcpServerMetrics) (h : Handler) (rs : List (ℕ × Clock))
      → h.phase ≡ uploading
      → All (λ r. 0 < r.0) rs
      → IsU64 (h.stats.total_bytes + total_read rs)
      → is_reached c.max_bytes_per_connection (h.stats.total_bytes + total_read rs) ≡ false
      → IsU64 m.total_bytes_received
      → GoesOn
          (h.stats.total_bytes + total_read rs)
          (u64 (m.total_bytes_received + total_read rs))
          (feed c m h (reads rs))
  unfolding feed
  feed-reads m h [] up pos u below um = (m, h, refl, up, omega arith, omega arith)
  feed-reads m h ((n, clock) ∷ rs) up pos u below um =
      let total : ℕ = h.stats.total_bytes in
      let split : is_reached c.max_bytes_per_connection ((total + n) + total_read rs) ≡ false =
        ap (is_reached c.max_bytes_per_connection) {x = (total + n) + total_read rs}
          {y = total + (n + total_read rs)} (omega arith)
        ∙ below in
      let (m', h', e, up', t, b) =
        read_lem m h n clock up pos.0 (omega arith)
          (not_reached c.max_bytes_per_connection (total + n) (total_read rs) split) in
      let (m'', h'', e', up'', t', b') =
        feed-reads m' h' rs up' pos.1 (omega (arith, t))
          (ap (λ k. is_reached c.max_bytes_per_connection (k + total_read rs)) t ∙ split)
          (omega (arith, b)) in
      (
        m'',
        h'',
        feed_stays m h (read n clock) (reads rs) {m' = m'} {h' = h'} e ∙ e',
        up'',
        omega (arith, t, t'),
        omega (arith, b, b'),
      )

-- What the server counts of an upload: the client's command byte and the reads that carry the
-- bytes of its successful writes, the payload size for each, however they are cut, take a new
-- handler to the upload loop and to the sum of the bytes that the client reports. The sum is a u64 below the limit of the
-- connection, and no read is empty. The server's metrics grow by the sum, in 64 bits.
pub feed-upload_task :
    (c : TcpServerConfig) (m : TcpServerMetrics) (connection_id : ℕ) (start now : Instant)
    (duration : Duration) (payload_size : ℕ) (passes : List Pass) (rs : List (ℕ × Clock))
    → total_read rs ≡ writes duration passes * payload_size
    → All (λ r. 0 < r.0) rs
    → IsU64 (total_read rs)
    → is_reached c.max_bytes_per_connection (total_read rs) ≡ false
    → IsU64 m.total_bytes_received
    → let (command, measured) = upload_task duration payload_size (opened passes) in
      GoesOn c
        (sum_of bytes_of measured)
        (u64 (m.total_bytes_received + sum_of bytes_of measured))
        (feed c m
          (new_handler connection_id start)
          (map (λ byte. command_byte byte now) command ++ reads rs))
unfolding upload_task handle handle_command
feed-upload_task c m connection_id start now duration payload_size passes rs same pos u below um =
    let h = record (new_handler connection_id start) { phase = uploading } in
    let reported = write_loop_bytes duration payload_size passes in
    let (m', h', e, up, t, b) =
      feed-reads c m h rs refl pos (omega arith)
        (ap (is_reached c.max_bytes_per_connection) {x = 0 + total_read rs} (omega arith) ∙ below)
        um in
    (
      m',
      h',
      feed_stays c m (new_handler connection_id start) (command_byte b'U' now) (reads rs) {m' = m}
            {h' = h} refl
          ∙ e,
      up,
      omega (arith, t, same, reported),
      omega (arith, b, same, reported),
    )
