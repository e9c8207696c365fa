-- ===== src/Tcp/Server/Limit.antt =====
-- `max_bytes_per_connection` in src/performance/tcp/server.rs.
use speed_cli.Base.{
  ℕ, zero, suc, ◌<◌, ◌≡◌, refl, inl, inr, false, some, List, [], ◌∷◌, ◌++◌, arith, get_elem?, take,
  drop, All, All-append, All-map, ℕ-cases, Option-cases, subst,
}
use mathlib.Core.Option.{some-injective}
use speed_cli.Tcp.Server.{
  TcpServerConfig, TcpServerMetrics, Handler, new_handler, Phase, waiting, uploading, downloading,
  Input, Turn, stays, finishes, bails, add_bytes, should_report, handle_upload, handle_download,
  handle_command, handle, TcpServer, new_server, accept, splice, settle, Event, accepted,
  accept_failed, stop_accepting, handler_event, step,
}
use speed_cli.Tcp.Server.Permits.{run}

-- What the phase knows of the total.
abbrev counted : Phase → ℕ → ℕ
counted waiting total = 0
counted uploading total = total
counted (downloading total_sent last_report) total = total_sent

All-take : (P : Handler → Type 0) (n : ℕ) (hs : List Handler) → All P hs → All P (take n hs)
All-take P zero hs a = tt
All-take P (suc n) [] a = tt
All-take P (suc n) (h ∷ hs) a = (a.0, All-take P n hs a.1)

All-drop : (P : Handler → Type 0) (n : ℕ) (hs : List Handler) → All P hs → All P (drop n hs)
All-drop P zero hs a = a
All-drop P (suc n) [] a = a
All-drop P (suc n) (h ∷ hs) a = All-drop P n hs a.1

All-get_elem :
    (P : Handler → Type 0) (i : ℕ) (hs : List Handler) {h : Handler}
    → All P hs
    → get_elem? hs i ≡ some h
    → P h
All-get_elem P i [] a e = ground arith
All-get_elem P zero (x ∷ hs) {h} a e = subst P (some-injective x h e) a.0
All-get_elem P (suc i) (x ∷ hs) a e = All-get_elem P i hs a.1 e

module _ (c : TcpServerConfig) (max_bytes : ℕ) (set : c.max_bytes_per_connection ≡ some max_bytes)
    (positive : 0 < max_bytes) where
  -- A running handler has taken or sent less than the limit.
  record IsBelow (h : Handler) : Type 0 where
    below : h.stats.total_bytes < max_bytes
    counts : counted h.phase h.stats.total_bytes ≡ h.stats.total_bytes

  abbrev next_total : Turn → ℕ
  next_total (stays h) = h.stats.total_bytes
  next_total _ = 0

  abbrev next_counted : Turn → ℕ
  next_counted (stays h) = counted h.phase h.stats.total_bytes
  next_counted _ = 0

  handle_total :
      (m : TcpServerMetrics) (h : Handler) (i : Input) {m' : TcpServerMetrics} {t : Turn}
      → IsBelow h
      → handle c m h i ≡ some (m', t)
      → next_total t < max_bytes
  unfolding handle handle_command handle_upload handle_download add_bytes should_report
  handle_total m h i b e = ground (arith, b.below, b.counts)

  handle_counted :
      (m : TcpServerMetrics) (h : Handler) (i : Input) {m' : TcpServerMetrics} {t : Turn}
      → IsBelow h
      → handle c m h i ≡ some (m', t)
      → next_counted t ≡ next_total t
  unfolding handle handle_command handle_upload handle_download add_bytes should_report
  handle_counted m h i b e = ground (arith, b.below, b.counts)

  record IsLimited (s : TcpServer) : Type 0 where
    same : s.config ≡ c
    all : All IsBelow s.handlers

  All-splice :
      (i : ℕ) (new hs : List Handler)
      → All IsBelow new
      → All IsBelow hs
      → All IsBelow (splice i new hs)
  unfolding splice
  All-splice i new hs n a =
      All-append IsBelow (take i hs) (new ++ drop (suc i) hs) (All-take IsBelow i hs a)
        (All-append IsBelow new (drop (suc i) hs) n (All-drop IsBelow (suc i) hs a))

  settle-IsLimited :
      (s : TcpServer) (i : ℕ) (m : TcpServerMetrics) (t : Turn)
      → IsLimited s
      → next_total t < max_bytes
      → next_counted t ≡ next_total t
      → IsLimited (settle s i m t)
  unfolding settle
  settle-IsLimited s i m (stays h) b l e = record {
    same = b.same;
    all = All-splice i (h ∷ []) s.handlers (record { below = l; counts = e }, tt) b.all;
  }
  settle-IsLimited s i m (finishes ok) b l e = record {
    same = b.same;
    all = All-splice i [] s.handlers tt b.all;
  }
  settle-IsLimited s i m bails b l e = record {
    same = b.same;
    all = All-splice i [] s.handlers tt b.all;
  }

  accept-IsLimited : (s : TcpServer) (now : ℕ) → IsLimited s → IsLimited (accept s now)
  unfolding accept
  accept-IsLimited s now b = elim (ℕ-cases s.available_permits) [
    | inl e ↦ rw (e, accept) b
    | inr (p, e) ↦
        rw (e, accept)
          (record {
            same = b.same;
            all =
                All-append IsBelow s.handlers (new_handler s.connection_id now ∷ []) b.all
                  (record { below = positive; counts = refl }, tt);
          })
  ]

  step-IsLimited :
      (s : TcpServer) (e : Event) {s' : TcpServer} → IsLimited s → step s e ≡ some s' → IsLimited s'
  unfolding step
  step-IsLimited s (accepted now) b h = ground (arith, accept-IsLimited s now b)
  step-IsLimited s accept_failed b h = ground arith
  step-IsLimited s stop_accepting b h = ground (arith, stopped)
    where
      stopped : IsLimited (record s { is_accepting = false })
      stopped = record { same = b.same; all = b.all }
  step-IsLimited s (handler_event i input) {s'} b h = elim (Option-cases (get_elem? s.handlers i)) [
    | inl e ↦ ground arith
    | inr (a, e) ↦ elim (Option-cases (handle s.config s.metrics a input)) [
      | inl e' ↦ ground arith
      | inr ((m, t), e') ↦
          let was : handle c s.metrics a input ≡ some (m, t) = rw b.same at e' in
          let low : IsBelow a = All-get_elem IsBelow i s.handlers {h = a} b.all e in
          subst IsLimited (some-injective (settle s i m t) s' (rw (e, e', step) at h)) (
            settle-IsLimited s i m t b (handle_total s.metrics a input {m' = m} {t = t} low was)
              (handle_counted s.metrics a input {m' = m} {t = t} low was))
    ]
  ]

  run-IsLimited :
      (s : TcpServer) (es : List Event) {s' : TcpServer}
      → IsLimited s
      → run s es ≡ some s'
      → IsLimited s'
  unfolding run
  run-IsLimited s [] {s'} b h = subst IsLimited (some-injective s s' h) b
  run-IsLimited s (e ∷ es) {s'} b h = elim (Option-cases (step s e)) [
    | inl e1 ↦ ground arith
    | inr (s1, e1) ↦
        run-IsLimited s1 es {s' = s'} (step-IsLimited s e {s' = s1} b e1) (rw (e1, run) at h)
  ]

-- With a positive limit of bytes for a connection, every handler that runs, in every state that the
-- server reaches, has received or sent fewer bytes than the limit: the one that reaches it is over.
pub handlers_below_limit :
    (c : TcpServerConfig) (max_bytes : ℕ) (es : List Event) (s : TcpServer)
    → c.max_bytes_per_connection ≡ some max_bytes
    → 0 < max_bytes
    → run (new_server c) es ≡ some s
    → All (λ h. h.stats.total_bytes < max_bytes) s.handlers
handlers_below_limit c max_bytes es s set positive h =
    let b =
      run-IsLimited c max_bytes set positive (new_server c) es {s' = s}
        (record { same = refl; all = tt }) h in
    All-map (IsBelow c max_bytes set positive) (λ x. x.stats.total_bytes < max_bytes)
      (λ x k. k.below) s.handlers b.all
