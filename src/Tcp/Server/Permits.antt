-- ===== src/Tcp/Server/Permits.antt =====
-- The permits and the count of active connections in src/performance/tcp/server.rs.
use mathlib.Core.Option.{some-injective}
use speed_cli.Base.{
  ℕ, zero, suc, ◌+◌, ◌≤◌, ◌<◌, ◌≡◌, refl, inl, inr, false, Option, none, some, List, [], ◌∷◌, ◌++◌,
  arith, length, get_elem?, take, drop, sum_of, u64, length-append, length-take, length-drop,
  Option-cases, ℕ-cases, subst,
}
use speed_cli.Tcp.Server.{
  TcpServerConfig, TcpServerMetrics, Handler, new_handler, Input, command_failed, command_timeout,
  Turn, stays, finishes, bails, handle_upload, handle_download, handle_command, handle, TcpServer,
  new_server, accept, splice, settle, Event, accepted, accept_failed, stop_accepting, handler_event,
  step,
}

-- A whole execution; none if some event cannot come.
unfoldable pub run : TcpServer → List Event → Option TcpServer
run s [] = some s
run s (e ∷ es) = elim (step s e) [ none ↦ none | some s' ↦ run s' es ]

-- The input ends a handler whose client sent no command byte in time.
abbrev pub lost_input : Input → ℕ
lost_input command_failed = 1
lost_input command_timeout = 1
lost_input _ = 0

abbrev pub lost_by : Event → ℕ
lost_by (handler_event i input) = lost_input input
lost_by _ = 0

abbrev pub lost : List Event → ℕ
lost es = sum_of lost_by es

-- Permits are never lost, and the counter is ahead of the handlers by `n`.
pub record Books (c : TcpServerConfig) (s : TcpServer) (n : ℕ) : Type 0 where
  pub same : s.config ≡ c
  pub permits : s.available_permits + length s.handlers ≡ c.max_connections
  pub counter : s.active_connections ≡ u64 (length s.handlers + n)

get_elem_lt : (hs : List Handler) (i : ℕ) {h : Handler} → get_elem? hs i ≡ some h → i < length hs
get_elem_lt [] i e = ground arith
get_elem_lt (x ∷ hs) zero e = omega arith
get_elem_lt (x ∷ hs) (suc i) {h} e = omega (arith, get_elem_lt hs i {h = h} e)

length-splice :
    (hs new : List Handler) (i : ℕ)
    → i < length hs
    → suc (length (splice i new hs)) ≡ length new + length hs
unfolding splice
length-splice hs new i h = omega (
  arith,
  length-append (take i hs) (new ++ drop (suc i) hs),
  length-append new (drop (suc i) hs),
  length-take i hs,
  length-drop (suc i) hs,
)

-- Only the two inputs bail, and they do nothing else.
turn_lost : Turn → ℕ
turn_lost bails = 1
turn_lost _ = 0

handle_lost :
    (c : TcpServerConfig) (m : TcpServerMetrics) (h : Handler) (i : Input) {m' : TcpServerMetrics}
    {t : Turn}
    → handle c m h i ≡ some (m', t)
    → turn_lost t ≡ lost_input i
unfolding handle handle_command handle_upload handle_download turn_lost
handle_lost c m h i e = ground arith

module _ (c : TcpServerConfig) where
  settle-Books :
      (s : TcpServer) (n i : ℕ) (m : TcpServerMetrics) (t : Turn)
      → Books c s n
      → i < length s.handlers
      → Books c (settle s i m t) (n + turn_lost t)
  unfolding settle turn_lost
  settle-Books s n i m (stays h) b l = record {
    same = b.same;
    permits = omega (arith, b.permits, length-splice s.handlers (h ∷ []) i l);
    counter = omega (arith, b.counter, length-splice s.handlers (h ∷ []) i l);
  }
  settle-Books s n i m (finishes ok) b l = record {
    same = b.same;
    permits = omega (arith, b.permits, length-splice s.handlers [] i l);
    counter = omega (arith, b.counter, length-splice s.handlers [] i l);
  }
  settle-Books s n i m bails b l = record {
    same = b.same;
    permits = omega (arith, b.permits, length-splice s.handlers [] i l);
    counter = omega (arith, b.counter, length-splice s.handlers [] i l);
  }

  accept-Books : (s : TcpServer) (n : ℕ) (now : ℕ) → Books c s n → Books c (accept s now) n
  unfolding accept
  accept-Books s n now b = elim (ℕ-cases s.available_permits) [
    | inl e ↦ rw (e, accept) b
    | inr (p, e) ↦
        rw (e, accept)
          (record {
            same = b.same;
            permits = omega (
              arith,
              e,
              b.permits,
              b.counter,
              length-append s.handlers (new_handler s.connection_id now ∷ []),
            );
            counter = omega (
              arith,
              e,
              b.permits,
              b.counter,
              length-append s.handlers (new_handler s.connection_id now ∷ []),
            );
          })
  ]

  step-Books :
      (s : TcpServer) (n : ℕ) (e : Event) {s' : TcpServer}
      → Books c s n
      → step s e ≡ some s'
      → Books c s' (n + lost_by e)
  unfolding step
  step-Books s n (accepted now) b h = ground (arith, accept-Books s n now b)
  step-Books s n accept_failed b h = ground arith
  step-Books s n stop_accepting b h = ground (arith, stopped)
    where
      stopped : Books c (record s { is_accepting = false }) n
      stopped = record { same = b.same; permits = b.permits; counter = b.counter }
  step-Books s n (handler_event i input) {s'} b h = elim (Option-cases (get_elem? s.handlers i)) [
    | inl e ↦ ground arith
    | inr (a, e) ↦ elim (Option-cases (handle s.config s.metrics a input)) [
      | inl e' ↦ ground arith
      | inr ((m, t), e') ↦
          let b' = settle-Books s n i m t b (get_elem_lt s.handlers i {h = a} e) in
          let l = handle_lost s.config s.metrics a input {m' = m} {t = t} e' in
          subst (λ x. Books c x (n + lost_input input))
            (some-injective (settle s i m t) s' (rw (e, e', step) at h))
            (subst (λ k. Books c (settle s i m t) (n + k)) l b')
    ]
  ]

  run-Books :
      (s : TcpServer) (n : ℕ) (es : List Event) {s' : TcpServer}
      → Books c s n
      → run s es ≡ some s'
      → Books c s' (n + lost es)
  unfolding run
  run-Books s n [] {s'} b h =
      subst (λ k. Books c s' k) (omega arith) (subst (λ x. Books c x n) (some-injective s s' h) b)
  run-Books s n (e ∷ es) {s'} b h = elim (Option-cases (step s e)) [
    | inl e1 ↦ ground arith
    | inr (s1, e1) ↦
        subst (λ k. Books c s' k) (omega arith)
          (run-Books s1 (n + lost_by e) es {s' = s'} (step-Books s n e {s' = s1} b e1)
            (rw (e1, run) at h))
  ]

-- In every state that the server reaches, the free permits and the running handlers together are
-- `max_connections`, so that no more handlers run, and `active_connections` is the number of
-- running handlers and of the connections that ended before their command byte came, in 64 bits.
pub active_connections_run :
    (c : TcpServerConfig) (es : List Event) (s : TcpServer)
    → run (new_server c) es ≡ some s
    → (s.available_permits + length s.handlers ≡ c.max_connections)
      × (length s.handlers ≤ c.max_connections)
      × (s.active_connections ≡ u64 (length s.handlers + lost es))
active_connections_run c es s h =
    let b =
      run-Books c (new_server c) 0 es {s' = s}
        (record { same = refl; permits = omega arith; counter = omega arith }) h in
    (b.permits, omega (arith, b.permits), omega (arith, b.counter))
