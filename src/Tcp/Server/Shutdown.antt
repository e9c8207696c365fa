-- ===== src/Tcp/Server/Shutdown.antt =====
-- `TcpServer::shutdown` of src/performance/tcp/server.rs: how long it waits for the connections.
use speed_cli.Base.{
  ℕ, zero, suc, ◌+◌, ◌^◌, ◌≤◌, ◌<◌, ◌≡◌, ap, Bool, true, some, List, [], ◌++◌, arith, ltb,
  if◌then◌else◌, sum_of-append, Bool-cases, inl, inr,
}
use speed_cli.Tcp.Server.{TcpServerConfig, TcpServer, new_server, Event}
use speed_cli.Tcp.Server.Permits.{run, lost, lost_by, active_connections_run}

-- The loop, with the attempts that are left of 30: `active i` is the count that the check after
-- `i` pauses reads.
unfoldable pub wait_for_close : (ℕ → ℕ) → ℕ → ℕ → ℕ
wait_for_close active attempts zero = attempts
wait_for_close active attempts (suc left) =
    let rest = wait_for_close active (suc attempts) left in
    if ltb 0 (active attempts) then rest else attempts

-- The pauses of 100 ms that `shutdown` makes, and whether it then reports remaining connections.
unfoldable pub shutdown : (ℕ → ℕ) → ℕ × Bool
unfolding wait_for_close
shutdown active =
    let attempts = wait_for_close active 0 30 in (attempts, ltb 0 (active (suc attempts)))

wait_in_full :
    (active : ℕ → ℕ) (attempts left : ℕ)
    → ((i : ℕ) → 0 < active i)
    → wait_for_close active attempts left ≡ attempts + left
unfolding wait_for_close
wait_in_full active attempts zero h = omega arith
wait_in_full active attempts (suc left) h =
    ground (arith, h attempts, wait_in_full active (suc attempts) left h)

wait_ends :
    (active : ℕ → ℕ) (attempts left j : ℕ)
    → attempts ≤ j
    → active j ≡ 0
    → wait_for_close active attempts left ≤ j
unfolding wait_for_close
wait_ends active attempts zero j l h = l
wait_ends active attempts (suc left) j l h = elim (Bool-cases (ltb attempts j)) [
  | inl before ↦ ground (arith, wait_ends active (suc attempts) left j (ground arith) h)
  | inr now ↦ (let here : attempts ≡ j = ground arith in ground (arith, ap active here, h))
]

-- The server's state at each check, reached by further events.
module _ (c : TcpServerConfig) (es : List Event) (later : ℕ → List Event) (s : ℕ → TcpServer)
    (reached : (i : ℕ) → run (new_server c) (es ++ later i) ≡ some (s i)) where
  -- Once a connection has ended before its command byte came, a shutdown makes all its 30 pauses
  -- and then reports remaining connections, whatever happens in the meantime and even if no
  -- handler runs, as long as the count of such connections and the permits stays within 64 bits.
  pub shutdown_forced :
      1 ≤ lost es
      → ((i : ℕ) → c.max_connections + lost (es ++ later i) < 2 ^ 64)
      → shutdown (λ i. (s i).active_connections) ≡ (30, true)
  unfolding shutdown
  shutdown_forced l small =
      ground (arith, wait_in_full (λ i. (s i).active_connections) 0 30 busy, busy 31)
    where
      busy : (i : ℕ) → 0 < (s i).active_connections
      busy i =
          let (_, few, e) = active_connections_run c (es ++ later i) (s i) (reached i) in
          omega (arith, few, e, small i, sum_of-append lost_by es (later i))

  -- If no connection ended so, a shutdown pauses at most until the check at which no handler runs.
  pub shutdown_ends :
      (j : ℕ)
      → lost (es ++ later j) ≡ 0
      → (s j).handlers ≡ []
      → (shutdown (λ i. (s i).active_connections)).0 ≤ j
  unfolding shutdown
  shutdown_ends j l h =
      let (_, _, e) = active_connections_run c (es ++ later j) (s j) (reached j) in
      wait_ends (λ i. (s i).active_connections) 0 30 j (omega arith) (ground (arith, e, l, h))
