-- ===== src/Cli/Servers.antt =====
-- The `server` command of src/main.rs.
use speed_cli.Base.{ℕ, ◌+◌, ◌<◌, ◌≡◌, refl, Bool, true, false, List, arith, inr, ◌||◌, length}
use speed_cli.Cli.{FilePath, ServerOptions, Spawned, spawn_if, server_command}

abbrev one_if : Bool → ℕ
one_if true = 1
one_if false = 0

length-spawn_if : (b : Bool) (s : Spawned) → length (spawn_if b s) ≡ one_if b
length-spawn_if true s = refl
length-spawn_if false s = refl

-- The number of modes that the options enable.
abbrev pub enabled : ServerOptions → ℕ
enabled o =
    one_if (o.use_tcp || o.all_modes)
    + (one_if (o.use_udp || o.all_modes)
        + (one_if (o.use_http || o.all_modes) + one_if (o.use_https || o.all_modes)))

module _ (exists : FilePath → Bool) where
  -- A server command that goes on has spawned a server for each mode that is enabled, and at least
  -- one.
  pub server_command-spawned :
      (o : ServerOptions) {started : List Spawned}
      → server_command exists o ≡ inr started
      → (length started ≡ enabled o) × (0 < length started)
  unfolding server_command
  server_command-spawned o {started} h = ground arith
