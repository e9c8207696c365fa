-- ===== src/Tcp/Client.antt =====
-- src/performance/tcp/client.rs: the tasks of the download and the upload test. What the socket
-- gives is an argument. The logging is left out, and so is the pause of 10 ms after the command.
pub mod Tasks
pub mod Session
use speed_cli.Base.{
  ℕ, zero, suc, ◌==◌, Bool, true, false, List, [], ◌∷◌, if◌then◌else◌, ltb, length, min, replicate,
}
use speed_cli.Base.Outcome.{Result, ok, err}
use speed_cli.Base.Time.{Duration}
use speed_cli.Report.Throughput.{ThroughputMeasurement, success, failure, unknown}

-- A turn of a loop: the time on the clock of its condition, the length that the read or the write
-- gives, or its error, and how long it took.
pub record Pass : Type 0 where
  pub elapsed : Duration
  pub outcome : Result ℕ
  pub took : Duration

-- How a task gets to its loop: the connection may fail, and after it the write of the command byte.
pub data Opening : Type 0 where
  unconnected : Opening
  command_unsent : Opening
  opened : (turns : List Pass) → Opening

-- The bytes that a read may give at most, the length of the task's buffer.
abbrev pub buffer_length : ℕ → ℕ
buffer_length payload_size = min payload_size 8192

-- The loop of a download: it ends at the first late turn and when the server closed the connection,
-- which a read of no bytes tells. It goes on after an error.
unfoldable pub read_loop : Duration → List Pass → List ThroughputMeasurement
read_loop duration [] = []
read_loop duration (t ∷ ts) =
    let rest = read_loop duration ts in
    let found : List ThroughputMeasurement = elim t.outcome [
      | ok n ↦ if n == 0 then [] else success n t.took ∷ rest
      | err message ↦ failure (unknown message) t.took 0 ∷ rest
    ] in
    if ltb t.elapsed duration then found else []

-- The loop of an upload: it ends at the first late turn and after an error. A write that succeeds
-- writes all the data.
unfoldable pub write_loop : Duration → ℕ → List Pass → List ThroughputMeasurement
write_loop duration data_length [] = []
write_loop duration data_length (t ∷ ts) =
    let rest = write_loop duration data_length ts in
    let found : List ThroughputMeasurement = elim t.outcome [
      | ok n ↦ success data_length t.took ∷ rest
      | err message ↦ failure (unknown message) t.took 0 ∷ []
    ] in
    if ltb t.elapsed duration then found else []

-- The command byte and the measurements of a task of `run_download_test`.
unfoldable pub download_task : Duration → Opening → List ℕ × List ThroughputMeasurement
unfolding read_loop
download_task duration unconnected = ([], [])
download_task duration command_unsent = ([], [])
download_task duration (opened turns) = (b'D' ∷ [], read_loop duration turns)

-- The command byte and the measurements of a task of `run_upload_test`.
unfoldable pub upload_task : Duration → ℕ → Opening → List ℕ × List ThroughputMeasurement
unfolding write_loop
upload_task duration payload_size unconnected = ([], [])
upload_task duration payload_size command_unsent = ([], [])
upload_task duration payload_size (opened turns) =
    (b'U' ∷ [], write_loop duration payload_size turns)
