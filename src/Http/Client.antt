-- ===== src/Http/Client.antt =====
-- src/performance/http/client.rs: the requests of a transfer and the tasks that repeat them. The
-- requests go through a library, so that what comes back is an argument: an error or a response,
-- with its status and the chunks of its body, each of which may be an error.
pub mod Exchange
pub mod Tasks
use speed_cli.Base.{
  ℕ, zero, suc, ◌+◌, ◌*◌, ◌==◌, ◌&&◌, Bool, true, false, Option, none, some, List, [], ◌∷◌, ◌++◌,
  if◌then◌else◌, leb, ltb, length, take, min, u64, sub_u64,
}
use speed_cli.Base.Chunks.{div_ceil}
use speed_cli.Base.Options.{◌>>=◌}
use speed_cli.Base.Outcome.{Result, ok, err}
use speed_cli.Base.Time.{Duration}
use speed_cli.Report.Throughput.{ThroughputMeasurement, success, failure, unknown}
use speed_cli.Http.Server.{Bytes}

-- The bytes of the body, or the first error of its stream.
unfoldable pub download_loop : ℕ → List (Result Bytes) → Result ℕ
download_loop total_bytes [] = ok total_bytes
download_loop total_bytes (ok chunk ∷ rest) = download_loop (u64 (total_bytes + length chunk)) rest
download_loop total_bytes (err message ∷ rest) = err message

-- The response's status is not looked at.
unfoldable pub download_chunk : Result (ℕ × List (Result Bytes)) → Result ℕ
unfolding download_loop
download_chunk (err message) = err message
download_chunk (ok (status, body)) = download_loop 0 body

pub record UploadRequest : Type 0 where
  pub chunk_index : ℕ
  pub total_chunks : ℕ
  pub body : Bytes

-- `StatusCode::is_success`.
abbrev pub is_success : ℕ → Bool
is_success status = leb 200 status && ltb status 300

-- `chunk_to_send` for a request.
unfoldable pub chunk_to_send : Bytes → ℕ → Bytes
chunk_to_send chunk_data current_chunk_size =
    if current_chunk_size == length chunk_data
    then chunk_data
    else take current_chunk_size chunk_data

-- `current_chunk_size` in a turn of the loop.
unfoldable pub upload_size : ℕ → ℕ → ℕ → ℕ
upload_size total chunk_size chunk_index =
    let remaining_bytes = sub_u64 total (u64 (chunk_index * chunk_size)) in
    min chunk_size remaining_bytes

-- What a response makes of the rest of the loop.
abbrev pub after_response :
    (ℕ → List ℕ)
    → Result ℕ
    → UploadRequest
    → List UploadRequest × Result ℕ
    → List UploadRequest × Result ℕ
after_response status_message (err message) request rest = (request ∷ [], err message)
after_response status_message (ok status) request (requests, result) =
    if is_success status
    then (request ∷ requests, result)
    else (request ∷ [], err (status_message status))

module _ (answer : ℕ → Result ℕ) (status_message : ℕ → List ℕ) where
  -- The loop from the chunk with the index on, with the requests that were sent. `answer` is the
  -- status of the response to the request of an index.
  unfoldable pub upload_loop : ℕ → Bytes → ℕ → ℕ → ℕ → ℕ → List UploadRequest × Result ℕ
  unfolding chunk_to_send upload_size
  upload_loop total chunk_data num_chunks total_bytes_sent chunk_index zero =
      ([], ok total_bytes_sent)
  upload_loop total chunk_data num_chunks total_bytes_sent chunk_index (suc left) =
      let current_chunk_size = upload_size total (length chunk_data) chunk_index in
      let request : UploadRequest = record {
        chunk_index = chunk_index;
        total_chunks = num_chunks;
        body = chunk_to_send chunk_data current_chunk_size;
      } in
      after_response status_message (answer chunk_index) request (
        upload_loop total chunk_data num_chunks (u64 (total_bytes_sent + current_chunk_size))
          (suc chunk_index) left)

  -- None is the panic of the division by a zero chunk size.
  unfoldable pub upload_chunk : ℕ → Bytes → Option (List UploadRequest × Result ℕ)
  unfolding div_ceil upload_loop
  upload_chunk payload_size chunk_data = do
    num_chunks ← div_ceil payload_size (length chunk_data)
    some (upload_loop payload_size chunk_data num_chunks 0 0 num_chunks)

-- A turn of a task's loop: the time on the clock of its condition, what the transfer gave, and how
-- long it took.
pub record Turn : Type 0 where
  pub elapsed : Duration
  pub outcome : Result ℕ
  pub took : Duration

abbrev pub measurement_of : Turn → ThroughputMeasurement
measurement_of t = elim t.outcome [
  | ok bytes ↦ success bytes t.took
  | err message ↦ failure (unknown message) t.took 0
]

-- The task of `run_download_test`, over the turns that there may be. It ends at the first late one
-- and after an error.
unfoldable pub download_task : Duration → List Turn → List ThroughputMeasurement
download_task duration [] = []
download_task duration (t ∷ ts) =
    let rest = download_task duration ts in
    let rest' : List ThroughputMeasurement = elim t.outcome [
      | ok bytes ↦ rest
      | err message ↦ []
    ] in
    if ltb t.elapsed duration then measurement_of t ∷ rest' else []

-- The task of `run_upload_test` goes on after an error.
unfoldable pub upload_task : Duration → List Turn → List ThroughputMeasurement
upload_task duration [] = []
upload_task duration (t ∷ ts) =
    let rest = upload_task duration ts in
    if ltb t.elapsed duration then measurement_of t ∷ rest else []
