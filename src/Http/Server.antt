-- ===== src/Http/Server.antt =====
-- src/performance/http/server.rs: the handlers of the endpoints. The routing, the CORS layer and
-- the sockets are the library's; of a response there are the status, the Content-Length and the
-- body. The body of a request is the chunks that its stream gives, each of which may be an error.
-- The static buffer of 1 GiB of zero bytes is an argument.
pub mod Body
use speed_cli.Base.{
  ℕ, zero, suc, ◌+◌, ◌-◌, ◌*◌, Bool, true, false, Option, none, some, List, [], ◌∷◌, ◌++◌,
  if◌then◌else◌, leb, ltb, length, take, replicate, min, u64,
}
use speed_cli.Base.Chunks.{div_ceil}
use speed_cli.Base.Decimal.{print_usize}
use speed_cli.Base.Options.{◌>>=◌}
use speed_cli.Base.Outcome.{Result, ok, err}

abbrev pub Bytes : Type 0
Bytes = List ℕ

abbrev pub default_chunk_size : ℕ
default_chunk_size = 1_048_576

pub record DownloadQuery : Type 0 where
  pub size : ℕ
  pub chunk_size : ℕ

-- The query as it is deserialised, with the default of a missing `chunk_size`.
unfoldable pub query_of : ℕ → Option ℕ → DownloadQuery
query_of size none = record { size = size; chunk_size = default_chunk_size }
query_of size (some c) = record { size = size; chunk_size = c }

pub record Response : Type 0 where
  pub status : ℕ
  pub content_length : Option Bytes
  pub body : List Bytes

-- The `while` loop that copies the buffer. The first number is fuel: none when it is spent.
unfoldable pub repeat_buffer : ℕ → Bytes → ℕ → Bytes → ℕ → Option Bytes
repeat_buffer zero buffer current_chunk_size chunk_data bytes_written =
    if ltb bytes_written current_chunk_size then none else some chunk_data
repeat_buffer (suc fuel) buffer current_chunk_size chunk_data bytes_written =
    let bytes_to_copy = min (current_chunk_size - bytes_written) (length buffer) in
    let rest =
      repeat_buffer fuel buffer current_chunk_size (chunk_data ++ take bytes_to_copy buffer)
        (bytes_written + bytes_to_copy) in
    if ltb bytes_written current_chunk_size then rest else some chunk_data

-- A chunk of the given size, cut from the buffer or made of copies of it.
unfoldable pub zero_chunk : Bytes → ℕ → Option Bytes
unfolding repeat_buffer
zero_chunk buffer current_chunk_size =
    if leb current_chunk_size (length buffer)
    then some (take current_chunk_size buffer)
    else repeat_buffer current_chunk_size buffer current_chunk_size [] 0

-- The i-th chunk of the stream.
unfoldable pub download_item : Bytes → ℕ → ℕ → ℕ → Option Bytes
unfolding zero_chunk
download_item buffer total_size chunk_size i =
    let bytes_sent = u64 (i * chunk_size) in
    let remaining_bytes = total_size - bytes_sent in
    zero_chunk buffer (min chunk_size remaining_bytes)

-- The stream from the i-th chunk on, read to its end.
unfoldable pub download_stream : Bytes → ℕ → ℕ → ℕ → ℕ → Option (List Bytes)
unfolding download_item
download_stream buffer total_size chunk_size i zero = some []
download_stream buffer total_size chunk_size i (suc n) = do
  chunk ← download_item buffer total_size chunk_size i
  rest ← download_stream buffer total_size chunk_size (suc i) n
  some (chunk ∷ rest)

-- None is the panic of the division by a zero chunk size.
unfoldable pub download_handler : Bytes → DownloadQuery → Option Response
unfolding div_ceil download_stream
download_handler buffer query = do
  chunks ← div_ceil query.size query.chunk_size
  body ← download_stream buffer query.size query.chunk_size 0 chunks
  some (record { status = 200; content_length = some (print_usize query.size); body = body })

-- The bytes before the first error of the body.
unfoldable pub upload_total : ℕ → List (Result Bytes) → ℕ
upload_total total_bytes [] = total_bytes
upload_total total_bytes (ok chunk ∷ rest) = upload_total (u64 (total_bytes + length chunk)) rest
upload_total total_bytes (err message ∷ rest) = total_bytes

-- The status and the `bytes_received` of the answer.
unfoldable pub upload_handler : List (Result Bytes) → ℕ × ℕ
unfolding upload_total
upload_handler body = (200, upload_total 0 body)

abbrev pub latency_handler : Response
latency_handler = record { status = 200; content_length = none; body = (b'O' ∷ b'K' ∷ []) ∷ [] }
