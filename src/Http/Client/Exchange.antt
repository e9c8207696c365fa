-- ===== src/Http/Client/Exchange.antt =====
-- A whole transfer between src/performance/http/client.rs and src/performance/http/server.rs. The
-- chunks in which a body arrives need not be those in which it was sent.
use mathlib.Core.Option.{some-injective}
use speed_cli.Base.{
  ℕ, zero, suc, ◌+◌, ◌-◌, ◌*◌, ◌≡◌, ◌≤◌, ◌<◌, ◌⊎◌, refl, ap, ◌∙◌, sym, Bool, true, some, List, [],
  ◌∷◌, arith, inl, inr, false, length, map, sum_of, concat, min, u64, IsU64, Bool-cases,
  length-concat, length-replicate, length-take,
}
use speed_cli.Base.Chunks.{IsCover, div_ceil-IsCover, start_below, suc_mul}
use speed_cli.Base.Outcome.{Result, ok, err}
use speed_cli.Http.Server.{
  Bytes, DownloadQuery, Response, download_handler, upload_total, upload_handler,
}
use speed_cli.Http.Server.Body.{zeros, download_handler_lem}
use speed_cli.Http.Client.{
  download_loop, download_chunk, UploadRequest, is_success, chunk_to_send, upload_size,
  after_response, upload_loop, upload_chunk,
}

download_loop-map :
    (total : ℕ) (frames : List Bytes)
    → IsU64 total
    → download_loop total (map ok frames) ≡ ok (u64 (total + sum_of length frames))
unfolding download_loop
download_loop-map total [] u = ap ok {x = total} (omega arith)
download_loop-map total (frame ∷ frames) u =
    download_loop-map (u64 (total + length frame)) frames (omega arith)
    ∙ ap ok {x = u64 (u64 (total + length frame) + sum_of length frames)} (omega arith)

-- The client counts the size that it asked for when it reads to its end, in whatever chunks, the
-- body that the server answers with to a positive chunk size. The size is a u64.
pub download_chunk-handler :
    (n : ℕ) (q : DownloadQuery) (r : Response) (frames : List Bytes)
    → 0 < n
    → IsU64 q.size
    → 0 < q.chunk_size
    → download_handler (zeros n) q ≡ some r
    → concat frames ≡ concat r.body
    → download_chunk (ok (r.status, map ok frames)) ≡ ok q.size
unfolding download_chunk
download_chunk-handler n q r frames pos u some_size answered same =
    let (r', e, status, header, whole, bounds) = download_handler_lem n q pos u some_size in
    let is_r : r' ≡ r = some-injective r' r (sym e ∙ answered) in
    let size : length (concat frames) ≡ q.size =
      rw (same, sym is_r, whole) (length-replicate {A = ℕ} q.size 0) in
    download_loop-map 0 frames (omega arith)
    ∙ ap ok {x = u64 (0 + sum_of length frames)} (omega (arith, size, length-concat frames))

upload_total-map :
    (total : ℕ) (frames : List Bytes)
    → IsU64 total
    → upload_total total (map ok frames) ≡ u64 (total + sum_of length frames)
unfolding upload_total
upload_total-map total [] u = omega arith
upload_total-map total (frame ∷ frames) u =
    omega (arith, upload_total-map (u64 (total + length frame)) frames (omega arith))

length-chunk_to_send :
    (chunk_data : Bytes) (k : ℕ) → k ≤ length chunk_data → length (chunk_to_send chunk_data k) ≡ k
unfolding chunk_to_send
length-chunk_to_send chunk_data k h = ground (arith, length-take k chunk_data)

-- The response lets the upload go on.
abbrev pub is_accepted : Result ℕ → Bool
is_accepted (ok status) = is_success status
is_accepted (err message) = false

Result-cases :
    (r : Result ℕ) → ((status : ℕ) × (r ≡ ok status)) ⊎ ((message : List ℕ) × (r ≡ err message))
Result-cases (ok status) = inl (status, refl)
Result-cases (err message) = inr (message, refl)

-- The bytes in the bodies of the requests.
abbrev pub sent_bytes : List UploadRequest → ℕ
sent_bytes requests = sum_of (λ r. length r.body) requests

upload_size_lem :
    (total size i : ℕ)
    → IsU64 total
    → i * size < total
    → upload_size total size i ≡ min size (total - i * size)
unfolding upload_size
upload_size_lem total size i u below = omega arith

module _ (answer : ℕ → Result ℕ) (status_message : ℕ → List ℕ) where
  -- The requests bear the indices from `i` on, and the responses to them let the upload go on.
  abbrev pub Accepted : ℕ → List UploadRequest → Type 0
  Accepted i [] = Unit
  Accepted i (r ∷ requests) =
      (r.chunk_index ≡ i) × (is_accepted (answer i) ≡ true) × Accepted (suc i) requests

  -- All requests from an index on were accepted, or one was not and was the last.
  abbrev pub Uploads : ℕ → ℕ → ℕ → ℕ → List UploadRequest × Result ℕ → Type 0
  Uploads i k total left (requests, result) =
      (result ≡ ok total)
        × (sent_bytes requests ≡ left)
        × (length requests ≡ k)
        × Accepted i requests
      ⊎ ((message : List ℕ) × (j : ℕ) × (result ≡ err message)
          × (j < k)
          × (length requests ≡ suc j)
          × (is_accepted (answer (i + j)) ≡ false))

  refused :
      (i k total left : ℕ) (request : UploadRequest) (message : List ℕ)
      → is_accepted (answer i) ≡ false
      → Uploads i (suc k) total left (request ∷ [], err message)
  refused i k total left request message h = inr (
    message,
    0,
    refl,
    omega arith,
    omega arith,
    ap (λ n. is_accepted (answer n)) {x = i + 0} (omega arith) ∙ h,
  )

  accepted_all :
      (i k total left left' : ℕ) (request : UploadRequest) (rest : List UploadRequest × Result ℕ)
      → request.chunk_index ≡ i
      → is_accepted (answer i) ≡ true
      → left ≡ length request.body + left'
      → Uploads (suc i) k total left' rest
      → Uploads i (suc k) total left (request ∷ rest.0, rest.1)
  accepted_all i k total left left' request rest index good low (inl (e, s, l, all)) =
      inl (e, omega (arith, s), omega (arith, l), (index, good, all))
  accepted_all i k total left left' request rest index good low (inr (message, j, e, h, l, bad)) =
      inr (
        message,
        suc j,
        e,
        omega arith,
        omega (arith, l),
        ap (λ n. is_accepted (answer n)) {x = i + suc j} (omega arith) ∙ bad,
      )

  after_response-Uploads :
      (i k total left left' : ℕ) (request : UploadRequest) (rest : List UploadRequest × Result ℕ)
      → request.chunk_index ≡ i
      → left ≡ length request.body + left'
      → Uploads (suc i) k total left' rest
      → Uploads i (suc k) total left (after_response status_message (answer i) request rest)
  after_response-Uploads i k total left left' request rest index e us =
      elim (Result-cases (answer i)) [
        | inr (message, a) ↦ rw a (refused i k total left request message (ap is_accepted a))
        | inl (status, a) ↦ elim (Bool-cases (is_success status)) [
          | inl good ↦
              rw (a, good)
                (accepted_all i k total left left' request rest index (ap is_accepted a ∙ good) e
                  us)
          | inr bad ↦
              rw (a, bad)
                (refused i k total left request (status_message status) (ap is_accepted a ∙ bad))
        ]
      ]

  upload_loop_lem :
      (total : ℕ) (chunk_data : Bytes) (n sent i k : ℕ) {m : ℕ}
      → IsU64 total
      → IsCover total (length chunk_data) m
      → i + k ≡ m
      → sent + (total - i * length chunk_data) ≡ total
      → Uploads i k total
          (total - i * length chunk_data)
          (upload_loop answer status_message total chunk_data n sent i k)
  unfolding upload_loop
  upload_loop_lem total chunk_data n sent i zero {m} u c e s =
      let all : i * length chunk_data ≡ m * length chunk_data =
        ap (λ k. k * length chunk_data) {x = i} {y = m} (omega arith) in
      inl (ap ok {x = sent} (omega (arith, c.covers)), omega (arith, c.covers), refl, tt)
  upload_loop_lem total chunk_data n sent i (suc k) {m} u c e s =
      let size : ℕ = length chunk_data in
      let below : i * size < total = start_below c (omega arith) in
      let current : ℕ = upload_size total size i in
      let is_current : current ≡ min size (total - i * size) =
        upload_size_lem total size i u below in
      let is_sent : u64 (sent + current) ≡ sent + current = omega arith in
      let rest : Uploads (suc i) k total (total - suc i * size)
          (upload_loop answer status_message total chunk_data n (u64 (sent + current)) (suc i) k) =
        upload_loop_lem total chunk_data n (u64 (sent + current)) (suc i) k {m = m} u c
          (omega arith) (omega (arith, suc_mul i size)) in
      after_response-Uploads i k total (total - i * size) (total - suc i * size)
        (record { chunk_index = i; total_chunks = n; body = chunk_to_send chunk_data current }) _
        refl (omega (arith, suc_mul i size, length-chunk_to_send chunk_data current (omega arith)))
        rest

module _ (split : Bytes → List Bytes) (splits : (b : Bytes) → concat (split b) ≡ b) where
  -- The bytes that the server counts in the requests, each of which arrives in some chunks.
  unfoldable pub received_bytes : List UploadRequest → ℕ
  received_bytes requests = sum_of (λ r. (upload_handler (map ok (split r.body))).1) requests

  received_bytes_lem :
      (requests : List UploadRequest)
      → IsU64 (sent_bytes requests)
      → received_bytes requests ≡ sent_bytes requests
  unfolding received_bytes upload_handler
  received_bytes_lem [] u = refl
  received_bytes_lem (r ∷ requests) u = omega (
    arith,
    upload_total-map 0 (split r.body) (omega arith),
    length-concat (split r.body),
    ap length (splits r.body),
    received_bytes_lem requests (omega arith),
  )

  -- An upload of a size that is a u64, in chunks that are not empty, either reports that size, and
  -- then each request in turn was answered with a status of success, and the server counted just as
  -- many bytes; or it ends with an error after a request that was not answered so, which was its
  -- last. A body may arrive in any chunks.
  pub upload_chunk-handler :
      (answer : ℕ → Result ℕ) (status_message : ℕ → List ℕ) (payload_size : ℕ) (chunk_data : Bytes)
      → IsU64 payload_size
      → 0 < length chunk_data
      → (requests : List UploadRequest) × (result : Result ℕ) × (upload_chunk answer status_message
            payload_size chunk_data
          ≡ some (requests, result))
        × ((result ≡ ok payload_size)
              × Accepted answer status_message 0 requests
              × (received_bytes requests ≡ payload_size)
            ⊎ ((message : List ℕ) × (j : ℕ) × (result ≡ err message)
                × (length requests ≡ suc j)
                × (is_accepted (answer j) ≡ false)))
  unfolding upload_chunk
  upload_chunk-handler answer status_message total chunk_data u some_size =
      let (n, e, c) = div_ceil-IsCover total (length chunk_data) some_size in
      let all = upload_loop answer status_message total chunk_data n 0 0 n in
      (
        all.0,
        all.1,
        rw e refl,
        elim (upload_loop_lem answer status_message total chunk_data n 0 0 n {m = n} u c
            (omega arith) (omega arith)) [
              | inl (done, sent, l, all_good) ↦ inl (
                done,
                all_good,
                omega (arith, sent, received_bytes_lem all.0 (omega (arith, sent))),
              )
              | inr (message, j, failed, h, l, bad) ↦ inr (
                message,
                j,
                failed,
                l,
                ap (λ n. is_accepted (answer n)) {x = j} (omega arith) ∙ bad,
              )
            ],
      )
