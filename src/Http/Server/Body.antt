-- ===== src/Http/Server/Body.antt =====
-- The body that `download_handler` of src/performance/http/server.rs streams.
use speed_cli.Base.{
  ℕ, zero, suc, ◌+◌, ◌-◌, ◌*◌, ◌≡◌, ◌≤◌, ◌<◌, refl, ap, ◌∙◌, some, List, [], ◌∷◌, ◌++◌, arith, ltb,
  leb, inl, inr, length, take, replicate, concat, min, u64, IsU64, All, Bool-cases, ltb→le, leb→le,
  replicate-add, map, sum_of, length-replicate,
}
use speed_cli.Base.Chunks.{IsCover, div_ceil-IsCover, start_below, pieces, sum_pieces}
use speed_cli.Base.Decimal.{print_usize}
use speed_cli.Http.Server.{
  Bytes, DownloadQuery, zero_chunk, Response, repeat_buffer, download_item, download_stream,
  download_handler,
}

abbrev pub zeros : ℕ → Bytes
zeros n = replicate n 0

take-replicate : (k n : ℕ) → k ≤ n → take k (zeros n) ≡ zeros k
take-replicate zero n h = refl
take-replicate (suc k) zero h = ground arith
take-replicate (suc k) (suc n) h = ap (◌∷◌ 0) (take-replicate k n (omega arith))

length-zeros : (n : ℕ) → length (zeros n) ≡ n
length-zeros n = length-replicate {A = ℕ} n 0

-- One turn of the loop.
copied :
    (written missing n : ℕ)
    → zeros written ++ take (min missing (length (zeros n))) (zeros n)
      ≡ zeros (written + min missing n)
copied written missing n =
    rw (length-zeros n, take-replicate (min missing n) n (omega arith))
      (replicate-add written (min missing n) 0)

full : (current written : ℕ) → written ≡ current → some (zeros written) ≡ some (zeros current)
full current written e = ap (λ k. some (zeros k)) e

-- The loop that copies the buffer of zero bytes ends within as many turns as bytes are missing,
-- with a chunk of the wanted size, for every buffer that is not empty.
pub repeat_buffer_ends :
    (fuel n current written : ℕ)
    → 0 < n
    → written ≤ current
    → current - written ≤ fuel
    → repeat_buffer fuel (zeros n) current (zeros written) written ≡ some (zeros current)
unfolding repeat_buffer
repeat_buffer_ends zero n current written pos low enough = elim (Bool-cases (ltb written current)) [
  | inl more ↦ ground arith
  | inr done ↦ rw done (full current written (omega (arith, ltb→le written current done)))
]
repeat_buffer_ends (suc fuel) n current written pos low enough =
    elim (Bool-cases (ltb written current)) [
      | inl more ↦
          rw (more, copied written (current - written) n, length-zeros n)
            (repeat_buffer_ends fuel n current (written + min (current - written) n) pos
              (omega arith) (omega arith))
      | inr done ↦ rw done (full current written (omega (arith, ltb→le written current done)))
    ]

chunk_lem : (n k : ℕ) → 0 < n → zero_chunk (zeros n) k ≡ some (zeros k)
unfolding zero_chunk
chunk_lem n k pos = elim (Bool-cases (leb k n)) [
  | inl fits ↦ rw (length-zeros n, fits) (ap some (take-replicate k n (leb→le k n fits)))
  | inr big ↦ rw (length-zeros n, big) (repeat_buffer_ends k n k 0 pos (omega arith) (omega arith))
]

-- The i-th chunk, where its place in the total is a u64.
item_lem :
    (n total size i : ℕ)
    → 0 < n
    → IsU64 (i * size)
    → download_item (zeros n) total size i ≡ some (zeros (min size (total - i * size)))
unfolding download_item
item_lem n total size i pos h =
    ap (λ sent. zero_chunk (zeros n) (min size (total - sent))) {x = u64 (i * size)} {y = i * size}
      (omega arith)
    ∙ chunk_lem n (min size (total - i * size)) pos

stream_lem :
    (n total size i k : ℕ) {m : ℕ}
    → 0 < n
    → IsU64 total
    → IsCover total size m
    → i + k ≡ m
    → download_stream (zeros n) total size i k ≡ some (map zeros (pieces total size i k))
unfolding download_stream pieces
stream_lem n total size i zero pos u c e = refl
stream_lem n total size i (suc k) {m = m} pos u c e =
    let below : i * size < total = start_below c (omega arith) in
    rw
      (
        item_lem n total size i pos (omega arith),
        stream_lem n total size (suc i) k {m = m} pos u c (omega arith),
      )
      refl

-- The lengths of pieces of a cover.
pieces_bounds :
    (total size i k : ℕ) {m : ℕ}
    → 0 < size
    → IsCover total size m
    → i + k ≡ m
    → All (λ l. (0 < l) × (l ≤ size)) (pieces total size i k)
unfolding pieces
pieces_bounds total size i zero pos c e = tt
pieces_bounds total size i (suc k) {m = m} pos c e =
    let below : i * size < total = start_below c (omega arith) in
    ((omega arith, omega arith), pieces_bounds total size (suc i) k {m = m} pos c (omega arith))

concat-zeros : (ls : List ℕ) → concat (map zeros ls) ≡ zeros (sum_of (λ l. l) ls)
concat-zeros [] = refl
concat-zeros (l ∷ ls) =
    ap (◌++◌ (zeros l)) (concat-zeros ls) ∙ replicate-add l (sum_of (λ k. k) ls) 0

All-zeros :
    (size : ℕ) (ls : List ℕ)
    → All (λ l. (0 < l) × (l ≤ size)) ls
    → All (λ chunk. (0 < length chunk) × (length chunk ≤ size)) (map zeros ls)
All-zeros size [] h = tt
All-zeros size (l ∷ ls) h = (rw (length-zeros l) h.0, All-zeros size ls h.1)

-- A download of a size that is a u64, with chunks of a positive size, is answered with status 200,
-- the size as its Content-Length, and a body that is exactly so many zero bytes, in chunks none of
-- which is empty or larger than the chunk size. The buffer has any length but 0.
pub download_handler_lem :
    (n : ℕ) (q : DownloadQuery)
    → 0 < n
    → IsU64 q.size
    → 0 < q.chunk_size
    → (r : Response) × (download_handler (zeros n) q ≡ some r)
      × (r.status ≡ 200)
      × (r.content_length ≡ some (print_usize q.size))
      × (concat r.body ≡ zeros q.size)
      × All (λ chunk. (0 < length chunk) × (length chunk ≤ q.chunk_size)) r.body
unfolding download_handler
download_handler_lem n q pos u some_size =
    let (k, e, c) = div_ceil-IsCover q.size q.chunk_size some_size in
    let lengths : List ℕ = pieces q.size q.chunk_size 0 k in
    (
      record { status = 200; content_length = some (print_usize q.size); body = map zeros lengths },
      rw (e, stream_lem n q.size q.chunk_size 0 k {m = k} pos u c (omega arith)) refl,
      refl,
      refl,
      concat-zeros lengths ∙ ap zeros (sum_pieces c),
      All-zeros q.chunk_size lengths
          (pieces_bounds q.size q.chunk_size 0 k {m = k} some_size c (omega arith)),
    )
