-- ===== src/Udp/Client/Upload/Paced.antt =====
-- The upload loop of src/performance/udp/client.rs as calls of the client.
use speed_cli.Base.{
  ℕ, suc, ◌+◌, ◌*◌, ◌<◌, ◌≡◌, inl, inr, List, [], ◌∷◌, ◌++◌, Option, none, some, true, false, arith,
  ltb, length, sum_of, sum_of-append, Bool-cases,
}
use speed_cli.Base.Time.{Duration}
use speed_cli.Float.{Float}
use speed_cli.Report.Throughput.{success, failure, transfer_failed, bytes_of}
use speed_cli.Udp.Buf.{Bytes, ByteBuf}
use speed_cli.Udp.Client.{StpClient, Outcome, SendEnv, AckEnv, send_data, bytes_in_flight}
use speed_cli.Udp.Congestion.{can_send}
use speed_cli.Udp.Client.Balance.{send, ack, call}
use speed_cli.Udp.Client.Upload.{Pass, Upload, may_send, receive_ack, upload_loop}

module _ {F : Type 0} (f : Float F) (b : ByteBuf) (duration : Duration) (payload : Bytes) where
  -- The loop's client comes from `c` by calls; each send of the payload found the window open, and
  -- `sent` of them were taken by the socket.
  pub data Paced : StpClient F → ℕ → StpClient F → Type 0 where
    rest : (c : StpClient F) → Paced c 0 c
    receives :
        (c c' : StpClient F) (n : ℕ) (d : Bytes) (env : AckEnv)
        → Paced (call f b c (ack d env)).client n c'
        → Paced c n c'
    sends :
        (c c' : StpClient F) (n : ℕ) (env : SendEnv)
        → bytes_in_flight f b c < c.congestion_control.cwnd
        → (call f b c (send payload env)).is_ok ≡ true
        → Paced (call f b c (send payload env)).client n c'
        → Paced c (suc n) c'
    fails :
        (c : StpClient F) (env : SendEnv)
        → bytes_in_flight f b c < c.congestion_control.cwnd
        → (call f b c (send payload env)).is_ok ≡ false
        → Paced c 0 (call f b c (send payload env)).client

  Paced-receive :
      (c c' : StpClient F) (n : ℕ) (o : Option (Bytes × AckEnv))
      → Paced (receive_ack f b c o) n c'
      → Paced c n c'
  unfolding receive_ack call
  Paced-receive c c' n none h = h
  Paced-receive c c' n (some (d, env)) h = receives c c' n d env h

  open_window :
      (c : StpClient F) → may_send f b c ≡ true → bytes_in_flight f b c < c.congestion_control.cwnd
  unfolding may_send can_send
  open_window c h = ground arith

  -- The upload loop sends the payload only while the difference of its counters is below the
  -- congestion window, and the bytes that its measurements report are those of the payloads that
  -- the socket took: a payload's length for each.
  pub upload_loop-Paced :
      (u : Upload F) (ps : List Pass)
      → let u' = upload_loop f b duration payload u ps in
        (n : ℕ) × Paced u.client n u'.client
        × (sum_of bytes_of u'.measurements ≡ sum_of bytes_of u.measurements + n * length payload)
  unfolding upload_loop call
  upload_loop-Paced u [] = (0, rest u.client, omega arith)
  upload_loop-Paced u (p ∷ ps) = elim (Bool-cases (ltb p.elapsed duration)) [
    | inr late ↦ rw (late, upload_loop) (0, rest u.client, omega arith)
    | inl early ↦ elim (Bool-cases (may_send f b u.client)) [
      | inr closed ↦
          let u1 : Upload F = record u { client = receive_ack f b u.client p.received } in
          let u' : Upload F = upload_loop f b duration payload u1 ps in
          let (n, h, e) = upload_loop-Paced u1 ps in
          rw (early, closed, upload_loop) (n, Paced-receive u.client u'.client n p.received h, e)
      | inl window ↦
          let o : Outcome F = send_data f b u.client payload p.env in
          elim (Bool-cases o.is_ok) [
            | inr refused ↦
                rw (early, window, refused, upload_loop)
                  (
                    0,
                    fails u.client p.env (open_window u.client window) refused,
                    omega (
                      arith,
                      sum_of-append bytes_of u.measurements
                          (failure (transfer_failed p.message) p.took 0 ∷ []),
                    ),
                  )
            | inl sent ↦
                let u1 : Upload F = record {
                  client = receive_ack f b o.client p.received;
                  measurements = u.measurements ++ (success (length payload) p.took ∷ []);
                } in
                let u' : Upload F = upload_loop f b duration payload u1 ps in
                let (n, h, e) = upload_loop-Paced u1 ps in
                rw (early, window, sent, upload_loop)
                  (
                    suc n,
                    sends u.client u'.client n p.env (open_window u.client window) sent
                        (Paced-receive o.client u'.client n p.received h),
                    omega (
                      arith,
                      e,
                      sum_of-append bytes_of u.measurements (success (length payload) p.took ∷ []),
                    ),
                  )
          ]
    ]
  ]
