-- ===== src/Udp/Client/Upload.antt =====
-- The loop of `run_upload_test` of src/performance/udp/client.rs.
pub mod Paced
use speed_cli.Base.{
  ℕ, ◌++◌, List, [], ◌∷◌, Option, none, some, Bool, true, false, ltb, if◌then◌else◌, length,
}
use speed_cli.Base.Time.{Duration, Instant}
use speed_cli.Float.{Float}
use speed_cli.Report.Throughput.{
  ThroughputMeasurement, success, failure, ConnectionError, transfer_failed,
}
use speed_cli.Udp.Buf.{Bytes, ByteBuf}
use speed_cli.Udp.Congestion.{can_send}
use speed_cli.Udp.Client.{
  StpClient, Outcome, SendEnv, AckEnv, send_data, process_ack, bytes_in_flight,
}

-- A turn of the loop: the time on the clock of its condition, how long a send took and what its
-- environment answered, the text of an error, and the datagram that came within 1 ms.
pub record Pass : Type 0 where
  pub elapsed : Duration
  pub took : Duration
  pub env : SendEnv
  pub message : List ℕ
  pub received : Option (Bytes × AckEnv)

pub record Upload (F : Type 0) : Type 0 where
  pub client : StpClient F
  pub measurements : List ThroughputMeasurement

module _ {F : Type 0} (f : Float F) (b : ByteBuf) where
  -- Whether the window lets the loop send.
  unfoldable pub may_send : StpClient F → Bool
  may_send c = can_send f c.congestion_control (bytes_in_flight f b c)

  -- The ACK, whose result is ignored.
  unfoldable pub receive_ack : StpClient F → Option (Bytes × AckEnv) → StpClient F
  receive_ack c none = c
  receive_ack c (some (d, env)) = (process_ack f b c d env).client

  -- The loop, over the turns that there may be: it ends at the first late one and at a failed send.
  unfoldable pub upload_loop : Duration → Bytes → Upload F → List Pass → Upload F
  unfolding receive_ack
  upload_loop duration payload u [] = u
  upload_loop duration payload u (p ∷ ps) = elim (ltb p.elapsed duration) [
    | false ↦ u
    | true ↦ elim (may_send u.client) [
      | false ↦
          upload_loop duration payload (record u { client = receive_ack u.client p.received }) ps
      | true ↦
          let o = send_data f b u.client payload p.env in
          elim o.is_ok [
            | true ↦
                upload_loop duration payload
                  (record {
                    client = receive_ack o.client p.received;
                    measurements = u.measurements ++ (success (length payload) p.took ∷ []);
                  })
                  ps
            | false ↦ record {
              client = o.client;
              measurements = u.measurements ++ (failure (transfer_failed p.message) p.took 0 ∷ []);
            }
          ]
    ]
  ]
