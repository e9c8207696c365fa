-- ===== src/Udp/Protocol/Wire.antt =====
-- What `encode` and `decode` of src/performance/udp/protocol.rs promise of each other.
use mathlib.Core.List.{append_assoc, append-nil}
use speed_cli.Base.{
  ℕ, zero, suc, ◌+◌, ◌≤◌, ◌<◌, ◌≡◌, refl, ap, ◌∙◌, ◌⊎◌, none, some, [], ◌∷◌, ◌++◌, arith, length,
  take, drop, All, IsU64, IsByte, length-append, take-append, drop-append, take-append-drop,
  length-take, length-drop, Bool-cases, ltb, inl, inr,
}
use speed_cli.Udp.Buf.{Bytes, ByteBuf, IsFixedWidth}
use speed_cli.Udp.Protocol.{
  StpHeader, StpPacket, new_header, encode_header, decode_header, encode, decode,
}

-- The fields are u64s.
pub record IsHeader (h : StpHeader) : Type 0 where
  pub packet_number_fits : IsU64 h.packet_number
  pub timestamp_fits : IsU64 h.timestamp
  pub latest_ack_fits : IsU64 h.latest_ack
  pub echo_fits : IsU64 h.ack_timestamp_echo

module _ (b : ByteBuf) (w : IsFixedWidth b) where
  pub length-encode_header :
      (h : StpHeader) (buf : Bytes) → length (encode_header b h buf) ≡ length buf + 32
  unfolding encode_header
  length-encode_header h buf = simp (length-append, w.put_u64_length) (omega arith)

  pub length-encode : (p : StpPacket) → length (encode b p) ≡ 32 + length p.payload
  unfolding encode
  length-encode p = omega (
    arith,
    length-append (encode_header b p.header []) p.payload,
    length-encode_header p.header [],
  )

  length-eq_zero : (s : Bytes) → length s ≡ 0 → s ≡ []
  length-eq_zero [] h = refl
  length-eq_zero (x ∷ s) h = absurd (omega arith)

  encode_header-flat :
      (h : StpHeader)
      → encode_header b h []
        ≡ b.put_u64 h.packet_number
          ++ (b.put_u64 h.timestamp
              ++ (b.put_u64 h.latest_ack ++ (b.put_u64 h.ack_timestamp_echo ++ [])))
  unfolding encode_header
  encode_header-flat h = simp (append_assoc, append-nil)

  decode_header-encode_header :
      (h : StpHeader) → IsHeader h → decode_header b (encode_header b h []) ≡ some h
  unfolding decode_header
  decode_header-encode_header h v = elim (Bool-cases (ltb (length (encode_header b h [])) 32)) [
    | inl short ↦ absurd (ground (arith, length-encode_header h []))
    | inr enough ↦ rw enough (
        rw encode_header-flat (
          simp (
            w.get_u64-put_u64 _ _ v.packet_number_fits,
            w.get_u64-put_u64 _ _ v.timestamp_fits,
            w.get_u64-put_u64 _ _ v.latest_ack_fits,
            w.get_u64-put_u64 _ _ v.echo_fits,
          )))
  ]

  IsByte-split : (n : ℕ) (s : Bytes) → All IsByte s → All IsByte (take n s) × All IsByte (drop n s)
  IsByte-split zero s h = (tt, h)
  IsByte-split (suc n) [] h = (tt, tt)
  IsByte-split (suc n) (x ∷ s) h = let (l, r) = IsByte-split n s h.1 in ((h.0, l), r)

  -- A number at the front of a long enough buffer, and what follows it.
  read_lem :
      (s : Bytes) (k : ℕ)
      → length s ≡ 8 + k
      → All IsByte s
      → (n : ℕ) × (r : Bytes) × (b.get_u64 s ≡ (n, r))
        × IsU64 n
        × (b.put_u64 n ++ r ≡ s)
        × (length r ≡ k)
        × All IsByte r
  read_lem s k l h =
      let (n, e, u, p) =
        w.put_u64-get_u64 (take 8 s) (drop 8 s) (omega (arith, length-take 8 s))
          (IsByte-split 8 s h).0 in
      (
        n,
        drop 8 s,
        rw (take-append-drop 8 s) at e,
        u,
        rw p (take-append-drop 8 s),
        omega (arith, length-drop 8 s),
        (IsByte-split 8 s h).1,
      )

  -- Four reads in a row are a header.
  decode_header_reads :
      (s s1 s2 s3 : Bytes) (h : StpHeader)
      → length s ≡ 32
      → b.get_u64 s ≡ (h.packet_number, s1)
      → b.get_u64 s1 ≡ (h.timestamp, s2)
      → b.get_u64 s2 ≡ (h.latest_ack, s3)
      → b.get_u64 s3 ≡ (h.ack_timestamp_echo, [])
      → decode_header b s ≡ some h
  unfolding decode_header
  decode_header_reads s s1 s2 s3 h l e1 e2 e3 e4 = rw (l, e1, e2, e3, e4)

  encode_header_puts :
      (s s1 s2 s3 : Bytes) (h : StpHeader)
      → b.put_u64 h.packet_number ++ s1 ≡ s
      → b.put_u64 h.timestamp ++ s2 ≡ s1
      → b.put_u64 h.latest_ack ++ s3 ≡ s2
      → b.put_u64 h.ack_timestamp_echo ++ [] ≡ s3
      → encode_header b h [] ≡ s
  encode_header_puts s s1 s2 s3 h e1 e2 e3 e4 = rw (encode_header-flat h, e4, e3, e2, e1)

  decode_header_total :
      (s : Bytes)
      → length s ≡ 32
      → All IsByte s
      → (h : StpHeader) × (decode_header b s ≡ some h) × IsHeader h × (encode_header b h [] ≡ s)
  decode_header_total s l k =
      let (p, s1, ep, up, qp, l1, k1) = read_lem s 24 l k in
      let (t, s2, et, ut, qt, l2, k2) = read_lem s1 16 l1 k1 in
      let (a, s3, ea, ua, qa, l3, k3) = read_lem s2 8 l2 k2 in
      let (e, s4, ee, ue, qe, l4, k4) = read_lem s3 0 l3 k3 in
      let nil : s4 ≡ [] = length-eq_zero s4 l4 in
      let h : StpHeader = new_header t p a e in
      (
        h,
        decode_header_reads s s1 s2 s3 h l ep et ea (cc),
        record {
          packet_number_fits = up;
          timestamp_fits = ut;
          latest_ack_fits = ua;
          echo_fits = ue;
        },
        encode_header_puts s s1 s2 s3 h qp qt qa (cc),
      )

  -- A packet whose header fields are u64s is read back from its encoding.
  pub decode-encode : (p : StpPacket) → IsHeader p.header → decode b (encode b p) ≡ some p
  unfolding decode encode
  decode-encode p v = ground (
    arith,
    length-append (encode_header b p.header []) p.payload,
    length-encode_header p.header [],
    header_part,
    payload_part,
    decode_header-encode_header p.header v,
  )
    where
      header_part : take 32 (encode_header b p.header [] ++ p.payload) ≡ encode_header b p.header []
      header_part =
          rw (length-encode_header p.header []) at
            (take-append (encode_header b p.header []) p.payload)

      payload_part : drop 32 (encode_header b p.header [] ++ p.payload) ≡ p.payload
      payload_part =
          rw (length-encode_header p.header []) at
            (drop-append (encode_header b p.header []) p.payload)

  whole_packet :
      (d : Bytes) (h : StpHeader)
      → 32 ≤ length d
      → decode_header b (take 32 d) ≡ some h
      → encode_header b h [] ≡ take 32 d
      → let p : StpPacket = record { header = h; payload = drop 32 d } in
        (decode b d ≡ some p) × (encode b p ≡ d)
  unfolding decode encode
  whole_packet d h l e q = (ground arith, ap (λ t. t ++ drop 32 d) q ∙ take-append-drop 32 d)

  -- A datagram of bytes is refused exactly when it is shorter than the header. Any other is the
  -- encoding of the one packet that is read, whose header fields are u64s.
  pub decode_cases :
      (d : Bytes)
      → All IsByte d
      → (length d < 32) × (decode b d ≡ none)
        ⊎ (32 ≤ length d)
          × ((p : StpPacket) × (decode b d ≡ some p) × (encode b p ≡ d) × IsHeader p.header)
  unfolding decode encode
  decode_cases d k = elim (Bool-cases (ltb (length d) 32)) [
    | inl short ↦ inl (ground arith, rw short)
    | inr enough ↦
        let l : 32 ≤ length d = ground arith in
        let (h, e, v, q) =
          decode_header_total (take 32 d) (omega (arith, length-take 32 d))
            (IsByte-split 32 d k).0 in
        let (found, back) = whole_packet d h l e q in
        inr (l, (record { header = h; payload = drop 32 d }, found, back, v))
  ]
