-- ===== src/Udp/Server/Fragments.antt =====
-- What a burst of src/performance/udp/server.rs puts on the wire.
use mathlib.Core.List.{append_assoc, append-nil}
use mathlib.Core.WellFounded.{Acc}
use native.Mathlib.Decide.{dec_lt}
use speed_cli.Base.{
  ℕ, zero, suc, ◌+◌, ◌-◌, ◌≤◌, ◌<◌, ◌≡◌, refl, sym, ap, ◌∙◌, true, some, List, [], ◌∷◌, ◌++◌, arith,
  ◌==◌, length, All, All-append, u64, min, replicate, replicate-add, length-replicate, Bool-cases,
  Dec-cases, inl, inr, leb, if◌then◌else◌, subst,
}
use speed_cli.Base.Order.{lt_wf}
use speed_cli.Udp.Buf.{Bytes}
use speed_cli.Udp.Protocol.{StpPacket, new_packet}
use speed_cli.Udp.Server.{StpClientState, Clients, find, put}
use speed_cli.Udp.Server.Burst.{
  SendTry, Progress, out, max_udp_payload, send_zeros, send_fragments, burst,
}

abbrev pub payload_length : StpPacket → ℕ
payload_length p = length p.payload

-- The bytes that packets carry, one after the other.
abbrev pub payload_bytes : List StpPacket → Bytes
payload_bytes [] = []
payload_bytes (p ∷ ps) = p.payload ++ payload_bytes ps

payload_bytes-append :
    (ps qs : List StpPacket) → payload_bytes (ps ++ qs) ≡ payload_bytes ps ++ payload_bytes qs
payload_bytes-append [] qs = refl
payload_bytes-append (p ∷ ps) qs =
    ap (λ x. p.payload ++ x) (payload_bytes-append ps qs)
    ∙ sym (append_assoc p.payload (payload_bytes ps) (payload_bytes qs))

abbrev Zeros : ℕ → List StpPacket → Type 0
Zeros size ps = payload_bytes ps ≡ replicate size 0

-- The packets fall into `rounds` groups, one after the other, none of them empty, and each group
-- carries just `size` zeros.
abbrev pub Payloads : (rounds size : ℕ) → List StpPacket → Type 0
Payloads zero size ps = ps ≡ []
Payloads (suc rounds) size ps =
    (first : List StpPacket) × (rest : List StpPacket) × (ps ≡ first ++ rest)
    × (0 < length first)
    × (payload_bytes first ≡ replicate size 0)
    × Payloads rounds size rest

Zeros-append :
    (i j k : ℕ) (ps qs : List StpPacket) → i + j ≡ k → Zeros i ps → Zeros j qs → Zeros k (ps ++ qs)
Zeros-append i j k ps qs e h h' =
    payload_bytes-append ps qs
    ∙ (ap (λ x. x ++ payload_bytes qs) h
        ∙ (ap (λ x. replicate i 0 ++ x) h'
            ∙ (replicate-add {A = ℕ} i j 0 ∙ ap (λ n. replicate n 0) {x = i + j} e)))

some_packet : (size : ℕ) (ps : List StpPacket) → 0 < size → Zeros size ps → 0 < length ps
some_packet size [] h e = omega (arith, ap {A = Bytes} length e, length-replicate {A = ℕ} size 0)
some_packet size (p ∷ ps) h e = omega arith

-- The packets bear the numbers after `n` in turn, up to `m`.
abbrev pub Numbered : ℕ → List StpPacket → ℕ → Type 0
Numbered n [] m = m ≡ n
Numbered n (p ∷ ps) m = (p.header.packet_number ≡ u64 (n + 1)) × Numbered (u64 (n + 1)) ps m

Numbered-append :
    (n k m : ℕ) (ps qs : List StpPacket)
    → Numbered n ps k
    → Numbered k qs m
    → Numbered n (ps ++ qs) m
Numbered-append n k m [] qs h j = subst (λ i. Numbered i qs m) h j
Numbered-append n k m (p ∷ ps) qs h j = (h.0, Numbered-append (u64 (n + 1)) k m ps qs h.1 j)

pub find-put :
    (a k : ℕ) (s : StpClientState) (m : Clients)
    → find k (put a s m) ≡ (if a == k then some s else find k m)
unfolding find put
find-put a k s [] = refl
find-put a k s ((j, t) ∷ m) = ground (arith, find-put a k s m)

module _ (sends : ℕ → SendTry) (addr : ℕ) where
  -- `g'` comes from `g`, where the client's entry is `r`, by packets with the property `P`, none
  -- longer than a datagram may be. Only the counter of the entry moves.
  abbrev pub Sends : Progress → StpClientState → (List StpPacket → Type 0) → Progress → Type 0
  Sends g r P g' =
      (ps : List StpPacket) × (s : StpClientState) × (g'.packets ≡ g.packets ++ ps)
      × (find addr g'.clients ≡ some s)
      × (s ≡ record r { local_packet_number = s.local_packet_number })
      × Numbered r.local_packet_number ps s.local_packet_number
      × P ps
      × All (λ p. payload_length p ≤ max_udp_payload) ps

  Sends-nothing :
      (P : List StpPacket → Type 0) (g : Progress) (s : StpClientState)
      → P []
      → find addr g.clients ≡ some s
      → Sends g s P g
  Sends-nothing P g s h e = ([], s, sym (append-nil g.packets), e, refl, refl, h, tt)

  Sends-then :
      (g g1 g2 : Progress) (r : StpClientState) (P Q R : List StpPacket → Type 0)
      → Sends g r P g1
      → ((ps qs : List StpPacket) → P ps → Q qs → R (ps ++ qs))
      → ((s : StpClientState) → find addr g1.clients ≡ some s → Sends g1 s Q g2)
      → Sends g r R g2
  Sends-then g g1 g2 r P Q R (ps, s, e, h, c, m, l, f) total next =
      let (qs, t, e', h', c', m', l', f') = next s h in
      (
        ps ++ qs,
        t,
        e' ∙ (ap (λ x. x ++ qs) e ∙ append_assoc g.packets ps qs),
        h',
        c'
            ∙ ap {A = StpClientState}
                (λ x. record x { local_packet_number = t.local_packet_number }) c,
        Numbered-append r.local_packet_number s.local_packet_number t.local_packet_number ps qs m
            m',
        total ps qs l l',
        All-append (λ p. payload_length p ≤ max_udp_payload) ps qs f f',
      )

  module _ (sent : (i : ℕ) → (sends i).is_sent ≡ true) where
    send_zeros_out :
        (g : Progress) (s : StpClientState) (size : ℕ)
        → find addr g.clients ≡ some s
        → size ≤ max_udp_payload
        → (g' : Progress) × (send_zeros sends addr g size ≡ out g')
          × Sends g s (λ ps. Zeros size ps × (0 < length ps)) g'
    unfolding send_zeros
    send_zeros_out g s size e h =
        let n : ℕ = u64 (s.local_packet_number + 1) in
        let s' : StpClientState = record s { local_packet_number = n } in
        let p : StpPacket = new_packet (sends g.tried).stamp n 0 0 (replicate size 0) in
        let g' : Progress = record {
          clients = put addr s' g.clients;
          tried = suc g.tried;
          packets = g.packets ++ (p ∷ []);
        } in
        (
          g',
          rw (e, sent g.tried, send_zeros),
          (
            p ∷ [],
            s',
            refl,
            ground (arith, find-put addr addr s' g.clients),
            refl,
            (refl, refl),
            (append-nil (replicate size 0), omega arith),
            (omega (arith, length-replicate {A = ℕ} size 0), tt),
          ),
        )

    send_fragments_all :
        (g : Progress) (s : StpClientState) (remaining : ℕ) (w : Acc ◌<◌ remaining)
        → find addr g.clients ≡ some s
        → Sends g s (Zeros remaining) (send_fragments sends addr g remaining w)
    unfolding send_fragments
    send_fragments_all g s remaining (Acc.intro _ smaller) e =
        elim (Dec-cases (dec_lt 0 remaining)) [
          | inl (more, is_more) ↦
              let part : ℕ = min remaining max_udp_payload in
              let (g1, went, first) = send_zeros_out g s part e (omega arith) in
              rw (is_more, went, send_fragments)
                (Sends-then g g1
                  (send_fragments sends addr g1 (remaining - part)
                    (smaller (remaining - part) (omega arith)))
                  s (λ ps. Zeros part ps × (0 < length ps)) (Zeros (remaining - part))
                  (Zeros remaining) first
                  (λ ps qs h h'.
                    Zeros-append part (remaining - part) remaining ps qs (omega arith) h.0 h')
                  λ t h.
                    send_fragments_all g1 t (remaining - part)
                      (smaller (remaining - part) (omega arith)) h)
          | inr (done, is_done) ↦ rw is_done (
              Sends-nothing (Zeros remaining) g s
                (ap (λ n. replicate n 0) {x = 0} {y = remaining} (omega arith)) e)
        ]

    -- If the socket takes every send, a burst for a known client carries `rounds` payloads
    -- of zeros of the requested size, in datagrams of at most 1400 bytes of payload that bear consecutive
    -- packet numbers from the client's counter on, and the counter ends at the last of them.
    pub burst_all :
        (rounds size : ℕ) (g : Progress) (s : StpClientState)
        → find addr g.clients ≡ some s
        → Sends g s (Payloads rounds size) (burst sends addr rounds size g)
    unfolding burst
    burst_all zero size g s e = Sends-nothing (Payloads zero size) g s refl e
    burst_all (suc rounds) size g s e = elim (Bool-cases (leb size max_udp_payload)) [
      | inl single ↦
          let (g1, went, first) = send_zeros_out g s size e (ground arith) in
          rw (single, went, burst)
            (Sends-then g g1 (burst sends addr rounds size g1) s
              (λ ps. Zeros size ps × (0 < length ps)) (Payloads rounds size)
              (Payloads (suc rounds) size) first (λ ps qs h h'. (ps, qs, refl, h.1, h.0, h'))
              λ t h. burst_all rounds size g1 t h)
      | inr large ↦
          let g1 : Progress = send_fragments sends addr g size (lt_wf.apply size) in
          rw (large, burst)
            (Sends-then g g1 (burst sends addr rounds size g1) s (Zeros size) (Payloads rounds size)
              (Payloads (suc rounds) size) (send_fragments_all g s size (lt_wf.apply size) e)
              (λ ps qs h h'. (ps, qs, refl, some_packet size ps (ground (arith, large)) h, h, h'))
              λ t h. burst_all rounds size g1 t h)
    ]
