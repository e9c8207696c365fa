-- ===== src/Udp/Protocol/Loss.antt =====
-- The loss recovery of src/performance/udp/protocol.rs: what an acknowledgment takes out of the
-- queue, and the histories in which the peer acknowledges only what was sent.
use mathlib.Core.List.{Perm, perm_middle}
use mathlib.Core.List.Perm
use speed_cli.Base.{
  ℕ, ◌+◌, ◌≤◌, ◌<◌, ◌≡◌, refl, inl, inr, true, false, List, [], ◌∷◌, ◌++◌, arith, max, leb, All,
  All-append, All-map, All-zip, Bool-cases, sum_of,
}
use speed_cli.Udp.Protocol.{
  InFlightPacket, LossRecovery, Retained, new_loss_recovery, on_packet_sent, timed_out, is_lost,
  retain, on_ack_received,
}

abbrev pub SortedOut : LossRecovery → ℕ → ℕ → Retained → Type 0
SortedOut l now a r =
    All (λ p. p.packet_number ≤ a) r.acked
    × All (λ p. (a < p.packet_number) × (is_lost l now p ≡ true)) r.lost
    × All (λ p. (a < p.packet_number) × (is_lost l now p ≡ false)) r.kept

retain-SortedOut :
    (l : LossRecovery) (now a : ℕ) (ps : List InFlightPacket)
    → SortedOut l now a (retain l now a ps)
unfolding retain
retain-SortedOut l now a [] = (tt, tt, tt)
retain-SortedOut l now a (p ∷ ps) = ground (arith, retain-SortedOut l now a ps)

retain-perm :
    (l : LossRecovery) (now a : ℕ) (ps : List InFlightPacket)
    → let r = retain l now a ps in Perm ps (r.acked ++ (r.lost ++ r.kept))
unfolding retain
retain-perm l now a [] = Perm.refl []
retain-perm l now a (p ∷ ps) =
    let r = retain l now a ps in
    elim (Bool-cases (leb p.packet_number a)) [
      | inl old ↦ rw old (Perm.cons p (retain-perm l now a ps))
      | inr fresh ↦ elim (Bool-cases (is_lost l now p)) [
        | inl gone ↦
            rw (fresh, gone)
              (Perm.trans (Perm.cons p (retain-perm l now a ps))
                (Perm.symm (perm_middle r.acked _)))
        | inr here ↦
            rw (fresh, here)
              (Perm.trans (Perm.cons p (retain-perm l now a ps)) (
                Perm.symm (
                  Perm.trans (Perm.append_left r.acked (perm_middle r.lost r.kept))
                    (perm_middle r.acked (r.lost ++ r.kept)))))
      ]
    ]

pub retain-sum :
    (f : InFlightPacket → ℕ) (l : LossRecovery) (now a : ℕ) (ps : List InFlightPacket)
    → let r = retain l now a ps in
      sum_of f ps ≡ sum_of f r.acked + sum_of f r.lost + sum_of f r.kept
unfolding retain
retain-sum f l now a [] = omega arith
retain-sum f l now a (p ∷ ps) = ground (arith, retain-sum f l now a ps)

pub retain-All {κ} :
    (P : InFlightPacket → Type κ) (l : LossRecovery) (now a : ℕ) (ps : List InFlightPacket)
    → All P ps
    → let r = retain l now a ps in All P r.acked × All P r.lost × All P r.kept
unfolding retain
retain-All P l now a [] h = (tt, tt, tt)
retain-All P l now a (p ∷ ps) h = ground (arith, retain-All P l now a ps h.1)

-- An acknowledgment splits the queue in three and loses or doubles no packet. Acknowledged are
-- exactly the packets numbered up to `a`; of the others those are lost that the new state's
-- threshold or timeout condemns, and the rest stays in flight.
pub on_ack_received_partition :
    (l : LossRecovery) (now a : ℕ)
    → let (l', acked, lost) = on_ack_received l now a in
      Perm l.in_flight (acked ++ (lost ++ l'.in_flight))
      × All (λ p. p.packet_number ≤ a) acked
      × All (λ p. (a < p.packet_number) × (is_lost l' now p ≡ true)) lost
      × All (λ p. (a < p.packet_number) × (is_lost l' now p ≡ false)) l'.in_flight
      × (l'.largest_acked ≡ max l.largest_acked a)
unfolding on_ack_received is_lost
on_ack_received_partition l now a =
    let l' : LossRecovery = record l { largest_acked = max l.largest_acked a } in
    let (old, gone, here) = retain-SortedOut l' now a l.in_flight in
    (retain-perm l' now a l.in_flight, old, gone, here, refl)

-- The recovery state of a sender, with the last packet number that it put in flight.
pub record Link : Type 0 where
  pub recovery : LossRecovery
  pub last_sent : ℕ

-- Numbers grow from packet to packet, and the peer acknowledges numbers that were sent.
pub data Step : Link → Link → Type 0 where
  send :
      (k : Link) (p : InFlightPacket)
      → k.last_sent < p.packet_number
      → Step k (record { recovery = on_packet_sent k.recovery p; last_sent = p.packet_number })
  receive :
      (k : Link) (now a : ℕ)
      → a ≤ k.last_sent
      → Step k (record k { recovery = (on_ack_received k.recovery now a).0 })

pub data Reach : Link → Type 0 where
  start : Reach (record { recovery = new_loss_recovery; last_sent = 0 })
  next : {k m : Link} → Reach k → Step k m → Reach m

-- Every packet in flight is above the largest acknowledged number.
pub record IsAhead (k : Link) : Type 0 where
  pub ahead :
      All
        (λ p. (k.recovery.largest_acked < p.packet_number) × (p.packet_number ≤ k.last_sent))
        k.recovery.in_flight
  pub acked_sent : k.recovery.largest_acked ≤ k.last_sent
  pub threshold : k.recovery.loss_threshold ≡ 3

abbrev Ahead : ℕ → ℕ → InFlightPacket → Type 0
Ahead largest last p = (largest < p.packet_number) × (p.packet_number ≤ last)

Step-IsAhead : {k m : Link} → Step k m → IsAhead k → IsAhead m
unfolding on_packet_sent on_ack_received
Step-IsAhead (send k p h) v = record {
  ahead =
      All-append (Ahead k.recovery.largest_acked p.packet_number) k.recovery.in_flight (p ∷ [])
        (All-map (Ahead k.recovery.largest_acked k.last_sent)
          (Ahead k.recovery.largest_acked p.packet_number) (λ q b. omega arith) k.recovery.in_flight
          v.ahead)
        (omega arith);
  acked_sent = omega arith;
  threshold = v.threshold;
}
Step-IsAhead (receive k now a h) v =
    let l' : LossRecovery = record k.recovery { largest_acked = max k.recovery.largest_acked a } in
    record {
      ahead =
          All-zip (Ahead k.recovery.largest_acked k.last_sent)
            (λ p. (a < p.packet_number) × (is_lost l' now p ≡ false))
            (Ahead (max k.recovery.largest_acked a) k.last_sent) (λ q b c. omega arith) _
            (retain-All (Ahead k.recovery.largest_acked k.last_sent) l' now a k.recovery.in_flight
              v.ahead).2
            (retain-SortedOut l' now a k.recovery.in_flight).2;
      acked_sent = omega arith;
      threshold = v.threshold;
    }

pub Reach-IsAhead : {k : Link} → Reach k → IsAhead k
Reach-IsAhead start = record { ahead = tt; acked_sent = omega arith; threshold = refl }
Reach-IsAhead (next r s) = Step-IsAhead s (Reach-IsAhead r)

only_timeout :
    (l : LossRecovery) (now : ℕ) (p : InFlightPacket)
    → l.loss_threshold ≡ 3
    → l.largest_acked < p.packet_number
    → is_lost l now p ≡ true
    → timed_out now l.loss_timeout p ≡ true
unfolding is_lost
only_timeout l now p t h e = ground arith

-- While numbers grow from packet to packet and the peer acknowledges only numbers that were sent,
-- an acknowledgment declares a packet lost by the timeout alone: the reordering threshold never
-- decides, since a packet below the acknowledged number counts as acknowledged.
pub lost_timed_out :
    {k : Link} (now a : ℕ)
    → Reach k
    → a ≤ k.last_sent
    → All (λ p. timed_out now k.recovery.loss_timeout p ≡ true) (on_ack_received k.recovery now a).2
unfolding on_ack_received
lost_timed_out {k} now a r h =
    let v : IsAhead k = Reach-IsAhead r in
    let l' : LossRecovery = record k.recovery { largest_acked = max k.recovery.largest_acked a } in
    All-zip (Ahead k.recovery.largest_acked k.last_sent)
      (λ p. (a < p.packet_number) × (is_lost l' now p ≡ true))
      (λ p. timed_out now k.recovery.loss_timeout p ≡ true)
      (λ p b c. only_timeout l' now p v.threshold (omega arith) c.1) _
      (retain-All (Ahead k.recovery.largest_acked k.last_sent) l' now a k.recovery.in_flight
        v.ahead).1
      (retain-SortedOut l' now a k.recovery.in_flight).1
