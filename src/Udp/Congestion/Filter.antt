-- ===== src/Udp/Congestion/Filter.antt =====
-- The bandwidth filter of src/performance/udp/congestion.rs: a sliding window and its maximum.
use speed_cli.Base.{
  ◌+◌, ◌≤◌, ◌≡◌, refl, ◌∙◌, ◌⊎◌, inl, inr, true, false, List, [], ◌∷◌, ◌++◌, arith, ltb, All,
  All-append, All-map, Bool-cases, if◌then◌else◌,
}
use speed_cli.Base.Time.{Duration, Instant}
use speed_cli.Float.{Float, IsOrdered}
use speed_cli.Udp.Congestion.{BandwidthSample, BandwidthFilter, pop_old, fold_max, update_filter}

module _ {F : Type 0} where
  -- The samples stand in the order of their times.
  abbrev pub InOrder : List (BandwidthSample F) → Type 0
  InOrder [] = Unit
  InOrder (s ∷ ss) = All (λ t. s.time ≤ t.time) ss × InOrder ss

  abbrev pub Until : Instant → BandwidthSample F → Type 0
  Until now s = s.time ≤ now

  abbrev Recent : Instant → Duration → BandwidthSample F → Type 0
  Recent now len s = now ≤ s.time + len

  -- A rate of one of the samples.
  abbrev pub Occurs : F → List (BandwidthSample F) → Type 0
  Occurs x [] = ⊥
  Occurs x (s ∷ ss) = (x ≡ s.bw) ⊎ Occurs x ss

  -- The samples of the last `len`, as the filter is meant to hold them.
  pub recent : Instant → Duration → List (BandwidthSample F) → List (BandwidthSample F)
  recent now len [] = []
  recent now len (s ∷ ss) =
      let rest = recent now len ss in if ltb (s.time + len) now then rest else s ∷ rest

  InOrder-snoc :
      (ss : List (BandwidthSample F)) (x : BandwidthSample F)
      → All (Until x.time) ss
      → InOrder ss
      → InOrder (ss ++ (x ∷ []))
  InOrder-snoc [] x h o = (tt, tt)
  InOrder-snoc (s ∷ ss) x h o =
      (All-append (λ t. s.time ≤ t.time) ss (x ∷ []) o.0 (h.0, tt), InOrder-snoc ss x h.1 o.1)

  recent-All :
      (now : Instant) (len : Duration) (ss : List (BandwidthSample F))
      → All (Recent now len) ss
      → recent now len ss ≡ ss
  unfolding recent
  recent-All now len [] h = refl
  recent-All now len (s ∷ ss) h = ground (arith, recent-All now len ss h.1)

module _ {F : Type 0} (f : Float F) where
  -- Popping the front of an ordered queue drops every old sample, wherever it stands.
  pop_old-recent :
      (now : Instant) (len : Duration) (ss : List (BandwidthSample F))
      → InOrder ss
      → pop_old f now len ss ≡ recent now len ss
  unfolding pop_old recent
  pop_old-recent now len [] o = refl
  pop_old-recent now len (s ∷ ss) o = elim (Bool-cases (ltb (s.time + len) now)) [
    | inl old ↦ rw old (pop_old-recent now len ss o.1)
    | inr fresh ↦ ground (
      arith,
      recent-All now len ss
          (All-map (λ t. s.time ≤ t.time) (Recent now len) (λ t h. ground arith) ss o.0),
    )
  ]

  pop_old-InOrder :
      (now : Instant) (len : Duration) (ss : List (BandwidthSample F))
      → InOrder ss
      → InOrder (pop_old f now len ss)
  unfolding pop_old
  pop_old-InOrder now len [] o = o
  pop_old-InOrder now len (s ∷ ss) o = ground (arith, pop_old-InOrder now len ss o.1)

  pop_old-All :
      (P : BandwidthSample F → Type 0) (now : Instant) (len : Duration)
      (ss : List (BandwidthSample F))
      → All P ss
      → All P (pop_old f now len ss)
  unfolding pop_old
  pop_old-All P now len [] h = h
  pop_old-All P now len (s ∷ ss) h = ground (arith, pop_old-All P now len ss h.1)

  module _ (o : IsOrdered f) where
    fold_max_grows :
        (acc : F) (ss : List (BandwidthSample F))
        → f.le acc acc ≡ true
        → f.le acc (fold_max f acc ss) ≡ true
    unfolding fold_max
    fold_max_grows acc [] h = h
    fold_max_grows acc (s ∷ ss) h =
        let first : f.le acc (f.fmax acc s.bw) ≡ true = o.le-fmax_left acc s.bw h in
        o.le_trans acc (f.fmax acc s.bw) _ first
          (fold_max_grows (f.fmax acc s.bw) ss (o.le_numbers acc _ first).1)

    fold_max_bound :
        (acc : F) (ss : List (BandwidthSample F))
        → f.le acc acc ≡ true
        → All (λ s. f.le s.bw s.bw ≡ true → f.le s.bw (fold_max f acc ss) ≡ true) ss
    unfolding fold_max
    fold_max_bound acc [] h = tt
    fold_max_bound acc (s ∷ ss) h =
        let next : f.le (f.fmax acc s.bw) (f.fmax acc s.bw) ≡ true =
          (o.le_numbers acc _ (o.le-fmax_left acc s.bw h)).1 in
        (
          λ n.
              o.le_trans s.bw (f.fmax acc s.bw) _ (o.le-fmax_right acc s.bw n)
                (fold_max_grows (f.fmax acc s.bw) ss next),
          fold_max_bound (f.fmax acc s.bw) ss next,
        )

    fold_max-Occurs :
        (acc : F) (ss : List (BandwidthSample F))
        → f.le acc acc ≡ true
        → (fold_max f acc ss ≡ acc) ⊎ Occurs (fold_max f acc ss) ss
    unfolding fold_max
    fold_max-Occurs acc [] h = inl refl
    fold_max-Occurs acc (s ∷ ss) h =
        let next : f.le (f.fmax acc s.bw) (f.fmax acc s.bw) ≡ true =
          (o.le_numbers acc _ (o.le-fmax_left acc s.bw h)).1 in
        elim (fold_max-Occurs (f.fmax acc s.bw) ss next) [
          | inr later ↦ inr (inr later)
          | inl e ↦ elim (o.fmax_cases acc s.bw h) [
            | inl left ↦ inl (e ∙ left)
            | inr right ↦ inr (inl (e ∙ right))
          ]
        ]

    is_number :
        (s : BandwidthSample F) (top : F)
        → (f.le s.bw s.bw ≡ true → f.le s.bw top ≡ true)
        → (f.le s.bw s.bw ≡ false) ⊎ (f.le s.bw top ≡ true)
    is_number s top h = elim (Bool-cases (f.le s.bw s.bw)) [
      | inl number ↦ inr (h number)
      | inr nan ↦ inl nan
    ]

    -- Updated at times that do not go back, the filter holds exactly the samples of the last
    -- `len`, in order; its maximum bounds every rate among them that is no NaN, and is one of them
    -- or the 0 that it starts from.
    pub update_filter_window :
        (b : BandwidthFilter F) (bw : F) (now : Instant) (len : Duration)
        → InOrder b.samples
        → All (Until now) b.samples
        → let b' = update_filter f b bw now len in
          (b'.samples ≡ recent now len (b.samples ++ (record { bw = bw; time = now } ∷ [])))
          × InOrder b'.samples
          × All (Until now) b'.samples
          × All (λ s. (f.le s.bw s.bw ≡ false) ⊎ (f.le s.bw b'.max_bw ≡ true)) b'.samples
          × ((b'.max_bw ≡ f.lit 0 1) ⊎ Occurs b'.max_bw b'.samples)
    unfolding update_filter
    update_filter_window b bw now len ord past =
        let x : BandwidthSample F = record { bw = bw; time = now } in
        let all : InOrder (b.samples ++ (x ∷ [])) = InOrder-snoc b.samples x past ord in
        let until : All (Until now) (b.samples ++ (x ∷ [])) =
          All-append (Until now) b.samples (x ∷ []) past (omega arith) in
        let zero_fine : f.le (f.lit 0 1) (f.lit 0 1) ≡ true = o.lit_number 0 1 (omega arith) in
        (
          pop_old-recent now len _ all,
          pop_old-InOrder now len _ all,
          pop_old-All (Until now) now len _ until,
          All-map
              (λ s. f.le s.bw s.bw ≡ true → f.le s.bw (update_filter f b bw now len).max_bw ≡ true)
              (λ s.
                (f.le s.bw s.bw ≡ false) ⊎ (f.le s.bw (update_filter f b bw now len).max_bw ≡ true))
              (λ s h. is_number s (update_filter f b bw now len).max_bw h)
              (update_filter f b bw now len).samples
              (fold_max_bound (f.lit 0 1) (update_filter f b bw now len).samples zero_fine),
          fold_max-Occurs (f.lit 0 1) _ zero_fine,
        )
