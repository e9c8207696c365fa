-- ===== src/Testing/Collector/Delivery.antt =====
-- Nothing that the tasks of a test measured is lost or counted twice.
use mathlib.Core.Option.{some-injective}
use speed_cli.Base.{
  &&-true, ℕ, zero, suc, ◌+◌, ◌*◌, ◌≡◌, refl, ap, sym, List-cases, some, List, [], ◌∷◌, ◌++◌, arith,
  inl, inr, length, sum_of, sum_of-append, sum_of_one, sum_of_pointwise, subst, Option-cases, true,
  Bool, is_empty, u32, u64, if◌then◌else◌,
}
use speed_cli.Base.Time.{Instant}
use speed_cli.Report.Throughput.{
  ThroughputMeasurement, bytes_of, bytes_transferred, is_failure, count, total_errors,
}
use speed_cli.Report.Throughput.Totals.{sum_bytes_lem}
use speed_cli.Testing.Collector.{
  test_result, StatsCollector, new_collector, next_of, Event, sent, received, step, run, all_empty,
  is_drained,
}

module _ {ℓ} {A : Type ℓ} where
  next_of-sum :
      (f : A → ℕ) (i : ℕ) (tasks : List (List A)) {m : A} {tasks' : List (List A)}
      → next_of i tasks ≡ some (m, tasks')
      → f m + sum_of (sum_of f) tasks' ≡ sum_of (sum_of f) tasks
  unfolding next_of
  next_of-sum f i [] e = ground arith
  next_of-sum f zero ([] ∷ tasks) e = ground arith
  next_of-sum f zero ((m ∷ ms) ∷ tasks) e = ground arith
  next_of-sum f (suc i) (ms ∷ tasks) {m} {tasks'} e = elim (Option-cases (next_of i tasks)) [
    | inl h ↦ ground arith
    | inr ((m', rest), h) ↦ ground (arith, next_of-sum f i tasks {m = m'} {tasks' = rest} h)
  ]

  -- The measure of the measurements wherever they are, and the events that are still to come.
  abbrev amount : (A → ℕ) → StatsCollector A → ℕ
  amount f s = sum_of (sum_of f) s.tasks + (sum_of f s.channel + sum_of f s.measurements)

  abbrev pub to_come : StatsCollector A → ℕ
  to_come s = 2 * sum_of (sum_of (λ m. 1)) s.tasks + sum_of (λ m. 1) s.channel

  -- An event moves a measurement and is one of those that were to come.
  Moves : (A → ℕ) → StatsCollector A → StatsCollector A → Type 0
  Moves f s s' = (amount f s' ≡ amount f s) × (suc (to_come s') ≡ to_come s)

  sent-Moves :
      (f : A → ℕ) (s : StatsCollector A) (i : ℕ) {m : A} {tasks : List (List A)}
      → next_of i s.tasks ≡ some (m, tasks)
      → Moves f s (record s { tasks = tasks; channel = s.channel ++ (m ∷ []) })
  unfolding Moves
  sent-Moves f s i {m} {tasks} e =
      let e' = next_of-sum f i s.tasks {m = m} {tasks' = tasks} e in
      let e'' = next_of-sum (λ x. 1) i s.tasks {m = m} {tasks' = tasks} e in
      (
        omega (arith, e', sum_of-append f s.channel (m ∷ [])),
        omega (arith, e'', sum_of-append (λ x. 1) s.channel (m ∷ [])),
      )

  received-Moves :
      (f : A → ℕ) (s : StatsCollector A) {m : A} {ms : List A}
      → s.channel ≡ m ∷ ms
      → Moves f s (record s { channel = ms; measurements = s.measurements ++ (m ∷ []) })
  unfolding Moves
  received-Moves f s {m} {ms} e = (
    omega (arith, ap (sum_of f) e, sum_of-append f s.measurements (m ∷ [])),
    omega (arith, ap (sum_of (λ x. 1)) e),
  )

  step-Moves :
      (f : A → ℕ) (s : StatsCollector A) (e : Event) {s' : StatsCollector A}
      → step s e ≡ some s'
      → Moves f s s'
  unfolding step
  step-Moves f s (sent i) {s'} h = elim (Option-cases (next_of i s.tasks)) [
    | inl e ↦ ground (arith, e)
    | inr ((m, tasks), e) ↦
        subst (Moves f s) (some-injective _ s' (rw (e, step) at h))
          (sent-Moves f s i {m = m} {tasks = tasks} e)
  ]
  step-Moves f s received {s'} h = elim (List-cases s.channel) [
    | inl e ↦ ground (arith, e)
    | inr (m, ms, e) ↦
        subst (Moves f s) (some-injective _ s' (rw (e, step) at h))
          (received-Moves f s {m = m} {ms = ms} e)
  ]

  run-amount :
      (f : A → ℕ) (s : StatsCollector A) (es : List Event) {s' : StatsCollector A}
      → run s es ≡ some s'
      → (amount f s' ≡ amount f s) × (to_come s' + length es ≡ to_come s)
  unfolding run Moves
  run-amount f s [] {s'} h = (
    ap (amount f) (sym (some-injective s s' h)),
    omega (arith, ap to_come (some-injective s s' h)),
  )
  run-amount f s (e ∷ es) {s'} h = elim (Option-cases (step s e)) [
    | inl e' ↦ ground (arith, e')
    | inr (t, e') ↦
        let (moved, fewer) = step-Moves f s e {s' = t} e' in
        let (kept, rest) = run-amount f t es {s' = s'} (rw (e', run) at h) in
        (omega (arith, moved, kept), omega (arith, fewer, rest))
  ]

  sum_empty :
      (f : A → ℕ) (tasks : List (List A)) → all_empty tasks ≡ true → sum_of (sum_of f) tasks ≡ 0
  sum_empty f [] h = refl
  sum_empty f ([] ∷ tasks) h = omega (arith, sum_empty f tasks h)
  sum_empty f ((m ∷ ms) ∷ tasks) h = ground arith

  sum_channel : (f : A → ℕ) (ms : List A) → is_empty ms ≡ true → sum_of f ms ≡ 0
  sum_channel f [] h = refl
  sum_channel f (m ∷ ms) h = ground arith

  -- Once the collector has drained the channel, any measure of its measurements is that of all that
  -- the tasks measured.
  pub sum-measurements :
      (f : A → ℕ) (tasks : List (List A)) (es : List Event) {s : StatsCollector A}
      → run (new_collector tasks) es ≡ some s
      → is_drained s ≡ true
      → sum_of f s.measurements ≡ sum_of (sum_of f) tasks
  sum-measurements f tasks es {s} h done =
      let (no_tasks, no_channel) = &&-true (all_empty s.tasks) (is_empty s.channel) done in
      omega (
        arith,
        (run-amount f (new_collector tasks) es {s' = s} h).0,
        sum_empty f s.tasks no_tasks,
        sum_channel f s.channel no_channel,
      )

abbrev one_if : (ThroughputMeasurement → Bool) → ThroughputMeasurement → ℕ
one_if p m = if p m then 1 else 0

counts :
    (p : ThroughputMeasurement → Bool) (ms : List ThroughputMeasurement)
    → count p ms ≡ sum_of (one_if p) ms
unfolding count
counts p [] = refl
counts p (m ∷ ms) = ground (arith, counts p ms)

-- The measurements of a kind.
pub count-measurements :
    (p : ThroughputMeasurement → Bool) (tasks : List (List ThroughputMeasurement)) (es : List Event)
    {s : StatsCollector ThroughputMeasurement}
    → run (new_collector tasks) es ≡ some s
    → is_drained s ≡ true
    → count p s.measurements ≡ sum_of (count p) tasks
count-measurements p tasks es {s} h done = omega (
  arith,
  counts p s.measurements,
  sum-measurements (one_if p) tasks es {s = s} h done,
  sum_of_pointwise (sum_of (one_if p)) (count p) (λ ms. sym (counts p ms)) tasks,
)

-- The result of a test has the bytes, the measurements and the failures of all its tasks, however
-- their sendings interleave. The bytes are in 64 bits, the failures in 32 bits.
pub test_result_lem :
    (tasks : List (List ThroughputMeasurement)) (es : List Event) (start_time end_time : Instant)
    {s : StatsCollector ThroughputMeasurement}
    → run (new_collector tasks) es ≡ some s
    → is_drained s ≡ true
    → let r = test_result s start_time end_time in
      (bytes_transferred r ≡ u64 (sum_of (sum_of bytes_of) tasks))
      × (length r.measurements ≡ sum_of length tasks)
      × (total_errors r ≡ u32 (sum_of (count is_failure) tasks))
unfolding test_result bytes_transferred total_errors
test_result_lem tasks es start_time end_time {s} h done = (
  omega (arith, sum_bytes_lem s.measurements, sum-measurements bytes_of tasks es {s = s} h done),
  omega (
    arith,
    sum_of_one s.measurements,
    sum-measurements (λ m. 1) tasks es {s = s} h done,
    sum_of_pointwise (sum_of (λ m. 1)) length sum_of_one tasks,
  ),
  omega (arith, count-measurements is_failure tasks es {s = s} h done),
)
