-- ===== src/Testing/Runner/Outcomes.antt =====
-- How a run of the tests of a client ends.
use speed_cli.Base.{
  ℕ, ◌≡◌, ◌⊎◌, refl, ap, sym, subst, ◌∙◌, false, none, some, List, [], ◌∷◌, ◌++◌, arith, inl, inr,
  All, append_nil,
}
use speed_cli.Base.Outcome.{Result, ok, err}
use speed_cli.Report.Throughput.{ThroughputResult}
use speed_cli.Testing.Index.{contains, IsDistinct, IndexMap, IsIndexMap}
use speed_cli.Testing.Config.{TestType, download, upload, bidirectional, simultaneous, latency_only}
use speed_cli.Testing.Runner.{
  NetworkProtocol, NetworkTestResult, Test, Suite, new_result, add_download, add_upload, size_step,
  and_then, size_loop, run_tests,
}
use speed_cli.Testing.Runner.Plan.{
  tests_of, downloads, uploads, tested, plan_of_sizes, plan, or_else, first_error,
  first_error-append, Result-cases, IsRecorded, new_result-IsRecorded, add_download-IsRecorded,
  add_upload-IsRecorded,
}
use speed_cli.Testing.Runner.Sizes.{ok-injective, fresh_after, tested_nil, tested_cons, fresh_nil}

module _ {F M : Type 0} (index : IndexMap ThroughputResult M) (s : Suite F)
    (is_map : IsIndexMap index) where
  -- A run of the tests of a list ends with the error of the first that has one; with none, all of
  -- them were started and their results are recorded.
  abbrev pub Ends :
      List Test → List ℕ → List ℕ → List Test × Result (NetworkTestResult F M) → Type 0
  Ends tests ds us (started, result) =
      ((message : List ℕ) × (result ≡ err message) × (first_error s tests ≡ some message))
      ⊎ ((r : NetworkTestResult F M) × (result ≡ ok r)
          × (first_error s tests ≡ none)
          × (started ≡ tests)
          × IsRecorded index s r ds us)

  add_both-IsRecorded :
      (k : ℕ) (r : NetworkTestResult F M) (ds us : List ℕ)
      → IsRecorded index s r ds us
      → contains k ds ≡ false
      → contains k us ≡ false
      → (d u : ThroughputResult) → s.run_download_test k ≡ ok d
      → s.run_upload_test k ≡ ok u
      → IsRecorded index s
          (add_upload index k u (add_download index k d r))
          (ds ++ (k ∷ []))
          (us ++ (k ∷ []))
  add_both-IsRecorded k r ds us h fd fu d u e e' =
      add_upload-IsRecorded index s is_map (add_download index k d r) k u (ds ++ (k ∷ [])) us
        (add_download-IsRecorded index s is_map r k d ds us h fd e) fu e'

  size_step-Ends :
      (type : TestType) (k : ℕ) (r : NetworkTestResult F M) (ds us : List ℕ)
      → IsRecorded index s r ds us
      → contains k ds ≡ false
      → contains k us ≡ false
      → Ends
          (tests_of type k)
          (ds ++ tested (downloads type) (k ∷ []))
          (us ++ tested (uploads type) (k ∷ []))
          (size_step index type s k r)
  unfolding size_step
  size_step-Ends download k r ds us h fd fu = elim (Result-cases (s.run_download_test k)) [
    | inr (message, e) ↦ rw e (inl (message, refl, refl))
    | inl (d, e) ↦
        rw (e, append_nil us)
          (inr (
            add_download index k d r,
            refl,
            refl,
            refl,
            add_download-IsRecorded index s is_map r k d ds us h fd e,
          ))
  ]
  size_step-Ends upload k r ds us h fd fu = elim (Result-cases (s.run_upload_test k)) [
    | inr (message, e) ↦ rw e (inl (message, refl, refl))
    | inl (u, e) ↦
        rw (e, append_nil ds)
          (inr (
            add_upload index k u r,
            refl,
            refl,
            refl,
            add_upload-IsRecorded index s is_map r k u ds us h fu e,
          ))
  ]
  size_step-Ends bidirectional k r ds us h fd fu = elim (Result-cases (s.run_download_test k)) [
    | inr (message, e) ↦ rw (e, size_step) (inl (message, refl, refl))
    | inl (d, e) ↦ elim (Result-cases (s.run_upload_test k)) [
      | inr (message, e') ↦ rw (e, size_step, e') (inl (message, refl, refl))
      | inl (u, e') ↦
          rw (e, size_step, e')
            (inr (_, refl, refl, refl, add_both-IsRecorded k r ds us h fd fu d u e e'))
    ]
  ]
  size_step-Ends simultaneous k r ds us h fd fu = elim (Result-cases (s.run_download_test k)) [
    | inr (message, e) ↦ rw e (inl (message, refl, refl))
    | inl (d, e) ↦ elim (Result-cases (s.run_upload_test k)) [
      | inr (message, e') ↦ rw (e, e') (inl (message, refl, refl))
      | inl (u, e') ↦
          rw (e, e') (inr (_, refl, refl, refl, add_both-IsRecorded k r ds us h fd fu d u e e'))
    ]
  ]
  size_step-Ends latency_only k r ds us h fd fu =
      rw (append_nil ds, append_nil us) (inr (r, refl, refl, refl, h))

  and_then-Ends :
      (tests tests' : List Test) (ds us ds' us' : List ℕ)
      (x : List Test × Result (NetworkTestResult F M))
      (next : NetworkTestResult F M → List Test × Result (NetworkTestResult F M))
      → Ends tests ds us x
      → ((r : NetworkTestResult F M) → IsRecorded index s r ds us → Ends tests' ds' us' (next r))
      → Ends (tests ++ tests') ds' us' (and_then index x next)
  and_then-Ends tests tests' ds us ds' us' (started, err m) next (inl (message, e, bad)) more =
      inl (
        message,
        e,
        first_error-append s tests tests' ∙ ap (λ o. or_else o (first_error s tests')) bad,
      )
  and_then-Ends tests tests' ds us ds' us' (started, err m) next (inr (r, e, good, same, h)) more =
      ground arith
  and_then-Ends tests tests' ds us ds' us' (started, ok r) next (inl (message, e, bad)) more =
      ground arith
  and_then-Ends tests tests' ds us ds' us' (started, ok r) next (inr (r', e, good, same, h)) more =
      let first : first_error s (tests ++ tests') ≡ first_error s tests' =
        first_error-append s tests tests' ∙ ap (λ o. or_else o (first_error s tests')) good in
      let here : IsRecorded index s r ds us =
        subst (λ q. IsRecorded index s q ds us) (sym (ok-injective r r' e)) h in
      elim (more r here) [
        | inl (message, e', bad) ↦ inl (message, e', first ∙ bad)
        | inr (r'', e', good', same', h') ↦ inr (r'', e', first ∙ good', rw (same, same') refl, h')
      ]

  size_loop-Ends :
      (type : TestType) (ks : List ℕ) (r : NetworkTestResult F M) (ds us : List ℕ)
      → IsRecorded index s r ds us
      → IsDistinct ks
      → All (λ k. contains k ds ≡ false) ks
      → All (λ k. contains k us ≡ false) ks
      → Ends
          (plan_of_sizes type ks)
          (ds ++ tested (downloads type) ks)
          (us ++ tested (uploads type) ks)
          (size_loop index type s ks r)
  unfolding size_loop
  size_loop-Ends type [] r ds us h distinct fd fu =
      rw (tested_nil (downloads type) ds, tested_nil (uploads type) us)
        (inr (r, refl, refl, refl, h))
  size_loop-Ends type (k ∷ ks) r ds us h distinct fd fu =
      rw (tested_cons (downloads type) ds k ks, tested_cons (uploads type) us k ks)
        (and_then-Ends (tests_of type k) (plan_of_sizes type ks) _ _ _ _
          (size_step index type s k r) (λ r'. size_loop index type s ks r')
          (size_step-Ends type k r ds us h fd.0 fu.0)
          (λ r' h'.
            size_loop-Ends type ks r' (ds ++ tested (downloads type) (k ∷ []))
              (us ++ tested (uploads type) (k ∷ [])) h' distinct.1
              (fresh_after (downloads type) ds k ks fd.1 distinct.0)
              (fresh_after (uploads type) us k ks fu.1 distinct.0)))

  -- On distinct payload sizes, a client's run ends with the error of the first test of the plan that
  -- has one. With none, all tests of the plan were started in its order, and the report holds the
  -- downloads and the uploads that the type of the test asks for, under the sizes in their order,
  -- each with what its test gave.
  pub run_tests-Ends :
      (type : TestType) (ks : List ℕ) (protocol : NetworkProtocol)
      → IsDistinct ks
      → let (started, result) = run_tests index type s ks (new_result index protocol) in
        ((message : List ℕ) × (result ≡ err message)
          × (first_error s (plan type ks) ≡ some message))
        ⊎ ((r : NetworkTestResult F M) × (result ≡ ok r)
            × (first_error s (plan type ks) ≡ none)
            × (started ≡ plan type ks)
            × IsRecorded index s r (tested (downloads type) ks) (tested (uploads type) ks))
  unfolding run_tests
  run_tests-Ends latency_only ks protocol d = elim (Result-cases s.measure_latency) [
    | inr (message, e) ↦ rw e (inl (message, refl, refl))
    | inl (l, e) ↦
        let h = new_result-IsRecorded index s is_map protocol in
        rw e (
          inr (
            _,
            refl,
            refl,
            refl,
            record {
              download_keys = h.download_keys;
              download_values = h.download_values;
              upload_keys = h.upload_keys;
              upload_values = h.upload_values;
            },
          ))
  ]
  run_tests-Ends download ks protocol d =
      size_loop-Ends download ks (new_result index protocol) [] []
        (new_result-IsRecorded index s is_map protocol) d (fresh_nil ks) (fresh_nil ks)
  run_tests-Ends upload ks protocol d =
      size_loop-Ends upload ks (new_result index protocol) [] []
        (new_result-IsRecorded index s is_map protocol) d (fresh_nil ks) (fresh_nil ks)
  run_tests-Ends bidirectional ks protocol d =
      size_loop-Ends bidirectional ks (new_result index protocol) [] []
        (new_result-IsRecorded index s is_map protocol) d (fresh_nil ks) (fresh_nil ks)
  run_tests-Ends simultaneous ks protocol d =
      size_loop-Ends simultaneous ks (new_result index protocol) [] []
        (new_result-IsRecorded index s is_map protocol) d (fresh_nil ks) (fresh_nil ks)
