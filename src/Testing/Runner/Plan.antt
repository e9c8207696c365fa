-- ===== src/Testing/Runner/Plan.antt =====
-- Which tests a client runs, and what its report holds.
use speed_cli.Base.{
  ℕ, ◌≡◌, ◌⊎◌, refl, ap, ◌∙◌, Bool, true, false, Option, none, some, List, [], ◌∷◌, ◌++◌, inl, inr,
  map, All, All-append, map-append, if◌then◌else◌,
}
use speed_cli.Base.Outcome.{Result, ok, err}
use speed_cli.Report.Throughput.{ThroughputResult}
use speed_cli.Testing.Index.{contains, IndexMap, IsIndexMap, keys}
use speed_cli.Testing.Config.{TestType, download, upload, bidirectional, simultaneous, latency_only}
use speed_cli.Testing.Runner.{
  NetworkProtocol, NetworkTestResult, Test, latency_test, download_test, upload_test, Suite,
  new_result, add_download, add_upload,
}

-- The tests of a payload size, and the sizes that are downloaded and uploaded.
abbrev pub tests_of : TestType → ℕ → List Test
tests_of download k = download_test k ∷ []
tests_of upload k = upload_test k ∷ []
tests_of bidirectional k = download_test k ∷ upload_test k ∷ []
tests_of simultaneous k = download_test k ∷ upload_test k ∷ []
tests_of latency_only k = []

abbrev pub downloads : TestType → Bool
downloads upload = false
downloads latency_only = false
downloads _ = true

abbrev pub uploads : TestType → Bool
uploads download = false
uploads latency_only = false
uploads _ = true

-- The sizes, if the tests are of the kind.
abbrev pub tested : Bool → List ℕ → List ℕ
tested wanted ks = if wanted then ks else []

abbrev pub plan_of_sizes : TestType → List ℕ → List Test
plan_of_sizes type [] = []
plan_of_sizes type (k ∷ ks) = tests_of type k ++ plan_of_sizes type ks

abbrev pub plan : TestType → List ℕ → List Test
plan latency_only ks = latency_test ∷ []
plan type ks = plan_of_sizes type ks

abbrev pub message_of {ℓ} : {A : Type ℓ} → Result A → Option (List ℕ)
message_of (ok x) = none
message_of (err message) = some message

abbrev pub or_else : Option (List ℕ) → Option (List ℕ) → Option (List ℕ)
or_else none o = o
or_else (some message) o = some message

or_else_assoc : (a b c : Option (List ℕ)) → or_else a (or_else b c) ≡ or_else (or_else a b) c
or_else_assoc none b c = refl
or_else_assoc (some message) b c = refl

module _ {F : Type 0} (s : Suite F) where
  abbrev pub error_of : Test → Option (List ℕ)
  error_of latency_test = message_of s.measure_latency
  error_of (download_test k) = message_of (s.run_download_test k)
  error_of (upload_test k) = message_of (s.run_upload_test k)

  -- The error of the first test that has one.
  abbrev pub first_error : List Test → Option (List ℕ)
  first_error [] = none
  first_error (t ∷ ts) = or_else (error_of t) (first_error ts)

  pub first_error-append :
      (ts us : List Test) → first_error (ts ++ us) ≡ or_else (first_error ts) (first_error us)
  first_error-append [] us = refl
  first_error-append (t ∷ ts) us =
      ap (or_else (error_of t)) (first_error-append ts us)
      ∙ or_else_assoc (error_of t) (first_error ts) (first_error us)

pub Result-cases {ℓ} :
    {A : Type ℓ} (r : Result A) → ((x : A) × (r ≡ ok x)) ⊎ ((message : List ℕ) × (r ≡ err message))
Result-cases (ok x) = inl (x, refl)
Result-cases (err message) = inr (message, refl)

module _ {F M : Type 0} (index : IndexMap ThroughputResult M) (s : Suite F) where
  -- The report has the results of the tests, under the sizes in order.
  pub record IsRecorded (r : NetworkTestResult F M) (ds us : List ℕ) : Type 0 where
    pub download_keys : keys index r.download_results ≡ ds
    pub download_values :
        All (λ e. s.run_download_test e.0 ≡ ok e.1) (index.entries r.download_results)
    pub upload_keys : keys index r.upload_results ≡ us
    pub upload_values : All (λ e. s.run_upload_test e.0 ≡ ok e.1) (index.entries r.upload_results)

  module _ (is_map : IsIndexMap index) where
    pub new_result-IsRecorded : (p : NetworkProtocol) → IsRecorded (new_result index p) [] []
    new_result-IsRecorded p =
        let e = is_map.entries-new_map in
        record {
          download_keys = rw e refl;
          download_values = rw e tt;
          upload_keys = rw e refl;
          upload_values = rw e tt;
        }

    pub add_download-IsRecorded :
        (r : NetworkTestResult F M) (k : ℕ) (d : ThroughputResult) (ds us : List ℕ)
        → IsRecorded r ds us
        → contains k ds ≡ false
        → s.run_download_test k ≡ ok d
        → IsRecorded (add_download index k d r) (ds ++ (k ∷ [])) us
    add_download-IsRecorded r k d ds us h fresh e =
        let es : List (ℕ × ThroughputResult) = index.entries r.download_results in
        let last : index.entries (index.insert k d r.download_results) ≡ es ++ ((k, d) ∷ []) =
          is_map.entries-insert k d r.download_results (ap (contains k) h.download_keys ∙ fresh) in
        record {
          download_keys =
              ap (map (λ e. e.0)) last
              ∙ (map-append (λ e. e.0) es ((k, d) ∷ [])
                  ∙ ap (λ ks. ks ++ (k ∷ [])) h.download_keys);
          download_values = rw last (All-append _ es ((k, d) ∷ []) h.download_values (e, tt));
          upload_keys = h.upload_keys;
          upload_values = h.upload_values;
        }

    pub add_upload-IsRecorded :
        (r : NetworkTestResult F M) (k : ℕ) (u : ThroughputResult) (ds us : List ℕ)
        → IsRecorded r ds us
        → contains k us ≡ false
        → s.run_upload_test k ≡ ok u
        → IsRecorded (add_upload index k u r) ds (us ++ (k ∷ []))
    add_upload-IsRecorded r k d ds us h fresh e =
        let es : List (ℕ × ThroughputResult) = index.entries r.upload_results in
        let last : index.entries (index.insert k d r.upload_results) ≡ es ++ ((k, d) ∷ []) =
          is_map.entries-insert k d r.upload_results (ap (contains k) h.upload_keys ∙ fresh) in
        record {
          download_keys = h.download_keys;
          download_values = h.download_values;
          upload_keys =
              ap (map (λ e. e.0)) last
              ∙ (map-append (λ e. e.0) es ((k, d) ∷ []) ∙ ap (λ ks. ks ++ (k ∷ [])) h.upload_keys);
          upload_values = rw last (All-append _ es ((k, d) ∷ []) h.upload_values (e, tt));
        }
