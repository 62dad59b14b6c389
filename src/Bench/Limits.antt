-- ===== src/Bench/Limits.antt =====
-- Which options the programs of src/bench start with.
use net_sentinel.Base.{
  ℕ, ◌-◌, ◌^◌, ◌≢◌, ◌≤◌, arith, max, Bool, true, false, ◌==◌, ltb, if◌then◌else◌, Option, none,
  some, List, [], ◌∷◌, length, Bool-cases, Option-cases, inl, inr,
}
use net_sentinel.Base.Text.{codes, same_text}
use net_sentinel.CommandLine.{Long, strtoll}
use net_sentinel.Bench.{in_range, count_from_one, count_from_zero}
use net_sentinel.Bench.Arguments.{
  Asked, fails, alone, with_value, with_count, positive, take_all, is_path, AnalysisOptions,
  analysis_last, analysis_value, read_analysis, CaptureOptions, capture_last, capture_value,
  read_capture,
}

either {ℓ} : {A : Type ℓ} (P : A → Type 0) (b : Bool) (x y : A) → P x → P y → P (if b then x else y)
either P true x y p q = p
either P false x y p q = q

abbrev OptionAll : {A : Type 0} → (A → Type 0) → Option A → Type 0
OptionAll P none = Unit
OptionAll P (some a) = P a

module _ {O : Type 0} (P : O → Type 0) where
  abbrev AskedAll : Asked O → Type 0
  AskedAll fails = Unit
  AskedAll (alone o) = P o
  AskedAll (with_value o) = P o

  with_count-AskedAll :
      (Q : ℕ → Type 0) (count : Option ℕ) (set : ℕ → O)
      → OptionAll Q count
      → ((v : ℕ) → Q v → P (set v))
      → AskedAll (with_count count set)
  with_count-AskedAll Q none set h f = tt
  with_count-AskedAll Q (some v) set h f = f v h

  -- What every argument keeps, the loop keeps.
  take_all-OptionAll :
      (value : O → List ℕ → List ℕ → Asked O) (last : O → List ℕ → Asked O)
      → ((o : O) (arg text : List ℕ) → P o → AskedAll (value o arg text))
      → ((o : O) (arg : List ℕ) → P o → AskedAll (last o arg))
      → (o : O) (args : List (List ℕ)) → P o
      → OptionAll P (take_all value last o args)
  unfolding take_all
  take_all-OptionAll value last f g o [] p = p
  take_all-OptionAll value last f g o (arg ∷ []) p =
      (elim (last o arg)
          as (λ t.
            AskedAll t
            → OptionAll P
                (elim t [ fails ↦ none | alone set ↦ some set | with_value set ↦ some set ])) [
                  | fails ↦ λ h. tt
                  | alone set ↦ λ h. h
                  | with_value set ↦ λ h. h
                ])
        (g o arg p)
  take_all-OptionAll value last f g o (arg ∷ text ∷ rest) p =
      (elim (value o arg text)
          as (λ t.
            AskedAll t
            → OptionAll P (elim t [
              | fails ↦ none
              | alone set ↦ take_all value last set (text ∷ rest)
              | with_value set ↦ take_all value last set rest
            ])) [
              | fails ↦ λ h. tt
              | alone set ↦ λ h. take_all-OptionAll value last f g set (text ∷ rest) h
              | with_value set ↦ λ h. take_all-OptionAll value last f g set rest h
            ])
        (f o arg text p)

in_range-OptionAll :
    (value : Long) (minimum max_value : ℕ)
    → OptionAll (λ v. (minimum ≤ v) × (v ≤ max_value)) (in_range value minimum max_value)
unfolding in_range
in_range-OptionAll value minimum max_value =
    elim (Option-cases (in_range value minimum max_value)) [
      | inl e ↦ rw (e, OptionAll) tt
      | inr (v, e) ↦ rw (e, OptionAll) (ground (arith, e), ground (arith, e))
    ]

positive-OptionAll :
    (max_value : ℕ) (count : Option ℕ)
    → OptionAll (λ v. (0 ≤ v) × (v ≤ max_value)) count
    → OptionAll (λ v. (1 ≤ v) × (v ≤ max_value)) (positive count)
positive-OptionAll max_value none h = tt
positive-OptionAll max_value (some v) h = elim (Bool-cases (v == 0)) [
  | inl e ↦ rw (e, OptionAll) tt
  | inr e ↦ rw (e, OptionAll) (ground (arith, e), h.1)
]

-- The ranges of the options of bench_analysis.cpp.
abbrev pub AnalysisInBounds : (cores : ℕ) → AnalysisOptions → Type 0
AnalysisInBounds cores o =
    ((1 ≤ o.batch_size) × (o.batch_size ≤ 2 ^ 20))
    × ((1 ≤ o.reps) × (o.reps ≤ 1000))
    × ((1 ≤ o.max_threads) × (o.max_threads ≤ max 256 cores))

count_from_one-OptionAll :
    (text : List ℕ) (max_value : ℕ)
    → OptionAll (λ v. (1 ≤ v) × (v ≤ max_value)) (count_from_one text max_value)
unfolding count_from_one
count_from_one-OptionAll text max_value = in_range-OptionAll (strtoll text) 1 max_value

count_from_zero-OptionAll :
    (text : List ℕ) (max_value : ℕ)
    → OptionAll (λ v. (0 ≤ v) × (v ≤ max_value)) (count_from_zero text max_value)
unfolding count_from_zero
count_from_zero-OptionAll text max_value = in_range-OptionAll (strtoll text) 0 max_value

analysis_last-AskedAll :
    (cores : ℕ) (o : AnalysisOptions) (arg : List ℕ)
    → AnalysisInBounds cores o
    → AskedAll (AnalysisInBounds cores) (analysis_last o arg)
unfolding analysis_last
analysis_last-AskedAll cores o arg h =
    either (AskedAll (AnalysisInBounds cores)) (is_path o.path arg) _ _ h tt

analysis_value-AskedAll :
    (cores : ℕ) (o : AnalysisOptions) (arg text : List ℕ)
    → AnalysisInBounds cores o
    → AskedAll (AnalysisInBounds cores) (analysis_value o arg text)
unfolding analysis_value
analysis_value-AskedAll cores o arg text h =
    let P = AskedAll (AnalysisInBounds cores) in
    let taken = with_count-AskedAll (AnalysisInBounds cores) in
    either P (same_text arg (codes "-b")) _ _
      (taken (λ v. (1 ≤ v) × (v ≤ 2 ^ 20)) (count_from_one text (2 ^ 20))
        (λ v. record o { batch_size = v }) (count_from_one-OptionAll text (2 ^ 20))
        (λ v b. (b, h.1, h.2)))
      (either P (same_text arg (codes "--reps")) _ _
        (taken (λ v. (1 ≤ v) × (v ≤ 1000)) (count_from_one text 1000) (λ v. record o { reps = v })
          (count_from_one-OptionAll text 1000) (λ v b. (h.0, b, h.2)))
        (either P (same_text arg (codes "--max-threads")) _ _
          (taken (λ v. (1 ≤ v) × (v ≤ 256)) (count_from_one text 256)
            (λ v. record o { max_threads = v }) (count_from_one-OptionAll text 256)
            (λ v b. (h.0, h.1, (b.0, omega (arith, b.1)))))
          (analysis_last-AskedAll cores o arg h)))

-- Whatever the arguments are, bench_analysis.cpp exits with a failure, or goes on with a path, a batch size of 1 to
-- 2 ^ 20, 1 to 1000 repetitions, and at least one thread and at most 256 or as many as there are cores.
pub read_analysis-OptionAll :
    (cores : ℕ) (args : List (List ℕ))
    → OptionAll (λ o. AnalysisInBounds cores o × (length o.path ≢ 0)) (read_analysis cores args)
unfolding read_analysis
read_analysis-OptionAll cores args =
    let start : AnalysisOptions = record {
      path = [];
      batch_size = 256;
      reps = 5;
      max_threads = if ltb 0 cores then cores else 4;
    } in
    (elim (take_all analysis_value analysis_last start args)
        as (λ r.
          OptionAll (AnalysisInBounds cores) r
          → OptionAll (λ o. AnalysisInBounds cores o × (length o.path ≢ 0))
              (elim r [ none ↦ none | some o ↦ if length o.path == 0 then none else some o ])) [
                | none ↦ λ h. tt
                | some o ↦ λ h. elim (Bool-cases (length o.path == 0)) [
                  | inl e ↦ rw (e, OptionAll) tt
                  | inr e ↦ rw (e, OptionAll) (h, ground (arith, e))
                ]
              ])
      (take_all-OptionAll (AnalysisInBounds cores) analysis_value analysis_last
        (analysis_value-AskedAll cores) (analysis_last-AskedAll cores) start args
        ((omega arith, omega arith), (omega arith, omega arith), (ground arith, ground arith)))

-- The ranges of the options of bench_capture.cpp.
abbrev pub CaptureInBounds : (cores : ℕ) → CaptureOptions → Type 0
CaptureInBounds cores o =
    ((1 ≤ o.workers) × (o.workers ≤ max 256 (cores - 1)))
    × ((1 ≤ o.batch) × (o.batch ≤ 2 ^ 20))
    × (o.linger_us ≤ 1000000)
    × ((1 ≤ o.capacity) × (o.capacity ≤ 2 ^ 24))
    × ((1 ≤ o.reps) × (o.reps ≤ 1000))

capture_last-AskedAll :
    (cores : ℕ) (o : CaptureOptions) (arg : List ℕ)
    → CaptureInBounds cores o
    → AskedAll (CaptureInBounds cores) (capture_last o arg)
unfolding capture_last
capture_last-AskedAll cores o arg h =
    either (AskedAll (CaptureInBounds cores)) (is_path o.path arg) _ _ h tt

capture_value-AskedAll :
    (cores : ℕ) (o : CaptureOptions) (arg text : List ℕ)
    → CaptureInBounds cores o
    → AskedAll (CaptureInBounds cores) (capture_value o arg text)
unfolding capture_value
capture_value-AskedAll cores o arg text h =
    let P = AskedAll (CaptureInBounds cores) in
    let taken =
      λ (most : ℕ) (set : ℕ → CaptureOptions)
          (f : (v : ℕ) → (1 ≤ v) × (v ≤ most) → CaptureInBounds cores (set v)).
        with_count-AskedAll (CaptureInBounds cores) (λ v. (1 ≤ v) × (v ≤ most))
          (positive (count_from_zero text most)) set
          (positive-OptionAll most (count_from_zero text most)
            (count_from_zero-OptionAll text most))
          f in
    either P (same_text arg (codes "-w")) _ _
      (taken 256 (λ v. record o { workers = v })
        (λ v b. ((b.0, omega (arith, b.1)), h.1, h.2, h.3, h.4)))
      (either P (same_text arg (codes "-b")) _ _
        (taken (2 ^ 20) (λ v. record o { batch = v }) (λ v b. (h.0, b, h.2, h.3, h.4)))
        (either P (same_text arg (codes "-L")) _ _
          (with_count-AskedAll (CaptureInBounds cores) (λ v. (0 ≤ v) × (v ≤ 1000000))
            (count_from_zero text 1000000) (λ v. record o { linger_us = v })
            (count_from_zero-OptionAll text 1000000) (λ v b. (h.0, h.1, b.1, h.3, h.4)))
          (either P (same_text arg (codes "-q")) _ _
            (taken (2 ^ 24) (λ v. record o { capacity = v }) (λ v b. (h.0, h.1, h.2, b, h.4)))
            (either P (same_text arg (codes "--reps")) _ _
              (taken 1000 (λ v. record o { reps = v }) (λ v b. (h.0, h.1, h.2, h.3, b)))
              (capture_last-AskedAll cores o arg h)))))

-- Whatever the arguments are, bench_capture.cpp exits with a failure, or goes on with a path, at least one worker and
-- at most 256 or one less than the cores, batches of 1 to 2 ^ 20, at most a second of linger, a queue of 1 to
-- 2 ^ 24 packets and 1 to 1000 repetitions.
pub read_capture-OptionAll :
    (cores : ℕ) (args : List (List ℕ))
    → OptionAll (λ o. CaptureInBounds cores o × (length o.path ≢ 0)) (read_capture cores args)
unfolding read_capture
read_capture-OptionAll cores args =
    let start : CaptureOptions = record {
      path = [];
      workers = if ltb 1 cores then cores - 1 else 1;
      batch = 256;
      linger_us = 2000;
      capacity = 4096;
      reps = 5;
    } in
    (elim (take_all capture_value capture_last start args)
        as (λ r.
          OptionAll (CaptureInBounds cores) r
          → OptionAll (λ o. CaptureInBounds cores o × (length o.path ≢ 0))
              (elim r [ none ↦ none | some o ↦ if length o.path == 0 then none else some o ])) [
                | none ↦ λ h. tt
                | some o ↦ λ h. elim (Bool-cases (length o.path == 0)) [
                  | inl e ↦ rw (e, OptionAll) tt
                  | inr e ↦ rw (e, OptionAll) (h, ground (arith, e))
                ]
              ])
      (take_all-OptionAll (CaptureInBounds cores) capture_value capture_last
        (capture_value-AskedAll cores) (capture_last-AskedAll cores) start args
        (
          (ground arith, ground arith),
          (omega arith, omega arith),
          omega arith,
          (omega arith, omega arith),
          (omega arith, omega arith),
        ))
