-- ===== src/Bench/Arguments.antt =====
-- The loops of src/bench/bench_analysis.cpp and src/bench/bench_capture.cpp over their arguments. `none` is an exit
-- with `EXIT_FAILURE`.
use net_sentinel.Base.{
  ℕ, ◌-◌, ◌^◌, Bool, false, not, ◌&&◌, ◌==◌, ltb, if◌then◌else◌, Option, none, some, List, [], ◌∷◌,
  length,
}
use net_sentinel.Base.Text.{codes, same_text}
use net_sentinel.Bench.{count_from_one, count_from_zero}

-- What an argument does: it fails, or it sets variables, alone or with the argument behind it.
pub data Asked (O : Type 0) : Type 0 where
  fails : Asked O
  alone with_value : O → Asked O

-- `|| value == 0`.
abbrev pub positive : Option ℕ → Option ℕ
positive none = none
positive (some value) = if value == 0 then none else some value

module _ {O : Type 0} where
  -- A number, if it is one.
  abbrev pub with_count : Option ℕ → (ℕ → O) → Asked O
  with_count none set = fails
  with_count (some value) set = with_value (set value)

  -- The loop, by what an argument with one behind it does, and by what one that stands alone does.
  unfoldable pub take_all :
      (value : O → List ℕ → List ℕ → Asked O)
      → (last : O → List ℕ → Asked O) → O
      → List (List ℕ)
      → Option O
  take_all value last o [] = some o
  take_all value last o (arg ∷ []) = elim (last o arg) [
    | fails ↦ none
    | alone set ↦ some set
    | with_value set ↦ some set
  ]
  take_all value last o (arg ∷ text ∷ rest) = elim (value o arg text) [
    | fails ↦ none
    | alone set ↦ take_all value last set (text ∷ rest)
    | with_value set ↦ take_all value last set rest
  ]

-- Whether an argument can be the path.
unfoldable pub is_path : (path arg : List ℕ) → Bool
is_path path [] = false
is_path path (c ∷ arg) = not (c == b'-') && length path == 0

-- The variables of bench_analysis.cpp.
pub record AnalysisOptions : Type 0 where
  pub path : List ℕ
  pub batch_size : ℕ
  pub reps : ℕ
  pub max_threads : ℕ

unfoldable pub analysis_last : AnalysisOptions → List ℕ → Asked AnalysisOptions
unfolding is_path
analysis_last o arg = if is_path o.path arg then alone (record o { path = arg }) else fails

unfoldable pub analysis_value : AnalysisOptions → (arg text : List ℕ) → Asked AnalysisOptions
unfolding analysis_last
analysis_value o arg text =
    if same_text arg (codes "-b")
    then with_count (count_from_one text (2 ^ 20)) (λ v. record o { batch_size = v })
    else if same_text arg (codes "--reps")
    then with_count (count_from_one text 1000) (λ v. record o { reps = v })
    else if same_text arg (codes "--max-threads")
    then with_count (count_from_one text 256) (λ v. record o { max_threads = v })
    else analysis_last o arg

unfoldable pub read_analysis : (cores : ℕ) → List (List ℕ) → Option AnalysisOptions
unfolding take_all analysis_value
read_analysis cores args =
    elim (take_all analysis_value analysis_last
      (record {
        path = [];
        batch_size = 256;
        reps = 5;
        max_threads = if ltb 0 cores then cores else 4;
      })
      args) [ none ↦ none | some o ↦ if length o.path == 0 then none else some o ]

-- `Options` of bench_capture.cpp.
pub record CaptureOptions : Type 0 where
  pub path : List ℕ
  pub workers : ℕ
  pub batch : ℕ
  pub linger_us : ℕ
  pub capacity : ℕ
  pub reps : ℕ

unfoldable pub capture_last : CaptureOptions → List ℕ → Asked CaptureOptions
unfolding is_path
capture_last o arg = if is_path o.path arg then alone (record o { path = arg }) else fails

unfoldable pub capture_value : CaptureOptions → (arg text : List ℕ) → Asked CaptureOptions
unfolding capture_last
capture_value o arg text =
    if same_text arg (codes "-w")
    then with_count (positive (count_from_zero text 256)) (λ v. record o { workers = v })
    else if same_text arg (codes "-b")
    then with_count (positive (count_from_zero text (2 ^ 20))) (λ v. record o { batch = v })
    else if same_text arg (codes "-L")
    then with_count (count_from_zero text 1000000) (λ v. record o { linger_us = v })
    else if same_text arg (codes "-q")
    then with_count (positive (count_from_zero text (2 ^ 24))) (λ v. record o { capacity = v })
    else if same_text arg (codes "--reps")
    then with_count (positive (count_from_zero text 1000)) (λ v. record o { reps = v })
    else capture_last o arg

unfoldable pub read_capture : (cores : ℕ) → List (List ℕ) → Option CaptureOptions
unfolding take_all capture_value
read_capture cores args =
    elim (take_all capture_value capture_last
      (record {
        path = [];
        workers = if ltb 1 cores then cores - 1 else 1;
        batch = 256;
        linger_us = 2000;
        capacity = 4096;
        reps = 5;
      })
      args) [ none ↦ none | some o ↦ if length o.path == 0 then none else some o ]
