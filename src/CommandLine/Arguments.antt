-- ===== src/CommandLine/Arguments.antt =====
-- The loop of src/main.cpp over the arguments, and the tests that follow it.
use net_sentinel.Base.{
  ℕ, ◌-◌, ◌^◌, Bool, true, false, not, ◌&&◌, ◌||◌, ◌==◌, ltb, if◌then◌else◌, none, some, List, [],
  ◌∷◌, ◌++◌, ◌⊎◌, inl, inr, length,
}
use net_sentinel.Base.Text.{codes, decimal, same_text}
use net_sentinel.CommandLine.{parse_nonnegative}

-- The variables that the loop sets.
pub record Options (Double : Type 0) : Type 0 where
  pub device : List ℕ
  pub pcap_file : List ℕ
  pub max_packets : ℕ
  pub list_only : Bool
  pub verbose : Bool
  pub use_gpu : Bool
  pub num_workers : ℕ
  pub queue_capacity : ℕ
  pub batch_size : ℕ
  pub linger_us : ℕ
  pub entropy_threshold : Double
  pub quiet : Bool

-- Why the program exits with `EXIT_FAILURE`: the usage, or a message.
pub data Failure : Type 0 where
  usage : Failure
  message : (text : List ℕ) → Failure

unfoldable pub invalid_value : (flag text : List ℕ) → (max_value : ℕ) → Failure
invalid_value flag text max_value = message (
    codes "invalid value for "
    ++ (flag
        ++ (codes ": '"
            ++ (text ++ (codes "' (expected 0.." ++ (decimal max_value ++ codes ")"))))))

-- What an argument does: it fails, or it sets variables, alone or with the argument behind it.
pub data Taken (Double : Type 0) : Type 0 where
  fails : Failure → Taken Double
  alone : Options Double → Taken Double
  with_value : Options Double → Taken Double

-- An option with a number.
unfoldable pub with_number :
    {Double : Type 0} → (flag text : List ℕ) → (max_value : ℕ) → (ℕ → Options Double) → Taken Double
with_number flag text max_value set = elim (parse_nonnegative text max_value) [
  | none ↦ fails (invalid_value flag text max_value)
  | some value ↦ with_value (set value)
]

-- What the program uses of `double` here: `std::strtod`, with whether it takes the whole text and not
-- nothing, and the comparisons with 0.0 and 8.0.
pub record Thresholds (Double : Type 0) : Type 0 where
  pub strtod : List ℕ → Double × Bool
  pub below_zero : Double → Bool
  pub above_eight : Double → Bool
  pub seven : Double

module _ {Double : Type 0} (double : Thresholds Double) where
  unfoldable pub with_threshold : Options Double → (text : List ℕ) → Taken Double
  with_threshold o text =
      let (value, whole) = double.strtod text in
      if not whole || double.below_zero value || double.above_eight value
      then fails
          (message (codes "invalid value for -e: '" ++ (text ++ codes "' (expected 0.0..8.0)")))
      else with_value (record o { entropy_threshold = value })

  -- The variables before the loop; `hardware_concurrency` is `cores`.
  abbrev pub defaults : (cores : ℕ) → Options Double
  defaults cores = record {
    device = [];
    pcap_file = [];
    max_packets = 0;
    list_only = false;
    verbose = false;
    use_gpu = false;
    num_workers = if ltb 1 cores then cores - 1 else 1;
    queue_capacity = 4096;
    batch_size = 64;
    linger_us = 2000;
    entropy_threshold = double.seven;
    quiet = false;
  }

  -- An argument that may take the text behind it; the options that take none come where the code has
  -- them, so that `-i` at the end, too, is an unknown option.
  unfoldable pub take_value : Options Double → (arg text : List ℕ) → Taken Double
  take_value o arg text =
      if same_text arg (codes "-i")
      then with_value (record o { device = text })
      else if same_text arg (codes "-r")
      then with_value (record o { pcap_file = text })
      else if same_text arg (codes "-c")
      then with_number (codes "-c") text (2 ^ 31 - 1) (λ v. record o { max_packets = v })
      else if same_text arg (codes "-l")
      then alone (record o { list_only = true })
      else if same_text arg (codes "-w")
      then with_number (codes "-w") text 1024 (λ v. record o { num_workers = v })
      else if same_text arg (codes "-q")
      then with_number (codes "-q") text (2 ^ 24) (λ v. record o { queue_capacity = v })
      else if same_text arg (codes "-b")
      then with_number (codes "-b") text (2 ^ 20) (λ v. record o { batch_size = v })
      else if same_text arg (codes "-L")
      then with_number (codes "-L") text 1000000 (λ v. record o { linger_us = v })
      else if same_text arg (codes "-v")
      then alone (record o { verbose = true })
      else if same_text arg (codes "-g")
      then alone (record o { use_gpu = true })
      else if same_text arg (codes "-s")
      then alone (record o { quiet = true })
      else if same_text arg (codes "-e")
      then with_threshold o text
      else fails usage

  -- The last argument.
  unfoldable pub take_last : Options Double → (arg : List ℕ) → Failure ⊎ Options Double
  take_last o arg =
      if same_text arg (codes "-l")
      then inr (record o { list_only = true })
      else if same_text arg (codes "-v")
      then inr (record o { verbose = true })
      else if same_text arg (codes "-g")
      then inr (record o { use_gpu = true })
      else if same_text arg (codes "-s")
      then inr (record o { quiet = true })
      else inl usage

  -- The loop.
  unfoldable pub take_arguments : Options Double → List (List ℕ) → Failure ⊎ Options Double
  take_arguments o [] = inr o
  take_arguments o (arg ∷ []) = take_last o arg
  take_arguments o (arg ∷ text ∷ rest) = elim (take_value o arg text) [
    | fails why ↦ inl why
    | alone set ↦ take_arguments set (text ∷ rest)
    | with_value set ↦ take_arguments set rest
  ]

  -- What the program goes on to do.
  unfoldable pub check_options : Options Double → Failure ⊎ Options Double
  check_options o =
      let no_device = length o.device == 0 in
      let no_file = length o.pcap_file == 0 in
      if o.list_only
      then inr o
      else if no_device && no_file || not no_device && not no_file
      then inl usage
      else if o.queue_capacity == 0 || o.batch_size == 0
      then inl (message (codes "queue capacity and batch size must be positive"))
      else inr o

  -- The arguments without the program's name.
  unfoldable pub read_options : (cores : ℕ) → List (List ℕ) → Failure ⊎ Options Double
  read_options cores args = elim (take_arguments (defaults cores) args) [
    | inl why ↦ inl why
    | inr o ↦ check_options o
  ]
