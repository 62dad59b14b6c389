-- ===== src/CommandLine/Options.antt =====
-- Which variables the program can start with.
use net_sentinel.Base.{
  ℕ, ◌≡◌, ◌≢◌, ◌-◌, ◌^◌, ◌≤◌, ◌<◌, max, Bool, true, false, not, ◌&&◌, ◌||◌, ◌==◌, if◌then◌else◌,
  List, [], ◌∷◌, ◌⊎◌, inl, inr, length, arith, Bool-cases, Option-cases,
}
use net_sentinel.Base.Text.{codes, same_text}
use net_sentinel.CommandLine.{parse_nonnegative}
use net_sentinel.CommandLine.Numbers.{parse_nonnegative-Written}
use net_sentinel.CommandLine.Arguments.{
  Options, Failure, Taken, fails, alone, with_value, with_number, Thresholds, with_threshold,
  defaults, take_value, take_last, take_arguments, check_options, read_options,
}

either {ℓ} : {A : Type ℓ} (P : A → Type 0) (b : Bool) (x y : A) → P x → P y → P (if b then x else y)
either P true x y p q = p
either P false x y p q = q

module _ {Double : Type 0} (double : Thresholds Double) (cores : ℕ) where
  -- The largest values that the options allow; the default for the workers may be larger.
  abbrev pub InBounds : Options Double → Type 0
  InBounds o =
      (o.max_packets < 2 ^ 31)
      × (o.num_workers ≤ max 1024 (cores - 1))
      × (o.queue_capacity ≤ 2 ^ 24)
      × (o.batch_size ≤ 2 ^ 20)
      × (o.linger_us ≤ 1000000)
      × (double.below_zero o.entropy_threshold ≡ false)
      × (double.above_eight o.entropy_threshold ≡ false)

  abbrev TakenInBounds : Taken Double → Type 0
  TakenInBounds (fails why) = Unit
  TakenInBounds (alone o) = InBounds o
  TakenInBounds (with_value o) = InBounds o

  abbrev ReadInBounds : Failure ⊎ Options Double → Type 0
  ReadInBounds (inl why) = Unit
  ReadInBounds (inr o) = InBounds o

  with_number-InBounds :
      (flag text : List ℕ) (max_value : ℕ) (set : ℕ → Options Double)
      → max_value < 2 ^ 63
      → ((v : ℕ) → v ≤ max_value → InBounds (set v))
      → TakenInBounds (with_number flag text max_value set)
  unfolding with_number
  with_number-InBounds flag text max_value set small h =
      elim (Option-cases (parse_nonnegative text max_value)) [
        | inl e ↦ rw (e, TakenInBounds) tt
        | inr (v, e) ↦
            rw (e, TakenInBounds) (h v ((parse_nonnegative-Written text max_value v small).0 e).0)
      ]

  with_threshold-InBounds :
      (o : Options Double) (text : List ℕ)
      → InBounds o
      → TakenInBounds (with_threshold double o text)
  unfolding with_threshold
  with_threshold-InBounds o text h =
      elim (Bool-cases (
        not (double.strtod text).1
        || double.below_zero (double.strtod text).0
        || double.above_eight (double.strtod text).0)) [
          | inl e ↦ rw (e, TakenInBounds) tt
          | inr e ↦
              rw (e, TakenInBounds) (h.0, h.1, h.2, h.3, h.4, ground (arith, e), ground (arith, e))
        ]

  take_value-InBounds :
      (o : Options Double) (arg text : List ℕ)
      → InBounds o
      → TakenInBounds (take_value double o arg text)
  unfolding take_value
  take_value-InBounds o arg text h =
      let P = TakenInBounds in
      either P (same_text arg (codes "-i")) _ _ h (
        either P (same_text arg (codes "-r")) _ _ h (
          either P (same_text arg (codes "-c")) _ _
            (with_number-InBounds (codes "-c") text (2 ^ 31 - 1) (λ v. record o { max_packets = v })
              (omega arith) (λ v b. (omega (arith, b), h.1, h.2, h.3, h.4, h.5, h.6)))
            (either P (same_text arg (codes "-l")) _ _ h (
              either P (same_text arg (codes "-w")) _ _
                (with_number-InBounds (codes "-w") text 1024 (λ v. record o { num_workers = v })
                  (omega arith) (λ v b. (h.0, omega (arith, b), h.2, h.3, h.4, h.5, h.6)))
                (either P (same_text arg (codes "-q")) _ _
                  (with_number-InBounds (codes "-q") text (2 ^ 24)
                    (λ v. record o { queue_capacity = v }) (omega arith)
                    (λ v b. (h.0, h.1, b, h.3, h.4, h.5, h.6)))
                  (either P (same_text arg (codes "-b")) _ _
                    (with_number-InBounds (codes "-b") text (2 ^ 20)
                      (λ v. record o { batch_size = v }) (omega arith)
                      (λ v b. (h.0, h.1, h.2, b, h.4, h.5, h.6)))
                    (either P (same_text arg (codes "-L")) _ _
                      (with_number-InBounds (codes "-L") text 1000000
                        (λ v. record o { linger_us = v }) (omega arith)
                        (λ v b. (h.0, h.1, h.2, h.3, b, h.5, h.6)))
                      (either P (same_text arg (codes "-v")) _ _ h (
                        either P (same_text arg (codes "-g")) _ _ h (
                          either P (same_text arg (codes "-s")) _ _ h (
                            either P (same_text arg (codes "-e")) _ _
                              (with_threshold-InBounds o text h) tt)))))))))))

  take_last-InBounds :
      (o : Options Double) (arg : List ℕ) → InBounds o → ReadInBounds (take_last double o arg)
  unfolding take_last
  take_last-InBounds o arg h =
      let P = ReadInBounds in
      either P (same_text arg (codes "-l")) _ _ h (
        either P (same_text arg (codes "-v")) _ _ h (
          either P (same_text arg (codes "-g")) _ _ h
            (either P (same_text arg (codes "-s")) _ _ h tt)))

  take_arguments-InBounds :
      (o : Options Double) (args : List (List ℕ))
      → InBounds o
      → ReadInBounds (take_arguments double o args)
  unfolding take_arguments
  take_arguments-InBounds o [] h = h
  take_arguments-InBounds o (arg ∷ []) h = take_last-InBounds o arg h
  take_arguments-InBounds o (arg ∷ text ∷ rest) h =
      (elim (take_value double o arg text)
          as (λ t.
            TakenInBounds t
            → ReadInBounds (elim t [
              | fails why ↦ inl why
              | alone set ↦ take_arguments double set (text ∷ rest)
              | with_value set ↦ take_arguments double set rest
            ])) [
              | fails why ↦ λ t. tt
              | alone set ↦ λ t. take_arguments-InBounds set (text ∷ rest) t
              | with_value set ↦ λ t. take_arguments-InBounds set rest t
            ])
        (take_value-InBounds o arg text h)

  -- What the program may start to capture with.
  abbrev pub Startable : Options Double → Type 0
  Startable o =
      (1 ≤ o.queue_capacity)
      × (1 ≤ o.batch_size)
      × (((length o.device ≡ 0) × (length o.pcap_file ≢ 0))
          ⊎ ((length o.device ≢ 0) × (length o.pcap_file ≡ 0)))

  abbrev pub Accepts : Failure ⊎ Options Double → Type 0
  Accepts (inl why) = Unit
  Accepts (inr o) = InBounds o × (o.list_only ≡ false → Startable o)

  check_options-Accepts : (o : Options Double) → InBounds o → Accepts (check_options double o)
  unfolding check_options
  check_options-Accepts o h =
      let no_device = length o.device == 0 in
      let no_file = length o.pcap_file == 0 in
      elim (Bool-cases o.list_only) [
        | inl l ↦ rw (l, Accepts) (h, λ f. absurd (cc))
        | inr l ↦ elim (Bool-cases (no_device && no_file || not no_device && not no_file)) [
          | inl e ↦ rw (l, Accepts) (rw (e, Accepts) tt)
          | inr e ↦ elim (Bool-cases (o.queue_capacity == 0 || o.batch_size == 0)) [
            | inl f ↦ rw (l, Accepts) (rw (e, Accepts) (rw (f, Accepts) tt))
            | inr f ↦
                rw (l, Accepts) (rw (e, Accepts) (rw (f, Accepts) (h, λ g. ground (arith, e, f))))
          ]
        ]
      ]

  -- Whatever the arguments are, the program exits with a failure, or it goes on with a packet limit
  -- that an `int` holds, at most 1024 workers or one less than the cores, a queue of at most 2 ^ 24
  -- packets, batches of at most 2 ^ 20, at most a second of linger and a threshold that is neither below
  -- 0.0 nor above 8.0; and, unless it only lists devices, with exactly one source and with a capacity
  -- and a batch size of at least 1. The default threshold has to be neither below 0.0 nor above 8.0.
  pub read_options-Accepts :
      (args : List (List ℕ))
      → double.below_zero double.seven ≡ false
      → double.above_eight double.seven ≡ false
      → Accepts (read_options double cores args)
  unfolding read_options
  read_options-Accepts args low high =
      let start : InBounds (defaults double cores) =
        (omega arith, ground arith, omega arith, omega arith, omega arith, low, high) in
      (elim (take_arguments double (defaults double cores) args)
          as (λ r.
            ReadInBounds r
            → Accepts (elim r [ inl why ↦ inl why | inr o ↦ check_options double o ])) [
              | inl why ↦ λ h. tt
              | inr o ↦ λ h. check_options-Accepts o h
            ])
        (take_arguments-InBounds (defaults double cores) args start)
