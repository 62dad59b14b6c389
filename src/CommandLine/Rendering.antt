-- ===== src/CommandLine/Rendering.antt =====
-- Arguments that set given variables.
use net_sentinel.Base.{
  ℕ, ◌≡◌, ◌≢◌, refl, ap, ◌∙◌, ◌^◌, ◌≤◌, ◌<◌, Bool, true, false, List, [], ◌∷◌, inr,
}
use net_sentinel.Base.Text.{codes, decimal, same_text}
use net_sentinel.CommandLine.Arguments.{Options, Thresholds, defaults, take_value, take_arguments}
use net_sentinel.CommandLine.Settings.{take_numbers}

module _ {Double : Type 0} (double : Thresholds Double) where
  -- A flag, where it is set.
  abbrev flag : Bool → List ℕ → List (List ℕ) → List (List ℕ)
  flag true name rest = name ∷ rest
  flag false name rest = rest

  -- A text, where it is not empty.
  abbrev text_of : (name text : List ℕ) → List (List ℕ) → List (List ℕ)
  text_of name [] rest = rest
  text_of name (c ∷ text) rest = name ∷ (c ∷ text) ∷ rest

  -- The arguments for the variables, with a text for the threshold.
  abbrev pub arguments_of : Options Double → (threshold : List ℕ) → List (List ℕ)
  arguments_of o threshold = flag o.list_only (codes "-l") (
      flag o.verbose (codes "-v") (
        flag o.use_gpu (codes "-g") (
          flag o.quiet (codes "-s") (
            text_of (codes "-i") o.device (
              text_of (codes "-r") o.pcap_file (
                codes "-c"
                ∷ decimal o.max_packets
                ∷ codes "-w"
                ∷ decimal o.num_workers
                ∷ codes "-q"
                ∷ decimal o.queue_capacity
                ∷ codes "-b"
                ∷ decimal o.batch_size
                ∷ codes "-L"
                ∷ decimal o.linger_us
                ∷ codes "-e"
                ∷ threshold
                ∷ []))))))

  -- One more argument or two in front.
  take_flags :
      (o : Options Double) (rest : List (List ℕ))
      → rest ≢ []
      → (take_arguments double o (codes "-l" ∷ rest)
          ≡ take_arguments double (record o { list_only = true }) rest)
        × (take_arguments double o (codes "-v" ∷ rest)
            ≡ take_arguments double (record o { verbose = true }) rest)
        × (take_arguments double o (codes "-g" ∷ rest)
            ≡ take_arguments double (record o { use_gpu = true }) rest)
        × (take_arguments double o (codes "-s" ∷ rest)
            ≡ take_arguments double (record o { quiet = true }) rest)
  unfolding take_arguments take_value same_text
  take_flags o [] h = absurd (h refl)
  take_flags o (text ∷ rest) h = (refl, refl, refl, refl)

  take_device :
      (o : Options Double) (text : List ℕ) (rest : List (List ℕ))
      → o.device ≡ []
      → take_arguments double o (text_of (codes "-i") text rest)
        ≡ take_arguments double (record o { device = text }) rest
  unfolding take_arguments take_value same_text
  take_device o [] rest e =
      ap (λ (t : List ℕ). take_arguments double (record o { device = t }) rest) e
  take_device o (c ∷ text) rest e = refl

  take_file :
      (o : Options Double) (text : List ℕ) (rest : List (List ℕ))
      → o.pcap_file ≡ []
      → take_arguments double o (text_of (codes "-r") text rest)
        ≡ take_arguments double (record o { pcap_file = text }) rest
  unfolding take_arguments take_value same_text
  take_file o [] rest e =
      ap (λ (t : List ℕ). take_arguments double (record o { pcap_file = t }) rest) e
  take_file o (c ∷ text) rest e = refl

  flag_some : (b : Bool) (name : List ℕ) (rest : List (List ℕ)) → rest ≢ [] → flag b name rest ≢ []
  flag_some true name rest h = λ e. cc
  flag_some false name rest h = h

  text_of_some :
      (name text : List ℕ) (rest : List (List ℕ)) → rest ≢ [] → text_of name text rest ≢ []
  text_of_some name [] rest h = h
  text_of_some name (c ∷ text) rest h = λ e. cc

  take_list_only :
      (o : Options Double) (b : Bool) (rest : List (List ℕ))
      → o.list_only ≡ false
      → rest ≢ []
      → take_arguments double o (flag b (codes "-l") rest)
        ≡ take_arguments double (record o { list_only = b }) rest
  take_list_only o true rest e h = (take_flags o rest h).0
  take_list_only o false rest e h =
      ap (λ (b : Bool). take_arguments double (record o { list_only = b }) rest) e

  take_verbose :
      (o : Options Double) (b : Bool) (rest : List (List ℕ))
      → o.verbose ≡ false
      → rest ≢ []
      → take_arguments double o (flag b (codes "-v") rest)
        ≡ take_arguments double (record o { verbose = b }) rest
  take_verbose o true rest e h = (take_flags o rest h).1
  take_verbose o false rest e h =
      ap (λ (b : Bool). take_arguments double (record o { verbose = b }) rest) e

  take_use_gpu :
      (o : Options Double) (b : Bool) (rest : List (List ℕ))
      → o.use_gpu ≡ false
      → rest ≢ []
      → take_arguments double o (flag b (codes "-g") rest)
        ≡ take_arguments double (record o { use_gpu = b }) rest
  take_use_gpu o true rest e h = (take_flags o rest h).2
  take_use_gpu o false rest e h =
      ap (λ (b : Bool). take_arguments double (record o { use_gpu = b }) rest) e

  take_quiet :
      (o : Options Double) (b : Bool) (rest : List (List ℕ))
      → o.quiet ≡ false
      → rest ≢ []
      → take_arguments double o (flag b (codes "-s") rest)
        ≡ take_arguments double (record o { quiet = b }) rest
  take_quiet o true rest e h = (take_flags o rest h).3
  take_quiet o false rest e h =
      ap (λ (b : Bool). take_arguments double (record o { quiet = b }) rest) e

  -- Variables that are within the limits of the options are set by their arguments: the loop over the
  -- flags that are set, the texts that are not empty, the numbers in decimal and a text that
  -- `std::strtod` reads as the threshold, in this order, leaves exactly these variables, whatever the
  -- number of cores.
  pub take_arguments-arguments_of :
      (cores : ℕ) (o : Options Double) (threshold : List ℕ)
      → o.max_packets < 2 ^ 31
      → o.num_workers ≤ 1024
      → o.queue_capacity ≤ 2 ^ 24
      → o.batch_size ≤ 2 ^ 20
      → o.linger_us ≤ 1000000
      → double.strtod threshold ≡ (o.entropy_threshold, true)
      → double.below_zero o.entropy_threshold ≡ false
      → double.above_eight o.entropy_threshold ≡ false
      → take_arguments double (defaults double cores) (arguments_of o threshold) ≡ inr o
  take_arguments-arguments_of cores o threshold hc hw hq hb hl e low high =
      let d = defaults double cores in
      let dl = record d { list_only = o.list_only } in
      let dv = record dl { verbose = o.verbose } in
      let dg = record dv { use_gpu = o.use_gpu } in
      let ds = record dg { quiet = o.quiet } in
      let di = record ds { device = o.device } in
      let dr = record di { pcap_file = o.pcap_file } in
      let numbers : List (List ℕ) =
        codes "-c"
        ∷ decimal o.max_packets
        ∷ codes "-w"
        ∷ decimal o.num_workers
        ∷ codes "-q"
        ∷ decimal o.queue_capacity
        ∷ codes "-b"
        ∷ decimal o.batch_size
        ∷ codes "-L"
        ∷ decimal o.linger_us
        ∷ codes "-e"
        ∷ threshold
        ∷ [] in
      let file = text_of (codes "-r") o.pcap_file numbers in
      let device = text_of (codes "-i") o.device file in
      let quiet = flag o.quiet (codes "-s") device in
      let gpu = flag o.use_gpu (codes "-g") quiet in
      let verbose = flag o.verbose (codes "-v") gpu in
      let some_file = text_of_some (codes "-r") o.pcap_file numbers (λ f. cc) in
      let some_device = text_of_some (codes "-i") o.device file some_file in
      let some_quiet = flag_some o.quiet (codes "-s") device some_device in
      let some_gpu = flag_some o.use_gpu (codes "-g") quiet some_quiet in
      let some_verbose = flag_some o.verbose (codes "-v") gpu some_gpu in
      take_list_only d o.list_only verbose refl some_verbose
      ∙ (take_verbose dl o.verbose gpu refl some_gpu
          ∙ (take_use_gpu dv o.use_gpu quiet refl some_quiet
              ∙ (take_quiet dg o.quiet device refl some_device
                  ∙ (take_device ds o.device file refl
                      ∙ (take_file di o.pcap_file numbers refl
                          ∙ take_numbers double dr o threshold hc hw hq hb hl e low high)))))
