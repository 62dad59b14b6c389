-- ===== src/CommandLine/Tests.antt =====
-- Values and arguments; a threshold is a natural number, which its text writes in decimal.
use net_sentinel.Base.{
  ℕ, ◌≡◌, ◌≤◌, ltb, true, false, refl, none, some, List, [], ◌∷◌, ◌↔◌, ◌⊎◌, inl, inr, arith,
}
use net_sentinel.Base.Text.{codes, decimal, decimal_fuel, same_text}
use net_sentinel.CommandLine.{
  skip_spaces, take_sign, take_digits, strtoll, accepted, parse_nonnegative,
}
use net_sentinel.CommandLine.Numbers.{Written, parse_nonnegative-Written}
use net_sentinel.CommandLine.Arguments.{
  Options, usage, message, invalid_value, with_number, Thresholds, with_threshold, defaults,
  take_value, take_last, take_arguments, check_options, read_options,
}
use net_sentinel.CommandLine.Options.{Accepts, read_options-Accepts}
use net_sentinel.CommandLine.Rendering.{arguments_of, take_arguments-arguments_of}

program : Unit {0}
unfolding skip_spaces take_sign take_digits strtoll accepted parse_nonnegative invalid_value
    with_number with_threshold take_value take_last take_arguments check_options read_options
    decimal decimal_fuel same_text
program = tt

values :
    (parse_nonnegative (codes "64") 1024 ≡ some 64)
    × (parse_nonnegative (codes " +7") 1024 ≡ some 7)
    × (parse_nonnegative (codes "-0") 1024 ≡ some 0)
    × (parse_nonnegative (codes "-1") 1024 ≡ none)
    × (parse_nonnegative (codes "1025") 1024 ≡ none)
    × (parse_nonnegative (codes "12x") 1024 ≡ none)
    × (parse_nonnegative (codes "") 1024 ≡ none)
    × (parse_nonnegative (codes "+") 1024 ≡ none)
    × (parse_nonnegative (codes "99999999999999999999") 1024 ≡ none)
unfolding program
values = (refl, refl, refl, refl, refl, refl, refl, refl, refl)

parse_nonnegative-Written_example : (parse_nonnegative (codes "64") 1024 ≡ some 64) ↔ (
    (◌≤◌ 64 1024)
    × (Written (codes "64") false 64 ⊎ (Written (codes "64") true 64 × (◌≡◌ {A = ℕ} 64 0))))
parse_nonnegative-Written_example = parse_nonnegative-Written (codes "64") 1024 64 (omega arith)

abbrev toy : Thresholds ℕ
toy = record {
  strtod = λ text. elim (parse_nonnegative text 99) [ none ↦ (0, false) | some v ↦ (v, true) ];
  below_zero = λ v. false;
  above_eight = λ v. ltb 8 v;
  seven = 7;
}

abbrev replay : List (List ℕ)
replay = codes "-r" ∷ codes "a.pcap" ∷ codes "-s" ∷ codes "-w" ∷ codes "2" ∷ []

programs :
    (read_options toy 8 replay
      ≡ inr (record (defaults toy 8) { pcap_file = codes "a.pcap"; quiet = true; num_workers = 2 }))
    × (read_options toy 8 (codes "-i" ∷ []) ≡ inl usage)
    × (read_options toy 8 [] ≡ inl usage)
    × (read_options toy 8 (codes "-q" ∷ codes "0" ∷ replay)
        ≡ inl (message (codes "queue capacity and batch size must be positive")))
    × (read_options toy 8 (codes "-w" ∷ codes "x" ∷ replay)
        ≡ inl (message (codes "invalid value for -w: 'x' (expected 0..1024)")))
    × (read_options toy 8 (codes "-e" ∷ codes "9" ∷ replay)
        ≡ inl (message (codes "invalid value for -e: '9' (expected 0.0..8.0)")))
unfolding program
programs = (refl, refl, refl, refl, refl, refl)

read_options-Accepts_example : Accepts toy 8 (read_options toy 8 replay)
read_options-Accepts_example = read_options-Accepts toy 8 replay refl refl

abbrev set_options : Options ℕ
set_options = record (defaults toy 4) {
  pcap_file = codes "a.pcap";
  quiet = true;
  linger_us = 50;
  entropy_threshold = 5;
}

take_arguments-arguments_of_example :
    take_arguments toy (defaults toy 2) (arguments_of toy set_options (codes "5")) ≡ inr set_options
unfolding program
take_arguments-arguments_of_example =
    take_arguments-arguments_of toy 2 set_options (codes "5") (omega arith) (omega arith)
      (omega arith) (omega arith) (omega arith) refl refl refl
