-- ===== src/Engine/Tests.antt =====
-- Batches on a toy `double`, in which the entropy of a payload is the sum of its squared counts.
use net_sentinel.Base.{
  ℕ, ◌+◌, ◌*◌, ◌≡◌, refl, sym, leb, List, [], ◌∷◌, ◌++◌, none, some, arith, pos,
}
use mathlib.Core.Option.{some-injective}
use net_sentinel.Base.Text.{codes, decimal, decimal_fuel}
use net_sentinel.Packet.{QueuedPacket}
use net_sentinel.Alert.{Alert, high_entropy_payload, signature_match}
use net_sentinel.Parser.{bare_packet}
use net_sentinel.Flow.{default_config}
use net_sentinel.Flow.Shards.{observe}
use net_sentinel.Signature.{
  fnv1a_from, fnv1a_hash, has_hash, add_hash, add_signature, make_database, matches,
  k_eicar_test_string,
}
use net_sentinel.Entropy.{Doubles, increment, histogram_from, entropy_from, shannon_entropy}
use net_sentinel.Entropy.Counts.{shannon_entropy-order}
use net_sentinel.Engine.{
  EntropyBackend, compute, AnalysisEngine, make_engine, alert_for, eligible_of, signature_rule,
  run_rules, packet_entropy, cpu_backend, entropy_alert, entropy_rule, usable, finish_entropy,
  analyze_batch,
}
use net_sentinel.Engine.Batches.{entropy_alerts, analyze_batch-alerts, analyze_batch-fallback}

program : Unit {0}
unfolding fnv1a_from fnv1a_hash has_hash add_hash add_signature make_database matches increment
    histogram_from entropy_from shannon_entropy compute make_engine eligible_of signature_rule
    run_rules packet_entropy cpu_backend entropy_alert entropy_rule usable finish_entropy
    analyze_batch observe decimal decimal_fuel
program = tt

abbrev squares : Doubles ℕ
squares = record {
  zero = 0;
  of_size = λ n. n;
  minus = λ a b. a + b;
  times = λ a b. a * b;
  divide = λ a b. a;
  log2 = λ a. a;
  at_least = λ a b. leb b a;
  two_decimals = decimal;
}

abbrev engine : AnalysisEngine ℕ
engine =
    make_engine
      (record { flow = default_config; entropy_threshold = 4; entropy_min_payload_bytes = 2 })

abbrev carries : List ℕ → QueuedPacket
carries payload = record {
  meta = bare_packet (record { tv_sec = pos 0; tv_usec = pos 0 }) 60 60 [] [];
  payload = payload;
}

-- One payload at the threshold, one below, one too short, and the EICAR test string.
abbrev batch : List QueuedPacket
batch = carries (7 ∷ 7 ∷ []) ∷ carries (7 ∷ 8 ∷ []) ∷ carries (7 ∷ []) ∷ []

abbrev eicar_packet : QueuedPacket
eicar_packet = carries k_eicar_test_string

abbrev alert : List Alert
alert =
    alert_for high_entropy_payload (carries (7 ∷ 7 ∷ [])) (codes "entropy=4 bits/byte over 2B") ∷ []

abbrev none_start : EntropyBackend ℕ
none_start = record { start = λ packets. none }

abbrev exact : EntropyBackend ℕ
exact = record { start = λ packets. some (record { wait = some (4 ∷ 2 ∷ []) }) }

cpu_run : (analyze_batch squares (λ n. n) (cpu_backend squares) engine batch).1 ≡ alert
unfolding program
cpu_run = refl

eicar_run :
    signature_rule make_database eicar_packet
    ≡ alert_for signature_match eicar_packet (codes "payload matches a known-bad signature hash")
      ∷ []
unfolding program
eicar_run = refl

analyze_batch-alerts_example :
    (analyze_batch squares (λ n. n) exact engine batch).1
    ≡ (run_rules (λ n. n) engine.signatures engine.flow_tracker batch).1
      ++ entropy_alerts squares engine.config batch
unfolding program
analyze_batch-alerts_example =
    analyze_batch-alerts squares (λ n. n) exact engine batch
      λ entropies e h. sym (some-injective (4 ∷ 2 ∷ []) entropies e)

analyze_batch-fallback_example :
    let (cpu_engine, cpu_alerts) =
      analyze_batch squares (λ n. n) (cpu_backend squares) engine batch in
    (analyze_batch squares (λ n. n) none_start engine batch
      ≡ (record cpu_engine { fallbacks = 1 }, cpu_alerts))
    × (cpu_engine.fallbacks ≡ 0)
unfolding program
analyze_batch-fallback_example =
    analyze_batch-fallback squares (λ n. n) none_start engine batch (λ e. absurd (omega arith))
      λ entropies e h. cc

shannon_entropy-order_example :
    shannon_entropy squares (some (7 ∷ 8 ∷ 7 ∷ []))
    ≡ shannon_entropy squares (some (8 ∷ 7 ∷ 7 ∷ []))
shannon_entropy-order_example =
    shannon_entropy-order squares (7 ∷ 8 ∷ 7 ∷ []) (8 ∷ 7 ∷ 7 ∷ []) (omega arith) refl
      λ byte. omega arith
