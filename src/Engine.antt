-- ===== src/Engine.antt =====
-- src/analysis/analysis_engine.cpp with src/analysis/entropy_backend.cpp: one worker's call of
-- `analyze_batch`. The sink is the list of alerts in the order of its calls. What the configured
-- backend does during the call is an argument: `start` may return no handle, and a handle's `wait` may
-- fail or fill in any vector. `double` is the parameter of `net_sentinel.Entropy`.
pub mod Batches
mod Tests
use net_sentinel.Base.{
  ℕ, ◌+◌, ◌%◌, ◌^◌, Bool, true, false, not, ◌&&◌, ◌==◌, ltb, leb, if◌then◌else◌, List, [], ◌∷◌,
  ◌++◌, Option, none, some, length, map,
}
use net_sentinel.Base.Text.{codes, decimal, snprintf}
use net_sentinel.Packet.{QueuedPacket, payload_size}
use net_sentinel.Alert.{Alert, AnomalyType, signature_match, high_entropy_payload}
use net_sentinel.Flow.{FlowTrackerConfig, FlowTracker, make_tracker}
use net_sentinel.Flow.Shards.{observe}
use net_sentinel.Signature.{SignatureDatabase, make_database, matches}
use net_sentinel.Entropy.{Doubles, shannon_entropy}

-- `PendingEntropy`: what `wait` puts into the vector, or `none` where it returns false.
pub record PendingEntropy (Double : Type 0) : Type 0 where
  pub wait : Option (List Double)

-- `EntropyBackend`: `none` is a null handle.
pub record EntropyBackend (Double : Type 0) : Type 0 where
  pub start : List QueuedPacket → Option (PendingEntropy Double)

-- `EntropyBackend::compute`.
unfoldable pub compute :
    {Double : Type 0} → EntropyBackend Double → List QueuedPacket → Option (List Double)
compute backend packets = elim (backend.start packets) [ none ↦ none | some pending ↦ pending.wait ]

pub record AnalysisConfig (Double : Type 0) : Type 0 where
  pub flow : FlowTrackerConfig
  pub entropy_threshold : Double
  pub entropy_min_payload_bytes : ℕ

pub record AnalysisEngine (Double : Type 0) : Type 0 where
  pub config : AnalysisConfig Double
  pub fallbacks : ℕ
  pub flow_tracker : FlowTracker
  pub signatures : SignatureDatabase

-- The constructor. A null backend is replaced by the CPU's before any call.
unfoldable pub make_engine : {Double : Type 0} → AnalysisConfig Double → AnalysisEngine Double
make_engine config = record {
  config = config;
  fallbacks = 0;
  flow_tracker = make_tracker config.flow;
  signatures = make_database;
}

abbrev pub alert_for : AnomalyType → QueuedPacket → List ℕ → Alert
alert_for type packet detail = record {
  type = type;
  src_ip = packet.meta.src_ip;
  dst_ip = packet.meta.dst_ip;
  src_port = packet.meta.src_port;
  dst_port = packet.meta.dst_port;
  detail = detail;
}

-- The packets whose payload is long enough for the entropy rule.
unfoldable pub eligible_of : ℕ → List QueuedPacket → List QueuedPacket
eligible_of minimum [] = []
eligible_of minimum (packet ∷ batch) =
    let rest = eligible_of minimum batch in
    if leb minimum (payload_size packet) then packet ∷ rest else rest

unfoldable pub signature_rule : SignatureDatabase → QueuedPacket → List Alert
signature_rule signatures packet =
    if ltb 0 (payload_size packet) && matches signatures (some packet.payload)
    then alert_for signature_match packet (codes "payload matches a known-bad signature hash") ∷ []
    else []

-- `hash32` is `std::hash<uint32_t>`. The loop over the batch that runs the rules on each packet.
unfoldable pub run_rules :
    (ℕ → ℕ) → SignatureDatabase → FlowTracker → List QueuedPacket → FlowTracker × List Alert
run_rules hash32 signatures tracker [] = (tracker, [])
run_rules hash32 signatures tracker (packet ∷ batch) =
    let (next, flow_alerts) = observe hash32 tracker packet in
    let (last, alerts) = run_rules hash32 signatures next batch in
    (last, signature_rule signatures packet ++ flow_alerts ++ alerts)

module _ {Double : Type 0} (double : Doubles Double) where
  unfoldable pub packet_entropy : QueuedPacket → Double
  packet_entropy packet = shannon_entropy double (some packet.payload)

  -- `CpuEntropyBackend`, with `ReadyEntropy` as its handle.
  unfoldable pub cpu_backend : EntropyBackend Double
  cpu_backend = record {
    start = λ packets. some (record { wait = some (map packet_entropy packets) });
  }

  unfoldable pub entropy_alert : AnalysisConfig Double → QueuedPacket → Double → List Alert
  entropy_alert config packet entropy =
      if double.at_least entropy config.entropy_threshold
      then alert_for high_entropy_payload packet (
          snprintf 96 (
            codes "entropy="
            ++ double.two_decimals entropy
            ++ codes " bits/byte over "
            ++ decimal (payload_size packet)
            ++ codes "B"))
        ∷ []
      else []

  -- The loop over the eligible packets and their entropies, which are as many.
  unfoldable pub entropy_rule : AnalysisConfig Double → List QueuedPacket → List Double → List Alert
  entropy_rule config [] entropies = []
  entropy_rule config (packet ∷ eligible) [] = []
  entropy_rule config (packet ∷ eligible) (entropy ∷ entropies) =
      entropy_alert config packet entropy ++ entropy_rule config eligible entropies

  -- The backend's entropies if there are as many as packets, and whether the CPU must stand in.
  unfoldable pub usable : List QueuedPacket → Option (List Double) → Option (List Double)
  usable eligible none = none
  usable eligible (some entropies) =
      if length entropies == length eligible then some entropies else none

  -- The entropy part of a batch, after the rules: its alerts and the new count of fallbacks.
  unfoldable pub finish_entropy :
      EntropyBackend Double → AnalysisEngine Double → List QueuedPacket → ℕ × List Alert
  unfolding cpu_backend compute
  finish_entropy backend engine eligible = elim (usable eligible (compute backend eligible)) [
    | some entropies ↦ (engine.fallbacks, entropy_rule engine.config eligible entropies)
    | none ↦ elim (compute cpu_backend eligible) [
      | some entropies ↦
          ((engine.fallbacks + 1) % 2 ^ 64, entropy_rule engine.config eligible entropies)
      | none ↦ ((engine.fallbacks + 1) % 2 ^ 64, [])
    ]
  ]

  unfoldable pub analyze_batch :
      (ℕ → ℕ)
      → EntropyBackend Double
      → AnalysisEngine Double
      → List QueuedPacket
      → AnalysisEngine Double × List Alert
  analyze_batch hash32 backend engine batch =
      let eligible = eligible_of engine.config.entropy_min_payload_bytes batch in
      let (tracker, alerts) = run_rules hash32 engine.signatures engine.flow_tracker batch in
      if length eligible == 0
      then (record engine { flow_tracker = tracker }, alerts)
      else let (fallbacks, entropy_alerts) = finish_entropy backend engine eligible in
        (record engine { flow_tracker = tracker; fallbacks = fallbacks }, alerts ++ entropy_alerts)
