-- ===== src/Engine/Batches.antt =====
-- A batch of the analysis engine against its specification, for any backend.
use net_sentinel.Base.{
  ℕ, ◌+◌, ◌%◌, ◌^◌, ◌≡◌, refl, sym, ap, ◌∙◌, ◌≢◌, true, ◌==◌, leb, if◌then◌else◌, List, [], ◌∷◌,
  ◌++◌, Option, none, some, length, map, arith, Bool-cases, Option-cases, inl, inr, length-map,
}
use net_sentinel.Packet.{QueuedPacket, payload_size}
use net_sentinel.Alert.{Alert}
use net_sentinel.Flow.{FlowTracker}
use net_sentinel.Flow.Shards.{observe}
use net_sentinel.Flow.Bounds.{observe_all}
use net_sentinel.Signature.{SignatureDatabase}
use net_sentinel.Entropy.{Doubles}
use net_sentinel.Engine.{
  EntropyBackend, compute, AnalysisConfig, AnalysisEngine, eligible_of, signature_rule, run_rules,
  packet_entropy, cpu_backend, entropy_alert, entropy_rule, usable, finish_entropy, analyze_batch,
}

append_assoc : (xs ys zs : List Alert) → (xs ++ ys) ++ zs ≡ xs ++ (ys ++ zs)
append_assoc [] ys zs = refl
append_assoc (x ∷ xs) ys zs = ap (◌∷◌ x) (append_assoc xs ys zs)

append_nil : (xs : List Alert) → xs ++ [] ≡ xs
append_nil [] = refl
append_nil (x ∷ xs) = ap (◌∷◌ x) (append_nil xs)

-- The signature and flow rules do not see how the packets are cut into batches: two batches after
-- one another leave the tracker, and raise the alerts, that one batch of all their packets does.
pub run_rules-append :
    (hash32 : ℕ → ℕ) (signatures : SignatureDatabase) (tracker : FlowTracker)
    (first second : List QueuedPacket)
    → let (between, alerts) = run_rules hash32 signatures tracker first in
      let (last, later) = run_rules hash32 signatures between second in
      run_rules hash32 signatures tracker (first ++ second) ≡ (last, alerts ++ later)
unfolding run_rules
run_rules-append hash32 signatures tracker [] second = refl
run_rules-append hash32 signatures tracker (packet ∷ first) second =
    ap
      (λ (r : FlowTracker × List Alert).
        (r.0, signature_rule signatures packet ++ (observe hash32 tracker packet).1 ++ r.1))
      (run_rules-append hash32 signatures (observe hash32 tracker packet).0 first second)
    ∙ ap
        (λ a. (
          (run_rules hash32 signatures
              (run_rules hash32 signatures (observe hash32 tracker packet).0 first).0 second).0,
          a,
        ))
        (sym (
          append_assoc (signature_rule signatures packet ++ (observe hash32 tracker packet).1) _ _))

run_rules-observe_all :
    (hash32 : ℕ → ℕ) (signatures : SignatureDatabase) (tracker : FlowTracker)
    (batch : List QueuedPacket)
    → (run_rules hash32 signatures tracker batch).0 ≡ observe_all hash32 tracker batch
unfolding run_rules
run_rules-observe_all hash32 signatures tracker [] = refl
run_rules-observe_all hash32 signatures tracker (packet ∷ batch) =
    run_rules-observe_all hash32 signatures (observe hash32 tracker packet).0 batch

module _ {Double : Type 0} (double : Doubles Double) where
  -- The packets of a batch that the entropy rule looks at.
  abbrev pub eligible : AnalysisEngine Double → List QueuedPacket → List QueuedPacket
  eligible engine batch = eligible_of engine.config.entropy_min_payload_bytes batch

  -- What the entropy rule is to say of a batch: it looks at one packet at a time.
  abbrev pub entropy_alerts : AnalysisConfig Double → List QueuedPacket → List Alert
  entropy_alerts config [] = []
  entropy_alerts config (packet ∷ batch) =
      (if leb config.entropy_min_payload_bytes (payload_size packet)
        then entropy_alert double config packet (packet_entropy double packet)
        else [])
      ++ entropy_alerts config batch

  entropy_rule-eligible_of :
      (config : AnalysisConfig Double) (batch : List QueuedPacket)
      → let eligible = eligible_of config.entropy_min_payload_bytes batch in
        entropy_rule double config eligible (map (packet_entropy double) eligible)
        ≡ entropy_alerts config batch
  unfolding eligible_of entropy_rule
  entropy_rule-eligible_of config [] = refl
  entropy_rule-eligible_of config (packet ∷ batch) =
      elim (Bool-cases (leb config.entropy_min_payload_bytes (payload_size packet))) [
        | inl long ↦ rw long (
            ap (entropy_alert double config packet (packet_entropy double packet) ++◌)
              (entropy_rule-eligible_of config batch))
        | inr short ↦ rw short (entropy_rule-eligible_of config batch)
      ]

  entropy_rule_none :
      (config : AnalysisConfig Double) (eligible : List QueuedPacket)
      → (length eligible == 0) ≡ true
      → entropy_rule double config eligible (map (packet_entropy double) eligible) ≡ []
  unfolding entropy_rule
  entropy_rule_none config [] e = refl
  entropy_rule_none config (packet ∷ eligible) e = absurd (ground arith)

  usable-length :
      (eligible : List QueuedPacket) (computed : Option (List Double)) (entropies : List Double)
      → usable double eligible computed ≡ some entropies
      → (computed ≡ some entropies) × (length entropies ≡ length eligible)
  unfolding usable
  usable-length eligible none entropies e = cc
  usable-length eligible (some found) entropies e = ground arith

  finish_entropy-alerts :
      (backend : EntropyBackend Double) (engine : AnalysisEngine Double)
      (eligible : List QueuedPacket)
      → ((entropies : List Double)
          → compute backend eligible ≡ some entropies
          → length entropies ≡ length eligible
          → entropies ≡ map (packet_entropy double) eligible)
      → (finish_entropy double backend engine eligible).1
        ≡ entropy_rule double engine.config eligible (map (packet_entropy double) eligible)
  unfolding finish_entropy compute cpu_backend
  finish_entropy-alerts backend engine eligible faithful =
      elim (Option-cases (usable double eligible (compute backend eligible))) [
        | inl e ↦ rw (e, finish_entropy)
        | inr (entropies, e) ↦
            let (computed, size) = usable-length eligible (compute backend eligible) entropies e in
            rw (e, finish_entropy)
              (ap (entropy_rule double engine.config eligible) (faithful entropies computed size))
      ]

  -- For every backend that, when it gives as many entropies as there are packets, gives those of the
  -- packets in order: a batch raises the alerts of the signature and flow rules, and then exactly those
  -- of the entropy rule on each packet. A backend that cannot start, fails, or gives another number of
  -- results changes no alert.
  pub analyze_batch-alerts :
      (hash32 : ℕ → ℕ) (backend : EntropyBackend Double) (engine : AnalysisEngine Double)
      (batch : List QueuedPacket)
      → ((entropies : List Double)
          → compute backend (eligible engine batch) ≡ some entropies
          → length entropies ≡ length (eligible engine batch)
          → entropies ≡ map (packet_entropy double) (eligible engine batch))
      → (analyze_batch double hash32 backend engine batch).1
        ≡ (run_rules hash32 engine.signatures engine.flow_tracker batch).1
          ++ entropy_alerts engine.config batch
  unfolding analyze_batch
  analyze_batch-alerts hash32 backend engine batch faithful =
      elim (Bool-cases (length (eligible engine batch) == 0)) [
        | inl nobody ↦ rw nobody (
            sym (append_nil _)
            ∙ ap ((run_rules hash32 engine.signatures engine.flow_tracker batch).1 ++◌) (
                sym (entropy_rule_none engine.config (eligible engine batch) nobody)
                ∙ entropy_rule-eligible_of engine.config batch))
        | inr some_ ↦ rw some_ (
            ap ((run_rules hash32 engine.signatures engine.flow_tracker batch).1 ++◌) (
              finish_entropy-alerts backend engine (eligible engine batch) faithful
              ∙ entropy_rule-eligible_of engine.config batch))
      ]

  usable_other_size :
      (packets : List QueuedPacket) (computed : Option (List Double))
      → ((entropies : List Double) → computed ≡ some entropies → length entropies ≢ length packets)
      → usable double packets computed ≡ none
  unfolding usable
  usable_other_size packets none other = refl
  usable_other_size packets (some entropies) other = ground (arith, other entropies refl)

  usable-cpu :
      (packets : List QueuedPacket)
      → usable double packets (some (map (packet_entropy double) packets))
        ≡ some (map (packet_entropy double) packets)
  unfolding usable
  usable-cpu packets = ground (arith, length-map packets (packet_entropy double))

  -- When a batch has packets for the entropy rule, and the backend cannot start, fails, or gives
  -- another number of results, the engine and the alerts are those that the CPU backend would have
  -- left, but that one more fallback is counted; the CPU backend counts none.
  pub analyze_batch-fallback :
      (hash32 : ℕ → ℕ) (backend : EntropyBackend Double) (engine : AnalysisEngine Double)
      (batch : List QueuedPacket)
      → length (eligible engine batch) ≢ 0
      → ((entropies : List Double)
          → compute backend (eligible engine batch) ≡ some entropies
          → length entropies ≢ length (eligible engine batch))
      → let (cpu_engine, cpu_alerts) =
          analyze_batch double hash32 (cpu_backend double) engine batch in
        (analyze_batch double hash32 backend engine batch
          ≡ (record cpu_engine { fallbacks = (engine.fallbacks + 1) % 2 ^ 64 }, cpu_alerts))
        × (cpu_engine.fallbacks ≡ engine.fallbacks)
  unfolding analyze_batch finish_entropy compute cpu_backend
  analyze_batch-fallback hash32 backend engine batch some_ other = ground (
    arith,
    usable_other_size (eligible engine batch) (compute backend (eligible engine batch)) other,
    usable-cpu (eligible engine batch),
  )
