-- ===== src/Gpu/Agreement.antt =====
-- A batch on the GPU, whose dispatches run the shader, against the same batch on the CPU.
use net_sentinel.Base.{ℕ, ◌≡◌, ◌≤◌, List, some, Option, length}
use net_sentinel.Packet.{QueuedPacket}
use net_sentinel.Entropy.{Doubles, shannon_entropy}
use net_sentinel.Alert.{Alert}
use net_sentinel.Gpu.{Pipeline}
use net_sentinel.Gpu.Dispatch.{group_threads}
use net_sentinel.Gpu.Shader.{every, each, Merges, group_entropy}
use net_sentinel.Gpu.Strides.{IsSum}

module _ {Float : Type 0} (float : Doubles Float) (plus : Float → Float → Float) where
  -- The kernel's result for a payload is that of a group of the shader's threads, in some order.
  abbrev pub RunsOn : (kernel : List ℕ → Float) → Pipeline → (payload : List ℕ) → Type 0
  RunsOn kernel p payload =
      (bins : List ℕ) × ((order : List ℕ) × ((length bins ≡ 256)
          × (Merges (each (group_threads p) (λ tid. every tid (group_threads p) payload)) order
              × (group_entropy float plus (group_threads p) bins order payload
                  ≡ some (kernel payload)))))

  module _ (sum : IsSum plus float.zero)
      (minus-plus : (x y : Float) → float.minus x y ≡ plus x (float.minus float.zero y))
      (kernel : List ℕ → Float) (p : Pipeline) (some_thread : 1 ≤ p.max_threads) where
    module _ {Double : Type 0} (double : Doubles Double) (widen : Float → Double) where
      -- The `double` that the entropy of a payload in `float` widens to is its entropy in `double`.
      abbrev pub Widens : QueuedPacket → Type 0
      Widens packet =
          widen (shannon_entropy float (some packet.payload))
          ≡ shannon_entropy double (some packet.payload)
