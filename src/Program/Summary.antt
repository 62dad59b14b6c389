-- ===== src/Program/Summary.antt =====
-- The lines at the end of `main` of src/main.cpp, with the getters of src/queue/packet_queue.cpp that
-- they print. The operations of `double`, and `printf` of one, are an argument.
use net_sentinel.Base.{ℕ, ◌^◌, Bool, ltb, if◌then◌else◌, List, [], ◌∷◌}
use net_sentinel.Base.Text.{codes, decimal, concat}
use net_sentinel.Queue.{WaitTimes}
use net_sentinel.Reporting.{Reports}

-- The three bytes of the dash in UTF-8.
abbrev pub em_dash : List ℕ
em_dash = 226 ∷ 128 ∷ 148 ∷ []

-- The conversion of an integer, `*`, `/`, `> 0`, and `%.*f`.
pub record Measures (Double : Type 0) : Type 0 where
  pub of_count : ℕ → Double
  pub times : Double → Double → Double
  pub divide : Double → Double → Double
  pub positive : Double → Bool
  pub fixed : (decimals : ℕ) → Double → List ℕ

-- What is there once the workers are joined.
pub record Finished (Double : Type 0) : Type 0 where
  pub delivered : ℕ
  pub processed : ℕ
  pub batches : ℕ
  pub reports : Reports
  pub waits : WaitTimes
  pub fallbacks : ℕ
  pub seconds : Double
  pub capture_seconds : Double

module _ {Double : Type 0} (double : Measures Double) where
  unfoldable pub push_wait_seconds : WaitTimes → Double
  push_wait_seconds waits =
      double.divide (double.of_count waits.push_wait_ns) (double.of_count (10 ^ 9))

  unfoldable pub pop_wait_seconds : WaitTimes → Double
  pop_wait_seconds waits =
      double.divide (double.of_count waits.pop_wait_ns) (double.of_count (10 ^ 9))

  -- A quotient, or 0.0 where the divisor is not positive.
  abbrev ratio : Double → Double → Double
  ratio x y = if double.positive y then double.divide x y else double.of_count 0

  unfoldable pub done_line : Finished Double → List ℕ
  done_line f = concat (
      codes "done "
      ∷ em_dash
      ∷ codes " "
      ∷ decimal f.delivered
      ∷ codes " packet(s) captured, "
      ∷ decimal f.processed
      ∷ codes " processed, "
      ∷ decimal f.reports.alert_count
      ∷ codes " alert(s), "
      ∷ double.fixed 3 f.seconds
      ∷ codes "s, "
      ∷ double.fixed 0 (ratio (double.of_count f.processed) f.seconds)
      ∷ codes " packets/sec, avg batch "
      ∷ double.fixed 1 (
          if ltb 0 f.batches
          then double.divide (double.of_count f.processed) (double.of_count f.batches)
          else double.of_count 0)
      ∷ [])

  unfoldable pub types_line : Reports → List ℕ
  types_line r = concat (
      codes "alerts by type: port_scan="
      ∷ decimal r.port_scans
      ∷ codes " syn_flood="
      ∷ decimal r.syn_floods
      ∷ codes " high_entropy="
      ∷ decimal r.high_entropy_payloads
      ∷ codes " signature="
      ∷ decimal r.signature_matches
      ∷ [])

  unfoldable pub waiting_line : (num_workers : ℕ) → Finished Double → List ℕ
  unfolding push_wait_seconds pop_wait_seconds
  waiting_line num_workers f =
      let percent = λ (x y : Double). ratio (double.times (double.of_count 100) x) y in
      concat (
        codes "waiting: capture thread blocked on a full queue "
        ∷ double.fixed 0 (percent (push_wait_seconds f.waits) f.capture_seconds)
        ∷ codes "% of its "
        ∷ double.fixed 3 f.capture_seconds
        ∷ codes "s, workers waiting for packets "
        ∷ double.fixed 0 (
            percent (pop_wait_seconds f.waits)
              (double.times f.seconds (double.of_count num_workers)))
        ∷ codes "% of their time"
        ∷ [])

  unfoldable pub fallback_lines : (backend_name : List ℕ) → (fallbacks : ℕ) → List (List ℕ)
  fallback_lines backend_name fallbacks =
      if ltb 0 fallbacks
      then concat (
          codes "warning: "
          ∷ decimal fallbacks
          ∷ codes " batch(es) fell back to CPU entropy after a "
          ∷ backend_name
          ∷ codes " failure"
          ∷ [])
        ∷ []
      else []

  unfoldable pub summary_lines :
      (num_workers : ℕ) → (backend_name : List ℕ) → Finished Double → List (List ℕ)
  unfolding done_line types_line waiting_line fallback_lines
  summary_lines num_workers backend_name f =
      done_line f
      ∷ types_line f.reports
      ∷ waiting_line num_workers f
      ∷ fallback_lines backend_name f.fallbacks
