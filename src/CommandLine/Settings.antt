-- ===== src/CommandLine/Settings.antt =====
-- What one option with a value sets.
use net_sentinel.Base.{
  ℕ, ◌≡◌, refl, ap, ◌∙◌, ◌-◌, ◌^◌, ◌≤◌, ◌<◌, Bool, true, false, List, [], ◌∷◌, inr, arith,
}
use net_sentinel.Base.Text.{codes, decimal, same_text}
use net_sentinel.CommandLine.Decimals.{parse_nonnegative-decimal}
use net_sentinel.CommandLine.Arguments.{
  Options, with_value, with_number, Thresholds, with_threshold, take_value, take_arguments,
}

module _ {Double : Type 0} (double : Thresholds Double) where
  pub with_number-decimal :
      (name : List ℕ) (n max_value : ℕ) (set : ℕ → Options Double)
      → n ≤ max_value
      → max_value < 2 ^ 63
      → with_number name (decimal n) max_value set ≡ with_value (set n)
  unfolding with_number
  with_number-decimal name n max_value set fits small =
      rw (parse_nonnegative-decimal n max_value fits small, with_number) refl

  pub take_max_packets :
      (o : Options Double) (n : ℕ)
      → n < 2 ^ 31
      → take_value double o (codes "-c") (decimal n) ≡ with_value (record o { max_packets = n })
  unfolding take_value same_text
  take_max_packets o n h =
      with_number-decimal (codes "-c") n (2 ^ 31 - 1) (λ v. record o { max_packets = v })
        (omega arith) (omega arith)

  pub take_num_workers :
      (o : Options Double) (n : ℕ)
      → n ≤ 1024
      → take_value double o (codes "-w") (decimal n) ≡ with_value (record o { num_workers = n })
  unfolding take_value same_text
  take_num_workers o n h =
      with_number-decimal (codes "-w") n 1024 (λ v. record o { num_workers = v }) h (omega arith)

  pub take_queue_capacity :
      (o : Options Double) (n : ℕ)
      → n ≤ 2 ^ 24
      → take_value double o (codes "-q") (decimal n) ≡ with_value (record o { queue_capacity = n })
  unfolding take_value same_text
  take_queue_capacity o n h =
      with_number-decimal (codes "-q") n (2 ^ 24) (λ v. record o { queue_capacity = v }) h
        (omega arith)

  pub take_batch_size :
      (o : Options Double) (n : ℕ)
      → n ≤ 2 ^ 20
      → take_value double o (codes "-b") (decimal n) ≡ with_value (record o { batch_size = n })
  unfolding take_value same_text
  take_batch_size o n h =
      with_number-decimal (codes "-b") n (2 ^ 20) (λ v. record o { batch_size = v }) h (omega arith)

  pub take_linger_us :
      (o : Options Double) (n : ℕ)
      → n ≤ 1000000
      → take_value double o (codes "-L") (decimal n) ≡ with_value (record o { linger_us = n })
  unfolding take_value same_text
  take_linger_us o n h =
      with_number-decimal (codes "-L") n 1000000 (λ v. record o { linger_us = v }) h (omega arith)

  pub take_threshold :
      (o : Options Double) (text : List ℕ) (value : Double)
      → double.strtod text ≡ (value, true)
      → double.below_zero value ≡ false
      → double.above_eight value ≡ false
      → take_value double o (codes "-e") text ≡ with_value (record o { entropy_threshold = value })
  unfolding take_value with_threshold same_text
  take_threshold o text value e low high =
      rw (ap (λ (r : Double × Bool). r.0) e)
        (rw (ap (λ (r : Double × Bool). r.1) e) (rw low (rw high refl)))

  pub take_two :
      (o set : Options Double) (arg text : List ℕ) (rest : List (List ℕ))
      → take_value double o arg text ≡ with_value set
      → take_arguments double o (arg ∷ text ∷ rest) ≡ take_arguments double set rest
  unfolding take_arguments
  take_two o set arg text rest e = rw (e, take_arguments) refl

  pub take_no_arguments : (o : Options Double) → take_arguments double o [] ≡ inr o
  unfolding take_arguments
  take_no_arguments o = refl

  pub take_numbers :
      (d o : Options Double) (threshold : List ℕ)
      → o.max_packets < 2 ^ 31
      → o.num_workers ≤ 1024
      → o.queue_capacity ≤ 2 ^ 24
      → o.batch_size ≤ 2 ^ 20
      → o.linger_us ≤ 1000000
      → double.strtod threshold ≡ (o.entropy_threshold, true)
      → double.below_zero o.entropy_threshold ≡ false
      → double.above_eight o.entropy_threshold ≡ false
      → take_arguments double d (
          codes "-c"
          ∷ decimal o.max_packets
          ∷ codes "-w"
          ∷ decimal o.num_workers
          ∷ codes "-q"
          ∷ decimal o.queue_capacity
          ∷ codes "-b"
          ∷ decimal o.batch_size
          ∷ codes "-L"
          ∷ decimal o.linger_us
          ∷ codes "-e"
          ∷ threshold
          ∷ [])
        ≡ inr (record d {
          max_packets = o.max_packets;
          num_workers = o.num_workers;
          queue_capacity = o.queue_capacity;
          batch_size = o.batch_size;
          linger_us = o.linger_us;
          entropy_threshold = o.entropy_threshold;
        })
  take_numbers d o threshold hc hw hq hb hl e low high =
      let c = record d { max_packets = o.max_packets } in
      let w = record c { num_workers = o.num_workers } in
      let q = record w { queue_capacity = o.queue_capacity } in
      let b = record q { batch_size = o.batch_size } in
      let l = record b { linger_us = o.linger_us } in
      take_two d c _ _ _ (take_max_packets d o.max_packets hc)
      ∙ (take_two c w _ _ _ (take_num_workers c o.num_workers hw)
          ∙ (take_two w q _ _ _ (take_queue_capacity w o.queue_capacity hq)
              ∙ (take_two q b _ _ _ (take_batch_size q o.batch_size hb)
                  ∙ (take_two b l _ _ _ (take_linger_us b o.linger_us hl)
                      ∙ (take_two l (record l { entropy_threshold = o.entropy_threshold }) _ _ []
                            (take_threshold l threshold o.entropy_threshold e low high)
                          ∙ take_no_arguments _)))))
