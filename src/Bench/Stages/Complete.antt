-- ===== src/Bench/Stages/Complete.antt =====
-- The end of a stage with a queue.
use net_sentinel.Base.{
  ℕ, ◌%◌, ◌^◌, ◌≡◌, ◌==◌, ltb, if◌then◌else◌, length-replicate, refl, Bool, true, false, List, [],
  inr, All, arith,
}
use net_sentinel.Packet.{QueuedPacket}
use net_sentinel.Parser.Safety.{Returns}
use net_sentinel.Capture.{Next}
use net_sentinel.Capture.Coming.{IsNext}
use net_sentinel.Queue.{make_queue, shutdown}
use net_sentinel.Queue.Pool.{System, Steps, start, exited}
use net_sentinel.Pipeline.{analyzed_once}
use net_sentinel.Program.Summary.{Measures}
use net_sentinel.Bench.Stages.{Stage, queued_stage, start_reading, run_frames, finish_stage}
use net_sentinel.Bench.Stages.Counted.{
  pushed_all, counted_all, Returns-mono, run_frames-Ran, length-pushed_all,
}

finish_same :
    {Double : Type 0} (double : Measures Double) (stage : Stage) (packets consumed batches : ℕ)
    (seconds : Double)
    → queued_stage stage ≡ true
    → consumed ≡ packets
    → finish_stage double stage packets consumed batches seconds
      ≡ inr (record {
        packets = packets;
        seconds = seconds;
        avg_batch =
            if ltb 0 batches
            then double.divide (double.of_count packets) (double.of_count batches)
            else double.of_count 0;
      })
unfolding finish_stage
finish_same double stage packets consumed batches seconds queued same =
    let equal : (consumed == packets) ≡ true = ground (arith, same) in rw queued (rw equal refl)

-- For frames that hold the bytes that they announce, a stage with a queue reads the file to its end and pushes the
-- packets of its frames. If they go through the queue, which is shut down once the reading thread has
-- pushed the last one, and all workers have left, then the stage ends with its result, whatever the
-- interleaving, and not with the message that the queue lost packets. The packets of the result are those
-- of the file.
pub run_stage_complete :
    {Double : Type 0} (double : Measures Double) (stage : Stage) (answers : List Next)
    (linger : Bool) (max_n num_workers capacity : ℕ) (joined s : System QueuedPacket)
    (seconds : Double)
    → queued_stage stage ≡ true
    → All IsNext answers
    → Steps linger max_n (start num_workers (make_queue capacity) (pushed_all stage answers)) joined
    → joined.queue.is_shutdown ≡ false
    → joined.incoming ≡ []
    → Steps linger max_n (record joined { queue = shutdown joined.queue }) s
    → All (λ phase. phase ≡ exited) s.workers
    → Returns
        (λ after.
          (after.pushed ≡ pushed_all stage answers)
          × ((after.packets ≡ counted_all stage answers % 2 ^ 64)
              × (finish_stage double stage after.packets s.processed s.batches seconds
                  ≡ inr (record {
                    packets = after.packets;
                    seconds = seconds;
                    avg_batch =
                        if ltb 0 s.batches
                        then double.divide
                            (double.of_count after.packets)
                            (double.of_count s.batches)
                        else double.of_count 0;
                  }))))
        (run_frames stage answers start_reading)
unfolding start_reading
run_stage_complete double stage answers linger max_n num_workers capacity joined s seconds queued
      valid before is_open all_pushed later gone =
    let consumed =
      (analyzed_once linger max_n num_workers capacity (pushed_all stage answers) joined s before
        is_open all_pushed later gone).1 in
    let size = length-pushed_all stage answers queued in
    Returns-mono _ _ (run_frames stage answers start_reading)
      (run_frames-Ran stage answers start_reading valid
        (omega (arith, length-replicate {A = ℕ} 65536 0)) (omega arith))
      (λ after ran.
        let total : after.packets ≡ counted_all stage answers % 2 ^ 64 =
          omega (arith, ran.counts) in
        (
          ran.pushes,
          (
            total,
            finish_same double stage after.packets s.processed s.batches seconds queued
                (omega (arith, consumed, size, total)),
          ),
        ))
