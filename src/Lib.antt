-- ===== src/Lib.antt =====
-- NetSentinel: a detector of network anomalies. A capture thread parses frames and pushes the packets
-- onto a bounded queue; worker threads pop batches and hand each to the analysis engine, which looks for
-- known-bad payloads, payloads of high entropy, port scans and SYN floods, and calls a sink with alerts.
--
-- The files, and the code that each models:
--   Packet, Alert    the records of include/netsentinel/packet.hpp and alert.hpp, with
--                    make_queued_packet of src/queue/packet_queue.cpp
--   Parser           parse_packet of src/capture/parser.cpp over the layouts of
--                    include/netsentinel/headers.hpp; Parser/Frames has the frame builders of
--                    tests/test_support.hpp
--   Flow             include/netsentinel/flow_tracker.hpp and src/analysis/flow_tracker.cpp. Flow/Rules
--                    has the two rules of observe on the record of one source (observe_state);
--                    Flow/Shards has the shards, evict_stale, observe and tracked_ip_count
--   Signature        src/analysis/signature_db.cpp
--   Entropy          src/analysis/entropy.cpp
--   Engine           src/analysis/analysis_engine.cpp and entropy_backend.cpp
--   Printing         src/capture/packet.cpp, and format_alert of src/analysis/alert.cpp
--   Queue            src/queue/packet_queue.cpp; Queue/Pool has worker_loop of src/queue/worker_pool.cpp
--                    and the interleavings of the workers with the capture thread; Queue/Waits has the
--                    sleep of push on its condition variable, and the notifications
--   Capture          src/capture/capture.cpp and include/netsentinel/capture.hpp
--   Gpu              src/gpu/metal_context.cpp and include/netsentinel/gpu/metal_context.hpp: buffers, their
--                    pool and kernels. Gpu/Dispatch has the packing, submission and wait of a dispatch, and
--                    src/gpu/gpu_entropy_backend.cpp, with which Gpu/Analysis runs the engine. Gpu/Shader
--                    has a group of threads of src/shaders/payload_entropy.metal
--   CommandLine      parse_nonnegative of src/main.cpp; CommandLine/Arguments has the options of its main
--   Program          the rest of main in src/main.cpp: the devices, the ways to fail, and what is printed
--   Reporting        print_packet and print_alert of src/main.cpp
--   Pipeline         how main joins capture, queue and workers
--   Bench            the number parsers of src/bench. Bench/Rules has run_rule of bench_analysis.cpp,
--                    Bench/Stages run_stage of bench_capture.cpp, Bench/Passes a pass of bench_entropy.cpp,
--                    Bench/Sorting the medians, Bench/Threads the thread counts,
--                    Bench/Arguments the options
-- The other modules below these hold specifications and proofs.
--
-- How it is modelled. Bytes, words and sizes are natural numbers; where the code can wrap around, the
-- remainder is written out. Times in milliseconds are integers without bound in place of int64_t, which
-- no capture time leaves. A hash map is an association list without duplicate keys, in any order, a
-- deque a list, oldest first. A read past the end of a capture, which C++ leaves undefined, is a
-- result of its own. The sink is the list of the alerts in the order of its calls. A function that runs
-- under a lock is one step: observe holds its shard's mutex throughout, each part of push and pop_batch
-- between waits holds the queue's. In Queue/Pool any interleaving of such steps is allowed, and a
-- timeout may end a wait at any time; which worker a notification wakes is not modelled. Queue/Waits is the
-- other way round: the producers sleep until they are notified, and a notification comes after the mutex
-- is released.
--
-- What libpcap, poll and the stop flag answer during a capture is a list of rounds and turns, one for each
-- pass of the two loops; a call whose answers are used up goes on waiting. An int that would be counted
-- past its largest value is undefined in C++ and is the same result as a read past the end. A GPU buffer
-- is the list of its cells, and an access past its end is that result, too, as is a call through a null
-- encoder, which the code does not test for; a batch with the GPU has that result as soon as one of its
-- accesses has it. A command-line text is the list of its bytes before the NUL.
--
-- Loops are recursions on the list that they consume, or on the number of payloads. The fuel of
-- decimal printing is 20 digits, enough for every number of 64 bits; that of halving a thread group is
-- 9, enough to bring 256 down to 0, and so is that of the shader's reduction. The increments of the
-- shader's histogram come in any order that keeps each thread's own. The doubling of the thread counts
-- has a fuel of 32, enough for any number of threads below 2 ^ 32; a pass over packets has as much as
-- there are packets.
--
-- Parameters: std::hash, the operations of double with std::log2, std::strtod and the printing of
-- "%.2f", what an entropy backend does in a call, the entropy kernel with the floats that it writes,
-- where it is not that of Gpu/Shader, what the joined threads leave to main, the order of the values
-- that are sorted, and what Metal answers: its device and queue, libraries, buffers and command
-- buffers.
--
-- Not modelled: the signal handler of src/main.cpp, the smoke test of the GPU and its shader, and the
-- timing and the tables of the programs in src/bench.
pub mod Base
pub mod Packet
pub mod Parser
pub mod Alert
pub mod Flow
pub mod Signature
pub mod Entropy
pub mod Engine
pub mod Printing
pub mod Queue
pub mod Gpu
pub mod Capture
pub mod CommandLine
pub mod Pipeline
pub mod Program
pub mod Bench
pub mod Reporting
