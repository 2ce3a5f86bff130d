-- ===== src/EbpfTracer/Reads.antt =====
-- What the daemon of final/src reads of the counts that final/bpf keeps.
use capstone_monitor.Base.{ℕ, ◌+◌, ◌%◌, ◌^◌, ◌<◌, ◌≡◌, ◌≢◌, true, some, List, arith}
use capstone_monitor.BpfMap.{BpfMap, IsHashMap}
use capstone_monitor.Bpf.{Call, Maps, handle_all}
use capstone_monitor.Bpf.Keys.{total, Alive}
use capstone_monitor.Bpf.Counts.{switches_of, vol_ctx_switches-handle_all}
use capstone_monitor.Bpf.Blocks.{blocks_of, Tracked, handle_all-Tracked}
use capstone_monitor.EbpfTracer.{EbpfTracer, ebpf_tracer_read_switches, ebpf_tracer_read_io}
use capstone_monitor.PerfCounter.{sub64}

module _ (counts : BpfMap ℕ) (names : BpfMap (List ℕ)) (laws : IsHashMap counts)
    (et : EbpfTracer) where
  difference : (n k : ℕ) → n < 2 ^ 64 → k < 2 ^ 64 → sub64 ((n + k) % 2 ^ 64) n ≡ k
  difference n k hn hk = omega arith

  -- With vol_ctx_switches there, between two readings of a task other than 0 whose end does not lie
  -- between them, which has a count at the first and makes fewer than 2^64 voluntary switches, the
  -- difference in `uint64_t` is the number of these switches.
  pub sub64-ebpf_tracer_read_switches :
      (p n : ℕ) (es : List Call) (m : Maps counts names)
      → et.has_switches ≡ true
      → p ≢ 0
      → n < 2 ^ 64
      → counts.lookup p m.vol_ctx_switches ≡ some n
      → Alive p es
      → total (switches_of p) es < 2 ^ 64
      → sub64
          (ebpf_tracer_read_switches counts names et p (handle_all counts names es m))
          (ebpf_tracer_read_switches counts names et p m)
        ≡ total (switches_of p) es
  unfolding ebpf_tracer_read_switches
  sub64-ebpf_tracer_read_switches p n es m s user hn h a few =
      rw (s, vol_ctx_switches-handle_all counts names laws p user es n m hn a h, h)
        (difference n (total (switches_of p) es) hn few)

  -- With io_counts there, between two readings of a process other than 0 and 1 whose end does not lie
  -- between them, which is registered and has a count at the first, and with fewer than 2^64
  -- completions, the difference in `uint64_t` is the number of these completions.
  pub sub64-ebpf_tracer_read_io :
      (p n : ℕ) (es : List Call) (m : Maps counts names)
      → et.has_io ≡ true
      → 1 < p
      → n < 2 ^ 64
      → Tracked counts names laws p n m
      → Alive p es
      → total (blocks_of p) es < 2 ^ 64
      → sub64
          (ebpf_tracer_read_io counts names et p (handle_all counts names es m))
          (ebpf_tracer_read_io counts names et p m)
        ≡ total (blocks_of p) es
  unfolding ebpf_tracer_read_io
  sub64-ebpf_tracer_read_io p n es m s user hn t a few =
      rw (s, (handle_all-Tracked counts names laws p user es n m hn a t).count, t.count)
        (difference n (total (blocks_of p) es) hn few)
