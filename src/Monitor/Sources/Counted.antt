-- ===== src/Monitor/Sources/Counted.antt =====
-- What the deltas of the slow path in final/src/monitor_final.c count, with the tracer of
-- final/src/ebpf_tracer.c and the programs of final/bpf/ctx_switch.bpf.c behind them.
use capstone_monitor.Base.{
  ℕ, ◌^◌, ◌≤◌, ◌<◌, ◌≡◌, ◌≢◌, ap, ap₂, ◌∙◌, Bool, true, Option, some, List, [], length, elem, ltb,
  if◌then◌else◌, if_both, not, none, arith,
}
use capstone_monitor.Bpf.{Call, Maps, handle_all}
use capstone_monitor.Bpf.Blocks.{blocks_of, Tracked}
use capstone_monitor.Bpf.Counts.{switches_of}
use capstone_monitor.Bpf.Keys.{total, Alive}
use capstone_monitor.BpfMap.{BpfMap, IsHashMap}
use capstone_monitor.EbpfTracer.{
  EbpfTracer, found, ebpf_tracer_get_active_pids, ebpf_tracer_read_switches, ebpf_tracer_read_io,
}
use capstone_monitor.EbpfTracer.Reads.{sub64-ebpf_tracer_read_switches, sub64-ebpf_tracer_read_io}
use capstone_monitor.PerfCounter.{RawCounters, sub64}
use capstone_monitor.Monitor.{PidState, Tracer}
use capstone_monitor.Monitor.SlowPath.{deltas}
use capstone_monitor.Monitor.Sources.{tracer_of}

module _ (counts : BpfMap ℕ) (names : BpfMap (List ℕ)) (laws : IsHashMap counts) (et : EbpfTracer)
    (World : Type 0) (maps : World → Maps counts names)
    (with_maps : Maps counts names → World → World)
    (comm_file stat_file status_file : ℕ → World → Option (List ℕ)) where
  -- the tracer of the slots
  abbrev pub source : Tracer World
  source = tracer_of counts names et World maps with_maps comm_file stat_file status_file

  -- With the maps of ebpf_tracer.c there: let a process other than 0 and 1 have an entry in
  -- vol_ctx_switches at `u`, the state at which its switches were last read, and be registered in
  -- active_pids with an entry in io_counts at `v`, that of its last read of the completions. Between
  -- these states and `w` let the two maps change only by calls of handlers, `es` since `u` and `fs`
  -- since `v`, in which it does not end; exec_comms may change in any way. Then the deltas at `w` are
  -- the numbers of its voluntary switches in `es` and of its block I/O completions in `fs`, if these
  -- are below 2^64.
  pub deltas-handle_all :
      (p n k : ℕ) (es fs : List Call) (u v w : World) (st : PidState) (cur : RawCounters)
      → et.has_switches ≡ true
      → et.has_io ≡ true
      → 1 < p
      → n < 2 ^ 64
      → k < 2 ^ 64
      → counts.lookup p (maps u).vol_ctx_switches ≡ some n
      → Tracked counts names laws p k (maps v)
      → Alive p es
      → Alive p fs
      → total (switches_of p) es < 2 ^ 64
      → total (blocks_of p) fs < 2 ^ 64
      → (maps w).vol_ctx_switches ≡ (handle_all counts names es (maps u)).vol_ctx_switches
      → (maps w).io_counts ≡ (handle_all counts names fs (maps v)).io_counts
      → st.prev_ctx ≡ source.read_switches p u
      → st.prev_io ≡ source.read_io p v
      → let d = deltas st cur (source.read_switches p w) (source.read_io p w) in
        (d.d_ctx ≡ total (switches_of p) es) × (d.d_io ≡ total (blocks_of p) fs)
  unfolding deltas tracer_of ebpf_tracer_read_switches ebpf_tracer_read_io
  deltas-handle_all p n k es fs u v w st cur s i user hn hk first tracked alive alive' few few' eu
        ev base base' =
      (
        ap₂ sub64 (ap (λ m. if not et.has_switches then 0 else found (counts.lookup p m)) eu) base
            ∙ sub64-ebpf_tracer_read_switches counts names laws et p n es (maps u) s
                (λ z. omega (arith, z, user)) hn first alive few,
        ap₂ sub64 (ap (λ m. if not et.has_io then 0 else found (counts.lookup p m)) ev) base'
            ∙ sub64-ebpf_tracer_read_io counts names laws et p k fs (maps v) i user hk tracked
                alive' few',
      )

-- What is assumed of bpf_map_lookup_batch: at most as many keys as are asked for, all of the map.
pub record IsBatch (counts : BpfMap ℕ) (names : BpfMap (List ℕ))
    (lookup_batch : ℕ → Maps counts names → Bool × List ℕ) : Type 0 where
  pub few : (n : ℕ) (m : Maps counts names) → length (lookup_batch n m).1 ≤ n
  pub keys :
      (n : ℕ) (m : Maps counts names) (p : ℕ)
      → elem p (lookup_batch n m).1 ≡ true
      → counts.lookup p m.active_pids ≢ none

-- At most `max_pids` pids are returned, and only such as are registered.
pub ebpf_tracer_get_active_pids-keys :
    (counts : BpfMap ℕ) (names : BpfMap (List ℕ)) (et : EbpfTracer)
    (lookup_batch : ℕ → Maps counts names → Bool × List ℕ)
    → IsBatch counts names lookup_batch
    → (max_pids : ℕ) (m : Maps counts names)
    → let pids = ebpf_tracer_get_active_pids counts names et lookup_batch max_pids m in
      (length pids ≤ max_pids)
      × ((p : ℕ) → elem p pids ≡ true → counts.lookup p m.active_pids ≢ none)
unfolding ebpf_tracer_get_active_pids
ebpf_tracer_get_active_pids-keys counts names et lookup_batch batch max_pids m =
    let n = if ltb 8192 max_pids then 8192 else max_pids in
    let P = λ (pids : List ℕ).
      (length pids ≤ max_pids)
      × ((p : ℕ) → elem p pids ≡ true → counts.lookup p m.active_pids ≢ none) in
    let none_found : P [] = (omega arith, λ p h. absurd (ground (arith, h))) in
    let le : n ≤ max_pids = ground arith in
    if_both P (not et.has_pids) none_found
      (if_both P (lookup_batch n m).0 (omega (arith, batch.few n m, le), batch.keys n m) none_found)
