-- ===== src/Tests/Maps.antt =====
-- Hash maps as functions, with a bound that is never reached, and calls of the handlers on them.
use capstone_monitor.Base.{
  ℕ, ◌≡◌, ◌≢◌, refl, ◌∙◌, true, false, Option, none, some, List, [], ◌∷◌, ◌==◌, if◌then◌else◌,
  arith, eq→==, ne→==,
}
use capstone_monitor.BpfMap.{BpfMap, IsHashMap, UpdateFlag, any, noexist}
use capstone_monitor.Bpf.{
  Call, sched_switch, sched_process_fork, sched_process_exit, block_rq_complete, Maps, handle_all,
  handle_exec, handle_exit,
}
use capstone_monitor.Bpf.Keys.{Alive}
use capstone_monitor.Bpf.Blocks.{Tracked}
use capstone_monitor.EbpfTracer.{
  EbpfTracer, copy_name, ebpf_tracer_read_switches, ebpf_tracer_read_io, ebpf_tracer_pop_exec_comm,
}
use capstone_monitor.EbpfTracer.Names.{ebpf_tracer_pop_exec_comm-handle_exec, handle_exit_lem}
use capstone_monitor.PerfCounter.{RawCounters}
use capstone_monitor.Monitor.{PidState}
use capstone_monitor.Monitor.SlowPath.{deltas}
use capstone_monitor.Monitor.Sources.{tracer_of}
use capstone_monitor.Monitor.Sources.Counted.{deltas-handle_all}

module _ (V : Type 0) where
  abbrev put : ℕ → Option V → (ℕ → Option V) → ℕ → Option V
  put k v s j = if k == j then v else s j

  abbrev updated : UpdateFlag → Option V → V → Option V
  updated any _ v = some v
  updated noexist none v = some v
  updated noexist (some u) v = some u

  abbrev table : BpfMap V
  table = record {
    State = ℕ → Option V;
    lookup = λ k s. s k;
    update = λ f k v s. put k (updated f (s k) v) s;
    delete = λ k s. put k none s;
    store = λ k v s. put k (some v) s;
    is_full = λ _. false;
  }

  put_other : (k j : ℕ) (v : Option V) (s : ℕ → Option V) → k ≢ j → put k v s j ≡ s j
  put_other k j v s h = rw (ne→== k j h)

  put_self : (k : ℕ) (v : Option V) (s : ℕ → Option V) → put k v s k ≡ v
  put_self k v s = rw (eq→== k k refl)

  updated_new : (f : UpdateFlag) (v : V) → updated f none v ≡ some v
  updated_new any v = refl
  updated_new noexist v = refl

  table-IsHashMap : IsHashMap table
  table-IsHashMap = record {
    update_other = λ f k j v s h. put_other k j (updated f (s k) v) s h;
    delete_other = λ k j s h. put_other k j none s h;
    store_other = λ k j v s h. put_other k j (some v) s h;
    update_any = λ k u v s h. put_self k (some v) s;
    update_noexist = λ k u v s h. put_self k (updated noexist (s k) v) s ∙ rw h;
    update_new = λ f k v s h room. put_self k (updated f (s k) v) s ∙ rw h (updated_new f v);
    delete_self = λ k s. put_self k none s;
    store_self = λ k u v s h. put_self k (some v) s;
  }

abbrev counts : BpfMap ℕ
counts = table ℕ

abbrev names : BpfMap (List ℕ)
names = table (List ℕ)

-- Process 42 is registered, with 7 switches and 3 completions.
abbrev maps : Maps counts names
maps = record {
  vol_ctx_switches = λ p. if p == 42 then some 7 else none;
  active_pids = λ p. if p == 42 then some 1 else none;
  io_counts = λ p. if p == 42 then some 3 else none;
  exec_comms = λ p. none;
}

-- two voluntary switches and one completion of 42 among other calls
abbrev calls : List Call
calls =
    sched_switch 42 1
    ∷ sched_switch 42 0
    ∷ sched_process_fork 42
    ∷ block_rq_complete 42
    ∷ sched_switch 50 1
    ∷ sched_process_exit 42 false
    ∷ sched_process_exit 50 true
    ∷ sched_switch 42 2
    ∷ []

abbrev tracer : EbpfTracer
tracer = record { has_switches = true; has_pids = true; has_io = true; has_exec = true }

abbrev idle : PidState
idle = record {
  pid = 42;
  active = true;
  prev_cycles = 0;
  prev_instructions = 0;
  prev_llc = 0;
  prev_ctx = 0;
  prev_io = 0;
}

abbrev counted : RawCounters
counted = record { cycles = 10; instructions = 20; llc_misses = 1 }

maps-Tracked : Tracked counts names (table-IsHashMap ℕ) 42 3 maps
maps-Tracked = record { flag = 1; active = refl; count = refl }

calls-Alive : Alive 42 calls
calls-Alive = (refl, (refl, (refl, (refl, (refl, (refl, (refl, (refl, tt))))))))

-- "ls", with what the array of 16 characters holds behind it
abbrev ls : List ℕ
ls = 108 ∷ 115 ∷ 0 ∷ 0 ∷ 0 ∷ 0 ∷ 0 ∷ 0 ∷ 0 ∷ 0 ∷ 0 ∷ 0 ∷ 0 ∷ 0 ∷ 0 ∷ 0 ∷ []

ebpf_tracer_pop_exec_comm-handle_exec_example :
    let r =
      ebpf_tracer_pop_exec_comm counts names tracer 42 17 (handle_exec counts names 42 ls maps) in
    (r.0 ≡ some (108 ∷ 115 ∷ []))
    × ((ebpf_tracer_pop_exec_comm counts names tracer 42 17 r.1).0 ≡ none)
unfolding copy_name
ebpf_tracer_pop_exec_comm-handle_exec_example =
    ebpf_tracer_pop_exec_comm-handle_exec counts names tracer (table-IsHashMap (List ℕ)) 42 ls maps
      refl (omega arith) refl

handle_exit_lem_example :
    let m' = handle_exit counts names 50 true maps in
    ((ebpf_tracer_read_switches counts names tracer 50 m' ≡ 0)
      × (ebpf_tracer_read_io counts names tracer 50 m' ≡ 0)
      × ((ebpf_tracer_pop_exec_comm counts names tracer 50 17 m').0 ≡ none)
      × (m'.active_pids 50 ≡ none))
    × (ebpf_tracer_read_switches counts names tracer 42 m' ≡ 7)
    × (ebpf_tracer_read_io counts names tracer 42 m' ≡ 3)
    × (m'.active_pids 42 ≡ some 1)
    × (m'.exec_comms 42 ≡ none)
unfolding ebpf_tracer_read_switches ebpf_tracer_read_io
handle_exit_lem_example =
    handle_exit_lem counts names tracer (table-IsHashMap ℕ) (table-IsHashMap (List ℕ)) 50 42 maps
      (omega arith) (λ e. omega (arith, e))

-- a state of the kernel is the maps alone
deltas-handle_all_example :
    let after = handle_all counts names calls maps in
    let d =
      deltas
        (record idle { prev_ctx = 7; prev_io = 3 })
        counted
        (ebpf_tracer_read_switches counts names tracer 42 after)
        (ebpf_tracer_read_io counts names tracer 42 after) in
    (d.d_ctx ≡ 2) × (d.d_io ≡ 1)
unfolding tracer_of ebpf_tracer_read_switches ebpf_tracer_read_io
deltas-handle_all_example =
    deltas-handle_all counts names (table-IsHashMap ℕ) tracer (Maps counts names) (λ m. m)
      (λ m _. m) (λ pid m. none) (λ pid m. none) (λ pid m. none) 42 7 3 calls calls maps maps
      (handle_all counts names calls maps) (record idle { prev_ctx = 7; prev_io = 3 }) counted refl
      refl (omega arith) (omega arith) (omega arith) refl maps-Tracked calls-Alive calls-Alive
      (omega arith) (omega arith) refl refl refl refl
