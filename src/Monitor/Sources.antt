-- ===== src/Monitor/Sources.antt =====
-- Where final/src/monitor_final.c gets its knowledge of the processes from: `read_proc_comm`, and the
-- interfaces of the slots and of sync_pids filled with the functions of ebpf_tracer.c and
-- proc_scanner.c, over the maps and the files that a state of the kernel stands for.
pub mod Names
pub mod Counted
use capstone_monitor.Base.{
  ℕ, zero, suc, ◌-◌, Bool, Option, none, some, List, [], ◌∷◌, take, ◌==◌, if◌then◌else◌,
}
use capstone_monitor.Bpf.{Maps}
use capstone_monitor.BpfMap.{BpfMap}
use capstone_monitor.EbpfTracer.{
  EbpfTracer, ebpf_tracer_read_switches, ebpf_tracer_read_io, ebpf_tracer_pop_exec_comm,
  ebpf_tracer_get_active_pids,
}
use capstone_monitor.ProcScanner.{ProcFs, ProcEntry, Sign}
use capstone_monitor.ProcScanner.StatLine.{read_proc_stat}
use capstone_monitor.ProcScanner.Status.{read_proc_uid}
use capstone_monitor.Monitor.{Tracer}
use capstone_monitor.Monitor.SyncPids.{Processes}

-- `if (buf[n-1] == '\n') n--;`
unfoldable pub strip_newline : List ℕ → List ℕ
strip_newline [] = []
strip_newline (c ∷ []) = if c == 10 then [] else c ∷ []
strip_newline (c ∷ d ∷ s) = c ∷ strip_newline (d ∷ s)

-- What `buf`, an array of `len` characters, holds up to its NUL. `none` as the text of /proc/PID/comm
-- stands for a file that cannot be opened; read returns as much of it as fits.
unfoldable pub read_proc_comm : ℕ → Option (List ℕ) → List ℕ
unfolding strip_newline
read_proc_comm len none = []
read_proc_comm len (some text) = strip_newline (take (len - 1) text)

-- the size of an element of `g_comm`
abbrev pub comm_size : ℕ
comm_size = 17

module _ (counts : BpfMap ℕ) (names : BpfMap (List ℕ)) (et : EbpfTracer) (World : Type 0)
    (maps : World → Maps counts names) (with_maps : Maps counts names → World → World)
    (comm_file stat_file status_file : ℕ → World → Option (List ℕ)) where
  unfoldable pub tracer_of : Tracer World
  unfolding read_proc_comm
  tracer_of = record {
    read_switches = λ pid w. ebpf_tracer_read_switches counts names et pid (maps w);
    read_io = λ pid w. ebpf_tracer_read_io counts names et pid (maps w);
    pop_exec_comm = λ pid w.
        let r = ebpf_tracer_pop_exec_comm counts names et pid comm_size (maps w) in
        (r.0, with_maps r.1 w);
    read_proc_comm = λ pid w. read_proc_comm comm_size (comm_file pid w);
  }

  unfoldable pub processes_of :
      (World → Option (List ℕ))
      → (ℕ → Maps counts names → Bool × List ℕ)
      → (ℕ → World → Bool)
      → ((ProcEntry → ProcEntry → Sign) → List ProcEntry → List ProcEntry)
      → Processes World
  processes_of proc_dir lookup_batch is_gone qsort = record {
    proc_dir = proc_dir;
    procfs = λ w. record {
      stat = λ pid. read_proc_stat (stat_file pid w);
      uid = λ pid. read_proc_uid (status_file pid w);
    };
    active_pids = λ n w. ebpf_tracer_get_active_pids counts names et lookup_batch n (maps w);
    is_gone = is_gone;
    qsort = qsort;
  }
