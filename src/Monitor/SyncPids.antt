-- ===== src/Monitor/SyncPids.antt =====
-- `sync_pids` of final/src/monitor_final.c: which processes have a slot. The result of clock_gettime
-- is an argument; the times are not negative, so that an elapsed time below 0, which is as good as
-- 0 in both of its tests, is 0 here.
pub mod PidList
pub mod Marking
pub mod Valid
pub mod Selected
pub mod Explicit
pub mod Total
use capstone_monitor.Base.{
  ℕ, zero, suc, ◌+◌, ◌-◌, ◌*◌, Bool, true, false, ◌&&◌, not, Option, none, some, List, [], ◌∷◌,
  ◌++◌, length, ltb, leb, ◌==◌, if◌then◌else◌, Array, min, set, for_below,
}
use capstone_monitor.Double.{Double}
use capstone_monitor.Os.{Os}
use capstone_monitor.ProcScanner.{
  ProcFs, ProcEntry, ProcScanner, Sign, proc_scanner_scan, proc_scanner_scan_pids,
  proc_scanner_top_n,
}
use capstone_monitor.Monitor.{max_pids, PidState, Tables, CoreConfig, Tracer}
use capstone_monitor.Monitor.Slots.{find_slot}
use capstone_monitor.Monitor.AddPid.{add_pid}
use capstone_monitor.Monitor.Eviction.{evict}
use capstone_monitor.Monitor.Deadline.{Timespec, nanoseconds}

-- which processes are wanted: the first `n_pids` entries of `pids`, or else the best `top_n`
pub record Selection : Type 0 where
  pub pids : List ℕ
  pub top_n : ℕ
  pub min_uid : ℕ

-- What `sync_pids` asks of the kernel, of the tracer and of the C library: the pids of the names in
-- /proc that start with a digit, the files of a process, the keys of the map `active_pids` that
-- `ebpf_tracer_get_active_pids` returns for a maximal count, whether kill(2) with signal 0 fails
-- with ESRCH, and qsort.
pub record Processes (World : Type 0) : Type 0 where
  pub proc_dir : World → Option (List ℕ)
  pub procfs : World → ProcFs
  pub active_pids : ℕ → World → List ℕ
  pub is_gone : ℕ → World → Bool
  pub qsort : (ProcEntry → ProcEntry → Sign) → List ProcEntry → List ProcEntry

-- the slots, the scanner and the static variables of the function
pub record Sync (D : Type 0) : Type 0 where
  pub tables : Tables D
  pub scanner : ProcScanner
  pub last_sync : Timespec
  pub last_full_scan : Timespec
  pub first_run : Bool

-- Step 1: the pids of `n` slots from slot `i` on.
unfoldable pub tracked_from : Array PidState → ℕ → ℕ → List ℕ
tracked_from states i zero = []
tracked_from states i (suc n) = (states i).pid ∷ tracked_from states (i + 1) n

-- whether one of `n` slots from slot `i` on is for the pid
unfoldable pub is_tracked : Array PidState → ℕ → ℕ → ℕ → Bool
is_tracked states epid i zero = false
is_tracked states epid i (suc n) =
    let rest = is_tracked states epid (i + 1) n in if (states i).pid == epid then true else rest

-- Step 2: what the loop over the pids of the tracer adds to a list of `n_pids` pids.
unfoldable pub untracked : Array PidState → ℕ → ℕ → List ℕ → List ℕ
unfolding is_tracked
untracked states n_active n_pids [] = []
untracked states n_active n_pids (epid ∷ epids) =
    let skipped = untracked states n_active n_pids epids in
    let added = epid ∷ untracked states n_active (n_pids + 1) epids in
    if ltb n_pids (max_pids * 2)
    then if is_tracked states epid 0 n_active then skipped else added
    else []

-- `pid_list`
unfoldable pub pid_list : {D : Type 0} → Tables D → List ℕ → List ℕ
unfolding tracked_from untracked
pid_list t ebpf_pids =
    let tracked = tracked_from t.states 0 (min t.n_active max_pids) in
    tracked ++ untracked t.states t.n_active (length tracked) ebpf_pids

-- whether the call is for a full walk of /proc
unfoldable pub do_full_scan : {D : Type 0} → Timespec → Sync D → Bool
do_full_scan now s =
    if s.first_run then true else leb 5000000000 (nanoseconds now - nanoseconds s.last_full_scan)

-- within a second of the last call, but for the first one, nothing is done
unfoldable pub is_throttled : {D : Type 0} → Timespec → Sync D → Bool
is_throttled now s = not s.first_run && ltb (nanoseconds now - nanoseconds s.last_sync) 1000000000

-- the state behind the modes, with the static variables
unfoldable pub sync_end : {D : Type 0} → Timespec → ProcScanner → Sync D → Tables D → Sync D
unfolding do_full_scan
sync_end now scanner s t = record {
  tables = t;
  scanner = scanner;
  last_sync = now;
  last_full_scan = if do_full_scan now s then now else s.last_full_scan;
  first_run = false;
}

-- `g_states[i].active = ...`
abbrev pub set_active : {D : Type 0} → Bool → ℕ → Tables D → Tables D
set_active b i t = record t { states = set t.states i (record (t.states i) { active = b }) }

unfoldable pub mark_inactive : {D : Type 0} → Tables D → Tables D
mark_inactive t = for_below t.n_active (set_active false) t

module _ (d : Double) (os : Os) (cfg : CoreConfig) (tracer : Tracer os.World)
    (procs : Processes os.World) where
  open os use {World}
  open d use {Carrier}

  -- the body of the loop over the pids that were given
  unfoldable pub add_missing : ℕ → Tables Carrier × World → Tables Carrier × World
  add_missing pid s = elim (find_slot s.0 pid) [
    | some slot ↦ s
    | none ↦ let r = add_pid d os cfg tracer pid s in (r.1, r.2)
  ]

  unfoldable pub add_all : List ℕ → Tables Carrier × World → Tables Carrier × World
  unfolding add_missing
  add_all [] s = s
  add_all (pid ∷ pids) s = add_all pids (add_missing pid s)

  -- `none` means that the fuel of the eviction ran out
  unfoldable pub explicit_mode : List ℕ → Tables Carrier × World → Option (Tables Carrier × World)
  unfolding add_all
  explicit_mode pids s = evict os cfg (λ st w. procs.is_gone st.pid w) (add_all pids s)

  -- `if (slot >= 0) g_states[slot].active = 1;`
  unfoldable pub mark_active : Option ℕ × Tables Carrier × World → Tables Carrier × World
  mark_active (none, t, w) = (t, w)
  mark_active (some slot, t, w) = (set_active true slot t, w)

  -- the body of the loop over `top`
  unfoldable pub keep_pid : ℕ → Tables Carrier × World → Tables Carrier × World
  unfolding mark_active
  keep_pid pid s = elim (find_slot s.0 pid) [
    | some slot ↦ mark_active (some slot, s.0, s.1)
    | none ↦ mark_active (add_pid d os cfg tracer pid s)
  ]

  unfoldable pub keep_all : List ℕ → Tables Carrier × World → Tables Carrier × World
  unfolding keep_pid
  keep_all [] s = s
  keep_all (pid ∷ pids) s = keep_all pids (keep_pid pid s)

  unfoldable pub top_mode : List ℕ → Tables Carrier × World → Option (Tables Carrier × World)
  unfolding mark_inactive keep_all
  top_mode top (t, w) = evict os cfg (λ st w. not st.active) (keep_all top (mark_inactive t, w))

  -- the scan, full or of the pids that are known
  unfoldable pub sync_scan : Timespec → Sync Carrier → World → ProcScanner
  unfolding pid_list do_full_scan
  sync_scan now s w =
      if do_full_scan now s
      then proc_scanner_scan (procs.procfs w) (procs.proc_dir w) s.scanner
      else proc_scanner_scan_pids (procs.procfs w) s.scanner
          (pid_list s.tables (procs.active_pids max_pids w))

  -- `top`
  unfoldable pub top_pids : Selection → ProcScanner → List ℕ
  top_pids sel scanner =
      proc_scanner_top_n procs.qsort scanner
        (if ltb max_pids sel.top_n then max_pids else sel.top_n) sel.min_uid

  -- the mode behind the scan
  unfoldable pub sync_slots :
      Selection → ProcScanner → Tables Carrier × World → Option (Tables Carrier × World)
  unfolding explicit_mode top_mode top_pids
  sync_slots sel scanner s =
      if ltb 0 (length sel.pids)
      then explicit_mode sel.pids s
      else top_mode (top_pids sel scanner) s

  unfoldable pub sync_pids :
      Selection → Timespec → Sync Carrier × World → Option (Sync Carrier × World)
  unfolding sync_scan sync_slots sync_end is_throttled
  sync_pids sel now (s, w) =
      let scanner = sync_scan now s w in
      let slots = sync_slots sel scanner (s.tables, w) in
      let synced : Option (Sync Carrier × World) = elim slots [
        | none ↦ none
        | some r ↦ some (sync_end now scanner s r.0, r.1)
      ] in
      if is_throttled now s then some (s, w) else synced
