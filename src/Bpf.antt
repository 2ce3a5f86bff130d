-- ===== src/Bpf.antt =====
-- final/bpf/ctx_switch.bpf.c: the handlers of the five tracepoints, over the four maps. A handler
-- takes the fields of its context that it reads, and for block_rq_complete and sched_process_exec
-- the tgid and the name of the current task, which come from helpers of the kernel. A pid is a
-- `__u32`, and `prev_state` is the 64-bit pattern of a `__s64`.
pub mod Keys
pub mod Counts
pub mod Blocks
use capstone_monitor.Base.{
  ℕ, ◌+◌, ◌%◌, ◌^◌, Bool, not, Option, none, some, List, [], ◌∷◌, ◌==◌, leb, if◌then◌else◌,
}
use capstone_monitor.BpfMap.{BpfMap, UpdateFlag, any, noexist}

-- a call of a handler
pub data Call : Type 0 where
  sched_switch : (prev_pid prev_state : ℕ) → Call
  sched_process_fork : (child_pid : ℕ) → Call
  sched_process_exit : (pid : ℕ) (group_dead : Bool) → Call
  block_rq_complete : (tgid : ℕ) → Call
  sched_process_exec : (tgid : ℕ) (comm : List ℕ) → Call

-- the maps of counts and of flags, and that of names
module _ (counts : BpfMap ℕ) (names : BpfMap (List ℕ)) where
  pub record Maps : Type 0 where
    pub vol_ctx_switches : counts.State
    pub active_pids : counts.State
    pub io_counts : counts.State
    pub exec_comms : names.State

  -- `if (count) __sync_fetch_and_add(count, 1); else update(key, 1, BPF_ANY)`, by what the lookup
  -- returns
  unfoldable pub increment : Option ℕ → ℕ → counts.State → counts.State
  increment (some n) pid s = counts.store pid ((n + 1) % 2 ^ 64) s
  increment none pid s = counts.update any pid 1 s

  unfoldable pub handle_sched_switch : ℕ → ℕ → Maps → Maps
  handle_sched_switch prev_pid prev_state m =
      if prev_pid == 0 then m else if prev_state == 0 then m else record m {
        vol_ctx_switches =
            increment (counts.lookup prev_pid m.vol_ctx_switches) prev_pid m.vol_ctx_switches;
      }

  unfoldable pub handle_fork : ℕ → Maps → Maps
  handle_fork child_pid m = if leb child_pid 1 then m else record m {
    active_pids = counts.update any child_pid 1 m.active_pids;
    vol_ctx_switches = counts.update noexist child_pid 0 m.vol_ctx_switches;
    io_counts = counts.update noexist child_pid 0 m.io_counts;
  }

  unfoldable pub handle_exit : ℕ → Bool → Maps → Maps
  handle_exit pid group_dead m = if leb pid 1 then m else if not group_dead then m else record {
    active_pids = counts.delete pid m.active_pids;
    vol_ctx_switches = counts.delete pid m.vol_ctx_switches;
    io_counts = counts.delete pid m.io_counts;
    exec_comms = names.delete pid m.exec_comms;
  }

  -- by what the lookup in active_pids returns
  count_tracked : Option ℕ → ℕ → Maps → Maps
  count_tracked none pid m = m
  count_tracked (some _) pid m = record m {
    io_counts = increment (counts.lookup pid m.io_counts) pid m.io_counts;
  }

  unfoldable pub handle_block_rq_complete : ℕ → Maps → Maps
  unfolding count_tracked
  handle_block_rq_complete tgid m =
      if leb tgid 1 then m else count_tracked (counts.lookup tgid m.active_pids) tgid m

  unfoldable pub handle_exec : ℕ → List ℕ → Maps → Maps
  handle_exec tgid comm m = if leb tgid 1 then m else record m {
    exec_comms = names.update any tgid comm m.exec_comms;
    active_pids = counts.update noexist tgid 1 m.active_pids;
  }

  unfoldable pub handle : Call → Maps → Maps
  unfolding handle_sched_switch handle_fork handle_exit handle_block_rq_complete handle_exec
  handle (sched_switch pid state) m = handle_sched_switch pid state m
  handle (sched_process_fork pid) m = handle_fork pid m
  handle (sched_process_exit pid dead) m = handle_exit pid dead m
  handle (block_rq_complete tgid) m = handle_block_rq_complete tgid m
  handle (sched_process_exec tgid comm) m = handle_exec tgid comm m

  -- the calls in the order in which they happen
  unfoldable pub handle_all : List Call → Maps → Maps
  unfolding handle
  handle_all [] m = m
  handle_all (e ∷ es) m = handle_all es (handle e m)
