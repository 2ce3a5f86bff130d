-- ===== src/EbpfTracer.antt =====
-- final/src/ebpf_tracer.c: what the daemon reads from the maps of the eBPF programs. Of
-- `ebpf_tracer_t` only the descriptors of the maps are used here, and of those only whether they
-- are there (`map_fd_... >= 0`). A pid is a `uint32_t`.
pub mod Reads
pub mod Names
pub mod Lifecycle
use capstone_monitor.Base.{
  ℕ, zero, suc, ◌-◌, Bool, Option, none, some, List, [], ◌∷◌, not, ◌==◌, ltb, if◌then◌else◌,
}
use capstone_monitor.BpfMap.{BpfMap}
use capstone_monitor.Bpf.{Maps}

pub record EbpfTracer : Type 0 where
  pub has_switches : Bool
  pub has_pids : Bool
  pub has_io : Bool
  pub has_exec : Bool

-- `count`, 0 before the lookup
abbrev pub found : Option ℕ → ℕ
found none = 0
found (some n) = n

-- The loop that copies a name: at most `n` characters, up to a NUL. The name in the map is a
-- `char[16]`, zeroed behind its end.
unfoldable pub copy_name : ℕ → List ℕ → List ℕ
copy_name zero comm = []
copy_name (suc n) [] = []
copy_name (suc n) (c ∷ comm) = let rest = copy_name n comm in if c == 0 then [] else c ∷ rest

module _ (counts : BpfMap ℕ) (names : BpfMap (List ℕ)) (et : EbpfTracer) where
  unfoldable pub ebpf_tracer_read_switches : ℕ → Maps counts names → ℕ
  ebpf_tracer_read_switches pid m =
      if not et.has_switches then 0 else found (counts.lookup pid m.vol_ctx_switches)

  unfoldable pub ebpf_tracer_read_io : ℕ → Maps counts names → ℕ
  ebpf_tracer_read_io pid m = if not et.has_io then 0 else found (counts.lookup pid m.io_counts)

  -- by what the lookup in exec_comms returns
  unfoldable pub take_comm :
      Option (List ℕ) → ℕ → ℕ → Maps counts names → Option (List ℕ) × Maps counts names
  unfolding copy_name
  take_comm none pid len m = (none, m)
  take_comm (some comm) pid len m = (
    some (copy_name (if ltb (len - 1) 16 then len - 1 else 16) comm),
    record m { exec_comms = names.delete pid m.exec_comms },
  )

  -- What `buf`, an array of `len` characters, holds up to its NUL if the call returns 1; `none` if it
  -- returns 0.
  unfoldable pub ebpf_tracer_pop_exec_comm :
      ℕ → ℕ → Maps counts names → Option (List ℕ) × Maps counts names
  unfolding take_comm
  ebpf_tracer_pop_exec_comm pid len m =
      if not et.has_exec
      then (none, m)
      else if len == 0
      then (none, m)
      else take_comm (names.lookup pid m.exec_comms) pid len m

  -- The keys that one bpf_map_lookup_batch for at most `max_pids` of them, and at most 8192, fills in.
  -- The lookup is a parameter: whether it returns 0 or fails with ENOENT, at the end of the map, and
  -- the first `batch_count` keys.
  unfoldable pub ebpf_tracer_get_active_pids :
      (ℕ → Maps counts names → Bool × List ℕ) → ℕ → Maps counts names → List ℕ
  ebpf_tracer_get_active_pids lookup_batch max_pids m =
      let r = lookup_batch (if ltb 8192 max_pids then 8192 else max_pids) m in
      if not et.has_pids then [] else if r.0 then r.1 else []
