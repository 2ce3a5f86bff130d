-- ===== src/Monitor/FastPath.antt =====
-- The fast path of `run_sampling_loop` in final/src/monitor_final.c: every tick the cached metrics
-- that are fresh go to the classifier's ring with a new timestamp.
pub mod Entries
pub mod Pushes
pub mod Headroom
use Prim.Native.Nat.{bit_and}
use capstone_monitor.Base.{
  ℕ, ◌+◌, ◌*◌, ◌%◌, ◌^◌, Bool, true, false, ◌||◌, not, ltb, ◌==◌, if◌then◌else◌, Array, set,
  set_cell, for_below, List,
}
use capstone_monitor.Metrics.{SmoothedMetrics}
use capstone_monitor.PerfCounter.{sub64}
use capstone_monitor.RingBuffer.Burst.{push_count}
use capstone_monitor.Monitor.{Tables, CoreConfig, Daemon, pc_idx}

-- `STALE_THRESHOLD_NS`
abbrev pub stale_threshold : ℕ
stale_threshold = 500000000

-- `now_ns - timestamp > STALE_THRESHOLD_NS`, in `uint64_t`
abbrev pub is_stale : ℕ → ℕ → Bool
is_stale now timestamp = ltb stale_threshold (sub64 now timestamp)

-- the test of the mask of `--cores`: 0 stands for all cores
unfoldable pub is_selected : ℕ → ℕ → Bool
is_selected mask c = mask == 0 || not (bit_and mask (2 ^ c) == 0)

module _ {D : Type 0} where
  -- `timestamp_ns = now_ns`
  abbrev pub stamp : ℕ → SmoothedMetrics D → SmoothedMetrics D
  stamp now m = record m { timestamp_ns = now }

  -- `if (!rb_push(g_rb, &m)) g_rb_drops++;`
  unfoldable pub push_rb : SmoothedMetrics D → Daemon D → Daemon D
  push_rb m s = let r = push_count s.rb s.rb_drops m in record s { rb = r.0; rb_drops = r.1 }

  module _ (cfg : CoreConfig) (now : ℕ) where
    -- the body of the loop over the cores
    unfoldable pub fast_core : ℕ → ℕ → Daemon D → Daemon D
    unfolding push_rb
    fast_core i c s =
        let t = s.tables in
        let m = stamp now (t.last_sm_pc i c) in
        let s' = record s { tables = record t { last_sm_pc = set_cell t.last_sm_pc i c m } } in
        if not (is_selected cfg.per_core_mask c)
        then s
        else if (t.last_sm_pc i c).pid == 0
        then s
        else if is_stale now (t.last_sm_pc_timestamp (pc_idx i c))
        then s
        else push_rb m s'

    -- the body of the loop over the slots
    unfoldable pub fast_slot : ℕ → Daemon D → Daemon D
    unfolding push_rb fast_core
    fast_slot i s =
        let t = s.tables in
        let m = stamp now (t.last_sm i) in
        let s' = push_rb m (record s { tables = record t { last_sm = set t.last_sm i m } }) in
        if not (t.last_sm_valid i)
        then s
        else if is_stale now (t.last_sm_timestamp i)
        then s
        else if cfg.per_core
        then for_below cfg.ncores (fast_core i) s'
        else s'

    unfoldable pub fast_path : Daemon D → Daemon D
    unfolding fast_slot
    fast_path s = for_below s.tables.n_active fast_slot s
