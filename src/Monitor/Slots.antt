-- ===== src/Monitor/Slots.antt =====
-- Slot management of final/src/monitor_final.c: find_slot, add_pid and remove_slot.
use capstone_monitor.Base.{
  ℕ, zero, suc, ◌+◌, ◌-◌, false, Option, none, some, ◌==◌, if◌then◌else◌, Array, set, set_cell,
  for_below,
}
use capstone_monitor.Os.{Os}
use capstone_monitor.PerfCounter.{perf_counter_close}
use capstone_monitor.Monitor.{PidState, pc_idx, Tables, CoreConfig}

-- the first of the `n` slots from slot `i` on whose pid is the one looked for
unfoldable pub find_from : Array PidState → ℕ → ℕ → ℕ → Option ℕ
find_from states pid i zero = none
find_from states pid i (suc n) =
    if (states i).pid == pid then some i else find_from states pid (i + 1) n

-- the swap of the flat timestamps, for one core
abbrev pub swap_timestamps : ℕ → ℕ → ℕ → Array ℕ → Array ℕ
swap_timestamps i last c a =
    set (set a (pc_idx i c) (a (pc_idx last c))) (pc_idx last c) (a (pc_idx i c))

module _ {D : Type 0} where
  unfoldable pub find_slot : Tables D → ℕ → Option ℕ
  unfolding find_from
  find_slot t pid = find_from t.states pid 0 t.n_active

  -- the body of the loop over the cores that moves the last slot to `i`
  unfoldable pub move_core : ℕ → ℕ → ℕ → Tables D → Tables D
  move_core i last c t = record t {
    perf_pc = set_cell t.perf_pc i c (t.perf_pc last c);
    win_ipc_pc = set_cell t.win_ipc_pc i c (t.win_ipc_pc last c);
    win_llc_pc = set_cell t.win_llc_pc i c (t.win_llc_pc last c);
    core_prev = set_cell t.core_prev i c (t.core_prev last c);
    last_sm_pc_timestamp = swap_timestamps i last c t.last_sm_pc_timestamp;
  }

  -- the copies that do not depend on the core
  unfoldable pub move_slot : ℕ → ℕ → Tables D → Tables D
  move_slot i last t = record t {
    states = set t.states i (t.states last);
    win_ipc = set t.win_ipc i (t.win_ipc last);
    win_llc = set t.win_llc i (t.win_llc last);
    win_ctx = set t.win_ctx i (t.win_ctx last);
    win_io = set t.win_io i (t.win_io last);
    perf = set t.perf i (t.perf last);
    last_sm = set t.last_sm i (t.last_sm last);
    last_sm_valid = set (set t.last_sm_valid i (t.last_sm_valid last)) last false;
    last_sm_timestamp = set (set t.last_sm_timestamp i (t.last_sm_timestamp last)) last 0;
    comm = set t.comm i (t.comm last);
    last_sm_pc = set t.last_sm_pc i (t.last_sm_pc last);
  }

  unfoldable pub move_last : CoreConfig → ℕ → Tables D → Tables D
  unfolding move_slot move_core
  move_last cfg i t =
      let last = t.n_active - 1 in
      if i == last then t else for_below cfg.ncores (move_core i last) (move_slot i last t)

module _ {D : Type 0} (os : Os) (cfg : CoreConfig) where
  open os use {World}

  -- `for (c = 0; c < g_ncores; c++) perf_counter_close(&g_perf_pc[i][c]);`
  unfoldable pub close_core : ℕ → ℕ → Tables D × World → Tables D × World
  close_core i c (t, w) =
      let r = perf_counter_close os (t.perf_pc i c) w in
      (record t { perf_pc = set_cell t.perf_pc i c r.0 }, r.1)

  unfoldable pub close_slot : ℕ → Tables D × World → Tables D × World
  unfolding close_core
  close_slot i (t, w) =
      let r = perf_counter_close os (t.perf i) w in
      let t' : Tables D = record t { perf = set t.perf i r.0 } in
      if cfg.per_core then for_below cfg.ncores (close_core i) (t', r.1) else (t', r.1)

  -- Called for a slot in use only, so `g_n_active - 1` does not go below 0.
  unfoldable pub remove_slot : ℕ → Tables D × World → Tables D × World
  unfolding close_slot move_last
  remove_slot i s =
      let r = close_slot i s in
      let t = move_last cfg i r.0 in (record t { n_active = t.n_active - 1 }, r.1)
