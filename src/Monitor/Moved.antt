-- ===== src/Monitor/Moved.antt =====
-- When a slot of one state of the arrays of final/src/monitor_final.c is a slot of another.
use capstone_monitor.Base.{ℕ, ◌<◌, ◌≡◌, refl, ap, ◌∙◌, Array}
use capstone_monitor.PerfCounter.{PerfCounter}
use capstone_monitor.Monitor.{pc_idx, Tables}

-- Slot `j` of the new arrays is slot `k` of the old ones, with all that belongs to it: its state,
-- windows, counters, cached metrics, name, validity and timestamps, and the same of each core.
pub record IsMoved {D : Type 0} (ncores : ℕ) (t : Tables D) (k : ℕ) (t' : Tables D) (j : ℕ)
    : Type 0 where
  pub states : t'.states j ≡ t.states k
  pub win_ipc : t'.win_ipc j ≡ t.win_ipc k
  pub win_llc : t'.win_llc j ≡ t.win_llc k
  pub win_ctx : t'.win_ctx j ≡ t.win_ctx k
  pub win_io : t'.win_io j ≡ t.win_io k
  pub perf : t'.perf j ≡ t.perf k
  pub last_sm : t'.last_sm j ≡ t.last_sm k
  pub last_sm_pc : t'.last_sm_pc j ≡ t.last_sm_pc k
  pub comm : t'.comm j ≡ t.comm k
  pub last_sm_valid : t'.last_sm_valid j ≡ t.last_sm_valid k
  pub last_sm_timestamp : t'.last_sm_timestamp j ≡ t.last_sm_timestamp k
  pub perf_pc : (c : ℕ) → c < ncores → t'.perf_pc j c ≡ t.perf_pc k c
  pub win_ipc_pc : (c : ℕ) → c < ncores → t'.win_ipc_pc j c ≡ t.win_ipc_pc k c
  pub win_llc_pc : (c : ℕ) → c < ncores → t'.win_llc_pc j c ≡ t.win_llc_pc k c
  pub core_prev : (c : ℕ) → c < ncores → t'.core_prev j c ≡ t.core_prev k c
  pub last_sm_pc_timestamp :
      (c : ℕ)
      → c < ncores
      → t'.last_sm_pc_timestamp (pc_idx j c) ≡ t.last_sm_pc_timestamp (pc_idx k c)

module _ {D : Type 0} (n : ℕ) where
  pub IsMoved-refl : (t : Tables D) (j : ℕ) → IsMoved n t j t j
  IsMoved-refl t j = record {
    states = refl;
    win_ipc = refl;
    win_llc = refl;
    win_ctx = refl;
    win_io = refl;
    perf = refl;
    last_sm = refl;
    last_sm_pc = refl;
    comm = refl;
    last_sm_valid = refl;
    last_sm_timestamp = refl;
    perf_pc = λ c h. refl;
    win_ipc_pc = λ c h. refl;
    win_llc_pc = λ c h. refl;
    core_prev = λ c h. refl;
    last_sm_pc_timestamp = λ c h. refl;
  }

  pub IsMoved-trans :
      (t u v : Tables D) (j k l : ℕ) → IsMoved n t j u k → IsMoved n u k v l → IsMoved n t j v l
  IsMoved-trans t u v j k l p q = record {
    states = q.states ∙ p.states;
    win_ipc = q.win_ipc ∙ p.win_ipc;
    win_llc = q.win_llc ∙ p.win_llc;
    win_ctx = q.win_ctx ∙ p.win_ctx;
    win_io = q.win_io ∙ p.win_io;
    perf = q.perf ∙ p.perf;
    last_sm = q.last_sm ∙ p.last_sm;
    last_sm_pc = q.last_sm_pc ∙ p.last_sm_pc;
    comm = q.comm ∙ p.comm;
    last_sm_valid = q.last_sm_valid ∙ p.last_sm_valid;
    last_sm_timestamp = q.last_sm_timestamp ∙ p.last_sm_timestamp;
    perf_pc = λ c h. q.perf_pc c h ∙ p.perf_pc c h;
    win_ipc_pc = λ c h. q.win_ipc_pc c h ∙ p.win_ipc_pc c h;
    win_llc_pc = λ c h. q.win_llc_pc c h ∙ p.win_llc_pc c h;
    core_prev = λ c h. q.core_prev c h ∙ p.core_prev c h;
    last_sm_pc_timestamp = λ c h. q.last_sm_pc_timestamp c h ∙ p.last_sm_pc_timestamp c h;
  }

  -- A change of the counters of slot `i` alone leaves the other slots where they are.
  pub perf-IsMoved :
      (t : Tables D) (i j : ℕ) (perf : Array PerfCounter)
      → perf j ≡ t.perf j
      → IsMoved n t j (record t { perf = perf }) j
  perf-IsMoved t i j perf h = record {
    states = refl;
    win_ipc = refl;
    win_llc = refl;
    win_ctx = refl;
    win_io = refl;
    perf = h;
    last_sm = refl;
    last_sm_pc = refl;
    comm = refl;
    last_sm_valid = refl;
    last_sm_timestamp = refl;
    perf_pc = λ c h. refl;
    win_ipc_pc = λ c h. refl;
    win_llc_pc = λ c h. refl;
    core_prev = λ c h. refl;
    last_sm_pc_timestamp = λ c h. refl;
  }

  pub perf_pc-IsMoved :
      (t : Tables D) (j : ℕ) (perf_pc : Array (Array PerfCounter))
      → perf_pc j ≡ t.perf_pc j
      → IsMoved n t j (record t { perf_pc = perf_pc }) j
  perf_pc-IsMoved t j perf_pc h = record {
    states = refl;
    win_ipc = refl;
    win_llc = refl;
    win_ctx = refl;
    win_io = refl;
    perf = refl;
    last_sm = refl;
    last_sm_pc = refl;
    comm = refl;
    last_sm_valid = refl;
    last_sm_timestamp = refl;
    perf_pc = λ c _. ap (λ r. r c) h;
    win_ipc_pc = λ c h. refl;
    win_llc_pc = λ c h. refl;
    core_prev = λ c h. refl;
    last_sm_pc_timestamp = λ c h. refl;
  }

  -- The number of slots in use is no part of a slot.
  pub count-IsMoved :
      (t u : Tables D) (k j m : ℕ) → IsMoved n t k u j → IsMoved n t k (record u { n_active = m }) j
  count-IsMoved t u k j m p = record {
    states = p.states;
    win_ipc = p.win_ipc;
    win_llc = p.win_llc;
    win_ctx = p.win_ctx;
    win_io = p.win_io;
    perf = p.perf;
    last_sm = p.last_sm;
    last_sm_pc = p.last_sm_pc;
    comm = p.comm;
    last_sm_valid = p.last_sm_valid;
    last_sm_timestamp = p.last_sm_timestamp;
    perf_pc = p.perf_pc;
    win_ipc_pc = p.win_ipc_pc;
    win_llc_pc = p.win_llc_pc;
    core_prev = p.core_prev;
    last_sm_pc_timestamp = p.last_sm_pc_timestamp;
  }
