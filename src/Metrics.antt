-- ===== src/Metrics.antt =====
-- final/src/smoothed_metrics.h: one entry of the ring buffers. A `cpu_id` of -1 is `none`.
use capstone_monitor.Base.{ℕ, Option, some}

pub record SmoothedMetrics (D : Type 0) : Type 0 where
  pub pid : ℕ
  pub cpu_id : Option ℕ
  pub timestamp_ns : ℕ
  pub smoothed_ipc : D
  pub smoothed_llc_miss : D
  pub smoothed_ctx_freq : D
  pub smoothed_io_freq : D

-- a zeroed entry, at the zero of the type
abbrev pub zero_metrics : {D : Type 0} → D → SmoothedMetrics D
zero_metrics z = record {
  pid = 0;
  cpu_id = some 0;
  timestamp_ns = 0;
  smoothed_ipc = z;
  smoothed_llc_miss = z;
  smoothed_ctx_freq = z;
  smoothed_io_freq = z;
}
