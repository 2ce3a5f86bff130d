-- ===== src/Monitor/FastPath/Headroom.antt =====
-- Whether the ring has room for what the fast path pushes in one tick.
use capstone_monitor.Base.{
  ℕ, zero, suc, ◌+◌, ◌-◌, ◌*◌, ◌%◌, ◌^◌, ◌≤◌, ◌<◌, ◌≡◌, sym, ap, ◌∙◌, Bool, List, [], ◌++◌,
  if◌then◌else◌, length, length-append, take_all, arith,
}
use mathlib.Core.Path.{subst}
use capstone_monitor.Metrics.{SmoothedMetrics}
use capstone_monitor.RingBuffer.{RingBuffer, rb_capacity}
use capstone_monitor.RingBuffer.Contents.{IsValid, contents}
use capstone_monitor.RingBuffer.Burst.{push_all-Burst, room}
use capstone_monitor.Monitor.{max_pids, max_cores, Tables, CoreConfig, Daemon, pc_idx}
use capstone_monitor.Monitor.FastPath.{stamp, fast_path}
use capstone_monitor.Monitor.FastPath.Entries.{
  is_wanted, concat_below, core_entry, slot_entry, core_entries, slot_entries, entries,
}
use capstone_monitor.Monitor.FastPath.Pushes.{fast_path-push_all}

length-concat_below {ℓ} :
    {A : Type ℓ} (n k : ℕ) (f : ℕ → List A)
    → ((c : ℕ) → length (f c) ≤ k)
    → length (concat_below n f) ≤ n * k
unfolding concat_below
length-concat_below zero k f h = omega arith
length-concat_below (suc n) k f h =
    omega (arith, length-append (concat_below n f) (f n), length-concat_below n k f h, h n)

length-core_entry :
    {D : Type 0} (now : ℕ) (b : Bool) (ts : ℕ) (m : SmoothedMetrics D)
    → length (core_entry now b ts m) ≤ 1
unfolding core_entry
length-core_entry now b ts m = ground arith

length-slot_entry :
    {D : Type 0} (now : ℕ) (b pc : Bool) (ts : ℕ) (m : SmoothedMetrics D)
    (ms : List (SmoothedMetrics D)) (k : ℕ)
    → length ms ≤ k
    → length (slot_entry now b ts m (if pc then ms else [])) ≤ 1 + k
unfolding slot_entry
length-slot_entry now b pc ts m ms k h = ground arith

bounded_product : (n c : ℕ) → n ≤ 256 → c ≤ 64 → n * (1 + c) ≤ 16640
bounded_product n c hn hc = grind arith

module _ {D : Type 0} (cfg : CoreConfig) (now : ℕ) where
  -- At most one entry for each slot in use and one for each of its cores.
  length-entries : (t : Tables D) → length (entries cfg now t) ≤ t.n_active * (1 + cfg.ncores)
  unfolding entries
  length-entries t = length-concat_below t.n_active (1 + cfg.ncores) (slot_entries cfg now t) λ i.
      length-slot_entry now (t.last_sm_valid i) cfg.per_core (t.last_sm_timestamp i)
        (stamp now (t.last_sm i)) (concat_below cfg.ncores (core_entries cfg now t i)) cfg.ncores
        (omega (
          arith,
          length-concat_below cfg.ncores 1 (core_entries cfg now t i) (λ c.
              length-core_entry now (is_wanted cfg.per_core_mask c)
                (t.last_sm_pc_timestamp (pc_idx i c)) (stamp now (t.last_sm_pc i c))),
        ))

  -- With at most MAX_PIDS slots in use and at most MAX_CORES cores, a fast path that starts with at
  -- most RB_CAPACITY - 1 - MAX_PIDS * (1 + MAX_CORES) unread entries in the ring drops nothing: the
  -- ring then holds the unread entries and behind them all entries of the tick, in order.
  pub fast_path-no_drops :
      (s : Daemon D)
      → IsValid s.rb
      → s.tables.n_active ≤ max_pids
      → cfg.ncores ≤ max_cores
      → s.rb_drops < 2 ^ 64
      → length (contents s.rb) + max_pids * (1 + max_cores) ≤ rb_capacity - 1
      → (contents (fast_path cfg now s).rb ≡ contents s.rb ++ entries cfg now s.tables)
        × ((fast_path cfg now s).rb_drops % 2 ^ 64 ≡ s.rb_drops)
        × IsValid (fast_path cfg now s).rb
  fast_path-no_drops s v hn hc hd h =
      let e = fast_path-push_all cfg now s in
      let b = push_all-Burst s.rb s.rb_drops (entries cfg now s.tables) v in
      let few : length (entries cfg now s.tables) ≤ room s.rb =
        omega
          (arith, length-entries s.tables, bounded_product s.tables.n_active cfg.ncores hn hc, h) in
      (
        ap (λ (r : RingBuffer (SmoothedMetrics D) × ℕ). contents r.0) e
            ∙ b.kept
            ∙ ap (◌++◌ (contents s.rb)) (take_all (room s.rb) (entries cfg now s.tables) few),
        ap (λ (r : RingBuffer (SmoothedMetrics D) × ℕ). r.1 % 2 ^ 64) e
            ∙ b.dropped
            ∙ omega (arith, few, hd),
        subst (λ (r : RingBuffer (SmoothedMetrics D) × ℕ). IsValid r.0) (sym e) b.valid,
      )
