-- ===== src/Monitor/Ticks.antt =====
-- `run_sampling_loop` of final/src/monitor_final.c: what a tick does, and the loop. The readings of
-- the clock are arguments. `sample_num` is a number without bound: as an `int` it lasts for 2^31
-- ticks.
pub mod Invariant
use capstone_monitor.Base.{
  ℕ, ◌+◌, ◌%◌, ◌^◌, Bool, Option, none, some, List, [], ◌∷◌, leb, ◌==◌, if◌then◌else◌,
}
use capstone_monitor.Double.{Double}
use capstone_monitor.Os.{Os}
use capstone_monitor.ProcScanner.{ProcScanner}
use capstone_monitor.Monitor.{Tables, CoreConfig, Tracer, Daemon}
use capstone_monitor.Monitor.FastPath.{fast_path}
use capstone_monitor.Monitor.SlowPath.{slow_path}
use capstone_monitor.Monitor.SyncPids.{Selection, Processes, Sync, sync_pids}
use capstone_monitor.Monitor.Deadline.{Timespec, nanoseconds, deadline}

-- what the loop and the functions that it calls keep from tick to tick
pub record Loop (D : Type 0) : Type 0 where
  pub daemon : Daemon D
  pub scanner : ProcScanner
  pub last_sync : Timespec
  pub last_full_scan : Timespec
  pub first_run : Bool
  pub last_slow : Timespec
  pub health_counter : ℕ
  pub sample_num : ℕ

-- The readings of the clock in one tick, by the loop and by `sync_pids`, and what happens in the
-- kernel during clock_nanosleep, by the time at which it is to return.
pub record Tick (World : Type 0) : Type 0 where
  pub t_start : Timespec
  pub sync_now : Timespec
  pub sleep : Timespec → World → World

-- the part of the state that `sync_pids` is about
abbrev pub sync_of : {D : Type 0} → Loop D → Sync D
sync_of l = record {
  tables = l.daemon.tables;
  scanner = l.scanner;
  last_sync = l.last_sync;
  last_full_scan = l.last_full_scan;
  first_run = l.first_run;
}

-- the state behind `sync_pids`, and the counter of the heartbeat
unfoldable pub after_sync : {D : Type 0} → Timespec → Sync D → Loop D → Loop D
after_sync t_start s l = record {
  daemon = record l.daemon { tables = s.tables };
  scanner = s.scanner;
  last_sync = s.last_sync;
  last_full_scan = s.last_full_scan;
  first_run = s.first_run;
  last_slow = t_start;
  health_counter = if leb 60 (l.health_counter + 1) then 0 else l.health_counter + 1;
  sample_num = l.sample_num;
}

-- `now_ns`
abbrev pub now_ns : Timespec → ℕ
now_ns t_start = nanoseconds t_start % 2 ^ 64

module _ (d : Double) (os : Os) (cfg : CoreConfig) (tracer : Tracer os.World)
    (procs : Processes os.World) (sel : Selection) (interval_ms : ℕ) where
  open os use {World}
  open d use {Carrier}

  -- the loop over the slots, behind `sync_pids`; `last_slow` is the time before
  unfoldable pub slow_slots :
      Timespec → Timespec → Loop Carrier × World → Option (Loop Carrier × World)
  slow_slots t_start last_slow (l, w) =
      elim (slow_path d os cfg tracer (now_ns t_start) t_start last_slow sel.top_n (l.daemon, w)) [
        | none ↦ none
        | some r ↦ some (record l { daemon = r.0 }, r.1)
      ]

  -- the slow path with `sync_pids`
  unfoldable pub slow_tick : Tick World → Loop Carrier × World → Option (Loop Carrier × World)
  unfolding after_sync slow_slots
  slow_tick c (l, w) = elim (sync_pids d os cfg tracer procs sel c.sync_now (sync_of l, w)) [
    | none ↦ none
    | some r ↦ slow_slots c.t_start l.last_slow (after_sync c.t_start r.0 l, r.1)
  ]

  -- the fast path, the wait for the deadline, and the count of ticks
  unfoldable pub end_tick : Tick World → Loop Carrier × World → Loop Carrier × World
  end_tick c (l, w) = (
    record l { daemon = fast_path cfg (now_ns c.t_start) l.daemon; sample_num = l.sample_num + 1 },
    c.sleep (deadline interval_ms c.t_start) w,
  )

  -- the body of the loop
  unfoldable pub tick : Tick World → Loop Carrier × World → Option (Loop Carrier × World)
  unfolding slow_tick end_tick
  tick c s =
      let slow : Option (Loop Carrier × World) = elim (slow_tick c s) [
        | none ↦ none
        | some r ↦ some (end_tick c r)
      ] in
      if s.0.sample_num % 4 == 0 then slow else some (end_tick c s)

  -- The loop, for the ticks in which `running` is found set.
  unfoldable pub run_sampling_loop :
      List (Tick World) → Loop Carrier × World → Option (Loop Carrier × World)
  unfolding tick
  run_sampling_loop [] s = some s
  run_sampling_loop (c ∷ cs) s = elim (tick c s) [ none ↦ none | some r ↦ run_sampling_loop cs r ]
