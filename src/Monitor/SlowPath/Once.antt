-- ===== src/Monitor/SlowPath/Once.antt =====
-- The slow path of final/src/monitor_final.c as samples and removals of slots, one for each slot that
-- was in use.
use capstone_monitor.Base.{
  ℕ, ◌-◌, ◌≤◌, ◌<◌, ◌≡◌, ap, ◌∙◌, ◌⊎◌, inl, inr, none, some, List, [], ◌∷◌, ltb, if◌then◌else◌,
  arith,
}
use capstone_monitor.Double.{Double}
use capstone_monitor.Os.{Os}
use capstone_monitor.PerfCounter.{RawCounters, perf_counter_read}
use capstone_monitor.Monitor.{max_cores, CoreConfig, Tracer, Daemon}
use capstone_monitor.Monitor.Deadline.{Timespec}
use capstone_monitor.Monitor.SlowPath.SlotCounts.{slots_of}
use capstone_monitor.Monitor.SlowPath.{slow_slot, exit_slot, slow_path, slow_dt}
use capstone_monitor.Monitor.SlowPath.Visits.{
  count, Visits, stop, exited, sampled, slow_path-Visits,
}
use capstone_monitor.Monitor.SlowPath.Examined.{count-Visits}

module _ (d : Double) (os : Os) (cfg : CoreConfig) (tracer : Tracer os.World) (now : ℕ) where
  open os use {World}
  open d use {Carrier}

  -- Rounds over slots in use, in any order, with the pids of the slots: one whose counter can be read
  -- is sampled, any other is removed.
  pub data Rounds (dt : Carrier)
      : Daemon Carrier × World → Daemon Carrier × World → List ℕ → Type 0 where
    over : (s : Daemon Carrier × World) → Rounds dt s s []
    removal :
        (i : ℕ) (s s' : Daemon Carrier × World) (ps : List ℕ)
        → i < s.0.tables.n_active
        → perf_counter_read os (s.0.tables.perf i) s.1 ≡ none
        → Rounds dt (exit_slot d os cfg tracer now i s) s' ps
        → Rounds dt s s' ((s.0.tables.states i).pid ∷ ps)
    sample :
        (i : ℕ) (cur : RawCounters) (s s' : Daemon Carrier × World) (ps : List ℕ)
        → i < s.0.tables.n_active
        → perf_counter_read os (s.0.tables.perf i) s.1 ≡ some cur
        → Rounds dt (slow_slot d os cfg tracer now dt i cur s) s' ps
        → Rounds dt s s' ((s.0.tables.states i).pid ∷ ps)

  Rounds-Visits :
      (dt : Carrier) (limit : ℕ) {i displayed : ℕ} {s s' : Daemon Carrier × World} {ps : List ℕ}
      → Visits d os cfg tracer now dt limit i displayed s s' ps
      → Rounds dt s s' ps
  Rounds-Visits dt limit (stop i displayed s e) = over s
  Rounds-Visits dt limit (exited i displayed s s' ps lt gone v) =
      removal i s s' ps lt gone (Rounds-Visits dt limit v)
  Rounds-Visits dt limit (sampled i displayed cur s s' ps lt read v) =
      sample i cur s s' ps lt read (Rounds-Visits dt limit v)

  -- With at most MAX_CORES cores, and without `--top` or with no more slots in use than it displays, the
  -- slow path ends, and what it has done is to sample each slot whose counter can be read and to
  -- remove each other one, one after another: every pid is examined exactly as often as slots were in
  -- use for it, also behind removals, which move a slot.
  pub slow_path-Rounds :
      (t_start last_slow : Timespec) (top_n : ℕ) (s : Daemon Carrier × World)
      → cfg.ncores ≤ max_cores
      → (top_n ≡ 0) ⊎ (s.0.tables.n_active ≤ top_n)
      → (s' : Daemon Carrier × World) × (ps : List ℕ) × (slow_path d os cfg tracer now t_start
            last_slow top_n s
          ≡ some s')
        × Rounds (slow_dt d t_start last_slow) s s' ps
        × ((p : ℕ) → count p ps ≡ slots_of p s.0.tables.states 0 s.0.tables.n_active)
  slow_path-Rounds t_start last_slow top_n s few shown =
      let n = s.0.tables.n_active in
      let dt = slow_dt d t_start last_slow in
      let limit = if ltb 0 top_n then top_n else n in
      let r = slow_path-Visits d os cfg tracer now t_start last_slow top_n s in
      let enough : n ≤ limit = elim shown [ inl z ↦ ground arith | inr le ↦ ground (arith, le) ] in
      let whole : n - 0 ≡ n = omega arith in
      (
        r.0,
        r.1,
        r.2,
        Rounds-Visits dt limit r.3,
        λ p.
            count-Visits d os cfg tracer now dt limit p few (omega (arith, enough)) r.3
            ∙ ap (slots_of p s.0.tables.states 0) whole,
      )
