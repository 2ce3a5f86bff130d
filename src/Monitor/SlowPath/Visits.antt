-- ===== src/Monitor/SlowPath/Visits.antt =====
-- Which slots the slow path of final/src/monitor_final.c examines.
use capstone_monitor.Base.{
  ℕ, zero, suc, ◌+◌, ◌-◌, ◌≤◌, ◌<◌, ◌≡◌, ap, inl, inr, false, ◌&&◌, none, some, List, [], ◌∷◌, ltb,
  if◌then◌else◌, Bool-cases, Option-cases, arith,
}
use capstone_monitor.Double.{Double}
use capstone_monitor.Os.{Os}
use capstone_monitor.PerfCounter.{RawCounters, perf_counter_read}
use capstone_monitor.Monitor.{CoreConfig, Tracer, Daemon}
use capstone_monitor.Monitor.Deadline.{Timespec}
use capstone_monitor.Monitor.Removal.{n_active-remove_slot}
use capstone_monitor.Monitor.SlowPath.SlotCounts.{hit}
use capstone_monitor.Monitor.SlowPath.Kept.{pids-slow_slot}
use capstone_monitor.Monitor.SlowPath.{slow_slot, exit_slot, slow_loop, slow_path, slow_dt}

-- how many entries of a list are `p`
abbrev pub count : ℕ → List ℕ → ℕ
count p [] = 0
count p (q ∷ qs) = hit p q + count p qs

module _ (d : Double) (os : Os) (cfg : CoreConfig) (tracer : Tracer os.World) (now : ℕ)
    (dt : d.Carrier) (limit : ℕ) where
  open os use {World}
  open d use {Carrier}

  -- The rounds of the loop over the slots, from slot `i` and with `displayed` slots sampled, with the
  -- pids of the slots that they examine: a slot that can be read is sampled once, and any other is
  -- removed.
  pub data Visits : ℕ → ℕ → Daemon Carrier × World → Daemon Carrier × World → List ℕ → Type 0 where
    stop :
        (i displayed : ℕ) (s : Daemon Carrier × World)
        → (ltb i s.0.tables.n_active && ltb displayed limit) ≡ false
        → Visits i displayed s s []
    exited :
        (i displayed : ℕ) (s s' : Daemon Carrier × World) (ps : List ℕ)
        → i < s.0.tables.n_active
        → perf_counter_read os (s.0.tables.perf i) s.1 ≡ none
        → Visits i displayed (exit_slot d os cfg tracer now i s) s' ps
        → Visits i displayed s s' ((s.0.tables.states i).pid ∷ ps)
    sampled :
        (i displayed : ℕ) (cur : RawCounters) (s s' : Daemon Carrier × World) (ps : List ℕ)
        → i < s.0.tables.n_active
        → perf_counter_read os (s.0.tables.perf i) s.1 ≡ some cur
        → Visits (i + 1) (displayed + 1) (slow_slot d os cfg tracer now dt i cur s) s' ps
        → Visits i displayed s s' ((s.0.tables.states i).pid ∷ ps)

  pub n_active-exit_slot :
      (i : ℕ) (s : Daemon Carrier × World)
      → (exit_slot d os cfg tracer now i s).0.tables.n_active ≡ s.0.tables.n_active - 1
  unfolding exit_slot
  n_active-exit_slot i (s, w) = n_active-remove_slot os cfg i (s.tables, w)

  pub n_active-slow_slot :
      (i : ℕ) (cur : RawCounters) (s : Daemon Carrier × World)
      → (slow_slot d os cfg tracer now dt i cur s).0.tables.n_active ≡ s.0.tables.n_active
  n_active-slow_slot i cur s = ap (λ v. v.0) (pids-slow_slot d os cfg tracer now dt i cur s)

  -- With a round for each slot that is left, the loop ends by its test.
  slow_loop-Visits :
      (fuel i displayed : ℕ) (s : Daemon Carrier × World)
      → s.0.tables.n_active ≤ fuel + i
      → (s' : Daemon Carrier × World) × (ps : List ℕ) × (slow_loop d os cfg tracer now dt limit fuel
            i displayed s
          ≡ some s')
        × Visits i displayed s s' ps
  unfolding slow_loop
  slow_loop-Visits zero i displayed s enough =
      let e : (ltb i s.0.tables.n_active && ltb displayed limit) ≡ false = ground arith in
      (s, [], rw e, stop i displayed s e)
  slow_loop-Visits (suc fuel) i displayed s enough =
      elim (Bool-cases (ltb i s.0.tables.n_active && ltb displayed limit)) [
        | inr e ↦ (s, [], rw e, stop i displayed s e)
        | inl e ↦
            let lt : i < s.0.tables.n_active = ground arith in
            elim (Option-cases (perf_counter_read os (s.0.tables.perf i) s.1)) [
              | inl gone ↦
                  let u = exit_slot d os cfg tracer now i s in
                  let less = n_active-exit_slot i s in
                  let r = slow_loop-Visits fuel i displayed u (omega (arith, less, lt, enough)) in
                  (
                    r.0,
                    (s.0.tables.states i).pid ∷ r.1,
                    rw (e, gone) r.2,
                    exited i displayed s r.0 r.1 lt gone r.3,
                  )
              | inr (cur, read) ↦
                  let u = slow_slot d os cfg tracer now dt i cur s in
                  let same = n_active-slow_slot i cur s in
                  let r =
                    slow_loop-Visits fuel (i + 1) (displayed + 1) u (omega (arith, same, enough)) in
                  (
                    r.0,
                    (s.0.tables.states i).pid ∷ r.1,
                    rw (e, read) r.2,
                    sampled i displayed cur s r.0 r.1 lt read r.3,
                  )
            ]
      ]

module _ (d : Double) (os : Os) (cfg : CoreConfig) (tracer : Tracer os.World) (now : ℕ) where
  -- The slow path ends, whatever `--top` is, within one round for each slot in use at its start. Its
  -- rounds examine slots in turn: one whose counter can be read is sampled, any other is removed.
  pub slow_path-Visits :
      (t_start last_slow : Timespec) (top_n : ℕ) (s : Daemon d.Carrier × os.World)
      → let dt = slow_dt d t_start last_slow in
        let limit = if ltb 0 top_n then top_n else s.0.tables.n_active in
        (s' : Daemon d.Carrier × os.World) × (ps : List ℕ) × (slow_path d os cfg tracer now t_start
            last_slow top_n s
          ≡ some s')
        × Visits d os cfg tracer now dt limit 0 0 s s' ps
  unfolding slow_path
  slow_path-Visits t_start last_slow top_n s =
      let n = s.0.tables.n_active in
      slow_loop-Visits d os cfg tracer now (slow_dt d t_start last_slow)
        (if ltb 0 top_n then top_n else n) n 0 0 s (omega arith)
