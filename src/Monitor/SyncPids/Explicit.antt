-- ===== src/Monitor/SyncPids/Explicit.antt =====
-- Which slots the explicit mode of `sync_pids` in final/src/monitor_final.c leaves in use.
use capstone_monitor.Base.{ℕ, ◌≤◌, ◌≡◌, inl, inr, some, List, [], ◌∷◌, Option-cases}
use capstone_monitor.Double.{Double}
use capstone_monitor.Os.{Os}
use capstone_monitor.Monitor.{max_cores, PidState, Tables, CoreConfig, Tracer}
use capstone_monitor.Monitor.Slots.{find_slot}
use capstone_monitor.Monitor.Eviction.Sifted.{IsUnaffected, IsSifted, evict-IsSifted}
use capstone_monitor.Monitor.SyncPids.{Processes, add_missing, add_all, explicit_mode}
use capstone_monitor.Monitor.SyncPids.Valid.{
  IsValid, evict-keeps, remove_slot-IsValid, add_pid-IsValid,
}

module _ (d : Double) (os : Os) (cfg : CoreConfig) (tracer : Tracer os.World)
    (procs : Processes os.World) where
  open os use {World}
  open d use {Carrier}

  add_missing-IsValid :
      (pid : ℕ) (s : Tables Carrier × World)
      → IsValid s.0
      → IsValid (add_missing d os cfg tracer procs pid s).0
  unfolding add_missing
  add_missing-IsValid pid (t, w) v = elim (Option-cases (find_slot t pid)) [
    | inr (k, e) ↦ rw (add_missing, e) v
    | inl e ↦ rw (add_missing, e) (add_pid-IsValid d os cfg tracer pid t w v e)
  ]

  add_all-IsValid :
      (pids : List ℕ) (s : Tables Carrier × World)
      → IsValid s.0
      → IsValid (add_all d os cfg tracer procs pids s).0
  unfolding add_all
  add_all-IsValid [] s v = v
  add_all-IsValid (pid ∷ pids) s v =
      add_all-IsValid pids (add_missing d os cfg tracer procs pid s) (add_missing-IsValid pid s v)

  -- With at most MAX_CORES cores, slots that are valid, and a kill(2) whose answers do not depend on
  -- what a removal closes, the explicit mode ends, and behind it the slots in use are valid, and they
  -- are those behind the additions whose processes have not ended.
  pub explicit_mode-IsSifted :
      (pids : List ℕ) (s : Tables Carrier × World)
      → cfg.ncores ≤ max_cores
      → IsUnaffected Carrier os cfg (λ st w. procs.is_gone st.pid w)
      → IsValid s.0
      → let u = add_all d os cfg tracer procs pids s in
        (s' : Tables Carrier × World) × (explicit_mode d os cfg tracer procs pids s ≡ some s')
        × IsValid s'.0
        × IsSifted cfg.ncores (λ st. procs.is_gone st.pid u.1) u.0 s'.0
  unfolding explicit_mode
  explicit_mode-IsSifted pids s few unaffected v =
      let u = add_all d os cfg tracer procs pids s in
      let test = λ (st : PidState) (w : World). procs.is_gone st.pid w in
      let r = evict-IsSifted os cfg test few unaffected u in
      let valid =
        evict-keeps os cfg test IsValid (λ i s p. remove_slot-IsValid os cfg few i s p) u r.0 r.1
          (add_all-IsValid pids s v) in
      (r.0, r.1, valid, r.2)
