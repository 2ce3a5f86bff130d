-- ===== src/Monitor/SyncPids/Total.antt =====
-- `sync_pids` of final/src/monitor_final.c on every path.
use capstone_monitor.Base.{
  ◌≤◌, ◌≡◌, refl, inl, inr, false, Option, some, ltb, length, Bool-cases, if_both, if◌then◌else◌,
}
use capstone_monitor.Double.{Double}
use capstone_monitor.Os.{Os}
use capstone_monitor.ProcScanner.{ProcScanner}
use capstone_monitor.Monitor.{max_cores, Tables, CoreConfig, Tracer}
use capstone_monitor.Monitor.Eviction.Sifted.{IsUnaffected}
use capstone_monitor.Monitor.Deadline.{Timespec}
use capstone_monitor.Monitor.SyncPids.{
  Selection, Processes, Sync, top_pids, sync_scan, sync_slots, sync_end, is_throttled, sync_pids,
}
use capstone_monitor.Monitor.SyncPids.Valid.{IsValid}
use capstone_monitor.Monitor.SyncPids.Selected.{top_mode-IsSelected}
use capstone_monitor.Monitor.SyncPids.Explicit.{explicit_mode-IsSifted}

module _ (d : Double) (os : Os) (cfg : CoreConfig) (tracer : Tracer os.World)
    (procs : Processes os.World) (few : cfg.ncores ≤ max_cores)
    (unaffected : IsUnaffected d.Carrier os cfg (λ st w. procs.is_gone st.pid w)) where
  open os use {World}
  open d use {Carrier}

  sync_slots-IsValid :
      (sel : Selection) (scanner : ProcScanner) (s : Tables Carrier × World)
      → IsValid s.0
      → (s' : Tables Carrier × World) × (sync_slots d os cfg tracer procs sel scanner s ≡ some s')
        × IsValid s'.0
  unfolding sync_slots
  sync_slots-IsValid sel scanner s v =
      let e = explicit_mode-IsSifted d os cfg tracer procs sel.pids s few unaffected v in
      let top = top_pids d os cfg tracer procs sel scanner in
      let t = top_mode-IsSelected d os cfg tracer procs top s few v in
      if_both
        (λ (o : Option (Tables Carrier × World)).
          (s' : Tables Carrier × World) × (o ≡ some s') × IsValid s'.0)
        (ltb 0 (length sel.pids)) (e.0, e.1, e.2) (t.0, t.1, t.2.valid)

  -- With at most MAX_CORES cores and a kill(2) whose answers do not depend on what a removal closes,
  -- `sync_pids` returns in every mode, and keeps at most MAX_PIDS slots in use, for distinct pids. A
  -- call that is throttled changes nothing; any other leaves its time in `last_sync`.
  pub sync_pids-IsValid :
      (sel : Selection) (now : Timespec) (s : Sync Carrier) (w : World)
      → IsValid s.tables
      → (r : Sync Carrier × World) × (sync_pids d os cfg tracer procs sel now (s, w) ≡ some r)
        × IsValid r.0.tables
        × (if is_throttled now s
            then r ≡ (s, w)
            else (r.0.last_sync ≡ now) × (r.0.first_run ≡ false))
  unfolding sync_pids sync_end
  sync_pids-IsValid sel now s w v =
      let scanner = sync_scan d os cfg tracer procs now s w in
      let slots = sync_slots-IsValid sel scanner (s.tables, w) v in
      elim (Bool-cases (is_throttled now s)) [
        | inl e ↦ rw e ((s, w), refl, v, refl)
        | inr e ↦
            rw (e, slots.1)
              ((sync_end now scanner s slots.0.0, slots.0.1), refl, slots.2, (refl, refl))
      ]
