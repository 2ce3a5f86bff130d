-- ===== src/Monitor/Eviction.antt =====
-- The two loops at the ends of `sync_pids` in final/src/monitor_final.c, which remove the slots of
-- ended processes and of those that are not wanted any more. A removal fills slot `i` with the old
-- last slot, so `i` stays where it is.
pub mod Sifted
use capstone_monitor.Base.{ℕ, zero, suc, ◌+◌, Bool, not, Option, none, some, ltb, if◌then◌else◌}
use capstone_monitor.Os.{Os}
use capstone_monitor.Monitor.{PidState, Tables, CoreConfig}
use capstone_monitor.Monitor.Slots.{remove_slot}

module _ {D : Type 0} (os : Os) (cfg : CoreConfig) where
  open os use {World}

  -- `for (i = ...; i < g_n_active; ) if (test) remove_slot(i); else i++;` with fuel; `none` means that
  -- the fuel ran out.
  unfoldable pub evict_from :
      (PidState → World → Bool) → ℕ → ℕ → Tables D × World → Option (Tables D × World)
  evict_from test zero i s = if ltb i s.0.n_active then none else some s
  evict_from test (suc fuel) i s =
      let removed = evict_from test fuel i (remove_slot os cfg i s) in
      let kept = evict_from test fuel (i + 1) s in
      if not (ltb i s.0.n_active) then some s else if test (s.0.states i) s.1 then removed else kept

  -- the whole loop: one round for each slot in use
  unfoldable pub evict : (PidState → World → Bool) → Tables D × World → Option (Tables D × World)
  unfolding evict_from
  evict test s = evict_from test s.0.n_active 0 s
