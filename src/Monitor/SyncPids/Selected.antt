-- ===== src/Monitor/SyncPids/Selected.antt =====
-- Which slots the top-N mode of `sync_pids` in final/src/monitor_final.c leaves in use.
use capstone_monitor.Base.{
  ℕ, ◌≤◌, ◌<◌, ◌≡◌, refl, sym, ap, ◌∙◌, Bool, true, false, ◌||◌, not, some, List, elem, arith,
}
use capstone_monitor.Double.{Double}
use capstone_monitor.Os.{Os}
use capstone_monitor.Monitor.{max_cores, PidState, Tables, CoreConfig, Tracer}
use capstone_monitor.Monitor.Eviction.Sifted.{IsSifted, evict-IsSifted}
use capstone_monitor.Monitor.SyncPids.{Processes, mark_inactive, keep_all, top_mode}
use capstone_monitor.Monitor.SyncPids.Valid.{IsValid, evict-keeps, remove_slot-IsValid}
use capstone_monitor.Monitor.SyncPids.Marking.{IsMarked, mark_inactive-IsMarked, keep_all-IsMarked}

-- A slot in use holds the state, marked active.
pub record IsHeld {D : Type 0} (st : PidState) (t : Tables D) : Type 0 where
  pub to : ℕ
  pub in_use : to < t.n_active
  pub states : t.states to ≡ record st { active = true }

-- From the arrays `t`: the slots in use are active and for pids of the list, no two for the same, and
-- a slot for a pid of the list is still there.
pub record IsSelected {D : Type 0} (top : List ℕ) (t t' : Tables D) : Type 0 where
  pub valid : IsValid t'
  pub wanted : (j : ℕ) → j < t'.n_active → elem (t'.states j).pid top ≡ true
  pub active : (j : ℕ) → j < t'.n_active → (t'.states j).active ≡ true
  pub held : (k : ℕ) → k < t.n_active → elem (t.states k).pid top ≡ true → IsHeld (t.states k) t'

or_false : (b : Bool) → (b || false) ≡ b
or_false true = refl
or_false false = refl

on_unless : (b : Bool) → not b ≡ false → b ≡ true
on_unless true e = refl
on_unless false e = sym e

sifted_marks :
    {D : Type 0} (ncores : ℕ) (top : List ℕ) (t u v : Tables D)
    → IsMarked (λ q. elem q top || false) t u
    → IsSifted ncores (λ st. not st.active) u v
    → IsValid v
    → IsSelected top t v
sifted_marks ncores top t u v m s valid =
    let active = λ (j : ℕ) (h : j < v.n_active). on_unless (v.states j).active (s.wanted j h) in
    record {
      valid = valid;
      wanted = λ j h.
          let f = s.from j h in
          let same = f.moved.states in
          sym (or_false (elem (v.states j).pid top))
          ∙ ap (λ (x : PidState). elem x.pid top || false) same
          ∙ sym (m.active f.from f.in_use)
          ∙ ap (λ (x : PidState). x.active) (sym same)
          ∙ active j h;
      active = active;
      held = λ k h w.
          let lt : k < u.n_active = omega (arith, h, m.more) in
          let pid = ap (λ (x : PidState). x.pid) (m.old k h) in
          let on : (u.states k).active ≡ true =
            m.active k lt ∙ or_false (elem (u.states k).pid top) ∙ ap (λ q. elem q top) pid ∙ w in
          let kept = s.kept k lt (ap not on) in
          record {
            to = kept.to;
            in_use = kept.in_use;
            states =
                kept.moved.states
                ∙ ap (λ b. record (u.states k) { active = b }) on
                ∙ ap (λ (x : PidState). record x { active = true }) (m.old k h);
          };
    }

module _ (d : Double) (os : Os) (cfg : CoreConfig) (tracer : Tracer os.World)
    (procs : Processes os.World) where
  -- With at most MAX_CORES cores, and slots that are valid, the top-N mode ends, and behind it the
  -- slots in use are valid, active, and for pids of `top` only; a slot that was for such a pid is still
  -- there with its baselines.
  pub top_mode-IsSelected :
      (top : List ℕ) (s : Tables d.Carrier × os.World)
      → cfg.ncores ≤ max_cores
      → IsValid s.0
      → (s' : Tables d.Carrier × os.World) × (top_mode d os cfg tracer procs top s ≡ some s')
        × IsSelected top s.0 s'.0
  unfolding top_mode
  top_mode-IsSelected top (t, w) few v =
      let u = keep_all d os cfg tracer procs top (mark_inactive t, w) in
      let m =
        keep_all-IsMarked d os cfg tracer procs (λ q. false) top t (mark_inactive t, w)
          (mark_inactive-IsMarked t v) in
      let test = λ (st : PidState) (x : os.World). not st.active in
      let r = evict-IsSifted os cfg test few (λ st i s. refl) u in
      let valid =
        evict-keeps os cfg test IsValid (λ i s p. remove_slot-IsValid os cfg few i s p) u r.0 r.1
          m.valid in
      (r.0, r.1, sifted_marks cfg.ncores top t u.0 r.0.0 m r.2 valid)
