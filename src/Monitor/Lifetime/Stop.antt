-- ===== src/Monitor/Lifetime/Stop.antt =====
-- What `cleanup` and the handler of fatal signals in final/src/monitor_final.c leave.
use capstone_monitor.Base.{
  ℕ, ◌≡◌, ◌≢◌, refl, sym, ap, ◌∙◌, ◌&&◌, not, Option, none, some, List, same_text, set, set_ne,
  set_self, Array, eq_cases, inl, inr,
}
use capstone_monitor.LibBpf.{LibBpf, LibBpfLaws}
use capstone_monitor.Os.{Os, IsKernel}
use capstone_monitor.Shm.{View, set_name, Shm, ShmLaws}
use capstone_monitor.EbpfTracer.Lifecycle.{Handle}
use capstone_monitor.EbpfTracer.Lifecycle.Held.{IsHeld}
use capstone_monitor.EbpfTracer.Lifecycle.Resources.{destroy-links, destroy-objects}
use capstone_monitor.RingBuffer.Shared.{
  shm_name, shm_name_dash, rb_attach, rb_attach_dash, rb_destroy, rb_destroy_dash,
}
use capstone_monitor.RingBuffer.Shared.Views.{set_name_self, set_name_other}
use capstone_monitor.RingBuffer.Shared.Attached.{rb_destroy_named-view, rb_attach_named-IsAttached}
use capstone_monitor.Monitor.{Tables, CoreConfig}
use capstone_monitor.Monitor.Lifetime.{destroy_rings, destroy_ring, handle_fatal_signal, cleanup}
use capstone_monitor.Monitor.Lifetime.Counters.{tables_hold, close_slots-is_open}

unset_first : {B : Type 0} (m : Array B) (a b : ℕ) (x : B) → set (set m a x) b x a ≡ x
unset_first m a b x = elim (eq_cases b a) [
  | inl e ↦ ap (λ c. set (set m a x) b x c) (sym e) ∙ set_self (set m a x) b x
  | inr n ↦ set_ne (set m a x) b a x n ∙ set_self m a x
]

module _ {A : Type 0} (shm : Shm A) (laws : ShmLaws shm) where
  open shm use {World, view}

  -- Neither ring can be attached to any more.
  pub record IsGone (w : World) : Type 0 where
    pub attach : (rb_attach shm w).0 ≡ none
    pub attach_dash : (rb_attach_dash shm w).0 ≡ none

  unnamed-IsGone :
      (w : World) (names : List ℕ → Option ℕ)
      → (view w).names ≡ set_name (set_name names shm_name none) shm_name_dash none
      → IsGone w
  unfolding rb_attach rb_attach_dash same_text
  unnamed-IsGone w names e = record {
    attach = (rb_attach_named-IsAttached shm laws shm_name w).missing (
        ap (λ (n : List ℕ → Option ℕ). n shm_name) e
        ∙ set_name_other (set_name names shm_name none) shm_name_dash shm_name none refl
        ∙ set_name_self names shm_name none);
    attach_dash = (rb_attach_named-IsAttached shm laws shm_name_dash w).missing (
        ap (λ (n : List ℕ → Option ℕ). n shm_name_dash) e
        ∙ set_name_self (set_name names shm_name none) shm_name_dash none);
  }

  -- Behind the handler of fatal signals neither ring can be attached to; what is open and mapped, and
  -- what the rings hold, is as before.
  pub handle_fatal_signal-IsGone :
      (w : World)
      → let u = handle_fatal_signal shm w in
        IsGone u
        × ((view u).fds ≡ (view w).fds)
        × ((view u).maps ≡ (view w).maps)
        × ((view u).rings ≡ (view w).rings)
  unfolding handle_fatal_signal
  handle_fatal_signal-IsGone w =
      let e =
        laws.unlink shm_name_dash (shm.shm_unlink shm_name w)
        ∙ ap (λ (s : View A). record s { names = set_name s.names shm_name_dash none })
            (laws.unlink shm_name w) in
      (
        unnamed-IsGone _ (view w).names (ap (λ (s : View A). s.names) e),
        ap (λ (s : View A). s.fds) e,
        ap (λ (s : View A). s.maps) e,
        ap (λ (s : View A). s.rings) e,
      )

  destroy_rings-view :
      (a b : ℕ) (w : World)
      → view (destroy_rings shm (some a) (some b) w) ≡ record (view w) {
        maps = set (set (view w).maps a none) b none;
        names = set_name (set_name (view w).names shm_name none) shm_name_dash none;
      }
  unfolding destroy_rings destroy_ring rb_destroy rb_destroy_dash
  destroy_rings-view a b w =
      rb_destroy_named-view shm laws b shm_name_dash (rb_destroy shm a w)
      ∙ ap
          (λ (s : View A). record s {
            maps = set s.maps b none;
            names = set_name s.names shm_name_dash none;
          })
          (rb_destroy_named-view shm laws a shm_name w)

  -- The rings are gone and unmapped, and nothing else has changed.
  pub record IsDestroyed (a b : ℕ) (w u : World) : Type 0 where
    pub gone : IsGone u
    pub unmapped : ((view u).maps a ≡ none) × ((view u).maps b ≡ none)
    pub others : (c : ℕ) → a ≢ c → b ≢ c → (view u).maps c ≡ (view w).maps c
    pub fds : (view u).fds ≡ (view w).fds
    pub rings : (view u).rings ≡ (view w).rings

  pub destroy_rings-IsDestroyed :
      (a b : ℕ) (w : World) → IsDestroyed a b w (destroy_rings shm (some a) (some b) w)
  destroy_rings-IsDestroyed a b w =
      let e = destroy_rings-view a b w in
      record {
        gone = unnamed-IsGone _ (view w).names (ap (λ (s : View A). s.names) e);
        unmapped = (
          ap (λ (s : View A). s.maps a) e ∙ unset_first (view w).maps a b none,
          ap (λ (s : View A). s.maps b) e ∙ set_self (set (view w).maps a none) b none,
        );
        others = λ c n m.
            ap (λ (s : View A). s.maps c) e
            ∙ set_ne (set (view w).maps a none) b c none m
            ∙ set_ne (view w).maps a c none n;
        fds = ap (λ (s : View A). s.fds) e;
        rings = ap (λ (s : View A). s.rings) e;
      }

module _ {A D : Type 0} (os : Os) (kernel : IsKernel os) (lib : LibBpf) (lib_laws : LibBpfLaws lib)
    (shm : Shm A) (shm_laws : ShmLaws shm) where
  -- `cleanup` gives back all that the daemon holds: of the open descriptors those of the counters of
  -- the slots are closed; where the tracer holds exactly what is open and attached besides what was
  -- at `v`, that is open and attached again; and neither ring is mapped or can be attached to.
  pub cleanup-IsDestroyed :
      (cfg : CoreConfig) (et : Handle) (a b : ℕ) (t : Tables D) (w : os.World) (v lw : lib.World)
      (sw : shm.World)
      → IsHeld lib lib_laws et v lw
      → let r = cleanup lib shm os cfg et (some a) (some b) (t, w) lw sw in
        ((f : ℕ) → os.is_open r.0.1 f ≡ (os.is_open w f && not (tables_hold cfg t f)))
        × ((k : ℕ)
            → (lib.is_open r.1 k ≡ lib.is_open v k) × (lib.is_attached r.1 k ≡ lib.is_attached v k))
        × IsDestroyed shm shm_laws a b sw r.2
  unfolding cleanup
  cleanup-IsDestroyed cfg et a b t w v lw sw held = (
    λ f. close_slots-is_open os kernel cfg t w f,
    λ k. (destroy-objects lib lib_laws et v lw k held, destroy-links lib lib_laws et v lw k held),
    destroy_rings-IsDestroyed shm shm_laws a b sw,
  )
