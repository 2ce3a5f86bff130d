-- ===== src/LibBpf.antt =====
-- What final/src/ebpf_tracer.c asks of libbpf: objects and links, by handles, as an interface. A NULL
-- is `none`. The laws are what the documentation of libbpf says of which objects are open and which
-- links are attached.
use capstone_monitor.Base.{ℕ, ◌≡◌, Bool, false, ◌||◌, ◌&&◌, not, Option, none, some, List, ◌==◌}

-- the maps and the programs of final/bpf/ctx_switch.bpf.c, by name
pub data MapName : Type 0 where
  vol_ctx_switches active_pids io_counts exec_comms : MapName

pub data ProgName : Type 0 where
  sched_switch fork exit block_rq_complete exec : ProgName

pub record LibBpf : Type 1 where
  pub World : Type 0
  pub object_open : List ℕ → World → Option ℕ × World
  pub object_load : ℕ → World → Bool × World
  pub object_close : ℕ → World → World
  pub map_fd : ℕ → MapName → World → Option ℕ
  pub find_program : ℕ → ProgName → World → Bool
  pub program_attach : ℕ → ProgName → World → Option ℕ × World
  pub link_destroy : ℕ → World → World
  pub is_open : World → ℕ → Bool
  pub is_attached : World → ℕ → Bool

module _ (lib : LibBpf) where
  open lib use {
    World, object_open, object_load, object_close, program_attach, link_destroy, is_open,
    is_attached,
  }

  pub record LibBpfLaws : Type 0 where
    pub open_some :
        (path : List ℕ) (w : World) (o k : ℕ)
        → (object_open path w).0 ≡ some o
        → is_open (object_open path w).1 k ≡ (o == k || is_open w k)
    pub open_fresh :
        (path : List ℕ) (w : World) (o : ℕ) → (object_open path w).0 ≡ some o → is_open w o ≡ false
    pub open_none :
        (path : List ℕ) (w : World) (k : ℕ)
        → (object_open path w).0 ≡ none
        → is_open (object_open path w).1 k ≡ is_open w k
    pub open_links :
        (path : List ℕ) (w : World) (k : ℕ) → is_attached (object_open path w).1 k ≡ is_attached w k
    pub load_objects : (o : ℕ) (w : World) (k : ℕ) → is_open (object_load o w).1 k ≡ is_open w k
    pub load_links :
        (o : ℕ) (w : World) (k : ℕ) → is_attached (object_load o w).1 k ≡ is_attached w k
    pub close_objects :
        (o : ℕ) (w : World) (k : ℕ) → is_open (object_close o w) k ≡ (not (o == k) && is_open w k)
    pub close_links :
        (o : ℕ) (w : World) (k : ℕ) → is_attached (object_close o w) k ≡ is_attached w k
    pub attach_some :
        (o : ℕ) (p : ProgName) (w : World) (l k : ℕ)
        → (program_attach o p w).0 ≡ some l
        → is_attached (program_attach o p w).1 k ≡ (l == k || is_attached w k)
    pub attach_fresh :
        (o : ℕ) (p : ProgName) (w : World) (l : ℕ)
        → (program_attach o p w).0 ≡ some l
        → is_attached w l ≡ false
    pub attach_none :
        (o : ℕ) (p : ProgName) (w : World) (k : ℕ)
        → (program_attach o p w).0 ≡ none
        → is_attached (program_attach o p w).1 k ≡ is_attached w k
    pub attach_objects :
        (o : ℕ) (p : ProgName) (w : World) (k : ℕ)
        → is_open (program_attach o p w).1 k ≡ is_open w k
    pub destroy_links :
        (l : ℕ) (w : World) (k : ℕ)
        → is_attached (link_destroy l w) k ≡ (not (l == k) && is_attached w k)
    pub destroy_objects : (l : ℕ) (w : World) (k : ℕ) → is_open (link_destroy l w) k ≡ is_open w k
