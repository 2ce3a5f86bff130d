-- ===== src/EbpfTracer/Lifecycle.antt =====
-- The start and the end of the tracer, in final/src/ebpf_tracer.c: `ebpf_tracer_load`,
-- `ebpf_tracer_attach` and `ebpf_tracer_destroy`. Messages are left out.
pub mod Held
pub mod Loading
pub mod Attaching
pub mod Resources
use capstone_monitor.Base.{ℕ, Bool, true, false, ◌&&◌, not, Option, none, some, List, if◌then◌else◌}
use capstone_monitor.LibBpf.{
  LibBpf, MapName, vol_ctx_switches, active_pids, io_counts, exec_comms, ProgName, sched_switch,
  fork, exit, block_rq_complete, exec,
}

-- `ebpf_tracer_t`; a descriptor of -1 is `none`
pub record Handle : Type 0 where
  pub obj : Option ℕ
  pub link_sched_switch : Option ℕ
  pub link_fork : Option ℕ
  pub link_exit : Option ℕ
  pub link_block : Option ℕ
  pub link_exec : Option ℕ
  pub map_fd_switches : Option ℕ
  pub map_fd_pids : Option ℕ
  pub map_fd_io : Option ℕ
  pub map_fd_exec : Option ℕ
  pub loaded : Bool

-- zeroed, with the descriptors set to -1
abbrev pub cleared : Handle
cleared = record {
  obj = none;
  link_sched_switch = none;
  link_fork = none;
  link_exit = none;
  link_block = none;
  link_exec = none;
  map_fd_switches = none;
  map_fd_pids = none;
  map_fd_io = none;
  map_fd_exec = none;
  loaded = false;
}

abbrev pub is_some : Option ℕ → Bool
is_some none = false
is_some (some n) = true

module _ (lib : LibBpf) where
  open lib use {
    World, object_open, object_load, object_close, map_fd, find_program, program_attach,
    link_destroy,
  }

  -- behind the load: without one of the first two maps the object is closed again
  unfoldable pub find_maps : ℕ → World → Bool × Handle × World
  find_maps o w =
      let et : Handle = record cleared {
        map_fd_switches = map_fd o vol_ctx_switches w;
        map_fd_pids = map_fd o active_pids w;
        map_fd_io = map_fd o io_counts w;
        map_fd_exec = map_fd o exec_comms w;
      } in
      if not (is_some et.map_fd_switches && is_some et.map_fd_pids)
      then (false, et, object_close o w)
      else (true, record et { obj = some o; loaded = true }, w)

  unfoldable pub load_object : ℕ → World → Bool × Handle × World
  unfolding find_maps
  load_object o w =
      let r = object_load o w in
      if not r.0 then (false, cleared, object_close o r.1) else find_maps o r.1

  -- `true` for 0, `false` for -1
  unfoldable pub ebpf_tracer_load : List ℕ → World → Bool × Handle × World
  unfolding load_object
  ebpf_tracer_load path w =
      let r = object_open path w in
      elim r.0 [ none ↦ (false, cleared, r.1) | some o ↦ load_object o r.1 ]

  unfoldable pub attach_prog : ℕ → ProgName → World → Option ℕ × World
  attach_prog o p w = if not (find_program o p w) then (none, w) else program_attach o p w

  -- the two links that may be missing
  unfoldable pub attach_optional : ℕ → Handle → World → Bool × Handle × World
  unfolding attach_prog
  attach_optional o et w =
      let r = attach_prog o block_rq_complete w in
      let q = attach_prog o exec r.1 in (true, record et { link_block = r.0; link_exec = q.0 }, q.1)

  unfoldable pub attach_object : ℕ → Handle → World → Bool × Handle × World
  unfolding attach_prog attach_optional
  attach_object o et w =
      let a = attach_prog o sched_switch w in
      let b = attach_prog o fork a.1 in
      let c = attach_prog o exit b.1 in
      let et' : Handle = record et { link_sched_switch = a.0; link_fork = b.0; link_exit = c.0 } in
      if not (is_some a.0 && (is_some b.0 && is_some c.0))
      then (false, et', c.1)
      else attach_optional o et' c.1

  -- A tracer that is loaded has an object.
  unfoldable pub ebpf_tracer_attach : Handle → World → Bool × Handle × World
  unfolding attach_object
  ebpf_tracer_attach et w =
      let r : Bool × Handle × World = elim et.obj [
        | none ↦ (false, et, w)
        | some o ↦ attach_object o et w
      ] in
      if not et.loaded then (false, et, w) else r

  unfoldable pub destroy_link : Option ℕ → World → World
  destroy_link none w = w
  destroy_link (some l) w = link_destroy l w

  unfoldable pub close_obj : Option ℕ → World → World
  close_obj none w = w
  close_obj (some o) w = object_close o w

  unfoldable pub ebpf_tracer_destroy : Handle → World → Handle × World
  unfolding destroy_link close_obj
  ebpf_tracer_destroy et w =
      let w1 = destroy_link et.link_sched_switch w in
      let w2 = destroy_link et.link_fork w1 in
      let w3 = destroy_link et.link_exit w2 in
      let w4 = destroy_link et.link_block w3 in
      let w5 = destroy_link et.link_exec w4 in (cleared, close_obj et.obj w5)
