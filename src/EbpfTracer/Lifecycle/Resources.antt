-- ===== src/EbpfTracer/Lifecycle/Resources.antt =====
-- The tracer of final/src/ebpf_tracer.c gives back what it holds of libbpf.
use capstone_monitor.Base.{ℕ, ◌≡◌, ap, ◌∙◌, ◌&&◌, not, List}
use capstone_monitor.LibBpf.{LibBpf, LibBpfLaws}
use capstone_monitor.EbpfTracer.Lifecycle.{
  Handle, ebpf_tracer_load, ebpf_tracer_attach, destroy_link, ebpf_tracer_destroy,
}
use capstone_monitor.EbpfTracer.Lifecycle.Held.{
  holds, linked, IsHeld, given_back, not_any, destroy_link-links, destroy_link-objects,
  close_obj-objects, close_obj-links,
}
use capstone_monitor.EbpfTracer.Lifecycle.Loading.{load-IsHeld, load-unlinked}
use capstone_monitor.EbpfTracer.Lifecycle.Attaching.{attach-IsHeld}

module _ (lib : LibBpf) (laws : LibBpfLaws lib) where
  open lib use {
    World, object_open, object_load, program_attach, find_program, map_fd, is_open, is_attached,
  }

  pub destroy-links :
      (et : Handle) (v w : World) (k : ℕ)
      → IsHeld lib laws et v w
      → is_attached (ebpf_tracer_destroy lib et w).1 k ≡ is_attached v k
  unfolding ebpf_tracer_destroy
  destroy-links et v w k h =
      let w1 = destroy_link lib et.link_sched_switch w in
      let w2 = destroy_link lib et.link_fork w1 in
      let w3 = destroy_link lib et.link_exit w2 in
      let w4 = destroy_link lib et.link_block w3 in
      let w5 = destroy_link lib et.link_exec w4 in
      let a = not (holds k et.link_sched_switch) in
      let b = not (holds k et.link_fork) in
      let c = not (holds k et.link_exit) in
      let e = not (holds k et.link_block) in
      let f = not (holds k et.link_exec) in
      close_obj-links lib laws et.obj w5 k
      ∙ destroy_link-links lib laws et.link_exec w4 k
      ∙ ap (λ x. f && x) (destroy_link-links lib laws et.link_block w3 k)
      ∙ ap (λ x. f && (e && x)) (destroy_link-links lib laws et.link_exit w2 k)
      ∙ ap (λ x. f && (e && (c && x))) (destroy_link-links lib laws et.link_fork w1 k)
      ∙ ap (λ x. f && (e && (c && (b && x)))) (destroy_link-links lib laws et.link_sched_switch w k)
      ∙ not_any (holds k et.link_sched_switch) (holds k et.link_fork) (holds k et.link_exit)
          (holds k et.link_block) (holds k et.link_exec) (is_attached w k)
      ∙ ap (λ x. not (linked k et) && x) (h.links k)
      ∙ given_back (linked k et) (is_attached v k) (h.new_links k)

  pub destroy-objects :
      (et : Handle) (v w : World) (k : ℕ)
      → IsHeld lib laws et v w
      → is_open (ebpf_tracer_destroy lib et w).1 k ≡ is_open v k
  unfolding ebpf_tracer_destroy
  destroy-objects et v w k h =
      let w1 = destroy_link lib et.link_sched_switch w in
      let w2 = destroy_link lib et.link_fork w1 in
      let w3 = destroy_link lib et.link_exit w2 in
      let w4 = destroy_link lib et.link_block w3 in
      let w5 = destroy_link lib et.link_exec w4 in
      let kept : is_open w5 k ≡ is_open w k =
        destroy_link-objects lib laws et.link_exec w4 k
        ∙ destroy_link-objects lib laws et.link_block w3 k
        ∙ destroy_link-objects lib laws et.link_exit w2 k
        ∙ destroy_link-objects lib laws et.link_fork w1 k
        ∙ destroy_link-objects lib laws et.link_sched_switch w k in
      close_obj-objects lib laws et.obj w5 k
      ∙ ap (λ x. not (holds k et.obj) && x) (kept ∙ h.objects k)
      ∙ given_back (holds k et.obj) (is_open v k) (h.new_objects k)

  -- Whether loading and attaching succeed or fail, at whichever step, `ebpf_tracer_destroy` behind
  -- them leaves open and attached exactly what was before `ebpf_tracer_load`.
  pub destroy-attach-load :
      (path : List ℕ) (v : World) (k : ℕ)
      → let l = ebpf_tracer_load lib path v in
        let t = ebpf_tracer_attach lib l.1 l.2 in
        let w = (ebpf_tracer_destroy lib t.1 t.2).1 in
        (is_open w k ≡ is_open v k) × (is_attached w k ≡ is_attached v k)
  destroy-attach-load path v k =
      let l = ebpf_tracer_load lib path v in
      let t = ebpf_tracer_attach lib l.1 l.2 in
      let held =
        attach-IsHeld lib laws l.1 v l.2 (load-IsHeld lib laws path v)
          (load-unlinked lib laws path v) in
      (destroy-objects t.1 v t.2 k held, destroy-links t.1 v t.2 k held)
