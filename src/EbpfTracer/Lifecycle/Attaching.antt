-- ===== src/EbpfTracer/Lifecycle/Attaching.antt =====
-- What `ebpf_tracer_attach` of final/src/ebpf_tracer.c leaves attached.
use capstone_monitor.Base.{
  ℕ, ◌≡◌, sym, ap, ap₂, ◌∙◌, inl, inr, Bool, true, false, ◌||◌, ◌&&◌, not, Option, none, some,
  if◌then◌else◌, Bool-cases, if_both,
}
use capstone_monitor.LibBpf.{LibBpf, LibBpfLaws, sched_switch, fork, exit, block_rq_complete, exec}
use capstone_monitor.EbpfTracer.Lifecycle.{
  Handle, is_some, attach_prog, attach_optional, attach_object, ebpf_tracer_attach,
}
use capstone_monitor.EbpfTracer.Lifecycle.Held.{
  holds, linked, IsHeld, gather, all_false, last_false, no_path, attach_prog-links,
  attach_prog-objects, attach_prog-kept,
}

module _ (lib : LibBpf) (laws : LibBpfLaws lib) where
  open lib use {
    World, object_open, object_load, program_attach, find_program, map_fd, is_open, is_attached,
  }

  -- The attachments, from a tracer with its object and without links.
  module _ (o : ℕ) (et : Handle) (v w : World) (held : IsHeld lib laws et v w)
      (unlinked : (k : ℕ) → linked k et ≡ false) where
    block_exec : (k : ℕ) → (holds k et.link_block ≡ false) × (holds k et.link_exec ≡ false)
    block_exec k =
        last_false (holds k et.link_sched_switch) (holds k et.link_fork) (holds k et.link_exit)
          (holds k et.link_block) (holds k et.link_exec) (unlinked k)

    a : Option ℕ × World
    a = attach_prog lib o sched_switch w

    b : Option ℕ × World
    b = attach_prog lib o fork a.1

    c : Option ℕ × World
    c = attach_prog lib o exit b.1

    e : Option ℕ × World
    e = attach_prog lib o block_rq_complete c.1

    f : Option ℕ × World
    f = attach_prog lib o exec e.1

    links_before : (k : ℕ) → is_attached w k ≡ is_attached v k
    links_before k = held.links k ∙ ap (λ l. l || is_attached v k) (unlinked k)

    three_links :
        (k : ℕ)
        → is_attached c.1 k ≡ (holds k c.0 || (holds k b.0 || (holds k a.0 || is_attached v k)))
    unfolding a b c
    three_links k =
        attach_prog-links lib laws o exit b.1 k
        ∙ ap (λ x. holds k c.0 || x) (attach_prog-links lib laws o fork a.1 k)
        ∙ ap (λ x. holds k c.0 || (holds k b.0 || x))
            (attach_prog-links lib laws o sched_switch w k)
        ∙ ap (λ x. holds k c.0 || (holds k b.0 || (holds k a.0 || x))) (links_before k)

    five_links :
        (k : ℕ)
        → is_attached f.1 k ≡ (
            holds k f.0
            || (holds k e.0 || (holds k c.0 || (holds k b.0 || (holds k a.0 || is_attached v k)))))
    unfolding e f
    five_links k =
        attach_prog-links lib laws o exec e.1 k
        ∙ ap (λ x. holds k f.0 || x) (attach_prog-links lib laws o block_rq_complete c.1 k)
        ∙ ap (λ x. holds k f.0 || (holds k e.0 || x)) (three_links k)

    three_objects : (k : ℕ) → is_open c.1 k ≡ (holds k et.obj || is_open v k)
    unfolding a b c
    three_objects k =
        attach_prog-objects lib laws o exit b.1 k
        ∙ attach_prog-objects lib laws o fork a.1 k
        ∙ attach_prog-objects lib laws o sched_switch w k
        ∙ held.objects k

    -- A link that was there before is none of the new ones.
    old_link :
        (k : ℕ)
        → is_attached v k ≡ true
        → (holds k a.0 ≡ false)
          × (holds k b.0 ≡ false)
          × (holds k c.0 ≡ false)
          × (holds k e.0 ≡ false)
          × (holds k f.0 ≡ false)
    unfolding a b c e f
    old_link k h =
        let ka = attach_prog-kept lib laws o sched_switch w k (links_before k ∙ h) in
        let kb = attach_prog-kept lib laws o fork a.1 k ka.1 in
        let kc = attach_prog-kept lib laws o exit b.1 k kb.1 in
        let ke = attach_prog-kept lib laws o block_rq_complete c.1 k kc.1 in
        let kf = attach_prog-kept lib laws o exec e.1 k ke.1 in (ka.0, kb.0, kc.0, ke.0, kf.0)

    failed-IsHeld :
        IsHeld lib laws
          (record et { link_sched_switch = a.0; link_fork = b.0; link_exit = c.0 })
          v
          c.1
    failed-IsHeld = record {
      links = λ k.
          three_links k
          ∙ gather (holds k a.0) (holds k b.0) (holds k c.0) false false (is_attached v k)
          ∙ ap₂
              (λ x y.
                (holds k a.0 || (holds k b.0 || (holds k c.0 || (x || y)))) || is_attached v k)
              (sym (block_exec k).0) (sym (block_exec k).1);
      new_links = λ k h. elim (Bool-cases (is_attached v k)) [
        | inr n ↦ n
        | inl t ↦
            let o = old_link k t in
            absurd
              (no_path (sym h ∙ all_false _ _ _ _ _ o.0 o.1 o.2 (block_exec k).0 (block_exec k).1))
      ];
      objects = three_objects;
      new_objects = held.new_objects;
    }

    attached-IsHeld :
        IsHeld lib laws
          (record et {
            link_sched_switch = a.0;
            link_fork = b.0;
            link_exit = c.0;
            link_block = e.0;
            link_exec = f.0;
          })
          v
          f.1
    unfolding e f
    attached-IsHeld = record {
      links = λ k.
          five_links k
          ∙ gather (holds k a.0) (holds k b.0) (holds k c.0) (holds k e.0) (holds k f.0)
              (is_attached v k);
      new_links = λ k h. elim (Bool-cases (is_attached v k)) [
        | inr n ↦ n
        | inl t ↦
            let o = old_link k t in
            absurd (no_path (sym h ∙ all_false _ _ _ _ _ o.0 o.1 o.2 o.3 o.4))
      ];
      objects = λ k.
          attach_prog-objects lib laws o exec e.1 k
          ∙ attach_prog-objects lib laws o block_rq_complete c.1 k
          ∙ three_objects k;
      new_objects = held.new_objects;
    }

    attach_object-IsHeld : let r = attach_object lib o et w in IsHeld lib laws r.1 v r.2
    unfolding attach_object attach_optional a b c e f
    attach_object-IsHeld =
        if_both (λ (r : Bool × Handle × World). IsHeld lib laws r.1 v r.2)
          (not (is_some a.0 && (is_some b.0 && is_some c.0))) failed-IsHeld attached-IsHeld

  pub attach-IsHeld :
      (et : Handle) (v w : World)
      → IsHeld lib laws et v w
      → ((k : ℕ) → linked k et ≡ false)
      → let r = ebpf_tracer_attach lib et w in IsHeld lib laws r.1 v r.2
  unfolding ebpf_tracer_attach
  attach-IsHeld et v w h n = by_object et.obj
    where
      by_object :
          (q : Option ℕ)
          → let r : Bool × Handle × World =
              if not et.loaded
              then (false, et, w)
              else elim q [ none ↦ (false, et, w) | some o ↦ attach_object lib o et w ] in
            IsHeld lib laws r.1 v r.2
      by_object none =
          if_both (λ (r : Bool × Handle × World). IsHeld lib laws r.1 v r.2) (not et.loaded) h h
      by_object (some o) =
          if_both (λ (r : Bool × Handle × World). IsHeld lib laws r.1 v r.2) (not et.loaded) h
            (attach_object-IsHeld o et v w h n)
