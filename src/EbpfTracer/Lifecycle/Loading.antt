-- ===== src/EbpfTracer/Lifecycle/Loading.antt =====
-- What `ebpf_tracer_load` of final/src/ebpf_tracer.c leaves open.
use capstone_monitor.Base.{
  ℕ, ◌≡◌, refl, sym, ap, ◌∙◌, inl, inr, Bool, true, false, ◌||◌, ◌&&◌, not, Option, none, some,
  List, ◌==◌, Bool-cases, ==→eq, if_both, arith,
}
use mathlib.Core.Path.{subst}
use capstone_monitor.LibBpf.{LibBpf, LibBpfLaws, vol_ctx_switches, active_pids}
use capstone_monitor.EbpfTracer.Lifecycle.{
  Handle, cleared, is_some, find_maps, load_object, ebpf_tracer_load,
}
use capstone_monitor.EbpfTracer.Lifecycle.Held.{holds, linked, IsHeld, given_back}

module _ (lib : LibBpf) (laws : LibBpfLaws lib) where
  open lib use {
    World, object_open, object_load, program_attach, find_program, map_fd, is_open, is_attached,
  }

  pub open-objects :
      (path : List ℕ) (v : World) (r : Option ℕ) (k : ℕ)
      → (object_open path v).0 ≡ r
      → is_open (object_open path v).1 k ≡ (holds k r || is_open v k)
  open-objects path v none k e = laws.open_none path v k e
  open-objects path v (some o) k e = laws.open_some path v o k e

  -- An object that was opened and is closed again.
  pub closed-IsHeld :
      (et : Handle) (o : ℕ) (v w : World)
      → et.obj ≡ none
      → ((k : ℕ) → linked k et ≡ false)
      → ((k : ℕ) → is_attached w k ≡ is_attached v k)
      → ((k : ℕ) → is_open w k ≡ (o == k || is_open v k))
      → is_open v o ≡ false
      → IsHeld lib laws et v (lib.object_close o w)
  closed-IsHeld et o v w e n links objects fresh = record {
    links = λ k. laws.close_links o w k ∙ links k ∙ ap (λ b. b || is_attached v k) (sym (n k));
    new_links = λ k h. absurd (no_path (sym h ∙ n k));
    objects = λ k.
        laws.close_objects o w k
        ∙ ap (λ x. not (o == k) && x) (objects k)
        ∙ given_back (o == k) (is_open v k)
            (λ h. subst (λ j. is_open v j ≡ false) (==→eq o k h) fresh)
        ∙ ap (λ r. holds k r || is_open v k) (sym e);
    new_objects = λ k h. absurd (no_path (sym h ∙ ap (holds k) e));
  }
    where
      no_path : true ≡ false → ⊥
      no_path e = grind arith

  -- An object that is open, without links.
  pub opened-IsHeld :
      (et : Handle) (o : ℕ) (v w : World)
      → et.obj ≡ some o
      → ((k : ℕ) → linked k et ≡ false)
      → ((k : ℕ) → is_attached w k ≡ is_attached v k)
      → ((k : ℕ) → is_open w k ≡ (o == k || is_open v k))
      → is_open v o ≡ false
      → IsHeld lib laws et v w
  opened-IsHeld et o v w e n links objects fresh = record {
    links = λ k. links k ∙ ap (λ b. b || is_attached v k) (sym (n k));
    new_links = λ k h. absurd (no_path (sym h ∙ n k));
    objects = λ k. objects k ∙ ap (λ r. holds k r || is_open v k) (sym e);
    new_objects =
        λ k h. subst (λ j. is_open v j ≡ false) (==→eq o k (sym (ap (holds k) e) ∙ h)) fresh;
  }
    where
      no_path : true ≡ false → ⊥
      no_path e = grind arith

  pub load_object-IsHeld :
      (o : ℕ) (v w : World)
      → ((k : ℕ) → is_attached w k ≡ is_attached v k)
      → ((k : ℕ) → is_open w k ≡ (o == k || is_open v k))
      → is_open v o ≡ false
      → let r = load_object lib o w in IsHeld lib laws r.1 v r.2
  unfolding load_object find_maps
  load_object-IsHeld o v w links objects fresh =
      let u = (object_load o w).1 in
      let links' = λ (k : ℕ). laws.load_links o w k ∙ links k in
      let objects' = λ (k : ℕ). laws.load_objects o w k ∙ objects k in
      let P = λ (r : Bool × Handle × World). IsHeld lib laws r.1 v r.2 in
      if_both P (not (object_load o w).0)
        (closed-IsHeld cleared o v u refl (λ k. refl) links' objects' fresh)
        (if_both P _ (closed-IsHeld _ o v u refl (λ k. refl) links' objects' fresh)
          (opened-IsHeld _ o v u refl (λ k. refl) links' objects' fresh))

  pub load-IsHeld :
      (path : List ℕ) (v : World) → let r = ebpf_tracer_load lib path v in IsHeld lib laws r.1 v r.2
  unfolding ebpf_tracer_load
  load-IsHeld path v = by_result (object_open path v).0 refl
    where
      w : World
      w = (object_open path v).1

      by_result :
          (r : Option ℕ)
          → (object_open path v).0 ≡ r
          → let q : Bool × Handle × World = elim r [
            | none ↦ (false, cleared, w)
            | some o ↦ load_object lib o w
          ] in
            IsHeld lib laws q.1 v q.2
      by_result none e = record {
        links = λ k. laws.open_links path v k;
        new_links = λ k h. absurd (ground (arith, h));
        objects = λ k. laws.open_none path v k e;
        new_objects = λ k h. absurd (ground (arith, h));
      }
      by_result (some o) e =
          load_object-IsHeld o v w (λ k. laws.open_links path v k)
            (λ k. laws.open_some path v o k e) (laws.open_fresh path v o e)

  pub find_maps-unlinked : (o : ℕ) (w : World) (k : ℕ) → linked k (find_maps lib o w).1 ≡ false
  unfolding find_maps
  find_maps-unlinked o w k =
      let found = is_some (map_fd o vol_ctx_switches w) && is_some (map_fd o active_pids w) in
      elim (Bool-cases (not found)) [ inl m ↦ rw m refl | inr m ↦ rw m refl ]

  pub load_object-unlinked : (o : ℕ) (w : World) (k : ℕ) → linked k (load_object lib o w).1 ≡ false
  unfolding load_object
  load_object-unlinked o w k = elim (Bool-cases (object_load o w).0) [
    | inl m ↦ rw m (find_maps-unlinked o (object_load o w).1 k)
    | inr m ↦ rw m refl
  ]

  pub load-unlinked :
      (path : List ℕ) (v : World) (k : ℕ) → linked k (ebpf_tracer_load lib path v).1 ≡ false
  unfolding ebpf_tracer_load
  load-unlinked path v k = by_result (object_open path v).0
    where
      P : Bool × Handle × World → Type 0
      P q = linked k q.1 ≡ false

      by_result :
          (r : Option ℕ)
          → P (elim r [
            | none ↦ (false, cleared, (object_open path v).1)
            | some o ↦ load_object lib o (object_open path v).1
          ])
      by_result none = refl
      by_result (some o) = load_object-unlinked o (object_open path v).1 k
