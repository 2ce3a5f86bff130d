-- ===== src/Tests/Tracers.antt =====
-- Loading, attaching and destroying the tracer, on a small libbpf.
use capstone_monitor.Base.{
  ℕ, ◌+◌, ◌≡◌, refl, ap, ◌∙◌, Bool, true, false, ◌&&◌, ◌||◌, not, Option, none, some, Array, set,
  ltb, ◌==◌, codes, arith,
}
use mathlib.Core.Path.{subst}
use capstone_monitor.LibBpf.{LibBpf, LibBpfLaws, ProgName, block_rq_complete, exec}
use capstone_monitor.EbpfTracer.Lifecycle.{
  ebpf_tracer_load, ebpf_tracer_attach, ebpf_tracer_destroy, load_object, find_maps, attach_object,
  attach_optional, attach_prog,
}
use capstone_monitor.EbpfTracer.Lifecycle.Resources.{destroy-attach-load}

-- handles are numbers, given out in order
pub record State : Type 0 where
  pub objects : ℕ
  pub is_object : Array Bool
  pub links : ℕ
  pub is_link : Array Bool

-- the tracepoint of exec is missing, and that of block_rq_complete cannot be attached
abbrev available : ProgName → Bool
available exec = false
available _ = true

abbrev attaches : ProgName → Bool
attaches block_rq_complete = false
attaches _ = true

abbrev new_link : Bool → State → Option ℕ × State
new_link true w =
    (some w.links, record w { links = w.links + 1; is_link = set w.is_link w.links true })
new_link false w = (none, w)

abbrev pub small : LibBpf
small = record {
  World = State;
  object_open = λ path w. (
    some w.objects,
    record w { objects = w.objects + 1; is_object = set w.is_object w.objects true },
  );
  object_load = λ o w. (true, w);
  object_close = λ o w. record w { is_object = set w.is_object o false };
  map_fd = λ o name w. some 3;
  find_program = λ o p w. available p;
  program_attach = λ o p w. new_link (attaches p) w;
  link_destroy = λ l w. record w { is_link = set w.is_link l false };
  is_open = λ w k. ltb k w.objects && w.is_object k;
  is_attached = λ w k. ltb k w.links && w.is_link k;
}

added :
    (n k : ℕ) (a : Array Bool) → (ltb k (n + 1) && set a n true k) ≡ (n == k || (ltb k n && a k))
unfolding set
added n k a = ground arith

removed :
    (n l k : ℕ) (a : Array Bool) → (ltb k n && set a l false k) ≡ (not (l == k) && (ltb k n && a k))
unfolding set
removed n l k a = ground arith

fresh : (n : ℕ) (a : Array Bool) → (ltb n n && a n) ≡ false
fresh n a = ground arith

same : {n m : ℕ} → some n ≡ some m → n ≡ m
same e = grind arith

not_missing : {n : ℕ} → none ≡ some n → ⊥
not_missing e = grind arith

not_there : {n : ℕ} → some n ≡ none → ⊥
not_there e = grind arith

link_some :
    (b : Bool) (w : State) (l k : ℕ)
    → (new_link b w).0 ≡ some l
    → small.is_attached (new_link b w).1 k ≡ (l == k || small.is_attached w k)
link_some true w l k e =
    added w.links k w.is_link ∙ ap (λ i. i == k || small.is_attached w k) (same e)
link_some false w l k e = absurd (not_missing e)

link_fresh :
    (b : Bool) (w : State) (l : ℕ) → (new_link b w).0 ≡ some l → small.is_attached w l ≡ false
link_fresh true w l e =
    subst (λ i. small.is_attached w i ≡ false) (same e) (fresh w.links w.is_link)
link_fresh false w l e = absurd (not_missing e)

link_none :
    (b : Bool) (w : State) (k : ℕ)
    → (new_link b w).0 ≡ none
    → small.is_attached (new_link b w).1 k ≡ small.is_attached w k
link_none true w k e = absurd (not_there e)
link_none false w k e = refl

link_objects : (b : Bool) (w : State) (k : ℕ) → small.is_open (new_link b w).1 k ≡ small.is_open w k
link_objects true w k = refl
link_objects false w k = refl

pub small_laws : LibBpfLaws small
small_laws = record {
  open_some = λ path w o k e.
      added w.objects k w.is_object ∙ ap (λ i. i == k || small.is_open w k) (same e);
  open_fresh =
      λ path w o e. subst (λ i. small.is_open w i ≡ false) (same e) (fresh w.objects w.is_object);
  open_none = λ path w k e. absurd (not_there e);
  open_links = λ path w k. refl;
  load_objects = λ o w k. refl;
  load_links = λ o w k. refl;
  close_objects = λ o w k. removed w.objects o k w.is_object;
  close_links = λ o w k. refl;
  attach_some = λ o p w l k e. link_some (attaches p) w l k e;
  attach_fresh = λ o p w l e. link_fresh (attaches p) w l e;
  attach_none = λ o p w k e. link_none (attaches p) w k e;
  attach_objects = λ o p w k. link_objects (attaches p) w k;
  destroy_links = λ l w k. removed w.links l k w.is_link;
  destroy_objects = λ l w k. refl;
}

-- an object and a link of others are there
abbrev pub others : State
others = record { objects = 1; is_object = λ k. true; links = 1; is_link = λ k. true }

destroy-attach-load_example :
    let l = ebpf_tracer_load small (codes "ctx_switch.bpf.o") others in
    let t = ebpf_tracer_attach small l.1 l.2 in
    let w = (ebpf_tracer_destroy small t.1 t.2).1 in
    (small.is_open w 0 ≡ true) × (small.is_attached w 0 ≡ true)
destroy-attach-load_example =
    destroy-attach-load small small_laws (codes "ctx_switch.bpf.o") others 0

-- Between them, three links are attached beside the one of others.
attached_links :
    let l = ebpf_tracer_load small (codes "ctx_switch.bpf.o") others in
    (ebpf_tracer_attach small l.1 l.2).2.links ≡ 4
unfolding ebpf_tracer_load load_object find_maps ebpf_tracer_attach attach_object attach_optional
    attach_prog
attached_links = refl
