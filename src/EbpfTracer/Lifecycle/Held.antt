-- ===== src/EbpfTracer/Lifecycle/Held.antt =====
-- What the tracer of final/src/ebpf_tracer.c holds of libbpf, and what each call changes of it.
use capstone_monitor.Base.{
  ℕ, ◌≡◌, refl, sym, ap₂, ◌∙◌, inl, inr, Bool, true, false, ◌||◌, ◌&&◌, not, Option, none, some,
  ◌==◌, Bool-cases, ==→eq, if_both, arith,
}
use mathlib.Core.Path.{subst}
use capstone_monitor.LibBpf.{LibBpf, LibBpfLaws, ProgName}
use capstone_monitor.EbpfTracer.Lifecycle.{Handle, attach_prog, destroy_link, close_obj}

-- whether an optional handle is `k`
abbrev pub holds : ℕ → Option ℕ → Bool
holds k none = false
holds k (some l) = l == k

-- whether one of the links is `k`
abbrev pub linked : ℕ → Handle → Bool
linked k et =
    holds k et.link_sched_switch
    || (holds k et.link_fork
        || (holds k et.link_exit || (holds k et.link_block || holds k et.link_exec)))

pub given_back : (a x : Bool) → (a ≡ true → x ≡ false) → (not a && (a || x)) ≡ x
given_back true x h = sym (h refl)
given_back false x h = refl

pub not_or : (a r x : Bool) → (not r && (not a && x)) ≡ (not (a || r) && x)
not_or true true x = refl
not_or true false x = refl
not_or false true x = refl
not_or false false x = refl

pub not_any :
    (a b c d e x : Bool)
    → (not e && (not d && (not c && (not b && (not a && x)))))
      ≡ (not (a || (b || (c || (d || e)))) && x)
not_any a b c d e x =
    not_or d e (not c && (not b && (not a && x)))
    ∙ not_or c (d || e) (not b && (not a && x))
    ∙ not_or b (c || (d || e)) (not a && x)
    ∙ not_or a (b || (c || (d || e))) x

pub gather :
    (a b c e f x : Bool)
    → (f || (e || (c || (b || (a || x))))) ≡ ((a || (b || (c || (e || f)))) || x)
gather a b c e f x = ground arith

pub all_false :
    (a b c e f : Bool)
    → a ≡ false
    → b ≡ false
    → c ≡ false
    → e ≡ false
    → f ≡ false
    → (a || (b || (c || (e || f)))) ≡ false
all_false a b c e f ha hb hc he hf = ground arith

pub last_false :
    (a b c e f : Bool) → (a || (b || (c || (e || f)))) ≡ false → (e ≡ false) × (f ≡ false)
last_false a b c e f h = ground arith

pub no_path : true ≡ false → ⊥
no_path e = grind arith

module _ (lib : LibBpf) (laws : LibBpfLaws lib) where
  open lib use {
    World, object_open, object_load, program_attach, find_program, map_fd, is_open, is_attached,
  }

  -- From the state `v`, exactly what the tracer holds is open and attached besides what was.
  pub record IsHeld (et : Handle) (v w : World) : Type 0 where
    pub links : (k : ℕ) → is_attached w k ≡ (linked k et || is_attached v k)
    pub new_links : (k : ℕ) → linked k et ≡ true → is_attached v k ≡ false
    pub objects : (k : ℕ) → is_open w k ≡ (holds k et.obj || is_open v k)
    pub new_objects : (k : ℕ) → holds k et.obj ≡ true → is_open v k ≡ false

  pub program_attach-links :
      (o : ℕ) (p : ProgName) (w : World) (k : ℕ) (r : Option ℕ)
      → (program_attach o p w).0 ≡ r
      → is_attached (program_attach o p w).1 k ≡ (holds k r || is_attached w k)
  program_attach-links o p w k none e = laws.attach_none o p w k e
  program_attach-links o p w k (some l) e = laws.attach_some o p w l k e

  pub attach_prog-links :
      (o : ℕ) (p : ProgName) (w : World) (k : ℕ)
      → is_attached (attach_prog lib o p w).1 k
        ≡ (holds k (attach_prog lib o p w).0 || is_attached w k)
  unfolding attach_prog
  attach_prog-links o p w k =
      if_both (λ (r : Option ℕ × World). is_attached r.1 k ≡ (holds k r.0 || is_attached w k))
        (not (find_program o p w)) refl (program_attach-links o p w k (program_attach o p w).0 refl)

  pub program_attach-new :
      (o : ℕ) (p : ProgName) (w : World) (k : ℕ) (r : Option ℕ)
      → (program_attach o p w).0 ≡ r
      → holds k r ≡ true
      → is_attached w k ≡ false
  program_attach-new o p w k none e h = absurd (ground (arith, h))
  program_attach-new o p w k (some l) e h =
      subst (λ j. is_attached w j ≡ false) (==→eq l k h) (laws.attach_fresh o p w l e)

  pub attach_prog-new :
      (o : ℕ) (p : ProgName) (w : World) (k : ℕ)
      → holds k (attach_prog lib o p w).0 ≡ true
      → is_attached w k ≡ false
  unfolding attach_prog
  attach_prog-new o p w k =
      if_both (λ (r : Option ℕ × World). holds k r.0 ≡ true → is_attached w k ≡ false)
        (not (find_program o p w)) (λ h. absurd (ground (arith, h)))
        (program_attach-new o p w k (program_attach o p w).0 refl)

  pub attach_prog-objects :
      (o : ℕ) (p : ProgName) (w : World) (k : ℕ) → is_open (attach_prog lib o p w).1 k ≡ is_open w k
  unfolding attach_prog
  attach_prog-objects o p w k =
      if_both (λ (r : Option ℕ × World). is_open r.1 k ≡ is_open w k) (not (find_program o p w))
        refl (laws.attach_objects o p w k)

  pub destroy_link-links :
      (l : Option ℕ) (w : World) (k : ℕ)
      → is_attached (destroy_link lib l w) k ≡ (not (holds k l) && is_attached w k)
  unfolding destroy_link
  destroy_link-links none w k = refl
  destroy_link-links (some l) w k = laws.destroy_links l w k

  pub destroy_link-objects :
      (l : Option ℕ) (w : World) (k : ℕ) → is_open (destroy_link lib l w) k ≡ is_open w k
  unfolding destroy_link
  destroy_link-objects none w k = refl
  destroy_link-objects (some l) w k = laws.destroy_objects l w k

  pub close_obj-objects :
      (o : Option ℕ) (w : World) (k : ℕ)
      → is_open (close_obj lib o w) k ≡ (not (holds k o) && is_open w k)
  unfolding close_obj
  close_obj-objects none w k = refl
  close_obj-objects (some o) w k = laws.close_objects o w k

  pub close_obj-links :
      (o : Option ℕ) (w : World) (k : ℕ) → is_attached (close_obj lib o w) k ≡ is_attached w k
  unfolding close_obj
  close_obj-links none w k = refl
  close_obj-links (some o) w k = laws.close_links o w k

  -- What was attached stays so, and is not the link of a new attachment.
  pub attach_prog-kept :
      (o : ℕ) (p : ProgName) (w : World) (k : ℕ)
      → is_attached w k ≡ true
      → (holds k (attach_prog lib o p w).0 ≡ false)
        × (is_attached (attach_prog lib o p w).1 k ≡ true)
  attach_prog-kept o p w k h =
      let r = attach_prog lib o p w in
      let other : holds k r.0 ≡ false = elim (Bool-cases (holds k r.0)) [
        | inl e ↦ absurd (no_path (sym h ∙ attach_prog-new o p w k e))
        | inr e ↦ e
      ] in
      (other, attach_prog-links o p w k ∙ ap₂ ◌||◌ other h)
    where
      no_path : true ≡ false → ⊥
      no_path e = grind arith
