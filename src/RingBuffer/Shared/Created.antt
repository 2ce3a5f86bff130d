-- ===== src/RingBuffer/Shared/Created.antt =====
-- What `rb_create_named` of final/src/ring_buffer.c leaves, on every path.
use capstone_monitor.Base.{
  ℕ, ◌≡◌, ◌≢◌, refl, sym, ap, ◌∙◌, inl, inr, false, Option, none, some, List, Array, set, set_self,
  set_ne, same_text, if_both, not, arith,
}
use capstone_monitor.RingBuffer.{RingBuffer, rb_init}
use capstone_monitor.RingBuffer.Shared.{mmap_shm, clear_ring, map_new, size_new, rb_create_named}
use capstone_monitor.RingBuffer.Shared.Views.{
  set_name_self, set_name_other, close-view, clear_ring-view,
}
use capstone_monitor.Shm.{View, set_name, Shm, ShmLaws}

-- From the view `v` to the view `u`, with the result `r`: no descriptor stays open, the other names
-- and the rings that are mapped stay as they were, and a ring that is returned is empty, has the
-- name and is mapped at a new address.
pub record IsCreated {A : Type 0} (blank : A) (name : List ℕ) (v : View A) (r : Option ℕ)
    (u : View A) : Type 0 where
  pub fds : u.fds ≡ v.fds
  pub names : (m : List ℕ) → same_text name m ≡ false → u.names m ≡ v.names m
  pub mapped : (a o : ℕ) → v.maps a ≡ some o → (u.maps a ≡ some o) × (u.rings o ≡ v.rings o)
  pub made :
      (a : ℕ)
      → r ≡ some a
      → (o : ℕ) × (v.maps a ≡ none)
        × ((b : ℕ) → v.maps b ≢ some o)
        × (u.names name ≡ some o)
        × (u.maps a ≡ some o)
        × (u.rings o ≡ rb_init blank)

not_missing : {n : ℕ} → none ≡ some n → ⊥
not_missing e = grind arith

same : {n m : ℕ} → some n ≡ some m → n ≡ m
same e = grind arith

module _ {A : Type 0} (shm : Shm A) (laws : ShmLaws shm) (blank : A) (name : List ℕ)
    (v : View A) where
  open shm use {World, shm_unlink, shm_create, fchmod, ftruncate, mmap, close, view}

  -- A write to an object that is not mapped.
  elsewhere :
      (o : ℕ) (x : RingBuffer A)
      → ((a : ℕ) → v.maps a ≢ some o)
      → (a p : ℕ) → v.maps a ≡ some p
      → set v.rings o x p ≡ v.rings p
  elsewhere o x new a p h = set_ne v.rings o p x (λ q. new a (h ∙ ap some (sym q)))

  -- Only names and an object that is not mapped have changed.
  unmapped-IsCreated :
      (u : View A) (names : List ℕ → Option ℕ) (rings : Array (RingBuffer A))
      → ((a p : ℕ) → v.maps a ≡ some p → rings p ≡ v.rings p)
      → ((m : List ℕ) → same_text name m ≡ false → names m ≡ v.names m)
      → u ≡ record v { names = names; rings = rings }
      → IsCreated blank name v none u
  unmapped-IsCreated u names rings kept other e = record {
    fds = ap (λ (s : View A). s.fds) e;
    names = λ m h. ap (λ (s : View A). s.names m) e ∙ other m h;
    mapped = λ a p h.
        (ap (λ (s : View A). s.maps a) e ∙ h, ap (λ (s : View A). s.rings p) e ∙ kept a p h);
    made = λ a h. absurd (not_missing h);
  }

  -- The ring is mapped, too.
  mapped-IsCreated :
      (u : View A) (names : List ℕ → Option ℕ) (o a : ℕ)
      → ((b : ℕ) → v.maps b ≢ some o)
      → ((m : List ℕ) → same_text name m ≡ false → names m ≡ v.names m)
      → names name ≡ some o
      → v.maps a ≡ none
      → u ≡ record v {
        names = names;
        maps = set v.maps a (some o);
        rings = set v.rings o (rb_init blank);
      }
      → IsCreated blank name v (some a) u
  mapped-IsCreated u names o a new other own free e = record {
    fds = ap (λ (s : View A). s.fds) e;
    names = λ m h. ap (λ (s : View A). s.names m) e ∙ other m h;
    mapped = λ b p h. (
      ap (λ (s : View A). s.maps b) e
          ∙ set_ne v.maps a b (some o) (λ q. not_missing (sym free ∙ ap v.maps q ∙ h))
          ∙ h,
      ap (λ (s : View A). s.rings p) e ∙ elsewhere o (rb_init blank) new b p h,
    );
    made = λ b h. (
      o,
      ap v.maps (sym (same h)) ∙ free,
      new,
      ap (λ (s : View A). s.names name) e ∙ own,
      ap (λ (s : View A). s.maps b) e
          ∙ ap (set v.maps a (some o)) (sym (same h))
          ∙ set_self v.maps a (some o),
      ap (λ (s : View A). s.rings o) e ∙ set_self v.rings o (rb_init blank),
    );
  }

  -- Behind the creation of an object that is not mapped.
  module _ (names : List ℕ → Option ℕ) (fd o : ℕ) (closed : v.fds fd ≡ none)
      (new : (a : ℕ) → v.maps a ≢ some o)
      (other : (m : List ℕ) → same_text name m ≡ false → names m ≡ v.names m)
      (own : names name ≡ some o) where
    opened : RingBuffer A → View A
    opened x = record v { fds = set v.fds fd (some o); names = names; rings = set v.rings o x }

    map_new-IsCreated :
        (x : RingBuffer A) (w : World)
        → view w ≡ opened x
        → let r = map_new shm blank fd w in IsCreated blank name v r.0 (view r.1)
    unfolding map_new mmap_shm opened
    map_new-IsCreated x w e = by_map (mmap fd w).0 refl
      where
        w' : World
        w' = close fd (mmap fd w).1

        fd_of : (w : World) → view w ≡ opened x → (view w).fds fd ≡ some o
        fd_of w e = ap (λ (s : View A). s.fds fd) e ∙ set_self v.fds fd (some o)

        P : Option ℕ × World → Type 0
        P r = IsCreated blank name v r.0 (view r.1)

        by_map :
            (m : Option ℕ)
            → (mmap fd w).0 ≡ m
            → P (elim m [ none ↦ (none, w') | some a ↦ (some a, clear_ring shm blank a w') ])
        by_map none h = unmapped-IsCreated _ names _ (elsewhere o x new) other (
            close-view shm laws (record v { names = names; rings = set v.rings o x }) v.fds fd
              (some o) _ closed (laws.mmap_none fd w h ∙ e))
        by_map (some a) h =
            let q = laws.mmap_some fd w o a (fd_of w e) h in
            let free = ap (λ (s : View A). s.maps a) (sym e) ∙ q.0 in
            let mapped : View A = record v { names = names; maps = set v.maps a (some o) } in
            mapped-IsCreated _ names o a new other own free (
              clear_ring-view shm laws blank mapped o a x w' (set_self v.maps a (some o)) (
                close-view shm laws (record mapped { rings = set v.rings o x }) v.fds fd (some o) _
                  closed (q.1 ∙ ap (λ (s : View A). record s { maps = set s.maps a (some o) }) e)))

    size_new-IsCreated :
        (w : World)
        → view w ≡ record v { fds = set v.fds fd (some o); names = names }
        → let r = size_new shm blank fd w in IsCreated blank name v r.0 (view r.1)
    unfolding size_new opened
    size_new-IsCreated w e =
        let w1 = (fchmod fd w).1 in
        let t = ftruncate fd w1 in
        let e1 = laws.chmod fd w ∙ e in
        let q =
          laws.truncate fd w1 o (ap (λ (s : View A). s.fds fd) e1 ∙ set_self v.fds fd (some o)) in
        let e2 = q.1 ∙ ap (λ (s : View A). record s { rings = set s.rings o q.0 }) e1 in
        if_both (λ (r : Option ℕ × World). IsCreated blank name v r.0 (view r.1)) (not t.0)
          (unmapped-IsCreated _ names _ (elsewhere o q.0 new) other (
            close-view shm laws (record v { names = names; rings = set v.rings o q.0 }) v.fds fd
              (some o) _ closed e2))
          (map_new-IsCreated q.0 t.1 e2)

-- Creating a ring: no descriptor stays open, the other names and the rings that are mapped stay as
-- they were, and a ring that is returned is empty, new, mapped at a new address and has the name.
pub rb_create_named-IsCreated :
    {A : Type 0} (shm : Shm A) (laws : ShmLaws shm) (blank : A) (name : List ℕ) (w : shm.World)
    → let r = rb_create_named shm blank name w in
      IsCreated blank name (shm.view w) r.0 (shm.view r.1)
unfolding rb_create_named
rb_create_named-IsCreated {A = A} shm laws blank name w = by_create (shm.shm_create name w0).0 refl
  where
    w0 : shm.World
    w0 = shm.shm_unlink name w

    w1 : shm.World
    w1 = (shm.shm_create name w0).1

    v : View A
    v = shm.view w

    v0 : View A
    v0 = record v { names = set_name v.names name none }

    P : Option ℕ × shm.World → Type 0
    P r = IsCreated blank name v r.0 (shm.view r.1)

    by_create :
        (r : Option ℕ)
        → (shm.shm_create name w0).0 ≡ r
        → P (elim r [ none ↦ (none, w1) | some fd ↦ size_new shm blank fd w1 ])
    by_create none h =
        unmapped-IsCreated shm laws blank name v _ v0.names v.rings (λ a p m. refl)
          (λ m d. set_name_other v.names name m none d)
          (laws.create_none name w0 h ∙ laws.unlink name w)
    by_create (some fd) h =
        let q = laws.create_some name w0 fd h in
        let e0 = laws.unlink name w in
        let names = set_name v0.names name (some q.0) in
        let new : (a : ℕ) → v.maps a ≢ some q.0 = elim q.2 [
          | inl l ↦ absurd (
              not_missing
                (sym (ap (λ (s : View A). s.names name) e0 ∙ set_name_self v.names name none) ∙ l))
          | inr f ↦ λ a m. f.1 a (ap (λ (s : View A). s.maps a) e0 ∙ m)
        ] in
        size_new-IsCreated shm laws blank name v names fd q.0
          (ap (λ (s : View A). s.fds fd) (sym e0) ∙ q.1) new
          (λ m d.
            set_name_other v0.names name m (some q.0) d ∙ set_name_other v.names name m none d)
          (set_name_self v0.names name (some q.0)) w1
          (q.3
            ∙ ap
                (λ (s : View A). record s {
                  fds = set s.fds fd (some q.0);
                  names = set_name s.names name (some q.0);
                })
                e0)
